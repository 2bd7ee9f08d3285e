-- ===== src/Archive/Tests.antt =====
-- tlm/tlm_backup_reader.c and tlm/tlm_restore_writer.c on concrete objects.
use ndmpd.Common.{
  ℕ, ◌≡◌, ◌≤◌, ◌↔◌, length, refl, List, [], ◌∷◌, Option, none, some, arith, replicate, All, any,
  any-All, ◌==◌, false,
}
use ndmpd.Common.Bytes.{codes}
use ndmpd.Base64.{done, overflow}
use ndmpd.Archive.Fields.{IsPlain}
use ndmpd.Archive.Writer.{Kind, symlink, regular, Stat}
use ndmpd.Archive.Objects.{Object, Progress, put_objects, output_sections}
use ndmpd.Archive.Reader.{start, on_longname, tar_getdir}
use ndmpd.Archive.Views.{IsStat, HasPlainNames}
use ndmpd.Archive.Paths.{IsPath}
use ndmpd.Archive.Kinds.{actions}
use ndmpd.Archive.Kept.{IsObject}
use ndmpd.Archive.Roundtrip.{archive_roundtrip}
use ndmpd.Archive.Limits.{shrunk_file-goes_on, longname-overflow_iff}

abbrev user : ℕ → Option (List ℕ)
user i = some (codes "root")

user-HasPlainNames : HasPlainNames user user
user-HasPlainNames =
    (λ i. any-All (λ c. c == 0) (codes "root") refl, λ i. any-All (λ c. c == 0) (codes "root") refl)

abbrev stat : Kind → (size nlink : ℕ) → Stat
stat k size nlink = record {
  kind = k;
  perm = 0o755;
  st_size = size;
  st_uid = 0;
  st_gid = 0;
  st_mtime = 1500000000;
  st_nlink = nlink;
  st_ino = 7;
}

abbrev long_path : List ℕ
long_path = b'/' ∷ replicate 150 b'd'

abbrev first_link : Object
first_link = record {
  path = long_path;
  link = [];
  attr = stat regular 3 2;
  content = some (codes "abc");
  acl = some (codes "everyone");
}

abbrev second_link : Object
second_link = record first_link { path = codes "/b" }

abbrev shortcut : Object
shortcut = record {
  path = codes "/c";
  link = long_path;
  attr = stat symlink 151 1;
  content = none;
  acl = none;
}

stat-IsStat : (k : Kind) (size nlink : ℕ) → IsStat (stat k size nlink)
stat-IsStat k size nlink = record {
  perm_fits = omega arith;
  mtime_fits = omega arith;
  ino_fits = omega arith;
}

is_plain : (s : List ℕ) → any (λ c. c == 0) s ≡ false → IsPlain s
is_plain s h = any-All (λ c. c == 0) s h

long_path-IsPath : IsPath 1088 long_path
long_path-IsPath = record {
  is_plain = is_plain long_path refl;
  fits = omega arith;
  small = omega arith;
  rooted = refl;
}

abbrev objects : List Object
objects = first_link ∷ second_link ∷ shortcut ∷ []

objects-IsObject : All (IsObject 1088 100 1000) objects
objects-IsObject = (
  record {
    path_fits = long_path-IsPath;
    stat_fits = stat-IsStat regular 3 2;
    acl_fits = (omega arith, omega arith);
    size_fits = omega arith;
    one_section = omega arith;
    link_plain = tt;
    link_fits = omega arith;
    link_small = omega arith;
    kind_fits = (omega arith, (codes "abc", refl, refl));
  },
  (
    record {
      path_fits = record {
        is_plain = is_plain (codes "/b") refl;
        fits = omega arith;
        small = omega arith;
        rooted = refl;
      };
      stat_fits = stat-IsStat regular 3 2;
      acl_fits = (omega arith, omega arith);
      size_fits = omega arith;
      one_section = omega arith;
      link_plain = tt;
      link_fits = omega arith;
      link_small = omega arith;
      kind_fits = (omega arith, (codes "abc", refl, refl));
    },
    (
      record {
        path_fits = record {
          is_plain = is_plain (codes "/c") refl;
          fits = omega arith;
          small = omega arith;
          rooted = refl;
        };
        stat_fits = stat-IsStat symlink 151 1;
        acl_fits = tt;
        size_fits = omega arith;
        one_section = omega arith;
        link_plain = is_plain long_path refl;
        link_fits = omega arith;
        link_small = omega arith;
        kind_fits = (omega arith, λ e. cc);
      },
      tt,
    ),
  ),
)

archive_roundtrip_example :
    (bytes : List ℕ) × (p : Progress) × (put_objects user user 1088 1000
        (λ i. 0)
        []
        (record { file_count = 0; links = [] })
        objects
      ≡ some (bytes, p))
    × (tar_getdir 1088 100 bytes ≡ some (done (actions user user [] objects)))
archive_roundtrip_example =
    archive_roundtrip user user user-HasPlainNames 1088 100 1000 (λ i. 0) [] objects
      objects-IsObject

shrunk_file-goes_on_example :
    output_sections user user 1088 1000 (λ i. 0) 9 0 (codes "/b") (stat regular 3 1) 0 3 (codes "a")
    ≡ none
shrunk_file-goes_on_example =
    shrunk_file-goes_on user user 1088 1000 (λ i. 0) 9 0 (codes "/b") (stat regular 3 1) 0 3
      (codes "a") (omega arith)

longname-overflow_iff_example :
    (on_longname 20 100 (record start { file_size = 30 }) (replicate 25 b'a') ≡ overflow)
    ↔ ((20 ≤ 30) × (20 ≤ length {A = ℕ} (replicate 25 b'a')))
longname-overflow_iff_example =
    longname-overflow_iff 20 100 (record start { file_size = 30 }) (replicate 25 b'a') (omega arith)
