-- ===== src/Archive/Kept.antt =====
-- The objects that a backup can keep.
use ndmpd.Common.{
  ℕ, ◌^◌, ◌≤◌, ◌<◌, ◌≡◌, ◌≢◌, refl, false, List, [], Option, none, some, arith, ltb, if◌then◌else◌,
  length,
}
use ndmpd.Archive.{lf_normal, lf_link, lf_symlink, lf_dir, lf_fifo, is_nul}
use ndmpd.Archive.Fields.{IsPlain}
use ndmpd.Archive.Writer.{Kind, directory, fifo, symlink, regular, Stat, link_flag}
use ndmpd.Archive.Objects.{Object}
use ndmpd.Archive.Views.{IsStat}
use ndmpd.Archive.Paths.{IsPath}
use ndmpd.Archive.Groups.{IsAcl}

-- what each kind of object asks for
abbrev pub IsKind : Kind → Object → Type 0
IsKind directory o = Unit
IsKind fifo o = (o.attr.st_nlink ≤ 1) × (o.content ≡ some []) × (o.attr.st_size ≡ 0)
IsKind symlink o = (o.attr.st_nlink ≤ 1) × (o.link ≢ [])
IsKind regular o =
    (o.attr.st_ino ≢ 0) × ((c : List ℕ) × (o.content ≡ some c) × (o.attr.st_size ≡ length c))

-- an object that a backup can keep
pub record IsObject (max_path acl_room image : ℕ) (o : Object) : Type 0 where
  pub path_fits : IsPath max_path o.path
  pub stat_fits : IsStat o.attr
  pub acl_fits : IsAcl acl_room o.acl
  pub size_fits : o.attr.st_size < 2 ^ 31
  pub one_section : o.attr.st_size ≤ image
  pub link_plain : IsPlain o.link
  pub link_fits : length o.link < max_path
  pub link_small : length o.link < 2 ^ 31
  pub kind_fits : IsKind o.attr.kind o

pub flag-directory :
    (attr : Stat) (link : List ℕ) → attr.kind ≡ directory → link_flag attr link ≡ lf_dir
unfolding link_flag
flag-directory attr link e = rw (e, link_flag) refl

pub flag-fifo : (attr : Stat) (link : List ℕ) → attr.kind ≡ fifo → link_flag attr link ≡ lf_fifo
unfolding link_flag
flag-fifo attr link e = rw (e, link_flag) refl

pub flag-symlink :
    (attr : Stat) (link : List ℕ)
    → attr.kind ≡ symlink
    → attr.st_nlink ≤ 1
    → is_nul link ≡ false
    → link_flag attr link ≡ lf_symlink
unfolding link_flag
flag-symlink attr link e le n =
    let one : ltb 1 attr.st_nlink ≡ false = ground arith in rw (e, one, n, link_flag) refl

pub flag-regular :
    (attr : Stat)
    → attr.kind ≡ regular
    → link_flag attr [] ≡ (if ltb 1 attr.st_nlink then lf_link else lf_normal)
unfolding link_flag
flag-regular attr e = rw (e, link_flag) refl

abbrev pub content_of : Option (List ℕ) → List ℕ
content_of none = []
content_of (some c) = c
