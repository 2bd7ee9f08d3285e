-- ===== src/Archive/Groups.antt =====
-- What `output_file_header` and `output_acl_header` put out before an object's own record is read.
use ndmpd.Common.{
  ℕ, zero, suc, ◌+◌, ◌-◌, ◌/◌, ◌%◌, ◌^◌, ◌≤◌, ◌<◌, ◌≡◌, inl, inr, refl, ◌∙◌, false, List, [], ◌∷◌,
  ◌++◌, append_assoc, Option, none, some, arith, ltb, ◌==◌, length, length-append, length-replicate,
  take, take_all, replicate, Bool-cases,
}
use ndmpd.Common.Bytes.{codes}
use ndmpd.Base64.{done}
use ndmpd.TarHeader.{uint_mod}
use ndmpd.Archive.{is_nul, header_bytes, zero_padded, lf_acl}
use ndmpd.Archive.Fields.{IsPlain}
use ndmpd.Archive.Writer.{
  Stat, output_mem, counted_name, decimal_digits, section_name, is_long, one_if, output_long_name,
  output_long_link, last_header, output_file_header,
}
use ndmpd.Archive.Objects.{acl_header, output_acl_header}
use ndmpd.Archive.Reader.{on_acl, on_flag}
use ndmpd.Archive.Variables.{Attr, Vars, View, Action, no_attr}
use ndmpd.Archive.Views.{HasPlainNames, IsStat, Carries, at_switch}
use ndmpd.Archive.Steps.{Reads, take-output_mem, drop-output_mem}
use ndmpd.Archive.LongNames.{
  Holds, held, size_of-small, at_switch-Holds, switch-Reads, long_name-Reads, long_link-Reads,
}
use ndmpd.Archive.Paths.{IsPath}

-- a name that is made up for a long one
pub record IsMade (s : List ℕ) : Type 0 where
  pub made_plain : IsPlain s
  pub made_short : length s < 100
  pub made_some : is_nul s ≡ false

decimal_digits-fits :
    (f n : ℕ) (acc : List ℕ)
    → IsPlain acc
    → IsPlain (decimal_digits f n acc) × (length (decimal_digits f n acc) ≤ f + length acc)
unfolding decimal_digits
decimal_digits-fits zero n acc h = (h, omega arith)
decimal_digits-fits (suc f) n acc h =
    let digit : ((b'0' + n % 10) == 0) ≡ false = ground arith in
    let (p, le) = decimal_digits-fits f (n / 10) ((b'0' + n % 10) ∷ acc) (digit, h) in
    elim (Bool-cases (ltb n 10)) [
      | inl e ↦ rw e ((ground arith, h), omega arith)
      | inr e ↦ rw e (p, omega (arith, le))
    ]

IsPlain-append : (s t : List ℕ) → IsPlain s → IsPlain t → IsPlain (s ++ t)
IsPlain-append [] t h k = k
IsPlain-append (c ∷ s) t (e, h) k = (e, IsPlain-append s t h k)

zeros-IsPlain : (k : ℕ) → IsPlain (replicate k b'0')
zeros-IsPlain zero = tt
zeros-IsPlain (suc k) = (refl, zeros-IsPlain k)

pub counted_name-IsMade :
    (count : ℕ) (ending : List ℕ)
    → IsPlain ending
    → length ending ≡ 4
    → IsMade (counted_name count ending)
unfolding counted_name zero_padded
counted_name-IsMade count ending p e =
    let digits = decimal_digits 20 count [] in
    let pad = replicate (8 - length digits) b'0' in
    let (plain, short) = decimal_digits-fits 20 count [] tt in
    record {
      made_plain =
          IsPlain-append (codes "././_LoNg_NaMe_") ((pad ++ digits) ++ ending) prefix-IsPlain (
            IsPlain-append (pad ++ digits) ending
              (IsPlain-append pad digits (zeros-IsPlain (8 - length digits)) plain) p);
      made_short = omega (
        arith,
        short,
        e,
        length-append (codes "././_LoNg_NaMe_") ((pad ++ digits) ++ ending),
        length-append (pad ++ digits) ending,
        length-append pad digits,
        length-replicate {A = ℕ} (8 - length digits) b'0',
      );
      made_some = refl;
    }
  where
    prefix-IsPlain : IsPlain (codes "././_LoNg_NaMe_")
    prefix-IsPlain = ground arith

acl-Carries :
    (n : ℕ)
    → n < uint_mod
    → Carries
        (acl_header n)
        (record { mode = 0o444; size = n; uid = 0; gid = 0; mtime = 0; uname = []; gname = [] })
acl-Carries n lt = record {
  mode_text = refl;
  uid_text = refl;
  gid_text = refl;
  size_text = refl;
  mtime_text = refl;
  uname_text = refl;
  gname_text = refl;
  mode_small = omega arith;
  uid_small = omega arith;
  gid_small = omega arith;
  size_small = lt;
  mtime_small = omega arith;
  uname_plain = tt;
  gname_plain = tt;
  uname_short = omega arith;
  gname_short = omega arith;
}

-- an access control list that fits where it is read to
abbrev pub IsAcl : ℕ → Option (List ℕ) → Type 0
IsAcl acl_room none = Unit
IsAcl acl_room (some acl) = (length acl ≤ acl_room) × (length acl < 2 ^ 31)

on_flag-acl :
    (max_path acl_room : ℕ) (v : Vars) (w : View) (a : List ℕ)
    → w.flag ≡ lf_acl
    → on_flag max_path acl_room v w a ≡ on_acl max_path acl_room v a
unfolding on_flag
on_flag-acl max_path acl_room v w a e = rw e refl

-- the variables after an access control list
abbrev after_acl : Vars → Vars
after_acl v = record v { attr = no_attr; size_left = 0 }

after_acl-Holds : (v : Vars) → Holds v [] [] → Holds (after_acl v) [] []
after_acl-Holds v h = record {
  holds_name = h.holds_name;
  name_end = h.name_end;
  holds_link = h.holds_link;
  link_end = h.link_end;
  no_hugename = h.no_hugename;
  no_huge_size = h.no_huge_size;
  one_volume = h.one_volume;
}

on_acl-whole :
    (max_path acl_room : ℕ) (fill : ℕ → ℕ) (v : Vars) (acl rest : List ℕ)
    → v.file_size ≡ length acl
    → length acl ≤ acl_room
    → on_acl max_path acl_room v (output_mem fill acl ++ rest) ≡ done (after_acl v, rest, [])
unfolding on_acl
on_acl-whole max_path acl_room fill v acl rest e le =
    let fits : ltb acl_room (length acl) ≡ false = ground arith in
    let left : length acl - length acl ≡ 0 = omega arith in
    rw (e, take-output_mem fill acl rest, drop-output_mem fill acl rest, fits, left) refl

module _ (getpwuid getgrgid : ℕ → Option (List ℕ)) (plain : HasPlainNames getpwuid getgrgid)
    (max_path acl_room image : ℕ) (fill : ℕ → ℕ) where
  -- An access control list is read over.
  pub acl-Reads :
      (v : Vars) (acl : Option (List ℕ)) (rest a' : List ℕ) (acts : List Action)
      → Holds v [] []
      → IsAcl acl_room acl
      → ((v1 : Vars)
          → Holds v1 [] []
          → v1.links ≡ v.links
          → Reads max_path acl_room a' v1 rest acts)
      → Reads max_path acl_room a' v
          (output_acl_header getpwuid getgrgid max_path image fill acl ++ rest)
          acts
  unfolding output_acl_header
  acl-Reads v none rest a' acts h fits k = k v h refl
  acl-Reads v (some acl) rest a' acts h (room, small) k =
      let a : Attr = record {
        mode = 0o444;
        size = length acl;
        uid = 0;
        gid = 0;
        mtime = 0;
        uname = [];
        gname = [];
      } in
      let v0 = at_switch v a lf_acl in
      let held_now = at_switch-Holds v a lf_acl [] [] h in
      rw (append_assoc (header_bytes (acl_header (length acl))) (output_mem fill acl) rest) (
        switch-Reads max_path acl_room v (after_acl v0) (acl_header (length acl)) a
          (output_mem fill acl) rest a' [] acts (acl-Carries (length acl) (omega (arith, small)))
          h.one_volume refl refl
          (λ (w : View) sees.
            on_flag-acl max_path acl_room v0 w (output_mem fill acl ++ rest) sees.sees_flag
            ∙ on_acl-whole max_path acl_room fill v0 acl rest (size_of-small (length acl) small)
                room)
          (k (after_acl v0) (after_acl-Holds v0 held_now) refl))

  -- The records of long names are read, and then the object's own record follows.
  pub file_header-Reads :
      (attr : Stat) (v : Vars) (count : ℕ) (path link rest a' : List ℕ) (acts : List Action)
      → IsStat attr
      → Holds v [] []
      → IsPath max_path path
      → length link < max_path
      → length link < 2 ^ 31
      → ((v1 : Vars) (count' : ℕ)
          → Holds v1 (held path) (held link)
          → v1.links ≡ v.links
          → Reads max_path acl_room a' v1
              (header_bytes (last_header getpwuid getgrgid max_path fill attr count' path link)
                ++ rest)
              acts)
      → Reads max_path acl_room a' v
          ((output_file_header getpwuid getgrgid max_path fill count path link attr 0).0 ++ rest)
          acts
  unfolding output_file_header section_name
  file_header-Reads attr v count path link rest a' acts fits h p lt small k =
      let whole : take (max_path - 1) path ≡ path =
        take_all (max_path - 1) path (omega (arith, p.fits)) in
      let count1 = count + one_if (is_long path) in
      let count2 = count1 + one_if (is_long link) in
      let last = header_bytes (last_header getpwuid getgrgid max_path fill attr count2 path link) in
      let name_bytes = output_long_name getpwuid getgrgid max_path fill attr count path in
      let link_bytes = output_long_link getpwuid getgrgid max_path fill attr count1 link in
      rw
        (
          whole,
          append_assoc name_bytes (link_bytes ++ last) rest,
          append_assoc link_bytes last rest,
        )
        (long_name-Reads getpwuid getgrgid plain max_path acl_room fill attr fits v count path []
          (link_bytes ++ (last ++ rest)) a' acts h p.fits p.small
          (λ (v1 : Vars) h1 e1.
            long_link-Reads getpwuid getgrgid plain max_path acl_room fill attr fits v1 count1
              (held path) link (last ++ rest) a' acts h1 lt small
              (λ (v2 : Vars) h2 e2. k v2 count2 h2 (e2 ∙ e1))))
