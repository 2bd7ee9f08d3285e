-- ===== src/Archive/Views.antt =====
-- What `tar_getdir` makes of a record that `output_file_header` gives out: flag, names, attributes.
use ndmpd.Common.{
  ◌≤◌, ℕ, zero, suc, ◌^◌, ◌<◌, ◌≡◌, inl, inr, refl, ap, ◌∙◌, false, ◌||◌, List, [], ◌∷◌, ◌++◌,
  Option, arith, ltb, ◌==◌, length, length-take_le, take, drop, replicate, take_all, Bool-cases,
}
use ndmpd.Base64.{Outcome, done, ◌>>=◌}
use ndmpd.TarHeader.{uint_mod, good, tlm_vfy_tar_checksum}
use ndmpd.Archive.{
  is_nul, Header, field, header_bytes, text_at, number_at, format_0o, size_of, lf_multivol,
  lf_volhdr, lf_humongus,
}
use ndmpd.Archive.Fields.{text_at-field, IsPlain, length-seven, length-eleven}
use ndmpd.Archive.Headers.{vfy-header_bytes}
use ndmpd.Archive.Places.{
  from_mode, at_name, at_mode, at_uid, at_gid, at_size, at_mtime, at_flag, at_linkname, at_uname,
  at_gname, at_ino, number_placed,
}
use ndmpd.Archive.Writer.{Stat, common, written_id, name_or_none, octal7char}
use ndmpd.Archive.Reader.{take_attr, on_record, on_flag}
use ndmpd.Archive.Variables.{View, Attr, attr_of, view_of, Vars, Round, as_header}

-- attributes whose numbers fit in their fields, and are below 2 ^ 32
pub record IsStat (attr : Stat) : Type 0 where
  pub perm_fits : attr.perm < 8 ^ 4
  pub mtime_fits : attr.st_mtime < uint_mod
  pub ino_fits : attr.st_ino < uint_mod

written_id-lt : (i : ℕ) (name : List ℕ) → written_id i name < 8 ^ 7
unfolding written_id
written_id-lt i name = elim (Bool-cases (is_nul name || ltb octal7char i)) [
  | inl e ↦ rw e (omega arith)
  | inr e ↦ rw e (ground (arith, e))
]

take-IsPlain : (n : ℕ) (s : List ℕ) → IsPlain s → IsPlain (take n s)
take-IsPlain zero s h = tt
take-IsPlain (suc n) [] h = tt
take-IsPlain (suc n) (c ∷ s) (e, h) = (e, take-IsPlain n s h)

abbrev after_attr : (max_path acl_room : ℕ) → (b archive : List ℕ) → Outcome Vars → Round
after_attr max_path acl_room b archive r =
    r >>= λ (v : Vars). on_flag max_path acl_room v (view_of b) archive

on_record-good :
    (max_path acl_room : ℕ) (v : Vars) (b archive : List ℕ)
    → tlm_vfy_tar_checksum (as_header b) ≡ good
    → on_record max_path acl_room v b archive
      ≡ after_attr max_path acl_room b archive (take_attr max_path acl_room v b)
unfolding on_record take_attr
on_record-good max_path acl_room v b archive e = rw (e, on_record) refl

-- The attributes stand in the record, each in a field that is wide enough.
pub record Carries (h : Header) (a : Attr) : Type 0 where
  pub mode_text : h.th_mode ≡ format_0o 6 a.mode
  pub uid_text : h.th_uid ≡ format_0o 6 a.uid
  pub gid_text : h.th_gid ≡ format_0o 6 a.gid
  pub size_text : h.th_size ≡ format_0o 11 a.size
  pub mtime_text : h.th_mtime ≡ format_0o 11 a.mtime
  pub uname_text : h.th_uname ≡ a.uname
  pub gname_text : h.th_gname ≡ a.gname
  pub mode_small : a.mode < 8 ^ 7
  pub uid_small : a.uid < 8 ^ 7
  pub gid_small : a.gid < 8 ^ 7
  pub size_small : a.size < uint_mod
  pub mtime_small : a.mtime < uint_mod
  pub uname_plain : IsPlain a.uname
  pub gname_plain : IsPlain a.gname
  pub uname_short : length a.uname ≤ 31
  pub gname_short : length a.gname ≤ 31

-- a field of seven characters at a place
seven_placed :
    (b t rest : List ℕ) (n : ℕ)
    → b ≡ field 8 t ++ rest
    → t ≡ format_0o 6 n
    → n < 8 ^ 7
    → number_at b ≡ done n
seven_placed b t rest n e f lt =
    number_placed b 7 6 n rest (e ∙ ap (λ (r : List ℕ). field 8 r ++ rest) f) (omega (arith, lt))
      (length-seven n lt) (omega arith)

-- one of eleven
eleven_placed :
    (b t rest : List ℕ) (n : ℕ)
    → b ≡ field 12 t ++ rest
    → t ≡ format_0o 11 n
    → n < uint_mod
    → number_at b ≡ done n
eleven_placed b t rest n e f lt =
    number_placed b 11 11 n rest (e ∙ ap (λ (r : List ℕ). field 12 r ++ rest) f) lt
      (length-eleven n lt) (omega arith)

text_placed :
    (b t s rest : List ℕ) (size : ℕ)
    → b ≡ field size t ++ rest
    → t ≡ s
    → IsPlain s
    → length s < size
    → text_at b ≡ done s
text_placed b t s rest size e f p lt =
    ap text_at (e ∙ ap (λ (r : List ℕ). field size r ++ rest) f) ∙ text_at-field size s rest p lt

flag_lem : (h : Header) → (view_of (header_bytes h)).flag ≡ h.th_linkflag
unfolding view_of
flag_lem h = rw (at_flag h) refl

attr_lem : (h : Header) (a : Attr) → Carries h a → attr_of (header_bytes h) ≡ done a
unfolding attr_of
attr_lem h a c =
    let b = header_bytes h in
    rw
      (
        seven_placed (drop 100 b) h.th_mode _ a.mode (at_mode h) c.mode_text c.mode_small,
        seven_placed (drop 108 b) h.th_uid _ a.uid (at_uid h) c.uid_text c.uid_small,
        seven_placed (drop 116 b) h.th_gid _ a.gid (at_gid h) c.gid_text c.gid_small,
        eleven_placed (drop 124 b) h.th_size _ a.size (at_size h) c.size_text c.size_small,
        eleven_placed (drop 136 b) h.th_mtime _ a.mtime (at_mtime h) c.mtime_text c.mtime_small,
        text_placed (drop 265 b) h.th_uname a.uname _ 32 (at_uname h) c.uname_text c.uname_plain
            (omega (arith, c.uname_short)),
        text_placed (drop 297 b) h.th_gname a.gname _ 32 (at_gname h) c.gname_text c.gname_plain
            (omega (arith, c.gname_short)),
        take_all 31 a.uname c.uname_short,
        take_all 31 a.gname c.gname_short,
      )
      refl

-- the variables at the switch
abbrev pub at_switch : Vars → Attr → ℕ → Vars
at_switch v a flag = record v { attr = a; file_size = size_of a.size; last_action = flag }

take_attr_lem :
    (max_path acl_room : ℕ) (v : Vars) (h : Header) (a : Attr)
    → Carries h a
    → (h.th_linkflag == lf_multivol || h.th_linkflag == lf_volhdr) ≡ false
    → (h.th_linkflag == lf_humongus) ≡ false
    → take_attr max_path acl_room v (header_bytes h) ≡ done (at_switch v a h.th_linkflag)
unfolding take_attr
take_attr_lem max_path acl_room v h a c e f =
    let b = header_bytes h in
    let size = eleven_placed (drop 124 b) h.th_size _ a.size (at_size h) c.size_text c.size_small in
    rw (flag_lem h, e, f, attr_lem h a c, size) refl

-- What a round makes of a record: it is accepted, and the switch follows.
pub on_record_lem :
    (max_path acl_room : ℕ) (v : Vars) (h : Header) (a : Attr) (archive : List ℕ)
    → Carries h a
    → (h.th_linkflag == lf_multivol || h.th_linkflag == lf_volhdr) ≡ false
    → (h.th_linkflag == lf_humongus) ≡ false
    → on_record max_path acl_room v (header_bytes h) archive
      ≡ on_flag max_path acl_room (at_switch v a h.th_linkflag) (view_of (header_bytes h)) archive
on_record_lem max_path acl_room v h a archive c e f =
    on_record-good max_path acl_room v (header_bytes h) archive (vfy-header_bytes h)
    ∙ ap (after_attr max_path acl_room (header_bytes h) archive)
        (take_attr_lem max_path acl_room v h a c e f)

-- what the switch sees of a record
pub record Sees (w : View) (h : Header) : Type 0 where
  pub sees_flag : w.flag ≡ h.th_linkflag
  pub sees_name : IsPlain h.th_name → length h.th_name < 100 → w.name ≡ done h.th_name
  pub sees_linkname :
      IsPlain h.th_linkname → length h.th_linkname < 100 → w.linkname ≡ done h.th_linkname
  pub sees_inode : (n : ℕ) → h.th_hlink_ino ≡ format_0o 11 n → n < uint_mod → w.inode ≡ done n

pub view_of-Sees : (h : Header) → Sees (view_of (header_bytes h)) h
unfolding view_of
view_of-Sees h =
    let b = header_bytes h in
    record {
      sees_flag = rw (at_flag h) refl;
      sees_name = λ p lt. text_placed b h.th_name h.th_name (from_mode h) 100 (at_name h) refl p lt;
      sees_linkname = λ p lt.
          text_placed (drop 157 b) h.th_linkname h.th_linkname _ 100 (at_linkname h) refl p lt;
      sees_inode =
          λ n e lt. eleven_placed (drop 329 b) h.th_hlink_ino (replicate 171 0) n (at_ino h) e lt;
    }

module _ (getpwuid getgrgid : ℕ → Option (List ℕ)) where
  -- the names of users and groups have no NUL
  abbrev pub HasPlainNames : Type 0
  HasPlainNames =
      ((i : ℕ) → IsPlain (name_or_none (getpwuid i)))
      × ((i : ℕ) → IsPlain (name_or_none (getgrgid i)))

  -- the attributes that a restore gives an object
  unfoldable pub read_attr : Stat → ℕ → Attr
  unfolding written_id
  read_attr attr size = record {
    mode = attr.perm;
    size = size;
    uid = written_id attr.st_uid (name_or_none (getpwuid attr.st_uid));
    gid = written_id attr.st_gid (name_or_none (getgrgid attr.st_gid));
    mtime = attr.st_mtime;
    uname = take 31 (name_or_none (getpwuid attr.st_uid));
    gname = take 31 (name_or_none (getgrgid attr.st_gid));
  }

  pub common-Carries :
      (max_path : ℕ) (fill : ℕ → ℕ) (attr : Stat) (size flag : ℕ) (name linkname ino : List ℕ)
      → HasPlainNames
      → IsStat attr
      → size < uint_mod
      → Carries
          (common getpwuid getgrgid max_path fill attr size flag name linkname ino)
          (read_attr attr size)
  unfolding common read_attr
  common-Carries max_path fill attr size flag name linkname ino plain fits small =
      let un = name_or_none (getpwuid attr.st_uid) in
      let gn = name_or_none (getgrgid attr.st_gid) in
      record {
        mode_text = refl;
        uid_text = refl;
        gid_text = refl;
        size_text = refl;
        mtime_text = refl;
        uname_text = refl;
        gname_text = refl;
        mode_small = omega (arith, fits.perm_fits);
        uid_small = written_id-lt attr.st_uid un;
        gid_small = written_id-lt attr.st_gid gn;
        size_small = small;
        mtime_small = fits.mtime_fits;
        uname_plain = take-IsPlain 31 un (plain.0 attr.st_uid);
        gname_plain = take-IsPlain 31 gn (plain.1 attr.st_gid);
        uname_short = (length-take_le 31 un).0;
        gname_short = (length-take_le 31 gn).0;
      }
