-- ===== src/Archive/LongNames.antt =====
-- Names that do not fit in a record: what `output_file_header` puts out for them, `tar_getdir` reads.
use ndmpd.Common.{
  ℕ, ◌+◌, ◌-◌, ◌^◌, ◌<◌, ◌≡◌, inl, inr, refl, ◌∙◌, true, false, ◌||◌, List, [], ◌++◌, append_assoc,
  Option, arith, ltb, ◌==◌, if◌then◌else◌, length, Bool-cases,
}
use ndmpd.Common.Bytes.{codes}
use ndmpd.Base64.{done}
use ndmpd.Archive.{
  Header, header_bytes, size_of, lf_longname, lf_longlink, lf_multivol, lf_volhdr, lf_humongus,
}
use ndmpd.Archive.Writer.{
  Stat, common, counted_name, output_mem, output_long_name, output_long_link, is_long,
}
use ndmpd.Archive.Reader.{get_long_name, on_longname, on_longlink, on_flag}
use ndmpd.Archive.Variables.{Attr, Vars, View, Action, view_of}
use ndmpd.Archive.Views.{
  HasPlainNames, IsStat, read_attr, on_record_lem, Carries, common-Carries, at_switch, Sees,
  view_of-Sees,
}
use ndmpd.Archive.Steps.{Reads, header-Reads, take-output_mem, drop-output_mem}

-- the names that the loop holds, and nothing of a huge file
pub record Holds (v : Vars) (name link : List ℕ) : Type 0 where
  pub holds_name : v.longname ≡ name
  pub name_end : v.nm_end ≡ length name
  pub holds_link : v.longlink ≡ link
  pub link_end : v.lnk_end ≡ length link
  pub no_hugename : v.hugename ≡ []
  pub no_huge_size : v.huge_size ≡ 0
  pub one_volume : v.multi_volume ≡ false

get_long_name-whole :
    (max_path acl_room : ℕ) (fill : ℕ → ℕ) (s old rest : List ℕ)
    → length s < max_path
    → get_long_name max_path acl_room (length s) old 0 (output_mem fill s ++ rest)
      ≡ done (s, length s, 0, rest)
unfolding get_long_name
get_long_name-whole max_path acl_room fill s old rest lt =
    let fits : ltb (0 + length s) max_path ≡ true = ground arith in
    let sum : 0 + length s ≡ length s = omega arith in
    let none_left : length s - length s ≡ 0 = omega arith in
    rw (take-output_mem fill s rest, drop-output_mem fill s rest, fits, sum, none_left) refl

pub size_of-small : (n : ℕ) → n < 2 ^ 31 → size_of n ≡ n
unfolding size_of
size_of-small n lt = let e : ltb n (2 ^ 31) ≡ true = ground arith in rw e refl

whole_size : (n m : ℕ) → n < m → (if ltb n (m - 0) then n else m - 0) ≡ n
whole_size n m lt = ground arith

module _ (max_path acl_room : ℕ) (fill : ℕ → ℕ) where
  on_longname-Holds :
      (v : Vars) (name link rest : List ℕ)
      → Holds v [] link
      → v.file_size ≡ length name
      → length name < max_path
      → (v1 : Vars) × (on_longname max_path acl_room v (output_mem fill name ++ rest)
          ≡ done (v1, rest, []))
        × Holds v1 name link
        × (v1.links ≡ v.links)
  unfolding on_longname
  on_longname-Holds v name link rest h e lt =
      let end : v.nm_end ≡ 0 = h.name_end in
      let got = get_long_name-whole max_path acl_room fill name v.longname rest lt in
      (
        record v { longname = name; nm_end = length name; size_left = 0; file_size = length name },
        rw (e, end, whole_size (length name) max_path lt, got) refl,
        record {
          holds_name = refl;
          name_end = refl;
          holds_link = h.holds_link;
          link_end = h.link_end;
          no_hugename = h.no_hugename;
          no_huge_size = h.no_huge_size;
          one_volume = h.one_volume;
        },
        refl,
      )

  on_longlink-Holds :
      (v : Vars) (name link rest : List ℕ)
      → Holds v name []
      → v.file_size ≡ length link
      → length link < max_path
      → (v1 : Vars) × (on_longlink max_path acl_room v (output_mem fill link ++ rest)
          ≡ done (v1, rest, []))
        × Holds v1 name link
        × (v1.links ≡ v.links)
  unfolding on_longlink
  on_longlink-Holds v name link rest h e lt =
      let end : v.lnk_end ≡ 0 = h.link_end in
      let got = get_long_name-whole max_path acl_room fill link v.longlink rest lt in
      (
        record v { longlink = link; lnk_end = length link; size_left = 0; file_size = length link },
        rw (e, end, whole_size (length link) max_path lt, got) refl,
        record {
          holds_name = h.holds_name;
          name_end = h.name_end;
          holds_link = refl;
          link_end = refl;
          no_hugename = h.no_hugename;
          no_huge_size = h.no_huge_size;
          one_volume = h.one_volume;
        },
        refl,
      )

on_flag-longname :
    (max_path acl_room : ℕ) (v : Vars) (w : View) (a : List ℕ)
    → w.flag ≡ lf_longname
    → on_flag max_path acl_room v w a ≡ on_longname max_path acl_room v a
unfolding on_flag
on_flag-longname max_path acl_room v w a e = rw e refl

on_flag-longlink :
    (max_path acl_room : ℕ) (v : Vars) (w : View) (a : List ℕ)
    → w.flag ≡ lf_longlink
    → on_flag max_path acl_room v w a ≡ on_longlink max_path acl_room v a
unfolding on_flag
on_flag-longlink max_path acl_room v w a e = rw e refl

-- what is held of a name when its own record follows
abbrev pub held : List ℕ → List ℕ
held s = if is_long s then s else []

pub at_switch-Holds :
    (v : Vars) (a : Attr) (flag : ℕ) (name link : List ℕ)
    → Holds v name link
    → Holds (at_switch v a flag) name link
at_switch-Holds v a flag name link h = record {
  holds_name = h.holds_name;
  name_end = h.name_end;
  holds_link = h.holds_link;
  link_end = h.link_end;
  no_hugename = h.no_hugename;
  no_huge_size = h.no_huge_size;
  one_volume = h.one_volume;
}

-- A record whose flag is not one of the three that are looked at before, with what the switch does
pub switch-Reads :
    (max_path acl_room : ℕ) (v v1 : Vars) (h : Header) (a : Attr) (mem rest a' : List ℕ)
    → (now later : List Action) → Carries h a
    → v.multi_volume ≡ false
    → (h.th_linkflag == lf_multivol || h.th_linkflag == lf_volhdr) ≡ false
    → (h.th_linkflag == lf_humongus) ≡ false
    → ((w : View)
        → Sees w h
        → on_flag max_path acl_room (at_switch v a h.th_linkflag) w (mem ++ rest)
          ≡ done (v1, rest, now))
    → Reads max_path acl_room a' v1 rest later
    → Reads max_path acl_room a' v (header_bytes h ++ (mem ++ rest)) (now ++ later)
switch-Reads max_path acl_room v v1 h a mem rest a' now later c one e f step more =
    header-Reads max_path acl_room v v1 h mem rest a' now later one
      (on_record_lem max_path acl_room v h a (mem ++ rest) c e f
        ∙ step (view_of (header_bytes h)) (view_of-Sees h))
      more

module _ (getpwuid getgrgid : ℕ → Option (List ℕ)) (plain : HasPlainNames getpwuid getgrgid)
    (max_path acl_room : ℕ) (fill : ℕ → ℕ) (attr : Stat) (fits : IsStat attr) where
  pub long_name-Reads :
      (v : Vars) (count : ℕ) (name link rest a' : List ℕ) (acts : List Action)
      → Holds v [] link
      → length name < max_path
      → length name < 2 ^ 31
      → ((v1 : Vars)
          → Holds v1 (held name) link
          → v1.links ≡ v.links
          → Reads max_path acl_room a' v1 rest acts)
      → Reads max_path acl_room a' v
          (output_long_name getpwuid getgrgid max_path fill attr count name ++ rest)
          acts
  unfolding output_long_name common read_attr
  long_name-Reads v count name link rest a' acts h lt small k = elim (Bool-cases (is_long name)) [
    | inr e ↦ rw e (k v (rw e h) refl)
    | inl e ↦
        let text = counted_name count (codes ".fil") in
        let hdr =
          common getpwuid getgrgid max_path fill attr (length name) lf_longname text [] [] in
        let a = read_attr getpwuid getgrgid attr (length name) in
        let c =
          common-Carries getpwuid getgrgid max_path fill attr (length name) lf_longname text [] []
            plain fits (omega (arith, small)) in
        let (v1, step, held_now, links) =
          on_longname-Holds max_path acl_room fill (at_switch v a lf_longname) name link rest
            (at_switch-Holds v a lf_longname [] link h) (size_of-small (length name) small) lt in
        rw (e, append_assoc (header_bytes hdr) (output_mem fill name) rest)
          (switch-Reads max_path acl_room v v1 hdr a (output_mem fill name) rest a' [] acts c
            h.one_volume refl refl
            (λ (w : View) sees.
              on_flag-longname max_path acl_room (at_switch v a lf_longname) w
                (output_mem fill name ++ rest) sees.sees_flag
              ∙ step)
            (k v1 (rw e held_now) links))
  ]

  pub long_link-Reads :
      (v : Vars) (count : ℕ) (name link rest a' : List ℕ) (acts : List Action)
      → Holds v name []
      → length link < max_path
      → length link < 2 ^ 31
      → ((v1 : Vars)
          → Holds v1 name (held link)
          → v1.links ≡ v.links
          → Reads max_path acl_room a' v1 rest acts)
      → Reads max_path acl_room a' v
          (output_long_link getpwuid getgrgid max_path fill attr count link ++ rest)
          acts
  unfolding output_long_link common read_attr
  long_link-Reads v count name link rest a' acts h lt small k = elim (Bool-cases (is_long link)) [
    | inr e ↦ rw e (k v (rw e h) refl)
    | inl e ↦
        let text = counted_name count (codes ".slk") in
        let hdr =
          common getpwuid getgrgid max_path fill attr (length link) lf_longlink [] text [] in
        let a = read_attr getpwuid getgrgid attr (length link) in
        let c =
          common-Carries getpwuid getgrgid max_path fill attr (length link) lf_longlink [] text []
            plain fits (omega (arith, small)) in
        let (v1, step, held_now, links) =
          on_longlink-Holds max_path acl_room fill (at_switch v a lf_longlink) name link rest
            (at_switch-Holds v a lf_longlink name [] h) (size_of-small (length link) small) lt in
        rw (e, append_assoc (header_bytes hdr) (output_mem fill link) rest)
          (switch-Reads max_path acl_room v v1 hdr a (output_mem fill link) rest a' [] acts c
            h.one_volume refl refl
            (λ (w : View) sees.
              on_flag-longlink max_path acl_room (at_switch v a lf_longlink) w
                (output_mem fill link ++ rest) sees.sees_flag
              ∙ step)
            (k v1 (rw e held_now) links))
  ]
