-- ===== src/Archive/Reader.antt =====
-- tlm/tlm_restore_writer.c: the loop of `tar_getdir`, which reads the archive, here without DAR, and
-- the routines that it calls.
use ndmpd.Common.{
  ℕ, zero, suc, ◌+◌, ◌-◌, ◌*◌, Bool, true, false, ◌&&◌, ◌||◌, not, List, [], ◌∷◌, ◌++◌, Option,
  none, some, ltb, ◌==◌, if◌then◌else◌, length, take, drop, replicate,
}
use ndmpd.Base64.{Outcome, done, overflow, overread, ◌>>=◌}
use ndmpd.TarHeader.{Verdict, good, tlm_vfy_tar_checksum}
use ndmpd.Archive.{
  is_nul, text_at, number_at, size_of, lf_oldnormal, lf_normal, lf_link, lf_symlink, lf_dir,
  lf_fifo, lf_contig, lf_humongus, lf_longlink, lf_longname, lf_multivol, lf_volhdr, lf_acl,
}
use ndmpd.Archive.Objects.{is_member}
use ndmpd.Archive.Variables.{
  Attr, Action, Vars, as_header, View, view_of, fake_view, attr_of, input_mem, or_else, c_text,
  clear_names, Round, blanks_off, digits, parse, with_slash, no_attr, after_round, restore_file,
  create_hard_link, create_sym_link, create_directory, create_fifo,
}

-- the size of the arrays of names, and that of `tlm_acls_t` from `acl_info` on
module _ (max_path acl_room : ℕ) where
  -- What `get_long_name` does with an array of `max_path` bytes: the array, the new end, the bytes left
  -- to read and the archive. The NUL goes behind what was read.
  unfoldable pub get_long_name : ℕ → List ℕ → ℕ → List ℕ → Outcome (List ℕ × ℕ × ℕ × List ℕ)
  unfolding input_mem c_text
  get_long_name recsize name buf_spot archive =
      let (mem, rest) = input_mem recsize archive in
      let end = buf_spot + length mem in
      if ltb end max_path
      then done (take buf_spot name ++ mem, end, recsize - length mem, rest)
      else overflow

  abbrev smaller : ℕ → ℕ → ℕ
  smaller a b = if ltb a b then a else b

  -- case LF_LONGNAME
  unfoldable pub on_longname : Vars → List ℕ → Round
  unfolding get_long_name
  on_longname v archive =
      let size = smaller v.file_size (max_path - v.nm_end) in
      get_long_name size v.longname v.nm_end archive >>= λ (r : List ℕ × ℕ × ℕ × List ℕ).
      done (record v { longname = r.0; nm_end = r.1; size_left = r.2; file_size = size }, r.3, [])

  -- case LF_LONGLINK
  unfoldable pub on_longlink : Vars → List ℕ → Round
  unfolding get_long_name
  on_longlink v archive =
      let size = smaller v.file_size (max_path - v.lnk_end) in
      get_long_name size v.longlink v.lnk_end archive >>= λ (r : List ℕ × ℕ × ℕ × List ℕ).
      done (record v { longlink = r.0; lnk_end = r.1; size_left = r.2; file_size = size }, r.3, [])

  -- case LF_HUMONGUS, with `get_humongus_file_header`
  unfoldable pub on_humongus : Vars → List ℕ → Round
  unfolding input_mem text_at digits parse
  on_humongus v archive =
      let recsize = if v.file_size == 0 then 512 else v.file_size in
      let (mem, rest) = input_mem recsize archive in
      if ltb max_path (length mem)
      then overflow
      else if not (length mem == recsize)
      then done (record v { hugename = []; huge_size = 0 }, rest, [])
      else text_at (mem ++ replicate (max_path - length mem) 0) >>= λ (t : List ℕ). done (
        record v { hugename = (parse t).1; huge_size = digits 0 (blanks_off (parse t).0) },
        rest,
        [],
      )

  -- the part of LF_NORMAL behind the name
  unfoldable pub on_file : Vars → List ℕ → Option ℕ → List ℕ → Round
  unfolding input_mem c_text
  on_file v name inode archive =
      let (mem, rest) = input_mem v.file_size archive in
      let huge = v.huge_size - v.file_size in
      let left = v.file_size - length mem in
      let links : List ℕ = elim inode [ none ↦ v.links | some i ↦ i ∷ v.links ] in
      let v' = record v { longname = name; huge_size = huge; size_left = left; links = links } in
      done (
        (if left == 0 && huge == 0 then record (clear_names v') { hugename = [] } else v'),
        rest,
        restore_file (c_text name) v.attr mem inode ∷ [],
      )

  -- what is put into `longname`: the name for all sections, the long one, or the record's
  unfoldable pub normal_name : (hugename longname : List ℕ) → Outcome (List ℕ) → Outcome (List ℕ)
  unfolding with_slash c_text
  normal_name hugename longname name =
      if not (is_nul hugename)
      then done (take (max_path - 1) hugename)
      else if not (is_nul (c_text longname))
      then done longname
      else name >>= λ (n : List ℕ). done (take (max_path - 1) (with_slash n))

  -- case LF_NORMAL
  unfoldable pub on_normal : Vars → View → Option ℕ → List ℕ → Round
  unfolding on_file normal_name
  on_normal v w inode archive =
      normal_name v.hugename v.longname w.name >>= λ (n : List ℕ). on_file v n inode archive

  -- case LF_OLDNORMAL, where an empty name ends the round
  unfoldable pub on_oldnormal : Vars → View → Option ℕ → List ℕ → Round
  unfolding on_normal
  on_oldnormal v w inode archive = w.name >>= λ (n : List ℕ).
      (if is_nul n then done (v, archive, []) else on_normal v w inode archive)

  -- an object without data
  unfoldable pub on_named : Vars → View → (List ℕ → Action) → List ℕ → Round
  unfolding c_text
  on_named v w act archive = or_else (c_text v.longname) w.name >>= λ (n : List ℕ).
      done (clear_names v, archive, act n ∷ [])

  -- case LF_LINK
  unfoldable pub on_link : Vars → View → List ℕ → Round
  unfolding on_named on_oldnormal c_text is_member
  on_link v w archive = w.inode >>= λ (i : ℕ).
      (if not (i == 0) && is_member i v.links
        then on_named v w (λ n. create_hard_link n i) archive
        else on_oldnormal v w (some i) archive)

  unfoldable pub on_symlink : Vars → View → List ℕ → Round
  unfolding c_text on_named
  on_symlink v w archive = or_else (c_text v.longlink) w.linkname >>= λ (l : List ℕ).
      on_named v w (λ n. create_sym_link n l v.attr) archive

  -- case LF_ACL, with `load_acl_info`: the data is put over `acls`, from `acl_info` on
  unfoldable pub on_acl : Vars → List ℕ → Round
  unfolding input_mem
  on_acl v archive =
      let (mem, rest) = input_mem v.file_size archive in
      let left = v.file_size - length mem in
      if ltb acl_room (length mem)
      then overflow
      else done (record v { attr = no_attr; size_left = left }, rest, [])

  -- the switch
  unfoldable pub on_flag : Vars → View → List ℕ → Round
  unfolding on_link on_oldnormal on_normal on_symlink on_named on_longlink on_longname on_humongus
      on_acl
  on_flag v w archive =
      if w.flag == lf_multivol
      then done (record v { multi_volume = true }, archive, [])
      else if w.flag == lf_link
      then on_link v w archive
      else if w.flag == lf_oldnormal
      then on_oldnormal v w none archive
      else if w.flag == lf_normal || w.flag == lf_contig
      then on_normal v w none archive
      else if w.flag == lf_symlink
      then on_symlink v w archive
      else if w.flag == lf_dir
      then on_named v w (λ n. create_directory n v.attr) archive
      else if w.flag == lf_fifo
      then on_named v w (λ n. create_fifo n v.attr) archive
      else if w.flag == lf_longlink
      then on_longlink v archive
      else if w.flag == lf_longname
      then on_longname v archive
      else if w.flag == lf_acl
      then on_acl v archive
      else if w.flag == lf_humongus
      then on_humongus v archive
      else done (v, archive, [])

  -- what is taken from a record before the switch
  unfoldable pub take_attr : Vars → List ℕ → Outcome Vars
  unfolding attr_of number_at size_of view_of
  take_attr v b =
      let flag = (view_of b).flag in
      if flag == lf_multivol || flag == lf_volhdr
      then done v
      else (if flag == lf_humongus then done v.attr else attr_of b) >>= λ (a : Attr).
          number_at (drop 124 b) >>= λ (n : ℕ).
          done (record v { attr = a; file_size = size_of n; last_action = flag })

  -- a round on the next record of the archive
  unfoldable pub on_record : Vars → (b archive : List ℕ) → Round
  unfolding take_attr on_flag view_of
  on_record v b archive = elim (tlm_vfy_tar_checksum (as_header b)) [
    | good ↦ take_attr v b >>= λ (v' : Vars). on_flag v' (view_of b) archive
    | Verdict.overread ↦ overread
    | other ↦ done (v, archive, [])
  ]

  unfoldable pub round : Vars → List ℕ → Round
  unfolding on_record on_flag fake_view
  round v archive =
      if v.multi_volume
      then on_flag (record v { multi_volume = false; file_size = v.size_left; last_action = 0 })
          (fake_view v.last_action) archive
      else on_record v (take 512 archive) (drop 512 archive)

  abbrev pub ends : List ℕ → Bool → Bool
  ends archive multi = ltb (length archive) 512 && not multi

  -- The loop, which goes on until no record is left; then it waits for the stop. `none` marks that the
  -- fuel is used up.
  unfoldable pub rounds : ℕ → Vars → List ℕ → Option (Outcome (List Action))
  rounds zero v archive = none
  rounds (suc n) v archive =
      if ends archive v.multi_volume
      then some (done [])
      else after_round (rounds n) (round v archive)

abbrev pub start : Vars
start = record {
  longname = [];
  nm_end = 0;
  longlink = [];
  lnk_end = 0;
  hugename = [];
  huge_size = 0;
  attr = no_attr;
  file_size = 0;
  size_left = 0;
  last_action = 0;
  multi_volume = false;
  links = [];
}

-- Each round takes a record, or follows one that ended a volume.
unfoldable pub tar_getdir : (max_path acl_room : ℕ) → List ℕ → Option (Outcome (List Action))
unfolding rounds
tar_getdir max_path acl_room archive =
    rounds max_path acl_room (2 * length archive + 2) start archive
