-- ===== src/Archive/Switch.antt =====
-- tlm/tlm_restore_writer.c: what the switch of `tar_getdir` does with an object's own record.
use ndmpd.Common.{
  ℕ, ◌-◌, ◌≡◌, ◌≢◌, inl, inr, refl, ◌∙◌, true, false, ◌&&◌, not, List, [], ◌∷◌, ◌++◌, Option, none,
  some, arith, ◌==◌, if◌then◌else◌, length, take, take_all, Bool-cases,
}
use ndmpd.Base64.{done, ◌>>=◌}
use ndmpd.Archive.{is_nul, Header, lf_normal, lf_link, lf_symlink, lf_dir, lf_fifo}
use ndmpd.Archive.Fields.{IsPlain}
use ndmpd.Archive.Writer.{is_long, output_mem}
use ndmpd.Archive.Objects.{is_member}
use ndmpd.Archive.Reader.{
  on_file, normal_name, on_normal, on_oldnormal, on_link, on_named, on_symlink, on_flag,
}
use ndmpd.Archive.Variables.{
  Vars, View, Action, restore_file, create_hard_link, create_sym_link, create_directory,
  create_fifo, or_else, c_text, with_slash, clear_names,
}
use ndmpd.Archive.Views.{Sees}
use ndmpd.Archive.Steps.{take-output_mem, drop-output_mem}
use ndmpd.Archive.LongNames.{Holds, held}
use ndmpd.Archive.Paths.{
  IsRooted, IsPath, c_text-plain, in_record, short_lem, chosen, rooted-ne, with_slash-rooted,
  on_normal-named,
}

module _ (max_path acl_room : ℕ) where
  -- The name of an object is found, whether it stands in the record or was read before.
  pub name_found :
      (v : Vars) (w : View) (h : Header) (name link made : List ℕ)
      → IsPath max_path name
      → Holds v (held name) link
      → Sees w h
      → h.th_name ≡ in_record made name
      → or_else (c_text v.longname) w.name ≡ done name
  name_found v w h name link made p holds sees e =
      chosen name made h.th_name v.longname w.name p.is_plain (rooted-ne name p.rooted) e
        holds.holds_name sees.sees_name

  pub link_found :
      (v : Vars) (w : View) (h : Header) (name link made : List ℕ)
      → IsPlain link
      → link ≢ []
      → Holds v name (held link)
      → Sees w h
      → h.th_linkname ≡ in_record made link
      → or_else (c_text v.longlink) w.linkname ≡ done link
  link_found v w h name link made p n holds sees e =
      chosen link made h.th_linkname v.longlink w.linkname p n e holds.holds_link sees.sees_linkname

  -- an object without data
  on_named_lem :
      (v : Vars) (w : View) (act : List ℕ → Action) (archive name : List ℕ)
      → or_else (c_text v.longname) w.name ≡ done name
      → on_named max_path acl_room v w act archive ≡ done (clear_names v, archive, act name ∷ [])
  unfolding on_named
  on_named_lem v w act archive name e = rw e refl

  -- the variables after a file that was read whole
  abbrev pub after_file : Vars → List ℕ → Vars
  after_file v links = record (clear_names v) {
    hugename = [];
    huge_size = 0;
    size_left = 0;
    links = links;
  }

  pub after_file-Holds :
      (v : Vars) (links name link : List ℕ) → Holds v name link → Holds (after_file v links) [] []
  after_file-Holds v links name link h = record {
    holds_name = refl;
    name_end = refl;
    holds_link = refl;
    link_end = refl;
    no_hugename = refl;
    no_huge_size = refl;
    one_volume = h.one_volume;
  }

  abbrev and_inode : Option ℕ → List ℕ → List ℕ
  and_inode none links = links
  and_inode (some i) links = i ∷ links

  on_file_lem :
      (v : Vars) (fill : ℕ → ℕ) (name content rest : List ℕ) (inode : Option ℕ)
      → IsPlain name
      → v.file_size ≡ length content
      → v.huge_size ≡ 0
      → on_file max_path acl_room v name inode (output_mem fill content ++ rest)
        ≡ done (
          after_file v (and_inode inode v.links),
          rest,
          restore_file name v.attr content inode ∷ [],
        )
  unfolding on_file
  on_file_lem v fill name content rest none p e z =
      let huge : 0 - length content ≡ 0 = omega arith in
      let left : length content - length content ≡ 0 = omega arith in
      rw
        (
          e,
          z,
          take-output_mem fill content rest,
          drop-output_mem fill content rest,
          huge,
          left,
          c_text-plain name p,
        )
        refl
  on_file_lem v fill name content rest (some i) p e z =
      let huge : 0 - length content ≡ 0 = omega arith in
      let left : length content - length content ≡ 0 = omega arith in
      rw
        (
          e,
          z,
          take-output_mem fill content rest,
          drop-output_mem fill content rest,
          huge,
          left,
          c_text-plain name p,
        )
        refl

  -- the name that is put into `longname`
  pub normal_name_lem :
      (v : Vars) (w : View) (h : Header) (name link made : List ℕ)
      → IsPath max_path name
      → Holds v (held name) link
      → Sees w h
      → h.th_name ≡ in_record made name
      → normal_name max_path acl_room v.hugename v.longname w.name ≡ done name
  unfolding normal_name
  normal_name_lem v w h name link made p holds sees e = elim (Bool-cases (is_long name)) [
    | inl long ↦
        let now : v.longname ≡ name = holds.holds_name ∙ (rw long refl) in
        rw (holds.no_hugename, now, c_text-plain name p.is_plain) (not_nul name p.rooted)
    | inr short ↦
        let (lt, whole) = short_lem name short in
        let now : v.longname ≡ [] = holds.holds_name ∙ (rw short refl) in
        let same : h.th_name ≡ name = e ∙ (rw short whole) in
        let seen : w.name ≡ done h.th_name = sees.sees_name (rw same p.is_plain) (rw same lt) in
        let kept : take (max_path - 1) name ≡ name =
          take_all (max_path - 1) name (omega (arith, p.fits)) in
        rw (holds.no_hugename, now)
          (unfold c_text in rw (seen, same, with_slash-rooted name p.rooted, kept) refl)
  ]
    where
      not_nul :
          (s : List ℕ)
          → IsRooted s
          → (if not (is_nul s)
              then done s
              else w.name >>= λ (n : List ℕ). done (take (max_path - 1) (with_slash n)))
            ≡ done s
      not_nul [] r = absurd r
      not_nul (c ∷ s) r = refl

  -- A file that follows its record is read whole.
  pub on_normal_lem :
      (v : Vars) (w : View) (h : Header) (fill : ℕ → ℕ) (name link made content rest : List ℕ)
      → (inode : Option ℕ) → IsPath max_path name
      → Holds v (held name) link
      → Sees w h
      → h.th_name ≡ in_record made name
      → v.file_size ≡ length content
      → on_normal max_path acl_room v w inode (output_mem fill content ++ rest)
        ≡ done (
          after_file v (and_inode inode v.links),
          rest,
          restore_file name v.attr content inode ∷ [],
        )
  on_normal_lem v w h fill name link made content rest inode p holds sees e size =
      on_normal-named max_path acl_room v w inode name (output_mem fill content ++ rest)
        (normal_name_lem v w h name link made p holds sees e)
      ∙ on_file_lem v fill name content rest inode p.is_plain size holds.no_huge_size

  -- the switch at each flag
  pub on_directory :
      (v : Vars) (w : View) (archive name : List ℕ)
      → w.flag ≡ lf_dir
      → or_else (c_text v.longname) w.name ≡ done name
      → on_flag max_path acl_room v w archive
        ≡ done (clear_names v, archive, create_directory name v.attr ∷ [])
  unfolding on_flag
  on_directory v w archive name f e =
      rw f (on_named_lem v w (λ n. create_directory n v.attr) archive name e)

  pub on_fifo :
      (v : Vars) (w : View) (archive name : List ℕ)
      → w.flag ≡ lf_fifo
      → or_else (c_text v.longname) w.name ≡ done name
      → on_flag max_path acl_room v w archive
        ≡ done (clear_names v, archive, create_fifo name v.attr ∷ [])
  unfolding on_flag
  on_fifo v w archive name f e = rw f (on_named_lem v w (λ n. create_fifo n v.attr) archive name e)

  pub on_sym_link :
      (v : Vars) (w : View) (archive name link : List ℕ)
      → w.flag ≡ lf_symlink
      → or_else (c_text v.longname) w.name ≡ done name
      → or_else (c_text v.longlink) w.linkname ≡ done link
      → on_flag max_path acl_room v w archive
        ≡ done (clear_names v, archive, create_sym_link name link v.attr ∷ [])
  unfolding on_flag on_symlink
  on_sym_link v w archive name link f e l =
      rw (f, l) (on_named_lem v w (λ n. create_sym_link n link v.attr) archive name e)

  -- another link to a file that was restored
  pub on_known_link :
      (v : Vars) (w : View) (archive name : List ℕ) (ino : ℕ)
      → w.flag ≡ lf_link
      → or_else (c_text v.longname) w.name ≡ done name
      → w.inode ≡ done ino
      → ino ≢ 0
      → is_member ino v.links ≡ true
      → on_flag max_path acl_room v w archive
        ≡ done (clear_names v, archive, create_hard_link name ino ∷ [])
  unfolding on_flag on_link
  on_known_link v w archive name ino f e i n m =
      let some_inode : (ino == 0) ≡ false = ground (arith, n) in
      rw (f, i, some_inode, m) (on_named_lem v w (λ k. create_hard_link k ino) archive name e)

  pub on_plain_file :
      (v : Vars) (w : View) (archive : List ℕ)
      → w.flag ≡ lf_normal
      → on_flag max_path acl_room v w archive ≡ on_normal max_path acl_room v w none archive
  unfolding on_flag
  on_plain_file v w archive f = rw f refl

  -- the first link to a file
  pub on_new_link :
      (v : Vars) (w : View) (archive t : List ℕ) (ino : ℕ)
      → w.flag ≡ lf_link
      → w.inode ≡ done ino
      → is_member ino v.links ≡ false
      → w.name ≡ done t
      → is_nul t ≡ false
      → on_flag max_path acl_room v w archive ≡ on_normal max_path acl_room v w (some ino) archive
  unfolding on_flag on_link on_oldnormal
  on_new_link v w archive t ino f i m e n =
      let off : (not (ino == 0) && false) ≡ false = ground arith in
      rw (f, i, m, off) (rw (e, n) refl)
