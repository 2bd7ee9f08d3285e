-- ===== src/Archive/Objects.antt =====
-- tlm/tlm_backup_reader.c: what `tlm_output_dir` and `tlm_output_file` put out for an object.
use ndmpd.Common.{
  ℕ, zero, suc, ◌+◌, ◌-◌, Bool, true, false, ◌&&◌, ◌||◌, not, List, [], ◌∷◌, ◌++◌, Option, none,
  some, ltb, ◌==◌, if◌then◌else◌, length, take, drop,
}
use ndmpd.Common.Bytes.{codes}
use ndmpd.Archive.{Header, header_bytes, format_0o, lf_humongus, lf_acl}
use ndmpd.Archive.Writer.{
  Kind, directory, symlink, Stat, output_mem, decimal_digits, output_file_header,
}

-- An object of the file system. `content` is what can be read of a file that can be opened, `acl` the
-- bytes of its access control list.
pub record Object : Type 0 where
  pub path : List ℕ
  pub link : List ℕ
  pub attr : Stat
  pub content : Option (List ℕ)
  pub acl : Option (List ℕ)

abbrev pub tlm_max_tar_image : ℕ
tlm_max_tar_image = 0o17777777770

abbrev pub acl_header : ℕ → Header
acl_header acl_size = record {
  th_name = codes "UFSACL";
  th_mode = format_0o 6 0o444;
  th_uid = format_0o 6 0;
  th_gid = format_0o 6 0;
  th_size = format_0o 11 acl_size;
  th_mtime = format_0o 11 0;
  th_linkflag = lf_acl;
  th_linkname = [];
  th_magic = codes "ustar  ";
  th_uname = [];
  th_gname = [];
  th_hlink_ino = [];
}

abbrev huge_header : ℕ → Header
huge_header len = record {
  th_name = [];
  th_mode = [];
  th_uid = [];
  th_gid = [];
  th_size = format_0o 11 len;
  th_mtime = [];
  th_linkflag = lf_humongus;
  th_linkname = [];
  th_magic = [];
  th_uname = [];
  th_gname = [];
  th_hlink_ino = [];
}

unfoldable pub is_member : ℕ → List ℕ → Bool
is_member i [] = false
is_member i (j ∷ js) = i == j || is_member i js

-- What a backup goes on with: `file_count` and the inodes in the queue of hard links
pub record Progress : Type 0 where
  pub file_count : ℕ
  pub links : List ℕ

-- what is put out before the rest
unfoldable pub before : List ℕ → Option (List ℕ × ℕ) → Option (List ℕ × ℕ)
before bytes none = none
before bytes (some (more, last)) = some (bytes ++ more, last)

-- a file that cannot be opened is left out
unfoldable pub opened_as :
    Option (List ℕ) → (List ℕ → Option (List ℕ × Progress)) → Progress → Option (List ℕ × Progress)
opened_as none output p = some ([], p)
opened_as (some content) output p = output content

-- the bytes before those that follow
unfoldable pub followed :
    Option (List ℕ × Progress)
    → (Progress → Option (List ℕ × Progress))
    → Option (List ℕ × Progress)
followed none next = none
followed (some (bytes, p)) next = elim (next p) [
  | none ↦ none
  | some (more, p') ↦ some (bytes ++ more, p')
]

unfoldable pub with_links : List ℕ → List ℕ → Option (List ℕ × ℕ) → Option (List ℕ × Progress)
with_links start links none = none
with_links start links (some (bytes, last)) =
    some (start ++ bytes, record { file_count = last; links = links })

module _ (getpwuid getgrgid : ℕ → Option (List ℕ)) (max_path image : ℕ) (fill : ℕ → ℕ) where
  unfoldable pub output_acl_header : Option (List ℕ) → List ℕ
  unfolding output_mem
  output_acl_header none = []
  output_acl_header (some acl) = header_bytes (acl_header (length acl)) ++ output_mem fill acl

  -- `"%lld %s"` in a buffer of the length that the record names, whose end is not cleared
  unfoldable pub output_humongus_header :
      (path : List ℕ) → (file_size : ℕ) → (junk : List ℕ) → List ℕ
  unfolding output_mem decimal_digits
  output_humongus_header path file_size junk =
      let len = 20 + 1 + length path + 1 in
      let text = decimal_digits 20 file_size [] ++ (b' ' ∷ path ++ (0 ∷ [])) in
      header_bytes (huge_header len) ++ output_mem fill (take len (text ++ junk))

  -- The loop over the sections, on fuel; `none` marks that it is used up. A file that ends early ends
  -- the inner loop.
  unfoldable pub output_sections :
      ℕ → ℕ → (path : List ℕ) → Stat → (section file_size : ℕ) → List ℕ → Option (List ℕ × ℕ)
  output_sections zero count path attr section file_size content = none
  output_sections (suc f) count path attr section file_size content =
      let size = if ltb file_size image then file_size else image in
      let (head, count') =
        output_file_header getpwuid getgrgid max_path fill count path []
          (record attr { st_size = size }) section in
      let got = take size content in
      let rest =
        output_sections f count' path attr (section + 1) (file_size - length got)
          (drop size content) in
      if file_size == 0 then some ([], count) else before (head ++ output_mem fill got) rest

  -- after the queue is searched and the file is opened
  unfoldable pub output_opened :
      Progress → Object → Bool → List ℕ → List ℕ → Option (List ℕ × Progress)
  output_opened p o hardlink_done content junk =
      let huge = ltb image o.attr.st_size in
      let section = if huge then 1 else 0 in
      let file_size = if hardlink_done then 0 else o.attr.st_size in
      let start =
        output_acl_header o.acl
        ++ (if huge then output_humongus_header o.path o.attr.st_size junk else []) in
      let (head, count) =
        if file_size == 0
        then output_file_header getpwuid getgrgid max_path fill p.file_count o.path [] o.attr
            section
        else ([], p.file_count) in
      let links =
        if ltb 1 o.attr.st_nlink && not hardlink_done then o.attr.st_ino ∷ p.links else p.links in
      with_links start links (
        before head (output_sections (file_size + 1) count o.path o.attr section file_size content))

  -- a symbolic link, and what can be opened
  unfoldable pub output_kind : Kind → Progress → Object → List ℕ → Option (List ℕ × Progress)
  output_kind symlink p o junk =
      let (head, count) =
        output_file_header getpwuid getgrgid max_path fill p.file_count o.path o.link o.attr 0 in
      some (head, record p { file_count = count })
  output_kind other p o junk =
      if ltb 1 o.attr.st_nlink && is_member o.attr.st_ino p.links
      then output_opened p o true [] junk
      else opened_as o.content (λ (content : List ℕ). output_opened p o false content junk) p

  -- `tlm_output_file` without the checks of the path's length
  unfoldable pub tlm_output_file : Progress → Object → List ℕ → Option (List ℕ × Progress)
  tlm_output_file p o junk = output_kind o.attr.kind p o junk

  unfoldable pub tlm_output_dir : Progress → Object → List ℕ × Progress
  tlm_output_dir p o =
      let (head, count) =
        output_file_header getpwuid getgrgid max_path fill p.file_count o.path [] o.attr 0 in
      (output_acl_header o.acl ++ head, record p { file_count = count })

  -- `tar_putdir` for a directory, `tar_putfile` for the other objects
  unfoldable pub put_object : List ℕ → Kind → Progress → Object → Option (List ℕ × Progress)
  put_object junk directory p o = some (tlm_output_dir p o)
  put_object junk other p o = tlm_output_file p o junk

  -- one object after the other
  unfoldable pub put_objects : List ℕ → Progress → List Object → Option (List ℕ × Progress)
  put_objects junk p [] = some ([], p)
  put_objects junk p (o ∷ os) =
      followed (put_object junk o.attr.kind p o) (λ (p' : Progress). put_objects junk p' os)
