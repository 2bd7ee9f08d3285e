-- ===== src/Archive/Writer.antt =====
-- tlm/tlm_backup_reader.c: the records that a backup puts into the archive. A write buffer always has
-- room in the end, so what is written is a list of bytes.
use ndmpd.Common.{
  ℕ, zero, suc, ◌+◌, ◌-◌, ◌/◌, ◌%◌, Bool, ◌&&◌, ◌||◌, List, [], ◌∷◌, ◌++◌, Option, none, some, ltb,
  leb, ◌==◌, if◌then◌else◌, length, take,
}
use ndmpd.Common.Bytes.{codes}
use ndmpd.Archive.{
  is_nul, Header, header_bytes, format_0o, zero_padded, round_up, tlm_name_size, lf_normal, lf_link,
  lf_symlink, lf_dir, lf_fifo, lf_longlink, lf_longname,
}

-- the file types that are told apart
pub data Kind : Type 0 where
  directory fifo symlink regular : Kind

-- `struct stat`, with `st_mode` cut into the type and the twelve bits below it
pub record Stat : Type 0 where
  pub kind : Kind
  pub perm : ℕ
  pub st_size : ℕ
  pub st_uid : ℕ
  pub st_gid : ℕ
  pub st_mtime : ℕ
  pub st_nlink : ℕ
  pub st_ino : ℕ

abbrev pub octal7char : ℕ
octal7char = 0o7777777

abbrev pub id_nobody : ℕ
id_nobody = 65534

-- the bytes that the buffer holds behind what is written
unfoldable pub stale : (ℕ → ℕ) → ℕ → List ℕ
stale fill zero = []
stale fill (suc n) = fill n ∷ stale fill n

-- what `output_mem` puts out: whole records
unfoldable pub output_mem : (ℕ → ℕ) → List ℕ → List ℕ
unfolding stale
output_mem fill mem = mem ++ stale fill (round_up (length mem) - length mem)

unfoldable pub decimal_digits : ℕ → ℕ → List ℕ → List ℕ
decimal_digits zero n acc = acc
decimal_digits (suc f) n acc =
    let rest = decimal_digits f (n / 10) ((b'0' + n % 10) ∷ acc) in
    if ltb n 10 then (b'0' + n) ∷ acc else rest

-- `"%s%08qd" LONGNAME_PREFIX file_count`, and the ending
unfoldable pub counted_name : ℕ → List ℕ → List ℕ
unfolding decimal_digits zero_padded
counted_name file_count ending =
    codes "././_LoNg_NaMe_" ++ (zero_padded 8 (decimal_digits 20 file_count []) ++ ending)

abbrev pub name_or_none : Option (List ℕ) → List ℕ
name_or_none none = []
name_or_none (some n) = n

-- The identity that is written for one with a name: the one for nobody if it is too large or has no
-- name.
unfoldable pub written_id : ℕ → List ℕ → ℕ
written_id i name = if is_nul name || ltb octal7char i then id_nobody else i

-- the flag of a file's own record
unfoldable pub link_flag : Stat → List ℕ → ℕ
link_flag attr link = elim attr.kind [
  | directory ↦ lf_dir
  | fifo ↦ lf_fifo
  | symlink ↦ if ltb 1 attr.st_nlink then lf_link else if is_nul link then lf_normal else lf_symlink
  | regular ↦ if ltb 1 attr.st_nlink then lf_link else if is_nul link then lf_normal else lf_symlink
]

unfoldable pub ino_text : Stat → List ℕ → List ℕ
unfolding link_flag
ino_text attr link = if link_flag attr link == lf_link then format_0o 11 attr.st_ino else []

abbrev pub is_long : List ℕ → Bool
is_long s = leb tlm_name_size (length s)

abbrev pub one_if : Bool → ℕ
one_if b = if b then 1 else 0

-- the names of users and groups, and the size of a path's buffer
module _ (getpwuid getgrgid : ℕ → Option (List ℕ)) (max_path : ℕ) (fill : ℕ → ℕ) where
  -- the fields that every record of a file has
  unfoldable pub common : Stat → (size flag : ℕ) → (name linkname ino : List ℕ) → Header
  unfolding written_id
  common attr size flag name linkname ino =
      let uname = name_or_none (getpwuid attr.st_uid) in
      let gname = name_or_none (getgrgid attr.st_gid) in
      record {
        th_name = name;
        th_mode = format_0o 6 attr.perm;
        th_uid = format_0o 6 (written_id attr.st_uid uname);
        th_gid = format_0o 6 (written_id attr.st_gid gname);
        th_size = format_0o 11 size;
        th_mtime = format_0o 11 attr.st_mtime;
        th_linkflag = flag;
        th_linkname = linkname;
        th_magic = codes "ustar  ";
        th_uname = take 31 uname;
        th_gname = take 31 gname;
        th_hlink_ino = ino;
      }

  -- the record and the data of a name that is too long
  unfoldable pub output_long_name : Stat → ℕ → List ℕ → List ℕ
  unfolding common counted_name output_mem
  output_long_name attr file_count name =
      if is_long name
      then header_bytes
          (common attr (length name) lf_longname (counted_name file_count (codes ".fil")) [] [])
        ++ output_mem fill name
      else []

  unfoldable pub output_long_link : Stat → ℕ → List ℕ → List ℕ
  unfolding common counted_name output_mem
  output_long_link attr file_count link =
      if is_long link
      then header_bytes
          (common attr (length link) lf_longlink [] (counted_name file_count (codes ".slk")) [])
        ++ output_mem fill link
      else []

  -- `snprintf` of the name with the number of the section, or the name alone
  unfoldable pub section_name : List ℕ → ℕ → List ℕ
  unfolding decimal_digits zero_padded
  section_name name section =
      take (max_path - 1) (
        if section == 0
        then name
        else name ++ (b'.' ∷ zero_padded 3 (decimal_digits 10 section [])))

  unfoldable pub last_header : Stat → ℕ → (name link : List ℕ) → Header
  unfolding common counted_name link_flag ino_text
  last_header attr count name link =
      common attr attr.st_size (link_flag attr link)
        (if is_long name then counted_name count (codes ".fil") else take 99 name)
        (if is_long link
          then counted_name (count + one_if (is_long name)) (codes ".slk")
          else take 99 link)
        (ino_text attr link)

  -- The bytes and the new `file_count`
  unfoldable pub output_file_header : ℕ → (name link : List ℕ) → Stat → (section : ℕ) → List ℕ × ℕ
  unfolding section_name
  output_file_header file_count name link attr section =
      let nm = section_name name section in
      let count = file_count + one_if (is_long nm) in
      let count' = count + one_if (is_long link) in
      let count'' = count' + (one_if (is_long nm) + one_if (is_long link)) in
      (
        output_long_name attr file_count nm
            ++ (output_long_link attr count link ++ header_bytes (last_header attr count' nm link)),
        if (is_long nm || is_long link) && ltb 99999990 count'' then 0 else count'',
      )
