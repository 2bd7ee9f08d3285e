-- ===== src/Archive.antt =====
-- include/tlm.h: the records of the archive, 512 bytes each, and the numbers and texts in them.
pub mod Writer
pub mod Objects
pub mod Variables
pub mod Reader
pub mod Fields
pub mod Headers
pub mod Places
pub mod Views
pub mod Steps
pub mod LongNames
pub mod Paths
pub mod Switch
pub mod Files
pub mod Groups
pub mod Own
pub mod Kept
pub mod Kinds
pub mod Links
pub mod Roundtrip
pub mod Limits
mod Tests
use ndmpd.Common.{
  ℕ, zero, suc, ◌+◌, ◌-◌, ◌*◌, ◌/◌, ◌%◌, ◌^◌, Bool, true, false, ◌&&◌, List, [], ◌∷◌, ◌++◌, Option,
  none, some, ltb, ◌==◌, if◌then◌else◌, length, take, drop, replicate,
}
use ndmpd.Common.Bytes.{codes}
use ndmpd.Base64.{Outcome, done, overread, ◌>>=◌}
use ndmpd.TarHeader.{TlmTarHdr, octal, oct_atoi, snprintf, record_bytes, tlm_build_header_checksum}

abbrev pub tlm_name_size : ℕ
tlm_name_size = 100

-- `LF_LONGNAME` and the like
abbrev pub lf_oldnormal : ℕ
lf_oldnormal = 0

abbrev pub lf_normal : ℕ
lf_normal = b'0'

abbrev pub lf_link : ℕ
lf_link = b'1'

abbrev pub lf_symlink : ℕ
lf_symlink = b'2'

abbrev pub lf_dir : ℕ
lf_dir = b'5'

abbrev pub lf_fifo : ℕ
lf_fifo = b'6'

abbrev pub lf_contig : ℕ
lf_contig = b'7'

abbrev pub lf_humongus : ℕ
lf_humongus = b'H'

abbrev pub lf_longlink : ℕ
lf_longlink = b'K'

abbrev pub lf_longname : ℕ
lf_longname = b'L'

abbrev pub lf_multivol : ℕ
lf_multivol = b'M'

abbrev pub lf_volhdr : ℕ
lf_volhdr = b'V'

abbrev pub lf_acl : ℕ
lf_acl = b'A'

-- `tlm_tar_hdr_t` without the checksum: the texts that are put into its fields, which are cleared
-- before. The inode stands in `th_shared`.
pub record Header : Type 0 where
  pub th_name : List ℕ
  pub th_mode : List ℕ
  pub th_uid : List ℕ
  pub th_gid : List ℕ
  pub th_size : List ℕ
  pub th_mtime : List ℕ
  pub th_linkflag : ℕ
  pub th_linkname : List ℕ
  pub th_magic : List ℕ
  pub th_uname : List ℕ
  pub th_gname : List ℕ
  pub th_hlink_ino : List ℕ

-- a cleared field of a size, with a text
abbrev pub field : ℕ → List ℕ → List ℕ
field size s = snprintf (replicate size 0) s

unfoldable pub parts : Header → TlmTarHdr
parts h = record {
  before =
      field 100 h.th_name
      ++ (field 8 h.th_mode
          ++ (field 8 h.th_uid
              ++ (field 8 h.th_gid ++ (field 12 h.th_size ++ field 12 h.th_mtime))));
  th_chksum = replicate 8 0;
  behind =
      h.th_linkflag ∷ field 100 h.th_linkname
      ++ (field 8 h.th_magic
          ++ (field 32 h.th_uname
              ++ (field 32 h.th_gname ++ (field 12 h.th_hlink_ino ++ replicate 171 0))));
}

-- The bytes of a record that is given out, with its checksum
unfoldable pub header_bytes : Header → List ℕ
unfolding parts
header_bytes h = record_bytes (tlm_build_header_checksum (parts h))

-- The digits of `%0<width>o`, and the blank that follows them in the format. A number has at most 22
-- octal digits.
unfoldable pub zero_padded : ℕ → List ℕ → List ℕ
zero_padded width s = replicate (width - length s) b'0' ++ s

unfoldable pub format_0o : ℕ → ℕ → List ℕ
unfolding zero_padded
format_0o width n = zero_padded width (octal 22 n []) ++ (b' ' ∷ [])

-- the text in memory up to its NUL
unfoldable pub text_at : List ℕ → Outcome (List ℕ)
text_at [] = overread
text_at (c ∷ s) = if c == 0 then done [] else text_at s >>= λ (t : List ℕ). done (c ∷ t)

-- `oct_atoi` of a place in memory
unfoldable pub number_at : List ℕ → Outcome ℕ
number_at s = elim (oct_atoi s) [ none ↦ overread | some n ↦ done n ]

-- an `int` as a size: a negative one reads nothing
unfoldable pub size_of : ℕ → ℕ
size_of n = if ltb n (2 ^ 31) then n else 0

abbrev pub round_up : ℕ → ℕ
round_up n = (n + 511) / 512 * 512

abbrev pub is_nul : List ℕ → Bool
is_nul [] = true
is_nul (c ∷ s) = false
