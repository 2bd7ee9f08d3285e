-- ===== src/DumpDates.antt =====
-- src/ndmpd_dtime.c: the file of dump dates, which keeps for each path and level the date of the last
-- backup. A C string is the list of its bytes before the NUL.
pub mod Fields
pub mod Dates
pub mod Lines
pub mod Table
mod Tests
use ndmpd.Common.{
  ℕ, ◌-◌, Bool, true, false, ◌&&◌, ◌||◌, not, List, [], ◌∷◌, ◌++◌, leb, ◌==◌, if◌then◌else◌,
}

-- `dumpdates_t` without its link; a level, which is a `char` there, is below 128
pub record DumpDate : Type 0 where
  pub dd_name : List ℕ
  pub dd_level : ℕ
  pub dd_ddate : ℕ

abbrev pub is_blank : ℕ → Bool
is_blank c = c == b'\t' || c == b' '

abbrev pub is_digit : ℕ → Bool
is_digit c = leb b'0' c && leb c b'9'

abbrev pub toupper : ℕ → ℕ
toupper c = if leb b'a' c && leb c b'z' then c - 32 else c

-- the macro of include/ndmpd_tar_v3.h; `strchr` finds a NUL too, which the first test keeps out
abbrev pub is_lbr_bktype : ℕ → Bool
is_lbr_bktype t =
    not (t == 0)
    && (toupper t == b'F' || (toupper t == b'A' || (toupper t == b'I' || toupper t == b'D')))

-- `strspn(s, "\t ")` skipped
unfoldable pub skip_blanks : List ℕ → List ℕ
skip_blanks [] = []
skip_blanks (c ∷ s) = elim (is_blank c) [ true ↦ skip_blanks s | false ↦ c ∷ s ]
