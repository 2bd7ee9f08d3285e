-- ===== src/DumpDates/Fields.antt =====
-- src/ndmpd_dtime.c: a record's fields, written to a line and read from one.
pub mod Laws
use ndmpd.Common.{
  ℕ, zero, suc, ◌+◌, ◌-◌, ◌*◌, ◌/◌, ◌%◌, Bool, true, false, ◌&&◌, ◌||◌, not, List, [], ◌∷◌, ◌++◌,
  leb, ◌==◌, if◌then◌else◌, Option, none, some,
}
use ndmpd.DumpDates.{DumpDate, is_blank, is_digit, toupper, is_lbr_bktype, skip_blanks}

-- The loop of `get_ddname`: the name, and what is left of the line. A backslash before a blank is
-- dropped, and a blank ends the name.
unfoldable pub get_word : List ℕ → List ℕ × List ℕ
get_word [] = ([], [])
get_word (a ∷ []) = elim (is_blank a) [ true ↦ ([], []) | false ↦ (a ∷ [], []) ]
get_word (a ∷ b ∷ s) = elim (is_blank a) [
  | true ↦ ([], b ∷ s)
  | false ↦ elim (a == b'\\' && is_blank b) [
    | true ↦ let (w, r) = get_word s in (b ∷ w, r)
    | false ↦ let (w, r) = get_word (b ∷ s) in (a ∷ w, r)
  ]
]

unfoldable pub get_ddname : List ℕ → List ℕ × List ℕ
unfolding get_word
get_ddname s = get_word (skip_blanks s)

unfoldable pub take_digits : List ℕ → List ℕ × List ℕ
take_digits [] = ([], [])
take_digits (c ∷ s) = elim (is_digit c) [
  | true ↦ let (w, r) = take_digits s in (c ∷ w, r)
  | false ↦ ([], c ∷ s)
]

-- the number that decimal digits stand for
unfoldable pub digits_value : ℕ → List ℕ → ℕ
digits_value acc [] = acc
digits_value acc (c ∷ s) = digits_value (acc * 10 + (c - b'0')) s

-- the text behind its first character; `none` when the pointer leaves the text
abbrev pub behind : List ℕ → Option (List ℕ)
behind [] = none
behind (c ∷ s) = some s

abbrev pub with_level {ℓ} : {A : Type ℓ} → A → Option (List ℕ) → Option (A × List ℕ)
with_level n none = none
with_level n (some r) = some (n, r)

-- A letter, or digits, and one character behind it, which is overwritten; `none` is a pointer that
-- has left the line.
unfoldable pub level_of : List ℕ → Option (ℕ × List ℕ)
unfolding take_digits digits_value
level_of [] = none
level_of (c ∷ s) =
    if is_lbr_bktype c
    then with_level (toupper c) (behind s)
    else let (w, r) = take_digits (c ∷ s) in with_level (digits_value 0 w) (behind r)

unfoldable pub get_ddlevel : List ℕ → Option (ℕ × List ℕ)
unfolding level_of
get_ddlevel s = level_of (skip_blanks s)

unfoldable pub get_ddate : List ℕ → List ℕ
get_ddate s = skip_blanks s

unfoldable pub put_ddname : List ℕ → List ℕ
put_ddname [] = []
put_ddname (c ∷ nm) =
    let rest = put_ddname nm in
    if c == b' ' || (c == b'\n' || c == b'\t') then b'\\' ∷ c ∷ rest else c ∷ rest

-- `%d` of a number below 1000, as levels are
unfoldable pub decimal : ℕ → List ℕ
decimal n =
    if leb 100 n
    then (b'0' + n / 100 % 10) ∷ (b'0' + n / 10 % 10) ∷ (b'0' + n % 10) ∷ []
    else if leb 10 n
    then (b'0' + n / 10 % 10) ∷ (b'0' + n % 10) ∷ []
    else (b'0' + n % 10) ∷ []

unfoldable pub put_ddlevel : ℕ → List ℕ
unfolding decimal
put_ddlevel level = if is_lbr_bktype level then level ∷ [] else decimal level

-- `dumprecout`; `ctime` is the system's text of a date, with its newline.
unfoldable pub dumprecout : (ℕ → List ℕ) → DumpDate → List ℕ
unfolding put_ddname put_ddlevel
dumprecout ctime d =
    put_ddname d.dd_name ++ (b'\t' ∷ (put_ddlevel d.dd_level ++ (b'\t' ∷ ctime d.dd_ddate)))
