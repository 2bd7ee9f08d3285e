-- ===== src/DumpDates/Dates.antt =====
-- src/ndmpd_dtime.c, `lookup` and `unctime`: the date in a text of `ctime`.
pub mod Asctime
use ndmpd.Common.{
  ℕ, zero, suc, ◌+◌, ◌-◌, ◌/◌, Bool, true, false, ◌&&◌, ◌||◌, List, [], ◌∷◌, ◌++◌, leb, ltb, ◌==◌,
  if◌then◌else◌, Option, none, some, length, take, drop, set,
}
use ndmpd.Common.Bytes.{codes}
use ndmpd.DumpDates.{is_digit}
use ndmpd.DumpDates.Fields.{take_digits, digits_value}

-- a number of `int`: whether it is negative, and its size
abbrev pub SignedNumber : Type 0
SignedNumber = Bool × ℕ

-- The fields that `unctime` sets of `struct tm`
pub record Tm : Type 0 where
  pub tm_mon : ℕ
  pub tm_mday : SignedNumber
  pub tm_hour : SignedNumber
  pub tm_min : SignedNumber
  pub tm_sec : SignedNumber
  pub tm_year : SignedNumber
  pub tm_isdst : SignedNumber

-- `ndmp_isdst`, which is -1
abbrev pub ndmp_isdst : SignedNumber
ndmp_isdst = (true, 1)

-- the number less 1900
unfoldable pub since_1900 : SignedNumber → SignedNumber
since_1900 (true, n) = (true, n + 1900)
since_1900 (false, n) = if ltb n 1900 then (true, 1900 - n) else (false, n - 1900)

abbrev pub months : List (List ℕ)
months =
    codes "Jan"
    ∷ codes "Feb"
    ∷ codes "Mar"
    ∷ codes "Apr"
    ∷ codes "May"
    ∷ codes "Jun"
    ∷ codes "Jul"
    ∷ codes "Aug"
    ∷ codes "Sep"
    ∷ codes "Oct"
    ∷ codes "Nov"
    ∷ codes "Dec"
    ∷ []

unfoldable pub same : List ℕ → List ℕ → Bool
same [] [] = true
same [] (y ∷ b) = false
same (x ∷ a) [] = false
same (x ∷ a) (y ∷ b) = x == y && same a b

-- the index of the first month with the text's first three characters; `none` is -1
unfoldable pub lookup_from : List (List ℕ) → ℕ → List ℕ → Option ℕ
unfolding same
lookup_from [] i str = none
lookup_from (m ∷ ms) i str =
    let rest = lookup_from ms (i + 1) str in if same m (take 3 str) then some i else rest

unfoldable pub lookup : List ℕ → Option ℕ
unfolding lookup_from
lookup str = lookup_from months 0 str

abbrev pub is_space : ℕ → Bool
is_space c = c == b' ' || (leb 9 c && leb c 13)

unfoldable pub skip_spaces : List ℕ → List ℕ
skip_spaces [] = []
skip_spaces (c ∷ s) = elim (is_space c) [ true ↦ skip_spaces s | false ↦ c ∷ s ]

-- the number that the digits at the text's beginning stand for
unfoldable pub leading : List ℕ → ℕ
unfolding take_digits digits_value
leading s = digits_value 0 (take_digits s).0

unfoldable pub signed : List ℕ → SignedNumber
unfolding leading
signed [] = (false, 0)
signed (c ∷ s) =
    if c == b'-'
    then (true, leading s)
    else if c == b'+'
    then (false, leading s)
    else (false, leading (c ∷ s))

-- the library's `atoi`, of a text that may go on behind its NUL
unfoldable pub atoi : List ℕ → SignedNumber
unfolding skip_spaces signed
atoi s = signed (skip_spaces s)

-- `dbuf`: at most 24 characters of the text, a NUL, and behind that what the stack held
unfoldable pub dbuf : List ℕ → List ℕ → List ℕ
dbuf junk str = let s = take 24 str in set (set (s ++ (0 ∷ drop (length s + 1) junk)) 25 0) 7 0

-- `lookup` takes the text only up to its NUL, but then no month is found there either.
unfoldable pub tm_of : List ℕ → ℕ → Tm
unfolding atoi since_1900
tm_of d mon = record {
  tm_mon = mon;
  tm_mday = atoi (drop 8 d);
  tm_hour = atoi (drop 11 d);
  tm_min = atoi (drop 14 d);
  tm_sec = atoi (drop 17 d);
  tm_year = since_1900 (atoi (drop 20 d));
  tm_isdst = ndmp_isdst;
}

-- `unctime`, with `dbuf` filled
unfoldable pub convert : (Tm → ℕ) → List ℕ → Option ℕ
unfolding lookup tm_of
convert mktime d = elim (lookup (drop 4 d)) [ none ↦ none | some mon ↦ some (mktime (tm_of d mon)) ]

-- `mktime` is the library's; `none` is the result -1.
unfoldable pub unctime : (Tm → ℕ) → List ℕ → List ℕ → Option ℕ
unfolding dbuf convert
unctime mktime junk str = convert mktime (dbuf junk str)
