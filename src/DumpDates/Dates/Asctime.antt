-- ===== src/DumpDates/Dates/Asctime.antt =====
-- src/ndmpd_dtime.c, `unctime`: it reads the texts of the library's `ctime`.
use ndmpd.Common.{
  ℕ, ◌+◌, ◌-◌, leb, ◌/◌, ◌%◌, ◌<◌, ◌≤◌, ◌≡◌, refl, ap, ◌∙◌, Bool, true, false, List, [], ◌∷◌, ◌++◌,
  ltb, ◌==◌, if◌then◌else◌, get_or, inl, inr, Option, none, some, arith, Bool-cases, All, drop,
}
use ndmpd.Common.Bytes.{passes, passes_at}
use ndmpd.DumpDates.{is_digit}
use ndmpd.DumpDates.Fields.{digits_value}
use ndmpd.DumpDates.Fields.Laws.{take_digits-append}
use ndmpd.DumpDates.Dates.{
  Tm, months, same, lookup, lookup_from, is_space, skip_spaces, leading, signed, atoi, dbuf, tm_of,
  convert, unctime, ndmp_isdst, since_1900,
}

-- A date of the calendar with a four-digit year; the month counts from 0.
pub record Civil : Type 0 where
  pub month : ℕ
  pub day : ℕ
  pub hour : ℕ
  pub minute : ℕ
  pub second : ℕ
  pub year : ℕ

pub record IsCivil (c : Civil) : Type 0 where
  pub month_lt : c.month < 12
  pub day_lt : c.day < 32
  pub hour_lt : c.hour < 24
  pub minute_lt : c.minute < 60
  pub second_lt : c.second < 62
  pub year_lt : c.year < 10000
  pub year_ge : 1000 ≤ c.year

abbrev pub digit : ℕ → ℕ
digit n = b'0' + n % 10

-- `%3d` without its first blank
abbrev day_tens : ℕ → ℕ
day_tens n = if ltb n 10 then b' ' else digit (n / 10)

-- The text that POSIX gives for `ctime`, without the newline; `x y z` is the name of the day.
unfoldable pub asctime : ℕ → ℕ → ℕ → Civil → List ℕ
asctime x y z c =
    let m = get_or months c.month [] in
    x
    ∷ y
    ∷ z
    ∷ b' '
    ∷ get_or m 0 0
    ∷ get_or m 1 0
    ∷ get_or m 2 0
    ∷ b' '
    ∷ day_tens c.day
    ∷ digit c.day
    ∷ b' '
    ∷ digit (c.hour / 10)
    ∷ digit c.hour
    ∷ b':'
    ∷ digit (c.minute / 10)
    ∷ digit c.minute
    ∷ b':'
    ∷ digit (c.second / 10)
    ∷ digit c.second
    ∷ b' '
    ∷ digit (c.year / 1000)
    ∷ digit (c.year / 100)
    ∷ digit (c.year / 10)
    ∷ digit c.year
    ∷ []

abbrev pub tm_of_civil : Civil → Tm
tm_of_civil c = record {
  tm_mon = c.month;
  tm_mday = (false, c.day);
  tm_hour = (false, c.hour);
  tm_min = (false, c.minute);
  tm_sec = (false, c.second);
  tm_year = if leb 1900 c.year then (false, c.year - 1900) else (true, 1900 - c.year);
  tm_isdst = (true, 1);
}

lookup_from-take :
    (ms : List (List ℕ)) (i a b c : ℕ) (s : List ℕ)
    → lookup_from ms i (a ∷ b ∷ c ∷ s) ≡ lookup_from ms i (a ∷ b ∷ c ∷ [])
unfolding lookup_from
lookup_from-take [] i a b c s = refl
lookup_from-take (m ∷ ms) i a b c s =
    ap (λ r. if same m (a ∷ b ∷ c ∷ []) then some i else r) (lookup_from-take ms (i + 1) a b c s)

abbrev is_month : Option ℕ → ℕ → Bool
is_month none m = false
is_month (some k) m = k == m

abbrev name_of : ℕ → List ℕ
name_of m = let l = get_or months m [] in get_or l 0 0 ∷ get_or l 1 0 ∷ get_or l 2 0 ∷ []

month_table : passes (λ m. is_month (lookup (name_of m)) m) 12 ≡ true
unfolding passes lookup lookup_from same
month_table = refl

is_month_lem : (o : Option ℕ) (m : ℕ) → is_month o m ≡ true → o ≡ some m
is_month_lem none m h = absurd (cc)
is_month_lem (some k) m h = ap some (ground arith)

lookup-month :
    (m : ℕ) (s : List ℕ)
    → m < 12
    → let l = get_or months m [] in lookup (get_or l 0 0 ∷ get_or l 1 0 ∷ get_or l 2 0 ∷ s) ≡ some m
unfolding lookup
lookup-month m s h =
    lookup_from-take months 0 (get_or (get_or months m []) 0 0) (get_or (get_or months m []) 1 0)
      (get_or (get_or months m []) 2 0) s
    ∙ is_month_lem (lookup (name_of m)) m
        (passes_at (λ m. is_month (lookup (name_of m)) m) 12 m month_table h)

is_digit-digit : (n : ℕ) → is_digit (digit n) ≡ true
is_digit-digit n = ground arith

digit-plain :
    (d : ℕ)
    → is_digit d ≡ true
    → (is_space d ≡ false) × ((d == b'-') ≡ false) × ((d == b'+') ≡ false)
digit-plain d h = ground arith

atoi_digits :
    (d : ℕ) (w s : List ℕ) (c : ℕ)
    → All (λ c. is_digit c ≡ true) (d ∷ w)
    → is_digit c ≡ false
    → atoi ((d ∷ w) ++ (c ∷ s)) ≡ (false, digits_value 0 (d ∷ w))
unfolding atoi skip_spaces signed leading
atoi_digits d w s c (e, h) n =
    let (sp, mi, pl) = digit-plain d e in
    rw (sp, skip_spaces) (rw (mi, pl, take_digits-append (d ∷ w) s c (e, h) n) refl)

one_value : (n : ℕ) → ltb n 10 ≡ true → digits_value 0 (digit n ∷ []) ≡ n
unfolding digits_value
one_value n e = ground arith

two_value : (n : ℕ) → n < 100 → digits_value 0 (digit (n / 10) ∷ digit n ∷ []) ≡ n
unfolding digits_value
two_value n h = omega arith

four_value :
    (n : ℕ)
    → n < 10000
    → digits_value 0 (digit (n / 1000) ∷ digit (n / 100) ∷ digit (n / 10) ∷ digit n ∷ []) ≡ n
unfolding digits_value
four_value n h = omega arith

atoi_two :
    (n c : ℕ) (s : List ℕ)
    → n < 100
    → is_digit c ≡ false
    → atoi (digit (n / 10) ∷ digit n ∷ c ∷ s) ≡ (false, n)
atoi_two n c s h d =
    atoi_digits (digit (n / 10)) (digit n ∷ []) s c
      (is_digit-digit (n / 10), (is_digit-digit n, tt)) d
    ∙ ap (λ (k : ℕ). (false, k)) (two_value n h)

atoi_blank : (s : List ℕ) → atoi (b' ' ∷ s) ≡ atoi s
unfolding atoi skip_spaces
atoi_blank s = refl

atoi_day :
    (n c : ℕ) (s : List ℕ)
    → n < 100
    → is_digit c ≡ false
    → atoi (day_tens n ∷ digit n ∷ c ∷ s) ≡ (false, n)
atoi_day n c s h d = elim (Bool-cases (ltb n 10)) [
  | inl e ↦ rw e (
      atoi_blank (digit n ∷ c ∷ s)
      ∙ atoi_digits (digit n) [] s c (is_digit-digit n, tt) d
      ∙ ap (λ (k : ℕ). (false, k)) (one_value n e))
  | inr e ↦ rw e (atoi_two n c s h d)
]

atoi_four :
    (n c : ℕ) (s : List ℕ)
    → n < 10000
    → is_digit c ≡ false
    → atoi (digit (n / 1000) ∷ digit (n / 100) ∷ digit (n / 10) ∷ digit n ∷ c ∷ s) ≡ (false, n)
atoi_four n c s h d =
    atoi_digits (digit (n / 1000)) (digit (n / 100) ∷ digit (n / 10) ∷ digit n ∷ []) s c
      (
        is_digit-digit (n / 1000),
        (is_digit-digit (n / 100), (is_digit-digit (n / 10), (is_digit-digit n, tt))),
      )
      d
    ∙ ap (λ (k : ℕ). (false, k)) (four_value n h)

year_of :
    (y : ℕ) → since_1900 (false, y) ≡ (if leb 1900 y then (false, y - 1900) else (true, 1900 - y))
unfolding since_1900
year_of y = ground arith

convert_lem :
    (mktime : Tm → ℕ) (d : List ℕ) {mon : ℕ}
    → lookup (drop 4 d) ≡ some mon
    → convert mktime d ≡ some (mktime (tm_of d mon))
unfolding convert
convert_lem mktime d e = rw (e, convert) refl

-- For every date with a four-digit year, `unctime` hands the date's own fields to `mktime`, the year
-- less 1900 and -1 for the summer time, when it is given the text that `ctime` has for the date.
pub unctime-asctime :
    (mktime : Tm → ℕ) (junk : List ℕ) (x y z : ℕ) (c : Civil)
    → IsCivil c
    → unctime mktime junk (asctime x y z c) ≡ some (mktime (tm_of_civil c))
unfolding unctime asctime dbuf tm_of
unctime-asctime mktime junk x y z c v =
    let d : List ℕ = dbuf junk (asctime x y z c) in
    convert_lem mktime d {mon = c.month} (lookup-month c.month (drop 7 d) v.month_lt)
    ∙ ap (λ t. some (mktime t))
        (λ i. record {
          tm_mon = c.month;
          tm_mday = atoi_day c.day b' ' (drop 11 d) (omega (arith, v.day_lt)) refl i;
          tm_hour = atoi_two c.hour b':' (drop 14 d) (omega (arith, v.hour_lt)) refl i;
          tm_min = atoi_two c.minute b':' (drop 17 d) (omega (arith, v.minute_lt)) refl i;
          tm_sec = atoi_two c.second b' ' (drop 20 d) (omega (arith, v.second_lt)) refl i;
          tm_year =
              (ap since_1900 (atoi_four c.year 0 (drop 25 d) v.year_lt refl) ∙ year_of c.year) i;
          tm_isdst = ndmp_isdst;
        })
