-- ===== src/DumpDates/Lines/Text.antt =====
-- src/ndmpd_dtime.c: the records that a line of the file can keep, and the text of the line.
use ndmpd.Common.{
  ℕ, ◌+◌, ◌<◌, ◌≡◌, ◌≢◌, inl, inr, refl, true, false, ◌&&◌, ◌||◌, not, List, [], ◌∷◌, ◌++◌, leb,
  ◌==◌, get_or, arith, Bool-cases, length,
}
use ndmpd.Common.Bytes.{passes, passes_at}
use ndmpd.DumpDates.{DumpDate, is_lbr_bktype}
use ndmpd.DumpDates.Fields.{put_ddname, put_ddlevel, decimal, dumprecout}
use ndmpd.DumpDates.Fields.Laws.{IsWritable, IsLevel}
use ndmpd.DumpDates.Dates.{Tm, months}
use ndmpd.DumpDates.Dates.Asctime.{Civil, IsCivil, asctime, tm_of_civil}
use ndmpd.DumpDates.Lines.Written.{OneLine, OneLine-append}

abbrev pub IsLetter : ℕ → Type 0
IsLetter c = (64 < c) × (c < 123)

-- What POSIX says of a date `t`: `ctime` gives the text of a date of the calendar, in a year of four
-- digits, and `mktime` gives `t` for it again.
pub record IsDate (mktime : Tm → ℕ) (ctime : ℕ → List ℕ) (t : ℕ) : Type 0 where
  pub day_name : ℕ × (ℕ × ℕ)
  pub civil : Civil
  pub first_letter : IsLetter day_name.0
  pub second_letter : IsLetter day_name.1.0
  pub third_letter : IsLetter day_name.1.1
  pub civil_valid : IsCivil civil
  pub text_of : ctime t ≡ asctime day_name.0 day_name.1.0 day_name.1.1 civil ++ (b'\n' ∷ [])
  pub time_of : mktime (tm_of_civil civil) ≡ t

abbrev pub Named : List ℕ → Type 0
Named [] = ⊥
Named (c ∷ s) = c ≢ b'#'

-- the records that a line of the file can keep
pub record IsKept (mktime : Tm → ℕ) (ctime : ℕ → List ℕ) (bufsiz path_name : ℕ) (d : DumpDate)
    : Type 0 where
  pub named : Named d.dd_name
  pub writable : IsWritable d.dd_name
  pub level_valid : IsLevel d.dd_level
  pub date_valid : IsDate mktime ctime d.dd_ddate
  pub name_fits : length d.dd_name < path_name
  pub line_fits : length (dumprecout ctime d) + 1 < bufsiz

-- a line without its newline
abbrev pub line_of : List ℕ → ℕ → List ℕ → List ℕ
line_of nm level text = put_ddname nm ++ (b'\t' ∷ (put_ddlevel level ++ (b'\t' ∷ text)))

month_letters :
    passes
      (λ m.
        let l = get_or months m [] in
        not (get_or l 0 0 == b'\n') && (not (get_or l 1 0 == b'\n') && not (get_or l 2 0 == b'\n')))
      12
    ≡ true
unfolding passes
month_letters = refl

pub asctime-OneLine :
    (x y z : ℕ) (c : Civil)
    → IsLetter x
    → IsLetter y
    → IsLetter z
    → c.month < 12
    → OneLine (asctime x y z c)
unfolding asctime
asctime-OneLine x y z c hx hy hz m =
    let l = get_or months c.month [] in
    let t : (not (get_or l 0 0 == b'\n')
          && (not (get_or l 1 0 == b'\n') && not (get_or l 2 0 == b'\n')))
        ≡ true =
      passes_at
        (λ m.
          let l = get_or months m [] in
          not (get_or l 0 0 == b'\n')
          && (not (get_or l 1 0 == b'\n') && not (get_or l 2 0 == b'\n')))
        12 c.month month_letters m in
    (
      ground arith,
      (
        ground arith,
        (
          ground arith,
          (
            refl,
            (
              ground (arith, t),
              (
                ground (arith, t),
                (
                  ground (arith, t),
                  (
                    refl,
                    (
                      ground arith,
                      (
                        ground arith,
                        (
                          refl,
                          (
                            ground arith,
                            (
                              ground arith,
                              (
                                refl,
                                (
                                  ground arith,
                                  (
                                    ground arith,
                                    (
                                      refl,
                                      (
                                        ground arith,
                                        (
                                          ground arith,
                                          (
                                            refl,
                                            (
                                              ground arith,
                                              (ground arith, (ground arith, (ground arith, tt))),
                                            ),
                                          ),
                                        ),
                                      ),
                                    ),
                                  ),
                                ),
                              ),
                            ),
                          ),
                        ),
                      ),
                    ),
                  ),
                ),
              ),
            ),
          ),
        ),
      ),
    )

put_ddname-OneLine-escaped :
    (c : ℕ) (nm : List ℕ) → c ≢ b'\n' → OneLine (put_ddname nm) → OneLine (put_ddname (c ∷ nm))
unfolding put_ddname
put_ddname-OneLine-escaped c nm n h =
    let k : (c == b'\n') ≡ false = ground arith in
    elim (Bool-cases (c == b' ' || (c == b'\n' || c == b'\t'))) [
      | inl e ↦ rw e (refl, (k, h))
      | inr e ↦ rw e (k, h)
    ]

put_ddname-OneLine : (nm : List ℕ) → IsWritable nm → OneLine (put_ddname nm)
unfolding put_ddname
put_ddname-OneLine [] h = tt
put_ddname-OneLine (c ∷ []) (n, b) = put_ddname-OneLine-escaped c [] n tt
put_ddname-OneLine (c ∷ d ∷ nm) (n, h) =
    put_ddname-OneLine-escaped c (d ∷ nm) n (put_ddname-OneLine (d ∷ nm) h)

decimal-OneLine : (n : ℕ) → OneLine (decimal n)
unfolding decimal
decimal-OneLine n = elim (Bool-cases (leb 100 n)) [
  | inl e ↦ rw e (ground arith, (ground arith, (ground arith, tt)))
  | inr e ↦ rw e (elim (Bool-cases (leb 10 n)) [
    | inl f ↦ rw f (ground arith, (ground arith, tt))
    | inr f ↦ rw f (ground arith, tt)
  ])
]

put_ddlevel-OneLine : (n : ℕ) → OneLine (put_ddlevel n)
unfolding put_ddlevel
put_ddlevel-OneLine n = elim (Bool-cases (is_lbr_bktype n)) [
  | inl e ↦ rw e (ground (arith, e), tt)
  | inr e ↦ rw e (decimal-OneLine n)
]

pub line_of-OneLine :
    (nm : List ℕ) (level : ℕ) (text : List ℕ)
    → IsWritable nm
    → OneLine text
    → OneLine (line_of nm level text)
line_of-OneLine nm level text w h =
    OneLine-append (put_ddname nm) (b'\t' ∷ (put_ddlevel level ++ (b'\t' ∷ text)))
      (put_ddname-OneLine nm w)
      (
        refl,
        OneLine-append (put_ddlevel level) (b'\t' ∷ text) (put_ddlevel-OneLine level) (refl, h),
      )
