-- ===== src/DumpDates/Lines/Written.antt =====
-- src/ndmpd_dtime.c: a line that `dumprecout` writes is read back by `getrecord`.
use ndmpd.Common.{
  ℕ, zero, suc, ◌+◌, ◌-◌, ◌<◌, ◌≡◌, ◌≢◌, refl, ap, ◌∙◌, false, List, [], ◌∷◌, ◌++◌, ◌==◌, some,
  arith, All, length,
}
use ndmpd.DumpDates.Lines.{
  take_line, fgets, Line, got, last_of, without_last, continued, on_line, getline_rounds,
  getline_ndmpd,
}

abbrev pub OneLine : List ℕ → Type 0
OneLine s = All (λ c. (c == b'\n') ≡ false) s

pub OneLine-append : (s t : List ℕ) → OneLine s → OneLine t → OneLine (s ++ t)
OneLine-append [] t h k = k
OneLine-append (c ∷ s) t (e, h) k = (e, OneLine-append s t h k)

take_line-line :
    (n : ℕ) (s rest : List ℕ)
    → OneLine s
    → length s < n
    → take_line n (s ++ (b'\n' ∷ rest)) ≡ (s ++ (b'\n' ∷ []), rest)
unfolding take_line
take_line-line zero s rest h lt = absurd (omega arith)
take_line-line (suc n) [] rest h lt = refl
take_line-line (suc n) (c ∷ s) rest (e, h) lt = rw (e, take_line-line n s rest h (omega arith)) refl

pub fgets-line :
    (n : ℕ) (s rest : List ℕ)
    → OneLine s
    → length s + 1 < n
    → fgets n (s ++ (b'\n' ∷ rest)) ≡ some (s ++ (b'\n' ∷ []), rest)
unfolding fgets
fgets-line n [] rest h lt = ap some (take_line-line (n - 1) [] rest h (omega (arith, lt)))
fgets-line n (c ∷ s) rest h lt = ap some (take_line-line (n - 1) (c ∷ s) rest h (omega (arith, lt)))

last_of-snoc : (d e : ℕ) (s : List ℕ) → last_of d (s ++ (e ∷ [])) ≡ e
last_of-snoc d e [] = refl
last_of-snoc d e (c ∷ s) = last_of-snoc c e s

pub last_of-append : (d e : ℕ) (s t : List ℕ) → last_of d (s ++ (e ∷ t)) ≡ last_of e t
last_of-append d e [] t = refl
last_of-append d e (c ∷ s) t = last_of-append c e s t

without_last-snoc : (e : ℕ) (s : List ℕ) → without_last (s ++ (e ∷ [])) ≡ s
without_last-snoc e [] = refl
without_last-snoc e (c ∷ []) = refl
without_last-snoc e (c ∷ d ∷ s) = ap (λ r. c ∷ r) (without_last-snoc e (d ∷ s))

on_line-line :
    (again : ℕ → List ℕ → List ℕ → Line) (llen c : ℕ) (s rest : List ℕ)
    → c ≢ b'#'
    → last_of c s ≢ b'\\'
    → on_line again llen [] (some ((c ∷ s) ++ (b'\n' ∷ []), rest)) ≡ got (c ∷ s) rest
unfolding on_line continued
on_line-line again llen c s rest n b =
    let comment : (c == b'#') ≡ false = ground arith in
    let slash : (last_of c s == b'\\') ≡ false = ground arith in
    rw (comment, last_of-snoc c b'\n' s, without_last-snoc b'\n' (c ∷ s), slash) refl

-- A line is read whole when it fits, is not empty, does not begin with `#` and does not end with a
-- backslash.
pub getline-line :
    (c : ℕ) (s rest : List ℕ) (bufsiz : ℕ)
    → OneLine (c ∷ s)
    → c ≢ b'#'
    → last_of c s ≢ b'\\'
    → length s + 2 < bufsiz
    → getline_ndmpd ((c ∷ s) ++ (b'\n' ∷ rest)) bufsiz ≡ got (c ∷ s) rest
unfolding getline_ndmpd getline_rounds
getline-line c s rest bufsiz h n b lt =
    let again = getline_rounds (length ((c ∷ s) ++ (b'\n' ∷ rest))) in
    ap (λ r. on_line again bufsiz [] r) (fgets-line bufsiz (c ∷ s) rest h (omega (arith, lt)))
    ∙ on_line-line again bufsiz c s rest n b
