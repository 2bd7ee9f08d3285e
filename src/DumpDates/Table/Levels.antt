-- ===== src/DumpDates/Table/Levels.antt =====
-- src/ndmpd_dtime.c: on which backup `ndmpd_get_dumptime` bases an incremental one.
use native.Mathlib.Decide.{ℕ_discrete}
use ndmpd.Common.{
  ℕ, zero, suc, ◌%◌, ◌<◌, ◌≡◌, inl, inr, refl, true, false, List, [], ◌∷◌, ==_refl, Option, none,
  some, arith, Bool-cases, All, get_elem?,
}
use ndmpd.DumpDates.{DumpDate, is_lbr_bktype}
use ndmpd.DumpDates.Dates.{same}
use ndmpd.DumpDates.Table.{is_match, find_date, find_below, level_and_date, ndmpd_get_dumptime}

pub same_refl : (a : List ℕ) → same a a ≡ true
unfolding same
same_refl [] = refl
same_refl (x ∷ a) = rw (==_refl x) (same_refl a)

-- no record of the path with the level and a later date
abbrev pub NoneAt : List DumpDate → List ℕ → ℕ → ℕ → Type 0
NoneAt ds path level t = All (λ d. is_match path level t d ≡ false) ds

abbrev FindSpec : List DumpDate → List ℕ → ℕ → ℕ → Option DumpDate → Type 0
FindSpec ds path level t none = NoneAt ds path level t
FindSpec ds path level t (some d) =
    ((n : ℕ) × (get_elem? ds n ≡ some d)) × (is_match path level t d ≡ true)

FindSpec-cons :
    (e : DumpDate) (ds : List DumpDate) (path : List ℕ) (level t : ℕ) (o : Option DumpDate)
    → is_match path level t e ≡ false
    → FindSpec ds path level t o
    → FindSpec (e ∷ ds) path level t o
FindSpec-cons e ds path level t none h f = (h, f)
FindSpec-cons e ds path level t (some d) h ((n, p), m) = ((suc n, p), m)

find_date_lem :
    (ds : List DumpDate) (path : List ℕ) (level t : ℕ)
    → FindSpec ds path level t (find_date ds path level t)
unfolding find_date
find_date_lem [] path level t = tt
find_date_lem (d ∷ ds) path level t = elim (Bool-cases (is_match path level t d)) [
  | inl h ↦ rw h ((zero, refl), h)
  | inr h ↦ rw h (
      FindSpec-cons d ds path level t (find_date ds path level t) h (find_date_lem ds path level t))
]

-- What an incremental backup is based on: on nothing, when no lower level has a record; or on a
-- record of the path of the greatest lower level that has one.
pub data Base (ds : List DumpDate) (path : List ℕ) (level t : ℕ) : ℕ × ℕ → Type 0 where
  full : ((j : ℕ) → j < level → NoneAt ds path j t) → Base ds path level t (0, 0)
  based_on :
      (d : DumpDate) (n : ℕ)
      → get_elem? ds n ≡ some d
      → is_match path d.dd_level t d ≡ true
      → d.dd_level < level
      → ((j : ℕ) → d.dd_level < j → j < level → NoneAt ds path j t)
      → Base ds path level t (d.dd_level, d.dd_ddate)

match-level :
    (path : List ℕ) (level t : ℕ) (d : DumpDate)
    → is_match path level t d ≡ true
    → (d.dd_level ≡ level) × (is_match path d.dd_level t d ≡ true)
match-level path level t d h = ground arith

Base-suc :
    (ds : List DumpDate) (path : List ℕ) (i t : ℕ) {r : ℕ × ℕ}
    → NoneAt ds path i t
    → Base ds path i t r
    → Base ds path (suc i) t r
Base-suc ds path i t h (full f) =
    full (λ j lt. elim (ℕ_discrete j i) [
      | yes e ↦ rw (← e) at h
      | no ne ↦ f j (omega (arith, lt, ne))
    ])
Base-suc ds path i t h (based_on d n p m lt f) = based_on d n p m (omega arith) (λ j gt le.
    elim (ℕ_discrete j i) [ yes e ↦ rw (← e) at h | no ne ↦ f j gt (omega (arith, le, ne)) ])

find_below_lem :
    (ds : List DumpDate) (path : List ℕ) (level t : ℕ)
    → Base ds path level t (level_and_date (find_below ds path level t))
unfolding find_below
find_below_lem ds path zero t = full (λ j lt. absurd (omega arith))
find_below_lem ds path (suc i) t =
    go (find_date ds path i t) refl (find_date_lem ds path i t) (find_below_lem ds path i t)
  where
    go :
        (o : Option DumpDate)
        → find_date ds path i t ≡ o
        → FindSpec ds path i t (find_date ds path i t)
        → Base ds path i t (level_and_date (find_below ds path i t))
        → Base ds path (suc i) t (level_and_date (find_below ds path (suc i) t))
    go none e f b = rw (e, find_below) (Base-suc ds path i t (rw e at f) b)
    go (some d) e f b = rw (e, find_below) (found d (rw e at f))
      where
        found :
            (d : DumpDate)
            → FindSpec ds path i t (some d)
            → Base ds path (suc i) t (d.dd_level, d.dd_ddate)
        found d ((n, p), m) =
            let (l, q) = match-level path i t d m in
            based_on d n p q (omega (arith, l)) (λ j gt le. absurd (omega (arith, l, gt, le)))

-- For a level that is a number, the level and date that `ndmpd_get_dumptime` gives are those of a
-- record of the path that is later than the date given, of the greatest lower level that has one, or
-- 0 when no lower level has one.
pub get_dumptime_lem :
    (ds : List DumpDate) (path : List ℕ) (level t : ℕ)
    → is_lbr_bktype (level % 256) ≡ false
    → Base ds path level t (ndmpd_get_dumptime ds path level t)
unfolding ndmpd_get_dumptime
get_dumptime_lem [] path zero t h = full (λ j lt. tt)
get_dumptime_lem (d ∷ ds) path zero t h = full (λ j lt. absurd (omega arith))
get_dumptime_lem [] path (suc level) t h = rw h (full (λ j lt. tt))
get_dumptime_lem (d ∷ ds) path (suc level) t h = rw h (find_below_lem (d ∷ ds) path (suc level) t)
