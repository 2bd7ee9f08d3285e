-- ===== src/DumpDates/Table/Updates.antt =====
-- src/ndmpd_dtime.c: a dump date that `putdumptime` records is the one `ndmpd_get_dumptime` finds.
use ndmpd.Common.{
  take_all, ℕ, suc, ◌-◌, ◌%◌, ◌<◌, ◌≡◌, inl, inr, refl, true, false, List, [], ◌∷◌, ◌++◌, ==_refl,
  Option, none, some, arith, Bool-cases, length,
}
use ndmpd.DumpDates.{DumpDate, is_lbr_bktype}
use ndmpd.DumpDates.Table.{
  is_match, find_date, find_below, level_and_date, ndmpd_get_dumptime, is_entry, update, is_found,
  put_records,
}
use ndmpd.DumpDates.Table.Levels.{same_refl}

-- the search gives a record with the level and the date
abbrev Finds : Option DumpDate → ℕ → ℕ → Type 0
Finds none level ddate = ⊥
Finds (some d) level ddate = (d.dd_level ≡ level) × (d.dd_ddate ≡ ddate)

abbrev pub fresh : List ℕ → ℕ → ℕ → DumpDate
fresh path level ddate = record { dd_name = path; dd_level = level; dd_ddate = ddate }

entry_match :
    (path : List ℕ) (level ddate t : ℕ) (d : DumpDate)
    → t < ddate
    → is_entry path level d ≡ true
    → (is_match path level t (record d { dd_ddate = ddate }) ≡ true) × (d.dd_level ≡ level)
entry_match path level ddate t d lt e = ground arith

find_date-update :
    (path : List ℕ) (level ddate t : ℕ) (ds : List DumpDate)
    → t < ddate
    → is_found path level ds ≡ true
    → Finds (find_date (update path level ddate ds) path level t) level ddate
unfolding find_date update is_found
find_date-update path level ddate t [] lt h = absurd (cc)
find_date-update path level ddate t (d ∷ ds) lt h = elim (Bool-cases (is_entry path level d)) [
  | inl e ↦ let (m, l) = entry_match path level ddate t d lt e in rw (e, find_date) (rw m (l, refl))
  | inr e ↦
      let m : is_match path level t d ≡ false = ground arith in
      rw (e, find_date) (rw m (find_date-update path level ddate t ds lt (rw e at h)))
]

find_date-append :
    (path : List ℕ) (level ddate t : ℕ) (ds : List DumpDate)
    → t < ddate
    → is_found path level ds ≡ false
    → find_date (update path level ddate ds ++ (fresh path level ddate ∷ [])) path level t
      ≡ some (fresh path level ddate)
unfolding find_date update is_found
find_date-append path level ddate t [] lt h =
    let m : is_match path level t (fresh path level ddate) ≡ true =
      ground (arith, same_refl path, ==_refl level) in
    rw m refl
find_date-append path level ddate t (d ∷ ds) lt h = elim (Bool-cases (is_entry path level d)) [
  | inl e ↦ absurd (cc)
  | inr e ↦
      let m : is_match path level t d ≡ false = ground arith in
      rw (e, find_date) (rw m (find_date-append path level ddate t ds lt (rw e at h)))
]

find_date-put :
    (path_name : ℕ) (path : List ℕ) (level ddate t : ℕ) (ds : List DumpDate)
    → length path < path_name
    → t < ddate
    → Finds (find_date (put_records path_name path level ddate ds) path level t) level ddate
unfolding put_records
find_date-put path_name path level ddate t ds fits lt = elim (Bool-cases (is_found path level ds)) [
  | inl e ↦ rw e (find_date-update path level ddate t ds lt e)
  | inr e ↦
      rw
        (
          e,
          take_all (path_name - 1) path (omega (arith, fits)),
          find_date-append path level ddate t ds lt e,
        )
        (refl, refl)
]

find_below-Finds :
    (ds : List DumpDate) (path : List ℕ) (level ddate t : ℕ)
    → Finds (find_date ds path level t) level ddate
    → level_and_date (find_below ds path (suc level) t) ≡ (level, ddate)
unfolding find_below
find_below-Finds ds path level ddate t f = go (find_date ds path level t) refl f
  where
    go :
        (o : Option DumpDate)
        → find_date ds path level t ≡ o
        → Finds o level ddate
        → level_and_date (find_below ds path (suc level) t) ≡ (level, ddate)
    go none e f = absurd f
    go (some d) e (l, p) = rw (e, find_below) (λ i. (l i, p i))

get_dumptime-Finds :
    (ds : List DumpDate) (path : List ℕ) (level ddate t : ℕ)
    → is_lbr_bktype (suc level % 256) ≡ false
    → Finds (find_date ds path level t) level ddate
    → ndmpd_get_dumptime ds path (suc level) t ≡ (level, ddate)
unfolding ndmpd_get_dumptime find_date
get_dumptime-Finds [] path level ddate t h f = absurd f
get_dumptime-Finds (d ∷ ds) path level ddate t h f =
    rw h (find_below-Finds (d ∷ ds) path level ddate t f)

-- After a dump date is recorded for a path and a level, the next level of the path is based on that
-- level and date, when the date asked for is earlier, the path fits and the next level is a number.
pub get_dumptime-put :
    (path_name : ℕ) (path : List ℕ) (level ddate t : ℕ) (ds : List DumpDate)
    → length path < path_name
    → t < ddate
    → is_lbr_bktype (suc level % 256) ≡ false
    → ndmpd_get_dumptime (put_records path_name path level ddate ds) path (suc level) t
      ≡ (level, ddate)
get_dumptime-put path_name path level ddate t ds fits lt h =
    get_dumptime-Finds (put_records path_name path level ddate ds) path level ddate t h
      (find_date-put path_name path level ddate t ds fits lt)
