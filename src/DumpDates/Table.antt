-- ===== src/DumpDates/Table.antt =====
-- src/ndmpd_dtime.c: the records in memory, looked up by `ndmpd_get_dumptime` and changed by
-- `ndmpd_put_dumptime`.
pub mod Levels
pub mod OtherPaths
pub mod Updates
pub mod Files
use ndmpd.Common.{
  ℕ, zero, suc, ◌+◌, ◌-◌, ◌%◌, Bool, true, false, ◌&&◌, ◌||◌, not, List, [], ◌∷◌, ◌++◌, ltb, ◌==◌,
  if◌then◌else◌, Option, none, some, map, take,
}
use ndmpd.DumpDates.{DumpDate, is_lbr_bktype}
use ndmpd.DumpDates.Fields.{dumprecout}
use ndmpd.DumpDates.Dates.{Tm, same}
use ndmpd.DumpDates.Lines.{readdumptimes}

-- the test of `find_date`
abbrev pub is_match : List ℕ → ℕ → ℕ → DumpDate → Bool
is_match path level t d = d.dd_level == level && (ltb t d.dd_ddate && same path d.dd_name)

unfoldable pub find_date : List DumpDate → List ℕ → ℕ → ℕ → Option DumpDate
find_date [] path level t = none
find_date (d ∷ ds) path level t =
    let rest = find_date ds path level t in if is_match path level t d then some d else rest

-- the loop over the lower levels, from the one below `level` down
unfoldable pub find_below : List DumpDate → List ℕ → ℕ → ℕ → Option DumpDate
unfolding find_date
find_below ds path zero t = none
find_below ds path (suc i) t = elim (find_date ds path i t) [
  | none ↦ find_below ds path i t
  | some d ↦ some d
]

abbrev pub date_or_zero : Option DumpDate → ℕ
date_or_zero none = 0
date_or_zero (some d) = d.dd_ddate

abbrev pub level_and_date : Option DumpDate → ℕ × ℕ
level_and_date none = (0, 0)
level_and_date (some d) = (d.dd_level, d.dd_ddate)

-- the level and the date that `ndmpd_get_dumptime` stores, given the records of the file
unfoldable pub ndmpd_get_dumptime : List DumpDate → List ℕ → ℕ → ℕ → ℕ × ℕ
unfolding find_below find_date
ndmpd_get_dumptime ds path zero t = (0, 0)
ndmpd_get_dumptime [] path (suc level) t =
    if is_lbr_bktype (suc level % 256) then (suc level, 0) else (0, 0)
ndmpd_get_dumptime (d ∷ ds) path (suc level) t =
    if is_lbr_bktype (suc level % 256)
    then (suc level, date_or_zero (find_date (d ∷ ds) path (suc level) t))
    else level_and_date (find_below (d ∷ ds) path (suc level) t)

-- the first loop of `putdumptime`: the records with the path and level get the date
abbrev pub is_entry : List ℕ → ℕ → DumpDate → Bool
is_entry path level d = d.dd_level == level && same path d.dd_name

unfoldable pub update : List ℕ → ℕ → ℕ → List DumpDate → List DumpDate
update path level ddate [] = []
update path level ddate (d ∷ ds) =
    let rest = update path level ddate ds in
    if is_entry path level d then record d { dd_ddate = ddate } ∷ rest else d ∷ rest

unfoldable pub is_found : List ℕ → ℕ → List DumpDate → Bool
is_found path level [] = false
is_found path level (d ∷ ds) = is_entry path level d || is_found path level ds

-- the records that `putdumptime` writes; the new name is cut to the size of `dd_name`
unfoldable pub put_records : ℕ → List ℕ → ℕ → ℕ → List DumpDate → List DumpDate
unfolding update is_found
put_records path_name path level ddate ds =
    if is_found path level ds
    then update path level ddate ds
    else update path level ddate ds
      ++ (record { dd_name = take (path_name - 1) path; dd_level = level; dd_ddate = ddate } ∷ [])

unfoldable pub write_records : (ℕ → List ℕ) → List DumpDate → List ℕ
unfolding dumprecout
write_records ctime [] = []
write_records ctime (d ∷ ds) = dumprecout ctime d ++ write_records ctime ds

module _ (mktime : Tm → ℕ) (ctime : ℕ → List ℕ) (junk : List ℕ) (bufsiz path_name : ℕ) where
  -- The text of the file after `putdumptime`, when the files can be opened
  unfoldable pub putdumptime : List ℕ → ℕ → ℕ → List ℕ → Option (List ℕ)
  unfolding put_records write_records readdumptimes
  putdumptime path level ddate file = elim (readdumptimes mktime junk bufsiz path_name file) [
    | none ↦ none
    | some ds ↦ some (write_records ctime (put_records path_name path level ddate ds))
  ]
