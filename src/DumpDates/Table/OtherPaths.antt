-- ===== src/DumpDates/Table/OtherPaths.antt =====
-- src/ndmpd_dtime.c: a dump date that is recorded for one path leaves the others as they are.
use ndmpd.Common.{
  take_all, ℕ, zero, suc, ◌-◌, ◌%◌, ◌<◌, ◌≡◌, inl, inr, refl, sym, ap, ap₂, ◌∙◌, true, false, List,
  [], ◌∷◌, ◌++◌, if◌then◌else◌, none, some, arith, Bool-cases, length,
}
use ndmpd.DumpDates.{DumpDate, is_lbr_bktype}
use ndmpd.DumpDates.Dates.{same}
use ndmpd.DumpDates.Table.{
  is_match, find_date, find_below, level_and_date, date_or_zero, ndmpd_get_dumptime, is_entry,
  update, is_found, put_records,
}
use ndmpd.DumpDates.Table.Levels.{same_refl}
use ndmpd.DumpDates.Table.Updates.{fresh}

same-other :
    (path other nm : List ℕ) → same path other ≡ false → same path nm ≡ true → same other nm ≡ false
unfolding same
same-other [] [] nm h e = absurd (cc)
same-other [] (y ∷ other) [] h e = refl
same-other [] (y ∷ other) (z ∷ nm) h e = absurd (cc)
same-other (x ∷ path) other [] h e = absurd (cc)
same-other (x ∷ path) [] (z ∷ nm) h e = refl
same-other (x ∷ path) (y ∷ other) (z ∷ nm) h e = elim (Bool-cases (same path other)) [
  | inl q ↦ ground arith
  | inr q ↦
      let r : same other nm ≡ false = same-other path other nm q (ground arith) in ground arith
]

same_sym_false : (path other : List ℕ) → same path other ≡ false → same other path ≡ false
same_sym_false path other h = same-other path other path h (same_refl path)

find_date-update-other :
    (path other : List ℕ) (level level' ddate t : ℕ) (ds : List DumpDate)
    → same path other ≡ false
    → find_date (update path level ddate ds) other level' t ≡ find_date ds other level' t
unfolding find_date update
find_date-update-other path other level level' ddate t [] h = refl
find_date-update-other path other level level' ddate t (d ∷ ds) h =
    let rest = find_date-update-other path other level level' ddate t ds h in
    elim (Bool-cases (is_entry path level d)) [
      | inl e ↦
          let n : same other d.dd_name ≡ false = same-other path other d.dd_name h (ground arith) in
          let p : is_match other level' t (record d { dd_ddate = ddate }) ≡ false = ground arith in
          let q : is_match other level' t d ≡ false = ground arith in rw (e, p, q) rest
      | inr e ↦ rw (e, rest) refl
    ]

find_date-append-other :
    (other : List ℕ) (level t : ℕ) (e : DumpDate) (ds : List DumpDate)
    → is_match other level t e ≡ false
    → find_date (ds ++ (e ∷ [])) other level t ≡ find_date ds other level t
unfolding find_date
find_date-append-other other level t e [] h = rw h refl
find_date-append-other other level t e (d ∷ ds) h =
    ap (λ r. if is_match other level t d then some d else r)
      (find_date-append-other other level t e ds h)

find_date-put-other :
    (path_name : ℕ) (path other : List ℕ) (level level' ddate t : ℕ) (ds : List DumpDate)
    → length path < path_name
    → same path other ≡ false
    → find_date (put_records path_name path level ddate ds) other level' t
      ≡ find_date ds other level' t
unfolding put_records
find_date-put-other path_name path other level level' ddate t ds fits h =
    let kept = find_date-update-other path other level level' ddate t ds h in
    let n : same other path ≡ false = same_sym_false path other h in
    let m : is_match other level' t (fresh path level ddate) ≡ false = ground arith in
    elim (Bool-cases (is_found path level ds)) [
      | inl e ↦ rw e kept
      | inr e ↦
          rw (e, take_all (path_name - 1) path (omega (arith, fits)))
            (find_date-append-other other level' t (fresh path level ddate)
                (update path level ddate ds) m
              ∙ kept)
    ]

find_below-agree :
    (ds es : List DumpDate) (path : List ℕ) (t level : ℕ)
    → ((j : ℕ) → find_date ds path j t ≡ find_date es path j t)
    → find_below ds path level t ≡ find_below es path level t
unfolding find_below
find_below-agree ds es path t zero h = refl
find_below-agree ds es path t (suc level) h =
    ap₂ (λ o r. elim o [ none ↦ r | some d ↦ some d ]) (h level)
      (find_below-agree ds es path t level h)

-- what `ndmpd_get_dumptime` gives, without a case for the empty list
get_dumptime_uniform : List DumpDate → List ℕ → ℕ → ℕ → ℕ × ℕ
get_dumptime_uniform ds path level t =
    if is_lbr_bktype (level % 256)
    then (level, date_or_zero (find_date ds path level t))
    else level_and_date (find_below ds path level t)

find_below-empty : (path : List ℕ) (level t : ℕ) → find_below [] path level t ≡ none
unfolding find_below find_date
find_below-empty path zero t = refl
find_below-empty path (suc level) t = find_below-empty path level t

get_dumptime-uniform :
    (ds : List DumpDate) (path : List ℕ) (level t : ℕ)
    → ndmpd_get_dumptime ds path (suc level) t ≡ get_dumptime_uniform ds path (suc level) t
unfolding ndmpd_get_dumptime get_dumptime_uniform find_date
get_dumptime-uniform [] path level t = rw (find_below-empty path (suc level) t) refl
get_dumptime-uniform (d ∷ ds) path level t = refl

-- A dump date that is recorded for one path does not change what is found for another path, at any
-- level and date, when the path fits.
get_dumptime-put-other :
    (path_name : ℕ) (path other : List ℕ) (level level' ddate t : ℕ) (ds : List DumpDate)
    → length path < path_name
    → same path other ≡ false
    → ndmpd_get_dumptime (put_records path_name path level ddate ds) other level' t
      ≡ ndmpd_get_dumptime ds other level' t
unfolding ndmpd_get_dumptime get_dumptime_uniform
get_dumptime-put-other path_name path other level zero ddate t ds fits h = refl
get_dumptime-put-other path_name path other level (suc level') ddate t ds fits h =
    let es = put_records path_name path level ddate ds in
    let same_finds =
      λ (j : ℕ). find_date-put-other path_name path other level j ddate t ds fits h in
    get_dumptime-uniform es other level' t
    ∙ rw (same_finds (suc level'), find_below-agree es ds other t (suc level') same_finds) refl
    ∙ sym (get_dumptime-uniform ds other level' t)
