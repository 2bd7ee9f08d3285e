-- ===== src/DumpDates/Table/Files.antt =====
-- src/ndmpd_dtime.c: a file of dump dates that `putdumptime` wrote is read back by `readdumptimes`.
use ndmpd.Common.{
  ◌%◌, false, ℕ, zero, suc, ◌<◌, ◌≤◌, ◌≡◌, refl, ap, ◌∙◌, List, [], ◌∷◌, ◌++◌, some, arith, All,
  length, length-append,
}
use ndmpd.DumpDates.{DumpDate}
use ndmpd.DumpDates.Fields.{put_ddname, put_ddlevel, dumprecout}
use ndmpd.DumpDates.Dates.{Tm}
use ndmpd.DumpDates.Lines.{getline_ndmpd, getrecord, on_record, read_rounds, readdumptimes}
use ndmpd.DumpDates.Lines.Records.{getrecord-kept}
use ndmpd.DumpDates.Lines.Text.{IsKept}
use ndmpd.DumpDates.{is_lbr_bktype}
use ndmpd.DumpDates.Table.{write_records, put_records, putdumptime, ndmpd_get_dumptime}
use ndmpd.DumpDates.Table.Updates.{get_dumptime-put}

module _ (mktime : Tm → ℕ) (junk : List ℕ) (bufsiz path_name : ℕ) where
  read_rounds-write :
      (ctime : ℕ → List ℕ) (n : ℕ) (ds : List DumpDate)
      → length ds < n
      → All (λ d. IsKept mktime ctime bufsiz path_name d) ds
      → read_rounds mktime junk bufsiz path_name n (write_records ctime ds) ≡ some ds
  unfolding read_rounds write_records getrecord getline_ndmpd
  read_rounds-write ctime zero ds lt h = absurd (omega arith)
  read_rounds-write ctime (suc n) [] lt h = refl
  read_rounds-write ctime (suc n) (d ∷ ds) lt (k, h) =
      let file : List ℕ = dumprecout ctime d ++ write_records ctime ds in
      let rest = read_rounds-write ctime n ds (omega arith) h in
      ap
        (λ r. on_record mktime junk bufsiz path_name (read_rounds mktime junk bufsiz path_name n) r)
        (getrecord-kept mktime junk bufsiz path_name ctime (length file) d (write_records ctime ds)
          k)
      ∙ rw (on_record, rest) refl

length-write :
    (ctime : ℕ → List ℕ) (ds : List DumpDate) → length ds ≤ length (write_records ctime ds)
unfolding write_records dumprecout
length-write ctime [] = omega arith
length-write ctime (d ∷ ds) = omega (
  arith,
  length-write ctime ds,
  length-append (dumprecout ctime d) (write_records ctime ds),
  length-append (put_ddname d.dd_name)
      (b'\t' ∷ (put_ddlevel d.dd_level ++ (b'\t' ∷ ctime d.dd_ddate))),
)

-- The records that a file can keep are read back from the file that is written for them: those with
-- a name that is not empty, has no newline, does not begin with `#` and does not end in a backslash,
-- with a level below 128 (a letter as a capital) and a date of four-digit year, when the line and the
-- name fit.
pub readdumptimes-write_records :
    (mktime : Tm → ℕ) (ctime : ℕ → List ℕ) (junk : List ℕ) (bufsiz path_name : ℕ)
    (ds : List DumpDate)
    → All (λ d. IsKept mktime ctime bufsiz path_name d) ds
    → readdumptimes mktime junk bufsiz path_name (write_records ctime ds) ≡ some ds
unfolding readdumptimes
readdumptimes-write_records mktime ctime junk bufsiz path_name ds h =
    read_rounds-write mktime junk bufsiz path_name ctime (suc (length (write_records ctime ds))) ds
      (omega (arith, length-write ctime ds)) h

-- A dump date recorded in a file that was written before: the new file is written, it is read back,
-- and the next level of the path is based on the level and date recorded, for an earlier date asked
-- for. The old records and the new ones are such as a line can keep, that is with a name that does not
-- begin with #, can be written and fits, a level that fits, a date whose text has a four-digit year,
-- and a line that fits; and the next level is a number and not one of the special types.
pub putdumptime-get_dumptime :
    (mktime : Tm → ℕ) (ctime : ℕ → List ℕ) (junk : List ℕ) (bufsiz path_name : ℕ) (path : List ℕ)
    (level ddate t : ℕ) (ds : List DumpDate)
    → All (λ d. IsKept mktime ctime bufsiz path_name d) ds
    → All (λ d. IsKept mktime ctime bufsiz path_name d) (put_records path_name path level ddate ds)
    → length path < path_name
    → t < ddate
    → is_lbr_bktype (suc level % 256) ≡ false
    → let es = put_records path_name path level ddate ds in
      (putdumptime mktime ctime junk bufsiz path_name path level ddate (write_records ctime ds)
        ≡ some (write_records ctime es))
      × ((readdumptimes mktime junk bufsiz path_name (write_records ctime es) ≡ some es)
          × (ndmpd_get_dumptime es path (suc level) t ≡ (level, ddate)))
unfolding putdumptime
putdumptime-get_dumptime mktime ctime junk bufsiz path_name path level ddate t ds h k fits lt n = (
  rw (putdumptime, readdumptimes-write_records mktime ctime junk bufsiz path_name ds h) refl,
  (
    readdumptimes-write_records mktime ctime junk bufsiz path_name
        (put_records path_name path level ddate ds) k,
    get_dumptime-put path_name path level ddate t ds fits lt n,
  ),
)
