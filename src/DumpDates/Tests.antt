-- ===== src/DumpDates/Tests.antt =====
-- src/ndmpd_dtime.c on concrete records. The calendar of the tests has one minute only.
use ndmpd.Common.{ℕ, ◌<◌, ◌≡◌, refl, false, [], ◌∷◌, ◌++◌, List, some, arith, All}
use ndmpd.Common.Bytes.{codes}
use ndmpd.DumpDates.{DumpDate}
use ndmpd.DumpDates.Fields.{put_ddname, put_ddlevel, decimal, dumprecout}
use ndmpd.DumpDates.Dates.{Tm, same, unctime}
use ndmpd.DumpDates.Dates.Asctime.{Civil, IsCivil, asctime, tm_of_civil, unctime-asctime}
use ndmpd.DumpDates.Lines.{readdumptimes}
use ndmpd.DumpDates.Lines.Text.{IsDate, IsKept}
use ndmpd.DumpDates.Table.{
  ndmpd_get_dumptime, find_below, find_date, put_records, update, is_found, write_records,
  putdumptime,
}
use ndmpd.DumpDates.Table.Levels.{Base, get_dumptime_lem}
use ndmpd.DumpDates.Table.Files.{readdumptimes-write_records, putdumptime-get_dumptime}

abbrev civil_of : ℕ → Civil
civil_of t = record { month = 10; day = 5; hour = 6; minute = 30; second = t; year = 2020 }

abbrev test_ctime : ℕ → List ℕ
unfolding asctime
test_ctime t = asctime b'T' b'h' b'u' (civil_of t) ++ (b'\n' ∷ [])

abbrev test_mktime : Tm → ℕ
test_mktime tm = tm.tm_sec.1

civil_of-IsCivil : (t : ℕ) → t < 60 → IsCivil (civil_of t)
civil_of-IsCivil t h = record {
  month_lt = omega arith;
  day_lt = omega arith;
  hour_lt = omega arith;
  minute_lt = omega arith;
  second_lt = omega (arith, h);
  year_lt = omega arith;
  year_ge = omega arith;
}

test-IsDate : (t : ℕ) → t < 60 → IsDate test_mktime test_ctime t
unfolding asctime test_ctime
test-IsDate t h = record {
  day_name = (b'T', (b'h', b'u'));
  civil = civil_of t;
  first_letter = (omega arith, omega arith);
  second_letter = (omega arith, omega arith);
  third_letter = (omega arith, omega arith);
  civil_valid = civil_of-IsCivil t h;
  text_of = refl;
  time_of = refl;
}

abbrev home : List ℕ
home = codes "/my home"

abbrev home_dump : DumpDate
home_dump = record { dd_name = home; dd_level = 0; dd_ddate = 20 }

abbrev home_update : DumpDate
home_update = record { dd_name = home; dd_level = 12; dd_ddate = 40 }

home_dump-IsKept : IsKept test_mktime test_ctime 1024 1024 home_dump
unfolding dumprecout put_ddname put_ddlevel decimal asctime test_ctime
home_dump-IsKept = record {
  named = λ q. omega (arith, q);
  writable = (
    λ q. omega (arith, q),
    (
      λ q. omega (arith, q),
      (
        λ q. omega (arith, q),
        (
          λ q. omega (arith, q),
          (
            λ q. omega (arith, q),
            (
              λ q. omega (arith, q),
              (λ q. omega (arith, q), (λ q. omega (arith, q), λ q. omega (arith, q))),
            ),
          ),
        ),
      ),
    ),
  );
  level_valid = (omega arith, λ q. refl);
  date_valid = test-IsDate 20 (omega arith);
  name_fits = omega arith;
  line_fits = omega arith;
}

home_update-IsKept : IsKept test_mktime test_ctime 1024 1024 home_update
unfolding dumprecout put_ddname put_ddlevel decimal asctime test_ctime
home_update-IsKept = record {
  named = λ q. omega (arith, q);
  writable = (
    λ q. omega (arith, q),
    (
      λ q. omega (arith, q),
      (
        λ q. omega (arith, q),
        (
          λ q. omega (arith, q),
          (
            λ q. omega (arith, q),
            (
              λ q. omega (arith, q),
              (λ q. omega (arith, q), (λ q. omega (arith, q), λ q. omega (arith, q))),
            ),
          ),
        ),
      ),
    ),
  );
  level_valid = (omega arith, λ q. refl);
  date_valid = test-IsDate 40 (omega arith);
  name_fits = omega arith;
  line_fits = omega arith;
}

home_level : ndmpd_get_dumptime (home_dump ∷ home_update ∷ []) home 13 10 ≡ (12, 40)
unfolding ndmpd_get_dumptime find_below find_date same
home_level = refl

-- a record is not found for a date that is later
home_later : ndmpd_get_dumptime (home_dump ∷ home_update ∷ []) home 13 50 ≡ (0, 0)
unfolding ndmpd_get_dumptime find_below find_date same
home_later = refl

unctime-asctime_example :
    unctime test_mktime [] (asctime b'T' b'h' b'u' (civil_of 7))
    ≡ some (test_mktime (tm_of_civil (civil_of 7)))
unctime-asctime_example =
    unctime-asctime test_mktime [] b'T' b'h' b'u' (civil_of 7) (civil_of-IsCivil 7 (omega arith))

get_dumptime_lem_example :
    Base
      (home_dump ∷ home_update ∷ [])
      home
      13
      10
      (ndmpd_get_dumptime (home_dump ∷ home_update ∷ []) home 13 10)
get_dumptime_lem_example = get_dumptime_lem (home_dump ∷ home_update ∷ []) home 13 10 refl

not_home : same home (codes "/var") ≡ false
unfolding same
not_home = refl

readdumptimes-write_records_example :
    readdumptimes test_mktime [] 1024 1024 (write_records test_ctime (home_dump ∷ home_update ∷ []))
    ≡ some (home_dump ∷ home_update ∷ [])
readdumptimes-write_records_example =
    readdumptimes-write_records test_mktime test_ctime [] 1024 1024 (home_dump ∷ home_update ∷ [])
      (home_dump-IsKept, (home_update-IsKept, tt))

home_records : put_records 1024 home 12 40 (home_dump ∷ []) ≡ home_dump ∷ home_update ∷ []
unfolding put_records update is_found same
home_records = refl

home_records-IsKept :
    All
      (λ d. IsKept test_mktime test_ctime 1024 1024 d)
      (put_records 1024 home 12 40 (home_dump ∷ []))
home_records-IsKept = rw home_records (home_dump-IsKept, (home_update-IsKept, tt))

putdumptime-get_dumptime_example :
    let es = put_records 1024 home 12 40 (home_dump ∷ []) in
    (putdumptime test_mktime test_ctime [] 1024 1024 home 12 40
        (write_records test_ctime (home_dump ∷ []))
      ≡ some (write_records test_ctime es))
    × ((readdumptimes test_mktime [] 1024 1024 (write_records test_ctime es) ≡ some es)
        × (ndmpd_get_dumptime es home 13 10 ≡ (12, 40)))
putdumptime-get_dumptime_example =
    putdumptime-get_dumptime test_mktime test_ctime [] 1024 1024 home 12 40 10 (home_dump ∷ [])
      (home_dump-IsKept, tt) home_records-IsKept (omega arith) (omega arith) refl
