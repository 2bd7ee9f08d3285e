-- ===== src/Selection/Incremental.antt =====
-- src/ndmpd_tar_v3.c and src/ndmpd_dtime.c: what an incremental backup takes.
use ndmpd.Common.{
  if-cases, ◌⊎◌, ◌↔◌, ℕ, suc, ◌+◌, ◌-◌, ◌%◌, ◌<◌, ◌≡◌, sym, ap, ◌∙◌, true, false, not, List, [],
  ◌∷◌, some, length, arith,
}
use ndmpd.DumpDates.{DumpDate, is_lbr_bktype, is_digit}
use ndmpd.DumpDates.Table.{ndmpd_get_dumptime, put_records}
use ndmpd.DumpDates.Table.Updates.{get_dumptime-put}
use ndmpd.Selection.{Object, Options, ischngd, level_of_backup, get_backup_level_v3}

small_level : (n : ℕ) → n < 10 → is_lbr_bktype (n % 256) ≡ false
small_level n h = ground arith

digit_level : (n : ℕ) → n < 10 → (is_digit (b'0' + n) ≡ true) × (b'0' + n - b'0' ≡ n)
digit_level n h = (ground arith, omega arith)

get_backup_level-digit :
    (ds : List DumpDate) (path : List ℕ) (n l t : ℕ)
    → n < 10
    → ndmpd_get_dumptime ds path n 0 ≡ (l, t)
    → get_backup_level_v3 ds path (some ((b'0' + n) ∷ [])) ≡ level_of_backup l t n
unfolding get_backup_level_v3
get_backup_level-digit ds path n l t h e =
    let (d, m) = digit_level n h in
    if-cases (λ r. r ≡ level_of_backup l t n) (not (is_digit (b'0' + n)))
      (λ x. absurd (ground (arith, d, x)))
      (λ x.
        ap
          (λ (k : ℕ).
            level_of_backup (ndmpd_get_dumptime ds path k 0).0 (ndmpd_get_dumptime ds path k 0).1 k)
          m
        ∙ ap (λ p. level_of_backup p.0 p.1 n) e)

ischngd_iff :
    (st : Object) (t : ℕ) (o : Options)
    → 0 < t
    → (ischngd st t o ≡ true) ↔ (
        ((st.is_dir ≡ true) × (o.ndmp_force_bk_dirs ≡ true))
        ⊎ ((t < st.st_mtime) ⊎ ((t < st.st_ctime) × (o.ignore_ctime ≡ false))))
unfolding ischngd
ischngd_iff st t o h = ground arith

-- After a backup of a level below 9 is recorded with its date, a request of the next level builds on
-- it, and takes just the objects that were modified or changed after that date, and the directories
-- where these are forced, changes left aside where the options say so.
pub incremental_lem :
    (path_name : ℕ) (path : List ℕ) (level ddate : ℕ) (ds : List DumpDate) (st : Object)
    (o : Options)
    → length path < path_name
    → level < 9
    → 0 < ddate
    → (get_backup_level_v3
          (put_records path_name path level ddate ds)
          path
          (some ((b'0' + (level + 1)) ∷ []))
        ≡ level_of_backup level ddate (level + 1))
      × ((ischngd st ddate o ≡ true) ↔ (
          ((st.is_dir ≡ true) × (o.ndmp_force_bk_dirs ≡ true))
          ⊎ ((ddate < st.st_mtime) ⊎ ((ddate < st.st_ctime) × (o.ignore_ctime ≡ false)))))
incremental_lem path_name path level ddate ds st o fits h d =
    let es = put_records path_name path level ddate ds in
    let s : suc level ≡ level + 1 = omega arith in
    (
      get_backup_level-digit es path (level + 1) level ddate (omega (arith, h)) (
          ap (λ (k : ℕ). ndmpd_get_dumptime es path k 0) (sym s)
          ∙ get_dumptime-put path_name path level ddate 0 ds fits d
              (small_level (suc level) (omega (arith, h)))),
      ischngd_iff st ddate o d,
    )
