-- ===== src/Selection/Tests.antt =====
-- src/ndmpd_tar_v3.c on concrete variables.
use ndmpd.Common.{
  ◌==◌, if◌then◌else◌, ℕ, ◌+◌, ◌<◌, ◌≡◌, ◌≢◌, ◌↔◌, ◌⊎◌, refl, true, false, [], ◌∷◌, List, Option,
  none, some, arith,
}
use ndmpd.Common.Bytes.{codes}
use ndmpd.DumpDates.Dates.{skip_spaces}
use ndmpd.DumpDates.Table.{put_records}
use ndmpd.Selection.{
  words, outside, split_env, split_words, count_seps, slots, checked, Object, Options, ischngd,
  level_of_backup, get_backup_level_v3,
}
use ndmpd.Selection.Words.{tame, split_env-inside}
use ndmpd.Selection.Joined.{joined, escaped_word, escaped, split_env-joined}
use ndmpd.Selection.Excludes.{
  count_set, exclude_entries, any_too_long, get_exc_env_v3, get_exc_env-outside_iff,
}
use ndmpd.Selection.Incremental.{incremental_lem}

two_patterns : split_env b',' (codes " *.o,core") ≡ words (codes "*.o" ∷ codes "core" ∷ [])
unfolding split_env skip_spaces split_words count_seps slots checked
two_patterns = refl

-- two words where only one is counted: the null pointer is written behind the memory
escaped_backslash : split_env b',' (b'a' ∷ b'\\' ∷ b'\\' ∷ b',' ∷ b'b' ∷ []) ≡ outside
unfolding split_env skip_spaces split_words count_seps slots checked
escaped_backslash = refl

-- the end of the text is taken for an escaped character
backslash_at_end : split_env b',' (b'a' ∷ b'\\' ∷ []) ≡ outside
unfolding split_env skip_spaces split_words count_seps slots checked
backslash_at_end = refl

patterns_tame : tame false (skip_spaces (codes " *.o,core")) ≡ true
unfolding skip_spaces
patterns_tame = refl

split_env-inside_example : split_env b',' (codes " *.o,core") ≢ outside
split_env-inside_example =
    split_env-inside b',' (codes " *.o,core") (λ q. omega (arith, q)) patterns_tame

patterns_joined :
    skip_spaces (joined b',' (codes "a,b" ∷ codes "core" ∷ []))
    ≡ joined b',' (codes "a,b" ∷ codes "core" ∷ [])
unfolding skip_spaces joined escaped_word escaped
patterns_joined = refl

split_env-joined_example :
    split_env b',' (joined b',' (codes "a,b" ∷ codes "core" ∷ []))
    ≡ words (codes "a,b" ∷ codes "core" ∷ [])
split_env-joined_example =
    split_env-joined b',' (codes "a,b") (codes "core" ∷ [])
      (
        (λ q. omega (arith, q)),
        (λ q. omega (arith, q)),
        (λ q. omega (arith, q)),
        (λ q. omega (arith, q)),
        (λ q. omega (arith, q)),
      )
      (refl, (refl, tt)) ((refl, (refl, (refl, tt))), ((refl, (refl, (refl, (refl, tt)))), tt))
      patterns_joined

abbrev changed : Object
changed = record { is_dir = false; st_mtime = 30; st_ctime = 50 }

abbrev plain : Options
plain = record { ndmp_force_bk_dirs = true; ignore_ctime = false }

incremental_lem_example :
    (get_backup_level_v3
        (put_records 1024 (codes "/home") 0 40 [])
        (codes "/home")
        (some ((b'0' + (0 + 1)) ∷ []))
      ≡ level_of_backup 0 40 (0 + 1))
    × ((ischngd changed 40 plain ≡ true) ↔ (
        ((changed.is_dir ≡ true) × (plain.ndmp_force_bk_dirs ≡ true))
        ⊎ ((40 < changed.st_mtime) ⊎ ((40 < changed.st_ctime) × (plain.ignore_ctime ≡ false)))))
incremental_lem_example =
    incremental_lem 1024 (codes "/home") 0 40 [] changed plain (omega arith) (omega arith)
      (omega arith)

-- EMC_EFILE01 is set, and no variable for a directory
abbrev one_file : ℕ → Option (List ℕ)
one_file i = if i == 1 then some (codes "*.o") else none

abbrev no_dirs : ℕ → Option (List ℕ)
no_dirs i = none

one_file_fits : any_too_long one_file 99 ≡ false
unfolding any_too_long
one_file_fits = refl

one_file_outside : get_exc_env_v3 one_file no_dirs ≡ none
unfolding get_exc_env_v3 count_set any_too_long exclude_entries
one_file_outside = refl

get_exc_env-outside_iff_example :
    (get_exc_env_v3 one_file no_dirs ≡ none) ↔ (count_set no_dirs 99 < count_set one_file 99)
get_exc_env-outside_iff_example = get_exc_env-outside_iff one_file no_dirs one_file_fits
