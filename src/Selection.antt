-- ===== src/Selection.antt =====
-- src/ndmpd_tar_v3.c: which objects a backup takes, by the environment variables of its request.
pub mod Excludes
pub mod Restore
pub mod Words
pub mod Joined
pub mod Incremental
mod Tests
use ndmpd.Common.{
  ℕ, zero, suc, ◌+◌, ◌-◌, ◌%◌, Bool, true, false, ◌&&◌, ◌||◌, not, List, [], ◌∷◌, ◌++◌, leb, ltb,
  ◌==◌, if◌then◌else◌, Option, none, some, length,
}
use ndmpd.Names.{match, tlm_is_excluded}
use ndmpd.DumpDates.{DumpDate, is_digit}
use ndmpd.DumpDates.Dates.{is_space, skip_spaces}
use ndmpd.DumpDates.Table.{ndmpd_get_dumptime}

-- ## lists of patterns

abbrev pub is_cons {ℓ} : {A : Type ℓ} → List A → Bool
is_cons [] = false
is_cons (x ∷ xs) = true

-- the character that a backslash and this one stand for
abbrev pub unescaped : ℕ → ℕ
unescaped c = if c == b'n' then b'\n' else if c == b't' then b'\t' else c

abbrev pub add_word : List ℕ → List (List ℕ) → List (List ℕ)
add_word [] ws = ws
add_word (c ∷ w) ws = (c ∷ w) ∷ ws

-- The second loop of `split_env`, with a flag behind a backslash and the current word: the words, and
-- whether the last one ends with the text. `none` is a read behind the text, of one that ends in a
-- backslash.
unfoldable pub split_words : ℕ → Bool → List ℕ → List ℕ → Option (List (List ℕ) × Bool)
split_words sep true acc [] = none
split_words sep true acc (c ∷ s) = split_words sep false (acc ++ (unescaped c ∷ [])) s
split_words sep false acc [] = some (add_word acc [], is_cons acc)
split_words sep false acc (c ∷ s) = elim (c == sep) [
  | true ↦ elim (split_words sep false [] s) [ none ↦ none | some r ↦ some (add_word acc r.0, r.1) ]
  | false ↦ elim (c == b'\\') [
    | true ↦ split_words sep true acc s
    | false ↦ split_words sep false (acc ++ (c ∷ [])) s
  ]
]

-- The first loop: the separators that have a character before them that is no backslash
unfoldable pub count_seps : ℕ → ℕ → List ℕ → ℕ
count_seps sep before [] = 0
count_seps sep before (c ∷ s) =
    let rest = count_seps sep c s in if c == sep && not (before == b'\\') then rest + 1 else rest

-- the pointers that are allocated
unfoldable pub slots : ℕ → List ℕ → ℕ
unfolding count_seps
slots sep [] = 2
slots sep (c ∷ s) = count_seps sep c s + 2

-- What `split_env` gives: a null pointer, the words, or an access outside its memory
pub data Split : Type 0 where
  no_words : Split
  words : List (List ℕ) → Split
  outside : Split

-- the pointers written: one for each word, and a null pointer behind a word that ends the text
abbrev pub written : List (List ℕ) × Bool → ℕ
written (ws, true) = length ws + 1
written (ws, false) = length ws

abbrev pub some_words : List (List ℕ) → Split
some_words [] = no_words
some_words (w ∷ ws) = words (w ∷ ws)

unfoldable pub checked : ℕ → Option (List (List ℕ) × Bool) → Split
checked n none = outside
checked n (some r) = if ltb n (written r) then outside else some_words r.0

unfoldable pub split_env : ℕ → List ℕ → Split
unfolding checked slots split_words skip_spaces
split_env sep envp =
    let s = skip_spaces envp in
    if is_cons s then checked (slots sep s) (split_words sep false [] s) else no_words

abbrev pub skip_dot_slash : List ℕ → List ℕ
skip_dot_slash [] = []
skip_dot_slash (c ∷ []) = c ∷ []
skip_dot_slash (c ∷ d ∷ p) = if c == b'.' && d == b'/' then p else c ∷ d ∷ p

unfoldable pub inlist : List (List ℕ) → List ℕ → Bool
inlist [] ent = false
inlist (p ∷ ps) ent = match (skip_dot_slash p) ent || inlist ps ent

-- `none` is a null pointer
unfoldable pub ininc : Option (List (List ℕ)) → List ℕ → Bool
unfolding inlist
ininc none ent = true
ininc (some ps) [] = true
ininc (some ps) (c ∷ ent) = inlist ps (c ∷ ent)

-- The result of `shouldskip`, for an object in a directory, with the patterns to leave out and to take
unfoldable pub shouldskip :
    Option (List (List ℕ)) → Option (List (List ℕ)) → List ℕ → List ℕ → Bool → Bool
unfolding ininc
shouldskip exl inc dir ent is_dir =
    if tlm_is_excluded (some dir) (some ent) exl then true else not is_dir && not (ininc inc ent)

-- ## levels

-- the times of an object and whether it is a directory
pub record Object : Type 0 where
  pub is_dir : Bool
  pub st_mtime : ℕ
  pub st_ctime : ℕ

-- the options that `ischngd` looks at
pub record Options : Type 0 where
  pub ndmp_force_bk_dirs : Bool
  pub ignore_ctime : Bool

unfoldable pub ischngd : Object → ℕ → Options → Bool
ischngd st t o =
    if t == 0
    then true
    else if st.is_dir && o.ndmp_force_bk_dirs
    then true
    else if ltb t st.st_mtime
    then true
    else if ltb t st.st_ctime
    then not o.ignore_ctime
    else false

-- the level and the date of the backup to build on, and the level of this one
pub data BackupLevel : Type 0 where
  level_of_backup : ℕ → ℕ → ℕ → BackupLevel
  illegal_args : BackupLevel

-- `get_backup_level_v3`, given the variable LEVEL and the records of the file of dump dates, without
-- the variables for the update of the file, which it reads then
unfoldable pub get_backup_level_v3 : List DumpDate → List ℕ → Option (List ℕ) → BackupLevel
unfolding ndmpd_get_dumptime
get_backup_level_v3 ds path none = level_of_backup 0 0 0
get_backup_level_v3 ds path (some []) = illegal_args
get_backup_level_v3 ds path (some (c ∷ d ∷ s)) = illegal_args
get_backup_level_v3 ds path (some (c ∷ [])) =
    if not (is_digit c)
    then illegal_args
    else (let (l, t) = ndmpd_get_dumptime ds path (c - b'0') 0 in level_of_backup l t (c - b'0'))
