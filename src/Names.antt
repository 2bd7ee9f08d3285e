-- ===== src/Names.antt =====
-- tlm/tlm_util.c, tlm/tlm_lib.c and src/ndmpd_util.c: patterns and path names. A C string is the
-- list of its bytes before the NUL; a null pointer is `none`.
pub mod Match
pub mod Paths
mod Tests
use ndmpd.Common.{
  ℕ, zero, suc, ◌+◌, ◌-◌, Bool, true, false, ◌&&◌, ◌||◌, not, List, [], ◌∷◌, ◌++◌, leb, ltb, ◌==◌,
  if◌then◌else◌, length, take, drop, Option, none, some, get_or,
}

abbrev pub is_nil {ℓ} : {A : Type ℓ} → List A → Bool
is_nil [] = true
is_nil (x ∷ xs) = false

-- the cases of the `switch` in `match`, with `rest` for the pattern behind the character `c`
any_char : (List ℕ → Bool) → List ℕ → Bool
any_char rest [] = false
any_char rest (x ∷ str) = rest str

-- `while (*str)`: the rest of the pattern is tried where a character is left
star : (List ℕ → Bool) → List ℕ → Bool
star rest [] = false
star rest (x ∷ str) = rest (x ∷ str) || star rest str

one_char : (List ℕ → Bool) → ℕ → List ℕ → Bool
one_char rest c [] = false
one_char rest c (x ∷ str) = if x == c then rest str else false

match_from : (List ℕ → Bool) → Bool → ℕ → List ℕ → Bool
unfolding any_char star one_char
match_from rest last c str =
    if c == b'?'
    then any_char rest str
    else if c == b'*'
    then (if last then true else star rest str)
    else one_char rest c str

pub match : List ℕ → List ℕ → Bool
match [] str = is_nil str
match (c ∷ patn) str = match_from (match patn) (is_nil patn) c str

abbrev names_directory : List ℕ → Bool
names_directory (a ∷ b ∷ e) = a == b'd' && b == b'_'
names_directory e = false

-- `excles[i] + 2` skips the mark of the entry.
pub excluded_by : List ℕ → List ℕ → List (List ℕ) → Bool
excluded_by dir name [] = false
excluded_by dir name (e ∷ excles) =
    match (drop 2 e) (if names_directory e then dir else name) || excluded_by dir name excles

pub tlm_is_excluded : Option (List ℕ) → Option (List ℕ) → Option (List (List ℕ)) → Bool
unfolding excluded_by
tlm_is_excluded (some dir) (some name) (some excles) = excluded_by dir name excles
tlm_is_excluded _ _ _ = false

abbrev pub starts_with_slash : List ℕ → Bool
starts_with_slash [] = false
starts_with_slash (c ∷ s) = c == b'/'

abbrev pub ends_with_slash : List ℕ → Bool
ends_with_slash [] = false
ends_with_slash (c ∷ []) = c == b'/'
ends_with_slash (c ∷ d ∷ s) = ends_with_slash (d ∷ s)

-- `name += strspn(name, "/")`
pub skip_slashes : List ℕ → List ℕ
skip_slashes [] = []
skip_slashes (c ∷ s) = if c == b'/' then skip_slashes s else c ∷ s

-- What `snprintf` keeps of a text in a buffer of `size` bytes
abbrev pub truncate : ℕ → List ℕ → List ℕ
truncate size s = take (size - 1) s

-- `none` is the result FALSE, at which `buf` is not written. PATH_MAX, a constant of the system, is
-- a parameter; TLM_MAX_PATH_NAME is 64 bytes more.
module _ (path_max : ℕ) where
  pub tlm_cat_path : List ℕ → List ℕ → Option (List ℕ)
  unfolding skip_slashes
  tlm_cat_path dir name =
      if leb path_max (length dir + length name + 1)
      then none
      else let joined =
          is_nil dir || is_nil name || ends_with_slash dir || starts_with_slash name in
        let name' =
          if ends_with_slash dir && starts_with_slash name then skip_slashes name else name in
        some (truncate (path_max + 64) (if joined then dir ++ name' else dir ++ (b'/' ∷ name')))

-- `while (*nm)`, with the next two characters looked at
pub trim_name : List ℕ → List ℕ
trim_name [] = []
trim_name (a ∷ []) = if a == b'/' then [] else a ∷ []
trim_name (a ∷ b ∷ []) = let rest = trim_name (b ∷ []) in if a == b'/' then rest else a ∷ b ∷ []
trim_name (a ∷ b ∷ c ∷ nm) =
    let rest = trim_name (b ∷ c ∷ nm) in
    let far = trim_name (c ∷ nm) in
    if a == b'/' then rest else if a == b'.' && b == b'/' then far else a ∷ b ∷ c ∷ nm

-- `if (*p == '/') p++`
skip_slash : List ℕ → List ℕ
skip_slash [] = []
skip_slash (c ∷ s) = if c == b'/' then s else c ∷ s

-- The loop: what is left of the path when all of the base has matched
past_base : List ℕ → List ℕ → Option (List ℕ)
past_base [] p = some p
past_base (b ∷ base) [] = none
past_base (b ∷ base) (c ∷ p) = if b == c then past_base base p else none

pub ndmp_get_relative_path : Option (List ℕ) → List ℕ → List ℕ
unfolding skip_slash past_base
ndmp_get_relative_path none full = full
ndmp_get_relative_path (some []) full = full
ndmp_get_relative_path (some (b ∷ base)) full = elim (past_base (b ∷ base) full) [
  | none ↦ full
  | some p ↦ skip_slash p
]
