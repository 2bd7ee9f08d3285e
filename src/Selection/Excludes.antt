-- ===== src/Selection/Excludes.antt =====
-- src/ndmpd_tar_v3.c, `get_exc_env_v3`: the patterns of what a backup leaves out.
use ndmpd.Common.{
  if-cases, ◌↔◌, ℕ, zero, suc, ◌+◌, ◌<◌, ◌≡◌, refl, Bool, true, false, ◌||◌, List, [], ◌∷◌, ◌++◌,
  ltb, if◌then◌else◌, Option, none, some, length, length-append, arith,
}

abbrev pub is_some {ℓ} : {A : Type ℓ} → Option A → Bool
is_some none = false
is_some (some a) = true

-- how many of the variables with the numbers 1 to `n` are set
unfoldable pub count_set : (ℕ → Option (List ℕ)) → ℕ → ℕ
count_set env zero = 0
count_set env (suc n) =
    let rest = count_set env n in if is_some (env (suc n)) then rest + 1 else rest

-- `tmpenv` has 1024 bytes
abbrev pub too_long : Option (List ℕ) → Bool
too_long none = false
too_long (some p) = ltb 1021 (length p)

unfoldable pub any_too_long : (ℕ → Option (List ℕ)) → ℕ → Bool
any_too_long env zero = false
any_too_long env (suc n) = any_too_long env n || too_long (env (suc n))

-- the entries for a variable that is set: the second test looks at the same variable
abbrev pub entries_of : Option (List ℕ) → List (List ℕ)
entries_of none = []
entries_of (some p) = (b'f' ∷ b'_' ∷ p) ∷ (b'd' ∷ b'_' ∷ p) ∷ []

unfoldable pub exclude_entries : (ℕ → Option (List ℕ)) → ℕ → List (List ℕ)
exclude_entries env zero = []
exclude_entries env (suc n) = exclude_entries env n ++ entries_of (env (suc n))

-- `efile` and `edir` give the variables EMC_EFILEnn and EMC_EDIRnn by their numbers; `none` is a write
-- behind the memory, the pointers counted with one more, or behind `tmpenv`.
unfoldable pub get_exc_env_v3 :
    (ℕ → Option (List ℕ)) → (ℕ → Option (List ℕ)) → Option (List (List ℕ))
unfolding count_set any_too_long exclude_entries
get_exc_env_v3 efile edir =
    let entries = exclude_entries efile 99 in
    if any_too_long efile 99
    then none
    else if ltb (count_set efile 99 + count_set edir 99) (length entries)
    then none
    else some entries

length-entries :
    (o : Option (List ℕ)) (n : ℕ)
    → (if is_some o then n + 1 else n) + (if is_some o then n + 1 else n)
      ≡ n + n + length (entries_of o)
length-entries none n = omega arith
length-entries (some p) n = omega arith

length-exclude_entries :
    (env : ℕ → Option (List ℕ)) (n : ℕ)
    → length (exclude_entries env n) ≡ count_set env n + count_set env n
unfolding exclude_entries count_set
length-exclude_entries env zero = refl
length-exclude_entries env (suc n) = omega (
  arith,
  length-append (exclude_entries env n) (entries_of (env (suc n))),
  length-exclude_entries env n,
  length-entries (env (suc n)) (count_set env n),
)

some_differs : (e : List (List ℕ)) → some e ≡ none → ⊥
some_differs e p = cc

-- With patterns that fit in the buffer for one, the list of patterns to leave out is written behind
-- its memory exactly when fewer variables name directories than files.
pub get_exc_env-outside_iff :
    (efile edir : ℕ → Option (List ℕ))
    → any_too_long efile 99 ≡ false
    → (get_exc_env_v3 efile edir ≡ none) ↔ (count_set edir 99 < count_set efile 99)
unfolding get_exc_env_v3
get_exc_env-outside_iff efile edir h =
    let entries = exclude_entries efile 99 in
    let l = length-exclude_entries efile 99 in
    let f = count_set efile 99 in
    let d = count_set edir 99 in
    if-cases (λ (r : Option (List (List ℕ))). (r ≡ none) ↔ (d < f)) (any_too_long efile 99)
      (λ e. absurd (cc))
      (λ e.
        if-cases (λ (r : Option (List (List ℕ))). (r ≡ none) ↔ (d < f))
          (ltb (f + d) (length entries))
          (λ o. ((λ q. counts f d (length entries) l o), (λ q. refl)))
          (λ o. (
            (λ q. absurd (some_differs entries q)),
            (λ q. absurd (few f d (length entries) l o q)),
          )))
  where
    counts : (f d n : ℕ) → n ≡ f + f → ltb (f + d) n ≡ true → d < f
    counts f d n l o = ground arith

    few : (f d n : ℕ) → n ≡ f + f → ltb (f + d) n ≡ false → d < f → ⊥
    few f d n l o q = ground arith
