-- ===== src/Names/Paths.antt =====
-- tlm/tlm_lib.c `tlm_cat_path`, tlm/tlm_util.c `trim_name` and src/ndmpd_util.c
-- `ndmp_get_relative_path`.
use ndmpd.Common.{
  ℕ, zero, suc, ◌+◌, ◌-◌, not, ◌≤◌, ◌<◌, ◌≡◌, inl, inr, refl, Bool, true, false, ◌&&◌, ◌||◌, List,
  [], ◌∷◌, ◌++◌, ◌==◌, if◌then◌else◌, arith, Bool-cases, some, none, sym, ap, ==_refl, length,
  length-append, ◌∙◌, leb, take,
}
use ndmpd.Names.{
  is_nil, starts_with_slash, ends_with_slash, skip_slashes, tlm_cat_path, trim_name, skip_slash,
  past_base, ndmp_get_relative_path,
}

take-all : (n : ℕ) (s : List ℕ) → length s ≤ n → take n s ≡ s
take-all zero [] h = refl
take-all zero (x ∷ s) h = absurd (omega arith)
take-all (suc n) [] h = refl
take-all (suc n) (x ∷ s) h = rw (take-all n s (omega arith))

length-skip_slashes : (s : List ℕ) → length (skip_slashes s) ≤ length s
unfolding skip_slashes
length-skip_slashes [] = omega arith
length-skip_slashes (c ∷ s) = ground (arith, length-skip_slashes s)

-- the text that the format gives, before the size of the buffer is applied
abbrev pub joined : List ℕ → List ℕ → List ℕ
joined dir name =
    let name' = if ends_with_slash dir && starts_with_slash name then skip_slashes name else name in
    if is_nil dir || is_nil name || ends_with_slash dir || starts_with_slash name
    then dir ++ name'
    else dir ++ (b'/' ∷ name')

length-joined : (dir name : List ℕ) → length (joined dir name) ≤ length dir + length name + 1
length-joined dir name = ground (
  arith,
  length-append dir name,
  length-append dir (skip_slashes name),
  length-append dir (b'/' ∷ name),
  length-append dir (b'/' ∷ skip_slashes name),
  length-skip_slashes name,
)

-- Two names are refused exactly when their lengths and the slash reach PATH_MAX. Otherwise the
-- buffer is large enough for all of the joined name, which stays below PATH_MAX.
tlm_cat_path_lem :
    (path_max : ℕ) (dir name : List ℕ)
    → (tlm_cat_path path_max dir name
        ≡ (if leb path_max (length dir + length name + 1) then none else some (joined dir name)))
      × (length dir + length name + 1 < path_max → length (joined dir name) < path_max)
unfolding tlm_cat_path
tlm_cat_path_lem path_max dir name = (
  elim (Bool-cases (leb path_max (length dir + length name + 1))) [
    | inl e ↦ rw e
    | inr e ↦ rw e (ap some (take-all (path_max + 64 - 1) (joined dir name) (room e)))
  ],
  λ h. omega (arith, length-joined dir name),
)
  where
    room :
        leb path_max (length dir + length name + 1) ≡ false
        → length (joined dir name) ≤ path_max + 64 - 1
    room e = ground (arith, length-joined dir name)

past_base-append : (base rest : List ℕ) → past_base base (base ++ rest) ≡ some rest
unfolding past_base
past_base-append [] rest = refl
past_base-append (b ∷ base) rest = rw (==_refl b) (past_base-append base rest)

skip_slashes-plain : (s : List ℕ) → starts_with_slash s ≡ false → skip_slashes s ≡ s
unfolding skip_slashes
skip_slashes-plain [] h = refl
skip_slashes-plain (c ∷ s) h = rw h

starts-skip_slashes : (s : List ℕ) → starts_with_slash (skip_slashes s) ≡ false
unfolding skip_slashes
starts-skip_slashes [] = refl
starts-skip_slashes (c ∷ s) = elim (Bool-cases (c == b'/')) [
  | inl e ↦ rw e (starts-skip_slashes s)
  | inr e ↦ rw e e
]

skip_slash-plain : (s : List ℕ) → starts_with_slash s ≡ false → skip_slash s ≡ s
unfolding skip_slash
skip_slash-plain [] h = refl
skip_slash-plain (c ∷ s) h = rw h

-- The three ways in which a name is put behind a directory that is not empty
joined-slash :
    (d : ℕ) (dir name : List ℕ)
    → ends_with_slash (d ∷ dir) ≡ true
    → joined (d ∷ dir) name ≡ (d ∷ dir) ++ skip_slashes name
joined-slash d dir name e = ground (arith, skip_slashes-plain name)

joined-plain :
    (d c : ℕ) (dir name : List ℕ)
    → ends_with_slash (d ∷ dir) ≡ false
    → starts_with_slash (c ∷ name) ≡ false
    → joined (d ∷ dir) (c ∷ name) ≡ (d ∷ dir) ++ (b'/' ∷ c ∷ name)
joined-plain d c dir name e f = rw (e, f)

joined-empty : (d : ℕ) (dir : List ℕ) → joined (d ∷ dir) [] ≡ (d ∷ dir) ++ []
joined-empty d dir = ground arith

relative-append :
    (d : ℕ) (dir rest : List ℕ)
    → ndmp_get_relative_path (some (d ∷ dir)) ((d ∷ dir) ++ rest) ≡ skip_slash rest
unfolding ndmp_get_relative_path
relative-append d dir rest = ground (arith, past_base-append (d ∷ dir) rest)

relative-joined :
    (d : ℕ) (dir name : List ℕ)
    → (ends_with_slash (d ∷ dir) || not (starts_with_slash name)) ≡ true
    → ndmp_get_relative_path (some (d ∷ dir)) (joined (d ∷ dir) name) ≡ skip_slashes name
unfolding skip_slash skip_slashes
relative-joined d dir [] h = rw (joined-empty d dir) (relative-append d dir [])
relative-joined d dir (c ∷ name) h = elim (Bool-cases (ends_with_slash (d ∷ dir))) [
  | inl e ↦ rw (joined-slash d dir (c ∷ name) e) (
      relative-append d dir (skip_slashes (c ∷ name))
      ∙ skip_slash-plain _ (starts-skip_slashes (c ∷ name)))
  | inr e ↦
      rw (joined-plain d c dir name e (ground arith)) (
        relative-append d dir (b'/' ∷ c ∷ name)
        ∙ sym (skip_slashes-plain (c ∷ name) (ground arith)))
]

-- A name put behind a directory that is not empty, and then taken relative to it, is the name
-- without its leading slashes; where the directory does not end in a slash, for names that do not
-- begin with one.
relative_path-cat_path :
    (path_max d : ℕ) (dir name : List ℕ) {r : List ℕ}
    → (ends_with_slash (d ∷ dir) || not (starts_with_slash name)) ≡ true
    → tlm_cat_path path_max (d ∷ dir) name ≡ some r
    → ndmp_get_relative_path (some (d ∷ dir)) r ≡ skip_slashes name
relative_path-cat_path path_max d dir name {r} h e = rw (← whole) (relative-joined d dir name h)
  where
    whole : joined (d ∷ dir) name ≡ r
    whole = ground (arith, e, tlm_cat_path_lem path_max (d ∷ dir) name)

-- what `trim_name` takes off: a slash, or `./` with something behind it
abbrev trims : List ℕ → Bool
trims [] = false
trims (a ∷ []) = a == b'/'
trims (a ∷ b ∷ []) = a == b'/'
trims (a ∷ b ∷ c ∷ nm) = a == b'/' || (a == b'.' && b == b'/')

-- a sequence of pieces `/` and `./`
abbrev pub is_slashes : List ℕ → Bool
is_slashes [] = true
is_slashes (a ∷ []) = a == b'/'
is_slashes (a ∷ b ∷ s) =
    let one = is_slashes (b ∷ s) in
    let two = is_slashes s in (a == b'/' && one) || (a == b'.' && b == b'/' && two)

-- `r` is the name without some of its leading slashes and `./`, and nothing more is to be taken off.
abbrev pub Trimmed : List ℕ → List ℕ → Type 0
Trimmed nm r = (cut : List ℕ) × (nm ≡ cut ++ r) × (is_slashes cut ≡ true) × (trims r ≡ false)

is_slashes-cons :
    (a : ℕ) (cut : List ℕ)
    → (a == b'/') ≡ true
    → is_slashes cut ≡ true
    → is_slashes (a ∷ cut) ≡ true
is_slashes-cons a [] e h = e
is_slashes-cons a (b ∷ cut) e h = ground arith

Trimmed-slash : (a : ℕ) {nm r : List ℕ} → (a == b'/') ≡ true → Trimmed nm r → Trimmed (a ∷ nm) r
Trimmed-slash a e (cut, p, q, t) = (a ∷ cut, ap (◌∷◌ a) p, is_slashes-cons a cut e q, t)

Trimmed-dot :
    (a b : ℕ) {nm r : List ℕ}
    → (a == b'.' && b == b'/') ≡ true
    → Trimmed nm r
    → Trimmed (a ∷ b ∷ nm) r
Trimmed-dot a b e (cut, p, q, t) = (a ∷ b ∷ cut, ap (λ s. a ∷ b ∷ s) p, ground arith, t)

-- `trim_name` takes off leading slashes and `./`, and what it leaves begins neither with a slash
-- nor with `./` and something behind it.
trim_name_lem : (nm : List ℕ) → Trimmed nm (trim_name nm)
unfolding trim_name
trim_name_lem [] = ([], refl, refl, refl)
trim_name_lem (a ∷ []) = elim (Bool-cases (a == b'/')) [
  | inl e ↦ rw e (a ∷ [], refl, e, refl)
  | inr e ↦ rw e ([], refl, refl, e)
]
trim_name_lem (a ∷ b ∷ []) = elim (Bool-cases (a == b'/')) [
  | inl e ↦ rw e (Trimmed-slash a e (trim_name_lem (b ∷ [])))
  | inr e ↦ rw e ([], refl, refl, e)
]
trim_name_lem (a ∷ b ∷ c ∷ nm) = elim (Bool-cases (a == b'/')) [
  | inl e ↦ rw e (Trimmed-slash a e (trim_name_lem (b ∷ c ∷ nm)))
  | inr e ↦ elim (Bool-cases (a == b'.' && b == b'/')) [
    | inl f ↦ rw (e, f) (Trimmed-dot a b f (trim_name_lem (c ∷ nm)))
    | inr f ↦ rw (e, f) ([], refl, refl, rw (e, f))
  ]
]
