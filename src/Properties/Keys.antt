-- ===== src/Properties/Keys.antt =====
-- src/ndmpd_prop.c: which property a key names, and what the other properties keep.
use ndmpd.Common.{
  ℕ, zero, suc, ◌<◌, ◌≡◌, inl, inr, refl, ap, ◌∙◌, Bool, true, false, ◌&&◌, List, [], ◌∷◌, map,
  Option, some, arith, ltb, ◌==◌, if◌then◌else◌, length, get_or, Bool-cases,
}
use ndmpd.Common.Bytes.{passes, passes_at}
use ndmpd.Properties.{
  Table, Param, ndmpd_cfg_table, ndmp_maxall, has_prefix, store, value_at, ndmpd_get_prop,
}

abbrev pub names : Table → List (List ℕ)
names = map (λ (p : Param). p.name)

abbrev pub known : List (List ℕ)
known = names ndmpd_cfg_table

-- a table with the names that the program gives it
abbrev pub IsNamed : Table → Type 0
IsNamed table = names table ≡ known

-- the place of the first name that begins with a key
unfoldable pub first_match : List ℕ → List (List ℕ) → ℕ
unfolding has_prefix
first_match key [] = 0
first_match key (n ∷ ns) = let rest = first_match key ns in if has_prefix n key then 0 else suc rest

names-store : (key value : List ℕ) (table : Table) → names (store key value table) ≡ names table
unfolding store
names-store key value [] = refl
names-store key value (p ∷ table) = elim (Bool-cases (has_prefix p.name key)) [
  | inl e ↦ rw e refl
  | inr e ↦ rw e (ap (λ r. p.name ∷ r) (names-store key value table))
]

pub store-IsNamed :
    (key value : List ℕ) (table : Table) → IsNamed table → IsNamed (store key value table)
store-IsNamed key value table h = names-store key value table ∙ h

length-names : (table : Table) → length (names table) ≡ length table
length-names [] = refl
length-names (p ∷ table) = ap suc (length-names table)

-- what a change of the property at a place does to what is looked up
abbrev pub changed : ℕ → ℕ → List ℕ → Option (List ℕ) → Option (List ℕ)
changed i id value old = if i == id then some value else old

value_at-store :
    (key value : List ℕ) (table : Table) (id : ℕ)
    → id < length table
    → value_at (store key value table) id
      ≡ changed (first_match key (names table)) id value (value_at table id)
unfolding store value_at first_match
value_at-store key value [] id lt = absurd (omega arith)
value_at-store key value (p ∷ table) zero lt = elim (Bool-cases (has_prefix p.name key)) [
  | inl e ↦ rw e refl
  | inr e ↦
      let off : (suc (first_match key (names table)) == 0) ≡ false = ground arith in
      rw (e, off) refl
]
value_at-store key value (p ∷ table) (suc id) lt = elim (Bool-cases (has_prefix p.name key)) [
  | inl e ↦ let off : (0 == suc id) ≡ false = ground arith in rw (e, off) refl
  | inr e ↦
      let same : (suc (first_match key (names table)) == suc id)
          ≡ (first_match key (names table) == id) =
        ground arith in
      rw (e, same) (value_at-store key value table id (omega (arith, lt)))
]

abbrev pub name_of : ℕ → List ℕ
name_of id = get_or known id []

-- what each name is: the first that begins with itself, and short
abbrev is_regular : ℕ → Bool
is_regular id = first_match (name_of id) known == id && ltb (length (name_of id)) 32

known_regular : passes is_regular ndmp_maxall ≡ true
unfolding passes first_match has_prefix
known_regular = refl

-- No name begins with another one, and none has more than 31 characters.
pub name_of_lem :
    (id : ℕ) → id < ndmp_maxall → (first_match (name_of id) known ≡ id) × (length (name_of id) < 32)
name_of_lem id lt =
    let ok : is_regular id ≡ true = passes_at is_regular ndmp_maxall id known_regular lt in
    (ground (arith, ok), ground (arith, ok))

pub get_prop-store :
    (id j : ℕ) (value : List ℕ) (table : Table)
    → IsNamed table
    → id < ndmp_maxall
    → ndmpd_get_prop (store (name_of id) value table) j
      ≡ changed id j value (ndmpd_get_prop table j)
unfolding ndmpd_get_prop
get_prop-store id j value table h lt = elim (Bool-cases (ltb j ndmp_maxall)) [
  | inl e ↦
      let small : j < length table = ground (arith, e, length-names table, ap length h) in
      rw (e, value_at-store (name_of id) value table j small, h, (name_of_lem id lt).0) refl
  | inr e ↦ let off : (id == j) ≡ false = ground (arith, e) in rw (e, off) refl
]
