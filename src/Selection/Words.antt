-- ===== src/Selection/Words.antt =====
-- src/ndmpd_tar_v3.c: when `split_env` stays inside the memory that is allocated.
use ndmpd.Common.{
  ℕ, ◌+◌, ◌≤◌, ◌≡◌, ◌≢◌, Bool, true, false, ◌&&◌, not, List, [], ◌∷◌, ◌++◌, ltb, ◌==◌,
  if◌then◌else◌, Option, none, some, arith, Bool-cases, inl, inr,
}
use ndmpd.DumpDates.Dates.{skip_spaces}
use ndmpd.Selection.{
  is_cons, unescaped, add_word, split_words, count_seps, slots, no_words, outside, written,
  some_words, checked, split_env,
}

-- no backslash is escaped, and the text does not end in one; the flag as for `split_words`
abbrev pub tame : Bool → List ℕ → Bool
tame true [] = false
tame true (c ∷ s) = not (c == b'\\') && tame false s
tame false [] = true
tame false (c ∷ s) = if c == b'\\' then tame true s else tame false s

-- the loop stays in the text, and the words fit in the pointers counted, which are `n` without two
abbrev pub Fits : ℕ → Option (List (List ℕ) × Bool) → Type 0
Fits n none = ⊥
Fits n (some r) = written r ≤ n + 2

Fits-le : (m n : ℕ) (o : Option (List (List ℕ) × Bool)) → m ≤ n → Fits m o → Fits n o
Fits-le m n none h f = absurd f
Fits-le m n (some r) h f = omega (arith, h, f)

written-add :
    (acc : List ℕ) (ws : List (List ℕ)) (b : Bool)
    → written (add_word acc ws, b) ≤ written (ws, b) + 1
written-add [] ws true = omega arith
written-add [] ws false = omega arith
written-add (c ∷ acc) ws true = omega arith
written-add (c ∷ acc) ws false = omega arith

Fits-word :
    (acc : List ℕ) (n : ℕ) (o : Option (List (List ℕ) × Bool))
    → Fits n o
    → Fits (n + 1) (elim o [ none ↦ none | some r ↦ some (add_word acc r.0, r.1) ])
Fits-word acc n none f = absurd f
Fits-word acc n (some (ws, b)) f = omega (arith, f, written-add acc ws b)

Fits-end : (acc : List ℕ) → written (add_word acc [], is_cons acc) ≤ 2
Fits-end [] = omega arith
Fits-end (c ∷ acc) = omega arith

-- the character before the text is a backslash exactly when the flag is set
abbrev Before : Bool → ℕ → Type 0
Before true before = before ≡ b'\\'
Before false before = (before == b'\\') ≡ false

split_words-Fits :
    (sep : ℕ) (e : Bool) (acc : List ℕ) (before : ℕ) (s : List ℕ)
    → sep ≢ b'\\'
    → Before e before
    → tame e s ≡ true
    → Fits (count_seps sep before s) (split_words sep e acc s)
unfolding split_words count_seps
split_words-Fits sep true acc before [] ne b h = absurd (cc)
split_words-Fits sep true acc before (c ∷ s) ne b h =
    let n : (c == b'\\') ≡ false = ground (arith, h) in
    let t : tame false s ≡ true = ground (arith, h) in
    let skip : (c == sep && not (before == b'\\')) ≡ false = ground (arith, b) in
    rw skip (split_words-Fits sep false (acc ++ (unescaped c ∷ [])) c s ne n t)
split_words-Fits sep false acc before [] ne b h = omega (arith, Fits-end acc)
split_words-Fits sep false acc before (c ∷ s) ne b h = elim (Bool-cases (c == sep)) [
  | inl e ↦
      let n : (c == b'\\') ≡ false = ground (arith, e, ne) in
      let rest = split_words-Fits sep false [] c s ne n (rw n at h) in
      rw (e, split_words, b) (Fits-word acc (count_seps sep c s) (split_words sep false [] s) rest)
  | inr e ↦ elim (Bool-cases (c == b'\\')) [
    | inl q ↦
        let slash : c ≡ b'\\' = ground arith in
        rw (e, split_words, q) (split_words-Fits sep true acc c s ne slash (rw q at h))
    | inr q ↦
        rw (e, split_words, q) (split_words-Fits sep false (acc ++ (c ∷ [])) c s ne q (rw q at h))
  ]
]

Fits-checked : (n : ℕ) (o : Option (List (List ℕ) × Bool)) → Fits n o → checked (n + 2) o ≢ outside
unfolding checked
Fits-checked n none f = absurd f
Fits-checked n (some (ws, b)) f =
    let le : ltb (n + 2) (written (ws, b)) ≡ false = ground (arith, f) in rw le (inside ws)
  where
    inside : (ws : List (List ℕ)) → some_words ws ≢ outside
    inside [] q = absurd (cc)
    inside (w ∷ ws) q = absurd (cc)

pub split_words-first :
    (sep c : ℕ) (s : List ℕ)
    → sep ≢ b'\\'
    → tame false (c ∷ s) ≡ true
    → Fits (count_seps sep c s) (split_words sep false [] (c ∷ s))
unfolding split_words
split_words-first sep c s ne h = elim (Bool-cases (c == sep)) [
  | inl e ↦
      let n : (c == b'\\') ≡ false = ground (arith, e, ne) in
      rw (e, split_words)
        (no_word (split_words sep false [] s) (split_words-Fits sep false [] c s ne n (rw n at h)))
  | inr e ↦ elim (Bool-cases (c == b'\\')) [
    | inl q ↦
        let slash : c ≡ b'\\' = ground arith in
        rw (e, split_words, q) (split_words-Fits sep true [] c s ne slash (rw q at h))
    | inr q ↦ rw (e, split_words, q) (split_words-Fits sep false (c ∷ []) c s ne q (rw q at h))
  ]
]
  where
    no_word :
        (o : Option (List (List ℕ) × Bool))
        → Fits (count_seps sep c s) o
        → Fits (count_seps sep c s) (elim o [ none ↦ none | some r ↦ some (add_word [] r.0, r.1) ])
    no_word none f = f
    no_word (some (ws, b)) f = f

-- A text in which no backslash is escaped, and which does not end in one, is split inside its memory:
-- no read leaves the text and no pointer is written behind those allocated.
pub split_env-inside :
    (sep : ℕ) (envp : List ℕ)
    → sep ≢ b'\\'
    → tame false (skip_spaces envp) ≡ true
    → split_env sep envp ≢ outside
unfolding split_env
split_env-inside sep envp ne h = go (skip_spaces envp) h
  where
    go :
        (s : List ℕ)
        → tame false s ≡ true
        → (if is_cons s then checked (slots sep s) (split_words sep false [] s) else no_words)
          ≢ outside
    go [] h = λ q. absurd (cc)
    go (c ∷ s) h =
        unfold slots in
        Fits-checked (count_seps sep c s) (split_words sep false [] (c ∷ s))
          (split_words-first sep c s ne h)
