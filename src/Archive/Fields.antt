-- ===== src/Archive/Fields.antt =====
-- include/tlm.h: what is put into a field of a record is read from it, whatever follows the field.
use ndmpd.Common.{
  ℕ, zero, suc, ◌+◌, ◌-◌, ◌^◌, ◌≤◌, ◌<◌, ◌≡◌, ◌⊎◌, inl, inr, refl, ap, ◌∙◌, false, List, [], ◌∷◌,
  ◌++◌, append_assoc, some, arith, ltb, ◌==◌, length, length-append, length-replicate, length-take,
  take, drop, replicate, take_all, All, Bool-cases,
}
use ndmpd.Base64.{done}
use ndmpd.TarHeader.{octal, oct_atoi, oct_digits, snprintf, uint_mod}
use ndmpd.TarHeader.Octal.{
  oct_digits-octal, octal-append, octal-digit, length-octal, oct_atoi-digit, oct_digits-cons,
}
use ndmpd.Archive.{field, zero_padded, format_0o, text_at, number_at}

pub take-append_le : {A : Type 0} (n : ℕ) (s t : List A) → n ≤ length s → take n (s ++ t) ≡ take n s
take-append_le zero s t h = refl
take-append_le (suc n) [] t h = absurd (omega arith)
take-append_le (suc n) (x ∷ s) t h = ap (λ r. x ∷ r) (take-append_le n s t (omega arith))

abbrev zeros : ℕ → List ℕ
zeros n = replicate n 0

drop-zeros : (k n m : ℕ) → m ≡ k + 1 + n → drop (suc k) (zeros m) ≡ zeros n
drop-zeros k n zero e = absurd (omega (arith, e))
drop-zeros zero n (suc m) e = ap zeros (omega (arith, e))
drop-zeros (suc k) n (suc m) e = drop-zeros k n m (omega (arith, e))

drop_all : (n : ℕ) (t : List ℕ) → length t ≤ n → drop n t ≡ []
drop_all zero [] h = refl
drop_all zero (x ∷ t) h = absurd (omega arith)
drop_all (suc n) [] h = refl
drop_all (suc n) (x ∷ t) h = drop_all n t (omega arith)

-- A text that is shorter than the field stands there whole with zeros behind it.
pub field-text :
    (size : ℕ) (s : List ℕ)
    → length s < size
    → field size s ≡ s ++ (0 ∷ zeros (size - length s - 1))
unfolding snprintf
field-text size s lt =
    let room : length (zeros size) ≡ size = length-replicate size 0 in
    let whole : take (size - 1) s ≡ s = take_all (size - 1) s (omega arith) in
    let n = size - length s - 1 in
    let one : length s + 1 ≡ suc (length s) = omega arith in
    let rest : drop (length s + 1) (zeros size) ≡ zeros n =
      ap (λ (k : ℕ). drop k (zeros size)) one ∙ drop-zeros (length s) n size (omega arith) in
    rw (room, whole) (ap (λ (r : List ℕ). s ++ (0 ∷ r)) rest)

-- A longer text is cut, and the last byte is a NUL.
pub field-cut :
    (size : ℕ) (s : List ℕ) → suc size ≤ length s → field (suc size) s ≡ take size s ++ (0 ∷ [])
unfolding snprintf
field-cut size s le =
    let room : length (zeros (suc size)) ≡ suc size = length-replicate (suc size) 0 in
    let cut : length (take size s) ≡ size = length-take size s (omega arith) in
    let less : suc size - 1 ≡ size = omega arith in
    rw (room, less, cut)
      (ap (λ (r : List ℕ). take size s ++ (0 ∷ r))
        (drop_all (size + 1) (zeros (suc size)) (omega (arith, room))))

pub length-field : (size : ℕ) (s : List ℕ) → length (field (suc size) s) ≡ suc size
length-field size s = elim (Bool-cases (ltb (length s) (suc size))) [
  | inl e ↦
      let lt : length s < suc size = ground arith in
      rw (field-text (suc size) s lt) (
        omega (
          arith,
          lt,
          length-append s (0 ∷ zeros (suc size - length s - 1)),
          length-replicate {A = ℕ} (suc size - length s - 1) 0,
        ))
  | inr e ↦
      let le : suc size ≤ length s = ground arith in
      rw (field-cut size s le) (
        omega
          (arith, le, length-append (take size s) (0 ∷ []), length-take size s (omega (arith, le))))
]

-- a text without a NUL
abbrev pub IsPlain : List ℕ → Type 0
IsPlain = All (λ c. (c == 0) ≡ false)

pub text_at-plain : (s rest : List ℕ) → IsPlain s → text_at (s ++ (0 ∷ rest)) ≡ done s
unfolding text_at
text_at-plain [] rest h = refl
text_at-plain (c ∷ s) rest (e, h) = rw (e, text_at-plain s rest h) refl

pub text_at-field :
    (size : ℕ) (s rest : List ℕ)
    → IsPlain s
    → length s < size
    → text_at (field size s ++ rest) ≡ done s
text_at-field size s rest h lt = rw (field-text size s lt) (
    rw (append_assoc s (0 ∷ zeros (size - length s - 1)) rest)
      (text_at-plain s (zeros (size - length s - 1) ++ rest) h))

-- the digits that stand in a field for a number
digits_of : ℕ → ℕ → List ℕ
digits_of width n = zero_padded width (octal 22 n [])

-- a character that ends a number
abbrev Ends : ℕ → Type 0
Ends c = (c ≡ b' ') ⊎ (c ≡ 0)

oct_digits-Ends : (v c : ℕ) (p : List ℕ) → Ends c → oct_digits v (c ∷ p) ≡ some v
unfolding oct_digits
oct_digits-Ends v c p (inl e) = rw e refl
oct_digits-Ends v c p (inr e) = rw e refl

-- `oct_atoi` of digits
abbrev IsDigitFirst : List ℕ → Type 0
IsDigitFirst [] = ⊥
IsDigitFirst (c ∷ p) = (d : ℕ) × (c ≡ b'0' + d)

oct_atoi-first : (s : List ℕ) → IsDigitFirst s → oct_atoi s ≡ oct_digits 0 s
oct_atoi-first [] h = absurd h
oct_atoi-first (c ∷ p) (d, e) = rw e (oct_atoi-digit d p)

oct_digits-zeros : (k : ℕ) (s : List ℕ) → oct_digits 0 (replicate k b'0' ++ s) ≡ oct_digits 0 s
oct_digits-zeros zero s = refl
oct_digits-zeros (suc k) s =
    oct_digits-cons 0 0 0 (replicate k b'0' ++ s) (omega arith) (omega arith) (omega arith)
    ∙ oct_digits-zeros k s

octal-first : (n : ℕ) (rest : List ℕ) → n < uint_mod → IsDigitFirst (octal 22 n rest)
octal-first n rest w = let (d, p, e) = octal-digit 21 n rest (omega arith) in rw e (d, refl)

padded-first : (k : ℕ) (s : List ℕ) → IsDigitFirst s → IsDigitFirst (replicate k b'0' ++ s)
padded-first zero s h = h
padded-first (suc k) s h = (0, refl)

oct_atoi-digits_of :
    (width n c : ℕ) (rest : List ℕ)
    → n < uint_mod
    → Ends c
    → oct_atoi (digits_of width n ++ (c ∷ rest)) ≡ some n
unfolding digits_of zero_padded
oct_atoi-digits_of width n c rest w ends =
    let k = width - length (octal 22 n []) in
    let whole : digits_of width n ++ (c ∷ rest) ≡ replicate k b'0' ++ octal 22 n (c ∷ rest) =
      append_assoc (replicate k b'0') (octal 22 n []) (c ∷ rest)
      ∙ ap (λ (r : List ℕ). replicate k b'0' ++ r) (octal-append 22 n [] (c ∷ rest)) in
    ap oct_atoi whole
    ∙ (oct_atoi-first (replicate k b'0' ++ octal 22 n (c ∷ rest))
          (padded-first k (octal 22 n (c ∷ rest)) (octal-first n (c ∷ rest) w))
        ∙ (oct_digits-zeros k (octal 22 n (c ∷ rest))
            ∙ (oct_digits-octal 21 n (c ∷ rest) (omega arith) w ∙ oct_digits-Ends n c rest ends)))

-- A field holds the digits, and behind them a blank or a NUL.
field-number :
    (size : ℕ) (s : List ℕ)
    → length s ≤ size
    → (c : ℕ) × (t : List ℕ) × Ends c × (field (suc size) (s ++ (b' ' ∷ [])) ≡ s ++ (c ∷ t))
field-number size s le = elim (Bool-cases (ltb (length s) size)) [
  | inl e ↦
      let fits : length (s ++ (b' ' ∷ [])) < suc size =
        ground (arith, e, length-append s (b' ' ∷ [])) in
      let n = suc size - length (s ++ (b' ' ∷ [])) - 1 in
      (
        b' ',
        0 ∷ zeros n,
        inl refl,
        field-text (suc size) (s ++ (b' ' ∷ [])) fits ∙ append_assoc s (b' ' ∷ []) (0 ∷ zeros n),
      )
  | inr e ↦
      let same : length s ≡ size = ground (arith, e) in
      (
        0,
        [],
        inr refl,
        field-cut size (s ++ (b' ' ∷ [])) (omega (arith, same, length-append s (b' ' ∷ [])))
            ∙ ap (λ (r : List ℕ). r ++ (0 ∷ []))
                (take-append_le size s (b' ' ∷ []) (omega (arith, same))
                  ∙ take_all size s (omega (arith, same))),
      )
]

number_at-some : (s : List ℕ) (n : ℕ) → oct_atoi s ≡ some n → number_at s ≡ done n
unfolding number_at
number_at-some s n e = rw (e, number_at) refl

-- A number below 2 ^ 32 whose digits, filled up to the width of the format, leave room for a NUL is
-- read from the field it is printed into, whatever follows the field.
pub number_at-field :
    (size width n : ℕ) (rest : List ℕ)
    → n < uint_mod
    → length (octal 22 n []) ≤ size
    → width ≤ size
    → number_at (field (suc size) (format_0o width n) ++ rest) ≡ done n
unfolding format_0o digits_of
number_at-field size width n rest w le fits =
    let len : length (digits_of width n) ≤ size = omega (
      arith,
      le,
      length-append (replicate (width - length (octal 22 n [])) b'0') (octal 22 n []),
      length-replicate {A = ℕ} (width - length (octal 22 n [])) b'0',
    ) in
    let (c, t, ends, e) = field-number size (digits_of width n) len in
    let whole = append_assoc (digits_of width n) (c ∷ t) rest in
    let read = oct_atoi-digits_of width n c (t ++ rest) w ends in
    ap number_at (ap (λ (r : List ℕ). r ++ rest) e ∙ whole)
    ∙ number_at-some (digits_of width n ++ (c ∷ t ++ rest)) n read

-- seven digits for a number below 8 ^ 7, eleven for one below 2 ^ 32
pub length-seven : (n : ℕ) → n < 8 ^ 7 → length (octal 22 n []) ≤ 7
length-seven n lt = omega (arith, length-octal 21 6 n [] (omega arith) (omega arith))

pub length-eleven : (n : ℕ) → n < uint_mod → length (octal 22 n []) ≤ 11
length-eleven n lt = omega (arith, length-octal 21 10 n [] (omega arith) (omega arith))
