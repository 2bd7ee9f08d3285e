-- ===== src/DumpDates/Fields/Laws.antt =====
-- src/ndmpd_dtime.c: a field that is written is read back.
use ndmpd.Common.{
  ℕ, ◌<◌, ◌≡◌, ◌≢◌, ◌⊎◌, inl, inr, refl, ap, ◌∙◌, Bool, true, false, ◌&&◌, ◌||◌, List, [], ◌∷◌,
  ◌++◌, ◌==◌, some, arith, Bool-cases, All,
}
use ndmpd.Common.Bytes.{passes, passes_at}
use ndmpd.DumpDates.{is_blank, is_digit, toupper, is_lbr_bktype, skip_blanks}
use ndmpd.DumpDates.Fields.{
  get_word, get_ddname, take_digits, digits_value, level_of, get_ddlevel, put_ddname, decimal,
  put_ddlevel,
}

-- names that a line can keep: no newline, and no backslash at the end
abbrev pub IsWritable : List ℕ → Type 0
IsWritable [] = Unit
IsWritable (c ∷ []) = (c ≢ b'\n') × (c ≢ b'\\')
IsWritable (c ∷ d ∷ s) = (c ≢ b'\n') × IsWritable (d ∷ s)

-- the text begins with a character that is no blank
abbrev pub StartsPlain : List ℕ → Type 0
StartsPlain [] = ⊥
StartsPlain (c ∷ s) = is_blank c ≡ false

put_ddname-StartsPlain : (d : ℕ) (s t : List ℕ) → StartsPlain (put_ddname (d ∷ s) ++ t)
unfolding put_ddname
put_ddname-StartsPlain d s t = elim (Bool-cases (d == b' ' || (d == b'\n' || d == b'\t'))) [
  | inl e ↦ rw e refl
  | inr e ↦ rw e (ground arith)
]

pub skip_blanks-StartsPlain : (s : List ℕ) → StartsPlain s → skip_blanks s ≡ s
unfolding skip_blanks
skip_blanks-StartsPlain [] h = absurd h
skip_blanks-StartsPlain (c ∷ s) h = rw (h, skip_blanks) refl

get_word-plain :
    (c : ℕ) (s : List ℕ)
    → is_blank c ≡ false
    → StartsPlain s ⊎ ((c ≢ b'\\') × (s ≢ []))
    → get_word (c ∷ s) ≡ (c ∷ (get_word s).0, (get_word s).1)
unfolding get_word
get_word-plain c [] h (inl p) = absurd p
get_word-plain c [] h (inr (p, q)) = absurd (q refl)
get_word-plain c (d ∷ s) h k =
    let e : (c == b'\\' && is_blank d) ≡ false = no_escape k in rw (h, get_word) (rw e refl)
  where
    no_escape :
        StartsPlain (d ∷ s) ⊎ ((c ≢ b'\\') × ((d ∷ s) ≢ [])) → (c == b'\\' && is_blank d) ≡ false
    no_escape (inl p) = ground arith
    no_escape (inr (p, q)) = ground arith

get_word-escaped :
    (c : ℕ) (s : List ℕ)
    → is_blank c ≡ true
    → get_word (b'\\' ∷ c ∷ s) ≡ (c ∷ (get_word s).0, (get_word s).1)
unfolding get_word
get_word-escaped c s h = rw (h, get_word) refl

-- A name that is written and followed by a tab is read back.
get_word-put :
    (nm rest : List ℕ) → IsWritable nm → get_word (put_ddname nm ++ (b'\t' ∷ rest)) ≡ (nm, rest)
unfolding put_ddname
get_word-put [] [] h = unfold get_word in refl
get_word-put [] (c ∷ rest) h = unfold get_word in refl
get_word-put (c ∷ []) rest (n, b) = elim (Bool-cases (is_blank c)) [
  | inl e ↦
      let w : (c == b' ' || (c == b'\n' || c == b'\t')) ≡ true = ground arith in
      rw w
        (get_word-escaped c (b'\t' ∷ rest) e ∙ ap (λ p. (c ∷ p.0, p.1)) (get_word-put [] rest tt))
  | inr e ↦
      let w : (c == b' ' || (c == b'\n' || c == b'\t')) ≡ false = ground arith in
      rw w (
        get_word-plain c (b'\t' ∷ rest) e (inr (b, (λ q. cc)))
        ∙ ap (λ p. (c ∷ p.0, p.1)) (get_word-put [] rest tt))
]
get_word-put (c ∷ d ∷ nm) rest (n, h) = elim (Bool-cases (is_blank c)) [
  | inl e ↦
      let w : (c == b' ' || (c == b'\n' || c == b'\t')) ≡ true = ground arith in
      rw w (
        get_word-escaped c (put_ddname (d ∷ nm) ++ (b'\t' ∷ rest)) e
        ∙ ap (λ p. (c ∷ p.0, p.1)) (get_word-put (d ∷ nm) rest h))
  | inr e ↦
      let w : (c == b' ' || (c == b'\n' || c == b'\t')) ≡ false = ground arith in
      rw w (
        get_word-plain c (put_ddname (d ∷ nm) ++ (b'\t' ∷ rest)) e
          (inl (put_ddname-StartsPlain d nm (b'\t' ∷ rest)))
        ∙ ap (λ p. (c ∷ p.0, p.1)) (get_word-put (d ∷ nm) rest h))
]

-- A name that is not empty, has no newline and does not end in a backslash is read back from a line
-- that goes on with a tab.
pub get_ddname-put_ddname :
    (c : ℕ) (nm rest : List ℕ)
    → IsWritable (c ∷ nm)
    → get_ddname (put_ddname (c ∷ nm) ++ (b'\t' ∷ rest)) ≡ (c ∷ nm, rest)
unfolding get_ddname
get_ddname-put_ddname c nm rest h =
    rw (skip_blanks-StartsPlain _ (put_ddname-StartsPlain c nm (b'\t' ∷ rest)))
      (get_word-put (c ∷ nm) rest h)

abbrev AllDigits : List ℕ → Type 0
AllDigits w = All (λ c. is_digit c ≡ true) w

pub take_digits-append :
    (w rest : List ℕ) (c : ℕ)
    → All (λ c. is_digit c ≡ true) w
    → is_digit c ≡ false
    → take_digits (w ++ (c ∷ rest)) ≡ (w, c ∷ rest)
unfolding take_digits
take_digits-append [] rest c h n = rw (n, take_digits) refl
take_digits-append (d ∷ w) rest c (e, h) n =
    rw (e, take_digits) (ap (λ p. (d ∷ p.0, p.1)) (take_digits-append w rest c h n))

digit-not_lbr : (c : ℕ) → is_digit c ≡ true → (is_lbr_bktype c ≡ false) × (is_blank c ≡ false)
digit-not_lbr c h = ground arith

get_ddlevel-digits :
    (d : ℕ) (w rest : List ℕ)
    → AllDigits (d ∷ w)
    → get_ddlevel ((d ∷ w) ++ (b'\t' ∷ rest)) ≡ some (digits_value 0 (d ∷ w), rest)
unfolding get_ddlevel level_of
get_ddlevel-digits d w rest (e, h) =
    let (l, b) = digit-not_lbr d e in
    rw
      (
        skip_blanks-StartsPlain (d ∷ (w ++ (b'\t' ∷ rest))) b,
        l,
        take_digits-append (d ∷ w) rest b'\t' (e, h) refl,
      )
      refl

-- what `decimal` gives, tested for each number below 128
abbrev all_digits : List ℕ → Bool
all_digits [] = true
all_digits (c ∷ w) = is_digit c && all_digits w

abbrev is_cons : List ℕ → Bool
is_cons [] = false
is_cons (c ∷ w) = true

decimal_table :
    passes
      (λ n. is_cons (decimal n) && (all_digits (decimal n) && (digits_value 0 (decimal n) == n)))
      128
    ≡ true
unfolding passes decimal digits_value
decimal_table = refl

all_digits-AllDigits : (w : List ℕ) → all_digits w ≡ true → AllDigits w
all_digits-AllDigits [] h = tt
all_digits-AllDigits (c ∷ w) h = (ground arith, all_digits-AllDigits w (ground arith))

-- levels that are kept: small numbers, and the four letters as capitals
abbrev pub IsLevel : ℕ → Type 0
IsLevel n = (n < 128) × (is_lbr_bktype n ≡ true → toupper n ≡ n)

decimal_lem :
    (n : ℕ) (w rest : List ℕ)
    → decimal n ≡ w
    → (is_cons w && (all_digits w && (digits_value 0 w == n))) ≡ true
    → get_ddlevel (w ++ (b'\t' ∷ rest)) ≡ some (n, rest)
decimal_lem n [] rest e h = absurd (cc)
decimal_lem n (d ∷ w) rest e h =
    get_ddlevel-digits d w rest (all_digits-AllDigits (d ∷ w) (ground arith))
    ∙ ap (λ (k : ℕ). some (k, rest)) (ground arith)

-- A level below 128, a letter as a capital, is read back from a line that goes on with a tab.
pub get_ddlevel-put_ddlevel :
    (n : ℕ) (rest : List ℕ)
    → IsLevel n
    → get_ddlevel (put_ddlevel n ++ (b'\t' ∷ rest)) ≡ some (n, rest)
unfolding put_ddlevel
get_ddlevel-put_ddlevel n rest (lt, up) = elim (Bool-cases (is_lbr_bktype n)) [
  | inl e ↦ rw e (lbr e)
  | inr e ↦ rw e (
      decimal_lem n (decimal n) rest refl (
        passes_at
          (λ n.
            is_cons (decimal n) && (all_digits (decimal n) && (digits_value 0 (decimal n) == n)))
          128 n decimal_table lt))
]
  where
    lbr : is_lbr_bktype n ≡ true → get_ddlevel (n ∷ b'\t' ∷ rest) ≡ some (n, rest)
    lbr e =
        unfold get_ddlevel level_of in
        (rw (skip_blanks-StartsPlain (n ∷ b'\t' ∷ rest) (ground (arith, e)), e)
          (ap (λ (k : ℕ). some (k, rest)) (up e)))
