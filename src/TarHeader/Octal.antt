-- ===== src/TarHeader/Octal.antt =====
-- `%6o` and `oct_atoi`: a number printed and read back.
use ndmpd.Common.{
  length-append, length-replicate, ℕ, zero, suc, ◌+◌, ◌-◌, ◌*◌, ◌/◌, ◌%◌, ◌^◌, ◌≤◌, ◌<◌, ◌≡◌, refl,
  ◌∙◌, List, [], ◌∷◌, ◌++◌, length, replicate, some, arith, append_assoc, ap,
}
use native.Mathlib.Decide.{dec_lt}
use ndmpd.TarHeader.{oct_digits, oct_atoi, octal, format_6o, uint_mod}

abbrev pub pow8 : ℕ → ℕ
pow8 zero = 1
pow8 (suc k) = 8 * pow8 k

pub octal-append : (f n : ℕ) (acc rest : List ℕ) → octal f n acc ++ rest ≡ octal f n (acc ++ rest)
unfolding octal
octal-append zero n acc rest = refl
octal-append (suc f) n acc rest = ground (arith, octal-append f (n / 8) ((b'0' + n % 8) ∷ acc) rest)

octal-step :
    (f n : ℕ) (acc : List ℕ) → 8 ≤ n → octal (suc f) n acc ≡ octal f (n / 8) ((b'0' + n % 8) ∷ acc)
unfolding octal
octal-step f n acc h = ground arith

octal-last : (f n : ℕ) (acc : List ℕ) → n < 8 → octal (suc f) n acc ≡ (b'0' + n) ∷ acc
unfolding octal
octal-last f n acc h = ground arith

-- One more digit multiplies by eight: no wrap while the value fits an `unsigned int`.
pub oct_digits-cons :
    (v d m : ℕ) (p : List ℕ)
    → d < 8
    → v * 8 + d ≡ m
    → m < uint_mod
    → oct_digits v ((b'0' + d) ∷ p) ≡ oct_digits m p
unfolding oct_digits
oct_digits-cons v d m p h e w = ground (arith, ap (λ k. oct_digits k p) fit)
  where
    fit : (v * 8 + (b'0' + d - b'0')) % uint_mod ≡ m
    fit = omega arith

-- Reading the digits of `n` leaves `n`, for what follows them.
pub oct_digits-octal :
    (f n : ℕ) (acc : List ℕ)
    → n < pow8 (suc f)
    → n < uint_mod
    → oct_digits 0 (octal (suc f) n acc) ≡ oct_digits n acc
oct_digits-octal zero n acc h w =
    rw (octal-last 0 n acc (omega arith)) (oct_digits-cons 0 n n acc (omega arith) (omega arith) w)
oct_digits-octal (suc f) n acc h w = elim (dec_lt n 8) [
  | yes small ↦
      rw (octal-last (suc f) n acc small) (oct_digits-cons 0 n n acc small (omega arith) w)
  | no big ↦ rw (octal-step (suc f) n acc (omega arith)) (
      oct_digits-octal f (n / 8) ((b'0' + n % 8) ∷ acc) (omega arith) (omega arith)
      ∙ oct_digits-cons (n / 8) (n % 8) n acc (omega arith) (omega arith) w)
]

-- The first character printed is a digit.
pub octal-digit :
    (f n : ℕ) (acc : List ℕ)
    → n < pow8 (suc f)
    → (d : ℕ) × (p : List ℕ) × (octal (suc f) n acc ≡ (b'0' + d) ∷ p)
octal-digit zero n acc h = (n, acc, octal-last 0 n acc (omega arith))
octal-digit (suc f) n acc h = elim (dec_lt n 8) [
  | yes small ↦ (n, acc, octal-last (suc f) n acc small)
  | no big ↦
      let (d, p, e) = octal-digit f (n / 8) ((b'0' + n % 8) ∷ acc) (omega arith) in
      (d, p, octal-step (suc f) n acc (omega arith) ∙ e)
]

-- Fewer digits than `k` are printed for a number below the `k`-th power of eight.
pub length-octal :
    (f k n : ℕ) (acc : List ℕ)
    → n < pow8 (suc k)
    → k ≤ f
    → length (octal (suc f) n acc) ≤ suc k + length acc
length-octal f zero n acc h le = rw (octal-last f n acc (omega arith)) (omega arith)
length-octal zero (suc k) n acc h le = absurd (omega arith)
length-octal (suc f) (suc k) n acc h le = elim (dec_lt n 8) [
  | yes small ↦ rw (octal-last (suc f) n acc small) (omega arith)
  | no big ↦
      rw (octal-step (suc f) n acc (omega arith))
        (omega (arith, length-octal f k (n / 8) ((b'0' + n % 8) ∷ acc) (omega arith) (omega arith)))
]

oct_atoi-blanks : (k : ℕ) (s : List ℕ) → oct_atoi (replicate k b' ' ++ s) ≡ oct_atoi s
unfolding oct_atoi
oct_atoi-blanks zero s = refl
oct_atoi-blanks (suc k) s = oct_atoi-blanks k s

pub oct_atoi-digit :
    (d : ℕ) (p : List ℕ) → oct_atoi ((b'0' + d) ∷ p) ≡ oct_digits 0 ((b'0' + d) ∷ p)
unfolding oct_atoi
oct_atoi-digit d p = ground arith

oct_digits-nul : (v : ℕ) (p : List ℕ) → oct_digits v (0 ∷ p) ≡ some v
unfolding oct_digits
oct_digits-nul v p = refl

-- A number below 2 ^ 32 that is printed in octal and ended by a NUL is read back, whatever stands
-- behind it.
pub oct_atoi-format_6o :
    (n : ℕ) (rest : List ℕ) → n < uint_mod → oct_atoi (format_6o n ++ (0 ∷ rest)) ≡ some n
unfolding format_6o
oct_atoi-format_6o n rest w =
    rw (append_assoc (replicate (6 - length (octal 11 n [])) b' ') (octal 11 n []) (0 ∷ rest)) (
      rw (oct_atoi-blanks (6 - length (octal 11 n [])) (octal 11 n [] ++ (0 ∷ rest))) (
        rw (octal-append 11 n [] (0 ∷ rest)) (
          let (d, p, e) = octal-digit 10 n (0 ∷ rest) (omega arith) in
          rw e (
            rw (oct_atoi-digit d p) (
              rw (← e)
                (oct_digits-octal 10 n (0 ∷ rest) (omega arith) w ∙ oct_digits-nul n rest))))))

-- The field that `%6o` prints is six wide for every number with at most six octal digits.
pub length-format_6o : (n : ℕ) → n < 8 ^ 6 → length (format_6o n) ≡ 6
unfolding format_6o
length-format_6o n h = omega (
  arith,
  length-append (replicate (6 - length (octal 11 n [])) b' ') (octal 11 n []),
  length-octal 10 5 n [] (omega arith) (omega arith),
  length-replicate {A = ℕ} (6 - length (octal 11 n [])) b' ',
)
