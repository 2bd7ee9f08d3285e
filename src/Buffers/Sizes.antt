-- ===== src/Buffers/Sizes.antt =====
-- tlm/tlm_lib.c: sizes of the records that are given out, and lists cut at a position.
use ndmpd.Common.{
  take-drop, length-take, ◌⊎◌, ℕ, zero, suc, ◌+◌, ◌-◌, ◌%◌, ◌≤◌, ◌<◌, ◌≡◌, refl, ap, ◌∙◌, List, [],
  ◌∷◌, ◌++◌, ltb, length, length-append, length-drop, take, drop, arith, Bool-cases, inl, inr,
}
use ndmpd.Buffers.{
  TlmBuffers, aligned, min, space, granted, grant_write, grant_read, tlm_unget_read_buffer,
  tlm_unget_write_buffer, overlay, slice,
}

-- The size granted is the size asked for, rounded up to whole records, or all there is left if that
-- is less.
pub granted_lem :
    (want : ℕ) (b : TlmBuffers)
    → (granted want b ≤ space b)
      × ((granted want b ≡ space b)
          ⊎ ((want ≤ granted want b) × (granted want b < want + 512) × (granted want b % 512 ≡ 0)))
unfolding granted aligned
granted_lem want b = elim (Bool-cases (ltb (space b) (aligned want))) [
  | inl e ↦ rw e (omega arith, inl refl)
  | inr e ↦ rw e (ground arith, inr (omega arith, omega arith, omega arith))
]

-- A record that was given out whole is taken back.
unget-grant :
    (want : ℕ) (b : TlmBuffers)
    → aligned want ≤ space b
    → (tlm_unget_read_buffer want (grant_read want b) ≡ b)
      × ((tlm_unget_write_buffer want (grant_write want b)).tb_buffer_spot ≡ b.tb_buffer_spot)
unfolding tlm_unget_read_buffer grant_read tlm_unget_write_buffer grant_write granted
unget-grant want b h =
    let e : min (aligned want) (space b) ≡ aligned want = ground (arith, h) in
    let u : b.tb_buffer_spot
          + min (aligned want) (space b)
          - min (aligned want) (b.tb_buffer_spot + min (aligned want) (space b))
        ≡ b.tb_buffer_spot =
      ground (arith, e) in
    (λ i. record b { tb_buffer_spot = u i }, u)

take-append : (s t u : List ℕ) (n : ℕ) → n ≡ length s + length t → take n (s ++ (t ++ u)) ≡ s ++ t
take-append [] [] u zero e = refl
take-append [] [] u (suc n) e = absurd (omega (arith, e))
take-append [] (c ∷ t) u zero e = absurd (omega (arith, e))
take-append [] (c ∷ t) u (suc n) e = ap (λ r. c ∷ r) (take-append [] t u n (omega (arith, e)))
take-append (c ∷ s) t u zero e = absurd (omega (arith, e))
take-append (c ∷ s) t u (suc n) e = ap (λ r. c ∷ r) (take-append s t u n (omega (arith, e)))

-- bytes written at a position extend what is before it
pub take-overlay :
    (mem : List ℕ) (spot : ℕ) (bytes : List ℕ)
    → spot ≤ length mem
    → take (spot + length bytes) (overlay mem spot bytes) ≡ take spot mem ++ bytes
take-overlay mem spot bytes h =
    take-append (take spot mem) bytes (drop (spot + length bytes) mem) (spot + length bytes)
      (omega (arith, length-take spot mem h))

pub length-overlay :
    (mem : List ℕ) (spot : ℕ) (bytes : List ℕ)
    → spot + length bytes ≤ length mem
    → length (overlay mem spot bytes) ≡ length mem
length-overlay mem spot bytes h = omega (
  arith,
  length-append (take spot mem) (bytes ++ drop (spot + length bytes) mem),
  length-append bytes (drop (spot + length bytes) mem),
  length-drop (spot + length bytes) mem,
  length-take spot mem (omega (arith, h)),
)

zero_plus : (n : ℕ) → 0 + n ≡ n
zero_plus n = omega arith

suc_plus : (a b : ℕ) → suc a + b ≡ suc (a + b)
suc_plus a b = omega arith

-- a slice and what is behind it
pub slice-rest :
    (mem : List ℕ) (spot n : ℕ) → slice mem spot n ++ drop (spot + n) mem ≡ drop spot mem
slice-rest mem zero n = ap (λ k. take n mem ++ drop k mem) (zero_plus n) ∙ take-drop n mem
slice-rest [] (suc spot) zero = ap (λ (k : ℕ). drop {A = ℕ} k []) (suc_plus spot 0)
slice-rest [] (suc spot) (suc n) = ap (λ (k : ℕ). drop {A = ℕ} k []) (suc_plus spot (suc n))
slice-rest (c ∷ mem) (suc spot) n =
    ap (λ k. slice mem spot n ++ drop k (c ∷ mem)) (suc_plus spot n) ∙ slice-rest mem spot n
