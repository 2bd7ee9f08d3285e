-- ===== src/Base64/Alphabet.antt =====
-- The alphabet of src/ndmpd_base64.c: a character and its index determine one another.
use ndmpd.Common.{
  ℕ, ◌+◌, ◌*◌, ◌/◌, ◌%◌, ◌<◌, ◌≡◌, refl, Bool, true, false, ◌||◌, List, [], ◌∷◌, ◌++◌, ◌==◌,
  Bool-cases, inl, inr, arith, not, ltb,
}
use ndmpd.Common.Bytes.{passes, passes_at, IsByte, and_fc, and_03, and_f0, and_0f, and_c0}
use ndmpd.Common.Bytes.{and_3f, and_30, and_3c}
use ndmpd.Base64.{
  b64_data, b64_char, Outcome, done, null, overflow, overread, strchr, sextet_of, sextets,
  decode_group, not_end,
}

-- the table is followed by a NUL somewhere
abbrev pub HasNul : List ℕ → Type 0
HasNul after = (n : ℕ) × (strchr after 0 ≡ done n)

abbrev is_done : ℕ → Outcome ℕ → Bool
is_done v (done n) = n == v
is_done v null = false
is_done v overflow = false
is_done v overread = false

is_done_eq : (v : ℕ) (o : Outcome ℕ) → is_done v o ≡ true → o ≡ done v
is_done_eq v o h = ground arith

module _ (after : List ℕ) where
  pub sextet_of-b64_char : (v : ℕ) → v < 64 → sextet_of after (b64_char v) ≡ done v
  unfolding sextet_of strchr passes b64_char
  sextet_of-b64_char v h =
      is_done_eq v (sextet_of after (b64_char v))
        (passes_at (λ k. is_done k (sextet_of after (b64_char k))) 64 v refl h)

pub not_end-b64_char : (v : ℕ) → v < 64 → not_end (b64_char v) ≡ true
unfolding not_end passes b64_char
not_end-b64_char v h = passes_at (λ k. not_end (b64_char k)) 64 v refl h

-- What the masks and shifts of the encoder say in arithmetic.
pub sextets_lem :
    (a b c : ℕ)
    → IsByte a
    → IsByte b
    → IsByte c
    → sextets a b c ≡ (a / 4, a % 4 * 16 + b / 16, b % 16 * 4 + c / 64, c % 64)
unfolding sextets
sextets_lem a b c ha hb hc =
    rw (and_fc a ha, and_03 a ha, and_f0 b hb, and_0f b hb, and_c0 c hc, and_3f c hc)

module _ (after : List ℕ) where
  -- A group of four table characters decodes to the bytes that the indices hold.
  pub decode_group_lem :
      (s t u v : ℕ)
      → s < 64
      → t < 64
      → u < 64
      → v < 64
      → decode_group after (b64_char s) (b64_char t) (b64_char u) (b64_char v)
        ≡ done (s * 4 + t / 16, t % 16 * 16 + u / 4, u % 4 * 64 + v)
  unfolding decode_group
  decode_group_lem s t u v hs ht hu hv =
      rw
        (
          sextet_of-b64_char after s hs,
          sextet_of-b64_char after t ht,
          sextet_of-b64_char after u hu,
          sextet_of-b64_char after v hv,
        )
        (ground (
          arith,
          and_30 t (omega arith),
          and_0f t (omega arith),
          and_3c u (omega arith),
          and_03 u (omega arith),
        ))

  strchr-nul_step :
      (x m : ℕ) (mem : List ℕ)
      → (x == 0) ≡ false
      → strchr (mem ++ after) 0 ≡ done m
      → strchr (x ∷ mem ++ after) 0 ≡ done (m + 1)
  unfolding strchr
  strchr-nul_step x m mem e p = ground arith

  -- With a NUL somewhere after the table the search for a NUL stops.
  strchr-nul :
      (mem : List ℕ) {n : ℕ}
      → strchr after 0 ≡ done n
      → (m : ℕ) × (strchr (mem ++ after) 0 ≡ done m)
  unfolding strchr
  strchr-nul [] {n} h = (n, h)
  strchr-nul (x ∷ mem) {n} h = elim (Bool-cases (x == 0)) [
    | inl e ↦ (0, rw (e, strchr))
    | inr e ↦ let (m, p) = strchr-nul mem h in (m + 1, strchr-nul_step x m mem e p)
  ]

  pub sextet_of-nul : HasNul after → (m : ℕ) × (sextet_of after 0 ≡ done m)
  unfolding sextet_of
  sextet_of-nul (n, h) = let (m, p) = strchr-nul b64_data h in (m % 256, rw p)

  abbrev is_sextet : Outcome ℕ → Bool
  is_sextet (done n) = ltb n 64
  is_sextet null = false
  is_sextet overflow = false
  is_sextet overread = false

  is_sextet-done : (o : Outcome ℕ) → is_sextet o ≡ true → (v : ℕ) × (o ≡ done v)
  is_sextet-done (done n) h = (n, refl)
  is_sextet-done null h = absurd (cc)
  is_sextet-done overflow h = absurd (cc)
  is_sextet-done overread h = absurd (cc)

  -- A character that the loop accepts is in the table.
  pub sextet_of-not_end :
      (c : ℕ) → IsByte c → not_end c ≡ true → (v : ℕ) × (sextet_of after c ≡ done v)
  unfolding sextet_of strchr passes not_end
  sextet_of-not_end c b h = is_sextet-done _ (
      ground
        (arith, passes_at (λ k. not (not_end k) || is_sextet (sextet_of after k)) 256 c refl b))
