-- ===== src/Base64/Sizes.antt =====
-- src/ndmpd_base64.c: how long the results are, against the 1024 and 256 bytes allocated for them.
use ndmpd.Common.{
  ℕ, suc, ◌+◌, ◌*◌, ◌/◌, ◌%◌, ◌≤◌, ◌≡◌, refl, true, List, [], ◌∷◌, arith, All, length, leb,
  if◌then◌else◌, Bool-cases, inl, inr,
}
use Prim.Native.Nat.{bit_and}
use ndmpd.Common.Bytes.{IsByte}
use ndmpd.Base64.{
  Outcome, done, overflow, ◌>>=◌, sextet_of, decode_group, not_end, encode_loop, decode_loop,
  decode_rest, Arr3, Arr4, ndmp_base64_encode, ndmp_base64_decode, encode_rest,
}
use ndmpd.Base64.Alphabet.{HasNul, sextet_of-nul, sextet_of-not_end}

pub length-encode_loop :
    (str : List ℕ) → length (encode_loop Arr3.zero_in str) ≡ 4 * ((length str + 2) / 3)
unfolding encode_loop encode_rest
length-encode_loop [] = omega arith
length-encode_loop (a ∷ []) = omega arith
length-encode_loop (a ∷ b ∷ []) = omega arith
length-encode_loop (a ∷ b ∷ c ∷ str) = omega (arith, length-encode_loop str)

-- With memory, the encoder gives four characters for each three bytes begun if the text has at most
-- 765 bytes, and on every longer text writes past its 1024 bytes.
pub encode_overflow :
    (str : List ℕ)
    → ndmp_base64_encode true str
      ≡ (if leb (length str) 765 then done (encode_loop Arr3.zero_in str) else overflow)
unfolding ndmp_base64_encode
encode_overflow str = ground (arith, length-encode_loop str)

module _ (after : List ℕ) (nul : HasNul after) where
  -- a run of the decoder that ends normally, with at most three bytes for `k` characters
  abbrev Fits : ℕ → Outcome (List ℕ) → Type 0
  Fits k o = (out : List ℕ) × (o ≡ done out) × (4 * length out ≤ 3 * k)

  abbrev IsSextet : ℕ → Type 0
  IsSextet c = (v : ℕ) × (sextet_of after c ≡ done v)

  decode_group_total :
      (a b c d : ℕ)
      → IsSextet a
      → IsSextet b
      → IsSextet c
      → IsSextet d
      → (g : ℕ × ℕ × ℕ) × (decode_group after a b c d ≡ done g)
  unfolding decode_group
  decode_group_total a b c d (s, p) (t, q) (u, r) (v, w) = (
    (
      (s * 4 + bit_and t 0x30 / 16) % 256,
      (bit_and t 0xf * 16 + bit_and u 0x3c / 4) % 256,
      (bit_and u 0x3 * 64 + v) % 256,
    ),
    ground (arith, p, q, r, w),
  )

  abbrev IsOpen : Arr4 → Type 0
  IsOpen Arr4.zero_in = Unit
  IsOpen (Arr4.one_in a) = IsSextet a
  IsOpen (Arr4.two_in a b) = IsSextet a × IsSextet b
  IsOpen (Arr4.three_in a b c) = IsSextet a × IsSextet b × IsSextet c

  abbrev held : Arr4 → ℕ
  held Arr4.zero_in = 0
  held (Arr4.one_in a) = 1
  held (Arr4.two_in a b) = 2
  held (Arr4.three_in a b c) = 3

  decode_rest-Fits : (arr : Arr4) → IsOpen arr → Fits (held arr) (decode_rest after arr)
  unfolding decode_rest
  decode_rest-Fits Arr4.zero_in h = ([], refl, omega arith)
  decode_rest-Fits (Arr4.one_in a) h =
      let n = sextet_of-nul after nul in
      let (g, p) = decode_group_total a 0 0 0 h n n n in ([], rw p, omega arith)
  decode_rest-Fits (Arr4.two_in a b) h =
      let n = sextet_of-nul after nul in
      let (g, p) = decode_group_total a b 0 0 h.0 h.1 n n in (g.0 ∷ [], rw p, omega arith)
  decode_rest-Fits (Arr4.three_in a b c) h =
      let n = sextet_of-nul after nul in
      let (g, p) = decode_group_total a b c 0 h.0 h.1 h.2 n in (g.0 ∷ g.1 ∷ [], rw p, omega arith)

  Fits-mono : {k m : ℕ} {o : Outcome (List ℕ)} → k ≤ m → Fits k o → Fits m o
  Fits-mono h (out, e, b) = (out, e, omega arith)

  decode_rest_within :
      (arr : Arr4) (n : ℕ) → IsOpen arr → Fits (held arr + n) (decode_rest after arr)
  decode_rest_within arr n h = Fits-mono {k = held arr} (omega arith) (decode_rest-Fits arr h)

  -- a full group, then the rest of the text
  Fits-group :
      (a b c d k : ℕ) (str : List ℕ)
      → IsSextet a
      → IsSextet b
      → IsSextet c
      → IsSextet d
      → Fits k (decode_loop after Arr4.zero_in str)
      → Fits (k + 4) (
          decode_group after a b c d >>= λ g.
          decode_loop after Arr4.zero_in str >>= λ rest. done (g.0 ∷ g.1 ∷ g.2 ∷ rest))
  Fits-group a b c d k str ha hb hc hd (out, e, h) =
      let (g, p) = decode_group_total a b c d ha hb hc hd in
      (g.0 ∷ g.1 ∷ g.2 ∷ out, rw (p, e), omega arith)

  decode_loop-Fits :
      (arr : Arr4) (str : List ℕ)
      → IsOpen arr
      → All IsByte str
      → Fits (held arr + length str) (decode_loop after arr str)
  unfolding decode_loop
  decode_loop-Fits arr [] h b = decode_rest_within arr 0 h
  decode_loop-Fits Arr4.zero_in (x ∷ str) h b = elim (Bool-cases (not_end x)) [
    | inl e ↦
        rw (e, decode_loop)
          (Fits-mono (omega arith)
            (decode_loop-Fits (Arr4.one_in x) str (sextet_of-not_end after x b.0 e) b.1))
    | inr e ↦ rw (e, decode_loop) (decode_rest_within Arr4.zero_in (suc (length str)) h)
  ]
  decode_loop-Fits (Arr4.one_in a) (x ∷ str) h b = elim (Bool-cases (not_end x)) [
    | inl e ↦
        rw (e, decode_loop)
          (Fits-mono (omega arith)
            (decode_loop-Fits (Arr4.two_in a x) str (h, sextet_of-not_end after x b.0 e) b.1))
    | inr e ↦ rw (e, decode_loop) (decode_rest_within (Arr4.one_in a) (suc (length str)) h)
  ]
  decode_loop-Fits (Arr4.two_in a c) (x ∷ str) h b = elim (Bool-cases (not_end x)) [
    | inl e ↦
        rw (e, decode_loop)
          (Fits-mono (omega arith) (
            decode_loop-Fits (Arr4.three_in a c x) str (h.0, h.1, sextet_of-not_end after x b.0 e)
              b.1))
    | inr e ↦ rw (e, decode_loop) (decode_rest_within (Arr4.two_in a c) (suc (length str)) h)
  ]
  decode_loop-Fits (Arr4.three_in a c d) (x ∷ str) h b = elim (Bool-cases (not_end x)) [
    | inl e ↦
        rw (e, decode_loop)
          (Fits-mono (omega arith) (
            Fits-group a c d x (0 + length str) str h.0 h.1 h.2 (sextet_of-not_end after x b.0 e)
              (decode_loop-Fits Arr4.zero_in str tt b.1)))
    | inr e ↦ rw (e, decode_loop) (decode_rest_within (Arr4.three_in a c d) (suc (length str)) h)
  ]

  -- With memory and a NUL somewhere after the table, the decoder returns a string for every text of
  -- at most 341 bytes, whatever they are: it reports no error, and reads and writes inside its
  -- arrays but for that NUL. Four characters give at most three bytes.
  decode_total :
      (str : List ℕ)
      → All IsByte str
      → length str ≤ 341
      → (out : List ℕ) × (ndmp_base64_decode after true str ≡ done out)
        × (4 * length out ≤ 3 * length str)
  unfolding ndmp_base64_decode
  decode_total str b short =
      let (out, e, h) = decode_loop-Fits Arr4.zero_in str tt b in (out, ground arith, omega arith)
