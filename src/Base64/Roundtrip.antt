-- ===== src/Base64/Roundtrip.antt =====
-- src/ndmpd_base64.c: the decoder undoes the encoder.
use ndmpd.Common.{
  ℕ, ◌+◌, ◌*◌, ◌/◌, ◌%◌, ◌<◌, ◌≤◌, ◌≡◌, ◌∙◌, refl, true, false, List, [], ◌∷◌, arith, All, length,
}
use ndmpd.Common.Bytes.{IsByte, and_30, and_0f, and_3c}
use ndmpd.Base64.{
  b64_char, done, ◌>>=◌, decode_group, not_end, encode_loop, decode_loop, decode_rest, Arr3, Arr4,
  ndmp_base64_encode, ndmp_base64_decode, encode_rest,
}
use ndmpd.Base64.Alphabet.{
  HasNul, sextet_of-nul, not_end-b64_char, sextet_of-b64_char, sextets_lem, decode_group_lem,
}
use ndmpd.Base64.Sizes.{length-encode_loop}

module _ (after : List ℕ) where
  -- Four table characters at the front of the text give three bytes.
  decode_loop-group :
      (s t u v : ℕ) (text : List ℕ) {rest : List ℕ}
      → s < 64
      → t < 64
      → u < 64
      → v < 64
      → decode_loop after Arr4.zero_in text ≡ done rest
      → decode_loop after Arr4.zero_in (b64_char s ∷ b64_char t ∷ b64_char u ∷ b64_char v ∷ text)
        ≡ done ((s * 4 + t / 16) ∷ (t % 16 * 16 + u / 4) ∷ (u % 4 * 64 + v) ∷ rest)
  unfolding decode_loop
  decode_loop-group s t u v text hs ht hu hv ih =
      rw (not_end-b64_char s hs, decode_loop)
        (rw (not_end-b64_char t ht, decode_loop)
          (rw (not_end-b64_char u hu, decode_loop)
            (rw (not_end-b64_char v hv, decode_loop)
              (rw (decode_group_lem after s t u v hs ht hu hv) (rw ih)))))

  group_of_three :
      (a b c : ℕ) (str : List ℕ) {rest : List ℕ}
      → IsByte a
      → IsByte b
      → IsByte c
      → decode_loop after Arr4.zero_in (encode_loop Arr3.zero_in str) ≡ done rest
      → decode_loop after Arr4.zero_in (encode_loop Arr3.zero_in (a ∷ b ∷ c ∷ str))
        ≡ done (a ∷ b ∷ c ∷ rest)
  unfolding encode_loop
  group_of_three a b c str ha hb hc ih = rw (sextets_lem a b c ha hb hc) (
      decode_loop-group (a / 4) (a % 4 * 16 + b / 16) (b % 16 * 4 + c / 64) (c % 64)
        (encode_loop Arr3.zero_in str) (omega arith) (omega arith) (omega arith) (omega arith) ih
      ∙ ground arith)

module _ (after : List ℕ) (nul : HasNul after) where
  not_end-pad : not_end b'=' ≡ false
  unfolding not_end
  not_end-pad = refl

  -- Two characters and the padding give one byte: what the search of the table finds for the two
  -- NULs does not matter.
  decode_loop-two :
      (s t : ℕ)
      → s < 64
      → t < 64
      → decode_loop after Arr4.zero_in (b64_char s ∷ b64_char t ∷ b'=' ∷ b'=' ∷ [])
        ≡ done ((s * 4 + t / 16) ∷ [])
  unfolding decode_loop decode_rest decode_group
  decode_loop-two s t hs ht =
      let (m, p) = sextet_of-nul after nul in
      rw (not_end-b64_char s hs, decode_loop)
        (rw (not_end-b64_char t ht, decode_loop)
          (rw (not_end-pad, decode_loop)
            (rw (sextet_of-b64_char after s hs, sextet_of-b64_char after t ht, p)
              (ground (arith, and_30 t (omega arith))))))

  decode_loop-three :
      (s t u : ℕ)
      → s < 64
      → t < 64
      → u < 64
      → decode_loop after Arr4.zero_in (b64_char s ∷ b64_char t ∷ b64_char u ∷ b'=' ∷ [])
        ≡ done ((s * 4 + t / 16) ∷ (t % 16 * 16 + u / 4) ∷ [])
  unfolding decode_loop decode_rest decode_group
  decode_loop-three s t u hs ht hu =
      let (m, p) = sextet_of-nul after nul in
      rw (not_end-b64_char s hs, decode_loop)
        (rw (not_end-b64_char t ht, decode_loop)
          (rw (not_end-b64_char u hu, decode_loop)
            (rw (not_end-pad, decode_loop)
              (rw
                (
                  sextet_of-b64_char after s hs,
                  sextet_of-b64_char after t ht,
                  sextet_of-b64_char after u hu,
                  p,
                )
                (ground (
                  arith,
                  and_30 t (omega arith),
                  and_0f t (omega arith),
                  and_3c u (omega arith),
                ))))))

  decode_loop-encode_loop :
      (str : List ℕ)
      → All IsByte str
      → decode_loop after Arr4.zero_in (encode_loop Arr3.zero_in str) ≡ done str
  unfolding encode_loop encode_rest decode_loop decode_rest
  decode_loop-encode_loop [] h = refl
  decode_loop-encode_loop (a ∷ []) h =
      rw (sextets_lem a 0 0 h.0 (omega arith) (omega arith))
        (decode_loop-two (a / 4) (a % 4 * 16 + 0 / 16) (omega arith) (omega arith) ∙ ground arith)
  decode_loop-encode_loop (a ∷ b ∷ []) h = rw (sextets_lem a b 0 h.0 h.1.0 (omega arith)) (
      decode_loop-three (a / 4) (a % 4 * 16 + b / 16) (b % 16 * 4 + 0 / 64) (omega arith)
        (omega arith) (omega arith)
      ∙ ground arith)
  decode_loop-encode_loop (a ∷ b ∷ c ∷ str) h =
      group_of_three after a b c str h.0 h.1.0 h.1.1.0 (decode_loop-encode_loop str h.1.1.1)

  -- What the encoder gives for a text of at most 255 bytes, the decoder takes back to that text,
  -- if both get their memory and a NUL follows the table somewhere in memory.
  pub decode-encode :
      (str : List ℕ)
      → All IsByte str
      → length str ≤ 255
      → (ndmp_base64_encode true str >>= ndmp_base64_decode after true) ≡ done str
  unfolding ndmp_base64_encode ndmp_base64_decode
  decode-encode str h short = ground (arith, length-encode_loop str, decode_loop-encode_loop str h)

  pub decode-nil : ndmp_base64_decode after true [] ≡ done []
  unfolding ndmp_base64_decode decode_loop decode_rest
  decode-nil = refl
