-- ===== src/Base64.antt =====
-- src/ndmpd_base64.c: the base64 form in which the CRAM-MD5 password is stored.
pub mod Alphabet
pub mod Sizes
pub mod Roundtrip
mod Tests
use Prim.Native.Nat.{bit_and}
use ndmpd.Common.{
  ℕ, ◌+◌, ◌*◌, ◌/◌, ◌%◌, Bool, true, false, ◌&&◌, ◌||◌, not, List, [], ◌∷◌, ◌++◌, leb, ◌==◌,
  if◌then◌else◌, length, get_or,
}
use ndmpd.Common.Bytes.{codes}

-- A `char` is its byte, a C string the list of its bytes before the NUL.
abbrev pub b64_data : List ℕ
b64_data = codes "ABCDEFGHIJKLMNOPQRSTUVWXYZabcdefghijklmnopqrstuvwxyz0123456789+/"

abbrev pub ndmp_enc_len : ℕ
ndmp_enc_len = 1024

abbrev pub ndmp_dec_len : ℕ
ndmp_dec_len = 256

abbrev pub between : ℕ → ℕ → ℕ → Bool
between lo hi c = leb lo c && leb c hi

-- `isalnum` in the C locale
abbrev isalnum : ℕ → Bool
isalnum c = between b'A' b'Z' c || between b'a' b'z' c || between b'0' b'9' c

ndmp_is_base64 : ℕ → Bool
ndmp_is_base64 c = isalnum c || c == b'+' || c == b'/'

-- How a call ends: `overflow` has written past the end of the allocated result, `overread` has
-- read past the memory that is known to follow `b64_data`.
pub data Outcome {ℓ} (A : Type ℓ) : Type ℓ where
  done : A → Outcome A
  null : Outcome A
  overflow : Outcome A
  overread : Outcome A

infixl 5 ◌>>=◌
abbrev pub ◌>>=◌ {ℓ κ} : {A : Type ℓ} {B : Type κ} → Outcome A → (A → Outcome B) → Outcome B
done a >>= f = f a
null >>= f = null
overflow >>= f = overflow
overread >>= f = overread

-- The bytes go to `ret` one after the other and a NUL goes last, into `cap` bytes of memory.
abbrev pub store_string : ℕ → List ℕ → Outcome (List ℕ)
store_string cap out = if leb (length out + 1) cap then done out else overflow

-- `i` and the first `i` bytes of `arr_3`
pub data Arr3 : Type 0 where
  zero_in : Arr3
  one_in : ℕ → Arr3
  two_in : ℕ → ℕ → Arr3

unfoldable pub b64_char : ℕ → ℕ
b64_char i = get_or b64_data (i % 256) 0

-- `arr_4` from `arr_3`, as indices
unfoldable pub sextets : ℕ → ℕ → ℕ → ℕ × ℕ × ℕ × ℕ
sextets a b c = (
  bit_and a 0xfc / 4,
  bit_and a 0x03 * 16 + bit_and b 0xf0 / 16,
  bit_and b 0x0f * 4 + bit_and c 0xc0 / 64,
  bit_and c 0x3f,
)

-- the part after the loop: `i + 1` characters, then `=` up to four
unfoldable pub encode_rest : Arr3 → List ℕ
encode_rest zero_in = []
encode_rest (one_in a) =
    let (s, t, u, v) = sextets a 0 0 in b64_char s ∷ b64_char t ∷ b'=' ∷ b'=' ∷ []
encode_rest (two_in a b) =
    let (s, t, u, v) = sextets a b 0 in b64_char s ∷ b64_char t ∷ b64_char u ∷ b'=' ∷ []

unfoldable pub encode_loop : Arr3 → List ℕ → List ℕ
encode_loop arr [] = encode_rest arr
encode_loop zero_in (x ∷ str) = encode_loop (one_in x) str
encode_loop (one_in a) (x ∷ str) = encode_loop (two_in a x) str
encode_loop (two_in a b) (x ∷ str) =
    let (s, t, u, v) = sextets a b x in
    b64_char s ∷ b64_char t ∷ b64_char u ∷ b64_char v ∷ encode_loop zero_in str

-- The Boolean says whether `malloc` gives memory.
unfoldable pub ndmp_base64_encode : Bool → List ℕ → Outcome (List ℕ)
ndmp_base64_encode memory str =
    if memory then store_string ndmp_enc_len (encode_loop zero_in str) else null

-- `i` and the first `i` bytes of `arr_4`
pub data Arr4 : Type 0 where
  zero_in : Arr4
  one_in : ℕ → Arr4
  two_in : ℕ → ℕ → Arr4
  three_in : ℕ → ℕ → ℕ → Arr4

-- `strchr` over memory that holds `mem`, as an offset
unfoldable pub strchr : List ℕ → ℕ → Outcome ℕ
strchr [] c = overread
strchr (x ∷ mem) c = elim (x == c) [
  | true ↦ done 0
  | false ↦ elim (x == 0) [ true ↦ null | false ↦ strchr mem c >>= λ n. done (n + 1) ]
]

-- the loop goes on at this character
pub not_end : ℕ → Bool
unfolding ndmp_is_base64
not_end c = not (c == b'=') && ndmp_is_base64 c

-- What lies in memory after `b64_data`, an array of 64 characters without a NUL, is a parameter.
module _ (after : List ℕ) where
  -- `arr_4[i] = (int)(p - b64_data)`, cut to a `char`
  pub sextet_of : ℕ → Outcome ℕ
  sextet_of c = strchr (b64_data ++ after) c >>= λ n. done (n % 256)

  pub decode_group : ℕ → ℕ → ℕ → ℕ → Outcome (ℕ × ℕ × ℕ)
  decode_group c₀ c₁ c₂ c₃ = do
    s ← sextet_of c₀
    t ← sextet_of c₁
    u ← sextet_of c₂
    v ← sextet_of c₃
    done (
      (s * 4 + bit_and t 0x30 / 16) % 256,
      (bit_and t 0xf * 16 + bit_and u 0x3c / 4) % 256,
      (bit_and u 0x3 * 64 + v) % 256,
    )

  -- the part after the loop: the missing characters are NULs, and `i - 1` bytes are kept
  pub decode_rest : Arr4 → Outcome (List ℕ)
  decode_rest zero_in = done []
  decode_rest (one_in a) = decode_group a 0 0 0 >>= λ g. done []
  decode_rest (two_in a b) = decode_group a b 0 0 >>= λ g. done (g.0 ∷ [])
  decode_rest (three_in a b c) = decode_group a b c 0 >>= λ g. done (g.0 ∷ g.1 ∷ [])

  pub decode_loop : Arr4 → List ℕ → Outcome (List ℕ)
  decode_loop arr [] = decode_rest arr
  decode_loop zero_in (x ∷ str) = elim (not_end x) [
    | true ↦ decode_loop (one_in x) str
    | false ↦ decode_rest zero_in
  ]
  decode_loop (one_in a) (x ∷ str) = elim (not_end x) [
    | true ↦ decode_loop (two_in a x) str
    | false ↦ decode_rest (one_in a)
  ]
  decode_loop (two_in a b) (x ∷ str) = elim (not_end x) [
    | true ↦ decode_loop (three_in a b x) str
    | false ↦ decode_rest (two_in a b)
  ]
  decode_loop (three_in a b c) (x ∷ str) = elim (not_end x) [
    | true ↦ decode_group a b c x >>= λ g.
        decode_loop zero_in str >>= λ rest. done (g.0 ∷ g.1 ∷ g.2 ∷ rest)
    | false ↦ decode_rest (three_in a b c)
  ]

  pub ndmp_base64_decode : Bool → List ℕ → Outcome (List ℕ)
  ndmp_base64_decode memory str =
      if memory then decode_loop zero_in str >>= store_string ndmp_dec_len else null
