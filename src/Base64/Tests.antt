-- ===== src/Base64/Tests.antt =====
-- src/ndmpd_base64.c on concrete texts.
use ndmpd.Common.{ℕ, ◌≡◌, refl, true, List, [], ◌∷◌, arith, leb, if◌then◌else◌, length, replicate}
use ndmpd.Common.Bytes.{codes}
use ndmpd.Base64.{
  done, overflow, overread, ◌>>=◌, ndmp_base64_encode, ndmp_base64_decode, encode_loop, encode_rest,
  decode_loop, decode_rest, decode_group, sextet_of, strchr, sextets, b64_char, not_end, Arr3,
}
use ndmpd.Base64.Alphabet.{HasNul}
use ndmpd.Base64.Sizes.{encode_overflow}
use ndmpd.Base64.Roundtrip.{decode-encode}

-- two other bytes, and then a NUL
abbrev after : List ℕ
after = 7 ∷ 65 ∷ 0 ∷ []

after-HasNul : HasNul after
unfolding strchr
after-HasNul = (2, refl)

encode_runs : ndmp_base64_encode true (codes "admin") ≡ done (codes "YWRtaW4=")
unfolding ndmp_base64_encode encode_loop encode_rest sextets b64_char
encode_runs = refl

-- With nothing known of the memory after the table, a text whose length is no multiple of four
-- makes the decoder search past it.
decode_overreads : ndmp_base64_decode [] true (codes "YWRtaW4=") ≡ overread
unfolding ndmp_base64_decode decode_loop decode_rest decode_group sextet_of strchr not_end
decode_overreads = refl

abbrev long : List ℕ
long = replicate 766 b'x'

encode_overflow_example :
    ndmp_base64_encode true long
    ≡ (if leb (length long) 765 then done (encode_loop Arr3.zero_in long) else overflow)
encode_overflow_example = encode_overflow long

decode-encode_example :
    (ndmp_base64_encode true (codes "admin") >>= ndmp_base64_decode after true)
    ≡ done (codes "admin")
decode-encode_example = decode-encode after after-HasNul (codes "admin") (omega arith) (omega arith)
