-- ===== src/Connect/Tests.antt =====
-- src/ndmpd_connect.c on a concrete configuration.
use ndmpd.Common.{ℕ, ◌≡◌, ◌↔◌, refl, true, List, [], ◌∷◌, some, arith, take, replicate}
use ndmpd.Common.Bytes.{codes}
use ndmpd.Protocol.{no_err}
use ndmpd.Base64.{done, strchr, ndmp_base64_encode, encode_loop, encode_rest, sextets, b64_char}
use ndmpd.Base64.Alphabet.{HasNul}
use ndmpd.Connect.{Config, auth_text, auth_md5, ndmpd_connect_client_auth_v3}
use ndmpd.Connect.Credentials.{IsGiven, digest_message, client_auth-text_iff, client_auth-md5_iff}

abbrev config : Config
config = record {
  cleartext_username = some (codes "root");
  cleartext_password = some (codes "pass");
  cram_md5_username = some (codes "root");
  cram_md5_password = some (codes "YWRtaW4=");
}

-- in place of MD5: the first 16 bytes of the message
abbrev prefix : List ℕ → List ℕ
prefix message = take 16 message

abbrev after : List ℕ
after = 0 ∷ []

after-HasNul : HasNul after
unfolding strchr
after-HasNul = (0, refl)

abbrev challenge : List ℕ
challenge = replicate 64 9

stored : ndmp_base64_encode true (codes "admin") ≡ done (codes "YWRtaW4=")
unfolding ndmp_base64_encode encode_loop encode_rest sextets b64_char
stored = refl

client_auth-text_iff_example :
    (ndmpd_connect_client_auth_v3 prefix after true config challenge
        (auth_text (codes "root") (codes "pass"))
      ≡ done (true, no_err))
    ↔ (IsGiven (some (codes "root")) (codes "root") × IsGiven (some (codes "pass")) (codes "pass"))
client_auth-text_iff_example =
    client_auth-text_iff prefix after true config challenge (codes "root") (codes "pass")

client_auth-md5_iff_example :
    (ndmpd_connect_client_auth_v3 prefix after true config challenge
        (auth_md5 (codes "root") (codes "admin"))
      ≡ done (true, no_err))
    ↔ (IsGiven (some (codes "root")) (codes "root")
        × (take 16 (prefix (digest_message (codes "admin") challenge)) ≡ take 16 (codes "admin")))
client_auth-md5_iff_example =
    client_auth-md5_iff prefix after after-HasNul config b'a' (codes "dmin") challenge
      (codes "root") (codes "admin") (omega arith) (omega arith) refl stored refl
