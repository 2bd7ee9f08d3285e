-- ===== src/Connect.antt =====
-- src/ndmpd_connect.c: how a client is authenticated. A property that is not set is `none`, a C
-- string is the list of its bytes before the NUL.
pub mod Credentials
mod Tests
use ndmpd.Common.{
  ℕ, ◌+◌, ◌-◌, ◌*◌, Bool, true, false, ◌&&◌, ◌||◌, not, List, [], ◌∷◌, ◌++◌, ◌==◌, leb,
  if◌then◌else◌, length, take, replicate, Option, none, some,
}
use ndmpd.Protocol.{
  NdmpError, no_err, not_supported_err, not_authorized_err, illegal_args_err, is_no_err,
}
use ndmpd.Base64.{Outcome, done, null, overflow, overread, ndmp_base64_decode}

-- `strcmp(a, b) == 0`
unfoldable pub same_text : List ℕ → List ℕ → Bool
same_text [] [] = true
same_text [] (y ∷ b) = false
same_text (x ∷ a) [] = false
same_text (x ∷ a) (y ∷ b) = x == y && same_text a b

-- `!passwd || !*passwd`
abbrev pub is_unset : Option (List ℕ) → Bool
is_unset none = true
is_unset (some []) = true
is_unset (some (c ∷ s)) = false

abbrev pub text_of : Option (List ℕ) → List ℕ
text_of none = []
text_of (some s) = s

-- the properties that `ndmpd_get_prop` is asked for
pub record Config : Type 0 where
  pub cleartext_username : Option (List ℕ)
  pub cleartext_password : Option (List ℕ)
  pub cram_md5_username : Option (List ℕ)
  pub cram_md5_password : Option (List ℕ)

-- `auth_data` of a request
pub data AuthData : Type 0 where
  auth_none : AuthData
  auth_text : List ℕ → List ℕ → AuthData
  auth_md5 : List ℕ → List ℕ → AuthData
  auth_invalid : AuthData

unfoldable pub ndmpd_connect_auth_text : Config → List ℕ → List ℕ → List ℕ → NdmpError
unfolding same_text
ndmpd_connect_auth_text config uname auth_id auth_password =
    if not (same_text uname auth_id)
    then not_authorized_err
    else if is_unset config.cleartext_password
    then not_authorized_err
    else if not (same_text auth_password (text_of config.cleartext_password))
    then not_authorized_err
    else no_err

abbrev pub md5_pass_limit : ℕ
md5_pass_limit = 32

abbrev pub md5_challenge_size : ℕ
md5_challenge_size = 64

-- The bytes that `create_md5_digest` writes to `buf`: `strlcpy` copies one byte less than its limit
-- and adds a NUL. MD5 is given the first 128 of them.
unfoldable pub digest_buf : List ℕ → List ℕ → List ℕ
digest_buf passwd challenge =
    let pwd = take md5_pass_limit passwd in
    pwd
    ++ (replicate (md5_challenge_size - 2 * length pwd) 0
        ++ (take md5_challenge_size challenge ++ (take (md5_pass_limit - 1) passwd ++ (0 ∷ []))))

-- `md5` is the library's MD5 of a message. For the base64 decoding, `after` is the memory behind its
-- table and `memory` whether it is given some.
module _ (md5 : List ℕ → List ℕ) (after : List ℕ) (memory : Bool) where
  pub create_md5_digest : List ℕ → List ℕ → List ℕ
  unfolding digest_buf
  create_md5_digest passwd challenge = md5 (take 128 (digest_buf passwd challenge))

  -- `memcmp` of the 16 bytes of the digests
  pub check_digest : List ℕ → List ℕ → List ℕ → Outcome NdmpError
  unfolding create_md5_digest same_text
  check_digest auth_digest challenge [] = done not_authorized_err
  check_digest auth_digest challenge (c ∷ passwd) = done (
      if same_text (take 16 (create_md5_digest (c ∷ passwd) challenge)) (take 16 auth_digest)
      then no_err
      else not_authorized_err)

  -- what is done with the decoded password, a null pointer too
  check_decoded : List ℕ → List ℕ → Outcome (List ℕ) → Outcome NdmpError
  unfolding check_digest
  check_decoded auth_digest challenge (done passwd) = check_digest auth_digest challenge passwd
  check_decoded auth_digest challenge null = done not_authorized_err
  check_decoded auth_digest challenge overflow = overflow
  check_decoded auth_digest challenge overread = overread

  pub ndmpd_connect_auth_md5 : Config → List ℕ → List ℕ → List ℕ → List ℕ → Outcome NdmpError
  unfolding check_decoded same_text
  ndmpd_connect_auth_md5 config uname auth_id auth_digest challenge =
      if not (same_text uname auth_id)
      then done not_authorized_err
      else if is_unset config.cram_md5_password
      then done not_authorized_err
      else check_decoded auth_digest challenge
          (ndmp_base64_decode after memory (text_of config.cram_md5_password))

  -- the switch of `ndmpd_connect_client_auth_v3`
  check_auth : Config → List ℕ → AuthData → Outcome NdmpError
  unfolding ndmpd_connect_auth_text ndmpd_connect_auth_md5
  check_auth config challenge auth_none = done not_supported_err
  check_auth config challenge (auth_text auth_id auth_password) =
      if is_unset config.cleartext_username
      then done not_authorized_err
      else done
          (ndmpd_connect_auth_text config (text_of config.cleartext_username) auth_id auth_password)
  check_auth config challenge (auth_md5 auth_id auth_digest) =
      if is_unset config.cram_md5_username
      then done not_authorized_err
      else ndmpd_connect_auth_md5 config (text_of config.cram_md5_username) auth_id auth_digest
          challenge
  check_auth config challenge auth_invalid = done illegal_args_err

  -- whether the connection is authorized, which each way sets, and the reply
  set_authorized : Outcome NdmpError → Outcome (Bool × NdmpError)
  set_authorized (done e) = done (is_no_err e, e)
  set_authorized null = null
  set_authorized overflow = overflow
  set_authorized overread = overread

  pub ndmpd_connect_client_auth_v3 : Config → List ℕ → AuthData → Outcome (Bool × NdmpError)
  unfolding set_authorized check_auth
  ndmpd_connect_client_auth_v3 config challenge auth_data =
      set_authorized (check_auth config challenge auth_data)
