-- ===== src/Connect/Credentials.antt =====
-- src/ndmpd_connect.c: which credentials authorize a client.
use ndmpd.Common.{
  take_all, ℕ, zero, suc, ◌-◌, ◌*◌, ◌≤◌, ◌≡◌, ◌≢◌, ◌↔◌, inl, inr, refl, sym, ap, ◌∙◌, Bool, true,
  false, not, List, [], ◌∷◌, ◌++◌, ==_iff, if◌then◌else◌, length, take, replicate, length-append,
  length-replicate, Option, none, some, arith, Bool-cases, All, append_assoc,
}
use ndmpd.Common.Bytes.{IsByte}
use ndmpd.Protocol.{NdmpError, no_err, not_authorized_err}
use ndmpd.Base64.{done, ◌>>=◌, ndmp_base64_encode, ndmp_base64_decode}
use ndmpd.Base64.Alphabet.{HasNul}
use ndmpd.Base64.Roundtrip.{decode-encode, decode-nil}
use ndmpd.Connect.{
  same_text, is_unset, text_of, Config, auth_text, auth_md5, ndmpd_connect_auth_text, digest_buf,
  create_md5_digest, check_digest, check_decoded, ndmpd_connect_auth_md5, check_auth,
  set_authorized, ndmpd_connect_client_auth_v3,
}

same_text_iff : (a b : List ℕ) → (same_text a b ≡ true) ↔ (a ≡ b)
unfolding same_text
same_text_iff [] [] = (λ h. refl, λ h. refl)
same_text_iff [] (y ∷ b) = (λ h. absurd (cc), λ h. absurd (cc))
same_text_iff (x ∷ a) [] = (λ h. absurd (cc), λ h. absurd (cc))
same_text_iff (x ∷ a) (y ∷ b) = ground (arith, same_text_iff a b, ==_iff x y)

-- the text is set, and it is not the empty one
abbrev pub IsGiven : Option (List ℕ) → List ℕ → Type 0
IsGiven o s = (o ≡ some s) × (s ≢ [])

auth_text_lem :
    (config : Config) (uname auth_id auth_password : List ℕ)
    → (ndmpd_connect_auth_text config uname auth_id auth_password ≡ no_err)
      ↔ ((uname ≡ auth_id) × IsGiven config.cleartext_password auth_password)
unfolding ndmpd_connect_auth_text
auth_text_lem config uname auth_id auth_password = go config.cleartext_password
  where
    go :
        (p : Option (List ℕ))
        → ((if not (same_text uname auth_id)
              then not_authorized_err
              else if is_unset p
              then not_authorized_err
              else if not (same_text auth_password (text_of p))
              then not_authorized_err
              else no_err)
            ≡ no_err)
          ↔ ((uname ≡ auth_id) × IsGiven p auth_password)
    go none = ground (arith, same_text_iff uname auth_id)
    go (some []) = ground (arith, same_text_iff uname auth_id)
    go (some (c ∷ s)) =
        ground (arith, same_text_iff uname auth_id, same_text_iff auth_password (c ∷ s))

module _ (md5 : List ℕ → List ℕ) (after : List ℕ) (memory : Bool) where
  granted_iff :
      (e : NdmpError)
      → (set_authorized md5 after memory (done e) ≡ done (true, no_err)) ↔ (e ≡ no_err)
  unfolding set_authorized
  granted_iff e = (λ h. ground arith, λ h. rw h refl)

  -- A client that sends a name and a password in clear text is authorized just when the server has a
  -- user name and a password for this, neither is empty, and they are the ones sent.
  pub client_auth-text_iff :
      (config : Config) (challenge auth_id auth_password : List ℕ)
      → (ndmpd_connect_client_auth_v3 md5 after memory config challenge
            (auth_text auth_id auth_password)
          ≡ done (true, no_err))
        ↔ (IsGiven config.cleartext_username auth_id
            × IsGiven config.cleartext_password auth_password)
  unfolding ndmpd_connect_client_auth_v3 check_auth
  client_auth-text_iff config challenge auth_id auth_password = go config.cleartext_username
    where
      go :
          (o : Option (List ℕ))
          → (set_authorized md5 after memory (
                if is_unset o
                then done not_authorized_err
                else done (ndmpd_connect_auth_text config (text_of o) auth_id auth_password))
              ≡ done (true, no_err))
            ↔ (IsGiven o auth_id × IsGiven config.cleartext_password auth_password)
      go none = ground (arith, granted_iff not_authorized_err)
      go (some []) = ground (arith, granted_iff not_authorized_err)
      go (some (c ∷ s)) = ground (
        arith,
        granted_iff (ndmpd_connect_auth_text config (c ∷ s) auth_id auth_password),
        auth_text_lem config (c ∷ s) auth_id auth_password,
      )

take-exact : (n : ℕ) (s t : List ℕ) → length s ≡ n → take n (s ++ t) ≡ s
take-exact zero [] t h = refl
take-exact zero (x ∷ s) t h = absurd (omega arith)
take-exact (suc n) [] t h = absurd (omega arith)
take-exact (suc n) (x ∷ s) t h = ap (◌∷◌ x) (take-exact n s t (omega arith))

-- the message whose MD5 the protocol asks for
abbrev pub digest_message : List ℕ → List ℕ → List ℕ
digest_message passwd challenge =
    passwd ++ (replicate (64 - 2 * length passwd) 0 ++ (challenge ++ passwd))

length-digest_message :
    (passwd challenge : List ℕ)
    → length passwd ≤ 31
    → length challenge ≡ 64
    → length (digest_message passwd challenge) ≡ 128
length-digest_message passwd challenge h c = omega (
  arith,
  length-append passwd (replicate (64 - 2 * length passwd) 0 ++ (challenge ++ passwd)),
  length-append (replicate (64 - 2 * length passwd) 0) (challenge ++ passwd),
  length-append challenge passwd,
  length-replicate {A = ℕ} (64 - 2 * length passwd) 0,
  h,
  c,
)

-- For a password of at most 31 bytes the 128 bytes that are hashed are the password, zeros, the
-- challenge and the password again, and the buffer of 130 bytes is not overrun.
digest_buf_lem :
    (passwd challenge : List ℕ)
    → length passwd ≤ 31
    → length challenge ≡ 64
    → (take 128 (digest_buf passwd challenge) ≡ digest_message passwd challenge)
      × (length (digest_buf passwd challenge) ≤ 130)
unfolding digest_buf
digest_buf_lem passwd challenge h c =
    let m : List ℕ = digest_message passwd challenge in
    let e : digest_buf passwd challenge ≡ m ++ (0 ∷ []) =
      rw
        (
          take_all 32 passwd (omega (arith, h)),
          take_all 31 passwd h,
          take_all 64 challenge (omega (arith, c)),
        )
        (simp append_assoc) in
    rw e (
      take-exact 128 m (0 ∷ []) (length-digest_message passwd challenge h c),
      omega (arith, length-append m (0 ∷ []), length-digest_message passwd challenge h c),
    )

module _ (md5 : List ℕ → List ℕ) (after : List ℕ) (nul : HasNul after) where
  stored_lem :
      (passwd : List ℕ) {stored : List ℕ}
      → All IsByte passwd
      → length passwd ≤ 31
      → ndmp_base64_encode true passwd ≡ done stored
      → ndmp_base64_decode after true stored ≡ done passwd
  stored_lem passwd {stored} bytes short enc =
      ap (λ r. r >>= ndmp_base64_decode after true) (sym enc)
      ∙ decode-encode after nul passwd bytes (omega (arith, short))

  stored-set :
      (c : ℕ) (passwd stored : List ℕ)
      → ndmp_base64_decode after true stored ≡ done (c ∷ passwd)
      → is_unset (some stored) ≡ false
  stored-set c passwd [] e = absurd (ground (arith, e, decode-nil after nul))
  stored-set c passwd (x ∷ stored) e = refl

  auth_md5_lem :
      (config : Config) (c : ℕ) (passwd challenge uname auth_id auth_digest : List ℕ)
      {stored : List ℕ}
      → All IsByte (c ∷ passwd)
      → length (c ∷ passwd) ≤ 31
      → length challenge ≡ 64
      → ndmp_base64_encode true (c ∷ passwd) ≡ done stored
      → config.cram_md5_password ≡ some stored
      → ndmpd_connect_auth_md5 md5 after true config uname auth_id auth_digest challenge ≡ (
          if not (same_text uname auth_id)
          then done not_authorized_err
          else done (
              if same_text
                (take 16 (md5 (digest_message (c ∷ passwd) challenge)))
                (take 16 auth_digest)
              then no_err
              else not_authorized_err))
  unfolding ndmpd_connect_auth_md5 check_decoded check_digest create_md5_digest
  auth_md5_lem config c passwd challenge uname auth_id auth_digest {stored} bytes short ch enc
        conf =
      let dec : ndmp_base64_decode after true stored ≡ done (c ∷ passwd) =
        stored_lem (c ∷ passwd) bytes short enc in
      let msg = (digest_buf_lem (c ∷ passwd) challenge short ch).0 in
      simp (conf, stored-set c passwd stored dec, dec, msg)

  decision_lem :
      (uname auth_id digest sent : List ℕ)
      → (set_authorized md5 after true (
            if not (same_text uname auth_id)
            then done not_authorized_err
            else done (if same_text digest sent then no_err else not_authorized_err))
          ≡ done (true, no_err))
        ↔ ((uname ≡ auth_id) × (digest ≡ sent))
  decision_lem uname auth_id digest sent = elim (Bool-cases (same_text uname auth_id)) [
    | inl h ↦ elim (Bool-cases (same_text digest sent)) [
      | inl k ↦
          rw (h, k)
            (ground (
              arith,
              granted_iff md5 after true no_err,
              (same_text_iff uname auth_id).0 h,
              (same_text_iff digest sent).0 k,
            ))
      | inr k ↦
          rw (h, k)
            (ground
              (arith, granted_iff md5 after true not_authorized_err, same_text_iff digest sent, k))
    ]
    | inr h ↦ rw h (
        ground
          (arith, granted_iff md5 after true not_authorized_err, same_text_iff uname auth_id, h))
  ]

  -- A client that answers the challenge is authorized just when it names the user that is set, which
  -- is not empty, and its digest is the MD5 of the password, zeros, the challenge and the password,
  -- when the server keeps the base64 form of a password of 1 to 31 bytes, the challenge has 64 bytes,
  -- there is memory, and a NUL follows the base64 table somewhere in it.
  pub client_auth-md5_iff :
      (config : Config) (c : ℕ) (passwd challenge auth_id auth_digest : List ℕ) {stored : List ℕ}
      → All IsByte (c ∷ passwd)
      → length (c ∷ passwd) ≤ 31
      → length challenge ≡ 64
      → ndmp_base64_encode true (c ∷ passwd) ≡ done stored
      → config.cram_md5_password ≡ some stored
      → (ndmpd_connect_client_auth_v3 md5 after true config challenge (auth_md5 auth_id auth_digest)
          ≡ done (true, no_err))
        ↔ (IsGiven config.cram_md5_username auth_id
            × (take 16 (md5 (digest_message (c ∷ passwd) challenge)) ≡ take 16 auth_digest))
  unfolding ndmpd_connect_client_auth_v3 check_auth ndmpd_connect_auth_md5 check_decoded
      check_digest create_md5_digest
  client_auth-md5_iff config c passwd challenge auth_id auth_digest {stored} bytes short ch enc
        conf =
      go config.cram_md5_username
    where
      digest : List ℕ
      digest = take 16 (md5 (digest_message (c ∷ passwd) challenge))

      go :
          (o : Option (List ℕ))
          → (set_authorized md5 after true (
                if is_unset o
                then done not_authorized_err
                else ndmpd_connect_auth_md5 md5 after true config
                    (text_of o)
                    auth_id
                    auth_digest
                    challenge)
              ≡ done (true, no_err))
            ↔ (IsGiven o auth_id × (digest ≡ take 16 auth_digest))
      go none = ground (arith, granted_iff md5 after true not_authorized_err)
      go (some []) = ground (arith, granted_iff md5 after true not_authorized_err)
      go (some (x ∷ uname)) =
          rw
            (auth_md5_lem config c passwd challenge (x ∷ uname) auth_id auth_digest
              {stored = stored} bytes short ch enc conf)
            (ground (arith, decision_lem (x ∷ uname) auth_id digest (take 16 auth_digest)))
