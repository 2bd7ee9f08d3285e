-- ===== src/TarHeader/Checksum.antt =====
-- tlm/tlm_lib.c: a checksum that `tlm_build_header_checksum` writes is accepted by
-- `tlm_vfy_tar_checksum`, and a record changed afterwards is not.
use ndmpd.Common.{
  length-append, ℕ, ◌+◌, ◌*◌, ◌%◌, ◌^◌, ◌≤◌, ◌<◌, ◌≡◌, refl, ◌∙◌, List, [], ◌∷◌, ◌++◌, ◌==◌,
  if◌then◌else◌, length, take, drop, some, arith, append_assoc, ap,
}
use ndmpd.TarHeader.{
  TlmTarHdr, IsHeader, oct_atoi, format_6o, uint_mod, sum_bytes, snprintf,
  tlm_build_header_checksum, tlm_vfy_tar_checksum, good, bad, chkblanks, record_bytes,
}
use ndmpd.TarHeader.Octal.{oct_atoi-format_6o, length-format_6o}

sum_bytes-append : (xs ys : List ℕ) → sum_bytes (xs ++ ys) ≡ sum_bytes xs + sum_bytes ys
unfolding sum_bytes
sum_bytes-append [] ys = omega arith
sum_bytes-append (x ∷ xs) ys = omega (arith, sum_bytes-append xs ys)

sum_bytes-le : (xs : List ℕ) → sum_bytes xs ≤ 255 * length xs
unfolding sum_bytes
sum_bytes-le [] = omega arith
sum_bytes-le (x ∷ xs) = omega (arith, sum_bytes-le xs)

-- the sum over the record with blanks in the place of the checksum
blank_sum : TlmTarHdr → ℕ
blank_sum h = sum_bytes h.before + 256 + sum_bytes h.behind

blank_sum-lt : (h : TlmTarHdr) → IsHeader h → blank_sum h < 8 ^ 6
unfolding blank_sum
blank_sum-lt h v = omega (arith, sum_bytes-le h.before, sum_bytes-le h.behind)

-- the field that is written: six characters, a NUL and one of the blanks
abbrev field_of : ℕ → List ℕ
field_of n = format_6o n ++ (0 ∷ b' ' ∷ [])

six : (s : List ℕ) → length s ≡ 6 → snprintf chkblanks s ≡ s ++ (0 ∷ b' ' ∷ [])
unfolding snprintf
six (a ∷ b ∷ c ∷ d ∷ e ∷ f ∷ []) h = refl
six s h = absurd (omega arith)

drop-all : (s : List ℕ) → length s ≡ 8 → drop 8 s ≡ []
drop-all (a ∷ b ∷ c ∷ d ∷ e ∷ f ∷ g ∷ i ∷ []) h = refl
drop-all s h = absurd (omega arith)

take-all : (s : List ℕ) → length s ≡ 8 → take 8 s ≡ s
take-all (a ∷ b ∷ c ∷ d ∷ e ∷ f ∷ g ∷ i ∷ []) h = refl
take-all s h = absurd (omega arith)

sum_record :
    (h : TlmTarHdr)
    → sum_bytes (record_bytes h) ≡ sum_bytes h.before + (sum_bytes h.th_chksum + sum_bytes h.behind)
sum_record h = rw (sum_bytes-append h.before, sum_bytes-append h.th_chksum)

sum-blanks : sum_bytes chkblanks ≡ 256
unfolding sum_bytes
sum-blanks = refl

-- What the builder writes: the octal form of the sum, and nothing outside its field.
tlm_build_header_checksum_lem :
    (h : TlmTarHdr)
    → IsHeader h
    → tlm_build_header_checksum h ≡ record h { th_chksum = field_of (blank_sum h) }
unfolding tlm_build_header_checksum blank_sum
tlm_build_header_checksum_lem h v = rw (drop-all h.th_chksum v.chksum_size) (
    rw (sum_record (record h { th_chksum = chkblanks }), sum-blanks)
      (rw (fits)
        (rw (six (format_6o (blank_sum h)) (length-format_6o (blank_sum h) (blank_sum-lt h v))))))
  where
    fits : (sum_bytes h.before + (256 + sum_bytes h.behind)) % uint_mod ≡ blank_sum h
    fits = omega (arith, sum_bytes-le h.before, sum_bytes-le h.behind)

-- The verdict compares the number in the field with the sum over the rest.
tlm_vfy_tar_checksum_lem :
    (h : TlmTarHdr) (n : ℕ)
    → IsHeader h
    → oct_atoi (h.th_chksum ++ h.behind) ≡ some n
    → 0 < sum_bytes (record_bytes h)
    → tlm_vfy_tar_checksum h ≡ (if blank_sum h == n then good else bad)
unfolding tlm_vfy_tar_checksum blank_sum
tlm_vfy_tar_checksum_lem h n v e pos = ground (
  arith,
  take-all h.th_chksum v.chksum_size,
  sum_record h,
  sum_bytes-le h.before,
  sum_bytes-le h.behind,
  sum_bytes-le h.th_chksum,
)

length-field_of : (n : ℕ) → n < 8 ^ 6 → length (field_of n) ≡ 8
length-field_of n h =
    omega (arith, length-append (format_6o n) (0 ∷ b' ' ∷ []), length-format_6o n h)

built-IsHeader :
    (h : TlmTarHdr) → IsHeader h → IsHeader (record h { th_chksum = field_of (blank_sum h) })
built-IsHeader h v = record {
  before_size = v.before_size;
  chksum_size = length-field_of (blank_sum h) (blank_sum-lt h v);
  behind_size = v.behind_size;
}

read_back : (n : ℕ) (rest : List ℕ) → n < uint_mod → oct_atoi (field_of n ++ rest) ≡ some n
read_back n rest h = rw (append_assoc (format_6o n)) (oct_atoi-format_6o n (b' ' ∷ rest) h)

-- the NUL and the blank of the field are not both zero bytes
sum-field_of : (n : ℕ) → 0 < sum_bytes (field_of n)
unfolding sum_bytes
sum-field_of n = omega (arith, sum_bytes-append (format_6o n) (0 ∷ b' ' ∷ []))

-- A record `k` that carries the checksum field built for `h` is accepted exactly when the bytes
-- outside the field have the same sum in both, and is otherwise refused.
vfy-after-build :
    (h k : TlmTarHdr)
    → IsHeader h
    → IsHeader k
    → k.th_chksum ≡ (tlm_build_header_checksum h).th_chksum
    → tlm_vfy_tar_checksum k ≡ (
        if sum_bytes k.before + sum_bytes k.behind == sum_bytes h.before + sum_bytes h.behind
        then good
        else bad)
unfolding blank_sum
vfy-after-build h k v w e =
    tlm_vfy_tar_checksum_lem k (blank_sum h) w read (omega (arith, sum_record k, positive))
    ∙ ground arith
  where
    field : k.th_chksum ≡ field_of (blank_sum h)
    field = e ∙ ap (λ (r : TlmTarHdr). r.th_chksum) (tlm_build_header_checksum_lem h v)

    read : oct_atoi (k.th_chksum ++ k.behind) ≡ some (blank_sum h)
    read = rw field (read_back (blank_sum h) k.behind (omega (arith, blank_sum-lt h v)))

    positive : 0 < sum_bytes k.th_chksum
    positive = rw field (sum-field_of (blank_sum h))

-- For every header record, the builder's checksum is accepted, the record keeps its shape, and
-- nothing outside the checksum field has changed.
pub vfy-build :
    (h : TlmTarHdr)
    → IsHeader h
    → (tlm_vfy_tar_checksum (tlm_build_header_checksum h) ≡ good)
      × IsHeader (tlm_build_header_checksum h)
      × ((tlm_build_header_checksum h).before ≡ h.before)
      × ((tlm_build_header_checksum h).behind ≡ h.behind)
vfy-build h v =
    let e = tlm_build_header_checksum_lem h v in
    let w : IsHeader (tlm_build_header_checksum h) = rw e (built-IsHeader h v) in
    let same : (tlm_build_header_checksum h).before ≡ h.before = rw e in
    let same' : (tlm_build_header_checksum h).behind ≡ h.behind = rw e in
    (vfy-after-build h (tlm_build_header_checksum h) v w refl ∙ ground arith, w, same, same')
