-- ===== src/Archive/Headers.antt =====
-- A record that is given out is accepted when it is read, and its fields are what was put into them.
use ndmpd.Common.{
  ℕ, zero, suc, ◌+◌, ◌≡◌, refl, ap, ◌∙◌, List, [], ◌∷◌, ◌++◌, arith, length, length-append, take,
  drop, replicate,
}
use ndmpd.TarHeader.{
  TlmTarHdr, IsHeader, record_bytes, good, tlm_vfy_tar_checksum, tlm_build_header_checksum,
}
use ndmpd.TarHeader.Checksum.{vfy-build}
use ndmpd.Archive.{Header, field, parts, header_bytes}
use ndmpd.Archive.Fields.{length-field}
use ndmpd.Archive.Variables.{as_header}

-- lists behind one another
pub drop-field : (k n : ℕ) (s t : List ℕ) → length s ≡ k → drop (k + n) (s ++ t) ≡ drop n t
drop-field zero n [] t e = ap (λ (j : ℕ). drop j t) (omega arith)
drop-field zero n (x ∷ s) t e = absurd (omega (arith, e))
drop-field (suc k) n [] t e = absurd (omega (arith, e))
drop-field (suc k) n (x ∷ s) t e =
    let next : suc k + n ≡ suc (k + n) = omega arith in
    ap (λ (j : ℕ). drop j (x ∷ s ++ t)) next ∙ drop-field k n s t (omega (arith, e))

pub take-field : (k : ℕ) (s t : List ℕ) → length s ≡ k → take k (s ++ t) ≡ s
take-field zero [] t e = refl
take-field zero (x ∷ s) t e = absurd (omega (arith, e))
take-field (suc k) [] t e = absurd (omega (arith, e))
take-field (suc k) (x ∷ s) t e = ap (λ r. x ∷ r) (take-field k s t (omega (arith, e)))

pub drop_first : (k : ℕ) (s t : List ℕ) → length s ≡ k → drop k (s ++ t) ≡ t
drop_first zero [] t e = refl
drop_first zero (x ∷ s) t e = absurd (omega (arith, e))
drop_first (suc k) [] t e = absurd (omega (arith, e))
drop_first (suc k) (x ∷ s) t e = drop_first k s t (omega (arith, e))

length-two : (s t : List ℕ) (k n : ℕ) → length s ≡ k → length t ≡ n → length (s ++ t) ≡ k + n
length-two s t k n e f = omega (arith, length-append s t, e, f)

parts-IsHeader : (h : Header) → IsHeader (parts h)
unfolding parts
parts-IsHeader h = record {
  before_size = length-two (field 100 h.th_name) _ 100 48 (length-field 99 h.th_name) (
      length-two (field 8 h.th_mode) _ 8 40 (length-field 7 h.th_mode) (
        length-two (field 8 h.th_uid) _ 8 32 (length-field 7 h.th_uid) (
          length-two (field 8 h.th_gid) _ 8 24 (length-field 7 h.th_gid) (
            length-two (field 12 h.th_size) _ 12 12 (length-field 11 h.th_size)
              (length-field 11 h.th_mtime)))));
  chksum_size = refl;
  behind_size = ap suc (
      length-two (field 100 h.th_linkname) _ 100 255 (length-field 99 h.th_linkname) (
        length-two (field 8 h.th_magic) _ 8 247 (length-field 7 h.th_magic) (
          length-two (field 32 h.th_uname) _ 32 215 (length-field 31 h.th_uname) (
            length-two (field 32 h.th_gname) _ 32 183 (length-field 31 h.th_gname) (
              length-two (field 12 h.th_hlink_ino) (replicate 171 0) 12 171
                (length-field 11 h.th_hlink_ino) refl)))));
}

-- the record with its checksum
abbrev pub built : Header → TlmTarHdr
built h = tlm_build_header_checksum (parts h)

pub built-IsHeader : (h : Header) → IsHeader (built h)
built-IsHeader h = (vfy-build (parts h) (parts-IsHeader h)).1

pub before_lem : (h : Header) → (built h).before ≡ (parts h).before
before_lem h = (vfy-build (parts h) (parts-IsHeader h)).2

pub behind_lem : (h : Header) → (built h).behind ≡ (parts h).behind
behind_lem h = (vfy-build (parts h) (parts-IsHeader h)).3

pub length-header_bytes : (h : Header) → length (header_bytes h) ≡ 512
unfolding header_bytes
length-header_bytes h =
    let v = built-IsHeader h in
    length-two (built h).before ((built h).th_chksum ++ (built h).behind) 148 364 v.before_size
      (length-two (built h).th_chksum (built h).behind 8 356 v.chksum_size v.behind_size)

as_header-record : (t : TlmTarHdr) → IsHeader t → as_header (record_bytes t) ≡ t
as_header-record t v =
    let first : take 148 (record_bytes t) ≡ t.before =
      take-field 148 t.before (t.th_chksum ++ t.behind) v.before_size in
    let rest : drop 148 (record_bytes t) ≡ t.th_chksum ++ t.behind =
      drop_first 148 t.before (t.th_chksum ++ t.behind) v.before_size in
    let second : take 8 (drop 148 (record_bytes t)) ≡ t.th_chksum =
      ap (λ (r : List ℕ). take 8 r) rest ∙ take-field 8 t.th_chksum t.behind v.chksum_size in
    let third : drop 156 (record_bytes t) ≡ t.behind =
      drop-field 148 8 t.before (t.th_chksum ++ t.behind) v.before_size
      ∙ drop_first 8 t.th_chksum t.behind v.chksum_size in
    λ i. record { before = first i; th_chksum = second i; behind = third i }

-- The check of a record that is read accepts every record that is given out.
pub vfy-header_bytes : (h : Header) → tlm_vfy_tar_checksum (as_header (header_bytes h)) ≡ good
unfolding header_bytes
vfy-header_bytes h =
    ap tlm_vfy_tar_checksum (as_header-record (built h) (built-IsHeader h))
    ∙ (vfy-build (parts h) (parts-IsHeader h)).0
