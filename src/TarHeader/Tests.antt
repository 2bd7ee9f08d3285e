-- ===== src/TarHeader/Tests.antt =====
-- tlm/tlm_lib.c on a concrete header record.
use ndmpd.Common.{◌≡◌, refl, [], ◌∷◌, ◌++◌, replicate, some}
use ndmpd.Common.Bytes.{codes}
use ndmpd.TarHeader.{
  TlmTarHdr, sum_bytes, oct_atoi, oct_digits, octal, format_6o, snprintf, tlm_build_header_checksum,
}

abbrev letters : TlmTarHdr
letters = record {
  before = replicate 148 b'A';
  th_chksum = replicate 8 0;
  behind = replicate 356 b'z';
}

written : (tlm_build_header_checksum letters).th_chksum ≡ b'1' ∷ codes "50074" ++ (0 ∷ b' ' ∷ [])
unfolding tlm_build_header_checksum snprintf format_6o octal sum_bytes
written = refl

oct_atoi_runs : oct_atoi (codes "  0644" ++ (0 ∷ [])) ≡ some 420
unfolding oct_atoi oct_digits
oct_atoi_runs = refl
