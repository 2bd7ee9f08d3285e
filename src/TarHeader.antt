-- ===== src/TarHeader.antt =====
-- tlm/tlm_lib.c and tlm/tlm_util.c: the checksum of a tar header record of 512 bytes.
pub mod Octal
pub mod Checksum
mod Tests
use ndmpd.Common.{
  ℕ, zero, suc, ◌+◌, ◌-◌, ◌*◌, ◌/◌, ◌%◌, ◌^◌, ◌≡◌, Bool, true, false, ◌&&◌, List, [], ◌∷◌, ◌++◌,
  leb, ltb, ◌==◌, if◌then◌else◌, length, take, drop, replicate, Option, none, some, All,
}

-- `tlm_tar_hdr_t` by its bytes: what stands before `th_chksum`, that field, and what follows it
pub record TlmTarHdr : Type 0 where
  pub before : List ℕ
  pub th_chksum : List ℕ
  pub behind : List ℕ

-- the sizes of the three parts
pub record IsHeader (h : TlmTarHdr) : Type 0 where
  pub before_size : length h.before ≡ 148
  pub chksum_size : length h.th_chksum ≡ 8
  pub behind_size : length h.behind ≡ 356

abbrev pub uint_mod : ℕ
uint_mod = 2 ^ 32

-- The digits' loop of `oct_atoi`. An `int` is its bit pattern; `none` is a read past the memory given.
unfoldable pub oct_digits : ℕ → List ℕ → Option ℕ
oct_digits v [] = none
oct_digits v (c ∷ p) = elim (leb b'0' c && leb c b'7') [
  | true ↦ oct_digits ((v * 8 + (c - b'0')) % uint_mod) p
  | false ↦ some v
]

unfoldable pub oct_atoi : List ℕ → Option ℕ
oct_atoi [] = none
oct_atoi (c ∷ p) = elim (c == b' ') [ true ↦ oct_atoi p | false ↦ oct_digits 0 (c ∷ p) ]

-- The digits that `%o` prints, with fuel for the number of digits
unfoldable pub octal : ℕ → ℕ → List ℕ → List ℕ
octal zero n acc = acc
octal (suc f) n acc = elim (ltb n 8) [
  | true ↦ (b'0' + n) ∷ acc
  | false ↦ octal f (n / 8) ((b'0' + n % 8) ∷ acc)
]

-- `%6o` of an `unsigned int`, which has at most eleven octal digits
pub format_6o : ℕ → List ℕ
format_6o n = let s = octal 11 n [] in replicate (6 - length s) b' ' ++ s

-- `snprintf` into a field: at most one byte less than the field, then a NUL; what is behind stays.
unfoldable pub snprintf : List ℕ → List ℕ → List ℕ
snprintf field s = let t = take (length field - 1) s in t ++ (0 ∷ drop (length t + 1) field)

pub sum_bytes : List ℕ → ℕ
sum_bytes [] = 0
sum_bytes (c ∷ cs) = c % 256 + sum_bytes cs

abbrev pub record_bytes : TlmTarHdr → List ℕ
record_bytes h = h.before ++ (h.th_chksum ++ h.behind)

abbrev pub chkblanks : List ℕ
chkblanks = replicate 8 b' '

unfoldable pub tlm_build_header_checksum : TlmTarHdr → TlmTarHdr
tlm_build_header_checksum r =
    let blank = record r { th_chksum = chkblanks ++ drop 8 r.th_chksum } in
    let sum = sum_bytes (record_bytes blank) % uint_mod in
    record blank { th_chksum = snprintf blank.th_chksum (format_6o sum) }

-- The result of the check: 0, 1 and -1 in the source.
pub data Verdict : Type 0 where
  empty_record good bad overread : Verdict

unfoldable pub tlm_vfy_tar_checksum : TlmTarHdr → Verdict
tlm_vfy_tar_checksum h = elim (oct_atoi (h.th_chksum ++ h.behind)) [
  | none ↦ overread
  | some chksum ↦
      let sum = sum_bytes (record_bytes h) % uint_mod in
      if sum == 0
      then empty_record
      else let stripped = (sum + uint_mod - sum_bytes (take 8 h.th_chksum)) % uint_mod in
        if (stripped + b' ' * 8) % uint_mod == chksum then good else bad
]
