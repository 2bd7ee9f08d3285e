-- ===== src/Transfer/Tests.antt =====
-- src/ndmpd_mover.c with a socket that moves few bytes at a time.
use ndmpd.Common.{
  length-take_le, ℕ, ◌≡◌, refl, ap, true, false, List, [], ◌∷◌, Option, none, some, take, arith,
}
use ndmpd.Transfer.{
  finished, Window, Read, stored, error, endless, write_rounds, ndmpd_remote_write,
  ndmpd_remote_read_v3, read_rounds, read_round, read_some, next_window,
}
use ndmpd.Transfer.Ends.{Writes, Took, remote_write_ends, Reads, Gave, remote_read_ends}

abbrev one_byte : ℕ → ℕ → Option ℕ
one_byte i len = some 1

abbrev value_or : ℕ → Option ℕ → ℕ
value_or d none = d
value_or d (some k) = k

one_byte-Writes : Writes one_byte
one_byte-Writes i len k e lt =
    let f : 1 ≡ k = ap (λ o. value_or 0 o) e in (omega (arith, f), omega (arith, f, lt))

three_written :
    ndmpd_remote_write (λ i. false) one_byte (7 ∷ 8 ∷ 9 ∷ []) ≡ finished (7 ∷ 8 ∷ 9 ∷ [])
unfolding ndmpd_remote_write write_rounds
three_written = refl

remote_write_ends_example :
    Took (7 ∷ 8 ∷ 9 ∷ []) (ndmpd_remote_write (λ i. false) one_byte (7 ∷ 8 ∷ 9 ∷ []))
remote_write_ends_example = remote_write_ends (λ i. false) one_byte (7 ∷ 8 ∷ 9 ∷ []) one_byte-Writes

-- two bytes in each round, or as many as are asked for
abbrev two_bytes : ℕ → ℕ → Option (List ℕ)
two_bytes i len = some (take len (5 ∷ 6 ∷ []))

abbrev bytes_or : List ℕ → Option (List ℕ) → List ℕ
bytes_or d none = d
bytes_or d (some s) = s

two_bytes-Reads : Reads two_bytes
two_bytes-Reads i len bytes e =
    let f : take len (5 ∷ 6 ∷ []) ≡ bytes = ap (λ o. bytes_or [] o) e in
    rw (← f) (length-take_le len (5 ∷ 6 ∷ [])).0

abbrev fresh_window : Window
fresh_window = record {
  dd_bytes_left_to_read = 0;
  dd_read_offset = 0;
  dd_read_length = 0;
  dd_position = 10;
  dd_discard_length = 0;
  notify_data_read = [];
}

abbrev data_of : Read → List ℕ
data_of (stored out w) = out
data_of (error out w) = []
data_of endless = []

three_read : data_of (ndmpd_remote_read_v3 (λ i. true) two_bytes 0 3 fresh_window) ≡ 5 ∷ 6 ∷ 5 ∷ []
unfolding ndmpd_remote_read_v3 read_rounds read_round read_some next_window
three_read = refl

remote_read_ends_example : Gave 3 10 (ndmpd_remote_read_v3 (λ i. true) two_bytes 0 3 fresh_window)
remote_read_ends_example =
    remote_read_ends (λ i. true) two_bytes 0 3 fresh_window two_bytes-Reads refl
