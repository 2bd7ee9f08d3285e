-- ===== src/Transfer.antt =====
-- src/ndmpd_mover.c: the loops that move the archive over the data connection. The answers of the
-- system are parameters, by the number of the round; the loops run on fuel.
pub mod Ends
mod Tests
use ndmpd.Common.{
  ℕ, zero, suc, ◌+◌, ◌-◌, ◌*◌, ◌^◌, ◌<◌, ◌≤◌, Bool, true, false, not, List, [], ◌∷◌, ◌++◌, leb, ltb,
  ◌==◌, if◌then◌else◌, Option, none, some, length, take, drop,
}

-- What `ndmpd_remote_write` does: it returns 0, or -1 with the flag `dd_abort`; the bytes are those
-- that the socket took. `unfinished` is out of fuel.
pub data Written : Type 0 where
  finished : List ℕ → Written
  failed : Bool → List ℕ → Written
  unfinished : Written

-- `stop` tells whether `ns_eof` or `dd_abort` is set; `write` is the system's, on a number of bytes,
-- where `none` is an error.
module _ (stop : ℕ → Bool) (write : ℕ → ℕ → Option ℕ) where
  unfoldable pub write_rounds : ℕ → ℕ → List ℕ → List ℕ → Written
  write_rounds n i [] out = finished out
  write_rounds zero i (c ∷ s) out = unfinished
  write_rounds (suc n) i (c ∷ s) out = elim (stop i) [
    | true ↦ failed false out
    | false ↦ elim (write i (length (c ∷ s))) [
      | none ↦ failed true out
      | some k ↦ write_rounds n (suc i) (drop k (c ∷ s)) (out ++ take k (c ∷ s))
    ]
  ]

  unfoldable pub ndmpd_remote_write : List ℕ → Written
  unfolding write_rounds
  ndmpd_remote_write s = write_rounds (length s) 0 s []

-- the fields of `ndmpd_session_data_desc_t` that the reading uses, and the requests made, each an
-- offset and a length
pub record Window : Type 0 where
  pub dd_bytes_left_to_read : ℕ
  pub dd_read_offset : ℕ
  pub dd_read_length : ℕ
  pub dd_position : ℕ
  pub dd_discard_length : ℕ
  pub notify_data_read : List (ℕ × ℕ)

-- What `ndmpd_remote_read_v3` does: it returns 0 with the bytes it stored, or -1.
pub data Read : Type 0 where
  stored : List ℕ → Window → Read
  error : List ℕ → Window → Read
  endless : Read

-- `~0LL`
abbrev pub all_ones : ℕ
all_ones = 2 ^ 64 - 1

abbrev pub max_record_size : ℕ
max_record_size = 126 * 512

abbrev pub smaller : ℕ → ℕ → ℕ
smaller a b = if ltb a b then a else b

-- the next window, when the last is read to its end; `fsize` is `js_bytes_in_file`
unfoldable pub next_window : ℕ → ℕ → Window → Window
next_window fsize len w =
    if w.dd_read_length == 0
    then record w {
      dd_bytes_left_to_read = all_ones;
      dd_read_offset = 0;
      dd_read_length = all_ones;
      notify_data_read = w.notify_data_read ++ ((0, all_ones) ∷ []);
    }
    else let f = if ltb fsize len then len else fsize in
      record w {
        dd_bytes_left_to_read = f;
        dd_read_offset = w.dd_position;
        dd_read_length = f;
        notify_data_read = w.notify_data_read ++ ((w.dd_position, f) ∷ []);
      }

-- `sends` tells whether the request can be sent; `read` is the system's, on a number of bytes, where
-- `none` is an error and `[]` a connection that was closed.
module _ (sends : ℕ → Bool) (read : ℕ → ℕ → Option (List ℕ)) (fsize : ℕ) where
  -- The bytes in excess, when there are any, or the next bytes; `again` goes on with the loop.
  unfoldable pub read_some : (ℕ → List ℕ → Window → Read) → ℕ → ℕ → List ℕ → Window → Read
  read_some again i len out w = elim (w.dd_discard_length == 0) [
    | false ↦ elim (read i (smaller w.dd_discard_length max_record_size)) [
      | none ↦ error out w
      | some bytes ↦
          again len out (record w { dd_discard_length = w.dd_discard_length - length bytes })
    ]
    | true ↦ elim (read i (smaller w.dd_bytes_left_to_read len)) [
      | none ↦ error out w
      | some [] ↦ error out w
      | some (c ∷ bytes) ↦ again (len - length (c ∷ bytes)) (out ++ (c ∷ bytes)) (record w {
        dd_bytes_left_to_read = w.dd_bytes_left_to_read - length (c ∷ bytes);
        dd_position = w.dd_position + length (c ∷ bytes);
      })
    ]
  ]

  unfoldable pub read_round : (ℕ → List ℕ → Window → Read) → ℕ → ℕ → List ℕ → Window → Read
  unfolding read_some next_window
  read_round again i len out w = elim (w.dd_bytes_left_to_read == 0) [
    | false ↦ read_some again i len out w
    | true ↦ elim (sends i) [
      | true ↦ read_some again i len out (next_window fsize len w)
      | false ↦ error out (next_window fsize len w)
    ]
  ]

  -- `len` is what is left to read
  unfoldable pub read_rounds : ℕ → ℕ → ℕ → List ℕ → Window → Read
  unfolding read_round
  read_rounds n i zero out w = stored out w
  read_rounds zero i (suc len) out w = endless
  read_rounds (suc n) i (suc len) out w = read_round (read_rounds n (suc i)) i (suc len) out w

  unfoldable pub ndmpd_remote_read_v3 : ℕ → Window → Read
  unfolding read_rounds
  ndmpd_remote_read_v3 len w = read_rounds (len + w.dd_discard_length) 0 len [] w
