-- ===== src/Buffers/Restore.antt =====
-- tlm/tlm_restore_writer.c, tlm/tlm_lib.c and src/ndmpd_tar_v3.c: the threads of a restore. One is
-- `ndmp_tar_reader_v3`, which fills the buffer, the other unpacks the archive and gets its records
-- from `get_read_buffer`. Each step stands for what a thread does between two points at which it waits
-- or the other thread may see a change.
pub mod Queue
pub mod Stream
pub mod Race
use ndmpd.Common.{
  ℕ, zero, suc, ◌+◌, ◌-◌, ◌<◌, ◌≤◌, ◌≡◌, ◌≢◌, Bool, true, false, List, [], ◌∷◌, ◌++◌, leb, ltb,
  ◌==◌, if◌then◌else◌, length, take, drop,
}
use ndmpd.Buffers.{
  TlmBuffers, tlm_buffer_release_in_buf, tlm_buffer_release_out_buf, tlm_buffer_in_buf_timed_wait,
  tlm_buffer_out_buf_timed_wait, set_read_buf_done, space, aligned, min, grant_read, slice,
  tlm_allocate_buffers,
}

-- Where the thread of the archive is: outside `get_read_buffer`; at the call of `tlm_get_read_buffer`
-- in its loop; with `current_size` at the first test of `tb_full`; behind the release of a used buffer;
-- with `current_size` at the second test of `tb_full`; or at the wait.
pub data Writer : Type 0 where
  outside : Writer
  getting : ℕ → Writer
  measured : ℕ → ℕ → Writer
  released : ℕ → Writer
  testing : ℕ → ℕ → Writer
  waiting : ℕ → Writer

-- `received` are the bytes that MOD_READ gave, `consumed` those of the records given out.
pub record Restore : Type 0 where
  pub writer : Writer
  pub buffers : TlmBuffers
  pub received : List ℕ
  pub consumed : List ℕ

unfoldable pub restore_start : ℕ → Restore
unfolding tlm_allocate_buffers
restore_start xfer_size = record {
  writer = outside;
  buffers = tlm_allocate_buffers false xfer_size;
  received = [];
  consumed = [];
}

-- A round of `ndmp_tar_reader_v3` in which MOD_READ gives the bytes asked for
unfoldable pub read_buffer : List ℕ → Restore → Restore
read_buffer bytes s = record s {
  buffers = tlm_buffer_release_in_buf (record s.buffers {
    tb_buffer_data = bytes;
    tb_read_buf_read = false;
    tb_eof = false;
    tb_eot = false;
    tb_errno = 0;
    tb_buffer_size = s.buffers.tbs_data_transfer_size;
    tb_buffer_spot = 0;
    tb_full = true;
  });
  received = s.received ++ bytes;
}

unfoldable pub reader_round : List ℕ → Restore → Restore
unfolding read_buffer
reader_round bytes s =
    if s.buffers.tb_full
    then record s { buffers = tlm_buffer_out_buf_timed_wait s.buffers }
    else if s.buffers.tb_read_buf_read
    then read_buffer bytes s
    else s

unfoldable pub get_read_buffer : ℕ → Restore → Restore
get_read_buffer want s = record s { writer = getting want; buffers = set_read_buf_done s.buffers }

-- The beginning of `tlm_get_read_buffer`: `current_size` is read
abbrev pub begin : ℕ → Restore → Restore
begin want s = record s { writer = measured want (space s.buffers) }

-- Then `tb_full` is read, and a buffer that is full and used up, by the size read before, is released.
unfoldable pub release_used : ℕ → ℕ → Restore → Restore
release_used want current_size s =
    if s.buffers.tb_full
    then if current_size == 0
      then record s {
        writer = released want;
        buffers = tlm_buffer_release_out_buf (record s.buffers { tb_full = false });
      }
      else record s { writer = testing want current_size }
    else record s { writer = testing want current_size }

abbrev pub measure : ℕ → Restore → Restore
measure want s = record s { writer = testing want (space s.buffers) }

-- the record that is given out, read before the next call
unfoldable pub hand_out : ℕ → ℕ → Restore → Restore
hand_out want current_size s =
    let n = min (aligned want) current_size in
    record s {
      writer = outside;
      buffers = record s.buffers { tb_buffer_spot = s.buffers.tb_buffer_spot + n };
      consumed = s.consumed ++ slice s.buffers.tb_buffer_data s.buffers.tb_buffer_spot n;
    }

-- the end of `tlm_get_read_buffer`, which gives nothing when there is nothing
unfoldable pub finish : ℕ → ℕ → Restore → Restore
unfolding hand_out
finish want current_size s =
    if current_size == 0 then record s { writer = getting want } else hand_out want current_size s

unfoldable pub test_full : ℕ → ℕ → Restore → Restore
unfolding finish
test_full want current_size s =
    if s.buffers.tb_full then finish want current_size s else record s { writer = waiting want }

unfoldable pub after_wait : ℕ → Restore → Restore
unfolding finish
after_wait want s =
    let t = record s { buffers = tlm_buffer_in_buf_timed_wait s.buffers } in
    if s.buffers.tb_full
    then finish want (space s.buffers) t
    else record t { writer = getting want }

-- The steps of both threads, in any order, while no thread is told to stop
pub data Step (s : Restore) : Restore → Type 0 where
  call : (want : ℕ) → s.writer ≡ outside → Step s (get_read_buffer want s)
  enter : (want : ℕ) → s.writer ≡ getting want → Step s (begin want s)
  release :
      (want current_size : ℕ)
      → s.writer ≡ measured want current_size
      → Step s (release_used want current_size s)
  look : (want : ℕ) → s.writer ≡ released want → Step s (measure want s)
  test :
      (want current_size : ℕ)
      → s.writer ≡ testing want current_size
      → Step s (test_full want current_size s)
  wake : (want : ℕ) → s.writer ≡ waiting want → Step s (after_wait want s)
  read :
      (bytes : List ℕ)
      → length bytes ≡ s.buffers.tbs_data_transfer_size
      → Step s (reader_round bytes s)

-- a step other than the reader's between the two readings at the beginning of `tlm_get_read_buffer`
abbrev pub is_measured : Writer → Bool
is_measured (measured want n) = true
is_measured _ = false

abbrev pub IsApart : {s t : Restore} → Step s t → Type 0
IsApart {s = s} (read bytes e) = is_measured s.writer ≡ false
IsApart (call want e) = Unit
IsApart (enter want e) = Unit
IsApart (release want n e) = Unit
IsApart (look want e) = Unit
IsApart (test want n e) = Unit
IsApart (wake want e) = Unit

-- what only such steps lead to
pub data ReachableApart (xfer_size : ℕ) : Restore → Type 0 where
  start_apart : ReachableApart xfer_size (restore_start xfer_size)
  next_apart :
      {s t : Restore}
      → ReachableApart xfer_size s
      → (p : Step s t) → IsApart p
      → ReachableApart xfer_size t

pub data Reachable (xfer_size : ℕ) : Restore → Type 0 where
  start : Reachable xfer_size (restore_start xfer_size)
  next : {s t : Restore} → Reachable xfer_size s → Step s t → Reachable xfer_size t
