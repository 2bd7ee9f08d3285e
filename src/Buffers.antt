-- ===== src/Buffers.antt =====
-- tlm/tlm_buffers.c and tlm/tlm_lib.c: the buffer between the thread that makes or unpacks the archive
-- and the thread that moves it over the data connection. TLM_TAPE_BUFFERS of include/tlm.h is 1, so
-- that the pool is one buffer, both its indices stay 0, and to advance one gives the buffer again.
pub mod Sizes
pub mod Backup
pub mod Restore
mod Tests
use ndmpd.Common.{
  ℕ, zero, suc, ◌+◌, ◌-◌, ◌*◌, ◌/◌, Bool, true, false, List, [], ◌∷◌, ◌++◌, leb, ltb, if◌then◌else◌,
  length, take, drop, replicate,
}

-- `tlm_buffer_t` and the fields of `tlm_buffers_t` that the threads share. A buffer's data is the list
-- of its bytes.
pub record TlmBuffers : Type 0 where
  pub tb_buffer_data : List ℕ
  pub tb_buffer_size : ℕ
  pub tb_buffer_spot : ℕ
  pub tb_full : Bool
  pub tb_eof : Bool
  pub tb_eot : Bool
  pub tb_write_buf_filled : Bool
  pub tb_read_buf_read : Bool
  pub tb_errno : ℕ
  pub tbs_in_ready : Bool
  pub tbs_out_ready : Bool
  pub tbs_ref : ℕ
  pub tbs_data_transfer_size : ℕ
  pub tbs_offset : ℕ

-- with the memory there is; the memory is cleared
unfoldable pub tlm_allocate_buffers : Bool → ℕ → TlmBuffers
tlm_allocate_buffers write xfer_size = record {
  tb_buffer_data = replicate xfer_size 0;
  tb_buffer_size = if write then xfer_size else 0;
  tb_buffer_spot = 0;
  tb_full = false;
  tb_eof = false;
  tb_eot = false;
  tb_write_buf_filled = true;
  tb_read_buf_read = true;
  tb_errno = 0;
  tbs_in_ready = false;
  tbs_out_ready = false;
  tbs_ref = 1;
  tbs_data_transfer_size = xfer_size;
  tbs_offset = 0;
}

unfoldable pub tlm_buffer_mark_empty : TlmBuffers → TlmBuffers
tlm_buffer_mark_empty b = record b { tb_full = false; tb_eof = false; tb_eot = false; tb_errno = 0 }

abbrev pub tlm_buffer_release_in_buf : TlmBuffers → TlmBuffers
tlm_buffer_release_in_buf b = record b { tbs_in_ready = true }

abbrev pub tlm_buffer_release_out_buf : TlmBuffers → TlmBuffers
tlm_buffer_release_out_buf b = record b { tbs_out_ready = true }

-- What the timed waits leave behind, whether the signal or the time ended them
abbrev pub tlm_buffer_in_buf_timed_wait : TlmBuffers → TlmBuffers
tlm_buffer_in_buf_timed_wait b = record b { tbs_in_ready = false }

abbrev pub tlm_buffer_out_buf_timed_wait : TlmBuffers → TlmBuffers
tlm_buffer_out_buf_timed_wait b = record b { tbs_out_ready = false }

abbrev pub set_write_buf_done : TlmBuffers → TlmBuffers
set_write_buf_done b = record b { tb_write_buf_filled = true }

abbrev pub set_read_buf_done : TlmBuffers → TlmBuffers
set_read_buf_done b = record b { tb_read_buf_read = true }

-- the size in whole records of 512 bytes
unfoldable pub aligned : ℕ → ℕ
aligned want = (want + 511) / 512 * 512

abbrev pub min : ℕ → ℕ → ℕ
min x y = if ltb y x then y else x

-- what is behind the current location
abbrev pub space : TlmBuffers → ℕ
space b = b.tb_buffer_size - b.tb_buffer_spot

unfoldable pub granted : ℕ → TlmBuffers → ℕ
unfolding aligned
granted want b = min (aligned want) (space b)

-- The record that `tlm_get_write_buffer` gives out
unfoldable pub grant_write : ℕ → TlmBuffers → TlmBuffers
unfolding granted
grant_write want b = record b {
  tb_buffer_spot = b.tb_buffer_spot + granted want b;
  tbs_offset = b.tbs_offset + granted want b;
}

unfoldable pub grant_read : ℕ → TlmBuffers → TlmBuffers
unfolding granted
grant_read want b = record b { tb_buffer_spot = b.tb_buffer_spot + granted want b }

unfoldable pub tlm_unget_read_buffer : ℕ → TlmBuffers → TlmBuffers
unfolding aligned
tlm_unget_read_buffer size b = record b {
  tb_buffer_spot = b.tb_buffer_spot - min (aligned size) b.tb_buffer_spot;
}

unfoldable pub tlm_unget_write_buffer : ℕ → TlmBuffers → TlmBuffers
unfolding aligned
tlm_unget_write_buffer size b = record b {
  tb_buffer_spot = b.tb_buffer_spot - min (aligned size) b.tb_buffer_spot;
}

-- bytes written over the data from a position on
abbrev pub overlay : List ℕ → ℕ → List ℕ → List ℕ
overlay mem spot bytes = take spot mem ++ (bytes ++ drop (spot + length bytes) mem)

-- the bytes between two positions
abbrev pub slice : List ℕ → ℕ → ℕ → List ℕ
slice mem spot n = take n (drop spot mem)
