-- ===== src/Buffers/Backup.antt =====
-- tlm/tlm_backup_reader.c, tlm/tlm_lib.c and src/ndmpd_tar_v3.c: the threads of a backup. One makes
-- the archive and gets its records from `get_write_buffer`, the other is `ndmp_tar_writer_v3`. Each
-- step stands for what a thread does between two points at which it waits or the other thread may see
-- a change.
pub mod Phases
pub mod Stream
pub mod Livelock
use ndmpd.Common.{
  ℕ, zero, suc, ◌+◌, ◌-◌, ◌<◌, ◌≤◌, ◌≡◌, Bool, true, false, List, [], ◌∷◌, ◌++◌, leb, ltb, ◌==◌,
  if◌then◌else◌, length, take, drop,
}
use ndmpd.Buffers.{
  TlmBuffers, tlm_buffer_release_in_buf, tlm_buffer_release_out_buf, tlm_buffer_in_buf_timed_wait,
  tlm_buffer_out_buf_timed_wait, set_write_buf_done, space, granted, grant_write, overlay,
  tlm_allocate_buffers,
}

-- Where the thread of the archive is: outside `get_write_buffer`; at the call of
-- `tlm_get_write_buffer` in its loop; at the wait in that; or behind `write_tar_eof`.
pub data Reader : Type 0 where
  outside : Reader
  getting : ℕ → Reader
  waiting : ℕ → Reader
  ended : Reader

-- `produced` are the bytes that the archive's thread has put into its records, and `sent` those that
-- were given to MOD_WRITE.
pub record Backup : Type 0 where
  pub reader : Reader
  pub buffers : TlmBuffers
  pub produced : List ℕ
  pub sent : List ℕ

unfoldable pub backup_start : ℕ → Backup
unfolding tlm_allocate_buffers
backup_start xfer_size = record {
  reader = outside;
  buffers = tlm_allocate_buffers true xfer_size;
  produced = [];
  sent = [];
}

-- `get_write_buffer` is called
unfoldable pub get_write_buffer : ℕ → Backup → Backup
get_write_buffer want s = record s { reader = getting want; buffers = set_write_buf_done s.buffers }

-- the record that is given out, filled with bytes before the next call
unfoldable pub fill : ℕ → List ℕ → Backup → Backup
unfolding grant_write
fill want bytes s = record s {
  reader = outside;
  buffers = record (grant_write want s.buffers) {
    tb_buffer_data = overlay s.buffers.tb_buffer_data s.buffers.tb_buffer_spot bytes;
  };
  produced = s.produced ++ bytes;
}

-- `tlm_get_write_buffer` without room: a buffer that is not full is marked full
unfoldable pub send_buffer : TlmBuffers → TlmBuffers
send_buffer b = if b.tb_full then b else tlm_buffer_release_in_buf (record b { tb_full = true })

unfoldable pub no_room : ℕ → Backup → Backup
unfolding send_buffer
no_room want s = record s { reader = waiting want; buffers = send_buffer s.buffers }

-- behind the wait
unfoldable pub still_full : ℕ → Backup → Backup
still_full want s = record s {
  reader = getting want;
  buffers = tlm_buffer_out_buf_timed_wait s.buffers;
}

-- the buffer is empty again; `waited` tells whether it was seen full before
unfoldable pub reset_spot : Bool → Backup → Backup
reset_spot waited s = record s {
  buffers = record s.buffers {
    tb_buffer_spot = 0;
    tbs_out_ready = if waited then false else s.buffers.tbs_out_ready;
  };
}

unfoldable pub write_tar_eof : Backup → Backup
write_tar_eof s = record s {
  reader = ended;
  buffers =
      tlm_buffer_release_in_buf (record s.buffers { tb_write_buf_filled = true; tb_full = true });
}

-- A round of `ndmp_tar_writer_v3` whose MOD_WRITE succeeds
unfoldable pub write_buffer : Backup → Backup
write_buffer s = record s {
  buffers = tlm_buffer_release_out_buf (record s.buffers {
    tb_write_buf_filled = false;
    tb_full = false;
    tb_eof = false;
    tb_eot = false;
    tb_errno = 0;
  });
  sent = s.sent ++ take s.buffers.tb_buffer_size s.buffers.tb_buffer_data;
}

unfoldable pub writer_round : Backup → Backup
unfolding write_buffer
writer_round s =
    if s.buffers.tb_full
    then if s.buffers.tb_write_buf_filled then write_buffer s else s
    else record s { buffers = tlm_buffer_in_buf_timed_wait s.buffers }

-- The steps of both threads, in any order, while no thread is told to stop
pub data Step (s : Backup) : Backup → Type 0 where
  call : (want : ℕ) → s.reader ≡ outside → Step s (get_write_buffer want s)
  give :
      (want : ℕ) (bytes : List ℕ)
      → s.reader ≡ getting want
      → 0 < space s.buffers
      → length bytes ≡ granted want s.buffers
      → Step s (fill want bytes s)
  full_up : (want : ℕ) → s.reader ≡ getting want → space s.buffers ≡ 0 → Step s (no_room want s)
  retry :
      (want : ℕ) → s.reader ≡ waiting want → s.buffers.tb_full ≡ true → Step s (still_full want s)
  give_next :
      (want : ℕ) (waited : Bool) (bytes : List ℕ)
      → s.reader ≡ waiting want
      → s.buffers.tb_full ≡ false
      → length bytes ≡ granted want (reset_spot waited s).buffers
      → Step s (fill want bytes (reset_spot waited s))
  eof : s.reader ≡ outside → Step s (write_tar_eof s)
  write : Step s (writer_round s)

pub data Reachable (xfer_size : ℕ) : Backup → Type 0 where
  start : Reachable xfer_size (backup_start xfer_size)
  next : {s t : Backup} → Reachable xfer_size s → Step s t → Reachable xfer_size t
