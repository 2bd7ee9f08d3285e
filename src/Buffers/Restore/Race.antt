-- ===== src/Buffers/Restore/Race.antt =====
-- tlm/tlm_lib.c: `tlm_get_read_buffer` reads the size that is left before it reads the flag that the
-- buffer is full, and the reader's thread may fill the buffer in between.
use ndmpd.Common.{ℕ, ◌≡◌, refl, ap, subst, true, false, List, [], ◌++◌, length, arith}
use ndmpd.Buffers.{space}
use ndmpd.Buffers.Restore.{
  getting, measured, waiting, Restore, read_buffer, reader_round, release_used, after_wait, begin,
  enter, release, wake, read, Reachable, start, next, ReachableApart, start_apart, next_apart,
}
use ndmpd.Buffers.Restore.Queue.{view}
use ndmpd.Buffers.Restore.Stream.{reachable-Inv}

-- an order of the steps in which the reader's thread does not interfere is one of the orders
apart-Reachable : (xfer_size : ℕ) (s : Restore) → ReachableApart xfer_size s → Reachable xfer_size s
apart-Reachable xfer_size s start_apart = start
apart-Reachable xfer_size t (next_apart {s = s} r p a) = next (apart-Reachable xfer_size s r) p

-- the archive's thread after a wait in vain
waited : (want : ℕ) → Restore → Restore
waited want s = record s {
  writer = getting want;
  buffers = record s.buffers { tbs_in_ready = false };
}

after_wait-waited :
    (want : ℕ) (s : Restore) → s.buffers.tb_full ≡ false → after_wait want s ≡ waited want s
unfolding after_wait waited
after_wait-waited want s f = rw f refl

reader_round-fills :
    (bytes : List ℕ) (s : Restore)
    → s.buffers.tb_full ≡ false
    → s.buffers.tb_read_buf_read ≡ true
    → reader_round bytes s ≡ read_buffer bytes s
unfolding reader_round
reader_round-fills bytes s f d = rw (f, d) refl

-- Without the restriction on the order, a block is lost: from a state in which the archive's thread waits
-- for a buffer that was used up and released, and the reader's thread may fill it, some steps of both
-- threads lead to a state in which the block that was read is neither in a record given out nor in the
-- buffer. The wait ends, the size that is left is read, which is 0, the buffer is filled, and it is
-- released as one that is full and used up.
pub block_lost :
    (xfer_size want : ℕ) (s : Restore) (bytes : List ℕ)
    → ReachableApart xfer_size s
    → s.writer ≡ waiting want
    → s.buffers.tb_full ≡ false
    → s.buffers.tb_read_buf_read ≡ true
    → length bytes ≡ s.buffers.tbs_data_transfer_size
    → (t : Restore) × Reachable xfer_size t
      × (t.received ≡ s.received ++ bytes)
      × (t.consumed ≡ s.consumed)
      × (t.buffers.tb_full ≡ false)
      × ((view t).queue ≡ [])
unfolding waited read_buffer release_used
block_lost xfer_size want s bytes r w f d l =
    let v = reachable-Inv xfer_size s r in
    let none_left : space s.buffers ≡ 0 = omega (arith, v.used_up f) in
    let s1 = waited want s in
    let s2 = begin want s1 in
    let s3 = read_buffer bytes s2 in
    let r1 : Reachable xfer_size s1 =
      subst (Reachable xfer_size) (after_wait-waited want s f)
        (next (apart-Reachable xfer_size s r) (wake want w)) in
    let r2 : Reachable xfer_size s2 = next {s = s1} r1 (enter want refl) in
    let r3 : Reachable xfer_size s3 =
      subst (Reachable xfer_size) (reader_round-fills bytes s2 f d)
        (next {s = s2} r2 (read bytes l)) in
    (
      release_used want 0 s3,
      next {s = s3} r3 (release want 0 (ap (measured want) none_left)),
      refl,
      refl,
      refl,
      refl,
    )
