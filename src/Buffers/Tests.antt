-- ===== src/Buffers/Tests.antt =====
-- tlm/tlm_lib.c: buffers of small sizes.
use ndmpd.Common.{ℕ, ◌≡◌, refl, [], ◌∷◌, ◌++◌, List, drop, arith, false}
use ndmpd.Buffers.{tlm_allocate_buffers, aligned, grant_write, granted}
use ndmpd.Buffers.Backup.{
  Backup, Reader, outside, ended, backup_start, get_write_buffer, fill, write_tar_eof, write_buffer,
  writer_round, send_buffer,
}
use ndmpd.Buffers.Backup as Backups
use ndmpd.Buffers.Backup.Stream.{sent_prefix, sent_all}
use ndmpd.Buffers.Backup.Livelock.{Later, InLoop, livelock}
use ndmpd.Buffers.Restore.{
  Restore, restore_start, get_read_buffer, read_buffer, reader_round, begin, release_used,
  test_full, finish, hand_out,
}
use ndmpd.Buffers.Restore as Restores
use ndmpd.Buffers.Restore.Stream.{restore_refines}
use ndmpd.Buffers.Restore.Race.{block_lost}
use ndmpd.Buffers.Restore.Queue.{FifoStep, view}

-- a backup of three bytes with a buffer of four, up to the end of the archive
abbrev filled : Backup
unfolding backup_start get_write_buffer fill
filled = fill 1 (7 ∷ 8 ∷ 9 ∷ 6 ∷ []) (get_write_buffer 1 (backup_start 4))

abbrev flushed : Backup
unfolding filled write_tar_eof writer_round
flushed = writer_round (write_tar_eof filled)

filled_reachable : Backups.Reachable 4 filled
unfolding filled backup_start get_write_buffer fill grant_write granted aligned tlm_allocate_buffers
filled_reachable =
    let b = get_write_buffer 1 (backup_start 4) in
    let r : Backups.Reachable 4 b =
      Backups.next {s = backup_start 4} Backups.start (Backups.call 1 refl) in
    Backups.next {s = b} r (Backups.give 1 (7 ∷ 8 ∷ 9 ∷ 6 ∷ []) refl (omega arith) refl)

flushed_reachable : Backups.Reachable 4 flushed
unfolding flushed filled backup_start get_write_buffer fill grant_write granted aligned
    tlm_allocate_buffers
flushed_reachable =
    let r : Backups.Reachable 4 (write_tar_eof filled) =
      Backups.next {s = filled} filled_reachable (Backups.eof refl) in
    Backups.next {s = write_tar_eof filled} r Backups.write

sent_prefix_example : (rest : List ℕ) × (filled.produced ≡ filled.sent ++ rest)
unfolding filled fill
sent_prefix_example = sent_prefix 4 filled filled_reachable (λ q. absurd (cc))

sent_all_example :
    flushed.sent
    ≡ flushed.produced ++ drop flushed.buffers.tb_buffer_spot flushed.buffers.tb_buffer_data
unfolding flushed filled write_tar_eof writer_round write_buffer fill
sent_all_example = sent_all 4 flushed flushed_reachable refl refl

livelock_example :
    (s : Backup) × (Backups.Reachable 512 s
      × ((t : Backup)
          → Later s t
          → (t.produced ≡ s.produced) × ((t.sent ≡ s.sent) × InLoop t.reader)))
livelock_example = livelock 512 (omega arith)

-- a restore that has read a block of two bytes and asks for a record
abbrev loaded : Restore
unfolding reader_round restore_start
loaded = reader_round (5 ∷ 6 ∷ []) (restore_start 2)

abbrev asked : Restore
unfolding loaded get_read_buffer
asked = begin 1 (get_read_buffer 1 loaded)

loaded_apart : Restores.ReachableApart 2 loaded
unfolding loaded reader_round restore_start tlm_allocate_buffers
loaded_apart =
    Restores.next_apart {s = restore_start 2} Restores.start_apart (Restores.read (5 ∷ 6 ∷ []) refl)
      refl

abbrev sized : Restore
unfolding asked release_used
sized = release_used 1 2 asked

sized_apart : Restores.ReachableApart 2 sized
unfolding sized asked loaded reader_round read_buffer restore_start tlm_allocate_buffers
    get_read_buffer release_used
sized_apart =
    let r : Restores.ReachableApart 2 (get_read_buffer 1 loaded) =
      Restores.next_apart {s = loaded} loaded_apart (Restores.call 1 refl) tt in
    let q : Restores.ReachableApart 2 asked =
      Restores.next_apart {s = get_read_buffer 1 loaded} r (Restores.enter 1 refl) tt in
    Restores.next_apart {s = asked} q (Restores.release 1 2 refl) tt

sized_test : Restores.Step sized (test_full 1 2 sized)
unfolding sized asked loaded reader_round read_buffer restore_start tlm_allocate_buffers
    get_read_buffer release_used
sized_test = Restores.test 1 2 refl

restore_refines_example : FifoStep (view sized) (view (test_full 1 2 sized))
unfolding sized_test
restore_refines_example = restore_refines 2 sized (test_full 1 2 sized) sized_apart sized_test tt

-- the record is given out, and another one is asked for, for which the thread waits
abbrev emptied : Restore
unfolding sized test_full finish hand_out aligned
emptied = test_full 1 2 sized

abbrev idle_wait : Restore
unfolding emptied get_read_buffer release_used
idle_wait =
    test_full 1 0 (Restores.measure 1 (release_used 1 0 (begin 1 (get_read_buffer 1 emptied))))

idle_wait_apart : Restores.ReachableApart 2 idle_wait
unfolding idle_wait emptied sized asked loaded reader_round read_buffer restore_start
    tlm_allocate_buffers get_read_buffer release_used test_full finish hand_out aligned sized_test
idle_wait_apart =
    let a : Restores.ReachableApart 2 emptied =
      Restores.next_apart {s = sized} sized_apart sized_test tt in
    let b : Restores.ReachableApart 2 (get_read_buffer 1 emptied) =
      Restores.next_apart {s = emptied} a (Restores.call 1 refl) tt in
    let s2 = begin 1 (get_read_buffer 1 emptied) in
    let c : Restores.ReachableApart 2 s2 =
      Restores.next_apart {s = get_read_buffer 1 emptied} b (Restores.enter 1 refl) tt in
    let s3 = release_used 1 0 s2 in
    let d : Restores.ReachableApart 2 s3 =
      Restores.next_apart {s = s2} c (Restores.release 1 0 refl) tt in
    let s4 = Restores.measure 1 s3 in
    let e : Restores.ReachableApart 2 s4 =
      Restores.next_apart {s = s3} d (Restores.look 1 refl) tt in
    Restores.next_apart {s = s4} e (Restores.test 1 0 refl) tt

block_lost_example :
    (t : Restore) × Restores.Reachable 2 t
    × (t.received ≡ 5 ∷ 6 ∷ 7 ∷ 8 ∷ [])
    × (t.consumed ≡ 5 ∷ 6 ∷ [])
    × (t.buffers.tb_full ≡ false)
    × ((view t).queue ≡ [])
unfolding idle_wait emptied sized asked loaded reader_round read_buffer restore_start
    tlm_allocate_buffers get_read_buffer release_used test_full finish hand_out aligned
block_lost_example = block_lost 2 1 idle_wait (7 ∷ 8 ∷ []) idle_wait_apart refl refl refl refl
