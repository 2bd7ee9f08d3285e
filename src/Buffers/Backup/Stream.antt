-- ===== src/Buffers/Backup/Stream.antt =====
-- tlm/tlm_backup_reader.c and src/ndmpd_tar_v3.c: what a backup sends is what the archive's thread
-- produced, in every order of the threads' steps.
use ndmpd.Common.{
  take_all, take-drop, length-replicate, if-cases, ℕ, ◌<◌, ◌≡◌, refl, sym, ap, ◌∙◌, Bool, true,
  false, List, [], ◌++◌, length, take, drop, arith, Bool-cases, inl, inr, append_assoc, append-nil,
}
use ndmpd.Buffers.{TlmBuffers, space, granted, tlm_allocate_buffers}
use ndmpd.Buffers.Backup.{
  Reader, outside, getting, waiting, ended, Backup, backup_start, get_write_buffer, fill,
  send_buffer, no_room, still_full, reset_spot, write_tar_eof, write_buffer, writer_round, Step,
  call, give, full_up, retry, give_next, eof, write, Reachable, start, next,
}
use ndmpd.Buffers.Backup.Phases.{Held, Pending, Ended, Phase, Inv, getting_room, fill-Inv}

call-Inv : (want : ℕ) (s : Backup) → s.reader ≡ outside → Inv s → Inv (get_write_buffer want s)
unfolding get_write_buffer
call-Inv want s e v =
    let (f, h) : (s.buffers.tb_full ≡ false) × Held s.buffers s.produced s.sent = rw e at v.phase in
    record { length_data = v.length_data; spot_le = v.spot_le; phase = ((λ t. absurd (cc)), h) }

give-Inv :
    (want : ℕ) (bytes : List ℕ) (s : Backup)
    → s.reader ≡ getting want
    → 0 < space s.buffers
    → length bytes ≡ granted want s.buffers
    → Inv s
    → Inv (fill want bytes s)
give-Inv want bytes s e lt l v =
    let (f, h) = getting_room want s.buffers s.produced s.sent (rw e at v.phase) lt in
    fill-Inv want bytes s v.length_data v.spot_le f h l

full_up-Inv :
    (want : ℕ) (s : Backup)
    → s.reader ≡ getting want
    → space s.buffers ≡ 0
    → Inv s
    → Inv (no_room want s)
unfolding no_room send_buffer
full_up-Inv want s e z v =
    let (f, p) : Phase (getting want) s.buffers s.produced s.sent = rw e at v.phase in
    let at_end : s.buffers.tb_buffer_spot ≡ s.buffers.tb_buffer_size =
      omega (arith, z, v.spot_le) in
    elim (Bool-cases s.buffers.tb_full) [
      | inl t ↦ rw t (record {
        length_data = v.length_data;
        spot_le = v.spot_le;
        phase = (at_end, ((λ q. absurd (cc)), p));
      })
      | inr t ↦ rw t (record {
        length_data = v.length_data;
        spot_le = v.spot_le;
        phase = (at_end, ((λ q. absurd (cc)), p));
      })
    ]

retry-Inv : (want : ℕ) (s : Backup) → s.reader ≡ waiting want → Inv s → Inv (still_full want s)
unfolding still_full
retry-Inv want s e v =
    let (q, (f, p)) : Phase (waiting want) s.buffers s.produced s.sent = rw e at v.phase in
    record { length_data = v.length_data; spot_le = v.spot_le; phase = ((λ t. q), p) }

Pending-sent :
    (f : Bool) (size spot : ℕ) (mem produced sent : List ℕ)
    → f ≡ false
    → Pending f size spot mem produced sent
    → produced ≡ sent
Pending-sent true size spot mem produced sent e p = absurd (cc)
Pending-sent false size spot mem produced sent e (p, q) = p

give_next-Inv :
    (want : ℕ) (waited : Bool) (bytes : List ℕ) (s : Backup)
    → s.reader ≡ waiting want
    → s.buffers.tb_full ≡ false
    → length bytes ≡ granted want (reset_spot waited s).buffers
    → Inv s
    → Inv (fill want bytes (reset_spot waited s))
unfolding reset_spot
give_next-Inv want waited bytes s e t l v =
    let (q, (f, p)) : Phase (waiting want) s.buffers s.produced s.sent = rw e at v.phase in
    let sent =
      Pending-sent s.buffers.tb_write_buf_filled s.buffers.tb_buffer_size s.buffers.tb_buffer_spot
        s.buffers.tb_buffer_data s.produced s.sent (f t) p in
    fill-Inv want bytes (reset_spot waited s) v.length_data (omega arith) t
      (sent ∙ sym (append-nil s.sent)) l

eof-Inv : (s : Backup) → s.reader ≡ outside → Inv s → Inv (write_tar_eof s)
unfolding write_tar_eof
eof-Inv s e v =
    let (f, h) : (s.buffers.tb_full ≡ false) × Held s.buffers s.produced s.sent = rw e at v.phase in
    record { length_data = v.length_data; spot_le = v.spot_le; phase = h }

-- what a round of the writer does to the phase
write-Phase :
    (r : Reader) (s : Backup)
    → s.buffers.tb_full ≡ true
    → s.buffers.tb_write_buf_filled ≡ true
    → length s.buffers.tb_buffer_data ≡ s.buffers.tb_buffer_size
    → Phase r s.buffers s.produced s.sent
    → Phase r (write_buffer s).buffers (write_buffer s).produced (write_buffer s).sent
unfolding write_buffer
write-Phase outside s f w l (n, h) = absurd (cc)
write-Phase (getting want) s f w l (q, p) =
    let h : Held s.buffers s.produced s.sent = rw w at p in
    ((λ t. absurd (cc)), (h ∙ ap (λ k. s.sent ++ take k s.buffers.tb_buffer_data) (q f), q f))
write-Phase (waiting want) s f w l (q, (n, p)) =
    let h : Held s.buffers s.produced s.sent = rw w at p in
    (q, ((λ t. refl), (h ∙ ap (λ k. s.sent ++ take k s.buffers.tb_buffer_data) q, q)))
write-Phase ended s f w l p =
    let h : Held s.buffers s.produced s.sent = rw (f, w) at p in
    let b = s.buffers in
    ap (λ r. s.sent ++ r)
      (take_all b.tb_buffer_size b.tb_buffer_data (omega (arith, l))
        ∙ sym (take-drop b.tb_buffer_spot b.tb_buffer_data))
    ∙ sym (
        append_assoc s.sent (take b.tb_buffer_spot b.tb_buffer_data)
          (drop b.tb_buffer_spot b.tb_buffer_data))
    ∙ ap (λ r. r ++ drop b.tb_buffer_spot b.tb_buffer_data) (sym h)

write-Inv : (s : Backup) → Inv s → Inv (writer_round s)
unfolding writer_round
write-Inv s v =
    if-cases Inv s.buffers.tb_full
      (λ f.
        if-cases Inv s.buffers.tb_write_buf_filled
          (λ w.
            unfold write_buffer in
            (record {
              length_data = v.length_data;
              spot_le = v.spot_le;
              phase = write-Phase s.reader s f w v.length_data v.phase;
            }))
          (λ w. v))
      (λ f. record {
        length_data = v.length_data;
        spot_le = v.spot_le;
        phase = idle s.reader v.phase;
      })
  where
    idle :
        (r : Reader)
        → Phase r s.buffers s.produced s.sent
        → Phase r (record s.buffers { tbs_in_ready = false }) s.produced s.sent
    idle outside h = h
    idle (getting want) h = h
    idle (waiting want) h = h
    idle ended h = h

start-Inv : (xfer_size : ℕ) → Inv (backup_start xfer_size)
unfolding backup_start tlm_allocate_buffers
start-Inv xfer_size = record {
  length_data = length-replicate xfer_size 0;
  spot_le = omega arith;
  phase = (refl, refl);
}

step-Inv : (s t : Backup) → Step s t → Inv s → Inv t
step-Inv s t (call want e) v = call-Inv want s e v
step-Inv s t (give want bytes e h l) v = give-Inv want bytes s e h l v
step-Inv s t (full_up want e z) v = full_up-Inv want s e z v
step-Inv s t (retry want e f) v = retry-Inv want s e v
step-Inv s t (give_next want waited bytes e f l) v = give_next-Inv want waited bytes s e f l v
step-Inv s t (eof e) v = eof-Inv s e v
step-Inv s t write v = write-Inv s v

pub reachable-Inv : (xfer_size : ℕ) (s : Backup) → Reachable xfer_size s → Inv s
reachable-Inv xfer_size s start = start-Inv xfer_size
reachable-Inv xfer_size t (next {s = s} r p) = step-Inv s t p (reachable-Inv xfer_size s r)

Pending-prefix :
    (f : Bool) (size spot : ℕ) (mem produced sent : List ℕ)
    → Pending f size spot mem produced sent
    → (rest : List ℕ) × (produced ≡ sent ++ rest)
Pending-prefix true size spot mem produced sent e = (take spot mem, e)
Pending-prefix false size spot mem produced sent (e, q) = ([], e ∙ sym (append-nil sent))

Ended-prefix :
    (g f : Bool) (spot : ℕ) (mem produced sent : List ℕ)
    → g ≡ true
    → Ended g f spot mem produced sent
    → (rest : List ℕ) × (produced ≡ sent ++ rest)
Ended-prefix true true spot mem produced sent e p = (take spot mem, p)
Ended-prefix true false spot mem produced sent e p = absurd p
Ended-prefix false f spot mem produced sent e p = absurd (cc)

Phase-prefix :
    (r : Reader) (b : TlmBuffers) (produced sent : List ℕ)
    → (r ≡ ended → b.tb_full ≡ true)
    → Phase r b produced sent
    → (rest : List ℕ) × (produced ≡ sent ++ rest)
Phase-prefix outside b produced sent h (f, e) = (take b.tb_buffer_spot b.tb_buffer_data, e)
Phase-prefix (getting want) b produced sent h (f, p) =
    Pending-prefix b.tb_write_buf_filled b.tb_buffer_size b.tb_buffer_spot b.tb_buffer_data produced
      sent p
Phase-prefix (waiting want) b produced sent h (q, (f, p)) =
    Pending-prefix b.tb_write_buf_filled b.tb_buffer_size b.tb_buffer_spot b.tb_buffer_data produced
      sent p
Phase-prefix ended b produced sent h e =
    Ended-prefix b.tb_full b.tb_write_buf_filled b.tb_buffer_spot b.tb_buffer_data produced sent
      (h refl) e

-- In every order of the threads' steps, the bytes sent are the first of those that the archive's
-- thread produced, none lost, repeated or out of order, as long as the last buffer is not sent.
pub sent_prefix :
    (xfer_size : ℕ) (s : Backup)
    → Reachable xfer_size s
    → (s.reader ≡ ended → s.buffers.tb_full ≡ true)
    → (rest : List ℕ) × (s.produced ≡ s.sent ++ rest)
sent_prefix xfer_size s r h =
    Phase-prefix s.reader s.buffers s.produced s.sent h (reachable-Inv xfer_size s r).phase

-- Once the last buffer is sent behind `write_tar_eof`, all that was produced has been sent, and
-- behind it what the buffer held beyond its current location.
pub sent_all :
    (xfer_size : ℕ) (s : Backup)
    → Reachable xfer_size s
    → s.reader ≡ ended
    → s.buffers.tb_full ≡ false
    → s.sent ≡ s.produced ++ drop s.buffers.tb_buffer_spot s.buffers.tb_buffer_data
sent_all xfer_size s r e f =
    let p : Phase ended s.buffers s.produced s.sent = rw e at (reachable-Inv xfer_size s r).phase in
    rw f at p
