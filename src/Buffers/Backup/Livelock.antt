-- ===== src/Buffers/Backup/Livelock.antt =====
-- tlm/tlm_lib.c and src/ndmpd_tar_v3.c: a backup whose threads wait for each other without end.
use ndmpd.Common.{
  length-replicate, if-cases, ℕ, ◌+◌, ◌-◌, ◌<◌, ◌≡◌, refl, sym, ◌∙◌, true, false, List, replicate,
  arith,
}
use ndmpd.Buffers.{space, min, aligned, granted, grant_write, tlm_allocate_buffers}
use ndmpd.Buffers.Backup.{
  Reader, outside, getting, waiting, ended, Backup, get_write_buffer, fill, send_buffer, no_room,
  still_full, write_buffer, writer_round, Step, call, give, full_up, retry, give_next, eof, write,
  Reachable, start, next, backup_start,
}

-- in the loop of `get_write_buffer`
abbrev pub InLoop : Reader → Type 0
InLoop outside = ⊥
InLoop (getting want) = Unit
InLoop (waiting want) = Unit
InLoop ended = ⊥

-- The buffer is marked full again after it was sent: the writer waits for it to be filled, and the
-- archive's thread, in the loop of `get_write_buffer`, for it to be sent.
pub record Livelocked (produced sent : List ℕ) (s : Backup) : Type 0 where
  pub in_loop : InLoop s.reader
  pub used_up : space s.buffers ≡ 0
  pub marked_full : s.buffers.tb_full ≡ true
  pub not_filled : s.buffers.tb_write_buf_filled ≡ false
  pub same_produced : s.produced ≡ produced
  pub same_sent : s.sent ≡ sent

Livelocked-full_up :
    (produced sent : List ℕ) (want : ℕ) (s : Backup)
    → Livelocked produced sent s
    → Livelocked produced sent (no_room want s)
unfolding no_room send_buffer
Livelocked-full_up produced sent want s l =
    if-cases (λ b. Livelocked produced sent (record s { reader = waiting want; buffers = b }))
      s.buffers.tb_full
      (λ f. record {
        in_loop = tt;
        used_up = l.used_up;
        marked_full = f;
        not_filled = l.not_filled;
        same_produced = l.same_produced;
        same_sent = l.same_sent;
      })
      (λ f. absurd (ground (arith, l.marked_full, f)))

Livelocked-write :
    (produced sent : List ℕ) (s : Backup)
    → Livelocked produced sent s
    → Livelocked produced sent (writer_round s)
unfolding writer_round
Livelocked-write produced sent s l =
    if-cases (Livelocked produced sent) s.buffers.tb_full
      (λ f.
        if-cases (Livelocked produced sent) s.buffers.tb_write_buf_filled
          (λ w. absurd (ground (arith, l.not_filled, w))) (λ w. l))
      (λ f. absurd (ground (arith, l.marked_full, f)))

livelock_step :
    (produced sent : List ℕ) (s t : Backup)
    → Step s t
    → Livelocked produced sent s
    → Livelocked produced sent t
unfolding still_full
livelock_step produced sent s t (call want e) l = absurd (rw e at l.in_loop)
livelock_step produced sent s t (give want bytes e h n) l = absurd (omega (arith, h, l.used_up))
livelock_step produced sent s t (full_up want e z) l = Livelocked-full_up produced sent want s l
livelock_step produced sent s t (retry want e f) l = record {
  in_loop = tt;
  used_up = l.used_up;
  marked_full = l.marked_full;
  not_filled = l.not_filled;
  same_produced = l.same_produced;
  same_sent = l.same_sent;
}
livelock_step produced sent s t (give_next want waited bytes e f n) l =
    absurd (ground (arith, l.marked_full, f))
livelock_step produced sent s t (eof e) l = absurd (rw e at l.in_loop)
livelock_step produced sent s t write l = Livelocked-write produced sent s l

-- the archive's thread fills the buffer, asks for more, its wait ends before the buffer is sent, and
-- the buffer is sent before it asks again
abbrev before_sent : ℕ → Backup
unfolding still_full no_room get_write_buffer fill backup_start
before_sent n =
    still_full n (
      no_room n (get_write_buffer n (fill n (replicate n 0) (get_write_buffer n (backup_start n)))))

abbrev too_late : ℕ → Backup
unfolding no_room writer_round before_sent
too_late n = no_room n (writer_round (before_sent n))

whole_buffer : (n : ℕ) → min (aligned n) (n - 0) ≡ n
unfolding aligned
whole_buffer n = ground arith

used_up_lem : (n : ℕ) → n - (0 + min (aligned n) (n - 0)) ≡ 0
used_up_lem n = omega (arith, whole_buffer n)

before_sent-Reachable : (n : ℕ) → 0 < n → Reachable n (before_sent n)
unfolding before_sent still_full no_room send_buffer get_write_buffer fill grant_write granted
    backup_start tlm_allocate_buffers
before_sent-Reachable n h =
    let b0 = backup_start n in
    let b1 = get_write_buffer n b0 in
    let b2 = fill n (replicate n 0) b1 in
    let b3 = get_write_buffer n b2 in
    let b4 = no_room n b3 in
    let s1 : Reachable n b1 = next {s = b0} start (call n refl) in
    let s2 : Reachable n b2 = next {s = b1} s1 (
      give n (replicate n 0) refl (omega (arith, h))
        (length-replicate n 0 ∙ sym (whole_buffer n))) in
    let s3 : Reachable n b3 = next {s = b2} s2 (call n refl) in
    let s4 : Reachable n b4 = next {s = b3} s3 (full_up n refl (used_up_lem n)) in
    next {s = b4} s4 (retry n refl refl)

-- the states that follow a state
pub data Later (s : Backup) : Backup → Type 0 where
  now : Later s s
  after : {t u : Backup} → Later s t → Step t u → Later s u

livelock-later :
    (produced sent : List ℕ) (s t : Backup)
    → Livelocked produced sent s
    → Later s t
    → Livelocked produced sent t
livelock-later produced sent s _ l now = l
livelock-later produced sent s u l (after {t = t} f p) =
    livelock_step produced sent t u p (livelock-later produced sent s t l f)

too_late-Livelocked : (n : ℕ) → Livelocked (too_late n).produced (too_late n).sent (too_late n)
unfolding too_late before_sent no_room writer_round write_buffer send_buffer still_full
    get_write_buffer fill grant_write granted backup_start tlm_allocate_buffers
too_late-Livelocked n = record {
  in_loop = tt;
  used_up = used_up_lem n;
  marked_full = refl;
  not_filled = refl;
  same_produced = refl;
  same_sent = refl;
}

too_late-Reachable : (n : ℕ) → 0 < n → Reachable n (too_late n)
unfolding too_late before_sent no_room writer_round write_buffer send_buffer still_full
    get_write_buffer fill grant_write granted backup_start tlm_allocate_buffers
too_late-Reachable n h =
    next (next (before_sent-Reachable n h) write) (full_up n refl (used_up_lem n))

-- For every size of the buffer, some order of the steps, in which the buffer is sent between the end
-- of a wait and the next call of `tlm_get_write_buffer`, leads to a state from which no step of
-- either thread produces or sends any byte again, and the archive's thread stays in its loop.
pub livelock :
    (xfer_size : ℕ)
    → 0 < xfer_size
    → (s : Backup) × (Reachable xfer_size s
        × ((t : Backup)
            → Later s t
            → (t.produced ≡ s.produced) × ((t.sent ≡ s.sent) × InLoop t.reader)))
livelock n h = (
  too_late n,
  (
    too_late-Reachable n h,
    λ t f.
        let l =
          livelock-later (too_late n).produced (too_late n).sent (too_late n) t
            (too_late-Livelocked n) f in
        (l.same_produced, (l.same_sent, l.in_loop)),
  ),
)
