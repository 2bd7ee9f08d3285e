-- ===== src/Buffers/Restore/Stream.antt =====
-- tlm/tlm_restore_writer.c and src/ndmpd_tar_v3.c: a restore's buffer is a queue of bytes, in every
-- order of the threads' steps.
use ndmpd.Common.{
  if-cases, ℕ, zero, suc, ◌≤◌, ◌≡◌, refl, sym, ap, ◌∙◌, Bool, true, false, List, [], ◌∷◌, ◌++◌,
  ◌==◌, length, drop, arith, Bool-cases, inl, inr, append-nil,
}
use ndmpd.Buffers.{space, tlm_allocate_buffers}
use ndmpd.Buffers.Restore.{
  Writer, outside, getting, measured, released, testing, waiting, Restore, restore_start,
  read_buffer, reader_round, get_read_buffer, begin, test_full, after_wait, Step, call, enter, look,
  test, wake, read, release, release_used, is_measured, IsApart, ReachableApart, start_apart,
  next_apart,
}
use ndmpd.Buffers.Restore.Queue.{
  FifoStep, held, view, MeasuredIn, Inv, Good, finish-Good, put, idle,
}

-- a change of the place only
moved :
    (w : Writer) (s : Restore) → MeasuredIn w s.buffers → Inv s → Good s (record s { writer = w })
moved w s m v = (
  record {
    spot_le = v.spot_le;
    used_up = v.used_up;
    length_data = v.length_data;
    measured = m;
    stream = v.stream;
  },
  idle refl refl refl,
)

drop_all : (n : ℕ) (mem : List ℕ) → length mem ≤ n → drop n mem ≡ []
drop_all zero [] h = refl
drop_all (suc n) [] h = refl
drop_all zero (c ∷ mem) h = absurd (omega arith)
drop_all (suc n) (c ∷ mem) h = drop_all n mem (omega arith)

held-empty :
    (full : Bool) (spot size : ℕ) (mem : List ℕ)
    → (full ≡ false → spot ≡ size)
    → (full ≡ true → length mem ≡ size)
    → size ≤ spot
    → held full spot mem ≡ []
held-empty true spot size mem u l h = drop_all spot mem (omega (arith, l refl, h))
held-empty false spot size mem u l h = refl

measured_space :
    (want : ℕ) (s : Restore) → Inv s → MeasuredIn (testing want (space s.buffers)) s.buffers
measured_space want s v = elim (Bool-cases s.buffers.tb_full) [
  | inl f ↦ inr (f, refl)
  | inr f ↦ inl (omega (arith, v.used_up f))
]

begin-Good : (want : ℕ) (s : Restore) → Inv s → Good s (begin want s)
begin-Good want s v =
    moved (measured want (space s.buffers)) s (refl, λ f. omega (arith, v.used_up f)) v

release-Good :
    (want n : ℕ) (s : Restore)
    → MeasuredIn (measured want n) s.buffers
    → Inv s
    → Good s (release_used want n s)
unfolding release_used
release-Good want n s (m, u) v =
    let b = s.buffers in
    if-cases (Good s) b.tb_full
      (λ f.
        if-cases (Good s) (n == 0)
          (λ z.
            let end : b.tb_buffer_spot ≡ b.tb_buffer_size = ground (arith, z, m, v.spot_le) in
            let none_left =
              held-empty b.tb_full b.tb_buffer_spot b.tb_buffer_size b.tb_buffer_data v.used_up
                v.length_data (omega (arith, end)) in
            (
              record {
                spot_le = v.spot_le;
                used_up = λ q. end;
                length_data = λ q. absurd (cc);
                measured = tt;
                stream = v.stream ∙ ap (λ r. s.consumed ++ r) none_left;
              },
              idle (sym none_left) refl refl,
            ))
          (λ z. moved (testing want n) s (inr (f, m)) v))
      (λ f. moved (testing want n) s (inl (u f)) v)

test-Good :
    (want n : ℕ) (s : Restore)
    → MeasuredIn (testing want n) s.buffers
    → Inv s
    → Good s (test_full want n s)
unfolding test_full
test-Good want n s m v =
    if-cases (Good s) s.buffers.tb_full
      (λ f.
        finish-Good want n s f (elim m [ inl e ↦ omega (arith, e) | inr p ↦ omega (arith, p.1) ]) v)
      (λ f. moved (waiting want) s tt v)

flag-Inv :
    (s : Restore) (i o : Bool)
    → Inv s
    → Inv (record s { buffers = record s.buffers { tbs_in_ready = i; tbs_out_ready = o } })
flag-Inv s i o v = record {
  spot_le = v.spot_le;
  used_up = v.used_up;
  length_data = v.length_data;
  stream = v.stream;
  measured = v.measured;
}

wake-Good : (want : ℕ) (s : Restore) → Inv s → Good s (after_wait want s)
unfolding after_wait
wake-Good want s v =
    let t = record s { buffers = record s.buffers { tbs_in_ready = false } } in
    if-cases (Good s) s.buffers.tb_full
      (λ f.
        finish-Good want (space s.buffers) t f (omega arith)
          (flag-Inv s false s.buffers.tbs_out_ready v))
      (λ f. moved (getting want) t tt (flag-Inv s false s.buffers.tbs_out_ready v))

read-Good :
    (bytes : List ℕ) (s : Restore)
    → length bytes ≡ s.buffers.tbs_data_transfer_size
    → is_measured s.writer ≡ false
    → Inv s
    → Good s (reader_round bytes s)
unfolding reader_round read_buffer
read-Good bytes s l apart v =
    if-cases (Good s) s.buffers.tb_full
      (λ f. (flag-Inv s s.buffers.tbs_in_ready false v, idle refl refl refl))
      (λ f.
        if-cases (Good s) s.buffers.tb_read_buf_read
          (λ r.
            let none_left =
              held-empty s.buffers.tb_full s.buffers.tb_buffer_spot s.buffers.tb_buffer_size
                s.buffers.tb_buffer_data v.used_up v.length_data (omega (arith, v.used_up f)) in
            (
              record {
                spot_le = omega arith;
                used_up = λ q. absurd (cc);
                length_data = λ q. l;
                measured = place s.writer apart v.measured f;
                stream =
                    ap (λ r. r ++ bytes)
                      (v.stream ∙ ap (λ r. s.consumed ++ r) none_left ∙ append-nil s.consumed);
              },
              put bytes none_left refl refl refl,
            ))
          (λ r. (v, idle refl refl refl)))
  where
    place :
        (w : Writer)
        → is_measured w ≡ false
        → MeasuredIn w s.buffers
        → s.buffers.tb_full ≡ false
        → MeasuredIn w (read_buffer bytes s).buffers
    place outside q m f = tt
    place (getting want) q m f = tt
    place (released want) q m f = tt
    place (measured want n) q m f = absurd (cc)
    place (testing want n) q (inl e) f = inl e
    place (testing want n) q (inr (g, e)) f = absurd (cc)
    place (waiting want) q m f = tt

step-Good : (s t : Restore) (p : Step s t) → IsApart p → Inv s → Good s t
unfolding get_read_buffer
step-Good s t (call want e) a v = (
  record {
    spot_le = v.spot_le;
    used_up = v.used_up;
    length_data = v.length_data;
    measured = tt;
    stream = v.stream;
  },
  idle refl refl refl,
)
step-Good s t (enter want e) a v = begin-Good want s v
step-Good s t (release want n e) a v = release-Good want n s (rw e at v.measured) v
step-Good s t (look want e) a v =
    moved (testing want (space s.buffers)) s (measured_space want s v) v
step-Good s t (test want n e) a v = test-Good want n s (rw e at v.measured) v
step-Good s t (wake want e) a v = wake-Good want s v
step-Good s t (read bytes l) a v = read-Good bytes s l a v

start-Inv : (xfer_size : ℕ) → Inv (restore_start xfer_size)
unfolding restore_start tlm_allocate_buffers
start-Inv xfer_size = record {
  spot_le = omega arith;
  used_up = λ q. refl;
  length_data = λ q. absurd (cc);
  measured = tt;
  stream = refl;
}

pub reachable-Inv : (xfer_size : ℕ) (s : Restore) → ReachableApart xfer_size s → Inv s
reachable-Inv xfer_size s start_apart = start-Inv xfer_size
reachable-Inv xfer_size t (next_apart {s = s} r p a) =
    (step-Good s t p a (reachable-Inv xfer_size s r)).0

-- As long as the reader's thread never acts between the two readings at the beginning of
-- `tlm_get_read_buffer`, of the size that is left and of the flag that the buffer is full, the buffer of
-- a restore refines a queue of bytes: each step of either thread puts the bytes that were read into the
-- empty queue, takes the first bytes of the queue as a record, or leaves it alone.
pub restore_refines :
    (xfer_size : ℕ) (s t : Restore)
    → ReachableApart xfer_size s
    → (p : Step s t) → IsApart p
    → FifoStep (view s) (view t)
restore_refines xfer_size s t r p a = (step-Good s t p a (reachable-Inv xfer_size s r)).1

-- In these orders of the threads' steps, the bytes of the records given out are the first of those
-- received, and the rest is in the buffer.
restore_stream :
    (xfer_size : ℕ) (s : Restore)
    → ReachableApart xfer_size s
    → s.received ≡ s.consumed ++ (view s).queue
restore_stream xfer_size s r = (reachable-Inv xfer_size s r).stream
