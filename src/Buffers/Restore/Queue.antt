-- ===== src/Buffers/Restore/Queue.antt =====
-- tlm/tlm_lib.c: a queue of bytes, and the buffer of a restore as one.
use ndmpd.Common.{
  if-cases, ℕ, ◌+◌, ◌≤◌, ◌≡◌, ◌⊎◌, refl, sym, ap, ◌∙◌, Bool, true, false, List, [], ◌++◌, ◌==◌,
  length, drop, arith, append_assoc,
}
use ndmpd.Buffers.{TlmBuffers, space, aligned, min, slice}
use ndmpd.Buffers.Sizes.{slice-rest}
use ndmpd.Buffers.Restore.{
  Writer, outside, getting, measured, released, testing, waiting, Restore, hand_out, finish,
}

-- ## the specification: a queue of bytes

pub record Fifo : Type 0 where
  pub queue : List ℕ
  pub given : List ℕ
  pub taken : List ℕ

pub data FifoStep (s t : Fifo) : Type 0 where
  put :
      (bytes : List ℕ)
      → s.queue ≡ []
      → t.queue ≡ bytes
      → t.given ≡ s.given ++ bytes
      → t.taken ≡ s.taken
      → FifoStep s t
  get :
      (bytes : List ℕ)
      → s.queue ≡ bytes ++ t.queue
      → t.given ≡ s.given
      → t.taken ≡ s.taken ++ bytes
      → FifoStep s t
  idle : t.queue ≡ s.queue → t.given ≡ s.given → t.taken ≡ s.taken → FifoStep s t

-- what a buffer holds, with its flag `tb_full`
abbrev pub held : Bool → ℕ → List ℕ → List ℕ
held true spot mem = drop spot mem
held false spot mem = []

abbrev pub view : Restore → Fifo
view s = record {
  queue = held s.buffers.tb_full s.buffers.tb_buffer_spot s.buffers.tb_buffer_data;
  given = s.received;
  taken = s.consumed;
}

-- ## the invariant

-- `current_size` is 0, or it still is the space that there is
abbrev Measured : Writer → Bool → ℕ → Type 0
Measured outside full room = Unit
Measured (getting want) full room = Unit
Measured (measured want n) full room = (n ≡ room) × (full ≡ false → n ≡ 0)
Measured (released want) full room = Unit
Measured (testing want n) full room = (n ≡ 0) ⊎ ((full ≡ true) × (n ≡ room))
Measured (waiting want) full room = Unit

abbrev pub MeasuredIn : Writer → TlmBuffers → Type 0
MeasuredIn w b = Measured w b.tb_full (space b)

pub record Inv (s : Restore) : Type 0 where
  pub spot_le : s.buffers.tb_buffer_spot ≤ s.buffers.tb_buffer_size
  pub used_up : s.buffers.tb_full ≡ false → s.buffers.tb_buffer_spot ≡ s.buffers.tb_buffer_size
  pub length_data :
      s.buffers.tb_full ≡ true → length s.buffers.tb_buffer_data ≡ s.buffers.tb_buffer_size
  pub measured : MeasuredIn s.writer s.buffers
  pub stream :
      s.received
      ≡ s.consumed ++ held s.buffers.tb_full s.buffers.tb_buffer_spot s.buffers.tb_buffer_data

abbrev pub Good : Restore → Restore → Type 0
Good s t = Inv t × FifoStep (view s) (view t)

held-hand_out :
    (full : Bool) (spot n : ℕ) (mem : List ℕ)
    → full ≡ true
    → held full spot mem ≡ slice mem spot n ++ held full (spot + n) mem
held-hand_out true spot n mem e = sym (slice-rest mem spot n)
held-hand_out false spot n mem e = absurd (cc)

hand_out-Good :
    (want n : ℕ) (s : Restore)
    → s.buffers.tb_full ≡ true
    → n ≤ space s.buffers
    → Inv s
    → Good s (hand_out want n s)
unfolding hand_out
hand_out-Good want n s f le v =
    let b = s.buffers in
    let m = min (aligned want) n in
    let fits : m ≤ space b = ground (arith, le) in
    let split = held-hand_out b.tb_full b.tb_buffer_spot m b.tb_buffer_data f in
    (
      record {
        spot_le = omega (arith, fits, v.spot_le);
        used_up = λ e. absurd (cc);
        length_data = v.length_data;
        measured = tt;
        stream =
            v.stream
            ∙ ap (λ r. s.consumed ++ r) split
            ∙ sym (
                append_assoc s.consumed (slice b.tb_buffer_data b.tb_buffer_spot m)
                  (held b.tb_full (b.tb_buffer_spot + m) b.tb_buffer_data));
      },
      get (slice b.tb_buffer_data b.tb_buffer_spot m) split refl refl,
    )

pub finish-Good :
    (want n : ℕ) (s : Restore)
    → s.buffers.tb_full ≡ true
    → n ≤ space s.buffers
    → Inv s
    → Good s (finish want n s)
unfolding finish
finish-Good want n s f le v =
    if-cases (Good s) (n == 0)
      (λ e. (
        record {
          spot_le = v.spot_le;
          used_up = v.used_up;
          length_data = v.length_data;
          measured = tt;
          stream = v.stream;
        },
        idle refl refl refl,
      ))
      (λ e. hand_out-Good want n s f le v)
