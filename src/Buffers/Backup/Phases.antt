-- ===== src/Buffers/Backup/Phases.antt =====
-- tlm/tlm_lib.c and src/ndmpd_tar_v3.c: what the buffer of a backup holds in each phase of the threads.
use ndmpd.Common.{
  ℕ, ◌+◌, ◌<◌, ◌≤◌, ◌≡◌, sym, ap, ◌∙◌, Bool, true, false, List, ◌++◌, length, take, drop, arith,
  Bool-cases, inl, inr, append_assoc,
}
use ndmpd.Buffers.{TlmBuffers, space, granted, grant_write, overlay}
use ndmpd.Buffers.Sizes.{granted_lem, take-overlay, length-overlay}
use ndmpd.Buffers.Backup.{Reader, outside, getting, waiting, ended, Backup, fill}

-- the bytes produced are those sent and those in the buffer
abbrev pub Held : TlmBuffers → List ℕ → List ℕ → Type 0
Held b produced sent = produced ≡ sent ++ take b.tb_buffer_spot b.tb_buffer_data

-- the same, or all is sent and the buffer used up, with the flag `tb_write_buf_filled`
abbrev pub Pending : Bool → ℕ → ℕ → List ℕ → List ℕ → List ℕ → Type 0
Pending true size spot mem produced sent = produced ≡ sent ++ take spot mem
Pending false size spot mem produced sent = (produced ≡ sent) × (spot ≡ size)

abbrev PendingIn : TlmBuffers → List ℕ → List ℕ → Type 0
PendingIn b produced sent =
    Pending b.tb_write_buf_filled b.tb_buffer_size b.tb_buffer_spot b.tb_buffer_data produced sent

-- behind `write_tar_eof`, with the flags `tb_full` and `tb_write_buf_filled`
abbrev pub Ended : Bool → Bool → ℕ → List ℕ → List ℕ → List ℕ → Type 0
Ended true true spot mem produced sent = produced ≡ sent ++ take spot mem
Ended true false spot mem produced sent = ⊥
Ended false f spot mem produced sent = sent ≡ produced ++ drop spot mem

abbrev pub Phase : Reader → TlmBuffers → List ℕ → List ℕ → Type 0
Phase outside b produced sent = (b.tb_full ≡ false) × Held b produced sent
Phase (getting want) b produced sent =
    (b.tb_full ≡ true → b.tb_buffer_spot ≡ b.tb_buffer_size) × PendingIn b produced sent
Phase (waiting want) b produced sent =
    (b.tb_buffer_spot ≡ b.tb_buffer_size)
    × ((b.tb_full ≡ false → b.tb_write_buf_filled ≡ false) × PendingIn b produced sent)
Phase ended b produced sent =
    Ended b.tb_full b.tb_write_buf_filled b.tb_buffer_spot b.tb_buffer_data produced sent

pub record Inv (s : Backup) : Type 0 where
  pub length_data : length s.buffers.tb_buffer_data ≡ s.buffers.tb_buffer_size
  pub spot_le : s.buffers.tb_buffer_spot ≤ s.buffers.tb_buffer_size
  pub phase : Phase s.reader s.buffers s.produced s.sent

Pending-held :
    (f : Bool) (size spot : ℕ) (mem produced sent : List ℕ)
    → Pending f size spot mem produced sent
    → spot < size
    → produced ≡ sent ++ take spot mem
Pending-held true size spot mem produced sent h lt = h
Pending-held false size spot mem produced sent (e, q) lt = absurd (omega (arith, q, lt))

pub getting_room :
    (want : ℕ) (b : TlmBuffers) (produced sent : List ℕ)
    → Phase (getting want) b produced sent
    → 0 < space b
    → (b.tb_full ≡ false) × Held b produced sent
getting_room want b produced sent (f, p) lt = (
  elim (Bool-cases b.tb_full) [ inl e ↦ absurd (omega (arith, f e, lt)) | inr e ↦ e ],
  Pending-held b.tb_write_buf_filled b.tb_buffer_size b.tb_buffer_spot b.tb_buffer_data produced
      sent p (omega (arith, lt)),
)

-- A record that is given out and filled keeps the invariant, when what is before it is held.
pub fill-Inv :
    (want : ℕ) (bytes : List ℕ) (s : Backup)
    → length s.buffers.tb_buffer_data ≡ s.buffers.tb_buffer_size
    → s.buffers.tb_buffer_spot ≤ s.buffers.tb_buffer_size
    → s.buffers.tb_full ≡ false
    → Held s.buffers s.produced s.sent
    → length bytes ≡ granted want s.buffers
    → Inv (fill want bytes s)
unfolding fill grant_write
fill-Inv want bytes s l le f h e =
    let b = s.buffers in
    let (g, r) = granted_lem want b in
    let fits : b.tb_buffer_spot + length bytes ≤ length b.tb_buffer_data =
      omega (arith, l, le, e, g) in
    record {
      length_data = length-overlay b.tb_buffer_data b.tb_buffer_spot bytes fits ∙ l;
      spot_le = omega (arith, g, le);
      phase = (
        f,
        ap (λ p. p ++ bytes) h
            ∙ append_assoc s.sent (take b.tb_buffer_spot b.tb_buffer_data) bytes
            ∙ ap (λ r. s.sent ++ r)
                (sym (take-overlay b.tb_buffer_data b.tb_buffer_spot bytes (omega (arith, l, le))))
            ∙ ap
                (λ k.
                  s.sent
                  ++ take (b.tb_buffer_spot + k) (overlay b.tb_buffer_data b.tb_buffer_spot bytes))
                e,
      );
    }
