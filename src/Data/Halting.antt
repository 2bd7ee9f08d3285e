-- ===== src/Data/Halting.antt =====
-- src/ndmpd_data.c: errors halt a session, and clean-ups close its sockets.
use ndmpd.Common.{◌≡◌, inl, inr, refl, sym, ◌∙◌, true, false, ◌||◌, [], none, arith, Bool-cases}
use ndmpd.Data.{data_idle, data_halted, DataHaltReason, addr_local, Session, is_idle, is_halted}
use ndmpd.Data.Sockets.{ndmpd_data_cleanup, ndmpd_data_error, halting}
use ndmpd.Data.Ownership.{
  IsWellFormed, Closed, error_sockets-Closed, cleanup-Closed, held, Closed-IsWellFormed,
  halting_lem, halting-Held,
}

-- the state that `ndmpd_data_error` leads to from one that is neither idle nor halted
abbrev pub Halted : Session → Type 0
Halted t =
    (t.dd_state ≡ data_halted) × (t.dd_sock ≡ none) × (t.dd_listen_sock ≡ none) × (t.open_fds ≡ [])

data_error-Closed :
    (s : Session) (reason : DataHaltReason)
    → IsWellFormed s
    → (is_idle s.dd_state || is_halted s.dd_state) ≡ false
    → Closed (halting s reason) (ndmpd_data_error s reason)
      × ((ndmpd_data_error s reason).dd_state ≡ (halting s reason).dd_state)
unfolding ndmpd_data_error
data_error-Closed s reason w h =
    let f = halting_lem s reason in
    rw h (
      error_sockets-Closed (halting s reason) (halting-Held s reason (held w))
        (ground (arith, f, w.mover_idles)) (ground (arith, f, w.mover_sock))
        (ground (arith, f, w.version)))

pub data_error-same :
    (s : Session) (reason : DataHaltReason)
    → (is_idle s.dd_state || is_halted s.dd_state) ≡ true
    → ndmpd_data_error s reason ≡ s
unfolding ndmpd_data_error
data_error-same s reason h = rw h refl

-- `ndmpd_data_error` halts a well-formed session that is neither idle nor halted, and closes its
-- sockets.
pub data_error-Halted :
    (s : Session) (reason : DataHaltReason)
    → IsWellFormed s
    → (is_idle s.dd_state || is_halted s.dd_state) ≡ false
    → Halted (ndmpd_data_error s reason)
data_error-Halted s reason w h =
    ground (arith, data_error-Closed s reason w h, halting_lem s reason)

pub data_error-IsWellFormed :
    (s : Session) (reason : DataHaltReason)
    → IsWellFormed s
    → IsWellFormed (ndmpd_data_error s reason)
data_error-IsWellFormed s reason w =
    elim (Bool-cases (is_idle s.dd_state || is_halted s.dd_state)) [
      | inl h ↦ rw (data_error-same s reason h) w
      | inr h ↦
          let t = ndmpd_data_error s reason in
          let ((n, l, o, k), e) = data_error-Closed s reason w h in
          let f = halting_lem s reason in
          Closed-IsWellFormed s t w (n, l, o, ground (arith, k, f)) (λ i. ground (arith, i, e, f))
    ]

pub cleanup-IsWellFormed :
    (s : Session)
    → IsWellFormed s
    → (s.dd_state ≡ data_idle → s.dd_addr_type ≡ addr_local)
    → IsWellFormed (ndmpd_data_cleanup s)
cleanup-IsWellFormed s w h =
    let (c, e, a) = cleanup-Closed s (held w) w.mover_sock in
    Closed-IsWellFormed s (ndmpd_data_cleanup s) w c (λ i. a ∙ h (sym e ∙ i))
