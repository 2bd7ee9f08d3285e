-- ===== src/Data/Refusals.antt =====
-- src/ndmpd_data.c: what is left of a session whose backup or restore is refused or stopped.
use ndmpd.Common.{
  ◌≡◌, ◌≢◌, inl, inr, refl, ap, ◌∙◌, Bool, true, false, ◌||◌, not, [], if◌then◌else◌, none, arith,
  Bool-cases,
}
use ndmpd.Protocol.{
  NdmpError, is_no_err, illegal_args_err, illegal_state_err, no_device_err, no_mem_err,
}
use ndmpd.Data.{
  Session, DataState, DataHaltReason, data_active, data_halted, data_idle, data_listen,
  data_connected, halt_aborted, halt_internal_error, replied, emit, is_idle, is_halted,
  is_connected, is_local, op_noaction, waited_for_op,
}
use ndmpd.Data.Sockets.{ndmpd_data_cleanup, ndmpd_data_error, ndmpd_data_init}
use ndmpd.Data.Handlers.{
  Answers, start_backup_v3, ndmpd_data_start_backup_v3, abort_in, ndmpd_data_abort_v3,
  ndmpd_data_stop_v3, start_recover_v3, recover_reply, ndmpd_data_start_recover_v3,
}
use ndmpd.Data.Ownership.{IsWellFormed, held, cleanup-Closed}
use ndmpd.Data.Halting.{Halted, data_error-Halted, data_error-same, data_error-IsWellFormed}
use ndmpd.Data.Stops.{aborting, abort_in-IsWellFormed}
use ndmpd.Data.Addresses.{emit-IsWellFormed}

-- the result is an error, with the session as it was
abbrev IsRefusal : Session → Session × NdmpError → Type 0
IsRefusal s r = (e : NdmpError) × (r ≡ (s, e)) × (is_no_err e ≡ false)

refuse :
    (b c : Bool) (s : Session) (e : NdmpError) (r : Session × NdmpError)
    → (b ≡ true → is_no_err e ≡ false)
    → (b || c) ≡ true
    → (c ≡ true → IsRefusal s r)
    → IsRefusal s (if b then (s, e) else r)
refuse true c s e r h o k = (e, refl, h refl)
refuse false c s e r h o k = k o

refuse_last :
    (b : Bool) (s : Session) (e : NdmpError) (r : Session × NdmpError)
    → (b ≡ true → is_no_err e ≡ false)
    → b ≡ true
    → IsRefusal s (if b then (s, e) else r)
refuse_last b s e r h o = refuse b false s e r h (ground (arith, o)) (λ k. absurd (cc))

-- When a backup is refused before anything changes: the data server is not connected, its address is
-- the local one, the type is unknown, the environment cannot be saved, or there is no memory.
abbrev pub refuses_backup : Session → Answers → Bool
refuses_backup s a =
    not (is_connected s.dd_state)
    || (is_local s.dd_addr_type
        || (not a.known_type || (not (is_no_err a.save_env) || not a.memory)))

-- the same of a restore, which also saves the names and reads the parameters before
abbrev pub refuses_recover : Session → Answers → Bool
refuses_recover s a =
    not (is_connected s.dd_state)
    || (not a.known_type
        || (not a.memory
            || (not (is_no_err a.save_env)
                || (not (is_no_err a.save_nlist) || not (is_no_err a.get_params)))))

start_backup-IsRefusal :
    (s : Session) (a : Answers) → refuses_backup s a ≡ true → IsRefusal s (start_backup_v3 s a)
unfolding start_backup_v3
start_backup-IsRefusal s a h =
    refuse (not (is_connected s.dd_state)) _ s illegal_state_err _ (λ e. refl) h
      (λ h.
        refuse (is_local s.dd_addr_type) _ s no_device_err _ (λ e. refl) h
          (λ h.
            refuse (not a.known_type) _ s illegal_args_err _ (λ e. refl) h
              (λ h.
                refuse (not (is_no_err a.save_env)) _ s a.save_env _ (λ e. ground arith) h
                  (λ h. refuse_last (not a.memory) s no_mem_err _ (λ e. refl) h))))

start_recover-IsRefusal :
    (s : Session) (a : Answers) → refuses_recover s a ≡ true → IsRefusal s (start_recover_v3 s a)
unfolding start_recover_v3
start_recover-IsRefusal s a h =
    refuse (not (is_connected s.dd_state)) _ s illegal_state_err _ (λ e. refl) h
      (λ h.
        refuse (not a.known_type) _ s illegal_args_err _ (λ e. refl) h
          (λ h.
            refuse (not a.memory) _ s no_mem_err _ (λ e. refl) h
              (λ h.
                refuse (not (is_no_err a.save_env)) _ s no_mem_err _ (λ e. refl) h
                  (λ h.
                    refuse (not (is_no_err a.save_nlist)) _ s no_mem_err _ (λ e. refl) h
                      (λ h.
                        refuse_last (not (is_no_err a.get_params)) s a.get_params _
                          (λ e. ground arith) h)))))

-- In a well-formed session, a backup that is refused before it starts closes the session's sockets
-- and leaves the data server in the state it was in, whichever the reason is: a second request closes the connection of a backup that is
-- running, which stays active, and a connected data server stays connected without a connection.
refused_backup :
    (s : Session) (a : Answers)
    → IsWellFormed s
    → refuses_backup s a ≡ true
    → let t = ndmpd_data_start_backup_v3 s a in
      (t.dd_sock ≡ none) × (t.dd_listen_sock ≡ none) × (t.open_fds ≡ []) × (t.dd_state ≡ s.dd_state)
unfolding ndmpd_data_start_backup_v3
refused_backup s a w r =
    let (e, q, h) = start_backup-IsRefusal s a r in
    let w' = emit-IsWellFormed (replied e) s w in
    let ((n, l, o, k), st, ad) = cleanup-Closed (emit (replied e) s) (held w') w'.mover_sock in
    rw (q, h) (n, l, o, st)

data_error-halts :
    (s : Session) (reason : DataHaltReason)
    → IsWellFormed s
    → is_idle s.dd_state ≡ false
    → (ndmpd_data_error s reason).dd_state ≡ data_halted
data_error-halts s reason w i = elim (Bool-cases (is_halted s.dd_state)) [
  | inl h ↦
      ap (λ (t : Session). t.dd_state) (data_error-same s reason (ground (arith, h)))
      ∙ ground (arith, h)
  | inr h ↦ (data_error-Halted s reason w (ground (arith, h, i))).0
]

cleanup-Halted :
    (s : Session) → IsWellFormed s → s.dd_state ≡ data_halted → Halted (ndmpd_data_cleanup s)
cleanup-Halted s w e =
    let ((n, l, o, k), st, ad) = cleanup-Closed s (held w) w.mover_sock in (st ∙ e, n, l, o)

recover_reply-refused :
    (s : Session) (e : NdmpError) (r : Session × NdmpError)
    → r ≡ (s, e)
    → is_no_err e ≡ false
    → recover_reply r
      ≡ ndmpd_data_cleanup (ndmpd_data_error (emit (replied e) s) halt_internal_error)
recover_reply-refused s e r q h = ap recover_reply q ∙ rw h refl

-- In a well-formed session, a restore that is refused in a data server that is not idle halts it and closes its sockets, also
-- when the reason is that a backup or a restore is running.
pub refused_recover :
    (s : Session) (a : Answers)
    → IsWellFormed s
    → refuses_recover s a ≡ true
    → is_idle s.dd_state ≡ false
    → Halted (ndmpd_data_start_recover_v3 s a)
unfolding ndmpd_data_start_recover_v3
refused_recover s a w r i =
    let (e, q, h) = start_recover-IsRefusal s a r in
    let w' = emit-IsWellFormed (replied e) s w in
    rw (recover_reply-refused s e (start_recover_v3 s a) q h) (
      cleanup-Halted _ (data_error-IsWellFormed (emit (replied e) s) halt_internal_error w')
        (data_error-halts (emit (replied e) s) halt_internal_error w' i))

abort_in-halts :
    (st : DataState) (s : Session) (has_func : Bool)
    → IsWellFormed s
    → s.dd_state ≡ st
    → st ≢ data_idle
    → st ≢ data_active
    → (abort_in st s has_func).dd_state ≡ data_halted
unfolding abort_in
abort_in-halts data_idle s has_func w e ni na = absurd (ni refl)
abort_in-halts data_active s has_func w e ni na = absurd (na refl)
abort_in-halts data_halted s has_func w e ni na =
    data_error-halts _ halt_aborted (aborting s w) (ground (arith, e))
abort_in-halts data_listen s has_func w e ni na =
    data_error-halts _ halt_aborted (aborting s w) (ground (arith, e))
abort_in-halts data_connected s has_func w e ni na =
    data_error-halts _ halt_aborted (aborting s w) (ground (arith, e))

-- idle, with nothing left of an operation
abbrev pub Fresh : Session → Type 0
Fresh t =
    (t.dd_state ≡ data_idle)
    × (t.open_fds ≡ [])
    × (t.dd_operation ≡ op_noaction)
    × (t.dd_abort ≡ false)

stop-Fresh :
    (s : Session) → IsWellFormed s → s.dd_state ≡ data_halted → Fresh (ndmpd_data_stop_v3 s)
unfolding ndmpd_data_stop_v3 ndmpd_data_init
stop-Fresh s w e =
    let w' = emit-IsWellFormed waited_for_op s w in
    let ((n, l, o, k), st, ad) = cleanup-Closed (emit waited_for_op s) (held w') w'.mover_sock in
    let h : not (is_halted s.dd_state) ≡ false = ground (arith, e) in rw h (refl, o, refl, refl)

-- In a well-formed session, a data server that listens, is connected or is halted is made idle by an abort and a stop: nothing
-- is open any more, no operation is set, and the abort is forgotten.
pub abort-stop :
    (s : Session) (has_func : Bool)
    → IsWellFormed s
    → s.dd_state ≢ data_idle
    → s.dd_state ≢ data_active
    → Fresh (ndmpd_data_stop_v3 (ndmpd_data_abort_v3 s has_func))
unfolding ndmpd_data_abort_v3
abort-stop s has_func w ni na =
    stop-Fresh _ (abort_in-IsWellFormed s.dd_state s has_func w)
      (abort_in-halts s.dd_state s has_func w refl ni na)
