-- ===== src/Data/Invariant.antt =====
-- src/ndmpd_data.c: what holds of the data server's sockets in each of its states, and that every
-- request keeps it.
use ndmpd.Common.{
  ℕ, ◌≡◌, inl, inr, refl, Bool, true, false, not, List, [], ◌∷◌, if◌then◌else◌, Option, none, some,
  arith, Bool-cases,
}
use ndmpd.Protocol.{NdmpError, is_no_err, illegal_state_err}
use ndmpd.Data.{
  DataState, data_idle, data_active, data_halted, data_listen, data_connected, halt_internal_error,
  halt_connect_error, AddrType, addr_local, Session, is_idle, emit, replied, DataOperation,
  op_backup, op_recover, is_connected, is_local,
}
use ndmpd.Data.Sockets.{ndmpd_data_error, ndmpd_api_done_v3}
use ndmpd.Data.Handlers.{
  accept_on, ndmpd_data_connect_v3, ndmpd_data_abort_v3, Answers, run_backup, start_backup_v3,
  backup_reply, ndmpd_data_start_backup_v3, run_recover, start_recover_v3, recover_reply,
  ndmpd_data_start_recover_v3, Request, listen, connect, accept, abort, stop, start_backup,
  start_recover, done, handle, handle_all,
}
use ndmpd.Data.Ownership.{SocketsOf, IsWellFormed}
use ndmpd.Data.Halting.{data_error-IsWellFormed, cleanup-IsWellFormed}
use ndmpd.Data.Addresses.{
  same-IsWellFormed, emit-IsWellFormed, listen-IsWellFormed, connect_local, connect-IsWellFormed,
}
use ndmpd.Data.Stops.{
  idle-local, abort_in-IsWellFormed, stop-IsWellFormed, IsNew, accept-IsWellFormed,
}

if-IsWellFormed :
    (b : Bool) (x y : Session × NdmpError)
    → IsWellFormed x.0
    → (b ≡ false → IsWellFormed y.0)
    → IsWellFormed (if b then x else y).0
if-IsWellFormed true x y p q = p
if-IsWellFormed false x y p q = q refl

active-IsWellFormed :
    (s : Session) (op : DataOperation)
    → IsWellFormed s
    → is_connected s.dd_state ≡ true
    → IsWellFormed (record s { dd_state = data_active; dd_operation = op; dd_abort = false })
active-IsWellFormed s op w e =
    same-IsWellFormed s _ w (refl, refl, refl, refl) (connected s.dd_state e w.sockets)
  where
    connected :
        {a : AddrType} {sock lsock : Option ℕ} {open_fds : List ℕ}
        → (st : DataState) → is_connected st ≡ true
        → SocketsOf st a sock lsock open_fds
        → SocketsOf data_active a sock lsock open_fds
    connected data_connected e h = h
    connected data_idle e h = absurd (ground arith)
    connected data_listen e h = absurd (ground arith)
    connected data_halted e h = absurd (ground arith)
    connected data_active e h = absurd (ground arith)

run_backup-IsWellFormed :
    (s : Session) (a : Answers) → IsWellFormed s → IsWellFormed (run_backup s a).0
unfolding run_backup ndmpd_api_done_v3
run_backup-IsWellFormed s a w =
    if-IsWellFormed (not (is_no_err a.get_params)) _ _
      (data_error-IsWellFormed _ _ (emit-IsWellFormed _ s w))
      (λ e. if-IsWellFormed (not a.reply_sent) _ _ w (λ e.
        if-IsWellFormed a.thread_created _ _ (emit-IsWellFormed _ _ (emit-IsWellFormed _ s w))
          (λ e. emit-IsWellFormed _ s w)))

start_backup-IsWellFormed :
    (s : Session) (a : Answers) → IsWellFormed s → IsWellFormed (start_backup_v3 s a).0
unfolding start_backup_v3
start_backup-IsWellFormed s a w = if-IsWellFormed (not (is_connected s.dd_state)) _ _ w (λ c.
    if-IsWellFormed (is_local s.dd_addr_type) _ _ w (λ e.
      if-IsWellFormed (not a.known_type) _ _ w (λ e.
        if-IsWellFormed (not (is_no_err a.save_env)) _ _ w (λ e.
          if-IsWellFormed (not a.memory) _ _ w (λ e.
            run_backup-IsWellFormed _ a (active-IsWellFormed s op_backup w (ground (arith, c))))))))

backup_reply-IsWellFormed :
    (r : Session × NdmpError) → IsWellFormed r.0 → IsWellFormed (backup_reply r)
backup_reply-IsWellFormed (s, e) w = elim (Bool-cases (is_no_err e)) [
  | inl h ↦ rw h w
  | inr h ↦
      let w' = emit-IsWellFormed (replied e) s w in
      rw h (cleanup-IsWellFormed (emit (replied e) s) w' (idle-local (emit (replied e) s) w'))
]

run_recover-IsWellFormed :
    (s : Session) (a : Answers)
    → IsWellFormed s
    → is_connected s.dd_state ≡ true
    → IsWellFormed (run_recover s a).0
unfolding run_recover
run_recover-IsWellFormed s a w c =
    let w' = active-IsWellFormed s op_recover w c in
    if-IsWellFormed (not a.reply_sent) _ _ (data_error-IsWellFormed s halt_connect_error w) (λ e.
      if-IsWellFormed a.thread_created _ _ (emit-IsWellFormed _ _ (emit-IsWellFormed _ _ w'))
        (λ e. emit-IsWellFormed _ _ w'))

start_recover-IsWellFormed :
    (s : Session) (a : Answers) → IsWellFormed s → IsWellFormed (start_recover_v3 s a).0
unfolding start_recover_v3
start_recover-IsWellFormed s a w = if-IsWellFormed (not (is_connected s.dd_state)) _ _ w (λ c.
    if-IsWellFormed (not a.known_type) _ _ w (λ e. if-IsWellFormed (not a.memory) _ _ w (λ e.
      if-IsWellFormed (not (is_no_err a.save_env)) _ _ w (λ e.
        if-IsWellFormed (not (is_no_err a.save_nlist)) _ _ w (λ e.
          if-IsWellFormed (not (is_no_err a.get_params)) _ _ w
            (λ e. run_recover-IsWellFormed s a w (ground (arith, c))))))))

recover_reply-IsWellFormed :
    (r : Session × NdmpError) → IsWellFormed r.0 → IsWellFormed (recover_reply r)
recover_reply-IsWellFormed (s, e) w = elim (Bool-cases (is_no_err e)) [
  | inl h ↦ rw h w
  | inr h ↦
      let t = ndmpd_data_error (emit (replied e) s) halt_internal_error in
      let w' =
        data_error-IsWellFormed (emit (replied e) s) halt_internal_error
          (emit-IsWellFormed (replied e) s w) in
      rw h (cleanup-IsWellFormed t w' (idle-local t w'))
]

-- a connection that is accepted has a descriptor that is not open
abbrev pub IsFresh : Session → Request → Type 0
IsFresh s (accept fd) = IsNew s fd
IsFresh s _ = Unit

accept_on-IsWellFormed :
    (s : Session) (l fd : Option ℕ)
    → IsWellFormed s
    → s.dd_listen_sock ≡ l
    → IsNew s fd
    → IsWellFormed (accept_on s l fd)
accept_on-IsWellFormed s none fd w e new = w
accept_on-IsWellFormed s (some l) fd w e new = accept-IsWellFormed s l fd w e new

handle-IsWellFormed :
    (s : Session) (r : Request) → IsWellFormed s → IsFresh s r → IsWellFormed (handle s r)
unfolding handle ndmpd_data_abort_v3 ndmpd_data_start_backup_v3 ndmpd_data_start_recover_v3
    ndmpd_api_done_v3
handle-IsWellFormed s (listen a sock added) w f = listen-IsWellFormed s a sock added w
handle-IsWellFormed s (connect a sock) w f = connect-IsWellFormed s a sock w
handle-IsWellFormed s (accept fd) w f = accept_on-IsWellFormed s s.dd_listen_sock fd w refl f
handle-IsWellFormed s (abort has_func) w f = abort_in-IsWellFormed s.dd_state s has_func w
handle-IsWellFormed s stop w f = stop-IsWellFormed s w
handle-IsWellFormed s (start_backup a) w f =
    backup_reply-IsWellFormed (start_backup_v3 s a) (start_backup-IsWellFormed s a w)
handle-IsWellFormed s (start_recover a) w f =
    recover_reply-IsWellFormed (start_recover_v3 s a) (start_recover-IsWellFormed s a w)
handle-IsWellFormed s (done err) w f = data_error-IsWellFormed s _ w

abbrev pub AllFresh : Session → List Request → Type 0
AllFresh s [] = Unit
AllFresh s (r ∷ rs) = IsFresh s r × AllFresh (handle s r) rs

-- From a well-formed session, which has a protocol version above 2, every sequence of requests,
-- accepted connections and ends of threads leads to a well-formed one:
-- just the sockets that it holds are open, none has been closed twice, an idle or halted data server
-- holds none, and the mover stays idle. The descriptors of accepted connections are new ones.
pub handle_all-IsWellFormed :
    (s : Session) (rs : List Request)
    → IsWellFormed s
    → AllFresh s rs
    → IsWellFormed (handle_all s rs)
unfolding handle_all
handle_all-IsWellFormed s [] w f = w
handle_all-IsWellFormed s (r ∷ rs) w f =
    handle_all-IsWellFormed (handle s r) rs (handle-IsWellFormed s r w f.0) f.1

-- A request for a connection to the local mover is refused whenever the session is well formed, for
-- the mover never listens: the reply is an error, and nothing else changes.
connect-local :
    (s : Session) (sock : Option ℕ)
    → IsWellFormed s
    → ndmpd_data_connect_v3 s addr_local sock ≡ emit (replied illegal_state_err) s
unfolding ndmpd_data_connect_v3
connect-local s sock w = elim (Bool-cases (not (is_idle s.dd_state))) [
  | inl h ↦ rw h refl
  | inr h ↦ rw (h, connect_local s sock w) refl
]
