-- ===== src/Data/Stops.antt =====
-- src/ndmpd_data.c: aborts, stops and accepted connections keep a session well formed.
use ndmpd.Common.{
  ℕ, ◌≡◌, inl, inr, refl, sym, ap, ◌∙◌, Bool, true, false, not, List, [], ◌∷◌, ==_refl, Option,
  none, some, arith, Bool-cases,
}
use ndmpd.Protocol.{illegal_state_err}
use ndmpd.Data.{
  DataState, data_idle, data_active, data_halted, data_listen, data_connected, halt_aborted,
  halt_connect_error, AddrType, addr_local, addr_tcp, Session, is_halted, emit, replied,
  waited_for_op, DataOperation, history_cleanup,
}
use ndmpd.Data.Sockets.{dm_abort_func, is_open, ndmpd_data_init, ndmpd_data_cleanup}
use ndmpd.Data.Handlers.{abort_in, data_accept_connection_v3, ndmpd_data_stop_v3}
use ndmpd.Data.Ownership.{
  fds, SocketsOf, IsWellFormed, closed-SocketsOf, held, close_once, cleanup-Closed,
  abort_func-Closed, Closed-IsWellFormed,
}
use ndmpd.Data.Halting.{data_error-IsWellFormed, cleanup-IsWellFormed}
use ndmpd.Data.Addresses.{Idle_lem, same-IsWellFormed, emit-IsWellFormed}

pub aborting : (s : Session) → IsWellFormed s → IsWellFormed (record s { dd_abort = true })
aborting s w = same-IsWellFormed s _ w (refl, refl, refl, refl) w.sockets

pub idle-local :
    (s : Session) → IsWellFormed s → s.dd_state ≡ data_idle → s.dd_addr_type ≡ addr_local
idle-local s w e = (Idle_lem s w e).0

as_before :
    {st st' : DataState} {a a' : AddrType} {sock sock' lsock lsock' : Option ℕ}
    {open_fds open_fds' : List ℕ}
    → st' ≡ st
    → a' ≡ a
    → sock' ≡ sock
    → lsock' ≡ lsock
    → open_fds' ≡ open_fds
    → SocketsOf st a sock lsock open_fds
    → SocketsOf st' a' sock' lsock' open_fds'
as_before p q r t u h = rw (p, q, r, t, u) h

abort_func-IsWellFormed :
    (s : Session) (op : DataOperation) → IsWellFormed s → IsWellFormed (dm_abort_func op s)
abort_func-IsWellFormed s op w = elim (abort_func-Closed s op (held w)) [
  | inl (c, st, a) ↦
      Closed-IsWellFormed s (dm_abort_func op s) w c (λ e. a ∙ idle-local s w (sym st ∙ e))
  | inr ((m, k, b, v), st, a, n, l, o) ↦
      same-IsWellFormed s (dm_abort_func op s) w (m, k, b, v) (as_before st a n l o w.sockets)
]

pub abort_in-IsWellFormed :
    (st : DataState) (s : Session) (has_func : Bool)
    → IsWellFormed s
    → IsWellFormed (abort_in st s has_func)
unfolding abort_in
abort_in-IsWellFormed data_idle s has_func w = emit-IsWellFormed _ s w
abort_in-IsWellFormed data_active s true w =
    emit-IsWellFormed _ _ (abort_func-IsWellFormed _ s.dd_operation (aborting s w))
abort_in-IsWellFormed data_active s false w = emit-IsWellFormed _ _ (aborting s w)
abort_in-IsWellFormed data_halted s has_func w =
    emit-IsWellFormed _ _ (data_error-IsWellFormed _ halt_aborted (aborting s w))
abort_in-IsWellFormed data_listen s has_func w =
    emit-IsWellFormed _ _ (data_error-IsWellFormed _ halt_aborted (aborting s w))
abort_in-IsWellFormed data_connected s has_func w =
    emit-IsWellFormed _ _ (data_error-IsWellFormed _ halt_aborted (aborting s w))

init-IsWellFormed :
    (s : Session) → IsWellFormed s → s.open_fds ≡ [] → IsWellFormed (ndmpd_data_init s)
unfolding ndmpd_data_init
init-IsWellFormed s w o = same-IsWellFormed s _ w (refl, refl, refl, refl) (refl, refl, refl, o)

pub stop-IsWellFormed : (s : Session) → IsWellFormed s → IsWellFormed (ndmpd_data_stop_v3 s)
unfolding ndmpd_data_stop_v3
stop-IsWellFormed s w = elim (Bool-cases (not (is_halted s.dd_state))) [
  | inl h ↦ rw h (emit-IsWellFormed (replied illegal_state_err) s w)
  | inr h ↦
      let s' = emit waited_for_op s in
      let w' = emit-IsWellFormed waited_for_op s w in
      let t = ndmpd_data_cleanup s' in
      let u = cleanup-IsWellFormed s' w' (idle-local s' w') in
      let ((n, l, o, k), e, a) = cleanup-Closed s' (held w') w'.mover_sock in
      rw h (
        emit-IsWellFormed _ _ (
          emit-IsWellFormed _ _ (
            init-IsWellFormed (emit (history_cleanup false) t)
              (emit-IsWellFormed (history_cleanup false) t u) o)))
]

listening-SocketsOf :
    (st : DataState) (a : AddrType) (sock lsock : Option ℕ) (open_fds : List ℕ) (l : ℕ)
    → SocketsOf st a sock lsock open_fds
    → lsock ≡ some l
    → (st ≡ data_listen) × (a ≡ addr_tcp) × (sock ≡ none) × (open_fds ≡ l ∷ [])
listening-SocketsOf data_listen a sock lsock open_fds l (n, inl t, o) e = (refl, t, n, o ∙ ap fds e)
listening-SocketsOf data_listen a sock lsock open_fds l (n, inr k, o) e = absurd (cc)
listening-SocketsOf data_idle a sock lsock open_fds l h e = absurd (ground arith)
listening-SocketsOf data_halted a sock lsock open_fds l h e = absurd (ground arith)
listening-SocketsOf data_active a sock lsock open_fds l h e = absurd (ground arith)
listening-SocketsOf data_connected a sock lsock open_fds l h e = absurd (ground arith)

-- the descriptor that the system gives, if it gives one, is not open
abbrev pub IsNew : Session → Option ℕ → Type 0
IsNew s none = Unit
IsNew s (some fd) = is_open fd s.open_fds ≡ false

pub accept-IsWellFormed :
    (s : Session) (l : ℕ) (fd : Option ℕ)
    → IsWellFormed s
    → s.dd_listen_sock ≡ some l
    → IsNew s fd
    → IsWellFormed (data_accept_connection_v3 s l fd)
unfolding data_accept_connection_v3
accept-IsWellFormed s l none w e new =
    let (st, a, n, o) =
      listening-SocketsOf s.dd_state s.dd_addr_type s.dd_sock s.dd_listen_sock s.open_fds l
        w.sockets e in
    let (c, b) = close_once l s.open_fds o in
    data_error-IsWellFormed _ halt_connect_error (
      same-IsWellFormed s _ w (refl, refl, ground (arith, b), refl)
        (closed-SocketsOf s.dd_state (λ i. ground (arith, i, st)) refl refl c))
accept-IsWellFormed s l (some fd) w e new =
    let (st, a, n, o) =
      listening-SocketsOf s.dd_state s.dd_addr_type s.dd_sock s.dd_listen_sock s.open_fds l
        w.sockets e in
    same-IsWellFormed s _ w (refl, refl, ground (arith, o), refl)
      (inl a, refl, ground (arith, o, new, ==_refl l))
