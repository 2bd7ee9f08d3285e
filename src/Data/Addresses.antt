-- ===== src/Data/Addresses.antt =====
-- src/ndmpd_data.c: requests to listen and to connect keep a session well formed.
use ndmpd.Common.{
  ℕ, ◌≡◌, inl, inr, refl, ap, Bool, true, false, ◌||◌, not, [], ◌∷◌, ==_refl, Option, none, some,
  arith, Bool-cases,
}
use ndmpd.Protocol.{illegal_state_err, illegal_args_err}
use ndmpd.Data.{
  DataState, data_idle, data_listen, data_connected, AddrType, addr_local, addr_tcp, addr_fc,
  addr_ipc, addr_unknown, Effect, Session, is_idle, emit, is_mover_idle, replied,
}
use ndmpd.Data.Sockets.{create_listen_socket_v3, data_connect_sock_v3}
use ndmpd.Data.Handlers.{
  ndmp_valid_v3addr_type, finish, listen_on, connect_to, ndmpd_data_listen_v3,
  ndmpd_data_connect_v3,
}
use ndmpd.Data.Ownership.{SocketsOf, IsWellFormed, Rest, closed-SocketsOf}

-- The handlers of idle sessions: what an idle session is
abbrev Idle : Session → Type 0
Idle s =
    (s.dd_addr_type ≡ addr_local)
    × (s.dd_sock ≡ none)
    × (s.dd_listen_sock ≡ none)
    × (s.open_fds ≡ [])

pub Idle_lem : (s : Session) → IsWellFormed s → s.dd_state ≡ data_idle → Idle s
Idle_lem s w e = (rw e at w.sockets)

pub same-IsWellFormed :
    (s t : Session)
    → IsWellFormed s
    → Rest s t
    → SocketsOf t.dd_state t.dd_addr_type t.dd_sock t.dd_listen_sock t.open_fds
    → IsWellFormed t
same-IsWellFormed s t w r h = record {
  sockets = h;
  mover_idles = ground (arith, w.mover_idles);
  mover_sock = ground (arith, w.mover_sock);
  no_bad_close = ground (arith, w.no_bad_close);
  version = ground (arith, w.version);
}

-- `emit` keeps what is well formed
pub emit-IsWellFormed : (e : Effect) (s : Session) → IsWellFormed s → IsWellFormed (emit e s)
emit-IsWellFormed e s w = record {
  sockets = w.sockets;
  mover_idles = w.mover_idles;
  mover_sock = w.mover_sock;
  no_bad_close = w.no_bad_close;
  version = w.version;
}

is_idle_lem : (st : DataState) → is_idle st ≡ true → st ≡ data_idle
is_idle_lem st h = ground arith

-- `listen_on` and `connect_to`, for an idle session
listen_on-IsWellFormed :
    (s : Session) (a : AddrType) (sock : Option ℕ) (added : Bool)
    → IsWellFormed s
    → s.dd_state ≡ data_idle
    → IsWellFormed (finish data_listen (listen_on s a sock added))
unfolding listen_on create_listen_socket_v3
listen_on-IsWellFormed s addr_local sock added w e =
    let (a, n, l, o) = Idle_lem s w e in
    same-IsWellFormed s _ w (refl, refl, refl, refl)
      (closed-SocketsOf data_listen (λ i. refl) n l o)
listen_on-IsWellFormed s addr_tcp none added w e =
    let (a, n, l, o) = Idle_lem s w e in
    same-IsWellFormed s _ w (refl, refl, refl, refl) (closed-SocketsOf s.dd_state (λ i. a) n refl o)
listen_on-IsWellFormed s addr_tcp (some fd) true w e =
    let (a, n, l, o) = Idle_lem s w e in
    same-IsWellFormed s _ w (refl, refl, refl, refl) (n, inl refl, ap (◌∷◌ fd) o)
listen_on-IsWellFormed s addr_tcp (some fd) false w e =
    let (a, n, l, o) = Idle_lem s w e in
    same-IsWellFormed s _ w (refl, refl, ground (arith, ==_refl fd), refl)
      (closed-SocketsOf s.dd_state (λ i. a) n refl (ground (arith, o, ==_refl fd)))
listen_on-IsWellFormed s addr_fc sock added w e = emit-IsWellFormed _ s w
listen_on-IsWellFormed s addr_ipc sock added w e = emit-IsWellFormed _ s w
listen_on-IsWellFormed s addr_unknown sock added w e = emit-IsWellFormed _ s w

pub listen-IsWellFormed :
    (s : Session) (a : AddrType) (sock : Option ℕ) (added : Bool)
    → IsWellFormed s
    → IsWellFormed (ndmpd_data_listen_v3 s a sock added)
unfolding ndmpd_data_listen_v3
listen-IsWellFormed s a sock added w =
    elim (Bool-cases (not (is_idle s.dd_state) || not (is_mover_idle s.md_state))) [
      | inl h ↦ rw h (emit-IsWellFormed (replied illegal_state_err) s w)
      | inr h ↦
          rw h
            (listen_on-IsWellFormed s a sock added w (is_idle_lem s.dd_state (ground (arith, h))))
    ]

-- the mover never listens, so that a local connection is refused
pub connect_local :
    (s : Session) (sock : Option ℕ)
    → IsWellFormed s
    → connect_to s addr_local sock ≡ (s, illegal_state_err)
unfolding connect_to
connect_local s sock w = ground (arith, w.mover_idles)

connect_to-IsWellFormed :
    (s : Session) (a : AddrType) (sock : Option ℕ)
    → IsWellFormed s
    → s.dd_state ≡ data_idle
    → IsWellFormed (finish data_connected (connect_to s a sock))
unfolding connect_to data_connect_sock_v3
connect_to-IsWellFormed s addr_local sock w e =
    rw (connect_local s sock w) (emit-IsWellFormed (replied illegal_state_err) s w)
connect_to-IsWellFormed s addr_tcp none w e = emit-IsWellFormed _ s w
connect_to-IsWellFormed s addr_tcp (some fd) w e =
    let (a, n, l, o) = Idle_lem s w e in
    same-IsWellFormed s _ w (refl, refl, refl, refl) (inl refl, l, ap (◌∷◌ fd) o)
connect_to-IsWellFormed s addr_fc sock w e = emit-IsWellFormed _ s w
connect_to-IsWellFormed s addr_ipc sock w e = emit-IsWellFormed _ s w
connect_to-IsWellFormed s addr_unknown sock w e = emit-IsWellFormed _ s w

pub connect-IsWellFormed :
    (s : Session) (a : AddrType) (sock : Option ℕ)
    → IsWellFormed s
    → IsWellFormed (ndmpd_data_connect_v3 s a sock)
unfolding ndmpd_data_connect_v3
connect-IsWellFormed s a sock w = elim (Bool-cases (not (ndmp_valid_v3addr_type a))) [
  | inl v ↦ rw v (emit-IsWellFormed (replied illegal_args_err) s w)
  | inr v ↦ elim (Bool-cases (not (is_idle s.dd_state))) [
    | inl h ↦ rw (v, h) (emit-IsWellFormed (replied illegal_state_err) s w)
    | inr h ↦
        rw (v, h) (connect_to-IsWellFormed s a sock w (is_idle_lem s.dd_state (ground (arith, h))))
  ]
]
