-- ===== src/Data/Ownership.antt =====
-- src/ndmpd_data.c: which sockets the data server holds in each of its states, and that
-- halting and cleaning up close them.
use ndmpd.Common.{
  ℕ, ◌≡◌, ◌⊎◌, inl, inr, refl, sym, true, false, List, [], ◌∷◌, ltb, ==_refl, Option, none, some,
  arith,
}
use ndmpd.Data.{
  DataState, data_idle, data_active, data_halted, data_listen, data_connected, DataHaltReason,
  mover_idle, MoverHaltReason, mover_halt_connect_closed, AddrType, addr_local, addr_tcp, Session,
  DataOperation, op_backup, op_recover, op_noaction,
}
use ndmpd.Data.Sockets.{
  dm_abort_func, ndmpd_tar_backup_abort_v3, without, is_open, ndmpd_data_cleanup, halting,
  error_sockets, error_sock, cleanup_sock, close_listen, close_unshared, ndmpd_mover_error,
}

abbrev pub fds : Option ℕ → List ℕ
fds none = []
fds (some fd) = fd ∷ []

-- the sockets by the state: the address type, the connection, the listening socket, and what is open
abbrev pub SocketsOf : DataState → AddrType → Option ℕ → Option ℕ → List ℕ → Type 0
SocketsOf data_idle a sock lsock open_fds =
    (a ≡ addr_local) × (sock ≡ none) × (lsock ≡ none) × (open_fds ≡ [])
SocketsOf data_halted a sock lsock open_fds = (sock ≡ none) × (lsock ≡ none) × (open_fds ≡ [])
SocketsOf data_listen a sock lsock open_fds =
    (sock ≡ none) × ((a ≡ addr_tcp) ⊎ (lsock ≡ none)) × (open_fds ≡ fds lsock)
SocketsOf _ a sock lsock open_fds =
    ((a ≡ addr_tcp) ⊎ (sock ≡ none)) × (lsock ≡ none) × (open_fds ≡ fds sock)

-- Just the sockets that the data server holds are open, one at most, none was closed twice, and the
-- mover is idle.
pub record IsWellFormed (s : Session) : Type 0 where
  pub sockets : SocketsOf s.dd_state s.dd_addr_type s.dd_sock s.dd_listen_sock s.open_fds
  pub mover_idles : s.md_state ≡ mover_idle
  pub mover_sock : s.md_sock ≡ none
  pub no_bad_close : s.bad_close ≡ false
  pub version : ltb 2 s.ns_protocol_version ≡ true

-- What is open, by what is held: nothing, the connection, or the listening socket
pub data Held (a : AddrType) (sock lsock : Option ℕ) (open_fds : List ℕ) : Type 0 where
  nothing : sock ≡ none → lsock ≡ none → open_fds ≡ [] → Held a sock lsock open_fds
  connection :
      (fd : ℕ)
      → a ≡ addr_tcp
      → sock ≡ some fd
      → lsock ≡ none
      → open_fds ≡ fd ∷ []
      → Held a sock lsock open_fds
  listening :
      (fd : ℕ)
      → a ≡ addr_tcp
      → sock ≡ none
      → lsock ≡ some fd
      → open_fds ≡ fd ∷ []
      → Held a sock lsock open_fds

connected-Held :
    (a : AddrType) (sock lsock : Option ℕ) (open_fds : List ℕ)
    → SocketsOf data_connected a sock lsock open_fds
    → Held a sock lsock open_fds
connected-Held a none lsock open_fds (h, l, o) = nothing refl l o
connected-Held a (some fd) lsock open_fds (inl t, l, o) = connection fd t refl l o
connected-Held a (some fd) lsock open_fds (inr n, l, o) = absurd (cc)

listening-Held :
    (a : AddrType) (sock lsock : Option ℕ) (open_fds : List ℕ)
    → SocketsOf data_listen a sock lsock open_fds
    → Held a sock lsock open_fds
listening-Held a sock none open_fds (n, h, o) = nothing n refl o
listening-Held a sock (some fd) open_fds (n, inl t, o) = listening fd t n refl o
listening-Held a sock (some fd) open_fds (n, inr k, o) = absurd (cc)

SocketsOf-Held :
    (st : DataState) (a : AddrType) (sock lsock : Option ℕ) (open_fds : List ℕ)
    → SocketsOf st a sock lsock open_fds
    → Held a sock lsock open_fds
SocketsOf-Held data_idle a sock lsock open_fds (t, n, l, o) = nothing n l o
SocketsOf-Held data_halted a sock lsock open_fds (n, l, o) = nothing n l o
SocketsOf-Held data_listen a sock lsock open_fds h = listening-Held a sock lsock open_fds h
SocketsOf-Held data_connected a sock lsock open_fds h = connected-Held a sock lsock open_fds h
SocketsOf-Held data_active a sock lsock open_fds h = connected-Held a sock lsock open_fds h

abbrev pub HeldBy : Session → Type 0
HeldBy s = Held s.dd_addr_type s.dd_sock s.dd_listen_sock s.open_fds

-- what else is well formed is as it was
abbrev pub Rest : Session → Session → Type 0
Rest s t =
    (t.md_state ≡ s.md_state)
    × (t.md_sock ≡ s.md_sock)
    × (t.bad_close ≡ s.bad_close)
    × (t.ns_protocol_version ≡ s.ns_protocol_version)

-- what is left when the sockets are closed
abbrev pub Closed : Session → Session → Type 0
Closed s t = (t.dd_sock ≡ none) × (t.dd_listen_sock ≡ none) × (t.open_fds ≡ []) × Rest s t

pub close_once :
    (fd : ℕ) (open_fds : List ℕ)
    → open_fds ≡ fd ∷ []
    → (without fd open_fds ≡ []) × (is_open fd open_fds ≡ true)
close_once fd open_fds e = rw (e, ==_refl fd) (refl, refl)

mover_error_idle :
    (s : Session) (r : MoverHaltReason)
    → s.md_state ≡ mover_idle
    → ltb 2 s.ns_protocol_version ≡ true
    → ndmpd_mover_error s r ≡ s
unfolding ndmpd_mover_error
mover_error_idle s r e v = ground arith

pub error_sockets-Closed :
    (s : Session)
    → HeldBy s
    → s.md_state ≡ mover_idle
    → s.md_sock ≡ none
    → ltb 2 s.ns_protocol_version ≡ true
    → Closed s (error_sockets s) × ((error_sockets s).dd_state ≡ s.dd_state)
unfolding error_sockets error_sock close_listen close_unshared
error_sockets-Closed s (nothing n l o) m k v =
    ground (arith, mover_error_idle s mover_halt_connect_closed m v)
error_sockets-Closed s (connection fd t n l o) m k v = ground (arith, close_once fd s.open_fds o)
error_sockets-Closed s (listening fd t n l o) m k v = ground (arith, close_once fd s.open_fds o)

pub cleanup-Closed :
    (s : Session)
    → HeldBy s
    → s.md_sock ≡ none
    → Closed s (ndmpd_data_cleanup s)
      × ((ndmpd_data_cleanup s).dd_state ≡ s.dd_state)
      × ((ndmpd_data_cleanup s).dd_addr_type ≡ s.dd_addr_type)
unfolding ndmpd_data_cleanup cleanup_sock close_listen close_unshared
cleanup-Closed s (nothing n l o) k = ground arith
cleanup-Closed s (connection fd t n l o) k = ground (arith, close_once fd s.open_fds o)
cleanup-Closed s (listening fd t n l o) k = ground (arith, close_once fd s.open_fds o)

-- the abort of an active data server closes its connection or leaves it alone
pub abort_func-Closed :
    (s : Session) (op : DataOperation)
    → HeldBy s
    → (Closed s (dm_abort_func op s)
        × ((dm_abort_func op s).dd_state ≡ s.dd_state)
        × ((dm_abort_func op s).dd_addr_type ≡ s.dd_addr_type))
      ⊎ (Rest s (dm_abort_func op s)
          × ((dm_abort_func op s).dd_state ≡ s.dd_state)
          × ((dm_abort_func op s).dd_addr_type ≡ s.dd_addr_type)
          × ((dm_abort_func op s).dd_sock ≡ s.dd_sock)
          × ((dm_abort_func op s).dd_listen_sock ≡ s.dd_listen_sock)
          × ((dm_abort_func op s).open_fds ≡ s.open_fds))
unfolding dm_abort_func ndmpd_tar_backup_abort_v3
abort_func-Closed s op_recover h = inr (ground arith)
abort_func-Closed s op_noaction h = inr (ground arith)
abort_func-Closed s op_backup (nothing n l o) = inl (ground arith)
abort_func-Closed s op_backup (connection fd t n l o) =
    inl (ground (arith, close_once fd s.open_fds o))
abort_func-Closed s op_backup (listening fd t n l o) = inr (ground arith)

-- the sockets are closed in any state, if the address type of an idle one is local
pub closed-SocketsOf :
    (st : DataState) {a : AddrType} {sock lsock : Option ℕ} {open_fds : List ℕ}
    → (st ≡ data_idle → a ≡ addr_local)
    → sock ≡ none
    → lsock ≡ none
    → open_fds ≡ []
    → SocketsOf st a sock lsock open_fds
closed-SocketsOf data_idle h n l o = (h refl, n, l, o)
closed-SocketsOf data_halted h n l o = (n, l, o)
closed-SocketsOf data_listen h n l o = (n, inr l, rw (o, l) refl)
closed-SocketsOf data_connected h n l o = (inr n, l, rw (o, n) refl)
closed-SocketsOf data_active h n l o = (inr n, l, rw (o, n) refl)

pub held : {s : Session} → IsWellFormed s → HeldBy s
held {s} w =
    SocketsOf-Held s.dd_state s.dd_addr_type s.dd_sock s.dd_listen_sock s.open_fds w.sockets

pub Closed-IsWellFormed :
    (s t : Session)
    → IsWellFormed s
    → Closed s t
    → (t.dd_state ≡ data_idle → t.dd_addr_type ≡ addr_local)
    → IsWellFormed t
Closed-IsWellFormed s t w (n, l, o, r) h = record {
  sockets = closed-SocketsOf t.dd_state h n l o;
  mover_idles = ground (arith, w.mover_idles);
  mover_sock = ground (arith, w.mover_sock);
  no_bad_close = ground (arith, w.no_bad_close);
  version = ground (arith, w.version);
}

pub halting_lem :
    (s : Session) (reason : DataHaltReason)
    → let t = halting s reason in
      (t.dd_state ≡ data_halted)
      × (t.dd_addr_type ≡ s.dd_addr_type)
      × (t.dd_sock ≡ s.dd_sock)
      × (t.dd_listen_sock ≡ s.dd_listen_sock)
      × (t.open_fds ≡ s.open_fds)
      × (t.md_state ≡ s.md_state)
      × (t.md_sock ≡ s.md_sock)
      × (t.bad_close ≡ s.bad_close)
      × (t.ns_protocol_version ≡ s.ns_protocol_version)
unfolding halting
halting_lem s reason = ground arith

pub halting-Held : (s : Session) (reason : DataHaltReason) → HeldBy s → HeldBy (halting s reason)
halting-Held s reason h =
    let (_, a, n, l, o, _, _, _, _) = halting_lem s reason in move (sym a) (sym n) (sym l) (sym o) h
  where
    move :
        {a a' : AddrType} {sock sock' lsock lsock' : Option ℕ} {open_fds open_fds' : List ℕ}
        → a ≡ a'
        → sock ≡ sock'
        → lsock ≡ lsock'
        → open_fds ≡ open_fds'
        → Held a sock lsock open_fds
        → Held a' sock' lsock' open_fds'
    move p q r t h = rw (p, q, r, t) at h
