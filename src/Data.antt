-- ===== src/Data.antt =====
-- src/ndmpd_data.c, src/ndmpd_mover.c and include/ndmpd_session.h: the states of the data server
-- and of the mover, and the sockets that they hold. A descriptor is a number, -1 is `none`.
pub mod Sockets
pub mod Handlers
pub mod Halting
pub mod Ownership
pub mod Addresses
pub mod Stops
pub mod Invariant
pub mod Refusals
mod Tests
use ndmpd.Common.{
  ℕ, Bool, true, false, ◌&&◌, ◌||◌, not, List, [], ◌∷◌, ◌++◌, leb, ltb, ◌==◌, if◌then◌else◌, Option,
  none, some,
}
use ndmpd.Protocol.{NdmpError}

-- `ndmp_data_state`
pub data DataState : Type 0 where
  data_idle data_active data_halted data_listen data_connected : DataState

-- `ndmp_data_operation`
pub data DataOperation : Type 0 where
  op_noaction op_backup op_recover : DataOperation

-- `ndmp_data_halt_reason`
pub data DataHaltReason : Type 0 where
  halt_na halt_successful halt_aborted halt_internal_error halt_connect_error : DataHaltReason

-- `ndmp_mover_state`
pub data MoverState : Type 0 where
  mover_idle mover_listen mover_active mover_paused mover_halted : MoverState

-- `ndmp_mover_halt_reason`
pub data MoverHaltReason : Type 0 where
  mover_halt_na mover_halt_connect_closed mover_halt_aborted mover_halt_internal_error
        mover_halt_connect_error mover_halt_media_error :
      MoverHaltReason

-- `ndmp_addr_type`, and any other value that a request may hold
pub data AddrType : Type 0 where
  addr_local addr_tcp addr_fc addr_ipc addr_unknown : AddrType

-- What the data server does that others see: replies, notifications, and the calls of the file
-- history, of the backup threads and of the memory's release
pub data Effect : Type 0 where
  replied : NdmpError → Effect
  notified_data_halted : DataHaltReason → Effect
  notified_mover_halted : MoverHaltReason → Effect
  history_cleanup : Bool → Effect
  history_init : Effect
  waited_for_op : Effect
  stopped_reader : Effect
  stopped_writer : Effect
  released : Effect
  thread_started : DataOperation → Effect

-- The fields of `ndmpd_session_t` that matter for states and sockets; `open_fds` are the descriptors
-- that are open, and `bad_close` tells that `close` was given one that was not.
pub record Session : Type 0 where
  pub ns_protocol_version : ℕ
  pub dd_state : DataState
  pub dd_operation : DataOperation
  pub dd_halt_reason : DataHaltReason
  pub dd_abort : Bool
  pub dd_sock : Option ℕ
  pub dd_listen_sock : Option ℕ
  pub dd_addr_type : AddrType
  pub md_state : MoverState
  pub md_halt_reason : MoverHaltReason
  pub md_sock : Option ℕ
  pub md_listen_sock : Option ℕ
  pub file_handlers : List ℕ
  pub open_fds : List ℕ
  pub bad_close : Bool
  pub effects : List Effect

abbrev pub is_idle : DataState → Bool
is_idle data_idle = true
is_idle _ = false

abbrev pub is_halted : DataState → Bool
is_halted data_halted = true
is_halted _ = false

abbrev pub is_connected : DataState → Bool
is_connected data_connected = true
is_connected _ = false

abbrev pub is_mover_idle : MoverState → Bool
is_mover_idle mover_idle = true
is_mover_idle _ = false

abbrev pub is_mover_listen : MoverState → Bool
is_mover_listen mover_listen = true
is_mover_listen _ = false

abbrev pub is_mover_halted : MoverState → Bool
is_mover_halted mover_halted = true
is_mover_halted _ = false

abbrev pub is_backup : DataOperation → Bool
is_backup op_backup = true
is_backup _ = false

abbrev pub is_successful : DataHaltReason → Bool
is_successful halt_successful = true
is_successful _ = false

abbrev pub is_tcp : AddrType → Bool
is_tcp addr_tcp = true
is_tcp _ = false

abbrev pub is_local : AddrType → Bool
is_local addr_local = true
is_local _ = false

abbrev pub same_fd : Option ℕ → Option ℕ → Bool
same_fd none none = true
same_fd (some a) (some b) = a == b
same_fd _ _ = false

abbrev pub is_none : Option ℕ → Bool
is_none none = true
is_none (some a) = false

abbrev pub emit : Effect → Session → Session
emit e s = record s { effects = s.effects ++ (e ∷ []) }
