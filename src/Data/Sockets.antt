-- ===== src/Data/Sockets.antt =====
-- src/ndmpd_data.c, src/ndmpd_mover.c, src/ndmpd_util.c and, for aborts, src/ndmpd_tar_v3.c: how
-- sockets are opened, closed and forgotten, and how the data server and the mover halt.
use ndmpd.Common.{
  ℕ, Bool, true, false, ◌&&◌, ◌||◌, not, List, [], ◌∷◌, ltb, ◌==◌, if◌then◌else◌, Option, none,
  some,
}
use ndmpd.Protocol.{NdmpError, no_err, connect_err}
use ndmpd.Data.{
  data_idle, data_halted, DataOperation, op_noaction, op_backup, op_recover, stopped_reader,
  stopped_writer, DataHaltReason, halt_na, halt_successful, halt_aborted, halt_internal_error,
  halt_connect_error, mover_idle, mover_halted, MoverHaltReason, mover_halt_na,
  mover_halt_connect_closed, mover_halt_internal_error, mover_halt_media_error, addr_local,
  addr_tcp, notified_data_halted, notified_mover_halted, history_cleanup, released, Session,
  is_idle, is_halted, is_mover_idle, is_mover_halted, is_backup, is_successful, is_tcp, same_fd,
  emit,
}

-- the list without the first `fd` in it
abbrev pub without : ℕ → List ℕ → List ℕ
without fd [] = []
without fd (x ∷ xs) = let rest = without fd xs in if x == fd then xs else x ∷ rest

abbrev pub is_open : ℕ → List ℕ → Bool
is_open fd [] = false
is_open fd (x ∷ xs) = x == fd || is_open fd xs

-- `ndmpd_remove_file_handler`
abbrev pub ndmpd_remove_file_handler : ℕ → Session → Session
ndmpd_remove_file_handler fd s = record s { file_handlers = without fd s.file_handlers }

-- the system's `close`
abbrev pub close : ℕ → Session → Session
close fd s = record s {
  open_fds = without fd s.open_fds;
  bad_close = s.bad_close || not (is_open fd s.open_fds);
}

-- the system gives a new descriptor
abbrev pub opened : ℕ → Session → Session
opened fd s = record s { open_fds = fd ∷ s.open_fds }

-- `ndmpd_mover_init`, when there is memory for the buffer
unfoldable pub ndmpd_mover_init : Session → Session
ndmpd_mover_init s = record s {
  md_state = mover_idle;
  md_halt_reason = mover_halt_na;
  md_listen_sock = none;
  md_sock = none;
}

-- the two blocks of `ndmpd_mover_shut_down` and of `ndmpd_mover_error`
unfoldable pub close_mover_listen : Session → Session
close_mover_listen s = elim s.md_listen_sock [
  | none ↦ s
  | some fd ↦ record (close fd (ndmpd_remove_file_handler fd s)) { md_listen_sock = none }
]

unfoldable pub close_mover_sock : Session → Session
close_mover_sock s = elim s.md_sock [
  | none ↦ s
  | some fd ↦ record (close fd (ndmpd_remove_file_handler fd s)) { md_sock = none }
]

unfoldable pub ndmpd_mover_shut_down : Session → Session
unfolding close_mover_listen close_mover_sock
ndmpd_mover_shut_down s = close_mover_sock (close_mover_listen s)

-- there is no media error in version 3
abbrev pub reason_v3 : MoverHaltReason → MoverHaltReason
reason_v3 mover_halt_media_error = mover_halt_internal_error
reason_v3 reason = reason

unfoldable pub ndmpd_mover_error : Session → MoverHaltReason → Session
unfolding close_mover_listen close_mover_sock
ndmpd_mover_error s reason =
    let reason' = if s.ns_protocol_version == 4 then reason else reason_v3 reason in
    if is_mover_halted s.md_state || (ltb 2 s.ns_protocol_version && is_mover_idle s.md_state)
    then s
    else record (close_mover_sock (close_mover_listen (emit (notified_mover_halted reason') s))) {
      md_state = mover_halted;
      md_halt_reason = reason';
    }

unfoldable pub ndmpd_data_init : Session → Session
ndmpd_data_init s = record s {
  dd_operation = op_noaction;
  dd_state = data_idle;
  dd_halt_reason = halt_na;
  dd_abort = false;
  dd_sock = none;
  dd_addr_type = addr_local;
  dd_listen_sock = none;
}

-- the socket is left open where the mover uses it too
unfoldable pub close_unshared : ℕ → Session → Session
close_unshared fd s = if same_fd (some fd) s.md_sock then s else close fd s

-- the blocks of `ndmpd_data_error` and `ndmpd_data_cleanup` for the two sockets
unfoldable pub error_sock : Session → Session
unfolding close_unshared
error_sock s = elim s.dd_sock [
  | none ↦ s
  | some fd ↦ record (close_unshared fd (ndmpd_remove_file_handler fd s)) { dd_sock = none }
]

unfoldable pub cleanup_sock : Session → Session
unfolding close_unshared
cleanup_sock s = elim s.dd_sock [
  | none ↦ s
  | some fd ↦ record (close_unshared fd s) { dd_sock = none }
]

unfoldable pub close_listen : Session → Session
close_listen s = elim s.dd_listen_sock [
  | none ↦ s
  | some fd ↦ record (close fd (ndmpd_remove_file_handler fd s)) { dd_listen_sock = none }
]

unfoldable pub ndmpd_data_cleanup : Session → Session
unfolding cleanup_sock close_listen
ndmpd_data_cleanup s = emit released (cleanup_sock (close_listen s))

-- the end of `ndmpd_data_error`
unfoldable pub error_sockets : Session → Session
unfolding error_sock close_listen ndmpd_mover_error
error_sockets s =
    if is_tcp s.dd_addr_type
    then close_listen (error_sock s)
    else ndmpd_mover_error s mover_halt_connect_closed

-- The middle of `ndmpd_data_error`; `ndmpd_local_write_v3` does nothing.
unfoldable pub halting : Session → DataHaltReason → Session
halting s reason =
    let s' =
      if is_backup s.dd_operation then emit (history_cleanup (is_successful reason)) s else s in
    emit (notified_data_halted reason)
      (record s' { dd_state = data_halted; dd_halt_reason = reason })

unfoldable pub ndmpd_data_error : Session → DataHaltReason → Session
unfolding halting error_sockets
ndmpd_data_error s reason =
    if is_idle s.dd_state || is_halted s.dd_state then s else error_sockets (halting s reason)

-- The cases of `ndmpd_api_done_v3`, with the system's EINTR and EIO
abbrev pub done_reason : ℕ → DataHaltReason
done_reason err =
    if err == 0
    then halt_successful
    else if err == 4
    then halt_aborted
    else if err == 5
    then halt_connect_error
    else halt_internal_error

unfoldable pub ndmpd_api_done_v3 : Session → ℕ → Session
unfolding ndmpd_data_error
ndmpd_api_done_v3 s err = ndmpd_data_error s (done_reason err)

-- `ndmpd_tar_backup_abort_v3`, which closes the connection, and only then stops the thread
unfoldable pub ndmpd_tar_backup_abort_v3 : Session → Session
ndmpd_tar_backup_abort_v3 s = emit stopped_reader (
    if is_tcp s.dd_addr_type
    then elim s.dd_sock [ none ↦ s | some fd ↦ record (close fd s) { dd_sock = none } ]
    else s)

-- `ndmpd_tar_restore_abort_v3`, which leaves the connection open, for the address type it looks at,
-- that of `dd_mover`, is never set to another value than the local one
abbrev pub ndmpd_tar_restore_abort_v3 : Session → Session
ndmpd_tar_restore_abort_v3 s = emit stopped_writer s

-- `dm_abort_func`, which each operation sets to its own
unfoldable pub dm_abort_func : DataOperation → Session → Session
unfolding ndmpd_tar_backup_abort_v3
dm_abort_func op_backup s = ndmpd_tar_backup_abort_v3 s
dm_abort_func op_recover s = ndmpd_tar_restore_abort_v3 s
dm_abort_func op_noaction s = s

-- `sock` is what `ndmp_create_socket` gives, `added` whether the handler's entry was allocated.
unfoldable pub create_listen_socket_v3 : Session → Option ℕ → Bool → Session × Bool
create_listen_socket_v3 s none added = (record s { dd_listen_sock = none }, false)
create_listen_socket_v3 s (some fd) added =
    let s' = record (opened fd s) { dd_listen_sock = some fd } in
    if added
    then (record s' { file_handlers = fd ∷ s'.file_handlers }, true)
    else (record (close fd s') { dd_listen_sock = none }, false)

-- `sock` is what `ndmp_connect_sock_v3` gives.
unfoldable pub data_connect_sock_v3 : Session → Option ℕ → Session × NdmpError
data_connect_sock_v3 s none = (s, connect_err)
data_connect_sock_v3 s (some fd) =
    (record (opened fd s) { dd_sock = some fd; dd_addr_type = addr_tcp }, no_err)
