-- ===== src/Data/Handlers.antt =====
-- src/ndmpd_data.c: the handlers of the data interface. Each is given what the system and the other
-- components answer: sockets, memory, and the results of the calls that check the arguments.
use ndmpd.Common.{ℕ, Bool, true, false, ◌||◌, not, List, [], ◌∷◌, if◌then◌else◌, Option, none, some}
use ndmpd.Protocol.{
  NdmpError, no_err, is_no_err, error_code, illegal_state_err, illegal_args_err, io_err,
  no_device_err, no_mem_err,
}
use ndmpd.Data.{
  DataState, data_idle, data_active, data_listen, data_connected, op_backup, op_recover,
  halt_aborted, halt_internal_error, halt_connect_error, mover_active, AddrType, addr_local,
  addr_tcp, addr_unknown, replied, history_cleanup, history_init, waited_for_op, thread_started,
  Session, is_idle, is_halted, is_connected, is_mover_idle, is_mover_listen, is_local, is_none,
  emit,
}
use ndmpd.Data.Sockets.{
  close, opened, ndmpd_remove_file_handler, ndmpd_data_init, ndmpd_data_cleanup, ndmpd_data_error,
  dm_abort_func, ndmpd_api_done_v3, create_listen_socket_v3, data_connect_sock_v3,
}

-- the end of the listen and connect handlers: the new state, and the reply
abbrev pub finish : DataState → Session × NdmpError → Session
finish st (s, e) = emit (replied e) (if is_no_err e then record s { dd_state = st } else s)

-- the switch of `ndmpd_data_listen_v3`; `sock` and `added` are for `create_listen_socket_v3`.
unfoldable pub listen_on : Session → AddrType → Option ℕ → Bool → Session × NdmpError
unfolding create_listen_socket_v3
listen_on s addr_local sock added = (record s { dd_addr_type = addr_local }, no_err)
listen_on s addr_tcp sock added =
    let (s', ok) = create_listen_socket_v3 s sock added in
    if ok then (record s' { dd_addr_type = addr_tcp }, no_err) else (s', io_err)
listen_on s _ sock added = (s, illegal_args_err)

unfoldable pub ndmpd_data_listen_v3 : Session → AddrType → Option ℕ → Bool → Session
unfolding listen_on
ndmpd_data_listen_v3 s addr_type sock added =
    if not (is_idle s.dd_state) || not (is_mover_idle s.md_state)
    then emit (replied illegal_state_err) s
    else finish data_listen (listen_on s addr_type sock added)

abbrev pub ndmp_valid_v3addr_type : AddrType → Bool
ndmp_valid_v3addr_type addr_unknown = false
ndmp_valid_v3addr_type _ = true

-- the switch of `ndmpd_data_connect_v3`
unfoldable pub connect_to : Session → AddrType → Option ℕ → Session × NdmpError
unfolding data_connect_sock_v3
connect_to s addr_local sock =
    if not (is_mover_listen s.md_state) || not (is_none s.md_listen_sock)
    then (s, illegal_state_err)
    else (record s { md_state = mover_active }, no_err)
connect_to s addr_tcp sock = data_connect_sock_v3 s sock
connect_to s _ sock = (s, illegal_args_err)

unfoldable pub ndmpd_data_connect_v3 : Session → AddrType → Option ℕ → Session
unfolding connect_to
ndmpd_data_connect_v3 s addr_type sock =
    if not (ndmp_valid_v3addr_type addr_type)
    then emit (replied illegal_args_err) s
    else if not (is_idle s.dd_state)
    then emit (replied illegal_state_err) s
    else finish data_connected (connect_to s addr_type sock)

-- `fd` is what `accept` gives.
unfoldable pub data_accept_connection_v3 : Session → ℕ → Option ℕ → Session
unfolding ndmpd_data_error
data_accept_connection_v3 s listening none =
    ndmpd_data_error
      (record (close listening (ndmpd_remove_file_handler listening s)) {
        dd_listen_sock = none;
        dd_sock = none;
      })
      halt_connect_error
data_accept_connection_v3 s listening (some fd) =
    record (close listening (ndmpd_remove_file_handler listening (opened fd s))) {
      dd_listen_sock = none;
      dd_sock = some fd;
      dd_state = data_connected;
    }

-- the switch of `ndmpd_data_abort_v3`; `has_func` tells whether `dm_abort_func` is set, and its job has
-- a session.
unfoldable pub abort_in : DataState → Session → Bool → Session
unfolding ndmpd_data_error dm_abort_func
abort_in data_idle s has_func = emit (replied illegal_state_err) s
abort_in data_active s true =
    emit (replied no_err) (dm_abort_func s.dd_operation (record s { dd_abort = true }))
abort_in data_active s false = emit (replied no_err) (record s { dd_abort = true })
abort_in _ s has_func =
    emit (replied no_err) (ndmpd_data_error (record s { dd_abort = true }) halt_aborted)

unfoldable pub ndmpd_data_abort_v3 : Session → Bool → Session
unfolding abort_in
ndmpd_data_abort_v3 s has_func = abort_in s.dd_state s has_func

unfoldable pub ndmpd_data_stop_v3 : Session → Session
unfolding ndmpd_data_cleanup ndmpd_data_init
ndmpd_data_stop_v3 s =
    if not (is_halted s.dd_state)
    then emit (replied illegal_state_err) s
    else emit (replied no_err) (
        emit history_init (
          ndmpd_data_init
            (emit (history_cleanup false) (ndmpd_data_cleanup (emit waited_for_op s)))))

-- What the calls of `start_backup_v3` and `start_recover_v3` answer: whether the type is `dump` or
-- `tar`, the results of saving the environment and the names and of reading the parameters, and
-- whether there is memory, the reply is sent and the thread is created
pub record Answers : Type 0 where
  pub known_type : Bool
  pub save_env : NdmpError
  pub save_nlist : NdmpError
  pub memory : Bool
  pub get_params : NdmpError
  pub reply_sent : Bool
  pub thread_created : Bool

-- from the call of `ndmp_backup_get_params_v3` on
unfoldable pub run_backup : Session → Answers → Session × NdmpError
unfolding ndmpd_api_done_v3
run_backup s a =
    if not (is_no_err a.get_params)
    then (ndmpd_api_done_v3 (emit (replied a.get_params) s) (error_code a.get_params), no_err)
    else if not a.reply_sent
    then (s, no_err)
    else if a.thread_created
    then (emit (thread_started op_backup) (emit (replied no_err) s), no_err)
    else (emit (replied no_err) s, illegal_args_err)

unfoldable pub start_backup_v3 : Session → Answers → Session × NdmpError
unfolding run_backup
start_backup_v3 s a =
    if not (is_connected s.dd_state)
    then (s, illegal_state_err)
    else if is_local s.dd_addr_type
    then (s, no_device_err)
    else if not a.known_type
    then (s, illegal_args_err)
    else if not (is_no_err a.save_env)
    then (s, a.save_env)
    else if not a.memory
    then (s, no_mem_err)
    else run_backup
        (record s { dd_state = data_active; dd_operation = op_backup; dd_abort = false }) a

-- what `ndmpd_data_start_backup_v3` does with the result
abbrev pub backup_reply : Session × NdmpError → Session
backup_reply (s, e) = if is_no_err e then s else ndmpd_data_cleanup (emit (replied e) s)

unfoldable pub ndmpd_data_start_backup_v3 : Session → Answers → Session
unfolding start_backup_v3 ndmpd_data_cleanup
ndmpd_data_start_backup_v3 s a = backup_reply (start_backup_v3 s a)

-- from the reply of `start_recover_v3` on
unfoldable pub run_recover : Session → Answers → Session × NdmpError
unfolding ndmpd_data_error
run_recover s a =
    let s' = record s { dd_state = data_active; dd_operation = op_recover; dd_abort = false } in
    if not a.reply_sent
    then (ndmpd_data_error s halt_connect_error, no_err)
    else if a.thread_created
    then (emit (thread_started op_recover) (emit (replied no_err) s'), no_err)
    else (emit (replied no_err) s', illegal_args_err)

unfoldable pub start_recover_v3 : Session → Answers → Session × NdmpError
unfolding run_recover
start_recover_v3 s a =
    if not (is_connected s.dd_state)
    then (s, illegal_state_err)
    else if not a.known_type
    then (s, illegal_args_err)
    else if not a.memory
    then (s, no_mem_err)
    else if not (is_no_err a.save_env)
    then (s, no_mem_err)
    else if not (is_no_err a.save_nlist)
    then (s, no_mem_err)
    else if not (is_no_err a.get_params)
    then (s, a.get_params)
    else run_recover s a

-- what `ndmpd_data_start_recover_v3` does with the result
abbrev pub recover_reply : Session × NdmpError → Session
recover_reply (s, e) =
    if is_no_err e
    then s
    else ndmpd_data_cleanup (ndmpd_data_error (emit (replied e) s) halt_internal_error)

unfoldable pub ndmpd_data_start_recover_v3 : Session → Answers → Session
unfolding start_recover_v3 ndmpd_data_cleanup ndmpd_data_error
ndmpd_data_start_recover_v3 s a = recover_reply (start_recover_v3 s a)

-- What can happen to the data server: the requests of the client, a connection on the listening
-- socket, and the end of a backup's or restore's thread, with the answers of the system to each
pub data Request : Type 0 where
  listen : AddrType → Option ℕ → Bool → Request
  connect : AddrType → Option ℕ → Request
  accept : Option ℕ → Request
  abort : Bool → Request
  stop : Request
  start_backup : Answers → Request
  start_recover : Answers → Request
  done : ℕ → Request

-- `ndmpd_select` calls the accepting handler only while the listening socket has one.
abbrev pub accept_on : Session → Option ℕ → Option ℕ → Session
accept_on s none fd = s
accept_on s (some listening) fd = data_accept_connection_v3 s listening fd

-- the handler of each
unfoldable pub handle : Session → Request → Session
handle s (listen addr_type sock added) = ndmpd_data_listen_v3 s addr_type sock added
handle s (connect addr_type sock) = ndmpd_data_connect_v3 s addr_type sock
handle s (accept fd) = accept_on s s.dd_listen_sock fd
handle s (abort has_func) = ndmpd_data_abort_v3 s has_func
handle s stop = ndmpd_data_stop_v3 s
handle s (start_backup a) = ndmpd_data_start_backup_v3 s a
handle s (start_recover a) = ndmpd_data_start_recover_v3 s a
handle s (done err) = ndmpd_api_done_v3 s err

unfoldable pub handle_all : Session → List Request → Session
handle_all s [] = s
handle_all s (r ∷ rs) = handle_all (handle s r) rs
