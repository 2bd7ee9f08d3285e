-- ===== src/Data/Tests.antt =====
-- src/ndmpd_data.c on concrete sessions.
use ndmpd.Common.{inl, refl, true, false, List, [], ◌∷◌, none, some, arith}
use ndmpd.Protocol.{no_err}
use ndmpd.Data.{
  Session, data_idle, data_active, data_connected, op_noaction, op_backup, halt_na, mover_idle,
  mover_halt_na, addr_local, addr_tcp,
}
use ndmpd.Data.Sockets.{create_listen_socket_v3}
use ndmpd.Data.Handlers.{
  Answers, Request, listen, accept, stop, start_backup, done, handle, handle_all,
  ndmpd_data_listen_v3, listen_on, ndmpd_data_start_recover_v3, ndmpd_data_stop_v3,
  ndmpd_data_abort_v3,
}
use ndmpd.Data.Ownership.{IsWellFormed}
use ndmpd.Data.Halting.{Halted}
use ndmpd.Data.Invariant.{handle_all-IsWellFormed}
use ndmpd.Data.Refusals.{Fresh, refused_recover, abort-stop}

-- a session as `ndmpd_data_init` and `ndmpd_mover_init` leave it
abbrev new : Session
new = record {
  ns_protocol_version = 4;
  dd_state = data_idle;
  dd_operation = op_noaction;
  dd_halt_reason = halt_na;
  dd_abort = false;
  dd_sock = none;
  dd_listen_sock = none;
  dd_addr_type = addr_local;
  md_state = mover_idle;
  md_halt_reason = mover_halt_na;
  md_sock = none;
  md_listen_sock = none;
  file_handlers = 3 ∷ [];
  open_fds = [];
  bad_close = false;
  effects = [];
}

-- one that is connected over the descriptor 7
abbrev joined : Session
joined = record new {
  dd_state = data_connected;
  dd_sock = some 7;
  dd_addr_type = addr_tcp;
  open_fds = 7 ∷ [];
}

-- one with a backup that runs
abbrev running : Session
running = record joined { dd_state = data_active; dd_operation = op_backup }

new-IsWellFormed : IsWellFormed new
new-IsWellFormed = record {
  sockets = (refl, refl, refl, refl);
  mover_idles = refl;
  mover_sock = refl;
  no_bad_close = refl;
  version = refl;
}

joined-IsWellFormed : IsWellFormed joined
joined-IsWellFormed = record {
  sockets = (inl refl, refl, refl);
  mover_idles = refl;
  mover_sock = refl;
  no_bad_close = refl;
  version = refl;
}

running-IsWellFormed : IsWellFormed running
running-IsWellFormed = record {
  sockets = (inl refl, refl, refl);
  mover_idles = refl;
  mover_sock = refl;
  no_bad_close = refl;
  version = refl;
}

abbrev all_well : Answers
all_well = record {
  known_type = true;
  save_env = no_err;
  save_nlist = no_err;
  memory = true;
  get_params = no_err;
  reply_sent = true;
  thread_created = true;
}

abbrev script : List Request
script =
    listen addr_tcp (some 5) true ∷ accept (some 6) ∷ start_backup all_well ∷ done 0 ∷ stop ∷ []

handle_all-IsWellFormed_example : IsWellFormed (handle_all new script)
unfolding handle ndmpd_data_listen_v3 listen_on create_listen_socket_v3
handle_all-IsWellFormed_example =
    handle_all-IsWellFormed new script new-IsWellFormed (tt, (refl, (tt, (tt, (tt, tt)))))

refused_recover_example : Halted (ndmpd_data_start_recover_v3 running all_well)
refused_recover_example = refused_recover running all_well running-IsWellFormed refl refl

abort-stop_example : Fresh (ndmpd_data_stop_v3 (ndmpd_data_abort_v3 joined true))
abort-stop_example = abort-stop joined true joined-IsWellFormed (ground arith) (ground arith)
