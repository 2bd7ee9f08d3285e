-- ===== src/HandlerTable.antt =====
-- src/ndmpd_table.c with the types of include/ndmpd.h: the messages, whether each needs an
-- authenticated client, and its handler in the protocol versions 2, 3 and 4.
use ndmpd.Common.{ℕ, Bool, true, false, List, [], ◌∷◌, Option, none, some}

-- the handler functions, `ndmpd_` left out
pub data HandlerFunc : Type 0 where
  config_get_host_info_v3 : HandlerFunc
  config_get_connection_type_v3 : HandlerFunc
  config_get_auth_attr_v3 : HandlerFunc
  config_get_butype_info_v3 : HandlerFunc
  config_get_butype_info_v4 : HandlerFunc
  config_get_fs_info_v3 : HandlerFunc
  config_get_tape_info_v3 : HandlerFunc
  config_get_scsi_info_v3 : HandlerFunc
  config_get_server_info_v3 : HandlerFunc
  config_set_ext_list_v4 : HandlerFunc
  config_get_ext_list_v4 : HandlerFunc
  data_get_state_v3 : HandlerFunc
  data_get_state_v4 : HandlerFunc
  data_start_backup_v3 : HandlerFunc
  data_start_recover_v3 : HandlerFunc
  data_abort_v3 : HandlerFunc
  data_get_env_v3 : HandlerFunc
  data_get_env_v4 : HandlerFunc
  data_stop_v3 : HandlerFunc
  data_listen_v3 : HandlerFunc
  data_listen_v4 : HandlerFunc
  data_connect_v3 : HandlerFunc
  data_connect_v4 : HandlerFunc
  data_start_recover_filehist_v4 : HandlerFunc
  connect_open_v3 : HandlerFunc
  connect_client_auth_v3 : HandlerFunc
  connect_close_v3 : HandlerFunc
  connect_server_auth_v3 : HandlerFunc

-- `ndmp_msg_handler_t`: the function, and for the request and the reply whether there is a
-- conversion function. Each macro gives a size that is positive just where it gives a function.
pub record MsgHandler : Type 0 where
  pub mh_func : Option HandlerFunc
  pub mh_xdr_request : Bool
  pub mh_xdr_reply : Bool

-- the macros of the table
abbrev handl : HandlerFunc → MsgHandler
handl f = record { mh_func = some f; mh_xdr_request = true; mh_xdr_reply = true }

abbrev handl_rq : MsgHandler
handl_rq = record { mh_func = none; mh_xdr_request = true; mh_xdr_reply = false }

abbrev pub handl_rs : HandlerFunc → MsgHandler
handl_rs f = record { mh_func = some f; mh_xdr_request = false; mh_xdr_reply = true }

abbrev handl_none : HandlerFunc → MsgHandler
handl_none f = record { mh_func = some f; mh_xdr_request = false; mh_xdr_reply = false }

abbrev pub null_handler : MsgHandler
null_handler = record { mh_func = none; mh_xdr_request = false; mh_xdr_reply = false }

-- an element of `hd_msgs`: the handlers stand for the versions 2, 3 and 4
pub record HdMessage : Type 0 where
  pub hm_message : ℕ
  pub hm_auth_required : Bool
  pub hm_v2 : MsgHandler
  pub hm_v3 : MsgHandler
  pub hm_v4 : MsgHandler

pub record Interface : Type 0 where
  pub hd_cnt : ℕ
  pub hd_msgs : List HdMessage

abbrev required : ℕ → MsgHandler → MsgHandler → MsgHandler → HdMessage
required m a b c = record {
  hm_message = m;
  hm_auth_required = true;
  hm_v2 = a;
  hm_v3 = b;
  hm_v4 = c;
}

abbrev open_to_all : ℕ → MsgHandler → MsgHandler → MsgHandler → HdMessage
open_to_all m a b c = record {
  hm_message = m;
  hm_auth_required = false;
  hm_v2 = a;
  hm_v3 = b;
  hm_v4 = c;
}

abbrev unused : ℕ → HdMessage
unused m = required m null_handler null_handler null_handler

abbrev none_interface : Interface
none_interface = record {
  hd_cnt = 0;
  hd_msgs = open_to_all 0x0 null_handler null_handler null_handler ∷ [];
}

abbrev config : Interface
config = record {
  hd_cnt = 11;
  hd_msgs =
      required 0x100 null_handler (handl_rs config_get_host_info_v3)
        (handl_rs config_get_host_info_v3)
      ∷ open_to_all 0x101 null_handler null_handler null_handler
      ∷ required 0x102 null_handler (handl_rs config_get_connection_type_v3)
          (handl_rs config_get_connection_type_v3)
      ∷ open_to_all 0x103 null_handler (handl config_get_auth_attr_v3)
          (handl config_get_auth_attr_v3)
      ∷ required 0x104 null_handler (handl_rs config_get_butype_info_v3)
          (handl_rs config_get_butype_info_v4)
      ∷ required 0x105 null_handler (handl_rs config_get_fs_info_v3)
          (handl_rs config_get_fs_info_v3)
      ∷ required 0x106 null_handler (handl_rs config_get_tape_info_v3)
          (handl_rs config_get_tape_info_v3)
      ∷ required 0x107 null_handler (handl_rs config_get_scsi_info_v3)
          (handl_rs config_get_scsi_info_v3)
      ∷ open_to_all 0x108 null_handler (handl_rs config_get_server_info_v3)
          (handl_rs config_get_server_info_v3)
      ∷ required 0x109 null_handler null_handler (handl config_set_ext_list_v4)
      ∷ required 0x10a null_handler null_handler (handl_rs config_get_ext_list_v4)
      ∷ [];
}

abbrev scsi : Interface
scsi = record {
  hd_cnt = 7;
  hd_msgs =
      unused 0x200
      ∷ unused 0x201
      ∷ unused 0x202
      ∷ unused 0x203
      ∷ unused 0x204
      ∷ unused 0x205
      ∷ unused 0x206
      ∷ [];
}

abbrev tape : Interface
tape = record {
  hd_cnt = 8;
  hd_msgs =
      unused 0x300
      ∷ unused 0x301
      ∷ unused 0x302
      ∷ unused 0x303
      ∷ unused 0x304
      ∷ unused 0x305
      ∷ unused 0x306
      ∷ unused 0x307
      ∷ [];
}

abbrev data_server : Interface
data_server = record {
  hd_cnt = 12;
  hd_msgs =
      required 0x400 null_handler (handl_rs data_get_state_v3) (handl_rs data_get_state_v4)
      ∷ required 0x401 null_handler (handl data_start_backup_v3) (handl data_start_backup_v3)
      ∷ required 0x402 null_handler (handl data_start_recover_v3) (handl data_start_recover_v3)
      ∷ required 0x403 null_handler (handl_rs data_abort_v3) (handl_rs data_abort_v3)
      ∷ required 0x404 null_handler (handl_rs data_get_env_v3) (handl_rs data_get_env_v4)
      ∷ unused 0x405
      ∷ unused 0x406
      ∷ required 0x407 null_handler (handl_rs data_stop_v3) (handl_rs data_stop_v3)
      ∷ unused 0x408
      ∷ required 0x409 null_handler (handl data_listen_v3) (handl data_listen_v4)
      ∷ required 0x40a null_handler (handl data_connect_v3) (handl data_connect_v4)
      ∷ required 0x40b null_handler null_handler (handl_rs data_start_recover_filehist_v4)
      ∷ [];
}

abbrev notify : Interface
notify = record {
  hd_cnt = 6;
  hd_msgs =
      unused 0x500
      ∷ required 0x501 null_handler handl_rq handl_rq
      ∷ open_to_all 0x502 null_handler handl_rq handl_rq
      ∷ required 0x503 null_handler handl_rq handl_rq
      ∷ required 0x504 null_handler handl_rq handl_rq
      ∷ required 0x505 null_handler handl_rq handl_rq
      ∷ [];
}

abbrev log : Interface
log = record {
  hd_cnt = 4;
  hd_msgs =
      unused 0x600
      ∷ unused 0x601
      ∷ required 0x602 null_handler handl_rq handl_rq
      ∷ required 0x603 null_handler handl_rq handl_rq
      ∷ [];
}

abbrev file_history : Interface
file_history = record {
  hd_cnt = 6;
  hd_msgs =
      required 0x700 null_handler handl_rq null_handler
      ∷ required 0x701 null_handler handl_rq null_handler
      ∷ required 0x702 null_handler handl_rq null_handler
      ∷ required 0x703 null_handler handl_rq handl_rq
      ∷ required 0x704 null_handler handl_rq handl_rq
      ∷ required 0x705 null_handler handl_rq handl_rq
      ∷ [];
}

abbrev empty_interface : Interface
empty_interface = record { hd_cnt = 0; hd_msgs = [] }

abbrev connect : Interface
connect = record {
  hd_cnt = 4;
  hd_msgs =
      open_to_all 0x900 null_handler (handl connect_open_v3) (handl connect_open_v3)
      ∷ open_to_all 0x901 null_handler (handl connect_client_auth_v3) (handl connect_client_auth_v3)
      ∷ open_to_all 0x902 null_handler (handl_none connect_close_v3) (handl_none connect_close_v3)
      ∷ required 0x903 null_handler (handl connect_server_auth_v3) (handl connect_server_auth_v3)
      ∷ [];
}

abbrev mover : Interface
mover = record {
  hd_cnt = 10;
  hd_msgs =
      unused 0xa00
      ∷ unused 0xa01
      ∷ unused 0xa02
      ∷ unused 0xa03
      ∷ unused 0xa04
      ∷ unused 0xa05
      ∷ unused 0xa06
      ∷ unused 0xa07
      ∷ unused 0xa08
      ∷ unused 0xa09
      ∷ [];
}

unfoldable pub ndmp_msghdl_tab : List Interface
ndmp_msghdl_tab =
    none_interface ∷ config ∷ scsi ∷ tape ∷ data_server ∷ notify ∷ log ∷ file_history
    ∷ empty_interface ∷ connect ∷ mover ∷ []
