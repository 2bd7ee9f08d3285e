-- ===== src/Dispatch/Tests.antt =====
-- src/ndmpd_func.c on concrete messages.
use ndmpd.Common.{ℕ, ◌/◌, ◌%◌, ◌≡◌, ◌↔◌, refl, true, false, [], ◌∷◌, ◌++◌, inl, All}
use ndmpd.Protocol.{message_request, message_reply, no_err, io_err}
use ndmpd.HandlerTable.{
  HandlerFunc, HdMessage, ndmp_msghdl_tab, handl_rs, null_handler, data_abort_v3,
}
use ndmpd.Dispatch.{
  proc_msg, process_loop, after_loop, ndmp_recv_msg, recv_message, recv_body, decode_body,
  on_message, on_received, on_reply, found, outside, find_message, ndmp_get_interface,
  ndmp_get_handler, Header, message, Connection, Loop, called, step, loop_start, no_message,
  ndmp_process_messages,
}
use ndmpd.Dispatch.Lookup.{interface-outside_iff}
use ndmpd.Dispatch.Replies.{Among, process-reply}
use ndmpd.Dispatch.Authorization.{Allowed, next_loop, unauthorized_calls, error_code_bypass}

abbrev abort_entry : HdMessage
abort_entry = record {
  hm_message = 0x403;
  hm_auth_required = true;
  hm_v2 = null_handler;
  hm_v3 = handl_rs data_abort_v3;
  hm_v4 = handl_rs data_abort_v3;
}

-- a client that is connected and not authenticated; a body is a number
abbrev stranger : Connection ℕ
stranger = record {
  conn_authorized = false;
  conn_eof = false;
  conn_version = 3;
  conn_msginfo = no_message;
}

abbrev does_nothing : HandlerFunc → Connection ℕ → Connection ℕ
does_nothing f c = c

abbrev abort_header : Header
abort_header = record { message_type = message_request; message = 0x403; error = io_err }

abbrev close_header : Header
close_header = record { message_type = message_request; message = 0x902; error = no_err }

interface-outside_iff_example : (ndmp_get_interface 0xb05 ≡ outside) ↔ (0xb05 / 256 % 12 ≡ 11)
interface-outside_iff_example = interface-outside_iff 0xb05

unauthorized_calls_example :
    All Allowed
      (ndmp_process_messages does_nothing stranger false
        (message close_header true (inl 0))
        []).1.events
unauthorized_calls_example =
    unauthorized_calls does_nothing stranger false (message close_header true (inl 0)) [] refl tt

abort_found : ndmp_get_interface 0x403 ≡ found abort_entry
unfolding ndmp_get_interface find_message ndmp_msghdl_tab
abort_found = refl

abort_handler : ndmp_get_handler 3 0x403 ≡ found (handl_rs data_abort_v3)
unfolding ndmp_get_handler ndmp_get_interface find_message ndmp_msghdl_tab
abort_handler = refl

error_code_bypass_example :
    (next_loop (
      step does_nothing false
        (loop_start does_nothing stranger)
        (message abort_header true (inl 0)))).events
    ≡ [] ++ (called data_abort_v3 false false ∷ [])
error_code_bypass_example =
    error_code_bypass does_nothing false (loop_start does_nothing stranger) abort_header
      (handl_rs data_abort_v3) data_abort_v3 true (inl 0) refl refl abort_handler refl

abbrev reply_header : Header
reply_header = record { message_type = message_reply; message = 0x403; error = no_err }

abbrev answered : Loop ℕ
answered =
    (ndmp_process_messages does_nothing stranger true (message reply_header true (inl 7)) []).1

answered_runs :
    ndmp_process_messages does_nothing stranger true (message reply_header true (inl 7)) []
    ≡ (proc_msg, answered)
unfolding ndmp_process_messages process_loop after_loop step ndmp_recv_msg recv_message recv_body
    decode_body on_message on_received on_reply ndmp_get_handler ndmp_get_interface find_message
    ndmp_msghdl_tab
answered_runs = refl

process-reply_example :
    (true ≡ true)
    × Among answered.conn.conn_msginfo (message reply_header true (inl 7) ∷ [])
    × (answered.conn.conn_eof ≡ false)
process-reply_example =
    process-reply does_nothing stranger true (message reply_header true (inl 7)) [] answered_runs
