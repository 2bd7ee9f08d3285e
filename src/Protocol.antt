-- ===== src/Protocol.antt =====
-- include/ndmp.h: the error codes that replies carry, and the kinds of message.
use ndmpd.Common.{ℕ, Bool, true, false}

-- `ndmp_error`, the prefix `NDMP_` left out, in the order of the values 0 to 30
pub data NdmpError : Type 0 where
  no_err not_supported_err device_busy_err device_opened_err not_authorized_err permission_err
        dev_not_open_err io_err timeout_err illegal_args_err no_tape_loaded_err write_protect_err
        eof_err eom_err file_not_found_err bad_file_err no_device_err no_bus_err xdr_decode_err
        illegal_state_err undefined_err xdr_encode_err no_mem_err connect_err sequence_num_err
        read_in_progress_err precondition_err class_not_supported_err version_not_supported_err
        ext_dupl_classes_err ext_dandn_illegal_err :
      NdmpError

abbrev pub is_no_err : NdmpError → Bool
is_no_err no_err = true
is_no_err _ = false

-- the values of the constants
abbrev pub error_code : NdmpError → ℕ
error_code no_err = 0
error_code not_supported_err = 1
error_code device_busy_err = 2
error_code device_opened_err = 3
error_code not_authorized_err = 4
error_code permission_err = 5
error_code dev_not_open_err = 6
error_code io_err = 7
error_code timeout_err = 8
error_code illegal_args_err = 9
error_code no_tape_loaded_err = 10
error_code write_protect_err = 11
error_code eof_err = 12
error_code eom_err = 13
error_code file_not_found_err = 14
error_code bad_file_err = 15
error_code no_device_err = 16
error_code no_bus_err = 17
error_code xdr_decode_err = 18
error_code illegal_state_err = 19
error_code undefined_err = 20
error_code xdr_encode_err = 21
error_code no_mem_err = 22
error_code connect_err = 23
error_code sequence_num_err = 24
error_code read_in_progress_err = 25
error_code precondition_err = 26
error_code class_not_supported_err = 27
error_code version_not_supported_err = 28
error_code ext_dupl_classes_err = 29
error_code ext_dandn_illegal_err = 30

-- `ndmp_header_message_type`
pub data MessageType : Type 0 where
  message_request message_reply : MessageType

abbrev pub is_request : MessageType → Bool
is_request message_request = true
is_request message_reply = false
