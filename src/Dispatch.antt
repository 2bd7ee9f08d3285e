-- ===== src/Dispatch.antt =====
-- src/ndmpd_func.c: how a message from the client is read, checked and handed to its handler.
pub mod Lookup
pub mod Rounds
pub mod OpenHandlers
pub mod Authorization
pub mod Replies
mod Tests
use ndmpd.Common.{
  ℕ, zero, suc, ◌+◌, ◌-◌, ◌/◌, ◌%◌, Bool, true, false, ◌&&◌, ◌||◌, not, List, [], ◌∷◌, ◌++◌, leb,
  ltb, ◌==◌, if◌then◌else◌, get_elem?, ◌⊎◌, inl, inr, Option, none, some,
}
use ndmpd.Protocol.{
  NdmpError, no_err, not_supported_err, not_authorized_err, no_mem_err, xdr_decode_err, is_no_err,
  MessageType, message_request, message_reply, is_request,
}
use ndmpd.HandlerTable.{HandlerFunc, MsgHandler, HdMessage, Interface, ndmp_msghdl_tab}

abbrev pub int_maxcmd : ℕ
int_maxcmd = 12

-- What a look-up in the table gives: `outside` is a read behind an array's end.
pub data Found (A : Type 0) : Type 0 where
  found : A → Found A
  missing : Found A
  outside : Found A

-- `ndmp_get_interface` and the element of `hd_msgs` that its callers take
find_message : ℕ → Interface → Found HdMessage
find_message message ni =
    if leb ni.hd_cnt (message % 256) then missing else elim (get_elem? ni.hd_msgs (message % 256)) [
      | none ↦ outside
      | some e ↦ if e.hm_message == message then found e else missing
    ]

pub ndmp_get_interface : ℕ → Found HdMessage
unfolding find_message
ndmp_get_interface message = elim (get_elem? ndmp_msghdl_tab (message / 256 % int_maxcmd)) [
  | none ↦ outside
  | some ni ↦ find_message message ni
]

-- `hm_msg_v[ver - 2]`, with 2 for every lower version
abbrev msg_v : HdMessage → ℕ → Found MsgHandler
msg_v e ver =
    if leb ver 2
    then found e.hm_v2
    else if ver == 3
    then found e.hm_v3
    else if ver == 4
    then found e.hm_v4
    else outside

-- the handler for a message in the connection's protocol version
pub ndmp_get_handler : ℕ → ℕ → Found MsgHandler
ndmp_get_handler conn_version message = elim (ndmp_get_interface message) [
  | found e ↦ msg_v e conn_version
  | missing ↦ missing
  | outside ↦ outside
]

pub ndmp_check_auth_required : ℕ → Bool
ndmp_check_auth_required message = elim (ndmp_get_interface message) [
  | found e ↦ e.hm_auth_required
  | missing ↦ false
  | outside ↦ false
]

-- the fields of `ndmp_header` that are looked at on receipt
pub record Header : Type 0 where
  pub message_type : MessageType
  pub message : ℕ
  pub error : NdmpError

-- `msg_info_t`; `Body` is what the conversion functions decode.
pub record MsgInfo (Body : Type 0) : Type 0 where
  pub mi_hdr : Header
  pub mi_handler : Option MsgHandler
  pub mi_body : Option Body

-- What the record stream gives for a message. Where its end is found, `ndmp_readit` has set `conn_eof`.
pub data Incoming (Body : Type 0) : Type 0 where
  -- the header cannot be decoded; the connection is closed or not
  no_header : Bool → Incoming Body
  -- the header, whether `ndmp_malloc` gives memory, and the arguments or, where they cannot be
  -- decoded, whether the connection is closed
  message : Header → Bool → Body ⊎ Bool → Incoming Body

-- the fields of `ndmp_connection_t` that matter for messages
pub record Connection (Body : Type 0) : Type 0 where
  pub conn_authorized : Bool
  pub conn_eof : Bool
  pub conn_version : ℕ
  pub conn_msginfo : MsgInfo Body

-- The results of `ndmp_recv_msg`: 0, an error number, and -1; `fault` is a read outside the table.
pub data Received : Type 0 where
  received : Received
  refused : NdmpError → Received
  undecoded : Received
  fault : Received

module _ {Body : Type 0} where
  -- what `memset` leaves
  abbrev pub no_message : MsgInfo Body
  no_message = record {
    mi_hdr = record { message_type = message_request; message = 0; error = no_err };
    mi_handler = none;
    mi_body = none;
  }

  abbrev with_info : Connection Body → MsgInfo Body → Connection Body
  with_info c info = record c { conn_msginfo = info }

  -- the end of `ndmp_recv_msg`, with memory for the body and a conversion function
  decode_body : Connection Body → MsgInfo Body → Body ⊎ Bool → Connection Body × Received
  decode_body c info (inl body) = (with_info c (record info { mi_body = some body }), received)
  decode_body c info (inr closed) =
      (record c { conn_eof = c.conn_eof || closed; conn_msginfo = info }, refused xdr_decode_err)

  -- A message for which the table has the handler `h`. A conversion function is there whenever the
  -- size is positive, so that a body is allocated just where one is decoded.
  recv_body :
      Connection Body → Header → MsgHandler → Bool → Body ⊎ Bool → Connection Body × Received
  unfolding decode_body
  recv_body c hdr h memory body =
      let info : MsgInfo Body = record { mi_hdr = hdr; mi_handler = some h; mi_body = none } in
      let decoded =
        if memory then decode_body c info body else (with_info c info, refused no_mem_err) in
      if not (is_no_err hdr.error)
      then (with_info c info, received)
      else if is_request hdr.message_type
      then if ndmp_check_auth_required hdr.message && not c.conn_authorized
        then (with_info c info, refused not_authorized_err)
        else if h.mh_xdr_request
        then decoded
        else (with_info c info, received)
      else if h.mh_xdr_reply
      then decoded
      else (with_info c info, received)

  -- after the header, with what the table has for the message
  recv_message :
      Connection Body → Header → Bool → Body ⊎ Bool → Found MsgHandler → Connection Body × Received
  unfolding recv_body
  recv_message c hdr memory body (found h) = recv_body c hdr h memory body
  recv_message c hdr memory body missing = (
    with_info c (record { mi_hdr = hdr; mi_handler = none; mi_body = none }),
    refused not_supported_err,
  )
  recv_message c hdr memory body outside = (c, fault)

  pub ndmp_recv_msg : Connection Body → Incoming Body → Connection Body × Received
  unfolding recv_message
  ndmp_recv_msg c (no_header closed) = (record c { conn_eof = c.conn_eof || closed }, undecoded)
  ndmp_recv_msg c (message hdr memory body) =
      recv_message c hdr memory body (ndmp_get_handler c.conn_version hdr.message)

-- The results of `ndmp_process_messages`; `proc_fault` is a read outside the table.
pub data ProcResult : Type 0 where
  proc_err proc_msg proc_rep proc_rep_err proc_fault : ProcResult

-- What the loop does that others see: a call of a handler, with the connection's authorization and
-- whether there is a body, and an error reply to a message
pub data Event : Type 0 where
  called : HandlerFunc → Bool → Bool → Event
  responded : ℕ → NdmpError → Event

-- the connection, the local variables of `ndmp_process_messages`, and the events so far
pub record Loop (Body : Type 0) : Type 0 where
  pub conn : Connection Body
  pub reply_read : Bool
  pub reply_error : Bool
  pub reply_msginfo : MsgInfo Body
  pub events : List Event

pub data Next (Body : Type 0) : Type 0 where
  goes_on : Loop Body → Next Body
  returns : ProcResult → Loop Body → Next Body

module _ {Body : Type 0} where
  abbrev pub is_some : Option Body → Bool
  is_some none = false
  is_some (some b) = true

  -- `ndmp_free_message` ends with `mi_body` null.
  abbrev pub ndmp_free_message : Connection Body → Connection Body
  ndmp_free_message c = record c { conn_msginfo = record c.conn_msginfo { mi_body = none } }

  -- an error reply, and the message freed
  respond : Loop Body → Connection Body → NdmpError → Next Body
  respond s c e = goes_on (record s {
    conn = ndmp_free_message c;
    events = s.events ++ (responded c.conn_msginfo.mi_hdr.message e ∷ []);
  })

  on_refused : Loop Body → Connection Body → NdmpError → Next Body
  unfolding respond
  on_refused s c e =
      if c.conn_eof
      then returns proc_err (record s { conn = c })
      else if is_request c.conn_msginfo.mi_hdr.message_type
      then respond s c e
      else goes_on (record s {
        conn = ndmp_free_message c;
        reply_read = true;
        reply_error = if s.reply_read then s.reply_error else true;
      })

  on_undecoded : Loop Body → Connection Body → Next Body
  on_undecoded s c =
      if c.conn_eof
      then returns proc_err (record s { conn = c })
      else goes_on
          (record s { conn = c; reply_error = if s.reply_read then s.reply_error else true })

  on_reply : Bool → Loop Body → Connection Body → Next Body
  on_reply reply_expected s c =
      if not reply_expected || s.reply_read
      then goes_on (record s { conn = ndmp_free_message c })
      else goes_on (record s { conn = c; reply_read = true; reply_msginfo = c.conn_msginfo })

-- What a handler does to the connection is a parameter.
module _ {Body : Type 0} (run : HandlerFunc → Connection Body → Connection Body) where
  call : Loop Body → Connection Body → HandlerFunc → Next Body
  call s c f = goes_on (record s {
    conn = ndmp_free_message (run f c);
    events = s.events ++ (called f c.conn_authorized (is_some c.conn_msginfo.mi_body) ∷ []);
  })

  on_request : Loop Body → Connection Body → Option MsgHandler → Next Body
  unfolding respond call
  on_request s c none = respond s c not_supported_err
  on_request s c (some h) = elim h.mh_func [
    | none ↦ respond s c not_supported_err
    | some f ↦ call s c f
  ]

  on_received : Bool → Loop Body → Connection Body → Next Body
  unfolding on_request on_reply
  on_received reply_expected s c =
      if is_request c.conn_msginfo.mi_hdr.message_type
      then on_request s c c.conn_msginfo.mi_handler
      else on_reply reply_expected s c

  -- what is done with a message, by the result of `ndmp_recv_msg`
  on_message : Bool → Loop Body → Connection Body → Received → Next Body
  unfolding on_received on_refused on_undecoded
  on_message reply_expected s c received = on_received reply_expected s c
  on_message reply_expected s c (refused e) = on_refused s c e
  on_message reply_expected s c undecoded = on_undecoded s c
  on_message reply_expected s c fault = returns proc_fault s

  -- one round of the loop
  pub step : Bool → Loop Body → Incoming Body → Next Body
  unfolding on_message
  step reply_expected s m =
      let (c, r) = ndmp_recv_msg (record s.conn { conn_msginfo = no_message }) m in
      on_message reply_expected s c r

  -- what follows the loop
  pub after_loop : Loop Body → ProcResult × Loop Body
  after_loop s =
      if s.conn.conn_eof
      then (proc_err, s)
      else if s.reply_error
      then (proc_rep_err, s)
      else if s.reply_read
      then (proc_msg, record s { conn = record s.conn { conn_msginfo = s.reply_msginfo } })
      else (proc_rep, s)

  -- The loop over the messages that are in the stream buffer
  pub process_loop : Bool → Loop Body → List (Incoming Body) → ProcResult × Loop Body
  process_loop reply_expected s [] = after_loop s
  process_loop reply_expected s (m ∷ ms) = elim (step reply_expected s m) [
    | returns r t ↦ (r, t)
    | goes_on t ↦ elim t.conn.conn_eof [
      | true ↦ after_loop t
      | false ↦ process_loop reply_expected t ms
    ]
  ]

  abbrev pub loop_start : Connection Body → Loop Body
  loop_start c = record {
    conn = c;
    reply_read = false;
    reply_error = false;
    reply_msginfo = no_message;
    events = [];
  }

  -- The first message is read in any case, the others while the buffer holds some.
  pub ndmp_process_messages :
      Connection Body → Bool → Incoming Body → List (Incoming Body) → ProcResult × Loop Body
  ndmp_process_messages c reply_expected m ms = process_loop reply_expected (loop_start c) (m ∷ ms)
