-- ===== src/Dispatch/Authorization.antt =====
-- src/ndmpd_func.c: which handlers a client reaches before it is authenticated.
use ndmpd.Common.{
  ◌≡◌, ◌⊎◌, inl, inr, refl, Bool, true, false, ◌||◌, not, List, [], ◌∷◌, ◌++◌, some, All-snoc,
  arith, Bool-cases, Option-cases, All,
}
use ndmpd.Protocol.{NdmpError, no_err, not_supported_err, is_no_err, is_request}
use ndmpd.HandlerTable.{HandlerFunc, MsgHandler}
use ndmpd.Dispatch.{
  Found, found, missing, outside, ndmp_get_handler, ndmp_check_auth_required, Header, Incoming,
  message, no_header, Connection, Loop, Event, called, responded, Next, goes_on, returns, Received,
  received, refused, undecoded, fault, ndmp_recv_msg, recv_body, recv_message, step, process_loop,
  ndmp_process_messages, no_message, after_loop, loop_start, on_request, on_received, on_message,
  on_refused, on_undecoded, respond, call, on_reply,
}
use ndmpd.Dispatch.Rounds.{Round, stopped, closed, more, process_loop-cons, process_loop-nil}
use ndmpd.Dispatch.OpenHandlers.{is_open, open_handler, handler_open}

-- a call is made for an authenticated client or of an open handler
abbrev pub Allowed : Event → Type 0
Allowed (called f authorized has_body) = (authorized ≡ true) ⊎ (is_open f ≡ true)
Allowed (responded m e) = Unit

module _ {Body : Type 0} where
  -- the header carries no error code
  abbrev pub IsClean : Incoming Body → Type 0
  IsClean (no_header lost) = Unit
  IsClean (message hdr memory body) = hdr.error ≡ no_err

  recv_body-info :
      (c : Connection Body) (hdr : Header) (h : MsgHandler) (memory : Bool) (body : Body ⊎ Bool)
      → let c' = (recv_body c hdr h memory body).0 in
        (c'.conn_msginfo.mi_hdr ≡ hdr)
        × (c'.conn_msginfo.mi_handler ≡ some h)
        × (c'.conn_authorized ≡ c.conn_authorized)
  unfolding recv_body
  recv_body-info c hdr h memory body = ground arith

  recv_body-authorized :
      (c : Connection Body) (hdr : Header) (h : MsgHandler) (memory : Bool) (body : Body ⊎ Bool)
      → hdr.error ≡ no_err
      → is_request hdr.message_type ≡ true
      → (recv_body c hdr h memory body).1 ≡ received
      → (c.conn_authorized ≡ true) ⊎ (ndmp_check_auth_required hdr.message ≡ false)
  unfolding recv_body
  recv_body-authorized c hdr h memory body clean req q = ground arith

  abbrev pub next_loop : Next Body → Loop Body
  next_loop (goes_on t) = t
  next_loop (returns r t) = t

  respond-Allowed :
      (s : Loop Body) (c : Connection Body) (e : NdmpError)
      → All Allowed s.events
      → All Allowed (next_loop (respond s c e)).events
  unfolding respond
  respond-Allowed s c e h =
      All-snoc Allowed s.events (responded c.conn_msginfo.mi_hdr.message e) h tt

  on_refused-Allowed :
      (s : Loop Body) (c : Connection Body) (e : NdmpError)
      → All Allowed s.events
      → All Allowed (next_loop (on_refused s c e)).events
  unfolding on_refused
  on_refused-Allowed s c e h = elim (Bool-cases c.conn_eof) [
    | inl q ↦ rw q h
    | inr q ↦ elim (Bool-cases (is_request c.conn_msginfo.mi_hdr.message_type)) [
      | inl r ↦ rw (q, r) (respond-Allowed s c e h)
      | inr r ↦ rw (q, r) h
    ]
  ]

  on_undecoded-Allowed :
      (s : Loop Body) (c : Connection Body)
      → All Allowed s.events
      → All Allowed (next_loop (on_undecoded s c)).events
  unfolding on_undecoded
  on_undecoded-Allowed s c h = elim (Bool-cases c.conn_eof) [ inl q ↦ rw q h | inr q ↦ rw q h ]

module _ {Body : Type 0} (run : HandlerFunc → Connection Body → Connection Body) where
  call-Allowed :
      (s : Loop Body) (c : Connection Body) (f : HandlerFunc)
      → (c.conn_authorized ≡ true) ⊎ (is_open f ≡ true)
      → All Allowed s.events
      → All Allowed (next_loop (call run s c f)).events
  unfolding call
  call-Allowed s c f g h = All-snoc Allowed s.events _ h g

  on_request-Allowed :
      (s : Loop Body) (c : Connection Body) (h : MsgHandler)
      → (c.conn_authorized ≡ true) ⊎ (open_handler h ≡ true)
      → All Allowed s.events
      → All Allowed (next_loop (on_request run s c (some h))).events
  unfolding on_request
  on_request-Allowed s c h g a = elim (Option-cases h.mh_func) [
    | inl n ↦ rw n (respond-Allowed s c _ a)
    | inr (f, n) ↦
        rw n (call-Allowed s c f (elim g [ inl k ↦ inl k | inr k ↦ inr (ground (arith, k, n)) ]) a)
  ]

  on_received-Allowed :
      (reply_expected : Bool) (s : Loop Body) (c : Connection Body) (h : MsgHandler)
      → c.conn_msginfo.mi_handler ≡ some h
      → (is_request c.conn_msginfo.mi_hdr.message_type ≡ true
          → (c.conn_authorized ≡ true) ⊎ (open_handler h ≡ true))
      → All Allowed s.events
      → All Allowed (next_loop (on_received run reply_expected s c)).events
  unfolding on_received on_reply
  on_received-Allowed reply_expected s c h e g a =
      elim (Bool-cases (is_request c.conn_msginfo.mi_hdr.message_type)) [
        | inl r ↦ simp (r, e) (on_request-Allowed s c h (g r) a)
        | inr r ↦ elim (Bool-cases (not reply_expected || s.reply_read)) [
          | inl k ↦ rw (r, k) a
          | inr k ↦ rw (r, k) a
        ]
      ]

  -- after `ndmp_recv_msg` of a clean message for which the table has a handler
  found-Allowed :
      (reply_expected : Bool) (s : Loop Body) (c : Connection Body) (hdr : Header) (h : MsgHandler)
      (memory : Bool) (body : Body ⊎ Bool)
      → ndmp_get_handler c.conn_version hdr.message ≡ found h
      → hdr.error ≡ no_err
      → All Allowed s.events
      → let (c', r) = recv_body c hdr h memory body in
        All Allowed (next_loop (on_message run reply_expected s c' r)).events
  unfolding on_message
  found-Allowed reply_expected s c hdr h memory body q clean a =
      go (recv_body c hdr h memory body).1 refl
    where
      c' : Connection Body
      c' = (recv_body c hdr h memory body).0

      guard :
          (recv_body c hdr h memory body).1 ≡ received
          → is_request c'.conn_msginfo.mi_hdr.message_type ≡ true
          → (c'.conn_authorized ≡ true) ⊎ (open_handler h ≡ true)
      guard e r =
          elim (recv_body-authorized c hdr h memory body clean
            (ground (arith, r, recv_body-info c hdr h memory body)) e) [
              | inl k ↦ inl (ground (arith, k, recv_body-info c hdr h memory body))
              | inr k ↦ inr (handler_open c.conn_version hdr.message {h = h} q k)
            ]

      go :
          (r : Received)
          → (recv_body c hdr h memory body).1 ≡ r
          → All Allowed (next_loop (on_message run reply_expected s c' r)).events
      go received e =
          on_received-Allowed reply_expected s c' h (recv_body-info c hdr h memory body).1 (guard e)
            a
      go (refused x) e = on_refused-Allowed s c' x a
      go undecoded e = on_undecoded-Allowed s c' a
      go fault e = a

  message-Allowed :
      (reply_expected : Bool) (s : Loop Body) (c : Connection Body) (hdr : Header) (memory : Bool)
      (body : Body ⊎ Bool) (o : Found MsgHandler)
      → ndmp_get_handler c.conn_version hdr.message ≡ o
      → hdr.error ≡ no_err
      → All Allowed s.events
      → let (c', r) = recv_message c hdr memory body o in
        All Allowed (next_loop (on_message run reply_expected s c' r)).events
  unfolding recv_message on_message
  message-Allowed reply_expected s c hdr memory body (found h) q clean a =
      found-Allowed reply_expected s c hdr h memory body q clean a
  message-Allowed reply_expected s c hdr memory body missing q clean a =
      on_refused-Allowed s ((recv_message c hdr memory body missing).0) not_supported_err a
  message-Allowed reply_expected s c hdr memory body outside q clean a = a

  step-Allowed :
      (reply_expected : Bool) (s : Loop Body) (m : Incoming Body)
      → IsClean m
      → All Allowed s.events
      → All Allowed (next_loop (step run reply_expected s m)).events
  unfolding step ndmp_recv_msg on_message
  step-Allowed reply_expected s (no_header lost) clean a = on_undecoded-Allowed s _ a
  step-Allowed reply_expected s (message hdr memory body) clean a =
      message-Allowed reply_expected s (record s.conn { conn_msginfo = no_message }) hdr memory body
        (ndmp_get_handler s.conn.conn_version hdr.message) refl clean a

  after_loop-events : (s : Loop Body) → (after_loop run s).1.events ≡ s.events
  unfolding after_loop
  after_loop-events s = ground arith

  process_loop-Allowed :
      (reply_expected : Bool) (s : Loop Body) (ms : List (Incoming Body))
      → All IsClean ms
      → All Allowed s.events
      → All Allowed (process_loop run reply_expected s ms).1.events
  process_loop-Allowed reply_expected s [] clean a =
      rw (process_loop-nil run reply_expected s, after_loop-events s) a
  process_loop-Allowed reply_expected s (m ∷ ms) clean a =
      let here = step-Allowed reply_expected s m clean.0 a in
      go here (process_loop-cons run reply_expected s m ms)
        (λ t. process_loop-Allowed reply_expected t ms clean.1)
    where
      go :
          All Allowed (next_loop (step run reply_expected s m)).events
          → Round run reply_expected s m ms
          → ((t : Loop Body)
              → All Allowed t.events
              → All Allowed (process_loop run reply_expected t ms).1.events)
          → All Allowed (process_loop run reply_expected s (m ∷ ms)).1.events
      go here (stopped r t e p) rest = rw p (rw e at here)
      go here (closed t e p) rest = rw (p, after_loop-events t) (rw e at here)
      go here (more t e p) rest = rw p (rest t (rw e at here))

  -- As long as no message carries an error code in its header, every handler that is called is one
  -- of the five open ones or is called when the connection is authorized, whatever the handlers
  -- themselves do to the connection.
  pub unauthorized_calls :
      (c : Connection Body) (reply_expected : Bool) (m : Incoming Body) (ms : List (Incoming Body))
      → IsClean m
      → All IsClean ms
      → All Allowed (ndmp_process_messages run c reply_expected m ms).1.events
  unfolding ndmp_process_messages
  unauthorized_calls c reply_expected m ms clean rest =
      process_loop-Allowed reply_expected (loop_start run c) (m ∷ ms) (clean, rest) tt

  -- A request with an error code in its header skips the authorization: its handler is called, with
  -- no body, also when the message needs an authenticated client and the connection is not authorized.
  pub error_code_bypass :
      (reply_expected : Bool) (s : Loop Body) (hdr : Header) (h : MsgHandler) (f : HandlerFunc)
      (memory : Bool) (body : Body ⊎ Bool)
      → is_request hdr.message_type ≡ true
      → is_no_err hdr.error ≡ false
      → ndmp_get_handler s.conn.conn_version hdr.message ≡ found h
      → h.mh_func ≡ some f
      → (next_loop (step run reply_expected s (message hdr memory body))).events
        ≡ s.events ++ (called f s.conn.conn_authorized false ∷ [])
  unfolding step ndmp_recv_msg recv_message recv_body on_message on_received on_request call
  error_code_bypass reply_expected s hdr h f memory body req err q k = ground arith
