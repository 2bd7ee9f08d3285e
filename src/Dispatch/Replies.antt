-- ===== src/Dispatch/Replies.antt =====
-- src/ndmpd_func.c, `ndmp_process_messages`: what its result says about a reply.
use ndmpd.Common.{
  ◌≡◌, ◌≢◌, ◌⊎◌, refl, ap, subst, All, Bool, true, false, List, [], ◌∷◌, inl, inr, ◌||◌, not,
  Option, none, some, arith, Bool-cases, Option-cases,
}
use ndmpd.Protocol.{is_request}
use ndmpd.HandlerTable.{HandlerFunc, MsgHandler}
use ndmpd.Dispatch.{
  MsgInfo, Incoming, Connection, Loop, Next, goes_on, returns, Received, received, refused,
  undecoded, fault, ndmp_recv_msg, step, process_loop, after_loop, loop_start,
  ndmp_process_messages, no_message, ProcResult, proc_msg, on_message, on_received, on_request,
  on_reply, on_refused, on_undecoded, respond, call,
}
use ndmpd.Dispatch.Rounds.{Round, stopped, closed, more, process_loop-cons, process_loop-nil}

-- What `ndmp_recv_msg` gives for a message that is received, with its header, handler and body, and
-- which is not a request
pub record IsReceived {Body : Type 0} (m : Incoming Body) (info : MsgInfo Body) : Type 0 where
  pub before : Connection Body
  pub after : Connection Body
  pub receives : ndmp_recv_msg (record before { conn_msginfo = no_message }) m ≡ (after, received)
  pub is_kept : after.conn_msginfo ≡ info
  pub is_reply : is_request info.mi_hdr.message_type ≡ false

-- a reply that is one of the messages
abbrev pub Among : {Body : Type 0} → MsgInfo Body → List (Incoming Body) → Type 0
Among info [] = ⊥
Among info (m ∷ ms) = IsReceived m info ⊎ Among info ms

-- A reply that is kept as read and without error was expected, and is one of the replies.
abbrev pub KeepsReply : {Body : Type 0} → (MsgInfo Body → Type 0) → Bool → Loop Body → Type 0
KeepsReply P reply_expected s =
    s.reply_read ≡ true → s.reply_error ≡ false → (reply_expected ≡ true) × P s.reply_msginfo

-- the same of a round, which may also end the loop, though not with a reply
abbrev RoundKeeps : {Body : Type 0} → (MsgInfo Body → Type 0) → Bool → Next Body → Type 0
RoundKeeps P reply_expected (goes_on t) = KeepsReply P reply_expected t
RoundKeeps P reply_expected (returns r t) = r ≢ proc_msg

-- the result `proc_msg` comes with an expected reply, which is the connection's message
abbrev pub GivesReply :
    {Body : Type 0} → (MsgInfo Body → Type 0) → Bool → ProcResult × Loop Body → Type 0
GivesReply P reply_expected (r, t) =
    r ≡ proc_msg → (reply_expected ≡ true) × P t.conn.conn_msginfo × (t.conn.conn_eof ≡ false)

-- a reply in each message is a reply in the list
replies_in :
    {Body : Type 0} (ms : List (Incoming Body)) (P : MsgInfo Body → Type 0)
    → ((info : MsgInfo Body) → Among info ms → P info)
    → All (λ m. (info : MsgInfo Body) → IsReceived m info → P info) ms
replies_in [] P h = tt
replies_in (m ∷ ms) P h = (λ info r. h info (inl r), replies_in ms P (λ info a. h info (inr a)))

module _ {Body : Type 0} (run : HandlerFunc → Connection Body → Connection Body)
    (P : MsgInfo Body → Type 0) where
  on_request-keeps :
      (b : Bool) (s : Loop Body) (c : Connection Body) (h : Option MsgHandler)
      → KeepsReply P b s
      → RoundKeeps P b (on_request run s c h)
  unfolding on_request respond call
  on_request-keeps b s c none k = k
  on_request-keeps b s c (some h) k = elim (Option-cases h.mh_func) [
    | inl n ↦ rw n k
    | inr (f, n) ↦ rw n k
  ]

  on_received-keeps :
      (b : Bool) (s : Loop Body) (c : Connection Body)
      → (is_request c.conn_msginfo.mi_hdr.message_type ≡ false → P c.conn_msginfo)
      → KeepsReply P b s
      → RoundKeeps P b (on_received run b s c)
  unfolding on_received on_reply
  on_received-keeps b s c here k =
      elim (Bool-cases (is_request c.conn_msginfo.mi_hdr.message_type)) [
        | inl r ↦ rw r (on_request-keeps b s c c.conn_msginfo.mi_handler k)
        | inr r ↦ elim (Bool-cases (not b || s.reply_read)) [
          | inl e ↦ rw (r, e) k
          | inr e ↦ rw (r, e) (λ p q. (ground arith, here r))
        ]
      ]

  on_message-keeps :
      (b : Bool) (s : Loop Body) (c : Connection Body) (r : Received)
      → (r ≡ received → is_request c.conn_msginfo.mi_hdr.message_type ≡ false → P c.conn_msginfo)
      → KeepsReply P b s
      → RoundKeeps P b (on_message run b s c r)
  unfolding on_message on_refused on_undecoded respond
  on_message-keeps b s c received here k = on_received-keeps b s c (here refl) k
  on_message-keeps b s c (refused e) here k = elim (Bool-cases c.conn_eof) [
    | inl q ↦ rw q (λ e. cc)
    | inr q ↦ elim (Bool-cases (is_request c.conn_msginfo.mi_hdr.message_type)) [
      | inl r ↦ rw (q, r) k
      | inr r ↦ rw (q, r) (ground arith)
    ]
  ]
  on_message-keeps b s c undecoded here k = elim (Bool-cases c.conn_eof) [
    | inl q ↦ rw q (λ e. cc)
    | inr q ↦ rw q (ground arith)
  ]
  on_message-keeps b s c fault here k = λ e. cc

  step-keeps :
      (b : Bool) (s : Loop Body) (m : Incoming Body)
      → ((info : MsgInfo Body) → IsReceived m info → P info)
      → KeepsReply P b s
      → RoundKeeps P b (step run b s m)
  unfolding step
  step-keeps b s m each k =
      let (c, r) = ndmp_recv_msg (record s.conn { conn_msginfo = no_message }) m in
      on_message-keeps b s c r
        (λ e q. each c.conn_msginfo (record {
          before = s.conn;
          after = c;
          receives = ap (λ (x : Received). (c, x)) e;
          is_kept = refl;
          is_reply = q;
        }))
        k

  after_loop-gives :
      (b : Bool) (s : Loop Body) → KeepsReply P b s → GivesReply P b (after_loop run s)
  unfolding after_loop
  after_loop-gives b s k = ground arith

  process_loop-gives :
      (b : Bool) (s : Loop Body) (ms : List (Incoming Body))
      → All (λ m. (info : MsgInfo Body) → IsReceived m info → P info) ms
      → KeepsReply P b s
      → GivesReply P b (process_loop run b s ms)
  process_loop-gives b s [] each k = rw (process_loop-nil run b s) (after_loop-gives b s k)
  process_loop-gives b s (m ∷ ms) (one, each) k =
      go (step-keeps b s m one k) (process_loop-cons run b s m ms)
        (λ t. process_loop-gives b t ms each)
    where
      go :
          RoundKeeps P b (step run b s m)
          → Round run b s m ms
          → ((t : Loop Body) → KeepsReply P b t → GivesReply P b (process_loop run b t ms))
          → GivesReply P b (process_loop run b s (m ∷ ms))
      go here (stopped r t e p) rest = rw p (λ q. absurd ((rw e at here) q))
      go here (closed t e p) rest = rw p (after_loop-gives b t (rw e at here))
      go here (more t e p) rest = rw p (rest t (rw e at here))

module _ {Body : Type 0} (run : HandlerFunc → Connection Body → Connection Body) where
  -- When `ndmp_process_messages` says that a reply was received, one was expected, the connection is
  -- open, and the message that it keeps is one of the messages as `ndmp_recv_msg` received it, with its
  -- header, handler and body, and is no request, whatever messages came and whatever the handlers did.
  pub process-reply :
      (c : Connection Body) (reply_expected : Bool) (m : Incoming Body) (ms : List (Incoming Body))
      {t : Loop Body}
      → ndmp_process_messages run c reply_expected m ms ≡ (proc_msg, t)
      → (reply_expected ≡ true) × Among t.conn.conn_msginfo (m ∷ ms) × (t.conn.conn_eof ≡ false)
  unfolding ndmp_process_messages
  process-reply c reply_expected m ms {t} e =
      let P : MsgInfo Body → Type 0 = λ info. Among info (m ∷ ms) in
      let all : GivesReply P reply_expected
          (process_loop run reply_expected (loop_start run c) (m ∷ ms)) =
        process_loop-gives run P reply_expected (loop_start run c) (m ∷ ms)
          (replies_in (m ∷ ms) P (λ info a. a)) (λ p q. absurd (cc)) in
      subst (λ (r : ProcResult × Loop Body). GivesReply P reply_expected r) e all refl
