-- ===== src/BusClient.antt =====
-- server/core/bus/IBus.cpp and server/common/MsgDispatcher.h: a service's requests, replies and
-- handlers, over the scheduler of the coroutines. A handler is its number, a message's body too.
pub mod Calls
use tg_chat_server.Prelude.{
  ℕ, Bool, true, false, Option, none, some, List, [], ◌∷◌, ◌++◌, String, nat_beq, nat_key, find,
  insert, erase, if◌then◌else◌,
}
use tg_chat_server.Scheduler.{CoroutineScheduler, suspend, resume, yield_value}
use tg_chat_server.Packs.{MsgType}

pub record AppMsg : Type 0 where
  pub msg_type : MsgType
  pub msg_id : ℕ
  pub co_id : ℕ
  pub src_name : String
  pub body : ℕ

-- `handlers_`, in the order of registration.
abbrev pub Handlers : Type 0
Handlers = List (ℕ × List ℕ)

unfoldable pub handlers_of : Handlers → ℕ → List ℕ
handlers_of h msg_id = elim (find msg_id h) [ none ↦ [] | some hs ↦ hs ]

unfoldable pub regist_message : Handlers → ℕ → ℕ → Handlers
unfolding handlers_of
regist_message h msg_id handler = insert msg_id (handlers_of h msg_id ++ handler ∷ []) h

unfoldable pub unregist_message : Handlers → ℕ → Handlers
unregist_message h msg_id = erase msg_id h

-- The handlers that run, up to the first that throws, and whether none did.
unfoldable pub run_handlers : (throws : ℕ → Bool) → List ℕ → List ℕ × Bool
run_handlers throws [] = ([], true)
run_handlers throws (handler ∷ rest) =
    let later = run_handlers throws rest in
    if throws handler then (handler ∷ [], false) else (handler ∷ later.0, later.1)

unfoldable pub on_msg : (throws : ℕ → Bool) → Handlers → AppMsg → List ℕ × Bool
unfolding handlers_of run_handlers
on_msg throws h msg = run_handlers throws (handlers_of h msg.msg_id)

-- `sent` is where each message was sent, the last one first.
pub record BusClient : Type 0 where
  pub ready : Bool
  pub msg_dispatcher : Handlers
  pub ss_msg_dispatcher : Handlers
  pub co_scheduler : CoroutineScheduler
  pub sent : List (String × AppMsg)

-- What `handle` gives besides the state: the handlers that ran.
unfoldable pub handle : (throws : ℕ → Bool) → BusClient → AppMsg → BusClient × List ℕ
unfolding on_msg
handle throws b msg = elim msg.msg_type [
  | MsgType.c2s ↦ (b, (on_msg throws b.msg_dispatcher msg).0)
  | MsgType.s2c ↦ (b, (on_msg throws b.msg_dispatcher msg).0)
  | MsgType.s2s_req ↦ (b, (on_msg throws b.ss_msg_dispatcher msg).0)
  | MsgType.s2s_rsp ↦
      if nat_beq msg.co_id 0
      then (b, [])
      else (record b { co_scheduler = (resume b.co_scheduler msg.co_id (some msg.body)).0 }, [])
]

-- `SendToNode`; `routes` is whether the network took the message.
unfoldable pub send_to_node : BusClient → String → AppMsg → (routes : Bool) → BusClient × Bool
send_to_node b service_name msg routes =
    if b.ready
    then if routes then (record b { sent = (service_name, msg) ∷ b.sent }, true) else (b, false)
    else (b, false)

-- `Request` up to its `yield`, of the coroutine `cur`; `memory` is what the message's memory held,
-- which keeps its source, since nothing sets it.
unfoldable pub request_send :
    BusClient
    → String
    → (msg_id body cur : ℕ) → (memory : AppMsg) → (routes : Bool) → BusClient × Bool
unfolding send_to_node
request_send b service_name msg_id body cur memory routes =
    if b.ready
    then send_to_node b service_name
        (record memory { msg_type = MsgType.s2s_req; msg_id = msg_id; co_id = cur; body = body })
        routes
    else (b, false)

-- The `yield`, with its 3000 milliseconds, and what `Request` returns after it; none is an exception.
unfoldable pub request_wait : BusClient → (cur now : ℕ) → BusClient
request_wait b cur now = record b { co_scheduler = suspend b.co_scheduler cur 3000 now }

unfoldable pub request_result : BusClient → (cur : ℕ) → Option ℕ
request_result b cur = yield_value b.co_scheduler cur

unfoldable pub reply_msg : AppMsg → (msg_id body : ℕ) → (memory : AppMsg) → AppMsg
reply_msg req msg_id body memory = record memory {
  msg_type = MsgType.s2s_rsp;
  msg_id = msg_id;
  co_id = if nat_beq req.co_id 0 then memory.co_id else req.co_id;
  body = body;
}

-- `Reply`
unfoldable pub reply :
    BusClient → AppMsg → (msg_id body : ℕ) → (memory : AppMsg) → (routes : Bool) → BusClient × Bool
unfolding send_to_node reply_msg
reply b req msg_id body memory routes =
    if b.ready
    then send_to_node b req.src_name (reply_msg req msg_id body memory) routes
    else (b, false)
