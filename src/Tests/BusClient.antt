-- ===== src/Tests/BusClient.antt =====
-- Requests and replies at concrete inputs.
use tg_chat_server.Prelude.{
  ℕ, ◌≡◌, ◌≢◌, refl, arith, Bool, true, false, none, some, [], ◌∷◌, nat_beq, nat_key, find, insert,
}
use tg_chat_server.Scheduler.{CoroutineScheduler, new_item, time_out}
use tg_chat_server.Scheduler.Races.{Has}
use tg_chat_server.Packs.{MsgType}
use tg_chat_server.BusClient.{
  AppMsg, BusClient, handlers_of, regist_message, run_handlers, on_msg, handle, request_send,
  request_wait, request_result, reply_msg, reply,
}
use tg_chat_server.BusClient.Calls.{request_msg, requested, request_result-reply, early_reply_lost}

-- Memory that was used before.
abbrev old_memory : AppMsg
old_memory = record { msg_type = MsgType.c2s; msg_id = 9; co_id = 9; src_name = "Old"; body = 9 }

abbrev scheduler : CoroutineScheduler
scheduler = record { items = (4, new_item) ∷ []; task_queue = []; id_gen = 5 }

abbrev client : BusClient
client = record {
  ready = true;
  msg_dispatcher = (2, 10 ∷ 11 ∷ []) ∷ [];
  ss_msg_dispatcher = [];
  co_scheduler = scheduler;
  sent = [];
}

abbrev quiet : ℕ → Bool
quiet handler = false

running : Has scheduler 4 new_item
unfolding find
running = record { stored = refl; listed = refl; live = refl }

four : ◌≢◌ {A = ℕ} 4 0
four e = absurd (omega (arith, e))

abbrev question : AppMsg
question = request_msg quiet client "Logic" 1 50 4 100 old_memory new_item refl running four

abbrev answer : AppMsg
answer = record { msg_type = MsgType.s2s_rsp; msg_id = 2; co_id = 4; src_name = "Old"; body = 60 }

request_result-reply_example :
    let q = request_send client "Logic" 1 50 4 old_memory true in
    let rsp = reply_msg question 2 60 old_memory in
    (q ≡ (requested quiet client "Logic" 1 50 4 100 old_memory new_item refl running four, true))
    × ((reply client question 2 60 old_memory true).0.sent ≡ ("Old", rsp) ∷ [])
    × (request_result (handle quiet (request_wait q.0 4 100) rsp).0 4 ≡ some 60)
request_result-reply_example =
    request_result-reply quiet client "Logic" 1 50 4 100 old_memory new_item refl running four
      client 2 60 old_memory refl

early_reply_lost_example :
    let q = request_send client "Logic" 1 50 4 old_memory true in
    let early = (handle quiet q.0 (reply_msg question 2 60 old_memory)).0 in
    let waited = request_wait early 4 100 in
    (early.co_scheduler ≡ scheduler)
    × (request_result (record waited { co_scheduler = time_out waited.co_scheduler 4 }) 4 ≡ none)
early_reply_lost_example =
    early_reply_lost quiet client "Logic" 1 50 4 100 old_memory new_item refl running four 2 60
      old_memory refl

-- The second of two handlers is not run after the first has thrown.
handlers_run :
    (on_msg (λ h. nat_beq h 10) client.msg_dispatcher (record old_memory { msg_id = 2 })
      ≡ (10 ∷ [], false))
    × (on_msg quiet (regist_message client.msg_dispatcher 2 12) (record old_memory { msg_id = 2 })
        ≡ (10 ∷ 11 ∷ 12 ∷ [], true))
unfolding on_msg handlers_of run_handlers regist_message find insert
handlers_run = (refl, refl)
