-- ===== src/BusClient/Calls.antt =====
-- A request, its reply, and the coroutine that waits for it.
use mathlib.Core.Path.{subst}
use tg_chat_server.Prelude.{
  ℕ, ◌+◌, ◌≡◌, ◌≢◌, refl, sym, ap, ◌∙◌, arith, Bool, true, false, Option, none, some, ◌∷◌, String,
  nat_beq, nat_key, find, if◌then◌else◌,
}
use tg_chat_server.Scheduler.{
  TaskItem, CoroutineScheduler, with_item, enqueue_ready, suspend, resume, yield_value, time_out,
}
use tg_chat_server.Scheduler.Races.{
  Has, stored-with_item, resume_lem, time_out_lem, suspended, suspend_lem,
}
use tg_chat_server.Packs.{MsgType}
use tg_chat_server.BusClient.{
  AppMsg, BusClient, handle, request_send, request_wait, request_result, reply_msg, reply,
  send_to_node,
}

module _ (throws : ℕ → Bool) (b : BusClient) (cur body : ℕ) (h : cur ≢ 0) where
  handle_response :
      (rsp : AppMsg)
      → rsp.msg_type ≡ MsgType.s2s_rsp
      → rsp.co_id ≡ cur
      → (handle throws b rsp).0
        ≡ record b { co_scheduler = (resume b.co_scheduler cur (some rsp.body)).0 }
  handle_response rsp t c =
      let z : nat_beq rsp.co_id 0 ≡ false = ground arith in
      unfold handle in rw (handle, t, z, c) refl

yield_after :
    (s : CoroutineScheduler) (cur : ℕ) (x : TaskItem)
    → yield_value (enqueue_ready (with_item s cur x) cur) cur
      ≡ (if x.timed_out then none else x.resume_value)
yield_after s cur x =
    unfold yield_value enqueue_ready in rw (yield_value, stored-with_item s cur x) refl

module _ (s : CoroutineScheduler) (cur now : ℕ) (t : TaskItem) (h : Has s cur t) where
  abbrev waiting_item : TaskItem
  waiting_item = suspended t 3000 now

  suspended-Has : Has (suspend s cur 3000 now) cur waiting_item
  suspended-Has =
      let e = suspend_lem s cur t 3000 now h.stored in
      record {
        stored = ap (λ r. find cur r.items) e ∙ stored-with_item s cur waiting_item;
        listed = h.listed;
        live = h.live;
      }

  yield_value-resume :
      (v : ℕ) → yield_value (resume (suspend s cur 3000 now) cur (some v)).0 cur ≡ some v
  yield_value-resume v =
      let e = resume_lem (suspend s cur 3000 now) cur waiting_item (some v) suspended-Has in
      ap (λ q. yield_value q.0 cur) e
      ∙ yield_after (suspend s cur 3000 now) cur (record t {
        waiting = false;
        resume_value = some v;
        timeout_point = now + 3000;
        timeout_enabled = false;
        timed_out = false;
      })

  yield_value-time_out : yield_value (time_out (suspend s cur 3000 now) cur) cur ≡ none
  yield_value-time_out =
      let e = time_out_lem (suspend s cur 3000 now) cur waiting_item suspended-Has.stored in
      ap (λ q. yield_value q cur) e
      ∙ yield_after (suspend s cur 3000 now) cur (record t {
        waiting = false;
        resume_value = none;
        timeout_point = now + 3000;
        timeout_enabled = false;
        timed_out = true;
      })

  resume_idle : (v : Option ℕ) → t.waiting ≡ false → resume s cur v ≡ (s, false)
  resume_idle v w = resume_lem s cur t v h ∙ rw (w) refl

module _ (throws : ℕ → Bool) (b : BusClient) (service : String) (msg_id body cur now : ℕ)
    (memory : AppMsg) (t : TaskItem) (r : b.ready ≡ true) (h : Has b.co_scheduler cur t)
    (n : cur ≢ 0) where
  -- The message of the request, and its reply.
  abbrev pub request_msg : AppMsg
  request_msg = record memory {
    msg_type = MsgType.s2s_req;
    msg_id = msg_id;
    co_id = cur;
    body = body;
  }

  abbrev pub requested : BusClient
  requested = record b { sent = (service, request_msg) ∷ b.sent }

  request_send_lem : request_send b service msg_id body cur memory true ≡ (requested, true)
  request_send_lem = unfold request_send send_to_node in rw (request_send, r) refl

  handle_reply :
      (c : BusClient) (reply_id reply_body : ℕ) (other : AppMsg)
      → (handle throws c (reply_msg request_msg reply_id reply_body other)).0
        ≡ record c { co_scheduler = (resume c.co_scheduler cur (some reply_body)).0 }
  handle_reply c reply_id reply_body other =
      let z : nat_beq cur 0 ≡ false = ground arith in
      let i : (reply_msg request_msg reply_id reply_body other).co_id ≡ cur =
        unfold reply_msg in rw (z) refl in
      handle_response throws c cur body n (reply_msg request_msg reply_id reply_body other)
        (unfold reply_msg in refl) i
      ∙ (unfold reply_msg in refl)

  -- A ready client's request from a coroutine whose id is not 0 is sent to the service; a ready
  -- server's reply to it is sent to the name that the request's memory happened to hold; and once the
  -- coroutine has gone to sleep, the reply gives it the reply's body as the result of the request.
  pub request_result-reply :
      (server : BusClient) (reply_id reply_body : ℕ) (other : AppMsg)
      → server.ready ≡ true
      → let q = request_send b service msg_id body cur memory true in
        let rsp = reply_msg request_msg reply_id reply_body other in
        (q ≡ (requested, true))
        × ((reply server request_msg reply_id reply_body other true).0.sent
            ≡ (memory.src_name, rsp) ∷ server.sent)
        × (request_result (handle throws (request_wait q.0 cur now) rsp).0 cur ≡ some reply_body)
  request_result-reply server reply_id reply_body other sr =
      let rsp = reply_msg request_msg reply_id reply_body other in
      let sent : (reply server request_msg reply_id reply_body other true).0.sent
          ≡ (memory.src_name, rsp) ∷ server.sent =
        unfold reply send_to_node in rw (reply, sr) refl in
      let woken : request_result (handle throws (request_wait requested cur now) rsp).0 cur
          ≡ some reply_body =
        ap (λ c. request_result c cur)
          (handle_reply (request_wait requested cur now) reply_id reply_body other)
        ∙ (unfold request_result request_wait in
            yield_value-resume b.co_scheduler cur now t h reply_body) in
      (
        request_send_lem,
        sent,
        subst
            (λ q.
              request_result (handle throws (request_wait q.0 cur now) rsp).0 cur ≡ some reply_body)
            (sym request_send_lem) woken,
      )

  -- A reply that is handled before the requesting coroutine, which is not waiting yet, has gone to
  -- sleep changes nothing in the scheduler, and the coroutine is only woken by its timeout, without a
  -- result.
  pub early_reply_lost :
      (reply_id reply_body : ℕ) (other : AppMsg)
      → t.waiting ≡ false
      → let q = request_send b service msg_id body cur memory true in
        let early = (handle throws q.0 (reply_msg request_msg reply_id reply_body other)).0 in
        let waited = request_wait early cur now in
        (early.co_scheduler ≡ b.co_scheduler)
        × (request_result (record waited { co_scheduler = time_out waited.co_scheduler cur }) cur
            ≡ none)
  early_reply_lost reply_id reply_body other w =
      let rsp = reply_msg request_msg reply_id reply_body other in
      let e : (handle throws (request_send b service msg_id body cur memory true).0 rsp).0
          ≡ requested =
        ap (λ q. (handle throws q.0 rsp).0) request_send_lem
        ∙ handle_reply requested reply_id reply_body other
        ∙ ap (λ q. record requested { co_scheduler = q.0 })
            (resume_idle b.co_scheduler cur now t h (some reply_body) w) in
      let late : request_result
            (record (request_wait requested cur now) {
              co_scheduler = time_out (request_wait requested cur now).co_scheduler cur;
            })
            cur
          ≡ none =
        unfold request_result request_wait in yield_value-time_out b.co_scheduler cur now t h in
      (
        ap (λ c. c.co_scheduler) e,
        ap
              (λ c.
                request_result
                  (record (request_wait c cur now) {
                    co_scheduler = time_out (request_wait c cur now).co_scheduler cur;
                  })
                  cur)
              e
            ∙ late,
      )
