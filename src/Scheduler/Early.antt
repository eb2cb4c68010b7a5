-- ===== src/Scheduler/Early.antt =====
-- A worker that looks at a task between the exchange that wakes it and what follows.
use tg_chat_server.Prelude.{
  ℕ, ◌≡◌, refl, sym, ap, ◌∙◌, true, false, Option, arith, [], ◌∷◌, ◌++◌, nat_key,
}
use mathlib.Core.List.{append_assoc}
use tg_chat_server.Scheduler.{
  TaskItem, CoroutineScheduler, with_item, enqueue_ready, exchange_waiting, claim, give_value,
  give_nothing, suspend, yield_value, after_run,
}
use tg_chat_server.Scheduler.Races.{
  Has, stored-with_item, with_item-with_item, exchange_waiting_lem, give_value_lem,
  give_nothing_lem, claim_lem, suspended, suspended_lem, suspend_lem, waits-Has,
}

module _ (s : CoroutineScheduler) (id : ℕ) (t : TaskItem) (h : Has s id t) (timeout now : ℕ) where
  -- The suspended item once an exchange has cleared its mark.
  abbrev marked : TaskItem
  marked = record (suspended t timeout now) { waiting = false }

  exchange-suspend : exchange_waiting (suspend s id timeout now) id ≡ (with_item s id marked, true)
  exchange-suspend =
      let x = suspended t timeout now in
      let w = (suspended_lem t timeout now).0 in
      ap (λ r. exchange_waiting r id) (suspend_lem s id t timeout now h.stored)
      ∙ exchange_waiting_lem (with_item s id x) id x x (stored-with_item s id x)
      ∙ rw w (ap (λ r. (r, true)) (with_item-with_item s id x marked))

  claim-suspend : claim (suspend s id timeout now) id ≡ (with_item s id marked, true)
  claim-suspend =
      ap (λ r. claim r id) (suspend_lem s id t timeout now h.stored)
      ∙ claim_lem _ id (suspended t timeout now) (waits-Has s id t h timeout now)
      ∙ ap (λ r. exchange_waiting r id) (sym (suspend_lem s id t timeout now h.stored))
      ∙ exchange-suspend

  looked : after_run (with_item s id marked) id false ≡ enqueue_ready (with_item s id marked) id
  looked = unfold after_run in rw (after_run, stored-with_item s id marked) refl

  value_marked : yield_value (enqueue_ready (with_item s id marked) id) id ≡ t.resume_value
  value_marked =
      let o = (suspended_lem t timeout now).1 in
      let kept : (suspended t timeout now).resume_value ≡ t.resume_value = ground arith in
      unfold yield_value enqueue_ready in rw (yield_value, stored-with_item s id marked, o) kept

  -- The scheduler once the task is in the queue.
  abbrev queued : CoroutineScheduler
  queued = record s { task_queue = s.task_queue ++ id ∷ [] }

  queue_given :
      (v : Option ℕ)
      → (enqueue_ready (give_value (enqueue_ready (with_item s id marked) id) id v) id).task_queue
        ≡ s.task_queue ++ id ∷ id ∷ []
  queue_given v =
      unfold enqueue_ready in
      ap (λ (r : CoroutineScheduler). r.task_queue ++ id ∷ []) (give_value_lem queued id t marked v)
      ∙ append_assoc s.task_queue (id ∷ []) (id ∷ [])

  queue_nothing :
      (enqueue_ready (give_nothing (enqueue_ready (with_item s id marked) id) id) id).task_queue
      ≡ s.task_queue ++ id ∷ id ∷ []
  queue_nothing =
      unfold enqueue_ready in
      ap (λ (r : CoroutineScheduler). r.task_queue ++ id ∷ []) (give_nothing_lem queued id t marked)
      ∙ append_assoc s.task_queue (id ∷ []) (id ∷ [])

  -- For a task in the table that has not completed, and any value: after its suspension the exchange
  -- of `resume` succeeds. If the worker that ran the task looks at it then, before the value is stored,
  -- it puts the task in its queue, and a task that runs on at once gets from its `yield` what the
  -- wake-up before had left; once the value is stored and the task queued, it is in the queue twice.
  -- The same holds of the timeout thread's exchange, after which the task is not told of the timeout.
  pub wakes_early :
      (v : Option ℕ)
      → let w = suspend s id timeout now in
        let a = claim w id in
        let b = exchange_waiting w id in
        let after_a = after_run a.0 id false in
        let after_b = after_run b.0 id false in
        (a.1 ≡ true)
        × (after_a.task_queue ≡ s.task_queue ++ id ∷ [])
        × (yield_value after_a id ≡ t.resume_value)
        × ((enqueue_ready (give_value after_a id v) id).task_queue ≡ s.task_queue ++ id ∷ id ∷ [])
        × (b.1 ≡ true)
        × (after_b.task_queue ≡ s.task_queue ++ id ∷ [])
        × (yield_value after_b id ≡ t.resume_value)
        × ((enqueue_ready (give_nothing after_b id) id).task_queue ≡ s.task_queue ++ id ∷ id ∷ [])
  wakes_early v =
      let p = enqueue_ready (with_item s id marked) id in
      let once : p.task_queue ≡ s.task_queue ++ id ∷ [] = unfold enqueue_ready in refl in
      rw (claim-suspend, exchange-suspend, looked)
        (refl, once, value_marked, queue_given v, refl, once, value_marked, queue_nothing)
