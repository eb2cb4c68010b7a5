-- ===== src/Scheduler/Races.antt =====
-- Which of two threads that wake a task wins, and how often the task is queued.
use tg_chat_server.Prelude.{
  ℕ, ◌+◌, ◌≡◌, inl, inr, List, Bool-cases, refl, sym, ap, ◌∙◌, arith, true, false, Option, none,
  some, [], ◌∷◌, ◌++◌, nat_beq, if◌then◌else◌, nat_key, find, insert, same_refl, find-insert,
}
use mathlib.Core.List.{append_assoc}
use tg_chat_server.Scheduler.{
  TaskItem, CoroutineScheduler, with_item, enqueue_ready, find_task, exchange_waiting, claim,
  give_value, give_nothing, set_waiting, set_timeout, clear_timed_out, suspend, yield_value, resume,
  time_out, after_run,
}

-- A task that is in the table, has not completed, and whose item this is.
pub record Has (s : CoroutineScheduler) (id : ℕ) (t : TaskItem) : Type 0 where
  pub stored : find id s.items ≡ some t
  pub listed : t.listed ≡ true
  pub live : t.completed ≡ false

pub stored-with_item :
    (s : CoroutineScheduler) (id : ℕ) (t : TaskItem) → find id (insert id t s.items) ≡ some t
stored-with_item s id t = find-insert id id t s.items ∙ rw (same_refl id) refl

insert-insert :
    (id : ℕ) (x y : TaskItem) (m : List (ℕ × TaskItem))
    → insert id y (insert id x m) ≡ insert id y m
unfolding insert
insert-insert id x y [] = rw (same_refl id) refl
insert-insert id x y ((j, w) ∷ rest) = ground (arith, same_refl id, insert-insert id x y rest)

-- The last of two stores of an item is what stays.
pub with_item-with_item :
    (s : CoroutineScheduler) (id : ℕ) (x y : TaskItem)
    → with_item (with_item s id x) id y ≡ with_item s id y
with_item-with_item s id x y = ap (λ m. record s { items = m }) (insert-insert id x y s.items)

module _ (s : CoroutineScheduler) (id : ℕ) (t x : TaskItem) where
  pub exchange_waiting_lem :
      find id s.items ≡ some t
      → exchange_waiting s id
        ≡ (if t.waiting then (with_item s id (record t { waiting = false }), true) else (s, false))
  exchange_waiting_lem e = unfold exchange_waiting in rw (exchange_waiting, e) refl

  pub give_value_lem :
      (v : Option ℕ)
      → give_value (with_item s id x) id v
        ≡ with_item s id (record x { resume_value = v; timeout_enabled = false })
  give_value_lem v =
      unfold give_value in rw (give_value, stored-with_item s id x) (with_item-with_item s id x _)

  pub give_nothing_lem :
      give_nothing (with_item s id x) id
      ≡ with_item s id (record x { timed_out = true; timeout_enabled = false; resume_value = none })
  give_nothing_lem =
      unfold give_nothing in
      rw (give_nothing, stored-with_item s id x) (with_item-with_item s id x _)

pub claim_lem :
    (s : CoroutineScheduler) (id : ℕ) (t : TaskItem)
    → Has s id t
    → claim s id ≡ exchange_waiting s id
claim_lem s id t h =
    unfold claim find_task in rw (claim, find_task, h.stored, h.listed, h.live) refl

pub resume_lem :
    (s : CoroutineScheduler) (id : ℕ) (t : TaskItem) (v : Option ℕ)
    → Has s id t
    → resume s id v ≡ (
        if t.waiting
        then (
          enqueue_ready
              (with_item s id
                (record t { waiting = false; resume_value = v; timeout_enabled = false }))
              id,
          true,
        )
        else (s, false))
resume_lem s id t v h =
    let q = claim_lem s id t h ∙ exchange_waiting_lem s id t t h.stored in
    elim (Bool-cases t.waiting) [
      | inr w ↦ unfold resume in rw (resume, q, w) refl
      | inl w ↦
          unfold resume in
          rw (resume, q, w)
            (ap (λ r. (enqueue_ready r id, true))
              (give_value_lem s id t (record t { waiting = false }) v))
    ]

pub time_out_lem :
    (s : CoroutineScheduler) (id : ℕ) (t : TaskItem)
    → find id s.items ≡ some t
    → time_out s id ≡ (
        if t.waiting
        then enqueue_ready
            (with_item s id (record t {
              waiting = false;
              timed_out = true;
              timeout_enabled = false;
              resume_value = none;
            }))
            id
        else s)
time_out_lem s id t h =
    let q = exchange_waiting_lem s id t t h in
    elim (Bool-cases t.waiting) [
      | inr w ↦ unfold time_out in rw (time_out, q, w) refl
      | inl w ↦
          unfold time_out in
          rw (time_out, q, w)
            (ap (λ r. enqueue_ready r id) (give_nothing_lem s id t (record t { waiting = false })))
    ]

-- The item of a task that is suspended.
abbrev pub suspended : TaskItem → (timeout now : ℕ) → TaskItem
suspended t timeout now =
    if nat_beq timeout 0
    then record t { waiting = true; timeout_enabled = false; timed_out = false }
    else record t {
      waiting = true;
      timeout_point = now + timeout;
      timeout_enabled = true;
      timed_out = false;
    }

pub suspend_lem :
    (s : CoroutineScheduler) (id : ℕ) (t : TaskItem) (timeout now : ℕ)
    → find id s.items ≡ some t
    → suspend s id timeout now ≡ with_item s id (suspended t timeout now)
suspend_lem s id t timeout now h =
    let a = record t { waiting = true } in
    let b =
      if nat_beq timeout 0
      then record a { timeout_enabled = false }
      else record a { timeout_point = now + timeout; timeout_enabled = true } in
    let one : set_waiting s id ≡ with_item s id a =
      unfold set_waiting in rw (set_waiting, h) refl in
    let two : set_timeout (with_item s id a) id timeout now ≡ with_item s id b =
      unfold set_timeout in
      rw (set_timeout, stored-with_item s id a) (with_item-with_item s id a b) in
    let three : clear_timed_out (with_item s id b) id
        ≡ with_item s id (record b { timed_out = false }) =
      unfold clear_timed_out in
      rw (clear_timed_out, stored-with_item s id b) (with_item-with_item s id b _) in
    unfold suspend in
    ap (λ r. clear_timed_out (set_timeout r id timeout now) id) one
    ∙ ap (λ r. clear_timed_out r id) two
    ∙ three
    ∙ ap (with_item s id) (ground arith)

pub suspended_lem :
    (t : TaskItem) (timeout now : ℕ)
    → let x = suspended t timeout now in
      (x.waiting ≡ true)
      × (x.timed_out ≡ false)
      × (x.listed ≡ t.listed)
      × (x.completed ≡ t.completed)
suspended_lem t timeout now = ground arith

-- The state after `resume` woke a task, and after the timeout thread did.
abbrev woken : CoroutineScheduler → ℕ → TaskItem → Option ℕ → CoroutineScheduler
woken s id t v =
    enqueue_ready
      (with_item s id (record t { waiting = false; resume_value = v; timeout_enabled = false })) id

abbrev timed : CoroutineScheduler → ℕ → TaskItem → CoroutineScheduler
timed s id t =
    enqueue_ready
      (with_item s id (record t {
        waiting = false;
        timed_out = true;
        timeout_enabled = false;
        resume_value = none;
      }))
      id

module _ (s : CoroutineScheduler) (id : ℕ) (t : TaskItem) (h : Has s id t) (timeout now : ℕ) where
  pub waits-Has : Has (with_item s id (suspended t timeout now)) id (suspended t timeout now)
  waits-Has =
      let (w, o, l, c) = suspended_lem t timeout now in
      record {
        stored = stored-with_item s id (suspended t timeout now);
        listed = l ∙ h.listed;
        live = c ∙ h.live;
      }

  resume-suspend :
      (v : Option ℕ)
      → resume (suspend s id timeout now) id v
        ≡ (woken (with_item s id (suspended t timeout now)) id (suspended t timeout now) v, true)
  resume-suspend v =
      let x = suspended t timeout now in
      let (w, o, l, c) = suspended_lem t timeout now in
      ap (λ r. resume r id v) (suspend_lem s id t timeout now h.stored)
      ∙ resume_lem (with_item s id x) id x v waits-Has
      ∙ ap (λ b. if b then (woken (with_item s id x) id x v, true) else (with_item s id x, false)) w

  time_out-suspend :
      time_out (suspend s id timeout now) id
      ≡ timed (with_item s id (suspended t timeout now)) id (suspended t timeout now)
  time_out-suspend =
      let x = suspended t timeout now in
      let (w, o, l, c) = suspended_lem t timeout now in
      ap (λ r. time_out r id) (suspend_lem s id t timeout now h.stored)
      ∙ time_out_lem (with_item s id x) id x waits-Has.stored
      ∙ ap (λ b. if b then timed (with_item s id x) id x else with_item s id x) w

  -- For a task in the table that has not completed, where `resume` with a value and the wake-up by the
  -- timeout thread each run without a step of another thread in between: whichever comes first after
  -- the suspension wakes the task and queues it once, and the other does nothing. The task gets the
  -- value in the one case and nothing in the other.
  pub wakes_once :
      (v : Option ℕ)
      → let w = suspend s id timeout now in
        let a = resume w id v in
        let b = time_out w id in
        (a.1 ≡ true)
        × (time_out a.0 id ≡ a.0)
        × (yield_value a.0 id ≡ v)
        × (a.0.task_queue ≡ s.task_queue ++ id ∷ [])
        × (resume b id v ≡ (b, false))
        × (yield_value b id ≡ none)
        × (b.task_queue ≡ s.task_queue ++ id ∷ [])
  wakes_once v =
      let x = suspended t timeout now in
      let p = with_item s id x in
      let (w, o, l, c) = suspended_lem t timeout now in
      let xa = record x { waiting = false; resume_value = v; timeout_enabled = false } in
      let xb = record x {
        waiting = false;
        timed_out = true;
        timeout_enabled = false;
        resume_value = none;
      } in
      let sa : find id (woken p id x v).items ≡ some xa =
        unfold enqueue_ready in stored-with_item p id xa in
      let sb : find id (timed p id x).items ≡ some xb =
        unfold enqueue_ready in stored-with_item p id xb in
      rw (resume-suspend v, time_out-suspend)
        (
          refl,
          time_out_lem (woken p id x v) id xa sa,
          (unfold yield_value in rw (yield_value, sa, o) refl),
          (unfold enqueue_ready in refl),
          resume_lem (timed p id x) id xb v
              (record { stored = sb; listed = l ∙ h.listed; live = c ∙ h.live }),
          (unfold yield_value in rw (yield_value, sb) refl),
          (unfold enqueue_ready in refl),
        )

  -- A worker whose coroutine was suspended queues it again if it is not waiting any more. So a task
  -- in the table that has not completed and is woken between its suspension and the worker's look is queued twice; one that is woken
  -- after the look is queued once.
  pub after_run-resume :
      (v : Option ℕ)
      → let w = suspend s id timeout now in
        ((after_run (resume w id v).0 id false).task_queue ≡ s.task_queue ++ id ∷ id ∷ [])
        × ((resume (after_run w id false) id v).0.task_queue ≡ s.task_queue ++ id ∷ [])
  after_run-resume v =
      let x = suspended t timeout now in
      let p = with_item s id x in
      let (w, o, l, c) = suspended_lem t timeout now in
      let xa = record x { waiting = false; resume_value = v; timeout_enabled = false } in
      let sa : find id (woken p id x v).items ≡ some xa =
        unfold enqueue_ready in stored-with_item p id xa in
      let looked : after_run p id false ≡ p =
        unfold after_run in rw (after_run, waits-Has.stored, w) refl in
      let idle : after_run (suspend s id timeout now) id false ≡ suspend s id timeout now =
        ap (λ r. after_run r id false) (suspend_lem s id t timeout now h.stored)
        ∙ looked
        ∙ sym (suspend_lem s id t timeout now h.stored) in
      (
        rw (resume-suspend v) (
            unfold after_run enqueue_ready in
            rw (after_run, sa) (append_assoc s.task_queue (id ∷ []) (id ∷ []))),
        rw (idle, resume-suspend v) (unfold enqueue_ready in refl),
      )
