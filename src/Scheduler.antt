-- ===== src/Scheduler.antt =====
-- server/core/coroutine/CoroutineScheduler.h and CoroutineScheduler.cpp. A task is its id; its item
-- stays when it leaves the table of all tasks, as the queue may still hold it. The atomic exchange,
-- the stores and the queue of `resume`, of the timeout thread and of `yield` are functions of their
-- own, since other threads can come in between; `resume`, `time_out` and `suspend` compose them. What
-- a coroutine does, and whether it has completed, is an argument; a message is its number.
pub mod Races
pub mod Steps
pub mod Early
use tg_chat_server.Prelude.{
  ℕ, ◌+◌, Bool, true, false, not, ◌&&◌, Option, none, some, List, [], ◌∷◌, ◌++◌, leb, nat_beq,
  if◌then◌else◌, add64, nat_key, find, insert,
}

pub record TaskItem : Type 0 where
  pub listed : Bool
  pub completed : Bool
  pub waiting : Bool
  pub resume_value : Option ℕ
  pub timeout_point : ℕ
  pub timeout_enabled : Bool
  pub timed_out : Bool

abbrev pub new_item : TaskItem
new_item = record {
  listed = true;
  completed = false;
  waiting = false;
  resume_value = none;
  timeout_point = 0;
  timeout_enabled = false;
  timed_out = false;
}

pub record CoroutineScheduler : Type 0 where
  pub items : List (ℕ × TaskItem)
  pub task_queue : List ℕ
  pub id_gen : ℕ

abbrev pub with_item : CoroutineScheduler → ℕ → TaskItem → CoroutineScheduler
with_item s id t = record s { items = insert id t s.items }

unfoldable pub enqueue_ready : CoroutineScheduler → ℕ → CoroutineScheduler
enqueue_ready s id = record s { task_queue = s.task_queue ++ id ∷ [] }

unfoldable pub schedule : CoroutineScheduler → CoroutineScheduler × ℕ
unfolding enqueue_ready
schedule s =
    let id = s.id_gen in
    (enqueue_ready (record (with_item s id new_item) { id_gen = add64 id 1 }) id, id)

unfoldable pub find_task : CoroutineScheduler → ℕ → Option TaskItem
find_task s id = elim (find id s.items) [ none ↦ none | some t ↦ if t.listed then some t else none ]

-- The stores of `yield` before the task is suspended, one after another.
unfoldable pub set_waiting : CoroutineScheduler → ℕ → CoroutineScheduler
set_waiting s id = elim (find id s.items) [
  | none ↦ s
  | some t ↦ with_item s id (record t { waiting = true })
]

-- A timeout of 0 is none.
unfoldable pub set_timeout : CoroutineScheduler → ℕ → (timeout now : ℕ) → CoroutineScheduler
set_timeout s id timeout now = elim (find id s.items) [
  | none ↦ s
  | some t ↦ with_item s id (
      if nat_beq timeout 0
      then record t { timeout_enabled = false }
      else record t { timeout_point = now + timeout; timeout_enabled = true })
]

unfoldable pub clear_timed_out : CoroutineScheduler → ℕ → CoroutineScheduler
clear_timed_out s id = elim (find id s.items) [
  | none ↦ s
  | some t ↦ with_item s id (record t { timed_out = false })
]

-- `yield` of the current task up to its suspension, where no other thread comes in between.
unfoldable pub suspend : CoroutineScheduler → ℕ → (timeout now : ℕ) → CoroutineScheduler
unfolding set_waiting set_timeout clear_timed_out
suspend s id timeout now = clear_timed_out (set_timeout (set_waiting s id) id timeout now) id

-- What `yield` returns once the task runs again.
unfoldable pub yield_value : CoroutineScheduler → ℕ → Option ℕ
yield_value s id = elim (find id s.items) [
  | none ↦ none
  | some t ↦ if t.timed_out then none else t.resume_value
]

-- `waiting.compare_exchange_strong(true, false)`
unfoldable pub exchange_waiting : CoroutineScheduler → ℕ → CoroutineScheduler × Bool
exchange_waiting s id = elim (find id s.items) [
  | none ↦ (s, false)
  | some t ↦ if t.waiting then (with_item s id (record t { waiting = false }), true) else (s, false)
]

-- `resume` up to its exchange, and what it stores after one that succeeded.
unfoldable pub claim : CoroutineScheduler → ℕ → CoroutineScheduler × Bool
unfolding find_task exchange_waiting
claim s id = elim (find_task s id) [
  | none ↦ (s, false)
  | some t ↦ if t.completed then (s, false) else exchange_waiting s id
]

unfoldable pub give_value : CoroutineScheduler → ℕ → Option ℕ → CoroutineScheduler
give_value s id value = elim (find id s.items) [
  | none ↦ s
  | some t ↦ with_item s id (record t { resume_value = value; timeout_enabled = false })
]

-- `resume`, where no other thread comes in between its exchange, its stores and the queue.
unfoldable pub resume : CoroutineScheduler → ℕ → Option ℕ → CoroutineScheduler × Bool
unfolding claim give_value enqueue_ready
resume s id value =
    let q = claim s id in
    if q.1 then (enqueue_ready (give_value q.0 id value) id, true) else (q.0, false)

-- The tasks that the timeout thread collects.
unfoldable pub expired : List (ℕ × TaskItem) → ℕ → List ℕ
expired [] now = []
expired ((id, t) ∷ rest) now =
    let later = expired rest now in
    if t.listed && (t.timeout_enabled && (t.waiting && leb t.timeout_point now))
    then id ∷ later
    else later

-- What it does with one of them: an exchange, the stores after one that succeeded, and the queue.
unfoldable pub give_nothing : CoroutineScheduler → ℕ → CoroutineScheduler
give_nothing s id = elim (find id s.items) [
  | none ↦ s
  | some t ↦
      with_item s id (record t { timed_out = true; timeout_enabled = false; resume_value = none })
]

unfoldable pub time_out : CoroutineScheduler → ℕ → CoroutineScheduler
unfolding exchange_waiting give_nothing enqueue_ready
time_out s id =
    let q = exchange_waiting s id in if q.1 then enqueue_ready (give_nothing q.0 id) id else q.0

unfoldable pub is_completed : CoroutineScheduler → ℕ → Bool
is_completed s id = elim (find id s.items) [ none ↦ true | some t ↦ t.completed ]

-- A worker takes a task; one that has completed is not run.
unfoldable pub take_task : CoroutineScheduler → CoroutineScheduler × Option ℕ
unfolding is_completed
take_task s = elim s.task_queue [
  | [] ↦ (s, none)
  | id ∷ rest ↦ (record s { task_queue = rest }, if is_completed s id then none else some id)
]

-- After the coroutine was suspended or has completed.
unfoldable pub after_run : CoroutineScheduler → ℕ → (completed : Bool) → CoroutineScheduler
unfolding enqueue_ready
after_run s id completed = elim (find id s.items) [
  | none ↦ s
  | some t ↦
      if completed
      then with_item s id (record t { completed = true; listed = false })
      else if t.waiting
      then s
      else enqueue_ready s id
]
