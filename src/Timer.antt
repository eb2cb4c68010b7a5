-- ===== src/Timer.antt =====
-- server/common/Timer.h and Timer.cpp. A time is a number of ticks of the clock, a callback a
-- number. The worker holds the mutex but while it waits and while a callback runs, so that it takes
-- turns with the other calls; `executing` is the task whose callback runs.
pub mod Due
pub mod Repeats
use tg_chat_server.Prelude.{
  ℕ, ◌+◌, Bool, true, false, ◌&&◌, Option, none, some, List, [], ◌∷◌, ltb, leb, nat_beq,
  if◌then◌else◌, add64, nat_key, erase,
}

pub record Task : Type 0 where
  pub next_run : ℕ
  pub interval : ℕ
  pub cb : ℕ

abbrev pub Tasks : Type 0
Tasks = List (ℕ × Task)

pub record Timer : Type 0 where
  pub running : Bool
  pub next_id : ℕ
  pub tasks : Tasks
  pub executing : Option (ℕ × Task)

abbrev pub new_timer : Timer
new_timer = record { running = true; next_id = 1; tasks = []; executing = none }

-- `tasks_.emplace(id, task)` of the map in the order of the ids: a key that is there stays.
unfoldable pub emplace : ℕ → Task → Tasks → Tasks
emplace id task [] = (id, task) ∷ []
emplace id task ((k, old) ∷ rest) =
    let later = emplace id task rest in
    if ltb id k
    then (id, task) ∷ (k, old) ∷ rest
    else if nat_beq id k
    then (k, old) ∷ rest
    else (k, old) ∷ later

unfoldable pub run_every : Timer → ℕ → ℕ → ℕ → Timer × ℕ
run_every t interval cb now = (
  record t {
    next_id = add64 t.next_id 1;
    tasks =
        emplace t.next_id (record { next_run = now + interval; interval = interval; cb = cb })
          t.tasks;
  },
  t.next_id,
)

unfoldable pub run_after : Timer → ℕ → ℕ → ℕ → Timer × ℕ
unfolding run_every
run_after t delay cb now = run_every t delay cb now

unfoldable pub cancel : Timer → ℕ → Timer
cancel t id = record t { tasks = erase id t.tasks }

unfoldable pub shutdown : Timer → Timer
shutdown t = record t { running = false }

-- `std::min_element`: the first of the least.
unfoldable pub earliest : ℕ × Task → Tasks → ℕ × Task
earliest best [] = best
earliest best (x ∷ rest) = earliest (if ltb x.1.next_run best.1.next_run then x else best) rest

-- What the worker does next: it ends, it waits, it waits until a time, or it runs a callback.
pub data Turn : Type 0 where
  ends waits : Turn
  waits_until : ℕ → Turn
  runs : (cb : ℕ) → Turn

-- The loop of the worker while it has the mutex.
unfoldable pub turn : Timer → ℕ → Timer × Turn
turn t now =
    if t.running
    then elim t.tasks [
      | [] ↦ (t, waits)
      | x ∷ rest ↦
          let next = earliest x rest in
          if leb next.1.next_run now
          then (record t { tasks = erase next.0 t.tasks; executing = some next }, runs next.1.cb)
          else (t, waits_until next.1.next_run)
    ]
    else (record t { tasks = [] }, ends)

-- When the callback has returned, or thrown.
unfoldable pub finish : Timer → ℕ → Timer
finish t now = elim t.executing [
  | none ↦ t
  | some x ↦
      let idle = record t { executing = none } in
      if ltb 0 x.1.interval && t.running
      then record idle {
        tasks = emplace x.0 (record x.1 { next_run = now + x.1.interval }) t.tasks;
      }
      else idle
]
