-- ===== src/Tests/Scheduler.antt =====
-- server/core/coroutine/CoroutineScheduler.cpp at concrete inputs.
use tg_chat_server.Prelude.{
  ◌≡◌, ◌+◌, List, refl, true, false, none, some, [], ◌∷◌, ◌++◌, find, insert, nat_key,
}
use tg_chat_server.Scheduler.{
  CoroutineScheduler, TaskItem, new_item, schedule, set_waiting, set_timeout, clear_timed_out,
  suspend, yield_value, take_task, enqueue_ready, expired, claim, exchange_waiting, give_value,
  give_nothing, after_run,
}
use tg_chat_server.Scheduler.Races.{Has, suspended}
use tg_chat_server.Scheduler.Steps.{
  Step, claims, exchanges, looks, gives, enqueues, takes, after, wins, one_if, wins_balance,
}
use tg_chat_server.Scheduler.Early.{wakes_early}

abbrev fresh : CoroutineScheduler
fresh = record { items = []; task_queue = []; id_gen = 1 }

-- A task that a worker has taken.
abbrev taken : CoroutineScheduler
taken = (take_task (schedule fresh).0).0

taken-Has : Has taken 1 new_item
unfolding schedule take_task enqueue_ready insert find
taken-Has = record { stored = refl; listed = refl; live = refl }

-- It waits until 130 and times out.
waits_until_130 : expired (suspend taken 1 30 100).items 130 ≡ 1 ∷ []
unfolding expired set_waiting set_timeout clear_timed_out suspend schedule take_task enqueue_ready
    insert find
waits_until_130 = refl

-- `resume` stores its value while the timeout thread tries, and the worker looks.
abbrev moves : List Step
moves = claims 1 ∷ exchanges 1 ∷ looks 1 false ∷ gives 1 (some 7) ∷ enqueues 1 ∷ takes ∷ []

wins_balance_example :
    (x : TaskItem) × (find 1 (after (suspend taken 1 30 100) 1 moves).items ≡ some x)
    × (wins (suspend taken 1 30 100) 1 moves + one_if x.waiting ≡ 1)
unfolding set_waiting set_timeout clear_timed_out suspend schedule take_task enqueue_ready insert
    find
wins_balance_example =
    wins_balance moves 1 (suspend taken 1 30 100) (suspended new_item 30 100) refl

wakes_early_example :
    let w = suspend taken 1 30 100 in
    let a = claim w 1 in
    let b = exchange_waiting w 1 in
    let after_a = after_run a.0 1 false in
    let after_b = after_run b.0 1 false in
    (a.1 ≡ true)
    × (after_a.task_queue ≡ taken.task_queue ++ 1 ∷ [])
    × (yield_value after_a 1 ≡ none)
    × ((enqueue_ready (give_value after_a 1 (some 7)) 1).task_queue
        ≡ taken.task_queue ++ 1 ∷ 1 ∷ [])
    × (b.1 ≡ true)
    × (after_b.task_queue ≡ taken.task_queue ++ 1 ∷ [])
    × (yield_value after_b 1 ≡ none)
    × ((enqueue_ready (give_nothing after_b 1) 1).task_queue ≡ taken.task_queue ++ 1 ∷ 1 ∷ [])
wakes_early_example = wakes_early taken 1 new_item taken-Has 30 100 (some 7)
