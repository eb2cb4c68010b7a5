-- ===== src/Timer/Repeats.antt =====
-- A task that is meant to run once, and one that is cancelled while it runs, run again.
use tg_chat_server.Prelude.{
  ℕ, ◌+◌, ◌≤◌, ◌<◌, ◌≡◌, refl, ap, ◌∙◌, arith, true, none, some, [], ◌∷◌, nat_beq, if◌then◌else◌,
  nat_key, find, erase, add64, same_refl, find-erase,
}
use tg_chat_server.Timer.{
  Task, Tasks, Timer, emplace, run_every, run_after, cancel, runs, turn, earliest, finish,
}

find-emplace :
    (id j : ℕ) (task : Task) (tasks : Tasks)
    → find id tasks ≡ none
    → find j (emplace id task tasks) ≡ (if nat_beq id j then some task else find j tasks)
unfolding find emplace
find-emplace id j task [] e = refl
find-emplace id j task ((k, old) ∷ rest) e = ground (arith, find-emplace id j task rest)

-- The same task, due once more.
abbrev pub again : Task → ℕ → Task
again x now = record x { next_run = now + x.interval }

finish_lem :
    (t : Timer) (id now : ℕ) (x : Task)
    → t.executing ≡ some (id, x)
    → t.running ≡ true
    → 0 < x.interval
    → find id t.tasks ≡ none
    → find id (finish t now).tasks ≡ some (again x now)
finish_lem t id now x e r h n =
    let q : finish t now ≡ record t { executing = none; tasks = emplace id (again x now) t.tasks } =
      unfold finish in ground arith in
    ap (λ (z : Timer). find id z.tasks) q
    ∙ find-emplace id id (again x now) t.tasks n
    ∙ rw (same_refl id) refl

-- A task of a running timer that is cancelled while its callback runs is in the table again when
-- the callback is done, due after its interval, if it has one.
pub find-finish-cancel :
    (t : Timer) (id now : ℕ) (x : Task)
    → t.executing ≡ some (id, x)
    → t.running ≡ true
    → 0 < x.interval
    → find id (finish (cancel t id) now).tasks ≡ some (again x now)
unfolding cancel
find-finish-cancel t id now x e r h =
    finish_lem (record t { tasks = erase id t.tasks }) id now x e r h
      (find-erase id id t.tasks ∙ rw (same_refl id) refl)

-- A task of a running timer that is started to run once, after a positive delay and as the only one, runs its callback
-- at any turn from then on; but it is back in the table when the callback is done, due after the
-- same delay again.
pub turn-run_after :
    (t : Timer) (delay cb now later done : ℕ)
    → t.running ≡ true
    → t.tasks ≡ []
    → 0 < delay
    → now + delay ≤ later
    → let started = run_after t delay cb now in
      let q = turn started.0 later in
      (q.1 ≡ runs cb)
      × (find started.1 (finish q.0 done).tasks
          ≡ some (record { next_run = done + delay; interval = delay; cb = cb }))
turn-run_after t delay cb now later done r e h l =
    let id = t.next_id in
    let x : Task = record { next_run = now + delay; interval = delay; cb = cb } in
    let s = record t { next_id = add64 id 1; tasks = (id, x) ∷ [] } in
    let started : run_after t delay cb now ≡ (s, id) =
      unfold run_after run_every emplace in ground arith in
    let d : turn s later ≡ (record s { tasks = []; executing = some (id, x) }, runs cb) =
      unfold turn earliest erase in ground arith in
    rw (started, d)
      (
        refl,
        finish_lem (record s { tasks = []; executing = some (id, x) }) id done x refl r h
            (unfold find in refl),
      )
