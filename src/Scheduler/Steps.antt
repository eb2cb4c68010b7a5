-- ===== src/Scheduler/Steps.antt =====
-- The wake-ups of a task where the steps of all threads interleave.
use tg_chat_server.Prelude.{
  ℕ, ◌+◌, ◌≡◌, inl, inr, refl, sym, ap, ◌∙◌, arith, Bool, true, false, Option, none, some, List, [],
  ◌∷◌, ◌&&◌, nat_beq, if◌then◌else◌, Bool-cases, Option-cases, nat_key, find, find-insert,
}
use tg_chat_server.Scheduler.{
  TaskItem, CoroutineScheduler, with_item, enqueue_ready, find_task, exchange_waiting, claim,
  give_value, give_nothing, take_task, after_run,
}

-- A step of some thread, for any task, but a suspension and a new task.
pub data Step : Type 0 where
  claims exchanges gives_nothing enqueues : ℕ → Step
  gives : ℕ → Option ℕ → Step
  takes : Step
  looks : ℕ → (completed : Bool) → Step

-- The scheduler after a step, and whether an exchange of the task `id` succeeded in it.
abbrev pub step : CoroutineScheduler → ℕ → Step → CoroutineScheduler × Bool
step s id (claims j) = ((claim s j).0, nat_beq j id && (claim s j).1)
step s id (exchanges j) = ((exchange_waiting s j).0, nat_beq j id && (exchange_waiting s j).1)
step s id (gives_nothing j) = (give_nothing s j, false)
step s id (enqueues j) = (enqueue_ready s j, false)
step s id (gives j v) = (give_value s j v, false)
step s id takes = ((take_task s).0, false)
step s id (looks j completed) = (after_run s j completed, false)

abbrev pub after : CoroutineScheduler → ℕ → List Step → CoroutineScheduler
after s id [] = s
after s id (m ∷ ms) = after (step s id m).0 id ms

abbrev pub one_if : Bool → ℕ
one_if b = if b then 1 else 0

-- How many exchanges of the task succeed.
abbrev pub wins : CoroutineScheduler → ℕ → List Step → ℕ
wins s id [] = 0
wins s id (m ∷ ms) = one_if (step s id m).1 + wins (step s id m).0 id ms

-- The task has an item after the step; it counts as waiting as before but for an exchange.
pub record Counts (id : ℕ) (t : TaskItem) (s : CoroutineScheduler) (won : Bool) : Type 0 where
  pub item : TaskItem
  pub stored : find id s.items ≡ some item
  pub balance : one_if won + one_if item.waiting ≡ one_if t.waiting

same_items :
    (id : ℕ) (t : TaskItem) (s r : CoroutineScheduler)
    → find id s.items ≡ some t
    → find id r.items ≡ find id s.items
    → Counts id t r false
same_items id t s r e k = record { item = t; stored = k ∙ e; balance = ground arith }

-- An item of a task is stored again, with the same or another mark of waiting.
store_lem :
    (id j : ℕ) (t x y : TaskItem) (s : CoroutineScheduler) (won : Bool)
    → find id s.items ≡ some t
    → find j s.items ≡ some x
    → one_if won + one_if y.waiting ≡ one_if x.waiting
    → Counts id t (with_item s j y) (nat_beq j id && won)
store_lem id j t x y s won e f b = elim (Bool-cases (nat_beq j id)) [
  | inr q ↦ record {
    item = t;
    stored = find-insert j id y s.items ∙ rw q e;
    balance = ground (arith, q);
  }
  | inl q ↦
      let same : j ≡ id = ground arith in
      let xt : some x ≡ some t = sym f ∙ ap (λ k. find k s.items) same ∙ e in
      record {
        item = y;
        stored = find-insert j id y s.items ∙ rw q refl;
        balance = rw q (b ∙ ap (λ o. one_if (elim o [ none ↦ false | some i ↦ i.waiting ])) xt);
      }
]

module _ (id : ℕ) (t : TaskItem) (s : CoroutineScheduler) (e : find id s.items ≡ some t) where
  no_win :
      (j : ℕ) (r : CoroutineScheduler) → Counts id t r (nat_beq j id && false) → Counts id t r false
  no_win j r c = elim (Bool-cases (nat_beq j id)) [ inl q ↦ (rw q at c) | inr q ↦ (rw q at c) ]

  keep_lem :
      (j : ℕ) (x y : TaskItem)
      → find j s.items ≡ some x
      → y.waiting ≡ x.waiting
      → Counts id t (with_item s j y) false
  keep_lem j x y f w =
      no_win j (with_item s j y) (store_lem id j t x y s false e f (ground (arith, w)))

  idle : (j : ℕ) → Counts id t s (nat_beq j id && false)
  idle j = elim (Bool-cases (nat_beq j id)) [
    | inl q ↦ rw q (same_items id t s s e refl)
    | inr q ↦ rw q (same_items id t s s e refl)
  ]

  exchange_lem :
      (j : ℕ) → Counts id t (exchange_waiting s j).0 (nat_beq j id && (exchange_waiting s j).1)
  unfolding exchange_waiting
  exchange_lem j = elim (Option-cases (find j s.items)) [
    | inl f ↦ rw (exchange_waiting, f) (idle j)
    | inr (x, f) ↦ elim (Bool-cases x.waiting) [
      | inr w ↦ rw (exchange_waiting, f, w) (idle j)
      | inl w ↦
          rw (exchange_waiting, f, w)
            (store_lem id j t x (record x { waiting = false }) s true e f (rw w refl))
    ]
  ]

  claim-exchange : (j : ℕ) → Counts id t (claim s j).0 (nat_beq j id && (claim s j).1)
  unfolding claim
  claim-exchange j = elim (Option-cases (find_task s j)) [
    | inl f ↦ rw (claim, f) (idle j)
    | inr (x, f) ↦ elim (Bool-cases x.completed) [
      | inl w ↦ rw (claim, f, w) (idle j)
      | inr w ↦ rw (claim, f, w) (exchange_lem j)
    ]
  ]

  give_value-Counts : (j : ℕ) (v : Option ℕ) → Counts id t (give_value s j v) false
  unfolding give_value
  give_value-Counts j v = elim (Option-cases (find j s.items)) [
    | inl f ↦ rw (give_value, f) (same_items id t s s e refl)
    | inr (x, f) ↦ rw (give_value, f) (keep_lem j x _ f refl)
  ]

  give_nothing-Counts : (j : ℕ) → Counts id t (give_nothing s j) false
  unfolding give_nothing
  give_nothing-Counts j = elim (Option-cases (find j s.items)) [
    | inl f ↦ rw (give_nothing, f) (same_items id t s s e refl)
    | inr (x, f) ↦ rw (give_nothing, f) (keep_lem j x _ f refl)
  ]

  after_run-Counts : (j : ℕ) (completed : Bool) → Counts id t (after_run s j completed) false
  unfolding after_run enqueue_ready
  after_run-Counts j completed = elim (Option-cases (find j s.items)) [
    | inl f ↦ rw (after_run, f) (same_items id t s s e refl)
    | inr (x, f) ↦ elim (Bool-cases completed) [
      | inl c ↦
          rw (after_run, f, c) (keep_lem j x (record x { completed = true; listed = false }) f refl)
      | inr c ↦ elim (Bool-cases x.waiting) [
        | inl w ↦ rw (after_run, f, c, w) (same_items id t s s e refl)
        | inr w ↦ rw (after_run, f, c, w) (same_items id t s _ e refl)
      ]
    ]
  ]

  items-take_task : (r : CoroutineScheduler) → (take_task r).0.items ≡ r.items
  unfolding take_task
  items-take_task r = go r.task_queue refl
    where
      go : (q : List ℕ) → r.task_queue ≡ q → (take_task r).0.items ≡ r.items
      go [] e = rw (take_task, e) refl
      go (j ∷ rest) e = rw (take_task, e) refl

  take_task-Counts : Counts id t (take_task s).0 false
  take_task-Counts = same_items id t s (take_task s).0 e (ap (find id) (items-take_task s))

  step-Counts : (m : Step) → Counts id t (step s id m).0 (step s id m).1
  unfolding enqueue_ready
  step-Counts (claims j) = claim-exchange j
  step-Counts (exchanges j) = exchange_lem j
  step-Counts (gives_nothing j) = give_nothing-Counts j
  step-Counts (enqueues j) = same_items id t s _ e refl
  step-Counts (gives j v) = give_value-Counts j v
  step-Counts takes = take_task-Counts
  step-Counts (looks j completed) = after_run-Counts j completed

-- For a task with an item, over any steps of any threads, for any tasks, that suspend and add none:
-- the task still has an item, and the exchanges of it that succeed, by `resume` and by the timeout
-- thread together, are one if it waited before and does not wait after them, and none otherwise.
pub wins_balance :
    (ms : List Step) (id : ℕ) (s : CoroutineScheduler) (t : TaskItem)
    → find id s.items ≡ some t
    → (x : TaskItem) × (find id (after s id ms).items ≡ some x)
      × (wins s id ms + one_if x.waiting ≡ one_if t.waiting)
wins_balance [] id s t e = (t, e, ground arith)
wins_balance (m ∷ ms) id s t e =
    let c = step-Counts id t s e m in
    let (x, f, b) = wins_balance ms id (step s id m).0 c.item c.stored in
    (x, f, omega (arith, c.balance, b))
