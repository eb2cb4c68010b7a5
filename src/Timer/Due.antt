-- ===== src/Timer/Due.antt =====
-- No callback runs early, and the earliest task comes first.
use mathlib.Core.List.{Memᴰ}
use mathlib.Core.List.Memᴰ
use mathlib.Core.Path.{subst}
use tg_chat_server.Prelude.{
  ℕ, ◌≤◌, ◌<◌, ◌≡◌, inl, inr, refl, sym, arith, true, some, [], ◌∷◌, ltb, leb, Bool-cases,
  List-cases, nat_key, erase,
}
use tg_chat_server.Timer.{Task, Tasks, Timer, earliest, Turn, waits, waits_until, runs, turn}

-- One of the tasks, and none of them is due before it.
pub record IsEarliest (x : ℕ × Task) (tasks : Tasks) : Type 0 where
  pub listed : Memᴰ x tasks
  pub first : (y : ℕ × Task) → Memᴰ y tasks → x.1.next_run ≤ y.1.next_run

earliest_lem : (best : ℕ × Task) (rest : Tasks) → IsEarliest (earliest best rest) (best ∷ rest)
unfolding earliest
earliest_lem best [] = record {
  listed = Memᴰ.head refl;
  first = λ y m. elim (Memᴰ.cases_cons m) [ inl e ↦ rw e (omega arith) | inr n ↦ elim n [ ] ];
}
earliest_lem best (x ∷ rest) = elim (Bool-cases (ltb x.1.next_run best.1.next_run)) [
  | inl e ↦
      let v = earliest_lem x rest in
      rw e (record {
        listed = Memᴰ.tail v.listed;
        first = λ y m. elim (Memᴰ.cases_cons m) [
          | inl q ↦ rw q (ground (arith, v.first x (Memᴰ.head refl)))
          | inr n ↦ v.first y n
        ];
      })
  | inr e ↦
      let v = earliest_lem best rest in
      rw e (record {
        listed = elim (Memᴰ.cases_cons v.listed) [
          | inl q ↦ Memᴰ.head q
          | inr n ↦ Memᴰ.tail (Memᴰ.tail n)
        ];
        first = λ y m. elim (Memᴰ.cases_cons m) [
          | inl q ↦ v.first y (Memᴰ.head q)
          | inr n ↦ elim (Memᴰ.cases_cons n) [
            | inl q ↦ rw q (ground (arith, v.first best (Memᴰ.head refl)))
            | inr n' ↦ v.first y (Memᴰ.tail n')
          ]
        ];
      })
]

-- What the worker of a running timer may do with its tasks.
pub data Chooses (t : Timer) (now : ℕ) (q : Timer × Turn) : Type 0 where
  nothing : t.tasks ≡ [] → q ≡ (t, waits) → Chooses t now q
  later :
      (x : ℕ × Task)
      → IsEarliest x t.tasks
      → now < x.1.next_run
      → q ≡ (t, waits_until x.1.next_run)
      → Chooses t now q
  due :
      (x : ℕ × Task)
      → IsEarliest x t.tasks
      → x.1.next_run ≤ now
      → q ≡ (record t { tasks = erase x.0 t.tasks; executing = some x }, runs x.1.cb)
      → Chooses t now q

-- The worker of a running timer waits if there is no task; else it takes a task that no other is
-- due before, runs its callback and takes it out of the table if it is due, and waits until it is
-- due otherwise.
pub turn-Chooses : (t : Timer) (now : ℕ) → t.running ≡ true → Chooses t now (turn t now)
unfolding turn
turn-Chooses t now h = elim (List-cases t.tasks) [
  | inl e ↦ nothing e (ground arith)
  | inr (x, rest, e) ↦
      let next = earliest x rest in
      let v : IsEarliest next t.tasks = subst (IsEarliest next) (sym e) (earliest_lem x rest) in
      elim (Bool-cases (leb next.1.next_run now)) [
        | inl d ↦ due next v (ground arith) (ground arith)
        | inr d ↦ later next v (ground arith) (ground arith)
      ]
]
