-- ===== src/Transactions/Exclusive.antt =====
-- A transaction is ended once, on its own connection.
use mathlib.Core.List.{Memᴰ}
use mathlib.Core.List.Memᴰ
use tg_chat_server.Prelude.{
  ℕ, ◌≡◌, ◌≢◌, ◌⊎◌, inl, inr, refl, ◌∙◌, arith, Bool, true, false, none, some, List, [], ◌∷◌,
  nat_beq, some_inj, if◌then◌else◌, Bool-cases, Option-cases, nat_key, same_refl, find, find-erase,
}
use tg_chat_server.Balancer.Smooth.{signed_lt}
use tg_chat_server.Transactions.{
  TxContext, Call, committed, rolled_back, TransactionManager, get_connection, finalize, rollback,
  timed_out, rollback_all, check_timeouts,
}

module _ {C : Type 0} where
  -- The call that ends a transaction.
  abbrev pub ended : Bool → C → Call C
  ended do_commit c = if do_commit then committed c else rolled_back c

  -- The time a transaction may take.
  abbrev pub allowed : TransactionManager C → ℕ → ℕ
  allowed t timeout = if nat_beq timeout 0 then t.default_timeout_ms else timeout

  find-finalize :
      (t : TransactionManager C) (id : ℕ) (b : Bool) (answer : C → Bool) (x : TxContext C)
      → find id t.active_txs ≡ some x
      → let q = finalize t id b answer in
        (q.1 ≡ answer x.conn)
        × (q.0.calls ≡ ended b x.conn ∷ t.calls)
        × ((j : ℕ) → find j q.0.active_txs ≡ (if nat_beq id j then none else find j t.active_txs))
  unfolding finalize find
  find-finalize t id b answer x e = rw (finalize, e) (refl, refl, λ j. find-erase id j t.active_txs)

  finalize-gone :
      (t : TransactionManager C) (id : ℕ) (b : Bool) (answer : C → Bool)
      → find id t.active_txs ≡ none
      → finalize t id b answer ≡ (t, false)
  unfolding finalize
  finalize-gone t id b answer e = rw (finalize, e) refl

  get_connection-gone :
      (t : TransactionManager C) (id now : ℕ)
      → find id t.active_txs ≡ none
      → get_connection t id now ≡ none
  unfolding get_connection
  get_connection-gone t id now e = rw (get_connection, e) refl

  -- A transaction that is in progress and ended by COMMIT or ROLLBACK: the database is asked for it
  -- once, on the transaction's own connection, and its answer is returned. After that the id has no
  -- connection, and ending it again fails and asks the database nothing, while every other
  -- transaction is as before.
  pub finalize_once :
      (t : TransactionManager C) (id : ℕ) (b : Bool) (answer : C → Bool) (x : TxContext C)
      → find id t.active_txs ≡ some x
      → let q = finalize t id b answer in
        (q.1 ≡ answer x.conn)
        × (q.0.calls ≡ ended b x.conn ∷ t.calls)
        × ((now : ℕ) → get_connection q.0 id now ≡ none)
        × ((b' : Bool) (answer' : C → Bool) → finalize q.0 id b' answer' ≡ (q.0, false))
        × ((j : ℕ) → id ≢ j → find j q.0.active_txs ≡ find j t.active_txs)
  finalize_once t id b answer x e =
      let (a, c, f) = find-finalize t id b answer x e in
      let g : find id (finalize t id b answer).0.active_txs ≡ none =
        f id ∙ rw (same_refl id) refl in
      (
        a,
        c,
        λ now. get_connection-gone _ id now g,
        λ b' answer'. finalize-gone _ id b' answer' g,
        λ j n. f j ∙ ground arith,
      )

  find-rollback :
      (t : TransactionManager C) (id j : ℕ) (answer : C → Bool)
      → find j t.active_txs ≡ none
      → find j (rollback t id answer).0.active_txs ≡ none
  unfolding rollback
  find-rollback t id j answer e = elim (Option-cases (find id t.active_txs)) [
    | inl q ↦ rw (finalize-gone t id false answer q) e
    | inr (x, q) ↦ (find-finalize t id false answer x q).2 j ∙ ground arith
  ]

  rollback-other :
      (t : TransactionManager C) (id j : ℕ) (answer : C → Bool)
      → id ≢ j
      → find j (rollback t id answer).0.active_txs ≡ find j t.active_txs
  unfolding rollback
  rollback-other t id j answer n = elim (Option-cases (find id t.active_txs)) [
    | inl q ↦ rw (finalize-gone t id false answer q) refl
    | inr (x, q) ↦ (find-finalize t id false answer x q).2 j ∙ ground arith
  ]

  calls-rollback :
      (t : TransactionManager C) (id : ℕ) (answer : C → Bool) (c : Call C)
      → Memᴰ c t.calls
      → Memᴰ c (rollback t id answer).0.calls
  unfolding rollback
  calls-rollback t id answer c m = elim (Option-cases (find id t.active_txs)) [
    | inl q ↦ rw (finalize-gone t id false answer q) m
    | inr (x, q) ↦ rw ((find-finalize t id false answer x q).1) (Memᴰ.tail m)
  ]

  rollback_all-keeps :
      (ids : List ℕ) (t : TransactionManager C) (j : ℕ) (answer : C → Bool) (c : Call C)
      → find j t.active_txs ≡ none
      → Memᴰ c t.calls
      → (find j (rollback_all t ids answer).active_txs ≡ none)
        × Memᴰ c (rollback_all t ids answer).calls
  unfolding rollback_all
  rollback_all-keeps [] t j answer c e m = (e, m)
  rollback_all-keeps (id ∷ ids) t j answer c e m =
      rollback_all-keeps ids (rollback t id answer).0 j answer c (find-rollback t id j answer e)
        (calls-rollback t id answer c m)

  rollback_all_lem :
      (ids : List ℕ) (t : TransactionManager C) (j : ℕ) (answer : C → Bool) (x : TxContext C)
      → Memᴰ j ids
      → find j t.active_txs ≡ some x
      → (find j (rollback_all t ids answer).active_txs ≡ none)
        × Memᴰ (rolled_back x.conn) (rollback_all t ids answer).calls
  unfolding rollback_all
  rollback_all_lem [] t j answer x m e = elim m [ ]
  rollback_all_lem (id ∷ ids) t j answer x m e = elim (Bool-cases (nat_beq id j)) [
    | inl q ↦
        let same : id ≡ j = ground arith in
        let e' : find id t.active_txs ≡ some x = rw same e in
        let (a, c, f) = find-finalize t id false answer x e' in
        rollback_all-keeps ids (rollback t id answer).0 j answer (rolled_back x.conn)
          (unfold rollback in f j ∙ rw q refl) (unfold rollback in rw c (Memᴰ.head refl))
    | inr q ↦
        rollback_all_lem ids (rollback t id answer).0 j answer x (later (Memᴰ.cases_cons m) q)
          (rollback-other t id j answer (ground arith) ∙ e)
  ]
    where
      later : {id j : ℕ} {ids : List ℕ} → (j ≡ id) ⊎ Memᴰ j ids → nat_beq id j ≡ false → Memᴰ j ids
      later (inl e) q = absurd (ground arith)
      later (inr m) q = m

  timed_out_lem :
      (now j : ℕ) (txs : List (ℕ × TxContext C)) (x : TxContext C)
      → find j txs ≡ some x
      → signed_lt x.deadline now ≡ true
      → Memᴰ j (timed_out now txs)
  unfolding timed_out find
  timed_out_lem now j [] x e h = absurd (ground arith)
  timed_out_lem now j ((id, y) ∷ rest) x e h = elim (Bool-cases (nat_beq id j)) [
    | inl q ↦
        let same : some y ≡ some x = rw q at e in
        let d : signed_lt y.deadline now ≡ true = ground (arith, some_inj same) in
        rw d (Memᴰ.head (ground arith))
    | inr q ↦
        let m = timed_out_lem now j rest x (rw q at e) h in
        elim (Bool-cases (signed_lt y.deadline now)) [ inl d ↦ rw d (Memᴰ.tail m) | inr d ↦ rw d m ]
  ]

  -- A time-out check rolls back every transaction whose deadline has passed, on its own connection,
  -- and leaves none of them in progress, whatever the database answers.
  pub check_timeouts_lem :
      (t : TransactionManager C) (now j : ℕ) (answer : C → Bool) (x : TxContext C)
      → find j t.active_txs ≡ some x
      → signed_lt x.deadline now ≡ true
      → (find j (check_timeouts t now answer).active_txs ≡ none)
        × Memᴰ (rolled_back x.conn) (check_timeouts t now answer).calls
  unfolding check_timeouts
  check_timeouts_lem t now j answer x e h =
      rollback_all_lem (timed_out now t.active_txs) t j answer x
        (timed_out_lem now j t.active_txs x e h) e
