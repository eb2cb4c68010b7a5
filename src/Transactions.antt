-- ===== src/Transactions.antt =====
-- server/dbproxy/TransactionManager.h and TransactionManager.cpp: the transactions in progress. A
-- connection is what `C` is; taking one from the pool, and what the database answers to BEGIN,
-- COMMIT and ROLLBACK, are arguments. A method holds the lock while it reads and writes the table. A
-- time is the `int64_t` of nanoseconds of the steady clock, kept as its 64 bits.
pub mod Exclusive
use tg_chat_server.Prelude.{
  ℕ, ◌*◌, Bool, true, false, Option, none, some, List, [], ◌∷◌, ltb, nat_beq, if◌then◌else◌,
  nat_key, find, insert, erase, add64,
}
use tg_chat_server.Balancer.Smooth.{signed_lt}

pub record TxContext (C : Type 0) : Type 0 where
  pub tx_id : ℕ
  pub conn : C
  pub deadline : ℕ

-- The database calls so far are kept with the table, the last one first.
pub data Call (C : Type 0) : Type 0 where
  begun committed rolled_back : C → Call C

pub record TransactionManager (C : Type 0) : Type 0 where
  pub active_txs : List (ℕ × TxContext C)
  pub tx_id_gen : ℕ
  pub default_timeout_ms : ℕ
  pub calls : List (Call C)

-- The time of now and some milliseconds, both of any 64 bits; the sum wraps around.
unfoldable pub deadline_from : ℕ → ℕ → ℕ
deadline_from now ms = add64 now (ms * 1000000)

module _ {C : Type 0} where
  abbrev pub new_manager : ℕ → TransactionManager C
  new_manager timeout = record {
    active_txs = [];
    tx_id_gen = 1;
    default_timeout_ms = timeout;
    calls = [];
  }

  -- `emplace` leaves an entry that is there.
  unfoldable pub emplace : ℕ → TxContext C → List (ℕ × TxContext C) → List (ℕ × TxContext C)
  emplace id x txs = elim (find id txs) [ none ↦ insert id x txs | some y ↦ txs ]

  -- `begin`, with the connection that the pool gives, if any, and whether BEGIN succeeds on it.
  unfoldable pub begin_tx :
      TransactionManager C → ℕ → Option C → Bool → ℕ → TransactionManager C × ℕ
  unfolding deadline_from emplace
  begin_tx t timeout none ok now = (t, 0)
  begin_tx t timeout (some c) ok now =
      let ms = if nat_beq timeout 0 then t.default_timeout_ms else timeout in
      let id = t.tx_id_gen in
      if ok
      then (
        record t {
          active_txs =
              emplace id (record { tx_id = id; conn = c; deadline = deadline_from now ms })
                t.active_txs;
          tx_id_gen = add64 id 1;
          calls = begun c ∷ t.calls;
        },
        id,
      )
      else (record t { calls = begun c ∷ t.calls }, 0)

  unfoldable pub get_connection : TransactionManager C → ℕ → ℕ → Option C
  get_connection t id now = elim (find id t.active_txs) [
    | none ↦ none
    | some x ↦ if signed_lt x.deadline now then none else some x.conn
  ]

  -- The entry goes before the database is asked, whatever it answers.
  unfoldable pub finalize :
      TransactionManager C → ℕ → Bool → (C → Bool) → TransactionManager C × Bool
  finalize t id do_commit answer = elim (find id t.active_txs) [
    | none ↦ (t, false)
    | some x ↦ (
      record t {
        active_txs = erase id t.active_txs;
        calls = (if do_commit then committed x.conn else rolled_back x.conn) ∷ t.calls;
      },
      answer x.conn,
    )
  ]

  unfoldable pub commit : TransactionManager C → ℕ → (C → Bool) → TransactionManager C × Bool
  commit t id answer = finalize t id true answer

  unfoldable pub rollback : TransactionManager C → ℕ → (C → Bool) → TransactionManager C × Bool
  rollback t id answer = finalize t id false answer

  unfoldable pub timed_out : ℕ → List (ℕ × TxContext C) → List ℕ
  timed_out now [] = []
  timed_out now ((id, x) ∷ rest) =
      let others = timed_out now rest in if signed_lt x.deadline now then id ∷ others else others

  unfoldable pub rollback_all : TransactionManager C → List ℕ → (C → Bool) → TransactionManager C
  rollback_all t [] answer = t
  rollback_all t (id ∷ ids) answer = rollback_all (rollback t id answer).0 ids answer

  unfoldable pub check_timeouts : TransactionManager C → ℕ → (C → Bool) → TransactionManager C
  check_timeouts t now answer = rollback_all t (timed_out now t.active_txs) answer
