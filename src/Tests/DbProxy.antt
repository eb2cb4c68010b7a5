-- ===== src/Tests/DbProxy.antt =====
-- The database proxy's messages at concrete inputs. A connection is its number.
use mathlib.Core.List.{Memᴰ}
use tg_chat_server.Prelude.{
  nat_beq, if◌then◌else◌, ℕ, ◌-◌, ◌^◌, ◌≡◌, ◌≢◌, inl, inr, refl, arith, Bool, true, false, none,
  some, List, [], ◌∷◌, find, nat_key,
}
use tg_chat_server.Base64.{Bytes, ascii}
use tg_chat_server.Balancer.Smooth.{signed_lt}
use tg_chat_server.Transactions.{
  TransactionManager, new_manager, deadline_from, check_timeouts, rolled_back,
}
use tg_chat_server.DbProxy.Connection.{
  new_connection, connect, close, reconnect, ping, Row, Server, Stored,
}
use tg_chat_server.DbProxy.{
  success, exec_failed, null_val, str_val, connection_for, on_db_query, on_db_tx_begin,
  on_db_tx_commit, on_db_tx_rollback,
}
use tg_chat_server.DbProxy.Rows.{table_of, on_db_query-table_of}
use tg_chat_server.DbProxy.Life.{gone, life_of_transaction, endless_timeout}

abbrev manager : TransactionManager ℕ
manager = new_manager 30000

abbrev fields : List (Bytes × ℕ)
fields = (ascii "name", 253) ∷ (ascii "age", 3) ∷ []

-- A row with a null in the second field.
abbrev alice : Row
alice i = if nat_beq i 0 then some (ascii "alice") else none

abbrev database : Server
database = record {
  succeeds = λ sql. true;
  error = [];
  stored = Stored.result_set fields (alice ∷ []);
  affected_rows = 1;
  insert_id = 7;
}

pool_connection : connection_for manager (some 3) 0 50 ≡ inr 3
unfolding connection_for
pool_connection = refl

on_db_query-table_of_example :
    on_db_query manager (λ c. (true, database)) (some 3) 50 (some (ascii "select", 0))
    ≡ some (table_of fields (alice ∷ []))
on_db_query-table_of_example =
    on_db_query-table_of manager (λ c. (true, database)) (some 3) 50 (ascii "select") 0 3 fields
      (alice ∷ []) pool_connection refl refl refl

table_rows : (table_of fields (alice ∷ [])).rows ≡ (str_val (ascii "alice") ∷ null_val ∷ []) ∷ []
table_rows = refl

one_not_zero : ◌≢◌ {A = ℕ} 1 0
one_not_zero e = absurd (omega arith)

life_of_transaction_example :
    let q = on_db_tx_begin manager (some 3) true 50 (some 100) in
    let r = on_db_tx_commit q.0 (λ c. true) (some 1) in
    (q.1 ≡ some (success, 1))
    × ((later : ℕ)
        → signed_lt (deadline_from 50 100) later ≡ false
        → connection_for q.0 none 1 later ≡ inr 3)
    × ((later : ℕ)
        → signed_lt (deadline_from 50 100) later ≡ true
        → connection_for q.0 none 1 later ≡ inl (gone 1))
    × (r.1 ≡ some success)
    × ((later : ℕ) → connection_for r.0 none 1 later ≡ inl (gone 1))
    × ((again : ℕ → Bool) → on_db_tx_commit r.0 again (some 1) ≡ (r.0, some exec_failed))
    × ((again : ℕ → Bool) → on_db_tx_rollback r.0 again (some 1) ≡ (r.0, some exec_failed))
unfolding find
life_of_transaction_example =
    life_of_transaction manager 3 100 50 one_not_zero refl none (λ c. true)

endless_timeout_example :
    let q = on_db_tx_begin manager (some 3) true 2000000 (some (2 ^ 64 - 1)) in
    let r = check_timeouts q.0 2000000 (λ c. true) in
    (q.1 ≡ some (success, 1))
    × (connection_for q.0 none 1 2000000 ≡ inl (gone 1))
    × (find 1 r.active_txs ≡ none)
    × Memᴰ (rolled_back 3) r.calls
unfolding find
endless_timeout_example =
    endless_timeout manager 3 (2 ^ 64 - 1) 2000000 one_not_zero refl none (λ c. true) refl
      (omega arith) (omega arith)

-- A connection that `ping` finds gone is connected again while its first handle is still open.
reconnect_leaves_handle :
    (reconnect (ping (connect new_connection true).0 false).0 true).0.open_handles ≡ 2
unfolding reconnect connect close ping
reconnect_leaves_handle = refl
