-- ===== src/DbProxy.antt =====
-- server/dbproxy/DBProxyHandler.cpp: what the database proxy answers to its five messages. A request
-- is what protobuf parses, none where it fails, and the answer what `Reply` gets, none without one.
-- The texts of the transaction manager's errors are left out.
pub mod Connection
pub mod Rows
pub mod Life
use tg_chat_server.Prelude.{
  ℕ, zero, suc, ◌+◌, ◌⊎◌, inl, inr, Bool, true, false, Option, none, some, List, [], ◌∷◌, ◌++◌,
  nat_beq, if◌then◌else◌, map, get_elem?,
}
use tg_chat_server.Base64.{Bytes, ascii}
use tg_chat_server.Jwt.Decimal.{decimal}
use tg_chat_server.Transactions.{TransactionManager, begin_tx, get_connection, commit, rollback}
use tg_chat_server.DbProxy.Connection.{QueryResult, ExecResult, Server, query, execute}

pub data DbError : Type 0 where
  success tx_not_found connection_failed query_failed exec_failed : DbError

pub data DbValue : Type 0 where
  null_val : DbValue
  str_val : Bytes → DbValue

-- `DBQueryReq`'s response; a column is its name and its type.
pub record QueryResponse : Type 0 where
  pub err : DbError
  pub err_msg : Bytes
  pub columns : List (Bytes × Bytes)
  pub rows : List (List DbValue)

pub record ExecResponse : Type 0 where
  pub err : DbError
  pub err_msg : Bytes
  pub affected_rows : ℕ
  pub last_insert_id : ℕ

abbrev pub query_error : DbError → Bytes → QueryResponse
query_error err err_msg = record { err = err; err_msg = err_msg; columns = []; rows = [] }

abbrev pub exec_error : DbError → Bytes → ExecResponse
exec_error err err_msg = record {
  err = err;
  err_msg = err_msg;
  affected_rows = 0;
  last_insert_id = 0;
}

-- The types at the indexes of the columns, up to the end of either.
unfoldable pub set_types : List Bytes → List Bytes → List (Bytes × Bytes)
set_types [] types = []
set_types (name ∷ names) [] = (name, []) ∷ set_types names []
set_types (name ∷ names) (t ∷ types) = (name, t) ∷ set_types names types

-- The values of a row from index `c` on; none where the row has no null flag at an index.
unfoldable pub add_values : List Bytes → List Bool → ℕ → Option (List DbValue)
add_values [] null_flags c = some []
add_values (text ∷ row_data) null_flags c =
    let later = add_values row_data null_flags (c + 1) in
    elim (get_elem? null_flags c) [
      | none ↦ none
      | some is_null ↦ elim later [
        | none ↦ none
        | some vs ↦ some ((if is_null then null_val else str_val text) ∷ vs)
      ]
    ]

unfoldable pub add_rows : List (List Bytes) → List (List Bool) → ℕ → Option (List (List DbValue))
unfolding add_values
add_rows [] null_flags r = some []
add_rows (row_data ∷ rows) null_flags r =
    let later = add_rows rows null_flags (r + 1) in
    elim (get_elem? null_flags r) [
      | none ↦ none
      | some flags ↦ elim (add_values row_data flags 0) [
        | none ↦ none
        | some vs ↦ elim later [ none ↦ none | some rest ↦ some (vs ∷ rest) ]
      ]
    ]

-- The rows of a result, where every index is in range.
unfoldable pub fill_response : QueryResult → Option QueryResponse
unfolding set_types add_rows
fill_response result = elim (add_rows result.rows result.null_flags 0) [
  | none ↦ none
  | some rows ↦ some (record {
    err = success;
    err_msg = [];
    columns = set_types result.column_names result.column_types;
    rows = rows;
  })
]

module _ {C : Type 0} where
  -- The connection of the transaction or of the pool, or the error and its text.
  unfoldable pub connection_for :
      TransactionManager C → (acquired : Option C) → (tx_id now : ℕ) → (DbError × Bytes) ⊎ C
  unfolding decimal
  connection_for t acquired tx_id now =
      if nat_beq tx_id 0
      then elim acquired [
        | none ↦ inl (connection_failed, ascii "failed to acquire connection from pool")
        | some c ↦ inr c
      ]
      else elim (get_connection t tx_id now) [
        | none ↦
            inl (tx_not_found, ascii "transaction not found or expired: tx_id=" ++ decimal 20 tx_id)
        | some c ↦ inr c
      ]

  -- A request is its text and its transaction's id; `server` is what the database answers on a
  -- connection, and whether that is connected.
  unfoldable pub on_db_query :
      TransactionManager C
      → (C → Bool × Server)
      → (acquired : Option C) → ℕ
      → Option (Bytes × ℕ)
      → Option QueryResponse
  unfolding connection_for fill_response query
  on_db_query t server acquired now none = none
  on_db_query t server acquired now (some (sql, tx_id)) =
      elim (connection_for t acquired tx_id now) [
        | inl (err, err_msg) ↦ some (query_error err err_msg)
        | inr c ↦ elim (query (server c).0 (server c).1 sql) [
          | inl err_msg ↦ some (query_error query_failed err_msg)
          | inr result ↦ fill_response result
        ]
      ]

  unfoldable pub on_db_exec :
      TransactionManager C
      → (C → Bool × Server)
      → (acquired : Option C) → ℕ
      → Option (Bytes × ℕ)
      → Option ExecResponse
  unfolding connection_for execute
  on_db_exec t server acquired now none = none
  on_db_exec t server acquired now (some (sql, tx_id)) =
      elim (connection_for t acquired tx_id now) [
        | inl (err, err_msg) ↦ some (exec_error err err_msg)
        | inr c ↦ elim (execute (server c).0 (server c).1 sql) [
          | inl err_msg ↦ some (exec_error exec_failed err_msg)
          | inr result ↦ some (record {
            err = success;
            err_msg = [];
            affected_rows = result.affected_rows;
            last_insert_id = result.last_insert_id;
          })
        ]
      ]

  -- The manager after a message, and the error and the transaction's id of the answer.
  unfoldable pub on_db_tx_begin :
      TransactionManager C
      → (acquired : Option C) → (begins : Bool) → ℕ
      → (timeout_ms : Option ℕ) → TransactionManager C × Option (DbError × ℕ)
  on_db_tx_begin t acquired begins now none = (t, none)
  on_db_tx_begin t acquired begins now (some timeout_ms) =
      let q = begin_tx t timeout_ms acquired begins now in
      (q.0, some (if nat_beq q.1 0 then (connection_failed, 0) else (success, q.1)))

  unfoldable pub on_db_tx_commit :
      TransactionManager C → (C → Bool) → (tx_id : Option ℕ) → TransactionManager C × Option DbError
  on_db_tx_commit t answer none = (t, none)
  on_db_tx_commit t answer (some tx_id) =
      let q = commit t tx_id answer in (q.0, some (if q.1 then success else exec_failed))

  unfoldable pub on_db_tx_rollback :
      TransactionManager C → (C → Bool) → (tx_id : Option ℕ) → TransactionManager C × Option DbError
  on_db_tx_rollback t answer none = (t, none)
  on_db_tx_rollback t answer (some tx_id) =
      let q = rollback t tx_id answer in (q.0, some (if q.1 then success else exec_failed))
