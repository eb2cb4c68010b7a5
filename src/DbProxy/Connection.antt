-- ===== src/DbProxy/Connection.antt =====
-- server/dbproxy/MySQLConnection.h and MySQLConnection.cpp. What the client library answers is an
-- argument. A text is the list of its bytes.
use tg_chat_server.Prelude.{
  ℕ, zero, suc, ◌+◌, ◌-◌, ◌⊎◌, inl, inr, Bool, true, false, not, Option, none, some, List, [], ◌∷◌,
  nat_beq, if◌then◌else◌, map,
}
use tg_chat_server.Base64.{Bytes, ascii}
use tg_chat_server.Jwt.Decimal.{decimal}

-- `connected_`, and how many handles `mysql_real_connect` opened that were not closed.
pub record MysqlConnection : Type 0 where
  pub connected : Bool
  pub open_handles : ℕ

abbrev pub new_connection : MysqlConnection
new_connection = record { connected = false; open_handles = 0 }

-- The character set has no effect here.
unfoldable pub connect : MysqlConnection → (connects : Bool) → MysqlConnection × Bool
connect c connects =
    if c.connected
    then (c, true)
    else if connects
    then (record { connected = true; open_handles = c.open_handles + 1 }, true)
    else (c, false)

unfoldable pub close : MysqlConnection → MysqlConnection
close c = if c.connected then record { connected = false; open_handles = c.open_handles - 1 } else c

unfoldable pub reconnect : MysqlConnection → (connects : Bool) → MysqlConnection × Bool
unfolding connect close
reconnect c connects = connect (close c) connects

unfoldable pub ping : MysqlConnection → (answers : Bool) → MysqlConnection × Bool
ping c answers =
    if not c.connected
    then (c, false)
    else if answers
    then (c, true)
    else (record c { connected = false }, false)

-- A row of the result: what is at an index, none for a null pointer.
abbrev pub Row : Type 0
Row = ℕ → Option Bytes

-- `mysql_store_result`: none with the number of fields, or the fields, each with the number of its
-- type, and the rows.
pub data Stored : Type 0 where
  no_result : (field_count : ℕ) → Stored
  result_set : (fields : List (Bytes × ℕ)) → List Row → Stored

-- What the library answers to one call; `error` is the text of a failure.
pub record Server : Type 0 where
  pub succeeds : Bytes → Bool
  pub error : Bytes
  pub stored : Stored
  pub affected_rows : ℕ
  pub insert_id : ℕ

pub record QueryResult : Type 0 where
  pub column_names : List Bytes
  pub column_types : List Bytes
  pub rows : List (List Bytes)
  pub null_flags : List (List Bool)

abbrev pub no_rows : QueryResult
no_rows = record { column_names = []; column_types = []; rows = []; null_flags = [] }

pub record ExecResult : Type 0 where
  pub affected_rows : ℕ
  pub last_insert_id : ℕ

-- The two vectors of a row, from index `i` on; a null pointer leaves the text empty.
unfoldable pub row_data : ℕ → ℕ → Row → List Bytes
row_data zero i row = []
row_data (suc n) i row = (elim (row i) [ none ↦ [] | some text ↦ text ]) ∷ row_data n (i + 1) row

unfoldable pub null_data : ℕ → ℕ → Row → List Bool
null_data zero i row = []
null_data (suc n) i row =
    (elim (row i) [ none ↦ true | some text ↦ false ]) ∷ null_data n (i + 1) row

abbrev pub num_fields : List (Bytes × ℕ) → ℕ
num_fields [] = 0
num_fields (f ∷ fields) = num_fields fields + 1

unfoldable pub read_result : List (Bytes × ℕ) → List Row → QueryResult
unfolding row_data null_data decimal
read_result fields rows = record {
  column_names = map (λ f. f.0) fields;
  column_types = map (λ f. decimal 20 f.1) fields;
  rows = map (row_data (num_fields fields) 0) rows;
  null_flags = map (null_data (num_fields fields) 0) rows;
}

-- The error's text, or the result.
unfoldable pub query : (connected : Bool) → Server → Bytes → Bytes ⊎ QueryResult
unfolding read_result
query connected server sql =
    if not connected
    then inl (ascii "not connected")
    else if server.succeeds sql
    then (elim server.stored [
      | no_result field_count ↦ if nat_beq field_count 0 then inr no_rows else inl server.error
      | result_set fields rows ↦ inr (read_result fields rows)
    ])
    else inl server.error

unfoldable pub execute : (connected : Bool) → Server → Bytes → Bytes ⊎ ExecResult
execute connected server sql =
    if not connected
    then inl (ascii "not connected")
    else if server.succeeds sql
    then inr (record { affected_rows = server.affected_rows; last_insert_id = server.insert_id })
    else inl server.error

-- The error's text, if any.
unfoldable pub exec_raw : Server → Bytes → Option Bytes
exec_raw server sql = if server.succeeds sql then none else some server.error
