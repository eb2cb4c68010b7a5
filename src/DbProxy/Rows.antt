-- ===== src/DbProxy/Rows.antt =====
-- What a query's answer holds of the rows that the database gave.
use tg_chat_server.Prelude.{
  ℕ, zero, suc, ◌+◌, ◌<◌, ◌≡◌, refl, ap, ◌∙◌, inl, inr, arith, Bool, true, false, Option, none,
  some, List, [], ◌∷◌, map, get_elem?, Option-cases,
}
use tg_chat_server.Base64.{Bytes}
use tg_chat_server.Jwt.Decimal.{decimal}
use tg_chat_server.Transactions.{TransactionManager}
use tg_chat_server.DbProxy.Connection.{
  Row, Server, Stored, row_data, null_data, num_fields, read_result, query,
}
use tg_chat_server.DbProxy.{
  DbValue, QueryResponse, null_val, str_val, success, set_types, add_values, add_rows,
  fill_response, connection_for, on_db_query,
}

-- The values of a row, from index `i` on.
abbrev pub value_of : Option Bytes → DbValue
value_of none = null_val
value_of (some text) = str_val text

abbrev pub values : ℕ → ℕ → Row → List DbValue
values zero i row = []
values (suc n) i row = value_of (row i) ∷ values n (i + 1) row

-- The answer that a result set is.
abbrev pub table_of : List (Bytes × ℕ) → List Row → QueryResponse
table_of fields rows = record {
  err = success;
  err_msg = [];
  columns = map (λ f. (f.0, decimal 20 f.1)) fields;
  rows = map (values (num_fields fields) 0) rows;
}

abbrev is_null : Option Bytes → Bool
is_null none = true
is_null (some text) = false

get_elem?-null_data :
    (n i j : ℕ) (row : Row) → j < n → get_elem? (null_data n i row) j ≡ some (is_null (row (i + j)))
unfolding null_data
get_elem?-null_data zero i j row h = absurd (omega arith)
get_elem?-null_data (suc n) i zero row h = ap (λ k. some (is_null (row k))) (omega arith)
get_elem?-null_data (suc n) i (suc j) row h =
    get_elem?-null_data n (i + 1) j row (omega arith)
    ∙ ap (λ k. some (is_null (row k))) (omega arith)

add_values-row_data :
    (n i c : ℕ) (row : Row) (flags : List Bool)
    → ((j : ℕ) → j < n → get_elem? flags (c + j) ≡ some (is_null (row (i + j))))
    → add_values (row_data n i row) flags c ≡ some (values n i row)
unfolding row_data add_values
add_values-row_data zero i c row flags h = refl
add_values-row_data (suc n) i c row flags h =
    let here : get_elem? flags c ≡ some (is_null (row i)) =
      ap (get_elem? flags) (omega arith)
      ∙ h 0 (omega arith)
      ∙ ap (λ k. some (is_null (row k))) (omega arith) in
    let ih = add_values-row_data n (i + 1) (c + 1) row flags (λ j k.
      ap (get_elem? flags) (omega arith)
      ∙ h (suc j) (omega arith)
      ∙ ap (λ k. some (is_null (row k))) (omega arith)) in
    elim (Option-cases (row i)) [
      | inl e ↦ ground (arith, here, ih, e)
      | inr (text, e) ↦ ground (arith, here, ih, e)
    ]

set_types-map :
    (fields : List (Bytes × ℕ))
    → set_types (map (λ f. f.0) fields) (map (λ f. decimal 20 f.1) fields)
      ≡ map (λ f. (f.0, decimal 20 f.1)) fields
unfolding set_types
set_types-map [] = refl
set_types-map (f ∷ fields) = ap (λ t. (f.0, decimal 20 f.1) ∷ t) (set_types-map fields)

add_rows-map :
    (n r : ℕ) (rows : List Row) (flags : List (List Bool))
    → ((j : ℕ) → get_elem? flags (r + j) ≡ get_elem? (map (null_data n 0) rows) j)
    → add_rows (map (row_data n 0) rows) flags r ≡ some (map (values n 0) rows)
unfolding add_rows
add_rows-map n r [] flags h = refl
add_rows-map n r (row ∷ rows) flags h =
    let here : get_elem? flags r ≡ some (null_data n 0 row) =
      ap (get_elem? flags) (omega arith) ∙ h 0 in
    let vs =
      add_values-row_data n 0 0 row (null_data n 0 row) (λ j k.
        ap (get_elem? (null_data n 0 row)) (omega arith) ∙ get_elem?-null_data n 0 j row k) in
    let ih =
      add_rows-map n (r + 1) rows flags (λ j. ap (get_elem? flags) (omega arith) ∙ h (suc j)) in
    rw (add_rows, here, vs, ih) refl

fill_response-read_result :
    (fields : List (Bytes × ℕ)) (rows : List Row)
    → fill_response (read_result fields rows) ≡ some (table_of fields rows)
unfolding fill_response read_result
fill_response-read_result fields rows =
    let n = num_fields fields in
    let e =
      add_rows-map n 0 rows (map (null_data n 0) rows)
        (λ j. ap (get_elem? (map (null_data n 0) rows)) (omega arith)) in
    rw (fill_response, e, set_types-map fields) refl

module _ {C : Type 0} (t : TransactionManager C) (server : C → Bool × Server) (acquired : Option C)
    (now : ℕ) where
  -- A query on a connection that the pool or the transaction gives, that is connected, and to which
  -- the database answers with a result set, is answered with the names and the types of the fields
  -- and, row by row, the text at each index below the number of fields, or null for a null pointer;
  -- no index is out of range.
  pub on_db_query-table_of :
      (sql : Bytes) (tx_id : ℕ) (c : C) (fields : List (Bytes × ℕ)) (rows : List Row)
      → connection_for t acquired tx_id now ≡ inr c
      → (server c).0 ≡ true
      → (server c).1.succeeds sql ≡ true
      → (server c).1.stored ≡ Stored.result_set fields rows
      → on_db_query t server acquired now (some (sql, tx_id)) ≡ some (table_of fields rows)
  on_db_query-table_of sql tx_id c fields rows e f g h =
      let q : query (server c).0 (server c).1 sql ≡ inr (read_result fields rows) =
        unfold query in rw (query, f, g, h) refl in
      unfold on_db_query in rw (on_db_query, e, q) (fill_response-read_result fields rows)
