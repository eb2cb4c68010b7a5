-- ===== src/Migration/Body.antt =====
-- The lines between the parentheses of a table's definition: where the commas stand.
use mathlib.Core.List.{append_assoc, append-nil}
use tg_chat_server.Prelude.{
  ◌≡◌, refl, sym, ap, ap₂, ◌∙◌, inl, inr, Bool, true, false, not, ◌||◌, List, [], ◌∷◌, ◌++◌, map,
  if◌then◌else◌, Bool-cases,
}
use tg_chat_server.Migration.Sql.{
  Text, ColumnDef, IndexDef, CreateTableOp, none_of, comma, quote_ident, column_def_sql,
  column_lines, primary_key_line, index_sql, index_lines, table_body,
}

-- One line for each item, with a comma after each but the last.
abbrev pub lines : List Text → Text
lines [] = []
lines (x ∷ []) = x ++ "\n" ∷ []
lines (x ∷ y ∷ rest) = x ++ "," ∷ "\n" ∷ lines (y ∷ rest)

-- The item for the first column that is a primary key, if there is one.
abbrev pub key_items : List ColumnDef → List Text
key_items [] = []
key_items (col ∷ rest) =
    if col.primary_key
    then ("    PRIMARY KEY (" ∷ quote_ident col.name ++ ")" ∷ []) ∷ []
    else key_items rest

-- The items of a table: its columns, its primary key, and its indexes.
abbrev pub items : CreateTableOp → List Text
items op = map column_def_sql op.columns ++ key_items op.columns ++ map index_sql op.indexes

lines-cons :
    (x : Text) (xs : List Text) → lines (x ∷ xs) ≡ x ++ comma (not (none_of xs)) ++ "\n" ∷ lines xs
lines-cons x [] = ap (λ t. t ++ "\n" ∷ []) (sym (append-nil x))
lines-cons x (y ∷ rest) = sym (append_assoc x ("," ∷ []) ("\n" ∷ lines (y ∷ rest)))

none_of-map : (idxs : List IndexDef) → none_of (map index_sql idxs) ≡ none_of idxs
none_of-map [] = refl
none_of-map (i ∷ rest) = refl

index_lines_lem : (idxs : List IndexDef) → index_lines idxs ≡ lines (map index_sql idxs)
unfolding index_lines
index_lines_lem [] = refl
index_lines_lem (i ∷ rest) =
    ap (λ t. index_sql i ++ comma (not (none_of rest)) ++ "\n" ∷ t) (index_lines_lem rest)
    ∙ ap (λ b. index_sql i ++ comma (not b) ++ "\n" ∷ lines (map index_sql rest))
        (sym (none_of-map rest))
    ∙ sym (lines-cons (index_sql i) (map index_sql rest))

primary_key_line_lem :
    (cols : List ColumnDef) (idxs : List IndexDef)
    → primary_key_line cols idxs ++ index_lines idxs ≡ lines (key_items cols ++ map index_sql idxs)
unfolding primary_key_line
primary_key_line_lem [] idxs = index_lines_lem idxs
primary_key_line_lem (col ∷ rest) idxs = elim (Bool-cases col.primary_key) [
  | inl e ↦
      let x : Text = "    PRIMARY KEY (" ∷ quote_ident col.name ++ ")" ∷ [] in
      rw e (
        ap (λ t. x ++ t)
          (append_assoc (comma (not (none_of idxs))) ("\n" ∷ []) (index_lines idxs)
            ∙ ap₂ (λ b t. comma (not b) ++ "\n" ∷ t) (sym (none_of-map idxs))
                (index_lines_lem idxs))
        ∙ sym (
            append_assoc x (comma (not (none_of (map index_sql idxs))))
              ("\n" ∷ lines (map index_sql idxs)))
        ∙ sym (lines-cons x (map index_sql idxs)))
  | inr e ↦ rw e (primary_key_line_lem rest idxs)
]

abbrev any_key : List ColumnDef → Bool
any_key [] = false
any_key (col ∷ rest) = col.primary_key || any_key rest

or_assoc : (a b c d : Bool) → ((a || (b || c)) || d) ≡ (((a || b) || c) || d)
or_assoc true b c d = refl
or_assoc false b c d = refl

or_false : (a b d : Bool) → ((a || (b || false)) || d) ≡ ((a || b) || d)
or_false true b d = refl
or_false false true d = refl
or_false false false d = refl

-- The columns, with the items that follow them.
column_lines_lem :
    (cols : List ColumnDef) (has_pk : Bool) (idxs : List IndexDef) (after : List Text)
    → not (none_of after) ≡ ((has_pk || any_key cols) || not (none_of idxs))
    → column_lines cols has_pk idxs ++ lines after ≡ lines (map column_def_sql cols ++ after)
unfolding column_lines
column_lines_lem [] has_pk idxs after h = refl
column_lines_lem (col ∷ []) has_pk idxs after h =
    let x = column_def_sql col in
    append_assoc (x ++ comma ((has_pk || col.primary_key) || not (none_of idxs))) ("\n" ∷ [])
      (lines after)
    ∙ ap (λ b. x ++ comma b ++ "\n" ∷ lines after)
        (sym (h ∙ or_false has_pk col.primary_key (not (none_of idxs))))
    ∙ sym (lines-cons x after)
column_lines_lem (col ∷ next ∷ rest) has_pk idxs after h =
    let x = column_def_sql col in
    let pk = has_pk || col.primary_key in
    append_assoc (x ++ comma true) ("\n" ∷ column_lines (next ∷ rest) pk idxs) (lines after)
    ∙ ap (λ t. x ++ comma true ++ "\n" ∷ t)
        (column_lines_lem (next ∷ rest) pk idxs after
          (h ∙ or_assoc has_pk col.primary_key (any_key (next ∷ rest)) (not (none_of idxs))))
    ∙ sym (lines-cons x (map column_def_sql (next ∷ rest) ++ after))

none_of-key_items :
    (cols : List ColumnDef) (idxs : List IndexDef)
    → not (none_of (key_items cols ++ map index_sql idxs)) ≡ (any_key cols || not (none_of idxs))
none_of-key_items [] idxs = ap not (none_of-map idxs)
none_of-key_items (col ∷ rest) idxs = elim (Bool-cases col.primary_key) [
  | inl e ↦ rw e refl
  | inr e ↦ rw e (none_of-key_items rest idxs)
]

-- The body of a table's definition is one line for each of its items, which are its columns in
-- order, the primary key at the first column that is marked as one, if any is, and its indexes in
-- order, with a comma after each line but the last.
pub table_body_lem : (op : CreateTableOp) → table_body op ≡ lines (items op)
table_body_lem op =
    let after = key_items op.columns ++ map index_sql op.indexes in
    append_assoc (column_lines op.columns false op.indexes) (primary_key_line op.columns op.indexes)
      (index_lines op.indexes)
    ∙ ap (λ t. column_lines op.columns false op.indexes ++ t)
        (primary_key_line_lem op.columns op.indexes)
    ∙ column_lines_lem op.columns false op.indexes after (none_of-key_items op.columns op.indexes)
    ∙ ap lines (
        sym (
          append_assoc (map column_def_sql op.columns) (key_items op.columns)
            (map index_sql op.indexes)))
