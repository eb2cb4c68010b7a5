-- ===== src/Migration/Sql.antt =====
-- server/tools/dbmigrate/SQLGenerator.h and SQLGenerator.cpp: an operation of a migration as SQL. A
-- string stream is the list of the strings that were written to it, in order.
use Prim.Native.Char.{code}
use tg_chat_server.Prelude.{
  Bool, true, false, not, ◌&&◌, ◌||◌, List, [], ◌∷◌, ◌++◌, String, leb, nat_beq, if◌then◌else◌,
  ◌==◌, string_key,
}

abbrev pub Text : Type 0
Text = List String

pub record ColumnDef : Type 0 where
  pub name : String
  pub type : String
  pub not_null : Bool
  pub auto_increment : Bool
  pub primary_key : Bool
  pub default_val : String
  pub on_update : String

pub record IndexDef : Type 0 where
  pub name : String
  pub columns : List String
  pub unique : Bool

pub record CreateTableOp : Type 0 where
  pub table : String
  pub columns : List ColumnDef
  pub indexes : List IndexDef
  pub engine : String
  pub charset : String
  pub comment : String

pub record AlterTableOp : Type 0 where
  pub table : String
  pub add_columns : List ColumnDef
  pub drop_columns : List String
  pub modify_columns : List ColumnDef
  pub after_column : String

pub record SeedDataOp : Type 0 where
  pub table : String
  pub rows : List (List (String × String))

pub data Operation : Type 0 where
  create_table : CreateTableOp → Operation
  alter_table : AlterTableOp → Operation
  create_index : (table name : String) (columns : List String) (unique : Bool) → Operation
  drop_index : (table name : String) → Operation
  drop_table : (table : String) (if_exists : Bool) → Operation
  seed_data : SeedDataOp → Operation

abbrev pub none_of : {A : Type 0} → List A → Bool
none_of [] = true
none_of (x ∷ xs) = false

unfoldable pub quote_ident : String → Text
quote_ident s = "`" ∷ s ∷ "`" ∷ []

unfoldable pub column_def_sql : ColumnDef → Text
unfolding quote_ident
column_def_sql col =
    "    " ∷ quote_ident col.name
    ++ " " ∷ col.type ∷ (if col.not_null then " NOT NULL" ∷ [] else [])
    ++ (if col.auto_increment then " AUTO_INCREMENT" ∷ [] else [])
    ++ (if col.default_val == "" then [] else " DEFAULT " ∷ col.default_val ∷ [])
    ++ (if col.on_update == "" then [] else " ON UPDATE " ∷ col.on_update ∷ [])

abbrev pub comma : Bool → Text
comma b = if b then "," ∷ [] else []

-- The loop over the columns; `has_pk` is whether one before them is a primary key.
unfoldable pub column_lines : List ColumnDef → (has_pk : Bool) → List IndexDef → Text
unfolding column_def_sql
column_lines [] has_pk indexes = []
column_lines (col ∷ rest) has_pk indexes =
    let pk = has_pk || col.primary_key in
    column_def_sql col
    ++ comma (not (none_of rest) || (pk || not (none_of indexes)))
    ++ "\n" ∷ column_lines rest pk indexes

-- The first column that is a primary key.
unfoldable pub primary_key_line : List ColumnDef → List IndexDef → Text
unfolding quote_ident
primary_key_line [] indexes = []
primary_key_line (col ∷ rest) indexes =
    let later = primary_key_line rest indexes in
    if col.primary_key
    then "    PRIMARY KEY (" ∷ quote_ident col.name
      ++ ")" ∷ comma (not (none_of indexes))
      ++ "\n" ∷ []
    else later

unfoldable pub ident_list : List String → Text
unfolding quote_ident
ident_list [] = []
ident_list (s ∷ []) = quote_ident s
ident_list (s ∷ t ∷ rest) = quote_ident s ++ ", " ∷ ident_list (t ∷ rest)

unfoldable pub index_sql : IndexDef → Text
unfolding quote_ident ident_list
index_sql idx =
    "    " ∷ (if idx.unique then "UNIQUE " ∷ [] else [])
    ++ "INDEX " ∷ quote_ident idx.name
    ++ " (" ∷ ident_list idx.columns
    ++ ")" ∷ []

unfoldable pub index_lines : List IndexDef → Text
unfolding index_sql
index_lines [] = []
index_lines (idx ∷ rest) = index_sql idx ++ comma (not (none_of rest)) ++ "\n" ∷ index_lines rest

-- What stands between the parentheses.
abbrev pub table_body : CreateTableOp → Text
table_body op =
    column_lines op.columns false op.indexes
    ++ primary_key_line op.columns op.indexes
    ++ index_lines op.indexes

unfoldable pub generate_create_table : CreateTableOp → Text
unfolding quote_ident column_lines primary_key_line index_lines
generate_create_table op =
    "CREATE TABLE IF NOT EXISTS " ∷ quote_ident op.table
    ++ " (\n" ∷ table_body op
    ++ ") ENGINE="
      ∷ op.engine
      ∷ " DEFAULT CHARSET="
      ∷ op.charset
      ∷ (if op.comment == "" then [] else " COMMENT='" ∷ op.comment ∷ "'" ∷ [])
    ++ ";" ∷ []

-- The statements of an alteration without the separators, in order.
abbrev pub added_columns : AlterTableOp → List ColumnDef → List Text
added_columns op [] = []
added_columns op (col ∷ rest) =
    (" ADD COLUMN\n" ∷ column_def_sql col
      ++ (if op.after_column == "" then [] else " AFTER " ∷ quote_ident op.after_column))
    ∷ added_columns op rest

abbrev pub dropped_columns : List String → List Text
dropped_columns [] = []
dropped_columns (name ∷ rest) = (" DROP COLUMN " ∷ quote_ident name) ∷ dropped_columns rest

abbrev pub modified_columns : List ColumnDef → List Text
modified_columns [] = []
modified_columns (col ∷ rest) = (" MODIFY COLUMN\n" ∷ column_def_sql col) ∷ modified_columns rest

-- `sep` before each of them.
unfoldable pub with_sep : String → (first : Bool) → List Text → Text
unfolding quote_ident
with_sep table first [] = if first then [] else ";" ∷ []
with_sep table first (t ∷ rest) =
    (if first then [] else ";\n" ∷ [])
    ++ "ALTER TABLE " ∷ quote_ident table
    ++ t
    ++ with_sep table false rest

unfoldable pub generate_alter_table : AlterTableOp → Text
unfolding with_sep
generate_alter_table op = with_sep op.table true (
    added_columns op op.add_columns
    ++ dropped_columns op.drop_columns
    ++ modified_columns op.modify_columns)

unfoldable pub generate_create_index : String → String → List String → Bool → Text
unfolding quote_ident ident_list
generate_create_index table name columns unique =
    "CREATE " ∷ (if unique then "UNIQUE " ∷ [] else [])
    ++ "INDEX " ∷ quote_ident name
    ++ " ON " ∷ quote_ident table
    ++ " (" ∷ ident_list columns
    ++ ");" ∷ []

unfoldable pub generate_drop_index : String → String → Text
unfolding quote_ident
generate_drop_index table name =
    "DROP INDEX " ∷ quote_ident name ++ " ON " ∷ quote_ident table ++ ";" ∷ []

unfoldable pub generate_drop_table : String → Bool → Text
unfolding quote_ident
generate_drop_table table if_exists =
    "DROP TABLE " ∷ (if if_exists then "IF EXISTS " ∷ [] else []) ++ quote_ident table ++ ";" ∷ []

-- A digit or a minus sign in front.
unfoldable pub is_numeric : String → Bool
is_numeric String.[] = false
is_numeric (String.◌∷◌ c s) = leb b'0' (code c) && leb (code c) b'9' || nat_beq (code c) b'-'

unfoldable pub seed_value : String → Text
unfolding is_numeric
seed_value val =
    if is_numeric val
      || (val == "NULL" || (val == "TRUE" || (val == "FALSE" || val == "CURRENT_TIMESTAMP")))
    then val ∷ []
    else "'" ∷ val ∷ "'" ∷ []

unfoldable pub seed_row : List (String × String) → Text
unfolding seed_value
seed_row [] = []
seed_row ((c, v) ∷ []) = seed_value v
seed_row ((c, v) ∷ x ∷ rest) = seed_value v ++ ", " ∷ seed_row (x ∷ rest)

unfoldable pub seed_rows : List (List (String × String)) → Text
unfolding seed_row
seed_rows [] = []
seed_rows (row ∷ rest) =
    "    (" ∷ seed_row row ++ ")" ∷ comma (not (none_of rest)) ++ "\n" ∷ seed_rows rest

abbrev pub column_names : List (String × String) → List String
column_names [] = []
column_names ((c, v) ∷ rest) = c ∷ column_names rest

unfoldable pub generate_seed_data : SeedDataOp → Text
unfolding quote_ident ident_list seed_rows
generate_seed_data op = elim op.rows [
  | [] ↦ []
  | first_row ∷ rest ↦
      "INSERT IGNORE INTO " ∷ quote_ident op.table
      ++ " (" ∷ ident_list (column_names first_row)
      ++ ") VALUES\n" ∷ seed_rows (first_row ∷ rest)
      ++ ";" ∷ []
]

unfoldable pub operation_to_sql : Operation → Text
unfolding generate_create_table generate_alter_table generate_create_index generate_drop_index
    generate_drop_table generate_seed_data
operation_to_sql (create_table op) = generate_create_table op
operation_to_sql (alter_table op) = generate_alter_table op
operation_to_sql (create_index table name columns unique) =
    generate_create_index table name columns unique
operation_to_sql (drop_index table name) = generate_drop_index table name
operation_to_sql (drop_table table if_exists) = generate_drop_table table if_exists
operation_to_sql (seed_data op) = generate_seed_data op
