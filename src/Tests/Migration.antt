-- ===== src/Tests/Migration.antt =====
-- server/tools/dbmigrate at concrete inputs.
use tg_chat_server.Prelude.{ℕ, ◌≡◌, refl, Bool, true, false, List, String, [], ◌∷◌, ◌++◌}
use tg_chat_server.Migration.Sql.{
  ColumnDef, CreateTableOp, drop_table, quote_ident, operation_to_sql, generate_drop_table,
}
use tg_chat_server.Migration.Engine.{
  MigrationFile, AppliedMigration, Answers, chars, row_of, statements_of, all_intact, is_intact,
  file_of, files_of, migrate, migrate_files, connects, create_version_table, select_rows, start,
  statement, record_row, commit, rollback, connect, ensure_version_table, load_applied_migrations,
  exec_sql, is_applied, apply_pending, apply_migration, all_statements, exec_all, finish_migration,
  roll_back, split_at, trimmed, trim_left, trim_right, is_space,
}
use tg_chat_server.Migration.Outcome.{pending, Outcome, migrate-Outcome}
use tg_chat_server.Migration.Again.{IsDistinct, empty, add, recorded, migrate-again}

abbrev column : String → Bool → ColumnDef
column name key = record {
  name = name;
  type = "BIGINT";
  not_null = true;
  auto_increment = false;
  primary_key = key;
  default_val = "";
  on_update = "";
}

abbrev users : CreateTableOp
users = record {
  table = "users";
  columns = column "id" true ∷ column "age" false ∷ [];
  indexes = record { name = "idx"; columns = "age" ∷ []; unique = false } ∷ [];
  engine = "InnoDB";
  charset = "utf8mb4";
  comment = "";
}

-- Two files that each drop a table; the first one is applied.
abbrev dropping : ℕ → String → MigrationFile
dropping v table = record {
  version = v;
  description = "";
  filename = "";
  operations = drop_table table true ∷ [];
  checksum = "c";
}

abbrev files : List (MigrationFile × ℕ)
files = (dropping 1 "a", 5) ∷ (dropping 2 "b", 5) ∷ []

abbrev rows : List AppliedMigration
rows = row_of (dropping 1 "a") ∷ []

abbrev yes : Answers
yes calls c = true

abbrev refuses_rows : Answers
refuses_rows calls (record_row r ms) = false
refuses_rows calls _ = true

abbrev unreadable : Answers
unreadable calls select_rows = false
unreadable calls _ = true

abbrev files_before_two : List (MigrationFile × ℕ)
files_before_two = (dropping 1 "a", 5) ∷ []

one_statement : statements_of (drop_table "b" true) ≡ chars "DROP TABLE IF EXISTS `b`" ∷ []
unfolding statements_of operation_to_sql generate_drop_table quote_ident split_at trimmed trim_left
    trim_right is_space
one_statement = refl

files-IsDistinct : IsDistinct (files_of files)
unfolding file_of
files-IsDistinct =
    add (dropping 1 "a") (dropping 2 "b" ∷ []) refl (add (dropping 2 "b") [] refl empty)

migrate-Outcome_example :
    Outcome refuses_rows false rows files [] (migrate refuses_rows false false rows [] files)
migrate-Outcome_example = migrate-Outcome refuses_rows rows files false []

-- The second file's statement is accepted, its row is refused.
refused_row : migrate refuses_rows false true rows [] files ≡ (
  create_version_table
      ∷ select_rows
      ∷ start
      ∷ statement (chars "DROP TABLE IF EXISTS `b`")
      ∷ record_row (row_of (dropping 2 "b")) 5
      ∷ rollback
      ∷ [],
  false,
)
unfolding migrate migrate_files connect ensure_version_table load_applied_migrations exec_sql
    all_intact is_intact file_of is_applied apply_pending apply_migration all_statements exec_all
    finish_migration roll_back statements_of operation_to_sql generate_drop_table quote_ident
    split_at trimmed trim_left trim_right is_space
refused_row = refl

-- Where the rows cannot be read, the file that has one is applied again.
unread_rows :
    (migrate unreadable false true rows [] (files_before_two)).0
    ≡ create_version_table
      ∷ select_rows
      ∷ start
      ∷ statement (chars "DROP TABLE IF EXISTS `a`")
      ∷ record_row (row_of (dropping 1 "a")) 5
      ∷ commit
      ∷ []
unfolding migrate migrate_files connect ensure_version_table load_applied_migrations exec_sql
    all_intact is_intact file_of is_applied apply_pending apply_migration all_statements exec_all
    finish_migration roll_back statements_of operation_to_sql generate_drop_table quote_ident
    split_at trimmed trim_left trim_right is_space
unread_rows = refl

migrate-again_example :
    migrate yes false false (rows ++ recorded (pending rows files)) [] files
    ≡ (connects ∷ create_version_table ∷ select_rows ∷ [], true)
migrate-again_example =
    migrate-again yes false false rows files [] files-IsDistinct
      (unfold all_intact is_intact file_of in refl) refl
