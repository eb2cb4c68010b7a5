-- ===== src/Migration/Commands.antt =====
-- server/tools/dbmigrate/MigrationEngine.cpp: the commands that empty or rebuild a database, over the
-- same calls as a run. The tables that the database lists are an argument.
use tg_chat_server.Prelude.{
  ℕ, ◌+◌, Bool, true, List, [], ◌∷◌, String, nat_beq, if◌then◌else◌, ◌==◌, string_key, length,
}
use tg_chat_server.Migration.Engine.{Call, statement, Answers, written, exec_sql, trimmed, split_at}

-- The listed tables but the version table.
unfoldable pub user_tables : List String → List String
user_tables [] = []
user_tables (t ∷ rest) =
    let later = user_tables rest in if t == "db_schema_version" then later else t ∷ later

-- One statement for each table; the number of those that succeed.
unfoldable pub exec_each :
    Answers → Bool → List Call → (before : String) → List String → List Call × ℕ
unfolding exec_sql
exec_each ok dry calls before [] = (calls, 0)
exec_each ok dry calls before (t ∷ rest) =
    let q = exec_sql ok dry calls (statement (written (before ∷ t ∷ "`" ∷ []))) in
    let later = exec_each ok dry q.0 before rest in (later.0, if q.1 then later.1 + 1 else later.1)

abbrev pub text_call : String → Call
text_call s = statement (written (s ∷ []))

unfoldable pub truncate_all : Answers → Bool → List Call → List String → List Call × Bool
unfolding exec_sql exec_each user_tables
truncate_all ok dry calls listed = elim (user_tables listed) [
  | [] ↦ (calls, true)
  | t ∷ rest ↦
      let off = (exec_sql ok dry calls (text_call "SET FOREIGN_KEY_CHECKS = 0")).0 in
      let q = exec_each ok dry off "TRUNCATE TABLE `" (t ∷ rest) in
      (
        (exec_sql ok dry q.0 (text_call "SET FOREIGN_KEY_CHECKS = 1")).0,
        nat_beq q.1 (length (t ∷ rest)),
      )
]

-- A statement that starts with a dash is taken for a comment.
unfoldable pub without_comments : List (List ℕ) → List (List ℕ)
without_comments [] = []
without_comments ([] ∷ rest) = without_comments rest
without_comments ((c ∷ s) ∷ rest) =
    let later = without_comments rest in if nat_beq c b'-' then later else (c ∷ s) ∷ later

-- The statements one after another, and the number of those that fail.
unfoldable pub exec_counting : Answers → Bool → List Call → List (List ℕ) → List Call × ℕ
unfolding exec_sql
exec_counting ok dry calls [] = (calls, 0)
exec_counting ok dry calls (s ∷ rest) =
    let q = exec_sql ok dry calls (statement s) in
    let later = exec_counting ok dry q.0 rest in (later.0, if q.1 then later.1 else later.1 + 1)

-- `rebuild` with the text of the file.
unfoldable pub rebuild : Answers → Bool → List Call → List String → List ℕ → List Call × Bool
unfolding exec_sql exec_each exec_counting user_tables without_comments split_at trimmed
rebuild ok dry calls listed content =
    let off = (exec_sql ok dry calls (text_call "SET FOREIGN_KEY_CHECKS = 0")).0 in
    let dropped = (exec_each ok dry off "DROP TABLE IF EXISTS `" (user_tables listed)).0 in
    let bare = (exec_sql ok dry dropped (text_call "DROP TABLE IF EXISTS `db_schema_version`")).0 in
    let on = (exec_sql ok dry bare (text_call "SET FOREIGN_KEY_CHECKS = 1")).0 in
    let q = exec_counting ok dry on (without_comments (trimmed (split_at content []))) in
    (q.0, nat_beq q.1 0)
