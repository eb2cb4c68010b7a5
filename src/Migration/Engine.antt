-- ===== src/Migration/Engine.antt =====
-- server/tools/dbmigrate/MigrationEngine.h, MigrationEngine.cpp and XmlParser.h. A run of the tool is
-- the list of the calls that it makes of the database, in order; what the database answers to a
-- call, which may depend on all calls before it, is an argument, and so are the rows that it
-- returns, the files with their checksums, and the times. The text of a statement is the list of its
-- characters; connecting, the version table's CREATE and SELECT, and the row of a migration are calls
-- of their own, not texts. The settings of the connection, whose result the tool does not look at,
-- are left out.
use Prim.Native.Char.{code}
use tg_chat_server.Prelude.{
  ℕ, Bool, true, false, ◌||◌, Option, none, some, List, [], ◌∷◌, ◌++◌, String, nat_beq,
  if◌then◌else◌, ◌==◌, string_key,
}
use tg_chat_server.Migration.Sql.{Text, Operation, operation_to_sql}

pub record MigrationFile : Type 0 where
  pub version : ℕ
  pub description : String
  pub filename : String
  pub operations : List Operation
  pub checksum : String

pub record AppliedMigration : Type 0 where
  pub version : ℕ
  pub description : String
  pub filename : String
  pub checksum : String

pub data Call : Type 0 where
  connects create_version_table select_rows : Call
  start commit rollback : Call
  statement : List ℕ → Call
  record_row : AppliedMigration → (ms : ℕ) → Call

-- Whether a call succeeds after the calls before it.
abbrev pub Answers : Type 0
Answers = List Call → Call → Bool

abbrev pub chars : String → List ℕ
chars String.[] = []
chars (String.◌∷◌ c s) = code c ∷ chars s

abbrev pub written : Text → List ℕ
written [] = []
written (s ∷ rest) = chars s ++ written rest

unfoldable pub is_space : ℕ → Bool
is_space c = nat_beq c b' ' || (nat_beq c b'\t' || (nat_beq c b'\r' || nat_beq c b'\n'))

unfoldable pub trim_left : List ℕ → List ℕ
trim_left [] = []
trim_left (c ∷ rest) = let later = trim_left rest in if is_space c then later else c ∷ rest

-- A character that only blanks follow ends the list.
unfoldable pub trim_right : List ℕ → List ℕ
trim_right [] = []
trim_right (c ∷ rest) = elim (trim_right rest) [
  | [] ↦ if is_space c then [] else c ∷ []
  | d ∷ later ↦ c ∷ d ∷ later
]

-- `std::getline(iss, stmt, ';')` until the end: no piece is read after a last semicolon.
unfoldable pub split_at : List ℕ → (piece : List ℕ) → List (List ℕ)
split_at [] [] = []
split_at [] (c ∷ piece) = (c ∷ piece) ∷ []
split_at (c ∷ rest) piece =
    let ended = piece ∷ split_at rest [] in
    let longer = split_at rest (piece ++ c ∷ []) in if nat_beq c b';' then ended else longer

unfoldable pub trimmed : List (List ℕ) → List (List ℕ)
unfolding trim_left trim_right
trimmed [] = []
trimmed (p ∷ rest) = elim (trim_right (trim_left p)) [
  | [] ↦ trimmed rest
  | c ∷ s ↦ (c ∷ s) ∷ trimmed rest
]

unfoldable pub statements_of : Operation → List (List ℕ)
unfolding split_at trimmed
statements_of op = trimmed (split_at (written (operation_to_sql op)) [])

unfoldable pub all_statements : List Operation → List (List ℕ)
unfolding statements_of
all_statements [] = []
all_statements (op ∷ rest) = statements_of op ++ all_statements rest

-- `execSQL`
unfoldable pub exec_sql : Answers → (dry_run : Bool) → List Call → Call → List Call × Bool
exec_sql ok dry_run calls c = if dry_run then (calls, true) else (calls ++ c ∷ [], ok calls c)

unfoldable pub roll_back : (dry_run : Bool) → List Call → List Call
roll_back dry_run calls = if dry_run then calls else calls ++ rollback ∷ []

-- The statements up to the first that fails.
unfoldable pub exec_all : Answers → Bool → List Call → List (List ℕ) → List Call × Bool
unfolding exec_sql
exec_all ok dry calls [] = (calls, true)
exec_all ok dry calls (s ∷ rest) =
    let q = exec_sql ok dry calls (statement s) in
    let later = exec_all ok dry q.0 rest in if q.1 then later else (q.0, false)

abbrev pub row_of : MigrationFile → AppliedMigration
row_of mf = record {
  version = mf.version;
  description = mf.description;
  filename = mf.filename;
  checksum = mf.checksum;
}

-- The row of the migration, and the commit.
unfoldable pub finish_migration : Answers → Bool → List Call → MigrationFile → ℕ → List Call × Bool
unfolding exec_sql roll_back
finish_migration ok dry calls mf ms =
    let q = exec_sql ok dry calls (record_row (row_of mf) ms) in
    let committed =
      if ok q.0 commit
      then (q.0 ++ commit ∷ [], true)
      else ((q.0 ++ commit ∷ []) ++ rollback ∷ [], false) in
    if q.1 then (if dry then (q.0, true) else committed) else (roll_back dry q.0, false)

unfoldable pub apply_migration : Answers → Bool → List Call → MigrationFile → ℕ → List Call × Bool
unfolding exec_sql exec_all roll_back finish_migration all_statements
apply_migration ok dry calls mf ms =
    let s = exec_sql ok dry calls start in
    let b = exec_all ok dry s.0 (all_statements mf.operations) in
    if s.1 then if b.1 then finish_migration ok dry b.0 mf ms else (roll_back dry b.0, false) else s

-- The first file with the version.
unfoldable pub file_of : ℕ → List MigrationFile → Option MigrationFile
file_of v [] = none
file_of v (f ∷ rest) = let later = file_of v rest in if nat_beq f.version v then some f else later

unfoldable pub is_intact : List MigrationFile → AppliedMigration → Bool
unfolding file_of
is_intact files a = elim (file_of a.version files) [
  | none ↦ false
  | some f ↦ f.checksum == a.checksum
]

unfoldable pub all_intact : List MigrationFile → List AppliedMigration → Bool
unfolding is_intact
all_intact files [] = true
all_intact files (a ∷ rest) =
    let later = all_intact files rest in if is_intact files a then later else false

-- `applied_map.count(version)`
unfoldable pub is_applied : ℕ → List AppliedMigration → Bool
is_applied v [] = false
is_applied v (a ∷ rest) =
    let later = is_applied v rest in if nat_beq a.version v then true else later

-- The loop over the files, which are sorted by version; `ms` is the duration of each.
unfoldable pub apply_pending :
    Answers → Bool → List Call → List AppliedMigration → List (MigrationFile × ℕ) → List Call × Bool
unfolding apply_migration is_applied
apply_pending ok dry calls applied [] = (calls, true)
apply_pending ok dry calls applied ((mf, ms) ∷ rest) =
    let q = apply_migration ok dry calls mf ms in
    let skipped = apply_pending ok dry calls applied rest in
    let later = apply_pending ok dry q.0 applied rest in
    if is_applied mf.version applied then skipped else if q.1 then later else (q.0, false)

abbrev pub files_of : List (MigrationFile × ℕ) → List MigrationFile
files_of [] = []
files_of ((mf, ms) ∷ rest) = mf ∷ files_of rest

-- `migrate` from the comparison of the files with the rows on.
unfoldable pub migrate_files :
    Answers → Bool → List Call → List AppliedMigration → List (MigrationFile × ℕ) → List Call × Bool
unfolding all_intact apply_pending
migrate_files ok dry calls applied files =
    if all_intact (files_of files) applied
    then apply_pending ok dry calls applied files
    else (calls, false)

unfoldable pub connect : Answers → (connected : Bool) → List Call → List Call × Bool
connect ok connected calls =
    if connected then (calls, true) else (calls ++ connects ∷ [], ok calls connects)

unfoldable pub ensure_version_table : Answers → Bool → List Call → List Call × Bool
unfolding exec_sql
ensure_version_table ok dry calls = exec_sql ok dry calls create_version_table

-- The rows of the version table, which a SELECT that fails takes to be empty.
unfoldable pub load_applied_migrations :
    Answers → (stored : List AppliedMigration) → List Call → List Call × List AppliedMigration
load_applied_migrations ok stored calls =
    (calls ++ select_rows ∷ [], if ok calls select_rows then stored else [])

unfoldable pub migrate :
    Answers
    → Bool
    → (connected : Bool) → (stored : List AppliedMigration) → List Call
    → List (MigrationFile × ℕ)
    → List Call × Bool
unfolding connect ensure_version_table load_applied_migrations migrate_files
migrate ok dry connected stored calls files =
    let c = connect ok connected calls in
    let v = ensure_version_table ok dry c.0 in
    let l = load_applied_migrations ok stored v.0 in
    if c.1 then if v.1 then migrate_files ok dry l.0 l.1 files else (v.0, false) else (c.0, false)

-- `status`: whether each file is applied, and the rows whose file is missing.
unfoldable pub statuses : List AppliedMigration → List MigrationFile → List (ℕ × Bool)
unfolding is_applied
statuses applied [] = []
statuses applied (f ∷ rest) = (f.version, is_applied f.version applied) ∷ statuses applied rest

unfoldable pub orphans : List MigrationFile → List AppliedMigration → List AppliedMigration
unfolding file_of
orphans files [] = []
orphans files (a ∷ rest) = elim (file_of a.version files) [
  | none ↦ a ∷ orphans files rest
  | some f ↦ orphans files rest
]
