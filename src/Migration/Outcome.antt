-- ===== src/Migration/Outcome.antt =====
-- What a run of the tool does to the database.
use mathlib.Core.List.{append_assoc, append-nil}
use mathlib.Core.Path.{subst}
use tg_chat_server.Prelude.{
  ℕ, ◌≡◌, ◌⊎◌, inl, inr, refl, sym, ap, ◌∙◌, Bool, true, false, List, [], ◌∷◌, ◌++◌, if◌then◌else◌,
  Bool-cases,
}
use tg_chat_server.Migration.Engine.{
  MigrationFile, AppliedMigration, Call, Answers, exec_sql, exec_all, apply_migration,
  all_statements, is_applied, apply_pending, all_intact, files_of, migrate, migrate_files, connect,
  connects, create_version_table, select_rows, ensure_version_table, load_applied_migrations,
}
use tg_chat_server.Migration.Calls.{
  applying, accepted, accepted-append, IsUndone, applied, undone, apply_migration-Ends,
}

-- The files whose version has no row.
abbrev pub pending : List AppliedMigration → List (MigrationFile × ℕ) → List (MigrationFile × ℕ)
pending rows [] = []
pending rows ((mf, ms) ∷ rest) =
    if is_applied mf.version rows then pending rows rest else (mf, ms) ∷ pending rows rest

abbrev pub all_calls : List (MigrationFile × ℕ) → List Call
all_calls [] = []
all_calls ((mf, ms) ∷ rest) = applying mf ms ++ all_calls rest

-- The call that connects, if there is no connection yet.
abbrev pub greeting : (connected : Bool) → List Call
greeting connected = if connected then [] else connects ∷ []

-- How the run over pending files ends: the database accepts all their calls, or those of the files
-- before one, of which it refuses a call.
pub data Runs (ok : Answers) (files : List (MigrationFile × ℕ)) (calls : List Call)
    (q : List Call × Bool) : Type 0 where
  finished :
      accepted ok calls (all_calls files) ≡ true
      → q ≡ (calls ++ all_calls files, true)
      → Runs ok files calls q
  stopped :
      (done : List (MigrationFile × ℕ)) (mf : MigrationFile) (ms : ℕ)
      (rest : List (MigrationFile × ℕ)) (more : List Call)
      → files ≡ done ++ (mf, ms) ∷ rest
      → accepted ok calls (all_calls done) ≡ true
      → IsUndone ok mf ms (calls ++ all_calls done) more
      → q ≡ (calls ++ all_calls done ++ more, false)
      → Runs ok files calls q

-- One more file that is applied in front.
Runs-cons :
    (ok : Answers) (mf : MigrationFile) (ms : ℕ) (files : List (MigrationFile × ℕ))
    (calls : List Call) (q : List Call × Bool)
    → accepted ok calls (applying mf ms) ≡ true
    → Runs ok files (calls ++ applying mf ms) q
    → Runs ok ((mf, ms) ∷ files) calls q
Runs-cons ok mf ms files calls q a (finished b e) =
    finished (accepted-append ok calls (applying mf ms) (all_calls files) a b)
      (e ∙ ap (λ t. (t, true)) (append_assoc calls (applying mf ms) (all_calls files)))
Runs-cons ok mf ms files calls q a (stopped done mf' ms' rest more l b u e) =
    let assoc = append_assoc calls (applying mf ms) (all_calls done) in
    stopped ((mf, ms) ∷ done) mf' ms' rest more (ap (◌∷◌ (mf, ms)) l)
      (accepted-append ok calls (applying mf ms) (all_calls done) a b)
      (subst (λ t. IsUndone ok mf' ms' t more) assoc u) (e ∙ ap (λ t. (t ++ more, false)) assoc)

-- How a run of the tool ends that is no dry run.
pub data Outcome (ok : Answers) (connected : Bool) (stored : List AppliedMigration)
    (files : List (MigrationFile × ℕ)) (calls : List Call) (q : List Call × Bool) : Type 0 where
  not_connected :
      connected ≡ false
      → ok calls connects ≡ false
      → q ≡ (calls ++ connects ∷ [], false)
      → Outcome ok connected stored files calls q
  no_table :
      (before : List Call)
      → before ≡ calls ++ greeting connected
      → accepted ok calls (greeting connected) ≡ true
      → ok before create_version_table ≡ false
      → q ≡ (before ++ create_version_table ∷ [], false)
      → Outcome ok connected stored files calls q
  compared :
      (before : List Call) (rows : List AppliedMigration)
      → before ≡ (calls ++ greeting connected) ++ create_version_table ∷ []
      → accepted ok calls (greeting connected ++ create_version_table ∷ []) ≡ true
      → rows ≡ (if ok before select_rows then stored else [])
      → ((all_intact (files_of files) rows ≡ false) × (q ≡ (before ++ select_rows ∷ [], false)))
        ⊎ ((all_intact (files_of files) rows ≡ true)
            × Runs ok (pending rows files) (before ++ select_rows ∷ []) q)
      → Outcome ok connected stored files calls q

module _ (ok : Answers) (rows : List AppliedMigration) where
  apply_pending-Runs :
      (files : List (MigrationFile × ℕ)) (calls : List Call)
      → Runs ok (pending rows files) calls (apply_pending ok false calls rows files)
  unfolding apply_pending
  apply_pending-Runs [] calls = finished refl (ap (λ t. (t, true)) (sym (append-nil calls)))
  apply_pending-Runs ((mf, ms) ∷ rest) calls = elim (Bool-cases (is_applied mf.version rows)) [
    | inl a ↦ rw (apply_pending, a) (apply_pending-Runs rest calls)
    | inr a ↦ elim (apply_migration-Ends ok mf ms calls) [
      | undone more u e ↦
          rw (apply_pending, a, e)
            (stopped [] mf ms (pending rows rest) more refl refl
              (subst (λ t. IsUndone ok mf ms t more) (sym (append-nil calls)) u)
              (ap (λ t. (t ++ more, false)) (sym (append-nil calls))))
      | applied b e ↦
          rw (apply_pending, a, e)
            (Runs-cons ok mf ms (pending rows rest) calls _ b
              (apply_pending-Runs rest (calls ++ applying mf ms)))
    ]
  ]

  pub migrate_files-Runs :
      (files : List (MigrationFile × ℕ)) (calls : List Call)
      → ((all_intact (files_of files) rows ≡ false)
          × (migrate_files ok false calls rows files ≡ (calls, false)))
        ⊎ ((all_intact (files_of files) rows ≡ true)
            × Runs ok (pending rows files) calls (migrate_files ok false calls rows files))
  unfolding migrate_files
  migrate_files-Runs files calls = elim (Bool-cases (all_intact (files_of files) rows)) [
    | inr e ↦ inl (e, rw (migrate_files, e) refl)
    | inl e ↦ inr (e, rw (migrate_files, e) (apply_pending-Runs files calls))
  ]

  exec_all-dry :
      (calls : List Call) (ss : List (List ℕ)) → exec_all ok true calls ss ≡ (calls, true)
  unfolding exec_all exec_sql
  exec_all-dry calls [] = refl
  exec_all-dry calls (s ∷ rest) = exec_all-dry calls rest

  apply_pending-dry :
      (files : List (MigrationFile × ℕ)) (calls : List Call)
      → apply_pending ok true calls rows files ≡ (calls, true)
  unfolding apply_pending apply_migration
  apply_pending-dry [] calls = refl
  apply_pending-dry ((mf, ms) ∷ rest) calls = elim (Bool-cases (is_applied mf.version rows)) [
    | inl a ↦ rw (apply_pending, a) (apply_pending-dry rest calls)
    | inr a ↦
        rw (apply_pending, a, exec_all-dry calls (all_statements mf.operations))
          (apply_pending-dry rest calls)
  ]

  migrate_files-dry :
      (files : List (MigrationFile × ℕ)) (calls : List Call)
      → migrate_files ok true calls rows files ≡ (calls, all_intact (files_of files) rows)
  unfolding migrate_files
  migrate_files-dry files calls = elim (Bool-cases (all_intact (files_of files) rows)) [
    | inr e ↦ rw (migrate_files, e) refl
    | inl e ↦ rw (migrate_files, e) (apply_pending-dry files calls)
  ]

module _ (ok : Answers) (stored : List AppliedMigration) (files : List (MigrationFile × ℕ)) where
  -- The part of `migrate` once there is a connection.
  connected_run :
      (before calls : List Call) (connected : Bool)
      → connect ok connected calls ≡ (before, true)
      → before ≡ calls ++ greeting connected
      → accepted ok calls (greeting connected) ≡ true
      → Outcome ok connected stored files calls (migrate ok false connected stored calls files)
  unfolding migrate ensure_version_table exec_sql load_applied_migrations
  connected_run before calls connected c b a = elim (Bool-cases (ok before create_version_table)) [
    | inr f ↦ no_table before b a f (rw (migrate, c, f) refl)
    | inl t ↦
        let v = before ++ create_version_table ∷ [] in
        let rows = if ok v select_rows then stored else [] in
        let m = ok (calls ++ greeting connected) create_version_table in
        let e : migrate ok false connected stored calls files
            ≡ migrate_files ok false (v ++ select_rows ∷ []) rows files =
          rw (migrate, c, t) refl in
        let t' : m ≡ true = ap (λ u. ok u create_version_table) (sym b) ∙ t in
        compared v rows (ap (λ u. u ++ create_version_table ∷ []) b)
          (accepted-append ok calls (greeting connected) (create_version_table ∷ []) a (rw t' refl))
          refl (rw e (migrate_files-Runs ok rows files (v ++ select_rows ∷ [])))
  ]

  -- A run that is no dry run connects, unless there is a connection, creates the version table, and
  -- reads the rows, which are none if that is refused; it fails at once if connecting or the table is
  -- refused, and after reading the rows if the file of a row is missing or has another checksum.
  -- Otherwise it applies the files without a row in their order, each with its statements, its row
  -- and a commit: all of them if the database accepts all these calls, or those before the first of
  -- which the database refuses a call, after which that one, if it was begun, is rolled back.
  pub migrate-Outcome :
      (connected : Bool) (calls : List Call)
      → Outcome ok connected stored files calls (migrate ok false connected stored calls files)
  unfolding connect
  migrate-Outcome true calls = connected_run calls calls true refl (sym (append-nil calls)) refl
  migrate-Outcome false calls = elim (Bool-cases (ok calls connects)) [
    | inr f ↦ not_connected refl f (
        unfold migrate ensure_version_table exec_sql load_applied_migrations in
        rw (migrate, f) refl)
    | inl t ↦ connected_run (calls ++ connects ∷ []) calls false (rw t refl) refl (rw t refl)
  ]
