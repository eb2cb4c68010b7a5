-- ===== src/Migration/Again.antt =====
-- A run after one that has finished.
use mathlib.Core.List.{Memᴰ, append_assoc, append-nil}
use mathlib.Core.List.Memᴰ
use tg_chat_server.Prelude.{
  ℕ, ◌≡◌, inl, inr, refl, sym, ap, ◌∙◌, arith, Bool, true, false, none, some, List, [], ◌∷◌, ◌++◌,
  nat_beq, Bool-cases, if◌then◌else◌, string_key, same_refl,
}
use tg_chat_server.Migration.Engine.{
  MigrationFile, AppliedMigration, Call, Answers, row_of, file_of, is_intact, all_intact,
  is_applied, apply_pending, files_of, migrate, migrate_files, select_rows, create_version_table,
  connects, connect, ensure_version_table, exec_sql, load_applied_migrations,
}
use tg_chat_server.Migration.Calls.{accepted}
use tg_chat_server.Migration.Outcome.{pending, greeting}

-- No two files have the same version.
pub data IsDistinct : List MigrationFile → Type 0 where
  empty : IsDistinct []
  add :
      (f : MigrationFile) (rest : List MigrationFile)
      → file_of f.version rest ≡ none
      → IsDistinct rest
      → IsDistinct (f ∷ rest)

-- The rows of the files.
abbrev pub recorded : List (MigrationFile × ℕ) → List AppliedMigration
recorded [] = []
recorded ((mf, ms) ∷ rest) = row_of mf ∷ recorded rest

file_of_lem :
    (files : List MigrationFile) (f : MigrationFile)
    → IsDistinct files
    → Memᴰ f files
    → file_of f.version files ≡ some f
unfolding file_of
file_of_lem [] f d m = elim m [ ]
file_of_lem (x ∷ rest) f (add _ _ e d) m = elim (Memᴰ.cases_cons m) [
  | inl q ↦ rw q (ground arith)
  | inr n ↦
      let ih = file_of_lem rest f d n in
      elim (Bool-cases (nat_beq x.version f.version)) [
        | inr t ↦ ground (arith, ih)
        | inl t ↦
            let v : x.version ≡ f.version = ground arith in
            absurd (ground (arith, sym (ap (λ k. file_of k rest) v) ∙ e, ih))
      ]
]

all_intact-append :
    (files : List MigrationFile) (rows more : List AppliedMigration)
    → all_intact files rows ≡ true
    → all_intact files more ≡ true
    → all_intact files (rows ++ more) ≡ true
unfolding all_intact
all_intact-append files [] more p q = q
all_intact-append files (a ∷ rest) more p q = ground (arith, all_intact-append files rest more)

all_intact-recorded :
    (files : List MigrationFile) (sub : List (MigrationFile × ℕ))
    → IsDistinct files
    → ((f : MigrationFile) → Memᴰ f (files_of sub) → Memᴰ f files)
    → all_intact files (recorded sub) ≡ true
unfolding all_intact is_intact
all_intact-recorded files [] d s = refl
all_intact-recorded files ((mf, ms) ∷ rest) d s =
    let e = file_of_lem files mf d (s mf (Memᴰ.head refl)) in
    let one : is_intact files (row_of mf) ≡ true = rw (is_intact, e) (same_refl mf.checksum) in
    ground (arith, one, all_intact-recorded files rest d (λ f m. s f (Memᴰ.tail m)))

pending-member :
    (rows : List AppliedMigration) (files : List (MigrationFile × ℕ)) (f : MigrationFile)
    → Memᴰ f (files_of (pending rows files))
    → Memᴰ f (files_of files)
pending-member rows [] f m = m
pending-member rows ((mf, ms) ∷ rest) f m = elim (Bool-cases (is_applied mf.version rows)) [
  | inl a ↦ Memᴰ.tail (pending-member rows rest f ((rw a at m)))
  | inr a ↦ elim (Memᴰ.cases_cons (rw a at m)) [
    | inl e ↦ Memᴰ.head e
    | inr n ↦ Memᴰ.tail (pending-member rows rest f n)
  ]
]

is_applied-left :
    (v : ℕ) (rows more : List AppliedMigration)
    → is_applied v rows ≡ true
    → is_applied v (rows ++ more) ≡ true
unfolding is_applied
is_applied-left v [] more e = absurd (ground arith)
is_applied-left v (a ∷ rest) more e = ground (arith, is_applied-left v rest more)

is_applied-right :
    (v : ℕ) (rows more : List AppliedMigration)
    → is_applied v more ≡ true
    → is_applied v (rows ++ more) ≡ true
unfolding is_applied
is_applied-right v [] more e = e
is_applied-right v (a ∷ rest) more e = ground (arith, is_applied-right v rest more e)

is_applied-recorded :
    (f : MigrationFile) (sub : List (MigrationFile × ℕ))
    → Memᴰ f (files_of sub)
    → is_applied f.version (recorded sub) ≡ true
unfolding is_applied
is_applied-recorded f [] m = elim m [ ]
is_applied-recorded f ((mf, ms) ∷ rest) m = elim (Memᴰ.cases_cons m) [
  | inl e ↦ ground (arith, ap (λ (x : MigrationFile). x.version) e)
  | inr n ↦ ground (arith, is_applied-recorded f rest n)
]

-- With rows for all the files no call is made.
apply_pending-idle :
    (ok : Answers) (dry : Bool) (rows : List AppliedMigration) (files : List (MigrationFile × ℕ))
    (calls : List Call)
    → ((f : MigrationFile) → Memᴰ f (files_of files) → is_applied f.version rows ≡ true)
    → apply_pending ok dry calls rows files ≡ (calls, true)
unfolding apply_pending
apply_pending-idle ok dry rows [] calls h = refl
apply_pending-idle ok dry rows ((mf, ms) ∷ rest) calls h =
    rw (apply_pending, h mf (Memᴰ.head refl))
      (apply_pending-idle ok dry rows rest calls (λ f m. h f (Memᴰ.tail m)))

-- What a run calls before it reads the rows.
abbrev pub opening : (dry connected : Bool) → List Call
opening dry connected = greeting connected ++ (if dry then [] else create_version_table ∷ [])

-- A run whose opening the database accepts, and which does nothing then.
opened_run :
    (ok : Answers) (dry connected : Bool) (stored : List AppliedMigration)
    (files : List (MigrationFile × ℕ)) (calls : List Call)
    → accepted ok calls (opening dry connected ++ select_rows ∷ []) ≡ true
    → ((done : List Call) → migrate_files ok dry done stored files ≡ (done, true))
    → migrate ok dry connected stored calls files
      ≡ (calls ++ opening dry connected ++ select_rows ∷ [], true)
unfolding migrate connect ensure_version_table exec_sql load_applied_migrations
opened_run ok true true stored files calls a idle =
    let k : ok calls select_rows ≡ true = ground (arith, a) in
    rw (migrate, k)
      (idle (calls ++ select_rows ∷ [])
        ∙ ap (λ u. (u ++ select_rows ∷ [], true)) (sym (append-nil calls)))
opened_run ok true false stored files calls a idle =
    let c : ok calls connects ≡ true = ground (arith, a) in
    let k : ok (calls ++ connects ∷ []) select_rows ≡ true = ground (arith, a) in
    rw (migrate, c, k) (idle ((calls ++ connects ∷ []) ++ select_rows ∷ []))
opened_run ok false true stored files calls a idle =
    let v : ok calls create_version_table ≡ true = ground (arith, a) in
    let k : ok (calls ++ create_version_table ∷ []) select_rows ≡ true = ground (arith, a) in
    rw (migrate, v, k) (idle ((calls ++ create_version_table ∷ []) ++ select_rows ∷ []))
opened_run ok false false stored files calls a idle =
    let opened = calls ++ connects ∷ [] in
    let c : ok calls connects ≡ true = ground (arith, a) in
    let v : ok opened create_version_table ≡ true = ground (arith, a) in
    let k : ok (opened ++ create_version_table ∷ []) select_rows ≡ true = ground (arith, a) in
    rw (migrate, c, v, k)
      (idle ((opened ++ create_version_table ∷ []) ++ select_rows ∷ [])
        ∙ ap (λ u. (u ++ select_rows ∷ [], true))
            (append_assoc calls (connects ∷ []) (create_version_table ∷ [])))

-- Every file has a row once the pending ones are recorded.
all_applied :
    (rows : List AppliedMigration) (files : List (MigrationFile × ℕ)) (f : MigrationFile)
    → Memᴰ f (files_of files)
    → is_applied f.version rows ≡ false
    → Memᴰ f (files_of (pending rows files))
all_applied rows [] f m e = m
all_applied rows ((mf, ms) ∷ rest) f m e = elim (Bool-cases (is_applied mf.version rows)) [
  | inl a ↦ elim (Memᴰ.cases_cons m) [
    | inl q ↦ absurd (ground (arith, ap (λ (x : MigrationFile). is_applied x.version rows) q))
    | inr n ↦ rw a (all_applied rows rest f n e)
  ]
  | inr a ↦ elim (Memᴰ.cases_cons m) [
    | inl q ↦ rw a (Memᴰ.head q)
    | inr n ↦ rw a (Memᴰ.tail (all_applied rows rest f n e))
  ]
]

-- The stored rows are those of a run that applied all pending files on top of some rows, of which
-- all files were intact, and no two files have one version. Another run over the same files, where
-- connecting, creating the version table and reading the rows succeed, makes these three calls (a dry
-- run leaves the creation out, and a run that is connected does not connect) and no other, and
-- succeeds.
pub migrate-again :
    (ok : Answers) (dry connected : Bool) (rows : List AppliedMigration)
    (files : List (MigrationFile × ℕ)) (calls : List Call)
    → IsDistinct (files_of files)
    → all_intact (files_of files) rows ≡ true
    → accepted ok calls (opening dry connected ++ select_rows ∷ []) ≡ true
    → migrate ok dry connected (rows ++ recorded (pending rows files)) calls files
      ≡ (calls ++ opening dry connected ++ select_rows ∷ [], true)
unfolding migrate migrate_files connect ensure_version_table exec_sql load_applied_migrations
migrate-again ok dry connected rows files calls d i a =
    let new = recorded (pending rows files) in
    let whole : all_intact (files_of files) (rows ++ new) ≡ true =
      all_intact-append (files_of files) rows new i
        (all_intact-recorded (files_of files) (pending rows files) d (pending-member rows files)) in
    let each : (f : MigrationFile)
        → Memᴰ f (files_of files)
        → is_applied f.version (rows ++ new) ≡ true =
      λ f m. elim (Bool-cases (is_applied f.version rows)) [
        | inl a ↦ is_applied-left f.version rows new a
        | inr a ↦
            is_applied-right f.version rows new
              (is_applied-recorded f (pending rows files) (all_applied rows files f m a))
      ] in
    let idle : (done : List Call) → migrate_files ok dry done (rows ++ new) files ≡ (done, true) =
      λ done. rw (migrate_files, whole) (apply_pending-idle ok dry (rows ++ new) files done each) in
    opened_run ok dry connected (rows ++ new) files calls a idle
