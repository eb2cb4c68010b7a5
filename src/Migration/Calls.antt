-- ===== src/Migration/Calls.antt =====
-- The calls of the database that one migration makes.
use mathlib.Core.List.{append_assoc, append-nil}
use mathlib.Core.Path.{subst}
use tg_chat_server.Prelude.{
  ℕ, ◌≡◌, ◌⊎◌, inl, inr, refl, sym, ap, ◌∙◌, arith, Bool, true, false, List, [], ◌∷◌, ◌++◌, ◌&&◌,
  if◌then◌else◌, Bool-cases,
}
use tg_chat_server.Migration.Engine.{
  MigrationFile, Call, start, commit, rollback, statement, record_row, Answers, exec_sql, exec_all,
  roll_back, row_of, finish_migration, apply_migration, all_statements,
}

abbrev pub statement_calls : List (List ℕ) → List Call
statement_calls [] = []
statement_calls (s ∷ rest) = statement s ∷ statement_calls rest

-- The calls of a migration that is applied.
abbrev pub applying : MigrationFile → ℕ → List Call
applying mf ms =
    start ∷ statement_calls (all_statements mf.operations)
    ++ record_row (row_of mf) ms ∷ commit ∷ []

module _ (ok : Answers) where
  -- Whether the database accepts each of some calls after those before it.
  abbrev pub accepted : List Call → List Call → Bool
  accepted calls [] = true
  accepted calls (c ∷ rest) = ok calls c && accepted (calls ++ c ∷ []) rest

  pub accepted-append :
      (calls xs ys : List Call)
      → accepted calls xs ≡ true
      → accepted (calls ++ xs) ys ≡ true
      → accepted calls (xs ++ ys) ≡ true
  accepted-append calls [] ys p q = subst (λ t. accepted t ys ≡ true) (append-nil calls) q
  accepted-append calls (x ∷ xs) ys p q = elim (Bool-cases (ok calls x)) [
    | inr f ↦ absurd (ground (arith, f))
    | inl t ↦
        let p' : accepted (calls ++ x ∷ []) xs ≡ true = rw t at p in
        rw t (
          accepted-append (calls ++ x ∷ []) xs ys p'
            (subst (λ u. accepted u ys ≡ true) (sym (append_assoc calls (x ∷ []) xs)) q))
  ]

  -- How a migration that failed ends: the database accepted its first calls and refused the next
  -- one, after which the transaction, if it was opened, was rolled back.
  pub record IsUndone (mf : MigrationFile) (ms : ℕ) (calls more : List Call) : Type 0 where
    pub begun : List Call
    pub refused : Call
    pub rest : List Call
    pub in_order : applying mf ms ≡ begun ++ refused ∷ rest
    pub are_accepted : accepted calls begun ≡ true
    pub is_refused : ok (calls ++ begun) refused ≡ false
    pub nothing_open : more ≡ begun ++ refused ∷ elim begun [ [] ↦ [] | c ∷ cs ↦ rollback ∷ [] ]

  -- Calls up to the first that the database refuses.
  abbrev carry : List Call → List Call → List Call × Bool
  carry calls [] = (calls, true)
  carry calls (c ∷ rest) =
      if ok calls c then carry (calls ++ c ∷ []) rest else (calls ++ c ∷ [], false)

  carry-append :
      (calls xs ys : List Call)
      → carry calls (xs ++ ys)
        ≡ (if (carry calls xs).1 then carry (carry calls xs).0 ys else carry calls xs)
  carry-append calls [] ys = refl
  carry-append calls (x ∷ xs) ys = elim (Bool-cases (ok calls x)) [
    | inr f ↦ rw f refl
    | inl t ↦ rw t (carry-append (calls ++ x ∷ []) xs ys)
  ]

  exec_all-carry :
      (calls : List Call) (ss : List (List ℕ))
      → exec_all ok false calls ss ≡ carry calls (statement_calls ss)
  unfolding exec_all exec_sql
  exec_all-carry calls [] = refl
  exec_all-carry calls (s ∷ rest) = elim (Bool-cases (ok calls (statement s))) [
    | inr f ↦ rw (exec_all, f) refl
    | inl t ↦ rw (exec_all, t) (exec_all-carry (calls ++ statement s ∷ []) rest)
  ]

  record Stops (calls cs : List Call) : Type 0 where
    pub begun : List Call
    pub refused : Call
    pub rest : List Call
    pub in_order : cs ≡ begun ++ refused ∷ rest
    pub are_accepted : accepted calls begun ≡ true
    pub is_refused : ok (calls ++ begun) refused ≡ false
    pub stopped : carry calls cs ≡ (calls ++ begun ++ refused ∷ [], false)

  carry-cases :
      (calls cs : List Call)
      → ((accepted calls cs ≡ true) × (carry calls cs ≡ (calls ++ cs, true))) ⊎ Stops calls cs
  carry-cases calls [] = inl (refl, ap (λ t. (t, true)) (sym (append-nil calls)))
  carry-cases calls (c ∷ cs) = elim (Bool-cases (ok calls c)) [
    | inr f ↦ inr (record {
      begun = [];
      refused = c;
      rest = cs;
      in_order = refl;
      are_accepted = refl;
      is_refused = subst (λ t. ok t c ≡ false) (sym (append-nil calls)) f;
      stopped = rw f (ap (λ u. (u ++ c ∷ [], false)) (sym (append-nil calls)));
    })
    | inl t ↦ elim (carry-cases (calls ++ c ∷ []) cs) [
      | inl (a, e) ↦ inl (rw t a, rw t (e ∙ ap (λ u. (u, true)) (append_assoc calls (c ∷ []) cs)))
      | inr s ↦ inr (record {
        begun = c ∷ s.begun;
        refused = s.refused;
        rest = s.rest;
        in_order = ap (◌∷◌ c) s.in_order;
        are_accepted = rw t s.are_accepted;
        is_refused =
            subst (λ u. ok u s.refused ≡ false) (append_assoc calls (c ∷ []) s.begun) s.is_refused;
        stopped = rw t (
            s.stopped
            ∙ ap (λ u. (u ++ s.refused ∷ [], false)) (append_assoc calls (c ∷ []) s.begun));
      })
    ]
  ]

-- How a migration ends.
pub data Ends (ok : Answers) (mf : MigrationFile) (ms : ℕ) (calls : List Call)
    (q : List Call × Bool) : Type 0 where
  applied :
      accepted ok calls (applying mf ms) ≡ true
      → q ≡ (calls ++ applying mf ms, true)
      → Ends ok mf ms calls q
  undone :
      (more : List Call)
      → IsUndone ok mf ms calls more
      → q ≡ (calls ++ more, false)
      → Ends ok mf ms calls q

module _ (ok : Answers) (mf : MigrationFile) (ms : ℕ) where
  -- A result, with a rollback if it is a failure.
  abbrev settled : List Call × Bool → List Call × Bool
  settled q = if q.1 then q else (q.0 ++ rollback ∷ [], false)

  ends :
      (calls : List Call) (q r : List Call × Bool)
      → q ≡ r
      → apply_migration ok false calls mf ms ≡ settled r
      → apply_migration ok false calls mf ms ≡ settled q
  ends calls q r e d = d ∙ sym (ap settled e)

  -- The calls of the transaction once it is open, and a rollback if one of them was refused.
  apply_migration-carry :
      (calls : List Call)
      → ok calls start ≡ true
      → let q = carry ok (calls ++ start ∷ []) (
          statement_calls (all_statements mf.operations)
          ++ record_row (row_of mf) ms ∷ commit ∷ []) in
        apply_migration ok false calls mf ms ≡ settled q
  unfolding apply_migration exec_sql roll_back finish_migration
  apply_migration-carry calls t =
      let opened = calls ++ start ∷ [] in
      let cs = statement_calls (all_statements mf.operations) in
      let b = carry ok opened cs in
      let row = record_row (row_of mf) ms in
      let all = carry ok opened (cs ++ row ∷ commit ∷ []) in
      let split = carry-append ok opened cs (row ∷ commit ∷ []) in
      elim (Bool-cases b.1) [
        | inr f ↦
            let e : all ≡ (b.0, false) = split ∙ rw f (ap (λ x. (b.0, x)) f) in
            ends calls all (b.0, false) e
              (rw (apply_migration, t, exec_all-carry ok opened (all_statements mf.operations), f)
                refl)
        | inl g ↦ elim (Bool-cases (ok b.0 row)) [
          | inr f ↦
              let e : all ≡ (b.0 ++ row ∷ [], false) = split ∙ rw (g, f) refl in
              ends calls all (b.0 ++ row ∷ [], false) e
                (rw
                  (
                    apply_migration,
                    t,
                    exec_all-carry ok opened (all_statements mf.operations),
                    g,
                    f,
                  )
                  refl)
          | inl k ↦ elim (Bool-cases (ok (b.0 ++ row ∷ []) commit)) [
            | inr f ↦
                let r : List Call × Bool = ((b.0 ++ row ∷ []) ++ commit ∷ [], false) in
                let e : all ≡ r = split ∙ rw (g, k, f) refl in
                ends calls all r e (
                  rw
                    (
                      apply_migration,
                      t,
                      exec_all-carry ok opened (all_statements mf.operations),
                      g,
                      k,
                      f,
                    )
                    refl)
            | inl f ↦
                let r : List Call × Bool = ((b.0 ++ row ∷ []) ++ commit ∷ [], true) in
                let e : all ≡ r = split ∙ rw (g, k, f) refl in
                ends calls all r e (
                  rw
                    (
                      apply_migration,
                      t,
                      exec_all-carry ok opened (all_statements mf.operations),
                      g,
                      k,
                      f,
                    )
                    refl)
          ]
        ]
      ]

  -- A migration is applied with all its statements, its row and a commit, in this order and all
  -- accepted by the database, or stops at the first call that the database refuses, of which
  -- nothing is left open.
  pub apply_migration-Ends :
      (calls : List Call) → Ends ok mf ms calls (apply_migration ok false calls mf ms)
  unfolding apply_migration exec_sql
  apply_migration-Ends calls =
      let cs =
        statement_calls (all_statements mf.operations) ++ record_row (row_of mf) ms ∷ commit ∷ [] in
      let opened = calls ++ start ∷ [] in
      elim (Bool-cases (ok calls start)) [
        | inr f ↦
            undone (start ∷ [])
              (record {
                begun = [];
                refused = start;
                rest = cs;
                in_order = refl;
                are_accepted = refl;
                is_refused = subst (λ t. ok t start ≡ false) (sym (append-nil calls)) f;
                nothing_open = refl;
              })
              (rw (apply_migration, f) refl)
        | inl t ↦ elim (carry-cases ok opened cs) [
          | inl (a, e) ↦ applied (rw t a) (
              apply_migration-carry calls t
              ∙ rw e (ap (λ u. (u, true)) (append_assoc calls (start ∷ []) cs)))
          | inr s ↦
              undone (start ∷ s.begun ++ s.refused ∷ rollback ∷ [])
                (record {
                  begun = start ∷ s.begun;
                  refused = s.refused;
                  rest = s.rest;
                  in_order = ap (◌∷◌ start) s.in_order;
                  are_accepted = rw t s.are_accepted;
                  is_refused =
                      subst (λ u. ok u s.refused ≡ false) (append_assoc calls (start ∷ []) s.begun)
                        s.is_refused;
                  nothing_open = refl;
                })
                (apply_migration-carry calls t
                  ∙ rw (s.stopped) (
                      ap (λ u. (u, false))
                        (append_assoc (opened ++ s.begun) (s.refused ∷ []) (rollback ∷ [])
                          ∙ append_assoc opened s.begun (s.refused ∷ rollback ∷ [])
                          ∙ append_assoc calls (start ∷ [])
                              (s.begun ++ s.refused ∷ rollback ∷ []))))
        ]
      ]
