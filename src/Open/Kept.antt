-- ===== src/Open/Kept.antt =====
-- Statements on the file that is being opened (src/db.c): what the connection publishes, and the file
-- that is left, after each of them.
use rtcom_eventlogger.Common.{
  ◌≡◌, ◌≢◌, refl, sym, subst, ◌⊎◌, inl, inr, Bool, true, false, Option, none, some, List, [], ◌∷◌,
  if◌then◌else◌,
}
use rtcom_eventlogger.Db.{
  Error, Journal, off, truncate, Core, Db, Effect, journal_stmt, on_tables, exec, exec_plain,
}
use rtcom_eventlogger.Db.Exec.{exec_plain_cases}
use rtcom_eventlogger.Db.Transaction.{committed, InTxn, Safe, Failed-Safe, Within, exec-Within}
use rtcom_eventlogger.Open.{
  DbFile, SchemaStmt, apply_stmt, Opener, Opened, close, no_effect, run_schema, db_schema_ready,
}
use rtcom_eventlogger.Open.Schema.{IsComplete, apply_all}

abbrev pub OnFile : Option DbFile → Type 0
OnFile none = Unit
OnFile (some f) = IsComplete f

-- The file that is left is complete, and it is the one of the connection, if there is one.
abbrev pub Kept : Opened → Type 0
Kept (none, file, n) = OnFile file
Kept (some db, file, n) = (file ≡ some (committed db.core)) × IsComplete (committed db.core)

module _ (o : Opener) where
  module _ (base : DbFile) where
    pub plain-Safe :
        (stmt : Effect DbFile (Unit {0})) (db : Db DbFile) (rows : List (Unit {0}))
        (end : Core DbFile)
        → stmt db.core ≡ some (rows, end)
        → Safe o.env base db.core
        → Safe o.env base end
        → Safe o.env base (exec_plain o.env stmt db).2.core
    plain-Safe stmt db rows end runs h g = elim (exec_plain_cases o.env stmt db rows end runs) [
      | inl (t, e) ↦ subst (Safe o.env base) (sym e) g
      | inr (f, l) ↦ Failed-Safe o.env base db.core _ h l
    ]

    pub journal-Safe :
        (j : Journal) (db : Db DbFile)
        → j ≢ off
        → Safe o.env base db.core
        → Safe o.env base (exec_plain o.env (journal_stmt j) db).2.core
    journal-Safe j db on h =
        plain-Safe (journal_stmt j) db _ _ refl h (h.0, of_test db.core.autocommit)
      where
        of_test : (b : Bool) → (if b then j else db.core.journal) ≢ off
        of_test true = on
        of_test false = h.1

    pub ready-Kept :
        (db : Db DbFile) → IsComplete base → Safe o.env base db.core → Kept (db_schema_ready o db)
    ready-Kept db complete h =
        let db1 = (exec_plain o.env (journal_stmt truncate) db).2 in
        let h1 = journal-Safe truncate db (λ e. cc) h in
        let s = plain-Safe no_effect db1 [] db1.core refl h1 h1 in
        (refl, subst IsComplete (sym s.0) complete)

    pub close-Kept : (db : Db DbFile) → IsComplete base → Safe o.env base db.core → Kept (close db)
    close-Kept db complete h = subst IsComplete (sym h.0) complete

    -- The statements were run in the transaction, or one failed and nothing is published.
    abbrev pub Ran : DbFile → Bool × Option Error × Db DbFile → Type 0
    Ran t r =
        ((r.0 ≡ true) × InTxn o.env base r.2.core × (r.2.core.tables ≡ t))
        ⊎ ((r.0 ≡ false) × Safe o.env base r.2.core)

    stmt-Ran :
        (s : SchemaStmt) (db : Db DbFile)
        → InTxn o.env base db.core
        → Ran
            (apply_stmt s db.core.tables)
            (exec_plain o.env (on_tables (λ f. some ([], apply_stmt s f))) db)
    unfolding exec_plain
    stmt-Ran s db h =
        of_exec (exec o.env (λ (_ : Unit {0}) (u : Unit {0}). u) (on_tables step) tt db)
          (exec-Within o.env base step (λ _ u. u) tt db h)
      where
        step : DbFile → Option (List (Unit {0}) × DbFile)
        step x = some ([], apply_stmt s x)

        second :
            {a b : List (Unit {0})} {x y : DbFile}
            → ◌≡◌ {A = Option (List (Unit {0}) × DbFile)} (some (a, x)) (some (b, y))
            → x ≡ y
        second p = cc

        of_exec :
            (r : Bool × Option Error × Unit {0} × Db DbFile)
            → Within o.env base step (λ _ u. u) tt db.core.tables r
            → Ran (apply_stmt s db.core.tables) (r.0, r.1, r.3)
        of_exec (true, e, u, db') k =
            let (i, rows, ran, fed) = k.on_true refl in inl (refl, i, sym (second ran))
        of_exec (false, e, u, db') k = inr (refl, k.on_false refl)

    pub run_schema-Ran :
        (ss : List SchemaStmt) (db : Db DbFile)
        → InTxn o.env base db.core
        → Ran (apply_all ss db.core.tables) (run_schema o ss db)
    unfolding run_schema
    run_schema-Ran [] db h = inl (refl, h, refl)
    run_schema-Ran (s ∷ rest) db h =
        of_step (exec_plain o.env (on_tables (λ f. some ([], apply_stmt s f))) db) (stmt-Ran s db h)
          (run_schema-Ran rest)
      where
        of_step :
            (r : Bool × Option Error × Db DbFile)
            → Ran (apply_stmt s db.core.tables) r
            → ((db' : Db DbFile)
                → InTxn o.env base db'.core
                → Ran (apply_all rest db'.core.tables) (run_schema o rest db'))
            → Ran
                (apply_all rest (apply_stmt s db.core.tables))
                (elim r.0 as (λ _. Bool × Option Error × Db DbFile) [
                  | true ↦ run_schema o rest r.2
                  | false ↦ (false, r.1, r.2)
                ])
        of_step (true, e, db') (inl (t, i, same)) next =
            subst (λ z. Ran (apply_all rest z) (run_schema o rest db')) same (next db' i)
        of_step (false, e, db') (inr (f, safe)) next = inr (refl, safe)
        of_step (true, e, db') (inr (f, safe)) next = cc
        of_step (false, e, db') (inl (t, i, same)) next = cc
