-- ===== src/Open/Installs.antt =====
-- Opening a file (src/db.c) on an engine that refuses nothing: the connection and its file.
use rtcom_eventlogger.Common.{
  ℕ, suc, ltb, ◌≡◌, refl, sym, ◌∙◌, ap, subst, Bool, true, false, Option, none, some, List, [], ◌∷◌,
  arith, if◌then◌else◌,
}
use rtcom_eventlogger.Db.{
  Status, Error, memory, truncate, Core, Db, journal_stmt, on_tables, exec, exec_plain, transaction,
  commit, commit_stmt,
}
use rtcom_eventlogger.Db.Exec.{feed, Contract, exec-Contract}
use rtcom_eventlogger.Db.Calm.{Calm, exec-Calm, exec_plain_calm, transaction_calm, commit_calm}
use rtcom_eventlogger.Db.Transaction.{committed}
use rtcom_eventlogger.Open.{
  DbFile, SchemaStmt, db_schema_sql, apply_stmt, required_user_version, Opener, Opened,
  single_version, version_stmt, no_effect, fresh, or_empty_file, run_schema, db_schema_ready,
  committed_schema, schema_run, schema_begun, make_schema, by_version, checked, internal_open,
  repair_corrupted, db_open,
}
use rtcom_eventlogger.Open.Schema.{HasSchema, IsComplete, apply_all, apply_all-HasSchema}

-- A connection that is ready for use on the file `f`.
abbrev pub ReadyOn : DbFile → Opened → Type 0
ReadyOn f (none, file, n) = ⊥
ReadyOn f (some db, file, n) =
    (file ≡ some f)
    × (db.core.tables ≡ f)
    × (db.core.autocommit ≡ true)
    × (db.core.journal ≡ truncate)

-- The file after opening: as it was if its version is right, with the statements of the schema run
-- if not.
abbrev pub installed : DbFile → DbFile
installed f = if ltb f.user_version required_user_version then apply_all db_schema_sql f else f

module _ (o : Opener) (calm : Calm o.env) where
  ready-ReadyOn :
      (f : DbFile) (db : Db DbFile)
      → db.core.tables ≡ f
      → db.core.autocommit ≡ true
      → ReadyOn f (db_schema_ready o db)
  ready-ReadyOn f db same alone =
      let db1 = (exec_plain o.env (journal_stmt truncate) db).2 in
      let (ok1, core1) =
        exec_plain_calm o.env calm (journal_stmt truncate) db (tt ∷ []) (with_truncate db.core)
          refl in
      let (ok2, core2) = exec_plain_calm o.env calm no_effect db1 [] db1.core refl in
      let core = core2 ∙ core1 ∙ ap (λ b. with_journal b db.core) alone in
      let tables = ap (λ (c : Core DbFile). c.tables) core ∙ same in
      let alone2 = ap (λ (c : Core DbFile). c.autocommit) (core2 ∙ core1) ∙ alone in
      (
        ap (λ (z : DbFile). some z) (ap committed (core2 ∙ core1) ∙ committed_alone alone ∙ same),
        tables,
        alone2,
        ap (λ (c : Core DbFile). c.journal) core,
      )
    where
      with_journal : Bool → Core DbFile → Core DbFile
      with_journal b c = record c { journal = if b then truncate else c.journal }

      with_truncate : Core DbFile → Core DbFile
      with_truncate c = with_journal c.autocommit c

      committed_alone :
          db.core.autocommit ≡ true → committed (with_truncate db.core) ≡ db.core.tables
      committed_alone h = ground (arith, h)

  run_schema_calm :
      (ss : List SchemaStmt) (db : Db DbFile)
      → ((run_schema o ss db).0 ≡ true)
        × ((run_schema o ss db).2.core ≡ record db.core { tables = apply_all ss db.core.tables })
  unfolding run_schema
  run_schema_calm [] db = (refl, refl)
  run_schema_calm (s ∷ rest) db =
      of_step (exec_plain o.env (on_tables (λ f. some ([], apply_stmt s f))) db)
        (exec_plain_calm o.env calm (on_tables (λ f. some ([], apply_stmt s f))) db []
          (record db.core { tables = apply_stmt s db.core.tables }) refl)
        (run_schema_calm rest)
    where
      of_step :
          (r : Bool × Option Error × Db DbFile)
          → (r.0 ≡ true) × (r.2.core ≡ record db.core { tables = apply_stmt s db.core.tables })
          → ((db' : Db DbFile)
              → ((run_schema o rest db').0 ≡ true)
                × ((run_schema o rest db').2.core
                    ≡ record db'.core { tables = apply_all rest db'.core.tables }))
          → let r' = elim r.0 as (λ _. Bool × Option Error × Db DbFile) [
            | true ↦ run_schema o rest r.2
            | false ↦ (false, r.1, r.2)
          ] in
            (r'.0 ≡ true)
            × (r'.2.core ≡ record db.core { tables = apply_all rest (apply_stmt s db.core.tables) })
      of_step (true, e, db') (t, same) next =
          let (ok, core) = next db' in
          (ok, core ∙ ap (λ (c : Core DbFile). record c { tables = apply_all rest c.tables }) same)
      of_step (false, e, db') (t, same) next = cc

  module _ (handle : Option DbFile → ℕ → Opened) where
    of_commit :
        (t : DbFile) (r : Bool × Option Error × Db DbFile)
        → r.0 ≡ true
        → r.2.core.tables ≡ t
        → r.2.core.autocommit ≡ true
        → ReadyOn t (committed_schema o handle r)
    of_commit t (true, e, db) ok same alone = ready-ReadyOn t db same alone
    of_commit t (false, e, db) ok same alone = cc

    of_run :
        (t : DbFile) (r : Bool × Option Error × Db DbFile)
        → r.0 ≡ true
        → r.2.core.tables ≡ t
        → r.2.core.autocommit ≡ false
        → ReadyOn t (schema_run o handle r)
    unfolding commit
    of_run t (true, e, db) ok same open_txn =
        let core = commit_calm o.env calm db open_txn in
        of_commit t (commit o.env db)
          (simp open_txn (
            (exec_plain_calm o.env calm commit_stmt db [] (record db.core { autocommit = true })
              refl).0))
          (ap (λ (c : Core DbFile). c.tables) core ∙ same)
          (ap (λ (c : Core DbFile). c.autocommit) core)
    of_run t (false, e, db) ok same open_txn = cc

    of_begin :
        (f : DbFile) (r : Bool × Option Error × Db DbFile)
        → r.0 ≡ true
        → r.2.core.tables ≡ f
        → r.2.core.autocommit ≡ false
        → ReadyOn (apply_all db_schema_sql f) (schema_begun o handle r)
    of_begin f (true, e, db) ok same open_txn =
        let (ran, core) = run_schema_calm db_schema_sql db in
        of_run (apply_all db_schema_sql f) (run_schema o db_schema_sql db) ran
          (ap (λ (c : Core DbFile). c.tables) core ∙ ap (apply_all db_schema_sql) same)
          (ap (λ (c : Core DbFile). c.autocommit) core ∙ open_txn)
    of_begin f (false, e, db) ok same open_txn = cc

    make_schema-ReadyOn :
        (f : DbFile) (db : Db DbFile)
        → db.core.tables ≡ f
        → db.core.autocommit ≡ true
        → ReadyOn (apply_all db_schema_sql f) (make_schema o handle db)
    unfolding make_schema
    make_schema-ReadyOn f db same alone =
        let db1 = (exec_plain o.env (journal_stmt memory) db).2 in
        let (ok1, core1) =
          exec_plain_calm o.env calm (journal_stmt memory) db (tt ∷ []) (with_memory db.core)
            refl in
        let (ok2, core2) =
          transaction_calm o.env calm db1 (ap (λ (c : Core DbFile). c.autocommit) core1 ∙ alone) in
        of_begin f (transaction o.env db1) ok2
          (ap (λ (c : Core DbFile). c.tables) core2
            ∙ ap (λ (c : Core DbFile). c.tables) core1
            ∙ same)
          (ap (λ (c : Core DbFile). c.autocommit) core2)
      where
        with_memory : Core DbFile → Core DbFile
        with_memory c = record c { journal = if c.autocommit then memory else c.journal }

    version-ReadyOn :
        (f : DbFile) (db : Db DbFile)
        → db.core.tables ≡ f
        → db.core.autocommit ≡ true
        → ReadyOn (installed f) (by_version o handle (exec o.env single_version version_stmt 0 db))
    version-ReadyOn f db same alone =
        of_exec (exec o.env single_version version_stmt 0 db)
          (exec-Calm o.env calm single_version version_stmt 0 db (db.core.tables.user_version ∷ [])
            db.core refl).0
          (exec-Contract o.env single_version version_stmt 0 db)
      where
        of_test :
            (b : Bool) (db' : Db DbFile)
            → db'.core ≡ db.core
            → ReadyOn
                (if b then apply_all db_schema_sql f else f)
                (if b then make_schema o handle db' else db_schema_ready o db')
        of_test true db' core =
            make_schema-ReadyOn f db' (ap (λ (c : Core DbFile). c.tables) core ∙ same)
              (ap (λ (c : Core DbFile). c.autocommit) core ∙ alone)
        of_test false db' core =
            ready-ReadyOn f db' (ap (λ (c : Core DbFile). c.tables) core ∙ same)
              (ap (λ (c : Core DbFile). c.autocommit) core ∙ alone)

        core_of :
            {a b : List ℕ} {x y : Core DbFile}
            → ◌≡◌ {A = Option (List ℕ × Core DbFile)} (some (a, x)) (some (b, y))
            → x ≡ y
        core_of p = cc

        rows_of :
            {a b : List ℕ} {x y : Core DbFile}
            → ◌≡◌ {A = Option (List ℕ × Core DbFile)} (some (a, x)) (some (b, y))
            → a ≡ b
        rows_of p = cc

        of_exec :
            (r : Bool × Option Error × ℕ × Db DbFile)
            → r.0 ≡ true
            → Contract o.env single_version version_stmt 0 db.core r
            → ReadyOn (installed f) (by_version o handle r)
        of_exec (true, e, v, db') ok k =
            let (none_set, rows, end, runs, fed, core) = k.on_true refl in
            let version =
              fed
              ∙ ap (feed single_version 0) (sym (rows_of runs))
              ∙ ap (λ (x : DbFile). x.user_version) same in
            subst
              (λ n.
                ReadyOn (if ltb n required_user_version then apply_all db_schema_sql f else f)
                  (by_version o handle (true, e, v, db')))
              version (of_test (ltb v required_user_version) db' (core ∙ sym (core_of runs)))
        of_exec (false, e, v, db') ok k = cc

    checked-ReadyOn :
        (f : DbFile) (db : Db DbFile)
        → db.core.tables ≡ f
        → db.core.autocommit ≡ true
        → ReadyOn (installed f) (checked o handle (exec_plain o.env no_effect db))
    checked-ReadyOn f db same alone =
        of_check (exec_plain o.env no_effect db)
          (exec_plain_calm o.env calm no_effect db [] db.core refl)
      where
        of_check :
            (r : Bool × Option Error × Db DbFile)
            → (r.0 ≡ true) × (r.2.core ≡ db.core)
            → ReadyOn (installed f) (checked o handle r)
        of_check (true, e, db') (ok, core) =
            version-ReadyOn f db' (ap (λ (c : Core DbFile). c.tables) core ∙ same)
              (ap (λ (c : Core DbFile). c.autocommit) core ∙ alone)
        of_check (false, e, db') (ok, core) = cc

installed-HasSchema : (f : DbFile) → IsComplete f → HasSchema (installed f)
installed-HasSchema f h = of_test (ltb f.user_version required_user_version) h
  where
    of_test :
        (b : Bool)
        → (b ≡ false → HasSchema f)
        → HasSchema (if b then apply_all db_schema_sql f else f)
    of_test true k = apply_all-HasSchema f
    of_test false k = k refl

-- The statements of the schema leave the version that is required.
apply_all-version : (f : DbFile) → (apply_all db_schema_sql f).user_version ≡ required_user_version
unfolding db_schema_sql apply_stmt
apply_all-version f = refl

installed-version : (f : DbFile) → ltb (installed f).user_version required_user_version ≡ false
installed-version f = of_test (ltb f.user_version required_user_version) refl
  where
    of_test :
        (b : Bool)
        → ltb f.user_version required_user_version ≡ b
        → ltb (if b then apply_all db_schema_sql f else f).user_version required_user_version
          ≡ false
    of_test true e = ap (λ v. ltb v required_user_version) (apply_all-version f)
    of_test false e = e

works-checked :
    (o : Opener) (file : Option DbFile) (n : ℕ)
    → o.opens n ≡ Status.ok
    → db_open o file n
      ≡ checked o (repair_corrupted o) (exec_plain o.env no_effect (fresh file (suc n)))
unfolding db_open internal_open
works-checked o file n works = rw (works, internal_open) refl

-- On an engine that refuses nothing, where `sqlite3_open` works on a file that does not claim a
-- schema that it lacks (or on none): `rtcom_el_db_open` returns a connection outside of a
-- transaction, with the journal truncated. A file of the required version is as it was; any other
-- has the schema's statements run on it, all of them and in their order; and the file then has every
-- object of the schema and the version that is required, so that the next opening leaves it alone.
pub db_open-ReadyOn :
    (o : Opener) (file : Option DbFile) (n : ℕ)
    → Calm o.env
    → o.opens n ≡ Status.ok
    → IsComplete (or_empty_file file)
    → ReadyOn (installed (or_empty_file file)) (db_open o file n)
      × HasSchema (installed (or_empty_file file))
      × (ltb (installed (or_empty_file file)).user_version required_user_version ≡ false)
db_open-ReadyOn o file n calm works complete =
    let f = or_empty_file file in
    let go_on = checked-ReadyOn o calm (repair_corrupted o) f (fresh file (suc n)) refl refl in
    (
      subst (ReadyOn (installed f)) (sym (works-checked o file n works)) go_on,
      installed-HasSchema f complete,
      installed-version f,
    )
