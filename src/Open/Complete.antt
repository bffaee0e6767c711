-- ===== src/Open/Complete.antt =====
-- Opening a file (src/db.c), whatever SQLite and the file system do: the file that is left.
use rtcom_eventlogger.Common.{
  ℕ, suc, ltb, ◌≡◌, refl, sym, ◌∙◌, subst, ◌⊎◌, inl, inr, Bool, true, false, Option, none, some,
  List, [], if◌then◌else◌,
}
use rtcom_eventlogger.Db.{
  Status, Error, internal, invalid_argument, temporary, database_full, database_corrupted, memory,
  Core, Db, journal_stmt, exec, exec_plain, transaction, commit,
}
use rtcom_eventlogger.Db.Exec.{Contract, exec-Contract}
use rtcom_eventlogger.Db.Transaction.{
  committed, InTxn, Safe, Failed-Safe, transaction-InTxn, commit-Safe,
}
use rtcom_eventlogger.Open.{
  DbFile, db_schema_sql, required_user_version, Opener, Opened, single_version, version_stmt,
  no_effect, fresh, or_empty_file, run_schema, db_schema_ready, give_up, schema_failed,
  committed_schema, schema_run, schema_begun, make_schema, by_version, is_corrupted, checked,
  internal_open, delete_corrupted, repair_corrupted, db_open,
}
use rtcom_eventlogger.Open.Schema.{IsComplete, apply_all, apply_all-HasSchema}
use rtcom_eventlogger.Open.Kept.{
  OnFile, Kept, plain-Safe, journal-Safe, ready-Kept, close-Kept, Ran, run_schema-Ran,
}

module _ (o : Opener) where
  -- What is done about a corrupted file leaves one that is complete.
  abbrev Handles : (Option DbFile → ℕ → Opened) → Type 0
  Handles handle = (file : Option DbFile) (n : ℕ) → OnFile file → Kept (handle file n)

  module _ (handle : Option DbFile → ℕ → Opened) (good : Handles handle) (base : DbFile)
      (complete : IsComplete base) where
    give_up-Kept :
        (e : Option Error) (db : Db DbFile) → Safe o.env base db.core → Kept (give_up o handle e db)
    give_up-Kept none db h = close-Kept o base db complete h
    give_up-Kept (some database_corrupted) db h =
        good (some (committed db.core)) db.clock (subst IsComplete (sym h.0) complete)
    give_up-Kept (some temporary) db h = close-Kept o base db complete h
    give_up-Kept (some internal) db h = close-Kept o base db complete h
    give_up-Kept (some invalid_argument) db h = close-Kept o base db complete h
    give_up-Kept (some database_full) db h = close-Kept o base db complete h

    schema_failed-Kept :
        (e : Option Error) (db : Db DbFile)
        → Safe o.env base db.core
        → Kept (schema_failed o handle e db)
    schema_failed-Kept none db h = give_up-Kept none db h
    schema_failed-Kept (some temporary) db h = ready-Kept o base db complete h
    schema_failed-Kept (some database_corrupted) db h = give_up-Kept (some database_corrupted) db h
    schema_failed-Kept (some internal) db h = give_up-Kept (some internal) db h
    schema_failed-Kept (some invalid_argument) db h = give_up-Kept (some invalid_argument) db h
    schema_failed-Kept (some database_full) db h = give_up-Kept (some database_full) db h

    commit-Kept :
        (db : Db DbFile)
        → InTxn o.env base db.core
        → IsComplete db.core.tables
        → Kept (committed_schema o handle (commit o.env db))
    commit-Kept db h made = of_commit (commit o.env db) (commit-Safe o.env base db h)
      where
        of_commit :
            (r : Bool × Option Error × Db DbFile)
            → ((r.0 ≡ true) × (r.2.core ≡ record db.core { autocommit = true }))
              ⊎ ((r.0 ≡ false) × Safe o.env base r.2.core)
            → Kept (committed_schema o handle r)
        of_commit (true, e, db') (inl (t, same)) =
            ready-Kept o db.core.tables db' made
              (subst (Safe o.env db.core.tables) (sym same) (refl, h.2))
        of_commit (false, e, db') (inr (f, safe)) = close-Kept o base db' complete safe
        of_commit (true, e, db') (inr (f, safe)) = cc
        of_commit (false, e, db') (inl (t, same)) = cc

    run-Kept :
        (db : Db DbFile)
        → InTxn o.env base db.core
        → Kept (schema_run o handle (run_schema o db_schema_sql db))
    run-Kept db h =
        of_run (run_schema o db_schema_sql db) (run_schema-Ran o base db_schema_sql db h)
      where
        of_run :
            (r : Bool × Option Error × Db DbFile)
            → Ran o base (apply_all db_schema_sql db.core.tables) r
            → Kept (schema_run o handle r)
        of_run (true, e, db') (inl (t, i, made)) =
            commit-Kept db' i
              (subst IsComplete (sym made) (λ _. apply_all-HasSchema db.core.tables))
        of_run (false, e, db') (inr (f, safe)) = schema_failed-Kept e db' safe
        of_run (true, e, db') (inr (f, safe)) = cc
        of_run (false, e, db') (inl (t, i, made)) = cc

    make_schema-Kept : (db : Db DbFile) → Safe o.env base db.core → Kept (make_schema o handle db)
    unfolding make_schema
    make_schema-Kept db h =
        let db1 = (exec_plain o.env (journal_stmt memory) db).2 in
        let h1 = journal-Safe o base memory db (λ e. cc) h in
        of_begin (transaction o.env db1) (transaction-InTxn o.env base db1 h1.0 h1.1)
      where
        of_begin :
            {A : Type 0} {B : Type 0} (r : Bool × Option Error × Db DbFile)
            → ((r.0 ≡ true) × InTxn o.env base r.2.core × A × B)
              ⊎ ((r.0 ≡ false) × Safe o.env base r.2.core)
            → Kept (schema_begun o handle r)
        of_begin (true, e, db') (inl (t, i, a, b)) = run-Kept db' i
        of_begin (false, e, db') (inr (f, safe)) = schema_failed-Kept e db' safe
        of_begin (true, e, db') (inr (f, safe)) = cc
        of_begin (false, e, db') (inl (t, i, a, b)) = cc

    version-Kept :
        (db : Db DbFile)
        → Safe o.env base db.core
        → Kept (by_version o handle (exec o.env single_version version_stmt 0 db))
    version-Kept db h =
        of_exec (exec o.env single_version version_stmt 0 db)
          (exec-Contract o.env single_version version_stmt 0 db)
      where
        of_test :
            (b : Bool) (db' : Db DbFile)
            → Safe o.env base db'.core
            → Kept (if b then make_schema o handle db' else db_schema_ready o db')
        of_test true db' safe = make_schema-Kept db' safe
        of_test false db' safe = ready-Kept o base db' complete safe

        core_of :
            {rows rows' : List ℕ} {a b : Core DbFile}
            → ◌≡◌ {A = Option (List ℕ × Core DbFile)} (some (rows, a)) (some (rows', b))
            → a ≡ b
        core_of p = cc

        of_exec :
            (r : Bool × Option Error × ℕ × Db DbFile)
            → Contract o.env single_version version_stmt 0 db.core r
            → Kept (by_version o handle r)
        of_exec (true, e, v, db') k =
            let (none_set, rows, end, runs, fed, core) = k.on_true refl in
            of_test (ltb v required_user_version) db'
              (subst (Safe o.env base) (core_of runs ∙ sym core) h)
        of_exec (false, e, v, db') k =
            let (e', set, failed) = k.on_false refl in
            of_test (ltb v required_user_version) db' (Failed-Safe o.env base db.core _ h failed)

    checked-Kept :
        (db : Db DbFile)
        → Safe o.env base db.core
        → Kept (checked o handle (exec_plain o.env no_effect db))
    checked-Kept db h =
        of_check (exec_plain o.env no_effect db)
          (plain-Safe o base no_effect db [] db.core refl h h)
      where
        of_check :
            (r : Bool × Option Error × Db DbFile)
            → Safe o.env base r.2.core
            → Kept (checked o handle r)
        of_check (true, e, db') safe = version-Kept db' safe
        of_check (false, e, db') safe = give_up-Kept e db' safe

  internal_open-Kept :
      (handle : Option DbFile → ℕ → Opened)
      → Handles handle
      → (file : Option DbFile) (n : ℕ) → OnFile file
      → Kept (internal_open o handle file n)
  unfolding internal_open
  internal_open-Kept handle good file n complete = of_status (o.opens n)
    where
      opened-IsComplete : (f : Option DbFile) → OnFile f → IsComplete (or_empty_file f)
      opened-IsComplete none h = λ e. cc
      opened-IsComplete (some f) h = h

      of_test : (b : Bool) → Kept (if b then handle file (suc n) else (none, file, suc n))
      of_test true = good file (suc n) complete
      of_test false = complete

      of_status :
          (s : Status)
          → Kept (elim s as (λ _. Opened) [
            | Status.ok ↦ checked o handle (exec_plain o.env no_effect (fresh file (suc n)))
            | x ↦ if is_corrupted x then handle file (suc n) else (none, file, suc n)
          ])
      of_status Status.ok =
          checked-Kept handle good (or_empty_file file) (opened-IsComplete file complete)
            (fresh file (suc n)) (refl, λ e. cc)
      of_status Status.row = of_test false
      of_status Status.done = of_test false
      of_status Status.busy = of_test false
      of_status Status.locked = of_test false
      of_status Status.full = of_test false
      of_status Status.ioerr = of_test false
      of_status Status.corrupt = of_test true
      of_status Status.format = of_test true
      of_status Status.notadb = of_test true
      of_status Status.other = of_test false

  delete_corrupted-Handles : Handles (delete_corrupted o)
  delete_corrupted-Handles file n complete = of_test (o.unlinks n)
    where
      of_test : (b : Bool) → OnFile (if b then none else file)
      of_test true = tt
      of_test false = complete

  repair_corrupted-Handles : Handles (repair_corrupted o)
  repair_corrupted-Handles file n complete = of_test (o.unlinks n)
    where
      of_test :
          (b : Bool)
          → Kept
              (if b then internal_open o (delete_corrupted o) none (suc n) else (none, file, suc n))
      of_test true =
          internal_open-Kept (delete_corrupted o) delete_corrupted-Handles none (suc n) tt
      of_test false = complete

-- Whatever SQLite and the file system do, at the first opening and at the one after a corrupted file
-- was deleted: if the file that is there before `rtcom_el_db_open` (or none) does not claim a schema
-- that it lacks, neither does the file that is there after it, whether it returns a connection or
-- NULL; and what other connections see of a connection that it returns is that file.
pub db_open-Kept :
    (o : Opener) (file : Option DbFile) (n : ℕ) → OnFile file → Kept (db_open o file n)
unfolding db_open
db_open-Kept o file n complete =
    internal_open-Kept o (repair_corrupted o) (repair_corrupted-Handles o) file n complete
