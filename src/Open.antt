-- ===== src/Open.antt =====
-- src/db.c: how a database file is opened, checked and given its schema.
--
-- A file is seen by its version and by the names of the tables, indices and triggers that it has.
use rtcom_eventlogger.Common.{
  ℕ, suc, ltb, Bool, true, false, not, Option, none, some, List, [], ◌∷◌, String, same, any, keep,
  if◌then◌else◌,
}
use rtcom_eventlogger.Db.{
  Status, Error, temporary, database_corrupted, Env, Db, Effect, memory, truncate, delete,
  journal_stmt, on_tables, exec, exec_plain, transaction, commit,
}
use rtcom_eventlogger.Db.Transaction.{committed}
pub mod Schema
pub mod Kept
pub mod Complete
pub mod Installs

-- `PRAGMA user_version`, which is not negative, and the objects of the schema.
pub record DbFile : Type 0 where
  pub user_version : ℕ
  pub objects : List String

abbrev pub empty_file : DbFile
empty_file = record { user_version = 0; objects = [] }

-- A statement of `db_schema_sql`: PRAGMA user_version, CREATE … IF NOT EXISTS or DROP … IF EXISTS.
pub data SchemaStmt : Type 0 where
  set_version : ℕ → SchemaStmt
  create drop : String → SchemaStmt

-- `db_schema_sql`
unfoldable pub db_schema_sql : List SchemaStmt
db_schema_sql =
    set_version 1
    ∷ create "Services"
    ∷ create "idx_srv_plugin_id"
    ∷ create "EventTypes"
    ∷ create "idx_et_plugin_id"
    ∷ create "Flags"
    ∷ create "Plugins"
    ∷ create "Attachments"
    ∷ create "idx_att_event_id"
    ∷ create "Headers"
    ∷ create "idx_hdr_event_id"
    ∷ create "Remotes"
    ∷ create "Events"
    ∷ create "GroupCache"
    ∷ create "idx_ev_service_id"
    ∷ create "idx_ev_event_type_id"
    ∷ create "idx_ev_group_uid"
    ∷ create "idx_ev_remote_uid"
    ∷ create "idx_gc_group_uid"
    ∷ create "fkd_services_event_types_plugin_id"
    ∷ create "fkd_flags_service_id"
    ∷ create "fkd_headers_atts_event_id"
    ∷ create "gc_update_ev_add1"
    ∷ drop "gc_update_ev_add2"
    ∷ drop "gc_update_ev_add3"
    ∷ drop "gc_update_ev_update"
    ∷ create "gc_update_ev_add4"
    ∷ create "gc_update_ev_update"
    ∷ []

-- `REQUIRED_USER_VERSION`
abbrev pub required_user_version : ℕ
required_user_version = 1

abbrev pub has : String → List String → Bool
has name objects = any (λ x. same x name) objects

unfoldable pub apply_stmt : SchemaStmt → DbFile → DbFile
apply_stmt (set_version n) f = record f { user_version = n }
apply_stmt (create name) f = record f {
  objects = if has name f.objects then f.objects else name ∷ f.objects;
}
apply_stmt (drop name) f = record f { objects = keep (λ x. not (same x name)) f.objects }

-- The engine, what `sqlite3_open` returns and whether `g_unlink` works, by the call.
pub record Opener : Type 0 where
  pub env : Env DbFile
  pub opens : ℕ → Status
  pub unlinks : ℕ → Bool

-- The connection or NULL, the file that is then under the path, and the number of calls made.
abbrev pub Opened : Type 0
Opened = Option (Db DbFile) × Option DbFile × ℕ

-- `sqlite3_close`, which ends a transaction that is open without effect; then NULL is returned.
abbrev pub close : Db DbFile → Opened
close db = (none, some (committed db.core), db.clock)

abbrev pub single_version : ℕ → ℕ → ℕ
single_version n _ = n

abbrev pub version_stmt : Effect DbFile ℕ
version_stmt c = some (c.tables.user_version ∷ [], c)

-- A statement with no rows that changes nothing, as `PRAGMA quick_check` and `PRAGMA synchronous`.
abbrev pub no_effect : Effect DbFile (Unit {0})
no_effect c = some ([], c)

abbrev pub or_empty_file : Option DbFile → DbFile
or_empty_file none = empty_file
or_empty_file (some f) = f

-- `sqlite3_open` on a file, or on none, with SQLite's first journal mode
abbrev pub fresh : Option DbFile → ℕ → Db DbFile
fresh file n = record {
  core = record {
    tables = or_empty_file file;
    saved = or_empty_file file;
    autocommit = true;
    journal = delete;
  };
  errcode = Status.ok;
  clock = n;
}

abbrev pub is_corrupted : Status → Bool
is_corrupted Status.corrupt = true
is_corrupted Status.format = true
is_corrupted Status.notadb = true
is_corrupted _ = false

module _ (o : Opener) where
  -- The loop over `db_schema_sql`, to the first statement that fails.
  unfoldable pub run_schema : List SchemaStmt → Db DbFile → Bool × Option Error × Db DbFile
  run_schema [] db = (true, none, db)
  run_schema (s ∷ rest) db =
      let (ok, e, db') = exec_plain o.env (on_tables (λ f. some ([], apply_stmt s f))) db in
      elim ok [ true ↦ run_schema rest db' | false ↦ (false, e, db') ]

  -- From `db_schema_ready:` on.
  abbrev pub db_schema_ready : Db DbFile → Opened
  db_schema_ready db =
      let (_, _, db1) = exec_plain o.env (journal_stmt truncate) db in
      let (_, _, db2) = exec_plain o.env no_effect db1 in
      (some db2, some (committed db2.core), db2.clock)

  module _ (handle_corrupted : Option DbFile → ℕ → Opened) where
    -- What is done about an error other than the temporary one.
    abbrev pub give_up : Option Error → Db DbFile → Opened
    give_up (some database_corrupted) db = handle_corrupted (some (committed db.core)) db.clock
    give_up _ db = close db

    -- The branches behind BEGIN and behind a statement of the schema that failed.
    abbrev pub schema_failed : Option Error → Db DbFile → Opened
    schema_failed (some temporary) db = db_schema_ready db
    schema_failed e db = give_up e db

    abbrev pub committed_schema : Bool × Option Error × Db DbFile → Opened
    committed_schema (true, e, db) = db_schema_ready db
    committed_schema (false, e, db) = close db

    abbrev pub schema_run : Bool × Option Error × Db DbFile → Opened
    schema_run (true, e, db) = committed_schema (commit o.env db)
    schema_run (false, e, db) = schema_failed e db

    abbrev pub schema_begun : Bool × Option Error × Db DbFile → Opened
    schema_begun (true, e, db) = schema_run (run_schema db_schema_sql db)
    schema_begun (false, e, db) = schema_failed e db

    -- The branch for a version that is too small.
    unfoldable pub make_schema : Db DbFile → Opened
    make_schema db =
        let (_, _, db1) = exec_plain o.env (journal_stmt memory) db in
        schema_begun (transaction o.env db1)

    abbrev pub by_version : Bool × Option Error × ℕ × Db DbFile → Opened
    by_version (ok, e, user_version, db) =
        if ltb user_version required_user_version then make_schema db else db_schema_ready db

    abbrev pub checked : Bool × Option Error × Db DbFile → Opened
    checked (true, e, db) = by_version (exec o.env single_version version_stmt 0 db)
    checked (false, e, db) = give_up e db

    -- `_internal_open`, over what it does about a corrupted file
    unfoldable pub internal_open : Option DbFile → ℕ → Opened
    internal_open file n = elim (o.opens n) [
      | Status.ok ↦ checked (exec_plain o.env no_effect (fresh file (suc n)))
      | s ↦ if is_corrupted s then handle_corrupted file (suc n) else (none, file, suc n)
    ]

  abbrev pub unlinked : ℕ → Option DbFile → Option DbFile
  unlinked n file = if o.unlinks n then none else file

  -- `_handle_corrupted` with `try_repairing` FALSE
  abbrev pub delete_corrupted : Option DbFile → ℕ → Opened
  delete_corrupted file n = (none, unlinked n file, suc n)

  -- `_handle_corrupted` with `try_repairing` TRUE
  abbrev pub repair_corrupted : Option DbFile → ℕ → Opened
  repair_corrupted file n =
      if o.unlinks n then internal_open delete_corrupted none (suc n) else (none, file, suc n)

  -- `rtcom_el_db_open`
  unfoldable pub db_open : Option DbFile → ℕ → Opened
  db_open = internal_open repair_corrupted
