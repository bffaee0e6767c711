-- ===== src/Convert/Run.antt =====
-- `_internal_convert_v0` and `rtcom_el_db_convert_from_db0` of src/db.c, on the files.
use rtcom_eventlogger.Common.{
  ℕ, zero, suc, Bool, true, false, Option, none, some, List, [], ◌∷◌, String, keep, if◌then◌else◌,
}
use rtcom_eventlogger.Db.{
  Status, Error, database_corrupted, Db, off, journal_stmt, exec_plain, transaction, commit,
  rollback,
}
use rtcom_eventlogger.Db.Transaction.{committed}
use rtcom_eventlogger.Convert.{
  OldFile, Dir, Converter, Conv, pure, ◌>>=◌, ◌>>◌, must, may, ask, fresh, is_ok, is_locked,
}
use rtcom_eventlogger.Convert.Changes.{
  has_name, add_column, add_outgoing, set_outgoing, retype, rename_type, delete_type, insert_type,
  insert_flag, drop_trigger, create_trigger, set_version, ids_of, first_only, type_name, new_suffix,
  plugins_of, services_of, services, event_types, flags,
}

module _ (o : Converter) where
  -- One round of the loop over the services. The `if` around the DELETE has an empty body.
  unfoldable pub convert_service : String → Conv (Unit {0})
  convert_service s = do
    id ← ask o (λ f. ids_of (keep (has_name (type_name s "_INBOUND")) f.event_types))
    old_id ← ask o (λ f. ids_of (keep (has_name (type_name s "_OUTBOUND")) f.event_types))
    must o (retype id old_id)
    must o (rename_type (type_name s "_INBOUND") (type_name s (new_suffix s)))
    may o (delete_type (type_name s "_OUTBOUND"))

  unfoldable pub convert_services : List String → Conv (Unit {0})
  convert_services [] = pure tt
  convert_services (s ∷ rest) = do convert_service s; convert_services rest

  unfoldable pub add_types : ℕ → List (String × String) → Conv (Unit {0})
  add_types plugin_id [] = pure tt
  add_types plugin_id ((n, desc) ∷ rest) = do
    must o (insert_type n plugin_id desc)
    add_types plugin_id rest

  unfoldable pub add_flags : ℕ → List (String × ℕ) → Conv (Unit {0})
  add_flags service_id [] = pure tt
  add_flags service_id ((n, value) ∷ rest) = do
    must o (insert_flag service_id n value)
    add_flags service_id rest

  abbrev pub clean_triggers : Conv (Unit {0})
  clean_triggers = do
    may o (drop_trigger "gc_update_ev_add2")
    may o (drop_trigger "gc_update_ev_add3")
    may o (drop_trigger "gc_update_ev_update")
    may o (create_trigger "gc_update_ev_add4")
    may o (create_trigger "gc_update_ev_update")

  -- From the first ALTER TABLE to the last CREATE TRIGGER.
  unfoldable pub convert_rows : Conv (Unit {0})
  convert_rows = do
    must o add_outgoing
    must o (add_column "mc_profile")
    must o (set_outgoing o.outbound)
    convert_services services
    plugin_id ← ask o (λ f. first_only (plugins_of (type_name "CHAT" "_MESSAGE") f))
    add_types plugin_id event_types
    service_id ← ask o (services_of plugin_id)
    add_flags service_id flags
    clean_triggers

  abbrev pub committed_or_err : Bool × Option Error × Db OldFile → Bool × Db OldFile
  committed_or_err (true, e, db) = (true, db)
  committed_or_err (false, e, db) = let (_, _, db') = rollback o.env db in (false, db')

  abbrev pub convert_end : Option (Unit {0}) × Db OldFile → Bool × Db OldFile
  convert_end (some u, db) = committed_or_err (commit o.env db)
  convert_end (none, db) = let (_, _, db') = rollback o.env db in (false, db')

  -- `_internal_convert_v0`
  unfoldable pub internal_convert_v0 : Db OldFile → Bool × Db OldFile
  internal_convert_v0 db = convert_end ((do convert_rows; must o set_version) db)

  -- The loop of at most 100 `sqlite3_backup_step`: its last result, which the code drops, and the
  -- number of calls after it.
  unfoldable pub backup_loop : ℕ → Status → ℕ → Status × ℕ
  backup_loop zero last n = (last, n)
  backup_loop (suc cnt) last n = elim (is_locked (o.backup_step n)) [
    | true ↦ backup_loop cnt (o.backup_step n) (suc n)
    | false ↦ (o.backup_step n, suc n)
  ]

  -- What the temporary database has after the loop.
  abbrev pub copied : Status → OldFile → OldFile → OldFile
  copied Status.done old temp = old
  copied _ old temp = temp

  abbrev pub unlink_temp : ℕ → Dir → Dir
  unlink_temp n d = if o.unlinks n then record d { temp = none } else d

  abbrev pub rename_temp : ℕ → Dir → Dir
  rename_temp n d = if o.renames n then record d { target = d.temp; temp = none } else d

  -- `sqlite3_close` of the temporary database
  abbrev pub closed : Db OldFile → Dir → Dir
  closed db d = record d { temp = some (committed db.core) }

  -- The branch for a conversion that worked, and the one for a conversion that did not; the result
  -- of `g_rename` is not looked at.
  abbrev pub moved : Bool × Db OldFile → Dir → Bool × Dir × ℕ
  moved (true, db) d = (true, rename_temp db.clock (closed db d), suc db.clock)
  moved (false, db) d = (false, unlink_temp db.clock (closed db d), suc db.clock)

  abbrev pub removed : Db OldFile → Dir → Bool × Dir × ℕ
  removed db d = (false, unlink_temp db.clock (closed db d), suc db.clock)

  -- From `sqlite3_backup_init` on, in the transaction.
  unfoldable pub copy_and_convert : OldFile → Db OldFile → Dir → Bool × Dir × ℕ
  copy_and_convert old db d =
      if o.backup_init db.clock
      then (let (last, n) = backup_loop 100 Status.ok (suc db.clock) in
          let db' = record db { clock = suc n } in
          let source = copied last old db.core.tables in
          if is_ok (o.backup_finish n)
          then moved
              (internal_convert_v0 (record db' { core = record db.core { tables = source } })) d
          else removed db' d)
      else removed (record db { clock = suc db.clock }) d

  -- The branches behind BEGIN EXCLUSIVE. The error code is compared with those of SQLite, of which
  -- SQLITE_ABORT has the number of `database_corrupted`.
  abbrev pub begun :
      (Dir → ℕ → Option (Bool × Dir × ℕ))
      → OldFile
      → Dir
      → Bool × Option Error × Db OldFile
      → Option (Bool × Dir × ℕ)
  begun again old d (true, e, db) = some (copy_and_convert old db d)
  begun again old d (false, some database_corrupted, db) =
      again (unlink_temp db.clock (closed db d)) (suc db.clock)
  begun again old d (false, e, db) = some (false, closed db d, db.clock)

  -- The temporary database is opened, its journal put off and its transaction begun.
  abbrev pub with_temp :
      (Dir → ℕ → Option (Bool × Dir × ℕ)) → OldFile → Dir → ℕ → Option (Bool × Dir × ℕ)
  with_temp again old d n =
      let (_, _, db) = exec_plain o.env (journal_stmt off) (fresh d.temp (suc n)) in
      begun again old d (transaction o.env db)

  abbrev pub with_old :
      (Dir → ℕ → Option (Bool × Dir × ℕ)) → OldFile → Dir → ℕ → Option (Bool × Dir × ℕ)
  with_old again old d n =
      if is_ok (o.opens_old n)
      then (if is_ok (o.opens_temp (suc n))
          then with_temp again old d (suc n)
          else some (false, d, suc (suc n)))
      else some (true, d, suc n)

  -- `rtcom_el_db_convert_from_db0`: what it returns, the files after it and the number of calls. It
  -- calls itself after it removed a corrupted file; `none` is a run that still does when the fuel is
  -- used up.
  unfoldable pub convert_from_db0 : ℕ → Dir → ℕ → Option (Bool × Dir × ℕ)
  convert_from_db0 zero d n = none
  convert_from_db0 (suc fuel) d n = elim d.target [
    | some f ↦ some (true, d, n)
    | none ↦ elim d.old [
      | none ↦ some (true, d, n)
      | some old ↦ with_old (convert_from_db0 fuel) old d n
    ]
  ]
