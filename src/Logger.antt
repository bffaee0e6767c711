-- ===== src/Logger.antt =====
-- The object of src/eventlogger.c: its state, how its operations run statements, begin, commit and
-- roll back, and the signals that they send.
--
-- The state is that of an object whose database is open, where `_ensure_db` returns TRUE at once.
use rtcom_eventlogger.Common.{
  ℕ, suc, ltb, ◌==◌, Bool, true, false, ◌&&◌, not, Option, none, some, List, [], ◌∷◌, String, ℤ,
  same, same_opt, keep, if◌then◌else◌,
}
use rtcom_eventlogger.Db.{
  Status, Fault, Error, Env, Db, on_tables, code, after_failure, exec, transaction, commit,
  rollback, Journal, journal_stmt, exec_plain,
}
use rtcom_eventlogger.Store.{EventRow, RemoteRow, Tables}
pub mod Holds
pub mod Emit
pub mod Single
pub mod Add
pub mod Change
pub mod Delete
pub mod Lookup
pub mod Attach
pub mod Full
pub mod Receive

-- `NewEvent`, `EventUpdated`, `EventDeleted`, `AllDeleted` and `RefreshHint`
pub data Kind : Type 0 where
  new_event event_updated event_deleted all_deleted refresh_hint : Kind

-- A message on the bus; `event_id` is `none` for -1, a text is empty where there is none.
pub record Signal : Type 0 where
  pub kind : Kind
  pub event_id : Option ℕ
  pub local_uid : String
  pub remote_uid : String
  pub remote_ebook_uid : String
  pub group_uid : String
  pub service : String

-- What is under a path.
pub data Entry : Type 0 where
  directory : Entry
  file : List ℕ → Entry

-- `RTComElPrivate`; `sent` are the messages that are on the bus and `files` the entries that were
-- made in the file system, both the newest first.
pub record El : Type 0 where
  pub db : Db Tables
  pub services : List (String × ℕ)
  pub event_types : List (String × ℕ)
  pub last_group_uid : Option String
  pub sent : List Signal
  pub files : List (String × Entry)

-- The C library and GLib on files: `join` is `g_build_filename` on two parts. After the n-th call of
-- SQLite, `makes` is `g_mkdir`, `reads` the buffers that `fread` fills before it returns 0, if the
-- source opens, `room` how many bytes the destination takes, if it opens, and `closes` is `fclose`.
-- `stamp` is the time that `strftime` prints in a round of the loop that looks for a name, and
-- `decimal` is "%d".
pub record Disk : Type 0 where
  pub join : String → String → String
  pub home_dir : String
  pub makes : String → ℕ → Bool
  pub reads : String → ℕ → Option (List (List ℕ))
  pub room : String → ℕ → Option ℕ
  pub closes : String → ℕ → Bool
  pub basename : String → String
  pub stamp : ℕ → ℕ → String
  pub decimal : ℕ → String

-- The engine, the bus, the clock and the file system. `bus n` says if a message gets through that is sent after the
-- n-th call of SQLite, and `now n` is `time (NULL)` there.
pub record World : Type 0 where
  pub env : Env Tables
  pub bus : ℕ → Bool
  pub now : ℕ → ℤ
  pub disk : Disk

-- How an operation ends: by -1 or FALSE, with the error that it sets, or by a value. `crashed` is a
-- NULL that a GLib function must not get.
pub data Outcome (A : Type 0) : Type 0 where
  crashed : Outcome A
  failed : Option Error → Outcome A
  good : A → Outcome A

abbrev pub Exec : Type 0 → Type 0
Exec A = El → Outcome A × El

abbrev pub pure : {A : Type 0} → A → Exec A
pure a el = (good a, el)

abbrev pub raise : {A : Type 0} → Option Error → Exec A
raise e el = (failed e, el)

abbrev pub crash : {A : Type 0} → Exec A
crash el = (crashed, el)

abbrev pub go_on : {A B : Type 0} → (A → Exec B) → Outcome A × El → Outcome B × El
go_on k (crashed, el) = (crashed, el)
go_on k (failed e, el) = (failed e, el)
go_on k (good a, el) = k a el

infixl 30 ◌>>=◌ ◌>>◌
abbrev pub ◌>>=◌ : {A B : Type 0} → Exec A → (A → Exec B) → Exec B
m >>= k = λ el. go_on k (m el)

abbrev pub ◌>>◌ : {A B : Type 0} → Exec A → Exec B → Exec B
m >> n = λ el. go_on (λ _. n) (m el)

-- `goto error`: what is done before the failure is returned.
abbrev pub cleaned : {A : Type 0} → (El → El) → Outcome A × El → Outcome A × El
cleaned f (failed e, el) = (failed e, f el)
cleaned f (crashed, el) = (crashed, el)
cleaned f (good a, el) = (good a, el)

-- The error that is set instead of the statement's own.
abbrev pub blamed : {A : Type 0} → (El → Error) → Outcome A × El → Outcome A × El
blamed f (failed e, el) = (failed (some (f el)), el)
blamed f (crashed, el) = (crashed, el)
blamed f (good a, el) = (good a, el)

abbrev pub check : Bool → Error → Exec (Unit {0})
check b e = if b then pure tt else raise (some e)

-- A read of the object that cannot fail.
abbrev pub gets : {A : Type 0} → (El → A) → Exec A
gets f el = (good (f el), el)

-- `rtcom_el_get_service_id` and `rtcom_el_get_eventtype_id` on their hash table; `none` is -1. A
-- number 0 is stored as NULL.
unfoldable pub lookup_id : String → List (String × ℕ) → Option ℕ
lookup_id name [] = none
lookup_id name ((n, v) ∷ rest) =
    if same n name then (if v == 0 then none else some v) else lookup_id name rest

abbrev pub or_empty : Option String → String
or_empty none = ""
or_empty (some s) = s

-- The columns of the statement in `_get_events_dbus_data`.
pub record BusData : Type 0 where
  pub local_uid : Option String
  pub remote_uid : Option String
  pub abook_uid : Option String
  pub group_uid : Option String

abbrev pub no_data : BusData
no_data = record { local_uid = none; remote_uid = none; abook_uid = none; group_uid = none }

abbrev pub is_remote : Option String → Option String → RemoteRow → Bool
is_remote remote_uid local_uid r =
    same_opt (some r.remote_uid) remote_uid && same_opt (some r.local_uid) local_uid

abbrev pub joined : EventRow → List RemoteRow → BusData
joined e [] = record {
  local_uid = none;
  remote_uid = e.remote_uid;
  abook_uid = none;
  group_uid = e.group_uid;
}
joined e (r ∷ rs) = record {
  local_uid = some r.local_uid;
  remote_uid = e.remote_uid;
  abook_uid = r.abook_uid;
  group_uid = e.group_uid;
}

-- Events LEFT JOIN Remotes WHERE id = i, the first row
abbrev pub bus_row : Tables → List EventRow → Option BusData
bus_row t [] = none
bus_row t (e ∷ es) = some (joined e (keep (is_remote e.remote_uid e.local_uid) t.remotes))

abbrev pub or_no_data : Option BusData → BusData
or_no_data none = no_data
or_no_data (some d) = d

abbrev pub is_ok : Status → Bool
is_ok Status.ok = true
is_ok _ = false

module _ (w : World) where
  -- `sqlite3_step` and what the branches behind it read, on the result of the step.
  abbrev pub bus_step : Option BusData → List (Fault × ℕ) → Db Tables → BusData × Db Tables
  bus_step o [] db = (or_no_data o, record db { clock = suc db.clock })
  bus_step o ((f, _) ∷ _) db = (no_data, after_failure w.env (code f) db)

  -- `_get_events_dbus_data`: one step, and no data when anything fails.
  abbrev pub get_events_dbus_data : ℕ → Db Tables → BusData × Db Tables
  get_events_dbus_data i db =
      let prepared = w.env.prepare db.clock in
      let db' = record db { errcode = Status.ok; clock = suc db.clock } in
      let found = bus_row db.core.tables (keep (λ e. e.id == i) db.core.tables.events) in
      if is_ok prepared
      then bus_step found (w.env.refusals db'.clock) db'
      else (no_data, after_failure w.env prepared db)

  abbrev pub data_at : Option ℕ → Db Tables → BusData × Db Tables
  data_at none db = (no_data, db)
  data_at (some i) db = if ltb 0 i then get_events_dbus_data i db else (no_data, db)

  abbrev pub bus_data : Kind → Option ℕ → Db Tables → BusData × Db Tables
  bus_data event_deleted _ db = (no_data, db)
  bus_data _ i db = data_at i db

  -- `_emit_dbus`
  unfoldable pub emit_dbus : Kind → Option ℕ → Option String → Exec (Unit {0})
  emit_dbus kind i service el =
      let (d, db) = bus_data kind i el.db in
      let signal : Signal = record {
        kind = kind;
        event_id = i;
        local_uid = or_empty d.local_uid;
        remote_uid = or_empty d.remote_uid;
        remote_ebook_uid = or_empty d.abook_uid;
        group_uid = or_empty d.group_uid;
        service = or_empty service;
      } in
      (good tt, record el { db = db; sent = if w.bus db.clock then signal ∷ el.sent else el.sent })

  abbrev pub of_exec : {A : Type 0} → El → Bool × Option Error × A × Db Tables → Outcome A × El
  of_exec el (true, e, a, db) = (good a, record el { db = db })
  of_exec el (false, e, a, db) = (failed e, record el { db = db })

  abbrev pub of_plain : El → Bool × Option Error × Db Tables → Outcome (Unit {0}) × El
  of_plain el (true, e, db) = (good tt, record el { db = db })
  of_plain el (false, e, db) = (failed e, record el { db = db })

  -- A SELECT, with its callback.
  unfoldable pub select : {R A : Type 0} → (R → A → A) → A → (Tables → List R) → Exec A
  select cb acc f el = of_exec el (exec w.env cb (on_tables (λ t. some (f t, t))) acc el.db)

  abbrev pub no_rows : Option Tables → Option (List (Unit {0}) × Tables)
  no_rows none = none
  no_rows (some t) = some ([], t)

  -- A statement that changes rows.
  unfoldable pub run : (Tables → Option Tables) → Exec (Unit {0})
  run f el =
      of_exec el (exec w.env (λ _ (u : Unit {0}). u) (on_tables (λ t. no_rows (f t))) tt el.db)

  unfoldable pub begin : Exec (Unit {0})
  begin el = of_plain el (transaction w.env el.db)

  unfoldable pub finish : Exec (Unit {0})
  finish el = of_plain el (commit w.env el.db)

  unfoldable pub undo : El → El
  undo el = let (_, _, db) = rollback w.env el.db in record el { db = db }

  -- Statements and their COMMIT; where one fails, ROLLBACK and the error of what failed.
  abbrev pub committing : {A : Type 0} → Exec A → Exec A
  committing m el = cleaned undo ((do a ← m; finish; pure a) el)

  -- `PRAGMA journal_mode = …;`, whose result is not looked at
  unfoldable pub set_journal : Journal → El → El
  set_journal j el =
      let (_, _, db) = exec_plain w.env (journal_stmt j) el.db in record el { db = db }
