-- ===== src/Iterator.antt =====
-- src/eventlogger-iter.c: the iterator over the events of a query.
use rtcom_eventlogger.Common.{
  ℕ, zero, suc, ℤ, pos, negsuc, Bool, true, false, Option, none, some, List, [], ◌∷◌, String,
  if◌then◌else◌,
}
use rtcom_eventlogger.Db.{Env, Db, code, commit}
use rtcom_eventlogger.Store.{EventRow, RemoteRow, Tables}
use rtcom_eventlogger.Statement.{
  StmtPtr, null, live, freed, Run, undefined, returns, Step, at_row, at_end, refused, reset, step,
}
use rtcom_eventlogger.Row.{
  Cell, number, string, Casts, Value, int_value, Columns, find, update_row, get_row,
}
use rtcom_eventlogger.AttachIter.{text_cell}
pub mod Values
pub mod Current
pub mod Walk
pub mod Safe
pub mod RoundTrip
pub mod Stored
pub mod Same
pub mod Recorded
pub mod ReadBack
pub mod Open
pub mod Session
pub mod Times

-- A row of a query: an event with the names of its service and its type, its row of Remotes, and its
-- message token.
pub record Joined : Type 0 where
  pub event : EventRow
  pub service : String
  pub event_type : String
  pub remote : Option RemoteRow
  pub token : Option String

abbrev pub abook_of : Option RemoteRow → Option String
abook_of none = none
abook_of (some r) = r.abook_uid

abbrev pub uid_of : Option RemoteRow → Option String
uid_of none = none
uid_of (some r) = some r.remote_uid

abbrev pub name_of : Option RemoteRow → Option String
name_of none = none
name_of (some r) = r.remote_name

-- The columns of the selection, by their index.
abbrev pub nth : List Cell → ℕ → Cell
nth [] i = Cell.null
nth (c ∷ cs) zero = c
nth (c ∷ cs) (suc i) = nth cs i

abbrev pub cells : Joined → ℕ → Cell
cells j =
    let e = j.event in
    nth (
      string j.service
      ∷ string j.event_type
      ∷ number (pos e.id)
      ∷ number (pos e.service_id)
      ∷ number (pos e.event_type_id)
      ∷ number e.storage_time
      ∷ number e.start_time
      ∷ number e.end_time
      ∷ number (pos e.flags)
      ∷ number e.is_read
      ∷ number e.bytes_sent
      ∷ number e.bytes_received
      ∷ text_cell e.local_uid
      ∷ text_cell e.local_name
      ∷ text_cell e.group_uid
      ∷ text_cell (abook_of j.remote)
      ∷ text_cell (uid_of j.remote)
      ∷ text_cell (name_of j.remote)
      ∷ text_cell j.token
      ∷ text_cell e.channel
      ∷ number e.outgoing
      ∷ text_cell e.free_text
      ∷ [])

-- A plugin's `get_value`, if it has one: what it answers for a name, on the columns of the row.
abbrev pub Plugin : Type 0
Plugin = Option (String → Columns → Option Value)

-- `RTComElIterPrivate`; the connection is that of the logger.
pub record Iter : Type 0 where
  pub stmt : StmtPtr Tables Joined
  pub columns : Option Columns
  pub atomic : Bool
  pub current_event_id : ℤ
  pub current_service_id : ℤ
  pub current_event_type_id : ℤ
  pub active_plugin : Plugin

-- `rtcom_el_iter_init`, and the construction properties that `_get_events_core` sets.
unfoldable pub iter_new : StmtPtr Tables Joined → Bool → Iter
iter_new stmt atomic = record {
  stmt = stmt;
  columns = none;
  atomic = atomic;
  current_event_id = negsuc 0;
  current_service_id = negsuc 0;
  current_event_type_id = negsuc 0;
  active_plugin = none;
}

-- `g_value_get_int`, which answers 0 for another type; `none` is the NULL of a name that is missing.
abbrev pub get_int : Option Value → Option ℤ
get_int none = none
get_int (some (int_value z)) = some z
get_int (some _) = some (pos 0)

-- What the iterator needs: the connection's engine, SQLite's conversions, and `priv->plugins`.
pub record Context : Type 0 where
  pub env : Env Tables
  pub casts : Casts
  pub plugins : ℤ → Plugin

module _ (w : Context) where
  -- The three LOOKUP_INT and the plugin.
  abbrev pub with_current : Iter → Columns → Run Iter
  with_current it c = elim (get_int (find "id" c)) [
    | none ↦ undefined
    | some id ↦ elim (get_int (find "service-id" c)) [
      | none ↦ undefined
      | some service_id ↦ elim (get_int (find "event-type-id" c)) [
        | none ↦ undefined
        | some event_type_id ↦ returns (record it {
          columns = some c;
          current_event_id = id;
          current_service_id = service_id;
          current_event_type_id = event_type_id;
          active_plugin = w.plugins service_id;
        })
      ]
    ]
  ]

  abbrev pub renewed : Option Columns → Joined → Option Columns
  renewed none r = get_row w.casts (cells r)
  renewed (some c) r = update_row w.casts (cells r) c

  -- `_update_representation`, on the row at which the statement is
  unfoldable pub update_representation : Joined → Iter → Run Iter
  update_representation r it = elim (renewed it.columns r) [
    | none ↦ undefined
    | some c ↦ with_current it c
  ]

  abbrev pub moved : Run Iter → Db Tables → Run (Bool × Iter × Db Tables)
  moved undefined db = undefined
  moved (returns it) db = returns (true, it, db)

  -- What `rtcom_el_iter_next` makes of the result code. After a refusal the pointer stays.
  abbrev pub after_step : Iter → Step Tables Joined × Db Tables → Run (Bool × Iter × Db Tables)
  after_step it (at_row r s, db) = moved (update_representation r (record it { stmt = live s })) db
  after_step it (at_end, db) = returns (false, record it { stmt = null }, db)
  after_step it (refused, db) = returns (false, record it { stmt = freed }, db)

  -- `rtcom_el_iter_next`
  unfoldable pub next : Iter → Db Tables → Run (Bool × Iter × Db Tables)
  next it db = elim it.stmt [
    | null ↦ returns (false, it, db)
    | live s ↦ after_step it (step w.env s db)
    | freed ↦ undefined
  ]

  -- `rtcom_el_iter_first`
  unfoldable pub first : Iter → Db Tables → Run (Bool × Iter × Db Tables)
  first it db = elim it.stmt [
    | null ↦ returns (false, it, db)
    | live s ↦ next (record it { stmt = live (reset s) }) db
    | freed ↦ undefined
  ]

  abbrev pub closed : Iter → Db Tables → Db Tables
  closed it db = if it.atomic then (let (_, _, db') = commit w.env db in db') else db

  -- `rtcom_el_iter_finalize`
  unfoldable pub finalize : Iter → Db Tables → Run (Db Tables)
  finalize it db = elim it.stmt [
    | null ↦ returns (closed it db)
    | live s ↦ returns (closed it db)
    | freed ↦ undefined
  ]
