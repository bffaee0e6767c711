-- ===== src/Examples.antt =====
-- Concrete inputs at which the theorems of the other files apply: a logger with one text message in
-- its database, on an engine that never refuses.
use Prim.Native.String.{◌++◌ as text_append}
use rtcom_eventlogger.Common.{
  ℕ, ◌≡◌, ◌≢◌, ◌+◌, refl, inl, ℤ, pos, negsuc, true, false, none, some, List, [], ◌∷◌, String,
  arith, same, same_refl, ◌+ℤ◌, ◌-ℤ◌,
}
use rtcom_eventlogger.Event.{
  Field, Event, event_new, set_bit, service, event_type, local_uid, group_uid,
}
use rtcom_eventlogger.Db.{
  Status, Fault, Env, Core, Db, truncate, off, on_tables, iterate, exec, spin,
}
use rtcom_eventlogger.Db.Iterate.{spin_deadline, Reports, iterate-Reports}
use rtcom_eventlogger.Db.Exec.{Contract, exec-Contract}
use rtcom_eventlogger.Db.Transaction.{committed, Within, exec-Within}
use rtcom_eventlogger.Store.{
  EventRow, GroupRow, Tables, insert_event, add_empty, unique_event_ids, update_events,
}
use rtcom_eventlogger.Store.Cache.{Consistent}
use rtcom_eventlogger.Store.Insert.{insert_event-Consistent}
use rtcom_eventlogger.Store.Update.{KeepsGroup, update_events-Consistent}
use rtcom_eventlogger.Logger.{El, World, Disk, good, event_updated, emit_dbus}
use rtcom_eventlogger.Logger.Emit.{Sends, emit_dbus-Sends}
use rtcom_eventlogger.Logger.Single.{Unless}
use rtcom_eventlogger.Logger.Add.{add_event}
use rtcom_eventlogger.Logger.Add.Commit.{Added, add_event-Added, add_event-Consistent}
use rtcom_eventlogger.Logger.Change.{
  has_id, with_read, with_flag, without_flag, set_read_event, set_read_events, set_event_flag,
  unset_event_flag,
}
use rtcom_eventlogger.Logger.Change.Reads.{Prefix, set_read_events-Prefix}
use rtcom_eventlogger.Logger.Change.Effects.{Flagged, set_event_flag-Flagged, changes-Consistent}
use rtcom_eventlogger.Logger.Lookup.{get_group_info}
use rtcom_eventlogger.Logger.Lookup.Totals.{Counts, Fits, get_group_info-Counts}
use rtcom_eventlogger.Store.Cache.{members}
use rtcom_eventlogger.Db.Calm.{Calm, exec-Calm}
use rtcom_eventlogger.Logger.Change.{
  Contact, with_contact, without_abook, update_remote_contacts, remove_abook_uids,
}
use rtcom_eventlogger.Logger.Change.Contacts.{
  AllOrNone, update_remote_contacts-AllOrNone, remove_abook_uids-AllOrNone,
}
pub mod Adding
pub mod Asking
pub mod Deleting
pub mod Loading
pub mod Naming
pub mod Opening
pub mod Reading
pub mod Storing

abbrev calm : {T : Type 0} → Env T
calm = record {
  prepare = λ _. Status.ok;
  refusals = λ _. [];
  auto_rollback = λ _. false;
  garbled = λ saved now. now;
}

abbrev ready : Disk
ready = record {
  join = λ a b. text_append a (text_append "/" b);
  home_dir = "/home/user";
  makes = λ _ _. true;
  reads = λ _ _. some ((1 ∷ 2 ∷ []) ∷ (3 ∷ []) ∷ []);
  room = λ _ _. some 10;
  closes = λ _ _. true;
  basename = λ _. "picture";
  stamp = λ _ _. "202611261700";
  decimal = λ _. "1";
}

abbrev quiet_world : World
quiet_world = record { env = calm; bus = λ _. true; now = λ _. pos 100; disk = ready }

abbrev message : ℕ → EventRow
message i = record {
  id = i;
  service_id = 1;
  event_type_id = 2;
  storage_time = pos 7;
  start_time = pos 6;
  end_time = pos 0;
  is_read = pos 0;
  outgoing = pos 0;
  flags = 0;
  bytes_sent = pos 0;
  bytes_received = pos 0;
  local_uid = some "ring/tel";
  local_name = none;
  remote_uid = some "555";
  channel = none;
  free_text = some "hello";
  group_uid = some "555";
}

abbrev no_tables : Tables
no_tables = record {
  events = [];
  remotes = [];
  headers = [];
  attachments = [];
  flag_names =
      record { id = 1; service_id = 1; name = "RTCOM_EL_FLAG_SMS_PENDING"; value = 2 } ∷ [];
  group_cache = [];
}

abbrev message_row : GroupRow
message_row = record {
  event_id = 1;
  service_id = 1;
  group_uid = "555";
  total_events = 1;
  read_events = pos 0;
  flags = 0;
}

abbrev one_message : Tables
one_message = record no_tables { events = message 1 ∷ []; group_cache = message_row ∷ [] }

no_tables-Consistent : Consistent no_tables
no_tables-Consistent = record {
  ids = tt;
  tracks = λ g. refl;
  one_service = λ g x y hx hy. absurd hx;
}

inserted : insert_event message no_tables ≡ some one_message
unfolding insert_event add_empty unique_event_ids ◌+ℤ◌
inserted = rw (same_refl "555") refl

one_message-Consistent : Consistent one_message
one_message-Consistent =
    insert_event-Consistent message no_tables one_message (λ n. refl) no_tables-Consistent inserted

abbrev core : Core Tables
core = record { tables = one_message; saved = no_tables; autocommit = true; journal = truncate }

abbrev db : Db Tables
db = record { core = core; errcode = Status.ok; clock = 0 }

abbrev txn : Db Tables
txn = record db { core = record core { saved = one_message; autocommit = false } }

abbrev logger : El
logger = record {
  db = db;
  services = ("RTCOM_EL_SERVICE_SMS", 1) ∷ [];
  event_types = ("RTCOM_EL_EVENTTYPE_SMS_MESSAGE", 2) ∷ [];
  last_group_uid = none;
  sent = [];
  files = [];
}

abbrev reply : Event
reply = record event_new {
  mask = set_bit service (set_bit event_type (set_bit local_uid (set_bit group_uid (λ _. false))));
  fld_service = some "RTCOM_EL_SERVICE_SMS";
  fld_event_type = some "RTCOM_EL_EVENTTYPE_SMS_OUTBOUND";
  fld_local_uid = some "ring/tel";
  fld_group_uid = some "555";
}

abbrev with_id : ℤ → Event
with_id n = record event_new { mask = set_bit Field.id event_new.mask; fld_id = n }

journaled : logger.db.core.journal ≢ off
journaled h = cc

reading-KeepsGroup : KeepsGroup (with_read true)
reading-KeepsGroup = record {
  same_id = λ e. refl;
  same_service = λ e. refl;
  same_group = λ e. refl;
}

add_event-Added_example : Added quiet_world reply logger (add_event quiet_world reply logger)
add_event-Added_example = add_event-Added quiet_world reply logger journaled

add_event-Consistent_example : Consistent (committed (add_event quiet_world reply logger).1.db.core)
add_event-Consistent_example =
    add_event-Consistent quiet_world reply logger journaled one_message-Consistent

insert_event-Consistent_example : Consistent one_message
insert_event-Consistent_example =
    insert_event-Consistent message no_tables one_message (λ n. refl) no_tables-Consistent inserted

update_events-Consistent_example :
    Consistent (update_events (has_id 1) (with_read true) one_message)
update_events-Consistent_example =
    update_events-Consistent (has_id 1) (with_read true) reading-KeepsGroup one_message
      one_message-Consistent

exec-Contract_example :
    Contract calm
      (λ (n : ℕ) (ns : List ℕ). n ∷ ns)
      (on_tables (λ (t : Tables). some (1 ∷ 2 ∷ [], t)))
      []
      core
      (exec calm (λ (n : ℕ) (ns : List ℕ). n ∷ ns) (on_tables (λ t. some (1 ∷ 2 ∷ [], t))) [] db)
exec-Contract_example =
    exec-Contract calm (λ (n : ℕ) (ns : List ℕ). n ∷ ns)
      (on_tables (λ (t : Tables). some (1 ∷ 2 ∷ [], t))) [] db

exec-Within_example :
    Within calm one_message
      (λ (t : Tables). some (1 ∷ [], no_tables))
      (λ (n : ℕ) (m : ℕ). n + m)
      0
      one_message
      (exec calm
        (λ (n : ℕ) (m : ℕ). n + m)
        (on_tables (λ (t : Tables). some (1 ∷ [], no_tables)))
        0
        txn)
exec-Within_example =
    exec-Within calm one_message (λ (t : Tables). some (1 ∷ [], no_tables))
      (λ (n : ℕ) (m : ℕ). n + m) 0 txn (refl, refl, λ h. cc)

spin_deadline_example :
    spin ((Fault.busy, 3) ∷ (Fault.locked, 2001) ∷ (Fault.full, 2002) ∷ []) Status.row
    ≡ spin ((Fault.busy, 3) ∷ (Fault.locked, 2001) ∷ []) Status.done
spin_deadline_example =
    spin_deadline ((Fault.busy, 3) ∷ []) Fault.locked 2001 ((Fault.full, 2002) ∷ []) Status.row
      Status.done (omega arith)

iterate-Reports_example :
    Reports Status.row ((iterate calm Status.row db).0, (iterate calm Status.row db).1)
iterate-Reports_example = iterate-Reports calm Status.row db (inl refl)

emit_dbus-Sends_example :
    let r = emit_dbus quiet_world event_updated (some 1) none logger in
    (r.0 ≡ good tt) × (r.1.db.core ≡ core) × Sends event_updated (some 1) none logger r.1
emit_dbus-Sends_example = emit_dbus-Sends quiet_world event_updated (some 1) none logger refl

set_read_events-Prefix_example :
    Prefix true
      (pos 1 ∷ negsuc 0 ∷ [])
      logger
      (set_read_events quiet_world (some (pos 1 ∷ negsuc 0 ∷ [])) true logger)
set_read_events-Prefix_example =
    set_read_events-Prefix quiet_world true (pos 1 ∷ negsuc 0 ∷ []) logger refl

abbrev pending : String
pending = "RTCOM_EL_FLAG_SMS_PENDING"

set_event_flag-Flagged_example :
    Unless
      (λ _ el'. Flagged with_flag (pos 1) pending logger el')
      logger
      (set_event_flag quiet_world (pos 1) pending logger)
    × Unless
        (λ _ el'. Flagged without_flag (pos 1) pending logger el')
        logger
        (unset_event_flag quiet_world (pos 1) pending logger)
set_event_flag-Flagged_example = set_event_flag-Flagged quiet_world (pos 1) pending logger refl

changes-Consistent_example :
    Consistent (set_read_event quiet_world (pos 1) true logger).1.db.core.tables
    × Consistent (set_event_flag quiet_world (pos 1) pending logger).1.db.core.tables
    × Consistent (unset_event_flag quiet_world (pos 1) pending logger).1.db.core.tables
changes-Consistent_example =
    changes-Consistent quiet_world (pos 1) true pending logger refl one_message-Consistent

one_message-Fits : Fits (members "555" (message 1 ∷ []))
unfolding same ◌+ℤ◌ ◌-ℤ◌
one_message-Fits =
    ((omega arith, omega arith), (omega arith, omega arith), (omega arith, omega arith))

get_group_info-Counts_example :
    Unless
      (λ i el'. Counts (members "555" (message 1 ∷ [])) i × (el'.db.core ≡ core))
      logger
      (get_group_info quiet_world "555" logger)
get_group_info-Counts_example =
    get_group_info-Counts quiet_world "555" logger refl one_message-Consistent one_message-Fits

abbrev contact : Contact
contact = record {
  local_uid = some "ring/tel";
  remote_uid = some "555";
  abook_uid = some "7";
  remote_name = some "Ann";
}

update_remote_contacts-AllOrNone_example :
    AllOrNone with_contact
      (contact ∷ [])
      logger
      (update_remote_contacts quiet_world (contact ∷ []) logger)
update_remote_contacts-AllOrNone_example =
    update_remote_contacts-AllOrNone quiet_world contact [] logger journaled

remove_abook_uids-AllOrNone_example :
    AllOrNone without_abook ("7" ∷ []) logger (remove_abook_uids quiet_world ("7" ∷ []) logger)
remove_abook_uids-AllOrNone_example =
    remove_abook_uids-AllOrNone quiet_world "7" [] logger journaled

calm-Calm : Calm (calm {T = Tables})
calm-Calm = record { prepares = λ n. refl; goes_ahead = λ n. refl }

exec-Calm_example :
    let r =
      exec calm
        (λ (n : ℕ) (m : ℕ). n + m)
        (on_tables (λ (t : Tables). some (1 ∷ 2 ∷ [], no_tables)))
        0
        db in
    (r.0 ≡ true) × (r.3.core ≡ record core { tables = no_tables })
exec-Calm_example =
    exec-Calm calm calm-Calm (λ (n : ℕ) (m : ℕ). n + m)
      (on_tables (λ (t : Tables). some (1 ∷ 2 ∷ [], no_tables))) 0 db (1 ∷ 2 ∷ [])
      (record core { tables = no_tables }) refl
