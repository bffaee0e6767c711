-- ===== src/Logger/Add.antt =====
-- `rtcom_el_add_event` of src/eventlogger.c: `_add_event_precheck`, `_add_event_core` and the
-- transaction around them.
use rtcom_eventlogger.Common.{
  ℕ, ltb, Bool, true, false, not, Option, none, some, List, [], ◌∷◌, map, String, ℤ, pos, same,
  same_opt, keep, any, if◌then◌else◌,
}
use rtcom_eventlogger.Event.{
  Field, Event, is_set, set_bit, service, event_type, local_uid, group_uid, remote_uid, remote_name,
  remote_ebook_uid, start_time, end_time, is_read, outgoing, flags, bytes_sent, bytes_received,
  local_name, channel, free_text,
}
use rtcom_eventlogger.Db.{Status, Error, internal, invalid_argument, temporary, database_full}
use rtcom_eventlogger.Store.{EventRow, RemoteRow, Tables, max_id, insert_event}
use rtcom_eventlogger.Logger.{
  El, World, Exec, pure, raise, crash, ◌>>=◌, ◌>>◌, blamed, check, gets, lookup_id, is_remote,
  emit_dbus, select, run, begin, committing, new_event,
}
pub mod Refreshed
pub mod Remote
pub mod Inside
pub mod Checked
pub mod Commit

-- An event type that is deprecated, by what replaces it and whether it was an outgoing one.
abbrev pub modern_type : String → Option (String × Bool)
modern_type s =
    if same s "RTCOM_EL_EVENTTYPE_CHAT_INBOUND"
    then some ("RTCOM_EL_EVENTTYPE_CHAT_MESSAGE", false)
    else if same s "RTCOM_EL_EVENTTYPE_CHAT_OUTBOUND"
    then some ("RTCOM_EL_EVENTTYPE_CHAT_MESSAGE", true)
    else if same s "RTCOM_EL_EVENTTYPE_SMS_INBOUND"
    then some ("RTCOM_EL_EVENTTYPE_SMS_MESSAGE", false)
    else if same s "RTCOM_EL_EVENTTYPE_SMS_OUTBOUND"
    then some ("RTCOM_EL_EVENTTYPE_SMS_MESSAGE", true)
    else none

abbrev pub with_type : Event → Option (String × Bool) → Event
with_type ev none = ev
with_type ev (some (t, false)) = record ev {
  mask = set_bit event_type ev.mask;
  fld_event_type = some t;
}
with_type ev (some (t, true)) = record ev {
  mask = set_bit outgoing (set_bit event_type ev.mask);
  fld_event_type = some t;
  fld_outgoing = pos 1;
}

abbrev pub modernised : Event → Option String → Event
modernised ev none = ev
modernised ev (some t) = with_type ev (modern_type t)

-- A lookup by a text of the event; the hash of NULL is a crash.
abbrev pub known : Option String → List (String × ℕ) → Exec ℕ
known none names = crash
known (some s) names = elim (lookup_id s names) [
  | none ↦ raise (some invalid_argument)
  | some i ↦ pure i
]

-- `_add_event_precheck`: the event as it is from then on, its service and its type.
unfoldable pub add_event_precheck : Event → Exec (Event × ℕ × ℕ)
add_event_precheck ev = do
  check (is_set ev service) invalid_argument
  check (is_set ev event_type) invalid_argument
  check (is_set ev local_uid) invalid_argument
  services ← gets (λ el. el.services)
  service_id ← known ev.fld_service services
  event_types ← gets (λ el. el.event_types)
  let ev' = modernised ev ev.fld_event_type in
      do event_type_id ← known ev'.fld_event_type event_types; pure (ev', service_id, event_type_id)

abbrev pub int_or_0 : Event → Field → ℤ → ℤ
int_or_0 ev f n = if is_set ev f then n else pos 0

abbrev pub text_or_null : Event → Field → Option String → Option String
text_or_null ev f s = if is_set ev f then s else none

-- The VALUES of INSERT INTO Events
unfoldable pub event_row : Event → ℕ → ℕ → ℤ → Option String → ℕ → EventRow
event_row ev service_id event_type_id time last_group_uid i = record {
  id = i;
  service_id = service_id;
  event_type_id = event_type_id;
  storage_time = time;
  start_time = int_or_0 ev start_time ev.fld_start_time;
  end_time = int_or_0 ev end_time ev.fld_end_time;
  is_read = int_or_0 ev is_read ev.fld_is_read;
  outgoing = int_or_0 ev outgoing ev.fld_outgoing;
  flags = if is_set ev flags then ev.fld_flags else 0;
  bytes_sent = int_or_0 ev bytes_sent ev.fld_bytes_sent;
  bytes_received = int_or_0 ev bytes_received ev.fld_bytes_received;
  local_uid = text_or_null ev local_uid ev.fld_local_uid;
  local_name = text_or_null ev local_name ev.fld_local_name;
  remote_uid = text_or_null ev remote_uid ev.fld_remote_uid;
  channel = text_or_null ev channel ev.fld_channel;
  free_text = text_or_null ev free_text ev.fld_free_text;
  group_uid = if is_set ev group_uid then ev.fld_group_uid else last_group_uid;
}

-- `struct remotes_ctx`
pub record RemotesCtx : Type 0 where
  pub exists : Bool
  pub abook_uid : Option String
  pub remote_name : Option String

-- `_fetch_remote_data` on a row of SELECT abook_uid, remote_name: it reads column 1, and column 2,
-- which SQLite answers with NULL.
abbrev pub fetch_remote_data : RemoteRow → RemotesCtx → RemotesCtx
fetch_remote_data r ctx = record { exists = true; abook_uid = r.remote_name; remote_name = none }

abbrev pub no_remote : RemotesCtx
no_remote = record { exists = false; abook_uid = none; remote_name = none }

-- UNIQUE (local_uid, remote_uid), both NOT NULL
abbrev pub insert_remote :
    Option String → Option String → Option String → Option String → Tables → Option Tables
insert_remote (some l) (some r) name abook t =
    if any (is_remote (some r) (some l)) t.remotes
    then none
    else some (record t {
      remotes =
          record { local_uid = l; remote_uid = r; remote_name = name; abook_uid = abook }
          ∷ t.remotes;
    })
insert_remote _ _ name abook t = none

-- UPDATE Remotes SET f WHERE remote_uid = … AND local_uid = …
abbrev pub update_remote :
    Option String → Option String → (RemoteRow → RemoteRow) → Tables → Option Tables
update_remote l r f t =
    some (record t { remotes = map (λ x. if is_remote r l x then f x else x) t.remotes })

-- The codes that `db_error:` tells apart.
abbrev pub insert_error : El → Error
insert_error el = elim el.db.errcode [
  | Status.full ↦ database_full
  | Status.ioerr ↦ database_full
  | Status.busy ↦ temporary
  | _ ↦ internal
]

abbrev pub new_name : Event → Option String
new_name ev = text_or_null ev remote_name ev.fld_remote_name

abbrev pub new_abook_uid : Event → Option String
new_abook_uid ev = text_or_null ev remote_ebook_uid ev.fld_remote_ebook_uid

module _ (w : World) where
  -- What is known of the event's remote, before the INSERT.
  abbrev pub existing_remote : Event → Exec RemotesCtx
  existing_remote ev =
      if is_set ev remote_uid
      then select w fetch_remote_data no_remote
          (λ t. keep (is_remote ev.fld_remote_uid ev.fld_local_uid) t.remotes)
      else pure no_remote

  abbrev pub update_when : Bool → (Tables → Option Tables) → Exec (Unit {0})
  update_when b f = if b then run w f else pure tt

  -- The new row of Remotes.
  abbrev pub create_remote : Event → Exec (Unit {0})
  create_remote ev =
      run w (insert_remote ev.fld_local_uid ev.fld_remote_uid (new_name ev) (new_abook_uid ev))

  -- The two UPDATE statements of Remotes.
  abbrev pub update_remotes : Event → RemotesCtx → Exec (Unit {0})
  update_remotes ev ctx = do
    update_when (not (same_opt (new_abook_uid ev) ctx.abook_uid)) (
        update_remote ev.fld_local_uid ev.fld_remote_uid
          (λ x. record x { abook_uid = new_abook_uid ev }))
    update_when (not (same_opt (new_name ev) ctx.remote_name)) (
        update_remote ev.fld_local_uid ev.fld_remote_uid
          (λ x. record x { remote_name = new_name ev }))

  abbrev pub store_remote : Event → RemotesCtx → Exec (Unit {0})
  store_remote ev ctx =
      if is_set ev remote_uid
      then (if ctx.exists then update_remotes ev ctx else create_remote ev)
      else pure tt

  abbrev pub note_group : Event → El → El
  note_group ev el = record el {
    last_group_uid = if is_set ev group_uid then ev.fld_group_uid else el.last_group_uid;
  }

  -- The statements of `_add_event_core`. SQLite's last rowid is that of the row just inserted, the
  -- largest one.
  abbrev pub add_event_statements : Event → ℕ → ℕ → Exec ℕ
  add_event_statements ev service_id event_type_id = do
    ctx ← existing_remote ev
    time ← gets (λ el. w.now el.db.clock)
    last ← gets (λ el. el.last_group_uid)
    run w (insert_event (event_row ev service_id event_type_id time last))
    event_id ← gets (λ el. max_id el.db.core.tables.events)
    store_remote ev ctx
    pure event_id

  -- `_add_event_core`
  unfoldable pub add_event_core : Event → ℕ → ℕ → Exec ℕ
  add_event_core ev service_id event_type_id el =
      blamed insert_error (add_event_statements ev service_id event_type_id (note_group ev el))

  -- `rtcom_el_add_event`
  unfoldable pub add_event : Event → Exec ℕ
  add_event ev = do
    (ev', service_id, event_type_id) ← add_event_precheck ev
    begin w
    event_id ← committing w (add_event_core ev' service_id event_type_id)
    if ltb 0 event_id then emit_dbus w new_event (some event_id) ev'.fld_service else pure tt
    pure event_id
