-- ===== src/Logger/Change.antt =====
-- The operations of src/eventlogger.c that change rows of Events, or add to them: reading, flags, the
-- end time, headers and the contacts of the remotes.
use rtcom_eventlogger.Common.{
  ℕ, zero, suc, max, ℤ, pos, negsuc, bit_or, Bool, true, false, ◌&&◌, Option, none, some, List, [],
  ◌∷◌, map, String, same, same_opt, keep, any, ◌==◌, eqb_ℤ, if◌then◌else◌,
}
use rtcom_eventlogger.Db.{invalid_argument}
use rtcom_eventlogger.Store.{
  EventRow, RemoteRow, HeaderRow, FlagRow, Tables, and_not, update_events,
}
use rtcom_eventlogger.Logger.{
  El, World, Outcome, crashed, failed, good, Exec, pure, raise, ◌>>=◌, ◌>>◌, gets, is_remote,
  emit_dbus, select, run, begin, committing, event_updated, refresh_hint,
}
pub mod Single
pub mod Reads
pub mod Effects
pub mod Contacts

-- `event_id < 1` is refused; what is left is a natural number.
abbrev pub valid_id : ℤ → Exec ℕ
valid_id (pos zero) = raise (some invalid_argument)
valid_id (pos (suc n)) = pure (suc n)
valid_id (negsuc n) = raise (some invalid_argument)

abbrev pub has_id : ℕ → EventRow → Bool
has_id i e = e.id == i

-- `read == TRUE`
abbrev pub as_int : Bool → ℤ
as_int true = pos 1
as_int false = pos 0

abbrev pub with_read : Bool → EventRow → EventRow
with_read b e = record e { is_read = as_int b }

abbrev pub with_flag : ℕ → EventRow → EventRow
with_flag v e = record e { flags = bit_or e.flags v }

abbrev pub without_flag : ℕ → EventRow → EventRow
without_flag v e = record e { flags = and_not e.flags v }

abbrev pub with_end_time : ℤ → EventRow → EventRow
with_end_time n e = record e { end_time = n }

-- UPDATE Events SET f WHERE id = i
abbrev pub update_event : ℕ → (EventRow → EventRow) → Tables → Option Tables
update_event i f t = some (update_events (has_id i) f t)

-- The number that `rtcom_el_db_single_int` leaves, over what was there.
abbrev pub single_int : ℕ → Option ℕ → Option ℕ
single_int n _ = some n

abbrev pub flag_values : String → Tables → List ℕ
flag_values name t = map (λ (r : FlagRow). r.value) (keep (λ r. same r.name name) t.flag_names)

-- A failure that the caller sees as -1 or NULL, with no error.
abbrev pub or_none : {A : Type 0} → Outcome (Option A) × El → Outcome (Option A) × El
or_none (failed e, el) = (good none, el)
or_none (crashed, el) = (crashed, el)
or_none (good a, el) = (good a, el)

abbrev pub or_invalid : Option ℕ → Exec ℕ
or_invalid none = raise (some invalid_argument)
or_invalid (some n) = pure n

abbrev pub max_header_id : List HeaderRow → ℕ
max_header_id [] = 0
max_header_id (h ∷ hs) = max h.id (max_header_id hs)

-- INSERT INTO Headers, with UNIQUE (event_id, name)
abbrev pub insert_header : ℕ → String → String → Tables → Option Tables
insert_header i name value t =
    if any (λ h. (h.event_id == i) && same h.name name) t.headers
    then none
    else some (record t {
      headers =
          record { id = suc (max_header_id t.headers); event_id = i; name = name; value = value }
          ∷ t.headers;
    })

-- `RTComElRemote`
pub record Contact : Type 0 where
  pub local_uid : Option String
  pub remote_uid : Option String
  pub abook_uid : Option String
  pub remote_name : Option String

abbrev pub with_contact : Contact → RemoteRow → RemoteRow
with_contact c r =
    if is_remote c.remote_uid c.local_uid r
    then record r { abook_uid = c.abook_uid; remote_name = c.remote_name }
    else r

abbrev pub contact_stmt : Contact → Tables → Option Tables
contact_stmt c t = some (record t { remotes = map (with_contact c) t.remotes })

-- `abook_uid = uid`, which NULL never is
abbrev pub without_abook : String → RemoteRow → RemoteRow
without_abook uid r = if same_opt r.abook_uid (some uid) then record r { abook_uid = none } else r

abbrev pub abook_stmt : String → Tables → Option Tables
abook_stmt uid t = some (record t { remotes = map (without_abook uid) t.remotes })

module _ (w : World) where
  -- `rtcom_el_get_flag_value`; `none` is -1
  unfoldable pub get_flag_value : String → Exec (Option ℕ)
  get_flag_value flag el = or_none (select w single_int none (flag_values flag) el)

  -- `rtcom_el_fire_event_updated`, whose refusal sets no error
  unfoldable pub fire_event_updated : ℤ → Exec (Unit {0})
  fire_event_updated (pos (suc n)) = emit_dbus w event_updated (some (suc n)) none
  fire_event_updated _ = raise none

  -- The statement of an operation on one event, and its signal.
  abbrev pub change_event : ℕ → (EventRow → EventRow) → Exec (Unit {0})
  change_event i f = do run w (update_event i f); emit_dbus w event_updated (some i) none

  -- `rtcom_el_set_read_event`
  unfoldable pub set_read_event : ℤ → Bool → Exec (Unit {0})
  set_read_event event_id read = do i ← valid_id event_id; change_event i (with_read read)

  -- The loop of `rtcom_el_set_read_events`, over the ids before the 0 that ends the array.
  unfoldable pub set_each : List ℤ → Bool → Exec (Unit {0})
  set_each [] read = pure tt
  set_each (i ∷ is) read = do set_read_event i read; set_each is read

  -- `rtcom_el_set_read_events`; `none` is NULL
  unfoldable pub set_read_events : Option (List ℤ) → Bool → Exec (Unit {0})
  set_read_events none read = raise (some invalid_argument)
  set_read_events (some []) read = raise (some invalid_argument)
  set_read_events (some (i ∷ is)) read = set_each (i ∷ is) read

  -- `rtcom_el_set_event_flag`
  unfoldable pub set_event_flag : ℤ → String → Exec (Unit {0})
  set_event_flag event_id flag = do
    i ← valid_id event_id
    value ← get_flag_value flag
    v ← or_invalid value
    change_event i (with_flag v)

  -- `rtcom_el_unset_event_flag`
  unfoldable pub unset_event_flag : ℤ → String → Exec (Unit {0})
  unset_event_flag event_id flag = do
    i ← valid_id event_id
    value ← get_flag_value flag
    v ← or_invalid value
    change_event i (without_flag v)

  -- `rtcom_el_set_end_time`
  unfoldable pub set_end_time : ℤ → ℤ → Exec (Unit {0})
  set_end_time event_id end_time = do
    i ← valid_id event_id
    if eqb_ℤ end_time (pos 0) then pure tt else change_event i (with_end_time end_time)

  -- `rtcom_el_add_header`, on a header and a value that are not NULL: the id of the row that was
  -- just inserted, which is the largest one.
  unfoldable pub add_header : ℤ → String → String → Exec ℕ
  add_header event_id header value = do
    i ← valid_id event_id
    run w (insert_header i header value)
    gets (λ el. max_header_id el.db.core.tables.headers)

  -- One statement for each element of a list.
  unfoldable pub run_each : {A : Type 0} → (A → Tables → Option Tables) → List A → Exec (Unit {0})
  run_each f [] = pure tt
  run_each f (a ∷ rest) = do run w (f a); run_each f rest

  -- `rtcom_el_update_remote_contacts`; an empty GList is NULL, for which it returns TRUE
  unfoldable pub update_remote_contacts : List Contact → Exec (Unit {0})
  update_remote_contacts [] = pure tt
  update_remote_contacts (c ∷ cs) = do
    begin w
    committing w (run_each contact_stmt (c ∷ cs))
    emit_dbus w refresh_hint none none

  -- `rtcom_el_update_remote_contact`
  unfoldable pub update_remote_contact : Contact → Exec (Unit {0})
  update_remote_contact c = update_remote_contacts (c ∷ [])

  -- `rtcom_el_remove_abook_uids`
  unfoldable pub remove_abook_uids : List String → Exec (Unit {0})
  remove_abook_uids [] = pure tt
  remove_abook_uids (u ∷ us) = do
    begin w
    committing w (run_each abook_stmt (u ∷ us))
    emit_dbus w refresh_hint none none

  -- `rtcom_el_remove_abook_uid`
  unfoldable pub remove_abook_uid : String → Exec (Unit {0})
  remove_abook_uid u = remove_abook_uids (u ∷ [])
