-- ===== src/Iterator/Values.antt =====
-- src/eventlogger-iter.c: what can be read at the row of an iterator, the headers and the attachments
-- of its event included.
use mathlib.Core.List.{reverse}
use rtcom_eventlogger.Common.{
  ℕ, suc, ℤ, pos, Bool, true, false, Option, none, some, List, [], ◌∷◌, String, keep, eqb_ℤ, same,
  if◌then◌else◌, ◌&&◌,
}
use rtcom_eventlogger.Db.{Status, Fault, Db, code, after_failure}
use rtcom_eventlogger.Event.{
  Field, Event, set_bit, id, service_id, event_type_id, storage_time, start_time, end_time, is_read,
  outgoing, flags, bytes_sent, bytes_received, remote_ebook_uid, local_uid, local_name, remote_uid,
  remote_name, channel, free_text, group_uid, service, event_type, additional_text, icon_name,
  pango_markup,
}
use rtcom_eventlogger.Store.{HeaderRow, AttachmentRow, Tables}
use rtcom_eventlogger.Statement.{
  null, live, freed, Run, undefined, returns, Step, at_row, at_end, refused, step,
}
use rtcom_eventlogger.Row.{Value, unset, boolean_value, text_value, Columns, find, put, word32}
use rtcom_eventlogger.AttachIter.{AttachIter}
use rtcom_eventlogger.Logger.{is_ok}
use rtcom_eventlogger.Iterator.{Iter, Plugin, Context, get_int}

-- `rtcom_el_iter_get_raw`; `none` is FALSE.
unfoldable pub get_raw : String → Iter → Option Value
get_raw key it = elim it.columns [ none ↦ none | some c ↦ find key c ]

-- What the plugin of the row answers.
abbrev pub ask : Plugin → String → Option Columns → Option Value
ask none key c = none
ask (some get_value) key none = none
ask (some get_value) key (some c) = get_value key c

abbrev pub or_raw : Option Value → Option Value → Option Value
or_raw none raw = raw
or_raw (some v) raw = some v

-- `_find_value`
unfoldable pub find_value : String → Iter → Option Value
find_value key it = or_raw (ask it.active_plugin key it.columns) (get_raw key it)

abbrev pub or_unset : Option Value → Value
or_unset none = unset
or_unset (some v) = v

abbrev pub all_values : Iter → List String → List Value
all_values it [] = []
all_values it (k ∷ ks) = or_unset (find_value k it) ∷ all_values it ks

-- `rtcom_el_iter_get_valuearray`; what `_find_value` returns is not looked at, and a name that nothing
-- knows has a value of no type.
unfoldable pub get_valuearray : List String → Iter → Option (List Value)
get_valuearray [] it = none
get_valuearray (key ∷ keys) it = elim it.columns [
  | none ↦ none
  | some c ↦ some (all_values it (key ∷ keys))
]

abbrev pub insert_all : Iter → List String → Columns → Columns
insert_all it [] map = map
insert_all it (k ∷ ks) map = insert_all it ks (put k (or_unset (find_value k it)) map)

-- `rtcom_el_iter_get_value_map`
unfoldable pub get_value_map : List String → Iter → Option Columns
get_value_map [] it = none
get_value_map (key ∷ keys) it = elim it.columns [
  | none ↦ none
  | some c ↦ some (insert_all it (key ∷ keys) [])
]

-- The loop of `rtcom_el_iter_get_values`: whether it went through, and what it stored for the caller.
-- A value of no type ends the program by `g_error`.
unfoldable pub read_values : Iter → List String → Run (Bool × List Value)
read_values it [] = returns (true, [])
read_values it (k ∷ ks) = elim (find_value k it) [
  | none ↦ returns (false, [])
  | some unset ↦ undefined
  | some v ↦ elim (read_values it ks) [
    | undefined ↦ undefined
    | returns (b, vs) ↦ returns (b, v ∷ vs)
  ]
]

-- `rtcom_el_iter_get_values`, and for one name `rtcom_el_iter_get_int` and `rtcom_el_iter_dup_string`
unfoldable pub get_values : List String → Iter → Run (Bool × List Value)
get_values [] it = returns (false, [])
get_values (key ∷ keys) it = elim it.columns [
  | none ↦ returns (false, [])
  | some c ↦ read_values it (key ∷ keys)
]

-- `rtcom_el_iter_get_columns`; `none` is NULL.
unfoldable pub get_columns : Iter → Option Columns
get_columns it = elim it.stmt [ null ↦ none | live s ↦ it.columns | freed ↦ it.columns ]

-- `RTCOM_EL_EVENT_SET_FIELD`: the bit, and the value by `set`.
abbrev pub set_field : Field → (Event → Event) → Event → Event
set_field f set ev = let ev' = set ev in record ev' { mask = set_bit f ev'.mask }

-- `g_value_dup_string`, which answers NULL for another type, and `g_value_get_boolean`
abbrev pub dup_string : Option Value → Option (Option String)
dup_string none = none
dup_string (some (text_value o)) = some o
dup_string (some _) = some none

abbrev pub get_boolean : Option Value → Option ℤ
get_boolean none = none
get_boolean (some (boolean_value b)) = some (if b then pos 1 else pos 0)
get_boolean (some _) = some (pos 0)

-- One statement of `rtcom_el_iter_get_full`; `none` is a name that the hash table does not have.
abbrev pub Setter : Type 0
Setter = Columns → Event → Option Event

abbrev pub from {ℓ} : {A : Type ℓ} → Option A → Field → (A → Event → Event) → Event → Option Event
from none f set ev = none
from (some v) f set ev = some (set_field f (set v) ev)

abbrev pub int_field : String → Field → (ℤ → Event → Event) → Setter
int_field key f set c = from (get_int (find key c)) f set

abbrev pub boolean_field : String → Field → (ℤ → Event → Event) → Setter
boolean_field key f set c = from (get_boolean (find key c)) f set

abbrev pub text_field : String → Field → (Option String → Event → Event) → Setter
text_field key f set c = from (dup_string (find key c)) f set

unfoldable pub setters : List Setter
setters =
    int_field "id" id (λ v ev. record ev { fld_id = v })
    ∷ int_field "service-id" service_id (λ v ev. record ev { fld_service_id = v })
    ∷ int_field "event-type-id" event_type_id (λ v ev. record ev { fld_event_type_id = v })
    ∷ text_field "service" service (λ v ev. record ev { fld_service = v })
    ∷ text_field "event-type" event_type (λ v ev. record ev { fld_event_type = v })
    ∷ int_field "storage-time" storage_time (λ v ev. record ev { fld_storage_time = v })
    ∷ int_field "start-time" start_time (λ v ev. record ev { fld_start_time = v })
    ∷ int_field "end-time" end_time (λ v ev. record ev { fld_end_time = v })
    ∷ boolean_field "is-read" is_read (λ v ev. record ev { fld_is_read = v })
    ∷ boolean_field "outgoing" outgoing (λ v ev. record ev { fld_outgoing = v })
    ∷ int_field "flags" flags (λ v ev. record ev { fld_flags = word32 v })
    ∷ int_field "bytes-sent" bytes_sent (λ v ev. record ev { fld_bytes_sent = v })
    ∷ int_field "bytes-received" bytes_received (λ v ev. record ev { fld_bytes_received = v })
    ∷ text_field "remote-ebook-uid" remote_ebook_uid
        (λ v ev. record ev { fld_remote_ebook_uid = v })
    ∷ text_field "local-uid" local_uid (λ v ev. record ev { fld_local_uid = v })
    ∷ text_field "local-name" local_name (λ v ev. record ev { fld_local_name = v })
    ∷ text_field "remote-uid" remote_uid (λ v ev. record ev { fld_remote_uid = v })
    ∷ text_field "remote-name" remote_name (λ v ev. record ev { fld_remote_name = v })
    ∷ text_field "channel" channel (λ v ev. record ev { fld_channel = v })
    ∷ text_field "free-text" free_text (λ v ev. record ev { fld_free_text = v })
    ∷ text_field "group-uid" group_uid (λ v ev. record ev { fld_group_uid = v })
    ∷ (λ c ev. some (set_field additional_text (λ x. record x { fld_additional_text = none }) ev))
    ∷ text_field "service" icon_name (λ v ev. record ev { fld_icon_name = v })
    ∷ text_field "service" pango_markup (λ v ev. record ev { fld_pango_markup = v })
    ∷ []

unfoldable pub run_setters : List Setter → Columns → Event → Option Event
run_setters [] c ev = some ev
run_setters (s ∷ ss) c ev = elim (s c ev) [ none ↦ none | some ev' ↦ run_setters ss c ev' ]

-- What a plugin answers, in place of the value that is there.
abbrev pub replaced : Option Value → Field → (Option String → Event → Event) → Event → Event
replaced none f set ev = ev
replaced (some (text_value o)) f set ev = set_field f (set o) ev
replaced (some _) f set ev = set_field f (set none) ev

abbrev pub by_plugin : Iter → Event → Event
by_plugin it ev =
    replaced (ask it.active_plugin "pango-markup" it.columns) pango_markup
      (λ v x. record x { fld_pango_markup = v })
      (replaced (ask it.active_plugin "icon-name" it.columns) icon_name
        (λ v x. record x { fld_icon_name = v })
        (replaced (ask it.active_plugin "additional-text" it.columns) additional_text
          (λ v x. record x { fld_additional_text = v }) ev))

abbrev pub filled : Iter → Option Event → Run (Option Event)
filled it none = undefined
filled it (some ev) = returns (some (by_plugin it ev))

-- `rtcom_el_iter_get_full`, and `rtcom_el_iter_get`; `none` is FALSE.
unfoldable pub get_full : Iter → Event → Run (Option Event)
get_full it ev = elim (get_columns it) [
  | none ↦ returns none
  | some c ↦ filled it (run_setters setters c ev)
]

-- SELECT … FROM Attachments WHERE event_id = ?, in the order of the row ids
abbrev pub attachments_of : ℤ → Tables → List AttachmentRow
attachments_of i t = reverse (keep (λ a. eqb_ℤ (pos a.event_id) i) t.attachments)

abbrev pub headers_of : ℤ → String → Tables → List HeaderRow
headers_of i key t = reverse (keep (λ h. eqb_ℤ (pos h.event_id) i && same h.name key) t.headers)

module _ (w : Context) where
  abbrev pub prepared : Db Tables → Db Tables
  prepared db = record db { errcode = Status.ok; clock = suc db.clock }

  -- `sqlite3_prepare` failed.
  abbrev pub not_prepared : Db Tables → Db Tables
  not_prepared db = after_failure w.env (w.env.prepare db.clock) db

  abbrev pub attach_iter : Step Tables AttachmentRow × Db Tables → Option AttachIter × Db Tables
  attach_iter (at_row r s, db) = (some (record { stmt = live s }), db)
  attach_iter (at_end, db) = (none, db)
  attach_iter (refused, db) = (none, db)

  abbrev pub open_attachments : Iter → Db Tables → Option AttachIter × Db Tables
  open_attachments it db =
      if is_ok (w.env.prepare db.clock)
      then attach_iter (
          step w.env
            (record { rows = attachments_of it.current_event_id; pending = none; current = none })
            (prepared db))
      else (none, not_prepared db)

  -- `rtcom_el_iter_get_attachments`; `none` is NULL.
  unfoldable pub get_attachments : Iter → Db Tables → Option AttachIter × Db Tables
  get_attachments it db = elim it.stmt [
    | null ↦ (none, db)
    | live s ↦ open_attachments it db
    | freed ↦ open_attachments it db
  ]

  abbrev pub first_value : List HeaderRow → Option String
  first_value [] = none
  first_value (h ∷ hs) = some h.value

  abbrev pub header_step : List HeaderRow → List (Fault × ℕ) → Db Tables → Option String × Db Tables
  header_step hs [] db = (first_value hs, record db { clock = suc db.clock })
  header_step hs ((f, _) ∷ _) db = (none, after_failure w.env (code f) db)

  -- `rtcom_el_iter_get_header_raw`: one step, and NULL when anything fails.
  unfoldable pub get_header_raw : String → Iter → Db Tables → Option String × Db Tables
  get_header_raw key it db =
      if is_ok (w.env.prepare db.clock)
      then header_step (headers_of it.current_event_id key db.core.tables)
          (w.env.refusals (prepared db).clock) (prepared db)
      else (none, not_prepared db)
