-- ===== src/Logger/Full.antt =====
-- `rtcom_el_add_event_full` of src/eventlogger.c: an event with its attachments and its headers, in
-- one transaction.
use rtcom_eventlogger.Common.{ℕ, ltb, Option, none, some, List, [], ◌∷◌, String, pos, if◌then◌else◌}
use rtcom_eventlogger.Event.{Event}
use rtcom_eventlogger.Db.{invalid_argument}
use rtcom_eventlogger.AttachIter.{Attachment}
use rtcom_eventlogger.Logger.{
  World, Exec, new_event, pure, raise, crash, ◌>>=◌, ◌>>◌, emit_dbus, begin, committing,
}
use rtcom_eventlogger.Logger.Add.{add_event_precheck, add_event_core}
use rtcom_eventlogger.Logger.Attach.{add_attachment}
use rtcom_eventlogger.Logger.Change.{add_header}
pub mod Kept
pub mod Commit

-- A hash table of headers, in the order in which GLib goes through it; a value can be NULL.
abbrev pub Headers : Type 0
Headers = List (String × Option String)

module _ (w : World) where
  unfoldable pub add_attachments : ℕ → List Attachment → Exec (Unit {0})
  add_attachments event_id [] = pure tt
  add_attachments event_id (a ∷ rest) = do
    add_attachment w (pos event_id) a.path a.desc
    add_attachments event_id rest

  -- `rtcom_el_add_header` on an entry of the hash table, whose key is never NULL.
  abbrev pub add_entry : ℕ → String → Option String → Exec ℕ
  add_entry event_id header none = raise (some invalid_argument)
  add_entry event_id header (some value) = add_header w (pos event_id) header value

  unfoldable pub add_headers : ℕ → Headers → Exec (Unit {0})
  add_headers event_id [] = pure tt
  add_headers event_id ((header, value) ∷ rest) = do
    add_entry event_id header value
    add_headers event_id rest

  -- `g_hash_table_iter_init` on NULL leaves an iterator that is not initialised.
  abbrev pub headers_of : ℕ → Option Headers → Exec (Unit {0})
  headers_of event_id none = crash
  headers_of event_id (some headers) = add_headers event_id headers

  -- What is done between BEGIN and COMMIT.
  unfoldable pub add_all : Event → ℕ → ℕ → List Attachment → Option Headers → Exec ℕ
  add_all ev service_id event_type_id attachments headers = do
    event_id ← add_event_core w ev service_id event_type_id
    add_attachments event_id attachments
    headers_of event_id headers
    pure event_id

  -- `rtcom_el_add_event_full`; `headers` is `none` for NULL, and an empty GList is NULL.
  unfoldable pub add_event_full : Event → Option Headers → List Attachment → Exec ℕ
  add_event_full ev headers attachments = do
    (ev', service_id, event_type_id) ← add_event_precheck ev
    begin w
    event_id ← committing w (add_all ev' service_id event_type_id attachments headers)
    if ltb 0 event_id then emit_dbus w new_event (some event_id) ev'.fld_service else pure tt
    pure event_id
