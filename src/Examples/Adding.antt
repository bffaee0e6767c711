-- ===== src/Examples/Adding.antt =====
-- Concrete inputs at which the theorems on attachments and on the bus apply: a reply with a picture
-- and a header, and the signal of an event.
use rtcom_eventlogger.Common.{same, ◌+ℤ◌, ◌≡◌, refl, some, [], ◌∷◌}
use rtcom_eventlogger.AttachIter.{Attachment}
use rtcom_eventlogger.Logger.{
  Signal, event_updated, good, lookup_id, begin, run, select, finish, emit_dbus, undo,
}
use rtcom_eventlogger.Db.{
  transaction, exec_plain, exec, exec_rows, commit, last_step, iterate, rollback, spin, classify,
}
use rtcom_eventlogger.Store.{
  insert_event, update_events, unique_event_ids, add_empty, checked, cache_insert, cache_insert_at,
  count_event,
}
use rtcom_eventlogger.Logger.Change.{add_header}
use rtcom_eventlogger.Event.{bit}
use rtcom_eventlogger.Logger.Receive.{
  dbus_filter_callback, message_of, told, event_signal, filter_callback-heard,
}
use rtcom_eventlogger.Logger.Add.{add_event_precheck, event_row, add_event_core}
use rtcom_eventlogger.Logger.Attach.{
  add_attachment, place, copy_file, copy_loop, unique_from, build_unique_dirname,
}
use rtcom_eventlogger.Logger.Full.{Headers, add_event_full, add_all, add_attachments, add_headers}
use rtcom_eventlogger.Logger.Full.Commit.{AddedFull, add_event_full-Added}
use rtcom_eventlogger.Examples.{quiet_world, logger, reply, journaled}

abbrev picture : Attachment
picture = record { id = 0; event_id = 0; path = some "/tmp/picture"; desc = some "a picture" }

abbrev token : Headers
token = ("message-token", some "42") ∷ []

add_event_full-Added_example :
    AddedFull quiet_world reply
      (some token)
      (picture ∷ [])
      logger
      (add_event_full quiet_world reply (some token) (picture ∷ []) logger)
add_event_full-Added_example =
    add_event_full-Added quiet_world reply (some token) (picture ∷ []) logger journaled

-- The run succeeds, with the next id.
full_run : (add_event_full quiet_world reply (some token) (picture ∷ []) logger).0 ≡ good 2
unfolding add_event_full add_event_precheck add_event_core add_all add_attachments add_headers
    add_attachment place copy_file copy_loop build_unique_dirname unique_from event_row lookup_id
    same begin transaction exec_plain exec exec_rows run select finish commit ◌+ℤ◌ last_step iterate
    rollback spin classify emit_dbus undo insert_event add_header update_events bit unique_event_ids
    add_empty checked cache_insert cache_insert_at count_event
full_run = refl

abbrev read_signal : Signal
read_signal = record {
  kind = event_updated;
  event_id = some 1;
  local_uid = "ring/tel";
  remote_uid = "555";
  remote_ebook_uid = "";
  group_uid = "555";
  service = "";
}

filter_callback-heard_example :
    dbus_filter_callback (message_of read_signal)
    ≡ some (event_signal event_updated (told read_signal))
filter_callback-heard_example = filter_callback-heard read_signal
