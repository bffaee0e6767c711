-- ===== src/Examples/Storing.antt =====
-- Concrete inputs at which the theorems on an event that was stored apply: a text message with a new
-- contact, added to a database and read back.
use rtcom_eventlogger.Common.{◌≡◌, refl, pos, true, none, some}
use rtcom_eventlogger.Event.{Event, event_new}
use rtcom_eventlogger.Statement.{returns}
use rtcom_eventlogger.Logger.Add.{event_row}
use rtcom_eventlogger.Iterator.{Joined, Iter}
use rtcom_eventlogger.Iterator.Current.{shown}
use rtcom_eventlogger.Iterator.Values.{get_full, get_columns}
use rtcom_eventlogger.Iterator.Times.{Wraps, get_full-Wraps}
use rtcom_eventlogger.Examples.Reading.{context, fresh}

abbrev full : Event
full = record event_new {
  mask = λ _. true;
  fld_service = some "RTCOM_EL_SERVICE_SMS";
  fld_event_type = some "RTCOM_EL_EVENTTYPE_SMS_MESSAGE";
  fld_local_uid = some "ring/tel";
  fld_remote_uid = some "555";
  fld_remote_name = some "Ann";
  fld_start_time = pos 6;
  fld_is_read = pos 1;
  fld_flags = 5;
}

-- The row of the event that was added, with the row of its contact.
abbrev full_row : Joined
full_row = record {
  event = event_row full 1 2 (pos 100) none 2;
  service = "RTCOM_EL_SERVICE_SMS";
  event_type = "RTCOM_EL_EVENTTYPE_SMS_MESSAGE";
  remote = some (record {
    local_uid = "ring/tel";
    remote_uid = "555";
    remote_name = some "Ann";
    abook_uid = none;
  });
  token = none;
}

abbrev at_full : Iter
at_full = record fresh { columns = some (shown context full_row) }

at_full_columns : get_columns at_full ≡ some (shown context full_row)
unfolding get_columns
at_full_columns = refl

get_full-Wraps_example :
    (ev' : Event) × (get_full at_full event_new ≡ returns (some ev'))
    × Wraps ev'.fld_storage_time full_row.event.storage_time
    × Wraps ev'.fld_start_time full_row.event.start_time
    × Wraps ev'.fld_end_time full_row.event.end_time
get_full-Wraps_example = get_full-Wraps context full_row at_full event_new at_full_columns
