-- ===== src/Examples/Reading.antt =====
-- Concrete inputs at which the theorems on rows and iterators apply: the event of the database, read
-- back, on an engine that never refuses and on one that does.
use rtcom_eventlogger.Common.{
  ℕ, ◌≡◌, ◌≢◌, refl, inl, pos, negsuc, true, false, none, some, List, [], ◌∷◌, map, arith,
}
use rtcom_eventlogger.Db.{Status, Fault, Env, Db, iterate, spin}
use rtcom_eventlogger.Db.Calm.{Calm}
use rtcom_eventlogger.Store.{EventRow, AttachmentRow, Tables}
use rtcom_eventlogger.Row.{Cell, Casts, Columns, fields, get_row, update_row}
use rtcom_eventlogger.Row.Reads.{Found, columns_of, get_row_lem, update_row-Found}
use rtcom_eventlogger.Statement.{Stmt, null, live, freed, returns, step}
use rtcom_eventlogger.AttachIter
use rtcom_eventlogger.AttachIter.{AttachIter}
use rtcom_eventlogger.AttachIter.Safe.{Returns, here, later, call_next, Reach-Returns}
use rtcom_eventlogger.Iterator.{Joined, cells, Iter, Context, next}
use rtcom_eventlogger.Iterator.Safe
use rtcom_eventlogger.Iterator.Safe.{Moves, IsSound, Defined, Reach-Defined}
use rtcom_eventlogger.Iterator.Walk.{visit, Visited, visit-Visited}
use rtcom_eventlogger.Iterator.Session.{HasRead, read_all, read_all-HasRead}
use rtcom_eventlogger.Examples.{calm, calm-Calm, db, message, one_message, journaled}

abbrev casts : Casts
casts = record { of_text = λ _. pos 0; to_text = λ _. "" }

abbrev pub context : Context
context = record { env = calm; casts = casts; plugins = λ _. none }

abbrev as_joined : EventRow → Joined
as_joined e = record {
  event = e;
  service = "RTCOM_EL_SERVICE_SMS";
  event_type = "RTCOM_EL_EVENTTYPE_SMS_MESSAGE";
  remote = none;
  token = none;
}

abbrev all_events : Tables → List Joined
all_events t = map as_joined t.events

abbrev stmt : Stmt Tables Joined
stmt = record { rows = all_events; pending = none; current = none }

abbrev pub fresh : Iter
fresh = record {
  stmt = live stmt;
  columns = none;
  atomic = false;
  current_event_id = negsuc 0;
  current_service_id = negsuc 0;
  current_event_type_id = negsuc 0;
  active_plugin = none;
}

read_all-HasRead_example :
    HasRead context one_message (all_events one_message) (read_all context 1 (some all_events) db)
read_all-HasRead_example =
    read_all-HasRead context 1 all_events db calm-Calm journaled refl (omega arith)

visit-Visited_example :
    Visited context false db.core (all_events one_message) (visit context 2 fresh db)
visit-Visited_example =
    visit-Visited context false 2 (all_events one_message) fresh stmt db (omega arith) refl refl
      (inl refl) refl

abbrev no_cells : ℕ → Cell
no_cells i = Cell.null

update_row-Found_example :
    (row' : Columns) × (update_row casts (cells (as_joined (message 1))) (columns_of casts no_cells)
      ≡ some row')
    × (get_row casts (cells (as_joined (message 1))) ≡ some row')
    × Found casts fields 0 (cells (as_joined (message 1))) row'
update_row-Found_example =
    update_row-Found casts no_cells (cells (as_joined (message 1))) (columns_of casts no_cells)
      (get_row_lem casts no_cells)

-- The engine has no memory of the file's content left: every step is refused.
abbrev broken : Env Tables
broken = record {
  prepare = λ _. Status.ok;
  refusals = λ _. (Fault.ioerr, 0) ∷ [];
  auto_rollback = λ _. false;
  garbled = λ saved now. now;
}

abbrev broken_context : Context
broken_context = record context { env = broken }

abbrev dangling : Iter
dangling = record fresh { stmt = freed }

refused_next : (db' : Db Tables) × (next broken_context fresh db ≡ returns (false, dangling, db'))
unfolding next step iterate spin
refused_next = (_, refl)

refused_move : Moves broken_context (fresh, db) true (dangling, refused_next.0)
unfolding step iterate spin
refused_move = Safe.call_next false refused_next.1

fresh-IsSound : IsSound broken_context false fresh
fresh-IsSound = (λ e. cc, inl refl)

-- The first call is refused, and then the iterator cannot be used.
Reach-Defined_example :
    Defined broken_context true (dangling, refused_next.0)
    × (Calm broken_context.env → true ≡ false)
Reach-Defined_example =
    Reach-Defined broken_context {s = (fresh, db)} {t = (dangling, refused_next.0)} {b = true}
      fresh-IsSound (Safe.later Safe.here refused_move)

abbrev no_attachments : Stmt Tables AttachmentRow
no_attachments = record { rows = λ t. t.attachments; pending = none; current = none }

abbrev attach : AttachIter
attach = record { stmt = live no_attachments }

abbrev ended : AttachIter
ended = record { stmt = null }

at_end : (db' : Db Tables) × (AttachIter.next broken attach db ≡ returns (false, ended, db'))
unfolding AttachIter.next step iterate spin
at_end = (_, refl)

attach-not_freed : attach.stmt ≢ freed
attach-not_freed e = cc

Reach-Returns_example :
    Returns (AttachIter.first broken ended at_end.0)
    × Returns (AttachIter.next broken ended at_end.0)
    × Returns (AttachIter.get casts ended)
    × Returns (AttachIter.finalize ended)
Reach-Returns_example =
    Reach-Returns broken casts {s = (attach, db)} {t = (ended, at_end.0)} attach-not_freed
      (later here (call_next false at_end.1))
