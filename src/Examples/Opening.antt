-- ===== src/Examples/Opening.antt =====
-- Concrete inputs at which the theorems on opening and conversion apply: a new file, an old one on an
-- engine that finds the disk full at its seventh call, and a database of the old format.
use rtcom_eventlogger.Common.{
  ◌≡◌, Bool, Option, ℕ, ltb, same, String, ◌==◌, refl, true, false, none, some, [], ◌∷◌,
  if◌then◌else◌,
}
use rtcom_eventlogger.Db.{Status, Fault, Env}
use rtcom_eventlogger.Db.Calm.{Calm}
use rtcom_eventlogger.Store.{NameRow}
use rtcom_eventlogger.Convert.{OldFile, Dir, Converter}
use rtcom_eventlogger.Convert.{ask, must, may}
use rtcom_eventlogger.Convert.Run.{
  convert_from_db0, convert_service, convert_services, add_types, add_flags, convert_rows,
  internal_convert_v0, backup_loop, copy_and_convert,
}
use rtcom_eventlogger.Db.{
  exec, exec_plain, exec_rows, last_step, iterate, spin, classify, transaction, commit, rollback,
}
use rtcom_eventlogger.Examples.{message}
use rtcom_eventlogger.Open.{DbFile, empty_file, required_user_version, Opener, db_open}
use rtcom_eventlogger.Open.Schema.{HasSchema, IsComplete}
use rtcom_eventlogger.Open.Kept.{Kept}
use rtcom_eventlogger.Open.Complete.{db_open-Kept}
use rtcom_eventlogger.Open.Installs.{ReadyOn, installed, db_open-ReadyOn}

abbrev quiet : Env DbFile
quiet = record {
  prepare = λ _. Status.ok;
  refusals = λ _. [];
  auto_rollback = λ _. false;
  garbled = λ saved now. now;
}

abbrev opener : Opener
opener = record { env = quiet; opens = λ _. Status.ok; unlinks = λ _. true }

abbrev full_disk : Opener
full_disk = record opener {
  env = record quiet {
    refusals = λ n. if n == 7 then (Fault.full, 0) ∷ [] else [];
    auto_rollback = λ _. true;
  };
}

abbrev old_file : DbFile
old_file = record { user_version = 0; objects = "Events" ∷ [] }

old-IsComplete : IsComplete old_file
old-IsComplete = λ e. cc

empty-IsComplete : IsComplete empty_file
empty-IsComplete = λ e. cc

quiet-Calm : Calm quiet
quiet-Calm = record { prepares = λ _. refl; goes_ahead = λ _. refl }

db_open-Kept_example : Kept (db_open full_disk (some old_file) 0)
db_open-Kept_example = db_open-Kept full_disk (some old_file) 0 old-IsComplete

db_open-ReadyOn_example :
    ReadyOn (installed empty_file) (db_open opener none 0)
    × HasSchema (installed empty_file)
    × (ltb (installed empty_file).user_version required_user_version ≡ false)
db_open-ReadyOn_example = db_open-ReadyOn opener none 0 quiet-Calm refl empty-IsComplete

abbrev quiet_old : Env OldFile
quiet_old = record {
  prepare = λ _. Status.ok;
  refusals = λ _. [];
  auto_rollback = λ _. false;
  garbled = λ saved now. now;
}

abbrev converter : Converter
converter = record {
  env = quiet_old;
  outbound = λ n. same n "RTCOM_EL_EVENTTYPE_CALL_OUTBOUND";
  opens_old = λ _. Status.ok;
  opens_temp = λ _. Status.ok;
  backup_init = λ _. true;
  backup_step = λ _. Status.done;
  backup_finish = λ _. Status.ok;
  unlinks = λ _. true;
  renames = λ _. true;
}

abbrev type_row : ℕ → String → NameRow
type_row i n = record { id = i; name = n; plugin_id = 1; desc = none }

abbrev old_database : OldFile
old_database = record {
  has_tables = true;
  user_version = 0;
  columns = [];
  events = message 1 ∷ [];
  event_types =
      type_row 6 "RTCOM_EL_EVENTTYPE_SMS_OUTBOUND"
      ∷ type_row 5 "RTCOM_EL_EVENTTYPE_SMS_INBOUND"
      ∷ type_row 4 "RTCOM_EL_EVENTTYPE_CALL_OUTBOUND"
      ∷ type_row 3 "RTCOM_EL_EVENTTYPE_CALL_INBOUND"
      ∷ type_row 2 "RTCOM_EL_EVENTTYPE_CHAT_OUTBOUND"
      ∷ type_row 1 "RTCOM_EL_EVENTTYPE_CHAT_INBOUND"
      ∷ [];
  services = type_row 1 "RTCOM_EL_SERVICE_CHAT" ∷ [];
  flag_names = [];
  triggers = [];
}

abbrev old_dir : Dir
old_dir = record { target = none; old = some old_database; temp = none }

abbrev returned : Option (Bool × Dir × ℕ) → Bool
returned none = false
returned (some (done, d, n)) = done

-- The old database is converted.
conversion_run : returned (convert_from_db0 converter 1 old_dir 0) ≡ true
unfolding convert_from_db0 convert_service convert_services add_types add_flags convert_rows
    internal_convert_v0 backup_loop copy_and_convert ask must may exec exec_plain exec_rows
    last_step iterate spin classify transaction commit rollback same
conversion_run = refl
