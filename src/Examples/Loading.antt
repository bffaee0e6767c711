-- ===== src/Examples/Loading.antt =====
-- Concrete inputs at which the theorem on the loading of plugins applies: a plugin whose second event
-- type has a name that is taken.
use rtcom_eventlogger.Common.{◌≡◌, refl, same, true, false, none, some, [], ◌∷◌}
use rtcom_eventlogger.Db.{
  Status, Journal, Env, exec, exec_rows, last_step, iterate, spin, classify, rollback,
}
use rtcom_eventlogger.Logger.{lookup_id}
use rtcom_eventlogger.Plugins.{Module, PluginTables, Registry}
use rtcom_eventlogger.Plugins.Register.{
  ask, enter, add_event_types, add_flags, register, init_plugin, load_plugin, scan_plugins_dir,
}
use rtcom_eventlogger.Plugins.Sound.{Tame, scan_plugins_dir-Sound}
use rtcom_eventlogger.Plugins.Agree.{Sound}

abbrev willing : Env PluginTables
willing = record {
  prepare = λ _. Status.ok;
  refusals = λ _. [];
  auto_rollback = λ _. false;
  garbled = λ saved now. now;
}

abbrev no_plugins : PluginTables
no_plugins = record { plugins = []; services = []; event_types = []; flags = [] }

abbrev registry : Registry
registry = record {
  db = record {
    core = record {
      tables = no_plugins;
      saved = no_plugins;
      autocommit = true;
      journal = Journal.delete;
    };
    errcode = Status.ok;
    clock = 0;
  };
  services = [];
  event_types = [];
  flags = [];
  plugins = [];
}

abbrev repeated : Module
repeated = record {
  opens = true;
  mandatory = true;
  init = none;
  name = some "sms";
  desc = some "text messages";
  service = some ("SMS", none);
  event_types = ("INBOUND", none) ∷ ("INBOUND", none) ∷ [];
  flags = none;
}

repeated-Tame : Tame repeated
repeated-Tame = λ f e db. cc

scan_plugins_dir-Sound_example : Sound (scan_plugins_dir willing (repeated ∷ []) registry).1
scan_plugins_dir-Sound_example =
    scan_plugins_dir-Sound willing (repeated ∷ []) registry (repeated-Tame, tt)
      (refl, (refl, refl, refl))

-- The first time the plugin is refused, the second time it is taken.
loaded_twice :
    let r = load_plugin willing repeated registry in
    (r.0 ≡ false) × ((load_plugin willing repeated r.1).0 ≡ true)
unfolding load_plugin init_plugin register ask enter add_event_types add_flags lookup_id same exec
    exec_rows last_step iterate spin classify rollback
loaded_twice = (refl, refl)
