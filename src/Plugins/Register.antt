-- ===== src/Plugins/Register.antt =====
-- `_init_plugin`, `_load_plugin` and `_scan_plugins_dir` of src/eventlogger.c.
use rtcom_eventlogger.Common.{
  ℕ, zero, suc, Bool, true, false, ◌&&◌, Option, none, some, List, [], ◌∷◌, map, String, same, ◌==◌,
  keep, if◌then◌else◌,
}
use mathlib.Core.List.{reverse}
use rtcom_eventlogger.Db.{Error, Env, Db, on_tables, exec, rollback}
use rtcom_eventlogger.Store.{NameRow, FlagRow}
use rtcom_eventlogger.Logger.{lookup_id}
use rtcom_eventlogger.Plugins.{
  PluginRow, PluginTables, Module, Registry, Act, ◌>>=◌, ◌>>◌, pure, given, no_rows, single, newest,
  name_ids, insert_plugin, insert_service, insert_event_type, insert_flag,
}

abbrev pub of_ask : Registry → Bool × Option Error × ℕ × Db PluginTables → Option ℕ × Registry
of_ask s (true, e, n, db) = (some n, record s { db = db })
of_ask s (false, e, n, db) = (none, record s { db = db })

abbrev pub of_enter :
    (PluginTables → ℕ)
    → (ℕ → Registry → Registry)
    → Registry
    → Bool × Option Error × Unit {0} × Db PluginTables
    → Option ℕ × Registry
of_enter id note s (true, e, u, db) =
    (some (id db.core.tables), note (id db.core.tables) (record s { db = db }))
of_enter id note s (false, e, u, db) = (none, record s { db = db })

-- A name that the object knows already is an error.
abbrev pub unknown : String → (Registry → List (String × ℕ)) → Act (Unit {0})
unknown n names s = elim (lookup_id n (names s)) [ none ↦ (some tt, s) | some i ↦ (none, s) ]

abbrev pub note_service : String → ℕ → Registry → Registry
note_service n i s = record s { services = (n, i) ∷ s.services }

abbrev pub note_event_type : String → ℕ → Registry → Registry
note_event_type n i s = record s { event_types = (n, i) ∷ s.event_types }

abbrev pub note_flag : String → ℕ → Registry → Registry
note_flag n i s = record s { flags = (n, i) ∷ s.flags }

abbrev pub plugin_ids : String → PluginTables → List ℕ
plugin_ids n t = map (λ (r : PluginRow). r.id) (keep (λ (r : PluginRow). same r.name n) t.plugins)

abbrev pub service_ids : ℕ → PluginTables → List ℕ
service_ids plugin_id t =
    reverse (name_ids (keep (λ (r : NameRow). r.plugin_id == plugin_id) t.services))

abbrev pub or_nil : Option (List (String × ℕ)) → List (String × ℕ)
or_nil none = []
or_nil (some fs) = fs

module _ (env : Env PluginTables) where
  -- A SELECT of one number into a variable that is 0.
  unfoldable pub ask : (PluginTables → List ℕ) → Act ℕ
  ask f s = of_ask s (exec env single (on_tables (λ t. some (f t, t))) 0 s.db)

  -- An INSERT, and what the object notes of the new id.
  unfoldable pub enter :
      (PluginTables → Option PluginTables) → (PluginTables → ℕ) → (ℕ → Registry → Registry) → Act ℕ
  enter f id note s =
      of_enter id note s
        (exec env (λ (_ : Unit {0}) (u : Unit {0}). u) (on_tables (λ t. no_rows (f t))) tt s.db)

  abbrev pub enter_service : String → ℕ → Option String → Act ℕ
  enter_service n plugin_id desc =
      enter (insert_service n plugin_id desc) (λ t. newest (name_ids t.services)) (note_service n)

  abbrev pub enter_event_type : String → ℕ → Option String → Act ℕ
  enter_event_type n plugin_id desc =
      enter (insert_event_type n plugin_id desc) (λ t. newest (name_ids t.event_types))
        (note_event_type n)

  abbrev pub enter_flag : String → ℕ → ℕ → Act ℕ
  enter_flag n service_id value =
      enter (insert_flag n service_id value) (λ t. newest (map (λ (r : FlagRow). r.id) t.flags))
        (note_flag n)

  unfoldable pub add_event_types : ℕ → List (String × Option String) → Act (Unit {0})
  add_event_types plugin_id [] = pure tt
  add_event_types plugin_id ((n, desc) ∷ rest) = do
    unknown n (λ s. s.event_types)
    enter_event_type n plugin_id desc
    add_event_types plugin_id rest

  unfoldable pub add_flags : ℕ → List (String × ℕ) → Act (Unit {0})
  add_flags service_id [] = pure tt
  add_flags service_id ((n, value) ∷ rest) = do
    unknown n (λ s. s.flags)
    enter_flag n service_id value
    add_flags service_id rest

  -- From the INSERT of a plugin that is not there on.
  unfoldable pub register : Module → String → String → String × Option String → Act ℕ
  register m name desc (service, service_desc) = do
    plugin_id ←
        enter (insert_plugin name desc) (λ t. newest (map (λ (r : PluginRow). r.id) t.plugins))
          (λ _ s. s)
    unknown service (λ s. s.services)
    service_id ← enter_service service plugin_id service_desc
    add_event_types plugin_id m.event_types
    add_flags service_id (or_nil m.flags)
    pure service_id

  -- `db_error:`, which rolls back a transaction that nobody began.
  abbrev pub db_error : Option ℕ × Registry → Option ℕ × Registry
  db_error (some i, s) = (some i, s)
  db_error (none, s) = let (_, _, db) = rollback env s.db in (none, record s { db = db })

  -- A plugin that is there has its service looked up by its id.
  abbrev pub registered : Module → String → String → String × Option String → ℕ → Act ℕ
  registered m name desc service zero s = db_error (register m name desc service s)
  registered m name desc service (suc i) s = ask (service_ids (suc i)) s

  abbrev pub initialised : Module → Registry → Registry
  initialised m s = elim m.init [ none ↦ s | some init ↦ record s { db = init s.db } ]

  -- `_init_plugin`; `none` is -1.
  unfoldable pub init_plugin : Module → Act ℕ
  init_plugin m s =
      (do
        name ← given m.name
        desc ← given m.desc
        service ← given m.service
        plugin_id ← ask (plugin_ids name)
        registered m name desc service plugin_id)
        (initialised m s)

  abbrev pub stored : Module → Option ℕ × Registry → Bool × Registry
  stored m (none, s) = (false, s)
  stored m (some i, s) = (true, record s { plugins = (i, m) ∷ s.plugins })

  -- `_load_plugin`
  unfoldable pub load_plugin : Module → Registry → Bool × Registry
  load_plugin m s = if m.opens && m.mandatory then stored m (init_plugin m s) else (false, s)

  abbrev pub also : Bool → Bool × Registry → Bool × Registry
  also ok (ok', s) = (ok && ok', s)

  -- `_scan_plugins_dir`, over the modules of a directory that opens
  unfoldable pub scan_plugins_dir : List Module → Registry → Bool × Registry
  scan_plugins_dir [] s = (true, s)
  scan_plugins_dir (m ∷ rest) s =
      let (ok, s') = load_plugin m s in also ok (scan_plugins_dir rest s')
