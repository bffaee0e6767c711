-- ===== src/Plugins/Sound.antt =====
-- Loading of plugins (src/eventlogger.c): `_init_plugin`, `_load_plugin` and `_scan_plugins_dir` and
-- the object's tables of names.
use rtcom_eventlogger.Common.{
  ℕ, zero, suc, ◌≡◌, refl, inl, inr, Bool, ◌&&◌, Bool-cases, Option, none, some, List, [], ◌∷◌, map,
  String, All,
}
use rtcom_eventlogger.Db.{Env, Db, rollback}
use rtcom_eventlogger.Store.{FlagRow}
use rtcom_eventlogger.Plugins.{
  PluginRow, PluginTables, Module, Registry, Act, insert_plugin, insert_service, insert_event_type,
  insert_flag, newest, name_ids,
}
use rtcom_eventlogger.Plugins.Register.{
  unknown, note_service, note_event_type, note_flag, plugin_ids, service_ids, or_nil, ask, enter,
  enter_service, enter_event_type, enter_flag, add_event_types, add_flags, register, db_error,
  registered, initialised, init_plugin, stored, load_plugin, also, scan_plugins_dir,
}
use rtcom_eventlogger.Plugins.Agree.{
  Sound, then_do-Sound, unknown-Sound, at_core, ask-Sound, enter-Sound,
}
use rtcom_eventlogger.Plugins.Carry.{
  insert_plugin-Carries, insert_service-Carries, insert_event_type-Carries, insert_flag-Carries,
}

-- An action keeps what is sound.
abbrev pub Keeps : {A : Type 0} → Act A → Type 0
Keeps m = (s : Registry) → Sound s → Sound (m s).1

-- The module's own `init` leaves the connection as it is.
abbrev pub Tame : Module → Type 0
Tame m =
    (f : Db PluginTables → Db PluginTables)
    → m.init ≡ some f
    → (db : Db PluginTables) → (f db).core ≡ db.core

module _ (env : Env PluginTables) where
  enter_service-Keeps :
      (n : String) (plugin_id : ℕ) (desc : Option String)
      → Keeps (enter_service env n plugin_id desc)
  enter_service-Keeps n plugin_id desc s h =
      enter-Sound env (insert_service n plugin_id desc) (λ t. newest (name_ids t.services))
        (note_service n) s (insert_service-Carries n plugin_id desc) (λ i s. refl) h

  enter_event_type-Keeps :
      (n : String) (plugin_id : ℕ) (desc : Option String)
      → Keeps (enter_event_type env n plugin_id desc)
  enter_event_type-Keeps n plugin_id desc s h =
      enter-Sound env (insert_event_type n plugin_id desc) (λ t. newest (name_ids t.event_types))
        (note_event_type n) s (insert_event_type-Carries n plugin_id desc) (λ i s. refl) h

  enter_flag-Keeps : (n : String) (service_id value : ℕ) → Keeps (enter_flag env n service_id value)
  enter_flag-Keeps n service_id value s h =
      enter-Sound env (insert_flag n service_id value)
        (λ t. newest (map (λ (r : FlagRow). r.id) t.flags)) (note_flag n) s
        (insert_flag-Carries n service_id value) (λ i s. refl) h

  add_event_types-Keeps :
      (plugin_id : ℕ) (types : List (String × Option String))
      → Keeps (add_event_types env plugin_id types)
  unfolding add_event_types
  add_event_types-Keeps plugin_id [] s h = h
  add_event_types-Keeps plugin_id ((n, desc) ∷ rest) s h =
      of_rest (λ s' h'. add_event_types-Keeps plugin_id rest s' h')
    where
      of_rest :
          ((s' : Registry) → Sound s' → Sound (add_event_types env plugin_id rest s').1)
          → Sound (add_event_types env plugin_id ((n, desc) ∷ rest) s).1
      of_rest next =
          then_do-Sound _ (unknown n (λ s. s.event_types) s)
            (unknown-Sound n (λ s. s.event_types) s h)
            (λ u s1 h1.
              then_do-Sound _ (enter_event_type env n plugin_id desc s1)
                (enter_event_type-Keeps n plugin_id desc s1 h1) (λ i s2 h2. next s2 h2))

  add_flags-Keeps : (service_id : ℕ) (fs : List (String × ℕ)) → Keeps (add_flags env service_id fs)
  unfolding add_flags
  add_flags-Keeps service_id [] s h = h
  add_flags-Keeps service_id ((n, value) ∷ rest) s h =
      of_rest (λ s' h'. add_flags-Keeps service_id rest s' h')
    where
      of_rest :
          ((s' : Registry) → Sound s' → Sound (add_flags env service_id rest s').1)
          → Sound (add_flags env service_id ((n, value) ∷ rest) s).1
      of_rest next =
          then_do-Sound _ (unknown n (λ s. s.flags) s) (unknown-Sound n (λ s. s.flags) s h)
            (λ u s1 h1.
              then_do-Sound _ (enter_flag env n service_id value s1)
                (enter_flag-Keeps n service_id value s1 h1) (λ i s2 h2. next s2 h2))

  register-Keeps :
      (m : Module) (name desc : String) (service : String × Option String)
      → Keeps (register env m name desc service)
  unfolding register
  register-Keeps m name desc (service, service_desc) s h =
      then_do-Sound _ (enter env (insert_plugin name desc) plugin_id_of (λ _ s. s) s)
        (enter-Sound env (insert_plugin name desc) plugin_id_of (λ _ s. s) s
          (insert_plugin-Carries name desc plugin_id_of) (λ i s. refl) h)
        (λ plugin_id s1 h1.
          then_do-Sound _ (unknown service (λ s. s.services) s1)
            (unknown-Sound service (λ s. s.services) s1 h1)
            (λ u s2 h2.
              then_do-Sound _ (enter_service env service plugin_id service_desc s2)
                (enter_service-Keeps service plugin_id service_desc s2 h2)
                (λ service_id s3 h3.
                  then_do-Sound _ (add_event_types env plugin_id m.event_types s3)
                    (add_event_types-Keeps plugin_id m.event_types s3 h3)
                    (λ u s4 h4.
                      then_do-Sound _ (add_flags env service_id (or_nil m.flags) s4)
                        (add_flags-Keeps service_id (or_nil m.flags) s4 h4) (λ u s5 h5. h5)))))
    where
      plugin_id_of : PluginTables → ℕ
      plugin_id_of t = newest (map (λ (r : PluginRow). r.id) t.plugins)

  -- With no transaction open, the rollback of `db_error` does nothing.
  db_error-Sound : (r : Option ℕ × Registry) → Sound r.1 → Sound (db_error env r).1
  unfolding rollback
  db_error-Sound (some i, s) h = h
  db_error-Sound (none, s) h = at_core env s (rollback env s.db).2 h (simp h.0 refl)

  registered-Keeps :
      (m : Module) (name desc : String) (service : String × Option String) (i : ℕ)
      → Keeps (registered env m name desc service i)
  registered-Keeps m name desc service zero s h =
      db_error-Sound (register env m name desc service s) (register-Keeps m name desc service s h)
  registered-Keeps m name desc service (suc i) s h = ask-Sound env (service_ids (suc i)) s h

  initialised-Sound : (m : Module) (s : Registry) → Tame m → Sound s → Sound (initialised env m s)
  initialised-Sound m s tame h = of_init m.init (λ f e. tame f e)
    where
      of_init :
          (o : Option (Db PluginTables → Db PluginTables))
          → ((f : Db PluginTables → Db PluginTables)
              → o ≡ some f
              → (db : Db PluginTables) → (f db).core ≡ db.core)
          → Sound (elim o as (λ _. Registry) [ none ↦ s | some init ↦ record s { db = init s.db } ])
      of_init none k = h
      of_init (some f) k = at_core env s (f s.db) h (k f refl s.db)

  init_plugin-Keeps : (m : Module) → Tame m → Keeps (init_plugin env m)
  unfolding init_plugin
  init_plugin-Keeps m tame s h =
      then_do-Sound _ (m.name, initialised env m s) (initialised-Sound m s tame h)
        (λ name s1 h1.
          then_do-Sound _ (m.desc, s1) h1
            (λ desc s2 h2.
              then_do-Sound _ (m.service, s2) h2
                (λ service s3 h3.
                  then_do-Sound _ (ask env (plugin_ids name) s3)
                    (ask-Sound env (plugin_ids name) s3 h3)
                    (λ i s4 h4. registered-Keeps m name desc service i s4 h4))))

  load_plugin-Sound : (m : Module) (s : Registry) → Tame m → Sound s → Sound (load_plugin env m s).1
  unfolding load_plugin
  load_plugin-Sound m s tame h = elim (Bool-cases (m.opens && m.mandatory)) [
    | inl found ↦ simp found (of_init (init_plugin env m s) (init_plugin-Keeps m tame s h))
    | inr failed ↦ simp failed h
  ]
    where
      of_init : (r : Option ℕ × Registry) → Sound r.1 → Sound (stored env m r).1
      of_init (none, s') h' = h'
      of_init (some i, s') h' = h'

  -- Whatever SQLite does, and wherever the loading of one of them fails, the modules of a directory
  -- leave no transaction open and the object's tables of services, event types and flags those of the
  -- database, if they were so before and no module's `init` changes the connection.
  pub scan_plugins_dir-Sound :
      (ms : List Module) (s : Registry)
      → All Tame ms
      → Sound s
      → Sound (scan_plugins_dir env ms s).1
  unfolding scan_plugins_dir
  scan_plugins_dir-Sound [] s tame h = h
  scan_plugins_dir-Sound (m ∷ rest) s (tame, tames) h =
      of_load (load_plugin env m s) (load_plugin-Sound m s tame h)
        (λ s' h'. scan_plugins_dir-Sound rest s' tames h')
    where
      of_also : (ok : Bool) (r : Bool × Registry) → Sound r.1 → Sound (also env ok r).1
      of_also ok (ok', s') h' = h'

      of_load :
          (r : Bool × Registry)
          → Sound r.1
          → ((s' : Registry) → Sound s' → Sound (scan_plugins_dir env rest s').1)
          → Sound (also env r.0 (scan_plugins_dir env rest r.1)).1
      of_load r h' next = of_also r.0 (scan_plugins_dir env rest r.1) (next r.1 h')
