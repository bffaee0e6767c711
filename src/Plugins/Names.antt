-- ===== src/Plugins/Names.antt =====
-- The object's tables of names at the opening of the database: `rtcom_el_db_cache_lookup_table`
-- (src/db.c) and `_build_db_representation` (src/eventlogger.c).
use rtcom_eventlogger.Common.{
  ℕ, ◌≡◌, refl, sym, ◌∙◌, ap, subst, Bool, true, false, Option, none, some, List, [], ◌∷◌, ◌++◌,
  String,
}
use mathlib.Core.List.{reverse_aux, reverse, append-nil}
use rtcom_eventlogger.Db.{Error, Env, Core, Db, on_tables, exec}
use rtcom_eventlogger.Db.Exec.{feed, Contract, exec-Contract}
use rtcom_eventlogger.Plugins.{PluginTables, Registry}
use rtcom_eventlogger.Plugins.Agree.{pairs, flag_pairs, Sound, still}

-- `_map_name_id_slave`, on a row of an id and a name
abbrev pub map_name_id_slave : String × ℕ → List (String × ℕ) → List (String × ℕ)
map_name_id_slave (n, i) table = (n, i) ∷ table

abbrev pub of_table :
    Bool × Option Error × List (String × ℕ) × Db PluginTables
    → Option (List (String × ℕ)) × Db PluginTables
of_table (true, e, table, db) = (some table, db)
of_table (false, e, table, db) = (none, db)

-- The tables of the object, each of which is NULL where its statement failed.
pub record Names : Type 0 where
  pub services : Option (List (String × ℕ))
  pub event_types : Option (List (String × ℕ))
  pub flags : Option (List (String × ℕ))

module _ (env : Env PluginTables) where
  -- `rtcom_el_db_cache_lookup_table`, whose statement delivers the oldest row first
  unfoldable pub cache_lookup_table :
      (PluginTables → List (String × ℕ))
      → Db PluginTables
      → Option (List (String × ℕ)) × Db PluginTables
  cache_lookup_table rows db =
      of_table (exec env map_name_id_slave (on_tables (λ t. some (reverse (rows t), t))) [] db)

  -- `_build_db_representation`
  unfoldable pub build_db_representation : Db PluginTables → Names × Db PluginTables
  build_db_representation db =
      let (services, db1) = cache_lookup_table (λ t. pairs t.services) db in
      let (event_types, db2) = cache_lookup_table (λ t. pairs t.event_types) db1 in
      let (flags, db3) = cache_lookup_table (λ t. flag_pairs t.flags) db2 in
      (record { services = services; event_types = event_types; flags = flags }, db3)

feed-reversed :
    (xs r acc : List (String × ℕ))
    → feed map_name_id_slave acc (reverse_aux xs r) ≡ feed map_name_id_slave (xs ++ acc) r
feed-reversed [] r acc = refl
feed-reversed (x ∷ xs) r acc = feed-reversed xs (x ∷ r) acc

-- NULL, or the names and ids of the table.
abbrev pub Lists : List (String × ℕ) → Option (List (String × ℕ)) → Type 0
Lists xs none = Unit
Lists xs (some ys) = ys ≡ xs

module _ (env : Env PluginTables) where
  cache_lookup_table-Lists :
      (rows : PluginTables → List (String × ℕ)) (db : Db PluginTables)
      → db.core.autocommit ≡ true
      → let r = cache_lookup_table env rows db in
        Lists (rows db.core.tables) r.0 × (r.1.core ≡ db.core)
  unfolding cache_lookup_table
  cache_lookup_table-Lists rows db alone =
      of_exec (exec env map_name_id_slave (on_tables answer) [] db)
        (exec-Contract env map_name_id_slave (on_tables answer) [] db)
    where
      answer : PluginTables → Option (List (String × ℕ) × PluginTables)
      answer t = some (reverse (rows t), t)

      parts :
          {a b : List (String × ℕ)} {x y : Core PluginTables}
          → ◌≡◌ {A = Option (List (String × ℕ) × Core PluginTables)} (some (a, x)) (some (b, y))
          → (a ≡ b) × (x ≡ y)
      parts p = (cc, cc)

      of_exec :
          (r : Bool × Option Error × List (String × ℕ) × Db PluginTables)
          → Contract env map_name_id_slave (on_tables answer) [] db.core r
          → Lists (rows db.core.tables) (of_table r).0 × ((of_table r).1.core ≡ db.core)
      of_exec (true, e, table, db') k =
          let (unset, sent, end, runs, fed, core) = k.on_true refl in
          let (same_rows, same_end) = parts runs in
          (
            fed
                ∙ ap (λ (l : List (String × ℕ)). feed map_name_id_slave [] l) (sym same_rows)
                ∙ feed-reversed (rows db.core.tables) [] []
                ∙ append-nil (rows db.core.tables),
            core ∙ sym same_end,
          )
      of_exec (false, e, table, db') k =
          let (e', set, failed) = k.on_false refl in (tt, still env db.core db'.core alone failed)

-- The object at its opening, before any plugin is loaded.
abbrev pub registry_of : Names × Db PluginTables → Option Registry
registry_of (names, db) = of_names names.services names.event_types names.flags
  where
    of_names :
        Option (List (String × ℕ))
        → Option (List (String × ℕ))
        → Option (List (String × ℕ))
        → Option Registry
    of_names none event_types flags = none
    of_names (some services) none flags = none
    of_names (some services) (some event_types) none = none
    of_names (some services) (some event_types) (some flags) = some (record {
      db = db;
      services = services;
      event_types = event_types;
      flags = flags;
      plugins = [];
    })

abbrev pub IsSound : Option Registry → Type 0
IsSound none = Unit
IsSound (some s) = Sound s

-- Where none of its tables is NULL, the object knows the names of the database and no others.
pub build_db_representation-Sound :
    (env : Env PluginTables) (db : Db PluginTables)
    → db.core.autocommit ≡ true
    → IsSound (registry_of (build_db_representation env db))
unfolding build_db_representation
build_db_representation-Sound env db alone =
    of_services (cache_lookup_table env (λ t. pairs t.services) db)
      (read (λ t. pairs t.services) db refl)
  where
    read :
        (rows : PluginTables → List (String × ℕ)) (d : Db PluginTables)
        → d.core ≡ db.core
        → let r = cache_lookup_table env rows d in
          Lists (rows db.core.tables) r.0 × (r.1.core ≡ db.core)
    read rows d same =
        let (found, core) =
          cache_lookup_table-Lists env rows d
            (ap (λ (c : Core PluginTables). c.autocommit) same ∙ alone) in
        (
          subst (λ (c : Core PluginTables). Lists (rows c.tables) (cache_lookup_table env rows d).0)
              same found,
          core ∙ same,
        )

    of_flags :
        (a b : List (String × ℕ)) (r : Option (List (String × ℕ)) × Db PluginTables)
        → a ≡ pairs db.core.tables.services
        → b ≡ pairs db.core.tables.event_types
        → Lists (flag_pairs db.core.tables.flags) r.0 × (r.1.core ≡ db.core)
        → IsSound
            (registry_of (record { services = some a; event_types = some b; flags = r.0 }, r.1))
    of_flags a b (none, db3) h k l = tt
    of_flags a b (some c, db3) h k (l, same) =
        subst
          (λ (x : Core PluginTables).
            (x.autocommit ≡ true)
            × ((a ≡ pairs x.tables.services)
                × (b ≡ pairs x.tables.event_types)
                × (c ≡ flag_pairs x.tables.flags)))
          (sym same) (alone, (h, k, l))

    of_event_types :
        (a : List (String × ℕ)) (r : Option (List (String × ℕ)) × Db PluginTables)
        → a ≡ pairs db.core.tables.services
        → Lists (pairs db.core.tables.event_types) r.0 × (r.1.core ≡ db.core)
        → let f = cache_lookup_table env (λ t. flag_pairs t.flags) r.1 in
          IsSound (registry_of (record { services = some a; event_types = r.0; flags = f.0 }, f.1))
    of_event_types a (none, db2) h k = tt
    of_event_types a (some b, db2) h (k, same) =
        of_flags a b (cache_lookup_table env (λ t. flag_pairs t.flags) db2) h k
          (read (λ t. flag_pairs t.flags) db2 same)

    of_services :
        (r : Option (List (String × ℕ)) × Db PluginTables)
        → Lists (pairs db.core.tables.services) r.0 × (r.1.core ≡ db.core)
        → let e = cache_lookup_table env (λ t. pairs t.event_types) r.1 in
          let f = cache_lookup_table env (λ t. flag_pairs t.flags) e.1 in
          IsSound (registry_of (record { services = r.0; event_types = e.0; flags = f.0 }, f.1))
    of_services (none, db1) h = tt
    of_services (some a, db1) (h, same) =
        of_event_types a (cache_lookup_table env (λ t. pairs t.event_types) db1) h
          (read (λ t. pairs t.event_types) db1 same)
