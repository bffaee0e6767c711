-- ===== src/Plugins/Agree.antt =====
-- Plugins (src/eventlogger.c): the object's tables of names against the tables of the database.
use rtcom_eventlogger.Common.{
  ℕ, ◌≡◌, refl, sym, ◌∙◌, ap, subst, inl, inr, Bool, true, false, Option, none, some, List, map,
  String, same,
}
use rtcom_eventlogger.Db.{Error, Env, Core, Db, on_tables, exec}
use rtcom_eventlogger.Db.Exec.{Failed, Contract, exec-Contract}
use rtcom_eventlogger.Db.Transaction.{lift_core_frame}
use rtcom_eventlogger.Store.{NameRow, FlagRow}
use rtcom_eventlogger.Logger.{lookup_id}
use rtcom_eventlogger.Plugins.{PluginTables, Registry, Act, then_do, no_rows, single}
use rtcom_eventlogger.Plugins.Register.{of_ask, of_enter, unknown, ask, enter}

abbrev pub pairs : List NameRow → List (String × ℕ)
pairs rows = map (λ (r : NameRow). (r.name, r.id)) rows

abbrev pub flag_pairs : List FlagRow → List (String × ℕ)
flag_pairs rows = map (λ (r : FlagRow). (r.name, r.id)) rows

-- The tables of names are those of the database.
abbrev pub Agree : PluginTables → Registry → Type 0
Agree t s =
    (s.services ≡ pairs t.services)
    × (s.event_types ≡ pairs t.event_types)
    × (s.flags ≡ flag_pairs t.flags)

-- And no transaction is open.
abbrev pub Sound : Registry → Type 0
Sound s = (s.db.core.autocommit ≡ true) × Agree s.db.core.tables s

pub then_do-Sound :
    {A B : Type 0} (k : A → Act B) (r : Option A × Registry)
    → Sound r.1
    → ((a : A) (s : Registry) → Sound s → Sound (k a s).1)
    → Sound (then_do k r).1
then_do-Sound k (none, s) h next = h
then_do-Sound k (some a, s) h next = next a s h

pub unknown-Sound :
    (n : String) (names : Registry → List (String × ℕ)) (s : Registry)
    → Sound s
    → Sound (unknown n names s).1
unknown-Sound n names s h = of_lookup (lookup_id n (names s))
  where
    of_lookup :
        (o : Option ℕ)
        → Sound
            (elim o as (λ _. Option (Unit {0}) × Registry) [
              | none ↦ (some tt, s)
              | some i ↦ (none, s)
            ]).1
    of_lookup none = h
    of_lookup (some i) = h

-- An INSERT keeps the tables the same, with what the object notes of it.
abbrev pub Carries :
    (PluginTables → Option PluginTables) → (PluginTables → ℕ) → (ℕ → Registry → Registry) → Type 0
Carries f id note =
    (t t' : PluginTables) (s : Registry) → f t ≡ some t' → Agree t s → Agree t' (note (id t') s)

-- What an action notes leaves the connection alone.
abbrev pub Quiet : (ℕ → Registry → Registry) → Type 0
Quiet note = (i : ℕ) (s : Registry) → (note i s).db ≡ s.db

module _ (env : Env PluginTables) where
  pub still : (c c' : Core PluginTables) → c.autocommit ≡ true → Failed env c c' → c' ≡ c
  still c c' alone (inl same) = same
  still c c' alone (inr (opn, rolled)) = absurd (differ (sym alone ∙ opn))
    where
      differ : true ≡ false → ⊥
      differ p = cc

  pub at_core :
      (s : Registry) (db : Db PluginTables)
      → Sound s
      → db.core ≡ s.db.core
      → Sound (record s { db = db })
  at_core s db h same =
      subst (λ (c : Core PluginTables). (c.autocommit ≡ true) × Agree c.tables s) (sym same) h

  pub ask-Sound : (f : PluginTables → List ℕ) (s : Registry) → Sound s → Sound (ask env f s).1
  unfolding ask
  ask-Sound f s h =
      of_exec (exec env single (on_tables answer) 0 s.db)
        (exec-Contract env single (on_tables answer) 0 s.db)
    where
      answer : PluginTables → Option (List ℕ × PluginTables)
      answer t = some (f t, t)

      core_of :
          {a b : List ℕ} {x y : Core PluginTables}
          → ◌≡◌ {A = Option (List ℕ × Core PluginTables)} (some (a, x)) (some (b, y))
          → x ≡ y
      core_of p = cc

      of_exec :
          (r : Bool × Option Error × ℕ × Db PluginTables)
          → Contract env single (on_tables answer) 0 s.db.core r
          → Sound (of_ask s r).1
      of_exec (true, e, n, db) k =
          let (unset, rows, end, runs, fed, core) = k.on_true refl in
          at_core s db h (core ∙ sym (core_of runs))
      of_exec (false, e, n, db) k =
          let (e', set, failed) = k.on_false refl in
          at_core s db h (still s.db.core db.core h.0 failed)

  pub enter-Sound :
      (f : PluginTables → Option PluginTables) (id : PluginTables → ℕ)
      (note : ℕ → Registry → Registry) (s : Registry)
      → Carries f id note
      → Quiet note
      → Sound s
      → Sound (enter env f id note s).1
  unfolding enter
  enter-Sound f id note s carries quiet h =
      of_exec (exec env (λ (_ : Unit {0}) (u : Unit {0}). u) (on_tables rows_of) tt s.db)
        (exec-Contract env (λ _ u. u) (on_tables rows_of) tt s.db)
    where
      rows_of : PluginTables → Option (List (Unit {0}) × PluginTables)
      rows_of t = no_rows (f t)

      ran :
          (x : Option PluginTables) (rows : List (Unit {0})) (t : PluginTables)
          → no_rows x ≡ some (rows, t)
          → x ≡ some t
      ran none rows t p = cc
      ran (some x) rows t p = cc

      of_exec :
          (r : Bool × Option Error × Unit {0} × Db PluginTables)
          → Contract env (λ _ u. u) (on_tables rows_of) tt s.db.core r
          → Sound (of_enter id note s r).1
      of_exec (true, e, u, db) k =
          let (unset, rows, end, runs, fed, core) = k.on_true refl in
          let (did, frame) = lift_core_frame s.db.core (rows_of s.db.core.tables) rows end runs in
          let t = db.core.tables in
          let same_tables = ap (λ (c : Core PluginTables). c.tables) core in
          let did_t =
            ran (f s.db.core.tables) rows end.tables did
            ∙ ap (λ (x : PluginTables). some x) (sym same_tables) in
          let s' = record s { db = db } in
          let agree = carries s.db.core.tables t s' did_t h.1 in
          subst
            (λ (d : Db PluginTables).
              (d.core.autocommit ≡ true) × Agree d.core.tables (note (id t) s'))
            (sym (quiet (id t) s'))
            (ap (λ (c : Core PluginTables). c.autocommit) (core ∙ frame) ∙ h.0, agree)
      of_exec (false, e, u, db) k =
          let (e', set, failed) = k.on_false refl in
          at_core s db h (still s.db.core db.core h.0 failed)
