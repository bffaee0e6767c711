-- ===== src/Db/Exec.antt =====
-- `rtcom_el_db_exec` (src/db.c): what a caller may rely on, whatever the engine does.
use rtcom_eventlogger.Db.Iterate.{iterate-other}
use rtcom_eventlogger.Common.{
  suc, ◌≡◌, refl, sym, ◌∙◌, ◌⊎◌, inl, inr, Bool, true, false, Option, none, some, List, [], ◌∷◌,
  subst, Bool-cases, Option-cases,
}
use rtcom_eventlogger.Db.{
  Status, Error, Env, Core, Db, Effect, classify, rolled_back, after_failure, after_step, spin,
  last_step, iterate, exec_rows, exec, exec_plain,
}

-- The callback over all rows, first row first.
abbrev pub feed : {R A : Type 0} → (R → A → A) → A → List R → A
feed cb acc [] = acc
feed cb acc (r ∷ rs) = feed cb (cb r acc) rs

module _ {T : Type 0} (env : Env T) where
  -- What a failed call leaves: the connection as it was, or, where a transaction was open, the
  -- connection after SQLite's own rollback.
  abbrev pub Failed : Core T → Core T → Type 0
  Failed c c' = (c' ≡ c) ⊎ ((c.autocommit ≡ false) × (c' ≡ rolled_back env c))

  pub after_failure-Failed : (s : Status) (db : Db T) → Failed db.core (after_failure env s db).core
  after_failure-Failed s db = elim (Bool-cases db.core.autocommit) [
    | inl alone ↦ inl (rw alone)
    | inr open_txn ↦ elim (Bool-cases (env.auto_rollback db.clock)) [
      | inl own ↦ inr (open_txn, rw (open_txn, own))
      | inr no_own ↦ inl (rw (open_txn, no_own))
    ]
  ]

  -- A call that began at `db`, by its result.
  abbrev pub Steps : Db T → Status × Option Error × Db T → Type 0
  Steps db r =
      ((r.1 ≡ none) × (r.2.core ≡ db.core))
      ⊎ ((e : Error) × (r.1 ≡ some e) × Failed db.core r.2.core)

  after_step-Steps :
      (s c : Status) (e : Option Error) (db : Db T) → Steps db (s, e, after_step env c e db)
  after_step-Steps s c none db = inl (refl, refl)
  after_step-Steps s c (some e) db = inr (e, refl, after_failure-Failed c db)

  pub iterate-Steps : (s : Status) (db : Db T) → Steps db (iterate env s db)
  unfolding iterate
  iterate-Steps s db =
      after_step-Steps (spin (env.refusals db.clock) s).0 (last_step (env.refusals db.clock) s)
        (spin (env.refusals db.clock) s).1 db

  moved : {c d x : Core T} → c ≡ d → Failed c x → Failed d x
  moved {x = x} p f = subst (λ c. Failed c x) p f

  module _ {R A : Type 0} (cb : R → A → A) where
    -- A loop over `rows` that is to end in `end`.
    abbrev pub Delivers : Core T → Core T → List R → A → Bool × Option Error × A × Db T → Type 0
    Delivers start end rows acc r =
        ((r.0 ≡ true) × (r.1 ≡ none) × (r.2 ≡ feed cb acc rows) × (r.3.core ≡ end))
        ⊎ ((r.0 ≡ false) × (e : Error) × (r.1 ≡ some e) × Failed start r.3.core)

    exec_rows-Delivers :
        (start end : Core T) (rows : List R) (acc : A) (db : Db T)
        → db.core ≡ start
        → Delivers start end rows acc (exec_rows env cb end rows acc db)
    unfolding exec_rows
    exec_rows-Delivers start end [] acc db same_core = elim (iterate-Steps Status.done db) [
      | inl (e, c) ↦
          inl (rw (e, exec_rows), rw (e, exec_rows), rw (e, exec_rows), rw (e, exec_rows))
      | inr (e, h, f) ↦
          inr (rw (h, exec_rows), e, rw (h, exec_rows), rw (h, exec_rows) (moved same_core f))
    ]
    exec_rows-Delivers start end (r ∷ rs) acc db same_core = elim (iterate-Steps Status.row db) [
      | inl (e, c) ↦
          rw (e, exec_rows)
            (exec_rows-Delivers start end rs (cb r acc) (iterate env Status.row db).2
              (c ∙ same_core))
      | inr (e, h, f) ↦
          inr (rw (h, exec_rows), e, rw (h, exec_rows), rw (h, exec_rows) (moved same_core f))
    ]

    -- The statement and the connection before the call decide what the result can be.
    pub record Contract (stmt : Effect T R) (acc : A) (start : Core T)
        (r : Bool × Option Error × A × Db T) : Type 0 where
      pub on_true :
          r.0 ≡ true
          → (r.1 ≡ none)
            × (rows : List R) × (end : Core T) × (stmt start ≡ some (rows, end))
            × (r.2 ≡ feed cb acc rows)
            × (r.3.core ≡ end)
      pub on_false : r.0 ≡ false → (e : Error) × (r.1 ≡ some e) × Failed start r.3.core

    of_Delivers :
        (stmt : Effect T R) (acc : A) (start end : Core T) (rows : List R)
        (r : Bool × Option Error × A × Db T)
        → stmt start ≡ some (rows, end)
        → Delivers start end rows acc r
        → Contract stmt acc start r
    of_Delivers stmt acc start end rows r runs (inl (t, e, a, c)) = record {
      on_true = λ h. (e, rows, end, runs, a, c);
      on_false = λ h. cc;
    }
    of_Delivers stmt acc start end rows r runs (inr (f, e, h, c)) = record {
      on_true = λ h. cc;
      on_false = λ _. (e, h, c);
    }

    -- For every engine: TRUE means that the whole statement was run, that the callback has seen all
    -- its rows in order and that no error is set; FALSE means that an error is set and that the
    -- connection is as it was, but for a rollback that SQLite made by itself.
    pub exec-Contract :
        (stmt : Effect T R) (acc : A) (db : Db T)
        → Contract stmt acc db.core (exec env cb stmt acc db)
    unfolding exec
    exec-Contract stmt acc db = elim (Option-cases (classify (env.prepare db.clock))) [
      | inr (e, refused) ↦
          rw (refused, exec)
            (record {
              on_true = λ h. cc;
              on_false = λ _. (e, refl, after_failure-Failed (env.prepare db.clock) db);
            })
      | inl prepared ↦ elim (Option-cases (stmt db.core)) [
        | inr ((rows, end), runs) ↦
            rw (prepared, exec)
              (rw (runs, exec)
                (of_Delivers stmt acc db.core end rows _ runs (
                  exec_rows-Delivers db.core end rows acc
                    (record db { errcode = Status.ok; clock = suc db.clock }) refl)))
        | inl broken ↦
            rw (prepared, exec)
              (rw (broken, exec)
                (elim (iterate-Steps Status.other
                  (record db { errcode = Status.ok; clock = suc db.clock })) [
                    | inl (e, c) ↦ absurd (iterate-other env _ e)
                    | inr (e, h, f) ↦ record { on_true = λ h. cc; on_false = λ _. (e, h, f) }
                  ]))
      ]
    ]

  -- A statement that always runs, with no callback.
  pub exec_plain_cases :
      (stmt : Effect T (Unit {0})) (db : Db T) (rows : List (Unit {0})) (end : Core T)
      → stmt db.core ≡ some (rows, end)
      → let r = exec_plain env stmt db in
        ((r.0 ≡ true) × (r.2.core ≡ end)) ⊎ ((r.0 ≡ false) × Failed db.core r.2.core)
  unfolding exec_plain
  exec_plain_cases stmt db rows end runs =
      let k = exec-Contract (λ _ (u : Unit {0}). u) stmt tt db in
      elim (Bool-cases (exec env (λ _ (u : Unit {0}). u) stmt tt db).0) [
        | inl t ↦ inl (t, (k.on_true t).5 ∙ same_end (sym (k.on_true t).3 ∙ runs))
        | inr f ↦ inr (f, (k.on_false f).2)
      ]
    where
      same_end :
          {a b : List (Unit {0})} {x y : Core T}
          → ◌≡◌ {A = Option (List (Unit {0}) × Core T)} (some (a, x)) (some (b, y))
          → x ≡ y
      same_end p = cc
