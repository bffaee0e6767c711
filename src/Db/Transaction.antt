-- ===== src/Db/Transaction.antt =====
-- Transactions (src/db.c): `rtcom_el_db_transaction`, `_commit`, `_rollback` and statements between
-- them, as seen by the other connections.
use rtcom_eventlogger.Common.{
  ◌≡◌, ◌≢◌, refl, sym, ◌∙◌, ◌⊎◌, inl, inr, Bool, true, false, Option, none, some, List, [], subst,
  arith, Bool-cases, if◌then◌else◌,
}
use rtcom_eventlogger.Db.{
  Error, off, Env, Core, Db, restored, rolled_back, exec, lift_core, on_tables, begin_stmt,
  commit_stmt, rollback_stmt, transaction, commit, rollback,
}
use rtcom_eventlogger.Db.Exec.{feed, Failed, exec-Contract, exec_plain_cases}

-- The tables that every other connection sees.
abbrev pub committed : {T : Type 0} → Core T → T
committed c = if c.autocommit then c.tables else c.saved

-- What an effect on the tables leaves alone.
pub lift_core_frame :
    {T R : Type 0} (c : Core T) (o : Option (List R × T)) (rows : List R) (end : Core T)
    → lift_core c o ≡ some (rows, end)
    → (o ≡ some (rows, end.tables)) × (end ≡ record c { tables = end.tables })
lift_core_frame c none rows end h = cc
lift_core_frame c (some (rs, t)) rows end h = (ground arith, ground arith)

module _ {T : Type 0} (env : Env T) (base : T) where
  -- A transaction is open over `base`, and it can be rolled back.
  abbrev pub InTxn : Core T → Type 0
  InTxn c = (c.autocommit ≡ false) × (c.saved ≡ base) × (c.journal ≢ off)

  -- Whether or not a transaction is open, nothing has been committed over `base`.
  abbrev pub Safe : Core T → Type 0
  Safe c = (committed c ≡ base) × (c.journal ≢ off)

  pub Safe-of_InTxn : (c : Core T) → InTxn c → Safe c
  Safe-of_InTxn c h = ground arith

  restored_safe : (c : Core T) → c.journal ≢ off → restored env c ≡ c.saved
  restored_safe c h = ground arith

  pub rolled_back-Safe : (c : Core T) → InTxn c → Safe (rolled_back env c)
  rolled_back-Safe c h = (restored_safe c h.2 ∙ h.1, h.2)

  pub Failed-Safe : (c c' : Core T) → Safe c → Failed env c c' → Safe c'
  Failed-Safe c c' h (inl same) = subst Safe (sym same) h
  Failed-Safe c c' h (inr (o, rolled)) =
      subst Safe (sym rolled) (rolled_back-Safe c (o, rw (o, committed) at h.0, h.1))

  -- A statement in a transaction, by its result.
  pub record Within {R A : Type 0} (f : T → Option (List R × T)) (cb : R → A → A) (acc : A) (t : T)
      (r : Bool × Option Error × A × Db T) : Type 0 where
    pub on_true :
        r.0 ≡ true
        → InTxn r.3.core
          × (rows : List R) × (f t ≡ some (rows, r.3.core.tables))
          × (r.2 ≡ feed cb acc rows)
    pub on_false : r.0 ≡ false → Safe r.3.core

  pub exec-Within :
      {R A : Type 0} (f : T → Option (List R × T)) (cb : R → A → A) (acc : A) (db : Db T)
      → InTxn db.core
      → Within f cb acc db.core.tables (exec env cb (on_tables f) acc db)
  exec-Within f cb acc db h =
      let k = exec-Contract env cb (on_tables f) acc db in
      record {
        on_true = λ t.
            let (e, rows, end, runs, a, c) = k.on_true t in
            let (ran, frame) = lift_core_frame db.core (f db.core.tables) rows end runs in
            (
              subst InTxn (sym (c ∙ frame)) h,
              rows,
              subst (λ x. f db.core.tables ≡ some (rows, x.tables)) (sym c) ran,
              a,
            );
        on_false =
            λ t. let (e, s, f) = k.on_false t in Failed-Safe db.core _ (Safe-of_InTxn db.core h) f;
      }

  -- `rtcom_el_db_transaction` opens a transaction over what is committed, or changes nothing. It
  -- never nests.
  pub transaction-InTxn :
      (db : Db T)
      → committed db.core ≡ base
      → db.core.journal ≢ off
      → let r = transaction env db in
        ((r.0 ≡ true) × InTxn r.2.core × (r.2.core.tables ≡ base) × (db.core.autocommit ≡ true))
        ⊎ ((r.0 ≡ false) × Safe r.2.core)
  unfolding transaction
  transaction-InTxn db h j = elim (Bool-cases db.core.autocommit) [
    | inr o ↦ inr (simp o, simp o (simp o at h, j))
    | inl alone ↦
        simp alone
          (elim (exec_plain_cases env begin_stmt db []
            (record db.core { saved = db.core.tables; autocommit = false }) refl) [
              | inl (t, e) ↦ inl (
                t,
                subst InTxn (sym e) (refl, rw (alone, committed) at h, j),
                rw e (rw alone at h),
                refl,
              )
              | inr (f, l) ↦ inr (f, Failed-Safe db.core _ (h, j) l)
            ])
  ]

  -- A commit that succeeds publishes the tables, and one that fails publishes nothing.
  pub commit-Safe :
      (db : Db T)
      → InTxn db.core
      → let r = commit env db in
        ((r.0 ≡ true) × (r.2.core ≡ record db.core { autocommit = true }))
        ⊎ ((r.0 ≡ false) × Safe r.2.core)
  unfolding commit
  commit-Safe db h =
      simp h.0
        (elim (exec_plain_cases env commit_stmt db [] (record db.core { autocommit = true }) refl) [
          | inl (t, e) ↦ inl (t, e)
          | inr (f, l) ↦ inr (f, Failed-Safe db.core _ (Safe-of_InTxn db.core h) l)
        ])

  -- A rollback publishes nothing, also one that fails or finds no transaction open.
  pub rollback-Safe : (db : Db T) → Safe db.core → Safe (rollback env db).2.core
  unfolding rollback
  rollback-Safe db h = elim (Bool-cases db.core.autocommit) [
    | inl alone ↦ simp alone (simp alone at h.0, h.1)
    | inr o ↦
        simp o
          (elim (exec_plain_cases env (rollback_stmt env) db [] (rolled_back env db.core) refl) [
            | inl (t, e) ↦
                subst Safe (sym e) (rolled_back-Safe db.core (o, rw (o, committed) at h.0, h.1))
            | inr (f, l) ↦ Failed-Safe db.core _ h l
          ])
  ]
