-- ===== src/Logger/Delete/Ignored.antt =====
-- The statements of a deletion in src/eventlogger.c whose failure is ignored.
use rtcom_eventlogger.Common.{
  ◌≡◌, refl, sym, ◌∙◌, ap, ◌⊎◌, inl, inr, Bool, true, false, Option, some, List,
}
use rtcom_eventlogger.Db.{Error, Core, Db, on_tables, exec}
use rtcom_eventlogger.Db.Exec.{feed, Failed, exec-Contract}
use rtcom_eventlogger.Db.Transaction.{lift_core_frame}
use rtcom_eventlogger.Store.{Tables}
use rtcom_eventlogger.Logger.{El, World, of_exec, no_rows, select, run}
use rtcom_eventlogger.Logger.Delete.{or_else}
use rtcom_eventlogger.Logger.Delete.Success.{Good, ran_tables}

module _ (w : World) where
  -- A statement whose failure is ignored: it ran, or it changed nothing, or the transaction is lost.
  or_else-Good :
      {A : Type 0} (R : A → El → Type 0) (a : A) (el : El) (r : Bool × Option Error × A × Db Tables)
      → (r.0 ≡ true → R r.2 (record el { db = r.3 }))
      → (r.0 ≡ false → R a (record el { db = r.3 }))
      → Good R (or_else a (of_exec w el r))
  or_else-Good R a el (true, e, b, db) t f = t refl
  or_else-Good R a el (false, e, b, db) t f = f refl

  lost : (c c' : Core Tables) → Failed w.env c c' → (c'.autocommit ≡ true) ⊎ (c' ≡ c)
  lost c c' (inl same) = inr same
  lost c c' (inr (open_txn, back)) = inl (ap (λ (x : Core Tables). x.autocommit) back)

  pub select-Good_ignored :
      {R A : Type 0} (cb : R → A → A) (acc a : A) (f : Tables → List R) (el : El)
      → Good
          (λ x el'.
            (el'.db.core.autocommit ≡ true)
            ⊎ ((el'.db.core.tables ≡ el.db.core.tables)
                × ((x ≡ feed cb acc (f el.db.core.tables)) ⊎ (x ≡ a))))
          (or_else a (select w cb acc f el))
  unfolding select
  select-Good_ignored {R} cb acc a f el =
      let stmt = on_tables (λ (t : Tables). some (f t, t)) in
      let k = exec-Contract w.env cb stmt acc el.db in
      or_else-Good _ a el (exec w.env cb stmt acc el.db)
        (λ ok.
          let (e, rows, end, runs, fed, c) = k.on_true ok in
          let (ran, frame) =
            lift_core_frame el.db.core (some (f el.db.core.tables, el.db.core.tables)) rows end
              runs in
          let (same_rows, same_tables) = read ran in
          inr (
            ap (λ (x : Core Tables). x.tables) c ∙ sym same_tables,
            inl (fed ∙ ap (feed cb acc) (sym same_rows)),
          ))
        (λ no.
          let (e, set, l) = k.on_false no in
          elim (lost el.db.core _ l) [
            | inl alone ↦ inl alone
            | inr same ↦ inr (ap (λ (x : Core Tables). x.tables) same, inr refl)
          ])
    where
      read :
          {rows rows' : List R} {t t' : Tables}
          → ◌≡◌ {A = Option (List R × Tables)} (some (rows, t)) (some (rows', t'))
          → (rows ≡ rows') × (t ≡ t')
      read h = (cc, cc)

  pub run-Good_ignored :
      (f : Tables → Tables) (el : El)
      → Good
          (λ _ el'.
            (el'.db.core.autocommit ≡ true)
            ⊎ ((el'.db.core.autocommit ≡ el.db.core.autocommit)
                × ((el'.db.core.tables ≡ f el.db.core.tables)
                    ⊎ (el'.db.core.tables ≡ el.db.core.tables))))
          (or_else tt (run w (λ t. some (f t)) el))
  unfolding run
  run-Good_ignored f el =
      let stmt = on_tables (λ (t : Tables). no_rows w (some (f t))) in
      let k = exec-Contract w.env (λ _ (u : Unit {0}). u) stmt tt el.db in
      or_else-Good _ tt el (exec w.env (λ _ (u : Unit {0}). u) stmt tt el.db)
        (λ ok.
          let (e, rows, end, runs, fed, c) = k.on_true ok in
          let (ran, frame) =
            lift_core_frame el.db.core (no_rows w (some (f el.db.core.tables))) rows end runs in
          inr (
            ap (λ (x : Core Tables). x.autocommit) (c ∙ frame),
            inl (
                ap (λ (x : Core Tables). x.tables) c
                ∙ sym (done (ran_tables w (some (f el.db.core.tables)) rows end.tables ran))),
          ))
        (λ no.
          let (e, set, l) = k.on_false no in
          elim (lost el.db.core _ l) [
            | inl alone ↦ inl alone
            | inr same ↦ inr (
              ap (λ (x : Core Tables). x.autocommit) same,
              inr (ap (λ (x : Core Tables). x.tables) same),
            )
          ])
    where
      done : {t t' : Tables} → ◌≡◌ {A = Option Tables} (some t) (some t') → t ≡ t'
      done h = cc
