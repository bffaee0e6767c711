-- ===== src/Logger/Single.antt =====
-- Statements of src/eventlogger.c that run with no transaction open, each of which commits itself.
use rtcom_eventlogger.Common.{
  ◌≡◌, refl, sym, ◌∙◌, ap, inl, inr, Bool, true, false, Option, none, some, List,
}
use rtcom_eventlogger.Db.{Error, Core, Db, on_tables, exec}
use rtcom_eventlogger.Db.Exec.{Failed, feed, exec-Contract}
use rtcom_eventlogger.Db.Transaction.{lift_core_frame}
use rtcom_eventlogger.Store.{Tables}
use rtcom_eventlogger.Logger.{
  El, World, Outcome, crashed, failed, good, Exec, go_on, of_exec, no_rows, select, run,
}

-- An operation begun at `el`: it ended with `R`, or it failed and neither changed the database nor
-- sent a message.
abbrev pub Unless : {A : Type 0} → (A → El → Type 0) → El → Outcome A × El → Type 0
Unless R el (crashed, el') = (el'.db.core ≡ el.db.core) × (el'.sent ≡ el.sent)
Unless R el (failed e, el') = (el'.db.core ≡ el.db.core) × (el'.sent ≡ el.sent)
Unless R el (good a, el') = R a el'

pub go_on-Unless :
    {A B : Type 0} (Q : A → El → Type 0) (R : B → El → Type 0) (el : El) (k : A → Exec B)
    (r : Outcome A × El)
    → Unless Q el r
    → ((a : A) (el' : El) → Q a el' → Unless R el (k a el'))
    → Unless R el (go_on k r)
go_on-Unless Q R el k (crashed, el') h next = h
go_on-Unless Q R el k (failed e, el') h next = h
go_on-Unless Q R el k (good a, el') h next = next a el' h

pub Unless-mono :
    {A : Type 0} (Q R : A → El → Type 0) (el : El) (r : Outcome A × El)
    → ((a : A) (el' : El) → Q a el' → R a el')
    → Unless Q el r
    → Unless R el r
Unless-mono Q R el (crashed, el') k h = h
Unless-mono Q R el (failed e, el') k h = h
Unless-mono Q R el (good a, el') k h = k a el' h

module _ (w : World) where
  alone-Failed : (c c' : Core Tables) → c.autocommit ≡ true → Failed w.env c c' → c' ≡ c
  alone-Failed c c' h (inl same) = same
  alone-Failed c c' h (inr (open_txn, _)) = absurd (differ (sym h ∙ open_txn))
    where
      differ : true ≡ false → ⊥
      differ p = cc

  of_exec-Unless :
      {A : Type 0} (R : A → El → Type 0) (el : El) (r : Bool × Option Error × A × Db Tables)
      → (r.0 ≡ true → R r.2 (record el { db = r.3 }))
      → (r.0 ≡ false → r.3.core ≡ el.db.core)
      → Unless R el (of_exec w el r)
  of_exec-Unless R el (true, e, a, db) t f = t refl
  of_exec-Unless R el (false, e, a, db) t f = (f refl, refl)

  -- A SELECT outside of transactions: all rows, and no change.
  pub select-Unless :
      {X A : Type 0} (cb : X → A → A) (acc : A) (f : Tables → List X) (el : El)
      → el.db.core.autocommit ≡ true
      → Unless
          (λ a el'.
            (a ≡ feed cb acc (f el.db.core.tables))
            × (el'.db.core ≡ el.db.core)
            × (el'.sent ≡ el.sent))
          el
          (select w cb acc f el)
  unfolding select
  select-Unless {X} {A} cb acc f el alone =
      let k = exec-Contract w.env cb (on_tables answer) acc el.db in
      of_exec-Unless _ el (exec w.env cb (on_tables answer) acc el.db)
        (λ ok.
          let (e, rows, end, runs, fed, c) = k.on_true ok in
          (fed ∙ ap (feed cb acc) (sym (rows_eq runs)), c ∙ sym (core_eq runs), refl))
        (λ bad. alone-Failed el.db.core _ alone (k.on_false bad).2)
    where
      answer : Tables → Option (List X × Tables)
      answer t = some (f t, t)

      rows_eq :
          {a b : List X} {x y : Core Tables}
          → ◌≡◌ {A = Option (List X × Core Tables)} (some (a, x)) (some (b, y))
          → a ≡ b
      rows_eq p = cc

      core_eq :
          {a b : List X} {x y : Core Tables}
          → ◌≡◌ {A = Option (List X × Core Tables)} (some (a, x)) (some (b, y))
          → x ≡ y
      core_eq p = cc

  ran_tables :
      (o : Option Tables) (rows : List (Unit {0})) (t : Tables)
      → no_rows w o ≡ some (rows, t)
      → o ≡ some t
  ran_tables none rows t h = cc
  ran_tables (some x) rows t h = cc

  -- A statement outside of transactions changes exactly what it says.
  pub run-Unless :
      (f : Tables → Option Tables) (el : El)
      → el.db.core.autocommit ≡ true
      → Unless
          (λ _ el'.
            (t : Tables) × (f el.db.core.tables ≡ some t)
            × (el'.db.core ≡ record el.db.core { tables = t })
            × (el'.sent ≡ el.sent))
          el
          (run w f el)
  unfolding run
  run-Unless f el alone =
      let stmt = on_tables (λ (t : Tables). no_rows w (f t)) in
      let k = exec-Contract w.env (λ _ (u : Unit {0}). u) stmt tt el.db in
      of_exec-Unless _ el (exec w.env (λ _ (u : Unit {0}). u) stmt tt el.db)
        (λ ok.
          let (e, rows, end, runs, fed, c) = k.on_true ok in
          let (ran, frame) =
            lift_core_frame el.db.core (no_rows w (f el.db.core.tables)) rows end runs in
          (end.tables, ran_tables (f el.db.core.tables) rows end.tables ran, c ∙ frame, refl))
        (λ bad. alone-Failed el.db.core _ alone (k.on_false bad).2)
