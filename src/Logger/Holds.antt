-- ===== src/Logger/Holds.antt =====
-- What an action of src/eventlogger.c does inside a transaction: rules for the bind, for the
-- statements and for COMMIT and ROLLBACK, whatever the engine does.
use rtcom_eventlogger.Common.{
  ◌≡◌, refl, sym, ◌∙◌, subst, ap, ◌⊎◌, inl, inr, Bool, true, false, Option, none, some, List,
}
use rtcom_eventlogger.Db.{Error, Db, on_tables, exec, transaction, commit}
use rtcom_eventlogger.Db.Exec.{feed}
use rtcom_eventlogger.Db.Transaction.{
  InTxn, Safe, Safe-of_InTxn, exec-Within, transaction-InTxn, commit-Safe, rollback-Safe,
}
use rtcom_eventlogger.Store.{Tables}
use rtcom_eventlogger.Logger.{
  El, World, Signal, Outcome, crashed, failed, good, Exec, go_on, cleaned, blamed, of_exec,
  of_plain, no_rows, select, run, begin, finish, undo, committing,
}

-- What a statement leaves alone: all of the object but the connection.
abbrev pub SameMemo : El → El → Type 0
SameMemo el el' =
    (el'.last_group_uid ≡ el.last_group_uid) × (el'.sent ≡ el.sent) × (el'.files ≡ el.files)

module _ (w : World) (base : Tables) (signals : List Signal) where
  abbrev pub Inside : El → Type 0
  Inside el = InTxn w.env base el.db.core × (el.sent ≡ signals)

  abbrev pub Outside : El → Type 0
  Outside el = Safe w.env base el.db.core × (el.sent ≡ signals)

  -- The action ended inside the transaction, with `Q`, or it failed and published nothing.
  abbrev pub Holds : {A : Type 0} → (A → El → Type 0) → Outcome A × El → Type 0
  Holds Q (crashed, el) = Outside el
  Holds Q (failed e, el) = Outside el
  Holds Q (good a, el) = Inside el × Q a el

  pub Outside-of_Inside : (el : El) → Inside el → Outside el
  Outside-of_Inside el h = (Safe-of_InTxn w.env base el.db.core h.0, h.1)

  pub go_on-Holds :
      {A B : Type 0} (Q : A → El → Type 0) (R : B → El → Type 0) (k : A → Exec B)
      (r : Outcome A × El)
      → Holds Q r
      → ((a : A) (el : El) → Inside el → Q a el → Holds R (k a el))
      → Holds R (go_on k r)
  go_on-Holds Q R k (crashed, el) h next = h
  go_on-Holds Q R k (failed e, el) h next = h
  go_on-Holds Q R k (good a, el) h next = next a el h.0 h.1

  pub Holds-map :
      {A : Type 0} (Q R : A → El → Type 0) (r : Outcome A × El)
      → Holds Q r
      → ((a : A) (el : El) → Q a el → R a el)
      → Holds R r
  Holds-map Q R (crashed, el) h f = h
  Holds-map Q R (failed e, el) h f = h
  Holds-map Q R (good a, el) h f = (h.0, f a el h.1)

  pub blamed-Holds :
      {A : Type 0} (Q : A → El → Type 0) (f : El → Error) (r : Outcome A × El)
      → Holds Q r
      → Holds Q (blamed f r)
  blamed-Holds Q f (crashed, el) h = h
  blamed-Holds Q f (failed e, el) h = h
  blamed-Holds Q f (good a, el) h = h

  abbrev pub Runs : {A : Type 0} → El → Tables → (A → El → Type 0) → A → Type 0
  Runs el t Q a = (el' : El) → Inside el' → SameMemo el el' → el'.db.core.tables ≡ t → Q a el'

  of_exec-Holds :
      {A : Type 0} (Q : A → El → Type 0) (el : El) (r : Bool × Option Error × A × Db Tables)
      → el.sent ≡ signals
      → (r.0 ≡ true → InTxn w.env base r.3.core × Q r.2 (record el { db = r.3 }))
      → (r.0 ≡ false → Safe w.env base r.3.core)
      → Holds Q (of_exec w el r)
  of_exec-Holds Q el (true, e, a, db) s t f = let (h, q) = t refl in ((h, s), q)
  of_exec-Holds Q el (false, e, a, db) s t f = (f refl, s)

  of_plain-Holds :
      (Q : Unit {0} → El → Type 0) (el : El) (r : Bool × Option Error × Db Tables)
      → el.sent ≡ signals
      → (r.0 ≡ true → InTxn w.env base r.2.core × Q tt (record el { db = r.2 }))
      → (r.0 ≡ false → Safe w.env base r.2.core)
      → Holds Q (of_plain w el r)
  of_plain-Holds Q el (true, e, db) s t f = let (h, q) = t refl in ((h, s), q)
  of_plain-Holds Q el (false, e, db) s t f = (f refl, s)

  -- A SELECT changes nothing and hands all its rows to the callback, or it fails.
  pub select-Holds :
      {R A : Type 0} (cb : R → A → A) (acc : A) (f : Tables → List R) (Q : A → El → Type 0)
      (el : El)
      → Inside el
      → Runs el el.db.core.tables Q (feed cb acc (f el.db.core.tables))
      → Holds Q (select w cb acc f el)
  unfolding select
  select-Holds {R} {A} cb acc f Q el h q =
      let stmt = λ (t : Tables). delivered (f t) t in
      let r = exec w.env cb (on_tables stmt) acc el.db in
      let k = exec-Within w.env base stmt cb acc el.db h.0 in
      of_exec-Holds Q el r h.1
        (λ ok.
          let (i, rows, ran, fed) = k.on_true ok in
          (
            i,
            subst (λ x. Q x (record el { db = r.3 }))
                (sym (fed ∙ ap (feed cb acc) (sym (rows_eq ran))))
                (q (record el { db = r.3 }) (i, h.1) (refl, refl, refl) (sym (tables_eq ran))),
          ))
        (λ bad. k.on_false bad)
    where
      delivered : List R → Tables → Option (List R × Tables)
      delivered a t = some (a, t)

      rows_eq :
          {a b : List R} {x y : Tables}
          → ◌≡◌ {A = Option (List R × Tables)} (some (a, x)) (some (b, y))
          → a ≡ b
      rows_eq p = cc

      tables_eq :
          {a b : List R} {x y : Tables}
          → ◌≡◌ {A = Option (List R × Tables)} (some (a, x)) (some (b, y))
          → x ≡ y
      tables_eq p = cc

  ran_tables :
      (o : Option Tables) (rows : List (Unit {0})) (t : Tables)
      → no_rows w o ≡ some (rows, t)
      → o ≡ some t
  ran_tables none rows t h = cc
  ran_tables (some x) rows t h = cc

  -- A statement that changes rows does so, or it fails and nothing is published.
  pub run-Holds :
      (f : Tables → Option Tables) (Q : Unit {0} → El → Type 0) (el : El)
      → Inside el
      → ((t : Tables) → f el.db.core.tables ≡ some t → Runs el t Q tt)
      → Holds Q (run w f el)
  unfolding run
  run-Holds f Q el h q =
      let stmt = λ (t : Tables). no_rows w (f t) in
      let r = exec w.env (λ _ (u : Unit {0}). u) (on_tables stmt) tt el.db in
      let k = exec-Within w.env base stmt (λ _ (u : Unit {0}). u) tt el.db h.0 in
      of_exec-Holds Q el r h.1
        (λ ok.
          let (i, rows, ran, fed) = k.on_true ok in
          (
            i,
            q r.3.core.tables (ran_tables (f el.db.core.tables) rows r.3.core.tables ran)
                (record el { db = r.3 }) (i, h.1) (refl, refl, refl) refl,
          ))
        (λ bad. k.on_false bad)

  -- BEGIN finds no transaction and opens one over what is committed, or it fails.
  pub begin-Holds :
      (Q : Unit {0} → El → Type 0) (el : El)
      → Outside el
      → (el.db.core.autocommit ≡ true → Runs el base Q tt)
      → Holds Q (begin w el)
  unfolding begin
  begin-Holds Q el h q =
      let r = transaction w.env el.db in
      of_plain-Holds Q el r h.1
        (λ ok. elim (transaction-InTxn w.env base el.db h.0.0 h.0.1) [
          | inl (t, i, same, alone) ↦
              (i, q alone (record el { db = r.2 }) (i, h.1) (refl, refl, refl) same)
          | inr (bad, s) ↦ absurd (differ (sym ok ∙ bad))
        ])
        (λ bad. elim (transaction-InTxn w.env base el.db h.0.0 h.0.1) [
          | inl (t, i, same, alone) ↦ absurd (differ (sym t ∙ bad))
          | inr (f, s) ↦ s
        ])
    where
      differ : true ≡ false → ⊥
      differ p = cc

  -- An operation as others see it: it ended with `R`, or it published nothing and sent nothing.
  abbrev pub Ends : {A : Type 0} → (A → El → Type 0) → Outcome A × El → Type 0
  Ends R (crashed, el) = Outside el
  Ends R (failed e, el) = Outside el
  Ends R (good a, el) = R a el

  pub go_on-Ends :
      {A B : Type 0} (Q : A → El → Type 0) (R : B → El → Type 0) (k : A → Exec B)
      (r : Outcome A × El)
      → Ends Q r
      → ((a : A) (el : El) → Q a el → Ends R (k a el))
      → Ends R (go_on k r)
  go_on-Ends Q R k (crashed, el) h next = h
  go_on-Ends Q R k (failed e, el) h next = h
  go_on-Ends Q R k (good a, el) h next = next a el h

  pub go_on-Holds-Ends :
      {A B : Type 0} (Q : A → El → Type 0) (R : B → El → Type 0) (k : A → Exec B)
      (r : Outcome A × El)
      → Holds Q r
      → ((a : A) (el : El) → Inside el → Q a el → Ends R (k a el))
      → Ends R (go_on k r)
  go_on-Holds-Ends Q R k (crashed, el) h next = h
  go_on-Holds-Ends Q R k (failed e, el) h next = h
  go_on-Holds-Ends Q R k (good a, el) h next = next a el h.0 h.1

  -- COMMIT publishes the tables, or it fails and nothing is published.
  pub finish-Ends :
      (Q : Unit {0} → El → Type 0) (el : El)
      → Inside el
      → ((el' : El)
          → SameMemo el el'
          → el'.db.core ≡ record el.db.core { autocommit = true }
          → Q tt el')
      → Ends Q (finish w el)
  unfolding finish
  finish-Ends Q el h q = of_commit (commit w.env el.db) (commit-Safe w.env base el.db h.0)
    where
      of_commit :
          (r : Bool × Option Error × Db Tables)
          → ((r.0 ≡ true) × (r.2.core ≡ record el.db.core { autocommit = true }))
            ⊎ ((r.0 ≡ false) × Safe w.env base r.2.core)
          → Ends Q (of_plain w el r)
      of_commit (true, e, db) (inl (t, c)) = q (record el { db = db }) (refl, refl, refl) c
      of_commit (false, e, db) (inr (f, s)) = (s, h.1)
      of_commit (true, e, db) (inr (f, s)) = cc
      of_commit (false, e, db) (inl (t, c)) = cc

  -- ROLLBACK before the failure is returned publishes nothing.
  pub cleaned-Ends :
      {A : Type 0} (Q : A → El → Type 0) (r : Outcome A × El)
      → Ends Q r
      → Ends Q (cleaned (undo w) r)
  unfolding undo
  cleaned-Ends Q (crashed, el) h = h
  cleaned-Ends Q (failed e, el) h = (rollback-Safe w.env base el.db h.0, h.1)
  cleaned-Ends Q (good a, el) h = h

  -- Statements, COMMIT, and ROLLBACK where one of them fails.
  pub committing-Ends :
      {A : Type 0} (Q R : A → El → Type 0) (m : Exec A) (el : El)
      → Holds Q (m el)
      → ((a : A) (el1 el' : El)
          → Q a el1
          → SameMemo el1 el'
          → el'.db.core ≡ record el1.db.core { autocommit = true }
          → el1.sent ≡ signals
          → R a el')
      → Ends R (committing w m el)
  committing-Ends Q R m el h q = cleaned-Ends R _ (
      go_on-Holds-Ends Q R _ (m el) h (λ a el1 i1 q1.
        go_on-Ends (λ _ el'. R a el') R _ (finish w el1)
          (finish-Ends (λ _ el'. R a el') el1 i1 (λ el' memo same. q a el1 el' q1 memo same i1.1))
          (λ _ el' r. r)))

  -- An action that only looks at the object.
  pub looks-Ends :
      {A : Type 0} (r : Outcome A × El) (el : El)
      → r.1 ≡ el
      → Outside el
      → Ends (λ a el'. (el' ≡ el) × (r ≡ (good a, el))) r
  looks-Ends (crashed, el') el h o = subst Outside (sym h) o
  looks-Ends (failed e, el') el h o = subst Outside (sym h) o
  looks-Ends (good a, el') el h o = (h, cc)
