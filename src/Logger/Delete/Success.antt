-- ===== src/Logger/Delete/Success.antt =====
-- What a deletion of src/eventlogger.c that succeeds has done. (A failure promises nothing: the
-- deletions run without a journal, so that their ROLLBACK has nothing to go back to.)
use rtcom_eventlogger.Common.{
  ◌≡◌, refl, sym, ◌∙◌, subst, ap, ◌⊎◌, inl, inr, Bool, true, false, Option, none, some, List, [],
  ◌∷◌, Bool-cases, if◌then◌else◌,
}
use rtcom_eventlogger.Db.{
  Error, Journal, Core, Db, on_tables, exec, exec_plain, begin_stmt, commit_stmt, journal_stmt,
  transaction, commit, truncate, off,
}
use rtcom_eventlogger.Db.Exec.{Failed, exec-Contract, exec_plain_cases}
use rtcom_eventlogger.Db.Transaction.{lift_core_frame, committed}
use rtcom_eventlogger.Store.{Tables}
use rtcom_eventlogger.Logger.{
  El, World, Outcome, crashed, failed, good, Exec, go_on, of_exec, of_plain, no_rows, ◌>>◌, run,
  begin, finish, set_journal,
}
use rtcom_eventlogger.Logger.Delete.{settle, deleting}

-- It did not end well, or it ended with `R`.
abbrev pub Good : {A : Type 0} → (A → El → Type 0) → Outcome A × El → Type 0
Good R (crashed, el) = Unit
Good R (failed e, el) = Unit
Good R (good a, el) = R a el

pub go_on-Good :
    {A B : Type 0} (Q : A → El → Type 0) (R : B → El → Type 0) (k : A → Exec B) (r : Outcome A × El)
    → Good Q r
    → ((a : A) (el : El) → Q a el → Good R (k a el))
    → Good R (go_on k r)
go_on-Good Q R k (crashed, el) h next = tt
go_on-Good Q R k (failed e, el) h next = tt
go_on-Good Q R k (good a, el) h next = next a el h

pub Good-mono :
    {A : Type 0} (Q P : El → Type 0) (r : Outcome A × El)
    → ((el' : El) → Q el' → P el')
    → Good (λ _ el'. Q el') r
    → Good (λ _ el'. P el') r
Good-mono Q P (crashed, el') k h = tt
Good-mono Q P (failed e, el') k h = tt
Good-mono Q P (good a, el') k h = k el' h

module _ (w : World) where
  alone_core : (c c' : Core Tables) → c.autocommit ≡ true → Failed w.env c c' → c' ≡ c
  alone_core c c' h (inl same) = same
  alone_core c c' h (inr (open_txn, _)) = absurd (differ (sym h ∙ open_txn))
    where
      differ : true ≡ false → ⊥
      differ p = cc

  of_exec-Good :
      {A : Type 0} (R : A → El → Type 0) (el : El) (r : Bool × Option Error × A × Db Tables)
      → (r.0 ≡ true → R r.2 (record el { db = r.3 }))
      → Good R (of_exec w el r)
  of_exec-Good R el (true, e, a, db) t = t refl
  of_exec-Good R el (false, e, a, db) t = tt

  pub ran_tables :
      (o : Option Tables) (rows : List (Unit {0})) (t : Tables)
      → no_rows w o ≡ some (rows, t)
      → o ≡ some t
  ran_tables none rows t h = cc
  ran_tables (some x) rows t h = cc

  -- In or out of a transaction, with or without a journal.
  pub run-Good :
      (f : Tables → Option Tables) (el : El)
      → Good
          (λ _ el'.
            (f el.db.core.tables ≡ some el'.db.core.tables)
            × (el'.db.core ≡ record el.db.core { tables = el'.db.core.tables }))
          (run w f el)
  unfolding run
  run-Good f el =
      let stmt = on_tables (λ (t : Tables). no_rows w (f t)) in
      let k = exec-Contract w.env (λ _ (u : Unit {0}). u) stmt tt el.db in
      of_exec-Good _ el (exec w.env (λ _ (u : Unit {0}). u) stmt tt el.db) (λ ok.
        let (e, rows, end, runs, fed, c) = k.on_true ok in
        let (ran, frame) =
          lift_core_frame el.db.core (no_rows w (f el.db.core.tables)) rows end runs in
        (
          ran_tables (f el.db.core.tables) rows end.tables ran
              ∙ ap (λ (x : Core Tables). some x.tables) (sym c),
          c ∙ frame ∙ ap (λ (x : Core Tables). record el.db.core { tables = x.tables }) (sym c),
        ))

  of_plain-Good :
      (R : Unit {0} → El → Type 0) (el : El) (r : Bool × Option Error × Db Tables)
      → (r.0 ≡ true → R tt (record el { db = r.2 }))
      → Good R (of_plain w el r)
  of_plain-Good R el (true, e, db) t = t refl
  of_plain-Good R el (false, e, db) t = tt

  plain_core :
      (stmt : Core Tables → Option (List (Unit {0}) × Core Tables)) (db : Db Tables)
      (end : Core Tables)
      → stmt db.core ≡ some ([], end)
      → (exec_plain w.env stmt db).0 ≡ true
      → (exec_plain w.env stmt db).2.core ≡ end
  plain_core stmt db end runs ok = elim (exec_plain_cases w.env stmt db [] end runs) [
    | inl (t, c) ↦ c
    | inr (f, _) ↦ absurd (differ (sym ok ∙ f))
  ]
    where
      differ : true ≡ false → ⊥
      differ p = cc

  begin-Good :
      (el : El)
      → el.db.core.autocommit ≡ true
      → Good (λ _ el'. el'.db.core.tables ≡ el.db.core.tables) (begin w el)
  unfolding begin transaction
  begin-Good el alone = simp alone (
      of_plain-Good (λ _ el'. el'.db.core.tables ≡ el.db.core.tables) el
        (exec_plain w.env begin_stmt el.db)
        (λ ok.
          ap (λ (c : Core Tables). c.tables)
            (plain_core begin_stmt el.db
              (record el.db.core { saved = el.db.core.tables; autocommit = false }) refl ok)))

  finish-Good :
      (el : El)
      → Good
          (λ _ el'. (el'.db.core.tables ≡ el.db.core.tables) × (el'.db.core.autocommit ≡ true))
          (finish w el)
  unfolding finish commit
  finish-Good el = elim (Bool-cases el.db.core.autocommit) [
    | inl alone ↦ simp alone tt
    | inr open_txn ↦ simp open_txn (
        of_plain-Good
          (λ _ el'. (el'.db.core.tables ≡ el.db.core.tables) × (el'.db.core.autocommit ≡ true)) el
          (exec_plain w.env commit_stmt el.db)
          (λ ok.
            let c =
              plain_core commit_stmt el.db (record el.db.core { autocommit = true }) refl ok in
            (ap (λ (x : Core Tables). x.tables) c, ap (λ (x : Core Tables). x.autocommit) c)))
  ]

  set_journal_alone :
      (j : Journal) (el : El)
      → el.db.core.autocommit ≡ true
      → ((set_journal w j el).db.core.tables ≡ el.db.core.tables)
        × ((set_journal w j el).db.core.autocommit ≡ true)
  unfolding set_journal
  set_journal_alone j el alone =
      elim (exec_plain_cases w.env (journal_stmt j) el.db (tt ∷ [])
        (record el.db.core { journal = if el.db.core.autocommit then j else el.db.core.journal })
        refl) [
          | inl (t, c) ↦ (
            ap (λ (x : Core Tables). x.tables) c,
            ap (λ (x : Core Tables). x.autocommit) c ∙ alone,
          )
          | inr (f, l) ↦
              let c = alone_core el.db.core _ alone l in
              (
                ap (λ (x : Core Tables). x.tables) c,
                ap (λ (x : Core Tables). x.autocommit) c ∙ alone,
              )
        ]

  -- A COMMIT succeeds only where a transaction is open.
  committed-Good :
      (R : Tables → Type 0) (el : El)
      → (el.db.core.autocommit ≡ true) ⊎ R el.db.core.tables
      → Good (λ _ el'. R el'.db.core.tables × (el'.db.core.autocommit ≡ true)) (finish w el)
  unfolding finish commit
  committed-Good R el (inr r) =
      Good-mono _ _ (finish w el) (λ el' (same, alone). (subst R (sym same) r, alone))
        (finish-Good el)
  committed-Good R el (inl alone) = simp alone tt

  -- With no transaction open, a deletion that succeeds has done what its statements do, and it is
  -- committed; statements that lost the transaction have not succeeded.
  pub deleting-Good_or :
      (m : Exec (Unit {0})) (R : Tables → Tables → Type 0)
      → ((el : El)
          → Good
              (λ _ el'. (el'.db.core.autocommit ≡ true) ⊎ R el.db.core.tables el'.db.core.tables)
              (m el))
      → (el : El) → el.db.core.autocommit ≡ true
      → Good
          (λ _ el'. R el.db.core.tables (committed el'.db.core) × (el'.db.core.autocommit ≡ true))
          (deleting w m el)
  deleting-Good_or m R step el alone =
      let (same0, alone0) = set_journal_alone off el alone in
      settled (go_on (λ _. m >> finish w) (begin w (set_journal w off el))) (
        go_on-Good _ _ _ (begin w (set_journal w off el)) (begin-Good (set_journal w off el) alone0)
          (λ _ el1 same1. go_on-Good _ _ _ (m el1) (step el1) (λ _ el2 r.
            Good-mono _ _ (finish w el2)
              (λ el' (r3, alone3). (subst (λ z. R z el'.db.core.tables) (same1 ∙ same0) r3, alone3))
              (committed-Good (R el1.db.core.tables) el2 r))))
    where
      settled :
          (r : Outcome (Unit {0}) × El)
          → Good
              (λ _ el'. R el.db.core.tables el'.db.core.tables × (el'.db.core.autocommit ≡ true))
              r
          → Good
              (λ _ el'.
                R el.db.core.tables (committed el'.db.core) × (el'.db.core.autocommit ≡ true))
              (settle w r)
      settled (crashed, el') h = tt
      settled (failed e, el') h = tt
      settled (good a, el') h =
          let (same4, alone4) = set_journal_alone truncate el' h.1 in
          (subst (R el.db.core.tables) (sym (simp alone4 same4)) h.0, alone4)

  pub deleting-Good :
      (m : Exec (Unit {0})) (R : Tables → Tables → Type 0)
      → ((el : El) → Good (λ _ el'. R el.db.core.tables el'.db.core.tables) (m el))
      → (el : El) → el.db.core.autocommit ≡ true
      → Good
          (λ _ el'. R el.db.core.tables (committed el'.db.core) × (el'.db.core.autocommit ≡ true))
          (deleting w m el)
  deleting-Good m R step el alone =
      deleting-Good_or m R (λ el1. Good-mono _ _ (m el1) (λ el' r. inr r) (step el1)) el alone
