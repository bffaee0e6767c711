-- ===== src/Convert/Temp.antt =====
-- The temporary file of the conversion (src/db.c): what it holds before BEGIN EXCLUSIVE, and a
-- conversion of a file that has no tables.
use rtcom_eventlogger.Common.{
  ℕ, suc, ◌≡◌, refl, sym, ◌∙◌, ap, ◌⊎◌, inl, inr, Bool, true, false, Option, none, some, List, [],
  ◌∷◌, same, Bool-cases, if◌then◌else◌,
}
use rtcom_eventlogger.Db.{
  Error, off, Core, Db, begin_stmt, journal_stmt, on_tables, exec, exec_plain, transaction,
}
use rtcom_eventlogger.Db.Exec.{Failed, Contract, exec-Contract, exec_plain_cases}
use rtcom_eventlogger.Db.Transaction.{committed, lift_core_frame}
use rtcom_eventlogger.Convert.{
  OldFile, Change, Converter, Conv, Dir, then_do, no_rows, or_err, must, content, fresh,
}
use rtcom_eventlogger.Convert.Changes.{add_outgoing}
use rtcom_eventlogger.Convert.Run.{convert_end, convert_rows, internal_convert_v0}

module _ (o : Converter) where
  must-refused : (f : Change) (db : Db OldFile) → f db.core.tables ≡ none → (must o f db).0 ≡ none
  unfolding must exec_plain
  must-refused f db failing =
      of_exec (exec o.env (λ _ (u : Unit {0}). u) (on_tables (λ t. no_rows (f t))) tt db)
        (exec-Contract o.env (λ _ u. u) (on_tables (λ t. no_rows (f t))) tt db)
    where
      refused :
          (x : Option OldFile) (rows : List (Unit {0})) (t : OldFile)
          → x ≡ none
          → no_rows x ≡ some (rows, t)
          → ⊥
      refused none rows t e p = cc
      refused (some x) rows t e p = cc

      of_exec :
          (r : Bool × Option Error × Unit {0} × Db OldFile)
          → Contract o.env (λ _ u. u) (on_tables (λ t. no_rows (f t))) tt db.core r
          → (or_err (r.0, r.1, r.3)).0 ≡ none
      of_exec (true, e, u, db') k =
          let (unset, rows, end, runs, fed, core) = k.on_true refl in
          let (did, frame) = lift_core_frame db.core (no_rows (f db.core.tables)) rows end runs in
          absurd (refused (f db.core.tables) rows end.tables failing did)
      of_exec (false, e, u, db') k = refl

  -- What is converted has tables: ALTER TABLE is the first statement.
  pub internal-has_tables :
      (db : Db OldFile) → (internal_convert_v0 o db).0 ≡ true → db.core.tables.has_tables ≡ true
  unfolding internal_convert_v0 convert_rows
  internal-has_tables db t = elim (Bool-cases db.core.tables.has_tables) [
    | inl there ↦ there
    | inr missing ↦
        absurd (
          of_first _ _ (must o add_outgoing db) (must-refused add_outgoing db (simp missing refl))
            t)
  ]
    where
      of_first :
          (k l : Unit {0} → Conv (Unit {0})) (r : Option (Unit {0}) × Db OldFile)
          → r.0 ≡ none
          → (convert_end o (then_do l (then_do k r))).0 ≡ true
          → ⊥
      of_first k l (none, db') e t = cc
      of_first k l (some u, db') e t = cc

  -- BEGIN EXCLUSIVE on the temporary file.
  abbrev pub begin_at : Dir → ℕ → Bool × Option Error × Db OldFile
  begin_at d n = transaction o.env (exec_plain o.env (journal_stmt off) (fresh d.temp (suc n))).2

  differ : true ≡ false → ⊥
  differ p = cc

  alone-Failed : (c c' : Core OldFile) → c.autocommit ≡ true → Failed o.env c c' → c' ≡ c
  alone-Failed c c' alone (inl same) = same
  alone-Failed c c' alone (inr (opn, rolled)) = absurd (differ (sym alone ∙ opn))

  -- What the temporary connection is before BEGIN.
  before_begin :
      (d : Dir) (n : ℕ)
      → let db = (exec_plain o.env (journal_stmt off) (fresh d.temp (suc n))).2 in
        (db.core.autocommit ≡ true) × (db.core.tables ≡ content d.temp)
  before_begin d n = of_cases (exec_plain o.env (journal_stmt off) (fresh d.temp (suc n))) (
      exec_plain_cases o.env (journal_stmt off) (fresh d.temp (suc n)) (tt ∷ [])
        (record (fresh d.temp (suc n)).core { journal = off }) refl)
    where
      start : Db OldFile
      start = fresh d.temp (suc n)

      parts :
          (c c' : Core OldFile)
          → c ≡ c'
          → c'.autocommit ≡ true
          → c'.tables ≡ content d.temp
          → (c.autocommit ≡ true) × (c.tables ≡ content d.temp)
      parts c c' e alone same = (
        ap (λ (x : Core OldFile). x.autocommit) e ∙ alone,
        ap (λ (x : Core OldFile). x.tables) e ∙ same,
      )

      of_cases :
          (r : Bool × Option Error × Db OldFile)
          → ((r.0 ≡ true) × (r.2.core ≡ record start.core { journal = off }))
            ⊎ ((r.0 ≡ false) × Failed o.env start.core r.2.core)
          → (r.2.core.autocommit ≡ true) × (r.2.core.tables ≡ content d.temp)
      of_cases r (inl (t, e)) = parts r.2.core _ e refl refl
      of_cases r (inr (f, l)) = parts r.2.core _ (alone-Failed start.core r.2.core refl l) refl refl

  -- BEGIN on a connection with no transaction, by its result.
  begin-cases :
      (db : Db OldFile)
      → db.core.autocommit ≡ true
      → let r = transaction o.env db in
        ((r.0 ≡ true) × (r.2.core.tables ≡ db.core.tables)) ⊎ ((r.0 ≡ false) × (r.2.core ≡ db.core))
  unfolding transaction
  begin-cases db alone =
      simp alone
        (elim (exec_plain_cases o.env begin_stmt db []
          (record db.core { saved = db.core.tables; autocommit = false }) refl) [
            | inl (t, e) ↦ inl (t, ap (λ (c : Core OldFile). c.tables) e)
            | inr (f, l) ↦ inr (f, alone-Failed db.core _ alone l)
          ])

  pub begin_at-begun :
      (d : Dir) (n : ℕ) → (begin_at d n).0 ≡ true → (begin_at d n).2.core.tables ≡ content d.temp
  begin_at-begun d n began =
      let (alone, same) = before_begin d n in
      elim (begin-cases (exec_plain o.env (journal_stmt off) (fresh d.temp (suc n))).2 alone) [
        | inl (t, e) ↦ e ∙ same
        | inr (f, e) ↦ absurd (differ (sym began ∙ f))
      ]

  pub begin_at-content :
      (d : Dir) (n : ℕ)
      → (begin_at d n).0 ≡ false
      → committed (begin_at d n).2.core ≡ content d.temp
  begin_at-content d n failed =
      let (alone, same) = before_begin d n in
      let db = (exec_plain o.env (journal_stmt off) (fresh d.temp (suc n))).2 in
      elim (begin-cases db alone) [
        | inl (t, e) ↦ absurd (differ (sym t ∙ failed))
        | inr (f, e) ↦
            ap committed e ∙ ap (λ b. if b then db.core.tables else db.core.saved) alone ∙ same
      ]
