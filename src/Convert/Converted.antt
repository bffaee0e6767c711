-- ===== src/Convert/Converted.antt =====
-- `_internal_convert_v0` of src/db.c, where it returns TRUE: the database that it has committed.
use rtcom_eventlogger.Common.{
  ◌≡◌, refl, sym, ◌∙◌, subst, inl, inr, Bool, true, false, Option, none, some, [], Bool-cases,
}
use rtcom_eventlogger.Db.{Error, Env, Db, commit_stmt, commit}
use rtcom_eventlogger.Db.Exec.{exec_plain_cases}
use rtcom_eventlogger.Db.Transaction.{committed}
use rtcom_eventlogger.Convert.{OldFile, Converter}
use rtcom_eventlogger.Convert.Changes.{set_version}
use rtcom_eventlogger.Convert.Run.{committed_or_err, convert_end, internal_convert_v0}
use rtcom_eventlogger.Convert.Steps.{Alive, Ends, then_do-Ends, must-Ends}
use rtcom_eventlogger.Convert.Kept.{SameEvents, convert_rows-Kept}

-- What the conversion makes of a database: one of the new version, with the same events.
abbrev pub Converted : OldFile → OldFile → Type 0
Converted old new = (new.user_version ≡ 1) × SameEvents old new

commit-true :
    {T : Type 0} (env : Env T) (db : Db T)
    → (commit env db).0 ≡ true
    → (db.core.autocommit ≡ false) × ((commit env db).2.core ≡ record db.core { autocommit = true })
unfolding commit
commit-true env db h = elim (Bool-cases db.core.autocommit) [
  | inl alone ↦ absurd (differ (sym (simp alone at h)))
  | inr opn ↦
      simp opn
        (elim (exec_plain_cases env commit_stmt db [] (record db.core { autocommit = true }) refl) [
          | inl (t, e) ↦ (refl, e)
          | inr (f, l) ↦ absurd (differ (sym (simp opn at h) ∙ f))
        ])
]
  where
    differ : true ≡ false → ⊥
    differ p = cc

module _ (o : Converter) where
  convert_end-Converted :
      (old : OldFile) (r : Option (Unit {0}) × Db OldFile)
      → Ends (Converted old) r
      → (convert_end o r).0 ≡ true
      → Converted old (committed (convert_end o r).1.core)
  convert_end-Converted old (none, db) h t = cc
  convert_end-Converted old (some u, db) h t = of_commit (commit o.env db) (commit-true o.env db) t
    where
      of_commit :
          (r : Bool × Option Error × Db OldFile)
          → (r.0 ≡ true
              → (db.core.autocommit ≡ false) × (r.2.core ≡ record db.core { autocommit = true }))
          → (committed_or_err o r).0 ≡ true
          → Converted old (committed (committed_or_err o r).1.core)
      of_commit (true, e, db') k t =
          let (opn, core) = k refl in
          subst (λ c. Converted old (committed c)) (sym core) (alive opn h)
        where
          alive :
              db.core.autocommit ≡ false → Alive (Converted old) db → Converted old db.core.tables
          alive opn (inl alone) = cc
          alive opn (inr p) = p
      of_commit (false, e, db') k t = cc

  pub internal-Converted :
      (db : Db OldFile)
      → (internal_convert_v0 o db).0 ≡ true
      → Converted db.core.tables (committed (internal_convert_v0 o db).1.core)
  unfolding internal_convert_v0
  internal-Converted db =
      let old = db.core.tables in
      convert_end-Converted old _ (
        then_do-Ends (SameEvents old) (Converted old) _ _ (convert_rows-Kept o old db (inr refl))
          (λ _ db1 h1.
            must-Ends o (SameEvents old) (Converted old) set_version db1 (versioned old) h1))
    where
      versioned :
          (old t t' : OldFile) → set_version t ≡ some t' → SameEvents old t → Converted old t'
      versioned old t t' ran h = subst (Converted old) (injective ran) (refl, h)
        where
          injective : {a b : OldFile} → ◌≡◌ {A = Option OldFile} (some a) (some b) → a ≡ b
          injective p = cc
