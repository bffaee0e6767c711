-- ===== src/Convert/Steps.antt =====
-- The conversion of a database (src/db.c), statement by statement: what each keeps of the events,
-- whatever SQLite does.
use rtcom_eventlogger.Common.{
  ℕ, zero, suc, ◌≡◌, refl, sym, ◌∙◌, ap, subst, ◌⊎◌, inl, inr, Bool, true, false, Option, none,
  some, List,
}
use rtcom_eventlogger.Db.{Error, Core, Db, Effect, on_tables, exec, exec_plain}
use rtcom_eventlogger.Db.Exec.{Failed, Contract, exec-Contract}
use rtcom_eventlogger.Db.Transaction.{lift_core_frame}
use rtcom_eventlogger.Convert.{
  OldFile, Change, Converter, Conv, then_do, no_rows, or_err, single, asked, must, may, ask,
}

-- The transaction is over, after a rollback by SQLite, or the database has `P`.
abbrev pub Alive : (OldFile → Type 0) → Db OldFile → Type 0
Alive P db = (db.core.autocommit ≡ true) ⊎ P db.core.tables

-- The action ended by `goto err`, or with `P`.
abbrev pub Ends : {A : Type 0} → (OldFile → Type 0) → Option A × Db OldFile → Type 0
Ends P (none, db) = Unit
Ends P (some a, db) = Alive P db

pub then_do-Ends :
    {A B : Type 0} (P Q : OldFile → Type 0) (k : A → Conv B) (r : Option A × Db OldFile)
    → Ends P r
    → ((a : A) (db : Db OldFile) → Alive P db → Ends Q (k a db))
    → Ends Q (then_do k r)
then_do-Ends P Q k (none, db) h next = tt
then_do-Ends P Q k (some a, db) h next = next a db h

abbrev pub Carries : Change → (OldFile → Type 0) → (OldFile → Type 0) → Type 0
Carries f P Q = (t t' : OldFile) → f t ≡ some t' → P t → Q t'

abbrev effect_of : Change → Effect OldFile (Unit {0})
effect_of f = on_tables (λ t. no_rows (f t))

ran-change :
    (x : Option OldFile) (rows : List (Unit {0})) (t : OldFile)
    → no_rows x ≡ some (rows, t)
    → x ≡ some t
ran-change none rows t h = cc
ran-change (some x) rows t h = cc

ran-Alive :
    (P Q : OldFile → Type 0) (f : Change) (c c' : Core OldFile) (rows : List (Unit {0}))
    → Carries f P Q
    → effect_of f c ≡ some (rows, c')
    → (c.autocommit ≡ true) ⊎ P c.tables
    → (c'.autocommit ≡ true) ⊎ Q c'.tables
ran-Alive P Q f c c' rows keeps runs h =
    let (ran, frame) = lift_core_frame c (no_rows (f c.tables)) rows c' runs in
    of_case h (ran-change (f c.tables) rows c'.tables ran) frame
  where
    of_case :
        (c.autocommit ≡ true) ⊎ P c.tables
        → f c.tables ≡ some c'.tables
        → c' ≡ record c { tables = c'.tables }
        → (c'.autocommit ≡ true) ⊎ Q c'.tables
    of_case (inl alone) ran frame = inl (ap (λ (x : Core OldFile). x.autocommit) frame ∙ alone)
    of_case (inr p) ran frame = inr (keeps c.tables c'.tables ran p)

module _ (o : Converter) where
  Failed-Alive :
      (P : OldFile → Type 0) (db db' : Db OldFile)
      → Alive P db
      → Failed o.env db.core db'.core
      → Alive P db'
  Failed-Alive P db db' h (inl same) =
      subst (λ (c : Core OldFile). (c.autocommit ≡ true) ⊎ P c.tables) (sym same) h
  Failed-Alive P db db' h (inr (opn, rolled)) = inl (ap (λ (c : Core OldFile). c.autocommit) rolled)

  -- A statement whose failure ends the conversion.
  pub must-Ends :
      (P Q : OldFile → Type 0) (f : Change) (db : Db OldFile)
      → Carries f P Q
      → Alive P db
      → Ends Q (must o f db)
  unfolding must exec_plain
  must-Ends P Q f db keeps h =
      of_exec (exec o.env (λ _ (u : Unit {0}). u) (effect_of f) tt db)
        (exec-Contract o.env (λ _ u. u) (effect_of f) tt db)
    where
      of_exec :
          (r : Bool × Option Error × Unit {0} × Db OldFile)
          → Contract o.env (λ _ u. u) (effect_of f) tt db.core r
          → Ends Q (or_err (r.0, r.1, r.3))
      of_exec (true, e, u, db') k =
          let (unset, rows, end, runs, fed, core) = k.on_true refl in
          subst (λ (c : Core OldFile). (c.autocommit ≡ true) ⊎ Q c.tables) (sym core)
            (ran-Alive P Q f db.core end rows keeps runs h)
      of_exec (false, e, u, db') k = tt

  -- A statement whose failure is not looked at.
  pub may-Ends :
      (P : OldFile → Type 0) (f : Change) (db : Db OldFile)
      → Carries f P P
      → Alive P db
      → Ends P (may o f db)
  unfolding may exec_plain
  may-Ends P f db keeps h =
      of_exec (exec o.env (λ _ (u : Unit {0}). u) (effect_of f) tt db)
        (exec-Contract o.env (λ _ u. u) (effect_of f) tt db)
    where
      of_exec :
          (r : Bool × Option Error × Unit {0} × Db OldFile)
          → Contract o.env (λ _ u. u) (effect_of f) tt db.core r
          → Alive P r.3
      of_exec (true, e, u, db') k =
          let (unset, rows, end, runs, fed, core) = k.on_true refl in
          subst (λ (c : Core OldFile). (c.autocommit ≡ true) ⊎ P c.tables) (sym core)
            (ran-Alive P P f db.core end rows keeps runs h)
      of_exec (false, e, u, db') k =
          let (e', set, failed) = k.on_false refl in Failed-Alive P db db' h failed

  -- A SELECT of one number.
  pub ask-Ends :
      (P : OldFile → Type 0) (f : OldFile → List ℕ) (db : Db OldFile)
      → Alive P db
      → Ends P (ask o f db)
  unfolding ask
  ask-Ends P f db h =
      of_exec (exec o.env single (on_tables answer) 0 db)
        (exec-Contract o.env single (on_tables answer) 0 db)
    where
      answer : OldFile → Option (List ℕ × OldFile)
      answer t = some (f t, t)

      core_of :
          {a b : List ℕ} {x y : Core OldFile}
          → ◌≡◌ {A = Option (List ℕ × Core OldFile)} (some (a, x)) (some (b, y))
          → x ≡ y
      core_of p = cc

      of_exec :
          (r : Bool × Option Error × ℕ × Db OldFile)
          → Contract o.env single (on_tables answer) 0 db.core r
          → Ends P (asked o r)
      of_exec (true, e, suc n, db') k =
          let (unset, rows, end, runs, fed, core) = k.on_true refl in
          subst (λ (c : Core OldFile). (c.autocommit ≡ true) ⊎ P c.tables) (core_of runs ∙ sym core)
            h
      of_exec (true, e, zero, db') k = tt
      of_exec (false, e, n, db') k = tt
