-- ===== src/Statement/Steps.antt =====
-- A step on a prepared SELECT (src/db.c, `rtcom_el_db_iterate`): the rows and the tables.
use rtcom_eventlogger.Common.{
  ◌≡◌, ◌≢◌, ap, refl, sym, subst, ◌⊎◌, inl, inr, ◌∙◌, Option, none, some, List, [], ◌∷◌,
}
use rtcom_eventlogger.Db.{Status, Fault, code, Error, Env, Core, Db, iterate}
use rtcom_eventlogger.Db.Iterate.{iterate-Reports, Reports, iterate-code}
use rtcom_eventlogger.Db.Exec.{Failed, iterate-Steps}
use rtcom_eventlogger.Db.Calm.{Calm, iterate_calm}
use rtcom_eventlogger.Statement.{
  Stmt, Step, at_row, at_end, refused, reached, to_deliver, advance, step,
}

code-ne-row : (f : Fault) → code f ≢ Status.row
code-ne-row Fault.busy e = cc
code-ne-row f e = cc

code-ne-done : (f : Fault) → code f ≢ Status.done
code-ne-done Fault.busy e = cc
code-ne-done f e = cc

module _ {T : Type 0} (env : Env T) where
  -- The two facts about a step that does not report what was intended.
  refusal :
      (intended st : Status) (e : Option Error) (start : Core T) (db : Db T) (f : Fault)
      → Reports intended (st, e)
      → code f ≢ intended
      → st ≡ code f
      → ((e ≡ none) × (db.core ≡ start)) ⊎ ((x : Error) × (e ≡ some x) × Failed env start db.core)
      → Failed env start db.core
  refusal intended st e start db f k ne c (inl (clean, same)) =
      absurd (ne (sym c ∙ k.clean_iff.0 clean))
  refusal intended st e start db f k ne c (inr (x, set, failed)) = failed

  intact :
      (intended st : Status) (e : Option Error) (start : Core T) (db : Db T)
      → Reports intended (st, e)
      → st ≡ intended
      → ((e ≡ none) × (db.core ≡ start)) ⊎ ((x : Error) × (e ≡ some x) × Failed env start db.core)
      → db.core ≡ start
  intact intended st e start db k c (inl (clean, same)) = same
  intact intended st e start db k c (inr (x, set, failed)) = cc (k.clean_iff.1 c, set)

module _ {T R : Type 0} (env : Env T) where
  -- A step that began with these rows to come ends at the first of them, at the end if there is none,
  -- or by a refusal; only a refusal can change the connection, by a rollback of SQLite.
  abbrev pub Stepped : Stmt T R → List R → Core T → Step T R × Db T → Type 0
  Stepped s rows start (at_row r s', db) =
      (rest : List R) × (rows ≡ r ∷ rest)
      × (s' ≡ record s { pending = some rest; current = some r })
      × (db.core ≡ start)
  Stepped s rows start (at_end, db) = (rows ≡ []) × (db.core ≡ start)
  Stepped s rows start (refused, db) = Failed env start db.core

  code-reached : (f : Fault) (o : Option (R × Stmt T R)) → reached (code f) o ≡ refused
  code-reached Fault.busy o = refl
  code-reached f o = refl

  advance-Stepped :
      (s : Stmt T R) (rows : List R) (db : Db T) → Stepped s rows db.core (advance env s rows db)
  advance-Stepped s [] db =
      let r = iterate env Status.done db in
      let k = iterate-Reports env Status.done db (inr refl) in
      elim (iterate-code env Status.done db) [
        | inl c ↦
            subst (λ st. Stepped s [] db.core (reached st none, r.2)) (sym c)
              (
                refl,
                intact env Status.done r.0 r.1 db.core r.2 k c (iterate-Steps env Status.done db),
              )
        | inr (f, c) ↦
            subst (λ x. Stepped s [] db.core (x, r.2))
              (sym (ap (λ st. reached st none) c ∙ code-reached f none))
              (refusal env Status.done r.0 r.1 db.core r.2 f k (code-ne-done f) c
                (iterate-Steps env Status.done db))
      ]
  advance-Stepped s (r ∷ rest) db =
      let o : Option (R × Stmt T R) =
        some (r, record s { pending = some rest; current = some r }) in
      let x = iterate env Status.row db in
      let k = iterate-Reports env Status.row db (inl refl) in
      elim (iterate-code env Status.row db) [
        | inl c ↦
            subst (λ st. Stepped s (r ∷ rest) db.core (reached st o, x.2)) (sym c)
              (
                rest,
                refl,
                refl,
                intact env Status.row x.0 x.1 db.core x.2 k c (iterate-Steps env Status.row db),
              )
        | inr (f, c) ↦
            subst (λ z. Stepped s (r ∷ rest) db.core (z, x.2))
              (sym (ap (λ st. reached st o) c ∙ code-reached f o))
              (refusal env Status.row x.0 x.1 db.core x.2 f k (code-ne-row f) c
                (iterate-Steps env Status.row db))
      ]

  pub step-Stepped :
      (s : Stmt T R) (db : Db T) → Stepped s (to_deliver s db.core.tables) db.core (step env s db)
  unfolding step
  step-Stepped s db = advance-Stepped s (to_deliver s db.core.tables) db

  -- On an engine that refuses nothing no step is refused.
  pub step-Calm : Calm env → (s : Stmt T R) (db : Db T) → (step env s db).0 ≢ refused
  unfolding step
  step-Calm calm s db = never (to_deliver s db.core.tables)
    where
      done_reported : (iterate env Status.done db).0 ≡ Status.done
      done_reported =
          (iterate-Reports env Status.done db (inr refl)).clean_iff.0
            (iterate_calm env calm Status.done db refl)

      row_reported : (iterate env Status.row db).0 ≡ Status.row
      row_reported =
          (iterate-Reports env Status.row db (inl refl)).clean_iff.0
            (iterate_calm env calm Status.row db refl)

      never : (rows : List R) → (advance env s rows db).0 ≢ refused
      never [] e = cc (ap (λ st. reached {T = T} {R = R} st none) done_reported)
      never (r ∷ rest) e = cc (
          ap (λ st. reached st (some (r, record s { pending = some rest; current = some r })))
            row_reported)
