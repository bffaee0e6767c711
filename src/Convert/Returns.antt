-- ===== src/Convert/Returns.antt =====
-- The conversion of a database (src/db.c) on an engine that refuses nothing: its calls of itself.
use rtcom_eventlogger.Common.{
  ℕ, suc, ◌≡◌, refl, ap, Bool, true, false, Option, none, some, [], ◌∷◌, if◌then◌else◌,
}
use rtcom_eventlogger.Db.{Error, off, Core, Db, journal_stmt, exec_plain, transaction}
use rtcom_eventlogger.Db.Calm.{Calm, exec_plain_calm, transaction_calm}
use rtcom_eventlogger.Convert.{OldFile, Dir, Converter, fresh, is_ok}
use rtcom_eventlogger.Convert.Run.{begun, with_temp, with_old, convert_from_db0}

-- There is a result.
abbrev pub IsSome : {A : Type 0} → Option A → Type 0
IsSome none = ⊥
IsSome (some a) = Unit

module _ (o : Converter) (calm : Calm o.env) where
  with_temp-IsSome :
      (again : Dir → ℕ → Option (Bool × Dir × ℕ)) (old : OldFile) (d : Dir) (n : ℕ)
      → IsSome (with_temp o again old d n)
  with_temp-IsSome again old d n =
      let start = fresh d.temp (suc n) in
      let db = (exec_plain o.env (journal_stmt off) start).2 in
      let (ok, core) =
        exec_plain_calm o.env calm (journal_stmt off) start (tt ∷ [])
          (record start.core { journal = off }) refl in
      of_begin (transaction o.env db)
        (transaction_calm o.env calm db (ap (λ (c : Core OldFile). c.autocommit) core)).0
    where
      of_begin :
          (r : Bool × Option Error × Db OldFile) → r.0 ≡ true → IsSome (begun o again old d r)
      of_begin (true, e, db) h = tt
      of_begin (false, e, db) h = cc

  with_old-IsSome :
      (again : Dir → ℕ → Option (Bool × Dir × ℕ)) (old : OldFile) (d : Dir) (n : ℕ)
      → IsSome (with_old o again old d n)
  with_old-IsSome again old d n = of_old (is_ok (o.opens_old n)) (is_ok (o.opens_temp (suc n)))
    where
      of_old :
          (b c : Bool)
          → IsSome (
              if b
              then (if c then with_temp o again old d (suc n) else some (false, d, suc (suc n)))
              else some (true, d, suc n))
      of_old true true = with_temp-IsSome again old d (suc n)
      of_old true false = tt
      of_old false c = tt

  -- One call is enough.
  pub convert_from_db0-IsSome :
      (fuel : ℕ) (d : Dir) (n : ℕ) → IsSome (convert_from_db0 o (suc fuel) d n)
  unfolding convert_from_db0
  convert_from_db0-IsSome fuel d n = of_target d.target d.old
    where
      of_target :
          (t k : Option OldFile)
          → IsSome (elim t as (λ _. Option (Bool × Dir × ℕ)) [
            | some f ↦ some (true, d, n)
            | none ↦ elim k as (λ _. Option (Bool × Dir × ℕ)) [
              | none ↦ some (true, d, n)
              | some old ↦ with_old o (convert_from_db0 o fuel) old d n
            ]
          ])
      of_target (some f) k = tt
      of_target none none = tt
      of_target none (some old) = with_old-IsSome (convert_from_db0 o fuel) old d n
