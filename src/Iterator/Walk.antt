-- ===== src/Iterator/Walk.antt =====
-- A client's loop over an iterator of src/eventlogger-iter.c.
use rtcom_eventlogger.Common.{
  ℕ, zero, suc, ◌<◌, ◌≡◌, refl, sym, ap, subst, ◌⊎◌, inl, inr, Bool, true, false, Option, some,
  List, [], ◌∷◌, ◌++◌, map, length, arith,
}
use rtcom_eventlogger.Db.{Core, Db}
use rtcom_eventlogger.Db.Exec.{Failed}
use rtcom_eventlogger.Db.Calm.{Calm}
use rtcom_eventlogger.Store.{Tables}
use rtcom_eventlogger.Row.{Columns}
use rtcom_eventlogger.Statement.{
  Stmt, null, live, freed, Run, undefined, returns, Step, at_row, at_end, refused, to_deliver, step,
}
use rtcom_eventlogger.Statement.Steps.{Stepped, step-Stepped, step-Calm}
use rtcom_eventlogger.Iterator.{Joined, cells, Iter, Context, after_step, next}
use rtcom_eventlogger.Iterator.Current.{shown, at_row_of, IsMade, update_representation_lem}

module _ (w : Context) where
  abbrev Visit : Type 0
  Visit = Run (Bool × List (Option Columns) × Iter × Db Tables)

  abbrev with_row : Option Columns → Visit → Visit
  with_row c undefined = undefined
  with_row c (returns (b, seen, it, db)) = returns (b, c ∷ seen, it, db)

  abbrev continued : (Iter → Db Tables → Visit) → Run (Bool × Iter × Db Tables) → Visit
  continued loop undefined = undefined
  continued loop (returns (false, it, db)) = returns (true, [], it, db)
  continued loop (returns (true, it, db)) = with_row it.columns (loop it db)

  -- `while (rtcom_el_iter_next (it)) …`, for `n` rounds at most: whether the loop was over by then,
  -- and the columns at each row.
  pub visit : ℕ → Iter → Db Tables → Visit
  visit zero it db = returns (false, [], it, db)
  visit (suc n) it db = continued (visit n) (next w it db)

  abbrev pub all_shown : List Joined → List (Option Columns)
  all_shown rows = map (λ r. some (shown w r)) rows

  -- The loop ended. Either it has seen all rows in order, and the statement is finalized and gone; or
  -- the engine refused, it has seen the first of them, and the pointer to the finalized statement
  -- stays. Only a rollback of SQLite changed the connection.
  abbrev pub Visited : Bool → Core Tables → List Joined → Visit → Type 0
  Visited b start rows undefined = ⊥
  Visited b start rows (returns (ended, seen, it, db)) =
      (ended ≡ true)
      × (it.atomic ≡ b)
      × (((it.stmt ≡ null) × (seen ≡ all_shown rows) × (db.core ≡ start))
          ⊎ ((it.stmt ≡ freed)
              × (front : List Joined) × (left : List Joined) × (rows ≡ front ++ left)
              × (seen ≡ all_shown front)
              × Failed w.env start db.core
              × (¬ Calm w.env)))

  one_more :
      (atomic : Bool) (start : Core Tables) (r : Joined) (rest : List Joined) (v : Visit)
      → Visited atomic start rest v
      → Visited atomic start (r ∷ rest) (with_row (some (shown w r)) v)
  one_more atomic start r rest undefined h = h
  one_more atomic start r rest (returns (b, seen, it, db)) (ended, mode, inl (gone, all, same)) =
      (ended, mode, inl (gone, ap (λ z. some (shown w r) ∷ z) all, same))
  one_more atomic start r rest (returns (b, seen, it, db))
        (ended, mode, inr (stays, front, left, split, all, f, busy)) =
      (
        ended,
        mode,
        inr (
          stays,
          r ∷ front,
          left,
          ap (λ z. r ∷ z) split,
          ap (λ z. some (shown w r) ∷ z) all,
          f,
          busy,
        ),
      )

  at_step :
      (atomic : Bool) (n : ℕ) (it : Iter) (s : Stmt Tables Joined) (rows : List Joined)
      (start : Core Tables) (r : Step Tables Joined × Db Tables)
      → length rows < suc n
      → IsMade w it.columns
      → it.atomic ≡ atomic
      → ((rest : List Joined) (it' : Iter) (s' : Stmt Tables Joined) (db' : Db Tables)
          → length rest < n
          → it'.stmt ≡ live s'
          → to_deliver s' db'.core.tables ≡ rest
          → IsMade w it'.columns
          → it'.atomic ≡ atomic
          → Visited atomic db'.core rest (visit n it' db'))
      → (r.0 ≡ refused → ¬ Calm w.env)
      → Stepped w.env s rows start r
      → Visited atomic start rows (continued (visit n) (after_step w it r))
  at_step atomic n it s rows start (at_end, db) bound made mode loop busy (none_left, same) =
      (refl, mode, inl (refl, sym (ap all_shown none_left), same))
  at_step atomic n it s rows start (refused, db) bound made mode loop busy failed =
      (refl, mode, inr (refl, [], rows, refl, refl, failed, busy refl))
  at_step atomic n it s rows start (at_row r s', db) bound made mode loop busy
        (rest, split, moved_on, same) =
      let it' = at_row_of w r (record it { stmt = live s' }) in
      let pending : to_deliver s' db.core.tables ≡ rest =
        ap (λ x. to_deliver x db.core.tables) moved_on in
      let ih =
        loop rest it' s' db (omega (arith, ap length split, bound)) refl pending
          (inr (cells r, refl)) mode in
      rw (update_representation_lem w r (record it { stmt = live s' }) made) (
        subst (λ z. Visited atomic start z (with_row (some (shown w r)) (visit n it' db)))
          (sym split)
          (one_more atomic start r rest (visit n it' db)
            (subst (λ c. Visited atomic c rest (visit n it' db)) same ih)))

  pub next_live :
      (it : Iter) (s : Stmt Tables Joined) (db : Db Tables)
      → it.stmt ≡ live s
      → next w it db ≡ after_step w it (step w.env s db)
  unfolding next
  next_live it s db e = rw (e, next) refl

  -- A client that calls next until it returns FALSE is done after one call more than there are rows
  -- to come. It has seen all of them in order, each with the columns of its own row, or else the
  -- engine refused a step, which an engine that refuses nothing does not: then it has seen the first
  -- of them, and the iterator points to a finalized statement.
  pub visit-Visited :
      (atomic : Bool) (n : ℕ) (rows : List Joined) (it : Iter) (s : Stmt Tables Joined)
      (db : Db Tables)
      → length rows < n
      → it.stmt ≡ live s
      → to_deliver s db.core.tables ≡ rows
      → IsMade w it.columns
      → it.atomic ≡ atomic
      → Visited atomic db.core rows (visit n it db)
  unfolding visit
  visit-Visited atomic zero rows it s db bound at_stmt to_come made mode = absurd (omega arith)
  visit-Visited atomic (suc n) rows it s db bound at_stmt to_come made mode =
      rw (next_live it s db at_stmt) (
        at_step atomic n it s rows db.core (step w.env s db) bound made mode
          (λ rest it' s' db' b a p m k. visit-Visited atomic n rest it' s' db' b a p m k)
          (λ r calm. step-Calm w.env calm s db r)
          (subst (λ z. Stepped w.env s z db.core (step w.env s db)) to_come
            (step-Stepped w.env s db)))
