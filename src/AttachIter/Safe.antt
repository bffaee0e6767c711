-- ===== src/AttachIter/Safe.antt =====
-- src/eventlogger-attach-iter.c: the calls that a client can make, and the statement that they use.
use rtcom_eventlogger.Common.{◌≡◌, ◌≢◌, refl, subst, Bool}
use rtcom_eventlogger.Db.{Env, Db}
use rtcom_eventlogger.Store.{AttachmentRow, Tables}
use rtcom_eventlogger.Statement.{
  StmtPtr, null, live, freed, Run, undefined, returns, Step, at_row, at_end, refused, reset, step,
}
use rtcom_eventlogger.Row.{Casts}
use rtcom_eventlogger.AttachIter.{AttachIter, after_step, next, first, get, finalize}

abbrev pub IsSound : AttachIter → Type 0
IsSound it = it.stmt ≢ freed

-- The call is defined.
abbrev pub Returns : {A : Type 0} → Run A → Type 0
Returns undefined = ⊥
Returns (returns a) = Unit

-- It is defined, and leaves an iterator that is sound.
abbrev pub Sound : Run (Bool × AttachIter × Db Tables) → Type 0
Sound undefined = ⊥
Sound (returns (b, it, db)) = IsSound it

module _ (env : Env Tables) where
  -- What a client can do with an iterator, the other writers of the connection included.
  pub data Moves : AttachIter × Db Tables → AttachIter × Db Tables → Type 0 where
    call_first :
        {it it' : AttachIter} {db db' : Db Tables} (b : Bool)
        → first env it db ≡ returns (b, it', db')
        → Moves (it, db) (it', db')
    call_next :
        {it it' : AttachIter} {db db' : Db Tables} (b : Bool)
        → next env it db ≡ returns (b, it', db')
        → Moves (it, db) (it', db')
    other_use : {it : AttachIter} {db : Db Tables} (db' : Db Tables) → Moves (it, db) (it, db')

  pub data Reach (s : AttachIter × Db Tables) : AttachIter × Db Tables → Type 0 where
    here : Reach s s
    later : {t u : AttachIter × Db Tables} → Reach s t → Moves t u → Reach s u

  after_step-Sound : (r : Step Tables AttachmentRow × Db Tables) → Sound (after_step env r)
  after_step-Sound (at_row r s, db) = λ e. cc
  after_step-Sound (at_end, db) = λ e. cc
  after_step-Sound (refused, db) = λ e. cc

  next-Sound :
      (p : StmtPtr Tables AttachmentRow) (db : Db Tables)
      → p ≢ freed
      → Sound (next env (record { stmt = p }) db)
  unfolding next
  next-Sound null db h = λ e. cc
  next-Sound (live s) db h = after_step-Sound (step env s db)
  next-Sound freed db h = absurd (h refl)

  first-Sound :
      (p : StmtPtr Tables AttachmentRow) (db : Db Tables)
      → p ≢ freed
      → Sound (first env (record { stmt = p }) db)
  unfolding first
  first-Sound null db h = λ e. cc
  first-Sound (live s) db h = next-Sound (live (reset s)) db (λ e. cc)
  first-Sound freed db h = absurd (h refl)

  Returns-of_Sound : (r : Run (Bool × AttachIter × Db Tables)) → Sound r → Returns r
  Returns-of_Sound undefined h = h
  Returns-of_Sound (returns a) h = tt

  Moves-IsSound : {s t : AttachIter × Db Tables} → Moves s t → IsSound s.0 → IsSound t.0
  Moves-IsSound (call_first {it} {it'} {db} b e) h = subst Sound e (first-Sound it.stmt db h)
  Moves-IsSound (call_next {it} {it'} {db} b e) h = subst Sound e (next-Sound it.stmt db h)
  Moves-IsSound (other_use db') h = h

  Reach-IsSound : {s t : AttachIter × Db Tables} → IsSound s.0 → Reach s t → IsSound t.0
  Reach-IsSound h here = h
  Reach-IsSound h (later r m) = Moves-IsSound m (Reach-IsSound h r)

  get-Returns :
      (casts : Casts) (p : StmtPtr Tables AttachmentRow)
      → p ≢ freed
      → Returns (get casts (record { stmt = p }))
  unfolding get
  get-Returns casts null h = tt
  get-Returns casts (live s) h = tt
  get-Returns casts freed h = h refl

  finalize-Returns :
      (p : StmtPtr Tables AttachmentRow) → p ≢ freed → Returns (finalize (record { stmt = p }))
  unfolding finalize
  finalize-Returns null h = tt
  finalize-Returns (live s) h = tt
  finalize-Returns freed h = h refl

  -- From an iterator whose statement is not finalized, after any calls of first and next and any
  -- other use of the connection, whatever the engine refuses: first, next, get and the end of the
  -- object are all defined. None hands a finalized statement to SQLite.
  pub Reach-Returns :
      (casts : Casts) {s t : AttachIter × Db Tables}
      → IsSound s.0
      → Reach s t
      → Returns (first env t.0 t.1)
        × Returns (next env t.0 t.1)
        × Returns (get casts t.0)
        × Returns (finalize t.0)
  Reach-Returns casts {s} {t} h r =
      let k = Reach-IsSound h r in
      (
        Returns-of_Sound (first env t.0 t.1) (first-Sound t.0.stmt t.1 k),
        Returns-of_Sound (next env t.0 t.1) (next-Sound t.0.stmt t.1 k),
        get-Returns casts t.0.stmt k,
        finalize-Returns t.0.stmt k,
      )
