-- ===== src/Iterator/Safe.antt =====
-- src/eventlogger-iter.c: the calls that a client can make, and the statement that they use.
use rtcom_eventlogger.Common.{◌≡◌, ◌≢◌, refl, subst, sym, ◌∙◌, inr, Bool, true, false}
use rtcom_eventlogger.Db.{Db}
use rtcom_eventlogger.Db.Calm.{Calm}
use rtcom_eventlogger.Store.{Tables}
use rtcom_eventlogger.Statement.{
  StmtPtr, null, live, freed, Run, undefined, returns, Step, at_row, at_end, refused, reset, step,
}
use rtcom_eventlogger.Statement.Steps.{step-Calm}
use rtcom_eventlogger.AttachIter.Safe.{Returns}
use rtcom_eventlogger.Iterator.{Joined, cells, Iter, Context, after_step, next, first, finalize}
use rtcom_eventlogger.Iterator.Current.{IsMade, update_representation_lem}

abbrev is_refused : Step Tables Joined → Bool
is_refused (at_row r s) = false
is_refused at_end = false
is_refused refused = true

module _ (w : Context) where
  -- The engine refuses the step of `rtcom_el_iter_next`, or that of `rtcom_el_iter_first`.
  abbrev next_refused : StmtPtr Tables Joined → Db Tables → Bool
  next_refused null db = false
  next_refused (live s) db = is_refused (step w.env s db).0
  next_refused freed db = false

  abbrev first_refused : StmtPtr Tables Joined → Db Tables → Bool
  first_refused null db = false
  first_refused (live s) db = is_refused (step w.env (reset s) db).0
  first_refused freed db = false

  -- What a client can do with an iterator, the other uses of the connection included, and whether the
  -- engine refused a step in it.
  pub data Moves : Iter × Db Tables → Bool → Iter × Db Tables → Type 0 where
    call_first :
        {it it' : Iter} {db db' : Db Tables} (b : Bool)
        → first w it db ≡ returns (b, it', db')
        → Moves (it, db) (first_refused it.stmt db) (it', db')
    call_next :
        {it it' : Iter} {db db' : Db Tables} (b : Bool)
        → next w it db ≡ returns (b, it', db')
        → Moves (it, db) (next_refused it.stmt db) (it', db')
    other_use : {it : Iter} {db : Db Tables} (db' : Db Tables) → Moves (it, db) false (it, db')

  -- The calls of a client, and whether the engine refused a step in one of them.
  pub data Reach (s : Iter × Db Tables) : Bool → Iter × Db Tables → Type 0 where
    here : Reach s false s
    later : {t u : Iter × Db Tables} {b : Bool} → Reach s false t → Moves t b u → Reach s b u
    after : {t u : Iter × Db Tables} {b : Bool} → Reach s true t → Moves t b u → Reach s true u

  abbrev pub IsSound : Bool → Iter → Type 0
  IsSound false it = (it.stmt ≢ freed) × IsMade w it.columns
  IsSound true it = it.stmt ≡ freed

  abbrev Sound : Bool → Run (Bool × Iter × Db Tables) → Type 0
  Sound b undefined = ⊥
  Sound b (returns (x, it, db)) = IsSound b it

  after_step-Sound :
      (it : Iter)
      → IsMade w it.columns
      → (r : Step Tables Joined × Db Tables) → Sound (is_refused r.0) (after_step w it r)
  after_step-Sound it made (at_row r s, db) =
      rw (update_representation_lem w r (record it { stmt = live s }) made)
        (λ e. cc, inr (cells r, refl))
  after_step-Sound it made (at_end, db) = (λ e. cc, made)
  after_step-Sound it made (refused, db) = refl

  next-Sound :
      (p : StmtPtr Tables Joined) (it : Iter) (db : Db Tables)
      → p ≢ freed
      → IsMade w it.columns
      → Sound (next_refused p db) (next w (record it { stmt = p }) db)
  unfolding next
  next-Sound null it db h made = (h, made)
  next-Sound (live s) it db h made =
      after_step-Sound (record it { stmt = live s }) made (step w.env s db)
  next-Sound freed it db h made = absurd (h refl)

  first-Sound :
      (p : StmtPtr Tables Joined) (it : Iter) (db : Db Tables)
      → p ≢ freed
      → IsMade w it.columns
      → Sound (first_refused p db) (first w (record it { stmt = p }) db)
  unfolding first
  first-Sound null it db h made = (h, made)
  first-Sound (live s) it db h made = next-Sound (live (reset s)) it db (λ e. cc) made
  first-Sound freed it db h made = absurd (h refl)

  Moves-IsSound :
      {s t : Iter × Db Tables} {b : Bool} → Moves s b t → IsSound false s.0 → IsSound b t.0
  Moves-IsSound (call_first {it} {it'} {db} b e) (h, made) =
      subst (Sound (first_refused it.stmt db)) e (first-Sound it.stmt it db h made)
  Moves-IsSound (call_next {it} {it'} {db} b e) (h, made) =
      subst (Sound (next_refused it.stmt db)) e (next-Sound it.stmt it db h made)
  Moves-IsSound (other_use db') h = h

  first_freed : (it : Iter) (db : Db Tables) → it.stmt ≡ freed → first w it db ≡ undefined
  unfolding first
  first_freed it db h = rw h refl

  next_freed : (it : Iter) (db : Db Tables) → it.stmt ≡ freed → next w it db ≡ undefined
  unfolding next
  next_freed it db h = rw h refl

  -- With a finalized statement no call of first or next returns.
  Moves-freed :
      {s t : Iter × Db Tables} {b : Bool} → Moves s b t → s.0.stmt ≡ freed → t.0.stmt ≡ freed
  Moves-freed (call_first {it} {it'} {db} b e) h = cc (sym (first_freed it db h) ∙ e)
  Moves-freed (call_next {it} {it'} {db} b e) h = cc (sym (next_freed it db h) ∙ e)
  Moves-freed (other_use db') h = h

  Reach-IsSound :
      {s t : Iter × Db Tables} {b : Bool} → IsSound false s.0 → Reach s b t → IsSound b t.0
  Reach-IsSound h here = h
  Reach-IsSound h (later r m) = Moves-IsSound m (Reach-IsSound h r)
  Reach-IsSound h (after r m) = Moves-freed m (Reach-IsSound h r)

  -- Without a refusal all calls are defined; after one, none is that uses the statement.
  abbrev pub Defined : Bool → Iter × Db Tables → Type 0
  Defined false (it, db) =
      Returns (first w it db) × Returns (next w it db) × Returns (finalize w it db)
  Defined true (it, db) =
      (first w it db ≡ undefined) × (next w it db ≡ undefined) × (finalize w it db ≡ undefined)

  Returns-of_Sound : (b : Bool) (r : Run (Bool × Iter × Db Tables)) → Sound b r → Returns r
  Returns-of_Sound b undefined h = h
  Returns-of_Sound b (returns a) h = tt

  finalize-Returns :
      (p : StmtPtr Tables Joined) (it : Iter) (db : Db Tables)
      → p ≢ freed
      → Returns (finalize w (record it { stmt = p }) db)
  unfolding finalize
  finalize-Returns null it db h = tt
  finalize-Returns (live s) it db h = tt
  finalize-Returns freed it db h = h refl

  IsSound-Defined : (b : Bool) (t : Iter × Db Tables) → IsSound b t.0 → Defined b t
  unfolding finalize
  IsSound-Defined false (it, db) (h, made) = (
    Returns-of_Sound (first_refused it.stmt db) (first w it db) (first-Sound it.stmt it db h made),
    Returns-of_Sound (next_refused it.stmt db) (next w it db) (next-Sound it.stmt it db h made),
    finalize-Returns it.stmt it db h,
  )
  IsSound-Defined true (it, db) h = (first_freed it db h, next_freed it db h, rw h refl)

  Calm-step : Calm w.env → (r : Step Tables Joined) → r ≢ refused → is_refused r ≡ false
  Calm-step calm (at_row r s) h = refl
  Calm-step calm at_end h = refl
  Calm-step calm refused h = absurd (h refl)

  Calm-move : Calm w.env → {s t : Iter × Db Tables} {b : Bool} → Moves s b t → b ≡ false
  Calm-move calm (call_first {it} {it'} {db} b e) = of_stmt it.stmt
    where
      of_stmt : (p : StmtPtr Tables Joined) → first_refused p db ≡ false
      of_stmt null = refl
      of_stmt (live s) =
          Calm-step calm (step w.env (reset s) db).0 (step-Calm w.env calm (reset s) db)
      of_stmt freed = refl
  Calm-move calm (call_next {it} {it'} {db} b e) = of_stmt it.stmt
    where
      of_stmt : (p : StmtPtr Tables Joined) → next_refused p db ≡ false
      of_stmt null = refl
      of_stmt (live s) = Calm-step calm (step w.env s db).0 (step-Calm w.env calm s db)
      of_stmt freed = refl
  Calm-move calm (other_use db') = refl

  -- From an iterator whose statement is not finalized and whose columns, if it has any, were made for
  -- a row, after any calls of first and next and any other use of the connection: as long as the
  -- engine has refused no step, first, next and the end of the object are all defined; after the call
  -- in which it refuses one, none of them is, since each hands the finalized statement to SQLite. On
  -- an engine that refuses nothing the first is always the case.
  pub Reach-Defined :
      {s t : Iter × Db Tables} {b : Bool}
      → IsSound false s.0
      → Reach s b t
      → Defined b t × (Calm w.env → b ≡ false)
  Reach-Defined {s} {t} {b} h r = (IsSound-Defined b t (Reach-IsSound h r), never r)
    where
      never : {u : Iter × Db Tables} {c : Bool} → Reach s c u → Calm w.env → c ≡ false
      never here calm = refl
      never (later q m) calm = Calm-move calm m
      never (after q m) calm = never q calm
