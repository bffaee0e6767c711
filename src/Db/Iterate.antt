-- ===== src/Db/Iterate.antt =====
-- `rtcom_el_db_iterate` (src/db.c): how the retry loop ends, and what it then reports.
use rtcom_eventlogger.Common.{
  ℕ, ◌<◌, ◌≡◌, refl, ◌↔◌, ◌≢◌, ◌⊎◌, inl, inr, false, Option, none, some, List, [], ◌∷◌, ◌++◌, arith,
  ltb, Bool-cases,
}
use rtcom_eventlogger.Db.{
  Status, Error, temporary, Fault, code, Env, Db, max_busyloop_time, classify, is_busy, spin,
  iterate,
}

-- The loop is over by the first time that the timer reads more than two seconds: what the engine
-- would have answered later, and what the statement is, make no difference.
pub spin_deadline :
    (before : List (Fault × ℕ)) (f : Fault) (elapsed : ℕ) (after : List (Fault × ℕ))
    (intended other : Status)
    → max_busyloop_time < elapsed
    → spin (before ++ (f, elapsed) ∷ after) intended ≡ spin (before ++ (f, elapsed) ∷ []) other
unfolding spin
spin_deadline [] f t after i o h = ground arith
spin_deadline ((g, u) ∷ before) f t after i o h =
    ground (arith, spin_deadline before f t after i o h)

-- What the loop reports of a step that would deliver a row or end the statement.
pub record Reports (intended : Status) (r : Status × Option Error) : Type 0 where
  pub clean_iff : (r.1 ≡ none) ↔ (r.0 ≡ intended)
  pub temporary_iff : (r.1 ≡ some temporary) ↔ (r.0 ≡ Status.busy)
  pub never_locked : r.0 ≢ Status.locked

abbrev pub IsStep : Status → Type 0
IsStep s = (s ≡ Status.row) ⊎ (s ≡ Status.done)

goes_ahead : (s : Status) → IsStep s → Reports s (s, classify s)
goes_ahead Status.row h = ground arith
goes_ahead s h = ground arith

gives_up : (s : Status) → IsStep s → Reports s (Status.busy, some temporary)
gives_up Status.row h = ground arith
gives_up s h = ground arith

breaks :
    (f : Fault) (s : Status) → is_busy f ≡ false → IsStep s → Reports s (code f, classify (code f))
breaks Fault.full s h k = ground arith
breaks f s h k = ground arith

spin-Reports : (rs : List (Fault × ℕ)) (s : Status) → IsStep s → Reports s (spin rs s)
unfolding spin
spin-Reports [] s h = goes_ahead s h
spin-Reports ((f, t) ∷ rs) s h = elim (Bool-cases (is_busy f)) [
  | inr e ↦ rw e (breaks f s e h)
  | inl e ↦ rw e (elim (Bool-cases (ltb max_busyloop_time t)) [
    | inl late ↦ rw late (gives_up s h)
    | inr early ↦ rw early (spin-Reports rs s h)
  ])
]

-- For every connection and every engine: the step reports ROW or DONE exactly when it sets no
-- error, BUSY exactly when it sets the temporary error, and it never reports LOCKED.
pub iterate-Reports :
    {T : Type 0} (env : Env T) (s : Status) (db : Db T)
    → IsStep s
    → Reports s ((iterate env s db).0, (iterate env s db).1)
unfolding iterate
iterate-Reports env s db h = spin-Reports (env.refusals db.clock) s h

-- The loop reports the step, or the code of a refusal.
pub spin-code :
    (rs : List (Fault × ℕ)) (s : Status)
    → ((spin rs s).0 ≡ s) ⊎ ((f : Fault) × ((spin rs s).0 ≡ code f))
unfolding spin
spin-code [] s = inl refl
spin-code ((f, t) ∷ rs) s = elim (Bool-cases (is_busy f)) [
  | inr e ↦ inr (f, rw e)
  | inl e ↦ elim (Bool-cases (ltb max_busyloop_time t)) [
    | inl late ↦ inr (Fault.busy, rw (e, late))
    | inr early ↦ rw (e, early) (spin-code rs s)
  ]
]

pub iterate-code :
    {T : Type 0} (env : Env T) (s : Status) (db : Db T)
    → ((iterate env s db).0 ≡ s) ⊎ ((f : Fault) × ((iterate env s db).0 ≡ code f))
unfolding iterate
iterate-code env s db = spin-code (env.refusals db.clock) s

fault_error : (f : Fault) → is_busy f ≡ false → classify (code f) ≢ none
fault_error Fault.full h e = cc
fault_error f h e = cc

spin-other : (rs : List (Fault × ℕ)) → (spin rs Status.other).1 ≢ none
unfolding spin
spin-other [] e = cc
spin-other ((f, t) ∷ rs) e = elim (Bool-cases (is_busy f)) [
  | inr h ↦ fault_error f h (rw h at e)
  | inl h ↦ elim (Bool-cases (ltb max_busyloop_time t)) [
    | inl late ↦ cc (rw (h, late) at e)
    | inr early ↦ spin-other rs (rw (h, early) at e)
  ]
]

-- A statement that cannot be run never ends without an error.
pub iterate-other : {T : Type 0} (env : Env T) (db : Db T) → (iterate env Status.other db).1 ≢ none
unfolding iterate
iterate-other env db = spin-other (env.refusals db.clock)
