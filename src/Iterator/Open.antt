-- ===== src/Iterator/Open.antt =====
-- `_get_events_core` of src/eventlogger.c: the iterator of a query, inside a transaction or not.
use rtcom_eventlogger.Common.{
  ℕ, suc, Bool, true, false, Option, none, some, List, [], ◌∷◌, if◌then◌else◌,
}
use rtcom_eventlogger.Db.{Status, Fault, Db, code, after_failure, transaction, rollback}
use rtcom_eventlogger.Store.{Tables}
use rtcom_eventlogger.Statement.{live, Run, undefined, returns}
use rtcom_eventlogger.Logger.{is_ok}
use rtcom_eventlogger.Iterator.{Joined, Iter, Context, iter_new, update_representation}

-- What the text of a query selects; `none` is no text, or one that SQLite does not compile.
abbrev pub Selection : Type 0
Selection = Option (Tables → List Joined)

module _ (w : Context) where
  -- The end of a query that has no iterator.
  abbrev pub given_up : Bool → Db Tables → Option Iter × Db Tables
  given_up atomic db = (none, if atomic then (let (_, _, db') = rollback w.env db in db') else db)

  abbrev pub constructed : Run Iter → Db Tables → Run (Option Iter × Db Tables)
  constructed undefined db = undefined
  constructed (returns it) db = returns (some it, db)

  -- The first row, by one `sqlite3_step`: its result code decides.
  abbrev pub first_row :
      Bool
      → (Tables → List Joined)
      → List Joined
      → List (Fault × ℕ)
      → Db Tables
      → Run (Option Iter × Db Tables)
  first_row atomic q rows ((f, _) ∷ _) db =
      returns (given_up atomic (after_failure w.env (code f) db))
  first_row atomic q [] [] db = returns (given_up atomic (record db { clock = suc db.clock }))
  first_row atomic q (r ∷ rest) [] db =
      constructed
        (update_representation w r
          (iter_new (live (record { rows = q; pending = some rest; current = some r })) atomic))
        (record db { clock = suc db.clock })

  abbrev pub begun :
      Bool × Db Tables → (Db Tables → Run (Option Iter × Db Tables)) → Run (Option Iter × Db Tables)
  begun (true, db) go_on = go_on db
  begun (false, db) go_on = returns (none, db)

  abbrev pub begin_if : Bool → Db Tables → Bool × Db Tables
  begin_if false db = (true, db)
  begin_if true db = let (ok, e, db') = transaction w.env db in (ok, db')

  abbrev pub compiled : Bool → (Tables → List Joined) → Db Tables → Run (Option Iter × Db Tables)
  compiled atomic q db =
      begun (begin_if atomic db)
        (λ db'. first_row atomic q (q db'.core.tables) (w.env.refusals db'.clock) db')

  -- `_get_events_core`
  unfoldable pub get_events_core : Bool → Selection → Db Tables → Run (Option Iter × Db Tables)
  get_events_core atomic none db = returns (none, after_failure w.env Status.other db)
  get_events_core atomic (some q) db =
      if is_ok (w.env.prepare db.clock)
      then compiled atomic q (record db { errcode = Status.ok; clock = suc db.clock })
      else returns (none, after_failure w.env (w.env.prepare db.clock) db)

  -- `rtcom_el_get_events`
  abbrev pub get_events : Selection → Db Tables → Run (Option Iter × Db Tables)
  get_events = get_events_core false

  -- `rtcom_el_get_events_atomic`
  abbrev pub get_events_atomic : Selection → Db Tables → Run (Option Iter × Db Tables)
  get_events_atomic = get_events_core true
