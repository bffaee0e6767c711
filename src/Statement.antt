-- ===== src/Statement.antt =====
-- A prepared SELECT (`sqlite3_stmt`), as src/eventlogger-iter.c and src/eventlogger-attach-iter.c
-- hold one, and the step that both make on it.
--
-- The rows are those that the tables have at the first step: SQLite promises it as long as the same
-- connection does not write in between.
use rtcom_eventlogger.Common.{Option, none, some, List, [], ◌∷◌}
use rtcom_eventlogger.Db.{Status, Env, Db, iterate}
pub mod Steps

-- `pending` are the rows still to come, `none` before the first step and after `sqlite3_reset`;
-- `current` is the row that `sqlite3_column_…` reads.
pub record Stmt (T R : Type 0) : Type 0 where
  pub rows : T → List R
  pub pending : Option (List R)
  pub current : Option R

-- A pointer to a statement; `freed` is one to a statement that was finalized.
pub data StmtPtr (T R : Type 0) : Type 0 where
  null : StmtPtr T R
  live : Stmt T R → StmtPtr T R
  freed : StmtPtr T R

-- What a call comes to; `undefined` is one that hands a finalized statement to SQLite, or reads
-- through a NULL pointer.
pub data Run (A : Type 0) : Type 0 where
  undefined : Run A
  returns : A → Run A

-- How a step ends: at a row, at the end, or by any other result code.
pub data Step (T R : Type 0) : Type 0 where
  at_row : R → Stmt T R → Step T R
  at_end : Step T R
  refused : Step T R

module _ {T R : Type 0} where
  -- `sqlite3_reset`
  abbrev pub reset : Stmt T R → Stmt T R
  reset s = record s { pending = none; current = none }

  abbrev pub to_deliver : Stmt T R → T → List R
  to_deliver s t = elim s.pending [ none ↦ s.rows t | some rest ↦ rest ]

  -- The tests of the result code for SQLITE_DONE and SQLITE_ROW.
  abbrev pub reached : Status → Option (R × Stmt T R) → Step T R
  reached Status.done _ = at_end
  reached Status.row (some (r, s)) = at_row r s
  reached _ _ = refused

  module _ (env : Env T) where
    abbrev pub advance : Stmt T R → List R → Db T → Step T R × Db T
    advance s [] db = let (st, e, db') = iterate env Status.done db in (reached st none, db')
    advance s (r ∷ rest) db =
        let (st, e, db') = iterate env Status.row db in
        (reached st (some (r, record s { pending = some rest; current = some r })), db')

    -- `rtcom_el_db_iterate` on the statement
    unfoldable pub step : Stmt T R → Db T → Step T R × Db T
    step s db = advance s (to_deliver s db.core.tables) db
