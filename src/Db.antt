-- ===== src/Db.antt =====
-- src/db.c over an abstract set of tables `T`: SQLite's result codes, one connection with its
-- transaction, `rtcom_el_db_iterate`, `rtcom_el_db_exec` and the transaction functions.
--
-- SQLite itself is not in the repository. What its documentation promises is the meaning of a
-- statement (`Effect`); when it refuses to go on, and what it then does, is the parameter `Env`.
use rtcom_eventlogger.Common.{
  ℕ, suc, ◌+◌, Bool, true, false, not, ◌&&◌, Option, none, some, List, [], ◌∷◌, ltb, if◌then◌else◌,
}
pub mod Iterate
pub mod Exec
pub mod Calm
pub mod Transaction

-- The result codes that the code tells apart; `other` is every further one.
pub data Status : Type 0 where
  ok row done busy locked full ioerr corrupt format notadb other : Status

-- `RTComElError`
pub data Error : Type 0 where
  internal invalid_argument temporary database_full database_corrupted : Error

-- `PRAGMA journal_mode`; SQLite starts with `delete`.
pub data Journal : Type 0 where
  delete truncate memory off : Journal

-- How `sqlite3_step` can refuse to do what the statement says.
pub data Fault : Type 0 where
  busy locked full ioerr corrupt format notadb other : Fault

abbrev pub code : Fault → Status
code Fault.busy = Status.busy
code Fault.locked = Status.locked
code Fault.full = Status.full
code Fault.ioerr = Status.ioerr
code Fault.corrupt = Status.corrupt
code Fault.format = Status.format
code Fault.notadb = Status.notadb
code Fault.other = Status.other

-- What a statement can change: the tables, and the transaction that is open. `saved` is what the
-- tables were at BEGIN, which is what other connections still see.
pub record Core (T : Type 0) : Type 0 where
  pub tables : T
  pub saved : T
  pub autocommit : Bool
  pub journal : Journal

-- The connection; `clock` counts the calls of the library that can fail.
pub record Db (T : Type 0) : Type 0 where
  pub core : Core T
  pub errcode : Status
  pub clock : ℕ

-- The engine's choices, by the call. `refusals n` are the results of `sqlite3_step` before it goes
-- ahead, each with the reading in milliseconds of the timer that the loop looks at. After a failure
-- SQLite may have rolled the transaction back by itself, and a rollback without a journal is
-- undefined: it leaves any tables at all.
pub record Env (T : Type 0) : Type 0 where
  pub prepare : ℕ → Status
  pub refusals : ℕ → List (Fault × ℕ)
  pub auto_rollback : ℕ → Bool
  pub garbled : T → T → T

-- What a statement does if nothing stops it: the rows that it delivers one by one, and the state
-- after the last; `none` is a constraint that fails, or text that is no SQL.
abbrev pub Effect : Type 0 → Type 0 → Type 0
Effect T R = Core T → Option (List R × Core T)

-- A statement on the tables alone.
abbrev pub lift_core : {T R : Type 0} → Core T → Option (List R × T) → Option (List R × Core T)
lift_core c none = none
lift_core c (some (rows, t)) = some (rows, record c { tables = t })

abbrev pub on_tables : {T R : Type 0} → (T → Option (List R × T)) → Effect T R
on_tables f c = lift_core c (f c.tables)

-- `BEGIN DEFERRED;` and `BEGIN EXCLUSIVE;`, which differ only in the locks that they take
abbrev pub begin_stmt : {T : Type 0} → Effect T (Unit {0})
begin_stmt c = some ([], record c { saved = c.tables; autocommit = false })

abbrev pub commit_stmt : {T : Type 0} → Effect T (Unit {0})
commit_stmt c = some ([], record c { autocommit = true })

-- `PRAGMA journal_mode = …;` answers with one row. It has no effect inside a transaction.
abbrev pub journal_stmt : {T : Type 0} → Journal → Effect T (Unit {0})
journal_stmt j c = some (tt ∷ [], record c { journal = if c.autocommit then j else c.journal })

-- `RTCOM_EL_DB_MAX_BUSYLOOP_TIME`, in milliseconds
abbrev pub max_busyloop_time : ℕ
max_busyloop_time = 2000

-- The `switch` on a result code in `rtcom_el_db_iterate` and in `rtcom_el_db_exec`.
abbrev pub classify : Status → Option Error
classify Status.done = none
classify Status.row = none
classify Status.ok = none
classify Status.full = some database_full
classify Status.ioerr = some database_full
classify Status.corrupt = some database_corrupted
classify Status.format = some database_corrupted
classify Status.notadb = some database_corrupted
classify _ = some internal

abbrev pub is_busy : Fault → Bool
is_busy Fault.busy = true
is_busy Fault.locked = true
is_busy _ = false

-- The `while (1)` loop of `rtcom_el_db_iterate` and the `switch` behind it. `intended` is what
-- `sqlite3_step` returns when the engine goes ahead.
unfoldable pub spin : List (Fault × ℕ) → Status → Status × Option Error
spin [] intended = (intended, classify intended)
spin ((f, elapsed) ∷ rest) intended =
    let again = spin rest intended in
    if is_busy f
    then (if ltb max_busyloop_time elapsed then (Status.busy, some temporary) else again)
    else (code f, classify (code f))

-- What `sqlite3_errcode` says when the loop is over: the result of the last step.
unfoldable pub last_step : List (Fault × ℕ) → Status → Status
last_step [] intended = intended
last_step ((f, elapsed) ∷ rest) intended =
    let later = last_step rest intended in
    if is_busy f && not (ltb max_busyloop_time elapsed) then later else code f

module _ {T : Type 0} (env : Env T) where
  -- The tables after ROLLBACK.
  abbrev pub restored : Core T → T
  restored c = elim c.journal [ off ↦ env.garbled c.saved c.tables | _ ↦ c.saved ]

  abbrev pub rolled_back : Core T → Core T
  rolled_back c = record c { tables = restored c; autocommit = true }

  -- The connection after a call that failed.
  abbrev pub after_failure : Status → Db T → Db T
  after_failure s db = record {
    core =
        if not db.core.autocommit && env.auto_rollback db.clock
        then rolled_back db.core
        else db.core;
    errcode = s;
    clock = suc db.clock;
  }

  abbrev pub after_step : Status → Option Error → Db T → Db T
  after_step s none db = record db { errcode = s; clock = suc db.clock }
  after_step s (some e) db = after_failure s db

  -- `rtcom_el_db_iterate`
  unfoldable pub iterate : Status → Db T → Status × Option Error × Db T
  unfolding spin
  iterate intended db =
      let (s, e) = spin (env.refusals db.clock) intended in
      (s, e, after_step (last_step (env.refusals db.clock) intended) e db)

  module _ {R A : Type 0} (cb : R → A → A) where
    -- The `do … while` loop of `rtcom_el_db_exec`, over the rows that the statement delivers.
    unfoldable pub exec_rows : Core T → List R → A → Db T → Bool × Option Error × A × Db T
    exec_rows end [] acc db =
        let (s, e, db') = iterate Status.done db in
        elim e [
          | none ↦ (true, none, acc, record db' { core = end })
          | some x ↦ (false, some x, acc, db')
        ]
    exec_rows end (r ∷ rs) acc db =
        let (s, e, db') = iterate Status.row db in
        elim e [ none ↦ exec_rows end rs (cb r acc) db' | some x ↦ (false, some x, acc, db') ]

    -- `rtcom_el_db_exec`: whether it succeeded, the error that it set, what the callback made of
    -- `user_data`, and the connection.
    unfoldable pub exec : Effect T R → A → Db T → Bool × Option Error × A × Db T
    exec stmt acc db = elim (classify (env.prepare db.clock)) [
      | some e ↦ (false, some e, acc, after_failure (env.prepare db.clock) db)
      | none ↦
          let db' = record db { errcode = Status.ok; clock = suc db.clock } in
          elim (stmt db.core) [
            | some (rows, end) ↦ exec_rows end rows acc db'
            | none ↦ let (s, e, db'') = iterate Status.other db' in (false, e, acc, db'')
          ]
    ]

  -- A statement with no callback.
  unfoldable pub exec_plain : Effect T (Unit {0}) → Db T → Bool × Option Error × Db T
  exec_plain stmt db =
      let (success, e, u, db') = exec (λ _ (u : Unit {0}). u) stmt tt db in (success, e, db')

  abbrev pub rollback_stmt : Effect T (Unit {0})
  rollback_stmt c = some ([], rolled_back c)

  -- `rtcom_el_db_transaction`
  unfoldable pub transaction : Db T → Bool × Option Error × Db T
  transaction db = if not db.core.autocommit then (false, none, db) else exec_plain begin_stmt db

  -- `rtcom_el_db_commit`
  unfoldable pub commit : Db T → Bool × Option Error × Db T
  commit db = if db.core.autocommit then (false, none, db) else exec_plain commit_stmt db

  -- `rtcom_el_db_rollback`
  unfoldable pub rollback : Db T → Bool × Option Error × Db T
  rollback db = if db.core.autocommit then (false, none, db) else exec_plain rollback_stmt db
