-- ===== src/Db/Calm.antt =====
-- `rtcom_el_db_exec` (src/db.c) on an engine that refuses nothing.
use rtcom_eventlogger.Common.{ℕ, suc, ◌≡◌, refl, true, false, none, some, List, [], ◌∷◌}
use rtcom_eventlogger.Db.{
  Status, Env, Core, Db, Effect, classify, spin, iterate, exec_rows, exec, exec_plain, begin_stmt,
  commit_stmt, rollback_stmt, rolled_back, transaction, commit, rollback,
}

-- The engine compiles every text and goes ahead at once.
pub record Calm {T : Type 0} (env : Env T) : Type 0 where
  pub prepares : (n : ℕ) → env.prepare n ≡ Status.ok
  pub goes_ahead : (n : ℕ) → env.refusals n ≡ []

module _ {T : Type 0} (env : Env T) (calm : Calm env) where
  pub iterate_calm : (s : Status) (db : Db T) → classify s ≡ none → (iterate env s db).1 ≡ none
  unfolding iterate spin
  iterate_calm s db h = rw (calm.goes_ahead db.clock) (rw h refl)

  module _ {R A : Type 0} (cb : R → A → A) where
    exec_rows_calm :
        (end : Core T) (rows : List R) (acc : A) (db : Db T)
        → ((exec_rows env cb end rows acc db).0 ≡ true)
          × ((exec_rows env cb end rows acc db).3.core ≡ end)
    unfolding exec_rows
    exec_rows_calm end [] acc db = (
      rw (iterate_calm Status.done db refl, exec_rows) refl,
      rw (iterate_calm Status.done db refl, exec_rows) refl,
    )
    exec_rows_calm end (r ∷ rows) acc db =
        rw (iterate_calm Status.row db refl, exec_rows)
          (exec_rows_calm end rows (cb r acc) (iterate env Status.row db).2)

    -- On an engine that refuses nothing, every statement that has a meaning is run to its end:
    -- `rtcom_el_db_exec` returns TRUE and leaves what the statement says.
    pub exec-Calm :
        (stmt : Effect T R) (acc : A) (db : Db T) (rows : List R) (end : Core T)
        → stmt db.core ≡ some (rows, end)
        → ((exec env cb stmt acc db).0 ≡ true) × ((exec env cb stmt acc db).3.core ≡ end)
    unfolding exec
    exec-Calm stmt acc db rows end runs =
        rw (calm.prepares db.clock, exec)
          (rw (runs, exec)
            (exec_rows_calm end rows acc (record db { errcode = Status.ok; clock = suc db.clock })))

  pub exec_plain_calm :
      (stmt : Effect T (Unit {0})) (db : Db T) (rows : List (Unit {0})) (end : Core T)
      → stmt db.core ≡ some (rows, end)
      → ((exec_plain env stmt db).0 ≡ true) × ((exec_plain env stmt db).2.core ≡ end)
  unfolding exec_plain
  exec_plain_calm stmt db rows end runs = exec-Calm (λ _ (u : Unit {0}). u) stmt tt db rows end runs

  pub transaction_calm :
      (db : Db T)
      → db.core.autocommit ≡ true
      → ((transaction env db).0 ≡ true)
        × ((transaction env db).2.core
            ≡ record db.core { saved = db.core.tables; autocommit = false })
  unfolding transaction
  transaction_calm db alone = simp alone (exec_plain_calm begin_stmt db [] _ refl)

  pub commit_calm :
      (db : Db T)
      → db.core.autocommit ≡ false
      → (commit env db).2.core ≡ record db.core { autocommit = true }
  unfolding commit
  commit_calm db open_txn = simp open_txn ((exec_plain_calm commit_stmt db [] _ refl).1)

  pub rollback_calm :
      (db : Db T) → db.core.autocommit ≡ false → (rollback env db).2.core ≡ rolled_back env db.core
  unfolding rollback
  rollback_calm db open_txn = simp open_txn ((exec_plain_calm (rollback_stmt env) db [] _ refl).1)
