-- ===== src/Iterator/Session.antt =====
-- A client that reads all events of a query: `rtcom_el_get_events_atomic` of src/eventlogger.c, then
-- the iterator of src/eventlogger-iter.c to its end.
use rtcom_eventlogger.Common.{
  ℕ, suc, ◌≤◌, ◌≡◌, ◌≢◌, refl, sym, ap, subst, ◌∙◌, inl, inr, Bool, true, false, Option, none, some,
  List, [], ◌∷◌, length, arith,
}
use rtcom_eventlogger.Db.{Status, Core, Db, off, restored, transaction}
use rtcom_eventlogger.Db.Calm.{Calm, transaction_calm, commit_calm, rollback_calm}
use rtcom_eventlogger.Store.{Tables}
use rtcom_eventlogger.Row.{Columns}
use rtcom_eventlogger.Statement.{Stmt, live, Run, undefined, returns}
use rtcom_eventlogger.Iterator.{Joined, cells, Iter, Context, iter_new, finalize}
use rtcom_eventlogger.Iterator.Current.{shown, at_row_of, update_representation_lem}
use rtcom_eventlogger.Iterator.Walk.{visit, Visited, all_shown, visit-Visited}
use rtcom_eventlogger.Iterator.Open.{Selection, first_row, get_events_core, get_events_atomic}

module _ (w : Context) where
  abbrev pub ended :
      Option Columns
      → Run (Bool × List (Option Columns) × Iter × Db Tables)
      → Run (List (Option Columns) × Db Tables)
  ended c undefined = undefined
  ended c (returns (b, seen, it, db)) = elim (finalize w it db) [
    | undefined ↦ undefined
    | returns db' ↦ returns (c ∷ seen, db')
  ]

  abbrev pub read_on : ℕ → Run (Option Iter × Db Tables) → Run (List (Option Columns) × Db Tables)
  read_on n undefined = undefined
  read_on n (returns (none, db)) = returns ([], db)
  read_on n (returns (some it, db)) = ended it.columns (visit w n it db)

  -- The columns at each row, and the connection when the iterator is gone.
  pub read_all : ℕ → Selection → Db Tables → Run (List (Option Columns) × Db Tables)
  read_all n q db = read_on n (get_events_atomic w q db)

  -- The client saw the rows, and the connection is again outside of a transaction, on these tables.
  abbrev pub HasRead : Tables → List Joined → Run (List (Option Columns) × Db Tables) → Type 0
  HasRead t rows undefined = ⊥
  HasRead t rows (returns (seen, db)) =
      (seen ≡ all_shown w rows) × (db.core.tables ≡ t) × (db.core.autocommit ≡ true)

  module _ (calm : Calm w.env) where
    closing :
        (t : Tables) (r : Joined) (rest : List Joined) (start : Core Tables)
        (v : Run (Bool × List (Option Columns) × Iter × Db Tables))
        → start.tables ≡ t
        → start.autocommit ≡ false
        → Visited w true start rest v
        → HasRead t (r ∷ rest) (ended (some (shown w r)) v)
    unfolding finalize
    closing t r rest start undefined same open_txn h = h
    closing t r rest start (returns (b, seen, it, db)) same open_txn
          (over, mode, inr (stays, front, left, split, all, f, busy)) =
        absurd (busy calm)
    closing t r rest start (returns (b, seen, it, db)) same open_txn
          (over, mode, inl (gone, all, kept)) =
        let c =
          commit_calm w.env calm db (ap (λ (x : Core Tables). x.autocommit) kept ∙ open_txn) in
        rw (gone, finalize)
          (rw mode (
            ap (λ z. some (shown w r) ∷ z) all,
            ap (λ (x : Core Tables). x.tables) c ∙ ap (λ (x : Core Tables). x.tables) kept ∙ same,
            ap (λ (x : Core Tables). x.autocommit) c,
          ))

    -- The first row, in the transaction.
    opened :
        (n : ℕ) (q : Tables → List Joined) (rows : List Joined) (db : Db Tables)
        → length rows ≤ n
        → db.core.journal ≢ off
        → db.core.autocommit ≡ false
        → db.core.saved ≡ db.core.tables
        → HasRead db.core.tables rows (read_on n (first_row w true q rows [] db))
    unfolding iter_new
    opened n q [] db bound journal open_txn saved =
        let b = rollback_calm w.env calm (record db { clock = suc db.clock }) open_txn in
        (
          refl,
          ap (λ (x : Core Tables). x.tables) b ∙ restored_saved db.core journal ∙ saved,
          ap (λ (x : Core Tables). x.autocommit) b,
        )
      where
        restored_saved : (c : Core Tables) → c.journal ≢ off → restored w.env c ≡ c.saved
        restored_saved c h = ground arith
    opened n q (r ∷ rest) db bound journal open_txn saved =
        let s : Stmt Tables Joined = record { rows = q; pending = some rest; current = some r } in
        let db' = record db { clock = suc db.clock } in
        let it = at_row_of w r (iter_new (live s) true) in
        rw (update_representation_lem w r (iter_new (live s) true) (inl refl)) (
          closing db.core.tables r rest db'.core (visit w n it db') refl open_txn (
            visit-Visited w true n rest it s db' (omega (arith, bound)) refl refl
              (inr (cells r, refl)) refl))

  -- On an engine that refuses nothing, with no transaction open and a journal: a client that reads
  -- with `rtcom_el_get_events_atomic` and calls next until it returns FALSE, at most as often as
  -- there are rows, sees every row that the query selects from the tables, in order, each with the
  -- columns of its own row; and when the iterator is gone the transaction is closed and the tables
  -- are as they were.
  pub read_all-HasRead :
      (n : ℕ) (q : Tables → List Joined) (db : Db Tables)
      → Calm w.env
      → db.core.journal ≢ off
      → db.core.autocommit ≡ true
      → length (q db.core.tables) ≤ n
      → HasRead db.core.tables (q db.core.tables) (read_all n (some q) db)
  unfolding read_all get_events_core
  read_all-HasRead n q db calm journal alone bound =
      let db1 : Db Tables = record db { errcode = Status.ok; clock = suc db.clock } in
      let (good_begin, core) = transaction_calm w.env calm db1 alone in
      let db2 = (transaction w.env db1).2 in
      let same_tables = ap (λ (c : Core Tables). c.tables) core in
      rw (calm.prepares db.clock) (
        rw good_begin (
          rw (calm.goes_ahead db2.clock) (
            subst (λ t. HasRead t (q t) (read_on n (first_row w true q (q db2.core.tables) [] db2)))
              same_tables
              (opened calm n q (q db2.core.tables) db2
                (subst (λ t. length (q t) ≤ n) (sym same_tables) bound)
                (subst (λ (c : Core Tables). c.journal ≢ off) (sym core) journal)
                (ap (λ (c : Core Tables). c.autocommit) core)
                (ap (λ (c : Core Tables). c.saved) core ∙ sym same_tables)))))
