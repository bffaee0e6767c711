-- ===== src/Logger/Delete.antt =====
-- The operations of src/eventlogger.c that delete events.
use rtcom_eventlogger.Common.{
  ℤ, Bool, true, Option, none, some, List, [], ◌∷◌, map, String, keep, ◌==◌,
}
use rtcom_eventlogger.Db.{internal, truncate, off}
use rtcom_eventlogger.Store.{EventRow, Tables, in_group, is_for, delete_events}
use rtcom_eventlogger.Store.Refresh.{distinct, in_list, refresh_groups, purge, delete_rows}
use rtcom_eventlogger.Logger.{
  El, World, Outcome, crashed, failed, good, Exec, pure, raise, ◌>>=◌, ◌>>◌, blamed, gets,
  lookup_id, select, run, begin, finish, undo, set_journal, emit_dbus, event_deleted, all_deleted,
  refresh_hint,
}
use rtcom_eventlogger.Logger.Change.{valid_id, has_id}
pub mod Success
pub mod Covered
pub mod Groups
pub mod Ignored
pub mod Single
pub mod Service

-- A failure that is not looked at.
abbrev pub or_else : {A : Type 0} → A → Outcome A × El → Outcome A × El
or_else a (failed e, el) = (good a, el)
or_else a (crashed, el) = (crashed, el)
or_else a (good b, el) = (good b, el)

-- A failure that sets no error.
abbrev pub silent : {A : Type 0} → Outcome A × El → Outcome A × El
silent (failed e, el) = (failed none, el)
silent (crashed, el) = (crashed, el)
silent (good a, el) = (good a, el)

-- `get_group_uid_slave`
abbrev pub get_group_uid_slave : Option String → List (Option String) → List (Option String)
get_group_uid_slave g li = g ∷ li

-- SELECT DISTINCT (group_uid) FROM Events WHERE p
abbrev pub group_uids : (EventRow → Bool) → Tables → List (Option String)
group_uids p t = distinct (map (λ (e : EventRow). e.group_uid) (keep p t.events))

abbrev pub refresh_stmt : List (Option String) → Tables → Option Tables
refresh_stmt li t = elim (in_list li) [ none ↦ none | some gs ↦ some (refresh_groups gs t) ]

module _ (w : World) where
  -- `get_event_group_uids`, whose failure is an empty list
  abbrev pub get_event_group_uids : (EventRow → Bool) → Exec (List (Option String))
  get_event_group_uids p el = or_else [] (select w get_group_uid_slave [] (group_uids p) el)

  -- `update_group_cache`
  abbrev pub update_group_cache : List (Option String) → Exec (Unit {0})
  update_group_cache [] = pure tt
  update_group_cache (g ∷ li) = do
    run w (refresh_stmt (g ∷ li))
    λ el. or_else tt (run w (λ t. some (purge t)) el)

  -- The end of a deletion: TRUNCATE after the COMMIT, or after the ROLLBACK.
  abbrev pub settle : {A : Type 0} → Outcome A × El → Outcome A × El
  settle (good a, el) = (good a, set_journal w truncate el)
  settle (failed e, el) = (failed e, set_journal w truncate (undo w el))
  settle (crashed, el) = (crashed, el)

  -- A deletion: no journal, and a transaction.
  abbrev pub deleting : Exec (Unit {0}) → Exec (Unit {0})
  deleting m el = settle ((do begin w; m; finish w) (set_journal w off el))

  -- DELETE FROM Events WHERE p between `get_event_group_uids` and `update_group_cache`
  abbrev pub delete_where : (EventRow → Bool) → Exec (Unit {0})
  delete_where p = do
    li ← get_event_group_uids p
    run w (λ t. some (delete_events p t))
    update_group_cache li

  -- `rtcom_el_delete_event`
  unfoldable pub delete_event : ℤ → Exec (Unit {0})
  delete_event event_id = do
    i ← valid_id event_id
    λ el. blamed (λ _. internal) (deleting (delete_where (has_id i)) el)
    emit_dbus w event_deleted (some i) none

  -- `rtcom_el_delete_events`, for the events on which the query's WHERE clause holds; `none` is a
  -- query without one
  unfoldable pub delete_events_by : Option (EventRow → Bool) → Exec (Unit {0})
  delete_events_by none = raise none
  delete_events_by (some where_clause) = do
    λ el. blamed (λ _. internal) (deleting (delete_where where_clause) el)
    emit_dbus w refresh_hint none none

  -- `rtcom_el_delete_by_service`
  unfoldable pub delete_by_service : String → Exec (Unit {0})
  delete_by_service service = do
    services ← gets (λ el. el.services)
    elim (lookup_id service services) [
      | none ↦ raise none
      | some s ↦ do
        λ el. silent (
            deleting
              (do
                run w (λ t. some (delete_events (λ e. e.service_id == s) t))
                run w (λ t. some (delete_rows (λ r. r.service_id == s) t)))
              el)
        emit_dbus w all_deleted none (some service)
    ]

  -- The loop of `rtcom_el_delete_by_group_uids`.
  unfoldable pub delete_groups : List String → Exec (Unit {0})
  delete_groups [] = pure tt
  delete_groups (g ∷ gs) = do
    run w (λ t. some (delete_events (in_group g) t))
    run w (λ t. some (delete_rows (is_for g) t))
    delete_groups gs

  -- `rtcom_el_delete_by_group_uids`
  unfoldable pub delete_by_group_uids : List String → Exec (Unit {0})
  delete_by_group_uids gs = do
    λ el. silent (deleting (delete_groups gs) el)
    emit_dbus w refresh_hint none none

  -- `rtcom_el_delete_all`
  unfoldable pub delete_all : Exec (Unit {0})
  delete_all = do
    λ el. silent (deleting (run w (λ t. some (delete_events (λ _. true) t))) el)
    emit_dbus w all_deleted none none
