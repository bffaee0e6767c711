-- ===== src/Logger/Delete/Service.antt =====
-- `rtcom_el_delete_by_service` of src/eventlogger.c, where it succeeds.
use rtcom_eventlogger.Common.{
  ℕ, ◌≡◌, subst, refl, sym, ◌∙◌, ap, true, Option, none, some, String, ◌==◌,
}
use rtcom_eventlogger.Db.Transaction.{committed}
use rtcom_eventlogger.Store.{Tables, delete_events}
use rtcom_eventlogger.Store.Cache.{Consistent}
use rtcom_eventlogger.Store.DropService.{drop_service-Consistent}
use rtcom_eventlogger.Store.Refresh.{delete_rows, drop_service}
use rtcom_eventlogger.Logger.{
  El, World, Exec, go_on, raise, ◌>>◌, run, emit_dbus, all_deleted, lookup_id,
}
use rtcom_eventlogger.Logger.Delete.{silent, deleting, delete_by_service}
use rtcom_eventlogger.Logger.Delete.Success.{Good, Good-mono, go_on-Good, run-Good, deleting-Good}
use rtcom_eventlogger.Logger.Delete.Groups.{announced}

module _ (w : World) where
  injective : {a b : Tables} → ◌≡◌ {A = Option Tables} (some a) (some b) → a ≡ b
  injective p = cc

  statements : ℕ → Exec (Unit {0})
  statements s = do
    run w (λ t. some (delete_events (λ e. e.service_id == s) t))
    run w (λ t. some (delete_rows (λ r. r.service_id == s) t))

  statements-Good :
      (s : ℕ) (el : El)
      → Good (λ _ el'. el'.db.core.tables ≡ drop_service s el.db.core.tables) (statements s el)
  unfolding statements
  statements-Good s el =
      let f = λ (t : Tables). delete_events (λ e. e.service_id == s) t in
      let h = λ (t : Tables). delete_rows (λ r. r.service_id == s) t in
      go_on-Good _ _ _ (run w (λ t. some (f t)) el) (run-Good w (λ t. some (f t)) el)
        (λ _ el1 (ran1, _).
          Good-mono _ _ (run w (λ t. some (h t)) el1)
            (λ el2 (ran2, _). sym (injective ran2) ∙ ap h (sym (injective ran1)))
            (run-Good w (λ t. some (h t)) el1))

  by_lookup :
      (service : String) (el : El) (o : Option ℕ)
      → lookup_id service el.services ≡ o
      → el.db.core.autocommit ≡ true
      → Good
          (λ _ el'.
            (s : ℕ) × (lookup_id service el.services ≡ some s)
            × (committed el'.db.core ≡ drop_service s el.db.core.tables))
          (elim o as (λ _. Exec (Unit {0})) [
            | none ↦ raise none
            | some s ↦ do
              λ el. silent (deleting w (statements s) el)
              emit_dbus w all_deleted none (some service)
          ]
            el)
  by_lookup service el none unknown alone = tt
  by_lookup service el (some s) known alone =
      Good-mono (λ el'. committed el'.db.core ≡ drop_service s el.db.core.tables) _
        (go_on (λ _. emit_dbus w all_deleted none (some service))
          (silent (deleting w (statements s) el)))
        (λ el' h. (s, known, h))
        (announced w (λ t. t ≡ drop_service s el.db.core.tables) all_deleted (some service)
          (deleting w (statements s) el)
          (deleting-Good w (statements s) (λ t t'. t' ≡ drop_service s t) (statements-Good s) el
            alone))

  -- With no transaction open: where `rtcom_el_delete_by_service` returns TRUE, the service is known,
  -- and its events, with their headers and attachments, and its rows of GroupCache are gone from the
  -- committed tables, and nothing else is.
  pub delete_by_service-Good :
      (service : String) (el : El)
      → el.db.core.autocommit ≡ true
      → Good
          (λ _ el'.
            (s : ℕ) × (lookup_id service el.services ≡ some s)
            × (committed el'.db.core ≡ drop_service s el.db.core.tables))
          (delete_by_service w service el)
  unfolding delete_by_service statements
  delete_by_service-Good service el alone =
      by_lookup service el (lookup_id service el.services) refl alone

  -- With no transaction open, and a cache that counts the events of each group: where
  -- `rtcom_el_delete_by_service` returns TRUE, the committed cache still does.
  pub delete_by_service-Consistent :
      (service : String) (el : El)
      → el.db.core.autocommit ≡ true
      → Consistent el.db.core.tables
      → Good (λ _ el'. Consistent (committed el'.db.core)) (delete_by_service w service el)
  delete_by_service-Consistent service el alone c =
      Good-mono _ _ (delete_by_service w service el)
        (λ el' (s, known, h).
          subst Consistent (sym h) (drop_service-Consistent s el.db.core.tables c))
        (delete_by_service-Good service el alone)
