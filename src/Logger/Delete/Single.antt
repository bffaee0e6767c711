-- ===== src/Logger/Delete/Single.antt =====
-- `rtcom_el_delete_event` and `rtcom_el_delete_events` of src/eventlogger.c, where they succeed.
use rtcom_eventlogger.Common.{
  ◌≡◌, ◌≢◌, refl, sym, ◌∙◌, ap, subst, ◌⊎◌, inl, inr, Bool, true, Option, none, some, List, [], ◌∷◌,
  ℤ, ℕ, String,
}
use rtcom_eventlogger.Db.{Core, internal}
use rtcom_eventlogger.Db.Exec.{feed}
use rtcom_eventlogger.Db.Transaction.{committed}
use rtcom_eventlogger.Store.{EventRow, Tables, delete_events}
use rtcom_eventlogger.Store.Refresh.{in_list, refresh_groups, purge}
use rtcom_eventlogger.Logger.{
  El, World, Kind, Outcome, crashed, failed, good, go_on, blamed, run, emit_dbus, event_deleted,
  refresh_hint,
}
use rtcom_eventlogger.Logger.Emit.{emit_dbus-Sends}
use rtcom_eventlogger.Logger.Single.{Unless}
use rtcom_eventlogger.Logger.Change.{valid_id, has_id}
use rtcom_eventlogger.Logger.Change.Single.{IsId, valid_id-Unless}
use rtcom_eventlogger.Logger.Delete.{
  or_else, get_group_uid_slave, group_uids, refresh_stmt, get_event_group_uids, update_group_cache,
  deleting, delete_where, delete_event, delete_events_by,
}
use rtcom_eventlogger.Logger.Delete.Success.{
  Good, Good-mono, go_on-Good, run-Good, deleting-Good_or,
}
use rtcom_eventlogger.Logger.Delete.Ignored.{select-Good_ignored, run-Good_ignored}

-- The events are gone, with what belongs to them. GroupCache was left alone, or the groups of the
-- events were refreshed, and then the rows without an event were taken out or not.
abbrev pub Deleted : (EventRow → Bool) → Tables → Tables → Type 0
Deleted p t t' =
    (t' ≡ delete_events p t)
    ⊎ ((gs : List String) × (in_list (feed get_group_uid_slave [] (group_uids p t)) ≡ some gs)
        × ((t' ≡ purge (refresh_groups gs (delete_events p t)))
            ⊎ (t' ≡ refresh_groups gs (delete_events p t))))

-- What `update_group_cache` makes of the tables.
abbrev Refreshed : List (Option String) → Tables → Tables → Type 0
Refreshed li t t' =
    (t' ≡ t)
    ⊎ ((li ≢ [])
        × (gs : List String) × (in_list li ≡ some gs)
        × ((t' ≡ purge (refresh_groups gs t)) ⊎ (t' ≡ refresh_groups gs t)))

injective : {a b : Tables} → ◌≡◌ {A = Option Tables} (some a) (some b) → a ≡ b
injective p = cc

refreshed :
    (o : Option (List String)) (t t' : Tables)
    → elim o [ none ↦ none | some gs ↦ some (refresh_groups gs t) ] ≡ some t'
    → (gs : List String) × (o ≡ some gs) × (t' ≡ refresh_groups gs t)
refreshed none t t' h = cc
refreshed (some gs) t t' h = (gs, refl, sym (injective h))

module _ (w : World) where
  -- The transaction is lost, or it is as it was and the tables are what `P` says.
  abbrev Kept : (Tables → Type 0) → El → El → Type 0
  Kept P el el' =
      (el'.db.core.autocommit ≡ true)
      ⊎ ((el'.db.core.autocommit ≡ el.db.core.autocommit) × P el'.db.core.tables)

  update_group_cache-Good :
      (li : List (Option String)) (el : El)
      → Good (λ _ el'. Kept (Refreshed li el.db.core.tables) el el') (update_group_cache w li el)
  update_group_cache-Good [] el = inr (refl, inl refl)
  update_group_cache-Good (g ∷ li) el =
      go_on-Good _ _ _ (run w (refresh_stmt (g ∷ li)) el) (run-Good w (refresh_stmt (g ∷ li)) el)
        (λ _ el1 (ran, frame).
          let (gs, list, now) =
            refreshed (in_list (g ∷ li)) el.db.core.tables el1.db.core.tables ran in
          let same_mode = ap (λ (c : Core Tables). c.autocommit) frame in
          Good-mono _ _ (or_else tt (run w (λ t. some (purge t)) el1))
            (λ el' r. elim r [
              | inl alone ↦ inl alone
              | inr (mode, inl purged) ↦
                  inr (mode ∙ same_mode, inr (λ h. cc, gs, list, inl (purged ∙ ap purge now)))
              | inr (mode, inr same) ↦
                  inr (mode ∙ same_mode, inr (λ h. cc, gs, list, inr (same ∙ now)))
            ])
            (run-Good_ignored w purge el1))

  delete_where-Good :
      (p : EventRow → Bool) (el : El)
      → Good
          (λ _ el'.
            (el'.db.core.autocommit ≡ true) ⊎ Deleted p el.db.core.tables el'.db.core.tables)
          (delete_where w p el)
  delete_where-Good p el =
      go_on-Good _ _ _ (get_event_group_uids w p el)
        (select-Good_ignored w get_group_uid_slave [] [] (group_uids p) el)
        (λ li el1 known.
          go_on-Good _ _ _ (run w (λ t. some (delete_events p t)) el1)
            (run-Good w (λ t. some (delete_events p t)) el1)
            (λ _ el2 (ran, frame).
              Good-mono _ _ (update_group_cache w li el2)
                (λ el' r. elim r [
                  | inl alone ↦ inl alone
                  | inr (mode, done) ↦ elim known [
                    | inl alone ↦ inl (mode ∙ ap (λ (c : Core Tables). c.autocommit) frame ∙ alone)
                    | inr (same, list) ↦ inr (
                        together li el.db.core.tables el2.db.core.tables el'.db.core.tables
                          (sym (injective ran) ∙ ap (delete_events p) same) list done)
                  ]
                ])
                (update_group_cache-Good li el2)))
    where
      together :
          (li : List (Option String)) (t t2 t' : Tables)
          → t2 ≡ delete_events p t
          → (li ≡ feed get_group_uid_slave [] (group_uids p t)) ⊎ (li ≡ [])
          → Refreshed li t2 t'
          → Deleted p t t'
      together li t t2 t' d list (inl same) = inl (same ∙ d)
      together li t t2 t' d (inl full) (inr (some_groups, gs, texts, now)) = inr (
          subst
            (λ z.
              (hs : List String) × (in_list (feed get_group_uid_slave [] (group_uids p t))
                ≡ some hs)
              × ((t' ≡ purge (refresh_groups hs z)) ⊎ (t' ≡ refresh_groups hs z)))
            d (gs, subst (λ l. in_list l ≡ some gs) full texts, now))
      together li t t2 t' d (inr empty) (inr (some_groups, gs, texts, now)) =
          absurd (some_groups empty)

  -- The signal after a deletion, whatever the bus does.
  sent_after :
      (P : Tables → Type 0) (kind : Kind) (n : Option ℕ) (r : Outcome (Unit {0}) × El)
      → Good (λ _ el'. P (committed el'.db.core) × (el'.db.core.autocommit ≡ true)) r
      → Good
          (λ _ el'. P (committed el'.db.core))
          (go_on (λ _. emit_dbus w kind n none) (blamed (λ _. internal) r))
  sent_after P kind n (crashed, el) h = tt
  sent_after P kind n (failed e, el) h = tt
  sent_after P kind n (good a, el) h =
      let (ok, core, sends) = emit_dbus-Sends w kind n none el h.1 in
      of_good (emit_dbus w kind n none el) ok (subst (λ c. P (committed c)) (sym core) h.0)
    where
      of_good :
          (r : Outcome (Unit {0}) × El)
          → r.0 ≡ good tt
          → P (committed r.1.db.core)
          → Good (λ _ el'. P (committed el'.db.core)) r
      of_good (crashed, el') g q = tt
      of_good (failed e, el') g q = tt
      of_good (good a, el') g q = q

  Good-of_Unless :
      {A : Type 0} (Q : A → El → Type 0) (el : El) (r : Outcome A × El) → Unless Q el r → Good Q r
  Good-of_Unless Q el (crashed, el') h = tt
  Good-of_Unless Q el (failed e, el') h = tt
  Good-of_Unless Q el (good a, el') h = h

  -- With no transaction open: where `rtcom_el_delete_event` returns TRUE, the event with the id, and
  -- where `rtcom_el_delete_events` returns TRUE, the events on which the WHERE clause holds, are
  -- gone from the committed tables with their headers and attachments. Nothing else is changed but
  -- GroupCache, if that: its rows for the groups of those events were recomputed, and then the rows
  -- of groups without an event taken out or not.
  pub delete_event-Deletes :
      (event_id : ℤ) (where_clause : EventRow → Bool) (el : El)
      → el.db.core.autocommit ≡ true
      → Good
          (λ _ el'.
            (i : ℕ) × IsId event_id i
            × Deleted (has_id i) el.db.core.tables (committed el'.db.core))
          (delete_event w event_id el)
        × Good
            (λ _ el'. Deleted where_clause el.db.core.tables (committed el'.db.core))
            (delete_events_by w (some where_clause) el)
  unfolding delete_event delete_events_by
  delete_event-Deletes event_id where_clause el alone = (
    go_on-Good (λ i el1. IsId event_id i × (el1 ≡ el)) _ _ (valid_id event_id el)
        (Good-of_Unless _ el (valid_id event_id el) (valid_id-Unless event_id el))
        (λ i el1 (is_id, same).
          subst
            (λ x.
              Good
                (λ _ el'.
                  (i : ℕ) × IsId event_id i
                  × Deleted (has_id i) el.db.core.tables (committed el'.db.core))
                (go_on (λ _. emit_dbus w event_deleted (some i) none)
                  (blamed (λ _. internal) (deleting w (delete_where w (has_id i)) x))))
            (sym same)
            (Good-mono _ _
              (go_on (λ _. emit_dbus w event_deleted (some i) none)
                (blamed (λ _. internal) (deleting w (delete_where w (has_id i)) el)))
              (λ el' d. (i, is_id, d))
              (sent_after (Deleted (has_id i) el.db.core.tables) event_deleted (some i) _ (
                deleting-Good_or w (delete_where w (has_id i)) (Deleted (has_id i))
                  (delete_where-Good (has_id i)) el alone)))),
    sent_after (Deleted where_clause el.db.core.tables) refresh_hint none _ (
        deleting-Good_or w (delete_where w where_clause) (Deleted where_clause)
          (delete_where-Good where_clause) el alone),
  )
