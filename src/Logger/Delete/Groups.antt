-- ===== src/Logger/Delete/Groups.antt =====
-- `rtcom_el_delete_by_group_uids` and `rtcom_el_delete_all` of src/eventlogger.c, and GroupCache.
use rtcom_eventlogger.Common.{
  ◌≡◌, refl, sym, ◌∙◌, ap, subst, true, not, Option, none, some, List, [], ◌∷◌, String, keep,
  same_refl,
}
use rtcom_eventlogger.Db.Transaction.{committed}
use rtcom_eventlogger.Store.{EventRow, GroupRow, Tables, in_group, is_for, delete_events}
use rtcom_eventlogger.Store.Cache.{Consistent, members, aggregate, view, listed}
use rtcom_eventlogger.Store.Refresh.{delete_rows, drop_group}
use rtcom_eventlogger.Store.Drop.{drop_group-Consistent}
use rtcom_eventlogger.Logger.{
  El, World, Kind, Outcome, crashed, failed, good, Exec, go_on, run, emit_dbus, refresh_hint,
  all_deleted,
}
use rtcom_eventlogger.Logger.Emit.{emit_dbus-Sends}
use rtcom_eventlogger.Logger.Delete.{
  silent, deleting, delete_groups, delete_by_group_uids, delete_all,
}
use rtcom_eventlogger.Logger.Delete.Success.{Good, Good-mono, go_on-Good, run-Good, deleting-Good}

-- All the groups dropped, in order.
abbrev pub drop_groups : List String → Tables → Tables
drop_groups [] t = t
drop_groups (g ∷ gs) t = drop_groups gs (drop_group g t)

drop_groups-Consistent :
    (gs : List String) (t : Tables) → Consistent t → Consistent (drop_groups gs t)
drop_groups-Consistent [] t c = c
drop_groups-Consistent (g ∷ gs) t c =
    drop_groups-Consistent gs (drop_group g t) (drop_group-Consistent g t c)

module _ (w : World) where
  injective : {a b : Tables} → ◌≡◌ {A = Option Tables} (some a) (some b) → a ≡ b
  injective p = cc

  delete_groups-Good :
      (gs : List String) (el : El)
      → Good
          (λ _ el'. el'.db.core.tables ≡ drop_groups gs el.db.core.tables)
          (delete_groups w gs el)
  unfolding delete_groups
  delete_groups-Good [] el = refl
  delete_groups-Good (g ∷ gs) el =
      let f = λ (t : Tables). delete_events (in_group g) t in
      let h = λ (t : Tables). delete_rows (is_for g) t in
      go_on-Good _ _ _ (run w (λ t. some (f t)) el) (run-Good w (λ t. some (f t)) el)
        (λ _ el1 (ran1, _).
          go_on-Good _ _ _ (run w (λ t. some (h t)) el1) (run-Good w (λ t. some (h t)) el1)
            (λ _ el2 (ran2, _).
              subst
                (λ z.
                  Good (λ _ el'. el'.db.core.tables ≡ drop_groups gs z) (delete_groups w gs el2))
                (sym (injective ran2) ∙ ap h (sym (injective ran1))) (delete_groups-Good gs el2)))

  -- The signal after a deletion, whatever the bus does.
  pub announced :
      (P : Tables → Type 0) (kind : Kind) (service : Option String) (r : Outcome (Unit {0}) × El)
      → Good (λ _ el'. P (committed el'.db.core) × (el'.db.core.autocommit ≡ true)) r
      → Good
          (λ _ el'. P (committed el'.db.core))
          (go_on (λ _. emit_dbus w kind none service) (silent r))
  announced P kind service (crashed, el) h = tt
  announced P kind service (failed e, el) h = tt
  announced P kind service (good a, el) h =
      let (ok, core, sends) = emit_dbus-Sends w kind none service el h.1 in
      of_good (emit_dbus w kind none service el) ok (subst (λ c. P (committed c)) (sym core) h.0)
    where
      of_good :
          (r : Outcome (Unit {0}) × El)
          → r.0 ≡ good tt
          → P (committed r.1.db.core)
          → Good (λ _ el'. P (committed el'.db.core)) r
      of_good (crashed, el') g q = tt
      of_good (failed e, el') g q = tt
      of_good (good a, el') g q = q

  -- With no transaction open: where `rtcom_el_delete_by_group_uids` returns TRUE, the events of the
  -- groups, with their headers and attachments, and the groups' rows of GroupCache are gone from the
  -- committed tables, and nothing else is.
  pub delete_by_group_uids-Good :
      (gs : List String) (el : El)
      → el.db.core.autocommit ≡ true
      → Good
          (λ _ el'. committed el'.db.core ≡ drop_groups gs el.db.core.tables)
          (delete_by_group_uids w gs el)
  unfolding delete_by_group_uids
  delete_by_group_uids-Good gs el alone =
      announced (λ t. t ≡ drop_groups gs el.db.core.tables) refresh_hint none
        (deleting w (delete_groups w gs) el)
        (deleting-Good w (delete_groups w gs) (λ t t'. t' ≡ drop_groups gs t)
          (delete_groups-Good gs) el alone)

  -- With no transaction open, and a cache that counts the events of each group: where
  -- `rtcom_el_delete_by_group_uids` returns TRUE, the committed cache still does.
  pub delete_by_group_uids-Consistent :
      (gs : List String) (el : El)
      → el.db.core.autocommit ≡ true
      → Consistent el.db.core.tables
      → Good (λ _ el'. Consistent (committed el'.db.core)) (delete_by_group_uids w gs el)
  delete_by_group_uids-Consistent gs el alone c =
      Good-mono (λ el'. committed el'.db.core ≡ drop_groups gs el.db.core.tables) _
        (delete_by_group_uids w gs el)
        (λ el' h. subst Consistent (sym h) (drop_groups-Consistent gs el.db.core.tables c))
        (delete_by_group_uids-Good gs el alone)

  deleted_all : (t : Tables) → (delete_events (λ _. true) t).events ≡ []
  unfolding delete_events
  deleted_all t = none_left t.events
    where
      none_left : (es : List EventRow) → keep (λ _. not true) es ≡ []
      none_left [] = refl
      none_left (e ∷ es) = none_left es

  cache_stays : (t : Tables) → (delete_events (λ _. true) t).group_cache ≡ t.group_cache
  unfolding delete_events
  cache_stays t = refl

  not-Consistent :
      (t : Tables) (r : GroupRow) (rest : List GroupRow)
      → t.events ≡ []
      → t.group_cache ≡ r ∷ rest
      → Consistent t
      → ⊥
  not-Consistent t r rest no_events row c =
      let g = r.group_uid in
      let seen =
        subst (λ es. view g (r ∷ rest) ≡ listed (aggregate (members g es))) no_events
          (subst (λ rows. view g rows ≡ listed (aggregate (members g t.events))) row
            (c.tracks g)) in
      nothing (rw (same_refl g) at seen)
    where
      nothing : {A : Type 0} {x : A} {xs : List A} → ◌≡◌ {A = List A} (x ∷ xs) [] → ⊥
      nothing p = cc

  -- With no transaction open: where `rtcom_el_delete_all` returns TRUE, no event is left, and
  -- GroupCache is as it was.
  pub delete_all-Good :
      (el : El)
      → el.db.core.autocommit ≡ true
      → Good
          (λ _ el'.
            ((committed el'.db.core).events ≡ [])
            × ((committed el'.db.core).group_cache ≡ el.db.core.tables.group_cache))
          (delete_all w el)
  unfolding delete_all
  delete_all-Good el alone =
      announced (λ t. (t.events ≡ []) × (t.group_cache ≡ el.db.core.tables.group_cache)) all_deleted
        none (deleting w clear el)
        (deleting-Good w clear (λ t t'. (t'.events ≡ []) × (t'.group_cache ≡ t.group_cache))
          (λ el1.
            Good-mono
              (λ el'. some (delete_events (λ _. true) el1.db.core.tables) ≡ some el'.db.core.tables)
              _ (clear el1)
              (λ el' h. (
                ap (λ (t : Tables). t.events) (sym (injective h)) ∙ deleted_all el1.db.core.tables,
                ap (λ (t : Tables). t.group_cache) (sym (injective h))
                    ∙ cache_stays el1.db.core.tables,
              ))
              (Good-mono _ _ (clear el1) (λ el' h. h.0)
                (run-Good w (λ t. some (delete_events (λ _. true) t)) el1)))
          el alone)
    where
      clear : Exec (Unit {0})
      clear = run w (λ t. some (delete_events (λ _. true) t))

  -- With no transaction open, and a cache that has a row: where `rtcom_el_delete_all` returns TRUE,
  -- the committed cache does not count the events of each group.
  pub delete_all_stale :
      (el : El) (r : GroupRow) (rest : List GroupRow)
      → el.db.core.autocommit ≡ true
      → el.db.core.tables.group_cache ≡ r ∷ rest
      → Good (λ _ el'. ¬ Consistent (committed el'.db.core)) (delete_all w el)
  delete_all_stale el r rest alone row =
      Good-mono _ _ (delete_all w el)
        (λ el' h c. not-Consistent (committed el'.db.core) r rest h.0 (h.1 ∙ row) c)
        (delete_all-Good el alone)
