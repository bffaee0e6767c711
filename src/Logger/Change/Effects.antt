-- ===== src/Logger/Change/Effects.antt =====
-- What the operations on one event (src/eventlogger.c) do to the tables, with no transaction open.
use rtcom_eventlogger.Common.{
  ℕ, ◌≡◌, refl, sym, ◌∙◌, ap, subst, ℤ, Bool, true, Option, none, some, String,
}
use rtcom_eventlogger.Db.{Core}
use rtcom_eventlogger.Db.Exec.{feed}
use rtcom_eventlogger.Store.{EventRow, Tables}
use rtcom_eventlogger.Store.Cache.{Consistent}
use rtcom_eventlogger.Store.Update.{KeepsGroup, update_events-Consistent}
use rtcom_eventlogger.Logger.{El, World, Outcome, crashed, failed, good, Exec, go_on, ◌>>=◌, select}
use rtcom_eventlogger.Logger.Single.{Unless, Unless-mono, go_on-Unless, select-Unless}
use rtcom_eventlogger.Logger.Change.{
  valid_id, has_id, with_read, with_flag, without_flag, single_int, flag_values, or_none,
  or_invalid, get_flag_value, change_event, set_read_event, set_event_flag, unset_event_flag,
}
use rtcom_eventlogger.Logger.Change.Single.{
  IsId, valid_id-Unless, ChangedFrom, Changed, change_event-Changed, set_read_event-Changed,
}

-- The event got `f v`, for the value `v` of the flag.
abbrev pub Flagged : (ℕ → EventRow → EventRow) → ℤ → String → El → El → Type 0
Flagged f event_id flag el el' =
    (i : ℕ) × (v : ℕ) × IsId event_id i
    × (feed single_int none (flag_values flag el.db.core.tables) ≡ some v)
    × Changed el i (f v) el'

module _ (w : World) where
  get_flag_value-Unless :
      (flag : String) (el : El)
      → el.db.core.autocommit ≡ true
      → Unless
          (λ o el'.
            ((v : ℕ)
              → o ≡ some v
              → feed single_int none (flag_values flag el.db.core.tables) ≡ some v)
            × (el'.db.core ≡ el.db.core)
            × (el'.sent ≡ el.sent))
          el
          (get_flag_value w flag el)
  unfolding get_flag_value
  get_flag_value-Unless flag el alone =
      caught (select w single_int none (flag_values flag) el)
        (select-Unless w single_int none (flag_values flag) el alone)
    where
      caught :
          (r : Outcome (Option ℕ) × El)
          → Unless
              (λ a el'.
                (a ≡ feed single_int none (flag_values flag el.db.core.tables))
                × (el'.db.core ≡ el.db.core)
                × (el'.sent ≡ el.sent))
              el
              r
          → Unless
              (λ o el'.
                ((v : ℕ)
                  → o ≡ some v
                  → feed single_int none (flag_values flag el.db.core.tables) ≡ some v)
                × (el'.db.core ≡ el.db.core)
                × (el'.sent ≡ el.sent))
              el
              (or_none r)
      caught (good a, el') h = (λ v e. sym h.0 ∙ e, h.1, h.2)
      caught (failed e, el') h = (λ v e. cc, h.0, h.1)
      caught (crashed, el') h = (h.0, h.1)

  or_invalid-Unless :
      (o : Option ℕ) (el : El) → Unless (λ v el'. (o ≡ some v) × (el' ≡ el)) el (or_invalid o el)
  or_invalid-Unless none el = (refl, refl)
  or_invalid-Unless (some v) el = (refl, refl)

  moved :
      {A : Type 0} (R : A → El → Type 0) (el el1 : El) (r : Outcome A × El)
      → el1.db.core ≡ el.db.core
      → el1.sent ≡ el.sent
      → Unless R el1 r
      → Unless R el r
  moved R el el1 (good a, el') c s h = h
  moved R el el1 (failed e, el') c s h = (h.0 ∙ c, h.1 ∙ s)
  moved R el el1 (crashed, el') c s h = (h.0 ∙ c, h.1 ∙ s)

  flag_event : (f : ℕ → EventRow → EventRow) → ℤ → String → Exec (Unit {0})
  flag_event f event_id flag = do
    i ← valid_id event_id
    value ← get_flag_value w flag
    v ← or_invalid value
    change_event w i (f v)

  flag_event-Flagged :
      (f : ℕ → EventRow → EventRow) (event_id : ℤ) (flag : String) (el : El)
      → el.db.core.autocommit ≡ true
      → Unless (λ _ el'. Flagged f event_id flag el el') el (flag_event f event_id flag el)
  unfolding flag_event
  flag_event-Flagged f event_id flag el alone =
      go_on-Unless _ _ el _ (valid_id event_id el) (valid_id-Unless event_id el)
        (λ i el1 (ok, same1).
          subst
            (λ z.
              Unless (λ _ el'. Flagged f event_id flag el el') el
                (go_on (λ o. or_invalid o >>= λ v. change_event w i (f v))
                  (get_flag_value w flag z)))
            (sym same1)
            (go_on-Unless _ _ el _ (get_flag_value w flag el) (get_flag_value-Unless flag el alone)
              (λ o el2 (value, core2, sent2).
                moved (λ _ el'. Flagged f event_id flag el el') el el2 _ core2 sent2
                  (go_on-Unless _ (λ _ el'. Flagged f event_id flag el el') el2 _ (or_invalid o el2)
                    (or_invalid-Unless o el2)
                    (λ v el3 (is_v, same3).
                      subst
                        (λ z.
                          Unless (λ _ el'. Flagged f event_id flag el el') el2
                            (change_event w i (f v) z))
                        (sym same3)
                        (Unless-mono _ _ el2 (change_event w i (f v) el2)
                          (λ _ el' changed. (
                            i,
                            v,
                            ok,
                            value v is_v,
                            subst (λ c. ChangedFrom c el.sent i (f v) el') core2
                                (subst (λ z. ChangedFrom el2.db.core z i (f v) el') sent2 changed),
                          ))
                          (change_event-Changed w i (f v) el2
                            (ap (λ (c : Core Tables). c.autocommit) core2 ∙ alone))))))))

  -- With no transaction open, `rtcom_el_set_event_flag` sets the bits of the flag in the event with
  -- the id, `rtcom_el_unset_event_flag` clears them; both leave all else alone, send at most one
  -- EventUpdated, and change nothing where they fail.
  pub set_event_flag-Flagged :
      (event_id : ℤ) (flag : String) (el : El)
      → el.db.core.autocommit ≡ true
      → Unless
          (λ _ el'. Flagged with_flag event_id flag el el')
          el
          (set_event_flag w event_id flag el)
        × Unless
            (λ _ el'. Flagged without_flag event_id flag el el')
            el
            (unset_event_flag w event_id flag el)
  unfolding set_event_flag unset_event_flag flag_event
  set_event_flag-Flagged event_id flag el alone = (
    flag_event-Flagged with_flag event_id flag el alone,
    flag_event-Flagged without_flag event_id flag el alone,
  )

  change_event-Consistent :
      (i : ℕ) (f : EventRow → EventRow) (el el' : El)
      → KeepsGroup f
      → Consistent el.db.core.tables
      → Changed el i f el'
      → Consistent el'.db.core.tables
  change_event-Consistent i f el el' k c (core, _) =
      subst (λ (z : Core Tables). Consistent z.tables) (sym core)
        (update_events-Consistent (has_id i) f k el.db.core.tables c)

  Consistent-of_Unless :
      {A : Type 0} (Q : A → El → Type 0) (el : El) (r : Outcome A × El)
      → Consistent el.db.core.tables
      → ((a : A) (el' : El) → Q a el' → Consistent el'.db.core.tables)
      → Unless Q el r
      → Consistent r.1.db.core.tables
  Consistent-of_Unless Q el (good a, el') c next h = next a el' h
  Consistent-of_Unless Q el (failed e, el') c next h =
      subst (λ (z : Core Tables). Consistent z.tables) (sym h.0) c
  Consistent-of_Unless Q el (crashed, el') c next h =
      subst (λ (z : Core Tables). Consistent z.tables) (sym h.0) c

  -- With no transaction open, reading an event and setting or unsetting its flags, whether it works
  -- or not, leaves a cache that counts the events of each group if it found one.
  pub changes-Consistent :
      (event_id : ℤ) (read : Bool) (flag : String) (el : El)
      → el.db.core.autocommit ≡ true
      → Consistent el.db.core.tables
      → Consistent (set_read_event w event_id read el).1.db.core.tables
        × Consistent (set_event_flag w event_id flag el).1.db.core.tables
        × Consistent (unset_event_flag w event_id flag el).1.db.core.tables
  changes-Consistent event_id read flag el alone c =
      let (sets, unsets) = set_event_flag-Flagged event_id flag el alone in
      (
        Consistent-of_Unless _ el (set_read_event w event_id read el) c
            (λ _ el' (i, ok, changed).
              change_event-Consistent i (with_read read) el el'
                (record { same_id = λ e. refl; same_service = λ e. refl; same_group = λ e. refl }) c
                changed)
            (set_read_event-Changed w event_id read el alone),
        Consistent-of_Unless _ el (set_event_flag w event_id flag el) c
            (λ _ el' (i, v, ok, is_v, changed).
              change_event-Consistent i (with_flag v) el el'
                (record { same_id = λ e. refl; same_service = λ e. refl; same_group = λ e. refl }) c
                changed)
            sets,
        Consistent-of_Unless _ el (unset_event_flag w event_id flag el) c
            (λ _ el' (i, v, ok, is_v, changed).
              change_event-Consistent i (without_flag v) el el'
                (record { same_id = λ e. refl; same_service = λ e. refl; same_group = λ e. refl }) c
                changed)
            unsets,
      )
