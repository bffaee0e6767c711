-- ===== src/Logger/Change/Single.antt =====
-- What an operation of src/eventlogger.c on one event does to its row, and to nothing else.
use rtcom_eventlogger.Common.{
  ℕ, zero, suc, ◌≡◌, refl, sym, ◌∙◌, ap, subst, ℤ, pos, negsuc, Bool, true, Option, none, some,
  List,
}
use rtcom_eventlogger.Db.{Core}
use rtcom_eventlogger.Store.{EventRow, Tables, update_events}
use rtcom_eventlogger.Logger.{
  El, World, Signal, Outcome, crashed, failed, good, event_updated, emit_dbus, run,
}
use rtcom_eventlogger.Logger.Emit.{SendsFrom, emit_dbus-Sends}
use rtcom_eventlogger.Logger.Single.{Unless, Unless-mono, go_on-Unless, run-Unless}
use rtcom_eventlogger.Logger.Change.{
  valid_id, has_id, with_read, update_event, change_event, set_read_event,
}

-- A number that `event_id < 1` lets through.
abbrev pub IsId : ℤ → ℕ → Type 0
IsId event_id i = (n : ℕ) × (i ≡ suc n) × (event_id ≡ pos i)

pub valid_id-Unless :
    (event_id : ℤ) (el : El)
    → Unless (λ i el'. IsId event_id i × (el' ≡ el)) el (valid_id event_id el)
valid_id-Unless (pos zero) el = (refl, refl)
valid_id-Unless (pos (suc n)) el = ((n, refl, refl), refl)
valid_id-Unless (negsuc n) el = (refl, refl)

-- The event was changed, and nothing else, and at most one EventUpdated was sent.
abbrev pub ChangedFrom : Core Tables → List Signal → ℕ → (EventRow → EventRow) → El → Type 0
ChangedFrom core sent i f el' =
    (el'.db.core ≡ record core { tables = update_events (has_id i) f core.tables })
    × SendsFrom event_updated (some i) none sent el'

abbrev pub Changed : El → ℕ → (EventRow → EventRow) → El → Type 0
Changed el i f el' = ChangedFrom el.db.core el.sent i f el'

module _ (w : World) where
  pub change_event-Changed :
      (i : ℕ) (f : EventRow → EventRow) (el : El)
      → el.db.core.autocommit ≡ true
      → Unless (λ _ el'. Changed el i f el') el (change_event w i f el)
  change_event-Changed i f el alone =
      go_on-Unless _ _ el _ (run w (update_event i f) el) (run-Unless w (update_event i f) el alone)
        (λ _ el1 (t, ran, core1, sent1).
          let (ok, core2, sends) =
            emit_dbus-Sends w event_updated (some i) none el1
              (ap (λ (c : Core Tables). c.autocommit) core1 ∙ alone) in
          let el2 = (emit_dbus w event_updated (some i) none el1).1 in
          of_good el (emit_dbus w event_updated (some i) none el1) ok (
            core2
                ∙ core1
                ∙ ap (λ (z : Tables). record el.db.core { tables = z }) (sym (injective ran)),
            subst (λ z. SendsFrom event_updated (some i) none z el2) sent1 sends,
          ))
    where
      injective : {a b : Tables} → ◌≡◌ {A = Option Tables} (some a) (some b) → a ≡ b
      injective p = cc

      of_good :
          (el0 : El) (r : Outcome (Unit {0}) × El)
          → r.0 ≡ good tt
          → Changed el i f r.1
          → Unless (λ _ el'. Changed el i f el') el r
      of_good el0 (good u, el') h c = c
      of_good el0 (failed e, el') h c = cc
      of_good el0 (crashed, el') h c = cc

  pub set_read_event-Changed :
      (event_id : ℤ) (read : Bool) (el : El)
      → el.db.core.autocommit ≡ true
      → Unless
          (λ _ el'. (i : ℕ) × IsId event_id i × Changed el i (with_read read) el')
          el
          (set_read_event w event_id read el)
  unfolding set_read_event
  set_read_event-Changed event_id read el alone =
      go_on-Unless (λ i el'. IsId event_id i × (el' ≡ el)) _ el _ (valid_id event_id el)
        (valid_id-Unless event_id el)
        (λ i el1 (ok, same).
          subst
            (λ z.
              Unless (λ _ el'. (i : ℕ) × IsId event_id i × Changed el i (with_read read) el') el
                (change_event w i (with_read read) z))
            (sym same)
            (Unless-mono _ _ el (change_event w i (with_read read) el)
              (λ _ el' changed. (i, ok, changed))
              (change_event-Changed i (with_read read) el alone)))
