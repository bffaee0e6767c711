-- ===== src/Logger/Add/Commit.antt =====
-- `rtcom_el_add_event` of src/eventlogger.c from outside: the database and the bus after it, whatever
-- SQLite does.
use rtcom_eventlogger.Common.{
  ℕ, ltb, ◌≡◌, ◌≢◌, refl, sym, ◌∙◌, ap, subst, inl, Bool, true, false, Option, some, List, String,
  ℤ, if◌then◌else◌,
}
use rtcom_eventlogger.Event.{Event, is_set, group_uid}
use rtcom_eventlogger.Db.{Core, off}
use rtcom_eventlogger.Db.Transaction.{committed}
use rtcom_eventlogger.Store.{RemoteRow, Tables}
use rtcom_eventlogger.Store.Cache.{Consistent}
use rtcom_eventlogger.Store.Insert.{insert_event-Consistent}
use rtcom_eventlogger.Logger.{
  El, World, Signal, new_event, Outcome, crashed, failed, good, pure, go_on, emit_dbus, begin,
  committing,
}
use rtcom_eventlogger.Logger.Holds.{
  Inside, Outside, SameMemo, Holds, Ends, go_on-Ends, go_on-Holds-Ends, begin-Holds,
  committing-Ends, looks-Ends,
}
use rtcom_eventlogger.Logger.Emit.{Sends, SendsFrom, emit_dbus-Sends}
use rtcom_eventlogger.Logger.Add.{
  add_event_precheck, event_row, note_group, add_event_core, add_event,
}
use rtcom_eventlogger.Logger.Add.Inside.{Recorded, core-Holds, precheck-looks}

pub announced :
    (w : World) (b : Bool) (i : ℕ) (service : Option String) (el : El)
    → el.db.core.autocommit ≡ true
    → let r =
        go_on (λ _. pure i) ((if b then emit_dbus w new_event (some i) service else pure tt) el) in
      (r.0 ≡ good i) × (r.1.db.core ≡ el.db.core) × Sends new_event (some i) service el r.1
announced w false i service el h = (refl, refl, inl refl)
announced w true i service el h =
    sent_on (emit_dbus w new_event (some i) service el)
      (emit_dbus-Sends w new_event (some i) service el h)
  where
    sent_on :
        (r : Outcome (Unit {0}) × El)
        → (r.0 ≡ good tt) × (r.1.db.core ≡ el.db.core) × Sends new_event (some i) service el r.1
        → let r' = go_on (λ _. pure i) r in
          (r'.0 ≡ good i) × (r'.1.db.core ≡ el.db.core) × Sends new_event (some i) service el r'.1
    sent_on (good x, el') h = (refl, h.1, h.2)
    sent_on (failed e, el') h = cc
    sent_on (crashed, el') h = cc

pub Ends-of_good :
    (w : World) (base : Tables) (signals : List Signal) {A : Type 0} (R : A → El → Type 0) (a : A)
    (r : Outcome A × El)
    → r.0 ≡ good a
    → R a r.1
    → Ends w base signals R r
Ends-of_good w base signals {A} R a (good b, el) h q = subst (λ x. R x el) (sym (good_eq h)) q
  where
    good_eq : {x y : A} → good x ≡ good y → x ≡ y
    good_eq p = cc
Ends-of_good w base signals R a (failed e, el) h q = cc
Ends-of_good w base signals R a (crashed, el) h q = cc

-- What a caller of `rtcom_el_add_event` gets.
abbrev pub Added : World → Event → El → Outcome ℕ × El → Type 0
Added w ev el (good i, el') =
    (ev' : Event) × (service_id : ℕ) × (event_type_id : ℕ) × (add_event_precheck ev el
      ≡ (good (ev', service_id, event_type_id), el))
    × Recorded ev' service_id event_type_id (note_group w ev' el).last_group_uid
        (committed el.db.core) i (committed el'.db.core)
    × (el'.db.core.autocommit ≡ true)
    × Sends new_event (some i) ev'.fld_service el el'
Added w ev el (failed e, el') =
    (committed el'.db.core ≡ committed el.db.core) × (el'.sent ≡ el.sent)
Added w ev el (crashed, el') = (committed el'.db.core ≡ committed el.db.core) × (el'.sent ≡ el.sent)

module _ (w : World) (el : El) where
  abbrev Start : El → Type 0
  Start el2 = (el2.db.core.tables ≡ committed el.db.core) × SameMemo el el2

  -- The event is in the tables of all connections, and nothing was sent yet.
  abbrev Saved : Event → ℕ → ℕ → ℕ → El → Type 0
  Saved ev service_id event_type_id i el' =
      Recorded ev service_id event_type_id (note_group w ev el).last_group_uid
        (committed el.db.core) i (committed el'.db.core)
      × (el'.db.core.autocommit ≡ true)
      × (el'.sent ≡ el.sent)

  committing-Saved :
      (ev : Event) (service_id event_type_id : ℕ) (el2 : El)
      → Inside w (committed el.db.core) el.sent el2
      → Start el2
      → Ends w
          (committed el.db.core)
          el.sent
          (Saved ev service_id event_type_id)
          (committing w (add_event_core w ev service_id event_type_id) el2)
  committing-Saved ev s t el2 i2 (tables2, memo2) =
      committing-Ends w (committed el.db.core) el.sent
        (λ i el3.
          Recorded ev s t (note_group w ev el).last_group_uid (committed el.db.core) i
            el3.db.core.tables)
        _ (add_event_core w ev s t) el2
        (core-Holds w (committed el.db.core) el.sent ev s t _ el2 i2 (λ i t' rec el3 i3 memo3 same3.
          subst
            (λ l.
              Recorded ev s t (if is_set ev group_uid then ev.fld_group_uid else l)
                (committed el.db.core) i el3.db.core.tables)
            memo2.0
            (subst
              (λ z. Recorded ev s t (note_group w ev el2).last_group_uid z i el3.db.core.tables)
              tables2
              (subst
                (λ z. Recorded ev s t (note_group w ev el2).last_group_uid el2.db.core.tables i z)
                (sym same3) rec))))
        (λ i el3 el4 rec memo4 core4 sent3. (
          subst
              (λ c.
                Recorded ev s t (note_group w ev el).last_group_uid (committed el.db.core) i
                  (committed c))
              (sym core4) rec,
          ap (λ (c : Core Tables). c.autocommit) core4,
          memo4.1 ∙ sent3,
        ))

  announced-Added :
      (ev ev' : Event) (service_id event_type_id i : ℕ) (el4 : El)
      → add_event_precheck ev el ≡ (good (ev', service_id, event_type_id), el)
      → Saved ev' service_id event_type_id i el4
      → Ends w
          (committed el.db.core)
          el.sent
          (λ j el'. Added w ev el (good j, el'))
          (go_on
            (λ _. pure i)
            ((if ltb 0 i then emit_dbus w new_event (some i) ev'.fld_service else pure tt) el4))
  announced-Added ev ev' s t i el4 pre (rec, alone, sent4) =
      let (good_i, core5, sends) = announced w (ltb 0 i) i ev'.fld_service el4 alone in
      Ends-of_good w (committed el.db.core) el.sent _ i _ good_i (
        ev',
        s,
        t,
        pre,
        subst
            (λ c.
              Recorded ev' s t (note_group w ev' el).last_group_uid (committed el.db.core) i
                (committed c))
            (sym core5) rec,
        ap (λ (c : Core Tables). c.autocommit) core5 ∙ alone,
        subst
            (λ z.
              SendsFrom new_event (some i) ev'.fld_service z
                (go_on (λ _. pure i)
                  ((if ltb 0 i then emit_dbus w new_event (some i) ev'.fld_service else pure tt)
                    el4)).1)
            sent4 sends,
      )

  Added-of_Ends :
      (ev : Event) (r : Outcome ℕ × El)
      → Ends w (committed el.db.core) el.sent (λ i el'. Added w ev el (good i, el')) r
      → Added w ev el r
  Added-of_Ends ev (good i, el') h = h
  Added-of_Ends ev (failed e, el') h = (h.0.0, h.1)
  Added-of_Ends ev (crashed, el') h = (h.0.0, h.1)

-- Whatever the engine, the clock and the bus do: where `rtcom_el_add_event` returns an id, the
-- checked event and its remote, and nothing else, are in the tables that all connections see, the
-- transaction is closed, and at most one NewEvent with that id was sent. Where it fails, at any
-- statement, at COMMIT or even at the ROLLBACK, nothing is published and nothing is sent. (It is
-- called with a journal, and maybe inside a transaction, where it fails.)
pub add_event-Added :
    (w : World) (ev : Event) (el : El)
    → el.db.core.journal ≢ off
    → Added w ev el (add_event w ev el)
unfolding add_event
add_event-Added w ev el journal =
    let base = committed el.db.core in
    let outside : Outside w base el.sent el = ((refl, journal), refl) in
    Added-of_Ends w el ev (add_event w ev el) (
      go_on-Ends w base el.sent _ _ _ (add_event_precheck ev el)
        (looks-Ends w base el.sent (add_event_precheck ev el) el (precheck-looks ev el) outside)
        (λ (ev', service_id, event_type_id) el1 (same1, pre).
          go_on-Holds-Ends w base el.sent (λ _ el2. Start w el el2) _ _ (begin w el1)
            (subst (λ e. Holds w base el.sent (λ _ el2. Start w el el2) (begin w e)) (sym same1)
              (begin-Holds w base el.sent _ el outside (λ _ el2 _ memo tables. (tables, memo))))
            (λ _ el2 i2 start.
              go_on-Ends w base el.sent (Saved w el ev' service_id event_type_id) _ _
                (committing w (add_event_core w ev' service_id event_type_id) el2)
                (committing-Saved w el ev' service_id event_type_id el2 i2 start)
                (λ i el4 saved.
                  announced-Added w el ev ev' service_id event_type_id i el4 pre saved))))

pub event_row-id :
    (ev : Event) (service_id event_type_id : ℕ) (time : ℤ) (last : Option String) (n : ℕ)
    → (event_row ev service_id event_type_id time last n).id ≡ n
unfolding event_row
event_row-id ev service_id event_type_id time last n = refl

pub Consistent-remotes :
    (t : Tables) (rs : List RemoteRow) → Consistent t → Consistent (record t { remotes = rs })
Consistent-remotes t rs c = record { ids = c.ids; tracks = c.tracks; one_service = c.one_service }

-- Whatever happens in it, `rtcom_el_add_event` leaves tables in which GroupCache counts the events
-- of each group, if it found such tables (and a journal).
pub add_event-Consistent :
    (w : World) (ev : Event) (el : El)
    → el.db.core.journal ≢ off
    → Consistent (committed el.db.core)
    → Consistent (committed (add_event w ev el).1.db.core)
add_event-Consistent w ev el journal c =
    of_Added (add_event w ev el) (add_event-Added w ev el journal)
  where
    of_Added : (r : Outcome ℕ × El) → Added w ev el r → Consistent (committed r.1.db.core)
    of_Added (failed e, el') h = subst Consistent (sym h.0) c
    of_Added (crashed, el') h = subst Consistent (sym h.0) c
    of_Added (good i, el') (ev', s, t, pre, (time, t1, rs, ran, id, after, all), _, _) =
        subst Consistent (sym all) (
          Consistent-remotes t1 rs (
            insert_event-Consistent _ _ t1
              (event_row-id ev' s t time (note_group w ev' el).last_group_uid) c ran))
