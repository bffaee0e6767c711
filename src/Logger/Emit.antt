-- ===== src/Logger/Emit.antt =====
-- `_emit_dbus` of src/eventlogger.c: the message and the database.
use rtcom_eventlogger.Common.{
  ℕ, suc, ltb, ◌≡◌, refl, ◌⊎◌, inl, inr, Bool, true, false, Option, none, some, List, [], ◌∷◌,
  String, Bool-cases, keep, ◌==◌, if◌then◌else◌,
}
use rtcom_eventlogger.Db.{Fault, Status, Db, Core, code, after_failure}
use rtcom_eventlogger.Store.{Tables}
use rtcom_eventlogger.Logger.{
  no_data, El, World, Signal, Kind, new_event, event_updated, event_deleted, all_deleted,
  refresh_hint, good, BusData, or_empty, is_ok, bus_row, bus_step, get_events_dbus_data, data_at,
  bus_data, emit_dbus,
}

-- At most one message of the kind was sent, over those of before.
abbrev pub SendsFrom : Kind → Option ℕ → Option String → List Signal → El → Type 0
SendsFrom kind i service before el' =
    (el'.sent ≡ before)
    ⊎ ((s : Signal) × (s.kind ≡ kind)
        × (s.event_id ≡ i)
        × (s.service ≡ or_empty service)
        × (el'.sent ≡ s ∷ before))

abbrev pub Sends : Kind → Option ℕ → Option String → El → El → Type 0
Sends kind i service el el' = SendsFrom kind i service el.sent el'

either :
    (b : Bool) (x y : BusData × Db Tables) (c : Core Tables)
    → x.1.core ≡ c
    → y.1.core ≡ c
    → (if b then x else y).1.core ≡ c
either true x y c p q = p
either false x y c p q = q

module _ (w : World) where
  after_failure-alone :
      (s : Status) (db : Db Tables)
      → db.core.autocommit ≡ true
      → (after_failure w.env s db).core ≡ db.core
  after_failure-alone s db h = rw h refl

  bus_step-alone :
      (o : Option BusData) (rs : List (Fault × ℕ)) (db : Db Tables)
      → db.core.autocommit ≡ true
      → (bus_step w o rs db).1.core ≡ db.core
  bus_step-alone o [] db h = refl
  bus_step-alone o ((f, n) ∷ rs) db h = after_failure-alone (code f) db h

  dbus_data-alone :
      (i : ℕ) (db : Db Tables)
      → db.core.autocommit ≡ true
      → (get_events_dbus_data w i db).1.core ≡ db.core
  dbus_data-alone i db h =
      either (is_ok (w.env.prepare db.clock)) _ _ db.core
        (bus_step-alone (bus_row db.core.tables (keep (λ e. e.id == i) db.core.tables.events))
          (w.env.refusals (suc db.clock)) (record db { errcode = Status.ok; clock = suc db.clock })
          h)
        (after_failure-alone (w.env.prepare db.clock) db h)

  alone_at :
      (i : Option ℕ) (db : Db Tables)
      → db.core.autocommit ≡ true
      → (data_at w i db).1.core ≡ db.core
  alone_at none db h = refl
  alone_at (some i) db h = either (ltb 0 i) _ (no_data, db) db.core (dbus_data-alone i db h) refl

  bus_data-alone :
      (kind : Kind) (i : Option ℕ) (db : Db Tables)
      → db.core.autocommit ≡ true
      → (bus_data w kind i db).1.core ≡ db.core
  bus_data-alone new_event i db h = alone_at i db h
  bus_data-alone event_updated i db h = alone_at i db h
  bus_data-alone event_deleted i db h = refl
  bus_data-alone all_deleted i db h = alone_at i db h
  bus_data-alone refresh_hint i db h = alone_at i db h

  -- With no transaction open: a success, at most one message, and the database is as it was.
  pub emit_dbus-Sends :
      (kind : Kind) (i : Option ℕ) (service : Option String) (el : El)
      → el.db.core.autocommit ≡ true
      → let r = emit_dbus w kind i service el in
        (r.0 ≡ good tt) × (r.1.db.core ≡ el.db.core) × Sends kind i service el r.1
  unfolding emit_dbus
  emit_dbus-Sends kind i service el h =
      let (d, db) = bus_data w kind i el.db in
      (
        refl,
        bus_data-alone kind i el.db h,
        elim (Bool-cases (w.bus db.clock)) [
          | inl e ↦ rw e (inr (_, refl, refl, refl, refl))
          | inr e ↦ rw e (inl refl)
        ],
      )
