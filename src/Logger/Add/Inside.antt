-- ===== src/Logger/Add/Inside.antt =====
-- `_add_event_core` of src/eventlogger.c, inside its transaction.
use rtcom_eventlogger.Common.{
  ℕ, ◌≡◌, refl, sym, ◌∙◌, ap, subst, Option, none, some, List, String, ℤ, arith,
}
use rtcom_eventlogger.Event.{Event}
use rtcom_eventlogger.Store.{EventRow, RemoteRow, GroupRow, Tables, max_id, with_row, insert_event}
use rtcom_eventlogger.Logger.{El, World, Signal}
use rtcom_eventlogger.Logger.Holds.{
  SameMemo, Inside, Holds, Runs, go_on-Holds, blamed-Holds, run-Holds,
}
use rtcom_eventlogger.Logger.Add.{
  add_event_precheck, event_row, note_group, store_remote, add_event_statements, add_event_core,
  insert_error,
}
use rtcom_eventlogger.Logger.Add.Refreshed.{found_remote, RemotesAfter}
use rtcom_eventlogger.Logger.Add.Remote.{existing_remote-Holds, store_remote-Holds}

-- The tables `t'` after an event was recorded in `t` with the id `i`.
abbrev pub Recorded : Event → ℕ → ℕ → Option String → Tables → ℕ → Tables → Type 0
Recorded ev service_id event_type_id last t i t' =
    (time : ℤ) × (t1 : Tables) × (rs : List RemoteRow) × (insert_event
        (event_row ev service_id event_type_id time last) t
      ≡ some t1)
    × (i ≡ max_id t1.events)
    × RemotesAfter ev t.remotes rs
    × (t' ≡ record t1 { remotes = rs })

with_row-remotes :
    (e : EventRow) (t t1 : Tables) (o : Option (List GroupRow))
    → with_row e t o ≡ some t1
    → t1.remotes ≡ t.remotes
with_row-remotes e t t1 none h = cc
with_row-remotes e t t1 (some c) h = ap remotes_of (sym (injective h))
  where
    injective : {a b : Tables} → ◌≡◌ {A = Option Tables} (some a) (some b) → a ≡ b
    injective p = cc

    remotes_of : Tables → List RemoteRow
    remotes_of x = x.remotes

insert_event-remotes :
    (new : ℕ → EventRow) (t t1 : Tables) → insert_event new t ≡ some t1 → t1.remotes ≡ t.remotes
unfolding insert_event
insert_event-remotes new t t1 h = with_row-remotes _ t t1 _ h

abbrev remotes_of : Tables → List RemoteRow
remotes_of t = t.remotes

abbrev with_remotes : List RemoteRow → Tables → Tables
with_remotes rs t = record t { remotes = rs }

abbrev Stored : Event → List RemoteRow → Tables → El → Unit {0} → El → Type 0
Stored ev before t1 el2 _ el3 =
    (rs : List RemoteRow) × RemotesAfter ev before rs
    × SameMemo el2 el3
    × (el3.db.core.tables ≡ record t1 { remotes = rs })

module _ (w : World) (base : Tables) (signals : List Signal) where
  statements-Holds :
      (ev : Event) (service_id event_type_id : ℕ) (Q : ℕ → El → Type 0) (el : El)
      → Inside w base signals el
      → ((i : ℕ) (t : Tables)
          → Recorded ev service_id event_type_id el.last_group_uid el.db.core.tables i t
          → Runs w base signals el t Q i)
      → Holds w base signals Q (add_event_statements w ev service_id event_type_id el)
  statements-Holds ev service_id event_type_id Q el h q =
      let ctx = found_remote ev el.db.core.tables.remotes in
      go_on-Holds w base signals
        (λ c el1. (c ≡ ctx) × SameMemo el el1 × (el1.db.core.tables ≡ el.db.core.tables)) Q _ _
        (existing_remote-Holds w base signals ev _ el h (λ el1 i memo same. (refl, memo, same)))
        (λ c el1 i1 (hc, memo1, same1).
          let row = event_row ev service_id event_type_id (w.now el1.db.clock) el1.last_group_uid in
          go_on-Holds w base signals
            (λ _ el2.
              (t1 : Tables) × (insert_event row el1.db.core.tables ≡ some t1)
              × SameMemo el1 el2
              × (el2.db.core.tables ≡ t1))
            Q _ _
            (run-Holds w base signals (insert_event row) _ el1 i1
              (λ t1 ran el2 i2 memo2 same2. (t1, ran, memo2, same2)))
            (λ _ el2 i2 (t1, ran, memo2, same2).
              let kept =
                ap remotes_of same2
                ∙ insert_event-remotes row el1.db.core.tables t1 ran
                ∙ ap remotes_of same1 in
              go_on-Holds w base signals (Stored ev el.db.core.tables.remotes t1 el2) Q _
                (store_remote w ev c el2)
                (subst
                  (λ x.
                    Holds w base signals (Stored ev el.db.core.tables.remotes t1 el2)
                      (store_remote w ev x el2))
                  (ap (found_remote ev) kept ∙ sym hc)
                  (store_remote-Holds w base signals ev _ el2 i2 (λ rs after el3 i3 memo3 same3. (
                    rs,
                    subst (λ z. RemotesAfter ev z rs) kept after,
                    memo3,
                    same3 ∙ ap (with_remotes rs) same2,
                  ))))
                (λ _ el3 i3 (rs, after, memo3, same3). (
                  i3,
                  q (max_id el2.db.core.tables.events) (record t1 { remotes = rs })
                      (
                        w.now el1.db.clock,
                        t1,
                        rs,
                        subst
                            (λ z.
                              insert_event
                                (event_row ev service_id event_type_id (w.now el1.db.clock) z)
                                el.db.core.tables
                              ≡ some t1)
                            memo1.0 (subst (λ z. insert_event row z ≡ some t1) same1 ran),
                        ap (λ (z : Tables). max_id z.events) same2,
                        after,
                        refl,
                      )
                      el3 i3
                      (
                        memo3.0 ∙ memo2.0 ∙ memo1.0,
                        memo3.1 ∙ memo2.1 ∙ memo1.1,
                        memo3.2 ∙ memo2.2 ∙ memo1.2,
                      )
                      same3,
                ))))

  pub core-Holds :
      (ev : Event) (service_id event_type_id : ℕ) (Q : ℕ → El → Type 0) (el : El)
      → Inside w base signals el
      → ((i : ℕ) (t : Tables)
          → Recorded ev service_id event_type_id
              (note_group w ev el).last_group_uid
              el.db.core.tables
              i
              t
          → Runs w base signals (note_group w ev el) t Q i)
      → Holds w base signals Q (add_event_core w ev service_id event_type_id el)
  unfolding add_event_core
  core-Holds ev service_id event_type_id Q el h q =
      blamed-Holds w base signals Q insert_error _
        (statements-Holds ev service_id event_type_id Q (note_group w ev el) h q)

pub precheck-looks : (ev : Event) (el : El) → (add_event_precheck ev el).1 ≡ el
unfolding add_event_precheck
precheck-looks ev el = ground arith
