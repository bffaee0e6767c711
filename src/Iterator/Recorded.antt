-- ===== src/Iterator/Recorded.antt =====
-- The row that `_add_event_core` of src/eventlogger.c has inserted, as src/eventlogger-iter.c finds and
-- reads it.
use rtcom_eventlogger.Common.{
  ℕ, ◌==◌, ◌≡◌, refl, sym, ap, subst, ◌∙◌, ℤ, pos, Bool, true, false, Option, none, some, List, ◌∷◌,
  String, keep, max, arith, if◌then◌else◌,
}
use rtcom_eventlogger.Event.{Field, Event, is_set, local_uid, remote_uid}
use rtcom_eventlogger.Store.{
  EventRow, RemoteRow, GroupRow, Tables, max_id, next_id, cache_insert, with_row, insert_event,
}
use rtcom_eventlogger.Logger.{El, lookup_id, is_remote}
use rtcom_eventlogger.Logger.Add.{event_row}
use rtcom_eventlogger.Logger.Add.Checked.{IsKnown}
use rtcom_eventlogger.Logger.Add.Commit.{event_row-id}
use rtcom_eventlogger.Iterator.{Joined}
use rtcom_eventlogger.Iterator.Stored.{
  first_of, IsJoined, IsContact, contact_after, joined-IsContact,
}
use rtcom_eventlogger.Logger.Add.Refreshed.{RemotesAfter}
use rtcom_eventlogger.Iterator.RoundTrip.{Holds}
use rtcom_eventlogger.Iterator.Same.{SameStored, IsBoolean, of_Holds}

-- Names of services or event types with the same id are the same: an id is a PRIMARY KEY.
abbrev pub HasOneName : List (String × ℕ) → Type 0
HasOneName names =
    (a b : String) (i : ℕ) → lookup_id a names ≡ some i → lookup_id b names ≡ some i → a ≡ b

-- The new row is the newest.
insert_event-first :
    (new : ℕ → EventRow) (t t1 : Tables)
    → insert_event new t ≡ some t1
    → t1.events ≡ new (next_id t.events) ∷ t.events
unfolding insert_event
insert_event-first new t t1 ran = of_cache (cache_insert (new (next_id t.events)) t.group_cache) ran
  where
    of_cache :
        (o : Option (List GroupRow))
        → with_row (new (next_id t.events)) t o ≡ some t1
        → t1.events ≡ new (next_id t.events) ∷ t.events
    of_cache none h = cc
    of_cache (some c) h = ap (λ (x : Tables). x.events) (sym (injective h))
      where
        injective : {a b : Tables} → ◌≡◌ {A = Option Tables} (some a) (some b) → a ≡ b
        injective p = cc

-- The row of the new id is the new row.
new_row :
    (row : EventRow) (es es1 : List EventRow) (i : ℕ) (e : EventRow)
    → row.id ≡ next_id es
    → es1 ≡ row ∷ es
    → i ≡ max_id es1
    → first_of (keep (λ x. x.id == i) es1) ≡ some e
    → (e ≡ row) × (i ≡ row.id)
new_row row es es1 i e id made newest found =
    let same_id = newest ∙ ap max_id made ∙ top in
    (
      injective (
          sym found
          ∙ ap (λ z. first_of (keep (λ x. x.id == i) z)) made
          ∙ here (row.id == i) (ground (arith, same_id))),
      same_id,
    )
  where
    top : max row.id (max_id es) ≡ row.id
    top = ground (arith, id)

    here :
        (b : Bool)
        → b ≡ true
        → first_of (if b then row ∷ keep (λ x. x.id == i) es else keep (λ x. x.id == i) es)
          ≡ some row
    here true h = refl
    here false h = cc

    injective : {a b : EventRow} → ◌≡◌ {A = Option EventRow} (some a) (some b) → a ≡ b
    injective p = cc

-- The name of the row's service or type is the name the event was checked with.
same_name :
    (names : List (String × ℕ)) (o : Option String) (name : String) (i k : ℕ)
    → HasOneName names
    → IsKnown o names i
    → lookup_id name names ≡ some k
    → k ≡ i
    → o ≡ some name
same_name names o name i k one (n, is_n, found) there same =
    is_n ∙ ap some (one n name i found (there ∙ ap some same))

-- The contact of the row is the contact of the event.
row-IsContact :
    (ev : Event) (s t : ℕ) (time : ℤ) (last : Option String) (n : ℕ) (e : EventRow)
    (o : Option RemoteRow) (rs rs' : List RemoteRow)
    → ((f : Field) → is_set ev f ≡ true)
    → e ≡ event_row ev s t time last n
    → RemotesAfter ev rs rs'
    → o ≡ first_of (keep (is_remote e.remote_uid e.local_uid) rs')
    → IsContact ev rs o
unfolding event_row
row-IsContact ev s t time last n e o rs rs' all row after at_first =
    subst (IsContact ev rs) (sym (at_first ∙ at_uids))
      (joined-IsContact ev rs rs' (all remote_uid) after)
  where
    txt : (f : Field) (x : Option String) → (if is_set ev f then x else none) ≡ x
    txt f x = ap (λ b. if b then x else none) (all f)

    at_uids :
        first_of (keep (is_remote e.remote_uid e.local_uid) rs')
        ≡ first_of (keep (is_remote ev.fld_remote_uid ev.fld_local_uid) rs')
    at_uids =
        ap (λ x. first_of (keep (is_remote x e.local_uid) rs'))
          (ap (λ (x : EventRow). x.remote_uid) row ∙ txt remote_uid ev.fld_remote_uid)
        ∙ ap (λ x. first_of (keep (is_remote ev.fld_remote_uid x) rs'))
            (ap (λ (x : EventRow). x.local_uid) row ∙ txt local_uid ev.fld_local_uid)

row_ids :
    (ev : Event) (s t : ℕ) (time : ℤ) (last : Option String) (n : ℕ)
    → ((event_row ev s t time last n).service_id ≡ s)
      × ((event_row ev s t time last n).event_type_id ≡ t)
unfolding event_row
row_ids ev s t time last n = (refl, refl)

-- What is read at the row of a checked event that was recorded.
pub of_Recorded :
    (ev : Event) (s t : ℕ) (time : ℤ) (last : Option String) (i : ℕ) (before t1 : Tables)
    (rs : List RemoteRow) (el : El) (j : Joined) (read : Event)
    → ((f : Field) → is_set ev f ≡ true)
    → IsBoolean ev.fld_is_read
    → IsBoolean ev.fld_outgoing
    → IsKnown ev.fld_service el.services s
    → IsKnown ev.fld_event_type el.event_types t
    → HasOneName el.services
    → HasOneName el.event_types
    → insert_event (event_row ev s t time last) before ≡ some t1
    → i ≡ max_id t1.events
    → RemotesAfter ev before.remotes rs
    → IsJoined el (record t1 { remotes = rs }) i j
    → Holds j read
    → (read.fld_id ≡ pos i) × SameStored ev (contact_after ev before.remotes) read
of_Recorded ev s t time last i before t1 rs el j read all seen out in_service of_type one_service
      one_type inserted newest after joined h =
    let n = next_id before.events in
    let (row, same_id) =
      new_row (event_row ev s t time last n) before.events t1.events i j.event
        (event_row-id ev s t time last n)
        (insert_event-first (event_row ev s t time last) before t1 inserted) newest
        joined.at_event in
    let (same, stored) =
      of_Holds ev read (contact_after ev before.remotes) s t time last n j all seen out row
        (same_name el.services ev.fld_service j.service s j.event.service_id one_service in_service
          joined.of_service
          (ap (λ (e : EventRow). e.service_id) row ∙ (row_ids ev s t time last n).0))
        (same_name el.event_types ev.fld_event_type j.event_type t j.event.event_type_id one_type
          of_type joined.of_type
          (ap (λ (e : EventRow). e.event_type_id) row ∙ (row_ids ev s t time last n).1))
        (row-IsContact ev s t time last n j.event j.remote before.remotes rs all row after
          joined.of_remote)
        h in
    (same ∙ ap pos (sym (same_id ∙ event_row-id ev s t time last n)), stored)
