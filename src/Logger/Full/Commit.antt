-- ===== src/Logger/Full/Commit.antt =====
-- `rtcom_el_add_event_full` of src/eventlogger.c from outside: the event, its attachments and its
-- headers.
use rtcom_eventlogger.Common.{
  ℕ, ltb, ◌≡◌, ◌≢◌, refl, sym, ◌∙◌, ap, subst, Bool, true, false, Option, none, some, List, String,
  if◌then◌else◌,
}
use rtcom_eventlogger.Event.{Event, is_set, group_uid}
use rtcom_eventlogger.Db.{Core, off}
use rtcom_eventlogger.Db.Transaction.{committed}
use rtcom_eventlogger.Store.{Tables}
use rtcom_eventlogger.AttachIter.{Attachment}
use rtcom_eventlogger.Logger.{
  El, World, Signal, new_event, Outcome, crashed, failed, good, pure, go_on, emit_dbus, begin,
  committing,
}
use rtcom_eventlogger.Logger.Holds.{
  SameMemo, Inside, Outside, Outside-of_Inside, Holds, go_on-Holds, Ends, go_on-Ends,
  go_on-Holds-Ends, begin-Holds, committing-Ends, looks-Ends,
}
use rtcom_eventlogger.Logger.Emit.{Sends, SendsFrom}
use rtcom_eventlogger.Logger.Add.{add_event_precheck, note_group}
use rtcom_eventlogger.Logger.Add.Inside.{Recorded, core-Holds, precheck-looks}
use rtcom_eventlogger.Logger.Add.Commit.{announced, Ends-of_good}
use rtcom_eventlogger.Logger.Attach.Place.{Files}
use rtcom_eventlogger.Logger.Full.{Headers, headers_of, add_headers, add_all, add_event_full}
use rtcom_eventlogger.Logger.Full.Kept.{
  Attached, Headed, AllStored, AllHeaded, add_attachments-Holds, add_headers-Holds,
}

-- The event, its attachments and its headers, over the tables `t` and the files `fs`.
abbrev pub Complete :
    World
    → Event
    → ℕ
    → ℕ
    → Option String
    → List Attachment
    → Option Headers
    → Tables
    → Files
    → ℕ
    → Tables
    → Files
    → Type 0
Complete w ev service_id event_type_id last atts headers t fs i t' fs' =
    (t1 : Tables) × (t2 : Tables) × (hs : Headers) × Recorded ev service_id event_type_id last t i
      t1
    × Attached w i atts t1 fs t2 fs'
    × (headers ≡ some hs)
    × Headed i hs t2 t'

-- What a caller of `rtcom_el_add_event_full` gets.
abbrev pub AddedFull :
    World → Event → Option Headers → List Attachment → El → Outcome ℕ × El → Type 0
AddedFull w ev headers atts el (good i, el') =
    (ev' : Event) × (service_id : ℕ) × (event_type_id : ℕ) × (add_event_precheck ev el
      ≡ (good (ev', service_id, event_type_id), el))
    × Complete w ev' service_id event_type_id (note_group w ev' el).last_group_uid atts headers
        (committed el.db.core) el.files i (committed el'.db.core) el'.files
    × (el'.db.core.autocommit ≡ true)
    × Sends new_event (some i) ev'.fld_service el el'
AddedFull w ev headers atts el (failed e, el') =
    (committed el'.db.core ≡ committed el.db.core) × (el'.sent ≡ el.sent)
AddedFull w ev headers atts el (crashed, el') =
    (committed el'.db.core ≡ committed el.db.core) × (el'.sent ≡ el.sent)

module _ (w : World) (ev : Event) (service_id event_type_id : ℕ) (atts : List Attachment)
    (headers : Option Headers) where
  abbrev All : Option String → Tables → Files → ℕ → El → Type 0
  All last t fs i el' =
      Complete w ev service_id event_type_id last atts headers t fs i el'.db.core.tables el'.files

  headers_of-Holds :
      (base : Tables) (signals : List Signal) (hs : Option Headers) (i : ℕ) (R : ℕ → El → Type 0)
      (el : El)
      → Inside w base signals el
      → ((h : Headers) (el' : El)
          → hs ≡ some h
          → el'.files ≡ el.files
          → Headed i h el.db.core.tables el'.db.core.tables
          → R i el')
      → Holds w base signals R (go_on (λ _. pure i) (headers_of w i hs el))
  headers_of-Holds base signals none i R el h q = Outside-of_Inside w base signals el h
  headers_of-Holds base signals (some hs) i R el h q =
      go_on-Holds w base signals (λ _ el'. AllHeaded w base signals i hs el el') R _
        (add_headers w i hs el) (add_headers-Holds w base signals i hs el h)
        (λ _ el' i' (group, sent, files, all). (i', q hs el' refl files all))

  add_all-Holds :
      (base : Tables) (signals : List Signal) (el : El)
      → Inside w base signals el
      → Holds w base signals
          (All (note_group w ev el).last_group_uid el.db.core.tables el.files)
          (add_all w ev service_id event_type_id atts headers el)
  unfolding add_all
  add_all-Holds base signals el h =
      let last = (note_group w ev el).last_group_uid in
      let t = el.db.core.tables in
      let Goal = All last t el.files in
      let Core1 : ℕ → El → Type 0 = λ i el1.
        Recorded ev service_id event_type_id last t i el1.db.core.tables × (el1.files ≡ el.files) in
      go_on-Holds w base signals Core1 Goal _ _
        (core-Holds w base signals ev service_id event_type_id Core1 el h
          (λ i t1 rec el1 i1 memo same.
            (subst (Recorded ev service_id event_type_id last t i) (sym same) rec, memo.2)))
        (λ i el1 i1 (rec, files1).
          go_on-Holds w base signals (λ _ el2. AllStored w base signals i atts el1 el2) Goal _ _
            (add_attachments-Holds w base signals i atts el1 i1)
            (λ _ el2 i2 (group, sent, attached).
              headers_of-Holds base signals headers i Goal el2 i2 (λ hs el3 some_hs files3 all. (
                el1.db.core.tables,
                el2.db.core.tables,
                hs,
                rec,
                subst (λ f. Attached w i atts el1.db.core.tables f el2.db.core.tables el3.files)
                    files1
                    (subst (Attached w i atts el1.db.core.tables el1.files el2.db.core.tables)
                      (sym files3) attached),
                some_hs,
                all,
              ))))

module _ (w : World) (ev : Event) (headers : Option Headers) (atts : List Attachment)
    (el : El) where
  abbrev Start : El → Type 0
  Start el2 = (el2.db.core.tables ≡ committed el.db.core) × SameMemo el el2

  -- Everything is in the tables of all connections, and nothing was sent yet.
  abbrev Saved : Event → ℕ → ℕ → ℕ → El → Type 0
  Saved ev' service_id event_type_id i el' =
      Complete w ev' service_id event_type_id (note_group w ev' el).last_group_uid atts headers
        (committed el.db.core) el.files i (committed el'.db.core) el'.files
      × (el'.db.core.autocommit ≡ true)
      × (el'.sent ≡ el.sent)

  committing-Saved :
      (ev' : Event) (service_id event_type_id : ℕ) (el2 : El)
      → Inside w (committed el.db.core) el.sent el2
      → Start el2
      → Ends w
          (committed el.db.core)
          el.sent
          (Saved ev' service_id event_type_id)
          (committing w (add_all w ev' service_id event_type_id atts headers) el2)
  committing-Saved ev' s t el2 i2 (tables2, memo2) =
      let base = committed el.db.core in
      let of_last = λ (l : Option String). if is_set ev' group_uid then ev'.fld_group_uid else l in
      committing-Ends w base el.sent
        (All w ev' s t atts headers (of_last el2.last_group_uid) el2.db.core.tables el2.files) _
        (add_all w ev' s t atts headers) el2
        (add_all-Holds w ev' s t atts headers base el.sent el2 i2)
        (λ i el3 el4 all memo4 core4 sent3. (
          subst
              (λ f.
                Complete w ev' s t (of_last el.last_group_uid) atts headers base f i
                  (committed el4.db.core) el4.files)
              memo2.2
              (subst
                (λ l.
                  Complete w ev' s t (of_last l) atts headers base el2.files i
                    (committed el4.db.core) el4.files)
                memo2.0
                (subst
                  (λ z.
                    Complete w ev' s t (of_last el2.last_group_uid) atts headers z el2.files i
                      (committed el4.db.core) el4.files)
                  tables2
                  (subst
                    (λ c.
                      Complete w ev' s t (of_last el2.last_group_uid) atts headers
                        el2.db.core.tables el2.files i (committed c) el4.files)
                    (sym core4)
                    (subst
                      (λ f.
                        Complete w ev' s t (of_last el2.last_group_uid) atts headers
                          el2.db.core.tables el2.files i el3.db.core.tables f)
                      (sym memo4.2) all)))),
          ap (λ (c : Core Tables). c.autocommit) core4,
          memo4.1 ∙ sent3,
        ))

  announced_files :
      (b : Bool) (i : ℕ) (service : Option String) (el4 : El)
      → (go_on
          (λ _. pure i)
          ((if b then emit_dbus w new_event (some i) service else pure tt) el4)).1.files
        ≡ el4.files
  unfolding emit_dbus
  announced_files false i service el4 = refl
  announced_files true i service el4 = refl

  announced-AddedFull :
      (ev' : Event) (service_id event_type_id i : ℕ) (el4 : El)
      → add_event_precheck ev el ≡ (good (ev', service_id, event_type_id), el)
      → Saved ev' service_id event_type_id i el4
      → Ends w
          (committed el.db.core)
          el.sent
          (λ j el'. AddedFull w ev headers atts el (good j, el'))
          (go_on
            (λ _. pure i)
            ((if ltb 0 i then emit_dbus w new_event (some i) ev'.fld_service else pure tt) el4))
  announced-AddedFull ev' s t i el4 pre (all, alone, sent4) =
      let r =
        go_on (λ _. pure i)
          ((if ltb 0 i then emit_dbus w new_event (some i) ev'.fld_service else pure tt) el4) in
      let (good_i, core5, sends) = announced w (ltb 0 i) i ev'.fld_service el4 alone in
      Ends-of_good w (committed el.db.core) el.sent _ i r good_i (
        ev',
        s,
        t,
        pre,
        subst
            (λ f.
              Complete w ev' s t (note_group w ev' el).last_group_uid atts headers
                (committed el.db.core) el.files i (committed r.1.db.core) f)
            (sym (announced_files (ltb 0 i) i ev'.fld_service el4))
            (subst
              (λ c.
                Complete w ev' s t (note_group w ev' el).last_group_uid atts headers
                  (committed el.db.core) el.files i (committed c) el4.files)
              (sym core5) all),
        ap (λ (c : Core Tables). c.autocommit) core5 ∙ alone,
        subst (λ z. SendsFrom new_event (some i) ev'.fld_service z r.1) sent4 sends,
      )

  AddedFull-of_Ends :
      (r : Outcome ℕ × El)
      → Ends w
          (committed el.db.core)
          el.sent
          (λ i el'. AddedFull w ev headers atts el (good i, el'))
          r
      → AddedFull w ev headers atts el r
  AddedFull-of_Ends (good i, el') h = h
  AddedFull-of_Ends (failed e, el') h = (h.0.0, h.1)
  AddedFull-of_Ends (crashed, el') h = (h.0.0, h.1)

-- Whatever the engine, the file system, the clock and the bus do: where `rtcom_el_add_event_full`
-- returns an id, the checked event, one row for each attachment and one for each header are in the
-- tables that all connections see; each attachment's path is that of a new file, in a directory that
-- was not there, which holds all that was read from its source; the transaction is closed and at
-- most one NewEvent was sent. Where it fails, at an attachment, a header or anything else, nothing is
-- published and nothing is sent. (It is called with a journal.)
pub add_event_full-Added :
    (w : World) (ev : Event) (headers : Option Headers) (atts : List Attachment) (el : El)
    → el.db.core.journal ≢ off
    → AddedFull w ev headers atts el (add_event_full w ev headers atts el)
unfolding add_event_full
add_event_full-Added w ev headers atts el journal =
    let base = committed el.db.core in
    let outside : Outside w base el.sent el = ((refl, journal), refl) in
    AddedFull-of_Ends w ev headers atts el (add_event_full w ev headers atts el) (
      go_on-Ends w base el.sent _ _ _ (add_event_precheck ev el)
        (looks-Ends w base el.sent (add_event_precheck ev el) el (precheck-looks ev el) outside)
        (λ (ev', service_id, event_type_id) el1 (same1, pre).
          let Begun : Unit {0} → El → Type 0 = λ _ el2. Start w ev headers atts el el2 in
          go_on-Holds-Ends w base el.sent Begun _ _ (begin w el1)
            (subst (λ e. Holds w base el.sent Begun (begin w e)) (sym same1)
              (begin-Holds w base el.sent Begun el outside (λ _ el2 _ memo tables. (tables, memo))))
            (λ _ el2 i2 start.
              go_on-Ends w base el.sent (Saved w ev headers atts el ev' service_id event_type_id) _
                _ (committing w (add_all w ev' service_id event_type_id atts headers) el2)
                (committing-Saved w ev headers atts el ev' service_id event_type_id el2 i2 start)
                (λ i el4 saved.
                  announced-AddedFull w ev headers atts el ev' service_id event_type_id i el4 pre
                    saved))))
