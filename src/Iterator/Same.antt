-- ===== src/Iterator/Same.antt =====
-- What `rtcom_el_iter_get_full` of src/eventlogger-iter.c reads of an event that src/eventlogger.c has
-- written with all its fields.
use rtcom_eventlogger.Common.{
  ℕ, ◌≡◌, refl, sym, ap, subst, ◌∙◌, ◌⊎◌, inl, inr, ℤ, pos, true, Option, none, some, String,
  if◌then◌else◌,
}
use rtcom_eventlogger.Event.{
  Field, Event, is_set, is_read, outgoing, flags, start_time, end_time, bytes_sent, bytes_received,
  local_uid, local_name, channel, free_text, group_uid,
}
use rtcom_eventlogger.Store.{EventRow}
use rtcom_eventlogger.Logger.Add.{event_row}
use rtcom_eventlogger.Iterator.{Joined, uid_of, name_of, abook_of}
use rtcom_eventlogger.Iterator.RoundTrip.{Holds, as_boolean}

-- The event `ev'` has every field of `ev` that is stored, and the name and the address book id of the
-- contact that are given.
pub record SameStored (ev : Event) (contact : Option String × Option String) (ev' : Event)
    : Type 0 where
  pub start_time_eq : ev'.fld_start_time ≡ ev.fld_start_time
  pub end_time_eq : ev'.fld_end_time ≡ ev.fld_end_time
  pub is_read_eq : ev'.fld_is_read ≡ ev.fld_is_read
  pub outgoing_eq : ev'.fld_outgoing ≡ ev.fld_outgoing
  pub flags_eq : ev'.fld_flags ≡ ev.fld_flags
  pub bytes_sent_eq : ev'.fld_bytes_sent ≡ ev.fld_bytes_sent
  pub bytes_received_eq : ev'.fld_bytes_received ≡ ev.fld_bytes_received
  pub service_eq : ev'.fld_service ≡ ev.fld_service
  pub event_type_eq : ev'.fld_event_type ≡ ev.fld_event_type
  pub local_uid_eq : ev'.fld_local_uid ≡ ev.fld_local_uid
  pub local_name_eq : ev'.fld_local_name ≡ ev.fld_local_name
  pub remote_uid_eq : ev'.fld_remote_uid ≡ ev.fld_remote_uid
  pub remote_name_eq : ev'.fld_remote_name ≡ contact.0
  pub remote_ebook_uid_eq : ev'.fld_remote_ebook_uid ≡ contact.1
  pub channel_eq : ev'.fld_channel ≡ ev.fld_channel
  pub free_text_eq : ev'.fld_free_text ≡ ev.fld_free_text
  pub group_uid_eq : ev'.fld_group_uid ≡ ev.fld_group_uid

-- TRUE or FALSE.
abbrev pub IsBoolean : ℤ → Type 0
IsBoolean z = (z ≡ pos 0) ⊎ (z ≡ pos 1)

as_boolean_lem : (z : ℤ) → IsBoolean z → as_boolean z ≡ z
as_boolean_lem z (inl e) = subst (λ x. as_boolean x ≡ x) (sym e) refl
as_boolean_lem z (inr e) = subst (λ x. as_boolean x ≡ x) (sym e) refl

-- What is read at the row of an event with all fields set.
pub of_Holds :
    (ev ev' : Event) (contact : Option String × Option String) (s t : ℕ) (time : ℤ)
    (last : Option String) (i : ℕ) (j : Joined)
    → ((f : Field) → is_set ev f ≡ true)
    → IsBoolean ev.fld_is_read
    → IsBoolean ev.fld_outgoing
    → j.event ≡ event_row ev s t time last i
    → ev.fld_service ≡ some j.service
    → ev.fld_event_type ≡ some j.event_type
    → (uid_of j.remote ≡ ev.fld_remote_uid)
      × (name_of j.remote ≡ contact.0)
      × (abook_of j.remote ≡ contact.1)
    → Holds j ev'
    → (ev'.fld_id ≡ pos i) × SameStored ev contact ev'
unfolding event_row
of_Holds ev ev' contact s t time last i j all read out row in_service of_type (to, name, abook) h =
    let num = λ (f : Field) (z : ℤ). ap (λ b. if b then z else pos 0) (all f) in
    let txt = λ (f : Field) (o : Option String). ap (λ b. if b then o else none) (all f) in
    (
      h.same_id ∙ ap (λ (e : EventRow). pos e.id) row,
      record {
        start_time_eq =
            h.same_start_time
            ∙ ap (λ (e : EventRow). e.start_time) row
            ∙ num start_time ev.fld_start_time;
        end_time_eq =
            h.same_end_time ∙ ap (λ (e : EventRow). e.end_time) row ∙ num end_time ev.fld_end_time;
        is_read_eq =
            h.same_is_read
            ∙ ap (λ (e : EventRow). as_boolean e.is_read) row
            ∙ ap as_boolean (num is_read ev.fld_is_read)
            ∙ as_boolean_lem ev.fld_is_read read;
        outgoing_eq =
            h.same_outgoing
            ∙ ap (λ (e : EventRow). as_boolean e.outgoing) row
            ∙ ap as_boolean (num outgoing ev.fld_outgoing)
            ∙ as_boolean_lem ev.fld_outgoing out;
        flags_eq =
            h.same_flags
            ∙ ap (λ (e : EventRow). e.flags) row
            ∙ ap (λ b. if b then ev.fld_flags else 0) (all flags);
        bytes_sent_eq =
            h.same_bytes_sent
            ∙ ap (λ (e : EventRow). e.bytes_sent) row
            ∙ num bytes_sent ev.fld_bytes_sent;
        bytes_received_eq =
            h.same_bytes_received
            ∙ ap (λ (e : EventRow). e.bytes_received) row
            ∙ num bytes_received ev.fld_bytes_received;
        service_eq = h.same_service ∙ sym in_service;
        event_type_eq = h.same_event_type ∙ sym of_type;
        local_uid_eq =
            h.same_local_uid
            ∙ ap (λ (e : EventRow). e.local_uid) row
            ∙ txt local_uid ev.fld_local_uid;
        local_name_eq =
            h.same_local_name
            ∙ ap (λ (e : EventRow). e.local_name) row
            ∙ txt local_name ev.fld_local_name;
        remote_uid_eq = h.same_remote_uid ∙ to;
        remote_name_eq = h.same_remote_name ∙ name;
        remote_ebook_uid_eq = h.same_remote_ebook_uid ∙ abook;
        channel_eq =
            h.same_channel ∙ ap (λ (e : EventRow). e.channel) row ∙ txt channel ev.fld_channel;
        free_text_eq =
            h.same_free_text
            ∙ ap (λ (e : EventRow). e.free_text) row
            ∙ txt free_text ev.fld_free_text;
        group_uid_eq =
            h.same_group_uid
            ∙ ap (λ (e : EventRow). e.group_uid) row
            ∙ ap (λ b. if b then ev.fld_group_uid else last) (all group_uid);
      },
    )
