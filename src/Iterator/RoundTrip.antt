-- ===== src/Iterator/RoundTrip.antt =====
-- An event that `rtcom_el_add_event` of src/eventlogger.c writes, as `rtcom_el_iter_get_full` of
-- src/eventlogger-iter.c reads it back.
use Prim.Native.Nat.{◌^◌}
use rtcom_eventlogger.Common.{
  ℕ, ◌<◌, ◌≡◌, refl, sym, ap, subst, ◌∙◌, ℤ, pos, Bool, Option, none, some, String, same, arith,
  if◌then◌else◌, eqb_ℤ, not,
}
use rtcom_eventlogger.Event.{Event, additional_text, icon_name, pango_markup, set_bit}
use rtcom_eventlogger.Store.{EventRow}
use rtcom_eventlogger.Row.{
  number, Casts, Value, text_value, fields, find, word32, column_int, column_text, value_of,
}
use rtcom_eventlogger.Row.Bounds.{IsInt, column_int-number, word32-signed32}
use rtcom_eventlogger.Row.Reads.{columns_of}
use rtcom_eventlogger.Statement.{returns}
use rtcom_eventlogger.AttachIter.{text_cell}
use rtcom_eventlogger.Iterator.{Joined, cells, abook_of, uid_of, name_of, Iter, Context}
use rtcom_eventlogger.Iterator.Current.{shown}
use rtcom_eventlogger.Iterator.Values.{
  get_full, get_columns, setters, run_setters, by_plugin, filled, ask, replaced, set_field,
}

-- The numbers of the row are within 32 bits.
pub record InRange (e : EventRow) : Type 0 where
  pub id_range : e.id < 2 ^ 31
  pub service_range : e.service_id < 2 ^ 31
  pub type_range : e.event_type_id < 2 ^ 31
  pub storage_range : IsInt e.storage_time
  pub start_range : IsInt e.start_time
  pub end_range : IsInt e.end_time
  pub read_range : IsInt e.is_read
  pub outgoing_range : IsInt e.outgoing
  pub flags_range : e.flags < 2 ^ 32
  pub sent_range : IsInt e.bytes_sent
  pub received_range : IsInt e.bytes_received

-- A `gboolean` that is TRUE or FALSE.
abbrev pub as_boolean : ℤ → ℤ
as_boolean z = if not (eqb_ℤ z (pos 0)) then pos 1 else pos 0

-- The event `ev'` has what the row and its joined tables have.
pub record Holds (j : Joined) (ev' : Event) : Type 0 where
  pub same_id : ev'.fld_id ≡ pos j.event.id
  pub same_service_id : ev'.fld_service_id ≡ pos j.event.service_id
  pub same_event_type_id : ev'.fld_event_type_id ≡ pos j.event.event_type_id
  pub same_service : ev'.fld_service ≡ some j.service
  pub same_event_type : ev'.fld_event_type ≡ some j.event_type
  pub same_storage_time : ev'.fld_storage_time ≡ j.event.storage_time
  pub same_start_time : ev'.fld_start_time ≡ j.event.start_time
  pub same_end_time : ev'.fld_end_time ≡ j.event.end_time
  pub same_is_read : ev'.fld_is_read ≡ as_boolean j.event.is_read
  pub same_outgoing : ev'.fld_outgoing ≡ as_boolean j.event.outgoing
  pub same_flags : ev'.fld_flags ≡ j.event.flags
  pub same_bytes_sent : ev'.fld_bytes_sent ≡ j.event.bytes_sent
  pub same_bytes_received : ev'.fld_bytes_received ≡ j.event.bytes_received
  pub same_remote_ebook_uid : ev'.fld_remote_ebook_uid ≡ abook_of j.remote
  pub same_local_uid : ev'.fld_local_uid ≡ j.event.local_uid
  pub same_local_name : ev'.fld_local_name ≡ j.event.local_name
  pub same_remote_uid : ev'.fld_remote_uid ≡ uid_of j.remote
  pub same_remote_name : ev'.fld_remote_name ≡ name_of j.remote
  pub same_channel : ev'.fld_channel ≡ j.event.channel
  pub same_free_text : ev'.fld_free_text ≡ j.event.free_text
  pub same_group_uid : ev'.fld_group_uid ≡ j.event.group_uid

-- What a plugin can change.
abbrev pub Altered : Event → Event → Type 0
Altered e e' =
    (a b c : Option String) × (m : ℕ → Bool) × (e'
      ≡ record e { fld_additional_text = a; fld_icon_name = b; fld_pango_markup = c; mask = m })

Altered-text :
    (o : Option Value) (e e' : Event)
    → Altered e e'
    → Altered e (replaced o additional_text (λ v x. record x { fld_additional_text = v }) e')
Altered-text none e e' h = h
Altered-text (some (text_value t)) e e' (a, b, c, m, same) = (
  t,
  b,
  c,
  set_bit additional_text m,
  ap (set_field additional_text (λ x. record x { fld_additional_text = t })) same,
)
Altered-text (some _) e e' (a, b, c, m, same) = (
  none,
  b,
  c,
  set_bit additional_text m,
  ap (set_field additional_text (λ x. record x { fld_additional_text = none })) same,
)

Altered-icon :
    (o : Option Value) (e e' : Event)
    → Altered e e'
    → Altered e (replaced o icon_name (λ v x. record x { fld_icon_name = v }) e')
Altered-icon none e e' h = h
Altered-icon (some (text_value t)) e e' (a, b, c, m, same) = (
  a,
  t,
  c,
  set_bit icon_name m,
  ap (set_field icon_name (λ x. record x { fld_icon_name = t })) same,
)
Altered-icon (some _) e e' (a, b, c, m, same) = (
  a,
  none,
  c,
  set_bit icon_name m,
  ap (set_field icon_name (λ x. record x { fld_icon_name = none })) same,
)

Altered-markup :
    (o : Option Value) (e e' : Event)
    → Altered e e'
    → Altered e (replaced o pango_markup (λ v x. record x { fld_pango_markup = v }) e')
Altered-markup none e e' h = h
Altered-markup (some (text_value t)) e e' (a, b, c, m, same) = (
  a,
  b,
  t,
  set_bit pango_markup m,
  ap (set_field pango_markup (λ x. record x { fld_pango_markup = t })) same,
)
Altered-markup (some _) e e' (a, b, c, m, same) = (
  a,
  b,
  none,
  set_bit pango_markup m,
  ap (set_field pango_markup (λ x. record x { fld_pango_markup = none })) same,
)

pub by_plugin-Altered : (it : Iter) (e : Event) → Altered e (by_plugin it e)
by_plugin-Altered it e = Altered-markup (ask it.active_plugin "pango-markup" it.columns) e _ (
    Altered-icon (ask it.active_plugin "icon-name" it.columns) e _ (
      Altered-text (ask it.active_plugin "additional-text" it.columns) e e
        (e.fld_additional_text, e.fld_icon_name, e.fld_pango_markup, e.mask, refl)))

text_lem : (casts : Casts) (o : Option String) → column_text casts (text_cell o) ≡ o
unfolding column_text
text_lem casts none = refl
text_lem casts (some s) = refl

flag_word : (casts : Casts) (f : ℕ) → f < 2 ^ 32 → word32 (column_int casts (number (pos f))) ≡ f
unfolding column_int
flag_word casts f h = word32-signed32 (word32 (pos f)) (omega arith) ∙ omega arith

-- What the setters make of the columns of a row.
pub columns_set :
    (casts : Casts) (j : Joined) (into : Event)
    → InRange j.event
    → (ev : Event) × (run_setters setters (columns_of casts (cells j)) into ≡ some ev) × Holds j ev
unfolding fields find same value_of run_setters setters
columns_set casts j into r =
    let num = λ (z : ℤ) (h : IsInt z). column_int-number casts z h in
    (
      _,
      refl,
      record {
        same_id = num (pos j.event.id) (omega (arith, r.id_range));
        same_service_id = num (pos j.event.service_id) (omega (arith, r.service_range));
        same_event_type_id = num (pos j.event.event_type_id) (omega (arith, r.type_range));
        same_service = text_lem casts (some j.service);
        same_event_type = text_lem casts (some j.event_type);
        same_storage_time = num j.event.storage_time r.storage_range;
        same_start_time = num j.event.start_time r.start_range;
        same_end_time = num j.event.end_time r.end_range;
        same_is_read = ap as_boolean (num j.event.is_read r.read_range);
        same_outgoing = ap as_boolean (num j.event.outgoing r.outgoing_range);
        same_flags = flag_word casts j.event.flags r.flags_range;
        same_bytes_sent = num j.event.bytes_sent r.sent_range;
        same_bytes_received = num j.event.bytes_received r.received_range;
        same_remote_ebook_uid = text_lem casts (abook_of j.remote);
        same_local_uid = text_lem casts j.event.local_uid;
        same_local_name = text_lem casts j.event.local_name;
        same_remote_uid = text_lem casts (uid_of j.remote);
        same_remote_name = text_lem casts (name_of j.remote);
        same_channel = text_lem casts j.event.channel;
        same_free_text = text_lem casts j.event.free_text;
        same_group_uid = text_lem casts j.event.group_uid;
      },
    )

-- The iterator is at the row, and what is read is what the row holds.
pub get_full-Holds :
    (w : Context) (j : Joined) (it : Iter) (into : Event)
    → InRange j.event
    → get_columns it ≡ some (shown w j)
    → (ev' : Event) × (get_full it into ≡ returns (some ev')) × Holds j ev'
unfolding get_full
get_full-Holds w j it into r at_row =
    let (ev, set, h) = columns_set w.casts j into r in
    let (a, b, c, m, same) = by_plugin-Altered it ev in
    (
      by_plugin it ev,
      rw (at_row, get_full) (ap (filled it) set),
      subst (Holds j) (sym same) (record {
        same_id = h.same_id;
        same_service_id = h.same_service_id;
        same_event_type_id = h.same_event_type_id;
        same_service = h.same_service;
        same_event_type = h.same_event_type;
        same_storage_time = h.same_storage_time;
        same_start_time = h.same_start_time;
        same_end_time = h.same_end_time;
        same_is_read = h.same_is_read;
        same_outgoing = h.same_outgoing;
        same_flags = h.same_flags;
        same_bytes_sent = h.same_bytes_sent;
        same_bytes_received = h.same_bytes_received;
        same_remote_ebook_uid = h.same_remote_ebook_uid;
        same_local_uid = h.same_local_uid;
        same_local_name = h.same_local_name;
        same_remote_uid = h.same_remote_uid;
        same_remote_name = h.same_remote_name;
        same_channel = h.same_channel;
        same_free_text = h.same_free_text;
        same_group_uid = h.same_group_uid;
      }),
    )
