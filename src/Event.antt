-- ===== src/Event.antt =====
-- rtcom-eventlogger/event.h and src/event.c: the event structure with its mask of set fields, and
-- `rtcom_el_event_equals`.
use rtcom_eventlogger.Common.{
  ℕ, ℤ, pos, Bool, true, false, not, ◌&&◌, Option, none, some, List, [], ◌∷◌, String, if◌then◌else◌,
  ◌==◌, eqb_ℤ, same,
}
pub mod Equality

-- The bits of `_mask`, by the field that each stands for.
pub data Field : Type 0 where
  id service_id event_type_id storage_time start_time end_time is_read flags bytes_sent : Field
  bytes_received remote_ebook_uid local_uid local_name remote_uid remote_name channel : Field
  free_text group_uid service event_type additional_text icon_name pango_markup outgoing : Field

-- The position of a field's bit, k in `1 << k`.
abbrev pub bit : Field → ℕ
bit id = 0
bit service_id = 1
bit event_type_id = 2
bit storage_time = 3
bit start_time = 4
bit end_time = 5
bit is_read = 6
bit flags = 7
bit bytes_sent = 8
bit bytes_received = 9
bit remote_ebook_uid = 10
bit local_uid = 11
bit local_name = 12
bit remote_uid = 13
bit remote_name = 14
bit channel = 15
bit free_text = 16
bit group_uid = 17
bit service = 18
bit event_type = 19
bit additional_text = 20
bit icon_name = 21
bit pango_markup = 22
bit outgoing = 23

-- `RTComElEvent`. `mask k` is bit k of `_mask`; a text field is `none` where the pointer is NULL.
-- `flags` is a word of bits, the other numbers are signed.
pub record Event : Type 0 where
  pub mask : ℕ → Bool
  pub fld_id : ℤ
  pub fld_service_id : ℤ
  pub fld_event_type_id : ℤ
  pub fld_storage_time : ℤ
  pub fld_start_time : ℤ
  pub fld_end_time : ℤ
  pub fld_is_read : ℤ
  pub fld_flags : ℕ
  pub fld_bytes_sent : ℤ
  pub fld_bytes_received : ℤ
  pub fld_local_uid : Option String
  pub fld_local_name : Option String
  pub fld_remote_uid : Option String
  pub fld_remote_name : Option String
  pub fld_remote_ebook_uid : Option String
  pub fld_channel : Option String
  pub fld_free_text : Option String
  pub fld_group_uid : Option String
  pub fld_service : Option String
  pub fld_event_type : Option String
  pub fld_additional_text : Option String
  pub fld_icon_name : Option String
  pub fld_pango_markup : Option String
  pub fld_outgoing : ℤ

-- `RTCOM_EL_EVENT_IS_SET`
abbrev pub is_set : Event → Field → Bool
is_set ev f = ev.mask (bit f)

-- `rtcom_el_event_new`: `g_slice_new0` fills the structure with zero bytes.
unfoldable pub event_new : Event
event_new = record {
  mask = λ _. false;
  fld_id = pos 0;
  fld_service_id = pos 0;
  fld_event_type_id = pos 0;
  fld_storage_time = pos 0;
  fld_start_time = pos 0;
  fld_end_time = pos 0;
  fld_is_read = pos 0;
  fld_flags = 0;
  fld_bytes_sent = pos 0;
  fld_bytes_received = pos 0;
  fld_local_uid = none;
  fld_local_name = none;
  fld_remote_uid = none;
  fld_remote_name = none;
  fld_remote_ebook_uid = none;
  fld_channel = none;
  fld_free_text = none;
  fld_group_uid = none;
  fld_service = none;
  fld_event_type = none;
  fld_additional_text = none;
  fld_icon_name = none;
  fld_pango_markup = none;
  fld_outgoing = pos 0;
}

-- `_mask |= 1 << k`
abbrev pub set_bit : Field → (ℕ → Bool) → ℕ → Bool
set_bit f m k = if k == bit f then true else m k

-- How one `if` of `rtcom_el_event_equals` ends: it falls through, it returns FALSE, or `strcmp`
-- is handed a NULL pointer.
pub data Check : Type 0 where
  agree differ crash : Check

abbrev pub num_check : Field → (Event → ℤ) → Event → Event → Check
num_check f get a b =
    if is_set a f && is_set b f then (if eqb_ℤ (get a) (get b) then agree else differ) else agree

abbrev pub compare_text : Option String → Option String → Check
compare_text (some s) (some t) = if same s t then agree else differ
compare_text _ _ = crash

abbrev pub text_check : Field → (Event → Option String) → Event → Event → Check
text_check f get a b = if is_set a f && is_set b f then compare_text (get a) (get b) else agree

-- The checks in the order of the code. `remote_ebook_uid` is compared twice there.
abbrev pub checks : Event → Event → List Check
checks a b =
    num_check id (λ e. e.fld_id) a b
    ∷ num_check service_id (λ e. e.fld_service_id) a b
    ∷ num_check event_type_id (λ e. e.fld_event_type_id) a b
    ∷ num_check storage_time (λ e. e.fld_storage_time) a b
    ∷ num_check start_time (λ e. e.fld_start_time) a b
    ∷ num_check end_time (λ e. e.fld_end_time) a b
    ∷ num_check flags (λ e. pos e.fld_flags) a b
    ∷ num_check bytes_sent (λ e. e.fld_bytes_sent) a b
    ∷ num_check bytes_received (λ e. e.fld_bytes_received) a b
    ∷ text_check remote_ebook_uid (λ e. e.fld_remote_ebook_uid) a b
    ∷ text_check remote_ebook_uid (λ e. e.fld_remote_ebook_uid) a b
    ∷ text_check local_uid (λ e. e.fld_local_uid) a b
    ∷ text_check local_name (λ e. e.fld_local_name) a b
    ∷ text_check remote_uid (λ e. e.fld_remote_uid) a b
    ∷ text_check remote_name (λ e. e.fld_remote_name) a b
    ∷ text_check channel (λ e. e.fld_channel) a b
    ∷ text_check free_text (λ e. e.fld_free_text) a b
    ∷ text_check group_uid (λ e. e.fld_group_uid) a b
    ∷ []

-- The first check that does not fall through decides; `none` is the crash.
abbrev pub run_checks : List Check → Option Bool
run_checks [] = some true
run_checks (agree ∷ rest) = run_checks rest
run_checks (differ ∷ rest) = some false
run_checks (crash ∷ rest) = none

-- `rtcom_el_event_equals`
unfoldable pub event_equals : Event → Event → Option Bool
event_equals a b = run_checks (checks a b)
