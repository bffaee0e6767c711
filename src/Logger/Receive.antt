-- ===== src/Logger/Receive.antt =====
-- `_dbus_filter_callback` of src/eventlogger.c: what an object makes of a message on the bus; and the
-- messages that `_emit_dbus` of another process sends.
use rtcom_eventlogger.Common.{
  ℕ, ℤ, pos, negsuc, ◌≡◌, refl, Bool, true, false, Option, none, some, List, [], ◌∷◌, ◌++◌, String,
  same_opt, same, if◌then◌else◌,
}
use rtcom_eventlogger.Logger.{
  Kind, Signal, new_event, event_updated, event_deleted, all_deleted, refresh_hint,
}

-- A basic argument of a message of D-Bus, and its type.
pub data Arg : Type 0 where
  int32_arg : ℤ → Arg
  string_arg : String → Arg

pub data ArgType : Type 0 where
  type_int32 type_string : ArgType

pub record Message : Type 0 where
  pub interface : Option String
  pub member : Option String
  pub args : List Arg

abbrev pub has_type : ArgType → Arg → Bool
has_type type_int32 (int32_arg i) = true
has_type type_string (string_arg s) = true
has_type _ _ = false

abbrev pub before : Arg → Option (List Arg) → Option (List Arg)
before a none = none
before a (some rest) = some (a ∷ rest)

-- `dbus_message_get_args`: the first arguments, if there are as many as types and each has its type.
unfoldable pub get_args : List ArgType → List Arg → Option (List Arg)
get_args [] args = some []
get_args (t ∷ ts) [] = none
get_args (t ∷ ts) (a ∷ rest) = if has_type t a then before a (get_args ts rest) else none

-- The variables of `_dbus_filter_callback`.
pub record Args : Type 0 where
  pub event_id : ℤ
  pub local_uid : String
  pub remote_uid : String
  pub remote_ebook_uid : String
  pub group_uid : String
  pub service : String

-- The types that `_dbus_filter_callback` asks for, and where it has each put, in the order of the
-- call.
abbrev pub types_of_args : List ArgType
types_of_args =
    type_int32 ∷ type_string ∷ type_string ∷ type_string ∷ type_string ∷ type_string ∷ []

abbrev pub stored_args : Option (List Arg) → Option Args
stored_args
      (some (
        int32_arg event_id
        ∷ string_arg local_uid
        ∷ string_arg remote_uid
        ∷ string_arg remote_ebook_uid
        ∷ string_arg group_uid
        ∷ string_arg service
        ∷ [])) =
    some (record {
      event_id = event_id;
      local_uid = local_uid;
      remote_uid = remote_uid;
      remote_ebook_uid = remote_ebook_uid;
      group_uid = group_uid;
      service = service;
    })
stored_args _ = none

-- A signal of GObject on the object.
pub data Emitted : Type 0 where
  event_signal : Kind → Args → Emitted
  all_deleted_signal : String → Emitted
  refresh_hint_signal : Emitted

-- `DBUS_INTERFACE`
abbrev pub dbus_interface : String
dbus_interface = "rtcomeventlogger.signal"

-- The chain of `g_strcmp0` on the member. `DbReopen` does nothing on an object whose database is
-- open.
unfoldable pub by_member : Option String → Args → Option Emitted
by_member member args =
    if same_opt member (some "NewEvent")
    then some (event_signal new_event args)
    else if same_opt member (some "EventUpdated")
    then some (event_signal event_updated args)
    else if same_opt member (some "EventDeleted")
    then some (event_signal event_deleted args)
    else if same_opt member (some "AllDeleted")
    then some (all_deleted_signal args.service)
    else if same_opt member (some "RefreshHint")
    then some refresh_hint_signal
    else none

abbrev pub with_args : Option String → Option Args → Option Emitted
with_args member none = none
with_args member (some args) = by_member member args

-- `_dbus_filter_callback` on an object that is alive; `none` is no signal. It always answers
-- DBUS_HANDLER_RESULT_NOT_YET_HANDLED.
unfoldable pub dbus_filter_callback : Message → Option Emitted
dbus_filter_callback msg =
    let args = stored_args (get_args types_of_args msg.args) in
    if same_opt msg.interface (some dbus_interface) then with_args msg.member args else none

-- The names that the callers of `_emit_dbus` hand to it.
abbrev pub member_name : Kind → String
member_name new_event = "NewEvent"
member_name event_updated = "EventUpdated"
member_name event_deleted = "EventDeleted"
member_name all_deleted = "AllDeleted"
member_name refresh_hint = "RefreshHint"

abbrev pub int_of : Option ℕ → ℤ
int_of none = negsuc 0
int_of (some n) = pos n

-- `dbus_message_iter_append_basic`
abbrev pub append_basic : Arg → Message → Message
append_basic a msg = record msg { args = msg.args ++ (a ∷ []) }

abbrev pub new_signal : String → String → Message
new_signal interface member = record { interface = some interface; member = some member; args = [] }

-- The message that `_emit_dbus` builds, argument by argument.
abbrev pub message_of : Signal → Message
message_of s =
    let m0 = new_signal dbus_interface (member_name s.kind) in
    let m1 = append_basic (int32_arg (int_of s.event_id)) m0 in
    let m2 = append_basic (string_arg s.local_uid) m1 in
    let m3 = append_basic (string_arg s.remote_uid) m2 in
    let m4 = append_basic (string_arg s.remote_ebook_uid) m3 in
    let m5 = append_basic (string_arg s.group_uid) m4 in append_basic (string_arg s.service) m5

abbrev pub told : Signal → Args
told s = record {
  event_id = int_of s.event_id;
  local_uid = s.local_uid;
  remote_uid = s.remote_uid;
  remote_ebook_uid = s.remote_ebook_uid;
  group_uid = s.group_uid;
  service = s.service;
}

-- What a listener is told of a signal: all of it for an event, the service for the deletion of all.
abbrev pub heard_as : Kind → Args → Emitted
heard_as new_event args = event_signal new_event args
heard_as event_updated args = event_signal event_updated args
heard_as event_deleted args = event_signal event_deleted args
heard_as all_deleted args = all_deleted_signal args.service
heard_as refresh_hint args = refresh_hint_signal

abbrev pub heard : Signal → Emitted
heard s = heard_as s.kind (told s)

-- What `_emit_dbus` sends, `_dbus_filter_callback` hears. NewEvent, EventUpdated and EventDeleted
-- become the signal of the same kind with the same id (-1 for none) and the same five texts, each in
-- its place; AllDeleted becomes its signal with the service, and RefreshHint its signal, with nothing.
pub filter_callback-heard : (s : Signal) → dbus_filter_callback (message_of s) ≡ some (heard s)
unfolding dbus_filter_callback get_args by_member same_opt same
filter_callback-heard s = of_kind s.kind
  where
    of_kind :
        (k : Kind)
        → dbus_filter_callback (message_of (record s { kind = k })) ≡ some (heard_as k (told s))
    of_kind new_event = refl
    of_kind event_updated = refl
    of_kind event_deleted = refl
    of_kind all_deleted = refl
    of_kind refresh_hint = refl
