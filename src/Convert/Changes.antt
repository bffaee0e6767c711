-- ===== src/Convert/Changes.antt =====
-- The statements of `_internal_convert_v0` (src/db.c), by what they change in a database.
use mathlib.Core.List.{reverse}
use Prim.Native.String.{◌++◌ as text_append}
use rtcom_eventlogger.Common.{
  ℕ, suc, ◌==◌, max, Bool, not, none, some, List, [], ◌∷◌, map, String, pos, same, any, keep,
  if◌then◌else◌,
}
use rtcom_eventlogger.Store.{NameRow, EventRow, FlagRow}
use rtcom_eventlogger.Convert.{OldFile, Change}

abbrev pub has_name : String → NameRow → Bool
has_name n r = same r.name n

abbrev pub add_column : String → Change
add_column c f =
    if not f.has_tables
    then none
    else if any (λ x. same x c) f.columns
    then none
    else some (record f { columns = c ∷ f.columns })

-- ADD COLUMN outgoing BOOL DEFAULT 0
abbrev pub add_outgoing : Change
add_outgoing f =
    add_column "outgoing"
      (record f { events = map (λ (e : EventRow). record e { outgoing = pos 0 }) f.events })

abbrev pub set_outgoing : (String → Bool) → Change
set_outgoing outbound f =
    let ids = keep (λ (r : NameRow). outbound r.name) f.event_types in
    some (record f {
      events =
          map
            (λ (e : EventRow).
              if any (λ (r : NameRow). r.id == e.event_type_id) ids
              then record e { outgoing = pos 1 }
              else e)
            f.events;
    })

abbrev pub retype : ℕ → ℕ → Change
retype id old_id f = some (record f {
  events =
      map
        (λ (e : EventRow). if e.event_type_id == old_id then record e { event_type_id = id } else e)
        f.events;
})

-- UPDATE EventTypes SET name = new WHERE name = old, with UNIQUE (name)
abbrev pub rename_type : String → String → Change
rename_type old new f =
    if any (has_name old) f.event_types
    then (if any (has_name new) f.event_types
        then none
        else some (record f {
          event_types =
              map (λ (r : NameRow). if has_name old r then record r { name = new } else r)
                f.event_types;
        }))
    else some f

abbrev pub delete_type : String → Change
delete_type n f = some (record f { event_types = keep (λ r. not (has_name n r)) f.event_types })

abbrev pub max_name_id : List NameRow → ℕ
max_name_id [] = 0
max_name_id (r ∷ rs) = max r.id (max_name_id rs)

abbrev pub insert_type : String → ℕ → String → Change
insert_type n plugin_id desc f =
    if any (has_name n) f.event_types
    then none
    else some (record f {
      event_types =
          record {
            id = suc (max_name_id f.event_types);
            name = n;
            plugin_id = plugin_id;
            desc = some desc;
          }
          ∷ f.event_types;
    })

abbrev pub max_flag_id : List FlagRow → ℕ
max_flag_id [] = 0
max_flag_id (r ∷ rs) = max r.id (max_flag_id rs)

abbrev pub insert_flag : ℕ → String → ℕ → Change
insert_flag service_id n value f =
    if any (λ (r : FlagRow). same r.name n) f.flag_names
    then none
    else some (record f {
      flag_names =
          record {
            id = suc (max_flag_id f.flag_names);
            service_id = service_id;
            name = n;
            value = value;
          }
          ∷ f.flag_names;
    })

abbrev pub drop_trigger : String → Change
drop_trigger n f = some (record f { triggers = keep (λ x. not (same x n)) f.triggers })

abbrev pub create_trigger : String → Change
create_trigger n f =
    some (record f {
      triggers = if any (λ x. same x n) f.triggers then f.triggers else n ∷ f.triggers;
    })

abbrev pub set_version : Change
set_version f = some (record f { user_version = 1 })

abbrev pub ids_of : List NameRow → List ℕ
ids_of rows = map (λ (r : NameRow). r.id) rows

abbrev pub first_only : List ℕ → List ℕ
first_only [] = []
first_only (x ∷ xs) = x ∷ []

abbrev pub type_name : String → String → String
type_name service suffix = text_append "RTCOM_EL_EVENTTYPE_" (text_append service suffix)

-- What the name of a type ends by: a call has none.
abbrev pub new_suffix : String → String
new_suffix s = if same s "CALL" then "" else "_MESSAGE"

abbrev pub plugins_of : String → OldFile → List ℕ
plugins_of n f = map (λ (r : NameRow). r.plugin_id) (keep (has_name n) f.event_types)

abbrev pub services_of : ℕ → OldFile → List ℕ
services_of plugin_id f = reverse (ids_of (keep (λ r. r.plugin_id == plugin_id) f.services))

-- `services`, `eventtypes` and `flags`
abbrev pub services : List String
services = "CHAT" ∷ "CALL" ∷ "SMS" ∷ []

abbrev pub event_types : List (String × String)
event_types =
    ("RTCOM_EL_EVENTTYPE_CHAT_NOTICE", "Notice")
    ∷ ("RTCOM_EL_EVENTTYPE_CHAT_ACTION", "Action message")
    ∷ ("RTCOM_EL_EVENTTYPE_CHAT_AUTOREPLY", "Autoreply message")
    ∷ ("RTCOM_EL_EVENTTYPE_CHAT_JOIN", "Group chat joined")
    ∷ ("RTCOM_EL_EVENTTYPE_CHAT_LEAVE", "Group chat leave")
    ∷ ("RTCOM_EL_EVENTTYPE_CHAT_TOPIC", "Group chat topic change")
    ∷ []

abbrev pub flags : List (String × ℕ)
flags =
    ("RTCOM_EL_FLAG_CHAT_GROUP", 1)
    ∷ ("RTCOM_EL_FLAG_CHAT_ROOM", 2)
    ∷ ("RTCOM_EL_FLAG_CHAT_OPAQUE", 4)
    ∷ ("RTCOM_EL_FLAG_CHAT_OFFLINE", 8)
    ∷ []
