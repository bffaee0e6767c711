-- ===== src/Row.antt =====
-- The fields of an event in a query's result (src/db.c): the table of fields, and how the columns of
-- a row become the GValues of a hash table.
use Prim.Native.Nat.{◌^◌, ◌%◌}
use Prim.Native.String.{◌++◌ as text_append}
use rtcom_eventlogger.Common.{
  ℕ, suc, ◌-◌, ltb, ℤ, pos, negsuc, eqb_ℤ, Bool, not, Option, none, some, List, [], ◌∷◌, map,
  String, same, if◌then◌else◌,
}
pub mod Bounds
pub mod Reads

-- `G_TYPE_INT`, `G_TYPE_BOOLEAN` and `G_TYPE_STRING`
pub data FieldType : Type 0 where
  int boolean chars : FieldType

-- `EventField`
pub record EventField : Type 0 where
  pub name : String
  pub type : FieldType
  pub column : String

abbrev field : String → FieldType → String → EventField
field n t c = record { name = n; type = t; column = c }

-- `fields`, without the NULL at its end
unfoldable pub fields : List EventField
fields =
    field "service" chars "Services.name"
    ∷ field "event-type" chars "EventTypes.name"
    ∷ field "id" int "Events.id"
    ∷ field "service-id" int "Events.service_id"
    ∷ field "event-type-id" int "Events.event_type_id"
    ∷ field "storage-time" int "Events.storage_time"
    ∷ field "start-time" int "Events.start_time"
    ∷ field "end-time" int "Events.end_time"
    ∷ field "flags" int "Events.flags"
    ∷ field "is-read" boolean "Events.is_read"
    ∷ field "bytes-sent" int "Events.bytes_sent"
    ∷ field "bytes-received" int "Events.bytes_received"
    ∷ field "local-uid" chars "Events.local_uid"
    ∷ field "local-name" chars "Events.local_name"
    ∷ field "group-uid" chars "Events.group_uid"
    ∷ field "remote-ebook-uid" chars "Remotes.abook_uid"
    ∷ field "remote-uid" chars "Remotes.remote_uid"
    ∷ field "remote-name" chars "Remotes.remote_name"
    ∷ field "message-token" chars "Headers.value"
    ∷ field "channel" chars "Events.channel"
    ∷ field "outgoing" boolean "Events.outgoing"
    ∷ field "free-text" chars "Events.free_text"
    ∷ []

-- `UNIQUE_REMOTE`
abbrev pub unique_remote : String
unique_remote =
    " CASE abook_uid IS NOT NULL WHEN 1 THEN ('ab:' || abook_uid) ELSE ('lr:' || Events.local_uid || ';' || Events.remote_uid) END AS unique_remote "

-- A value in a column of a row.
pub data Cell : Type 0 where
  null : Cell
  number : ℤ → Cell
  string : String → Cell

-- SQLite's conversions between numbers and texts.
pub record Casts : Type 0 where
  pub of_text : String → ℤ
  pub to_text : ℤ → String

-- The low 32 bits of a number, and the `int` that they stand for.
abbrev pub word32 : ℤ → ℕ
word32 (pos n) = n % 2 ^ 32
word32 (negsuc n) = 2 ^ 32 - 1 - n % 2 ^ 32

abbrev pub signed32 : ℕ → ℤ
signed32 w = if ltb w (2 ^ 31) then pos w else negsuc (2 ^ 32 - 1 - w)

-- A number that is put in an `int`: what `sqlite3_column_int` makes of it.
abbrev pub int32 : ℤ → ℤ
int32 z = signed32 (word32 z)

-- A `GValue`; `unset` is one of zero bytes, whose type is G_TYPE_INVALID.
pub data Value : Type 0 where
  unset : Value
  int_value : ℤ → Value
  boolean_value : Bool → Value
  text_value : Option String → Value

-- The hash table of a row: names and their values.
abbrev pub Columns : Type 0
Columns = List (String × Value)

-- `g_hash_table_lookup`
unfoldable pub find : String → Columns → Option Value
find key [] = none
find key ((k, v) ∷ rest) = if same k key then some v else find key rest

-- `g_hash_table_insert`
unfoldable pub put : String → Value → Columns → Columns
put key v [] = (key, v) ∷ []
put key v ((k, old) ∷ rest) = if same k key then (k, v) ∷ rest else (k, old) ∷ put key v rest

module _ (casts : Casts) where
  -- `sqlite3_column_int`
  unfoldable pub column_int : Cell → ℤ
  column_int null = pos 0
  column_int (number z) = signed32 (word32 z)
  column_int (string s) = signed32 (word32 (casts.of_text s))

  -- `sqlite3_column_text`
  unfoldable pub column_text : Cell → Option String
  column_text null = none
  column_text (number z) = some (casts.to_text z)
  column_text (string s) = some s

  -- The `switch` of `rtcom_el_db_schema_update_row`.
  unfoldable pub value_of : FieldType → Cell → Value
  value_of int c = int_value (column_int c)
  value_of boolean c = boolean_value (not (eqb_ℤ (column_int c) (pos 0)))
  value_of chars c = text_value (column_text c)

  -- The loop of `rtcom_el_db_schema_update_row`, from column `i` on; `none` is a name that the hash
  -- table does not have, whose NULL is read.
  unfoldable pub update_from : List EventField → ℕ → (ℕ → Cell) → Columns → Option Columns
  update_from [] i cells row = some row
  update_from (f ∷ fs) i cells row = elim (find f.name row) [
    | none ↦ none
    | some old ↦ update_from fs (suc i) cells (put f.name (value_of f.type (cells i)) row)
  ]

  -- `rtcom_el_db_schema_update_row`
  unfoldable pub update_row : (ℕ → Cell) → Columns → Option Columns
  update_row = update_from fields 0

  -- The loop of `rtcom_el_db_schema_get_row`.
  unfoldable pub insert_unset : List EventField → Columns → Columns
  insert_unset [] row = row
  insert_unset (f ∷ fs) row = insert_unset fs (put f.name unset row)

  -- `rtcom_el_db_schema_get_row`
  unfoldable pub get_row : (ℕ → Cell) → Option Columns
  get_row cells = update_row cells (insert_unset fields [])

-- `selection` of `rtcom_el_db_schema_get_mappings`: the columns and UNIQUE_REMOTE, joined by ", "
unfoldable pub selection_of : List EventField → String
selection_of [] = unique_remote
selection_of (f ∷ fs) = text_append f.column (text_append ", " (selection_of fs))

-- `rtcom_el_db_schema_get_mappings`: the selection, the column of each name, and its type.
unfoldable pub get_mappings : String × List (String × String) × List (String × FieldType)
get_mappings = (
  selection_of fields,
  map (λ (f : EventField). (f.name, f.column)) fields,
  map (λ (f : EventField). (f.name, f.type)) fields,
)
