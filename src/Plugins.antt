-- ===== src/Plugins.antt =====
-- The plugins of src/eventlogger.c: `_load_plugin` and `_init_plugin`, which enters the service, the
-- event types and the flags of a plugin in the database and in the object's tables of names.
use rtcom_eventlogger.Common.{
  ℕ, suc, max, Bool, Option, none, some, List, [], ◌∷◌, map, String, same, any, if◌then◌else◌,
}
use rtcom_eventlogger.Db.{Db}
use rtcom_eventlogger.Store.{NameRow, FlagRow}
pub mod Register
pub mod Agree
pub mod Carry
pub mod Sound
pub mod Names

pub record PluginRow : Type 0 where
  pub id : ℕ
  pub name : String
  pub desc : String

-- The tables that plugins are entered in, the newest row first.
pub record PluginTables : Type 0 where
  pub plugins : List PluginRow
  pub services : List NameRow
  pub event_types : List NameRow
  pub flags : List FlagRow

-- What the functions of a module answer: `none` is NULL, or a function that it does not have.
-- `init` is its own code, on the connection.
pub record Module : Type 0 where
  pub opens : Bool
  pub mandatory : Bool
  pub init : Option (Db PluginTables → Db PluginTables)
  pub name : Option String
  pub desc : Option String
  pub service : Option (String × Option String)
  pub event_types : List (String × Option String)
  pub flags : Option (List (String × ℕ))

-- The fields of `RTComElPrivate` that plugins change; a table of names has its newest entry first.
pub record Registry : Type 0 where
  pub db : Db PluginTables
  pub services : List (String × ℕ)
  pub event_types : List (String × ℕ)
  pub flags : List (String × ℕ)
  pub plugins : List (ℕ × Module)

-- An action that can fail.
abbrev pub Act : Type 0 → Type 0
Act A = Registry → Option A × Registry

abbrev pub then_do : {A B : Type 0} → (A → Act B) → Option A × Registry → Option B × Registry
then_do k (none, s) = (none, s)
then_do k (some a, s) = k a s

infixl 30 ◌>>=◌ ◌>>◌
abbrev pub ◌>>=◌ : {A B : Type 0} → Act A → (A → Act B) → Act B
m >>= k = λ s. then_do k (m s)

abbrev pub ◌>>◌ : {A B : Type 0} → Act A → Act B → Act B
m >> n = λ s. then_do (λ _. n) (m s)

abbrev pub pure : {A : Type 0} → A → Act A
pure a s = (some a, s)

abbrev pub given : {A : Type 0} → Option A → Act A
given o s = (o, s)

abbrev pub no_rows : Option PluginTables → Option (List (Unit {0}) × PluginTables)
no_rows none = none
no_rows (some t) = some ([], t)

abbrev pub single : ℕ → ℕ → ℕ
single n _ = n

-- The id that SQLite gives to a new row, and `sqlite3_last_insert_rowid`, the id of the newest row.
abbrev pub max_of : List ℕ → ℕ
max_of [] = 0
max_of (i ∷ is) = max i (max_of is)

abbrev pub newest : List ℕ → ℕ
newest [] = 0
newest (i ∷ is) = i

abbrev pub name_ids : List NameRow → List ℕ
name_ids rows = map (λ (r : NameRow). r.id) rows

abbrev pub new_name_row : List NameRow → String → ℕ → Option String → Option (List NameRow)
new_name_row rows n plugin_id desc =
    if any (λ (r : NameRow). same r.name n) rows
    then none
    else some (
        record { id = suc (max_of (name_ids rows)); name = n; plugin_id = plugin_id; desc = desc }
        ∷ rows)

abbrev pub new_flag_row : List FlagRow → String → ℕ → ℕ → Option (List FlagRow)
new_flag_row rows n service_id value =
    if any (λ (r : FlagRow). same r.name n) rows
    then none
    else some (
        record {
          id = suc (max_of (map (λ (r : FlagRow). r.id) rows));
          service_id = service_id;
          name = n;
          value = value;
        }
        ∷ rows)

abbrev pub with_services : PluginTables → Option (List NameRow) → Option PluginTables
with_services t none = none
with_services t (some rows) = some (record t { services = rows })

abbrev pub with_event_types : PluginTables → Option (List NameRow) → Option PluginTables
with_event_types t none = none
with_event_types t (some rows) = some (record t { event_types = rows })

abbrev pub with_flags : PluginTables → Option (List FlagRow) → Option PluginTables
with_flags t none = none
with_flags t (some rows) = some (record t { flags = rows })

-- The INSERT statements
abbrev pub insert_plugin : String → String → PluginTables → Option PluginTables
insert_plugin n desc t =
    if any (λ (r : PluginRow). same r.name n) t.plugins
    then none
    else some (record t {
      plugins =
          record {
            id = suc (max_of (map (λ (r : PluginRow). r.id) t.plugins));
            name = n;
            desc = desc;
          }
          ∷ t.plugins;
    })

abbrev pub insert_service : String → ℕ → Option String → PluginTables → Option PluginTables
insert_service n plugin_id desc t = with_services t (new_name_row t.services n plugin_id desc)

abbrev pub insert_event_type : String → ℕ → Option String → PluginTables → Option PluginTables
insert_event_type n plugin_id desc t =
    with_event_types t (new_name_row t.event_types n plugin_id desc)

abbrev pub insert_flag : String → ℕ → ℕ → PluginTables → Option PluginTables
insert_flag n service_id value t = with_flags t (new_flag_row t.flags n service_id value)
