-- ===== src/Store.antt =====
-- The tables and the triggers of src/db.c (`db_schema_sql`): rows, constraints and what an INSERT,
-- an UPDATE or a DELETE on Events does, its triggers included.
use rtcom_eventlogger.Common.{
  ℕ, suc, ◌+◌, ◌-◌, max, bit_and, bit_or, ℤ, pos, ◌+ℤ◌, ◌-ℤ◌, Bool, true, false, not, ◌&&◌, ◌||◌,
  Option, none, some, List, [], ◌∷◌, map, String, if◌then◌else◌, ◌==◌, same, keep, any,
}
pub mod Rows
pub mod Cache
pub mod Inserted
pub mod Insert
pub mod Recounted
pub mod Update
pub mod Refresh
pub mod Drop
pub mod DropService
pub mod Recount
pub mod Delete

-- A row of Events. `flags` is a word of bits; the other numbers are as the caller gave them.
pub record EventRow : Type 0 where
  pub id : ℕ
  pub service_id : ℕ
  pub event_type_id : ℕ
  pub storage_time : ℤ
  pub start_time : ℤ
  pub end_time : ℤ
  pub is_read : ℤ
  pub outgoing : ℤ
  pub flags : ℕ
  pub bytes_sent : ℤ
  pub bytes_received : ℤ
  pub local_uid : Option String
  pub local_name : Option String
  pub remote_uid : Option String
  pub channel : Option String
  pub free_text : Option String
  pub group_uid : Option String

pub record RemoteRow : Type 0 where
  pub local_uid : String
  pub remote_uid : String
  pub remote_name : Option String
  pub abook_uid : Option String

pub record HeaderRow : Type 0 where
  pub id : ℕ
  pub event_id : ℕ
  pub name : String
  pub value : String

pub record AttachmentRow : Type 0 where
  pub id : ℕ
  pub event_id : ℕ
  pub path : String
  pub desc : Option String

-- A row of EventTypes or of Services.
pub record NameRow : Type 0 where
  pub id : ℕ
  pub name : String
  pub plugin_id : ℕ
  pub desc : Option String

pub record FlagRow : Type 0 where
  pub id : ℕ
  pub service_id : ℕ
  pub name : String
  pub value : ℕ

-- A row of GroupCache.
pub record GroupRow : Type 0 where
  pub event_id : ℕ
  pub service_id : ℕ
  pub group_uid : String
  pub total_events : ℕ
  pub read_events : ℤ
  pub flags : ℕ

-- The rows of each table, the newest first.
pub record Tables : Type 0 where
  pub events : List EventRow
  pub remotes : List RemoteRow
  pub headers : List HeaderRow
  pub attachments : List AttachmentRow
  pub flag_names : List FlagRow
  pub group_cache : List GroupRow

-- `group_uid = g`, which NULL is not.
abbrev pub belongs : String → Option String → Bool
belongs g none = false
belongs g (some h) = same h g

abbrev pub in_group : String → EventRow → Bool
in_group g e = belongs g e.group_uid

abbrev pub is_for : String → GroupRow → Bool
is_for g r = same r.group_uid g

abbrev pub max_id : List EventRow → ℕ
max_id [] = 0
max_id (e ∷ es) = max e.id (max_id es)

-- What SQLite puts for a NULL in an INTEGER PRIMARY KEY: one more than the largest in use.
abbrev pub next_id : List EventRow → ℕ
next_id es = suc (max_id es)

-- `flags & ~old`
abbrev pub and_not : ℕ → ℕ → ℕ
and_not a b = a - bit_and a b

-- UNIQUE on `event_id`
unfoldable pub unique_event_ids : List GroupRow → Bool
unique_event_ids [] = true
unique_event_ids (r ∷ rs) = not (any (λ s. s.event_id == r.event_id) rs) && unique_event_ids rs

abbrev pub empty_row : ℕ → String → GroupRow
empty_row service g = record {
  event_id = 0;
  service_id = service;
  group_uid = g;
  total_events = 0;
  read_events = pos 0;
  flags = 0;
}

-- `gc_update_ev_add1`, BEFORE INSERT: a row of zeros for a group that has none. A row with that
-- service and group, or with event id 0, is a conflict, and the insertion is then ignored.
unfoldable pub add_empty : ℕ → String → List GroupRow → List GroupRow
add_empty service g cache =
    if any (λ r. r.event_id == 0 || (r.service_id == service && is_for g r)) cache
    then cache
    else empty_row service g ∷ cache

-- `gc_update_ev_add4`, AFTER INSERT, on one row of the cache
abbrev pub count_event : EventRow → String → GroupRow → GroupRow
count_event e g r =
    if is_for g r
    then record r {
      event_id = e.id;
      total_events = r.total_events + 1;
      read_events = r.read_events +ℤ e.is_read;
      flags = bit_or r.flags e.flags;
    }
    else r

-- `gc_update_ev_update`, AFTER UPDATE, on one row of the cache
abbrev pub recount_event : EventRow → EventRow → String → GroupRow → GroupRow
recount_event old new g r =
    if is_for g r
    then record r {
      read_events = r.read_events -ℤ old.is_read +ℤ new.is_read;
      flags = bit_or (and_not r.flags old.flags) new.flags;
    }
    else r

-- UNIQUE on `event_id`, checked: `none` where it fails.
abbrev pub checked : List GroupRow → Option (List GroupRow)
checked cache = if unique_event_ids cache then some cache else none

-- The cache after both insert triggers; `none` undoes the INSERT.
abbrev pub cache_insert_at : EventRow → Option String → List GroupRow → Option (List GroupRow)
cache_insert_at e none cache = some cache
cache_insert_at e (some g) cache = checked (map (count_event e g) (add_empty e.service_id g cache))

abbrev pub cache_insert : EventRow → List GroupRow → Option (List GroupRow)
cache_insert e cache = cache_insert_at e e.group_uid cache

abbrev pub with_row : EventRow → Tables → Option (List GroupRow) → Option Tables
with_row e t none = none
with_row e t (some cache) = some (record t { events = e ∷ t.events; group_cache = cache })

-- INSERT INTO Events; `new` takes the row's id.
unfoldable pub insert_event : (ℕ → EventRow) → Tables → Option Tables
insert_event new t = let e = new (next_id t.events) in with_row e t (cache_insert e t.group_cache)

abbrev pub cache_update_at : EventRow → EventRow → Option String → List GroupRow → List GroupRow
cache_update_at old new none cache = cache
cache_update_at old new (some g) cache = map (recount_event old new g) cache

abbrev pub cache_update : EventRow → EventRow → List GroupRow → List GroupRow
cache_update old new cache = cache_update_at old new new.group_uid cache

-- The rows of an UPDATE, the oldest first, each with its trigger.
unfoldable pub update_rows :
    (EventRow → Bool)
    → (EventRow → EventRow)
    → List EventRow
    → List GroupRow
    → List EventRow × List GroupRow
update_rows p f [] cache = ([], cache)
update_rows p f (e ∷ es) cache =
    let (es', cache') = update_rows p f es cache in
    if p e then (f e ∷ es', cache_update e (f e) cache') else (e ∷ es', cache')

-- UPDATE Events SET f WHERE p
unfoldable pub update_events : (EventRow → Bool) → (EventRow → EventRow) → Tables → Tables
update_events p f t =
    let (events, cache) = update_rows p f t.events t.group_cache in
    record t { events = events; group_cache = cache }

-- DELETE FROM Events WHERE p, with `fkd_headers_atts_event_id`.
unfoldable pub delete_events : (EventRow → Bool) → Tables → Tables
delete_events p t =
    let gone = λ (i : ℕ). any (λ e. p e && (e.id == i)) t.events in
    record t {
      events = keep (λ e. not (p e)) t.events;
      headers = keep (λ h. not (gone h.event_id)) t.headers;
      attachments = keep (λ a. not (gone a.event_id)) t.attachments;
    }
