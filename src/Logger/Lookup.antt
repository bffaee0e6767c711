-- ===== src/Logger/Lookup.antt =====
-- The operations of src/eventlogger.c that only read: group totals, counts, headers.
use mathlib.Core.List.{reverse}
use rtcom_eventlogger.Common.{
  ℕ, ℤ, pos, negsuc, eqb_ℤ, ◌++◌, if◌then◌else◌, ◌-ℤ◌, ◌&&◌, Bool, false, not, Option, none, some,
  List, [], ◌∷◌, map, String, ◌==◌, same, same_opt, keep, length,
}
use rtcom_eventlogger.Store.{EventRow, RemoteRow, HeaderRow, GroupRow, Tables, is_for, max_id}
use rtcom_eventlogger.Store.Cache.{members}
use rtcom_eventlogger.Logger.{
  El, World, Outcome, crashed, failed, good, Exec, pure, ◌>>=◌, gets, lookup_id, select,
}
use rtcom_eventlogger.Logger.Change.{single_int, or_none}
use rtcom_eventlogger.Row.{int32}
pub mod Totals

-- What `rtcom_el_get_group_info` stores through its pointers.
pub record GroupInfo : Type 0 where
  pub total_events : ℤ
  pub unread_events : ℤ
  pub group_flags : ℤ

abbrev pub no_info : GroupInfo
no_info = record { total_events = pos 0; unread_events = pos 0; group_flags = pos 0 }

-- `_get_group_info_slave`, which reads and subtracts numbers of type `int`
abbrev pub get_group_info_slave : GroupRow → GroupInfo → GroupInfo
get_group_info_slave r _ = record {
  total_events = int32 (pos r.total_events);
  unread_events = int32 (int32 (pos r.total_events) -ℤ int32 r.read_events);
  group_flags = int32 (pos r.flags);
}

-- `g_hash_table_insert` on texts
abbrev pub put_text : String → String → List (String × String) → List (String × String)
put_text k v [] = (k, v) ∷ []
put_text k v ((k', v') ∷ rest) = if same k k' then (k, v) ∷ rest else (k', v') ∷ put_text k v rest

-- `_fetch_event_headers_slave`
abbrev pub fetch_event_headers_slave : HeaderRow → List (String × String) → List (String × String)
fetch_event_headers_slave h table = put_text h.name h.value table

abbrev pub headers_for : ℤ → Tables → List HeaderRow
headers_for i t = reverse (keep (λ h. eqb_ℤ (pos h.event_id) i) t.headers)

-- `_events_by_header_slave`
abbrev pub events_by_header_slave : HeaderRow → List ℤ → List ℤ
events_by_header_slave h arr = arr ++ (pos h.event_id ∷ [])

abbrev pub headers_with : String → String → Tables → List HeaderRow
headers_with key val t = reverse (keep (λ h. same h.name key && same h.value val) t.headers)

-- SELECT DISTINCT col FROM Remotes WHERE col IS NOT NULL
abbrev pub distinct_texts : List (Option String) → List String
distinct_texts [] = []
distinct_texts (none ∷ rest) = distinct_texts rest
distinct_texts (some x ∷ rest) = x ∷ keep (λ y. not (same x y)) (distinct_texts rest)

-- `_unique_remote_col_slave`
abbrev pub unique_remote_col_slave : String → List String → List String
unique_remote_col_slave v li = v ∷ li

-- `rtcom_el_get_last_group_uid`
abbrev pub get_last_group_uid : Exec (Option String)
get_last_group_uid = gets (λ el. el.last_group_uid)

abbrev pub map_good : {A B : Type 0} → (A → B) → Outcome A × El → Outcome (Option B) × El
map_good f (good a, el) = (good (some (f a)), el)
map_good f (failed e, el) = (good none, el)
map_good f (crashed, el) = (crashed, el)

module _ (w : World) where
  -- `rtcom_el_fetch_event_headers`; `none` is NULL here and below.
  unfoldable pub fetch_event_headers : ℤ → Exec (Option (List (String × String)))
  fetch_event_headers event_id el =
      map_good (λ t. t) (select w fetch_event_headers_slave [] (headers_for event_id) el)

  -- `rtcom_el_get_events_by_header`, whose array ends by -1
  unfoldable pub get_events_by_header : String → String → Exec (Option (List ℤ))
  get_events_by_header key val el =
      map_good (λ a. a ++ (negsuc 0 ∷ []))
        (select w events_by_header_slave [] (headers_with key val) el)

  -- `unique_remote_col`
  unfoldable pub unique_remote_col : (RemoteRow → Option String) → Exec (Option (List String))
  unique_remote_col col el =
      map_good reverse
        (select w unique_remote_col_slave [] (λ t. distinct_texts (map col (reverse t.remotes))) el)

  abbrev pub get_unique_remote_ebook_uids : Exec (Option (List String))
  get_unique_remote_ebook_uids = unique_remote_col (λ r. r.abook_uid)

  abbrev pub get_unique_remote_uids : Exec (Option (List String))
  get_unique_remote_uids = unique_remote_col (λ r. some r.remote_uid)

  abbrev pub get_unique_remote_names : Exec (Option (List String))
  get_unique_remote_names = unique_remote_col (λ r. r.remote_name)

  -- `rtcom_el_get_group_info`
  unfoldable pub get_group_info : String → Exec GroupInfo
  get_group_info g = select w get_group_info_slave no_info (λ t. keep (is_for g) t.group_cache)

  -- `rtcom_el_get_group_most_recent_event_id`: MAX (id) is NULL, which is read as 0, where there is
  -- no event; `none` is -1.
  unfoldable pub get_group_most_recent_event_id : String → Exec (Option ℕ)
  get_group_most_recent_event_id g el =
      or_none (select w single_int none (λ t. max_id (members g t.events) ∷ []) el)

  -- SELECT COUNT (*) FROM Events WHERE p, in both functions below
  abbrev pub count : (EventRow → Bool) → Exec (Option ℕ)
  count p el = or_none (select w single_int none (λ t. length (keep p t.events) ∷ []) el)

  -- `rtcom_el_get_local_remote_uid_events_n`
  unfoldable pub get_local_remote_uid_events_n : String → String → Exec (Option ℕ)
  get_local_remote_uid_events_n local_uid remote_uid =
      count (λ e. same_opt e.local_uid (some local_uid) && same_opt e.remote_uid (some remote_uid))

  -- `rtcom_el_count_by_service`. Without a service it looks for the service -1, which no row of the
  -- table has.
  unfoldable pub count_by_service : Option String → Exec (Option ℕ)
  count_by_service none = count (λ _. false)
  count_by_service (some service) = do
    services ← gets (λ el. el.services)
    elim (lookup_id service services) [
      | none ↦ pure (some 0)
      | some s ↦ count (λ e. e.service_id == s)
    ]
