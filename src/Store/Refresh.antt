-- ===== src/Store/Refresh.antt =====
-- The statements of src/eventlogger.c that write GroupCache themselves: those of
-- `update_group_cache`, and the DELETE statements on the cache.
use rtcom_eventlogger.Common.{
  ℕ, ◌+◌, not, Bool, ◌&&◌, ◌||◌, Option, none, some, List, [], ◌∷◌, String, ◌==◌, same, same_opt,
  keep, any,
}
use rtcom_eventlogger.Store.{EventRow, GroupRow, Tables, in_group, is_for, delete_events}
use rtcom_eventlogger.Store.Cache.{Summary, aggregate, members}

-- SUM(flags)
abbrev pub sum_flags : List EventRow → ℕ
sum_flags [] = 0
sum_flags (e ∷ es) = e.flags + sum_flags es

-- The row of a group: MAX(id), service_id, group_uid, COUNT(*), SUM(is_read), SUM(flags).
abbrev pub group_row : String → ℕ → Option Summary → Option GroupRow
group_row g flags none = none
group_row g flags (some s) = some (record {
  event_id = s.last;
  service_id = s.service;
  group_uid = g;
  total_events = s.total;
  read_events = s.read;
  flags = flags;
})

-- INSERT OR REPLACE, which first deletes the rows that either UNIQUE constraint forbids.
abbrev pub replace_row : List GroupRow → Option GroupRow → List GroupRow
replace_row cache none = cache
replace_row cache (some r) =
    r
    ∷ keep
        (λ x. not (
          (x.event_id == r.event_id)
          || ((x.service_id == r.service_id) && same x.group_uid r.group_uid)))
        cache

-- The rows of `GROUP BY group_uid` over the groups of an IN list.
unfoldable pub refresh : List EventRow → List String → List GroupRow → List GroupRow
refresh es [] cache = cache
refresh es (g ∷ gs) cache =
    refresh es gs
      (replace_row cache (group_row g (sum_flags (members g es)) (aggregate (members g es))))

unfoldable pub refresh_groups : List String → Tables → Tables
refresh_groups gs t = record t { group_cache = refresh t.events gs t.group_cache }

-- DELETE FROM GroupCache WHERE NOT EXISTS (… events.group_uid = groupcache.group_uid …)
unfoldable pub purge : Tables → Tables
purge t = record t { group_cache = keep (λ r. any (in_group r.group_uid) t.events) t.group_cache }

-- What `update_group_cache` puts between the parentheses of IN: an element is followed by a comma
-- unless it is the last of the list, a NULL is left out, and a comma that nothing follows is no SQL.
abbrev pub comma : String → Option (List String) → Option (List String)
comma g none = none
comma g (some []) = none
comma g (some (h ∷ hs)) = some (g ∷ h ∷ hs)

unfoldable pub in_list : List (Option String) → Option (List String)
in_list [] = some []
in_list (none ∷ rest) = in_list rest
in_list (some g ∷ []) = some (g ∷ [])
in_list (some g ∷ h ∷ rest) = comma g (in_list (h ∷ rest))

-- SELECT DISTINCT
unfoldable pub distinct : List (Option String) → List (Option String)
distinct [] = []
distinct (x ∷ xs) = x ∷ keep (λ y. not (same_opt x y)) (distinct xs)

-- DELETE FROM GroupCache WHERE p
abbrev pub delete_rows : (GroupRow → Bool) → Tables → Tables
delete_rows p t = record t { group_cache = keep (λ r. not (p r)) t.group_cache }

-- The two statements that `rtcom_el_delete_by_group_uids` runs for a group, and the two that
-- `rtcom_el_delete_by_service` runs for a service.
abbrev pub drop_group : String → Tables → Tables
drop_group g t = delete_rows (is_for g) (delete_events (in_group g) t)

abbrev pub drop_service : ℕ → Tables → Tables
drop_service s t = delete_rows (λ r. r.service_id == s) (delete_events (λ e. e.service_id == s) t)
