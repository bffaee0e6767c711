-- ===== src/Logger/Lookup/Totals.antt =====
-- The group totals that src/eventlogger.c answers from GroupCache, and the events themselves.
use rtcom_eventlogger.Common.{
  ℕ, ◌+◌, ◌≡◌, refl, ◌∙◌, ap, ℤ, pos, ◌+ℤ◌, ◌-ℤ◌, true, Option, none, some, List, [], ◌∷◌, map,
  String, keep, length, arith, int_laws,
}
use rtcom_eventlogger.Db.Exec.{feed}
use rtcom_eventlogger.Row.{int32}
use rtcom_eventlogger.Row.Bounds.{IsInt, signed32-word32}
use rtcom_eventlogger.Store.{EventRow, GroupRow, is_for}
use rtcom_eventlogger.Store.Cache.{Summary, of_row, combine, aggregate, listed, members, Consistent}
use rtcom_eventlogger.Logger.{El, World, select}
use rtcom_eventlogger.Logger.Single.{Unless, Unless-mono, select-Unless}
use rtcom_eventlogger.Logger.Lookup.{GroupInfo, no_info, get_group_info_slave, get_group_info}

-- SUM (is_read)
abbrev pub sum_read : List EventRow → ℤ
sum_read [] = pos 0
sum_read (e ∷ es) = sum_read es +ℤ e.is_read

-- The totals of some events, counted one by one.
abbrev pub Counts : List EventRow → GroupInfo → Type 0
Counts es i =
    (i.total_events ≡ pos (length es)) × (i.unread_events ≡ pos (length es) -ℤ sum_read es)

total_of : Option Summary → ℕ
total_of none = 0
total_of (some s) = s.total

read_of : Option Summary → ℤ
read_of none = pos 0
read_of (some s) = s.read

combine-total : (e : EventRow) (o : Option Summary) → (combine e o).total ≡ total_of o + 1
unfolding total_of
combine-total e none = refl
combine-total e (some s) = refl

combine-read : (e : EventRow) (o : Option Summary) → (combine e o).read ≡ read_of o +ℤ e.is_read
unfolding read_of
combine-read e none = omega int_laws
combine-read e (some s) = refl

aggregate-total : (es : List EventRow) → total_of (aggregate es) ≡ length es
unfolding total_of
aggregate-total [] = refl
aggregate-total (e ∷ es) = omega (arith, combine-total e (aggregate es), aggregate-total es)

aggregate-read : (es : List EventRow) → read_of (aggregate es) ≡ sum_read es
unfolding read_of
aggregate-read [] = refl
aggregate-read (e ∷ es) =
    combine-read e (aggregate es) ∙ ap (λ z. z +ℤ e.is_read) (aggregate-read es)

-- The callback on the only row of a group, or on none.
fed_rows :
    (o : Option Summary) (rows : List GroupRow)
    → map of_row rows ≡ listed o
    → let i = feed get_group_info_slave no_info rows in
      (i.total_events ≡ int32 (pos (total_of o)))
      × (i.unread_events ≡ int32 (int32 (pos (total_of o)) -ℤ int32 (read_of o)))
unfolding total_of read_of ◌-ℤ◌
fed_rows none [] h = (refl, refl)
fed_rows none (r ∷ rows) h = cc
fed_rows (some s) [] h = cc
fed_rows (some s) (r ∷ []) h =
    let same = head_eq h in
    (
      ap (λ (x : Summary). int32 (pos x.total)) same,
      ap (λ (x : Summary). int32 (int32 (pos x.total) -ℤ int32 x.read)) same,
    )
  where
    head_eq : of_row r ∷ [] ≡ s ∷ [] → of_row r ≡ s
    head_eq p = cc
fed_rows (some s) (r ∷ r' ∷ rows) h = cc

-- The totals of some events fit the type `int`.
abbrev pub Fits : List EventRow → Type 0
Fits es = IsInt (pos (length es)) × IsInt (sum_read es) × IsInt (pos (length es) -ℤ sum_read es)

-- With no transaction open, a cache that counts the events of each group, and totals that fit an
-- `int`: the totals that `rtcom_el_get_group_info` stores, where it succeeds, are the number of
-- events of the group and the number of those that are not read; the database is as it was.
pub get_group_info-Counts :
    (w : World) (g : String) (el : El)
    → el.db.core.autocommit ≡ true
    → Consistent el.db.core.tables
    → Fits (members g el.db.core.tables.events)
    → Unless
        (λ i el'. Counts (members g el.db.core.tables.events) i × (el'.db.core ≡ el.db.core))
        el
        (get_group_info w g el)
unfolding get_group_info
get_group_info-Counts w g el alone c (fit_total, fit_read, fit_unread) =
    Unless-mono _ _ el
      (select w get_group_info_slave no_info (λ t. keep (is_for g) t.group_cache) el)
      (λ i el' (fed, core, sent). (counted i fed, core))
      (select-Unless w get_group_info_slave no_info (λ t. keep (is_for g) t.group_cache) el alone)
  where
    counted :
        (i : GroupInfo)
        → i ≡ feed get_group_info_slave no_info (keep (is_for g) el.db.core.tables.group_cache)
        → Counts (members g el.db.core.tables.events) i
    counted i fed =
        let ms = members g el.db.core.tables.events in
        let (total, unread) =
          fed_rows (aggregate ms) (keep (is_for g) el.db.core.tables.group_cache) (c.tracks g) in
        (
          ap (λ (x : GroupInfo). x.total_events) fed
              ∙ total
              ∙ ap (λ n. int32 (pos n)) (aggregate-total ms)
              ∙ signed32-word32 (pos (length ms)) fit_total,
          ap (λ (x : GroupInfo). x.unread_events) fed
              ∙ unread
              ∙ ap (λ n. int32 (int32 (pos n) -ℤ int32 (read_of (aggregate ms))))
                  (aggregate-total ms)
              ∙ ap (λ z. int32 (int32 (pos (length ms)) -ℤ int32 z)) (aggregate-read ms)
              ∙ ap (λ z. int32 (z -ℤ int32 (sum_read ms)))
                  (signed32-word32 (pos (length ms)) fit_total)
              ∙ ap (λ z. int32 (pos (length ms) -ℤ z)) (signed32-word32 (sum_read ms) fit_read)
              ∙ signed32-word32 (pos (length ms) -ℤ sum_read ms) fit_unread,
        )
