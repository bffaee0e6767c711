-- ===== src/Store/Inserted.antt =====
-- What the insert trigger of src/db.c does to the view of one group.
use rtcom_eventlogger.Common.{
  ℕ, ◌+◌, ◌<◌, ◌≡◌, ◌≢◌, refl, ap, ℤ, pos, ◌+ℤ◌, int_laws, Bool, true, false, ◌&&◌, ◌||◌, Option,
  none, some, List, [], ◌∷◌, map, String, arith, ◌==◌, same_iff, same_refl, any,
}
use rtcom_eventlogger.Store.{
  EventRow, GroupRow, is_for, unique_event_ids, empty_row, add_empty, count_event, checked,
  cache_insert,
}
use rtcom_eventlogger.Store.Rows.{keep_none}
use rtcom_eventlogger.Store.Cache.{Summary, of_row, view, combine, listed, members}

-- `gc_update_ev_add4` on the summary of the group's row
abbrev pub bump : EventRow → Summary → Summary
bump e s = record s { last = e.id; total = s.total + 1; read = s.read +ℤ e.is_read }

pub view-count_self :
    (e : EventRow) (g : String) (cache : List GroupRow)
    → view g (map (count_event e g) cache) ≡ map (bump e) (view g cache)
view-count_self e g [] = refl
view-count_self e g (r ∷ rs) = ground (arith, view-count_self e g rs)

pub view-count_ne :
    (e : EventRow) (g h : String) (cache : List GroupRow)
    → g ≢ h
    → view h (map (count_event e g) cache) ≡ view h cache
view-count_ne e g h [] ne = refl
view-count_ne e g h (r ∷ rs) ne =
    ground (arith, view-count_ne e g h rs ne, same_iff r.group_uid g, same_iff r.group_uid h)

counted_any :
    (e : EventRow) (g : String) (cache : List GroupRow)
    → any (is_for g) cache ≡ true
    → any (λ s. s.event_id == e.id) (map (count_event e g) cache) ≡ true
counted_any e g [] h = cc
counted_any e g (r ∷ rs) h = ground (arith, counted_any e g rs)

-- Two rows for one group would end with one event id.
pub one_row_per_group :
    (e : EventRow) (g : String) (r : GroupRow) (cache : List GroupRow)
    → is_for g r ≡ true
    → unique_event_ids (map (count_event e g) (r ∷ cache)) ≡ true
    → any (is_for g) cache ≡ false
unfolding unique_event_ids
one_row_per_group e g r cache m u = ground (arith, counted_any e g cache)

pub view_none :
    (g : String) (cache : List GroupRow) → any (is_for g) cache ≡ false → view g cache ≡ []
view_none g cache h = ap (map of_row) (keep_none (is_for g) cache h)

pub view_empty :
    (service : ℕ) (g : String) (cache : List GroupRow)
    → view g (empty_row service g ∷ cache) ≡ of_row (empty_row service g) ∷ view g cache
view_empty service g cache = ground (arith, same_refl g)

pub add_empty_old :
    (service : ℕ) (g : String) (cache : List GroupRow)
    → any (λ r. r.event_id == 0 || (r.service_id == service && is_for g r)) cache ≡ true
    → add_empty service g cache ≡ cache
unfolding add_empty
add_empty_old service g cache h = rw h

pub add_empty_new :
    (service : ℕ) (g : String) (cache : List GroupRow)
    → any (λ r. r.event_id == 0 || (r.service_id == service && is_for g r)) cache ≡ false
    → add_empty service g cache ≡ empty_row service g ∷ cache
unfolding add_empty
add_empty_new service g cache h = rw h

pub view-add_empty_ne :
    (service : ℕ) (g h : String) (cache : List GroupRow)
    → g ≢ h
    → view h (add_empty service g cache) ≡ view h cache
unfolding add_empty
view-add_empty_ne service g h cache ne = ground (arith, same_iff g h)

checked_inv : (c c' : List GroupRow) → checked c ≡ some c' → (c' ≡ c) × (unique_event_ids c ≡ true)
checked_inv c c' h = ground arith

pub cache_insert_inv :
    (e : EventRow) (g : String) (cache cache' : List GroupRow)
    → e.group_uid ≡ some g
    → cache_insert e cache ≡ some cache'
    → (cache' ≡ map (count_event e g) (add_empty e.service_id g cache))
      × (unique_event_ids (map (count_event e g) (add_empty e.service_id g cache)) ≡ true)
cache_insert_inv e g cache cache' grouped h = checked_inv _ cache' (rw grouped at h)

pub listed-none : (o : Option Summary) → [] ≡ listed o → o ≡ none
listed-none none h = refl
listed-none (some s) h = cc

-- The row that makes `gc_update_ev_add1` do nothing.
abbrev pub clash : ℕ → String → GroupRow → Bool
clash service g r = r.event_id == 0 || (r.service_id == service && is_for g r)

-- The newest event of a group that has some.
pub combine_newest :
    (e : EventRow) (s : Summary)
    → s.last < e.id
    → s.service ≡ e.service_id
    → combine e (some s) ≡ bump e s
combine_newest e s h v = ground arith

zero_plus : (x : ℤ) → pos 0 +ℤ x ≡ x
zero_plus x = omega int_laws

pub combine_first :
    (e : EventRow)
    → combine e none ≡ bump e (record { last = 0; service = e.service_id; total = 0; read = pos 0 })
combine_first e = ground (arith, zero_plus e.is_read)

pub clash_lem :
    (service : ℕ) (g : String) (r : GroupRow)
    → 0 < r.event_id
    → clash service g r ≡ true
    → (r.service_id ≡ service) × (is_for g r ≡ true)
clash_lem service g r h c = ground arith

pub members_new :
    (e : EventRow) (g : String) (es : List EventRow)
    → e.group_uid ≡ some g
    → members g (e ∷ es) ≡ e ∷ members g es
members_new e g es h = ground (arith, same_refl g)
