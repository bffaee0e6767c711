-- ===== src/Store/Recounted.antt =====
-- What the update trigger of src/db.c does to the view of one group.
use rtcom_eventlogger.Common.{
  ◌≡◌, ◌≢◌, refl, subst, inl, inr, ℤ, pos, ◌+ℤ◌, ◌-ℤ◌, int_laws, Bool, ◌&&◌, Option, none, some,
  List, [], ◌∷◌, map, String, arith, if◌then◌else◌, same, same_iff, Bool-cases,
}
use rtcom_eventlogger.Store.{EventRow, GroupRow, belongs, in_group, recount_event, cache_update_at}
use rtcom_eventlogger.Store.Cache.{Summary, view}

abbrev pub add_read : ℤ → Summary → Summary
add_read d s = record s { read = s.read +ℤ d }

abbrev pub add_read? : ℤ → Option Summary → Option Summary
add_read? d none = none
add_read? d (some s) = some (add_read d s)

-- `gc_update_ev_update` on the summary of the group's row
abbrev pub reread : EventRow → EventRow → Summary → Summary
reread old new s = record s { read = s.read -ℤ old.is_read +ℤ new.is_read }

view-recount_self :
    (old new : EventRow) (g : String) (cache : List GroupRow)
    → view g (map (recount_event old new g) cache) ≡ map (reread old new) (view g cache)
view-recount_self old new g [] = refl
view-recount_self old new g (r ∷ rs) = ground (arith, view-recount_self old new g rs)

view-recount_ne :
    (old new : EventRow) (g h : String) (cache : List GroupRow)
    → g ≢ h
    → view h (map (recount_event old new g) cache) ≡ view h cache
view-recount_ne old new g h [] ne = refl
view-recount_ne old new g h (r ∷ rs) ne =
    ground
      (arith, view-recount_ne old new g h rs ne, same_iff r.group_uid g, same_iff r.group_uid h)

-- By how much the events that the UPDATE hits change the number of read ones of a group.
abbrev pub change : (EventRow → Bool) → (EventRow → EventRow) → String → List EventRow → ℤ
change p f g [] = pos 0
change p f g (e ∷ es) =
    if p e && in_group g e then change p f g es +ℤ ((f e).is_read -ℤ e.is_read) else change p f g es

pub reread-add_read :
    (old new : EventRow) (d : ℤ) (v : List Summary)
    → map (reread old new) (map (add_read d) v)
      ≡ map (add_read (d +ℤ (new.is_read -ℤ old.is_read))) v
reread-add_read old new d [] = refl
reread-add_read old new d (s ∷ v) =
    cc (reread-add_read old new d v, regroup s.read d old.is_read new.is_read)
  where
    regroup : (a d o n : ℤ) → a +ℤ d -ℤ o +ℤ n ≡ a +ℤ (d +ℤ (n -ℤ o))
    regroup a d o n = omega int_laws

pub map-add_read_zero : (v : List Summary) → map (add_read (pos 0)) v ≡ v
map-add_read_zero [] = refl
map-add_read_zero (s ∷ v) = cc (map-add_read_zero v, zero_right s.read)
  where
    zero_right : (a : ℤ) → a +ℤ pos 0 ≡ a
    zero_right a = omega int_laws

pub view-cache_update_at :
    (old new : EventRow) (g : String) (o : Option String) (cache : List GroupRow)
    → view g (cache_update_at old new o cache)
      ≡ (if belongs g o then map (reread old new) (view g cache) else view g cache)
view-cache_update_at old new g none cache = refl
view-cache_update_at old new g (some h) cache = elim (Bool-cases (same h g)) [
  | inl e ↦ rw e (
      subst
        (λ x. view x (map (recount_event old new h) cache) ≡ map (reread old new) (view x cache))
        ((same_iff h g).0 e) (view-recount_self old new h cache))
  | inr e ↦ rw e (view-recount_ne old new h g cache (λ q. cc ((same_iff h g).1 q)))
]

pub plus_zero : (a : ℤ) → a +ℤ pos 0 ≡ a
plus_zero a = omega int_laws

pub swap : (a d r : ℤ) → a +ℤ d +ℤ r ≡ a +ℤ r +ℤ d
swap a d r = omega int_laws

pub first_read : (o n : ℤ) → n ≡ o +ℤ (pos 0 +ℤ (n -ℤ o))
first_read o n = omega int_laws

pub more_read : (a d o n : ℤ) → a +ℤ d +ℤ n ≡ a +ℤ o +ℤ (d +ℤ (n -ℤ o))
more_read a d o n = omega int_laws
