-- ===== src/Logger/Delete/Covered.antt =====
-- The list of groups that src/eventlogger.c refreshes after a deletion: `get_event_group_uids` and
-- the text of the IN in `update_group_cache`.
use rtcom_eventlogger.Common.{
  ◌≡◌, refl, sym, ◌∙◌, subst, inl, inr, Bool, true, false, not, ◌||◌, Option, none, some, List, [],
  ◌∷◌, map, String, arith, same, same_iff, same_opt, same_opt_iff, same_opt-some, same_opt-none,
  keep, any, Bool-cases,
}
use rtcom_eventlogger.Db.Exec.{feed}
use rtcom_eventlogger.Store.{EventRow, Tables, belongs, in_group, delete_events}
use rtcom_eventlogger.Store.Rows.{Has}
use rtcom_eventlogger.Store.Cache.{Consistent}
use rtcom_eventlogger.Store.Refresh.{comma, in_list, distinct, refresh_groups, purge}
use rtcom_eventlogger.Store.Delete.{Covers, delete_refresh-Consistent}
use rtcom_eventlogger.Logger.Delete.{get_group_uid_slave, group_uids}

clash : {A : Type 0} {b : Bool} → b ≡ true → b ≡ false → A
clash n e = cc

comma_parts :
    (x : String) (o : Option (List String)) (gs : List String)
    → comma x o ≡ some gs
    → (ys : List String) × (o ≡ some ys) × (gs ≡ x ∷ ys)
comma_parts x none gs h = cc
comma_parts x (some []) gs h = cc
comma_parts x (some (y ∷ ys)) gs h = (y ∷ ys, refl, sym (injective h))
  where
    injective : {a b : List String} → ◌≡◌ {A = Option (List String)} (some a) (some b) → a ≡ b
    injective p = cc

in_list-any :
    (g : String) (xs : List (Option String)) (gs : List String)
    → in_list xs ≡ some gs
    → any (same_opt (some g)) xs ≡ true
    → any (same g) gs ≡ true
unfolding in_list
in_list-any g [] gs h m = cc
in_list-any g (none ∷ rest) gs h m = in_list-any g rest gs h (none_no rest m)
  where
    none_no :
        (r : List (Option String))
        → any (same_opt (some g)) (none ∷ r) ≡ true
        → any (same_opt (some g)) r ≡ true
    none_no r m = rw (same_opt-none g) at m
in_list-any g (some x ∷ []) gs h m =
    subst (λ z. any (same g) z ≡ true) (injective h) (ground (arith, same_opt-some g x, m))
  where
    injective : {a b : List String} → ◌≡◌ {A = Option (List String)} (some a) (some b) → a ≡ b
    injective p = cc
in_list-any g (some x ∷ y ∷ rest) gs h m =
    let (ys, tail, whole) = comma_parts x (in_list (y ∷ rest)) gs h in
    subst (λ z. any (same g) z ≡ true) (sym whole)
      (elim (Bool-cases (same g x)) [
        | inl e ↦ ground (arith, e)
        | inr e ↦ ground (arith, e, in_list-any g (y ∷ rest) ys tail (later e))
      ])
  where
    later : same g x ≡ false → any (same_opt (some g)) (y ∷ rest) ≡ true
    later e = ground (arith, m, e, same_opt-some g x)

feed-any :
    (q : Option String → Bool) (acc xs : List (Option String))
    → any q (feed get_group_uid_slave acc xs) ≡ (any q acc || any q xs)
feed-any q acc [] = ground arith
feed-any q acc (x ∷ xs) = ground (arith, feed-any q (x ∷ acc) xs)

any-keep :
    {A : Type 0} (q r : A → Bool) (xs : List A)
    → ((y : A) → q y ≡ true → r y ≡ true)
    → any q xs ≡ true
    → any q (keep r xs) ≡ true
any-keep q r [] k h = cc
any-keep q r (x ∷ xs) k h = elim (Bool-cases (q x)) [
  | inl e ↦ rw (k x e) (ground (arith, e))
  | inr e ↦ elim (Bool-cases (r x)) [
    | inl t ↦ rw t (ground (arith, any-keep q r xs k (ground (arith, h, e))))
    | inr t ↦ rw t (any-keep q r xs k (ground (arith, h, e)))
  ]
]

distinct-any :
    (o : Option String) (xs : List (Option String))
    → any (same_opt o) xs ≡ true
    → any (same_opt o) (distinct xs) ≡ true
unfolding distinct
distinct-any o [] h = cc
distinct-any o (x ∷ xs) h = elim (Bool-cases (same_opt o x)) [
  | inl e ↦ ground (arith, e)
  | inr e ↦
      let found =
        any-keep (same_opt o) (λ y. not (same_opt x y)) (distinct xs) (λ y same_y. apart y same_y e)
          (distinct-any o xs (ground (arith, h, e))) in
      ground (arith, found)
]
  where
    apart :
        (y : Option String) → same_opt o y ≡ true → same_opt o x ≡ false → not (same_opt x y) ≡ true
    apart y same_y e = elim (Bool-cases (same_opt x y)) [
      | inr n ↦ rw n refl
      | inl t ↦
          clash ((same_opt_iff o x).1 ((same_opt_iff o y).0 same_y ∙ sym ((same_opt_iff x y).0 t)))
            e
    ]

belongs-same_opt :
    (g : String) (o : Option String) → belongs g o ≡ true → same_opt (some g) o ≡ true
belongs-same_opt g none h = cc
belongs-same_opt g (some x) h = ground (arith, h, same_opt-some g x, same_iff x g, same_iff g x)

listed_groups :
    (p : EventRow → Bool) (e : EventRow) (g : String) (es : List EventRow)
    → Has e es
    → p e ≡ true
    → in_group g e ≡ true
    → any (same_opt (some g)) (map (λ (x : EventRow). x.group_uid) (keep p es)) ≡ true
listed_groups p e g [] h t i = absurd h
listed_groups p e g (x ∷ es) (inl s) t i =
    rw (subst (λ z. p z ≡ true) s t)
      (ground (arith, belongs-same_opt g x.group_uid (subst (λ z. in_group g z ≡ true) s i)))
listed_groups p e g (x ∷ es) (inr h) t i = elim (Bool-cases (p x)) [
  | inl k ↦ rw k (ground (arith, listed_groups p e g es h t i))
  | inr k ↦ rw k (listed_groups p e g es h t i)
]

-- The groups of the events that a deletion by id or by query takes are all in the list that
-- `update_group_cache` refreshes, where that list is SQL.
group_uids-Covers :
    (p : EventRow → Bool) (t : Tables) (gs : List String)
    → in_list (feed get_group_uid_slave [] (group_uids p t)) ≡ some gs
    → Covers p gs t.events
group_uids-Covers p t gs list e g h goes member =
    in_list-any g (feed get_group_uid_slave [] (group_uids p t)) gs list (
      feed-any (same_opt (some g)) [] (group_uids p t)
      ∙ distinct-any (some g) (map (λ (x : EventRow). x.group_uid) (keep p t.events))
          (listed_groups p e g t.events h goes member))

-- The DELETE of `rtcom_el_delete_event` and `rtcom_el_delete_events` and then both statements of
-- `update_group_cache`, on tables whose GroupCache counts the events of each group: where the list
-- of the groups of the events to be deleted is SQL, the cache counts the events afterwards.
pub delete_where-Consistent :
    (p : EventRow → Bool) (t : Tables) (gs : List String)
    → Consistent t
    → in_list (feed get_group_uid_slave [] (group_uids p t)) ≡ some gs
    → Consistent (purge (refresh_groups gs (delete_events p t)))
delete_where-Consistent p t gs c list =
    delete_refresh-Consistent p gs t c (group_uids-Covers p t gs list)
