-- ===== src/Store/Insert.antt =====
-- INSERT INTO Events (src/db.c), with its triggers, and GroupCache.
use rtcom_eventlogger.Common.{
  ℕ, ◌<◌, ◌≡◌, ◌≢◌, sym, subst, ap, ◌∙◌, inl, inr, true, false, none, some, List, [], ◌∷◌, map,
  String, arith, same, same_iff, same_refl, any, Bool-cases, Option-cases,
}
use rtcom_eventlogger.Store.{
  EventRow, GroupRow, Tables, in_group, is_for, max_id, next_id, unique_event_ids, empty_row,
  add_empty, count_event, cache_insert, with_row, insert_event,
}
use rtcom_eventlogger.Store.Rows.{Has, Has-of_any, any_of_Has, Descending}
use rtcom_eventlogger.Store.Cache.{
  of_row, view, aggregate, listed, members, Tracks, Consistent, Has-aggregate, aggregate-Shows,
  aggregate-some_of, OneService, cache_ids, some_injective,
}
use rtcom_eventlogger.Store.Inserted.{
  bump, view-count_self, view-count_ne, one_row_per_group, view_none, view_empty, add_empty_old,
  add_empty_new, view-add_empty_ne, cache_insert_inv, listed-none, clash, combine_newest,
  combine_first, clash_lem, members_new,
}

module _ (e : EventRow) (g : String) (es : List EventRow) (cache : List GroupRow)
    (grouped : e.group_uid ≡ some g) (d : Descending es) (newest : max_id es < e.id)
    (t : Tracks es cache) where
  -- The group has a row of this service: it is counted up.
  old_group :
      (r : GroupRow)
      → Has r cache
      → clash e.service_id g r ≡ true
      → view g (map (count_event e g) cache) ≡ listed (aggregate (members g (e ∷ es)))
  old_group r m c =
      let ids = cache_ids es cache r d t m in
      let (same_service, for_g) = clash_lem e.service_id g r ids.0 c in
      let a = Has-aggregate es cache r g t m for_g in
      rw (view-count_self e g cache) (
        rw (members_new e g es grouped) (
          rw (t g) (
            rw a (
              ap (λ s. listed (some s))
                (sym (combine_newest e (of_row r) (omega (arith, ids)) same_service))))))

  no_clash : any (is_for g) cache ≡ false → any (clash e.service_id g) cache ≡ false
  no_clash none_yet = elim (Bool-cases (any (clash e.service_id g) cache)) [
    | inr h ↦ h
    | inl h ↦
        let (r, m, c) = Has-of_any (clash e.service_id g) cache h in
        let k = clash_lem e.service_id g r (cache_ids es cache r d t m).0 c in
        cc (any_of_Has (is_for g) r cache k.1 m)
  ]

  -- The group has no row: it gets one.
  new_group :
      any (is_for g) cache ≡ false
      → view g (map (count_event e g) (add_empty e.service_id g cache))
        ≡ listed (aggregate (members g (e ∷ es)))
  unfolding add_empty
  new_group none_yet =
      let a = listed-none _ (sym (view_none g cache none_yet) ∙ t g) in
      let first = empty_row e.service_id g in
      let counted : view g (map (count_event e g) (first ∷ cache)) ≡ bump e (of_row first) ∷ [] =
        view-count_self e g (first ∷ cache)
        ∙ ap (map (bump e)) (
            view_empty e.service_id g cache
            ∙ ap (λ v. of_row first ∷ v) (view_none g cache none_yet)) in
      rw (no_clash none_yet) (counted ∙ wanted a)
    where
      wanted :
          aggregate (members g es) ≡ none
          → bump e (of_row (empty_row e.service_id g)) ∷ []
            ≡ listed (aggregate (members g (e ∷ es)))
      wanted a =
          rw (members_new e g es grouped) (rw a (ap (λ s. listed (some s)) (sym (combine_first e))))

  -- The other groups are left alone.
  other_group : (h : String) → g ≢ h → members h (e ∷ es) ≡ members h es
  other_group h ne = ground (arith, same_iff g h)

  inserted_self :
      unique_event_ids (map (count_event e g) (add_empty e.service_id g cache)) ≡ true
      → view g (map (count_event e g) (add_empty e.service_id g cache))
        ≡ listed (aggregate (members g (e ∷ es)))
  inserted_self u = elim (Bool-cases (any (clash e.service_id g) cache)) [
    | inl c ↦
        let (r, m, k) = Has-of_any (clash e.service_id g) cache c in
        rw (add_empty_old e.service_id g cache c) (old_group r m k)
    | inr c ↦ new_group (
        one_row_per_group e g (empty_row e.service_id g) cache (same_refl g)
          (rw (add_empty_new e.service_id g cache c) at u))
  ]

  inserted_other :
      (h : String)
      → g ≢ h
      → view h (map (count_event e g) (add_empty e.service_id g cache))
        ≡ listed (aggregate (members h (e ∷ es)))
  inserted_other h ne =
      view-count_ne e g h (add_empty e.service_id g cache) ne
      ∙ view-add_empty_ne e.service_id g h cache ne
      ∙ t h
      ∙ ap (λ l. listed (aggregate l)) (sym (other_group h ne))

  cache_insert-Tracks_grouped :
      (cache' : List GroupRow) → cache_insert e cache ≡ some cache' → Tracks (e ∷ es) cache'
  cache_insert-Tracks_grouped cache' h k =
      let (same_cache, u) = cache_insert_inv e g cache cache' grouped h in
      subst (λ c. view k c ≡ listed (aggregate (members k (e ∷ es)))) (sym same_cache)
        (elim (Bool-cases (same g k)) [
          | inl e' ↦
              subst
                (λ x.
                  view x (map (count_event e g) (add_empty e.service_id g cache))
                  ≡ listed (aggregate (members x (e ∷ es))))
                ((same_iff g k).0 e') (inserted_self u)
          | inr e' ↦ inserted_other k (λ p. cc ((same_iff g k).1 p))
        ])

  -- The group has been with the service of the new event.
  same_service_as_group :
      (y : EventRow)
      → unique_event_ids (map (count_event e g) (add_empty e.service_id g cache)) ≡ true
      → OneService es
      → Has y es
      → in_group g y ≡ true
      → y.service_id ≡ e.service_id
  same_service_as_group y u o my iy = elim (Bool-cases (any (clash e.service_id g) cache)) [
    | inl c ↦
        let (r, m, k) = Has-of_any (clash e.service_id g) cache c in
        let (v, for_g) = clash_lem e.service_id g r (cache_ids es cache r d t m).0 k in
        let (x, mx, ix, l, w) =
          aggregate-Shows g es (of_row r) d (Has-aggregate es cache r g t m for_g) in
        o g y x my mx iy ix ∙ w ∙ v
    | inr c ↦
        let none_yet =
          one_row_per_group e g (empty_row e.service_id g) cache (same_refl g)
            (rw (add_empty_new e.service_id g cache c) at u) in
        let (s, some_events) = aggregate-some_of g es y my iy in
        cc (some_events, listed-none _ (sym (view_none g cache none_yet) ∙ t g))
  ]

  cache_insert-OneService_grouped :
      (cache' : List GroupRow)
      → cache_insert e cache ≡ some cache'
      → OneService es
      → OneService (e ∷ es)
  cache_insert-OneService_grouped cache' h o k x y mx my ix iy =
      let (same_cache, u) = cache_insert_inv e g cache cache' grouped h in pairs u mx my
    where
      in_new : (z : EventRow) → z ≡ e → in_group k z ≡ true → g ≡ k
      in_new z q i = (same_iff g k).0 (rw grouped at (subst (λ r. in_group k r ≡ true) q i))

      with_new :
          unique_event_ids (map (count_event e g) (add_empty e.service_id g cache)) ≡ true
          → (z w : EventRow) → z ≡ e
          → in_group k z ≡ true
          → Has w es
          → in_group k w ≡ true
          → w.service_id ≡ z.service_id
      with_new u z w q iz m iw =
          same_service_as_group w u o m (subst (λ j. in_group j w ≡ true) (sym (in_new z q iz)) iw)
          ∙ ap (λ (r : EventRow). r.service_id) (sym q)

      pairs :
          unique_event_ids (map (count_event e g) (add_empty e.service_id g cache)) ≡ true
          → Has x (e ∷ es)
          → Has y (e ∷ es)
          → x.service_id ≡ y.service_id
      pairs u (inl p) (inl q) = ap (λ (r : EventRow). r.service_id) (p ∙ sym q)
      pairs u (inl p) (inr m) = sym (with_new u x y p ix m iy)
      pairs u (inr m) (inl q) = with_new u y x q iy m ix
      pairs u (inr m) (inr n) = o k x y m n ix iy

not_member : (e : EventRow) (k : String) → e.group_uid ≡ none → in_group k e ≡ false
not_member e k h = rw h

-- The cache after the triggers of an INSERT, for a row with or without a group.
cache_insert-Tracks :
    (e : EventRow) (es : List EventRow) (cache cache' : List GroupRow)
    → Descending es
    → max_id es < e.id
    → Tracks es cache
    → cache_insert e cache ≡ some cache'
    → Tracks (e ∷ es) cache'
cache_insert-Tracks e es cache cache' d n t h = elim (Option-cases e.group_uid) [
  | inr (g, grouped) ↦ cache_insert-Tracks_grouped e g es cache grouped d n t cache' h
  | inl alone ↦ λ k.
      subst (λ c. view k c ≡ listed (aggregate (members k (e ∷ es))))
        (some_injective _ _ (rw alone at h)) (rw (not_member e k alone) (t k))
]

cache_insert-OneService :
    (e : EventRow) (es : List EventRow) (cache cache' : List GroupRow)
    → Descending es
    → max_id es < e.id
    → Tracks es cache
    → cache_insert e cache ≡ some cache'
    → OneService es
    → OneService (e ∷ es)
cache_insert-OneService e es cache cache' d n t h o = elim (Option-cases e.group_uid) [
  | inr (g, grouped) ↦ cache_insert-OneService_grouped e g es cache grouped d n t cache' h o
  | inl alone ↦ λ k x y mx my ix iy. ungrouped k x y mx my ix iy alone
]
  where
    out : (k : String) (z : EventRow) → e.group_uid ≡ none → z ≡ e → in_group k z ≡ true → ⊥
    out k z alone q i = cc (not_member e k alone, subst (λ r. in_group k r ≡ true) q i)

    ungrouped :
        (k : String) (x y : EventRow)
        → Has x (e ∷ es)
        → Has y (e ∷ es)
        → in_group k x ≡ true
        → in_group k y ≡ true
        → e.group_uid ≡ none
        → x.service_id ≡ y.service_id
    ungrouped k x y (inr m) (inr w) ix iy alone = o k x y m w ix iy
    ungrouped k x y (inl p) my ix iy alone = absurd (out k x alone p ix)
    ungrouped k x y (inr m) (inl q) ix iy alone = absurd (out k y alone q iy)

with_row-Consistent :
    (e : EventRow) (t t' : Tables)
    → max_id t.events < e.id
    → Consistent t
    → with_row e t (cache_insert e t.group_cache) ≡ some t'
    → Consistent t'
with_row-Consistent e t t' n c h = elim (Option-cases (cache_insert e t.group_cache)) [
  | inl bad ↦ cc (rw bad at h)
  | inr (cache', good) ↦ subst Consistent (some_injective _ t' (rw good at h)) (record {
    ids = (n, c.ids);
    tracks = cache_insert-Tracks e t.events t.group_cache cache' c.ids n c.tracks good;
    one_service =
        cache_insert-OneService e t.events t.group_cache cache' c.ids n c.tracks good c.one_service;
  })
]

-- An INSERT INTO Events that goes through, with the id that SQLite picks, keeps the cache right for
-- every group.
pub insert_event-Consistent :
    (new : ℕ → EventRow) (t t' : Tables)
    → ((n : ℕ) → (new n).id ≡ n)
    → Consistent t
    → insert_event new t ≡ some t'
    → Consistent t'
unfolding insert_event
insert_event-Consistent new t t' ids c h =
    with_row-Consistent (new (next_id t.events)) t t' (omega (arith, ids (next_id t.events))) c h
