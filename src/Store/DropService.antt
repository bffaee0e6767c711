-- ===== src/Store/DropService.antt =====
-- The statements of `rtcom_el_delete_by_service` of src/eventlogger.c, and GroupCache.
use rtcom_eventlogger.Common.{
  ℕ, ◌≡◌, refl, sym, ◌∙◌, ap, subst, inl, inr, Bool, true, false, not, List, [], ◌∷◌, map, String,
  arith, ◌==◌, same, keep, any, Bool-cases, if◌then◌else◌,
}
use rtcom_eventlogger.Store.{EventRow, GroupRow, Tables, in_group, is_for, delete_events}
use rtcom_eventlogger.Store.Rows.{Has, Has-of_any, any_of_Has, Descending}
use rtcom_eventlogger.Store.Cache.{
  of_row, view, aggregate, listed, members, Tracks, OneService, Consistent, Has-aggregate,
  aggregate-Shows,
}
use rtcom_eventlogger.Store.Refresh.{drop_service}
use rtcom_eventlogger.Store.Drop.{Descending-keep, OneService-keep}

-- All rows that `q` picks stay, or all go.
keep_all_or_none :
    {A : Type 0} (b : Bool) (p q : A → Bool) (xs : List A)
    → ((x : A) → Has x xs → q x ≡ true → p x ≡ b)
    → keep q (keep (λ x. not (p x)) xs) ≡ (if b then [] else keep q xs)
keep_all_or_none true p q [] h = refl
keep_all_or_none false p q [] h = refl
keep_all_or_none b p q (x ∷ xs) h =
    let rest = keep_all_or_none b p q xs (λ y m. h y (inr m)) in
    elim (Bool-cases (q x)) [
      | inl picked ↦ with_head b rest picked (h x (inl refl) picked)
      | inr other ↦ without_head b rest other
    ]
  where
    with_head :
        (b : Bool)
        → keep q (keep (λ x. not (p x)) xs) ≡ (if b then [] else keep q xs)
        → q x ≡ true
        → p x ≡ b
        → keep q (keep (λ x. not (p x)) (x ∷ xs)) ≡ (if b then [] else keep q (x ∷ xs))
    with_head true rest picked same = ground (arith, rest, picked, same)
    with_head false rest picked same = ground (arith, rest, picked, same)

    without_head :
        (b : Bool)
        → keep q (keep (λ x. not (p x)) xs) ≡ (if b then [] else keep q xs)
        → q x ≡ false
        → keep q (keep (λ x. not (p x)) (x ∷ xs)) ≡ (if b then [] else keep q (x ∷ xs))
    without_head true rest other = ground (arith, rest, other)
    without_head false rest other = ground (arith, rest, other)

module _ (s : ℕ) (es : List EventRow) (cache : List GroupRow) (d : Descending es)
    (t : Tracks es cache) (o : OneService es) where
  abbrev serves : EventRow → Bool
  serves e = e.service_id == s

  abbrev row_serves : GroupRow → Bool
  row_serves r = r.service_id == s

  -- An event of the group of a row, and of its service.
  event_of_row :
      (h : String) (r : GroupRow)
      → Has r cache
      → is_for h r ≡ true
      → (x : EventRow) × Has x es × (in_group h x ≡ true) × (x.service_id ≡ r.service_id)
  event_of_row h r m for_h =
      let (x, mx, ix, l, w) =
        aggregate-Shows h es (of_row r) d (Has-aggregate es cache r h t m for_h) in
      (x, mx, ix, w)

  uniform :
      (b : Bool) (h : String)
      → ((e : EventRow) → Has e es → in_group h e ≡ true → serves e ≡ b)
      → view h (keep (λ r. not (row_serves r)) cache)
        ≡ listed (aggregate (members h (keep (λ e. not (serves e)) es)))
  uniform b h all =
      ap (map of_row) (
        keep_all_or_none b row_serves (is_for h) cache (λ r m for_h.
          let (x, mx, ix, w) = event_of_row h r m for_h in
          subst (λ z. (z == s) ≡ b) w (all x mx ix)))
      ∙ kept b
      ∙ ap (λ z. listed (aggregate z)) (sym (keep_all_or_none b serves (in_group h) es all))
    where
      kept :
          (b : Bool)
          → map of_row (if b then [] else keep (is_for h) cache)
            ≡ listed (aggregate (if b then [] else members h es))
      kept true = refl
      kept false = t h

  service_dropped :
      (h : String)
      → view h (keep (λ r. not (row_serves r)) cache)
        ≡ listed (aggregate (members h (keep (λ e. not (serves e)) es)))
  service_dropped h = elim (Bool-cases (any (in_group h) es)) [
    | inl some_event ↦
        let (e, m, i) = Has-of_any (in_group h) es some_event in
        uniform (serves e) h (λ x mx ix. ap (λ z. z == s) (o h x e mx m ix i))
    | inr no_event ↦ uniform true h (λ x mx ix. cc (any_of_Has (in_group h) x es ix mx, no_event))
  ]

-- Deleting the events of a service and its rows of GroupCache keeps the cache right for every group.
pub drop_service-Consistent : (s : ℕ) (t : Tables) → Consistent t → Consistent (drop_service s t)
unfolding delete_events
drop_service-Consistent s t c = record {
  ids = Descending-keep (λ e. not (e.service_id == s)) t.events c.ids;
  one_service = OneService-keep (λ e. not (e.service_id == s)) t.events c.one_service;
  tracks = service_dropped s t.events t.group_cache c.ids c.tracks c.one_service;
}
