-- ===== src/Store/Cache.antt =====
-- What GroupCache is for: one row for each group that has events, which says how many there are,
-- how many are read, and which is the newest. (`flags` is left out: the triggers of src/db.c and
-- `update_group_cache` of src/eventlogger.c make different things of it.)
use rtcom_eventlogger.Common.{
  ℕ, ◌+◌, ◌≤◌, ◌<◌, ◌≡◌, refl, sym, ◌∙◌, subst, ap, inl, inr, max, ℤ, ◌+ℤ◌, true, Option, none,
  some, List, [], ◌∷◌, map, String, arith, if◌then◌else◌, ltb, same_refl, keep, Bool-cases,
}
use rtcom_eventlogger.Store.{EventRow, GroupRow, Tables, in_group, is_for, max_id}
use rtcom_eventlogger.Store.Rows.{Has, Has-keep, Has-le-max_id, Descending}

pub record Summary : Type 0 where
  pub last : ℕ
  pub service : ℕ
  pub total : ℕ
  pub read : ℤ

abbrev pub of_row : GroupRow → Summary
of_row r = record {
  last = r.event_id;
  service = r.service_id;
  total = r.total_events;
  read = r.read_events;
}

-- What the cache says of a group.
abbrev pub view : String → List GroupRow → List Summary
view g cache = map of_row (keep (is_for g) cache)

-- MAX(id), service_id of that row, COUNT(*) and SUM(is_read) of some events.
abbrev pub combine : EventRow → Option Summary → Summary
combine e none = record { last = e.id; service = e.service_id; total = 1; read = e.is_read }
combine e (some s) = record {
  last = max e.id s.last;
  service = if ltb s.last e.id then e.service_id else s.service;
  total = s.total + 1;
  read = s.read +ℤ e.is_read;
}

abbrev pub aggregate : List EventRow → Option Summary
aggregate [] = none
aggregate (e ∷ es) = some (combine e (aggregate es))

abbrev pub listed : Option Summary → List Summary
listed none = []
listed (some s) = s ∷ []

-- The events of a group.
abbrev pub members : String → List EventRow → List EventRow
members g es = keep (in_group g) es

-- For every group the cache has exactly the row that the events call for.
abbrev pub Tracks : List EventRow → List GroupRow → Type 0
Tracks es cache = (g : String) → view g cache ≡ listed (aggregate (members g es))

-- The events of a group belong to one service.
abbrev pub OneService : List EventRow → Type 0
OneService es =
    (g : String) (x y : EventRow)
    → Has x es
    → Has y es
    → in_group g x ≡ true
    → in_group g y ≡ true
    → x.service_id ≡ y.service_id

pub record Consistent (t : Tables) : Type 0 where
  pub ids : Descending t.events
  pub tracks : Tracks t.events t.group_cache
  pub one_service : OneService t.events

pub some_injective : {A : Type 0} (x y : A) → some x ≡ some y → x ≡ y
some_injective x y h = cc

aggregate_some :
    (e : EventRow) (o : Option Summary) (m : ℕ)
    → ((s : Summary) → o ≡ some s → (0 < s.last) × (s.last ≤ m))
    → m < e.id
    → (0 < (combine e o).last) × ((combine e o).last ≤ e.id)
aggregate_some e none m ih h = omega arith
aggregate_some e (some s) m ih h = omega (arith, ih s refl)

-- The newest event of a group has a positive id, which is one of the table.
pub aggregate-last :
    (g : String) (es : List EventRow) (s : Summary)
    → Descending es
    → aggregate (members g es) ≡ some s
    → (0 < s.last) × (s.last ≤ max_id es)
aggregate-last g [] s d h = cc
aggregate-last g (e ∷ es) s d h = elim (Bool-cases (in_group g e)) [
  | inr out ↦ let k = aggregate-last g es s d.1 (rw out at h) in (k.0, omega (arith, k.1))
  | inl member ↦
      let k =
        aggregate_some e (aggregate (members g es)) (max_id es)
          (λ s' h'. aggregate-last g es s' d.1 h') d.0 in
      let same_last = ap (λ (x : Summary). x.last) (some_injective _ _ (rw member at h)) in
      omega (arith, k, same_last)
]

Has-map-of_row : (r : GroupRow) (rs : List GroupRow) → Has r rs → Has (of_row r) (map of_row rs)
Has-map-of_row r (x ∷ xs) (inl e) = inl (cc)
Has-map-of_row r (x ∷ xs) (inr h) = inr (Has-map-of_row r xs h)
Has-map-of_row r [] h = absurd h

Has-listed : (s : Summary) (o : Option Summary) → Has s (listed o) → o ≡ some s
Has-listed s none h = absurd h
Has-listed s (some t) (inl e) = cc
Has-listed s (some t) (inr h) = absurd h

-- A row of the cache is the summary of its group.
pub Has-aggregate :
    (es : List EventRow) (cache : List GroupRow) (r : GroupRow) (g : String)
    → Tracks es cache
    → Has r cache
    → is_for g r ≡ true
    → aggregate (members g es) ≡ some (of_row r)
Has-aggregate es cache r g t h m =
    Has-listed (of_row r) (aggregate (members g es))
      (subst (Has (of_row r)) (t g) (Has-map-of_row r _ (Has-keep (is_for g) r cache m h)))

-- No event id of the cache is 0, and none is above the ids of the table.
pub cache_ids :
    (es : List EventRow) (cache : List GroupRow) (r : GroupRow)
    → Descending es
    → Tracks es cache
    → Has r cache
    → (0 < r.event_id) × (r.event_id ≤ max_id es)
cache_ids es cache r d t h =
    aggregate-last r.group_uid es (of_row r) d
      (Has-aggregate es cache r r.group_uid t h (same_refl r.group_uid))

-- The row of a group that a summary shows.
abbrev pub Shows : String → List EventRow → Summary → Type 0
Shows g es s =
    (x : EventRow) × Has x es × (in_group g x ≡ true) × (x.id ≡ s.last) × (x.service_id ≡ s.service)

combine_head :
    (e : EventRow) (o : Option Summary)
    → ((s : Summary) → o ≡ some s → s.last < e.id)
    → ((combine e o).last ≡ e.id) × ((combine e o).service ≡ e.service_id)
combine_head e none h = (refl, refl)
combine_head e (some s) h = ground (arith, h s refl)

-- The summary of a group shows its newest event.
pub aggregate-Shows :
    (g : String) (es : List EventRow) (s : Summary)
    → Descending es
    → aggregate (members g es) ≡ some s
    → Shows g es s
aggregate-Shows g [] s d h = cc
aggregate-Shows g (e ∷ es) s d h = elim (Bool-cases (in_group g e)) [
  | inr out ↦ let (x, m, i, l, v) = aggregate-Shows g es s d.1 (rw out at h) in (x, inr m, i, l, v)
  | inl member ↦
      let (l, v) =
        combine_head e (aggregate (members g es))
          (λ s' h'. omega (arith, d.0, aggregate-last g es s' d.1 h')) in
      let q = some_injective _ _ (rw member at h) in
      (
        e,
        inl refl,
        member,
        sym l ∙ ap (λ (x : Summary). x.last) q,
        sym v ∙ ap (λ (x : Summary). x.service) q,
      )
]

-- Equal ids are of one row.
pub Has-id_injective :
    (es : List EventRow) (x y : EventRow)
    → Descending es
    → Has x es
    → Has y es
    → x.id ≡ y.id
    → x ≡ y
Has-id_injective [] x y d h k e = absurd h
Has-id_injective (z ∷ es) x y d (inl p) (inl q) e = p ∙ sym q
Has-id_injective (z ∷ es) x y d (inr h) (inr k) e = Has-id_injective es x y d.1 h k e
Has-id_injective (z ∷ es) x y d (inl p) (inr k) e =
    absurd (omega (arith, d.0, Has-le-max_id es y k, e, ap (λ (r : EventRow). r.id) p))
Has-id_injective (z ∷ es) x y d (inr h) (inl q) e =
    absurd (omega (arith, d.0, Has-le-max_id es x h, e, ap (λ (r : EventRow). r.id) q))

-- A group with an event has a summary.
pub aggregate-some_of :
    (g : String) (es : List EventRow) (x : EventRow)
    → Has x es
    → in_group g x ≡ true
    → (s : Summary) × (aggregate (members g es) ≡ some s)
aggregate-some_of g [] x h i = absurd h
aggregate-some_of g (e ∷ es) x h i = elim (Bool-cases (in_group g e)) [
  | inl member ↦ (combine e (aggregate (members g es)), rw member)
  | inr out ↦ elim h [
    | inl p ↦ cc (subst (λ z. in_group g z ≡ true) p i)
    | inr t ↦ let (s, q) = aggregate-some_of g es x t i in (s, rw out q)
  ]
]
