-- ===== src/Store/Drop.antt =====
-- The statements that `rtcom_el_delete_by_group_uids` of src/eventlogger.c runs for a group, and
-- GroupCache.
use rtcom_eventlogger.Common.{
  ◌≤◌, ◌≡◌, refl, sym, ◌∙◌, ap, subst, inl, inr, Bool, true, false, not, ◌&&◌, Option, none, some,
  List, [], ◌∷◌, map, String, arith, same, same_iff, keep, Bool-cases,
}
use rtcom_eventlogger.Store.{
  EventRow, GroupRow, Tables, belongs, in_group, is_for, max_id, delete_events,
}
use rtcom_eventlogger.Store.Rows.{keep-keep, keep_ext, Has, Descending}
use rtcom_eventlogger.Store.Cache.{of_row, view, aggregate, listed, members, OneService, Consistent}
use rtcom_eventlogger.Store.Refresh.{drop_group}

module _ (p : EventRow → Bool) where
  pub max_id-keep : (es : List EventRow) → max_id (keep p es) ≤ max_id es
  max_id-keep [] = omega arith
  max_id-keep (e ∷ es) = elim (Bool-cases (p e)) [
    | inl k ↦ rw k (omega (arith, max_id-keep es))
    | inr k ↦ rw k (omega (arith, max_id-keep es))
  ]

  pub Descending-keep : (es : List EventRow) → Descending es → Descending (keep p es)
  Descending-keep [] d = d
  Descending-keep (e ∷ es) d = elim (Bool-cases (p e)) [
    | inl k ↦ rw k (omega (arith, max_id-keep es, d.0), Descending-keep es d.1)
    | inr k ↦ rw k (Descending-keep es d.1)
  ]

  pub Has-of_keep : (x : EventRow) (es : List EventRow) → Has x (keep p es) → Has x es
  Has-of_keep x [] h = h
  Has-of_keep x (e ∷ es) h = elim (Bool-cases (p e)) [
    | inr k ↦ inr (Has-of_keep x es (rw k at h))
    | inl k ↦ elim (kept k h) [ inl same ↦ inl same | inr rest ↦ inr (Has-of_keep x es rest) ]
  ]
    where
      kept : p e ≡ true → Has x (keep p (e ∷ es)) → Has x (e ∷ keep p es)
      kept k h = rw k at h

  pub OneService-keep : (es : List EventRow) → OneService es → OneService (keep p es)
  OneService-keep es o g x y hx hy = o g x y (Has-of_keep x es hx) (Has-of_keep y es hy)

-- Rows of two texts: those of `h` without those of `g`.
other_group :
    {A : Type 0} (p q : A → Bool) (xs : List A)
    → ((x : A) → q x ≡ true → p x ≡ false)
    → keep q (keep (λ x. not (p x)) xs) ≡ keep q xs
other_group p q xs h =
    keep-keep q (λ x. not (p x)) xs
    ∙ keep_ext (λ x. not (p x) && q x) q xs
        (λ x. elim (Bool-cases (q x)) [ inl k ↦ rw (k, h x k) refl | inr k ↦ ground (arith, k) ])

same_group : {A : Type 0} (p : A → Bool) (xs : List A) → keep p (keep (λ x. not (p x)) xs) ≡ []
same_group p [] = refl
same_group p (x ∷ xs) = ground (arith, same_group p xs)

in_group_other :
    (g h : String) (o : Option String) → same h g ≡ false → belongs h o ≡ true → belongs g o ≡ false
in_group_other g h none n k = refl
in_group_other g h (some x) n k = ground (arith, same_iff x h, same_iff x g, same_iff h g)

drop_group-Tracks :
    (g h : String) (es : List EventRow) (cache : List GroupRow)
    → view h cache ≡ listed (aggregate (members h es))
    → view h (keep (λ r. not (is_for g r)) cache)
      ≡ listed (aggregate (members h (keep (λ e. not (in_group g e)) es)))
drop_group-Tracks g h es cache t = elim (Bool-cases (same h g)) [
  | inl k ↦
      subst
        (λ z.
          view z (keep (λ r. not (is_for g r)) cache)
          ≡ listed (aggregate (members z (keep (λ e. not (in_group g e)) es))))
        (sym ((same_iff h g).0 k))
        (ap (map of_row) (same_group (is_for g) cache)
          ∙ ap (λ z. listed (aggregate z)) (sym (same_group (in_group g) es)))
  | inr k ↦
      ap (map of_row) (
        other_group (is_for g) (is_for h) cache
          (λ r i. ground (arith, same_iff r.group_uid g, same_iff r.group_uid h, same_iff h g)))
      ∙ t
      ∙ ap (λ z. listed (aggregate z))
          (sym
            (other_group (in_group g) (in_group h) es (λ e i. in_group_other g h e.group_uid k i)))
]

-- Deleting the events of a group and the group's row keeps the cache right for every group.
pub drop_group-Consistent : (g : String) (t : Tables) → Consistent t → Consistent (drop_group g t)
unfolding delete_events
drop_group-Consistent g t c = record {
  ids = Descending-keep (λ e. not (in_group g e)) t.events c.ids;
  one_service = OneService-keep (λ e. not (in_group g e)) t.events c.one_service;
  tracks = λ h. drop_group-Tracks g h t.events t.group_cache (c.tracks h);
}
