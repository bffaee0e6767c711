-- ===== src/Store/Update.antt =====
-- UPDATE Events (src/db.c), with the trigger `gc_update_ev_update` on every row, and GroupCache.
use rtcom_eventlogger.Common.{
  ◌≡◌, refl, sym, subst, ap, ◌∙◌, ◌⊎◌, inl, inr, ℤ, pos, ◌+ℤ◌, ◌-ℤ◌, Bool, Option, none, some, List,
  [], ◌∷◌, map, String, arith, if◌then◌else◌, Bool-cases,
}
use rtcom_eventlogger.Store.{
  EventRow, GroupRow, Tables, belongs, in_group, max_id, cache_update, update_rows, update_events,
}
use rtcom_eventlogger.Store.Rows.{Has, Descending}
use rtcom_eventlogger.Store.Cache.{
  Summary, view, combine, aggregate, listed, members, OneService, Consistent,
}
use rtcom_eventlogger.Store.Recounted.{
  add_read, add_read?, reread, change, reread-add_read, map-add_read_zero, view-cache_update_at,
  plus_zero, swap, first_read, more_read,
}

-- What the assignments of the UPDATE leave alone.
pub record KeepsGroup (f : EventRow → EventRow) : Type 0 where
  pub same_id : (e : EventRow) → (f e).id ≡ e.id
  pub same_service : (e : EventRow) → (f e).service_id ≡ e.service_id
  pub same_group : (e : EventRow) → (f e).group_uid ≡ e.group_uid

module _ (p : EventRow → Bool) (f : EventRow → EventRow) (k : KeepsGroup f) where
  -- One row's trigger, on the view of a group.
  view-cache_update :
      (e : EventRow) (g : String) (cache : List GroupRow)
      → view g (cache_update e (f e) cache)
        ≡ (if in_group g e then map (reread e (f e)) (view g cache) else view g cache)
  view-cache_update e g cache =
      subst
        (λ o.
          view g (cache_update e (f e) cache)
          ≡ (if belongs g o then map (reread e (f e)) (view g cache) else view g cache))
        (k.same_group e) (view-cache_update_at e (f e) g (f e).group_uid cache)

  view-update_rows :
      (g : String) (es : List EventRow) (cache : List GroupRow)
      → view g (update_rows p f es cache).1 ≡ map (add_read (change p f g es)) (view g cache)
  unfolding update_rows
  view-update_rows g [] cache = sym (map-add_read_zero (view g cache))
  view-update_rows g (e ∷ es) cache =
      let ih = view-update_rows g es cache in
      let one = view-cache_update e g (update_rows p f es cache).1 in
      elim (Bool-cases (p e)) [
        | inr skip ↦ simp skip ih
        | inl hit ↦ elim (Bool-cases (in_group g e)) [
          | inr other ↦ simp hit (simp other (simp other at one ∙ ih))
          | inl here ↦ simp hit (
              simp here (
                simp here at one
                ∙ ap (map (reread e (f e))) ih
                ∙ reread-add_read e (f e) (change p f g es) (view g cache)))
        ]
      ]

  -- A group with no events is not changed.
  change-none :
      (g : String) (es : List EventRow) → aggregate (members g es) ≡ none → change p f g es ≡ pos 0
  change-none g [] h = refl
  change-none g (e ∷ es) h = elim (Bool-cases (in_group g e)) [
    | inr other ↦ ground (arith, change-none g es (simp other at h))
    | inl here ↦ cc (simp here at h)
  ]

  -- A row that is not hit.
  combine_skip :
      (e : EventRow) (d : ℤ) (o : Option Summary)
      → (o ≡ none → d ≡ pos 0)
      → combine e (add_read? d o) ≡ add_read d (combine e o)
  combine_skip e d none h = rw (h refl) (ground (arith, plus_zero e.is_read))
  combine_skip e d (some s) h = ground (arith, swap s.read d e.is_read)

  -- A row that is hit.
  combine_hit :
      (e : EventRow) (d : ℤ) (o : Option Summary)
      → (o ≡ none → d ≡ pos 0)
      → combine (f e) (add_read? d o) ≡ add_read (d +ℤ ((f e).is_read -ℤ e.is_read)) (combine e o)
  combine_hit e d none h =
      rw (h refl)
        (ground (arith, k.same_id e, k.same_service e, first_read e.is_read (f e).is_read))
  combine_hit e d (some s) h =
      ground (arith, k.same_id e, k.same_service e, more_read s.read d e.is_read (f e).is_read)

  aggregate-update_rows :
      (g : String) (es : List EventRow) (cache : List GroupRow)
      → aggregate (members g (update_rows p f es cache).0)
        ≡ add_read? (change p f g es) (aggregate (members g es))
  unfolding update_rows
  aggregate-update_rows g [] cache = refl
  aggregate-update_rows g (e ∷ es) cache =
      let ih = aggregate-update_rows g es cache in
      elim (Bool-cases (in_group g e)) [
        | inr other ↦ elim (Bool-cases (p e)) [
          | inr skip ↦ simp skip (simp other ih)
          | inl hit ↦ simp hit (simp (ap (belongs g) (k.same_group e) ∙ other) (simp other ih))
        ]
        | inl here ↦
            let d = change p f g es in
            let zero_if = change-none g es in
            elim (Bool-cases (p e)) [
              | inr skip ↦
                  simp skip (simp here (ap some (ap (combine e) ih ∙ combine_skip e d _ zero_if)))
              | inl hit ↦ simp hit (
                  simp (ap (belongs g) (k.same_group e) ∙ here)
                    (simp here (ap some (ap (combine (f e)) ih ∙ combine_hit e d _ zero_if))))
            ]
      ]

  listed-add_read :
      (d : ℤ) (o : Option Summary) → map (add_read d) (listed o) ≡ listed (add_read? d o)
  listed-add_read d none = refl
  listed-add_read d (some s) = refl

  Descending-update_rows :
      (es : List EventRow) (cache : List GroupRow)
      → Descending es
      → Descending (update_rows p f es cache).0 × (max_id (update_rows p f es cache).0 ≡ max_id es)
  unfolding update_rows
  Descending-update_rows [] cache d = (tt, refl)
  Descending-update_rows (e ∷ es) cache d =
      let (ih, m) = Descending-update_rows es cache d.1 in
      elim (Bool-cases (p e)) [
        | inr skip ↦ simp skip ((omega (arith, m, d.0), ih), omega (arith, m))
        | inl hit ↦
            simp hit ((omega (arith, m, d.0, k.same_id e), ih), omega (arith, m, k.same_id e))
      ]

  -- Every row after the UPDATE stands for one before it.
  abbrev StandsFor : List EventRow → EventRow → Type 0
  StandsFor es x =
      (y : EventRow) × Has y es × (x.service_id ≡ y.service_id) × (x.group_uid ≡ y.group_uid)

  StandsFor-cons :
      (e : EventRow) (es : List EventRow) (x : EventRow) → StandsFor es x → StandsFor (e ∷ es) x
  StandsFor-cons e es x (y, m, v, g) = (y, inr m, v, g)

  Has-update_rows :
      (es : List EventRow) (cache : List GroupRow) (x : EventRow)
      → Has x (update_rows p f es cache).0
      → StandsFor es x
  unfolding update_rows
  Has-update_rows [] cache x h = absurd h
  Has-update_rows (e ∷ es) cache x h = elim (Bool-cases (p e)) [
    | inr skip ↦ elim (let m : (x ≡ e) ⊎ Has x (update_rows p f es cache).0 = simp skip at h in m) [
      | inl q ↦
          (e, inl refl, ap (λ (r : EventRow). r.service_id) q, ap (λ (r : EventRow). r.group_uid) q)
      | inr m ↦ StandsFor-cons e es x (Has-update_rows es cache x m)
    ]
    | inl hit ↦ elim (let m : (x ≡ f e) ⊎ Has x (update_rows p f es cache).0 = simp hit at h in m) [
      | inl q ↦ (
        e,
        inl refl,
        ap (λ (r : EventRow). r.service_id) q ∙ k.same_service e,
        ap (λ (r : EventRow). r.group_uid) q ∙ k.same_group e,
      )
      | inr m ↦ StandsFor-cons e es x (Has-update_rows es cache x m)
    ]
  ]

  OneService-update_rows :
      (es : List EventRow) (cache : List GroupRow)
      → OneService es
      → OneService (update_rows p f es cache).0
  OneService-update_rows es cache o g x y hx hy ix iy =
      let (x', mx, vx, gx) = Has-update_rows es cache x hx in
      let (y', my, vy, gy) = Has-update_rows es cache y hy in
      vx ∙ o g x' y' mx my (ap (belongs g) (sym gx) ∙ ix) (ap (belongs g) (sym gy) ∙ iy) ∙ sym vy

  -- An UPDATE of any columns but the id, the service and the group, on any rows, keeps the cache
  -- right for every group.
  pub update_events-Consistent : (t : Tables) → Consistent t → Consistent (update_events p f t)
  unfolding update_events
  update_events-Consistent t c = record {
    ids = (Descending-update_rows t.events t.group_cache c.ids).0;
    one_service = OneService-update_rows t.events t.group_cache c.one_service;
    tracks = λ g.
        view-update_rows g t.events t.group_cache
        ∙ ap (map (add_read (change p f g t.events))) (c.tracks g)
        ∙ listed-add_read (change p f g t.events) (aggregate (members g t.events))
        ∙ ap listed (sym (aggregate-update_rows g t.events t.group_cache));
  }
