-- ===== src/Store/Recount.antt =====
-- `update_group_cache` of src/eventlogger.c after a deletion: the rows that it replaces and those
-- that it deletes, and GroupCache.
use rtcom_eventlogger.Common.{
  ℕ, ◌≡◌, refl, sym, ◌∙◌, ap, subst, inl, inr, Bool, true, false, not, ◌&&◌, ◌||◌, Option, none,
  some, List, [], ◌∷◌, map, String, arith, ◌==◌, ==_iff, same, same_iff, same_refl, same_comm, keep,
  any, Bool-cases,
}
use rtcom_eventlogger.Store.{EventRow, GroupRow, belongs, in_group, is_for}
use rtcom_eventlogger.Store.Rows.{keep-keep, Has, Has-of_any, Descending}
use rtcom_eventlogger.Store.Cache.{
  Summary, of_row, view, aggregate, listed, members, OneService, Shows, aggregate-Shows,
  Has-id_injective, aggregate-some_of,
}
use rtcom_eventlogger.Store.Refresh.{sum_flags, group_row, replace_row, refresh}
use rtcom_eventlogger.Store.Drop.{Descending-keep, Has-of_keep}

Has-kept : {A : Type 0} (p : A → Bool) (x : A) (xs : List A) → Has x (keep p xs) → Has x xs
Has-kept p x [] h = h
Has-kept {A} p x (y ∷ ys) h = elim (Bool-cases (p y)) [
  | inr k ↦ inr (Has-kept p x ys (rw k at h))
  | inl k ↦ elim (kept k h) [ inl e ↦ inl e | inr rest ↦ inr (Has-kept p x ys rest) ]
]
  where
    kept : p y ≡ true → Has x (keep p (y ∷ ys)) → Has x (y ∷ keep p ys)
    kept k h = rw k at h

-- Two tests that agree on the rows that are there.
pub keep_on :
    {A : Type 0} (p q : A → Bool) (xs : List A)
    → ((x : A) → Has x xs → p x ≡ q x)
    → keep p xs ≡ keep q xs
keep_on p q [] h = refl
keep_on p q (x ∷ xs) h = ground (arith, h x (inl refl), keep_on p q xs (λ y m. h y (inr m)))

pub keep-false : {A : Type 0} (xs : List A) → keep (λ _. false) xs ≡ []
keep-false [] = refl
keep-false (x ∷ xs) = keep-false xs

in_group_same : (g h : String) (e : EventRow) → in_group g e ≡ true → in_group h e ≡ true → g ≡ h
in_group_same g h e i j = belongs_same e.group_uid i j
  where
    belongs_same : (o : Option String) → belongs g o ≡ true → belongs h o ≡ true → g ≡ h
    belongs_same none i j = cc
    belongs_same (some x) i j = sym ((same_iff x g).0 i) ∙ (same_iff x h).0 j

-- Each row of the cache shows an event of its group.
abbrev pub Backed : List EventRow → List GroupRow → Type 0
Backed es cache = (r : GroupRow) → Has r cache → Shows r.group_uid es (of_row r)

abbrev clashes : GroupRow → GroupRow → Bool
clashes r x =
    (x.event_id == r.event_id) || ((x.service_id == r.service_id) && same x.group_uid r.group_uid)

module _ (es : List EventRow) (d : Descending es) (o : OneService es) where
  replace_row-Backed :
      (cache : List GroupRow) (r : GroupRow)
      → Backed es cache
      → Shows r.group_uid es (of_row r)
      → Backed es (replace_row cache (some r))
  replace_row-Backed cache r b s x (inl e) = subst (λ z. Shows z.group_uid es (of_row z)) (sym e) s
  replace_row-Backed cache r b s x (inr h) = b x (Has-kept _ x cache h)

  same_group_clash :
      (cache : List GroupRow) (r x : GroupRow)
      → Backed es cache
      → Shows r.group_uid es (of_row r)
      → Has x cache
      → (not (clashes r x) && is_for r.group_uid x) ≡ false
  same_group_clash cache r x b (e, m, i, l, v) h = elim (Bool-cases (is_for r.group_uid x)) [
    | inr other ↦ ground (arith, other)
    | inl mine ↦
        let same_g = (same_iff x.group_uid r.group_uid).0 mine in
        let (e', m', i', l', v') = b x h in
        let service =
          sym v' ∙ o r.group_uid e' e m' m (subst (λ z. in_group z e' ≡ true) same_g i') i ∙ v in
        ground (arith, mine, (==_iff x.service_id r.service_id).1 service)
  ]

  other_group_stays :
      (cache : List GroupRow) (r x : GroupRow) (g : String)
      → Backed es cache
      → Shows r.group_uid es (of_row r)
      → same g r.group_uid ≡ false
      → Has x cache
      → (not (clashes r x) && is_for g x) ≡ is_for g x
  other_group_stays cache r x g b (e, m, i, l, v) n h = elim (Bool-cases (is_for g x)) [
    | inr other ↦ ground (arith, other)
    | inl mine ↦
        let same_g = (same_iff x.group_uid g).0 mine in
        let (e', m', i', l', v') = b x h in
        elim (Bool-cases (x.event_id == r.event_id)) [
          | inl equal ↦
              let same_e =
                Has-id_injective es e' e d m' m
                  (l' ∙ (==_iff x.event_id r.event_id).0 equal ∙ sym l) in
              let same_r =
                in_group_same x.group_uid r.group_uid e
                  (subst (λ z. in_group x.group_uid z ≡ true) same_e i') i in
              absurd (clash n ((same_iff g r.group_uid).1 (sym same_g ∙ same_r)))
          | inr differ ↦ ground (
            arith,
            mine,
            differ,
            n,
            same_iff x.group_uid g,
            same_iff x.group_uid r.group_uid,
            same_iff g r.group_uid,
          )
        ]
  ]
    where
      clash : {b : Bool} → b ≡ false → b ≡ true → ⊥
      clash p q = cc

  -- A row that is put in is the only one of its group, and those of other groups stay.
  view-replace_row_same :
      (cache : List GroupRow) (r : GroupRow)
      → Backed es cache
      → Shows r.group_uid es (of_row r)
      → view r.group_uid (replace_row cache (some r)) ≡ of_row r ∷ []
  view-replace_row_same cache r b s = rw (same_refl r.group_uid) (
      ap (λ (z : List GroupRow). of_row r ∷ map of_row z)
        (keep-keep (is_for r.group_uid) (λ x. not (clashes r x)) cache
          ∙ keep_on _ (λ _. false) cache (λ x h. same_group_clash cache r x b s h)
          ∙ keep-false cache))

  view-replace_row_other :
      (cache : List GroupRow) (r : GroupRow) (g : String)
      → Backed es cache
      → Shows r.group_uid es (of_row r)
      → same g r.group_uid ≡ false
      → view g (replace_row cache (some r)) ≡ view g cache
  view-replace_row_other cache r g b s n = rw (same_comm r.group_uid g ∙ n) (
      ap (map of_row) (
        keep-keep (is_for g) (λ x. not (clashes r x)) cache
        ∙ keep_on _ (is_for g) cache (λ x h. other_group_stays cache r x g b s n h)))

  -- The same of the row of a group, where there may be none.
  module _ (g : String) (flags : ℕ) where
    step-Backed :
        (a : Option Summary) (cache : List GroupRow)
        → ((s : Summary) → a ≡ some s → Shows g es s)
        → Backed es cache
        → Backed es (replace_row cache (group_row g flags a))
    step-Backed none cache shows b = b
    step-Backed (some s) cache shows b = replace_row-Backed cache _ b (shows s refl)

    step_same :
        (a : Option Summary) (s : Summary) (cache : List GroupRow)
        → ((s : Summary) → a ≡ some s → Shows g es s)
        → Backed es cache
        → a ≡ some s
        → view g (replace_row cache (group_row g flags a)) ≡ listed a
    step_same none s cache shows b h = cc
    step_same (some t) s cache shows b h = view-replace_row_same cache _ b (shows t refl)

    step_other :
        (a : Option Summary) (h : String) (cache : List GroupRow)
        → ((s : Summary) → a ≡ some s → Shows g es s)
        → Backed es cache
        → same h g ≡ false
        → view h (replace_row cache (group_row g flags a)) ≡ view h cache
    step_other none h cache shows b n = refl
    step_other (some t) h cache shows b n = view-replace_row_other cache _ h b (shows t refl) n

module _ (p : EventRow → Bool) (es : List EventRow) (d : Descending es) (o : OneService es) where
  abbrev pub left : List EventRow
  left = keep (λ e. not (p e)) es

  left-Shows : (g : String) (s : Summary) → aggregate (members g left) ≡ some s → Shows g es s
  left-Shows g s a =
      let (x, m, i, l, v) = aggregate-Shows g left s (Descending-keep (λ e. not (p e)) es d) a in
      (x, Has-of_keep (λ e. not (p e)) x es m, i, l, v)

  abbrev step : String → List GroupRow → List GroupRow
  step g cache =
      replace_row cache (group_row g (sum_flags (members g left)) (aggregate (members g left)))

  abbrev pub Fresh : String → List GroupRow → Type 0
  Fresh h cache = view h cache ≡ listed (aggregate (members h left))

  clash : {A : Type 0} {b : Bool} → b ≡ false → b ≡ true → A
  clash n e = cc

  Fresh-step :
      (g h : String) (cache : List GroupRow)
      → Backed es cache
      → any (in_group h) left ≡ true
      → (same h g ≡ false → Fresh h cache)
      → Fresh h (step g cache)
  Fresh-step g h cache b some_left f = elim (Bool-cases (same h g)) [
    | inr other ↦ step_other es d o g _ _ h cache (left-Shows g) b other ∙ f other
    | inl here ↦
        let (x, m, i) = Has-of_any (in_group h) left some_left in
        let (s, a) = aggregate-some_of h left x m i in
        subst (λ z. Fresh h (step z cache)) ((same_iff h g).0 here)
          (step_same es d o h _ (aggregate (members h left)) s cache (left-Shows h) b a)
  ]

  refresh_keeps :
      (gs : List String) (h : String) (cache : List GroupRow)
      → Backed es cache
      → any (in_group h) left ≡ true
      → Fresh h cache
      → Fresh h (refresh left gs cache)
  unfolding refresh
  refresh_keeps [] h cache b some_left f = f
  refresh_keeps (g ∷ gs) h cache b some_left f =
      refresh_keeps gs h (step g cache) (step-Backed es d o g _ _ cache (left-Shows g) b) some_left
        (Fresh-step g h cache b some_left (λ _. f))

  pub refresh_hits :
      (gs : List String) (h : String) (cache : List GroupRow)
      → Backed es cache
      → any (in_group h) left ≡ true
      → any (same h) gs ≡ true
      → Fresh h (refresh left gs cache)
  unfolding refresh
  refresh_hits [] h cache b some_left m = cc
  refresh_hits (g ∷ gs) h cache b some_left m = elim (Bool-cases (same h g)) [
    | inl here ↦
        refresh_keeps gs h (step g cache) (step-Backed es d o g _ _ cache (left-Shows g) b)
          some_left (Fresh-step g h cache b some_left (λ n. clash n here))
    | inr there ↦
        refresh_hits gs h (step g cache) (step-Backed es d o g _ _ cache (left-Shows g) b) some_left
          (rw there at m)
  ]

  pub refresh_misses :
      (gs : List String) (h : String) (cache : List GroupRow)
      → Backed es cache
      → any (same h) gs ≡ false
      → view h (refresh left gs cache) ≡ view h cache
  unfolding refresh
  refresh_misses [] h cache b m = refl
  refresh_misses (g ∷ gs) h cache b m =
      refresh_misses gs h (step g cache) (step-Backed es d o g _ _ cache (left-Shows g) b)
        (ground (arith, m))
      ∙ step_other es d o g _ _ h cache (left-Shows g) b (ground (arith, m))
