-- ===== src/Store/Rows.antt =====
-- Lemmas on rows: tests and keeps under a change of the rows, and ids.
use rtcom_eventlogger.Common.{
  ◌≤◌, ◌<◌, ◌≡◌, refl, subst, ap, ◌⊎◌, inl, inr, Bool, true, false, ◌&&◌, List, [], ◌∷◌, map, arith,
  keep, any, All, Bool-cases,
}
use rtcom_eventlogger.Store.{EventRow, max_id}

module _ {A : Type 0} where
  -- A change of the rows that the test does not see goes past the test.
  pub keep-map :
      (p : A → Bool) (f : A → A) (xs : List A)
      → ((x : A) → p (f x) ≡ p x)
      → keep p (map f xs) ≡ map f (keep p xs)
  keep-map p f [] h = refl
  keep-map p f (x ∷ xs) h = ground (arith, h x, keep-map p f xs h)

  pub map_same :
      (p : A → Bool) (f : A → A) (xs : List A)
      → ((x : A) → p x ≡ true → f x ≡ x)
      → map f (keep p xs) ≡ keep p xs
  map_same p f [] h = refl
  map_same p f (x ∷ xs) h = ground (arith, h x, map_same p f xs h)

  pub keep-All : (p : A → Bool) (xs : List A) → All (λ x. p x ≡ true) xs → keep p xs ≡ xs
  keep-All p [] h = refl
  keep-All p (x ∷ xs) h = ground (arith, keep-All p xs h.1)

  pub keep_none : (p : A → Bool) (xs : List A) → any p xs ≡ false → keep p xs ≡ []
  keep_none p [] h = refl
  keep_none p (x ∷ xs) h = ground (arith, keep_none p xs)

  pub keep-keep : (p q : A → Bool) (xs : List A) → keep p (keep q xs) ≡ keep (λ x. q x && p x) xs
  keep-keep p q [] = refl
  keep-keep p q (x ∷ xs) = ground (arith, keep-keep p q xs)

  pub keep_ext : (p q : A → Bool) (xs : List A) → ((x : A) → p x ≡ q x) → keep p xs ≡ keep q xs
  keep_ext p q [] h = refl
  keep_ext p q (x ∷ xs) h = ground (arith, h x, keep_ext p q xs h)

  -- A row that is in a table.
  abbrev pub Has : A → List A → Type 0
  Has x [] = ⊥
  Has x (y ∷ ys) = (x ≡ y) ⊎ Has x ys

  pub Has-keep : (p : A → Bool) (x : A) (xs : List A) → p x ≡ true → Has x xs → Has x (keep p xs)
  Has-keep p x (y ∷ ys) t (inl e) = rw (subst (λ z. p z ≡ true) e t) (inl e)
  Has-keep p x (y ∷ ys) t (inr h) = elim (Bool-cases (p y)) [
    | inl e ↦ rw e (inr (Has-keep p x ys t h))
    | inr e ↦ rw e (Has-keep p x ys t h)
  ]
  Has-keep p x [] t h = absurd h

  pub Has-of_any :
      (p : A → Bool) (xs : List A) → any p xs ≡ true → (x : A) × Has x xs × (p x ≡ true)
  Has-of_any p [] h = cc
  Has-of_any p (x ∷ xs) h = elim (Bool-cases (p x)) [
    | inl e ↦ (x, inl refl, e)
    | inr e ↦ let (y, m, t) = Has-of_any p xs (rw e at h) in (y, inr m, t)
  ]

  pub any_of_Has : (p : A → Bool) (x : A) (xs : List A) → p x ≡ true → Has x xs → any p xs ≡ true
  any_of_Has p x [] t h = absurd h
  any_of_Has p x (y ∷ ys) t (inl e) = rw (subst (λ z. p z ≡ true) e t) refl
  any_of_Has p x (y ∷ ys) t (inr h) = ground (arith, any_of_Has p x ys t h)

-- Ids fall strictly along the table, and are positive: the newest row is the first.
abbrev pub Descending : List EventRow → Type 0
Descending [] = Unit
Descending (e ∷ es) = (max_id es < e.id) × Descending es

pub Has-le-max_id : (es : List EventRow) (x : EventRow) → Has x es → x.id ≤ max_id es
Has-le-max_id [] x h = absurd h
Has-le-max_id (e ∷ es) x (inl p) = omega (arith, ap (λ (r : EventRow). r.id) p)
Has-le-max_id (e ∷ es) x (inr h) = omega (arith, Has-le-max_id es x h)
