-- ===== src/Query/Clause.antt =====
-- The clauses of src/eventlogger-query.c: which conditions are refused, and the list of an IN.
use Prim.Native.String.{◌++◌}
use text.Mathlib.TextLemmas.{append_assoc}
use rtcom_eventlogger.Common.{
  ℤ, Bool, true, false, ◌≡◌, ◌≢◌, refl, sym, ◌∙◌, ap, ◌⊎◌, inl, inr, ◌↔◌, Option, none, some, List,
  [], ◌∷◌, map, String, Option-cases, arith,
}
use rtcom_eventlogger.Row.{FieldType, int, boolean, chars, EventField, fields}
use rtcom_eventlogger.Query.{
  Op, in_strv, str_ends_with, str_like, find_field, Condition, build_operator, strv_text, compared,
  text_clause, appended, build_where_clause,
}

-- Texts with a separator between them.
unfoldable pub intercalate : String → List String → String
intercalate sep [] = ""
intercalate sep (s ∷ []) = s
intercalate sep (s ∷ t ∷ rest) = s ++ (sep ++ intercalate sep (t ∷ rest))

-- The operators that only texts have.
abbrev pub TextOnly : Op → Type 0
TextOnly op = (op ≡ in_strv) ⊎ (op ≡ str_ends_with) ⊎ (op ≡ str_like)

-- A condition that has no clause: the query has no object, its key is no field, or a number is to be
-- compared like a text.
abbrev pub Refused : Bool → Condition → Type 0
Refused has_el c =
    (has_el ≡ false)
    ⊎ (find_field c.key fields ≡ none)
    ⊎ ((f : EventField) × (find_field c.key fields ≡ some f) × (f.type ≢ chars) × TextOnly c.op)

module _ (decimal : ℤ → String) (q : String → String) (quoted : String → String) where
  -- The text between the parentheses of an IN: the quoted elements with a comma between each two,
  -- and a blank, or nothing for no elements.
  pub strv_text-intercalate :
      (s : String) (rest : List String)
      → strv_text decimal q quoted (s ∷ rest) ≡ intercalate "," (map quoted (s ∷ rest)) ++ " "
  unfolding strv_text intercalate
  strv_text-intercalate s [] = refl
  strv_text-intercalate s (t ∷ rest) =
      let x = intercalate "," (map quoted (t ∷ rest)) in
      ap (λ z. quoted s ++ ("," ++ z)) (strv_text-intercalate t rest)
      ∙ sym (
          append_assoc (quoted s) ("," ++ x) " " ∙ ap (λ z. quoted s ++ z) (append_assoc "," x " "))

  typed :
      (acc column : String) (c : Condition) (t : FieldType) (op : Op)
      → (appended decimal q quoted acc (elim t [
        | int ↦ compared decimal q quoted column (decimal c.number) (build_operator op)
        | boolean ↦ compared decimal q quoted column (decimal c.number) (build_operator op)
        | chars ↦ text_clause decimal q quoted column c op
      ])
          ≡ none)
        ↔ ((t ≢ chars) × TextOnly op)
  typed acc column c t op = ground arith

  -- `_build_where_clause` is FALSE exactly where the query has no object, where the key of the
  -- condition is unknown, or where it uses IN, LIKE or ENDS_WITH on a number: on every text it takes
  -- all operators, also on the names of services and event types.
  pub build_where_clause-Refused :
      (has_el : Bool) (c : Condition) (acc : String)
      → (build_where_clause decimal q quoted has_el c acc ≡ none) ↔ Refused has_el c
  unfolding build_where_clause
  build_where_clause-Refused false c acc = (λ _. inl refl, λ _. refl)
  build_where_clause-Refused true c acc = elim (Option-cases (find_field c.key fields)) [
    | inl unknown ↦ rw unknown (λ _. inr (inl refl), λ _. refl)
    | inr (f, found) ↦
        let k = typed acc f.column c f.type c.op in
        rw found (λ e. let (t, o) = k.0 e in inr (inr (f, refl, t, o)), λ h. k.1 (only f h))
  ]
    where
      some_eq : {f g : EventField} → ◌≡◌ {A = Option EventField} (some f) (some g) → f ≡ g
      some_eq e = cc

      only :
          (f : EventField)
          → (◌≡◌ {A = Bool} true false)
            ⊎ (◌≡◌ {A = Option EventField} (some f) none)
            ⊎ ((g : EventField) × (◌≡◌ {A = Option EventField} (some f) (some g))
                × (g.type ≢ chars)
                × TextOnly c.op)
          → (f.type ≢ chars) × TextOnly c.op
      only f (inl e) = cc
      only f (inr (inl e)) = cc
      only f (inr (inr (g, e, n, t))) =
          (λ is_text. n (ap (λ (x : EventField). x.type) (sym (some_eq e)) ∙ is_text), t)
