-- ===== src/Query/Prepare.antt =====
-- `rtcom_el_query_prepare` of src/eventlogger-query.c against its description: the clauses of all
-- conditions, joined by AND.
use Prim.Native.String.{◌++◌}
use package.text.Mathlib.TextLemmas.{append_assoc, nil-append}
use rtcom_eventlogger.Common.{
  ℤ, ◌≡◌, refl, ◌∙◌, ap, Bool, true, false, Option, none, some, List, [], ◌∷◌, String,
}
use rtcom_eventlogger.Row.{fields}
use rtcom_eventlogger.Query.{
  Query, find_field, Condition, clause_of, for_el, appended, build_where_clause, where_loop,
  refresh, prepared, prepare,
}
use rtcom_eventlogger.Query.Clause.{intercalate}

empty_front : (s : String) → "" ++ s ≡ s
empty_front s = nil-append s

module _ (decimal : ℤ → String) (q : String → String) (quoted : String → String) where
  -- The clause of a condition alone, in a query that has its object or has not.
  abbrev pub clause : Bool → Condition → Option String
  clause has_el c =
      for_el decimal q quoted has_el (clause_of decimal q quoted c (find_field c.key fields))

  abbrev cons : Option String → Option (List String) → Option (List String)
  cons none _ = none
  cons (some s) none = none
  cons (some s) (some ss) = some (s ∷ ss)

  -- The clauses of all conditions, or `none` if one is refused.
  pub clauses : Bool → List Condition → Option (List String)
  clauses has_el [] = some []
  clauses has_el (c ∷ cs) = cons (clause has_el c) (clauses has_el cs)

  abbrev pub joined : Option (List String) → Option String
  joined none = none
  joined (some ss) = some (intercalate " AND " ss)

  abbrev behind : String → Option String → Option String
  behind acc none = none
  behind acc (some s) = some (acc ++ s)

  last_clause :
      (o : Option String) (acc : String)
      → (elim (appended decimal q quoted acc o) [ none ↦ none | some acc' ↦ some acc' ])
        ≡ behind acc (joined (cons o (some [])))
  unfolding intercalate
  last_clause none acc = refl
  last_clause (some s) acc = refl

  next_clause :
      (o o' : Option String) (ss : Option (List String)) (k : String → Option String) (acc : String)
      → ((a : String) → k a ≡ behind a (joined (cons o' ss)))
      → (elim (appended decimal q quoted acc o) [ none ↦ none | some acc' ↦ k (acc' ++ " AND ") ])
        ≡ behind acc (joined (cons o (cons o' ss)))
  unfolding intercalate
  next_clause none o' ss k acc h = refl
  next_clause (some s) none ss k acc h = h _
  next_clause (some s) (some t) none k acc h = h _
  next_clause (some s) (some t) (some ts) k acc h =
      h ((acc ++ s) ++ " AND ")
      ∙ ap some (
          append_assoc (acc ++ s) " AND " (intercalate " AND " (t ∷ ts))
          ∙ append_assoc acc s (" AND " ++ intercalate " AND " (t ∷ ts)))

  where_loop-joined :
      (el : Bool) (c : Condition) (cs : List Condition) (acc : String)
      → where_loop decimal q quoted el (c ∷ cs) acc ≡ behind acc (joined (clauses el (c ∷ cs)))
  unfolding where_loop build_where_clause clauses
  where_loop-joined el c [] acc = last_clause (clause el c) acc
  where_loop-joined el c (d ∷ cs) acc =
      next_clause (clause el c) (clause el d) (clauses el cs)
        (where_loop decimal q quoted el (d ∷ cs)) acc (where_loop-joined el d cs)

  abbrev pub Prepares : Query → Option String → Bool × Query → Type 0
  Prepares query none r = (r.0 ≡ false) × (r.1 ≡ record query { sql = none; where_clause = none })
  Prepares query (some w) r =
      (r.0 ≡ true) × (r.1 ≡ refresh decimal q quoted (record query { where_clause = some w }))

  -- With at least one condition: `rtcom_el_query_prepare` returns TRUE just where every condition
  -- has a clause (which none has in a query without its object); the WHERE clause is then those clauses in order with " AND " between them and the
  -- text is made anew from it. Where one is refused, the query is left with neither.
  pub prepare-Prepares :
      (query : Query) (c : Condition) (cs : List Condition)
      → Prepares query
          (joined (clauses query.has_el (c ∷ cs)))
          (prepare decimal q quoted query (c ∷ cs))
  unfolding prepare
  prepare-Prepares query c cs =
      by_loop (joined (clauses query.has_el (c ∷ cs)))
        (where_loop decimal q quoted query.has_el (c ∷ cs) "")
        (where_loop-joined query.has_el c cs "")
    where
      by_loop :
          (w r : Option String)
          → r ≡ behind "" w
          → Prepares query w (prepared decimal q quoted query r)
      by_loop none r h = simp h (refl, refl)
      by_loop (some w) r h = simp (h, empty_front w) (refl, refl)
