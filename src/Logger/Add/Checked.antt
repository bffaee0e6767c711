-- ===== src/Logger/Add/Checked.antt =====
-- `_add_event_precheck` of src/eventlogger.c, where it goes on: the event, its service and its type.
use rtcom_eventlogger.Common.{
  ℕ, pos, ◌≡◌, ◌⊎◌, inl, inr, refl, ap, subst, Bool, true, false, Option, none, some, List, String,
  arith,
}
use rtcom_eventlogger.Event.{Field, Event, is_set, service, event_type, local_uid}
use rtcom_eventlogger.Db.{invalid_argument}
use rtcom_eventlogger.Logger.{El, Exec, Outcome, good, go_on, pure, raise, lookup_id}
use rtcom_eventlogger.Logger.Add.{modern_type, with_type, modernised, known, add_event_precheck}

-- The text is set, and it is the name of `i`.
abbrev pub IsKnown : Option String → List (String × ℕ) → ℕ → Type 0
IsKnown o names i = (n : String) × (o ≡ some n) × (lookup_id n names ≡ some i)

known-good :
    {B : Type 0} (o : Option String) (names : List (String × ℕ)) (k : ℕ → Exec B) (el el' : El)
    (b : B)
    → go_on k (known o names el) ≡ (good b, el')
    → (i : ℕ) × IsKnown o names i × (k i el ≡ (good b, el'))
known-good none names k el el' b h = cc
known-good {B} (some n) names k el el' b h = of_lookup (lookup_id n names) refl h
  where
    of_lookup :
        (x : Option ℕ)
        → lookup_id n names ≡ x
        → go_on k (
            (elim x as (λ _. Exec ℕ) [ none ↦ raise (some invalid_argument) | some i ↦ pure i ]) el)
          ≡ (good b, el')
        → (i : ℕ) × IsKnown (some n) names i × (k i el ≡ (good b, el'))
    of_lookup none e g = cc
    of_lookup (some i) e g = (i, (n, refl, e), g)

pub precheck-IsKnown :
    (ev ev' : Event) (s t : ℕ) (el : El)
    → is_set ev service ≡ true
    → is_set ev event_type ≡ true
    → is_set ev local_uid ≡ true
    → add_event_precheck ev el ≡ (good (ev', s, t), el)
    → (modernised ev ev.fld_event_type ≡ ev')
      × IsKnown ev.fld_service el.services s
      × IsKnown ev'.fld_event_type el.event_types t
unfolding add_event_precheck
precheck-IsKnown ev ev' s t el a b c h =
    let (i, in_service, rest) =
      known-good ev.fld_service el.services _ el el _ (simp (a, b, c) at h) in
    let (k, of_type, last) =
      known-good (modernised ev ev.fld_event_type).fld_event_type el.event_types
        (λ event_type_id. pure (modernised ev ev.fld_event_type, i, event_type_id)) el el _ rest in
    of_end i k (modernised ev ev.fld_event_type) in_service of_type last
  where
    of_end :
        (i k : ℕ) (e : Event)
        → IsKnown ev.fld_service el.services i
        → IsKnown e.fld_event_type el.event_types k
        → ◌≡◌ {A = Outcome (Event × ℕ × ℕ) × El} (good (e, i, k), el) (good (ev', s, t), el)
        → (e ≡ ev')
          × IsKnown ev.fld_service el.services s
          × IsKnown ev'.fld_event_type el.event_types t
    of_end i k e x y g =
        let same = triple g in
        (
          ap (λ (z : Event × ℕ × ℕ). z.0) same,
          subst (λ (z : Event × ℕ × ℕ). IsKnown ev.fld_service el.services z.1) same x,
          subst (λ (z : Event × ℕ × ℕ). IsKnown z.0.fld_event_type el.event_types z.2) same y,
        )
      where
        triple :
            {x y : Event × ℕ × ℕ}
            → ◌≡◌ {A = Outcome (Event × ℕ × ℕ) × El} (good x, el) (good y, el)
            → x ≡ y
        triple p = cc

-- Putting an event type of today in the place of an old one unsets no field.
pub modernised-set :
    (ev : Event)
    → ((f : Field) → is_set ev f ≡ true)
    → (f : Field) → is_set (modernised ev ev.fld_event_type) f ≡ true
modernised-set ev all f = of_type ev.fld_event_type
  where
    of_pair : (o : Option (String × Bool)) → is_set (with_type ev o) f ≡ true
    of_pair none = all f
    of_pair (some (n, false)) = ground (arith, all f)
    of_pair (some (n, true)) = ground (arith, all f)

    of_type : (o : Option String) → is_set (modernised ev o) f ≡ true
    of_type none = all f
    of_type (some n) = of_pair (modern_type n)

-- What the event type of today leaves alone.
pub modernised-frame :
    (ev : Event)
    → let ev' = modernised ev ev.fld_event_type in
      (ev'.fld_service ≡ ev.fld_service)
      × (ev'.fld_is_read ≡ ev.fld_is_read)
      × ((ev'.fld_outgoing ≡ ev.fld_outgoing) ⊎ (ev'.fld_outgoing ≡ pos 1))
modernised-frame ev = of_type ev.fld_event_type
  where
    Framed : Event → Type 0
    Framed e =
        (e.fld_service ≡ ev.fld_service)
        × (e.fld_is_read ≡ ev.fld_is_read)
        × ((e.fld_outgoing ≡ ev.fld_outgoing) ⊎ (e.fld_outgoing ≡ pos 1))

    of_pair : (o : Option (String × Bool)) → Framed (with_type ev o)
    of_pair none = (refl, refl, inl refl)
    of_pair (some (n, false)) = (refl, refl, inl refl)
    of_pair (some (n, true)) = (refl, refl, inr refl)

    of_type : (o : Option String) → Framed (modernised ev o)
    of_type none = (refl, refl, inl refl)
    of_type (some n) = of_pair (modern_type n)
