-- ===== src/Store/Delete.antt =====
-- A deletion by id or by query in src/eventlogger.c, from DELETE FROM Events to the last statement of
-- `update_group_cache`, and GroupCache.
use rtcom_eventlogger.Common.{
  ◌≡◌, refl, sym, ◌∙◌, ap, inl, inr, Bool, true, false, not, ◌&&◌, List, map, String, arith, same,
  same_iff, same_refl, keep, any, Bool-cases,
}
use rtcom_eventlogger.Store.{EventRow, GroupRow, Tables, in_group, is_for, delete_events}
use rtcom_eventlogger.Store.Rows.{keep-keep, keep_none, Has}
use rtcom_eventlogger.Store.Cache.{
  of_row, view, aggregate, listed, members, Consistent, Has-aggregate, aggregate-Shows,
}
use rtcom_eventlogger.Store.Refresh.{refresh, refresh_groups, purge}
use rtcom_eventlogger.Store.Drop.{Descending-keep, OneService-keep}
use rtcom_eventlogger.Store.Recount.{
  keep_on, keep-false, Backed, Fresh, refresh_hits, refresh_misses,
}

-- The groups of all events that are to go are in the list.
abbrev pub Covers : (EventRow → Bool) → List String → List EventRow → Type 0
Covers p gs es =
    (e : EventRow) (g : String)
    → Has e es
    → p e ≡ true
    → in_group g e ≡ true
    → any (same g) gs ≡ true

clash : {A : Type 0} {b : Bool} → b ≡ true → b ≡ false → A
clash n e = cc

Backed-cache : (t : Tables) → Consistent t → Backed t.events t.group_cache
Backed-cache t c r h =
    aggregate-Shows r.group_uid t.events (of_row r) c.ids
      (Has-aggregate t.events t.group_cache r r.group_uid c.tracks h (same_refl r.group_uid))

module _ (p : EventRow → Bool) (gs : List String) (t : Tables) (c : Consistent t)
    (covers : Covers p gs t.events) where
  abbrev rest : List EventRow
  rest = keep (λ e. not (p e)) t.events

  abbrev renewed : List GroupRow
  renewed = refresh rest gs t.group_cache

  -- A group that is not in the list has lost nothing.
  untouched : (h : String) → any (same h) gs ≡ false → members h rest ≡ members h t.events
  untouched h out =
      keep-keep (in_group h) (λ e. not (p e)) t.events
      ∙ keep_on (λ e. not (p e) && in_group h e) (in_group h) t.events
          (λ e m. elim (Bool-cases (in_group h e)) [
            | inr other ↦ ground (arith, other)
            | inl mine ↦ elim (Bool-cases (p e)) [
              | inr stays ↦ ground (arith, stays)
              | inl goes ↦ clash (covers e h m goes mine) out
            ]
          ])

  renewed-Fresh :
      (h : String) → any (in_group h) rest ≡ true → Fresh p t.events c.ids c.one_service h renewed
  renewed-Fresh h some_left = elim (Bool-cases (any (same h) gs)) [
    | inl hit ↦
        refresh_hits p t.events c.ids c.one_service gs h t.group_cache (Backed-cache t c) some_left
          hit
    | inr miss ↦
        refresh_misses p t.events c.ids c.one_service gs h t.group_cache (Backed-cache t c) miss
        ∙ c.tracks h
        ∙ ap (λ z. listed (aggregate z)) (sym (untouched h miss))
  ]

  abbrev needed : GroupRow → Bool
  needed r = any (in_group r.group_uid) rest

  needed_at : (r : GroupRow) (h : String) → is_for h r ≡ true → needed r ≡ any (in_group h) rest
  needed_at r h mine = ap (λ g. any (in_group g) rest) ((same_iff r.group_uid h).0 mine)

  kept_row :
      (r : GroupRow) (h : String)
      → any (in_group h) rest ≡ true
      → (needed r && is_for h r) ≡ is_for h r
  kept_row r h some_left = elim (Bool-cases (is_for h r)) [
    | inr other ↦ ground (arith, other)
    | inl mine ↦ rw (needed_at r h mine ∙ some_left) refl
  ]

  gone_row :
      (r : GroupRow) (h : String) → any (in_group h) rest ≡ false → (needed r && is_for h r) ≡ false
  gone_row r h none_left = elim (Bool-cases (is_for h r)) [
    | inr other ↦ ground (arith, other)
    | inl mine ↦ rw (needed_at r h mine ∙ none_left) refl
  ]

  purged-Tracks : (h : String) → view h (keep needed renewed) ≡ listed (aggregate (members h rest))
  purged-Tracks h = elim (Bool-cases (any (in_group h) rest)) [
    | inl some_left ↦
        ap (map of_row) (
          keep-keep (is_for h) needed renewed
          ∙ keep_on _ (is_for h) renewed (λ r _. kept_row r h some_left))
        ∙ renewed-Fresh h some_left
    | inr none_left ↦
        ap (map of_row) (
          keep-keep (is_for h) needed renewed
          ∙ keep_on _ (λ _. false) renewed (λ r _. gone_row r h none_left)
          ∙ keep-false renewed)
        ∙ ap (λ z. listed (aggregate z)) (sym (keep_none (in_group h) rest none_left))
  ]

-- The statements of a deletion by id or by query, where the list that is refreshed has the groups of
-- all events that go: GroupCache counts the events of each group afterwards if it did before.
pub delete_refresh-Consistent :
    (p : EventRow → Bool) (gs : List String) (t : Tables)
    → Consistent t
    → Covers p gs t.events
    → Consistent (purge (refresh_groups gs (delete_events p t)))
unfolding purge refresh_groups delete_events
delete_refresh-Consistent p gs t c covers = record {
  ids = Descending-keep (λ e. not (p e)) t.events c.ids;
  one_service = OneService-keep (λ e. not (p e)) t.events c.one_service;
  tracks = purged-Tracks p gs t c covers;
}
