-- ===== src/Logger/Attach/Free.antt =====
-- The loop of `_build_unique_dirname` (src/eventlogger.c): how many rounds it makes.
use rtcom_eventlogger.Common.{
  ℕ, zero, suc, ◌≤◌, ◌<◌, ◌≡◌, ◌≢◌, refl, sym, ◌∙◌, inl, inr, true, false, Bool-cases, Option, none,
  some, List, [], ◌∷◌, length, String, same, same_iff, if◌then◌else◌, arith,
}
use rtcom_eventlogger.Logger.{El, World, Entry, Outcome, good, crashed}
use rtcom_eventlogger.Logger.Attach.{exists, dirname_at, unique_from, build_unique_dirname}
use rtcom_eventlogger.Logger.Attach.Place.{unique_from-fresh}

-- The entries under other paths.
abbrev others : String → List (String × Entry) → List (String × Entry)
others y [] = []
others y ((p, e) ∷ fs) = if same p y then others y fs else (p, e) ∷ others y fs

others_le : (y : String) (fs : List (String × Entry)) → length (others y fs) ≤ length fs
others_le y [] = ground arith
others_le y ((p, e) ∷ fs) = ground (arith, others_le y fs)

others_lt :
    (y : String) (fs : List (String × Entry))
    → exists y fs ≡ true
    → length (others y fs) < length fs
others_lt y [] h = cc
others_lt y ((p, e) ∷ fs) h = elim (Bool-cases (same p y)) [
  | inl here ↦ rw here (ground (arith, others_le y fs))
  | inr other ↦ rw other (ground (arith, others_lt y fs (rw other at h)))
]

others-exists :
    (y z : String) (fs : List (String × Entry))
    → z ≢ y
    → exists z fs ≡ true
    → exists z (others y fs) ≡ true
others-exists y z [] differ h = cc
others-exists y z ((p, e) ∷ fs) differ h = elim (Bool-cases (same p y)) [
  | inl here ↦ elim (Bool-cases (same p z)) [
    | inl both ↦ absurd (differ (sym ((same_iff p z).0 both) ∙ (same_iff p y).0 here))
    | inr away ↦ rw here (others-exists y z fs differ (rw away at h))
  ]
  | inr other ↦ elim (Bool-cases (same p z)) [
    | inl found ↦ rw other (rw found refl)
    | inr away ↦ rw other (rw away (others-exists y z fs differ (rw away at h)))
  ]
]

module _ (w : World) (parent : String) (n : ℕ) where
  -- The names of two rounds differ.
  abbrev pub AreDistinct : Type 0
  AreDistinct = (i j : ℕ) → i < j → dirname_at w parent n j ≢ dirname_at w parent n i

  module _ (distinct : AreDistinct) (files : List (String × Entry)) where
    -- From the i-th round on, only the entries of `left` can be in the way.
    unique_from-some :
        (fuel i : ℕ) (left : List (String × Entry))
        → length left < fuel
        → ((j : ℕ)
            → i ≤ j
            → exists (dirname_at w parent n j) files ≡ true
            → exists (dirname_at w parent n j) left ≡ true)
        → (dir : String) × (unique_from w fuel parent n i files ≡ some dir)
    unfolding unique_from
    unique_from-some zero i left enough within = ground arith
    unique_from-some (suc fuel) i left enough within =
        of_later (λ left' enough' within'. unique_from-some fuel (suc i) left' enough' within')
      where
        of_later :
            ((left' : List (String × Entry))
              → length left' < fuel
              → ((j : ℕ)
                  → suc i ≤ j
                  → exists (dirname_at w parent n j) files ≡ true
                  → exists (dirname_at w parent n j) left' ≡ true)
              → (dir : String) × (unique_from w fuel parent n (suc i) files ≡ some dir))
            → (dir : String) × (unique_from w (suc fuel) parent n i files ≡ some dir)
        of_later later = elim (Bool-cases (exists (dirname_at w parent n i) files)) [
          | inl taken ↦
              let here = within i (omega arith) taken in
              let lt = others_lt (dirname_at w parent n i) left here in
              let (dir, found) =
                later (others (dirname_at w parent n i) left) (omega arith) (λ j after there.
                  others-exists (dirname_at w parent n i) (dirname_at w parent n j) left
                    (distinct i j (omega arith)) (within j (omega arith) there)) in
              (dir, simp taken found)
          | inr free ↦ (dirname_at w parent n i, simp free refl)
        ]

-- Where the names of different rounds differ, `_build_unique_dirname` ends, within one round more than
-- there are entries in the file system, with a name that is free, and changes nothing.
pub build_unique_dirname-free :
    (w : World) (parent : String) (el : El)
    → AreDistinct w parent el.db.clock
    → (dir : String) × (build_unique_dirname w parent el ≡ (good dir, el))
      × (exists dir el.files ≡ false)
unfolding build_unique_dirname
build_unique_dirname-free w parent el distinct = of_found (
    unique_from-some w parent el.db.clock distinct el.files (suc (length el.files)) 0 el.files
      (omega arith) (λ j after there. there))
  where
    of_option :
        (o : Option String) (dir : String)
        → o ≡ some dir
        → (elim o as (λ _. Outcome String × El) [ none ↦ (crashed, el) | some d ↦ (good d, el) ])
          ≡ (good dir, el)
    of_option none dir h = cc
    of_option (some d) dir h = cc

    of_found :
        (dir : String) × (unique_from w (suc (length el.files)) parent el.db.clock 0 el.files
            ≡ some dir)
        → (dir : String) × (build_unique_dirname w parent el ≡ (good dir, el))
          × (exists dir el.files ≡ false)
    of_found (dir, found) = (
      dir,
      of_option (unique_from w (suc (length el.files)) parent el.db.clock 0 el.files) dir found,
      unique_from-fresh w (suc (length el.files)) parent el.db.clock 0 el.files dir found,
    )
