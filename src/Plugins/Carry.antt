-- ===== src/Plugins/Carry.antt =====
-- The INSERT statements of `_init_plugin` (src/eventlogger.c): what each adds to its table and the
-- pair of name and id that the object notes of it.
use rtcom_eventlogger.Common.{
  ℕ, ◌≡◌, refl, sym, ◌∙◌, ap, subst, inl, inr, Bool-cases, Option, none, some, List, ◌∷◌, map,
  String, same, any,
}
use rtcom_eventlogger.Store.{NameRow, FlagRow}
use rtcom_eventlogger.Plugins.{
  PluginRow, PluginTables, insert_plugin, insert_service, insert_event_type, insert_flag, newest,
  name_ids, new_name_row, new_flag_row, with_services, with_event_types, with_flags,
}
use rtcom_eventlogger.Plugins.Register.{note_service, note_event_type, note_flag}
use rtcom_eventlogger.Plugins.Agree.{Agree, pairs, flag_pairs, Carries}

some_injective : {A : Type 0} {x y : A} → some x ≡ some y → x ≡ y
some_injective p = cc

pub insert_plugin-Carries :
    (n desc : String) (id : PluginTables → ℕ) → Carries (insert_plugin n desc) id (λ _ s. s)
insert_plugin-Carries n desc id t t' s did h =
    elim (Bool-cases (any (λ (r : PluginRow). same r.name n) t.plugins)) [
      | inl taken ↦ absurd (refused (rw taken at did))
      | inr free ↦ subst (λ (x : PluginTables). Agree x s) (some_injective (rw free at did)) h
    ]
  where
    refused : ◌≡◌ {A = Option PluginTables} none (some t') → ⊥
    refused p = cc

-- A row that goes in is the first, and is the only change of the pairs of its table.
new_name_row-pairs :
    (rows rows' : List NameRow) (n : String) (plugin_id : ℕ) (desc : Option String)
    → new_name_row rows n plugin_id desc ≡ some rows'
    → pairs rows' ≡ (n, newest (name_ids rows')) ∷ pairs rows
new_name_row-pairs rows rows' n plugin_id desc did =
    elim (Bool-cases (any (λ (r : NameRow). same r.name n) rows)) [
      | inl taken ↦ absurd (refused (rw taken at did))
      | inr free ↦
          subst (λ (x : List NameRow). pairs x ≡ (n, newest (name_ids x)) ∷ pairs rows)
            (some_injective (rw free at did)) refl
    ]
  where
    refused : ◌≡◌ {A = Option (List NameRow)} none (some rows') → ⊥
    refused p = cc

new_flag_row-pairs :
    (rows rows' : List FlagRow) (n : String) (service_id value : ℕ)
    → new_flag_row rows n service_id value ≡ some rows'
    → flag_pairs rows' ≡ (n, newest (map (λ (r : FlagRow). r.id) rows')) ∷ flag_pairs rows
new_flag_row-pairs rows rows' n service_id value did =
    elim (Bool-cases (any (λ (r : FlagRow). same r.name n) rows)) [
      | inl taken ↦ absurd (refused (rw taken at did))
      | inr free ↦
          subst
            (λ (x : List FlagRow).
              flag_pairs x ≡ (n, newest (map (λ (r : FlagRow). r.id) x)) ∷ flag_pairs rows)
            (some_injective (rw free at did)) refl
    ]
  where
    refused : ◌≡◌ {A = Option (List FlagRow)} none (some rows') → ⊥
    refused p = cc

pub insert_service-Carries :
    (n : String) (plugin_id : ℕ) (desc : Option String)
    → Carries (insert_service n plugin_id desc) (λ t. newest (name_ids t.services)) (note_service n)
insert_service-Carries n plugin_id desc t t' s did h =
    of_rows (new_name_row t.services n plugin_id desc)
      (λ rows e. new_name_row-pairs t.services rows n plugin_id desc e) did
  where
    of_rows :
        (o : Option (List NameRow))
        → ((rows : List NameRow)
            → o ≡ some rows
            → pairs rows ≡ (n, newest (name_ids rows)) ∷ pairs t.services)
        → with_services t o ≡ some t'
        → Agree t' (note_service n (newest (name_ids t'.services)) s)
    of_rows none k p = cc
    of_rows (some rows) k p =
        subst (λ (x : PluginTables). Agree x (note_service n (newest (name_ids x.services)) s))
          (some_injective p)
          (
            ap (λ (l : List (String × ℕ)). (n, newest (name_ids rows)) ∷ l) h.0 ∙ sym (k rows refl),
            h.1,
            h.2,
          )

pub insert_event_type-Carries :
    (n : String) (plugin_id : ℕ) (desc : Option String)
    → Carries
        (insert_event_type n plugin_id desc)
        (λ t. newest (name_ids t.event_types))
        (note_event_type n)
insert_event_type-Carries n plugin_id desc t t' s did h =
    of_rows (new_name_row t.event_types n plugin_id desc)
      (λ rows e. new_name_row-pairs t.event_types rows n plugin_id desc e) did
  where
    of_rows :
        (o : Option (List NameRow))
        → ((rows : List NameRow)
            → o ≡ some rows
            → pairs rows ≡ (n, newest (name_ids rows)) ∷ pairs t.event_types)
        → with_event_types t o ≡ some t'
        → Agree t' (note_event_type n (newest (name_ids t'.event_types)) s)
    of_rows none k p = cc
    of_rows (some rows) k p =
        subst
          (λ (x : PluginTables). Agree x (note_event_type n (newest (name_ids x.event_types)) s))
          (some_injective p)
          (
            h.0,
            ap (λ (l : List (String × ℕ)). (n, newest (name_ids rows)) ∷ l) h.1 ∙ sym (k rows refl),
            h.2,
          )

pub insert_flag-Carries :
    (n : String) (service_id value : ℕ)
    → Carries
        (insert_flag n service_id value)
        (λ t. newest (map (λ (r : FlagRow). r.id) t.flags))
        (note_flag n)
insert_flag-Carries n service_id value t t' s did h =
    of_rows (new_flag_row t.flags n service_id value)
      (λ rows e. new_flag_row-pairs t.flags rows n service_id value e) did
  where
    of_rows :
        (o : Option (List FlagRow))
        → ((rows : List FlagRow)
            → o ≡ some rows
            → flag_pairs rows ≡ (n, newest (map (λ (r : FlagRow). r.id) rows)) ∷ flag_pairs t.flags)
        → with_flags t o ≡ some t'
        → Agree t' (note_flag n (newest (map (λ (r : FlagRow). r.id) t'.flags)) s)
    of_rows none k p = cc
    of_rows (some rows) k p =
        subst
          (λ (x : PluginTables).
            Agree x (note_flag n (newest (map (λ (r : FlagRow). r.id) x.flags)) s))
          (some_injective p)
          (
            h.0,
            h.1,
            ap (λ (l : List (String × ℕ)). (n, newest (map (λ (r : FlagRow). r.id) rows)) ∷ l) h.2
                ∙ sym (k rows refl),
          )
