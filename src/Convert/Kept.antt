-- ===== src/Convert/Kept.antt =====
-- The conversion (src/db.c) and the events of the database.
use rtcom_eventlogger.Common.{
  ℕ, ◌==◌, ◌≡◌, refl, sym, ◌∙◌, ap, Bool, true, not, false, Option, none, some, List, [], ◌∷◌, map,
  String, pos, same, any, keep, if◌then◌else◌,
}
use rtcom_eventlogger.Db.{Db}
use rtcom_eventlogger.Store.{NameRow, EventRow}
use rtcom_eventlogger.Convert.{OldFile, Change, Converter}
use rtcom_eventlogger.Convert.Changes.{
  has_name, add_column, add_outgoing, set_outgoing, retype, rename_type, delete_type, insert_type,
  insert_flag, drop_trigger, create_trigger, type_name, new_suffix, services, event_types, flags,
}
use rtcom_eventlogger.Convert.Run.{
  convert_service, convert_services, add_types, add_flags, clean_triggers, convert_rows,
}
use rtcom_eventlogger.Convert.Steps.{
  Alive, Ends, Carries, then_do-Ends, must-Ends, may-Ends, ask-Ends,
}

-- An event without what the conversion may change.
abbrev pub core_of : EventRow → EventRow
core_of e = record e { event_type_id = 0; outgoing = pos 0 }

-- The events of `old`, in their order.
abbrev pub SameEvents : OldFile → OldFile → Type 0
SameEvents old f = map core_of f.events ≡ map core_of old.events

map_kept :
    (h : EventRow → EventRow)
    → ((e : EventRow) → core_of (h e) ≡ core_of e)
    → (es : List EventRow) → map core_of (map h es) ≡ map core_of es
map_kept h k [] = refl
map_kept h k (e ∷ es) = cong₂ (k e) (map_kept h k es)
  where
    cong₂ : {a b : EventRow} {x y : List EventRow} → a ≡ b → x ≡ y → a ∷ x ≡ b ∷ y
    cong₂ p q = cc

if_kept :
    (b : Bool) (e e' : EventRow)
    → core_of e' ≡ core_of e
    → core_of (if b then e' else e) ≡ core_of e
if_kept true e e' h = h
if_kept false e e' h = refl

module _ (old : OldFile) where
  abbrev Keeps : Change → Type 0
  Keeps f = Carries f (SameEvents old) (SameEvents old)

  always :
      (g : OldFile → OldFile)
      → ((t : OldFile) → map core_of (g t).events ≡ map core_of t.events)
      → Keeps (λ t. some (g t))
  always g k t t' ran h = ap (λ (x : OldFile). map core_of x.events) (sym (injective ran)) ∙ k t ∙ h
    where
      injective : {a b : OldFile} → ◌≡◌ {A = Option OldFile} (some a) (some b) → a ≡ b
      injective p = cc

  unless : (b : OldFile → Bool) (f : Change) → Keeps f → Keeps (λ t. if b t then none else f t)
  unless b f k t t' ran h = of_test (b t) ran
    where
      of_test : (x : Bool) → (if x then none else f t) ≡ some t' → SameEvents old t'
      of_test true r = cc
      of_test false r = k t t' r h

  add_column-Keeps : (c : String) → Keeps (add_column c)
  add_column-Keeps c =
      unless (λ t. not t.has_tables)
        (λ t.
          if any (λ x. same x c) t.columns
          then none
          else some (record t { columns = c ∷ t.columns }))
        (unless (λ t. any (λ x. same x c) t.columns)
          (λ t. some (record t { columns = c ∷ t.columns }))
          (always (λ t. record t { columns = c ∷ t.columns }) (λ t. refl)))

  add_outgoing-Keeps : Keeps add_outgoing
  add_outgoing-Keeps t t' ran h =
      add_column-Keeps "outgoing" _ t' ran
        (map_kept (λ e. record e { outgoing = pos 0 }) (λ e. refl) t.events ∙ h)

  set_outgoing-Keeps : (outbound : String → Bool) → Keeps (set_outgoing outbound)
  set_outgoing-Keeps outbound =
      always (λ t. record t { events = map (mark t) t.events })
        (λ t.
          map_kept (mark t) (λ e. if_kept (hit t e) e (record e { outgoing = pos 1 }) refl)
            t.events)
    where
      hit : OldFile → EventRow → Bool
      hit t e =
          any (λ (r : NameRow). r.id == e.event_type_id)
            (keep (λ (r : NameRow). outbound r.name) t.event_types)

      mark : OldFile → EventRow → EventRow
      mark t e = if hit t e then record e { outgoing = pos 1 } else e

  retype-Keeps : (id old_id : ℕ) → Keeps (retype id old_id)
  retype-Keeps id old_id =
      always (λ t. record t { events = map to_new t.events })
        (λ t.
          map_kept to_new
            (λ e. if_kept (e.event_type_id == old_id) e (record e { event_type_id = id }) refl)
            t.events)
    where
      to_new : EventRow → EventRow
      to_new e = if e.event_type_id == old_id then record e { event_type_id = id } else e

  rename_type-Keeps : (a b : String) → Keeps (rename_type a b)
  rename_type-Keeps a b t t' ran h = of_test (any (has_name a) t.event_types) ran
    where
      renamed : OldFile → OldFile
      renamed x = record x {
        event_types =
            map (λ (r : NameRow). if has_name a r then record r { name = b } else r) x.event_types;
      }

      of_test :
          (c : Bool)
          → (if c
              then (if any (has_name b) t.event_types then none else some (renamed t))
              else some t)
            ≡ some t'
          → SameEvents old t'
      of_test true r =
          unless (λ x. any (has_name b) x.event_types) (λ x. some (renamed x))
            (always renamed (λ x. refl)) t t' r h
      of_test false r = always (λ x. x) (λ x. refl) t t' r h

  insert_type-Keeps : (n : String) (p : ℕ) (d : String) → Keeps (insert_type n p d)
  insert_type-Keeps n p d = unless _ _ (always _ (λ t. refl))

  insert_flag-Keeps : (i : ℕ) (n : String) (v : ℕ) → Keeps (insert_flag i n v)
  insert_flag-Keeps i n v = unless _ _ (always _ (λ t. refl))

module _ (o : Converter) (old : OldFile) where
  abbrev Kept : {A : Type 0} → Option A × Db OldFile → Type 0
  Kept r = Ends (SameEvents old) r

  convert_service-Kept :
      (s : String) (db : Db OldFile) → Alive (SameEvents old) db → Kept (convert_service o s db)
  unfolding convert_service
  convert_service-Kept s db h =
      let P = SameEvents old in
      then_do-Ends P P _ _ (ask-Ends o P _ db h) (λ id db1 h1.
        then_do-Ends P P _ _ (ask-Ends o P _ db1 h1) (λ old_id db2 h2.
          then_do-Ends P P _ _
            (must-Ends o P P (retype id old_id) db2 (retype-Keeps old id old_id) h2)
            (λ _ db3 h3.
              let a = type_name s "_INBOUND" in
              let b = type_name s (new_suffix s) in
              then_do-Ends P P _ _
                (must-Ends o P P (rename_type a b) db3 (rename_type-Keeps old a b) h3)
                (λ _ db4 h4.
                  may-Ends o P (delete_type (type_name s "_OUTBOUND")) db4
                    (always old _ (λ t. refl)) h4))))

  convert_services-Kept :
      (ss : List String) (db : Db OldFile)
      → Alive (SameEvents old) db
      → Kept (convert_services o ss db)
  unfolding convert_services
  convert_services-Kept [] db h = h
  convert_services-Kept (s ∷ rest) db h =
      then_do-Ends (SameEvents old) (SameEvents old) _ _ (convert_service-Kept s db h)
        (λ _ db1 h1. convert_services-Kept rest db1 h1)

  add_types-Kept :
      (p : ℕ) (ts : List (String × String)) (db : Db OldFile)
      → Alive (SameEvents old) db
      → Kept (add_types o p ts db)
  unfolding add_types
  add_types-Kept p [] db h = h
  add_types-Kept p ((n, d) ∷ rest) db h =
      let P = SameEvents old in
      then_do-Ends P P _ _ (must-Ends o P P (insert_type n p d) db (insert_type-Keeps old n p d) h)
        (λ _ db1 h1. add_types-Kept p rest db1 h1)

  add_flags-Kept :
      (i : ℕ) (fs : List (String × ℕ)) (db : Db OldFile)
      → Alive (SameEvents old) db
      → Kept (add_flags o i fs db)
  unfolding add_flags
  add_flags-Kept i [] db h = h
  add_flags-Kept i ((n, v) ∷ rest) db h =
      let P = SameEvents old in
      then_do-Ends P P _ _ (must-Ends o P P (insert_flag i n v) db (insert_flag-Keeps old i n v) h)
        (λ _ db1 h1. add_flags-Kept i rest db1 h1)

  clean_triggers-Kept : (db : Db OldFile) → Alive (SameEvents old) db → Kept (clean_triggers o db)
  clean_triggers-Kept db h =
      let P = SameEvents old in
      let drop = λ (n : String) (d : Db OldFile) (a : Alive P d).
        may-Ends o P (drop_trigger n) d (always old _ (λ t. refl)) a in
      let create = λ (n : String) (d : Db OldFile) (a : Alive P d).
        may-Ends o P (create_trigger n) d (always old _ (λ t. refl)) a in
      then_do-Ends P P _ _ (drop "gc_update_ev_add2" db h) (λ _ d1 h1.
        then_do-Ends P P _ _ (drop "gc_update_ev_add3" d1 h1) (λ _ d2 h2.
          then_do-Ends P P _ _ (drop "gc_update_ev_update" d2 h2) (λ _ d3 h3.
            then_do-Ends P P _ _ (create "gc_update_ev_add4" d3 h3)
              (λ _ d4 h4. create "gc_update_ev_update" d4 h4))))

  pub convert_rows-Kept : (db : Db OldFile) → Alive (SameEvents old) db → Kept (convert_rows o db)
  unfolding convert_rows
  convert_rows-Kept db h =
      let P = SameEvents old in
      then_do-Ends P P _ _ (must-Ends o P P add_outgoing db (add_outgoing-Keeps old) h) (λ _ d1 h1.
        then_do-Ends P P _ _
          (must-Ends o P P (add_column "mc_profile") d1 (add_column-Keeps old "mc_profile") h1)
          (λ _ d2 h2.
            then_do-Ends P P _ _
              (must-Ends o P P (set_outgoing o.outbound) d2 (set_outgoing-Keeps old o.outbound) h2)
              (λ _ d3 h3. then_do-Ends P P _ _ (convert_services-Kept services d3 h3) (λ _ d4 h4.
                then_do-Ends P P _ _ (ask-Ends o P _ d4 h4) (λ plugin_id d5 h5.
                  then_do-Ends P P _ _ (add_types-Kept plugin_id event_types d5 h5) (λ _ d6 h6.
                    then_do-Ends P P _ _ (ask-Ends o P _ d6 h6) (λ service_id d7 h7.
                      then_do-Ends P P _ _ (add_flags-Kept service_id flags d7 h7)
                        (λ _ d8 h8. clean_triggers-Kept d8 h8))))))))
