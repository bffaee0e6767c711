-- ===== src/Logger/Add/Remote.antt =====
-- What `_add_event_core` of src/eventlogger.c makes of the table of remotes.
use rtcom_eventlogger.Common.{
  ◌≡◌, refl, sym, ◌∙◌, ap, inl, inr, Bool, true, false, not, Option, none, some, List, ◌∷◌, map,
  String, same_opt, any, Bool-cases, if◌then◌else◌,
}
use rtcom_eventlogger.Event.{Event, is_set, remote_uid}
use rtcom_eventlogger.Store.{RemoteRow, Tables}
use rtcom_eventlogger.Logger.{El, World, Signal, Exec, pure, is_remote}
use rtcom_eventlogger.Logger.Holds.{
  Inside, Holds, Runs, SameMemo, go_on-Holds, run-Holds, select-Holds,
}
use rtcom_eventlogger.Logger.Add.{
  RemotesCtx, fetch_remote_data, no_remote, insert_remote, update_remote, new_name, new_abook_uid,
  update_when, store_remote, create_remote, update_remotes, existing_remote,
}
use rtcom_eventlogger.Logger.Add.Refreshed.{
  refreshed, found_remote, RemotesAfter, updated_when, updated_when-false, two_updates,
}

absurd_bool : {P : Type 0} (b : Bool) → b ≡ true → b ≡ false → P
absurd_bool b t f = cc

injective : {a b : Tables} → ◌≡◌ {A = Option Tables} (some a) (some b) → a ≡ b
injective p = cc

nothing : {a : Tables} → ◌≡◌ {A = Option Tables} none (some a) → ⊥
nothing p = cc

module _ (w : World) (base : Tables) (signals : List Signal) where
  pub existing_remote-Holds :
      (ev : Event) (Q : RemotesCtx → El → Type 0) (el : El)
      → Inside w base signals el
      → Runs w base signals el el.db.core.tables Q (found_remote ev el.db.core.tables.remotes)
      → Holds w base signals Q (existing_remote w ev el)
  existing_remote-Holds ev Q el h q = elim (Bool-cases (is_set ev remote_uid)) [
    | inl e ↦
        simp e (select-Holds w base signals fetch_remote_data no_remote _ Q el h (simp e at q))
    | inr e ↦ simp e (h, (simp e at q) el h (refl, refl, refl) refl)
  ]

  update_when-Holds :
      (b : Bool) (l r : Option String) (f : RemoteRow → RemoteRow) (Q : Unit {0} → El → Type 0)
      (el : El)
      → Inside w base signals el
      → Runs w base signals el
          (record el.db.core.tables { remotes = updated_when b l r f el.db.core.tables.remotes })
          Q
          tt
      → Holds w base signals Q (update_when w b (update_remote l r f) el)
  update_when-Holds false l r f Q el h q =
      (h, q el h (refl, refl, refl) (rw (updated_when-false l r f el.db.core.tables.remotes) refl))
  update_when-Holds true l r f Q el h q =
      run-Holds w base signals (update_remote l r f) Q el h
        (λ t ran el' i memo same. q el' i memo (same ∙ sym (injective ran)))

  update_remotes-Holds :
      (ev : Event) (ctx : RemotesCtx) (Q : Unit {0} → El → Type 0) (el : El)
      → Inside w base signals el
      → Runs w base signals el
          (record el.db.core.tables {
            remotes =
                map
                  (λ x.
                    if is_remote ev.fld_remote_uid ev.fld_local_uid x
                    then refreshed (new_abook_uid ev) (new_name ev) ctx x
                    else x)
                  el.db.core.tables.remotes;
          })
          Q
          tt
      → Holds w base signals Q (update_remotes w ev ctx el)
  update_remotes-Holds ev ctx Q el h q =
      let f = λ (x : RemoteRow). with_abook x in
      let g = λ (x : RemoteRow). with_name x in
      let a = not (same_opt (new_abook_uid ev) ctx.abook_uid) in
      let n = not (same_opt (new_name ev) ctx.remote_name) in
      go_on-Holds w base signals
        (λ _ el'.
          SameMemo el el'
          × (el'.db.core.tables ≡ record el.db.core.tables {
            remotes = updated_when a ev.fld_local_uid ev.fld_remote_uid f el.db.core.tables.remotes;
          }))
        Q _ _
        (update_when-Holds a ev.fld_local_uid ev.fld_remote_uid f _ el h
          (λ el' i memo same. (memo, same)))
        (λ _ el' i (memo, same).
          update_when-Holds n ev.fld_local_uid ev.fld_remote_uid g Q el' i (λ el'' i' memo' same'.
            q el'' i' (memo'.0 ∙ memo.0, memo'.1 ∙ memo.1, memo'.2 ∙ memo.2)
              (same'
                ∙ ap (again g n) same
                ∙ ap (λ (z : List RemoteRow). record el.db.core.tables { remotes = z })
                    (two_updates (new_abook_uid ev) (new_name ev) ev.fld_local_uid ev.fld_remote_uid
                      ctx el.db.core.tables.remotes))))
    where
      with_abook : RemoteRow → RemoteRow
      with_abook x = record x { abook_uid = new_abook_uid ev }

      with_name : RemoteRow → RemoteRow
      with_name x = record x { remote_name = new_name ev }

      again : (RemoteRow → RemoteRow) → Bool → Tables → Tables
      again g n t = record t {
        remotes = updated_when n ev.fld_local_uid ev.fld_remote_uid g t.remotes;
      }

  create_remote-Holds :
      (ev : Event) (Q : Unit {0} → El → Type 0) (el : El)
      → Inside w base signals el
      → ((l r : String)
          → ev.fld_local_uid ≡ some l
          → ev.fld_remote_uid ≡ some r
          → Runs w base signals el
              (record el.db.core.tables {
                remotes =
                    record {
                      local_uid = l;
                      remote_uid = r;
                      remote_name = new_name ev;
                      abook_uid = new_abook_uid ev;
                    }
                    ∷ el.db.core.tables.remotes;
              })
              Q
              tt)
      → Holds w base signals Q (create_remote w ev el)
  create_remote-Holds ev Q el h q = run-Holds w base signals _ Q el h (λ t ran el' i memo same.
      let (l, r, hl, hr, made) = inserted ev.fld_local_uid ev.fld_remote_uid t ran in
      q l r hl hr el' i memo (same ∙ made))
    where
      inserted :
          (l r : Option String) (t : Tables)
          → insert_remote l r (new_name ev) (new_abook_uid ev) el.db.core.tables ≡ some t
          → (l' r' : String) × (l ≡ some l')
            × (r ≡ some r')
            × (t ≡ record el.db.core.tables {
              remotes =
                  record {
                    local_uid = l';
                    remote_uid = r';
                    remote_name = new_name ev;
                    abook_uid = new_abook_uid ev;
                  }
                  ∷ el.db.core.tables.remotes;
            })
      inserted (some l) (some r) t ran =
          elim (Bool-cases (any (is_remote (some r) (some l)) el.db.core.tables.remotes)) [
            | inl e ↦ absurd (nothing (rw e at ran))
            | inr e ↦ (l, r, refl, refl, sym (injective (rw e at ran)))
          ]
      inserted none r t ran = cc
      inserted (some l) none t ran = cc

  chosen :
      (b : Bool) (m n : Exec (Unit {0})) (Q : Unit {0} → El → Type 0) (el : El)
      → (b ≡ true → Holds w base signals Q (m el))
      → (b ≡ false → Holds w base signals Q (n el))
      → Holds w base signals Q ((if b then m else n) el)
  chosen true m n Q el t f = t refl
  chosen false m n Q el t f = f refl

  -- The table of remotes after an event, or a failure.
  pub store_remote-Holds :
      (ev : Event) (Q : Unit {0} → El → Type 0) (el : El)
      → Inside w base signals el
      → ((rs : List RemoteRow)
          → RemotesAfter ev el.db.core.tables.remotes rs
          → Runs w base signals el (record el.db.core.tables { remotes = rs }) Q tt)
      → Holds w base signals Q (store_remote w ev (found_remote ev el.db.core.tables.remotes) el)
  store_remote-Holds ev Q el h q =
      let ctx = found_remote ev el.db.core.tables.remotes in
      chosen (is_set ev remote_uid) _ (pure tt) Q el
        (λ set.
          chosen ctx.exists (update_remotes w ev ctx) (create_remote w ev) Q el
            (λ old.
              update_remotes-Holds ev ctx Q el h (
                q _
                  (λ unset. absurd_bool _ set unset, λ _ _. refl, λ _ new. absurd_bool _ old new)))
            (λ new. create_remote-Holds ev Q el h (λ l r hl hr. q _ (
              λ unset. absurd_bool _ set unset,
              λ _ old. absurd_bool _ old new,
              λ _ _. (l, r, hl, hr, refl),
            ))))
        (λ unset. (
          h,
          q el.db.core.tables.remotes
              (λ _. refl, λ set. absurd_bool _ set unset, λ set. absurd_bool _ set unset) el h
              (refl, refl, refl) refl,
        ))
