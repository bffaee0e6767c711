-- ===== src/Logger/Change/Contacts.antt =====
-- `rtcom_el_update_remote_contacts` and `rtcom_el_remove_abook_uids` of src/eventlogger.c from
-- outside.
use rtcom_eventlogger.Common.{
  ◌≡◌, ◌≢◌, refl, sym, ◌∙◌, ap, subst, true, Option, none, some, List, [], ◌∷◌, String, map,
}
use rtcom_eventlogger.Db.{Core, off}
use rtcom_eventlogger.Db.Exec.{feed}
use rtcom_eventlogger.Db.Transaction.{committed}
use rtcom_eventlogger.Store.{RemoteRow, Tables}
use rtcom_eventlogger.Logger.{
  El, World, Signal, Outcome, crashed, failed, good, Exec, ◌>>◌, begin, committing, run, emit_dbus,
  refresh_hint,
}
use rtcom_eventlogger.Logger.Emit.{SendsFrom, Sends, emit_dbus-Sends}
use rtcom_eventlogger.Logger.Holds.{
  SameMemo, Inside, Holds, Runs, Ends, go_on-Holds, go_on-Ends, go_on-Holds-Ends, run-Holds,
  begin-Holds, committing-Ends,
}
use rtcom_eventlogger.Logger.Change.{
  Contact, with_contact, without_abook, run_each, update_remote_contacts, remove_abook_uids,
}

-- A change of the rows of Remotes alone.
abbrev pub on_remotes : {A : Type 0} → (A → RemoteRow → RemoteRow) → A → Tables → Tables
on_remotes f a t = record t { remotes = map (f a) t.remotes }

-- All of a list was done, for good, and at most one RefreshHint was sent; or it failed, nothing was
-- published and nothing was sent.
abbrev pub AllOrNone :
    {A : Type 0} → (A → RemoteRow → RemoteRow) → List A → El → Outcome (Unit {0}) × El → Type 0
AllOrNone f xs el (good u, el') =
    (committed el'.db.core ≡ feed (on_remotes f) (committed el.db.core) xs)
    × Sends refresh_hint none none el el'
AllOrNone f xs el (failed e, el') =
    (committed el'.db.core ≡ committed el.db.core) × (el'.sent ≡ el.sent)
AllOrNone f xs el (crashed, el') =
    (committed el'.db.core ≡ committed el.db.core) × (el'.sent ≡ el.sent)

module _ {A : Type 0} (w : World) (base : Tables) (signals : List Signal)
    (f : A → RemoteRow → RemoteRow) where
  run_each-Holds :
      (xs : List A) (Q : Unit {0} → El → Type 0) (el : El)
      → Inside w base signals el
      → Runs w base signals el (feed (on_remotes f) el.db.core.tables xs) Q tt
      → Holds w base signals Q (run_each w (λ a t. some (on_remotes f a t)) xs el)
  unfolding run_each
  run_each-Holds [] Q el h q = (h, q el h (refl, refl, refl) refl)
  run_each-Holds (x ∷ xs) Q el h q =
      go_on-Holds w base signals
        (λ _ el1. SameMemo el el1 × (el1.db.core.tables ≡ on_remotes f x el.db.core.tables)) Q _
        (run w (λ t. some (on_remotes f x t)) el)
        (run-Holds w base signals (λ t. some (on_remotes f x t)) _ el h
          (λ t ran el1 i memo same. (memo, same ∙ sym (injective ran))))
        (λ _ el1 i1 (memo1, same1). run_each-Holds xs Q el1 i1 (λ el2 i2 memo2 same2.
          q el2 i2 (memo2.0 ∙ memo1.0, memo2.1 ∙ memo1.1, memo2.2 ∙ memo1.2)
            (same2 ∙ ap (λ t. feed (on_remotes f) t xs) same1)))
    where
      injective : {a b : Tables} → ◌≡◌ {A = Option Tables} (some a) (some b) → a ≡ b
      injective p = cc

module _ {A : Type 0} (w : World) (f : A → RemoteRow → RemoteRow) where
  abbrev changing : List A → Exec (Unit {0})
  changing xs = do
    begin w
    committing w (run_each w (λ a t. some (on_remotes f a t)) xs)
    emit_dbus w refresh_hint none none

  changing-AllOrNone :
      (xs : List A) (el : El) → el.db.core.journal ≢ off → AllOrNone f xs el (changing xs el)
  changing-AllOrNone xs el journal =
      let base = committed el.db.core in
      of_Ends (changing xs el) (
        go_on-Holds-Ends w base el.sent
          (λ _ el1. (el1.db.core.tables ≡ base) × (el1.sent ≡ el.sent)) _ _ (begin w el)
          (begin-Holds w base el.sent _ el ((refl, journal), refl)
            (λ _ el1 _ memo tables. (tables, memo.1)))
          (λ _ el1 i1 (tables1, sent1).
            go_on-Ends w base el.sent
              (λ _ el2.
                (committed el2.db.core ≡ feed (on_remotes f) base xs)
                × (el2.db.core.autocommit ≡ true)
                × (el2.sent ≡ el.sent))
              _ _ (committing w (run_each w (λ a t. some (on_remotes f a t)) xs) el1)
              (committing-Ends w base el.sent
                (λ _ el2. el2.db.core.tables ≡ feed (on_remotes f) base xs) _
                (run_each w (λ a t. some (on_remotes f a t)) xs) el1
                (run_each-Holds w base el.sent f xs _ el1 i1
                  (λ el2 i2 memo2 same2. same2 ∙ ap (λ t. feed (on_remotes f) t xs) tables1))
                (λ _ el2 el3 done memo3 core3 sent2. (
                  ap committed core3 ∙ done,
                  ap (λ (c : Core Tables). c.autocommit) core3,
                  memo3.1 ∙ sent2,
                )))
              (λ _ el4 (done, alone, sent4).
                let (ok, core, sends) = emit_dbus-Sends w refresh_hint none none el4 alone in
                of_good (emit_dbus w refresh_hint none none el4) ok (
                  ap committed core ∙ done,
                  subst
                      (λ z.
                        SendsFrom refresh_hint none none z
                          (emit_dbus w refresh_hint none none el4).1)
                      sent4 sends,
                ))))
    where
      Done : El → Type 0
      Done el' =
          (committed el'.db.core ≡ feed (on_remotes f) (committed el.db.core) xs)
          × Sends refresh_hint none none el el'

      of_good :
          (r : Outcome (Unit {0}) × El)
          → r.0 ≡ good tt
          → Done r.1
          → Ends w (committed el.db.core) el.sent (λ _ el'. Done el') r
      of_good (good u, el') h d = d
      of_good (failed e, el') h d = cc
      of_good (crashed, el') h d = cc

      of_Ends :
          (r : Outcome (Unit {0}) × El)
          → Ends w (committed el.db.core) el.sent (λ _ el'. Done el') r
          → AllOrNone f xs el r
      of_Ends (good u, el') h = h
      of_Ends (failed e, el') h = (h.0.0, h.1)
      of_Ends (crashed, el') h = (h.0.0, h.1)

-- Whatever the engine and the bus do, and at whichever contact a failure comes: where
-- `rtcom_el_update_remote_contacts` returns TRUE, the remotes of all contacts of the list, in order,
-- got the contacts' data in what all connections see, nothing else changed and at most one
-- RefreshHint was sent; where it fails, nothing is published and nothing sent. (It is called with a
-- journal, and a list that is not empty.)
pub update_remote_contacts-AllOrNone :
    (w : World) (c : Contact) (cs : List Contact) (el : El)
    → el.db.core.journal ≢ off
    → AllOrNone with_contact (c ∷ cs) el (update_remote_contacts w (c ∷ cs) el)
unfolding update_remote_contacts
update_remote_contacts-AllOrNone w c cs el journal =
    changing-AllOrNone w with_contact (c ∷ cs) el journal

-- The same of `rtcom_el_remove_abook_uids`, which takes the uids from all remotes that have them.
pub remove_abook_uids-AllOrNone :
    (w : World) (u : String) (us : List String) (el : El)
    → el.db.core.journal ≢ off
    → AllOrNone without_abook (u ∷ us) el (remove_abook_uids w (u ∷ us) el)
unfolding remove_abook_uids
remove_abook_uids-AllOrNone w u us el journal =
    changing-AllOrNone w without_abook (u ∷ us) el journal
