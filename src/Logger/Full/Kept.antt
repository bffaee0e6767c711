-- ===== src/Logger/Full/Kept.antt =====
-- `rtcom_el_add_event_full` of src/eventlogger.c, inside its transaction: what each attachment and
-- each header adds.
use rtcom_eventlogger.Common.{
  ℕ, zero, suc, ◌≡◌, refl, sym, ◌∙◌, ap, subst, Option, none, some, List, [], ◌∷◌, String, pos,
}
use rtcom_eventlogger.Store.{Tables}
use rtcom_eventlogger.AttachIter.{Attachment}
use rtcom_eventlogger.Logger.{El, World, Signal, Outcome, crashed, failed, good, run}
use rtcom_eventlogger.Logger.Holds.{
  SameMemo, Inside, Outside, Outside-of_Inside, Holds, Holds-map, go_on-Holds, run-Holds,
}
use rtcom_eventlogger.Logger.Change.{insert_header, add_header}
use rtcom_eventlogger.Logger.Attach.{with_attachment, place, add_attachment}
use rtcom_eventlogger.Logger.Attach.Place.{Files, Touches, Placed, place-Touches}
use rtcom_eventlogger.Logger.Full.{Headers, add_attachments, add_headers}

-- The attachments of the event `i`: each has a row with the path of a new copy of its file.
abbrev pub Attached : World → ℕ → List Attachment → Tables → Files → Tables → Files → Type 0
Attached w i [] t fs t' fs' = (t' ≡ t) × (fs' ≡ fs)
Attached w i (a ∷ rest) t fs t' fs' =
    (src : String) × (dest : String) × (fs1 : Files) × (a.path ≡ some src)
    × Placed w src dest fs fs1
    × Attached w i rest (with_attachment i dest a.desc t) fs1 t' fs'

-- Its headers: each has a row, and no name twice.
abbrev pub Headed : ℕ → Headers → Tables → Tables → Type 0
Headed i [] t t' = t' ≡ t
Headed i ((k, none) ∷ rest) t t' = ⊥
Headed i ((k, some v) ∷ rest) t t' =
    (t1 : Tables) × (insert_header i k v t ≡ some t1) × Headed i rest t1 t'

module _ (w : World) (base : Tables) (signals : List Signal) where
  -- The object keeps all but the connection and the files.
  abbrev pub Ready : El → Tables → Files → El → Type 0
  Ready el t fs el' =
      (el'.last_group_uid ≡ el.last_group_uid)
      × (el'.sent ≡ el.sent)
      × (el'.db.core.tables ≡ t)
      × (el'.files ≡ fs)

  -- An action on the file system is done inside the transaction.
  Touches-Holds :
      {A : Type 0} (el : El) (Q : A → Files → Type 0) (r : Outcome A × El)
      → Inside w base signals el
      → Touches el Q r
      → Holds w base signals (λ a el'. (fs : Files) × (el' ≡ record el { files = fs }) × Q a fs) r
  Touches-Holds el Q (crashed, el') i (fs, same, q) =
      subst (Outside w base signals) (sym same) (Outside-of_Inside w base signals el i)
  Touches-Holds el Q (failed e, el') i (fs, same, q) =
      subst (Outside w base signals) (sym same) (Outside-of_Inside w base signals el i)
  Touches-Holds el Q (good a, el') i (fs, same, q) =
      (subst (Inside w base signals) (sym same) i, (fs, same, q))

  injective : {a b : Tables} → ◌≡◌ {A = Option Tables} (some a) (some b) → a ≡ b
  injective p = cc

  -- One attachment.
  abbrev Stored : ℕ → Option String → Option String → El → El → Type 0
  Stored i path desc el el' =
      (src : String) × (dest : String) × (fs : Files) × (path ≡ some src)
      × Placed w src dest el.files fs
      × Ready el (with_attachment i dest desc el.db.core.tables) fs el'

  add_attachment-Holds :
      (i : ℕ) (path desc : Option String) (el : El)
      → Inside w base signals el
      → Holds w base signals
          (λ _ el'. Stored i path desc el el')
          (add_attachment w (pos i) path desc el)
  unfolding add_attachment
  add_attachment-Holds i none desc el h = Outside-of_Inside w base signals el h
  add_attachment-Holds i (some src) desc el h =
      go_on-Holds w base signals
        (λ dest el1.
          (fs : Files) × (el1 ≡ record el { files = fs }) × Placed w src dest el.files fs)
        (λ _ el'. Stored i (some src) desc el el') _ (place w src el)
        (Touches-Holds el (λ dest fs. Placed w src dest el.files fs) (place w src el) h
          (place-Touches w src el))
        (λ dest el1 i1 (fs, same, placed).
          let add = λ (t : Tables). some (with_attachment i dest desc t) in
          go_on-Holds w base signals (λ _ el2. Stored i (some src) desc el el2) _ _ (run w add el1)
            (run-Holds w base signals add _ el1 i1 (λ t ran el2 i2 memo same2. (
              src,
              dest,
              fs,
              refl,
              placed,
              (
                memo.0 ∙ ap (λ (x : El). x.last_group_uid) same,
                memo.1 ∙ ap (λ (x : El). x.sent) same,
                same2
                    ∙ sym (injective ran)
                    ∙ ap (λ (x : El). with_attachment i dest desc x.db.core.tables) same,
                memo.2 ∙ ap (λ (x : El). x.files) same,
              ),
            )))
            (λ _ el2 i2 q. (i2, q)))

  -- All of them.
  abbrev pub AllStored : ℕ → List Attachment → El → El → Type 0
  AllStored i atts el el' =
      (el'.last_group_uid ≡ el.last_group_uid)
      × (el'.sent ≡ el.sent)
      × Attached w i atts el.db.core.tables el.files el'.db.core.tables el'.files

  pub add_attachments-Holds :
      (i : ℕ) (atts : List Attachment) (el : El)
      → Inside w base signals el
      → Holds w base signals (λ _ el'. AllStored i atts el el') (add_attachments w i atts el)
  unfolding add_attachments
  add_attachments-Holds i [] el h = (h, (refl, refl, (refl, refl)))
  add_attachments-Holds i (a ∷ rest) el h =
      go_on-Holds w base signals (λ _ el1. Stored i a.path a.desc el el1)
        (λ _ el'. AllStored i (a ∷ rest) el el') _ _ (add_attachment-Holds i a.path a.desc el h)
        (λ _ el1 i1 (src, dest, fs, path, placed, (group1, sent1, tables1, files1)).
          Holds-map w base signals (λ _ el2. AllStored i rest el1 el2) _
            (add_attachments w i rest el1) (add_attachments-Holds i rest el1 i1)
            (λ _ el2 (group2, sent2, all). (
              group2 ∙ group1,
              sent2 ∙ sent1,
              (
                src,
                dest,
                fs,
                path,
                placed,
                subst
                    (λ f.
                      Attached w i rest (with_attachment i dest a.desc el.db.core.tables) f
                        el2.db.core.tables el2.files)
                    files1
                    (subst (λ t. Attached w i rest t el1.files el2.db.core.tables el2.files) tables1
                      all),
              ),
            )))

  abbrev pub AllHeaded : ℕ → Headers → El → El → Type 0
  AllHeaded i headers el el' =
      (el'.last_group_uid ≡ el.last_group_uid)
      × (el'.sent ≡ el.sent)
      × (el'.files ≡ el.files)
      × Headed i headers el.db.core.tables el'.db.core.tables

  pub add_headers-Holds :
      (i : ℕ) (headers : Headers) (el : El)
      → Inside w base signals el
      → Holds w base signals (λ _ el'. AllHeaded i headers el el') (add_headers w i headers el)
  unfolding add_headers add_header
  add_headers-Holds i [] el h = (h, (refl, refl, refl, refl))
  add_headers-Holds i ((k, none) ∷ rest) el h = Outside-of_Inside w base signals el h
  add_headers-Holds zero ((k, some v) ∷ rest) el h = Outside-of_Inside w base signals el h
  add_headers-Holds (suc n) ((k, some v) ∷ rest) el h =
      let ins = insert_header (suc n) k v in
      go_on-Holds w base signals
        (λ _ el1. SameMemo el el1 × (ins el.db.core.tables ≡ some el1.db.core.tables))
        (λ _ el'. AllHeaded (suc n) ((k, some v) ∷ rest) el el') _ _
        (go_on-Holds w base signals
          (λ _ el1. SameMemo el el1 × (ins el.db.core.tables ≡ some el1.db.core.tables)) _ _
          (run w ins el)
          (run-Holds w base signals ins _ el h
            (λ t ran el1 i1 memo same. (memo, ran ∙ ap (λ (x : Tables). some x) (sym same))))
          (λ _ el1 i1 q. (i1, q)))
        (λ _ el1 i1 (memo, ran).
          Holds-map w base signals (λ _ el2. AllHeaded (suc n) rest el1 el2) _
            (add_headers w (suc n) rest el1) (add_headers-Holds (suc n) rest el1 i1)
            (λ _ el2 (group2, sent2, files2, all).
              (group2 ∙ memo.0, sent2 ∙ memo.1, files2 ∙ memo.2, (el1.db.core.tables, ran, all))))
