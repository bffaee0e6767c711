-- ===== src/Logger/Attach/Place.antt =====
-- `rtcom_el_add_attachment` of src/eventlogger.c, up to the INSERT: the file system after it.
use mathlib.Core.List.{flatten, append_assoc, append-nil}
use rtcom_eventlogger.Common.{
  ℕ, zero, suc, leb, ◌≡◌, refl, sym, ◌∙◌, ap, subst, ◌⊎◌, inl, inr, Bool, true, false, Option, none,
  some, List, [], ◌∷◌, ◌++◌, String, length, if◌then◌else◌,
}
use rtcom_eventlogger.Db.{Error, internal}
use rtcom_eventlogger.Logger.{
  El, World, Outcome, crashed, failed, good, Exec, go_on, check, pure, Entry, directory, file,
}
use rtcom_eventlogger.Logger.Attach.{
  exists, opened, copy_loop, dirname_at, unique_from, build_unique_dirname, mkdir, attachments_dir,
  copied, copy_file, place,
}

abbrev pub Files : Type 0
Files = List (String × Entry)

-- What is true where the action is a success.
abbrev pub OnGood : {A : Type 0} → (A → Files → Type 0) → Outcome A → Files → Type 0
OnGood Q (good a) fs = Q a fs
OnGood Q (failed e) fs = Unit
OnGood Q crashed fs = Unit

-- The action changes the file system and nothing else, and a success has `Q`.
abbrev pub Touches : {A : Type 0} → El → (A → Files → Type 0) → Outcome A × El → Type 0
Touches el Q r = (fs : Files) × (r.1 ≡ record el { files = fs }) × OnGood Q r.0 fs

pub go_on-Touches :
    {A B : Type 0} (el : El) (Q : A → Files → Type 0) (R : B → Files → Type 0) (k : A → Exec B)
    (r : Outcome A × El)
    → Touches el Q r
    → ((a : A) (fs : Files) → Q a fs → Touches el R (k a (record el { files = fs })))
    → Touches el R (go_on k r)
go_on-Touches el Q R k (crashed, el') (fs, same, q) next = (fs, same, tt)
go_on-Touches el Q R k (failed e, el') (fs, same, q) next = (fs, same, tt)
go_on-Touches el Q R k (good a, el') (fs, same, q) next =
    subst (λ x. Touches el R (k a x)) (sym same) (next a fs q)

-- Where every `fwrite` took its buffer, the destination holds what was read.
pub copy_loop_lem :
    (buffers : List (List ℕ)) (room : ℕ) (out : List ℕ)
    → (copy_loop buffers room out).0 ≡ true
    → (copy_loop buffers room out).1 ≡ out ++ flatten buffers
unfolding copy_loop flatten
copy_loop_lem [] room out h = sym (append-nil out)
copy_loop_lem (b ∷ bs) room out h =
    of_test (leb (length b) room) _ _ h
      (λ g. copy_loop_lem bs _ (out ++ b) g ∙ append_assoc out b _)
  where
    of_test :
        {x : List ℕ} (fits : Bool) (rest : Bool × List ℕ) (part : List ℕ)
        → (if fits then rest else (false, part)).0 ≡ true
        → (rest.0 ≡ true → rest.1 ≡ x)
        → (if fits then rest else (false, part)).1 ≡ x
    of_test true rest part h g = g h
    of_test false rest part h g = cc

-- The name that the loop ends by is that of no entry.
pub unique_from-fresh :
    (w : World) (fuel : ℕ) (parent : String) (n i : ℕ) (fs : Files) (dir : String)
    → unique_from w fuel parent n i fs ≡ some dir
    → exists dir fs ≡ false
unfolding unique_from
unique_from-fresh w zero parent n i fs dir h = cc
unique_from-fresh w (suc fuel) parent n i fs dir h =
    of_test (exists (dirname_at w parent n i) fs) refl h
      (unique_from-fresh w fuel parent n (suc i) fs dir)
  where
    of_test :
        (b : Bool)
        → exists (dirname_at w parent n i) fs ≡ b
        → (if b then unique_from w fuel parent n (suc i) fs else some (dirname_at w parent n i))
          ≡ some dir
        → (unique_from w fuel parent n (suc i) fs ≡ some dir → exists dir fs ≡ false)
        → exists dir fs ≡ false
    of_test true e h later = later h
    of_test false e h later = subst (λ d. exists d fs ≡ false) (injective h) e
      where
        injective : {a b : String} → ◌≡◌ {A = Option String} (some a) (some b) → a ≡ b
        injective p = cc

-- A new copy under `dest` of what is read from `src`, in a directory that was not there.
abbrev pub Placed : World → String → String → Files → Files → Type 0
Placed w src dest before after =
    (n : ℕ) × (buffers : List (List ℕ)) × (dir : String) × (start : Files) × (w.disk.reads src n
      ≡ some buffers)
    × (exists dir start ≡ false)
    × (dest ≡ w.disk.join dir (w.disk.basename src))
    × (after ≡ (dest, file (flatten buffers)) ∷ (dir, directory) ∷ start)
    × ((start ≡ before) ⊎ ((d : String) × (start ≡ (d, directory) ∷ before)))

abbrev Opened : {A : Type 0} → Option A → Files → A → Files → Type 0
Opened o before a fs = (o ≡ some a) × (fs ≡ before)

opened-Touches :
    {A : Type 0} (o : Option A) (el : El) → Touches el (Opened o el.files) (opened o el)
opened-Touches none el = (el.files, refl, tt)
opened-Touches (some a) el = (el.files, refl, (refl, refl))

check-Touches : (b : Bool) (e : Error) (el : El) → Touches el (λ _ fs. fs ≡ el.files) (check b e el)
check-Touches true e el = (el.files, refl, refl)
check-Touches false e el = (el.files, refl, tt)

abbrev Written : String → Bool × List ℕ → Files → Unit {0} → Files → Type 0
Written dest r before _ fs = (r.0 ≡ true) × (fs ≡ (dest, file r.1) ∷ before)

module _ (w : World) where
  copied-Touches :
      (dest : String) (r : Bool × List ℕ) (el : El)
      → Touches el (Written dest r el.files) (copied w dest r el)
  copied-Touches dest (true, bytes) el = ((dest, file bytes) ∷ el.files, refl, (refl, refl))
  copied-Touches dest (false, bytes) el = ((dest, file bytes) ∷ el.files, refl, tt)

  mkdir-Touches :
      (path : String) (el : El)
      → Touches el (λ _ fs. fs ≡ (path, directory) ∷ el.files) (mkdir w path el)
  mkdir-Touches path el = of_test (w.disk.makes path el.db.clock)
    where
      of_test :
          (b : Bool)
          → Touches el
              (λ _ fs. fs ≡ (path, directory) ∷ el.files)
              (if b
                then (good tt, record el { files = (path, directory) ∷ el.files })
                else (failed (some internal), el))
      of_test true = ((path, directory) ∷ el.files, refl, refl)
      of_test false = (el.files, refl, tt)

  abbrev Maybe : Files → Files → Type 0
  Maybe before fs = (fs ≡ before) ⊎ ((d : String) × (fs ≡ (d, directory) ∷ before))

  attachments_dir-Touches :
      (el : El) → Touches el (λ _ fs. Maybe el.files fs) (attachments_dir w el)
  attachments_dir-Touches el =
      let dir = w.disk.join (w.disk.join w.disk.home_dir ".rtcom-eventlogger") "attachments" in
      go_on-Touches el (λ _ fs. Maybe el.files fs) (λ _ fs. Maybe el.files fs) _ _
        (of_test dir (exists dir el.files)) (λ _ fs q. (fs, refl, q))
    where
      made :
          (d : String) (r : Outcome (Unit {0}) × El)
          → Touches el (λ _ fs. fs ≡ (d, directory) ∷ el.files) r
          → Touches el (λ _ fs. Maybe el.files fs) r
      made d (good a, el') (fs, same, q) = (fs, same, inr (d, q))
      made d (failed e, el') (fs, same, q) = (fs, same, tt)
      made d (crashed, el') (fs, same, q) = (fs, same, tt)

      of_test :
          (dir : String) (there : Bool)
          → Touches el (λ _ fs. Maybe el.files fs) ((if there then pure tt else mkdir w dir) el)
      of_test dir true = (el.files, refl, inl refl)
      of_test dir false = made dir (mkdir w dir el) (mkdir-Touches dir el)

  build-Touches :
      (parent : String) (el : El)
      → Touches el
          (λ dir fs. (fs ≡ el.files) × (exists dir el.files ≡ false))
          (build_unique_dirname w parent el)
  unfolding build_unique_dirname
  build-Touches parent el =
      let fuel = suc (length el.files) in
      of_result (unique_from w fuel parent el.db.clock 0 el.files)
        (unique_from-fresh w fuel parent el.db.clock 0 el.files)
    where
      of_result :
          (o : Option String)
          → ((dir : String) → o ≡ some dir → exists dir el.files ≡ false)
          → Touches el
              (λ dir fs. (fs ≡ el.files) × (exists dir el.files ≡ false))
              (elim o as (λ _. Outcome String × El) [
                | none ↦ (crashed, el)
                | some dir ↦ (good dir, el)
              ])
      of_result none h = (el.files, refl, tt)
      of_result (some dir) h = (el.files, refl, (refl, h dir refl))

  abbrev Copied : String → String → Files → Files → Type 0
  Copied src dest before fs =
      (n : ℕ) × (buffers : List (List ℕ)) × (w.disk.reads src n ≡ some buffers)
      × (fs ≡ (dest, file (flatten buffers)) ∷ before)

  copy-Touches :
      (src dest : String) (el : El)
      → Touches el (λ _ fs. Copied src dest el.files fs) (copy_file w src dest el)
  unfolding copy_file
  copy-Touches src dest el =
      let n = el.db.clock in
      let Goal : Unit {0} → Files → Type 0 = λ _ fs. Copied src dest el.files fs in
      go_on-Touches el (Opened (w.disk.reads src n) el.files) Goal _ _
        (opened-Touches (w.disk.reads src n) el)
        (λ buffers fs1 (got, s1).
          go_on-Touches el (Opened (w.disk.room dest n) fs1) Goal _ _
            (opened-Touches (w.disk.room dest n) (record el { files = fs1 }))
            (λ room fs2 (_, s2).
              let r = copy_loop buffers room [] in
              go_on-Touches el (Written dest r fs2) Goal _ _
                (copied-Touches dest r (record el { files = fs2 }))
                (λ _ fs3 (whole, s3).
                  go_on-Touches el (λ _ fs. fs ≡ fs3) Goal _ _
                    (check-Touches (w.disk.closes src n) internal (record el { files = fs3 }))
                    (λ _ fs4 s4. of_close n buffers fs3 fs4 (w.disk.closes dest n) got s4 (
                      s3
                      ∙ ap (λ bytes. (dest, file bytes) ∷ fs2) (copy_loop_lem buffers room [] whole)
                      ∙ ap (λ fs. (dest, file (flatten buffers)) ∷ fs) (s2 ∙ s1))))))
    where
      of_close :
          (n : ℕ) (buffers : List (List ℕ)) (fs3 fs4 : Files) (b : Bool)
          → w.disk.reads src n ≡ some buffers
          → fs4 ≡ fs3
          → fs3 ≡ (dest, file (flatten buffers)) ∷ el.files
          → Touches el
              (λ _ fs. Copied src dest el.files fs)
              (check b internal (record el { files = fs4 }))
      of_close n buffers fs3 fs4 true got s4 s3 = (fs4, refl, (n, buffers, got, s4 ∙ s3))
      of_close n buffers fs3 fs4 false got s4 s3 = (fs4, refl, tt)

  pub place-Touches :
      (src : String) (el : El)
      → Touches el (λ dest fs. Placed w src dest el.files fs) (place w src el)
  unfolding place
  place-Touches src el =
      let Goal : String → Files → Type 0 = λ dest fs. Placed w src dest el.files fs in
      go_on-Touches el (λ _ fs. Maybe el.files fs) Goal _ _ (attachments_dir-Touches el)
        (λ dir fs1 start.
          go_on-Touches el (λ d fs. (fs ≡ fs1) × (exists d fs1 ≡ false)) Goal _ _
            (build-Touches dir (record el { files = fs1 }))
            (λ d fs2 (s2, fresh).
              go_on-Touches el (λ _ fs. fs ≡ (d, directory) ∷ fs2) Goal _ _
                (mkdir-Touches d (record el { files = fs2 }))
                (λ _ fs3 s3.
                  let dest = w.disk.join d (w.disk.basename src) in
                  go_on-Touches el (λ _ fs. Copied src dest fs3 fs) Goal _ _
                    (copy-Touches src dest (record el { files = fs3 }))
                    (λ _ fs4 (n, buffers, got, s4). (
                      fs4,
                      refl,
                      (
                        n,
                        buffers,
                        d,
                        fs1,
                        got,
                        fresh,
                        refl,
                        s4
                            ∙ ap (λ fs. (dest, file (flatten buffers)) ∷ fs)
                                (s3 ∙ ap (λ fs. (d, directory) ∷ fs) s2),
                        start,
                      ),
                    )))))
