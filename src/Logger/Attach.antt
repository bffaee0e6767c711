-- ===== src/Logger/Attach.antt =====
-- `rtcom_el_add_attachment` and `_build_unique_dirname` of src/eventlogger.c: an attachment is copied
-- under a directory of its own, then its path is stored.
use Prim.Native.String.{◌++◌ as text_append}
use rtcom_eventlogger.Common.{
  ℕ, zero, suc, max, ◌-◌, leb, Bool, true, false, Option, none, some, List, [], ◌∷◌, ◌++◌, String,
  ℤ, pos, negsuc, same, any, length, take, if◌then◌else◌,
}
use rtcom_eventlogger.Db.{internal, invalid_argument}
use rtcom_eventlogger.Store.{AttachmentRow, Tables}
use rtcom_eventlogger.Logger.{
  World, crashed, good, failed, Exec, Entry, directory, file, pure, raise, ◌>>=◌, ◌>>◌, check, gets,
  run,
}
pub mod Place
pub mod Free

-- `g_file_test` for G_FILE_TEST_EXISTS
abbrev pub exists : String → List (String × Entry) → Bool
exists path files = any (λ (p, e). same p path) files

abbrev pub max_attachment_id : List AttachmentRow → ℕ
max_attachment_id [] = 0
max_attachment_id (a ∷ rest) = max a.id (max_attachment_id rest)

-- INSERT INTO Attachments
abbrev pub with_attachment : ℕ → String → Option String → Tables → Tables
with_attachment i path desc t = record t {
  attachments =
      record { id = suc (max_attachment_id t.attachments); event_id = i; path = path; desc = desc }
      ∷ t.attachments;
}

-- `event_id < 0` is refused.
abbrev pub natural : ℤ → Exec ℕ
natural (pos n) = pure n
natural (negsuc n) = raise (some invalid_argument)

abbrev pub not_null : Option String → Exec String
not_null none = raise (some invalid_argument)
not_null (some s) = pure s

abbrev pub opened : {A : Type 0} → Option A → Exec A
opened none = raise (some internal)
opened (some a) = pure a

-- The loop that copies: whether every `fwrite` took its buffer, and what the destination holds.
unfoldable pub copy_loop : List (List ℕ) → ℕ → List ℕ → Bool × List ℕ
copy_loop [] room out = (true, out)
copy_loop (buffer ∷ buffers) room out =
    let rest = copy_loop buffers (room - length buffer) (out ++ buffer) in
    if leb (length buffer) room then rest else (false, out ++ take room buffer)

module _ (w : World) where
  -- The name in the i-th round of `_build_unique_dirname`.
  abbrev pub dirname_at : String → ℕ → ℕ → String
  dirname_at parent n zero = w.disk.join parent (w.disk.stamp n 0)
  dirname_at parent n (suc i) =
      text_append (w.disk.join parent (w.disk.stamp n (suc i)))
        (text_append "-" (w.disk.decimal (suc i)))

  -- The loop of `_build_unique_dirname`, from the i-th round on; `none` is a loop that goes on after
  -- all its fuel.
  unfoldable pub unique_from : ℕ → String → ℕ → ℕ → List (String × Entry) → Option String
  unique_from zero parent n i files = none
  unique_from (suc fuel) parent n i files =
      let later = unique_from fuel parent n (suc i) files in
      if exists (dirname_at parent n i) files then later else some (dirname_at parent n i)

  -- `_build_unique_dirname`, with one round more than there are entries.
  unfoldable pub build_unique_dirname : String → Exec String
  build_unique_dirname parent el =
      elim (unique_from (suc (length el.files)) parent el.db.clock 0 el.files) [
        | none ↦ (crashed, el)
        | some dir ↦ (good dir, el)
      ]

  abbrev pub mkdir : String → Exec (Unit {0})
  mkdir path el =
      if w.disk.makes path el.db.clock
      then (good tt, record el { files = (path, directory) ∷ el.files })
      else (failed (some internal), el)

  -- The directory of all attachments, made where it is missing.
  abbrev pub attachments_dir : Exec String
  attachments_dir = do
    let dir = w.disk.join (w.disk.join w.disk.home_dir ".rtcom-eventlogger") "attachments" in
        do there ← gets (λ el. exists dir el.files); if there then pure tt else mkdir dir; pure dir

  -- The copy is there, all of it or the part that was written.
  abbrev pub copied : String → Bool × List ℕ → Exec (Unit {0})
  copied dest (ok, bytes) el =
      let el' = record el { files = (dest, file bytes) ∷ el.files } in
      if ok then (good tt, el') else (failed (some internal), el')

  -- From `fopen` of the source to the two `fclose`.
  unfoldable pub copy_file : String → String → Exec (Unit {0})
  copy_file src dest = do
    n ← gets (λ el. el.db.clock)
    buffers ← opened (w.disk.reads src n)
    room ← opened (w.disk.room dest n)
    copied dest (copy_loop buffers room [])
    check (w.disk.closes src n) internal
    check (w.disk.closes dest n) internal

  -- The path of the copy.
  unfoldable pub place : String → Exec String
  place src = do
    dir ← attachments_dir
    unique_dir ← build_unique_dirname dir
    mkdir unique_dir
    let dest = w.disk.join unique_dir (w.disk.basename src) in do copy_file src dest; pure dest

  -- `rtcom_el_add_attachment`: the id of the row that was just inserted, which is the largest one.
  unfoldable pub add_attachment : ℤ → Option String → Option String → Exec ℕ
  add_attachment event_id path desc = do
    i ← natural event_id
    src ← not_null path
    dest ← place src
    run w (λ t. some (with_attachment i dest desc t))
    gets (λ el. max_attachment_id el.db.core.tables.attachments)
