-- ===== src/AttachIter.antt =====
-- src/eventlogger-attach-iter.c: the iterator over the attachments of an event.
use rtcom_eventlogger.Common.{ℕ, pos, Bool, true, false, Option, none, some, [], String}
use rtcom_eventlogger.Db.{Env, Db}
use rtcom_eventlogger.Store.{AttachmentRow, Tables}
use rtcom_eventlogger.Statement.{
  StmtPtr, null, live, freed, Run, undefined, returns, Step, at_row, at_end, refused, reset, step,
}
use rtcom_eventlogger.Row.{Cell, number, string, Casts, column_int, column_text, word32}
pub mod Safe

-- `RTComElAttachIterPrivate`; the connection is that of the logger.
pub record AttachIter : Type 0 where
  pub stmt : StmtPtr Tables AttachmentRow

-- `RTComElAttachment`
pub record Attachment : Type 0 where
  pub id : ℕ
  pub event_id : ℕ
  pub path : Option String
  pub desc : Option String

abbrev pub text_cell : Option String → Cell
text_cell none = Cell.null
text_cell (some s) = string s

-- The columns of a row of SELECT id, event_id, path, desc; without a row, SQLite answers NULL.
abbrev pub read_attachment : Casts → Option AttachmentRow → Attachment
read_attachment casts none = record {
  id = word32 (column_int casts Cell.null);
  event_id = word32 (column_int casts Cell.null);
  path = column_text casts Cell.null;
  desc = column_text casts Cell.null;
}
read_attachment casts (some a) = record {
  id = word32 (column_int casts (number (pos a.id)));
  event_id = word32 (column_int casts (number (pos a.event_id)));
  path = column_text casts (string a.path);
  desc = column_text casts (text_cell a.desc);
}

module _ (env : Env Tables) where
  -- What `rtcom_el_attach_iter_next` makes of the result code.
  abbrev pub after_step :
      Step Tables AttachmentRow × Db Tables → Run (Bool × AttachIter × Db Tables)
  after_step (at_row r s, db) = returns (true, record { stmt = live s }, db)
  after_step (at_end, db) = returns (false, record { stmt = null }, db)
  after_step (refused, db) = returns (false, record { stmt = null }, db)

  -- `rtcom_el_attach_iter_next`
  unfoldable pub next : AttachIter → Db Tables → Run (Bool × AttachIter × Db Tables)
  next it db = elim it.stmt [
    | null ↦ returns (false, it, db)
    | live s ↦ after_step (step env s db)
    | freed ↦ undefined
  ]

  -- `rtcom_el_attach_iter_first`
  unfoldable pub first : AttachIter → Db Tables → Run (Bool × AttachIter × Db Tables)
  first it db = elim it.stmt [
    | null ↦ returns (false, it, db)
    | live s ↦ next (record { stmt = live (reset s) }) db
    | freed ↦ undefined
  ]

-- `rtcom_el_attach_iter_get`
unfoldable pub get : Casts → AttachIter → Run (Option Attachment)
get casts it = elim it.stmt [
  | null ↦ returns none
  | live s ↦ returns (some (read_attachment casts s.current))
  | freed ↦ undefined
]

-- `rtcom_el_attach_iter_finalize`
unfoldable pub finalize : AttachIter → Run (Unit {0})
finalize it = elim it.stmt [ null ↦ returns tt | live s ↦ returns tt | freed ↦ undefined ]

-- `rtcom_el_attachment_new`
unfoldable pub attachment_new : Option String → Option String → Option Attachment
attachment_new none desc = none
attachment_new (some path) desc =
    some (record { id = 0; event_id = 0; path = some path; desc = desc })
