-- ===== src/Iterator/Current.antt =====
-- `_update_representation` of src/eventlogger-iter.c: the names it looks for, and the hash table of
-- the row before.
use rtcom_eventlogger.Common.{
  ℕ, pos, ◌≡◌, refl, sym, subst, ◌⊎◌, inl, inr, Option, none, some, same,
}
use rtcom_eventlogger.Row.{Cell, number, Columns, fields, find, column_int, value_of}
use rtcom_eventlogger.Row.Reads.{columns_of, get_row_lem, update_row_lem}
use rtcom_eventlogger.Statement.{returns}
use rtcom_eventlogger.Iterator.{
  Joined, cells, Iter, Context, with_current, renewed, update_representation,
}

module _ (w : Context) where
  -- The columns that a client sees at a row.
  abbrev pub shown : Joined → Columns
  shown r = columns_of w.casts (cells r)

  -- The iterator at a row.
  abbrev pub at_row_of : Joined → Iter → Iter
  at_row_of r it = record it {
    columns = some (shown r);
    current_event_id = column_int w.casts (number (pos r.event.id));
    current_service_id = column_int w.casts (number (pos r.event.service_id));
    current_event_type_id = column_int w.casts (number (pos r.event.event_type_id));
    active_plugin = w.plugins (column_int w.casts (number (pos r.event.service_id)));
  }

  -- The hash table, if there is one, was made for an event.
  abbrev pub IsMade : Option Columns → Type 0
  IsMade o = (o ≡ none) ⊎ ((old : ℕ → Cell) × (o ≡ some (columns_of w.casts old)))

  renewed_lem : (o : Option Columns) (r : Joined) → IsMade o → renewed w o r ≡ some (shown r)
  renewed_lem o r (inl e) =
      subst (λ x. renewed w x r ≡ some (shown r)) (sym e) (get_row_lem w.casts (cells r))
  renewed_lem o r (inr (old, e)) =
      subst (λ x. renewed w x r ≡ some (shown r)) (sym e) (update_row_lem w.casts old (cells r))

  with_current_lem :
      (r : Joined) (it : Iter) → with_current w it (shown r) ≡ returns (at_row_of r it)
  unfolding fields find same value_of
  with_current_lem r it = refl

  pub update_representation_lem :
      (r : Joined) (it : Iter)
      → IsMade it.columns
      → update_representation w r it ≡ returns (at_row_of r it)
  unfolding update_representation
  update_representation_lem r it made =
      rw (renewed_lem it.columns r made, update_representation) (with_current_lem r it)
