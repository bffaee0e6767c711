-- ===== src/Iterator/Times.antt =====
-- The times that `rtcom_el_iter_get_full` of src/eventlogger-iter.c reads.
use rtcom_eventlogger.Common.{◌≡◌, ◌↔◌, refl, sym, ap, subst, ◌∙◌, ℤ, some, same}
use rtcom_eventlogger.Event.{Event}
use rtcom_eventlogger.Row.{number, Casts, fields, find, word32, column_int, value_of}
use rtcom_eventlogger.Row.Bounds.{IsInt, column_int-IsInt, column_int-number, column_int-word32}
use rtcom_eventlogger.Row.Reads.{columns_of}
use rtcom_eventlogger.Statement.{returns}
use rtcom_eventlogger.Iterator.{Joined, cells, Iter, Context}
use rtcom_eventlogger.Iterator.Current.{shown}
use rtcom_eventlogger.Iterator.Values.{
  get_full, get_columns, setters, run_setters, by_plugin, filled,
}
use rtcom_eventlogger.Iterator.RoundTrip.{by_plugin-Altered}

-- What is read from a column is a 32-bit number that is congruent to what is stored modulo 2^32 (their
-- residues, `word32`, are the same), and equal to it exactly if that has 32 bits itself.
abbrev pub Wraps : ℤ → ℤ → Type 0
Wraps read stored = IsInt read × (word32 read ≡ word32 stored) × ((read ≡ stored) ↔ IsInt stored)

column_int-Wraps : (casts : Casts) (z : ℤ) → Wraps (column_int casts (number z)) z
column_int-Wraps casts z =
    let fits = column_int-IsInt casts (number z) in
    (
      fits,
      column_int-word32 casts z,
      (λ same. subst IsInt same fits, λ h. column_int-number casts z h),
    )

columns_read :
    (casts : Casts) (j : Joined) (into : Event)
    → (ev : Event) × (run_setters setters (columns_of casts (cells j)) into ≡ some ev)
      × (ev.fld_storage_time ≡ column_int casts (number j.event.storage_time))
      × (ev.fld_start_time ≡ column_int casts (number j.event.start_time))
      × (ev.fld_end_time ≡ column_int casts (number j.event.end_time))
unfolding fields find same value_of run_setters setters
columns_read casts j into = (_, refl, refl, refl, refl)

-- At the row of any event get_full succeeds, and each of its three times is a 32-bit number that is
-- congruent to the stored time modulo 2^32: it is the stored time exactly if that lies between -2^31
-- and 2^31 - 1, which is in January 2038.
pub get_full-Wraps :
    (w : Context) (j : Joined) (it : Iter) (into : Event)
    → get_columns it ≡ some (shown w j)
    → (ev' : Event) × (get_full it into ≡ returns (some ev'))
      × Wraps ev'.fld_storage_time j.event.storage_time
      × Wraps ev'.fld_start_time j.event.start_time
      × Wraps ev'.fld_end_time j.event.end_time
unfolding get_full
get_full-Wraps w j it into at_row =
    let (ev, set, stored, started, over) = columns_read w.casts j into in
    let (a, b, c, m, same) = by_plugin-Altered it ev in
    let wraps = λ (z : ℤ). column_int-Wraps w.casts z in
    (
      by_plugin it ev,
      rw (at_row, get_full) (ap (filled it) set),
      subst (λ z. Wraps z j.event.storage_time)
          (sym (ap (λ (e : Event). e.fld_storage_time) same ∙ stored)) (wraps j.event.storage_time),
      subst (λ z. Wraps z j.event.start_time)
          (sym (ap (λ (e : Event). e.fld_start_time) same ∙ started)) (wraps j.event.start_time),
      subst (λ z. Wraps z j.event.end_time) (sym (ap (λ (e : Event). e.fld_end_time) same ∙ over))
          (wraps j.event.end_time),
    )
