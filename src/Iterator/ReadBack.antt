-- ===== src/Iterator/ReadBack.antt =====
-- An event that `rtcom_el_add_event` of src/eventlogger.c has stored, with all its fields set, as
-- `rtcom_el_iter_get_full` of src/eventlogger-iter.c reads it back.
use rtcom_eventlogger.Event.{Event}
