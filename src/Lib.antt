-- ===== src/Lib.antt =====
-- A model of rtcom-eventlogger, the library that keeps the phone's calls and messages in a SQLite
-- database, and theorems about it.
--
-- The parts of the program and the files that model them:
--   src/event.c, rtcom-eventlogger/event.h: Event. `Event` is RTComElEvent with its mask, and
--     `event_equals` is rtcom_el_event_equals. Event/Equality says what it decides.
--   src/db.c, the functions: Db. A connection (`Db`) has tables, the tables at BEGIN, the
--     autocommit mode and the journal mode. `iterate`, `exec`, `transaction`, `commit` and
--     `rollback` are the functions rtcom_el_db_ of those names. Db/Iterate, Db/Exec, Db/Calm and
--     Db/Transaction have their laws.
--   src/db.c, the schema: Store. A table is a list of rows, the newest first; `insert_event`,
--     `update_events` and `delete_events` are the statements on Events with the triggers that they
--     fire. Store/Cache says what GroupCache is for (`Consistent`), Store/Refresh has the
--     statements of update_group_cache, and Store/Insert, Store/Update, Store/Drop,
--     Store/DropService, Store/Recount and Store/Delete show what keeps the cache right.
--   src/eventlogger.c: Logger. An operation is a function of the object (`El`) that ends by a
--     value, by a failure with its error, or by a crash. Logger/Add has rtcom_el_add_event
--     (Logger/Add/Checked says what its check has found, Logger/Add/Commit what is left),
--     Logger/Change what changes an event or a contact, Logger/Delete the deletions, Logger/Lookup
--     the reads, Logger/Attach rtcom_el_add_attachment (Logger/Attach/Free says how its loop for a
--     name ends), Logger/Full rtcom_el_add_event_full, and Logger/Receive _dbus_filter_callback;
--     each is named as in the C code without the prefix. Logger/Holds, Logger/Single,
--     Logger/Delete/Success and Logger/Delete/Ignored have the rules by which the theorems follow
--     the code.
--   src/eventlogger-query.c: Query. `prepare` and `refresh` make the texts.
--   src/db.c, opening: Open. A file (`DbFile`) is seen by its version and the names that the schema
--     gives it; `db_open` is rtcom_el_db_open with its error paths. Open/Schema has what the
--     statements of db_schema_sql make, Open/Kept what each statement leaves, Open/Complete and
--     Open/Installs what opening leaves.
--   src/db.c, conversion: Convert. Convert/Changes has the statements, Convert/Run
--     _internal_convert_v0 and rtcom_el_db_convert_from_db0 on the files (`Dir`), Convert/Steps and
--     Convert/Kept what each statement keeps, Convert/Converted what the whole makes of a file,
--     Convert/Temp what the temporary file has at the backup, Convert/Atomic what is left,
--     Convert/Returns that one call is enough.
--   src/eventlogger.c, plugins: Plugins, with the tables that plugins are entered in.
--     Plugins/Register has _init_plugin, _load_plugin and _scan_plugins_dir, Plugins/Names what
--     _build_db_representation and rtcom_el_db_cache_lookup_table read at the opening;
--     Plugins/Agree, Plugins/Carry and Plugins/Sound say how the object's tables of names and the
--     database stay together.
--   src/db.c, rows: Row. `fields` is the table of columns, `get_row` and `update_row` the hash
--     table of values of rtcom_el_db_schema_get_row and rtcom_el_db_schema_update_row. Row/Reads
--     says what is found in it, Row/Bounds in which range.
--   src/eventlogger-iter.c: Iterator, over Statement, a statement of SQLite with the pointer that
--     holds it (`StmtPtr`: NULL, live, or finalized). Iterator/Values has what reads the row,
--     Iterator/Open has _get_events_core of src/eventlogger.c, Iterator/Session a client that reads
--     all. Iterator/Stored, Iterator/Recorded and Iterator/Same say how the row of an event that was
--     added is joined, found and read. Iterator/Walk, Iterator/ReadBack and Iterator/Times say what
--     a client gets, and Iterator/Safe which of its calls are defined.
--   src/eventlogger-attach-iter.c: AttachIter, and AttachIter/Safe on the calls of a client.
-- Common has the shared names, Examples the concrete inputs at which the theorems apply.
--
-- How the parts interact: an operation of the logger runs statements through `exec`, each of which
-- asks the engine step by step through `iterate`; a statement is a function of the tables, whose
-- triggers are those of Store; after a success the logger sends a signal on the bus.
--
-- What stands outside. SQLite is not part of the repository. What a statement means is written out
-- as its documentation has it; when the engine refuses (busy, full, corrupt, …), whether it then
-- rolls back, and what is left by a rollback without a journal is the parameter `Env`, a function
-- of the number of calls made. A use of a finalized statement is `undefined`. The rows that the
-- text of a query selects are the parameter `Selection`, and the conversions of SQLite between
-- numbers and texts are `Casts`. What a plugin answers for a name is a function of the columns, and
-- what its module answers a record. The bus, the clock and the C library on files (`Disk`) are in
-- the parameter `World`; `Opener` and `Converter` have what sqlite3_open, the backup, g_unlink and
-- g_rename answer. The number formats of C and the quoting of SQLite are parameters of Query.
-- A backup step of SQLite that does not answer DONE has copied nothing, as it copies all pages in one
-- transaction. D-Bus is not part of the repository either: the order of the arguments of a message is
-- that in which they are appended, and dbus_message_get_args reads them from the first on by type.
-- Texts that the code puts between quotes without escaping them, which are the group uids of
-- update_group_cache, are taken to hold no quote, as a comment there says.
--
-- Bounds: the retry loop is recursion over the finite list of the engine's refusals, of which it
-- takes as many as its deadline allows; the loop that looks for a directory's name has one round
-- more than there are entries, the conversion starts again as often as its fuel says, and one call
-- is enough on an engine that refuses nothing; all other loops are recursion over their list. Ids,
-- times and counters that are written are numbers without an upper bound, and flags are words of
-- bits: the C code hands them to SQLite, whose integers have 64 bits, and does no arithmetic with
-- them but one subtraction. What an iterator and rtcom_el_get_group_info read back is a signed number
-- of 32 bits (`signed32`, `word32`, `int32`); the ids, flags and counts that rtcom_el_db_single_int
-- reads are taken to fit an int.
-- The object is one whose database is open, where _ensure_db returns TRUE at once.
--
-- Not modelled: the dynamic loader and the choice of the directories of plugins (_load_plugins), an
-- object whose database is closed (_ensure_db), and rtcom_el_get_contacts_events_n, whose text is
-- no SQL.
pub mod Common
pub mod Db
pub mod Event
pub mod Store
pub mod Logger
pub mod Open
pub mod Convert
pub mod Plugins
pub mod Row
pub mod Statement
pub mod AttachIter
pub mod Iterator
pub mod Query
pub mod Examples
