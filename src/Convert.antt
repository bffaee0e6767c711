-- ===== src/Convert.antt =====
-- `rtcom_el_db_convert_from_db0` of src/db.c: a database of the old format is copied, converted and
-- moved to its place.
use rtcom_eventlogger.Common.{
  ℕ, zero, suc, Bool, true, false, not, Option, none, some, List, [], String,
}
use rtcom_eventlogger.Db.{Status, Error, Env, Db, delete, on_tables, exec, exec_plain}
use rtcom_eventlogger.Store.{EventRow, NameRow, FlagRow}
pub mod Changes
pub mod Run
pub mod Steps
pub mod Kept
pub mod Temp
pub mod Converted
pub mod Atomic
pub mod Returns

-- A database of the old format, or one that is being converted: whether it has the tables of that
-- format (a new file has none), the columns that were added to Events, and the triggers that the
-- conversion drops and creates.
pub record OldFile : Type 0 where
  pub has_tables : Bool
  pub user_version : ℕ
  pub columns : List String
  pub events : List EventRow
  pub event_types : List NameRow
  pub services : List NameRow
  pub flag_names : List FlagRow
  pub triggers : List String

-- What is outside: SQLite, its LIKE '%_OUTBOUND', its backup, and the file system, by the call. Of
-- `backup_step` with all pages SQLITE_DONE says that all was copied, and any other result that
-- nothing was; `backup_finish` is SQLITE_OK also where every step was busy or locked.
pub record Converter : Type 0 where
  pub env : Env OldFile
  pub outbound : String → Bool
  pub opens_old : ℕ → Status
  pub opens_temp : ℕ → Status
  pub backup_init : ℕ → Bool
  pub backup_step : ℕ → Status
  pub backup_finish : ℕ → Status
  pub unlinks : ℕ → Bool
  pub renames : ℕ → Bool

-- The files: the database, the one of the old format, and the temporary one.
pub record Dir : Type 0 where
  pub target : Option OldFile
  pub old : Option OldFile
  pub temp : Option OldFile

-- An action that can end by `goto err`, which is `none`.
abbrev pub Conv : Type 0 → Type 0
Conv A = Db OldFile → Option A × Db OldFile

abbrev pub then_do : {A B : Type 0} → (A → Conv B) → Option A × Db OldFile → Option B × Db OldFile
then_do k (none, db) = (none, db)
then_do k (some a, db) = k a db

infixl 30 ◌>>=◌ ◌>>◌
abbrev pub ◌>>=◌ : {A B : Type 0} → Conv A → (A → Conv B) → Conv B
m >>= k = λ db. then_do k (m db)

abbrev pub ◌>>◌ : {A B : Type 0} → Conv A → Conv B → Conv B
m >> n = λ db. then_do (λ _. n) (m db)

abbrev pub pure : {A : Type 0} → A → Conv A
pure a db = (some a, db)

abbrev pub Change : Type 0
Change = OldFile → Option OldFile

abbrev pub no_rows : Option OldFile → Option (List (Unit {0}) × OldFile)
no_rows none = none
no_rows (some f) = some ([], f)

abbrev pub or_err : Bool × Option Error × Db OldFile → Option (Unit {0}) × Db OldFile
or_err (true, e, db) = (some tt, db)
or_err (false, e, db) = (none, db)

abbrev pub single : ℕ → ℕ → ℕ
single n _ = n

abbrev pub is_ok : Status → Bool
is_ok Status.ok = true
is_ok _ = false

abbrev pub is_locked : Status → Bool
is_locked Status.busy = true
is_locked Status.locked = true
is_locked _ = false

abbrev pub content : Option OldFile → OldFile
content (some f) = f
content none = record {
  has_tables = false;
  user_version = 0;
  columns = [];
  events = [];
  event_types = [];
  services = [];
  flag_names = [];
  triggers = [];
}

-- `sqlite3_open` on a file, or on none
abbrev pub fresh : Option OldFile → ℕ → Db OldFile
fresh file n = record {
  core = record {
    tables = content file;
    saved = content file;
    autocommit = true;
    journal = delete;
  };
  errcode = Status.ok;
  clock = n;
}

module _ (o : Converter) where
  -- A statement whose failure is `goto err`.
  unfoldable pub must : Change → Conv (Unit {0})
  must f db = or_err (exec_plain o.env (on_tables (λ t. no_rows (f t))) db)

  -- A statement whose failure is not looked at.
  unfoldable pub may : Change → Conv (Unit {0})
  may f db =
      let (_, _, db') = exec_plain o.env (on_tables (λ t. no_rows (f t))) db in (some tt, db')

  abbrev pub asked : Bool × Option Error × ℕ × Db OldFile → Option ℕ × Db OldFile
  asked (true, e, zero, db) = (none, db)
  asked (true, e, suc n, db) = (some (suc n), db)
  asked (false, e, n, db) = (none, db)

  -- A SELECT of one number, where none and 0 are `goto err`.
  unfoldable pub ask : (OldFile → List ℕ) → Conv ℕ
  ask f db = asked (exec o.env single (on_tables (λ t. some (f t, t))) 0 db)
