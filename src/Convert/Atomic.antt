-- ===== src/Convert/Atomic.antt =====
-- The conversion of a database (src/db.c) from outside: the old file and the new one.
use rtcom_eventlogger.Common.{ℕ, zero, suc, ◌≡◌, ◌⊎◌, Bool, true, false, Option, none, some}
use rtcom_eventlogger.Db.{database_corrupted, Db}
use rtcom_eventlogger.Convert.{OldFile, Dir, Converter, content}
use rtcom_eventlogger.Convert.Temp.{begin_at}
use rtcom_eventlogger.Convert.Run.{unlink_temp, closed}
use rtcom_eventlogger.Convert.Converted.{Converted}

-- What is converted: the old database, or, where the backup has copied nothing, the content of a
-- temporary file with tables that was found.
abbrev pub IsSource : Dir → OldFile → Type 0
IsSource d f = (d.old ≡ some f) ⊎ ((f ≡ content d.temp) × (f.has_tables ≡ true))

-- The old file stays as it was; the database is as it was, or it was missing and is now a converted
-- one; where FALSE is returned it is as it was.
abbrev pub Atomic : Dir → Bool × Dir × ℕ → Type 0
Atomic d (b, d', n) =
    (d'.old ≡ d.old)
    × (b ≡ false → d'.target ≡ d.target)
    × ((d'.target ≡ d.target)
        ⊎ ((d.target ≡ none)
            × (old : OldFile) × (new : OldFile) × IsSource d old
            × (d'.target ≡ some new)
            × Converted old new))

module _ (o : Converter) where
  -- The round of the conversion that begins at the n-th call starts it again: BEGIN EXCLUSIVE said
  -- that the temporary file is corrupted; and so do the rounds after it.
  abbrev pub Repeats : ℕ → Dir → ℕ → Type 0
  Repeats zero d n = Unit
  Repeats (suc fuel) d n =
      let r = begin_at o d (suc n) in
      (r.0 ≡ false)
      × (r.1 ≡ some database_corrupted)
      × Repeats fuel (unlink_temp o r.2.clock (closed o r.2 d)) (suc r.2.clock)

  -- What the files are after `fuel` rounds: those of a conversion that has returned, unless it has
  -- started again in each of the rounds.
  abbrev pub AtomicIf : ℕ → Dir → ℕ → Option (Bool × Dir × ℕ) → Type 0
  AtomicIf fuel d n none = Repeats fuel d n
  AtomicIf fuel d n (some r) = Atomic d r

  abbrev Again : ℕ → (Dir → ℕ → Option (Bool × Dir × ℕ)) → Type 0
  Again fuel again = (d : Dir) (n : ℕ) → AtomicIf fuel d n (again d n)
