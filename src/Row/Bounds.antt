-- ===== src/Row/Bounds.antt =====
-- The integers that `sqlite3_column_int` hands to src/db.c.
use Prim.Native.Nat.{◌^◌}
use rtcom_eventlogger.Common.{ℕ, ◌<◌, ◌≤◌, ◌≡◌, ℤ, pos, negsuc, pos_part, neg_part, arith}
use rtcom_eventlogger.Row.{Cell, null, number, string, Casts, word32, signed32, column_int}

-- -2^31 ≤ z < 2^31
abbrev pub IsInt : ℤ → Type 0
IsInt z = (pos_part z < 2 ^ 31) × (neg_part z ≤ 2 ^ 31)

signed32-IsInt : (w : ℕ) → w < 2 ^ 32 → IsInt (signed32 w)
signed32-IsInt w h = ground arith

pub signed32-word32 : (z : ℤ) → IsInt z → signed32 (word32 z) ≡ z
signed32-word32 (pos n) h = ground arith
signed32-word32 (negsuc n) h = ground arith

pub word32-signed32 : (w : ℕ) → w < 2 ^ 32 → word32 (signed32 w) ≡ w
word32-signed32 w h = ground arith

word32-lt : (z : ℤ) → word32 z < 2 ^ 32
word32-lt (pos n) = omega arith
word32-lt (negsuc n) = omega arith

pub column_int-IsInt : (casts : Casts) (c : Cell) → IsInt (column_int casts c)
unfolding column_int
column_int-IsInt casts null = omega arith
column_int-IsInt casts (number z) = signed32-IsInt (word32 z) (word32-lt z)
column_int-IsInt casts (string s) =
    signed32-IsInt (word32 (casts.of_text s)) (word32-lt (casts.of_text s))

pub column_int-number : (casts : Casts) (z : ℤ) → IsInt z → column_int casts (number z) ≡ z
unfolding column_int
column_int-number casts z h = signed32-word32 z h

-- Reading keeps the residue modulo 2^32.
pub column_int-word32 : (casts : Casts) (z : ℤ) → word32 (column_int casts (number z)) ≡ word32 z
unfolding column_int
column_int-word32 casts z = word32-signed32 (word32 z) (word32-lt z)
