-- ===== src/Common/Text.antt =====
-- Texts are compared and never taken apart: `strcmp` and GLib's `g_strcmp0`, where `none` is NULL.
use Prim.Native.String.{String}
use mathlib.Core.Path.{◌≡◌, refl}
use mathlib.Core.Logic.{◌↔◌}
use mathlib.Core.Bool.{Bool, true, false}
use mathlib.Core.Option.{Option, none, some}
use native.Mathlib.Omega.{arith}
use text.Mathlib.Text.{◌==◌ as str_eq}
use text.Mathlib.TextEquality.{eq_iff}

-- `strcmp (a, b) == 0`
unfoldable pub same : String → String → Bool
same a b = str_eq a b

pub same_iff : (a b : String) → (same a b ≡ true) ↔ (a ≡ b)
unfolding same
same_iff a b = eq_iff a b

pub same_refl : (a : String) → same a a ≡ true
same_refl a = (same_iff a a).1 refl

pub same_comm : (a b : String) → same a b ≡ same b a
same_comm a b = ground (arith, same_iff a b, same_iff b a)

-- `g_strcmp0 (a, b) == 0`
unfoldable pub same_opt : Option String → Option String → Bool
unfolding same
same_opt none none = true
same_opt (some a) (some b) = same a b
same_opt _ _ = false

pub same_opt_iff : (a b : Option String) → (same_opt a b ≡ true) ↔ (a ≡ b)
unfolding same_opt
same_opt_iff none none = ground arith
same_opt_iff (some a) (some b) = ground (arith, eq_iff a b)
same_opt_iff none (some b) = ground arith
same_opt_iff (some a) none = ground arith

pub same_opt-some : (a b : String) → same_opt (some a) (some b) ≡ same a b
unfolding same_opt
same_opt-some a b = refl

pub same_opt-none : (a : String) → same_opt (some a) none ≡ false
unfolding same_opt
same_opt-none a = refl
