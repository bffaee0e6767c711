-- ===== src/Examples/Naming.antt =====
-- Concrete inputs at which the theorem on the names of directories applies: numbers are written as
-- strokes, and the name without a number is taken.
use rtcom_eventlogger.Common.{
  ℕ, zero, suc, ◌+◌, ◌≡◌, refl, sym, ◌∙◌, ap, false, [], ◌∷◌, String, arith,
}
use Prim.Native.String.{count, ◌++◌ as text_append}
use text.Mathlib.TextLemmas.{length-append}
use rtcom_eventlogger.Logger.{El, World, good, directory}
use rtcom_eventlogger.Logger.Attach.{exists, dirname_at, build_unique_dirname}
use rtcom_eventlogger.Logger.Attach.Free.{AreDistinct, build_unique_dirname-free}
use rtcom_eventlogger.Examples.{quiet_world, ready, logger}

abbrev strokes : ℕ → String
strokes zero = ""
strokes (suc n) = text_append "1" (strokes n)

count-strokes : (n : ℕ) → count (strokes n) ≡ n
count-strokes zero = refl
count-strokes (suc n) =
    length-append "1" (strokes n) ∙ ap (λ (k : ℕ). 1 + k) (count-strokes n) ∙ omega arith

abbrev stroking : World
stroking = record quiet_world { disk = record ready { decimal = strokes } }

abbrev crowded : El
crowded = record logger { files = ("/tmp/202611261700", directory) ∷ [] }

count-dirname : (j : ℕ) → count (dirname_at stroking "/tmp" 0 (suc j)) ≡ 19 + j
count-dirname j =
    length-append "/tmp/202611261700" (text_append "-" (strokes (suc j)))
    ∙ ap (λ (k : ℕ). 17 + k)
        (length-append "-" (strokes (suc j)) ∙ ap (λ (k : ℕ). 1 + k) (count-strokes (suc j)))
    ∙ numbers
  where
    numbers : 17 + (1 + suc j) ≡ 19 + j
    numbers = omega arith

stroking-AreDistinct : AreDistinct stroking "/tmp" 0
stroking-AreDistinct i zero lt same_name = ground arith
stroking-AreDistinct zero (suc j) lt same_name =
    let counts = sym (count-dirname j) ∙ ap count same_name in ground arith
stroking-AreDistinct (suc i) (suc j) lt same_name =
    let counts = sym (count-dirname j) ∙ ap count same_name ∙ count-dirname i in ground arith

build_unique_dirname-free_example :
    (dir : String) × (build_unique_dirname stroking "/tmp" crowded ≡ (good dir, crowded))
    × (exists dir crowded.files ≡ false)
build_unique_dirname-free_example =
    build_unique_dirname-free stroking "/tmp" crowded stroking-AreDistinct
