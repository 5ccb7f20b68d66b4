-- ===== src/Prelude/Sort.antt =====
-- `.sort()` of texts by their code units.
use mathlib.Core.Path.{◌≡◌, refl}
use mathlib.Core.Bool.{Bool, true, false}
use mathlib.Core.List.{List, [], ◌∷◌}
use native.Mathlib.Omega.{arith}
use tflw_tests.Prelude.Tests.{ltb, if◌then◌else◌}
use tflw_tests.Prelude.Lists.{count}
use tflw_tests.Prelude.Texts.{Text}

-- `s` is not behind `t`.
unfoldable pub text_le : Text → Text → Bool
text_le [] t = true
text_le (a ∷ s) [] = false
text_le (a ∷ s) (b ∷ t) =
    let rest = text_le s t in if ltb a b then true else if ltb b a then false else rest

place : Text → List Text → List Text
place s [] = s ∷ []
place s (t ∷ ts) = let rest = place s ts in if text_le s t then s ∷ t ∷ ts else t ∷ rest

unfoldable pub sort : List Text → List Text
unfolding place
sort [] = []
sort (s ∷ ts) = place s (sort ts)

count-place :
    (p : Text → Bool) (s : Text) (ts : List Text) → count p (place s ts) ≡ count p (s ∷ ts)
unfolding place
count-place p s [] = refl
count-place p s (t ∷ ts) = ground (arith, count-place p s ts)

-- Sorting keeps how many texts pass any test.
pub count-sort : (p : Text → Bool) (ts : List Text) → count p (sort ts) ≡ count p ts
unfolding sort
count-sort p [] = refl
count-sort p (s ∷ ts) = ground (arith, count-place p s (sort ts), count-sort p ts)
