-- ===== src/Common/Members.antt =====
-- Members of lists of native numbers, by a test.
use Prim.Native.Nat.{ℕ}
use mathlib.Core.Path.{◌≡◌, refl}
use mathlib.Core.Bool.{Bool, false, ◌||◌}
use mathlib.Core.List.{List, [], ◌∷◌, ◌++◌}
use native.Mathlib.Omega.{arith}
use ro_beats_calculator_engi.Common.Tests.{◌==◌}

unfoldable pub has : List ℕ → ℕ → Bool
has [] x = false
has (y ∷ ys) x = y == x || has ys x

-- No number occurs twice.
abbrev pub DistinctNumbers : List ℕ → Type 0
DistinctNumbers [] = Unit
DistinctNumbers (y ∷ ys) = (has ys y ≡ false) × DistinctNumbers ys

pub has-append : (xs : List ℕ) (y x : ℕ) → has (xs ++ y ∷ []) x ≡ (has xs x || y == x)
unfolding has
has-append [] y x = ground arith
has-append (z ∷ xs) y x = ground (arith, has-append xs y x)

pub DistinctNumbers-append :
    (xs : List ℕ) (y : ℕ) → DistinctNumbers xs → has xs y ≡ false → DistinctNumbers (xs ++ y ∷ [])
unfolding has
DistinctNumbers-append [] y d h = (refl, tt)
DistinctNumbers-append (z ∷ xs) y d h =
    (ground (arith, has-append xs y z, d.0, h), DistinctNumbers-append xs y d.1 (ground (arith, h)))
