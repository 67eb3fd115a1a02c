-- ===== src/Common/Ceil.antt =====
-- `math.ceil` of a quotient of natural numbers, by the bound that characterises it.
use Prim.Native.Nat.{ℕ, ◌+◌, ◌-◌, ◌*◌, ◌/◌, ◌≤◌, ◌<◌}
use mathlib.Core.Path.{◌≡◌}
use native.Mathlib.Omega.{arith}

-- ceil (a / b), for b above 0
unfoldable pub ceil_div : ℕ → ℕ → ℕ
ceil_div a b = (a + b - 1) / b

pub ceil_div-le : (a b m : ℕ) → 0 < b → a ≤ m * b → ceil_div a b ≤ m
unfolding ceil_div
ceil_div-le a b m h k = grind arith

pub le-ceil_div : (a b m : ℕ) → 0 < b → ceil_div a b ≤ m → a ≤ m * b
unfolding ceil_div
le-ceil_div a b m h k = grind arith

-- Numbers with the same upper bounds are equal.
pub eq_of_bounds : (x y : ℕ) → (x ≤ y) → (y ≤ x) → x ≡ y
eq_of_bounds x y h k = omega arith
