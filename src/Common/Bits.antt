-- ===== src/Common/Bits.antt =====
-- Bits of a machine word, digit by digit: `(w >> k) & 1` and `w | (1 << k)`, and the words of a
-- 100-note mask, 32 notes to a word.
use Prim.Native.Nat.{ℕ, zero, suc, ◌+◌, ◌-◌, ◌*◌, ◌/◌, ◌%◌, ◌≤◌, ◌<◌, ◌^◌}
use mathlib.Core.Path.{◌≡◌, refl, ap}
use mathlib.Core.Logic.{◌≢◌}
use native.Mathlib.Nat.{pow-suc, one-le-pow}
use ro_beats_calculator_engi.Common.Tests.{ltb, ◌==◌, if◌then◌else◌}
use native.Mathlib.Omega.{arith}

-- `(w >> k) & 1`
unfoldable pub bit : ℕ → ℕ → ℕ
bit w zero = w % 2
bit w (suc k) = bit (w / 2) k

-- `w | (1 << k)`
unfoldable pub or_bit : ℕ → ℕ → ℕ
or_bit w zero = w - w % 2 + 1
or_bit w (suc k) = 2 * or_bit (w / 2) k + w % 2

pub bit-le-one : (w k : ℕ) → bit w k ≤ 1
unfolding bit
bit-le-one w zero = omega arith
bit-le-one w (suc k) = bit-le-one (w / 2) k

pub bit-or_bit_self : (w k : ℕ) → bit (or_bit w k) k ≡ 1
unfolding bit or_bit
bit-or_bit_self w zero = omega arith
bit-or_bit_self w (suc k) =
    let e : (2 * or_bit (w / 2) k + w % 2) / 2 ≡ or_bit (w / 2) k = omega arith in
    rw e (bit-or_bit_self (w / 2) k)

pub bit-or_bit_ne : (w k j : ℕ) → j ≢ k → bit (or_bit w k) j ≡ bit w j
unfolding bit or_bit
bit-or_bit_ne w zero zero h = absurd (h refl)
bit-or_bit_ne w zero (suc j) h = let e : (w - w % 2 + 1) / 2 ≡ w / 2 = omega arith in rw e
bit-or_bit_ne w (suc k) zero h = omega arith
bit-or_bit_ne w (suc k) (suc j) h =
    let e : (2 * or_bit (w / 2) k + w % 2) / 2 ≡ or_bit (w / 2) k = omega arith in
    rw e (bit-or_bit_ne (w / 2) k j (omega arith))

pub bit-or_bit : (w k j : ℕ) → bit (or_bit w k) j ≡ (if j == k then 1 else bit w j)
bit-or_bit w k j = ground (arith, bit-or_bit_self w k, bit-or_bit_ne w k j)

pub bit-zero : (k : ℕ) → bit 0 k ≡ 0
unfolding bit
bit-zero zero = refl
bit-zero (suc k) = bit-zero k

-- A word below 2 ^ size keeps that bound when a bit below `size` is set.
pub or_bit-lt : (w k size : ℕ) → k < size → w < 2 ^ size → or_bit w k < 2 ^ size
unfolding or_bit
or_bit-lt w k zero h hw = absurd (omega arith)
or_bit-lt w zero (suc size) h hw = omega (arith, pow-suc 2 size)
or_bit-lt w (suc k) (suc size) h hw =
    omega (
      arith,
      pow-suc 2 size,
      or_bit-lt (w / 2) k size (omega arith) (omega (arith, pow-suc 2 size)),
    )

-- `(1 << w) - 1` has the bits below w.
pub bit-ones : (w k : ℕ) → bit (2 ^ w - 1) k ≡ (if ltb k w then 1 else 0)
unfolding bit
bit-ones zero zero = ground arith
bit-ones zero (suc k) = ground (arith, bit-zero k)
bit-ones (suc w) zero = ground (arith, pow-suc 2 w, one-le-pow w 2 (omega arith))
bit-ones (suc w) (suc k) =
    let e : (2 ^ suc w - 1) / 2 ≡ 2 ^ w - 1 =
      omega (arith, pow-suc 2 w, one-le-pow w 2 (omega arith)) in
    rw e (ground (arith, bit-ones w k))

double_shift : (x j : ℕ) → x * 2 ^ suc j ≡ x * 2 ^ j * 2
double_shift x j = grind (arith, pow-suc 2 j)

-- `x << j`
pub bit-shift : (x j k : ℕ) → bit (x * 2 ^ j) k ≡ (if ltb k j then 0 else bit x (k - j))
unfolding bit
bit-shift x zero k =
    let a : x * 2 ^ 0 ≡ x = omega arith in
    let b : k - 0 ≡ k = omega arith in rw (a, b) (ground arith)
bit-shift x (suc j) zero = ground (arith, double_shift x j)
bit-shift x (suc j) (suc k) =
    let e : x * 2 ^ suc j / 2 ≡ x * 2 ^ j = omega (arith, double_shift x j) in
    rw e (ground (arith, bit-shift x j k))

pub pow-add : (a b : ℕ) → 2 ^ (a + b) ≡ 2 ^ a * 2 ^ b
pow-add zero b =
    let e : 2 ^ (0 + b) ≡ 2 ^ b = ap (λ (t : ℕ). 2 ^ t) (omega arith) in omega (arith, e)
pow-add (suc a) b = grind (arith, pow-add a b, pow-suc 2 a, pow-suc 2 (a + b), suc_add a b)
  where
    suc_add : (a b : ℕ) → 2 ^ (suc a + b) ≡ 2 ^ suc (a + b)
    suc_add a b = ap (λ (t : ℕ). 2 ^ t) (omega arith)

bit-one : (k : ℕ) → bit 1 k ≡ (if ltb k 1 then 1 else 0)
unfolding bit
bit-one zero = ground arith
bit-one (suc k) = ground (arith, bit-zero k)

-- `1 << j`
pub bit-power : (j k : ℕ) → bit (2 ^ j) k ≡ (if ltb k j then 0 else if ltb k (suc j) then 1 else 0)
bit-power j k =
    let e : 2 ^ j ≡ 1 * 2 ^ j = omega arith in
    rw e (ground (arith, bit-shift 1 j k, bit-one (k - j)))
