-- ===== src/Common/Words.antt =====
-- Machine words: `&` with a low mask and `|` of words without a common bit, as arithmetic.
use Prim.Native.Nat.{
  ℕ, zero, suc, ◌+◌, ◌-◌, ◌*◌, ◌/◌, ◌%◌, ◌≤◌, ◌<◌, ◌^◌, min, max, bit_and, bit_or, bit_and-bitwise,
  bit_or-bitwise, digits,
}
use mathlib.Core.Path.{◌≡◌, refl, sym, ap, ◌∙◌}
use native.Mathlib.Nat.{
  pow-suc, one-le-pow, mod-lt, mod-eq_of_lt, mod-add-div', add-mul-mod_self_right,
  add-mul-div_right, div-eq_of_lt,
}
use native.Mathlib.Omega.{arith}
use ro_beats_calculator_engi.Common.Bits.{bit}

-- The count of digits to go does not matter once it is enough.
digits-enough :
    (z : ℕ → ℕ) (f : ℕ → ℕ → ℕ) (n m a b : ℕ) → a ≤ n → a ≤ m → digits z f n a b ≡ digits z f m a b
digits-enough z f zero zero a b h k = refl
digits-enough z f (suc n) (suc m) zero b h k = refl
digits-enough z f zero (suc m) zero b h k = refl
digits-enough z f (suc n) zero zero b h k = refl
digits-enough z f zero (suc m) (suc a) b h k = absurd (omega arith)
digits-enough z f (suc n) zero (suc a) b h k = absurd (omega arith)
digits-enough z f (suc n) (suc m) (suc a) b h k =
    let e = digits-enough z f n m (suc a / 2) (b / 2) (omega arith) (omega arith) in
    ap (λ (d : ℕ). d * 2 + f (suc a % 2) (b % 2)) e

bit_or-digits : (a b : ℕ) → bit_or a b ≡ digits (λ b. b) max a a b
bit_or-digits a b = λ i. bit_or-bitwise a b i

bit_or-half : (a b : ℕ) → bit_or a b ≡ bit_or (a / 2) (b / 2) * 2 + max (a % 2) (b % 2)
bit_or-half zero b = omega (arith, bit_or-digits 0 b, bit_or-digits 0 (b / 2))
bit_or-half (suc a) b =
    let e =
      digits-enough (λ b. b) max a (suc a / 2) (suc a / 2) (b / 2) (omega arith) (omega arith) in
    bit_or-digits (suc a) b
    ∙ ap (λ (d : ℕ). d * 2 + max (suc a % 2) (b % 2)) (e ∙ sym (bit_or-digits (suc a / 2) (b / 2)))

bit_and-digits : (a b : ℕ) → bit_and a b ≡ digits (λ b. zero) min a a b
bit_and-digits a b = λ i. bit_and-bitwise a b i

bit_and-half : (a b : ℕ) → bit_and a b ≡ bit_and (a / 2) (b / 2) * 2 + min (a % 2) (b % 2)
bit_and-half zero b = omega (arith, bit_and-digits 0 b, bit_and-digits 0 (b / 2))
bit_and-half (suc a) b =
    let e =
      digits-enough (λ b. zero) min a (suc a / 2) (suc a / 2) (b / 2) (omega arith) (omega arith) in
    bit_and-digits (suc a) b
    ∙ ap (λ (d : ℕ). d * 2 + min (suc a % 2) (b % 2)) (e ∙ sym (bit_and-digits (suc a / 2) (b / 2)))

digits-zero : (n a : ℕ) → digits (λ b. zero) min n a 0 ≡ 0
digits-zero zero a = refl
digits-zero (suc n) zero = refl
digits-zero (suc n) (suc a) = omega (arith, digits-zero n (suc a / 2))

bit_and-zero : (a : ℕ) → bit_and a 0 ≡ a % 1
bit_and-zero a = omega (arith, bit_and-digits a 0, digits-zero a a)

bit_or-even : (a y : ℕ) → bit_or a (y * 2) ≡ bit_or (a / 2) y * 2 + a % 2
bit_or-even a y =
    let q : y * 2 / 2 ≡ y = omega arith in
    let r : y * 2 % 2 ≡ 0 = omega arith in
    let h = bit_or-half a (y * 2) in omega (arith, rw (q, r) at h)

bit_and-odd : (a y : ℕ) → bit_and a (y * 2 + 1) ≡ bit_and (a / 2) y * 2 + a % 2
bit_and-odd a y =
    let q : (y * 2 + 1) / 2 ≡ y = omega arith in
    let r : (y * 2 + 1) % 2 ≡ 1 = omega arith in
    let h = bit_and-half a (y * 2 + 1) in omega (arith, rw (q, r) at h)

mul_double : (b p : ℕ) → b * (p * 2) ≡ b * p * 2
mul_double b p = grind arith

mod-double : (a p : ℕ) → 0 < p → a % (p * 2) ≡ a / 2 % p * 2 + a % 2
mod-double a p h =
    let x = a / 2 % p * 2 + a % 2 in
    let below = mod-lt (a / 2) h in
    let whole : a ≡ x + a / 2 / p * (p * 2) =
      omega (arith, mod-add-div' (a / 2) p, mul_double (a / 2 / p) p) in
    ap (λ (t : ℕ). t % (p * 2)) whole
    ∙ add-mul-mod_self_right x (a / 2 / p) (p * 2)
    ∙ mod-eq_of_lt (omega (arith, below))

-- `a | (b << k)` for a word a of k bits
pub bit_or-shifted : (k a b : ℕ) → a < 2 ^ k → bit_or a (b * 2 ^ k) ≡ a + b * 2 ^ k
bit_or-shifted zero zero b h = omega (arith, bit_or-digits 0 (b * 2 ^ 0))
bit_or-shifted zero (suc a) b h = absurd (omega arith)
bit_or-shifted (suc k) a b h =
    let p = pow-suc 2 k in
    let e : b * 2 ^ suc k ≡ b * 2 ^ k * 2 = ap (λ (t : ℕ). b * t) p ∙ mul_double b (2 ^ k) in
    let rest = bit_or-shifted k (a / 2) b (omega (arith, p, h)) in
    ap (λ (t : ℕ). bit_or a t) e ∙ omega (arith, bit_or-even a (b * 2 ^ k), rest, e)

-- `a & ((1 << k) - 1)`
pub bit_and-mask : (k a : ℕ) → bit_and a (2 ^ k - 1) ≡ a % 2 ^ k
bit_and-mask zero a = bit_and-zero a
bit_and-mask (suc k) a =
    let p = pow-suc 2 k in
    let positive : 1 ≤ 2 ^ k = one-le-pow k 2 (omega arith) in
    let odd : 2 ^ suc k - 1 ≡ (2 ^ k - 1) * 2 + 1 = omega (arith, p, positive) in
    ap (λ (t : ℕ). bit_and a t) odd
    ∙ omega (
      arith,
      bit_and-odd a (2 ^ k - 1),
      bit_and-mask k (a / 2),
      mod-double a (2 ^ k) positive,
      ap (λ (t : ℕ). a % t) p,
    )

-- The halves of `a | (b << k)`.
pub low_half : (k a b : ℕ) → a < 2 ^ k → (a + b * 2 ^ k) % 2 ^ k ≡ a
low_half k a b h = add-mul-mod_self_right a b (2 ^ k) ∙ mod-eq_of_lt h

pub high_half : (k a b : ℕ) → a < 2 ^ k → (a + b * 2 ^ k) / 2 ^ k ≡ b
high_half k a b h =
    let positive : 1 ≤ 2 ^ k = one-le-pow k 2 (omega arith) in
    let small : a / 2 ^ k ≡ 0 = div-eq_of_lt h in
    omega (arith, add-mul-div_right a b positive, small)

-- The bits of `a | b`.
pub bit-bit_or : (a b k : ℕ) → bit (bit_or a b) k ≡ max (bit a k) (bit b k)
unfolding bit
bit-bit_or a b zero = omega (arith, bit_or-half a b)
bit-bit_or a b (suc k) =
    let e : bit_or a b / 2 ≡ bit_or (a / 2) (b / 2) = omega (arith, bit_or-half a b) in
    rw e (bit-bit_or (a / 2) (b / 2) k)
