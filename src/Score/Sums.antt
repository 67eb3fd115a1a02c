-- ===== src/Score/Sums.antt =====
-- Sums over the head notes.
use ro_beats_calculator_engi.Common.{
  ℕ, zero, suc, ◌+◌, ◌*◌, ◌≤◌, ◌<◌, ◌≡◌, refl, ◌==◌, if◌then◌else◌, arith,
}
use ro_beats_calculator_engi.Common.Bits.{bit-le-one}
use ro_beats_calculator_engi.Score.{sum_range, head_bit, Words}

pub sum_range-le :
    (n : ℕ) (f g : ℕ → ℕ) → ((i : ℕ) → i < n → f i ≤ g i) → sum_range n f ≤ sum_range n g
unfolding sum_range
sum_range-le zero f g h = omega arith
sum_range-le (suc n) f g h =
    omega (arith, h n (omega arith), sum_range-le n f g (λ i l. h i (omega arith)))

pub sum_range-ext :
    (n : ℕ) (f g : ℕ → ℕ) → ((i : ℕ) → i < n → f i ≡ g i) → sum_range n f ≡ sum_range n g
unfolding sum_range
sum_range-ext zero f g h = refl
sum_range-ext (suc n) f g h =
    omega (arith, h n (omega arith), sum_range-ext n f g (λ i l. h i (omega arith)))

pub head_bit-le-one : (ws : Words) (note : ℕ) → head_bit ws note ≤ 1
unfolding head_bit
head_bit-le-one ws note = bit-le-one _ _

-- A choice by a bit, against the products with the bit.
select-mul : (b x y : ℕ) → b ≤ 1 → (if b == 1 then y else x) + b * x ≡ x + b * y
select-mul zero x y h = omega arith
select-mul (suc zero) x y h = omega arith
select-mul (suc (suc b)) x y h = absurd (omega arith)

-- The dot products of `best_timeline_score` choose one value for each note.
pub sum_range-select :
    (n : ℕ) (b x y : ℕ → ℕ)
    → ((i : ℕ) → b i ≤ 1)
    → sum_range n (λ i. if b i == 1 then y i else x i) + sum_range n (λ i. b i * x i)
      ≡ sum_range n x + sum_range n (λ i. b i * y i)
unfolding sum_range
sum_range-select zero b x y h = refl
sum_range-select (suc n) b x y h =
    omega (arith, select-mul (b n) (x n) (y n) (h n), sum_range-select n b x y h)
