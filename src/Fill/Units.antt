-- ===== src/Fill/Units.antt =====
-- The bar in half-units: what the tests and ceilings of Fill mean for the least full bar, and what
-- the walk returns in terms of the half-units that its notes add.
use ro_beats_calculator_engi.Common.{
  ℕ, zero, suc, ◌+◌, ◌-◌, ◌*◌, ◌/◌, ◌≤◌, ◌<◌, ◌≡◌, refl, min, max, Bool, false, none, some, leb,
  arith,
}
use ro_beats_calculator_engi.Common.Ceil.{ceil_div, ceil_div-le, le-ceil_div}
use ro_beats_calculator_engi.Fill.{
  Denom, IsPositive, reaches, ceil_denom, ceil_twice_less, ceil_less_half,
}
use ro_beats_calculator_engi.Fill.Exact.{fill_of, exact_walk}
use ro_beats_calculator_engi.Fill.Walk.{run_placement}

-- The least number of half-units that fills the bar.
pub full_units : Denom → ℕ
full_units d = ceil_div (2 * d.num) d.den

module _ (d : Denom) (v : IsPositive d) where
  pub full_units-le : (u : ℕ) → 2 * d.num ≤ u * d.den → full_units d ≤ u
  unfolding full_units
  full_units-le u h = ceil_div-le (2 * d.num) d.den u v.den_pos h

  pub le-full_units : (u : ℕ) → full_units d ≤ u → 2 * d.num ≤ u * d.den
  unfolding full_units
  le-full_units u h = le-ceil_div (2 * d.num) d.den u v.den_pos h

  pub full_units_pos : 0 < full_units d
  full_units_pos = ground (arith, v.num_pos, le-full_units 0)

  pub reaches_lem : (u : ℕ) → reaches d u ≡ leb (full_units d) u
  unfolding reaches
  reaches_lem u = ground (arith, full_units-le u, le-full_units u)

  pub ceil_denom-le : (m : ℕ) → full_units d ≤ 2 * m → ceil_denom d ≤ m
  unfolding ceil_denom
  ceil_denom-le m h = ceil_div-le d.num d.den m v.den_pos (omega (arith, le-full_units (2 * m) h))

  pub le-ceil_denom : (m : ℕ) → ceil_denom d ≤ m → full_units d ≤ 2 * m
  unfolding ceil_denom
  le-ceil_denom m h = full_units-le (2 * m) (omega (arith, le-ceil_div d.num d.den m v.den_pos h))

  pub ceil_denom_bounds : (full_units d ≤ 2 * ceil_denom d) × (2 * ceil_denom d ≤ full_units d + 1)
  ceil_denom_bounds = (
    le-ceil_denom (ceil_denom d) (omega arith),
    omega (arith, ceil_denom-le ((full_units d + 1) / 2) (omega arith)),
  )

  twice_less-le : (p m : ℕ) → full_units d ≤ m + 2 * p → ceil_twice_less d p ≤ m
  unfolding ceil_twice_less
  twice_less-le p m h =
      ceil_div-le (2 * (d.num - p * d.den)) d.den m v.den_pos
        (omega (arith, le-full_units (m + 2 * p) h))

  le-twice_less : (p m : ℕ) → ceil_twice_less d p ≤ m → full_units d ≤ m + 2 * p
  unfolding ceil_twice_less
  le-twice_less p m h =
      full_units-le (m + 2 * p)
        (omega (arith, le-ceil_div (2 * (d.num - p * d.den)) d.den m v.den_pos h))

  pub ceil_twice_less_lem : (p : ℕ) → ceil_twice_less d p ≡ full_units d - 2 * p
  ceil_twice_less_lem p = omega (
    arith,
    twice_less-le p (full_units d - 2 * p) (omega arith),
    le-twice_less p (ceil_twice_less d p) (omega arith),
  )

  less_half-le : (p k m : ℕ) → full_units d ≤ 2 * m + 2 * p + k → ceil_less_half d p k ≤ m
  unfolding ceil_less_half
  less_half-le p k m h =
      ceil_div-le (2 * (d.num - p * d.den) - k * d.den) (2 * d.den) m (omega (arith, v.den_pos))
        (omega (arith, le-full_units (2 * m + 2 * p + k) h))

  le-less_half : (p k m : ℕ) → ceil_less_half d p k ≤ m → full_units d ≤ 2 * m + 2 * p + k
  unfolding ceil_less_half
  le-less_half p k m h = full_units-le (2 * m + 2 * p + k) (
      omega (
        arith,
        le-ceil_div (2 * (d.num - p * d.den) - k * d.den) (2 * d.den) m (omega (arith, v.den_pos))
            h,
      ))

  pub ceil_less_half_bounds :
      (p k : ℕ)
      → (full_units d ≤ 2 * ceil_less_half d p k + 2 * p + k)
        × (2 * ceil_less_half d p k ≤ full_units d - (2 * p + k) + 1)
  ceil_less_half_bounds p k = (
    le-less_half p k (ceil_less_half d p k) (omega arith),
    omega (arith, less_half-le p k ((full_units d - (2 * p + k) + 1) / 2) (omega arith)),
  )

-- The half-units of the `count` notes from note `i` on.
unfoldable pub units : (ℕ → Bool) → ℕ → ℕ → ℕ
units is_great i zero = 0
units is_great i (suc count) = fill_of (is_great i) + units is_great (suc i) count

-- A run of Greats takes one half-unit from each note that it shares with the section.
pub units-run_placement :
    (g0 k s count : ℕ)
    → units (run_placement g0 k) s count + (min (s + count) (g0 + k) - max g0 s) ≡ 2 * count
unfolding units run_placement
units-run_placement g0 k s zero = omega arith
units-run_placement g0 k s (suc count) = ground (arith, units-run_placement g0 k (suc s) count)

module _ (d : Denom) (v : IsPositive d) (g : ℕ → Bool) where
  -- The walk stops at the note that takes the bar to full.
  pub walk-some :
      (rounds j i bar : ℕ)
      → j < rounds
      → bar + units g i j < full_units d
      → full_units d ≤ bar + units g i j + fill_of (g (i + j))
      → exact_walk d g rounds i bar ≡ (some (i + j), g (i + j))
  unfolding exact_walk units
  walk-some zero j i bar r lo hi = absurd (omega arith)
  walk-some (suc rounds) zero i bar r lo hi = ground (arith, reaches_lem d v (bar + fill_of (g i)))
  walk-some (suc rounds) (suc j) i bar r lo hi = ground (
    arith,
    reaches_lem d v (bar + fill_of (g i)),
    walk-some rounds j (suc i) (bar + fill_of (g i)),
  )

  -- It runs to the end if all of its notes leave the bar short.
  pub walk-none :
      (rounds i bar : ℕ)
      → bar + units g i rounds < full_units d
      → exact_walk d g rounds i bar ≡ (none, false)
  unfolding exact_walk units
  walk-none zero i bar h = refl
  walk-none (suc rounds) i bar h =
      ground (
        arith,
        reaches_lem d v (bar + fill_of (g i)),
        walk-none rounds (suc i) (bar + fill_of (g i)),
      )
