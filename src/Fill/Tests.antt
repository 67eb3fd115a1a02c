-- ===== src/Fill/Tests.antt =====
-- Runs of the fill crossing on small charts, and its theorems at inputs that meet their hypotheses.
use ro_beats_calculator_engi.Common.{
  ℕ, ◌+◌, ◌-◌, ◌*◌, ◌≤◌, ◌<◌, ◌≡◌, ◌⊎◌, inl, inr, leb-cases, if◌then◌else◌, Bool, refl, true, false,
  none, some, ok, err, value_error, arith,
}
use ro_beats_calculator_engi.Common.Ceil.{ceil_div}
use ro_beats_calculator_engi.Fill.{
  Denom, IsPositive, server_fill_crossing_run, crossing_regions, ceil_denom, ceil_twice_less,
  ceil_less_half, reaches, wasted, late_great_prefix_is_legal, perfect_fill_crossing_offset,
  perfect_crossing_is_region3, late_great_activation_prefix,
}
use ro_beats_calculator_engi.Fill.Gates.{late_placement, late_great_prefix_is_legal-walk}
use ro_beats_calculator_engi.Fill.Run.{run-server_fill_crossing}
use ro_beats_calculator_engi.Fill.Exact.{off_edge, agrees, fill_of}
use ro_beats_calculator_engi.Fill.Rounding.{IsRounded, off_edge_lem}
use ro_beats_calculator_engi.Fill.Fixed.{fixed}
use ro_beats_calculator_engi.Fill.Walk.{
  run_placement, server_fill_crossing, walk, filled, late_great_activation_is_legal,
}

program : Unit {0}
unfolding server_fill_crossing_run crossing_regions ceil_denom ceil_twice_less ceil_less_half
    reaches late_great_prefix_is_legal perfect_fill_crossing_offset perfect_crossing_is_region3
    late_great_activation_prefix ceil_div
program = tt

-- 7.4 Perfects fill the bar.
abbrev denom : Denom
denom = record { num = 37; den = 5 }

denom-IsPositive : IsPositive denom
denom-IsPositive = omega arith

-- A Perfect before the run, a Great of the run, a Perfect after it, and no note of the chart.
regions :
    (server_fill_crossing_run 10 30 3 denom 100 ≡ ok (some 17, false))
    × (server_fill_crossing_run 10 12 20 denom 100 ≡ ok (some 22, true))
    × (server_fill_crossing_run 10 10 3 denom 100 ≡ ok (some 18, false))
    × (server_fill_crossing_run 10 10 3 denom 18 ≡ ok (none, false))
    × (server_fill_crossing_run 10 10 3 (record { num = 0; den = 1 }) 18 ≡ err value_error)
unfolding program
regions = (refl, refl, refl, refl, refl)

walk_regions : server_fill_crossing fixed (run_placement 12 20) denom 10 100 ≡ ok (some 22, true)
unfolding program server_fill_crossing walk filled run_placement
walk_regions = refl

gates :
    (perfect_fill_crossing_offset denom 3 false ≡ 9)
    × (perfect_fill_crossing_offset denom 3 true ≡ 8)
    × (perfect_crossing_is_region3 9 3 false denom ≡ ok true)
    × (perfect_crossing_is_region3 9 9 false denom ≡ ok false)
    × (late_great_activation_prefix 9 1 false denom ≡ ok none)
    × (late_great_activation_prefix 9 3 false denom ≡ ok (some 2))
unfolding program
gates = (refl, refl, refl, refl, refl, refl)

run-server_fill_crossing_example :
    server_fill_crossing_run 10 12 20 denom 100
    ≡ server_fill_crossing fixed (run_placement 12 20) denom 10 100
unfolding program off_edge agrees filled run_placement
run-server_fill_crossing_example =
    run-server_fill_crossing fixed 10 12 20 denom 100 (omega arith) refl

late_great_prefix_is_legal-walk_example :
    late_great_prefix_is_legal 9 2 denom false
    ≡ late_great_activation_is_legal fixed
        (late_placement 10 2 (10 + (9 - wasted false)))
        denom
        10
        (10 + (9 - wasted false))
        100
unfolding program off_edge agrees filled run_placement late_placement
late_great_prefix_is_legal-walk_example =
    late_great_prefix_is_legal-walk fixed 10 9 2 100 false denom (omega arith) (omega arith)
      (omega arith) refl

-- With the sums of `fixed`, off by at most 28 over 74, and 7.4 Perfects to fill the bar, every placement of a section
-- of 20 notes is off the knife-edge.
fixed-IsRounded : (g : ℕ → Bool) → IsRounded fixed g denom (λ x. x) 1024 28
unfolding filled
fixed-IsRounded g = record {
  scale_pos = omega arith;
  empty = refl;
  full = λ x. refl;
  above = λ i bar room. above (g i) bar;
  below = λ i bar room. below (g i) bar;
}
  where
    above :
        (great : Bool) (bar : ℕ)
        → 74 * (bar + (if great then 69 else 138)) ≤ 74 * bar + fill_of great * 5 * 1024 + 28
    above true bar = omega arith
    above false bar = omega arith

    below :
        (great : Bool) (bar : ℕ)
        → 74 * bar + fill_of great * 5 * 1024 ≤ 74 * (bar + (if great then 69 else 138)) + 28
    below true bar = omega arith
    below false bar = omega arith

off_every_edge : (g : ℕ → Bool) (start : ℕ) → off_edge fixed g denom start (start + 20) ≡ true
off_every_edge g start =
    off_edge_lem fixed g denom (λ x. x) 1024 28 20 denom-IsPositive (fixed-IsRounded g) start
      (start + 20) (omega arith) apart
  where
    apart : (u : ℕ) → (u * 5 * 1024 + 20 * 28 < 74 * 1024) ⊎ (74 * 1024 + 20 * 28 ≤ u * 5 * 1024)
    apart u = elim (leb-cases u 14) [
      | inl (_, h) ↦ inl (omega (arith, h))
      | inr (_, h) ↦ inr (omega (arith, h))
    ]
