-- ===== src/Ends/Tests.antt =====
-- A search in ten timestamps, and a run whose late fever ends with the Perfect one.
use ro_beats_calculator_engi.Common.{ℕ, ◌+◌, ◌≡◌, refl, true, none, some, ltb, arith}
use ro_beats_calculator_engi.Ends.{
  lower_bound_between, lower_bound_from, clamped_end_idx, late_edge_extends, Core,
  region_run_edge_from_core,
}
use ro_beats_calculator_engi.Ends.Bounds.{IsLowerBound, lower_bound_from-IsLowerBound}

program : Unit {0}
unfolding lower_bound_between clamped_end_idx late_edge_extends region_run_edge_from_core
program = tt

search : lower_bound_from 10 (λ i. ltb i 7) ≡ some 7
unfolding program
search = refl

lower_bound_from-IsLowerBound_example :
    (at : ℕ) × (lower_bound_from 10 (λ i. ltb i 7) ≡ some at) × IsLowerBound (λ i. ltb i 7) 0 10 at
lower_bound_from-IsLowerBound_example =
    lower_bound_from-IsLowerBound 10 (λ i. ltb i 7) (λ i j h k. ground (arith, h, k))

abbrev core : Core
core = record {
  activation = 4;
  great_end = 5;
  is_great = true;
  activation_hit_id = 1;
  perfect_hit_id = 0;
  perfect_valid = true;
  valid = true;
}

abbrev perfect_end : ℕ → ℕ
perfect_end hit = 8

abbrev great_end : ℕ → ℕ
great_end hit = 9 + hit

dropped : region_run_edge_from_core 30 perfect_end perfect_end 2 1 core ≡ none
unfolding program
dropped = refl
