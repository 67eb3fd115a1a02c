-- ===== src/Region/Tests.antt =====
-- A bar of 7.4 notes: runs that end on its activation, and a small chart's candidates.
use ro_beats_calculator_engi.Common.{
  ℕ, ◌+◌, ◌-◌, ◌≡◌, ◌↔◌, refl, true, none, some, List, [], ◌∷◌, ok, err, value_error, arith,
}
use ro_beats_calculator_engi.Common.Ceil.{ceil_div}
use ro_beats_calculator_engi.Fill.{
  Denom, IsPositive, ceil_denom, ceil_twice_less, ceil_less_half, reaches,
}
use ro_beats_calculator_engi.Fill.Exact.{off_edge, agrees}
use ro_beats_calculator_engi.Fill.Fixed.{fixed}
use ro_beats_calculator_engi.Fill.Walk.{run_placement, server_fill_crossing, filled}
use ro_beats_calculator_engi.Region.{
  fill_crossing_run, region2_offset_for_count, region2_k_scan_stop, has_shifted_head_region,
  count_candidates, region_core_candidate_capacity, tried_offsets, candidate_offsets,
}
use ro_beats_calculator_engi.Region.Candidates.{candidates_before}
use ro_beats_calculator_engi.Region.Capacity.{region_core_candidate_capacity-candidates_before}
use ro_beats_calculator_engi.Region.Offsets.{region2_offset_for_count-server_fill_crossing}

program : Unit {0}
unfolding fill_crossing_run region2_offset_for_count region2_k_scan_stop has_shifted_head_region
    count_candidates region_core_candidate_capacity tried_offsets candidate_offsets ceil_denom
    ceil_twice_less ceil_less_half ceil_div
program = tt

abbrev denom : Denom
denom = record { num = 37; den = 5 }

denom-IsPositive : IsPositive denom
denom-IsPositive = omega arith

offsets :
    (region2_offset_for_count 10 3 denom 100 ≡ ok (some 6))
    × (region2_offset_for_count 10 4 denom 100 ≡ ok none)
    × (region2_offset_for_count 10 3 denom 18 ≡ ok none)
    × (region2_offset_for_count 10 3 (record { num = 0; den = 1 }) 18 ≡ err value_error)
    × (region2_k_scan_stop 40 denom ≡ ok 16)
    × (fill_crossing_run 10 16 3 denom 100 ≡ (some 18, true))
unfolding program
offsets = (refl, refl, refl, refl, refl, refl)

abbrev actions : List ℕ
actions = 0 ∷ 1 ∷ 2 ∷ 3 ∷ []

capacity : region_core_candidate_capacity 12 actions denom ≡ ok 61
unfolding program
capacity = refl

region2_offset_for_count-server_fill_crossing_example :
    (region2_offset_for_count 10 3 denom 100 ≡ ok (some 6)) ↔ (
      server_fill_crossing fixed (run_placement (10 + 6) 3) denom 10 100
      ≡ ok (some (10 + 6 + 3 - 1), true))
unfolding off_edge agrees filled run_placement reaches
region2_offset_for_count-server_fill_crossing_example =
    region2_offset_for_count-server_fill_crossing denom denom-IsPositive 10 3 100 fixed 6
      (omega arith) (omega arith) refl

stop : region2_k_scan_stop 40 denom ≡ ok 16
unfolding program
stop = refl

all_scanned : region2_k_scan_stop 4 denom ≡ ok 4
unfolding program
all_scanned = refl

region_core_candidate_capacity-candidates_before_example :
    (count : ℕ) × (region_core_candidate_capacity 12 actions denom ≡ ok count)
    × (candidates_before 12 denom 4 actions 13 ≡ ok count)
region_core_candidate_capacity-candidates_before_example =
    region_core_candidate_capacity-candidates_before denom 12 4 actions denom-IsPositive
      (omega arith) all_scanned
