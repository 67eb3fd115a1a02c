-- ===== src/Ends.antt =====
-- Where fevers end, in gear_optimizer/frontier/producer_kernels.py: the first hit time at or after a
-- fever's end, clamped to the chart, and the edge of a region run with its early-Great reach.
--
-- `before i` is the float32 test `timestamps[i] < needle`. An index that the kernel writes as -1 is none,
-- and the test of a valid flag is a Bool.
mod Tests
pub mod Bounds
use ro_beats_calculator_engi.Common.{
  ℕ, zero, suc, ◌+◌, ◌/◌, Bool, true, false, not, ◌&&◌, Option, none, some, leb, ltb, if◌then◌else◌,
}

-- The loop of `_numba_lower_bound_from`, on fuel
unfoldable pub lower_bound_between : ℕ → (ℕ → Bool) → ℕ → ℕ → Option ℕ
lower_bound_between zero before lo hi = if ltb lo hi then none else some lo
lower_bound_between (suc fuel) before lo hi =
    let mid = (lo + hi) / 2 in
    let right = lower_bound_between fuel before (mid + 1) hi in
    let left = lower_bound_between fuel before lo mid in
    if not (ltb lo hi) then some lo else if before mid then right else left

abbrev pub lower_bound_from : ℕ → (ℕ → Bool) → Option ℕ
lower_bound_from count before = lower_bound_between count before 0 count

unfoldable pub clamped_end_idx : ℕ → ℕ → ℕ → ℕ
clamped_end_idx n activation_idx raw_end_idx =
    let edge_e = if leb raw_end_idx activation_idx then activation_idx + 1 else raw_end_idx in
    if ltb n edge_e then n else edge_e

-- `a > b`, where -1 is less than every index
abbrev pub later : Option ℕ → Option ℕ → Bool
later none b = false
later (some a) none = true
later (some a) (some b) = ltb b a

unfoldable pub late_edge_extends : Option ℕ → Option ℕ → Option ℕ → Option ℕ → Bool
late_edge_extends edge_e none activation_eg_e edge_eg_e = false
late_edge_extends edge_e (some e) activation_eg_e edge_eg_e =
    if later (some e) edge_e then true else later activation_eg_e edge_eg_e

pub record Core : Type 0 where
  pub activation : ℕ
  pub great_end : ℕ
  pub is_great : Bool
  pub activation_hit_id : ℕ
  pub perfect_hit_id : ℕ
  pub perfect_valid : Bool
  pub valid : Bool

pub record RunEdge : Type 0 where
  pub activation : ℕ
  pub edge_e : Option ℕ
  pub great_start : ℕ
  pub great_end : ℕ
  pub activation_great : Option ℕ
  pub eg_e : Option ℕ

module _ (n : ℕ) (perfect_end_by_hit great_end_by_hit : ℕ → ℕ) where
  abbrev pub perfect_e : Core → Option ℕ
  perfect_e core =
      if core.perfect_valid
      then some (clamped_end_idx n core.activation (perfect_end_by_hit core.perfect_hit_id))
      else none

  abbrev pub perfect_eg_e : Core → Option ℕ
  perfect_eg_e core =
      if core.perfect_valid
      then some (clamped_end_idx n core.activation (great_end_by_hit core.perfect_hit_id))
      else none

  -- `_numba_region_run_edge_from_core`
  unfoldable pub region_run_edge_from_core : ℕ → ℕ → Core → Option RunEdge
  region_run_edge_from_core section_start offset core =
      let activation_e =
        clamped_end_idx n core.activation (perfect_end_by_hit core.activation_hit_id) in
      let activation_eg_e =
        clamped_end_idx n core.activation (great_end_by_hit core.activation_hit_id) in
      if not core.valid
      then none
      else if not core.is_great
      then some (record {
        activation = core.activation;
        edge_e = perfect_e core;
        great_start = section_start + offset;
        great_end = core.great_end;
        activation_great = none;
        eg_e = perfect_eg_e core;
      })
      else if core.perfect_valid
          && not (
              late_edge_extends (perfect_e core) (some activation_e) (some activation_eg_e)
                (perfect_eg_e core))
      then none
      else some (record {
        activation = core.activation;
        edge_e = some activation_e;
        great_start = section_start + offset;
        great_end = core.great_end;
        activation_great = some core.activation;
        eg_e = some activation_eg_e;
      })
