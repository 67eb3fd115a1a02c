-- ===== src/Reducer/Radix.antt =====
-- gear_optimizer/frontier/producer_kernels.py, `_first_frontier_from_precomputed_end_indices_numba`: the pair radix of the
-- kernel, and its guard on the workspace that it is called with.
--
-- The length of the fill array is the kernel's `action_count`. The value and the touched array of the pairs,
-- and the values of the Fenwick tree, are as long as the workspace's capacities say.
use ro_beats_calculator_engi.Common.{
  ℕ, ◌+◌, ◌*◌, ◌/◌, min, max, ◌||◌, List, [], ◌∷◌, Result, ok, value_error, raise_if, ltb, length,
}
use ro_beats_calculator_engi.Reducer.{Workspace}

unfoldable pub min_later_fill : List ℕ → ℕ
min_later_fill [] = 1
min_later_fill (later_fill ∷ rest) = max 1 later_fill

unfoldable pub section_bound : ℕ → List ℕ → ℕ
section_bound n later_fills = n / min_later_fill later_fills + 4

unfoldable pub kernel_pair_mod : ℕ → ℕ → List ℕ → ℕ
kernel_pair_mod n max_eg_width later_fills =
    min (n + 1) (section_bound n later_fills * (1 + max_eg_width) + 1)

unfoldable pub pair_size : ℕ → ℕ → List ℕ → ℕ
pair_size n max_eg_width later_fills = (n + 1) * kernel_pair_mod n max_eg_width later_fills

unfoldable pub check_workspace : ℕ → ℕ → List ℕ → Workspace → Result (Unit {0})
check_workspace n max_eg_width later_fills w =
    let size = pair_size n max_eg_width later_fills in
    raise_if
      (ltb w.pair_capacity size
        || ltb (length w.pair_stamps) size
        || ltb w.bit_capacity (n + 2)
        || ltb (length w.bit_stamps) (n + 2))
      value_error (ok tt)
