-- ===== src/Reducer.antt =====
-- gear_optimizer/frontier/producer_reducer.py: the scratch space of the first-frontier reducer and the
-- runs of action fills.
--
-- Of the kernel that uses the scratch space only its pair radix and its guard are modelled (Reducer/Radix): the
-- stamps that it writes are an argument.
-- `np.unique` is an argument, the memory that psutil reports another.
pub mod Epochs
pub mod Runs
pub mod Radix
pub mod Plan
mod Tests
use ro_beats_calculator_engi.Common.{
  ℕ, zero, suc, ◌+◌, ◌-◌, ◌*◌, ◌/◌, ◌^◌, min, max, Bool, true, false, not, ◌||◌, Option, none, some,
  List, [], ◌∷◌, ◌++◌, map, Result, ok, err, value_error, memory_error, raise_if, ltb, leb, ◌==◌,
  if◌then◌else◌, length,
}

abbrev pub stamp_epoch_reset_limit : ℕ
stamp_epoch_reset_limit = 1073741824

-- `_FirstFrontierStampWorkspace`: the capacities, the stamp arrays and the epochs. The value and touched arrays
-- are only read under a matching stamp.
pub record Workspace : Type 0 where
  pub pair_capacity : ℕ
  pub bit_capacity : ℕ
  pub successor_capacity : ℕ
  pub pair_stamps : List ℕ
  pub bit_stamps : List ℕ
  pub perfect_successor_stamps : List ℕ
  pub late_successor_stamps : List ℕ
  pub pair_epoch : ℕ
  pub bit_epoch : ℕ
  pub successor_epoch : ℕ

-- `np.zeros(capacity)`
unfoldable pub zeros : ℕ → List ℕ
zeros zero = []
zeros (suc n) = 0 ∷ zeros n

abbrev pub blank_workspace : ℕ → ℕ → ℕ → Workspace
blank_workspace pair_capacity bit_capacity successor_capacity = record {
  pair_capacity = pair_capacity;
  bit_capacity = bit_capacity;
  successor_capacity = successor_capacity;
  pair_stamps = zeros pair_capacity;
  bit_stamps = zeros bit_capacity;
  perfect_successor_stamps = zeros successor_capacity;
  late_successor_stamps = zeros successor_capacity;
  pair_epoch = 0;
  bit_epoch = 0;
  successor_epoch = 0;
}

unfoldable pub make_workspace : ℕ → ℕ → ℕ → Result Workspace
make_workspace pair_capacity bit_capacity successor_capacity =
    raise_if (ltb successor_capacity 1) value_error
      (ok (blank_workspace pair_capacity bit_capacity successor_capacity))

-- `stamps[:] = 0`
abbrev pub cleared : List ℕ → List ℕ
cleared = map (λ stamp. 0)

-- The first fresh epoch, and the workspace after.
unfoldable pub reserve_successor_epochs : Workspace → ℕ → ℕ × Workspace
reserve_successor_epochs w count =
    let w' =
      if ltb stamp_epoch_reset_limit (w.successor_epoch + count)
      then record w {
        perfect_successor_stamps = cleared w.perfect_successor_stamps;
        late_successor_stamps = cleared w.late_successor_stamps;
        successor_epoch = 0;
      }
      else w in
    (w'.successor_epoch + 1, record w' { successor_epoch = w'.successor_epoch + count })

unfoldable pub store_epochs : Workspace → ℕ → ℕ → Workspace
store_epochs w pair_epoch bit_epoch = record w {
  pair_stamps =
      if ltb stamp_epoch_reset_limit pair_epoch then cleared w.pair_stamps else w.pair_stamps;
  pair_epoch = if ltb stamp_epoch_reset_limit pair_epoch then 0 else pair_epoch;
  bit_stamps = if ltb stamp_epoch_reset_limit bit_epoch then cleared w.bit_stamps else w.bit_stamps;
  bit_epoch = if ltb stamp_epoch_reset_limit bit_epoch then 0 else bit_epoch;
}

-- `_exact_action_fill_runs`. The fills are natural numbers, for which the check against negative
-- ones never fires; a row of `activation_forced` is there if it is not negative.
unfoldable pub eligible_fills : List ℕ → List Bool → List ℕ
eligible_fills [] forced = []
eligible_fills (f ∷ fills) [] = []
eligible_fills (f ∷ fills) (e ∷ forced) =
    let rest = eligible_fills fills forced in if e then f ∷ rest else rest

-- `values[breaks + 1]`
unfoldable pub after_breaks : ℕ → List ℕ → List ℕ
after_breaks value [] = []
after_breaks value (next ∷ values) =
    let rest = after_breaks next values in if ltb 1 (next - value) then next ∷ rest else rest

-- `np.concatenate((values[breaks], values[-1:]))`
unfoldable pub before_breaks : ℕ → List ℕ → List ℕ
before_breaks value [] = value ∷ []
before_breaks value (next ∷ values) =
    let rest = before_breaks next values in if ltb 1 (next - value) then value ∷ rest else rest

unfoldable pub runs_of : List ℕ → List ℕ × List ℕ
runs_of [] = ([], [])
runs_of (value ∷ values) = (value ∷ after_breaks value values, before_breaks value values)

unfoldable pub exact_action_fill_runs :
    (List ℕ → List ℕ) → List ℕ → Option (List Bool) → Result (List ℕ × List ℕ)
exact_action_fill_runs unique fills none = ok (runs_of (unique fills))
exact_action_fill_runs unique fills (some forced) =
    raise_if (not (length forced == length fills)) value_error
      (ok (runs_of (unique (eligible_fills fills forced))))

-- `_song_first_frontier_pair_mod_bound`; an item is its `later_fill` array.
abbrev pub first_fill : List ℕ → ℕ
first_fill [] = 1
first_fill (f ∷ fills) = max 1 f

abbrev pub pair_mod : ℕ → ℕ → ℕ → ℕ
pair_mod n fill width = min (n + 1) ((n / fill + 4) * (1 + width) + 1)

unfoldable pub pair_mod_bound_from : ℕ → ℕ → ℕ → List (List ℕ) → ℕ
pair_mod_bound_from bound n eg_gap_bound [] = bound
pair_mod_bound_from bound n eg_gap_bound (item ∷ prepared) =
    pair_mod_bound_from (max bound (pair_mod n (first_fill item) eg_gap_bound)) n eg_gap_bound
      prepared

abbrev pub pair_mod_bound : ℕ → ℕ → List (List ℕ) → ℕ
pair_mod_bound = pair_mod_bound_from 1

pub record WorkspacePlan : Type 0 where
  pub n : ℕ
  pub pair_capacity : ℕ
  pub bit_capacity : ℕ

unfoldable pub make_plan : ℕ → ℕ → Result WorkspacePlan
make_plan n bound =
    raise_if (ltb bound 1 || ltb (n + 1) bound) value_error
      (ok (record { n = n; pair_capacity = (n + 1) * bound; bit_capacity = n + 2 }))

-- `bytes_per_thread`
unfoldable pub bytes_per_thread : WorkspacePlan → ℕ
bytes_per_thread plan = 4 * (3 * plan.pair_capacity + 2 * plan.bit_capacity + 4 * (plan.n + 1))

-- `thread_workspace`, under the thread's workspace, if it has one
unfoldable pub thread_workspace : WorkspacePlan → Option Workspace → Result Workspace
thread_workspace plan none = make_workspace plan.pair_capacity plan.bit_capacity (plan.n + 1)
thread_workspace plan (some w) =
    if ltb w.pair_capacity plan.pair_capacity
      || ltb w.bit_capacity plan.bit_capacity
      || ltb w.successor_capacity (plan.n + 1)
    then make_workspace plan.pair_capacity plan.bit_capacity (plan.n + 1)
    else ok w

abbrev pub system_reserve_max_bytes : ℕ
system_reserve_max_bytes = 2147483648

-- `_admit_first_frontier_workspace`, under the available memory
unfoldable pub admit_workspace : WorkspacePlan → ℕ → Option ℕ → Result ℕ
admit_workspace plan worker_count none = ok (bytes_per_thread plan * max 1 worker_count)
admit_workspace plan worker_count (some available) =
    let required = bytes_per_thread plan * max 1 worker_count in
    let budget = available - min system_reserve_max_bytes (available / 4) in
    raise_if (ltb budget required) memory_error (ok required)

-- `configure_..._threads` and `_resolve_first_only_reducer_threads`
abbrev pub configured_threads : ℕ → ℕ → ℕ
configured_threads max_threads cpu_count = max 1 (min max_threads (max 1 cpu_count))

abbrev pub resolved_threads : ℕ → ℕ → ℕ
resolved_threads work_items threads = max 1 (min work_items threads)
