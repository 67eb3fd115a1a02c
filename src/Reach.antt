-- ===== src/Reach.antt =====
-- The reachable states of gear_optimizer/frontier/producer_kernels.py: from which notes a fever section
-- can start, given the activations that the action fills allow and the ends that their fevers have.
--
-- Note indices are natural numbers, and an index that a table writes as -1 is none. A hit time is of a
-- type of its own, with `floor_before hit i` for the float32 test of the great floor at note i against the
-- end of a fever from that hit. An array that is marked is a function on the notes 0 .. n. The loops
-- over activations are on fuel, and none is its lack.
pub mod Marks
pub mod Lanes
pub mod Runs
pub mod States
pub mod Visits
pub mod Closure
pub mod Forward
pub mod Exact
mod Tests
use ro_beats_calculator_engi.Common.{
  ℕ, zero, suc, ◌+◌, ◌-◌, min, max, Bool, true, false, not, ◌&&◌, ◌||◌, Option, none, some, List,
  [], ◌∷◌, length, take, Result, ok, err, value_error, raise_if, leb, ltb, ◌==◌, if◌then◌else◌,
}
use ro_beats_calculator_engi.Common.Options.{◌>>=◌}
use ro_beats_calculator_engi.Ends.{
  lower_bound_from, clamped_end_idx, late_edge_extends, Core, RunEdge, region_run_edge_from_core,
}
use ro_beats_calculator_engi.Successors.{Successors, successor_find, successor_remove}

-- The tables of one fever time, by activation.
pub record ActivationEnds (Hit : Type 0) : Type 0 where
  pub perfect_hit : ℕ → Hit
  pub perfect_valid : ℕ → Bool
  pub late_hit : ℕ → Hit
  pub late_valid : ℕ → Bool
  pub perfect_e : ℕ → Option ℕ
  pub late_e : ℕ → Option ℕ
  pub eg_perfect_e : ℕ → Option ℕ
  pub eg_late_e : ℕ → Option ℕ
  pub perfect_exit_e : ℕ → ℕ
  pub late_exit_e : ℕ → ℕ

-- `for e in range(lo, hi + 1): reachable[e] = True`
abbrev pub mark_range : (ℕ → Bool) → ℕ → ℕ → ℕ → Bool
mark_range reachable lo hi e = if leb lo e && leb e hi then true else reachable e

-- What a closure leaves: the marks, and how far early Greats extend the fever.
abbrev pub Marked : Type 0
Marked = (ℕ → Bool) × ℕ

module _ {Hit : Type 0} (n : ℕ) (ends : ActivationEnds Hit) (floor_before : Hit → ℕ → Bool) where
  -- `_numba_great_floor_extended_end_at_hit`
  unfoldable pub great_floor_extended_end_at_hit : ℕ → Hit → ℕ
  great_floor_extended_end_at_hit activation hit =
      clamped_end_idx n activation
        (elim (lower_bound_from n (floor_before hit)) [ none ↦ 0 | some e ↦ e ])

  -- `_numba_mark_early_great_reachable_from_hit`, for a fever that has an end
  unfoldable pub mark_early_great_reachable_from_hit : (ℕ → Bool) → ℕ → ℕ → Hit → Marked
  mark_early_great_reachable_from_hit reachable activation base_e hit =
      let eg_e = great_floor_extended_end_at_hit activation hit in
      if leb n activation
      then (reachable, 0)
      else (mark_range reachable (base_e + 1) eg_e, eg_e - base_e)

  unfoldable pub mark_perfect_activation_closure : (ℕ → Bool) → ℕ → Marked
  mark_perfect_activation_closure reachable activation =
      if not (ends.perfect_valid activation)
      then (reachable, 0)
      else elim (ends.perfect_e activation) [
        | none ↦ (reachable, 0)
        | some edge_e ↦
            mark_early_great_reachable_from_hit
              (mark_range reachable (min (ends.perfect_exit_e activation) edge_e) edge_e) activation
              edge_e (ends.perfect_hit activation)
      ]

  -- Whether the late-Great activation ends its fever further on than the Perfect one.
  abbrev pub late_extends : ℕ → Bool
  late_extends activation =
      late_edge_extends (if ends.perfect_valid activation then ends.perfect_e activation else none)
        (if ends.late_valid activation then ends.late_e activation else none)
        (if ends.late_valid activation then ends.eg_late_e activation else some 0)
        (if ends.perfect_valid activation then ends.eg_perfect_e activation else some 0)

  unfoldable pub mark_late_activation_closure : (ℕ → Bool) → ℕ → Marked
  mark_late_activation_closure reachable activation =
      if not (late_extends activation)
      then (reachable, 0)
      else elim (if ends.late_valid activation then ends.late_e activation else none) [
        | none ↦ (reachable, 0)
        | some activation_e ↦
            mark_early_great_reachable_from_hit
              (mark_range reachable (min (ends.late_exit_e activation) activation_e) activation_e)
              activation activation_e (ends.late_hit activation)
      ]

  -- A region core of one section, with its offset.
  module _ (perfect_end_by_hit great_end_by_hit : ℕ → ℕ) where
    -- `reachable[-1]` is the last entry, for note n.
    unfoldable pub mark_region_edge : (ℕ → Bool) → RunEdge → Marked
    mark_region_edge reachable edge =
        let exit_e : ℕ = elim edge.activation_great [
          | none ↦ ends.perfect_exit_e edge.activation
          | some a ↦ ends.late_exit_e edge.activation
        ] in
        elim edge.edge_e [
          | none ↦ elim edge.eg_e [
            | none ↦ (mark_range reachable n n, 0)
            | some eg_e ↦ (mark_range (mark_range reachable n n) 0 eg_e, eg_e + 1)
          ]
          | some edge_e ↦ elim edge.eg_e [
            | none ↦ (reachable, 0)
            | some eg_e ↦ (mark_range reachable (min exit_e edge_e) eg_e, eg_e - edge_e)
          ]
        ]

    unfoldable pub mark_region_entries : ℕ → List (ℕ × Core) → Marked → Marked
    mark_region_entries section_start [] marked = marked
    mark_region_entries section_start ((offset, core) ∷ cores) marked =
        elim (region_run_edge_from_core n perfect_end_by_hit great_end_by_hit section_start offset
          core) [
            | none ↦ mark_region_entries section_start cores marked
            | some edge ↦
                let (reachable, width) = mark_region_edge marked.0 edge in
                mark_region_entries section_start cores (reachable, max marked.1 width)
          ]

-- One kind of activation in the making: its live activations, the marks and the widest extension.
pub record Lane : Type 0 where
  pub live : Successors
  pub reachable : ℕ → Bool
  pub width : ℕ

-- The mark of one activation and its removal; the answer is the next live one.
unfoldable pub close_activation : ℕ → ((ℕ → Bool) → ℕ → Marked) → Lane → ℕ → Option (Lane × ℕ)
close_activation n closure lane activation = do
  removed ← successor_remove (suc n) lane.live activation
  some (
    record {
      live = removed.0;
      reachable = (closure lane.reachable activation).0;
      width = max lane.width (closure lane.reachable activation).1;
    },
    removed.1,
  )

-- `while activation <= interval_end`
unfoldable pub close_interval : ℕ → ℕ → ((ℕ → Bool) → ℕ → Marked) → ℕ → Lane → ℕ → Option Lane
close_interval zero n closure interval_end lane activation = none
close_interval (suc fuel) n closure interval_end lane activation =
    elim (leb activation interval_end) [
      | false ↦ some lane
      | true ↦ close_activation n closure lane activation >>= λ closed.
          close_interval fuel n closure interval_end closed.0 closed.1
    ]

-- `for run_idx in range(...)`, over the starts and ends of the runs of fills
unfoldable pub close_runs : ℕ → ((ℕ → Bool) → ℕ → Marked) → ℕ → List (ℕ × ℕ) → Lane → Option Lane
close_runs n closure state [] lane = some lane
close_runs n closure state ((run_start, run_end) ∷ runs) lane = elim (leb n (state + run_start)) [
  | true ↦ close_runs n closure state runs lane
  | false ↦ do
    found ← successor_find (suc n) lane.live (state + run_start)
    closed ←
        close_interval (suc (suc n)) n closure (min (n - 1) (state + run_end))
          (record lane { live = found.0 }) found.1
    close_runs n closure state runs closed
]

-- An activation of the first section, if it is live.
unfoldable pub close_first : ℕ → ((ℕ → Bool) → ℕ → Marked) → Lane → ℕ → Option Lane
close_first n closure lane fill = do
  found ← successor_find (suc n) lane.live fill
  elim (found.1 == fill) [
    | false ↦ some (record lane { live = found.0 })
    | true ↦ do
      closed ← close_activation n closure (record lane { live = found.0 }) fill
      some closed.0
  ]

pub record Prepass : Type 0 where
  pub perfect : Successors
  pub late : Successors
  pub reachable : ℕ → Bool
  pub max_eg_width : ℕ

-- The plan and the closures, which do not change.
pub record Plan : Type 0 where
  pub n : ℕ
  pub perfect_closure : (ℕ → Bool) → ℕ → Marked
  pub late_closure : (ℕ → Bool) → ℕ → Marked
  pub region_entries : ℕ → Marked → Marked
  pub use_forced_great_timing : Bool
  pub perfect_runs : List (ℕ × ℕ)
  pub late_runs : List (ℕ × ℕ)

-- The closures of a song: its tables, the region cores by section, and whether Greats are forced.
abbrev pub song_plan :
    {Hit : Type 0}
    → ℕ
    → ActivationEnds Hit
    → (Hit → ℕ → Bool)
    → (ℕ → ℕ)
    → (ℕ → ℕ)
    → (ℕ → List (ℕ × Core))
    → Bool
    → Plan
song_plan n ends floor_before perfect_end_by_hit great_end_by_hit cores forced = record {
  n = n;
  perfect_closure = mark_perfect_activation_closure n ends floor_before;
  late_closure = mark_late_activation_closure n ends floor_before;
  region_entries = λ section_start.
      mark_region_entries n ends floor_before perfect_end_by_hit great_end_by_hit section_start
        (cores section_start);
  use_forced_great_timing = forced;
  perfect_runs = [];
  late_runs = [];
}

-- What one lane did to the shared state.
abbrev pub in_perfect : (Lane → Option Lane) → Prepass → Option Prepass
in_perfect work p =
    work (record { live = p.perfect; reachable = p.reachable; width = p.max_eg_width }) >>= λ lane.
    some (record p { perfect = lane.live; reachable = lane.reachable; max_eg_width = lane.width })

abbrev pub in_late : (Lane → Option Lane) → Prepass → Option Prepass
in_late work p =
    work (record { live = p.late; reachable = p.reachable; width = p.max_eg_width }) >>= λ lane.
    some (record p { late = lane.live; reachable = lane.reachable; max_eg_width = lane.width })

-- `_numba_mark_region_entries_for_section` and the maximum with its width
abbrev pub in_region : Plan → ℕ → Prepass → Prepass
in_region plan section_start p =
    let marked = plan.region_entries section_start (p.reachable, p.max_eg_width) in
    record p { reachable = marked.0; max_eg_width = marked.1 }

-- The first section's actions: the fill, and whether it allows a late activation.
unfoldable pub first_actions : Plan → List (ℕ × Bool) → Prepass → Option Prepass
first_actions plan [] p = some p
first_actions plan ((fill, forced) ∷ actions) p = elim (leb plan.n fill) [
  | true ↦ first_actions plan actions p
  | false ↦ do
    p1 ← in_perfect (λ lane. close_first plan.n plan.perfect_closure lane fill) p
    p2 ← elim (plan.use_forced_great_timing && forced) [
      | true ↦ in_late (λ lane. close_first plan.n plan.late_closure lane fill) p1
      | false ↦ some p1
    ]
    first_actions plan actions p2
]

-- The body of `for state_i in range(n)`.
unfoldable pub visit : Plan → ℕ → Prepass → Option Prepass
visit plan state p = elim (p.reachable state) [
  | false ↦ some p
  | true ↦ do
    p1 ← in_perfect (close_runs plan.n plan.perfect_closure state plan.perfect_runs) p
    elim plan.use_forced_great_timing [
      | false ↦ some p1
      | true ↦ do
        p2 ← in_late (close_runs plan.n plan.late_closure state plan.late_runs) p1
        some (in_region plan (suc state) p2)
    ]
]

unfoldable pub visit_before : Plan → ℕ → Prepass → Option Prepass
visit_before plan zero p = some p
visit_before plan (suc state) p = visit_before plan state p >>= λ p'. visit plan state p'

-- The loops, after the checks.
unfoldable pub closure_loops : Plan → List (ℕ × Bool) → Successors → Successors → Option Prepass
closure_loops plan actions perfect late = do
  p ← first_actions plan actions (record {
    perfect = perfect;
    late = late;
    reachable = mark_range (λ e. false) plan.n plan.n;
    max_eg_width = 0;
  })
  visit_before plan plan.n (if plan.use_forced_great_timing then in_region plan 0 p else p)

-- `run_end < run_start or run_start <= previous_end`
unfoldable pub runs_disordered : Option ℕ → List ℕ → List ℕ → Bool
runs_disordered previous [] ends = false
runs_disordered previous (s ∷ starts) [] = false
runs_disordered previous (s ∷ starts) (e ∷ ends) =
    ltb e s
    || elim previous [ none ↦ false | some p ↦ leb s p ]
    || runs_disordered (some e) starts ends

unfoldable pub zip {ℓ κ} : {A : Type ℓ} {B : Type κ} → List A → List B → List (A × B)
zip [] ys = []
zip (x ∷ xs) [] = []
zip (x ∷ xs) (y ∷ ys) = (x, y) ∷ zip xs ys

unfoldable pub any_below : ℕ → List ℕ → Bool
any_below bound [] = false
any_below bound (size ∷ sizes) = ltb size bound || any_below bound sizes

-- The arrays as they are passed: the runs by starts and ends, the workspace by its sizes.
pub record Arrays : Type 0 where
  pub action_count : ℕ
  pub first_fill : List ℕ
  pub first_activation_forced : List Bool
  pub perfect_run_starts : List ℕ
  pub perfect_run_ends : List ℕ
  pub late_run_starts : List ℕ
  pub late_run_ends : List ℕ
  pub workspace_sizes : List ℕ
  pub successor_epoch : ℕ

abbrev pub bad_arrays : ℕ → Arrays → Bool
bad_arrays n a =
    ltb (length a.first_fill) a.action_count
    || ltb (length a.first_activation_forced) a.action_count
    || not (length a.perfect_run_starts == length a.perfect_run_ends)
    || not (length a.late_run_starts == length a.late_run_ends)
    || runs_disordered none a.perfect_run_starts a.perfect_run_ends
    || runs_disordered none a.late_run_starts a.late_run_ends
    || ltb a.successor_epoch 1
    || any_below (n + 1) a.workspace_sizes

abbrev pub plan_of : Plan → Arrays → Plan
plan_of plan a = record plan {
  perfect_runs = zip a.perfect_run_starts a.perfect_run_ends;
  late_runs = zip a.late_run_starts a.late_run_ends;
}

-- `_numba_first_frontier_reachability_prepass`
unfoldable pub reachability_prepass :
    Plan → Arrays → Successors → Successors → Result (Option Prepass)
reachability_prepass plan a perfect late = raise_if (bad_arrays plan.n a) value_error (
    ok (
      closure_loops (plan_of plan a)
        (take a.action_count (zip a.first_fill a.first_activation_forced)) perfect late))
