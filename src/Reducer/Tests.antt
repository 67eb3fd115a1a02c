-- ===== src/Reducer/Tests.antt =====
-- Runs, plans and epochs at concrete values.
use ro_beats_calculator_engi.Common.{
  ℕ, ◌≡◌, refl, none, some, List, [], ◌∷◌, ok, err, memory_error, All, arith, ltb, if◌then◌else◌,
  ◌==◌,
}
use ro_beats_calculator_engi.Reducer.{
  blank_workspace, make_workspace, reserve_successor_epochs, exact_action_fill_runs, runs_of,
  after_breaks, before_breaks, pair_mod_bound, Workspace, zeros, thread_workspace, WorkspacePlan,
  make_plan, bytes_per_thread, admit_workspace,
}
use ro_beats_calculator_engi.Reducer.Epochs.{
  KernelCall, IsKernelCall, IsFresh, after_calls, after_calls-IsFresh,
}
use ro_beats_calculator_engi.Reducer.Plan.{make_plan-check_workspace}
use ro_beats_calculator_engi.Reducer.Radix.{check_workspace}

-- `np.unique`, by insertion
unfoldable insert : ℕ → List ℕ → List ℕ
insert x [] = x ∷ []
insert x (y ∷ ys) =
    let rest = insert x ys in if ltb x y then x ∷ y ∷ ys else if x == y then y ∷ ys else y ∷ rest

unfoldable unique : List ℕ → List ℕ
unique [] = []
unique (x ∷ xs) = insert x (unique xs)

abbrev fills : List ℕ
fills = 5 ∷ 3 ∷ 4 ∷ 9 ∷ 4 ∷ []

two_runs : exact_action_fill_runs unique fills none ≡ ok (3 ∷ 9 ∷ [], 5 ∷ 9 ∷ [])
unfolding exact_action_fill_runs runs_of after_breaks before_breaks unique insert
two_runs = refl

abbrev kernel_call : KernelCall
kernel_call = record {
  count = 3;
  pair_stamps = 9 ∷ 8 ∷ [];
  bit_stamps = 4 ∷ [];
  perfect_successor_stamps = 3 ∷ [];
  late_successor_stamps = 0 ∷ [];
  pair_epoch = 9;
  bit_epoch = 4;
}

kernel_call-IsKernelCall : IsKernelCall (blank_workspace 2 1 1) kernel_call
unfolding reserve_successor_epochs
kernel_call-IsKernelCall = record {
  few = omega arith;
  pair = (omega arith, (omega arith, tt));
  bits = (omega arith, tt);
  perfect = (omega arith, tt);
  late = (omega arith, tt);
}

made : make_workspace 2 1 1 ≡ ok (blank_workspace 2 1 1)
unfolding make_workspace
made = refl

after_calls-IsFresh_example : IsFresh (after_calls (blank_workspace 2 1 1) (kernel_call ∷ [])) 5
after_calls-IsFresh_example =
    after_calls-IsFresh 2 1 1 5 (blank_workspace 2 1 1) (kernel_call ∷ []) made
      (kernel_call-IsKernelCall, tt) (omega arith)

abbrev plan : WorkspacePlan
plan = record { n = 10; pair_capacity = 110; bit_capacity = 12 }

make_plan-check_workspace_example :
    (p : WorkspacePlan) × (make_plan 10 (pair_mod_bound 10 2 ((4 ∷ []) ∷ [])) ≡ ok p)
    × ((w : Workspace) × (thread_workspace p (some (blank_workspace 2 1 1)) ≡ ok w)
        × All (λ item. check_workspace 10 1 item w ≡ ok tt) ((4 ∷ []) ∷ []))
unfolding zeros
make_plan-check_workspace_example =
    make_plan-check_workspace 10 2 1 ((4 ∷ []) ∷ []) (some (blank_workspace 2 1 1)) (omega arith)
      (refl, refl)

refused : admit_workspace plan 4 (some 1000) ≡ err memory_error
unfolding admit_workspace bytes_per_thread
refused = refl
