-- ===== src/Reach/Tests.antt =====
-- A song of five notes.
use ro_beats_calculator_engi.Common.{
  ℕ, suc, ◌+◌, ◌≡◌, ◌↔◌, refl, true, false, some, List, [], ◌∷◌, take, ok, All, ◌==◌, if◌then◌else◌,
  leb, arith, Bool-cases, inl, inr,
}
use ro_beats_calculator_engi.Ends.{Core}
use ro_beats_calculator_engi.Successors.{Successors}
use ro_beats_calculator_engi.Reach.{
  ActivationEnds, Arrays, Prepass, song_plan, plan_of, zip, bad_arrays, any_below, runs_disordered,
  reachability_prepass,
}
use ro_beats_calculator_engi.Reach.Closure.{IsReached}
use ro_beats_calculator_engi.Reach.Forward.{IsAfter, InSection}
use ro_beats_calculator_engi.Reach.Exact.{reachability_prepass-IsReached}

abbrev table : ActivationEnds ℕ
table = record {
  perfect_hit = λ a. a;
  perfect_valid = λ a. true;
  late_hit = λ a. suc a;
  late_valid = λ a. a == 1;
  perfect_e = λ a. some (a + 2);
  late_e = λ a. some (a + 3);
  eg_perfect_e = λ a. some (a + 2);
  eg_late_e = λ a. some (a + 3);
  perfect_exit_e = λ a. suc a;
  late_exit_e = λ a. a + 2;
}

table-IsAfter : IsAfter table
table-IsAfter = record {
  perfect_exits = λ a. omega arith;
  late_exits = λ a. omega arith;
  perfect_ends = λ a e h. ground (arith, h);
  late_ends = λ a e h. ground (arith, h);
}

abbrev core : Core
core = record {
  activation = 3;
  great_end = 2;
  is_great = true;
  activation_hit_id = 0;
  perfect_hit_id = 0;
  perfect_valid = false;
  valid = true;
}

abbrev cores : ℕ → List (ℕ × Core)
cores s = if s == 2 then (1, core) ∷ [] else []

cores_inside : (s : ℕ) → All (InSection 5 s) (cores s)
cores_inside s = elim (Bool-cases (s == 2)) [
  | inl t ↦ rw t ((ground (arith, t), omega arith), tt)
  | inr t ↦ rw t tt
]

abbrev live : Successors
live = record { successor = λ i. i; removed = λ i. false }

abbrev arrays : Arrays
arrays = record {
  action_count = 1;
  first_fill = 1 ∷ [];
  first_activation_forced = true ∷ [];
  perfect_run_starts = 1 ∷ [];
  perfect_run_ends = 2 ∷ [];
  late_run_starts = [];
  late_run_ends = [];
  workspace_sizes = 6 ∷ 6 ∷ 6 ∷ 6 ∷ [];
  successor_epoch = 1;
}

arrays_good : bad_arrays 5 arrays ≡ false
unfolding any_below runs_disordered
arrays_good = refl

reachability_prepass-IsReached_example :
    (p : Prepass) × (reachability_prepass
        (song_plan 5 table (λ hit i. leb i (hit + 1)) (λ i. 4) (λ i. 5) cores true)
        arrays
        live
        live
      ≡ ok (some p))
    × ((e : ℕ)
        → (p.reachable e ≡ true)
          ↔ IsReached
              (plan_of
                (song_plan 5 table (λ hit i. leb i (hit + 1)) (λ i. 4) (λ i. 5) cores true)
                arrays)
              (take 1 (zip (1 ∷ []) (true ∷ [])))
              e)
reachability_prepass-IsReached_example =
    reachability_prepass-IsReached 5 table (λ hit i. leb i (hit + 1)) (λ i. 4) (λ i. 5) cores true
      arrays live live arrays_good (λ j. refl) (λ j. refl) table-IsAfter cores_inside
