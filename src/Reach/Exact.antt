-- ===== src/Reach/Exact.antt =====
-- The prepass of a song: what it answers on the arrays that it accepts.
use ro_beats_calculator_engi.Common.{
  ℕ, ◌≡◌, ◌↔◌, refl, Bool, true, false, some, List, take, ok, All,
}
use ro_beats_calculator_engi.Ends.{Core}
use ro_beats_calculator_engi.Successors.{Successors}
use ro_beats_calculator_engi.Reach.{
  ActivationEnds, Arrays, Prepass, song_plan, plan_of, zip, bad_arrays, reachability_prepass,
}
use ro_beats_calculator_engi.Reach.Marks.{
  mark_perfect-IsMarking, mark_late-IsMarking, mark_regions_lem,
}
use ro_beats_calculator_engi.Reach.Visits.{IsMarked}
use ro_beats_calculator_engi.Reach.Closure.{IsReached, closure_loops_lem}
use ro_beats_calculator_engi.Reach.Forward.{IsAfter, InSection, song_plan-IsForward}

-- Take arrays that pass the checks, successors of which none is removed, tables in which no fever ends
-- before or at its activation, and region cores that activate in their section and before the last note. Then
-- the prepass ends, and marks a note just if it is the end of the song or a chain of fevers
-- leads to it: a first fever of the first section's activations or regions, and each further one from a note
-- that is reached already, by an activation in its runs or by a region of the section that starts one
-- note on. The successors, which close each activation once, miss no end.
pub reachability_prepass-IsReached :
    {Hit : Type 0} (n : ℕ) (table : ActivationEnds Hit) (floor_before : Hit → ℕ → Bool)
    (perfect_end_by_hit great_end_by_hit : ℕ → ℕ) (cores : ℕ → List (ℕ × Core)) (forced : Bool)
    (a : Arrays) (perfect late : Successors)
    → bad_arrays n a ≡ false
    → ((j : ℕ) → perfect.removed j ≡ false)
    → ((j : ℕ) → late.removed j ≡ false)
    → IsAfter table
    → ((s : ℕ) → All (InSection n s) (cores s))
    → (p : Prepass) × (reachability_prepass
          (song_plan n table floor_before perfect_end_by_hit great_end_by_hit cores forced)
          a
          perfect
          late
        ≡ ok (some p))
      × ((e : ℕ)
          → (p.reachable e ≡ true)
            ↔ IsReached
                (plan_of
                  (song_plan n table floor_before perfect_end_by_hit great_end_by_hit cores forced)
                  a)
                (take a.action_count (zip a.first_fill a.first_activation_forced))
                e)
unfolding reachability_prepass
reachability_prepass-IsReached n table floor_before ends_p ends_g cores forced a perfect late good
      new_p new_l after inside =
    let plan = plan_of (song_plan n table floor_before ends_p ends_g cores forced) a in
    let marked : IsMarked plan = record {
      perfect_marks = mark_perfect-IsMarking n table floor_before;
      late_marks = mark_late-IsMarking n table floor_before;
      region_marks = λ s. mark_regions_lem n table floor_before ends_p ends_g s (cores s);
    } in
    let (p, made, exact) =
      closure_loops_lem plan marked
        (song_plan-IsForward n table floor_before ends_p ends_g cores forced a after inside)
        (take a.action_count (zip a.first_fill a.first_activation_forced)) perfect late new_p
        new_l in
    (p, rw (good, made) refl, exact)
