-- ===== src/Reach/Visits.antt =====
-- What the loops of the prepass do: the actions of the first section, and one state or all before one.
use ro_beats_calculator_engi.Common.{
  ℕ, suc, ◌≤◌, ◌<◌, ◌≡◌, refl, Bool, true, false, ◌&&◌, ◌||◌, some, List, [], ◌∷◌, ltb, ◌==◌, inl,
  inr, arith, Bool-cases, leb-cases,
}
use ro_beats_calculator_engi.Common.Options.{◌>>=◌}
use ro_beats_calculator_engi.Reach.{
  Prepass, Plan, in_perfect, in_late, in_region, close_first, close_runs, first_actions, visit,
}
use ro_beats_calculator_engi.Reach.Lanes.{IsMarking, IsLane, in_runs}
use ro_beats_calculator_engi.Reach.Marks.{ends_of}
use ro_beats_calculator_engi.Reach.Runs.{close_runs-Worked, close_first-Worked}
use ro_beats_calculator_engi.Reach.States.{
  Kind, perfect_kind, late_kind, lane, only, Advanced, unchanged-Advanced, both-Advanced,
  in_perfect-Advanced, in_late-Advanced, region-Advanced,
}

-- The ends of an activation of a kind.
unfoldable pub ends : Plan → Kind → ℕ → ℕ → Bool
ends plan perfect_kind = ends_of plan.perfect_closure
ends plan late_kind = ends_of plan.late_closure

-- The ends of the regions of the section that starts at a note.
unfoldable pub region_ends : Plan → ℕ → ℕ → Bool
region_ends plan section_start e =
    plan.use_forced_great_timing && (plan.region_entries section_start (λ i. false, 0)).0 e

-- The activations of a state that is not the start.
unfoldable pub state_activations : Plan → ℕ → Kind → ℕ → Bool
state_activations plan state perfect_kind j = in_runs plan.n state plan.perfect_runs j
state_activations plan state late_kind j =
    plan.use_forced_great_timing && in_runs plan.n state plan.late_runs j

-- The activations of the first section.
unfoldable pub first_activations : Plan → List (ℕ × Bool) → Kind → ℕ → Bool
first_activations plan [] k j = false
first_activations plan ((fill, forced) ∷ actions) perfect_kind j =
    (ltb j plan.n && fill == j) || first_activations plan actions perfect_kind j
first_activations plan ((fill, forced) ∷ actions) late_kind j =
    (ltb j plan.n && plan.use_forced_great_timing && forced && fill == j)
    || first_activations plan actions late_kind j

-- The marks of a plan's closures do not depend on what is marked.
pub record IsMarked (plan : Plan) : Type 0 where
  pub perfect_marks : IsMarking plan.perfect_closure (ends_of plan.perfect_closure)
  pub late_marks : IsMarking plan.late_closure (ends_of plan.late_closure)
  pub region_marks :
      (section_start : ℕ) (marked : (ℕ → Bool) × ℕ) (e : ℕ)
      → (plan.region_entries section_start marked).0 e
        ≡ (marked.0 e || (plan.region_entries section_start (λ i. false, 0)).0 e)

module _ (plan : Plan) (marked : IsMarked plan) where
  abbrev pub Lanes : Prepass → Type 0
  Lanes p = (k : Kind) → IsLane plan.n (ends plan k) (lane k p)

  abbrev pub Steps : (Kind → ℕ → Bool) → (ℕ → Bool) → Prepass → Prepass → Type 1
  Steps = Advanced plan.n (ends plan)

  perfect_first :
      (fill : ℕ) (p : Prepass)
      → Lanes p
      → fill < plan.n
      → (p' : Prepass) × (in_perfect (λ l. close_first plan.n plan.perfect_closure l fill) p
          ≡ some p')
        × Steps (only perfect_kind (λ j. fill == j)) (λ e. false) p p'
  unfolding ends
  perfect_first fill p v lt =
      let (l, made, w) =
        close_first-Worked plan.n plan.perfect_closure (ends plan perfect_kind) marked.perfect_marks
          (lane perfect_kind p) fill (v perfect_kind) lt in
      in_perfect-Advanced plan.n (ends plan) (λ l. close_first plan.n plan.perfect_closure l fill) p
        l (λ j. fill == j) v made w

  late_first :
      (fill : ℕ) (p : Prepass)
      → Lanes p
      → fill < plan.n
      → (p' : Prepass) × (in_late (λ l. close_first plan.n plan.late_closure l fill) p ≡ some p')
        × Steps (only late_kind (λ j. fill == j)) (λ e. false) p p'
  unfolding ends
  late_first fill p v lt =
      let (l, made, w) =
        close_first-Worked plan.n plan.late_closure (ends plan late_kind) marked.late_marks
          (lane late_kind p) fill (v late_kind) lt in
      in_late-Advanced plan.n (ends plan) (λ l. close_first plan.n plan.late_closure l fill) p l
        (λ j. fill == j) v made w

  perfect_runs_lem :
      (state : ℕ) (p : Prepass)
      → Lanes p
      → (p' : Prepass) × (in_perfect
            (close_runs plan.n plan.perfect_closure state plan.perfect_runs)
            p
          ≡ some p')
        × Steps (only perfect_kind (in_runs plan.n state plan.perfect_runs)) (λ e. false) p p'
  unfolding ends
  perfect_runs_lem state p v =
      let (l, made, w) =
        close_runs-Worked plan.n plan.perfect_closure (ends plan perfect_kind) marked.perfect_marks
          state plan.perfect_runs (lane perfect_kind p) (v perfect_kind) in
      in_perfect-Advanced plan.n (ends plan)
        (close_runs plan.n plan.perfect_closure state plan.perfect_runs) p l _ v made w

  late_runs_lem :
      (state : ℕ) (p : Prepass)
      → Lanes p
      → (p' : Prepass) × (in_late (close_runs plan.n plan.late_closure state plan.late_runs) p
          ≡ some p')
        × Steps (only late_kind (in_runs plan.n state plan.late_runs)) (λ e. false) p p'
  unfolding ends
  late_runs_lem state p v =
      let (l, made, w) =
        close_runs-Worked plan.n plan.late_closure (ends plan late_kind) marked.late_marks state
          plan.late_runs (lane late_kind p) (v late_kind) in
      in_late-Advanced plan.n (ends plan) (close_runs plan.n plan.late_closure state plan.late_runs)
        p l _ v made w

  pub in_region_lem :
      (section_start : ℕ) (p : Prepass)
      → Lanes p
      → plan.use_forced_great_timing ≡ true
      → Steps (λ k j. false) (region_ends plan section_start) p (in_region plan section_start p)
  unfolding region_ends
  in_region_lem section_start p v forced =
      region-Advanced plan.n (ends plan) p (in_region plan section_start p)
        (region_ends plan section_start) v refl refl
        (λ e. rw forced (marked.region_marks section_start (p.reachable, p.max_eg_width) e))

  runs_forced :
      (state : ℕ) (k : Kind) (j : ℕ)
      → plan.use_forced_great_timing ≡ true
      → state_activations plan state k j ≡ (
          only perfect_kind (in_runs plan.n state plan.perfect_runs) k j
          || only late_kind (in_runs plan.n state plan.late_runs) k j)
  unfolding state_activations only
  runs_forced state perfect_kind j forced = ground arith
  runs_forced state late_kind j forced = rw forced refl

  runs_plain :
      (state : ℕ) (k : Kind) (j : ℕ)
      → plan.use_forced_great_timing ≡ false
      → state_activations plan state k j
        ≡ (only perfect_kind (in_runs plan.n state plan.perfect_runs) k j || false)
  unfolding state_activations only
  runs_plain state perfect_kind j plain = ground arith
  runs_plain state late_kind j plain = rw plain refl

  pub regions_plain :
      (section_start e : ℕ)
      → plan.use_forced_great_timing ≡ false
      → region_ends plan section_start e ≡ false
  unfolding region_ends
  regions_plain section_start e plain = rw plain refl

  pub skip_visit :
      (state : ℕ) (p : Prepass) → p.reachable state ≡ false → visit plan state p ≡ some p
  unfolding visit
  skip_visit state p at = rw (visit, at) refl

  plain_visit :
      (state : ℕ) (p p1 : Prepass)
      → p.reachable state ≡ true
      → plan.use_forced_great_timing ≡ false
      → in_perfect (close_runs plan.n plan.perfect_closure state plan.perfect_runs) p ≡ some p1
      → visit plan state p ≡ some p1
  unfolding visit
  plain_visit state p p1 at plain made = rw (visit, at, made, ◌>>=◌, plain) refl

  forced_visit :
      (state : ℕ) (p p1 p2 : Prepass)
      → p.reachable state ≡ true
      → plan.use_forced_great_timing ≡ true
      → in_perfect (close_runs plan.n plan.perfect_closure state plan.perfect_runs) p ≡ some p1
      → in_late (close_runs plan.n plan.late_closure state plan.late_runs) p1 ≡ some p2
      → visit plan state p ≡ some (in_region plan (suc state) p2)
  unfolding visit
  forced_visit state p p1 p2 at forced made1 made2 =
      rw (visit, at, made1, ◌>>=◌, forced, made2) refl

  -- A reachable state's visit closes its activations and marks its regions.
  pub visit_lem :
      (state : ℕ) (p : Prepass)
      → Lanes p
      → p.reachable state ≡ true
      → (p' : Prepass) × (visit plan state p ≡ some p')
        × Steps (state_activations plan state) (region_ends plan (suc state)) p p'
  visit_lem state p v at =
      let (p1, made1, w1) = perfect_runs_lem state p v in
      elim (Bool-cases plan.use_forced_great_timing) [
        | inr plain ↦ (
          p1,
          plain_visit state p p1 at plain made1,
          both-Advanced plan.n (ends plan)
              (only perfect_kind (in_runs plan.n state plan.perfect_runs)) (λ k j. false)
              (state_activations plan state) (λ e. false) (λ e. false)
              (region_ends plan (suc state)) p p1 p1 (λ k j. runs_plain state k j plain)
              (λ e. regions_plain (suc state) e plain) w1
              (unchanged-Advanced plan.n (ends plan) p1 w1.after),
        )
        | inl forced ↦
            let (p2, made2, w2) = late_runs_lem state p1 w1.after in
            (
              in_region plan (suc state) p2,
              forced_visit state p p1 p2 at forced made1 made2,
              both-Advanced plan.n (ends plan) (state_activations plan state) (λ k j. false)
                  (state_activations plan state) (λ e. false) (region_ends plan (suc state))
                  (region_ends plan (suc state)) p p2 (in_region plan (suc state) p2)
                  (λ k j. ground arith) (λ e. refl)
                  (both-Advanced plan.n (ends plan)
                    (only perfect_kind (in_runs plan.n state plan.perfect_runs))
                    (only late_kind (in_runs plan.n state plan.late_runs))
                    (state_activations plan state) (λ e. false) (λ e. false) (λ e. false) p p1 p2
                    (λ k j. runs_forced state k j forced) (λ e. refl) w1 w2)
                  (in_region_lem (suc state) p2 w2.after forced),
            )
      ]

  fills_forced :
      (fill : ℕ) (actions : List (ℕ × Bool)) (forced : Bool) (k : Kind) (j : ℕ)
      → fill < plan.n
      → (plan.use_forced_great_timing && forced) ≡ true
      → first_activations plan ((fill, forced) ∷ actions) k j ≡ (
          (only perfect_kind (λ i. fill == i) k j || only late_kind (λ i. fill == i) k j)
          || first_activations plan actions k j)
  unfolding first_activations only
  fills_forced fill actions forced perfect_kind j lt both = ground (arith, lt)
  fills_forced fill actions forced late_kind j lt both = ground (arith, lt, both)

  fills_plain :
      (fill : ℕ) (actions : List (ℕ × Bool)) (forced : Bool) (k : Kind) (j : ℕ)
      → fill < plan.n
      → (plan.use_forced_great_timing && forced) ≡ false
      → first_activations plan ((fill, forced) ∷ actions) k j
        ≡ (only perfect_kind (λ i. fill == i) k j || first_activations plan actions k j)
  unfolding first_activations only
  fills_plain fill actions forced perfect_kind j lt plain = ground (arith, lt)
  fills_plain fill actions forced late_kind j lt plain = ground (arith, lt, plain)

  fills_beyond :
      (fill : ℕ) (actions : List (ℕ × Bool)) (forced : Bool) (k : Kind) (j : ℕ)
      → plan.n ≤ fill
      → first_activations plan ((fill, forced) ∷ actions) k j
        ≡ (false || first_activations plan actions k j)
  unfolding first_activations
  fills_beyond fill actions forced perfect_kind j le = ground (arith, le)
  fills_beyond fill actions forced late_kind j le = ground (arith, le)

  -- The first section's actions end, and close its activations.
  pub first_actions_lem :
      (actions : List (ℕ × Bool)) (p : Prepass)
      → Lanes p
      → (p' : Prepass) × (first_actions plan actions p ≡ some p')
        × Steps (first_activations plan actions) (λ e. false) p p'
  unfolding first_actions first_activations
  first_actions_lem [] p v = (p, refl, unchanged-Advanced plan.n (ends plan) p v)
  first_actions_lem ((fill, forced) ∷ actions) p v = elim (leb-cases plan.n fill) [
    | inl beyond ↦
        let (p', made, w) = first_actions_lem actions p v in
        (
          p',
          rw (first_actions, beyond.0) made,
          both-Advanced plan.n (ends plan) (λ k j. false) (first_activations plan actions)
              (first_activations plan ((fill, forced) ∷ actions)) (λ e. false) (λ e. false)
              (λ e. false) p p p' (λ k j. fills_beyond fill actions forced k j beyond.1) (λ e. refl)
              (unchanged-Advanced plan.n (ends plan) p v) w,
        )
    | inr before ↦
        let (p1, made1, w1) = perfect_first fill p v before.1 in
        elim (Bool-cases (plan.use_forced_great_timing && forced)) [
          | inr plain ↦
              let (p', made, w) = first_actions_lem actions p1 w1.after in
              (
                p',
                rw (first_actions, before.0, made1, ◌>>=◌, plain) made,
                both-Advanced plan.n (ends plan) (only perfect_kind (λ j. fill == j))
                    (first_activations plan actions)
                    (first_activations plan ((fill, forced) ∷ actions)) (λ e. false) (λ e. false)
                    (λ e. false) p p1 p' (λ k j. fills_plain fill actions forced k j before.1 plain)
                    (λ e. refl) w1 w,
              )
          | inl both ↦
              let (p2, made2, w2) = late_first fill p1 w1.after before.1 in
              let (p', made, w) = first_actions_lem actions p2 w2.after in
              (
                p',
                rw (first_actions, before.0, made1, ◌>>=◌, both, made2) made,
                both-Advanced plan.n (ends plan)
                    (λ k j.
                      only perfect_kind (λ i. fill == i) k j || only late_kind (λ i. fill == i) k j)
                    (first_activations plan actions)
                    (first_activations plan ((fill, forced) ∷ actions)) (λ e. false) (λ e. false)
                    (λ e. false) p p2 p' (λ k j. fills_forced fill actions forced k j before.1 both)
                    (λ e. refl)
                    (both-Advanced plan.n (ends plan) (only perfect_kind (λ j. fill == j))
                      (only late_kind (λ j. fill == j))
                      (λ k j.
                        only perfect_kind (λ i. fill == i) k j
                        || only late_kind (λ i. fill == i) k j)
                      (λ e. false) (λ e. false) (λ e. false) p p1 p2 (λ k j. refl) (λ e. refl) w1
                      w2)
                    w,
              )
        ]
  ]
