-- ===== src/Reach/Forward.antt =====
-- A song's fevers end after their activations, so a state's visit marks later notes only.
use ro_beats_calculator_engi.Common.{
  ℕ, suc, ◌≤◌, ◌<◌, ◌≡◌, refl, sym, subst, ◌∙◌, min, max, Bool, true, false, not, ◌&&◌, none, some,
  List, [], ◌∷◌, leb, if◌then◌else◌, inl, inr, arith, Bool-cases, Option-cases, All,
}
use mathlib.Core.Option.{some-injective}
use ro_beats_calculator_engi.Ends.{
  Core, RunEdge, clamped_end_idx, perfect_e, perfect_eg_e, late_edge_extends,
  region_run_edge_from_core,
}
use ro_beats_calculator_engi.Reach.{
  ActivationEnds, Arrays, plan_of, Plan, song_plan, mark_range, mark_early_great_reachable_from_hit,
  mark_perfect_activation_closure, late_extends, mark_late_activation_closure, mark_region_edge,
  mark_region_entries,
}
use ro_beats_calculator_engi.Reach.Lanes.{in_runs, or-cases}
use ro_beats_calculator_engi.Reach.Marks.{ends_of, mark_regions_lem}
use ro_beats_calculator_engi.Reach.States.{Kind, perfect_kind, late_kind}
use ro_beats_calculator_engi.Reach.Visits.{ends, region_ends, state_activations}
use ro_beats_calculator_engi.Reach.Closure.{IsForward}

-- In the tables, no fever ends before or at its activation.
pub record IsAfter {Hit : Type 0} (table : ActivationEnds Hit) : Type 0 where
  pub perfect_exits : (a : ℕ) → a < table.perfect_exit_e a
  pub late_exits : (a : ℕ) → a < table.late_exit_e a
  pub perfect_ends : (a e : ℕ) → table.perfect_e a ≡ some e → a < e
  pub late_ends : (a e : ℕ) → table.late_e a ≡ some e → a < e

-- The regions of a section activate in it and before note n.
abbrev pub InSection : ℕ → ℕ → ℕ × Core → Type 0
InSection n section_start (offset, core) = (section_start ≤ core.activation) × (core.activation < n)

module _ {Hit : Type 0} (n : ℕ) (table : ActivationEnds Hit) (floor_before : Hit → ℕ → Bool)
    (after : IsAfter table) where
  early_after :
      (lo base a : ℕ) (hit : Hit) (e : ℕ)
      → a < lo
      → a < base
      → (mark_early_great_reachable_from_hit n table floor_before
            (mark_range (λ i. false) lo base)
            a
            base
            hit).0
          e
        ≡ true
      → a < e
  unfolding mark_early_great_reachable_from_hit
  early_after lo base a hit e lt lt' = elim (Bool-cases (leb n a)) [
    | inl t ↦ rw t (λ h. ground arith)
    | inr t ↦ rw t (λ h. ground arith)
  ]

  perfect_after :
      (a e : ℕ) → ends_of (mark_perfect_activation_closure n table floor_before) a e ≡ true → a < e
  unfolding ends_of mark_perfect_activation_closure
  perfect_after a e = elim (Bool-cases (table.perfect_valid a)) [
    | inr t ↦ rw (ends_of, mark_perfect_activation_closure, t) (λ h. ground arith)
    | inl t ↦ elim (Option-cases (table.perfect_e a)) [
      | inl m ↦ rw (ends_of, mark_perfect_activation_closure, t, m) (λ h. ground arith)
      | inr m ↦
          rw (ends_of, mark_perfect_activation_closure, t, m.1)
            (early_after (min (table.perfect_exit_e a) m.0) m.0 a (table.perfect_hit a) e
              (omega (arith, after.perfect_exits a, after.perfect_ends a m.0 m.1))
              (after.perfect_ends a m.0 m.1))
    ]
  ]

  late_after :
      (a e : ℕ) → ends_of (mark_late_activation_closure n table floor_before) a e ≡ true → a < e
  unfolding ends_of mark_late_activation_closure
  late_after a e = elim (Bool-cases (late_extends n table floor_before a)) [
    | inr t ↦ rw (ends_of, mark_late_activation_closure, late_extends, t) (λ h. ground arith)
    | inl t ↦ elim (Option-cases (if table.late_valid a then table.late_e a else none)) [
      | inl m ↦ rw (ends_of, mark_late_activation_closure, late_extends, t, m) (λ h. ground arith)
      | inr m ↦
          rw (ends_of, mark_late_activation_closure, late_extends, t, m.1)
            (early_after (min (table.late_exit_e a) m.0) m.0 a (table.late_hit a) e
              (omega (arith, after.late_exits a, late_end a m.0 m.1)) (late_end a m.0 m.1))
    ]
  ]
    where
      late_end :
          (i end_e : ℕ)
          → (if table.late_valid i then table.late_e i else none) ≡ some end_e
          → i < end_e
      late_end i end_e = elim (Bool-cases (table.late_valid i)) [
        | inl t ↦ rw t (after.late_ends i end_e)
        | inr t ↦ rw t (λ h. ground (arith, h))
      ]

  module _ (perfect_end_by_hit great_end_by_hit : ℕ → ℕ) where
    clamped_after : (a raw : ℕ) → a < n → a < clamped_end_idx n a raw
    unfolding clamped_end_idx
    clamped_after a raw lt = ground (arith, lt)

    record IsAfterCore (a : ℕ) (edge : RunEdge) : Type 0 where
      same : edge.activation ≡ a
      ends_after : (e : ℕ) → edge.edge_e ≡ some e → a < e
      no_reach : edge.edge_e ≡ none → edge.eg_e ≡ none

    plain_after :
        (core : Core) (edge : RunEdge)
        → core.activation < n
        → edge.activation ≡ core.activation
        → edge.edge_e ≡ perfect_e n perfect_end_by_hit great_end_by_hit core
        → edge.eg_e ≡ perfect_eg_e n perfect_end_by_hit great_end_by_hit core
        → IsAfterCore core.activation edge
    plain_after core edge lt at ends_at reach_at = elim (Bool-cases core.perfect_valid) [
      | inl t ↦ record {
        same = at;
        ends_after = λ e h.
            subst (λ i. core.activation < i)
              (some-injective _ _ (sym (plain_end t) ∙ sym ends_at ∙ h))
              (clamped_after core.activation _ lt);
        no_reach = λ h. absurd (ground (arith, sym (plain_end t) ∙ sym ends_at ∙ h));
      }
      | inr t ↦ record {
        same = at;
        ends_after = λ e h. absurd (ground (arith, sym (no_end t) ∙ sym ends_at ∙ h));
        no_reach = λ h. reach_at ∙ no_reach_at t;
      }
    ]
      where
        plain_end :
            core.perfect_valid ≡ true
            → perfect_e n perfect_end_by_hit great_end_by_hit core
              ≡ some (clamped_end_idx n core.activation (perfect_end_by_hit core.perfect_hit_id))
        plain_end t = rw t refl

        no_end :
            core.perfect_valid ≡ false → perfect_e n perfect_end_by_hit great_end_by_hit core ≡ none
        no_end t = rw t refl

        no_reach_at :
            core.perfect_valid ≡ false
            → perfect_eg_e n perfect_end_by_hit great_end_by_hit core ≡ none
        no_reach_at t = rw t refl

    late_core_after :
        (a : ℕ) (edge : RunEdge) (raw : ℕ)
        → a < n
        → edge.activation ≡ a
        → edge.edge_e ≡ some (clamped_end_idx n a raw)
        → IsAfterCore a edge
    late_core_after a edge raw lt at ends_at = record {
      same = at;
      ends_after =
          λ e h. subst (λ i. a < i) (some-injective _ _ (sym ends_at ∙ h)) (clamped_after a raw lt);
      no_reach = λ h. absurd (ground (arith, sym ends_at ∙ h));
    }

    -- An edge starts at its core's activation, and ends after it or has no reach.
    edge_after :
        (section_start offset : ℕ) (core : Core) (edge : RunEdge)
        → core.activation < n
        → region_run_edge_from_core n perfect_end_by_hit great_end_by_hit section_start offset core
          ≡ some edge
        → IsAfterCore core.activation edge
    unfolding region_run_edge_from_core
    edge_after section_start offset core edge lt = elim (Bool-cases core.valid) [
      | inr t ↦ rw (region_run_edge_from_core, t) (λ h. ground (arith, h))
      | inl t ↦ elim (Bool-cases core.is_great) [
        | inr plain ↦
            rw (region_run_edge_from_core, t, plain)
              (λ h.
                subst (IsAfterCore core.activation) (some-injective _ _ h)
                  (plain_after core _ lt refl refl refl))
        | inl great ↦
            elim (Bool-cases (
              core.perfect_valid
              && not (
                  late_edge_extends (perfect_e n perfect_end_by_hit great_end_by_hit core)
                    (some (
                      clamped_end_idx n core.activation
                        (perfect_end_by_hit core.activation_hit_id)))
                    (some
                      (clamped_end_idx n core.activation (great_end_by_hit core.activation_hit_id)))
                    (perfect_eg_e n perfect_end_by_hit great_end_by_hit core)))) [
                      | inl skip ↦
                          rw (region_run_edge_from_core, t, great, skip) (λ h. ground (arith, h))
                      | inr take ↦
                          rw (region_run_edge_from_core, t, great, take)
                            (λ h.
                              subst (IsAfterCore core.activation) (some-injective _ _ h)
                                (late_core_after core.activation _ _ lt refl refl))
                    ]
      ]
    ]

    marked_after :
        (edge : RunEdge) (e : ℕ)
        → edge.activation < n
        → ((i : ℕ) → edge.edge_e ≡ some i → edge.activation < i)
        → (edge.edge_e ≡ none → edge.eg_e ≡ none)
        → (mark_region_edge n table floor_before perfect_end_by_hit great_end_by_hit
              (λ i. false)
              edge).0
            e
          ≡ true
        → edge.activation < e
    unfolding mark_region_edge
    marked_after edge e lt ends_after no_reach = elim (Option-cases edge.edge_e) [
      | inl m ↦ rw (m, no_reach m) (λ h. ground arith)
      | inr m ↦ elim (Option-cases edge.eg_e) [
        | inl g ↦ rw (m.1, g) (λ h. ground arith)
        | inr g ↦ elim (Option-cases edge.activation_great) [
          | inl k ↦
              rw (m.1, g.1, k)
                (λ h. ground (arith, after.perfect_exits edge.activation, ends_after m.0 m.1, h))
          | inr k ↦
              rw (m.1, g.1, k.1)
                (λ h. ground (arith, after.late_exits edge.activation, ends_after m.0 m.1, h))
        ]
      ]
    ]

    regions_after :
        (section_start : ℕ) (cores : List (ℕ × Core)) (e : ℕ)
        → All (InSection n section_start) cores
        → (mark_region_entries n table floor_before perfect_end_by_hit great_end_by_hit
              section_start cores
              (λ i. false, 0)).0
            e
          ≡ true
        → section_start < e
    unfolding mark_region_entries
    regions_after section_start [] e inside = λ h. absurd (ground (arith, h))
    regions_after section_start ((offset, core) ∷ cores) e ((after_start, lt), inside) =
        elim (Option-cases (
          region_run_edge_from_core n perfect_end_by_hit great_end_by_hit section_start offset
            core)) [
              | inl m ↦ rw (mark_region_entries, m) (regions_after section_start cores e inside)
              | inr m ↦
                  let made = edge_after section_start offset core m.0 lt m.1 in
                  let alone =
                    mark_region_edge n table floor_before perfect_end_by_hit great_end_by_hit
                      (λ i. false) m.0 in
                  rw (mark_region_entries, m.1)
                    (λ h.
                      elim (or-cases (alone.0 e) _ (
                        sym (
                          mark_regions_lem n table floor_before perfect_end_by_hit great_end_by_hit
                            section_start cores (alone.0, max 0 alone.1) e)
                        ∙ h)) [
                          | inl own ↦ omega (
                            arith,
                            after_start,
                            made.same,
                            marked_after m.0 e (omega (arith, lt, made.same))
                                (λ i at. omega (arith, made.ends_after i at, made.same))
                                made.no_reach own,
                          )
                          | inr rest ↦ regions_after section_start cores e inside rest
                        ])
            ]

and_right : (x y : Bool) → (x && y) ≡ true → y ≡ true
and_right true y h = h
and_right false y h = absurd (ground (arith, h))

in_runs_after :
    (n state : ℕ) (runs : List (ℕ × ℕ)) (j : ℕ) → in_runs n state runs j ≡ true → state ≤ j
unfolding in_runs
in_runs_after n state [] j h = absurd (ground (arith, h))
in_runs_after n state ((run_start, run_end) ∷ runs) j h =
    elim (or-cases _ (in_runs n state runs j) h) [
      | inl here ↦ ground (arith, here)
      | inr later ↦ in_runs_after n state runs j later
    ]

module _ {Hit : Type 0} (n : ℕ) (table : ActivationEnds Hit) (floor_before : Hit → ℕ → Bool)
    (perfect_end_by_hit great_end_by_hit : ℕ → ℕ) (cores : ℕ → List (ℕ × Core)) (forced : Bool)
    (a : Arrays) (after : IsAfter table) (inside : (s : ℕ) → All (InSection n s) (cores s)) where
  abbrev plan : Plan
  plan = plan_of (song_plan n table floor_before perfect_end_by_hit great_end_by_hit cores forced) a

  pub song_plan-IsForward :
      IsForward (
        plan_of (song_plan n table floor_before perfect_end_by_hit great_end_by_hit cores forced) a)
  unfolding ends state_activations region_ends
  song_plan-IsForward = record {
    activation_ends = activation_after;
    later_region_ends = region_after;
  }
    where
      activation_after :
          (k : Kind) (s j e : ℕ)
          → state_activations plan s k j ≡ true
          → ends plan k j e ≡ true
          → s < e
      activation_after perfect_kind s j e q own = omega (
        arith,
        in_runs_after n s plan.perfect_runs j q,
        perfect_after n table floor_before after j e own,
      )
      activation_after late_kind s j e q own = omega (
        arith,
        in_runs_after n s plan.late_runs j (and_right forced _ q),
        late_after n table floor_before after j e own,
      )

      region_after : (s e : ℕ) → region_ends plan (suc s) e ≡ true → s < e
      region_after s e q = omega (
        arith,
        regions_after n table floor_before after perfect_end_by_hit great_end_by_hit (suc s)
            (cores (suc s)) e (inside (suc s)) (and_right forced _ q),
      )
