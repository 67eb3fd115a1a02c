-- ===== src/Reach/Marks.antt =====
-- The marks of a closure or of a section's regions do not depend on what is marked already.
use ro_beats_calculator_engi.Common.{
  ℕ, ◌≡◌, min, max, Bool, false, ◌&&◌, ◌||◌, none, List, [], ◌∷◌, leb, if◌then◌else◌, inl, inr,
  arith, Bool-cases, Option-cases,
}
use ro_beats_calculator_engi.Ends.{Core, RunEdge, region_run_edge_from_core}
use ro_beats_calculator_engi.Reach.{
  ActivationEnds, Marked, mark_range, mark_early_great_reachable_from_hit,
  mark_perfect_activation_closure, late_extends, mark_late_activation_closure, mark_region_edge,
  mark_region_entries,
}
use ro_beats_calculator_engi.Reach.Lanes.{IsMarking}

-- The ends that a closure marks for an activation.
unfoldable pub ends_of : ((ℕ → Bool) → ℕ → Marked) → ℕ → ℕ → Bool
ends_of closure activation e = (closure (λ i. false) activation).0 e

mark_range_lem :
    (r : ℕ → Bool) (lo hi e : ℕ) → mark_range r lo hi e ≡ (r e || mark_range (λ i. false) lo hi e)
mark_range_lem r lo hi e = elim (Bool-cases (leb lo e && leb e hi)) [
  | inl t ↦ rw t (ground arith)
  | inr t ↦ rw t (ground arith)
]

range_twice :
    (r : ℕ → Bool) (lo hi lo' hi' e : ℕ)
    → mark_range (mark_range r lo hi) lo' hi' e
      ≡ (r e || mark_range (mark_range (λ i. false) lo hi) lo' hi' e)
range_twice r lo hi lo' hi' e = ground (
  arith,
  mark_range_lem (mark_range r lo hi) lo' hi' e,
  mark_range_lem (mark_range (λ i. false) lo hi) lo' hi' e,
  mark_range_lem r lo hi e,
)

module _ {Hit : Type 0} (n : ℕ) (ends : ActivationEnds Hit) (floor_before : Hit → ℕ → Bool) where
  mark_early_lem :
      (r : ℕ → Bool) (a base : ℕ) (hit : Hit) (e : ℕ)
      → (mark_early_great_reachable_from_hit n ends floor_before r a base hit).0 e ≡ (
          r e
          || (mark_early_great_reachable_from_hit n ends floor_before (λ i. false) a base hit).0 e)
  unfolding mark_early_great_reachable_from_hit
  mark_early_lem r a base hit e = elim (Bool-cases (leb n a)) [
    | inl t ↦ rw t (ground arith)
    | inr t ↦ rw t (mark_range_lem r _ _ e)
  ]

  both_marks :
      (r : ℕ → Bool) (lo hi a base : ℕ) (hit : Hit) (e : ℕ)
      → (mark_early_great_reachable_from_hit n ends floor_before (mark_range r lo hi) a base hit).0
          e
        ≡ (r e
            || (mark_early_great_reachable_from_hit n ends floor_before
                  (mark_range (λ i. false) lo hi)
                  a
                  base
                  hit).0
                e)
  both_marks r lo hi a base hit e = ground (
    arith,
    mark_early_lem (mark_range r lo hi) a base hit e,
    mark_early_lem (mark_range (λ i. false) lo hi) a base hit e,
    mark_range_lem r lo hi e,
  )

  mark_perfect_lem :
      (r : ℕ → Bool) (a e : ℕ)
      → (mark_perfect_activation_closure n ends floor_before r a).0 e
        ≡ (r e || ends_of (mark_perfect_activation_closure n ends floor_before) a e)
  unfolding mark_perfect_activation_closure ends_of
  mark_perfect_lem r a e = elim (Bool-cases (ends.perfect_valid a)) [
    | inr t ↦ rw t (ground arith)
    | inl t ↦ elim (Option-cases (ends.perfect_e a)) [
      | inl m ↦ rw (t, m) (ground arith)
      | inr m ↦
          rw (ends_of, mark_perfect_activation_closure, t, m.1)
            (both_marks r (min (ends.perfect_exit_e a) m.0) m.0 a m.0 (ends.perfect_hit a) e)
    ]
  ]

  pub mark_perfect-IsMarking :
      IsMarking
        (mark_perfect_activation_closure n ends floor_before)
        (ends_of (mark_perfect_activation_closure n ends floor_before))
  mark_perfect-IsMarking = record { marks = mark_perfect_lem }

  mark_late_lem :
      (r : ℕ → Bool) (a e : ℕ)
      → (mark_late_activation_closure n ends floor_before r a).0 e
        ≡ (r e || ends_of (mark_late_activation_closure n ends floor_before) a e)
  unfolding mark_late_activation_closure ends_of
  mark_late_lem r a e = elim (Bool-cases (late_extends n ends floor_before a)) [
    | inr t ↦ rw t (ground arith)
    | inl t ↦ elim (Option-cases (if ends.late_valid a then ends.late_e a else none)) [
      | inl m ↦ rw (t, m) (ground arith)
      | inr m ↦
          rw (ends_of, mark_late_activation_closure, late_extends, t, m.1)
            (both_marks r (min (ends.late_exit_e a) m.0) m.0 a m.0 (ends.late_hit a) e)
    ]
  ]

  pub mark_late-IsMarking :
      IsMarking
        (mark_late_activation_closure n ends floor_before)
        (ends_of (mark_late_activation_closure n ends floor_before))
  mark_late-IsMarking = record { marks = mark_late_lem }

  module _ (perfect_end_by_hit great_end_by_hit : ℕ → ℕ) where
    mark_edge_lem :
        (r : ℕ → Bool) (edge : RunEdge) (e : ℕ)
        → (mark_region_edge n ends floor_before perfect_end_by_hit great_end_by_hit r edge).0 e ≡ (
            r e
            || (mark_region_edge n ends floor_before perfect_end_by_hit great_end_by_hit
                  (λ i. false)
                  edge).0
                e)
    unfolding mark_region_edge
    mark_edge_lem r edge e = elim (Option-cases edge.edge_e) [
      | inl m ↦ elim (Option-cases edge.eg_e) [
        | inl g ↦ rw (m, g) (mark_range_lem r n n e)
        | inr g ↦ rw (m, g.1) (range_twice r n n 0 g.0 e)
      ]
      | inr m ↦ elim (Option-cases edge.eg_e) [
        | inl g ↦ rw (m.1, g) (ground arith)
        | inr g ↦ rw (m.1, g.1) (mark_range_lem r _ _ e)
      ]
    ]

    -- The marks of a section's regions are the earlier marks and those of the regions on an empty array.
    pub mark_regions_lem :
        (section_start : ℕ) (cores : List (ℕ × Core)) (marked : Marked) (e : ℕ)
        → (mark_region_entries n ends floor_before perfect_end_by_hit great_end_by_hit section_start
              cores marked).0
            e
          ≡ (marked.0 e
              || (mark_region_entries n ends floor_before perfect_end_by_hit great_end_by_hit
                    section_start cores
                    (λ i. false, 0)).0
                  e)
    unfolding mark_region_entries
    mark_regions_lem section_start [] marked e = ground arith
    mark_regions_lem section_start ((offset, core) ∷ cores) marked e =
        elim (Option-cases (
          region_run_edge_from_core n perfect_end_by_hit great_end_by_hit section_start offset
            core)) [
              | inl m ↦ rw (mark_region_entries, m) (mark_regions_lem section_start cores marked e)
              | inr m ↦
                  let edge = m.0 in
                  let first =
                    mark_region_edge n ends floor_before perfect_end_by_hit great_end_by_hit
                      marked.0 edge in
                  let alone =
                    mark_region_edge n ends floor_before perfect_end_by_hit great_end_by_hit
                      (λ i. false) edge in
                  rw (mark_region_entries, m.1)
                    (ground (
                      arith,
                      mark_regions_lem section_start cores (first.0, max marked.1 first.1) e,
                      mark_regions_lem section_start cores (alone.0, max 0 alone.1) e,
                      mark_edge_lem marked.0 edge e,
                    ))
            ]
