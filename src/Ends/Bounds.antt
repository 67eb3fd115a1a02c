-- ===== src/Ends/Bounds.antt =====
-- The binary search is the first index at or after the needle, and ends are in the chart.
use ro_beats_calculator_engi.Common.{
  ℕ, zero, suc, ◌+◌, ◌/◌, ◌≤◌, ◌<◌, ◌≡◌, ◌↔◌, refl, Bool, true, false, none, some, ltb, arith,
  Bool-cases, ltb-cases, inl, inr,
}
use ro_beats_calculator_engi.Ends.{
  lower_bound_between, lower_bound_from, clamped_end_idx, late_edge_extends, Core,
  region_run_edge_from_core,
}

-- The first index that is not before the needle, or the end.
pub record IsLowerBound (before : ℕ → Bool) (lo hi at : ℕ) : Type 0 where
  pub from : lo ≤ at
  pub until : at ≤ hi
  pub below : (i : ℕ) → lo ≤ i → i < at → before i ≡ true
  pub above : (i : ℕ) → at ≤ i → i < hi → before i ≡ false

lower_bound_between-IsLowerBound :
    (fuel : ℕ) (before : ℕ → Bool) (lo hi : ℕ)
    → ((i j : ℕ) → i ≤ j → before j ≡ true → before i ≡ true)
    → lo ≤ hi
    → hi ≤ fuel + lo
    → (at : ℕ) × (lower_bound_between fuel before lo hi ≡ some at) × IsLowerBound before lo hi at
unfolding lower_bound_between
lower_bound_between-IsLowerBound zero before lo hi mono le enough =
    let stop : ltb lo hi ≡ false = ground (arith, le, enough) in
    (
      lo,
      rw stop refl,
      record {
        from = omega arith;
        until = le;
        below = λ i h k. absurd (omega (arith, h, k));
        above = λ i h k. absurd (omega (arith, h, k, enough));
      },
    )
lower_bound_between-IsLowerBound (suc fuel) before lo hi mono le enough =
    let mid = (lo + hi) / 2 in
    elim (ltb-cases lo hi) [
      | inr (t, stop) ↦ (
        lo,
        rw t refl,
        record {
          from = omega arith;
          until = le;
          below = λ i h k. absurd (omega (arith, h, k));
          above = λ i h k. absurd (omega (arith, h, k, stop));
        },
      )
      | inl (t, more) ↦ elim (Bool-cases (before mid)) [
        | inl b ↦
            let (at, made, v) =
              lower_bound_between-IsLowerBound fuel before (mid + 1) hi mono (omega (arith, more))
                (omega (arith, more, enough)) in
            (
              at,
              rw (t, b) made,
              record {
                from = omega (arith, v.from, more);
                until = v.until;
                below = λ i h k. elim (ltb-cases mid i) [
                  | inl right ↦ v.below i (omega (arith, right)) k
                  | inr left ↦ mono i mid left.1 b
                ];
                above = v.above;
              },
            )
        | inr b ↦
            let (at, made, v) =
              lower_bound_between-IsLowerBound fuel before lo mid mono (omega (arith, more))
                (omega (arith, more, enough)) in
            (
              at,
              rw (t, b) made,
              record {
                from = v.from;
                until = omega (arith, v.until, more);
                below = v.below;
                above = λ i h k. elim (ltb-cases i mid) [
                  | inl left ↦ v.above i h left.1
                  | inr right ↦ ground (arith, mono mid i right.1, b)
                ];
              },
            )
      ]
    ]

-- For timestamps in order, so that the indices before the needle come first, the binary search ends
-- within one step per index, at the first index that is not before the needle, or at the end.
pub lower_bound_from-IsLowerBound :
    (count : ℕ) (before : ℕ → Bool)
    → ((i j : ℕ) → i ≤ j → before j ≡ true → before i ≡ true)
    → (at : ℕ) × (lower_bound_from count before ≡ some at) × IsLowerBound before 0 count at
lower_bound_from-IsLowerBound count before mono =
    lower_bound_between-IsLowerBound count before 0 count mono (omega arith) (omega arith)

clamped_end_idx_lem :
    (n a raw : ℕ) → a < n → (a < clamped_end_idx n a raw) × (clamped_end_idx n a raw ≤ n)
unfolding clamped_end_idx
clamped_end_idx_lem n a raw h = ground (arith, h)

module _ (n : ℕ) (perfect_end_by_hit great_end_by_hit : ℕ → ℕ) (section_start offset : ℕ)
    (core : Core) where
  abbrev pub late_e : ℕ
  late_e = clamped_end_idx n core.activation (perfect_end_by_hit core.activation_hit_id)

  abbrev pub late_eg_e : ℕ
  late_eg_e = clamped_end_idx n core.activation (great_end_by_hit core.activation_hit_id)

  abbrev pub edge_perfect_e : ℕ
  edge_perfect_e = clamped_end_idx n core.activation (perfect_end_by_hit core.perfect_hit_id)

  abbrev pub edge_perfect_eg_e : ℕ
  edge_perfect_eg_e = clamped_end_idx n core.activation (great_end_by_hit core.perfect_hit_id)

  -- The edge of a valid run whose activation is a Great, and in the chart, and that a Perfect hit could
  -- also activate, is dropped exactly if the Great's fever neither ends after the Perfect's nor reaches further by
  -- early Greats; both fevers hold their activation and end in the chart.
  pub region_run_edge_from_core-late_e :
      core.valid ≡ true
      → core.is_great ≡ true
      → core.perfect_valid ≡ true
      → core.activation < n
      → ((region_run_edge_from_core n perfect_end_by_hit great_end_by_hit section_start offset core
            ≡ none)
          ↔ ((late_e ≤ edge_perfect_e) × (late_eg_e ≤ edge_perfect_eg_e)))
        × (core.activation < late_e)
        × (late_e ≤ n)
        × (core.activation < edge_perfect_e)
        × (edge_perfect_e ≤ n)
  unfolding region_run_edge_from_core late_edge_extends
  region_run_edge_from_core-late_e v g p h =
      let late =
        clamped_end_idx_lem n core.activation (perfect_end_by_hit core.activation_hit_id) h in
      let perfect =
        clamped_end_idx_lem n core.activation (perfect_end_by_hit core.perfect_hit_id) h in
      (rw (v, g, p) (ground arith), late.0, late.1, perfect.0, perfect.1)
