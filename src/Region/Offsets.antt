-- ===== src/Region/Offsets.antt =====
-- What an offset of region 2 means for the bar, and for the note-by-note walk.
use ro_beats_calculator_engi.Common.{
  ℕ, ◌+◌, ◌-◌, ◌*◌, ◌≤◌, ◌<◌, ◌≡◌, ◌↔◌, refl, sym, ◌∙◌, true, false, none, some, ok, leb, ltb, ◌==◌,
  if◌then◌else◌, arith, inl, inr, Bool-cases,
}
use ro_beats_calculator_engi.Fill.{Denom, IsPositive, crossing_regions, server_fill_crossing_run}
use ro_beats_calculator_engi.Fill.Exact.{exact_crossing, off_edge}
use ro_beats_calculator_engi.Fill.Run.{run-exact_crossing, run-server_fill_crossing}
use ro_beats_calculator_engi.Fill.Units.{
  full_units, le-full_units, ceil_denom_bounds, ceil_twice_less_lem, ceil_less_half_bounds,
}
use ro_beats_calculator_engi.Fill.Walk.{Float64, run_placement, server_fill_crossing}
use ro_beats_calculator_engi.Region.{
  fill_crossing_run, region2_offset_for_count, region2_k_scan_stop,
}

-- The kernel's crossing is the walk with an exact bar over Perfects with a run of Greats, for every
-- positive denominator, section start, run and chart length.
fill_crossing_run-exact_crossing :
    (s g0 k : ℕ) (d : Denom) (n : ℕ)
    → IsPositive d
    → ok (fill_crossing_run s g0 k d n) ≡ exact_crossing (run_placement g0 k) d s n
unfolding fill_crossing_run server_fill_crossing_run crossing_regions
fill_crossing_run-exact_crossing s g0 k d n v = twin ∙ run-exact_crossing s g0 k d n v.den_pos
  where
    twin : ok (fill_crossing_run s g0 k d n) ≡ server_fill_crossing_run s g0 k d n
    twin =
        let nz : (d.num == 0) ≡ false = ground (arith, v.num_pos) in
        let lo = if ltb s g0 then g0 else s in
        let hi = if ltb (g0 + k) n then g0 + k else n in
        rw nz (elim (Bool-cases (leb hi lo)) [ inl t ↦ rw t refl | inr t ↦ rw t refl ])

-- The bar of a run after `x` Perfects of the section is full at its last Great, `count` notes on.
abbrev pub EndsFull : Denom → ℕ → ℕ → Type 0
EndsFull d x count = (2 * x + count < full_units d + 1) × (full_units d ≤ 2 * x + count)

module _ (d : Denom) (v : IsPositive d) (start count n : ℕ) where
  offset-EndsFull :
      (x : ℕ)
      → (region2_offset_for_count start count d n ≡ ok (some x))
        ↔ ((0 < count) × (1 ≤ x) × (start + x + count ≤ n) × EndsFull d x count)
  unfolding region2_offset_for_count
  offset-EndsFull x =
      let b = ceil_less_half_bounds d v 0 count in
      let b' = ceil_less_half_bounds d v 0 (count - 1) in
      let w = v.num_pos in let big = le-full_units d v (2 * n) in ground (arith, b, b', w, big)

  -- The bar is full at note start + x + count - 1, on a Great.
  walk-EndsFull :
      (x : ℕ)
      → 0 < count
      → 1 ≤ x
      → (server_fill_crossing_run start (start + x) count d n
          ≡ ok (some (start + x + count - 1), true))
        ↔ ((start + x + count ≤ n) × EndsFull d x count)
  unfolding server_fill_crossing_run crossing_regions
  walk-EndsFull x c h =
      let b1 = ceil_denom_bounds d v in
      let b2 = ceil_twice_less_lem d v x in
      let sub : start + x - start ≡ x = omega arith in
      let lo : ltb start (start + x) ≡ true = ground (arith, h) in
      let w = v.num_pos in rw (lo, sub) (ground (arith, b1, b2, w, c, h))

  -- A run of `count` Greats, `x` notes into a section, fills the bar with its last Great in the chart
  -- exactly if `x` is the offset for that count: so says the note-by-note float walk, for every positive
  -- denominator, chart length, count above zero and offset of one note at least, if that walk is off the
  -- knife-edge: its float bar has reached 1.0 at a note, up to the crossing, just if the exact sum of the
  -- fills has. The answer is one offset or none.
  pub region2_offset_for_count-server_fill_crossing :
      (A : Float64) (x : ℕ)
      → 0 < count
      → 1 ≤ x
      → off_edge A (run_placement (start + x) count) d start n ≡ true
      → (region2_offset_for_count start count d n ≡ ok (some x)) ↔ (
          server_fill_crossing A (run_placement (start + x) count) d start n
          ≡ ok (some (start + x + count - 1), true))
  region2_offset_for_count-server_fill_crossing A x c h off =
      let offset = offset-EndsFull x in
      let walk = walk-EndsFull x c h in
      let same = run-server_fill_crossing A start (start + x) count d n v.den_pos off in
      (
        λ e. sym same ∙ walk.1 ((offset.0 e).2, (offset.0 e).3),
        λ e. offset.1 (c, h, (walk.0 (same ∙ e)).0, (walk.0 (same ∙ e)).1),
      )

-- An action at or beyond the scan's stop has no offset of region 2, for every positive denominator: the
-- counts of actions are no less than their indices, so the scan misses none.
pub region2_offset_for_count-region2_k_scan_stop :
    (d : Denom) (start count n actions stop : ℕ)
    → IsPositive d
    → region2_k_scan_stop actions d ≡ ok stop
    → stop ≤ count
    → stop < actions
    → region2_offset_for_count start count d n ≡ ok none
unfolding region2_offset_for_count region2_k_scan_stop
region2_offset_for_count-region2_k_scan_stop d start count n actions stop v h le lt =
    let b = ceil_less_half_bounds d v 0 count in
    let t = ceil_twice_less_lem d v 0 in let w = v.num_pos in ground (arith, b, t, w, h, le, lt)
