-- ===== src/Fill/Run.antt =====
-- `server_fill_crossing_run` against the walk, for every section start, run and chart length.
use ro_beats_calculator_engi.Common.{
  ℕ, ◌+◌, ◌-◌, ◌*◌, ◌≤◌, ◌<◌, ◌≡◌, sym, ◌∙◌, min, max, Bool, true, false, ok, ltb, if◌then◌else◌,
  ltb-cases, leb-cases, inl, inr, arith, ap, Bool-cases, ◌==◌, ◌⊎◌,
}
use ro_beats_calculator_engi.Fill.{
  Denom, IsPositive, ceil_denom, ceil_twice_less, ceil_less_half, within, crossing_regions,
  server_fill_crossing_run,
}
use ro_beats_calculator_engi.Fill.Exact.{
  fill_of, exact_walk, exact_crossing, off_edge, off_edge-server_fill_crossing,
}
use ro_beats_calculator_engi.Fill.Walk.{Float64, run_placement, server_fill_crossing}
use ro_beats_calculator_engi.Fill.Units.{
  full_units, full_units_pos, ceil_denom_bounds, ceil_twice_less_lem, ceil_less_half_bounds, units,
  units-run_placement, walk-some, walk-none,
}

module _ (d : Denom) (v : IsPositive d) (s g0 k n : ℕ) where
  -- The bar before note `i`, counted over the run clipped to the section and the chart.
  abbrev bar_before : ℕ → ℕ
  bar_before i = 2 * (i - s) - (min i (min (g0 + k) n) - max g0 s)

  -- A note that takes this bar to full is the walk's note, or the walk finds none before `n`.
  within-walk :
      (i : ℕ) (great : Bool)
      → s ≤ i
      → (i < n → run_placement g0 k i ≡ great)
      → bar_before i < full_units d
      → full_units d ≤ bar_before i + fill_of great
      → within n i great ≡ exact_walk d (run_placement g0 k) (n - s) s 0
  within-walk i great start is lo hi = elim (ltb-cases i n) [
    | inl (t, i<n) ↦
        let e : s + (i - s) ≡ i = omega arith in
        let great_at : run_placement g0 k (s + (i - s)) ≡ great = rw e (is i<n) in
        let short : 0 + units (run_placement g0 k) s (i - s) < full_units d =
          omega (arith, units-run_placement g0 k s (i - s)) in
        let filled : full_units d
            ≤ 0
              + units (run_placement g0 k) s (i - s)
              + fill_of (run_placement g0 k (s + (i - s))) =
          rw great_at (omega (arith, units-run_placement g0 k s (i - s))) in
        rw t
          (cc (walk-some d v (run_placement g0 k) (n - s) (i - s) s 0 (omega arith) short filled))
    | inr (f, n≤i) ↦ rw f (
        sym (
          walk-none d v (run_placement g0 k) (n - s) s 0
            (omega (arith, units-run_placement g0 k s (n - s)))))
  ]

  -- Whether a note of the section is a Great of the run.
  outside :
      (i : ℕ) → s ≤ i → i < n → (i < max g0 s) ⊎ (min (g0 + k) n ≤ i) → run_placement g0 k i ≡ false
  unfolding run_placement
  outside i h h' o = ground arith

  inside : (i : ℕ) → max g0 s ≤ i → i < min (g0 + k) n → run_placement g0 k i ≡ true
  unfolding run_placement
  inside i h h' = ground arith

  -- The base placement, and a run that lies outside the section.
  no_run :
      min (g0 + k) n ≤ max g0 s
      → within n (s + ceil_denom d - 1) false ≡ exact_walk d (run_placement g0 k) (n - s) s 0
  no_run e =
      let pos = full_units_pos d v in
      let b = ceil_denom_bounds d v in
      within-walk (s + ceil_denom d - 1) false (omega arith)
        (λ h. outside (s + ceil_denom d - 1) (omega arith) h (ground arith)) (omega arith)
        (omega arith)

  regions :
      max g0 s < min (g0 + k) n
      → crossing_regions d s (max g0 s) (min (g0 + k) n - max g0 s) n
        ≡ exact_walk d (run_placement g0 k) (n - s) s 0
  unfolding crossing_regions
  regions e =
      let pos = full_units_pos d v in
      let b1 = ceil_denom_bounds d v in
      let b2 = ceil_twice_less_lem d v (lo - s) in
      let b3 = ceil_less_half_bounds d v (lo - s) len in
      elim (ltb-cases i1 lo) [
        | inl (t, before) ↦ rw t (
            within-walk i1 false (omega arith) (λ h. outside i1 (omega arith) h (inl before))
              (omega arith) (omega arith))
        | inr (f, after) ↦ rw f (elim (ltb-cases i2 (lo + len)) [
          | inl (t', on) ↦
              let f' : ltb i2 lo ≡ false = ground arith in
              rw (t', f')
                (within-walk i2 true (omega arith) (λ h. inside i2 (omega arith) (omega arith))
                  (omega arith) (omega arith))
          | inr (f', past) ↦ rw f' (
              within-walk i3 false (omega arith)
                (λ h. outside i3 (omega arith) h (inr (omega arith))) (omega arith) (omega arith))
        ])
      ]
    where
      lo : ℕ
      lo = max g0 s

      len : ℕ
      len = min (g0 + k) n - max g0 s

      i1 : ℕ
      i1 = s + ceil_denom d - 1

      i2 : ℕ
      i2 = lo + ceil_twice_less d (lo - s) - 1

      i3 : ℕ
      i3 = lo + len + ceil_less_half d (lo - s) len - 1

-- The closed form is the walk with an exact bar.
pub run-exact_crossing :
    (s g0 k : ℕ) (d : Denom) (n : ℕ)
    → 0 < d.den
    → server_fill_crossing_run s g0 k d n ≡ exact_crossing (run_placement g0 k) d s n
unfolding server_fill_crossing_run exact_crossing
run-exact_crossing s g0 k d n den_pos = elim (Bool-cases (d.num == 0)) [
  | inl z ↦ rw z
  | inr nz ↦
      let v : IsPositive d = record { num_pos = ground arith; den_pos = den_pos } in
      let lo : (if ltb s g0 then g0 else s) ≡ max g0 s = ground arith in
      let hi : (if ltb (g0 + k) n then g0 + k else n) ≡ min (g0 + k) n = ground arith in
      rw (nz, lo, hi)
        (elim (leb-cases (min (g0 + k) n) (max g0 s)) [
          | inl (t, h) ↦ rw t (ap ok (no_run d v s g0 k n h))
          | inr (f, h) ↦ rw f (ap ok (regions d v s g0 k n h))
        ])
]

-- Off the knife-edge, where the float bar of the walk has reached 1.0 at a note, up to the crossing, just if the
-- exact sum of the fills has, the closed form of `server_fill_crossing_run` is the float walk over Perfects
-- with Greats at the notes from `g0` to `g0 + k`, for every section start, run, chart length, fill denominator and
-- float arithmetic: the same note and judgment, no crossing where the walk finds none, and the same error on
-- a denominator that is not positive.
pub run-server_fill_crossing :
    (A : Float64) (s g0 k : ℕ) (d : Denom) (n : ℕ)
    → 0 < d.den
    → off_edge A (run_placement g0 k) d s n ≡ true
    → server_fill_crossing_run s g0 k d n ≡ server_fill_crossing A (run_placement g0 k) d s n
run-server_fill_crossing A s g0 k d n den_pos h =
    run-exact_crossing s g0 k d n den_pos
    ∙ sym (off_edge-server_fill_crossing A (run_placement g0 k) d s n h)
