-- ===== src/Fill/Gates.antt =====
-- The gates of the frontier search against the walk: late-Great activations, and the Perfect
-- activation at the canonical offset.
use ro_beats_calculator_engi.Common.{
  ℕ, zero, suc, ◌+◌, ◌-◌, ◌*◌, ◌/◌, ◌≤◌, ◌<◌, ◌≡◌, ◌↔◌, refl, sym, ◌∙◌, Option, Result, ◌>>=◌, Bool,
  true, false, not, some, ok, leb, ltb, leb-cases, le→leb, inl, inr, arith, ap, Bool-cases, ◌==◌,
  ◌&&◌, ◌||◌,
}
use ro_beats_calculator_engi.Common.Ceil.{ceil_div, ceil_div-le, le-ceil_div}
use ro_beats_calculator_engi.Fill.{
  Denom, IsPositive, reaches, wasted, late_great_prefix_is_legal, perfect_fill_crossing_offset,
  perfect_crossing_is_region3,
}
use ro_beats_calculator_engi.Fill.Exact.{
  fill_of, exact_walk, exact_crossing, off_edge, off_edge-server_fill_crossing,
}
use ro_beats_calculator_engi.Fill.Walk.{
  Float64, run_placement, crosses_on_great, late_great_activation_is_legal,
}
use ro_beats_calculator_engi.Fill.Units.{
  full_units, full_units_pos, reaches_lem, full_units-le, le-full_units, units, units-run_placement,
  walk-some,
}

-- `prefix` Greats from the section's first accumulating note, Perfects, and a Great at `a`.
unfoldable pub late_placement : ℕ → ℕ → ℕ → ℕ → Bool
unfolding run_placement
late_placement s prefix a i = run_placement s prefix i || i == a

module _ (d : Denom) (v : IsPositive d) (g : ℕ → Bool) where
  crosses_later :
      (rounds i bar a : ℕ) → a < i → crosses_on_great a (exact_walk d g rounds i bar) ≡ false
  unfolding exact_walk
  crosses_later zero i bar a h = refl
  crosses_later (suc rounds) i bar a h =
      ground (arith, crosses_later rounds (suc i) (bar + fill_of (g i)) a)

  -- The walk crosses on a Great at `i + j` when the notes before leave the bar short of full, that
  -- note fills it, and it is a Great.
  crosses_on_great-walk :
      (rounds j i bar : ℕ)
      → j < rounds
      → bar < full_units d
      → crosses_on_great (i + j) (exact_walk d g rounds i bar) ≡ (
          not (leb (full_units d) (bar + units g i j))
          && (leb (full_units d) (bar + units g i j + fill_of (g (i + j))) && g (i + j)))
  unfolding exact_walk units
  crosses_on_great-walk zero j i bar r h = absurd (omega arith)
  crosses_on_great-walk (suc rounds) zero i bar r h = ground (
    arith,
    reaches_lem d v (bar + fill_of (g i)),
    crosses_later rounds (suc i) (bar + fill_of (g i)) (i + 0),
  )
  crosses_on_great-walk (suc rounds) (suc j) i bar r h = ground (
    arith,
    reaches_lem d v (bar + fill_of (g i)),
    crosses_on_great-walk rounds j (suc i) (bar + fill_of (g i)),
  )

units-late_placement :
    (s prefix a count i : ℕ)
    → i + count ≤ a
    → units (late_placement s prefix a) i count ≡ units (run_placement s prefix) i count
unfolding units late_placement run_placement
units-late_placement s prefix a zero i h = refl
units-late_placement s prefix a (suc count) i h =
    ground (arith, units-late_placement s prefix a count (suc i))

late_at : (s prefix j : ℕ) → late_placement s prefix (s + j) (s + j) ≡ true
unfolding late_placement run_placement
late_at s prefix j = ground arith

and-true : (a b : Bool) → (a && (b && true)) ≡ (a && b)
and-true a b = ground arith

past_run : (s k j : ℕ) → k ≤ j → run_placement s k (s + j) ≡ false
unfolding run_placement
past_run s k j h = ground arith

in_run : (s k j : ℕ) → j < k → run_placement s k (s + j) ≡ true
unfolding run_placement
in_run s k j h = ground arith

-- The judgment that the walk returns is the one of its note.
walk-judgment :
    (d : Denom) (g : ℕ → Bool) (rounds i bar m : ℕ) (b : Bool)
    → exact_walk d g rounds i bar ≡ (some m, b)
    → g m ≡ b
unfolding exact_walk
walk-judgment d g zero i bar m b h = ground arith
walk-judgment d g (suc rounds) i bar m b h =
    ground (arith, walk-judgment d g rounds (suc i) (bar + fill_of (g i)) m b)

module _ (d : Denom) (v : IsPositive d) where
  -- What the walk says of a late placement, in the gate's terms.
  late-walk :
      (s prefix j rounds : ℕ)
      → prefix ≤ j
      → j < rounds
      → crosses_on_great (s + j) (exact_walk d (late_placement s prefix (s + j)) rounds s 0)
        ≡ (not (reaches d (prefix + 2 * (j - prefix))) && reaches d (prefix + 2 * (j - prefix) + 1))
  late-walk s prefix j rounds fits r =
      let g = late_placement s prefix (s + j) in
      let bar : 0 + units g s j ≡ prefix + 2 * (j - prefix) = omega (
        arith,
        units-late_placement s prefix (s + j) j s (omega arith),
        units-run_placement s prefix s j,
      ) in
      rw
        (
          crosses_on_great-walk d v g rounds j s 0 r (full_units_pos d v),
          bar,
          late_at s prefix j,
          reaches_lem d v (prefix + 2 * (j - prefix)),
          reaches_lem d v (prefix + 2 * (j - prefix) + 1),
        )
        (and-true _ _)

  -- The canonical offset is the least number of notes whose bar, with `k` Greats, is full.
  abbrev least : ℕ → ℕ
  least k = ceil_div (2 * d.num + k * d.den) (2 * d.den)

  le-least : (k : ℕ) → k ≤ 2 * least k
  le-least k = elim (leb-cases k (2 * least k)) [
    | inl (_, h) ↦ h
    | inr (_, h) ↦
        let e : k ≡ 2 * least k + (k - 2 * least k) = omega arith in
        absurd (
          omega (
            arith,
            v.num_pos,
            ap (λ (t : ℕ). t * d.den) e,
            le-ceil_div (2 * d.num + k * d.den) (2 * d.den) (least k) (omega (arith, v.den_pos))
                (omega arith),
          ))
  ]

  full-least : (k : ℕ) → full_units d + k ≤ 2 * least k
  full-least k =
      let u = 2 * least k - k in
      let e : 2 * least k ≡ k + u = omega (arith, le-least k) in
      omega (
        arith,
        full_units-le d v u (
            omega (
              arith,
              ap (λ (t : ℕ). t * d.den) e,
              le-ceil_div (2 * d.num + k * d.den) (2 * d.den) (least k) (omega (arith, v.den_pos))
                  (omega arith),
            )),
      )

  least-full : (k : ℕ) → 2 * least k ≤ full_units d + k + 1
  least-full k =
      let m = (full_units d + k + 1) / 2 in
      let w = 2 * m - (full_units d + k) in
      let e : 2 * m ≡ full_units d + k + w = omega arith in
      omega (
        arith,
        ceil_div-le (2 * d.num + k * d.den) (2 * d.den) m (omega (arith, v.den_pos)) (
            omega
              (arith, ap (λ (t : ℕ). t * d.den) e, le-full_units d v (full_units d) (omega arith))),
      )

  offset-least :
      (k : ℕ) (first : Bool) → perfect_fill_crossing_offset d k first - wasted first ≡ least k - 1
  unfolding perfect_fill_crossing_offset
  offset-least k first = ground arith

  -- The crossing is on the Perfect after the run, when the run ends before it.
  fits-walk :
      (s k n : ℕ)
      → k ≤ least k - 1
      → s + (least k - 1) < n
      → exact_crossing (run_placement s k) d s n ≡ ok (some (s + (least k - 1)), false)
  unfolding exact_crossing
  fits-walk s k n fits inside =
      let j = least k - 1 in
      let perfect : run_placement s k (s + j) ≡ false = past_run s k j fits in
      let nz : (d.num == 0) ≡ false = ground (arith, v.num_pos) in
      rw nz (
        ap ok (
          rw
            (walk-some d v (run_placement s k) (n - s) j s 0 (omega arith)
              (omega (
                arith,
                units-run_placement s k s j,
                full-least k,
                least-full k,
                full_units_pos d v,
              ))
              (rw perfect (omega (arith, units-run_placement s k s j, full-least k))))
            (rw perfect)))

  -- The test of `perfect_crossing_is_region3` at that offset is whether the run fits before it.
  region3_lem :
      (k : ℕ) (first : Bool)
      → perfect_crossing_is_region3 (perfect_fill_crossing_offset d k first) k first d
        ≡ ok (leb k (least k - 1))
  unfolding perfect_crossing_is_region3
  region3_lem k first =
      let nz : (d.num == 0) ≡ false = ground (arith, v.num_pos) in
      rw (nz, offset-least k first)
        (ground (
          arith,
          reaches_lem d v (2 * (least k - 1) - k),
          full-least k,
          least-full k,
          full_units_pos d v,
        ))

  walk-fits :
      (s k n : ℕ)
      → exact_crossing (run_placement s k) d s n ≡ ok (some (s + (least k - 1)), false)
      → k ≤ least k - 1
  unfolding exact_crossing
  walk-fits s k n h = elim (leb-cases k (least k - 1)) [
    | inl (_, fits) ↦ fits
    | inr (_, over) ↦
        let nz : (d.num == 0) ≡ false = ground (arith, v.num_pos) in
        let perfect : run_placement s k (s + (least k - 1)) ≡ false =
          walk-judgment d (run_placement s k) (n - s) s 0 (s + (least k - 1)) false
            (ground (arith, h)) in
        absurd (ground (arith, in_run s k (least k - 1)))
  ]

-- The gate, asked of the exact walk.
late_great_prefix_is_legal-exact_crossing :
    (s fill prefix n : ℕ) (first : Bool) (d : Denom)
    → 0 < d.den
    → wasted first + prefix ≤ fill
    → s + (fill - wasted first) < n
    → late_great_prefix_is_legal fill prefix d first ≡ (
        exact_crossing (late_placement s prefix (s + (fill - wasted first))) d s n >>= λ r.
        ok (crosses_on_great (s + (fill - wasted first)) r))
unfolding late_great_prefix_is_legal exact_crossing late_placement run_placement
late_great_prefix_is_legal-exact_crossing s fill prefix n first d den_pos fits inside =
    elim (Bool-cases (d.num == 0)) [
      | inl z ↦ rw z
      | inr nz ↦
          let v : IsPositive d = record { num_pos = ground arith; den_pos = den_pos } in
          let j = fill - wasted first in
          let fits' : ltb fill (wasted first + prefix) ≡ false = ground arith in
          rw (nz, fits')
            (ap ok (sym (late-walk d v s prefix j (n - s) (omega arith) (omega arith))))
    ]

-- The late-Great gate is the walk's own question: over `prefix` Greats from the section start `s`,
-- Perfects, and a Great at the activation `fill` notes into the section (one fewer from `s` on a
-- later section), it holds exactly if the float walk first fills the bar on that Great, provided that the
-- activation lies past the run and in the chart, and that the section is off the knife-edge: the float bar has
-- reached 1.0 at a note, up to the crossing, just if the exact sum of the fills has. A denominator that
-- is not positive is refused.
pub late_great_prefix_is_legal-walk :
    (A : Float64) (s fill prefix n : ℕ) (first : Bool) (d : Denom)
    → 0 < d.den
    → wasted first + prefix ≤ fill
    → s + (fill - wasted first) < n
    → off_edge A (late_placement s prefix (s + (fill - wasted first))) d s n ≡ true
    → late_great_prefix_is_legal fill prefix d first
      ≡ late_great_activation_is_legal A
          (late_placement s prefix (s + (fill - wasted first)))
          d
          s
          (s + (fill - wasted first))
          n
unfolding late_great_activation_is_legal
late_great_prefix_is_legal-walk A s fill prefix n first d den_pos fits inside h =
    late_great_prefix_is_legal-exact_crossing s fill prefix n first d den_pos fits inside
    ∙ ap
        (λ (c : Result (Option ℕ × Bool)).
          c >>= λ r. ok (crosses_on_great (s + (fill - wasted first)) r))
        (sym (
          off_edge-server_fill_crossing A (late_placement s prefix (s + (fill - wasted first))) d s
            n h))

-- The Perfect activation at the canonical offset of `k` Greats is the exact walk's crossing of `k` Greats
-- packed at the section start exactly if `perfect_crossing_is_region3` says so.
pub region3-walk :
    (s k n : ℕ) (first : Bool) (d : Denom)
    → IsPositive d
    → s + (perfect_fill_crossing_offset d k first - wasted first) < n
    → (perfect_crossing_is_region3 (perfect_fill_crossing_offset d k first) k first d ≡ ok true) ↔ (
        exact_crossing (run_placement s k) d s n
        ≡ ok (some (s + (perfect_fill_crossing_offset d k first - wasted first)), false))
region3-walk s k n first d v inside = rw (offset-least d v k first) (
    rw (region3_lem d v k first) (
      (λ t. fits-walk d v s k n (ground (arith, t)) (omega (arith, offset-least d v k first))),
      (λ w. ap ok (le→leb k (least d v k - 1) (walk-fits d v s k n w))),
    ))
