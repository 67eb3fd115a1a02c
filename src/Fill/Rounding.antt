-- ===== src/Fill/Rounding.antt =====
-- The knife-edge of the float walk: the rounding of its sums, against the distance of the fill
-- denominator from every number of half-units.
use ro_beats_calculator_engi.Common.{
  ℕ, zero, suc, ◌+◌, ◌-◌, ◌*◌, ◌≤◌, ◌<◌, ◌≡◌, refl, true, Bool, ◌⊎◌, inl, inr, leb, arith,
}
use ro_beats_calculator_engi.Fill.{Denom, IsPositive, reaches}
use ro_beats_calculator_engi.Fill.Walk.{Float64, filled}
use ro_beats_calculator_engi.Fill.Exact.{fill_of, agrees, off_edge}

cancel-le : (a b c : ℕ) → 0 < c → a * c ≤ b * c → a ≤ b
cancel-le a b c p h = grind arith

cancel-lt : (a b c : ℕ) → a * c < b * c → a < b
cancel-lt a b c h = grind arith

-- What rounding to nearest gives: floats are multiples of one over `scale`, the test for full is exact, and a
-- note's sum, on a bar that is not full, is off by at most `error`, over twice the numerator of the denominator.
pub record IsRounded (A : Float64) (is_great : ℕ → Bool) (d : Denom) (value : A.F → ℕ)
    (scale error : ℕ) : Type 0 where
  pub scale_pos : 0 < scale
  pub empty : value A.zero_bar ≡ 0
  pub full : (x : A.F) → A.at_least x A.one ≡ leb scale (value x)
  pub above :
      (i : ℕ) (bar : A.F)
      → value bar < scale
      → 2 * d.num * value (filled A is_great d i bar)
        ≤ 2 * d.num * value bar + fill_of (is_great i) * d.den * scale + error
  pub below :
      (i : ℕ) (bar : A.F)
      → value bar < scale
      → 2 * d.num * value bar + fill_of (is_great i) * d.den * scale
        ≤ 2 * d.num * value (filled A is_great d i bar) + error

module _ (A : Float64) (is_great : ℕ → Bool) (d : Denom) (value : A.F → ℕ) (scale error total : ℕ)
    (positive : IsPositive d) (r : IsRounded A is_great d value scale error) where
  -- No number of half-units is within the rounding of `total` notes of full.
  abbrev Apart : ℕ → Type 0
  Apart u =
      (u * d.den * scale + total * error < 2 * d.num * scale)
      ⊎ (2 * d.num * scale + total * error ≤ u * d.den * scale)

  -- A bar after `m` notes, off by at most `m` errors from its half-units.
  record IsNear (m units bar : ℕ) : Type 0 where
    high : 2 * d.num * bar ≤ units * d.den * scale + m * error
    low : units * d.den * scale ≤ 2 * d.num * bar + m * error

  filled-IsNear :
      (i m units : ℕ) (bar : A.F)
      → value bar < scale
      → IsNear m units (value bar)
      → IsNear (suc m) (units + fill_of (is_great i)) (value (filled A is_great d i bar))
  filled-IsNear i m units bar room v = record {
    high = omega (arith, v.high, r.above i bar room);
    low = omega (arith, v.low, r.below i bar room);
  }

  scaled_error : (m : ℕ) → m ≤ total → m * error ≤ total * error
  scaled_error m h = grind arith

  agrees-IsNear :
      (rounds i m units : ℕ) (bar : A.F)
      → m + rounds ≤ total
      → value bar < scale
      → ((u : ℕ) → Apart u)
      → IsNear m units (value bar)
      → agrees A is_great d rounds i bar units ≡ true
  unfolding agrees reaches
  agrees-IsNear zero i m units bar le room apart v = refl
  agrees-IsNear (suc rounds) i m units bar le room apart v =
      let exact = units + fill_of (is_great i) in
      let next = filled A is_great d i bar in
      let w = filled-IsNear i m units bar room v in
      let small = scaled_error (suc m) (omega (arith, le)) in
      elim (apart exact) [
        | inl short ↦
            let not_full : value next < scale =
              cancel-lt (value next) scale (2 * d.num) (omega (arith, w.high, small, short)) in
            let not_reached : exact * d.den < 2 * d.num =
              cancel-lt (exact * d.den) (2 * d.num) scale (omega (arith, short)) in
            ground (
              arith,
              r.full next,
              not_full,
              not_reached,
              agrees-IsNear rounds (suc i) (suc m) exact next (omega (arith, le)) not_full apart w,
            )
        | inr over ↦
            let is_full : scale ≤ value next =
              cancel-le scale (value next) (2 * d.num) (omega (arith, positive.num_pos))
                (omega (arith, w.low, small, over)) in
            let reached : 2 * d.num ≤ exact * d.den =
              cancel-le (2 * d.num) (exact * d.den) scale r.scale_pos (omega (arith, over)) in
            ground (arith, r.full next, is_full, reached)
      ]

  -- A section of at most `total` notes is off the knife-edge, under sums that are off by at most `error` each, if no
  -- number of half-units is within that many errors of full.
  pub off_edge_lem :
      (start n : ℕ) → n ≤ start + total → ((u : ℕ) → Apart u) → off_edge A is_great d start n ≡ true
  unfolding off_edge
  off_edge_lem start n le apart =
      agrees-IsNear (n - start) start 0 0 A.zero_bar (omega (arith, le)) (rw r.empty r.scale_pos)
        apart (record { high = rw r.empty (omega arith); low = rw r.empty (omega arith) })
