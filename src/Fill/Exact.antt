-- ===== src/Fill/Exact.antt =====
-- The fill walk with an exact bar, and where the float walk of tests/parity/force_greats agrees with it.
--
-- The exact bar counts half-units of the fill denominator. Rounding moves the crossing by a note only
-- where the exact bar is within the rounding error of full: the knife-edge that the comments of
-- gear_optimizer/frontier/fill_crossing.py set aside. Fill/Rounding relates it to the error of a sum.
use ro_beats_calculator_engi.Common.{
  ℕ, zero, suc, ◌+◌, ◌-◌, ◌≡◌, refl, ap, Bool, true, false, Option, none, some, ◌&&◌, not,
  if◌then◌else◌, Result, ok, err, value_error, arith, Bool-cases, inl, inr,
}
use ro_beats_calculator_engi.Fill.{Denom, reaches, not_positive}
use ro_beats_calculator_engi.Fill.Walk.{Float64, filled, walk, server_fill_crossing}

-- The half-units that a note adds: `1 / great_denom` or `1 / denom`, over `1 / (2 * denom)`.
abbrev pub fill_of : Bool → ℕ
fill_of great = if great then 1 else 2

unfoldable pub exact_walk : Denom → (ℕ → Bool) → ℕ → ℕ → ℕ → Option ℕ × Bool
unfolding reaches
exact_walk d is_great zero i bar = (none, false)
exact_walk d is_great (suc rounds) i bar =
    let rest = exact_walk d is_great rounds (suc i) (bar + fill_of (is_great i)) in
    if reaches d (bar + fill_of (is_great i)) then (some i, is_great i) else rest

unfoldable pub exact_crossing : (ℕ → Bool) → Denom → ℕ → ℕ → Result (Option ℕ × Bool)
unfolding exact_walk
exact_crossing is_great d start n =
    if not_positive d then err value_error else ok (exact_walk d is_great (n - start) start 0)

module _ (A : Float64) (is_great : ℕ → Bool) (d : Denom) where
  -- Up to the crossing, the float bar has reached 1.0 at a note just if the exact bar is full there.
  unfoldable pub agrees : ℕ → ℕ → A.F → ℕ → Bool
  agrees zero i bar units = true
  agrees (suc rounds) i bar units =
      let next = filled A is_great d i bar in
      let exact = units + fill_of (is_great i) in
      let rest = agrees rounds (suc i) next exact in
      if reaches d exact then A.at_least next A.one else not (A.at_least next A.one) && rest

  -- A section from `start` to `n` that is off the knife-edge.
  unfoldable pub off_edge : ℕ → ℕ → Bool
  unfolding agrees
  off_edge start n = agrees (n - start) start A.zero_bar 0

  agrees-walk :
      (rounds i : ℕ) (bar : A.F) (units : ℕ)
      → agrees rounds i bar units ≡ true
      → walk A is_great d rounds i bar ≡ exact_walk d is_great rounds i units
  unfolding agrees walk exact_walk
  agrees-walk zero i bar units = λ h. refl
  agrees-walk (suc rounds) i bar units =
      let rest =
        agrees-walk rounds (suc i) (filled A is_great d i bar) (units + fill_of (is_great i)) in
      elim (Bool-cases (reaches d (units + fill_of (is_great i)))) [
        | inl t ↦ rw (agrees, walk, exact_walk, t) (λ h. rw h refl)
        | inr t ↦ elim (Bool-cases (A.at_least (filled A is_great d i bar) A.one)) [
          | inl f ↦ rw (agrees, walk, exact_walk, t, f) (λ h. absurd (ground (arith, h)))
          | inr f ↦ rw (agrees, walk, exact_walk, t, f) (λ h. rest h)
        ]
      ]

  -- Off the knife-edge the float walk is the exact one.
  pub off_edge-server_fill_crossing :
      (start n : ℕ)
      → off_edge start n ≡ true
      → server_fill_crossing A is_great d start n ≡ exact_crossing is_great d start n
  unfolding off_edge server_fill_crossing exact_crossing
  off_edge-server_fill_crossing start n h =
      ap (λ (w : Option ℕ × Bool). if not_positive d then err value_error else ok w)
        (agrees-walk (n - start) start A.zero_bar 0 h)
