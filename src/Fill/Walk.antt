-- ===== src/Fill/Walk.antt =====
-- tests/parity/force_greats/fill_crossing_walk.py: the walk that the closed forms of Fill stand
-- for, note by note in floating point, and the placement that production plays: Perfects and one
-- run of Greats.
--
-- The float64 arithmetic is a parameter: `of_denom` is the float of a fill denominator, and a sum, a product and
-- a quotient are whatever the arithmetic rounds them to.
use ro_beats_calculator_engi.Common.{
  ℕ, zero, suc, ◌+◌, ◌-◌, Bool, false, Option, none, some, leb, ltb, ◌==◌, if◌then◌else◌, ◌&&◌,
  Result, ok, err, value_error, ◌>>=◌,
}
use ro_beats_calculator_engi.Fill.{Denom, not_positive}

pub record Float64 : Type 1 where
  pub F : Type 0
  pub zero_bar : F
  pub one : F
  pub two : F
  pub of_denom : Denom → F
  pub add : F → F → F
  pub mul : F → F → F
  pub div : F → F → F
  pub at_least : F → F → Bool

-- `idx is not None and int(idx) == int(activation_index) and bool(is_great_at)`
abbrev pub crosses_on_great : ℕ → Option ℕ × Bool → Bool
crosses_on_great activation_index (none, great) = false
crosses_on_great activation_index (some i, great) = i == activation_index && great

-- `k` Greats from note `g0` on, and Perfects elsewhere.
unfoldable pub run_placement : ℕ → ℕ → ℕ → Bool
run_placement g0 k i = leb g0 i && ltb i (g0 + k)

module _ (A : Float64) (is_great : ℕ → Bool) (d : Denom) where
  open A use {F, zero_bar, one, two, of_denom, add, mul, div, at_least}

  -- `bar + ((1.0 / great_denom) if is_great[i] else (1.0 / denom))`
  unfoldable pub filled : ℕ → F → F
  filled i bar =
      add bar (if is_great i then div one (mul (of_denom d) two) else div one (of_denom d))

  -- The loop of `server_fill_crossing` with `rounds` notes left, at note `i` and a bar of `bar`.
  unfoldable pub walk : ℕ → ℕ → F → Option ℕ × Bool
  walk zero i bar = (none, false)
  walk (suc rounds) i bar =
      let rest = walk rounds (suc i) (filled i bar) in
      if at_least (filled i bar) one then (some i, is_great i) else rest

  unfoldable pub server_fill_crossing : ℕ → ℕ → Result (Option ℕ × Bool)
  server_fill_crossing start n =
      if not_positive d then err value_error else ok (walk (n - start) start zero_bar)

  unfoldable pub late_great_activation_is_legal : ℕ → ℕ → ℕ → Result Bool
  late_great_activation_is_legal start activation_index n =
      server_fill_crossing start n >>= λ r. ok (crosses_on_great activation_index r)
