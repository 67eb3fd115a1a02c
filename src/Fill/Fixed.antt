-- ===== src/Fill/Fixed.antt =====
-- A fixed-point arithmetic of 1/1024, rounded down: a concrete `Float64` for the walk.
use ro_beats_calculator_engi.Common.{◌+◌, ◌*◌, ◌/◌, ℕ, leb}
use ro_beats_calculator_engi.Fill.Walk.{Float64}

abbrev pub fixed : Float64
fixed = record {
  F = ℕ;
  zero_bar = 0;
  one = 1024;
  two = 2048;
  of_denom = λ d. 1024 * d.num / d.den;
  add = λ x y. x + y;
  mul = λ x y. x * y / 1024;
  div = λ x y. x * 1024 / y;
  at_least = λ x y. leb y x;
}
