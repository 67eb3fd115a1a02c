-- ===== src/Score/Tests.antt =====
-- Scores over a fixed-point arithmetic of quarters, and the score theorems at inputs that meet their
-- hypotheses.
use native.Mathlib.Nat.{le_refl}
use ro_beats_calculator_engi.Common.{
  ℕ, ◌+◌, ◌*◌, ◌/◌, ◌≤◌, ◌≡◌, ◌↔◌, refl, [], ◌∷◌, map, All, ok, err, value_error, arith, ◌>>=◌,
}
use ro_beats_calculator_engi.Common.Bits.{bit}
use ro_beats_calculator_engi.Score.{
  Double, Factors, Words, head_bit, TimelineSurface, FgResponseSurface, timeline_score,
  best_timeline_score, fg_surface_score,
}
use ro_beats_calculator_engi.Score.Best.{
  IsFirstMax, best_timeline_score-IsFirstMax, fg_surface_score-best_timeline_score,
}
use ro_beats_calculator_engi.Score.FirstMax.{scan, argmax_from, scan-IsArgmax}
use ro_beats_calculator_engi.Score.Fever.{timeline_score-Dominates}
use ro_beats_calculator_engi.Score.Greats.{
  play_score, IsCounted, no_great_surface, fg_surface_score-play_score,
}

div-le : (x y : ℕ) → x ≤ y → x / 4 ≤ y / 4
div-le x y h = omega arith

mul-le_mul : (x y z w : ℕ) → x ≤ y → z ≤ w → x * z ≤ y * w
mul-le_mul x y z w h k = grind arith

mul_four : (x : ℕ) → x * 4 / 4 ≡ x
mul_four x = omega arith

-- A value counts quarters; products are rounded down to a quarter.
abbrev quarters : Double
quarters = record {
  F = ℕ;
  mul = λ x y. x * y / 4;
  add = λ x y. x + y;
  one = 4;
  four_thirds = 5;
  two_thirds = 3;
  of_int = λ n. n * 4;
  floor = λ x. x / 4;
  Le = λ x y. x ≤ y;
  le_refl = λ x. le_refl x;
  mul_mono = λ x y z w h k. div-le (x * z) (y * w) (mul-le_mul x y z w h k);
  mul_one = mul_four;
  floor_mono = div-le;
}

abbrev f : Factors quarters
f = record {
  base = 400;
  combo = 10;
  ramp = λ note. 4 + note;
  fever = 6;
  great_base = 60;
  fever_time_row = 0;
  fever_fill_row = 0;
}

abbrev words : ℕ → Words
words w = record { w0 = w; w1 = 0; w2 = 0; w3 = 0 }

abbrev surface : TimelineSurface
surface = record { head_words = words 2; body_fever = 3; body_normal = 7 }

abbrev longer : TimelineSurface
longer = record { head_words = words 2; body_fever = 5; body_normal = 5 }

abbrev forced : FgResponseSurface
forced = record {
  fever_words = words 2;
  great_words = words 5;
  body_fever = 3;
  body_great = 2;
  body_fever_great = 1;
}

best_of_two : best_timeline_score quarters f scan (surface ∷ longer ∷ []) 110 ≡ ok (136937, 1)
unfolding scan argmax_from best_timeline_score timeline_score head_bit bit
best_of_two = refl

mismatch : best_timeline_score quarters f scan (surface ∷ []) 111 ≡ err value_error
unfolding scan argmax_from best_timeline_score timeline_score head_bit bit
mismatch = refl

refused : fg_surface_score quarters f (record forced { body_fever_great = 3 }) 110 ≡ err value_error
unfolding fg_surface_score head_bit bit
refused = refl

forced-IsCounted : IsCounted forced 110
forced-IsCounted = omega arith

fg_surface_score-play_score_example :
    fg_surface_score quarters f forced 110 ≡ ok (play_score quarters f forced 110)
fg_surface_score-play_score_example =
    fg_surface_score-play_score quarters f forced 110 forced-IsCounted

fg_surface_score-best_timeline_score_example :
    fg_surface_score quarters f (no_great_surface quarters f surface) 110
    ≡ (best_timeline_score quarters f scan (surface ∷ []) 110 >>= λ r. ok r.0)
fg_surface_score-best_timeline_score_example =
    fg_surface_score-best_timeline_score quarters f scan scan-IsArgmax surface 110 (omega arith)

timeline_score-Dominates_example :
    timeline_score quarters f 110 surface ≤ timeline_score quarters f 110 longer
timeline_score-Dominates_example =
    timeline_score-Dominates quarters f f 110 surface longer
      (record {
        base = le_refl 400;
        combo = le_refl 10;
        fever = le_refl 6;
        ramp = λ note. le_refl (4 + note);
      })
      (omega arith)
      (record {
        head = λ note l. le_refl (head_bit (words 2) note);
        body = omega arith;
        same_body = omega arith;
      })

best_timeline_score-IsFirstMax_example :
    (best_timeline_score quarters f scan (surface ∷ longer ∷ []) 110 ≡ ok (136937, 1)) ↔ (
      All (λ s. s.body_fever + s.body_normal ≡ 10) (surface ∷ longer ∷ [])
      × IsFirstMax
          (map
            (λ s. play_score quarters f (no_great_surface quarters f s) 110)
            (surface ∷ longer ∷ []))
          136937
          1)
best_timeline_score-IsFirstMax_example =
    best_timeline_score-IsFirstMax quarters f scan scan-IsArgmax (surface ∷ longer ∷ []) 110 136937
      1
