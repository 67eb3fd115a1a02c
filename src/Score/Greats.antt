-- ===== src/Score/Greats.antt =====
-- Force Great scores against the game's rule for one note, and against the same play without Greats.
use ro_beats_calculator_engi.Common.{
  ℕ, zero, suc, ◌+◌, ◌-◌, ◌*◌, ◌/◌, ◌%◌, ◌≤◌, ◌≡◌, refl, ap, min, Bool, true, false, inl, inr, ◌==◌,
  ◌||◌, if◌then◌else◌, ltb, ok, err, value_error, arith, Bool-cases,
}
use ro_beats_calculator_engi.Common.Bits.{bit-zero}
use ro_beats_calculator_engi.Score.{
  Double, Factors, word, head_bit, TimelineSurface, FgResponseSurface, head_notes, sum_range,
  combo_value, fever_value, normal_note, fever_note, timeline_score, head_note_value,
  fg_surface_score,
}
use ro_beats_calculator_engi.Score.Fever.{timeline_score_lem}
use ro_beats_calculator_engi.Score.Sums.{sum_range-le, sum_range-ext}

module _ (D : Double) (f : Factors D) where
  open D use {F, mul, of_int, floor}

  -- The game's value of one note at a combo scaling: a Great earns its own points, never more than
  -- the Perfect it replaces.
  abbrev pub note_points : F → Bool → Bool → ℕ
  note_points scaling in_fever is_great =
      let perfect = mul f.base scaling in
      let great = mul (of_int f.great_base) scaling in
      let value = if in_fever then floor (mul perfect f.fever) else floor perfect in
      let great_value = if in_fever then floor (mul great f.fever) else floor great in
      if is_great then min value great_value else value

  -- The sum of the values of a play's notes: the head notes one by one, the body notes by kind.
  pub play_score : FgResponseSurface → ℕ → ℕ
  play_score s total_notes =
      s.body_fever_great * note_points f.combo true true
      + (s.body_fever - s.body_fever_great) * note_points f.combo true false
      + (s.body_great - s.body_fever_great) * note_points f.combo false true
      + (total_notes - head_notes - (s.body_fever + s.body_great - s.body_fever_great))
        * note_points f.combo false false
      + sum_range (min total_notes head_notes) (λ note.
        note_points (f.ramp note) (head_bit s.fever_words note == 1)
          (head_bit s.great_words note == 1))

-- The body counts describe notes of the song: no more Greats in fever than Greats or fever notes,
-- and no more notes than the body has.
pub record IsCounted (s : FgResponseSurface) (total_notes : ℕ) : Type 0 where
  pub in_fever : s.body_fever_great ≤ s.body_fever
  pub in_great : s.body_fever_great ≤ s.body_great
  pub in_body : s.body_fever + s.body_great - s.body_fever_great ≤ total_notes - head_notes

body_sum :
    (a u w r cv fv gn gf : ℕ)
    → (a + u) * fv + (w + r) * cv - (w * (cv - gn) + a * (fv - gf))
      ≡ a * min fv gf + u * fv + w * min cv gn + r * cv
body_sum a u w r cv fv gn gf =
    let e1 : cv ≡ (cv - gn) + min cv gn = omega arith in
    let e2 : fv ≡ (fv - gf) + min fv gf = omega arith in
    omega (arith, ap (λ (t : ℕ). w * t) e1, ap (λ (t : ℕ). a * t) e2)

body_score :
    (bt bf bg a cv fv gn gf : ℕ)
    → a ≤ bf
    → a ≤ bg
    → bf + bg - a ≤ bt
    → bf * fv + (bt - bf) * cv - ((bg - a) * (cv - gn) + a * (fv - gf))
      ≡ a * min fv gf + (bf - a) * fv + (bg - a) * min cv gn + (bt - (bf + bg - a)) * cv
body_score bt bf bg a cv fv gn gf h1 h2 h3 =
    let e1 : bf ≡ a + (bf - a) = omega arith in
    let e2 : bt - bf ≡ (bg - a) + (bt - (bf + bg - a)) = omega arith in
    omega (
      arith,
      body_sum a (bf - a) (bg - a) (bt - (bf + bg - a)) cv fv gn gf,
      ap (λ (t : ℕ). t * fv) e1,
      ap (λ (t : ℕ). t * cv) e2,
    )

-- `value - max(0, value - great_value)` is the smaller of the two.
sub_loss : (x y : ℕ) → x - (x - y) ≡ min x y
sub_loss x y = omega arith

module _ (D : Double) (f : Factors D) where
  head_note_value-points :
      (in_fever is_great : Bool) (note : ℕ)
      → head_note_value D f in_fever is_great note ≡ note_points D f (f.ramp note) in_fever is_great
  unfolding head_note_value
  head_note_value-points true true note = sub_loss _ _
  head_note_value-points true false note = refl
  head_note_value-points false true note = sub_loss _ _
  head_note_value-points false false note = refl

  -- On every surface whose counts fit the song, the Force Great score is the sum of its notes' own
  -- values, each floored alone; no step of the subtraction of losses goes below zero.
  pub fg_surface_score-play_score :
      (s : FgResponseSurface) (total_notes : ℕ)
      → IsCounted s total_notes
      → fg_surface_score D f s total_notes ≡ ok (play_score D f s total_notes)
  unfolding fg_surface_score play_score
  fg_surface_score-play_score s total_notes v =
      let counts : (ltb (min s.body_fever s.body_great) s.body_fever_great
            || ltb (total_notes - head_notes) (s.body_fever + s.body_great - s.body_fever_great))
          ≡ false =
        ground arith in
      rw counts (
        ap ok (
          omega (
            arith,
            body_score (total_notes - head_notes) s.body_fever s.body_great s.body_fever_great
                (combo_value D f) (fever_value D f)
                (D.floor (D.mul (D.of_int f.great_base) f.combo))
                (D.floor (D.mul (D.mul (D.of_int f.great_base) f.combo) f.fever)) v.in_fever
                v.in_great v.in_body,
            sum_range-ext (min total_notes head_notes)
                (λ note.
                  head_note_value D f (head_bit s.fever_words note == 1)
                    (head_bit s.great_words note == 1) note)
                (λ note.
                  note_points D f (f.ramp note) (head_bit s.fever_words note == 1)
                    (head_bit s.great_words note == 1))
                (λ note l. head_note_value-points _ _ note),
          )))

  -- Counts that do not fit the song are refused.
  fg_surface_score-refused :
      (s : FgResponseSurface) (total_notes : ℕ)
      → ¬ IsCounted s total_notes
      → fg_surface_score D f s total_notes ≡ err value_error
  unfolding fg_surface_score
  fg_surface_score-refused s total_notes h =
      elim (Bool-cases (
        ltb (min s.body_fever s.body_great) s.body_fever_great
        || ltb (total_notes - head_notes) (s.body_fever + s.body_great - s.body_fever_great))) [
          | inl t ↦ rw t
          | inr t ↦ absurd (
              h (record {
                in_fever = ground arith;
                in_great = ground arith;
                in_body = ground arith;
              }))
        ]

  abbrev pub no_greats : FgResponseSurface → FgResponseSurface
  no_greats s = record s {
    great_words = record { w0 = 0; w1 = 0; w2 = 0; w3 = 0 };
    body_great = 0;
    body_fever_great = 0;
  }

  abbrev pub no_great_surface : TimelineSurface → FgResponseSurface
  no_great_surface s = record {
    fever_words = s.head_words;
    great_words = record { w0 = 0; w1 = 0; w2 = 0; w3 = 0 };
    body_fever = s.body_fever;
    body_great = 0;
    body_fever_great = 0;
  }

  zero_word : (i : ℕ) → word (record { w0 = 0; w1 = 0; w2 = 0; w3 = 0 }) i ≡ 0
  zero_word zero = refl
  zero_word (suc zero) = refl
  zero_word (suc (suc zero)) = refl
  zero_word (suc (suc (suc i))) = refl

  no_great_bits : (note : ℕ) → head_bit (record { w0 = 0; w1 = 0; w2 = 0; w3 = 0 }) note ≡ 0
  unfolding head_bit
  no_great_bits note = rw (zero_word (note / 32)) (bit-zero (note % 32))

  points-le :
      (scaling : D.F) (in_fever is_great : Bool)
      → note_points D f scaling in_fever is_great ≤ note_points D f scaling in_fever false
  points-le scaling in_fever true = omega arith
  points-le scaling in_fever false = omega arith

  -- Greats never add points: a surface scores at most what the same fever notes score without them.
  pub play_score-no_greats :
      (s : FgResponseSurface) (total_notes : ℕ)
      → IsCounted s total_notes
      → play_score D f s total_notes ≤ play_score D f (no_greats s) total_notes
  unfolding play_score
  play_score-no_greats s total_notes v =
      let bt = total_notes - head_notes in
      let gn = D.floor (D.mul (D.of_int f.great_base) f.combo) in
      let gf = D.floor (D.mul (D.mul (D.of_int f.great_base) f.combo) f.fever) in
      omega (
        arith,
        body_score bt s.body_fever s.body_great s.body_fever_great (combo_value D f)
            (fever_value D f) gn gf v.in_fever v.in_great v.in_body,
        body_score bt s.body_fever 0 0 (combo_value D f) (fever_value D f) gn gf (omega arith)
            (omega arith) (omega (arith, v.in_fever, v.in_great, v.in_body)),
        sum_range-le (min total_notes head_notes)
            (λ note.
              note_points D f (f.ramp note) (head_bit s.fever_words note == 1)
                (head_bit s.great_words note == 1))
            (λ note.
              note_points D f (f.ramp note) (head_bit s.fever_words note == 1)
                (head_bit (no_greats s).great_words note == 1))
            (λ note l. rw (no_great_bits note) (points-le _ _ _)),
      )

  pub play_score-timeline_score :
      (s : TimelineSurface) (total_notes : ℕ)
      → s.body_fever + s.body_normal ≡ total_notes - head_notes
      → play_score D f (no_great_surface s) total_notes ≡ timeline_score D f total_notes s
  unfolding play_score
  play_score-timeline_score s total_notes h =
      let e : total_notes - head_notes - (s.body_fever + 0 - 0) ≡ s.body_normal = omega arith in
      let heads =
        sum_range-ext (min total_notes head_notes)
          (λ note.
            note_points D f (f.ramp note) (head_bit s.head_words note == 1)
              (head_bit (no_great_surface s).great_words note == 1))
          (λ note.
            if head_bit s.head_words note == 1 then fever_note D f note else normal_note D f note)
          (λ note l. rw (no_great_bits note)) in
      rw (timeline_score_lem D f total_notes s, e, heads)
        (omega (
          arith,
          ap (λ (t : ℕ). t * fever_value D f)
              (let e0 : s.body_fever - 0 ≡ s.body_fever = omega arith in e0),
        ))
