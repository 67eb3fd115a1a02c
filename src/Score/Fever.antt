-- ===== src/Score/Fever.antt =====
-- Dominance of timing surfaces: more fever notes and better factors never lower a score.
use ro_beats_calculator_engi.Common.{
  ℕ, ◌+◌, ◌-◌, ◌*◌, ◌≤◌, ◌<◌, ◌≡◌, ap, min, ◌==◌, if◌then◌else◌, arith,
}
use ro_beats_calculator_engi.Score.{
  Double, Factors, head_bit, TimelineSurface, head_notes, sum_range, combo_value, fever_value,
  normal_note, fever_note, timeline_score,
}
use ro_beats_calculator_engi.Score.Sums.{sum_range-le, head_bit-le-one, sum_range-select}

mul-le : (n x y : ℕ) → x ≤ y → n * x ≤ n * y
mul-le n x y h = grind arith

body-le :
    (a b c d fv cv fv' cv' : ℕ)
    → a ≤ c
    → a + b ≡ c + d
    → cv ≤ cv'
    → fv ≤ fv'
    → cv' ≤ fv'
    → a * fv + b * cv ≤ c * fv' + d * cv'
body-le a b c d fv cv fv' cv' h e h1 h2 h3 =
    let e1 : c ≡ a + (c - a) = omega arith in
    let e2 : b ≡ (c - a) + d = omega arith in
    omega (
      arith,
      ap (λ (t : ℕ). t * fv') e1,
      ap (λ (t : ℕ). t * cv') e2,
      mul-le a fv fv' h2,
      mul-le b cv cv' h1,
      mul-le (c - a) cv' fv' h3,
    )

-- Values chosen by bits, where the second choice has every bit of the first.
choice-le :
    (b c x y x' y' : ℕ)
    → b ≤ c
    → c ≤ 1
    → x ≤ x'
    → y ≤ y'
    → x' ≤ y'
    → (if b == 1 then y else x) ≤ (if c == 1 then y' else x')
choice-le b c x y x' y' h h1 h2 h3 h4 = ground arith

module _ (D : Double) where
  -- A timing score, one value for each head note.
  pub timeline_score_lem :
      (f : Factors D) (total_notes : ℕ) (s : TimelineSurface)
      → timeline_score D f total_notes s
        ≡ s.body_fever * fever_value D f
          + s.body_normal * combo_value D f
          + sum_range (min total_notes head_notes) (λ note.
            if head_bit s.head_words note == 1 then fever_note D f note else normal_note D f note)
  unfolding timeline_score
  timeline_score_lem f total_notes s = omega (
    arith,
    sum_range-select (min total_notes head_notes) (head_bit s.head_words) (normal_note D f)
        (fever_note D f) (head_bit-le-one s.head_words),
  )

  -- Better factors: each multiplier at least as great.
  pub record AtLeast (f g : Factors D) : Type 0 where
    pub base : D.Le f.base g.base
    pub combo : D.Le f.combo g.combo
    pub fever : D.Le f.fever g.fever
    pub ramp : (note : ℕ) → D.Le (f.ramp note) (g.ramp note)

  -- More fever: every fever head note of `s` is one of `t`, and `t` has as many fever body notes.
  pub record Dominates (t s : TimelineSurface) : Type 0 where
    pub head :
        (note : ℕ) → note < head_notes → head_bit s.head_words note ≤ head_bit t.head_words note
    pub body : s.body_fever ≤ t.body_fever
    pub same_body : s.body_fever + s.body_normal ≡ t.body_fever + t.body_normal

  module _ (f g : Factors D) (better : AtLeast f g) where
    combo_value-le : combo_value D f ≤ combo_value D g
    combo_value-le = D.floor_mono _ _ (D.mul_mono _ _ _ _ better.base better.combo)

    fever_value-le : fever_value D f ≤ fever_value D g
    fever_value-le =
        D.floor_mono _ _
          (D.mul_mono _ _ _ _ (D.mul_mono _ _ _ _ better.base better.combo) better.fever)

    normal_note-le : (note : ℕ) → normal_note D f note ≤ normal_note D g note
    normal_note-le note = D.floor_mono _ _ (D.mul_mono _ _ _ _ better.base (better.ramp note))

    fever_note-le : (note : ℕ) → fever_note D f note ≤ fever_note D g note
    fever_note-le note =
        D.floor_mono _ _
          (D.mul_mono _ _ _ _ (D.mul_mono _ _ _ _ better.base (better.ramp note)) better.fever)

  -- A fever multiplier of at least one never lowers a value.
  module _ (f : Factors D) (fever : D.Le D.one f.fever) where
    grows : (x : D.F) → D.floor x ≤ D.floor (D.mul x f.fever)
    grows x =
        let one_step =
          D.floor_mono (D.mul x D.one) (D.mul x f.fever) (D.mul_mono _ _ _ _ (D.le_refl x) fever) in
        rw (D.mul_one x) at one_step

  -- The dominance that the timing frontier prunes by: a surface with more fever notes scores at
  -- least as much, also under factors that are at least as great, when the fever multiplier is at
  -- least one.
  pub timeline_score-Dominates :
      (f g : Factors D) (total_notes : ℕ) (s t : TimelineSurface)
      → AtLeast f g
      → D.Le D.one g.fever
      → Dominates t s
      → timeline_score D f total_notes s ≤ timeline_score D g total_notes t
  timeline_score-Dominates f g total_notes s t better fever more = omega (
    arith,
    timeline_score_lem f total_notes s,
    timeline_score_lem g total_notes t,
    body-le s.body_fever s.body_normal t.body_fever t.body_normal (fever_value D f)
        (combo_value D f) (fever_value D g) (combo_value D g) more.body more.same_body
        (combo_value-le f g better) (fever_value-le f g better)
        (grows g fever (D.mul g.base g.combo)),
    sum_range-le (min total_notes head_notes)
        (λ note.
          if head_bit s.head_words note == 1 then fever_note D f note else normal_note D f note)
        (λ note.
          if head_bit t.head_words note == 1 then fever_note D g note else normal_note D g note)
        (λ note l.
          choice-le (head_bit s.head_words note) (head_bit t.head_words note) (normal_note D f note)
            (fever_note D f note) (normal_note D g note) (fever_note D g note)
            (more.head note (omega arith)) (head_bit-le-one t.head_words note)
            (normal_note-le f g better note) (fever_note-le f g better note)
            (grows g fever (D.mul g.base (g.ramp note)))),
  )
