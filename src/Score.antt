-- ===== src/Score.antt =====
-- gear_optimizer/score.py: the exact score of a timing surface and of a Force Great surface.
--
-- The float64 arithmetic is a parameter (`Double`): its values are the non-negative finite doubles,
-- `floor` is math.floor, and its laws are those of IEEE multiplication that the score relies on:
-- it is monotone, 1.0 is neutral, and floor and conversion from int are monotone. Note values and
-- counts are natural numbers (the source refuses negative counts, and int64 does not overflow at
-- game scores). `np.argmax` is a parameter too. The combo ramp is read at the head notes only.
pub mod Sums
pub mod Greats
pub mod Fever
pub mod Best
pub mod FirstMax
mod Tests
use ro_beats_calculator_engi.Common.{
  ℕ, zero, suc, ◌+◌, ◌-◌, ◌*◌, ◌/◌, ◌%◌, ◌≤◌, ◌<◌, ◌≡◌, min, max, Bool, true, false, not, ◌||◌,
  List, [], ◌∷◌, map, none, some, get_elem?, Result, ok, err, value_error, index_error, ◌>>=◌, ltb,
  leb, ◌==◌, if◌then◌else◌,
}
use ro_beats_calculator_engi.Common.Bits.{bit}
use ro_beats_calculator_engi.GameData.{
  Element, same_element, Stat, perfect_points, combo_multiplier, fever_multiplier, fever_time,
  fever_fill_rate, elem, Stats, max_stat,
}

pub record Double : Type 1 where
  pub F : Type 0
  pub mul : F → F → F
  pub add : F → F → F
  pub one : F
  pub four_thirds : F
  pub two_thirds : F
  pub of_int : ℕ → F
  pub floor : F → ℕ
  pub Le : F → F → Type 0
  pub le_refl : (x : F) → Le x x
  pub mul_mono : (x y z w : F) → Le x y → Le z w → Le (mul x z) (mul y w)
  pub mul_one : (x : F) → mul x one ≡ x
  pub floor_mono : (x y : F) → Le x y → floor x ≤ floor y

abbrev pub head_notes : ℕ
head_notes = 100

abbrev pub great_points : ℕ
great_points = 150

-- Four uint32 words over the head notes: bit k of word w marks head note 32 * w + k.
pub record Words : Type 0 where
  pub w0 : ℕ
  pub w1 : ℕ
  pub w2 : ℕ
  pub w3 : ℕ

abbrev pub word : Words → ℕ → ℕ
word ws zero = ws.w0
word ws (suc zero) = ws.w1
word ws (suc (suc zero)) = ws.w2
word ws (suc (suc (suc i))) = ws.w3

-- `(words[note // 32] >> (note % 32)) & 1`
unfoldable pub head_bit : Words → ℕ → ℕ
head_bit ws note = bit (word ws (note / 32)) (note % 32)

-- One row of a TimelineCell.
pub record TimelineSurface : Type 0 where
  pub head_words : Words
  pub body_fever : ℕ
  pub body_normal : ℕ

-- frontier/types.py: fever0 .. fever3, great0 .. great3 and the body counts.
pub record FgResponseSurface : Type 0 where
  pub fever_words : Words
  pub great_words : Words
  pub body_fever : ℕ
  pub body_great : ℕ
  pub body_fever_great : ℕ

-- `for note in range(n): total += f(note)`
unfoldable pub sum_range : ℕ → (ℕ → ℕ) → ℕ
sum_range zero f = 0
sum_range (suc n) f = sum_range n f + f n

-- `np.any(cell.body_fever + cell.body_normal != body_total)`
unfoldable pub any_mismatch : ℕ → List TimelineSurface → Bool
any_mismatch body_total [] = false
any_mismatch body_total (s ∷ cell) =
    not (s.body_fever + s.body_normal == body_total) || any_mismatch body_total cell

module _ (D : Double) where
  open D use {F, mul, add, one, four_thirds, two_thirds, of_int, floor}

  pub record Factors : Type 0 where
    pub base : F
    pub combo : F
    pub ramp : ℕ → F
    pub fever : F
    pub great_base : ℕ
    pub fever_time_row : ℕ
    pub fever_fill_row : ℕ

  -- gamedata.StatCurves: one value per stat value 0 .. MAX_STAT, and the ramp per value and note.
  pub record StatCurves : Type 0 where
    pub curve : Stat → ℕ → F
    pub combo_ramp : ℕ → ℕ → F

  -- StatCurves.factor and StatCurves.ramp: a value past the curve reads its last one.
  pub factor : StatCurves → Stat → ℕ → F
  factor c stat value = c.curve stat (min max_stat value)

  pub ramp_of : StatCurves → ℕ → ℕ → F
  ramp_of c value = c.combo_ramp (min max_stat value)

  unfoldable pub factors : Stats → StatCurves → Element → Element → Factors
  unfolding factor ramp_of
  factors stats c primary secondary = record {
    base =
        add (of_int (stats (elem primary) * 2 + stats (elem secondary)))
          (factor c perfect_points (stats perfect_points));
    combo = factor c combo_multiplier (stats combo_multiplier);
    ramp = ramp_of c (stats combo_multiplier);
    fever = factor c fever_multiplier (stats fever_multiplier);
    great_base =
        (if same_element primary secondary
          then stats (elem primary) * 2
          else floor (mul (of_int (stats (elem primary))) four_thirds)
            + floor (mul (of_int (stats (elem secondary))) two_thirds))
        + great_points;
    fever_time_row = stats fever_time;
    fever_fill_row = stats fever_fill_rate;
  }

  module _ (f : Factors) where
    abbrev pub combo_value : ℕ
    combo_value = floor (mul f.base f.combo)

    abbrev pub fever_value : ℕ
    fever_value = floor (mul (mul f.base f.combo) f.fever)

    -- Head note values: `np.floor(perfect)` and `np.floor(perfect * f.fever)`.
    abbrev pub normal_note : ℕ → ℕ
    normal_note note = floor (mul f.base (f.ramp note))

    abbrev pub fever_note : ℕ → ℕ
    fever_note note = floor (mul (mul f.base (f.ramp note)) f.fever)

    -- One entry of `scores`: the int64 dot product with `fever - normal` is written as two.
    unfoldable pub timeline_score : ℕ → TimelineSurface → ℕ
    unfolding sum_range
    timeline_score total_notes s =
        let head_len = min total_notes head_notes in
        s.body_fever * fever_value
        + s.body_normal * combo_value
        + sum_range head_len normal_note
        + sum_range head_len (λ note. head_bit s.head_words note * fever_note note)
        - sum_range head_len (λ note. head_bit s.head_words note * normal_note note)

    -- `best = int(np.argmax(scores))` and `return int(scores[best]), best`, under `np.argmax`
    unfoldable pub best_timeline_score :
        (List ℕ → Result ℕ) → List TimelineSurface → ℕ → Result (ℕ × ℕ)
    unfolding any_mismatch
    best_timeline_score argmax cell total_notes =
        let scores = map (timeline_score total_notes) cell in
        if any_mismatch (total_notes - head_notes) cell
        then err value_error
        else argmax scores >>= λ best. elim (get_elem? scores best) [
          | none ↦ err index_error
          | some score ↦ ok (score, best)
        ]

    -- The points of one head note: `value -= max(0, value - great_value)` on a Great.
    unfoldable pub head_note_value : Bool → Bool → ℕ → ℕ
    head_note_value in_fever is_great note =
        let perfect = mul f.base (f.ramp note) in
        let value = if in_fever then floor (mul perfect f.fever) else floor perfect in
        let great = mul (of_int f.great_base) (f.ramp note) in
        let great_value = if in_fever then floor (mul great f.fever) else floor great in
        if is_great then value - (value - great_value) else value

    unfoldable pub fg_surface_score : FgResponseSurface → ℕ → Result ℕ
    unfolding sum_range head_note_value
    fg_surface_score s total_notes =
        let head_len = min total_notes head_notes in
        let body_total = total_notes - head_notes in
        let great = mul (of_int f.great_base) f.combo in
        let normal_great_loss = combo_value - floor great in
        let fever_great_loss = fever_value - floor (mul great f.fever) in
        if ltb (min s.body_fever s.body_great) s.body_fever_great
          || ltb body_total (s.body_fever + s.body_great - s.body_fever_great)
        then err value_error
        else ok (
            s.body_fever * fever_value
            + (body_total - s.body_fever) * combo_value
            - ((s.body_great - s.body_fever_great) * normal_great_loss
                + s.body_fever_great * fever_great_loss)
            + sum_range head_len (λ note.
              head_note_value (head_bit s.fever_words note == 1) (head_bit s.great_words note == 1)
                note))
