-- ===== src/LoadoutStats/Bonus.antt =====
-- Gems add a bonus that does not depend on the row they are added to.
use Prim.Native.String.{String}
use ro_beats_calculator_engi.Common.{
  ℕ, ◌+◌, ◌*◌, ◌≡◌, refl, Bool, false, Option, none, some, List, ok, err, value_error, ◌==◌,
  if◌then◌else◌, arith, Bool-cases, Option-cases, inl, inr, ap,
}
use ro_beats_calculator_engi.Common.Dict.{get, keys}
use ro_beats_calculator_engi.GameData.{
  Element, chill, flow, rush, beat, vibe, Stat, perfect_points, combo_multiplier, fever_multiplier,
  fever_time, fever_fill_rate, elem, Stats, same_element,
}
use ro_beats_calculator_engi.LoadoutStats.{
  count_of, raise_stat, add_stat_gems, stat_gems, any_unknown, apply_gems, elements,
}

-- What an allocation adds to each stat, the element gems going to the selected element, if any.
unfoldable pub gem_bonus : List (String × ℕ) → Option Element → Stat → ℕ
gem_bonus a selected perfect_points = 2 * count_of a "Perfect Points"
gem_bonus a selected combo_multiplier = 2 * count_of a "Combo Multiplier"
gem_bonus a selected fever_multiplier = 3 * count_of a "Fever Multiplier"
gem_bonus a selected fever_time = 3 * count_of a "Fever Time"
gem_bonus a selected fever_fill_rate = 3 * count_of a "Fever Fill Rate"
gem_bonus a selected (elem e) =
    3 * count_of a (kind_of e) + (if selects selected e then 6 * count_of a "Element" else 0)
  where
    kind_of : Element → String
    kind_of chill = "Perfect Points"
    kind_of flow = "Combo Multiplier"
    kind_of rush = "Fever Multiplier"
    kind_of beat = "Fever Time"
    kind_of vibe = "Fever Fill Rate"

    selects : Option Element → Element → Bool
    selects none e = false
    selects (some f) e = same_element f e

added :
    (stats : Stats) (a : List (String × ℕ)) (s : Stat)
    → add_stat_gems a stats stat_gems s ≡ stats s + gem_bonus a none s
unfolding add_stat_gems raise_stat gem_bonus
added stats a perfect_points = omega arith
added stats a combo_multiplier = omega arith
added stats a fever_multiplier = omega arith
added stats a fever_time = omega arith
added stats a fever_fill_rate = omega arith
added stats a (elem chill) = omega arith
added stats a (elem flow) = omega arith
added stats a (elem rush) = omega arith
added stats a (elem beat) = omega arith
added stats a (elem vibe) = omega arith

with_element :
    (stats : Stats) (a : List (String × ℕ)) (e : Element) (s : Stat)
    → raise_stat (add_stat_gems a stats stat_gems) (elem e) (count_of a "Element" * 6) s
      ≡ stats s + gem_bonus a (some e) s
unfolding raise_stat gem_bonus
with_element stats a e perfect_points = omega (arith, added stats a perfect_points)
with_element stats a e combo_multiplier = omega (arith, added stats a combo_multiplier)
with_element stats a e fever_multiplier = omega (arith, added stats a fever_multiplier)
with_element stats a e fever_time = omega (arith, added stats a fever_time)
with_element stats a e fever_fill_rate = omega (arith, added stats a fever_fill_rate)
with_element stats a e (elem f) = elim (Bool-cases (same_element e f)) [
  | inl t ↦ rw t (omega (arith, added stats a (elem f)))
  | inr t ↦ rw t (omega (arith, added stats a (elem f)))
]

-- An allocation with an unknown gem kind is refused, and so are element gems without one of the
-- five elements selected. Otherwise every stat becomes its value plus the allocation's bonus: a
-- stat gem raises its stat and its element, an element gem the selected element.
pub apply_gems-gem_bonus :
    (stats : Stats) (a : List (String × ℕ)) (selected_element : String)
    → apply_gems stats a selected_element ≡ (
        if any_unknown (keys a)
        then err value_error
        else if count_of a "Element" == 0
        then ok (λ s. stats s + gem_bonus a none s)
        else elim (get selected_element elements) [
          | none ↦ err value_error
          | some e ↦ ok (λ s. stats s + gem_bonus a (some e) s)
        ])
unfolding apply_gems
apply_gems-gem_bonus stats a selected_element =
    let plain : add_stat_gems a stats stat_gems ≡ (λ s. stats s + gem_bonus a none s) =
      λ i s. added stats a s i in
    elim (Bool-cases (any_unknown (keys a))) [
      | inl t ↦ rw t refl
      | inr t ↦ elim (Bool-cases (count_of a "Element" == 0)) [
        | inl z ↦ rw (t, z) (ap (λ (r : Stats). ok r) plain)
        | inr z ↦ elim (Option-cases (get selected_element elements)) [
          | inl g ↦ rw (t, z, g) refl
          | inr (e, g) ↦
              let raised : raise_stat (add_stat_gems a stats stat_gems) (elem e)
                    (count_of a "Element" * 6)
                  ≡ (λ s. stats s + gem_bonus a (some e) s) =
                λ i s. with_element stats a e s i in
              rw (t, z, g) (ap (λ (r : Stats). ok r) raised)
        ]
      ]
    ]
