-- ===== src/LoadoutStats.antt =====
-- gear_optimizer/stats.py: a loadout's stat row and what its gems add.
--
-- A gem allocation is a dict from gem kinds to counts. A stat row has every stat, so no lookup in it
-- fails.
pub mod Bonus
mod Tests
use Prim.Native.String.{String}
use ro_beats_calculator_engi.Common.{
  ℕ, ◌+◌, ◌*◌, Bool, true, false, not, ◌||◌, Option, none, some, List, [], ◌∷◌, ◌++◌, Result, ok,
  err, value_error, raise_if, ◌==◌, if◌then◌else◌,
}
use ro_beats_calculator_engi.Common.Dict.{contains, get, keys}
use ro_beats_calculator_engi.GameData.{
  Element, chill, flow, rush, beat, vibe, Stat, perfect_points, combo_multiplier, fever_multiplier,
  fever_time, fever_fill_rate, elem, Stats, same_element,
}

abbrev pub stat_gem_gain_normal : ℕ
stat_gem_gain_normal = 2

abbrev pub stat_gem_gain_fever : ℕ
stat_gem_gain_fever = 3

abbrev pub stat_gem_element_gain : ℕ
stat_gem_element_gain = 3

abbrev pub element_gem_gain : ℕ
element_gem_gain = 6

pub record StatGem : Type 0 where
  pub kind : String
  pub stat : Stat
  pub gain : ℕ
  pub element : Element

abbrev pub stat_gem : String → Stat → ℕ → Element → StatGem
stat_gem kind stat gain element = record {
  kind = kind;
  stat = stat;
  gain = gain;
  element = element;
}

-- STAT_GEMS
abbrev pub stat_gems : List StatGem
stat_gems =
    stat_gem "Perfect Points" perfect_points stat_gem_gain_normal chill
    ∷ stat_gem "Combo Multiplier" combo_multiplier stat_gem_gain_normal flow
    ∷ stat_gem "Fever Multiplier" fever_multiplier stat_gem_gain_fever rush
    ∷ stat_gem "Fever Time" fever_time stat_gem_gain_fever beat
    ∷ stat_gem "Fever Fill Rate" fever_fill_rate stat_gem_gain_fever vibe
    ∷ []

abbrev pub gem_kinds : List String
gem_kinds =
    "Perfect Points" ∷ "Combo Multiplier" ∷ "Fever Multiplier" ∷ "Fever Time" ∷ "Fever Fill Rate"
    ∷ "Element" ∷ []

abbrev pub elements : List (String × Element)
elements = ("Chill", chill) ∷ ("Flow", flow) ∷ ("Rush", rush) ∷ ("Beat", beat) ∷ ("Vibe", vibe) ∷ []

abbrev pub same_stat : Stat → Stat → Bool
same_stat perfect_points perfect_points = true
same_stat combo_multiplier combo_multiplier = true
same_stat fever_multiplier fever_multiplier = true
same_stat fever_fill_rate fever_fill_rate = true
same_stat fever_time fever_time = true
same_stat (elem e) (elem f) = same_element e f
same_stat _ _ = false

-- `out[stat] += value`
unfoldable pub raise_stat : Stats → Stat → ℕ → Stats
raise_stat out stat value s = out s + (if same_stat stat s then value else 0)

-- `allocation.get(stat, 0)`
abbrev pub count_of : List (String × ℕ) → String → ℕ
count_of allocation kind = elim (get kind allocation) [ none ↦ 0 | some n ↦ n ]

unfoldable pub add_stat_gems : List (String × ℕ) → Stats → List StatGem → Stats
add_stat_gems allocation out [] = out
add_stat_gems allocation out (g ∷ gems) =
    let count = count_of allocation g.kind in
    add_stat_gems allocation
      (raise_stat (raise_stat out g.stat (count * g.gain)) (elem g.element)
        (count * stat_gem_element_gain))
      gems

-- `set(allocation) - set(GEM_KINDS)`
unfoldable pub any_unknown : List String → Bool
any_unknown [] = false
any_unknown (k ∷ ks) = not (contains k gem_kinds) || any_unknown ks

unfoldable pub apply_gems : Stats → List (String × ℕ) → String → Result Stats
apply_gems stats allocation selected_element =
    let out = add_stat_gems allocation stats stat_gems in
    let element_gems = count_of allocation "Element" in
    raise_if (any_unknown (keys allocation)) value_error (
      if element_gems == 0 then ok out else elim (get selected_element elements) [
        | none ↦ err value_error
        | some e ↦ ok (raise_stat out (elem e) (element_gems * element_gem_gain))
      ])

-- `total(*parts)`
unfoldable pub total : List Stats → Stats
total [] s = 0
total (p ∷ parts) s = p s + total parts s

-- `[catalog[name].stats for name in names if name in catalog]`
unfoldable pub named_stats : List (String × Stats) → List String → List Stats
named_stats catalog [] = []
named_stats catalog (name ∷ names) =
    let rest = named_stats catalog names in
    elim (get name catalog) [ none ↦ rest | some stats ↦ stats ∷ rest ]

unfoldable pub named_loadout_stats :
    Stats
    → List String
    → List String
    → List (String × Stats)
    → List (String × Stats)
    → List (String × ℕ)
    → String
    → Result Stats
named_loadout_stats fixed gear_names mini_names gears minis allocation selected_element =
    apply_gems (total (fixed ∷ named_stats gears gear_names ++ named_stats minis mini_names))
      allocation selected_element
