-- ===== src/LoadoutStats/Tests.antt =====
-- A loadout of one known and one unknown piece of gear, with gems.
use Prim.Native.String.{String}
use ro_beats_calculator_engi.Common.{
  ℕ, ◌+◌, ◌≡◌, refl, none, some, List, [], ◌∷◌, Result, ok, err, value_error, ◌>>=◌, if◌then◌else◌,
  ◌==◌,
}
use ro_beats_calculator_engi.Common.Dict.{contains, get, keys}
use ro_beats_calculator_engi.GameData.{flow, elem, Stats}
use ro_beats_calculator_engi.LoadoutStats.{
  apply_gems, named_loadout_stats, named_stats, total, add_stat_gems, raise_stat, any_unknown,
  count_of, elements,
}
use ro_beats_calculator_engi.LoadoutStats.Bonus.{gem_bonus, apply_gems-gem_bonus}

abbrev ones : Stats
ones s = 1

abbrev allocation : List (String × ℕ)
allocation = ("Combo Multiplier", 4) ∷ ("Element", 2) ∷ []

abbrev flow_of : Result Stats → Result ℕ
flow_of r = r >>= λ s. ok (s (elem flow))

-- 1 + 1 for the row and the cap, 4 gems of 3 and 2 gems of 6.
geared :
    flow_of
      (named_loadout_stats ones ("Cap" ∷ "Lost" ∷ []) [] (("Cap", ones) ∷ []) [] allocation "Flow")
    ≡ ok 26
unfolding named_loadout_stats named_stats total apply_gems add_stat_gems raise_stat any_unknown
    contains get
geared = refl

unselected : flow_of (apply_gems ones allocation "Green") ≡ err value_error
unfolding apply_gems any_unknown contains get
unselected = refl

apply_gems-gem_bonus_example : apply_gems ones allocation "Flow" ≡ (
    if any_unknown (keys allocation)
    then err value_error
    else if count_of allocation "Element" == 0
    then ok (λ s. ones s + gem_bonus allocation none s)
    else elim (get "Flow" elements) [
      | none ↦ err value_error
      | some e ↦ ok (λ s. ones s + gem_bonus allocation (some e) s)
    ])
apply_gems-gem_bonus_example = apply_gems-gem_bonus ones allocation "Flow"
