-- ===== src/GameData.antt =====
-- gear_optimizer/gamedata.py and gear_optimizer/rules.py: the stats, the elements and the game rules
-- that scores depend on.
--
-- A stat row (`Stats`, a dict with every key of STATS) is a function from stats to natural numbers.
use ro_beats_calculator_engi.Common.{ℕ, Bool, true, false}

-- ELEMENTS
pub data Element : Type 0 where
  chill flow rush beat vibe : Element

pub Element-discrete : Discrete Element
Element-discrete = hlevel

-- STATS: the curve stats, then the elements
pub data Stat : Type 0 where
  perfect_points combo_multiplier fever_multiplier fever_fill_rate fever_time : Stat
  elem : Element → Stat

abbrev pub Stats : Type 0
Stats = Stat → ℕ

abbrev pub same_element : Element → Element → Bool
same_element chill chill = true
same_element flow flow = true
same_element rush rush = true
same_element beat beat = true
same_element vibe vibe = true
same_element _ _ = false

abbrev pub max_stat : ℕ
max_stat = 160
