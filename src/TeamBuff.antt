-- ===== src/TeamBuff.antt =====
-- gear_optimizer/core/team_buff.py: team buff tiers and what they add to a stat row.
--
-- Python's `str(value or "").strip().upper()`, `strip()` and `lower()` are arguments: no result depends on
-- how they treat a text. The order of a dict is the order of its entries.
pub mod Tiers
mod Tests
use Prim.Native.String.{String}
use text.Mathlib.Text.{◌==◌ as str_eq}
use ro_beats_calculator_engi.Common.{
  ℕ, zero, suc, Bool, true, false, not, ◌&&◌, ◌||◌, Option, none, some, List, [], ◌∷◌, ◌++◌, map,
  if◌then◌else◌, ◌==◌, ltb,
}
use ro_beats_calculator_engi.Common.Dict.{contains, get}

pub record TierEffect : Type 0 where
  pub pp : ℕ
  pub elem : ℕ

abbrev pub team_buff_tier_effects : List (String × TierEffect)
team_buff_tier_effects =
    ("NONE", record { pp = 0; elem = 0 })
    ∷ ("T1", record { pp = 25; elem = 35 })
    ∷ ("T5", record { pp = 25; elem = 30 })
    ∷ ("T10", record { pp = 20; elem = 25 })
    ∷ ("T20", record { pp = 15; elem = 20 })
    ∷ ("T50", record { pp = 10; elem = 15 })
    ∷ ("T51", record { pp = 5; elem = 10 })
    ∷ []

abbrev pub tiers : List String
tiers = map (λ e. e.0) team_buff_tier_effects

abbrev pub team_buff_elements : List String
team_buff_elements = "Chill" ∷ "Flow" ∷ "Rush" ∷ "Beat" ∷ "Vibe" ∷ []

module _ (upper strip lower : String → String) where
  unfoldable pub canonicalize_team_buff : String → String
  canonicalize_team_buff value =
      let s = upper value in if str_eq s "" then "" else if contains s tiers then s else ""

  unfoldable pub normalize_team_buff : String → String → String
  normalize_team_buff value default =
      let s = canonicalize_team_buff value in
      let d = canonicalize_team_buff default in
      if not (str_eq s "") then s else if not (str_eq d "") then d else "T5"

  -- `for raw in source: ... out.append(tier)`
  unfoldable pub append_tiers : List String → List String → List String
  append_tiers out [] = out
  append_tiers out (raw ∷ source) =
      let tier = canonicalize_team_buff raw in
      append_tiers
        (if not (str_eq tier "") && not (contains tier out) then out ++ tier ∷ [] else out) source

  abbrev pub or_else : List String → List String → List String
  or_else [] other = other
  or_else (x ∷ xs) other = x ∷ xs

  unfoldable pub normalize_team_buff_sequence : List String → List String → List String
  normalize_team_buff_sequence given default =
      or_else (append_tiers [] (or_else given default))
        (or_else (append_tiers [] default) ("T5" ∷ []))

  unfoldable pub team_buff_display_label : String → String → String
  team_buff_display_label team_buff default =
      let tier = normalize_team_buff team_buff default in
      if str_eq tier "NONE" then "None" else tier

  -- `next((k for k in TEAM_BUFF_ELEMENTS if k.lower() == color.lower()), None)`
  unfoldable pub color_key : String → List String → Option String
  color_key color [] = none
  color_key color (k ∷ ks) = if str_eq (lower k) (lower color) then some k else color_key color ks

  abbrev pub entry : String → ℕ → List (String × ℕ)
  entry key zero = []
  entry key (suc n) = (key, suc n) ∷ []

  abbrev pub color_entry : Option String → ℕ → List (String × ℕ)
  color_entry none value = []
  color_entry (some key) value = entry key value

  unfoldable pub team_buff_effect : String → String → List (String × ℕ)
  team_buff_effect team_buff team_color =
      elim (get (canonicalize_team_buff team_buff) team_buff_tier_effects) [
        | none ↦ []
        | some tier ↦
            entry "Perfect Points" tier.pp
            ++ color_entry (color_key (strip team_color) team_buff_elements) tier.elem
      ]
