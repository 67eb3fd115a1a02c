-- ===== src/TeamBuff/Tests.antt =====
-- Team buffs of texts that are already trimmed and in the case that the tables have.
use Prim.Native.String.{String}
use ro_beats_calculator_engi.Common.{◌≡◌, refl, true, [], ◌∷◌, ltb, length}
use ro_beats_calculator_engi.Common.Dict.{contains, get}
use ro_beats_calculator_engi.TeamBuff.{
  canonicalize_team_buff, normalize_team_buff, normalize_team_buff_sequence, append_tiers,
  team_buff_effect, color_key, team_buff_display_label,
}
use ro_beats_calculator_engi.TeamBuff.Tiers.{AreTiers, normalize_team_buff_sequence-AreTiers}

abbrev same : String → String
same s = s

given :
    normalize_team_buff_sequence same same same ("T5" ∷ "T7" ∷ "T5" ∷ "NONE" ∷ []) []
    ≡ "T5" ∷ "NONE" ∷ []
unfolding normalize_team_buff_sequence append_tiers canonicalize_team_buff contains
given = refl

buffed : team_buff_effect same same same "T10" "Rush" ≡ ("Perfect Points", 20) ∷ ("Rush", 25) ∷ []
unfolding team_buff_effect canonicalize_team_buff contains get color_key
buffed = refl

label : team_buff_display_label same same same "NONE" "T5" ≡ "None"
unfolding team_buff_display_label normalize_team_buff canonicalize_team_buff contains
label = refl

normalize_team_buff_sequence-AreTiers_example :
    AreTiers (normalize_team_buff_sequence same same same ("T5" ∷ "T5" ∷ []) [])
    × (ltb 0 (length (normalize_team_buff_sequence same same same ("T5" ∷ "T5" ∷ []) [])) ≡ true)
normalize_team_buff_sequence-AreTiers_example =
    normalize_team_buff_sequence-AreTiers same same same ("T5" ∷ "T5" ∷ []) []
