-- ===== src/Equivalence/Tests.antt =====
-- Two slots that are the same to the song, and one that is not, with names that are stripped already.
use Prim.Native.String.{String}
use ro_beats_calculator_engi.Common.{
  ◌≡◌, refl, some, none, Option, List, [], ◌∷◌, ok, err, value_error,
}
use ro_beats_calculator_engi.Common.Dict.{contains, get}
use ro_beats_calculator_engi.Equivalence.{
  distinct_names, insert_name, sorted, same_group, count_of, count_one, name_at, first_unused,
  choose, representatives_from, stripped, all_stripped, representative_mini_names,
  normalized_groups, without, rotate_group, rotate_groups, count_groups, show_group, show_groups,
  rotate_mini_groups_for_slot_display, normalize_minis_groups_for_display,
}
use ro_beats_calculator_engi.Equivalence.Signatures.{
  Colors, Catalog, stat_or_zero, color_value, effective_mini_signature,
  effective_mini_signature_for_name, same_numbers, same_signature, add_name, collect_names,
  minis_signature_to_names_map, names_of, tally_one, tally, decimal, joined, sig_sort_key,
  insert_tally, sort_tallies, nonempty_names, variant_group, repeated, variant_groups, groups_of,
  canonical_minis_groups_from_names,
}
use ro_beats_calculator_engi.Equivalence.Display.{
  AreRotated, rotate_mini_groups_for_slot_display-AreRotated,
}
use ro_beats_calculator_engi.Equivalence.Names.{AreRepresentatives}

program : Unit {0}
unfolding distinct_names insert_name sorted same_group count_of count_one name_at first_unused
    choose representatives_from stripped all_stripped representative_mini_names normalized_groups
    without rotate_group rotate_groups count_groups show_group show_groups
    rotate_mini_groups_for_slot_display normalize_minis_groups_for_display contains
program = tt

abbrev same : String → String
same s = s

abbrev slots : List (List (Option String))
slots =
    (some "B" ∷ some "A" ∷ [])
    ∷ (none ∷ some "" ∷ [])
    ∷ (some "A" ∷ some "B" ∷ some "A" ∷ [])
    ∷ (some "C" ∷ [])
    ∷ []

rotated :
    rotate_mini_groups_for_slot_display same slots
    ≡ ("A" ∷ "B" ∷ []) ∷ ("B" ∷ "A" ∷ []) ∷ ("C" ∷ []) ∷ []
unfolding program
rotated = refl

shown : normalize_minis_groups_for_display same slots ≡ ("A" ∷ []) ∷ ("B" ∷ []) ∷ ("C" ∷ []) ∷ []
unfolding program
shown = refl

rotate_mini_groups_for_slot_display-AreRotated_example :
    (reps : List String) × AreRepresentatives [] (normalized_groups same slots) reps
    × AreRotated
        (normalized_groups same slots)
        reps
        (rotate_mini_groups_for_slot_display same slots)
rotate_mini_groups_for_slot_display-AreRotated_example =
    rotate_mini_groups_for_slot_display-AreRotated same slots (λ x. refl)

abbrev colors : Colors
colors = record { primary = "Rush"; secondary = "Flow"; selected = "" }

-- The first two differ in a stat that the song does not count.
abbrev minis : Catalog
minis =
    ("Beta", ("Fever Time", 12) ∷ ("Rush", 3) ∷ ("Chill", 9) ∷ [])
    ∷ ("Alpha", ("Fever Time", 12) ∷ ("Rush", 3) ∷ [])
    ∷ ("Gamma", ("Fever Time", 2) ∷ [])
    ∷ []

abbrev equipped : List (Option String)
equipped = some "Beta" ∷ none ∷ some "Alpha" ∷ some "Omega" ∷ []

catalog_program : Unit {0}
unfolding contains get stripped distinct_names insert_name sorted stat_or_zero color_value
    effective_mini_signature effective_mini_signature_for_name same_numbers same_signature add_name
    collect_names minis_signature_to_names_map names_of tally_one tally decimal joined sig_sort_key
    insert_tally sort_tallies nonempty_names variant_group repeated variant_groups groups_of
    canonical_minis_groups_from_names
catalog_program = tt

-- A group for each of the equivalent minis; a name that the catalog does not have stays by itself.
expanded :
    (canonical_minis_groups_from_names same equipped minis colors none
      ≡ ok (("Alpha" ∷ "Beta" ∷ []) ∷ ("Alpha" ∷ "Beta" ∷ []) ∷ ("Omega" ∷ []) ∷ []))
    × (canonical_minis_groups_from_names same equipped minis colors (some []) ≡ err value_error)
unfolding catalog_program
expanded = (refl, refl)
