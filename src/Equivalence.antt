-- ===== src/Equivalence.antt =====
-- gear_optimizer/data/loadout_equivalence.py: groups of minis that are the same to a song, and the names
-- that stand for them.
--
-- Python's `strip` is an argument: no result depends on how it treats a text. A missing name is none.
-- `used` in the source holds the names in `reps`, so one list stands for both.
pub mod Names
pub mod Groups
pub mod Signatures
pub mod Tallies
pub mod Catalog
pub mod Display
mod Tests
use Prim.Native.String.{String, compare}
use text.Mathlib.Text.{◌==◌ as str_eq, is_lt}
use ro_beats_calculator_engi.Common.{
  ℕ, zero, suc, ◌+◌, ◌%◌, Bool, true, false, not, ◌&&◌, ◌||◌, Option, none, some, List, [], ◌∷◌,
  ◌++◌, map, length, ltb, leb, ◌==◌, if◌then◌else◌,
}
use ro_beats_calculator_engi.Common.Dict.{contains}

-- `set(names)`, and `sorted`
unfoldable pub distinct_names : List String → List String
distinct_names [] = []
distinct_names (n ∷ names) =
    let rest = distinct_names names in if contains n rest then rest else n ∷ rest

unfoldable pub insert_name : String → List String → List String
insert_name n [] = n ∷ []
insert_name n (m ∷ names) =
    let rest = insert_name n names in if is_lt (compare m n) then m ∷ rest else n ∷ m ∷ names

unfoldable pub sorted : List String → List String
sorted [] = []
sorted (n ∷ names) = insert_name n (sorted names)

-- Equality of tuples of names, the keys of a count.
unfoldable pub same_group : List String → List String → Bool
same_group [] [] = true
same_group [] (y ∷ ys) = false
same_group (x ∷ xs) [] = false
same_group (x ∷ xs) (y ∷ ys) = str_eq x y && same_group xs ys

abbrev pub GroupCounts : Type 0
GroupCounts = List (List String × ℕ)

unfoldable pub count_of : List String → GroupCounts → ℕ
count_of key [] = 0
count_of key ((g, n) ∷ counts) = if same_group g key then n else count_of key counts

-- `group_counts[key] = seen + 1`
unfoldable pub count_one : List String → GroupCounts → GroupCounts
count_one key [] = (key, 1) ∷ []
count_one key ((g, n) ∷ counts) =
    let rest = count_one key counts in
    if same_group g key then (g, suc n) ∷ counts else (g, n) ∷ rest

-- `g[i]` of the nonempty list `n ∷ names`
unfoldable pub name_at : String → List String → ℕ → String
name_at n names zero = n
name_at n [] (suc i) = n
name_at n (m ∷ names) (suc i) = name_at m names i

-- `next((n for n in g if n not in used), preferred)`
unfoldable pub first_unused : List String → List String → String → String
first_unused [] used preferred = preferred
first_unused (n ∷ g) used preferred =
    let rest = first_unused g used preferred in if contains n used then rest else n

unfoldable pub choose : String → List String → ℕ → List String → String
choose n names seen used =
    let g = n ∷ names in
    let preferred = name_at n names (seen % length g) in
    if contains preferred used then first_unused g used preferred else preferred

-- The loop, on the groups of stripped names.
unfoldable pub representatives_from : List String → GroupCounts → List (List String) → List String
representatives_from reps counts [] = reps
representatives_from reps counts ([] ∷ groups) = representatives_from reps counts groups
representatives_from reps counts ((n ∷ names) ∷ groups) =
    let seen = count_of (n ∷ names) counts in
    let choice = choose n names seen reps in
    representatives_from (reps ++ choice ∷ []) (count_one (n ∷ names) counts) groups

-- `[n for n in g if n != rep]`
unfoldable pub without : String → List String → List String
without rep [] = []
without rep (n ∷ g) = let rest = without rep g in if str_eq n rep then rest else n ∷ rest

unfoldable pub rotate_group : List String → String → List String
rotate_group g rep =
    if not (str_eq rep "") && contains rep g && ltb 1 (length g) then rep ∷ without rep g else g

-- `for g, rep in zip(normalized, reps)`
unfoldable pub rotate_groups : List (List String) → List String → List (List String)
rotate_groups [] reps = []
rotate_groups (g ∷ groups) [] = []
rotate_groups (g ∷ groups) (rep ∷ reps) = rotate_group g rep ∷ rotate_groups groups reps

-- `Counter(tuple(g) for g in normalized)`
unfoldable pub count_groups : List (List String) → GroupCounts
count_groups [] = []
count_groups (g ∷ groups) = count_one g (count_groups groups)

unfoldable pub show_group : GroupCounts → List String → String → List String
show_group counts g rep =
    if ltb 1 (count_of g counts) && ltb 1 (length g) && not (str_eq rep "") then rep ∷ [] else g

unfoldable pub show_groups : GroupCounts → List (List String) → List String → List (List String)
show_groups counts [] reps = []
show_groups counts (g ∷ groups) [] = []
show_groups counts (g ∷ groups) (rep ∷ reps) =
    show_group counts g rep ∷ show_groups counts groups reps

module _ (strip : String → String) where
  -- The stripped names of a group, the empty ones dropped.
  unfoldable pub stripped : List (Option String) → List String
  stripped [] = []
  stripped (none ∷ g) = stripped g
  stripped (some x ∷ g) =
      let rest = stripped g in if str_eq (strip x) "" then rest else strip x ∷ rest

  unfoldable pub all_stripped : List (List (Option String)) → List (List String)
  all_stripped [] = []
  all_stripped (g ∷ groups) = stripped g ∷ all_stripped groups

  unfoldable pub representative_mini_names : List (List (Option String)) → List String
  representative_mini_names groups = representatives_from [] [] (all_stripped groups)

  -- `if g: normalized.append(sorted(set(g)))`
  abbrev pub append_group : List String → List (List String) → List (List String)
  append_group [] rest = rest
  append_group (n ∷ names) rest = sorted (distinct_names (n ∷ names)) ∷ rest

  unfoldable pub normalized_groups : List (List (Option String)) → List (List String)
  normalized_groups [] = []
  normalized_groups (g ∷ groups) = append_group (stripped g) (normalized_groups groups)

  abbrev pub representatives_of : List (List String) → List String
  representatives_of groups = representative_mini_names (map (λ g. map (λ n. some n) g) groups)

  unfoldable pub rotate_mini_groups_for_slot_display :
      List (List (Option String)) → List (List String)
  rotate_mini_groups_for_slot_display groups =
      let normalized = normalized_groups groups in
      rotate_groups normalized (representatives_of normalized)

  unfoldable pub normalize_minis_groups_for_display :
      List (List (Option String)) → List (List String)
  normalize_minis_groups_for_display groups =
      let normalized = normalized_groups groups in
      show_groups (count_groups normalized) normalized (representatives_of normalized)
