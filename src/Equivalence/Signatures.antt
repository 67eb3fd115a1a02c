-- ===== src/Equivalence/Signatures.antt =====
-- Mini signatures in a song's colors, and the catalog's variant groups of given minis.
--
-- Minis are stat dicts by name, in the catalog's order; stats are natural numbers. The cache of
-- signature maps returns what it was given for the same catalog and colors, so the map is computed here.
use Prim.Native.String.{String, compare, ◌++◌ as join}
use text.Mathlib.Text.{◌==◌ as str_eq, is_lt}
use ro_beats_calculator_engi.Common.{
  ℕ, zero, suc, ◌/◌, ◌%◌, Bool, true, false, not, ◌&&◌, Option, none, some, List, [], ◌∷◌, ◌++◌,
  map, length, ltb, ◌==◌, if◌then◌else◌, Result, ok, err, value_error,
}
use ro_beats_calculator_engi.Common.Dict.{get}
use ro_beats_calculator_engi.Equivalence.{distinct_names, sorted, stripped}

abbrev pub MiniStats : Type 0
MiniStats = List (String × ℕ)

-- `("name", name)`, or the stats that count.
pub data Signature : Type 0 where
  name : String → Signature
  effective : List ℕ → Signature

abbrev pub signature_stats : List String
signature_stats =
    "Perfect Points" ∷ "Combo Multiplier" ∷ "Fever Multiplier" ∷ "Fever Time" ∷ "Fever Fill Rate"
    ∷ []

-- `mini_stats.get(key, 0)`
unfoldable pub stat_or_zero : MiniStats → String → ℕ
stat_or_zero stats key = elim (get key stats) [ none ↦ 0 | some value ↦ value ]

unfoldable pub color_value : MiniStats → String → ℕ
color_value stats color = if str_eq color "" then 0 else stat_or_zero stats color

-- The song's primary and secondary color, and the selected one.
pub record Colors : Type 0 where
  pub primary : String
  pub secondary : String
  pub selected : String

unfoldable pub effective_mini_signature : MiniStats → Colors → Signature
effective_mini_signature stats colors = effective (
    map (stat_or_zero stats) signature_stats
    ++ color_value stats colors.primary
      ∷ color_value stats colors.secondary
      ∷ color_value stats colors.selected
      ∷ [])

abbrev pub Catalog : Type 0
Catalog = List (String × MiniStats)

unfoldable pub effective_mini_signature_for_name : String → Catalog → Colors → Signature
effective_mini_signature_for_name mini_name minis colors =
    if str_eq mini_name "" then name "" else elim (get mini_name minis) [
      | none ↦ name mini_name
      | some stats ↦ effective_mini_signature stats colors
    ]

unfoldable pub same_numbers : List ℕ → List ℕ → Bool
same_numbers [] [] = true
same_numbers [] (y ∷ ys) = false
same_numbers (x ∷ xs) [] = false
same_numbers (x ∷ xs) (y ∷ ys) = x == y && same_numbers xs ys

unfoldable pub same_signature : Signature → Signature → Bool
same_signature (name a) (name b) = str_eq a b
same_signature (name a) (effective ys) = false
same_signature (effective xs) (name b) = false
same_signature (effective xs) (effective ys) = same_numbers xs ys

abbrev pub NamesBySignature : Type 0
NamesBySignature = List (Signature × List String)

-- `sig_to_names.setdefault(sig, []).append(name)`
unfoldable pub add_name : Signature → String → NamesBySignature → NamesBySignature
add_name sig n [] = (sig, n ∷ []) ∷ []
add_name sig n ((s, names) ∷ entries) =
    let rest = add_name sig n entries in
    if same_signature s sig then (s, names ++ n ∷ []) ∷ entries else (s, names) ∷ rest

unfoldable pub collect_names : Colors → NamesBySignature → Catalog → NamesBySignature
collect_names colors entries [] = entries
collect_names colors entries ((n, stats) ∷ minis) =
    collect_names colors (add_name (effective_mini_signature stats colors) n entries) minis

unfoldable pub minis_signature_to_names_map : Catalog → Colors → NamesBySignature
minis_signature_to_names_map minis colors =
    map (λ entry. (entry.0, sorted (distinct_names entry.1))) (collect_names colors [] minis)

unfoldable pub names_of : Signature → NamesBySignature → List String
names_of sig [] = []
names_of sig ((s, names) ∷ entries) = if same_signature s sig then names else names_of sig entries

-- sig_counts and sig_rep, which have the same keys
pub record Tally : Type 0 where
  pub sig : Signature
  pub count : ℕ
  pub rep : String

unfoldable pub tally_one : Signature → String → List Tally → List Tally
tally_one sig n [] = record { sig = sig; count = 1; rep = n } ∷ []
tally_one sig n (t ∷ tallies) =
    let rest = tally_one sig n tallies in
    if same_signature t.sig sig then record t { count = suc t.count } ∷ tallies else t ∷ rest

-- `for n, sig in zip(names, mini_sigs)`
unfoldable pub tally : List Tally → List String → List Signature → List Tally
tally tallies [] sigs = tallies
tally tallies (n ∷ names) [] = tallies
tally tallies (n ∷ names) (sig ∷ sigs) = tally (tally_one sig n tallies) names sigs

abbrev pub digit : ℕ → String
digit n =
    if n == 0
    then "0"
    else if n == 1
    then "1"
    else if n == 2
    then "2"
    else if n == 3
    then "3"
    else if n == 4
    then "4"
    else if n == 5
    then "5"
    else if n == 6
    then "6"
    else if n == 7
    then "7"
    else if n == 8
    then "8"
    else "9"

-- `str(n)`, on fuel n, which is more than its digits
unfoldable pub decimal : ℕ → ℕ → String
decimal zero n = digit n
decimal (suc fuel) n =
    let rest = decimal fuel (n / 10) in if ltb n 10 then digit n else join rest (digit (n % 10))

-- `"|".join(...)`
unfoldable pub joined : List String → String
joined [] = ""
joined (x ∷ []) = x
joined (x ∷ y ∷ xs) = join x (join "|" (joined (y ∷ xs)))

unfoldable pub sig_sort_key : Signature → String
sig_sort_key (name n) = joined ("name" ∷ n ∷ [])
sig_sort_key (effective xs) = joined (map (λ n. decimal n n) xs)

-- `sorted(..., key=...)`, which keeps the order of equal keys
unfoldable pub insert_tally : Tally → List Tally → List Tally
insert_tally t [] = t ∷ []
insert_tally t (u ∷ tallies) =
    let rest = insert_tally t tallies in
    if is_lt (compare (sig_sort_key u.sig) (sig_sort_key t.sig)) then u ∷ rest else t ∷ u ∷ tallies

unfoldable pub sort_tallies : List Tally → List Tally
sort_tallies [] = []
sort_tallies (t ∷ tallies) = insert_tally t (sort_tallies tallies)

-- `[n for n in group if n]`
unfoldable pub nonempty_names : List String → List String
nonempty_names [] = []
nonempty_names (n ∷ names) =
    let rest = nonempty_names names in if str_eq n "" then rest else n ∷ rest

abbrev pub or_rep : List String → String → List String
or_rep [] rep = rep ∷ []
or_rep (n ∷ names) rep = n ∷ names

unfoldable pub variant_group : NamesBySignature → Tally → List String
variant_group sig_to_all t =
    nonempty_names
      (elim t.sig [ name n ↦ n ∷ [] | effective xs ↦ or_rep (names_of t.sig sig_to_all) t.rep ])

unfoldable pub repeated : ℕ → List String → List (List String) → List (List String)
repeated zero group rest = rest
repeated (suc count) group rest = group ∷ repeated count group rest

abbrev pub extend : List String → ℕ → List (List String) → List (List String)
extend [] count rest = rest
extend (n ∷ names) count rest = repeated count (n ∷ names) rest

unfoldable pub variant_groups : NamesBySignature → List Tally → List (List String)
variant_groups sig_to_all [] = []
variant_groups sig_to_all (t ∷ tallies) =
    extend (variant_group sig_to_all t) t.count (variant_groups sig_to_all tallies)

unfoldable pub groups_of : Catalog → Colors → List String → List Signature → List (List String)
groups_of minis colors names sigs =
    variant_groups (minis_signature_to_names_map minis colors) (sort_tallies (tally [] names sigs))

module _ (strip : String → String) where
  unfoldable pub canonical_minis_groups_from_names :
      List (Option String)
      → Catalog
      → Colors
      → Option (List Signature)
      → Result (List (List String))
  canonical_minis_groups_from_names mini_names minis colors none =
      let names = stripped strip mini_names in
      ok (
        groups_of minis colors names
          (map (λ n. effective_mini_signature_for_name n minis colors) names))
  canonical_minis_groups_from_names mini_names minis colors (some sigs) =
      let names = stripped strip mini_names in
      if not (length sigs == length names)
      then err value_error
      else ok (groups_of minis colors names sigs)
