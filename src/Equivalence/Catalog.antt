-- ===== src/Equivalence/Catalog.antt =====
-- The catalog's variant groups: one for each given mini.
use Prim.Native.String.{String}
use text.Mathlib.Text.{◌==◌ as str_eq}
use ro_beats_calculator_engi.Common.{
  ℕ, zero, suc, ◌+◌, ◌≤◌, ◌≡◌, refl, ap, ◌∙◌, Option, none, some, List, [], ◌∷◌, ◌++◌, map, length,
  All, ok, arith, Bool-cases, Option-cases, inl, inr,
}
use ro_beats_calculator_engi.Common.Dict.{get}
use ro_beats_calculator_engi.Equivalence.{distinct_names, sorted, stripped}
use ro_beats_calculator_engi.Equivalence.Groups.{All-sorted, All-distinct_names}
use ro_beats_calculator_engi.Equivalence.Signatures.{
  Signature, name, effective, Catalog, Colors, effective_mini_signature,
  effective_mini_signature_for_name, same_signature, NamesBySignature, add_name, collect_names,
  minis_signature_to_names_map, names_of, Tally, tally, sort_tallies, nonempty_names, or_rep,
  variant_group, repeated, extend, variant_groups, groups_of, canonical_minis_groups_from_names,
}
use ro_beats_calculator_engi.Equivalence.Tallies.{
  IsNonempty, counted, IsNamed, IsTally, counted-tally, counted-sort_tallies, tally-IsTally,
  sort_tallies-IsTally,
}

-- The catalog's map has nonempty names only.
abbrev HasNames : Signature × List String → Type 0
HasNames entry = All IsNonempty entry.1

All-append :
    (names : List String) (n : String)
    → All IsNonempty names
    → IsNonempty n
    → All IsNonempty (names ++ n ∷ [])
All-append [] n v h = (h, tt)
All-append (m ∷ names) n v h = (v.0, All-append names n v.1 h)

add_name-HasNames :
    (sig : Signature) (n : String) (entries : NamesBySignature)
    → IsNonempty n
    → All HasNames entries
    → All HasNames (add_name sig n entries)
unfolding add_name
add_name-HasNames sig n [] h v = ((h, tt), tt)
add_name-HasNames sig n ((s, names) ∷ entries) h v = elim (Bool-cases (same_signature s sig)) [
  | inl e ↦ rw e (All-append names n v.0 h, v.1)
  | inr e ↦ rw e (v.0, add_name-HasNames sig n entries h v.1)
]

collect_names-HasNames :
    (colors : Colors) (entries : NamesBySignature) (minis : Catalog)
    → All (λ m. IsNonempty m.0) minis
    → All HasNames entries
    → All HasNames (collect_names colors entries minis)
unfolding collect_names
collect_names-HasNames colors entries [] h v = v
collect_names-HasNames colors entries ((n, stats) ∷ minis) h v =
    collect_names-HasNames colors (add_name (effective_mini_signature stats colors) n entries) minis
      h.1 (add_name-HasNames (effective_mini_signature stats colors) n entries h.0 v)

sorted-HasNames :
    (entries : NamesBySignature)
    → All HasNames entries
    → All HasNames (map (λ entry. (entry.0, sorted (distinct_names entry.1))) entries)
sorted-HasNames [] v = tt
sorted-HasNames ((s, names) ∷ entries) v = (
  All-sorted IsNonempty (distinct_names names) (All-distinct_names IsNonempty names v.0),
  sorted-HasNames entries v.1,
)

names_of-All :
    (sig : Signature) (entries : NamesBySignature)
    → All HasNames entries
    → All IsNonempty (names_of sig entries)
unfolding names_of
names_of-All sig [] v = tt
names_of-All sig ((s, names) ∷ entries) v = elim (Bool-cases (same_signature s sig)) [
  | inl e ↦ rw e v.0
  | inr e ↦ rw e (names_of-All sig entries v.1)
]

nonempty_names_lem : (names : List String) → All IsNonempty names → nonempty_names names ≡ names
unfolding nonempty_names
nonempty_names_lem [] v = refl
nonempty_names_lem (n ∷ names) v = rw v.0 (ap (λ t. n ∷ t) (nonempty_names_lem names v.1))

or_rep-All :
    (names : List String) (rep : String)
    → All IsNonempty names
    → IsNonempty rep
    → All IsNonempty (or_rep names rep) × (1 ≤ length (or_rep names rep))
or_rep-All [] rep v h = ((h, tt), omega arith)
or_rep-All (n ∷ names) rep v h = (v, omega arith)

length-variant_group :
    (entries : NamesBySignature) (sig : Signature) (count : ℕ) (rep : String)
    → All HasNames entries
    → IsNamed sig
    → IsNonempty rep
    → 1 ≤ length (variant_group entries (record { sig = sig; count = count; rep = rep }))
unfolding variant_group
length-variant_group entries (name n) count rep v s h =
    rw (nonempty_names_lem (n ∷ []) (s, tt)) (omega arith)
length-variant_group entries (effective xs) count rep v s h =
    let group =
      or_rep-All (names_of (effective xs) entries) rep (names_of-All (effective xs) entries v) h in
    rw (nonempty_names_lem (or_rep (names_of (effective xs) entries) rep) group.0) group.1

length-repeated :
    (count : ℕ) (group : List String) (rest : List (List String))
    → length (repeated count group rest) ≡ count + length rest
unfolding repeated
length-repeated zero group rest = omega arith
length-repeated (suc count) group rest = omega (arith, length-repeated count group rest)

length-extend :
    (group : List String) (count : ℕ) (rest : List (List String))
    → 1 ≤ length group
    → length (extend group count rest) ≡ count + length rest
length-extend [] count rest h = absurd (omega (arith, h))
length-extend (n ∷ names) count rest h = length-repeated count (n ∷ names) rest

length-variant_groups :
    (entries : NamesBySignature) (tallies : List Tally)
    → All HasNames entries
    → All IsTally tallies
    → length (variant_groups entries tallies) ≡ counted tallies
unfolding variant_groups counted
length-variant_groups entries [] v h = refl
length-variant_groups entries (t ∷ tallies) v h = omega (
  arith,
  length-extend (variant_group entries t) t.count (variant_groups entries tallies)
      (length-variant_group entries t.sig t.count t.rep v h.0.0 h.0.1),
  length-variant_groups entries tallies v h.1,
)

effective_mini_signature_for_name-IsNamed :
    (n : String) (minis : Catalog) (colors : Colors)
    → IsNonempty n
    → IsNamed (effective_mini_signature_for_name n minis colors)
unfolding effective_mini_signature_for_name effective_mini_signature
effective_mini_signature_for_name-IsNamed n minis colors h =
    rw h (elim (Option-cases (get n minis)) [ inl e ↦ rw e h | inr (stats, e) ↦ rw e tt ])

map-IsNamed :
    (names : List String) (minis : Catalog) (colors : Colors)
    → All IsNonempty names
    → All IsNamed (map (λ n. effective_mini_signature_for_name n minis colors) names)
map-IsNamed [] minis colors h = tt
map-IsNamed (n ∷ names) minis colors h = (
  effective_mini_signature_for_name-IsNamed n minis colors h.0,
  map-IsNamed names minis colors h.1,
)

length-map : (names : List String) (f : String → Signature) → length (map f names) ≡ length names
length-map [] f = refl
length-map (n ∷ names) f = omega (arith, length-map names f)

stripped-IsNonempty :
    (strip : String → String) (g : List (Option String)) → All IsNonempty (stripped strip g)
unfolding stripped
stripped-IsNonempty strip [] = tt
stripped-IsNonempty strip (none ∷ g) = stripped-IsNonempty strip g
stripped-IsNonempty strip (some x ∷ g) = elim (Bool-cases (str_eq (strip x) "")) [
  | inl t ↦ rw t (stripped-IsNonempty strip g)
  | inr t ↦ rw t (t, stripped-IsNonempty strip g)
]

-- With a catalog of nonempty names, every given mini that has a name has its own variant group, also
-- when several minis have the same signature: there are as many groups as stripped names.
pub canonical_minis_groups_from_names-stripped :
    (strip : String → String) (mini_names : List (Option String)) (minis : Catalog)
    (colors : Colors)
    → All (λ m. IsNonempty m.0) minis
    → (groups : List (List String)) × (canonical_minis_groups_from_names strip mini_names minis
          colors none
        ≡ ok groups)
      × (length groups ≡ length (stripped strip mini_names))
unfolding canonical_minis_groups_from_names groups_of minis_signature_to_names_map counted
canonical_minis_groups_from_names-stripped strip mini_names minis colors h =
    let names = stripped strip mini_names in
    let sigs = map (λ n. effective_mini_signature_for_name n minis colors) names in
    let given = stripped-IsNonempty strip mini_names in
    let entries =
      sorted-HasNames (collect_names colors [] minis)
        (collect_names-HasNames colors [] minis h tt) in
    let tallies = tally-IsTally [] names sigs given (map-IsNamed names minis colors given) tt in
    (
      groups_of minis colors names sigs,
      refl,
      length-variant_groups (minis_signature_to_names_map minis colors)
            (sort_tallies (tally [] names sigs)) entries
            (sort_tallies-IsTally (tally [] names sigs) tallies)
          ∙ counted-sort_tallies (tally [] names sigs)
          ∙ counted-tally [] names sigs
              (length-map names (λ n. effective_mini_signature_for_name n minis colors))
          ∙ omega arith,
    )
