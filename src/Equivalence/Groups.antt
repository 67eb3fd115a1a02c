-- ===== src/Equivalence/Groups.antt =====
-- Normalized groups hold distinct stripped names, one at least.
use Prim.Native.String.{String, compare}
use text.Mathlib.Text.{◌==◌ as str_eq, is_lt}
use text.Mathlib.TextEquality.{eq_iff}
use ro_beats_calculator_engi.Common.{
  ◌≤◌, ◌≡◌, refl, ap, ◌∙◌, true, false, ◌||◌, Option, none, some, List, [], ◌∷◌, map, length, All,
  arith, Bool-cases, inl, inr,
}
use ro_beats_calculator_engi.Common.Dict.{contains, Distinct}
use ro_beats_calculator_engi.Equivalence.{
  distinct_names, insert_name, sorted, stripped, all_stripped, append_group, normalized_groups,
}

-- A nonempty stripped name.
abbrev pub IsName : (String → String) → String → Type 0
IsName strip n = (strip n ≡ n) × (str_eq n "" ≡ false)

contains-insert_name :
    (n m : String) (g : List String) → contains m (insert_name n g) ≡ (str_eq n m || contains m g)
unfolding contains insert_name
contains-insert_name n m [] = refl
contains-insert_name n m (k ∷ g) = elim (Bool-cases (is_lt (compare k n))) [
  | inl t ↦ rw t (ground (arith, contains-insert_name n m g))
  | inr t ↦ rw t refl
]

Distinct-insert_name :
    (n : String) (g : List String) → Distinct g → contains n g ≡ false → Distinct (insert_name n g)
unfolding contains insert_name
Distinct-insert_name n [] d h = (refl, tt)
Distinct-insert_name n (k ∷ g) d h = elim (Bool-cases (is_lt (compare k n))) [
  | inl t ↦ rw t (
    ground (arith, h, d.0, contains-insert_name n k g, eq_iff n k, eq_iff k n),
    Distinct-insert_name n g d.1 (ground (arith, h)),
  )
  | inr t ↦ rw t (h, d)
]

pub contains-sorted : (m : String) (g : List String) → contains m (sorted g) ≡ contains m g
unfolding contains sorted
contains-sorted m [] = refl
contains-sorted m (n ∷ g) =
    contains-insert_name n m (sorted g) ∙ ap (λ b. str_eq n m || b) (contains-sorted m g)

Distinct-sorted : (g : List String) → Distinct g → Distinct (sorted g)
unfolding sorted
Distinct-sorted [] d = tt
Distinct-sorted (n ∷ g) d =
    Distinct-insert_name n (sorted g) (Distinct-sorted g d.1) (contains-sorted n g ∙ d.0)

Distinct-distinct_names : (g : List String) → Distinct (distinct_names g)
unfolding distinct_names
Distinct-distinct_names [] = tt
Distinct-distinct_names (n ∷ g) = elim (Bool-cases (contains n (distinct_names g))) [
  | inl t ↦ rw t (Distinct-distinct_names g)
  | inr t ↦ rw t (t, Distinct-distinct_names g)
]

module _ (P : String → Type 0) where
  All-insert_name : (n : String) (g : List String) → P n → All P g → All P (insert_name n g)
  unfolding insert_name
  All-insert_name n [] p h = (p, tt)
  All-insert_name n (k ∷ g) p h = elim (Bool-cases (is_lt (compare k n))) [
    | inl t ↦ rw t (h.0, All-insert_name n g p h.1)
    | inr t ↦ rw t (p, h)
  ]

  pub All-sorted : (g : List String) → All P g → All P (sorted g)
  unfolding sorted
  All-sorted [] h = tt
  All-sorted (n ∷ g) h = All-insert_name n (sorted g) h.0 (All-sorted g h.1)

  pub All-distinct_names : (g : List String) → All P g → All P (distinct_names g)
  unfolding distinct_names
  All-distinct_names [] h = tt
  All-distinct_names (n ∷ g) h = elim (Bool-cases (contains n (distinct_names g))) [
    | inl t ↦ rw t (All-distinct_names g h.1)
    | inr t ↦ rw t (h.0, All-distinct_names g h.1)
  ]

-- A normalized group: distinct stripped names, one at least.
pub record IsGroup (strip : String → String) (g : List String) : Type 0 where
  pub names : All (IsName strip) g
  pub distinct : Distinct g
  pub nonempty : 1 ≤ length g

pub contains-distinct_names :
    (m : String) (g : List String) → contains m (distinct_names g) ≡ contains m g
unfolding contains distinct_names
contains-distinct_names m [] = refl
contains-distinct_names m (n ∷ g) = elim (Bool-cases (contains n (distinct_names g))) [
  | inl t ↦ rw t (ground (arith, t, eq_iff n m, contains-distinct_names m g))
  | inr t ↦ rw t (ap (λ b. str_eq n m || b) (contains-distinct_names m g))
]

pub length-contains : (m : String) (g : List String) → contains m g ≡ true → 1 ≤ length g
unfolding contains
length-contains m [] h = ground (arith, h)
length-contains m (n ∷ g) h = omega arith

IsGroup-sorted :
    (strip : String → String) (n : String) (g : List String)
    → All (IsName strip) (n ∷ g)
    → IsGroup strip (sorted (distinct_names (n ∷ g)))
unfolding contains
IsGroup-sorted strip n g h =
    let unique = distinct_names (n ∷ g) in
    let own : contains n (n ∷ g) ≡ true = ground (arith, eq_iff n n) in
    record {
      names = All-sorted (IsName strip) unique (All-distinct_names (IsName strip) (n ∷ g) h);
      distinct = Distinct-sorted unique (Distinct-distinct_names (n ∷ g));
      nonempty =
          length-contains n (sorted unique)
            (contains-sorted n unique ∙ contains-distinct_names n (n ∷ g) ∙ own);
    }

append_group-IsGroup :
    (strip : String → String) (names : List String) (groups : List (List String))
    → All (IsName strip) names
    → All (IsGroup strip) groups
    → All (IsGroup strip) (append_group strip names groups)
append_group-IsGroup strip [] groups h rest = rest
append_group-IsGroup strip (n ∷ names) groups h rest = (IsGroup-sorted strip n names h, rest)

module _ (strip : String → String) (idempotent : (x : String) → strip (strip x) ≡ strip x) where
  stripped_names : (g : List (Option String)) → All (IsName strip) (stripped strip g)
  unfolding stripped
  stripped_names [] = tt
  stripped_names (none ∷ g) = stripped_names g
  stripped_names (some x ∷ g) = elim (Bool-cases (str_eq (strip x) "")) [
    | inl t ↦ rw t (stripped_names g)
    | inr t ↦ rw t ((idempotent x, t), stripped_names g)
  ]

  pub normalized_groups-IsGroup :
      (groups : List (List (Option String))) → All (IsGroup strip) (normalized_groups strip groups)
  unfolding normalized_groups
  normalized_groups-IsGroup [] = tt
  normalized_groups-IsGroup (g ∷ groups) =
      append_group-IsGroup strip (stripped strip g) (normalized_groups strip groups)
        (stripped_names g) (normalized_groups-IsGroup groups)

  stripped_lem : (g : List String) → All (IsName strip) g → stripped strip (map (λ n. some n) g) ≡ g
  unfolding stripped
  stripped_lem [] h = refl
  stripped_lem (n ∷ g) h = rw (h.0.0, h.0.1) (ap (λ t. n ∷ t) (stripped_lem g h.1))

  -- Normalized groups are the stripped ones that the representatives are taken from.
  pub all_stripped-IsGroup :
      (groups : List (List String))
      → All (IsGroup strip) groups
      → all_stripped strip (map (λ g. map (λ n. some n) g) groups) ≡ groups
  unfolding all_stripped
  all_stripped-IsGroup [] h = refl
  all_stripped-IsGroup (g ∷ groups) h =
      rw (stripped_lem g h.0.names, all_stripped-IsGroup groups h.1) refl
