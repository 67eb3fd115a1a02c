-- ===== src/Equivalence/Names.antt =====
-- Each group's representative is one of its names, and not a taken one while another is free.
use Prim.Native.String.{String}
use text.Mathlib.TextEquality.{eq_iff}
use ro_beats_calculator_engi.Common.{
  ℕ, zero, suc, ◌%◌, ◌≡◌, refl, sym, ap, ◌∙◌, Bool, true, not, ◌&&◌, ◌||◌, Option, List, [], ◌∷◌,
  ◌++◌, length, All, arith, Bool-cases, inl, inr,
}
use ro_beats_calculator_engi.Common.Dict.{contains}
use ro_beats_calculator_engi.Equivalence.{
  GroupCounts, count_of, count_one, name_at, first_unused, choose, representatives_from,
  all_stripped, representative_mini_names,
}

-- Every name of a group is taken.
abbrev pub all_taken : List String → List String → Bool
all_taken used [] = true
all_taken used (n ∷ g) = contains n used && all_taken used g

contains-name_at :
    (n : String) (names : List String) (i : ℕ) → contains (name_at n names i) (n ∷ names) ≡ true
unfolding contains name_at
contains-name_at n names zero = ground (arith, eq_iff n n)
contains-name_at n [] (suc i) = ground (arith, eq_iff n n)
contains-name_at n (m ∷ names) (suc i) = ground (arith, contains-name_at m names i)

-- The name that is found is free, or there is no free one.
first_unused_lem :
    (g used : List String) (preferred : String)
    → (not (contains (first_unused g used preferred) used) || all_taken used g) ≡ true
unfolding first_unused
first_unused_lem [] used preferred = ground arith
first_unused_lem (n ∷ g) used preferred = elim (Bool-cases (contains n used)) [
  | inl t ↦ rw t (first_unused_lem g used preferred)
  | inr t ↦ rw t (ground (arith, t))
]

contains-first_unused :
    (g used whole : List String) (preferred : String)
    → contains preferred whole ≡ true
    → All (λ n. contains n whole ≡ true) g
    → contains (first_unused g used preferred) whole ≡ true
unfolding first_unused
contains-first_unused [] used whole preferred h k = h
contains-first_unused (n ∷ g) used whole preferred h k = elim (Bool-cases (contains n used)) [
  | inl t ↦ rw t (contains-first_unused g used whole preferred h k.1)
  | inr t ↦ rw t k.0
]

All-contains_cons :
    (n : String) (g ys : List String)
    → All (λ m. contains m ys ≡ true) g
    → All (λ m. contains m (n ∷ ys) ≡ true) g
unfolding contains
All-contains_cons n [] ys h = tt
All-contains_cons n (m ∷ g) ys h = (ground (arith, h.0), All-contains_cons n g ys h.1)

All-contains_self : (g : List String) → All (λ m. contains m g ≡ true) g
unfolding contains
All-contains_self [] = tt
All-contains_self (n ∷ g) =
    (ground (arith, eq_iff n n), All-contains_cons n g g (All-contains_self g))

choose_lem :
    (n : String) (names : List String) (seen : ℕ) (used : List String)
    → (contains (choose n names seen used) (n ∷ names) ≡ true)
      × ((not (contains (choose n names seen used) used) || all_taken used (n ∷ names)) ≡ true)
unfolding choose
choose_lem n names seen used =
    let preferred = name_at n names (seen % length (n ∷ names)) in
    let own = contains-name_at n names (seen % length (n ∷ names)) in
    elim (Bool-cases (contains preferred used)) [
      | inl t ↦ rw t (
        contains-first_unused (n ∷ names) used (n ∷ names) preferred own
            (All-contains_self (n ∷ names)),
        first_unused_lem (n ∷ names) used preferred,
      )
      | inr t ↦ rw t (own, ground (arith, t))
    ]

-- The representatives of the groups that have a name, in order.
abbrev pub AreRepresentatives : List String → List (List String) → List String → Type 0
AreRepresentatives used [] [] = Unit
AreRepresentatives used [] (r ∷ reps) = ⊥
AreRepresentatives used ([] ∷ groups) reps = AreRepresentatives used groups reps
AreRepresentatives used ((n ∷ names) ∷ groups) [] = ⊥
AreRepresentatives used ((n ∷ names) ∷ groups) (r ∷ reps) =
    (contains r (n ∷ names) ≡ true)
    × ((not (contains r used) || all_taken used (n ∷ names)) ≡ true)
    × AreRepresentatives (used ++ r ∷ []) groups reps

append_assoc :
    (xs : List String) (y : String) (zs : List String) → (xs ++ y ∷ []) ++ zs ≡ xs ++ y ∷ zs
append_assoc [] y zs = refl
append_assoc (x ∷ xs) y zs = ap (λ t. x ∷ t) (append_assoc xs y zs)

append_nil : (xs : List String) → xs ++ [] ≡ xs
append_nil [] = refl
append_nil (x ∷ xs) = ap (λ t. x ∷ t) (append_nil xs)

representatives_from-AreRepresentatives :
    (used : List String) (counts : GroupCounts) (groups : List (List String))
    → (reps : List String) × (representatives_from used counts groups ≡ used ++ reps)
      × AreRepresentatives used groups reps
unfolding representatives_from
representatives_from-AreRepresentatives used counts [] = ([], sym (append_nil used), tt)
representatives_from-AreRepresentatives used counts ([] ∷ groups) =
    representatives_from-AreRepresentatives used counts groups
representatives_from-AreRepresentatives used counts ((n ∷ names) ∷ groups) =
    let seen = count_of (n ∷ names) counts in
    let r = choose n names seen used in
    let own = choose_lem n names seen used in
    let (reps, made, rest) =
      representatives_from-AreRepresentatives (used ++ r ∷ []) (count_one (n ∷ names) counts)
        groups in
    (r ∷ reps, made ∙ append_assoc used r reps, (own.0, own.1, rest))

-- Each group that has a name is represented, in order, by one of its stripped names; and the
-- representative stands for an earlier group too only if every name of its group does.
pub representative_mini_names-AreRepresentatives :
    (strip : String → String) (groups : List (List (Option String)))
    → AreRepresentatives [] (all_stripped strip groups) (representative_mini_names strip groups)
unfolding representative_mini_names
representative_mini_names-AreRepresentatives strip groups =
    let (reps, made, rest) =
      representatives_from-AreRepresentatives [] [] (all_stripped strip groups) in
    rw made rest
