-- ===== src/Equivalence/Display.antt =====
-- The slots' groups rotated for display: the same names, each slot's representative first.
use Prim.Native.String.{String}
use text.Mathlib.Text.{◌==◌ as str_eq}
use text.Mathlib.TextEquality.{eq_iff}
use ro_beats_calculator_engi.Common.{
  ◌+◌, ◌≡◌, refl, ap, subst, true, false, not, ◌&&◌, Option, some, List, [], ◌∷◌, ◌++◌, map, length,
  get_elem?, ltb, if◌then◌else◌, All, arith, Bool-cases, inl, inr,
}
use ro_beats_calculator_engi.Common.Dict.{contains, Distinct}
use ro_beats_calculator_engi.Equivalence.{
  normalized_groups, representatives_of, without, rotate_group, rotate_groups,
  rotate_mini_groups_for_slot_display,
}
use ro_beats_calculator_engi.Equivalence.Groups.{
  IsName, IsGroup, normalized_groups-IsGroup, all_stripped-IsGroup,
}
use ro_beats_calculator_engi.Equivalence.Names.{
  AreRepresentatives, representative_mini_names-AreRepresentatives,
}

contains-without :
    (r m : String) (g : List String) → contains m (without r g) ≡ (contains m g && not (str_eq r m))
unfolding contains without
contains-without r m [] = refl
contains-without r m (n ∷ g) = elim (Bool-cases (str_eq n r)) [
  | inl t ↦ rw t (ground (arith, contains-without r m g, t, eq_iff n r, eq_iff r m, eq_iff n m))
  | inr t ↦ rw t (ground (arith, contains-without r m g, t, eq_iff n r, eq_iff r m, eq_iff n m))
]

length-without :
    (r : String) (g : List String)
    → Distinct g
    → length (without r g) + (if contains r g then 1 else 0) ≡ length g
unfolding contains without
length-without r [] d = omega arith
length-without r (n ∷ g) d = elim (Bool-cases (str_eq n r)) [
  | inl t ↦
      let same : contains n g ≡ contains r g = ap (λ s. contains s g) ((eq_iff n r).0 t) in
      rw t (ground (arith, length-without r g d.1, same, d.0))
  | inr t ↦ rw t (ground (arith, length-without r g d.1))
]

contains_first :
    (r m : String) (g : List String)
    → contains r g ≡ true
    → contains m (r ∷ without r g) ≡ contains m g
unfolding contains
contains_first r m g h = elim (Bool-cases (str_eq r m)) [
  | inl t ↦
      let own : contains m g ≡ true = subst (λ m. contains m g ≡ true) ((eq_iff r m).0 t) h in
      ground (arith, t, own)
  | inr t ↦ ground (arith, t, contains-without r m g)
]

named :
    (strip : String → String) (r : String) (g : List String)
    → All (IsName strip) g
    → contains r g ≡ true
    → str_eq r "" ≡ false
unfolding contains
named strip r [] v h = ground (arith, h)
named strip r (n ∷ g) v h = elim (Bool-cases (str_eq n r)) [
  | inl t ↦ subst (λ s. str_eq s "" ≡ false) ((eq_iff n r).0 t) v.0.1
  | inr t ↦ named strip r g v.1 (ground (arith, h, t))
]

-- A group that is not rotated has its representative as its only name.
only_name :
    (strip : String → String) (r : String) (g : List String)
    → All (IsName strip) g
    → contains r g ≡ true
    → (not (str_eq r "") && contains r g && ltb 1 (length g)) ≡ false
    → get_elem? g 0 ≡ some r
unfolding contains
only_name strip r [] v h t = ground (arith, h)
only_name strip r (n ∷ []) v h t = ap some ((eq_iff n r).0 (ground (arith, h)))
only_name strip r (n ∷ m ∷ g) v h t =
    let name = named strip r (n ∷ m ∷ g) v h in ground (arith, name, h, t)

-- The same names as the group, with `r` first.
pub record IsRotated (g : List String) (r : String) (out : List String) : Type 0 where
  pub first : get_elem? out 0 ≡ some r
  pub same_names : (m : String) → contains m out ≡ contains m g
  pub same_length : length out ≡ length g

rotate_group-IsRotated :
    (strip : String → String) (g : List String) (r : String)
    → IsGroup strip g
    → contains r g ≡ true
    → IsRotated g r (rotate_group g r)
unfolding rotate_group
rotate_group-IsRotated strip g r v h =
    elim (Bool-cases (not (str_eq r "") && contains r g && ltb 1 (length g))) [
      | inl t ↦ rw t (record {
        first = refl;
        same_names = λ m. contains_first r m g h;
        same_length = ground (arith, length-without r g v.distinct, h);
      })
      | inr t ↦ rw t (record {
        first = only_name strip r g v.names h t;
        same_names = λ m. refl;
        same_length = refl;
      })
    ]

abbrev pub AreRotated : List (List String) → List String → List (List String) → Type 0
AreRotated [] [] [] = Unit
AreRotated (g ∷ groups) (r ∷ reps) (out ∷ outs) = IsRotated g r out × AreRotated groups reps outs
AreRotated groups reps outs = ⊥

rotate_groups-AreRotated :
    (strip : String → String) (used : List String) (groups : List (List String))
    (reps : List String)
    → All (IsGroup strip) groups
    → AreRepresentatives used groups reps
    → AreRotated groups reps (rotate_groups groups reps)
unfolding rotate_groups
rotate_groups-AreRotated strip used [] [] v h = tt
rotate_groups-AreRotated strip used [] (r ∷ reps) v h = h
rotate_groups-AreRotated strip used ([] ∷ groups) reps v h = absurd (omega (arith, v.0.nonempty))
rotate_groups-AreRotated strip used ((n ∷ names) ∷ groups) [] v h = h
rotate_groups-AreRotated strip used ((n ∷ names) ∷ groups) (r ∷ reps) v h = (
  rotate_group-IsRotated strip (n ∷ names) r v.0 h.0,
  rotate_groups-AreRotated strip (used ++ r ∷ []) groups reps v.1 h.2,
)

-- Where stripping twice is stripping once, every normalized slot is shown in its place with all of its
-- names, its representative first; a representative is taken again only if every name of
-- its group is taken.
pub rotate_mini_groups_for_slot_display-AreRotated :
    (strip : String → String) (groups : List (List (Option String)))
    → ((x : String) → strip (strip x) ≡ strip x)
    → (reps : List String) × AreRepresentatives [] (normalized_groups strip groups) reps
      × AreRotated
          (normalized_groups strip groups)
          reps
          (rotate_mini_groups_for_slot_display strip groups)
unfolding rotate_mini_groups_for_slot_display
rotate_mini_groups_for_slot_display-AreRotated strip groups idempotent =
    let normalized = normalized_groups strip groups in
    let v = normalized_groups-IsGroup strip idempotent groups in
    let reps = representatives_of strip normalized in
    let same = all_stripped-IsGroup strip idempotent normalized v in
    let chosen =
      representative_mini_names-AreRepresentatives strip
        (map (λ g. map (λ n. some n) g) normalized) in
    let taken = rw same at chosen in
    (reps, taken, rotate_groups-AreRotated strip [] normalized reps v taken)
