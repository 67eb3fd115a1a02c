-- ===== src/Equivalence/Tallies.antt =====
-- The count of each signature: it counts every name, and holds names that are not empty.
use Prim.Native.String.{String, compare}
use text.Mathlib.Text.{◌==◌ as str_eq, is_lt}
use ro_beats_calculator_engi.Common.{
  ℕ, suc, ◌+◌, ◌≡◌, refl, false, List, [], ◌∷◌, length, All, arith, Bool-cases, inl, inr,
}
use ro_beats_calculator_engi.Equivalence.Signatures.{
  Signature, name, effective, same_signature, Tally, tally_one, tally, insert_tally, sort_tallies,
  sig_sort_key,
}

abbrev pub IsNonempty : String → Type 0
IsNonempty n = str_eq n "" ≡ false

-- The tallies count every name once.
unfoldable pub counted : List Tally → ℕ
counted [] = 0
counted (t ∷ tallies) = t.count + counted tallies

counted-tally_one :
    (sig : Signature) (n : String) (tallies : List Tally)
    → counted (tally_one sig n tallies) ≡ suc (counted tallies)
unfolding counted tally_one
counted-tally_one sig n [] = omega arith
counted-tally_one sig n (t ∷ tallies) = elim (Bool-cases (same_signature t.sig sig)) [
  | inl e ↦ rw e (omega arith)
  | inr e ↦ rw e (omega (arith, counted-tally_one sig n tallies))
]

pub counted-tally :
    (tallies : List Tally) (names : List String) (sigs : List Signature)
    → length sigs ≡ length names
    → counted (tally tallies names sigs) ≡ counted tallies + length names
unfolding tally
counted-tally tallies [] sigs h = omega arith
counted-tally tallies (n ∷ names) [] h = absurd (omega (arith, h))
counted-tally tallies (n ∷ names) (sig ∷ sigs) h = omega (
  arith,
  counted-tally (tally_one sig n tallies) names sigs (omega (arith, h)),
  counted-tally_one sig n tallies,
)

counted-insert_tally :
    (t : Tally) (tallies : List Tally)
    → counted (insert_tally t tallies) ≡ t.count + counted tallies
unfolding counted insert_tally
counted-insert_tally t [] = refl
counted-insert_tally t (u ∷ tallies) =
    elim (Bool-cases (is_lt (compare (sig_sort_key u.sig) (sig_sort_key t.sig)))) [
      | inl e ↦ rw e (omega (arith, counted-insert_tally t tallies))
      | inr e ↦ rw e refl
    ]

pub counted-sort_tallies : (tallies : List Tally) → counted (sort_tallies tallies) ≡ counted tallies
unfolding counted sort_tallies
counted-sort_tallies [] = refl
counted-sort_tallies (t ∷ tallies) =
    omega (arith, counted-insert_tally t (sort_tallies tallies), counted-sort_tallies tallies)

-- A signature that is a name has one.
abbrev pub IsNamed : Signature → Type 0
IsNamed (name n) = IsNonempty n
IsNamed (effective xs) = Unit

abbrev pub IsTally : Tally → Type 0
IsTally t = IsNamed t.sig × IsNonempty t.rep

tally_one-IsTally :
    (sig : Signature) (n : String) (tallies : List Tally)
    → IsNamed sig
    → IsNonempty n
    → All IsTally tallies
    → All IsTally (tally_one sig n tallies)
unfolding tally_one
tally_one-IsTally sig n [] s h v = ((s, h), tt)
tally_one-IsTally sig n (t ∷ tallies) s h v = elim (Bool-cases (same_signature t.sig sig)) [
  | inl e ↦ rw e v
  | inr e ↦ rw e (v.0, tally_one-IsTally sig n tallies s h v.1)
]

pub tally-IsTally :
    (tallies : List Tally) (names : List String) (sigs : List Signature)
    → All IsNonempty names
    → All IsNamed sigs
    → All IsTally tallies
    → All IsTally (tally tallies names sigs)
unfolding tally
tally-IsTally tallies [] sigs h s v = v
tally-IsTally tallies (n ∷ names) [] h s v = v
tally-IsTally tallies (n ∷ names) (sig ∷ sigs) h s v =
    tally-IsTally (tally_one sig n tallies) names sigs h.1 s.1
      (tally_one-IsTally sig n tallies s.0 h.0 v)

insert_tally-IsTally :
    (t : Tally) (tallies : List Tally)
    → IsTally t
    → All IsTally tallies
    → All IsTally (insert_tally t tallies)
unfolding insert_tally
insert_tally-IsTally t [] h v = (h, tt)
insert_tally-IsTally t (u ∷ tallies) h v =
    elim (Bool-cases (is_lt (compare (sig_sort_key u.sig) (sig_sort_key t.sig)))) [
      | inl e ↦ rw e (v.0, insert_tally-IsTally t tallies h v.1)
      | inr e ↦ rw e (h, v)
    ]

pub sort_tallies-IsTally :
    (tallies : List Tally) → All IsTally tallies → All IsTally (sort_tallies tallies)
unfolding sort_tallies
sort_tallies-IsTally [] v = tt
sort_tallies-IsTally (t ∷ tallies) v =
    insert_tally-IsTally t (sort_tallies tallies) v.0 (sort_tallies-IsTally tallies v.1)
