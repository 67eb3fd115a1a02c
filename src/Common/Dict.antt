-- ===== src/Common/Dict.antt =====
-- Python dicts with text keys: entries in insertion order, one for each key. Assignment keeps the
-- place of a key that is there.

use Prim.Native.String.{String}
use mathlib.Core.Bool.{Bool, true, false, ◌||◌}
use mathlib.Core.List.{List, [], ◌∷◌, map}
use mathlib.Core.Logic.{inl, inr}
use mathlib.Core.Option.{Option, none, some}
use mathlib.Core.Path.{◌≡◌, refl, sym, subst}
use native.Mathlib.Omega.{arith}
use text.Mathlib.Text.{◌==◌ as str_eq}
use text.Mathlib.TextEquality.{eq_iff}
use ro_beats_calculator_engi.Common.Tests.{if◌then◌else◌, Bool-cases}
use ro_beats_calculator_engi.Common.Lists.{All}

-- `k in keys`
unfoldable pub contains : String → List String → Bool
contains k [] = false
contains k (j ∷ js) = str_eq j k || contains k js

abbrev pub Distinct : List String → Type 0
Distinct [] = Unit
Distinct (k ∷ ks) = (contains k ks ≡ false) × Distinct ks

module _ {ℓ} {V : Type ℓ} where
  abbrev pub keys : List (String × V) → List String
  keys = map (λ e. e.0)

  -- `d.get(k)`
  unfoldable pub get : String → List (String × V) → Option V
  get k [] = none
  get k ((j, v) ∷ d) = elim (str_eq j k) [ true ↦ some v | false ↦ get k d ]

  -- `d[k] = v`
  unfoldable pub put : String → V → List (String × V) → List (String × V)
  put k v [] = (k, v) ∷ []
  put k v ((j, w) ∷ d) = elim (str_eq j k) [ true ↦ (j, v) ∷ d | false ↦ (j, w) ∷ put k v d ]

  pub get-put :
      (k j : String) (v : V) (d : List (String × V))
      → get j (put k v d) ≡ (if str_eq k j then some v else get j d)
  unfolding get put
  get-put k j v [] = ground arith
  get-put k j v ((i, w) ∷ d) = ground (arith, eq_iff i k, eq_iff i j, eq_iff k j, get-put k j v d)

  pub contains-keys-put :
      (k j : String) (v : V) (d : List (String × V))
      → contains j (keys (put k v d)) ≡ (str_eq k j || contains j (keys d))
  unfolding contains put
  contains-keys-put k j v [] = ground arith
  contains-keys-put k j v ((i, w) ∷ d) =
      ground (arith, eq_iff i k, eq_iff i j, eq_iff k j, contains-keys-put k j v d)

  pub put-Distinct :
      (k : String) (v : V) (d : List (String × V)) → Distinct (keys d) → Distinct (keys (put k v d))
  unfolding put contains
  put-Distinct k v [] h = (refl, tt)
  put-Distinct k v ((i, w) ∷ d) h =
      ground (arith, eq_iff i k, eq_iff k i, contains-keys-put k i v d, put-Distinct k v d h.1)

  pub put-All {κ} :
      (P : String × V → Type κ) (k : String) (v : V) (d : List (String × V))
      → All P d
      → P (k, v)
      → All P (put k v d)
  unfolding put
  put-All P k v [] h p = (p, tt)
  put-All P k v ((i, w) ∷ d) h p = elim (Bool-cases (str_eq i k)) [
    | inl e ↦ rw (e, put) ((subst (λ x. P (x, v)) (sym ((eq_iff i k).0 e)) p), h.1)
    | inr e ↦ rw (e, put) (h.0, put-All P k v d h.1 p)
  ]

  pub get-All {κ} :
      (P : String × V → Type κ) (k : String) (v : V) (d : List (String × V))
      → All P d
      → get k d ≡ some v
      → P (k, v)
  unfolding get
  get-All P k v [] h e = cc
  get-All P k v ((i, w) ∷ d) h e = elim (Bool-cases (str_eq i k)) [
    | inl t ↦
        let same : w ≡ v = ground arith in
        subst (λ x. P (x, v)) ((eq_iff i k).0 t) (subst (λ x. P (i, x)) same h.0)
    | inr t ↦ get-All P k v d h.1 (ground arith)
  ]
