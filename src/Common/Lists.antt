-- ===== src/Common/Lists.antt =====
-- Lists measured and indexed by native numbers, under the library's names.
use Prim.Native.Nat.{ℕ, zero, suc, ◌+◌, ◌≤◌, max}
use mathlib.Core.Path.{◌≡◌, refl, subst}
use mathlib.Core.List.{List, [], ◌∷◌, ◌++◌}
use mathlib.Core.Option.{Option, none, some, some-injective}
use native.Mathlib.Omega.{arith}

module _ {ℓ} {A : Type ℓ} where
  abbrev pub length : List A → ℕ
  length [] = 0
  length (x ∷ xs) = suc (length xs)

  abbrev pub get_elem? : List A → ℕ → Option A
  get_elem? [] i = none
  get_elem? (x ∷ xs) zero = some x
  get_elem? (x ∷ xs) (suc i) = get_elem? xs i

  abbrev pub take : ℕ → List A → List A
  take zero xs = []
  take (suc n) [] = []
  take (suc n) (x ∷ xs) = x ∷ take n xs

  -- A predicate of every element, by recursion, so that it computes to tuples.
  abbrev pub All {κ} : (A → Type κ) → List A → Type κ
  All P [] = Unit
  All P (x ∷ xs) = P x × All P xs

  pub length-append : (xs ys : List A) → length (xs ++ ys) ≡ length xs + length ys
  length-append [] ys = omega arith
  length-append (x ∷ xs) ys = omega (arith, length-append xs ys)

  pub length-take-le : (n : ℕ) (xs : List A) → length (take n xs) ≤ n
  length-take-le zero xs = omega arith
  length-take-le (suc n) [] = omega arith
  length-take-le (suc n) (x ∷ xs) = omega (arith, length-take-le n xs)

-- The greater of a best so far, if there is one, and a new value.
abbrev pub higher : Option ℕ → ℕ → Option ℕ
higher none n = some n
higher (some m) n = some (max m n)

-- Two lists whose elements at the same place are related, none missing in the second.
abbrev pub Each {ℓ κ μ} :
    {A : Type ℓ} {B : Type κ} → (A → B → Type μ) → List A → List B → Type (ℓ ⊔ κ ⊔ μ)
Each R xs ys =
    (i : ℕ) (x : _) → get_elem? xs i ≡ some x → (y : _) × (get_elem? ys i ≡ some y) × R x y

pub Each-nil {ℓ κ μ} : {A : Type ℓ} {B : Type κ} (R : A → B → Type μ) → Each R [] []
Each-nil R i x e = absurd (ground (arith, e))

pub Each-cons {ℓ κ μ} :
    {A : Type ℓ} {B : Type κ} (R : A → B → Type μ) (x : A) (y : B) (xs : List A) (ys : List B)
    → R x y
    → Each R xs ys
    → Each R (x ∷ xs) (y ∷ ys)
Each-cons R x y xs ys r rest zero z e = (y, refl, subst (λ z. R z y) (some-injective x z e) r)
Each-cons R x y xs ys r rest (suc i) z e = rest i z e
