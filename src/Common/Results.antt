-- ===== src/Common/Results.antt =====
-- What a Python call gives back: a value, or the exception that it raises.
use mathlib.Core.Logic.{◌⊎◌, inl, inr}
use mathlib.Core.Path.{◌≡◌, refl, ap}
use mathlib.Core.Bool.{Bool, true, false}
use native.Mathlib.Omega.{arith}

-- The exception classes that the modelled code raises, the service's own among them.
pub data Error : Type 0 where
  value_error runtime_error memory_error keyboard_interrupt type_error index_error request_error
        request_too_large service_not_ready :
      Error

pub data Result {ℓ} (A : Type ℓ) : Type ℓ where
  err : Error → Result A
  ok : A → Result A

-- A later statement runs only where the earlier ones returned.
infixl 5 ◌>>=◌
abbrev pub ◌>>=◌ {ℓ κ} : {A : Type ℓ} {B : Type κ} → Result A → (A → Result B) → Result B
call >>= next = elim call [ err raised ↦ err raised | ok value ↦ next value ]

-- `if test: raise e`, in front of the rest of a body
abbrev pub raise_if {ℓ} : {B : Type ℓ} → Bool → Error → Result B → Result B
raise_if test e rest = elim test [ true ↦ err e | false ↦ rest ]

pub Result-cases {ℓ} :
    {A : Type ℓ} (r : Result A) → ((e : Error) × (r ≡ err e)) ⊎ ((a : A) × (r ≡ ok a))
Result-cases (err e) = inl (e, refl)
Result-cases (ok a) = inr (a, refl)

pub ok-injective {ℓ} : {A : Type ℓ} (a b : A) → ok a ≡ ok b → a ≡ b
ok-injective a b h = ap (λ r. elim r [ err e ↦ a | ok x ↦ x ]) h

-- A chain that returned: its first call returned, and so did what follows.
pub bind-ok {ℓ κ} :
    {A : Type ℓ} {B : Type κ} (r : Result A) (next : A → Result B) (b : B)
    → (r >>= next) ≡ ok b
    → (a : A) × (r ≡ ok a) × (next a ≡ ok b)
bind-ok (err e) next b h = absurd (ground (arith, h))
bind-ok (ok a) next b h = (a, refl, h)

-- A check that a body passed.
pub raise_if-ok {ℓ} :
    {B : Type ℓ} (test : Bool) (e : Error) (rest : Result B) (b : B)
    → raise_if test e rest ≡ ok b
    → (test ≡ false) × (rest ≡ ok b)
raise_if-ok true e rest b h = absurd (ground (arith, h))
raise_if-ok false e rest b h = (refl, h)
