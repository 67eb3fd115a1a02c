-- ===== src/Cache/Keys.antt =====
-- The keys of the entries: distinct ones stay so, and the last entry is never evicted.

use text.Mathlib.TextEquality.{eq_iff}
use ro_beats_calculator_engi.Common.{
  ℕ, ◌≤◌, ◌<◌, ◌≡◌, refl, sym, ap, ◌∙◌, Bool, true, false, ◌||◌, some, List, [], ◌∷◌, ◌++◌, length,
  ltb, arith, Bool-cases, inl, inr,
}
use ro_beats_calculator_engi.Cache.{
  Key, same_key, has_prefix, value_of, without_key, evict, lru_pop_prefix,
}

same_key_refl : (a : Key) → same_key a a ≡ true
unfolding same_key
same_key_refl [] = refl
same_key_refl (x ∷ a) = ground (arith, eq_iff x x, same_key_refl a)

same_key_eq : (a b : Key) → same_key a b ≡ true → a ≡ b
unfolding same_key
same_key_eq [] [] h = refl
same_key_eq [] (y ∷ b) h = ground (arith, h)
same_key_eq (x ∷ a) [] h = ground (arith, h)
same_key_eq (x ∷ a) (y ∷ b) h =
    let e : x ≡ y = (eq_iff x y).0 (ground (arith, h)) in
    let rest : a ≡ b = same_key_eq a b (ground (arith, h)) in
    ap (λ t. t ∷ a) e ∙ ap (λ t. y ∷ t) rest

module _ {V : Type 0} where
  -- Whether an entry has a key.
  unfoldable pub holds : Key → List (Key × V) → Bool
  holds key [] = false
  holds key ((k, v) ∷ entries) = same_key k key || holds key entries

  abbrev pub DistinctKeys : List (Key × V) → Type 0
  DistinctKeys [] = Unit
  DistinctKeys ((k, v) ∷ entries) = (holds k entries ≡ false) × DistinctKeys entries

  holds-without_key :
      (key other : Key) (entries : List (Key × V))
      → holds other entries ≡ false
      → holds other (without_key key entries) ≡ false
  unfolding holds without_key
  holds-without_key key other [] h = refl
  holds-without_key key other ((k, v) ∷ entries) h = elim (Bool-cases (same_key k key)) [
    | inl t ↦ rw t (holds-without_key key other entries (ground (arith, h)))
    | inr t ↦ rw t (ground (arith, h, holds-without_key key other entries))
  ]

  pub holds-without_key_self :
      (key : Key) (entries : List (Key × V)) → holds key (without_key key entries) ≡ false
  unfolding holds without_key
  holds-without_key_self key [] = refl
  holds-without_key_self key ((k, v) ∷ entries) = elim (Bool-cases (same_key k key)) [
    | inl t ↦ rw t (holds-without_key_self key entries)
    | inr t ↦ rw t (ground (arith, t, holds-without_key_self key entries))
  ]

  pub DistinctKeys-without_key :
      (key : Key) (entries : List (Key × V))
      → DistinctKeys entries
      → DistinctKeys (without_key key entries)
  unfolding without_key
  DistinctKeys-without_key key [] d = tt
  DistinctKeys-without_key key ((k, v) ∷ entries) d = elim (Bool-cases (same_key k key)) [
    | inl t ↦ rw t (DistinctKeys-without_key key entries d.1)
    | inr t ↦ rw t (holds-without_key key k entries d.0, DistinctKeys-without_key key entries d.1)
  ]

  holds-append :
      (other key : Key) (v : V) (entries : List (Key × V))
      → holds other (entries ++ (key, v) ∷ []) ≡ (holds other entries || same_key key other)
  unfolding holds
  holds-append other key v [] = ground arith
  holds-append other key v ((k, w) ∷ entries) = ground (arith, holds-append other key v entries)

  pub DistinctKeys-append :
      (key : Key) (v : V) (entries : List (Key × V))
      → DistinctKeys entries
      → holds key entries ≡ false
      → DistinctKeys (entries ++ (key, v) ∷ [])
  unfolding holds
  DistinctKeys-append key v [] d h = (refl, tt)
  DistinctKeys-append key v ((k, w) ∷ entries) d h =
      let back : same_key key k ≡ true → same_key k key ≡ true =
        λ e. ap (λ t. same_key t key) (sym (same_key_eq key k e)) ∙ same_key_refl key in
      (
        ground (arith, d.0, h, holds-append k key v entries, back),
        DistinctKeys-append key v entries d.1 (ground (arith, h)),
      )

  pub DistinctKeys-evict :
      (bound : ℕ) (entries : List (Key × V))
      → DistinctKeys entries
      → DistinctKeys (evict bound entries)
  unfolding evict
  DistinctKeys-evict bound [] d = tt
  DistinctKeys-evict bound (e ∷ entries) d = elim (Bool-cases (ltb bound (length (e ∷ entries)))) [
    | inl t ↦ rw t (DistinctKeys-evict bound entries d.1)
    | inr t ↦ rw t d
  ]

  pub length-evict-le :
      (bound : ℕ) (entries : List (Key × V)) → length (evict bound entries) ≤ bound
  unfolding evict
  length-evict-le bound [] = omega arith
  length-evict-le bound (e ∷ entries) = elim (Bool-cases (ltb bound (length (e ∷ entries)))) [
    | inl t ↦ rw t (length-evict-le bound entries)
    | inr t ↦ rw t (ground (arith, t))
  ]

  pub length-without_key-le :
      (key : Key) (entries : List (Key × V)) → length (without_key key entries) ≤ length entries
  unfolding without_key
  length-without_key-le key [] = omega arith
  length-without_key-le key ((k, v) ∷ entries) = elim (Bool-cases (same_key k key)) [
    | inl t ↦ rw t (omega (arith, length-without_key-le key entries))
    | inr t ↦ rw t (omega (arith, length-without_key-le key entries))
  ]

  pub length-without_key-lt :
      (key : Key) (v : V) (entries : List (Key × V))
      → value_of key entries ≡ some v
      → length (without_key key entries) < length entries
  unfolding value_of without_key
  length-without_key-lt key v [] h = ground (arith, h)
  length-without_key-lt key v ((k, w) ∷ entries) h = elim (Bool-cases (same_key k key)) [
    | inl t ↦ rw t (omega (arith, length-without_key-le key entries))
    | inr t ↦ rw t (omega (arith, length-without_key-lt key v entries (rw t at h)))
  ]

  pub holds-lru_pop_prefix :
      (prefix other : Key) (entries : List (Key × V))
      → holds other entries ≡ false
      → holds other (lru_pop_prefix prefix entries).0 ≡ false
  unfolding holds lru_pop_prefix
  holds-lru_pop_prefix prefix other [] h = refl
  holds-lru_pop_prefix prefix other ((k, v) ∷ entries) h = elim (Bool-cases (has_prefix prefix k)) [
    | inl t ↦ rw t (holds-lru_pop_prefix prefix other entries (ground (arith, h)))
    | inr t ↦ rw t (ground (arith, h, holds-lru_pop_prefix prefix other entries))
  ]

  value_of-append :
      (key : Key) (v : V) (entries : List (Key × V))
      → holds key entries ≡ false
      → value_of key (entries ++ (key, v) ∷ []) ≡ some v
  unfolding value_of holds
  value_of-append key v [] h = rw (same_key_refl key) refl
  value_of-append key v ((k, w) ∷ entries) h =
      let t : same_key k key ≡ false = ground (arith, h) in
      rw t (value_of-append key v entries (ground (arith, h)))

  -- The last entry is never evicted.
  pub value_of-evict :
      (bound : ℕ) (key : Key) (v : V) (entries : List (Key × V))
      → 0 < bound
      → holds key entries ≡ false
      → value_of key (evict bound (entries ++ (key, v) ∷ [])) ≡ some v
  unfolding evict holds
  value_of-evict bound key v [] pos h =
      let t : ltb bound 1 ≡ false = ground (arith, pos) in rw t (value_of-append key v [] refl)
  value_of-evict bound key v ((k, w) ∷ entries) pos h =
      elim (Bool-cases (ltb bound (length ((k, w) ∷ entries ++ (key, v) ∷ [])))) [
        | inl t ↦ rw t (value_of-evict bound key v entries pos (ground (arith, h)))
        | inr t ↦ rw t (value_of-append key v ((k, w) ∷ entries) h)
      ]
