-- ===== src/Score/FirstMax.antt =====
-- A scan for the first greatest entry: one concrete `np.argmax`.
use ro_beats_calculator_engi.Common.{
  ℕ, zero, suc, ◌+◌, ◌≤◌, ◌<◌, ◌≡◌, refl, ap, sym, inl, inr, ◌⊎◌, if◌then◌else◌, arith, ltb, List,
  [], ◌∷◌, some, get_elem?, Result, ok, err, value_error, ltb-cases,
}
use ro_beats_calculator_engi.Score.Best.{IsFirstMax, IsArgmax}

unfoldable pub argmax_from : ℕ → ℕ → ℕ → List ℕ → ℕ × ℕ
argmax_from best at i [] = (best, at)
argmax_from best at i (x ∷ xs) =
    argmax_from (if ltb best x then x else best) (if ltb best x then i else at) (suc i) xs

unfoldable pub scan : List ℕ → Result ℕ
unfolding argmax_from
scan [] = err value_error
scan (x ∷ xs) = ok (argmax_from x 0 1 xs).1

argmax_from-le : (b a i : ℕ) (xs : List ℕ) → b ≤ (argmax_from b a i xs).0
unfolding argmax_from
argmax_from-le b a i [] = omega arith
argmax_from-le b a i (x ∷ xs) =
    ground (arith, argmax_from-le x i (suc i) xs, argmax_from-le b a (suc i) xs)

argmax_from-greatest :
    (b a i : ℕ) (xs : List ℕ) (j x : ℕ) → get_elem? xs j ≡ some x → x ≤ (argmax_from b a i xs).0
unfolding argmax_from
argmax_from-greatest b a i [] j x h = cc
argmax_from-greatest b a i (y ∷ xs) zero x h =
    ground (arith, argmax_from-le y i (suc i) xs, argmax_from-le b a (suc i) xs)
argmax_from-greatest b a i (y ∷ xs) (suc j) x h = ground (
  arith,
  argmax_from-greatest (if ltb b y then y else b) (if ltb b y then i else a) (suc i) xs j x h,
)

-- Where the result of the scan stands: the entry it began with, or the first greatest of the rest.
abbrev Scanned : ℕ → ℕ → ℕ → List ℕ → ℕ × ℕ → Type 0
Scanned b a i xs r =
    ((r.0 ≡ b) × (r.1 ≡ a))
    ⊎ ((j : ℕ) × (r.1 ≡ i + j)
        × (get_elem? xs j ≡ some r.0)
        × (b < r.0)
        × ((k x : ℕ) → get_elem? xs k ≡ some x → k < j → x < r.0))

earlier :
    (y : ℕ) (xs : List ℕ) (j m : ℕ)
    → y < m
    → ((k x : ℕ) → get_elem? xs k ≡ some x → k < j → x < m)
    → (k x : ℕ) → get_elem? (y ∷ xs) k ≡ some x
    → k < suc j
    → x < m
earlier y xs j m h rest zero x e l = ground arith
earlier y xs j m h rest (suc k) x e l = rest k x e (omega arith)

Scanned-new :
    (b a i y : ℕ) (xs : List ℕ) (r : ℕ × ℕ)
    → b < y
    → Scanned y i (suc i) xs r
    → Scanned b a i (y ∷ xs) r
Scanned-new b a i y xs r h (inl (e, e')) =
    inr (0, omega arith, ap some (sym e), omega arith, λ k x g l. absurd (omega arith))
Scanned-new b a i y xs r h (inr (j, at, found, more, first)) =
    inr (suc j, omega arith, found, omega arith, earlier y xs j r.0 more first)

Scanned-old :
    (b a i y : ℕ) (xs : List ℕ) (r : ℕ × ℕ)
    → y ≤ b
    → Scanned b a (suc i) xs r
    → Scanned b a i (y ∷ xs) r
Scanned-old b a i y xs r h (inl e) = inl e
Scanned-old b a i y xs r h (inr (j, at, found, more, first)) =
    inr (suc j, omega arith, found, more, earlier y xs j r.0 (omega arith) first)

argmax_from-Scanned : (xs : List ℕ) (b a i : ℕ) → Scanned b a i xs (argmax_from b a i xs)
unfolding argmax_from
argmax_from-Scanned [] b a i = inl (refl, refl)
argmax_from-Scanned (y ∷ xs) b a i = elim (ltb-cases b y) [
  | inl (t, h) ↦
      rw (t, argmax_from) (Scanned-new b a i y xs _ h (argmax_from-Scanned xs y i (suc i)))
  | inr (t, h) ↦
      rw (t, argmax_from) (Scanned-old b a i y xs _ h (argmax_from-Scanned xs b a (suc i)))
]

Scanned-IsFirstMax :
    (y : ℕ) (xs : List ℕ) (r : ℕ × ℕ)
    → Scanned y 0 1 xs r
    → ((j x : ℕ) → get_elem? (y ∷ xs) j ≡ some x → x ≤ r.0)
    → IsFirstMax (y ∷ xs) r.0 r.1
Scanned-IsFirstMax y xs r (inl (e, at)) top = record {
  found = rw (at, e);
  greatest = top;
  first = λ j x g l. absurd (omega arith);
}
Scanned-IsFirstMax y xs r (inr (j, at, found, more, first)) top =
    let at' : r.1 ≡ suc j = omega arith in
    record {
      found = rw at' found;
      greatest = top;
      first = λ k x g l. earlier y xs j r.0 more first k x g (omega arith);
    }

argmax-greatest :
    (y : ℕ) (xs : List ℕ) (j x : ℕ) → get_elem? (y ∷ xs) j ≡ some x → x ≤ (argmax_from y 0 1 xs).0
argmax-greatest y xs zero x g = ground (arith, argmax_from-le y 0 1 xs)
argmax-greatest y xs (suc j) x g = argmax_from-greatest y 0 1 xs j x g

pub scan-IsArgmax : IsArgmax scan
unfolding scan
scan-IsArgmax = record {
  empty = refl;
  first_max = λ y xs. (
    (argmax_from y 0 1 xs).1,
    refl,
    (
      (argmax_from y 0 1 xs).0,
      Scanned-IsFirstMax y xs (argmax_from y 0 1 xs) (argmax_from-Scanned xs y 0 1)
          (argmax-greatest y xs),
    ),
  );
}
