-- ===== src/Surface/Rows.antt =====
-- The round trips of surface rows and of packed patterns.

use ro_beats_calculator_engi.Common.{
  ℕ, zero, suc, ◌+◌, ◌*◌, ◌/◌, ◌%◌, ◌^◌, ◌≤◌, ◌<◌, ◌≡◌, refl, ap, ◌∙◌, some, List, [], ◌∷◌, map, ok,
  length, get_elem?, take, All, arith, Option-cases, Result-cases, inl, inr,
}
use ro_beats_calculator_engi.Common.Words.{bit_or-shifted, bit_and-mask}
use ro_beats_calculator_engi.Surface.{
  NumbaRow, low_word, high_word, surface_row_from_numba_row, Pattern, pattern_of, RowRef, int32_max,
  uint16_max, row_refs, Coeffs, PackedPattern, pack_halves, pack_row, pack_rows, join_words,
  joined_row, expand_rows, drop,
}

pub pack_halves_lem :
    (low high : ℕ)
    → low ≤ uint16_max
    → high ≤ uint16_max
    → pack_halves (low % 2 ^ 16) (high % 2 ^ 16) ≡ low + high * 2 ^ 16
pack_halves_lem low high h k =
    let l : low % 2 ^ 16 ≡ low = omega arith in
    let r : high % 2 ^ 16 ≡ high = omega arith in
    let whole : high * 2 ^ 16 % 2 ^ 32 ≡ high * 2 ^ 16 = omega arith in
    rw (l, r, whole) (bit_or-shifted 16 low high (omega arith))

-- Splitting a 64-bit word into two 32-bit words and joining them gives it back.
join_split : (word : ℕ) → word < 2 ^ 64 → join_words (low_word word) (high_word word) ≡ word
join_split word h =
    let l = bit_and-mask 32 word in
    let r = bit_and-mask 32 (word / 2 ^ 32) in
    let small : word / 2 ^ 32 % 2 ^ 32 ≡ word / 2 ^ 32 = omega arith in
    let whole : word / 2 ^ 32 * 2 ^ 32 % 2 ^ 64 ≡ word / 2 ^ 32 * 2 ^ 32 = omega arith in
    rw (l, r, small, whole)
      (bit_or-shifted 32 (word % 2 ^ 32) (word / 2 ^ 32) (omega arith) ∙ omega arith)

-- A producer row: 64-bit masks and 32-bit counts.
pub record IsNumbaRow (r : NumbaRow) : Type 0 where
  pub fever_lo : r.fever_lo < 2 ^ 64
  pub fever_hi : r.fever_hi < 2 ^ 64
  pub great_lo : r.great_lo < 2 ^ 64
  pub great_hi : r.great_hi < 2 ^ 64
  pub body_fever : r.body_fever < 2 ^ 32
  pub body_great : r.body_great < 2 ^ 32
  pub body_fever_great : r.body_fever_great < 2 ^ 32

abbrev row_ref : ℕ → NumbaRow → RowRef
row_ref i r =
    let s = surface_row_from_numba_row r in
    record {
      pattern_id = i % 2 ^ 32;
      body_fever = s.body_fever;
      body_great = s.body_great;
      body_fever_great = s.body_fever_great;
    }

joined_lem :
    (i : ℕ) (r : NumbaRow)
    → IsNumbaRow r
    → joined_row (pattern_of (surface_row_from_numba_row r)) (row_ref i r) ≡ r
unfolding surface_row_from_numba_row
joined_lem i r v =
    let a : r.body_fever % 2 ^ 32 ≡ r.body_fever = omega (arith, v.body_fever) in
    let b : r.body_great % 2 ^ 32 ≡ r.body_great = omega (arith, v.body_great) in
    let c : r.body_fever_great % 2 ^ 32 ≡ r.body_fever_great = omega (arith, v.body_fever_great) in
    let fl = join_split r.fever_lo v.fever_lo in
    let fh = join_split r.fever_hi v.fever_hi in
    let gl = join_split r.great_lo v.great_lo in
    let gh = join_split r.great_hi v.great_hi in
    λ i. record {
      fever_lo = fl i;
      fever_hi = fh i;
      great_lo = gl i;
      great_hi = gh i;
      body_fever = a i;
      body_great = b i;
      body_fever_great = c i;
    }

get_elem?-lt {ℓ} :
    {A : Type ℓ} (xs : List A) (i : ℕ) (a : A) → get_elem? xs i ≡ some a → i < length xs
get_elem?-lt [] i a h = ground (arith, h)
get_elem?-lt (x ∷ xs) zero a h = omega arith
get_elem?-lt (x ∷ xs) (suc i) a h = omega (arith, get_elem?-lt xs i a h)

get_elem?-pack_rows :
    (words : List Pattern) (coeffs : List Coeffs) (i : ℕ) (w : Pattern)
    → length coeffs ≡ length words
    → get_elem? words i ≡ some w
    → (p : PackedPattern) × (get_elem? (pack_rows words coeffs) i ≡ some p) × (p.words ≡ w)
unfolding pack_rows
get_elem?-pack_rows [] coeffs i w e h = ground (arith, h)
get_elem?-pack_rows (v ∷ words) [] i w e h = absurd (omega (arith, e))
get_elem?-pack_rows (v ∷ words) (c ∷ coeffs) zero w e h = (pack_row v c, refl, ground (arith, h))
get_elem?-pack_rows (v ∷ words) (c ∷ coeffs) (suc i) w e h =
    get_elem?-pack_rows words coeffs i w (omega (arith, e)) h

-- Every row's reference finds its pattern among the interned ones.
abbrev pub Interned : List Pattern → List ℕ → List NumbaRow → Type 0
Interned words inverse rows =
    map (get_elem? words) inverse ≡ map (λ r. some (pattern_of (surface_row_from_numba_row r))) rows

pub expand_lem :
    (words : List Pattern) (coeffs : List Coeffs) (inverse : List ℕ) (rows : List NumbaRow)
    → length coeffs ≡ length words
    → length words ≤ int32_max
    → All IsNumbaRow rows
    → Interned words inverse rows
    → expand_rows (pack_rows words coeffs) (row_refs inverse (map surface_row_from_numba_row rows))
      ≡ ok rows
unfolding expand_rows row_refs
expand_lem words coeffs [] [] e l v h = refl
expand_lem words coeffs (i ∷ inverse) [] e l v h = ground (arith, h)
expand_lem words coeffs [] (r ∷ rows) e l v h = ground (arith, h)
expand_lem words coeffs (i ∷ inverse) (r ∷ rows) e l v h =
    let here : get_elem? words i ≡ some (pattern_of (surface_row_from_numba_row r)) =
      ground (arith, h) in
    let there : Interned words inverse rows = ground (arith, h) in
    let below = get_elem?-lt words i _ here in
    let fits : i % 2 ^ 32 ≡ i = omega (arith, below, l) in
    let (p, found, same) = get_elem?-pack_rows words coeffs i _ e here in
    let rest = expand_lem words coeffs inverse rows e l v.1 there in
    let joined = joined_lem i r v.0 in
    rw (fits, expand_rows)
      (rw (found, expand_rows)
        (rw (rest, expand_rows)
          (ap (λ w. ok (joined_row w (row_ref i r) ∷ rows)) same
            ∙ ap (λ (t : NumbaRow). ok (t ∷ rows)) joined)))

expand-cons :
    (patterns : List PackedPattern) (r : RowRef) (refs : List RowRef) (rows : List NumbaRow)
    → expand_rows patterns (r ∷ refs) ≡ ok rows
    → (p : PackedPattern) × (rest : List NumbaRow) × (get_elem? patterns r.pattern_id ≡ some p)
      × (expand_rows patterns refs ≡ ok rest)
      × (rows ≡ joined_row p.words r ∷ rest)
unfolding expand_rows
expand-cons patterns r refs rows h = elim (Option-cases (get_elem? patterns r.pattern_id)) [
  | inl e ↦ absurd (ground (arith, e, h))
  | inr (p, e) ↦ elim (Result-cases (expand_rows patterns refs)) [
    | inl (raised, f) ↦ absurd (ground (arith, e, f, h))
    | inr (rest, f) ↦ (p, rest, e, f, ground (arith, e, f, h))
  ]
]

expand-none :
    (patterns : List PackedPattern) (n : ℕ) (rows : List NumbaRow)
    → expand_rows patterns [] ≡ ok rows
    → expand_rows patterns [] ≡ ok (drop n rows)
unfolding expand_rows drop
expand-none patterns zero rows h = h
expand-none patterns (suc n) [] h = h
expand-none patterns (suc n) (x ∷ rows) h = absurd (ground (arith, h))

pub expand-drop :
    (patterns : List PackedPattern) (n : ℕ) (refs : List RowRef) (rows : List NumbaRow)
    → expand_rows patterns refs ≡ ok rows
    → expand_rows patterns (drop n refs) ≡ ok (drop n rows)
unfolding drop
expand-drop patterns zero refs rows h = h
expand-drop patterns (suc n) [] rows h = expand-none patterns (suc n) rows h
expand-drop patterns (suc n) (r ∷ refs) rows h =
    let (p, rest, found, tail, is) = expand-cons patterns r refs rows h in
    rw is (expand-drop patterns n refs rest tail)

pub expand-take :
    (patterns : List PackedPattern) (n : ℕ) (refs : List RowRef) (rows : List NumbaRow)
    → expand_rows patterns refs ≡ ok rows
    → expand_rows patterns (take n refs) ≡ ok (take n rows)
unfolding expand_rows
expand-take patterns zero refs rows h = refl
expand-take patterns (suc n) [] rows h = ground (arith, h)
expand-take patterns (suc n) (r ∷ refs) rows h =
    let (p, rest, found, tail, is) = expand-cons patterns r refs rows h in
    let taken = expand-take patterns n refs rest tail in
    rw (is, found, expand_rows) (rw (taken, expand_rows) refl)
