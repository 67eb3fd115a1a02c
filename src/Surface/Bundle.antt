-- ===== src/Surface/Bundle.antt =====
-- A bundle's rows, saved and expanded again, and its patterns, packed and unpacked:
-- gear_optimizer/frontier/fg_cache_store.py, fg_cache_patterns.py and fg_cache_serde.py.
use ro_beats_calculator_engi.Common.{
  ℕ, zero, suc, ◌+◌, ◌-◌, ◌*◌, ◌/◌, ◌%◌, ◌^◌, ◌≤◌, ◌≡◌, refl, ap, ◌∙◌, min, false, ◌&&◌, ◌||◌, some,
  List, [], ◌∷◌, map, Result, ok, err, value_error, ◌>>=◌, ltb, leb, ◌==◌, ==_iff, if◌then◌else◌,
  length, get_elem?, take, All, arith,
}
use Prim.Native.Nat.{bit_and}
use ro_beats_calculator_engi.Common.Words.{bit_and-mask, low_half, high_half}
use ro_beats_calculator_engi.Surface.{
  NumbaRow, Pattern, Coeffs, PackedPattern, RowRef, surface_row_from_numba_row, pattern_of,
  int32_max, uint16_max, max_coeff, any_exceeds, row_refs, pack_rows, pack_row, unpack_row,
  pack_surface_patterns, unpack_surface_patterns, intern_surface_row_words, expand_rows, slice,
  drop, segment_rows, fill_rows, broadcast_row, pack_halves,
}
use ro_beats_calculator_engi.Surface.Rows.{
  IsNumbaRow, expand_lem, expand-drop, expand-take, pack_halves_lem,
}
use ro_beats_calculator_engi.Surface.Heads.{
  surface_head_coeffs, save_surface_rows, surface_head_coeffs-fit, length-surface_head_coeffs,
}

-- What `np.unique(keys, axis=0, return_inverse=True)` promises: the inverse indices rebuild the keys.
pub record IsUnique (unique : List Pattern → List Pattern × List ℕ) : Type 0 where
  pub rebuild :
      (keys : List Pattern) → map (get_elem? (unique keys).0) (unique keys).1 ≡ map some keys

packed :
    (words : List Pattern) (coeffs : List Coeffs)
    → length coeffs ≡ length words
    → length words ≤ int32_max
    → any_exceeds coeffs ≡ false
    → pack_surface_patterns words coeffs ≡ ok (pack_rows words coeffs)
unfolding pack_surface_patterns
packed words coeffs e l f = ground (arith, ==_iff (length coeffs) (length words), e, l, f)

keys_of :
    (rows : List NumbaRow)
    → map some (map pattern_of (map surface_row_from_numba_row rows))
      ≡ map (λ r. some (pattern_of (surface_row_from_numba_row r))) rows
keys_of [] = refl
keys_of (r ∷ rows) =
    ap (λ rest. some (pattern_of (surface_row_from_numba_row r)) ∷ rest) (keys_of rows)

-- The patterns that a bundle interns.
abbrev pub patterns_of : (List Pattern → List Pattern × List ℕ) → List NumbaRow → List Pattern
patterns_of unique rows = (unique (map pattern_of (map surface_row_from_numba_row rows))).0

length-drop : (n : ℕ) (rows : List NumbaRow) → length (drop n rows) ≡ length rows - n
unfolding drop
length-drop zero rows = omega arith
length-drop (suc n) [] = omega arith
length-drop (suc n) (r ∷ rows) = omega (arith, length-drop n rows)

length-take : (n : ℕ) (rows : List NumbaRow) → length (take n rows) ≡ min n (length rows)
length-take zero rows = omega arith
length-take (suc n) [] = omega arith
length-take (suc n) (r ∷ rows) = omega (arith, length-take n rows)

-- The rows of a segment, or the error of one that is backwards or reaches past the rows. A segment that has the
-- last row alone within the rows is that row over and over.
abbrev pub segment_of : ℕ → ℕ → List NumbaRow → Result (List NumbaRow)
segment_of start stop rows =
    if leb start stop && (leb stop (length rows) || start == stop)
    then ok (slice start stop rows)
    else if ltb start stop && suc start == length rows
    then ok (broadcast_row (stop - start) (slice start stop rows))
    else err value_error

fill_rows-slice :
    (start stop : ℕ) (rows : List NumbaRow)
    → fill_rows start stop (slice start stop rows) ≡ segment_of start stop rows
unfolding fill_rows
fill_rows-slice start stop rows =
    let size : length (slice start stop rows) ≡ min (stop - start) (length rows - start) =
      length-take (stop - start) (drop start rows)
      ∙ ap (λ (n : ℕ). min (stop - start) n) (length-drop start rows) in
    ground (arith, size)

segment_lem :
    (refs : List RowRef) (patterns : List PackedPattern) (start stop : ℕ) (rows : List NumbaRow)
    → expand_rows patterns (slice start stop refs) ≡ ok (slice start stop rows)
    → segment_rows refs patterns start stop ≡ segment_of start stop rows
unfolding segment_rows
segment_lem refs patterns start stop rows h = rw (segment_rows, h) (fill_rows-slice start stop rows)

-- Saving never fails on producer rows with at most int32 many distinct head patterns, whatever the
-- head's length: the head coefficients fit their 16 bits. And every segment of the saved rows
-- expands to exactly the producer's rows of that segment, masks and counts, when the segment lies within the rows or is empty.
-- Any other is refused with ValueError, but for one that begins at the last row: it is that row,
-- broadcast over the segment.
pub segment_rows-save_surface_rows :
    (unique : List Pattern → List Pattern × List ℕ) (head_len : ℕ) (rows : List NumbaRow)
    → IsUnique unique
    → All IsNumbaRow rows
    → length (patterns_of unique rows) ≤ int32_max
    → (saved : List RowRef × List PackedPattern) × (save_surface_rows unique head_len
          (map surface_row_from_numba_row rows)
        ≡ ok saved)
      × ((start stop : ℕ) → segment_rows saved.0 saved.1 start stop ≡ segment_of start stop rows)
unfolding save_surface_rows intern_surface_row_words expand_rows pack_rows any_exceeds
segment_rows-save_surface_rows unique head_len [] u v l =
    let made = packed [] [] refl (omega arith) refl in
    (
      ([], []),
      rw made refl,
      λ start stop.
          let dropped = expand-drop [] start [] [] refl in
          segment_lem [] [] start stop []
            (expand-take [] (stop - start) (drop start []) (drop start []) dropped),
    )
segment_rows-save_surface_rows unique head_len (r ∷ rows) u v l =
    let surfaces = map surface_row_from_numba_row (r ∷ rows) in
    let words = patterns_of unique (r ∷ rows) in
    let inverse = (unique (map pattern_of surfaces)).1 in
    let coeffs = surface_head_coeffs head_len words in
    let even = length-surface_head_coeffs head_len words in
    let made = packed words coeffs even l (surface_head_coeffs-fit head_len words) in
    let few : ltb int32_max (length words) ≡ false = ground (arith, l) in
    let whole =
      expand_lem words coeffs inverse (r ∷ rows) even l v (u.rebuild _ ∙ keys_of (r ∷ rows)) in
    (
      (row_refs inverse surfaces, pack_rows words coeffs),
      rw few (rw made refl),
      λ start stop.
          let dropped =
            expand-drop (pack_rows words coeffs) start (row_refs inverse surfaces) (r ∷ rows)
              whole in
          segment_lem (row_refs inverse surfaces) (pack_rows words coeffs) start stop (r ∷ rows) (
            expand-take (pack_rows words coeffs) (stop - start)
              (drop start (row_refs inverse surfaces)) (drop start (r ∷ rows)) dropped),
    )

abbrev pub IsUint16 : Coeffs → Type 0
IsUint16 c = max_coeff c ≤ uint16_max

unpack_halves :
    (low high : ℕ)
    → low ≤ uint16_max
    → high ≤ uint16_max
    → (bit_and (pack_halves (low % 2 ^ 16) (high % 2 ^ 16)) (2 ^ 16 - 1) ≡ low)
      × (pack_halves (low % 2 ^ 16) (high % 2 ^ 16) / 2 ^ 16 ≡ high)
unpack_halves low high h k =
    let e = pack_halves_lem low high h k in
    let masked = bit_and-mask 16 (low + high * 2 ^ 16) in
    (
      ap (λ (t : ℕ). bit_and t (2 ^ 16 - 1)) e ∙ masked ∙ low_half 16 low high (omega (arith, h)),
      ap (λ (t : ℕ). t / 2 ^ 16) e ∙ high_half 16 low high (omega (arith, h)),
    )

unpack-pack_row : (w : Pattern) (c : Coeffs) → IsUint16 c → unpack_row (pack_row w c) ≡ (w, c)
unpack-pack_row w c h =
    let (a, b) = unpack_halves c.normal c.fever (omega (arith, h)) (omega (arith, h)) in
    let (d, e) =
      unpack_halves c.normal_positions c.fever_positions (omega (arith, h)) (omega (arith, h)) in
    λ i. (w, record { normal = a i; fever = b i; normal_positions = d i; fever_positions = e i })

unpack-pack_rows :
    (rows : List (Pattern × Coeffs))
    → All (λ r. IsUint16 r.1) rows
    → unpack_surface_patterns (pack_rows (map (λ r. r.0) rows) (map (λ r. r.1) rows)) ≡ rows
unfolding pack_rows
unpack-pack_rows [] v = refl
unpack-pack_rows ((w, c) ∷ rows) v =
    let here = unpack-pack_row w c v.0 in
    let rest = unpack-pack_rows rows v.1 in λ i. here i ∷ rest i

rows_fit :
    (rows : List (Pattern × Coeffs))
    → All (λ r. IsUint16 r.1) rows
    → any_exceeds (map (λ r. r.1) rows) ≡ false
unfolding any_exceeds
rows_fit [] v = refl
rows_fit ((w, c) ∷ rows) v = ground (arith, v.0, rows_fit rows v.1)

same_lengths :
    (rows : List (Pattern × Coeffs))
    → (length (map (λ r. r.1) rows) ≡ length (map (λ r. r.0) rows))
      × (length (map (λ r. r.0) rows) ≡ length rows)
same_lengths [] = (refl, refl)
same_lengths (r ∷ rows) = let (a, b) = same_lengths rows in (omega (arith, a), omega (arith, b))

-- Patterns with 16-bit coefficients, at most int32 many, are packed without an exception, and
-- unpacking gives back every pattern and its four coefficients.
pub unpack-pack_surface_patterns :
    (rows : List (Pattern × Coeffs))
    → All (λ r. IsUint16 r.1) rows
    → length rows ≤ int32_max
    → (pack_surface_patterns (map (λ r. r.0) rows) (map (λ r. r.1) rows) >>= λ patterns.
        ok (unpack_surface_patterns patterns))
      ≡ ok rows
unpack-pack_surface_patterns rows v l =
    let words = map (λ (r : Pattern × Coeffs). r.0) rows in
    let coeffs = map (λ (r : Pattern × Coeffs). r.1) rows in
    let (a, b) = same_lengths rows in
    let made = packed words coeffs a (omega (arith, b, l)) (rows_fit rows v) in
    rw made (ap (λ (t : List (Pattern × Coeffs)). ok t) (unpack-pack_rows rows v))
