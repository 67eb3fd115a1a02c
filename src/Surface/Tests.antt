-- ===== src/Surface/Tests.antt =====
-- Producer rows and packed patterns at concrete values.
use ro_beats_calculator_engi.Common.{
  ℕ, suc, ◌+◌, ◌≡◌, refl, some, List, [], ◌∷◌, map, ok, err, value_error, get_elem?, arith, ◌^◌,
}
use ro_beats_calculator_engi.Score.{Words}
use ro_beats_calculator_engi.Surface.{
  NumbaRow, Pattern, Coeffs, RowRef, PackedPattern, surface_row_from_numba_row,
  pack_surface_patterns, segment_rows, any_exceeds,
}
use ro_beats_calculator_engi.Surface.Rows.{IsNumbaRow}
use ro_beats_calculator_engi.Surface.Heads.{
  head_coeffs, block_coeffs, block_counts, u16_count, u16_pos_sum, save_surface_rows,
}
use ro_beats_calculator_engi.Score.{sum_range}
use ro_beats_calculator_engi.Common.Bits.{bit}
use ro_beats_calculator_engi.Surface.Bundle.{IsUnique, segment_of, segment_rows-save_surface_rows}

abbrev words : ℕ → ℕ → Words
words a b = record { w0 = a; w1 = b; w2 = 0; w3 = 0 }

abbrev pattern : Pattern
pattern = record { fever = words 6 1; great = words 1 0 }

-- Fever at notes 2, 3 and 33 of a 40-note head.
coeffs_of_three :
    head_coeffs 40 pattern
    ≡ record { normal = 37; fever = 3; normal_positions = 782; fever_positions = 38 }
unfolding head_coeffs block_coeffs block_counts u16_count u16_pos_sum sum_range bit
coeffs_of_three = refl

abbrev large : Coeffs
large = record { normal = 65536; fever = 0; normal_positions = 0; fever_positions = 0 }

overflow : pack_surface_patterns (pattern ∷ []) (large ∷ []) ≡ err value_error
unfolding pack_surface_patterns any_exceeds
overflow = refl

abbrev small : Coeffs
small = record { normal = 37; fever = 3; normal_positions = 782; fever_positions = 38 }

-- A `np.unique` that keeps every key, under its own index.
abbrev indices : List Pattern → List ℕ
indices [] = []
indices (k ∷ ks) = 0 ∷ map suc (indices ks)

abbrev numbered : List Pattern → List Pattern × List ℕ
numbered keys = (keys, indices keys)

get_elem?-suc :
    (k : Pattern) (ks : List Pattern) (is : List ℕ)
    → map (get_elem? (k ∷ ks)) (map suc is) ≡ map (get_elem? ks) is
get_elem?-suc k ks [] = refl
get_elem?-suc k ks (i ∷ is) = let e = get_elem?-suc k ks is in λ j. get_elem? ks i ∷ e j

numbered-IsUnique : IsUnique numbered
numbered-IsUnique = record { rebuild = go }
  where
    go : (keys : List Pattern) → map (get_elem? keys) (indices keys) ≡ map some keys
    go [] = refl
    go (k ∷ ks) =
        let here = get_elem?-suc k ks (indices ks) in let rest = go ks in ground (arith, here, rest)

abbrev row : NumbaRow
row = record {
  fever_lo = 2 ^ 40 + 6;
  fever_hi = 1;
  great_lo = 2 ^ 63;
  great_hi = 0;
  body_fever = 30;
  body_great = 4;
  body_fever_great = 2;
}

row-IsNumbaRow : IsNumbaRow row
row-IsNumbaRow = record {
  fever_lo = omega arith;
  fever_hi = omega arith;
  great_lo = omega arith;
  great_hi = omega arith;
  body_fever = omega arith;
  body_great = omega arith;
  body_fever_great = omega arith;
}

segment_rows-save_surface_rows_example :
    (saved : List RowRef × List PackedPattern) × (save_surface_rows numbered 100
        (map surface_row_from_numba_row (row ∷ row ∷ []))
      ≡ ok saved)
    × ((start stop : ℕ)
        → segment_rows saved.0 saved.1 start stop ≡ segment_of start stop (row ∷ row ∷ []))
segment_rows-save_surface_rows_example =
    segment_rows-save_surface_rows numbered 100 (row ∷ row ∷ []) numbered-IsUnique
      (row-IsNumbaRow, (row-IsNumbaRow, tt)) (omega arith)
