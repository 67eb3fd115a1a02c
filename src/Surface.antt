-- ===== src/Surface.antt =====
-- The Force Great surfaces on their way to a bundle file and back:
-- gear_optimizer/frontier/producer_surfaces.py (producer rows of 64-bit masks),
-- fg_cache_patterns.py (interned head patterns, packed with their coefficients) and `_segment_rows`
-- of fg_cache_serde.py (the producer rows again).
--
-- Words are natural numbers below 2 ^ 32 or 2 ^ 64, a cast to a narrower type is the remainder, and an
-- array of rows is a list of records, so its shape holds by its type. `np.unique` is an argument. Coefficients are
-- natural numbers, for which the check against negative ones never fires.
pub mod Rows
pub mod Heads
pub mod Bundle
mod Tests
use Prim.Native.Nat.{bit_and, bit_or}
use ro_beats_calculator_engi.Common.{
  ℕ, zero, suc, ◌+◌, ◌-◌, ◌*◌, ◌/◌, ◌%◌, ◌^◌, max, Bool, true, false, not, ◌||◌, Option, none, some,
  List, [], ◌∷◌, map, Result, ok, err, value_error, index_error, raise_if, ◌>>=◌, ltb, ◌==◌, length,
  get_elem?, take, if◌then◌else◌,
}
use ro_beats_calculator_engi.Score.{Words, FgResponseSurface}

-- One (7,) uint64 row of the producer.
pub record NumbaRow : Type 0 where
  pub fever_lo : ℕ
  pub fever_hi : ℕ
  pub great_lo : ℕ
  pub great_hi : ℕ
  pub body_fever : ℕ
  pub body_great : ℕ
  pub body_fever_great : ℕ

-- `word & 0xFFFFFFFF` and `(word >> 32) & 0xFFFFFFFF`
abbrev pub low_word : ℕ → ℕ
low_word word = bit_and word (2 ^ 32 - 1)

abbrev pub high_word : ℕ → ℕ
high_word word = bit_and (word / 2 ^ 32) (2 ^ 32 - 1)

abbrev pub split_words : ℕ → ℕ → Words
split_words lo hi = record {
  w0 = low_word lo;
  w1 = high_word lo;
  w2 = low_word hi;
  w3 = high_word hi;
}

-- `_surface_rows_from_numba_rows` on one row
unfoldable pub surface_row_from_numba_row : NumbaRow → FgResponseSurface
surface_row_from_numba_row row = record {
  fever_words = split_words row.fever_lo row.fever_hi;
  great_words = split_words row.great_lo row.great_hi;
  body_fever = row.body_fever % 2 ^ 32;
  body_great = row.body_great % 2 ^ 32;
  body_fever_great = row.body_fever_great % 2 ^ 32;
}

-- `_surface_from_numba_row`
unfoldable pub surface_from_numba_row : NumbaRow → FgResponseSurface
surface_from_numba_row row = record {
  fever_words = split_words row.fever_lo row.fever_hi;
  great_words = split_words row.great_lo row.great_hi;
  body_fever = row.body_fever;
  body_great = row.body_great;
  body_fever_great = row.body_fever_great;
}

-- A head pattern: `rows[:, :8]`
pub record Pattern : Type 0 where
  pub fever : Words
  pub great : Words

abbrev pub pattern_of : FgResponseSurface → Pattern
pattern_of s = record { fever = s.fever_words; great = s.great_words }

pub record RowRef : Type 0 where
  pub pattern_id : ℕ
  pub body_fever : ℕ
  pub body_great : ℕ
  pub body_fever_great : ℕ

abbrev pub int32_max : ℕ
int32_max = 2147483647

abbrev pub uint16_max : ℕ
uint16_max = 65535

unfoldable pub row_refs : List ℕ → List FgResponseSurface → List RowRef
row_refs [] rows = []
row_refs (i ∷ inverse) [] = []
row_refs (i ∷ inverse) (s ∷ rows) =
    record {
      pattern_id = i % 2 ^ 32;
      body_fever = s.body_fever;
      body_great = s.body_great;
      body_fever_great = s.body_fever_great;
    }
    ∷ row_refs inverse rows

-- `intern_surface_row_words`, under `np.unique(..., return_inverse=True)`
unfoldable pub intern_surface_row_words :
    (List Pattern → List Pattern × List ℕ)
    → List FgResponseSurface
    → Result (List RowRef × List Pattern)
intern_surface_row_words unique [] = ok ([], [])
intern_surface_row_words unique (s ∷ rows) =
    let u = unique (map pattern_of (s ∷ rows)) in
    raise_if (ltb int32_max (length u.0)) value_error (ok (row_refs u.1 (s ∷ rows), u.0))

pub record Coeffs : Type 0 where
  pub normal : ℕ
  pub fever : ℕ
  pub normal_positions : ℕ
  pub fever_positions : ℕ

-- One uint32 row of 10 columns.
pub record PackedPattern : Type 0 where
  pub words : Pattern
  pub packed01 : ℕ
  pub packed23 : ℕ

-- `np.max(coeffs)` of one row
abbrev pub max_coeff : Coeffs → ℕ
max_coeff c = max (max c.normal c.fever) (max c.normal_positions c.fever_positions)

unfoldable pub any_exceeds : List Coeffs → Bool
any_exceeds [] = false
any_exceeds (c ∷ cs) = ltb uint16_max (max_coeff c) || any_exceeds cs

-- `low | (high << np.uint32(16))` of uint16 coefficients widened to uint32
abbrev pub pack_halves : ℕ → ℕ → ℕ
pack_halves low high = bit_or low (high * 2 ^ 16 % 2 ^ 32)

abbrev pub pack_row : Pattern → Coeffs → PackedPattern
pack_row w c = record {
  words = w;
  packed01 = pack_halves (c.normal % 2 ^ 16) (c.fever % 2 ^ 16);
  packed23 = pack_halves (c.normal_positions % 2 ^ 16) (c.fever_positions % 2 ^ 16);
}

unfoldable pub pack_rows : List Pattern → List Coeffs → List PackedPattern
pack_rows [] coeffs = []
pack_rows (w ∷ words) [] = []
pack_rows (w ∷ words) (c ∷ coeffs) = pack_row w c ∷ pack_rows words coeffs

unfoldable pub pack_surface_patterns : List Pattern → List Coeffs → Result (List PackedPattern)
pack_surface_patterns words coeffs = raise_if (not (length coeffs == length words)) value_error (
    raise_if (ltb int32_max (length words)) value_error
      (raise_if (any_exceeds coeffs) value_error (ok (pack_rows words coeffs))))

-- `unpack_surface_patterns` on one row
abbrev pub unpack_row : PackedPattern → Pattern × Coeffs
unpack_row p = (
  p.words,
  record {
    normal = bit_and p.packed01 (2 ^ 16 - 1);
    fever = p.packed01 / 2 ^ 16;
    normal_positions = bit_and p.packed23 (2 ^ 16 - 1);
    fever_positions = p.packed23 / 2 ^ 16;
  },
)

abbrev pub unpack_surface_patterns : List PackedPattern → List (Pattern × Coeffs)
unpack_surface_patterns = map unpack_row

-- `words[:, 0::2] | (words[:, 1::2] << np.uint64(32))`
abbrev pub join_words : ℕ → ℕ → ℕ
join_words low high = bit_or low (high * 2 ^ 32 % 2 ^ 64)

abbrev pub joined_row : Pattern → RowRef → NumbaRow
joined_row p r = record {
  fever_lo = join_words p.fever.w0 p.fever.w1;
  fever_hi = join_words p.fever.w2 p.fever.w3;
  great_lo = join_words p.great.w0 p.great.w1;
  great_hi = join_words p.great.w2 p.great.w3;
  body_fever = r.body_fever;
  body_great = r.body_great;
  body_fever_great = r.body_fever_great;
}

-- `patterns[:8, segment[0]]`: an id past the patterns raises IndexError.
unfoldable pub expand_rows : List PackedPattern → List RowRef → Result (List NumbaRow)
expand_rows patterns [] = ok []
expand_rows patterns (r ∷ refs) = elim (get_elem? patterns r.pattern_id) [
  | none ↦ err index_error
  | some p ↦ expand_rows patterns refs >>= λ rest. ok (joined_row p.words r ∷ rest)
]

unfoldable pub drop {ℓ} : {A : Type ℓ} → ℕ → List A → List A
drop zero xs = xs
drop (suc n) [] = []
drop (suc n) (x ∷ xs) = drop n xs

-- `rows[:, start:stop]`
abbrev pub slice {ℓ} : {A : Type ℓ} → ℕ → ℕ → List A → List A
slice start stop xs = take (stop - start) (drop start xs)

-- numpy's broadcast of a single row to `count` rows.
unfoldable pub broadcast_row {ℓ} : {A : Type ℓ} → ℕ → List A → List A
broadcast_row zero rows = []
broadcast_row (suc count) [] = []
broadcast_row (suc count) (row ∷ rows) = row ∷ broadcast_row count (row ∷ rows)

-- `out = np.empty((stop - start, 7))` and the assignments to its columns: a negative count raises, and so do
-- rows that are neither as many nor one.
unfoldable pub fill_rows : ℕ → ℕ → List NumbaRow → Result (List NumbaRow)
fill_rows start stop segment =
    if ltb stop start
    then err value_error
    else if length segment == stop - start
    then ok segment
    else if length segment == 1
    then ok (broadcast_row (stop - start) segment)
    else err value_error

-- `_segment_rows`
unfoldable pub segment_rows : List RowRef → List PackedPattern → ℕ → ℕ → Result (List NumbaRow)
segment_rows rows patterns start stop =
    expand_rows patterns (slice start stop rows) >>= fill_rows start stop
