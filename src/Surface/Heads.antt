-- ===== src/Surface/Heads.antt =====
-- `surface_head_coeffs` of gear_optimizer/frontier/fg_cache_patterns.py, and `_save_payload` of
-- fg_cache_store.py as far as it interns and packs a bundle's surface rows.
--
-- The 16-bit tables hold, per half word, how many notes it marks and the sum of their 1-based positions.
use Prim.Native.Nat.{bit_and}
use ro_beats_calculator_engi.Common.{
  ℕ, zero, suc, ◌+◌, ◌-◌, ◌*◌, ◌/◌, ◌%◌, ◌^◌, ◌≤◌, ◌<◌, ◌≡◌, refl, min, false, List, [], ◌∷◌, map,
  Result, ok, ◌>>=◌, ltb, length, arith, Bool-cases, inl, inr, if◌then◌else◌,
}
use ro_beats_calculator_engi.Common.Bits.{bit, bit-le-one}
use ro_beats_calculator_engi.Score.{FgResponseSurface, sum_range}
use ro_beats_calculator_engi.Surface.{
  Pattern, Coeffs, RowRef, PackedPattern, intern_surface_row_words, pack_surface_patterns,
  max_coeff, uint16_max, any_exceeds,
}

-- _U16_COUNT and _U16_POS_SUM
unfoldable pub u16_count : ℕ → ℕ
u16_count half = sum_range 16 (bit half)

unfoldable pub u16_pos_sum : ℕ → ℕ
u16_pos_sum half = sum_range 16 (λ k. bit half k * (k + 1))

abbrev pub no_coeffs : Coeffs
no_coeffs = record { normal = 0; fever = 0; normal_positions = 0; fever_positions = 0 }

abbrev pub add_coeffs : Coeffs → Coeffs → Coeffs
add_coeffs c d = record {
  normal = c.normal + d.normal;
  fever = c.fever + d.fever;
  normal_positions = c.normal_positions + d.normal_positions;
  fever_positions = c.fever_positions + d.fever_positions;
}

-- What a block's word adds: `taken` of its notes are in the head, none ends the loop.
unfoldable pub block_counts : ℕ → ℕ → ℕ × ℕ
block_counts word taken =
    let low = bit_and word (2 ^ min 16 taken - 1) % 2 ^ 16 in
    let high = bit_and (word / 2 ^ 16) (2 ^ (taken - 16) - 1) % 2 ^ 16 in
    if ltb 16 taken
    then (u16_count low + u16_count high, u16_pos_sum low + u16_pos_sum high + 16 * u16_count high)
    else (u16_count low, u16_pos_sum low)

unfoldable pub block_coeffs : ℕ → ℕ → ℕ → Coeffs
block_coeffs word start taken =
    let c = block_counts word taken in
    let fever_position_sum = c.1 + start * c.0 in
    record {
      normal = taken - c.0;
      fever = c.0;
      normal_positions = taken * (2 * start + taken + 1) / 2 - fever_position_sum;
      fever_positions = fever_position_sum;
    }

-- `take = min(32, head - start)`, with the block left out once it is not positive
abbrev pub block_of : ℕ → ℕ → ℕ → Coeffs
block_of head word start =
    let taken = min 32 (head - start) in
    if ltb 0 taken then block_coeffs word start taken else no_coeffs

unfoldable pub head_coeffs : ℕ → Pattern → Coeffs
head_coeffs head_len p =
    let head = min head_len 100 in
    add_coeffs (add_coeffs (block_of head p.fever.w0 0) (block_of head p.fever.w1 32))
      (add_coeffs (block_of head p.fever.w2 64) (block_of head p.fever.w3 96))

abbrev pub surface_head_coeffs : ℕ → List Pattern → List Coeffs
surface_head_coeffs head_len = map (head_coeffs head_len)

unfoldable pub save_surface_rows :
    (List Pattern → List Pattern × List ℕ)
    → ℕ
    → List FgResponseSurface
    → Result (List RowRef × List PackedPattern)
save_surface_rows unique head_len rows = do
  interned ← intern_surface_row_words unique rows
  patterns ← pack_surface_patterns interned.1 (surface_head_coeffs head_len interned.1)
  ok (interned.0, patterns)

sum_range-le : (n b : ℕ) (f : ℕ → ℕ) → ((k : ℕ) → k < n → f k ≤ b) → sum_range n f ≤ n * b
unfolding sum_range
sum_range-le zero b f h = omega arith
sum_range-le (suc n) b f h =
    let rest = sum_range-le n b f (λ k l. h k (omega arith)) in
    grind (arith, rest, h n (omega arith))

u16_count-le : (half : ℕ) → u16_count half ≤ 16
unfolding u16_count
u16_count-le half = sum_range-le 16 1 (bit half) (λ k l. bit-le-one half k)

times_bit : (b k : ℕ) → b ≤ 1 → k < 16 → b * (k + 1) ≤ 16
times_bit b k h l = grind arith

u16_pos_sum-le : (half : ℕ) → u16_pos_sum half ≤ 256
unfolding u16_pos_sum
u16_pos_sum-le half =
    sum_range-le 16 16 (λ k. bit half k * (k + 1))
      (λ k l. times_bit (bit half k) k (bit-le-one half k) l)

block_counts-le :
    (word taken : ℕ) → ((block_counts word taken).0 ≤ 32) × ((block_counts word taken).1 ≤ 768)
unfolding block_counts
block_counts-le word taken =
    let low = bit_and word (2 ^ min 16 taken - 1) % 2 ^ 16 in
    let high = bit_and (word / 2 ^ 16) (2 ^ (taken - 16) - 1) % 2 ^ 16 in
    ground (arith, u16_count-le low, u16_count-le high, u16_pos_sum-le low, u16_pos_sum-le high)

start_times : (start c : ℕ) → start ≤ 96 → c ≤ 32 → start * c ≤ 3072
start_times start c h k = grind arith

taken_times : (start taken : ℕ) → start ≤ 96 → taken ≤ 32 → taken * (2 * start + taken + 1) ≤ 7200
taken_times start taken h k = grind arith

-- Four of these stay below 2 ^ 16.
IsSmall : Coeffs → Type 0
IsSmall c =
    (c.normal ≤ 4000) × (c.fever ≤ 4000) × (c.normal_positions ≤ 4000) × (c.fever_positions ≤ 4000)

block_of-IsSmall : (head word start : ℕ) → start ≤ 96 → IsSmall (block_of head word start)
unfolding IsSmall block_coeffs
block_of-IsSmall head word start h =
    let taken = min 32 (head - start) in
    let (few, low) = block_counts-le word taken in
    let a = start_times start (block_counts word taken).0 h few in
    let b = taken_times start taken h (omega arith) in
    elim (Bool-cases (ltb 0 taken)) [
      | inl t ↦ rw t (omega arith, omega (arith, few), omega (arith, b), omega (arith, a, low))
      | inr t ↦ rw t (omega arith, omega arith, omega arith, omega arith)
    ]

pub max_coeff-le : (head_len : ℕ) (p : Pattern) → max_coeff (head_coeffs head_len p) ≤ uint16_max
unfolding head_coeffs IsSmall
max_coeff-le head_len p =
    let head = min head_len 100 in
    let (a0, a1, a2, a3) = block_of-IsSmall head p.fever.w0 0 (omega arith) in
    let (b0, b1, b2, b3) = block_of-IsSmall head p.fever.w1 32 (omega arith) in
    let (c0, c1, c2, c3) = block_of-IsSmall head p.fever.w2 64 (omega arith) in
    let (d0, d1, d2, d3) = block_of-IsSmall head p.fever.w3 96 (omega arith) in
    omega (arith, a0, a1, a2, a3, b0, b1, b2, b3, c0, c1, c2, c3, d0, d1, d2, d3)

pub surface_head_coeffs-fit :
    (head_len : ℕ) (words : List Pattern) → any_exceeds (surface_head_coeffs head_len words) ≡ false
unfolding any_exceeds
surface_head_coeffs-fit head_len [] = refl
surface_head_coeffs-fit head_len (p ∷ words) =
    ground (arith, max_coeff-le head_len p, surface_head_coeffs-fit head_len words)

pub length-surface_head_coeffs :
    (head_len : ℕ) (words : List Pattern)
    → length (surface_head_coeffs head_len words) ≡ length words
length-surface_head_coeffs head_len [] = refl
length-surface_head_coeffs head_len (p ∷ words) =
    omega (arith, length-surface_head_coeffs head_len words)
