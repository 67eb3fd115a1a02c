-- ===== src/Edge/Masks.antt =====
-- The bits of the head masks.

use native.Mathlib.Nat.{one-le-pow, pow-le-pow_right, mod-eq_of_lt}
use ro_beats_calculator_engi.Common.{
  ℕ, suc, ◌+◌, ◌-◌, ◌*◌, ◌^◌, ◌≤◌, ◌<◌, min, max, ◌≡◌, Bool, ◌&&◌, leb, ltb, if◌then◌else◌, arith,
  leb-cases, inl, inr,
}
use ro_beats_calculator_engi.Common.Bits.{bit, bit-zero, bit-ones, bit-shift, bit-power, pow-add}
use ro_beats_calculator_engi.Common.Words.{bit-bit_or}
use ro_beats_calculator_engi.Edge.{mask_segment, HeadMask, range_mask, single_head_mask, or_mask}

-- 1 where the test holds
abbrev pub digit : Bool → ℕ
digit b = if b then 1 else 0

-- The mask's bit of head note `k`: words of 64 notes.
unfoldable pub head_note : HeadMask → ℕ → ℕ
head_note m k = if ltb k 64 then bit m.lo k else bit m.hi (k - 64)

scaled : (a b c : ℕ) → 0 < b → a < c → a * b < c * b
scaled a b c h l = grind arith

two_positive : 0 < 2
two_positive = omega arith

-- A run of ones shifted to its place stays within the word.
shifted-lt : (w s : ℕ) → w + s ≤ 64 → (2 ^ w - 1) * 2 ^ s < 18446744073709551616
shifted-lt w s h =
    let below =
      scaled (2 ^ w - 1) (2 ^ s) (2 ^ w) (one-le-pow s 2 (omega arith))
        (omega (arith, one-le-pow w 2 (omega arith))) in
    let most : 2 ^ (w + s) ≤ 2 ^ 64 = pow-le-pow_right (two_positive) h in
    omega (arith, below, most, pow-add w s)

-- The bits of a segment's word are the notes of the segment.
pub bit-mask_segment :
    (start end offset k : ℕ)
    → k < 64
    → bit (mask_segment start end offset) k ≡ digit (leb start (offset + k) && ltb (offset + k) end)
unfolding mask_segment
bit-mask_segment start end offset k h =
    let lo = max start offset in
    let hi = min end (offset + 64) in
    elim (leb-cases hi lo) [
      | inl (t, l) ↦ rw t (ground (arith, bit-zero k, l))
      | inr (t, l) ↦ elim (leb-cases 64 (hi - lo)) [
        | inl (u, m) ↦ rw (t, u) (ground (arith, bit-ones 64 k, m, l))
        | inr (u, m) ↦
            let small = mod-eq_of_lt (shifted-lt (hi - lo) (lo - offset) (omega (arith, m, l))) in
            rw (t, u, small)
              (ground (
                arith,
                bit-shift (2 ^ (hi - lo) - 1) (lo - offset) k,
                bit-ones (hi - lo) (k - (lo - offset)),
                m,
                l,
              ))
      ]
    ]

-- A range's mask marks the head notes of the range that the chart has.
pub head_note-range_mask :
    (start end n k : ℕ)
    → k < 100
    → head_note (range_mask start end n) k ≡ digit (leb start k && ltb k end && ltb k n)
unfolding head_note range_mask
head_note-range_mask start end n k h =
    let a = bit-mask_segment (min (min start n) 100) (min (min end n) 100) 0 k in
    let b = bit-mask_segment (min (min start n) 100) (min (min end n) 100) 64 (k - 64) in
    ground (arith, a, b, h)

pub head_note-single_head_mask :
    (idx n k : ℕ)
    → k < 100
    → head_note (single_head_mask idx n) k ≡ digit (leb idx k && ltb k (suc idx) && ltb k n)
unfolding head_note single_head_mask
head_note-single_head_mask idx n k h =
    ground (arith, bit-zero k, bit-zero (k - 64), bit-power idx k, bit-power (idx - 64) (k - 64), h)

pub head_note-or_mask :
    (a b : HeadMask) (k : ℕ) → head_note (or_mask a b) k ≡ max (head_note a k) (head_note b k)
unfolding head_note
head_note-or_mask a b k = ground (arith, bit-bit_or a.lo b.lo k, bit-bit_or a.hi b.hi (k - 64))
