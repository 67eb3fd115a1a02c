-- ===== src/Edge.antt =====
-- The edges of gear_optimizer/frontier/producer_kernels.py: one fever section packed into two 64-bit
-- head masks for fever, two for Greats, and its body counts.
--
-- Note indices are natural numbers, and an index that the kernel writes as -1 is none; a uint64 is a natural number
-- below 2 ^ 64.
pub mod Masks
pub mod Counts
pub mod Notes
mod Tests
use Prim.Native.Nat.{bit_or}
use ro_beats_calculator_engi.Common.{
  ℕ, ◌+◌, ◌-◌, ◌*◌, ◌%◌, ◌^◌, min, max, Bool, true, false, not, ◌&&◌, ◌||◌, Option, none, some, leb,
  ltb, if◌then◌else◌,
}

unfoldable pub mask_segment : ℕ → ℕ → ℕ → ℕ
mask_segment start end offset =
    let lo = max start offset in
    let hi = min end (offset + 64) in
    let width = hi - lo in
    if leb hi lo
    then 0
    else if leb 64 width
    then 18446744073709551615
    else (2 ^ width - 1) * 2 ^ (lo - offset) % 18446744073709551616

-- The two words of a mask over the head notes.
pub record HeadMask : Type 0 where
  pub lo : ℕ
  pub hi : ℕ

unfoldable pub range_mask : ℕ → ℕ → ℕ → HeadMask
range_mask start end n =
    let start_i = min (min start n) 100 in
    let end_i = min (min end n) 100 in
    record { lo = mask_segment start_i end_i 0; hi = mask_segment start_i end_i 64 }

unfoldable pub body_count : ℕ → ℕ → ℕ → ℕ
body_count start end n =
    let body_start = max start 100 in
    let body_end = min end n in if leb body_end body_start then 0 else body_end - body_start

unfoldable pub body_overlap_count : ℕ → ℕ → ℕ → ℕ → ℕ → ℕ
body_overlap_count first_start first_end second_start second_end n =
    let body_start = max (max first_start second_start) 100 in
    let body_end = min (min first_end second_end) n in
    if leb body_end body_start then 0 else body_end - body_start

unfoldable pub single_head_mask : ℕ → ℕ → HeadMask
single_head_mask idx n =
    if leb (min n 100) idx
    then record { lo = 0; hi = 0 }
    else if ltb idx 64
    then record { lo = 2 ^ idx; hi = 0 }
    else record { lo = 0; hi = 2 ^ (idx - 64) }

abbrev pub or_mask : HeadMask → HeadMask → HeadMask
or_mask a b = record { lo = bit_or a.lo b.lo; hi = bit_or a.hi b.hi }

pub record Edge : Type 0 where
  pub fever : HeadMask
  pub great : HeadMask
  pub body_fever : ℕ
  pub body_great : ℕ
  pub body_fever_great : ℕ

-- `activation_great_idx >= max(100, fever_start)`, in the fever and the chart, and not in the Great run
abbrev pub body_activation : ℕ → ℕ → ℕ → ℕ → ℕ → ℕ → Bool
body_activation n fever_start fever_end great_start great_end a =
    leb (max 100 fever_start) a && ltb a (min fever_end n) && (ltb a great_start || leb great_end a)

unfoldable pub pack_edge : ℕ → ℕ → ℕ → ℕ → ℕ → Option ℕ → Edge
pack_edge n fever_start fever_end great_start great_end none = record {
  fever = range_mask fever_start fever_end n;
  great = range_mask great_start great_end n;
  body_fever = body_count fever_start fever_end n;
  body_great = body_count great_start great_end n;
  body_fever_great = body_overlap_count fever_start fever_end great_start great_end n;
}
pack_edge n fever_start fever_end great_start great_end (some a) =
    let more = if body_activation n fever_start fever_end great_start great_end a then 1 else 0 in
    record {
      fever = range_mask fever_start fever_end n;
      great = or_mask (range_mask great_start great_end n) (single_head_mask a n);
      body_fever = body_count fever_start fever_end n;
      body_great = body_count great_start great_end n + more;
      body_fever_great = body_overlap_count fever_start fever_end great_start great_end n + more;
    }

-- `_numba_pack_edge_eg`
unfoldable pub pack_edge_eg : ℕ → ℕ → ℕ → ℕ → ℕ → Option ℕ → ℕ → ℕ → Edge
pack_edge_eg n fever_start fever_end great_start great_end activation eg_start eg_end =
    let e = pack_edge n fever_start fever_end great_start great_end activation in
    if ltb eg_start eg_end
    then record e {
      great = or_mask e.great (range_mask eg_start eg_end n);
      body_great = e.body_great + body_count eg_start eg_end n;
      body_fever_great =
          e.body_fever_great + body_overlap_count fever_start fever_end eg_start eg_end n;
    }
    else e
