-- ===== src/Region.antt =====
-- The Great runs that end on a fever's activation, in gear_optimizer/frontier/producer_kernels.py: the
-- kernel's fill crossing, the offsets at which a run of a given length does so, and the count of
-- candidate runs that sizes the core's buffers.
--
-- Indices and fill denominators are those of Fill: an index that the kernel writes as -1 is none, and
-- a difference that stops at 0 here is tested to be positive before it is used.
pub mod Offsets
pub mod Candidates
pub mod Capacity
mod Tests
use ro_beats_calculator_engi.Common.{
  ℕ, zero, suc, ◌+◌, ◌-◌, ◌*◌, min, max, Bool, true, false, not, ◌&&◌, ◌||◌, Option, none, some,
  List, [], ◌∷◌, ◌++◌, length, take, Result, ok, err, value_error, ◌>>=◌, leb, ltb, ◌==◌,
  if◌then◌else◌,
}
use ro_beats_calculator_engi.Fill.{
  Denom, not_positive, reaches, ceil_denom, ceil_twice_less, ceil_less_half,
}

-- `(idx, great) if idx < total else (-1, 0)`
abbrev pub inside : ℕ → ℕ → Bool → Option ℕ × Bool
inside total idx great = if ltb idx total then (some idx, great) else (none, false)

-- `_numba_fill_crossing_run`, which leaves the test of the denominator to its callers
unfoldable pub fill_crossing_run : ℕ → ℕ → ℕ → Denom → ℕ → Option ℕ × Bool
fill_crossing_run start great_run_start k d total =
    let run_lo = if ltb start great_run_start then great_run_start else start in
    let run_hi = if ltb (great_run_start + k) total then great_run_start + k else total in
    let count = run_hi - run_lo in
    let perfects_before = run_lo - start in
    let first = start + ceil_denom d - 1 in
    let second = run_lo + ceil_twice_less d perfects_before - 1 in
    let third = run_lo + count + ceil_less_half d perfects_before count - 1 in
    if leb run_hi run_lo
    then inside total first false
    else if ltb first run_lo
    then inside total first false
    else if ltb second (run_lo + count)
    then inside total (if ltb second run_lo then run_lo else second) true
    else inside total third false

-- `_numba_region2_offset_for_count`
unfoldable pub region2_offset_for_count : ℕ → ℕ → Denom → ℕ → Result (Option ℕ)
region2_offset_for_count start count d n =
    let lo = ceil_less_half d 0 count in
    let hi = ceil_less_half d 0 (count - 1) - 1 in
    if count == 0 || leb n start
    then ok none
    else if not_positive d
    then err value_error
    else if ltb (n * d.den) d.num
    then ok none
    else if ltb lo 1 || not (lo == hi) || leb n (start + lo + count - 1)
    then ok none
    else ok (some lo)

-- `_numba_region2_k_scan_stop`
unfoldable pub region2_k_scan_stop : ℕ → Denom → Result ℕ
region2_k_scan_stop count d =
    if count == 0
    then ok 0
    else if not_positive d
    then err value_error
    else if leb ((count - 1) * d.den) (2 * d.num)
    then ok count
    else ok (min (max (ceil_twice_less d 0 + 1) 1) count)

-- `_numba_has_shifted_head_region`
unfoldable pub has_shifted_head_region : ℕ → Denom → Bool
has_shifted_head_region section_start d = not (leb 99 section_start) && ltb 1 (ceil_denom d)

-- The scanned actions' share of the count, added to it one by one.
unfoldable pub count_candidates : ℕ → Denom → ℕ → List ℕ → ℕ → Result ℕ
count_candidates n d shifted_sections [] candidate_count = ok candidate_count
count_candidates n d shifted_sections (k ∷ ks) candidate_count =
    region2_offset_for_count 0 k d n >>= λ region_offset. elim region_offset [
      | none ↦ count_candidates n d shifted_sections ks candidate_count
      | some offset ↦
          let section_count = n + 1 - offset - k in
          let overlap = if offset == 1 then min shifted_sections section_count else 0 in
          count_candidates n d shifted_sections ks (candidate_count + section_count - overlap)
    ]

-- `_numba_region_core_candidate_capacity`
unfoldable pub region_core_candidate_capacity : ℕ → List ℕ → Denom → Result ℕ
region_core_candidate_capacity n action_k d =
    region2_k_scan_stop (length action_k) d >>= λ region_k_stop.
    if not_positive d
    then err value_error
    else if ltb (n * d.den) d.num
    then ok 0
    else let shifted_sections = if ltb 1 (ceil_denom d) then min 99 (n + 1) else 0 in
      count_candidates n d shifted_sections (take region_k_stop action_k)
        (shifted_sections * length action_k)
      >>= λ candidate_count.
          if ltb ((n + 1) * max 1 (length action_k) * 2) candidate_count
          then err value_error
          else ok candidate_count

-- The offsets that the region core's loop tries for one action of a section: the one of region 2, if
-- there is one, and the shifted head, unless they are the same.
unfoldable pub tried_offsets : Bool → Option ℕ → List ℕ
tried_offsets shifted none = if shifted then 1 ∷ [] else []
tried_offsets shifted (some offset) = offset ∷ (if shifted && not (offset == 1) then 1 ∷ [] else [])

-- The first scanned actions have one of region 2.
unfoldable pub candidate_offsets : ℕ → Denom → ℕ → Bool → ℕ → Result (List ℕ)
candidate_offsets n d section_start scanned k =
    (if scanned then region2_offset_for_count section_start k d n else ok none) >>= λ region_offset.
    ok (tried_offsets (has_shifted_head_region section_start d) region_offset)
