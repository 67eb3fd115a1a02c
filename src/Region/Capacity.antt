-- ===== src/Region/Capacity.antt =====
-- The capacity of the region core's buffers is the count of the candidate runs.
use ro_beats_calculator_engi.Common.{
  ℕ, zero, suc, ◌+◌, ◌-◌, ◌*◌, ◌≤◌, ◌≡◌, refl, sym, ap, ◌∙◌, min, max, Bool, true, false, not, ◌||◌,
  Option, none, some, List, [], ◌∷◌, length, take, Result, ok, err, value_error, ◌>>=◌, ltb, ◌==◌,
  if◌then◌else◌, arith, inl, inr, Option-cases,
}
use ro_beats_calculator_engi.Fill.{Denom, IsPositive, ceil_denom, ceil_less_half}
use ro_beats_calculator_engi.Region.{
  region2_offset_for_count, region2_k_scan_stop, has_shifted_head_region, count_candidates,
  region_core_candidate_capacity, tried_offsets, candidate_offsets,
}
use ro_beats_calculator_engi.Region.Candidates.{
  section_candidates, candidates_before, with_shifted, with_shifted-suc, length-tried_offsets,
  at_most_two, exhaustive,
}

module _ (d : Denom) (v : IsPositive d) (n : ℕ) (fits : d.num ≤ n * d.den) where
  -- The offset of a section without the error, which a positive denominator never meets.
  unfoldable offset_at : ℕ → ℕ → Option ℕ
  offset_at start k =
      let lo = ceil_less_half d 0 k in
      let hi = ceil_less_half d 0 (k - 1) - 1 in
      if k == 0 || ltb lo 1 || not (lo == hi) || ltb n (start + lo + k) then none else some lo

  offset_lem : (start k : ℕ) → region2_offset_for_count start k d n ≡ ok (offset_at start k)
  unfolding region2_offset_for_count offset_at
  offset_lem start k =
      let nz : (d.num == 0) ≡ false = ground (arith, v.num_pos) in rw nz (ground (arith, fits))

  -- The same offset serves every section that it fits.
  offset_at-shift :
      (start k : ℕ)
      → offset_at start k ≡ elim (offset_at 0 k) [
        | none ↦ none
        | some x ↦ if ltb start (n + 1 - x - k) then some x else none
      ]
  unfolding offset_at
  offset_at-shift start k = ground arith

  -- The candidates of one action in a section.
  unfoldable tried : ℕ → Bool → ℕ → List ℕ
  tried start scanned k =
      tried_offsets (has_shifted_head_region start d) (if scanned then offset_at start k else none)

  tried_lem :
      (start : ℕ) (scanned : Bool) (k : ℕ)
      → candidate_offsets n d start scanned k ≡ ok (tried start scanned k)
  unfolding candidate_offsets tried
  tried_lem start true k = rw (offset_lem start k) refl
  tried_lem start false k = refl

  unfoldable section_sum : ℕ → ℕ → List ℕ → ℕ
  section_sum start stop [] = 0
  section_sum start stop (k ∷ ks) =
      length (tried start (ltb 0 stop) k) + section_sum start (stop - 1) ks

  unfoldable sum_before : ℕ → List ℕ → ℕ → ℕ
  sum_before stop ks zero = 0
  sum_before stop ks (suc start) = sum_before stop ks start + section_sum start stop ks

  section_sum_lem :
      (start stop : ℕ) (ks : List ℕ)
      → section_candidates n d start stop ks ≡ ok (section_sum start stop ks)
  unfolding section_candidates section_sum
  section_sum_lem start stop [] = refl
  section_sum_lem start stop (k ∷ ks) =
      let rest = section_sum_lem start (stop - 1) ks in
      rw (tried_lem start (ltb 0 stop) k, rest) refl

  sum_before_lem :
      (stop : ℕ) (ks : List ℕ) (sections : ℕ)
      → candidates_before n d stop ks sections ≡ ok (sum_before stop ks sections)
  unfolding candidates_before sum_before
  sum_before_lem stop ks zero = refl
  sum_before_lem stop ks (suc start) =
      let before = sum_before_lem stop ks start in
      let here = section_sum_lem start stop ks in rw (before, here) refl

  -- The same sum with the sections of each action together.
  unfoldable action_sum : Bool → ℕ → ℕ → ℕ
  action_sum scanned k zero = 0
  action_sum scanned k (suc start) = action_sum scanned k start + length (tried start scanned k)

  sum_before-cons :
      (stop k : ℕ) (ks : List ℕ) (sections : ℕ)
      → sum_before stop (k ∷ ks) sections
        ≡ action_sum (ltb 0 stop) k sections + sum_before (stop - 1) ks sections
  unfolding sum_before action_sum section_sum
  sum_before-cons stop k ks zero = omega arith
  sum_before-cons stop k ks (suc start) = omega (arith, sum_before-cons stop k ks start)

  unfoldable shifted_before : ℕ → ℕ
  shifted_before sections = if ltb 1 (ceil_denom d) then min 99 sections else 0

  unfoldable extra : Option ℕ → ℕ → ℕ → ℕ
  extra none k sections = 0
  extra (some x) k sections =
      let section_count = min (n + 1 - x - k) sections in
      section_count - (if x == 1 then min (shifted_before sections) section_count else 0)

  action_sum_lem :
      (scanned : Bool) (k sections : ℕ)
      → action_sum scanned k sections
        ≡ shifted_before sections + extra (if scanned then offset_at 0 k else none) k sections
  unfolding action_sum tried tried_offsets has_shifted_head_region shifted_before extra
  action_sum_lem false k zero = ground arith
  action_sum_lem false k (suc start) = ground (arith, action_sum_lem false k start)
  action_sum_lem true k zero = elim (Option-cases (offset_at 0 k)) [
    | inl e ↦ rw e (ground arith)
    | inr x ↦ rw (x.1) (ground arith)
  ]
  action_sum_lem true k (suc start) = elim (Option-cases (offset_at 0 k)) [
    | inl e ↦
        let before = action_sum_lem true k start in
        let rest = rw e at before in
        let here : offset_at start k ≡ none = rw (offset_at-shift start k, e) refl in
        rw (here, e) (ground (arith, rest))
    | inr (x, e) ↦
        let before = action_sum_lem true k start in
        let rest = rw e at before in
        let here : offset_at start k ≡ (if ltb start (n + 1 - x - k) then some x else none) =
          rw (offset_at-shift start k, e) refl in
        let t = ltb start (n + 1 - x - k) in
        let sum = with_shifted (ltb 1 (ceil_denom d)) (x == 1) (n + 1 - x - k) in
        let step = with_shifted-suc (ltb 1 (ceil_denom d)) (x == 1) (n + 1 - x - k) start in
        let count = length-tried_offsets (has_shifted_head_region start d) t x in
        rw (here, e)
          (ap
              (λ a.
                a
                + length
                    (tried_offsets (has_shifted_head_region start d) (if t then some x else none)))
              rest
            ∙ ap (λ l. sum start + l) count
            ∙ sym step)
  ]

  count_sum :
      (counted section_count shifted rest : ℕ) (same : Bool)
      → section_count ≤ n + 1
      → counted + section_count - (if same then min shifted section_count else 0) + rest
        ≡ counted
          + (min section_count (n + 1)
              - (if same then min shifted (min section_count (n + 1)) else 0)
              + rest)
  count_sum counted section_count shifted rest true h = omega (arith, h)
  count_sum counted section_count shifted rest false h = omega (arith, h)

  -- The loop over the scanned actions adds their regions' candidates.
  unfoldable scan_sum : List ℕ → ℕ
  scan_sum [] = 0
  scan_sum (k ∷ ks) = extra (offset_at 0 k) k (n + 1) + scan_sum ks

  count_candidates_lem :
      (ks : List ℕ) (counted : ℕ)
      → count_candidates n d (shifted_before (n + 1)) ks counted ≡ ok (counted + scan_sum ks)
  unfolding count_candidates scan_sum extra
  count_candidates_lem [] counted = ap ok (omega arith)
  count_candidates_lem (k ∷ ks) counted = elim (Option-cases (offset_at 0 k)) [
    | inl e ↦ rw (offset_lem 0 k, e) (count_candidates_lem ks counted ∙ ap ok (omega arith))
    | inr (x, e) ↦
        let section_count = n + 1 - x - k in
        let overlap = if x == 1 then min (shifted_before (n + 1)) section_count else 0 in
        rw (offset_lem 0 k, e)
          (count_candidates_lem ks (counted + section_count - overlap)
            ∙ ap ok (
                count_sum counted section_count (shifted_before (n + 1)) (scan_sum ks) (x == 1)
                  (omega arith)))
  ]

  sum_before_nil : (stop sections : ℕ) → sum_before stop [] sections ≡ 0
  unfolding sum_before section_sum
  sum_before_nil stop zero = refl
  sum_before_nil stop (suc start) = omega (arith, sum_before_nil stop start)

  mul_suc : (a b : ℕ) → a * suc b ≡ a + a * b
  mul_suc a b = grind arith

  sum_before-scan_sum :
      (stop : ℕ) (ks : List ℕ)
      → sum_before stop ks (n + 1) ≡ shifted_before (n + 1) * length ks + scan_sum (take stop ks)
  unfolding scan_sum extra
  sum_before-scan_sum zero [] = omega (arith, sum_before_nil 0 (n + 1))
  sum_before-scan_sum (suc stop) [] = omega (arith, sum_before_nil (suc stop) (n + 1))
  sum_before-scan_sum zero (k ∷ ks) = omega (
    arith,
    sum_before-cons 0 k ks (n + 1),
    action_sum_lem false k (n + 1),
    sum_before-scan_sum zero ks,
    mul_suc (shifted_before (n + 1)) (length ks),
  )
  sum_before-scan_sum (suc stop) (k ∷ ks) =
      let t : ltb 0 (suc stop) ≡ true = ground arith in
      let back : suc stop - 1 ≡ stop = omega arith in
      let first = sum_before-cons (suc stop) k ks (n + 1) in
      let first' = rw (t, back) at first in
      omega (
        arith,
        first',
        action_sum_lem true k (n + 1),
        sum_before-scan_sum stop ks,
        mul_suc (shifted_before (n + 1)) (length ks),
      )

  -- At most two offsets for each section and action.
  section_sum-le : (start stop : ℕ) (ks : List ℕ) → section_sum start stop ks ≤ 2 * length ks
  unfolding section_sum tried
  section_sum-le start stop [] = omega arith
  section_sum-le start stop (k ∷ ks) =
      let rest = section_sum-le start (stop - 1) ks in
      let sh = has_shifted_head_region start d in
      elim (Option-cases (if ltb 0 stop then offset_at start k else none)) [
        | inl e ↦ rw e (omega (arith, rest, at_most_two sh none))
        | inr (x, e) ↦ rw e (omega (arith, rest, at_most_two sh (some x)))
      ]

  sum_before-le :
      (stop : ℕ) (ks : List ℕ) (sections : ℕ)
      → sum_before stop ks sections ≤ sections * (2 * length ks)
  unfolding sum_before
  sum_before-le stop ks zero = omega arith
  sum_before-le stop ks (suc start) =
      grind (arith, sum_before-le stop ks start, section_sum-le start stop ks)

-- For a positive denominator that is at most the chart's length, the capacity counts exactly the
-- offsets that the region core tries over all sections and actions; it is within the exhaustive
-- bound, so nothing is raised.
pub region_core_candidate_capacity-candidates_before :
    (d : Denom) (n stop : ℕ) (action_k : List ℕ)
    → IsPositive d
    → d.num ≤ n * d.den
    → region2_k_scan_stop (length action_k) d ≡ ok stop
    → (count : ℕ) × (region_core_candidate_capacity n action_k d ≡ ok count)
      × (candidates_before n d stop action_k (n + 1) ≡ ok count)
unfolding region_core_candidate_capacity shifted_before
region_core_candidate_capacity-candidates_before d n stop action_k v fits scan =
    let count = sum_before d v n fits stop action_k (n + 1) in
    let nz : (d.num == 0) ≡ false = ground (arith, v.num_pos) in
    let long : ltb (n * d.den) d.num ≡ false = ground (arith, fits) in
    let loop =
      count_candidates_lem d v n fits (take stop action_k)
        (shifted_before d v n fits (n + 1) * length action_k) in
    let sum = sum_before-scan_sum d v n fits stop action_k in
    let within : ltb ((n + 1) * max 1 (length action_k) * 2) count ≡ false = ground (
      arith,
      sum_before-le d v n fits stop action_k (n + 1),
      exhaustive (n + 1) (length action_k),
    ) in
    let done = loop ∙ ap ok (sym sum) in
    (
      count,
      rw (scan, nz, long)
          (ap
              (λ (m : Result ℕ). m >>= λ c.
                if ltb ((n + 1) * max 1 (length action_k) * 2) c then err value_error else ok c)
              done
            ∙ rw within refl),
      sum_before_lem d v n fits stop action_k (n + 1),
    )
