-- ===== src/Region/Candidates.antt =====
-- The candidate runs of the region core, section by section, and the sums that count them.
use ro_beats_calculator_engi.Common.{
  ℕ, zero, suc, ◌+◌, ◌-◌, ◌*◌, ◌≤◌, ◌≡◌, min, max, Bool, true, false, not, ◌&&◌, Option, none, some,
  List, [], ◌∷◌, length, Result, ok, ◌>>=◌, leb, ltb, ◌==◌, if◌then◌else◌, arith,
}
use ro_beats_calculator_engi.Fill.{Denom}
use ro_beats_calculator_engi.Region.{tried_offsets, candidate_offsets}

-- The candidates of one section, action by action, `stop` of them scanned, and of the first sections.
unfoldable pub section_candidates : ℕ → Denom → ℕ → ℕ → List ℕ → Result ℕ
section_candidates n d section_start stop [] = ok 0
section_candidates n d section_start stop (k ∷ ks) =
    candidate_offsets n d section_start (ltb 0 stop) k >>= λ offsets.
    section_candidates n d section_start (stop - 1) ks >>= λ rest. ok (length offsets + rest)

unfoldable pub candidates_before : ℕ → Denom → ℕ → List ℕ → ℕ → Result ℕ
candidates_before n d stop ks zero = ok 0
candidates_before n d stop ks (suc section_start) =
    candidates_before n d stop ks section_start >>= λ before.
    section_candidates n d section_start stop ks >>= λ here. ok (before + here)

-- One section more: its shifted head, the sections that the offset fits, and those that share it.
abbrev pub with_shifted : Bool → Bool → ℕ → ℕ → ℕ
with_shifted big same count sections =
    let shifted = if big then min 99 sections else 0 in
    shifted + (min count sections - (if same then min shifted (min count sections) else 0))

pub with_shifted-suc :
    (big same : Bool) (count start : ℕ)
    → with_shifted big same count (suc start)
      ≡ with_shifted big same count start
        + ((if ltb start count then 1 else 0)
            + (if (not (leb 99 start) && big) && not (ltb start count && same) then 1 else 0))
with_shifted-suc true true count start = ground arith
with_shifted-suc true false count start = ground arith
with_shifted-suc false true count start = ground arith
with_shifted-suc false false count start = ground arith

pub length-tried_offsets :
    (shifted t : Bool) (x : ℕ)
    → length (tried_offsets shifted (if t then some x else none))
      ≡ (if t then 1 else 0) + (if shifted && not (t && x == 1) then 1 else 0)
unfolding tried_offsets
length-tried_offsets true true x = ground arith
length-tried_offsets true false x = ground arith
length-tried_offsets false true x = ground arith
length-tried_offsets false false x = ground arith

pub at_most_two : (shifted : Bool) (offset : Option ℕ) → length (tried_offsets shifted offset) ≤ 2
unfolding tried_offsets
at_most_two true none = omega arith
at_most_two false none = omega arith
at_most_two true (some x) = ground arith
at_most_two false (some x) = ground arith

pub exhaustive : (sections actions : ℕ) → sections * (2 * actions) ≤ sections * max 1 actions * 2
exhaustive sections zero = omega arith
exhaustive sections (suc actions) =
    let e : max 1 (suc actions) ≡ suc actions = omega arith in rw e (grind arith)
