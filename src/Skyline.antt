-- ===== src/Skyline.antt =====
-- The skylines of gear_optimizer/frontier/producer_kernels.py: packet points reduced to their Pareto
-- skyline in place, and the body candidates kept per pair of Great counts.
--
-- The rows [base, write) of a buffer are a list, and an array with its stamps a function on indices,
-- of a given length. Counts are natural numbers, so the checks against negative ones never fire.
pub mod Points
pub mod Pairs
mod Tests
use ro_beats_calculator_engi.Common.{
  ℕ, ◌+◌, ◌-◌, ◌*◌, Bool, true, false, not, ◌&&◌, ◌||◌, List, [], ◌∷◌, ◌++◌, Result, ok, err,
  value_error, raise_if, ◌>>=◌, leb, ltb, ◌==◌, if◌then◌else◌,
}

-- Fever notes, normal Greats and fever Greats.
pub record Point : Type 0 where
  pub fever : ℕ
  pub normal : ℕ
  pub fever_great : ℕ

-- More fever notes for no more Greats of either kind.
abbrev pub dominates : Point → Point → Bool
dominates p c = leb c.fever p.fever && leb p.normal c.normal && leb p.fever_great c.fever_great

unfoldable pub dominated : List Point → Point → Bool
dominated [] c = false
dominated (p ∷ points) c = dominates p c || dominated points c

-- The loop that compacts out what the candidate dominates.
unfoldable pub compact_out : Point → List Point → List Point
compact_out c [] = []
compact_out c (p ∷ points) =
    let rest = compact_out c points in if dominates c p then rest else p ∷ rest

unfoldable pub packet_points_append : List Point → Point → List Point
packet_points_append points c =
    if dominated points c then points else compact_out c points ++ c ∷ []

-- `_numba_packet_points_skyline` on the rows that are kept so far
unfoldable pub skyline_from : List Point → List Point → List Point
skyline_from kept [] = kept
skyline_from kept (c ∷ points) = skyline_from (packet_points_append kept c) points

abbrev pub packet_points_skyline : List Point → List Point
packet_points_skyline = skyline_from []

-- Body counts: fever notes, Greats, and notes that are both.
pub record Counts : Type 0 where
  pub fever : ℕ
  pub great : ℕ
  pub fever_great : ℕ

-- pair_stamp, best_fever_by_pair and touched_pair
pub record PairTable : Type 0 where
  pub pair_stamp : ℕ → ℕ
  pub best_fever : ℕ → ℕ
  pub touched : List ℕ

abbrev pub write : (ℕ → ℕ) → ℕ → ℕ → ℕ → ℕ
write array at value i = if at == i then value else array i

abbrev pub sum_counts : Counts → Counts → Counts
sum_counts edge tail = record {
  fever = edge.fever + tail.fever;
  great = edge.great + tail.great;
  fever_great = edge.fever_great + tail.fever_great;
}

-- The rest of `_numba_touch_body_candidate` once the pair's index is known.
unfoldable pub touch_pair : ℕ → PairTable → ℕ → ℕ → PairTable
touch_pair stamp s at body_fever =
    if not (s.pair_stamp at == stamp)
    then record {
      pair_stamp = write s.pair_stamp at stamp;
      best_fever = write s.best_fever at body_fever;
      touched = s.touched ++ at ∷ [];
    }
    else if ltb (s.best_fever at) body_fever
    then record s { best_fever = write s.best_fever at body_fever }
    else s

unfoldable pub touch_body_candidate : ℕ → ℕ → ℕ → PairTable → Counts → Counts → Result PairTable
touch_body_candidate pair_mod size stamp s edge tail =
    let body = sum_counts edge tail in
    let pair_idx = (body.great - body.fever_great) * pair_mod + body.fever_great in
    if ltb body.great body.fever_great
    then ok s
    else raise_if (leb pair_mod body.fever_great) value_error
        (raise_if (leb size pair_idx) value_error (ok (touch_pair stamp s pair_idx body.fever)))
