-- ===== src/Edge/Tests.antt =====
-- A section over the head's end, with an activation Great and early Greats.
use ro_beats_calculator_engi.Common.{◌≡◌, refl, ◌||◌, some, arith}
use ro_beats_calculator_engi.Edge.{
  pack_edge, pack_edge_eg, range_mask, mask_segment, body_count, body_overlap_count,
  single_head_mask,
}
use ro_beats_calculator_engi.Edge.Counts.{in_range}
use ro_beats_calculator_engi.Edge.Notes.{Packs, great_in_edge, pack_edge_eg-Packs}

program : Unit {0}
unfolding pack_edge_eg pack_edge range_mask mask_segment body_count body_overlap_count
    single_head_mask
program = tt

-- Fever over notes 60 to 109, Greats 58 to 60, early Greats 105 to 107.
packed : pack_edge_eg 200 60 110 58 61 (some 60) 105 108 ≡ record {
  fever = record { lo = 17293822569102704640; hi = 68719476735 };
  great = record { lo = 2017612633061982208; hi = 0 };
  body_fever = 10;
  body_great = 3;
  body_fever_great = 3;
}
unfolding program
packed = refl

pack_edge_eg-Packs_example :
    Packs 200
      (in_range 60 110)
      (λ k. great_in_edge 58 61 (some 60) k || in_range 105 108 k)
      (pack_edge_eg 200 60 110 58 61 (some 60) 105 108)
pack_edge_eg-Packs_example =
    pack_edge_eg-Packs 200 60 110 58 61 105 108 (some 60) (omega arith) (omega arith) (omega arith)
      (omega arith) (omega arith)
