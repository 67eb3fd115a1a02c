-- ===== src/Skyline/Tests.antt =====
-- Three packet points, and three candidates of two pairs of Great counts.
use ro_beats_calculator_engi.Common.{ℕ, ◌≡◌, refl, none, List, [], ◌∷◌, ok, err, value_error}
use ro_beats_calculator_engi.Skyline.{
  Point, dominated, compact_out, packet_points_append, skyline_from, packet_points_skyline, Counts,
  PairTable, touch_pair, touch_body_candidate,
}
use ro_beats_calculator_engi.Skyline.Pairs.{
  touch_all, best_fever_of, entry, IsTable, touch_all-best_fever_of,
}
use ro_beats_calculator_engi.Skyline.Points.{Antichain, packet_points_skyline-Antichain}

program : Unit {0}
unfolding dominated compact_out packet_points_append skyline_from touch_pair touch_body_candidate
    touch_all
program = tt

abbrev point : ℕ → ℕ → ℕ → Point
point f g h = record { fever = f; normal = g; fever_great = h }

abbrev points : List Point
points = point 4 1 0 ∷ point 6 1 1 ∷ point 7 1 0 ∷ point 5 0 2 ∷ point 5 2 2 ∷ []

skyline : packet_points_skyline points ≡ point 7 1 0 ∷ point 5 0 2 ∷ []
unfolding program
skyline = refl

packet_points_skyline-Antichain_example :
    ((x : Point) → dominated (packet_points_skyline points) x ≡ dominated points x)
    × Antichain (packet_points_skyline points)
packet_points_skyline-Antichain_example = packet_points_skyline-Antichain points

abbrev counts : ℕ → ℕ → ℕ → Counts
counts f g h = record { fever = f; great = g; fever_great = h }

abbrev blank : PairTable
blank = record { pair_stamp = λ i. 0; best_fever = λ i. 0; touched = [] }

-- The second has more fever Greats than Greats.
abbrev candidates : List (Counts × Counts)
candidates =
    (counts 5 2 1, counts 3 1 0)
    ∷ (counts 1 0 0, counts 1 1 2)
    ∷ (counts 6 3 1, counts 4 0 0)
    ∷ (counts 1 1 0, counts 1 0 0)
    ∷ []

touched : touch_body_candidate 4 16 9 blank (counts 5 2 3) (counts 3 4 1) ≡ err value_error
unfolding program
touched = refl

touch_all-best_fever_of_example :
    (s' : PairTable) × (touch_all 4 16 9 blank candidates ≡ ok s')
    × IsTable 9 s'
    × ((at : ℕ) → entry 9 s' at ≡ best_fever_of 4 at none candidates)
touch_all-best_fever_of_example =
    touch_all-best_fever_of 4 16 9 candidates blank (λ at. refl) refl
      (refl, (refl, (refl, (refl, tt))))
