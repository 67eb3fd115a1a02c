-- ===== src/Timeline/Tests.antt =====
-- A chart of 12 notes with fevers of 3 notes that end with the chart at the latest.
use ro_beats_calculator_engi.Common.{ℕ, ◌+◌, ◌≡◌, refl, min, some, List, [], ◌∷◌, Each, arith}
use ro_beats_calculator_engi.Common.Bits.{or_bit}
use ro_beats_calculator_engi.Score.{TimelineSurface}
use ro_beats_calculator_engi.Timeline.{
  open_fever, sections, finish, count_body, calculate_fever_timeline_indices, mark, head_words,
  fixed_timeline_cell, GridCell, grid_cell, grid_row, surface_grid,
}
use ro_beats_calculator_engi.Timeline.Cells.{
  Shows, IsGridRow, fixed_timeline_cell-Shows, surface_grid-IsGridRow,
}
use ro_beats_calculator_engi.Timeline.Play.{play, fever_at, AreWindows}

program : Unit {0}
unfolding open_fever sections finish count_body calculate_fever_timeline_indices mark head_words
    fixed_timeline_cell grid_cell grid_row surface_grid or_bit play
program = tt

abbrev window_end : ℕ → ℕ
window_end i = min (i + 3) 12

windows : AreWindows 12 window_end
windows i h = (omega (arith, h), omega arith)

-- Notes 2, 3, 4 and 8, 9, 10: the bar starts again after note 5.
cell :
    fixed_timeline_cell 12 3 window_end
    ≡ some (
        record {
          head_words = record { w0 = 1820; w1 = 0; w2 = 0; w3 = 0 };
          body_fever = 0;
          body_normal = 0;
        }
        ∷ [])
unfolding program
cell = refl

fixed_timeline_cell-Shows_example :
    (cell : TimelineSurface) × (fixed_timeline_cell 12 3 window_end ≡ some (cell ∷ []))
    × Shows 12 (fever_at 3 window_end) cell
fixed_timeline_cell-Shows_example = fixed_timeline_cell-Shows 12 3 window_end (omega arith) windows

surface_grid-IsGridRow_example :
    (rows : List (List GridCell)) × (surface_grid 12 (window_end ∷ []) (3 ∷ 4 ∷ []) ≡ some rows)
    × Each (IsGridRow 12 (3 ∷ 4 ∷ [])) (window_end ∷ []) rows
surface_grid-IsGridRow_example =
    surface_grid-IsGridRow 12 (window_end ∷ []) (3 ∷ 4 ∷ []) (windows, tt)
      (omega arith, (omega arith, tt))
