-- ===== src/Timeline/Cells.antt =====
-- The cells made of a timeline: the head notes' fever in four words, the other notes counted.
use ro_beats_calculator_engi.Common.{
  ℕ, zero, suc, ◌+◌, ◌-◌, ◌/◌, ◌%◌, ◌≤◌, ◌<◌, ◌≡◌, refl, ap, ◌∙◌, min, Bool, not, ◌&&◌, some, List,
  [], ◌∷◌, All, Each, Each-nil, Each-cons, ltb, ◌==◌, if◌then◌else◌, arith, inl, inr, Bool-cases,
}
use ro_beats_calculator_engi.Common.Bits.{or_bit, bit-zero, bit-or_bit}
use ro_beats_calculator_engi.Score.{Words, word, head_bit, TimelineSurface}
use ro_beats_calculator_engi.Timeline.{
  Sections, Timeline, finish, count_body, calculate_fever_timeline_indices, mark, no_words,
  head_words, fixed_timeline_cell, GridCell, grid_cell, grid_row, surface_grid,
}
use ro_beats_calculator_engi.Timeline.Play.{play, fever_at, AreWindows, IsPlayed, sections_total}

count_body-not :
    (test : ℕ → Bool) (count : ℕ)
    → count_body test count + count_body (λ i. not (test i)) count ≡ count
unfolding count_body
count_body-not test zero = omega arith
count_body-not test (suc count) = ground (arith, count_body-not test count)

count_body_ext :
    (f g : ℕ → Bool) (count : ℕ)
    → ((i : ℕ) → 100 ≤ i → i < 100 + count → f i ≡ g i)
    → count_body f count ≡ count_body g count
unfolding count_body
count_body_ext f g zero h = refl
count_body_ext f g (suc count) h =
    let rest = count_body_ext f g count (λ i le lt. h i le (omega (arith, lt))) in
    rw (rest, h (100 + count) (omega arith) (omega arith)) refl

-- The four words stand on different notes.
word-mark :
    (ws : Words) (note w : ℕ)
    → note < 128
    → w < 4
    → word (mark ws note) w ≡ (if w == note / 32 then or_bit (word ws w) (note % 32) else word ws w)
unfolding mark
word-mark ws note zero h k = ground arith
word-mark ws note (suc zero) h k = ground arith
word-mark ws note (suc (suc zero)) h k = ground arith
word-mark ws note (suc (suc (suc w))) h k = ground (arith, k, h)

head_bit-mark :
    (ws : Words) (note k : ℕ)
    → note < 128
    → k < 128
    → head_bit (mark ws note) k ≡ (if k == note then 1 else head_bit ws k)
unfolding head_bit
head_bit-mark ws note k h lt =
    let e = word-mark ws note (k / 32) h (omega (arith, lt)) in
    elim (Bool-cases (k / 32 == note / 32)) [
      | inr other ↦ rw (e, other) (ground (arith, other))
      | inl same ↦
          rw (e, same) (bit-or_bit (word ws (k / 32)) (note % 32) (k % 32) ∙ ground (arith, same))
    ]

word-no_words : (w : ℕ) → word no_words w ≡ 0
word-no_words zero = refl
word-no_words (suc zero) = refl
word-no_words (suc (suc zero)) = refl
word-no_words (suc (suc (suc w))) = refl

head_bit-no_words : (k : ℕ) → head_bit no_words k ≡ 0
unfolding head_bit
head_bit-no_words k = rw (word-no_words (k / 32)) (bit-zero (k % 32))

head_bit-head_words :
    (mask : ℕ → Bool) (limit k : ℕ)
    → limit ≤ 128
    → k < 128
    → head_bit (head_words mask limit) k ≡ (if ltb k limit && mask k then 1 else 0)
unfolding head_words
head_bit-head_words mask zero k h lt = ground (arith, head_bit-no_words k)
head_bit-head_words mask (suc limit) k h lt =
    let rest = head_bit-head_words mask limit k (omega (arith, h)) lt in
    let marked = head_bit-mark (head_words mask limit) limit k (omega (arith, h)) lt in
    let equal : k ≡ limit → mask k ≡ mask limit = λ e. ap mask e in
    elim (Bool-cases (mask limit)) [
      | inl t ↦ rw t (ground (arith, rest, marked, equal, t))
      | inr t ↦ rw t (ground (arith, rest, equal, t))
    ]

-- What a cell holds of the fever of each note: the head notes as bits, the others counted.
abbrev pub Shows : ℕ → (ℕ → Bool) → TimelineSurface → Type 0
Shows total fever cell =
    ((k : ℕ)
      → k < 128
      → head_bit cell.head_words k ≡ (if ltb k (min total 100) && fever k then 1 else 0))
    × (cell.body_fever ≡ count_body fever (total - 100))
    × (cell.body_fever + cell.body_normal ≡ total - 100)

finish-Shows :
    (total : ℕ) (s : Sections) (fever : ℕ → Bool)
    → ((i : ℕ) → i < total → s.is_fever i ≡ fever i)
    → Shows total fever (grid_cell (finish total s)).surface
unfolding finish grid_cell
finish-Shows total s fever h = (
  λ k lt. head_bit-head_words s.is_fever (min total 100) k (omega arith) lt ∙ ground (arith, h k),
  count_body_ext s.is_fever fever (total - 100) (λ i le lt. h i (omega (arith, le, lt))),
  count_body-not s.is_fever (total - 100),
)

-- A grid cell of the play note by note.
unfoldable pub IsGridCell : ℕ → (ℕ → ℕ) → ℕ → GridCell → Type 0
IsGridCell total window_end fill cell =
    Shows total (fever_at fill window_end) cell.surface
    × ((play fill window_end total).activations ≡ cell.fever_activations)
    × ((play fill window_end total).last_end ≡ cell.last_fever_end)

timeline_total :
    (total fill : ℕ) (window_end : ℕ → ℕ)
    → 2 ≤ fill
    → AreWindows total window_end
    → (t : Timeline) × (calculate_fever_timeline_indices total fill window_end ≡ some t)
      × IsGridCell total window_end fill (grid_cell t)
unfolding calculate_fever_timeline_indices finish grid_cell IsPlayed IsGridCell
timeline_total total fill window_end f w =
    let (s, made, played) = sections_total fill window_end total f w in
    (
      finish total s,
      rw made refl,
      (finish-Shows total s (fever_at fill window_end) played.0, played.1, played.2),
    )

-- Play at fixed hit times, with a bar of two notes at least and fevers that hold their first note
-- and end in the chart, has one surface: bit k of its head words is the fever of note k, note by
-- note, its body fever the fever notes from note 100 on, and its body counts add up to those notes.
pub fixed_timeline_cell-Shows :
    (total fill : ℕ) (window_end : ℕ → ℕ)
    → 2 ≤ fill
    → AreWindows total window_end
    → (cell : TimelineSurface) × (fixed_timeline_cell total fill window_end ≡ some (cell ∷ []))
      × Shows total (fever_at fill window_end) cell
unfolding fixed_timeline_cell IsGridCell grid_cell
fixed_timeline_cell-Shows total fill window_end f w =
    let (t, made, shows) = timeline_total total fill window_end f w in
    ((grid_cell t).surface, rw made refl, shows.0)

grid_row-IsGridCell :
    (total : ℕ) (window_end : ℕ → ℕ) (fills : List ℕ)
    → AreWindows total window_end
    → All (λ fill. 2 ≤ fill) fills
    → (row : List GridCell) × (grid_row total window_end fills ≡ some row)
      × Each (IsGridCell total window_end) fills row
unfolding grid_row
grid_row-IsGridCell total window_end [] w f = ([], refl, Each-nil (IsGridCell total window_end))
grid_row-IsGridCell total window_end (fill ∷ fills) w f =
    let (t, made, shows) = timeline_total total fill window_end f.0 w in
    let (row, rest, cells) = grid_row-IsGridCell total window_end fills w f.1 in
    (
      grid_cell t ∷ row,
      rw (made, rest) refl,
      Each-cons (IsGridCell total window_end) fill (grid_cell t) fills row shows cells,
    )

-- A row of the grid for the windows of one fever duration.
abbrev pub IsGridRow : ℕ → List ℕ → (ℕ → ℕ) → List GridCell → Type 0
IsGridRow total fills window_end row = Each (IsGridCell total window_end) fills row

-- The grid has a row for each fever duration and in it a cell for each fill count, when every bar
-- takes two notes at least and fevers hold their first note and end in the chart: the cell's surface,
-- activations and last end are those of its own play, note by note.
pub surface_grid-IsGridRow :
    (total : ℕ) (durations : List (ℕ → ℕ)) (fills : List ℕ)
    → All (AreWindows total) durations
    → All (λ fill. 2 ≤ fill) fills
    → (rows : List (List GridCell)) × (surface_grid total durations fills ≡ some rows)
      × Each (IsGridRow total fills) durations rows
unfolding surface_grid
surface_grid-IsGridRow total [] fills w f = ([], refl, Each-nil (IsGridRow total fills))
surface_grid-IsGridRow total (window_end ∷ durations) fills w f =
    let (row, made, cells) = grid_row-IsGridCell total window_end fills w.0 f in
    let (rows, rest, more) = surface_grid-IsGridRow total durations fills w.1 f in
    (
      row ∷ rows,
      rw (made, rest) refl,
      Each-cons (IsGridRow total fills) window_end row durations rows cells more,
    )
