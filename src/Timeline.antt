-- ===== src/Timeline.antt =====
-- gear_optimizer/solver/fever_timeline.py: the fever of play at fixed hit times.
--
-- `window_end i` is np.searchsorted's answer for a fever that starts at note i: the first note at or
-- after its end. It is an argument, with the float32 hit times behind it. Note indices are natural
-- numbers; with no fill at all the source's first section starts at note -1 and stops there as it
-- does at note 0. The while loop is on fuel, and none is its lack.
pub mod Play
pub mod Cells
mod Tests
use ro_beats_calculator_engi.Common.{
  ℕ, zero, suc, ◌+◌, ◌-◌, ◌*◌, ◌/◌, ◌%◌, ◌≤◌, ◌<◌, min, Bool, true, false, not, ◌&&◌, ◌||◌, Option,
  none, some, List, [], ◌∷◌, map, leb, ltb, ◌==◌, if◌then◌else◌,
}
use ro_beats_calculator_engi.Common.Options.{◌>>=◌}
use ro_beats_calculator_engi.Common.Bits.{or_bit}
use ro_beats_calculator_engi.Score.{Words, word, TimelineSurface}

-- The buffer of fever notes, and the loop's counters.
pub record Sections : Type 0 where
  pub is_fever : ℕ → Bool
  pub current_note_idx : ℕ
  pub fever_activations : ℕ
  pub fever_section : ℕ
  pub last_fever_end_idx : ℕ

abbrev pub no_section : Sections
no_section = record {
  is_fever = λ i. false;
  current_note_idx = 0;
  fever_activations = 0;
  fever_section = 0;
  last_fever_end_idx = 0;
}

-- `is_fever[start:end] = True`
abbrev pub set_fever : (ℕ → Bool) → ℕ → ℕ → ℕ → Bool
set_fever is_fever start end i = if leb start i && ltb i end then true else is_fever i

abbrev pub notes_to_fill : ℕ → ℕ → ℕ
notes_to_fill fill section = if suc section == 1 then fill - 1 else fill

-- The fever that fills at note `at`, in the next section.
unfoldable pub open_fever : (ℕ → ℕ) → Sections → ℕ → Sections
open_fever window_end s at = record {
  is_fever = set_fever s.is_fever at (window_end at);
  current_note_idx = window_end at;
  fever_activations = suc s.fever_activations;
  fever_section = suc s.fever_section;
  last_fever_end_idx = window_end at;
}

unfoldable pub sections : ℕ → ℕ → ℕ → (ℕ → ℕ) → Sections → Option Sections
sections zero total fill window_end s = if ltb s.current_note_idx total then none else some s
sections (suc fuel) total fill window_end s =
    let at = min (s.current_note_idx + notes_to_fill fill s.fever_section) total in
    let rest = sections fuel total fill window_end (open_fever window_end s at) in
    if not (ltb s.current_note_idx total)
    then some s
    else if leb total at || at == 0
    then some s
    else rest

-- What the kernel returns.
pub record Timeline : Type 0 where
  pub fever_mask : ℕ → Bool
  pub head_limit : ℕ
  pub count_body_fever : ℕ
  pub count_body_normal : ℕ
  pub fever_activations : ℕ
  pub last_fever_end_idx : ℕ

-- The notes in [100, 100 + count) for which a test holds.
unfoldable pub count_body : (ℕ → Bool) → ℕ → ℕ
count_body test zero = 0
count_body test (suc count) = count_body test count + (if test (100 + count) then 1 else 0)

-- The counts after the loop.
unfoldable pub finish : ℕ → Sections → Timeline
finish total s = record {
  fever_mask = s.is_fever;
  head_limit = min total 100;
  count_body_fever = count_body s.is_fever (total - 100);
  count_body_normal = count_body (λ i. not (s.is_fever i)) (total - 100);
  fever_activations = s.fever_activations;
  last_fever_end_idx = s.last_fever_end_idx;
}

unfoldable pub calculate_fever_timeline_indices : ℕ → ℕ → (ℕ → ℕ) → Option Timeline
calculate_fever_timeline_indices total fill window_end = do
  s ← sections total total fill window_end no_section
  some (finish total s)

-- `words[note // 32] |= 1 << (note % 32)`
unfoldable pub mark : Words → ℕ → Words
mark ws note =
    let w = note / 32 in
    let changed = or_bit (word ws w) (note % 32) in
    if w == 0
    then record ws { w0 = changed }
    else if w == 1
    then record ws { w1 = changed }
    else if w == 2
    then record ws { w2 = changed }
    else record ws { w3 = changed }

abbrev pub no_words : Words
no_words = record { w0 = 0; w1 = 0; w2 = 0; w3 = 0 }

-- The notes below a limit that are in fever, marked one by one.
unfoldable pub head_words : (ℕ → Bool) → ℕ → Words
head_words mask zero = no_words
head_words mask (suc limit) =
    let ws = head_words mask limit in if mask limit then mark ws limit else ws

-- gear_optimizer/score.py
abbrev pub single_surface_cell : (ℕ → Bool) → ℕ → ℕ → ℕ → List TimelineSurface
single_surface_cell head limit body_fever body_normal =
    record {
      head_words = head_words head limit;
      body_fever = body_fever;
      body_normal = body_normal;
    }
    ∷ []

unfoldable pub fixed_timeline_cell : ℕ → ℕ → (ℕ → ℕ) → Option (List TimelineSurface)
fixed_timeline_cell total fill window_end = do
  t ← calculate_fever_timeline_indices total fill window_end
  some (single_surface_cell t.fever_mask t.head_limit t.count_body_fever t.count_body_normal)

-- One cell of the grid: its surface, its activations and where its last fever ends.
pub record GridCell : Type 0 where
  pub surface : TimelineSurface
  pub fever_activations : ℕ
  pub last_fever_end : ℕ

unfoldable pub grid_cell : Timeline → GridCell
grid_cell t = record {
  surface = record {
    head_words = head_words t.fever_mask t.head_limit;
    body_fever = t.count_body_fever;
    body_normal = t.count_body_normal;
  };
  fever_activations = t.fever_activations;
  last_fever_end = t.last_fever_end_idx;
}

-- A column for each fill count, and a row for each fever duration, given by its windows.
unfoldable pub grid_row : ℕ → (ℕ → ℕ) → List ℕ → Option (List GridCell)
grid_row total window_end [] = some []
grid_row total window_end (fill ∷ fills) = do
  timeline ← calculate_fever_timeline_indices total fill window_end
  cells ← grid_row total window_end fills
  some (grid_cell timeline ∷ cells)

unfoldable pub surface_grid : ℕ → List (ℕ → ℕ) → List ℕ → Option (List (List GridCell))
surface_grid total [] fills = some []
surface_grid total (window_end ∷ durations) fills = do
  row ← grid_row total window_end fills
  rows ← surface_grid total durations fills
  some (row ∷ rows)
