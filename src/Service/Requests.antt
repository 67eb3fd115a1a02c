-- ===== src/Service/Requests.antt =====
-- `parse_request`: what a request asks for, with every field checked.
--
-- A chart is its lines. The official charts, the catalog and the slug of a job are arguments, as are the
-- tests of a line: whether it starts with a header and a tab, and the line of a header and a value.
pub mod Parsed
pub mod Accepted
use Prim.Native.String.{String}
use text.Mathlib.Text.{◌==◌ as str_eq}
use ro_beats_calculator_engi.Common.{
  ℕ, zero, suc, Bool, true, false, not, ◌&&◌, ◌||◌, Option, none, some, List, [], ◌∷◌, ◌++◌, map,
  length, Result, ok, err, request_error, raise_if, ◌>>=◌, ltb, if◌then◌else◌,
}
use ro_beats_calculator_engi.Common.Dict.{contains}
use ro_beats_calculator_engi.Service.Items.{
  Json, Fields, lookup, Python, Item, text_field, custom_items, excluded_names, refuse_taken_names,
}

pub record CustomPool : Type 0 where
  pub custom_gear : List Item
  pub custom_minis : List Item
  pub exclude_gear : List String
  pub exclude_minis : List String

pub record SolveRequest : Type 0 where
  pub job : String
  pub song_name : String
  pub chart_text : List String
  pub timing_mode : String
  pub reasoning : String
  pub uploaded : Bool
  pub custom_pool : CustomPool
  pub promotes : Bool

-- What the service has at hand.
pub record Library : Type 0 where
  pub job_slug : Option Json → String
  pub splitlines : String → List String
  pub starts_with_header : String → String → Bool
  pub header_line : String → String → String
  pub find_official_chart : String → Option (List String)
  pub catalog_gears : List String
  pub catalog_minis : List String

-- `CUSTOM_GEAR_STATS` and `CUSTOM_MINI_STATS`, their keys
abbrev pub custom_gear_stats : List String
custom_gear_stats =
    "chill" ∷ "flow" ∷ "rush" ∷ "beat" ∷ "vibe" ∷ "ppoint" ∷ "cmult" ∷ "fmult" ∷ "time" ∷ "fill"
    ∷ []

abbrev pub custom_mini_stats : List String
custom_mini_stats =
    "chill" ∷ "flow" ∷ "rush" ∷ "beat" ∷ "vibe" ∷ "cbmlt" ∷ "fvmlt" ∷ "fvtim" ∷ "fvfil" ∷ []

abbrev pub custom_gear_slots : List String
custom_gear_slots = "Hat" ∷ "Face" ∷ "Neck" ∷ "Shirt" ∷ "Pants" ∷ "Back" ∷ []

abbrev pub custom_mini_types : List String
custom_mini_types = "Chill" ∷ "Flow" ∷ "Rush" ∷ "Beat" ∷ "Vibe" ∷ []

abbrev pub max_custom_chart_events : ℕ
max_custom_chart_events = 4000

abbrev pub timing_modes : List String
timing_modes = "non-precise" ∷ "precise" ∷ []

abbrev pub reasoning_levels : List String
reasoning_levels = "default" ∷ "strong" ∷ "max" ∷ []

-- The header's first line replaced, or a line in front where there is none.
unfoldable pub replace_first : (String → Bool) → String → List String → Option (List String)
replace_first is_header line [] = none
replace_first is_header line (l ∷ lines) =
    if is_header l
    then some (line ∷ lines)
    else elim (replace_first is_header line lines) [ none ↦ none | some rest ↦ some (l ∷ rest) ]

unfoldable pub set_header : (String → Bool) → String → List String → List String
set_header is_header line lines = elim (replace_first is_header line lines) [
  | none ↦ line ∷ lines
  | some replaced ↦ replaced
]

-- The lines after the first that is `Song Data`.
unfoldable pub after_song_data : List String → Option (List String)
after_song_data [] = none
after_song_data (line ∷ lines) =
    if str_eq line "Song Data" then some lines else after_song_data lines

unfoldable pub count_events : List String → ℕ
count_events [] = 0
count_events (line ∷ lines) =
    if str_eq line "" then count_events lines else suc (count_events lines)

module _ (py : Python) (lib : Library) where
  unfoldable pub with_solve_headers : List String → String → String → List String
  with_solve_headers lines song_name timing_mode =
      set_header (lib.starts_with_header "Song Name") (lib.header_line "Song Name" song_name) (
        set_header (lib.starts_with_header "Timing Mode")
          (lib.header_line "Timing Mode" timing_mode) lines)

  unfoldable pub check_uploaded_chart : List String → Result (Unit {0})
  check_uploaded_chart lines = elim (after_song_data (map py.strip lines)) [
    | none ↦ err request_error
    | some events ↦
        raise_if (ltb max_custom_chart_events (count_events events)) request_error (ok tt)
  ]

  abbrev pub is_empty {ℓ} : {A : Type ℓ} → List A → Bool
  is_empty [] = true
  is_empty (x ∷ xs) = false

  unfoldable pub custom_pool_of : Fields → Result CustomPool
  custom_pool_of request = do
    gear ← custom_items py custom_gear_stats custom_gear_slots (lookup "customGear" request)
    minis ← custom_items py custom_mini_stats custom_mini_types (lookup "customMinis" request)
    excluded_gear ← excluded_names py 400 (lookup "excludeGear" request)
    excluded_minis ← excluded_names py 200 (lookup "excludeMinis" request)
    checked_gear ← refuse_taken_names py gear lib.catalog_gears excluded_gear
    checked_minis ← refuse_taken_names py minis lib.catalog_minis excluded_minis
    ok (record {
      custom_gear = gear;
      custom_minis = minis;
      exclude_gear = excluded_gear;
      exclude_minis = excluded_minis;
    })

  unfoldable pub is_clean : CustomPool → Bool
  is_clean pool =
      is_empty pool.custom_gear
      && is_empty pool.custom_minis
      && is_empty pool.exclude_gear
      && is_empty pool.exclude_minis

  -- The chart and its song: an uploaded one before an official one.
  unfoldable pub chosen_chart : String → String → String → Result (List String × String)
  chosen_chart job uploaded_text song_id =
      if not (str_eq uploaded_text "")
      then (do
        checked ← check_uploaded_chart (lib.splitlines uploaded_text)
        ok (lib.splitlines uploaded_text, job))
      else if not (str_eq song_id "")
      then (elim (lib.find_official_chart song_id) [
        | none ↦ err request_error
        | some chart ↦ ok (chart, song_id)
      ])
      else err request_error

  unfoldable pub parse_request : Fields → Result SolveRequest
  parse_request request =
      let job = lib.job_slug (lookup "jobId" request) in
      let uploaded_text = text_field py "chartText" "" request in
      let timing_mode = py.lower (text_field py "timingMode" "non-precise" request) in
      let reasoning = py.lower (text_field py "reasoning" "default" request) in
      do
        chart ← chosen_chart job uploaded_text (text_field py "targetSongId" "" request)
        mode ← raise_if (not (contains timing_mode timing_modes)) request_error (ok timing_mode)
        level ← raise_if (not (contains reasoning reasoning_levels)) request_error (ok reasoning)
        pool ← custom_pool_of request
        ok (record {
          job = job;
          song_name = chart.1;
          chart_text = with_solve_headers chart.0 chart.1 mode;
          timing_mode = mode;
          reasoning = level;
          uploaded = not (str_eq uploaded_text "");
          custom_pool = pool;
          promotes = str_eq uploaded_text "" && is_clean pool;
        })
