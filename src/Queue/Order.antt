-- ===== src/Queue/Order.antt =====
-- gear_optimizer/pipeline/queue.py: the charts of a run, their modes, and the order of the queue.
--
-- Text functions, the comparison of texts and the database's times are arguments; a float time is a
-- natural number. Charts come as their path and header, in the order of their folder.
pub mod Sorted
use Prim.Native.String.{String}
use text.Mathlib.Text.{◌==◌ as str_eq}
use ro_beats_calculator_engi.Common.{
  ℕ, zero, suc, Bool, true, false, not, ◌&&◌, ◌||◌, Option, none, some, List, [], ◌∷◌, ◌++◌, map,
  Result, ok, err, value_error, raise_if, ◌>>=◌, ltb, ◌==◌, if◌then◌else◌,
}
use ro_beats_calculator_engi.Common.Dict.{contains, get}
use ro_beats_calculator_engi.Queue.{Solve, SongTask, seeded_tasks, limit_tasks}

pub record RunSettings : Type 0 where
  pub difficulty : String
  pub song_name : String
  pub target_primary : String
  pub target_secondary : String
  pub song_repeats : ℕ
  pub song_queue_limit : ℕ

pub record Chart : Type 0 where
  pub path : String
  pub name : String
  pub difficulty : String
  pub header : List (String × String)

-- What the queue uses of Python's texts: `split_colors` is `re.split` at commas, pipes and slashes.
pub record Texts : Type 0 where
  pub strip : String → String
  pub lower : String → String
  pub capitalize : String → String
  pub casefold : String → String
  pub split_colors : String → List String
  pub is_in : String → String → Bool
  pub text_lt : String → String → Bool

abbrev pub known_difficulties : List String
known_difficulties = "Easy" ∷ "Normal" ∷ "Hard" ∷ []

abbrev pub solve_order : List String
solve_order = "precise" ∷ "non-precise" ∷ []

-- `header.get(key, "")`
abbrev pub header_text : String → List (String × String) → String
header_text key header = elim (get key header) [ none ↦ "" | some value ↦ value ]

-- `_Chart.__init__`
unfoldable pub make_chart : String → String → List (String × String) → Result Chart
make_chart path difficulty header =
    if str_eq (header_text "Song Name" header) ""
    then err value_error
    else ok (record {
      path = path;
      name = header_text "Song Name" header;
      difficulty = difficulty;
      header = header;
    })

-- `sequence.index(value)`, for a value in it
unfoldable pub index_of : String → List String → ℕ
index_of value [] = 0
index_of value (x ∷ xs) = if str_eq x value then 0 else suc (index_of value xs)

module _ (t : Texts) where
  abbrev pub is_empty : List String → Bool
  is_empty [] = true
  is_empty (x ∷ xs) = false

  unfoldable pub difficulties : RunSettings → List String
  difficulties run =
      let wanted = t.capitalize (t.strip run.difficulty) in
      if contains wanted known_difficulties then wanted ∷ [] else known_difficulties

  -- `{token.strip().lower() for token in ... if token.strip()}`
  unfoldable pub color_tokens : List String → List String
  color_tokens [] = []
  color_tokens (token ∷ tokens) =
      if str_eq (t.strip token) ""
      then color_tokens tokens
      else t.lower (t.strip token) ∷ color_tokens tokens

  unfoldable pub color_filter : String → Option (List String)
  color_filter raw =
      let colors = color_tokens (t.split_colors raw) in
      if is_empty colors || contains "all" colors || contains "any" colors || contains "*" colors
      then none
      else some colors

  abbrev pub allows : Option (List String) → String → Bool
  allows none color = true
  allows (some colors) color = contains color colors

  unfoldable pub keeps : RunSettings → Chart → Bool
  keeps run chart =
      t.is_in (t.lower (t.strip run.song_name)) (t.lower chart.name)
      && allows (color_filter run.target_primary)
          (t.lower (t.strip (header_text "Primary Color" chart.header)))
      && allows (color_filter run.target_secondary)
          (t.lower (t.strip (header_text "Secondary Color" chart.header)))

  -- `_charts`, over the files of the difficulty's folder
  unfoldable pub charts :
      String → RunSettings → List (String × List (String × String)) → Result (List Chart)
  charts difficulty run [] = ok []
  charts difficulty run ((path, header) ∷ files) = do
    chart ← make_chart path difficulty header
    rest ← charts difficulty run files
    ok (if keeps run chart then chart ∷ rest else rest)

  unfoldable pub all_charts :
      RunSettings
      → (String → List (String × List (String × String)))
      → List String
      → Result (List Chart)
  all_charts run folder [] = ok []
  all_charts run folder (difficulty ∷ others) = do
    here ← charts difficulty run (folder difficulty)
    rest ← all_charts run folder others
    ok (here ++ rest)

  unfoldable pub modes : Chart → List String
  modes chart =
      let mode = t.lower (t.strip (header_text "Timing Mode" chart.header)) in
      if str_eq mode "" then solve_order else mode ∷ []

  unfoldable pub solves_of : List Chart → List (Chart × String)
  solves_of [] = []
  solves_of (chart ∷ rest) = map (λ mode. (chart, mode)) (modes chart) ++ solves_of rest

  -- A run's results, by mode and song: when one was last stored.
  module _ (last_solved : String → String → Option ℕ) where
    abbrev pub when : Chart × String → Option ℕ
    when (chart, mode) = last_solved mode chart.name

    -- The part of `_queue_key` after the time.
    unfoldable pub name_lt : Chart × String → Chart × String → Bool
    name_lt (c, m) (d, n) =
        if t.text_lt (t.casefold c.name) (t.casefold d.name)
        then true
        else if not (str_eq (t.casefold c.name) (t.casefold d.name))
        then false
        else if ltb (index_of c.difficulty known_difficulties)
            (index_of d.difficulty known_difficulties)
        then true
        else if not
            (index_of c.difficulty known_difficulties == index_of d.difficulty known_difficulties)
        then false
        else if t.text_lt c.path d.path
        then true
        else str_eq c.path d.path && ltb (index_of m solve_order) (index_of n solve_order)

    -- `_queue_key(x) < _queue_key(y)`: what is not stored, then by the time, then by the chart.
    unfoldable pub key_lt : Chart × String → Chart × String → Bool
    key_lt x y = elim (when x) [
      | none ↦ elim (when y) [ none ↦ name_lt x y | some b ↦ true ]
      | some a ↦ elim (when y) [
        | none ↦ false
        | some b ↦ if ltb a b then true else a == b && name_lt x y
      ]
    ]

    -- `solves.sort(key=...)`, which keeps the order of equal keys
    unfoldable pub insert : Chart × String → List (Chart × String) → List (Chart × String)
    insert x [] = x ∷ []
    insert x (y ∷ ys) = let rest = insert x ys in if key_lt y x then y ∷ rest else x ∷ y ∷ ys

    unfoldable pub sort : List (Chart × String) → List (Chart × String)
    sort [] = []
    sort (x ∷ xs) = insert x (sort xs)

    abbrev pub solve_of : Chart × String → Solve
    solve_of (chart, mode) = record { path = chart.path; name = chart.name; mode = mode }

    -- Whether `_SOLVE_ORDER.index(mode)` is there for every solve.
    unfoldable pub known_modes : List (Chart × String) → Bool
    known_modes [] = true
    known_modes ((chart, mode) ∷ solves) = contains mode solve_order && known_modes solves

    -- `build_queue`, with GA_SEED set; none is a lack of fuel for a seed
    unfoldable pub build_queue :
        (Solve → ℕ)
        → ℕ
        → RunSettings
        → (String → List (String × List (String × String)))
        → Result (Option (List SongTask))
    build_queue crc32 seed_base run folder = do
      found ← all_charts run folder (difficulties run)
      raise_if (not (known_modes (solves_of found))) value_error (
          ok
            (elim (seeded_tasks crc32 seed_base run.song_repeats
              (map solve_of (sort (solves_of found)))) [
                | none ↦ none
                | some tasks ↦ some (limit_tasks run.song_queue_limit tasks)
              ]))
