-- ===== src/Service/Catalog/Listed.antt =====
-- A song is found just if it is listed, and its chart is the first with its name.
use Prim.Native.String.{String}
use text.Mathlib.Text.{◌==◌ as str_eq}
use text.Mathlib.TextEquality.{eq_iff}
use ro_beats_calculator_engi.Common.{
  ◌≡◌, refl, ap, ◌∙◌, sym, Bool, true, false, not, ◌&&◌, ◌||◌, Option, none, some, List, [], ◌∷◌,
  ◌++◌, Result, ok, err, request_error, if◌then◌else◌, arith, Bool-cases, Option-cases, inl, inr,
}
use ro_beats_calculator_engi.Common.Dict.{get}
use ro_beats_calculator_engi.Service.Catalog.{
  ChartFile, OfficialSong, OfficialCharts, header_or_empty, set_default, read_chart, read_charts,
  read_official_charts, find_official_chart,
}

-- The first readable file whose header has the name.
unfoldable pub first_chart : String → List (String × ChartFile) → Option String
first_chart song_id [] = none
first_chart song_id ((difficulty, file) ∷ files) = elim file.header [
  | none ↦ first_chart song_id files
  | some header ↦
      if not (str_eq song_id "") && str_eq (header_or_empty "Song Name" header) song_id
      then some file.path
      else first_chart song_id files
]

unfoldable pub is_listed : String → List OfficialSong → Bool
is_listed song_id [] = false
is_listed song_id (s ∷ songs) = str_eq s.song_id song_id || is_listed song_id songs

abbrev pub either : Option String → Option String → Option String
either none other = other
either (some x) other = some x

abbrev pub is_some : Option String → Bool
is_some none = false
is_some (some x) = true

get-set_default :
    (key value j : String) (d : List (String × String))
    → get j (set_default key value d) ≡ either (get j d) (if str_eq key j then some value else none)
unfolding get set_default
get-set_default key value j [] = ground arith
get-set_default key value j ((k, v) ∷ d) =
    ground (arith, eq_iff k key, eq_iff k j, eq_iff key j, get-set_default key value j d)

is_listed-append :
    (song_id : String) (songs : List OfficialSong) (s : OfficialSong)
    → is_listed song_id (songs ++ s ∷ []) ≡ (is_listed song_id songs || str_eq s.song_id song_id)
unfolding is_listed
is_listed-append song_id [] s = ground arith
is_listed-append song_id (x ∷ songs) s = ground (arith, is_listed-append song_id songs s)

either_assoc : (a b c : Option String) → either (either a b) c ≡ either a (either b c)
either_assoc none b c = refl
either_assoc (some x) b c = refl

listed_too :
    (song_id path : String) (songs : List OfficialSong) (s : OfficialSong)
    → is_listed song_id (songs ++ s ∷ [])
      ≡ (is_listed song_id songs || is_some (if str_eq s.song_id song_id then some path else none))
listed_too song_id path songs s = elim (Bool-cases (str_eq s.song_id song_id)) [
  | inl t ↦ rw t (is_listed-append song_id songs s ∙ ap (λ b. is_listed song_id songs || b) t)
  | inr t ↦ rw t (is_listed-append song_id songs s ∙ ap (λ b. is_listed song_id songs || b) t)
]

first_chart-cons :
    (song_id difficulty : String) (file : ChartFile) (files : List (String × ChartFile))
    → first_chart song_id ((difficulty, file) ∷ files)
      ≡ either (first_chart song_id ((difficulty, file) ∷ [])) (first_chart song_id files)
unfolding first_chart
first_chart-cons song_id difficulty file files = elim (Option-cases file.header) [
  | inl m ↦ rw (first_chart, m) refl
  | inr m ↦
      elim (Bool-cases
        (not (str_eq song_id "") && str_eq (header_or_empty "Song Name" m.0) song_id)) [
          | inl t ↦ rw (first_chart, m.1, t) refl
          | inr t ↦ rw (first_chart, m.1, t) refl
        ]
]

module _ (title_of audio_of : String → String) where
  read_chart-get :
      (song_id difficulty : String) (file : ChartFile) (read : OfficialCharts)
      → str_eq song_id "" ≡ false
      → (get song_id (read_chart title_of audio_of difficulty file read).paths_by_song_id
          ≡ either
              (get song_id read.paths_by_song_id)
              (first_chart song_id ((difficulty, file) ∷ [])))
        × (is_listed song_id (read_chart title_of audio_of difficulty file read).songs ≡ (
            is_listed song_id read.songs
            || is_some (first_chart song_id ((difficulty, file) ∷ []))))
  unfolding read_chart first_chart
  read_chart-get song_id difficulty file read named = elim (Option-cases file.header) [
    | inl m ↦ rw (read_chart, first_chart, m) (ground arith, ground arith)
    | inr m ↦ elim (Bool-cases (str_eq (header_or_empty "Song Name" m.0) "")) [
      | inl t ↦ rw (read_chart, first_chart, m.1, t, no_name m.0 t) (ground arith, ground arith)
      | inr t ↦
          rw (read_chart, first_chart, m.1, t, named)
            (
              get-set_default (header_or_empty "Song Name" m.0) file.path song_id
                  read.paths_by_song_id,
              listed_too song_id file.path read.songs _,
            )
    ]
  ]
    where
      no_name :
          (header : List (String × String))
          → str_eq (header_or_empty "Song Name" header) "" ≡ true
          → str_eq (header_or_empty "Song Name" header) song_id ≡ false
      no_name header t =
          ap (λ x. str_eq x song_id) ((eq_iff (header_or_empty "Song Name" header) "").0 t)
          ∙ ground (arith, named, eq_iff "" song_id, eq_iff song_id "")

  read_charts-get :
      (song_id : String) (files : List (String × ChartFile)) (read : OfficialCharts)
      → str_eq song_id "" ≡ false
      → (get song_id (read_charts title_of audio_of files read).paths_by_song_id
          ≡ either (get song_id read.paths_by_song_id) (first_chart song_id files))
        × (is_listed song_id (read_charts title_of audio_of files read).songs
            ≡ (is_listed song_id read.songs || is_some (first_chart song_id files)))
  unfolding read_charts first_chart
  read_charts-get song_id [] read named =
      (sym (or_none (get song_id read.paths_by_song_id)), ground arith)
    where
      or_none : (a : Option String) → either a none ≡ a
      or_none none = refl
      or_none (some x) = refl
  read_charts-get song_id ((difficulty, file) ∷ files) read named =
      let (here, listed) = read_chart-get song_id difficulty file read named in
      let (rest, others) =
        read_charts-get song_id files (read_chart title_of audio_of difficulty file read) named in
      let one = first_chart song_id ((difficulty, file) ∷ []) in
      (
        rest
            ∙ ap (λ a. either a (first_chart song_id files)) here
            ∙ either_assoc (get song_id read.paths_by_song_id) one (first_chart song_id files)
            ∙ ap (λ b. either (get song_id read.paths_by_song_id) b)
                (sym (first_chart-cons song_id difficulty file files)),
        others
            ∙ ap (λ b. b || is_some (first_chart song_id files)) listed
            ∙ any_of (is_listed song_id read.songs) one (first_chart song_id files)
            ∙ ap (λ b. is_listed song_id read.songs || is_some b)
                (sym (first_chart-cons song_id difficulty file files)),
      )
    where
      any_of :
          (a : Bool) (b c : Option String)
          → ((a || is_some b) || is_some c) ≡ (a || is_some (either b c))
      any_of a none c = ground arith
      any_of a (some x) c = ground arith

  -- For a song with a name: asking for its official chart gives the first readable chart, in the order of the folders,
  -- whose header has that name, and raises if there is none; and the song list has the song just if there is one,
  -- so that a host finds every song that it was listed.
  pub find_official_chart-first_chart :
      (song_id : String) (files : List (String × ChartFile))
      → str_eq song_id "" ≡ false
      → (find_official_chart song_id (read_official_charts title_of audio_of files)
          ≡ elim (first_chart song_id files) [ none ↦ err request_error | some path ↦ ok path ])
        × (is_listed song_id (read_official_charts title_of audio_of files).songs
            ≡ is_some (first_chart song_id files))
  unfolding find_official_chart read_official_charts get is_listed
  find_official_chart-first_chart song_id files named =
      let (found, listed) =
        read_charts-get song_id files (record { songs = []; paths_by_song_id = [] }) named in
      (
        ap (λ o. elim o as (λ x. Result String) [ none ↦ err request_error | some path ↦ ok path ])
            found,
        listed,
      )
