-- ===== src/Service/Catalog.antt =====
-- `_read_official_charts` and `find_official_chart`: the song list, and the chart of a song.
--
-- A chart is its path and its header, none where the file cannot be read, in the order of its folder. The
-- title without its difficulty and the audio id without its prefix are arguments.
pub mod Listed
use Prim.Native.String.{String}
use text.Mathlib.Text.{◌==◌ as str_eq}
use text.Mathlib.TextEquality.{eq_iff}
use ro_beats_calculator_engi.Common.{
  ℕ, suc, ◌≡◌, refl, ap, ◌∙◌, sym, Bool, true, false, not, ◌&&◌, ◌||◌, Option, none, some, List, [],
  ◌∷◌, ◌++◌, map, Result, Error, ok, err, request_error, service_not_ready, if◌then◌else◌, arith,
  Bool-cases, Option-cases, inl, inr,
}
use ro_beats_calculator_engi.Common.Dict.{contains, get}

pub record ChartFile : Type 0 where
  pub path : String
  pub header : Option (List (String × String))

-- A song of the list.
pub record OfficialSong : Type 0 where
  pub song_id : String
  pub difficulty : String
  pub primary_element : String
  pub secondary_element : String
  pub title : String
  pub artist : String
  pub audio_id : String
  pub cover_image_id : String

pub record OfficialCharts : Type 0 where
  pub songs : List OfficialSong
  pub paths_by_song_id : List (String × String)

abbrev pub header_or_empty : String → List (String × String) → String
header_or_empty key header = elim (get key header) [ none ↦ "" | some value ↦ value ]

-- `paths_by_song_id.setdefault(song_id, chart)`
unfoldable pub set_default : String → String → List (String × String) → List (String × String)
set_default key value [] = (key, value) ∷ []
set_default key value ((k, v) ∷ d) =
    if str_eq k key then (k, v) ∷ d else (k, v) ∷ set_default key value d

module _ (title_of audio_of : String → String) where
  -- One turn of the inner loop.
  unfoldable pub read_chart : String → ChartFile → OfficialCharts → OfficialCharts
  read_chart difficulty file read = elim file.header [
    | none ↦ read
    | some header ↦ if str_eq (header_or_empty "Song Name" header) "" then read else record {
      songs =
          read.songs
          ++ record {
            song_id = header_or_empty "Song Name" header;
            difficulty = difficulty;
            primary_element = header_or_empty "Primary Color" header;
            secondary_element = header_or_empty "Secondary Color" header;
            title = title_of (header_or_empty "Title" header);
            artist = header_or_empty "Artist" header;
            audio_id = audio_of (header_or_empty "Audio Asset ID" header);
            cover_image_id = header_or_empty "Cover Image ID" header;
          }
            ∷ [];
      paths_by_song_id =
          set_default (header_or_empty "Song Name" header) file.path read.paths_by_song_id;
    }
  ]

  -- Both loops, over the files of all folders with their difficulty.
  unfoldable pub read_charts : List (String × ChartFile) → OfficialCharts → OfficialCharts
  read_charts [] read = read
  read_charts ((difficulty, file) ∷ files) read =
      read_charts files (read_chart difficulty file read)

  unfoldable pub read_official_charts : List (String × ChartFile) → OfficialCharts
  read_official_charts files = read_charts files (record { songs = []; paths_by_song_id = [] })

unfoldable pub find_official_chart : String → OfficialCharts → Result String
find_official_chart song_id charts = elim (get song_id charts.paths_by_song_id) [
  | none ↦ err request_error
  | some path ↦ ok path
]
