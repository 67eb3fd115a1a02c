-- ===== src/Service/Tests.antt =====
-- The service at concrete requests.
use Prim.Native.String.{String}
use text.Mathlib.Text.{◌==◌ as str_eq}
use text.Mathlib.TextEquality.{eq_iff}
use ro_beats_calculator_engi.Common.{
  request_error, err, ℕ, ◌+◌, ◌≤◌, ◌≡◌, ◌↔◌, refl, sym, ap, true, false, not, ◌&&◌, ◌⊎◌,
  if◌then◌else◌, Option, none, some, [], ◌∷◌, Result, ok, List, arith,
}
use ro_beats_calculator_engi.Common.Dict.{contains, Distinct, keys}
use ro_beats_calculator_engi.Service.Slots as Slots
use ro_beats_calculator_engi.Service.Slots.{
  Slots as SlotCounts, idle, enter, sample, leave, drain, leaves, resumes, run-drain,
  run-solve_pool,
}
use ro_beats_calculator_engi.Service.Items.{
  pos, string, array, no_items, item, object, Fields, no_fields, field, items, lookup, truthy,
  Python, stat_value, stat_values, custom_item, custom_items_from, custom_items, all_texts,
  stripped_names, all_excluded_names, excluded_names, refuse_taken_names, Fields,
}
use ro_beats_calculator_engi.Service.Requests.{
  Library, SolveRequest, with_solve_headers, replace_first, set_header, after_song_data,
  count_events, check_uploaded_chart, custom_pool_of, is_clean, chosen_chart, parse_request,
}
use ro_beats_calculator_engi.Service.Requests.Parsed.{
  first_line, lines_that, with_solve_headers-first_line,
}
use ro_beats_calculator_engi.Service.Requests.Accepted.{
  IsAccepted, IsOfficial, parse_request-IsAccepted, parse_request-IsOfficial,
}
use ro_beats_calculator_engi.Service.Update.{Answers, Updater, serve_forever}
use ro_beats_calculator_engi.Service.Update.Rounds.{refusing_after, serve_forever-refusing_after}
use ro_beats_calculator_engi.Service.Http.{HttpRequest, do_post, clear_and_check, do_post-optimize}
use ro_beats_calculator_engi.Service.Catalog.{ChartFile, find_official_chart, read_official_charts}
use ro_beats_calculator_engi.Service.Catalog.Listed.{
  first_chart, is_listed, is_some, find_official_chart-first_chart,
}
use ro_beats_calculator_engi.Service.Solves as Solves
use ro_beats_calculator_engi.Service.Solves.{arrive, finish, remove, timed_out, loadouts}
use ro_beats_calculator_engi.Service.Solves.Joined.{answers, waiting, arrivals, run-arrivals}
use ro_beats_calculator_engi.Service.Solves.Workers.{AreSeparate, requests, requests-AreSeparate}

abbrev busy : SlotCounts
busy = record { permits = 1; gate = 1; active_solves = 2; draining = false }

run-drain_example :
    (Slots.run busy (drain ∷ leave ∷ enter ∷ sample 0 ∷ leave ∷ [])).active_solves ≡ 0
unfolding resumes leaves
run-drain_example = run-drain busy (leave ∷ enter ∷ sample 0 ∷ leave ∷ []) refl (omega arith)

run-solve_pool_example :
    let s = Slots.run (idle 2) (enter ∷ enter ∷ sample 0 ∷ sample 0 ∷ []) in
    (s.permits + s.gate + s.active_solves ≡ 2) × (s.active_solves ≤ 2)
run-solve_pool_example = run-solve_pool 2 (enter ∷ enter ∷ sample 0 ∷ sample 0 ∷ [])

abbrev py : Python
py = record {
  str = λ j. elim j [ string s ↦ s | _ ↦ "other" ];
  strip = λ s. s;
  lower = λ s. s;
  casefold = λ s. s;
  is_custom_item_name = λ s. not (str_eq s "");
  is_excluded_name = λ s. true;
}

abbrev lib : Library
lib = record {
  job_slug = λ j. "job";
  splitlines = λ s. s ∷ [];
  starts_with_header = λ header line. str_eq header line;
  header_line = λ header value. header;
  find_official_chart = λ song. some ("Song Name" ∷ "Song Data" ∷ []);
  catalog_gears = "Crown" ∷ [];
  catalog_minis = [];
}

abbrev official : Fields
official = field "targetSongId" (string "Song") no_fields

abbrev custom : Fields
custom = field "targetSongId" (string "Song") (
    field "customGear"
      (array (
        item
          (object (
            field "name" (string "Hood")
              (field "type" (string "Hat") (field "rush" (pos 7) no_fields))))
          no_items))
      no_fields)

program : Unit {0}
unfolding resumes leaves items lookup truthy stat_value stat_values custom_item custom_items_from
    custom_items all_texts stripped_names all_excluded_names excluded_names refuse_taken_names
    with_solve_headers replace_first set_header after_song_data count_events check_uploaded_chart
    custom_pool_of is_clean chosen_chart parse_request contains
program = tt

parsed_custom : (r : SolveRequest) × (parse_request py lib custom ≡ ok r)
unfolding program
parsed_custom = (_, refl)

parsed_official : (r : SolveRequest) × (parse_request py lib official ≡ ok r) × (r.promotes ≡ true)
unfolding program
parsed_official = (_, refl, refl)

parse_request-IsAccepted_example : IsAccepted py lib custom parsed_custom.0
parse_request-IsAccepted_example =
    parse_request-IsAccepted py lib custom parsed_custom.0 parsed_custom.1

parse_request-IsOfficial_example : IsOfficial py lib parsed_official.0
parse_request-IsOfficial_example =
    parse_request-IsOfficial py lib official parsed_official.0 parsed_official.1 parsed_official.2

own_header : (header value : String) → str_eq header header ≡ true
own_header header value = (eq_iff header header).1 refl

apart : (l : String) → str_eq "Song Name" l ≡ true → str_eq "Timing Mode" l ≡ false
apart l h = ap (λ (x : String). str_eq "Timing Mode" x) (sym ((eq_iff "Song Name" l).0 h))

with_solve_headers-first_line_example :
    let headed = with_solve_headers py lib ("Title" ∷ "Song Name" ∷ []) "Song" "precise" in
    let other = λ (l : String). not (str_eq "Song Name" l) && not (str_eq "Timing Mode" l) in
    (first_line (str_eq "Song Name") headed ≡ some "Song Name")
    × (first_line (str_eq "Timing Mode") headed ≡ some "Timing Mode")
    × (lines_that other headed ≡ lines_that other ("Title" ∷ "Song Name" ∷ []))
with_solve_headers-first_line_example =
    with_solve_headers-first_line py lib ("Title" ∷ "Song Name" ∷ []) "Song" "precise" own_header
      apart

abbrev new_data : Answers
new_data = record {
  head = ok "a";
  commit = ok "b";
  changed_code = λ old new. ok false;
  has_local_changes = ok false;
  merged = ok tt;
  refresh = ok tt;
}

abbrev new_code : Answers
new_code = record new_data { commit = ok "c"; changed_code = λ old new. ok true }

abbrev updater : Updater
updater = record { stopped = false; running = none; refreshed = none }

serve_forever-refusing_after_example :
    let (last, effects) = serve_forever (new_data ∷ new_code ∷ []) updater in
    refusing_after false effects ≡ some last.stopped
serve_forever-refusing_after_example =
    serve_forever-refusing_after (new_data ∷ new_code ∷ []) updater refl

abbrev solved : Fields → Result (Unit {0})
solved request = ok tt

abbrev post : HttpRequest
post = record {
  path = "/optimize";
  authorization = "Bearer t";
  content_length = some "9";
  body = some official;
}

abbrev int_of : String → Option ℕ
int_of text = if str_eq text "9" then some 9 else none

abbrev bearer_of : String → String
bearer_of token = "Bearer t"

do_post-optimize_example :
    (((do_post "t" (λ a b. str_eq a b) bearer_of (λ s. str_eq s "9") int_of 100 solved post).status
        ≡ 200)
      ↔ ((post.path ≡ "/optimize")
          × ((◌≡◌ {A = String} "t" "") ⊎ (str_eq post.authorization (bearer_of "t") ≡ true))
          × ((fields : Fields) × (solved fields ≡ ok tt)
              × ((length : String) × (size : ℕ) × (post.content_length ≡ some length)
                  × (str_eq length "" ≡ false)
                  × (str_eq length "9" ≡ true)
                  × (int_of length ≡ some size)
                  × (size ≤ 100)
                  × (post.body ≡ some fields)))))
    × (((do_post "t"
            (λ a b. str_eq a b)
            bearer_of
            (λ s. str_eq s "9")
            int_of
            100
            solved
            post).action
          ≡ clear_and_check)
        ↔ ((post.path ≡ "/frontiers/refresh")
            × ((◌≡◌ {A = String} "t" "") ⊎ (str_eq post.authorization (bearer_of "t") ≡ true))))
do_post-optimize_example =
    do_post-optimize "t" (λ a b. str_eq a b) bearer_of (λ s. str_eq s "9") int_of 100 solved post

abbrev joined_events : List (Solves.Event ℕ)
joined_events =
    arrive 1 "k" ∷ arrive 2 "k" ∷ finish "k" 9 ∷ arrive 3 "k" ∷ remove "k" ∷ arrive 2 "k" ∷ []

run-arrivals_example :
    let s = Solves.run {R = ℕ} (record { in_flight = []; answered = [] }) joined_events in
    Distinct (keys s.in_flight)
    × (answers 2 s.answered + waiting 2 s.in_flight ≡ arrivals 2 joined_events)
run-arrivals_example = run-arrivals {R = ℕ} joined_events 2

requests-AreSeparate_example : AreSeparate (
    requests
      ((true, loadouts) ∷ (true, timed_out) ∷ (true, loadouts) ∷ [])
      (record { proc = none; next_proc = 0 }))
requests-AreSeparate_example =
    requests-AreSeparate ((true, loadouts) ∷ (true, timed_out) ∷ (true, loadouts) ∷ [])

abbrev files : List (String × ChartFile)
files =
    ("Hard", record { path = "a.txt"; header = none })
    ∷ ("Hard", record { path = "b.txt"; header = some (("Song Name", "Night") ∷ []) })
    ∷ ("Easy", record { path = "c.txt"; header = some (("Song Name", "Night") ∷ []) })
    ∷ []

find_official_chart-first_chart_example :
    (find_official_chart "Night" (read_official_charts (λ s. s) (λ s. s) files)
      ≡ elim (first_chart "Night" files) [ none ↦ err request_error | some path ↦ ok path ])
    × (is_listed "Night" (read_official_charts (λ s. s) (λ s. s) files).songs
        ≡ is_some (first_chart "Night" files))
find_official_chart-first_chart_example =
    find_official_chart-first_chart (λ s. s) (λ s. s) "Night" files refl
