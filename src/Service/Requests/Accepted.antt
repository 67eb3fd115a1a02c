-- ===== src/Service/Requests/Accepted.antt =====
-- A request that is accepted, and the solves whose results enter the catalog.
use Prim.Native.String.{String}
use text.Mathlib.Text.{◌==◌ as str_eq}
use ro_beats_calculator_engi.Common.{
  ◌≡◌, refl, ap, subst, ◌∙◌, true, false, not, ◌&&◌, some, List, [], ◌∷◌, ok, request_error,
  raise_if, ok-injective, bind-ok, raise_if-ok, arith, Bool-cases, Option-cases, inl, inr,
}
use ro_beats_calculator_engi.Common.Dict.{contains}
use ro_beats_calculator_engi.Service.Items.{Fields, lookup, Python, text_field}
use ro_beats_calculator_engi.Service.Requests.{
  Library, SolveRequest, with_solve_headers, is_empty, is_clean, custom_pool_of, chosen_chart,
  parse_request, timing_modes, reasoning_levels,
}
use ro_beats_calculator_engi.Service.Requests.Parsed.{IsPool, custom_pool_of-IsPool}

-- A request that promotes: the official chart of its song, and no item made or left out.
pub record IsOfficial (py : Python) (lib : Library) (r : SolveRequest) : Type 0 where
  pub not_uploaded : r.uploaded ≡ false
  pub lines : List String
  pub found : lib.find_official_chart r.song_name ≡ some lines
  pub headed : r.chart_text ≡ with_solve_headers py lib lines r.song_name r.timing_mode
  pub no_gear : r.custom_pool.custom_gear ≡ []
  pub no_minis : r.custom_pool.custom_minis ≡ []
  pub none_excluded : (r.custom_pool.exclude_gear ≡ []) × (r.custom_pool.exclude_minis ≡ [])

pub record IsAccepted (py : Python) (lib : Library) (request : Fields) (r : SolveRequest)
    : Type 0 where
  pub pool : IsPool py lib request r.custom_pool
  pub mode : contains r.timing_mode timing_modes ≡ true
  pub level : contains r.reasoning reasoning_levels ≡ true

module _ (py : Python) (lib : Library) where
  nothing : {A : Type 0} (xs : List A) → is_empty py lib xs ≡ true → xs ≡ []
  nothing [] h = refl
  nothing (x ∷ xs) h = absurd (ground (arith, h))

  official_chart :
      (job uploaded_text song_id : String) (chart : List String × String)
      → str_eq uploaded_text "" ≡ true
      → chosen_chart py lib job uploaded_text song_id ≡ ok chart
      → lib.find_official_chart chart.1 ≡ some chart.0
  unfolding chosen_chart
  official_chart job uploaded_text song_id chart t = elim (Bool-cases (str_eq song_id "")) [
    | inl s ↦ rw (t, s) (λ h. absurd (ground (arith, h)))
    | inr s ↦ elim (Option-cases (lib.find_official_chart song_id)) [
      | inl m ↦ rw (t, s, m) (λ h. absurd (ground (arith, h)))
      | inr m ↦
          rw (t, s, m.1)
            (λ h. subst (λ c. lib.find_official_chart c.1 ≡ some c.0) (ok-injective _ chart h) m.1)
    ]
  ]

  -- The steps of a request that was accepted.
  record IsParsed (request : Fields) (r : SolveRequest) : Type 0 where
    chart : List String × String
    chosen :
        chosen_chart py lib
          (lib.job_slug (lookup "jobId" request))
          (text_field py "chartText" "" request)
          (text_field py "targetSongId" "" request)
        ≡ ok chart
    its_pool : custom_pool_of py lib request ≡ ok r.custom_pool
    known_mode : contains r.timing_mode timing_modes ≡ true
    known_level : contains r.reasoning reasoning_levels ≡ true
    its_song : r.song_name ≡ chart.1
    its_text : r.chart_text ≡ with_solve_headers py lib chart.0 r.song_name r.timing_mode
    its_upload : r.uploaded ≡ not (str_eq (text_field py "chartText" "" request) "")
    its_promotion :
        r.promotes
        ≡ (str_eq (text_field py "chartText" "" request) "" && is_clean py lib r.custom_pool)

  parse_request-IsParsed :
      (request : Fields) (r : SolveRequest)
      → parse_request py lib request ≡ ok r
      → IsParsed request r
  unfolding parse_request
  parse_request-IsParsed request r h =
      let uploaded_text = text_field py "chartText" "" request in
      let timing_mode = py.lower (text_field py "timingMode" "non-precise" request) in
      let reasoning = py.lower (text_field py "reasoning" "default" request) in
      let job = lib.job_slug (lookup "jobId" request) in
      let (chart, made1, h1) =
        bind-ok (chosen_chart py lib job uploaded_text (text_field py "targetSongId" "" request)) _
          r h in
      let (mode, made2, h2) =
        bind-ok (raise_if (not (contains timing_mode timing_modes)) request_error (ok timing_mode))
          _ r h1 in
      let (level, made3, h3) =
        bind-ok (raise_if (not (contains reasoning reasoning_levels)) request_error (ok reasoning))
          _ r h2 in
      let (pool, made4, h4) = bind-ok (custom_pool_of py lib request) _ r h3 in
      let (known_mode, is_mode) =
        raise_if-ok (not (contains timing_mode timing_modes)) request_error (ok timing_mode) mode
          made2 in
      let (known_level, is_level) =
        raise_if-ok (not (contains reasoning reasoning_levels)) request_error (ok reasoning) level
          made3 in
      subst (IsParsed request) (ok-injective _ r h4) (record {
        chart = chart;
        chosen = made1;
        its_pool = made4;
        known_mode =
            subst (λ m. contains m timing_modes ≡ true) (ok-injective timing_mode mode is_mode)
              (ground (arith, known_mode));
        known_level =
            subst (λ m. contains m reasoning_levels ≡ true) (ok-injective reasoning level is_level)
              (ground (arith, known_level));
        its_song = refl;
        its_text = refl;
        its_upload = refl;
        its_promotion = refl;
      })

  -- A request that is accepted has a known timing mode and reasoning level, and a pool of checked items whose
  -- names are free.
  pub parse_request-IsAccepted :
      (request : Fields) (r : SolveRequest)
      → parse_request py lib request ≡ ok r
      → IsAccepted py lib request r
  parse_request-IsAccepted request r h =
      let parsed = parse_request-IsParsed request r h in
      record {
        pool = custom_pool_of-IsPool py lib request r.custom_pool parsed.its_pool;
        mode = parsed.known_mode;
        level = parsed.known_level;
      }

  -- If the result of an accepted request is to enter the catalog, its chart is the official one of its song with
  -- the solve's headers, no text was uploaded, and the item catalog is untouched: no item is made or left out.
  pub parse_request-IsOfficial :
      (request : Fields) (r : SolveRequest)
      → parse_request py lib request ≡ ok r
      → r.promotes ≡ true
      → IsOfficial py lib r
  unfolding is_clean
  parse_request-IsOfficial request r h t =
      let parsed = parse_request-IsParsed request r h in
      let no_text : str_eq (text_field py "chartText" "" request) "" ≡ true =
        ground (arith, parsed.its_promotion, t) in
      record {
        not_uploaded = ground (arith, parsed.its_upload, no_text);
        lines = parsed.chart.0;
        found =
            ap lib.find_official_chart parsed.its_song
            ∙ official_chart (lib.job_slug (lookup "jobId" request))
                (text_field py "chartText" "" request) (text_field py "targetSongId" "" request)
                parsed.chart no_text parsed.chosen;
        headed = parsed.its_text;
        no_gear = nothing r.custom_pool.custom_gear (ground (arith, parsed.its_promotion, t));
        no_minis = nothing r.custom_pool.custom_minis (ground (arith, parsed.its_promotion, t));
        none_excluded = (
          nothing r.custom_pool.exclude_gear (ground (arith, parsed.its_promotion, t)),
          nothing r.custom_pool.exclude_minis (ground (arith, parsed.its_promotion, t)),
        );
      }
