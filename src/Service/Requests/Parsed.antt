-- ===== src/Service/Requests/Parsed.antt =====
-- What an accepted request is like: its headers, its pool and whether its result enters the catalog.
use Prim.Native.String.{String}
use mathlib.Core.Option.{some-injective}
use ro_beats_calculator_engi.Common.{
  ◌≡◌, refl, subst, ◌∙◌, Bool, true, false, not, ◌&&◌, Option, none, some, List, [], ◌∷◌, map, ok,
  request_error, ok-injective, bind-ok, raise_if-ok, if◌then◌else◌, All, arith, Bool-cases,
  Option-cases, inl, inr,
}
use ro_beats_calculator_engi.Common.Dict.{Distinct}
use ro_beats_calculator_engi.Service.Items.{
  Fields, lookup, Python, Item, custom_items, excluded_names, refuse_taken_names, is_taken,
}
use ro_beats_calculator_engi.Service.Items.Checked.{AreItems, entries_of, custom_items-AreItems}
use ro_beats_calculator_engi.Service.Requests.{
  Library, CustomPool, replace_first, set_header, with_solve_headers, custom_pool_of,
  custom_gear_stats, custom_mini_stats, custom_gear_slots, custom_mini_types,
}

-- The first line for which a test holds, and the lines for which it does.
unfoldable pub first_line : (String → Bool) → List String → Option String
first_line test [] = none
first_line test (l ∷ lines) = if test l then some l else first_line test lines

unfoldable pub lines_that : (String → Bool) → List String → List String
lines_that test [] = []
lines_that test (l ∷ lines) = if test l then l ∷ lines_that test lines else lines_that test lines

module _ (is_header : String → Bool) (line : String) where
  replaced-first_line :
      (lines : List String) (replaced : List String)
      → is_header line ≡ true
      → replace_first is_header line lines ≡ some replaced
      → first_line is_header replaced ≡ some line
  unfolding replace_first first_line
  replaced-first_line [] replaced own = λ h. absurd (ground (arith, h))
  replaced-first_line (l ∷ lines) replaced own = elim (Bool-cases (is_header l)) [
    | inl t ↦ rw t (λ h.
        subst (λ ls. first_line is_header ls ≡ some line) (some-injective _ _ h) (rw own refl))
    | inr t ↦ elim (Option-cases (replace_first is_header line lines)) [
      | inl m ↦ rw (t, m) (λ h. absurd (ground (arith, h)))
      | inr m ↦
          rw (t, m.1)
            (λ h.
              subst (λ ls. first_line is_header ls ≡ some line) (some-injective _ _ h)
                (rw t (replaced-first_line lines m.0 own m.1)))
    ]
  ]

  pub set_header-first_line :
      (lines : List String)
      → is_header line ≡ true
      → first_line is_header (set_header is_header line lines) ≡ some line
  unfolding set_header first_line
  set_header-first_line lines own = elim (Option-cases (replace_first is_header line lines)) [
    | inl m ↦ rw (set_header, m, own) refl
    | inr m ↦ rw (set_header, m.1) (replaced-first_line lines m.0 own m.1)
  ]

  -- A test that fails on the header's lines sees no difference.
  module _ (test : String → Bool) (apart : (l : String) → is_header l ≡ true → test l ≡ false) where
    replaced-same :
        (lines : List String) (replaced : List String)
        → is_header line ≡ true
        → replace_first is_header line lines ≡ some replaced
        → (first_line test replaced ≡ first_line test lines)
          × (lines_that test replaced ≡ lines_that test lines)
    unfolding replace_first first_line lines_that
    replaced-same [] replaced own = λ h. absurd (ground (arith, h))
    replaced-same (l ∷ lines) replaced own = elim (Bool-cases (is_header l)) [
      | inl t ↦ rw t (λ h.
          subst
            (λ ls.
              (first_line test ls ≡ first_line test (l ∷ lines))
              × (lines_that test ls ≡ lines_that test (l ∷ lines)))
            (some-injective _ _ h) (rw (apart line own, apart l t) (refl, refl)))
      | inr t ↦ elim (Option-cases (replace_first is_header line lines)) [
        | inl m ↦ rw (t, m) (λ h. absurd (ground (arith, h)))
        | inr m ↦
            let (first, those) = replaced-same lines m.0 own m.1 in
            rw (t, m.1)
              (λ h.
                subst
                  (λ ls.
                    (first_line test ls ≡ first_line test (l ∷ lines))
                    × (lines_that test ls ≡ lines_that test (l ∷ lines)))
                  (some-injective _ _ h) (rw (first, those) (refl, refl)))
      ]
    ]

    pub set_header-same :
        (lines : List String)
        → is_header line ≡ true
        → (first_line test (set_header is_header line lines) ≡ first_line test lines)
          × (lines_that test (set_header is_header line lines) ≡ lines_that test lines)
    unfolding set_header first_line lines_that
    set_header-same lines own = elim (Option-cases (replace_first is_header line lines)) [
      | inl m ↦ rw (set_header, m, apart line own) (refl, refl)
      | inr m ↦ rw (set_header, m.1) (replaced-same lines m.0 own m.1)
    ]

-- A request's two headers are there, and its chart is otherwise as it was: where the test for a header holds
-- on the header's own line, and not on a line of the other header.
pub with_solve_headers-first_line :
    (py : Python) (lib : Library) (lines : List String) (song_name timing_mode : String)
    → ((header value : String)
        → lib.starts_with_header header (lib.header_line header value) ≡ true)
    → ((l : String)
        → lib.starts_with_header "Song Name" l ≡ true
        → lib.starts_with_header "Timing Mode" l ≡ false)
    → let headed = with_solve_headers py lib lines song_name timing_mode in
      let other = λ (l : String).
        not (lib.starts_with_header "Song Name" l)
        && not (lib.starts_with_header "Timing Mode" l) in
      (first_line (lib.starts_with_header "Song Name") headed
        ≡ some (lib.header_line "Song Name" song_name))
      × (first_line (lib.starts_with_header "Timing Mode") headed
          ≡ some (lib.header_line "Timing Mode" timing_mode))
      × (lines_that other headed ≡ lines_that other lines)
unfolding with_solve_headers
with_solve_headers-first_line py lib lines song_name timing_mode own apart =
    let timed =
      set_header (lib.starts_with_header "Timing Mode") (lib.header_line "Timing Mode" timing_mode)
        lines in
    let other = λ (l : String).
      not (lib.starts_with_header "Song Name" l) && not (lib.starts_with_header "Timing Mode" l) in
    let timing_kept =
      set_header-same (lib.starts_with_header "Song Name") (lib.header_line "Song Name" song_name)
        (lib.starts_with_header "Timing Mode") apart timed (own "Song Name" song_name) in
    let song_others =
      set_header-same (lib.starts_with_header "Song Name") (lib.header_line "Song Name" song_name)
        other (λ l t. rw t refl) timed (own "Song Name" song_name) in
    let timing_others =
      set_header-same (lib.starts_with_header "Timing Mode")
        (lib.header_line "Timing Mode" timing_mode) other (λ l t. rw t (ground arith)) lines
        (own "Timing Mode" timing_mode) in
    (
      set_header-first_line (lib.starts_with_header "Song Name")
          (lib.header_line "Song Name" song_name) timed (own "Song Name" song_name),
      timing_kept.0
          ∙ set_header-first_line (lib.starts_with_header "Timing Mode")
              (lib.header_line "Timing Mode" timing_mode) lines (own "Timing Mode" timing_mode),
      song_others.1 ∙ timing_others.1,
    )

refused-all :
    (py : Python) (is : List Item) (catalog excluded : List String)
    → refuse_taken_names py is catalog excluded ≡ ok tt
    → All (λ (i : Item). is_taken py catalog excluded i.name ≡ false) is
unfolding refuse_taken_names
refused-all py [] catalog excluded h = tt
refused-all py (i ∷ is) catalog excluded h =
    let (free, rest) = raise_if-ok (is_taken py catalog excluded i.name) request_error _ tt h in
    (free, refused-all py is catalog excluded rest)

-- The pool of an accepted request: items of its entries, no two of which have the same name in any case, and none
-- that of a catalog item that is not excluded.
pub record IsPool (py : Python) (lib : Library) (request : Fields) (pool : CustomPool)
    : Type 0 where
  pub gear_items :
      AreItems py custom_gear_stats custom_gear_slots
        (entries_of (lookup "customGear" request))
        pool.custom_gear
  pub mini_items :
      AreItems py custom_mini_stats custom_mini_types
        (entries_of (lookup "customMinis" request))
        pool.custom_minis
  pub gear_names : Distinct (map (λ (i : Item). py.casefold i.name) pool.custom_gear)
  pub mini_names : Distinct (map (λ (i : Item). py.casefold i.name) pool.custom_minis)
  pub free_gear :
      All
        (λ (i : Item). is_taken py lib.catalog_gears pool.exclude_gear i.name ≡ false)
        pool.custom_gear
  pub free_minis :
      All
        (λ (i : Item). is_taken py lib.catalog_minis pool.exclude_minis i.name ≡ false)
        pool.custom_minis

pub custom_pool_of-IsPool :
    (py : Python) (lib : Library) (request : Fields) (pool : CustomPool)
    → custom_pool_of py lib request ≡ ok pool
    → IsPool py lib request pool
unfolding custom_pool_of
custom_pool_of-IsPool py lib request pool h =
    let (gear, made1, h1) =
      bind-ok (custom_items py custom_gear_stats custom_gear_slots (lookup "customGear" request)) _
        pool h in
    let (minis, made2, h2) =
      bind-ok (custom_items py custom_mini_stats custom_mini_types (lookup "customMinis" request)) _
        pool h1 in
    let (no_gear, made3, h3) =
      bind-ok (excluded_names py 400 (lookup "excludeGear" request)) _ pool h2 in
    let (no_minis, made4, h4) =
      bind-ok (excluded_names py 200 (lookup "excludeMinis" request)) _ pool h3 in
    let (_, free1, h5) = bind-ok (refuse_taken_names py gear lib.catalog_gears no_gear) _ pool h4 in
    let (_, free2, h6) =
      bind-ok (refuse_taken_names py minis lib.catalog_minis no_minis) _ pool h5 in
    subst (IsPool py lib request) (ok-injective _ pool h6) (record {
      gear_items =
          (custom_items-AreItems py custom_gear_stats custom_gear_slots
            (lookup "customGear" request) gear made1).0;
      mini_items =
          (custom_items-AreItems py custom_mini_stats custom_mini_types
            (lookup "customMinis" request) minis made2).0;
      gear_names =
          (custom_items-AreItems py custom_gear_stats custom_gear_slots
            (lookup "customGear" request) gear made1).1;
      mini_names =
          (custom_items-AreItems py custom_mini_stats custom_mini_types
            (lookup "customMinis" request) minis made2).1;
      free_gear = refused-all py gear lib.catalog_gears no_gear free1;
      free_minis = refused-all py minis lib.catalog_minis no_minis free2;
    })
