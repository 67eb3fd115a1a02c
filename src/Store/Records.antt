-- ===== src/Store/Records.antt =====
-- gear_optimizer/store/records.py: results and loadouts, and the checks that every construction of
-- one (`__post_init__`, also under `replace`) makes.
use Prim.Native.String.{String}
use ro_beats_calculator_engi.Common.{
  ℕ, Bool, true, false, not, ◌&&◌, ◌||◌, Option, none, some, List, [], ◌∷◌, Result, ok, value_error,
  raise_if, ltb, ◌==◌, length,
}
use ro_beats_calculator_engi.Common.Dict.{contains}

abbrev pub timing_modes : List String
timing_modes = "non-precise" ∷ "precise" ∷ []

abbrev pub elements : List String
elements = "Chill" ∷ "Flow" ∷ "Rush" ∷ "Beat" ∷ "Vibe" ∷ []

abbrev pub canonical_team_buff_tiers : List String
canonical_team_buff_tiers = "NONE" ∷ "T1" ∷ "T5" ∷ "T10" ∷ "T20" ∷ "T50" ∷ "T51" ∷ []

-- `len(GEM_KINDS)`, `len(STATS)` and SURFACE_SIZE
abbrev pub gem_kinds_len : ℕ
gem_kinds_len = 6

abbrev pub stats_len : ℕ
stats_len = 10

abbrev pub surface_size : ℕ
surface_size = 11

pub record MetaResult : Type 0 where
  pub element : String
  pub gems : List ℕ
  pub stats : List ℕ
  pub updated : ℕ
  pub seq : ℕ

pub record FgResult : Type 0 where
  pub element : String
  pub gems : List ℕ
  pub stats : List ℕ
  pub surface : List ℕ
  pub updated : ℕ
  pub seq : ℕ

pub record Loadout : Type 0 where
  pub mode : String
  pub song : String
  pub tier : String
  pub loadout_hash : String
  pub gear : List String
  pub minis : List (List String)
  pub primary : String
  pub secondary : String
  pub mini_ascension : Option String
  pub score : ℕ
  pub fg_score : Option ℕ
  pub meta : Option MetaResult
  pub fg : Option FgResult
  pub on_meta : Bool
  pub on_fg : Bool

abbrev pub is_none {ℓ} : {A : Type ℓ} → Option A → Bool
is_none none = true
is_none (some a) = false

-- `_check_result`: whether it raises
unfoldable pub bad_result : String → List ℕ → List ℕ → Bool
unfolding contains
bad_result element gems stats =
    not (contains element elements)
    || not (length gems == gem_kinds_len)
    || not (length stats == stats_len)

unfoldable pub make_meta : MetaResult → Result MetaResult
make_meta r = raise_if (bad_result r.element r.gems r.stats) value_error (ok r)

unfoldable pub make_fg : FgResult → Result FgResult
make_fg r =
    raise_if (bad_result r.element r.gems r.stats) value_error
      (raise_if (not (length r.surface == surface_size)) value_error (ok r))

-- Whether a loadout's FG score beats its score; `fg_score` is there, by an earlier check.
abbrev pub fg_beats : Option ℕ → ℕ → Bool
fg_beats none score = false
fg_beats (some fg_score) score = ltb score fg_score

-- The checks of `Loadout.__post_init__` on what a merge never changes.
unfoldable pub bad_song : Loadout → Bool
bad_song x =
    not (contains x.mode timing_modes)
    || not (contains x.tier canonical_team_buff_tiers)
    || not (contains x.primary elements)
    || not (contains x.secondary elements)

unfoldable pub make_loadout : Loadout → Result Loadout
make_loadout x = raise_if (bad_song x) value_error (
    raise_if (is_none x.meta && is_none x.fg) value_error (
      raise_if (not (is_none x.fg) && is_none x.fg_score) value_error (
        raise_if (x.on_meta && is_none x.meta) value_error (
          raise_if (x.on_fg && (is_none x.fg || not (fg_beats x.fg_score x.score))) value_error
            (ok x)))))
