-- ===== src/Store/Tests.antt =====
-- A merge of stored rows and new results at concrete rows.
use Prim.Native.String.{String}
use ro_beats_calculator_engi.Common.{
  ℕ, ◌≡◌, refl, Bool, true, false, none, some, List, [], ◌∷◌, ok, map, ◌>>=◌,
}
use ro_beats_calculator_engi.Common.Dict.{get, put, contains}
use ro_beats_calculator_engi.Store.Records.{
  MetaResult, FgResult, Loadout, make_loadout, bad_song, bad_result, make_meta, make_fg,
}
use ro_beats_calculator_engi.Store.Boards.{
  Row, Merge, merge, merge_all, merge_meta, merge_fg, merge_meta_entry, merge_fg_entry, store_meta,
  touch_meta, store_fg, lift, lift_all, project, project_all, normalize, place, board, candidates,
  sorted_by, insert_by, meta_before, fg_before,
}
use ro_beats_calculator_engi.Store.Best.{lift_all-best_score, best_score, side_score}
use ro_beats_calculator_engi.Store.Valid.Total.{Constructed, IsBoards, merge-IsBoards}

abbrev zeros : List ℕ
zeros = 0 ∷ 0 ∷ 0 ∷ 0 ∷ 0 ∷ 0 ∷ []

abbrev stats : List ℕ
stats = 9 ∷ 8 ∷ 7 ∷ 6 ∷ 5 ∷ 4 ∷ 3 ∷ 2 ∷ 1 ∷ 0 ∷ []

abbrev meta_result : ℕ → MetaResult
meta_result seq = record { element = "Flow"; gems = zeros; stats = stats; updated = 1; seq = seq }

abbrev fg_result : FgResult
fg_result = record {
  element = "Flow";
  gems = zeros;
  stats = stats;
  surface = 7 ∷ stats;
  updated = 1;
  seq = 0;
}

-- A loadout with a meta result only.
abbrev base_loadout : String → ℕ → Loadout
base_loadout hash score = record {
  mode = "precise";
  song = "Night";
  tier = "T5";
  loadout_hash = hash;
  gear = "Cap" ∷ [];
  minis = [];
  primary = "Flow";
  secondary = "Beat";
  mini_ascension = none;
  score = score;
  fg_score = none;
  meta = some (meta_result 3);
  fg = none;
  on_meta = true;
  on_fg = false;
}

abbrev stored : List Row
stored = record { loadout = base_loadout "a" 500; meta_trace = some (1 ∷ []); fg_trace = none } ∷ []

-- The same loadout with a lower score, and another with an FG result.
abbrev results : List Row
results =
    record {
      loadout = record (base_loadout "a" 450) { on_meta = false };
      meta_trace = none;
      fg_trace = none;
    }
    ∷ record {
      loadout = record (base_loadout "b" 600) {
        fg_score = some 650;
        fg = some fg_result;
        on_meta = false;
      };
      meta_trace = none;
      fg_trace = some (2 ∷ []);
    }
    ∷ []

stored-Constructed : Constructed stored
unfolding make_loadout bad_song bad_result
stored-Constructed = (record { made = refl; meta_ok = refl; fg_ok = tt }, tt)

results-Constructed : Constructed results
unfolding make_loadout bad_song bad_result
results-Constructed = (
  record { made = refl; meta_ok = refl; fg_ok = tt },
  (record { made = refl; meta_ok = refl; fg_ok = record { result = refl; surface = refl } }, tt),
)

abbrev shown : Row → ℕ × Bool × Bool
shown r = (r.loadout.score, r.loadout.on_meta, r.loadout.on_fg)

-- The higher score stays, numbers are kept and given, and both boards are listed.
merged :
    (merge stored results 9 4 0 >>= λ rows. ok (map shown rows))
    ≡ ok ((500, true, false) ∷ (600, true, true) ∷ [])
unfolding merge merge_all merge_meta merge_fg merge_meta_entry merge_fg_entry store_meta touch_meta
    store_fg lift lift_all project project_all normalize place board candidates sorted_by insert_by
    meta_before fg_before make_loadout bad_song bad_result make_meta make_fg get put contains
merged = refl

merge-IsBoards_example : (out : List Row) × (merge stored results 9 4 0 ≡ ok out) × IsBoards out
merge-IsBoards_example = merge-IsBoards stored results 9 4 0 stored-Constructed results-Constructed

lift_all-best_score_example :
    (m : Merge) × (merge_all
        (merge_meta 9)
        (record { work = lift_all [] stored; meta_seq = 4; fg_seq = 0 })
        results
      ≡ ok m)
    × (side_score (get "a" m.work)
        ≡ best_score "a" (side_score (get "a" (lift_all [] stored))) results)
lift_all-best_score_example =
    lift_all-best_score "a" stored results 9 4 0 stored-Constructed results-Constructed
