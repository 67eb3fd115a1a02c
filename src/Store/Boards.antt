-- ===== src/Store/Boards.antt =====
-- gear_optimizer/store/boards.py: the merge of results into a song's rows.
use Prim.Native.String.{String}
use ro_beats_calculator_engi.Common.{
  ℕ, zero, suc, Bool, true, false, not, ◌&&◌, ◌||◌, Option, none, some, List, [], ◌∷◌, ◌++◌, map,
  max, Result, ok, err, type_error, leb, ltb, ◌==◌, if◌then◌else◌, ◌>>=◌, take,
}
use ro_beats_calculator_engi.Common.Dict.{contains, get, put}
use ro_beats_calculator_engi.Store.Records.{
  MetaResult, FgResult, Loadout, make_meta, make_fg, make_loadout, is_none, fg_beats,
}

abbrev pub loadouts_per_song_limit : ℕ
loadouts_per_song_limit = 51

pub record Row : Type 0 where
  pub loadout : Loadout
  pub meta_trace : Option (List ℕ)
  pub fg_trace : Option (List ℕ)

-- `_Work`
pub record Work : Type 0 where
  pub source : Loadout
  pub score : Option ℕ
  pub fg_seen : ℕ
  pub meta : Option MetaResult
  pub meta_trace : Option (List ℕ)
  pub paired : Option ℕ
  pub fg_score : Option ℕ
  pub fg : Option FgResult
  pub fg_trace : Option (List ℕ)

-- The dict `work` and the `_Seqs` that number newly stored results.
pub record Merge : Type 0 where
  pub work : List (String × Work)
  pub meta_seq : ℕ
  pub fg_seq : ℕ

-- `fg_score or 0`
abbrev pub or_zero : Option ℕ → ℕ
or_zero none = 0
or_zero (some n) = n

unfoldable pub lift : Row → Work
lift row =
    let x = row.loadout in
    record {
      source = x;
      score = if is_none x.meta then none else some x.score;
      fg_seen = if is_none x.meta then 0 else or_zero x.fg_score;
      meta = x.meta;
      meta_trace = row.meta_trace;
      paired = if is_none x.fg then none else some x.score;
      fg_score = if is_none x.fg then none else x.fg_score;
      fg = x.fg;
      fg_trace = row.fg_trace;
    }

-- `_Work(new, None, 0, None, ...)`, made when the dict has no entry for the loadout
abbrev pub entry : Option Work → Loadout → Work
entry (some w) x = w
entry none x = record {
  source = x;
  score = none;
  fg_seen = 0;
  meta = none;
  meta_trace = none;
  paired = none;
  fg_score = none;
  fg = none;
  fg_trace = none;
}

-- A comparison of ints where one may be None: Python raises TypeError.
abbrev pub beats_score : ℕ → Option ℕ → Result Bool
beats_score n none = err type_error
beats_score n (some m) = ok (ltb m n)

abbrev pub reaches_score : Option ℕ → Option ℕ → Result Bool
reaches_score none m = err type_error
reaches_score (some n) none = err type_error
reaches_score (some n) (some m) = ok (leb m n)

-- The meta side takes the result, under entry number `seq`.
unfoldable pub store_meta : Work → Row → MetaResult → ℕ → ℕ → Result Work
store_meta current result new_meta seq now = do
  meta ← make_meta (record new_meta { seq = seq })
  stamped ← make_meta (record meta { updated = now })
  ok (record current {
    source = result.loadout;
    score = some result.loadout.score;
    fg_seen = max current.fg_seen (or_zero result.loadout.fg_score);
    meta = some stamped;
    meta_trace = result.meta_trace;
  })

-- The meta side keeps its result and is stamped.
unfoldable pub touch_meta : Work → Row → MetaResult → ℕ → Result Work
touch_meta current result old now = do
  stamped ← make_meta (record old { updated = now })
  ok (record current {
    fg_seen = max current.fg_seen (or_zero result.loadout.fg_score);
    meta = some stamped;
  })

-- `_merge_meta` on one entry: the entry after it, and whether a new number was taken.
unfoldable pub merge_meta_entry : Work → Row → MetaResult → ℕ → ℕ → Result (Work × Bool)
merge_meta_entry current result new_meta now next = elim current.meta [
  | none ↦ store_meta current result new_meta next now >>= λ w. ok (w, true)
  | some old ↦ beats_score result.loadout.score current.score >>= λ higher.
      (if higher
        then store_meta current result new_meta old.seq now
        else touch_meta current result old now)
      >>= λ w. ok (w, false)
]

unfoldable pub merge_meta : ℕ → Merge → Row → Result Merge
merge_meta now m result = elim result.loadout.meta [
  | none ↦ ok m
  | some new_meta ↦
      let hash = result.loadout.loadout_hash in
      merge_meta_entry (entry (get hash m.work) result.loadout) result new_meta now m.meta_seq
      >>= λ r. ok (record m {
        work = put hash r.0 m.work;
        meta_seq = if r.1 then suc m.meta_seq else m.meta_seq;
      })
]

abbrev pub best_of : Option ℕ → Option ℕ → Result (Option ℕ)
best_of none n = ok n
best_of (some m) none = err type_error
best_of (some m) (some n) = ok (some (max m n))

unfoldable pub store_fg : Work → Row → FgResult → ℕ → ℕ → Result Work
store_fg current result new_fg seq now = do
  fg ← make_fg (record new_fg { seq = seq })
  best ← best_of current.fg_score result.loadout.fg_score
  stamped ← make_fg (record fg { updated = now })
  ok (record current {
    source = if is_none current.meta then result.loadout else current.source;
    paired = some result.loadout.score;
    fg = some stamped;
    fg_trace = result.fg_trace;
    fg_score = best;
  })

unfoldable pub merge_fg_entry : Work → Row → FgResult → ℕ → ℕ → Result (Work × Bool)
merge_fg_entry current result new_fg now next = elim current.fg [
  | none ↦ store_fg current result new_fg next now >>= λ w. ok (w, true)
  | some old ↦ reaches_score result.loadout.fg_score current.fg_score >>= λ replaces.
      (if replaces
        then store_fg current result new_fg old.seq now
        else make_fg (record old { updated = now }) >>= λ stamped.
            ok (record current { fg = some stamped }))
      >>= λ w. ok (w, false)
]

unfoldable pub merge_fg : ℕ → Merge → Row → Result Merge
merge_fg now m result = elim result.loadout.fg [
  | none ↦ ok m
  | some new_fg ↦
      let hash = result.loadout.loadout_hash in
      merge_fg_entry (entry (get hash m.work) result.loadout) result new_fg now m.fg_seq >>= λ r.
      ok (record m { work = put hash r.0 m.work; fg_seq = if r.1 then suc m.fg_seq else m.fg_seq })
]

-- `for result in results: ...`
unfoldable pub merge_all : (Merge → Row → Result Merge) → Merge → List Row → Result Merge
merge_all step m [] = ok m
merge_all step m (r ∷ rs) = step m r >>= λ m'. merge_all step m' rs

-- A score of None reaches the sort or the FG comparison of `_normalize`, which raise TypeError.
abbrev pub require_score : Option ℕ → Result ℕ
require_score none = err type_error
require_score (some n) = ok n

-- `work.fg_seen or None`
abbrev pub seen_score : ℕ → Option ℕ
seen_score zero = none
seen_score (suc n) = some (suc n)

unfoldable pub project : Work → Result (List Row)
project w =
    if is_none w.meta && is_none w.fg
    then ok []
    else require_score (if is_none w.meta then w.paired else w.score) >>= λ score.
        make_loadout (record w.source {
          score = score;
          fg_score = if is_none w.fg then seen_score w.fg_seen else w.fg_score;
          meta = w.meta;
          fg = w.fg;
          on_meta = false;
          on_fg = false;
        })
        >>= λ x. ok (
            record {
              loadout = x;
              meta_trace = if is_none w.meta then none else w.meta_trace;
              fg_trace = w.fg_trace;
            }
            ∷ [])

unfoldable pub project_all : List (String × Work) → Result (List Row)
project_all [] = ok []
project_all ((k, w) ∷ work) = do here ← project w; rest ← project_all work; ok (here ++ rest)

-- The sort keys `(-score, seq)` of the two boards, of loadouts with a result on that board: whether
-- the first comes strictly before the second.
abbrev pub meta_seq_of : Loadout → ℕ
meta_seq_of x = elim x.meta [ none ↦ 0 | some r ↦ r.seq ]

abbrev pub fg_seq_of : Loadout → ℕ
fg_seq_of x = elim x.fg [ none ↦ 0 | some r ↦ r.seq ]

unfoldable pub meta_before : Loadout → Loadout → Bool
meta_before x y = ltb y.score x.score || (x.score == y.score && ltb (meta_seq_of x) (meta_seq_of y))

unfoldable pub fg_before : Loadout → Loadout → Bool
fg_before x y =
    ltb (or_zero y.fg_score) (or_zero x.fg_score)
    || (or_zero x.fg_score == or_zero y.fg_score && ltb (fg_seq_of x) (fg_seq_of y))

-- `sorted`, which keeps the order of entries with equal keys.
unfoldable pub insert_by : (Loadout → Loadout → Bool) → Loadout → List Loadout → List Loadout
insert_by before x [] = x ∷ []
insert_by before x (y ∷ ys) = elim (before y x) [
  | true ↦ y ∷ insert_by before x ys
  | false ↦ x ∷ y ∷ ys
]

unfoldable pub sorted_by : (Loadout → Loadout → Bool) → List Loadout → List Loadout
sorted_by before [] = []
sorted_by before (x ∷ xs) = insert_by before x (sorted_by before xs)

-- The loadouts that a board may list.
abbrev pub has_meta : Loadout → Bool
has_meta x = not (is_none x.meta)

abbrev pub has_better_fg : Loadout → Bool
has_better_fg x = not (is_none x.fg) && fg_beats x.fg_score x.score

unfoldable pub candidates : (Loadout → Bool) → List Row → List Loadout
candidates eligible [] = []
candidates eligible (r ∷ rs) =
    let rest = candidates eligible rs in if eligible r.loadout then r.loadout ∷ rest else rest

abbrev pub hashes : List Loadout → List String
hashes = map (λ x. x.loadout_hash)

-- `{x.loadout_hash for x in board[:LOADOUTS_PER_SONG_LIMIT]}`
unfoldable pub board : (Loadout → Bool) → (Loadout → Loadout → Bool) → List Row → List String
board eligible before rows =
    hashes (take loadouts_per_song_limit (sorted_by before (candidates eligible rows)))

-- The loop of `_normalize` over the rows.
unfoldable pub place : List String → List String → List Row → Result (List Row)
place on_meta on_fg [] = ok []
place on_meta on_fg (r ∷ rs) =
    let m = contains r.loadout.loadout_hash on_meta in
    let f = contains r.loadout.loadout_hash on_fg in
    let placed = make_loadout (record r.loadout { on_meta = m; on_fg = f }) >>= λ x.
    place on_meta on_fg rs >>= λ rest. ok (record r { loadout = x } ∷ rest) in
    if m || f then placed else place on_meta on_fg rs

unfoldable pub normalize : List Row → Result (List Row)
normalize rows = place (board has_meta meta_before rows) (board has_better_fg fg_before rows) rows

-- `{row.loadout.loadout_hash: _lift(row) for row in rows}`
unfoldable pub lift_all : List (String × Work) → List Row → List (String × Work)
lift_all work [] = work
lift_all work (r ∷ rs) = lift_all (put r.loadout.loadout_hash (lift r) work) rs

-- `_Seqs(meta=next_seq[0], fg=next_seq[1])`, the meta sides, the FG sides, and the boards.
unfoldable pub merge : List Row → List Row → ℕ → ℕ → ℕ → Result (List Row)
merge rows results now next_meta next_fg = do
  with_meta ←
      merge_all (merge_meta now)
        (record { work = lift_all [] rows; meta_seq = next_meta; fg_seq = next_fg }) results
  with_fg ← merge_all (merge_fg now) with_meta results
  loadouts ← project_all with_fg.work
  normalize loadouts
