-- ===== src/Store/Valid/Total.antt =====
-- The whole merge: it succeeds on constructed rows, and its boards are in order and within limits.
use Prim.Native.String.{String}
use ro_beats_calculator_engi.Common.{
  ℕ, suc, ◌≤◌, ◌≡◌, refl, subst, Bool, true, false, not, ◌&&◌, ◌||◌, none, List, [], ◌∷◌, ◌++◌, ◌⊎◌,
  inl, inr, All, Result, ok, arith, if◌then◌else◌, Bool-cases, Option-cases,
}
use ro_beats_calculator_engi.Common.Dict.{
  contains, Distinct, get, put, keys, put-Distinct, put-All, get-All,
}
use ro_beats_calculator_engi.Store.Records.{Loadout, is_none, fg_beats, make_loadout, bad_song}
use ro_beats_calculator_engi.Store.Boards.{
  Row, Work, Merge, lift, lift_all, entry, merge_meta, merge_fg, merge_all, project, project_all,
  seen_score, has_meta, has_better_fg, meta_before, fg_before, board, place, normalize, merge,
  loadouts_per_song_limit,
}
use ro_beats_calculator_engi.Store.Valid.{MetaOk, FgOk, IfSome, IsLoadout, IsWork}
use ro_beats_calculator_engi.Store.Valid.Sides.{
  lift-IsWork, entry-IsWork, merge_meta_entry-IsWork, merge_fg_entry-IsWork,
}
use ro_beats_calculator_engi.Store.Valid.Ranks.{
  In, row_hashes, board_eligible, length-board-le, count_rows, count-contains-le,
}

abbrev pub Constructed : List Row → Type 0
Constructed = All (λ r. IsLoadout r.loadout)

-- Entries that are as the merge leaves them, one for each key.
pub record IsMerge (m : Merge) : Type 0 where
  pub works : All IsWork m.work
  pub distinct : Distinct (keys m.work)

get-IsWork :
    (k : String) (work : List (String × Work))
    → All IsWork work
    → IfSome (λ w. IsWork (k, w)) (get k work)
get-IsWork k work h = elim (Option-cases (get k work)) [
  | inl e ↦ rw e tt
  | inr (w, e) ↦ rw e (get-All IsWork k w work h e)
]

pub lift_all-IsMerge :
    (rows : List Row) (m : Merge)
    → IsMerge m
    → Constructed rows
    → IsMerge (record m { work = lift_all m.work rows })
unfolding lift_all
lift_all-IsMerge [] m v c = record { works = v.works; distinct = v.distinct }
lift_all-IsMerge (r ∷ rs) m v c =
    lift_all-IsMerge rs (record m { work = put r.loadout.loadout_hash (lift r) m.work })
      (record {
        works = put-All IsWork r.loadout.loadout_hash (lift r) m.work v.works (lift-IsWork r c.0);
        distinct = put-Distinct r.loadout.loadout_hash (lift r) m.work v.distinct;
      })
      c.1

pub merge_meta-IsMerge :
    (now : ℕ) (m : Merge) (row : Row)
    → IsMerge m
    → IsLoadout row.loadout
    → (m' : Merge) × (merge_meta now m row ≡ ok m') × IsMerge m'
unfolding merge_meta
merge_meta-IsMerge now m row v x = elim (Option-cases row.loadout.meta) [
  | inl e ↦ (m, ground (arith, e), v)
  | inr (new, e) ↦
      let k = row.loadout.loadout_hash in
      let w = entry (get k m.work) row.loadout in
      let w_ok = entry-IsWork (get k m.work) row.loadout x (get-IsWork k m.work v.works) in
      let (p, done, p_ok) =
        merge_meta_entry-IsWork k w w_ok row x refl now new m.meta_seq
          (subst (IfSome MetaOk) e x.meta_ok) in
      (
        record m { work = put k p.0 m.work; meta_seq = if p.1 then suc m.meta_seq else m.meta_seq },
        ground (arith, e, done),
        record {
          works = put-All IsWork k p.0 m.work v.works p_ok;
          distinct = put-Distinct k p.0 m.work v.distinct;
        },
      )
]

merge_fg-IsMerge :
    (now : ℕ) (m : Merge) (row : Row)
    → IsMerge m
    → IsLoadout row.loadout
    → (m' : Merge) × (merge_fg now m row ≡ ok m') × IsMerge m'
unfolding merge_fg
merge_fg-IsMerge now m row v x = elim (Option-cases row.loadout.fg) [
  | inl e ↦ (m, ground (arith, e), v)
  | inr (new, e) ↦
      let k = row.loadout.loadout_hash in
      let w = entry (get k m.work) row.loadout in
      let w_ok = entry-IsWork (get k m.work) row.loadout x (get-IsWork k m.work v.works) in
      let (p, done, p_ok) =
        merge_fg_entry-IsWork k w w_ok row x refl now new m.fg_seq e
          (subst (IfSome FgOk) e x.fg_ok) in
      (
        record m { work = put k p.0 m.work; fg_seq = if p.1 then suc m.fg_seq else m.fg_seq },
        ground (arith, e, done),
        record {
          works = put-All IsWork k p.0 m.work v.works p_ok;
          distinct = put-Distinct k p.0 m.work v.distinct;
        },
      )
]

pub merge_all-IsMerge :
    (step : Merge → Row → Result Merge)
    → ((m : Merge) (row : Row)
        → IsMerge m
        → IsLoadout row.loadout
        → (m' : Merge) × (step m row ≡ ok m') × IsMerge m')
    → (rows : List Row) (m : Merge) → IsMerge m
    → Constructed rows
    → (m' : Merge) × (merge_all step m rows ≡ ok m') × IsMerge m'
unfolding merge_all
merge_all-IsMerge step h [] m v c = (m, refl, v)
merge_all-IsMerge step h (r ∷ rs) m v c =
    let (m1, e1, v1) = h m r v c.0 in
    let (m2, e2, v2) = merge_all-IsMerge step h rs m1 v1 c.1 in (m2, rw (e1, e2), v2)

remade :
    (x : Loadout)
    → bad_song x ≡ false
    → (is_none x.meta && is_none x.fg) ≡ false
    → (not (is_none x.fg) && is_none x.fg_score) ≡ false
    → (x.on_meta && is_none x.meta) ≡ false
    → (x.on_fg && (is_none x.fg || not (fg_beats x.fg_score x.score))) ≡ false
    → make_loadout x ≡ ok x
unfolding make_loadout
remade x a b c d e = rw (a, b, c, d, e)

-- What an entry becomes: no row, or one row under its key.
abbrev Projected : String → List Row → Type 0
Projected k rows =
    (rows ≡ []) ⊎ ((r : Row) × (rows ≡ r ∷ []) × IsLoadout r.loadout × (r.loadout.loadout_hash ≡ k))

project-Projected :
    (k : String) (w : Work)
    → IsWork (k, w)
    → (rows : List Row) × (project w ≡ ok rows) × Projected k rows
unfolding project bad_song
project-Projected k w v = elim (Bool-cases (is_none w.meta && is_none w.fg)) [
  | inl e ↦ ([], rw e, inl refl)
  | inr e ↦ elim (Option-cases (if is_none w.meta then w.paired else w.score)) [
    | inl no_score ↦ absurd (ground (arith, v.scored, v.paired))
    | inr (score, is) ↦
        let x : Loadout = record w.source {
          score = score;
          fg_score = if is_none w.fg then seen_score w.fg_seen else w.fg_score;
          meta = w.meta;
          fg = w.fg;
          on_meta = false;
          on_fg = false;
        } in
        let made : make_loadout x ≡ ok x =
          remade x v.song e (ground (arith, v.fg_scored)) refl refl in
        let r : Row = record {
          loadout = x;
          meta_trace = if is_none w.meta then none else w.meta_trace;
          fg_trace = w.fg_trace;
        } in
        (
          r ∷ [],
          rw (e, is, made),
          inr (r, refl, record { made = made; meta_ok = v.meta_ok; fg_ok = v.fg_ok }, v.hash),
        )
  ]
]

-- The rows of the entries: constructed, under distinct hashes that are keys.
record IsRows (work : List (String × Work)) (rows : List Row) : Type 0 where
  built : Constructed rows
  distinct : Distinct (row_hashes rows)
  keyed : (h : String) → contains h (row_hashes rows) ≡ true → contains h (keys work) ≡ true

IsRows-cons :
    (k : String) (w : Work) (work : List (String × Work)) (here rest : List Row)
    → contains k (keys work) ≡ false
    → Projected k here
    → IsRows work rest
    → IsRows ((k, w) ∷ work) (here ++ rest)
unfolding contains
IsRows-cons k w work here rest new (inl e) v =
    rw e (record {
      built = v.built;
      distinct = v.distinct;
      keyed = λ h c. ground (arith, v.keyed h c);
    })
IsRows-cons k w work here rest new (inr (r, e, x, hash)) v =
    let absent : contains r.loadout.loadout_hash (row_hashes rest) ≡ false =
      ground (arith, hash, new, v.keyed r.loadout.loadout_hash) in
    rw e (record {
      built = (x, v.built);
      distinct = (absent, v.distinct);
      keyed = λ h c. ground (arith, hash, c, v.keyed h);
    })

project_all-IsRows :
    (work : List (String × Work))
    → All IsWork work
    → Distinct (keys work)
    → (rows : List Row) × (project_all work ≡ ok rows) × IsRows work rows
unfolding project_all
project_all-IsRows [] h d = ([], refl, record { built = tt; distinct = tt; keyed = λ h c. c })
project_all-IsRows ((k, w) ∷ work) h d =
    let (here, e1, p) = project-Projected k w h.0 in
    let (rest, e2, v) = project_all-IsRows work h.1 d.1 in
    (here ++ rest, rw (e1, e2), IsRows-cons k w work here rest d.0 p v)

-- What `place` makes of rows, against the two boards.
record IsPlaced (on_meta on_fg : List String) (rows out : List Row) : Type 0 where
  built : Constructed out
  listed : All (λ r. (r.loadout.on_meta || r.loadout.on_fg) ≡ true) out
  meta_count :
      count_rows (λ r. r.loadout.on_meta) out
      ≤ count_rows (λ r. contains r.loadout.loadout_hash on_meta) rows
  fg_count :
      count_rows (λ r. r.loadout.on_fg) out
      ≤ count_rows (λ r. contains r.loadout.loadout_hash on_fg) rows

replaced :
    (x : Loadout) (m f : Bool)
    → make_loadout x ≡ ok x
    → (m ≡ true → has_meta x ≡ true)
    → (f ≡ true → has_better_fg x ≡ true)
    → make_loadout (record x { on_meta = m; on_fg = f }) ≡ ok (record x { on_meta = m; on_fg = f })
unfolding make_loadout bad_song
replaced x true true h hm hf = ground (arith, hm refl, hf refl)
replaced x true false h hm hf = ground (arith, hm refl)
replaced x false true h hm hf = ground (arith, hf refl)
replaced x false false h hm hf = ground arith

place-IsPlaced :
    (on_meta on_fg : List String) (rows : List Row)
    → Constructed rows
    → ((r : Row)
        → In r rows
        → contains r.loadout.loadout_hash on_meta ≡ true
        → has_meta r.loadout ≡ true)
    → ((r : Row)
        → In r rows
        → contains r.loadout.loadout_hash on_fg ≡ true
        → has_better_fg r.loadout ≡ true)
    → (out : List Row) × (place on_meta on_fg rows ≡ ok out) × IsPlaced on_meta on_fg rows out
unfolding place count_rows
place-IsPlaced on_meta on_fg [] c hm hf =
    ([], refl, record { built = tt; listed = tt; meta_count = omega arith; fg_count = omega arith })
place-IsPlaced on_meta on_fg (r ∷ rs) c hm hf =
    let m = contains r.loadout.loadout_hash on_meta in
    let f = contains r.loadout.loadout_hash on_fg in
    let (out, e, v) =
      place-IsPlaced on_meta on_fg rs c.1 (λ q i. hm q (inr i)) (λ q i. hf q (inr i)) in
    elim (Bool-cases (m || f)) [
      | inl t ↦
          let x : Loadout = record r.loadout { on_meta = m; on_fg = f } in
          let made = replaced r.loadout m f (c.0).made (hm r (inl refl)) (hf r (inl refl)) in
          (
            record r { loadout = x } ∷ out,
            rw (t, made, e),
            record {
              built =
                  (record { made = made; meta_ok = (c.0).meta_ok; fg_ok = (c.0).fg_ok }, v.built);
              listed = (t, v.listed);
              meta_count = omega (arith, v.meta_count);
              fg_count = omega (arith, v.fg_count);
            },
          )
      | inr t ↦ (
        out,
        rw (t, e),
        record {
          built = v.built;
          listed = v.listed;
          meta_count = omega (arith, v.meta_count);
          fg_count = omega (arith, v.fg_count);
        },
      )
    ]

-- A song's rows as the boards keep them.
pub record IsBoards (out : List Row) : Type 0 where
  pub built : Constructed out
  pub listed : All (λ r. (r.loadout.on_meta || r.loadout.on_fg) ≡ true) out
  pub meta_limit : count_rows (λ r. r.loadout.on_meta) out ≤ loadouts_per_song_limit
  pub fg_limit : count_rows (λ r. r.loadout.on_fg) out ≤ loadouts_per_song_limit

normalize-IsBoards :
    (rows : List Row)
    → Constructed rows
    → Distinct (row_hashes rows)
    → (out : List Row) × (normalize rows ≡ ok out) × IsBoards out
unfolding normalize
normalize-IsBoards rows c d =
    let on_meta = board has_meta meta_before rows in
    let on_fg = board has_better_fg fg_before rows in
    let (out, e, v) =
      place-IsPlaced on_meta on_fg rows c (λ r i. board_eligible has_meta meta_before rows r d i)
        (λ r i. board_eligible has_better_fg fg_before rows r d i) in
    (
      out,
      e,
      record {
        built = v.built;
        listed = v.listed;
        meta_limit = omega (
          arith,
          v.meta_count,
          count-contains-le on_meta rows d,
          length-board-le has_meta meta_before rows,
        );
        fg_limit = omega (
          arith,
          v.fg_count,
          count-contains-le on_fg rows d,
          length-board-le has_better_fg fg_before rows,
        );
      },
    )

-- A merge of rows and results that were constructed never raises, whatever their order, the time
-- and the entry numbers. Every row that it gives back passes the constructor's checks again (a row
-- on the Force Greats board has a result that beats its score), is on at least one board, and
-- neither board lists more than its limit.
pub merge-IsBoards :
    (rows results : List Row) (now next_meta next_fg : ℕ)
    → Constructed rows
    → Constructed results
    → (out : List Row) × (merge rows results now next_meta next_fg ≡ ok out) × IsBoards out
unfolding merge
merge-IsBoards rows results now next_meta next_fg c c' =
    let start : Merge = record { work = []; meta_seq = next_meta; fg_seq = next_fg } in
    let v0 = lift_all-IsMerge rows start (record { works = tt; distinct = tt }) c in
    let (m1, e1, v1) =
      merge_all-IsMerge (merge_meta now) (merge_meta-IsMerge now) results _ v0 c' in
    let (m2, e2, v2) = merge_all-IsMerge (merge_fg now) (merge_fg-IsMerge now) results m1 v1 c' in
    let (loadouts, e3, v3) = project_all-IsRows m2.work v2.works v2.distinct in
    let (out, e4, v4) = normalize-IsBoards loadouts v3.built v3.distinct in
    (out, rw (e1, e2, e3, e4), v4)
