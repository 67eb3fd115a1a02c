-- ===== src/Store/Best.antt =====
-- What a merge does to the scores that the boards keep.
use Prim.Native.String.{String}
use text.Mathlib.Text.{◌==◌ as str_eq}
use text.Mathlib.TextEquality.{eq_iff}
use ro_beats_calculator_engi.Common.{
  higher, ℕ, ◌≡◌, ap, ◌∙◌, Bool, false, not, ◌&&◌, Option, none, some, List, [], ◌∷◌, ok,
  if◌then◌else◌, arith, Option-cases, Result-cases, inl, inr,
}
use ro_beats_calculator_engi.Common.Dict.{get, get-put}
use ro_beats_calculator_engi.Store.Records.{MetaResult, make_meta, is_none}
use ro_beats_calculator_engi.Store.Valid.Total.{
  Constructed, lift_all-IsMerge, merge_meta-IsMerge, merge_all-IsMerge,
}
use ro_beats_calculator_engi.Store.Boards.{
  lift_all, Row, Work, Merge, entry, store_meta, touch_meta, merge_meta_entry, merge_meta,
  merge_all,
}

-- The score of a loadout's meta side, if it has one.
abbrev pub side_score : Option Work → Option ℕ
side_score none = none
side_score (some w) = if is_none w.meta then none else w.score

unfoldable pub best_score : String → Option ℕ → List Row → Option ℕ
best_score hash best [] = best
best_score hash best (r ∷ rs) =
    best_score hash
      (if str_eq r.loadout.loadout_hash hash && not (is_none r.loadout.meta)
        then higher best r.loadout.score
        else best)
      rs

store_meta-score :
    (w : Work) (r : Row) (new : MetaResult) (seq now : ℕ) (w' : Work)
    → store_meta w r new seq now ≡ ok w'
    → (is_none w'.meta ≡ false) × (w'.score ≡ some r.loadout.score)
unfolding store_meta make_meta
store_meta-score w r new seq now w' h = ground (arith, h)

touch_meta-score :
    (w : Work) (r : Row) (old : MetaResult) (now : ℕ) (w' : Work)
    → touch_meta w r old now ≡ ok w'
    → (is_none w'.meta ≡ false) × (w'.score ≡ w.score)
unfolding touch_meta make_meta
touch_meta-score w r old now w' h = ground (arith, h)

merge_meta_entry-score :
    (w : Work) (r : Row) (new : MetaResult) (now next : ℕ) (p : Work × Bool)
    → merge_meta_entry w r new now next ≡ ok p
    → (is_none p.0.meta ≡ false) × (p.0.score ≡ higher (side_score (some w)) r.loadout.score)
unfolding merge_meta_entry
merge_meta_entry-score w r new now next p h = elim (Option-cases w.meta) [
  | inl e ↦ ground (arith, e, h, store_meta-score w r new next now p.0)
  | inr (old, e) ↦
      ground
        (arith, e, h, store_meta-score w r new old.seq now p.0, touch_meta-score w r old now p.0)
]

merge_meta-score :
    (hash : String) (now : ℕ) (m m' : Merge) (r : Row)
    → merge_meta now m r ≡ ok m'
    → side_score (get hash m'.work) ≡ (
        if str_eq r.loadout.loadout_hash hash && not (is_none r.loadout.meta)
        then higher (side_score (get hash m.work)) r.loadout.score
        else side_score (get hash m.work))
unfolding merge_meta
merge_meta-score hash now m m' r h = elim (Option-cases r.loadout.meta) [
  | inl e ↦ ground (arith, e, h)
  | inr (new, e) ↦
      let k = r.loadout.loadout_hash in
      let w = entry (get k m.work) r.loadout in
      elim (Result-cases (merge_meta_entry w r new now m.meta_seq)) [
        | inl (raised, f) ↦ ground (arith, e, f, h)
        | inr (p, f) ↦
            let (present, score) = merge_meta_entry-score w r new now m.meta_seq p f in
            let found = get-put k hash p.0 m.work in
            ground (arith, e, f, h, present, score, found, eq_iff k hash)
      ]
]

merge_all-best_score :
    (hash : String) (now : ℕ) (results : List Row) (m m' : Merge)
    → merge_all (merge_meta now) m results ≡ ok m'
    → side_score (get hash m'.work) ≡ best_score hash (side_score (get hash m.work)) results
unfolding merge_all best_score
merge_all-best_score hash now [] m m' h = ground (arith, h)
merge_all-best_score hash now (r ∷ rs) m m' h = elim (Result-cases (merge_meta now m r)) [
  | inl (e, raised) ↦ ground (arith, raised, h)
  | inr (m1, made) ↦
      let rest = merge_all-best_score hash now rs m1 m' (rw made at h) in
      rest ∙ ap (λ b. best_score hash b rs) (merge_meta-score hash now m m1 r made)
]

-- The meta sides of constructed results merge into the constructed rows of a song without an
-- exception, and then every loadout's score is the best of its stored score and of the scores of
-- the results for it, whatever order the results come in.
pub lift_all-best_score :
    (hash : String) (rows results : List Row) (now next_meta next_fg : ℕ)
    → Constructed rows
    → Constructed results
    → (m : Merge) × (merge_all
          (merge_meta now)
          (record { work = lift_all [] rows; meta_seq = next_meta; fg_seq = next_fg })
          results
        ≡ ok m)
      × (side_score (get hash m.work)
          ≡ best_score hash (side_score (get hash (lift_all [] rows))) results)
lift_all-best_score hash rows results now next_meta next_fg c c' =
    let none_yet : Merge = record { work = []; meta_seq = next_meta; fg_seq = next_fg } in
    let v = lift_all-IsMerge rows none_yet (record { works = tt; distinct = tt }) c in
    let start : Merge = record {
      work = lift_all [] rows;
      meta_seq = next_meta;
      fg_seq = next_fg;
    } in
    let (m, e, kept) =
      merge_all-IsMerge (merge_meta now) (merge_meta-IsMerge now) results start v c' in
    (m, e, merge_all-best_score hash now results start m e)
