-- ===== src/Store/Valid/Sides.antt =====
-- The two sides of an entry: each step of the merge succeeds on an entry in order, and keeps it so.
use Prim.Native.String.{String}
use ro_beats_calculator_engi.Common.{
  ℕ, ◌≡◌, refl, Bool, true, false, not, ◌&&◌, Option, none, some, ok, arith, if◌then◌else◌,
  Bool-cases, inl, inr, leb, ltb, subst, max, Option-cases,
}
use ro_beats_calculator_engi.Store.Records.{
  MetaResult, FgResult, Loadout, bad_song, is_none, make_loadout, make_meta, make_fg,
}
use ro_beats_calculator_engi.Store.Boards.{
  Row, Work, lift, entry, store_meta, touch_meta, merge_meta_entry, store_fg, merge_fg_entry,
  reaches_score, best_of, or_zero,
}
use ro_beats_calculator_engi.Store.Valid.{MetaOk, FgOk, IfSome, IsLoadout, IsWork}

-- What a constructed loadout satisfies.
pub loadout-song : (x : Loadout) → make_loadout x ≡ ok x → bad_song x ≡ false
unfolding make_loadout
loadout-song x h = ground arith

pub loadout-fg_scored :
    (x : Loadout) → make_loadout x ≡ ok x → (not (is_none x.fg) && is_none x.fg_score) ≡ false
unfolding make_loadout
loadout-fg_scored x h = ground arith

make_meta_stamp :
    (r : MetaResult) (seq updated : ℕ)
    → MetaOk r
    → make_meta (record r { seq = seq; updated = updated })
      ≡ ok (record r { seq = seq; updated = updated })
unfolding make_meta
make_meta_stamp r seq updated h = rw h

make_fg_stamp :
    (r : FgResult) (seq updated : ℕ)
    → FgOk r
    → make_fg (record r { seq = seq; updated = updated })
      ≡ ok (record r { seq = seq; updated = updated })
unfolding make_fg
make_fg_stamp r seq updated h = rw (h.result, h.surface)

pub lift-IsWork : (row : Row) → IsLoadout row.loadout → IsWork (row.loadout.loadout_hash, lift row)
unfolding lift
lift-IsWork row v = record {
  hash = refl;
  song = loadout-song row.loadout v.made;
  meta_ok = v.meta_ok;
  fg_ok = v.fg_ok;
  scored = ground arith;
  paired = ground arith;
  fg_scored = ground (arith, loadout-fg_scored row.loadout v.made);
}

pub entry-IsWork :
    (o : Option Work) (x : Loadout)
    → IsLoadout x
    → IfSome (λ w. IsWork (x.loadout_hash, w)) o
    → IsWork (x.loadout_hash, entry o x)
entry-IsWork (some w) x v h = h
entry-IsWork none x v h = record {
  hash = refl;
  song = loadout-song x v.made;
  meta_ok = tt;
  fg_ok = tt;
  scored = refl;
  paired = refl;
  fg_scored = refl;
}

best_of-total : (o : Option ℕ) (n : ℕ) → (m : ℕ) × (best_of o (some n) ≡ ok (some m))
best_of-total none n = (n, refl)
best_of-total (some m) n = (max m n, refl)

reaches_score-total :
    (o p : Option ℕ)
    → is_none o ≡ false
    → is_none p ≡ false
    → (b : Bool) × (reaches_score o p ≡ ok b)
reaches_score-total none p h h' = cc
reaches_score-total (some n) none h h' = cc
reaches_score-total (some n) (some m) h h' = (leb m n, refl)

module _ (k : String) (w : Work) (v : IsWork (k, w)) (row : Row) (x : IsLoadout row.loadout)
    (same : row.loadout.loadout_hash ≡ k) (now : ℕ) where
  store_meta-IsWork :
      (r : MetaResult) (seq : ℕ)
      → MetaOk r
      → (w' : Work) × (store_meta w row r seq now ≡ ok w') × IsWork (k, w')
  unfolding store_meta
  store_meta-IsWork r seq h = (
    record w {
      source = row.loadout;
      score = some row.loadout.score;
      fg_seen = max w.fg_seen (or_zero row.loadout.fg_score);
      meta = some (record r { seq = seq; updated = now });
      meta_trace = row.meta_trace;
    },
    rw (make_meta_stamp r seq r.updated h, make_meta_stamp r seq now h),
    record {
      hash = same;
      song = loadout-song row.loadout x.made;
      meta_ok = h;
      fg_ok = v.fg_ok;
      scored = refl;
      paired = v.paired;
      fg_scored = v.fg_scored;
    },
  )

  touch_meta-IsWork :
      (old : MetaResult)
      → w.meta ≡ some old
      → MetaOk old
      → (w' : Work) × (touch_meta w row old now ≡ ok w') × IsWork (k, w')
  unfolding touch_meta
  touch_meta-IsWork old e h = (
    record w {
      fg_seen = max w.fg_seen (or_zero row.loadout.fg_score);
      meta = some (record old { updated = now });
    },
    rw (make_meta_stamp old old.seq now h),
    record {
      hash = v.hash;
      song = v.song;
      meta_ok = h;
      fg_ok = v.fg_ok;
      scored = ground (arith, v.scored);
      paired = v.paired;
      fg_scored = v.fg_scored;
    },
  )

  pub merge_meta_entry-IsWork :
      (r : MetaResult) (next : ℕ)
      → MetaOk r
      → (p : Work × Bool) × (merge_meta_entry w row r now next ≡ ok p) × IsWork (k, p.0)
  unfolding merge_meta_entry
  merge_meta_entry-IsWork r next h = elim (Option-cases w.meta) [
    | inl e ↦
        let (w', stored, v') = store_meta-IsWork r next h in
        ((w', true), ground (arith, e, stored), v')
    | inr (old, e) ↦
        let old_ok : MetaOk old = subst (IfSome MetaOk) e v.meta_ok in
        elim (Option-cases w.score) [
          | inl no_score ↦ absurd (ground (arith, v.scored))
          | inr (score, is) ↦ elim (Bool-cases (ltb score row.loadout.score)) [
            | inl higher ↦
                let (w', stored, v') = store_meta-IsWork r old.seq h in
                ((w', false), ground (arith, e, is, higher, stored), v')
            | inr lower ↦
                let (w', stored, v') = touch_meta-IsWork old e old_ok in
                ((w', false), ground (arith, e, is, lower, stored), v')
          ]
        ]
  ]

  store_fg-IsWork :
      (r : FgResult) (seq : ℕ)
      → row.loadout.fg ≡ some r
      → FgOk r
      → (w' : Work) × (store_fg w row r seq now ≡ ok w') × IsWork (k, w')
  unfolding store_fg
  store_fg-IsWork r seq e h =
      let paired_score = loadout-fg_scored row.loadout x.made in
      elim (Option-cases row.loadout.fg_score) [
        | inl no_score ↦ absurd (ground arith)
        | inr (score, is) ↦
            let (best, found) = best_of-total w.fg_score score in
            (
              record w {
                source = if is_none w.meta then row.loadout else w.source;
                paired = some row.loadout.score;
                fg = some (record r { seq = seq; updated = now });
                fg_trace = row.fg_trace;
                fg_score = some best;
              },
              ground (arith, found, is, make_fg_stamp r seq r.updated h, make_fg_stamp r seq now h),
              record {
                hash = ground (arith, v.hash);
                song = ground (arith, v.song, loadout-song row.loadout x.made);
                meta_ok = v.meta_ok;
                fg_ok = record { result = h.result; surface = h.surface };
                scored = v.scored;
                paired = refl;
                fg_scored = refl;
              },
            )
      ]

  pub merge_fg_entry-IsWork :
      (r : FgResult) (next : ℕ)
      → row.loadout.fg ≡ some r
      → FgOk r
      → (p : Work × Bool) × (merge_fg_entry w row r now next ≡ ok p) × IsWork (k, p.0)
  unfolding merge_fg_entry
  merge_fg_entry-IsWork r next e h = elim (Option-cases w.fg) [
    | inl none_yet ↦
        let (w', stored, v') = store_fg-IsWork r next e h in
        ((w', true), ground (arith, none_yet, stored), v')
    | inr (old, had) ↦
        let old_ok : FgOk old = subst (IfSome FgOk) had v.fg_ok in
        let (replaces, compared) =
          reaches_score-total row.loadout.fg_score w.fg_score
            (ground (arith, loadout-fg_scored row.loadout x.made)) (ground (arith, v.fg_scored)) in
        elim (Bool-cases replaces) [
          | inl higher ↦
              let (w', stored, v') = store_fg-IsWork r old.seq e h in
              ((w', false), ground (arith, had, compared, higher, stored), v')
          | inr lower ↦ (
            (record w { fg = some (record old { updated = now }) }, false),
            ground (arith, had, compared, lower, make_fg_stamp old old.seq now old_ok),
            record {
              hash = v.hash;
              song = v.song;
              meta_ok = v.meta_ok;
              fg_ok = record { result = old_ok.result; surface = old_ok.surface };
              scored = v.scored;
              paired = ground (arith, v.paired);
              fg_scored = ground (arith, v.fg_scored);
            },
          )
        ]
  ]
