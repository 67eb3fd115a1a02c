-- ===== src/Successors/Live.antt =====
-- A search finds the first live index, and removing an index takes nothing else away.
use ro_beats_calculator_engi.Common.{
  ℕ, zero, suc, ◌+◌, ◌≤◌, ◌<◌, ◌≡◌, refl, ap, ◌∙◌, Bool, true, false, some, ◌==◌, if◌then◌else◌,
  arith, Bool-cases, inl, inr,
}
use ro_beats_calculator_engi.Successors.{
  Successors, write, find_root, compress, successor_find, successor_remove,
}

-- A removed index is below the limit, leads further on within it, and past removed ones only.
abbrev pub AreSuccessors : ℕ → Successors → Type 0
AreSuccessors limit s =
    (i : ℕ)
    → s.removed i ≡ true
    → (i < s.successor i)
      × (s.successor i ≤ limit)
      × ((j : ℕ) → i ≤ j → j < s.successor i → s.removed j ≡ true)

-- The first live index at or after `index`.
pub record IsFirstLive (s : Successors) (limit index root : ℕ) : Type 0 where
  pub live : s.removed root ≡ false
  pub at_or_after : index ≤ root
  pub within : root ≤ limit
  pub first : (j : ℕ) → index ≤ j → j < root → s.removed j ≡ true

find_root-IsFirstLive :
    (fuel limit : ℕ) (s : Successors) (index : ℕ)
    → AreSuccessors limit s
    → index ≤ limit
    → limit < fuel + index
    → (root : ℕ) × (find_root fuel s index ≡ some root) × IsFirstLive s limit index root
unfolding find_root
find_root-IsFirstLive zero limit s index v le enough = absurd (omega (arith, le, enough))
find_root-IsFirstLive (suc fuel) limit s index v le enough = elim (Bool-cases (s.removed index)) [
  | inr t ↦ (
    index,
    rw t refl,
    record {
      live = t;
      at_or_after = omega arith;
      within = le;
      first = λ j lo hi. absurd (omega (arith, lo, hi));
    },
  )
  | inl t ↦
      let w = v index t in
      let (root, made, found) =
        find_root-IsFirstLive fuel limit s (s.successor index) v w.1 (omega (arith, w.0, enough)) in
      (
        root,
        rw t made,
        record {
          live = found.live;
          at_or_after = omega (arith, w.0, found.at_or_after);
          within = found.within;
          first = λ j lo hi. ground (arith, w.2 j lo, found.first j);
        },
      )
]

write-AreSuccessors :
    (limit : ℕ) (s : Successors) (cursor root : ℕ)
    → AreSuccessors limit s
    → IsFirstLive s limit cursor root
    → AreSuccessors limit (record s { successor = write s.successor cursor root })
write-AreSuccessors limit s cursor root v found = λ i t. elim (Bool-cases (cursor == i)) [
  | inl e ↦
      let at : cursor ≡ i = ground (arith, e) in
      let past : i < root = before_root i t (omega (arith, at, found.at_or_after)) in
      rw e (past, found.within, λ j lo hi. found.first j (omega (arith, at, lo)) hi)
  | inr e ↦ rw e (v i t)
]
  where
    before_root : (i : ℕ) → s.removed i ≡ true → i ≤ root → i < root
    before_root i t le =
        let same : root ≡ i → s.removed root ≡ s.removed i = λ e. ap s.removed e in
        ground (arith, found.live, t, le, same)

compress-AreSuccessors :
    (fuel limit : ℕ) (s : Successors) (root cursor : ℕ)
    → AreSuccessors limit s
    → IsFirstLive s limit cursor root
    → limit < fuel + cursor
    → (s' : Successors) × (compress fuel s root cursor ≡ some s')
      × AreSuccessors limit s'
      × (s'.removed ≡ s.removed)
unfolding compress
compress-AreSuccessors zero limit s root cursor v found enough =
    absurd (omega (arith, found.at_or_after, found.within, enough))
compress-AreSuccessors (suc fuel) limit s root cursor v found enough =
    elim (Bool-cases (s.removed cursor)) [
      | inr t ↦ (s, rw t refl, v, refl)
      | inl t ↦
          let w = v cursor t in
          let onward : s.successor cursor ≤ root =
            ground (arith, found.live, found.at_or_after, w.2 root) in
          let written = record s { successor = write s.successor cursor root } in
          let later : IsFirstLive written limit (s.successor cursor) root = record {
            live = found.live;
            at_or_after = onward;
            within = found.within;
            first = λ j lo hi. found.first j (omega (arith, w.0, lo)) hi;
          } in
          let (s', made, v', same) =
            compress-AreSuccessors fuel limit written root (s.successor cursor)
              (write-AreSuccessors limit s cursor root v found) later
              (omega (arith, w.0, enough)) in
          (s', rw t made, v', same)
    ]

-- With fuel for each index up to the limit, a search from an index within it ends, finds the first live
-- index at or after it, and changes nothing but the paths: the same indices are live.
pub successor_find-IsFirstLive :
    (fuel limit : ℕ) (s : Successors) (index : ℕ)
    → AreSuccessors limit s
    → index ≤ limit
    → s.removed limit ≡ false
    → limit < fuel
    → (s' : Successors) × (root : ℕ) × (successor_find fuel s index ≡ some (s', root))
      × IsFirstLive s limit index root
      × AreSuccessors limit s'
      × (s'.removed ≡ s.removed)
unfolding successor_find
successor_find-IsFirstLive fuel limit s index v le live enough =
    let (root, made, found) =
      find_root-IsFirstLive fuel limit s index v le (omega (arith, enough)) in
    let (s', short, v', same) =
      compress-AreSuccessors fuel limit s root index v found (omega (arith, enough)) in
    (s', root, rw (made, short) refl, found, v', same)

remove-AreSuccessors :
    (limit : ℕ) (s : Successors) (index next : ℕ)
    → AreSuccessors limit s
    → IsFirstLive s limit (suc index) next
    → AreSuccessors limit
        (record { successor = write s.successor index next; removed = write s.removed index true })
remove-AreSuccessors limit s index next v found = λ i t. elim (Bool-cases (index == i)) [
  | inl e ↦
      let at : index ≡ i = ground (arith, e) in
      rw e (
        omega (arith, at, found.at_or_after),
        found.within,
        λ j lo hi. elim (Bool-cases (index == j)) [
          | inl same ↦ rw same refl
          | inr other ↦ rw other (found.first j (ground (arith, at, lo, other)) hi)
        ],
      )
  | inr e ↦
      let w = v i (rw e at t) in
      rw e (
        w.0,
        w.1,
        λ j lo hi. elim (Bool-cases (index == j)) [
          | inl same ↦ rw same refl
          | inr other ↦ rw other (w.2 j lo hi)
        ],
      )
]

-- With fuel for each index up to the limit, removing an index below it ends, takes that index
-- and no other away, and gives the next live one; the arrays stay in order for the next removal.
pub successor_remove-IsFirstLive :
    (fuel limit : ℕ) (s : Successors) (index : ℕ)
    → AreSuccessors limit s
    → index < limit
    → s.removed limit ≡ false
    → limit < fuel
    → (s' : Successors) × (next : ℕ) × (successor_remove fuel s index ≡ some (s', next))
      × IsFirstLive s limit (suc index) next
      × AreSuccessors limit s'
      × ((j : ℕ) → s'.removed j ≡ (if index == j then true else s.removed j))
unfolding successor_remove
successor_remove-IsFirstLive fuel limit s index v lt live enough =
    let (s1, next, made, found, v1, same) =
      successor_find-IsFirstLive fuel limit s (suc index) v (omega (arith, lt)) live enough in
    let found1 : IsFirstLive s1 limit (suc index) next = record {
      live = ap (λ (r : ℕ → Bool). r next) same ∙ found.live;
      at_or_after = found.at_or_after;
      within = found.within;
      first = λ j lo hi. ap (λ (r : ℕ → Bool). r j) same ∙ found.first j lo hi;
    } in
    (
      record { successor = write s1.successor index next; removed = write s1.removed index true },
      next,
      rw made refl,
      found,
      remove-AreSuccessors limit s1 index next v1 found1,
      λ j. ap (λ (r : ℕ → Bool). if index == j then true else r j) same,
    )
