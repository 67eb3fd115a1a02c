-- ===== src/Skyline/Pairs.antt =====
-- The pair table holds the best body fever of every pair of Great counts that was touched.
use native.Mathlib.Nat.{mod-eq_of_lt, mul-add-mod_self_right, mul-add-div_right, div-eq_of_lt}
use ro_beats_calculator_engi.Common.{
  ℕ, ◌+◌, ◌-◌, ◌*◌, ◌/◌, ◌%◌, ◌<◌, ◌≡◌, refl, sym, ap, ◌∙◌, Bool, true, false, not, ◌&&◌, ◌||◌,
  Option, none, some, List, [], ◌∷◌, Result, ok, ◌>>=◌, ltb, ◌==◌, if◌then◌else◌, All, higher,
  arith, Bool-cases, inl, inr,
}
use ro_beats_calculator_engi.Common.Members.{
  has, DistinctNumbers, has-append, DistinctNumbers-append,
}
use ro_beats_calculator_engi.Skyline.{
  Counts, PairTable, sum_counts, touch_pair, touch_body_candidate,
}

-- One batch of candidates, as edge and tail.
unfoldable pub touch_all : ℕ → ℕ → ℕ → PairTable → List (Counts × Counts) → Result PairTable
touch_all pair_mod size stamp s [] = ok s
touch_all pair_mod size stamp s ((e, t) ∷ rest) =
    touch_body_candidate pair_mod size stamp s e t >>= λ s'. touch_all pair_mod size stamp s' rest

abbrev pub pair_index : ℕ → Counts → ℕ
pair_index pair_mod body = (body.great - body.fever_great) * pair_mod + body.fever_great

-- A candidate with more fever Greats than Greats is left out.
abbrev pub counts_as : ℕ → ℕ → Counts → Bool
counts_as pair_mod at body = not (ltb body.great body.fever_great) && pair_index pair_mod body == at

-- It fits the radix and the table.
abbrev pub fits : ℕ → ℕ → Counts → Bool
fits pair_mod size body =
    ltb body.great body.fever_great
    || (ltb body.fever_great pair_mod && ltb (pair_index pair_mod body) size)

unfoldable pub best_fever_of : ℕ → ℕ → Option ℕ → List (Counts × Counts) → Option ℕ
best_fever_of pair_mod at best [] = best
best_fever_of pair_mod at best ((e, t) ∷ rest) =
    best_fever_of pair_mod at
      (if counts_as pair_mod at (sum_counts e t) then higher best (sum_counts e t).fever else best)
      rest

-- What the table holds under the current stamp.
abbrev pub entry : ℕ → PairTable → ℕ → Option ℕ
entry stamp s at = if s.pair_stamp at == stamp then some (s.best_fever at) else none

touch_pair-entry :
    (stamp : ℕ) (s : PairTable) (i fever at : ℕ)
    → entry stamp (touch_pair stamp s i fever) at
      ≡ (if i == at then higher (entry stamp s at) fever else entry stamp s at)
unfolding touch_pair
touch_pair-entry stamp s i fever at = ground arith

-- Every stamped pair is listed, once.
pub record IsTable (stamp : ℕ) (s : PairTable) : Type 0 where
  pub listed : (at : ℕ) → has s.touched at ≡ (s.pair_stamp at == stamp)
  pub once : DistinctNumbers s.touched

touch_pair-IsTable :
    (stamp : ℕ) (s : PairTable) (i fever : ℕ)
    → IsTable stamp s
    → IsTable stamp (touch_pair stamp s i fever)
unfolding touch_pair
touch_pair-IsTable stamp s i fever v = elim (Bool-cases (s.pair_stamp i == stamp)) [
  | inr t ↦ rw t (record {
    listed = λ at. ground (arith, has-append s.touched i at, v.listed at);
    once = DistinctNumbers-append s.touched i v.once (v.listed i ∙ t);
  })
  | inl t ↦ elim (Bool-cases (ltb (s.best_fever i) fever)) [
    | inl u ↦ rw (t, u) (record { listed = v.listed; once = v.once })
    | inr u ↦ rw (t, u) v
  ]
]

touch_lem :
    (pair_mod size stamp : ℕ) (s : PairTable) (e t : Counts)
    → IsTable stamp s
    → fits pair_mod size (sum_counts e t) ≡ true
    → (s' : PairTable) × (touch_body_candidate pair_mod size stamp s e t ≡ ok s')
      × IsTable stamp s'
      × ((at : ℕ)
          → entry stamp s' at ≡ (
              if counts_as pair_mod at (sum_counts e t)
              then higher (entry stamp s at) (sum_counts e t).fever
              else entry stamp s at))
unfolding touch_body_candidate
touch_lem pair_mod size stamp s e t v h =
    let body = sum_counts e t in
    let i = pair_index pair_mod body in
    elim (Bool-cases (ltb body.great body.fever_great)) [
      | inl u ↦ (s, rw u refl, v, λ at. rw u refl)
      | inr u ↦ (
        touch_pair stamp s i body.fever,
        ground (arith, u, h),
        touch_pair-IsTable stamp s i body.fever v,
        λ at. rw u (touch_pair-entry stamp s i body.fever at),
      )
    ]

touch_all-entry :
    (pair_mod size stamp : ℕ) (candidates : List (Counts × Counts)) (s : PairTable)
    → IsTable stamp s
    → All (λ c. fits pair_mod size (sum_counts c.0 c.1) ≡ true) candidates
    → (s' : PairTable) × (touch_all pair_mod size stamp s candidates ≡ ok s')
      × IsTable stamp s'
      × ((at : ℕ) → entry stamp s' at ≡ best_fever_of pair_mod at (entry stamp s at) candidates)
unfolding touch_all best_fever_of
touch_all-entry pair_mod size stamp [] s v h = (s, refl, v, λ at. refl)
touch_all-entry pair_mod size stamp ((e, t) ∷ rest) s v h =
    let (s1, made, v1, one) = touch_lem pair_mod size stamp s e t v h.0 in
    let (s2, all, v2, more) = touch_all-entry pair_mod size stamp rest s1 v1 h.1 in
    (
      s2,
      rw made all,
      v2,
      λ at. more at ∙ ap (λ (b : Option ℕ). best_fever_of pair_mod at b rest) (one at),
    )

-- A batch of candidates that fit the radix and the table, on a table where the stamp is new, raises
-- nothing. Afterwards every pair of Great counts holds the most body fever notes of its
-- candidates, whatever their order, and the touched pairs are those that have one, each listed
-- once.
pub touch_all-best_fever_of :
    (pair_mod size stamp : ℕ) (candidates : List (Counts × Counts)) (s : PairTable)
    → ((at : ℕ) → (s.pair_stamp at == stamp) ≡ false)
    → s.touched ≡ []
    → All (λ c. fits pair_mod size (sum_counts c.0 c.1) ≡ true) candidates
    → (s' : PairTable) × (touch_all pair_mod size stamp s candidates ≡ ok s')
      × IsTable stamp s'
      × ((at : ℕ) → entry stamp s' at ≡ best_fever_of pair_mod at none candidates)
unfolding has
touch_all-best_fever_of pair_mod size stamp candidates s new clear h =
    let v : IsTable stamp s = record {
      listed = λ at. rw (clear, has) (sym (new at));
      once = rw clear tt;
    } in
    let (s', made, v', entries) = touch_all-entry pair_mod size stamp candidates s v h in
    (
      s',
      made,
      v',
      λ at.
          entries at
          ∙ ap (λ (b : Option ℕ). best_fever_of pair_mod at b candidates) (rw (new at) refl),
    )

-- Within the radix, a pair's index determines its normal Greats and its fever Greats: dividing by
-- the radix gives them back, so two pairs never share a cell.
pair_index-decode :
    (pair_mod : ℕ) (body : Counts)
    → body.fever_great < pair_mod
    → (pair_index pair_mod body / pair_mod ≡ body.great - body.fever_great)
      × (pair_index pair_mod body % pair_mod ≡ body.fever_great)
pair_index-decode pair_mod body h =
    let q = body.great - body.fever_great in
    let small : body.fever_great / pair_mod ≡ 0 = div-eq_of_lt h in
    (
      mul-add-div_right (omega (arith, h)) q body.fever_great ∙ omega (arith, small),
      mul-add-mod_self_right q pair_mod body.fever_great ∙ mod-eq_of_lt h,
    )
