-- ===== src/Reach/Lanes.antt =====
-- The activations that a lane closes: those of the intervals, each once, and no others.
use ro_beats_calculator_engi.Common.{
  ℕ, zero, suc, ◌+◌, ◌<◌, ◌≡◌, refl, sym, ap, ◌∙◌, max, Bool, true, false, ◌&&◌, ◌||◌, some, List,
  [], ◌∷◌, leb, ltb, ◌==◌, if◌then◌else◌, ◌⊎◌, inl, inr, arith, Bool-cases, leb-cases,
}
use ro_beats_calculator_engi.Successors.Live.{
  AreSuccessors, IsFirstLive, successor_remove-IsFirstLive,
}
use ro_beats_calculator_engi.Reach.{Marked, Lane, close_activation, close_interval}

-- A closure marks the ends of its activation, whatever is marked.
pub record IsMarking (closure : (ℕ → Bool) → ℕ → Marked) (ends : ℕ → ℕ → Bool) : Type 0 where
  pub marks : (r : ℕ → Bool) (a e : ℕ) → (closure r a).0 e ≡ (r e || ends a e)

-- The ends of every activation that was removed are marked.
pub record IsLane (n : ℕ) (ends : ℕ → ℕ → Bool) (lane : Lane) : Type 0 where
  pub order : AreSuccessors n lane.live
  pub sentinel : lane.live.removed n ≡ false
  pub closed : (j e : ℕ) → lane.live.removed j ≡ true → ends j e ≡ true → lane.reachable e ≡ true

-- The activations for which `q` holds were closed, and nothing else was marked.
pub record Worked (n : ℕ) (ends : ℕ → ℕ → Bool) (q : ℕ → Bool) (lane lane' : Lane) : Type 1 where
  pub lane_after : IsLane n ends lane'
  pub kept : (j : ℕ) → lane.live.removed j ≡ true → lane'.live.removed j ≡ true
  pub grown : (e : ℕ) → lane.reachable e ≡ true → lane'.reachable e ≡ true
  pub done : (j : ℕ) → q j ≡ true → lane'.live.removed j ≡ true
  pub sound :
      (P : ℕ → Type 0)
      → ((e : ℕ) → lane.reachable e ≡ true → P e)
      → ((j e : ℕ) → q j ≡ true → ends j e ≡ true → P e)
      → (e : ℕ) → lane'.reachable e ≡ true
      → P e

-- An activation that a state's runs lead to: at an interval's note before note n.
unfoldable pub in_runs : ℕ → ℕ → List (ℕ × ℕ) → ℕ → Bool
in_runs n state [] j = false
in_runs n state ((run_start, run_end) ∷ runs) j =
    (leb (state + run_start) j && leb j (state + run_end) && ltb j n) || in_runs n state runs j

pub or-cases : (a b : Bool) → (a || b) ≡ true → (a ≡ true) ⊎ (b ≡ true)
or-cases true b h = inl refl
or-cases false b h = inr h

module _ (n : ℕ) (closure : (ℕ → Bool) → ℕ → Marked) (ends : ℕ → ℕ → Bool)
    (mk : IsMarking closure ends) where
  pub close_activation-Worked :
      (lane : Lane) (a : ℕ)
      → IsLane n ends lane
      → a < n
      → (lane' : Lane) × (next : ℕ) × (close_activation n closure lane a ≡ some (lane', next))
        × IsFirstLive lane.live n (suc a) next
        × ((j : ℕ) → lane'.live.removed j ≡ (if a == j then true else lane.live.removed j))
        × ((e : ℕ) → lane'.reachable e ≡ (lane.reachable e || ends a e))
        × IsLane n ends lane'
  unfolding close_activation
  close_activation-Worked lane a v lt =
      let (s', next, made, found, order, gone) =
        successor_remove-IsFirstLive (suc n) n lane.live a v.order lt v.sentinel (omega arith) in
      let marked = λ (e : ℕ). mk.marks lane.reachable a e in
      (
        record {
          live = s';
          reachable = (closure lane.reachable a).0;
          width = max lane.width (closure lane.reachable a).1;
        },
        next,
        rw made refl,
        found,
        gone,
        marked,
        record {
          order = order;
          sentinel = ground (arith, gone n, v.sentinel, lt);
          closed = λ j e r h. elim (Bool-cases (a == j)) [
            | inl t ↦
                let at : a ≡ j = ground (arith, t) in
                let own : ends a e ≡ true = ap (λ (i : ℕ). ends i e) at ∙ h in
                ground (arith, marked e, own)
            | inr t ↦ ground (arith, marked e, gone j, t, r, v.closed j e, h)
          ];
        },
      )

module _ (n : ℕ) (closure : (ℕ → Bool) → ℕ → Marked) (ends : ℕ → ℕ → Bool)
    (mk : IsMarking closure ends) where
  interval_onward :
      (fuel hi : ℕ) (lane : Lane) (a : ℕ) (lane1 lane' : Lane) (next : ℕ)
      → leb a hi ≡ true
      → close_activation n closure lane a ≡ some (lane1, next)
      → close_interval fuel n closure hi lane1 next ≡ some lane'
      → close_interval (suc fuel) n closure hi lane a ≡ some lane'
  unfolding close_interval
  interval_onward fuel hi lane a lane1 lane' next t made rest = rw (close_interval, t, made) rest

  pub close_interval-Worked :
      (fuel hi : ℕ) (lane : Lane) (lo a : ℕ)
      → IsLane n ends lane
      → IsFirstLive lane.live n lo a
      → hi < n
      → n < fuel + a
      → (lane' : Lane) × (close_interval fuel n closure hi lane a ≡ some lane')
        × Worked n ends (λ j. leb lo j && leb j hi) lane lane'
  unfolding close_interval
  close_interval-Worked zero hi lane lo a v found lt enough =
      absurd (omega (arith, found.within, enough))
  close_interval-Worked (suc fuel) hi lane lo a v found lt enough = elim (Bool-cases (leb a hi)) [
    | inr t ↦ (
      lane,
      rw (close_interval, t) refl,
      record {
        lane_after = v;
        kept = λ j r. r;
        grown = λ e r. r;
        done = λ j h. found.first j (ground (arith, h)) (ground (arith, h, t));
        sound = λ P base own. base;
      },
    )
    | inl t ↦
        let (lane1, next, made, onward, gone, marked, v1) =
          close_activation-Worked n closure ends mk lane a v (ground (arith, t, lt)) in
        let found1 : IsFirstLive lane1.live n (suc a) next = record {
          live = ground (arith, gone next, onward.at_or_after, onward.live);
          at_or_after = onward.at_or_after;
          within = onward.within;
          first = λ j l h. ground (arith, gone j, onward.first j l h);
        } in
        let (lane', rest, w) =
          close_interval-Worked fuel hi lane1 (suc a) next v1 found1 lt
            (omega (arith, enough, onward.at_or_after)) in
        let still : (j : ℕ) → lane.live.removed j ≡ true → lane'.live.removed j ≡ true =
          λ j r. w.kept j (ground (arith, gone j, r)) in
        (
          lane',
          interval_onward fuel hi lane a lane1 lane' next t made rest,
          record {
            lane_after = w.lane_after;
            kept = still;
            grown = λ e r. w.grown e (ground (arith, marked e, r));
            done = λ j h. elim (leb-cases (suc a) j) [
              | inl after ↦ w.done j (ground (arith, after.0, h))
              | inr before ↦ elim (Bool-cases (a == j)) [
                | inl same ↦ w.kept j (ground (arith, gone j, same))
                | inr other ↦
                    still j (
                      found.first j (ground (arith, h)) (ground (arith, other, before.0, before.1)))
              ]
            ];
            sound = λ P base own e r.
                w.sound P
                  (λ i h. elim (or-cases (lane.reachable i) (ends a i) (sym (marked i) ∙ h)) [
                    | inl old ↦ base i old
                    | inr new ↦ own a i (ground (arith, t, found.at_or_after)) new
                  ])
                  (λ j i h. own j i (ground (arith, h, found.at_or_after))) e r;
          },
        )
  ]
