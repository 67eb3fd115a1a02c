-- ===== src/Reach/Runs.antt =====
-- What a lane does for a state's runs of fills and for the fills of the first section.
use ro_beats_calculator_engi.Common.{
  ℕ, suc, ◌+◌, ◌-◌, ◌≤◌, ◌<◌, ◌≡◌, refl, sym, ap, ◌∙◌, min, Bool, true, false, ◌&&◌, ◌||◌, some,
  List, [], ◌∷◌, leb, ◌==◌, inl, inr, arith, Bool-cases, leb-cases,
}
use ro_beats_calculator_engi.Common.Options.{◌>>=◌}
use ro_beats_calculator_engi.Successors.{Successors, successor_find}
use ro_beats_calculator_engi.Successors.Live.{IsFirstLive, successor_find-IsFirstLive}
use ro_beats_calculator_engi.Reach.{Marked, Lane, close_activation, close_runs, close_first}
use ro_beats_calculator_engi.Reach.Lanes.{
  IsMarking, IsLane, Worked, in_runs, or-cases, close_activation-Worked, close_interval-Worked,
}

-- Nothing was closed or marked.
pub unchanged-Worked :
    (n : ℕ) (ends : ℕ → ℕ → Bool) (lane : Lane)
    → IsLane n ends lane
    → Worked n ends (λ j. false) lane lane
unchanged-Worked n ends lane v = record {
  lane_after = v;
  kept = λ j r. r;
  grown = λ e r. r;
  done = λ j h. absurd (ground (arith, h));
  sound = λ P base own. base;
}

both-Worked :
    (n : ℕ) (ends : ℕ → ℕ → Bool) (q1 q2 q : ℕ → Bool) (lane lane1 lane2 : Lane)
    → ((j : ℕ) → q j ≡ (q1 j || q2 j))
    → Worked n ends q1 lane lane1
    → Worked n ends q2 lane1 lane2
    → Worked n ends q lane lane2
both-Worked n ends q1 q2 q lane lane1 lane2 both w1 w2 = record {
  lane_after = w2.lane_after;
  kept = λ j r. w2.kept j (w1.kept j r);
  grown = λ e r. w2.grown e (w1.grown e r);
  done = λ j h. elim (or-cases (q1 j) (q2 j) (sym (both j) ∙ h)) [
    | inl first ↦ w2.kept j (w1.done j first)
    | inr second ↦ w2.done j second
  ];
  sound = λ P base own.
      w2.sound P (w1.sound P base (λ j e h. own j e (ground (arith, both j, h))))
        (λ j e h. own j e (ground (arith, both j, h)));
}

-- A search of the live activations changes none.
find-Worked :
    (n : ℕ) (ends : ℕ → ℕ → Bool) (lane : Lane) (index : ℕ)
    → IsLane n ends lane
    → index ≤ n
    → (live : Successors) × (root : ℕ) × (successor_find (suc n) lane.live index
        ≡ some (live, root))
      × IsFirstLive live n index root
      × IsLane n ends (record lane { live = live })
      × Worked n ends (λ j. false) lane (record lane { live = live })
find-Worked n ends lane index v le =
    let (live, root, made, found, order, same) =
      successor_find-IsFirstLive (suc n) n lane.live index v.order le v.sentinel (omega arith) in
    let at = λ (j : ℕ). ap (λ (r : ℕ → Bool). r j) same in
    let v' : IsLane n ends (record lane { live = live }) = record {
      order = order;
      sentinel = at n ∙ v.sentinel;
      closed = λ j e r h. v.closed j e (sym (at j) ∙ r) h;
    } in
    (
      live,
      root,
      made,
      record {
        live = at root ∙ found.live;
        at_or_after = found.at_or_after;
        within = found.within;
        first = λ j lo hi. at j ∙ found.first j lo hi;
      },
      v',
      record {
        lane_after = v';
        kept = λ j r. at j ∙ r;
        grown = λ e r. r;
        done = λ j h. absurd (ground (arith, h));
        sound = λ P base own. base;
      },
    )

module _ (n : ℕ) (closure : (ℕ → Bool) → ℕ → Marked) (ends : ℕ → ℕ → Bool)
    (mk : IsMarking closure ends) where
  -- Closing a state's runs ends, closes just the activations of the runs before note n, and leaves
  -- just their ends marked besides what was marked.
  pub close_runs-Worked :
      (state : ℕ) (runs : List (ℕ × ℕ)) (lane : Lane)
      → IsLane n ends lane
      → (lane' : Lane) × (close_runs n closure state runs lane ≡ some lane')
        × Worked n ends (in_runs n state runs) lane lane'
  unfolding close_runs in_runs
  close_runs-Worked state [] lane v = (lane, refl, unchanged-Worked n ends lane v)
  close_runs-Worked state ((run_start, run_end) ∷ runs) lane v =
      elim (leb-cases n (state + run_start)) [
        | inl beyond ↦
            let (lane', made, w) = close_runs-Worked state runs lane v in
            (
              lane',
              rw (close_runs, beyond.0) made,
              both-Worked n ends (λ j. false) (in_runs n state runs)
                  (in_runs n state ((run_start, run_end) ∷ runs)) lane lane lane'
                  (λ j. ground (arith, beyond.1)) (unchanged-Worked n ends lane v) w,
            )
        | inr before ↦
            let (live, root, made, found, v1, w1) =
              find-Worked n ends lane (state + run_start) v (omega (arith, before.1)) in
            let hi = min (n - 1) (state + run_end) in
            let (lane2, made2, w2) =
              close_interval-Worked n closure ends mk (suc (suc n)) hi (record lane { live = live })
                (state + run_start) root v1 found (ground (arith, before.1)) (omega arith) in
            let (lane', made3, w3) = close_runs-Worked state runs lane2 w2.lane_after in
            (
              lane',
              rw (close_runs, before.0, made, made2) made3,
              both-Worked n ends (λ j. leb (state + run_start) j && leb j hi) (in_runs n state runs)
                  (in_runs n state ((run_start, run_end) ∷ runs)) lane lane2 lane'
                  (λ j. ground (arith, before.1))
                  (both-Worked n ends (λ j. false) (λ j. leb (state + run_start) j && leb j hi)
                    (λ j. leb (state + run_start) j && leb j hi) lane (record lane { live = live })
                    lane2 (λ j. refl) w1 w2)
                  w3,
            )
      ]

  skip_first :
      (lane : Lane) (fill root : ℕ) (live : Successors)
      → successor_find (suc n) lane.live fill ≡ some (live, root)
      → (root == fill) ≡ false
      → close_first n closure lane fill ≡ some (record lane { live = live })
  unfolding close_first
  skip_first lane fill root live made other = rw (made, ◌>>=◌, other) refl

  take_first :
      (lane lane' : Lane) (fill root next : ℕ) (live : Successors)
      → successor_find (suc n) lane.live fill ≡ some (live, root)
      → (root == fill) ≡ true
      → close_activation n closure (record lane { live = live }) fill ≡ some (lane', next)
      → close_first n closure lane fill ≡ some lane'
  unfolding close_first
  take_first lane lane' fill root next live made same closed = rw (made, ◌>>=◌, same, closed) refl

  -- The same of one fill before note n.
  pub close_first-Worked :
      (lane : Lane) (fill : ℕ)
      → IsLane n ends lane
      → fill < n
      → (lane' : Lane) × (close_first n closure lane fill ≡ some lane')
        × Worked n ends (λ j. fill == j) lane lane'
  close_first-Worked lane fill v lt =
      let (live, root, made, found, v1, w1) = find-Worked n ends lane fill v (omega (arith, lt)) in
      elim (Bool-cases (root == fill)) [
        | inr other ↦ (
          record lane { live = live },
          skip_first lane fill root live made other,
          both-Worked n ends (λ j. false) (λ j. fill == j) (λ j. fill == j) lane
              (record lane { live = live }) (record lane { live = live }) (λ j. refl) w1
              (record {
                lane_after = v1;
                kept = λ j r. r;
                grown = λ e r. r;
                done = λ j h.
                    found.first j (ground (arith, h)) (ground (arith, h, other, found.at_or_after));
                sound = λ P base own. base;
              }),
        )
        | inl same ↦
            let (lane2, next, made2, onward, gone, marked, v2) =
              close_activation-Worked n closure ends mk (record lane { live = live }) fill v1 lt in
            (
              lane2,
              take_first lane lane2 fill root next live made same made2,
              both-Worked n ends (λ j. false) (λ j. fill == j) (λ j. fill == j) lane
                  (record lane { live = live }) lane2 (λ j. refl) w1
                  (record {
                    lane_after = v2;
                    kept = λ j r. ground (arith, gone j, r);
                    grown = λ e r. ground (arith, marked e, r);
                    done = λ j h. ground (arith, gone j, h);
                    sound = λ P base own e r.
                        elim (or-cases (lane.reachable e) (ends fill e) (sym (marked e) ∙ r)) [
                          | inl old ↦ base e old
                          | inr new ↦ own fill e (ground arith) new
                        ];
                  }),
            )
      ]
