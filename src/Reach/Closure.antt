-- ===== src/Reach/Closure.antt =====
-- The prepass marks just the notes that a chain of activations and regions reaches.
use ro_beats_calculator_engi.Common.{
  ℕ, zero, suc, ◌<◌, ◌≡◌, ◌↔◌, refl, ap, subst, Bool, true, false, some, List, if◌then◌else◌, ◌⊎◌,
  inl, inr, arith, Bool-cases,
}
use ro_beats_calculator_engi.Common.Options.{◌>>=◌}
use ro_beats_calculator_engi.Successors.{Successors}
use ro_beats_calculator_engi.Successors.Live.{AreSuccessors}
use ro_beats_calculator_engi.Reach.{
  Prepass, Plan, mark_range, in_region, visit_before, closure_loops,
}
use ro_beats_calculator_engi.Reach.States.{
  Kind, perfect_kind, late_kind, lane, unchanged-Advanced, both-Advanced,
}
use ro_beats_calculator_engi.Reach.Visits.{
  ends, region_ends, state_activations, first_activations, IsMarked, Lanes, Steps, in_region_lem,
  regions_plain, skip_visit, visit_lem, first_actions_lem,
}

-- A note that a section can start at, or the end of the song.
pub data IsReached (plan : Plan) (actions : List (ℕ × Bool)) : ℕ → Type 0 where
  song_end : IsReached plan actions plan.n
  first_region : (e : ℕ) → region_ends plan 0 e ≡ true → IsReached plan actions e
  first_activation :
      (k : Kind) (j e : ℕ)
      → first_activations plan actions k j ≡ true
      → ends plan k j e ≡ true
      → IsReached plan actions e
  later_region :
      (s e : ℕ)
      → s < plan.n
      → IsReached plan actions s
      → region_ends plan (suc s) e ≡ true
      → IsReached plan actions e
  later_activation :
      (s : ℕ) (k : Kind) (j e : ℕ)
      → s < plan.n
      → IsReached plan actions s
      → state_activations plan s k j ≡ true
      → ends plan k j e ≡ true
      → IsReached plan actions e

-- Fevers end after their activations, and regions after the start of their section.
pub record IsForward (plan : Plan) : Type 0 where
  pub activation_ends :
      (k : Kind) (s j e : ℕ) → state_activations plan s k j ≡ true → ends plan k j e ≡ true → s < e
  pub later_region_ends : (s e : ℕ) → region_ends plan (suc s) e ≡ true → s < e

module _ (plan : Plan) (marked : IsMarked plan) (forward : IsForward plan) where
  -- The states before one are visited.
  record Visited (count : ℕ) (p p' : Prepass) : Type 1 where
    lanes : Lanes plan marked p'
    kept : (k : Kind) (j : ℕ) → (lane k p).live.removed j ≡ true → (lane k p').live.removed j ≡ true
    grown : (e : ℕ) → p.reachable e ≡ true → p'.reachable e ≡ true
    done :
        (s : ℕ) (k : Kind) (j : ℕ)
        → s < count
        → p'.reachable s ≡ true
        → state_activations plan s k j ≡ true
        → (lane k p').live.removed j ≡ true
    region_done :
        (s e : ℕ)
        → s < count
        → p'.reachable s ≡ true
        → region_ends plan (suc s) e ≡ true
        → p'.reachable e ≡ true
    sound :
        (P : ℕ → Type 0)
        → ((e : ℕ) → p.reachable e ≡ true → P e)
        → ((s : ℕ) (k : Kind) (j e : ℕ)
            → s < count
            → P s
            → state_activations plan s k j ≡ true
            → ends plan k j e ≡ true
            → P e)
        → ((s e : ℕ) → s < count → P s → region_ends plan (suc s) e ≡ true → P e)
        → (e : ℕ) → p'.reachable e ≡ true
        → P e

  none-Visited : (p : Prepass) → Lanes plan marked p → Visited 0 p p
  none-Visited p v = record {
    lanes = v;
    kept = λ k j h. h;
    grown = λ e h. h;
    done = λ s k j lt. absurd (omega (arith, lt));
    region_done = λ s e lt. absurd (omega (arith, lt));
    sound = λ P base own area. base;
  }

  skip-Visited :
      (count : ℕ) (p p' : Prepass)
      → Visited count p p'
      → p'.reachable count ≡ false
      → Visited (suc count) p p'
  skip-Visited count p p' w unmarked = record {
    lanes = w.lanes;
    kept = w.kept;
    grown = w.grown;
    done = λ s k j lt at q. w.done s k j (earlier s lt at) at q;
    region_done = λ s e lt at q. w.region_done s e (earlier s lt at) at q;
    sound = λ P base own area.
        w.sound P base (λ s k j e lt. own s k j e (omega (arith, lt)))
          (λ s e lt. area s e (omega (arith, lt)));
  }
    where
      earlier : (s : ℕ) → s < suc count → p'.reachable s ≡ true → s < count
      earlier s lt at =
          let same : s ≡ count → p'.reachable s ≡ p'.reachable count = λ e. ap p'.reachable e in
          ground (arith, lt, at, unmarked, same)

  step-Visited :
      (count : ℕ) (p p1 p2 : Prepass)
      → Visited count p p1
      → p1.reachable count ≡ true
      → Steps plan marked (state_activations plan count) (region_ends plan (suc count)) p1 p2
      → Visited (suc count) p p2
  step-Visited count p p1 p2 w marked_count step = record {
    lanes = step.after;
    kept = λ k j h. step.kept k j (w.kept k j h);
    grown = λ e h. step.grown e (w.grown e h);
    done = λ s k j lt at q. elim (at_or_before s lt) [
      | inl here ↦ step.done k j (subst (λ i. state_activations plan i k j ≡ true) here q)
      | inr before ↦ step.kept k j (w.done s k j before (old s before at) q)
    ];
    region_done = λ s e lt at q. elim (at_or_before s lt) [
      | inl here ↦ step.region_done e (subst (λ i. region_ends plan (suc i) e ≡ true) here q)
      | inr before ↦ step.grown e (w.region_done s e before (old s before at) q)
    ];
    sound = λ P base own area.
        let earlier =
          w.sound P base (λ s k j e lt. own s k j e (omega (arith, lt)))
            (λ s e lt. area s e (omega (arith, lt))) in
        step.sound P earlier
          (λ k j e q. own count k j e (omega arith) (earlier count marked_count) q)
          (λ e q. area count e (omega arith) (earlier count marked_count) q);
  }
    where
      at_or_before : (s : ℕ) → s < suc count → (s ≡ count) ⊎ (s < count)
      at_or_before s lt = ground (arith, lt)

      old : (s : ℕ) → s < count → p2.reachable s ≡ true → p1.reachable s ≡ true
      old s lt at =
          elim (step.sound (λ e. (p1.reachable e ≡ true) ⊎ (count < e)) (λ e h. inl h)
            (λ k j e q own. inr (forward.activation_ends k count j e q own))
            (λ e q. inr (forward.later_region_ends count e q)) s at) [
              | inl h ↦ h
              | inr after ↦ absurd (omega (arith, lt, after))
            ]

  visit_before_lem :
      (count : ℕ) (p : Prepass)
      → Lanes plan marked p
      → (p' : Prepass) × (visit_before plan count p ≡ some p') × Visited count p p'
  unfolding visit_before
  visit_before_lem zero p v = (p, refl, none-Visited p v)
  visit_before_lem (suc count) p v =
      let (p1, made1, w1) = visit_before_lem count p v in
      elim (Bool-cases (p1.reachable count)) [
        | inr t ↦ (
          p1,
          rw (made1, ◌>>=◌) (skip_visit plan marked count p1 t),
          skip-Visited count p p1 w1 t,
        )
        | inl t ↦
            let (p2, made2, step) = visit_lem plan marked count p1 w1.lanes t in
            (p2, rw (made1, ◌>>=◌) made2, step-Visited count p p1 p2 w1 t step)
      ]

  -- The regions of the first section, if there are any.
  abbrev with_regions : Prepass → Prepass
  with_regions p = if plan.use_forced_great_timing then in_region plan 0 p else p

  with_regions_lem :
      (p : Prepass)
      → Lanes plan marked p
      → Steps plan marked (λ k j. false) (region_ends plan 0) p (with_regions p)
  with_regions_lem p v = go plan.use_forced_great_timing refl
    where
      go :
          (forced : Bool)
          → plan.use_forced_great_timing ≡ forced
          → Steps plan marked
              (λ k j. false)
              (region_ends plan 0)
              p
              (if forced then in_region plan 0 p else p)
      go true t = in_region_lem plan marked 0 p v t
      go false t =
          both-Advanced plan.n (ends plan) (λ k j. false) (λ k j. false) (λ k j. false) (λ e. false)
            (λ e. false) (region_ends plan 0) p p p (λ k j. refl)
            (λ e. regions_plain plan marked 0 e t) (unchanged-Advanced plan.n (ends plan) p v)
            (unchanged-Advanced plan.n (ends plan) p v)

  abbrev start : Successors → Successors → Prepass
  start perfect late = record {
    perfect = perfect;
    late = late;
    reachable = mark_range (λ e. false) plan.n plan.n;
    max_eg_width = 0;
  }

  start-Lanes :
      (perfect late : Successors)
      → ((j : ℕ) → perfect.removed j ≡ false)
      → ((j : ℕ) → late.removed j ≡ false)
      → Lanes plan marked (start perfect late)
  unfolding lane
  start-Lanes perfect late new_perfect new_late = go
    where
      fresh_order :
          (live : Successors) → ((j : ℕ) → live.removed j ≡ false) → AreSuccessors plan.n live
      fresh_order live new i h = absurd (ground (arith, h, new i))

      go : Lanes plan marked (start perfect late)
      go perfect_kind = record {
        order = fresh_order perfect new_perfect;
        sentinel = new_perfect plan.n;
        closed = λ j e h own. absurd (ground (arith, h, new_perfect j));
      }
      go late_kind = record {
        order = fresh_order late new_late;
        sentinel = new_late plan.n;
        closed = λ j e h own. absurd (ground (arith, h, new_late j));
      }

  closed_at :
      (p : Prepass) (k : Kind) (j e : ℕ)
      → Lanes plan marked p
      → (lane k p).live.removed j ≡ true
      → ends plan k j e ≡ true
      → p.reachable e ≡ true
  unfolding lane
  closed_at p perfect_kind j e v h own = (v perfect_kind).closed j e h own
  closed_at p late_kind j e v h own = (v late_kind).closed j e h own

  reached_marked :
      (actions : List (ℕ × Bool)) (p0 p1 p2 p3 : Prepass)
      → p0.reachable plan.n ≡ true
      → Steps plan marked (first_activations plan actions) (λ e. false) p0 p1
      → Steps plan marked (λ k j. false) (region_ends plan 0) p1 p2
      → Visited plan.n p2 p3
      → (e : ℕ) → IsReached plan actions e
      → p3.reachable e ≡ true
  reached_marked actions p0 p1 p2 p3 last w1 w2 w3 _ song_end =
      w3.grown plan.n (w2.grown plan.n (w1.grown plan.n last))
  reached_marked actions p0 p1 p2 p3 last w1 w2 w3 _ (first_region e q) =
      w3.grown e (w2.region_done e q)
  reached_marked actions p0 p1 p2 p3 last w1 w2 w3 _ (first_activation k j e q own) =
      closed_at p3 k j e w3.lanes (w3.kept k j (w2.kept k j (w1.done k j q))) own
  reached_marked actions p0 p1 p2 p3 last w1 w2 w3 _ (later_region s e lt before q) =
      w3.region_done s e lt (reached_marked actions p0 p1 p2 p3 last w1 w2 w3 s before) q
  reached_marked actions p0 p1 p2 p3 last w1 w2 w3 _ (later_activation s k j e lt before q own) =
      closed_at p3 k j e w3.lanes
        (w3.done s k j lt (reached_marked actions p0 p1 p2 p3 last w1 w2 w3 s before) q) own

  -- From fresh successors the loops end, and a note is marked just when it is reached.
  pub closure_loops_lem :
      (actions : List (ℕ × Bool)) (perfect late : Successors)
      → ((j : ℕ) → perfect.removed j ≡ false)
      → ((j : ℕ) → late.removed j ≡ false)
      → (p : Prepass) × (closure_loops plan actions perfect late ≡ some p)
        × ((e : ℕ) → (p.reachable e ≡ true) ↔ IsReached plan actions e)
  unfolding closure_loops
  closure_loops_lem actions perfect late new_perfect new_late =
      let v0 = start-Lanes perfect late new_perfect new_late in
      let (p1, made1, w1) = first_actions_lem plan marked actions (start perfect late) v0 in
      let w2 = with_regions_lem p1 w1.after in
      let (p3, made3, w3) = visit_before_lem plan.n (with_regions p1) w2.after in
      let outward = λ (e : ℕ).
        w3.sound (IsReached plan actions)
          (w2.sound (IsReached plan actions)
            (w1.sound (IsReached plan actions)
              (λ i h. subst (IsReached plan actions) (ground (arith, h)) song_end) first_activation
              (λ i h. absurd (ground (arith, h))))
            (λ k j i h. absurd (ground (arith, h))) first_region)
          (λ s k j i lt r q own. later_activation s k j i lt r q own)
          (λ s i lt r q. later_region s i lt r q) e in
      let inward =
        reached_marked actions (start perfect late) p1 (with_regions p1) p3 (ground arith) w1 w2
          w3 in
      (p3, rw (made1, ◌>>=◌) made3, λ e. (outward e, inward e))
