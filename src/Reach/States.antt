-- ===== src/Reach/States.antt =====
-- What a step of the prepass does, of either kind of activation.
use ro_beats_calculator_engi.Common.{
  ℕ, ◌≡◌, refl, sym, ap, subst, ◌∙◌, Bool, true, false, ◌||◌, Option, some, inl, inr, arith,
}
use ro_beats_calculator_engi.Successors.Live.{AreSuccessors}
use ro_beats_calculator_engi.Reach.{Lane, Prepass, in_perfect, in_late}
use ro_beats_calculator_engi.Reach.Lanes.{IsLane, Worked, or-cases}

pub data Kind : Type 0 where
  perfect_kind : Kind
  late_kind : Kind

unfoldable pub lane : Kind → Prepass → Lane
lane perfect_kind p = record { live = p.perfect; reachable = p.reachable; width = p.max_eg_width }
lane late_kind p = record { live = p.late; reachable = p.reachable; width = p.max_eg_width }

-- A choice of activations of one kind.
unfoldable pub only : Kind → (ℕ → Bool) → Kind → ℕ → Bool
only perfect_kind q perfect_kind = q
only perfect_kind q late_kind = λ j. false
only late_kind q perfect_kind = λ j. false
only late_kind q late_kind = q

-- The chosen activations were closed, the chosen ends marked, and nothing else was.
pub record Advanced (n : ℕ) (ends : Kind → ℕ → ℕ → Bool) (q : Kind → ℕ → Bool) (region : ℕ → Bool)
    (p p' : Prepass) : Type 1 where
  pub after : (k : Kind) → IsLane n (ends k) (lane k p')
  pub kept :
      (k : Kind) (j : ℕ) → (lane k p).live.removed j ≡ true → (lane k p').live.removed j ≡ true
  pub grown : (e : ℕ) → p.reachable e ≡ true → p'.reachable e ≡ true
  pub done : (k : Kind) (j : ℕ) → q k j ≡ true → (lane k p').live.removed j ≡ true
  pub region_done : (e : ℕ) → region e ≡ true → p'.reachable e ≡ true
  pub sound :
      (P : ℕ → Type 0)
      → ((e : ℕ) → p.reachable e ≡ true → P e)
      → ((k : Kind) (j e : ℕ) → q k j ≡ true → ends k j e ≡ true → P e)
      → ((e : ℕ) → region e ≡ true → P e)
      → (e : ℕ) → p'.reachable e ≡ true
      → P e

module _ (n : ℕ) (ends : Kind → ℕ → ℕ → Bool) where
  pub unchanged-Advanced :
      (p : Prepass)
      → ((k : Kind) → IsLane n (ends k) (lane k p))
      → Advanced n ends (λ k j. false) (λ e. false) p p
  unchanged-Advanced p v = record {
    after = v;
    kept = λ k j r. r;
    grown = λ e r. r;
    done = λ k j h. absurd (ground (arith, h));
    region_done = λ e h. absurd (ground (arith, h));
    sound = λ P base own area. base;
  }

  pub both-Advanced :
      (q1 q2 q : Kind → ℕ → Bool) (r1 r2 r : ℕ → Bool) (p p1 p2 : Prepass)
      → ((k : Kind) (j : ℕ) → q k j ≡ (q1 k j || q2 k j))
      → ((e : ℕ) → r e ≡ (r1 e || r2 e))
      → Advanced n ends q1 r1 p p1
      → Advanced n ends q2 r2 p1 p2
      → Advanced n ends q r p p2
  both-Advanced q1 q2 q r1 r2 r p p1 p2 both both_r w1 w2 = record {
    after = w2.after;
    kept = λ k j h. w2.kept k j (w1.kept k j h);
    grown = λ e h. w2.grown e (w1.grown e h);
    done = λ k j h. elim (or-cases (q1 k j) (q2 k j) (sym (both k j) ∙ h)) [
      | inl first ↦ w2.kept k j (w1.done k j first)
      | inr second ↦ w2.done k j second
    ];
    region_done = λ e h. elim (or-cases (r1 e) (r2 e) (sym (both_r e) ∙ h)) [
      | inl first ↦ w2.grown e (w1.region_done e first)
      | inr second ↦ w2.region_done e second
    ];
    sound = λ P base own area.
        w2.sound P
          (w1.sound P base (λ k j e h. own k j e (ground (arith, both k j, h)))
            (λ e h. area e (ground (arith, both_r e, h))))
          (λ k j e h. own k j e (ground (arith, both k j, h)))
          (λ e h. area e (ground (arith, both_r e, h)));
  }

  lane_grown :
      (ends_k : ℕ → ℕ → Bool) (l l' : Lane)
      → IsLane n ends_k l
      → l'.live ≡ l.live
      → ((e : ℕ) → l.reachable e ≡ true → l'.reachable e ≡ true)
      → IsLane n ends_k l'
  lane_grown ends_k l l' v same grown =
      let at = λ (j : ℕ). ap (λ s. s.removed j) same in
      record {
        order = subst (λ s. AreSuccessors n s) (sym same) v.order;
        sentinel = at n ∙ v.sentinel;
        closed = λ j e h own. grown e (v.closed j e (sym (at j) ∙ h) own);
      }

  pub in_perfect-Advanced :
      (work : Lane → Option Lane) (p : Prepass) (l : Lane) (q : ℕ → Bool)
      → ((k : Kind) → IsLane n (ends k) (lane k p))
      → work (lane perfect_kind p) ≡ some l
      → Worked n (ends perfect_kind) q (lane perfect_kind p) l
      → (p' : Prepass) × (in_perfect work p ≡ some p')
        × Advanced n ends (only perfect_kind q) (λ e. false) p p'
  unfolding lane only
  in_perfect-Advanced work p l q v made w = (
    record p { perfect = l.live; reachable = l.reachable; max_eg_width = l.width },
    rw made refl,
    record {
      after = after;
      kept = kept;
      grown = w.grown;
      done = done;
      region_done = λ e h. absurd (ground (arith, h));
      sound = λ P base own area. w.sound P base (own perfect_kind);
    },
  )
    where
      after :
          (k : Kind)
          → IsLane n (ends k) (
              lane k
                (record p { perfect = l.live; reachable = l.reachable; max_eg_width = l.width }))
      after perfect_kind = w.lane_after
      after late_kind = lane_grown (ends late_kind) (lane late_kind p) _ (v late_kind) refl w.grown

      kept :
          (k : Kind) (j : ℕ)
          → (lane k p).live.removed j ≡ true
          → (lane k (record p {
            perfect = l.live;
            reachable = l.reachable;
            max_eg_width = l.width;
          })).live.removed
              j
            ≡ true
      kept perfect_kind = w.kept
      kept late_kind = λ j h. h

      done :
          (k : Kind) (j : ℕ)
          → only perfect_kind q k j ≡ true
          → (lane k (record p {
            perfect = l.live;
            reachable = l.reachable;
            max_eg_width = l.width;
          })).live.removed
              j
            ≡ true
      done perfect_kind = w.done
      done late_kind = λ j h. absurd (ground (arith, h))

  pub in_late-Advanced :
      (work : Lane → Option Lane) (p : Prepass) (l : Lane) (q : ℕ → Bool)
      → ((k : Kind) → IsLane n (ends k) (lane k p))
      → work (lane late_kind p) ≡ some l
      → Worked n (ends late_kind) q (lane late_kind p) l
      → (p' : Prepass) × (in_late work p ≡ some p')
        × Advanced n ends (only late_kind q) (λ e. false) p p'
  unfolding lane only
  in_late-Advanced work p l q v made w = (
    record p { late = l.live; reachable = l.reachable; max_eg_width = l.width },
    rw made refl,
    record {
      after = after;
      kept = kept;
      grown = w.grown;
      done = done;
      region_done = λ e h. absurd (ground (arith, h));
      sound = λ P base own area. w.sound P base (own late_kind);
    },
  )
    where
      after :
          (k : Kind)
          → IsLane n
              (ends k)
              (lane k (record p { late = l.live; reachable = l.reachable; max_eg_width = l.width }))
      after late_kind = w.lane_after
      after perfect_kind =
          lane_grown (ends perfect_kind) (lane perfect_kind p) _ (v perfect_kind) refl w.grown

      kept :
          (k : Kind) (j : ℕ)
          → (lane k p).live.removed j ≡ true
          → (lane k (record p {
            late = l.live;
            reachable = l.reachable;
            max_eg_width = l.width;
          })).live.removed
              j
            ≡ true
      kept late_kind = w.kept
      kept perfect_kind = λ j h. h

      done :
          (k : Kind) (j : ℕ)
          → only late_kind q k j ≡ true
          → (lane k (record p {
            late = l.live;
            reachable = l.reachable;
            max_eg_width = l.width;
          })).live.removed
              j
            ≡ true
      done late_kind = w.done
      done perfect_kind = λ j h. absurd (ground (arith, h))

  pub region-Advanced :
      (p p' : Prepass) (region : ℕ → Bool)
      → ((k : Kind) → IsLane n (ends k) (lane k p))
      → p'.perfect ≡ p.perfect
      → p'.late ≡ p.late
      → ((e : ℕ) → p'.reachable e ≡ (p.reachable e || region e))
      → Advanced n ends (λ k j. false) region p p'
  unfolding lane
  region-Advanced p p' region v same_perfect same_late marked = record {
    after = λ k.
        lane_grown (ends k) (lane k p) (lane k p') (v k) (live_same k) (λ e h. lane_marked k e h);
    kept = λ k j h. ap (λ s. s.removed j) (live_same k) ∙ h;
    grown = λ e h. ground (arith, marked e, h);
    done = λ k j h. absurd (ground (arith, h));
    region_done = λ e h. ground (arith, marked e, h);
    sound = λ P base own area e h. elim (or-cases (p.reachable e) (region e) (sym (marked e) ∙ h)) [
      | inl old ↦ base e old
      | inr new ↦ area e new
    ];
  }
    where
      live_same : (k : Kind) → (lane k p').live ≡ (lane k p).live
      live_same perfect_kind = same_perfect
      live_same late_kind = same_late

      lane_marked :
          (k : Kind) (e : ℕ) → (lane k p).reachable e ≡ true → (lane k p').reachable e ≡ true
      lane_marked perfect_kind e h = ground (arith, marked e, h)
      lane_marked late_kind e h = ground (arith, marked e, h)
