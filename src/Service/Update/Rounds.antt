-- ===== src/Service/Update/Rounds.antt =====
-- What the updater's rounds do to the service, in which order.
use Prim.Native.String.{String}
use text.Mathlib.Text.{◌==◌ as str_eq}
use text.Mathlib.TextEquality.{eq_iff}
use ro_beats_calculator_engi.Common.{
  ◌≡◌, refl, ap, ◌∙◌, sym, Bool, true, false, not, ◌||◌, Option, none, some, List, [], ◌∷◌, ◌++◌,
  Result, Error, ok, err, if◌then◌else◌, arith, Bool-cases, Result-cases, inl, inr,
}
use ro_beats_calculator_engi.Service.Update.{
  Effect, drained, resumed, fast_forwarded, restarted, refreshed_data, Answers, Updater,
  fast_forward, refresh_after, install, is_refreshed, follow, running_or, run_once, serve_forever,
}

-- Whether solves are refused after the effects, or none where a step came at a wrong time: the checkout moved or the
-- service restarted while solves could run, or Data refreshed while they were refused.
unfoldable pub refusing_after : Bool → List Effect → Option Bool
refusing_after refusing [] = some refusing
refusing_after refusing (drained ∷ es) = refusing_after true es
refusing_after refusing (resumed ∷ es) = refusing_after false es
refusing_after true (fast_forwarded c ∷ es) = refusing_after true es
refusing_after false (fast_forwarded c ∷ es) = none
refusing_after true (restarted c ∷ es) = refusing_after true es
refusing_after false (restarted c ∷ es) = none
refusing_after true (refreshed_data ∷ es) = none
refusing_after false (refreshed_data ∷ es) = refusing_after false es

unfoldable pub commit_of : Result String → Option String
commit_of (err e) = none
commit_of (ok c) = some c

-- The outcome of a round from an updater: solves are admitted again at its end unless it stops for a restart;
-- if it neither raises nor stops, Data is that of the commit; and if it raises, it was not refreshed.
pub record IsRound (commit : Option String) (u : Updater)
    (outcome : Updater × List Effect × Result (Unit {0})) : Type 0 where
  pub orderly : refusing_after false outcome.1 ≡ some outcome.0.stopped
  pub current : outcome.0.stopped ≡ false → outcome.2 ≡ ok tt → outcome.0.refreshed ≡ commit
  pub unrefreshed :
      (e : Error)
      → outcome.2 ≡ err e
      → (outcome.0.refreshed ≡ u.refreshed) × (outcome.0.stopped ≡ false)

refusing_after-append :
    (refusing middle : Bool) (es ds : List Effect)
    → refusing_after refusing es ≡ some middle
    → refusing_after refusing (es ++ ds) ≡ refusing_after middle ds
unfolding refusing_after
refusing_after-append refusing middle [] ds h = ground (arith, h)
refusing_after-append refusing middle (drained ∷ es) ds h =
    refusing_after-append true middle es ds h
refusing_after-append refusing middle (resumed ∷ es) ds h =
    refusing_after-append false middle es ds h
refusing_after-append true middle (fast_forwarded c ∷ es) ds h =
    refusing_after-append true middle es ds h
refusing_after-append false middle (fast_forwarded c ∷ es) ds h = absurd (ground (arith, h))
refusing_after-append true middle (restarted c ∷ es) ds h =
    refusing_after-append true middle es ds h
refusing_after-append false middle (restarted c ∷ es) ds h = absurd (ground (arith, h))
refusing_after-append true middle (refreshed_data ∷ es) ds h = absurd (ground (arith, h))
refusing_after-append false middle (refreshed_data ∷ es) ds h =
    refusing_after-append false middle es ds h

quiet-IsRound :
    (commit : Option String) (u : Updater) (e : Error)
    → u.stopped ≡ false
    → IsRound commit u (u, [], err e)
unfolding refusing_after
quiet-IsRound commit u e on = record {
  orderly = ap some (sym on);
  current = λ off h. absurd (ground (arith, h));
  unrefreshed = λ d h. (refl, on);
}

refresh_after-IsRound :
    (a : Answers) (commit : String) (u : Updater) (effects : List Effect)
    → u.stopped ≡ false
    → refusing_after false effects ≡ some false
    → IsRound (some commit) u (refresh_after a commit u effects)
unfolding refresh_after refusing_after
refresh_after-IsRound a commit u effects on before = elim (Result-cases a.refresh) [
  | inl m ↦ rw m.1 (record {
    orderly =
        refusing_after-append false false effects (refreshed_data ∷ []) before ∙ ap some (sym on);
    current = λ off h. absurd (ground (arith, h));
    unrefreshed = λ d h. (refl, on);
  })
  | inr m ↦ rw m.1 (record {
    orderly =
        refusing_after-append false false effects (refreshed_data ∷ []) before ∙ ap some (sym on);
    current = λ off h. refl;
    unrefreshed = λ d h. absurd (ground (arith, h));
  })
]

install-IsRound :
    (a : Answers) (head commit : String) (new_code : Bool) (u : Updater)
    → u.stopped ≡ false
    → IsRound (some commit) u (install a head commit new_code u)
unfolding install refusing_after
install-IsRound a head commit new_code u on =
    elim (Result-cases (if str_eq commit head then ok tt else fast_forward a)) [
      | inl m ↦
          rw (install, m.1)
            (record {
              orderly = ap some (sym on);
              current = λ off h. absurd (ground (arith, h));
              unrefreshed = λ d h. (refl, on);
            })
      | inr m ↦ elim (Bool-cases new_code) [
        | inl t ↦
            rw (install, m.1, t)
              (record {
                orderly = elim (Bool-cases (str_eq commit head)) [
                  | inl s ↦ rw s refl
                  | inr s ↦ rw s refl
                ];
                current = λ off h. absurd (ground (arith, off));
                unrefreshed = λ d h. absurd (ground (arith, h));
              })
        | inr t ↦
            rw (install, m.1, t)
              (refresh_after-IsRound a commit u _ on
                (elim (Bool-cases (str_eq commit head)) [ inl s ↦ rw s refl | inr s ↦ rw s refl ]))
      ]
    ]

follow-IsRound :
    (a : Answers) (head commit running : String) (u : Updater)
    → u.stopped ≡ false
    → IsRound (some commit) u (follow a head commit running u)
unfolding follow refusing_after
follow-IsRound a head commit running u on = elim (Bool-cases (is_refreshed commit u.refreshed)) [
  | inl t ↦
      rw (follow, t)
        (record {
          orderly = ap some (sym on);
          current = λ off h. refreshed_same u.refreshed t;
          unrefreshed = λ d h. absurd (ground (arith, h));
        })
  | inr t ↦ elim (Result-cases (a.changed_code running commit)) [
    | inl m ↦ rw (follow, t, m.1) (quiet-IsRound (some commit) u m.0 on)
    | inr m ↦ elim (Bool-cases (not (str_eq commit head) || m.0)) [
      | inl s ↦ rw (follow, t, m.1, s) (install-IsRound a head commit m.0 u on)
      | inr s ↦ rw (follow, t, m.1, s) (refresh_after-IsRound a commit u [] on refl)
    ]
  ]
]
  where
    refreshed_same : (r : Option String) → is_refreshed commit r ≡ true → r ≡ some commit
    refreshed_same none h = absurd (ground (arith, h))
    refreshed_same (some r) h = ap some (sym ((eq_iff commit r).0 h))

-- What is true of every round: solves are admitted again at its end, unless it stops the updater for a restart; the
-- checkout moves and the service restarts only while it admits none; Data is refreshed only while it admits them.
-- A round that ends well and does not stop leaves the Data of the commit that it read, and one that raises
-- leaves the revision that was current, so that the next round tries again.
pub run_once-IsRound :
    (a : Answers) (u : Updater) → u.stopped ≡ false → IsRound (commit_of a.commit) u (run_once a u)
unfolding run_once refusing_after commit_of
run_once-IsRound a u on = elim (Result-cases a.head) [
  | inl m ↦ rw (run_once, m.1) (quiet-IsRound (commit_of a.commit) u m.0 on)
  | inr m ↦ elim (Result-cases a.commit) [
    | inl c ↦ rw (run_once, m.1, c.1) (quiet-IsRound none u c.0 on)
    | inr c ↦
        rw (run_once, m.1, c.1)
          (started_round c.0 (running_or u.running m.0) (
            follow-IsRound a m.0 c.0 (running_or u.running m.0)
              (record u { running = some (running_or u.running m.0) }) on))
  ]
]
  where
    started_round :
        (commit running : String) {o : Updater × List Effect × Result (Unit {0})}
        → IsRound (some commit) (record u { running = some running }) o
        → IsRound (some commit) u o
    started_round commit running v = record {
      orderly = v.orderly;
      current = v.current;
      unrefreshed = v.unrefreshed;
    }

served :
    (rounds : List Answers) (u : Updater)
    → let (last, effects) = serve_forever rounds u in
      refusing_after u.stopped effects ≡ some last.stopped
unfolding serve_forever refusing_after
served [] u = refl
served (a ∷ rounds) u = elim (Bool-cases u.stopped) [
  | inl off ↦ rw (serve_forever, off) (ap some (sym off))
  | inr on ↦
      rw (serve_forever, on)
        (refusing_after-append false (run_once a u).0.stopped (run_once a u).1
            (serve_forever rounds (run_once a u).0).1 (run_once-IsRound a u on).orderly
          ∙ served rounds (run_once a u).0)
]

-- However many rounds the updater runs, and whatever git and the refresh answer: the checkout moves and the service
-- restarts only while no solve can run, Data is refreshed only while solves are admitted, and solves are
-- refused in the end just if the updater has stopped for a restart.
pub serve_forever-refusing_after :
    (rounds : List Answers) (u : Updater)
    → u.stopped ≡ false
    → let (last, effects) = serve_forever rounds u in
      refusing_after false effects ≡ some last.stopped
serve_forever-refusing_after rounds u on =
    ap (λ b. refusing_after b (serve_forever rounds u).1) (sym on) ∙ served rounds u
