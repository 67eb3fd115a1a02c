-- ===== src/Service/Solves/Workers.antt =====
-- A process that failed is never asked again.
use mathlib.Core.Option.{some-injective}
use ro_beats_calculator_engi.Common.{
  ℕ, suc, ◌≤◌, ◌<◌, ◌≡◌, refl, sym, ◌∙◌, Bool, true, false, ◌&&◌, ltb, none, some, List, [], ◌∷◌,
  All, if◌then◌else◌, arith, Bool-cases, Option-cases, inl, inr,
}
use ro_beats_calculator_engi.Service.Solves.{
  SolveWorker, current_process, Reply, stops, request, disconnected, timed_out, failed, loadouts,
}

-- Requests one after another, by whether the process still runs and what it replies: the processes asked.
unfoldable pub requests : List (Bool × Reply) → SolveWorker → List (ℕ × Reply)
requests [] w = []
requests ((still_runs, reply) ∷ rest) w =
    let (after, p) = request still_runs (λ p. reply) w in (p, reply) ∷ requests rest after

-- The process of a worker has a number from a bound on and below the next.
record IsWorker (bound : ℕ) (w : SolveWorker) : Type 0 where
  numbered : (p : ℕ) → w.proc ≡ some p → (bound ≤ p) × (p < w.next_proc)
  bounded : bound ≤ w.next_proc

-- In a list of requests, a process that was stopped comes in no later one.
abbrev pub all_above : ℕ → List (ℕ × Reply) → Bool
all_above p [] = true
all_above p ((q, reply) ∷ rest) = ltb p q && all_above p rest

-- The replies after which a process is of no use: it is gone, it is late, or it asks for a restart.
unfoldable pub broken : Reply → Bool
broken disconnected = true
broken timed_out = true
broken (failed restart) = restart
broken loadouts = false

abbrev pub AreSeparate : List (ℕ × Reply) → Type 0
AreSeparate [] = Unit
AreSeparate ((p, reply) ∷ rest) =
    ((if broken reply then all_above p rest else true) ≡ true) × AreSeparate rest

all_above-All :
    (p : ℕ) (rest : List (ℕ × Reply))
    → All (λ (q : ℕ × Reply). suc p ≤ q.0) rest
    → all_above p rest ≡ true
all_above-All p [] h = refl
all_above-All p ((q, reply) ∷ rest) h = ground (arith, h.0, all_above-All p rest h.1)

stops-broken : (reply : Reply) → stops reply ≡ broken reply
unfolding broken
stops-broken disconnected = refl
stops-broken timed_out = refl
stops-broken (failed restart) = refl
stops-broken loadouts = refl

-- The process asked, and the worker after a request.
record IsAsked (bound : ℕ) (reply : Reply) (outcome : SolveWorker × ℕ) : Type 0 where
  above : bound ≤ outcome.1
  kept : stops reply ≡ false → IsWorker outcome.1 outcome.0
  left : stops reply ≡ true → IsWorker (suc outcome.1) outcome.0

started-IsAsked :
    (bound p : ℕ) (reply : Reply) (w : SolveWorker)
    → w.proc ≡ some p
    → bound ≤ p
    → p < w.next_proc
    → IsAsked bound reply (if stops reply then record w { proc = none } else w, p)
started-IsAsked bound p reply w at le lt = elim (Bool-cases (stops reply)) [
  | inl t ↦ rw t (record {
    above = le;
    kept = λ off. absurd (ground (arith, off));
    left = λ on. record { numbered = λ q h. absurd (ground (arith, h)); bounded = lt };
  })
  | inr t ↦ rw t (record {
    above = le;
    kept = λ off. record {
      numbered = λ q h.
          let same : p ≡ q = some-injective p q (sym at ∙ h) in
          (omega (arith, same), omega (arith, same, lt));
      bounded = omega (arith, lt);
    };
    left = λ on. absurd (ground (arith, on));
  })
]

request-IsAsked :
    (bound : ℕ) (still_runs : Bool) (reply : Reply) (w : SolveWorker)
    → IsWorker bound w
    → IsAsked bound reply (request still_runs (λ p. reply) w)
unfolding request current_process
request-IsAsked bound still_runs reply w v = elim (Option-cases w.proc) [
  | inl m ↦
      rw (request, current_process, m)
        (started-IsAsked bound w.next_proc reply
          (record { proc = some w.next_proc; next_proc = suc w.next_proc }) refl v.bounded
          (omega arith))
  | inr m ↦ elim (Bool-cases still_runs) [
    | inl t ↦
        rw (request, current_process, m.1, t)
          (started-IsAsked bound m.0 reply w m.1 (v.numbered m.0 m.1).0 (v.numbered m.0 m.1).1)
    | inr t ↦
        rw (request, current_process, m.1, t)
          (started-IsAsked bound w.next_proc reply
            (record { proc = some w.next_proc; next_proc = suc w.next_proc }) refl v.bounded
            (omega arith))
  ]
]

weaker : (bound lower : ℕ) (w : SolveWorker) → lower ≤ bound → IsWorker bound w → IsWorker lower w
weaker bound lower w le v = record {
  numbered = λ p h. (omega (arith, le, (v.numbered p h).0), (v.numbered p h).1);
  bounded = omega (arith, le, v.bounded);
}

requests-above :
    (bound : ℕ) (rest : List (Bool × Reply)) (w : SolveWorker)
    → IsWorker bound w
    → All (λ (q : ℕ × Reply). bound ≤ q.0) (requests rest w) × AreSeparate (requests rest w)
unfolding requests
requests-above bound [] w v = (tt, tt)
requests-above bound ((still_runs, reply) ∷ rest) w v =
    let asked = request-IsAsked bound still_runs reply w v in
    let after = (request still_runs (λ p. reply) w).0 in
    let p = (request still_runs (λ p. reply) w).1 in
    elim (Bool-cases (broken reply)) [
      | inl t ↦
          let (high, separate) =
            requests-above (suc p) rest after (asked.left (stops-broken reply ∙ t)) in
          let (low, _) = requests-above bound rest after (
            weaker (suc p) bound after (omega (arith, asked.above))
              (asked.left (stops-broken reply ∙ t))) in
          ((asked.above, low), (rw t (all_above-All p (requests rest after) high), separate))
      | inr t ↦
          let (low, separate) =
            requests-above bound rest after
              (weaker p bound after asked.above (asked.kept (stops-broken reply ∙ t))) in
          ((asked.above, low), (rw t refl, separate))
    ]

-- A worker that starts without a process never asks a process again that it could not write to, that did not
-- answer in time or that asked for a restart: every later request goes to a process started later.
pub requests-AreSeparate :
    (rest : List (Bool × Reply))
    → AreSeparate (requests rest (record { proc = none; next_proc = 0 }))
requests-AreSeparate rest =
    (requests-above 0 rest (record { proc = none; next_proc = 0 })
      (record { numbered = λ p h. absurd (ground (arith, h)); bounded = omega arith })).1
