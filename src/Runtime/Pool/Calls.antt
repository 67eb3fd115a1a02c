-- ===== src/Runtime/Pool/Calls.antt =====
-- Whole histories of a pool, from its construction on, and what a submission answers.
use ro_beats_calculator_engi.Common.{
  if◌then◌else◌, ℕ, ◌*◌, ◌<◌, ◌≡◌, refl, Bool, true, false, Option, none, some, List, [], ◌∷◌,
  Result, err, ok, runtime_error, length, arith, Bool-cases, inl, inr, leb-cases,
}
use ro_beats_calculator_engi.Runtime.Pool.{
  started, Pool, start_generation, finish_generation, replace_generation, accept_task, resubmit,
  try_submit, submit, shutdown, Call, call_submit, call_shutdown, step, run, Executors, allow,
  allow_all, view, IsPool, make_pool,
}
use ro_beats_calculator_engi.Runtime.Pool.Allowed.{
  IsAllowed, IsAllowed-nothing, IsAllowed-append, finish-allowed, finish-idle, replaced_lem,
  submit-IsStep,
}

finish-empty :
    (p : Pool) → p.executor ≡ true → length (finish_generation p).0.generation_futures ≡ 0
unfolding finish_generation
finish-empty p x = ground (arith, x)

shutdown-IsPool :
    (p : Pool) → IsPool p → IsAllowed p (shutdown p).1 (shutdown p).0 × IsPool (shutdown p).0
unfolding shutdown
shutdown-IsPool p v = elim (Bool-cases p.closed) [
  | inl c ↦ simp c (IsAllowed-nothing p, v)
  | inr c ↦
      let q : Pool = record p { closed = true } in
      let x : q.executor ≡ true = ground (arith, c, v.in_use) in
      let (same, closed, idle) = finish-idle q in
      let none_left = finish-empty q x in
      simp c (
        record { allowed = finish-allowed q x; same_capacity = same },
        record {
          capacity = omega (arith, same, v.capacity);
          bounded = omega (arith, none_left);
          in_use = ground (arith, closed, idle);
          drained = λ e. none_left;
        },
      )
]

step-IsPool :
    (p : Pool) (c : Call) → IsPool p → IsAllowed p (step p c).1 (step p c).0 × IsPool (step p c).0
unfolding step
step-IsPool p (call_submit first second) v =
    let s = submit-IsStep p first second v in (s.kept, s.valid)
step-IsPool p call_shutdown v = shutdown-IsPool p v

run-IsPool :
    (p : Pool) (cs : List Call)
    → IsPool p
    → IsAllowed p (run p cs).1 (run p cs).0 × IsPool (run p cs).0
unfolding run
run-IsPool p [] v = (IsAllowed-nothing p, v)
run-IsPool p (c ∷ cs) v =
    let q = (step p c).0 in
    let (here, valid) = step-IsPool p c v in
    let (rest, valid') = run-IsPool q cs valid in
    (IsAllowed-append p q (run q cs).0 (step p c).1 (run q cs).1 here rest, valid')

mul_positive : (m n : ℕ) → 0 < m → 0 < n → 0 < m * n
mul_positive m n h k = grind arith

abbrev pub no_executor : Executors
no_executor = record { live = false; tasks = 0; waiting = false }

-- A pool of at least one worker and one task per worker is constructed, and whatever is submitted
-- to it, broken executors and a shutdown in between included, the actions are ones that the
-- executors allow: never two at a time, at most workers times tasks submissions to each, and none
-- shut down before its tasks were waited for. The pool ends well formed; closed, it has no executor.
pub run-allow_all :
    (max_workers max_tasks_per_worker : ℕ) (calls : List Call)
    → 0 < max_workers
    → 0 < max_tasks_per_worker
    → (p : Pool) × (make_pool max_workers max_tasks_per_worker ≡ ok (p, started ∷ []))
      × (allow_all (max_workers * max_tasks_per_worker) no_executor (started ∷ (run p calls).1)
          ≡ some (view (run p calls).0))
      × IsPool (run p calls).0
unfolding make_pool start_generation allow_all allow
run-allow_all max_workers max_tasks_per_worker calls h k =
    let p : Pool = record {
      generation_capacity = max_workers * max_tasks_per_worker;
      closed = false;
      executor = true;
      generation_futures = [];
    } in
    let v : IsPool p = record {
      capacity = mul_positive max_workers max_tasks_per_worker h k;
      bounded = omega arith;
      in_use = refl;
      drained = λ e. refl;
    } in
    let (allowed, valid) = run-IsPool p calls v in (p, ground (arith, h, k), allowed.allowed, valid)

-- What `submit` answers.
abbrev pub answer : Bool → Option ℕ → Option ℕ → Result ℕ
answer true first second = err runtime_error
answer false (some future) second = ok future
answer false none (some future) = ok future
answer false none none = err runtime_error

resubmit-answer : (p : Pool) (second : Option ℕ) → (resubmit p second).2 ≡ answer false none second
unfolding resubmit accept_task
resubmit-answer p none = refl
resubmit-answer p (some future) = refl

try_submit-answer :
    (p : Pool) (first second : Option ℕ)
    → p.executor ≡ true
    → (try_submit p first second).2 ≡ answer false first second
unfolding try_submit accept_task
try_submit-answer p (some future) second x = ground (arith, x)
try_submit-answer p none second x = simp x (resubmit-answer (replace_generation p).0 second)

-- On a well-formed pool a submission raises RuntimeError and does nothing if the pool was shut
-- down. Otherwise its result is the future of the first executor that takes it, and it raises only
-- if the executor and its replacement were both broken, however full the generation was.
pub submit-answer :
    (p : Pool) (first second : Option ℕ)
    → IsPool p
    → ((submit p first second).2 ≡ answer p.closed first second)
      × ((if p.closed then (submit p first second).1 else []) ≡ [])
unfolding submit
submit-answer p first second v = elim (Bool-cases p.closed) [
  | inl c ↦ simp c (refl, refl)
  | inr c ↦
      let x : p.executor ≡ true = ground (arith, c, v.in_use) in
      let (unclosed, used, same, empty) = replaced_lem p in
      let here = try_submit-answer p first second x in
      let replaced = try_submit-answer (replace_generation p).0 first second used in
      elim (leb-cases p.generation_capacity (length p.generation_futures)) [
        | inl (t, l) ↦ simp (c, t) (replaced, refl)
        | inr (t, l) ↦ simp (c, t) (here, refl)
      ]
]
