-- ===== src/Runtime/Pool.antt =====
-- gear_optimizer/core/recycling_process_pool.py: the process pool that replaces its executor after a
-- bounded number of submissions.
--
-- The executor is concurrent.futures': a submission's outcome is an argument, the future that it gives or
-- none where it raises BrokenProcessPool. What the pool does to executors is a list of actions. The
-- lock makes each call one step; workers run elsewhere.
pub mod Allowed
pub mod Calls
use ro_beats_calculator_engi.Common.{
  ℕ, zero, suc, ◌+◌, ◌*◌, ◌≤◌, ◌<◌, ◌≡◌, refl, Bool, true, false, not, ◌&&◌, ◌||◌, Option, none,
  some, List, [], ◌∷◌, ◌++◌, Result, err, ok, raise_if, value_error, runtime_error, if◌then◌else◌,
  leb, ltb, ◌==◌, length, arith,
}

pub data Action : Type 0 where
  started task_accepted futures_waited shut_down : Action

-- The executor is there or None.
pub record Pool : Type 0 where
  pub generation_capacity : ℕ
  pub closed : Bool
  pub executor : Bool
  pub generation_futures : List ℕ

unfoldable pub start_generation : Pool → Pool × List Action
start_generation p = (record p { executor = true; generation_futures = [] }, started ∷ [])

unfoldable pub finish_generation : Pool → Pool × List Action
finish_generation p =
    if p.executor
    then (
      record p { executor = false; generation_futures = [] },
      if ltb 0 (length p.generation_futures)
          then futures_waited ∷ shut_down ∷ []
          else shut_down ∷ [],
    )
    else (p, [])

-- `__init__`
unfoldable pub make_pool : ℕ → ℕ → Result (Pool × List Action)
unfolding start_generation
make_pool max_workers max_tasks_per_worker = raise_if (ltb max_workers 1) value_error (
    raise_if (ltb max_tasks_per_worker 1) value_error (
      ok (
        start_generation (record {
          generation_capacity = max_workers * max_tasks_per_worker;
          closed = false;
          executor = false;
          generation_futures = [];
        }))))

-- `_finish_generation` and `_start_generation`
unfoldable pub replace_generation : Pool → Pool × List Action
replace_generation p =
    let f = finish_generation p in let s = start_generation f.0 in (s.0, f.1 ++ s.1)

unfoldable pub accept_task : Pool → ℕ → Pool × List Action × Result ℕ
accept_task p future = (
  record p { generation_futures = p.generation_futures ++ future ∷ [] },
  task_accepted ∷ [],
  ok future,
)

-- The submission after the generation was replaced, whose failure is the caller's.
unfoldable pub resubmit : Pool → Option ℕ → Pool × List Action × Result ℕ
resubmit p none = (p, [], err runtime_error)
resubmit p (some future) = accept_task p future

-- The submission to the current executor, replaced if it is broken. BrokenProcessPool is a
-- RuntimeError.
unfoldable pub try_submit : Pool → Option ℕ → Option ℕ → Pool × List Action × Result ℕ
try_submit p (some future) second =
    if p.executor then accept_task p future else (p, [], err runtime_error)
try_submit p none second =
    let r = replace_generation p in
    let s = resubmit r.0 second in
    if p.executor then (s.0, r.1 ++ s.1, s.2) else (p, [], err runtime_error)

unfoldable pub submit : Pool → Option ℕ → Option ℕ → Pool × List Action × Result ℕ
submit p first second =
    let r = replace_generation p in
    let s = try_submit r.0 first second in
    if p.closed
    then (p, [], err runtime_error)
    else if leb p.generation_capacity (length p.generation_futures)
    then (s.0, r.1 ++ s.1, s.2)
    else try_submit p first second

unfoldable pub shutdown : Pool → Pool × List Action
shutdown p = if p.closed then (p, []) else finish_generation (record p { closed = true })

-- The calls that a client makes.
pub data Call : Type 0 where
  call_submit : Option ℕ → Option ℕ → Call
  call_shutdown : Call

unfoldable pub step : Pool → Call → Pool × List Action
step p (call_submit first second) = let s = submit p first second in (s.0, s.1)
step p call_shutdown = shutdown p

unfoldable pub run : Pool → List Call → Pool × List Action
run p [] = (p, [])
run p (c ∷ cs) = let s = step p c in let rest = run s.0 cs in (rest.0, s.1 ++ rest.1)

-- What the executors allow: one at a time, a bounded number of tasks each, and no executor shut down
-- while a task is not waited for.
pub record Executors : Type 0 where
  pub live : Bool
  pub tasks : ℕ
  pub waiting : Bool

unfoldable pub allow : ℕ → Executors → Action → Option Executors
allow limit e started =
    if e.live then none else some (record { live = true; tasks = 0; waiting = false })
allow limit e task_accepted =
    if e.live && ltb e.tasks limit
    then some (record { live = true; tasks = suc e.tasks; waiting = true })
    else none
allow limit e futures_waited = some (record e { waiting = false })
allow limit e shut_down =
    if e.live && not e.waiting
    then some (record { live = false; tasks = 0; waiting = false })
    else none

unfoldable pub allow_all : ℕ → Executors → List Action → Option Executors
allow_all limit e [] = some e
allow_all limit e (a ∷ rest) = elim (allow limit e a) [
  | none ↦ none
  | some e' ↦ allow_all limit e' rest
]

-- The executors as the pool's state has them.
abbrev pub view : Pool → Executors
view p = record {
  live = p.executor;
  tasks = length p.generation_futures;
  waiting = ltb 0 (length p.generation_futures);
}

pub record IsPool (p : Pool) : Type 0 where
  pub capacity : 0 < p.generation_capacity
  pub bounded : length p.generation_futures ≤ p.generation_capacity
  pub in_use : p.executor ≡ not p.closed
  pub drained : p.executor ≡ false → length p.generation_futures ≡ 0
