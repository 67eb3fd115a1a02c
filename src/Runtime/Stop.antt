-- ===== src/Runtime/Stop.antt =====
-- gear_optimizer/app_stop_control.py: graceful and forced stops.
--
-- Time is `time.monotonic()` in milliseconds and an argument of the call, as is whether the stop
-- file exists and whether the call is on the main thread. What a call does beside the state is an
-- effect: whether it read the file system, whether it printed the stop message, and whether it raised
-- KeyboardInterrupt.
use ro_beats_calculator_engi.Common.{
  ℕ, ◌+◌, ◌≤◌, ◌≡◌, Bool, true, false, not, ◌||◌, List, [], ◌∷◌, if◌then◌else◌, leb, arith,
  Bool-cases, inl, inr,
}

abbrev pub stop_file_poll : ℕ
stop_file_poll = 1000

pub record StopController : Type 0 where
  pub stop_requested : Bool
  pub force_exit_requested : Bool
  pub signal_handlers_installed : Bool
  pub next_check : ℕ
  pub present_cache : Bool

pub record Effect : Type 0 where
  pub read_file : Bool
  pub printed : Bool
  pub raised : Bool

unfoldable pub init : StopController
init = record {
  stop_requested = false;
  force_exit_requested = false;
  signal_handlers_installed = false;
  next_check = 0;
  present_cache = false;
}

unfoldable pub request_stop : StopController → Bool → StopController × Effect
request_stop c force = (
  record c { stop_requested = true; force_exit_requested = force || c.force_exit_requested },
  record { read_file = false; printed = not c.stop_requested; raised = force },
)

-- The file check: `os.path.exists`, and the next time for one.
unfoldable pub poll : StopController → ℕ → Bool → StopController
poll c now exists = record c { present_cache = exists; next_check = now + stop_file_poll }

-- The controller after the call, whether a stop is requested, and the effect.
unfoldable pub stop_requested_now : StopController → ℕ → Bool → StopController × Bool × Effect
unfolding request_stop poll
stop_requested_now c now exists =
    let due = leb c.next_check now in
    let c' = if due then poll c now exists else c in
    if c.stop_requested
    then (c, true, record { read_file = false; printed = false; raised = false })
    else if c'.present_cache
    then ((request_stop c' false).0, true, record (request_stop c' false).1 { read_file = due })
    else (c', c'.stop_requested, record { read_file = due; printed = false; raised = false })

-- `_handler`: the first signal asks, the second forces.
unfoldable pub handler : StopController → StopController × Effect
unfolding request_stop
handler c = if c.stop_requested then request_stop c true else request_stop c false

unfoldable pub install_signal_handlers : StopController → Bool → StopController
install_signal_handlers c on_main_thread =
    if c.signal_handlers_installed
    then c
    else if on_main_thread
    then record c { signal_handlers_installed = true }
    else c

pub data Event : Type 0 where
  request : Bool → Event
  check : ℕ → Bool → Event
  signal : Event
  install : Bool → Event

unfoldable pub step : StopController → Event → StopController × Effect
unfolding request_stop stop_requested_now handler install_signal_handlers
step c (request force) = request_stop c force
step c (check now exists) = let r = stop_requested_now c now exists in (r.0, r.2)
step c signal = handler c
step c (install on_main_thread) = (
  install_signal_handlers c on_main_thread,
  record { read_file = false; printed = false; raised = false },
)

unfoldable pub run : StopController → List Event → StopController
unfolding step
run c [] = c
run c (e ∷ es) = run (step c e).0 es

-- How many of the calls printed the stop message.
unfoldable pub prints : StopController → List Event → ℕ
prints c [] = 0
prints c (e ∷ es) = (if (step c e).1.printed then 1 else 0) + prints (step c e).0 es

-- The times at which the calls read the file system.
unfoldable pub read_times : StopController → List Event → List ℕ
read_times c [] = []
read_times c (check now exists ∷ es) =
    let rest = read_times (step c (check now exists)).0 es in
    if (step c (check now exists)).1.read_file then now ∷ rest else rest
read_times c (e ∷ es) = read_times (step c e).0 es

abbrev pub bit_of : Bool → ℕ
bit_of b = if b then 1 else 0

step-prints :
    (c : StopController) (e : Event)
    → bit_of (step c e).1.printed + bit_of c.stop_requested ≡ bit_of (step c e).0.stop_requested
unfolding step
step-prints c (request force) = ground arith
step-prints c (check now exists) = ground arith
step-prints c signal = ground arith
step-prints c (install b) = ground arith

-- Over any history the stop message is printed exactly once if a stop was requested, and never
-- otherwise; a request is never withdrawn.
pub prints-run :
    (c : StopController) (es : List Event)
    → prints c es + bit_of c.stop_requested ≡ bit_of (run c es).stop_requested
unfolding prints run
prints-run c [] = omega arith
prints-run c (e ∷ es) = omega (arith, step-prints c e, prints-run (step c e).0 es)

step-forced :
    (c : StopController) (e : Event)
    → (c.force_exit_requested ≡ true → (step c e).0.force_exit_requested ≡ true)
      × (c.stop_requested ≡ true → (step c e).0.stop_requested ≡ true)
unfolding step
step-forced c (request force) = ground arith
step-forced c (check now exists) = ground arith
step-forced c signal = ground arith
step-forced c (install b) = ground arith

pub run-stop_requested :
    (c : StopController) (es : List Event)
    → c.stop_requested ≡ true
    → (run c es).stop_requested ≡ true
unfolding run
run-stop_requested c [] h = h
run-stop_requested c (e ∷ es) h = run-stop_requested (step c e).0 es ((step-forced c e).1 h)

first_signal : (c : StopController) → (step c signal).0.stop_requested ≡ true
unfolding step
first_signal c = ground arith

forced :
    (c : StopController)
    → c.stop_requested ≡ true
    → ((step c signal).1.raised ≡ true) × ((step c signal).0.force_exit_requested ≡ true)
unfolding step
forced c h = ground arith

gentle : (c : StopController) → (step c signal).1.raised ≡ c.stop_requested
unfolding step
gentle c = ground arith

-- The second signal forces: after a signal and any other calls, a further signal raises
-- KeyboardInterrupt and requests the forced exit; the first one raises only if a stop was already
-- requested.
pub signal_twice :
    (c : StopController) (es : List Event)
    → ((step (run (step c signal).0 es) signal).1.raised ≡ true)
      × ((step (run (step c signal).0 es) signal).0.force_exit_requested ≡ true)
      × ((step c signal).1.raised ≡ c.stop_requested)
signal_twice c es =
    let stopped = run-stop_requested (step c signal).0 es (first_signal c) in
    let (raised, exits) = forced (run (step c signal).0 es) stopped in (raised, exits, gentle c)

-- Consecutive times are at least a poll interval apart, the first not before `from`.
abbrev pub Spaced : ℕ → List ℕ → Type 0
Spaced from [] = Unit
Spaced from (t ∷ ts) = (from ≤ t) × Spaced (t + stop_file_poll) ts

step-next_check : (c : StopController) (e : Event) → c.next_check ≤ (step c e).0.next_check
unfolding step
step-next_check c (request force) = ground arith
step-next_check c (check now exists) = ground arith
step-next_check c signal = ground arith
step-next_check c (install b) = ground arith

Spaced-weaken : (a b : ℕ) (ts : List ℕ) → a ≤ b → Spaced b ts → Spaced a ts
Spaced-weaken a b [] h s = tt
Spaced-weaken a b (t ∷ ts) h s = (omega (arith, s.0), s.1)

step-read :
    (c : StopController) (now : ℕ) (exists : Bool)
    → (step c (check now exists)).1.read_file ≡ true
    → (c.next_check ≤ now) × ((step c (check now exists)).0.next_check ≡ now + stop_file_poll)
unfolding step
step-read c now exists h = ground arith

-- However often the main loop asks, the stop file is looked for at most once in a poll interval.
pub read_times-Spaced :
    (c : StopController) (es : List Event) → Spaced c.next_check (read_times c es)
unfolding read_times
read_times-Spaced c [] = tt
read_times-Spaced c (check now exists ∷ es) =
    let c' = (step c (check now exists)).0 in
    let rest = read_times-Spaced c' es in
    elim (Bool-cases (step c (check now exists)).1.read_file) [
      | inl t ↦ let (due, next) = step-read c now exists t in rw t (due, rw next at rest)
      | inr t ↦ rw t (
          Spaced-weaken c.next_check c'.next_check (read_times c' es)
            (step-next_check c (check now exists)) rest)
    ]
read_times-Spaced c (request f ∷ es) =
    let e = request f in
    Spaced-weaken c.next_check (step c e).0.next_check (read_times (step c e).0 es)
      (step-next_check c e) (read_times-Spaced (step c e).0 es)
read_times-Spaced c (signal ∷ es) =
    Spaced-weaken c.next_check (step c signal).0.next_check (read_times (step c signal).0 es)
      (step-next_check c signal) (read_times-Spaced (step c signal).0 es)
read_times-Spaced c (install b ∷ es) =
    let e = install b in
    Spaced-weaken c.next_check (step c e).0.next_check (read_times (step c e).0 es)
      (step-next_check c e) (read_times-Spaced (step c e).0 es)
