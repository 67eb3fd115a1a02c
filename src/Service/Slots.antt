-- ===== src/Service/Slots.antt =====
-- `_solve_slot`, `_drain_solves` and `_resume_solves`: a place in the pool and the gate before a solve.
--
-- The threads are counted: how many places are free, how many threads hold one at the gate and how many
-- solve. An event is what one thread does under the lock, so a history of the service is a list of events.
use ro_beats_calculator_engi.Common.{
  ℕ, suc, ◌+◌, ◌-◌, ◌*◌, ◌≤◌, ◌<◌, ◌≡◌, ◌↔◌, ◌⊎◌, refl, Bool, true, false, not, ◌&&◌, List, [], ◌∷◌,
  ltb, ◌==◌, if◌then◌else◌, arith,
}

-- `_MIN_FREE_BYTES`
abbrev pub min_free_bytes : ℕ
min_free_bytes = 3000 * 1024 * 1024

pub record Slots : Type 0 where
  pub permits : ℕ
  pub gate : ℕ
  pub active_solves : ℕ
  pub draining : Bool

-- A thread takes a permit, samples the free memory at the gate, or ends its solve; the updater drains or resumes.
pub data Event : Type 0 where
  enter : Event
  sample : ℕ → Event
  leave : Event
  drain : Event
  resume : Event

-- What the thread of an event does then; nothing where there is no such thread.
pub data Outcome : Type 0 where
  nothing waiting admitted refused ended : Outcome

-- The `while` at the gate and what follows it, for one sample of the memory.
unfoldable pub pass_gate : Slots → ℕ → Slots × Outcome
pass_gate s free =
    if not s.draining && ltb 0 s.active_solves && ltb free min_free_bytes
    then (s, waiting)
    else if s.draining
    then (record s { gate = s.gate - 1; permits = s.permits + 1 }, refused)
    else (record s { gate = s.gate - 1; active_solves = s.active_solves + 1 }, admitted)

unfoldable pub step : Slots → Event → Slots × Outcome
step s enter =
    if s.permits == 0
    then (s, waiting)
    else (record s { permits = s.permits - 1; gate = s.gate + 1 }, waiting)
step s (sample free) = if s.gate == 0 then (s, nothing) else pass_gate s free
step s leave =
    if s.active_solves == 0
    then (s, nothing)
    else (record s { active_solves = s.active_solves - 1; permits = s.permits + 1 }, ended)
step s drain = (record s { draining = true }, nothing)
step s resume = (record s { draining = false }, nothing)

unfoldable pub run : Slots → List Event → Slots
run s [] = s
run s (e ∷ es) = run (step s e).0 es

-- The service as it starts: every place free.
abbrev pub idle : ℕ → Slots
idle solve_pool = record { permits = solve_pool; gate = 0; active_solves = 0; draining = false }

-- How many solves end, and whether nobody resumes.
unfoldable pub leaves : List Event → ℕ
leaves [] = 0
leaves (leave ∷ es) = suc (leaves es)
leaves (_ ∷ es) = leaves es

unfoldable pub resumes : List Event → Bool
resumes [] = false
resumes (resume ∷ es) = true
resumes (_ ∷ es) = resumes es

step-total :
    (s : Slots) (e : Event)
    → (step s e).0.permits + (step s e).0.gate + (step s e).0.active_solves
      ≡ s.permits + s.gate + s.active_solves
unfolding step pass_gate
step-total s enter = ground arith
step-total s (sample free) = ground arith
step-total s leave = ground arith
step-total s drain = refl
step-total s resume = refl

run-total :
    (s : Slots) (es : List Event)
    → (run s es).permits + (run s es).gate + (run s es).active_solves
      ≡ s.permits + s.gate + s.active_solves
unfolding run
run-total s [] = refl
run-total s (e ∷ es) = omega (arith, run-total (step s e).0 es, step-total s e)

-- Whatever the threads do, no place of the pool is lost or made: the free ones, the threads at the gate and
-- the solves that run are as many as the pool has, so no more solves run.
pub run-solve_pool :
    (solve_pool : ℕ) (es : List Event)
    → let s = run (idle solve_pool) es in
      (s.permits + s.gate + s.active_solves ≡ solve_pool) × (s.active_solves ≤ solve_pool)
run-solve_pool solve_pool es =
    (omega (arith, run-total (idle solve_pool) es), omega (arith, run-total (idle solve_pool) es))

-- While the service drains, a step never raises the number of solves, and an end lowers it.
drain-step :
    (s : Slots) (e : Event) (es : List Event)
    → s.draining ≡ true
    → resumes (e ∷ es) ≡ false
    → s.active_solves ≤ leaves (e ∷ es)
    → ((step s e).0.draining ≡ true)
      × (resumes es ≡ false)
      × ((step s e).0.active_solves ≤ leaves es)
unfolding step pass_gate leaves resumes
drain-step s enter es t h le = ground (arith, t, h, le)
drain-step s (sample free) es t h le = ground (arith, t, h, le)
drain-step s leave es t h le = ground (arith, t, h, le)
drain-step s drain es t h le = (refl, h, le)
drain-step s resume es t h le = absurd (ground (arith, h))

drained :
    (s : Slots) (es : List Event)
    → s.draining ≡ true
    → resumes es ≡ false
    → s.active_solves ≤ leaves es
    → ((run s es).draining ≡ true) × ((run s es).active_solves ≡ 0)
unfolding run leaves
drained s [] t h le = (t, omega (arith, le))
drained s (e ∷ es) t h le =
    let (t', h', le') = drain-step s e es t h le in drained (step s e).0 es t' h' le'

-- A drain ends: whatever state it is called in, once as many solves have ended as ran at the call, none runs,
-- however other threads enter, pass or wait at the gate in between, unless somebody resumes; so the wait of
-- the updater is over.
pub run-drain :
    (s : Slots) (es : List Event)
    → resumes es ≡ false
    → s.active_solves ≤ leaves es
    → (run s (drain ∷ es)).active_solves ≡ 0
unfolding run step
run-drain s es h le = (drained (record s { draining = true }) es refl h le).1

-- While some thread is at the gate: a solve starts just if the service does not drain and either no other
-- solve runs or the memory suffices, the thread is refused just if the service drains, and its
-- permit is then free again.
pub pass_gate_lem :
    (s : Slots) (free : ℕ)
    → 0 < s.gate
    → let (s', outcome) = step s (sample free) in
      ((outcome ≡ admitted)
        ↔ ((s.draining ≡ false) × ((s.active_solves ≡ 0) ⊎ (min_free_bytes ≤ free))))
      × ((outcome ≡ refused) ↔ (s.draining ≡ true))
      × (s'.permits ≡ (if s.draining then suc s.permits else s.permits))
unfolding step pass_gate
pass_gate_lem s free lt = ground (arith, lt)
