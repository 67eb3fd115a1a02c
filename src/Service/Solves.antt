-- ===== src/Service/Solves.antt =====
-- `solve` and `_SolveWorker.request`: requests that join a running solve, and the process behind them.
--
-- A solve has its key. A thread that arrives starts the key's solve or joins it; the solve's end wakes every
-- thread that waits for it, and the entry of the key goes a step later. The history of the service is the list of
-- these events. A process is known by a number; what its pipe and its queue give is an argument.
pub mod Joined
pub mod Workers
use Prim.Native.String.{String}
use text.Mathlib.Text.{◌==◌ as str_eq}
use ro_beats_calculator_engi.Common.{
  ℕ, zero, suc, ◌+◌, Bool, true, false, Option, none, some, List, [], ◌∷◌, ◌++◌, map, length,
  if◌then◌else◌,
}
use ro_beats_calculator_engi.Common.Dict.{get, put}

-- `_InFlightSolve`, with its owner and the threads that wait for it
pub record InFlightSolve (R : Type 0) : Type 0 where
  pub owner : ℕ
  pub joined : List ℕ
  pub result : Option R

pub record InFlight (R : Type 0) : Type 0 where
  pub in_flight : List (String × InFlightSolve R)
  pub answered : List (ℕ × R)

pub data Event (R : Type 0) : Type 0 where
  arrive : ℕ → String → Event R
  finish : String → R → Event R
  remove : String → Event R

module _ {R : Type 0} where
  -- `del _in_flight[key]`
  unfoldable pub erase : String → List (String × InFlightSolve R) → List (String × InFlightSolve R)
  erase key [] = []
  erase key ((k, s) ∷ d) = elim (str_eq k key) [ true ↦ d | false ↦ (k, s) ∷ erase key d ]

  -- The first lock of `solve`, and the wait.
  unfoldable pub arrival : ℕ → String → InFlight R → InFlight R
  arrival thread key s = elim (get key s.in_flight) [
    | none ↦ record s {
      in_flight = put key (record { owner = thread; joined = []; result = none }) s.in_flight;
    }
    | some state ↦ elim state.result [
      | none ↦ record s {
        in_flight = put key (record state { joined = thread ∷ state.joined }) s.in_flight;
      }
      | some r ↦ record s { answered = (thread, r) ∷ s.answered }
    ]
  ]

  -- `state.result = ...` or `state.error = ...`, and `state.done.set()`
  unfoldable pub finished : String → R → InFlight R → InFlight R
  finished key r s = elim (get key s.in_flight) [
    | none ↦ s
    | some state ↦ elim state.result [
      | none ↦ record {
        in_flight = put key (record state { result = some r }) s.in_flight;
        answered = (state.owner, r) ∷ map (λ t. (t, r)) state.joined ++ s.answered;
      }
      | some old ↦ s
    ]
  ]

  unfoldable pub removed : String → InFlight R → InFlight R
  removed key s = elim (get key s.in_flight) [
    | none ↦ s
    | some state ↦ elim state.result [
      | none ↦ s
      | some r ↦ record s { in_flight = erase key s.in_flight }
    ]
  ]

  unfoldable pub step : InFlight R → Event R → InFlight R
  step s (arrive thread key) = arrival thread key s
  step s (finish key r) = finished key r s
  step s (remove key) = removed key s

  unfoldable pub run : InFlight R → List (Event R) → InFlight R
  run s [] = s
  run s (e ∷ es) = run (step s e) es

-- What a process answers to a request: that the line cannot be written, nothing in time, or a response.
pub data Reply : Type 0 where
  disconnected : Reply
  timed_out : Reply
  loadouts : Reply
  failed : Bool → Reply

-- `_SolveWorker`: its process, and the number of the next.
pub record SolveWorker : Type 0 where
  pub proc : Option ℕ
  pub next_proc : ℕ

-- The process that `request` writes to: the one there is, if it still runs, or a new one.
unfoldable pub current_process : Bool → SolveWorker → SolveWorker × ℕ
current_process still_runs w = elim w.proc [
  | none ↦ (record { proc = some w.next_proc; next_proc = suc w.next_proc }, w.next_proc)
  | some p ↦
      if still_runs
      then (w, p)
      else (record { proc = some w.next_proc; next_proc = suc w.next_proc }, w.next_proc)
]

-- Whether a reply makes `request` stop the process; `failed true` asks for a restart.
abbrev pub stops : Reply → Bool
stops disconnected = true
stops timed_out = true
stops loadouts = false
stops (failed restart) = restart

-- `request`: the worker after it, and the process that was asked.
unfoldable pub request : Bool → (ℕ → Reply) → SolveWorker → SolveWorker × ℕ
request still_runs reply w =
    let (started, p) = current_process still_runs w in
    (if stops (reply p) then record started { proc = none } else started, p)
