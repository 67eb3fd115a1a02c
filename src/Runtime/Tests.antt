-- ===== src/Runtime/Tests.antt =====
-- Stop histories and pool histories at concrete inputs.
use ro_beats_calculator_engi.Common.{
  if◌then◌else◌, ◌+◌, ◌*◌, ◌≡◌, refl, true, false, none, some, List, [], ◌∷◌, ok, err, value_error,
  arith,
}
use ro_beats_calculator_engi.Runtime.Stop
use ro_beats_calculator_engi.Runtime.Pool
use ro_beats_calculator_engi.Runtime.Stop.{
  Event, request, check, signal, install, Spaced, prints, read_times, prints-run,
  run-stop_requested, signal_twice, read_times-Spaced, bit_of, init, handler, request_stop,
  stop_requested_now, install_signal_handlers, poll,
}
use ro_beats_calculator_engi.Runtime.Pool.{
  Pool, Call, call_submit, call_shutdown, make_pool, submit, allow_all, started, task_accepted,
  futures_waited, shut_down, view, IsPool, try_submit, accept_task, replace_generation,
  start_generation, finish_generation, resubmit,
}
use ro_beats_calculator_engi.Runtime.Pool.Calls.{run-allow_all, no_executor, submit-answer, answer}

-- The file appears between two polls, and a signal follows.
abbrev history : List Event
history = install true ∷ check 5 false ∷ check 7 true ∷ check 1005 true ∷ signal ∷ []

one_print : prints init history ≡ 1
unfolding prints Stop.step init handler request_stop stop_requested_now install_signal_handlers poll
one_print = refl

two_reads : read_times init history ≡ 5 ∷ 1005 ∷ []
unfolding read_times Stop.step init handler request_stop stop_requested_now install_signal_handlers
    poll
two_reads = refl

prints-run_example :
    prints init history + bit_of init.stop_requested ≡ bit_of (Stop.run init history).stop_requested
prints-run_example = prints-run init history

-- Two tasks fill a generation of one worker; the third finds a broken executor.
abbrev calls : List Call
calls =
    call_submit (some 10) none
    ∷ call_submit (some 11) none
    ∷ call_submit none (some 12)
    ∷ call_shutdown
    ∷ call_submit (some 13) none
    ∷ []

abbrev pool : Pool
pool = record {
  generation_capacity = 2;
  closed = false;
  executor = true;
  generation_futures = 10 ∷ 11 ∷ [];
}

recycled :
    (Pool.run (record pool { generation_futures = [] }) calls).1
    ≡ task_accepted ∷ task_accepted ∷ futures_waited ∷ shut_down ∷ started ∷ shut_down ∷ started
      ∷ task_accepted ∷ futures_waited ∷ shut_down ∷ []
unfolding Pool.run Pool.step submit try_submit accept_task replace_generation start_generation
    finish_generation resubmit Pool.shutdown
recycled = refl

no_workers : make_pool 0 2 ≡ err value_error
unfolding make_pool
no_workers = refl

run-allow_all_example :
    (p : Pool) × (make_pool 1 2 ≡ ok (p, started ∷ []))
    × (allow_all (1 * 2) no_executor (started ∷ (Pool.run p calls).1)
        ≡ some (view (Pool.run p calls).0))
    × IsPool (Pool.run p calls).0
run-allow_all_example = run-allow_all 1 2 calls (omega arith) (omega arith)

pool-IsPool : IsPool pool
pool-IsPool = record {
  capacity = omega arith;
  bounded = omega arith;
  in_use = refl;
  drained = λ e. ground (arith, e);
}

submit-answer_example :
    ((submit pool none (some 12)).2 ≡ answer false none (some 12))
    × ((if false then (submit pool none (some 12)).1 else []) ≡ [])
submit-answer_example = submit-answer pool none (some 12) pool-IsPool
