-- ===== src/Tests/Ending.antt =====
-- A server with two threads that is told to stop.
use shadyurl.Common.{
  ◌+◌, ◌*◌, ◌≤◌, ◌≡◌, ◌⊎◌, refl, true, false, none, some, [], ◌∷◌, codes, length, arith,
}
use shadyurl.Startup.{Process, extra_threads, main, main_steps}
use shadyurl.Shutdown.{
  starting, running, removing, joining, exited, Threads, remove_pid, prepared, Step, emplace, run,
  signal, worker_returns, main_returns, remove, join, leave, Steps, still, then_step, aborted,
}
use shadyurl.Shutdown.Sound.{live}
use shadyurl.Shutdown.Ends.{Steps-exited, Steps-go_on}
use shadyurl.Tests.Setup.{state}
use shadyurl.Tests.Launching.{machine, before, launched, launched-run}
use shadyurl.Shutdown.Restart.{main_again}

abbrev ended : Threads
ended = record { stage = exited; workers = false ∷ []; stopped = true; pid_file = none }

abbrev halted : Threads
halted = record {
  stage = running;
  workers = true ∷ [];
  stopped = true;
  pid_file = some (codes "1234");
}

to_halted : Steps true 3 (prepared machine state (some (codes "1234"))) halted
unfolding prepared extra_threads
to_halted =
    let s1 : Threads = record {
      stage = starting 1;
      workers = [];
      stopped = false;
      pid_file = some (codes "1234");
    } in
    let s2 : Threads = record {
      stage = starting 0;
      workers = true ∷ [];
      stopped = false;
      pid_file = some (codes "1234");
    } in
    let s3 : Threads = record {
      stage = running;
      workers = true ∷ [];
      stopped = false;
      pid_file = some (codes "1234");
    } in
    then_step (then_step (then_step still (emplace s1 0 refl)) (run s2 refl)) (signal s3 refl refl)

to_ended : Steps true 8 (prepared machine state (some (codes "1234"))) ended
unfolding remove_pid
to_ended =
    let t1 : Threads = record {
      stage = removing;
      workers = true ∷ [];
      stopped = true;
      pid_file = some (codes "1234");
    } in
    let t2 : Threads = record {
      stage = joining 0;
      workers = true ∷ [];
      stopped = true;
      pid_file = none;
    } in
    let t3 : Threads = record {
      stage = joining 0;
      workers = false ∷ [];
      stopped = true;
      pid_file = none;
    } in
    let t4 : Threads = record {
      stage = joining 1;
      workers = false ∷ [];
      stopped = true;
      pid_file = none;
    } in
    then_step
      (then_step
        (then_step
          (then_step (then_step to_halted (main_returns halted refl refl)) (remove t1 refl))
          (worker_returns t2 0 refl refl))
        (join t3 0 refl (omega arith) refl))
      (leave t4 refl)

Steps-exited_example :
    (ended.stopped ≡ true)
    × (length ended.workers ≡ extra_threads machine state)
    × (live ended.workers ≡ 0)
    × (ended.pid_file ≡ remove_pid true (some (codes "1234")))
    × (8 ≡ 3 * extra_threads machine state + 5)
Steps-exited_example = Steps-exited machine state (some (codes "1234")) true 8 ended to_ended refl

Steps-go_on_example :
    (((halted.stage ≡ exited) ⊎ (halted.stage ≡ aborted)) ⊎ ((u : Threads) × Step true halted u))
    × (3 ≤ 3 * extra_threads machine state + 5)
Steps-go_on_example = Steps-go_on machine state (some (codes "1234")) true 3 halted to_halted refl

abbrev again : Process
again = record before { pid_file = none }

main_again_example : main machine (some state) again ≡ main_steps machine state again
main_again_example =
    main_again machine machine state state before launched again true 8 ended launched-run to_ended
      refl (omega arith) refl
