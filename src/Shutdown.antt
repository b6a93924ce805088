-- ===== src/Shutdown.antt =====
-- src/main.cpp behind the start: the threads that run the I/O service, the signals, and the end of
-- `main`; `remove_pid` of src/daemon.cpp. The threads interleave: a relation says which steps a state
-- allows.
pub mod Sound
pub mod Ends
pub mod Restart
use shadyurl.Common.{
  ℕ, zero, suc, ◌≤◌, ◌≡◌, Bool, true, false, ◌||◌, Option, none, some, List, [], ◌∷◌, ◌++◌, Bytes,
  length, if◌then◌else◌,
}
use shadyurl.ServerState.{ServerState}
use shadyurl.Startup.{Host, extra_threads}

-- Where the main thread is: in the loop that starts threads, with the number that is left; in
-- `ioc.run()`; before `remove_pid()`; at the `join` of the thread at a position; or behind `main`. Or an
-- exception that nothing catches has ended the process.
pub data Stage : Type 0 where
  starting : ℕ → Stage
  running : Stage
  removing : Stage
  joining : ℕ → Stage
  exited : Stage
  aborted : Stage

-- The threads of `v` in their order, `true` for one that is in `ioc.run()`.
pub record Threads : Type 0 where
  pub stage : Stage
  pub workers : List Bool
  pub stopped : Bool
  pub pid_file : Option Bytes

abbrev pub in_run : ℕ → List Bool → Bool
in_run i [] = false
in_run zero (w ∷ ws) = w
in_run (suc i) (w ∷ ws) = in_run i ws

abbrev pub finish : ℕ → List Bool → List Bool
finish i [] = []
finish zero (w ∷ ws) = false ∷ ws
finish (suc i) (w ∷ ws) = w ∷ finish i ws

abbrev pub is_running : Stage → Bool
is_running running = true
is_running _ = false

-- Whether a thread is in `ioc.run()`.
abbrev pub served : Stage → List Bool → Bool
served stage [] = is_running stage
served stage (w ∷ ws) = w || served stage ws

-- `std::terminate` ends the process with all of its threads.
abbrev pub terminate : Threads → Threads
terminate s = record s { stage = aborted; workers = [] }

-- `remove_pid`: whether the process may unlink the file; the result is not looked at.
unfoldable pub remove_pid : Bool → Option Bytes → Option Bytes
remove_pid may file = if may then none else file

-- Behind `v.reserve`, with the number in the PID file.
unfoldable pub prepared : Host → ServerState → Option Bytes → Threads
prepared host state pid_file = record {
  stage = starting (extra_threads host state);
  workers = [];
  stopped = false;
  pid_file = pid_file;
}

-- `may` says whether the process may unlink the PID file.
pub data Step (may : Bool) : Threads → Threads → Type 0 where
  -- one more `v.emplace_back`
  emplace :
      (s : Threads) (n : ℕ)
      → s.stage ≡ starting (suc n)
      → Step may s (record s { stage = starting n; workers = s.workers ++ true ∷ [] })
  -- the constructor of `std::thread` throws, or `v.reserve` before the first, for want of memory or of
  -- threads
  emplace_throws : (s : Threads) (n : ℕ) → s.stage ≡ starting (suc n) → Step may s (terminate s)
  -- a handler throws, in one of the threads that are in `ioc.run()`
  handler_throws : (s : Threads) → served s.stage s.workers ≡ true → Step may s (terminate s)
  -- the end of the loop
  run : (s : Threads) → s.stage ≡ starting zero → Step may s (record s { stage = running })
  -- SIGINT or SIGTERM: the handler, in one of the threads, calls `ioc.stop()`
  signal :
      (s : Threads)
      → s.stopped ≡ false
      → served s.stage s.workers ≡ true
      → Step may s (record s { stopped = true })
  -- `ioc.run()` returns in a thread of `v`
  worker_returns :
      (s : Threads) (i : ℕ)
      → s.stopped ≡ true
      → in_run i s.workers ≡ true
      → Step may s (record s { workers = finish i s.workers })
  -- `ioc.run()` returns in the main thread
  main_returns :
      (s : Threads)
      → s.stopped ≡ true
      → s.stage ≡ running
      → Step may s (record s { stage = removing })
  remove :
      (s : Threads)
      → s.stage ≡ removing
      → Step may s (record s { stage = joining 0; pid_file = remove_pid may s.pid_file })
  -- `t.join()` returns
  join :
      (s : Threads) (i : ℕ)
      → s.stage ≡ joining i
      → suc i ≤ length s.workers
      → in_run i s.workers ≡ false
      → Step may s (record s { stage = joining (suc i) })
  -- `return EXIT_SUCCESS`
  leave :
      (s : Threads)
      → s.stage ≡ joining (length s.workers)
      → Step may s (record s { stage = exited })

-- Any number of steps.
pub data Steps (may : Bool) : ℕ → Threads → Threads → Type 0 where
  still : {s : Threads} → Steps may zero s s
  then_step : {n : ℕ} {s t u : Threads} → Steps may n s t → Step may t u → Steps may (suc n) s u
