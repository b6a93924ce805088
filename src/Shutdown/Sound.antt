-- ===== src/Shutdown/Sound.antt =====
-- Where every run of the process stands, whichever thread moves: which threads were started and which
-- have returned, the signal and the PID file at each stage of `main`.
use shadyurl.Common.{
  ℕ, zero, suc, ◌+◌, ◌≤◌, ◌≡◌, refl, ap, ◌∙◌, Bool, true, false, Option, List, [], ◌∷◌, ◌++◌, Bytes,
  length, length-append, if◌then◌else◌, arith, inl, ◌⊎◌, inr,
}
use shadyurl.Shutdown.{
  Stage, starting, running, removing, joining, exited, aborted, Threads, served, in_run, finish,
  remove_pid, Step, emplace, emplace_throws, handler_throws, run, signal, worker_returns,
  main_returns, remove, join, leave, Steps, still, then_step,
}

-- The threads of `v` that are in `ioc.run()`.
abbrev pub live : List Bool → ℕ
live [] = 0
live (w ∷ ws) = (if w then 1 else 0) + live ws

-- The first threads of `v`, of the given number, have returned.
abbrev pub Done : ℕ → List Bool → Type 0
Done zero ws = Unit
Done (suc i) [] = ⊥
Done (suc i) (w ∷ ws) = (w ≡ false) × Done i ws

pub live-append : (ws : List Bool) → live (ws ++ true ∷ []) ≡ suc (live ws)
live-append [] = omega arith
live-append (w ∷ ws) = omega (arith, live-append ws)

pub live-finish : (i : ℕ) (ws : List Bool) → in_run i ws ≡ true → live ws ≡ suc (live (finish i ws))
live-finish i [] h = cc
live-finish zero (w ∷ ws) h = ground arith
live-finish (suc i) (w ∷ ws) h = omega (arith, live-finish i ws h)

pub length-finish : (i : ℕ) (ws : List Bool) → length (finish i ws) ≡ length ws
length-finish i [] = refl
length-finish zero (w ∷ ws) = refl
length-finish (suc i) (w ∷ ws) = ap suc (length-finish i ws)

Done-finish : (k i : ℕ) (ws : List Bool) → Done k ws → Done k (finish i ws)
Done-finish zero i ws h = tt
Done-finish (suc k) i [] h = h
Done-finish (suc k) zero (w ∷ ws) (e, h) = (refl, h)
Done-finish (suc k) (suc i) (w ∷ ws) (e, h) = (e, Done-finish k i ws h)

Done-suc :
    (k : ℕ) (ws : List Bool) → suc k ≤ length ws → in_run k ws ≡ false → Done k ws → Done (suc k) ws
Done-suc k [] l e h = absurd (omega arith)
Done-suc zero (w ∷ ws) l e h = (e, tt)
Done-suc (suc k) (w ∷ ws) l e (d, h) = (d, Done-suc k ws (omega arith) e h)

pub Done-le : (k : ℕ) (ws : List Bool) → Done k ws → k ≤ length ws
Done-le zero ws h = omega arith
Done-le (suc k) [] h = absurd h
Done-le (suc k) (w ∷ ws) (e, h) = omega (arith, Done-le k ws h)

Done-live : (ws : List Bool) → Done (length ws) ws → live ws ≡ 0
Done-live [] h = refl
Done-live (w ∷ ws) (e, h) = ground (arith, Done-live ws h)

-- Where every run of a process with `total` extra threads and the given PID file stands.
module _ (may : Bool) (total : ℕ) (file : Option Bytes) where
  abbrev StageSound : Stage → List Bool → Bool → Option Bytes → Type 0
  StageSound (starting n) ws stopped pid = (length ws + n ≡ total) × (pid ≡ file)
  StageSound running ws stopped pid = (length ws ≡ total) × (pid ≡ file)
  StageSound removing ws stopped pid = (length ws ≡ total) × (pid ≡ file) × (stopped ≡ true)
  StageSound (joining i) ws stopped pid =
      (length ws ≡ total) × (pid ≡ remove_pid may file) × (stopped ≡ true) × Done i ws
  StageSound exited ws stopped pid =
      (length ws ≡ total) × (pid ≡ remove_pid may file) × (stopped ≡ true) × (live ws ≡ 0)
  StageSound aborted ws stopped pid = (pid ≡ file) ⊎ (pid ≡ remove_pid may file)

  abbrev pub IsSound : Threads → Type 0
  IsSound s = StageSound s.stage s.workers s.stopped s.pid_file

  finish-StageSound :
      (i : ℕ) (stage : Stage) (ws : List Bool) (stopped : Bool) (pid : Option Bytes)
      → in_run i ws ≡ true
      → StageSound stage ws stopped pid
      → StageSound stage (finish i ws) stopped pid
  finish-StageSound i (starting n) ws stopped pid r h = ground (arith, length-finish i ws)
  finish-StageSound i running ws stopped pid r h = ground (arith, length-finish i ws)
  finish-StageSound i removing ws stopped pid r h = ground (arith, length-finish i ws)
  finish-StageSound i (joining k) ws stopped pid r (l, p, st, d) =
      (length-finish i ws ∙ l, p, st, Done-finish k i ws d)
  finish-StageSound i exited ws stopped pid r (l, p, st, d) =
      absurd (omega (arith, live-finish i ws r))
  finish-StageSound i aborted ws stopped pid r h = h

  signal-StageSound :
      (stage : Stage) (ws : List Bool) (stopped : Bool) (pid : Option Bytes)
      → StageSound stage ws stopped pid
      → StageSound stage ws true pid
  signal-StageSound (starting n) ws stopped pid h = h
  signal-StageSound running ws stopped pid h = h
  signal-StageSound removing ws stopped pid (l, p, st) = (l, p, refl)
  signal-StageSound (joining k) ws stopped pid (l, p, st, d) = (l, p, refl, d)
  signal-StageSound exited ws stopped pid (l, p, st, d) = (l, p, refl, d)
  signal-StageSound aborted ws stopped pid h = h

  pub at_stage :
      (stage : Stage) (s : Threads)
      → s.stage ≡ stage
      → IsSound s
      → StageSound stage s.workers s.stopped s.pid_file
  at_stage stage s e h = rw e at h

  -- The PID file is there while a handler runs.
  served-pid :
      (stage : Stage) (ws : List Bool) (stopped : Bool) (pid : Option Bytes)
      → served stage ws ≡ true
      → StageSound stage ws stopped pid
      → (pid ≡ file) ⊎ (pid ≡ remove_pid may file)
  served-pid (starting n) ws stopped pid r h = inl h.1
  served-pid running ws stopped pid r h = inl h.1
  served-pid removing ws stopped pid r h = inl h.1
  served-pid (joining i) ws stopped pid r h = inr h.1
  served-pid exited ws stopped pid r h = inr h.1
  served-pid aborted ws stopped pid r h = h

  Step-IsSound : {s t : Threads} → Step may s t → IsSound s → IsSound t
  Step-IsSound (emplace s n e) h =
      let k = at_stage (starting (suc n)) s e h in
      ground (arith, k, length-append s.workers (true ∷ []))
  Step-IsSound (emplace_throws s n e) h = inl ((at_stage (starting (suc n)) s e h).1)
  Step-IsSound (handler_throws s r) h = served-pid s.stage s.workers s.stopped s.pid_file r h
  Step-IsSound (run s e) h = let k = at_stage (starting zero) s e h in (omega (arith, k.0), k.1)
  Step-IsSound (signal s e r) h = signal-StageSound s.stage s.workers s.stopped s.pid_file h
  Step-IsSound (worker_returns s i e r) h =
      finish-StageSound i s.stage s.workers s.stopped s.pid_file r h
  Step-IsSound (main_returns s e st) h = let (l, p) = at_stage running s st h in (l, p, e)
  Step-IsSound (remove s e) h =
      let (l, p, st) = at_stage removing s e h in (l, ap (remove_pid may) p, st, tt)
  Step-IsSound (join s i e l r) h =
      let (n, p, st, d) = at_stage (joining i) s e h in (n, p, st, Done-suc i s.workers l r d)
  Step-IsSound (leave s e) h =
      let (n, p, st, d) = at_stage (joining (length s.workers)) s e h in
      (n, p, st, Done-live s.workers d)

  pub Steps-IsSound : {n : ℕ} {s t : Threads} → Steps may n s t → IsSound s → IsSound t
  Steps-IsSound still h = h
  Steps-IsSound (then_step st e) h = Step-IsSound e (Steps-IsSound st h)
