-- ===== src/Shutdown/Ends.antt =====
-- The end of the process: what it leaves, and that it comes.
use shadyurl.Common.{
  ℕ, zero, suc, ◌+◌, ◌-◌, ◌*◌, ◌≤◌, ◌≡◌, ◌⊎◌, inl, inr, refl, ap, ◌∙◌, Bool, true, Option, [], ◌∷◌,
  ◌++◌, Bytes, length, length-append, if◌then◌else◌, arith, Bool-cases, ◌==◌, List,
}
use shadyurl.ServerState.{ServerState}
use shadyurl.Startup.{Host, extra_threads}
use shadyurl.Shutdown.{
  Stage, starting, running, removing, joining, exited, aborted, served, Threads, in_run, finish,
  remove_pid, prepared, Step, emplace, emplace_throws, handler_throws, run, signal, worker_returns,
  main_returns, remove, join, leave, Steps, still, then_step,
}
use shadyurl.Shutdown.Sound.{
  live, Done, Steps-IsSound, IsSound, at_stage, live-append, live-finish, Done-le, length-finish,
}

-- The steps that are left to each stage, beside the returns of the threads and the signal.
abbrev stage_left : Stage → ℕ → ℕ
stage_left (starting n) l = 3 * n + l + 4
stage_left running l = l + 3
stage_left removing l = l + 2
stage_left (joining i) l = l - i + 1
stage_left exited l = 0
stage_left aborted l = 0

abbrev left : Threads → ℕ
left s = stage_left s.stage (length s.workers) + live s.workers + (if s.stopped then 0 else 1)

served-left :
    (stage : Stage) (ws : List Bool)
    → served stage ws ≡ true
    → 1 ≤ stage_left stage (length ws) + live ws
served-left running ws h = omega arith
served-left (starting n) ws h = omega arith
served-left removing ws h = omega arith
served-left (joining i) ws h = omega arith
served-left exited [] h = cc
served-left exited (w ∷ ws) h = ground (arith, served-left exited ws)
served-left aborted [] h = cc
served-left aborted (w ∷ ws) h = ground (arith, served-left aborted ws)

module _ (may : Bool) where
  -- A step takes one from what is left, or ends the process and takes more.
  abbrev Fewer : ℕ → Threads → Threads → Type 0
  Fewer n s t = (left s ≡ n + left t) ⊎ ((t.stage ≡ aborted) × (n + left t ≤ left s))

  Step-left : {s t : Threads} → Step may s t → Fewer 1 s t
  Step-left (emplace s n e) =
      inl (ground (arith, e, live-append s.workers, length-append s.workers (true ∷ [])))
  Step-left (emplace_throws s n e) = inr (refl, ground (arith, e))
  Step-left (handler_throws s r) = inr (refl, omega (arith, served-left s.stage s.workers r))
  Step-left (run s e) = inl (ground (arith, e))
  Step-left (signal s e r) = inl (ground (arith, e))
  Step-left (worker_returns s i e r) =
      inl (ground (arith, live-finish i s.workers r, length-finish i s.workers))
  Step-left (main_returns s e st) = inl (ground (arith, st))
  Step-left (remove s e) = inl (ground (arith, e))
  Step-left (join s i e l r) = inl (ground (arith, e))
  Step-left (leave s e) = inl (ground (arith, e))

  Step-aborted : {s t : Threads} → Step may s t → s.stage ≡ aborted → t.stage ≡ aborted
  Step-aborted (emplace s n e) a = cc
  Step-aborted (emplace_throws s n e) a = refl
  Step-aborted (handler_throws s r) a = refl
  Step-aborted (run s e) a = cc
  Step-aborted (signal s e r) a = a
  Step-aborted (worker_returns s i e r) a = a
  Step-aborted (main_returns s e st) a = cc
  Step-aborted (remove s e) a = cc
  Step-aborted (join s i e l r) a = cc
  Step-aborted (leave s e) a = cc

  Fewer-next :
      (n : ℕ) (s t u : Threads) → Step may t u → Fewer n s t → Fewer 1 t u → Fewer (suc n) s u
  Fewer-next n s t u e (inl h) (inl k) = inl (omega (arith, h, k))
  Fewer-next n s t u e (inl h) (inr (a, k)) = inr (a, omega (arith, h, k))
  Fewer-next n s t u e (inr (a, h)) (inl k) = inr (Step-aborted e a, omega (arith, h, k))
  Fewer-next n s t u e (inr (a, h)) (inr (b, k)) = inr (b, omega (arith, h, k))

  Steps-left : {n : ℕ} {s t : Threads} → Steps may n s t → Fewer n s t
  Steps-left still = inl (omega arith)
  Steps-left (then_step {n} {s} {t} {u} st e) = Fewer-next n s t u e (Steps-left st) (Step-left e)

  Fewer-exited : (n : ℕ) (s t : Threads) → Fewer n s t → t.stage ≡ exited → left s ≡ n + left t
  Fewer-exited n s t (inl h) e = h
  Fewer-exited n s t (inr (a, h)) e = absurd cc

  Fewer-le : (n : ℕ) (s t : Threads) → Fewer n s t → n ≤ left s
  Fewer-le n s t (inl h) = omega (arith, h)
  Fewer-le n s t (inr (a, h)) = omega (arith, h)

module _ (may : Bool) (total : ℕ) (file : Option Bytes) where
  can_join :
      (s : Threads) (i : ℕ)
      → s.stage ≡ joining i
      → s.stopped ≡ true
      → Done i s.workers
      → (t : Threads) × Step may s t
  can_join s i e st d = elim (Bool-cases (i == length s.workers)) [
    | inl same ↦ (record s { stage = exited }, leave s (e ∙ ap joining (ground (arith, same))))
    | inr less ↦ elim (Bool-cases (in_run i s.workers)) [
      | inl busy ↦ (record s { workers = finish i s.workers }, worker_returns s i st busy)
      | inr over ↦
          let some_left : suc i ≤ length s.workers = ground (arith, less, Done-le i s.workers d) in
          (record s { stage = joining (suc i) }, join s i e some_left over)
    ]
  ]

  can_step :
      (stage : Stage) (s : Threads)
      → s.stage ≡ stage
      → s.stopped ≡ true
      → IsSound may total file s
      → ((stage ≡ exited) ⊎ (stage ≡ aborted)) ⊎ ((t : Threads) × Step may s t)
  can_step (starting (suc n)) s e st h =
      inr (record s { stage = starting n; workers = s.workers ++ true ∷ [] }, emplace s n e)
  can_step (starting zero) s e st h = inr (record s { stage = running }, run s e)
  can_step running s e st h = inr (record s { stage = removing }, main_returns s st e)
  can_step removing s e st h =
      inr (record s { stage = joining 0; pid_file = remove_pid may s.pid_file }, remove s e)
  can_step (joining i) s e st h =
      inr (can_join s i e st (at_stage may total file (joining i) s e h).3)
  can_step exited s e st h = inl (inl refl)
  can_step aborted s e st h = inl (inr refl)

module _ (host : Host) (state : ServerState) (file : Option Bytes) (may : Bool) where
  abbrev start : Threads
  start = prepared host state file

  start-left : left start ≡ 3 * extra_threads host state + 5
  unfolding prepared
  start-left = omega arith

  start-IsSound : IsSound may (extra_threads host state) file start
  unfolding prepared
  start-IsSound = (omega arith, refl)

  -- However the threads interleave: where `main` has returned, a signal came, every thread that was to
  -- be started was started and has returned, the PID file is gone if the process may unlink it and as
  -- it was otherwise, and the number of steps was three for each extra thread and five more.
  pub Steps-exited :
      (n : ℕ) (t : Threads)
      → Steps may n start t
      → t.stage ≡ exited
      → (t.stopped ≡ true)
        × (length t.workers ≡ extra_threads host state)
        × (live t.workers ≡ 0)
        × (t.pid_file ≡ remove_pid may file)
        × (n ≡ 3 * extra_threads host state + 5)
  Steps-exited n t st e =
      let (l, p, stopped, d) =
        at_stage may (extra_threads host state) file exited t e
          (Steps-IsSound may (extra_threads host state) file st start-IsSound) in
      (
        stopped,
        l,
        d,
        p,
        ground (arith, Fewer-exited may n start t (Steps-left may st) e, start-left, e, stopped, d),
      )

  -- However the threads interleave: once a signal came the process never stalls, and it ends. Unless
  -- `main` has returned, or an exception has ended the process, some thread has a step; and no run has
  -- more than three steps for each extra thread and five more.
  pub Steps-go_on :
      (n : ℕ) (t : Threads)
      → Steps may n start t
      → t.stopped ≡ true
      → (((t.stage ≡ exited) ⊎ (t.stage ≡ aborted)) ⊎ ((u : Threads) × Step may t u))
        × (n ≤ 3 * extra_threads host state + 5)
  Steps-go_on n t st stopped = (
    can_step may (extra_threads host state) file t.stage t refl stopped
        (Steps-IsSound may (extra_threads host state) file st start-IsSound),
    omega (arith, Fewer-le may n start t (Steps-left may st), start-left),
  )
