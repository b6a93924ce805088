-- ===== src/Shutdown/Restart.antt =====
-- Another start behind the end of a server.
use shadyurl.Common.{ℕ, ◌≤◌, ◌≡◌, Bool, true, false, some, arith, if◌then◌else◌}
use shadyurl.ServerState.{ServerState}
use shadyurl.PidFile.{pos, int_max}
use shadyurl.PidFile.Decimal.{read_int-decimal}
use shadyurl.Daemon.{check_pid}
use shadyurl.Startup.{Host, Process, failure, next, main, main_steps}
use shadyurl.Startup.Order.{main-IsStarted}
use shadyurl.Shutdown.{Threads, exited, prepared, remove_pid, Steps}
use shadyurl.Shutdown.Ends.{Steps-exited}

-- A server that was started and whose `main` has returned, on whichever way its threads took: where its
-- process may unlink the PID file, nothing is in the way of another start, which goes through its steps;
-- where it may not, as with privileges that were dropped, another start is refused exactly where `kill`
-- with the signal 0 succeeds on the number of the old one, that number being an `int`.
pub main_again :
    (host later : Host) (state other : ServerState) (s s' second : Process) (may : Bool) (n : ℕ)
    (t : Threads)
    → main host (some state) s ≡ next s'
    → Steps may n (prepared host state s'.pid_file) t
    → t.stage ≡ exited
    → host.getpid s'.proc ≤ int_max
    → second.pid_file ≡ t.pid_file
    → main later (some other) second ≡ (
        if may
        then main_steps later other second
        else if later.exists (pos (host.getpid s'.proc))
        then failure second
        else main_steps later other second)
unfolding main check_pid remove_pid
main_again host later state other s s' second true n t h steps done range same =
    let (_, _, _, file, _) = Steps-exited host state s'.pid_file true n t steps done in
    ground (arith, file)
main_again host later state other s s' second false n t h steps done range same =
    let (_, _, _, file, _) = Steps-exited host state s'.pid_file false n t steps done in
    let pid = host.getpid s'.proc in
    ground (
      arith,
      file,
      (main-IsStarted host state s s' h).recorded,
      read_int-decimal later.uninitialised pid range,
    )
