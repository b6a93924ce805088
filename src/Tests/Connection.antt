-- ===== src/Tests/Connection.antt =====
-- A session with two pipelined requests.
use shadyurl.Common.{ℕ, ◌≡◌, refl, true, false, none, some, codes, List, [], ◌∷◌, ◌++◌}
use shadyurl.Session.{
  Session, write, writes, read, eof, Event, on_request, on_read_error, on_write_error, on_written,
  run, step, started,
}
use shadyurl.Log.{ErrorCode}
use shadyurl.Session.Ends.{completions}
use shadyurl.Session.Queue.{IsValid, run-IsValid}
use shadyurl.Session.Closed.{run-closed}
use shadyurl.Session.Order.{answered, IsBusy, run-IsBusy}

abbrev two_requests : List (Event ℕ)
two_requests = on_request 1 ∷ on_request 2 ∷ on_written false ∷ []

abbrev second_left : Session ℕ
second_left = record {
  items = 2 ∷ [];
  reading = true;
  writing = some 2;
  log = read ∷ write 1 ∷ read ∷ read ∷ write 2 ∷ [];
}

two_requests-run : run two_requests started ≡ some second_left
unfolding run step
two_requests-run = refl

run-IsValid_example : IsValid 2 1 second_left
run-IsValid_example = run-IsValid two_requests second_left two_requests-run

run-IsBusy_example : IsBusy second_left
run-IsBusy_example = run-IsBusy two_requests second_left two_requests-run (tt, (tt, (refl, tt)))

abbrev reset : ErrorCode
reset = record { stream_truncated = false; message = codes "Connection reset by peer" }

abbrev broken : List (Event ℕ × ErrorCode)
broken = (on_request 1, reset) ∷ (on_read_error, reset) ∷ (on_write_error, reset) ∷ []

abbrev one_left : Session ℕ
one_left = record {
  items = 1 ∷ [];
  reading = false;
  writing = none;
  log = read ∷ write 1 ∷ read ∷ [];
}

broken-run : run (completions broken) started ≡ some one_left
unfolding run step
broken-run = refl

abbrev answering : Session ℕ
answering = record {
  items = 1 ∷ [];
  reading = true;
  writing = some 1;
  log = read ∷ write 1 ∷ read ∷ [];
}

answering-run : run (on_request 1 ∷ []) started ≡ some answering
unfolding run step
answering-run = refl

abbrev unanswered : Session ℕ
unanswered = record {
  items = 1 ∷ 2 ∷ [];
  reading = true;
  writing = none;
  log = read ∷ write 1 ∷ read ∷ eof ∷ read ∷ [];
}

unanswered-run : run (on_request 2 ∷ []) (step (on_written true) answering) ≡ some unanswered
unfolding run step
unanswered-run = refl

run-closed_example :
    (writes unanswered.log ≡ writes answering.log)
    × (unanswered.items ≡ answering.items ++ answered (on_request 2 ∷ []))
run-closed_example =
    run-closed (on_request 1 ∷ []) (on_request 2 ∷ []) answering unanswered answering-run refl
      unanswered-run
