-- ===== src/Tests/Sockets.antt =====
-- A connection over SSL whose client goes silent.
use shadyurl.Common.{
  ℕ, ◌+◌, ◌≤◌, ◌≡◌, refl, true, false, none, some, List, [], ◌∷◌, codes, length, c_str,
}
use shadyurl.Log.{ErrorCode, info, fail}
use shadyurl.Session.{write, read, on_request, on_read_error, on_write_error, step}
use shadyurl.Network.{NetEvent, ssl, serving, on_run, on_detect, on_handshake, in_session}
use shadyurl.Stream.{
  expires_after, async_detect_ssl, async_handshake, async_read, async_write, Socket, fresh_socket,
  socket_run, outstanding,
}
use shadyurl.Stream.Paced.{Paced}
use shadyurl.Stream.Held.{socket_run_bounds}
use shadyurl.Stream.Freed.{socket_run-outstanding}

abbrev timed_out : ErrorCode
timed_out = record { stream_truncated = false; message = codes "timeout" }

abbrev asked_once : List (NetEvent ℕ × ErrorCode)
asked_once =
    (on_run, timed_out)
    ∷ (on_detect false (1 ∷ 2 ∷ []) true, timed_out)
    ∷ (on_handshake false 2, timed_out)
    ∷ (in_session (on_request 7), timed_out)
    ∷ []

abbrev both_wait : Socket ℕ
both_wait = record {
  conn = record {
    stage = serving ssl (record {
      items = 7 ∷ [];
      reading = true;
      writing = some 7;
      log = read ∷ write 7 ∷ read ∷ [];
    });
    buffer = [];
  };
  calls =
      expires_after 30
      ∷ async_detect_ssl
      ∷ expires_after 30
      ∷ async_handshake
      ∷ expires_after 30
      ∷ async_read
      ∷ async_write 7
      ∷ expires_after 30
      ∷ async_read
      ∷ [];
  shutting = 0;
  lines = [];
}

asked_once-run : socket_run asked_once fresh_socket ≡ some both_wait
unfolding socket_run step
asked_once-run = refl

socket_run_bounds_example :
    (outstanding both_wait.conn.stage both_wait.shutting + length both_wait.lines ≤ 2)
    × Paced both_wait.calls
socket_run_bounds_example = socket_run_bounds asked_once both_wait asked_once-run

abbrev silent : List (NetEvent ℕ × ErrorCode)
silent = (in_session on_read_error, timed_out) ∷ (in_session on_write_error, timed_out) ∷ []

abbrev gone : Socket ℕ
gone = record both_wait {
  conn = record {
    stage = serving ssl (record {
      items = 7 ∷ [];
      reading = false;
      writing = none;
      log = read ∷ write 7 ∷ read ∷ [];
    });
    buffer = [];
  };
  lines =
      record { priority = info; text = codes "read: timeout" }
      ∷ record { priority = info; text = codes "write: timeout" }
      ∷ [];
}

silent-run : socket_run silent both_wait ≡ some gone
unfolding socket_run step fail c_str
silent-run = refl

socket_run-outstanding_example :
    outstanding gone.conn.stage gone.shutting + length silent
    ≡ outstanding both_wait.conn.stage both_wait.shutting
socket_run-outstanding_example =
    socket_run-outstanding silent both_wait gone (refl, (refl, tt)) silent-run
