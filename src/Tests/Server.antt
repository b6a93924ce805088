-- ===== src/Tests/Server.antt =====
-- A server with two connections, one of them over SSL.
use shadyurl.Common.{ℕ, ◌≡◌, refl, true, false, some, List, [], ◌∷◌}
use shadyurl.Session.{Session, write, read, on_request, on_written, step}
use shadyurl.Network.{
  plain, ssl, serving, Connection, NetEvent, on_run, on_detect, on_handshake, in_session, accepted,
  detected, shaken, session_step, conn_step, conn_run, Listener, ServerEvent, on_accept, at,
  listener, accept, step_at, server_step, server_run,
}
use shadyurl.Network.Lifecycle.{IsServed, conn_run-IsServed}

abbrev pub mixed : List (ServerEvent ℕ)
mixed =
    on_accept false
    ∷ on_accept true
    ∷ at 0 on_run
    ∷ on_accept false
    ∷ at 1 on_run
    ∷ at 1 (on_detect false (22 ∷ 3 ∷ 1 ∷ []) true)
    ∷ at 0 (on_detect false (71 ∷ []) false)
    ∷ at 1 (on_handshake false 2)
    ∷ at 1 (in_session (on_request 6))
    ∷ at 0 (in_session (on_request 5))
    ∷ at 1 (in_session (on_request 7))
    ∷ at 1 (in_session (on_written false))
    ∷ []

abbrev pub first : Connection ℕ
first = record {
  stage = serving plain (record {
    items = 5 ∷ [];
    reading = true;
    writing = some 5;
    log = read ∷ write 5 ∷ read ∷ [];
  });
  buffer = 71 ∷ [];
}

abbrev pub second_session : Session ℕ
second_session = record {
  items = 7 ∷ [];
  reading = true;
  writing = some 7;
  log = read ∷ write 6 ∷ read ∷ read ∷ write 7 ∷ [];
}

abbrev pub after : Listener ℕ
after = record {
  accepting = true;
  connections = first ∷ record { stage = serving ssl second_session; buffer = 1 ∷ [] } ∷ [];
}

mixed-run : server_run mixed listener ≡ some after
unfolding server_run server_step accept step_at conn_step detected shaken session_step step
mixed-run = refl

abbrev pub alone : List (NetEvent ℕ)
alone =
    on_run
    ∷ on_detect false (22 ∷ 3 ∷ 1 ∷ []) true
    ∷ on_handshake false 2
    ∷ in_session (on_request 6)
    ∷ in_session (on_request 7)
    ∷ in_session (on_written false)
    ∷ []

alone-run :
    conn_run alone accepted ≡ some (record { stage = serving ssl second_session; buffer = 1 ∷ [] })
unfolding conn_run conn_step detected shaken session_step step
alone-run = refl

conn_run-IsServed_example : IsServed alone ssl second_session (1 ∷ [])
conn_run-IsServed_example =
    conn_run-IsServed alone ssl second_session
      (record { stage = serving ssl second_session; buffer = 1 ∷ [] }) alone-run refl
