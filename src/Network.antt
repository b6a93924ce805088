-- ===== src/Network.antt =====
-- src/session.cpp: a connection from its acceptance on (`detect_session`, then `plain_http_session` or
-- `ssl_http_session`), and the listener. The completions of the asynchronous calls are the events.
pub mod Lifecycle
pub mod Isolated
pub mod Answers
use shadyurl.Common.{
  ℕ, zero, suc, Bool, true, false, Option, none, some, List, [], ◌∷◌, ◌++◌, Bytes, if◌then◌else◌,
  drop,
}
use shadyurl.Session.{Action, write, read, eof, Session, Event, step, possible, started}

pub data Protocol : Type 0 where
  plain : Protocol
  ssl : Protocol

-- What the connection waits for: `on_run`, `on_detect`, `on_handshake`, or what its session started.
-- A connection whose object is gone is `released`.
pub data Stage (R : Type 0) : Type 0 where
  starting : Stage R
  detecting : Stage R
  handshaking : Stage R
  serving : Protocol → Session R → Stage R
  released : Stage R

-- `buffer` is what `buffer_` holds when the session starts to read.
pub record Connection (R : Type 0) : Type 0 where
  pub stage : Stage R
  pub buffer : Bytes

-- A completion, whose first Boolean says whether there was an error: `on_detect` with what was read
-- and whether it begins a handshake, `on_handshake` with the number of bytes that it used.
pub data NetEvent (R : Type 0) : Type 0 where
  on_run : NetEvent R
  on_detect : Bool → Bytes → Bool → NetEvent R
  on_handshake : Bool → ℕ → NetEvent R
  in_session : Event R → NetEvent R
  on_shutdown : Bool → NetEvent R

-- Whether a session has called `do_eof`.
abbrev pub ending : {R : Type 0} → List (Action R) → Bool
ending [] = false
ending (write r ∷ log) = ending log
ending (read ∷ log) = ending log
ending (eof ∷ log) = true

module _ {R : Type 0} where
  -- A new connection, as `detect_session::run` leaves it.
  abbrev pub accepted : Connection R
  accepted = record { stage = starting; buffer = [] }

  -- The session has started its first read.
  abbrev pub serve : Protocol → Bytes → Connection R
  serve p buffer = record { stage = serving p started; buffer = buffer }

  unfoldable pub detected : Bool → Bytes → Bool → Bytes → Connection R
  detected ec received result buffer =
      let buffer' = buffer ++ received in
      if ec
      then record { stage = released; buffer = buffer' }
      else if result
      then record { stage = handshaking; buffer = buffer' }
      else serve plain buffer'

  unfoldable pub shaken : Bool → ℕ → Bytes → Connection R
  shaken ec bytes_used buffer =
      if ec
      then record { stage = released; buffer = buffer }
      else serve ssl (drop bytes_used buffer)

  -- A completion for what the session waits for; its buffer is the parser's from here on.
  unfoldable pub session_step : Event R → Protocol → Session R → Bytes → Option (Connection R)
  session_step e p s buffer =
      if possible e s then some (record { stage = serving p (step e s); buffer = buffer }) else none

  -- `on_shutdown` does nothing but log; only `ssl_http_session::do_eof` starts it.
  unfoldable pub shutdown_step : Protocol → Session R → Bytes → Option (Connection R)
  shutdown_step plain s buffer = none
  shutdown_step ssl s buffer =
      if ending s.log then some (record { stage = serving ssl s; buffer = buffer }) else none

  -- The handler of a completion, or nothing where the connection does not wait for that.
  unfoldable pub conn_step : NetEvent R → Stage R → Bytes → Option (Connection R)
  unfolding detected shaken session_step shutdown_step
  conn_step on_run starting buffer = some (record { stage = detecting; buffer = buffer })
  conn_step (on_detect ec received result) detecting buffer =
      some (detected ec received result buffer)
  conn_step (on_handshake ec bytes_used) handshaking buffer = some (shaken ec bytes_used buffer)
  conn_step (in_session e) (serving p s) buffer = session_step e p s buffer
  conn_step (on_shutdown ec) (serving p s) buffer = shutdown_step p s buffer
  conn_step _ _ _ = none

  unfoldable pub conn_run : List (NetEvent R) → Connection R → Option (Connection R)
  unfolding conn_step
  conn_run [] c = some c
  conn_run (e ∷ es) c = elim (conn_step e c.stage c.buffer) [
    | none ↦ none
    | some c' ↦ conn_run es c'
  ]

-- The acceptor, after each of the four calls of the constructor that succeeds.
pub data Acceptor : Type 0 where
  closed : Acceptor
  opened : Acceptor
  reusable : Acceptor
  bound : Acceptor
  listening : Acceptor

-- `listener::listener`: the first error ends it.
unfoldable pub acceptor : Bool → Bool → Bool → Bool → Acceptor
acceptor open_ec option_ec bind_ec listen_ec =
    if open_ec
    then closed
    else if option_ec
    then opened
    else if bind_ec
    then reusable
    else if listen_ec
    then bound
    else listening

-- The listener: whether `async_accept` is outstanding, and the connections in the order of acceptance.
pub record Listener (R : Type 0) : Type 0 where
  pub accepting : Bool
  pub connections : List (Connection R)

-- `on_accept` with or without an error, or an event of the connection at a position.
pub data ServerEvent (R : Type 0) : Type 0 where
  on_accept : Bool → ServerEvent R
  at : ℕ → NetEvent R → ServerEvent R

module _ {R : Type 0} where
  abbrev pub do_accept : Listener R → Listener R
  do_accept l = record l { accepting = true }

  -- `listener::run`
  abbrev pub listener : Listener R
  listener = do_accept (record { accepting = false; connections = [] })

  unfoldable pub accept : Bool → Listener R → Listener R
  accept ec l =
      let idle = record l { accepting = false } in
      let l' = record idle { connections = l.connections ++ accepted ∷ [] } in
      do_accept (if ec then idle else l')

  unfoldable pub step_at : ℕ → NetEvent R → List (Connection R) → Option (List (Connection R))
  unfolding conn_step
  step_at i e [] = none
  step_at zero e (c ∷ cs) = elim (conn_step e c.stage c.buffer) [
    | none ↦ none
    | some c' ↦ some (c' ∷ cs)
  ]
  step_at (suc i) e (c ∷ cs) = elim (step_at i e cs) [ none ↦ none | some cs' ↦ some (c ∷ cs') ]

  unfoldable pub server_step : ServerEvent R → Listener R → Option (Listener R)
  unfolding accept step_at
  server_step (on_accept ec) l = if l.accepting then some (accept ec l) else none
  server_step (at i e) l = elim (step_at i e l.connections) [
    | none ↦ none
    | some cs ↦ some (record l { connections = cs })
  ]

  unfoldable pub server_run : List (ServerEvent R) → Listener R → Option (Listener R)
  unfolding server_step
  server_run [] l = some l
  server_run (e ∷ es) l = elim (server_step e l) [ none ↦ none | some l' ↦ server_run es l' ]
