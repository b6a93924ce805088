-- ===== src/Server.antt =====
-- The server at work: the listener and the connections of src/session.cpp and include/session.hpp,
-- whose `on_read` calls `handle_request` of include/request.hpp, with one database and one generator
-- for all connections. A call of `handle_request` is one step.
pub mod Durable
pub mod Answers
pub mod Crash
pub mod Shortened
use shadyurl.Common.{ℕ, Bool, false, Option, none, some, List, [], ◌∷◌, if◌then◌else◌, get_or}
use shadyurl.ServerState.{ServerState}
use shadyurl.Http.{Request, Response}
use shadyurl.Session.{
  Event, on_request, on_end_of_stream, on_read_error, on_written, on_write_error,
}
use shadyurl.Network.{
  Stage, starting, detecting, handshaking, serving, released, NetEvent, on_run, on_detect,
  on_handshake, in_session, on_shutdown, accepted, Listener, ServerEvent, on_accept, at, listener,
  server_step,
}
use shadyurl.Handlers.{Outcome, sent, raised, stuck, handle_request}
use shadyurl.Handlers.Effects.{Env, World}

pub record Server (env : Env) : Type 0 where
  pub world : World env
  pub sockets : Listener Response

-- What becomes of the process: it goes on; an exception that nothing catches has left `on_read` and
-- ends it; the generator ran out of fuel; or the event cannot happen in this state.
pub data Progress (env : Env) : Type 0 where
  running : Server env → Progress env
  terminated : World env → Progress env
  hung : Progress env
  impossible : Progress env

-- Whether a read is outstanding.
abbrev pub awaits_request : {R : Type 0} → Stage R → Bool
awaits_request (serving p s) = s.reading
awaits_request starting = false
awaits_request detecting = false
awaits_request handshaking = false
awaits_request released = false

module _ (env : Env) where
  unfoldable pub advance : ServerEvent Response → Server env → Progress env
  advance e s = elim (server_step e s.sockets) [
    | none ↦ impossible
    | some l ↦ running (record s { sockets = l })
  ]

  -- `on_read` with the outcome of `handle_request`, whose `send` puts the response in the queue.
  unfoldable pub handled : ℕ → Outcome (World env) → Server env → Progress env
  unfolding advance
  handled i (sent res w) s = advance (at i (in_session (on_request res))) (record s { world = w })
  handled i (raised e w) s = terminated w
  handled i stuck s = hung

module _ (env : Env) (state : ServerState) where
  unfoldable pub conn_event : ℕ → NetEvent Request → Server env → Progress env
  unfolding handled
  conn_event i (in_session (on_request req)) s =
      if awaits_request (get_or s.sockets.connections i accepted).stage
      then handled env i (handle_request env state req s.world) s
      else impossible
  conn_event i (in_session on_end_of_stream) s = advance env (at i (in_session on_end_of_stream)) s
  conn_event i (in_session on_read_error) s = advance env (at i (in_session on_read_error)) s
  conn_event i (in_session (on_written close)) s =
      advance env (at i (in_session (on_written close))) s
  conn_event i (in_session on_write_error) s = advance env (at i (in_session on_write_error)) s
  conn_event i on_run s = advance env (at i on_run) s
  conn_event i (on_detect ec received result) s =
      advance env (at i (on_detect ec received result)) s
  conn_event i (on_handshake ec bytes_used) s = advance env (at i (on_handshake ec bytes_used)) s
  conn_event i (on_shutdown ec) s = advance env (at i (on_shutdown ec)) s

  -- The handler of one completion, where a request is what was read.
  unfoldable pub serve_event : ServerEvent Request → Server env → Progress env
  unfolding conn_event
  serve_event (on_accept ec) s = advance env (on_accept ec) s
  serve_event (at i e) s = conn_event i e s

  -- `ioc.run()`: the completions in their order, from any of the threads.
  unfoldable pub io_run : List (ServerEvent Request) → Server env → Progress env
  unfolding serve_event
  io_run [] s = running s
  io_run (e ∷ es) s = elim (serve_event e s) [
    | running s' ↦ io_run es s'
    | terminated w ↦ terminated w
    | hung ↦ hung
    | impossible ↦ impossible
  ]

-- The server when `ioc.run()` starts.
abbrev pub booted : {env : Env} → World env → Server env
booted w = record { world = w; sockets = listener }
