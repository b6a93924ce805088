-- ===== src/Server/Crash.antt =====
-- When the process of the server ends by an exception.
use shadyurl.Common.{
  ℕ, ◌≡◌, ◌↔◌, refl, ap, ◌∙◌, Bool, true, List, [], ◌∷◌, ◌++◌, get_or, arith, Bool-cases,
  Option-cases, inl, inr,
}
use shadyurl.ServerState.{ServerState}
use shadyurl.Http.{Request, Response}
use shadyurl.Session.{on_request, on_end_of_stream, on_read_error, on_written, on_write_error}
use shadyurl.Network.{
  NetEvent, on_run, on_detect, on_handshake, in_session, on_shutdown, accepted, ServerEvent,
  on_accept, at, server_step,
}
use shadyurl.Handlers.{Outcome, sent, raised, stuck, handle_request}
use shadyurl.Handlers.Effects.{Env, World}
use shadyurl.Handlers.Posting.{TooMany, Explained, handle_request-Explained}
use shadyurl.Server.{
  Server, Progress, running, terminated, hung, impossible, awaits_request, advance, handled,
  conn_event, serve_event, io_run,
}

module _ (env : Env) (state : ServerState) where
  abbrev awaiting : ℕ → Server env → Bool
  awaiting i s = awaits_request (get_or s.sockets.connections i accepted).stage

  -- The events lead to a read that completes with a request that `parse_qsl` does not take.
  pub record IsKilled (es : List (ServerEvent Request)) (s : Server env) (w : World env)
      : Type 0 where
    pub before : List (ServerEvent Request)
    pub i : ℕ
    pub req : Request
    pub later : List (ServerEvent Request)
    pub last : Server env
    pub split : es ≡ before ++ at i (in_session (on_request req)) ∷ later
    pub survived : io_run env state before s ≡ running last
    pub read : awaiting i last ≡ true
    pub many : TooMany env state req last.world
    pub same : w ≡ last.world

  advance-terminated :
      (e : ServerEvent Response) (s : Server env) (w : World env)
      → advance env e s ≡ terminated w
      → ⊥
  unfolding advance
  advance-terminated e s w h = elim (Option-cases (server_step e s.sockets)) [
    | inl n ↦ ground (arith, n)
    | inr (l, k) ↦ ground (arith, k)
  ]

  handled-terminated :
      (i : ℕ) (s : Server env) (w : World env) (req : Request) (o : Outcome (World env))
      → Explained env state req s.world o
      → handled env i o s ≡ terminated w
      → TooMany env state req s.world × (w ≡ s.world)
  unfolding handled
  handled-terminated i s w req (sent res w') x h =
      absurd (advance-terminated (at i (in_session (on_request res))) (record s { world = w' }) w h)
  handled-terminated i s w req (raised e w') (_, same, many) h = (many, cc)
  handled-terminated i s w req stuck x h = absurd x

  conn_event-terminated :
      (i : ℕ) (e : NetEvent Request) (es : List (ServerEvent Request)) (s : Server env)
      (w : World env)
      → conn_event env state i e s ≡ terminated w
      → IsKilled (at i e ∷ es) s w
  unfolding conn_event io_run
  conn_event-terminated i (in_session (on_request req)) es s w h =
      elim (Bool-cases (awaiting i s)) [
        | inl b ↦
            let (many, same) =
              handled-terminated i s w req (handle_request env state req s.world)
                (handle_request-Explained env state req s.world) (ground (arith, b)) in
            record {
              before = [];
              i = i;
              req = req;
              later = es;
              last = s;
              split = refl;
              survived = refl;
              read = b;
              many = many;
              same = same;
            }
        | inr b ↦ absurd (ground (arith, b))
      ]
  conn_event-terminated i (in_session on_end_of_stream) es s w h =
      absurd (advance-terminated _ s w h)
  conn_event-terminated i (in_session on_read_error) es s w h = absurd (advance-terminated _ s w h)
  conn_event-terminated i (in_session (on_written close)) es s w h =
      absurd (advance-terminated _ s w h)
  conn_event-terminated i (in_session on_write_error) es s w h = absurd (advance-terminated _ s w h)
  conn_event-terminated i on_run es s w h = absurd (advance-terminated _ s w h)
  conn_event-terminated i (on_detect ec received result) es s w h =
      absurd (advance-terminated _ s w h)
  conn_event-terminated i (on_handshake ec bytes_used) es s w h =
      absurd (advance-terminated _ s w h)
  conn_event-terminated i (on_shutdown ec) es s w h = absurd (advance-terminated _ s w h)

  IsKilled-cons :
      (e : ServerEvent Request) (es : List (ServerEvent Request)) (s s' : Server env)
      (w : World env)
      → serve_event env state e s ≡ running s'
      → IsKilled es s' w
      → IsKilled (e ∷ es) s w
  unfolding io_run
  IsKilled-cons e es s s' w h k = record {
    before = e ∷ k.before;
    i = k.i;
    req = k.req;
    later = k.later;
    last = k.last;
    split = ap (λ l. e ∷ l) k.split;
    survived = rw (h, io_run) k.survived;
    read = k.read;
    many = k.many;
    same = k.same;
  }

  event-IsKilled :
      (e : ServerEvent Request) (es : List (ServerEvent Request)) (s : Server env) (w : World env)
      (p : Progress env)
      → serve_event env state e s ≡ p
      → io_run env state (e ∷ es) s ≡ terminated w
      → ((s' : Server env) → io_run env state es s' ≡ terminated w → IsKilled es s' w)
      → IsKilled (e ∷ es) s w
  unfolding io_run serve_event
  event-IsKilled e es s w (running s') k h ih =
      IsKilled-cons e es s s' w k (ih s' (ground (arith, k)))
  event-IsKilled (on_accept ec) es s w (terminated w') k h ih = absurd (advance-terminated _ s w' k)
  event-IsKilled (at i e) es s w (terminated w') k h ih =
      conn_event-terminated i e es s w (ground (arith, k))
  event-IsKilled e es s w hung k h ih = absurd (ground (arith, k))
  event-IsKilled e es s w impossible k h ih = absurd (ground (arith, k))

  terminated-IsKilled :
      (es : List (ServerEvent Request)) (s : Server env) (w : World env)
      → io_run env state es s ≡ terminated w
      → IsKilled es s w
  unfolding io_run
  terminated-IsKilled [] s w h = absurd cc
  terminated-IsKilled (e ∷ es) s w h =
      event-IsKilled e es s w (serve_event env state e s) refl h
        (λ s' h'. terminated-IsKilled es s' w h')

  TooMany-raised :
      (i : ℕ) (s : Server env) (req : Request) (o : Outcome (World env))
      → Explained env state req s.world o
      → TooMany env state req s.world
      → handled env i o s ≡ terminated s.world
  unfolding handled
  TooMany-raised i s req (sent res w') x many = absurd (x many)
  TooMany-raised i s req (raised e w') (_, same, _) many = ap terminated same
  TooMany-raised i s req stuck x many = absurd x

  killed_event :
      (i : ℕ) (es : List (ServerEvent Request)) (s : Server env) (req : Request)
      → awaiting i s ≡ true
      → TooMany env state req s.world
      → io_run env state (at i (in_session (on_request req)) ∷ es) s ≡ terminated s.world
  unfolding io_run serve_event conn_event
  killed_event i es s req b many =
      let e =
        TooMany-raised i s req (handle_request env state req s.world)
          (handle_request-Explained env state req s.world) many in
      ground (arith, b, e)

  after_event :
      (e : ServerEvent Request) (es es' : List (ServerEvent Request)) (s s' : Server env)
      (p : Progress env)
      → serve_event env state e s ≡ p
      → io_run env state (e ∷ es) s ≡ running s'
      → ((t : Server env)
          → io_run env state es t ≡ running s'
          → io_run env state (es ++ es') t ≡ io_run env state es' s')
      → io_run env state (e ∷ (es ++ es')) s ≡ io_run env state es' s'
  unfolding io_run
  after_event e es es' s s' (running t) k h ih = rw (k, io_run) (ih t (ground (arith, k)))
  after_event e es es' s s' (terminated w) k h ih = absurd (ground (arith, k))
  after_event e es es' s s' hung k h ih = absurd (ground (arith, k))
  after_event e es es' s s' impossible k h ih = absurd (ground (arith, k))

  io_run-append :
      (es es' : List (ServerEvent Request)) (s s' : Server env)
      → io_run env state es s ≡ running s'
      → io_run env state (es ++ es') s ≡ io_run env state es' s'
  unfolding io_run
  io_run-append [] es' s s' h = ap (io_run env state es') cc
  io_run-append (e ∷ es) es' s s' h =
      after_event e es es' s s' (serve_event env state e s) refl h
        (λ t h'. io_run-append es es' t s' h')

  -- The process of the server ends by an exception exactly where a connection's read completes with a
  -- POST of /post.html whose URL-encoded body holds more than 1000 '&'; the database is then as before
  -- that request.
  pub io_run-terminated_iff :
      (es : List (ServerEvent Request)) (s : Server env) (w : World env)
      → (io_run env state es s ≡ terminated w) ↔ IsKilled es s w
  io_run-terminated_iff es s w = (
    terminated-IsKilled es s w,
    λ k.
        rw (k.split, k.same)
          (io_run-append k.before (at k.i (in_session (on_request k.req)) ∷ k.later) s k.last
              k.survived
            ∙ killed_event k.i k.later k.last k.req k.read k.many),
  )
