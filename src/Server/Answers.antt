-- ===== src/Server/Answers.antt =====
-- What the requests of each connection are answered with.
use shadyurl.Common.{
  ℕ, ◌≡◌, refl, ap, some, List, [], ◌∷◌, ◌++◌, ◌==◌, get_or, arith, Bool-cases, Option-cases, inl,
  inr,
}
use shadyurl.ServerState.{ServerState}
use shadyurl.Http.{Request, Response}
use shadyurl.Session.{
  Session, on_request, on_end_of_stream, on_read_error, on_written, on_write_error, writes,
}
use shadyurl.Session.Order.{answered, behind}
use shadyurl.Network.{
  Protocol, serving, NetEvent, on_run, on_detect, on_handshake, in_session, on_shutdown, accepted,
  ServerEvent, on_accept, at, server_step, server_run,
}
use shadyurl.Network.Lifecycle.{session_events}
use shadyurl.Network.Isolated.{events_of}
use shadyurl.Network.Answers.{server_run-answers}
use shadyurl.Handlers.{Outcome, sent, raised, stuck, handle_request}
use shadyurl.Handlers.Effects.{Env, World}
use shadyurl.Server.{
  Server, Progress, running, terminated, hung, impossible, awaits_request, advance, handled,
  conn_event, serve_event, io_run, booted,
}

-- Two lists are related place by place.
abbrev pub All2 : {A B : Type 0} → (A → B → Type 0) → List A → List B → Type 0
All2 R [] [] = Unit
All2 R [] (b ∷ bs) = ⊥
All2 R (a ∷ as') [] = ⊥
All2 R (a ∷ as') (b ∷ bs) = R a b × All2 R as' bs

-- The requests that were read, or the responses to them, on the connection at a position.
abbrev pub own : {R : Type 0} → ℕ → List (ServerEvent R) → List R
own i es = answered (session_events (events_of i es))

module _ (env : Env) (state : ServerState) where
  -- The response is what `handle_request` sends for the request.
  abbrev pub IsAnswer : Request → Response → Type 0
  IsAnswer req res = (w w' : World env) × (handle_request env state req w ≡ sent res w')

  abbrev Answers : List Request → List Response → Type 0
  Answers = All2 IsAnswer

  -- What one event of a connection brings.
  abbrev brought : {R : Type 0} → NetEvent R → List R
  brought e = answered (session_events (e ∷ []))

  -- An event of the server beside the one that the sockets see.
  abbrev Line : ServerEvent Request → ServerEvent Response → Type 0
  Line (on_accept ec) (on_accept ec') = Unit
  Line (on_accept ec) (at j e') = ⊥
  Line (at i e) (on_accept ec') = ⊥
  Line (at i e) (at j e') = (i ≡ j) × Answers (brought e) (brought e')

  -- A step of the server is one of the sockets.
  abbrev Moves : ServerEvent Request → Server env → Server env → Type 0
  Moves e s s' = (j : ServerEvent Response) × Line e j × (server_step j s.sockets ≡ some s'.sockets)

  advance-moves :
      (j : ServerEvent Response) (s s' : Server env)
      → advance env j s ≡ running s'
      → server_step j s.sockets ≡ some s'.sockets
  unfolding advance
  advance-moves j s s' h = elim (Option-cases (server_step j s.sockets)) [
    | inl n ↦ absurd (ground (arith, n))
    | inr (l, k) ↦ ground (arith, k)
  ]

  handled-Moves :
      (i : ℕ) (req : Request) (s s' : Server env) (o : Outcome (World env))
      → handle_request env state req s.world ≡ o
      → handled env i o s ≡ running s'
      → Moves (at i (in_session (on_request req))) s s'
  unfolding handled
  handled-Moves i req s s' (sent res w) e h = (
    at i (in_session (on_request res)),
    (refl, ((s.world, w, e), tt)),
    advance-moves (at i (in_session (on_request res))) (record s { world = w }) s' h,
  )
  handled-Moves i req s s' (raised x w) e h = absurd cc
  handled-Moves i req s s' stuck e h = absurd cc

  conn_event-Moves :
      (i : ℕ) (e : NetEvent Request) (s s' : Server env)
      → conn_event env state i e s ≡ running s'
      → Moves (at i e) s s'
  unfolding conn_event
  conn_event-Moves i (in_session (on_request req)) s s' h =
      elim (Bool-cases (awaits_request (get_or s.sockets.connections i accepted).stage)) [
        | inl b ↦
            handled-Moves i req s s' (handle_request env state req s.world) refl (ground (arith, b))
        | inr b ↦ absurd (ground (arith, b))
      ]
  conn_event-Moves i (in_session on_end_of_stream) s s' h = (_, (refl, tt), advance-moves _ s s' h)
  conn_event-Moves i (in_session on_read_error) s s' h = (_, (refl, tt), advance-moves _ s s' h)
  conn_event-Moves i (in_session (on_written c)) s s' h = (_, (refl, tt), advance-moves _ s s' h)
  conn_event-Moves i (in_session on_write_error) s s' h = (_, (refl, tt), advance-moves _ s s' h)
  conn_event-Moves i on_run s s' h = (_, (refl, tt), advance-moves _ s s' h)
  conn_event-Moves i (on_detect ec received result) s s' h = (_, (refl, tt), advance-moves _ s s' h)
  conn_event-Moves i (on_handshake ec used) s s' h = (_, (refl, tt), advance-moves _ s s' h)
  conn_event-Moves i (on_shutdown ec) s s' h = (_, (refl, tt), advance-moves _ s s' h)

  serve_event-Moves :
      (e : ServerEvent Request) (s s' : Server env)
      → serve_event env state e s ≡ running s'
      → Moves e s s'
  unfolding serve_event
  serve_event-Moves (on_accept ec) s s' h = (on_accept ec, tt, advance-moves _ s s' h)
  serve_event-Moves (at i e) s s' h = conn_event-Moves i e s s' h

  All2-append :
      (xs xs' : List Request) (ys ys' : List Response)
      → Answers xs ys
      → Answers xs' ys'
      → Answers (xs ++ xs') (ys ++ ys')
  All2-append [] xs' [] ys' h h' = h'
  All2-append [] xs' (y ∷ ys) ys' h h' = absurd h
  All2-append (x ∷ xs) xs' [] ys' h h' = absurd h
  All2-append (x ∷ xs) xs' (y ∷ ys) ys' (r, h) h' = (r, All2-append xs xs' ys ys' h h')

  brought-append :
      {R : Type 0} (e : NetEvent R) (es : List (NetEvent R))
      → answered (session_events (e ∷ es)) ≡ brought e ++ answered (session_events es)
  brought-append (in_session (on_request r)) es = refl
  brought-append (in_session on_end_of_stream) es = refl
  brought-append (in_session on_read_error) es = refl
  brought-append (in_session (on_written c)) es = refl
  brought-append (in_session on_write_error) es = refl
  brought-append on_run es = refl
  brought-append (on_detect ec received result) es = refl
  brought-append (on_handshake ec used) es = refl
  brought-append (on_shutdown ec) es = refl

  Answers-cons :
      (i : ℕ) (e : ServerEvent Request) (j : ServerEvent Response) (es : List (ServerEvent Request))
      (js : List (ServerEvent Response))
      → Line e j
      → Answers (own i es) (own i js)
      → Answers (own i (e ∷ es)) (own i (j ∷ js))
  unfolding events_of
  Answers-cons i (on_accept ec) (on_accept ec') es js l h = h
  Answers-cons i (on_accept ec) (at k e') es js l h = absurd l
  Answers-cons i (at k e) (on_accept ec') es js l h = absurd l
  Answers-cons i (at k e) (at k' e') es js (same, l) h = elim (Bool-cases (k' == i)) [
    | inl b ↦
        rw (same, b, brought-append e (events_of i es), brought-append e' (events_of i js))
          (All2-append (brought e) (own i es) (brought e') (own i js) l h)
    | inr b ↦ rw (same, b) h
  ]

  -- The events that the sockets saw, with the responses in the place of the requests.
  abbrev Lines : List (ServerEvent Request) → Server env → Server env → Type 0
  Lines es s s' =
      (js : List (ServerEvent Response)) × ((i : ℕ) → Answers (own i es) (own i js))
      × (server_run js s.sockets ≡ some s'.sockets)

  Lines-cons :
      (e : ServerEvent Request) (es : List (ServerEvent Request)) (s t s' : Server env)
      → Moves e s t
      → Lines es t s'
      → Lines (e ∷ es) s s'
  unfolding server_run
  Lines-cons e es s t s' (j, l, step) (js, answers, ran) =
      (j ∷ js, λ i. Answers-cons i e j es js l (answers i), rw (step, server_run) ran)

  event-Lines :
      (e : ServerEvent Request) (es : List (ServerEvent Request)) (s s' : Server env)
      (p : Progress env)
      → serve_event env state e s ≡ p
      → io_run env state (e ∷ es) s ≡ running s'
      → ((t : Server env) → io_run env state es t ≡ running s' → Lines es t s')
      → Lines (e ∷ es) s s'
  unfolding io_run
  event-Lines e es s s' (running t) k h ih =
      Lines-cons e es s t s' (serve_event-Moves e s t k) (ih t (ground (arith, k)))
  event-Lines e es s s' (terminated w) k h ih = absurd (ground (arith, k))
  event-Lines e es s s' hung k h ih = absurd (ground (arith, k))
  event-Lines e es s s' impossible k h ih = absurd (ground (arith, k))

  io_run-Lines :
      (es : List (ServerEvent Request)) (s s' : Server env)
      → io_run env state es s ≡ running s'
      → Lines es s s'
  unfolding io_run server_run events_of
  io_run-Lines [] s s' h =
      let same : s ≡ s' = cc in ([], λ i. tt, ap (λ (t : Server env). some t.sockets) same)
  io_run-Lines (e ∷ es) s s' h =
      event-Lines e es s s' (serve_event env state e s) refl h (λ t h'. io_run-Lines es t s' h')

  -- However the events of the server interleave: what each connection has written, with what its queue
  -- holds behind the response that is being written, is one response for each request that was read
  -- on it, in the order of the requests, and each is what `handle_request` sends for that request.
  pub io_run-answers :
      (es : List (ServerEvent Request)) (w : World env) (s : Server env) (i : ℕ) (p : Protocol)
      (session : Session Response)
      → io_run env state es (booted w) ≡ running s
      → (get_or s.sockets.connections i accepted).stage ≡ serving p session
      → All2 IsAnswer (own i es) (writes session.log ++ behind session.items)
  io_run-answers es w s i p session h st =
      let (js, answers, ran) = io_run-Lines es (booted w) s h in
      rw (← (server_run-answers js s.sockets i p session ran st).0) (answers i)
