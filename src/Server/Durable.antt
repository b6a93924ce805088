-- ===== src/Server/Durable.antt =====
-- What the database holds over the whole run of a server.
use shadyurl.Common.{
  ℕ, ◌≡◌, refl, true, some, List, [], ◌∷◌, Bytes, drop, c_str, get_or, Bool-cases, Option-cases,
  inl, inr,
}
use shadyurl.ServerState.{ServerState, get_config_db_path}
use shadyurl.Http.{get, Request, Response, redirect_permanent}
use shadyurl.Sqlite.{sqlite_ok, select_url}
use shadyurl.Session.{on_request, on_end_of_stream, on_read_error, on_written, on_write_error}
use shadyurl.Generate.Bounds.{IsToken}
use shadyurl.Network.{
  NetEvent, on_run, on_detect, on_handshake, in_session, on_shutdown, accepted, ServerEvent,
  on_accept, at, server_step,
}
use shadyurl.Handlers.{Outcome, sent, raised, stuck, handle_request, valid_url}
use shadyurl.Handlers.Effects.{Env, World}
use shadyurl.Store.{View}
use shadyurl.Store.Location.{location_of, handle_request-location, target_of-valid}
use shadyurl.Store.Refined.{
  Step, kept, view_of, Refines, handle_request-Refines, IsSafe, Step-IsSafe, Step-Keeps,
}
use shadyurl.Store.Lasting.{token-redirects}
use shadyurl.Server.{
  Server, Progress, running, terminated, hung, impossible, awaits_request, advance, handled,
  conn_event, serve_event, io_run,
}

-- Any number of steps of the map.
pub data Reach : View → View → Type 0 where
  here : {v : View} → Reach v v
  next : {v v' v'' : View} → Step v v' → Reach v' v'' → Reach v v''

pub Reach-Keeps : {v v' : View} (t u : Bytes) → Reach v v' → v t ≡ some u → v' t ≡ some u
Reach-Keeps t u here h = h
Reach-Keeps t u (next {v'} st r) h = Reach-Keeps t u r (Step-Keeps _ v' t u st h)

pub Reach-IsSafe : {v v' : View} → Reach v v' → IsSafe v → IsSafe v'
Reach-IsSafe here safe = safe
Reach-IsSafe (next {v'} st r) safe = Reach-IsSafe r (Step-IsSafe _ v' st safe)

module _ (env : Env) (state : ServerState) where
  abbrev pub map_of : World env → View
  map_of w = view_of env state w.db

  -- The map behind one event.
  abbrev After : View → Progress env → Type 0
  After v (running s) = Step v (map_of s.world)
  After v (terminated w) = map_of w ≡ v
  After v hung = ⊥
  After v impossible = Unit

  advance-After :
      (v : View) (e : ServerEvent Response) (s : Server env)
      → Step v (map_of s.world)
      → After v (advance env e s)
  unfolding advance
  advance-After v e s st = elim (Option-cases (server_step e s.sockets)) [
    | inl n ↦ rw (n, After) tt
    | inr (l, k) ↦ rw (k, After) st
  ]

  handled-After :
      (v : View) (i : ℕ) (s : Server env) (o : Outcome (World env))
      → Refines env state v o
      → After v (handled env i o s)
  unfolding handled
  handled-After v i s (sent res w) h =
      advance-After v (at i (in_session (on_request res))) (record s { world = w }) h
  handled-After v i s (raised e w) h = h
  handled-After v i s stuck h = h

  conn_event-After :
      (i : ℕ) (e : NetEvent Request) (s : Server env)
      → After (map_of s.world) (conn_event env state i e s)
  unfolding conn_event
  conn_event-After i (in_session (on_request req)) s =
      elim (Bool-cases (awaits_request (get_or s.sockets.connections i accepted).stage)) [
        | inl b ↦
            rw (b, After)
              (handled-After (map_of s.world) i s (handle_request env state req s.world)
                (handle_request-Refines env state req s.world))
        | inr b ↦ rw (b, After) tt
      ]
  conn_event-After i (in_session on_end_of_stream) s = advance-After _ _ s (kept refl)
  conn_event-After i (in_session on_read_error) s = advance-After _ _ s (kept refl)
  conn_event-After i (in_session (on_written close)) s = advance-After _ _ s (kept refl)
  conn_event-After i (in_session on_write_error) s = advance-After _ _ s (kept refl)
  conn_event-After i on_run s = advance-After _ _ s (kept refl)
  conn_event-After i (on_detect ec received result) s = advance-After _ _ s (kept refl)
  conn_event-After i (on_handshake ec bytes_used) s = advance-After _ _ s (kept refl)
  conn_event-After i (on_shutdown ec) s = advance-After _ _ s (kept refl)

  pub serve_event-After :
      (e : ServerEvent Request) (s : Server env)
      → After (map_of s.world) (serve_event env state e s)
  unfolding serve_event
  serve_event-After (on_accept ec) s = advance-After _ _ s (kept refl)
  serve_event-After (at i e) s = conn_event-After i e s

  -- The map behind a run.
  abbrev pub Ran : View → Progress env → Type 0
  Ran v (running s) = Reach v (map_of s.world)
  Ran v (terminated w) = Reach v (map_of w)
  Ran v hung = ⊥
  Ran v impossible = Unit

  Ran-Step : (v v' : View) (p : Progress env) → Step v v' → Ran v' p → Ran v p
  Ran-Step v v' (running s) st r = next st r
  Ran-Step v v' (terminated w) st r = next st r
  Ran-Step v v' hung st r = r
  Ran-Step v v' impossible st r = tt

  Ran-event :
      (es : List (ServerEvent Request)) (v : View) (p : Progress env)
      → After v p
      → ((s : Server env) → Ran (map_of s.world) (io_run env state es s))
      → Ran v (elim p as (λ q. Progress env) [
        | running s ↦ io_run env state es s
        | terminated w ↦ terminated w
        | hung ↦ hung
        | impossible ↦ impossible
      ])
  Ran-event es v (running s) a ih = Ran-Step v (map_of s.world) (io_run env state es s) a (ih s)
  Ran-event es v (terminated w) a ih = rw a here
  Ran-event es v hung a ih = a
  Ran-event es v impossible a ih = tt

  -- Whatever the events and their order, the map grows by free tokens with safe URLs alone, to the end
  -- of the process too; and the generator never runs out of fuel.
  pub io_run-Ran :
      (es : List (ServerEvent Request)) (s : Server env)
      → Ran (map_of s.world) (io_run env state es s)
  unfolding io_run
  io_run-Ran [] s = here
  io_run-Ran (e ∷ es) s =
      Ran-event es (map_of s.world) (serve_event env state e s) (serve_event-After e s)
        (io_run-Ran es)

  io_run-Reach :
      (es : List (ServerEvent Request)) (s s' : Server env)
      → io_run env state es s ≡ running s'
      → Reach (map_of s.world) (map_of s'.world)
  io_run-Reach es s s' h = let r = io_run-Ran es s in rw h at r

  -- While the server runs, whatever is requested of it in the meantime, a token that stands for a URL
  -- goes on standing for it: a GET of the token, where SQLite prepares and binds the query, redirects
  -- to that URL and changes nothing.
  pub io_run-redirects :
      (es : List (ServerEvent Request)) (s s' : Server env) (token u : Bytes) (req : Request)
      → io_run env state es s ≡ running s'
      → IsToken token
      → map_of s.world token ≡ some u
      → req.method ≡ get
      → req.target ≡ b'/' ∷ token
      → env.sqlite.prepare s'.world.db
          (c_str (get_config_db_path state))
          (env.sqlite.opens s'.world.db (c_str (get_config_db_path state)))
          select_url
        ≡ sqlite_ok
      → env.sqlite.bind_text s'.world.db (c_str (get_config_db_path state)) token ≡ sqlite_ok
      → handle_request env state req s'.world ≡ sent (redirect_permanent env.server req u) s'.world
  io_run-redirects es s s' token u req h t stored m e prepared bound =
      token-redirects env state req s'.world token u t
        (Reach-Keeps token u (io_run-Reach es s s' h) stored) m e prepared bound

  -- A server that starts with a table of safe URLs redirects to no others: whatever was requested
  -- before, a response with a Location field leads to a URL that begins with "http://" or "https://".
  pub io_run-location :
      (es : List (ServerEvent Request)) (s s' : Server env) (req : Request) (u : Bytes)
      → IsSafe (map_of s.world)
      → io_run env state es s ≡ running s'
      → location_of (handle_request env state req s'.world) ≡ some u
      → valid_url u ≡ true
  io_run-location es s s' req u safe h led =
      let later = Reach-IsSafe (io_run-Reach es s s' h) safe in
      let token = c_str (drop 1 req.target) in
      rw (handle_request-location env state req s'.world u led)
        (target_of-valid (map_of s'.world token) (later token))
