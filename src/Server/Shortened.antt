-- ===== src/Server/Shortened.antt =====
-- From the bytes of a form that comes in on a connection to the redirect that somebody asks for later.
use shadyurl.Common.{
  ℕ, ◌≤◌, ◌≡◌, ◌⊎◌, refl, sym, ap, ◌∙◌, true, some, List, ◌∷◌, Bytes, codes, c_str, Lacks, get_or,
  All, length, Bool-cases, Option-cases, inl, inr,
}
use shadyurl.Common.Result.{ok}
use shadyurl.ServerState.{ServerState, get_config_db_path}
use shadyurl.Http.{get, post, Request, Response, redirect_permanent}
use shadyurl.Sqlite.{sqlite_ok, sqlite_done, insert_url, select_url}
use shadyurl.ParseQs.Query.{IsBinding, IsForm, last_value}
use shadyurl.Generate.{generate_random_filename}
use shadyurl.Session.{on_request}
use shadyurl.Network.{in_session, accepted, ServerEvent, at, server_step}
use shadyurl.Handlers.{sent, handle_request, valid_url}
use shadyurl.Handlers.Effects.{Env, World}
use shadyurl.Handlers.Form.{url, extract_url}
use shadyurl.Handlers.Extraction.{form_url, extract_url_form}
use shadyurl.Handlers.Shortening.{generated-IsToken, post-stored}
use shadyurl.Store.Lasting.{inserted}
use shadyurl.Server.{
  Server, Progress, running, terminated, hung, impossible, awaits_request, advance, handled,
  conn_event, serve_event, io_run,
}
use shadyurl.Server.Durable.{map_of, io_run-redirects}

module _ (env : Env) (state : ServerState) where
  abbrev urls_file : Bytes
  urls_file = c_str (get_config_db_path state)

  -- The rest of a run.
  abbrev rest : List (ServerEvent Request) → Progress env → Progress env
  rest es (running s) = io_run env state es s
  rest es (terminated w) = terminated w
  rest es hung = hung
  rest es impossible = impossible

  -- An event goes on with a world, where it can happen.
  abbrev GoesOn : World env → Progress env → Type 0
  GoesOn w p = (p ≡ impossible) ⊎ ((s : Server env) × (s.world ≡ w) × (p ≡ running s))

  advance-GoesOn : (e : ServerEvent Response) (s : Server env) → GoesOn s.world (advance env e s)
  unfolding advance
  advance-GoesOn e s = elim (Option-cases (server_step e s.sockets)) [
    | inl n ↦ rw (n, GoesOn, advance) (inl refl)
    | inr (l, k) ↦ rw (k, GoesOn, advance) (inr (record s { sockets = l }, refl, refl))
  ]

  request-GoesOn :
      (i : ℕ) (req : Request) (res : Response) (w : World env) (s : Server env)
      → handle_request env state req s.world ≡ sent res w
      → GoesOn w (conn_event env state i (in_session (on_request req)) s)
  unfolding conn_event handled
  request-GoesOn i req res w s answer =
      elim (Bool-cases (awaits_request (get_or s.sockets.connections i accepted).stage)) [
        | inl b ↦
            rw (b, answer)
              (advance-GoesOn (at i (in_session (on_request res))) (record s { world = w }))
        | inr b ↦ rw (b, GoesOn) (inl refl)
      ]

  -- A run behind a request that was answered.
  rest-running :
      (es : List (ServerEvent Request)) (w : World env) (p : Progress env) (s' : Server env)
      → GoesOn w p
      → rest es p ≡ running s'
      → (s : Server env) × (s.world ≡ w) × (io_run env state es s ≡ running s')
  rest-running es w p s' (inl n) h =
      let stop : rest es impossible ≡ running s' = ap (rest es) (sym n) ∙ h in cc
  rest-running es w p s' (inr (s, e, k)) h = (s, e, ap (rest es) (sym k) ∙ h)

  -- A URL-encoded form comes in on a connection of the server, with keys that are not empty and at
  -- most 1001 bindings, whose last "url" is a valid URL with no NUL, each byte encoded as '%' and two
  -- digits of either case, a space as '+', or, but for '%', '+', '&' and '=', as itself; the generator
  -- draws a token and SQLite inserts the row. Whatever is requested of the server from then on, a GET of
  -- the token, where SQLite prepares and binds the query, redirects to that URL and changes nothing.
  pub io_run-shortened :
      (es : List (ServerEvent Request)) (i : ℕ) (s s' : Server env) (req req' : Request)
      (ps : List (Bytes × Bytes)) (u token : Bytes) (w : World env)
      → req.method ≡ post
      → req.target ≡ codes "/post.html"
      → req.content_type ≡ codes "application/x-www-form-urlencoded"
      → IsForm ps req.body
      → All IsBinding ps
      → length ps ≤ 1001
      → last_value (codes "url") ps ≡ some u
      → valid_url u ≡ true
      → Lacks 0 u
      → generate_random_filename env.random env.algo s.world.rng ≡ some (token, w.rng)
      → env.sqlite.prepare s.world.db urls_file (env.sqlite.opens s.world.db urls_file) insert_url
        ≡ sqlite_ok
      → env.sqlite.step_insert s.world.db urls_file token u ≡ (sqlite_done, w.db)
      → io_run env state (at i (in_session (on_request req)) ∷ es) s ≡ running s'
      → req'.method ≡ get
      → req'.target ≡ b'/' ∷ token
      → env.sqlite.prepare s'.world.db urls_file (env.sqlite.opens s'.world.db urls_file) select_url
        ≡ sqlite_ok
      → env.sqlite.bind_text s'.world.db urls_file token ≡ sqlite_ok
      → handle_request env state req' s'.world
        ≡ sent (redirect_permanent env.server req' u) s'.world
  unfolding io_run serve_event
  io_run-shortened es i s s' req req' ps u token w m e typed form keys few last valid nul drawn
        prepared step ran m' e' prepared' bound =
      let extracted : extract_url env req.content_type req.body ≡ ok (url u) =
        rw typed
          (extract_url_form env ps req.body form keys few ∙ ap (λ x. ok (form_url x)) last) in
      let answer =
        post-stored env state req s.world u token w.rng w.db m e extracted valid nul drawn prepared
          step in
      let (s1, world, onward) =
        rest-running es w (conn_event env state i (in_session (on_request req)) s) s'
          (request-GoesOn i req _ w s answer) ran in
      io_run-redirects env state es s1 s' token u req' onward
        (generated-IsToken env state s.world.rng drawn)
        (ap (λ x. map_of env state x token) world
          ∙ inserted env state s.world w.db token u nul step)
        m' e' prepared' bound
