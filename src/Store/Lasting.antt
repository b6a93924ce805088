-- ===== src/Store/Lasting.antt =====
-- A URL that was posted is the one that its token redirects to, and goes on being it.
use shadyurl.Common.{
  ◌≡◌, ap, ◌∙◌, true, some, ◌∷◌, Bytes, codes, drop, c_str, c_str_of_Lacks, Lacks, bytes_eq_refl,
}
use shadyurl.Common.Result.{ok}
use shadyurl.ServerState.{ServerState, get_config_hostname, get_config_db_path}
use shadyurl.Http.{get, post, Request, Response, redirect_permanent}
use shadyurl.Sqlite.{sqlite_ok, sqlite_done, insert_url, select_url}
use shadyurl.Generate.{generate_random_filename}
use shadyurl.Generate.Bounds.{IsToken}
use shadyurl.Routes.Tokens.{token-route}
use shadyurl.Handlers.{sent, handle_request, valid_url, rendered, template_path}
use shadyurl.Handlers.Effects.{Env, World}
use shadyurl.Handlers.Form.{url, extract_url}
use shadyurl.Handlers.Shortening.{generated-IsToken, post-stored}
use shadyurl.Store.{view-inserted, target_of}
use shadyurl.Store.Refined.{view_of, handle_request-Refines, handle_request-view, Step-Keeps}

module _ (env : Env) (state : ServerState) where
  abbrev db_file : Bytes
  db_file = c_str (get_config_db_path state)

  -- A GET of a token that stands for a URL.
  pub token-redirects :
      (req : Request) (w : World env) (token u : Bytes)
      → IsToken token
      → view_of env state w.db token ≡ some u
      → req.method ≡ get
      → req.target ≡ b'/' ∷ token
      → env.sqlite.prepare w.db db_file (env.sqlite.opens w.db db_file) select_url ≡ sqlite_ok
      → env.sqlite.bind_text w.db db_file token ≡ sqlite_ok
      → handle_request env state req w ≡ sent (redirect_permanent env.server req u) w
  token-redirects req w token u t stored m e prepared bound =
      let (legal, route, clean) = token-route token t in
      let whole : c_str (drop 1 req.target) ≡ token = rw e (c_str_of_Lacks token clean) in
      let answer =
        handle_request-view env state req w m (rw e legal) (rw e route) prepared (rw whole bound) in
      answer
      ∙ ap (λ x. sent (redirect_permanent env.server req (target_of x)) w)
          (ap (view_of env state w.db) whole ∙ stored)

  -- The row of a URL that holds no NUL, behind its INSERT.
  pub inserted :
      (w : World env) (db' : env.sqlite.Db) (token u : Bytes)
      → Lacks 0 u
      → env.sqlite.step_insert w.db db_file token u ≡ (sqlite_done, db')
      → view_of env state db' token ≡ some u
  inserted w db' token u nul step =
      let there = view-inserted env.sqlite db_file w.db token u token (ap (λ r. r.0) step) in
      rw (ap (λ r. r.1) step, bytes_eq_refl token, c_str_of_Lacks u nul) at there

  -- Any number of requests that are answered one after another.
  pub data Later : World env → World env → Type 0 where
    at_once : {w : World env} → Later w w
    then_request :
        {w w' w'' : World env} (req : Request) (res : Response)
        → Later w w'
        → handle_request env state req w' ≡ sent res w''
        → Later w w''

  request-keeps :
      (req : Request) (res : Response) (w w' : World env) (token u : Bytes)
      → handle_request env state req w ≡ sent res w'
      → view_of env state w.db token ≡ some u
      → view_of env state w'.db token ≡ some u
  request-keeps req res w w' token u answer stored =
      let r = handle_request-Refines env state req w in
      Step-Keeps (view_of env state w.db) (view_of env state w'.db) token u (rw answer at r) stored

  Later-keeps :
      {w w' : World env} (token u : Bytes)
      → Later w w'
      → view_of env state w.db token ≡ some u
      → view_of env state w'.db token ≡ some u
  Later-keeps token u at_once stored = stored
  Later-keeps token u (then_request {w' = w1} {w'' = w2} req res before answer) stored =
      request-keeps req res w1 w2 token u answer (Later-keeps token u before stored)

  -- The state behind a POST whose token was drawn and whose row was inserted.
  abbrev pub stored : World env → env.sqlite.Db → env.random.State → World env
  stored w db' rng' = record w { db = db'; rng = rng' }

  -- A POST of a form with a valid URL that holds no NUL, where the generator draws a token and SQLite
  -- inserts the row, is answered by the page that the template engine makes of the URL and the token,
  -- or by a 400 where it makes none. Whatever requests are answered from then on, a GET of the token,
  -- where SQLite prepares and binds the query, redirects permanently to that URL and changes nothing.
  pub get-post :
      (req req' : Request) (w w' : World env) (u token : Bytes) (rng' : env.random.State)
      (db' : env.sqlite.Db)
      → req.method ≡ post
      → req.target ≡ codes "/post.html"
      → extract_url env req.content_type req.body ≡ ok (url u)
      → valid_url u ≡ true
      → Lacks 0 u
      → generate_random_filename env.random env.algo w.rng ≡ some (token, rng')
      → env.sqlite.prepare w.db db_file (env.sqlite.opens w.db db_file) insert_url ≡ sqlite_ok
      → env.sqlite.step_insert w.db db_file token u ≡ (sqlite_done, db')
      → Later (stored w db' rng') w'
      → req'.method ≡ get
      → req'.target ≡ b'/' ∷ token
      → env.sqlite.prepare w'.db db_file (env.sqlite.opens w'.db db_file) select_url ≡ sqlite_ok
      → env.sqlite.bind_text w'.db db_file token ≡ sqlite_ok
      → (handle_request env state req w
          ≡ sent
              (rendered env state req (
                env.render
                  (template_path env state req)
                  (get_config_hostname state)
                  (some (u, token))))
              (stored w db' rng'))
        × (handle_request env state req' w' ≡ sent (redirect_permanent env.server req' u) w')
  get-post req req' w w' u token rng' db' m e x v nul drawn prepared step later m' e' prepared'
        bound =
      (
        post-stored env state req w u token rng' db' m e x v nul drawn prepared step,
        token-redirects req' w' token u (generated-IsToken env state w.rng drawn)
            (Later-keeps token u later (inserted w db' token u nul step)) m' e' prepared' bound,
      )
