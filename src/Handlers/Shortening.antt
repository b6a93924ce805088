-- ===== src/Handlers/Shortening.antt =====
-- What a POST of a form answers and leaves, where its row is inserted.
use shadyurl.Common.{
  ◌≡◌, refl, true, false, some, Bytes, codes, c_str, c_str_of_Lacks, Lacks, arith,
}
use shadyurl.Common.Result.{ok}
use shadyurl.ServerState.{ServerState, get_config_hostname, get_config_db_path}
use shadyurl.Http.{post, Request}
use shadyurl.Sqlite.{sqlite_ok, sqlite_done, insert_url}
use shadyurl.Generate.{generate_random_filename}
use shadyurl.Generate.Bounds.{IsToken, generate_random_filename-IsToken}
use shadyurl.Regex.{full_match}
use shadyurl.Routes.{handle_post, routes, select, illegal}
use shadyurl.Routes.Tokens.{token-route}
use shadyurl.Handlers.{
  sent, handle_post_outcome, handle_request, shorten, store_url, finish_post, valid_url, rendered,
  template_path,
}
use shadyurl.Handlers.Effects.{Env, World}
use shadyurl.Handlers.Form.{url, extract_url}

module _ (env : Env) (state : ServerState) where
  abbrev db_file : Bytes
  db_file = c_str (get_config_db_path state)

  -- The generator's result is a token.
  pub generated-IsToken :
      (rng : env.random.State) {token : Bytes} {rng' : env.random.State}
      → generate_random_filename env.random env.algo rng ≡ some (token, rng')
      → IsToken token
  generated-IsToken rng {token} e =
      let (t, st, e', p) = (generate_random_filename-IsToken env.random env.algo).at rng in
      let same : t ≡ token = cc in rw same at p

pub post_target :
    (illegal (codes "/post.html") ≡ false) × (select routes (codes "/post.html") ≡ some handle_post)
unfolding illegal select full_match
post_target = (refl, refl)

module _ (env : Env) (state : ServerState) where
  -- The state behind a POST whose token was drawn and whose row was inserted.
  abbrev stored : World env → env.sqlite.Db → env.random.State → World env
  stored w db' rng' = record w { db = db'; rng = rng' }

  pub post-stored :
      (req : Request) (w : World env) (u token : Bytes) (rng' : env.random.State)
      (db' : env.sqlite.Db)
      → req.method ≡ post
      → req.target ≡ codes "/post.html"
      → extract_url env req.content_type req.body ≡ ok (url u)
      → valid_url u ≡ true
      → Lacks 0 u
      → generate_random_filename env.random env.algo w.rng ≡ some (token, rng')
      → env.sqlite.prepare w.db
          (db_file env state)
          (env.sqlite.opens w.db (db_file env state))
          insert_url
        ≡ sqlite_ok
      → env.sqlite.step_insert w.db (db_file env state) token u ≡ (sqlite_done, db')
      → handle_request env state req w
        ≡ sent
            (rendered env state req (
              env.render
                (template_path env state req)
                (get_config_hostname state)
                (some (u, token))))
            (stored w db' rng')
  unfolding handle_request handle_post_outcome shorten store_url finish_post
  post-stored req w u token rng' db' m e extracted valid nul drawn prepared step =
      let (legal, route) = post_target in
      let (_, _, clean) = token-route token (generated-IsToken env state w.rng drawn) in
      ground (arith, legal, route, c_str_of_Lacks token clean, c_str_of_Lacks u nul)
