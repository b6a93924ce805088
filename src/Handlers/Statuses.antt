-- ===== src/Handlers/Statuses.antt =====
-- What the status of the response to a POST says of the database.
use shadyurl.Common.{
  ◌≡◌, ◌≢◌, ◌⊎◌, inl, inr, refl, Bool, true, false, Option, none, some, Bytes, codes, ◌++◌, ◌==◌,
  c_str, arith, Bool-cases, Option-cases,
}
use shadyurl.Common.Result.{Result, ok, thrown}
use shadyurl.ServerState.{ServerState, get_config_db_path}
use shadyurl.Sqlite.{sqlite_ok, sqlite_done, insert_url}
use shadyurl.Generate.{generate_random_filename}
use shadyurl.Http.{post, Request, Response, bad_request}
use shadyurl.Routes.{
  Handler, handle_file, handle_post, handle_get_template, handle_get_url, routes, select, illegal,
}
use shadyurl.Handlers.{
  Outcome, sent, raised, stuck, handle_request, run_handler, handle_file_response,
  handle_get_template_response, handle_get_url_response, handle_post_outcome, shorten, store_url,
  finish_post, rendered, valid_url,
}
use shadyurl.Handlers.Effects.{Env, World, Rendered, page, render_error}
use shadyurl.Handlers.Form.{Extracted, refused, url, extract_url}

module _ (env : Env) (state : ServerState) (req : Request) where
  abbrev file : Bytes
  file = c_str (get_config_db_path state)

  -- SQLite has inserted a row with a valid URL.
  abbrev pub Stored : env.sqlite.Db → env.sqlite.Db → Type 0
  Stored db db' =
      (token : Bytes) × (u : Bytes) × (valid_url u ≡ true)
      × (env.sqlite.step_insert db file (c_str token) (c_str u) ≡ (sqlite_done, db'))

  -- A POST that is refused before its row: its target is illegal or not that of `handle_post`, or its
  -- body gives no URL, or one with another scheme.
  abbrev pub Refused : Type 0
  Refused =
      ((illegal req.target ≡ true) ⊎ (select routes req.target ≢ some handle_post))
      ⊎ (((why : Bytes) × (extract_url env req.content_type req.body ≡ ok (refused why)))
          ⊎ ((u : Bytes) × (extract_url env req.content_type req.body ≡ ok (url u))
              × (valid_url u ≡ false)))

  -- The response to a POST, and the database before it and after it: 200 with a row inserted; 400 with
  -- a row inserted, where its page cannot be rendered; 400 with nothing changed, where the request is
  -- refused; or 404 or 500 with nothing changed.
  abbrev pub Told : env.sqlite.Db → Response → env.sqlite.Db → Type 0
  Told db res db' =
      ((res.status ≡ 200) × Stored db db')
      ⊎ (((what : Bytes) × (res
              ≡ bad_request env.server req (codes "Could not serve page: " ++ what))
            × Stored db db')
          ⊎ (((((res.status ≡ 400) × Refused) ⊎ (res.status ≡ 404)) ⊎ (res.status ≡ 500))
              × (db' ≡ db)))

  abbrev pub Tells : env.sqlite.Db → Outcome (World env) → Type 0
  Tells db (sent res w) = Told db res w.db
  Tells db (raised e w) = w.db ≡ db
  Tells db stuck = Unit

  rendered-Told :
      (r : Rendered) (db db' : env.sqlite.Db)
      → Stored db db'
      → Told db (rendered env state req r) db'
  rendered-Told (page text) db db' st = inl (refl, st)
  rendered-Told (render_error what) db db' st = inr (inl (what, refl, st))

  finish-Tells :
      (u token : Bytes) (handle : Bool) (w : World env)
      → valid_url u ≡ true
      → Tells w.db (
          finish_post env state req u token handle
            (env.sqlite.step_insert w.db file (c_str token) (c_str u)).0
            (record w { db = (env.sqlite.step_insert w.db file (c_str token) (c_str u)).1 }))
  unfolding finish_post
  finish-Tells u token handle w v =
      let step = env.sqlite.step_insert w.db file (c_str token) (c_str u) in
      elim (Bool-cases (step.0 == sqlite_done)) [
        | inl e ↦
            let fine : step.0 ≡ sqlite_done = ground arith in
            rw e (rendered-Told _ w.db step.1 (token, u, v, λ i. (fine i, step.1)))
        | inr e ↦
            let failed : step.0 ≢ sqlite_done = λ k. ground arith in
            rw e (
              inr
                (inr (inr refl, env.sqlite.insert_failed w.db file (c_str token) (c_str u) failed)))
      ]

  store-Tells :
      (u token : Bytes) (w : World env)
      → valid_url u ≡ true
      → Tells w.db (store_url env state req u token w)
  unfolding store_url
  store-Tells u token w v =
      let handle = env.sqlite.opens w.db file in
      elim (Bool-cases (env.sqlite.prepare w.db file handle insert_url == sqlite_ok)) [
        | inl e ↦ rw e (finish-Tells u token handle w v)
        | inr e ↦ rw e (inr (inr (inr refl, refl)))
      ]

  shorten-Tells :
      (u : Bytes) (w : World env)
      → extract_url env req.content_type req.body ≡ ok (url u)
      → Tells w.db (shorten env state req u w)
  unfolding shorten
  shorten-Tells u w x = elim (Bool-cases (valid_url u)) [
    | inr e ↦ rw e (inr (inr (inl (inl (refl, inr (inr (u, x, e)))), refl)))
    | inl e ↦ elim (Option-cases (generate_random_filename env.random env.algo w.rng)) [
      | inl n ↦ rw (e, n) tt
      | inr ((token, rng), d) ↦ rw (e, d) (store-Tells u token (record w { rng = rng }) e)
    ]
  ]

  post-Tells :
      (r : Result Extracted) (w : World env)
      → req.method ≡ post
      → extract_url env req.content_type req.body ≡ r
      → Tells w.db (handle_post_outcome env state req w)
  unfolding handle_post_outcome
  post-Tells (thrown e) w m h = rw (m, h) refl
  post-Tells (ok (refused why)) w m h =
      rw (m, h) (inr (inr (inl (inl (refl, inr (inl (why, h)))), refl)))
  post-Tells (ok (url u)) w m h = rw (m, h) (shorten-Tells u w h)

  -- A handler that is not `handle_post` takes no POST.
  bad-Told :
      (o : Handler) (res : Response) (db : env.sqlite.Db)
      → select routes req.target ≡ some o
      → o ≢ handle_post
      → res.status ≡ 400
      → Told db res db
  bad-Told o res db h ne e = inr (inr (inl (inl (e, inl (inr (λ k. ne (ground arith))))), refl))

  handler-Tells :
      (o : Option Handler) (w : World env)
      → select routes req.target ≡ o
      → req.method ≡ post
      → Tells w.db (run_handler env state req o w)
  unfolding handle_file_response handle_get_template_response handle_get_url_response
  handler-Tells none w h m = inr (inr (inl (inr refl), refl))
  handler-Tells (some handle_file) w h m = bad-Told handle_file _ w.db h (λ k. cc) (ground arith)
  handler-Tells (some handle_post) w h m =
      post-Tells (extract_url env req.content_type req.body) w m refl
  handler-Tells (some handle_get_template) w h m =
      bad-Told handle_get_template _ w.db h (λ k. cc) (ground arith)
  handler-Tells (some handle_get_url) w h m =
      bad-Told handle_get_url _ w.db h (λ k. cc) (ground arith)

  -- The status of the response to a POST tells what became of the database: with 200 SQLite has
  -- inserted a row with a valid URL; with 400 it has, and the page could not be rendered, or nothing has
  -- changed, and the request was refused for its target, for want of a URL or for the URL's scheme;
  -- with 404 and 500, and after an exception, nothing has changed.
  pub handle_request-Tells :
      (w : World env) → req.method ≡ post → Tells w.db (handle_request env state req w)
  unfolding handle_request
  handle_request-Tells w m = elim (Bool-cases (illegal req.target)) [
    | inl e ↦ rw e (inr (inr (inl (inl (refl, inl (inl e))), refl)))
    | inr e ↦ rw e (handler-Tells (select routes req.target) w refl m)
  ]
