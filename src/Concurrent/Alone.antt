-- ===== src/Concurrent/Alone.antt =====
-- A call that is not interrupted is `handle_request`.
use shadyurl.Common.{
  ◌≡◌, refl, ap, Option, none, some, [], ◌∷◌, Bytes, arith, Bool-cases, Option-cases, inl, inr,
}
use shadyurl.Common.Result.{Result, ok, thrown}
use shadyurl.ServerState.{ServerState}
use shadyurl.Http.{Request}
use shadyurl.Generate.{generate_random_filename}
use shadyurl.Routes.{
  Handler, handle_file, handle_post, handle_get_template, handle_get_url, routes, select, illegal,
}
use shadyurl.Handlers.{
  Outcome, sent, raised, stuck, is_post, valid_url, handle_request, run_handler,
  handle_post_outcome, shorten, store_url, finish_post, handle_get_url_response,
}
use shadyurl.Handlers.Effects.{Env, World}
use shadyurl.Handlers.Form.{Extracted, refused, url, extract_url}
use shadyurl.Concurrent.{
  reply_of, Call, waiting, done, begin_insert, begin_shorten, begin_post, begin_get_url,
  begin_handler, begin, proceed, interleave, proceed_at, goes_on,
}

module _ (env : Env) (state : ServerState) where
  -- The database behind an outcome, which is that before it where there is no response.
  abbrev pub db_of : env.sqlite.Db → Outcome (World env) → env.sqlite.Db
  db_of db (sent res w) = w.db
  db_of db (raised e w) = db
  db_of db stuck = db

  -- The rest of a call, in one turn.
  abbrev pub Ends : Call env → env.sqlite.Db → Outcome (World env) → Type 0
  Ends c db o = proceed env state c db ≡ (done (reply_of o), db_of db o)

  module _ (req : Request) (w : World env) where
    insert-Ends :
        (u token : Bytes) (rng : env.random.State)
        → Ends
            (begin_insert env state req u token rng w.db)
            w.db
            (store_url env state req u token (record w { rng = rng }))
    unfolding begin_insert proceed store_url finish_post
    insert-Ends u token rng = ground arith

    shorten-Ends :
        (u : Bytes)
        → Ends (begin_shorten env state req u w.rng w.db) w.db (shorten env state req u w)
    unfolding begin_shorten shorten proceed
    shorten-Ends u = elim (Bool-cases (valid_url u)) [
      | inr e ↦ rw e refl
      | inl e ↦ elim (Option-cases (generate_random_filename env.random env.algo w.rng)) [
        | inl n ↦ rw (e, n) refl
        | inr ((token, rng'), d) ↦ rw (e, d) (insert-Ends u token rng')
      ]
    ]

    post-Ends :
        (r : Result Extracted)
        → extract_url env req.content_type req.body ≡ r
        → Ends (begin_post env state req w.rng w.db) w.db (handle_post_outcome env state req w)
    unfolding begin_post handle_post_outcome proceed
    post-Ends (thrown e) h = elim (Bool-cases (is_post req.method)) [
      | inr b ↦ rw b refl
      | inl b ↦ rw (b, h) refl
    ]
    post-Ends (ok (refused why)) h = elim (Bool-cases (is_post req.method)) [
      | inr b ↦ rw b refl
      | inl b ↦ rw (b, h) refl
    ]
    post-Ends (ok (url u)) h = elim (Bool-cases (is_post req.method)) [
      | inr b ↦ rw b refl
      | inl b ↦ rw (b, h) (shorten-Ends u)
    ]

    get_url-Ends :
        Ends
          (begin_get_url env state req w.db)
          w.db
          (sent (handle_get_url_response env state req w.db) w)
    unfolding begin_get_url handle_get_url_response proceed
    get_url-Ends = ground arith

    handler-Ends :
        (o : Option Handler)
        → Ends (begin_handler env state o req w.rng w.db) w.db (run_handler env state req o w)
    unfolding proceed
    handler-Ends none = refl
    handler-Ends (some handle_file) = refl
    handler-Ends (some handle_post) = post-Ends (extract_url env req.content_type req.body) refl
    handler-Ends (some handle_get_template) = refl
    handler-Ends (some handle_get_url) = get_url-Ends

    pub begin-Ends : Ends (begin env state req w.rng w.db) w.db (handle_request env state req w)
    unfolding begin handle_request proceed
    begin-Ends = elim (Bool-cases (illegal req.target)) [
      | inl e ↦ rw e refl
      | inr e ↦ rw e (handler-Ends (select routes req.target))
    ]

    -- A call whose turns are not interrupted ends as `handle_request` does, with the same database.
    pub interleave-alone :
        interleave env state (goes_on 0 ∷ goes_on 0 ∷ []) (waiting req w.rng ∷ []) w.db ≡ (
          done (reply_of (handle_request env state req w)) ∷ [],
          db_of w.db (handle_request env state req w),
        )
    unfolding interleave proceed_at
    interleave-alone = ap (λ r. (r.0 ∷ [], r.1)) begin-Ends
