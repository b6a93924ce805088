-- ===== src/Store/Location.antt =====
-- The Location field of the responses: only `redirect_permanent` sets it.
use shadyurl.Common.{
  ℕ, ◌≡◌, inl, inr, refl, Bool, true, Option, none, some, Bytes, drop, c_str, starts_with, arith,
  Bool-cases, Option-cases,
}
use shadyurl.ServerState.{ServerState, get_config_hostname, get_config_db_path}
use shadyurl.Common.Result.{Result, ok, thrown}
use shadyurl.Generate.{generate_random_filename}
use shadyurl.Handlers.Form.{Extracted, refused, url, extract_url}
use shadyurl.Http.{Request}
use shadyurl.Routes.{
  Handler, handle_file, handle_post, handle_get_template, handle_get_url, routes, select, illegal,
}
use shadyurl.Handlers.{
  Outcome, sent, raised, stuck, valid_url, handle_request, run_handler, handle_file_response,
  handle_get_template_response, handle_get_url_response, handle_post_outcome, shorten, store_url,
  finish_post, rendered, template_path,
}
use shadyurl.Handlers.Effects.{Env, World, Rendered, page, render_error}
use shadyurl.Store.{target_of, found_url-view}
use shadyurl.Store.Refined.{view_of}

abbrev pub location_of : {env : Env} → Outcome (World env) → Option Bytes
location_of (sent res w) = res.location
location_of (raised e w) = none
location_of stuck = none

pub target_of-valid :
    (o : Option Bytes)
    → ((u : Bytes) → o ≡ some u → valid_url u ≡ true)
    → valid_url (target_of o) ≡ true
unfolding valid_url starts_with
target_of-valid none h = refl
target_of-valid (some u) h = h u refl

module _ (env : Env) (state : ServerState) (req : Request) (w : World env) where
  rendered-location : (r : Rendered) → (rendered env state req r).location ≡ none
  rendered-location (page text) = refl
  rendered-location (render_error what) = refl

  finish_post-location :
      (u token : Bytes) (handle : Bool) (step : ℕ) (w' : World env)
      → location_of (finish_post env state req u token handle step w') ≡ none
  unfolding finish_post
  finish_post-location u token handle step w' = ground arith

  store_url-location :
      (u token : Bytes) (w' : World env) → location_of (store_url env state req u token w') ≡ none
  unfolding store_url
  store_url-location u token w' =
      let file = c_str (get_config_db_path state) in
      let step = env.sqlite.step_insert w'.db file (c_str token) (c_str u) in
      ground (
        arith,
        finish_post-location u token (env.sqlite.opens w'.db file) step.0
            (record w' { db = step.1 }),
      )

  handle_file-location : (handle_file_response env state req).location ≡ none
  unfolding handle_file_response
  handle_file-location = ground arith

  handle_get_template-location : (handle_get_template_response env state req).location ≡ none
  unfolding handle_get_template_response
  handle_get_template-location = ground (
    arith,
    rendered-location (env.render (template_path env state req) (get_config_hostname state) none),
  )

  shorten-location : (u : Bytes) → location_of (shorten env state req u w) ≡ none
  unfolding shorten
  shorten-location u = elim (Option-cases (generate_random_filename env.random env.algo w.rng)) [
    | inl n ↦ ground (arith, n)
    | inr ((token, rng'), d) ↦
        ground (arith, d, store_url-location u token (record w { rng = rng' }))
  ]

  extracted-location :
      (r : Result Extracted)
      → extract_url env req.content_type req.body ≡ r
      → location_of (handle_post_outcome env state req w) ≡ none
  unfolding handle_post_outcome
  extracted-location (thrown e) h = ground (arith, h)
  extracted-location (ok (refused why)) h = ground (arith, h)
  extracted-location (ok (url u)) h = ground (arith, h, shorten-location u)

  handle_get_url-location :
      (u : Bytes)
      → (handle_get_url_response env state req w.db).location ≡ some u
      → u ≡ target_of (view_of env state w.db (c_str (drop 1 req.target)))
  unfolding handle_get_url_response
  handle_get_url-location u h =
      let e =
        found_url-view env.sqlite (c_str (get_config_db_path state)) w.db
          (c_str (drop 1 req.target)) in
      ground (arith, e)

  run_handler-location :
      (o : Option Handler) (u : Bytes)
      → location_of (run_handler env state req o w) ≡ some u
      → u ≡ target_of (view_of env state w.db (c_str (drop 1 req.target)))
  run_handler-location none u h = cc
  run_handler-location (some handle_file) u h = cc (handle_file-location)
  run_handler-location (some handle_post) u h =
      cc (extracted-location (extract_url env req.content_type req.body) refl)
  run_handler-location (some handle_get_template) u h = cc (handle_get_template-location)
  run_handler-location (some handle_get_url) u h = handle_get_url-location u h

  -- A response with a Location field leads to what the map has for the target behind its first
  -- character, or to the fallback.
  pub handle_request-location :
      (u : Bytes)
      → location_of (handle_request env state req w) ≡ some u
      → u ≡ target_of (view_of env state w.db (c_str (drop 1 req.target)))
  unfolding handle_request
  handle_request-location u h = elim (Bool-cases (illegal req.target)) [
    | inl e ↦ ground (arith, e)
    | inr e ↦ run_handler-location (select routes req.target) u (ground (arith, e))
  ]
