-- ===== src/Handlers/Builders.antt =====
-- Which of the response builders of include/request.hpp the handlers use.
use shadyurl.Common.{
  ℕ, ◌≡◌, inl, inr, refl, Bool, true, false, Option, none, some, Bytes, codes, ◌++◌, Bool-cases,
  if◌then◌else◌, Option-cases, c_str, not, ◌==◌, drop,
}
use shadyurl.Common.Result.{Result, ok, thrown}
use shadyurl.PathUtil.{path_cat}
use shadyurl.ServerState.{ServerState, get_config_doc_root, get_config_hostname, get_config_db_path}
use shadyurl.Sqlite.{sqlite_ok, insert_url, select_url}
use shadyurl.Generate.{generate_random_filename}
use shadyurl.Http.{
  Verb, get, head, post, other, Request, Response, bad_request, not_found, server_error, ok_string,
  redirect_permanent, ok_head_file, ok_get_file,
}
use shadyurl.Routes.{
  Handler, handle_file, handle_post, handle_get_template, handle_get_url, routes, select, illegal,
}
use shadyurl.Handlers.{
  Outcome, sent, raised, stuck, is_head, handle_request, run_handler, handle_file_response,
  handle_get_template_response, handle_get_url_response, handle_post_outcome, shorten, store_url,
  finish_post, rendered, template_path, found_url, is_get, bad_method, is_post, Verb,
}
use shadyurl.Handlers.Effects.{
  Env, World, FileOpen, opened, no_such_file, open_error, Rendered, page, render_error,
}
use shadyurl.Handlers.Form.{Extracted, refused, url, extract_url}

-- The response of an outcome, where there is one.
abbrev pub Answered : {env : Env} → (Response → Type 0) → Outcome (World env) → Type 0
Answered p (sent res w) = p res
Answered p (raised e w) = Unit
Answered p stuck = Unit

-- What holds of the response of each builder.
pub record Builders (env : Env) (state : ServerState) (req : Request) (p : Response → Type 0)
    : Type 0 where
  pub bad : (why : Bytes) → p (bad_request env.server req why)
  pub missing : (target : Bytes) → p (not_found env.server req target)
  pub failed : (what : Bytes) → p (server_error env.server req what)
  pub done : (text : Bytes) → is_head req.method ≡ false → p (ok_string env.server req text)
  pub moved : (u : Bytes) → p (redirect_permanent env.server req u)
  pub headed :
      (path : Bytes) (size : ℕ)
      → is_head req.method ≡ true
      → p (ok_head_file env.server req path size state)
  pub got :
      (path : Bytes) (size : ℕ)
      → is_head req.method ≡ false
      → p (ok_get_file env.server req path size state)

if-Holds : {A : Type 0} (q : A → Type 0) (b : Bool) (x y : A) → q x → q y → q (if b then x else y)
if-Holds q true x y h k = h
if-Holds q false x y h k = k

-- The same, where each side may use the test.
if-Cases :
    {A : Type 0} (q : A → Type 0) (b : Bool) (x y : A)
    → (b ≡ true → q x)
    → (b ≡ false → q y)
    → q (if b then x else y)
if-Cases q true x y h k = h refl
if-Cases q false x y h k = k refl

get_not_head : (m : Verb) → not (is_get m) ≡ false → is_head m ≡ false
get_not_head get h = refl
get_not_head head h = cc
get_not_head post h = cc
get_not_head other h = cc

post_not_head : (m : Verb) → not (is_post m) ≡ false → is_head m ≡ false
post_not_head get h = refl
post_not_head head h = cc
post_not_head post h = refl
post_not_head other h = refl

module _ (env : Env) (state : ServerState) (req : Request) (w : World env) (p : Response → Type 0)
    (built : Builders env state req p) where
  open built use {bad, missing, failed, done, moved, headed, got}

  rendered-Holds : (r : Rendered) → is_head req.method ≡ false → p (rendered env state req r)
  rendered-Holds (page text) h = done text h
  rendered-Holds (render_error what) h = bad _

  opened-Holds :
      (o : FileOpen)
      → env.open_file (c_str (path_cat (get_config_doc_root state) req.target)) ≡ o
      → p (handle_file_response env state req)
  unfolding handle_file_response
  opened-Holds (opened size) e = elim (Bool-cases (is_head req.method)) [
    | inl h ↦ rw (e, h) (if-Holds p _ _ _ (bad _) (headed _ size h))
    | inr h ↦ rw (e, h) (if-Holds p _ _ _ (bad _) (if-Holds p _ _ _ (got _ size h) (bad _)))
  ]
  opened-Holds no_such_file e = rw e (if-Holds p _ _ _ (bad _) (missing _))
  opened-Holds (open_error message) e = rw e (if-Holds p _ _ _ (bad _) (failed _))

  file-Holds : p (handle_file_response env state req)
  file-Holds =
      opened-Holds (env.open_file (c_str (path_cat (get_config_doc_root state) req.target))) refl

  template-Holds : p (handle_get_template_response env state req)
  unfolding handle_get_template_response
  template-Holds =
      if-Cases p (not (is_get req.method)) _ _ (λ _. bad _)
        (λ e. rendered-Holds _ (get_not_head req.method e))

  url-Holds : p (handle_get_url_response env state req w.db)
  unfolding handle_get_url_response
  url-Holds =
      let file = c_str (get_config_db_path state) in
      let handle = env.sqlite.opens w.db file in
      let token = c_str (drop 1 req.target) in
      let error = env.sqlite.errmsg w.db file handle in
      let there = moved (found_url (env.sqlite.step_select w.db file token)) in
      let bound =
        if-Holds p (not (env.sqlite.bind_text w.db file token == sqlite_ok)) _ _
          (failed (codes "SQL error:" ++ error)) there in
      let prepared =
        if-Holds p (not (env.sqlite.prepare w.db file handle select_url == sqlite_ok)) _ _
          (failed (codes "SQL error: " ++ error)) bound in
      if-Holds p (not (is_get req.method)) _ _ (bad bad_method) prepared

  finish-Answered :
      (u token : Bytes) (handle : Bool) (step : ℕ) (w' : World env)
      → is_head req.method ≡ false
      → Answered p (finish_post env state req u token handle step w')
  unfolding finish_post
  finish-Answered u token handle step w' h =
      if-Holds (Answered p) _ (sent _ w') (sent _ w')
        (failed (
          codes "SQL error: " ++ env.sqlite.errmsg w'.db (c_str (get_config_db_path state)) handle))
        (rendered-Holds
          (env.render (template_path env state req) (get_config_hostname state) (some (u, token)))
          h)

  store-Answered :
      (u token : Bytes) (w' : World env)
      → is_head req.method ≡ false
      → Answered p (store_url env state req u token w')
  unfolding store_url
  store-Answered u token w' h =
      let file = c_str (get_config_db_path state) in
      let handle = env.sqlite.opens w'.db file in
      let step = env.sqlite.step_insert w'.db file (c_str token) (c_str u) in
      if-Holds (Answered p) (not (env.sqlite.prepare w'.db file handle insert_url == sqlite_ok)) _ _
        (failed (codes "SQL error: " ++ env.sqlite.errmsg w'.db file handle))
        (finish-Answered u token handle step.0 (record w' { db = step.1 }) h)

  shorten-Answered :
      (u : Bytes) → is_head req.method ≡ false → Answered p (shorten env state req u w)
  unfolding shorten
  shorten-Answered u h = elim (Option-cases (generate_random_filename env.random env.algo w.rng)) [
    | inl n ↦ rw n (if-Holds (Answered p) _ (sent _ w) stuck (bad _) tt)
    | inr ((token, rng'), d) ↦ rw d (
        if-Holds (Answered p) _ (sent _ w) _ (bad _)
          (store-Answered u token (record w { rng = rng' }) h))
  ]

  extracted-Answered :
      (r : Result Extracted)
      → extract_url env req.content_type req.body ≡ r
      → Answered p (handle_post_outcome env state req w)
  unfolding handle_post_outcome
  extracted-Answered (thrown e) h =
      rw h (if-Holds (Answered p) _ (sent _ w) (raised e w) (bad _) tt)
  extracted-Answered (ok (refused why)) h =
      rw h (if-Holds (Answered p) _ (sent _ w) (sent _ w) (bad _) (bad _))
  extracted-Answered (ok (url u)) h = rw h (
      if-Cases (Answered p) (not (is_post req.method)) (sent _ w) (shorten env state req u w)
        (λ _. bad _) (λ e. shorten-Answered u (post_not_head req.method e)))

  handler-Answered : (o : Option Handler) → Answered p (run_handler env state req o w)
  handler-Answered none = missing _
  handler-Answered (some handle_file) = file-Holds
  handler-Answered (some handle_post) =
      extracted-Answered (extract_url env req.content_type req.body) refl
  handler-Answered (some handle_get_template) = template-Holds
  handler-Answered (some handle_get_url) = url-Holds

  -- What holds of every builder's response holds of the one that a request gets.
  pub handle_request-Answered : Answered p (handle_request env state req w)
  unfolding handle_request
  handle_request-Answered =
      if-Holds (Answered p) (illegal req.target) (sent _ w)
        (run_handler env state req (select routes req.target) w)
        (bad (codes "Illegal request-target")) (handler-Answered (select routes req.target))
