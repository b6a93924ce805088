-- ===== src/SqliteHelper/Released.antt =====
-- Each connection is closed and each statement finalized, once and in order.
use shadyurl.Common.{
  ℕ, suc, ◌≡◌, refl, ap, Bool, true, false, Option, none, some, List, [], ◌∷◌, Bytes, c_str, arith,
  Bool-cases, Option-cases, inl, inr,
}
use shadyurl.Common.Result.{Result, ok, thrown}
use shadyurl.ServerState.{ServerState, get_config_db_path}
use shadyurl.Http.{Request}
use shadyurl.Generate.{generate_random_filename}
use shadyurl.Routes.{
  Handler, handle_file, handle_post, handle_get_template, handle_get_url, routes, select, illegal,
}
use shadyurl.Handlers.{
  Outcome, sent, raised, stuck, valid_url, handle_request, run_handler, handle_post_outcome,
  shorten, store_url, finish_post, handle_get_url_response,
}
use shadyurl.Handlers.Effects.{Env, World}
use shadyurl.Handlers.Form.{Extracted, refused, url, extract_url}
use shadyurl.SqliteHelper.{
  Call, opens, close, prepare, bind_text, steps, column_text, errmsg, finalize, send, Traced,
  traced_get_url, traced_store, traced_shorten, traced_post, traced_handler, traced_request,
}

-- What is held: nothing, a connection, or a connection with a statement.
pub data Phase : Type 0 where
  idle : Phase
  connected : Phase
  ready : Phase

-- A call where it may be made; the null connection holds nothing, and takes no statement.
abbrev pub follow : Call → Phase → Option Phase
follow (opens true) idle = some connected
follow (opens false) idle = some idle
follow close connected = some idle
follow (prepare true) connected = some ready
follow (prepare false) connected = some connected
follow (prepare false) idle = some idle
follow bind_text ready = some ready
follow steps ready = some ready
follow column_text ready = some ready
follow finalize ready = some connected
follow errmsg p = some p
follow send p = some p
follow _ _ = none

abbrev pub follows : List Call → Phase → Option Phase
follows [] p = some p
follows (c ∷ cs) p = elim (follow c p) [ none ↦ none | some p' ↦ follows cs p' ]

abbrev pub sends : List Call → ℕ
sends [] = 0
sends (send ∷ cs) = suc (sends cs)
sends (_ ∷ cs) = sends cs

-- One response for an outcome that has one.
abbrev pub responses : {W : Type 0} → Outcome W → ℕ
responses (sent res w) = 1
responses (raised e w) = 0
responses stuck = 0

module _ (W : Type 0) where
  -- Everything that was acquired is released, and `send` is called as often as there are responses.
  pub record IsReleased (m : Traced (Outcome W)) : Type 0 where
    pub balanced : follows m.0 idle ≡ some idle
    pub answered : sends m.0 ≡ responses m.1

module _ (env : Env) (allocated : Bool) (state : ServerState) (req : Request) where
  abbrev file : Bytes
  file = c_str (get_config_db_path state)

  get_url-value :
      (db : env.sqlite.Db)
      → (traced_get_url env allocated state req db).1 ≡ handle_get_url_response env state req db
  unfolding traced_get_url handle_get_url_response
  get_url-value db = ground arith

  store-value :
      (u token : Bytes) (w : World env)
      → (traced_store env allocated state req u token w).1 ≡ store_url env state req u token w
  unfolding traced_store store_url finish_post
  store-value u token w = ground arith

  shorten-value :
      (u : Bytes) (w : World env)
      → (traced_shorten env allocated state req u w).1 ≡ shorten env state req u w
  unfolding traced_shorten shorten
  shorten-value u w = elim (Bool-cases (valid_url u)) [
    | inr e ↦ rw e refl
    | inl e ↦ elim (Option-cases (generate_random_filename env.random env.algo w.rng)) [
      | inl n ↦ rw (e, n) refl
      | inr ((token, rng'), d) ↦ rw (e, d) (store-value u token (record w { rng = rng' }))
    ]
  ]

  post-value :
      (w : World env) (r : Result Extracted)
      → extract_url env req.content_type req.body ≡ r
      → (traced_post env allocated state req w).1 ≡ handle_post_outcome env state req w
  unfolding traced_post handle_post_outcome
  post-value w (thrown x) h = ground (arith, h)
  post-value w (ok (refused why)) h = ground (arith, h)
  post-value w (ok (url u)) h = ground (arith, h, shorten-value u w)

  handler-value :
      (w : World env) (o : Option Handler)
      → (traced_handler env allocated state req o w).1 ≡ run_handler env state req o w
  handler-value w none = refl
  handler-value w (some handle_file) = refl
  handler-value w (some handle_post) = post-value w (extract_url env req.content_type req.body) refl
  handler-value w (some handle_get_template) = refl
  handler-value w (some handle_get_url) = ap (λ res. sent res w) (get_url-value w.db)

  -- The handlers with their calls and the handlers without have the same outcome.
  pub traced_request-value :
      (w : World env)
      → (traced_request env allocated state req w).1 ≡ handle_request env state req w
  unfolding traced_request handle_request
  traced_request-value w = elim (Bool-cases (illegal req.target)) [
    | inl e ↦ rw e refl
    | inr e ↦ rw e (handler-value w (select routes req.target))
  ]
