-- ===== src/Handlers.antt =====
-- include/request.hpp: the handlers. What a handler passes to `send` is its outcome; the database and
-- the random numbers are threaded through.
pub mod Effects
pub mod Form
pub mod Files
pub mod Extraction
pub mod Variants
pub mod Statuses
pub mod Builders
pub mod Confined
pub mod Formed
pub mod Kept
pub mod Posting
pub mod Shortening
use shadyurl.Common.{
  ℕ, Bool, true, false, not, ◌&&◌, ◌||◌, Option, none, some, List, [], ◌∷◌, ◌++◌, Bytes, codes,
  ◌==◌, if◌then◌else◌, drop, c_str, empty, starts_with,
}
use shadyurl.Common.Result.{Exception, Result, ok, thrown}
use shadyurl.PathUtil.{back, path_cat}
use shadyurl.ServerState.{ServerState, get_config_doc_root, get_config_hostname, get_config_db_path}
use shadyurl.Http.{
  Verb, get, head, post, other, Request, Response, bad_request, not_found, server_error, ok_string,
  redirect_permanent, ok_head_file, ok_get_file,
}
use shadyurl.Sqlite.{Sqlite, sqlite_ok, sqlite_row, sqlite_done, insert_url, select_url}
use shadyurl.Generate.{generate_random_filename}
use shadyurl.Routes.{
  Handler, handle_file, handle_post, handle_get_template, handle_get_url, routes, select, illegal,
}
use Effects.{Env, World, FileOpen, opened, no_such_file, open_error, Rendered, page, render_error}
use Form.{Extracted, refused, url, extract_url}

pub data Outcome (W : Type 0) : Type 0 where
  -- one response was sent, and this is the state behind it
  sent : Response → W → Outcome W
  -- an exception left the handler
  raised : Exception → W → Outcome W
  -- the generator ran out of fuel
  stuck : Outcome W

abbrev pub is_get : Verb → Bool
is_get get = true
is_get _ = false

abbrev pub is_head : Verb → Bool
is_head head = true
is_head _ = false

abbrev pub is_post : Verb → Bool
is_post post = true
is_post _ = false

abbrev pub bad_method : Bytes
bad_method = codes "Unknown HTTP-method"

-- What is served where the token is not found.
abbrev pub fallback_url : Bytes
fallback_url = codes "https://www.youtube.com/watch?v=dQw4w9WgXcQ?autoplay=1"

-- `url.starts_with("http://") || url.starts_with("https://")`
unfoldable pub valid_url : Bytes → Bool
unfolding starts_with
valid_url u = starts_with u (codes "http://") || starts_with u (codes "https://")

-- `step == SQLITE_ROW ? column 0 : …`
abbrev pub found_url : ℕ × Bytes → Bytes
found_url (step, column) = if step == sqlite_row then c_str column else fallback_url

-- `make_sqlite3_handle`: whether the handle that it returns is not null.
abbrev pub make_sqlite3_handle : (env : Env) → env.sqlite.Db → Bytes → Bool
make_sqlite3_handle env db db_name = env.sqlite.opens db db_name

module _ (env : Env) (state : ServerState) (req : Request) where
  -- `path_cat(docroot, target)`, and "index.html" behind a final '/'
  abbrev pub template_path : Bytes
  template_path =
      let path = path_cat (get_config_doc_root state) req.target in
      if back req.target == b'/' then path ++ codes "index.html" else path

  unfoldable pub handle_file_response : Response
  handle_file_response =
      let path = path_cat (get_config_doc_root state) req.target in
      let unknown = bad_request env.server req bad_method in
      if not (is_get req.method) && not (is_head req.method)
      then unknown
      else elim (env.open_file (c_str path)) [
        | no_such_file ↦ not_found env.server req req.target
        | open_error message ↦ server_error env.server req message
        | opened size ↦
            if is_head req.method
            then ok_head_file env.server req path size state
            else if is_get req.method
            then ok_get_file env.server req path size state
            else bad_request env.server req (codes "Unknown HTTP method")
      ]

  abbrev pub rendered : Rendered → Response
  rendered (page text) = ok_string env.server req text
  rendered (render_error what) = bad_request env.server req (codes "Could not serve page: " ++ what)

  unfoldable pub handle_get_template_response : Response
  handle_get_template_response =
      if not (is_get req.method)
      then bad_request env.server req bad_method
      else rendered (env.render template_path (get_config_hostname state) none)

  unfoldable pub handle_get_url_response : env.sqlite.Db → Response
  handle_get_url_response db =
      let file = c_str (get_config_db_path state) in
      let handle = make_sqlite3_handle env db file in
      let token = c_str (drop 1 req.target) in
      if not (is_get req.method)
      then bad_request env.server req bad_method
      else if not (env.sqlite.prepare db file handle select_url == sqlite_ok)
      then server_error env.server req (codes "SQL error: " ++ env.sqlite.errmsg db file handle)
      else if not (env.sqlite.bind_text db file token == sqlite_ok)
      then server_error env.server req (codes "SQL error:" ++ env.sqlite.errmsg db file handle)
      else redirect_permanent env.server req (found_url (env.sqlite.step_select db file token))

  -- What follows the step of the INSERT.
  unfoldable pub finish_post : Bytes → Bytes → Bool → ℕ → World env → Outcome (World env)
  finish_post u token handle step w =
      let file = c_str (get_config_db_path state) in
      if not (step == sqlite_done)
      then sent
          (server_error env.server req (codes "SQL error: " ++ env.sqlite.errmsg w.db file handle))
          w
      else sent (rendered (env.render template_path (get_config_hostname state) (some (u, token))))
          w

  -- What follows the choice of the token.
  unfoldable pub store_url : Bytes → Bytes → World env → Outcome (World env)
  store_url u token w =
      let file = c_str (get_config_db_path state) in
      let handle = make_sqlite3_handle env w.db file in
      let (step, db') = env.sqlite.step_insert w.db file (c_str token) (c_str u) in
      if not (env.sqlite.prepare w.db file handle insert_url == sqlite_ok)
      then sent
          (server_error env.server req (codes "SQL error: " ++ env.sqlite.errmsg w.db file handle))
          w
      else finish_post u token handle step (record w { db = db' })

  -- What follows the extraction of the URL.
  unfoldable pub shorten : Bytes → World env → Outcome (World env)
  shorten u w =
      if not (valid_url u)
      then sent (bad_request env.server req (codes "Invalid URL")) w
      else elim (generate_random_filename env.random env.algo w.rng) [
        | none ↦ stuck
        | some (token, rng') ↦ store_url u token (record w { rng = rng' })
      ]

  unfoldable pub handle_post_outcome : World env → Outcome (World env)
  handle_post_outcome w =
      if not (is_post req.method)
      then sent (bad_request env.server req bad_method) w
      else elim (extract_url env req.content_type req.body) [
        | thrown e ↦ raised e w
        | ok (refused why) ↦ sent (bad_request env.server req why) w
        | ok (url u) ↦ shorten u w
      ]

  abbrev pub run_handler : Option Handler → World env → Outcome (World env)
  run_handler none w = sent (not_found env.server req req.target) w
  run_handler (some handle_file) w = sent handle_file_response w
  run_handler (some handle_post) w = handle_post_outcome w
  run_handler (some handle_get_template) w = sent handle_get_template_response w
  run_handler (some handle_get_url) w = sent (handle_get_url_response w.db) w

  unfoldable pub handle_request : World env → Outcome (World env)
  handle_request w =
      if illegal req.target
      then sent (bad_request env.server req (codes "Illegal request-target")) w
      else run_handler (select routes req.target) w
