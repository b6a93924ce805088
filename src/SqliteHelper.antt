-- ===== src/SqliteHelper.antt =====
-- include/sqlite_helper.hpp, and the handlers of include/request.hpp that use it, once more: here with
-- the order of their calls of SQLite, those of the destructors among them.
pub mod Released
use shadyurl.Common.{
  ℕ, Bool, true, false, not, Option, none, some, List, [], ◌∷◌, ◌++◌, Bytes, codes, ◌==◌,
  if◌then◌else◌, c_str, drop,
}
use shadyurl.Common.Result.{ok, thrown}
use shadyurl.ServerState.{ServerState, get_config_hostname, get_config_db_path}
use shadyurl.Http.{Request, Response, bad_request, not_found, server_error, redirect_permanent}
use shadyurl.Sqlite.{Sqlite, sqlite_ok, sqlite_row, sqlite_done, insert_url, select_url}
use shadyurl.Generate.{generate_random_filename}
use shadyurl.Routes.{
  Handler, handle_file, handle_post, handle_get_template, handle_get_url, routes, select, illegal,
}
use shadyurl.Handlers.{
  Outcome, sent, raised, stuck, is_get, is_post, bad_method, fallback_url, found_url, valid_url,
  rendered, template_path, handle_file_response, handle_get_template_response,
}
use shadyurl.Handlers.Effects.{Env, World}
use shadyurl.Handlers.Form.{refused, url, extract_url}

-- `open` says whether a connection was allocated, `prepare` whether there is a statement to finalize.
pub data Call : Type 0 where
  opens : Bool → Call
  close : Call
  prepare : Bool → Call
  bind_text : Call
  steps : Call
  column_text : Call
  errmsg : Call
  finalize : Call
  send : Call

-- A value with the calls that lead to it.
abbrev pub Traced : Type 0 → Type 0
Traced A = List Call × A

infixl 5 ◌>>=◌ ◌>>◌
abbrev pub ◌>>=◌ : {A B : Type 0} → Traced A → (A → Traced B) → Traced B
m >>= f = (m.0 ++ (f m.1).0, (f m.1).1)

abbrev pub ◌>>◌ : {A B : Type 0} → Traced A → Traced B → Traced B
m >> k = (m.0 ++ k.0, k.1)

abbrev pub pure : {A : Type 0} → A → Traced A
pure a = ([], a)

abbrev pub call : {A : Type 0} → Call → A → Traced A
call c a = (c ∷ [], a)

-- `~scope_exit`
abbrev pub scope_exit : {A : Type 0} → Traced A → Traced A
scope_exit m = m >>= λ a. call finalize a

-- `sqlite3_handle_deleter`, which a `unique_ptr` calls for a pointer that is not null.
abbrev pub delete : Bool → Traced (Unit {0})
delete true = call close tt
delete false = pure tt

-- `allocated` says whether the pointer of a failed `sqlite3_open` is not null, which it is unless the
-- memory runs out.
module _ (env : Env) (allocated : Bool) (state : ServerState) (req : Request) where
  abbrev file : Bytes
  file = c_str (get_config_db_path state)

  -- `if(rc) h.reset();`
  unfoldable pub make_handle : env.sqlite.Db → Traced Bool
  make_handle db =
      let failed = do call (opens allocated) tt; delete allocated; pure false
      in if env.sqlite.opens db file then call (opens true) true else failed

  -- The scope of the handle.
  abbrev with_handle : {A : Type 0} → env.sqlite.Db → (Bool → Traced A) → Traced A
  with_handle db body = do handle ← make_handle db; a ← body handle; delete handle; pure a

  abbrev sends : {A : Type 0} → A → Traced A
  sends a = call send a

  -- Behind `sqlite3_prepare_v2` of the SELECT.
  unfoldable pub select_calls : env.sqlite.Db → Bool → Traced Response
  select_calls db handle =
      let token = c_str (drop 1 req.target) in
      let row = env.sqlite.step_select db file token in
      let unbound = do
        call bind_text tt
        e ← call errmsg (env.sqlite.errmsg db file handle)
        sends (server_error env.server req (codes "SQL error:" ++ e))
      in let found = do
        call bind_text tt
        call steps tt
        u ← call column_text (found_url row)
        sends (redirect_permanent env.server req u)
        in let missed = do
          call bind_text tt
          call steps tt
          sends (redirect_permanent env.server req fallback_url)
          in if not (env.sqlite.bind_text db file token == sqlite_ok)
            then unbound
            else if row.0 == sqlite_row
            then found
            else missed

  unfoldable pub prepared_select : env.sqlite.Db → Bool → Traced Response
  unfolding select_calls
  prepared_select db handle =
      let failed = do
        call (prepare false) tt
        e ← call errmsg (env.sqlite.errmsg db file handle)
        sends (server_error env.server req (codes "SQL error: " ++ e))
      in let bound = do call (prepare true) tt; scope_exit (select_calls db handle)
        in if not (env.sqlite.prepare db file handle select_url == sqlite_ok) then failed else bound

  unfoldable pub traced_get_url : env.sqlite.Db → Traced Response
  unfolding make_handle prepared_select
  traced_get_url db =
      let asked = with_handle db (prepared_select db) in
      if not (is_get req.method) then sends (bad_request env.server req bad_method) else asked

  -- Behind `sqlite3_prepare_v2` of the INSERT; the results of the two bindings are not looked at.
  unfoldable pub insert_calls : Bytes → Bytes → World env → Bool → Traced (Outcome (World env))
  insert_calls u token w handle =
      let (step, db') = env.sqlite.step_insert w.db file (c_str token) (c_str u) in
      let w' : World env = record w { db = db' } in
      let undone = do
        call bind_text tt
        call bind_text tt
        call steps tt
        e ← call errmsg (env.sqlite.errmsg db' file handle)
        sends (sent (server_error env.server req (codes "SQL error: " ++ e)) w')
      in let page =
          env.render (template_path env state req) (get_config_hostname state) (some (u, token)) in
        let inserted = do
          call bind_text tt
          call bind_text tt
          call steps tt
          sends (sent (rendered env state req page) w')
        in if not (step == sqlite_done) then undone else inserted

  unfoldable pub prepared_insert : Bytes → Bytes → World env → Bool → Traced (Outcome (World env))
  unfolding insert_calls
  prepared_insert u token w handle =
      let failed = do
        call (prepare false) tt
        e ← call errmsg (env.sqlite.errmsg w.db file handle)
        sends (sent (server_error env.server req (codes "SQL error: " ++ e)) w)
      in let bound = do call (prepare true) tt; scope_exit (insert_calls u token w handle)
        in if not (env.sqlite.prepare w.db file handle insert_url == sqlite_ok)
          then failed
          else bound

  unfoldable pub traced_store : Bytes → Bytes → World env → Traced (Outcome (World env))
  unfolding make_handle prepared_insert
  traced_store u token w = with_handle w.db (prepared_insert u token w)

  unfoldable pub traced_shorten : Bytes → World env → Traced (Outcome (World env))
  unfolding traced_store
  traced_shorten u w =
      if not (valid_url u)
      then sends (sent (bad_request env.server req (codes "Invalid URL")) w)
      else elim (generate_random_filename env.random env.algo w.rng) [
        | none ↦ pure stuck
        | some (token, rng') ↦ traced_store u token (record w { rng = rng' })
      ]

  unfoldable pub traced_post : World env → Traced (Outcome (World env))
  unfolding traced_shorten
  traced_post w =
      if not (is_post req.method)
      then sends (sent (bad_request env.server req bad_method) w)
      else elim (extract_url env req.content_type req.body) [
        | thrown e ↦ pure (raised e w)
        | ok (refused why) ↦ sends (sent (bad_request env.server req why) w)
        | ok (url u) ↦ traced_shorten u w
      ]

  abbrev pub as_outcome : World env → Traced Response → Traced (Outcome (World env))
  as_outcome w m = m >>= λ res. pure (sent res w)

  abbrev pub traced_handler : Option Handler → World env → Traced (Outcome (World env))
  traced_handler none w = sends (sent (not_found env.server req req.target) w)
  traced_handler (some handle_file) w = sends (sent (handle_file_response env state req) w)
  traced_handler (some handle_post) w = traced_post w
  traced_handler (some handle_get_template) w =
      sends (sent (handle_get_template_response env state req) w)
  traced_handler (some handle_get_url) w = as_outcome w (traced_get_url w.db)

  unfoldable pub traced_request : World env → Traced (Outcome (World env))
  unfolding traced_post traced_get_url
  traced_request w =
      if illegal req.target
      then sends (sent (bad_request env.server req (codes "Illegal request-target")) w)
      else traced_handler (select routes req.target) w
