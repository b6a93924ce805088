-- ===== src/Concurrent.antt =====
-- Calls of `handle_request` of include/request.hpp on several threads at once, each with a connection
-- of its own to the database. A call is cut at its `sqlite3_step`: what comes before, up to the binding,
-- and the step with what follows. SQLite may answer each of the two with SQLITE_BUSY, since the program
-- sets no busy timeout, while the statement of another call is not finalized: so that every turn of a
-- call is one that goes on, or one that meets a lock. Each call has a generator of its own, as in
-- src/generate.cpp.
pub mod Ready
pub mod Grows
pub mod Alone
pub mod Stable
pub mod Serial
pub mod Ordered
use shadyurl.Common.{
  ℕ, zero, suc, Bool, not, Option, none, some, List, [], ◌∷◌, ◌++◌, Bytes, codes, ◌==◌,
  if◌then◌else◌, c_str, drop,
}
use shadyurl.Common.Result.{Exception, ok, thrown}
use shadyurl.ServerState.{ServerState, get_config_db_path}
use shadyurl.Http.{Request, Response, bad_request, not_found, server_error, redirect_permanent}
use shadyurl.Sqlite.{sqlite_ok, insert_url, select_url}
use shadyurl.Generate.{generate_random_filename}
use shadyurl.Routes.{
  Handler, handle_file, handle_post, handle_get_template, handle_get_url, routes, select, illegal,
}
use shadyurl.Handlers.{
  Outcome, sent, raised, stuck, is_get, is_post, bad_method, found_url, valid_url,
  make_sqlite3_handle, handle_file_response, handle_get_template_response, finish_post,
}
use shadyurl.Handlers.Effects.{Env, World}
use shadyurl.Handlers.Form.{refused, url, extract_url}

-- What a call ends with.
pub data Reply : Type 0 where
  replied : Response → Reply
  threw : Exception → Reply
  hung : Reply

abbrev pub reply_of : {W : Type 0} → Outcome W → Reply
reply_of (sent res w) = replied res
reply_of (raised e w) = threw e
reply_of stuck = hung

-- A call on a thread: not begun; before the step of the INSERT, with the URL, the token, and whether
-- the handle is not null; before the step of the SELECT; or done.
pub data Call (env : Env) : Type 0 where
  waiting : Request → env.random.State → Call env
  inserting : Request → env.random.State → Bytes → Bytes → Bool → Call env
  selecting : Request → Call env
  done : Reply → Call env

-- The turn of the call at a position: it goes on, or it meets a lock, with the message of
-- `sqlite3_errmsg`.
pub data Turn : Type 0 where
  goes_on : ℕ → Turn
  locked : ℕ → Bytes → Turn

abbrev pub sqlite_busy : ℕ
sqlite_busy = 5

module _ (env : Env) (state : ServerState) where
  abbrev file : Bytes
  file = c_str (get_config_db_path state)

  abbrev replies : Response → Call env
  replies res = done (replied res)

  unfoldable pub begin_insert :
      Request → Bytes → Bytes → env.random.State → env.sqlite.Db → Call env
  begin_insert req u token rng db =
      let handle = make_sqlite3_handle env db file in
      if not (env.sqlite.prepare db file handle insert_url == sqlite_ok)
      then replies
          (server_error env.server req (codes "SQL error: " ++ env.sqlite.errmsg db file handle))
      else inserting req rng u token handle

  unfoldable pub begin_shorten : Request → Bytes → env.random.State → env.sqlite.Db → Call env
  unfolding begin_insert
  begin_shorten req u rng db =
      if not (valid_url u)
      then replies (bad_request env.server req (codes "Invalid URL"))
      else elim (generate_random_filename env.random env.algo rng) [
        | none ↦ done hung
        | some (token, rng') ↦ begin_insert req u token rng' db
      ]

  unfoldable pub begin_post : Request → env.random.State → env.sqlite.Db → Call env
  unfolding begin_shorten
  begin_post req rng db =
      if not (is_post req.method)
      then replies (bad_request env.server req bad_method)
      else elim (extract_url env req.content_type req.body) [
        | thrown e ↦ done (threw e)
        | ok (refused why) ↦ replies (bad_request env.server req why)
        | ok (url u) ↦ begin_shorten req u rng db
      ]

  unfoldable pub begin_get_url : Request → env.sqlite.Db → Call env
  begin_get_url req db =
      let handle = make_sqlite3_handle env db file in
      if not (is_get req.method)
      then replies (bad_request env.server req bad_method)
      else if not (env.sqlite.prepare db file handle select_url == sqlite_ok)
      then replies
          (server_error env.server req (codes "SQL error: " ++ env.sqlite.errmsg db file handle))
      else if not (env.sqlite.bind_text db file (c_str (drop 1 req.target)) == sqlite_ok)
      then replies
          (server_error env.server req (codes "SQL error:" ++ env.sqlite.errmsg db file handle))
      else selecting req

  abbrev pub begin_handler : Option Handler → Request → env.random.State → env.sqlite.Db → Call env
  begin_handler none req rng db = replies (not_found env.server req req.target)
  begin_handler (some handle_file) req rng db = replies (handle_file_response env state req)
  begin_handler (some handle_post) req rng db = begin_post req rng db
  begin_handler (some handle_get_template) req rng db =
      replies (handle_get_template_response env state req)
  begin_handler (some handle_get_url) req rng db = begin_get_url req db

  unfoldable pub begin : Request → env.random.State → env.sqlite.Db → Call env
  unfolding begin_post begin_get_url
  begin req rng db =
      if illegal req.target
      then replies (bad_request env.server req (codes "Illegal request-target"))
      else begin_handler (select routes req.target) req rng db

  -- The next part of a call.
  unfoldable pub proceed : Call env → env.sqlite.Db → Call env × env.sqlite.Db
  unfolding begin finish_post
  proceed (waiting req rng) db = (begin req rng db, db)
  proceed (inserting req rng u token handle) db =
      let (step, db') = env.sqlite.step_insert db file (c_str token) (c_str u) in
      (
        done (
            reply_of
              (finish_post env state req u token handle step (record { db = db'; rng = rng }))),
        db',
      )
  proceed (selecting req) db =
      let u = found_url (env.sqlite.step_select db file (c_str (drop 1 req.target))) in
      (replies (redirect_permanent env.server req u), db)
  proceed (done r) db = (done r, db)

  -- The call at a position proceeds.
  unfoldable pub proceed_at : ℕ → List (Call env) → env.sqlite.Db → List (Call env) × env.sqlite.Db
  unfolding proceed
  proceed_at i [] db = ([], db)
  proceed_at zero (c ∷ cs) db = let (c', db') = proceed c db in (c' ∷ cs, db')
  proceed_at (suc i) (c ∷ cs) db = let (cs', db') = proceed_at i cs db in (c ∷ cs', db')

  -- A call whose `sqlite3_prepare_v2` meets a lock, if it comes to it.
  abbrev pub refuse : Bytes → Call env → Call env
  refuse why (waiting req rng) = waiting req rng
  refuse why (inserting req rng u token handle) =
      replies (server_error env.server req (codes "SQL error: " ++ why))
  refuse why (selecting req) = replies (server_error env.server req (codes "SQL error: " ++ why))
  refuse why (done r) = done r

  -- The next part of a call that meets a lock; nothing is written.
  unfoldable pub proceed_locked : Bytes → Call env → env.sqlite.Db → Call env
  proceed_locked why (waiting req rng) db = refuse why (begin req rng db)
  proceed_locked why (inserting req rng u token handle) db =
      replies (server_error env.server req (codes "SQL error: " ++ why))
  proceed_locked why (selecting req) db =
      replies (redirect_permanent env.server req (found_url (sqlite_busy, [])))
  proceed_locked why (done r) db = done r

  unfoldable pub locked_at : ℕ → Bytes → List (Call env) → env.sqlite.Db → List (Call env)
  locked_at i why [] db = []
  locked_at zero why (c ∷ cs) db = proceed_locked why c db ∷ cs
  locked_at (suc i) why (c ∷ cs) db = c ∷ locked_at i why cs db

  abbrev pub take_turn : Turn → List (Call env) → env.sqlite.Db → List (Call env) × env.sqlite.Db
  take_turn (goes_on i) cs db = proceed_at i cs db
  take_turn (locked i why) cs db = (locked_at i why cs db, db)

  -- The calls in the order in which the threads take turns.
  unfoldable pub interleave :
      List Turn → List (Call env) → env.sqlite.Db → List (Call env) × env.sqlite.Db
  interleave [] cs db = (cs, db)
  interleave (turn ∷ turns) cs db =
      let (cs', db') = take_turn turn cs db in interleave turns cs' db'
