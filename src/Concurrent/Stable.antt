-- ===== src/Concurrent/Stable.antt =====
-- What a call does before its statement runs, where that does not hang on the rows of the table.
use shadyurl.Common.{
  ◌≡◌, ◌≢◌, refl, Option, none, some, Bool, Bytes, arith, Option-cases, inl, inr, c_str, drop,
}
use shadyurl.Common.Result.{Result, ok, thrown}
use shadyurl.ServerState.{ServerState, get_config_db_path}
use shadyurl.Http.{Request}
use shadyurl.Sqlite.{Sqlite, Sql, sqlite_ok, insert_url, select_url}
use shadyurl.Generate.{generate_random_filename}
use shadyurl.Routes.{
  Handler, handle_file, handle_post, handle_get_template, handle_get_url, routes, select,
}
use shadyurl.Handlers.Effects.{Env}
use shadyurl.Handlers.Form.{Extracted, refused, url, extract_url}
use shadyurl.Concurrent.{
  begin_insert, begin_shorten, begin_post, begin_get_url, begin_handler, begin,
}

-- Whether a connection opens and a statement can be prepared and bound hangs on the schema and not on
-- the rows; and so does the message where it cannot.
pub record IsStable (sqlite : Sqlite) (path : Bytes) : Type 0 where
  pub opens : (db db' : sqlite.Db) → sqlite.opens db path ≡ sqlite.opens db' path
  pub prepare :
      (db db' : sqlite.Db) (handle : Bool) (sql : Sql)
      → sqlite.prepare db path handle sql ≡ sqlite.prepare db' path handle sql
  pub bind_text :
      (db db' : sqlite.Db) (text : Bytes)
      → sqlite.bind_text db path text ≡ sqlite.bind_text db' path text
  pub unprepared :
      (db db' : sqlite.Db) (handle : Bool) (sql : Sql)
      → sqlite.prepare db path handle sql ≢ sqlite_ok
      → sqlite.errmsg db path handle ≡ sqlite.errmsg db' path handle
  pub unbound :
      (db db' : sqlite.Db) (handle : Bool) (text : Bytes)
      → sqlite.bind_text db path text ≢ sqlite_ok
      → sqlite.errmsg db path handle ≡ sqlite.errmsg db' path handle

module _ (env : Env) (state : ServerState)
    (stable : IsStable env.sqlite (c_str (get_config_db_path state))) where
  module _ (req : Request) (rng : env.random.State) (db db' : env.sqlite.Db) where
    abbrev file : Bytes
    file = c_str (get_config_db_path state)

    insert-stable :
        (u token : Bytes) (rng' : env.random.State)
        → begin_insert env state req u token rng' db ≡ begin_insert env state req u token rng' db'
    unfolding begin_insert
    insert-stable u token rng' = ground (
      arith,
      stable.opens db db',
      stable.prepare db db' (env.sqlite.opens db file) insert_url,
      stable.unprepared db db' (env.sqlite.opens db file) insert_url,
    )

    shorten-stable :
        (u : Bytes) → begin_shorten env state req u rng db ≡ begin_shorten env state req u rng db'
    unfolding begin_shorten
    shorten-stable u = elim (Option-cases (generate_random_filename env.random env.algo rng)) [
      | inl n ↦ ground (arith, n)
      | inr ((token, rng'), d) ↦ ground (arith, d, insert-stable u token rng')
    ]

    post-stable :
        (r : Result Extracted)
        → extract_url env req.content_type req.body ≡ r
        → begin_post env state req rng db ≡ begin_post env state req rng db'
    unfolding begin_post
    post-stable (thrown e) h = ground (arith, h)
    post-stable (ok (refused why)) h = ground (arith, h)
    post-stable (ok (url u)) h = ground (arith, h, shorten-stable u)

    get_url-stable : begin_get_url env state req db ≡ begin_get_url env state req db'
    unfolding begin_get_url
    get_url-stable = ground (
      arith,
      stable.opens db db',
      stable.prepare db db' (env.sqlite.opens db file) select_url,
      stable.unprepared db db' (env.sqlite.opens db file) select_url,
      stable.bind_text db db' (c_str (drop 1 req.target)),
      stable.unbound db db' (env.sqlite.opens db file) (c_str (drop 1 req.target)),
    )

    handler-stable :
        (o : Option Handler)
        → begin_handler env state o req rng db ≡ begin_handler env state o req rng db'
    handler-stable none = refl
    handler-stable (some handle_file) = refl
    handler-stable (some handle_post) = post-stable (extract_url env req.content_type req.body) refl
    handler-stable (some handle_get_template) = refl
    handler-stable (some handle_get_url) = get_url-stable

    pub begin-stable : begin env state req rng db ≡ begin env state req rng db'
    unfolding begin
    begin-stable = ground (arith, handler-stable (select routes req.target))
