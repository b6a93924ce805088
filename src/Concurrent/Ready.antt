-- ===== src/Concurrent/Ready.antt =====
-- A call that is about to insert has a generated token and a valid URL.
use shadyurl.Common.{
  ◌≡◌, refl, true, not, Option, none, some, Bytes, ◌==◌, c_str, drop, Bool-cases, inl, inr,
}
use shadyurl.Common.Result.{Result, ok, thrown}
use shadyurl.ServerState.{ServerState, get_config_db_path}
use shadyurl.Http.{Request}
use shadyurl.Sqlite.{insert_url, select_url}
use shadyurl.Generate.Bounds.{IsToken, generate_random_filename-IsToken}
use shadyurl.Routes.{
  Handler, handle_file, handle_post, handle_get_template, handle_get_url, routes, select, illegal,
}
use shadyurl.Handlers.{is_get, is_post, valid_url}
use shadyurl.Handlers.Effects.{Env}
use shadyurl.Handlers.Form.{Extracted, refused, url, extract_url}
use shadyurl.Concurrent.{
  Call, waiting, inserting, selecting, done, begin_insert, begin_shorten, begin_post, begin_get_url,
  begin_handler, begin,
}

-- A call that is about to insert has a token and a URL to insert.
abbrev pub IsReady : {env : Env} → Call env → Type 0
IsReady (waiting req rng) = Unit
IsReady (inserting req rng u token handle) = IsToken token × (valid_url u ≡ true)
IsReady (selecting req) = Unit
IsReady (done r) = Unit

module _ (env : Env) (state : ServerState) where
  begin_insert-IsReady :
      (req : Request) (u token : Bytes) (rng : env.random.State) (db : env.sqlite.Db)
      → IsToken token
      → valid_url u ≡ true
      → IsReady (begin_insert env state req u token rng db)
  unfolding begin_insert
  begin_insert-IsReady req u token rng db t v =
      let file = c_str (get_config_db_path state) in
      elim (Bool-cases
        (not (env.sqlite.prepare db file (env.sqlite.opens db file) insert_url == 0))) [
          | inl e ↦ rw e tt
          | inr e ↦ rw e (t, v)
        ]

  begin_shorten-IsReady :
      (req : Request) (u : Bytes) (rng : env.random.State) (db : env.sqlite.Db)
      → IsReady (begin_shorten env state req u rng db)
  unfolding begin_shorten
  begin_shorten-IsReady req u rng db = elim (Bool-cases (valid_url u)) [
    | inr e ↦ rw e tt
    | inl e ↦
        let (token, rng', drawn, t) =
          (generate_random_filename-IsToken env.random env.algo).at rng in
        rw (e, drawn) (begin_insert-IsReady req u token rng' db t e)
  ]

  begin_get_url-IsReady :
      (req : Request) (db : env.sqlite.Db) → IsReady (begin_get_url env state req db)
  unfolding begin_get_url
  begin_get_url-IsReady req db =
      let file = c_str (get_config_db_path state) in
      elim (Bool-cases (is_get req.method)) [
        | inr e ↦ rw e tt
        | inl e ↦
            elim (Bool-cases
              (not (env.sqlite.prepare db file (env.sqlite.opens db file) select_url == 0))) [
                | inl p ↦ rw (e, p) tt
                | inr p ↦
                    elim (Bool-cases
                      (not (env.sqlite.bind_text db file (c_str (drop 1 req.target)) == 0))) [
                        | inl b ↦ rw (e, p, b) tt
                        | inr b ↦ rw (e, p, b) tt
                      ]
              ]
      ]

  begin_post-IsReady :
      (req : Request) (rng : env.random.State) (db : env.sqlite.Db) (r : Result Extracted)
      → extract_url env req.content_type req.body ≡ r
      → IsReady (begin_post env state req rng db)
  unfolding begin_post
  begin_post-IsReady req rng db (thrown e) h = elim (Bool-cases (is_post req.method)) [
    | inr b ↦ rw b tt
    | inl b ↦ rw (b, h) tt
  ]
  begin_post-IsReady req rng db (ok (refused why)) h = elim (Bool-cases (is_post req.method)) [
    | inr b ↦ rw b tt
    | inl b ↦ rw (b, h) tt
  ]
  begin_post-IsReady req rng db (ok (url u)) h = elim (Bool-cases (is_post req.method)) [
    | inr b ↦ rw b tt
    | inl b ↦ rw (b, h) (begin_shorten-IsReady req u rng db)
  ]

  begin_handler-IsReady :
      (o : Option Handler) (req : Request) (rng : env.random.State) (db : env.sqlite.Db)
      → IsReady (begin_handler env state o req rng db)
  begin_handler-IsReady none req rng db = tt
  begin_handler-IsReady (some handle_file) req rng db = tt
  begin_handler-IsReady (some handle_post) req rng db =
      begin_post-IsReady req rng db (extract_url env req.content_type req.body) refl
  begin_handler-IsReady (some handle_get_template) req rng db = tt
  begin_handler-IsReady (some handle_get_url) req rng db = begin_get_url-IsReady req db

  pub begin-IsReady :
      (req : Request) (rng : env.random.State) (db : env.sqlite.Db)
      → IsReady (begin env state req rng db)
  unfolding begin
  begin-IsReady req rng db = elim (Bool-cases (illegal req.target)) [
    | inl e ↦ rw e tt
    | inr e ↦ rw e (begin_handler-IsReady (select routes req.target) req rng db)
  ]
