-- ===== src/Handlers/Confined.antt =====
-- What the handlers read of the file system.
use shadyurl.Common.{
  ℕ, ◌≡◌, ◌≢◌, refl, ap, Bool, false, Option, none, some, [], Bytes, Lacks, arith, Bool-cases,
  Option-cases, inl, inr, c_str,
}
use shadyurl.Common.Result.{Result, ok, thrown}
use shadyurl.PathUtil.{path_cat}
use shadyurl.PathUtil.Read.{IsBelow, file-IsBelow, template-IsBelow}
use shadyurl.ServerState.{ServerState, get_config_doc_root, get_config_hostname, get_config_db_path}
use shadyurl.Generate.{generate_random_filename}
use shadyurl.Http.{Request}
use shadyurl.Routes.{
  Handler, handle_file, handle_post, handle_get_template, handle_get_url, routes, select, illegal,
}
use shadyurl.Handlers.{
  Outcome, sent, raised, stuck, handle_request, run_handler, handle_file_response,
  handle_get_template_response, handle_get_url_response, handle_post_outcome, shorten, store_url,
  finish_post, template_path,
}
use shadyurl.Handlers.Effects.{Env, World, FileOpen, Rendered}
use shadyurl.Handlers.Form.{Extracted, refused, url, extract_multipart, extract_url}

-- The same surroundings with other files.
abbrev pub with_files :
    (Bytes → FileOpen) → (Bytes → Bytes → Option (Bytes × Bytes) → Rendered) → Env → Env
with_files open_file render env = record env { open_file = open_file; render = render }

module _ (env : Env) (open_file : Bytes → FileOpen)
    (render : Bytes → Bytes → Option (Bytes × Bytes) → Rendered) where
  abbrev pub env' : Env
  env' = with_files open_file render env

  abbrev pub same_world : World env' → World env
  same_world w = record { db = w.db; rng = w.rng }

  abbrev pub same_outcome : Outcome (World env') → Outcome (World env)
  same_outcome (sent res w) = sent res (same_world w)
  same_outcome (raised e w) = raised e (same_world w)
  same_outcome stuck = stuck

  module _ (state : ServerState) (req : Request) where
    abbrev pub root : Bytes
    root = get_config_doc_root state

    abbrev pub SameFiles : Type 0
    SameFiles = (path : Bytes) → IsBelow root path → open_file path ≡ env.open_file path

    abbrev pub SamePages : Type 0
    SamePages =
        (path host : Bytes) (given : Option (Bytes × Bytes))
        → IsBelow root path
        → render path host given ≡ env.render path host given

    module _ (some_root : root ≢ []) (nul : Lacks 0 root) (legal : illegal req.target ≡ false) where
      file-same :
          SameFiles → handle_file_response env' state req ≡ handle_file_response env state req
      unfolding handle_file_response
      file-same files =
          rw
            (files (c_str (path_cat root req.target))
              (file-IsBelow root req.target some_root nul legal))
            refl

      page-same :
          (given : Option (Bytes × Bytes))
          → SamePages
          → render (template_path env' state req) (get_config_hostname state) given
            ≡ env.render (template_path env state req) (get_config_hostname state) given
      page-same given pages =
          pages (template_path env state req) (get_config_hostname state) given
            (template-IsBelow root req.target some_root legal)

      template-same :
          SamePages
          → handle_get_template_response env' state req ≡ handle_get_template_response env state req
      unfolding handle_get_template_response
      template-same pages = rw (page-same none pages) refl

      url-same :
          (db : env.sqlite.Db)
          → handle_get_url_response env' state req db ≡ handle_get_url_response env state req db
      unfolding handle_get_url_response
      url-same db = refl

      finish-same :
          (u token : Bytes) (handle : Bool) (step : ℕ) (w : World env')
          → SamePages
          → same_outcome (finish_post env' state req u token handle step w)
            ≡ finish_post env state req u token handle step (same_world w)
      unfolding finish_post
      finish-same u token handle step w pages = ground (arith, page-same (some (u, token)) pages)

      store-same :
          (u token : Bytes) (w : World env')
          → SamePages
          → same_outcome (store_url env' state req u token w)
            ≡ store_url env state req u token (same_world w)
      unfolding store_url
      store-same u token w pages =
          let file = c_str (get_config_db_path state) in
          let step = env.sqlite.step_insert w.db file (c_str token) (c_str u) in
          ground (
            arith,
            finish-same u token (env.sqlite.opens w.db file) step.0 (record w { db = step.1 })
                pages,
          )

      shorten-same :
          (u : Bytes) (w : World env')
          → SamePages
          → same_outcome (shorten env' state req u w) ≡ shorten env state req u (same_world w)
      unfolding shorten
      shorten-same u w pages =
          elim (Option-cases (generate_random_filename env.random env.algo w.rng)) [
            | inl n ↦ ground (arith, n)
            | inr ((token, rng), d) ↦
                ground (arith, d, store-same u token (record w { rng = rng }) pages)
          ]

      extract-same :
          (content_type body : Bytes)
          → extract_url env' content_type body ≡ extract_url env content_type body
      unfolding extract_url extract_multipart
      extract-same content_type body = refl

      extracted-same :
          (r : Result Extracted) (w : World env')
          → extract_url env req.content_type req.body ≡ r
          → SamePages
          → same_outcome (handle_post_outcome env' state req w)
            ≡ handle_post_outcome env state req (same_world w)
      unfolding handle_post_outcome
      extracted-same (thrown e) w h pages =
          ground (arith, h, extract-same req.content_type req.body)
      extracted-same (ok (refused why)) w h pages =
          ground (arith, h, extract-same req.content_type req.body)
      extracted-same (ok (url u)) w h pages =
          ground (arith, h, extract-same req.content_type req.body, shorten-same u w pages)

      handler-same :
          (o : Option Handler) (w : World env')
          → SameFiles
          → SamePages
          → same_outcome (run_handler env' state req o w)
            ≡ run_handler env state req o (same_world w)
      handler-same none w files pages = refl
      handler-same (some handle_file) w files pages =
          ap (λ res. sent res (same_world w)) (file-same files)
      handler-same (some handle_post) w files pages =
          extracted-same (extract_url env req.content_type req.body) w refl pages
      handler-same (some handle_get_template) w files pages =
          ap (λ res. sent res (same_world w)) (template-same pages)
      handler-same (some handle_get_url) w files pages =
          ap (λ res. sent res (same_world w)) (url-same w.db)

    -- Of the files and the templates a request sees only those below the document root, where the root
    -- is not empty and holds no NUL: with other files and templates elsewhere the response is the same,
    -- and so is what becomes of the database.
    pub handle_request-same_outcome :
        (w : World env')
        → root ≢ []
        → Lacks 0 root
        → SameFiles
        → SamePages
        → same_outcome (handle_request env' state req w)
          ≡ handle_request env state req (same_world w)
    unfolding handle_request
    handle_request-same_outcome w some_root nul files pages =
        elim (Bool-cases (illegal req.target)) [
          | inl e ↦ rw e refl
          | inr e ↦ rw e (handler-same some_root nul e (select routes req.target) w files pages)
        ]
