-- ===== src/Handlers/Kept.antt =====
-- What holds of every outcome of `handle_post` and of `handle_request`, from the ends that they have.
use mathlib.Core.Path.{subst}
use shadyurl.Common.{
  ℕ, ◌≡◌, ◌≢◌, ◌⊎◌, ◌↔◌, inl, inr, refl, Bool, true, false, not, Option, none, some, [], ◌∷◌, Bytes,
  codes, ◌==◌, c_str, arith, Bool-cases,
}
use shadyurl.Common.Result.{Exception, Result, ok, thrown}
use shadyurl.ServerState.{ServerState, get_config_db_path}
use shadyurl.Http.{Verb, get, head, post, other, Request, Response}
use shadyurl.Sqlite.{Sql}
use shadyurl.Generate.Bounds.{IsToken, generate_random_filename-IsToken}
use shadyurl.Routes.{
  Handler, handle_file, handle_post, handle_get_template, handle_get_url, routes, select, illegal,
}
use shadyurl.Routes.Table.{Chosen, select-Chosen}
use shadyurl.Handlers.{
  Outcome, sent, raised, is_post, handle_post_outcome, handle_request, run_handler, shorten,
  store_url, finish_post, valid_url,
}
use shadyurl.Handlers.Effects.{Env, World}
use shadyurl.Handlers.Shortening.{post_target}
use shadyurl.Handlers.Form.{Extracted, refused, url, extract_url}

Extracted-cases :
    (r : Result Extracted)
    → ((why : Bytes) × (r ≡ ok (refused why)))
      ⊎ (((u : Bytes) × (r ≡ ok (url u))) ⊎ ((e : Exception) × (r ≡ thrown e)))
Extracted-cases (ok (refused why)) = inl (why, refl)
Extracted-cases (ok (url u)) = inr (inl (u, refl))
Extracted-cases (thrown e) = inr (inr (e, refl))

-- The table picks `handle_post` for /post.html and for no other target.
post_route_iff :
    (t : Bytes)
    → illegal t ≡ false
    → (select routes t ≡ some handle_post) ↔ (t ≡ codes "/post.html")
unfolding illegal
post_route_iff [] h = cc
post_route_iff (c ∷ u) h =
    let slash : c ≡ b'/' = ground arith in
    (
      λ e.
          let p = subst (λ y. select routes (y ∷ u) ≡ some handle_post) slash e in
          let q : u ≡ codes "post.html" = subst (λ o. Chosen o u) p (select-Chosen u) in cc,
      λ e. rw e post_target.1,
    )

module _ (env : Env) (state : ServerState) (req : Request) (w : World env) where
  -- The row that a POST writes: its URL, its token, and why.
  abbrev pub Wrote : World env → Type 0
  Wrote w' =
      (u : Bytes) × (token : Bytes) × (extract_url env req.content_type req.body ≡ ok (url u))
      × (valid_url u ≡ true)
      × IsToken token
      × (w'.db
          ≡ (env.sqlite.step_insert w.db (c_str (get_config_db_path state)) (c_str token)
              (c_str u)).1)

  -- A claim about outcomes that the state of a response decides.
  module _ (P : Outcome (World env) → Type 0) where
    finish_post_keeps :
        (u token : Bytes) (handle : Bool) (step : ℕ) (w' : World env)
        → ((res : Response) → P (sent res w'))
        → P (finish_post env state req u token handle step w')
    unfolding finish_post
    finish_post_keeps u token handle step w' h = elim (Bool-cases (not (step == 101))) [
      | inl e ↦ rw e (h _)
      | inr e ↦ rw e (h _)
    ]

    abbrev db_file : Bytes
    db_file = c_str (get_config_db_path state)

    -- A response that leaves the database alone.
    abbrev Quiet : Type 0
    Quiet =
        (res : Response) (w' : World env)
        → w'.db ≡ w.db
        → (req.method ≡ post → (x : Extracted) × (extract_url env req.content_type req.body ≡ ok x))
        → P (sent res w')

    store_url_keeps :
        (u token : Bytes) (rng' : env.random.State)
        → ((res : Response) (w' : World env) → w'.db ≡ w.db → P (sent res w'))
        → ((res : Response) (w' : World env)
            → w'.db ≡ (env.sqlite.step_insert w.db db_file (c_str token) (c_str u)).1
            → P (sent res w'))
        → P (store_url env state req u token (record w { rng = rng' }))
    unfolding store_url
    store_url_keeps u token rng' same wrote =
        elim (Bool-cases (
          not (
            env.sqlite.prepare w.db db_file (env.sqlite.opens w.db db_file) Sql.insert_url == 0))) [
              | inl e ↦ rw e (same _ (record w { rng = rng' }) refl)
              | inr e ↦ rw e (
                  finish_post_keeps u token (env.sqlite.opens w.db db_file)
                    (env.sqlite.step_insert w.db db_file (c_str token) (c_str u)).0
                    (record w {
                      db = (env.sqlite.step_insert w.db db_file (c_str token) (c_str u)).1;
                      rng = rng';
                    })
                    (λ res. wrote res _ refl))
            ]

    shorten_keeps :
        (u : Bytes)
        → ((res : Response) (w' : World env) → w'.db ≡ w.db → P (sent res w'))
        → ((res : Response) (w' : World env) (token : Bytes)
            → valid_url u ≡ true
            → IsToken token
            → w'.db ≡ (env.sqlite.step_insert w.db db_file (c_str token) (c_str u)).1
            → P (sent res w'))
        → P (shorten env state req u w)
    unfolding shorten
    shorten_keeps u same wrote = elim (Bool-cases (valid_url u)) [
      | inr e ↦ rw e (same _ w refl)
      | inl e ↦
          let (token, rng', drawn, t) =
            (generate_random_filename-IsToken env.random env.algo).at w.rng in
          rw (e, drawn) (store_url_keeps u token rng' same (λ res w' k. wrote res w' token e t k))
    ]

    post_of_test : (m : Verb) → is_post m ≡ true → m ≡ post
    post_of_test post h = refl
    post_of_test get h = cc
    post_of_test head h = cc
    post_of_test other h = cc

    pub handle_post_keeps :
        Quiet
        → ((res : Response) (w' : World env) → req.method ≡ post → Wrote w' → P (sent res w'))
        → ((e : Exception)
            → req.method ≡ post
            → extract_url env req.content_type req.body ≡ thrown e
            → P (raised e w))
        → P (handle_post_outcome env state req w)
    unfolding handle_post_outcome
    handle_post_keeps quiet wrote threw = elim (Bool-cases (is_post req.method)) [
      | inr e ↦ rw e (quiet _ w refl (λ m. ground arith))
      | inl e ↦ rw e (elim (Extracted-cases (extract_url env req.content_type req.body)) [
        | inl (why, k) ↦ rw k (quiet _ w refl (λ m. (refused why, k)))
        | inr (inl (u, k)) ↦ rw k (
            shorten_keeps u (λ res w' same. quiet res w' same (λ m. (url u, k)))
              (λ res w' token v t wr.
                wrote res w' (post_of_test req.method e) (u, token, k, v, t, wr)))
        | inr (inr (x, k)) ↦ rw k (threw x (post_of_test req.method e) k)
      ])
    ]

    run_handler_keeps :
        ((res : Response) → req.target ≢ codes "/post.html" → P (sent res w))
        → (req.target ≡ codes "/post.html" → P (handle_post_outcome env state req w))
        → illegal req.target ≡ false
        → (o : Option Handler) → select routes req.target ≡ o
        → P (run_handler env state req o w)
    run_handler_keeps quiet posting legal none e = quiet _ (λ k. cc (post_target.1))
    run_handler_keeps quiet posting legal (some handle_post) e =
        posting ((post_route_iff req.target legal).0 e)
    run_handler_keeps quiet posting legal (some handle_file) e = quiet _ (λ k. cc (post_target.1))
    run_handler_keeps quiet posting legal (some handle_get_template) e =
        quiet _ (λ k. cc (post_target.1))
    run_handler_keeps quiet posting legal (some handle_get_url) e =
        quiet _ (λ k. cc (post_target.1))

    pub handle_request_keeps :
        ((res : Response) → req.target ≢ codes "/post.html" → P (sent res w))
        → (req.target ≡ codes "/post.html" → P (handle_post_outcome env state req w))
        → P (handle_request env state req w)
    unfolding handle_request
    handle_request_keeps quiet posting = elim (Bool-cases (illegal req.target)) [
      | inl e ↦ rw e (quiet _ (λ k. cc (post_target.0)))
      | inr e ↦ rw e (run_handler_keeps quiet posting e (select routes req.target) refl)
    ]
