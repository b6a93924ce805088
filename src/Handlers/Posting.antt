-- ===== src/Handlers/Posting.antt =====
-- When the database is written, and when a handler throws.
use shadyurl.Common.{◌<◌, ◌≡◌, ◌⊎◌, inl, inr, refl, Bytes, codes, arith, count, bytes_eq_iff}
use shadyurl.Common.Result.{Exception, length_error, ok, thrown}
use shadyurl.ParseQs.{parse_qsl}
use shadyurl.ServerState.{ServerState}
use shadyurl.Http.{post, Request}
use shadyurl.Handlers.{Outcome, sent, raised, stuck, handle_request}
use shadyurl.Handlers.Effects.{Env, World}
use shadyurl.Handlers.Form.{Extracted, url, extract_url}
use shadyurl.Handlers.Kept.{Wrote, handle_post_keeps, handle_request_keeps}

module _ (env : Env) (state : ServerState) (req : Request) (w : World env) where
  -- What an outcome says of the database.
  abbrev pub Accounted : Outcome (World env) → Type 0
  Accounted (sent res w') =
      (w'.db ≡ w.db)
      ⊎ ((req.target ≡ codes "/post.html") × (req.method ≡ post) × Wrote env state req w w')
  Accounted (raised e w') = w'.db ≡ w.db
  Accounted stuck = ⊥

  abbrev pub TooMany : Type 0
  TooMany =
      (req.target ≡ codes "/post.html")
      × (req.method ≡ post)
      × (req.content_type ≡ codes "application/x-www-form-urlencoded")
      × (1000 < count b'&' req.body)

  -- Whether a response or an exception comes out.
  abbrev pub Explained : Outcome (World env) → Type 0
  Explained (sent res w') = ¬ TooMany
  Explained (raised e w') = (e ≡ length_error (codes "maxparams exceeded")) × (w' ≡ w) × TooMany
  Explained stuck = ⊥

  -- The database changes in one way alone: whatever the request, after a response either it is as
  -- before, or the request was a POST of /post.html whose body gave a valid URL, and then it is what
  -- the INSERT of that URL under a generated token left; after an exception it is as before.
  pub handle_request-Accounted : Accounted (handle_request env state req w)
  handle_request-Accounted =
      handle_request_keeps env state req w Accounted (λ res _. inl refl)
        λ target.
          handle_post_keeps env state req w Accounted (λ res w' same _. inl same)
            (λ res w' m wrote. inr (target, m, wrote)) (λ e m x. refl)

  extract_url_throws :
      (ct body : Bytes) (e : Exception)
      → extract_url env ct body ≡ thrown e
      → (e ≡ length_error (codes "maxparams exceeded"))
        × (ct ≡ codes "application/x-www-form-urlencoded")
        × (1000 < count b'&' body)
  unfolding extract_url parse_qsl
  extract_url_throws ct body e h =
      ground (arith, bytes_eq_iff ct (codes "application/x-www-form-urlencoded"))

  extract_url_many :
      (ct body : Bytes)
      → ct ≡ codes "application/x-www-form-urlencoded"
      → 1000 < count b'&' body
      → (e : Exception) × (extract_url env ct body ≡ thrown e)
  unfolding extract_url parse_qsl
  extract_url_many ct body e h = (
    length_error (codes "maxparams exceeded"),
    ground (arith, bytes_eq_iff ct (codes "application/x-www-form-urlencoded")),
  )

  not_many : (x : Extracted) → extract_url env req.content_type req.body ≡ ok x → ¬ TooMany
  not_many x h (_, _, ct, many) =
      let (e, k) = extract_url_many req.content_type req.body ct many in cc

  -- Every request is answered by one response, with one exception: a POST of /post.html with a
  -- URL-encoded body that holds more than 1000 '&' ends in a `length_error` that nothing catches,
  -- and changes nothing. The generator never runs out of fuel.
  pub handle_request-Explained : Explained (handle_request env state req w)
  handle_request-Explained =
      handle_request_keeps env state req w Explained (λ res ne many. ne many.0)
        λ target.
          handle_post_keeps env state req w Explained
            (λ res w' same calm many. let (x, k) = calm many.1 in not_many x k many)
            (λ res w' m (u, token, x, _, _, _). not_many (url u) x)
            (λ e m x.
              let (same, ct, many) = extract_url_throws req.content_type req.body e x in
              (same, refl, (target, m, ct, many)))
