-- ===== src/Handlers/Formed.antt =====
-- The form of the responses of `handle_request`, whichever of the builders of include/request.hpp made
-- them.
use shadyurl.Common.{
  ℕ, ◌≡◌, ◌≤◌, arith, false, ◌⊎◌, inl, inr, refl, Bool, true, Option, none, some, Bytes,
}
use shadyurl.ServerState.{ServerState}
use shadyurl.Http.{Verb, Request, Response, Body, empty_body, string_body, file_body, text_response}
use shadyurl.Handlers.{is_head, handle_request}
use shadyurl.Handlers.Effects.{Env, World}
use shadyurl.Handlers.Builders.{Answered, Builders, handle_request-Answered}

-- The statuses in use, each with what its field Location may be.
abbrev IsStatus : ℕ → Option Bytes → Type 0
IsStatus status location =
    (((status ≡ 200) ⊎ (status ≡ 400)) ⊎ ((status ≡ 404) ⊎ (status ≡ 500))) × (location ≡ none)
    ⊎ ((status ≡ 301) × ((u : Bytes) × (location ≡ some u)))

-- How the client finds the end of the message. Where the method is not HEAD: the length of a page is set
-- by `prepare_payload`, that of a file is its size, and a message with no body has one prepared. After a
-- HEAD the client takes the message to end with its fields: so it has no body there, unless it is the
-- page of an error, which the client does not find the end of.
abbrev IsFramed : Verb → ℕ → Option ℕ → Bool → Body → Type 0
IsFramed method status content_length prepared empty_body =
    (prepared ≡ true) ⊎ (is_head method ≡ true)
IsFramed method status content_length prepared (string_body content) =
    (prepared ≡ true) × ((is_head method ≡ false) ⊎ (400 ≤ status))
IsFramed method status content_length prepared (file_body path size) =
    (content_length ≡ some size) × (is_head method ≡ false)

pub record IsFormed (env : Env) (req : Request) (res : Response) : Type 0 where
  version : res.version ≡ req.version
  server : res.server ≡ env.server
  status : IsStatus res.status res.location
  framed : IsFramed req.method res.status res.content_length res.prepared res.body
  kept : (res.keep_alive ≡ some req.keep_alive) ⊎ ((res.status ≡ 301) × (res.keep_alive ≡ none))

module _ (env : Env) (state : ServerState) (req : Request) where
  page-IsFormed :
      (status : ℕ) (content : Bytes)
      → ((status ≡ 200) ⊎ (status ≡ 400)) ⊎ ((status ≡ 404) ⊎ (status ≡ 500))
      → (is_head req.method ≡ false) ⊎ (400 ≤ status)
      → IsFormed env req (text_response env.server req status content)
  page-IsFormed status content h e = record {
    version = refl;
    server = refl;
    status = inl (h, refl);
    framed = (refl, e);
    kept = inl refl;
  }

  formed : Builders env state req (IsFormed env req)
  formed = record {
    bad = λ why. page-IsFormed 400 why (inl (inr refl)) (inr (omega arith));
    missing = λ target. page-IsFormed 404 _ (inr (inl refl)) (inr (omega arith));
    failed = λ what. page-IsFormed 500 _ (inr (inr refl)) (inr (omega arith));
    done = λ text m. page-IsFormed 200 text (inl (inl refl)) (inl m);
    moved = λ u. record {
      version = refl;
      server = refl;
      status = inr (refl, (u, refl));
      framed = inl refl;
      kept = inr (refl, refl);
    };
    headed = λ path size h. record {
      version = refl;
      server = refl;
      status = inl (inl (inl refl), refl);
      framed = inr h;
      kept = inl refl;
    };
    got = λ path size m. record {
      version = refl;
      server = refl;
      status = inl (inl (inl refl), refl);
      framed = (refl, m);
      kept = inl refl;
    };
  }

  -- Every response has the version of its request and a status of 200, 301, 400, 404 and 500, with a
  -- Location field exactly where it is 301; the client can tell where its body ends, by a length where
  -- the method is not HEAD, and by there being none for a HEAD, except that the page of an error is sent
  -- to a HEAD too; and the connection is kept alive as the request asks, except that a redirect does not
  -- say.
  pub handle_request-IsFormed :
      (w : World env) → Answered (IsFormed env req) (handle_request env state req w)
  handle_request-IsFormed w = handle_request-Answered env state req w (IsFormed env req) formed
