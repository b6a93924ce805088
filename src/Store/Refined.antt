-- ===== src/Store/Refined.antt =====
-- `handle_request` against the map from tokens to URLs: what a request may change, and where a token
-- leads.
use shadyurl.Common.{
  ◌≡◌, inl, inr, refl, ap, ◌∙◌, true, false, none, some, [], ◌∷◌, Bytes, codes, ◌==◌, c_str,
  c_str_of_Lacks, drop, starts_with, bytes_eq_iff, Lacks, arith, Bool-cases,
}
use shadyurl.ServerState.{ServerState, get_config_db_path}
use shadyurl.Http.{get, Request, redirect_permanent}
use shadyurl.Sqlite.{sqlite_ok, sqlite_done, select_url}
use shadyurl.Generate.Bounds.{IsToken}
use shadyurl.Routes.Tokens.{token-route}
use shadyurl.Routes.{handle_get_url, routes, select, illegal}
use shadyurl.Handlers.{
  Outcome, sent, raised, stuck, valid_url, handle_request, handle_get_url_response,
}
use shadyurl.Handlers.Effects.{Env, World}
use shadyurl.Handlers.Posting.{Accounted, handle_request-Accounted}
use shadyurl.Store.{View, put, target_of, view, view-insert, found_url-view, c_str_twice}

-- What one request may do to the map: nothing, or the addition of a URL under a token that is free.
pub data Step (v v' : View) : Type 0 where
  kept : v' ≡ v → Step v v'
  added :
      (token u : Bytes)
      → IsToken token
      → valid_url u ≡ true
      → v token ≡ none
      → v' ≡ put token u v
      → Step v v'

starts_with-c_str :
    (s p : Bytes) → Lacks 0 p → starts_with s p ≡ true → starts_with (c_str s) p ≡ true
unfolding starts_with c_str
starts_with-c_str s [] l h = refl
starts_with-c_str [] (c ∷ p) l h = cc
starts_with-c_str (x ∷ s) (c ∷ p) l h = ground (arith, starts_with-c_str s p)

valid_url-c_str : (u : Bytes) → valid_url u ≡ true → valid_url (c_str u) ≡ true
unfolding valid_url
valid_url-c_str u h = ground (
  arith,
  starts_with-c_str u (codes "http://") (omega arith),
  starts_with-c_str u (codes "https://") (omega arith),
)

module _ (env : Env) (state : ServerState) where
  -- The map that the configured database file stands for.
  abbrev pub view_of : env.sqlite.Db → View
  view_of = view env.sqlite (c_str (get_config_db_path state))

  abbrev file : Bytes
  file = c_str (get_config_db_path state)

  pub insert-Step :
      (db : env.sqlite.Db) (token u : Bytes)
      → IsToken token
      → valid_url u ≡ true
      → Step (view_of db) (view_of (env.sqlite.step_insert db file token (c_str u)).1)
  insert-Step db token u t v =
      elim (Bool-cases ((env.sqlite.step_insert db file token (c_str u)).0 == sqlite_done)) [
        | inl e ↦
            let (free, more) = view-insert env.sqlite file db token (c_str u) (ground (arith, e)) in
            added token (c_str u) t (valid_url-c_str u v) free
              (more ∙ ap (λ url. put token url (view_of db)) (c_str_twice u))
        | inr e ↦
            let same = env.sqlite.insert_failed db file token (c_str u) (ground (arith, e)) in
            kept (ap view_of same)
      ]

  -- The map behind an outcome, against the map before the request.
  abbrev pub Refines : View → Outcome (World env) → Type 0
  Refines v (sent res w') = Step v (view_of w'.db)
  Refines v (raised e w') = view_of w'.db ≡ v
  Refines v stuck = ⊥

  Accounted-Refines :
      (req : Request) (w : World env) (o : Outcome (World env))
      → Accounted env state req w o
      → Refines (view_of w.db) o
  Accounted-Refines req w (sent res w') (inl same) = kept (ap view_of same)
  Accounted-Refines req w (sent res w') (inr (_, _, (u, token, _, v, t, wrote))) =
      let (_, _, clean) = token-route token t in
      rw wrote (rw (c_str_of_Lacks token clean) (insert-Step w.db token u t v))
  Accounted-Refines req w (raised e w') same = ap view_of same
  Accounted-Refines req w stuck h = h

  -- Whatever the request: after a response the map is the one before it, or has one binding more, of a
  -- generated token that was free to a URL with one of the two schemes; after an exception it is the
  -- one before the request.
  pub handle_request-Refines :
      (req : Request) (w : World env) → Refines (view_of w.db) (handle_request env state req w)
  handle_request-Refines req w =
      Accounted-Refines req w (handle_request env state req w)
        (handle_request-Accounted env state req w)

  -- A GET that the table hands to `handle_get_url`, where SQLite prepares and binds the query, is a
  -- permanent redirect to what the map has for the target behind its '/', or to the fallback.
  pub handle_request-view :
      (req : Request) (w : World env)
      → req.method ≡ get
      → illegal req.target ≡ false
      → select routes req.target ≡ some handle_get_url
      → env.sqlite.prepare w.db file (env.sqlite.opens w.db file) select_url ≡ sqlite_ok
      → env.sqlite.bind_text w.db file (c_str (drop 1 req.target)) ≡ sqlite_ok
      → handle_request env state req w
        ≡ sent
            (redirect_permanent env.server req
              (target_of (view_of w.db (c_str (drop 1 req.target)))))
            w
  unfolding handle_request handle_get_url_response
  handle_request-view req w m legal route prepared bound =
      let e = found_url-view env.sqlite file w.db (c_str (drop 1 req.target)) in
      ground (arith, m, legal, route, prepared, bound, e)

-- Every URL of the map has one of the two schemes.
abbrev pub IsSafe : View → Type 0
IsSafe v = (t u : Bytes) → v t ≡ some u → valid_url u ≡ true

put-IsSafe : (v : View) (token u : Bytes) → IsSafe v → valid_url u ≡ true → IsSafe (put token u v)
put-IsSafe v token u safe valid t u' h = ground (arith, safe t u')

pub Step-IsSafe : (v v' : View) → Step v v' → IsSafe v → IsSafe v'
Step-IsSafe v v' (kept e) safe = rw e safe
Step-IsSafe v v' (added token u t valid free e) safe = rw e (put-IsSafe v token u safe valid)

-- What a token stands for is never changed.
pub Step-Keeps : (v v' : View) (t u : Bytes) → Step v v' → v t ≡ some u → v' t ≡ some u
Step-Keeps v v' t u (kept e) h = rw e h
Step-Keeps v v' t u (added token u' k valid free e) h = rw e (ground (arith, bytes_eq_iff t token))
