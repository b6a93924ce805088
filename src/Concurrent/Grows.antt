-- ===== src/Concurrent/Grows.antt =====
-- What the table goes through while several calls interleave.
use shadyurl.Common.{
  ℕ, zero, suc, ◌≡◌, refl, ap, ◌∙◌, some, List, [], ◌∷◌, Bytes, c_str, c_str_of_Lacks, drop, All,
}
use shadyurl.ServerState.{ServerState, get_config_db_path}
use shadyurl.Http.{Request, redirect_permanent}
use shadyurl.Routes.Tokens.{token-route}
use shadyurl.Handlers.Effects.{Env}
use shadyurl.Store.{View, target_of, found_url-view}
use shadyurl.Store.Refined.{Step, kept, view_of, insert-Step}
use shadyurl.Server.Durable.{Reach, here, next, Reach-Keeps}
use shadyurl.Concurrent.{
  replied, Call, waiting, inserting, selecting, done, begin, proceed, proceed_at, refuse,
  proceed_locked, locked_at, Turn, goes_on, locked, take_turn, interleave,
}
use shadyurl.Concurrent.Ready.{IsReady, begin-IsReady}

module _ (env : Env) (state : ServerState) where
  abbrev seen : env.sqlite.Db → View
  seen = view_of env state

  proceed-Step :
      (c : Call env) (db : env.sqlite.Db)
      → IsReady c
      → IsReady (proceed env state c db).0 × Step (seen db) (seen (proceed env state c db).1)
  unfolding proceed
  proceed-Step (waiting req rng) db h = (begin-IsReady env state req rng db, kept refl)
  proceed-Step (inserting req rng u token handle) db (t, v) =
      let (_, _, clean) = token-route token t in
      (tt, rw (c_str_of_Lacks token clean) (insert-Step env state db token u t v))
  proceed-Step (selecting req) db h = (tt, kept refl)
  proceed-Step (done r) db h = (tt, kept refl)

  proceed_at-Step :
      (i : ℕ) (cs : List (Call env)) (db : env.sqlite.Db)
      → All IsReady cs
      → All IsReady (proceed_at env state i cs db).0
        × Step (seen db) (seen (proceed_at env state i cs db).1)
  unfolding proceed_at
  proceed_at-Step i [] db h = (tt, kept refl)
  proceed_at-Step zero (c ∷ cs) db (r, h) = let (r', st) = proceed-Step c db r in ((r', h), st)
  proceed_at-Step (suc i) (c ∷ cs) db (r, h) =
      let (h', st) = proceed_at-Step i cs db h in ((r, h'), st)

  refuse-IsReady : (why : Bytes) (c : Call env) → IsReady (refuse env state why c)
  refuse-IsReady why (waiting req rng) = tt
  refuse-IsReady why (inserting req rng u token handle) = tt
  refuse-IsReady why (selecting req) = tt
  refuse-IsReady why (done r) = tt

  locked-IsReady :
      (why : Bytes) (c : Call env) (db : env.sqlite.Db)
      → IsReady (proceed_locked env state why c db)
  unfolding proceed_locked
  locked-IsReady why (waiting req rng) db = refuse-IsReady why (begin env state req rng db)
  locked-IsReady why (inserting req rng u token handle) db = tt
  locked-IsReady why (selecting req) db = tt
  locked-IsReady why (done r) db = tt

  locked_at-IsReady :
      (i : ℕ) (why : Bytes) (cs : List (Call env)) (db : env.sqlite.Db)
      → All IsReady cs
      → All IsReady (locked_at env state i why cs db)
  unfolding locked_at
  locked_at-IsReady i why [] db h = tt
  locked_at-IsReady zero why (c ∷ cs) db (r, h) = (locked-IsReady why c db, h)
  locked_at-IsReady (suc i) why (c ∷ cs) db (r, h) = (r, locked_at-IsReady i why cs db h)

  take_turn-Step :
      (turn : Turn) (cs : List (Call env)) (db : env.sqlite.Db)
      → All IsReady cs
      → All IsReady (take_turn env state turn cs db).0
        × Step (seen db) (seen (take_turn env state turn cs db).1)
  take_turn-Step (goes_on i) cs db h = proceed_at-Step i cs db h
  take_turn-Step (locked i why) cs db h = (locked_at-IsReady i why cs db h, kept refl)

  interleave-Reach :
      (turns : List Turn) (cs : List (Call env)) (db : env.sqlite.Db)
      → All IsReady cs
      → Reach (seen db) (seen (interleave env state turns cs db).1)
  unfolding interleave
  interleave-Reach [] cs db h = here
  interleave-Reach (turn ∷ turns) cs db h =
      let (h', st) = take_turn-Step turn cs db h in
      next st (
        interleave-Reach turns (take_turn env state turn cs db).0 (take_turn env state turn cs db).1
          h')

  -- Calls that have not begun, each with its request and its generator.
  abbrev pub arrived : List (Request × env.random.State) → List (Call env)
  arrived [] = []
  arrived ((req, rng) ∷ reqs) = waiting req rng ∷ arrived reqs

  arrived-IsReady : (reqs : List (Request × env.random.State)) → All IsReady (arrived reqs)
  arrived-IsReady [] = tt
  arrived-IsReady ((req, rng) ∷ reqs) = (tt, arrived-IsReady reqs)

  -- However the calls for any requests interleave between their statements, and whichever of these meet
  -- a lock, the map only grows, by free tokens with safe URLs; so that no token that stands for a URL
  -- comes to stand for another, and a lookup of it that is made between the turns, or after them, and
  -- meets no lock, redirects to that URL.
  pub interleave-redirects :
      (turns : List Turn) (reqs : List (Request × env.random.State)) (db : env.sqlite.Db)
      (u : Bytes) (req : Request)
      → view_of env state db (c_str (drop 1 req.target)) ≡ some u
      → Reach
          (view_of env state db)
          (view_of env state (interleave env state turns (arrived reqs) db).1)
        × (proceed env state (selecting req) (interleave env state turns (arrived reqs) db).1 ≡ (
          done (replied (redirect_permanent env.server req u)),
          (interleave env state turns (arrived reqs) db).1,
        ))
  unfolding proceed
  interleave-redirects turns reqs db u req stored =
      let grown = interleave-Reach turns (arrived reqs) db (arrived-IsReady reqs) in
      let db' = (interleave env state turns (arrived reqs) db).1 in
      let token = c_str (drop 1 req.target) in
      let found = found_url-view env.sqlite (c_str (get_config_db_path state)) db' token in
      let there = Reach-Keeps token u grown stored in
      (
        grown,
        ap (λ x. (done (replied (redirect_permanent env.server req x)), db'))
            (found ∙ ap target_of there),
      )
