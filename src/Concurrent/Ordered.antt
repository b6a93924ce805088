-- ===== src/Concurrent/Ordered.antt =====
-- Calls that interleave end as calls that run one after another do, in the order in which they end.
use shadyurl.Common.{
  ℕ, zero, suc, ◌≡◌, refl, sym, ap, ◌∙◌, Bool, true, false, not, ◌&&◌, List, [], ◌∷◌, Bool-cases,
  inl, inr, c_str, All, ◌⊎◌,
}
use mathlib.Core.Path.{subst, ap₂}
use shadyurl.ServerState.{ServerState, get_config_db_path}
use shadyurl.Http.{Request}
use shadyurl.Handlers.{handle_request}
use shadyurl.Handlers.Effects.{Env}
use shadyurl.Concurrent.{
  Reply, reply_of, Call, waiting, inserting, selecting, done, begin, proceed, proceed_at, Turn,
  goes_on, interleave,
}
use shadyurl.Concurrent.Alone.{begin-Ends}
use shadyurl.Concurrent.Grows.{arrived}
use shadyurl.Concurrent.Stable.{IsStable, begin-stable}
use shadyurl.Concurrent.Serial.{is_done, done_at, serve, serve_at, one_by_one, endings}

-- Turns of which none meets a lock.
abbrev pub unlocked : List ℕ → List Turn
unlocked [] = []
unlocked (i ∷ turns) = goes_on i ∷ unlocked turns

module _ (env : Env) (state : ServerState) where
  -- A call on a thread, and the same call where it is served at its end: that has not begun before.
  data Ahead : Call env → Call env → Type 0 where
    fresh : (req : Request) (rng : env.random.State) → Ahead (waiting req rng) (waiting req rng)
    over : (r : Reply) → Ahead (done r) (done r)
    begun :
        (c : Call env) (req : Request) (rng : env.random.State) (db : env.sqlite.Db)
        → c ≡ begin env state req rng db
        → is_done c ≡ false
        → Ahead c (waiting req rng)

  abbrev ends : Call env → Call env → Bool
  ends c c' = not (is_done c) && is_done c'

  -- What one turn does to both: the call ends and is served, or it goes on.
  abbrev Turned : Call env → Call env → env.sqlite.Db → Call env × env.sqlite.Db → Type 0
  Turned c c2 db r =
      ((ends c r.0 ≡ true)
        × Ahead r.0 (serve env state c2 db).0
        × (r.1 ≡ (serve env state c2 db).1))
      ⊎ ((ends c r.0 ≡ false) × Ahead r.0 c2 × (r.1 ≡ db))

  served-Ahead :
      (req : Request) (rng : env.random.State) (db : env.sqlite.Db)
      → Ahead (serve env state (waiting req rng) db).0 (serve env state (waiting req rng) db).0
  served-Ahead req rng db =
      over (reply_of (handle_request env state req (record { db = db; rng = rng })))

  proceed_done :
      (c : Call env) (db : env.sqlite.Db) → is_done c ≡ true → proceed env state c db ≡ (c, db)
  unfolding proceed
  proceed_done (waiting req rng) db h = cc
  proceed_done (inserting req rng u token handle) db h = cc
  proceed_done (selecting req) db h = cc
  proceed_done (done r) db h = refl

  served-Turned :
      (c : Call env) (req : Request) (rng : env.random.State) (db : env.sqlite.Db)
      (r : Call env × env.sqlite.Db)
      → is_done c ≡ false
      → r ≡ serve env state (waiting req rng) db
      → Turned c (waiting req rng) db r
  served-Turned c req rng db r h e =
      subst (Turned c (waiting req rng) db) (sym e) (inl (rw h refl, served-Ahead req rng db, refl))

  begin-Turned :
      (req : Request) (rng : env.random.State) (db : env.sqlite.Db)
      → Turned (waiting req rng) (waiting req rng) db (begin env state req rng db, db)
  begin-Turned req rng db = elim (Bool-cases (is_done (begin env state req rng db))) [
    | inl e ↦
        served-Turned (waiting req rng) req rng db (begin env state req rng db, db) refl
          (sym (proceed_done (begin env state req rng db) db e)
            ∙ begin-Ends env state req (record { db = db; rng = rng }))
    | inr e ↦ inr (e, begun (begin env state req rng db) req rng db refl e, refl)
  ]

  module _ (stable : IsStable env.sqlite (c_str (get_config_db_path state))) where
    proceed-Turned :
        {c c2 : Call env}
        → Ahead c c2
        → (db : env.sqlite.Db) → Turned c c2 db (proceed env state c db)
    proceed-Turned (fresh req rng) db = unfold proceed in begin-Turned req rng db
    proceed-Turned (over r) db = unfold proceed in inr (refl, over r, refl)
    proceed-Turned (begun c req rng db0 e h) db =
        served-Turned c req rng db (proceed env state c db) h (
          ap (λ x. proceed env state x db) (e ∙ begin-stable env state stable req rng db0 db)
          ∙ begin-Ends env state req (record { db = db; rng = rng }))

    -- The same of every call of a list.
    abbrev AllAhead : List (Call env) → List (Call env) → Type 0
    AllAhead [] [] = Unit
    AllAhead [] (c2 ∷ cs2) = ⊥
    AllAhead (c ∷ cs) [] = ⊥
    AllAhead (c ∷ cs) (c2 ∷ cs2) = Ahead c c2 × AllAhead cs cs2

    abbrev ended_at : ℕ → List (Call env) → List (Call env) → Bool
    ended_at i cs cs' = not (done_at i cs) && done_at i cs'

    abbrev AllTurned :
        ℕ
        → List (Call env)
        → List (Call env)
        → env.sqlite.Db
        → List (Call env) × env.sqlite.Db
        → Type 0
    AllTurned i cs cs2 db r =
        ((ended_at i cs r.0 ≡ true)
          × AllAhead r.0 (serve_at env state i cs2 db).0
          × (r.1 ≡ (serve_at env state i cs2 db).1))
        ⊎ ((ended_at i cs r.0 ≡ false) × AllAhead r.0 cs2 × (r.1 ≡ db))

    proceed_at-AllTurned :
        (i : ℕ) (cs cs2 : List (Call env)) (db : env.sqlite.Db)
        → AllAhead cs cs2
        → AllTurned i cs cs2 db (proceed_at env state i cs db)
    unfolding proceed_at serve_at
    proceed_at-AllTurned i [] [] db a = inr (refl, tt, refl)
    proceed_at-AllTurned i [] (c2 ∷ cs2) db a = absurd a
    proceed_at-AllTurned i (c ∷ cs) [] db a = absurd a
    proceed_at-AllTurned zero (c ∷ cs) (c2 ∷ cs2) db (h, a) = elim (proceed-Turned h db) [
      | inl (e, h', d) ↦ inl (e, (h', a), d)
      | inr (e, h', d) ↦ inr (e, (h', a), d)
    ]
    proceed_at-AllTurned (suc i) (c ∷ cs) (c2 ∷ cs2) db (h, a) =
        elim (proceed_at-AllTurned i cs cs2 db a) [
          | inl (e, a', d) ↦ inl (e, (h, a'), d)
          | inr (e, a', d) ↦ inr (e, (h, a'), d)
        ]

    -- Both lists behind all turns.
    interleave-AllAhead :
        (turns : List ℕ) (cs cs2 : List (Call env)) (db db2 : env.sqlite.Db)
        → AllAhead cs cs2
        → db ≡ db2
        → AllAhead
            (interleave env state (unlocked turns) cs db).0
            (one_by_one env state (endings env state turns cs db) cs2 db2).0
          × ((interleave env state (unlocked turns) cs db).1
              ≡ (one_by_one env state (endings env state turns cs db) cs2 db2).1)
    unfolding interleave one_by_one endings
    interleave-AllAhead [] cs cs2 db db2 a h = (a, h)
    interleave-AllAhead (i ∷ turns) cs cs2 db db2 a h =
        let cs' = (proceed_at env state i cs db).0 in
        let db' = (proceed_at env state i cs db).1 in
        elim (subst (λ x. AllTurned i cs cs2 x (proceed_at env state i cs db)) h
          (proceed_at-AllTurned i cs cs2 db a)) [
            | inl (e, a', d) ↦ rw e (
                interleave-AllAhead turns cs' (serve_at env state i cs2 db2).0 db'
                  (serve_at env state i cs2 db2).1 a' d)
            | inr (e, a', d) ↦ rw e (interleave-AllAhead turns cs' cs2 db' db2 a' d)
          ]

    Ahead-done : {c c2 : Call env} → Ahead c c2 → is_done c ≡ true → c ≡ c2
    Ahead-done (fresh req rng) h = cc
    Ahead-done (over r) h = refl
    Ahead-done (begun c req rng db e k) h = cc

    AllAhead-done :
        (cs cs2 : List (Call env)) → AllAhead cs cs2 → All (λ c. is_done c ≡ true) cs → cs ≡ cs2
    AllAhead-done [] [] a h = refl
    AllAhead-done [] (c2 ∷ cs2) a h = absurd a
    AllAhead-done (c ∷ cs) [] a h = absurd a
    AllAhead-done (c ∷ cs) (c2 ∷ cs2) a h =
        ap₂ ◌∷◌ (Ahead-done a.0 h.0) (AllAhead-done cs cs2 a.1 h.1)

    arrived-AllAhead :
        (reqs : List (Request × env.random.State))
        → AllAhead (arrived env state reqs) (arrived env state reqs)
    arrived-AllAhead [] = tt
    arrived-AllAhead ((req, rng) ∷ reqs) = (fresh req rng, arrived-AllAhead reqs)

    -- Where no call meets a lock, and opening, preparing and binding do not hang on the rows: however
    -- calls for any requests interleave until all are done, each has the response, and the database is,
    -- as if `handle_request` had been called for them one after another, in the order in which they
    -- ended.
    pub interleave-one_by_one :
        (turns : List ℕ) (reqs : List (Request × env.random.State)) (db : env.sqlite.Db)
        → All
            (λ c. is_done c ≡ true)
            (interleave env state (unlocked turns) (arrived env state reqs) db).0
        → interleave env state (unlocked turns) (arrived env state reqs) db
          ≡ one_by_one env state
              (endings env state turns (arrived env state reqs) db)
              (arrived env state reqs)
              db
    interleave-one_by_one turns reqs db h =
        let cs = arrived env state reqs in
        let (a, d) = interleave-AllAhead turns cs cs db db (arrived-AllAhead reqs) refl in
        let same = AllAhead-done (interleave env state (unlocked turns) cs db).0 _ a h in
        λ i. (same i, d i)
