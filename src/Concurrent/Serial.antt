-- ===== src/Concurrent/Serial.antt =====
-- Whole calls of `handle_request`, one after another, and the order in which interleaved calls end.
use shadyurl.Common.{ℕ, zero, suc, Bool, true, false, not, ◌&&◌, List, [], ◌∷◌, if◌then◌else◌}
use shadyurl.ServerState.{ServerState}
use shadyurl.Handlers.{handle_request}
use shadyurl.Handlers.Effects.{Env}
use shadyurl.Concurrent.{reply_of, Call, waiting, inserting, selecting, done, proceed_at}
use shadyurl.Concurrent.Alone.{db_of}

abbrev pub is_done : {env : Env} → Call env → Bool
is_done (waiting req rng) = false
is_done (inserting req rng u token handle) = false
is_done (selecting req) = false
is_done (done r) = true

abbrev pub done_at : {env : Env} → ℕ → List (Call env) → Bool
done_at i [] = true
done_at zero (c ∷ cs) = is_done c
done_at (suc i) (c ∷ cs) = done_at i cs

module _ (env : Env) (state : ServerState) where
  -- A whole call of `handle_request`, if it has not begun.
  abbrev pub serve : Call env → env.sqlite.Db → Call env × env.sqlite.Db
  serve (waiting req rng) db =
      let o = handle_request env state req (record { db = db; rng = rng }) in
      (done (reply_of o), db_of env state db o)
  serve (inserting req rng u token handle) db = (inserting req rng u token handle, db)
  serve (selecting req) db = (selecting req, db)
  serve (done r) db = (done r, db)

  unfoldable pub serve_at : ℕ → List (Call env) → env.sqlite.Db → List (Call env) × env.sqlite.Db
  serve_at i [] db = ([], db)
  serve_at zero (c ∷ cs) db = let (c', db') = serve c db in (c' ∷ cs, db')
  serve_at (suc i) (c ∷ cs) db = let (cs', db') = serve_at i cs db in (c ∷ cs', db')

  -- The calls at these positions, one after another.
  unfoldable pub one_by_one :
      List ℕ → List (Call env) → env.sqlite.Db → List (Call env) × env.sqlite.Db
  unfolding serve_at
  one_by_one [] cs db = (cs, db)
  one_by_one (i ∷ order) cs db = let (cs', db') = serve_at i cs db in one_by_one order cs' db'

  -- The positions of the calls in the order in which they end.
  unfoldable pub endings : List ℕ → List (Call env) → env.sqlite.Db → List ℕ
  unfolding proceed_at
  endings [] cs db = []
  endings (i ∷ turns) cs db =
      let (cs', db') = proceed_at env state i cs db in
      let later = endings turns cs' db' in
      if not (done_at i cs) && done_at i cs' then i ∷ later else later
