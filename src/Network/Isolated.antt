-- ===== src/Network/Isolated.antt =====
-- Any number of connections in any order of events: each goes its way alone, and the listener goes on.
use shadyurl.Common.{
  ℕ, zero, suc, ◌+◌, ◌≡◌, ◌≢◌, refl, sym, ap, ◌∙◌, Bool, true, false, some, List, [], ◌∷◌, ◌++◌,
  if◌then◌else◌, ◌==◌, ==_iff, length, length-append, get_or, arith, inl, inr, Bool-cases,
  Option-cases,
}
use shadyurl.Session.{Session}
use shadyurl.Network.{
  Protocol, serving, Connection, NetEvent, accepted, conn_step, conn_run, Listener, ServerEvent,
  on_accept, at, listener, accept, step_at, server_step, server_run,
}
use shadyurl.Network.Lifecycle.{IsServed, conn_run-IsServed}

module _ {R : Type 0} where
  -- The events of the connection at a position.
  unfoldable pub events_of : ℕ → List (ServerEvent R) → List (NetEvent R)
  events_of i [] = []
  events_of i (on_accept ec ∷ es) = events_of i es
  events_of i (at j e ∷ es) = let rest = events_of i es in if j == i then e ∷ rest else rest

  -- The connections that were accepted.
  unfoldable pub accepts : List (ServerEvent R) → ℕ
  accepts [] = 0
  accepts (on_accept ec ∷ es) = let rest = accepts es in if ec then rest else suc rest
  accepts (at j e ∷ es) = accepts es

  get_or-accept :
      (i : ℕ) (cs : List (Connection R))
      → get_or (cs ++ accepted ∷ []) i accepted ≡ get_or cs i accepted
  get_or-accept zero [] = refl
  get_or-accept (suc i) [] = refl
  get_or-accept zero (c ∷ cs) = refl
  get_or-accept (suc i) (c ∷ cs) = get_or-accept i cs

  step_at-same :
      (i : ℕ) (e : NetEvent R) (cs cs' : List (Connection R))
      → step_at i e cs ≡ some cs'
      → conn_step e (get_or cs i accepted).stage (get_or cs i accepted).buffer
        ≡ some (get_or cs' i accepted)
  unfolding step_at
  step_at-same i e [] cs' h = cc
  step_at-same zero e (c ∷ cs) cs' h = ground arith
  step_at-same (suc i) e (c ∷ cs) cs' h = elim (Option-cases (step_at i e cs)) [
    | inl n ↦ ground (arith, n)
    | inr (ds, s) ↦ ground (arith, s, step_at-same i e cs ds s)
  ]

  step_at-other :
      (i j : ℕ) (e : NetEvent R) (cs cs' : List (Connection R))
      → step_at j e cs ≡ some cs'
      → j ≢ i
      → get_or cs' i accepted ≡ get_or cs i accepted
  unfolding step_at
  step_at-other i j e [] cs' h n = cc
  step_at-other zero zero e (c ∷ cs) cs' h n = absurd (n refl)
  step_at-other (suc i) zero e (c ∷ cs) cs' h n = ground arith
  step_at-other zero (suc j) e (c ∷ cs) cs' h n = ground arith
  step_at-other (suc i) (suc j) e (c ∷ cs) cs' h n = elim (Option-cases (step_at j e cs)) [
    | inl m ↦ ground (arith, m)
    | inr (ds, s) ↦ ground (arith, s, step_at-other i j e cs ds s (λ q. n (ap suc q)))
  ]

  step_at-length :
      (i : ℕ) (e : NetEvent R) (cs cs' : List (Connection R))
      → step_at i e cs ≡ some cs'
      → length cs' ≡ length cs
  unfolding step_at
  step_at-length i e [] cs' h = cc
  step_at-length zero e (c ∷ cs) cs' h = ground arith
  step_at-length (suc i) e (c ∷ cs) cs' h = elim (Option-cases (step_at i e cs)) [
    | inl n ↦ ground (arith, n)
    | inr (ds, s) ↦ ground (arith, s, step_at-length i e cs ds s)
  ]

  accept-conn :
      (ec : Bool) (l : Listener R) (i : ℕ)
      → get_or (accept ec l).connections i accepted ≡ get_or l.connections i accepted
  unfolding accept
  accept-conn true l i = refl
  accept-conn false l i = get_or-accept i l.connections

  conn_run-cons :
      (e : NetEvent R) (es : List (NetEvent R)) (c c' : Connection R)
      → conn_step e c.stage c.buffer ≡ some c'
      → conn_run (e ∷ es) c ≡ conn_run es c'
  unfolding conn_run
  conn_run-cons e es c c' h = rw (h, conn_run) refl

  server_run-conn :
      (es : List (ServerEvent R)) (l l' : Listener R) (i : ℕ)
      → server_run es l ≡ some l'
      → conn_run (events_of i es) (get_or l.connections i accepted)
        ≡ some (get_or l'.connections i accepted)
  unfolding server_run server_step conn_run events_of
  server_run-conn [] l l' i h = ground arith
  server_run-conn (on_accept ec ∷ es) l l' i h = elim (Bool-cases l.accepting) [
    | inl a ↦ ground (arith, a, accept-conn ec l i, server_run-conn es (accept ec l) l' i)
    | inr a ↦ ground (arith, a)
  ]
  server_run-conn (at j e ∷ es) l l' i h = elim (Option-cases (step_at j e l.connections)) [
    | inl n ↦ ground (arith, n)
    | inr (cs, s) ↦
        let later = server_run-conn es (record l { connections = cs }) l' i in
        elim (Bool-cases (j == i)) [
          | inl q ↦
              let e1 =
                conn_run-cons e (events_of i es) (get_or l.connections i accepted)
                  (get_or cs i accepted)
                  (step_at-same i e l.connections cs
                    (ap (λ k. step_at k e l.connections) (sym ((==_iff j i).0 q)) ∙ s)) in
              rw (q, e1) (later (ground (arith, s)))
          | inr q ↦ ground (arith, s, q, later, step_at-other i j e l.connections cs s)
        ]
  ]

  -- However the events of the connections and of the listener interleave, each connection that serves
  -- a session came to it by its own events alone.
  pub server_run-IsServed :
      (es : List (ServerEvent R)) (l : Listener R) (i : ℕ) (p : Protocol) (s : Session R)
      → server_run es listener ≡ some l
      → (get_or l.connections i accepted).stage ≡ serving p s
      → IsServed (events_of i es) p s (get_or l.connections i accepted).buffer
  server_run-IsServed es l i p s h st =
      conn_run-IsServed (events_of i es) p s (get_or l.connections i accepted)
        (server_run-conn es listener l i h) st

  server_run-accepts :
      (es : List (ServerEvent R)) (l l' : Listener R)
      → l.accepting ≡ true
      → server_run es l ≡ some l'
      → (l'.accepting ≡ true) × (length l'.connections ≡ length l.connections + accepts es)
  unfolding server_run server_step accept accepts
  server_run-accepts [] l l' a h = ground arith
  server_run-accepts (on_accept true ∷ es) l l' a h = ground (arith, server_run-accepts es l l')
  server_run-accepts (on_accept false ∷ es) l l' a h = ground (
    arith,
    length-append l.connections (accepted ∷ []),
    server_run-accepts es (record l { connections = l.connections ++ accepted ∷ [] }) l',
  )
  server_run-accepts (at j e ∷ es) l l' a h = elim (Option-cases (step_at j e l.connections)) [
    | inl n ↦ ground (arith, n)
    | inr (cs, s) ↦ ground (
      arith,
      s,
      step_at-length j e l.connections cs s,
      server_run-accepts es (record l { connections = cs }) l',
    )
  ]

  -- The listener never stops accepting, whatever errors its accepts and its connections have, and it
  -- starts one connection for each accept without an error.
  pub server_run-accepting :
      (es : List (ServerEvent R)) (l : Listener R)
      → server_run es listener ≡ some l
      → (l.accepting ≡ true) × (length l.connections ≡ accepts es)
  server_run-accepting es l h =
      let (going, count) = server_run-accepts es listener l refl h in (going, omega (arith, count))
