-- ===== src/Session/Closed.antt =====
-- A session behind a response that closes its connection.
use mathlib.Core.Path.{subst}
use shadyurl.Common.{
  ◌≡◌, refl, sym, ap, ◌∙◌, Bool, true, Option, none, some, List, [], ◌∷◌, ◌++◌, append-nil,
  append_assoc, length-append, arith, Bool-cases, inl, inr,
}
use shadyurl.Session.{
  Action, Session, Event, on_request, on_end_of_stream, on_read_error, on_written, on_write_error,
  step, started, possible, run, writes,
}
use shadyurl.Session.Queue.{session, none-ne-some, Heads, run-IsValid}
use shadyurl.Session.Order.{answered, writes_read, writes_eof}

module _ {R : Type 0} where
  -- No write is outstanding, and the queue is not empty.
  abbrev IsClosed : Session R → List R → List R → Type 0
  IsClosed s items done = (s.writing ≡ none) × (s.items ≡ items) × (writes s.log ≡ done)

  step-IsClosed :
      (e : Event R) (x : R) (items : List R) (reading : Bool) (log : List (Action R))
      (done : List R)
      → possible e (session (x ∷ items) reading none log) ≡ true
      → writes log ≡ done
      → IsClosed
          (step e (session (x ∷ items) reading none log))
          ((x ∷ items) ++ answered (e ∷ []))
          done
  unfolding step
  step-IsClosed (on_request r) x items reading log done p h =
      ground (arith, length-append items (r ∷ []), writes_read log)
  step-IsClosed on_end_of_stream x items reading log done p h =
      (refl, sym (append-nil (x ∷ items)), writes_eof log ∙ h)
  step-IsClosed on_read_error x items reading log done p h = (refl, sym (append-nil (x ∷ items)), h)
  step-IsClosed (on_written close) x items reading log done p h = cc
  step-IsClosed on_write_error x items reading log done p h = cc

  as_session :
      (s : Session R) (items : List R) (w : Option R)
      → s.items ≡ items
      → s.writing ≡ w
      → s ≡ session items s.reading w s.log
  as_session s items w e k = λ i. session (e i) s.reading (k i) s.log

  answered-cons :
      (e : Event R) (es : List (Event R)) → answered (e ∷ es) ≡ answered (e ∷ []) ++ answered es
  answered-cons (on_request r) es = refl
  answered-cons on_end_of_stream es = refl
  answered-cons on_read_error es = refl
  answered-cons (on_written c) es = refl
  answered-cons on_write_error es = refl

  run-IsClosed :
      (es : List (Event R)) (s s' : Session R) (x : R) (items done : List R)
      → IsClosed s (x ∷ items) done
      → run es s ≡ some s'
      → IsClosed s' ((x ∷ items) ++ answered es) done
  unfolding run
  run-IsClosed [] s s' x items done (w, k, l) h =
      let same : s ≡ s' = cc in
      subst (λ t. IsClosed t ((x ∷ items) ++ []) done) same (w, k ∙ sym (append-nil (x ∷ items)), l)
  run-IsClosed (e ∷ es) s s' x items done (w, k, l) h = elim (Bool-cases (possible e s)) [
    | inr p ↦ absurd (none-ne-some (rw p at h))
    | inl p ↦
        let same = as_session s (x ∷ items) none k w in
        let next =
          subst (λ t. IsClosed (step e t) ((x ∷ items) ++ answered (e ∷ [])) done) (sym same)
            (step-IsClosed e x items s.reading s.log done (subst (λ t. possible e t ≡ true) same p)
              l) in
        let all =
          run-IsClosed es (step e s) s' x (items ++ answered (e ∷ [])) done next (rw p at h) in
        subst (λ r. IsClosed s' r done)
          (append_assoc (x ∷ items) (answered (e ∷ [])) (answered es)
            ∙ ap (λ r. (x ∷ items) ++ r) (sym (answered-cons e es)))
          all
  ]

  -- What a closing response leaves.
  closing-IsClosed :
      (items : List R) (reading : Bool) (w : Option R) (log : List (Action R))
      → IsClosed (step (on_written true) (session items reading w log)) items (writes log)
  unfolding step
  closing-IsClosed items reading w log = (refl, refl, writes_eof log)

  IsClosed-parts :
      (after : List (Event R)) (s' : Session R) (items : List R) (reading : Bool) (w : Option R)
      (log : List (Action R))
      → possible (on_written true) (session items reading w log) ≡ true
      → Heads w items
      → run after (step (on_written true) (session items reading w log)) ≡ some s'
      → IsClosed s' (items ++ answered after) (writes log)
  IsClosed-parts after s' items reading none log p v k = cc
  IsClosed-parts after s' [] reading (some y) log p v k = absurd v
  IsClosed-parts after s' (x ∷ items) reading (some y) log p v k =
      run-IsClosed after _ s' x items (writes log)
        (closing-IsClosed (x ∷ items) reading (some y) log) k

  -- Behind a response that closes the connection, whatever completes: nothing more is written, and what
  -- is requested is still answered by `handle_request`, whose responses stay in the queue.
  pub run-closed :
      (before after : List (Event R)) (s s' : Session R)
      → run before started ≡ some s
      → possible (on_written true) s ≡ true
      → run after (step (on_written true) s) ≡ some s'
      → (writes s'.log ≡ writes s.log) × (s'.items ≡ s.items ++ answered after)
  run-closed before after s s' h p k =
      let (w, items, log) =
        IsClosed-parts after s' s.items s.reading s.writing s.log p (run-IsValid before s h).front
          k in
      (log, items)
