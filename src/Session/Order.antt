-- ===== src/Session/Order.antt =====
-- Pipelined responses go out in the order of their requests, and a live session never stalls.
use shadyurl.Common.{
  ◌≤◌, ◌≡◌, refl, sym, ap, ◌∙◌, Bool, true, false, not, Option, some, List, [], ◌∷◌, ◌++◌,
  append-nil, append_assoc, leb, length, length-append, arith, Bool-cases, inl, inr, All,
}
use shadyurl.Session.{
  Action, write, read, eof, Session, Event, on_request, on_end_of_stream, on_read_error, on_written,
  on_write_error, step, started, possible, run, writes,
}
use shadyurl.Session.Queue.{session, writes-append, is_some, none-ne-some}

module _ {R : Type 0} where
  -- The responses that the handlers gave, in order.
  abbrev pub answered : List (Event R) → List R
  answered [] = []
  answered (on_request r ∷ es) = r ∷ answered es
  answered (on_end_of_stream ∷ es) = answered es
  answered (on_read_error ∷ es) = answered es
  answered (on_written c ∷ es) = answered es
  answered (on_write_error ∷ es) = answered es

  -- The responses behind the first one of the queue.
  abbrev pub behind : List R → List R
  behind [] = []
  behind (r ∷ items) = items

  abbrev given : Event R → List R
  given e = answered (e ∷ [])

  abbrev InOrder : List R → Session R → Type 0
  InOrder done s = done ≡ writes s.log ++ behind s.items

  pub writes_read : (l : List (Action R)) → writes (l ++ read ∷ []) ≡ writes l
  writes_read l = writes-append l (read ∷ []) ∙ append-nil (writes l)

  pub writes_eof : (l : List (Action R)) → writes (l ++ eof ∷ []) ≡ writes l
  writes_eof l = writes-append l (eof ∷ []) ∙ append-nil (writes l)

  step_parts-InOrder :
      (e : Event R) (done items : List R) (b : Bool) (w : Option R) (log : List (Action R))
      → InOrder done (session items b w log)
      → InOrder (done ++ given e) (step e (session items b w log))
  unfolding step
  step_parts-InOrder (on_request r) done [] b w log h = ground (
    arith,
    writes_read (log ++ write r ∷ []),
    writes-append log (write r ∷ []),
    append-nil (writes log),
    append-nil (writes log ++ r ∷ []),
  )
  step_parts-InOrder (on_request r) done (x ∷ items) b w log h = ground (
    arith,
    length-append items (r ∷ []),
    writes_read log,
    append_assoc (writes log) items (r ∷ []),
  )
  step_parts-InOrder on_end_of_stream done items b w log h =
      append-nil done ∙ ground (arith, writes_eof log)
  step_parts-InOrder on_read_error done items b w log h = append-nil done ∙ h
  step_parts-InOrder (on_written c) done [] b w log h =
      append-nil done ∙ ground (arith, writes_eof log, writes_read log)
  step_parts-InOrder (on_written c) done (x ∷ []) b w log h =
      append-nil done ∙ ground (arith, writes_eof log, writes_read log)
  step_parts-InOrder (on_written c) done (x ∷ y ∷ items) b w log h =
      append-nil done
      ∙ ground (
        arith,
        writes_eof log,
        writes_read (log ++ write y ∷ []),
        writes-append log (write y ∷ []),
        append_assoc (writes log) (y ∷ []) items,
      )
  step_parts-InOrder on_write_error done items b w log h = append-nil done ∙ h

  answered-cons : (e : Event R) (es : List (Event R)) → answered (e ∷ es) ≡ given e ++ answered es
  answered-cons (on_request r) es = refl
  answered-cons on_end_of_stream es = refl
  answered-cons on_read_error es = refl
  answered-cons (on_written c) es = refl
  answered-cons on_write_error es = refl

  run_from-InOrder :
      (es : List (Event R)) (done : List R) (s s' : Session R)
      → run es s ≡ some s'
      → InOrder done s
      → InOrder (done ++ answered es) s'
  unfolding run
  run_from-InOrder [] done s s' h o = let c : s ≡ s' = cc in rw (append-nil, ← c) o
  run_from-InOrder (e ∷ es) done s s' h o = elim (Bool-cases (possible e s)) [
    | inl p ↦
        ap (λ l. done ++ l) (answered-cons e es)
        ∙ sym (append_assoc done (given e) (answered es))
        ∙ run_from-InOrder es (done ++ given e) (step e s) s' (rw p at h)
            (step_parts-InOrder e done s.items s.reading s.writing s.log o)
    | inr p ↦ absurd (none-ne-some (rw p at h))
  ]

  -- Whatever completes in whatever order: the responses whose write was started, followed by those
  -- that wait behind the first of the queue, are the responses of the requests in their order. So
  -- what goes out is at every time a prefix of what was answered, with none lost, doubled or swapped.
  pub writes_in_order :
      (es : List (Event R)) (s : Session R)
      → run es started ≡ some s
      → answered es ≡ writes s.log ++ behind s.items
  writes_in_order es s h = run_from-InOrder es [] started s h refl

  -- An event that neither ends nor breaks the connection.
  abbrev pub IsLive : Event R → Type 0
  IsLive (on_request r) = Unit
  IsLive on_end_of_stream = ⊥
  IsLive on_read_error = ⊥
  IsLive (on_written c) = c ≡ false
  IsLive on_write_error = ⊥

  -- A read is outstanding exactly while there is room, a write exactly while there is an item.
  pub record IsBusy (s : Session R) : Type 0 where
    pub bounded : length s.items ≤ 8
    pub reads_on : s.reading ≡ not (leb 8 (length s.items))
    pub writes_on : is_some s.writing ≡ not (leb (length s.items) 0)

  step_parts-IsBusy :
      (e : Event R) (items : List R) (b : Bool) (w : Option R) (log : List (Action R))
      → possible e (session items b w log) ≡ true
      → IsLive e
      → IsBusy (session items b w log)
      → IsBusy (step e (session items b w log))
  unfolding step
  step_parts-IsBusy (on_request r) [] b w log p l v = ground arith
  step_parts-IsBusy (on_request r) (x ∷ items) b w log p l v =
      ground (arith, length-append items (r ∷ []))
  step_parts-IsBusy on_end_of_stream items b w log p l v = absurd l
  step_parts-IsBusy on_read_error items b w log p l v = absurd l
  step_parts-IsBusy (on_written c) [] b w log p l v = ground arith
  step_parts-IsBusy (on_written c) (x ∷ []) b w log p l v = ground arith
  step_parts-IsBusy (on_written c) (x ∷ y ∷ items) b w log p l v = ground arith
  step_parts-IsBusy on_write_error items b w log p l v = absurd l

  run_from-IsBusy :
      (es : List (Event R)) (s s' : Session R)
      → run es s ≡ some s'
      → All IsLive es
      → IsBusy s
      → IsBusy s'
  unfolding run
  run_from-IsBusy [] s s' h l v = let c : s ≡ s' = cc in rw (← c) v
  run_from-IsBusy (e ∷ es) s s' h l v = elim (Bool-cases (possible e s)) [
    | inl p ↦
        run_from-IsBusy es (step e s) s' (rw p at h) l.1
          (step_parts-IsBusy e s.items s.reading s.writing s.log p l.0 v)
    | inr p ↦ absurd (none-ne-some (rw p at h))
  ]

  -- While no event ends or breaks the connection, the session never stalls: a read is outstanding
  -- exactly while the queue has room, and a write exactly while it holds a response.
  pub run-IsBusy :
      (es : List (Event R)) (s : Session R) → run es started ≡ some s → All IsLive es → IsBusy s
  run-IsBusy es s h l = run_from-IsBusy es started s h l (ground arith)
