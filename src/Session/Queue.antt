-- ===== src/Session/Queue.antt =====
-- The bound of the queue, and that no two writes and no two reads overlap.
use Prim.Native.Nat.add
use shadyurl.Common.{
  ℕ, suc, ◌+◌, ◌≤◌, ◌≡◌, refl, ap, ◌∙◌, Bool, true, false, ◌&&◌, Option, none, some, List, [], ◌∷◌,
  ◌++◌, leb, if◌then◌else◌, length, length-append, arith, Bool-cases, inl, inr,
}
use shadyurl.Session.{
  Action, write, read, eof, Session, Event, on_request, on_end_of_stream, on_read_error, on_written,
  on_write_error, step, started, possible, run, writes, reads,
}

abbrev pub one : Bool → ℕ
one b = if b then 1 else 0

abbrev pub is_some : {A : Type 0} → Option A → Bool
is_some none = false
is_some (some a) = true

one-add : (n : ℕ) → 1 + n ≡ suc n
one-add n = omega arith

pub none-ne-some : {A : Type 0} {a : A} → none ≡ some a → ⊥
none-ne-some h = cc

module _ {R : Type 0} where
  abbrev pub Heads : Option R → List R → Type 0
  Heads none items = Unit
  Heads (some r) [] = ⊥
  Heads (some r) (x ∷ items) = r ≡ x

  Heads-append :
      (w : Option R) (x : R) (items : List R) (r : R)
      → Heads w (x ∷ items)
      → Heads w (x ∷ (items ++ r ∷ []))
  Heads-append none x items r h = tt
  Heads-append (some y) x items r h = h

  -- The completions among the events.
  abbrev pub reads_done : List (Event R) → ℕ
  reads_done [] = 0
  reads_done (on_request r ∷ es) = suc (reads_done es)
  reads_done (on_end_of_stream ∷ es) = suc (reads_done es)
  reads_done (on_read_error ∷ es) = suc (reads_done es)
  reads_done (on_written c ∷ es) = reads_done es
  reads_done (on_write_error ∷ es) = reads_done es

  abbrev pub writes_done : List (Event R) → ℕ
  writes_done [] = 0
  writes_done (on_request r ∷ es) = writes_done es
  writes_done (on_end_of_stream ∷ es) = writes_done es
  writes_done (on_read_error ∷ es) = writes_done es
  writes_done (on_written c ∷ es) = suc (writes_done es)
  writes_done (on_write_error ∷ es) = suc (writes_done es)

  -- With `rd` reads and `wr` writes completed.
  pub record IsValid (rd wr : ℕ) (s : Session R) : Type 0 where
    pub bounded : length s.items ≤ 8
    pub room : (s.reading && leb 8 (length s.items)) ≡ false
    pub front : Heads s.writing s.items
    pub one_read : reads s.log ≡ rd + one s.reading
    pub one_write : length (writes s.log) ≡ wr + one (is_some s.writing)

  pub writes-append : (l k : List (Action R)) → writes (l ++ k) ≡ writes l ++ writes k
  writes-append [] k = refl
  writes-append (write r ∷ l) k = ap (◌∷◌ r) (writes-append l k)
  writes-append (read ∷ l) k = writes-append l k
  writes-append (eof ∷ l) k = writes-append l k

  reads-append : (l k : List (Action R)) → reads (l ++ k) ≡ reads l + reads k
  reads-append [] k = omega arith
  reads-append (write r ∷ l) k = reads-append l k
  reads-append (read ∷ l) k = omega (arith, reads-append l k)
  reads-append (eof ∷ l) k = reads-append l k

  length-writes_append :
      (l k : List (Action R)) → length (writes (l ++ k)) ≡ length (writes l) + length (writes k)
  length-writes_append l k = ap length (writes-append l k) ∙ length-append (writes l) (writes k)

  abbrev pub session : List R → Bool → Option R → List (Action R) → Session R
  session items reading writing log = record {
    items = items;
    reading = reading;
    writing = writing;
    log = log;
  }

  on_request-IsValid :
      (rd wr : ℕ) (r : R) (items : List R) (w : Option R) (log : List (Action R))
      → IsValid rd wr (session items true w log)
      → IsValid (suc rd) wr (step (on_request r) (session items true w log))
  unfolding step
  on_request-IsValid rd wr r [] (some x) log v = absurd v.front
  on_request-IsValid rd wr r [] none log v = ground (
    arith,
    reads-append (log ++ write r ∷ []) (read ∷ []),
    reads-append log (write r ∷ []),
    length-writes_append (log ++ write r ∷ []) (read ∷ []),
    length-writes_append log (write r ∷ []),
  )
  on_request-IsValid rd wr r (x ∷ items) w log v = ground (
    arith,
    length-append items (r ∷ []),
    reads-append log (read ∷ []),
    length-writes_append log (read ∷ []),
    Heads-append w x items r,
  )

  on_written-IsValid :
      (rd wr : ℕ) (close : Bool) (x : R) (items : List R) (b : Bool) (log : List (Action R))
      → IsValid rd wr (session (x ∷ items) b (some x) log)
      → IsValid rd (suc wr) (step (on_written close) (session (x ∷ items) b (some x) log))
  unfolding step
  on_written-IsValid rd wr close x [] b log v =
      ground (arith, reads-append log (eof ∷ []), length-writes_append log (eof ∷ []))
  on_written-IsValid rd wr close x (y ∷ items) b log v = ground (
    arith,
    reads-append log (eof ∷ []),
    length-writes_append log (eof ∷ []),
    reads-append log (write y ∷ []),
    length-writes_append log (write y ∷ []),
    reads-append (log ++ write y ∷ []) (read ∷ []),
    length-writes_append (log ++ write y ∷ []) (read ∷ []),
  )

  abbrev read_step : Event R → ℕ
  read_step e = reads_done (e ∷ [])

  abbrev write_step : Event R → ℕ
  write_step e = writes_done (e ∷ [])

  step_parts :
      (e : Event R) (rd wr : ℕ) (items : List R) (b : Bool) (w : Option R) (log : List (Action R))
      → possible e (session items b w log) ≡ true
      → IsValid rd wr (session items b w log)
      → IsValid (read_step e + rd) (write_step e + wr) (step e (session items b w log))
  step_parts (on_request r) rd wr items true w log p v =
      rw (add.zero, one-add) (on_request-IsValid rd wr r items w log v)
  step_parts (on_request r) rd wr items false w log p v = cc
  step_parts on_end_of_stream rd wr items true w log p v =
      unfold step in
      ground (arith, reads-append log (eof ∷ []), length-writes_append log (eof ∷ []))
  step_parts on_end_of_stream rd wr items false w log p v = cc
  step_parts on_read_error rd wr items true w log p v = unfold step in ground arith
  step_parts on_read_error rd wr items false w log p v = cc
  step_parts (on_written close) rd wr (x ∷ items) b (some y) log p v =
      let same : y ≡ x = v.front in
      rw (add.zero, one-add, same) (on_written-IsValid rd wr close x items b log (rw same at v))
  step_parts (on_written close) rd wr [] b (some y) log p v = absurd v.front
  step_parts (on_written close) rd wr items b none log p v = cc
  step_parts on_write_error rd wr items b (some y) log p v = unfold step in ground arith
  step_parts on_write_error rd wr items b none log p v = cc

  step-IsValid :
      (e : Event R) (rd wr : ℕ) (s : Session R)
      → possible e s ≡ true
      → IsValid rd wr s
      → IsValid (read_step e + rd) (write_step e + wr) (step e s)
  step-IsValid e rd wr s p v = step_parts e rd wr s.items s.reading s.writing s.log p v

  reads_done-cons :
      (e : Event R) (es : List (Event R)) → reads_done (e ∷ es) ≡ read_step e + reads_done es
  reads_done-cons (on_request r) es = omega arith
  reads_done-cons on_end_of_stream es = omega arith
  reads_done-cons on_read_error es = omega arith
  reads_done-cons (on_written c) es = omega arith
  reads_done-cons on_write_error es = omega arith

  writes_done-cons :
      (e : Event R) (es : List (Event R)) → writes_done (e ∷ es) ≡ write_step e + writes_done es
  writes_done-cons (on_request r) es = omega arith
  writes_done-cons on_end_of_stream es = omega arith
  writes_done-cons on_read_error es = omega arith
  writes_done-cons (on_written c) es = omega arith
  writes_done-cons on_write_error es = omega arith

  run_from-IsValid :
      (es : List (Event R)) (rd wr rd' wr' : ℕ) (s s' : Session R)
      → rd' ≡ rd + reads_done es
      → wr' ≡ wr + writes_done es
      → run es s ≡ some s'
      → IsValid rd wr s
      → IsValid rd' wr' s'
  unfolding run
  run_from-IsValid [] rd wr rd' wr' s s' er ew h v =
      let a : rd' ≡ rd = omega arith in
      let b : wr' ≡ wr = omega arith in let c : s ≡ s' = cc in rw (a, b, ← c) v
  run_from-IsValid (e ∷ es) rd wr rd' wr' s s' er ew h v = elim (Bool-cases (possible e s)) [
    | inl p ↦
        run_from-IsValid es (read_step e + rd) (write_step e + wr) rd' wr' (step e s) s'
          (omega (arith, reads_done-cons e es)) (omega (arith, writes_done-cons e es)) (rw p at h)
          (step-IsValid e rd wr s p v)
    | inr p ↦ absurd (none-ne-some (rw p at h))
  ]

  started-IsValid : IsValid 0 0 (started {R = R})
  started-IsValid = ground arith

  -- Whatever completes in whatever order, as long as only outstanding operations complete: the queue
  -- holds at most 8 responses, and fewer while a read is outstanding; what is being written is its
  -- first response; and the reads and writes that were started are those that completed and at most
  -- one more of each, the outstanding one.
  pub run-IsValid :
      (es : List (Event R)) (s : Session R)
      → run es started ≡ some s
      → IsValid (reads_done es) (writes_done es) s
  run-IsValid es s h =
      run_from-IsValid es 0 0 (reads_done es) (writes_done es) started s (omega arith) (omega arith)
        h started-IsValid
