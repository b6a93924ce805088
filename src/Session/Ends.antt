-- ===== src/Session/Ends.antt =====
-- How often a session ends to read or to write.
use Prim.Native.Nat.add
use shadyurl.Common.{
  ℕ, ◌+◌, ◌≤◌, ◌≡◌, refl, Bool, true, false, ◌&&◌, Option, none, some, List, [], ◌∷◌, ◌++◌, leb,
  length, arith, Bool-cases, inl, inr, Bytes, length-append, codes,
}
use shadyurl.Session.{
  Session, Event, on_request, on_end_of_stream, on_read_error, on_written, on_write_error, step,
  started, possible, run, Action, logged,
}
use shadyurl.Log.{ErrorCode, fail, Entry}
use shadyurl.Session.Queue.{one, is_some, session, none-ne-some}

pub length-fail : (ec : ErrorCode) (what : Bytes) → length (fail ec what) ≤ 1
unfolding fail
length-fail ec what = ground arith

module _ {R : Type 0} where
  -- Whether an event is the last of the reads, or the last of the writes.
  abbrev pub ends_reads : Event R → ℕ
  ends_reads (on_request r) = 0
  ends_reads on_end_of_stream = 1
  ends_reads on_read_error = 1
  ends_reads (on_written close) = 0
  ends_reads on_write_error = 0

  abbrev pub ends_writes : Event R → ℕ
  ends_writes (on_request r) = 0
  ends_writes on_end_of_stream = 0
  ends_writes on_read_error = 0
  ends_writes (on_written close) = one close
  ends_writes on_write_error = 1

  -- With `a` ends of the reads and `b` of the writes.
  pub record IsEnding (a b : ℕ) (s : Session R) : Type 0 where
    pub room : (s.reading && leb 8 (length s.items)) ≡ false
    pub front : one (is_some s.writing) ≤ length s.items
    pub one_read : a + one s.reading ≤ 1
    pub one_write : b + one (is_some s.writing) ≤ 1
    pub few : a + length s.items ≤ 8
    pub kept : b ≤ length s.items

  pub started-IsEnding : IsEnding 0 0 started
  started-IsEnding = record {
    room = refl;
    front = omega arith;
    one_read = omega arith;
    one_write = omega arith;
    few = omega arith;
    kept = omega arith;
  }

  on_request-IsEnding :
      (a b : ℕ) (r : R) (items : List R) (writing : Option R) (log : List (Action R))
      → IsEnding a b (session items true writing log)
      → IsEnding a b (step (on_request r) (session items true writing log))
  unfolding step
  on_request-IsEnding a b r [] none log h = ground arith
  on_request-IsEnding a b r [] (some w) log h = ground arith
  on_request-IsEnding a b r (x ∷ items) none log h = ground (arith, length-append items (r ∷ []))
  on_request-IsEnding a b r (x ∷ items) (some w) log h =
      ground (arith, length-append items (r ∷ []))

  on_written-IsEnding :
      (a b : ℕ) (close : Bool) (items : List R) (reading : Bool) (w : R) (log : List (Action R))
      → IsEnding a b (session items reading (some w) log)
      → IsEnding a (one close + b) (step (on_written close) (session items reading (some w) log))
  unfolding step
  on_written-IsEnding a b close [] reading w log h = absurd (omega (arith, h.front))
  on_written-IsEnding a b close (x ∷ []) reading w log h = ground arith
  on_written-IsEnding a b close (x ∷ y ∷ items) reading w log h = ground arith

  pub parts-IsEnding :
      (e : Event R) (a b : ℕ) (items : List R) (reading : Bool) (writing : Option R)
      (log : List (Action R))
      → possible e (session items reading writing log) ≡ true
      → IsEnding a b (session items reading writing log)
      → IsEnding (ends_reads e + a) (ends_writes e + b) (step e (session items reading writing log))
  parts-IsEnding (on_request r) a b items true w log p h =
      rw (add.zero, add.zero) (on_request-IsEnding a b r items w log h)
  parts-IsEnding (on_request r) a b items false w log p h = cc
  parts-IsEnding on_end_of_stream a b items true w log p h = unfold step in ground arith
  parts-IsEnding on_end_of_stream a b items false w log p h = cc
  parts-IsEnding on_read_error a b items true w log p h = unfold step in ground arith
  parts-IsEnding on_read_error a b items false w log p h = cc
  parts-IsEnding (on_written close) a b items reading (some w) log p h =
      rw add.zero (on_written-IsEnding a b close items reading w log h)
  parts-IsEnding (on_written close) a b items reading none log p h = cc
  parts-IsEnding on_write_error a b items reading (some w) log p h = unfold step in ground arith
  parts-IsEnding on_write_error a b items reading none log p h = cc

  -- How many of the events end the reads, or the writes.
  abbrev pub read_ends : List (Event R) → ℕ
  read_ends [] = 0
  read_ends (e ∷ es) = ends_reads e + read_ends es

  abbrev pub write_ends : List (Event R) → ℕ
  write_ends [] = 0
  write_ends (e ∷ es) = ends_writes e + write_ends es

  run_from-IsEnding :
      (es : List (Event R)) (a b : ℕ) (s s' : Session R)
      → run es s ≡ some s'
      → IsEnding a b s
      → (a + read_ends es ≤ 1) × (b + write_ends es ≤ 1)
  unfolding run
  run_from-IsEnding [] a b s s' h v = (omega (arith, v.one_read), omega (arith, v.one_write))
  run_from-IsEnding (e ∷ es) a b s s' h v = elim (Bool-cases (possible e s)) [
    | inl p ↦
        let (r, w) =
          run_from-IsEnding es (ends_reads e + a) (ends_writes e + b) (step e s) s' (rw p at h)
            (parts-IsEnding e a b s.items s.reading s.writing s.log p v) in
        (omega arith, omega arith)
    | inr p ↦ absurd (none-ne-some (rw p at h))
  ]

  abbrev pub completions : List (Event R × ErrorCode) → List (Event R)
  completions [] = []
  completions ((e, ec) ∷ es) = e ∷ completions es

  -- What is logged for completions with their error codes.
  abbrev pub journal : List (Event R × ErrorCode) → List Entry
  journal [] = []
  journal ((e, ec) ∷ es) = logged e ec ++ journal es

  length-logged :
      (e : Event R) (ec : ErrorCode) → length (logged e ec) ≤ ends_reads e + ends_writes e
  length-logged (on_request r) ec = omega arith
  length-logged on_end_of_stream ec = omega arith
  length-logged on_read_error ec = omega (arith, length-fail ec (codes "read"))
  length-logged (on_written close) ec = omega arith
  length-logged on_write_error ec = omega (arith, length-fail ec (codes "write"))

  length-journal :
      (es : List (Event R × ErrorCode))
      → length (journal es) ≤ read_ends (completions es) + write_ends (completions es)
  length-journal [] = omega arith
  length-journal ((e, ec) ∷ es) =
      omega (arith, length-append (logged e ec) (journal es), length-logged e ec, length-journal es)

  -- Whatever completes in whatever order, as long as only outstanding operations complete: the reads
  -- of a session end at most once, by the end of the stream or an error, and its writes at most once,
  -- by a response that closes the connection or an error; and it never logs more than two lines.
  pub run-ends_once :
      (es : List (Event R × ErrorCode)) (s : Session R)
      → run (completions es) started ≡ some s
      → (read_ends (completions es) ≤ 1)
        × (write_ends (completions es) ≤ 1)
        × (length (journal es) ≤ 2)
  run-ends_once es s h =
      let (r, w) = run_from-IsEnding (completions es) 0 0 started s h started-IsEnding in
      (omega arith, omega arith, omega (arith, length-journal es))
