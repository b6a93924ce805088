-- ===== src/Stream/Paced.antt =====
-- The deadlines of the operations on a stream.
use shadyurl.Common.{
  append_assoc, ℕ, ◌≡◌, ◌≤◌, ◌⊎◌, length-append, refl, ap, ◌∙◌, Bool, true, false, Option, List, [],
  ◌∷◌, ◌++◌, length, leb, drop, drop-length-append, arith, Bool-cases, inl, inr,
}
use shadyurl.Session.{
  Action, write, read, eof, Session, Event, on_request, on_end_of_stream, on_read_error, on_written,
  on_write_error, step,
}
use shadyurl.Session.Queue.{session}
use shadyurl.Network.{
  Protocol, plain, ssl, Stage, starting, detecting, handshaking, serving, released, NetEvent,
  on_run, on_detect, on_handshake, in_session, on_shutdown,
}
use shadyurl.Stream.{
  StreamCall, expires_after, async_detect_ssl, async_handshake, async_read, async_write,
  async_shutdown, shutdown_send, all_calls, shutdowns, actions, calls_at,
}

module _ {R : Type 0} where
  drop_twice : (l a b : List (Action R)) → drop (length l) ((l ++ a) ++ b) ≡ a ++ b
  drop_twice l a b = ap (drop (length l)) (append_assoc l a b) ∙ drop-length-append l (a ++ b)

  drop_all : (l : List (Action R)) → drop (length l) l ≡ []
  drop_all [] = refl
  drop_all (x ∷ l) = drop_all l

  -- What an event can ask for: a write, a read or both, or the end of the stream.
  abbrev pub eof_ends : Event R → ℕ
  eof_ends (on_request r) = 0
  eof_ends on_end_of_stream = 1
  eof_ends on_read_error = 0
  eof_ends (on_written true) = 1
  eof_ends (on_written false) = 0
  eof_ends on_write_error = 0

  -- The lists of actions with no `eof`.
  abbrev HasNoEof : List (Action R) → Type 0
  HasNoEof [] = Unit
  HasNoEof (read ∷ l) = HasNoEof l
  HasNoEof (write r ∷ l) = HasNoEof l
  HasNoEof (eof ∷ l) = ⊥

  abbrev Asked : Event R → List (Action R) → Type 0
  Asked (on_request r) l = HasNoEof l
  Asked on_end_of_stream l = l ≡ eof ∷ []
  Asked on_read_error l = HasNoEof l
  Asked (on_written true) l = l ≡ eof ∷ []
  Asked (on_written false) l = HasNoEof l
  Asked on_write_error l = HasNoEof l

  on_request_log :
      (r x : R) (items : List R) (b : Bool) (w : Option R) (log : List (Action R))
      → ((step (on_request r) (session (x ∷ items) b w log)).log ≡ log)
        ⊎ ((step (on_request r) (session (x ∷ items) b w log)).log ≡ log ++ read ∷ [])
  unfolding step
  on_request_log r x items b w log = elim (Bool-cases (leb 8 (length ((x ∷ items) ++ r ∷ [])))) [
    | inl full ↦ inl (ground (arith, length-append items (r ∷ [])))
    | inr room ↦ inr (ground (arith, length-append items (r ∷ [])))
  ]

  actions-Asked :
      (e : Event R) (items : List R) (reading : Bool) (writing : Option R) (log : List (Action R))
      → Asked e (actions e (session items reading writing log))
  unfolding step
  actions-Asked (on_request r) [] b w log = rw (drop_twice log (write r ∷ []) (read ∷ [])) tt
  actions-Asked (on_request r) (x ∷ items) b w log = elim (on_request_log r x items b w log) [
    | inl full ↦ rw (ap (drop (length log)) full ∙ drop_all log) tt
    | inr room ↦ rw (ap (drop (length log)) room ∙ drop-length-append log (read ∷ [])) tt
  ]
  actions-Asked on_end_of_stream items b w log = drop-length-append log (eof ∷ [])
  actions-Asked on_read_error items b w log = rw (drop_all log) tt
  actions-Asked (on_written true) items b w log = drop-length-append log (eof ∷ [])
  actions-Asked (on_written false) [] b w log = rw (drop_all log) tt
  actions-Asked (on_written false) (x ∷ []) b w log = rw (drop_all log) tt
  actions-Asked (on_written false) (x ∷ y ∷ items) b w log =
      elim (Bool-cases (leb 8 (length (x ∷ y ∷ items)))) [
        | inl full ↦ rw (full, drop_twice log (write y ∷ []) (read ∷ [])) tt
        | inr room ↦ rw (room, drop-length-append log (write y ∷ [])) tt
      ]
  actions-Asked on_write_error items b w log = rw (drop_all log) tt

  -- Each operation that waits for the peer, but a write, stands behind a deadline of its own, of
  -- thirty seconds.
  abbrev is_wait : StreamCall R → Bool
  is_wait async_detect_ssl = true
  is_wait async_handshake = true
  is_wait async_read = true
  is_wait async_shutdown = true
  is_wait (async_write r) = false
  is_wait (expires_after n) = false
  is_wait shutdown_send = false

  abbrev pub Paced : List (StreamCall R) → Type 0
  Paced [] = Unit
  Paced (expires_after n ∷ []) = ⊥
  Paced (expires_after n ∷ c ∷ cs) = (n ≡ 30) × (is_wait c ≡ true) × Paced cs
  Paced (async_write r ∷ cs) = Paced cs
  Paced (shutdown_send ∷ cs) = Paced cs
  Paced (async_detect_ssl ∷ cs) = ⊥
  Paced (async_handshake ∷ cs) = ⊥
  Paced (async_read ∷ cs) = ⊥
  Paced (async_shutdown ∷ cs) = ⊥

  pub Paced-append : (cs ds : List (StreamCall R)) → Paced cs → Paced ds → Paced (cs ++ ds)
  Paced-append [] ds h k = k
  Paced-append (expires_after n ∷ []) ds h k = absurd h
  Paced-append (expires_after n ∷ c ∷ cs) ds h k = (h.0, h.1, Paced-append cs ds h.2 k)
  Paced-append (async_write r ∷ cs) ds h k = Paced-append cs ds h k
  Paced-append (shutdown_send ∷ cs) ds h k = Paced-append cs ds h k
  Paced-append (async_detect_ssl ∷ cs) ds h k = absurd h
  Paced-append (async_handshake ∷ cs) ds h k = absurd h
  Paced-append (async_read ∷ cs) ds h k = absurd h
  Paced-append (async_shutdown ∷ cs) ds h k = absurd h

  all_calls-Paced : (p : Protocol) (log : List (Action R)) → Paced (all_calls p log)
  all_calls-Paced p [] = tt
  all_calls-Paced p (read ∷ log) = (refl, refl, all_calls-Paced p log)
  all_calls-Paced p (write r ∷ log) = all_calls-Paced p log
  all_calls-Paced plain (eof ∷ log) = all_calls-Paced plain log
  all_calls-Paced ssl (eof ∷ log) = (refl, refl, all_calls-Paced ssl log)

  pub calls_at-Paced : (e : NetEvent R) (st : Stage R) → Paced (calls_at e st)
  unfolding calls_at
  calls_at-Paced on_run st = (refl, refl, tt)
  calls_at-Paced (on_detect true received result) st = tt
  calls_at-Paced (on_detect false received true) st = (refl, refl, tt)
  calls_at-Paced (on_detect false received false) st = (refl, refl, tt)
  calls_at-Paced (on_handshake true used) st = tt
  calls_at-Paced (on_handshake false used) st = (refl, refl, tt)
  calls_at-Paced (in_session e) (serving p s) = all_calls-Paced p (actions e s)
  calls_at-Paced (in_session e) starting = tt
  calls_at-Paced (in_session e) detecting = tt
  calls_at-Paced (in_session e) handshaking = tt
  calls_at-Paced (in_session e) released = tt
  calls_at-Paced (on_shutdown ec) st = tt

  HasNoEof-shutdowns : (p : Protocol) (log : List (Action R)) → HasNoEof log → shutdowns p log ≡ 0
  HasNoEof-shutdowns plain log h = refl
  HasNoEof-shutdowns ssl [] h = refl
  HasNoEof-shutdowns ssl (read ∷ log) h = HasNoEof-shutdowns ssl log h
  HasNoEof-shutdowns ssl (write r ∷ log) h = HasNoEof-shutdowns ssl log h
  HasNoEof-shutdowns ssl (eof ∷ log) h = absurd h

  Asked-shutdowns :
      (p : Protocol) (e : Event R) (log : List (Action R))
      → Asked e log
      → shutdowns p log ≤ eof_ends e
  Asked-shutdowns p (on_request r) log h = omega (arith, HasNoEof-shutdowns p log h)
  Asked-shutdowns plain on_end_of_stream log h = omega arith
  Asked-shutdowns ssl on_end_of_stream log h = rw h (omega arith)
  Asked-shutdowns p on_read_error log h = omega (arith, HasNoEof-shutdowns p log h)
  Asked-shutdowns plain (on_written true) log h = omega arith
  Asked-shutdowns ssl (on_written true) log h = rw h (omega arith)
  Asked-shutdowns p (on_written false) log h = omega (arith, HasNoEof-shutdowns p log h)
  Asked-shutdowns p on_write_error log h = omega (arith, HasNoEof-shutdowns p log h)

  -- An event starts at most one shutdown.
  pub shutdowns-actions :
      (p : Protocol) (e : Event R) (s : Session R) → shutdowns p (actions e s) ≤ eof_ends e
  shutdowns-actions p e s =
      Asked-shutdowns p e (actions e s) (actions-Asked e s.items s.reading s.writing s.log)
