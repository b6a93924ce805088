-- ===== src/Stream/Freed.antt =====
-- A connection whose operations fail.
use shadyurl.Common.{
  ℕ, ◌+◌, ◌≡◌, sym, Bool, true, false, Option, none, some, List, [], ◌∷◌, Bytes, length, arith,
  Option-cases, inl, inr,
}
use shadyurl.Log.{ErrorCode}
use shadyurl.Session.{
  Action, on_request, on_end_of_stream, on_read_error, on_written, on_write_error, step, possible,
}
use shadyurl.Session.Queue.{session, none-ne-some}
use shadyurl.Network.{
  Protocol, ssl, Stage, detecting, handshaking, serving, released, Connection, NetEvent, on_run,
  on_detect, on_handshake, in_session, on_shutdown, conn_step,
}
use shadyurl.Stream.{
  actions, shutdowns, shutting_at, Socket, is_stray, socket_step, socket_run, outstanding,
}
use shadyurl.Stream.Paced.{shutdowns-actions}
use shadyurl.Stream.Held.{socket_step-some}

module _ {R : Type 0} where
  -- The end of an operation by an error, such as its deadline.
  abbrev pub is_failure : NetEvent R → Bool
  is_failure (on_detect ec received result) = ec
  is_failure (on_handshake ec used) = ec
  is_failure (in_session on_read_error) = true
  is_failure (in_session on_write_error) = true
  is_failure (on_shutdown ec) = ec
  is_failure on_run = false
  is_failure (in_session (on_request r)) = false
  is_failure (in_session on_end_of_stream) = false
  is_failure (in_session (on_written close)) = false

  read_error-outstanding :
      (p : Protocol) (items : List R) (reading : Bool) (w : Option R) (log : List (Action R))
      (n : ℕ)
      → reading ≡ true
      → outstanding
            (serving p (step on_read_error (session items reading w log)))
            (n + shutdowns p (actions on_read_error (session items reading w log)))
          + 1
        ≡ outstanding (serving p (session items reading w log)) n
  unfolding step
  read_error-outstanding p items true w log n h =
      omega (arith, shutdowns-actions p on_read_error (session items true w log))
  read_error-outstanding p items false w log n h = cc

  write_error-outstanding :
      (p : Protocol) (items : List R) (reading : Bool) (w : Option R) (log : List (Action R))
      (n : ℕ)
      → possible on_write_error (session items reading w log) ≡ true
      → outstanding
            (serving p (step on_write_error (session items reading w log)))
            (n + shutdowns p (actions on_write_error (session items reading w log)))
          + 1
        ≡ outstanding (serving p (session items reading w log)) n
  unfolding step
  write_error-outstanding p items reading (some x) log n h =
      omega (arith, shutdowns-actions p on_write_error (session items reading (some x) log))
  write_error-outstanding p items reading none log n h = cc

  parts-outstanding :
      (e : NetEvent R) (st : Stage R) (buffer : Bytes) (c : Connection R) (n : ℕ)
      → is_failure e ≡ true
      → is_stray e n ≡ false
      → conn_step e st buffer ≡ some c
      → outstanding c.stage (shutting_at e st n) + 1 ≡ outstanding st n
  unfolding conn_step shutting_at
  parts-outstanding (on_detect true received result) detecting buffer c n f k h =
      let same : c.stage ≡ released = ground arith in rw same (omega arith)
  parts-outstanding (on_handshake true used) handshaking buffer c n f k h =
      let same : c.stage ≡ released = ground arith in rw same (omega arith)
  parts-outstanding (in_session on_read_error) (serving p s) buffer c n f k h =
      let can : s.reading ≡ true = ground arith in
      let same : c.stage ≡ serving p (step on_read_error s) = ground arith in
      rw same (read_error-outstanding p s.items s.reading s.writing s.log n can)
  parts-outstanding (in_session on_write_error) (serving p s) buffer c n f k h =
      let can : possible on_write_error s ≡ true = ground arith in
      let same : c.stage ≡ serving p (step on_write_error s) = ground arith in
      rw same (write_error-outstanding p s.items s.reading s.writing s.log n can)
  parts-outstanding (on_shutdown true) (serving ssl s) buffer c n f k h =
      let same : c.stage ≡ serving ssl s = ground arith in rw same (ground arith)
  parts-outstanding _ _ buffer c n f k h = cc

  -- Completions that are all failures.
  abbrev pub AllFail : List (NetEvent R × ErrorCode) → Type 0
  AllFail [] = Unit
  AllFail ((e, code) ∷ es) = (is_failure e ≡ true) × AllFail es

  -- Where outstanding operations of a connection fail, as each does at its deadline, what is
  -- outstanding behind them is less by their number: no handler of an error starts another operation.
  pub socket_run-outstanding :
      (es : List (NetEvent R × ErrorCode)) (s s' : Socket R)
      → AllFail es
      → socket_run es s ≡ some s'
      → outstanding s'.conn.stage s'.shutting + length es ≡ outstanding s.conn.stage s.shutting
  unfolding socket_run
  socket_run-outstanding [] s s' f h = let same : s ≡ s' = cc in rw same (omega arith)
  socket_run-outstanding ((e, code) ∷ es) s s' f h = elim (Option-cases (socket_step e code s)) [
    | inl n ↦ absurd (none-ne-some (rw (n, socket_run) at h))
    | inr (s1, k) ↦
        let (c, fits, m, same) = socket_step-some e code s s1 k in
        let fewer = parts-outstanding e s.conn.stage s.conn.buffer c s.shutting f.0 fits m in
        let one_step : outstanding s1.conn.stage s1.shutting + 1
            ≡ outstanding s.conn.stage s.shutting =
          rw (sym same) fewer in
        omega (arith, socket_run-outstanding es s1 s' f.1 (rw (k, socket_run) at h))
  ]
