-- ===== src/Stream/Held.antt =====
-- What a connection holds at most: operations that are outstanding, and lines in the log.
use mathlib.Core.Path.{subst}
use shadyurl.Common.{
  ℕ, ◌+◌, ◌≡◌, ◌≤◌, refl, true, false, some, List, [], ◌∷◌, ◌++◌, Bytes, codes, length,
  length-append, arith, Bool-cases, Option-cases, inl, inr,
}
use shadyurl.Log.{ErrorCode}
use shadyurl.Session.{
  Session, Event, on_request, on_end_of_stream, on_read_error, on_written, on_write_error, step,
  started, possible, logged,
}
use shadyurl.Session.Queue.{none-ne-some}
use shadyurl.Session.Ends.{
  IsEnding, started-IsEnding, parts-IsEnding, ends_reads, ends_writes, length-fail,
}
use shadyurl.Network.{
  Protocol, plain, ssl, Stage, starting, detecting, handshaking, serving, released, Connection,
  NetEvent, on_run, on_detect, on_handshake, in_session, on_shutdown, conn_step,
}
use shadyurl.Stream.{
  actions, shutdowns, lines_at, shutting_at, calls_at, Socket, fresh_socket, is_stray, socket_step,
  socket_run, outstanding,
}
use shadyurl.Stream.Paced.{Paced, Paced-append, calls_at-Paced, shutdowns-actions}

module _ {R : Type 0} where
  -- Before its session a connection waits for one operation and has logged nothing; in it, what waits
  -- to be shut down and what was logged comes from the ends of its reads and writes.
  abbrev Within : Stage R → ℕ → ℕ → Type 0
  Within starting n l = (n ≡ 0) × (l ≡ 0)
  Within detecting n l = (n ≡ 0) × (l ≡ 0)
  Within handshaking n l = (n ≡ 0) × (l ≡ 0)
  Within (serving p s) n l = (a : ℕ) × (b : ℕ) × IsEnding a b s × (n + l ≤ a + b)
  Within released n l = (n ≡ 0) × (l ≤ 1)

  -- An event of a session ends its reads or writes by a shutdown or by a line.
  lines-shutdowns-le :
      (p : Protocol) (e : Event R) (s : Session R) (code : ErrorCode)
      → shutdowns p (actions e s) + length (logged e code) ≤ ends_reads e + ends_writes e
  lines-shutdowns-le p (on_request r) s code = omega (arith, shutdowns-actions p (on_request r) s)
  lines-shutdowns-le p on_end_of_stream s code =
      omega (arith, shutdowns-actions p on_end_of_stream s)
  lines-shutdowns-le p on_read_error s code =
      omega (arith, shutdowns-actions p on_read_error s, length-fail code (codes "read"))
  lines-shutdowns-le p (on_written true) s code =
      omega (arith, shutdowns-actions p (on_written true) s)
  lines-shutdowns-le p (on_written false) s code =
      omega (arith, shutdowns-actions p (on_written false) s)
  lines-shutdowns-le p on_write_error s code =
      omega (arith, shutdowns-actions p on_write_error s, length-fail code (codes "write"))

  session-Within :
      (p : Protocol) (e : Event R) (s : Session R) (n l : ℕ) (code : ErrorCode)
      → possible e s ≡ true
      → Within (serving p s) n l
      → Within (serving p (step e s)) (n + shutdowns p (actions e s)) (l + length (logged e code))
  session-Within p e s n l code h (a, b, v, k) = (
    ends_reads e + a,
    ends_writes e + b,
    parts-IsEnding e a b s.items s.reading s.writing s.log h v,
    omega (arith, lines-shutdowns-le p e s code),
  )

  -- The same of every event.
  parts-Within :
      (e : NetEvent R) (st : Stage R) (buffer : Bytes) (c : Connection R) (n l : ℕ)
      (code : ErrorCode)
      → is_stray e n ≡ false
      → conn_step e st buffer ≡ some c
      → Within st n l
      → Within c.stage (shutting_at e st n) (l + length (lines_at e code))
  unfolding conn_step shutting_at lines_at
  parts-Within on_run starting buffer c n l code k h w =
      let same : c.stage ≡ detecting = ground arith in rw same (omega arith, omega arith)
  parts-Within (on_detect true received result) detecting buffer c n l code k h w =
      let same : c.stage ≡ released = ground arith in
      rw same (omega arith, omega (arith, length-fail code (codes "detect")))
  parts-Within (on_detect false received true) detecting buffer c n l code k h w =
      let same : c.stage ≡ handshaking = ground arith in rw same (omega arith, omega arith)
  parts-Within (on_detect false received false) detecting buffer c n l code k h w =
      let same : c.stage ≡ serving plain started = ground arith in
      rw same (0, 0, started-IsEnding, omega arith)
  parts-Within (on_handshake true used) handshaking buffer c n l code k h w =
      let same : c.stage ≡ released = ground arith in
      rw same (omega arith, omega (arith, length-fail code (codes "handshake")))
  parts-Within (on_handshake false used) handshaking buffer c n l code k h w =
      let same : c.stage ≡ serving ssl started = ground arith in
      rw same (0, 0, started-IsEnding, omega arith)
  parts-Within (in_session e) (serving p s) buffer c n l code k h w =
      let can : possible e s ≡ true = ground arith in
      let same : c.stage ≡ serving p (step e s) = ground arith in
      rw same (session-Within p e s n l code can w)
  parts-Within (on_shutdown ec) (serving ssl s) buffer c n l code k h (a, b, v, m) =
      let same : c.stage ≡ serving ssl s = ground arith in
      rw same (a, b, v, ground (arith, length-fail code (codes "shutdown")))
  parts-Within _ _ buffer c n l code k h w = cc

  record IsHeld (s : Socket R) : Type 0 where
    within : Within s.conn.stage s.shutting (length s.lines)
    paced : Paced s.calls

  pub socket_step-some :
      (e : NetEvent R) (code : ErrorCode) (s s' : Socket R)
      → socket_step e code s ≡ some s'
      → (c : Connection R) × (is_stray e s.shutting ≡ false)
        × (conn_step e s.conn.stage s.conn.buffer ≡ some c)
        × (record {
          conn = c;
          calls = s.calls ++ calls_at e s.conn.stage;
          shutting = shutting_at e s.conn.stage s.shutting;
          lines = s.lines ++ lines_at e code;
        }
            ≡ s')
  unfolding socket_step
  socket_step-some e code s s' h = elim (Bool-cases (is_stray e s.shutting)) [
    | inl k ↦ absurd (none-ne-some (rw k at h))
    | inr k ↦ elim (Option-cases (conn_step e s.conn.stage s.conn.buffer)) [
      | inl n ↦ absurd (none-ne-some (rw (k, n) at h))
      | inr (c, m) ↦ let r = rw (k, m) at h in (c, k, m, cc)
    ]
  ]

  socket_step-IsHeld :
      (e : NetEvent R) (code : ErrorCode) (s s' : Socket R)
      → socket_step e code s ≡ some s'
      → IsHeld s
      → IsHeld s'
  socket_step-IsHeld e code s s' h v =
      let (c, k, m, same) = socket_step-some e code s s' h in
      subst IsHeld same (record {
        within = rw (length-append s.lines (lines_at e code)) (
            parts-Within e s.conn.stage s.conn.buffer c s.shutting (length s.lines) code k m
              v.within);
        paced =
            Paced-append s.calls (calls_at e s.conn.stage) v.paced (calls_at-Paced e s.conn.stage);
      })

  socket_run-IsHeld :
      (es : List (NetEvent R × ErrorCode)) (s s' : Socket R)
      → socket_run es s ≡ some s'
      → IsHeld s
      → IsHeld s'
  unfolding socket_run
  socket_run-IsHeld [] s s' h v = let same : s ≡ s' = cc in subst IsHeld same v
  socket_run-IsHeld ((e, code) ∷ es) s s' h v = elim (Option-cases (socket_step e code s)) [
    | inl n ↦ absurd (none-ne-some (rw (n, socket_run) at h))
    | inr (s1, k) ↦
        socket_run-IsHeld es s1 s' (rw (k, socket_run) at h) (socket_step-IsHeld e code s s1 k v)
  ]

  Within-le : (st : Stage R) (n l : ℕ) → Within st n l → outstanding st n + l ≤ 2
  Within-le starting n l w = omega arith
  Within-le detecting n l w = omega arith
  Within-le handshaking n l w = omega arith
  Within-le (serving p s) n l (a, b, v, k) = omega (arith, v.one_read, v.one_write)
  Within-le released n l w = omega arith

  -- Whatever completes on a connection, from its acceptance on, as long as only outstanding operations
  -- complete: the operations that are outstanding and the lines that were logged are never more than
  -- two together; and each operation that waits for the client, but a write, is started behind a
  -- deadline of thirty seconds of its own.
  pub socket_run_bounds :
      (es : List (NetEvent R × ErrorCode)) (s : Socket R)
      → socket_run es fresh_socket ≡ some s
      → (outstanding s.conn.stage s.shutting + length s.lines ≤ 2) × Paced s.calls
  socket_run_bounds es s h =
      let v =
        socket_run-IsHeld es fresh_socket s h (record { within = (refl, refl); paced = tt }) in
      (Within-le s.conn.stage s.shutting (length s.lines) v.within, v.paced)
