-- ===== src/Network/Lifecycle.antt =====
-- The life of a connection: the way to its session, and what the session is given.
use shadyurl.Common.{ℕ, ◌≡◌, refl, true, false, some, List, [], ◌∷◌, ◌++◌, Bytes, drop, arith}
use shadyurl.Session.{Session, Event, step, started, run}
use shadyurl.Network.{
  Protocol, plain, ssl, detecting, handshaking, serving, released, Connection, NetEvent, on_run,
  on_detect, on_handshake, in_session, on_shutdown, accepted, detected, shaken, session_step,
  shutdown_step, conn_step, conn_run,
}

-- What the session has in its buffer at its first read.
abbrev pub unread : Protocol → Bytes → ℕ → Bytes
unread plain received used = received
unread ssl received used = drop used received

module _ {R : Type 0} where
  -- The events of the session among those of the connection.
  abbrev pub session_events : List (NetEvent R) → List (Event R)
  session_events [] = []
  session_events (in_session e ∷ es) = e ∷ session_events es
  session_events (on_run ∷ es) = session_events es
  session_events (on_detect ec received result ∷ es) = session_events es
  session_events (on_handshake ec bytes_used ∷ es) = session_events es
  session_events (on_shutdown ec ∷ es) = session_events es

  -- What comes before the session starts.
  abbrev pub prelude : Protocol → Bytes → ℕ → List (NetEvent R)
  prelude plain received used = on_run ∷ on_detect false received false ∷ []
  prelude ssl received used = on_run ∷ on_detect false received true ∷ on_handshake false used ∷ []

  released_run :
      (es : List (NetEvent R)) (b : Bytes) (c : Connection R)
      → conn_run es (record { stage = released; buffer = b }) ≡ some c
      → c.stage ≡ released
  unfolding conn_run conn_step
  released_run [] b c h = ground arith
  released_run (on_run ∷ es) b c h = cc
  released_run (on_detect ec received result ∷ es) b c h = cc
  released_run (on_handshake ec used ∷ es) b c h = cc
  released_run (in_session e ∷ es) b c h = cc
  released_run (on_shutdown ec ∷ es) b c h = cc

  pub serving_run :
      (es : List (NetEvent R)) (p q : Protocol) (s s' : Session R) (b : Bytes) (c : Connection R)
      → conn_run es (record { stage = serving p s; buffer = b }) ≡ some c
      → c.stage ≡ serving q s'
      → (q ≡ p) × (run (session_events es) s ≡ some s') × (c.buffer ≡ b)
  unfolding conn_run conn_step session_step shutdown_step run
  serving_run [] p q s s' b c h st = ground arith
  serving_run (in_session e ∷ es) p q s s' b c h st =
      ground (arith, serving_run es p q (step e s) s' b c)
  serving_run (on_shutdown ec ∷ es) plain q s s' b c h st = cc
  serving_run (on_shutdown ec ∷ es) ssl q s s' b c h st =
      ground (arith, serving_run es ssl q s s' b c)
  serving_run (on_run ∷ es) p q s s' b c h st = cc
  serving_run (on_detect ec received result ∷ es) p q s s' b c h st = cc
  serving_run (on_handshake ec used ∷ es) p q s s' b c h st = cc

  -- The way that the events took to a session in the state `s` over the protocol `p`.
  pub record IsServed (es : List (NetEvent R)) (p : Protocol) (s : Session R) (b : Bytes)
      : Type 0 where
    pub received : Bytes
    pub used : ℕ
    pub rest : List (NetEvent R)
    pub way : es ≡ prelude p received used ++ rest
    pub kept : b ≡ unread p received used
    pub ran : run (session_events rest) started ≡ some s

  handshaking_run :
      (es : List (NetEvent R)) (p : Protocol) (s : Session R) (b : Bytes) (c : Connection R)
      → conn_run es (record { stage = handshaking; buffer = b }) ≡ some c
      → c.stage ≡ serving p s
      → IsServed (on_run ∷ on_detect false b true ∷ es) p s c.buffer
  unfolding conn_run conn_step shaken
  handshaking_run [] p s b c h st = absurd cc
  handshaking_run (on_run ∷ es) p s b c h st = absurd cc
  handshaking_run (on_detect ec received result ∷ es) p s b c h st = absurd cc
  handshaking_run (in_session e ∷ es) p s b c h st = absurd cc
  handshaking_run (on_shutdown ec ∷ es) p s b c h st = absurd cc
  handshaking_run (on_handshake true u ∷ es) p s b c h st =
      absurd (ground (arith, released_run es b c h))
  handshaking_run (on_handshake false u ∷ es) p s b c h st =
      let (e, r, k) = serving_run es ssl p started s (drop u b) c h st in
      rw e (record { received = b; used = u; rest = es; way = refl; kept = k; ran = r })

  detecting_run :
      (es : List (NetEvent R)) (p : Protocol) (s : Session R) (c : Connection R)
      → conn_run es (record { stage = detecting; buffer = [] }) ≡ some c
      → c.stage ≡ serving p s
      → IsServed (on_run ∷ es) p s c.buffer
  unfolding conn_run conn_step detected
  detecting_run [] p s c h st = absurd cc
  detecting_run (on_run ∷ es) p s c h st = absurd cc
  detecting_run (on_handshake ec u ∷ es) p s c h st = absurd cc
  detecting_run (in_session e ∷ es) p s c h st = absurd cc
  detecting_run (on_shutdown ec ∷ es) p s c h st = absurd cc
  detecting_run (on_detect true received result ∷ es) p s c h st =
      absurd (ground (arith, released_run es received c h))
  detecting_run (on_detect false received true ∷ es) p s c h st =
      handshaking_run es p s received c h st
  detecting_run (on_detect false received false ∷ es) p s c h st =
      let (e, r, k) = serving_run es plain p started s received c h st in
      rw e (record { received = received; used = 0; rest = es; way = refl; kept = k; ran = r })

  -- A connection serves a session only after the detection, and over SSL only after the handshake,
  -- without an error in either. The session then holds what the detection read, less what the
  -- handshake used, and its state is that of an `http_session` after the session's events alone.
  pub conn_run-IsServed :
      (es : List (NetEvent R)) (p : Protocol) (s : Session R) (c : Connection R)
      → conn_run es accepted ≡ some c
      → c.stage ≡ serving p s
      → IsServed es p s c.buffer
  unfolding conn_run conn_step
  conn_run-IsServed [] p s c h st = absurd cc
  conn_run-IsServed (on_run ∷ es) p s c h st = detecting_run es p s c h st
  conn_run-IsServed (on_detect ec received result ∷ es) p s c h st = absurd cc
  conn_run-IsServed (on_handshake ec u ∷ es) p s c h st = absurd cc
  conn_run-IsServed (in_session e ∷ es) p s c h st = absurd cc
  conn_run-IsServed (on_shutdown ec ∷ es) p s c h st = absurd cc
