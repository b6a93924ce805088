-- ===== src/Network/Answers.antt =====
-- What the theorems on one session say of the whole server.
use shadyurl.Common.{ℕ, ◌≤◌, ◌≡◌, refl, some, List, ◌++◌, Bytes, length, get_or}
use shadyurl.Session.{Session, started, run, writes}
use shadyurl.Session.Queue.{run-IsValid}
use shadyurl.Session.Order.{answered, behind, writes_in_order}
use shadyurl.Network.{
  Protocol, plain, ssl, serving, NetEvent, accepted, Listener, ServerEvent, listener, server_run,
}
use shadyurl.Network.Lifecycle.{IsServed, session_events, prelude}
use shadyurl.Network.Isolated.{events_of, server_run-IsServed}

module _ {R : Type 0} where
  session_events-prelude :
      (p : Protocol) (received : Bytes) (used : ℕ) (rest : List (NetEvent R))
      → session_events (prelude p received used ++ rest) ≡ session_events rest
  session_events-prelude plain received used rest = refl
  session_events-prelude ssl received used rest = refl

  IsServed-run :
      (es : List (NetEvent R)) (p : Protocol) (s : Session R) (b : Bytes)
      → IsServed es p s b
      → run (session_events es) started ≡ some s
  IsServed-run es p s b v = rw v.way (rw (session_events-prelude p v.received v.used v.rest) v.ran)

  -- However the events of the server interleave, each connection writes the answers to its own
  -- requests, each once and in the order of the requests, those still in its queue excepted, and
  -- never holds more than eight of them.
  pub server_run-answers :
      (es : List (ServerEvent R)) (l : Listener R) (i : ℕ) (p : Protocol) (s : Session R)
      → server_run es listener ≡ some l
      → (get_or l.connections i accepted).stage ≡ serving p s
      → (answered (session_events (events_of i es)) ≡ writes s.log ++ behind s.items)
        × (length s.items ≤ 8)
  server_run-answers es l i p s h st =
      let served = server_run-IsServed es l i p s h st in
      let own = session_events (events_of i es) in
      let ran = IsServed-run (events_of i es) p s (get_or l.connections i accepted).buffer served in
      (writes_in_order own s ran, (run-IsValid own s ran).bounded)
