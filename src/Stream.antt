-- ===== src/Stream.antt =====
-- The stream of a connection in src/session.cpp and include/session.hpp: the calls that the handlers
-- make on it, the operations that are outstanding, which keep its object alive, and what is logged.
pub mod Paced
pub mod Held
pub mod Freed
use shadyurl.Common.{
  ℕ, zero, suc, ◌+◌, ◌-◌, Bool, true, false, Option, none, some, List, [], ◌∷◌, ◌++◌, codes, ◌==◌,
  if◌then◌else◌, length, drop,
}
use shadyurl.Log.{ErrorCode, Entry, fail}
use shadyurl.Session.{
  Action, write, read, eof, Session, Event, on_request, on_end_of_stream, on_read_error, on_written,
  on_write_error, step, logged, started,
}
use shadyurl.Session.Queue.{one, is_some}
use shadyurl.Network.{
  Protocol, plain, ssl, Stage, starting, detecting, handshaking, serving, released, Connection,
  NetEvent, on_run, on_detect, on_handshake, in_session, on_shutdown, accepted, conn_step,
}

-- A call on the stream; `shutdown_send` is that of the socket.
pub data StreamCall (R : Type 0) : Type 0 where
  expires_after : ℕ → StreamCall R
  async_detect_ssl : StreamCall R
  async_handshake : StreamCall R
  async_read : StreamCall R
  async_write : R → StreamCall R
  async_shutdown : StreamCall R
  shutdown_send : StreamCall R

-- The seconds of each `expires_after`.
abbrev pub timeout : ℕ
timeout = 30

module _ {R : Type 0} where
  -- `do_read`, the write of a response, and the `do_eof` of the protocol.
  abbrev pub calls_of : Protocol → Action R → List (StreamCall R)
  calls_of p read = expires_after timeout ∷ async_read ∷ []
  calls_of p (write r) = async_write r ∷ []
  calls_of plain eof = shutdown_send ∷ []
  calls_of ssl eof = expires_after timeout ∷ async_shutdown ∷ []

  abbrev pub all_calls : Protocol → List (Action R) → List (StreamCall R)
  all_calls p [] = []
  all_calls p (a ∷ log) = calls_of p a ++ all_calls p log

  -- How many shutdowns of SSL are started.
  abbrev pub shutdowns : Protocol → List (Action R) → ℕ
  shutdowns plain log = 0
  shutdowns ssl [] = 0
  shutdowns ssl (write r ∷ log) = shutdowns ssl log
  shutdowns ssl (read ∷ log) = shutdowns ssl log
  shutdowns ssl (eof ∷ log) = suc (shutdowns ssl log)

  -- What the handler of a completion asks of the network.
  abbrev pub actions : Event R → Session R → List (Action R)
  actions e s = drop (length s.log) (step e s).log

  -- `detect_session::on_run`, `on_detect`, `ssl_http_session::run`, `on_handshake`, and the handlers of
  -- a session.
  unfoldable pub calls_at : NetEvent R → Stage R → List (StreamCall R)
  calls_at on_run st = expires_after timeout ∷ async_detect_ssl ∷ []
  calls_at (on_detect true received result) st = []
  calls_at (on_detect false received true) st = expires_after timeout ∷ async_handshake ∷ []
  calls_at (on_detect false received false) st = calls_of plain read
  calls_at (on_handshake true used) st = []
  calls_at (on_handshake false used) st = calls_of ssl read
  calls_at (in_session e) (serving p s) = all_calls p (actions e s)
  calls_at (in_session e) st = []
  calls_at (on_shutdown ec) st = []

  -- What the handler of a completion logs.
  unfoldable pub lines_at : NetEvent R → ErrorCode → List Entry
  lines_at on_run code = []
  lines_at (on_detect ec received result) code = if ec then fail code (codes "detect") else []
  lines_at (on_handshake ec used) code = if ec then fail code (codes "handshake") else []
  lines_at (in_session e) code = logged e code
  lines_at (on_shutdown ec) code = if ec then fail code (codes "shutdown") else []

  -- The shutdowns of SSL behind an event, of which `n` are outstanding before it.
  unfoldable pub shutting_at : NetEvent R → Stage R → ℕ → ℕ
  shutting_at (in_session e) (serving p s) n = n + shutdowns p (actions e s)
  shutting_at (on_shutdown ec) st n = n - 1
  shutting_at e st n = n

-- A connection with its stream: the calls so far, the shutdowns that are outstanding, and the lines
-- that were logged.
pub record Socket (R : Type 0) : Type 0 where
  pub conn : Connection R
  pub calls : List (StreamCall R)
  pub shutting : ℕ
  pub lines : List Entry

module _ {R : Type 0} where
  abbrev pub fresh_socket : Socket R
  fresh_socket = record { conn = accepted; calls = []; shutting = 0; lines = [] }

  -- Whether the event is the end of a shutdown when none is outstanding.
  abbrev pub is_stray : NetEvent R → ℕ → Bool
  is_stray (on_shutdown ec) n = n == 0
  is_stray on_run n = false
  is_stray (on_detect ec received result) n = false
  is_stray (on_handshake ec used) n = false
  is_stray (in_session e) n = false

  -- The handler of a completion, with its error code.
  unfoldable pub socket_step : NetEvent R → ErrorCode → Socket R → Option (Socket R)
  unfolding conn_step calls_at lines_at shutting_at
  socket_step e code s =
      if is_stray e s.shutting then none else elim (conn_step e s.conn.stage s.conn.buffer) [
        | none ↦ none
        | some c ↦ some (record {
          conn = c;
          calls = s.calls ++ calls_at e s.conn.stage;
          shutting = shutting_at e s.conn.stage s.shutting;
          lines = s.lines ++ lines_at e code;
        })
      ]

  unfoldable pub socket_run : List (NetEvent R × ErrorCode) → Socket R → Option (Socket R)
  unfolding socket_step
  socket_run [] s = some s
  socket_run ((e, code) ∷ es) s = elim (socket_step e code s) [
    | none ↦ none
    | some s' ↦ socket_run es s'
  ]

  -- The operations that wait. Each holds the object that the stream belongs to: where there is none,
  -- the object is destroyed and the socket closed.
  abbrev pub outstanding : Stage R → ℕ → ℕ
  outstanding starting n = 1
  outstanding detecting n = 1
  outstanding handshaking n = 1
  outstanding (serving p s) n = one s.reading + one (is_some s.writing) + n
  outstanding released n = 0
