-- ===== src/Session.antt =====
-- include/session.hpp: one connection. `http_session` and its queue of pipelined responses, driven by
-- the completions of the asynchronous operations that it starts.
pub mod Queue
pub mod Order
pub mod Ends
pub mod Closed
use shadyurl.Log.{ErrorCode, Entry, fail}
use shadyurl.Common.{
  ℕ, suc, ◌+◌, Bool, true, false, Option, none, some, List, [], ◌∷◌, ◌++◌, codes, ◌==◌, leb,
  if◌then◌else◌, length,
}

-- `limit`
abbrev pub limit : ℕ
limit = 8

-- What a session asks of the network.
pub data Action (R : Type 0) : Type 0 where
  -- `http::async_write` of a response
  write : R → Action R
  -- `http::async_read`
  read : Action R
  -- `do_eof`
  eof : Action R

-- The session: the responses in the queue, the first of which is being written, and the operations
-- whose completion has not come.
pub record Session (R : Type 0) : Type 0 where
  pub items : List R
  pub reading : Bool
  pub writing : Option R
  pub log : List (Action R)

-- A completion: a request that was read, answered by `response`; the end of the stream or an error
-- of a read; the completion of a write, with `close` as `need_eof()` of the message, or its error.
pub data Event (R : Type 0) : Type 0 where
  on_request : R → Event R
  on_end_of_stream : Event R
  on_read_error : Event R
  on_written : Bool → Event R
  on_write_error : Event R

module _ {R : Type 0} where
  abbrev pub is_full : List R → Bool
  is_full items = leb limit (length items)

  -- `async_write` of the first item.
  abbrev pub start_write : R → Session R → Session R
  start_write r s = record s { writing = some r; log = s.log ++ write r ∷ [] }

  abbrev pub do_read : Session R → Session R
  do_read s = record s { reading = true; log = s.log ++ read ∷ [] }

  abbrev pub do_eof : Session R → Session R
  do_eof s = record s { log = s.log ++ eof ∷ [] }

  -- `(*items_.front())()`, if there is one.
  abbrev start_front : List R → Session R → Session R
  start_front [] s = s
  start_front (r ∷ _) s = start_write r s

  -- `queue::operator()`: the response is stored, and written if there was none before it.
  unfoldable pub enqueue : R → Session R → Session R
  enqueue r s =
      let s' = record s { items = s.items ++ r ∷ [] } in
      if length s'.items == 1 then start_write r s' else s'

  -- `queue::on_write`, without its result: the first item goes, and the next one is written.
  abbrev pop_front : List R → Session R → Session R
  pop_front [] s = s
  pop_front (_ ∷ items) s = start_front items (record s { items = items })

  unfoldable pub queue_on_write : Session R → Session R
  queue_on_write s = pop_front s.items s

  -- `on_read`, where the handler sends one response.
  unfoldable pub on_read : R → Session R → Session R
  unfolding enqueue
  on_read r s =
      let s' = enqueue r (record s { reading = false }) in
      if is_full s'.items then s' else do_read s'

  -- What the handler of a completion with an error logs.
  abbrev pub logged : Event R → ErrorCode → List Entry
  logged on_read_error ec = fail ec (codes "read")
  logged on_write_error ec = fail ec (codes "write")
  logged (on_request r) ec = []
  logged on_end_of_stream ec = []
  logged (on_written close) ec = []

  -- `on_write`
  unfoldable pub on_write : Bool → Session R → Session R
  unfolding queue_on_write
  on_write close s =
      let s' = record s { writing = none } in
      let ended = do_eof s' in
      let next = queue_on_write s' in
      if close then ended else (if is_full s'.items then do_read next else next)

  unfoldable pub step : Event R → Session R → Session R
  unfolding on_read on_write
  step (on_request r) s = on_read r s
  step on_end_of_stream s = do_eof (record s { reading = false })
  step on_read_error s = record s { reading = false }
  step (on_written close) s = on_write close s
  step on_write_error s = record s { writing = none }

  -- The session as `run` leaves it: one read is started.
  abbrev pub started : Session R
  started = record { items = []; reading = true; writing = none; log = read ∷ [] }

  -- Only what is outstanding completes.
  abbrev pub possible : Event R → Session R → Bool
  possible (on_request r) s = s.reading
  possible on_end_of_stream s = s.reading
  possible on_read_error s = s.reading
  possible (on_written close) s = elim s.writing [ none ↦ false | some _ ↦ true ]
  possible on_write_error s = elim s.writing [ none ↦ false | some _ ↦ true ]

  -- The events in order, each one the completion of an operation that is outstanding.
  unfoldable pub run : List (Event R) → Session R → Option (Session R)
  run [] s = some s
  run (e ∷ events) s = let later = run events (step e s) in if possible e s then later else none

  -- What the log says that was written, and how many reads were started.
  abbrev pub writes : List (Action R) → List R
  writes [] = []
  writes (write r ∷ log) = r ∷ writes log
  writes (read ∷ log) = writes log
  writes (eof ∷ log) = writes log

  abbrev pub reads : List (Action R) → ℕ
  reads [] = 0
  reads (write r ∷ log) = reads log
  reads (read ∷ log) = suc (reads log)
  reads (eof ∷ log) = reads log
