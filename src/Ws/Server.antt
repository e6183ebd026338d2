-- ===== src/Ws/Server.antt =====
-- transport/ws/server.go: the state of one connection and the handlers of the inbound frames. The
-- reader (`readLoop`) is one goroutine; it releases the lock between a look at the session map and
-- what it does with the result, and those places are states of `Reader`, so that the steps of other
-- goroutines can come between.
pub mod Steps
pub mod Invariant
pub mod Reachable
pub mod Open
pub mod Routed
pub mod Closed
pub mod Sequence
use procframe.Prelude.{
  ℕ, zero, suc, ◌+◌, ◌-◌, ◌≡◌, String, Bool, true, false, not, ◌&&◌, Option, none, some, List, [],
  ◌∷◌, ◌++◌, ◌==◌, if◌then◌else◌, ltb, eqb, length, lookup, insert, delete,
}
use procframe.Prelude.Text.{◌+++◌}
use procframe.Errors.{
  Error, ErrorMapper, as_error, new_error, not_found, invalid_argument, unavailable, already_exists,
}
use procframe.Calls.{Calls, done, call}
use procframe.Ws.Frame.{
  InboundFrame, OutboundFrame, ErrorDetail, error_frame, to_error_frame, frame_open, frame_message,
  frame_close, frame_cancel,
}
use procframe.Ws.Session.{SessionCode}
use procframe.Ws.Run.{Scope, Handler, shape_of, run}

-- `recvChBufSize`.
abbrev pub recv_ch_buf_size : ℕ
recv_ch_buf_size = 64

-- `handlerEntry`; the id of the session is the argument of `run`.
pub record HandlerEntry : Type 0 where
  pub shape : String
  pub run : String → SessionCode (Unit {0})

-- `Server`, with `maxInflight` and `errorMapper` of its options. The interceptors are captured by
-- the entries.
pub record Server : Type 0 where
  pub handlers : List (String × HandlerEntry)
  pub error_mapper : Option ErrorMapper
  pub max_inflight : ℕ

-- `HandleUnary`, `HandleServerStream`, `HandleClientStream` and `HandleBidi`.
unfoldable pub handle : {Req Res : Type 0} → Server → Scope Req Res → Handler Req Res → Server
handle server scope h = record server {
  handlers =
      insert scope.procedure
        (record { shape = shape_of h; run = λ id. run (record scope { id = id }) h })
        server.handlers;
}

-- `sessionInfo`: whether its context is cancelled, its `closed` flag, and its `recvCh`, which holds
-- `buffer` and may be closed.
pub record SessionInfo : Type 0 where
  pub cancelled : Bool
  pub closed : Bool
  pub buffer : List String
  pub chan_closed : Bool

-- A goroutine that `startSession` has started: the code that it has left to run, and whether its
-- deferred function has deleted the session already and is about to release the semaphore.
pub record Goroutine : Type 0 where
  pub id : String
  pub session : ℕ
  pub code : SessionCode (Unit {0})
  pub deleted : Bool

-- Where the reader stands: at `conn.Read`, in `startSession` with a semaphore slot in hand, in
-- `handleMessage` or `handleClose` with the lock released, or past the loop.
pub data Reader : Type 0 where
  reading stopped : Reader
  opening : InboundFrame → HandlerEntry → Reader
  delivering : ℕ → String → Reader
  closing : ℕ → Reader

-- One connection. A `*sessionInfo` is a number, with what it points to in `heap`; `next` is the
-- next one to be allocated. `sem` counts the values in the channel of that name. `written` is what
-- was handed to `writeFn`, in order.
pub record Connection : Type 0 where
  pub sem : ℕ
  pub sessions : List (String × ℕ)
  pub heap : ℕ → SessionInfo
  pub next : ℕ
  pub goroutines : List Goroutine
  pub reader : Reader
  pub written : List OutboundFrame
  pub panicked : Bool

abbrev pub update : (ℕ → SessionInfo) → ℕ → SessionInfo → ℕ → SessionInfo
update heap p info q = if eqb q p then info else heap q

abbrev pub new_session : SessionInfo
new_session = record { cancelled = false; closed = false; buffer = []; chan_closed = false }

unfoldable pub write_frame : OutboundFrame → Connection → Connection
write_frame f s = record s { written = s.written ++ f ∷ [] }

abbrev pub rejection : String → String → String → Bool → OutboundFrame
rejection id code message retryable =
    error_frame id (record { code = code; message = message; retryable = retryable })

-- `handleOpen` up to the call of `startSession`.
acquire : Server → InboundFrame → Connection → Option HandlerEntry → Connection
acquire server frame s none =
    write_frame (rejection frame.id not_found ("unknown procedure: " +++ frame.procedure) false) s
acquire server frame s (some entry) =
    if not (frame.shape == entry.shape)
    then write_frame
        (rejection frame.id invalid_argument
          ("shape mismatch: want " +++ entry.shape +++ ", got " +++ frame.shape) false)
        s
    else if ltb s.sem server.max_inflight
    then record s { sem = s.sem + 1; reader = opening frame entry }
    else write_frame (rejection frame.id unavailable "max inflight exceeded" true) s

unfoldable pub begin_open : Server → InboundFrame → Connection → Connection
unfolding acquire write_frame
begin_open server frame s = acquire server frame s (lookup frame.procedure server.handlers)

-- `startSession`, and the error frame that `handleOpen` writes for its error.
start_fresh : Server → InboundFrame → HandlerEntry → Connection → Option ℕ → Connection
start_fresh server frame entry s (some dup) =
    write_frame
      (to_error_frame frame.id
        (as_error (new_error already_exists ("duplicate session id: " +++ frame.id)))
        server.error_mapper)
      (record s { sem = s.sem - 1; reader = reading })
start_fresh server frame entry s none = record s {
  sessions = insert frame.id s.next s.sessions;
  heap = update s.heap s.next new_session;
  next = s.next + 1;
  goroutines =
      s.goroutines
      ++ record { id = frame.id; session = s.next; code = entry.run frame.id; deleted = false }
        ∷ [];
  reader = reading;
}

unfoldable pub start_session : Server → InboundFrame → HandlerEntry → Connection → Connection
unfolding start_fresh write_frame
start_session server frame entry s = start_fresh server frame entry s (lookup frame.id s.sessions)

-- `handleMessage` under the lock.
find_receiver : InboundFrame → Connection → Option ℕ → Connection
find_receiver frame s none =
    write_frame (rejection frame.id not_found ("session not found: " +++ frame.id) false) s
find_receiver frame s (some p) =
    if (s.heap p).closed then s else record s { reader = delivering p frame.payload }

unfoldable pub begin_message : InboundFrame → Connection → Connection
unfolding find_receiver write_frame
begin_message frame s = find_receiver frame s (lookup frame.id s.sessions)

-- `select { case sess.recvCh <- frame.Payload: default: }`. A send on a closed channel panics.
unfoldable pub deliver : ℕ → String → Connection → Connection
deliver p payload s =
    if (s.heap p).chan_closed
    then record s { panicked = true }
    else if ltb (length (s.heap p).buffer) recv_ch_buf_size
    then record s {
      heap = update s.heap p (record (s.heap p) { buffer = (s.heap p).buffer ++ payload ∷ [] });
      reader = reading;
    }
    else record s { reader = reading }

-- `handleClose` under the lock.
mark_closed : Connection → Option ℕ → Connection
mark_closed s none = s
mark_closed s (some p) = record s {
  heap = update s.heap p (record (s.heap p) { closed = true });
  reader = closing p;
}

unfoldable pub begin_close : InboundFrame → Connection → Connection
unfolding mark_closed
begin_close frame s = mark_closed s (lookup frame.id s.sessions)

-- `safeCloseRecvCh`: closing a closed channel panics, and the panic is recovered.
abbrev pub close_channel : ℕ → (ℕ → SessionInfo) → ℕ → SessionInfo
close_channel p heap = update heap p (record (heap p) { chan_closed = true })

unfoldable pub finish_close : ℕ → Connection → Connection
finish_close p s = record s { heap = close_channel p s.heap; reader = reading }

-- `handleCancel`, and `sess.cancel()`.
abbrev pub cancel_session : ℕ → (ℕ → SessionInfo) → ℕ → SessionInfo
cancel_session p heap = update heap p (record (heap p) { cancelled = true })

cancel_found : Connection → Option ℕ → Connection
cancel_found s none = s
cancel_found s (some p) = record s { heap = cancel_session p s.heap }

unfoldable pub handle_cancel : InboundFrame → Connection → Connection
unfolding cancel_found
handle_cancel frame s = cancel_found s (lookup frame.id s.sessions)

-- The `switch` of `readLoop` on a frame that was decoded; another type is ignored.
unfoldable pub dispatch : Server → InboundFrame → Connection → Connection
dispatch server frame s =
    if frame.frame_type == frame_open
    then begin_open server frame s
    else if frame.frame_type == frame_message
    then begin_message frame s
    else if frame.frame_type == frame_close
    then begin_close frame s
    else if frame.frame_type == frame_cancel
    then handle_cancel frame s
    else s

-- What the reader does next where it stands inside a handler.
go_on_at : Server → Connection → Reader → Connection
go_on_at server s reading = s
go_on_at server s stopped = s
go_on_at server s (opening frame entry) = start_session server frame entry s
go_on_at server s (delivering p payload) = deliver p payload s
go_on_at server s (closing p) = finish_close p s

unfoldable pub go_on : Server → Connection → Connection
unfolding go_on_at
go_on server s = go_on_at server s s.reader

-- One frame with nothing between the parts of its handler: `handleOpen`, `handleMessage`,
-- `handleClose` or `handleCancel` as a whole.
unfoldable pub handle_frame : Server → InboundFrame → Connection → Connection
handle_frame server frame s = go_on server (dispatch server frame s)

-- The loop of `closeAllSessions`, over the entries of the session map.
unfoldable pub close_all_from : List (String × ℕ) → (ℕ → SessionInfo) → ℕ → SessionInfo
close_all_from [] heap = heap
close_all_from ((id, p) ∷ rest) heap = close_all_from rest (close_channel p (cancel_session p heap))

-- The end of `readLoop` (a failed read) and `closeAllSessions`.
unfoldable pub close_all_sessions : Connection → Connection
close_all_sessions s = record s { heap = close_all_from s.sessions s.heap; reader = stopped }
