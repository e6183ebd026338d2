-- ===== src/Examples/Clients.antt =====
-- The client of the WebSocket transport on small runs.
use procframe.Prelude.{
  ◌≡◌, ℕ, zero, suc, false, refl, String, none, some, true, List, [], ◌∷◌, arith, lookup,
}
use procframe.Errors.{err, sentinel, eof}
use procframe.Ws.Frame.{OutboundFrame, message_frame, close_frame}
use procframe.Ws.Run.{unary}
use procframe.Ws.Server.{Server, handle}
use procframe.Ws.Client.{
  Event, arrives, receive_response, StreamState, fresh_stream, stream_receive,
}
use procframe.Ws.Client.Receive.{Waits, IsKept, receive_response-Waits, stream_receive-ended}
use procframe.Ws.Client.Call.{
  call_unary, call_server_stream, call_client_stream, call_bidi, close_and_receive,
}
use procframe.Ws.Client.Call.Cleanup.{Owns, Gone, Kept, calls-Owns}
use procframe.Ws.Wire.{play}
use procframe.Ws.Wire.Reads.{Agrees, seen}
use procframe.Ws.Server.Steps.{start}
use procframe.Ws.Wire.Unary.{call_unary-seen}
use procframe.Ws.Run.{Scope, request_of}
use procframe.Ws.Client.Conn.{
  Conn, Channel, delivering, new_conn, new_session, remove_session, removes, opens, route, reads,
  reading, stopped, begins, next,
}
use procframe.Ws.Client.Conn.Invariant.{IsSound}
use procframe.Ws.Client.Conn.Reachable.{Reach-IsSound}
use procframe.Ws.Client.Conn.Blocked.{begun, goes, IsStuck, Abandoned-IsStuck}
use procframe.Ws.Client.Conn.Orphan.{IsOrphan, new_session-IsOrphan}
use procframe.Ws.Client.Conn.Orphan
use procframe.Examples.Handlers.{text_codec, text_scope, echo, idle, idle-IsTransparent}

-- A frame of another kind, a message, and the close behind it.
abbrev some_events : List Event
some_events =
    arrives (record { frame_type = "ping"; id = "s-1"; payload = ""; error = none })
    ∷ arrives (message_frame "s-1" "hello")
    ∷ arrives (close_frame "s-1")
    ∷ []

receive_response-Waits_example :
    Waits text_codec none some_events (receive_response text_codec none some_events)
receive_response-Waits_example = receive_response-Waits text_codec none some_events

abbrev ended_stream : StreamState
ended_stream = record fresh_stream { term_err = some (sentinel eof); removed = true }

fresh-IsKept : IsKept fresh_stream
fresh-IsKept e h = ground arith

stream-ends :
    stream_receive text_codec none fresh_stream (arrives (close_frame "s-1") ∷ [])
    ≡ some (err (sentinel eof), ended_stream, [])
unfolding stream_receive receive_response
stream-ends = refl

stream_receive-ended_example :
    (ended_stream.removed ≡ true)
    × (stream_receive text_codec none ended_stream some_events
        ≡ some (err (sentinel eof), ended_stream, some_events))
stream_receive-ended_example =
    stream_receive-ended text_codec none fresh_stream ended_stream
      (arrives (close_frame "s-1") ∷ []) [] some_events (sentinel eof) fresh-IsKept stream-ends

calls-Owns_example :
    Owns {Res = String} Gone none (call_unary text_codec "echo" (some "hello"))
    × Owns {Res = String} Kept none (call_server_stream text_codec "echo" (some "hello"))
    × Owns {Res = String} Kept none (call_client_stream text_codec "echo")
    × Owns {Res = String} Kept none (call_bidi text_codec "echo")
    × Owns {Res = String} Gone (some "s-1") (close_and_receive "s-1")
calls-Owns_example = calls-Owns String text_codec "echo" "s-1" (some "hello")

abbrev pub empty_server : Server
empty_server = record { handlers = []; error_mapper = none; max_inflight = 1 }

pub text-Agrees : Agrees text_codec text_codec (λ s. s)
text-Agrees = record { sends = refl; reads = refl; marshals = λ s. refl; unmarshals = λ s. refl }

abbrev pub idle_scope : Scope String String
idle_scope = record (text_scope "") { interceptors = idle }

call_unary-seen_example :
    play
      (handle empty_server idle_scope (unary echo))
      start
      text_codec
      "s-1"
      (call_unary text_codec "echo" (some "hello"))
      []
    ≡ some (seen none (echo (request_of (record idle_scope { id = "s-1" }) "hello")))
unfolding lookup
call_unary-seen_example =
    call_unary-seen empty_server start idle_scope echo text_codec text_codec (λ s. s) (λ s. s) "s-1"
      "hello" text-Agrees text-Agrees idle-IsTransparent refl refl

-- One session id is enough here.
abbrev short_ids : ℕ → String
short_ids n = "s-1"

abbrev busy : Conn
busy = route (message_frame "s-1" "hello") (new_session short_ids new_conn)

session-reading : (new_session short_ids new_conn).reader ≡ reading
unfolding new_session
session-reading = refl

Reach-IsSound_example : IsSound short_ids busy
Reach-IsSound_example = Reach-IsSound short_ids (next (next begins opens) (reads _ session-reading))

abbrev repeated : ℕ → List OutboundFrame
repeated zero = []
repeated (suc n) = message_frame "s-1" "hello" ∷ repeated n

-- The channel of the session 0 is full, and the read loop has one more frame for it.
abbrev full_channel : Channel
full_channel = record { buffer = repeated 64; closed = false }

abbrev jammed : Conn
jammed = record new_conn {
  heap = λ p. full_channel;
  next = 1;
  reader = delivering 0 (message_frame "s-1" "hello");
}

Abandoned-IsStuck_example :
    IsStuck short_ids 0 (message_frame "s-1" "hello") jammed (remove_session "s-1" jammed)
Abandoned-IsStuck_example =
    Abandoned-IsStuck short_ids 0 (message_frame "s-1" "hello") refl refl (omega arith)
      (goes begun (removes "s-1") tt)

abbrev torn : Conn
torn = record new_conn { sessions = none; reader = stopped; writing = false }

new_session-IsOrphan_example :
    IsOrphan short_ids 0 (remove_session "s-1" (new_session short_ids torn))
new_session-IsOrphan_example =
    new_session-IsOrphan short_ids torn refl refl (Orphan.goes Orphan.begun (removes "s-1"))
