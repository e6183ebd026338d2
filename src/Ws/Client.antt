-- ===== src/Ws/Client.antt =====
-- transport/ws/client_stream.go: what a client reads from the channel of one session, and the streams
-- that it gets. What a `select` yields, round after round, is a list of events; `none` is a wait that
-- no event of the list has ended.
pub mod Receive
pub mod Call
pub mod Conn
use procframe.Prelude.{
  String, Bool, true, false, Option, none, some, List, [], ◌∷◌, ◌==◌, if◌then◌else◌,
}
use procframe.Prelude.Text.{◌+++◌}
use procframe.Errors.{
  Error, StatusError, as_error, new_error, with_retryable, sentinel, eof, internal, unavailable,
  Result, ok, err, error_text,
}
use procframe.Ws.Frame.{
  InboundFrame, OutboundFrame, ErrorDetail, frame_open, frame_message, frame_close, frame_cancel,
}
use procframe.Ws.Session.{Codec, marshal_proto}

-- One round of the select: a frame from the channel, the channel closed and empty, or the context
-- ended with the error of `ctx.Err()`.
pub data Event : Type 0 where
  arrives : OutboundFrame → Event
  channel_closed : Event
  context_ended : Error → Event

-- `closeErr`, of the field `err`.
unfoldable pub close_err : Option Error → Error
close_err (some e) = e
close_err none = as_error (new_error unavailable "connection closed")

unfoldable pub to_status_error : ErrorDetail → StatusError
to_status_error ed =
    let e = new_error ed.code ed.message in if ed.retryable then with_retryable e else e

as_internal : {T : Type 0} → Result T → Result T
as_internal (ok msg) = ok msg
as_internal (err e) = err (as_error (new_error internal (error_text e)))

unfoldable pub unmarshal_response : {Res : Type 0} → Codec Res → String → Result Res
unfolding as_internal
unmarshal_response codec payload =
    if codec.is_message
    then as_internal (codec.unmarshal payload)
    else err (
        as_error (
          new_error internal
            ("response type " +++ codec.type_name +++ " does not implement proto.Message")))

module _ {Res : Type 0} (codec : Codec Res) (fatal : Option Error) where
  -- A frame of `receiveResponse`; `again` is the next round, at the events behind the frame.
  take_frame :
      OutboundFrame
      → List Event
      → Option (Result Res × List Event)
      → Option ErrorDetail
      → Option (Result Res × List Event)
  take_frame frame es again (some ed) = some (err (as_error (to_status_error ed)), es)
  take_frame frame es again none =
      if frame.frame_type == frame_close
      then some (err (sentinel eof), es)
      else if frame.frame_type == frame_message
      then some (unmarshal_response codec frame.payload, es)
      else again

  -- `receiveResponse`; `fatal` is the connection's `err` when the channel is found closed.
  unfoldable pub receive_response : List Event → Option (Result Res × List Event)
  unfolding take_frame
  receive_response [] = none
  receive_response (arrives frame ∷ es) =
      let again = receive_response es in take_frame frame es again frame.error
  receive_response (channel_closed ∷ es) = some (err (close_err fatal), es)
  receive_response (context_ended e ∷ es) = some (err e, es)

-- A `clientServerStream`: `termErr`, `closed`, and whether its session was removed and its context
-- cancelled. A `clientBidiStream` has no `closed`, which stays false.
pub record StreamState : Type 0 where
  pub term_err : Option Error
  pub removed : Bool
  pub cancelled : Bool
  pub closed : Bool

abbrev pub fresh_stream : StreamState
fresh_stream = record { term_err = none; removed = false; cancelled = false; closed = false }

module _ {Res : Type 0} (codec : Codec Res) (fatal : Option Error) where
  -- The end of `Receive`: an error is kept, and the session removed.
  keep_error : StreamState → Result Res × List Event → Result Res × StreamState × List Event
  keep_error s (ok msg, es) = (ok msg, s, es)
  keep_error s (err e, es) = (err e, record s { term_err = some e; removed = true }, es)

  received :
      StreamState
      → Option (Result Res × List Event)
      → Option (Result Res × StreamState × List Event)
  unfolding keep_error
  received s none = none
  received s (some r) = some (keep_error s r)

  receive_unless :
      StreamState → List Event → Option Error → Option (Result Res × StreamState × List Event)
  unfolding received
  receive_unless s es (some e) = some (err e, s, es)
  receive_unless s es none = received s (receive_response codec fatal es)

  -- `Receive` of `clientServerStream` and of `clientBidiStream`.
  unfoldable pub stream_receive :
      StreamState → List Event → Option (Result Res × StreamState × List Event)
  unfolding receive_unless
  stream_receive s es = receive_unless s es s.term_err

-- `Close` of `clientServerStream`: the new state, and whether a cancel frame is sent.
unfoldable pub stream_close : StreamState → StreamState × Bool
stream_close s =
    let t = record s { removed = true; cancelled = true } in
    if s.closed then (t, false) else (record t { closed = true }, true)
