-- ===== src/Ws/Client/Call.antt =====
-- transport/ws/call.go and the calls of client_stream.go that send: what they do on a `Conn`, as trees
-- of the `Conn`'s methods.
pub mod Cleanup
use procframe.Prelude.{String, Bool, Option, none, some, if◌then◌else◌}
use procframe.Errors.{Error, Result, ok, err}
use procframe.Calls.{Calls, done, call, ◌>>=◌}
use procframe.Interceptor.Message.{
  shape_unary, shape_server_stream, shape_client_stream, shape_bidi,
}
use procframe.Ws.Frame.{InboundFrame, frame_open, frame_message, frame_close, frame_cancel}
use procframe.Ws.Session.{Codec, marshal_proto}

-- `receive` is `receiveResponse` on the session's channel, and `context_ended` is `ctx.Err() != nil`.
pub data ConnCall (Res : Type 0) : Type 0 where
  new_session : ConnCall Res
  remove_session : String → ConnCall Res
  send : InboundFrame → ConnCall Res
  receive context_ended : ConnCall Res

abbrev pub ConnReply : (Res : Type 0) → ConnCall Res → Type 0
ConnReply Res new_session = String
ConnReply Res (remove_session id) = Unit
ConnReply Res (send f) = Option Error
ConnReply Res receive = Result Res
ConnReply Res context_ended = Bool

abbrev pub ConnCode : Type 0 → Type 0 → Type 0
ConnCode Res A = Calls (ConnCall Res) (ConnReply Res) A

-- The frames of `sendOpen`, `sendMessage`, `sendClose` and `sendCancel`.
abbrev pub open_request : String → String → String → InboundFrame
open_request id procedure shape = record {
  frame_type = frame_open;
  id = id;
  procedure = procedure;
  shape = shape;
  payload = "";
}

abbrev pub message_request : String → String → InboundFrame
message_request id payload = record {
  frame_type = frame_message;
  id = id;
  procedure = "";
  shape = "";
  payload = payload;
}

abbrev pub bare_request : String → String → InboundFrame
bare_request frame_type id = record {
  frame_type = frame_type;
  id = id;
  procedure = "";
  shape = "";
  payload = "";
}

module _ {Res : Type 0} where
  -- `if err := send(...); err != nil { return err }`.
  unfoldable pub unless_error :
      ConnCode Res (Option Error) → Option Error → ConnCode Res (Option Error)
  unless_error next (some e) = done (some e)
  unless_error next none = next

  unfoldable pub marshalled :
      (String → ConnCode Res (Option Error)) → Result String → ConnCode Res (Option Error)
  marshalled next (err e) = done (some e)
  marshalled next (ok data_text) = next data_text

  -- `defer c.removeSession(id)`.
  abbrev pub removing : {A : Type 0} → String → A → ConnCode Res A
  removing id a = call (remove_session id) λ u. done a

  module _ {Req : Type 0} (codec : Codec Req) where
    unfoldable pub send_request :
        String → String → String → Option Req → ConnCode Res (Option Error)
    unfolding unless_error marshalled
    send_request id procedure shape req = call (send (open_request id procedure shape)) (
        unless_error (
          marshalled
            (λ payload.
              call (send (message_request id payload))
                (unless_error (call (send (bare_request frame_close id)) done)))
            (marshal_proto codec req)))

    -- `Send` of `clientClientStream` and of `clientBidiStream`.
    unfoldable pub stream_send : String → Option Req → ConnCode Res (Option Error)
    unfolding marshalled
    stream_send id msg =
        marshalled (λ payload. call (send (message_request id payload)) done)
          (marshal_proto codec msg)

  -- `CallUnary` behind `receiveResponse`, and behind `sendRequest`.
  unfoldable pub finish_unary : String → Result Res → ConnCode Res (Result Res)
  finish_unary id (ok msg) = removing id (ok msg)
  finish_unary id (err e) = call context_ended λ ended.
      if ended
      then call (send (bare_request frame_cancel id)) (λ ignored. removing id (err e))
      else removing id (err e)

  unfoldable pub after_request : String → Option Error → ConnCode Res (Result Res)
  unfolding finish_unary
  after_request id (some e) = removing id (err e)
  after_request id none = call receive (finish_unary id)

  -- What the functions that open a stream return: the session's id, for the stream, or an error.
  opened : String → Option Error → ConnCode Res (Result String)
  opened id (some e) = removing id (err e)
  opened id none = done (ok id)

  module _ {Req : Type 0} (codec : Codec Req) where
    unfoldable pub call_unary : String → Option Req → ConnCode Res (Result Res)
    unfolding after_request
    call_unary procedure req =
        call new_session λ id. send_request codec id procedure shape_unary req >>= after_request id

    unfoldable pub call_server_stream : String → Option Req → ConnCode Res (Result String)
    unfolding opened
    call_server_stream procedure req =
        call new_session λ id. send_request codec id procedure shape_server_stream req >>= opened id

    unfoldable pub call_client_stream : String → ConnCode Res (Result String)
    unfolding opened
    call_client_stream procedure =
        call new_session
          λ id. call (send (open_request id procedure shape_client_stream)) (opened id)

    unfoldable pub call_bidi : String → ConnCode Res (Result String)
    unfolding opened
    call_bidi procedure =
        call new_session λ id. call (send (open_request id procedure shape_bidi)) (opened id)

  closed_send : String → Option Error → ConnCode Res (Result Res)
  closed_send id (some e) = removing id (err e)
  closed_send id none = call receive (removing id)

  -- `CloseAndReceive` of a `clientClientStream`; its `cleanup` runs once.
  unfoldable pub close_and_receive : String → ConnCode Res (Result Res)
  unfolding closed_send
  close_and_receive id = call (send (bare_request frame_close id)) (closed_send id)

  -- `CloseSend` of a `clientBidiStream`.
  unfoldable pub close_send : String → ConnCode Res (Option Error)
  close_send id = call (send (bare_request frame_close id)) done
