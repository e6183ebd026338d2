-- ===== src/Ws/Run.antt =====
-- transport/ws/server.go: the code that `HandleUnary`, `HandleServerStream`, `HandleClientStream` and
-- `HandleBidi` register for a procedure, and stream.go's streams.
pub mod Frames
pub mod Ends
use procframe.Prelude.{String, Bool, true, false, Option, none, some, List, [], ◌∷◌, if◌then◌else◌}
use procframe.Errors.{
  Error, ErrorMapper, Result, ok, err, Returned, as_error, new_error, invalid_argument, internal,
  error_text,
}
use procframe.Calls.{Calls, done, call, ◌>>=◌, translate}
use procframe.Interceptor.Message.{
  Request, Response, CallSpec, Meta, transport_ws, shape_unary, shape_server_stream,
  shape_client_stream, shape_bidi,
}
use procframe.Interceptor.Conns.{
  ServerCall, ServerReply, ClientCall, ClientReply, BidiCall, BidiReply, NoReply, HandlerFunc,
  receive, send,
}
use procframe.Interceptor.Chain.{Interceptors}
use procframe.Interceptor.Invoke.{
  UnaryHandler, ServerStreamHandler, ClientStreamHandler, BidiStreamHandler, invoke_unary,
  invoke_server_stream, invoke_client_stream, invoke_bidi,
}
use procframe.Ws.Frame.{OutboundFrame, message_frame, close_frame, to_error_frame}
use procframe.Ws.Session.{
  SessionCall, recv, drain, panic, write, SessionReply, SessionCode, Codec, unmarshal_request,
  marshal_proto, receive_request,
}

-- `writeFn(f)` as the last thing that the code does.
abbrev pub finish : OutboundFrame → SessionCode (Unit {0})
finish f = call (write f) λ _. done tt

-- A handler that makes no call of its own.
unfoldable pub pure_code : {A : Type 0} → Calls ⊥ NoReply A → SessionCode A
pure_code (done a) = done a
pure_code (call c k) = absurd c

-- What the closures of the `Handle` functions capture, with the session's id: the codecs of the two
-- message types, and the mapper and the interceptors of the server's options.
pub record Scope (Req Res : Type 0) : Type 0 where
  pub req_codec : Codec Req
  pub res_codec : Codec Res
  pub mapper : Option ErrorMapper
  pub interceptors : Interceptors (HandlerFunc Req Res)
  pub procedure : String
  pub id : String

module _ {Req Res : Type 0} (scope : Scope Req Res) where
  open scope use {req_codec, res_codec, mapper, interceptors, procedure, id}

  abbrev pub fail : Error → SessionCode (Unit {0})
  fail e = finish (to_error_frame id e mapper)

  -- `toErrorFrame(id, procframe.NewError(code, msg), mapper)`.
  abbrev pub fail_with : String → String → SessionCode (Unit {0})
  fail_with code msg = fail (as_error (new_error code msg))

  abbrev pub call_spec : String → CallSpec
  call_spec shape = record { procedure = procedure; transport = transport_ws; shape = shape }

  -- `&procframe.Request[Req]{Msg: req, Meta: ...}`.
  abbrev pub request_of : Req → Option (Request Req)
  request_of msg = some (record {
    msg = some msg;
    meta = record { procedure = procedure; request_id = id; session_id = ""; labels = [] };
  })

  unfoldable pub write_marshalled : Result String → SessionCode (Unit {0})
  write_marshalled (err e) = fail_with internal (error_text e)
  write_marshalled (ok payload) =
      call (write (message_frame id payload)) λ _. finish (close_frame id)

  -- `writeResponseAndClose`, on the response and on its `Msg`.
  unfoldable pub write_message : Option Res → SessionCode (Unit {0})
  unfolding write_marshalled
  write_message none = fail_with internal "handler returned nil response"
  write_message (some msg) = write_marshalled (marshal_proto res_codec (some msg))

  unfoldable pub write_response_and_close : Option (Response Res) → SessionCode (Unit {0})
  unfolding write_message
  write_response_and_close none = fail_with internal "handler returned nil response"
  write_response_and_close (some resp) = write_message resp.msg

  -- The end of a unary and of a client-stream session.
  unfoldable pub answer : Returned (Response Res) → SessionCode (Unit {0})
  answer (resp, some e) = fail e
  answer (resp, none) = write_response_and_close resp

  -- The end of a server-stream and of a bidirectional session.
  unfoldable pub close_or_fail : Option Error → SessionCode (Unit {0})
  close_or_fail (some e) = fail e
  close_or_fail none = finish (close_frame id)

  -- `marshalProto(resp.Msg)` and the write of `Send` of both streams.
  send_marshalled : Result String → SessionCode (Option Error)
  send_marshalled (err e) = done (some e)
  send_marshalled (ok payload) = call (write (message_frame id payload)) λ _. done none

  unfoldable pub send_response : Option (Response Res) → SessionCode (Option Error)
  unfolding send_marshalled
  send_response none = call panic λ r. absurd r
  send_response (some resp) = send_marshalled (marshal_proto res_codec resp.msg)

  -- `serverStream`, `wsClientStream` and `wsBidiStream`.
  unfoldable pub ws_server_stream : (c : ServerCall Res) → SessionCode (ServerReply Res c)
  ws_server_stream (send resp) = send_response resp

  unfoldable pub ws_client_stream : (c : ClientCall) → SessionCode (ClientReply Req c)
  ws_client_stream receive = call recv λ p. done (receive_request req_codec p)

  unfoldable pub ws_bidi_stream : (c : BidiCall Res) → SessionCode (BidiReply Req Res c)
  ws_bidi_stream receive = call recv λ p. done (receive_request req_codec p)
  ws_bidi_stream (send resp) = send_response resp

  -- `drainAndVerifyEmpty`, behind its first read.
  drain_extra : Option String → SessionCode Bool
  drain_extra none = done true
  drain_extra (some extra) = call drain λ _. done false

  unfoldable pub drain_and_verify_empty : SessionCode Bool
  unfolding drain_extra
  drain_and_verify_empty = call recv drain_extra

  -- The request of a unary or server-stream session: `recvExactlyOne`, `drainAndVerifyEmpty` and
  -- `unmarshalRequest`, with the error frames of each; `rest` goes on with the message.
  unfoldable pub unmarshalled : (Req → SessionCode (Unit {0})) → Result Req → SessionCode (Unit {0})
  unmarshalled rest (err e) = fail e
  unmarshalled rest (ok msg) = rest msg

  one_request : String → (Req → SessionCode (Unit {0})) → Option String → SessionCode (Unit {0})
  unfolding unmarshalled
  one_request many rest none = fail_with invalid_argument "session closed without request"
  one_request many rest (some payload) = drain_and_verify_empty >>= λ empty.
      if empty
      then unmarshalled rest (unmarshal_request req_codec payload)
      else fail_with invalid_argument many

  -- `HandleUnary`'s `run`.
  unfoldable pub run_unary : UnaryHandler Req Res → SessionCode (Unit {0})
  unfolding one_request
  run_unary h = call recv (
      one_request "unary session received multiple messages" λ msg.
        pure_code (invoke_unary (call_spec shape_unary) (request_of msg) h interceptors) >>= answer)

  -- `HandleServerStream`'s `run`.
  unfoldable pub run_server_stream : ServerStreamHandler Req Res → SessionCode (Unit {0})
  unfolding one_request
  run_server_stream h = call recv (
      one_request "server-stream session received multiple messages" λ msg.
        translate ws_server_stream
          (invoke_server_stream (call_spec shape_server_stream) (request_of msg) h interceptors)
        >>= close_or_fail)

  -- `HandleClientStream`'s `run`.
  unfoldable pub run_client_stream : ClientStreamHandler Req Res → SessionCode (Unit {0})
  run_client_stream h =
      translate ws_client_stream
        (invoke_client_stream (call_spec shape_client_stream) h interceptors)
      >>= answer

  -- `HandleBidi`'s `run`.
  unfoldable pub run_bidi : BidiStreamHandler Req Res → SessionCode (Unit {0})
  run_bidi h =
      translate ws_bidi_stream (invoke_bidi (call_spec shape_bidi) h interceptors) >>= close_or_fail

-- A typed handler of any of the four shapes, with the shape and the `run` that its `Handle` function
-- registers.
pub data Handler (Req Res : Type 0) : Type 0 where
  unary : UnaryHandler Req Res → Handler Req Res
  client_stream : ClientStreamHandler Req Res → Handler Req Res
  server_stream : ServerStreamHandler Req Res → Handler Req Res
  bidi : BidiStreamHandler Req Res → Handler Req Res

unfoldable pub shape_of : {Req Res : Type 0} → Handler Req Res → String
shape_of (unary h) = shape_unary
shape_of (client_stream h) = shape_client_stream
shape_of (server_stream h) = shape_server_stream
shape_of (bidi h) = shape_bidi

unfoldable pub run : {Req Res : Type 0} → Scope Req Res → Handler Req Res → SessionCode (Unit {0})
run scope (unary h) = run_unary scope h
run scope (client_stream h) = run_client_stream scope h
run scope (server_stream h) = run_server_stream scope h
run scope (bidi h) = run_bidi scope h
