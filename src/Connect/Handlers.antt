-- ===== src/Connect/Handlers.antt =====
-- transport/connect/connect.go: the options, the function that each constructor gives to connect-go,
-- and the adapters of connect-go's streams. What connect-go does with them is not in the repository: its
-- stream types are an interface that the code calls.
pub mod Safe
pub mod Agree
use procframe.Prelude.{String, Bool, true, false, Option, none, some, List, [], ◌∷◌, if◌then◌else◌}
use procframe.Errors.{
  Error, ErrorMapper, sentinel, eof, plain, Result, ok, err, Returned, internal, error_text,
}
use procframe.Calls.{Calls, done, call, ◌>>=◌, translate}
use procframe.Interceptor.Message.{
  Request, Response, CallSpec, Meta, no_meta, transport_connect, shape_unary, shape_client_stream,
  shape_server_stream, shape_bidi,
}
use procframe.Interceptor.Conns.{
  ServerCall, ServerReply, ClientCall, ClientReply, BidiCall, BidiReply, NoReply, HandlerFunc,
  receive, send,
}
use procframe.Interceptor.Chain.{Interceptors}
use procframe.Interceptor.Invoke.{
  UnaryHandler, ServerStreamHandler, ClientStreamHandler, BidiStreamHandler, invoke_unary,
  invoke_server_stream, invoke_client_stream, invoke_bidi,
}
use procframe.Connect.Errors.{ConnectError, code_internal, to_connect_error}

-- `options`, for the message types of one procedure.
pub record Options (Req Res : Type 0) : Type 0 where
  pub error_mapper : Option ErrorMapper
  pub interceptors : Interceptors (HandlerFunc Req Res)

-- `Option`.
abbrev pub OptionFunc : Type 0 → Type 0 → Type 0
OptionFunc Req Res = Options Req Res → Options Req Res

module _ {Req Res : Type 0} where
  unfoldable pub with_error_mapper : Option ErrorMapper → OptionFunc Req Res
  with_error_mapper mapper o = record o { error_mapper = mapper }

  unfoldable pub with_interceptors : Interceptors (HandlerFunc Req Res) → OptionFunc Req Res
  with_interceptors interceptors o = record o { interceptors = interceptors }

  -- The loop of `buildOptions`.
  unfoldable pub apply_options : List (OptionFunc Req Res) → OptionFunc Req Res
  apply_options [] o = o
  apply_options (opt ∷ opts) o = apply_options opts (opt o)

  unfoldable pub build_options : List (OptionFunc Req Res) → Options Req Res
  build_options opts = apply_options opts (record { error_mapper = none; interceptors = [] })

-- The methods of `connect.ClientStream`, `connect.ServerStream` and `connect.BidiStream`; `panics` is
-- the dereference of a nil pointer.
pub data StreamCall (Res : Type 0) : Type 0 where
  next stream_err stream_msg : StreamCall Res
  bidi_receive : StreamCall Res
  stream_send : Option Res → StreamCall Res
  panics : StreamCall Res

abbrev pub StreamReply : (Req Res : Type 0) → StreamCall Res → Type 0
StreamReply Req Res next = Bool
StreamReply Req Res stream_err = Option Error
StreamReply Req Res stream_msg = Option Req
StreamReply Req Res bidi_receive = Option Req × Option Error
StreamReply Req Res (stream_send msg) = Option Error
StreamReply Req Res panics = ⊥

abbrev pub StreamCode : Type 0 → Type 0 → Type 0 → Type 0
StreamCode Req Res A = Calls (StreamCall Res) (StreamReply Req Res) A

-- A call of connect-go's unary or client-stream handler returns a message or an error.
pub data Outcome (Res : Type 0) : Type 0 where
  responds : Res → Outcome Res
  refuses : ConnectError → Outcome Res

-- `Receive` of `clientStream` where `s.stream.Receive()` is false.
stream_ended : {Req : Type 0} → Option Error → Result (Option (Request Req))
stream_ended (some e) = err e
stream_ended none = err (sentinel eof)

-- `Receive` of `bidiStream`, behind `s.stream.Receive()`.
bidi_received : {Req : Type 0} → Option Req × Option Error → Result (Option (Request Req))
bidi_received (msg, some e) = err e
bidi_received (msg, none) = ok (some (record { msg = msg; meta = no_meta }))

module _ {Req Res : Type 0} where
  received : Bool → StreamCode Req Res (Result (Option (Request Req)))
  unfolding stream_ended
  received true = call stream_msg λ msg. done (ok (some (record { msg = msg; meta = no_meta })))
  received false = call stream_err λ e. done (stream_ended e)

  unfoldable pub client_stream : (c : ClientCall) → StreamCode Req Res (ClientReply Req c)
  unfolding received
  client_stream receive = call next received

  unfoldable pub send_msg : Option (Response Res) → StreamCode Req Res (Option Error)
  send_msg none = call panics λ r. absurd r
  send_msg (some resp) = call (stream_send resp.msg) done

  unfoldable pub server_stream : (c : ServerCall Res) → StreamCode Req Res (ServerReply Res c)
  server_stream (send resp) = send_msg resp

  unfoldable pub bidi_stream : (c : BidiCall Res) → StreamCode Req Res (BidiReply Req Res c)
  unfolding bidi_received
  bidi_stream receive = call bidi_receive λ r. done (bidi_received r)
  bidi_stream (send resp) = send_msg resp

-- The closures over the procedure and the options.
module _ {Req Res : Type 0} (procedure : String) (o : Options Req Res) where
  abbrev pub call_spec : String → CallSpec
  call_spec shape = record { procedure = procedure; transport = transport_connect; shape = shape }

  -- The request of a unary or a server-stream call.
  abbrev pub request_of : Option Req → Option (Request Req)
  request_of msg = some (record { msg = msg; meta = record no_meta { procedure = procedure } })

  abbrev pub no_response : ConnectError
  no_response = record {
    code = code_internal;
    message = error_text (plain "handler returned nil response");
  }

  responded : Option Res → Outcome Res
  responded none = refuses no_response
  responded (some msg) = responds msg

  -- The end of the unary and the client-stream functions.
  unfoldable pub outcome : Returned (Response Res) → Outcome Res
  unfolding responded
  outcome (resp, some e) = refuses (to_connect_error e o.error_mapper)
  outcome (none, none) = refuses no_response
  outcome (some resp, none) = responded resp.msg

  -- The end of the two others.
  unfoldable pub failure : Option Error → Option ConnectError
  failure (some e) = some (to_connect_error e o.error_mapper)
  failure none = none

  unfoldable pub new_unary_handler :
      UnaryHandler Req Res → Option Req → Calls ⊥ NoReply (Outcome Res)
  new_unary_handler handler msg =
      invoke_unary (call_spec shape_unary) (request_of msg) handler o.interceptors >>= λ r.
      done (outcome r)

  unfoldable pub new_client_stream_handler :
      ClientStreamHandler Req Res → StreamCode Req Res (Outcome Res)
  new_client_stream_handler handler =
      translate client_stream
        (invoke_client_stream (call_spec shape_client_stream) handler o.interceptors)
      >>= λ r. done (outcome r)

  unfoldable pub new_server_stream_handler :
      ServerStreamHandler Req Res → Option Req → StreamCode Req Res (Option ConnectError)
  new_server_stream_handler handler msg =
      translate server_stream (
        invoke_server_stream (call_spec shape_server_stream) (request_of msg) handler
          o.interceptors)
      >>= λ e. done (failure e)

  unfoldable pub new_bidi_stream_handler :
      BidiStreamHandler Req Res → StreamCode Req Res (Option ConnectError)
  new_bidi_stream_handler handler =
      translate bidi_stream (invoke_bidi (call_spec shape_bidi) handler o.interceptors) >>= λ e.
      done (failure e)
