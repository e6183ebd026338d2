-- ===== src/Interceptor/Conns.antt =====
-- The `Conn` surface that middleware sees, the streams that a typed handler sees, and the objects of
-- interceptor.go that implement one by the other.
use procframe.Prelude.{Bool, true, false, Option, none, some, if◌then◌else◌}
use procframe.Errors.{Error, sentinel, eof, Result, ok, err, as_error, new_error, internal}
use procframe.Calls.{Calls, done, call, ◌>>=◌, translate}
use procframe.Interceptor.Message.{
  Request, Response, CallSpec, AnyRequest, request_view, AnyResponse, nil_response, response_view,
  cast_request, cast_response,
}

-- `Conn`: `Receive()` and `Send(AnyResponse)`.
pub data ConnCall (Res : Type 0) : Type 0 where
  receive : ConnCall Res
  send : AnyResponse Res → ConnCall Res

abbrev pub ConnReply : (Req Res : Type 0) → ConnCall Res → Type 0
ConnReply Req Res receive = Result (AnyRequest Req)
ConnReply Req Res (send r) = Option Error

-- `ClientStream[Req]`: `Receive()`.
pub data ClientCall : Type 0 where
  receive : ClientCall

abbrev pub ClientReply : Type 0 → ClientCall → Type 0
ClientReply Req receive = Result (Option (Request Req))

-- `ServerStream[Res]`: `Send(*Response[Res])`.
pub data ServerCall (Res : Type 0) : Type 0 where
  send : Option (Response Res) → ServerCall Res

abbrev pub ServerReply : (Res : Type 0) → ServerCall Res → Type 0
ServerReply Res (send r) = Option Error

-- `BidiStream[Req, Res]`.
pub data BidiCall (Res : Type 0) : Type 0 where
  receive : BidiCall Res
  send : Option (Response Res) → BidiCall Res

abbrev pub BidiReply : (Req Res : Type 0) → BidiCall Res → Type 0
BidiReply Req Res receive = Result (Option (Request Req))
BidiReply Req Res (send r) = Option Error

-- `HandlerFunc`.
abbrev pub HandlerFunc : (Req Res : Type 0) → Type 0
HandlerFunc Req Res = Calls (ConnCall Res) (ConnReply Req Res) (Option Error)

abbrev pub ServerStream : Type 0 → Type 0 → Type 0
ServerStream Res A = Calls (ServerCall Res) (ServerReply Res) A

abbrev pub ClientStream : Type 0 → Type 0 → Type 0
ClientStream Req A = Calls ClientCall (ClientReply Req) A

abbrev pub BidiStream : Type 0 → Type 0 → Type 0 → Type 0
BidiStream Req Res A = Calls (BidiCall Res) (BidiReply Req Res) A

-- No interface: code that makes no call.
abbrev pub NoReply : ⊥ → Type 0
NoReply c = ⊥

abbrev pub nil_response_error : Error
nil_response_error = as_error (new_error internal "handler sent nil response")

module _ {Res : Type 0} where
  -- The end of both `Send` methods that keep a result: `c.result = typedResp`.
  store_result :
      Option (Response Res) → Result (Option (Response Res)) → Option Error × Option (Response Res)
  store_result old (err e) = (some e, old)
  store_result old (ok typed_resp) = (none, typed_resp)

  -- `Send` of `unaryConn` and `clientStreamConn`, over the `result` field.
  unfoldable pub send_result :
      Option (Response Res) → AnyResponse Res → Option Error × Option (Response Res)
  unfolding store_result
  send_result old nil_response = (none, old)
  send_result old resp = store_result old (cast_response resp)

  -- `typedResp == nil || typedResp.Msg == nil`.
  abbrev pub has_msg : Option (Response Res) → Bool
  has_msg none = false
  has_msg (some resp) = elim resp.msg [ none ↦ false | some m ↦ true ]

  -- `Send` of `serverStreamConn`: the checked response goes to the transport's stream.
  unfoldable pub send_checked : AnyResponse Res → ServerStream Res (Option Error)
  send_checked resp = elim (cast_response resp) [
    | err e ↦ done (some e)
    | ok typed_resp ↦
        if has_msg typed_resp then call (send typed_resp) done else done (some nil_response_error)
  ]

  -- `Send` of `connServerStream` and `connBidiStream`, on a `Conn`.
  unfoldable pub send_view : {Req : Type 0} → Option (Response Res) → HandlerFunc Req Res
  send_view none = done (some nil_response_error)
  send_view (some resp) = call (send (response_view (some resp))) done

-- A response that goes to a transport's stream goes to a bidirectional one as well.
unfoldable pub bidi_send :
    {Req Res : Type 0} (c : ServerCall Res) → BidiStream Req Res (ServerReply Res c)
bidi_send (send resp) = call (send resp) done

-- The state of a `unaryConn`.
pub record UnaryConn (Res : Type 0) : Type 0 where
  pub received : Bool
  pub result : Option (Response Res)

module _ {Req : Type 0} where
  -- `castRequest` behind a `Receive`.
  unfoldable pub cast_received : Result (AnyRequest Req) → Result (Option (Request Req))
  cast_received (err e) = err e
  cast_received (ok any_req) = cast_request any_req

  -- `Receive` of `unaryConn` and `serverStreamConn`: the request once, then io.EOF. The Boolean is
  -- the field `received`.
  unfoldable pub receive_once :
      CallSpec → Option (Request Req) → Bool → Result (AnyRequest Req) × Bool
  receive_once spec req true = (err (sentinel eof), true)
  receive_once spec req false = (ok (request_view spec req), true)

  -- `Receive` of `clientStreamConn` and `bidiConn`, behind the transport's `Receive`.
  unfoldable pub view_received : CallSpec → Result (Option (Request Req)) → Result (AnyRequest Req)
  view_received spec (err e) = err e
  view_received spec (ok req) = ok (request_view spec req)

module _ {Req Res : Type 0} where
  -- `unaryConn`.
  unfoldable pub unary_conn :
      CallSpec
      → Option (Request Req)
      → UnaryConn Res
      → (c : ConnCall Res) → Calls ⊥ NoReply (ConnReply Req Res c × UnaryConn Res)
  unfolding receive_once send_result
  unary_conn spec req s receive =
      let (reply, received) = receive_once spec req s.received in
      done (reply, record s { received = received })
  unary_conn spec req s (send resp) =
      let (reply, result) = send_result s.result resp in done (reply, record s { result = result })

  -- `clientStreamConn`; the state is its `result`.
  unfoldable pub client_stream_conn :
      CallSpec
      → Option (Response Res)
      → (c : ConnCall Res) → ClientStream Req (ConnReply Req Res c × Option (Response Res))
  unfolding view_received send_result
  client_stream_conn spec s receive = call receive λ r. done (view_received spec r, s)
  client_stream_conn spec s (send resp) = done (send_result s resp)

  -- `serverStreamConn`; the state is its `received`.
  unfoldable pub server_stream_conn :
      CallSpec
      → Option (Request Req)
      → Bool
      → (c : ConnCall Res) → ServerStream Res (ConnReply Req Res c × Bool)
  unfolding receive_once
  server_stream_conn spec req s receive = done (receive_once spec req s)
  server_stream_conn spec req s (send resp) = send_checked resp >>= λ e. done (e, s)

  -- `bidiConn`.
  unfoldable pub bidi_conn :
      CallSpec → (c : ConnCall Res) → BidiStream Req Res (ConnReply Req Res c)
  unfolding view_received
  bidi_conn spec receive = call receive λ r. done (view_received spec r)
  bidi_conn spec (send resp) = translate bidi_send (send_checked resp)

  -- `connClientStream`.
  unfoldable pub conn_client_stream :
      (c : ClientCall) → Calls (ConnCall Res) (ConnReply Req Res) (ClientReply Req c)
  conn_client_stream receive = call receive λ r. done (cast_received r)

  -- `connServerStream`.
  unfoldable pub conn_server_stream :
      (c : ServerCall Res) → Calls (ConnCall Res) (ConnReply Req Res) (ServerReply Res c)
  conn_server_stream (send resp) = send_view resp

  -- `connBidiStream`.
  unfoldable pub conn_bidi_stream :
      (c : BidiCall Res) → Calls (ConnCall Res) (ConnReply Req Res) (BidiReply Req Res c)
  conn_bidi_stream receive = call receive λ r. done (cast_received r)
  conn_bidi_stream (send resp) = send_view resp
