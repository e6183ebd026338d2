-- ===== src/Interceptor/Invoke.antt =====
-- interceptor.go: `InvokeUnary`, `InvokeClientStream`, `InvokeServerStream` and `InvokeBidi`.
use procframe.Prelude.{Option, none, some, if◌then◌else◌, false}
use procframe.Errors.{Error, Result, ok, err, Returned}
use procframe.Calls.{Calls, done, call, ◌>>=◌, translate, serve}
use procframe.Interceptor.Message.{Request, Response, CallSpec, response_view}
use procframe.Interceptor.Conns.{
  receive, send, HandlerFunc, ServerStream, ClientStream, BidiStream, NoReply, cast_received,
  unary_conn, client_stream_conn, server_stream_conn, bidi_conn, conn_client_stream,
  conn_server_stream, conn_bidi_stream,
}
use procframe.Interceptor.Chain.{Interceptors, chain_interceptors, has_active_interceptors}

-- The typed handler of each shape: `UnaryHandler`, `ClientStreamHandler`, `ServerStreamHandler` and
-- `BidiStreamHandler` of handler.go.
abbrev pub UnaryHandler : Type 0 → Type 0 → Type 0
UnaryHandler Req Res = Option (Request Req) → Returned (Response Res)

abbrev pub ClientStreamHandler : Type 0 → Type 0 → Type 0
ClientStreamHandler Req Res = ClientStream Req (Returned (Response Res))

abbrev pub ServerStreamHandler : Type 0 → Type 0 → Type 0
ServerStreamHandler Req Res = Option (Request Req) → ServerStream Res (Option Error)

abbrev pub BidiStreamHandler : Type 0 → Type 0 → Type 0
BidiStreamHandler Req Res = BidiStream Req Res (Option Error)

-- `if err != nil { return nil, err }; return conn.result, nil`.
unfoldable pub result_or_error : {A : Type 0} → Option A → Option Error → Returned A
result_or_error result none = (result, none)
result_or_error result (some e) = (none, some e)

module _ {Req Res : Type 0} where
  -- The end of the inner handlers of unary and client-stream calls: the response is sent on the
  -- conn, unless there is an error or no response.
  unfoldable pub send_returned : Returned (Response Res) → HandlerFunc Req Res
  send_returned (resp, some e) = done (some e)
  send_returned (none, none) = done none
  send_returned (some resp, none) = call (send (response_view (some resp))) done

  -- The inner handler of `InvokeUnary`, behind its `Receive`.
  unary_received : UnaryHandler Req Res → Result (Option (Request Req)) → HandlerFunc Req Res
  unary_received handler (err e) = done (some e)
  unary_received handler (ok req) = send_returned (handler req)

  unfoldable pub unary_inner : UnaryHandler Req Res → HandlerFunc Req Res
  unfolding unary_received
  unary_inner handler = call receive λ r. unary_received handler (cast_received r)

  unfoldable pub invoke_unary :
      CallSpec
      → Option (Request Req)
      → UnaryHandler Req Res
      → Interceptors (HandlerFunc Req Res)
      → Calls ⊥ NoReply (Returned (Response Res))
  invoke_unary spec req handler interceptors =
      if has_active_interceptors interceptors
      then (serve (unary_conn spec req) (record { received = false; result = none })
            (chain_interceptors (unary_inner handler) interceptors)
          >>= λ (e, conn). done (result_or_error conn.result e))
      else done (handler req)

  unfoldable pub client_stream_inner : ClientStreamHandler Req Res → HandlerFunc Req Res
  client_stream_inner handler = translate conn_client_stream handler >>= send_returned

  unfoldable pub invoke_client_stream :
      CallSpec
      → ClientStreamHandler Req Res
      → Interceptors (HandlerFunc Req Res)
      → ClientStream Req (Returned (Response Res))
  invoke_client_stream spec handler interceptors =
      serve (client_stream_conn spec) none
        (chain_interceptors (client_stream_inner handler) interceptors)
      >>= λ (e, result). done (result_or_error result e)

  -- The inner handler of `InvokeServerStream`, behind its `Receive`.
  server_stream_received :
      ServerStreamHandler Req Res → Result (Option (Request Req)) → HandlerFunc Req Res
  server_stream_received handler (err e) = done (some e)
  server_stream_received handler (ok req) = translate conn_server_stream (handler req)

  unfoldable pub server_stream_inner : ServerStreamHandler Req Res → HandlerFunc Req Res
  unfolding server_stream_received
  server_stream_inner handler = call receive λ r. server_stream_received handler (cast_received r)

  unfoldable pub invoke_server_stream :
      CallSpec
      → Option (Request Req)
      → ServerStreamHandler Req Res
      → Interceptors (HandlerFunc Req Res)
      → ServerStream Res (Option Error)
  invoke_server_stream spec req handler interceptors =
      serve (server_stream_conn spec req) false
        (chain_interceptors (server_stream_inner handler) interceptors)
      >>= λ x. done x.0

  unfoldable pub bidi_inner : BidiStreamHandler Req Res → HandlerFunc Req Res
  bidi_inner handler = translate conn_bidi_stream handler

  unfoldable pub invoke_bidi :
      CallSpec
      → BidiStreamHandler Req Res
      → Interceptors (HandlerFunc Req Res)
      → BidiStream Req Res (Option Error)
  invoke_bidi spec handler interceptors =
      translate (bidi_conn spec) (chain_interceptors (bidi_inner handler) interceptors)
