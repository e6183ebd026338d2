-- ===== src/Interceptor/Transparency.antt =====
-- Interceptors that change nothing are not seen: a call through the `Conn` surface is the typed
-- handler's own call on the transport.
use procframe.Prelude.{
  ◌≡◌, refl, ◌∙◌, ap, fun_ext, true, Option, none, some, inl, inr, Bool-cases, All, if◌then◌else◌,
}
use procframe.Errors.{Error, Result, ok, err, Returned}
use procframe.Calls.{done, call, ◌>>=◌, translate, serve}
use procframe.Interceptor.Message.{
  Request, Response, CallSpec, cast_request, cast_response, response_view,
}
use procframe.Interceptor.Conns.{
  ServerCall, BidiCall, ClientStream, ServerStream, BidiStream, HandlerFunc, ServerReply, BidiReply,
  receive, send, has_msg, nil_response_error, send_checked, send_view, cast_received, view_received,
  unary_conn, client_stream_conn, server_stream_conn, bidi_conn, conn_client_stream,
  conn_server_stream, conn_bidi_stream, bidi_send,
}
use procframe.Interceptor.Chain.{
  Interceptors, has_active_interceptors, IsTransparent, chain-IsTransparent,
}
use procframe.Interceptor.Invoke.{
  UnaryHandler, ClientStreamHandler, ServerStreamHandler, BidiStreamHandler, result_or_error,
  send_returned, unary_inner, invoke_unary, client_stream_inner, invoke_client_stream,
  server_stream_inner, invoke_server_stream, bidi_inner, invoke_bidi,
}

-- The response is lost beside an error.
abbrev pub settled : {A : Type 0} → Returned A → Returned A
settled (resp, some e) = (none, some e)
settled (resp, none) = (resp, none)

-- A response without a message is an error at the sender and never reaches the transport.
abbrev pub guard_send : {Res : Type 0} (c : ServerCall Res) → ServerStream Res (ServerReply Res c)
guard_send (send resp) =
    if has_msg resp then call (send resp) done else done (some nil_response_error)

-- A request that goes through a view comes back as it was.
cast-view :
    {Req : Type 0} (spec : CallSpec) (r : Result (Option (Request Req)))
    → cast_received (view_received spec r) ≡ r
unfolding cast_received view_received cast_request
cast-view spec (ok req) = refl
cast-view spec (err e) = refl

-- The check of `send_checked` behind a view is that of `guard_send`.
send_checked-view :
    {Res : Type 0} (resp : Option (Response Res))
    → send_checked (response_view resp) ≡ guard_send (send resp)
unfolding send_checked cast_response
send_checked-view resp = refl

module _ {Req Res : Type 0} where
  abbrev pub guard_bidi : (c : BidiCall Res) → BidiStream Req Res (BidiReply Req Res c)
  guard_bidi receive = call receive done
  guard_bidi (send resp) =
      if has_msg resp then call (send resp) done else done (some nil_response_error)

  unary_settled :
      (spec : CallSpec) (req : Option (Request Req)) (r : Returned (Response Res))
      → (serve (unary_conn spec req) (record { received = true; result = none }) (send_returned r)
          >>= λ (e, conn). done (result_or_error conn.result e))
        ≡ done (settled r)
  unfolding serve ◌>>=◌ send_returned unary_conn result_or_error cast_response
  unary_settled spec req (none, none) = refl
  unary_settled spec req (none, some e) = refl
  unary_settled spec req (some resp, none) = refl
  unary_settled spec req (some resp, some e) = refl

  -- With no interceptor but nil ones the handler is called directly; with others that change
  -- nothing, its response or its error comes back, and a response beside an error is dropped.
  pub invoke_unary-transparent :
      (spec : CallSpec) (req : Option (Request Req)) (handler : UnaryHandler Req Res)
      (is : Interceptors (HandlerFunc Req Res))
      → All IsTransparent is
      → invoke_unary spec req handler is
        ≡ done (if has_active_interceptors is then settled (handler req) else handler req)
  unfolding invoke_unary
  invoke_unary-transparent spec req handler is h = elim (Bool-cases (has_active_interceptors is)) [
    | inl active ↦
        rw (active, chain-IsTransparent (unary_inner handler) is h)
          (unfold serve ◌>>=◌ unary_inner unary_conn cast_received cast_request in
            unary_settled spec req (handler req))
    | inr inactive ↦ rw inactive
  ]

  client_settled :
      (spec : CallSpec) (r : Returned (Response Res))
      → (serve (client_stream_conn {Req = Req} spec) none (send_returned r) >>= λ (e, result).
          done (result_or_error result e))
        ≡ done (settled r)
  unfolding serve ◌>>=◌ send_returned client_stream_conn result_or_error cast_response
  client_settled spec (none, none) = refl
  client_settled spec (none, some e) = refl
  client_settled spec (some resp, none) = refl
  client_settled spec (some resp, some e) = refl

  -- `invoke_client_stream` with no interceptor.
  abbrev client_stream_run :
      CallSpec → ClientStreamHandler Req Res → ClientStream Req (Returned (Response Res))
  client_stream_run spec t =
      serve (client_stream_conn spec) none (client_stream_inner t) >>= λ (e, result).
      done (result_or_error result e)

  client_stream_direct :
      (spec : CallSpec) (t : ClientStreamHandler Req Res)
      → client_stream_run spec t ≡ (t >>= λ r. done (settled r))
  unfolding serve ◌>>=◌ translate client_stream_inner conn_client_stream client_stream_conn
  client_stream_direct spec (done r) = client_settled spec r
  client_stream_direct spec (call receive k) = ap (call receive) (
      fun_ext λ r.
        ap (λ x. client_stream_run spec (k x)) (cast-view spec r) ∙ client_stream_direct spec (k r))

  -- Behind interceptors that change nothing, a client-stream handler receives what the transport's
  -- stream delivers, call by call, and its response or its error comes back.
  invoke_client_stream-transparent :
      (spec : CallSpec) (handler : ClientStreamHandler Req Res)
      (is : Interceptors (HandlerFunc Req Res))
      → All IsTransparent is
      → invoke_client_stream spec handler is ≡ (handler >>= λ r. done (settled r))
  unfolding invoke_client_stream
  invoke_client_stream-transparent spec handler is h =
      rw (chain-IsTransparent (client_stream_inner handler) is h)
        (client_stream_direct spec handler)

  server_stream_direct :
      (spec : CallSpec) (req : Option (Request Req)) (t : ServerStream Res (Option Error))
      → (serve (server_stream_conn spec req) true (translate conn_server_stream t) >>= λ x.
          done x.0)
        ≡ translate guard_send t
  unfolding serve ◌>>=◌ translate conn_server_stream server_stream_conn send_view
  server_stream_direct spec req (done e) = refl
  server_stream_direct spec req (call (send none) k) =
      server_stream_direct spec req (k (some nil_response_error))
  server_stream_direct spec req (call (send (some resp)) k) =
      rw (send_checked-view (some resp)) (elim (Bool-cases (has_msg (some resp))) [
        | inl full ↦
            rw full (λ i. call (send (some resp)) (λ r. server_stream_direct spec req (k r) i))
        | inr empty ↦ rw empty (server_stream_direct spec req (k (some nil_response_error)))
      ])

  -- Behind interceptors that change nothing, a server-stream handler is called once with the
  -- request, and its sends reach the transport's stream in order, but for those without a message.
  pub invoke_server_stream-transparent :
      (spec : CallSpec) (req : Option (Request Req)) (handler : ServerStreamHandler Req Res)
      (is : Interceptors (HandlerFunc Req Res))
      → All IsTransparent is
      → invoke_server_stream spec req handler is ≡ translate guard_send (handler req)
  unfolding invoke_server_stream
  invoke_server_stream-transparent spec req handler is h =
      rw (chain-IsTransparent (server_stream_inner handler) is h) (
        unfold serve ◌>>=◌ server_stream_inner server_stream_conn cast_received cast_request in
        server_stream_direct spec req (handler req))

  bidi_direct :
      (spec : CallSpec) (t : BidiStream Req Res (Option Error))
      → translate (bidi_conn spec) (translate conn_bidi_stream t) ≡ translate guard_bidi t
  unfolding ◌>>=◌ translate conn_bidi_stream bidi_conn bidi_send send_view
  bidi_direct spec (done e) = refl
  bidi_direct spec (call receive k) = ap (call receive) (
      fun_ext λ r.
        ap (λ x. translate (bidi_conn spec) (translate conn_bidi_stream (k x))) (cast-view spec r)
        ∙ bidi_direct spec (k r))
  bidi_direct spec (call (send none) k) = bidi_direct spec (k (some nil_response_error))
  bidi_direct spec (call (send (some resp)) k) =
      rw (send_checked-view (some resp)) (elim (Bool-cases (has_msg (some resp))) [
        | inl full ↦ rw full (λ i. call (send (some resp)) (λ r. bidi_direct spec (k r) i))
        | inr empty ↦ rw empty (bidi_direct spec (k (some nil_response_error)))
      ])

  -- The same of a bidirectional handler, which receives and sends.
  pub invoke_bidi-transparent :
      (spec : CallSpec) (handler : BidiStreamHandler Req Res)
      (is : Interceptors (HandlerFunc Req Res))
      → All IsTransparent is
      → invoke_bidi spec handler is ≡ translate guard_bidi handler
  unfolding invoke_bidi bidi_inner
  invoke_bidi-transparent spec handler is h =
      rw (chain-IsTransparent (bidi_inner handler) is h) (bidi_direct spec handler)
