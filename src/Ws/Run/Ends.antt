-- ===== src/Ws/Run/Ends.antt =====
-- Every session ends with one frame that says so, and writes nothing behind it.
use procframe.Prelude.{◌≡◌, refl, inl, inr, String, true, Option, none, some}
use procframe.Errors.{Error, Result, ok, err, Returned}
use procframe.Calls.{Calls, done, call, ◌>>=◌, translate, AllCalls}
use procframe.Interceptor.Message.{Response}
use procframe.Interceptor.Conns.{ServerCall, ClientCall, BidiCall, NoReply, receive, send, has_msg}
use procframe.Interceptor.Guards.{
  SendsMsg, BidiSendsMsg, invoke_server_stream-SendsMsg, invoke_bidi-SendsMsg,
}
use procframe.Interceptor.Invoke.{
  UnaryHandler, ServerStreamHandler, ClientStreamHandler, BidiStreamHandler,
}
use procframe.Ws.Frame.{to_error_frame}
use procframe.Ws.Session.{SessionCode, unmarshal_request}
use procframe.Ws.Run.Frames.{EndsOnce, Streams, bind-EndsOnce, translate-Streams}
use procframe.Ws.Run.{
  Scope, Handler, unary, client_stream, server_stream, bidi, run, pure_code, fail, write_marshalled,
  write_message, send_marshalled, unmarshalled, one_request, write_response_and_close, answer,
  close_or_fail, send_response, ws_server_stream, ws_client_stream, ws_bidi_stream,
  drain_and_verify_empty, run_unary, run_server_stream, run_client_stream, run_bidi,
}

pure_code-Streams : {A : Type 0} (id : String) (t : Calls ⊥ NoReply A) → Streams id (pure_code t)
unfolding pure_code
pure_code-Streams id (done a) = tt
pure_code-Streams id (call c k) = absurd c

AllCalls-any :
    {C : Type 0} {Reply : C → Type 0} {A : Type 0} (t : Calls C Reply A) → AllCalls (λ c. Unit) t
AllCalls-any (done a) = tt
AllCalls-any (call c k) = (tt, λ r. AllCalls-any (k r))

module _ {Req Res : Type 0} (scope : Scope Req Res) where
  open scope use {id}

  fail-EndsOnce : (e : Error) → EndsOnce id (fail scope e)
  unfolding to_error_frame
  fail-EndsOnce e = inl ((refl, inr refl), tt)

  write_marshalled-EndsOnce : (r : Result String) → EndsOnce id (write_marshalled scope r)
  unfolding write_marshalled
  write_marshalled-EndsOnce (err e) = fail-EndsOnce _
  write_marshalled-EndsOnce (ok payload) = inr ((refl, refl), inl ((refl, inl refl), tt))

  write_message-EndsOnce : (msg : Option Res) → EndsOnce id (write_message scope msg)
  unfolding write_message
  write_message-EndsOnce none = fail-EndsOnce _
  write_message-EndsOnce (some msg) = write_marshalled-EndsOnce _

  write_response_and_close-EndsOnce :
      (resp : Option (Response Res)) → EndsOnce id (write_response_and_close scope resp)
  unfolding write_response_and_close
  write_response_and_close-EndsOnce none = fail-EndsOnce _
  write_response_and_close-EndsOnce (some resp) = write_message-EndsOnce resp.msg

  answer-EndsOnce : (r : Returned (Response Res)) → EndsOnce id (answer scope r)
  unfolding answer
  answer-EndsOnce (resp, some e) = fail-EndsOnce e
  answer-EndsOnce (resp, none) = write_response_and_close-EndsOnce resp

  close_or_fail-EndsOnce : (e : Option Error) → EndsOnce id (close_or_fail scope e)
  unfolding close_or_fail
  close_or_fail-EndsOnce (some e) = fail-EndsOnce e
  close_or_fail-EndsOnce none = inl ((refl, inl refl), tt)

  send_marshalled-Streams : (r : Result String) → Streams id (send_marshalled scope r)
  unfolding send_marshalled
  send_marshalled-Streams (err e) = tt
  send_marshalled-Streams (ok payload) = ((refl, refl), tt)

  send_response-Streams :
      (resp : Option (Response Res)) → has_msg resp ≡ true → Streams id (send_response scope resp)
  unfolding send_response
  send_response-Streams none h = cc
  send_response-Streams (some resp) h = send_marshalled-Streams _

  ws_server_stream-Streams :
      (c : ServerCall Res) → SendsMsg c → Streams id (ws_server_stream scope c)
  unfolding ws_server_stream
  ws_server_stream-Streams (send resp) h = send_response-Streams resp h

  ws_bidi_stream-Streams : (c : BidiCall Res) → BidiSendsMsg c → Streams id (ws_bidi_stream scope c)
  unfolding ws_bidi_stream
  ws_bidi_stream-Streams receive h = λ r. tt
  ws_bidi_stream-Streams (send resp) h = send_response-Streams resp h

  ws_client_stream-Streams : (c : ClientCall) → Unit {0} → Streams id (ws_client_stream scope c)
  unfolding ws_client_stream
  ws_client_stream-Streams receive h = λ r. tt

  one_request-EndsOnce :
      (many : String) (rest : Req → SessionCode (Unit {0})) (r : Option String)
      → ((msg : Req) → EndsOnce id (rest msg))
      → EndsOnce id (one_request scope many rest r)
  unfolding one_request drain_and_verify_empty ◌>>=◌
  one_request-EndsOnce many rest none h = fail-EndsOnce _
  one_request-EndsOnce many rest (some payload) h = elim [
    | none ↦
        elim (unmarshal_request scope.req_codec payload)
          as (λ r. EndsOnce id (unmarshalled scope rest r)) [
            | err e ↦ fail-EndsOnce e
            | ok msg ↦ h msg
          ]
    | some extra ↦ λ r. fail-EndsOnce _
  ]

  run_unary-EndsOnce : (h : UnaryHandler Req Res) → EndsOnce id (run_unary scope h)
  unfolding run_unary
  run_unary-EndsOnce h = λ r.
      one_request-EndsOnce _ _ r λ msg.
        bind-EndsOnce id (pure_code _) (answer scope) (pure_code-Streams id _) answer-EndsOnce

  run_server_stream-EndsOnce :
      (h : ServerStreamHandler Req Res) → EndsOnce id (run_server_stream scope h)
  unfolding run_server_stream
  run_server_stream-EndsOnce h = λ r. one_request-EndsOnce _ _ r λ msg.
      bind-EndsOnce id (translate (ws_server_stream scope) _) (close_or_fail scope)
        (translate-Streams id SendsMsg (ws_server_stream scope) _ ws_server_stream-Streams
          (invoke_server_stream-SendsMsg _ _ h _))
        close_or_fail-EndsOnce

  run_client_stream-EndsOnce :
      (h : ClientStreamHandler Req Res) → EndsOnce id (run_client_stream scope h)
  unfolding run_client_stream
  run_client_stream-EndsOnce h =
      bind-EndsOnce id (translate (ws_client_stream scope) _) (answer scope)
        (translate-Streams id (λ c. Unit) (ws_client_stream scope) _ ws_client_stream-Streams
          (AllCalls-any _))
        answer-EndsOnce

  run_bidi-EndsOnce : (h : BidiStreamHandler Req Res) → EndsOnce id (run_bidi scope h)
  unfolding run_bidi
  run_bidi-EndsOnce h =
      bind-EndsOnce id (translate (ws_bidi_stream scope) _) (close_or_fail scope)
        (translate-Streams id BidiSendsMsg (ws_bidi_stream scope) _ ws_bidi_stream-Streams
          (invoke_bidi-SendsMsg _ h _))
        close_or_fail-EndsOnce

  -- A session of any shape, whatever the client sends, the handler does and the interceptors do:
  -- each of its frames has the session's id; it writes message frames, then exactly one close or
  -- error frame, and then nothing; and its streams never dereference a nil response.
  pub run-EndsOnce : (h : Handler Req Res) → EndsOnce id (run scope h)
  unfolding run
  run-EndsOnce (unary h) = run_unary-EndsOnce h
  run-EndsOnce (client_stream h) = run_client_stream-EndsOnce h
  run-EndsOnce (server_stream h) = run_server_stream-EndsOnce h
  run-EndsOnce (bidi h) = run_bidi-EndsOnce h
