-- ===== src/Connect/Handlers/Safe.antt =====
-- What the Connect handlers never do to the streams of connect-go.
use procframe.Prelude.{◌≡◌, refl, true, false, String, Option, none, some}
use procframe.Calls.{Calls, done, call, translate, AllCalls, AllCalls-bind}
use procframe.Interceptor.Conns.{ServerCall, BidiCall, receive, send, has_msg}
use procframe.Interceptor.Message.{Response}
use procframe.Interceptor.Invoke.{
  ServerStreamHandler, BidiStreamHandler, invoke_server_stream, invoke_bidi,
}
use procframe.Interceptor.Guards.{
  SendsMsg, BidiSendsMsg, invoke_server_stream-SendsMsg, invoke_bidi-SendsMsg,
}
use procframe.Connect.Handlers.{
  Options, StreamCall, next, stream_err, stream_msg, bidi_receive, stream_send, panics, send_msg,
  server_stream, bidi_stream, failure, new_server_stream_handler, new_bidi_stream_handler,
}

-- No nil pointer is dereferenced, and no nil message is sent.
abbrev pub IsSafe : {Res : Type 0} → StreamCall Res → Type 0
IsSafe next = Unit
IsSafe stream_err = Unit
IsSafe stream_msg = Unit
IsSafe bidi_receive = Unit
IsSafe {Res = Res} (stream_send msg) = (m : Res) × (msg ≡ some m)
IsSafe panics = ⊥

-- An adapter keeps a property where it has it for each call that can be made.
translate-AllCalls :
    {C D : Type 0} {Reply : C → Type 0} {Answer : D → Type 0} {A : Type 0} (P : C → Type 0)
    (Q : D → Type 0) (h : (c : C) → Calls D Answer (Reply c)) (t : Calls C Reply A)
    → ((c : C) → P c → AllCalls Q (h c))
    → AllCalls P t
    → AllCalls Q (translate h t)
unfolding translate
translate-AllCalls P Q h (done a) keeps all = tt
translate-AllCalls P Q h (call c k) keeps all =
    AllCalls-bind Q (h c) (λ r. translate h (k r)) (keeps c all.0)
      (λ r. translate-AllCalls P Q h (k r) keeps (all.1 r))

module _ (Req : Type 0) {Res : Type 0} where
  sent-IsSafe :
      (resp : Option (Response Res))
      → has_msg resp ≡ true
      → AllCalls IsSafe (send_msg {Req = Req} resp)
  unfolding send_msg
  sent-IsSafe none h = cc
  sent-IsSafe (some resp) h = (there resp.msg h, λ e. tt)
    where
      there :
          (msg : Option Res)
          → elim msg [ none ↦ false | some m ↦ true ] ≡ true
          → (m : Res) × (msg ≡ some m)
      there none e = cc
      there (some m) e = (m, refl)

  server_stream-IsSafe :
      (c : ServerCall Res) → SendsMsg c → AllCalls IsSafe (server_stream {Req = Req} c)
  unfolding server_stream
  server_stream-IsSafe (send resp) h = sent-IsSafe resp h

  bidi_stream-IsSafe :
      (c : BidiCall Res) → BidiSendsMsg c → AllCalls IsSafe (bidi_stream {Req = Req} c)
  unfolding bidi_stream
  bidi_stream-IsSafe receive h = (tt, λ r. tt)
  bidi_stream-IsSafe (send resp) h = sent-IsSafe resp h

module _ {Req Res : Type 0} (procedure : String) (o : Options Req Res) where
  -- Whatever the interceptors and the handlers do, the server-stream and the bidirectional handler
  -- dereference no nil response and send no nil message on the stream of connect-go.
  pub stream_handlers-IsSafe :
      (server : ServerStreamHandler Req Res) (msg : Option Req) (bidi : BidiStreamHandler Req Res)
      → AllCalls IsSafe (new_server_stream_handler procedure o server msg)
        × AllCalls IsSafe (new_bidi_stream_handler procedure o bidi)
  unfolding new_server_stream_handler new_bidi_stream_handler
  stream_handlers-IsSafe server msg bidi = (
    AllCalls-bind IsSafe _ (λ e. done (failure procedure o e))
        (translate-AllCalls SendsMsg IsSafe server_stream
          (invoke_server_stream _ _ server o.interceptors) (server_stream-IsSafe Req)
          (invoke_server_stream-SendsMsg _ _ server o.interceptors))
        (λ e. tt),
    AllCalls-bind IsSafe _ (λ e. done (failure procedure o e))
        (translate-AllCalls BidiSendsMsg IsSafe bidi_stream (invoke_bidi _ bidi o.interceptors)
          (bidi_stream-IsSafe Req) (invoke_bidi-SendsMsg _ bidi o.interceptors))
        (λ e. tt),
  )
