-- ===== src/Interceptor/Guards.antt =====
-- What no middleware and no handler can do: make a transport's stream send a response without a
-- message.
use procframe.Prelude.{Bool, ◌≡◌, refl, true, Option, some, if◌then◌else◌, false}
use procframe.Errors.{Error, ok, err}
use procframe.Calls.{Calls, done, call, ◌>>=◌, translate, serve, AllCalls, AllCalls-bind}
use procframe.Interceptor.Message.{Request, CallSpec, AnyResponse, cast_response}
use procframe.Interceptor.Conns.{
  ConnCall, ServerCall, BidiCall, HandlerFunc, ServerStream, receive, send, has_msg,
  nil_response_error, send_checked, server_stream_conn, bidi_conn, bidi_send,
}
use procframe.Interceptor.Chain.{Interceptors, chain_interceptors}
use procframe.Interceptor.Invoke.{
  ServerStreamHandler, BidiStreamHandler, server_stream_inner, invoke_server_stream, bidi_inner,
  invoke_bidi,
}

module _ {C D : Type 0} {Reply : C → Type 0} {Answer : D → Type 0} {A : Type 0}
    (P : D → Type 0) where
  AllCalls-serve :
      {S : Type 0} (h : S → (c : C) → Calls D Answer (Reply c × S)) (s : S) (t : Calls C Reply A)
      → ((s : S) (c : C) → AllCalls P (h s c))
      → AllCalls P (serve h s t)
  unfolding serve
  AllCalls-serve h s (done a) all = tt
  AllCalls-serve h s (call c k) all =
      AllCalls-bind P (h s c) (λ x. serve h x.1 (k x.0)) (all s c)
        (λ x. AllCalls-serve h x.1 (k x.0) all)

  AllCalls-translate :
      (h : (c : C) → Calls D Answer (Reply c)) (t : Calls C Reply A)
      → ((c : C) → AllCalls P (h c))
      → AllCalls P (translate h t)
  unfolding translate
  AllCalls-translate h (done a) all = tt
  AllCalls-translate h (call c k) all =
      AllCalls-bind P (h c) (λ r. translate h (k r)) (all c) (λ r. AllCalls-translate h (k r) all)

-- A call that is made only if the test passes.
AllCalls-if :
    {C : Type 0} {Reply : C → Type 0} {A : Type 0} (P : C → Type 0) (b : Bool) (c : C)
    (k : Reply c → Calls C Reply A) (a : A)
    → (b ≡ true → P c)
    → ((r : Reply c) → AllCalls P (k r))
    → AllCalls P (if b then call c k else done a)
AllCalls-if P true c k a h rest = (h refl, rest)
AllCalls-if P false c k a h rest = tt

abbrev pub SendsMsg : {Res : Type 0} → ServerCall Res → Type 0
SendsMsg (send resp) = has_msg resp ≡ true

abbrev pub BidiSendsMsg : {Res : Type 0} → BidiCall Res → Type 0
BidiSendsMsg receive = Unit
BidiSendsMsg (send resp) = has_msg resp ≡ true

module _ {Res : Type 0} where
  send_checked-SendsMsg : (resp : AnyResponse Res) → AllCalls SendsMsg (send_checked resp)
  unfolding send_checked
  send_checked-SendsMsg resp =
      elim (cast_response resp)
        as (λ r. AllCalls SendsMsg (elim r as (λ _. ServerStream Res (Option Error)) [
          | err e ↦ done (some e)
          | ok typed ↦
              if has_msg typed then call (send typed) done else done (some nil_response_error)
        ])) [
          | err e ↦ tt
          | ok typed ↦
              AllCalls-if SendsMsg (has_msg typed) (send typed) done (some nil_response_error)
                (λ e. e) (λ r. tt)
        ]

  bidi_translate-SendsMsg :
      (Req : Type 0) (t : ServerStream Res (Option Error))
      → AllCalls SendsMsg t
      → AllCalls (BidiSendsMsg {Res = Res}) (translate (bidi_send {Req = Req}) t)
  unfolding translate bidi_send ◌>>=◌
  bidi_translate-SendsMsg Req (done a) h = tt
  bidi_translate-SendsMsg Req (call (send resp) k) h =
      (h.0, λ r. bidi_translate-SendsMsg Req (k r) (h.1 r))

  bidi_conn-SendsMsg :
      (Req : Type 0) (spec : CallSpec) (c : ConnCall Res)
      → AllCalls BidiSendsMsg (bidi_conn {Req = Req} spec c)
  unfolding bidi_conn
  bidi_conn-SendsMsg Req spec receive = (tt, λ r. tt)
  bidi_conn-SendsMsg Req spec (send resp) =
      bidi_translate-SendsMsg Req (send_checked resp) (send_checked-SendsMsg resp)

module _ {Req Res : Type 0} where
  server_stream_conn-SendsMsg :
      (spec : CallSpec) (req : Option (Request Req)) (s : Bool) (c : ConnCall Res)
      → AllCalls SendsMsg (server_stream_conn spec req s c)
  unfolding server_stream_conn
  server_stream_conn-SendsMsg spec req s receive = tt
  server_stream_conn-SendsMsg spec req s (send resp) =
      AllCalls-bind SendsMsg (send_checked resp) (λ e. done (e, s)) (send_checked-SendsMsg resp)
        (λ e. tt)

  pub invoke_server_stream-SendsMsg :
      (spec : CallSpec) (req : Option (Request Req)) (handler : ServerStreamHandler Req Res)
      (is : Interceptors (HandlerFunc Req Res))
      → AllCalls SendsMsg (invoke_server_stream spec req handler is)
  unfolding invoke_server_stream
  invoke_server_stream-SendsMsg spec req handler is =
      AllCalls-bind SendsMsg
        (serve (server_stream_conn spec req) false
          (chain_interceptors (server_stream_inner handler) is))
        (λ x. done x.0)
        (AllCalls-serve SendsMsg (server_stream_conn spec req) false
          (chain_interceptors (server_stream_inner handler) is)
          (server_stream_conn-SendsMsg spec req))
        (λ x. tt)

  pub invoke_bidi-SendsMsg :
      (spec : CallSpec) (handler : BidiStreamHandler Req Res)
      (is : Interceptors (HandlerFunc Req Res))
      → AllCalls BidiSendsMsg (invoke_bidi spec handler is)
  unfolding invoke_bidi
  invoke_bidi-SendsMsg spec handler is =
      AllCalls-translate BidiSendsMsg (bidi_conn spec) (chain_interceptors (bidi_inner handler) is)
        (bidi_conn-SendsMsg Req spec)
