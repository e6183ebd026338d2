-- ===== src/Examples/Handlers.antt =====
-- Calls through the interceptor chain, and sessions, on small handlers.
use procframe.Prelude.{All, ◌≡◌, refl, String, Option, none, some, [], ◌∷◌, true}
use procframe.Errors.{ok, err, plain}
use procframe.Calls.{done, call, translate}
use procframe.Interceptor.Message.{Request, CallSpec, no_meta, shape_unary, transport_ws}
use procframe.Interceptor.Conns.{HandlerFunc, receive, send}
use procframe.Interceptor.Chain.{Interceptors, IsTransparent, wrap_next}
use procframe.Interceptor.Invoke.{
  UnaryHandler, ClientStreamHandler, ServerStreamHandler, BidiStreamHandler, invoke_server_stream,
  invoke_bidi,
}
use procframe.Interceptor.Transparency.{
  guard_send, guard_bidi, invoke_server_stream-transparent, invoke_bidi-transparent,
}
use procframe.Ws.Session.{Codec}
use procframe.Ws.Run.{Scope, server_stream, run}
use procframe.Ws.Run.Frames.{EndsOnce}
use procframe.Ws.Run.Ends.{run-EndsOnce}

abbrev pub text_codec : Codec String
text_codec = record {
  is_message = true;
  type_name = "*string";
  unmarshal = λ s. ok s;
  marshal = λ m. elim m [ none ↦ ok "null" | some s ↦ ok s ];
}

abbrev pub text_scope : String → Scope String String
text_scope id = record {
  req_codec = text_codec;
  res_codec = text_codec;
  mapper = none;
  interceptors = [];
  procedure = "echo";
  id = id;
}

abbrev some_spec : CallSpec
some_spec = record { procedure = "echo"; transport = transport_ws; shape = shape_unary }

abbrev some_request : Option (Request String)
some_request = some (record { msg = some "hello"; meta = no_meta })

-- A handler that sends the message back.
abbrev pub echo : UnaryHandler String String
echo none = (none, some (plain "no request"))
echo (some req) = (some (record { msg = req.msg; meta = req.meta }), none)

-- It answers the first message of the stream.
abbrev echo_first : ClientStreamHandler String String
echo_first = call receive λ r. elim r [ err e ↦ done (none, some e) | ok req ↦ done (echo req) ]

-- It sends the message twice, and between the two a response without a message.
abbrev pub echo_twice : ServerStreamHandler String String
echo_twice none = done (some (plain "no request"))
echo_twice (some req) = call (send (some (record { msg = req.msg; meta = no_meta }))) λ e.
    call (send (some (record { msg = none; meta = no_meta })))
      λ f. call (send (some (record { msg = req.msg; meta = no_meta }))) λ g. done g

abbrev pub echo_back : BidiStreamHandler String String
echo_back = call receive λ r. elim r [
  | err e ↦ done (some e)
  | ok none ↦ done (some (plain "no request"))
  | ok (some req) ↦ call (send (some (record { msg = req.msg; meta = no_meta }))) done
]

-- A nil interface, a nil function, and one that calls the rest of the chain as it is.
abbrev pub idle : Interceptors (HandlerFunc String String)
idle = none ∷ some none ∷ some (some (λ next. next)) ∷ []

pub idle-IsTransparent : All IsTransparent idle
unfolding wrap_next
idle-IsTransparent = ((λ n. refl), ((λ n. refl), ((λ n. refl), tt)))

invoke_server_stream-transparent_example :
    invoke_server_stream some_spec some_request echo_twice idle
    ≡ translate guard_send (echo_twice some_request)
invoke_server_stream-transparent_example =
    invoke_server_stream-transparent some_spec some_request echo_twice idle idle-IsTransparent

invoke_bidi-transparent_example :
    invoke_bidi some_spec echo_back idle ≡ translate guard_bidi echo_back
invoke_bidi-transparent_example =
    invoke_bidi-transparent some_spec echo_back idle idle-IsTransparent

run-EndsOnce_example : EndsOnce "s-1" (run (text_scope "s-1") (server_stream echo_twice))
run-EndsOnce_example = run-EndsOnce (text_scope "s-1") (server_stream echo_twice)
