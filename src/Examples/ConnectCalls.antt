-- ===== src/Examples/ConnectCalls.antt =====
-- The Connect handlers on small handlers of the application.
use procframe.Prelude.{◌≡◌, refl, String, none, some, [], ◌∷◌, arith, lookup}
use procframe.Errors.{Result, plain}
use procframe.Calls.{done, AllCalls}
use procframe.Ws.Run.{unary}
use procframe.Ws.Server.{handle}
use procframe.Ws.Server.Steps.{start}
use procframe.Ws.Client.Call.{call_unary}
use procframe.Ws.Wire.{play}
use procframe.Connect.Handlers.{
  Options, with_error_mapper, with_interceptors, apply_options, build_options, new_unary_handler,
  new_server_stream_handler, new_bidi_stream_handler,
}
use procframe.Connect.Handlers.Safe.{IsSafe, stream_handlers-IsSafe}
use procframe.Connect.Handlers.Agree.{shown, unary_transports-agree}
use procframe.Interceptor.Invoke.{UnaryHandler}
use procframe.Examples.Handlers.{text_codec, echo_twice, echo_back, idle, idle-IsTransparent}
use procframe.Examples.Clients.{empty_server, idle_scope, text-Agrees}

-- The last option of a kind counts.
abbrev some_options : Options String String
some_options = record { error_mapper = none; interceptors = idle }

options_example :
    build_options (with_interceptors [] ∷ with_error_mapper none ∷ with_interceptors idle ∷ [])
    ≡ some_options
unfolding build_options apply_options with_error_mapper with_interceptors
options_example = refl

stream_handlers-IsSafe_example :
    AllCalls IsSafe (new_server_stream_handler "echo" some_options echo_twice (some "hello"))
    × AllCalls IsSafe (new_bidi_stream_handler "echo" some_options echo_back)
stream_handlers-IsSafe_example =
    stream_handlers-IsSafe "echo" some_options echo_twice (some "hello") echo_back

-- A handler that looks at the message only.
abbrev greet : UnaryHandler String String
greet none = (none, some (plain "no request"))
greet (some req) = elim req.msg [
  | none ↦ (none, some (plain "no message"))
  | some s ↦ (
    some (record {
      msg = some s;
      meta = record { procedure = ""; request_id = ""; session_id = ""; labels = [] };
    }),
    none,
  )
]

unary_transports-agree_example :
    (r : Result String) × (play
        (handle empty_server idle_scope (unary greet))
        start
        text_codec
        "s-1"
        (call_unary text_codec "echo" (some "hello"))
        []
      ≡ some r)
    × (new_unary_handler "echo" some_options greet (some "hello") ≡ done (shown r))
unfolding lookup
unary_transports-agree_example =
    unary_transports-agree empty_server start idle_scope some_options greet text_codec text_codec
      (λ s. s) (λ s. s) "s-1" "hello" text-Agrees text-Agrees idle-IsTransparent idle-IsTransparent
      refl refl (omega arith) refl refl
