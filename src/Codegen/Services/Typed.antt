-- ===== src/Codegen/Services/Typed.antt =====
-- The printed code of a service fits the functions of the transports that it calls.
use mathlib.Core.Path.{subst}
use procframe.Prelude.{
  ℕ, zero, suc, map, ◌≡◌, refl, ap, ◌∙◌, String, Bool, true, false, Option, none, some, List, [],
  ◌∷◌, ◌==◌, if◌then◌else◌,
}
use procframe.Codegen.Descriptors.{ProtoMethod, ProtoService}
use procframe.Codegen.Options.{method_shape, extract_method_info}
use procframe.Codegen.Services.WsClient.{
  ws_type, Argument, ctx, conn, req, quoted, Method, ws_signature, ws_method, ws_client_method,
}
use procframe.Codegen.Services.{
  text, connection, GoType, message, pointer, context, error, one, two, Signature, by_shape,
  procframe_type, handler_signature, ws_registration, connect_registration,
}
use procframe.Codegen.Services.Kept.{extract-Keeps}

-- What a call of a function fits: the parameters and the results of a function value.
pub record FunctionType : Type 0 where
  pub params : List GoType
  pub results : List GoType

abbrev pub type_of : Signature → FunctionType
type_of s = record { params = s.params; results = s.results }

-- The type of the handler that `HandleUnary`, `HandleServerStream`, `HandleClientStream` and `HandleBidi`
-- of transport/ws take, and the constructors of transport/connect alike.
abbrev pub unary_handler_type : String → String → FunctionType
unary_handler_type input output = record {
  params = context ∷ pointer (procframe_type "Request" (one (message input))) ∷ [];
  results = pointer (procframe_type "Response" (one (message output))) ∷ error ∷ [];
}

abbrev pub server_stream_handler_type : String → String → FunctionType
server_stream_handler_type input output = record {
  params =
      context
      ∷ pointer (procframe_type "Request" (one (message input)))
      ∷ procframe_type "ServerStream" (one (message output))
      ∷ [];
  results = error ∷ [];
}

abbrev pub client_stream_handler_type : String → String → FunctionType
client_stream_handler_type input output = record {
  params = context ∷ procframe_type "ClientStream" (one (message input)) ∷ [];
  results = pointer (procframe_type "Response" (one (message output))) ∷ error ∷ [];
}

abbrev pub bidi_handler_type : String → String → FunctionType
bidi_handler_type input output = record {
  params = context ∷ procframe_type "BidiStream" (two (message input) (message output)) ∷ [];
  results = error ∷ [];
}

-- The functions by name; there is no other.
unfoldable pub handler_param : String → String → String → Option FunctionType
handler_param function input output =
    if function == "HandleUnary"
    then some (unary_handler_type input output)
    else if function == "HandleServerStream"
    then some (server_stream_handler_type input output)
    else if function == "HandleClientStream"
    then some (client_stream_handler_type input output)
    else if function == "HandleBidi"
    then some (bidi_handler_type input output)
    else if function == "NewUnaryHandler"
    then some (unary_handler_type input output)
    else if function == "NewServerStreamHandler"
    then some (server_stream_handler_type input output)
    else if function == "NewClientStreamHandler"
    then some (client_stream_handler_type input output)
    else if function == "NewBidiStreamHandler"
    then some (bidi_handler_type input output)
    else none

-- The types of the calls of transport/ws with their two type arguments, `Req` and `Res`; there is no
-- other call.
abbrev call_of : String → GoType → GoType → Option FunctionType
call_of function req_type res_type =
    if function == "CallUnary"
    then some (record {
      params = context ∷ pointer connection ∷ text ∷ pointer req_type ∷ [];
      results = pointer res_type ∷ error ∷ [];
    })
    else if function == "CallServerStream"
    then some (record {
      params = context ∷ pointer connection ∷ text ∷ pointer req_type ∷ [];
      results = ws_type "ServerStream" (one res_type) ∷ error ∷ [];
    })
    else if function == "CallClientStream"
    then some (record {
      params = context ∷ pointer connection ∷ text ∷ [];
      results = ws_type "ClientStream" (two req_type res_type) ∷ error ∷ [];
    })
    else if function == "CallBidi"
    then some (record {
      params = context ∷ pointer connection ∷ text ∷ [];
      results = ws_type "BidiStream" (two req_type res_type) ∷ error ∷ [];
    })
    else none

unfoldable pub call_type : String → List GoType → Option FunctionType
call_type function [] = none
call_type function (req_type ∷ []) = none
call_type function (req_type ∷ res_type ∷ []) = call_of function req_type res_type
call_type function (a ∷ b ∷ c ∷ more) = none

-- The types of the arguments in the body of a method, whose parameters are `ctx` and `req`.
abbrev pub param_type : ℕ → List GoType → Option GoType
param_type n [] = none
param_type zero (t ∷ ts) = some t
param_type (suc n) (t ∷ ts) = param_type n ts

abbrev pub arg_type : List GoType → Argument → Option GoType
arg_type params ctx = param_type 0 params
arg_type params req = param_type 1 params
arg_type params conn = some (pointer connection)
arg_type params (quoted s) = some text

-- The third argument of a call of transport/ws.
abbrev pub procedure_of : List Argument → Option String
procedure_of [] = none
procedure_of (a ∷ []) = none
procedure_of (a ∷ b ∷ []) = none
procedure_of (a ∷ b ∷ quoted procedure ∷ args) = some procedure
procedure_of (a ∷ b ∷ ctx ∷ args) = none
procedure_of (a ∷ b ∷ conn ∷ args) = none
procedure_of (a ∷ b ∷ req ∷ args) = none

-- The two registrations take a handler of the type that the interface gives it.
ws-typed :
    (name input output : String) (cs ss : Bool)
    → handler_param
        (by_shape
          (method_shape cs ss)
          "HandleClientStream"
          "HandleServerStream"
          "HandleBidi"
          "HandleUnary")
        input
        output
      ≡ some (type_of (handler_signature name input output (method_shape cs ss)))
unfolding handler_param method_shape
ws-typed name input output true true = refl
ws-typed name input output true false = refl
ws-typed name input output false true = refl
ws-typed name input output false false = refl

connect-typed :
    (name input output : String) (cs ss : Bool)
    → handler_param
        (by_shape
          (method_shape cs ss)
          "NewClientStreamHandler"
          "NewServerStreamHandler"
          "NewBidiStreamHandler"
          "NewUnaryHandler")
        input
        output
      ≡ some (type_of (handler_signature name input output (method_shape cs ss)))
unfolding handler_param method_shape
connect-typed name input output true true = refl
connect-typed name input output true false = refl
connect-typed name input output false true = refl
connect-typed name input output false false = refl

-- A method of the client of transport/ws: its head is what the interface has, the arguments of its call
-- have the types of the parameters, what the call returns is what the method returns, and the call is of
-- the procedure.
abbrev pub FitsCall : Option Signature → String → Option Method → Type 0
FitsCall interface procedure none = ⊥
FitsCall interface procedure (some m) =
    (interface ≡ some m.head)
    × (procedure_of m.body.args ≡ some procedure)
    × (type : FunctionType) × (call_type m.body.function m.body.type_args ≡ some type)
    × (map (arg_type m.head.params) m.body.args ≡ map some type.params)
    × (type.results ≡ m.head.results)

client-fits :
    (name procedure input output : String) (cs ss : Bool)
    → FitsCall
        (ws_signature name input output (method_shape cs ss))
        procedure
        (ws_method name input output procedure (method_shape cs ss))
unfolding call_type method_shape ws_signature ws_method
client-fits name procedure input output true true = (refl, refl, _, refl, refl, refl)
client-fits name procedure input output true false = (refl, refl, _, refl, refl, refl)
client-fits name procedure input output false true = (refl, refl, _, refl, refl, refl)
client-fits name procedure input output false false = (refl, refl, _, refl, refl, refl)

-- What is printed for one method of a service type-checks where it meets the transports: the handlers of
-- transport/ws and of transport/connect that it is registered with take a function of the type that the
-- handler interface gives the method; and the method of the client of transport/ws is there, its head is
-- the signature of the client's interface, which is printed apart, and its body is a call of the method's
-- procedure with type arguments and arguments that the called function takes, which returns what the
-- head says.
pub generated-IsTyped :
    (svc : ProtoService) (m : ProtoMethod)
    → (handler_param
          (ws_registration (extract_method_info svc m)).function
          m.input_go_name
          m.output_go_name
        ≡ some (
            type_of (
              handler_signature m.go_name m.input_go_name m.output_go_name
                (method_shape m.streaming_client m.streaming_server))))
      × (handler_param
            (connect_registration (extract_method_info svc m)).function
            m.input_go_name
            m.output_go_name
          ≡ some (
              type_of (
                handler_signature m.go_name m.input_go_name m.output_go_name
                  (method_shape m.streaming_client m.streaming_server))))
      × FitsCall
          (ws_signature m.go_name m.input_go_name m.output_go_name
            (extract_method_info svc m).shape)
          (extract_method_info svc m).full_name
          (ws_client_method (extract_method_info svc m))
unfolding ws_registration connect_registration ws_client_method
generated-IsTyped svc m =
    let info = extract_method_info svc m in
    let i = m.input_go_name in
    let o = m.output_go_name in
    let cs = m.streaming_client in
    let ss = m.streaming_server in
    let (name, input, output, shape) = extract-Keeps svc m in
    let same : ◌≡◌ {A = String × String × String × String} (m.go_name, i, o, method_shape cs ss)
        (info.go_name, info.input_go_name, info.output_go_name, info.shape) =
      cc (name, input, output, shape) in
    (
      ap
            (λ s.
              handler_param
                (by_shape s "HandleClientStream" "HandleServerStream" "HandleBidi" "HandleUnary") i
                o)
            shape
          ∙ ws-typed m.go_name i o cs ss,
      ap
            (λ s.
              handler_param
                (by_shape s "NewClientStreamHandler" "NewServerStreamHandler" "NewBidiStreamHandler"
                  "NewUnaryHandler")
                i o)
            shape
          ∙ connect-typed m.go_name i o cs ss,
      subst
          (λ (q : String × String × String × String).
            FitsCall (ws_signature m.go_name i o q.3) info.full_name
              (ws_method q.0 q.1 q.2 info.full_name q.3))
          same (client-fits m.go_name info.full_name i o cs ss),
    )
