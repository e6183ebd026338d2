-- ===== src/Codegen/Services.antt =====
-- internal/codegen/handler.go, connect.go, connect_client.go, ws.go and ws_client.go: the declarations that
-- are printed for a service, as data: the signatures of the methods, the calls that register them, and the
-- calls in the methods of the clients.
pub mod WsClient
pub mod Typed
pub mod Served
pub mod Kept
use procframe.Prelude.{
  String, Bool, true, false, Option, none, some, List, [], ◌∷◌, ◌==◌, map, if◌then◌else◌,
}
use procframe.Prelude.Text.{◌+++◌}
use procframe.Codegen.Tree.{MethodInfo}
use procframe.Codegen.Descriptors.{ProtoMethod}
use procframe.Codegen.Options.{method_shape}

-- A Go type; `text` is `string`, `connection` is `ws.Conn`, and `generic` is a type of the package of that name with its arguments.
mutual
  pub data GoType : Type 0 where
    message : String → GoType
    pointer : GoType → GoType
    generic : String → String → Arguments → GoType
    context error text connection : GoType

  pub data Arguments : Type 0 where
    one : GoType → Arguments
    two : GoType → GoType → Arguments

pub record Signature : Type 0 where
  pub name : String
  pub params : List GoType
  pub results : List GoType

-- A call that registers `h.<method>`: the function of the transport's package, and the procedure.
pub record Registration : Type 0 where
  pub function : String
  pub procedure : String
  pub method : String

-- A method of the client for Connect, with the method of connect-go that it calls, and the procedure of
-- the client of connect-go that the constructor makes for it.
pub record ClientMethod : Type 0 where
  pub signature : Signature
  pub calls : String
  pub procedure : String

-- The switch over a shape, with its default for any other text.
abbrev pub by_shape : {A : Type 0} → String → A → A → A → A → A
by_shape shape client_stream server_stream bidi otherwise =
    if shape == "client_stream"
    then client_stream
    else if shape == "server_stream"
    then server_stream
    else if shape == "bidi"
    then bidi
    else otherwise

abbrev pub procframe_type : String → Arguments → GoType
procframe_type name arguments = generic "procframe" name arguments

-- The method of the handler interface that `generateHandler` prints for a shape.
abbrev pub handler_signature : String → String → String → String → Signature
handler_signature name input_name output_name shape =
    let input = message input_name in
    let output = message output_name in
    let request = pointer (procframe_type "Request" (one input)) in
    let response = pointer (procframe_type "Response" (one output)) in
    by_shape shape
      (record {
        name = name;
        params = context ∷ procframe_type "ClientStream" (one input) ∷ [];
        results = response ∷ error ∷ [];
      })
      (record {
        name = name;
        params = context ∷ request ∷ procframe_type "ServerStream" (one output) ∷ [];
        results = error ∷ [];
      })
      (record {
        name = name;
        params = context ∷ procframe_type "BidiStream" (two input output) ∷ [];
        results = error ∷ [];
      })
      (record { name = name; params = context ∷ request ∷ []; results = response ∷ error ∷ [] })

unfoldable pub generate_handler : List ProtoMethod → List Signature
generate_handler [] = []
generate_handler (m ∷ ms) =
    handler_signature m.go_name m.input_go_name m.output_go_name
      (method_shape m.streaming_client m.streaming_server)
    ∷ generate_handler ms

-- The function that `generateWS` and `emitConnectHandlerRegistration` print for a method.
unfoldable pub ws_registration : MethodInfo → Registration
ws_registration m = record {
  function = by_shape m.shape "HandleClientStream" "HandleServerStream" "HandleBidi" "HandleUnary";
  procedure = m.full_name;
  method = m.go_name;
}

unfoldable pub connect_registration : MethodInfo → Registration
connect_registration m = record {
  function =
      by_shape m.shape "NewClientStreamHandler" "NewServerStreamHandler" "NewBidiStreamHandler"
        "NewUnaryHandler";
  procedure = m.full_name;
  method = m.go_name;
}

-- The loops over the methods, which skip those that a transport does not serve.
unfoldable pub enabled : (MethodInfo → Bool) → List MethodInfo → List MethodInfo
enabled on [] = []
enabled on (m ∷ ms) = let rest = enabled on ms in if on m then m ∷ rest else rest

unfoldable pub generate_ws : List MethodInfo → List Registration
generate_ws ms = map ws_registration (enabled (λ m. m.ws) ms)

unfoldable pub generate_connect : List MethodInfo → List Registration
generate_connect ms = map connect_registration (enabled (λ m. m.connect) ms)

-- `hasWsMethods` and `hasConnectMethods`.
unfoldable pub has_methods : (MethodInfo → Bool) → List MethodInfo → Bool
has_methods on [] = false
has_methods on (m ∷ ms) = let rest = has_methods on ms in if on m then true else rest

abbrev connect_type : String → Arguments → GoType
connect_type name arguments = generic "connect" name arguments

-- `emitClientInterfaceMethod` and the head that `emitClientMethodImpl` prints.
abbrev pub connect_signature : String → String → String → String → Signature
connect_signature name input_name output_name shape =
    let input = message input_name in
    let output = message output_name in
    let request = pointer (connect_type "Request" (one input)) in
    by_shape shape
      (record {
        name = name;
        params = context ∷ [];
        results = pointer (connect_type "ClientStreamForClient" (two input output)) ∷ [];
      })
      (record {
        name = name;
        params = context ∷ request ∷ [];
        results = pointer (connect_type "ServerStreamForClient" (one output)) ∷ error ∷ [];
      })
      (record {
        name = name;
        params = context ∷ [];
        results = pointer (connect_type "BidiStreamForClient" (two input output)) ∷ [];
      })
      (record {
        name = name;
        params = context ∷ request ∷ [];
        results = pointer (connect_type "Response" (one output)) ∷ error ∷ [];
      })

-- `emitClientMethodImpl`, with the procedure that the constructor gives to the client of the method.
unfoldable pub connect_client_method : MethodInfo → ClientMethod
connect_client_method m = record {
  signature = connect_signature m.go_name m.input_go_name m.output_go_name m.shape;
  calls = by_shape m.shape "CallClientStream" "CallServerStream" "CallBidiStream" "CallUnary";
  procedure = m.full_name;
}

unfoldable pub generate_connect_client : List MethodInfo → List ClientMethod
generate_connect_client ms = map connect_client_method (enabled (λ m. m.connect) ms)
