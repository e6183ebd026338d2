-- ===== src/Codegen/Services/WsClient.antt =====
-- internal/codegen/ws_client.go: the interface and the methods of the client of transport/ws.
use procframe.Prelude.{String, Option, none, some, List, [], ◌∷◌, ◌==◌, if◌then◌else◌}
use procframe.Codegen.Tree.{MethodInfo}
use procframe.Codegen.Services.{
  GoType, message, pointer, generic, context, error, one, two, Arguments, Signature, by_shape,
  enabled,
}

abbrev pub ws_type : String → Arguments → GoType
ws_type name arguments = generic "ws" name arguments

-- The arguments of a call: the parameters `ctx` and `req` of the method, the field `conn` of the client,
-- and a quoted text.
pub data Argument : Type 0 where
  ctx conn req : Argument
  quoted : String → Argument

pub record Call : Type 0 where
  pub function : String
  pub type_args : List GoType
  pub args : List Argument

-- A method with its head and the call that its body returns.
pub record Method : Type 0 where
  pub head : Signature
  pub body : Call

-- The signature that `emitWSClientInterfaceMethod` prints for a shape, which is nothing for an unknown one.
unfoldable pub ws_signature : String → String → String → String → Option Signature
ws_signature name input_name output_name shape =
    let input = message input_name in
    let output = message output_name in
    by_shape shape
      (some (record {
        name = name;
        params = context ∷ [];
        results = ws_type "ClientStream" (two input output) ∷ error ∷ [];
      }))
      (some (record {
        name = name;
        params = context ∷ pointer input ∷ [];
        results = ws_type "ServerStream" (one output) ∷ error ∷ [];
      }))
      (some (record {
        name = name;
        params = context ∷ [];
        results = ws_type "BidiStream" (two input output) ∷ error ∷ [];
      }))
      (if shape == "unary"
        then some (record {
          name = name;
          params = context ∷ pointer input ∷ [];
          results = pointer output ∷ error ∷ [];
        })
        else none)

-- What `emitWSClientMethodImpl` prints for a shape, in a switch of its own.
unfoldable pub ws_method : String → String → String → String → String → Option Method
ws_method name input_name output_name procedure shape =
    let input = message input_name in
    let output = message output_name in
    by_shape shape
      (some (record {
        head = record {
          name = name;
          params = context ∷ [];
          results = ws_type "ClientStream" (two input output) ∷ error ∷ [];
        };
        body = record {
          function = "CallClientStream";
          type_args = input ∷ output ∷ [];
          args = ctx ∷ conn ∷ quoted procedure ∷ [];
        };
      }))
      (some (record {
        head = record {
          name = name;
          params = context ∷ pointer input ∷ [];
          results = ws_type "ServerStream" (one output) ∷ error ∷ [];
        };
        body = record {
          function = "CallServerStream";
          type_args = input ∷ output ∷ [];
          args = ctx ∷ conn ∷ quoted procedure ∷ req ∷ [];
        };
      }))
      (some (record {
        head = record {
          name = name;
          params = context ∷ [];
          results = ws_type "BidiStream" (two input output) ∷ error ∷ [];
        };
        body = record {
          function = "CallBidi";
          type_args = input ∷ output ∷ [];
          args = ctx ∷ conn ∷ quoted procedure ∷ [];
        };
      }))
      (if shape == "unary"
        then some (record {
          head = record {
            name = name;
            params = context ∷ pointer input ∷ [];
            results = pointer output ∷ error ∷ [];
          };
          body = record {
            function = "CallUnary";
            type_args = input ∷ output ∷ [];
            args = ctx ∷ conn ∷ quoted procedure ∷ req ∷ [];
          };
        })
        else none)

unfoldable pub ws_client_method : MethodInfo → Option Method
ws_client_method m = ws_method m.go_name m.input_go_name m.output_go_name m.full_name m.shape

-- The methods of the printed client.
unfoldable pub some_methods : Option Method → List Method → List Method
some_methods none rest = rest
some_methods (some m) rest = m ∷ rest

unfoldable pub ws_client_methods : List MethodInfo → List Method
unfolding some_methods
ws_client_methods [] = []
ws_client_methods (m ∷ ms) = some_methods (ws_client_method m) (ws_client_methods ms)

unfoldable pub generate_ws_client : List MethodInfo → List Method
generate_ws_client ms = ws_client_methods (enabled (λ m. m.ws) ms)
