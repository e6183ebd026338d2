-- ===== src/Codegen/Services/Served.antt =====
-- The calls of the printed client of transport/ws meet the handlers of the printed registration.
use mathlib.Core.Path.{subst}
use procframe.Prelude.{
  ◌≡◌, refl, sym, ap, ◌∙◌, String, Bool, true, false, none, some, List, [], ◌∷◌, ◌==◌, arith, All,
  if◌then◌else◌, if-true, if-false, Bool-cases, inl, inr, map, lookup, insert,
}
use procframe.Prelude.Distinct.{Distinct, lookup-insert_self, lookup-insert_other}
use procframe.Interceptor.Message.{
  shape_unary, shape_server_stream, shape_client_stream, shape_bidi,
}
use procframe.Ws.Session.{SessionCode}
use procframe.Ws.Server.{HandlerEntry}
use procframe.Codegen.Tree.{MethodInfo}
use procframe.Codegen.Descriptors.{ProtoMethod, ProtoService}
use procframe.Codegen.Options.{method_shape, extract_method_info}
use procframe.Codegen.Services.WsClient.{
  Method, ws_method, ws_client_method, some_methods, ws_client_methods, generate_ws_client,
}
use procframe.Codegen.Services.Typed.{procedure_of}
use procframe.Codegen.Services.{Registration, by_shape, ws_registration, enabled, generate_ws}
use procframe.Codegen.Services.Kept.{extract-Keeps}

-- The shape with which a `Handle` function registers, and the one with which a call opens its session.
unfoldable pub registered_shape : String → String
registered_shape function =
    if function == "HandleServerStream"
    then shape_server_stream
    else if function == "HandleClientStream"
    then shape_client_stream
    else if function == "HandleBidi"
    then shape_bidi
    else shape_unary

unfoldable pub opened_shape : String → String
opened_shape function =
    if function == "CallServerStream"
    then shape_server_stream
    else if function == "CallClientStream"
    then shape_client_stream
    else if function == "CallBidi"
    then shape_bidi
    else shape_unary

-- The procedures of registrations.
abbrev pub procedures : List MethodInfo → List (String × Unit {0})
procedures [] = []
procedures (m ∷ ms) = (m.full_name, tt) ∷ procedures ms

abbrev pub HasShape : MethodInfo → Type 0
HasShape m = (cs : Bool) × (ss : Bool) × (m.shape ≡ method_shape cs ss)

-- The methods of a service, as they are read from its descriptor.
abbrev pub methods_of : ProtoService → List ProtoMethod → List MethodInfo
methods_of svc [] = []
methods_of svc (m ∷ ms) = extract_method_info svc m ∷ methods_of svc ms

enabled-HasShape :
    (svc : ProtoService) (ms : List ProtoMethod)
    → All HasShape (enabled (λ m. m.ws) (methods_of svc ms))
unfolding enabled
enabled-HasShape svc [] = tt
enabled-HasShape svc (m ∷ ms) =
    let (name, input, output, shape) = extract-Keeps svc m in
    elim (Bool-cases (extract_method_info svc m).ws) [
      | inl on ↦
          subst (All HasShape) (sym (if-true _ _ on))
            ((m.streaming_client, m.streaming_server, shape), enabled-HasShape svc ms)
      | inr off ↦ subst (All HasShape) (sym (if-false _ _ off)) (enabled-HasShape svc ms)
    ]

-- `run` is the code of the method of that name, with its interceptors and its codecs.
module _ (run : String → String → SessionCode (Unit {0})) where
  abbrev pub entry_of : Registration → HandlerEntry
  entry_of r = record { shape = registered_shape r.function; run = run r.method }

  -- What the registrations leave in the map of a server.
  unfoldable pub register :
      List Registration → List (String × HandlerEntry) → List (String × HandlerEntry)
  register [] handlers = handlers
  register (r ∷ rs) handlers = register rs (insert r.procedure (entry_of r) handlers)

  -- The call finds the handler of its method, registered with the shape that the call opens.
  abbrev pub IsServed : List (String × HandlerEntry) → Method → Type 0
  IsServed handlers c =
      (procedure : String) × (procedure_of c.body.args ≡ some procedure)
      × (entry : HandlerEntry) × (lookup procedure handlers ≡ some entry)
      × (entry.shape ≡ opened_shape c.body.function)
      × (entry.run ≡ run c.head.name)

  register-other :
      (k : String) (ms : List MethodInfo) (handlers : List (String × HandlerEntry))
      → lookup k (procedures ms) ≡ none
      → lookup k (register (map ws_registration ms) handlers) ≡ lookup k handlers
  unfolding register ws_registration lookup
  register-other k [] handlers absent = refl
  register-other k (m ∷ ms) handlers absent =
      let entry = entry_of (ws_registration m) in
      register-other k ms (insert m.full_name entry handlers) (ground arith)
      ∙ lookup-insert_other m.full_name k entry handlers (ground arith)

  method-IsServed :
      (m : MethodInfo) (handlers : List (String × HandlerEntry)) (cs ss : Bool)
      → lookup m.full_name handlers
        ≡ some (record {
          shape = registered_shape (
              by_shape
                (method_shape cs ss)
                "HandleClientStream"
                "HandleServerStream"
                "HandleBidi"
                "HandleUnary");
          run = run m.go_name;
        })
      → (rest : List Method) → All (IsServed handlers) rest
      → All (IsServed handlers) (
          some_methods
            (ws_method m.go_name m.input_go_name m.output_go_name m.full_name (method_shape cs ss))
            rest)
  unfolding registered_shape opened_shape method_shape some_methods ws_method
  method-IsServed m handlers true true there rest all =
      ((m.full_name, refl, _, there, refl, refl), all)
  method-IsServed m handlers true false there rest all =
      ((m.full_name, refl, _, there, refl, refl), all)
  method-IsServed m handlers false true there rest all =
      ((m.full_name, refl, _, there, refl, refl), all)
  method-IsServed m handlers false false there rest all =
      ((m.full_name, refl, _, there, refl, refl), all)

  methods-IsServed :
      (ms : List MethodInfo) (handlers : List (String × HandlerEntry))
      → All HasShape ms
      → Distinct (procedures ms)
      → All (IsServed (register (map ws_registration ms) handlers)) (ws_client_methods ms)
  unfolding register ws_registration ws_client_methods ws_client_method
  methods-IsServed [] handlers shapes d = tt
  methods-IsServed (m ∷ ms) handlers shapes d =
      let entry = entry_of (ws_registration m) in
      let later = insert m.full_name entry handlers in
      let final = register (map ws_registration ms) later in
      let (cs, ss, shape) = shapes.0 in
      let there =
        register-other m.full_name ms later d.0 ∙ lookup-insert_self m.full_name entry handlers in
      let rest = methods-IsServed ms later shapes.1 d.1 in
      subst
        (λ s. All (IsServed final) (
          some_methods (ws_method m.go_name m.input_go_name m.output_go_name m.full_name s)
            (ws_client_methods ms)))
        (sym shape)
        (method-IsServed m final cs ss
          (there
            ∙ ap
                (λ s. some (record {
                  shape = registered_shape (
                      by_shape s "HandleClientStream" "HandleServerStream" "HandleBidi"
                        "HandleUnary");
                  run = run m.go_name;
                }))
                shape)
          (ws_client_methods ms) rest)

  -- Where the procedures of a service are distinct, each method of its printed WebSocket client finds, on
  -- a server on which the printed registration has run, the handler of the method of its name, and opens
  -- its session with the shape with which that handler is registered.
  pub generate_ws-IsServed :
      (svc : ProtoService) (ms : List ProtoMethod) (handlers : List (String × HandlerEntry))
      → Distinct (procedures (enabled (λ m. m.ws) (methods_of svc ms)))
      → All
          (IsServed (register (generate_ws (methods_of svc ms)) handlers))
          (generate_ws_client (methods_of svc ms))
  unfolding generate_ws generate_ws_client
  generate_ws-IsServed svc ms handlers d =
      methods-IsServed (enabled (λ m. m.ws) (methods_of svc ms)) handlers (enabled-HasShape svc ms)
        d
