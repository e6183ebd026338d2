-- ===== src/Interceptor/Message.antt =====
-- request.go, response.go, meta.go, stream.go, and the views and casts of interceptor.go. A Go
-- pointer is an `Option`. Contexts (deadlines and values) are not modelled.
use procframe.Prelude.{String, Option, none, some, List, []}
use procframe.Prelude.Text.{◌+++◌}
use procframe.Errors.{Error, Result, ok, err, as_error, new_error, internal}

pub record Meta : Type 0 where
  pub procedure : String
  pub request_id : String
  pub session_id : String
  pub labels : List (String × String)

abbrev pub no_meta : Meta
no_meta = record { procedure = ""; request_id = ""; session_id = ""; labels = [] }

pub record Request (T : Type 0) : Type 0 where
  pub msg : Option T
  pub meta : Meta

pub record Response (T : Type 0) : Type 0 where
  pub msg : Option T
  pub meta : Meta

-- `type Transport string` and `type CallShape string`, with their constants.
abbrev pub transport_cli : String
transport_cli = "cli"

abbrev pub transport_connect : String
transport_connect = "connect"

abbrev pub transport_ws : String
transport_ws = "ws"

abbrev pub shape_unary : String
shape_unary = "unary"

abbrev pub shape_client_stream : String
shape_client_stream = "client_stream"

abbrev pub shape_server_stream : String
shape_server_stream = "server_stream"

abbrev pub shape_bidi : String
shape_bidi = "bidi"

pub record CallSpec : Type 0 where
  pub procedure : String
  pub transport : String
  pub shape : String

-- A value of type `any`, as a cast to `*T` sees it: a `*T`, nil included, or a value of another
-- type, of which `%T` prints the name.
pub data Any (T : Type 0) : Type 0 where
  typed : Option T → Any T
  foreign : String → Any T

-- What an interface variable `AnyRequest` holds: nil, the package's own view of a typed request
-- (a pointer that the package never leaves nil), or a value that middleware made.
pub data AnyRequest (T : Type 0) : Type 0 where
  nil_request : AnyRequest T
  request_view : CallSpec → Option (Request T) → AnyRequest T
  other_request : CallSpec → Any T → Meta → AnyRequest T

-- `response_value` is the `responseValue` of NewAnyResponse and NewAnyResponseWithMeta, or a value
-- that middleware made.
pub data AnyResponse (T : Type 0) : Type 0 where
  nil_response : AnyResponse T
  response_view : Option (Response T) → AnyResponse T
  response_value : Any T → Meta → AnyResponse T

unfoldable pub new_any_response : {T : Type 0} → Any T → AnyResponse T
new_any_response msg = response_value msg no_meta

unfoldable pub new_any_response_with_meta : {T : Type 0} → Any T → Meta → AnyResponse T
new_any_response_with_meta msg meta = response_value msg meta

abbrev nil_request_error : Error
nil_request_error = as_error (new_error internal "interceptor passed nil request")

abbrev request_type_error : String → Error
request_type_error name =
    as_error (new_error internal ("interceptor passed unexpected request type " +++ name))

abbrev response_type_error : String → Error
response_type_error name =
    as_error (new_error internal ("interceptor returned unexpected response type " +++ name))

unfoldable pub cast_request : {T : Type 0} → AnyRequest T → Result (Option (Request T))
cast_request nil_request = err nil_request_error
cast_request (request_view spec req) = ok req
cast_request (other_request spec (typed msg) meta) = ok (some (record { msg = msg; meta = meta }))
cast_request (other_request spec (foreign name) meta) = err (request_type_error name)

unfoldable pub cast_response : {T : Type 0} → AnyResponse T → Result (Option (Response T))
cast_response nil_response = ok none
cast_response (response_view resp) = ok resp
cast_response (response_value (typed msg) meta) = ok (some (record { msg = msg; meta = meta }))
cast_response (response_value (foreign name) meta) = err (response_type_error name)

-- `Any()` and `Meta()` of a response, as middleware reads them. `nil` of a view without a response
-- is an untyped nil.
unfoldable pub response_any : {T : Type 0} → AnyResponse T → Any T
response_any nil_response = foreign "<nil>"
response_any (response_view none) = foreign "<nil>"
response_any (response_view (some resp)) = typed resp.msg
response_any (response_value msg meta) = msg

unfoldable pub response_meta : {T : Type 0} → AnyResponse T → Meta
response_meta nil_response = no_meta
response_meta (response_view none) = no_meta
response_meta (response_view (some resp)) = resp.meta
response_meta (response_value msg meta) = meta

unfoldable pub request_any : {T : Type 0} → AnyRequest T → Any T
request_any nil_request = foreign "<nil>"
request_any (request_view spec none) = foreign "<nil>"
request_any (request_view spec (some req)) = typed req.msg
request_any (other_request spec msg meta) = msg

unfoldable pub request_meta : {T : Type 0} → AnyRequest T → Meta
request_meta nil_request = no_meta
request_meta (request_view spec none) = no_meta
request_meta (request_view spec (some req)) = req.meta
request_meta (other_request spec msg meta) = meta
