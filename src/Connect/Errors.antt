-- ===== src/Connect/Errors.antt =====
-- transport/connect/errors.go: an error becomes a Connect error.
use procframe.Prelude.{String, Option, none, some, ◌==◌, if◌then◌else◌}
use procframe.Errors.{
  Code, Status, Error, ErrorMapper, status_of, error_text, invalid_argument, not_found, internal,
  unauthenticated, unavailable, already_exists, permission_denied, conflict,
}

-- The `connect.Code` values that the transport uses.
pub data ConnectCode : Type 0 where
  code_invalid_argument code_not_found code_internal code_unauthenticated : ConnectCode
  code_unavailable code_already_exists code_permission_denied code_aborted : ConnectCode

-- What `connect.NewError` makes of a code and an error: the code and the error's text.
pub record ConnectError : Type 0 where
  pub code : ConnectCode
  pub message : String

unfoldable pub map_code : Code → ConnectCode
map_code code =
    if code == invalid_argument
    then code_invalid_argument
    else if code == not_found
    then code_not_found
    else if code == internal
    then code_internal
    else if code == unauthenticated
    then code_unauthenticated
    else if code == unavailable
    then code_unavailable
    else if code == already_exists
    then code_already_exists
    else if code == permission_denied
    then code_permission_denied
    else if code == conflict
    then code_aborted
    else code_internal

of_status : Status → ConnectError
of_status status = record { code = map_code status.code; message = status.message }

-- The part of `toConnectError` behind a failed `StatusOf`.
of_mapper : Error → Option ErrorMapper → ConnectError
unfolding of_status
of_mapper e none = record { code = code_internal; message = error_text e }
of_mapper e (some mapper) = elim (mapper e) [
  | none ↦ record { code = code_internal; message = error_text e }
  | some status ↦ of_status status
]

unfoldable pub to_connect_error : Error → Option ErrorMapper → ConnectError
unfolding of_status of_mapper
to_connect_error e mapper = elim (status_of e) [
  | none ↦ of_mapper e mapper
  | some status ↦ of_status status
]
