-- ===== src/Boundary.antt =====
-- The three transports classify an error alike: runner.go `mapError`, ws/errors.go `toErrorFrame` and
-- connect/errors.go `toConnectError` against one description of what an error means at a boundary.
use procframe.Prelude.{
  ℕ, ◌≡◌, refl, ◌≤◌, ◌⊎◌, inl, inr, String, false, Option, none, some, List, [], ◌∷◌, arith, eq_iff,
  if◌then◌else◌, eqb, contains, Option-cases,
}
use procframe.Errors.{
  Code, Status, Error, status_error, cause, ErrorMapper, invalid_argument, not_found, internal,
  unauthenticated, unavailable, already_exists, permission_denied, conflict, status_of, error_text,
  wrap_error, with_retryable,
}
use procframe.Cli.ExitCode.{exit_code}
use procframe.Cli.MapError.{mapped, map_error}
use procframe.Connect.Errors.{
  ConnectCode, ConnectError, map_code, to_connect_error, code_invalid_argument, code_not_found,
  code_internal, code_unauthenticated, code_unavailable, code_already_exists,
  code_permission_denied, code_aborted,
}
use procframe.Ws.Frame.{ErrorDetail, error_frame, to_error_frame}

-- What an error means at a boundary: the status in its chain, else what the mapper says.
unfoldable pub classify : Option ErrorMapper → Error → Option Status
classify mapper e = elim (status_of e) [
  | some status ↦ some status
  | none ↦ elim mapper [ none ↦ none | some m ↦ m e ]
]

-- The status that a client is told when nothing classifies the error.
abbrev pub reported : Error → Option Status → Status
reported e (some status) = status
reported e none = record { code = internal; message = error_text e; retryable = false }

abbrev pub detail : Status → ErrorDetail
detail s = record { code = s.code; message = s.message; retryable = s.retryable }

abbrev pub connect_error : Status → ConnectError
connect_error s = record { code = map_code s.code; message = s.message }

map_code-internal : map_code internal ≡ code_internal
unfolding map_code
map_code-internal = refl

-- One error means the same in all three transports: the WebSocket error frame, the Connect error
-- and the CLI's status are those of `classify`, and an error that nothing classifies is reported as
-- `internal` with its own text, and as no status by the CLI.
pub transports_agree :
    (mapper : Option ErrorMapper) (id : String) (e : Error)
    → let status = reported e (classify mapper e) in
      (to_error_frame id e mapper ≡ error_frame id (detail status))
      × (to_connect_error e mapper ≡ connect_error status)
      × ((map_error mapper e).0 ≡ classify mapper e)
unfolding to_error_frame to_connect_error map_error classify
transports_agree none id e = (ground arith, ground (arith, map_code-internal), ground arith)
transports_agree (some m) id e = (ground arith, ground (arith, map_code-internal), ground arith)

mapped-status : (s : Status) (e : Error) → (mapped s e).status ≡ s
unfolding mapped wrap_error with_retryable
mapped-status s e = ground arith

mapped-cause : (s : Status) (e : Error) → (mapped s e).cause_of ≡ cause e
unfolding mapped wrap_error with_retryable
mapped-cause s e = ground arith

map_error_carries_mapped :
    (m : ErrorMapper) (e : Error)
    → status_of e ≡ none
    → let (status, returned) = map_error (some m) e in
      (status_of returned ≡ status)
      × ((returned ≡ e) ⊎ ((s : Status) × (returned ≡ status_error s (cause e))))
unfolding map_error status_of
map_error_carries_mapped m e h = elim (Option-cases (m e)) [
  | inl unmapped ↦ (ground arith, ground arith)
  | inr (s, found) ↦ (
    ground (arith, mapped-status s e),
    inr (s, ground (arith, mapped-status s e, mapped-cause s e)),
  )
]

-- The error that the CLI runner returns carries the very status that the runner reports, also where
-- a mapper supplied it, and it is the handler's error or wraps it directly.
pub map_error_carries :
    (mapper : Option ErrorMapper) (e : Error)
    → let (status, returned) = map_error mapper e in
      (status_of returned ≡ status)
      × ((returned ≡ e) ⊎ ((s : Status) × (returned ≡ status_error s (cause e))))
unfolding map_error
map_error_carries none e = (ground arith, ground arith)
map_error_carries (some m) e = elim (Option-cases (status_of e)) [
  | inl unclassified ↦ map_error_carries_mapped m e unclassified
  | inr (s, found) ↦ (ground arith, ground arith)
]

-- The canonical code behind an exit code.
abbrev pub code_of_exit : ℕ → Code
code_of_exit n =
    if eqb n 2
    then invalid_argument
    else if eqb n 3
    then not_found
    else if eqb n 4
    then unauthenticated
    else if eqb n 5
    then permission_denied
    else if eqb n 6
    then conflict
    else if eqb n 7
    then already_exists
    else if eqb n 8
    then unavailable
    else internal

-- The canonical code behind a Connect code.
abbrev pub code_of_connect : ConnectCode → Code
code_of_connect code_invalid_argument = invalid_argument
code_of_connect code_not_found = not_found
code_of_connect code_internal = internal
code_of_connect code_unauthenticated = unauthenticated
code_of_connect code_unavailable = unavailable
code_of_connect code_already_exists = already_exists
code_of_connect code_permission_denied = permission_denied
code_of_connect code_aborted = conflict

abbrev pub canonical : List Code
canonical =
    invalid_argument ∷ not_found ∷ internal ∷ unauthenticated ∷ unavailable ∷ already_exists
    ∷ permission_denied ∷ conflict ∷ []

-- The exit code and the Connect code of a canonical code determine it, and every other code is
-- shown as `internal`. No exit code is 0 or above 8.
pub codes_faithful :
    (c : Code)
    → let shown = if contains c canonical then c else internal in
      (code_of_exit (exit_code c) ≡ shown)
      × (code_of_connect (map_code c) ≡ shown)
      × (1 ≤ exit_code c)
      × (exit_code c ≤ 8)
unfolding exit_code map_code
codes_faithful c = (
  ground (
    arith,
    eq_iff c invalid_argument,
    eq_iff c not_found,
    eq_iff c internal,
    eq_iff c unauthenticated,
    eq_iff c unavailable,
    eq_iff c already_exists,
    eq_iff c permission_denied,
    eq_iff c conflict,
  ),
  ground (
    arith,
    eq_iff c invalid_argument,
    eq_iff c not_found,
    eq_iff c internal,
    eq_iff c unauthenticated,
    eq_iff c unavailable,
    eq_iff c already_exists,
    eq_iff c permission_denied,
    eq_iff c conflict,
  ),
  ground arith,
  ground arith,
)
