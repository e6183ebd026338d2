-- ===== src/Cli/MapError.antt =====
-- transport/cli/runner.go, `mapError`: the status that the runner reports for an error, and the
-- error that it returns.
use procframe.Prelude.{Option, none, some, if◌then◌else◌}
use procframe.Errors.{
  Status, Error, ErrorMapper, StatusError, as_error, wrap_error, with_retryable, status_of,
}

-- The error that wraps `e` with the mapper's status.
unfoldable pub mapped : Status → Error → StatusError
mapped status e =
    let wrapped = wrap_error status.code status.message e in
    if status.retryable then with_retryable wrapped else wrapped

map_by : Error → Option ErrorMapper → Option Status × Error
map_by e none = (none, e)
map_by e (some mapper) = elim (mapper e) [
  | none ↦ (none, e)
  | some status ↦ (some status, as_error (mapped status e))
]

-- `mapError`: the Boolean of the source is whether a status is there.
unfoldable pub map_error : Option ErrorMapper → Error → Option Status × Error
unfolding map_by
map_error mapper e = elim (status_of e) [ none ↦ map_by e mapper | some status ↦ (some status, e) ]
