-- ===== src/Examples/Errors.antt =====
-- Errors at the boundary: errors.go, runner.go and the transports' error mapping.
use procframe.Prelude.{◌≡◌, refl, ◌≤◌, ◌⊎◌, none, some, contains, if◌then◌else◌, true}
use procframe.Errors.{
  Status, Error, plain, wrapping, status_error, cause, ErrorMapper, not_found, conflict, internal,
  status_of, wrap_error, as_error, with_retryable, code_of, error_text, unwrap, new_error,
}
use procframe.Cli.ExitCode.{exit_code}
use procframe.Cli.MapError.{map_error}
use procframe.Connect.Errors.{map_code, to_connect_error}
use procframe.Ws.Frame.{error_frame, to_error_frame}
use procframe.Boundary.{
  classify, reported, detail, connect_error, transports_agree, map_error_carries, code_of_exit,
  code_of_connect, canonical, codes_faithful,
}

abbrev missing : Error
missing = plain "no such key"

-- A mapper that knows one error.
abbrev store_mapper : ErrorMapper
store_mapper (plain t) = some (record { code = not_found; message = t; retryable = true })
store_mapper _ = none

transports_agree_example :
    let status = reported missing (classify (some store_mapper) missing) in
    (to_error_frame "s-1" missing (some store_mapper) ≡ error_frame "s-1" (detail status))
    × (to_connect_error missing (some store_mapper) ≡ connect_error status)
    × ((map_error (some store_mapper) missing).0 ≡ classify (some store_mapper) missing)
transports_agree_example = transports_agree (some store_mapper) "s-1" missing

map_error_carries_example :
    let (status, returned) = map_error (some store_mapper) missing in
    (status_of returned ≡ status)
    × ((returned ≡ missing) ⊎ ((s : Status) × (returned ≡ status_error s (cause missing))))
map_error_carries_example = map_error_carries (some store_mapper) missing

codes_faithful_example :
    let shown = if contains conflict canonical then conflict else internal in
    (code_of_exit (exit_code conflict) ≡ shown)
    × (code_of_connect (map_code conflict) ≡ shown)
    × (1 ≤ exit_code conflict)
    × (exit_code conflict ≤ 8)
codes_faithful_example = codes_faithful conflict

-- A status is found behind an error that wraps it, and the outermost one counts.
wrapped_code :
    code_of (
      wrapping "load: not here"
        (as_error (wrap_error not_found "not here" (as_error (new_error conflict "busy")))))
    ≡ some not_found
unfolding code_of wrap_error new_error
wrapped_code = refl

retry_text : error_text (as_error (with_retryable (new_error conflict "busy"))) ≡ "conflict: busy"
unfolding error_text with_retryable new_error
retry_text = refl

unwrapped : unwrap (wrap_error conflict "busy" missing) ≡ some missing
unfolding unwrap wrap_error
unwrapped = refl
