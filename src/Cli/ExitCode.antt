-- ===== src/Cli/ExitCode.antt =====
-- transport/cli/exitcode.go: the process exit code of an error code.
use procframe.Prelude.{ℕ, ◌==◌, if◌then◌else◌}
use procframe.Errors.{
  Code, invalid_argument, not_found, internal, unauthenticated, unavailable, already_exists,
  permission_denied, conflict,
}

unfoldable pub exit_code : Code → ℕ
exit_code code =
    if code == internal
    then 1
    else if code == invalid_argument
    then 2
    else if code == not_found
    then 3
    else if code == unauthenticated
    then 4
    else if code == permission_denied
    then 5
    else if code == conflict
    then 6
    else if code == already_exists
    then 7
    else if code == unavailable
    then 8
    else 1
