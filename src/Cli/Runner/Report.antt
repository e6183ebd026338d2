-- ===== src/Cli/Runner/Report.antt =====
-- What `Run` writes to stderr as JSON is the status of the error that it returns.
use mathlib.Core.Option.{some-injective}
use procframe.Prelude.{◌≡◌, sym, ap, ◌∙◌, String, Option, none, some, List}
use procframe.Errors.{Error, ok, status_of}
use procframe.Boundary.{map_error_carries}
use procframe.Cli.GlobalFlags.{GlobalFlags, pre_parse_global_flags, output_json}
use procframe.Cli.Node.{Context}
use procframe.Cli.Runner.{Runner, Outcome, report, run}

report-structured :
    (r : Runner) (ctx : Context) (o : Outcome) (m : Option Error) (e : Error)
    → ctx.output_fmt ≡ output_json
    → (report r ctx o m).returned ≡ some e
    → (report r ctx o m).structured ≡ status_of e
unfolding report
report-structured r ctx o none e json h = cc
report-structured r ctx o (some x) e json h =
    rw json (sym (map_error_carries r.error_mapper x).0 ∙ ap status_of (some-injective _ _ h))

-- With `--output json`, the status that `Run` writes to stderr is exactly the one in the chain of the
-- error that it returns, so the exit code that is made of it fits; nothing is written where that
-- error has no status.
pub run-structured :
    (r : Runner) (args remaining : List String) (flags : GlobalFlags) (e : Error)
    → pre_parse_global_flags args ≡ ok (remaining, flags)
    → flags.output_fmt ≡ output_json
    → (run r args).returned ≡ some e
    → (run r args).structured ≡ status_of e
unfolding run
run-structured r args remaining flags e parsed json h =
    let ctx : Context = record {
      json_payload = flags.json_payload;
      output_fmt = flags.output_fmt;
    } in
    rw (parsed, run) (report-structured r ctx _ _ e json (rw (parsed, run) at h))
