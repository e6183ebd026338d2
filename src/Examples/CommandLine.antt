-- ===== src/Examples/CommandLine.antt =====
-- The command-line transport on small inputs.
use procframe.Prelude.{◌≡◌, refl, String, Option, none, some, List, [], ◌∷◌, false, inl}
use procframe.Errors.{Error, status_error, no_cause, as_error, new_error, not_found, ok, status_of}
use procframe.Cli.GlobalFlags.{
  GlobalFlags, pre_parse_global_flags, pre_parse_loop, set_flag, split_global_flag,
}
use procframe.Cli.MapError.{map_error}
use procframe.Cli.GlobalFlags.Anywhere.{apart, json_anywhere}
use procframe.Cli.Node.{Context, NodeInfo, leaf, group, Children, no_more, child, find_child}
use procframe.Cli.Runner.{Runner, ran, traverse, run, error_of, is_help}
use procframe.Cli.Runner.Resolve.{here, down, traverse-ran}
use procframe.Cli.Runner.Report.{run-structured}

abbrev some_args : List String
some_args = "list" ∷ "--output=json" ∷ "--json" ∷ "{}" ∷ "--all" ∷ []

abbrev some_flags : GlobalFlags
some_flags = record { json_payload = "{}"; output_fmt = "json" }

some_args-parsed : pre_parse_global_flags some_args ≡ ok ("list" ∷ "--all" ∷ [], some_flags)
unfolding pre_parse_global_flags pre_parse_loop set_flag split_global_flag
some_args-parsed = refl

json_anywhere_example :
    pre_parse_global_flags ("keys" ∷ "list" ∷ "--json" ∷ "{}" ∷ "--all" ∷ [])
    ≡ ok ("keys" ∷ "list" ∷ "--all" ∷ [], record { json_payload = "{}"; output_fmt = "" })
unfolding split_global_flag
json_anywhere_example =
    json_anywhere "{}" ("--json" ∷ "{}" ∷ []) ("keys" ∷ "list" ∷ []) ("--all" ∷ [])
      (inl (apart (λ p. cc p))) (refl, (refl, tt)) (refl, tt)

-- A tree with a group `keys` that has the command `list`, which finds nothing.
abbrev missing_keys : Context → List String → Option Error
missing_keys ctx args = some (as_error (new_error not_found "no keys"))

abbrev info : String → Option (Context → List String → Option Error) → NodeInfo
info name run = record { segment = name; summary = ""; hidden = false; flag_set = none; run = run }

abbrev list_info : NodeInfo
list_info = info "list" (some missing_keys)

abbrev some_children : Children
some_children =
    child "keys" (group (info "keys" none) (child "list" (leaf list_info) no_more)) no_more

abbrev some_context : Context
some_context = record { json_payload = "{}"; output_fmt = "json" }

traverse-ran_example :
    traverse some_context
      (group (info "" none) some_children)
      ("keys" ∷ "list" ∷ "--all" ∷ [])
      ("app" ∷ [])
    ≡ ran list_info ("--all" ∷ []) (missing_keys some_context ("--all" ∷ []))
unfolding find_child is_help
traverse-ran_example =
    traverse-ran some_context (info "" none) some_children ("app" ∷ []) "keys" ("list" ∷ [])
      ("--all" ∷ []) list_info missing_keys refl refl
      (down "keys" "list" [] (info "keys" none) (child "list" (leaf list_info) no_more) refl refl
        refl (here "list" refl))
      refl refl

abbrev some_runner : Runner
some_runner = record {
  root = leaf (info "" (some missing_keys));
  name = "app";
  error_mapper = none;
}

abbrev json_args : List String
json_args = "--output" ∷ "json" ∷ []

json_args-parsed :
    pre_parse_global_flags json_args ≡ ok ([], record { json_payload = ""; output_fmt = "json" })
unfolding pre_parse_global_flags pre_parse_loop set_flag split_global_flag
json_args-parsed = refl

abbrev some_error : Error
some_error =
    status_error (record { code = not_found; message = "no keys"; retryable = false }) no_cause

json_run-returned : (run some_runner json_args).returned ≡ some some_error
unfolding run traverse error_of map_error status_of new_error pre_parse_global_flags pre_parse_loop
    set_flag split_global_flag
json_run-returned = refl

run-structured_example : (run some_runner json_args).structured ≡ status_of some_error
run-structured_example =
    run-structured some_runner json_args [] (record { json_payload = ""; output_fmt = "json" })
      some_error json_args-parsed refl json_run-returned
