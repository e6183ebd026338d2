-- ===== src/Cli/Runner.antt =====
-- transport/cli/runner.go: `traverse`, `parseNodeFlags`, `handleNoArgs`, `dispatch` and `Run`. Writing
-- to stdout and stderr is the outcome that names what is written.
pub mod Resolve
pub mod Report
use procframe.Prelude.{
  String, Bool, true, false, not, ◌&&◌, ◌||◌, Option, none, some, List, [], ◌∷◌, ◌++◌, ◌==◌,
  if◌then◌else◌,
}
use procframe.Prelude.Text.{◌+++◌}
use procframe.Errors.{
  Status, Error, ErrorMapper, plain, sentinel, eof, flag_help, Sentinel, wrapping, joined,
  status_error, Cause, no_cause, cause, Result, ok, err, ◌>>=◌,
}
use procframe.Cli.MapError.{map_error}
use procframe.Cli.GlobalFlags.{GlobalFlags, pre_parse_global_flags, output_json}
use procframe.Cli.Node.{Context, NodeInfo, Node, leaf, group, Children, no_more, child, info_of}

-- What a traversal comes to: help for the group at a path or for the command at a path, a command
-- that was run at a path with arguments and its error, or an error of the traversal itself, with
-- whether group help was written before it.
pub data Outcome : Type 0 where
  group_help : List String → Outcome
  command_help : List String → Outcome
  no_help : Outcome
  ran : NodeInfo → List String → Option Error → Outcome
  failed : Error → Outcome
  failed_with_help : List String → Error → Outcome

-- What `traverse` returns.
unfoldable pub error_of : Outcome → Option Error
error_of (group_help path) = none
error_of (command_help path) = none
error_of no_help = none
error_of (ran info args e) = e
error_of (failed e) = some e
error_of (failed_with_help path e) = some e

-- errors.Is(err, flag.ErrHelp), down the whole chain.
abbrev is_flag_help_sentinel : Sentinel → Bool
is_flag_help_sentinel flag_help = true
is_flag_help_sentinel _ = false

mutual
  is_flag_help : Error → Bool
  is_flag_help (sentinel s) = is_flag_help_sentinel s
  is_flag_help (plain t) = false
  is_flag_help (wrapping t e) = is_flag_help e
  is_flag_help (joined a b) = is_flag_help a || is_flag_help b
  is_flag_help (status_error s c) = cause_is_flag_help c

  cause_is_flag_help : Cause → Bool
  cause_is_flag_help no_cause = false
  cause_is_flag_help (cause e) = is_flag_help e

unfoldable pub is_help : String → Bool
is_help arg = arg == "--help" || arg == "-h"

run_child :
    Context
    → NodeInfo
    → String
    → List String
    → Option (Context → List String → Option Error)
    → Outcome
run_child ctx info name args none = failed (plain ("command \"" +++ name +++ "\" is not runnable"))
run_child ctx info name args (some run) = ran info args (run ctx args)

run_root : Context → NodeInfo → Option (Context → List String → Option Error) → Outcome
run_root ctx info none = failed (plain "no command specified")
run_root ctx info (some run) = ran info [] (run ctx [])

-- The last element of a path that is not empty.
last : String → List String → String
last name [] = name
last name (x ∷ xs) = last x xs

no_command : List String → Error
unfolding last
no_command [] = plain "no command specified"
no_command (x ∷ xs) = plain ("no command specified for \"" +++ last x xs +++ "\"")

-- `parseNodeFlags` but for its help: a node without flags passes its arguments on.
parse_node_flags : Option (List String → Result (List String)) → List String → Result (List String)
parse_node_flags none args = ok args
parse_node_flags (some parse) args = parse args

-- `dispatch` at a group, up to the look at `Children`, and `handleNoArgs` of a group. `descend` goes
-- on with the name and the arguments behind it.
group_args : List String → (String → List String → Outcome) → List String → Outcome
unfolding no_command is_help
group_args path descend [] = failed_with_help path (no_command path)
group_args path descend (name ∷ rest) =
    let below = descend name rest in if is_help name then group_help path else below

-- `traverse` at a group: `parseNodeFlags` with the help of flag.ErrHelp, then the arguments left.
unfoldable pub traverse_group :
    NodeInfo → List String → List String → (String → List String → Outcome) → Outcome
unfolding is_flag_help parse_node_flags group_args is_help
traverse_group info args path descend = elim (parse_node_flags info.flag_set args) [
  | err e ↦ if is_flag_help e then group_help path else failed e
  | ok left ↦ group_args path descend left
]

-- The end of `dispatch`, at a child that is a command.
unfoldable pub command_args : Context → NodeInfo → String → List String → List String → Outcome
unfolding run_child is_help
command_args ctx info name path [] = run_child ctx info name [] info.run
command_args ctx info name path (arg ∷ rest) =
    if is_help arg then command_help path else run_child ctx info name (arg ∷ rest) info.run

-- `dispatch` from the look at `Children` on.
unfoldable pub enter : Context → List String → String → List String → Children → Outcome
unfolding command_args
enter ctx path name rest no_more = failed (plain ("unknown command \"" +++ name +++ "\""))
enter ctx path name rest (child key (leaf info) more) =
    let others = enter ctx path name rest more in
    if key == name then command_args ctx info name (path ++ name ∷ []) rest else others
enter ctx path name rest (child key (group info children) more) =
    let others = enter ctx path name rest more in
    let inside =
      traverse_group info rest (path ++ name ∷ [])
        (λ next behind. enter ctx (path ++ name ∷ []) next behind children) in
    if key == name then inside else others

-- `handleNoArgs` and `dispatch` at a root that is a command.
leaf_args : Context → NodeInfo → List String → Outcome
unfolding run_root is_help
leaf_args ctx info [] = run_root ctx info info.run
leaf_args ctx info (name ∷ rest) =
    if is_help name then no_help else failed (plain ("unknown argument \"" +++ name +++ "\""))

unfoldable pub traverse : Context → Node → List String → List String → Outcome
unfolding leaf_args is_flag_help parse_node_flags
traverse ctx (group info children) args path =
    traverse_group info args path (λ name rest. enter ctx path name rest children)
traverse ctx (leaf info) args path = elim (parse_node_flags info.flag_set args) [
  | err e ↦ if is_flag_help e then no_help else failed e
  | ok left ↦ leaf_args ctx info left
]

-- `Runner`, but for its streams and its interceptors, which the commands read.
pub record Runner : Type 0 where
  pub root : Node
  pub name : String
  pub error_mapper : Option ErrorMapper

-- What `Run` does: the traversal, if the global flags were accepted, the status that is written to
-- stderr as JSON, and the error that is returned.
pub record RunResult : Type 0 where
  pub outcome : Option Outcome
  pub structured : Option Status
  pub returned : Option Error

-- The end of `Run`, behind the traversal. The format in force is text where none was given.
report : Runner → Context → Outcome → Option Error → RunResult
report r ctx o none = record { outcome = some o; structured = none; returned = none }
report r ctx o (some e) =
    let (status, mapped) = map_error r.error_mapper e in
    record {
      outcome = some o;
      structured = if ctx.output_fmt == output_json then status else none;
      returned = some mapped;
    }

-- `path := []string{}; if r.name != "" { path = []string{r.name} }`.
start_path : String → List String
start_path name = if name == "" then [] else name ∷ []

unfoldable pub run : Runner → List String → RunResult
unfolding report start_path
run r args = elim (pre_parse_global_flags args) [
  | err e ↦ record { outcome = none; structured = none; returned = some e }
  | ok (remaining, flags) ↦
      let ctx : Context = record {
        json_payload = flags.json_payload;
        output_fmt = flags.output_fmt;
      } in
      let o = traverse ctx r.root remaining (start_path r.name) in report r ctx o (error_of o)
]
