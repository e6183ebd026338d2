-- ===== src/Examples/PrintedConfigs.antt =====
-- The printed code of a configuration message with one field, run on its layers.
use procframe.Prelude.{
  ℕ, List, ◌≡◌, ◌↔◌, refl, String, true, none, some, [], ◌∷◌, arith, eq_iff, All, lookup, insert,
  if◌then◌else◌, ◌==◌,
}
use procframe.Errors.{Result, ok, err, plain}
use procframe.Config.Load.{
  Spec, EnvLookup, load_specs, load_parsed, detect_conflicts, apply_all, in_stage,
  parse_unified_bootstrap, all_bootstrap_specs, apply_config_file, validate_all_required, checked,
}
use procframe.Config.Field.{apply_env, validate_required}
use procframe.Config.Json.{Json, Messages}
use procframe.Config.Bootstrap.{
  parse_bootstrap_args, build_allowed_bootstrap_flags, build_allowed_from, validate_bootstrap_flag,
  bootstrap_loop, split_bootstrap_arg, is_bootstrap, apply_bootstrap_value,
}
use procframe.Codegen.ConfigSpec.{emitted_spec, emitted_env_names, emitted_bootstrap_specs}
use procframe.Config.Parse.{parse_int32}
use procframe.Codegen.ConfigModel.{ConfigFieldInfo, flag_name}
use procframe.Codegen.Naming.{field_to_flag_name}
use procframe.Codegen.Validate.{is_complex_config_field, parse_config_value}
use procframe.Codegen.Validate.Accepted.{IsAcceptable}
use procframe.Codegen.ConfigCode.{
  Value, of_number, with_value, emit_field_parser, scalar_config_parser,
}
use procframe.Codegen.ConfigCode.Parsers.{Reads, emit_field_parser-agrees}
use procframe.Codegen.ConfigRun.{
  Held, apply_defaults, apply_env_with, apply_bootstrap, check_required, config_spec,
  load_config_file,
}
use procframe.Codegen.ConfigRun.Layers.{default_source}
use procframe.Codegen.ConfigRun.Settled.{Settled}
use procframe.Codegen.ConfigRun.Defaults.{apply_defaults-Settled}
use procframe.Codegen.ConfigRun.Loaded.{IsLayered, load_specs-IsLayered}
use procframe.Examples.Flags.{some_strconv}
use procframe.Examples.Names.{capitals}
use procframe.Examples.Validation.{level_field, no_bytes}

abbrev required_field : ConfigFieldInfo
required_field = record level_field { required = true }

abbrev Setting : Type 0
Setting = Value (Unit {0}) (Unit {0}) String

abbrev parse_field : ConfigFieldInfo → String → Result Setting
parse_field field raw = with_value of_number (parse_int32 some_strconv raw)

printed_parser :
    emit_field_parser some_strconv capitals no_bytes required_field
    ≡ ok (parse_field required_field)
unfolding emit_field_parser scalar_config_parser
printed_parser = refl

emit_field_parser-agrees_example :
    (parse_config_value some_strconv capitals no_bytes required_field "|||" required_field.kind
      ≡ none)
    ↔ Reads (parse_field required_field "|||")
emit_field_parser-agrees_example =
    emit_field_parser-agrees some_strconv capitals no_bytes required_field "|||"
      (parse_field required_field) printed_parser

required_field-IsAcceptable : IsAcceptable some_strconv capitals no_bytes required_field
unfolding is_complex_config_field parse_config_value flag_name field_to_flag_name parse_int32
required_field-IsAcceptable = record {
  plain = λ c. absurd (ground arith);
  env_named = λ e h. ground (arith, eq_iff "APP_LOG_LEVEL" "");
  flag_free = λ e h. ground (arith, eq_iff "log-level" "config");
  readable = λ e. refl;
}

abbrev nothing_held : Held Setting
nothing_held = record { values = []; presence = [] }

apply_defaults-Settled_example :
    (final : Held Setting) × (apply_defaults "AppConfig" parse_field
        (required_field ∷ [])
        nothing_held
      ≡ ok final)
    × All
        (λ f. Settled "AppConfig" parse_field f (default_source f) nothing_held final)
        (required_field ∷ [])
unfolding lookup
apply_defaults-Settled_example =
    apply_defaults-Settled some_strconv capitals no_bytes "AppConfig" parse_field
      (required_field ∷ []) nothing_held (required_field-IsAcceptable, tt)
      ((λ needed. printed_parser), tt) (refl, tt)

-- The application has no configuration file.
abbrev no_json : Json String
no_json = record {
  parse_object = λ s. ok [];
  parse_values = λ s. ok [];
  decode = λ raw. ok raw;
  decode_string = λ raw. ok raw;
  marshal_values = λ fields. ok "{}";
  marshal_object = λ fields. ok "{}";
  trim_space = λ s. s;
  null = "null";
}

abbrev held_messages : Messages (List (String × Setting))
held_messages = record {
  marshal = λ m. ok "{}";
  unmarshal = λ source. λ m. (m, none);
  fields = λ m. ("logLevel", "log_level") ∷ [];
}

abbrev no_files : String → Result String
no_files path = err (plain "no such file")

abbrev no_number : String → Result ℕ
no_number raw = err (plain "no number")

abbrev run_loader : String → Held Setting → Result (Held Setting)
run_loader =
    load_config_file "AppConfig" parse_field no_json (λ s. s) held_messages no_files no_number
      (λ n. "0") (λ v. "0") (required_field ∷ [])

abbrev three_in_env : EnvLookup
three_in_env name = if name == "APP_LOG_LEVEL" then some "|||" else none

abbrev run_spec : Spec (Held Setting)
run_spec = config_spec "AppConfig" parse_field run_loader "config.proto" (required_field ∷ [])

abbrev of_flag : Held Setting
of_flag = record { values = ("LogLevel", of_number 1) ∷ []; presence = ("LogLevel", tt) ∷ [] }

-- The bootstrap flag goes before the environment variable, and that before the default.
loaded :
    load_specs three_in_env ("--log-level=|" ∷ "list" ∷ []) (run_spec ∷ []) nothing_held
    ≡ ok (of_flag, "list" ∷ [])
unfolding load_specs load_parsed config_spec emitted_spec emitted_env_names emitted_bootstrap_specs
    detect_conflicts apply_all in_stage parse_unified_bootstrap all_bootstrap_specs
    parse_bootstrap_args build_allowed_bootstrap_flags build_allowed_from validate_bootstrap_flag
    bootstrap_loop split_bootstrap_arg is_bootstrap apply_bootstrap_value apply_config_file
    apply_defaults apply_env_with apply_env apply_bootstrap validate_all_required checked
    check_required validate_required flag_name field_to_flag_name parse_int32 lookup insert
loaded = refl

load_specs-IsLayered_example :
    IsLayered "AppConfig" parse_field no_json
      (λ s. s)
      held_messages
      no_files
      no_number
      (λ n. "0")
      (λ v. "0")
      "config.proto"
      (required_field ∷ [])
      three_in_env
      ("--log-level=|" ∷ "list" ∷ [])
      ("list" ∷ [])
      nothing_held
      of_flag
unfolding lookup
load_specs-IsLayered_example =
    load_specs-IsLayered "AppConfig" parse_field no_json (λ s. s) held_messages no_files no_number
      (λ n. "0") (λ v. "0") "config.proto" (required_field ∷ []) three_in_env
      ("--log-level=|" ∷ "list" ∷ []) ("list" ∷ []) nothing_held of_flag (refl, tt) refl loaded
