-- ===== src/Examples/Validation.antt =====
-- The checks of the generator on a small configuration and a small service.
use procframe.Prelude.{◌≡◌, refl, String, true, false, some, [], ◌∷◌, lookup, insert}
use procframe.Errors.{ok, err, plain, Result}
use procframe.Config.Load.{claim}
use procframe.Config.Bootstrap.{
  build_allowed_bootstrap_flags, build_allowed_from, validate_bootstrap_flag,
}
use procframe.Codegen.Naming.{field_to_flag_name}
use procframe.Codegen.ConfigModel.{ConfigFieldInfo, int32_kind, flag_name}
use procframe.Codegen.Validate.{
  validate_fields, validate_config_field_type, is_complex_config_field, validate_config_env,
  validate_config_bootstrap, validate_config_default, claim_unless, validate_duplicate_paths,
  check_services, check_paths,
}
use procframe.Examples.Flags.{some_strconv}
use procframe.Examples.Names.{capitals}
use procframe.Examples.Trees.{method_at, service_of}

abbrev pub level_field : ConfigFieldInfo
level_field = record {
  proto_name = "log_level";
  json_name = "logLevel";
  go_name = "LogLevel";
  kind = int32_kind;
  is_list = false;
  is_map = false;
  enum_type_name = "";
  enum_values = [];
  env = "APP_LOG_LEVEL";
  has_env = true;
  default_string = "||";
  has_default = true;
  required = false;
  secret = false;
  bootstrap = true;
}

abbrev pub no_bytes : String → Result String
no_bytes s = err (plain s)

-- Two methods at one path are refused.
same_path_refused :
    validate_duplicate_paths
      (λ s. s)
      (service_of (method_at "A" ("pr" ∷ []) ∷ method_at "B" ("pr" ∷ []) ∷ []) ∷ [])
    ≡ err (plain "duplicate CLI path repo pr: A and B")
unfolding validate_duplicate_paths check_services check_paths claim lookup insert
same_path_refused = refl

-- A field whose name begins with two underscores: the checks accept it, and the bootstrap parser of the
-- generated program refuses its flag.
abbrev underscore_field : ConfigFieldInfo
underscore_field = record level_field {
  proto_name = "__level";
  has_env = false;
  has_default = false;
}

underscores_accepted :
    validate_fields some_strconv capitals no_bytes "AppConfig" (underscore_field ∷ []) [] [] ≡ ok tt
unfolding validate_fields validate_config_field_type is_complex_config_field validate_config_env
    validate_config_bootstrap validate_config_default claim_unless flag_name field_to_flag_name
    claim lookup insert
underscores_accepted = refl

underscores_refused :
    build_allowed_bootstrap_flags (some (record { flag = flag_name underscore_field }) ∷ [])
    ≡ err (plain "bootstrap flag \"--level\" must not include -- prefix")
unfolding build_allowed_bootstrap_flags build_allowed_from validate_bootstrap_flag flag_name
    field_to_flag_name
underscores_refused = refl
