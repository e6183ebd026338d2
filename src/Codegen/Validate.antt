-- ===== src/Codegen/Validate.antt =====
-- internal/codegen/validate.go: the checks on the commands and on the
-- fields of a configuration, before anything is generated.
pub mod Accepted
pub mod Commands
use Prim.Native.Char.{code}
use Prim.Native.String
use procframe.Prelude.{
  ℕ, String, Bool, true, false, not, ◌&&◌, ◌||◌, Option, none, some, List, [], ◌∷◌, ◌++◌, ◌==◌, map,
  if◌then◌else◌, eqb, lookup, insert,
}
use procframe.Prelude.Text.{◌+++◌, join}
use procframe.Errors.{Error, plain, wrapping, error_text, Result, ok, err, ◌>>=◌}
use procframe.Strconv.{Strconv}
use procframe.Config.Bootstrap.{reserved_config_flag}
use procframe.Config.Load.{claim}
use procframe.Config.Parse.{
  parse_string, parse_bytes, parse_bool_value, parse_int32, parse_int64, parse_uint32, parse_uint64,
  parse_float32, parse_float64, parse_enum,
}
use procframe.Config.Parse
use procframe.Codegen.Naming.{
  Letters, EnumValueInfo, EnumMapping, enum_cli_values, field_to_flag_name,
}
use procframe.Codegen.ConfigModel.{
  Kind, bool_kind, int32_kind, sint32_kind, sfixed32_kind, int64_kind, sint64_kind, sfixed64_kind,
  uint32_kind, fixed32_kind, uint64_kind, fixed64_kind, float_kind, double_kind, string_kind,
  bytes_kind, enum_kind, message_kind, group_kind, ConfigFieldInfo, ConfigInfo, flag_name,
  is_config_proto,
}
use procframe.Codegen.Tree.{MethodInfo, ServiceInfo}

-- `if !on { return nil }; if name == refused { return refusal }`, and the look into `seen` behind it.
unfoldable pub claim_unless :
    Bool
    → String
    → String
    → Error
    → (String → String → String → Error)
    → String
    → List (String × String)
    → Result (List (String × String))
claim_unless on name refused refusal clash path seen =
    if on then (if name == refused then err refusal else claim clash name path seen) else ok seen

module _ (quote : String → String) where
  duplicate_path : String → String → String → Error
  duplicate_path path prev name =
      plain ("duplicate CLI path " +++ quote path +++ ": " +++ prev +++ " and " +++ name)

  -- The loops of `validateDuplicatePaths`.
  unfoldable pub check_paths :
      ServiceInfo → List MethodInfo → List (String × String) → Result (List (String × String))
  unfolding duplicate_path
  check_paths svc [] seen = ok seen
  check_paths svc (m ∷ ms) seen =
      if m.cli
      then (claim duplicate_path (join " " (svc.path ++ m.path)) m.full_name seen >>= λ more.
          check_paths svc ms more)
      else check_paths svc ms seen

  unfoldable pub check_services : List ServiceInfo → List (String × String) → Result (Unit {0})
  check_services [] seen = ok tt
  check_services (svc ∷ svcs) seen =
      check_paths svc svc.methods seen >>= λ more. check_services svcs more

  unfoldable pub validate_duplicate_paths : List ServiceInfo → Result (Unit {0})
  validate_duplicate_paths services = check_services services []

  env_duplicate : String → String → String → Error
  env_duplicate env prev path =
      plain ("config field " +++ path +++ ": env " +++ quote env +++ " duplicates " +++ prev)

  flag_duplicate : String → String → String → Error
  flag_duplicate flag prev path =
      plain
        ("config field " +++ path +++ ": bootstrap flag --" +++ flag +++ " duplicates " +++ prev)

  unfoldable pub validate_config_env :
      String → ConfigFieldInfo → List (String × String) → Result (List (String × String))
  unfolding env_duplicate
  validate_config_env path field seen =
      claim_unless field.has_env field.env ""
        (plain ("config field " +++ path +++ ": env must not be empty")) env_duplicate path seen

  unfoldable pub validate_config_bootstrap :
      String → ConfigFieldInfo → List (String × String) → Result (List (String × String))
  unfolding flag_duplicate
  validate_config_bootstrap path field seen =
      claim_unless field.bootstrap (flag_name field) reserved_config_flag
        (plain (
          "config field " +++ path +++ ": bootstrap flag --" +++ reserved_config_flag
          +++ " is reserved"))
        flag_duplicate path seen

-- `isComplexConfigField`.
abbrev pub is_complex_kind : Kind → Bool
is_complex_kind message_kind = true
is_complex_kind group_kind = true
is_complex_kind _ = false

unfoldable pub is_complex_config_field : ConfigFieldInfo → Bool
is_complex_config_field field = field.is_list || field.is_map || is_complex_kind field.kind

abbrev pub complex_error : String → String → Error
complex_error path option =
    plain ("config field " +++ path +++ ": complex field (list/map/message) cannot use " +++ option)

-- `validateConfigFieldType` and `validateComplexConfigFieldOptions`.
unfoldable pub validate_config_field_type : String → ConfigFieldInfo → Option Error
validate_config_field_type path field =
    if is_complex_config_field field
    then (if field.has_env
        then some (complex_error path "env")
        else if field.bootstrap
        then some (complex_error path "bootstrap")
        else if field.has_default
        then some (complex_error path "default_string")
        else none)
    else none

-- The error of a parse.
abbrev pub failed : {A : Type 0} → Result A → Option Error
failed (err e) = some e
failed (ok a) = none

-- `if err := ...; err != nil { return err }`.
abbrev pub unless : {A : Type 0} → Option Error → Result A → Result A
unless (some e) rest = err e
unless none rest = rest

-- `raw == enumValue.ProtoName` for some value.
unfoldable pub names_value : String → List EnumValueInfo → Bool
names_value raw [] = false
names_value raw (v ∷ vs) = raw == v.proto_name || names_value raw vs

module _ {Float32 Float64 Bytes : Type 0} (strconv : Strconv Float32 Float64) (letters : Letters)
    (decode : String → Result Bytes) where
  open strconv use {quote, parse_int}

  -- The end of the enum case, behind `config.ParseEnum`.
  unfoldable pub enum_fallback : ConfigFieldInfo → String → Result ℕ → Option Error
  enum_fallback field raw (ok v) = none
  enum_fallback field raw (err e) =
      if names_value raw field.enum_values
      then none
      else elim (parse_int raw 32) [ ok v ↦ none | err other ↦ some e ]

  unfoldable pub enum_default : ConfigFieldInfo → String → Result (List EnumMapping) → Option Error
  unfolding enum_fallback
  enum_default field raw (err e) = some e
  enum_default field raw (ok mappings) = enum_fallback field raw (
      parse_enum strconv letters.to_lower_text raw
        (map (λ m. some (record { name = m.cli_value; number = m.number })) mappings)
        field.enum_type_name)

  -- `parseConfigValueForValidation`; the caller drops the value.
  unfoldable pub parse_config_value : ConfigFieldInfo → String → Kind → Option Error
  unfolding enum_default
  parse_config_value field raw bool_kind = failed (parse_bool_value strconv raw)
  parse_config_value field raw int32_kind = failed (parse_int32 strconv raw)
  parse_config_value field raw sint32_kind = failed (parse_int32 strconv raw)
  parse_config_value field raw sfixed32_kind = failed (parse_int32 strconv raw)
  parse_config_value field raw int64_kind = failed (parse_int64 strconv raw)
  parse_config_value field raw sint64_kind = failed (parse_int64 strconv raw)
  parse_config_value field raw sfixed64_kind = failed (parse_int64 strconv raw)
  parse_config_value field raw uint32_kind = failed (parse_uint32 strconv raw)
  parse_config_value field raw fixed32_kind = failed (parse_uint32 strconv raw)
  parse_config_value field raw uint64_kind = failed (parse_uint64 strconv raw)
  parse_config_value field raw fixed64_kind = failed (parse_uint64 strconv raw)
  parse_config_value field raw float_kind = failed (parse_float32 strconv raw)
  parse_config_value field raw double_kind = failed (parse_float64 strconv raw)
  parse_config_value field raw string_kind = failed (parse_string strconv raw)
  parse_config_value field raw bytes_kind = failed (parse_bytes strconv decode raw)
  parse_config_value field raw enum_kind =
      enum_default field raw (enum_cli_values letters field.enum_type_name field.enum_values)
  parse_config_value field raw message_kind = some (plain "unsupported kind message")
  parse_config_value field raw group_kind = some (plain "unsupported kind group")

  -- `validateConfigDefault`, where the field has a default.
  default_error : String → ConfigFieldInfo → Option Error → Option Error
  default_error path field none = none
  default_error path field (some e) = some (
      wrapping
        ("config field "
          +++ path
          +++ ": default_string "
          +++ quote field.default_string
          +++ " is invalid: "
          +++ error_text e)
        e)

  unfoldable pub validate_config_default : String → ConfigFieldInfo → Option Error
  unfolding default_error
  validate_config_default path field =
      if field.has_default
      then default_error path field (parse_config_value field field.default_string field.kind)
      else none

  -- The loop of `validateConfigInfo`, with `validateConfigFieldMetadata`.
  unfoldable pub validate_fields :
      String
      → List ConfigFieldInfo
      → List (String × String)
      → List (String × String)
      → Result (Unit {0})
  validate_fields go_name [] env_seen bootstrap_seen = ok tt
  validate_fields go_name (field ∷ fields) env_seen bootstrap_seen =
      let path = go_name +++ "." +++ field.proto_name in
      unless (validate_config_field_type path field) (
        validate_config_env quote path field env_seen >>= λ envs.
        validate_config_bootstrap quote path field bootstrap_seen >>= λ flags.
        unless (validate_config_default path field) (validate_fields go_name fields envs flags))

  -- `validateConfigInfo`, for a pattern `ConfigProto`; without fields its loop does nothing.
  unfoldable pub validate_config_info :
      (String → String) → String → Option ConfigInfo → Result (Unit {0})
  validate_config_info base pattern none = ok tt
  validate_config_info base pattern (some cfg) =
      if is_config_proto base pattern cfg.file_path
      then validate_fields cfg.go_name cfg.fields [] []
      else ok tt
