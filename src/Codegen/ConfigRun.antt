-- ===== src/Codegen/ConfigRun.antt =====
-- internal/codegen/config.go: the functions that the printed Go code of a configuration message
-- declares for the layers of its loading, as functions on what the message holds.
pub mod Layers
pub mod Settled
pub mod Defaults
pub mod Filed
pub mod Given
pub mod Loaded
use procframe.Prelude.{
  ℕ, String, Bool, ◌&&◌, ◌==◌, true, false, Option, none, some, List, [], ◌∷◌, if◌then◌else◌,
  lookup, insert,
}
use procframe.Prelude.Text.{◌+++◌}
use procframe.Errors.{Error, plain, wrapping, error_text, Result, ok, err, ◌>>=◌}
use procframe.Config.Field.{apply_env, validate_required}
use procframe.Config.Load.{EnvLookup, Spec}
use procframe.Config.Json.{Json, Messages, Parsers}
use procframe.Config.File.{merge_json_file}
use procframe.Codegen.ConfigCode.{needs_json_field_parser}
use procframe.Codegen.ConfigModel.{ConfigFieldInfo, ConfigInfo, flag_name}
use procframe.Codegen.ConfigSpec.{emitted_spec}

-- The fields of the message and of `runtimeConfigFieldPresence`, by their Go names.
pub record Held (V : Type 0) : Type 0 where
  pub values : List (String × V)
  pub presence : List (String × Unit {0})

-- `parse` is the parser that is printed for a field.
module _ {V : Type 0} (go_name : String) (parse : ConfigFieldInfo → String → Result V) where
  abbrev pub path_of : ConfigFieldInfo → String
  path_of field = go_name +++ "." +++ field.proto_name

  -- `cfg.X = v`, and `presence.X = true` where the field is required.
  abbrev pub set_field : ConfigFieldInfo → V → Held V → Held V
  set_field field v held = record {
    values = insert field.go_name v held.values;
    presence = if field.required then insert field.go_name tt held.presence else held.presence;
  }

  -- `if err != nil { return fmt.Errorf("<what>: %w", err) }`.
  abbrev pub named_error : {A : Type 0} → String → Result A → Result A
  named_error what (ok a) = ok a
  named_error what (err e) = err (wrapping (what +++ ": " +++ error_text e) e)

  -- What `emitApplyDefaults` prints.
  unfoldable pub apply_defaults : List ConfigFieldInfo → Held V → Result (Held V)
  apply_defaults [] held = ok held
  apply_defaults (field ∷ fields) held =
      if field.has_default
      then (named_error (path_of field) (parse field field.default_string) >>= λ v.
          apply_defaults fields (set_field field v held))
      else apply_defaults fields held

  -- The error of a parser, which is kept secret with the field.
  abbrev pub shown_error : ConfigFieldInfo → Error → Error
  shown_error field e = if field.secret then plain "invalid secret value" else e

  -- The setter of `emitApplyEnvWith`.
  abbrev pub parsed_into : ConfigFieldInfo → Held V → Result V → Held V × Option Error
  parsed_into field held (ok v) = (set_field field v held, none)
  parsed_into field held (err e) = (held, some (shown_error field e))

  abbrev pub env_setter : ConfigFieldInfo → String → Held V → Held V × Option Error
  env_setter field raw held = parsed_into field held (parse field raw)

  abbrev pub env_result : ConfigFieldInfo → Held V × Option Error → Result (Held V)
  env_result field (held, none) = ok held
  env_result field (held, some e) =
      err (wrapping (path_of field +++ " from env " +++ field.env +++ ": " +++ error_text e) e)

  -- What `emitApplyEnvWith` prints.
  unfoldable pub apply_env_with : EnvLookup → List ConfigFieldInfo → Held V → Result (Held V)
  apply_env_with env [] held = ok held
  apply_env_with env (field ∷ fields) held =
      if field.has_env
      then (env_result field (apply_env (some env) field.env (some (env_setter field)) held)
          >>= λ next. apply_env_with env fields next)
      else apply_env_with env fields held

  abbrev pub flag_error : ConfigFieldInfo → Error → Error
  flag_error field e =
      let from = path_of field +++ " from --" +++ flag_name field in
      if field.secret
      then plain (from +++ ": invalid secret value")
      else wrapping (from +++ ": " +++ error_text e) e

  abbrev pub flag_parsed : ConfigFieldInfo → Held V → Result V → Result (Held V)
  flag_parsed field held (ok v) = ok (set_field field v held)
  flag_parsed field held (err e) = err (flag_error field e)

  abbrev pub flag_result : ConfigFieldInfo → Held V → Option String → Result (Held V)
  flag_result field held none = ok held
  flag_result field held (some raw) = flag_parsed field held (parse field raw)

  -- What `emitApplyBootstrap` prints.
  unfoldable pub apply_bootstrap :
      List (String × String) → List ConfigFieldInfo → Held V → Result (Held V)
  apply_bootstrap given [] held = ok held
  apply_bootstrap given (field ∷ fields) held =
      if field.bootstrap
      then (flag_result field held (lookup (flag_name field) given) >>= λ next.
          apply_bootstrap given fields next)
      else apply_bootstrap given fields held

  abbrev pub is_present : Option (Unit {0}) → Bool
  is_present none = false
  is_present (some there) = true

  abbrev pub first_error : Option Error → Option Error → Option Error
  first_error (some e) rest = some e
  first_error none rest = rest

  -- What `emitValidateRequired` prints.
  unfoldable pub check_required : List ConfigFieldInfo → Held V → Option Error
  check_required [] held = none
  check_required (field ∷ fields) held =
      let rest = check_required fields held in
      if field.required
      then first_error
          (validate_required (path_of field) (is_present (lookup field.go_name held.presence))) rest
      else rest

  -- The `ConfigSpec` of a message with these fields, for what `emitLoadConfigFile` prints.
  unfoldable pub config_spec :
      (String → Held V → Result (Held V)) → String → List ConfigFieldInfo → Spec (Held V)
  config_spec load_config_file file_path fields =
      emitted_spec
        (record {
          env_names = [];
          bootstrap_specs = [];
          apply_defaults = apply_defaults fields;
          apply_config_file = load_config_file;
          apply_env = λ env. apply_env_with env fields;
          apply_bootstrap = λ given. apply_bootstrap given fields;
          validate_required = check_required fields;
        })
        (record { file_path = file_path; go_name = go_name; fields = fields })

  -- What `emitLoadConfigFile` and `emitConfigFileFieldParser` print; `as_int32` is the conversion of an
  -- enum to an int32 in JSON, and `decode_int32` reads one.
  module _ {J : Type 0} (json : Json J) (strconv_quote : String → String)
      (messages : Messages (List (String × V))) (read_file : String → Result String)
      (decode_int32 : String → Result ℕ) (format_int : ℕ → String) (as_int32 : V → J) where
    abbrev pub to_json : Result V → Result J
    to_json (ok v) = ok (as_int32 v)
    to_json (err e) = err e

    abbrev pub from_number : ConfigFieldInfo → Result ℕ → Result J
    from_number field (ok n) = to_json (parse field (format_int n))
    from_number field (err e) = err (plain "expected string or number JSON value")

    abbrev pub from_json : ConfigFieldInfo → String → Result String → Result J
    from_json field raw (ok text) = to_json (parse field text)
    from_json field raw (err e) = from_number field (decode_int32 raw)

    unfoldable pub json_field_parser : ConfigFieldInfo → String → Result J
    json_field_parser field raw =
        if raw == "null" then ok json.null else from_json field raw (json.decode_string raw)

    -- The arguments that are printed for the call of MergeJSONFileWithParsers.
    unfoldable pub file_parsers : List ConfigFieldInfo → Parsers J
    file_parsers [] = []
    file_parsers (field ∷ fields) =
        let rest = file_parsers fields in
        if needs_json_field_parser field
        then (field.json_name, some (json_field_parser field)) ∷ rest
        else rest

    unfoldable pub secret_fields : List ConfigFieldInfo → List String
    secret_fields [] = []
    secret_fields (field ∷ fields) =
        let rest = secret_fields fields in if field.secret then field.json_name ∷ rest else rest

    unfoldable pub mark_present :
        List (String × Unit {0})
        → List ConfigFieldInfo
        → List (String × Unit {0})
        → List (String × Unit {0})
    mark_present present [] presence = presence
    mark_present present (field ∷ fields) presence = mark_present present fields (
        if field.required && is_present (lookup field.json_name present)
        then insert field.go_name tt presence
        else presence)

    abbrev pub file_read :
        List ConfigFieldInfo
        → Held V
        → List (String × V) × Result (List (String × Unit {0}))
        → Result (Held V)
    file_read fields held (after, err e) = err e
    file_read fields held (after, ok present) =
        ok (record { values = after; presence = mark_present present fields held.presence })

    unfoldable pub load_config_file : List ConfigFieldInfo → String → Held V → Result (Held V)
    load_config_file fields path held = file_read fields held (
        merge_json_file json strconv_quote messages read_file path held.values (file_parsers fields)
          (secret_fields fields))
