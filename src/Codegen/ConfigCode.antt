-- ===== src/Codegen/ConfigCode.antt =====
-- internal/codegen/config.go: the functions that the printed Go code of a configuration message
-- declares, as functions. What the generator computes while it prints (the parser of a kind, the spelling
-- of the values of an enum, the fields with an option) is computed here as well; the text is left out.
pub mod Parsers
use procframe.Prelude.{
  ℕ, String, Bool, true, false, not, ◌&&◌, ◌||◌, Option, none, some, List, [], ◌∷◌, ◌==◌, ◌%◌, ◌^◌,
  map, if◌then◌else◌, lookup, insert,
}
use procframe.Prelude.Text.{◌+++◌}
use procframe.Errors.{Error, plain, wrapping, error_text, Result, ok, err, ◌>>=◌}
use procframe.Strconv.{Strconv}
use procframe.Config.Parse.{
  parse_string, parse_bytes, parse_bool_value, parse_int32, parse_int64, parse_uint32, parse_uint64,
  parse_float32, parse_float64, parse_enum,
}
use procframe.Codegen.Naming.{Letters, EnumValueInfo, EnumMapping, enum_cli_values}
use procframe.Codegen.ConfigModel.{
  Kind, bool_kind, int32_kind, sint32_kind, sfixed32_kind, int64_kind, sint64_kind, sfixed64_kind,
  uint32_kind, fixed32_kind, uint64_kind, fixed64_kind, float_kind, double_kind, string_kind,
  bytes_kind, enum_kind, message_kind, group_kind, ConfigFieldInfo,
}

-- A value of a field, by its Go type; a number is a bit pattern.
pub data Value (Float32 Float64 Bytes : Type 0) : Type 0 where
  of_bool : Bool → Value Float32 Float64 Bytes
  of_number : ℕ → Value Float32 Float64 Bytes
  of_float32 : Float32 → Value Float32 Float64 Bytes
  of_float64 : Float64 → Value Float32 Float64 Bytes
  of_text : String → Value Float32 Float64 Bytes
  of_bytes : Bytes → Value Float32 Float64 Bytes
  of_enum : ℕ → Value Float32 Float64 Bytes

abbrev pub with_value : {A B : Type 0} → (A → B) → Result A → Result B
with_value f (ok a) = ok (f a)
with_value f (err e) = err e

-- `NeedsStringParser` and `NeedsJSONFieldParser`.
unfoldable pub needs_string_parser : ConfigFieldInfo → Bool
needs_string_parser field = field.has_default || field.has_env || field.bootstrap

abbrev pub is_enum_kind : Kind → Bool
is_enum_kind enum_kind = true
is_enum_kind _ = false

unfoldable pub needs_json_field_parser : ConfigFieldInfo → Bool
needs_json_field_parser field = is_enum_kind field.kind && not field.is_list && not field.is_map

-- The kinds without a parser are those of messages and of groups.
abbrev pub unsupported_kind : Kind → Error
unsupported_kind group_kind = plain "unsupported kind group"
unsupported_kind _ = plain "unsupported kind message"

-- The number of the first value of that proto name.
unfoldable pub named_number : String → List EnumValueInfo → Option ℕ
named_number raw [] = none
named_number raw (v ∷ vs) =
    let rest = named_number raw vs in if raw == v.proto_name then some v.number else rest

module _ {Float32 Float64 Bytes : Type 0} (strconv : Strconv Float32 Float64) (letters : Letters)
    (decode : String → Result Bytes) where
  open strconv use {parse_int}

  abbrev Parser : Type 0
  Parser = String → Result (Value Float32 Float64 Bytes)

  -- `scalarConfigParserName`: the function of config that has the name.
  unfoldable pub scalar_config_parser :
      Kind → Option (String → Result (Value Float32 Float64 Bytes))
  scalar_config_parser string_kind = some (λ raw. with_value of_text (parse_string strconv raw))
  scalar_config_parser bytes_kind =
      some (λ raw. with_value of_bytes (parse_bytes strconv decode raw))
  scalar_config_parser bool_kind = some (λ raw. with_value of_bool (parse_bool_value strconv raw))
  scalar_config_parser int32_kind = some (λ raw. with_value of_number (parse_int32 strconv raw))
  scalar_config_parser sint32_kind = some (λ raw. with_value of_number (parse_int32 strconv raw))
  scalar_config_parser sfixed32_kind = some (λ raw. with_value of_number (parse_int32 strconv raw))
  scalar_config_parser int64_kind = some (λ raw. with_value of_number (parse_int64 strconv raw))
  scalar_config_parser sint64_kind = some (λ raw. with_value of_number (parse_int64 strconv raw))
  scalar_config_parser sfixed64_kind = some (λ raw. with_value of_number (parse_int64 strconv raw))
  scalar_config_parser uint32_kind = some (λ raw. with_value of_number (parse_uint32 strconv raw))
  scalar_config_parser fixed32_kind = some (λ raw. with_value of_number (parse_uint32 strconv raw))
  scalar_config_parser uint64_kind = some (λ raw. with_value of_number (parse_uint64 strconv raw))
  scalar_config_parser fixed64_kind = some (λ raw. with_value of_number (parse_uint64 strconv raw))
  scalar_config_parser float_kind = some (λ raw. with_value of_float32 (parse_float32 strconv raw))
  scalar_config_parser double_kind = some (λ raw. with_value of_float64 (parse_float64 strconv raw))
  scalar_config_parser enum_kind = none
  scalar_config_parser message_kind = none
  scalar_config_parser group_kind = none

  -- The end of the printed parser of an enum, behind `config.ParseEnum`.
  abbrev pub else_number : Error → Result ℕ → Result ℕ
  else_number e (ok v) = ok (v % 2 ^ 32)
  else_number e (err other) = err e

  abbrev pub else_named : Error → String → Option ℕ → Result ℕ
  else_named e raw (some number) = ok number
  else_named e raw none = else_number e (parse_int raw 32)

  abbrev pub else_value : ConfigFieldInfo → String → Result ℕ → Result ℕ
  else_value field raw (ok v) = ok v
  else_value field raw (err e) = else_named e raw (named_number raw field.enum_values)

  -- The function whose body `emitEnumFieldParserBody` prints for these mappings.
  unfoldable pub enum_parser : ConfigFieldInfo → List EnumMapping → String → Result ℕ
  enum_parser field mappings raw = else_value field raw (
      parse_enum strconv letters.to_lower_text raw
        (map (λ m. some (record { name = m.cli_value; number = m.number })) mappings)
        field.enum_type_name)

  abbrev pub emit_enum_parser :
      ConfigFieldInfo
      → Result (List EnumMapping)
      → Result (String → Result (Value Float32 Float64 Bytes))
  emit_enum_parser field (err e) = err (wrapping (field.proto_name +++ ": " +++ error_text e) e)
  emit_enum_parser field (ok mappings) =
      ok (λ raw. with_value of_enum (enum_parser field mappings raw))

  abbrev pub emit_scalar_parser :
      Kind
      → Option (String → Result (Value Float32 Float64 Bytes))
      → Result (String → Result (Value Float32 Float64 Bytes))
  emit_scalar_parser kind none = err (unsupported_kind kind)
  emit_scalar_parser kind (some parser) = ok parser

  abbrev pub emit_parser :
      ConfigFieldInfo → Kind → Result (String → Result (Value Float32 Float64 Bytes))
  emit_parser field kind =
      if is_enum_kind kind
      then emit_enum_parser field (enum_cli_values letters field.enum_type_name field.enum_values)
      else emit_scalar_parser kind (scalar_config_parser kind)

  -- `emitFieldParser`: the function that it prints, or its error.
  unfoldable pub emit_field_parser :
      ConfigFieldInfo → Result (String → Result (Value Float32 Float64 Bytes))
  emit_field_parser field = emit_parser field field.kind

  -- The loop of `emitFieldParsers`: the functions that are printed, under the fields' Go names.
  unfoldable pub emit_field_parsers :
      List ConfigFieldInfo
      → Result (List (String × (String → Result (Value Float32 Float64 Bytes))))
  emit_field_parsers [] = ok []
  emit_field_parsers (field ∷ fields) =
      let rest = emit_field_parsers fields in
      if not (needs_json_field_parser field) && not (needs_string_parser field)
      then rest
      else (emit_field_parser field >>= λ parser.
          rest >>= λ parsers. ok ((field.go_name, parser) ∷ parsers))
