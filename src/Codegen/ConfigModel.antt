-- ===== src/Codegen/ConfigModel.antt =====
-- internal/codegen/config_model.go and params.go: the fields of a configuration message, and which
-- files hold one.
use Prim.Native.Char.{code}
use procframe.Prelude.{String, Bool, true, false, List, ◌==◌, if◌then◌else◌, eqb}
use procframe.Codegen.Naming.{EnumValueInfo, field_to_flag_name}

-- `protoreflect.Kind`.
pub data Kind : Type 0 where
  bool_kind int32_kind sint32_kind sfixed32_kind int64_kind sint64_kind sfixed64_kind : Kind
  uint32_kind fixed32_kind uint64_kind fixed64_kind float_kind double_kind string_kind : Kind
  bytes_kind enum_kind message_kind group_kind : Kind

-- `configFieldInfo`, without `EnumGoIdent`, an identifier of protogen for the printed code.
pub record ConfigFieldInfo : Type 0 where
  pub proto_name : String
  pub json_name : String
  pub go_name : String
  pub kind : Kind
  pub is_list : Bool
  pub is_map : Bool
  pub enum_type_name : String
  pub enum_values : List EnumValueInfo
  pub env : String
  pub has_env : Bool
  pub default_string : String
  pub has_default : Bool
  pub required : Bool
  pub secret : Bool
  pub bootstrap : Bool

-- `configInfo`, with the name and the fields of its message.
pub record ConfigInfo : Type 0 where
  pub file_path : String
  pub go_name : String
  pub fields : List ConfigFieldInfo

unfoldable pub flag_name : ConfigFieldInfo → String
flag_name field = field_to_flag_name field.proto_name

-- `containsSlash`.
unfoldable pub contains_slash : String → Bool
contains_slash String.[] = false
contains_slash (String.◌∷◌ c s) =
    let rest = contains_slash s in if eqb (code c) b'/' then true else rest

-- `isConfigProto`, of the field `ConfigProto`; `base` is path.Base.
unfoldable pub is_config_proto : (String → String) → String → String → Bool
is_config_proto base pattern proto_path =
    if pattern == ""
    then base proto_path == "config.proto"
    else if contains_slash pattern
    then proto_path == pattern
    else base proto_path == pattern
