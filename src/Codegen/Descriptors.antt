-- ===== src/Codegen/Descriptors.antt =====
-- What internal/codegen reads of the descriptors of protogen and of the options of procframe, which
-- protoc and generated code provide.
use procframe.Prelude.{String, Bool, Option, List}
use procframe.Codegen.Naming.{EnumValueInfo}
use procframe.Codegen.ConfigModel.{Kind}

-- An optional field of an options message is `none` where it is not set.
pub record ConfigFieldOptions : Type 0 where
  pub env : Option String
  pub default_string : Option String
  pub required : Option Bool
  pub secret : Option Bool
  pub bootstrap : Option Bool

-- The two extensions of the options of a field.
pub record FieldOptions : Type 0 where
  pub config : Option ConfigFieldOptions
  pub description : Option (Option String)

pub record CliGroupOptions : Type 0 where
  pub path : Option (List String)
  pub bind_into : Option String
  pub summary : Option String
  pub hidden : Option Bool

-- A message with the one field `enabled` is the value of that field, where the message is set.
pub record ProcOptions : Type 0 where
  pub cli_path : Option (List String)
  pub cli : Option (Option Bool)
  pub connect : Option (Option Bool)
  pub ws : Option (Option Bool)
  pub summary : Option String
  pub hidden : Option Bool

pub record ProtoEnum : Type 0 where
  pub name : String
  pub full_name : String
  pub values : List EnumValueInfo

pub record ProtoField : Type 0 where
  pub name : String
  pub json_name : String
  pub go_name : String
  pub kind : Kind
  pub is_list : Bool
  pub is_map : Bool
  pub enum : Option ProtoEnum
  pub options : Option FieldOptions

pub record ProtoMessage : Type 0 where
  pub go_name : String
  pub fields : List ProtoField

-- The options of a method or of a service with the extension of procframe, where it has one.
pub record ProtoMethod : Type 0 where
  pub name : String
  pub go_name : String
  pub input_go_name : String
  pub output_go_name : String
  pub streaming_client : Bool
  pub streaming_server : Bool
  pub options : Option (Option ProcOptions)

pub record ProtoService : Type 0 where
  pub proto_package : String
  pub name : String
  pub go_name : String
  pub methods : List ProtoMethod
  pub options : Option (Option CliGroupOptions)

pub record ProtoFile : Type 0 where
  pub path : String
  pub generate : Bool
  pub messages : List ProtoMessage
  pub services : List ProtoService
