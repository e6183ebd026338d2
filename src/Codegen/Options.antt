-- ===== src/Codegen/Options.antt =====
-- internal/codegen/options.go: what the generator reads of a file, before it checks it.
use procframe.Prelude.{
  String, Bool, true, false, Option, none, some, List, [], ◌∷◌, if◌then◌else◌, map,
}
use procframe.Prelude.Text.{◌+++◌, join}
use procframe.Errors.{Error, plain, Result, ok, err}
use procframe.Codegen.Naming.{EnumValueInfo}
use procframe.Codegen.ConfigModel.{ConfigFieldInfo, ConfigInfo, is_config_proto}
use procframe.Codegen.Tree.{MethodInfo, ServiceInfo}
use procframe.Codegen.Descriptors.{
  ConfigFieldOptions, CliGroupOptions, ProcOptions, ProtoEnum, ProtoField, ProtoMessage,
  ProtoMethod, ProtoService, ProtoFile,
}

-- `if p != nil { x = *p }`, with the value before for `old`, and the getter of an optional field.
abbrev pub value_or : {A : Type 0} → A → Option A → A
value_or old none = old
value_or old (some a) = a

-- `if p != nil { x = p.GetEnabled() }`, with the default of the field for `unset`.
abbrev pub enabled_or : Bool → Bool → Option (Option Bool) → Bool
enabled_or old unset none = old
enabled_or old unset (some enabled) = value_or unset enabled

unfoldable pub method_shape : Bool → Bool → String
method_shape true true = "bidi"
method_shape true false = "client_stream"
method_shape false true = "server_stream"
method_shape false false = "unary"

-- `opts == nil` and a missing extension both leave the info as it is.
unfoldable pub apply_method_options : MethodInfo → Option (Option ProcOptions) → MethodInfo
apply_method_options info none = info
apply_method_options info (some none) = info
apply_method_options info (some (some proc)) = record info {
  path = value_or info.path proc.cli_path;
  cli = enabled_or info.cli true proc.cli;
  connect = enabled_or info.connect false proc.connect;
  ws = enabled_or info.ws false proc.ws;
  summary = value_or info.summary proc.summary;
  hidden = value_or info.hidden proc.hidden;
}

unfoldable pub extract_method_info : ProtoService → ProtoMethod → MethodInfo
unfolding apply_method_options method_shape
extract_method_info svc m =
    apply_method_options
      (record {
        go_name = m.go_name;
        path = [];
        cli = true;
        connect = false;
        ws = false;
        summary = "";
        hidden = false;
        input_go_name = m.input_go_name;
        output_go_name = m.output_go_name;
        full_name = "/" +++ svc.proto_package +++ "." +++ svc.name +++ "/" +++ m.name;
        shape = method_shape m.streaming_client m.streaming_server;
      })
      m.options

unfoldable pub apply_service_options : ServiceInfo → Option (Option CliGroupOptions) → ServiceInfo
apply_service_options info none = info
apply_service_options info (some none) = info
apply_service_options info (some (some group)) = record info {
  path = value_or info.path group.path;
  bind_into = value_or info.bind_into group.bind_into;
  summary = value_or info.summary group.summary;
  hidden = value_or info.hidden group.hidden;
}

unfoldable pub extract_service_info : ProtoService → ServiceInfo
unfolding apply_service_options
extract_service_info svc =
    record (apply_service_options
      (record {
        go_name = svc.go_name;
        path = [];
        bind_into = "";
        summary = "";
        hidden = false;
        methods = [];
      })
      svc.options) { methods = map (extract_method_info svc) svc.methods }

unfoldable pub get_config_field_options : ProtoField → Option ConfigFieldOptions
get_config_field_options field = elim field.options [ none ↦ none | some options ↦ options.config ]

unfoldable pub get_field_description : ProtoField → String
get_field_description field = elim field.options [
  | none ↦ ""
  | some options ↦ elim options.description [ none ↦ "" | some text ↦ value_or "" text ]
]

is_set : {A : Type 0} → Option A → Bool
is_set none = false
is_set (some a) = true

enum_name : Option ProtoEnum → String
enum_name none = ""
enum_name (some e) = e.name

-- `extractEnumValueInfos`; the values of the descriptor are a name and a number already.
enum_value_infos : Option ProtoEnum → List EnumValueInfo
enum_value_infos none = []
enum_value_infos (some e) = e.values

unfoldable pub extract_config_field_info : ProtoField → ConfigFieldOptions → ConfigFieldInfo
unfolding is_set enum_name enum_value_infos
extract_config_field_info field options = record {
  proto_name = field.name;
  json_name = field.json_name;
  go_name = field.go_name;
  kind = field.kind;
  is_list = field.is_list;
  is_map = field.is_map;
  enum_type_name = enum_name field.enum;
  enum_values = enum_value_infos field.enum;
  env = value_or "" options.env;
  has_env = is_set options.env;
  default_string = value_or "" options.default_string;
  has_default = is_set options.default_string;
  required = value_or false options.required;
  secret = value_or false options.secret;
  bootstrap = value_or false options.bootstrap;
}

-- `configMessageInfo`.
pub record ConfigMessageInfo : Type 0 where
  pub go_name : String
  pub fields : List ConfigFieldInfo

-- The loop of `extractConfigMessageInfo`.
unfoldable pub config_fields : List ProtoField → List ConfigFieldInfo
unfolding extract_config_field_info get_config_field_options
config_fields [] = []
config_fields (field ∷ fields) =
    let rest = config_fields fields in
    elim (get_config_field_options field) [
      | none ↦ rest
      | some options ↦ extract_config_field_info field options ∷ rest
    ]

with_fields : String → List ConfigFieldInfo → Option ConfigMessageInfo
with_fields go_name [] = none
with_fields go_name (f ∷ fs) = some (record { go_name = go_name; fields = f ∷ fs })

unfoldable pub extract_config_message_info : ProtoMessage → Option ConfigMessageInfo
unfolding with_fields
extract_config_message_info msg = with_fields msg.go_name (config_fields msg.fields)

abbrev consider : Option ConfigMessageInfo → List ConfigMessageInfo → List ConfigMessageInfo
consider none candidates = candidates
consider (some info) candidates = info ∷ candidates

unfoldable pub collect_config_candidates : List ProtoMessage → List ConfigMessageInfo
collect_config_candidates [] = []
collect_config_candidates (msg ∷ messages) =
    consider (extract_config_message_info msg) (collect_config_candidates messages)

-- `sort` is slices.Sort.
module _ (base : String → String) (sort : List String → List String) (pattern : String) where
  err_multiple_config_messages : String → List ConfigMessageInfo → Error
  err_multiple_config_messages path candidates = plain (
      path
      +++ ": exactly one top-level config message with field options is allowed; found "
      +++ join ", " (sort (map (λ (c : ConfigMessageInfo). c.go_name) candidates)))

  config_of : String → List ConfigMessageInfo → Result (Option ConfigInfo)
  unfolding err_multiple_config_messages
  config_of path [] = ok none
  config_of path (c ∷ []) =
      ok (some (record { file_path = path; go_name = c.go_name; fields = c.fields }))
  config_of path (c ∷ d ∷ cs) = err (err_multiple_config_messages path (c ∷ d ∷ cs))

  unfoldable pub extract_config_info : ProtoFile → Result (Option ConfigInfo)
  unfolding config_of
  extract_config_info file =
      if is_config_proto base pattern file.path
      then config_of file.path (collect_config_candidates file.messages)
      else ok none
