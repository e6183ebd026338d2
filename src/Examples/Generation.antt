-- ===== src/Examples/Generation.antt =====
-- The checks of the generator on two small files, from their descriptors.
use procframe.Prelude.{◌≡◌, refl, String, true, false, none, some, List, [], ◌∷◌, lookup, insert}
use procframe.Errors.{ok}
use procframe.Config.Load.{Spec, detect_conflicts, claim}
use procframe.Codegen.Naming.{field_to_flag_name}
use procframe.Codegen.Inputs.Claimed.{generated_configs}
use procframe.Codegen.Validate.{validate_config_env, validate_config_bootstrap, claim_unless}
use procframe.Codegen.ConfigModel.{Kind, string_kind, enum_kind, flag_name, is_config_proto}
use procframe.Codegen.Descriptors.{ProtoEnum, ProtoField, ProtoMethod, ProtoService, ProtoFile}
use procframe.Codegen.Options.{
  method_shape, extract_method_info, extract_config_info, apply_method_options,
  collect_config_candidates, extract_config_message_info, config_fields, get_config_field_options,
  extract_config_field_info,
}
use procframe.Codegen.Inputs.{validate_config_collisions, claim_files, claim_fields}
use procframe.Codegen.Inputs.Accepted.{emitted_specs, collisions-detect}
use procframe.Calls.{done}
use procframe.Prelude.{All}
use procframe.Prelude.Distinct.{Distinct}
use procframe.Ws.Session.{SessionCode}
use procframe.Codegen.Services.{
  ws_registration, connect_registration, handler_signature, enabled, generate_ws,
}
use procframe.Codegen.Services.WsClient.{ws_signature, ws_client_method, generate_ws_client}
use procframe.Codegen.Services.Typed.{handler_param, type_of, FitsCall, generated-IsTyped}
use procframe.Codegen.Services.Served.{
  procedures, methods_of, IsServed, register, generate_ws-IsServed,
}

abbrev color : ProtoEnum
color = record {
  name = "Color";
  full_name = "shop.v1.Color";
  values =
      record { proto_name = "COLOR_UNSPECIFIED"; number = 0 }
      ∷ record { proto_name = "COLOR_RED"; number = 1 }
      ∷ [];
}

abbrev plain_field : String → Kind → ProtoField
plain_field name kind = record {
  name = name;
  json_name = name;
  go_name = name;
  kind = kind;
  is_list = false;
  is_map = false;
  enum = none;
  options = none;
}

-- A field of a configuration that an environment variable and a bootstrap flag set.
abbrev config_field : String → String → ProtoField
config_field name env = record (plain_field name string_kind) {
  options = some (record {
    config = some (record {
      env = some env;
      default_string = none;
      required = none;
      secret = none;
      bootstrap = some true;
    });
    description = none;
  });
}

abbrev list_method : ProtoMethod
list_method = record {
  name = "List";
  go_name = "List";
  input_go_name = "ListRequest";
  output_go_name = "ListResponse";
  streaming_client = false;
  streaming_server = true;
  options = some (
      some (record {
        cli_path = some ("list" ∷ []);
        cli = none;
        connect = none;
        ws = some (some true);
        summary = none;
        hidden = none;
      }));
}

abbrev shop_service : ProtoService
shop_service = record {
  proto_package = "shop.v1";
  name = "ShopService";
  go_name = "ShopService";
  methods = list_method ∷ [];
  options = none;
}

abbrev shop_file : ProtoFile
shop_file = record {
  path = "shop/config.proto";
  generate = true;
  messages =
      record {
        go_name = "ListRequest";
        fields = record (plain_field "color" enum_kind) { enum = some color } ∷ [];
      }
      ∷ record { go_name = "ShopConfig"; fields = config_field "name" "SHOP_NAME" ∷ [] }
      ∷ [];
  services = shop_service ∷ [];
}

abbrev user_file : ProtoFile
user_file = record {
  path = "user/config.proto";
  generate = true;
  messages = record { go_name = "UserConfig"; fields = config_field "user" "USER_NAME" ∷ [] } ∷ [];
  services = [];
}

abbrev files : List ProtoFile
files = shop_file ∷ user_file ∷ []

abbrev base_name : String → String
base_name path = "config.proto"

read_method : (extract_method_info shop_service list_method).full_name ≡ "/shop.v1.ShopService/List"
unfolding extract_method_info apply_method_options
read_method = refl

collisions_free : validate_config_collisions (λ s. s) base_name (λ l. l) "" files ≡ ok tt
unfolding validate_config_collisions claim_files claim_fields validate_config_env
    validate_config_bootstrap claim_unless claim extract_config_info is_config_proto
    collect_config_candidates extract_config_message_info config_fields get_config_field_options
    extract_config_field_info flag_name field_to_flag_name lookup insert
collisions_free = refl

abbrev no_closures : Spec String
no_closures = record {
  env_names = [];
  bootstrap_specs = [];
  apply_defaults = λ c. ok c;
  apply_config_file = λ path. λ c. ok c;
  apply_env = λ env. λ c. ok c;
  apply_bootstrap = λ values. λ c. ok c;
  validate_required = λ c. none;
}

collisions-detect_example :
    detect_conflicts
      (emitted_specs (λ cfg. no_closures) (generated_configs (λ s. s) base_name (λ l. l) "" files))
    ≡ ok tt
collisions-detect_example =
    collisions-detect (λ cfg. no_closures) (λ s. s) base_name (λ l. l) "" files collisions_free

generated-IsTyped_example :
    (handler_param
        (ws_registration (extract_method_info shop_service list_method)).function
        "ListRequest"
        "ListResponse"
      ≡ some (
          type_of
            (handler_signature "List" "ListRequest" "ListResponse" (method_shape false true))))
    × (handler_param
          (connect_registration (extract_method_info shop_service list_method)).function
          "ListRequest"
          "ListResponse"
        ≡ some (
            type_of
              (handler_signature "List" "ListRequest" "ListResponse" (method_shape false true))))
    × FitsCall
        (ws_signature "List" "ListRequest" "ListResponse"
          (extract_method_info shop_service list_method).shape)
        (extract_method_info shop_service list_method).full_name
        (ws_client_method (extract_method_info shop_service list_method))
generated-IsTyped_example = generated-IsTyped shop_service list_method

shop_procedures :
    Distinct (procedures (enabled (λ m. m.ws) (methods_of shop_service (list_method ∷ []))))
unfolding enabled extract_method_info apply_method_options lookup
shop_procedures = (refl, tt)

-- A handler that does nothing.
abbrev no_code : String → String → SessionCode (Unit {0})
no_code method id = done tt

generate_ws-IsServed_example :
    All
      (IsServed no_code
        (register no_code (generate_ws (methods_of shop_service (list_method ∷ []))) []))
      (generate_ws_client (methods_of shop_service (list_method ∷ [])))
generate_ws-IsServed_example =
    generate_ws-IsServed no_code shop_service (list_method ∷ []) [] shop_procedures
