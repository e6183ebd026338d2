-- ===== src/Codegen/Inputs.antt =====
-- internal/codegen/gen.go and validate.go: what is read of a file, and the checks on it and on all the
-- files of a request, in front of the generation.
pub mod Enums
pub mod Bound
pub mod Claimed
pub mod Accepted
pub mod Seen
use procframe.Prelude.{
  String, Bool, true, false, Option, none, some, List, [], ◌∷◌, ◌++◌, ◌==◌, if◌then◌else◌, contains,
  map,
}
use procframe.Prelude.Text.{◌+++◌}
use procframe.Errors.{Error, plain, Result, ok, err, ◌>>=◌}
use procframe.Strconv.{Strconv}
use procframe.Codegen.Naming.{Letters, EnumMapping, enum_cli_values}
use procframe.Codegen.ConfigModel.{Kind, message_kind, ConfigFieldInfo, ConfigInfo}
use procframe.Codegen.Validate.{
  validate_duplicate_paths, validate_config_env, validate_config_bootstrap, validate_config_info,
}
use procframe.Codegen.Tree.{MethodInfo, ServiceInfo}
use procframe.Codegen.Descriptors.{ProtoEnum, ProtoField, ProtoMessage, ProtoFile}
use procframe.Codegen.Options.{extract_service_info, extract_config_info}

-- `kind != protoreflect.MessageKind`.
abbrev pub is_message_kind : Kind → Bool
is_message_kind message_kind = true
is_message_kind _ = false

unfoldable pub find_field : List ProtoField → String → Option ProtoField
find_field [] name = none
find_field (field ∷ fields) name =
    let rest = find_field fields name in if field.name == name then some field else rest

find_in : List ProtoMessage → String → Option ProtoMessage
find_in [] go_name = none
find_in (msg ∷ messages) go_name =
    let rest = find_in messages go_name in if msg.go_name == go_name then some msg else rest

-- The messages of the files that are generated, in their order.
abbrev pub generated_messages : List ProtoFile → List ProtoMessage
generated_messages [] = []
generated_messages (f ∷ files) =
    let rest = generated_messages files in if f.generate then f.messages ++ rest else rest

unfoldable pub find_message : List ProtoFile → String → Option ProtoMessage
unfolding find_in
find_message files go_name = find_in (generated_messages files) go_name

module _ (letters : Letters) where
  -- `if _, err := enumCLIValues(...); err != nil { return err }`, with the names in `checked` behind it.
  abbrev pub enum_checked : Result (List EnumMapping) → List String → Result (List String)
  enum_checked (err e) checked = err e
  enum_checked (ok mappings) checked = ok checked

  abbrev pub check_enum : Option ProtoEnum → List String → Result (List String)
  check_enum none checked = ok checked
  check_enum (some e) checked =
      if contains e.full_name checked
      then ok checked
      else enum_checked (enum_cli_values letters e.name e.values) (e.full_name ∷ checked)

  unfoldable pub check_message_enums : List ProtoField → List String → Result (List String)
  check_message_enums [] checked = ok checked
  check_message_enums (field ∷ fields) checked =
      check_enum field.enum checked >>= λ more. check_message_enums fields more

  -- The loops of `validateEnumCollisions`, over the messages of the files that are generated.
  unfoldable pub check_messages : List ProtoMessage → List String → Result (Unit {0})
  check_messages [] checked = ok tt
  check_messages (msg ∷ messages) checked =
      check_message_enums msg.fields checked >>= λ more. check_messages messages more

  unfoldable pub validate_enum_collisions : List ProtoFile → Result (Unit {0})
  validate_enum_collisions files = check_messages (generated_messages files) []

-- `text` is the name of a kind.
module _ (quote : String → String) (text : Kind → String) where
  bound_field : String → MethodInfo → Option ProtoField → Result (Unit {0})
  bound_field bind_into m none = err (
      plain (
        "bind_into "
        +++ quote bind_into
        +++ ": field not found in "
        +++ m.input_go_name
        +++ " (method "
        +++ m.full_name
        +++ ")"))
  bound_field bind_into m (some field) =
      if is_message_kind field.kind
      then ok tt
      else err (
          plain (
            "bind_into "
            +++ quote bind_into
            +++ ": field in "
            +++ m.input_go_name
            +++ " must be a message type, got "
            +++ text field.kind))

  bound_message : String → MethodInfo → Option ProtoMessage → Result (Unit {0})
  unfolding bound_field
  bound_message bind_into m none = ok tt
  bound_message bind_into m (some msg) = bound_field bind_into m (find_field msg.fields bind_into)

  unfoldable pub validate_bind_into_method :
      String → MethodInfo → List ProtoFile → Result (Unit {0})
  unfolding bound_message
  validate_bind_into_method bind_into m files =
      bound_message bind_into m (find_message files m.input_go_name)

  -- The inner loop of `validateBindInto`.
  unfoldable pub bind_methods : String → List MethodInfo → List ProtoFile → Result (Unit {0})
  bind_methods bind_into [] files = ok tt
  bind_methods bind_into (m ∷ ms) files =
      let rest = bind_methods bind_into ms files in
      if m.cli then (validate_bind_into_method bind_into m files >>= λ valid. rest) else rest

  unfoldable pub validate_bind_into : List ServiceInfo → List ProtoFile → Result (Unit {0})
  validate_bind_into [] files = ok tt
  validate_bind_into (svc ∷ services) files =
      let rest = validate_bind_into services files in
      if svc.bind_into == ""
      then rest
      else (bind_methods svc.bind_into svc.methods files >>= λ valid. rest)

-- The maps of `validateConfigCollisions`.
pub record Claims : Type 0 where
  pub env_seen : List (String × String)
  pub bootstrap_seen : List (String × String)

module _ (quote : String → String) (base : String → String) (sort : List String → List String)
    (pattern : String) where
  -- The inner loop of `validateConfigCollisions`.
  unfoldable pub claim_fields : String → List ConfigFieldInfo → Claims → Result Claims
  claim_fields go_name [] seen = ok seen
  claim_fields go_name (field ∷ fields) seen =
      let path = go_name +++ "." +++ field.proto_name in
      validate_config_env quote path field seen.env_seen >>= λ envs.
      validate_config_bootstrap quote path field seen.bootstrap_seen >>= λ flags.
      claim_fields go_name fields (record { env_seen = envs; bootstrap_seen = flags })

  -- `if err != nil || cfgInfo == nil { continue }`.
  abbrev pub claim_config : Result (Option ConfigInfo) → Claims → Result Claims
  claim_config (err e) seen = ok seen
  claim_config (ok none) seen = ok seen
  claim_config (ok (some cfg)) seen = claim_fields cfg.go_name cfg.fields seen

  unfoldable pub claim_files : List ProtoFile → Claims → Result (Unit {0})
  claim_files [] seen = ok tt
  claim_files (f ∷ files) seen =
      if f.generate
      then (claim_config (extract_config_info base sort pattern f) seen >>= λ more.
          claim_files files more)
      else claim_files files seen

  unfoldable pub validate_config_collisions : List ProtoFile → Result (Unit {0})
  validate_config_collisions files =
      claim_files files (record { env_seen = []; bootstrap_seen = [] })

  unfoldable pub extract_generation_inputs :
      ProtoFile → Result (List ServiceInfo × Option ConfigInfo)
  extract_generation_inputs file = extract_config_info base sort pattern file >>= λ cfg.
      ok (map extract_service_info file.services, cfg)

-- `hasCliMethods`.
unfoldable pub has_cli_methods : List MethodInfo → Bool
has_cli_methods [] = false
has_cli_methods (m ∷ ms) = let rest = has_cli_methods ms in if m.cli then true else rest

module _ {Float32 Float64 Bytes : Type 0} (strconv : Strconv Float32 Float64) (letters : Letters)
    (decode : String → Result Bytes) (text : Kind → String) (base : String → String)
    (sort : List String → List String) (pattern : String) where
  open strconv use {quote}

  unfoldable pub validate_generation_inputs :
      List ProtoFile → List ServiceInfo → Option ConfigInfo → Result (Unit {0})
  validate_generation_inputs files services cfg =
      validate_duplicate_paths quote services >>= λ apart.
      validate_enum_collisions letters files >>= λ spelled.
      validate_bind_into quote text services files >>= λ bound.
      validate_config_info strconv letters decode base pattern cfg >>= λ acceptable.
      validate_config_collisions quote base sort pattern files

  -- `Generate` up to the first line that is written: whether there is something to generate, and what.
  unfoldable pub checked_inputs :
      List ProtoFile → ProtoFile → Result (Option (List ServiceInfo × Option ConfigInfo))
  checked_inputs files file =
      extract_generation_inputs quote base sort pattern file >>= λ inputs. if_any inputs
    where
      if_any :
          List ServiceInfo × Option ConfigInfo
          → Result (Option (List ServiceInfo × Option ConfigInfo))
      if_any ([], none) = ok none
      if_any (services, cfg) =
          validate_generation_inputs files services cfg >>= λ valid. ok (some (services, cfg))
