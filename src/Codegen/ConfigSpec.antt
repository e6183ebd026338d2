-- ===== src/Codegen/ConfigSpec.antt =====
-- internal/codegen/config.go, emitConfigSpec: the `ConfigSpec` of a configuration message, as the value
-- that the printed Go code builds. Its closures call other printed functions and are a parameter.
use procframe.Prelude.{String, Option, some, List, [], ◌∷◌, if◌then◌else◌}
use procframe.Prelude.Text.{◌+++◌}
use procframe.Config.Bootstrap.{BootstrapSpec}
use procframe.Config.Load.{Spec}
use procframe.Codegen.ConfigModel.{ConfigFieldInfo, ConfigInfo, flag_name}

-- The entries of `EnvNames`.
unfoldable pub emitted_env_names : String → List ConfigFieldInfo → List (String × String)
emitted_env_names go_name [] = []
emitted_env_names go_name (field ∷ fields) =
    let rest = emitted_env_names go_name fields in
    if field.has_env then (field.env, go_name +++ "." +++ field.proto_name) ∷ rest else rest

-- The elements of `BootstrapSpecs`.
unfoldable pub emitted_bootstrap_specs : List ConfigFieldInfo → List (Option BootstrapSpec)
emitted_bootstrap_specs [] = []
emitted_bootstrap_specs (field ∷ fields) =
    let rest = emitted_bootstrap_specs fields in
    if field.bootstrap then some (record { flag = flag_name field }) ∷ rest else rest

unfoldable pub emitted_spec : {C : Type 0} → Spec C → ConfigInfo → Spec C
emitted_spec closures cfg = record closures {
  env_names = emitted_env_names cfg.go_name cfg.fields;
  bootstrap_specs = emitted_bootstrap_specs cfg.fields;
}
