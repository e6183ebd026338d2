-- ===== src/Codegen/Services/Kept.antt =====
-- What is read of a method keeps what its descriptor says.
use procframe.Prelude.Text.{◌+++◌}
use procframe.Prelude.{◌≡◌, refl, true, false, Option, none, some, []}
use procframe.Codegen.Tree.{MethodInfo}
use procframe.Codegen.Descriptors.{ProtoMethod, ProtoService, ProcOptions}
use procframe.Codegen.Options.{method_shape, apply_method_options, extract_method_info}

-- The options of a method do not change its name, its messages, its procedure or its shape.
module _ (svc : ProtoService) (m : ProtoMethod) where
  abbrev Keeps : MethodInfo → Type 0
  Keeps info =
      (info.go_name ≡ m.go_name)
      × (info.input_go_name ≡ m.input_go_name)
      × (info.output_go_name ≡ m.output_go_name)
      × (info.shape ≡ method_shape m.streaming_client m.streaming_server)

  pub extract-Keeps : Keeps (extract_method_info svc m)
  unfolding extract_method_info apply_method_options
  extract-Keeps = by_options m.options
    where
      by_options :
          (options : Option (Option ProcOptions))
          → Keeps (
              apply_method_options
                (record {
                  go_name = m.go_name;
                  path = [];
                  cli = true;
                  connect = false;
                  ws = false;
                  summary = "";
                  hidden = false;
                  input_go_name = m.input_go_name;
                  output_go_name = m.output_go_name;
                  full_name = "/" +++ svc.proto_package +++ "." +++ svc.name +++ "/" +++ m.name;
                  shape = method_shape m.streaming_client m.streaming_server;
                })
                options)
      by_options none = (refl, refl, refl, refl)
      by_options (some none) = (refl, refl, refl, refl)
      by_options (some (some proc)) = (refl, refl, refl, refl)
