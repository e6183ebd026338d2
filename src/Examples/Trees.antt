-- ===== src/Examples/Trees.antt =====
-- The tree of commands of a small service.
use procframe.Prelude.{◌≡◌, refl, String, true, false, none, some, List, [], ◌∷◌}
use procframe.Codegen.Tree.{
  MethodInfo, ServiceInfo, TreeNode, build_tree, insert_services, insert_methods, insert_path,
  find_entry, set_entry,
}
use procframe.Codegen.Tree.Paths.{find_leaf}
use procframe.Codegen.Tree.Prune.{IsAlive}
use procframe.Codegen.Tree.Exact.{commands, listed, build_tree-exact}

abbrev pub method_at : String → List String → MethodInfo
method_at name path = record {
  go_name = name;
  path = path;
  cli = true;
  connect = false;
  ws = false;
  summary = "";
  hidden = false;
  input_go_name = "Req";
  output_go_name = "Res";
  full_name = name;
  shape = "unary";
}

abbrev pub service_of : List MethodInfo → ServiceInfo
service_of methods = record {
  go_name = "Repo";
  path = "repo" ∷ [];
  bind_into = "";
  summary = "";
  hidden = false;
  methods = methods;
}

abbrev pub apart_service : ServiceInfo
apart_service =
    service_of (method_at "List" ("pr" ∷ "list" ∷ []) ∷ method_at "Show" ("pr" ∷ "show" ∷ []) ∷ [])

build_tree-exact_example :
    (tree : TreeNode) × (build_tree (apart_service ∷ []) ≡ some tree)
    × ((q : List String) → find_leaf q tree ≡ listed q (commands (apart_service ∷ [])))
    × IsAlive tree
build_tree-exact_example = build_tree-exact (apart_service ∷ []) (((refl, tt), (tt, tt)))

-- A command at the beginning of another's path: the write to its nil map of children panics.
prefix_panics :
    build_tree
      (service_of (method_at "Pr" ("pr" ∷ []) ∷ method_at "List" ("pr" ∷ "list" ∷ []) ∷ []) ∷ [])
    ≡ none
unfolding build_tree insert_services insert_methods insert_path find_entry set_entry
prefix_panics = refl
