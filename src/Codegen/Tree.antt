-- ===== src/Codegen/Tree.antt =====
-- internal/codegen/tree.go: the tree of commands that a service's methods make.
pub mod Paths
pub mod Prune
pub mod Exact
use procframe.Prelude.{
  ℕ, ◌+◌, String, Bool, true, false, Option, none, some, List, [], ◌∷◌, ◌++◌, ◌==◌, if◌then◌else◌,
  eqb, length,
}

-- `leafInfo`.
pub record LeafInfo : Type 0 where
  pub service_go_name : String
  pub method_go_name : String
  pub input_go_name : String
  pub output_go_name : String
  pub full_name : String
  pub shape : String

-- `methodInfo`.
pub record MethodInfo : Type 0 where
  pub go_name : String
  pub path : List String
  pub cli : Bool
  pub connect : Bool
  pub ws : Bool
  pub summary : String
  pub hidden : Bool
  pub input_go_name : String
  pub output_go_name : String
  pub full_name : String
  pub shape : String

-- `serviceInfo`.
pub record ServiceInfo : Type 0 where
  pub go_name : String
  pub path : List String
  pub bind_into : String
  pub summary : String
  pub hidden : Bool
  pub methods : List MethodInfo

-- The fields of `treeNode` but `Children` and `Leaf`, of which always exactly one is not nil.
pub record TreeInfo : Type 0 where
  pub segment : String
  pub summary : String
  pub hidden : Bool
  pub bind_into : String

-- A map of children is the list of its entries.
mutual
  pub data TreeNode : Type 0 where
    command : TreeInfo → LeafInfo → TreeNode
    branch : TreeInfo → Entries → TreeNode

  pub data Entries : Type 0 where
    no_entries : Entries
    entry : String → TreeNode → Entries → Entries

-- `node.Children[seg]` and `node.Children[seg] = child`.
unfoldable pub find_entry : String → Entries → Option TreeNode
find_entry seg no_entries = none
find_entry seg (entry key node more) =
    let rest = find_entry seg more in if key == seg then some node else rest

unfoldable pub set_entry : String → TreeNode → Entries → Entries
set_entry seg child no_entries = entry seg child no_entries
set_entry seg child (entry key node more) =
    let rest = set_entry seg child more in
    if key == seg then entry key child more else entry key node rest

abbrev pub info_of : TreeNode → TreeInfo
info_of (command info l) = info
info_of (branch info es) = info

-- `child, ok := node.Children[seg]; if !ok { child = &treeNode{...} }`.
unfoldable pub child_or_new : String → Option TreeNode → TreeNode
child_or_new seg none =
    branch (record { segment = seg; summary = ""; hidden = false; bind_into = "" }) no_entries
child_or_new seg (some child) = child

abbrev pub service_options : ServiceInfo → TreeInfo → TreeInfo
service_options svc info = record info {
  summary = svc.summary;
  hidden = svc.hidden;
  bind_into = svc.bind_into;
}

-- The service's options on a child.
unfoldable pub with_options : ServiceInfo → TreeNode → TreeNode
with_options svc (command info l) = command (service_options svc info) l
with_options svc (branch info es) = branch (service_options svc info) es

-- `summary` of a leaf.
unfoldable pub summary_of : LeafInfo → List MethodInfo → String
summary_of l [] = ""
summary_of l (m ∷ ms) =
    let rest = summary_of l ms in if m.go_name == l.method_go_name then m.summary else rest

module _ (svc : ServiceInfo) (l : LeafInfo) where
  -- `i == svcPathLen-1 && svcPathLen > 0`.
  unfoldable pub entered : ℕ → TreeNode → TreeNode
  unfolding with_options
  entered i child = if eqb (i + 1) (length svc.path) then with_options svc child else child

  unfoldable pub replaced : TreeInfo → String → Entries → Option TreeNode → Option TreeNode
  replaced info seg es none = none
  replaced info seg es (some child) = some (branch info (set_entry seg child es))

  -- `insertLeaf` at the segment `i`. A leaf has a nil map of children, and a write to it panics.
  unfoldable pub insert_path : ℕ → TreeNode → List String → Option TreeNode
  unfolding replaced entered child_or_new
  insert_path i node [] =
      some (command (record (info_of node) { summary = summary_of l svc.methods }) l)
  insert_path i (command info old) (seg ∷ rest) = none
  insert_path i (branch info es) (seg ∷ rest) =
      replaced info seg es
        (insert_path (i + 1) (entered i (child_or_new seg (find_entry seg es))) rest)

abbrev pub leaf_of : ServiceInfo → MethodInfo → LeafInfo
leaf_of svc m = record {
  service_go_name = svc.go_name;
  method_go_name = m.go_name;
  input_go_name = m.input_go_name;
  output_go_name = m.output_go_name;
  full_name = m.full_name;
  shape = m.shape;
}

-- The loops of `buildTree`.
unfoldable pub insert_methods : ServiceInfo → List MethodInfo → TreeNode → Option TreeNode
insert_methods svc [] root = some root
insert_methods svc (m ∷ ms) root =
    if m.cli
    then elim (insert_path svc (leaf_of svc m) 0 root (svc.path ++ m.path)) [
      | none ↦ none
      | some node ↦ insert_methods svc ms node
    ]
    else insert_methods svc ms root

unfoldable pub insert_services : List ServiceInfo → TreeNode → Option TreeNode
insert_services [] root = some root
insert_services (svc ∷ svcs) root = elim (insert_methods svc svc.methods root) [
  | none ↦ none
  | some node ↦ insert_services svcs node
]

abbrev pub is_dead : TreeNode → Bool
is_dead (command info l) = false
is_dead (branch info no_entries) = true
is_dead (branch info (entry key node more)) = false

-- `pruneDeadGroups`, and its loop.
unfoldable mutual
  pub prune_dead_groups : TreeNode → TreeNode
  prune_dead_groups (command info l) = command info l
  prune_dead_groups (branch info es) = branch info (prune_entries es)

  pub prune_entries : Entries → Entries
  prune_entries no_entries = no_entries
  prune_entries (entry key node more) =
      let pruned = prune_dead_groups node in
      let rest = prune_entries more in if is_dead pruned then rest else entry key pruned rest

abbrev pub empty_root : TreeNode
empty_root =
    branch (record { segment = ""; summary = ""; hidden = false; bind_into = "" }) no_entries

unfoldable pub build_tree : List ServiceInfo → Option TreeNode
build_tree services = elim (insert_services services empty_root) [
  | none ↦ none
  | some root ↦ some (prune_dead_groups root)
]
