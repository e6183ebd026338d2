-- ===== src/Cli/Node.antt =====
-- transport/cli/node.go and help.go: the command tree, and the names that a group's help lists.
use procframe.Prelude.{String, Bool, true, false, Option, none, some, List, ◌==◌, if◌then◌else◌}
use procframe.Errors.{Error, Result}

-- What the context carries to a command: the `--json` payload and the output format, empty where
-- they were not given.
pub record Context : Type 0 where
  pub json_payload : String
  pub output_fmt : String

-- The fields of `Node` but `Children`. A `*flag.FlagSet` is what its `Parse` makes of arguments: the
-- rest of them, or an error, which is flag.ErrHelp for `--help`. `run` has its error as result.
pub record NodeInfo : Type 0 where
  pub segment : String
  pub summary : String
  pub hidden : Bool
  pub flag_set : Option (List String → Result (List String))
  pub run : Option (Context → List String → Option Error)

-- `Children` is nil for a leaf. A group's map is the list of its entries.
mutual
  pub data Node : Type 0 where
    leaf : NodeInfo → Node
    group : NodeInfo → Children → Node

  pub data Children : Type 0 where
    no_more : Children
    child : String → Node → Children → Children

unfoldable pub is_group : Node → Bool
is_group (leaf info) = false
is_group (group info children) = true

-- `node.Children[name]`.
unfoldable pub find_child : String → Children → Option Node
find_child name no_more = none
find_child name (child key node more) = if key == name then some node else find_child name more

abbrev pub info_of : Node → NodeInfo
info_of (leaf info) = info
info_of (group info children) = info
