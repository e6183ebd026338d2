-- ===== src/Cli/Runner/Resolve.antt =====
-- The command that a list of arguments names is the one that is run.
use procframe.Prelude.{
  ◌≡◌, refl, String, false, Option, none, some, List, [], ◌∷◌, ◌++◌, ◌==◌, ◌∙◌, ap, Bool-cases, inl,
  inr,
}
use procframe.Errors.{Error, plain}
use procframe.Prelude.Text.{◌+++◌}
use procframe.Cli.Node.{Context, NodeInfo, Node, leaf, group, Children, no_more, child, find_child}
use procframe.Cli.Runner.{
  Outcome, ran, failed, is_help, command_args, traverse_group, enter, traverse,
}

module _ (ctx : Context) (path : List String) (name : String) (rest : List String) where
  -- What `dispatch` does at the child that the map has for the name.
  at_child : Option Node → Outcome
  at_child none = failed (plain ("unknown command \"" +++ name +++ "\""))
  at_child (some (leaf info)) = command_args ctx info name (path ++ name ∷ []) rest
  at_child (some (group info children)) =
      traverse_group info rest (path ++ name ∷ [])
        (λ next behind. enter ctx (path ++ name ∷ []) next behind children)

  enter-find_child : (cs : Children) → enter ctx path name rest cs ≡ at_child (find_child name cs)
  unfolding enter find_child at_child
  enter-find_child no_more = refl
  enter-find_child (child key (leaf info) more) = elim (Bool-cases (key == name)) [
    | inl e ↦ rw e
    | inr e ↦ rw e (enter-find_child more)
  ]
  enter-find_child (child key (group info children) more) = elim (Bool-cases (key == name)) [
    | inl e ↦ rw e
    | inr e ↦ rw e (enter-find_child more)
  ]

-- The names lead from the children of a group to a command, through groups that have no flags of
-- their own and by names that are not `--help` or `-h`.
pub data Leads : Children → List String → NodeInfo → Type 0 where
  here :
      {cs : Children} {info : NodeInfo} (name : String)
      → find_child name cs ≡ some (leaf info)
      → Leads cs (name ∷ []) info
  down :
      {cs : Children} {info : NodeInfo} (name next : String) (names : List String)
      (between : NodeInfo) (inside : Children)
      → find_child name cs ≡ some (group between inside)
      → between.flag_set ≡ none
      → is_help next ≡ false
      → Leads inside (next ∷ names) info
      → Leads cs (name ∷ next ∷ names) info

-- No argument is left, or the first one left does not ask for help.
abbrev pub IsPlain : List String → Type 0
IsPlain [] = Unit
IsPlain (arg ∷ rest) = is_help arg ≡ false

abbrev pub enter_all : Context → List String → List String → Children → List String → Outcome
enter_all ctx path [] cs rest = failed (plain "")
enter_all ctx path (name ∷ names) cs rest = enter ctx path name (names ++ rest) cs

command_args-ran :
    (ctx : Context) (info : NodeInfo) (name : String) (path rest : List String)
    (f : Context → List String → Option Error)
    → info.run ≡ some f
    → IsPlain rest
    → command_args ctx info name path rest ≡ ran info rest (f ctx rest)
unfolding command_args
command_args-ran ctx info name path [] f r h = rw r
command_args-ran ctx info name path (arg ∷ rest) f r h = rw (h, r)

traverse_group-next :
    (info : NodeInfo) (path : List String) (name : String) (rest : List String)
    (descend : String → List String → Outcome)
    → info.flag_set ≡ none
    → is_help name ≡ false
    → traverse_group info (name ∷ rest) path descend ≡ descend name rest
unfolding traverse_group
traverse_group-next info path name rest descend f h = rw (f, h)

at_group :
    (ctx : Context) (path : List String) (name next : String) (rest : List String)
    (between : NodeInfo) (inside : Children)
    → between.flag_set ≡ none
    → is_help next ≡ false
    → at_child ctx path name (next ∷ rest) (some (group between inside))
      ≡ enter ctx (path ++ name ∷ []) next rest inside
unfolding at_child
at_group ctx path name next rest between inside bare plain_name =
    traverse_group-next between (path ++ name ∷ []) next rest
      (λ n behind. enter ctx (path ++ name ∷ []) n behind inside) bare plain_name

at_leaf :
    (ctx : Context) (path : List String) (name : String) (rest : List String) (info : NodeInfo)
    → at_child ctx path name rest (some (leaf info))
      ≡ command_args ctx info name (path ++ name ∷ []) rest
unfolding at_child
at_leaf ctx path name rest info = refl

enter_all-ran :
    (ctx : Context) (path names rest : List String) {cs : Children} {info : NodeInfo}
    (f : Context → List String → Option Error)
    → Leads cs names info
    → info.run ≡ some f
    → IsPlain rest
    → enter_all ctx path names cs rest ≡ ran info rest (f ctx rest)
enter_all-ran ctx path names rest f (here {cs = cs} {info = info} name found) r h =
    enter-find_child ctx path name rest cs
    ∙ ap (at_child ctx path name rest) found
    ∙ at_leaf ctx path name rest info
    ∙ command_args-ran ctx info name (path ++ name ∷ []) rest f r h
enter_all-ran ctx path names rest f
      (down {cs = cs} name next more between inside found bare plain_name below) r h =
    enter-find_child ctx path name (next ∷ (more ++ rest)) cs
    ∙ ap (at_child ctx path name (next ∷ (more ++ rest))) found
    ∙ at_group ctx path name next (more ++ rest) between inside bare plain_name
    ∙ enter_all-ran ctx (path ++ name ∷ []) (next ∷ more) rest f below r h

-- Where the names lead from a root without flags of its own to a command with a run function, through
-- groups without flags, and neither a name nor the argument behind them asks for help, `traverse`
-- runs that command with the arguments behind the names, and what it returns is the outcome.
pub traverse-ran :
    (ctx : Context) (root : NodeInfo) (cs : Children) (path : List String) (name : String)
    (names rest : List String) (info : NodeInfo) (f : Context → List String → Option Error)
    → root.flag_set ≡ none
    → is_help name ≡ false
    → Leads cs (name ∷ names) info
    → info.run ≡ some f
    → IsPlain rest
    → traverse ctx (group root cs) (name ∷ (names ++ rest)) path ≡ ran info rest (f ctx rest)
unfolding traverse
traverse-ran ctx root cs path name names rest info f bare plain_name leads r h =
    traverse_group-next root path name (names ++ rest) _ bare plain_name
    ∙ enter_all-ran ctx path (name ∷ names) rest f leads r h
