-- ===== src/Codegen/Tree/Exact.antt =====
-- The tree of commands holds each command of the services at its path, and nothing else.
use mathlib.Core.Path.{subst}
use procframe.Prelude.{
  ◌≡◌, refl, sym, ap, ◌∙◌, String, true, false, Option, none, some, List, [], ◌∷◌, ◌++◌,
  if◌then◌else◌, append_assoc, append-nil, arith, eq_iff, All, Bool-cases, Option-cases, inl, inr,
}
use procframe.Prelude.Distinct.{or_else}
use procframe.Codegen.Tree.{
  LeafInfo, MethodInfo, ServiceInfo, TreeNode, leaf_of, insert_path, insert_methods,
  insert_services, find_entry, empty_root, prune_dead_groups, build_tree,
}
use procframe.Codegen.Tree.Paths.{
  find_leaf, starts, clash, same_path, after, find_leaf-insert_path, insert_path-some,
}
use procframe.Codegen.Tree.Prune.{IsMap, IsAlive, insert_path-IsMap, find_leaf-prune, prune-IsAlive}

-- The commands of a service's methods and of services, with their paths.
abbrev pub commands_of : ServiceInfo → List MethodInfo → List (List String × LeafInfo)
commands_of svc [] = []
commands_of svc (m ∷ ms) =
    let rest = commands_of svc ms in
    if m.cli then (svc.path ++ m.path, leaf_of svc m) ∷ rest else rest

abbrev pub commands : List ServiceInfo → List (List String × LeafInfo)
commands [] = []
commands (svc ∷ svcs) = commands_of svc svc.methods ++ commands svcs

-- The command that is listed at a path.
abbrev pub listed : List String → List (List String × LeafInfo) → Option LeafInfo
listed q [] = none
listed q ((p, l) ∷ cs) = let rest = listed q cs in if same_path p q then some l else rest

-- No path begins with the path of another command.
abbrev pub Apart : List (List String × LeafInfo) → Type 0
Apart [] = Unit
Apart ((p, l) ∷ cs) = All (λ c. clash p c.0 ≡ false) cs × Apart cs

same_path-starts : (p q : List String) → same_path p q ≡ true → starts p q ≡ true
same_path-starts [] [] h = refl
same_path-starts [] (t ∷ q) h = ground arith
same_path-starts (s ∷ p) [] h = ground arith
same_path-starts (s ∷ p) (t ∷ q) h = ground (arith, same_path-starts p q)

starts-same : (p q r : List String) → same_path p q ≡ true → starts q r ≡ starts p r
starts-same [] [] r h = refl
starts-same [] (t ∷ q) r h = ground arith
starts-same (s ∷ p) [] r h = ground arith
starts-same (s ∷ p) (t ∷ q) [] h = refl
starts-same (s ∷ p) (t ∷ q) (u ∷ r) h =
    ground (arith, starts-same p q r, eq_iff s t, eq_iff s u, eq_iff t u)

starts-same_right : (p q r : List String) → same_path p q ≡ true → starts r q ≡ starts r p
starts-same_right p q [] h = refl
starts-same_right [] [] (u ∷ r) h = refl
starts-same_right [] (t ∷ q) (u ∷ r) h = ground arith
starts-same_right (s ∷ p) [] (u ∷ r) h = ground arith
starts-same_right (s ∷ p) (t ∷ q) (u ∷ r) h =
    ground (arith, starts-same_right p q r, eq_iff s t, eq_iff u s, eq_iff u t)

-- A path that is listed does not clash with one that clashes with none in the list.
listed-clash :
    (p q : List String) (cs : List (List String × LeafInfo)) {old : LeafInfo}
    → All (λ c. clash c.0 p ≡ false) cs
    → listed q cs ≡ some old
    → (starts q p ≡ false) × (starts p q ≡ false)
listed-clash p q [] all h = (ground arith, ground arith)
listed-clash p q ((r, l) ∷ cs) all h = elim (Bool-cases (same_path r q)) [
  | inl same ↦ (
    starts-same r q p same ∙ ground (arith, all.0),
    starts-same_right r q p same ∙ ground (arith, all.0),
  )
  | inr other ↦ listed-clash p q cs all.1 (rw other at h)
]

listed-append :
    (q : List String) (xs ys : List (List String × LeafInfo))
    → listed q (xs ++ ys) ≡ or_else (listed q xs) (listed q ys)
listed-append q [] ys = refl
listed-append q ((p, l) ∷ xs) ys = elim (Bool-cases (same_path p q)) [
  | inl same ↦ rw same refl
  | inr other ↦ rw other (listed-append q xs ys)
]

-- One command more.
listed-after :
    (p q : List String) (l : LeafInfo) (cs : List (List String × LeafInfo))
    → All (λ c. clash c.0 p ≡ false) cs
    → after l p q (listed q cs) ≡ listed q (cs ++ (p, l) ∷ [])
listed-after p q l cs all = elim (Option-cases (listed q cs)) [
  | inl new ↦ rw (listed-append q cs ((p, l) ∷ []), new) (ground arith)
  | inr (old, found) ↦
      let (behind, ahead) = listed-clash p q cs all found in
      rw (listed-append q cs ((p, l) ∷ []), found) (ground (arith, same_path-starts p q))
]

Apart-middle :
    (p : List String) (l : LeafInfo) (xs ys : List (List String × LeafInfo))
    → Apart (xs ++ (p, l) ∷ ys)
    → All (λ c. clash c.0 p ≡ false) xs
Apart-middle p l [] ys a = tt
Apart-middle p l ((q, k) ∷ xs) ys a = (within xs a.0, Apart-middle p l xs ys a.1)
  where
    within :
        (xs : List (List String × LeafInfo))
        → All (λ c. clash q c.0 ≡ false) (xs ++ (p, l) ∷ ys)
        → clash q p ≡ false
    within [] h = h.0
    within (x ∷ xs) h = within xs h.1

-- What the tree is, when these commands have been inserted.
record IsExact (done : List (List String × LeafInfo)) (node : TreeNode) : Type 0 where
  at : (q : List String) → find_leaf q node ≡ listed q done
  map : IsMap node

insert_path-IsExact :
    (svc : ServiceInfo) (l : LeafInfo) (p : List String) (done : List (List String × LeafInfo))
    (node : TreeNode)
    → All (λ c. clash c.0 p ≡ false) done
    → IsExact done node
    → (node' : TreeNode) × (insert_path svc l 0 node p ≡ some node')
      × IsExact (done ++ (p, l) ∷ []) node'
insert_path-IsExact svc l p done node free v =
    let (node', inserted) =
      insert_path-some svc l 0 node p
        (λ q old found. (listed-clash p q done free (sym (v.at q) ∙ found)).0) in
    (
      node',
      inserted,
      record {
        at = λ q.
            find_leaf-insert_path svc l 0 node node' p q inserted
            ∙ ap (after l p q) (v.at q)
            ∙ listed-after p q l done free;
        map = insert_path-IsMap svc l 0 node node' p v.map inserted;
      },
    )

-- A loop that has inserted commands.
Inserted : List (List String × LeafInfo) → Option TreeNode → Type 0
Inserted done r = (node : TreeNode) × (r ≡ some node) × IsExact done node

insert_methods-Inserted :
    (svc : ServiceInfo) (ms : List MethodInfo) (done rest : List (List String × LeafInfo))
    (root : TreeNode)
    → Apart (done ++ (commands_of svc ms ++ rest))
    → IsExact done root
    → Inserted (done ++ commands_of svc ms) (insert_methods svc ms root)
unfolding insert_methods Inserted
insert_methods-Inserted svc [] done rest root a v =
    (root, refl, subst (λ d. IsExact d root) (sym (append-nil done)) v)
insert_methods-Inserted svc (m ∷ ms) done rest root a v = elim (Bool-cases m.cli) [
  | inl exposed ↦
      let p = svc.path ++ m.path in
      let l = leaf_of svc m in
      let a' : Apart (done ++ ((p, l) ∷ (commands_of svc ms ++ rest))) = rw exposed at a in
      let (node, inserted, v') =
        insert_path-IsExact svc l p done root (Apart-middle p l done _ a') v in
      rw (exposed, inserted)
        (subst (λ d. Inserted d (insert_methods svc ms node))
          (append_assoc done ((p, l) ∷ []) (commands_of svc ms))
          (insert_methods-Inserted svc ms (done ++ (p, l) ∷ []) rest node
            (subst Apart (sym (append_assoc done ((p, l) ∷ []) (commands_of svc ms ++ rest))) a')
            v'))
  | inr hidden ↦ rw hidden (insert_methods-Inserted svc ms done rest root (rw hidden at a) v)
]

insert_services-Inserted :
    (svcs : List ServiceInfo) (done : List (List String × LeafInfo)) (root : TreeNode)
    → Apart (done ++ commands svcs)
    → IsExact done root
    → Inserted (done ++ commands svcs) (insert_services svcs root)
unfolding insert_services Inserted
insert_services-Inserted [] done root a v =
    (root, refl, subst (λ d. IsExact d root) (sym (append-nil done)) v)
insert_services-Inserted (svc ∷ svcs) done root a v =
    let now = commands_of svc svc.methods in
    let (node, inserted, v') =
      insert_methods-Inserted svc svc.methods done (commands svcs) root a v in
    subst (Inserted (done ++ (now ++ commands svcs)))
      (sym (ap (λ o. elim o [ none ↦ none | some n ↦ insert_services svcs n ]) inserted))
      (subst (λ d. Inserted d (insert_services svcs node)) (append_assoc done now (commands svcs))
        (insert_services-Inserted svcs (done ++ now) node
          (subst Apart (sym (append_assoc done now (commands svcs))) a) v'))

-- Where no command's path begins with the path of another, the tree is built without a panic, it has
-- each command at its path and nothing at any other path, and no group below its root is empty.
pub build_tree-exact :
    (services : List ServiceInfo)
    → Apart (commands services)
    → (tree : TreeNode) × (build_tree services ≡ some tree)
      × ((q : List String) → find_leaf q tree ≡ listed q (commands services))
      × IsAlive tree
unfolding build_tree Inserted IsMap find_entry
build_tree-exact services a =
    let (root, built, v) =
      insert_services-Inserted services [] empty_root a (record { at = empty; map = tt }) in
    (
      prune_dead_groups root,
      ap (λ o. elim o [ none ↦ none | some r ↦ some (prune_dead_groups r) ]) built,
      (λ q. find_leaf-prune q root v.map ∙ v.at q),
      prune-IsAlive root,
    )
  where
    empty : (q : List String) → find_leaf q empty_root ≡ none
    empty [] = refl
    empty (t ∷ q) = refl
