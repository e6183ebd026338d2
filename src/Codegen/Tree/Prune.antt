-- ===== src/Codegen/Tree/Prune.antt =====
-- Dead groups are taken out of the tree of commands, and no command with them.
use mathlib.Core.Option.{some-injective}
use mathlib.Core.Path.{subst}
use procframe.Prelude.{
  ℕ, ◌+◌, ◌≡◌, refl, sym, ap, ◌∙◌, String, Bool, true, false, Option, none, some, List, [], ◌∷◌,
  ◌==◌, if◌then◌else◌, eqb, length, arith, eq_iff, Bool-cases, inl, inr, if-true, if-false,
}
use procframe.Codegen.Tree.{
  LeafInfo, ServiceInfo, TreeInfo, TreeNode, Entries, command, branch, no_entries, entry,
  find_entry, set_entry, child_or_new, with_options, entered, insert_path, is_dead,
  prune_dead_groups, prune_entries,
}
use procframe.Codegen.Tree.Paths.{find_leaf, find-set_entry, replaced-some}

-- No key stands twice in a map of children.
unfoldable mutual
  pub IsMap : TreeNode → Type 0
  IsMap (command info l) = Unit
  IsMap (branch info es) = AreMaps es

  pub AreMaps : Entries → Type 0
  AreMaps no_entries = Unit
  AreMaps (entry key node more) = (find_entry key more ≡ none) × IsMap node × AreMaps more

-- No group in a map of children is empty, at any depth.
unfoldable mutual
  pub IsAlive : TreeNode → Type 0
  IsAlive (command info l) = Unit
  IsAlive (branch info es) = AreAlive es

  pub AreAlive : Entries → Type 0
  AreAlive no_entries = Unit
  AreAlive (entry key node more) = (is_dead node ≡ false) × IsAlive node × AreAlive more

find_entry-AreMaps :
    (seg : String) (es : Entries) (child : TreeNode)
    → AreMaps es
    → find_entry seg es ≡ some child
    → IsMap child
unfolding find_entry IsMap
find_entry-AreMaps seg no_entries child m h = ground arith
find_entry-AreMaps seg (entry key node more) child m h = elim (Bool-cases (key == seg)) [
  | inl same ↦ subst IsMap (some-injective _ _ (rw same at h)) m.1
  | inr other ↦ find_entry-AreMaps seg more child m.2 (rw other at h)
]

set_entry-AreMaps :
    (seg : String) (es : Entries) (child : TreeNode)
    → AreMaps es
    → IsMap child
    → AreMaps (set_entry seg child es)
unfolding find_entry set_entry IsMap
set_entry-AreMaps seg no_entries child m c = (refl, c, tt)
set_entry-AreMaps seg (entry key node more) child m c = elim (Bool-cases (key == seg)) [
  | inl same ↦ rw same (m.0, c, m.2)
  | inr other ↦ rw other (
    find-set_entry seg key child more ∙ ground (arith, eq_iff key seg, eq_iff seg key, m.0),
    m.1,
    set_entry-AreMaps seg more child m.2 c,
  )
]

module _ (svc : ServiceInfo) (l : LeafInfo) where
  entered-IsMap : (i : ℕ) (child : TreeNode) → IsMap child → IsMap (entered svc l i child)
  unfolding entered IsMap
  entered-IsMap i child m = elim (Bool-cases (eqb (i + 1) (length svc.path))) [
    | inl last ↦ rw last (options child m)
    | inr inner ↦ rw inner m
  ]
    where
      options : (child : TreeNode) → IsMap child → IsMap (with_options svc child)
      options (command info old) m = tt
      options (branch info es) m = m

  pub insert_path-IsMap :
      (i : ℕ) (node node' : TreeNode) (p : List String)
      → IsMap node
      → insert_path svc l i node p ≡ some node'
      → IsMap node'
  unfolding insert_path IsMap
  insert_path-IsMap i node node' [] m h = subst IsMap (some-injective _ _ h) tt
  insert_path-IsMap i (command info old) node' (s ∷ p) m h = ground arith
  insert_path-IsMap i (branch info es) node' (s ∷ p) m h =
      let (child, inserted, same) = replaced-some svc l info s es _ node' h in
      subst IsMap same (
        set_entry-AreMaps s es child m (
          insert_path-IsMap (i + 1) _ child p (entered-IsMap i _ (there (find_entry s es) refl))
            inserted))
    where
      there : (found : Option TreeNode) → find_entry s es ≡ found → IsMap (child_or_new s found)
      there none h = tt
      there (some child) h = find_entry-AreMaps s es child m h

-- A dead group leads to no command.
dead_find : (q : List String) (node : TreeNode) → is_dead node ≡ true → find_leaf q node ≡ none
unfolding find_entry
dead_find q (command info l) h = ground arith
dead_find [] (branch info no_entries) h = refl
dead_find (t ∷ q) (branch info no_entries) h = refl
dead_find q (branch info (entry key node more)) h = ground arith

-- What stands at `t ∷ q` in a map of children.
abbrev found_in : List String → Option TreeNode → Option LeafInfo
found_in q none = none
found_in q (some child) = find_leaf q child

abbrev find_in : String → List String → Entries → Option LeafInfo
find_in t q es = found_in q (find_entry t es)

find_leaf-branch :
    (t : String) (q : List String) (info : TreeInfo) (es : Entries)
    → find_leaf (t ∷ q) (branch info es) ≡ find_in t q es
find_leaf-branch t q info es =
    elim (find_entry t es)
      as (λ o. elim o [ none ↦ none | some child ↦ find_leaf q child ] ≡ found_in q o) [
        | none ↦ refl
        | some child ↦ refl
      ]

found_in-if :
    (b : Bool) (q : List String) (node : TreeNode) (o : Option TreeNode)
    → found_in q (if b then some node else o) ≡ (if b then find_leaf q node else found_in q o)
found_in-if true q node o = refl
found_in-if false q node o = refl

entry_in :
    (t key : String) (q : List String) (node : TreeNode) (more : Entries)
    → find_in t q (entry key node more) ≡ (if key == t then find_leaf q node else find_in t q more)
unfolding find_entry
entry_in t key q node more = found_in-if (key == t) q node (find_entry t more)

-- The first entry of a map, before and behind the pruning.
first_entry :
    (t key : String) (q : List String) (node pruned : TreeNode) (more rest : Entries)
    → find_entry key more ≡ none
    → find_leaf q pruned ≡ find_leaf q node
    → find_in t q rest ≡ find_in t q more
    → find_in t q (if is_dead pruned then rest else entry key pruned rest)
      ≡ find_in t q (entry key node more)
first_entry t key q node pruned more rest absent same below = elim (Bool-cases (is_dead pruned)) [
  | inl dead ↦ rw dead (
      below ∙ elim (Bool-cases (key == t)) [
        | inl here ↦
            ap (found_in q) (ap (λ k. find_entry k more) (sym ((eq_iff key t).0 here)) ∙ absent)
            ∙ sym (dead_find q pruned dead)
            ∙ same
            ∙ sym (entry_in t key q node more ∙ if-true _ _ here)
        | inr there ↦ sym (entry_in t key q node more ∙ if-false _ _ there)
      ])
  | inr alive ↦ rw alive (
      entry_in t key q pruned rest
      ∙ (λ i. if key == t then same i else below i)
      ∙ sym (entry_in t key q node more))
]

mutual
  unfolding IsMap prune_dead_groups

  pub find_leaf-prune :
      (q : List String) (node : TreeNode)
      → IsMap node
      → find_leaf q (prune_dead_groups node) ≡ find_leaf q node
  find_leaf-prune q (command info l) m = refl
  find_leaf-prune [] (branch info es) m = refl
  find_leaf-prune (t ∷ q) (branch info es) m =
      find_leaf-branch t q info (prune_entries es)
      ∙ find_in-prune t q es m
      ∙ sym (find_leaf-branch t q info es)

  find_in-prune :
      (t : String) (q : List String) (es : Entries)
      → AreMaps es
      → find_in t q (prune_entries es) ≡ find_in t q es
  find_in-prune t q no_entries m = refl
  find_in-prune t q (entry key node more) m =
      first_entry t key q node (prune_dead_groups node) more (prune_entries more) m.0
        (find_leaf-prune q node m.1) (find_in-prune t q more m.2)

AreAlive-if :
    (key : String) (pruned : TreeNode) (rest : Entries)
    → IsAlive pruned
    → AreAlive rest
    → AreAlive (if is_dead pruned then rest else entry key pruned rest)
unfolding IsAlive
AreAlive-if key pruned rest a b = elim (Bool-cases (is_dead pruned)) [
  | inl dead ↦ rw dead b
  | inr alive ↦ rw alive (alive, a, b)
]

mutual
  unfolding IsAlive prune_dead_groups

  pub prune-IsAlive : (node : TreeNode) → IsAlive (prune_dead_groups node)
  prune-IsAlive (command info l) = tt
  prune-IsAlive (branch info es) = prune-AreAlive es

  prune-AreAlive : (es : Entries) → AreAlive (prune_entries es)
  prune-AreAlive no_entries = tt
  prune-AreAlive (entry key node more) =
      AreAlive-if key (prune_dead_groups node) (prune_entries more) (prune-IsAlive node)
        (prune-AreAlive more)
