-- ===== src/Codegen/Tree/Paths.antt =====
-- What a path leads to in the tree of commands, and what one insertion does to that.
use mathlib.Core.Option.{some-injective}
use procframe.Prelude.{
  ℕ, ◌+◌, ◌≡◌, refl, sym, ap, ◌∙◌, String, Bool, true, false, Option, none, some, List, [], ◌∷◌,
  ◌==◌, ◌||◌, if◌then◌else◌, eqb, arith, eq_iff, eq_refl, Bool-cases, inl, inr, if-true, if-false,
  length,
}
use procframe.Codegen.Tree.{
  LeafInfo, ServiceInfo, TreeInfo, TreeNode, Entries, command, branch, no_entries, entry,
  find_entry, set_entry, child_or_new, with_options, entered, replaced, insert_path,
}

-- The command at a path.
abbrev pub find_leaf : List String → TreeNode → Option LeafInfo
find_leaf [] (command info l) = some l
find_leaf [] (branch info es) = none
find_leaf (seg ∷ rest) (command info l) = none
find_leaf (seg ∷ rest) (branch info es) = elim (find_entry seg es) [
  | none ↦ none
  | some child ↦ find_leaf rest child
]

-- Whether the path `q` begins with the path `p`, and whether one of two begins with the other.
abbrev pub starts : List String → List String → Bool
starts [] q = true
starts (s ∷ p) [] = false
starts (s ∷ p) (t ∷ q) = let rest = starts p q in if s == t then rest else false

abbrev pub clash : List String → List String → Bool
clash p q = starts p q || starts q p

abbrev pub same_path : List String → List String → Bool
same_path [] [] = true
same_path [] (t ∷ q) = false
same_path (s ∷ p) [] = false
same_path (s ∷ p) (t ∷ q) = let rest = same_path p q in if s == t then rest else false

pub find-set_entry :
    (seg t : String) (child : TreeNode) (es : Entries)
    → find_entry t (set_entry seg child es) ≡ (if seg == t then some child else find_entry t es)
unfolding find_entry set_entry
find-set_entry seg t child no_entries = ground arith
find-set_entry seg t child (entry key node more) =
    ground (arith, find-set_entry seg t child more, eq_iff key seg, eq_iff key t, eq_iff seg t)

-- What an insertion at `p` makes of what stands at `q`: the new command, nothing behind it, and else
-- what was there.
abbrev pub after : LeafInfo → List String → List String → Option LeafInfo → Option LeafInfo
after l p q old = if same_path p q then some l else if starts p q then none else old

module _ (svc : ServiceInfo) (l : LeafInfo) where
  find_leaf-options :
      (i : ℕ) (q : List String) (child : TreeNode)
      → find_leaf q (entered svc l i child) ≡ find_leaf q child
  unfolding entered with_options
  find_leaf-options i q child = elim (Bool-cases (eqb (i + 1) (length svc.path))) [
    | inl last ↦ rw last (options q child)
    | inr inner ↦ rw inner refl
  ]
    where
      options :
          (q : List String) (child : TreeNode)
          → find_leaf q (with_options svc child) ≡ find_leaf q child
      options [] (command info old) = refl
      options [] (branch info es) = refl
      options (t ∷ q) (command info old) = refl
      options (t ∷ q) (branch info es) = refl

  -- What stands below a child, also one that is new.
  find_leaf-child :
      (i : ℕ) (seg : String) (q : List String) (info : TreeInfo) (es : Entries)
      → find_leaf q (entered svc l i (child_or_new seg (find_entry seg es)))
        ≡ find_leaf (seg ∷ q) (branch info es)
  unfolding child_or_new find_entry
  find_leaf-child i seg q info es = find_leaf-options i q _ ∙ below q (find_entry seg es)
    where
      below :
          (q : List String) (found : Option TreeNode)
          → find_leaf q (child_or_new seg found)
            ≡ elim found [ none ↦ none | some child ↦ find_leaf q child ]
      below [] none = refl
      below (t ∷ q) none = refl
      below q (some child) = refl

  pub replaced-some :
      (info : TreeInfo) (seg : String) (es : Entries) (r : Option TreeNode) (node : TreeNode)
      → replaced svc l info seg es r ≡ some node
      → (child : TreeNode) × (r ≡ some child) × (branch info (set_entry seg child es) ≡ node)
  unfolding replaced
  replaced-some info seg es none node h = ground arith
  replaced-some info seg es (some child) node h = (child, refl, some-injective _ _ h)

  -- The new child of a branch, from an entry on.
  after-entry :
      (s t : String) (p q : List String) (child : TreeNode) (info : TreeInfo) (es : Entries)
      → find_leaf q child ≡ after l p q (find_leaf (s ∷ q) (branch info es))
      → find_leaf (t ∷ q) (branch info (set_entry s child es))
        ≡ after l (s ∷ p) (t ∷ q) (find_leaf (t ∷ q) (branch info es))
  after-entry s t p q child info es h = elim (Bool-cases (s == t)) [
    | inl same ↦
        ap (λ o. elim o [ none ↦ none | some n ↦ find_leaf q n ])
          (find-set_entry s t child es ∙ if-true _ _ same)
        ∙ h
        ∙ ap (λ u. after l p q (find_leaf (u ∷ q) (branch info es))) ((eq_iff s t).0 same)
        ∙ rw same refl
    | inr other ↦
        ap (λ o. elim o [ none ↦ none | some n ↦ find_leaf q n ])
          (find-set_entry s t child es ∙ if-false _ _ other)
        ∙ rw other refl
  ]

  pub find_leaf-insert_path :
      (i : ℕ) (node node' : TreeNode) (p q : List String)
      → insert_path svc l i node p ≡ some node'
      → find_leaf q node' ≡ after l p q (find_leaf q node)
  unfolding insert_path
  find_leaf-insert_path i node node' [] [] h = ap (find_leaf []) (sym (some-injective _ _ h))
  find_leaf-insert_path i node node' [] (t ∷ q) h =
      ap (find_leaf (t ∷ q)) (sym (some-injective _ _ h))
  find_leaf-insert_path i (command info old) node' (s ∷ p) q h = ground arith
  find_leaf-insert_path i (branch info es) node' (s ∷ p) [] h =
      let (child, inserted, same) = replaced-some info s es _ node' h in
      ap (find_leaf []) (sym same)
  find_leaf-insert_path i (branch info es) node' (s ∷ p) (t ∷ q) h =
      let (child, inserted, same) = replaced-some info s es _ node' h in
      ap (find_leaf (t ∷ q)) (sym same)
      ∙ after-entry s t p q child info es (
          find_leaf-insert_path (i + 1) _ child p q inserted
          ∙ ap (after l p q) (find_leaf-child i s q info es))

  -- Where no command stands at a path with which `p` begins, the insertion does not panic.
  pub insert_path-some :
      (i : ℕ) (node : TreeNode) (p : List String)
      → ((q : List String) (old : LeafInfo) → find_leaf q node ≡ some old → starts q p ≡ false)
      → (node' : TreeNode) × (insert_path svc l i node p ≡ some node')
  unfolding insert_path replaced
  insert_path-some i node [] free = (_, refl)
  insert_path-some i (command info old) (s ∷ p) free = ground (arith, free [] old refl)
  insert_path-some i (branch info es) (s ∷ p) free =
      let (child, inserted) = insert_path-some (i + 1) _ p (λ q old found.
        behind q (free (s ∷ q) old (sym (find_leaf-child i s q info es) ∙ found))) in
      (branch info (set_entry s child es), ap (replaced svc l info s es) inserted)
    where
      behind : (q : List String) → starts (s ∷ q) (s ∷ p) ≡ false → starts q p ≡ false
      behind q h = ground (arith, eq_refl s)
