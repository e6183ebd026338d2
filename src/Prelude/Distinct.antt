-- ===== src/Prelude/Distinct.antt =====
-- Maps as association lists with no key twice.
use mathlib.Core.Path.{subst}
use procframe.Prelude.{
  ◌≡◌, refl, String, Option, none, some, List, [], ◌∷◌, ◌++◌, arith, eq_iff, eq_refl, lookup,
  insert, delete, Bool-cases, inl, inr, ◌==◌, All, false, ap, ◌∙◌,
}

module _ {ℓ} {V : Type ℓ} where
  abbrev pub Distinct : List (String × V) → Type ℓ
  Distinct [] = Unit
  Distinct ((k, v) ∷ m) = (lookup k m ≡ none) × Distinct m

  abbrev pub or_else : Option V → Option V → Option V
  or_else none o = o
  or_else (some v) o = some v

  pub lookup-append :
      (k : String) (xs ys : List (String × V))
      → lookup k (xs ++ ys) ≡ or_else (lookup k xs) (lookup k ys)
  unfolding lookup
  lookup-append k [] ys = refl
  lookup-append k ((j, v) ∷ xs) ys = ground (arith, lookup-append k xs ys)

  pub insert-new :
      (k : String) (v : V) (m : List (String × V))
      → lookup k m ≡ none
      → insert k v m ≡ m ++ (k, v) ∷ []
  unfolding lookup insert
  insert-new k v [] h = refl
  insert-new k v ((j, w) ∷ m) h = ground (arith, insert-new k v m)

  pub delete-absent : (k : String) (m : List (String × V)) → lookup k m ≡ none → delete k m ≡ m
  unfolding lookup delete
  delete-absent k [] h = refl
  delete-absent k ((j, w) ∷ m) h = ground (arith, delete-absent k m)

  -- Deleting the key of an entry in the middle takes that entry out.
  pub delete-middle :
      (k : String) (v : V) (xs ys : List (String × V))
      → Distinct (xs ++ (k, v) ∷ ys)
      → delete k (xs ++ (k, v) ∷ ys) ≡ xs ++ ys
  unfolding lookup delete
  delete-middle k v [] ys d = rw eq_refl (delete-absent k ys d.0)
  delete-middle k v ((j, w) ∷ xs) ys d = ground (
    arith,
    lookup-append j xs ((k, v) ∷ ys),
    eq_iff j k,
    eq_iff k j,
    eq_refl k,
    delete-middle k v xs ys d.1,
  )

  pub Distinct-drop :
      (k : String) (v : V) (xs ys : List (String × V))
      → Distinct (xs ++ (k, v) ∷ ys)
      → Distinct (xs ++ ys)
  unfolding lookup
  Distinct-drop k v [] ys d = d.1
  Distinct-drop k v ((j, w) ∷ xs) ys d = (
    ground (arith, lookup-append j xs ((k, v) ∷ ys), lookup-append j xs ys),
    Distinct-drop k v xs ys d.1,
  )

  pub Distinct-add :
      (k : String) (v : V) (m : List (String × V))
      → Distinct m
      → lookup k m ≡ none
      → Distinct (m ++ (k, v) ∷ [])
  unfolding lookup
  Distinct-add k v [] d h = (refl, tt)
  Distinct-add k v ((j, w) ∷ m) d h = (
    ground (arith, lookup-append j m ((k, v) ∷ []), eq_iff j k, eq_iff k j),
    Distinct-add k v m d.1 (ground arith),
  )

  -- The key of an entry in the middle stands nowhere before it.
  pub Distinct-fresh :
      (k : String) (v : V) (xs ys : List (String × V))
      → Distinct (xs ++ (k, v) ∷ ys)
      → lookup k xs ≡ none
  unfolding lookup
  Distinct-fresh k v [] ys d = refl
  Distinct-fresh k v ((j, w) ∷ xs) ys d = ground (
    arith,
    lookup-append j xs ((k, v) ∷ ys),
    eq_iff j k,
    eq_iff k j,
    Distinct-fresh k v xs ys d.1,
  )

  pub Distinct-front : (xs ys : List (String × V)) → Distinct (xs ++ ys) → Distinct xs
  unfolding lookup
  Distinct-front [] ys d = tt
  Distinct-front ((k, v) ∷ xs) ys d =
      (ground (arith, lookup-append k xs ys), Distinct-front xs ys d.1)

  pub lookup-insert_self :
      (k : String) (v : V) (m : List (String × V)) → lookup k (insert k v m) ≡ some v
  unfolding lookup insert
  lookup-insert_self k v [] = rw eq_refl
  lookup-insert_self k v ((j, w) ∷ m) =
      ground (arith, eq_refl k, eq_iff j k, lookup-insert_self k v m)

  pub lookup-insert_other :
      (k j : String) (v : V) (m : List (String × V))
      → (k == j) ≡ false
      → lookup j (insert k v m) ≡ lookup j m
  unfolding lookup insert
  lookup-insert_other k j v [] h = rw h refl
  lookup-insert_other k j v ((i, w) ∷ m) h =
      ground (arith, lookup-insert_other k j v m, eq_iff i k, eq_iff i j, eq_iff k j)

  pub Distinct-insert :
      (k : String) (v : V) (m : List (String × V)) → Distinct m → Distinct (insert k v m)
  unfolding lookup insert
  Distinct-insert k v [] d = (refl, tt)
  Distinct-insert k v ((j, w) ∷ m) d = elim (Bool-cases (j == k)) [
    | inl same ↦ rw same (subst (λ i. (lookup i m ≡ none) × Distinct m) ((eq_iff j k).0 same) d)
    | inr other ↦ rw other (
      lookup-insert_other k j v m (ground (arith, eq_iff j k, eq_iff k j)) ∙ d.0,
      Distinct-insert k v m d.1,
    )
  ]

  lookup-delete :
      (k j : String) (m : List (String × V)) → lookup j m ≡ none → lookup j (delete k m) ≡ none
  unfolding lookup delete
  lookup-delete k j [] h = refl
  lookup-delete k j ((i, w) ∷ m) h = ground (arith, lookup-delete k j m)

  pub Distinct-delete : (k : String) (m : List (String × V)) → Distinct m → Distinct (delete k m)
  unfolding delete
  Distinct-delete k [] d = tt
  Distinct-delete k ((j, w) ∷ m) d = elim (Bool-cases (j == k)) [
    | inl same ↦ rw same (Distinct-delete k m d.1)
    | inr other ↦ rw other (lookup-delete k j m d.0, Distinct-delete k m d.1)
  ]

-- A predicate on the entries.
module _ {ℓ} {V : Type ℓ} (P : String × V → Type 0) where
  pub insert-All :
      (k : String) (v : V) (m : List (String × V)) → P (k, v) → All P m → All P (insert k v m)
  unfolding insert
  insert-All k v [] h all = (h, tt)
  insert-All k v ((j, w) ∷ m) h all = elim (Bool-cases (j == k)) [
    | inl same ↦ rw same (h, all.1)
    | inr other ↦ rw other (all.0, insert-All k v m h all.1)
  ]

  pub delete-All : (k : String) (m : List (String × V)) → All P m → All P (delete k m)
  unfolding delete
  delete-All k [] all = tt
  delete-All k ((j, w) ∷ m) all = elim (Bool-cases (j == k)) [
    | inl same ↦ rw same (delete-All k m all.1)
    | inr other ↦ rw other (all.0, delete-All k m all.1)
  ]

  pub lookup-All :
      (k : String) (v : V) (m : List (String × V)) → lookup k m ≡ some v → All P m → P (k, v)
  unfolding lookup
  lookup-All k v [] h all = ground arith
  lookup-All k v ((j, w) ∷ m) h all = elim (Bool-cases (j == k)) [
    | inl same ↦
        let key : j ≡ k = (eq_iff j k).0 same in
        let value : w ≡ v = ground arith in
        subst P (ap (λ i. (i, v)) key) (subst (λ u. P (j, u)) value all.0)
    | inr other ↦ lookup-All k v m (ground arith) all.1
  ]
