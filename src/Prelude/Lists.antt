-- ===== src/Prelude/Lists.antt =====
-- Lists measured by native numbers, predicates on lists by recursion, and maps with text keys.
use Prim.Native.Nat.{ℕ, suc, ◌+◌}
use Prim.Native.String.{String}
use mathlib.Core.Path.{◌≡◌}
use mathlib.Core.Bool.{Bool, false, ◌||◌}
use mathlib.Core.List.{List, [], ◌∷◌, ◌++◌}
use mathlib.Core.Option.{Option, none, some}
use native.Mathlib.Omega.{arith}
use text.Mathlib.Text.{◌==◌}
use procframe.Prelude.Tests.{if◌then◌else◌}

module _ {ℓ} {A : Type ℓ} where
  abbrev pub length : List A → ℕ
  length [] = 0
  length (x ∷ xs) = suc (length xs)

  pub length-append : (xs ys : List A) → length (xs ++ ys) ≡ length xs + length ys
  length-append [] ys = omega arith
  length-append (x ∷ xs) ys = omega (arith, length-append xs ys)

module _ {ℓ κ} {A : Type ℓ} (P : A → Type κ) where
  abbrev pub All : List A → Type κ
  All [] = Unit
  All (first ∷ others) = P first × All others

  pub All-append : (front back : List A) → All front → All back → All (front ++ back)
  All-append [] back of_front of_back = of_back
  All-append (first ∷ others) back of_front of_back =
      (of_front.0, All-append others back of_front.1 of_back)

  pub All-split : (front back : List A) → All (front ++ back) → All front × All back
  All-split [] back all = (tt, all)
  All-split (first ∷ others) back all =
      let (of_others, of_back) = All-split others back all.1 in ((all.0, of_others), of_back)

-- Membership of a text in a list of texts, as a Boolean.
abbrev pub contains : String → List String → Bool
contains k [] = false
contains k (j ∷ js) = k == j || contains k js

-- Go's `map[string]V`: `delete(m, key)`, `m[key] = value` and `value, ok := m[key]`.
module _ {ℓ} {V : Type ℓ} where
  unfoldable pub delete : String → List (String × V) → List (String × V)
  delete key [] = []
  delete key ((at, old) ∷ others) =
      let rest = delete key others in if at == key then rest else (at, old) ∷ rest

  unfoldable pub insert : String → V → List (String × V) → List (String × V)
  insert key value [] = (key, value) ∷ []
  insert key value ((at, old) ∷ others) =
      let rest = insert key value others in
      if at == key then (key, value) ∷ others else (at, old) ∷ rest

  unfoldable pub lookup : String → List (String × V) → Option V
  lookup key [] = none
  lookup key ((at, value) ∷ others) =
      let rest = lookup key others in if at == key then some value else rest
