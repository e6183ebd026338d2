-- ===== src/Interceptor/Chain.antt =====
-- interceptor.go: `Interceptor`, `InterceptorFunc`, `chainInterceptors` and `hasActiveInterceptors`.
use mathlib.Core.List.{reverse-append}
use procframe.Prelude.{
  ◌≡◌, refl, ◌∙◌, ap, Bool, true, false, Option, none, some, List, [], ◌∷◌, ◌++◌, reverse, All,
}

-- An `InterceptorFunc`, `none` being the nil function. `H` is `HandlerFunc`; any other
-- implementation of `Interceptor` is the function that its `Wrap` is.
abbrev pub InterceptorFunc : Type 0 → Type 0
InterceptorFunc H = Option (H → H)

-- What the slice holds: `none` is a nil interface.
abbrev pub Interceptors : Type 0 → Type 0
Interceptors H = List (Option (InterceptorFunc H))

module _ {H : Type 0} where
  -- `InterceptorFunc.Wrap`.
  unfoldable pub wrap : InterceptorFunc H → H → H
  wrap none next = next
  wrap (some f) next = f next

  -- One round of the loop of `chainInterceptors`.
  unfoldable pub wrap_next : Option (InterceptorFunc H) → H → H
  unfolding wrap
  wrap_next none next = next
  wrap_next (some i) next = wrap i next

  -- The loop from the last index down, over the interceptors that are left, last first.
  chain_loop : H → List (Option (InterceptorFunc H)) → H
  chain_loop next [] = next
  chain_loop next (i ∷ left) = chain_loop (wrap_next i next) left

  unfoldable pub chain_interceptors : H → Interceptors H → H
  unfolding chain_loop
  chain_interceptors inner interceptors = chain_loop inner (reverse interceptors)

  unfoldable pub has_active_interceptors : Interceptors H → Bool
  has_active_interceptors [] = false
  has_active_interceptors (none ∷ is) = has_active_interceptors is
  has_active_interceptors (some i ∷ is) = true

  chain_loop-append :
      (next : H) (xs ys : List (Option (InterceptorFunc H)))
      → chain_loop next (xs ++ ys) ≡ chain_loop (chain_loop next xs) ys
  unfolding chain_loop
  chain_loop-append next [] ys = refl
  chain_loop-append next (x ∷ xs) ys = chain_loop-append (wrap_next x next) xs ys

  pub chain_interceptors-append :
      (inner : H) (xs ys : Interceptors H)
      → chain_interceptors inner (xs ++ ys) ≡ chain_interceptors (chain_interceptors inner ys) xs
  unfolding chain_interceptors
  chain_interceptors-append inner xs ys =
      rw (reverse-append xs ys) (chain_loop-append inner (reverse ys) (reverse xs))

  pub chain_interceptors-cons :
      (inner : H) (i : Option (InterceptorFunc H)) (is : Interceptors H)
      → chain_interceptors inner (i ∷ is) ≡ wrap_next i (chain_interceptors inner is)
  chain_interceptors-cons inner i is =
      chain_interceptors-append inner (i ∷ []) is ∙ (unfold chain_interceptors in refl)

  -- What the whole chain means: every entry applied to the rest, the first outermost.
  abbrev pub nested : H → Interceptors H → H
  nested inner [] = inner
  nested inner (none ∷ is) = nested inner is
  nested inner (some none ∷ is) = nested inner is
  nested inner (some (some f) ∷ is) = f (nested inner is)

  -- The loop from the last index down applies the first interceptor outermost, and skips nil
  -- interfaces and nil functions.
  chain_interceptors-nested :
      (inner : H) (is : Interceptors H) → chain_interceptors inner is ≡ nested inner is
  unfolding wrap_next
  chain_interceptors-nested inner [] = unfold chain_interceptors in refl
  chain_interceptors-nested inner (none ∷ is) =
      chain_interceptors-cons inner none is ∙ chain_interceptors-nested inner is
  chain_interceptors-nested inner (some none ∷ is) =
      chain_interceptors-cons inner (some none) is ∙ chain_interceptors-nested inner is
  chain_interceptors-nested inner (some (some f) ∷ is) =
      chain_interceptors-cons inner (some (some f)) is ∙ ap f (chain_interceptors-nested inner is)

  -- An entry that leaves every handler as it is.
  abbrev pub IsTransparent : Option (InterceptorFunc H) → Type 0
  IsTransparent i = (next : H) → wrap_next i next ≡ next

  pub chain-IsTransparent :
      (inner : H) (is : Interceptors H) → All IsTransparent is → chain_interceptors inner is ≡ inner
  chain-IsTransparent inner [] h = unfold chain_interceptors in refl
  chain-IsTransparent inner (i ∷ is) h =
      chain_interceptors-cons inner i is
      ∙ ap (wrap_next i) (chain-IsTransparent inner is h.1)
      ∙ h.0 inner
