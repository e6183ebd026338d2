-- ===== src/Calls.antt =====
-- Code that the program does not contain (handlers, middleware) and that calls an interface which
-- the program implements: the calls that it makes, one after the other, each next one depending on
-- the replies. A handler that loops until the end of a stream is its unfolding to the rounds that
-- the stream can serve.
use procframe.Prelude.{◌≡◌, refl, ap, fun_ext}

-- The interface is `C`, its methods with their arguments, and `Reply`, what each returns.
pub data Calls (C : Type 0) (Reply : C → Type 0) (R : Type 0) : Type 0 where
  done : R → Calls C Reply R
  call : (c : C) → (Reply c → Calls C Reply R) → Calls C Reply R

module _ {C : Type 0} {Reply : C → Type 0} {A B : Type 0} where
  infixl 5 ◌>>=◌
  unfoldable pub ◌>>=◌ : Calls C Reply A → (A → Calls C Reply B) → Calls C Reply B
  done a >>= f = f a
  call c k >>= f = call c (λ r. k r >>= f)

module _ {C D : Type 0} {Reply : C → Type 0} {Answer : D → Type 0} {A : Type 0} where
  -- An adapter without state: each call of `C` is made by calls of `D`.
  unfoldable pub translate :
      ((c : C) → Calls D Answer (Reply c)) → Calls C Reply A → Calls D Answer A
  translate h (done a) = done a
  translate h (call c k) = h c >>= λ r. translate h (k r)

  -- An object with state `S` that implements `C` by calls of `D`.
  unfoldable pub serve :
      {S : Type 0}
      → (S → (c : C) → Calls D Answer (Reply c × S))
      → S
      → Calls C Reply A
      → Calls D Answer (A × S)
  serve h s (done a) = done (a, s)
  serve h s (call c k) = h s c >>= λ x. serve h x.1 (k x.0)

module _ {C : Type 0} {Reply : C → Type 0} {A : Type 0} where
  -- Every call that can be made, whatever the replies, has the property.
  abbrev pub AllCalls : (C → Type 0) → Calls C Reply A → Type 0
  AllCalls P (done a) = Unit {0}
  AllCalls P (call c k) = P c × ((r : Reply c) → AllCalls P (k r))

  pub bind-done : (t : Calls C Reply A) → (t >>= done) ≡ t
  unfolding ◌>>=◌
  bind-done (done a) = refl
  bind-done (call c k) = ap (call c) (fun_ext λ r. bind-done (k r))

module _ {C : Type 0} {Reply : C → Type 0} {A B D : Type 0} where
  pub bind_assoc :
      (t : Calls C Reply A) (f : A → Calls C Reply B) (g : B → Calls C Reply D)
      → (t >>= f >>= g) ≡ (t >>= λ a. f a >>= g)
  unfolding ◌>>=◌
  bind_assoc (done a) f g = refl
  bind_assoc (call c k) f g = ap (call c) (fun_ext λ r. bind_assoc (k r) f g)

module _ {C : Type 0} {Reply : C → Type 0} {A B : Type 0} (P : C → Type 0) where
  pub AllCalls-bind :
      (t : Calls C Reply A) (f : A → Calls C Reply B)
      → AllCalls P t
      → ((a : A) → AllCalls P (f a))
      → AllCalls P (t >>= f)
  unfolding ◌>>=◌
  AllCalls-bind (done a) f h k = k a
  AllCalls-bind (call c n) f h k = (h.0, λ r. AllCalls-bind (n r) f (h.1 r) k)
