-- ===== src/Ws/Run/Frames.antt =====
-- What a session's code may write, whatever the replies that it gets.
use procframe.Prelude.{◌≡◌, ◌⊎◌, inr, String, Option}
use procframe.Calls.{Calls, done, call, ◌>>=◌, translate, AllCalls}
use procframe.Ws.Frame.{OutboundFrame, frame_message, frame_close, frame_error}
use procframe.Ws.Session.{recv, drain, panic, write, SessionCode}

abbrev pub IsTerminal : String → OutboundFrame → Type 0
IsTerminal id f = (f.id ≡ id) × ((f.frame_type ≡ frame_close) ⊎ (f.frame_type ≡ frame_error))

abbrev pub IsMessage : String → OutboundFrame → Type 0
IsMessage id f = (f.id ≡ id) × (f.frame_type ≡ frame_message)

-- Nothing is called any more.
abbrev pub IsDone : {A : Type 0} → SessionCode A → Type 0
IsDone (done a) = Unit
IsDone (call c k) = ⊥

-- Whatever the replies: the code writes message frames of the session `id` and then one frame that
-- is terminal, after which it makes no call; and it never panics.
abbrev pub EndsOnce : String → SessionCode (Unit {0}) → Type 0
EndsOnce id (done a) = ⊥
EndsOnce id (call recv k) = (r : Option String) → EndsOnce id (k r)
EndsOnce id (call drain k) = (r : Unit) → EndsOnce id (k r)
EndsOnce id (call panic k) = ⊥
EndsOnce id (call (write f) k) =
    (IsTerminal id f × IsDone (k tt)) ⊎ (IsMessage id f × EndsOnce id (k tt))

-- Code that is followed by more: it writes message frames of the session only, and never panics.
abbrev pub Streams : {A : Type 0} → String → SessionCode A → Type 0
Streams id (done a) = Unit
Streams id (call recv k) = (r : Option String) → Streams id (k r)
Streams id (call drain k) = (r : Unit) → Streams id (k r)
Streams id (call panic k) = ⊥
Streams id (call (write f) k) = IsMessage id f × Streams id (k tt)

pub bind-EndsOnce :
    {A : Type 0} (id : String) (t : SessionCode A) (f : A → SessionCode (Unit {0}))
    → Streams id t
    → ((a : A) → EndsOnce id (f a))
    → EndsOnce id (t >>= f)
unfolding ◌>>=◌
bind-EndsOnce id (done a) f h k = k a
bind-EndsOnce id (call recv n) f h k = λ r. bind-EndsOnce id (n r) f (h r) k
bind-EndsOnce id (call drain n) f h k = λ r. bind-EndsOnce id (n r) f (h r) k
bind-EndsOnce id (call panic n) f h k = absurd h
bind-EndsOnce id (call (write x) n) f h k = inr (h.0, bind-EndsOnce id (n tt) f h.1 k)

pub bind-Streams :
    {A B : Type 0} (id : String) (t : SessionCode A) (f : A → SessionCode B)
    → Streams id t
    → ((a : A) → Streams id (f a))
    → Streams id (t >>= f)
unfolding ◌>>=◌
bind-Streams id (done a) f h k = k a
bind-Streams id (call recv n) f h k = λ r. bind-Streams id (n r) f (h r) k
bind-Streams id (call drain n) f h k = λ r. bind-Streams id (n r) f (h r) k
bind-Streams id (call panic n) f h k = absurd h
bind-Streams id (call (write x) n) f h k = (h.0, bind-Streams id (n tt) f h.1 k)

-- The calls of a typed stream, made by session code that streams, where the calls have a property.
pub translate-Streams :
    {C : Type 0} {Reply : C → Type 0} {A : Type 0} (id : String) (P : C → Type 0)
    (h : (c : C) → SessionCode (Reply c)) (t : Calls C Reply A)
    → ((c : C) → P c → Streams id (h c))
    → AllCalls P t
    → Streams id (translate h t)
unfolding translate
translate-Streams id P h (done a) s all = tt
translate-Streams id P h (call c k) s all =
    bind-Streams id (h c) (λ r. translate h (k r)) (s c all.0)
      (λ r. translate-Streams id P h (k r) s (all.1 r))
