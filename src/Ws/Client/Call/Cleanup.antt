-- ===== src/Ws/Client/Call/Cleanup.antt =====
-- No call leaks a session: what is registered is removed, unless a stream goes on with it.
use procframe.Ws.Frame.{frame_cancel}
use procframe.Prelude.{if◌then◌else◌, ◌≡◌, refl, String, Bool, true, false, Option, none, some}
use procframe.Errors.{Error, Result, ok, err}
use procframe.Calls.{done, call, ◌>>=◌}
use procframe.Ws.Session.{Codec, marshal_proto}
use procframe.Ws.Client.Call.{
  new_session, remove_session, send, receive, context_ended, ConnCode, bare_request, removing,
  unless_error, marshalled, send_request, finish_unary, after_request, call_unary, opened,
  call_server_stream, call_client_stream, call_bidi, closed_send, close_and_receive,
}

-- Whatever the replies: from a start with the session `own` registered, or with none, the code
-- registers one session at most, sends frames of its own session only, receives on no other, removes
-- no session but its own, and ends with a result that `holds` with the session then registered.
abbrev pub Owns :
    {Res A : Type 0} → (A → Option String → Type 0) → Option String → ConnCode Res A → Type 0
Owns holds own (done a) = holds a own
Owns holds own (call new_session k) = (own ≡ none) × ((id : String) → Owns holds (some id) (k id))
Owns holds own (call (remove_session id) k) = (own ≡ some id) × Owns holds none (k tt)
Owns holds own (call (send f) k) = (own ≡ some f.id) × ((r : Option Error) → Owns holds own (k r))
Owns {Res = Res} holds own (call receive k) =
    ((id : String) × (own ≡ some id)) × ((r : Result Res) → Owns holds own (k r))
Owns holds own (call context_ended k) = (r : Bool) → Owns holds own (k r)

-- The session is gone.
abbrev pub Gone : {A : Type 0} → A → Option String → Type 0
Gone a own = own ≡ none

-- The session is there exactly for a stream that goes on with it.
abbrev pub Kept : Result String → Option String → Type 0
Kept (ok id) own = own ≡ some id
Kept (err e) own = own ≡ none

module _ {Res : Type 0} where
  bind-Owns :
      {A B : Type 0} (holds : B → Option String → Type 0) (own : Option String) (t : ConnCode Res A)
      (f : A → ConnCode Res B)
      → Owns (λ a left. Owns holds left (f a)) own t
      → Owns holds own (t >>= f)
  unfolding ◌>>=◌
  bind-Owns holds own (done a) f h = h
  bind-Owns holds own (call new_session k) f h =
      (h.0, λ id. bind-Owns holds (some id) (k id) f (h.1 id))
  bind-Owns holds own (call (remove_session id) k) f h = (h.0, bind-Owns holds none (k tt) f h.1)
  bind-Owns holds own (call (send x) k) f h = (h.0, λ r. bind-Owns holds own (k r) f (h.1 r))
  bind-Owns holds own (call receive k) f h = (h.0, λ r. bind-Owns holds own (k r) f (h.1 r))
  bind-Owns holds own (call context_ended k) f h = λ r. bind-Owns holds own (k r) f (h r)

module _ (Res : Type 0) where
  module _ (holds : Option Error → Option String → Type 0) (id : String)
      (h : (r : Option Error) → holds r (some id)) where
    unless_error-Owns :
        (next : ConnCode Res (Option Error))
        → Owns holds (some id) next
        → (o : Option Error) → Owns holds (some id) (unless_error next o)
    unfolding unless_error
    unless_error-Owns next own (some e) = h (some e)
    unless_error-Owns next own none = own

    marshalled-Owns :
        (next : String → ConnCode Res (Option Error))
        → ((t : String) → Owns holds (some id) (next t))
        → (m : Result String) → Owns holds (some id) (marshalled next m)
    unfolding marshalled
    marshalled-Owns next own (err e) = h (some e)
    marshalled-Owns next own (ok t) = own t

    send_request-Owns :
        {Req : Type 0} (codec : Codec Req) (procedure shape : String) (req : Option Req)
        → Owns {Res = Res} holds (some id) (send_request codec id procedure shape req)
    unfolding send_request
    send_request-Owns codec procedure shape req = (
      refl,
      unless_error-Owns _ (
          marshalled-Owns _ (λ t. (refl, unless_error-Owns _ (refl, h))) (marshal_proto codec req)),
    )

  finish_unary-Owns : (id : String) (r : Result Res) → Owns Gone (some id) (finish_unary id r)
  unfolding finish_unary
  finish_unary-Owns id (ok msg) = (refl, refl)
  finish_unary-Owns id (err e) = λ ended.
      elim ended
        as (λ b. Owns Gone (some id) (
          if b
          then call (send (bare_request frame_cancel id)) (λ ignored. removing id (err e))
          else removing id (err e))) [
            | true ↦ (refl, λ ignored. (refl, refl))
            | false ↦ (refl, refl)
          ]

  after_request-Owns :
      (id : String) (r : Option Error) → Owns {Res = Res} Gone (some id) (after_request id r)
  unfolding after_request
  after_request-Owns id (some e) = (refl, refl)
  after_request-Owns id none = ((id, refl), finish_unary-Owns id)

  opened-Owns : (id : String) (r : Option Error) → Owns {Res = Res} Kept (some id) (opened id r)
  unfolding opened
  opened-Owns id (some e) = (refl, refl)
  opened-Owns id none = refl

  closed_send-Owns :
      (id : String) (r : Option Error) → Owns {Res = Res} Gone (some id) (closed_send id r)
  unfolding closed_send
  closed_send-Owns id (some e) = (refl, refl)
  closed_send-Owns id none = ((id, refl), λ r. (refl, refl))

module _ {Req : Type 0} (Res : Type 0) (codec : Codec Req) where
  call_unary-Owns :
      (procedure : String) (req : Option Req)
      → Owns {Res = Res} Gone none (call_unary codec procedure req)
  unfolding call_unary
  call_unary-Owns procedure req = (
    refl,
    λ id.
        bind-Owns Gone (some id) (send_request codec id procedure _ req) (after_request id)
          (send_request-Owns Res _ id (after_request-Owns Res id) codec procedure _ req),
  )

  -- Whatever fails on the way, a unary call registers one session, sends and receives on that session
  -- only, and ends with the session removed; the calls that open a stream return it with its session
  -- registered, and where they fail they leave none behind; and `CloseAndReceive` leaves none.
  pub calls-Owns :
      (procedure id : String) (req : Option Req)
      → Owns {Res = Res} Gone none (call_unary codec procedure req)
        × Owns {Res = Res} Kept none (call_server_stream codec procedure req)
        × Owns {Res = Res} Kept none (call_client_stream codec procedure)
        × Owns {Res = Res} Kept none (call_bidi codec procedure)
        × Owns {Res = Res} Gone (some id) (close_and_receive id)
  unfolding call_server_stream call_client_stream call_bidi close_and_receive
  calls-Owns procedure id req = (
    call_unary-Owns procedure req,
    (
      refl,
      λ s.
          bind-Owns Kept (some s) (send_request codec s procedure _ req) (opened s)
            (send_request-Owns Res _ s (opened-Owns Res s) codec procedure _ req),
    ),
    (refl, λ s. (refl, opened-Owns Res s)),
    (refl, λ s. (refl, opened-Owns Res s)),
    (refl, closed_send-Owns Res id),
  )
