-- ===== src/Ws/Client/Receive.antt =====
-- What a wait for a response comes to, and what a stream does once it has ended.
use mathlib.Core.Option.{some-injective}
use procframe.Prelude.{
  ◌∙◌, ◌≡◌, ◌≢◌, inl, inr, refl, true, Option, none, some, List, [], ◌∷◌, ◌++◌, All, ◌==◌, eq_iff,
  Bool-cases, ap, sym,
}
use procframe.Errors.{Error, Result, ok, err, sentinel, eof, as_error, err-not-ok, err-injective}
use procframe.Ws.Frame.{OutboundFrame, ErrorDetail, frame_message, frame_close}
use procframe.Ws.Session.{Codec}
use procframe.Ws.Client.{
  Event, arrives, channel_closed, context_ended, close_err, to_status_error, unmarshal_response,
  take_frame, receive_response, StreamState, keep_error, received, receive_unless, stream_receive,
}

-- A frame that the client knows nothing of: it has no error and is neither a close nor a message.
abbrev pub IsIgnored : Event → Type 0
IsIgnored (arrives frame) =
    (frame.error ≡ none) × (frame.frame_type ≢ frame_close) × (frame.frame_type ≢ frame_message)
IsIgnored channel_closed = ⊥
IsIgnored (context_ended e) = ⊥

module _ {Res : Type 0} (codec : Codec Res) (fatal : Option Error) where
  -- What an event says, if it decides the wait.
  pub data Says : Event → Result Res → Type 0 where
    fails :
        {frame : OutboundFrame} (ed : ErrorDetail)
        → frame.error ≡ some ed
        → Says (arrives frame) (err (as_error (to_status_error ed)))
    ends :
        {frame : OutboundFrame}
        → frame.error ≡ none
        → frame.frame_type ≡ frame_close
        → Says (arrives frame) (err (sentinel eof))
    brings :
        {frame : OutboundFrame}
        → frame.error ≡ none
        → frame.frame_type ≡ frame_message
        → Says (arrives frame) (unmarshal_response codec frame.payload)
    breaks : Says channel_closed (err (close_err fatal))
    stops : {e : Error} → Says (context_ended e) (err e)

  -- How a wait goes on a list of events.
  pub data Waits (es : List Event) : Option (Result Res × List Event) → Type 0 where
    waiting : All IsIgnored es → Waits es none
    decided :
        (skipped : List Event) (e : Event) (rest : List Event) {r : Result Res}
        → es ≡ skipped ++ e ∷ rest
        → All IsIgnored skipped
        → Says e r
        → Waits es (some (r, rest))

  Waits-skip :
      (e : Event) {es : List Event} {o : Option (Result Res × List Event)}
      → IsIgnored e
      → Waits es o
      → Waits (e ∷ es) o
  Waits-skip e i (waiting all) = waiting (i, all)
  Waits-skip e i (decided skipped d rest same all says) =
      decided (e ∷ skipped) d rest (ap (λ l. e ∷ l) same) (i, all) says

  take_frame-Waits :
      (frame : OutboundFrame) (es : List Event) {again : Option (Result Res × List Event)}
      → Waits es again
      → (o : Option ErrorDetail) → frame.error ≡ o
      → Waits (arrives frame ∷ es) (take_frame codec fatal frame es again o)
  unfolding take_frame
  take_frame-Waits frame es w (some ed) e = decided [] (arrives frame) es refl tt (fails ed e)
  take_frame-Waits frame es w none e = elim (Bool-cases (frame.frame_type == frame_close)) [
    | inl close ↦ rw close (decided [] (arrives frame) es refl tt (ends e ((eq_iff _ _).0 close)))
    | inr unclosed ↦ elim (Bool-cases (frame.frame_type == frame_message)) [
      | inl message ↦
          rw (unclosed, message)
            (decided [] (arrives frame) es refl tt (brings e ((eq_iff _ _).0 message)))
      | inr other ↦
          rw (unclosed, other)
            (Waits-skip (arrives frame)
              (e, (λ p. cc (unclosed, (eq_iff _ _).1 p)), (λ p. cc (other, (eq_iff _ _).1 p))) w)
    ]
  ]

  -- The wait for a response skips the frames that the client does not know, ends at the first event
  -- that decides it, with what that event says and the events behind it left, and goes on exactly if
  -- no event decides it: an error detail counts before the frame's type.
  pub receive_response-Waits : (es : List Event) → Waits es (receive_response codec fatal es)
  unfolding receive_response
  receive_response-Waits [] = waiting tt
  receive_response-Waits (arrives frame ∷ es) =
      take_frame-Waits frame es (receive_response-Waits es) frame.error refl
  receive_response-Waits (channel_closed ∷ es) = decided [] channel_closed es refl tt breaks
  receive_response-Waits (context_ended e ∷ es) = decided [] (context_ended e) es refl tt stops

-- A stream that has kept an error has removed its session.
abbrev pub IsKept : StreamState → Type 0
IsKept s = (e : Error) → s.term_err ≡ some e → s.removed ≡ true

module _ {Res : Type 0} (codec : Codec Res) (fatal : Option Error) where
  keep_error-err :
      (s s' : StreamState) (r : Result Res × List Event) (es' : List Event) (e : Error)
      → keep_error codec fatal s r ≡ (err e, s', es')
      → (s'.term_err ≡ some e) × (s'.removed ≡ true)
  unfolding keep_error
  keep_error-err s s' (ok msg, es) es' e h = absurd (err-not-ok e (sym (ap (λ x. x.0) h)))
  keep_error-err s s' (err x, es) es' e h = (
    sym (ap (λ x. x.1.term_err) h) ∙ ap some (err-injective (ap (λ x. x.0) h)),
    sym (ap (λ x. x.1.removed) h),
  )

  received-err :
      (s s' : StreamState) (o : Option (Result Res × List Event)) (es' : List Event) (e : Error)
      → received codec fatal s o ≡ some (err e, s', es')
      → (s'.term_err ≡ some e) × (s'.removed ≡ true)
  unfolding received
  received-err s s' none es' e h = cc
  received-err s s' (some r) es' e h = keep_error-err s s' r es' e (some-injective _ _ h)

  unless-err :
      (s s' : StreamState) (es es' : List Event) (o : Option Error) (e : Error)
      → s.term_err ≡ o
      → IsKept s
      → receive_unless codec fatal s es o ≡ some (err e, s', es')
      → (s'.term_err ≡ some e) × (s'.removed ≡ true)
  unfolding receive_unless
  unless-err s s' es es' none e at kept h = received-err s s' _ es' e h
  unless-err s s' es es' (some x) e at kept h =
      let same = some-injective _ _ h in
      let state = ap (λ y. y.1) same in
      (
        ap (λ t. t.term_err) (sym state) ∙ at ∙ ap some (err-injective (ap (λ y. y.0) same)),
        ap (λ t. t.removed) (sym state) ∙ kept x at,
      )

  -- Once a stream has returned an error, its session is removed, and every later `Receive` returns the
  -- same error, at once and without a look at the channel, which nothing feeds any more.
  pub stream_receive-ended :
      (s s' : StreamState) (es es' later : List Event) (e : Error)
      → IsKept s
      → stream_receive codec fatal s es ≡ some (err e, s', es')
      → (s'.removed ≡ true) × (stream_receive codec fatal s' later ≡ some (err e, s', later))
  unfolding stream_receive receive_unless
  stream_receive-ended s s' es es' later e kept h =
      let (ended, removed) = unless-err s s' es es' s.term_err e refl kept h in
      (removed, rw ended refl)
