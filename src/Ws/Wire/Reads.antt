-- ===== src/Ws/Wire/Reads.antt =====
-- What a client reads of the frames that end a unary or client-stream session.
use procframe.Prelude.{
  ◌≡◌, sym, ap, ◌∙◌, String, Option, none, some, List, [], ◌∷◌, true, false, map, Bool-cases, inl,
  inr, if-true, if-false,
}
use procframe.Errors.{
  Status, status_error, as_error, no_cause, new_error, with_retryable, internal, unavailable,
  ErrorMapper, Result, ok, err, Returned, status_of,
}
use procframe.Boundary.{classify, reported, detail, transports_agree}
use procframe.Interceptor.Message.{Response}
use procframe.Ws.Frame.{error_frame, message_frame, close_frame, to_error_frame}
use procframe.Ws.Session.{Codec, marshal_proto}
use procframe.Ws.Run.{Scope, answer, write_response_and_close, write_message, write_marshalled}
use procframe.Ws.Client.{Event, arrives, to_status_error, unmarshal_response, receive_response}
use procframe.Ws.Wire.{frames_of}

-- What one end encodes the other end decodes.
pub record Agrees {T : Type 0} (from to : Codec T) (encode : T → String) : Type 0 where
  pub sends : from.is_message ≡ true
  pub reads : to.is_message ≡ true
  pub marshals : (msg : T) → from.marshal (some msg) ≡ ok (encode msg)
  pub unmarshals : (msg : T) → to.unmarshal (encode msg) ≡ ok msg

abbrev pub nil_response : Status
nil_response = record {
  code = internal;
  message = "handler returned nil response";
  retryable = false;
}

-- The status of a refusal for want of a slot.
abbrev pub no_slot : Status
no_slot = record { code = unavailable; message = "max inflight exceeded"; retryable = true }

-- What the caller should see of what the handler returned.
abbrev pub seen : {Res : Type 0} → Option ErrorMapper → Returned (Response Res) → Result Res
seen mapper (resp, some e) = err (status_error (reported e (classify mapper e)) no_cause)
seen mapper (none, none) = err (status_error nil_response no_cause)
seen mapper (some resp, none) = elim resp.msg [
  | none ↦ err (status_error nil_response no_cause)
  | some msg ↦ ok msg
]

-- The status survives the wire.
pub to_status_error-detail :
    (s : Status) → as_error (to_status_error (detail s)) ≡ status_error s no_cause
unfolding to_status_error new_error with_retryable
to_status_error-detail s = elim (Bool-cases s.retryable) [
  | inl again ↦
      ap as_error (if-true _ _ again)
      ∙ (λ i. status_error (record s { retryable = sym again i }) no_cause)
  | inr once ↦
      ap as_error (if-false _ _ once)
      ∙ (λ i. status_error (record s { retryable = sym once i }) no_cause)
]

module _ {Res : Type 0} (codec : Codec Res) where
  pub receive-error :
      (id : String) (s : Status) (rest : List Event)
      → receive_response codec none (arrives (error_frame id (detail s)) ∷ rest)
        ≡ some (err (status_error s no_cause), rest)
  unfolding receive_response
  receive-error id s rest = ap (λ e. some (err e, rest)) (to_status_error-detail s)

  receive-message :
      (id payload : String) {msg : Res}
      → codec.is_message ≡ true
      → codec.unmarshal payload ≡ ok msg
      → receive_response codec none
          (arrives (message_frame id payload) ∷ arrives (close_frame id) ∷ [])
        ≡ some (ok msg, arrives (close_frame id) ∷ [])
  unfolding receive_response unmarshal_response
  receive-message id payload reads unmarshals = rw (reads, unmarshals)

module _ {Req Res : Type 0} (scope : Scope Req Res) (codec : Codec Res) (encode : Res → String)
    (agree : Agrees scope.res_codec codec encode) where
  -- What the client reads of the frames that end the session.
  abbrev pub Reads : Returned (Response Res) → Type 0
  Reads r =
      (rest : List Event) × (receive_response codec none
          (map arrives (frames_of true (answer scope r) []))
        ≡ some (seen scope.mapper r, rest))

  nil-Reads :
      receive_response codec none (map arrives (frames_of true (write_message scope none) []))
      ≡ some (err (status_error nil_response no_cause), [])
  unfolding write_message to_error_frame status_of new_error frames_of
  nil-Reads = receive-error codec scope.id nil_response []

  message-Reads :
      (msg : Res)
      → receive_response codec none
          (map arrives (frames_of true (write_message scope (some msg)) []))
        ≡ some (ok msg, arrives (close_frame scope.id) ∷ [])
  unfolding write_message write_marshalled marshal_proto frames_of
  message-Reads msg =
      rw (agree.sends, agree.marshals msg)
        (receive-message codec scope.id (encode msg) agree.reads (agree.unmarshals msg))

  pub answer-Reads : (r : Returned (Response Res)) → Reads r
  unfolding answer write_response_and_close
  answer-Reads (resp, some e) = (
    [],
    (unfold frames_of in
        rw (transports_agree scope.mapper scope.id e).0 (receive-error codec scope.id _ [])),
  )
  answer-Reads (none, none) = ([], (unfold write_message in nil-Reads))
  answer-Reads (some resp, none) =
      elim resp.msg
        as (λ m.
          (rest : List Event) × (receive_response codec none
              (map arrives (frames_of true (write_message scope m) []))
            ≡ some (
              elim m [ none ↦ err (status_error nil_response no_cause) | some msg ↦ ok msg ],
              rest,
            ))) [ none ↦ ([], nil-Reads) | some msg ↦ (_, message-Reads msg) ]
