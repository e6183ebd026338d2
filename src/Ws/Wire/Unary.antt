-- ===== src/Ws/Wire/Unary.antt =====
-- A unary call over the wire is the call of the handler.
use procframe.Prelude.{
  ◌≡◌, refl, sym, ap, ltb, ◌∙◌, String, Option, none, some, List, [], ◌∷◌, true, false, All, map,
  Bool-cases, inl, inr, if◌then◌else◌, if-true, if-false, lookup,
}
use procframe.Errors.{ErrorMapper, Result, ok, err, Returned, status_error, no_cause}
use procframe.Prelude.Distinct.{lookup-insert_self}
use procframe.Calls.{done, call, ◌>>=◌}
use procframe.Interceptor.Message.{Request, Response, shape_unary}
use procframe.Interceptor.Invoke.{UnaryHandler, invoke_unary}
use procframe.Interceptor.Transparency.{settled, invoke_unary-transparent}
use procframe.Interceptor.Chain.{has_active_interceptors, IsTransparent}
use procframe.Ws.Frame.{InboundFrame, frame_close}
use procframe.Ws.Session.{Codec, SessionCode, marshal_proto, unmarshal_request}
use procframe.Ws.Run.{
  unmarshalled, shape_of, call_spec, unary, run, run_unary, request_of, drain_and_verify_empty,
  pure_code, Scope, answer,
}
use procframe.Ws.Client.{Event, arrives, receive_response}
use procframe.Ws.Client.Call.{
  call_unary, send_request, send, unless_error, marshalled, finish_unary, after_request,
  open_request, message_request, bare_request,
}
use procframe.Ws.Server.{Server, HandlerEntry, Connection, reading, handle}
use procframe.Ws.Wire.{frames_of, answers, play}
use procframe.Ws.Wire.Served.{requests, answers-served, answers-busy}
use procframe.Ws.Wire.Reads.{Agrees, seen, answer-Reads, no_slot, receive-error}

-- A response beside an error is not seen, so dropping it changes nothing.
seen-settled :
    {Res : Type 0} (mapper : Option ErrorMapper) (r : Returned (Response Res))
    → seen mapper (settled r) ≡ seen mapper r
seen-settled mapper (resp, some e) = refl
seen-settled mapper (resp, none) = refl

module _ {Req Res : Type 0} (scope : Scope Req Res) (h : UnaryHandler Req Res) where
  -- What comes back from the invocation.
  abbrev outcome : Option (Request Req) → Returned (Response Res)
  outcome req = if has_active_interceptors scope.interceptors then settled (h req) else h req

  seen-outcome :
      (req : Option (Request Req)) → seen scope.mapper (outcome req) ≡ seen scope.mapper (h req)
  seen-outcome req = elim (Bool-cases (has_active_interceptors scope.interceptors)) [
    | inl active ↦ ap (seen scope.mapper) (if-true _ _ active) ∙ seen-settled scope.mapper (h req)
    | inr idle ↦ ap (seen scope.mapper) (if-false _ _ idle)
  ]

  -- The session's code behind the decoding of its request.
  abbrev behind : Req → SessionCode (Unit {0})
  behind msg =
      pure_code
        (invoke_unary (call_spec scope shape_unary) (request_of scope msg) h scope.interceptors)
      >>= answer scope

  run_unary-frames :
      (payload : String) (msg : Req)
      → unmarshal_request scope.req_codec payload ≡ ok msg
      → All IsTransparent scope.interceptors
      → frames_of true (run_unary scope h) (payload ∷ [])
        ≡ frames_of true (answer scope (outcome (request_of scope msg))) []
  unfolding run_unary frames_of drain_and_verify_empty ◌>>=◌ unmarshalled pure_code
  run_unary-frames payload msg decoded clear =
      ap (λ m. frames_of true (unmarshalled scope behind m) []) decoded
      ∙ ap (λ t. frames_of true (pure_code t >>= answer scope) [])
          (invoke_unary-transparent (call_spec scope shape_unary) (request_of scope msg) h
            scope.interceptors clear)

unmarshal_request-ok :
    {T : Type 0} (codec : Codec T) (payload : String) {msg : T}
    → codec.is_message ≡ true
    → codec.unmarshal payload ≡ ok msg
    → unmarshal_request codec payload ≡ ok msg
unfolding unmarshal_request
unmarshal_request-ok codec payload reads unmarshals = rw (reads, unmarshals) refl

marshal_proto-ok :
    {T : Type 0} (codec : Codec T) (msg : T) {payload : String}
    → codec.is_message ≡ true
    → codec.marshal (some msg) ≡ ok payload
    → marshal_proto codec (some msg) ≡ ok payload
unfolding marshal_proto
marshal_proto-ok codec msg sends marshals = rw (sends, marshals) refl

module _ {Req Res : Type 0} (server : Server) (s : Connection) (scope : Scope Req Res)
    (h : UnaryHandler Req Res) (id : String) where
  abbrev session : Scope Req Res
  session = record scope { id = id }

  -- The server with the handler.
  abbrev serving : Server
  serving = handle server scope (unary h)

  abbrev entry : HandlerEntry
  entry = record { shape = shape_unary; run = λ s. run (record scope { id = s }) (unary h) }

  serving-lookup : lookup scope.procedure serving.handlers ≡ some entry
  unfolding handle shape_of
  serving-lookup = lookup-insert_self scope.procedure entry server.handlers

  -- The frames that the call sends.
  abbrev sent_frames : String → List InboundFrame
  sent_frames payload = requests id scope.procedure shape_unary payload

  -- What the call makes of a result, behind its frames.
  play-finish :
      (codec : Codec Res) (sent : List InboundFrame) (r : Result Res)
      → play serving s codec id (finish_unary id r) sent ≡ some r
  unfolding play finish_unary
  play-finish codec sent (ok msg) = refl
  play-finish codec sent (err e) = refl

  -- What `play` makes of the reply to `receive`.
  abbrev finished :
      Codec Res → List InboundFrame → Option (Result Res × List Event) → Option (Result Res)
  finished codec sent o = elim o [
    | none ↦ none
    | some (r, es) ↦ play serving s codec id (finish_unary id r) sent
  ]

  play-call_unary :
      (client_req : Codec Req) (client_res : Codec Res) (msg : Req) (payload : String)
      → marshal_proto client_req (some msg) ≡ ok payload
      → play serving s client_res id (call_unary client_req scope.procedure (some msg)) []
        ≡ finished client_res
            (sent_frames payload)
            (receive_response client_res none (answers serving s id (sent_frames payload)))
  unfolding play call_unary send_request unless_error marshalled after_request ◌>>=◌
  play-call_unary client_req client_res msg payload marshals =
      ap
        (λ m.
          play serving s client_res id
            (marshalled
                (λ text.
                  call (send (message_request id text))
                    (unless_error (call (send (bare_request frame_close id)) done)))
                m
              >>= after_request id)
            (open_request id scope.procedure shape_unary ∷ []))
        marshals

  -- The call returns what is read of the answers.
  play-reads :
      (client_req : Codec Req) (client_res : Codec Res) (msg : Req) (payload : String)
      (r : Result Res) (rest : List Event)
      → marshal_proto client_req (some msg) ≡ ok payload
      → receive_response client_res none (answers serving s id (sent_frames payload))
        ≡ some (r, rest)
      → play serving s client_res id (call_unary client_req scope.procedure (some msg)) [] ≡ some r
  play-reads client_req client_res msg payload r rest marshals reads =
      play-call_unary client_req client_res msg payload marshals
      ∙ ap (finished client_res (sent_frames payload)) reads
      ∙ play-finish client_res (sent_frames payload) r

  module _ (client_req : Codec Req) (client_res : Codec Res) (encode_req : Req → String)
      (encode_res : Res → String) (msg : Req) (q : Agrees client_req scope.req_codec encode_req)
      (a : Agrees scope.res_codec client_res encode_res) (r : s.reader ≡ reading)
      (new : lookup id s.sessions ≡ none) where
    served :
        All IsTransparent scope.interceptors
        → ltb s.sem server.max_inflight ≡ true
        → play serving s client_res id (call_unary client_req scope.procedure (some msg)) []
          ≡ some (seen scope.mapper (h (request_of session msg)))
    unfolding handle run
    served clear free =
        let payload = encode_req msg in
        let (rest, reads) =
          answer-Reads session client_res encode_res a
            (outcome session h (request_of session msg)) in
        play-reads client_req client_res msg payload _ rest
          (marshal_proto-ok client_req msg q.sends (q.marshals msg))
          (ap (receive_response client_res none) (
              answers-served serving s id scope.procedure entry r serving-lookup new payload free
              ∙ ap (map arrives) (
                  run_unary-frames session h payload msg
                    (unmarshal_request-ok scope.req_codec payload q.reads (q.unmarshals msg))
                    clear))
            ∙ reads)
        ∙ ap some (seen-outcome session h (request_of session msg))

    refused :
        ltb s.sem server.max_inflight ≡ false
        → play serving s client_res id (call_unary client_req scope.procedure (some msg)) []
          ≡ some (err (status_error no_slot no_cause))
    unfolding handle
    refused full =
        let payload = encode_req msg in
        play-reads client_req client_res msg payload _ _
          (marshal_proto-ok client_req msg q.sends (q.marshals msg))
          (ap (receive_response client_res none)
              (answers-busy serving s id scope.procedure entry r serving-lookup new payload full)
            ∙ receive-error client_res id no_slot _)

-- A unary call, of a handler that the server has under this procedure, on a connection whose reader waits
-- for a frame and that has no session of the call's id, returns what the handler returns where the server
-- has a free slot: its message, or else an error with the status that the server's classification gives
-- the handler's error (a nil response counts as an internal one); without a free slot it returns the
-- error `unavailable`, which is worth a retry. The connection loses nothing, the codecs read what the
-- other end writes, the interceptors change nothing, and the frames of the call are handled before the
-- goroutine of the session runs.
pub call_unary-seen :
    {Req Res : Type 0} (server : Server) (s : Connection) (scope : Scope Req Res)
    (h : UnaryHandler Req Res) (client_req : Codec Req) (client_res : Codec Res)
    (encode_req : Req → String) (encode_res : Res → String) (id : String) (msg : Req)
    → Agrees client_req scope.req_codec encode_req
    → Agrees scope.res_codec client_res encode_res
    → All IsTransparent scope.interceptors
    → s.reader ≡ reading
    → lookup id s.sessions ≡ none
    → play
        (handle server scope (unary h))
        s
        client_res
        id
        (call_unary client_req scope.procedure (some msg))
        []
      ≡ some (
          if ltb s.sem server.max_inflight
          then seen scope.mapper (h (request_of (record scope { id = id }) msg))
          else err (status_error no_slot no_cause))
call_unary-seen server s scope h client_req client_res encode_req encode_res id msg q a clear r
      new =
    elim (Bool-cases (ltb s.sem server.max_inflight)) [
      | inl free ↦
          served server s scope h id client_req client_res encode_req encode_res msg q a r new clear
            free
          ∙ ap some (sym (if-true _ _ free))
      | inr full ↦
          refused server s scope h id client_req client_res encode_req encode_res msg q a r new full
          ∙ ap some (sym (if-false _ _ full))
    ]
