-- ===== src/Connect/Handlers/Agree.antt =====
-- A unary handler answers over Connect what it answers over the WebSocket.
use procframe.Prelude.{
  ◌≡◌, refl, sym, ap, Bool, true, false, ◌∙◌, String, Option, none, some, [], All, if◌then◌else◌,
  if-true, ltb, lookup, ◌<◌, arith,
}
use procframe.Errors.{
  Status, status_error, no_cause, status_of, Result, ok, err, Returned, error_text,
}
use procframe.Boundary.{classify, reported, connect_error, transports_agree}
use procframe.Calls.{done, ◌>>=◌}
use procframe.Interceptor.Message.{Response}
use procframe.Interceptor.Chain.{IsTransparent, has_active_interceptors}
use procframe.Interceptor.Invoke.{UnaryHandler}
use procframe.Interceptor.Transparency.{settled, invoke_unary-transparent}
use procframe.Connect.Errors.{to_connect_error, map_code}
use procframe.Connect.Handlers.{
  Options, Outcome, responds, refuses, request_of, outcome, responded, new_unary_handler,
}
use procframe.Ws.Session.{Codec}
use procframe.Ws.Server.{Server, Connection, reading, handle}
use procframe.Ws.Run.{Scope, unary}
use procframe.Ws.Run
use procframe.Ws.Client.Call.{call_unary}
use procframe.Ws.Wire.{play}
use procframe.Ws.Wire.Reads.{Agrees, seen, nil_response}
use procframe.Ws.Wire.Unary.{call_unary-seen}

-- What a caller is told, in the form of Connect.
abbrev pub shown : {Res : Type 0} → Result Res → Outcome Res
shown (ok msg) = responds msg
shown (err e) = refuses (to_connect_error e none)

shown-status :
    {Res : Type 0} (s : Status)
    → shown {Res = Res} (err (status_error s no_cause)) ≡ refuses (connect_error s)
unfolding to_connect_error status_of
shown-status s = refl

module _ {Req Res : Type 0} (procedure : String) (o : Options Req Res) where
  outcome-seen :
      (r : Returned (Response Res)) → outcome procedure o r ≡ shown (seen o.error_mapper r)
  unfolding outcome to_connect_error status_of map_code error_text
  outcome-seen (resp, some e) =
      ap refuses ((transports_agree o.error_mapper "" e).1)
      ∙ sym (shown-status (reported e (classify o.error_mapper e)))
  outcome-seen (none, none) = refl
  outcome-seen (some resp, none) =
      elim resp.msg
        as (λ m.
          responded procedure o m
          ≡ shown
              (elim m [ none ↦ err (status_error nil_response no_cause) | some msg ↦ ok msg ])) [
                | none ↦ refl
                | some msg ↦ refl
              ]

  outcome-settled :
      (r : Returned (Response Res)) → outcome procedure o (settled r) ≡ outcome procedure o r
  unfolding outcome
  outcome-settled (resp, some e) = refl
  outcome-settled (resp, none) = refl

  outcome-invoked :
      (active : Bool) (r : Returned (Response Res))
      → outcome procedure o (if active then settled r else r) ≡ outcome procedure o r
  outcome-invoked true r = outcome-settled r
  outcome-invoked false r = refl

  new_unary_handler-seen :
      (handler : UnaryHandler Req Res) (msg : Option Req)
      → All IsTransparent o.interceptors
      → new_unary_handler procedure o handler msg
        ≡ done (shown (seen o.error_mapper (handler (request_of procedure o msg))))
  unfolding new_unary_handler ◌>>=◌
  new_unary_handler-seen handler msg clear =
      ap (λ t. t >>= λ r. done (outcome procedure o r))
        (invoke_unary-transparent _ (request_of procedure o msg) handler o.interceptors clear)
      ∙ ap done (
          outcome-invoked (has_active_interceptors o.interceptors) (handler _)
          ∙ outcome-seen (handler (request_of procedure o msg)))

-- A unary handler to which the requests of the two transports are the same answers a WebSocket client, on a
-- connection as in `call_unary-seen` with a free slot, and a Connect call alike: with its message, or
-- with the error that the one classification of the server gives. The codecs agree, and the interceptors
-- of both change nothing.
pub unary_transports-agree :
    {Req Res : Type 0} (server : Server) (s : Connection) (scope : Scope Req Res)
    (o : Options Req Res) (h : UnaryHandler Req Res) (client_req : Codec Req)
    (client_res : Codec Res) (encode_req : Req → String) (encode_res : Res → String) (id : String)
    (msg : Req)
    → Agrees client_req scope.req_codec encode_req
    → Agrees scope.res_codec client_res encode_res
    → All IsTransparent scope.interceptors
    → All IsTransparent o.interceptors
    → s.reader ≡ reading
    → lookup id s.sessions ≡ none
    → s.sem < server.max_inflight
    → o.error_mapper ≡ scope.mapper
    → h (Run.request_of (record scope { id = id }) msg)
      ≡ h (request_of scope.procedure o (some msg))
    → (r : Result Res) × (play
          (handle server scope (unary h))
          s
          client_res
          id
          (call_unary client_req scope.procedure (some msg))
          []
        ≡ some r)
      × (new_unary_handler scope.procedure o h (some msg) ≡ done (shown r))
unary_transports-agree server s scope o h client_req client_res encode_req encode_res id msg q a
      clear clear' r new free same alike =
    let free_slot : ltb s.sem server.max_inflight ≡ true = ground arith in
    (
      seen scope.mapper (h (Run.request_of (record scope { id = id }) msg)),
      call_unary-seen server s scope h client_req client_res encode_req encode_res id msg q a clear
            r new
          ∙ ap some (if-true _ _ free_slot),
      new_unary_handler-seen scope.procedure o h (some msg) clear'
          ∙ (λ i. done (shown (seen (same i) (sym alike i)))),
    )
