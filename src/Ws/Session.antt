-- ===== src/Ws/Session.antt =====
-- What the code of one session does: it reads the session's receive channel and writes frames.
-- Also the calls of protobuf's JSON codec, which is not part of the repository.
use procframe.Prelude.{String, Bool, Option, none, some, if◌then◌else◌}
use procframe.Prelude.Text.{◌+++◌}
use procframe.Errors.{
  plain, sentinel, eof, Result, ok, err, as_error, new_error, invalid_argument, internal,
  error_text,
}
use procframe.Calls.{Calls}
use procframe.Interceptor.Message.{Request, no_meta}
use procframe.Ws.Frame.{OutboundFrame}

-- `recv` is `<-recvCh` (`none` when the channel is closed and empty), `drain` is the loop
-- `for range recvCh {}`, `write` is `writeFn`, and `panic` is a nil dereference.
pub data SessionCall : Type 0 where
  recv drain panic : SessionCall
  write : OutboundFrame → SessionCall

abbrev pub SessionReply : SessionCall → Type 0
SessionReply recv = Option String
SessionReply drain = Unit
SessionReply panic = ⊥
SessionReply (write f) = Unit

abbrev pub SessionCode : Type 0 → Type 0
SessionCode A = Calls SessionCall SessionReply A

-- What `protojson` and a type assertion to `proto.Message` do for one message type.
pub record Codec (T : Type 0) : Type 0 where
  pub is_message : Bool
  pub type_name : String
  pub unmarshal : String → Result T
  pub marshal : Option T → Result String

not_a_message : String → String → String
not_a_message kind name = kind +++ " type " +++ name +++ " does not implement proto.Message"

module _ {T : Type 0} (codec : Codec T) where
  as_invalid_argument : Result T → Result T
  as_invalid_argument (ok msg) = ok msg
  as_invalid_argument (err e) = err (as_error (new_error invalid_argument (error_text e)))

  -- server.go, `unmarshalRequest`.
  unfoldable pub unmarshal_request : String → Result T
  unfolding as_invalid_argument not_a_message
  unmarshal_request payload =
      if codec.is_message
      then as_invalid_argument (codec.unmarshal payload)
      else err (plain (not_a_message "request" codec.type_name))

  -- server.go, `marshalProto`.
  unfoldable pub marshal_proto : Option T → Result String
  unfolding not_a_message
  marshal_proto msg =
      if codec.is_message
      then codec.marshal msg
      else err (plain (not_a_message "response" codec.type_name))

  as_request : Result T → Result (Option (Request T))
  as_request (ok msg) = ok (some (record { msg = some msg; meta = no_meta }))
  as_request (err e) = err (as_error (new_error invalid_argument (error_text e)))

  -- stream.go, `receiveRequest`, behind its read of the channel.
  unfoldable pub receive_request : Option String → Result (Option (Request T))
  unfolding as_request not_a_message
  receive_request none = err (sentinel eof)
  receive_request (some payload) =
      if codec.is_message
      then as_request (codec.unmarshal payload)
      else err (as_error (new_error internal (not_a_message "request" codec.type_name)))
