-- ===== src/Ws/Frame.antt =====
-- transport/ws/frame.go and errors.go: the frames of the session protocol, and how an error becomes
-- an error frame. A `json.RawMessage` is its text, and the empty text is the payload left out.
use procframe.Prelude.{String, Bool, false, Option, none, some}
use procframe.Errors.{Code, Status, Error, ErrorMapper, internal, status_of, error_text}

abbrev pub frame_open : String
frame_open = "open"

abbrev pub frame_message : String
frame_message = "message"

abbrev pub frame_close : String
frame_close = "close"

abbrev pub frame_cancel : String
frame_cancel = "cancel"

abbrev pub frame_error : String
frame_error = "error"

pub record InboundFrame : Type 0 where
  pub frame_type : String
  pub id : String
  pub procedure : String
  pub shape : String
  pub payload : String

pub record ErrorDetail : Type 0 where
  pub code : Code
  pub message : String
  pub retryable : Bool

pub record OutboundFrame : Type 0 where
  pub frame_type : String
  pub id : String
  pub payload : String
  pub error : Option ErrorDetail

-- The frame literals of the transport.
abbrev pub message_frame : String → String → OutboundFrame
message_frame id payload = record {
  frame_type = frame_message;
  id = id;
  payload = payload;
  error = none;
}

abbrev pub close_frame : String → OutboundFrame
close_frame id = record { frame_type = frame_close; id = id; payload = ""; error = none }

abbrev pub error_frame : String → ErrorDetail → OutboundFrame
error_frame id detail = record {
  frame_type = frame_error;
  id = id;
  payload = "";
  error = some detail;
}

-- `if !ok && mapper != nil { status, ok = mapper(err) }`.
map_unclassified : Error → Option ErrorMapper → Option Status → Option Status
map_unclassified e mapper (some status) = some status
map_unclassified e none none = none
map_unclassified e (some mapper) none = mapper e

-- `if !ok { status = &Status{Code: CodeInternal, Message: err.Error()} }`.
or_internal : Error → Option Status → Status
or_internal e (some status) = status
or_internal e none = record { code = internal; message = error_text e; retryable = false }

unfoldable pub to_error_frame : String → Error → Option ErrorMapper → OutboundFrame
unfolding map_unclassified or_internal
to_error_frame id e mapper =
    let status = or_internal e (map_unclassified e mapper (status_of e)) in
    error_frame id
      (record { code = status.code; message = status.message; retryable = status.retryable })
