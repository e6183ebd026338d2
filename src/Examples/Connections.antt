-- ===== src/Examples/Connections.antt =====
-- A server with one procedure on small sequences of frames.
use procframe.Prelude.{insert, ◌≡◌, All, false, lookup, refl, none, []}
use procframe.Interceptor.Message.{shape_unary}
use procframe.Ws.Frame.{InboundFrame, frame_open, frame_message}
use procframe.Ws.Run.{shape_of, unary}
use procframe.Ws.Server.{
  Connection, reading, begin_open, start_session, close_all_sessions, Server, handle, handle_frame,
  dispatch, go_on,
}
use procframe.Ws.Server.Steps.{start, reads, goes_on, begins, next}
use procframe.Ws.Server.Invariant.{IsValid}
use procframe.Ws.Server.Reachable.{Reach-IsValid}
use procframe.Ws.Server.Routed.{Routed, handle_frame-Routed}
use procframe.Ws.Server.Closed.{IsReleased, close_all_sessions-IsReleased}
use procframe.Ws.Server.Open.{Opened, handle_frame-Opened}
use procframe.Examples.Handlers.{text_scope, echo}

abbrev some_server : Server
some_server =
    handle (record { handlers = []; error_mapper = none; max_inflight = 1 }) (text_scope "")
      (unary echo)

abbrev open_frame : InboundFrame
open_frame = record {
  frame_type = frame_open;
  id = "s-1";
  procedure = "echo";
  shape = shape_unary;
  payload = "";
}

-- The connection behind the open frame.
abbrev opened : Connection
opened = go_on some_server (dispatch some_server open_frame start)

opened-IsValid : IsValid some_server opened
opened-IsValid = Reach-IsValid some_server (next (next begins (reads open_frame refl)) goes_on)

opened-reading : opened.reader ≡ reading
unfolding go_on dispatch begin_open start_session handle lookup insert shape_of
opened-reading = refl

abbrev message_frame : InboundFrame
message_frame = record {
  frame_type = frame_message;
  id = "s-1";
  procedure = "";
  shape = "";
  payload = "hello";
}

handle_frame-Routed_example :
    Routed message_frame opened (handle_frame some_server message_frame opened)
handle_frame-Routed_example =
    handle_frame-Routed some_server message_frame opened opened-reading opened-IsValid refl

close_all_sessions-IsReleased_example :
    All
      (λ g. g.deleted ≡ false → IsReleased ((close_all_sessions opened).heap g.session))
      (close_all_sessions opened).goroutines
close_all_sessions-IsReleased_example =
    close_all_sessions-IsReleased some_server opened opened-IsValid

Reach-IsValid_example :
    IsValid some_server (go_on some_server (dispatch some_server open_frame start))
Reach-IsValid_example =
    Reach-IsValid some_server (next (next begins (reads open_frame refl)) goes_on)

handle_frame-Opened_example :
    Opened some_server open_frame start (handle_frame some_server open_frame start)
handle_frame-Opened_example = handle_frame-Opened some_server open_frame start refl refl
