-- ===== src/Ws/Wire.antt =====
-- A client and a server on the two ends of one connection that loses nothing: the reader of the server
-- handles the frames of a call, the goroutine of the session runs on what it finds in its channel, and
-- the client reads what both have written.
pub mod Served
pub mod Reads
pub mod Unary
use procframe.Prelude.{
  ℕ, String, Option, none, some, List, [], ◌∷◌, ◌++◌, if◌then◌else◌, map, lookup, Bool, true, false,
  eqb,
}
use procframe.Calls.{done, call}
use procframe.Ws.Frame.{InboundFrame, OutboundFrame}
use procframe.Ws.Session.{SessionCode, recv, drain, panic, write, Codec}
use procframe.Ws.Server.{Server, SessionInfo, Goroutine, Connection, handle_frame}
use procframe.Ws.Client.{Event, arrives, receive_response}
use procframe.Ws.Client.Call.{ConnCode, new_session, remove_session, send, receive, context_ended}

-- The frames that the code of a session writes, up to its end or to its wait for a channel that is still
-- open, when the channel holds these messages.
unfoldable pub frames_of : {A : Type 0} → Bool → SessionCode A → List String → List OutboundFrame
frames_of closed (done a) ms = []
frames_of true (call recv k) [] = frames_of true (k none) []
frames_of false (call recv k) [] = []
frames_of closed (call recv k) (m ∷ ms) = frames_of closed (k (some m)) ms
frames_of true (call drain k) ms = frames_of true (k tt) []
frames_of false (call drain k) ms = []
frames_of closed (call panic k) ms = []
frames_of closed (call (write f) k) ms = f ∷ frames_of closed (k tt) ms

-- The loop of `readLoop` over the frames of a client, with no goroutine in between.
unfoldable pub handle_frames : Server → List InboundFrame → Connection → Connection
handle_frames server [] s = s
handle_frames server (frame ∷ frames) s = handle_frames server frames (handle_frame server frame s)

-- The code that the goroutine of a session has left to run.
abbrev pub newest :
    Option (SessionCode (Unit {0}))
    → Option (SessionCode (Unit {0}))
    → Option (SessionCode (Unit {0}))
newest earlier none = earlier
newest earlier (some code) = some code

unfoldable pub running : ℕ → List Goroutine → Option (SessionCode (Unit {0}))
running p [] = none
running p (g ∷ gs) = newest (if eqb g.session p then some g.code else none) (running p gs)

abbrev pub code_frames : SessionInfo → Option (SessionCode (Unit {0})) → List OutboundFrame
code_frames info none = []
code_frames info (some code) = frames_of info.chan_closed code info.buffer

abbrev pub session_frames : Connection → Option ℕ → List OutboundFrame
session_frames s none = []
session_frames s (some p) = code_frames (s.heap p) (running p s.goroutines)

-- A connection whose earlier frames the client has read.
abbrev pub silent : Connection → Connection
silent s = record s { written = [] }

abbrev pub answers_in : String → Connection → List Event
answers_in id s = map arrives (s.written ++ session_frames s (lookup id s.sessions))

-- What the channel of the session `id` brings to the client for the frames that it has sent on a
-- connection that was in the state `s`: what the reader writes for them, and then the goroutine of the
-- session.
unfoldable pub answers : Server → Connection → String → List InboundFrame → List Event
answers server s id sent = answers_in id (handle_frames server sent (silent s))

module _ {Res : Type 0} (server : Server) (s : Connection) (codec : Codec Res) (id : String) where
  -- A call against the server, whose connection is in the state `s`: the session's id is `id`, no send
  -- fails, and the context does not end. The list holds the frames sent so far. It is for calls that
  -- receive once, as a unary call does: each `receive` reads the answers from their beginning.
  unfoldable pub play : {A : Type 0} → ConnCode Res A → List InboundFrame → Option A
  play (done a) sent = some a
  play (call new_session k) sent = play (k id) sent
  play (call (remove_session old) k) sent = play (k tt) sent
  play (call (send f) k) sent = play (k none) (sent ++ f ∷ [])
  play (call receive k) sent = elim (receive_response codec none (answers server s id sent)) [
    | none ↦ none
    | some (r, es) ↦ play (k r) sent
  ]
  play (call context_ended k) sent = play (k Bool.false) sent
