-- ===== src/Ws.antt =====
-- transport/ws: the WebSocket transport. `Frame` and `Session` are the vocabulary, `Run` and its
-- children the per-session code, `Server` and its children the shared state of one connection.
pub mod Frame
pub mod Session
pub mod Run
pub mod Server
pub mod Client
pub mod Wire
