-- ===== src/Ws/Server/Steps.antt =====
-- The interleavings of one connection: the reader and the goroutines of the sessions take steps in
-- any order, and the client sends any frames.
use procframe.Prelude.{
  ◌-◌, ◌≡◌, String, true, false, Option, none, some, List, [], ◌∷◌, ◌++◌, delete,
}
use procframe.Calls.{done, call}
use procframe.Ws.Frame.{InboundFrame, OutboundFrame}
use procframe.Ws.Session.{SessionCode, recv, drain, write}
use procframe.Ws.Server.{
  Server, Goroutine, Connection, reading, stopped, update, write_frame, dispatch, go_on,
  close_all_sessions,
}

-- A connection as `serve` makes it.
abbrev pub start : Connection
start = record {
  sem = 0;
  sessions = [];
  heap = λ p. record { cancelled = false; closed = false; buffer = []; chan_closed = false };
  next = 0;
  goroutines = [];
  reader = reading;
  written = [];
  panicked = false;
}

abbrev pub resume : Goroutine → SessionCode (Unit {0}) → Goroutine
resume g code = record g { code = code }

-- The goroutines around the one that takes a step.
abbrev pub with_goroutine :
    Connection → List Goroutine → List Goroutine → List Goroutine → Connection
with_goroutine s before now behind = record s { goroutines = before ++ (now ++ behind) }

-- What one goroutine does to itself and to the rest of the connection.
-- `receives` takes a buffered message, `sees_end` finds the channel closed and empty, `drains` ends
-- its loop when the channel is closed, `writes` hands over a frame, and `drops` loses it, as the
-- select of `writeFn` may do when the connection's context is done. `exits` is the deferred function
-- up to the unlock, and `releases` its end.
pub data Work : Connection → Goroutine → Connection → List Goroutine → Type 0 where
  receives :
      {s : Connection} {g : Goroutine} (k : Option String → SessionCode (Unit {0})) (m : String)
      (rest : List String)
      → g.code ≡ call recv k
      → (s.heap g.session).buffer ≡ m ∷ rest
      → Work s g
          (record s {
            heap = update s.heap g.session (record (s.heap g.session) { buffer = rest });
          })
          (resume g (k (some m)) ∷ [])
  sees_end :
      {s : Connection} {g : Goroutine} (k : Option String → SessionCode (Unit {0}))
      → g.code ≡ call recv k
      → (s.heap g.session).buffer ≡ []
      → (s.heap g.session).chan_closed ≡ true
      → Work s g s (resume g (k none) ∷ [])
  drains :
      {s : Connection} {g : Goroutine} (k : Unit {0} → SessionCode (Unit {0}))
      → g.code ≡ call drain k
      → (s.heap g.session).chan_closed ≡ true
      → Work s g
          (record s { heap = update s.heap g.session (record (s.heap g.session) { buffer = [] }) })
          (resume g (k tt) ∷ [])
  writes :
      {s : Connection} {g : Goroutine} (f : OutboundFrame) (k : Unit {0} → SessionCode (Unit {0}))
      → g.code ≡ call (write f) k
      → Work s g (write_frame f s) (resume g (k tt) ∷ [])
  drops :
      {s : Connection} {g : Goroutine} (f : OutboundFrame) (k : Unit {0} → SessionCode (Unit {0}))
      → g.code ≡ call (write f) k
      → s.reader ≡ stopped
      → Work s g s (resume g (k tt) ∷ [])
  exits :
      {s : Connection} {g : Goroutine}
      → g.code ≡ done tt
      → g.deleted ≡ false
      → Work s g (record s { sessions = delete g.id s.sessions }) (record g { deleted = true } ∷ [])
  releases :
      {s : Connection} {g : Goroutine}
      → g.deleted ≡ true
      → Work s g (record s { sem = s.sem - 1 }) []

-- One step of the connection. A frame is read where the reader stands at its `Read`; a frame that
-- does not decode changes nothing and is no step.
pub data Step (server : Server) : Connection → Connection → Type 0 where
  reads :
      {s : Connection} (frame : InboundFrame)
      → s.reader ≡ reading
      → Step server s (dispatch server frame s)
  goes_on : {s : Connection} → Step server s (go_on server s)
  disconnects : {s : Connection} → s.reader ≡ reading → Step server s (close_all_sessions s)
  works :
      {s t : Connection} {g : Goroutine} (before behind now : List Goroutine)
      → s.goroutines ≡ before ++ (g ∷ behind)
      → Work s g t now
      → Step server s (with_goroutine t before now behind)

pub data Reach (server : Server) : Connection → Type 0 where
  begins : Reach server start
  next : {s t : Connection} → Reach server s → Step server s t → Reach server t
