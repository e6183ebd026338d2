-- ===== src/Ws/Client/Conn.antt =====
-- transport/ws/client.go: the state of a `Conn` and its steps. The read loop releases the lock between
-- the look at the session map and the send on the session's channel, so that other steps can come
-- between; it waits there while the channel is full.
pub mod Invariant
pub mod Reachable
pub mod Blocked
pub mod Orphan
use procframe.Prelude.{
  ℕ, ◌+◌, ◌%◌, ◌^◌, ◌<◌, ◌≡◌, String, Bool, true, false, Option, none, some, List, [], ◌∷◌, ◌++◌,
  if◌then◌else◌, eqb, length, lookup, insert, delete,
}
use procframe.Errors.{Error}
use procframe.Ws.Frame.{OutboundFrame}
use procframe.Ws.Server.{recv_ch_buf_size}

-- The channel of a `clientSession`.
pub record Channel : Type 0 where
  pub buffer : List OutboundFrame
  pub closed : Bool

-- The read loop: at its `Read`, at its send of a frame on a channel, or past its end.
pub data Reader : Type 0 where
  reading stopped : Reader
  delivering : ℕ → OutboundFrame → Reader

-- `Conn`. A `*clientSession` is a number, with its channel in `heap`; `next` is the next one to be
-- allocated. `sessions` is `none` once it is nil, which is when `done` is closed.
pub record Conn : Type 0 where
  pub sessions : Option (List (String × ℕ))
  pub heap : ℕ → Channel
  pub next : ℕ
  pub next_id : ℕ
  pub reader : Reader
  pub writing : Bool
  pub fatal : Option Error
  pub panicked : Bool

abbrev pub empty_channel : Channel
empty_channel = record { buffer = []; closed = false }

abbrev pub update : (ℕ → Channel) → ℕ → Channel → ℕ → Channel
update heap p c q = if eqb q p then c else heap q

-- `NewConn`.
abbrev pub new_conn : Conn
new_conn = record {
  sessions = some [];
  heap = λ p. empty_channel;
  next = 0;
  next_id = 0;
  reader = reading;
  writing = true;
  fatal = none;
  panicked = false;
}

-- `if c.sessions != nil { c.sessions[id] = sess }`.
register : String → ℕ → Option (List (String × ℕ)) → Option (List (String × ℕ))
register id p none = none
register id p (some m) = some (insert id p m)

-- `delete(c.sessions, id)`.
unregister : String → Option (List (String × ℕ)) → Option (List (String × ℕ))
unregister id none = none
unregister id (some m) = some (delete id m)

find : String → Option (List (String × ℕ)) → Option ℕ
find id none = none
find id (some m) = lookup id m

-- `if c.err == nil { c.err = err }`.
first_error : Error → Option Error → Option Error
first_error e none = some e
first_error e (some old) = some old

-- Closing a channel that is closed panics.
unfoldable pub close_each : List (String × ℕ) → Conn → Conn
close_each [] s = s
close_each ((id, p) ∷ m) s = close_each m (
    if (s.heap p).closed
    then record s { panicked = true }
    else record s { heap = update s.heap p (record (s.heap p) { closed = true }) })

-- `id_text` is fmt.Sprintf("s-%d", n).
module _ (id_text : ℕ → String) where
  -- The atomic counter is a uint64.
  abbrev pub increment : ℕ → ℕ
  increment n = (n + 1) % 2 ^ 64

  -- `newSession`. Nothing else looks at the counter, so its increment stands with the insertion.
  unfoldable pub new_session : Conn → Conn
  unfolding register
  new_session s = record s {
    sessions = register (id_text (increment s.next_id)) s.next s.sessions;
    heap = update s.heap s.next empty_channel;
    next = s.next + 1;
    next_id = increment s.next_id;
  }

unfoldable pub remove_session : String → Conn → Conn
unfolding unregister
remove_session id s = record s { sessions = unregister id s.sessions }

routed : OutboundFrame → Conn → Option ℕ → Conn
routed frame s none = s
routed frame s (some p) = record s { reader = delivering p frame }

-- The read loop at a frame that was decoded, up to the unlock.
unfoldable pub route : OutboundFrame → Conn → Conn
unfolding find routed
route frame s = routed frame s (find frame.id s.sessions)

-- `case sess.recvCh <- frame`, where the channel has space. A send on a closed channel panics.
unfoldable pub deliver : ℕ → OutboundFrame → Conn → Conn
deliver p frame s = if (s.heap p).closed then record s { panicked = true } else record s {
  heap = update s.heap p (record (s.heap p) { buffer = (s.heap p).buffer ++ frame ∷ [] });
  reader = reading;
}

-- The read loop, and the write loop, at an error.
unfoldable pub read_fails : Error → Conn → Conn
unfolding first_error
read_fails e s = record s { fatal = first_error e s.fatal; reader = stopped }

unfoldable pub write_fails : Error → Conn → Conn
unfolding first_error
write_fails e s = record s { fatal = first_error e s.fatal; writing = false }

closed_with : Conn → Option (List (String × ℕ)) → Conn
closed_with s none = s
closed_with s (some m) = record (close_each m s) { sessions = none }

-- The goroutine behind `wg.Wait()`.
unfoldable pub tear_down : Conn → Conn
unfolding closed_with
tear_down s = closed_with s s.sessions

-- One step of the loops or of a caller; `receives` is the read of a channel by its stream.
pub data Step (id_text : ℕ → String) : Conn → Conn → Type 0 where
  opens : {s : Conn} → Step id_text s (new_session id_text s)
  removes : {s : Conn} (id : String) → Step id_text s (remove_session id s)
  reads : {s : Conn} (frame : OutboundFrame) → s.reader ≡ reading → Step id_text s (route frame s)
  delivers :
      {s : Conn} (p : ℕ) (frame : OutboundFrame)
      → s.reader ≡ delivering p frame
      → length (s.heap p).buffer < recv_ch_buf_size
      → Step id_text s (deliver p frame s)
  ends : {s : Conn} → Step id_text s (record s { reader = stopped })
  fails_read : {s : Conn} (e : Error) → s.reader ≡ reading → Step id_text s (read_fails e s)
  fails_write : {s : Conn} (e : Error) → s.writing ≡ true → Step id_text s (write_fails e s)
  ends_write : {s : Conn} → Step id_text s (record s { writing = false })
  tears_down : {s : Conn} → s.reader ≡ stopped → s.writing ≡ false → Step id_text s (tear_down s)
  receives :
      {s : Conn} (p : ℕ) (frame : OutboundFrame) (rest : List OutboundFrame)
      → (s.heap p).buffer ≡ frame ∷ rest
      → Step id_text s (record s { heap = update s.heap p (record (s.heap p) { buffer = rest }) })

-- The states that a connection comes to.
pub data Reach (id_text : ℕ → String) : Conn → Type 0 where
  begins : Reach id_text new_conn
  next : {s t : Conn} → Reach id_text s → Step id_text s t → Reach id_text t
