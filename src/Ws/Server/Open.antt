-- ===== src/Ws/Server/Open.antt =====
-- An open frame, handled without interruption: it starts a session, or it is refused and leaves
-- nothing behind.
use procframe.Prelude.{
  ℕ, ◌+◌, ◌<◌, ◌≤◌, ◌≢◌, ◌≡◌, refl, inl, inr, String, Bool, true, false, Option, none, some, [],
  ◌∷◌, ◌++◌, arith, ◌==◌, eq_iff, ltb, lookup, insert, Bool-cases, ap,
}
use procframe.Prelude.Text.{◌+++◌}
use procframe.Errors.{
  Code, status_of, new_error, not_found, invalid_argument, unavailable, already_exists,
}
use procframe.Ws.Frame.{
  InboundFrame, OutboundFrame, ErrorDetail, error_frame, frame_open, to_error_frame,
}
use procframe.Ws.Server.{
  Server, HandlerEntry, Connection, reading, opening, update, new_session, write_frame, rejection,
  acquire, begin_open, start_fresh, start_session, dispatch, go_on, go_on_at, handle_frame,
}

-- An error frame of that code for the session `id` was written, only `unavailable` being marked as
-- worth a retry, and all else is as it was.
pub record IsRefused (code : Code) (id : String) (s t : Connection) : Type 0 where
  pub detail : ErrorDetail
  pub written : t.written ≡ s.written ++ error_frame id detail ∷ []
  pub coded : detail.code ≡ code
  pub retryable : detail.retryable ≡ (code == unavailable)
  pub sem : t.sem ≡ s.sem
  pub sessions : t.sessions ≡ s.sessions
  pub goroutines : t.goroutines ≡ s.goroutines
  pub heap : t.heap ≡ s.heap
  pub reader : t.reader ≡ reading

-- The session of the frame was started with the code of `entry`, and no frame was written.
pub record IsStarted (frame : InboundFrame) (entry : HandlerEntry) (s t : Connection) : Type 0 where
  pub written : t.written ≡ s.written
  pub sem : t.sem ≡ s.sem + 1
  pub sessions : t.sessions ≡ insert frame.id s.next s.sessions
  pub goroutines :
      t.goroutines
      ≡ s.goroutines
        ++ record { id = frame.id; session = s.next; code = entry.run frame.id; deleted = false }
          ∷ []
  pub heap : t.heap ≡ update s.heap s.next new_session
  pub reader : t.reader ≡ reading

-- What becomes of an open frame, in the order in which the reasons are looked at.
pub data Opened (server : Server) (frame : InboundFrame) (s : Connection)
    : Connection → Type 0 where
  unknown :
      {t : Connection}
      → lookup frame.procedure server.handlers ≡ none
      → IsRefused not_found frame.id s t
      → Opened server frame s t
  mismatch :
      {t : Connection} (entry : HandlerEntry)
      → lookup frame.procedure server.handlers ≡ some entry
      → frame.shape ≢ entry.shape
      → IsRefused invalid_argument frame.id s t
      → Opened server frame s t
  busy :
      {t : Connection} (entry : HandlerEntry)
      → lookup frame.procedure server.handlers ≡ some entry
      → frame.shape ≡ entry.shape
      → server.max_inflight ≤ s.sem
      → IsRefused unavailable frame.id s t
      → Opened server frame s t
  duplicate :
      {t : Connection} (entry : HandlerEntry) (p : ℕ)
      → lookup frame.procedure server.handlers ≡ some entry
      → frame.shape ≡ entry.shape
      → s.sem < server.max_inflight
      → lookup frame.id s.sessions ≡ some p
      → IsRefused already_exists frame.id s t
      → Opened server frame s t
  started :
      {t : Connection} (entry : HandlerEntry)
      → lookup frame.procedure server.handlers ≡ some entry
      → frame.shape ≡ entry.shape
      → s.sem < server.max_inflight
      → lookup frame.id s.sessions ≡ none
      → IsStarted frame entry s t
      → Opened server frame s t

module _ (server : Server) (frame : InboundFrame) (s : Connection) (r : s.reader ≡ reading) where
  pub rejection-IsRefused :
      (code message : String) (retryable : Bool)
      → retryable ≡ (code == unavailable)
      → IsRefused code frame.id s (write_frame (rejection frame.id code message retryable) s)
  unfolding write_frame
  rejection-IsRefused code message retryable e = record {
    detail = record { code = code; message = message; retryable = retryable };
    written = refl;
    coded = refl;
    retryable = e;
    sem = refl;
    sessions = refl;
    goroutines = refl;
    heap = refl;
    reader = r;
  }

  module _ (entry : HandlerEntry) (known : lookup frame.procedure server.handlers ≡ some entry)
      (same : frame.shape ≡ entry.shape) (free : s.sem < server.max_inflight) where
    -- The connection inside `startSession`.
    abbrev acquired : Connection
    acquired = record s { sem = s.sem + 1; reader = opening frame entry }

    start_fresh-Opened :
        (found : Option ℕ)
        → lookup frame.id s.sessions ≡ found
        → Opened server frame s (start_fresh server frame entry acquired found)
    unfolding start_fresh write_frame to_error_frame status_of new_error
    start_fresh-Opened (some dup) e = duplicate entry dup known same free e (record {
      detail = record {
        code = already_exists;
        message = "duplicate session id: " +++ frame.id;
        retryable = false;
      };
      written = refl;
      coded = refl;
      retryable = refl;
      sem = omega arith;
      sessions = refl;
      goroutines = refl;
      heap = refl;
      reader = refl;
    })
    start_fresh-Opened none e = started entry known same free e (record {
      written = refl;
      sem = refl;
      sessions = refl;
      goroutines = refl;
      heap = refl;
      reader = refl;
    })

  pub go_on-write : (f : OutboundFrame) → go_on server (write_frame f s) ≡ write_frame f s
  unfolding go_on write_frame go_on_at
  go_on-write f = ap (go_on_at server (write_frame f s)) r

  acquire-Opened :
      (found : Option HandlerEntry)
      → lookup frame.procedure server.handlers ≡ found
      → Opened server frame s (go_on server (acquire server frame s found))
  unfolding acquire
  acquire-Opened none e = rw go_on-write (unknown e (rejection-IsRefused _ _ false refl))
  acquire-Opened (some entry) e = elim (Bool-cases (frame.shape == entry.shape)) [
    | inl same ↦ elim (Bool-cases (ltb s.sem server.max_inflight)) [
      | inl free ↦
          rw (same, free)
            (unfold go_on go_on_at start_session in
              start_fresh-Opened entry e ((eq_iff _ _).0 same) (ground arith) _ refl)
      | inr full ↦
          rw (same, full)
            (rw go_on-write (
              busy entry e ((eq_iff _ _).0 same) (ground arith)
                (rejection-IsRefused _ _ true refl)))
    ]
    | inr other ↦ rw other (
        rw go_on-write (
          mismatch entry e (λ p. cc (other, (eq_iff frame.shape entry.shape).1 p))
            (rejection-IsRefused _ _ false refl)))
  ]

  -- An open frame that is handled with no other goroutine in between has one of five outcomes, by
  -- the first reason that applies: refused as `not_found`, `invalid_argument`, `unavailable` or
  -- `already_exists` with one error frame for its id and no other change (the semaphore slot taken
  -- for a duplicate id is given back), or its session is started.
  pub handle_frame-Opened :
      frame.frame_type ≡ frame_open → Opened server frame s (handle_frame server frame s)
  unfolding handle_frame dispatch begin_open
  handle_frame-Opened e = rw ((eq_iff frame.frame_type frame_open).1 e) (acquire-Opened _ refl)
