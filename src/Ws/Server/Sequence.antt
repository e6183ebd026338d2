-- ===== src/Ws/Server/Sequence.antt =====
-- Frames for one session, each handled without interruption.
use procframe.Prelude.{
  ℕ, ◌+◌, ◌≡◌, refl, ap, ◌∙◌, String, true, false, none, some, [], ◌∷◌, ◌++◌, arith, eq_refl, ltb,
  lookup, insert, if-true, if◌then◌else◌, length,
}
use procframe.Prelude.Text.{◌+++◌}
use procframe.Errors.{unavailable, not_found}
use procframe.Ws.Frame.{frame_close}
use procframe.Ws.Client.Call.{open_request, message_request, bare_request}
use procframe.Ws.Server.{
  Server, HandlerEntry, SessionInfo, Connection, reading, opening, delivering, update, new_session,
  write_frame, rejection, acquire, begin_open, start_fresh, start_session, find_receiver,
  begin_message, deliver, mark_closed, begin_close, finish_close, dispatch, go_on, go_on_at,
  handle_frame, recv_ch_buf_size,
}

pub update-same :
    (heap : ℕ → SessionInfo) (p : ℕ) (info : SessionInfo) → update heap p info p ≡ info
update-same heap p info = if-true info (heap p) (ground arith)

module _ (server : Server) (id : String) (s : Connection) where
  module _ (p : ℕ) (found : lookup id s.sessions ≡ some p) where
    -- The payload is put into an empty channel.
    pub handle-message :
        (payload : String)
        → s.heap p ≡ new_session
        → handle_frame server (message_request id payload) s ≡ record s {
          heap = update s.heap p (record new_session { buffer = payload ∷ [] });
          reader = reading;
        }
    unfolding handle_frame dispatch begin_message find_receiver go_on go_on_at deliver
    handle-message payload there =
        let at = record s { reader = delivering p payload } in
        ap (λ o. go_on server (find_receiver (message_request id payload) s o)) found
        ∙ ap (λ (info : SessionInfo). go_on server (if info.closed then s else at)) there
        ∙ ap
            (λ (info : SessionInfo).
              if info.chan_closed
              then record at { panicked = true }
              else if ltb (length info.buffer) recv_ch_buf_size
              then record at {
                heap = update s.heap p (record info { buffer = info.buffer ++ payload ∷ [] });
                reader = reading;
              }
              else record at { reader = reading })
            there

    -- The session is marked as closed, and its channel is closed.
    pub handle-close :
        (info : SessionInfo)
        → s.heap p ≡ info
        → (t : Connection) × (handle_frame server (bare_request frame_close id) s ≡ t)
          × (t.heap p ≡ record info { closed = true; chan_closed = true })
          × (t.sessions ≡ s.sessions)
          × (t.goroutines ≡ s.goroutines)
          × (t.written ≡ s.written)
    unfolding handle_frame dispatch begin_close mark_closed go_on go_on_at finish_close
    handle-close info there =
        let marked = record (s.heap p) { closed = true } in
        (
          _,
          ap (λ o. go_on server (mark_closed s o)) found,
          update-same (update s.heap p marked) p
                (record (update s.heap p marked p) { chan_closed = true })
              ∙ ap (λ (i : SessionInfo). record i { chan_closed = true })
                  (update-same s.heap p marked)
              ∙ ap (λ (i : SessionInfo). record i { closed = true; chan_closed = true }) there,
          refl,
          refl,
          refl,
        )

  module _ (r : s.reader ≡ reading) (procedure : String) (entry : HandlerEntry)
      (known : lookup procedure server.handlers ≡ some entry) where
    -- The session is started.
    pub handle-open :
        ltb s.sem server.max_inflight ≡ true
        → lookup id s.sessions ≡ none
        → handle_frame server (open_request id procedure entry.shape) s ≡ record s {
          sem = s.sem + 1;
          sessions = insert id s.next s.sessions;
          heap = update s.heap s.next new_session;
          next = s.next + 1;
          goroutines =
              s.goroutines
              ++ record { id = id; session = s.next; code = entry.run id; deleted = false } ∷ [];
          reader = reading;
        }
    unfolding handle_frame dispatch begin_open acquire go_on go_on_at start_session start_fresh
    handle-open free new =
        let frame = open_request id procedure entry.shape in
        let at = record s { sem = s.sem + 1; reader = opening frame entry } in
        ap (λ o. go_on server (acquire server frame s o)) known
        ∙ rw (eq_refl entry.shape, free) (ap (start_fresh server frame entry at) new)

    -- There is no slot left.
    pub handle-open_busy :
        ltb s.sem server.max_inflight ≡ false
        → handle_frame server (open_request id procedure entry.shape) s
          ≡ write_frame (rejection id unavailable "max inflight exceeded" true) s
    unfolding handle_frame dispatch begin_open acquire go_on go_on_at write_frame
    handle-open_busy full =
        ap (λ o. go_on server (acquire server (open_request id procedure entry.shape) s o)) known
        ∙ rw (eq_refl entry.shape, full)
            (ap
              (go_on_at server
                (write_frame (rejection id unavailable "max inflight exceeded" true) s))
              r)

  -- Without the session, a message is refused, and a close is ignored.
  module _ (r : s.reader ≡ reading) (absent : lookup id s.sessions ≡ none) where
    pub handle-message_lost :
        (payload : String)
        → handle_frame server (message_request id payload) s
          ≡ write_frame (rejection id not_found ("session not found: " +++ id) false) s
    unfolding handle_frame dispatch begin_message find_receiver go_on go_on_at write_frame
    handle-message_lost payload =
        ap (λ o. go_on server (find_receiver (message_request id payload) s o)) absent
        ∙ ap
            (go_on_at server
              (write_frame (rejection id not_found ("session not found: " +++ id) false) s))
            r

    pub handle-close_lost : handle_frame server (bare_request frame_close id) s ≡ s
    unfolding handle_frame dispatch begin_close mark_closed go_on go_on_at
    handle-close_lost = ap (λ o. go_on server (mark_closed s o)) absent ∙ ap (go_on_at server s) r
