-- ===== src/Ws/Wire/Served.antt =====
-- What the frames of a unary call bring about at the server.
use procframe.Prelude.{
  ℕ, ◌+◌, ◌≡◌, refl, ap, ◌∙◌, String, true, false, none, some, List, [], ◌∷◌, ◌++◌, arith, eqb, ltb,
  lookup, insert, map, if-true, if◌then◌else◌,
}
use procframe.Prelude.Text.{◌+++◌}
use procframe.Prelude.Distinct.{lookup-insert_self}
use procframe.Errors.{unavailable, not_found}
use procframe.Ws.Frame.{InboundFrame, frame_close}
use procframe.Ws.Session.{SessionCode}
use procframe.Ws.Client.{arrives}
use procframe.Ws.Client.Call.{open_request, message_request, bare_request}
use procframe.Ws.Server.{
  Server, HandlerEntry, SessionInfo, Goroutine, Connection, reading, update, new_session,
  write_frame, rejection, handle_frame,
}
use procframe.Ws.Server.Sequence.{
  update-same, handle-open, handle-open_busy, handle-message, handle-message_lost, handle-close,
  handle-close_lost,
}
use procframe.Ws.Wire.{
  frames_of, handle_frames, newest, running, code_frames, session_frames, silent, answers_in,
  answers,
}

running-last :
    (p : ℕ) (gs : List Goroutine) (g : Goroutine)
    → g.session ≡ p
    → running p (gs ++ g ∷ []) ≡ some g.code
unfolding running
running-last p [] g same = if-true (some g.code) none (ground arith)
running-last p (h ∷ gs) g same =
    ap (newest (if eqb h.session p then some h.code else none)) (running-last p gs g same)

-- The frames of a unary call.
abbrev pub requests : String → String → String → String → List InboundFrame
requests id procedure shape payload =
    open_request id procedure shape ∷ message_request id payload ∷ bare_request frame_close id ∷ []

-- What a closed session answers.
answers_in-closed :
    (t : Connection) (id : String) (p : ℕ) (info : SessionInfo) (code : SessionCode (Unit {0}))
    → t.written ≡ []
    → lookup id t.sessions ≡ some p
    → running p t.goroutines ≡ some code
    → t.heap p ≡ info
    → answers_in id t ≡ map arrives (frames_of info.chan_closed code info.buffer)
answers_in-closed t id p info code written found runs held =
    ap (λ o. map arrives (t.written ++ session_frames t o)) found
    ∙ ap (λ w. map arrives (w ++ code_frames (t.heap p) (running p t.goroutines))) written
    ∙ ap (λ o. map arrives (code_frames (t.heap p) o)) runs
    ∙ ap (λ (i : SessionInfo). map arrives (frames_of i.chan_closed code i.buffer)) held

module _ (server : Server) (s : Connection) (id procedure : String) (entry : HandlerEntry)
    (r : s.reader ≡ reading) (known : lookup procedure server.handlers ≡ some entry)
    (new : lookup id s.sessions ≡ none) where
  -- With a free slot, the session's code answers to the message and the end behind it.
  pub answers-served :
      (payload : String)
      → ltb s.sem server.max_inflight ≡ true
      → answers server s id (requests id procedure entry.shape payload)
        ≡ map arrives (frames_of true (entry.run id) (payload ∷ []))
  unfolding answers handle_frames
  answers-served payload free =
      let p = s.next in
      let g : Goroutine = record { id = id; session = p; code = entry.run id; deleted = false } in
      let started : Connection = record (silent s) {
        sem = s.sem + 1;
        sessions = insert id p s.sessions;
        heap = update s.heap p new_session;
        next = p + 1;
        goroutines = s.goroutines ++ g ∷ [];
        reader = reading;
      } in
      let with_message : SessionInfo = record new_session { buffer = payload ∷ [] } in
      let given : Connection = record started {
        heap = update started.heap p with_message;
        reader = reading;
      } in
      let found = lookup-insert_self id p s.sessions in
      let (t, closed, held, sessions, goroutines, written) =
        handle-close server id given p found with_message
          (update-same started.heap p with_message) in
      ap
        (λ c. answers_in id (
          handle_frame server (bare_request frame_close id)
            (handle_frame server (message_request id payload) c)))
        (handle-open server id (silent s) r procedure entry known free new)
      ∙ ap (λ c. answers_in id (handle_frame server (bare_request frame_close id) c))
          (handle-message server id started p found payload (update-same s.heap p new_session))
      ∙ ap (answers_in id) closed
      ∙ answers_in-closed t id p (record with_message { closed = true; chan_closed = true })
          (entry.run id) written (ap (lookup id) sessions ∙ found)
          (ap (running p) goroutines ∙ running-last p s.goroutines g refl) held

  -- Without one, the open frame is refused, and then the message.
  pub answers-busy :
      (payload : String)
      → ltb s.sem server.max_inflight ≡ false
      → answers server s id (requests id procedure entry.shape payload)
        ≡ arrives (rejection id unavailable "max inflight exceeded" true)
          ∷ arrives (rejection id not_found ("session not found: " +++ id) false)
          ∷ []
  unfolding answers handle_frames write_frame
  answers-busy payload full =
      let refused : Connection =
        write_frame (rejection id unavailable "max inflight exceeded" true) (silent s) in
      let lost : Connection =
        write_frame (rejection id not_found ("session not found: " +++ id) false) refused in
      ap
        (λ c. answers_in id (
          handle_frame server (bare_request frame_close id)
            (handle_frame server (message_request id payload) c)))
        (handle-open_busy server id (silent s) r procedure entry known full)
      ∙ ap (λ c. answers_in id (handle_frame server (bare_request frame_close id) c))
          (handle-message_lost server id refused r new payload)
      ∙ ap (answers_in id) (handle-close_lost server id lost r new)
      ∙ ap (λ o. map arrives (lost.written ++ session_frames lost o)) new
