-- ===== src/Ws/Server/Routed.antt =====
-- A message frame, handled without interruption: it reaches its session's channel, or it is lost in
-- one of the ways that the protocol has for it.
use mathlib.Core.Path.{subst}
use procframe.Prelude.{
  ℕ, ◌≤◌, ◌<◌, ◌≡◌, refl, sym, ap, ◌∙◌, inl, inr, true, false, Option, none, some, [], ◌∷◌, ◌++◌,
  arith, eq_iff, length, lookup, ltb, Bool-cases, if-true, if-false, ◌==◌,
}
use procframe.Errors.{not_found}
use procframe.Ws.Frame.{InboundFrame, frame_message, frame_open}
use procframe.Ws.Server.{
  Server, Connection, reading, delivering, update, recv_ch_buf_size, find_receiver, begin_message,
  deliver, dispatch, go_on, go_on_at, handle_frame,
}
use procframe.Ws.Server.Invariant.{Opens, IsOpen, IsValid}
use procframe.Ws.Server.Open.{IsRefused, rejection-IsRefused, go_on-write}

-- The connection with the payload at the end of the channel of session `p`.
abbrev pub with_payload : InboundFrame → ℕ → Connection → Connection
with_payload frame p s = record s {
  heap = update s.heap p (record (s.heap p) { buffer = (s.heap p).buffer ++ frame.payload ∷ [] });
}

-- What becomes of a message frame.
pub data Routed (frame : InboundFrame) (s : Connection) : Connection → Type 0 where
  unknown :
      {t : Connection}
      → lookup frame.id s.sessions ≡ none
      → IsRefused not_found frame.id s t
      → Routed frame s t
  late :
      {t : Connection} (p : ℕ)
      → lookup frame.id s.sessions ≡ some p
      → (s.heap p).closed ≡ true
      → t ≡ s
      → Routed frame s t
  dropped :
      {t : Connection} (p : ℕ)
      → lookup frame.id s.sessions ≡ some p
      → (s.heap p).closed ≡ false
      → recv_ch_buf_size ≤ length (s.heap p).buffer
      → t ≡ s
      → Routed frame s t
  delivered :
      {t : Connection} (p : ℕ)
      → lookup frame.id s.sessions ≡ some p
      → (s.heap p).closed ≡ false
      → length (s.heap p).buffer < recv_ch_buf_size
      → t ≡ with_payload frame p s
      → Routed frame s t

module _ (server : Server) (frame : InboundFrame) (s : Connection) (r : s.reader ≡ reading) where
  -- The reader is back where it was.
  abbrev back : Connection
  back = record s { reader = reading }

  back-same : back ≡ s
  back-same = λ i. record s { reader = sym r i }

  go_on-reading : go_on server s ≡ s
  unfolding go_on go_on_at
  go_on-reading = ap (go_on_at server s) r

  deliver-Routed :
      (p : ℕ)
      → lookup frame.id s.sessions ≡ some p
      → (s.heap p).closed ≡ false
      → (s.heap p).chan_closed ≡ false
      → Routed frame s (deliver p frame.payload (record s { reader = delivering p frame.payload }))
  unfolding deliver
  deliver-Routed p found live usable =
      elim (Bool-cases (ltb (length (s.heap p).buffer) recv_ch_buf_size)) [
        | inl space ↦ subst (Routed frame s) (sym (if-false _ _ usable ∙ if-true _ _ space)) (
            delivered p found live (ground arith)
              (λ i. record s { heap = (with_payload frame p s).heap; reader = sym r i }))
        | inr full ↦
            subst (Routed frame s) (sym (if-false _ _ usable ∙ if-false _ _ full))
              (dropped p found live (ground arith) back-same)
      ]

  find_receiver-Routed :
      (found : Option ℕ)
      → Opens s.heap
      → lookup frame.id s.sessions ≡ found
      → Routed frame s (go_on server (find_receiver frame s found))
  unfolding find_receiver
  find_receiver-Routed none o e =
      rw (go_on-write server frame s r _)
        (unknown e (rejection-IsRefused server frame s r _ _ false refl))
  find_receiver-Routed (some p) o e = elim (Bool-cases (s.heap p).closed) [
    | inl gone ↦ rw gone (late p e gone go_on-reading)
    | inr live ↦ rw live (unfold go_on go_on_at in deliver-Routed p e live (o p live))
  ]

  -- In a valid state at `conn.Read`, a message frame that is handled with no other goroutine in
  -- between is refused as `not_found` without a session, changes nothing behind a close of its session
  -- or with 64 messages waiting, and else its payload is put behind those that wait, with no other
  -- change; it never makes the server panic.
  pub handle_frame-Routed :
      IsValid server s
      → frame.frame_type ≡ frame_message
      → Routed frame s (handle_frame server frame s)
  unfolding handle_frame dispatch begin_message
  handle_frame-Routed v e =
      let other : (frame.frame_type == frame_open) ≡ false = rw e refl in
      rw (other, (eq_iff frame.frame_type frame_message).1 e)
        (find_receiver-Routed _ (subst (IsOpen s.heap) r v.open_channels) refl)
