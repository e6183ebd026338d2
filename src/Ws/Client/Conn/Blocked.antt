-- ===== src/Ws/Client/Conn/Blocked.antt =====
-- transport/ws/client.go: the read loop at a channel that is full and that its stream has given up,
-- as after the `Close` of a stream whose session had unread frames.
use procframe.Prelude.{
  ℕ, ◌≤◌, ◌<◌, ◌≡◌, refl, ap, ◌∙◌, String, false, Option, none, some, List, arith, eqb, length,
}
use procframe.Ws.Frame.{OutboundFrame}
use procframe.Ws.Server.{recv_ch_buf_size}
use procframe.Ws.Client.Conn.{
  delivering, Conn, register, unregister, new_session, remove_session, write_fails, Step, opens,
  removes, reads, delivers, ends, fails_read, fails_write, ends_write, tears_down, receives,
}
use procframe.Ws.Client.Conn.Invariant.{place}

full_there :
    (t : Conn) (q : ℕ) {p : ℕ}
    → length (t.heap q).buffer < recv_ch_buf_size
    → q ≡ p
    → length (t.heap p).buffer ≡ recv_ch_buf_size
    → ⊥
full_there t q space at full = omega (arith, space, ap (λ r. length (t.heap r).buffer) at, full)

module _ (id_text : ℕ → String) (p : ℕ) where
  -- Any step but a receive from the channel `p`, and but the end of the read loop's context.
  abbrev pub Leaves : {s t : Conn} → Step id_text s t → Type 0
  Leaves opens = Unit
  Leaves (removes id) = Unit
  Leaves (reads frame r) = Unit
  Leaves (delivers q frame r space) = Unit
  Leaves ends = ⊥
  Leaves (fails_read e r) = Unit
  Leaves (fails_write e w) = Unit
  Leaves ends_write = Unit
  Leaves (tears_down r w) = Unit
  Leaves (receives q frame rest b) = eqb p q ≡ false

  -- Steps in which nobody receives from the channel `p`.
  pub data Abandoned : Conn → Conn → Type 0 where
    begun : {s : Conn} → Abandoned s s
    goes : {s t u : Conn} → Abandoned s t → (st : Step id_text t u) → Leaves st → Abandoned s u

  -- The read loop stands at the channel `p`, which is full; no channel has got a frame since `s`,
  -- and the connection is not torn down.
  pub record IsStuck (frame : OutboundFrame) (s t : Conn) : Type 0 where
    pub waiting : t.reader ≡ delivering p frame
    pub full : length (t.heap p).buffer ≡ recv_ch_buf_size
    pub allocated : p < t.next
    pub no_more : (q : ℕ) → length (t.heap q).buffer ≤ length (s.heap q).buffer
    pub up : t.sessions ≡ none → s.sessions ≡ none

  -- The connection with other parts, where the reader stays and the buffers only shrink.
  stays-IsStuck :
      {s t : Conn} (u : Conn) (frame : OutboundFrame)
      → IsStuck frame s t
      → u.reader ≡ t.reader
      → (u.heap p).buffer ≡ (t.heap p).buffer
      → t.next ≤ u.next
      → ((q : ℕ) → length (u.heap q).buffer ≤ length (t.heap q).buffer)
      → (u.sessions ≡ none → t.sessions ≡ none)
      → IsStuck frame s u
  stays-IsStuck u frame k r b n less up = record {
    waiting = r ∙ k.waiting;
    full = ap length b ∙ k.full;
    allocated = omega (arith, k.allocated, n);
    no_more = λ q. omega (arith, less q, k.no_more q);
    up = λ gone. k.up (up gone);
  }

  register-none :
      (id : String) (q : ℕ) (m : Option (List (String × ℕ))) → register id q m ≡ none → m ≡ none
  unfolding register
  register-none id q none h = refl
  register-none id q (some m) h = ground arith

  unregister-none :
      (id : String) (m : Option (List (String × ℕ))) → unregister id m ≡ none → m ≡ none
  unfolding unregister
  unregister-none id none h = refl
  unregister-none id (some m) h = ground arith

  Step-IsStuck :
      {s t u : Conn} (frame : OutboundFrame)
      → (st : Step id_text t u) → Leaves st
      → IsStuck frame s t
      → IsStuck frame s u
  unfolding new_session remove_session write_fails
  Step-IsStuck frame (opens {s = t}) l k =
      stays-IsStuck _ frame k refl (ground (arith, k.allocated)) (omega arith) (λ q. ground arith)
        (register-none _ t.next t.sessions)
  Step-IsStuck frame (removes {s = t} id) l k =
      stays-IsStuck _ frame k refl refl (omega arith) (λ q. omega arith)
        (unregister-none id t.sessions)
  Step-IsStuck frame (reads {s = t} f r) l k =
      absurd (omega (arith, ap place r, ap place k.waiting))
  Step-IsStuck frame (delivers {s = t} q f r space) l k =
      absurd (full_there t q space (omega (arith, ap place r, ap place k.waiting)) k.full)
  Step-IsStuck frame (ends {s = t}) l k = absurd l
  Step-IsStuck frame (fails_read {s = t} e r) l k =
      absurd (omega (arith, ap place r, ap place k.waiting))
  Step-IsStuck frame (fails_write {s = t} e w) l k =
      stays-IsStuck _ frame k refl refl (omega arith) (λ q. omega arith) (λ gone. gone)
  Step-IsStuck frame (ends_write {s = t}) l k =
      stays-IsStuck _ frame k refl refl (omega arith) (λ q. omega arith) (λ gone. gone)
  Step-IsStuck frame (tears_down {s = t} r w) l k =
      absurd (omega (arith, ap place r, ap place k.waiting))
  Step-IsStuck frame (receives {s = t} q f rest b) l k =
      stays-IsStuck _ frame k refl (rw l refl) (omega arith) (λ r. ground (arith, ap length b))
        (λ gone. gone)

  -- While the read loop waits to send a frame on a full channel and nobody receives from that
  -- channel, no other step of the connection ends the wait, unless the loop's context ends: no
  -- session gets a frame any more, and the connection is not torn down, not even after its write loop
  -- has failed.
  pub Abandoned-IsStuck :
      {s t : Conn} (frame : OutboundFrame)
      → s.reader ≡ delivering p frame
      → length (s.heap p).buffer ≡ recv_ch_buf_size
      → p < s.next
      → Abandoned s t
      → IsStuck frame s t
  Abandoned-IsStuck frame r b n begun = record {
    waiting = r;
    full = b;
    allocated = n;
    no_more = λ q. omega arith;
    up = λ gone. gone;
  }
  Abandoned-IsStuck frame r b n (goes run st l) =
      Step-IsStuck frame st l (Abandoned-IsStuck frame r b n run)
