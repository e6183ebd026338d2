-- ===== src/Ws/Client/Conn/Orphan.antt =====
-- transport/ws/client.go: a session that is opened on a connection that was torn down.
use procframe.Prelude.{
  ℕ, ◌<◌, ◌≡◌, refl, sym, ap, String, none, List, ◌∷◌, arith, Bool-cases, inl, inr, eqb, length,
}
use mathlib.Core.Path.{subst}
use procframe.Ws.Frame.{OutboundFrame}
use procframe.Ws.Client.Conn.{
  Channel, stopped, Conn, empty_channel, update, register, unregister, new_session, remove_session,
  read_fails, write_fails, closed_with, tear_down, Step, opens, removes, reads, delivers, ends,
  fails_read, fails_write, ends_write, tears_down, receives,
}
use procframe.Ws.Client.Conn.Invariant.{place}

-- A channel that a frame is received from is not the empty one.
other_buffer :
    (heap : ℕ → Channel) (p q : ℕ) (frame : OutboundFrame) (rest : List OutboundFrame)
    → (heap q).buffer ≡ frame ∷ rest
    → heap p ≡ empty_channel
    → update heap q (record (heap q) { buffer = rest }) p ≡ empty_channel
other_buffer heap p q frame rest b empty = elim (Bool-cases (eqb p q)) [
  | inl same ↦
      let there : p ≡ q = ground arith in
      absurd (
        omega (
          arith,
          ap length b,
          ap (λ r. length (heap r).buffer) there,
          ap (λ c. length c.buffer) empty,
        ))
  | inr other ↦ rw other empty
]

module _ (id_text : ℕ → String) where
  -- Any number of steps.
  pub data Run : Conn → Conn → Type 0 where
    begun : {s : Conn} → Run s s
    goes : {s t u : Conn} → Run s t → Step id_text t u → Run s u

  -- The connection is torn down, and the channel of the session is open and empty.
  pub record IsOrphan (p : ℕ) (s : Conn) : Type 0 where
    pub gone : s.sessions ≡ none
    pub stays : s.reader ≡ stopped
    pub allocated : p < s.next
    pub empty : s.heap p ≡ empty_channel

  Step-IsOrphan : {s t : Conn} (p : ℕ) → Step id_text s t → IsOrphan p s → IsOrphan p t
  unfolding new_session remove_session read_fails write_fails tear_down closed_with register
      unregister
  Step-IsOrphan p (opens {s = s}) o = record {
    gone = ap (register _ s.next) o.gone;
    stays = o.stays;
    allocated = omega (arith, o.allocated);
    empty = ground (arith, o.allocated, o.empty);
  }
  Step-IsOrphan p (removes {s = s} id) o = record {
    gone = ap (unregister id) o.gone;
    stays = o.stays;
    allocated = o.allocated;
    empty = o.empty;
  }
  Step-IsOrphan p (reads frame r) o = absurd (omega (arith, ap place r, ap place o.stays))
  Step-IsOrphan p (delivers q frame r space) o =
      absurd (omega (arith, ap place r, ap place o.stays))
  Step-IsOrphan p ends o = record {
    gone = o.gone;
    stays = refl;
    allocated = o.allocated;
    empty = o.empty;
  }
  Step-IsOrphan p (fails_read e r) o = absurd (omega (arith, ap place r, ap place o.stays))
  Step-IsOrphan p (fails_write e w) o = record {
    gone = o.gone;
    stays = o.stays;
    allocated = o.allocated;
    empty = o.empty;
  }
  Step-IsOrphan p ends_write o = record {
    gone = o.gone;
    stays = o.stays;
    allocated = o.allocated;
    empty = o.empty;
  }
  Step-IsOrphan p (tears_down {s = s} r w) o =
      subst (λ m. IsOrphan p (closed_with s m)) (sym o.gone) o
  Step-IsOrphan p (receives {s = s} q frame rest b) o = record {
    gone = o.gone;
    stays = o.stays;
    allocated = o.allocated;
    empty = other_buffer s.heap p q frame rest b o.empty;
  }

  Run-IsOrphan : {s t : Conn} (p : ℕ) → Run s t → IsOrphan p s → IsOrphan p t
  Run-IsOrphan p begun o = o
  Run-IsOrphan p (goes run st) o = Step-IsOrphan p st (Run-IsOrphan p run o)

  -- Once a connection is torn down, a session that is opened on it waits for ever: in no run does a
  -- frame come to its channel, and in none is the channel closed.
  pub new_session-IsOrphan :
      (s : Conn) {t : Conn}
      → s.sessions ≡ none
      → s.reader ≡ stopped
      → Run (new_session id_text s) t
      → IsOrphan s.next t
  unfolding new_session register
  new_session-IsOrphan s gone r run = Run-IsOrphan s.next run (record {
    gone = ap (register _ s.next) gone;
    stays = r;
    allocated = omega arith;
    empty = ground arith;
  })
