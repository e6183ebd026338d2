-- ===== src/Ws/Client/Conn/Reachable.antt =====
-- The invariant of a client's connection holds in every interleaving.
use procframe.Prelude.{
  ℕ, ◌%◌, ◌^◌, ◌≤◌, ◌<◌, ◌≡◌, ◌≢◌, refl, sym, ap, ◌∙◌, String, true, false, Option, none, some,
  List, [], ◌∷◌, inl, inr, arith, eqb, length, length-append, lookup, All, All-append, Bool-cases,
  eq_iff,
}
use mathlib.Core.Path.{subst}
use procframe.Prelude.Distinct.{lookup-All}
use procframe.Ws.Frame.{OutboundFrame}
use procframe.Ws.Server.{recv_ch_buf_size}
use procframe.Ws.Client.Conn.{
  Channel, reading, stopped, delivering, Conn, update, find, close_each, routed, route, deliver,
  read_fails, write_fails, closed_with, tear_down, Step, opens, removes, reads, delivers, ends,
  fails_read, fails_write, ends_write, tears_down, receives, Reach, begins, next,
}
use procframe.Ws.Client.Conn.Invariant.{
  place, AllOpen, Phase, id_of, Keyed, KeyedTable, Belongs, Holds, IsSound, new_conn-IsSound,
  update-All, Phase-closed, heap-IsSound, new_session-IsSound, remove_session-IsSound,
  reader-IsSound, other-IsSound,
}

reading-not-stopped : reading ≢ stopped
reading-not-stopped h = omega (arith, ap place h)

delivering-not-stopped : {p : ℕ} {frame : OutboundFrame} → delivering p frame ≢ stopped
delivering-not-stopped h = omega (arith, ap place h)

-- What `tear_down` keeps while it closes the channels.
record IsTidy (id_text : ℕ → String) (s : Conn) : Type 0 where
  calm : s.panicked ≡ false
  counted : s.next_id ≡ s.next % 2 ^ 64
  stays : s.reader ≡ stopped
  bounded : (p : ℕ) → length (s.heap p).buffer ≤ recv_ch_buf_size
  own : (p : ℕ) → All (Belongs id_text p) (s.heap p).buffer

module _ (id_text : ℕ → String) where
  close-IsTidy :
      (s : Conn) (p : ℕ)
      → IsTidy id_text s
      → IsTidy id_text (record s { heap = update s.heap p (record (s.heap p) { closed = true }) })
  close-IsTidy s p v = record {
    calm = v.calm;
    counted = v.counted;
    stays = v.stays;
    bounded =
        update-All (λ q d. length d.buffer ≤ recv_ch_buf_size) s.heap p _ v.bounded (v.bounded p);
    own = update-All (λ q d. All (Belongs id_text q) d.buffer) s.heap p _ v.own (v.own p);
  }

  -- Closing the channel of an entry whose key stands nowhere else leaves the other entries' open.
  others_open :
      (heap : ℕ → Channel) (id : String) (p : ℕ) (m : List (String × ℕ))
      → id ≡ id_of id_text p
      → lookup id m ≡ none
      → All (λ e. e.0 ≡ id_of id_text e.1) m
      → All (λ e. (heap e.1).closed ≡ false) m
      → All (λ e. (update heap p (record (heap p) { closed = true }) e.1).closed ≡ false) m
  unfolding lookup
  others_open heap id p [] at absent keys o = tt
  others_open heap id p ((j, q) ∷ m) at absent keys o = elim (Bool-cases (eqb q p)) [
    | inl same ↦
        let there : q ≡ p = ground arith in
        let key : j ≡ id = keys.0 ∙ ap (id_of id_text) there ∙ sym at in ground (arith, eq_iff j id)
    | inr other ↦ rw other (o.0, others_open heap id p m at (ground arith) keys.1 o.1)
  ]

  -- Entries whose channels are open and whose keys differ are closed without a panic.
  close_each-IsTidy :
      (m : List (String × ℕ)) (s : Conn)
      → Keyed id_text m
      → All (λ e. (s.heap e.1).closed ≡ false) m
      → IsTidy id_text s
      → IsTidy id_text (close_each m s)
  unfolding close_each
  close_each-IsTidy [] s k o v = v
  close_each-IsTidy ((id, p) ∷ m) s k o v = rw (o.0) (
      close_each-IsTidy m _ (k.0.1, k.1.1) (others_open s.heap id p m k.1.0 k.0.0 k.1.1 o.1)
        (close-IsTidy s p v))

All-every : {A : Type 0} {P : A → Type 0} (m : List A) → ((a : A) → P a) → All P m
All-every [] every = tt
All-every (a ∷ m) every = (every a, All-every m every)

module _ (id_text : ℕ → String) (s : Conn) (v : IsSound id_text s) where
  closed_with-IsSound :
      (sessions : Option (List (String × ℕ)))
      → s.reader ≡ stopped
      → KeyedTable id_text sessions
      → Phase sessions s.reader s.heap
      → IsSound id_text (closed_with s sessions)
  unfolding closed_with
  closed_with-IsSound none at k ph = v
  closed_with-IsSound (some m) at k (inl gone) = ground arith
  closed_with-IsSound (some m) at k (inr live) =
      let tidy = close_each-IsTidy id_text m s k (All-every m (λ e. live e.1)) (record {
        calm = v.calm;
        counted = v.counted;
        stays = at;
        bounded = v.bounded;
        own = v.own;
      }) in
      record {
        calm = tidy.calm;
        counted = tidy.counted;
        keyed = tt;
        phase = inl (refl, tidy.stays);
        bounded = tidy.bounded;
        own = tidy.own;
        holds = subst (Holds id_text) (sym tidy.stays) tt;
      }

  routed-IsSound :
      (frame : OutboundFrame) (found : Option ℕ)
      → s.reader ≡ reading
      → find frame.id s.sessions ≡ found
      → IsSound id_text (routed frame s found)
  unfolding routed find
  routed-IsSound frame none r h = v
  routed-IsSound frame (some p) r h =
      reader-IsSound id_text s v (delivering p frame)
        (λ at. elim (reading-not-stopped (sym r ∙ at)) [ ]) (found_key s.sessions v.keyed h)
    where
      found_key :
          (sessions : Option (List (String × ℕ)))
          → KeyedTable id_text sessions
          → find frame.id sessions ≡ some p
          → frame.id ≡ id_of id_text p
      found_key none k h = ground arith
      found_key (some m) k h = lookup-All (λ e. e.0 ≡ id_of id_text e.1) frame.id p m h k.1

  deliver-IsSound :
      (p : ℕ) (frame : OutboundFrame)
      → s.reader ≡ delivering p frame
      → length (s.heap p).buffer < recv_ch_buf_size
      → IsSound id_text (deliver p frame s)
  unfolding deliver
  deliver-IsSound p frame r space =
      let live : AllOpen s.heap =
        Phase-closed s.sessions s.reader s.heap v.phase
          (λ at. delivering-not-stopped (sym r ∙ at)) in
      rw (live p) (
        reader-IsSound id_text _
          (heap-IsSound id_text s v p _ (sym (live p))
            (omega (arith, space, length-append (s.heap p).buffer (frame ∷ [])))
            (All-append (Belongs id_text p) (s.heap p).buffer (frame ∷ []) (v.own p)
              (subst (Holds id_text) r v.holds, tt)))
          reading (λ at. elim (delivering-not-stopped (sym r ∙ at)) [ ]) tt)

Step-IsSound :
    (id_text : ℕ → String) {s t : Conn} → Step id_text s t → IsSound id_text s → IsSound id_text t
unfolding route read_fails write_fails tear_down
Step-IsSound id_text (opens {s = s}) v = new_session-IsSound id_text s v
Step-IsSound id_text (removes {s = s} id) v = remove_session-IsSound id_text s v id
Step-IsSound id_text (reads {s = s} frame r) v = routed-IsSound id_text s v frame _ r refl
Step-IsSound id_text (delivers {s = s} p frame r space) v =
    deliver-IsSound id_text s v p frame r space
Step-IsSound id_text (ends {s = s}) v = reader-IsSound id_text s v stopped (λ at. refl) tt
Step-IsSound id_text (fails_read {s = s} e r) v =
    reader-IsSound id_text _ (other-IsSound id_text s v _ s.writing) stopped (λ at. refl) tt
Step-IsSound id_text (fails_write {s = s} e w) v = other-IsSound id_text s v _ false
Step-IsSound id_text (ends_write {s = s}) v = other-IsSound id_text s v s.fatal false
Step-IsSound id_text (tears_down {s = s} r w) v =
    closed_with-IsSound id_text s v s.sessions r v.keyed v.phase
Step-IsSound id_text (receives {s = s} p frame rest b) v =
    heap-IsSound id_text s v p _ refl (omega (arith, v.bounded p, ap length b))
      ((subst (All (Belongs id_text p)) b (v.own p)).1)

-- In every interleaving of the callers with the read loop, the write loop and the teardown, for any
-- frames that the server sends: no frame is sent on a closed channel and no channel is closed twice;
-- the id counter is the number of sessions opened modulo 2^64; the session map has each id once;
-- a channel holds at most 64 frames; and each frame in a session's channel carries the id that this
-- session was given.
pub Reach-IsSound : (id_text : ℕ → String) {s : Conn} → Reach id_text s → IsSound id_text s
Reach-IsSound id_text begins = new_conn-IsSound id_text
Reach-IsSound id_text (next r st) = Step-IsSound id_text st (Reach-IsSound id_text r)
