-- ===== src/Ws/Server/Closed.antt =====
-- The end of a connection: every session that is still there is cancelled, and its channel closed.
use mathlib.Core.Path.{subst}
use procframe.Prelude.{ℕ, ◌≡◌, String, true, false, List, [], ◌∷◌, arith, All, Bool-cases, inl, inr}
use procframe.Ws.Server.{
  Server, SessionInfo, Goroutine, Connection, close_channel, cancel_session, close_all_from,
  close_all_sessions,
}
use procframe.Ws.Server.Invariant.{entries, IsValid}

abbrev pub IsReleased : SessionInfo → Type 0
IsReleased info = (info.cancelled ≡ true) × (info.chan_closed ≡ true)

-- One round of the loop.
abbrev close_one : ℕ → (ℕ → SessionInfo) → ℕ → SessionInfo
close_one q heap = close_channel q (cancel_session q heap)

close_one-IsReleased : (q : ℕ) (heap : ℕ → SessionInfo) → IsReleased (close_one q heap q)
close_one-IsReleased q heap = (ground arith, ground arith)

close_one-keeps :
    (q : ℕ) (heap : ℕ → SessionInfo) (p : ℕ) → IsReleased (heap p) → IsReleased (close_one q heap p)
close_one-keeps q heap p h = (ground arith, ground arith)

close_all_from-keeps :
    (m : List (String × ℕ)) (heap : ℕ → SessionInfo) (p : ℕ)
    → IsReleased (heap p)
    → IsReleased (close_all_from m heap p)
unfolding close_all_from
close_all_from-keeps [] heap p h = h
close_all_from-keeps ((id, q) ∷ m) heap p h =
    close_all_from-keeps m (close_one q heap) p (close_one-keeps q heap p h)

close_all_from-IsReleased :
    (m : List (String × ℕ)) (heap : ℕ → SessionInfo)
    → All (λ e. IsReleased (close_all_from m heap e.1)) m
unfolding close_all_from
close_all_from-IsReleased [] heap = tt
close_all_from-IsReleased ((id, q) ∷ m) heap = (
  close_all_from-keeps m (close_one q heap) q (close_one-IsReleased q heap),
  close_all_from-IsReleased m (close_one q heap),
)

entries-All :
    (P : ℕ → Type 0) (gs : List Goroutine)
    → All (λ e. P e.1) (entries gs)
    → All (λ g. g.deleted ≡ false → P g.session) gs
entries-All P [] all = tt
entries-All P (g ∷ gs) all = elim (Bool-cases g.deleted) [
  | inl gone ↦ (λ here. cc, entries-All P gs (rw gone at all))
  | inr here ↦ let (one, others) = (rw here at all) in (λ e. one, entries-All P gs others)
]

-- When the read loop of a connection in a valid state has ended, the session of every goroutine that
-- has not left the session map is cancelled and its channel is closed, so that no handler waits for
-- a message that cannot come.
pub close_all_sessions-IsReleased :
    (server : Server) (s : Connection)
    → IsValid server s
    → All
        (λ g. g.deleted ≡ false → IsReleased ((close_all_sessions s).heap g.session))
        (close_all_sessions s).goroutines
unfolding close_all_sessions
close_all_sessions-IsReleased server s v =
    entries-All (λ p. IsReleased (close_all_from s.sessions s.heap p)) s.goroutines
      (subst (All (λ e. IsReleased (close_all_from s.sessions s.heap e.1))) v.table
        (close_all_from-IsReleased s.sessions s.heap))
