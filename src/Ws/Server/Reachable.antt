-- ===== src/Ws/Server/Reachable.antt =====
-- The invariant holds in every interleaving.
use procframe.Prelude.{
  ℕ, ◌+◌, ◌-◌, ◌≡◌, sym, ap, ◌∙◌, String, true, false, List, [], ◌∷◌, ◌++◌, arith, length,
  length-append, delete,
}
use mathlib.Core.Path.{subst}
use procframe.Prelude.Distinct.{Distinct, delete-middle, Distinct-drop}
use procframe.Ws.Session.{SessionCode}
use procframe.Ws.Server.{
  Server, SessionInfo, Goroutine, Reader, reading, stopped, opening, delivering, closing,
  Connection, update, write_frame,
}
use procframe.Ws.Server.Steps.{
  resume, with_goroutine, Work, receives, sees_end, drains, writes, drops, exits, releases, Step,
  reads, goes_on, disconnects, works, Reach, begins, next,
}
use procframe.Ws.Server.Invariant.{
  entry_of, entries, IsOpen, IsValid, entries-append, start-IsValid, write-IsValid, heap-IsValid,
  dispatch-IsValid, go_on-IsValid, close_all_sessions-IsValid,
}

-- A change of one buffer leaves the flags as they are.
IsOpen-buffer :
    (heap : ℕ → SessionInfo) (p : ℕ) (buffer : List String) (r : Reader)
    → IsOpen heap r
    → IsOpen (update heap p (record (heap p) { buffer = buffer })) r
IsOpen-buffer heap p buffer stopped o = tt
IsOpen-buffer heap p buffer reading o = λ q h. ground (arith, o q, o p)
IsOpen-buffer heap p buffer (opening frame entry) o = λ q h. ground (arith, o q, o p)
IsOpen-buffer heap p buffer (closing c) o =
    (ground (arith, o.0), λ q h. ground (arith, o.1 q, o.1 p))
IsOpen-buffer heap p buffer (delivering c payload) o =
    (ground (arith, o.0), λ q h. ground (arith, o.1 q, o.1 p))

-- The entries around one goroutine.
entries_around :
    (before behind now : List Goroutine)
    → entries (before ++ (now ++ behind)) ≡ entries before ++ (entries now ++ entries behind)
entries_around before behind now =
    entries-append before (now ++ behind)
    ∙ ap (λ r. entries before ++ r) (entries-append now behind)

length_around :
    (before behind now : List Goroutine)
    → length (before ++ (now ++ behind)) ≡ length before + (length now + length behind)
length_around before behind now =
    omega (arith, length-append before (now ++ behind), length-append now behind)

module _ (server : Server) (g : Goroutine) (before behind : List Goroutine) where
  -- A goroutine goes on with other code.
  resume-IsValid :
      (s : Connection) (code : SessionCode (Unit {0}))
      → s.goroutines ≡ before ++ (g ∷ behind)
      → IsValid server s
      → IsValid server (with_goroutine s before (resume g code ∷ []) behind)
  resume-IsValid s code at v = record {
    counted = omega (
      arith,
      v.counted,
      ap length at,
      length_around before behind (g ∷ []),
      length_around before behind (resume g code ∷ []),
    );
    bounded = v.bounded;
    table =
        v.table
        ∙ ap entries at
        ∙ entries_around before behind (g ∷ [])
        ∙ sym (entries_around before behind (resume g code ∷ []));
    distinct = v.distinct;
    open_channels = v.open_channels;
    calm = v.calm;
  }

  entries_live :
      g.deleted ≡ false
      → entries (before ++ (g ∷ behind)) ≡ entries before ++ ((g.id, g.session) ∷ entries behind)
  entries_live live =
      entries-append before (g ∷ behind)
      ∙ ap (λ d. entries before ++ entry_of g d (entries behind)) live

  exits-IsValid :
      (s : Connection)
      → s.goroutines ≡ before ++ (g ∷ behind)
      → g.deleted ≡ false
      → IsValid server s
      → IsValid server (
          with_goroutine
            (record s { sessions = delete g.id s.sessions })
            before
            (record g { deleted = true } ∷ [])
            behind)
  exits-IsValid s at live v =
      let table : s.sessions ≡ entries before ++ ((g.id, g.session) ∷ entries behind) =
        v.table ∙ ap entries at ∙ entries_live live in
      let apart = subst Distinct table v.distinct in
      let left : delete g.id s.sessions ≡ entries before ++ entries behind =
        ap (delete g.id) table
        ∙ delete-middle g.id g.session (entries before) (entries behind) apart in
      record {
        counted = omega (
          arith,
          v.counted,
          ap length at,
          length_around before behind (g ∷ []),
          length_around before behind (record g { deleted = true } ∷ []),
        );
        bounded = v.bounded;
        table = left ∙ sym (entries_around before behind (record g { deleted = true } ∷ []));
        distinct = rw left (Distinct-drop g.id g.session (entries before) (entries behind) apart);
        open_channels = v.open_channels;
        calm = v.calm;
      }

  releases-IsValid :
      (s : Connection)
      → s.goroutines ≡ before ++ (g ∷ behind)
      → g.deleted ≡ true
      → IsValid server s
      → IsValid server (with_goroutine (record s { sem = s.sem - 1 }) before [] behind)
  releases-IsValid s at gone v = record {
    counted = omega (
      arith,
      v.counted,
      ap length at,
      length_around before behind (g ∷ []),
      length_around before behind [],
    );
    bounded = omega (arith, v.bounded);
    table =
        v.table
        ∙ ap entries at
        ∙ entries-append before (g ∷ behind)
        ∙ ap (λ d. entries before ++ entry_of g d (entries behind)) gone
        ∙ sym (entries_around before behind []);
    distinct = v.distinct;
    open_channels = v.open_channels;
    calm = v.calm;
  }

  Work-IsValid :
      {s t : Connection} {now : List Goroutine}
      → s.goroutines ≡ before ++ (g ∷ behind)
      → IsValid server s
      → Work s g t now
      → IsValid server (with_goroutine t before now behind)
  Work-IsValid at v (receives {s = s} k m rest c b) =
      resume-IsValid _ _ at
        (heap-IsValid server s v _ (IsOpen-buffer s.heap g.session rest s.reader v.open_channels))
  Work-IsValid at v (sees_end k c b e) = resume-IsValid _ _ at v
  Work-IsValid at v (drains {s = s} k c e) =
      resume-IsValid _ _ at
        (heap-IsValid server s v _ (IsOpen-buffer s.heap g.session [] s.reader v.open_channels))
  Work-IsValid at v (writes {s = s} f k c) =
      resume-IsValid (write_frame f s) _ (unfold write_frame in at) (write-IsValid server s v f)
  Work-IsValid at v (drops f k c st) = resume-IsValid _ _ at v
  Work-IsValid at v (exits c live) = exits-IsValid _ at live v
  Work-IsValid at v (releases gone) = releases-IsValid _ at gone v

Step-IsValid :
    (server : Server) {s t : Connection} → Step server s t → IsValid server s → IsValid server t
Step-IsValid server (reads {s = s} frame r) v = dispatch-IsValid server s r v frame
Step-IsValid server (goes_on {s = s}) v = go_on-IsValid server s v
Step-IsValid server (disconnects {s = s} r) v = close_all_sessions-IsValid server s v r
Step-IsValid server (works {g = g} before behind now at w) v =
    Work-IsValid server g before behind at v w

-- In every interleaving of the reader and of the sessions' goroutines, for any frames that the
-- client sends and any handlers: the slots taken are those of the goroutines and of a session being
-- started, and never more than `maxInflight`; the session map holds the sessions of the goroutines
-- that have not left it, each id once; and no message is sent on a closed channel.
pub Reach-IsValid : (server : Server) {s : Connection} → Reach server s → IsValid server s
Reach-IsValid server begins = start-IsValid server
Reach-IsValid server (next r st) = Step-IsValid server st (Reach-IsValid server r)
