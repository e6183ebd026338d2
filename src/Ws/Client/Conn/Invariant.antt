-- ===== src/Ws/Client/Conn/Invariant.antt =====
-- What holds of a client's connection between any two steps.
use procframe.Prelude.{
  ℕ, ◌+◌, ◌%◌, ◌^◌, ◌≤◌, ◌≡◌, refl, ap, ◌∙◌, String, Bool, false, Option, none, some, List, ◌⊎◌,
  ◌≢◌, inl, inr, arith, eqb, length, All, Bool-cases,
}
use mathlib.Core.Path.{subst}
use procframe.Prelude.Distinct.{Distinct, Distinct-insert, Distinct-delete, insert-All, delete-All}
use procframe.Errors.{Error}
use procframe.Ws.Frame.{OutboundFrame}
use procframe.Ws.Server.{recv_ch_buf_size}
use procframe.Ws.Client.Conn.{
  Channel, Reader, reading, stopped, delivering, Conn, empty_channel, update, new_conn, register,
  unregister, increment, new_session, remove_session,
}

-- A number for each place of the read loop, which tells them apart.
abbrev pub place : Reader → ℕ
place reading = 0
place stopped = 1
place (delivering p frame) = p + 2

abbrev pub AllOpen : (ℕ → Channel) → Type 0
AllOpen heap = (p : ℕ) → (heap p).closed ≡ false

-- Torn down, with the read loop behind; or no channel is closed.
abbrev pub Phase : Option (List (String × ℕ)) → Reader → (ℕ → Channel) → Type 0
Phase sessions reader heap = ((sessions ≡ none) × (reader ≡ stopped)) ⊎ AllOpen heap

module _ (id_text : ℕ → String) where
  -- The id that the session of the channel was given.
  abbrev pub id_of : ℕ → String
  id_of p = id_text ((p + 1) % 2 ^ 64)

  abbrev pub Keyed : List (String × ℕ) → Type 0
  Keyed m = Distinct m × All (λ e. e.0 ≡ id_of e.1) m

  abbrev pub KeyedTable : Option (List (String × ℕ)) → Type 0
  KeyedTable none = Unit
  KeyedTable (some m) = Keyed m

  abbrev pub Belongs : ℕ → OutboundFrame → Type 0
  Belongs p frame = frame.id ≡ id_of p

  -- The frame that the read loop holds.
  abbrev pub Holds : Reader → Type 0
  Holds reading = Unit
  Holds stopped = Unit
  Holds (delivering p frame) = Belongs p frame

  -- `calm`: no send on a closed channel and no second close of a channel has happened. `counted`:
  -- the id counter, which wraps around. `bounded`: no more in a channel than it can hold. `own`: the
  -- frames in a channel carry the id of its session.
  pub record IsSound (s : Conn) : Type 0 where
    pub calm : s.panicked ≡ false
    pub counted : s.next_id ≡ s.next % 2 ^ 64
    pub keyed : KeyedTable s.sessions
    pub phase : Phase s.sessions s.reader s.heap
    pub bounded : (p : ℕ) → length (s.heap p).buffer ≤ recv_ch_buf_size
    pub own : (p : ℕ) → All (Belongs p) (s.heap p).buffer
    pub holds : Holds s.reader

  pub new_conn-IsSound : IsSound new_conn
  new_conn-IsSound = record {
    calm = refl;
    counted = refl;
    keyed = (tt, tt);
    phase = inr (λ p. refl);
    bounded = λ p. omega arith;
    own = λ p. tt;
    holds = tt;
  }

  increment-counted : (n : ℕ) → increment id_text (n % 2 ^ 64) ≡ (n + 1) % 2 ^ 64
  increment-counted n = omega arith

  register-KeyedTable :
      (id : String) (p : ℕ) (sessions : Option (List (String × ℕ)))
      → id ≡ id_of p
      → KeyedTable sessions
      → KeyedTable (register id p sessions)
  unfolding register
  register-KeyedTable id p none e k = tt
  register-KeyedTable id p (some m) e k =
      (Distinct-insert id p m k.0, insert-All (λ e. e.0 ≡ id_of e.1) id p m e k.1)

  unregister-KeyedTable :
      (id : String) (sessions : Option (List (String × ℕ)))
      → KeyedTable sessions
      → KeyedTable (unregister id sessions)
  unfolding unregister
  unregister-KeyedTable id none k = tt
  unregister-KeyedTable id (some m) k =
      (Distinct-delete id m k.0, delete-All (λ e. e.0 ≡ id_of e.1) id m k.1)

-- A property of every channel, where one is replaced.
pub update-All :
    (Q : ℕ → Channel → Type 0) (heap : ℕ → Channel) (p : ℕ) (c : Channel)
    → ((q : ℕ) → Q q (heap q))
    → Q p c
    → (q : ℕ) → Q q (update heap p c q)
update-All Q heap p c every here q = elim (Bool-cases (eqb q p)) [
  | inl same ↦ let at : p ≡ q = ground arith in rw same (subst (λ r. Q r c) at here)
  | inr other ↦ rw other (every q)
]

update-AllOpen :
    (heap : ℕ → Channel) (p : ℕ) (c : Channel)
    → AllOpen heap
    → c.closed ≡ false
    → AllOpen (update heap p c)
update-AllOpen heap p c o h = update-All (λ q d. d.closed ≡ false) heap p c o h

pub Phase-closed :
    (sessions : Option (List (String × ℕ))) (reader : Reader) (heap : ℕ → Channel)
    → Phase sessions reader heap
    → reader ≢ stopped
    → AllOpen heap
Phase-closed sessions reader heap (inl (gone, at)) r = elim (r at) [ ]
Phase-closed sessions reader heap (inr o) r = o

module _ (id_text : ℕ → String) (s : Conn) (v : IsSound id_text s) where
  -- Another heap, where each channel keeps within its bounds.
  pub heap-IsSound :
      (p : ℕ) (c : Channel)
      → c.closed ≡ (s.heap p).closed
      → length c.buffer ≤ recv_ch_buf_size
      → All (Belongs id_text p) c.buffer
      → IsSound id_text (record s { heap = update s.heap p c })
  heap-IsSound p c same b o = record {
    calm = v.calm;
    counted = v.counted;
    keyed = v.keyed;
    phase = elim v.phase [
      | inl gone ↦ inl gone
      | inr live ↦ inr (update-AllOpen s.heap p c live (same ∙ live p))
    ];
    bounded = update-All (λ q d. length d.buffer ≤ recv_ch_buf_size) s.heap p c v.bounded b;
    own = update-All (λ q d. All (Belongs id_text q) d.buffer) s.heap p c v.own o;
    holds = v.holds;
  }

  pub new_session-IsSound : IsSound id_text (new_session id_text s)
  unfolding new_session
  new_session-IsSound =
      let id : increment id_text s.next_id ≡ (s.next + 1) % 2 ^ 64 =
        ap (increment id_text) v.counted ∙ increment-counted id_text s.next in
      record {
        calm = v.calm;
        counted = id;
        keyed = register-KeyedTable id_text _ s.next s.sessions (ap id_text id) v.keyed;
        phase = elim v.phase [
          | inl gone ↦ inl (ap (register _ s.next) gone.0, gone.1)
          | inr live ↦ inr (update-AllOpen s.heap s.next empty_channel live refl)
        ];
        bounded =
            update-All (λ q d. length d.buffer ≤ recv_ch_buf_size) s.heap s.next empty_channel
              v.bounded (omega arith);
        own = update-All (λ q d. All (Belongs id_text q) d.buffer) s.heap s.next _ v.own tt;
        holds = v.holds;
      }

  pub remove_session-IsSound : (id : String) → IsSound id_text (remove_session id s)
  unfolding remove_session
  remove_session-IsSound id = record {
    calm = v.calm;
    counted = v.counted;
    keyed = unregister-KeyedTable id_text id s.sessions v.keyed;
    phase = elim v.phase [
      | inl gone ↦ inl (ap (unregister id) gone.0, gone.1)
      | inr live ↦ inr live
    ];
    bounded = v.bounded;
    own = v.own;
    holds = v.holds;
  }

  -- The read loop goes elsewhere.
  pub reader-IsSound :
      (reader : Reader)
      → (s.reader ≡ stopped → reader ≡ stopped)
      → Holds id_text reader
      → IsSound id_text (record s { reader = reader })
  reader-IsSound reader stays h = record {
    calm = v.calm;
    counted = v.counted;
    keyed = v.keyed;
    phase = elim v.phase [ inl gone ↦ inl (gone.0, stays gone.1) | inr live ↦ inr live ];
    bounded = v.bounded;
    own = v.own;
    holds = h;
  }

  -- What the write loop and the first error are does not matter.
  pub other-IsSound :
      (fatal : Option Error) (writing : Bool)
      → IsSound id_text (record s { fatal = fatal; writing = writing })
  other-IsSound fatal writing = record {
    calm = v.calm;
    counted = v.counted;
    keyed = v.keyed;
    phase = v.phase;
    bounded = v.bounded;
    own = v.own;
    holds = v.holds;
  }
