-- ===== src/Ws/Server/Invariant.antt =====
-- What holds of a connection between any two steps.
use procframe.Prelude.{
  ℕ, ◌+◌, ◌-◌, ◌≤◌, ◌≡◌, refl, sym, ap, ◌∙◌, String, Bool, true, false, Option, none, some, List,
  [], ◌∷◌, ◌++◌, arith, ◌==◌, length, length-append, ltb, lookup, inl, inr, Bool-cases,
  if◌then◌else◌,
}
use mathlib.Core.Path.{subst}
use procframe.Prelude.Distinct.{Distinct, insert-new, Distinct-add}
use procframe.Ws.Frame.{
  InboundFrame, OutboundFrame, frame_open, frame_message, frame_close, frame_cancel,
}
use procframe.Ws.Server.{
  Server, HandlerEntry, SessionInfo, Goroutine, Reader, reading, stopped, opening, delivering,
  closing, Connection, write_frame, acquire, begin_open, start_fresh, start_session, find_receiver,
  begin_message, deliver, mark_closed, begin_close, finish_close, cancel_found, handle_cancel,
  dispatch, go_on_at, go_on, close_all_from, close_all_sessions, recv_ch_buf_size,
}
use procframe.Ws.Server.Steps.{start}

-- The session map, as the goroutines that have not left it account for it.
abbrev pub entry_of : Goroutine → Bool → List (String × ℕ) → List (String × ℕ)
entry_of g true rest = rest
entry_of g false rest = (g.id, g.session) ∷ rest

abbrev pub entries : List Goroutine → List (String × ℕ)
entries [] = []
entries (g ∷ gs) = entry_of g g.deleted (entries gs)

-- The slot that the reader holds inside `startSession`.
abbrev pub held : Reader → ℕ
held reading = 0
held stopped = 0
held (opening frame entry) = 1
held (delivering p payload) = 0
held (closing p) = 0

abbrev pub Opens : (ℕ → SessionInfo) → Type 0
Opens heap = (p : ℕ) → (heap p).closed ≡ false → (heap p).chan_closed ≡ false

abbrev pub IsOpen : (ℕ → SessionInfo) → Reader → Type 0
IsOpen heap stopped = Unit
IsOpen heap reading = Opens heap
IsOpen heap (opening frame entry) = Opens heap
IsOpen heap (closing q) = ((heap q).closed ≡ true) × Opens heap
IsOpen heap (delivering q payload) = ((heap q).closed ≡ false) × Opens heap

-- `counted`: a semaphore slot for each goroutine that has not released its own, and for the reader
-- inside `startSession`. `bounded`: no more than `maxInflight`. `table` and `distinct`: the session
-- map holds the sessions of the goroutines that have not deleted theirs, each id once. `open_channels`:
-- until the loop has ended, a channel is closed only behind its session's `closed` flag. `calm`: no
-- send on a closed channel has happened.
pub record IsValid (server : Server) (s : Connection) : Type 0 where
  pub counted : s.sem ≡ length s.goroutines + held s.reader
  pub bounded : s.sem ≤ server.max_inflight
  pub table : s.sessions ≡ entries s.goroutines
  pub distinct : Distinct s.sessions
  pub open_channels : IsOpen s.heap s.reader
  pub calm : s.panicked ≡ false

pub entries-append : (xs ys : List Goroutine) → entries (xs ++ ys) ≡ entries xs ++ entries ys
entries-append [] ys = refl
entries-append (g ∷ xs) ys = elim (Bool-cases g.deleted) [
  | inl gone ↦ rw (gone) (entries-append xs ys)
  | inr here ↦ rw (here) (ap (λ r. (g.id, g.session) ∷ r) (entries-append xs ys))
]

module _ (server : Server) where
  pub start-IsValid : IsValid server start
  start-IsValid = record {
    counted = refl;
    bounded = omega arith;
    table = refl;
    distinct = tt;
    open_channels = λ p h. refl;
    calm = refl;
  }

if-IsValid :
    {server : Server} {s t : Connection} (b : Bool)
    → IsValid server s
    → IsValid server t
    → IsValid server (if b then s else t)
if-IsValid true v w = v
if-IsValid false v w = w

module _ (server : Server) (s : Connection) (v : IsValid server s) where
  pub write-IsValid : (f : OutboundFrame) → IsValid server (write_frame f s)
  unfolding write_frame
  write-IsValid f = record {
    counted = v.counted;
    bounded = v.bounded;
    table = v.table;
    distinct = v.distinct;
    open_channels = v.open_channels;
    calm = v.calm;
  }

  -- Another heap, where the reader allows it.
  pub heap-IsValid :
      (heap : ℕ → SessionInfo) → IsOpen heap s.reader → IsValid server (record s { heap = heap })
  heap-IsValid heap o = record {
    counted = v.counted;
    bounded = v.bounded;
    table = v.table;
    distinct = v.distinct;
    open_channels = o;
    calm = v.calm;
  }

  -- Another heap and another place of the reader, with no slot before or behind.
  move-IsValid :
      (heap : ℕ → SessionInfo) (q : Reader)
      → held s.reader ≡ 0
      → held q ≡ 0
      → IsOpen heap q
      → IsValid server (record s { heap = heap; reader = q })
  move-IsValid heap q before behind o = record {
    counted = omega (arith, v.counted);
    bounded = v.bounded;
    table = v.table;
    distinct = v.distinct;
    open_channels = o;
    calm = v.calm;
  }

  pub close_all_sessions-IsValid : s.reader ≡ reading → IsValid server (close_all_sessions s)
  unfolding close_all_sessions
  close_all_sessions-IsValid r =
      move-IsValid (close_all_from s.sessions s.heap) stopped (ap held r) refl tt

-- The reader at its `Read`.
module _ (server : Server) (s : Connection) (r : s.reader ≡ reading) (v : IsValid server s) where
  opens : Opens s.heap
  opens = subst (IsOpen s.heap) r v.open_channels

  acquire-IsValid :
      (frame : InboundFrame) (found : Option HandlerEntry)
      → IsValid server (acquire server frame s found)
  unfolding acquire
  acquire-IsValid frame none = write-IsValid server s v _
  acquire-IsValid frame (some entry) = elim (Bool-cases (frame.shape == entry.shape)) [
    | inl same ↦ elim (Bool-cases (ltb s.sem server.max_inflight)) [
      | inl free ↦
          rw (same, free)
            (record {
              counted = omega (arith, ap held r, v.counted);
              bounded = ground arith;
              table = v.table;
              distinct = v.distinct;
              open_channels = opens;
              calm = v.calm;
            })
      | inr full ↦ rw (same, full) (write-IsValid server s v _)
    ]
    | inr other ↦ rw other (write-IsValid server s v _)
  ]

  find_receiver-IsValid :
      (frame : InboundFrame) (found : Option ℕ) → IsValid server (find_receiver frame s found)
  unfolding find_receiver
  find_receiver-IsValid frame none = write-IsValid server s v _
  find_receiver-IsValid frame (some p) = elim (Bool-cases (s.heap p).closed) [
    | inl late ↦ rw late v
    | inr live ↦
        rw live (
          move-IsValid server s v s.heap (delivering p frame.payload) (ap held r) refl
            (live, opens))
  ]

  mark_closed-IsValid : (found : Option ℕ) → IsValid server (mark_closed s found)
  unfolding mark_closed
  mark_closed-IsValid none = v
  mark_closed-IsValid (some p) =
      move-IsValid server s v _ (closing p) (ap held r) refl
        (ground arith, λ q h. ground (arith, opens q))

  cancel_found-IsValid : (found : Option ℕ) → IsValid server (cancel_found s found)
  unfolding cancel_found
  cancel_found-IsValid none = v
  cancel_found-IsValid (some p) =
      heap-IsValid server s v _ (rw r (λ q h. ground (arith, opens q, opens p)))

  pub dispatch-IsValid : (frame : InboundFrame) → IsValid server (dispatch server frame s)
  unfolding dispatch begin_open begin_message begin_close handle_cancel
  dispatch-IsValid frame = if-IsValid (frame.frame_type == frame_open) (acquire-IsValid frame _) (
      if-IsValid (frame.frame_type == frame_message) (find_receiver-IsValid frame _) (
        if-IsValid (frame.frame_type == frame_close) (mark_closed-IsValid _)
          (if-IsValid (frame.frame_type == frame_cancel) (cancel_found-IsValid _) v)))

-- The reader inside a handler.
module _ (server : Server) (s : Connection) (v : IsValid server s) where
  start_fresh-IsValid :
      (frame : InboundFrame) (entry : HandlerEntry) (found : Option ℕ)
      → s.reader ≡ opening frame entry
      → lookup frame.id s.sessions ≡ found
      → IsValid server (start_fresh server frame entry s found)
  unfolding start_fresh
  start_fresh-IsValid frame entry (some dup) r e =
      write-IsValid server (record s { sem = s.sem - 1; reader = reading })
        (record {
          counted = omega (arith, ap held r, v.counted);
          bounded = omega (arith, v.bounded);
          table = v.table;
          distinct = v.distinct;
          open_channels = subst (IsOpen s.heap) r v.open_channels;
          calm = v.calm;
        })
        _
  start_fresh-IsValid frame entry none r e = record {
    counted = omega (arith, ap held r, v.counted, length-append s.goroutines (_ ∷ []));
    bounded = v.bounded;
    table =
        insert-new frame.id s.next s.sessions e
        ∙ ap (λ m. m ++ (frame.id, s.next) ∷ []) v.table
        ∙ sym (entries-append s.goroutines _);
    distinct =
        rw (insert-new frame.id s.next s.sessions e)
          (Distinct-add frame.id s.next s.sessions v.distinct e);
    open_channels =
        let o : Opens s.heap = subst (IsOpen s.heap) r v.open_channels in
        λ q h. ground (arith, o q);
    calm = v.calm;
  }

  deliver-IsValid :
      (p : ℕ) (payload : String)
      → s.reader ≡ delivering p payload
      → IsValid server (deliver p payload s)
  unfolding deliver
  deliver-IsValid p payload r =
      let (live, o) = subst (IsOpen s.heap) r v.open_channels in
      rw (o p live) (elim (Bool-cases (ltb (length (s.heap p).buffer) recv_ch_buf_size)) [
        | inl room ↦
            rw room
              (move-IsValid server s v _ reading (ap held r) refl (λ q h. ground (arith, o q, o p)))
        | inr full ↦ rw full (move-IsValid server s v s.heap reading (ap held r) refl o)
      ])

  finish_close-IsValid : (p : ℕ) → s.reader ≡ closing p → IsValid server (finish_close p s)
  unfolding finish_close
  finish_close-IsValid p r =
      let (marked, o) = subst (IsOpen s.heap) r v.open_channels in
      move-IsValid server s v _ reading (ap held r) refl (λ q h. ground (arith, o q, marked))

  go_on_at-IsValid : (q : Reader) → s.reader ≡ q → IsValid server (go_on_at server s q)
  unfolding go_on_at start_session
  go_on_at-IsValid reading r = v
  go_on_at-IsValid stopped r = v
  go_on_at-IsValid (opening frame entry) r = start_fresh-IsValid frame entry _ r refl
  go_on_at-IsValid (delivering p payload) r = deliver-IsValid p payload r
  go_on_at-IsValid (closing p) r = finish_close-IsValid p r

  pub go_on-IsValid : IsValid server (go_on server s)
  unfolding go_on
  go_on-IsValid = go_on_at-IsValid s.reader refl
