-- ===== src/Network/Timers.antt =====
-- What waits for its time in 게임서버/네트워크/CWanServerRoom2.cpp: the rooms of RoomUpdatePQueue and the
-- sessions of DisconnectUpdatePQueue.
-- A priority queue is the list of its entries, the least time first; entries of the same time stand in
-- the order in which they came, which the library leaves open. `clock` is what each round of a
-- loop reads of the time.
use game_server_client.Base.{
  ℕ, zero, suc, ◌+◌, ◌-◌, ◌*◌, ◌/◌, ◌%◌, ◌≤◌, ◌≡◌, refl, List, [], ◌∷◌, Bool, true, false, Option,
  if◌then◌else◌, leb, ltb, arith, Bool-cases, inl, inr,
}
use game_server_client.Network.Sessions.{Server, at, send_posted}

-- Job_PqTimer and Job_DisconnectedSessionPQueue: a time, and a room or a session.
pub record Timed : Type 0 where
  pub execute_time : ℕ
  pub key : ℕ

unfoldable pub push : Timed → List Timed → List Timed
push job [] = job ∷ []
push job (top ∷ rest) =
    let further = top ∷ push job rest in
    if ltb job.execute_time top.execute_time then job ∷ top ∷ rest else further

-- FlushRoom: the rooms for which ROOM_UPDATE is posted, and the queue after.
unfoldable pub flush_room : (clock : ℕ → ℕ) → (round : ℕ) → List Timed → List ℕ × List Timed
flush_room clock round [] = ([], [])
flush_room clock round (top ∷ rest) =
    let more = flush_room clock (suc round) rest in
    if leb (clock round) top.execute_time then ([], top ∷ rest) else (top.key ∷ more.0, more.1)

-- ROOM_UPDATE of PqcsProc: the time that is pushed for the next update of a room, whose update began
-- and ended at these times; FrameTime is in milliseconds, and `frequency` ticks make a second; the ticks of a frame fit its int.
unfoldable pub next_update : (frame_time frequency begin_time end_time : ℕ) → ℕ
next_update frame_time frequency begin_time end_time =
    let frame = frame_time * frequency / 1000 in
    let spent = end_time - begin_time in
    if leb spent frame then begin_time + (frame - spent) + frame else 0

-- SEND_POST_DISCONNECT of PqcsProc, at the time `now`.
unfoldable pub send_posted_disconnect :
    Server
    → List Timed
    → (i now : ℕ) → (pending : Bool) → Server × Option (List (List ℕ)) × List Timed
send_posted_disconnect st queue i now pending =
    let (st', out) = send_posted st i pending in
    (
      st',
      out,
      push
          (record {
            execute_time = now + (at st i).send_disconnect_time * 1000 % 4294967296;
            key = (at st i).session_id;
          })
          queue,
    )

-- What the reference to the top of DisconnectUpdatePQueue names after a pop: the next entry, which has
-- moved to the front, or the popped one in its old place when it was the last.
unfoldable pub front_after_pop : Timed → List Timed → Timed
front_after_pop top [] = top
front_after_pop top (next ∷ rest) = next

-- The first rounds of FlushDisconnectSession: the sessions that it disconnects, and the queue after.
unfoldable pub flush_disconnect :
    (clock : ℕ → ℕ) → (round rounds : ℕ) → List Timed → List ℕ × List Timed
flush_disconnect clock round zero queue = ([], queue)
flush_disconnect clock round (suc rounds) [] = ([], [])
flush_disconnect clock round (suc rounds) (top ∷ rest) =
    let due = flush_disconnect clock (suc round) rounds rest in
    let early = flush_disconnect clock (suc round) rounds (top ∷ rest) in
    if leb top.execute_time (clock round)
    then ((front_after_pop top rest).key ∷ due.0, due.1)
    else (top.key ∷ early.0, early.1)

-- Least times first.
abbrev pub AreSorted : List Timed → Type 0
AreSorted [] = Unit {0}
AreSorted (a ∷ []) = Unit {0}
AreSorted (a ∷ b ∷ rest) = (a.execute_time ≤ b.execute_time) × AreSorted (b ∷ rest)

-- The entries whose time is past, and those whose time is not.
unfoldable pub past : (now : ℕ) → List Timed → List ℕ
past now [] = []
past now (job ∷ jobs) =
    let rest = past now jobs in if ltb job.execute_time now then job.key ∷ rest else rest

unfoldable pub ahead : (now : ℕ) → List Timed → List Timed
ahead now [] = []
ahead now (job ∷ jobs) =
    let rest = ahead now jobs in if ltb job.execute_time now then rest else job ∷ rest

none_past :
    (now : ℕ) (top : Timed) (rest : List Timed)
    → AreSorted (top ∷ rest)
    → now ≤ top.execute_time
    → (past now (top ∷ rest) ≡ []) × (ahead now (top ∷ rest) ≡ top ∷ rest)
unfolding past ahead
none_past now top [] s h = (ground arith, ground arith)
none_past now top (next ∷ rest) s h =
    let (p, a) = none_past now next rest s.1 (omega arith) in (ground (arith, p), ground (arith, a))

tail_sorted : (top : Timed) (rest : List Timed) → AreSorted (top ∷ rest) → AreSorted rest
tail_sorted top [] s = tt
tail_sorted top (next ∷ rest) s = s.1

flush_late :
    (now round : ℕ) (top : Timed) (rest : List Timed)
    → AreSorted (top ∷ rest)
    → leb now top.execute_time ≡ true
    → flush_room (λ i. now) round (top ∷ rest) ≡ (past now (top ∷ rest), ahead now (top ∷ rest))
unfolding flush_room
flush_late now round top rest s late =
    let (p, a) = none_past now top rest s (ground arith) in ground (arith, p, a, late)

flush_due :
    (now round : ℕ) (top : Timed) (rest : List Timed)
    → leb now top.execute_time ≡ false
    → flush_room (λ i. now) (suc round) rest ≡ (past now rest, ahead now rest)
    → flush_room (λ i. now) round (top ∷ rest) ≡ (past now (top ∷ rest), ahead now (top ∷ rest))
unfolding flush_room past ahead
flush_due now round top rest due ih = ground (arith, ih)

-- FlushRoom on a queue in order, while the time stands still, posts an update for exactly the rooms
-- whose time is past, in the order of their times, and leaves exactly the others.
pub flush_room_lem :
    (now round : ℕ) (queue : List Timed)
    → AreSorted queue
    → flush_room (λ i. now) round queue ≡ (past now queue, ahead now queue)
unfolding flush_room past ahead
flush_room_lem now round [] s = refl
flush_room_lem now round (top ∷ rest) s = elim (Bool-cases (leb now top.execute_time)) [
  | inl late ↦ flush_late now round top rest s late
  | inr due ↦
      flush_due now round top rest due
        (flush_room_lem now (suc round) rest (tail_sorted top rest s))
]

-- The least of two times stands before a queue that it does not exceed.
abbrev AreAfter : ℕ → List Timed → Type 0
AreAfter t [] = Unit {0}
AreAfter t (a ∷ rest) = t ≤ a.execute_time

sorted_cons :
    (top : Timed) (rest : List Timed)
    → AreAfter top.execute_time rest
    → AreSorted rest
    → AreSorted (top ∷ rest)
sorted_cons top [] h s = tt
sorted_cons top (next ∷ rest) h s = (h, s)

sorted_head :
    (top : Timed) (rest : List Timed) → AreSorted (top ∷ rest) → AreAfter top.execute_time rest
sorted_head top [] s = tt
sorted_head top (next ∷ rest) s = s.0

push_first :
    (job top : Timed) (rest : List Timed)
    → ltb job.execute_time top.execute_time ≡ true
    → push job (top ∷ rest) ≡ job ∷ top ∷ rest
unfolding push
push_first job top rest h = ground (arith, h)

push_behind :
    (job top : Timed) (rest : List Timed)
    → ltb job.execute_time top.execute_time ≡ false
    → push job (top ∷ rest) ≡ top ∷ push job rest
unfolding push
push_behind job top rest h = ground (arith, h)

after-push :
    (t : ℕ) (job : Timed) (queue : List Timed)
    → t ≤ job.execute_time
    → AreAfter t queue
    → AreAfter t (push job queue)
unfolding push
after-push t job [] h after = h
after-push t job (top ∷ rest) h after = elim (Bool-cases (ltb job.execute_time top.execute_time)) [
  | inl first ↦ rw (push_first job top rest first) h
  | inr behind ↦ rw (push_behind job top rest behind) after
]

-- A push keeps the queue in order.
pub push-AreSorted :
    (job : Timed) (queue : List Timed) → AreSorted queue → AreSorted (push job queue)
unfolding push
push-AreSorted job [] s = tt
push-AreSorted job (top ∷ rest) s = elim (Bool-cases (ltb job.execute_time top.execute_time)) [
  | inl first ↦ rw (push_first job top rest first) (ground arith, s)
  | inr behind ↦ rw (push_behind job top rest behind) (
      sorted_cons top (push job rest)
        (after-push top.execute_time job rest (ground arith) (sorted_head top rest s))
        (push-AreSorted job rest (tail_sorted top rest s)))
]
