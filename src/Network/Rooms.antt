-- ===== src/Network/Rooms.antt =====
-- The rooms of the game server (게임서버/네트워크/CRoom2.cpp, and EnterRoom, ExecuteSendToAllRoom,
-- SendToRoom and SendToRoomSession of CWanServerRoom2.cpp).
-- A room's contents are the virtual functions OnRecv, OnEnterRoom and so on, which the games
-- override: they are arguments, functions on the whole state. `Param` is its value of 64 bits, and a
-- SessionMap the list of its keys in the order of iteration, a new one at the end. A room
-- handles its jobs and its sessions one after the other, as its lock has it.
pub mod Places
pub mod Updates
pub mod Frames
pub mod Moves
mod Tests
use game_server_client.Base.{
  ℕ, ◌+◌, ◌-◌, ◌/◌, ◌^◌, ◌%◌, List, [], ◌∷◌, ◌++◌, Bool, true, false, Option, none, some,
  if◌then◌else◌, ◌==◌, ◌&&◌, ◌||◌, not,
}
use game_server_client.Buffer.{SerialRingBuffer}
use game_server_client.Network.Sessions.{
  Session, Server, at, write, index_low, invalid_room, session_unlock, get_room_no,
}

-- `Job_RoomMessageQ`, by its type.
pub data Job : Type 0 where
  enter room_message_session : (session_id param : ℕ) → Job
  room_delete : Job
  room_message : (param : ℕ) → Job

-- `message_q` is what `MessageQ` points to, `working_q` what `WorkingQ` points to.
pub record Room : Type 0 where
  pub session_map : List ℕ
  pub message_q : List Job
  pub working_q : List Job
  pub called_change_room : Bool
  pub frame : ℕ
  pub frame_time : ℕ
  pub current_frame : ℕ

pub record World (C : Type 0) : Type 0 where
  pub server : Server
  pub room_map : List (ℕ × Room)
  pub content : C

-- The virtual functions of the room of a number.
pub record Contents (C : Type 0) : Type 0 where
  pub on_recv : (room_no session_id : ℕ) → SerialRingBuffer → World C → World C
  pub on_enter_room : (room_no session_id param : ℕ) → World C → World C
  pub on_leave_room : (room_no session_id : ℕ) → World C → World C
  pub on_session_release : (room_no session_id : ℕ) → World C → World C
  pub on_recv_to_room : (room_no param : ℕ) → World C → World C
  pub on_update : (room_no : ℕ) → World C → World C

unfoldable pub contains : List ℕ → ℕ → Bool
contains [] a = false
contains (b ∷ bs) a = b == a || contains bs a

unfoldable pub erase : List ℕ → ℕ → List ℕ
erase [] a = []
erase (b ∷ bs) a = if b == a then bs else b ∷ erase bs a

-- An `insert` of a key that is there changes nothing.
unfoldable pub insert : List ℕ → ℕ → List ℕ
unfolding contains
insert bs a = if contains bs a then bs else bs ++ a ∷ []

-- `RoomMap.find`.
unfoldable pub find_room : List (ℕ × Room) → ℕ → Option Room
find_room [] k = none
find_room ((j, r) ∷ rs) k = if j == k then some r else find_room rs k

-- A change of the room that the map has under a number.
unfoldable pub change : (Room → Room) → List (ℕ × Room) → ℕ → List (ℕ × Room)
change f [] k = []
change f ((j, r) ∷ rs) k = if j == k then (j, f r) ∷ rs else (j, r) ∷ change f rs k

-- `MessageQ->push`.
unfoldable pub push : Job → Room → Room
push job r = record r { message_q = r.message_q ++ job ∷ [] }

unfoldable pub queue_swap : Room → Room
queue_swap r = record r { message_q = r.working_q; working_q = r.message_q }

-- `SetFrame` of a rate that is not negative.
unfoldable pub set_frame : Room → ℕ → Room
set_frame r frame =
    if frame == 0
    then record r { frame = 0; frame_time = 0 }
    else record r { frame = frame; frame_time = 1000 / frame }

unfoldable pub push_all : Job → List (ℕ × Room) → List (ℕ × Room)
push_all job [] = []
push_all job ((k, r) ∷ rs) = (k, push job r) ∷ push_all job rs

module _ {C : Type 0} where
  unfoldable pub at_room : World C → ℕ → (Room → Room) → World C
  at_room w k f = record w { room_map = change f w.room_map k }

  -- `EnterRoom`: nothing happens where there is no such room.
  unfoldable pub enter_room : World C → (session_id room_no param : ℕ) → World C
  enter_room w session_id room_no param = at_room w room_no (push (enter session_id param))

  -- `ExecuteSendToAllRoom`.
  unfoldable pub send_to_all_room : World C → (param : ℕ) → World C
  send_to_all_room w param = record w { room_map = push_all (room_message param) w.room_map }

  -- `SendToRoom`.
  unfoldable pub send_to_room : World C → (room_no param : ℕ) → World C × Bool
  send_to_room w room_no param = elim (find_room w.room_map room_no) [
    | none ↦ (w, false)
    | some r ↦ (at_room w room_no (push (room_message param)), true)
  ]

  -- `SendToRoomSession`, once GetRoomNo has answered.
  unfoldable pub send_to_room_of : World C → (session_id param room_no : ℕ) → World C × Bool
  send_to_room_of w session_id param room_no = elim (find_room w.room_map room_no) [
    | none ↦ (w, false)
    | some r ↦ (at_room w room_no (push (room_message_session session_id param)), true)
  ]

  unfoldable pub send_to_room_session : World C → (session_id param : ℕ) → World C × Bool
  send_to_room_session w session_id param =
      let (server, room_no) = get_room_no w.server session_id in
      let w' = record w { server = server } in
      if room_no == invalid_room then (w', false) else send_to_room_of w' session_id param room_no

  module _ (c : Contents C) where
    -- `ChangeRoom` of the room `from`, once the session is in its map and the target is there.
    unfoldable pub leave_for : World C → (from session_id room_no param : ℕ) → World C
    leave_for w from session_id room_no param =
        let i = index_low session_id in
        let w1 = at_room w from (λ r. record r { session_map = erase r.session_map session_id }) in
        let w2 = c.on_leave_room from session_id w1 in
        let w3 = at_room w2 from (λ r. record r { called_change_room = true }) in
        let w4 = record w3 {
          server = write w3.server i (record (at w3.server i) { room_no = room_no });
        } in
        at_room w4 room_no (push (enter session_id param))

    unfoldable pub change_room : World C → (from session_id room_no param : ℕ) → World C × Bool
    change_room w from session_id room_no param = elim (find_room w.room_map room_no) [
      | none ↦ (w, false)
      | some target ↦ elim (find_room w.room_map from) [
        | none ↦ (w, false)
        | some r ↦
            if contains r.session_map session_id
            then (leave_for w from session_id room_no param, true)
            else (w, false)
      ]
    ]

    -- What the room has to do with a session when it enters: packets from a former room go.
    unfoldable pub enter_session : World C → (k session_id param : ℕ) → World C
    enter_session w k session_id param =
        let i = index_low session_id in
        let s = at w.server i in
        let w1 = record w {
          server =
              if s.room_no == invalid_room
              then w.server
              else write w.server i (record s { message_q = [] });
        } in
        let w2 = at_room w1 k (λ r. record r { session_map = insert r.session_map session_id }) in
        c.on_enter_room k session_id param w2

    -- One job of the room `k`, of which the map is `session_map`.
    unfoldable pub handle_job : World C → (k : ℕ) → (session_map : List ℕ) → Job → World C
    handle_job w k session_map (enter session_id param) = enter_session w k session_id param
    handle_job w k session_map room_delete = w
    handle_job w k session_map (room_message param) = c.on_recv_to_room k param w
    handle_job w k session_map (room_message_session session_id param) =
        if contains session_map session_id
        then c.on_recv_to_room k param w
        else (send_to_room_session w session_id param).0

    -- The session map of the room `k`.
    unfoldable pub map_of : World C → ℕ → List ℕ
    map_of w k = elim (find_room w.room_map k) [ none ↦ [] | some r ↦ r.session_map ]

    -- The jobs of the working queue, each taken off before it is handled.
    unfoldable pub run_jobs : World C → (k : ℕ) → List Job → World C
    run_jobs w k [] = w
    run_jobs w k (job ∷ jobs) =
        let w' = at_room w k (λ r. record r { working_q = jobs }) in
        run_jobs (handle_job w' k (map_of w' k) job) k jobs

    -- `CalledChangeRoom` of the room `k`.
    unfoldable pub called_of : World C → ℕ → Bool
    called_of w k = elim (find_room w.room_map k) [ none ↦ false | some r ↦ r.called_change_room ]

    -- A packet is handled unless the session went to another room or its reading is suspended.
    unfoldable pub recv_packet : World C → (k session_id : ℕ) → SerialRingBuffer → World C
    recv_packet w k session_id p =
        if not (called_of w k) && not (at w.server (index_low session_id)).suspend_recv
        then c.on_recv k session_id p w
        else w

    unfoldable pub recv_packets : World C → (k session_id : ℕ) → List SerialRingBuffer → World C
    recv_packets w k session_id [] = w
    recv_packets w k session_id (p ∷ ps) =
        recv_packets (recv_packet w k session_id p) k session_id ps

    unfoldable pub serve_session : World C → (k session_id : ℕ) → World C
    serve_session w k session_id =
        let i = index_low session_id in
        let s = at w.server i in
        let w1 = at_room w k (λ r. record r { called_change_room = false }) in
        let gone = at_room w1 k (λ r. record r { session_map = erase r.session_map session_id }) in
        let released = c.on_session_release k session_id gone in
        let taken = record w1 { server = write w1.server i (record s { message_q = [] }) } in
        if s.disconnect_flag == 1
        then record released { server = session_unlock released.server i }
        else recv_packets taken k session_id s.message_q

    unfoldable pub serve_sessions : World C → (k : ℕ) → List ℕ → World C
    serve_sessions w k [] = w
    serve_sessions w k (session_id ∷ ids) = serve_sessions (serve_session w k session_id) k ids

    -- QueueSwap, and the jobs that were queued before it.
    unfoldable pub room_jobs : World C → (k : ℕ) → World C
    room_jobs w k =
        let w' = at_room w k queue_swap in
        elim (find_room w'.room_map k) [ none ↦ w' | some r ↦ run_jobs w' k r.working_q ]

    -- `RoomUpdate`; the map is walked as it stands after the jobs.
    unfoldable pub room_update : World C → (k : ℕ) → World C
    room_update w k =
        let w1 = room_jobs w k in
        let w2 = c.on_update k (serve_sessions w1 k (map_of w1 k)) in
        at_room w2 k (λ r. record r { current_frame = r.current_frame + 1 })
