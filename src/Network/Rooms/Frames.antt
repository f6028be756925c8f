-- ===== src/Network/Rooms/Frames.antt =====
-- One RoomUpdate (CRoom2.cpp): its jobs, its sessions, its contents.
use game_server_client.Base.{
  ℕ, ◌+◌, ◌≤◌, List, [], ◌∷◌, false, ◌==◌, arith, not, ◌&&◌, Bool-cases, Option-cases, inl, inr,
}
use game_server_client.Buffer.{SerialRingBuffer}
use game_server_client.Network.Sessions.{index_low, at, write}
use game_server_client.Network.Rooms.{
  Room, World, Contents, erase, find_room, change, queue_swap, at_room, map_of, called_of,
  room_jobs, recv_packets, recv_packet, serve_session, serve_sessions, room_update,
}
use game_server_client.Network.Rooms.Places.{places_in, places, count-erase}
use game_server_client.Network.Rooms.Updates.{AreTame, change-le, working_found, run_jobs-le}

-- A change that adds no places in a room, whatever it does besides.
change_adds_none :
    (a : ℕ) (f : Room → Room) (rs : List (ℕ × Room)) (k : ℕ)
    → ((r : Room) → places_in a (f r) ≤ places_in a r)
    → places a (change f rs k) ≤ places a rs
change_adds_none a f rs k h = omega (arith, change-le a f 0 rs k (λ r. omega (arith, h r)))

module _ {C : Type 0} (c : Contents C) (a k : ℕ) (tame : AreTame c a k) where
  recv_packet-le :
      (p : SerialRingBuffer) (w : World C) (id : ℕ)
      → places a (recv_packet c w k id p).room_map ≤ places a w.room_map
  unfolding recv_packet
  recv_packet-le p w id =
      elim (Bool-cases (not (called_of c w k) && not (at w.server (index_low id)).suspend_recv)) [
        | inl on ↦ rw on (tame.recv id p w).0
        | inr off ↦ rw off (omega arith)
      ]

  recv_packets-le :
      (ps : List SerialRingBuffer) (w : World C) (id : ℕ)
      → places a (recv_packets c w k id ps).room_map ≤ places a w.room_map
  unfolding recv_packets
  recv_packets-le [] w id = omega arith
  recv_packets-le (p ∷ ps) w id =
      omega (arith, recv_packets-le ps (recv_packet c w k id p) id, recv_packet-le p w id)

  serve_session-le :
      (w : World C) (id : ℕ) → places a (serve_session c w k id).room_map ≤ places a w.room_map
  unfolding serve_session at_room places_in
  serve_session-le w id =
      let i : ℕ = index_low id in
      let s = at w.server i in
      let f : Room → Room = λ r. record r { called_change_room = false } in
      let g : Room → Room = λ r. record r { session_map = erase r.session_map id } in
      let w1 : World C = at_room w k f in
      let w2 : World C = at_room w1 k g in
      let cleared : places a w1.room_map ≤ places a w.room_map =
        change_adds_none a f w.room_map k (λ r. omega arith) in
      let erased : places a w2.room_map ≤ places a w1.room_map =
        change_adds_none a g w1.room_map k (λ r. omega (arith, count-erase a id r.session_map)) in
      elim (Bool-cases (s.disconnect_flag == 1)) [
        | inl gone ↦ rw gone (omega (arith, (tame.release id w2).0, erased, cleared))
        | inr there ↦ rw there (
            omega (
              arith,
              recv_packets-le s.message_q
                  (record w1 { server = write w1.server i (record s { message_q = [] }) }) id,
              cleared,
            ))
      ]

  serve_sessions-le :
      (ids : List ℕ) (w : World C)
      → places a (serve_sessions c w k ids).room_map ≤ places a w.room_map
  unfolding serve_sessions
  serve_sessions-le [] w = omega arith
  serve_sessions-le (id ∷ ids) w =
      omega (arith, serve_sessions-le ids (serve_session c w k id), serve_session-le w id)

  room_jobs-le : (w : World C) → places a (room_jobs c w k).room_map ≤ places a w.room_map
  unfolding room_jobs at_room queue_swap places_in
  room_jobs-le w =
      let w' : World C = at_room w k queue_swap in
      let swapped : places a w'.room_map ≤ places a w.room_map =
        change_adds_none a queue_swap w.room_map k (λ r. omega arith) in
      elim (Option-cases (find_room w'.room_map k)) [
        | inl missing ↦ rw (missing, room_jobs) swapped
        | inr (r, found) ↦
            rw (found, room_jobs)
              (omega (
                arith,
                swapped,
                run_jobs-le c a k tame r.working_q w' (working_found w'.room_map k r found),
              ))
      ]

  -- RoomUpdate puts a session into no more places than it was in, where the contents of the room do
  -- not either and leave alone the jobs that the room has still to do.
  pub places-room_update :
      (w : World C) → places a (room_update c w k).room_map ≤ places a w.room_map
  unfolding room_update at_room places_in
  places-room_update w =
      let w1 : World C = room_jobs c w k in
      let w2 : World C = serve_sessions c w1 k (map_of c w1 k) in
      let w3 : World C = c.on_update k w2 in
      let f : Room → Room = λ r. record r { current_frame = r.current_frame + 1 } in
      omega (
        arith,
        room_jobs-le w,
        serve_sessions-le (map_of c w1 k) w1,
        (tame.update w2).0,
        change_adds_none a f w3.room_map k (λ r. omega arith),
      )
