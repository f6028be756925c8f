-- ===== src/Network/Rooms/Tests.antt =====
-- Two rooms: the packets of the first one's sessions send them to the second.
use game_server_client.Base.{ℕ, ◌+◌, ◌≤◌, ◌≡◌, refl, [], ◌∷◌, false, some, arith}
use game_server_client.Buffer.{SerialRingBuffer}
use game_server_client.Network.Sessions.{unused, at, write}
use game_server_client.Network.Rooms.{
  enter, Room, World, Contents, contains, erase, insert, find_room, change, push, queue_swap,
  at_room, leave_for, change_room, called_of, recv_packet, recv_packets, room_update, room_jobs,
  run_jobs, handle_job, enter_session, map_of, serve_sessions, serve_session,
}
use game_server_client.Network.Rooms.Places.{places}
use game_server_client.Network.Rooms.Updates.{AreTame}
use game_server_client.Network.Rooms.Frames.{places-room_update}
use game_server_client.Network.Rooms.Moves.{places-change_room, change_room-Keeps}

abbrev idle : Contents ℕ
idle = record {
  on_recv = λ k id p w. w;
  on_enter_room = λ k id param w. w;
  on_leave_room = λ k id w. w;
  on_session_release = λ k id w. w;
  on_recv_to_room = λ k param w. w;
  on_update = λ k w. w;
}

-- Counts the packets, and sends their sessions to the room 2.
abbrev gate : Contents ℕ
gate = record idle {
  on_recv = λ k id p w. (change_room idle (record w { content = w.content + 1 }) k id 2 0).0;
}

abbrev empty_room : Room
empty_room = record {
  session_map = [];
  message_q = [];
  working_q = [];
  called_change_room = false;
  frame = 50;
  frame_time = 20;
  current_frame = 0;
}

abbrev packet : SerialRingBuffer
packet = record {
  mem = [];
  front = 5;
  rear = 5;
  buffer_total_size = 0;
  header_flag = 0;
  encode_flag = 0;
}

-- Session 0 of the id 2 ^ 32 is about to enter the room 1, and has sent two packets.
abbrev guest : ℕ
guest = 4294967296

abbrev world : World ℕ
world = record {
  server = record {
    sessions =
        record unused { session_id = guest; io_count = 2; message_q = packet ∷ packet ∷ [] } ∷ [];
    session_index = [];
  };
  room_map = (1, record empty_room { message_q = enter guest 0 ∷ [] }) ∷ (2, empty_room) ∷ [];
  content = 0;
}

-- One frame later it has left again for room 2, and its second packet is dropped.
update_test : (room_update gate world 1).content ≡ 1
unfolding room_update room_jobs at_room change queue_swap find_room run_jobs handle_job
    enter_session at write insert contains map_of serve_sessions serve_session recv_packets
    recv_packet called_of change_room leave_for erase push
update_test = refl

queue_test :
    find_room (room_update gate world 1).room_map 2
    ≡ some (record empty_room { message_q = enter guest 0 ∷ [] })
unfolding room_update room_jobs at_room change queue_swap find_room run_jobs handle_job
    enter_session at write insert contains map_of serve_sessions serve_session recv_packets
    recv_packet called_of change_room leave_for erase push
queue_test = refl

gate-AreTame : AreTame gate guest 1
gate-AreTame = record {
  recv = λ id p w.
      change_room-Keeps idle (λ k id w. refl) guest 1 (record w { content = w.content + 1 }) 1 id 2
        0;
  enters_room = λ id param w. (omega arith, refl);
  release = λ id w. (omega arith, refl);
  recv_to_room = λ param w. (omega arith, refl);
  update = λ w. (omega arith, refl);
}

places-room_update_example :
    places guest (room_update gate world 1).room_map ≤ places guest world.room_map
places-room_update_example = places-room_update gate guest 1 gate-AreTame world

-- The session once it is in room 1.
abbrev entered : World ℕ
entered = record world {
  room_map = (1, record empty_room { session_map = guest ∷ [] }) ∷ (2, empty_room) ∷ [];
}

places-change_room_example :
    places guest (change_room idle entered 1 guest 2 0).0.room_map ≡ places guest entered.room_map
places-change_room_example = places-change_room idle (λ k id w. refl) guest entered 1 guest 2 0
