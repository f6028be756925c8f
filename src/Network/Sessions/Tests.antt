-- ===== src/Network/Sessions/Tests.antt =====
-- Three sessions: one with references, one that was released, and one that was never given out.
use game_server_client.Base.{
  replicate, ℕ, ◌^◌, ◌≡◌, refl, [], ◌∷◌, ◌++◌, true, false, none, some, arith, map,
}
use game_server_client.Buffer.{SerialRingBuffer, create}
use game_server_client.Network.Receive.{message_free, seal, wire}
use game_server_client.Network.Sessions.{
  increment, Server, unused, index_low, at, write, increment, session_unlock, session_find_and_lock,
  get_room_no, send_msg, send_msg_pqcs, send_posted, send_completed,
}
use game_server_client.Network.Sessions.Sends.{send_completed-send_msg, send_posted-send_msg_pqcs}

abbrev first_id : ℕ
first_id = 21474836480

abbrev server : Server
server = record {
  sessions =
      record unused { session_id = first_id; io_count = 1; socket = some 9; room_no = 3 }
      ∷ record unused { io_count = 65536 }
      ∷ unused
      ∷ [];
  session_index = 1 ∷ 2 ∷ [];
}

abbrev packet : SerialRingBuffer
packet = record {
  mem = 0 ∷ 0 ∷ 0 ∷ 0 ∷ 0 ∷ 200 ∷ 100 ∷ 0 ∷ 0 ∷ 0 ∷ 0 ∷ 0 ∷ [];
  front = 5;
  rear = 7;
  buffer_total_size = 6;
  header_flag = 0;
  encode_flag = 0;
}

room_test : get_room_no server first_id ≡ (server, 3)
unfolding get_room_no session_find_and_lock increment session_unlock at write create
room_test = refl

released : (at server 1).io_count ≡ 2 ^ 16
unfolding at
released = refl

send_completed-send_msg_example :
    ((send_msg 50 119 7 server first_id packet true).1 ≡ true)
    × ((send_msg 50 119 7 server first_id packet true).2
        ≡ some (map wire ((at server (index_low first_id)).send_q ++ seal 50 119 7 packet ∷ [])))
    × (send_completed (send_msg 50 119 7 server first_id packet true).0 (index_low first_id) true
        ≡ (
          write server (index_low first_id) (record (at server (index_low first_id)) {
            send_q = [];
            send_buffer_count = 0;
            send_flag = 0;
          }),
          none,
        ))
unfolding at message_free
send_completed-send_msg_example =
    send_completed-send_msg server first_id (omega arith) (omega arith) (omega arith) refl 50 119 7
      packet (λ e. omega arith) (omega arith) refl true

send_posted-send_msg_pqcs_example :
    let (st', answer, posted) = send_msg_pqcs 50 119 7 server first_id packet in
    let (st'', answer', out) = send_msg 50 119 7 server first_id packet false in
    (answer ≡ answer')
    × (posted ≡ true)
    × (send_posted st' (index_low first_id) false ≡ (st'', out))
unfolding at message_free
send_posted-send_msg_pqcs_example =
    send_posted-send_msg_pqcs server first_id (omega arith) (omega arith) (omega arith) refl 50 119
      7 packet (λ e. omega arith) (omega arith) refl false

-- The first session with a queue that is full.
abbrev full : Server
full = record server { sessions = record (at server 0) { send_q = replicate 799 packet } ∷ [] }
