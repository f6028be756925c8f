-- ===== src/Network/Sessions.antt =====
-- The sessions of 게임서버/네트워크/CWanServerRoom2.cpp (Session.h, NetworkDefine.h): their ids, the word
-- IOCount, and what SendMSG, Disconnect and a completed send do to one. Each function runs here
-- without another thread in between; Network/Threads has the interleavings.
-- A session's SendQ and MessageQ hold pointers of eight bytes in rings of 6400; here they are the
-- lists of the packets. Sessions are the array, and `SessionIndex` a list, its top first.
pub mod Locks
pub mod Alloc
pub mod Sends
pub mod Refused
mod Tests
use game_server_client.Base.{
  ℕ, ◌+◌, ◌*◌, ◌/◌, ◌%◌, ◌^◌, ◌-◌, List, [], ◌∷◌, ◌++◌, Bool, true, false, Option, none, some,
  if◌then◌else◌, ltb, ◌==◌, ◌||◌, get_or, set, drop, length, add32, sub32, map,
}
use game_server_client.Buffer.{SerialRingBuffer, create, clear}
use game_server_client.Network.Receive.{message_free, seal, wire}

pub record Session : Type 0 where
  pub socket : Option ℕ
  pub session_id : ℕ
  pub io_count : ℕ
  pub send_flag : ℕ
  pub disconnect_flag : ℕ
  pub send_buffer_count : ℕ
  pub room_no : ℕ
  pub send_disconnect_time : ℕ
  pub suspend_recv : Bool
  pub recv_q : SerialRingBuffer
  pub send_q : List SerialRingBuffer
  pub message_q : List SerialRingBuffer

-- `INVALID_ROOMNO`, -1 as a DWORD.
abbrev pub invalid_room : ℕ
invalid_room = 2 ^ 32 - 1

-- The constructor.
abbrev pub unused : Session
unused = record {
  socket = none;
  session_id = 0;
  io_count = 0;
  send_flag = 0;
  disconnect_flag = 0;
  send_buffer_count = 0;
  room_no = invalid_room;
  send_disconnect_time = 0;
  suspend_recv = false;
  recv_q = create 6400;
  send_q = [];
  message_q = [];
}

-- `SESSIONID`, `SESSIONID_ID_HIGH` and `SESSIONID_INDEX_LOW`; an index is a DWORD, so that `|` adds.
unfoldable pub make_id : (id index : ℕ) → ℕ
make_id id index = (id * 2 ^ 32) % 2 ^ 64 + index

abbrev pub id_high : ℕ → ℕ
id_high session_id = session_id / 2 ^ 32 % 2 ^ 32

abbrev pub index_low : ℕ → ℕ
index_low session_id = session_id % 2 ^ 32

pub record Server : Type 0 where
  pub sessions : List Session
  pub session_index : List ℕ

-- `&Sessions[i]`.
unfoldable pub at : Server → ℕ → Session
at st i = get_or st.sessions i unused

unfoldable pub write : Server → ℕ → Session → Server
write st i s = record st { sessions = set st.sessions i s }

-- The packets of SendQ give their references back and stay; those of MessageQ are taken out.
unfoldable pub session_free : Server → ℕ → Server
session_free st i =
    record (write st i (record (at st i) { session_id = 0; socket = none; message_q = [] })) {
      session_index = index_low (at st i).session_id ∷ st.session_index;
    }

unfoldable pub session_release : Server → ℕ → Server
session_release st i =
    if (at st i).io_count == 0
    then session_free (write st i (record (at st i) { io_count = 2 ^ 16 })) i
    else st

unfoldable pub increment : Server → ℕ → Server
increment st i = write st i (record (at st i) { io_count = add32 (at st i).io_count 1 })

-- `SessionUnLock`, which is also what stands at the end of each handler.
unfoldable pub session_unlock : Server → ℕ → Server
session_unlock st i =
    let st' = write st i (record (at st i) { io_count = sub32 (at st i).io_count 1 }) in
    if (at st' i).io_count == 0 then session_release st' i else st'

unfoldable pub session_find_and_lock : Server → (session_id : ℕ) → Server × Bool
session_find_and_lock st session_id =
    let i = index_low session_id in
    let st' = increment st i in
    if (at st' i).io_count / 2 ^ 16 == 1
    then (session_unlock st' i, false)
    else if session_id == (at st' i).session_id
    then (st', true)
    else (session_unlock st' i, false)

-- `none` while the stack is empty, where the code waits.
unfoldable pub session_alloc : Server → (socket id : ℕ) → Option (Server × ℕ)
session_alloc st socket id = elim st.session_index [
  | [] ↦ none
  | i ∷ rest ↦
      let s = record (at st i) {
        socket = some socket;
        session_id = make_id id i;
        send_flag = 0;
        disconnect_flag = 0;
        send_buffer_count = 0;
        recv_q = clear (at st i).recv_q;
        send_q = [];
        room_no = invalid_room;
        suspend_recv = false;
        io_count = add32 (at st i).io_count 1 % 2 ^ 16;
      } in
      some (write (record st { session_index = rest }) i s, i)
]

-- As the code has it, with a SessionUnLock on both paths.
unfoldable pub get_room_no : Server → (session_id : ℕ) → Server × ℕ
get_room_no st session_id =
    let (st', found) = session_find_and_lock st session_id in
    (
      session_unlock st' (index_low session_id),
      if found then (at st' (index_low session_id)).room_no else invalid_room,
    )

-- `Disconnect` of a session: the socket's I/O is cancelled by the system.
unfoldable pub raise_disconnect : Server → ℕ → Server
raise_disconnect st i = write st i (record (at st i) { disconnect_flag = 1 })

-- `Disconnect` of an id.
unfoldable pub disconnect : Server → (session_id : ℕ) → Server × Bool
disconnect st session_id =
    let (st', found) = session_find_and_lock st session_id in
    let i = index_low session_id in
    if found then (session_unlock (raise_disconnect st' i) i, true) else (st', false)

-- `SendPost`: the server after, and what goes to the socket, `none` where nothing is sent.
-- `pending` is whether WSASend took it.
unfoldable pub send_post : Server → ℕ → (pending : Bool) → Server × Option (List (List ℕ))
send_post st i pending =
    let s = at st i in
    let count = length s.send_q in
    let st' = increment (write st i (record s { send_flag = 1; send_buffer_count = count })) i in
    if s.send_flag == 1
    then (st, none)
    else if count == 0
    then (write st i (record s { send_flag = 0 }), none)
    else ((if pending then st' else session_unlock st' i), some (map wire s.send_q))

-- `SendMSG`; key, code and `rand` are those of the header and the cipher.
unfoldable pub send_msg :
    (key code rand : ℕ)
    → Server
    → (session_id : ℕ) → SerialRingBuffer
    → (pending : Bool) → Server × Bool × Option (List (List ℕ))
send_msg key code rand st session_id packet pending =
    let (st', found) = session_find_and_lock st session_id in
    let i = index_low session_id in
    let s = at st' i in
    let queued = write st' i (record s { send_q = s.send_q ++ seal key code rand packet ∷ [] }) in
    let (posted, out) = send_post queued i pending in
    if found
    then (if s.disconnect_flag == 1
        then (session_unlock st' i, false, none)
        else if ltb (message_free s.send_q) 8
        then (session_unlock (disconnect st' s.session_id).0 i, false, none)
        else (session_unlock posted i, true, out))
    else (st', false, none)

-- A completed WSASend in WorkerThread: what was sent leaves the queue, and what was queued meanwhile
-- is sent.
unfoldable pub send_completed : Server → ℕ → (pending : Bool) → Server × Option (List (List ℕ))
send_completed st i pending =
    let s = at st i in
    let st' = write st i (record s {
      send_q = drop s.send_buffer_count s.send_q;
      send_buffer_count = 0;
      send_flag = 0;
    }) in
    let (posted, out) = send_post st' i pending in
    if length (drop s.send_buffer_count s.send_q) == 0
    then (session_unlock st' i, none)
    else (session_unlock posted i, out)

-- `SendMSG_PQCS`; the last answer is whether SEND_POST was posted, which keeps the reference.
unfoldable pub send_msg_pqcs :
    (key code rand : ℕ) → Server → (session_id : ℕ) → SerialRingBuffer → Server × Bool × Bool
send_msg_pqcs key code rand st session_id packet =
    let (st', found) = session_find_and_lock st session_id in
    let i = index_low session_id in
    let s = at st' i in
    let queued = write st' i (record s { send_q = s.send_q ++ seal key code rand packet ∷ [] }) in
    let released = write queued i (record (at queued i) { send_flag = 0 }) in
    if found
    then (if s.disconnect_flag == 1
        then (session_unlock st' i, false, false)
        else if ltb (message_free s.send_q) 8
        then (session_unlock (disconnect st' s.session_id).0 i, false, false)
        else if (at queued i).send_flag == 1
        then (session_unlock queued i, true, false)
        else if length (at queued i).send_q == 0
        then (session_unlock released i, true, false)
        else (released, true, true))
    else (st', false, false)

-- `SendMSG_PQCS_Disconnect`; the last answer is whether SEND_POST_DISCONNECT was posted, which keeps
-- the reference.
unfoldable pub send_msg_pqcs_disconnect :
    (key code rand : ℕ)
    → Server
    → (session_id : ℕ) → SerialRingBuffer
    → (seconds : ℕ) → Server × Bool × Bool
send_msg_pqcs_disconnect key code rand st session_id packet seconds =
    let (st', found) = session_find_and_lock st session_id in
    let i = index_low session_id in
    let s = at st' i in
    let queued = write st' i (record s {
      send_q = s.send_q ++ seal key code rand packet ∷ [];
      send_disconnect_time = seconds;
    }) in
    if found
    then (if s.disconnect_flag == 1
        then (session_unlock st' i, false, false)
        else if ltb (message_free s.send_q) 8
        then (session_unlock (disconnect st' s.session_id).0 i, false, false)
        else (queued, true, true))
    else (st', false, false)

-- SEND_POST of PqcsProc.
unfoldable pub send_posted : Server → ℕ → (pending : Bool) → Server × Option (List (List ℕ))
send_posted st i pending =
    let (posted, out) = send_post st i pending in (session_unlock posted i, out)
