-- ===== src/Network/Receive.antt =====
-- NetworkMessageProc of CWanServerRoom2.cpp: the bytes that a session has received become packets,
-- and what SendPost gives the socket of a packet.
-- A session's MessageQ holds pointers of eight bytes in a ring of 6400; here it is the list of the
-- packets. `alloc` is what `SerialRingBuffer::Alloc` gives in each round.
use game_server_client.Base.{
  ℕ, zero, suc, ◌+◌, ◌-◌, ◌*◌, ◌^◌, List, [], ◌∷◌, ◌++◌, Bool, true, Option, none, some, ltb, leb,
  ◌==◌, if◌then◌else◌, get_or, length,
}
use game_server_client.Base.Memory.{write_at, read_at}
use game_server_client.Buffer.{
  SerialRingBuffer, header_size, default_size, get_use_size, peek, move_front, move_rear, dequeue,
  encode, network_header, decode, set_wan_header,
}

-- What of a Session the reading works on.
pub record Inbox : Type 0 where
  pub recv_q : SerialRingBuffer
  pub message_q : List SerialRingBuffer
  pub disconnected : Bool

-- MessageQ.GetFreeSize()
unfoldable pub message_free : List SerialRingBuffer → ℕ
message_free q = 6394 - 8 * length q

-- NetworkHeader.Len of a header's bytes.
unfoldable pub header_len : List ℕ → ℕ
header_len header = get_or header 1 0 + 2 ^ 8 * get_or header 2 0

-- A fresh packet with a header and a payload, decoded.
unfoldable pub open_packet :
    (key : ℕ) → SerialRingBuffer → (header payload : List ℕ) → SerialRingBuffer × Bool
open_packet key blank header payload =
    let headed = set_wan_header blank header in
    decode key
      (move_rear (record headed { mem = write_at headed.mem header_size payload }) (length payload))

-- One round of the loop: it goes on, it breaks, or it crashes on a short read.
pub data Round : Type 0 where
  again stop : Inbox → Round
  crash : Round

abbrev disconnect : Inbox → Inbox
disconnect s = record s { disconnected = true }

-- The round once the header has been accepted and the payload is there.
unfoldable pub take_packet : (key : ℕ) → SerialRingBuffer → (header : List ℕ) → Inbox → Round
take_packet key blank header s =
    let (rest, payload) = dequeue (move_front s.recv_q header_size) (header_len header) in
    let (packet, ok) = open_packet key blank header payload in
    if length payload == header_len header
    then (if ok
        then again (record s { recv_q = rest; message_q = s.message_q ++ packet ∷ [] })
        else stop (record s { recv_q = rest; disconnected = true }))
    else crash

unfoldable pub message_round : (key code : ℕ) → SerialRingBuffer → Inbox → Round
message_round key code blank s =
    let header = peek s.recv_q header_size in
    if leb (get_use_size s.recv_q) header_size
    then stop s
    else if get_or header 0 0 == code
    then (if ltb (default_size - header_size - 1) (header_len header)
        then stop (disconnect s)
        else if header_len header == 0
        then stop (disconnect s)
        else if ltb (message_free s.message_q) 8
        then stop (disconnect s)
        else if leb (header_len header) (get_use_size s.recv_q - header_size)
        then take_packet key blank header s
        else stop s)
    else stop (disconnect s)

-- The loop, for at most `fuel` rounds; `none` if they are not enough, or it crashes.
unfoldable pub message_proc :
    (key code : ℕ) → (ℕ → SerialRingBuffer) → (fuel : ℕ) → Inbox → Option Inbox
message_proc key code alloc zero s = none
message_proc key code alloc (suc fuel) s = elim (message_round key code (alloc fuel) s) [
  | again s' ↦ message_proc key code alloc fuel s'
  | stop s' ↦ some s'
  | crash ↦ none
]

-- What SendMSG does to a packet before it queues it. `rand` is what `rand()` gave.
unfoldable pub seal : (key code rand : ℕ) → SerialRingBuffer → SerialRingBuffer
seal key code rand r = encode key (set_wan_header r (network_header code rand r))

-- What SendPost gives the socket of a packet: header and payload, from WanHead() on.
unfoldable pub wire : SerialRingBuffer → List ℕ
wire r = read_at r.mem 0 (get_use_size r + header_size)
