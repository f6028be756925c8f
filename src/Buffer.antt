-- ===== src/Buffer.antt =====
-- The serial ring buffer (라이브러리/SerialRingBuffer.h and .cpp): a byte ring behind a five-byte
-- network header, which is at once a session's stream queue and the body of one packet.
-- A pointer into the allocation is its distance from `Header`, so `Header` is 0 and `Buffer` is 5.
-- `int` sizes are natural numbers: callers pass none that is negative. `memcpy` is
-- `write_at` and `read_at`; the critical sections are left out, since each operation is one step.
pub mod Bounds
pub mod Store
pub mod Enqueue
pub mod Grow
pub mod Dequeue
pub mod Cipher
pub mod Seal
mod Tests
use game_server_client.Base.{
  ℕ, zero, suc, ◌/◌, ◌%◌, ◌^◌, bit_xor, get_or, set, ◌∷◌, Bool, ◌+◌, ◌-◌, List, [], ◌++◌, leb, ◌==◌,
  if◌then◌else◌, take, drop, replicate,
}
use game_server_client.Base.Memory.{write_at, read_at}

pub record SerialRingBuffer : Type 0 where
  pub mem : List ℕ
  pub front : ℕ
  pub rear : ℕ
  pub buffer_total_size : ℕ
  pub header_flag : ℕ
  pub encode_flag : ℕ

-- `HeaderSize`, and so the offset of `Buffer`.
abbrev pub header_size : ℕ
header_size = 5

abbrev pub default_size : ℕ
default_size = 16384

-- `Buffer + BufferTotalSize + 1`, one past the last cell.
abbrev pub end_of : SerialRingBuffer → ℕ
end_of r = header_size + r.buffer_total_size + 1

-- The constructor at a size; the other constructor is this one at `default_size`.
unfoldable pub create : ℕ → SerialRingBuffer
create size = record {
  mem = replicate size 0;
  front = header_size;
  rear = header_size;
  buffer_total_size = size - header_size - 1;
  header_flag = 0;
  encode_flag = 0;
}

unfoldable pub get_buffer_size : SerialRingBuffer → ℕ
get_buffer_size r = r.buffer_total_size + header_size + 1

unfoldable pub get_use_size : SerialRingBuffer → ℕ
get_use_size r =
    if leb r.front r.rear then r.rear - r.front else r.buffer_total_size + 1 - (r.front - r.rear)

unfoldable pub get_free_size : SerialRingBuffer → ℕ
get_free_size r =
    if leb r.front r.rear then r.buffer_total_size - (r.rear - r.front) else r.front - r.rear - 1

unfoldable pub direct_enqueue_size : SerialRingBuffer → ℕ
direct_enqueue_size r =
    if leb r.front r.rear
    then (if r.front == header_size then end_of r - r.rear - 1 else end_of r - r.rear)
    else r.front - r.rear - 1

unfoldable pub direct_dequeue_size : SerialRingBuffer → ℕ
direct_dequeue_size r = if leb r.front r.rear then r.rear - r.front else end_of r - r.front

-- How `enqueue` and `MoveRear` step a pointer: round the end, or on by the count.
unfoldable pub step_in_place : SerialRingBuffer → ℕ → ℕ → ℕ
step_in_place r pos n = if pos + n == end_of r then header_size else pos + n

-- `enqueue` once the count is known and positive.
unfoldable pub store : SerialRingBuffer → List ℕ → ℕ → SerialRingBuffer
store r src n =
    if leb n (direct_enqueue_size r)
    then record r { mem = write_at r.mem r.rear (take n src); rear = step_in_place r r.rear n }
    else record r {
      mem =
          write_at (write_at r.mem r.rear (take (direct_enqueue_size r) src)) header_size
            (take (n - direct_enqueue_size r) (drop (direct_enqueue_size r) src));
      rear = header_size + n - direct_enqueue_size r;
    }

-- The bytes at `pData` are the list; the count that went in is returned.
unfoldable pub enqueue : SerialRingBuffer → List ℕ → ℕ → SerialRingBuffer × ℕ
enqueue r src size =
    let n = if leb size (get_free_size r) then size else get_free_size r in
    if size == 0 then (r, 0) else if n == 0 then (r, 0) else (store r src n, n)

-- The `n` oldest bytes as `dequeue` and `peek` copy them out, in one piece or two.
unfoldable pub fetch : SerialRingBuffer → ℕ → List ℕ
fetch r n =
    if leb n (direct_dequeue_size r)
    then read_at r.mem r.front n
    else read_at r.mem r.front (direct_dequeue_size r)
      ++ read_at r.mem header_size (n - direct_dequeue_size r)

unfoldable pub move_front : SerialRingBuffer → ℕ → SerialRingBuffer
move_front r size =
    if size == 0
    then r
    else if leb size (direct_dequeue_size r)
    then record r { front = step_in_place r r.front size }
    else record r { front = header_size + size - direct_dequeue_size r }

unfoldable pub move_rear : SerialRingBuffer → ℕ → SerialRingBuffer
move_rear r size =
    if size == 0
    then r
    else if leb size (direct_enqueue_size r)
    then record r { rear = step_in_place r r.rear size }
    else record r { rear = header_size + size - direct_enqueue_size r }

-- The bytes that went to `pDest` and the ring after; the returned count is their number.
unfoldable pub dequeue : SerialRingBuffer → ℕ → SerialRingBuffer × List ℕ
dequeue r size =
    let n = if leb size (get_use_size r) then size else get_use_size r in
    if size == 0
    then (r, [])
    else if get_use_size r == 0
    then (r, [])
    else if leb n (direct_dequeue_size r)
    then (record r { front = step_in_place r r.front n }, fetch r n)
    else (record r { front = header_size + n - direct_dequeue_size r }, fetch r n)

unfoldable pub peek : SerialRingBuffer → ℕ → List ℕ
peek r size =
    let n = if leb size (get_use_size r) then size else get_use_size r in
    if get_use_size r == 0 then [] else if size == 0 then [] else fetch r n

unfoldable pub clear : SerialRingBuffer → SerialRingBuffer
clear r = record r { front = header_size; rear = header_size; header_flag = 0; encode_flag = 0 }

-- `char` and `BYTE` arithmetic: the low eight bits.
abbrev pub byte : ℕ → ℕ
byte x = x % 2 ^ 8

-- The loop of `encode` over `CheckSum[iCnt]` for the `left` rounds that remain: `p` and `e` are P
-- and E, and `key` is PacketKey.
unfoldable pub encode_loop : (key rand : ℕ) → List ℕ → (i left p e : ℕ) → List ℕ
encode_loop key rand mem i zero p e = mem
encode_loop key rand mem i (suc left) p e =
    let p' = bit_xor (get_or mem (4 + i) 0) (byte (p + rand + i + 1)) in
    let e' = bit_xor p' (byte (e + key + i + 1)) in
    encode_loop key rand (set mem (4 + i) e') (suc i) left p' e'

-- The loop of `decode`: `p` and `e` are Prev_P and Prev_E.
unfoldable pub decode_loop : (key rand : ℕ) → List ℕ → (i left p e : ℕ) → List ℕ
decode_loop key rand mem i zero p e = mem
decode_loop key rand mem i (suc left) p e =
    let e' = get_or mem (4 + i) 0 in
    let p' = bit_xor e' (byte (e + key + i + 1)) in
    decode_loop key rand (set mem (4 + i) (bit_xor p' (byte (p + rand + i + 1)))) (suc i) left p' e'

-- The random key stands in the fourth byte of the header, the checksum in the fifth.
abbrev pub rand_key : SerialRingBuffer → ℕ
rand_key r = get_or r.mem 3 0

unfoldable pub encode : ℕ → SerialRingBuffer → SerialRingBuffer
encode key r =
    if r.encode_flag == 0
    then record r {
      mem = encode_loop key (rand_key r) r.mem 0 (get_use_size r + 1) 0 0;
      encode_flag = 1;
    }
    else r

-- The sum of the `left` bytes from `pos` on, as an `unsigned char`.
unfoldable pub check_sum : List ℕ → (pos left acc : ℕ) → ℕ
check_sum mem pos zero acc = acc
check_sum mem pos (suc left) acc = check_sum mem (suc pos) left (byte (acc + get_or mem pos 0))

unfoldable pub decode : ℕ → SerialRingBuffer → SerialRingBuffer × Bool
decode key r =
    let plain = decode_loop key (rand_key r) r.mem 0 (get_use_size r + 1) 0 0 in
    (record r { mem = plain }, check_sum plain r.front (get_use_size r) 0 == get_or plain 4 0)

-- `SetWanHeader` with the five bytes of a network header; any other size crashes there.
unfoldable pub set_wan_header : SerialRingBuffer → List ℕ → SerialRingBuffer
set_wan_header r src =
    if r.header_flag == 0 then record r { mem = write_at r.mem 0 src; header_flag = 1 } else r

-- `SetLanHeader` with the two bytes of a length.
unfoldable pub set_lan_header : SerialRingBuffer → List ℕ → SerialRingBuffer
set_lan_header r src =
    if r.header_flag == 0
    then record r { mem = write_at r.mem (header_size - 2) src; header_flag = 1 }
    else r

-- `NetworkHeader(code, packet)` of CWanServerRoom2.h as it lies in memory: code, length (little
-- endian), random key, checksum. `rand` is what `rand()` gave.
unfoldable pub network_header : (code rand : ℕ) → SerialRingBuffer → List ℕ
network_header code rand r =
    let len = get_use_size r % 2 ^ 16 in
    code ∷ byte len ∷ (len / 2 ^ 8) ∷ byte rand ∷ check_sum r.mem r.front len 0 ∷ []
