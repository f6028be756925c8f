-- ===== src/Buffer/Tests.antt =====
-- The ring on concrete bytes: one that runs past the end of its memory, and fresh packets.
use game_server_client.Base.{
  ℕ, ◌+◌, ◌≤◌, ◌<◌, ◌≡◌, refl, List, [], ◌∷◌, ◌++◌, arith, true, length, take, min, zero, suc,
}
use game_server_client.Buffer.{
  SerialRingBuffer, create, enqueue, dequeue, get_use_size, get_free_size, direct_enqueue_size,
  direct_dequeue_size, encode, decode, set_wan_header, network_header,
}
use game_server_client.Base.Memory.{write_at, read_at}
use game_server_client.Buffer.{store, step_in_place, fetch}
use game_server_client.Buffer.Bounds.{IsValid, contents, direct_in_bounds}
use game_server_client.Buffer.Enqueue.{enqueue_refines}
use game_server_client.Buffer.Dequeue.{dequeue_refines}
use game_server_client.Buffer.Cipher.{IsBytes}
use game_server_client.Buffer.Seal.{sealed_packet_opens}

-- Three bytes of six are held: 1 and 2 at the end, 3 at the start.
abbrev wrapped : SerialRingBuffer
wrapped = record {
  mem = 0 ∷ 0 ∷ 0 ∷ 0 ∷ 0 ∷ 3 ∷ 0 ∷ 0 ∷ 0 ∷ 0 ∷ 1 ∷ 2 ∷ [];
  front = 10;
  rear = 6;
  buffer_total_size = 6;
  header_flag = 0;
  encode_flag = 0;
}

wrapped-IsValid : IsValid wrapped
wrapped-IsValid = record {
  storage = refl;
  front_lo = omega arith;
  front_hi = omega arith;
  rear_lo = omega arith;
  rear_hi = omega arith;
}

-- A packet of two bytes.
abbrev packet : SerialRingBuffer
packet = record {
  mem = 0 ∷ 0 ∷ 0 ∷ 0 ∷ 0 ∷ 200 ∷ 100 ∷ 0 ∷ 0 ∷ 0 ∷ 0 ∷ 0 ∷ [];
  front = 5;
  rear = 7;
  buffer_total_size = 6;
  header_flag = 0;
  encode_flag = 0;
}

packet-IsValid : IsValid packet
packet-IsValid = record {
  storage = refl;
  front_lo = omega arith;
  front_hi = omega arith;
  rear_lo = omega arith;
  rear_hi = omega arith;
}

-- Bytes, as a computed test and as a property.
AllBytes : List ℕ → Type 0
AllBytes [] = ◌≡◌ {A = ℕ} 0 0
AllBytes (x ∷ xs) = (x < 256) × AllBytes xs

all_bytes : (xs : List ℕ) → AllBytes xs → IsBytes xs
unfolding AllBytes
all_bytes [] h i = omega arith
all_bytes (x ∷ xs) h zero = h.0
all_bytes (x ∷ xs) h (suc i) = all_bytes xs h.1 i

packet-IsBytes : IsBytes packet.mem
unfolding AllBytes
packet-IsBytes = all_bytes packet.mem (
  omega arith,
  (
    omega arith,
    (
      omega arith,
      (
        omega arith,
        (
          omega arith,
          (
            omega arith,
            (
              omega arith,
              (omega arith, (omega arith, (omega arith, (omega arith, (omega arith, refl))))),
            ),
          ),
        ),
      ),
    ),
  ),
)

enqueue_test :
    enqueue (create 12) (7 ∷ 8 ∷ 9 ∷ []) 2
    ≡ (record (create 12) { mem = 0 ∷ 0 ∷ 0 ∷ 0 ∷ 0 ∷ 7 ∷ 8 ∷ 0 ∷ 0 ∷ 0 ∷ 0 ∷ 0 ∷ []; rear = 7 }, 2)
unfolding enqueue create get_free_size store direct_enqueue_size write_at step_in_place
enqueue_test = refl

dequeue_test : (dequeue wrapped 5).1 ≡ 1 ∷ 2 ∷ 3 ∷ []
unfolding dequeue get_use_size direct_dequeue_size fetch read_at
dequeue_test = refl

enqueue_refines_example :
    let (r', n) = enqueue wrapped (4 ∷ 5 ∷ 6 ∷ 7 ∷ []) 4 in
    IsValid r'
    × (n ≡ min 4 (get_free_size wrapped))
    × (contents r' ≡ contents wrapped ++ take (min 4 (get_free_size wrapped)) (4 ∷ 5 ∷ 6 ∷ 7 ∷ []))
enqueue_refines_example =
    enqueue_refines wrapped (4 ∷ 5 ∷ 6 ∷ 7 ∷ []) 4 wrapped-IsValid (omega arith)

dequeue_refines_example :
    let (r', out) = dequeue wrapped 5 in
    IsValid r'
    × (length out ≡ min 5 (get_use_size wrapped))
    × (out ++ contents r' ≡ contents wrapped)
dequeue_refines_example = dequeue_refines wrapped 5 wrapped-IsValid

direct_in_bounds_example :
    (wrapped.rear + direct_enqueue_size wrapped ≤ length wrapped.mem)
    × (direct_enqueue_size wrapped ≤ get_free_size wrapped)
    × (wrapped.front + direct_dequeue_size wrapped ≤ length wrapped.mem)
    × (direct_dequeue_size wrapped ≤ get_use_size wrapped)
direct_in_bounds_example = direct_in_bounds wrapped wrapped-IsValid

sealed_packet_opens_example :
    let (r', ok) = decode 50 (encode 50 (set_wan_header packet (network_header 119 41 packet))) in
    (ok ≡ true) × (contents r' ≡ contents packet)
unfolding get_use_size
sealed_packet_opens_example =
    sealed_packet_opens 50 119 41 packet packet-IsValid packet-IsBytes (omega arith) (omega arith)
      refl refl
