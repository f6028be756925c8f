-- ===== src/Buffer/Bounds.antt =====
-- The representation invariant of the ring of SerialRingBuffer.cpp, the bytes that a ring holds,
-- and the sizes that it reports.
use game_server_client.Base.{
  ℕ, ◌+◌, ◌-◌, ◌≤◌, ◌<◌, ◌≡◌, refl, List, [], ◌++◌, arith, leb, if◌then◌else◌, length,
  length-append, length-replicate,
}
use game_server_client.Base.Memory.{read_at, length-read_at}
use game_server_client.Buffer.{
  SerialRingBuffer, create, end_of, header_size, get_use_size, get_free_size, get_buffer_size,
  direct_enqueue_size, direct_dequeue_size, clear,
}

-- Both pointers stand on cells of the ring, and the allocation is header, ring and no more.
pub record IsValid (r : SerialRingBuffer) : Type 0 where
  pub storage : length r.mem ≡ r.buffer_total_size + 6
  pub front_lo : 5 ≤ r.front
  pub front_hi : r.front < r.buffer_total_size + 6
  pub rear_lo : 5 ≤ r.rear
  pub rear_hi : r.rear < r.buffer_total_size + 6

-- The bytes held, oldest first.
unfoldable pub contents : SerialRingBuffer → List ℕ
contents r =
    if leb r.front r.rear
    then read_at r.mem r.front (r.rear - r.front)
    else read_at r.mem r.front (end_of r - r.front)
      ++ read_at r.mem header_size (r.rear - header_size)

module _ (r : SerialRingBuffer) where
  pub contents_straight : r.front ≤ r.rear → contents r ≡ read_at r.mem r.front (r.rear - r.front)
  unfolding contents
  contents_straight h = ground arith

  pub contents_wrapped :
      r.rear < r.front
      → contents r
        ≡ read_at r.mem r.front (end_of r - r.front)
          ++ read_at r.mem header_size (r.rear - header_size)
  unfolding contents
  contents_wrapped h = ground arith

  -- `GetUseSize` of a valid ring is the number of bytes that it holds.
  pub length-contents : IsValid r → length (contents r) ≡ get_use_size r
  unfolding contents get_use_size
  length-contents v = ground (
    arith,
    length-read_at r.mem r.front (r.rear - r.front),
    length-append (read_at r.mem r.front (end_of r - r.front))
        (read_at r.mem header_size (r.rear - header_size)),
    length-read_at r.mem r.front (end_of r - r.front),
    length-read_at r.mem header_size (r.rear - header_size),
  )

  -- `GetUseSize` and `GetFreeSize` of a valid ring make up `BufferTotalSize`, and the allocation
  -- has `GetBufferSize` bytes.
  pub use-add-free :
      IsValid r
      → (get_use_size r + get_free_size r ≡ r.buffer_total_size)
        × (get_buffer_size r ≡ length r.mem)
  unfolding get_use_size get_free_size get_buffer_size
  use-add-free v = ground arith

  -- The run that `DirectEnqueueSize` reports lies in the allocation behind `Rear` and holds no
  -- more than the free bytes; the run of `DirectDequeueSize` lies in it behind `Front` and holds no
  -- more than the used bytes.
  pub direct_in_bounds :
      IsValid r
      → (r.rear + direct_enqueue_size r ≤ length r.mem)
        × (direct_enqueue_size r ≤ get_free_size r)
        × (r.front + direct_dequeue_size r ≤ length r.mem)
        × (direct_dequeue_size r ≤ get_use_size r)
  unfolding get_use_size get_free_size direct_enqueue_size direct_dequeue_size
  direct_in_bounds v = ground arith

  pub clear-IsValid : IsValid r → IsValid (clear r)
  unfolding clear
  clear-IsValid v = ground arith

  pub contents-clear : contents (clear r) ≡ []
  unfolding contents clear read_at
  contents-clear = refl

-- A ring of at least seven bytes is valid and empty, with six fewer bytes of room.
pub create-IsValid :
    (size : ℕ)
    → 7 ≤ size
    → IsValid (create size)
      × (contents (create size) ≡ [])
      × (get_free_size (create size) ≡ size - 6)
unfolding create contents get_free_size read_at
create-IsValid size h = (ground (arith, length-replicate {A = ℕ} size 0), refl, ground arith)
