-- ===== src/Buffer/Dequeue.antt =====
-- What `dequeue`, `peek` and `MoveFront` of SerialRingBuffer.cpp do to the bytes held.
use game_server_client.Base.{
  append-cancel, ℕ, dec_le, dec_lt, ◌+◌, ◌-◌, ◌≤◌, ◌<◌, ◌≡◌, refl, List, [], ◌++◌, arith, length,
  min, length-append, ap, ◌∙◌, sym, append_assoc, append-nil, ap₂,
}
use game_server_client.Base.Memory.{read_at, length-read_at, cut_run}
use game_server_client.Buffer.{
  SerialRingBuffer, end_of, header_size, get_use_size, direct_dequeue_size, fetch, dequeue, peek,
  step_in_place, move_front,
}
use game_server_client.Buffer.Bounds.{
  length-contents, IsValid, contents, contents_straight, contents_wrapped,
}

module _ (r : SerialRingBuffer) (n : ℕ) (v : IsValid r) (pos : 0 < n)
    (held : n ≤ get_use_size r) where
  length-fetch : length (fetch r n) ≡ n
  unfolding fetch direct_dequeue_size get_use_size
  length-fetch = ground (
    arith,
    length-read_at r.mem r.front n,
    length-append (read_at r.mem r.front (direct_dequeue_size r))
        (read_at r.mem header_size (n - direct_dequeue_size r)),
    length-read_at r.mem r.front (direct_dequeue_size r),
    length-read_at r.mem header_size (n - direct_dequeue_size r),
  )

  move_front-IsValid : IsValid (move_front r n)
  unfolding move_front step_in_place direct_dequeue_size get_use_size
  move_front-IsValid = ground arith

  -- The three ways in which `Front` moves, with the bytes that are copied out.
  moved_straight :
      r.front ≤ r.rear
      → (move_front r n ≡ record r { front = r.front + n })
        × (fetch r n ≡ read_at r.mem r.front (r.front + n - r.front))
        × (r.front + n ≤ r.rear)
  unfolding move_front fetch step_in_place direct_dequeue_size get_use_size
  moved_straight h =
      let e : r.front + n - r.front ≡ n = omega arith in
      (ground arith, rw e (ground arith), ground arith)

  moved_on :
      r.rear < r.front
      → r.front + n < end_of r
      → (move_front r n ≡ record r { front = r.front + n })
        × (fetch r n ≡ read_at r.mem r.front (r.front + n - r.front))
  unfolding move_front fetch step_in_place direct_dequeue_size get_use_size
  moved_on h k =
      let e : r.front + n - r.front ≡ n = omega arith in (ground arith, rw e (ground arith))

  moved_round :
      r.rear < r.front
      → end_of r ≤ r.front + n
      → (move_front r n ≡ record r { front = header_size + (r.front + n - end_of r) })
        × (fetch r n
            ≡ read_at r.mem r.front (end_of r - r.front)
              ++ read_at r.mem header_size (header_size + (r.front + n - end_of r) - header_size))
        × (header_size + (r.front + n - end_of r) ≤ r.rear)
  unfolding move_front fetch step_in_place direct_dequeue_size get_use_size read_at
  moved_round h k = (ground arith, fetched, ground arith)
    where
      over : header_size + (r.front + n - end_of r) - header_size ≡ n - (end_of r - r.front)
      over = omega arith

      fetched :
          fetch r n
          ≡ read_at r.mem r.front (end_of r - r.front)
            ++ read_at r.mem header_size (header_size + (r.front + n - end_of r) - header_size)
      fetched = rw over (elim (dec_le n (end_of r - r.front)) [
        | no past ↦ ground arith
        | yes even ↦
            let e : n ≡ end_of r - r.front = omega arith in
            let z : n - (end_of r - r.front) ≡ 0 = omega arith in
            rw z (rw (append-nil (read_at r.mem r.front (end_of r - r.front))) (ground arith))
      ])

  held_straight : r.front ≤ r.rear → fetch r n ++ contents (move_front r n) ≡ contents r
  held_straight h =
      let after : SerialRingBuffer = record r { front = r.front + n } in
      let (moved, got, room) = moved_straight h in
      ap₂ ◌++◌ got (ap contents moved ∙ contents_straight after room)
      ∙ cut_run r.mem r.front (r.front + n) r.rear (omega arith) room
      ∙ sym (contents_straight r h)

  held_on :
      r.rear < r.front
      → r.front + n < end_of r
      → fetch r n ++ contents (move_front r n) ≡ contents r
  held_on h k =
      let after : SerialRingBuffer = record r { front = r.front + n } in
      let low : List ℕ = read_at r.mem header_size (r.rear - header_size) in
      let (moved, got) = moved_on h k in
      ap₂ ◌++◌ got (ap contents moved ∙ contents_wrapped after (omega arith))
      ∙ sym (
          append_assoc (read_at r.mem r.front (r.front + n - r.front))
            (read_at r.mem (r.front + n) (end_of r - (r.front + n))) low)
      ∙ ap (λ c. c ++ low)
          (cut_run r.mem r.front (r.front + n) (end_of r) (omega arith) (omega arith))
      ∙ sym (contents_wrapped r h)

  held_round :
      r.rear < r.front
      → end_of r ≤ r.front + n
      → fetch r n ++ contents (move_front r n) ≡ contents r
  held_round h k =
      let to : ℕ = header_size + (r.front + n - end_of r) in
      let after : SerialRingBuffer = record r { front = to } in
      let high : List ℕ = read_at r.mem r.front (end_of r - r.front) in
      let (moved, got, room) = moved_round h k in
      ap₂ ◌++◌ got (ap contents moved ∙ contents_straight after room)
      ∙ append_assoc high (read_at r.mem header_size (to - header_size))
          (read_at r.mem to (r.rear - to))
      ∙ ap (◌++◌ high) (cut_run r.mem header_size to r.rear (omega arith) room)
      ∙ sym (contents_wrapped r h)

  contents-move_front : fetch r n ++ contents (move_front r n) ≡ contents r
  contents-move_front = elim (dec_le r.front r.rear) [
    | yes h ↦ held_straight h
    | no h ↦ elim (dec_lt (r.front + n) (end_of r)) [
      | yes k ↦ held_on (omega arith) k
      | no k ↦ held_round (omega arith) (omega arith)
    ]
  ]

module _ (r : SerialRingBuffer) (size : ℕ) where
  dequeue_none : min size (get_use_size r) ≡ 0 → dequeue r size ≡ (r, [])
  unfolding dequeue
  dequeue_none h = ground arith

  dequeue_some :
      0 < min size (get_use_size r)
      → dequeue r size
        ≡ (move_front r (min size (get_use_size r)), fetch r (min size (get_use_size r)))
  unfolding dequeue move_front
  dequeue_some h = ground arith

-- On a valid ring `dequeue` of `size` bytes copies out as many as are held and no more, the oldest
-- first; those and the bytes that stay are the bytes held before, and the ring stays valid.
pub dequeue_refines :
    (r : SerialRingBuffer) (size : ℕ)
    → IsValid r
    → let (r', out) = dequeue r size in
      IsValid r' × (length out ≡ min size (get_use_size r)) × (out ++ contents r' ≡ contents r)
dequeue_refines r size v = elim (dec_lt 0 (min size (get_use_size r))) [
  | no e ↦
      let z : min size (get_use_size r) ≡ 0 = omega arith in
      rw (dequeue_none r size z) (v, sym z, refl)
  | yes p ↦ rw (dequeue_some r size p) (
    move_front-IsValid r _ v p (omega arith),
    length-fetch r _ v p (omega arith),
    contents-move_front r _ v p (omega arith),
  )
]

-- `peek` copies out what `dequeue` would, and `MoveFront` by no more than is held leaves the ring
-- that `dequeue` would.
pub peek-move_front-dequeue :
    (r : SerialRingBuffer) (size : ℕ)
    → IsValid r
    → size ≤ get_use_size r
    → dequeue r size ≡ (move_front r size, peek r size)
unfolding dequeue peek move_front
peek-move_front-dequeue r size v h = ground arith

-- Asking for a run that stands at the front gives that run, and leaves what follows it.
pub dequeue_exact :
    (r : SerialRingBuffer) (size : ℕ) (bs rest : List ℕ)
    → IsValid r
    → size ≡ length bs
    → contents r ≡ bs ++ rest
    → IsValid (dequeue r size).0 × ((dequeue r size).1 ≡ bs) × (contents (dequeue r size).0 ≡ rest)
dequeue_exact r size bs rest v h e =
    let out : List ℕ = (dequeue r size).1 in
    let (i, n, c) = dequeue_refines r size v in
    let same : length out ≡ length bs =
      omega (arith, length-contents r v, ap length e, length-append bs rest) in
    let (got, left) = append-cancel out bs (contents (dequeue r size).0) rest same (c ∙ e) in
    (i, got, left)
