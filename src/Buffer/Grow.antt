-- ===== src/Buffer/Grow.antt =====
-- What `MoveRear` of SerialRingBuffer.cpp does to the bytes held.
use game_server_client.Base.{
  [], length-append, ℕ, dec_le, dec_lt, ◌+◌, ◌-◌, ◌≤◌, ◌<◌, ◌≡◌, refl, List, ◌++◌, arith, length,
  ap, ◌∙◌, sym, append_assoc, append-nil, ap₂,
}
use game_server_client.Base.Memory.{cut_run, length-read_at, read_at}
use game_server_client.Buffer.{
  SerialRingBuffer, end_of, header_size, get_free_size, direct_enqueue_size, enqueue, store,
  step_in_place, move_rear,
}
use game_server_client.Buffer.Bounds.{IsValid, contents, contents_straight, contents_wrapped}

-- `MoveRear` moves `Rear` as `enqueue` of that many bytes does, and writes nothing.
pub move_rear_follows :
    (r : SerialRingBuffer) (src : List ℕ) (size : ℕ)
    → IsValid r
    → size ≤ get_free_size r
    → ((move_rear r size).rear ≡ (enqueue r src size).0.rear)
      × ((move_rear r size).front ≡ r.front)
      × ((move_rear r size).mem ≡ r.mem)
      × IsValid (move_rear r size)
unfolding move_rear enqueue store step_in_place direct_enqueue_size get_free_size
move_rear_follows r src size v h = ground arith

module _ (r : SerialRingBuffer) (n : ℕ) (v : IsValid r) (pos : 0 < n)
    (fits : n ≤ get_free_size r) where
  abbrev Grown : Type 0
  Grown = (more : List ℕ) × (length more ≡ n) × (contents (move_rear r n) ≡ contents r ++ more)

  grown_straight :
      (to : ℕ)
      → r.front ≤ r.rear
      → move_rear r n ≡ record r { rear = to }
      → r.front ≤ to
      → to ≡ r.rear + n
      → Grown
  grown_straight to h e k t =
      let after : SerialRingBuffer = record r { rear = to } in
      let size : to - r.rear ≡ n = omega arith in
      (
        read_at r.mem r.rear (to - r.rear),
        length-read_at r.mem r.rear (to - r.rear) ∙ size,
        ap contents e
            ∙ contents_straight after k
            ∙ sym (cut_run r.mem r.front r.rear to h (omega arith))
            ∙ ap (λ c. c ++ read_at r.mem r.rear (to - r.rear)) (sym (contents_straight r h)),
      )

  grown_round :
      (to : ℕ)
      → r.front ≤ r.rear
      → move_rear r n ≡ record r { rear = to }
      → to < r.front
      → header_size ≤ to
      → to + (end_of r - r.rear) ≡ header_size + n
      → Grown
  grown_round to h e k low t =
      let after : SerialRingBuffer = record r { rear = to } in
      let one : List ℕ = read_at r.mem r.rear (end_of r - r.rear) in
      let two : List ℕ = read_at r.mem header_size (to - header_size) in
      let old : List ℕ = read_at r.mem r.front (r.rear - r.front) in
      (
        one ++ two,
        length-append one two
            ∙ ap₂ ◌+◌ (length-read_at r.mem r.rear (end_of r - r.rear))
                (length-read_at r.mem header_size (to - header_size))
            ∙ omega (arith, v.rear_hi),
        ap contents e
            ∙ contents_wrapped after k
            ∙ ap (λ c. c ++ two)
                (sym (cut_run r.mem r.front r.rear (end_of r) h (omega (arith, v.rear_hi))))
            ∙ append_assoc old one two
            ∙ ap (λ c. c ++ (one ++ two)) (sym (contents_straight r h)),
      )

  grown_behind :
      r.rear < r.front
      → move_rear r n ≡ record r { rear = r.rear + n }
      → r.rear + n < r.front
      → Grown
  grown_behind h e k =
      let after : SerialRingBuffer = record r { rear = r.rear + n } in
      let high : List ℕ = read_at r.mem r.front (end_of r - r.front) in
      let low : List ℕ = read_at r.mem header_size (r.rear - header_size) in
      let more : List ℕ = read_at r.mem r.rear (r.rear + n - r.rear) in
      let size : r.rear + n - r.rear ≡ n = omega arith in
      (
        more,
        length-read_at r.mem r.rear (r.rear + n - r.rear) ∙ size,
        ap contents e
            ∙ contents_wrapped after k
            ∙ ap (◌++◌ high)
                (sym (cut_run r.mem header_size r.rear (r.rear + n) v.rear_lo (omega arith)))
            ∙ sym (append_assoc high low more)
            ∙ ap (λ c. c ++ more) (sym (contents_wrapped r h)),
      )

  -- `MoveRear` puts `n` bytes, whatever the cells hold, behind those held.
  grown : Grown
  unfolding move_rear step_in_place direct_enqueue_size get_free_size
  grown = elim (dec_le r.front r.rear) [
    | no h ↦ grown_behind (omega arith) (ground arith) (ground arith)
    | yes h ↦ elim (dec_lt (r.rear + n) (end_of r)) [
      | yes k ↦ grown_straight (r.rear + n) h (ground arith) (omega arith) refl
      | no k ↦
          grown_round (header_size + (r.rear + n - end_of r)) h (ground arith) (ground arith)
            (omega arith) (omega (arith, v.rear_hi))
    ]
  ]

-- `MoveRear` over free cells puts that many bytes behind those held, and they are what the cells
-- hold.
pub contents-move_rear :
    (r : SerialRingBuffer) (n : ℕ)
    → IsValid r
    → n ≤ get_free_size r
    → (more : List ℕ) × (length more ≡ n) × (contents (move_rear r n) ≡ contents r ++ more)
contents-move_rear r n v fits = elim (dec_lt 0 n) [
  | yes pos ↦ grown r n v pos fits
  | no zero_n ↦
      let z : n ≡ 0 = omega arith in
      let still : move_rear r n ≡ r = unfold move_rear in ground arith in
      ([], sym z, ap contents still ∙ sym (append-nil (contents r)))
]
