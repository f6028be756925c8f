-- ===== src/Buffer/Store.antt =====
-- The copy of `enqueue` (SerialRingBuffer.cpp) in one piece or two, once the count is known.
use game_server_client.Base.{
  ℕ, dec_le, dec_lt, ◌+◌, ◌-◌, ◌≤◌, ◌<◌, ◌≡◌, List, ◌++◌, arith, length, length-take, length-drop,
  inl, ap, ◌∙◌, take, drop, sym, append_assoc, append-nil, length-drop, take_split, ap₂,
}
use game_server_client.Base.Memory.{
  read_at, write_at, length-write_at, read_at-add, read_at-write_at_self, read_at-write_at_apart,
}
use game_server_client.Buffer.{
  SerialRingBuffer, end_of, header_size, get_free_size, direct_enqueue_size, store, step_in_place,
}
use game_server_client.Buffer.Bounds.{IsValid, contents, contents_straight, contents_wrapped}

-- A run, and the run that a later write puts right behind it.
extend_run :
    (mem bs : List ℕ) (pos m n : ℕ)
    → n ≡ length bs
    → pos + m + n ≤ length mem
    → read_at (write_at mem (pos + m) bs) pos (m + n) ≡ read_at mem pos m ++ bs
extend_run mem bs pos m n e h =
    read_at-add (write_at mem (pos + m) bs) pos m n
    ∙ ap₂ ◌++◌ (read_at-write_at_apart mem bs (pos + m) pos m (omega arith))
        (read_at-write_at_self mem bs (pos + m) n e h)

-- The same between two offsets.
extend_to :
    (mem bs : List ℕ) (lo hi n : ℕ)
    → lo ≤ hi
    → n ≡ length bs
    → hi + n ≤ length mem
    → read_at (write_at mem hi bs) lo (hi + n - lo) ≡ read_at mem lo (hi - lo) ++ bs
extend_to mem bs lo hi n h e k =
    let split : hi + n - lo ≡ hi - lo + n = omega arith in
    let from : hi ≡ lo + (hi - lo) = omega arith in
    rw split (
      ap (λ p. read_at (write_at mem p bs) lo (hi - lo + n)) from
      ∙ extend_run mem bs lo (hi - lo) n e (omega arith))

module _ (r : SerialRingBuffer) (src : List ℕ) (n : ℕ) (v : IsValid r) (pos : 0 < n)
    (fits : n ≤ get_free_size r) (given : n ≤ length src) where
  len : length (take n src) ≡ n
  len = omega (arith, length-take n src)

  pub store-IsValid : IsValid (store r src n)
  unfolding store step_in_place direct_enqueue_size get_free_size
  store-IsValid = ground (
    arith,
    length-write_at r.mem r.rear (take n src),
    length-write_at r.mem r.rear (take (direct_enqueue_size r) src),
    length-write_at (write_at r.mem r.rear (take (direct_enqueue_size r) src)) header_size
        (take (n - direct_enqueue_size r) (drop (direct_enqueue_size r) src)),
  )

  -- The three ways in which `store` leaves the ring.
  stored_on :
      n ≤ direct_enqueue_size r
      → r.rear + n < end_of r
      → store r src n ≡ record r { mem = write_at r.mem r.rear (take n src); rear = r.rear + n }
  unfolding store step_in_place
  stored_on h k = ground arith

  stored_to_end :
      n ≤ direct_enqueue_size r
      → r.rear + n ≡ end_of r
      → store r src n ≡ record r { mem = write_at r.mem r.rear (take n src); rear = header_size }
  unfolding store step_in_place
  stored_to_end h k = ground arith

  stored_split :
      direct_enqueue_size r < n
      → store r src n ≡ record r {
        mem =
            write_at
              (write_at r.mem r.rear (take (direct_enqueue_size r) src))
              header_size
              (take (n - direct_enqueue_size r) (drop (direct_enqueue_size r) src));
        rear = header_size + n - direct_enqueue_size r;
      }
  unfolding store
  stored_split h = ground arith

  straight_on :
      r.front ≤ r.rear
      → n ≤ direct_enqueue_size r
      → r.rear + n < end_of r
      → contents (store r src n) ≡ contents r ++ take n src
  straight_on h d k =
      let after : SerialRingBuffer = record r {
        mem = write_at r.mem r.rear (take n src);
        rear = r.rear + n;
      } in
      ap contents (stored_on d k)
      ∙ contents_straight after (omega arith)
      ∙ extend_to r.mem (take n src) r.front r.rear n h (sym len) (omega (arith, v.storage))
      ∙ ap (λ c. c ++ take n src) (sym (contents_straight r h))

  straight_to_end :
      r.front ≤ r.rear
      → n ≤ direct_enqueue_size r
      → r.rear + n ≡ end_of r
      → header_size < r.front
      → contents (store r src n) ≡ contents r ++ take n src
  unfolding read_at
  straight_to_end h d k past =
      let after : SerialRingBuffer = record r {
        mem = write_at r.mem r.rear (take n src);
        rear = header_size;
      } in
      ap contents (stored_to_end d k)
      ∙ contents_wrapped after past
      ∙ append-nil (read_at after.mem r.front (end_of r - r.front))
      ∙ ap (λ e. read_at after.mem r.front (e - r.front)) (sym k)
      ∙ extend_to r.mem (take n src) r.front r.rear n h (sym len) (omega (arith, v.storage))
      ∙ ap (λ c. c ++ take n src) (sym (contents_straight r h))

  wrapped_on :
      r.rear < r.front
      → n ≤ direct_enqueue_size r
      → r.rear + n < r.front
      → contents (store r src n) ≡ contents r ++ take n src
  wrapped_on h d k =
      let bs : List ℕ = take n src in
      let after : SerialRingBuffer = record r {
        mem = write_at r.mem r.rear bs;
        rear = r.rear + n;
      } in
      let old : List ℕ = read_at r.mem r.front (end_of r - r.front) in
      ap contents (stored_on d (omega arith))
      ∙ contents_wrapped after k
      ∙ ap₂ ◌++◌
          (read_at-write_at_apart r.mem bs r.rear r.front (end_of r - r.front)
            (inl (omega (arith, len))))
          (extend_to r.mem bs header_size r.rear n v.rear_lo (sym len) (omega (arith, v.storage)))
      ∙ sym (append_assoc old (read_at r.mem header_size (r.rear - header_size)) bs)
      ∙ ap (λ c. c ++ bs) (sym (contents_wrapped r h))

  straight_split :
      r.front ≤ r.rear
      → direct_enqueue_size r < n
      → direct_enqueue_size r ≡ end_of r - r.rear
      → header_size + n - direct_enqueue_size r < r.front
      → contents (store r src n) ≡ contents r ++ take n src
  straight_split h d de k =
      let one : List ℕ = take (direct_enqueue_size r) src in
      let two : List ℕ = take (n - direct_enqueue_size r) (drop (direct_enqueue_size r) src) in
      let first : List ℕ = write_at r.mem r.rear one in
      let after : SerialRingBuffer = record r {
        mem = write_at first header_size two;
        rear = header_size + n - direct_enqueue_size r;
      } in
      let old : List ℕ = read_at r.mem r.front (r.rear - r.front) in
      let one_len : length one ≡ direct_enqueue_size r =
        omega (arith, length-take (direct_enqueue_size r) src) in
      let two_len : length two ≡ n - direct_enqueue_size r = omega (
        arith,
        length-take (n - direct_enqueue_size r) (drop (direct_enqueue_size r) src),
        length-drop (direct_enqueue_size r) src,
      ) in
      let room : length first ≡ length r.mem = length-write_at r.mem r.rear one in
      let whole : end_of r ≡ r.rear + direct_enqueue_size r = omega arith in
      ap contents (stored_split d)
      ∙ contents_wrapped after k
      ∙ ap₂ ◌++◌
          (read_at-write_at_apart first two header_size r.front (end_of r - r.front)
              (inl (omega arith))
            ∙ ap (λ e. read_at first r.front (e - r.front)) whole
            ∙ extend_to r.mem one r.front r.rear (direct_enqueue_size r) h (sym one_len)
                (omega (arith, v.storage)))
          (read_at-write_at_self first two header_size _ (omega arith) (omega (arith, v.storage)))
      ∙ append_assoc old one two
      ∙ ap (◌++◌ old) (sym (take_split (direct_enqueue_size r) n src (omega arith)))
      ∙ ap (λ c. c ++ take n src) (sym (contents_straight r h))

  -- Where the pointers can stand when `n` bytes fit.
  data Place : Type 0 where
    on : r.front ≤ r.rear → n ≤ direct_enqueue_size r → r.rear + n < end_of r → Place
    to_end :
        r.front ≤ r.rear
        → n ≤ direct_enqueue_size r
        → r.rear + n ≡ end_of r
        → header_size < r.front
        → Place
    behind : r.rear < r.front → n ≤ direct_enqueue_size r → r.rear + n < r.front → Place
    split :
        r.front ≤ r.rear
        → direct_enqueue_size r < n
        → direct_enqueue_size r ≡ end_of r - r.rear
        → header_size + n - direct_enqueue_size r < r.front
        → Place

  place : Place
  unfolding direct_enqueue_size get_free_size
  place = elim (dec_le r.front r.rear) [
    | no h ↦ behind (omega arith) (ground arith) (ground arith)
    | yes h ↦ elim (dec_le n (direct_enqueue_size r)) [
      | no d ↦ split h (omega arith) (ground arith) (ground arith)
      | yes d ↦ elim (dec_lt (r.rear + n) (end_of r)) [
        | yes k ↦ on h d k
        | no k ↦ to_end h d (ground arith) (ground arith)
      ]
    ]
  ]

  -- Whatever the place of the pointers, the bytes go behind those held.
  pub contents-store : contents (store r src n) ≡ contents r ++ take n src
  contents-store = elim place [
    | on h d k ↦ straight_on h d k
    | to_end h d k past ↦ straight_to_end h d k past
    | behind h d k ↦ wrapped_on h d k
    | split h d e k ↦ straight_split h d e k
  ]
