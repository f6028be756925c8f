-- ===== src/Buffer/Enqueue.antt =====
-- What `enqueue` of SerialRingBuffer.cpp does to the bytes held.
use game_server_client.Base.{
  take_all, length-append, ℕ, dec_lt, ◌+◌, ◌≤◌, ◌<◌, ◌≡◌, refl, List, ◌++◌, arith, length, min,
  length-take, ap, ◌∙◌, take, sym, append-nil,
}
use game_server_client.Buffer.{SerialRingBuffer, get_free_size, enqueue, store}
use game_server_client.Buffer.Bounds.{use-add-free, length-contents, IsValid, contents}
use game_server_client.Buffer.Store.{store-IsValid, contents-store}

module _ (r : SerialRingBuffer) (src : List ℕ) (size : ℕ) where
  enqueue_none : min size (get_free_size r) ≡ 0 → enqueue r src size ≡ (r, 0)
  unfolding enqueue
  enqueue_none h = ground arith

  enqueue_some :
      0 < min size (get_free_size r)
      → enqueue r src size ≡ (store r src (min size (get_free_size r)), min size (get_free_size r))
  unfolding enqueue
  enqueue_some h = ground arith

-- On a valid ring `enqueue` of `size` given bytes takes as many as are free, returns their number,
-- puts exactly those behind the bytes held, and leaves the ring valid.
pub enqueue_refines :
    (r : SerialRingBuffer) (src : List ℕ) (size : ℕ)
    → IsValid r
    → size ≤ length src
    → let (r', n) = enqueue r src size in
      IsValid r'
      × (n ≡ min size (get_free_size r))
      × (contents r' ≡ contents r ++ take (min size (get_free_size r)) src)
enqueue_refines r src size v h = elim (dec_lt 0 (min size (get_free_size r))) [
  | no e ↦
      let z : min size (get_free_size r) ≡ 0 = omega arith in
      rw (enqueue_none r src size z, z) (v, refl, sym (append-nil (contents r)))
  | yes p ↦ rw (enqueue_some r src size p) (
    store-IsValid r src _ v p (omega arith) (omega arith),
    refl,
    contents-store r src _ v p (omega arith) (omega arith),
  )
]

pub total-enqueue :
    (r : SerialRingBuffer) (src : List ℕ) (size : ℕ)
    → (enqueue r src size).0.buffer_total_size ≡ r.buffer_total_size
unfolding enqueue store
total-enqueue r src size = ground arith

-- On a ring with room for the `size` bytes.
pub enqueue_fit :
    (r : SerialRingBuffer) (src : List ℕ) (size : ℕ)
    → IsValid r
    → size ≤ length src
    → size ≤ get_free_size r
    → let r' = (enqueue r src size).0 in
      IsValid r'
      × (contents r' ≡ contents r ++ take size src)
      × (get_free_size r' + size ≡ get_free_size r)
enqueue_fit r src size v e fits =
    let r' : SerialRingBuffer = (enqueue r src size).0 in
    let (i, n, c) = enqueue_refines r src size v e in
    let all : min size (get_free_size r) ≡ size = omega arith in
    let held : contents r' ≡ contents r ++ take size src =
      c ∙ ap (λ n. contents r ++ take n src) all in
    (
      i,
      held,
      omega (
        arith,
        total-enqueue r src size,
        use-add-free r v,
        use-add-free r' i,
        length-contents r v,
        length-contents r' i,
        ap length held,
        length-append (contents r) (take size src),
        length-take size src,
      ),
    )

pub enqueue_all :
    (r : SerialRingBuffer) (src : List ℕ) (size : ℕ)
    → IsValid r
    → size ≡ length src
    → size ≤ get_free_size r
    → let r' = (enqueue r src size).0 in
      IsValid r' × (contents r' ≡ contents r ++ src) × (get_free_size r' + size ≡ get_free_size r)
enqueue_all r src size v e fits =
    let (i, c, f) = enqueue_fit r src size v (omega arith) fits in
    (i, c ∙ ap (◌++◌ (contents r)) (take_all size src (omega arith)), f)
