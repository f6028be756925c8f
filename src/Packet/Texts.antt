-- ===== src/Packet/Texts.antt =====
-- Texts of fixed size in a packet: PutData and GetData of CPacket (SerialRingBuffer.cpp).
use game_server_client.Base.{
  ℕ, zero, suc, ◌-◌, ◌≤◌, ◌<◌, ◌≡◌, ◌≢◌, refl, List, [], ◌∷◌, ◌++◌, arith, length, ap, ◌∙◌, sym,
  take, take_all, length-append, append_assoc, append-nil, length-take, some, dec_le,
}
use game_server_client.Buffer.{
  SerialRingBuffer, enqueue, dequeue, move_rear, get_use_size, get_free_size,
}
use game_server_client.Buffer.Bounds.{IsValid, contents, length-contents}
use game_server_client.Buffer.Dequeue.{dequeue_exact}
use game_server_client.Buffer.Enqueue.{enqueue_all, enqueue_fit}
use game_server_client.Buffer.Grow.{contents-move_rear, move_rear_follows}
use game_server_client.Packet.{put_text, get_text, until_nul}

-- A text of C: no byte of it is the terminator.
abbrev pub NoNul : List ℕ → Type 0
NoNul [] = Unit {0}
NoNul (c ∷ cs) = (c ≢ 0) × NoNul cs

until_nul_lem : (cs more : List ℕ) → NoNul cs → until_nul (cs ++ 0 ∷ more) ≡ some cs
unfolding until_nul
until_nul_lem [] more h = refl
until_nul_lem (c ∷ cs) more h = ground (arith, until_nul_lem cs more h.1)

pub take-NoNul : (n : ℕ) (cs : List ℕ) → NoNul cs → NoNul (take n cs)
take-NoNul zero cs h = tt
take-NoNul (suc n) [] h = tt
take-NoNul (suc n) (c ∷ cs) h = (h.0, take-NoNul n cs h.1)

module _ (r : SerialRingBuffer) (cs : List ℕ) (size : ℕ) (v : IsValid r) (pos : 0 < size)
    (fits : size ≤ get_free_size r) where
  -- The packet after a text: its bytes, a terminator, and enough others to fill the size.
  abbrev pub Written : Type 0
  Written =
      IsValid (put_text r cs size)
      × (more : List ℕ) × (length (take (size - 1) cs ++ 0 ∷ more) ≡ size)
      × (contents (put_text r cs size) ≡ contents r ++ (take (size - 1) cs ++ 0 ∷ more))

  written_long : size ≤ length cs → Written
  unfolding put_text
  written_long h =
      let r' : SerialRingBuffer = (enqueue r cs (size - 1)).0 in
      let e : put_text r cs size ≡ (enqueue r' (0 ∷ []) 1).0 = ground arith in
      let (i, c, f) = enqueue_fit r cs (size - 1) v (omega arith) (omega arith) in
      let (i', c', _) = enqueue_all r' (0 ∷ []) 1 i refl (omega arith) in
      rw e (
        i',
        [],
        omega (arith, length-append (take (size - 1) cs) (0 ∷ []), length-take (size - 1) cs),
        c' ∙ ap (λ c. c ++ 0 ∷ []) c ∙ append_assoc (contents r) (take (size - 1) cs) (0 ∷ []),
      )

  written_short : length cs < size → Written
  unfolding put_text
  written_short h =
      let r1 : SerialRingBuffer = (enqueue r cs (length cs)).0 in
      let r2 : SerialRingBuffer = (enqueue r1 (0 ∷ []) 1).0 in
      let gap : ℕ = size - length cs - 1 in
      let e : put_text r cs size ≡ move_rear r2 gap = ground arith in
      let all : take (size - 1) cs ≡ cs = take_all (size - 1) cs (omega arith) in
      let (i1, c1, f1) = enqueue_all r cs (length cs) v refl (omega arith) in
      let (i2, c2, f2) = enqueue_all r1 (0 ∷ []) 1 i1 refl (omega arith) in
      let (more, n, c3) = contents-move_rear r2 gap i2 (omega arith) in
      rw (e, all)
        (
          (move_rear_follows r2 cs gap i2 (omega arith)).3,
          more,
          omega (arith, length-append cs (0 ∷ more)),
          c3
              ∙ ap (λ c. c ++ more) (c2 ∙ ap (λ c. c ++ 0 ∷ []) c1)
              ∙ append_assoc (contents r ++ cs) (0 ∷ []) more
              ∙ append_assoc (contents r) cs (0 ∷ more),
        )

  -- `PutData` of a text that has room fills exactly `size` bytes: the text, cut to leave room for
  -- its terminator, the terminator, and bytes that no reader looks at.
  pub put_text_lem : Written
  put_text_lem = elim (dec_le size (length cs)) [
    | yes h ↦ written_long h
    | no h ↦ written_short (omega arith)
  ]

-- `GetData` of a text of `size` bytes from a packet that begins with such a text.
pub get_text_lem :
    (r : SerialRingBuffer) (cs more rest old : List ℕ) (size : ℕ)
    → IsValid r
    → NoNul cs
    → 0 < size
    → size ≡ length (cs ++ 0 ∷ more)
    → contents r ≡ (cs ++ 0 ∷ more) ++ rest
    → (r' : SerialRingBuffer) × (get_text r size old ≡ some (r', cs))
      × IsValid r'
      × (contents r' ≡ rest)
unfolding get_text
get_text_lem r cs more rest old size v h pos e c =
    let (i, got, left) = dequeue_exact r size (cs ++ 0 ∷ more) rest v e c in
    let used : 0 < get_use_size r =
      omega (arith, length-contents r v, ap length c, length-append (cs ++ 0 ∷ more) rest) in
    let text : until_nul (dequeue r size).1 ≡ some cs =
      ap until_nul got ∙ until_nul_lem cs more h in
    ((dequeue r size).0, ground (arith, text), i, left)

-- A text that is put into an empty packet as `size` bytes comes back whole if it is shorter than
-- `size`, and cut to `size - 1` bytes if it is not; nothing is left in the packet. It holds for a
-- text without terminators and a packet with that much room.
pub get_text-put_text :
    (r : SerialRingBuffer) (cs old : List ℕ) (size : ℕ)
    → IsValid r
    → contents r ≡ []
    → NoNul cs
    → 0 < size
    → size ≤ get_free_size r
    → (r' : SerialRingBuffer) × (get_text (put_text r cs size) size old
        ≡ some (r', take (size - 1) cs))
      × (contents r' ≡ [])
get_text-put_text r cs old size v e h pos fits =
    let (i, more, n, c) = put_text_lem r cs size v pos fits in
    let text : List ℕ = take (size - 1) cs ++ 0 ∷ more in
    let (r', got, _, left) =
      get_text_lem (put_text r cs size) (take (size - 1) cs) more [] old size i
        (take-NoNul (size - 1) cs h) pos (sym n)
        (c ∙ ap (λ c. c ++ text) e ∙ sym (append-nil text)) in
    (r', got, left)
