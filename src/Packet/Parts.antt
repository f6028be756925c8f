-- ===== src/Packet/Parts.antt =====
-- Messages of values and texts: what a chain of `<<` and PutData writes, a chain of `>>` and
-- GetData reads (SerialRingBuffer.cpp).
use game_server_client.Base.{
  ℕ, ◌+◌, ◌-◌, ◌≤◌, ◌<◌, ◌≡◌, refl, List, [], ◌∷◌, ◌++◌, arith, length, ap, ◌∙◌, sym, take,
  length-append, append_assoc, append-nil, some, dec_le, le→leb, lt→leb_false,
}
use game_server_client.Buffer.{SerialRingBuffer, enqueue, move_rear, get_free_size}
use game_server_client.Buffer.Bounds.{IsValid, contents, length-contents, use-add-free}
use game_server_client.Buffer.Enqueue.{total-enqueue}
use game_server_client.Packet.{
  Field, Part, number, text, Shape, number_of, text_of, put, get, put_text, put_parts, get_parts,
  le_bytes, width,
}
use game_server_client.Packet.Fields.{Fits, put_lem, get_lem}
use game_server_client.Packet.Texts.{NoNul, take-NoNul, put_text_lem, get_text_lem}
use mathlib.Core.Path.{subst}

-- The room that a message takes.
unfoldable pub total_size : List Part → ℕ
total_size [] = 0
total_size (number k v ∷ ps) = width k + total_size ps
total_size (text cs size ∷ ps) = size + total_size ps

-- Values that fit their types, and texts of C with room for a terminator.
abbrev pub AreSendable : List Part → Type 0
AreSendable [] = Unit {0}
AreSendable (number k v ∷ ps) = Fits (k, v) × AreSendable ps
AreSendable (text cs size ∷ ps) = NoNul cs × (0 < size) × AreSendable ps

abbrev pub shapes : List Part → List Shape
shapes [] = []
shapes (number k v ∷ ps) = number_of k ∷ shapes ps
shapes (text cs size ∷ ps) = text_of size ∷ shapes ps

-- What arrives: each text cut to its size less one.
abbrev pub received : List Part → List Part
received [] = []
received (number k v ∷ ps) = number k v ∷ received ps
received (text cs size ∷ ps) = text (take (size - 1) cs) size ∷ received ps

-- The bytes are those of the message, with any bytes behind the terminator of a text.
unfoldable pub Encodes : List Part → List ℕ → Type 0
Encodes [] bs = bs ≡ []
Encodes (number k v ∷ ps) bs =
    (rest : List ℕ) × (bs ≡ le_bytes (width k) v ++ rest) × Encodes ps rest
Encodes (text cs size ∷ ps) bs =
    (more rest : List ℕ) × (length (take (size - 1) cs ++ 0 ∷ more) ≡ size)
    × (bs ≡ (take (size - 1) cs ++ 0 ∷ more) ++ rest)
    × Encodes ps rest

total-move_rear :
    (r : SerialRingBuffer) (n : ℕ) → (move_rear r n).buffer_total_size ≡ r.buffer_total_size
unfolding move_rear
total-move_rear r n = ground arith

total-put_text :
    (r : SerialRingBuffer) (cs : List ℕ) (size : ℕ)
    → (put_text r cs size).buffer_total_size ≡ r.buffer_total_size
unfolding put_text
total-put_text r cs size =
    let n : ℕ = length cs in
    let r1 : SerialRingBuffer = (enqueue r cs n).0 in
    let cut : SerialRingBuffer = (enqueue r cs (size - 1)).0 in
    elim (dec_le size n) [
      | yes h ↦ rw (le→leb size n h) (total-enqueue cut (0 ∷ []) 1 ∙ total-enqueue r cs (size - 1))
      | no h ↦ rw (lt→leb_false size n (omega arith)) (
          total-move_rear (enqueue r1 (0 ∷ []) 1).0 (size - n - 1)
          ∙ total-enqueue r1 (0 ∷ []) 1
          ∙ total-enqueue r cs n)
    ]

free-put_text :
    (r : SerialRingBuffer) (cs : List ℕ) (size : ℕ)
    → IsValid r
    → 0 < size
    → size ≤ get_free_size r
    → get_free_size (put_text r cs size) + size ≡ get_free_size r
free-put_text r cs size v pos fits =
    let (i, more, n, c) = put_text_lem r cs size v pos fits in
    omega (
      arith,
      n,
      ap length c,
      length-append (contents r) (take (size - 1) cs ++ 0 ∷ more),
      length-contents r v,
      length-contents (put_text r cs size) i,
      use-add-free r v,
      use-add-free (put_text r cs size) i,
      total-put_text r cs size,
    )

put_parts_lem :
    (ps : List Part) (r : SerialRingBuffer)
    → IsValid r
    → AreSendable ps
    → total_size ps ≤ get_free_size r
    → IsValid (put_parts r ps)
      × (bs : List ℕ) × (contents (put_parts r ps) ≡ contents r ++ bs)
      × Encodes ps bs
unfolding put_parts Encodes total_size
put_parts_lem [] r v s h = (v, [], sym (append-nil (contents r)), refl)
put_parts_lem (number k n ∷ ps) r v s h =
    let (i, c, f) = put_lem r k n v (omega arith) in
    let (i', bs, c', e) = put_parts_lem ps (put r k n) i s.1 (omega (arith, f)) in
    (
      i',
      le_bytes (width k) n ++ bs,
      c' ∙ ap (λ x. x ++ bs) c ∙ append_assoc (contents r) (le_bytes (width k) n) bs,
      (bs, refl, e),
    )
put_parts_lem (text cs size ∷ ps) r v s h =
    let (i, more, n, c) = put_text_lem r cs size v s.1 (omega arith) in
    let f : get_free_size (put_text r cs size) + size ≡ get_free_size r =
      free-put_text r cs size v s.1 (omega arith) in
    let (i', bs, c', e) = put_parts_lem ps (put_text r cs size) i s.2 (omega (arith, f)) in
    let own : List ℕ = take (size - 1) cs ++ 0 ∷ more in
    (
      i',
      own ++ bs,
      c' ∙ ap (λ x. x ++ bs) c ∙ append_assoc (contents r) own bs,
      (more, bs, n, refl, e),
    )

get_parts_lem :
    (ps : List Part) (r : SerialRingBuffer)
    → IsValid r
    → AreSendable ps
    → Encodes ps (contents r)
    → (r' : SerialRingBuffer) × (get_parts r (shapes ps) ≡ some (r', received ps))
      × (contents r' ≡ [])
unfolding get_parts Encodes
get_parts_lem [] r v s e = (r, refl, e)
get_parts_lem (number k n ∷ ps) r v s (rest, c, e) =
    let (i, left, got) = get_lem r k n 0 rest v s.0 c in
    let (r', all, done) = get_parts_lem ps (get r k 0).0 i s.1 (subst (Encodes ps) (sym left) e) in
    (r', rw (all, got) refl, done)
get_parts_lem (text cs size ∷ ps) r v s (more, rest, n, c, e) =
    let (r1, got, i, left) =
      get_text_lem r (take (size - 1) cs) more rest [] size v (take-NoNul (size - 1) cs s.0) s.1
        (sym n) c in
    let (r', all, done) = get_parts_lem ps r1 i s.2 (subst (Encodes ps) (sym left) e) in
    (r', rw (got, all) refl, done)

-- Reading the beginning of a message leaves the rest.
pub get_parts_prefix :
    (ps qs : List Part) (r : SerialRingBuffer)
    → IsValid r
    → AreSendable ps
    → Encodes (ps ++ qs) (contents r)
    → (r' : SerialRingBuffer) × (get_parts r (shapes ps) ≡ some (r', received ps))
      × IsValid r'
      × Encodes qs (contents r')
unfolding get_parts Encodes
get_parts_prefix [] qs r v s e = (r, refl, v, e)
get_parts_prefix (number k n ∷ ps) qs r v s (rest, c, e) =
    let (i, left, got) = get_lem r k n 0 rest v s.0 c in
    let (r', all, v', done) =
      get_parts_prefix ps qs (get r k 0).0 i s.1 (subst (Encodes (ps ++ qs)) (sym left) e) in
    (r', rw (all, got) refl, v', done)
get_parts_prefix (text cs size ∷ ps) qs r v s (more, rest, n, c, e) =
    let (r1, got, i, left) =
      get_text_lem r (take (size - 1) cs) more rest [] size v (take-NoNul (size - 1) cs s.0) s.1
        (sym n) c in
    let (r', all, v', done) =
      get_parts_prefix ps qs r1 i s.2 (subst (Encodes (ps ++ qs)) (sym left) e) in
    (r', rw (got, all) refl, v', done)

pub get_number :
    (k : Field) (n : ℕ) (qs : List Part) (r : SerialRingBuffer)
    → IsValid r
    → Fits (k, n)
    → Encodes (number k n ∷ qs) (contents r)
    → IsValid (get r k 0).0 × ((get r k 0).1 ≡ n) × Encodes qs (contents (get r k 0).0)
unfolding Encodes
get_number k n qs r v fit (rest, c, e) =
    let (i, left, got) = get_lem r k n 0 rest v fit c in (i, got, subst (Encodes qs) (sym left) e)

-- The bytes of a message in a packet that was empty.
pub put_parts-Encodes :
    (ps : List Part) (r : SerialRingBuffer)
    → IsValid r
    → contents r ≡ []
    → AreSendable ps
    → total_size ps ≤ get_free_size r
    → IsValid (put_parts r ps) × Encodes ps (contents (put_parts r ps))
put_parts-Encodes ps r v empty s h =
    let (i, bs, c, e) = put_parts_lem ps r v s h in
    (i, subst (Encodes ps) (sym (c ∙ ap (λ x. x ++ bs) empty)) e)

-- A message that is put into an empty packet with room for it is read back, by the same sequence
-- of types and sizes, as it was put in, but for texts that are cut to their size less one; nothing
-- is left in the packet. It holds for values that fit their types and texts without terminators,
-- of sizes that are not 0.
pub get_parts-put_parts :
    (ps : List Part) (r : SerialRingBuffer)
    → IsValid r
    → contents r ≡ []
    → AreSendable ps
    → total_size ps ≤ get_free_size r
    → (r' : SerialRingBuffer) × (get_parts (put_parts r ps) (shapes ps) ≡ some (r', received ps))
      × (contents r' ≡ [])
get_parts-put_parts ps r v empty s h =
    let (i, e) = put_parts-Encodes ps r v empty s h in get_parts_lem ps (put_parts r ps) i s e
