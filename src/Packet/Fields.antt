-- ===== src/Packet/Fields.antt =====
-- `<<` and `>>` of CPacket (SerialRingBuffer.cpp): what goes in comes out.
use game_server_client.Base.{
  drop_all, ap₂, ℕ, zero, suc, ◌+◌, ◌/◌, ◌^◌, ◌≤◌, ◌<◌, ◌≡◌, refl, List, [], ◌∷◌, ◌++◌, map, arith,
  length, ap, ap₂, ◌∙◌, sym, append_assoc, append-nil,
}
use native.Mathlib.Nat.{pow-suc}
use game_server_client.Buffer.{SerialRingBuffer, dequeue, get_free_size}
use game_server_client.Buffer.Bounds.{IsValid, contents}
use game_server_client.Buffer.Dequeue.{dequeue_exact}
use game_server_client.Buffer.Enqueue.{enqueue_all}
use game_server_client.Packet.{Field, width, le_bytes, of_bytes, put, get, put_all, get_all}

pub length-le_bytes : (w v : ℕ) → length (le_bytes w v) ≡ w
unfolding le_bytes
length-le_bytes zero v = refl
length-le_bytes (suc w) v = ap suc (length-le_bytes w (v / 256))

of_bytes-le_bytes : (w v : ℕ) → v < 256 ^ w → of_bytes (le_bytes w v) ≡ v
unfolding of_bytes le_bytes
of_bytes-le_bytes zero v h = omega arith
of_bytes-le_bytes (suc w) v h =
    omega (arith, pow-suc 256 w, of_bytes-le_bytes w (v / 256) (omega (arith, pow-suc 256 w)))

-- The value fits its type.
abbrev pub Fits : Field × ℕ → Type 0
Fits (k, v) = v < 256 ^ width k

-- The bytes of a chain of values, and their number.
unfoldable pub encoded : List (Field × ℕ) → List ℕ
encoded [] = []
encoded ((k, v) ∷ vs) = le_bytes (width k) v ++ encoded vs

unfoldable pub total_width : List (Field × ℕ) → ℕ
total_width [] = 0
total_width ((k, v) ∷ vs) = width k + total_width vs

-- `<<` on a ring with room puts the value's bytes behind those held.
pub put_lem :
    (r : SerialRingBuffer) (k : Field) (v : ℕ)
    → IsValid r
    → width k ≤ get_free_size r
    → IsValid (put r k v)
      × (contents (put r k v) ≡ contents r ++ le_bytes (width k) v)
      × (get_free_size (put r k v) + width k ≡ get_free_size r)
unfolding put
put_lem r k v i h =
    enqueue_all r (le_bytes (width k) v) (width k) i (sym (length-le_bytes (width k) v)) h

-- `>>` where the value's bytes are the oldest.
pub get_lem :
    (r : SerialRingBuffer) (k : Field) (v old : ℕ) (rest : List ℕ)
    → IsValid r
    → Fits (k, v)
    → contents r ≡ le_bytes (width k) v ++ rest
    → IsValid (get r k old).0 × (contents (get r k old).0 ≡ rest) × ((get r k old).1 ≡ v)
unfolding get
get_lem r k v old rest i fit e =
    let out : List ℕ = (dequeue r (width k)).1 in
    let spare : List ℕ = le_bytes (width k) old in
    let (i', got, left) =
      dequeue_exact r (width k) (le_bytes (width k) v) rest i (sym (length-le_bytes (width k) v))
        e in
    let whole : length out ≡ length spare =
      ap length got ∙ length-le_bytes (width k) v ∙ sym (length-le_bytes (width k) old) in
    (
      i',
      left,
      ap of_bytes (ap₂ ◌++◌ got (drop_all (length out) spare (omega arith)) ∙ append-nil _)
          ∙ of_bytes-le_bytes (width k) v fit,
    )

-- A chain of `<<` that fits puts the bytes of the values behind those held, in their order, and
-- takes exactly their room.
pub contents-put_all :
    (vs : List (Field × ℕ)) (r : SerialRingBuffer)
    → IsValid r
    → total_width vs ≤ get_free_size r
    → IsValid (put_all r vs)
      × (contents (put_all r vs) ≡ contents r ++ encoded vs)
      × (get_free_size (put_all r vs) + total_width vs ≡ get_free_size r)
unfolding put_all encoded total_width
contents-put_all [] r i h = (i, sym (append-nil (contents r)), omega arith)
contents-put_all ((k, v) ∷ vs) r i h =
    let (i', c, f) = put_lem r k v i (omega arith) in
    let (i'', c', f') = contents-put_all vs (put r k v) i' (omega arith) in
    (
      i'',
      c'
          ∙ ap (λ c. c ++ encoded vs) c
          ∙ append_assoc (contents r) (le_bytes (width k) v) (encoded vs),
      omega arith,
    )

abbrev pub AllFit : List (Field × ℕ) → Type 0
AllFit [] = Unit {0}
AllFit (x ∷ xs) = Fits x × AllFit xs

abbrev pub kinds : List (Field × ℕ) → List Field
kinds = map λ x. x.0

abbrev pub values : List (Field × ℕ) → List ℕ
values = map λ x. x.1

get_all_lem :
    (vs : List (Field × ℕ)) (r : SerialRingBuffer) (rest : List ℕ)
    → IsValid r
    → AllFit vs
    → contents r ≡ encoded vs ++ rest
    → IsValid (get_all r (kinds vs)).0
      × (contents (get_all r (kinds vs)).0 ≡ rest)
      × ((get_all r (kinds vs)).1 ≡ values vs)
unfolding get_all encoded
get_all_lem [] r rest i fit e = (i, e, refl)
get_all_lem ((k, v) ∷ vs) r rest i fit e =
    let (i', c, got) =
      get_lem r k v 0 (encoded vs ++ rest) i fit.0
        (e ∙ append_assoc (le_bytes (width k) v) (encoded vs) rest) in
    let (i'', c', got') = get_all_lem vs (get r k 0).0 rest i' fit.1 c in
    (i'', c', ap₂ ◌∷◌ got got')

-- Reading back a chain of values by the same types gives the values, and leaves the packet empty:
-- for an empty packet with room for them and values that fit their types.
pub get_all-put_all :
    (vs : List (Field × ℕ)) (r : SerialRingBuffer)
    → IsValid r
    → contents r ≡ []
    → total_width vs ≤ get_free_size r
    → AllFit vs
    → let (r', read) = get_all (put_all r vs) (kinds vs) in
      (read ≡ values vs) × (contents r' ≡ []) × IsValid r'
get_all-put_all vs r i e h fit =
    let (i', c, _) = contents-put_all vs r i h in
    let (i'', rest, got) =
      get_all_lem vs (put_all r vs) [] i' fit
        (c ∙ ap (λ c. c ++ encoded vs) e ∙ sym (append-nil (encoded vs))) in
    (got, rest, i'')
