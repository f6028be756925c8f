-- ===== src/Buffer/Cipher.antt =====
-- The packet cipher of SerialRingBuffer.cpp: `decode` undoes `encode`, and tells a packet whose
-- checksum is wrong.
use game_server_client.Base.{
  ℕ, ◌↔◌, zero, suc, ◌+◌, ◌≤◌, ◌<◌, ◌≡◌, refl, List, [], ◌∷◌, arith, ◌==◌, length, ap, ◌∙◌, get_or,
  set, bit_xor, Bool, true, ltb, ==_iff, get_or-set_self, get_or-set_ne, set-set, set-set_ne,
  set-get_or, length-set, ◌&&◌, ℕ_discrete,
}
use game_server_client.Buffer.{
  SerialRingBuffer, get_use_size, encode_loop, decode_loop, encode, decode, check_sum, byte,
  rand_key,
}
use game_server_client.Buffer.Bounds.{use-add-free, IsValid}

-- A test of every number below a bound, by evaluation.
holds_to : (ℕ → Bool) → ℕ → Bool
holds_to test zero = true
holds_to test (suc top) = test top && holds_to test top

holds_to_lem :
    (test : ℕ → Bool) (top : ℕ) → holds_to test top ≡ true → (k : ℕ) → k < top → test k ≡ true
unfolding holds_to
holds_to_lem test zero every k below = absurd (omega arith)
holds_to_lem test (suc top) every k below =
    let last : test top ≡ true = ground arith in
    let others : holds_to test top ≡ true = ground arith in
    elim (ℕ_discrete k top) [
      | yes same ↦ ap test same ∙ last
      | no other ↦ holds_to_lem test top others k (omega arith)
    ]

-- What a second exclusive or with the same byte gives back, and that it stays a byte.
undoes : ℕ → ℕ → Bool
undoes mask value = (bit_xor (bit_xor value mask) mask == value) && ltb (bit_xor value mask) 256

all_undone : holds_to (λ mask. holds_to (undoes mask) 256) 256 ≡ true
unfolding holds_to undoes
all_undone = refl

undoes_byte : (value mask : ℕ) → value < 256 → mask < 256 → undoes mask value ≡ true
undoes_byte value mask small mask_small =
    holds_to_lem (undoes mask) 256
      (holds_to_lem (λ m. holds_to (undoes m) 256) 256 all_undone mask mask_small) value small

xor_twice : (a b : ℕ) → a < 256 → b < 256 → bit_xor (bit_xor a b) b ≡ a
unfolding undoes
xor_twice a b h k = ground (arith, undoes_byte a b h k)

xor-lt : (a b : ℕ) → a < 256 → b < 256 → bit_xor a b < 256
unfolding undoes
xor-lt a b h k = ground (arith, undoes_byte a b h k)

pub byte-lt : (x : ℕ) → byte x < 256
byte-lt x = omega arith

-- Every cell holds a byte.
abbrev pub IsBytes : List ℕ → Type 0
IsBytes mem = (i : ℕ) → get_or mem i 0 < 256

pub set-IsBytes : (mem : List ℕ) (i v : ℕ) → IsBytes mem → v < 256 → IsBytes (set mem i v)
set-IsBytes [] i v h k j = omega arith
set-IsBytes (x ∷ xs) zero v h k zero = k
set-IsBytes (x ∷ xs) zero v h k (suc j) = h (suc j)
set-IsBytes (x ∷ xs) (suc i) v h k zero = h zero
set-IsBytes (x ∷ xs) (suc i) v h k (suc j) = set-IsBytes xs i v (λ l. h (suc l)) k j

module _ (key rand : ℕ) where
  pub length-encode_loop :
      (left : ℕ) (mem : List ℕ) (i p e : ℕ)
      → length (encode_loop key rand mem i left p e) ≡ length mem
  unfolding encode_loop
  length-encode_loop zero mem i p e = refl
  length-encode_loop (suc left) mem i p e =
      length-encode_loop left _ (suc i) _ _ ∙ length-set mem (4 + i) _

  -- The rounds that remain leave the cells before them alone.
  pub encode_loop_frame :
      (left : ℕ) (mem : List ℕ) (i p e j : ℕ)
      → j < 4 + i
      → get_or (encode_loop key rand mem i left p e) j 0 ≡ get_or mem j 0
  unfolding encode_loop
  encode_loop_frame zero mem i p e j h = refl
  encode_loop_frame (suc left) mem i p e j h =
      encode_loop_frame left _ (suc i) _ _ j (omega arith)
      ∙ get_or-set_ne mem (4 + i) j _ 0 (omega arith)

  set-encode_loop :
      (left : ℕ) (mem : List ℕ) (i p e j v : ℕ)
      → j < 4 + i
      → set (encode_loop key rand mem i left p e) j v
        ≡ encode_loop key rand (set mem j v) i left p e
  unfolding encode_loop
  set-encode_loop zero mem i p e j v h = refl
  set-encode_loop (suc left) mem i p e j v h =
      let p' : ℕ = bit_xor (get_or mem (4 + i) 0) (byte (p + rand + i + 1)) in
      let e' : ℕ = bit_xor p' (byte (e + key + i + 1)) in
      rw (get_or-set_ne mem j (4 + i) v 0 (omega arith)) (
        set-encode_loop left (set mem (4 + i) e') (suc i) p' e' j v (omega arith)
        ∙ ap (λ m. encode_loop key rand m (suc i) left p' e')
            (set-set_ne mem (4 + i) j e' v (omega arith)))

  decode-encode_loop :
      (left : ℕ) (mem : List ℕ) (i p e : ℕ)
      → IsBytes mem
      → 4 + i + left ≤ length mem
      → decode_loop key rand (encode_loop key rand mem i left p e) i left p e ≡ mem
  unfolding encode_loop decode_loop
  decode-encode_loop zero mem i p e b h = refl
  decode-encode_loop (suc left) mem i p e b h =
      let d : ℕ = get_or mem (4 + i) 0 in
      let u : ℕ = byte (p + rand + i + 1) in
      let w : ℕ = byte (e + key + i + 1) in
      let p' : ℕ = bit_xor d u in
      let e' : ℕ = bit_xor p' w in
      let got : get_or (encode_loop key rand (set mem (4 + i) e') (suc i) left p' e') (4 + i) 0
          ≡ e' =
        encode_loop_frame left (set mem (4 + i) e') (suc i) p' e' (4 + i) (omega arith)
        ∙ get_or-set_self mem (4 + i) e' 0 (omega arith) in
      let back_p : bit_xor e' w ≡ p' =
        xor_twice p' w (xor-lt d u (b (4 + i)) (byte-lt _)) (byte-lt _) in
      let back_d : bit_xor p' u ≡ d = xor_twice d u (b (4 + i)) (byte-lt _) in
      rw (got, back_p, back_d)
        (ap (λ m. decode_loop key rand m (suc i) left p' e')
            (set-encode_loop left (set mem (4 + i) e') (suc i) p' e' (4 + i) d (omega arith)
              ∙ ap (λ m. encode_loop key rand m (suc i) left p' e')
                  (set-set mem (4 + i) e' d ∙ set-get_or mem (4 + i) 0 (omega arith)))
          ∙ decode-encode_loop left mem (suc i) p' e' b (omega arith))

-- The checksum that a packet should carry.
unfoldable pub payload_sum : SerialRingBuffer → ℕ
payload_sum r = check_sum r.mem r.front (get_use_size r) 0

pub decoded :
    (key : ℕ) (r : SerialRingBuffer)
    → IsValid r
    → IsBytes r.mem
    → r.encode_flag ≡ 0
    → decode key (encode key r) ≡ (record r { encode_flag = 1 }, payload_sum r == get_or r.mem 4 0)
unfolding decode payload_sum get_use_size
decoded key r v b f = rw encoded (rw same_key (rw plain refl))
  where
    n : ℕ
    n = get_use_size r + 1

    sent : SerialRingBuffer
    sent = record r { mem = encode_loop key (rand_key r) r.mem 0 n 0 0; encode_flag = 1 }

    encoded : encode key r ≡ sent
    encoded = unfold encode in ground arith

    same_key : get_or sent.mem 3 0 ≡ get_or r.mem 3 0
    same_key = encode_loop_frame key (rand_key r) n r.mem 0 0 0 3 (omega arith)

    plain : decode_loop key (rand_key r) sent.mem 0 n 0 0 ≡ r.mem
    plain =
        decode-encode_loop key (rand_key r) n r.mem 0 0 0 b
          (omega (arith, use-add-free r v, v.storage))

-- `decode` under the same packet key brings back the bytes that `encode` was given, header and
-- payload, and answers true exactly when the checksum in the header is the sum of the payload. It
-- holds for a packet that has not been encoded, of bytes, whatever the keys are.
pub decode-encode :
    (key : ℕ) (r : SerialRingBuffer)
    → IsValid r
    → IsBytes r.mem
    → r.encode_flag ≡ 0
    → let (r', ok) = decode key (encode key r) in
      (r'.mem ≡ r.mem)
      × (r'.front ≡ r.front)
      × (r'.rear ≡ r.rear)
      × ((ok ≡ true) ↔ (payload_sum r ≡ get_or r.mem 4 0))
decode-encode key r v b f = rw (decoded key r v b f) (refl, refl, refl, ==_iff _ _)
