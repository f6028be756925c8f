-- ===== src/Network/Prefix.antt =====
-- `decode` looks at no more of a packet's memory than its header and its payload (decode of
-- SerialRingBuffer.cpp).
use game_server_client.Base.{
  ℕ, zero, suc, ◌+◌, ◌-◌, ◌≤◌, ◌<◌, ◌≡◌, refl, List, [], ◌∷◌, ◌++◌, arith, ap, ap₂, ◌∙◌, sym,
  length, get_or, set, drop, bit_xor, ◌==◌, length-set,
}
use game_server_client.Base.Memory.{read_at, length-read_at}
use game_server_client.Buffer.{SerialRingBuffer, get_use_size, decode, decode_loop, check_sum, byte}
use game_server_client.Buffer.Bounds.{contents, contents_straight}

get_or-append : (xs ys : List ℕ) (i : ℕ) → i < length xs → get_or (xs ++ ys) i 0 ≡ get_or xs i 0
get_or-append [] ys i h = absurd (omega arith)
get_or-append (x ∷ xs) ys zero h = refl
get_or-append (x ∷ xs) ys (suc i) h = get_or-append xs ys i (omega arith)

set-append : (xs ys : List ℕ) (i v : ℕ) → i < length xs → set (xs ++ ys) i v ≡ set xs i v ++ ys
set-append [] ys i v h = absurd (omega arith)
set-append (x ∷ xs) ys zero v h = refl
set-append (x ∷ xs) ys (suc i) v h = ap (◌∷◌ x) (set-append xs ys i v (omega arith))

read_at-cons : (x : ℕ) (xs : List ℕ) (pos n : ℕ) → read_at (x ∷ xs) (suc pos) n ≡ read_at xs pos n
unfolding read_at
read_at-cons x xs pos zero = refl
read_at-cons x xs pos (suc n) = ap (◌∷◌ (get_or xs pos 0)) (read_at-cons x xs (suc pos) n)

-- A memory is its first bytes and the rest.
pub split_memory : (mem : List ℕ) (n : ℕ) → n ≤ length mem → mem ≡ read_at mem 0 n ++ drop n mem
unfolding read_at
split_memory mem zero h = refl
split_memory [] (suc n) h = absurd (omega arith)
split_memory (x ∷ mem) (suc n) h =
    ap (◌∷◌ x)
      (split_memory mem n (omega arith) ∙ ap (λ r. r ++ drop n mem) (sym (read_at-cons x mem 0 n)))

read_at-append :
    (xs ys : List ℕ) (pos n : ℕ) → pos + n ≤ length xs → read_at (xs ++ ys) pos n ≡ read_at xs pos n
unfolding read_at
read_at-append xs ys pos zero h = refl
read_at-append xs ys pos (suc n) h =
    ap₂ ◌∷◌ (get_or-append xs ys pos (omega arith)) (read_at-append xs ys (suc pos) n (omega arith))

module _ (key rand : ℕ) where
  length-decode_loop :
      (left : ℕ) (mem : List ℕ) (i p e : ℕ)
      → length (decode_loop key rand mem i left p e) ≡ length mem
  unfolding decode_loop
  length-decode_loop zero mem i p e = refl
  length-decode_loop (suc left) mem i p e =
      length-decode_loop left _ (suc i) _ _ ∙ length-set mem (4 + i) _

  decode_loop-append :
      (left : ℕ) (xs ys : List ℕ) (i p e : ℕ)
      → 4 + i + left ≤ length xs
      → decode_loop key rand (xs ++ ys) i left p e ≡ decode_loop key rand xs i left p e ++ ys
  unfolding decode_loop
  decode_loop-append zero xs ys i p e h = refl
  decode_loop-append (suc left) xs ys i p e h =
      let e' : ℕ = get_or xs (4 + i) 0 in
      let p' : ℕ = bit_xor e' (byte (e + key + i + 1)) in
      let v : ℕ = bit_xor p' (byte (p + rand + i + 1)) in
      rw (get_or-append xs ys (4 + i) (omega arith), set-append xs ys (4 + i) v (omega arith))
        (decode_loop-append left (set xs (4 + i) v) ys (suc i) p' e'
          (omega (arith, length-set xs (4 + i) v)))

-- Memories that begin alike are decoded alike there.
decode_loop-agree :
    (key rand n : ℕ) (a b : List ℕ)
    → n + 5 ≤ length a
    → n + 5 ≤ length b
    → read_at a 0 (n + 5) ≡ read_at b 0 (n + 5)
    → read_at (decode_loop key rand a 0 (n + 1) 0 0) 0 (n + 5)
      ≡ read_at (decode_loop key rand b 0 (n + 1) 0 0) 0 (n + 5)
decode_loop-agree key rand n a b h k e = begins a h ∙ ap plain e ∙ sym (begins b k)
  where
    plain : List ℕ → List ℕ
    plain f = read_at (decode_loop key rand f 0 (n + 1) 0 0) 0 (n + 5)

    begins : (mem : List ℕ) → n + 5 ≤ length mem → plain mem ≡ plain (read_at mem 0 (n + 5))
    begins mem h =
        let f : List ℕ = read_at mem 0 (n + 5) in
        let len : length f ≡ n + 5 = length-read_at mem 0 (n + 5) in
        ap plain (split_memory mem (n + 5) h)
        ∙ ap (λ m. read_at m 0 (n + 5))
            (decode_loop-append key rand (n + 1) f (drop (n + 5) mem) 0 0 0 (omega arith))
        ∙ read_at-append (decode_loop key rand f 0 (n + 1) 0 0) (drop (n + 5) mem) 0 (n + 5)
            (omega (arith, length-decode_loop key rand (n + 1) f 0 0 0))

sum_bytes : List ℕ → ℕ → ℕ
sum_bytes [] acc = acc
sum_bytes (b ∷ bs) acc = sum_bytes bs (byte (acc + b))

check_sum-read_at :
    (n : ℕ) (mem : List ℕ) (pos acc : ℕ)
    → check_sum mem pos n acc ≡ sum_bytes (read_at mem pos n) acc
unfolding check_sum read_at sum_bytes
check_sum-read_at zero mem pos acc = refl
check_sum-read_at (suc n) mem pos acc = check_sum-read_at n mem (suc pos) _

pub get_or-read_at :
    (n : ℕ) (mem : List ℕ) (pos i : ℕ)
    → i < n
    → get_or (read_at mem pos n) i 0 ≡ get_or mem (pos + i) 0
unfolding read_at
get_or-read_at zero mem pos i h = absurd (omega arith)
get_or-read_at (suc n) mem pos zero h = ap (λ k. get_or mem k 0) (omega arith)
get_or-read_at (suc n) mem pos (suc i) h =
    get_or-read_at n mem (suc pos) i (omega arith) ∙ ap (λ k. get_or mem k 0) (omega arith)

-- A cell among the first ones, of memories that begin alike.
pub cell-agree :
    (n i : ℕ) (a b : List ℕ) → i < n → read_at a 0 n ≡ read_at b 0 n → get_or a i 0 ≡ get_or b i 0
cell-agree n i a b h e =
    let at : 0 + i ≡ i = omega arith in
    sym (get_or-read_at n a 0 i h ∙ ap (λ k. get_or a k 0) at)
    ∙ ap (λ m. get_or m i 0) e
    ∙ get_or-read_at n b 0 i h
    ∙ ap (λ k. get_or b k 0) at

-- A run among the first cells, of memories that begin alike.
run-agree :
    (m n : ℕ) (a b : List ℕ)
    → m + n ≤ length a
    → m + n ≤ length b
    → read_at a 0 (m + n) ≡ read_at b 0 (m + n)
    → read_at a m n ≡ read_at b m n
run-agree m n a b h k e = inner a h ∙ ap (λ f. read_at f m n) e ∙ sym (inner b k)
  where
    inner :
        (mem : List ℕ) → m + n ≤ length mem → read_at mem m n ≡ read_at (read_at mem 0 (m + n)) m n
    inner mem h =
        ap (λ x. read_at x m n) (split_memory mem (m + n) h)
        ∙ read_at-append (read_at mem 0 (m + n)) (drop (m + n) mem) m n
            (omega (arith, length-read_at mem 0 (m + n)))

-- The bytes of a packet that begins behind its header, once decoded.
plain : (key n : ℕ) → List ℕ → List ℕ
plain key n mem = decode_loop key (get_or mem 3 0) mem 0 (n + 1) 0 0

module _ (key n : ℕ) (r : SerialRingBuffer) (at : r.front ≡ 5) (end : r.rear ≡ n + 5) where
  use_of : get_use_size r ≡ n
  unfolding get_use_size
  use_of = ground arith

  answer_of :
      (decode key r).1 ≡ (check_sum (plain key n r.mem) 5 n 0 == get_or (plain key n r.mem) 4 0)
  unfolding decode plain
  answer_of = rw (use_of, at) refl

  bytes_of : contents (decode key r).0 ≡ read_at (plain key n r.mem) 5 n
  unfolding decode plain
  bytes_of =
      let size : n + 5 - 5 ≡ n = omega arith in
      contents_straight (decode key r).0 (omega arith) ∙ rw (use_of, at, end, size) refl

-- Two packets of `n` bytes that begin alike, header included, are decoded with the same answer and
-- to the same bytes held.
pub decode-agree :
    (key n : ℕ) (a b : SerialRingBuffer)
    → a.front ≡ 5
    → b.front ≡ 5
    → a.rear ≡ n + 5
    → b.rear ≡ n + 5
    → n + 5 ≤ length a.mem
    → n + 5 ≤ length b.mem
    → read_at a.mem 0 (n + 5) ≡ read_at b.mem 0 (n + 5)
    → ((decode key a).1 ≡ (decode key b).1)
      × (contents (decode key a).0 ≡ contents (decode key b).0)
decode-agree key n a b fa fb ra rb ha hb e =
    let swap : n + 5 ≡ 5 + n = omega arith in
    let same : read_at (plain key n a.mem) 0 (n + 5) ≡ read_at (plain key n b.mem) 0 (n + 5) =
      unfold plain in
      rw (cell-agree (n + 5) 3 a.mem b.mem (omega arith) e)
        (decode_loop-agree key (get_or b.mem 3 0) n a.mem b.mem ha hb e) in
    let la : length (plain key n a.mem) ≡ length a.mem =
      unfold plain in length-decode_loop key (get_or a.mem 3 0) (n + 1) a.mem 0 0 0 in
    let lb : length (plain key n b.mem) ≡ length b.mem =
      unfold plain in length-decode_loop key (get_or b.mem 3 0) (n + 1) b.mem 0 0 0 in
    let run : read_at (plain key n a.mem) 5 n ≡ read_at (plain key n b.mem) 5 n =
      run-agree 5 n (plain key n a.mem) (plain key n b.mem) (omega arith) (omega arith) (
        ap (λ k. read_at (plain key n a.mem) 0 k) (sym swap)
        ∙ same
        ∙ ap (λ k. read_at (plain key n b.mem) 0 k) swap) in
    let sum : check_sum (plain key n a.mem) 5 n 0 ≡ check_sum (plain key n b.mem) 5 n 0 =
      check_sum-read_at n (plain key n a.mem) 5 0
      ∙ ap (λ bs. sum_bytes bs 0) run
      ∙ sym (check_sum-read_at n (plain key n b.mem) 5 0) in
    let stated : get_or (plain key n a.mem) 4 0 ≡ get_or (plain key n b.mem) 4 0 =
      cell-agree (n + 5) 4 (plain key n a.mem) (plain key n b.mem) (omega arith) same in
    (
      answer_of key n a fa ra ∙ ap₂ ◌==◌ sum stated ∙ sym (answer_of key n b fb rb),
      bytes_of key n a fa ra ∙ run ∙ sym (bytes_of key n b fb rb),
    )
