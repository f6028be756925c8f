-- ===== src/Packet.antt =====
-- CPacket (라이브러리/SerialRingBuffer.h and .cpp): values and texts of fixed size, put into and
-- taken out of a packet's buffer. The reference count of the buffer is left out: a packet here is
-- the buffer that it points to.
-- A value of a signed type is its bit pattern; the machine is little endian, and pointers have
-- eight bytes.
pub mod Fields
pub mod Texts
pub mod Parts
mod Tests
use game_server_client.Base.{
  ℕ, zero, suc, ◌+◌, ◌-◌, ◌*◌, ◌/◌, List, [], ◌∷◌, ◌++◌, leb, ◌==◌, if◌then◌else◌, length, drop,
  take, Option, none, some, ◌>>=◌,
}
use game_server_client.Buffer.{SerialRingBuffer, byte, enqueue, dequeue, move_rear, get_use_size}

-- The types that `<<` and `>>` are overloaded on.
pub data Field : Type 0 where
  bool byte_value word int64 dword64 pointer int dword : Field

-- sizeof
unfoldable pub width : Field → ℕ
width bool = 1
width byte_value = 1
width word = 2
width int64 = 8
width dword64 = 8
width pointer = 8
width int = 4
width dword = 4

-- The `w` bytes of a value in memory.
unfoldable pub le_bytes : ℕ → ℕ → List ℕ
le_bytes zero v = []
le_bytes (suc w) v = byte v ∷ le_bytes w (v / 256)

unfoldable pub of_bytes : List ℕ → ℕ
of_bytes [] = 0
of_bytes (b ∷ bs) = b + 256 * of_bytes bs

-- operator<<
unfoldable pub put : SerialRingBuffer → Field → ℕ → SerialRingBuffer
put r k v = (enqueue r (le_bytes (width k) v) (width k)).0

-- operator>> into a variable that held `old`: a short packet fills the low bytes only.
unfoldable pub get : SerialRingBuffer → Field → ℕ → SerialRingBuffer × ℕ
get r k old =
    let (r', out) = dequeue r (width k) in
    (r', of_bytes (out ++ drop (length out) (le_bytes (width k) old)))

-- A chain of `<<`, and a chain of `>>` into variables that held 0.
unfoldable pub put_all : SerialRingBuffer → List (Field × ℕ) → SerialRingBuffer
put_all r [] = r
put_all r ((k, v) ∷ vs) = put_all (put r k v) vs

unfoldable pub get_all : SerialRingBuffer → List Field → SerialRingBuffer × List ℕ
get_all r [] = (r, [])
get_all r (k ∷ ks) = let (r', v) = get r k 0 in let (r'', vs) = get_all r' ks in (r'', v ∷ vs)

-- `PutData(const string&, Size)`: `Size` bytes, a terminated text and whatever follows it.
unfoldable pub put_text : SerialRingBuffer → List ℕ → ℕ → SerialRingBuffer
put_text r str size =
    if leb size (length str)
    then (enqueue (enqueue r str (size - 1)).0 (0 ∷ []) 1).0
    else move_rear (enqueue (enqueue r str (length str)).0 (0 ∷ []) 1).0 (size - length str - 1)

abbrev cons_to : ℕ → Option (List ℕ) → Option (List ℕ)
cons_to c none = none
cons_to c (some cs) = some (c ∷ cs)

-- `str.erase(str.find_first_of('\0'))`: with no terminator `erase` throws.
unfoldable pub until_nul : List ℕ → Option (List ℕ)
until_nul [] = none
until_nul (c ∷ cs) = if c == 0 then some [] else cons_to c (until_nul cs)

-- `dequeue(std::string&, Size)`: nothing is read, and the text is unchanged, where the packet is
-- empty or `Size` is 0; `none` is the exception.
unfoldable pub get_text : SerialRingBuffer → ℕ → List ℕ → Option (SerialRingBuffer × List ℕ)
get_text r size old =
    let (r', out) = dequeue r size in
    if size == 0
    then some (r, old)
    else if get_use_size r == 0
    then some (r, old)
    else elim (until_nul out) [ none ↦ none | some text ↦ some (r', text) ]

-- What a message is made of: values, and texts of fixed size.
pub data Part : Type 0 where
  number : Field → ℕ → Part
  text : List ℕ → ℕ → Part

-- What its reader asks for.
pub data Shape : Type 0 where
  number_of : Field → Shape
  text_of : ℕ → Shape

unfoldable pub put_parts : SerialRingBuffer → List Part → SerialRingBuffer
put_parts r [] = r
put_parts r (number k v ∷ ps) = put_parts (put r k v) ps
put_parts r (text cs size ∷ ps) = put_parts (put_text r cs size) ps

-- Into variables that held 0, and texts that were empty.
unfoldable pub get_parts : SerialRingBuffer → List Shape → Option (SerialRingBuffer × List Part)
get_parts r [] = some (r, [])
get_parts r (number_of k ∷ ss) =
    let (r', v) = get r k 0 in do (r'', ps) ← get_parts r' ss; some (r'', number k v ∷ ps)
get_parts r (text_of size ∷ ss) = do
  (r', cs) ← get_text r size []
  (r'', ps) ← get_parts r' ss
  some (r'', text cs size ∷ ps)
