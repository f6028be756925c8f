-- ===== src/Packet/Tests.antt =====
-- Packets of concrete values and texts.
use game_server_client.Base.{ℕ, ◌≡◌, refl, List, [], ◌∷◌, arith, some}
use game_server_client.Base.Memory.{write_at, read_at}
use game_server_client.Packet.{put, le_bytes}
use game_server_client.Buffer.{
  enqueue, store, direct_enqueue_size, step_in_place, SerialRingBuffer, create, get_free_size,
}
use game_server_client.Buffer.Bounds.{IsValid, contents, create-IsValid}
use game_server_client.Packet.{Field, word, byte_value, dword, width, put_all}
use game_server_client.Packet.{Part, number, text, put_parts, get_parts}
use game_server_client.Packet.Parts.{shapes, received, total_size, get_parts-put_parts}

abbrev fresh : SerialRingBuffer
fresh = create 40

fresh-IsValid : IsValid fresh
fresh-IsValid = (create-IsValid 40 (omega arith)).0

fresh_empty : contents fresh ≡ []
fresh_empty = (create-IsValid 40 (omega arith)).1

-- The answer to a purchase that is refused, and a money.
abbrev message : List (Field × ℕ)
message = (word, 21) ∷ (byte_value, 1) ∷ (dword, 70000) ∷ []

put_all_test : contents (put_all fresh message) ≡ 21 ∷ 0 ∷ 1 ∷ 112 ∷ 17 ∷ 1 ∷ 0 ∷ []
unfolding contents put_all create put enqueue width get_free_size store direct_enqueue_size
    step_in_place read_at write_at le_bytes
put_all_test = refl

-- A number, a text that is cut, and a number behind it.
abbrev parts : List Part
parts = number word 9 ∷ text (65 ∷ 66 ∷ 67 ∷ []) 3 ∷ number byte_value 7 ∷ []

get_parts-put_parts_example :
    (r' : SerialRingBuffer) × (get_parts (put_parts fresh parts) (shapes parts)
      ≡ some (r', received parts))
    × (contents r' ≡ [])
unfolding get_free_size create total_size width
get_parts-put_parts_example =
    get_parts-put_parts parts fresh fresh-IsValid fresh_empty
      (
        omega arith,
        (
          (
            (λ e. absurd (omega arith)),
            ((λ e. absurd (omega arith)), ((λ e. absurd (omega arith)), tt)),
          ),
          omega arith,
          (omega arith, tt),
        ),
      )
      (omega arith)
