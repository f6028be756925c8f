-- ===== src/Client/Requests.antt =====
-- The requests of the client (클라이언트/컨텐츠/PacketInit.cpp) and what the server reads of them
-- (게임서버/컨텐츠/클래스/필드/Lobby.cpp and CBaseField.cpp). A text that the server reads into an array
-- is what stands before its terminator.
use game_server_client.Base.{
  ℕ, ◌+◌, ◌≤◌, ◌<◌, ◌^◌, ◌≡◌, refl, List, [], ◌∷◌, some, arith, sym, if◌then◌else◌, ◌==◌, ◌||◌,
}
use game_server_client.Buffer.{SerialRingBuffer, get_free_size}
use game_server_client.Buffer.Bounds.{IsValid, contents}
use game_server_client.Packet.{
  Part, Shape, number, text, number_of, text_of, int, dword, dword64, word, byte_value, put,
  put_parts, get_parts, width,
}
use game_server_client.Packet.Parts.{shapes, received, total_size, AreSendable, get_parts-put_parts}

pub data Request : Type 0 where
  login : (uid : ℕ) → (token : List ℕ) → Request
  login_other_channel : (uid : ℕ) → (token nickname : List ℕ) → Request
  select_character available_nickname create_character : (nickname : List ℕ) → Request
  character_list ready_field channel_list friend_list : Request
  move_field : (room_no : ℕ) → Request
  move_channel : (ip : List ℕ) → (port : ℕ) → Request
  store_product_list : (store_id : ℕ) → Request
  buy_store_item : (store_id item_id quantity : ℕ) → Request
  show_me_the_money : (money_id : ℕ) → Request
  use_item : (item_id : ℕ) → Request
  add_friend accept_add_friend : (nickname : List ℕ) → Request
  send_whisper : (recv_nickname chatting : List ℕ) → Request

-- The numbers of the enumeration in LobbyProtocol.h.
unfoldable pub code : Request → ℕ
code (login uid token) = 0
code (login_other_channel uid token nickname) = 2
code (select_character nickname) = 4
code character_list = 6
code (available_nickname nickname) = 8
code (create_character nickname) = 10
code (move_field room_no) = 12
code ready_field = 14
code (move_channel ip port) = 15
code channel_list = 17
code (store_product_list store_id) = 19
code (buy_store_item store_id item_id quantity) = 21
code (show_me_the_money money_id) = 23
code (use_item item_id) = 25
code (add_friend nickname) = 28
code (accept_add_friend nickname) = 32
code friend_list = 34
code (send_whisper recv_nickname chatting) = 36

-- What each function of PacketInit.cpp writes behind the number.
unfoldable pub body : Request → List Part
body (login uid token) = number dword64 uid ∷ text token 64 ∷ []
body (login_other_channel uid token nickname) =
    number dword64 uid ∷ text token 64 ∷ text nickname 20 ∷ []
body (select_character nickname) = text nickname 20 ∷ []
body character_list = []
body (available_nickname nickname) = text nickname 20 ∷ []
body (create_character nickname) = text nickname 20 ∷ []
body (move_field room_no) = number dword room_no ∷ []
body ready_field = []
body (move_channel ip port) = text ip 16 ∷ number word port ∷ []
body channel_list = []
body (store_product_list store_id) = number byte_value store_id ∷ []
body (buy_store_item store_id item_id quantity) =
    number byte_value store_id ∷ number dword item_id ∷ number dword quantity ∷ []
body (show_me_the_money money_id) = number byte_value money_id ∷ []
body (use_item item_id) = number dword item_id ∷ []
body (add_friend nickname) = text nickname 20 ∷ []
body (accept_add_friend nickname) = text nickname 20 ∷ []
body friend_list = []
body (send_whisper recv_nickname chatting) = text recv_nickname 20 ∷ text chatting 512 ∷ []

unfoldable pub request_parts : Request → List Part
request_parts q = number int (code q) ∷ body q

-- What the handlers of the lobby and of the fields ask for, by the number that OnRecv has read.
unfoldable pub read_request : (code : ℕ) → List Shape
read_request code =
    if code == 0
    then number_of dword64 ∷ text_of 64 ∷ []
    else if code == 2
    then number_of dword64 ∷ text_of 64 ∷ text_of 20 ∷ []
    else if code == 12
    then number_of dword ∷ []
    else if code == 15
    then text_of 16 ∷ number_of word ∷ []
    else if code == 19
    then number_of byte_value ∷ []
    else if code == 21
    then number_of byte_value ∷ number_of dword ∷ number_of dword ∷ []
    else if code == 23
    then number_of byte_value ∷ []
    else if code == 25
    then number_of dword ∷ []
    else if code == 36
    then text_of 20 ∷ text_of 512 ∷ []
    else if (code == 4) || (code == 8) || (code == 10) || (code == 28) || (code == 32)
    then text_of 20 ∷ []
    else []

-- The lobby reads the number as an `int`, a field as a DWORD.
unfoldable pub lobby_reads : (code : ℕ) → List Shape
lobby_reads code = number_of int ∷ read_request code

unfoldable pub field_reads : (code : ℕ) → List Shape
field_reads code = number_of dword ∷ read_request code

-- Each request is read by the types of its parts, and its number fits four bytes.
shapes-body : (q : Request) → (shapes (body q) ≡ read_request (code q)) × (code q < 256 ^ 4)
unfolding body code read_request
shapes-body (login uid token) = (refl, omega arith)
shapes-body (login_other_channel uid token nickname) = (refl, omega arith)
shapes-body (select_character nickname) = (refl, omega arith)
shapes-body character_list = (refl, omega arith)
shapes-body (available_nickname nickname) = (refl, omega arith)
shapes-body (create_character nickname) = (refl, omega arith)
shapes-body (move_field room_no) = (refl, omega arith)
shapes-body ready_field = (refl, omega arith)
shapes-body (move_channel ip port) = (refl, omega arith)
shapes-body channel_list = (refl, omega arith)
shapes-body (store_product_list store_id) = (refl, omega arith)
shapes-body (buy_store_item store_id item_id quantity) = (refl, omega arith)
shapes-body (show_me_the_money money_id) = (refl, omega arith)
shapes-body (use_item item_id) = (refl, omega arith)
shapes-body (add_friend nickname) = (refl, omega arith)
shapes-body (accept_add_friend nickname) = (refl, omega arith)
shapes-body friend_list = (refl, omega arith)
shapes-body (send_whisper recv_nickname chatting) = (refl, omega arith)

module _ (r : SerialRingBuffer) (v : IsValid r) (empty : contents r ≡ []) (q : Request)
    (s : AreSendable (body q)) (room : total_size (body q) + 4 ≤ get_free_size r) where
  -- A request is read to its end, as it was put in, by the types and sizes that the handlers of the
  -- server ask for, its number as an `int`, like in the lobby, or as a DWORD, like in a field; a text
  -- is cut to its size less one. It holds for an empty packet with room and a request of values that
  -- fit their types and texts without terminators. The layouts are those of the code: of
  -- create_character the nickname alone, where the comment of LobbyProtocol.h has a UID and a WORD
  -- CharacterSeq as well.
  pub request_arrives :
      ((r' : SerialRingBuffer) × (get_parts (put_parts r (request_parts q)) (lobby_reads (code q))
          ≡ some (r', number int (code q) ∷ received (body q)))
        × (contents r' ≡ []))
      × ((r' : SerialRingBuffer) × (get_parts (put_parts r (request_parts q)) (field_reads (code q))
            ≡ some (r', number dword (code q) ∷ received (body q)))
          × (contents r' ≡ []))
  unfolding request_parts lobby_reads field_reads put_parts put width total_size
  request_arrives =
      let (r1, e1, done1) =
        get_parts-put_parts (number int (code q) ∷ body q) r v empty ((shapes-body q).1, s)
          (omega (arith, room)) in
      let (r2, e2, done2) =
        get_parts-put_parts (number dword (code q) ∷ body q) r v empty ((shapes-body q).1, s)
          (omega (arith, room)) in
      ((r1, rw (sym (shapes-body q).0) e1, done1), (r2, rw (sym (shapes-body q).0) e2, done2))
