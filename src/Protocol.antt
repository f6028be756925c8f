-- ===== src/Protocol.antt =====
-- The messages of the lobby server (게임서버/컨텐츠/전역함수/PacketInit.cpp) as what they put into a packet,
-- and what the client (클라이언트/컨텐츠/GameClient.cpp) asks of the packet to read some of them. A
-- message begins with its type: an enumerator of LobbyProtocol.h, which `<<` takes as an `int`. A
-- count is a `size_t`, so a DWORD64.
pub mod Agreement
mod Tests
use game_server_client.Base.{
  ℕ, zero, suc, List, [], ◌∷◌, ◌++◌, Option, none, some, length, ◌>>=◌, ◌==◌, if◌then◌else◌,
}
use game_server_client.Map.{Map}
use game_server_client.Buffer.{SerialRingBuffer}
use game_server_client.Item.{Item}
use game_server_client.Inventory.Bag.{SlotUpdate}
use game_server_client.Store.{Product}
use game_server_client.ItemManager.{get_item}
use game_server_client.Packet.{
  get, get_parts, Part, number, text, Shape, number_of, text_of, bool, byte_value, word, int, dword,
  dword64,
}

abbrev kind : ℕ → Part
kind id = number int id

-- st_CharacterSeq
pub record CharacterSeq : Type 0 where
  pub nickname : List ℕ
  pub seq : ℕ

unfoldable pub character_parts : List CharacterSeq → List Part
character_parts [] = []
character_parts (c ∷ cs) = text c.nickname 20 ∷ number byte_value c.seq ∷ character_parts cs

unfoldable pub login : List CharacterSeq → List Part
login cs = kind 1 ∷ number dword64 (length cs) ∷ character_parts cs

unfoldable pub character_list : List CharacterSeq → List Part
character_list cs = kind 7 ∷ number dword64 (length cs) ∷ character_parts cs

unfoldable pub available_nickname : ℕ → List Part
available_nickname status = kind 9 ∷ number byte_value status ∷ []

unfoldable pub create_character : ℕ → List Part
create_character status = kind 11 ∷ number byte_value status ∷ []

-- The texts that every message with an item has.
unfoldable pub item_parts : Item → List Part
item_parts it =
    number byte_value it.kind
    ∷ number dword it.item_id
    ∷ text it.name 64
    ∷ text it.description 512
    ∷ []

-- `none` is the exception where a product's item is unknown.
unfoldable pub product_parts : Map Item → List Product → Option (List Part)
product_parts items [] = some []
product_parts items (p ∷ ps) = do
  it ← get_item items p.item_id
  rest ← product_parts items ps
  some (
      item_parts it
      ++ number byte_value p.money_id
        ∷ number dword p.money_price
        ∷ number byte_value p.token_id
        ∷ number dword p.token_price
        ∷ rest)

unfoldable pub store_list : Map Item → List Product → Option (List Part)
store_list items ps = do
  rest ← product_parts items ps
  some (kind 20 ∷ number dword64 (length ps) ∷ rest)

unfoldable pub slot_parts : List SlotUpdate → List Part
slot_parts [] = []
slot_parts (u ∷ us) = number dword u.seq ∷ number dword u.quantity ∷ slot_parts us

unfoldable pub buy_refusal : ℕ → List Part
buy_refusal status = kind 22 ∷ number byte_value status ∷ []

unfoldable pub buy_store_item :
    (status money_id money_quantity token_id : ℕ)
    → List SlotUpdate
    → Item
    → List SlotUpdate
    → List Part
buy_store_item status money_id money_quantity token_id paid it got =
    kind 22
      ∷ number byte_value status
      ∷ number byte_value money_id
      ∷ number dword money_quantity
      ∷ number byte_value token_id
      ∷ number dword64 (length paid)
      ∷ slot_parts paid
    ++ (item_parts it
        ++ number dword it.max_quantity ∷ number dword64 (length got) ∷ slot_parts got)

unfoldable pub show_me_the_money : (money_id money_quantity : ℕ) → List Part
show_me_the_money money_id money_quantity =
    kind 24 ∷ number byte_value money_id ∷ number dword money_quantity ∷ []

unfoldable pub use_item_failed : ℕ → List Part
use_item_failed status = kind 26 ∷ number byte_value status ∷ []

unfoldable pub use_item_stats_box : (stats_id stats : ℕ) → Item → List SlotUpdate → List Part
use_item_stats_box stats_id stats it us =
    kind 27 ∷ number byte_value stats_id ∷ number dword stats ∷ item_parts it
    ++ number dword it.max_quantity ∷ number dword64 (length us) ∷ slot_parts us

unfoldable pub send_whisper : ℕ → List Part
send_whisper status = kind 37 ∷ number byte_value status ∷ []

unfoldable pub sc_send_whisper : (send_nickname chatting : List ℕ) → List Part
sc_send_whisper send_nickname chatting = kind 38 ∷ text send_nickname 20 ∷ text chatting 512 ∷ []

unfoldable pub req_friend : List ℕ → List Part
req_friend send_nickname = kind 30 ∷ text send_nickname 20 ∷ []

unfoldable pub accept_friend : List ℕ → List Part
accept_friend send_nickname = kind 31 ∷ text send_nickname 20 ∷ []

unfoldable pub move_field : (status room_no : ℕ) → List ℕ → List Part
move_field status room_no field_name =
    kind 13 ∷ number byte_value status ∷ number dword room_no ∷ text field_name 20 ∷ []

unfoldable pub move_channel : List ℕ → List Part
move_channel session_key = kind 16 ∷ text session_key 64 ∷ []

-- st_ServerStatus
pub record ServerStatus : Type 0 where
  pub server_name : List ℕ
  pub ip : List ℕ
  pub port : ℕ
  pub status_type : ℕ

unfoldable pub status_parts : List ServerStatus → List Part
status_parts [] = []
status_parts (s ∷ ss) =
    text s.server_name 20
    ∷ text s.ip 16
    ∷ number word s.port
    ∷ number byte_value s.status_type
    ∷ status_parts ss

unfoldable pub channel_list : List ServerStatus → List Part
channel_list ss = kind 18 ∷ number dword64 (length ss) ∷ status_parts ss

unfoldable pub add_friend : ℕ → List Part
add_friend status = kind 29 ∷ number byte_value status ∷ []

unfoldable pub accept_add_friend : (status : ℕ) → List ℕ → List Part
accept_add_friend status accepted_nickname =
    kind 33 ∷ number byte_value status ∷ text accepted_nickname 20 ∷ []

-- What GameClient::Packet_Login asks for behind the type, for as many characters as are said.
unfoldable pub read_characters : ℕ → List Shape
read_characters zero = []
read_characters (suc n) = text_of 20 ∷ number_of byte_value ∷ read_characters n

unfoldable pub read_login : ℕ → List Shape
read_login count = number_of int ∷ number_of dword64 ∷ read_characters count

-- The loops of the client over the slots that changed.
unfoldable pub read_slots : ℕ → List Shape
read_slots zero = []
read_slots (suc n) = number_of dword ∷ number_of dword ∷ read_slots n

-- What Packet_Use_Item_Stats_Box asks for, for the count that is said.
unfoldable pub read_item : ℕ → List Shape
read_item count =
    number_of byte_value
    ∷ number_of dword
    ∷ text_of 64
    ∷ text_of 512
    ∷ number_of dword
    ∷ number_of dword64
    ∷ read_slots count

-- The count of a loop over slots, and the slots.
unfoldable pub get_slots : SerialRingBuffer → Option (SerialRingBuffer × List Part)
get_slots r =
    let (r', count) = get r dword64 0 in
    do (r'', slots) ← get_parts r' (read_slots count); some (r'', number dword64 count ∷ slots)

-- Packet_Buy_Store_Item behind the status SUCCESS.
unfoldable pub get_bought : SerialRingBuffer → Option (SerialRingBuffer × List Part)
get_bought r = do
  (r1, money) ← get_parts r (number_of byte_value ∷ number_of dword ∷ number_of byte_value ∷ [])
  (r2, paid) ← get_slots r1
  (r3, item) ←
      get_parts r2
        (number_of byte_value ∷ number_of dword ∷ text_of 64 ∷ text_of 512 ∷ number_of dword ∷ [])
  (r4, got) ← get_slots r3
  some (r4, money ++ (paid ++ (item ++ got)))

-- The number of the message, which `update` reads, and Packet_Buy_Store_Item: what has been read, and
-- what is left. Only SUCCESS, which is 0, has more behind the status.
unfoldable pub get_buy_store_item : SerialRingBuffer → Option (SerialRingBuffer × List Part)
get_buy_store_item r =
    let (r1, type_id) = get r int 0 in
    let (r2, status) = get r1 byte_value 0 in
    if status == 0
    then (do
      (r3, rest) ← get_bought r2
      some (r3, number int type_id ∷ number byte_value status ∷ rest))
    else some (r2, number int type_id ∷ number byte_value status ∷ [])

unfoldable pub read_use_item_stats_box : ℕ → List Shape
read_use_item_stats_box count =
    number_of int ∷ number_of byte_value ∷ number_of dword ∷ read_item count
