-- ===== src/Client.antt =====
-- The game client (클라이언트/컨텐츠/GameClient.cpp, with Character.h, Data.h and Item.h beside it): what
-- it keeps of its player, and how the messages of the lobby server change it. A message has the values
-- that the handler reads of it. `none` is an index out of range, or the erasing of what is not there.
-- A scene is a name: what it prints, and where the player goes from it, is left out.
pub mod Messages
pub mod Mirror
pub mod Requests
mod Tests
use game_server_client.Base.{
  ℕ, ◌-◌, List, [], ◌∷◌, ◌++◌, Bool, Option, none, some, if◌then◌else◌, ltb, ◌>>=◌, length, take,
  replicate, set,
}
use game_server_client.Map.{Map, assign, index}
use game_server_client.Protocol.{CharacterSeq, ServerStatus}
use game_server_client.Field.{Friend}

-- st_Item, st_Stats and st_Money.
pub record Held : Type 0 where
  pub kind : ℕ
  pub item_id : ℕ
  pub name : List ℕ
  pub description : List ℕ
  pub max_quantity : ℕ
  pub quantity : ℕ
  pub seq : ℕ

pub record Amount : Type 0 where
  pub name : List ℕ
  pub quantity : ℕ

-- st_Product
pub record Offer : Type 0 where
  pub kind : ℕ
  pub id : ℕ
  pub name : List ℕ
  pub description : List ℕ
  pub money_id : ℕ
  pub money_price : ℕ
  pub token_id : ℕ
  pub token_price : ℕ

-- st_Character
pub record Character : Type 0 where
  pub uid : ℕ
  pub room_no : ℕ
  pub field_name : List ℕ
  pub nickname : List ℕ
  pub stats : Map Amount
  pub moneys : Map Amount
  pub items : Map (List Held)
  pub friends : List (List ℕ)
  pub add_friends : List (List ℕ)

pub data Scene : Type 0 where
  login created available_nickname field moving_channel channels store bought : Scene
  show_me_the_money used_item add_friend accept_add_friend friends whisper : Scene

-- GameClient, with st_GameServerInfo and st_Data. The lists that are shown are filled from the second element on.
pub record Client : Type 0 where
  pub uid : ℕ
  pub token : List ℕ
  pub is_move_channel : Bool
  pub character : Character
  pub character_list : List CharacterSeq
  pub channel_info : List ServerStatus
  pub product_info : List Offer
  pub friend_info : List Friend
  pub available_nickname_status : Bool
  pub create_character_status : Bool
  pub add_friend_status : Bool
  pub accept_add_friend_status : Bool × List ℕ
  pub whisper_status : Bool

-- What `resize` puts into a vector.
abbrev pub no_item : Held
no_item = record {
  kind = 0;
  item_id = 0;
  name = [];
  description = [];
  max_quantity = 0;
  quantity = 0;
  seq = 0;
}

abbrev pub no_amount : Amount
no_amount = record { name = []; quantity = 0 }

module _ {ℓ} {A : Type ℓ} where
  unfoldable pub resize : A → (count : ℕ) → List A → List A
  resize fresh count xs = take count xs ++ replicate (count - length xs) fresh

  -- `resize` to one more than the count, and new values from the second element on.
  unfoldable pub refill : A → List A → List A → List A
  refill fresh [] new = fresh ∷ new
  refill fresh (x ∷ xs) new = x ∷ new

-- `st_Character::clear`
unfoldable pub clear : Character → Character
clear c = record c {
  nickname = [];
  stats = [];
  moneys = [];
  items = [];
  friends = [];
  add_friends = [];
}

-- `character.items[type][seq] = item`, of which the inventories are numbered.
unfoldable pub put_item : Held → List Held → Option (List Held)
put_item item slots = if ltb item.seq (length slots) then some (set slots item.seq item) else none

unfoldable pub place : Held → Map (List Held) → Option (Map (List Held))
place item items = do
  slots ← put_item item (index [] item.kind items)
  some (assign item.kind slots items)

unfoldable pub place_all : List Held → Map (List Held) → Option (Map (List Held))
place_all [] items = some items
place_all (item ∷ rest) items = do items' ← place item items; place_all rest items'

-- The loop over the slots that have changed, in one inventory.
unfoldable pub put_slots : Held → List (ℕ × ℕ) → List Held → Option (List Held)
put_slots item [] slots = some slots
put_slots item ((seq, quantity) ∷ changes) slots = do
  slots' ← put_item (record item { seq = seq; quantity = quantity }) slots
  put_slots item changes slots'

unfoldable pub change_item : Held → List (ℕ × ℕ) → Character → Option Character
change_item item [] c = some c
change_item item (change ∷ changes) c = do
  slots ← put_slots item (change ∷ changes) (index [] item.kind c.items)
  some (record c { items = assign item.kind slots c.items })
