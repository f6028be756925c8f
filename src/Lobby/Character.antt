-- ===== src/Lobby/Character.antt =====
-- st_User as the lobby fills and empties it (게임서버/컨텐츠/구조체/Character.h), and the row of a
-- character that becomes a player (게임서버/컨텐츠/클래스/필드/Lobby.cpp). `none` is an exception, or a
-- part of a text that is not there.
use game_server_client.Base.{
  ℕ, ◌%◌, ◌^◌, List, [], ◌∷◌, ◌++◌, Option, none, some, if◌then◌else◌, ltb, false, length, map,
  ◌>>=◌,
}
use game_server_client.Map.{Map}
use game_server_client.Item.{Item}
use game_server_client.Stats.{set_stats, clear_stats}
use game_server_client.Inventory.Bag.{Bag, Answer, ok, undefined, nullopt}
use game_server_client.Inventory.Change.{set_item}
use game_server_client.Inventory.Whole.{Inventory, clear_inventory, set_money, on_bag}
use game_server_client.ItemManager.{get_item}
use game_server_client.Texts.{split_string}
use game_server_client.Tasks.{stoi, read_below}
use game_server_client.Field.{Friend}
use game_server_client.Protocol.{CharacterSeq}
use game_server_client.Network.Sessions.{invalid_room}

pub record Player : Type 0 where
  pub session_id : ℕ
  pub uid : ℕ
  pub last_time_tick : ℕ
  pub room_no : ℕ
  pub nickname : List ℕ
  pub stats : Map ℕ
  pub inventory : Inventory
  pub friends : List Friend
  pub add_friends : List (List ℕ)
  pub characters : List CharacterSeq

-- `st_User::clear`; the field that a player is in is not part of the model.
unfoldable pub clear : Player → Player
clear u = record {
  session_id = 0;
  uid = 0;
  last_time_tick = 0;
  room_no = invalid_room;
  nickname = [];
  stats = clear_stats u.stats;
  inventory = clear_inventory u.inventory;
  friends = [];
  add_friends = [];
  characters = [];
}

-- The columns of Query_Select_Character, where `none` is NULL: the columns of the stats and of the
-- moneys have no IFNULL around them, and a text is made of a null pointer, which is undefined.
pub record Row : Type 0 where
  pub nickname : List ℕ
  pub room_no : List ℕ
  pub stats_list : Option (List ℕ)
  pub money_list : Option (List ℕ)
  pub item_list : List ℕ
  pub friend_list : List ℕ
  pub add_friend_list : List ℕ

-- `stoul` of a 32-bit `unsigned long`.
abbrev pub stoul : List ℕ → Option ℕ
stoul text = read_below (2 ^ 32) text

-- One of the stats, "id:stats".
unfoldable pub stats_of : List (List ℕ) → Map ℕ → Option (Map ℕ)
stats_of (id ∷ quantity ∷ rest) stats = do
  i ← stoi id
  q ← stoul quantity
  some (set_stats stats (i % 2 ^ 8) q)
stats_of _ stats = none

unfoldable pub load_stats : List (List ℕ) → Map ℕ → Option (Map ℕ)
load_stats [] stats = some stats
load_stats (element ∷ elements) stats = do
  stats' ← stats_of (split_string element 58) stats
  load_stats elements stats'

-- One of the moneys, "id:money".
unfoldable pub money_of : List (List ℕ) → Inventory → Option Inventory
money_of (id ∷ quantity ∷ rest) inventory = do
  i ← stoi id
  q ← stoi quantity
  some (set_money inventory (i % 2 ^ 8) q)
money_of _ inventory = none

unfoldable pub load_money : List (List ℕ) → Inventory → Option Inventory
load_money [] inventory = some inventory
load_money (element ∷ elements) inventory = do
  inventory' ← money_of (split_string element 58) inventory
  load_money elements inventory'

-- `setItem`; a slot beyond the inventory is undefined.
unfoldable pub place_item : Item → (quantity seq : ℕ) → Bag → Answer (Bag × Unit {0})
place_item it quantity seq b =
    if ltb seq (length b.available_slot) then ok (set_item b it quantity seq, tt) else undefined

unfoldable pub placed : Answer (Inventory × Unit {0}) → Option Inventory
placed (ok (inventory, done)) = some inventory
placed nullopt = none
placed undefined = none

-- One of the items, "id:quantity:sequence".
unfoldable pub item_of : Map Item → List (List ℕ) → Inventory → Option Inventory
item_of items (id ∷ quantity ∷ seq ∷ rest) inventory = do
  i ← stoul id
  it ← get_item items i
  q ← stoi quantity
  s ← stoi seq
  placed (on_bag (place_item it q s) it.kind inventory)
item_of items _ inventory = none

unfoldable pub load_items : Map Item → List (List ℕ) → Inventory → Option Inventory
load_items items [] inventory = some inventory
load_items items (element ∷ elements) inventory = do
  inventory' ← item_of items (split_string element 58) inventory
  load_items items elements inventory'

unfoldable pub load_friends : List (List ℕ) → List Friend
load_friends names = map (λ n. record { nickname = n; is_online = false }) names

-- What the callbacks of Query_Select_Character make of a player and the row.
unfoldable pub load_character : Map Item → Row → Player → Option Player
load_character items row u = do
  room ← stoul row.room_no
  stats_list ← row.stats_list
  stats ← load_stats (split_string stats_list 44) u.stats
  money_list ← row.money_list
  paid ← load_money (split_string money_list 44) u.inventory
  inventory ← load_items items (split_string row.item_list 44) paid
  some (record u {
    nickname = row.nickname;
    room_no = room;
    stats = stats;
    inventory = inventory;
    friends = u.friends ++ load_friends (split_string row.friend_list 44);
    add_friends = u.add_friends ++ split_string row.add_friend_list 44;
  })
