-- ===== src/User.antt =====
-- st_User (게임서버/컨텐츠/구조체/Character.h) as far as the store and the items use it, and what
-- their handlers do besides changing it: messages to the client, queries to the database, and
-- disconnects.
use game_server_client.Base.{ℕ, List, Bool, map}
use game_server_client.Map.{Map}
use game_server_client.Item.{Item}
use game_server_client.Inventory.Bag.{
  SlotUpdate, insert_inventory, update_inventory, delete_inventory,
}
use game_server_client.Inventory.Whole.{Inventory}

pub record User : Type 0 where
  pub nickname : List ℕ
  pub stats : Map ℕ
  pub inventory : Inventory

-- The queries of Query.cpp that the handlers ask for, without their text.
pub data Query : Type 0 where
  update_user_money : (nickname : List ℕ) (money quantity : ℕ) → Query
  update_user_stats : (nickname : List ℕ) (id quantity : ℕ) → Query
  insert_user_item update_user_item : (nickname : List ℕ) (item_id quantity seq : ℕ) → Query
  delete_user_item : (nickname : List ℕ) (seq : ℕ) → Query

-- getQuery of st_InventoryUpdateInfo, for one slot and for all.
unfoldable pub slot_query : List ℕ → SlotUpdate → Query
slot_query nickname u = elim (u.kind) [
  | insert_inventory ↦ insert_user_item nickname u.item_id u.quantity u.seq
  | update_inventory ↦ update_user_item nickname u.item_id u.quantity u.seq
  | delete_inventory ↦ delete_user_item nickname u.seq
]

unfoldable pub get_query : List ℕ → List SlotUpdate → List Query
get_query nickname us = map (slot_query nickname) us

-- en_PACKET_STATUS_BUY_STORE_ITEM, without SUCCESS
pub data Refusal : Type 0 where
  lack_money lack_token fall_inventory : Refusal

-- The messages: a refused purchase, a purchase with the money or the token left and the slots
-- that changed, and a used box.
pub data Message : Type 0 where
  refused : Refusal → Message
  bought :
      (money final token : ℕ) (paid : List SlotUpdate) (item : Item) (got : List SlotUpdate)
      → Message
  stats_box : (id quantity : ℕ) (item : Item) (used : List SlotUpdate) → Message

pub data Effect : Type 0 where
  send : Message → Effect
  save : List Query → Effect
  disconnect : Effect

-- What a handler comes to: it returns its answer, an exception leaves it, or it does what the
-- language leaves undefined.
pub data Outcome : Type 0 where
  done : (answer : Bool) → User → List Effect → Outcome
  thrown : User → Outcome
  broken : Outcome
