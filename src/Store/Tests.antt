-- ===== src/Store/Tests.antt =====
-- Purchases from a concrete store.
use game_server_client.Base.{◌/◌, [], ◌∷◌}
use game_server_client.Map.{Map}
use game_server_client.Item.{Item}
use game_server_client.Inventory.Bag.{Bag, new_bag}
use game_server_client.User.{User}
use game_server_client.Store.{Product}
use game_server_client.Base.{◌/◌}

abbrev potion : Item
potion = record {
  category = 1;
  kind = 1;
  name = [];
  item_id = 334;
  description = [];
  max_quantity = 10;
  quantity = 1;
  seq = 0;
}

-- Ten of the money 1 for each.
abbrev product : Product
product = record { item_id = 334; money_id = 1; money_price = 10; token_id = 0; token_price = 0 }

abbrev stores : Map (Map Product)
stores = (7, (334, product) ∷ []) ∷ []

abbrev items : Map Item
items = (334, potion) ∷ []

abbrev user_with : Bag → User
user_with b = record {
  nickname = [];
  stats = [];
  inventory = record { moneys = (1, 500) ∷ []; inventories = new_bag ∷ b ∷ [] };
}
