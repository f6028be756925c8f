-- ===== src/ItemManager/Tests.antt =====
-- Boxes used by a concrete user.
use game_server_client.Base.{
  ℕ, ◌+◌, ◌%◌, ◌^◌, ◌≡◌, ◌≢◌, refl, List, [], ◌∷◌, arith, true, false, some, replicate, get_elem?,
  set,
}
use game_server_client.Map.{Map, find, index}
use game_server_client.Item.{Item}
use game_server_client.Inventory.Bag.{Bag, new_bag}
use game_server_client.Inventory.Quantity.{slots_of, total_of, sum_of}
use game_server_client.User.{User, Effect, done}
use game_server_client.ItemManager.{get_item, open_box}
use game_server_client.ItemManager.Boxes.{open_box_lem}

abbrev box : Item
box = record {
  category = 1;
  kind = 1;
  name = [];
  item_id = 334;
  description = [];
  max_quantity = 10;
  quantity = 1;
  seq = 0;
}

abbrev items : Map Item
items = (334, box) ∷ []

abbrev boxes : Bag
boxes = record {
  slots = (334, (1, 2) ∷ []) ∷ [];
  available_slot = set (replicate 129 true) 1 false;
  next_slot_seq = 2;
  usable_slots = 127;
  max_slots = 128;
}

abbrev player : User
player = record {
  nickname = [];
  stats = (1, 4) ∷ (2, 4) ∷ [];
  inventory = record { moneys = []; inventories = new_bag ∷ boxes ∷ [] };
}

open_box_example :
    (user' : User) × (es : List Effect) × (b' : Bag) × (open_box items 1 334 player
      ≡ done true user' es)
    × (find 1 user'.stats ≡ some ((index 0 1 player.stats + 2) % 2 ^ 32))
    × (get_elem? user'.inventory.inventories 1 ≡ some b')
    × (total_of b' 334 + 1 ≡ total_of boxes 334)
    × ((j : ℕ) → j ≢ 334 → slots_of b' j ≡ slots_of boxes j)
unfolding get_item find index sum_of
open_box_example =
    open_box_lem items 1 334 player box boxes refl refl (omega arith) (omega arith) (omega arith)
