-- ===== src/Inventory/Tests.antt =====
-- Inventories of concrete items.
use game_server_client.Base.{
  ℕ, ◌+◌, ◌/◌, ◌≡◌, ◌≢◌, refl, List, [], ◌∷◌, arith, true, false, replicate, get_or, set,
}
use mathlib.Core.Bool.{false≢true}
use game_server_client.Map.{find, has, index}
use game_server_client.Item.{Item}
use game_server_client.Inventory.Bag.{Bag, new_bag, SlotUpdate, ok, get_next_slot_seq}
use game_server_client.Inventory.Change.{add_item, remove_item}
use game_server_client.Inventory.Free.{free_in}
use game_server_client.Inventory.Sound.{IsSound, get_next_slot_seq_lem}
use game_server_client.Inventory.Quantity.{Marked, slots_of, total_of, sum_of}
use game_server_client.Inventory.Fill.{Filled}
use game_server_client.Inventory.Add.{IsUsable, add_item_new}
use game_server_client.Inventory.Remove.{remove_item_lem}

abbrev potion : ℕ → Item
potion quantity = record {
  category = 1;
  kind = 2;
  name = [];
  item_id = 334;
  description = [];
  max_quantity = 10;
  quantity = quantity;
  seq = 0;
}

new_bag-IsSound : IsSound new_bag
unfolding new_bag free_in
new_bag-IsSound = record {
  size = refl;
  next_lo = omega arith;
  next_hi = omega arith;
  counted = refl;
  lowest = λ _. (refl, refl);
}

new_bag-Marked : Marked new_bag
unfolding new_bag has index find
new_bag-Marked id seq h = absurd (false≢true h)

new_bag-IsUsable : IsUsable new_bag (potion 25)
unfolding new_bag index find sum_of
new_bag-IsUsable = record {
  full_pos = omega arith;
  room_small = omega arith;
  total_small = omega arith;
}

-- Slot 1 holds 10 potions and slot 2 holds 5.
abbrev stocked : Bag
stocked = record {
  slots = (334, (1, 10) ∷ (2, 5) ∷ []) ∷ [];
  available_slot = set (set (replicate 129 true) 1 false) 2 false;
  next_slot_seq = 3;
  usable_slots = 126;
  max_slots = 128;
}

get_next_slot_seq_example :
    let (b', seq) = get_next_slot_seq new_bag in
    IsSound b'
    × (get_or new_bag.available_slot seq false ≡ true)
    × (get_or b'.available_slot seq true ≡ false)
    × (b'.usable_slots + 1 ≡ new_bag.usable_slots)
unfolding new_bag
get_next_slot_seq_example = get_next_slot_seq_lem new_bag new_bag-IsSound (omega arith)

add_item_new_example :
    (b' : Bag) × (us : List SlotUpdate) × (add_item new_bag (potion 25) ≡ ok (b', us))
    × Filled new_bag (potion 25) 25 (25 / 10) b'
unfolding new_bag index find sum_of
add_item_new_example =
    add_item_new new_bag (potion 25) new_bag-IsSound new_bag-Marked new_bag-IsUsable refl
      (omega arith)

remove_item_example :
    (b' : Bag) × (us : List SlotUpdate) × (remove_item stocked (potion 7) ≡ ok (b', us))
    × (total_of b' 334 + 7 ≡ total_of stocked 334)
    × ((j : ℕ) → j ≢ 334 → slots_of b' j ≡ slots_of stocked j)
unfolding index find sum_of
remove_item_example = remove_item_lem stocked (potion 7) (omega arith) (omega arith) (omega arith)
