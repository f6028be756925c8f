-- ===== src/Inventory/Bag.antt =====
-- One inventory of a user, st_inventory of 게임서버/컨텐츠/클래스/Inventory.h, and what CInventory
-- does to the one that an item's type selects. Writes to `availableSlot` out of its range are
-- undefined there and change nothing here.
use game_server_client.Base.{
  ℕ, zero, suc, ◌+◌, ◌-◌, ◌*◌, ◌%◌, ◌^◌, Bool, true, false, List, [], ◌∷◌, Option, none, some, ltb,
  leb, ◌==◌, if◌then◌else◌, get_or, set, length, replicate, add32, sub32, min,
}
use game_server_client.Map.{Map, has, assign, index}
use game_server_client.Item.{Item}

pub record Bag : Type 0 where
  pub slots : Map (Map ℕ)
  pub available_slot : List Bool
  pub next_slot_seq : ℕ
  pub usable_slots : ℕ
  pub max_slots : ℕ

unfoldable pub new_bag : Bag
new_bag = record {
  slots = [];
  available_slot = replicate 129 true;
  next_slot_seq = 1;
  usable_slots = 128;
  max_slots = 128;
}

unfoldable pub clear_bag : Bag → Bag
clear_bag b = record b {
  slots = [];
  available_slot = replicate (length b.available_slot) true;
  next_slot_seq = 1;
  usable_slots = 128;
}

-- en_TYPE_INVENTORY_UPDATE
pub data UpdateType : Type 0 where
  insert_inventory update_inventory delete_inventory : UpdateType

-- st_SlotUpdateInfo
pub record SlotUpdate : Type 0 where
  pub kind : UpdateType
  pub item_id : ℕ
  pub seq : ℕ
  pub quantity : ℕ

-- What a member function comes to: a value, `nullopt`, or what the language leaves undefined (a
-- division by zero, an index out of range, the end of a function that should return).
pub data Answer {ℓ} (A : Type ℓ) : Type ℓ where
  ok : A → Answer A
  nullopt undefined : Answer A

-- The first slot that is free among `left` slots from `seq` on.
unfoldable pub scan : List Bool → (seq left : ℕ) → Option ℕ
scan free seq zero = none
scan free seq (suc left) = if get_or free seq false then some seq else scan free (suc seq) left

abbrev pub scan_after : Bag → ℕ → Option ℕ
scan_after b seq = scan b.available_slot (suc seq) (length b.available_slot - suc seq)

abbrev pub or_else : Option ℕ → ℕ → ℕ
or_else none d = d
or_else (some n) d = n

-- getNextSlotSeq
unfoldable pub get_next_slot_seq : Bag → Bag × ℕ
get_next_slot_seq b = (
  record b {
    next_slot_seq = or_else (scan_after b b.next_slot_seq) b.next_slot_seq;
    usable_slots = sub32 b.usable_slots 1;
    available_slot = set b.available_slot b.next_slot_seq false;
  },
  b.next_slot_seq,
)

-- existSlot
unfoldable pub exist_slot : Bag → Bool
exist_slot b = ltb 0 b.usable_slots

-- containItem
unfoldable pub contain_item : Bag → ℕ → Bool
contain_item b id = has id b.slots

-- insertSlot
unfoldable pub insert_slot : Bag → ℕ → ℕ → Bag × SlotUpdate
insert_slot b id quantity =
    let (b', seq) = get_next_slot_seq b in
    (
      record b' { slots = assign id (assign seq quantity (index [] id b'.slots)) b'.slots },
      record { kind = insert_inventory; item_id = id; seq = seq; quantity = quantity },
    )

-- deleteSlot; the slot's entry stays until removeItem erases it.
unfoldable pub delete_slot : Bag → ℕ → ℕ → Bag × SlotUpdate
delete_slot b id seq = (
  record b {
    available_slot = set b.available_slot seq true;
    usable_slots = add32 b.usable_slots 1;
    next_slot_seq = min b.next_slot_seq seq;
  },
  record { kind = delete_inventory; item_id = id; seq = seq; quantity = 0 },
)

-- The sum of getItemQuantity, from a running total on.
unfoldable pub sum_slots : ℕ → Map ℕ → ℕ
sum_slots total [] = total
sum_slots total ((seq, quantity) ∷ m) = sum_slots (add32 total quantity) m

-- getItemQuantity
unfoldable pub get_item_quantity : Bag → ℕ → ℕ
get_item_quantity b id = if contain_item b id then sum_slots 0 (index [] id b.slots) else 0

-- isAddItem, where the type's maximum is not 0.
unfoldable pub is_add_item : Bag → Item → Answer Bool
is_add_item b it =
    let room =
      (b.usable_slots * it.max_quantity
        + it.max_quantity
        - get_item_quantity b it.item_id % it.max_quantity)
      % 2 ^ 32 in
    if it.max_quantity == 0 then undefined else ok (leb it.quantity room)
