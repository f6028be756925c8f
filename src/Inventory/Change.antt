-- ===== src/Inventory/Change.antt =====
-- addItem, removeItem and setItem of CInventory (게임서버/컨텐츠/클래스/Inventory.cpp), on the
-- inventory that the item's type selects.
use mathlib.Core.List.{reverse}
use game_server_client.Base.{
  ℕ, zero, suc, ◌+◌, ◌-◌, ◌*◌, ◌%◌, ◌^◌, true, false, List, [], ◌∷◌, ◌++◌, Option, none, some, ltb,
  leb, ◌==◌, if◌then◌else◌, set, length, drop, add32, sub32, mul32, min,
}
use game_server_client.Map.{Map, assign, erase, index}
use game_server_client.Item.{Item}
use game_server_client.Inventory.Bag.{
  Bag, Answer, ok, nullopt, undefined, SlotUpdate, update_inventory, insert_slot, delete_slot,
  get_item_quantity, scan, or_else,
}

-- The loop that fills new slots: full ones while a full one is left to add, and then one with the
-- rest, even if that is 0. `none`: the fuel ran out.
unfoldable pub fill : ℕ → Bag → Item → ℕ → List SlotUpdate → Option (Bag × List SlotUpdate)
fill zero b it count us = none
fill (suc fuel) b it count us = elim (leb it.max_quantity count) [
  | true ↦
      let (b', u) = insert_slot b it.item_id it.max_quantity in
      fill fuel b' it (sub32 count it.max_quantity) (us ++ u ∷ [])
  | false ↦ let (b', u) = insert_slot b it.item_id count in some (b', us ++ u ∷ [])
]

abbrev pub returned : Option (Bag × List SlotUpdate) → Answer (Bag × List SlotUpdate)
returned none = undefined
returned (some r) = ok r

-- The first slot that is not full, and its write.
unfoldable pub partial_slot : ℕ → Map ℕ → Option (ℕ × ℕ)
partial_slot full [] = none
partial_slot full ((seq, q) ∷ m) = if q == full then partial_slot full m else some (seq, q)

unfoldable pub write_partial : ℕ → ℕ → Map ℕ → Map ℕ
write_partial full v [] = []
write_partial full v ((seq, q) ∷ m) =
    let rest = write_partial full v m in if q == full then (seq, q) ∷ rest else (seq, v) ∷ m

abbrev pub with_slots : Bag → ℕ → Map ℕ → Bag
with_slots b id m = record b { slots = assign id m b.slots }

abbrev pub updated : ℕ → ℕ → ℕ → SlotUpdate
updated id seq q = record { kind = update_inventory; item_id = id; seq = seq; quantity = q }

-- The branch of addItem in which some slot is not full; `held` is itemTotalCount.
unfoldable pub add_to_partial : Bag → Item → ℕ → Answer (Bag × List SlotUpdate)
add_to_partial b it held =
    let m = index [] it.item_id b.slots in
    elim (partial_slot it.max_quantity m) [
      | none ↦ undefined
      | some (seq, q) ↦
          if leb (add32 q it.quantity) it.max_quantity
          then ok (
            with_slots b it.item_id (write_partial it.max_quantity (add32 q it.quantity) m),
            updated it.item_id seq (add32 q it.quantity) ∷ [],
          )
          else returned (
              fill (suc (sub32 it.quantity (it.max_quantity - held % it.max_quantity)))
                (with_slots b it.item_id (write_partial it.max_quantity it.max_quantity m)) it
                (sub32 it.quantity (it.max_quantity - held % it.max_quantity))
                (updated it.item_id seq it.max_quantity ∷ []))
    ]

-- addItem
unfoldable pub add_item : Bag → Item → Answer (Bag × List SlotUpdate)
add_item b it =
    let held = get_item_quantity b it.item_id in
    let room = mul32 b.usable_slots it.max_quantity in
    let more =
      (b.usable_slots * it.max_quantity + it.max_quantity - held % it.max_quantity) % 2 ^ 32 in
    if it.max_quantity == 0
    then undefined
    else if held % it.max_quantity == 0
    then (if leb it.quantity room
        then returned (fill (suc it.quantity) b it it.quantity [])
        else nullopt)
    else if leb it.quantity more
    then add_to_partial b it held
    else nullopt

-- What the loop of removeItem leaves: the bag, slotDeleteCount, the updates, and the slots from
-- the last one backwards, with the quantity of the last one visited written.
pub record Removal : Type 0 where
  pub bag : Bag
  pub delete_count : ℕ
  pub updates : List SlotUpdate
  pub backwards : Map ℕ

unfoldable pub remove_loop : Bag → ℕ → (remove count : ℕ) → List SlotUpdate → Map ℕ → Removal
remove_loop b id remove count us [] = record {
  bag = b;
  delete_count = count;
  updates = us;
  backwards = [];
}
remove_loop b id remove count us ((seq, q) ∷ m) =
    let (b', u) = delete_slot b id seq in
    elim (ltb q remove) [
      | true ↦
          let r = remove_loop b' id (sub32 remove q) (add32 count 1) (us ++ u ∷ []) m in
          record r { backwards = (seq, q) ∷ r.backwards }
      | false ↦
          if remove == q
          then record {
            bag = b';
            delete_count = add32 count 1;
            updates = us ++ u ∷ [];
            backwards = (seq, q) ∷ m;
          }
          else record {
            bag = b;
            delete_count = count;
            updates = us ++ updated id seq (sub32 q remove) ∷ [];
            backwards = (seq, sub32 q remove) ∷ m;
          }
    ]

-- `slot.erase(next(rEndIter).base(), slot.end())`: the last slotDeleteCount + 1 slots go, unless
-- the count is still -1.
unfoldable pub keep_slots : Removal → Map ℕ
keep_slots r =
    if r.delete_count == 2 ^ 32 - 1 then r.backwards else drop (suc r.delete_count) r.backwards

-- removeItem
unfoldable pub remove_item : Bag → Item → Answer (Bag × List SlotUpdate)
remove_item b it =
    let r =
      remove_loop b it.item_id it.quantity (2 ^ 32 - 1) []
        (reverse (index [] it.item_id b.slots)) in
    if leb it.quantity (get_item_quantity b it.item_id)
    then ok (
      record r.bag {
        slots = elim (reverse (keep_slots r)) [
          | [] ↦ erase it.item_id r.bag.slots
          | x ∷ m ↦ assign it.item_id (x ∷ m) r.bag.slots
        ];
      },
      r.updates,
    )
    else nullopt

-- setItem
unfoldable pub set_item : Bag → Item → (quantity seq : ℕ) → Bag
set_item b it quantity seq = record b {
  slots = assign it.item_id (assign seq quantity (index [] it.item_id b.slots)) b.slots;
  available_slot = set b.available_slot seq false;
  usable_slots = sub32 b.usable_slots 1;
  next_slot_seq =
      if b.next_slot_seq == seq
      then or_else
          (scan (set b.available_slot seq false) (suc b.next_slot_seq)
            (length b.available_slot - suc b.next_slot_seq))
          b.next_slot_seq
      else min b.next_slot_seq seq;
}
