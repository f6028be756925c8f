-- ===== src/Inventory/Add.antt =====
-- addItem and isAddItem of CInventory (Inventory.cpp): what is added, and where they disagree.
use game_server_client.Base.{
  ℕ, zero, suc, ◌+◌, ◌-◌, ◌*◌, ◌/◌, ◌%◌, ◌^◌, ◌≤◌, ◌<◌, ◌≡◌, refl, true, false, List, [], arith, ap,
  ◌∙◌, le→leb, lt→leb_false, ◌==◌,
}
use game_server_client.Item.{Item}
use game_server_client.Inventory.Bag.{Bag, SlotUpdate, ok, nullopt, get_item_quantity, is_add_item}
use game_server_client.Inventory.Change.{returned, fill, add_item}
use game_server_client.Inventory.Sound.{IsSound}
use game_server_client.Inventory.Quantity.{Marked, total_of, get_item_quantity_lem, ne→==_false}
use game_server_client.Inventory.Fill.{Slots, Filled, fill_lem}

-- An item that the code can work with: a maximum that is not 0, and numbers that fit a DWORD.
pub record IsUsable (b : Bag) (it : Item) : Type 0 where
  pub full_pos : 0 < it.max_quantity
  pub room_small : b.usable_slots * it.max_quantity + it.max_quantity < 2 ^ 32
  pub total_small : total_of b it.item_id + it.quantity < 2 ^ 32

pub held :
    (b : Bag) (it : Item) → IsUsable b it → get_item_quantity b it.item_id ≡ total_of b it.item_id
held b it u = get_item_quantity_lem b it.item_id ∙ omega (arith, u.total_small)

-- The slots that a count takes.
pub Slots-quotient : (count full : ℕ) → 0 < full → Slots (count / full) full count
Slots-quotient count full h = grind arith

pub quotient_small : (n d : ℕ) → n / d < suc n
quotient_small n zero = omega arith
quotient_small n (suc d) = grind arith

pub le_of_lt : {a b : ℕ} → a < b → a ≤ b
le_of_lt h = omega arith

-- Free slots for the full ones and one more are room for all of it.
pub room_for : (count full usable : ℕ) → 0 < full → count / full < usable → count < usable * full
room_for count full usable h k = let (_, below) = Slots-quotient count full h in grind arith

module _ (b : Bag) (it : Item) (u : IsUsable b it) where
  pub add_new :
      total_of b it.item_id % it.max_quantity ≡ 0
      → it.quantity ≤ b.usable_slots * it.max_quantity
      → add_item b it ≡ returned (fill (suc it.quantity) b it it.quantity [])
  unfolding add_item
  add_new tidy room =
      let h : get_item_quantity b it.item_id % it.max_quantity ≡ 0 = rw (held b it u) tidy in
      let no_max : (it.max_quantity == 0) ≡ false = ne→==_false _ 0 (omega (arith, u.full_pos)) in
      let exact : (b.usable_slots * it.max_quantity) % 2 ^ 32 ≡ b.usable_slots * it.max_quantity =
        omega (arith, u.room_small) in
      rw (no_max, h, exact, le→leb _ _ room) refl

-- addItem, in a sound inventory whose held slots are marked, of a usable item of which the total
-- held is a multiple of the maximum, with a free slot for each full one of the quantity and one
-- more: it adds exactly the quantity, takes that many slots, leaves the other items, and leaves
-- the inventory sound and its slots marked.
pub add_item_new :
    (b : Bag) (it : Item)
    → IsSound b
    → Marked b
    → IsUsable b it
    → total_of b it.item_id % it.max_quantity ≡ 0
    → it.quantity / it.max_quantity < b.usable_slots
    → (b' : Bag) × (us : List SlotUpdate) × (add_item b it ≡ ok (b', us))
      × Filled b it it.quantity (it.quantity / it.max_quantity) b'
add_item_new b it v m u tidy room =
    let (b', us, e, r) =
      fill_lem it (it.quantity / it.max_quantity) (suc it.quantity) b it.quantity [] v m
        (Slots-quotient it.quantity it.max_quantity u.full_pos) (omega (arith, u.total_small))
        (quotient_small it.quantity it.max_quantity) room in
    (
      b',
      us,
      add_new b it u tidy
            (le_of_lt (room_for it.quantity it.max_quantity b.usable_slots u.full_pos room))
          ∙ ap returned e,
      r,
    )

-- isAddItem promises more than addItem gives: for a usable item of which the total held is a
-- multiple of the maximum, and a quantity that goes beyond the free slots by no more than one
-- slot, it answers true and addItem `nullopt`.
pub is_add_item_overpromises :
    (b : Bag) (it : Item)
    → IsUsable b it
    → total_of b it.item_id % it.max_quantity ≡ 0
    → b.usable_slots * it.max_quantity < it.quantity
    → it.quantity ≤ b.usable_slots * it.max_quantity + it.max_quantity
    → (is_add_item b it ≡ ok true) × (add_item b it ≡ nullopt)
unfolding is_add_item add_item
is_add_item_overpromises b it u tidy lo hi =
    let h : get_item_quantity b it.item_id % it.max_quantity ≡ 0 = rw (held b it u) tidy in
    let no_max : (it.max_quantity == 0) ≡ false = ne→==_false _ 0 (omega (arith, u.full_pos)) in
    let exact : (b.usable_slots * it.max_quantity) % 2 ^ 32 ≡ b.usable_slots * it.max_quantity =
      omega (arith, u.room_small) in
    let wide : (b.usable_slots * it.max_quantity + it.max_quantity - 0) % 2 ^ 32
        ≡ b.usable_slots * it.max_quantity + it.max_quantity =
      omega (arith, u.room_small) in
    rw (no_max, h) (rw wide (ap ok (le→leb _ _ hi)), rw (exact, lt→leb_false _ _ lo) refl)
