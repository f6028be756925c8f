-- ===== src/Inventory/Fill.antt =====
-- The loops of addItem that fill new slots (Inventory.cpp).
use game_server_client.Base.{
  ℕ, zero, suc, ◌+◌, ◌*◌, ◌^◌, ◌≤◌, ◌<◌, ◌≡◌, ◌≢◌, refl, true, false, List, [], ◌∷◌, ◌++◌, arith,
  some, ◌∙◌, sub32, le→leb, lt→leb_false, leb,
}
use game_server_client.Item.{Item}
use game_server_client.Inventory.Bag.{Bag, SlotUpdate, insert_slot}
use game_server_client.Inventory.Change.{fill}
use game_server_client.Inventory.Sound.{IsSound}
use game_server_client.Inventory.Quantity.{Marked, total_of, slots_of, insert_slot_lem}

-- `k` full slots and one more hold `count`.
abbrev pub Slots : (k full count : ℕ) → Type 0
Slots k full count = (k * full ≤ count) × (count < suc k * full)

-- What the loop comes to.
pub record Filled (b : Bag) (it : Item) (count k : ℕ) (b' : Bag) : Type 0 where
  pub sound : IsSound b'
  pub marked : Marked b'
  pub taken : b'.usable_slots + suc k ≡ b.usable_slots
  pub added : total_of b' it.item_id ≡ total_of b it.item_id + count
  pub others : (j : ℕ) → j ≢ it.item_id → slots_of b' j ≡ slots_of b j

pub fewer :
    (k full count : ℕ) → Slots (suc k) full count → count < 2 ^ 32 → Slots k full (sub32 count full)
fewer k full count s h = omega arith

module _ (it : Item) where
  -- With fuel for each slot the loop ends, and where there is a free slot for each the item has
  -- `count` more and `suc k` slots are taken.
  pub fill_lem :
      (k fuel : ℕ) (b : Bag) (count : ℕ) (us : List SlotUpdate)
      → IsSound b
      → Marked b
      → Slots k it.max_quantity count
      → count < 2 ^ 32
      → k < fuel
      → k < b.usable_slots
      → (b' : Bag) × (us' : List SlotUpdate) × (fill fuel b it count us ≡ some (b', us'))
        × Filled b it count k b'
  unfolding fill
  fill_lem k zero b count us v m s c f h = absurd (omega arith)
  fill_lem zero (suc fuel) b count us v m s c f h =
      let (v', m', u, t, o) = insert_slot_lem b it.item_id count v m (omega arith) in
      let last : leb it.max_quantity count ≡ false =
        lt→leb_false it.max_quantity count (omega arith) in
      (
        (insert_slot b it.item_id count).0,
        us ++ (insert_slot b it.item_id count).1 ∷ [],
        rw (last, fill) refl,
        record { sound = v'; marked = m'; taken = u; added = t; others = o },
      )
  fill_lem (suc k) (suc fuel) b count us v m s c f h =
      let full : ℕ = it.max_quantity in
      let b1 : Bag = (insert_slot b it.item_id full).0 in
      let (v', m', u, t, o) = insert_slot_lem b it.item_id full v m (omega arith) in
      let more : leb full count ≡ true = le→leb full count (omega arith) in
      let cut : sub32 count full + full ≡ count = omega arith in
      let (b', us', e, r) =
        fill_lem k fuel b1 (sub32 count full) (us ++ (insert_slot b it.item_id full).1 ∷ []) v' m'
          (fewer k full count s c) (omega arith) (omega arith) (omega arith) in
      (
        b',
        us',
        rw (more, fill) e,
        record {
          sound = r.sound;
          marked = r.marked;
          taken = omega (arith, r.taken);
          added = omega (arith, r.added, t, cut);
          others = λ j ne. r.others j ne ∙ o j ne;
        },
      )
