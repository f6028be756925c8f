-- ===== src/Inventory/Partial.antt =====
-- addItem of CInventory (Inventory.cpp) where a slot of the item is not full.
use game_server_client.Base.{
  ℕ, suc, ◌+◌, ◌-◌, ◌*◌, ◌/◌, ◌%◌, ◌^◌, ◌≤◌, ◌<◌, ◌≡◌, ◌≢◌, refl, false, List, [], ◌∷◌, arith, some,
  ap, ◌∙◌, sym, add32, sub32, le→leb, lt→leb_false, ◌==◌, ℕ_discrete, ==_iff,
}
use native.Mathlib.Nat.{mod-lt}
use game_server_client.Map.{Map, has}
use game_server_client.Item.{Item}
use game_server_client.Inventory.Bag.{Bag, SlotUpdate, ok}
use game_server_client.Inventory.Change.{
  updated, returned, fill, add_item, add_to_partial, partial_slot, write_partial, with_slots,
}
use game_server_client.Inventory.Sound.{IsSound}
use game_server_client.Inventory.Quantity.{
  Marked, total_of, slots_of, sum_of, index-assign, ne→==_false,
}
use game_server_client.Inventory.Fill.{fill_lem}
use game_server_client.Inventory.Add.{IsUsable, held, Slots-quotient, quotient_small, room_for}

-- The slot that is not full, and the others.
sum-write_partial :
    (full v seq q : ℕ) (m : Map ℕ)
    → partial_slot full m ≡ some (seq, q)
    → sum_of (write_partial full v m) + q ≡ sum_of m + v
unfolding partial_slot write_partial sum_of
sum-write_partial full v seq q [] h = cc
sum-write_partial full v seq q ((j, w) ∷ m) h = ground (arith, sum-write_partial full v seq q m)

has-write_partial : (full v j : ℕ) (m : Map ℕ) → has j (write_partial full v m) ≡ has j m
unfolding write_partial has
has-write_partial full v j [] = refl
has-write_partial full v j ((i, w) ∷ m) = ground (arith, has-write_partial full v j m)

module _ (b : Bag) (id full w seq q : ℕ)
    (part : partial_slot full (slots_of b id) ≡ some (seq, q)) where
  abbrev written : Bag
  written = with_slots b id (write_partial full w (slots_of b id))

  slots_of-written : slots_of written id ≡ write_partial full w (slots_of b id)
  slots_of-written =
      rw (index-assign id id (write_partial full w (slots_of b id)) b.slots, (==_iff id id).1 refl)
        refl

  written_others : (j : ℕ) → j ≢ id → slots_of written j ≡ slots_of b j
  written_others j ne =
      rw (index-assign id j (write_partial full w (slots_of b id)) b.slots, ne→==_false j id ne)
        refl

  total_of-written : total_of written id + q ≡ total_of b id + w
  total_of-written =
      ap (λ m. sum_of m + q) slots_of-written ∙ sum-write_partial full w seq q (slots_of b id) part

  written-Marked : Marked b → Marked written
  written-Marked m j seq e = elim (ℕ_discrete j id) [
    | yes same ↦ m id seq (
        sym (has-write_partial full w seq (slots_of b id))
        ∙ sym (ap (has seq) slots_of-written)
        ∙ ap (λ i. has seq (slots_of written i)) (sym same)
        ∙ e)
    | no other ↦ m j seq (sym (ap (has seq) (written_others j other)) ∙ e)
  ]

  written-IsSound : IsSound b → IsSound written
  written-IsSound v = record {
    size = v.size;
    next_lo = v.next_lo;
    next_hi = v.next_hi;
    counted = v.counted;
    lowest = v.lowest;
  }

  q-le : q ≤ total_of b id
  q-le = omega (arith, sum-write_partial full 0 seq q (slots_of b id) part)

-- What addItem comes to where a slot is not full: the item has `gain` more, the other items are as
-- they were, and the inventory is sound.
pub record Added (b : Bag) (it : Item) (gain lost : ℕ) (b' : Bag) : Type 0 where
  pub sound : IsSound b'
  pub marked : Marked b'
  pub added : total_of b' it.item_id + lost ≡ total_of b it.item_id + gain
  pub others : (j : ℕ) → j ≢ it.item_id → slots_of b' j ≡ slots_of b j

module _ (b : Bag) (it : Item) (seq q : ℕ) (v : IsSound b) (m : Marked b) (u : IsUsable b it)
    (part : partial_slot it.max_quantity (slots_of b it.item_id) ≡ some (seq, q))
    (untidy : total_of b it.item_id % it.max_quantity ≢ 0) where
  open b use {usable_slots as usable}
  open it use {item_id as id, max_quantity as full, quantity as qty}

  add_partial :
      qty + total_of b id % full ≤ usable * full + full
      → add_item b it ≡ add_to_partial b it (total_of b id)
  unfolding add_item
  add_partial room =
      let no_max : (full == 0) ≡ false = ne→==_false full 0 (omega (arith, u.full_pos)) in
      let not_tidy : (total_of b id % full == 0) ≡ false = ne→==_false _ 0 untidy in
      let exact : (usable * full + full - total_of b id % full) % 2 ^ 32
          ≡ usable * full + full - total_of b id % full =
        omega (arith, u.room_small) in
      rw
        (
          no_max,
          held b it u,
          not_tidy,
          exact,
          le→leb qty (usable * full + full - total_of b id % full) (omega arith),
        )
        refl

  -- addItem of a usable item in a sound inventory whose held slots are marked, where the total held
  -- is no multiple of the maximum. If the first slot that is not full has room for the quantity,
  -- and the free slots and the maximum are room for the quantity and the total held modulo the
  -- maximum, it adds exactly the quantity, and leaves the other items and the inventory sound.
  pub add_item_into_slot :
      q + qty ≤ full
      → qty + total_of b id % full ≤ usable * full + full
      → (b' : Bag) × (us : List SlotUpdate) × (add_item b it ≡ ok (b', us)) × Added b it qty 0 b'
  unfolding add_to_partial
  add_item_into_slot fits room =
      let exact : add32 q qty ≡ q + qty =
        omega (arith, q-le b id full 0 seq q part, u.total_small) in
      let b1 : Bag = with_slots b id (write_partial full (q + qty) (slots_of b id)) in
      (
        b1,
        updated id seq (q + qty) ∷ [],
        add_partial room ∙ rw (part, add_to_partial) (rw (exact, le→leb _ _ fits) refl),
        record {
          sound = written-IsSound b id full (q + qty) seq q part v;
          marked = written-Marked b id full (q + qty) seq q part m;
          added = omega (arith, total_of-written b id full (q + qty) seq q part);
          others = written_others b id full (q + qty) seq q part;
        },
      )

  past_slot :
      full < q + qty
      → full ≤ qty + total_of b id % full
      → qty + total_of b id % full ≤ usable * full + full
      → add_item b it
        ≡ returned (
            fill
              (suc (qty + total_of b id % full - full))
              (with_slots b id (write_partial full full (slots_of b id)))
              it
              (qty + total_of b id % full - full)
              (updated id seq full ∷ []))
  unfolding add_to_partial
  past_slot over enough room =
      let exact : add32 q qty ≡ q + qty =
        omega (arith, q-le b id full 0 seq q part, u.total_small) in
      let rest : sub32 qty (full - total_of b id % full) ≡ qty + total_of b id % full - full =
        omega (arith, mod-lt (total_of b id) u.full_pos, u.total_small) in
      add_partial room
      ∙ rw (part, add_to_partial) (rw (exact, lt→leb_false (q + qty) full over, rest) refl)

  -- addItem, under the same conditions, where that slot has not the room but the quantity and the
  -- total held modulo the maximum come to the maximum at least, with a free slot for each full one
  -- of what is beyond it and one more. What it adds is the quantity, more by the total held modulo
  -- the maximum and less by what the slot held; the other items and the inventory's soundness stay.
  pub add_item_past_slot :
      full < q + qty
      → full ≤ qty + total_of b id % full
      → (qty + total_of b id % full - full) / full < usable
      → (b' : Bag) × (us : List SlotUpdate) × (add_item b it ≡ ok (b', us))
        × Added b it (qty + total_of b id % full) q b'
  add_item_past_slot over enough room =
      let t : ℕ = total_of b id % full in
      let below : t < full = mod-lt (total_of b id) u.full_pos in
      let b1 : Bag = with_slots b id (write_partial full full (slots_of b id)) in
      let (b', us, e, r) =
        fill_lem it ((qty + t - full) / full) (suc (qty + t - full)) b1 (qty + t - full)
          (updated id seq full ∷ []) (written-IsSound b id full full seq q part v)
          (written-Marked b id full full seq q part m)
          (Slots-quotient (qty + t - full) full u.full_pos) (omega (arith, u.total_small))
          (omega (arith, quotient_small (qty + t - full) full)) room in
      (
        b',
        us,
        past_slot over enough (omega (arith, room_for (qty + t - full) full usable u.full_pos room))
            ∙ ap returned e,
        record {
          sound = r.sound;
          marked = r.marked;
          added = omega (arith, r.added, total_of-written b id full full seq q part);
          others = λ j ne. r.others j ne ∙ written_others b id full full seq q part j ne;
        },
      )
