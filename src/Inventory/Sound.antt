-- ===== src/Inventory/Sound.antt =====
-- The slots of an inventory are given out lowest first (getNextSlotSeq of Inventory.cpp).
-- deleteSlot of Inventory.cpp).
use game_server_client.Base.{
  ℕ, suc, ◌+◌, ◌-◌, ◌≤◌, ◌<◌, ◌≡◌, Bool, true, false, List, none, some, arith, get_or, set, length,
  length-set, get_or-set_self, get_or-set_ne, sub32, dec_lt, ◌∙◌, ap, inl, inr,
}
use game_server_client.Inventory.Bag.{Bag, scan_after, get_next_slot_seq}
use game_server_client.Inventory.Free.{
  free_between, free_at, free_in-set, free_in-le, scan_finds, scan-none, one_if,
}

-- What CInventory keeps of an inventory's slots 1 to 128: `usableSlots` counts the free ones, and
-- while there is one `nextSlotSeq` is the lowest.
pub record IsSound (b : Bag) : Type 0 where
  pub size : length b.available_slot ≡ 129
  pub next_lo : 1 ≤ b.next_slot_seq
  pub next_hi : b.next_slot_seq ≤ 128
  pub counted : b.usable_slots ≡ free_between b.available_slot 1 129
  pub lowest :
      0 < b.usable_slots
      → (get_or b.available_slot b.next_slot_seq false ≡ true)
        × (free_between b.available_slot 1 b.next_slot_seq ≡ 0)

module _ (b : Bag) (v : IsSound b) (h : 0 < b.usable_slots) where
  open b use {available_slot as free, next_slot_seq as next}

  taken : List Bool
  taken = set free next false

  taken_count : free_between taken 1 129 + 1 ≡ b.usable_slots
  unfolding taken
  taken_count = omega (
    arith,
    v.counted,
    free_at free 1 next 129 v.next_lo (omega (arith, v.next_hi)),
    free_at taken 1 next 129 v.next_lo (omega (arith, v.next_hi)),
    free_in-set free (next - 1) 1 next false (inr (omega (arith, v.next_lo))),
    free_in-set free (129 - suc next) (suc next) next false (inl (omega arith)),
    ap one_if (get_or-set_self free next false false (omega (arith, v.size, v.next_hi))),
    ap one_if (v.lowest h).0,
  )

  -- Where a later slot is free, the lowest such slot is the next one.
  next_lowest :
      0 < free_between free (suc next) 129
      → (j : ℕ) × (scan_after b next ≡ some j)
        × (suc next ≤ j)
        × (j ≤ 128)
        × (get_or taken j false ≡ true)
        × (free_between taken 1 j ≡ 0)
  unfolding taken
  next_lowest k =
      let (j, found, lo, hi, is_free, below) = scan_finds free (129 - suc next) (suc next) k in
      (
        j,
        rw v.size found,
        lo,
        omega (arith, v.next_hi),
        get_or-set_ne free next j false false (omega arith) ∙ is_free,
        omega (
          arith,
          below,
          (v.lowest h).1,
          free_at taken 1 next j v.next_lo lo,
          free_in-set free (next - 1) 1 next false (inr (omega (arith, v.next_lo))),
          free_in-set free (j - suc next) (suc next) next false (inl (omega arith)),
          ap one_if (get_or-set_self free next false false (omega (arith, v.size, v.next_hi))),
        ),
      )

  later_free : free_between free (suc next) 129 + 1 ≡ b.usable_slots
  later_free = omega (
    arith,
    v.counted,
    free_at free 1 next 129 v.next_lo (omega (arith, v.next_hi)),
    ap one_if (v.lowest h).0,
    (v.lowest h).1,
  )

  usable_small : b.usable_slots ≤ 128
  usable_small = omega (arith, v.counted, free_in-le free 128 1)

  sub_one : sub32 b.usable_slots 1 + 1 ≡ b.usable_slots
  sub_one = omega (arith, usable_small)

  taken_next : IsSound (get_next_slot_seq b).0
  unfolding get_next_slot_seq taken
  taken_next = elim (dec_lt 0 (free_between free (suc next) 129)) [
    | yes some_left ↦
        let (j, found, lo, hi, is_free, below) = next_lowest some_left in
        rw found (record {
          size = length-set free next false ∙ v.size;
          next_lo = omega arith;
          next_hi = hi;
          counted = omega (arith, taken_count, sub_one);
          lowest = λ _. (is_free, below);
        })
    | no none_left ↦
        let nothing : scan_after b next ≡ none =
          rw v.size (scan-none free (129 - suc next) (suc next) (omega arith)) in
        rw nothing (record {
          size = length-set free next false ∙ v.size;
          next_lo = v.next_lo;
          next_hi = v.next_hi;
          counted = omega (arith, taken_count, sub_one);
          lowest = λ left. absurd (omega (arith, later_free, sub_one));
        })
  ]

-- A sound inventory with a free slot gives out one that was free and takes it; it is sound after,
-- with one free slot fewer.
pub get_next_slot_seq_lem :
    (b : Bag)
    → IsSound b
    → 0 < b.usable_slots
    → let (b', seq) = get_next_slot_seq b in
      IsSound b'
      × (get_or b.available_slot seq false ≡ true)
      × (get_or b'.available_slot seq true ≡ false)
      × (b'.usable_slots + 1 ≡ b.usable_slots)
unfolding get_next_slot_seq
get_next_slot_seq_lem b v h = (
  taken_next b v h,
  (v.lowest h).0,
  get_or-set_self b.available_slot b.next_slot_seq false true (omega (arith, v.size, v.next_hi)),
  sub_one b v h,
)
