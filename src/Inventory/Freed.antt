-- ===== src/Inventory/Freed.antt =====
-- The slots of an inventory are taken back (deleteSlot of Inventory.cpp).
-- deleteSlot of Inventory.cpp).
use game_server_client.Base.{
  get_or_default, add32, ℕ, suc, ◌+◌, ◌-◌, ◌≤◌, ◌<◌, ◌≡◌, ◌≢◌, refl, Bool, true, false, List, arith,
  get_or, set, length-set, get_or-set_self, get_or-set_ne, dec_lt, ◌∙◌, ap, sym, inl, inr, min,
}
use mathlib.Core.Bool.{false≢true}
use game_server_client.Inventory.Bag.{Bag, get_next_slot_seq, delete_slot}
use game_server_client.Inventory.Free.{free_between, free_at, free_in-set, free_in-le, one_if}
use game_server_client.Inventory.Sound.{IsSound}

not_one : (x : Bool) → one_if x ≡ 0 → x ≡ false
not_one true h = absurd (omega arith)
not_one false h = refl

-- deleteSlot of a slot in use keeps an inventory sound if it has a free slot already, with one
-- free slot more.
pub delete_slot-IsSound :
    (b : Bag) (id seq : ℕ)
    → IsSound b
    → 1 ≤ seq
    → seq ≤ 128
    → get_or b.available_slot seq true ≡ false
    → 0 < b.usable_slots
    → let b' = (delete_slot b id seq).0 in IsSound b' × (b'.usable_slots ≡ b.usable_slots + 1)
unfolding delete_slot
delete_slot-IsSound b id seq v lo hi used h =
    let was : get_or free seq false ≡ false =
      get_or_default free seq false true (omega (arith, v.size)) ∙ used in
    let now : get_or back seq false ≡ true =
      get_or-set_self free seq true false (omega (arith, v.size)) in
    let below : free_between back 1 seq ≡ free_between free 1 seq =
      free_in-set free (seq - 1) 1 seq true (inr (omega arith)) in
    let above : free_between back (suc seq) 129 ≡ free_between free (suc seq) 129 =
      free_in-set free (129 - suc seq) (suc seq) seq true (inl (omega arith)) in
    let small : b.usable_slots ≤ 128 = omega (arith, v.counted, free_in-le free 128 1) in
    let count : add32 b.usable_slots 1 ≡ free_between back 1 129 = omega (
      arith,
      v.counted,
      free_at free 1 seq 129 lo (omega arith),
      free_at back 1 seq 129 lo (omega arith),
      ap one_if was,
      ap one_if now,
    ) in
    (
      record {
        size = length-set free seq true ∙ v.size;
        next_lo = omega (arith, v.next_lo);
        next_hi = omega (arith, v.next_hi);
        counted = count;
        lowest = λ _. freed_lowest;
      },
      omega arith,
    )
  where
    open b use {available_slot as free, next_slot_seq as next}

    back : List Bool
    back = set free seq true

    freed_lowest :
        (get_or back (min next seq) false ≡ true) × (free_between back 1 (min next seq) ≡ 0)
    freed_lowest = elim (dec_lt seq next) [
      | yes under ↦
          let m : min next seq ≡ seq = omega arith in
          rw m (
            get_or-set_self free seq true false (omega (arith, v.size)),
            omega (
              arith,
              free_in-set free (seq - 1) 1 seq true (inr (omega arith)),
              (v.lowest h).1,
              free_at free 1 seq next lo under,
            ),
          )
      | no above ↦
          let apart : seq ≢ next = λ e. false≢true (
            sym used
            ∙ ap (λ i. get_or free i true) e
            ∙ get_or_default free next true false (omega (arith, v.size, v.next_hi))
            ∙ (v.lowest h).0) in
          let m : min next seq ≡ next = omega arith in
          rw m (
            get_or-set_ne free seq next true false apart ∙ (v.lowest h).0,
            omega (
              arith,
              free_in-set free (next - 1) 1 seq true (inr (omega (arith, v.next_lo))),
              (v.lowest h).1,
            ),
          )
    ]

-- deleteSlot in a sound inventory with no free slot, of a slot above the one that `nextSlotSeq`
-- names: getNextSlotSeq then gives out the named slot, which is in use.
pub delete_slot_stale :
    (b : Bag) (id seq : ℕ)
    → IsSound b
    → b.usable_slots ≡ 0
    → seq ≤ 128
    → b.next_slot_seq < seq
    → let freed = (delete_slot b id seq).0 in
      ((get_next_slot_seq freed).1 ≡ b.next_slot_seq)
      × (get_or freed.available_slot b.next_slot_seq true ≡ false)
unfolding delete_slot get_next_slot_seq
delete_slot_stale b id seq v full hi low = (
  omega arith,
  get_or-set_ne b.available_slot seq b.next_slot_seq true true (omega arith)
      ∙ get_or_default b.available_slot b.next_slot_seq true false (omega (arith, v.size))
      ∙ not_one (get_or b.available_slot b.next_slot_seq false) (
          omega (
            arith,
            v.counted,
            free_at b.available_slot 1 b.next_slot_seq 129 v.next_lo (omega (arith, v.next_hi)),
          )),
)
