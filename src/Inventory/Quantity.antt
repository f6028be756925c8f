-- ===== src/Inventory/Quantity.antt =====
-- How many of an item an inventory holds, and what one new slot adds (getItemQuantity and
-- insertSlot of Inventory.cpp).
use game_server_client.Base.{
  ℕ, ◌+◌, ◌%◌, ◌^◌, ◌<◌, ◌≡◌, ◌≢◌, refl, true, false, [], ◌∷◌, arith, if◌then◌else◌, ◌==◌, get_or,
  set, ℕ_discrete, ap, ◌∙◌, sym, Bool-cases, inl, inr, ==_iff, add32, get_or-set_ne, get_or_default,
}
use mathlib.Core.Bool.{false≢true}
use game_server_client.Map.{
  Map, has, assign, index, find-assign, find-erase, erase, has-assign, find-has,
}
use game_server_client.Inventory.Bag.{
  Bag, get_item_quantity, contain_item, sum_slots, insert_slot, get_next_slot_seq,
}
use game_server_client.Inventory.Sound.{IsSound, get_next_slot_seq_lem}

unfoldable pub sum_of : Map ℕ → ℕ
sum_of [] = 0
sum_of ((seq, q) ∷ m) = q + sum_of m

-- The slots of an item, none if it has no entry.
abbrev pub slots_of : Bag → ℕ → Map ℕ
slots_of b id = index [] id b.slots

-- The number held, before it is cut to a DWORD.
abbrev pub total_of : Bag → ℕ → ℕ
total_of b id = sum_of (slots_of b id)

sum_slots_lem : (m : Map ℕ) (t : ℕ) → t < 2 ^ 32 → sum_slots t m ≡ (t + sum_of m) % 2 ^ 32
unfolding sum_slots sum_of
sum_slots_lem [] t h = omega arith
sum_slots_lem ((seq, q) ∷ m) t h = omega (arith, sum_slots_lem m (add32 t q) (omega arith))

zero_add : (n : ℕ) → 0 + n ≡ n
zero_add n = omega arith

-- `getItemQuantity` is the number held modulo 2 ^ 32.
pub get_item_quantity_lem : (b : Bag) (id : ℕ) → get_item_quantity b id ≡ total_of b id % 2 ^ 32
unfolding get_item_quantity contain_item
get_item_quantity_lem b id = elim (Bool-cases (has id b.slots)) [
  | inl there ↦ rw there (
      sum_slots_lem (slots_of b id) 0 (omega arith)
      ∙ ap (λ n. n % 2 ^ 32) (zero_add (total_of b id)))
  | inr gone ↦
      let nothing : slots_of b id ≡ [] = unfold index in rw (find-has id b.slots gone, index) in
      rw (gone, nothing) (unfold sum_of in refl)
]

pub index-assign :
    (k j : ℕ) (v : Map ℕ) (m : Map (Map ℕ))
    → index [] j (assign k v m) ≡ (if j == k then v else index [] j m)
unfolding index
index-assign k j v m = ground (arith, find-assign k j v m)

pub index-erase :
    (k j : ℕ) (m : Map (Map ℕ)) → index [] j (erase k m) ≡ (if j == k then [] else index [] j m)
unfolding index
index-erase k j m = ground (arith, find-erase k j m)

pub sum-assign :
    (seq q : ℕ) (m : Map ℕ) → has seq m ≡ false → sum_of (assign seq q m) ≡ sum_of m + q
unfolding sum_of assign has
sum-assign seq q [] h = omega arith
sum-assign seq q ((j, w) ∷ m) h = ground (arith, sum-assign seq q m)

-- A slot that holds something is marked as in use.
abbrev pub Marked : Bag → Type 0
Marked b = (id seq : ℕ) → has seq (slots_of b id) ≡ true → get_or b.available_slot seq true ≡ false

pub ne→==_false : (a b : ℕ) → a ≢ b → (a == b) ≡ false
ne→==_false a b h = ground arith

module _ (b : Bag) (id q : ℕ) (v : IsSound b) (marked : Marked b) (h : 0 < b.usable_slots) where
  open b use {available_slot as free, next_slot_seq as next}

  given : get_or (set free next false) next true ≡ false
  unfolding get_next_slot_seq
  given = (get_next_slot_seq_lem b v h).2

  fresh : has next (slots_of b id) ≡ false
  fresh = elim (Bool-cases (has next (slots_of b id))) [
    | inr e ↦ e
    | inl e ↦ absurd (
        false≢true (
          sym (marked id next e)
          ∙ get_or_default free next true false (omega (arith, v.size, v.next_hi))
          ∙ (v.lowest h).0))
  ]

  still_marked :
      (seq : ℕ) → get_or free seq true ≡ false → get_or (set free next false) seq true ≡ false
  still_marked seq e = elim (ℕ_discrete seq next) [
    | yes same ↦ rw same given
    | no apart ↦ get_or-set_ne free next seq false true (λ e. apart (sym e)) ∙ e
  ]

  inserted_marked :
      (id' seq : ℕ)
      → has seq (index [] id' (assign id (assign next q (slots_of b id)) b.slots)) ≡ true
      → get_or (set free next false) seq true ≡ false
  inserted_marked id' seq =
      rw (index-assign id id' (assign next q (slots_of b id)) b.slots)
        (elim (Bool-cases (id' == id)) [
          | inr other ↦ rw other (λ e. still_marked seq (marked id' seq e))
          | inl same ↦
              rw (same, has-assign next seq q (slots_of b id))
                (elim (ℕ_discrete seq next) [
                  | yes at ↦ λ _. rw at given
                  | no apart ↦ ground (arith, marked id seq, still_marked seq)
                ])
        ])

  -- A new slot adds its quantity to its item and nothing to the others, and takes a free slot.
  pub insert_slot_lem :
      let b' = (insert_slot b id q).0 in
      IsSound b'
      × Marked b'
      × (b'.usable_slots + 1 ≡ b.usable_slots)
      × (total_of b' id ≡ total_of b id + q)
      × ((j : ℕ) → j ≢ id → slots_of b' j ≡ slots_of b j)
  unfolding insert_slot get_next_slot_seq
  insert_slot_lem =
      let (s, _, _, u) = get_next_slot_seq_lem b v h in
      (
        record {
          size = s.size;
          next_lo = s.next_lo;
          next_hi = s.next_hi;
          counted = s.counted;
          lowest = s.lowest;
        },
        inserted_marked,
        u,
        rw (index-assign id id (assign next q (slots_of b id)) b.slots, (==_iff id id).1 refl)
            (sum-assign next q (slots_of b id) fresh),
        λ j ne.
            rw (index-assign id j (assign next q (slots_of b id)) b.slots, ne→==_false j id ne)
              refl,
      )
