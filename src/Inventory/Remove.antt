-- ===== src/Inventory/Remove.antt =====
-- removeItem of CInventory (Inventory.cpp): exactly the quantity goes.
use mathlib.Core.List.{reverse, reverse-cons}
use game_server_client.Base.{
  length-append, ℕ, suc, ◌+◌, ◌-◌, ◌%◌, ◌^◌, ◌≤◌, ◌<◌, ◌≡◌, ◌≢◌, refl, List, [], ◌∷◌, ◌++◌, arith,
  ap, ◌∙◌, add32, sub32, le→leb, lt→leb_false, dec_lt, ℕ_discrete, ==_iff, drop, length, lt→ltb,
}
use game_server_client.Map.{Map, assign, index, erase}
use game_server_client.Item.{Item}
use game_server_client.Inventory.Bag.{Bag, SlotUpdate, ok, nullopt, get_item_quantity, delete_slot}
use game_server_client.Inventory.Change.{Removal, remove_loop, keep_slots, remove_item, updated}
use game_server_client.Inventory.Quantity.{
  total_of, slots_of, sum_of, get_item_quantity_lem, index-assign, index-erase, ne→==_false,
}

sum-append : (xs ys : Map ℕ) → sum_of (xs ++ ys) ≡ sum_of xs + sum_of ys
unfolding sum_of
sum-append [] ys = omega arith
sum-append ((s, q) ∷ xs) ys = omega (arith, sum-append xs ys)

sum-reverse : (xs : Map ℕ) → sum_of (reverse xs) ≡ sum_of xs
unfolding sum_of
sum-reverse [] = refl
sum-reverse ((s, q) ∷ xs) = omega (
  arith,
  ap sum_of (reverse-cons (s, q) xs),
  sum-append (reverse xs) ((s, q) ∷ []),
  sum-reverse xs,
)

length-reverse : (m : Map ℕ) → length (reverse m) ≡ length m
length-reverse [] = refl
length-reverse (slot ∷ m) =
    ap length (reverse-cons slot m)
    ∙ length-append (reverse m) (slot ∷ [])
    ∙ omega (arith, length-reverse m)

-- slotDeleteCount starts at -1; `gone` slots have been deleted when it is this.
abbrev counted : ℕ → ℕ
counted gone = (gone + (2 ^ 32 - 1)) % 2 ^ 32

-- The loop deletes the slots that it empties and no others, the last ones first, and what stays
-- is less by the quantity.
record Walked (b : Bag) (remove gone : ℕ) (m : Map ℕ) (r : Removal) : Type 0 where
  more : ℕ
  deleted : r.delete_count ≡ counted (gone + more)
  room : more ≤ length m
  lists : length r.backwards ≡ length m
  left : sum_of (drop more r.backwards) + remove ≡ sum_of m
  slots : r.bag.slots ≡ b.slots

module _ (id : ℕ) where
  -- The loop at a slot that holds less than is left to remove, as much, and more.
  loop_on :
      (seq q remove count : ℕ) (b : Bag) (us : List SlotUpdate) (m : Map ℕ)
      → q < remove
      → let (b', u) = delete_slot b id seq in
        let r = remove_loop b' id (sub32 remove q) (add32 count 1) (us ++ u ∷ []) m in
        remove_loop b id remove count us ((seq, q) ∷ m)
        ≡ record r { backwards = (seq, q) ∷ r.backwards }
  unfolding remove_loop
  loop_on seq q remove count b us m h = rw (remove_loop, lt→ltb q remove h) refl

  loop_exact :
      (seq q remove count : ℕ) (b : Bag) (us : List SlotUpdate) (m : Map ℕ)
      → remove ≡ q
      → remove_loop b id remove count us ((seq, q) ∷ m) ≡ record {
        bag = (delete_slot b id seq).0;
        delete_count = add32 count 1;
        updates = us ++ (delete_slot b id seq).1 ∷ [];
        backwards = (seq, q) ∷ m;
      }
  unfolding remove_loop
  loop_exact seq q remove count b us m h = ground arith

  loop_part :
      (seq q remove count : ℕ) (b : Bag) (us : List SlotUpdate) (m : Map ℕ)
      → remove < q
      → remove_loop b id remove count us ((seq, q) ∷ m) ≡ record {
        bag = b;
        delete_count = count;
        updates = us ++ updated id seq (sub32 q remove) ∷ [];
        backwards = (seq, sub32 q remove) ∷ m;
      }
  unfolding remove_loop
  loop_part seq q remove count b us m h = ground arith

  remove_loop_lem :
      (m : Map ℕ) (b : Bag) (remove gone : ℕ) (us : List SlotUpdate)
      → remove ≤ sum_of m
      → sum_of m < 2 ^ 32
      → gone + length m < 2 ^ 32
      → Walked b remove gone m (remove_loop b id remove (counted gone) us m)
  unfolding sum_of
  remove_loop_lem [] b remove gone us h k l =
      unfold remove_loop in
      record {
        more = 0;
        deleted = ap counted (omega arith);
        room = omega arith;
        lists = refl;
        left = omega arith;
        slots = refl;
      }
  remove_loop_lem ((seq, q) ∷ m) b remove gone us h k l = elim (dec_lt q remove) [
    | yes less ↦
        let b1 : Bag = (delete_slot b id seq).0 in
        let us1 : List SlotUpdate = us ++ (delete_slot b id seq).1 ∷ [] in
        let next : add32 (counted gone) 1 ≡ counted (gone + 1) = omega arith in
        let rest : sub32 remove q ≡ remove - q = omega arith in
        let w : Walked b1 (remove - q) (gone + 1) m
            (remove_loop b1 id (remove - q) (counted (gone + 1)) us1 m) =
          remove_loop_lem m b1 (remove - q) (gone + 1) us1 (omega arith) (omega arith)
            (omega arith) in
        rw (loop_on seq q remove (counted gone) b us m less, next, rest)
          (record {
            more = suc w.more;
            deleted = w.deleted ∙ ap counted (omega arith);
            room = omega (arith, w.room);
            lists = ap suc w.lists;
            left = omega (arith, w.left);
            slots = w.slots ∙ unfold delete_slot in refl;
          })
    | no not_less ↦ elim (ℕ_discrete remove q) [
      | yes same ↦ rw (loop_exact seq q remove (counted gone) b us m same) (record {
        more = 1;
        deleted = omega arith;
        room = omega arith;
        lists = refl;
        left = omega arith;
        slots = unfold delete_slot in refl;
      })
      | no other ↦ rw (loop_part seq q remove (counted gone) b us m (omega arith)) (record {
        more = 0;
        deleted = ap counted (omega arith);
        room = omega arith;
        lists = refl;
        left = omega arith;
        slots = refl;
      })
    ]
  ]

-- What `slot.erase` leaves.
keep_slots_lem :
    (b : Bag) (remove : ℕ) (m : Map ℕ) (r : Removal)
    → length m < 2 ^ 32
    → Walked b remove 0 m r
    → sum_of (keep_slots r) + remove ≡ sum_of m
unfolding keep_slots
keep_slots_lem b remove m r h w = elim (ℕ_discrete w.more 0) [
  | yes none_gone ↦
      let all : r.delete_count ≡ 2 ^ 32 - 1 = omega (arith, w.deleted) in
      let kept : keep_slots r ≡ drop w.more r.backwards = rw none_gone (ground arith) in
      omega (arith, w.left, ap sum_of kept)
  | no some_gone ↦
      let count : suc r.delete_count ≡ w.more = omega (arith, w.deleted, w.room) in
      let kept : keep_slots r ≡ drop w.more r.backwards =
        rw (← count) (ground (arith, w.deleted, w.room)) in
      omega (arith, w.left, ap sum_of kept)
]

module _ (b : Bag) (id : ℕ) (r : Removal) (same : r.bag.slots ≡ b.slots) where
  -- How removeItem puts the slots that stay back under the item.
  abbrev put_back : Map ℕ → Bag
  put_back m = record r.bag {
    slots = elim m [ [] ↦ erase id r.bag.slots | x ∷ m' ↦ assign id (x ∷ m') r.bag.slots ];
  }

  slots_of-put_back : (m : Map ℕ) → slots_of (put_back m) id ≡ m
  slots_of-put_back [] = rw (index-erase id id r.bag.slots, (==_iff id id).1 refl) refl
  slots_of-put_back (x ∷ m) =
      rw (index-assign id id (x ∷ m) r.bag.slots, (==_iff id id).1 refl) refl

  put_back_others : (m : Map ℕ) (j : ℕ) → j ≢ id → slots_of (put_back m) j ≡ slots_of b j
  put_back_others [] j ne =
      rw (index-erase id j r.bag.slots, ne→==_false j id ne) (ap (index [] j) same)
  put_back_others (x ∷ m) j ne =
      rw (index-assign id j (x ∷ m) r.bag.slots, ne→==_false j id ne) (ap (index [] j) same)

-- removeItem of no more than is held succeeds and takes exactly the quantity from the item and
-- nothing from the others, where the total held and the number of the item's slots fit a DWORD.
pub remove_item_lem :
    (b : Bag) (it : Item)
    → total_of b it.item_id < 2 ^ 32
    → length (slots_of b it.item_id) < 2 ^ 32
    → it.quantity ≤ total_of b it.item_id
    → (b' : Bag) × (us : List SlotUpdate) × (remove_item b it ≡ ok (b', us))
      × (total_of b' it.item_id + it.quantity ≡ total_of b it.item_id)
      × ((j : ℕ) → j ≢ it.item_id → slots_of b' j ≡ slots_of b j)
unfolding remove_item
remove_item_lem b it small short enough =
    let m : Map ℕ = slots_of b it.item_id in
    let sum : sum_of (reverse m) ≡ sum_of m = sum-reverse m in
    let len : length (reverse m) ≡ length m = length-reverse m in
    let r : Removal = remove_loop b it.item_id it.quantity (2 ^ 32 - 1) [] (reverse m) in
    let w : Walked b it.quantity 0 (reverse m) r =
      remove_loop_lem it.item_id (reverse m) b it.quantity 0 [] (omega arith) (omega arith)
        (omega arith) in
    let kept : Map ℕ = reverse (keep_slots r) in
    let all : get_item_quantity b it.item_id ≡ total_of b it.item_id =
      get_item_quantity_lem b it.item_id ∙ omega arith in
    (
      put_back b it.item_id r w.slots kept,
      r.updates,
      rw (all, le→leb it.quantity (total_of b it.item_id) enough) refl,
      rw (slots_of-put_back b it.item_id r w.slots kept, sum-reverse (keep_slots r))
          (omega (arith, keep_slots_lem b it.quantity (reverse m) r (omega arith) w)),
      put_back_others b it.item_id r w.slots kept,
    )

-- removeItem of more than is held refuses, where the quantity fits a DWORD.
pub remove_item_refuses :
    (b : Bag) (it : Item)
    → total_of b it.item_id < it.quantity
    → it.quantity < 2 ^ 32
    → remove_item b it ≡ nullopt
unfolding remove_item
remove_item_refuses b it over small =
    let all : get_item_quantity b it.item_id ≡ total_of b it.item_id =
      get_item_quantity_lem b it.item_id ∙ omega arith in
    rw (all, lt→leb_false it.quantity (total_of b it.item_id) over) refl
