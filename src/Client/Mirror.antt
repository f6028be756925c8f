-- ===== src/Client/Mirror.antt =====
-- What the client shows of an item is what the server holds (클라이언트/컨텐츠/GameClient.cpp and
-- 게임서버/컨텐츠/클래스/Inventory.cpp).
use game_server_client.Base.{
  ℕ, zero, suc, ◌+◌, ◌/◌, ◌%◌, ◌^◌, ◌<◌, ◌≡◌, refl, true, false, List, [], ◌∷◌, ◌++◌, arith, Option,
  none, some, ◌∙◌, sub32, le→leb, lt→leb_false, leb, ltb, map, length, get_or, set, if◌then◌else◌,
  ◌==◌, length-set, get_or-set_self, get_or-set_ne, ap, sym, ◌>>=◌, Option-cases, inl, inr,
  ℕ_discrete,
}
use game_server_client.Map.{Map, find, assign, index, find-assign}
use game_server_client.Item.{Item}
use game_server_client.Inventory.Bag.{
  Bag, SlotUpdate, insert_inventory, insert_slot, get_next_slot_seq, ok,
}
use game_server_client.Inventory.Change.{fill, add_item, returned}
use game_server_client.Inventory.Sound.{IsSound}
use game_server_client.Inventory.Quantity.{
  Marked, total_of, slots_of, insert_slot_lem, ne→==_false, index-assign,
}
use game_server_client.Inventory.Fill.{Slots, fewer}
use game_server_client.Inventory.Add.{
  IsUsable, add_new, Slots-quotient, quotient_small, le_of_lt, room_for,
}
use game_server_client.Client.{Held, Character, no_item, put_item, put_slots, change_item}

-- The item of a message, before the slots are read.
abbrev pub shown : Item → Held
shown it = record {
  kind = it.kind;
  item_id = it.item_id;
  name = it.name;
  description = it.description;
  max_quantity = it.max_quantity;
  quantity = 0;
  seq = 0;
}

-- What the messages have of the changes.
abbrev pub changes : List SlotUpdate → List (ℕ × ℕ)
changes us = map (λ u. (u.seq, u.quantity)) us

-- How much of an item the client has in a slot, and how much the server has there.
abbrev pub quantity_at : Held → (id : ℕ) → ℕ
quantity_at h id = if h.item_id == id then h.quantity else 0

abbrev pub held_at : Option ℕ → ℕ
held_at none = 0
held_at (some n) = n

abbrev pub Mirrors : List Held → Bag → (id : ℕ) → Type 0
Mirrors slots b id =
    (seq : ℕ) → quantity_at (get_or slots seq no_item) id ≡ held_at (find seq (slots_of b id))

put_slots-append :
    (item : Held) (first second : List (ℕ × ℕ)) (slots slots' : List Held)
    → put_slots item first slots ≡ some slots'
    → put_slots item (first ++ second) slots ≡ put_slots item second slots'
unfolding put_slots
put_slots-append item [] second slots slots' h = ground arith
put_slots-append item ((seq, q) ∷ first) second slots slots' h =
    let go : Option (List Held) → Option (List Held) = λ o. o >>= λ s. put_slots item first s in
    elim (Option-cases (put_item (record item { seq = seq; quantity = q }) slots)) [
      | inl e ↦ let no : none ≡ some slots' = sym (ap go e) ∙ h in cc
      | inr (s, e) ↦ rw e (put_slots-append item first second s slots' (sym (ap go e) ∙ h))
    ]

module _ (it : Item) (b : Bag) (q : ℕ) (v : IsSound b) (slots : List Held)
    (size : length slots ≡ 129) (mirrors : Mirrors slots b it.item_id) where
  abbrev next : ℕ
  next = b.next_slot_seq

  abbrev item : Held
  item = record (shown it) { seq = next; quantity = q }

  -- A new slot of the server, put where its change says.
  put_one : put_slots (shown it) ((next, q) ∷ []) slots ≡ some (set slots next item)
  unfolding put_slots put_item
  put_one =
      let inside : ltb next (length slots) ≡ true = ground (arith, v.next_hi, size) in
      rw inside refl

  self : (it.item_id == it.item_id) ≡ true
  self = ground arith

  insert_slot-Mirrors : Mirrors (set slots next item) (insert_slot b it.item_id q).0 it.item_id
  unfolding insert_slot get_next_slot_seq
  insert_slot-Mirrors seq =
      let m : Map ℕ = slots_of b it.item_id in
      rw
        (
          index-assign it.item_id it.item_id (assign next q m) b.slots,
          self,
          find-assign next seq q m,
        )
        (elim (ℕ_discrete seq next) [
          | yes e ↦
              let there : get_or (set slots next item) next no_item ≡ item =
                get_or-set_self slots next item no_item (omega (arith, v.next_hi, size)) in
              let same : (next == next) ≡ true = ground arith in rw (e, there, self, same) refl
          | no ne ↦
              let left : get_or (set slots next item) seq no_item ≡ get_or slots seq no_item =
                get_or-set_ne slots next seq item no_item (λ e. ne (sym e)) in
              let other : (seq == next) ≡ false = ne→==_false seq next ne in
              rw (left, other) (mirrors seq)
        ])

-- What the client has shown of the changes so far, when the server has made them.
pub record Followed (it : Item) (start : List Held) (b : Bag) (us : List SlotUpdate) : Type 0 where
  pub slots : List Held
  pub size : length slots ≡ 129
  pub applied : put_slots (shown it) (changes us) start ≡ some slots
  pub mirrors : Mirrors slots b it.item_id

changes-append : (us vs : List SlotUpdate) → changes (us ++ vs) ≡ changes us ++ changes vs
changes-append [] vs = refl
changes-append (u ∷ us) vs = ap (λ cs. (u.seq, u.quantity) ∷ cs) (changes-append us vs)

-- One more slot.
follow :
    (it : Item) (start : List Held) (b : Bag) (us : List SlotUpdate) (q : ℕ)
    → IsSound b
    → Followed it start b us
    → let (b', u) = insert_slot b it.item_id q in Followed it start b' (us ++ u ∷ [])
unfolding insert_slot get_next_slot_seq
follow it start b us q v f =
    let u : SlotUpdate = record {
      kind = insert_inventory;
      item_id = it.item_id;
      seq = b.next_slot_seq;
      quantity = q;
    } in
    record {
      slots =
          set f.slots b.next_slot_seq (record (shown it) { seq = b.next_slot_seq; quantity = q });
      size =
          length-set f.slots b.next_slot_seq
            (record (shown it) { seq = b.next_slot_seq; quantity = q })
          ∙ f.size;
      applied = rw (changes-append us (u ∷ [])) (
          put_slots-append (shown it) (changes us) ((b.next_slot_seq, q) ∷ []) start f.slots
            f.applied
          ∙ put_one it b q v f.slots f.size f.mirrors);
      mirrors = insert_slot-Mirrors it b q v f.slots f.size f.mirrors;
    }

-- The client after the loop of addItem.
module _ (it : Item) (start : List Held) where
  follow_fill :
      (k fuel : ℕ) (b : Bag) (count : ℕ) (us : List SlotUpdate)
      → IsSound b
      → Marked b
      → Slots k it.max_quantity count
      → count < 2 ^ 32
      → k < fuel
      → k < b.usable_slots
      → Followed it start b us
      → (b' : Bag) × (us' : List SlotUpdate) × (fill fuel b it count us ≡ some (b', us'))
        × Followed it start b' us'
  unfolding fill
  follow_fill k zero b count us v m s c f h w = absurd (omega arith)
  follow_fill zero (suc fuel) b count us v m s c f h w =
      let last : leb it.max_quantity count ≡ false =
        lt→leb_false it.max_quantity count (omega arith) in
      (
        (insert_slot b it.item_id count).0,
        us ++ (insert_slot b it.item_id count).1 ∷ [],
        rw (last, fill) refl,
        follow it start b us count v w,
      )
  follow_fill (suc k) (suc fuel) b count us v m s c f h w =
      let full : ℕ = it.max_quantity in
      let b1 : Bag = (insert_slot b it.item_id full).0 in
      let (v', m', u, t, o) = insert_slot_lem b it.item_id full v m (omega arith) in
      let more : leb full count ≡ true = le→leb full count (omega arith) in
      let cut : sub32 count full + full ≡ count = omega arith in
      let (b', us', e, w') =
        follow_fill k fuel b1 (sub32 count full) (us ++ (insert_slot b it.item_id full).1 ∷ []) v'
          m' (fewer k full count s c) (omega arith) (omega arith) (omega arith)
          (follow it start b us full v w) in
      (b', us', rw (more, fill) e, w')

index_assigned :
    (kind : ℕ) (slots : List Held) (items : Map (List Held))
    → index [] kind (assign kind slots items) ≡ slots
unfolding index
index_assigned kind slots items = ground (arith, find-assign kind kind slots items)

-- The changes in the inventory of the item.
change_item_lem :
    (item : Held) (cs : List (ℕ × ℕ)) (c : Character) (slots : List Held)
    → put_slots item cs (index [] item.kind c.items) ≡ some slots
    → (c' : Character) × (change_item item cs c ≡ some c') × (index [] item.kind c'.items ≡ slots)
unfolding change_item put_slots
change_item_lem item [] c slots h = (c, refl, ground (arith, h))
change_item_lem item (change ∷ cs) c slots h = (
  record c { items = assign item.kind slots c.items },
  rw (h, change_item) refl,
  index_assigned item.kind slots c.items,
)

-- Where a sound inventory of the server, whose held slots are marked, is given a usable item of which
-- the total held is a multiple of the maximum, with a free slot for each full one of the quantity and
-- one more, the item is added, the changes of the message have no index out of range at a client that
-- shows of the item what the server held and has 129 slots, and the client shows of it what the server
-- then holds.
pub add_item_mirrored :
    (b : Bag) (it : Item) (c : Character)
    → IsSound b
    → Marked b
    → IsUsable b it
    → total_of b it.item_id % it.max_quantity ≡ 0
    → it.quantity / it.max_quantity < b.usable_slots
    → length (index [] it.kind c.items) ≡ 129
    → Mirrors (index [] it.kind c.items) b it.item_id
    → (b' : Bag) × (us : List SlotUpdate) × (c' : Character) × (add_item b it ≡ ok (b', us))
      × (change_item (shown it) (changes us) c ≡ some c')
      × Mirrors (index [] it.kind c'.items) b' it.item_id
unfolding put_slots
add_item_mirrored b it c v m u tidy room size mirrors =
    let start : List Held = index [] it.kind c.items in
    let (b', us, e, w) =
      follow_fill it start (it.quantity / it.max_quantity) (suc it.quantity) b it.quantity [] v m
        (Slots-quotient it.quantity it.max_quantity u.full_pos) (omega (arith, u.total_small))
        (quotient_small it.quantity it.max_quantity) room
        (record { slots = start; size = size; applied = refl; mirrors = mirrors }) in
    let (c', changed, now) = change_item_lem (shown it) (changes us) c w.slots w.applied in
    (
      b',
      us,
      c',
      add_new b it u tidy
            (le_of_lt (room_for it.quantity it.max_quantity b.usable_slots u.full_pos room))
          ∙ ap returned e,
      changed,
      rw now w.mirrors,
    )
