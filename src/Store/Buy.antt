-- ===== src/Store/Buy.antt =====
-- What CStoreManager::buy does to the user on each way out.
use game_server_client.Base.{
  ℕ, ◌+◌, ◌-◌, ◌*◌, ◌%◌, ◌^◌, ◌≤◌, ◌<◌, ◌≡◌, ◌≢◌, refl, List, true, false, some, arith, ltb, ◌==◌,
  mul32, ◌∙◌, ap, get_elem?, le→leb,
}
use game_server_client.Map.{Map, find}
use game_server_client.Item.{Item, set_quantity}
use game_server_client.Inventory.Bag.{Bag, ok, is_add_item, get_item_quantity}
use game_server_client.Inventory.Whole.{get_money, on_bag, of_bag}
use game_server_client.Inventory.Quantity.{total_of, ne→==_false}
use game_server_client.Inventory.Add.{IsUsable, held as quantity_held, is_add_item_overpromises}
use game_server_client.Inventory.Money.{sub_money_lem}
use game_server_client.User.{User, done, thrown, Effect}
use game_server_client.Store.{
  Product, get_store_product, buy, buy_product, buy_with_money, buy_with_token, pay_money,
  pay_token,
}

pub buy_refused :
    (stores : Map (Map Product)) (items : Map Item) (store_id item_id quantity : ℕ)
    (user user' : User) (es : List Effect)
    → buy stores items store_id item_id quantity user ≡ done false user' es
    → user' ≡ user
unfolding buy buy_product buy_with_money buy_with_token pay_money pay_token
buy_refused stores items store_id item_id quantity user user' es h = ground arith

-- Where addItem has room for all of it, isAddItem says so.
pub is_add_item-true :
    (b : Bag) (it : Item)
    → IsUsable b it
    → it.quantity ≤ b.usable_slots * it.max_quantity
    → total_of b it.item_id % it.max_quantity ≡ 0
    → is_add_item b it ≡ ok true
unfolding is_add_item
is_add_item-true b it u room tidy =
    let h : get_item_quantity b it.item_id % it.max_quantity ≡ 0 =
      ap (λ n. n % it.max_quantity) (quantity_held b it u) ∙ tidy in
    let no_max : (it.max_quantity == 0) ≡ false = ne→==_false _ 0 (omega (arith, u.full_pos)) in
    let wide : (b.usable_slots * it.max_quantity + it.max_quantity - 0) % 2 ^ 32
        ≡ b.usable_slots * it.max_quantity + it.max_quantity =
      omega (arith, u.room_small) in
    rw (no_max, h) (rw wide (ap ok (le→leb _ _ (omega (arith, room)))))

module _ (stores : Map (Map Product)) (items : Map Item) (store_id item_id quantity : ℕ)
    (user : User) (p : Product) (any : Item) (held : ℕ) (b : Bag)
    (sold : get_store_product stores store_id item_id ≡ some p)
    (known : find p.item_id items ≡ some any) (by_money : p.money_id ≢ 0)
    (has_money : get_money user.inventory p.money_id ≡ some held)
    (enough : mul32 p.money_price quantity ≤ held) (held_small : held < 2 ^ 32)
    (selected : get_elem? user.inventory.inventories any.kind ≡ some b)
    (u : IsUsable b (set_quantity any quantity)) where
  abbrev price : ℕ
  price = mul32 p.money_price quantity

  -- With the money there, a purchase is what isAddItem and the payment make of it.
  buy_pays :
      is_add_item b (set_quantity any quantity) ≡ ok true
      → buy stores items store_id item_id quantity user
        ≡ pay_money user p (set_quantity any quantity) price
  unfolding buy buy_product buy_with_money set_quantity of_bag
  buy_pays room =
      let no_token : (p.money_id == 0) ≡ false = ne→==_false _ 0 by_money in
      let rich : ltb held price ≡ false = ground (arith, enough) in
      rw (sold, buy)
        (rw (known, buy)
          (rw (no_token, buy_product)
            (rw (has_money, buy_with_money) (rw rich (rw (selected, of_bag) (rw room refl))))))

  -- A purchase of a product that is sold for money, of a usable item of which the total held is a
  -- multiple of the maximum, where the user has the price and the quantity goes beyond the free
  -- slots by no more than one slot, takes the price and then throws: the user has paid, and every
  -- inventory is as before.
  pub buy_takes_money :
      total_of b any.item_id % any.max_quantity ≡ 0
      → b.usable_slots * any.max_quantity < quantity
      → quantity ≤ b.usable_slots * any.max_quantity + any.max_quantity
      → (user' : User) × (buy stores items store_id item_id quantity user ≡ thrown user')
        × (get_money user'.inventory p.money_id ≡ some (held - price))
        × (user'.inventory.inventories ≡ user.inventory.inventories)
  unfolding pay_money set_quantity get_money on_bag
  buy_takes_money tidy lo hi =
      let it : Item = set_quantity any quantity in
      let (inv1, paid, left, same, _) =
        sub_money_lem user.inventory p.money_id held has_money price enough held_small in
      let (promised, refused) = is_add_item_overpromises b it u tidy lo hi in
      let there : get_elem? inv1.inventories any.kind ≡ some b =
        ap (λ bs. get_elem? bs any.kind) same ∙ selected in
      (
        record user { inventory = inv1 },
        buy_pays promised ∙ rw (paid, pay_money) (rw (there, on_bag) (rw refused refl)),
        left,
        same,
      )
