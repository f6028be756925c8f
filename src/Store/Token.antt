-- ===== src/Store/Token.antt =====
-- What CStoreManager::buy does with a product that is sold for a token.
use game_server_client.Base.{
  ℕ, ◌+◌, ◌/◌, ◌%◌, ◌^◌, ◌≤◌, ◌<◌, ◌≡◌, ◌≢◌, refl, List, [], ◌∷◌, ◌++◌, true, false, some, arith,
  ltb, ◌==◌, ◌∙◌, sym, get_elem?, set, get_elem?-set_self, get_elem?-set_ne, length,
}
use game_server_client.Map.{Map, find}
use game_server_client.Item.{Item, set_quantity}
use game_server_client.Inventory.Bag.{Bag, ok, get_item_quantity, is_add_item}
use game_server_client.Inventory.Change.{add_item, remove_item}
use game_server_client.Inventory.Whole.{Inventory, of_bag, on_bag_ok}
use game_server_client.Inventory.Sound.{IsSound}
use game_server_client.Inventory.Quantity.{
  Marked, total_of, slots_of, ne→==_false, get_item_quantity_lem,
}
use game_server_client.Inventory.Add.{IsUsable, add_item_new, room_for}
use game_server_client.Inventory.Fill.{Filled}
use game_server_client.Inventory.Remove.{remove_item_lem}
use game_server_client.User.{User, Effect, done, send, save, bought, get_query}
use game_server_client.Store.{
  Product, get_store_product, buy, buy_product, buy_with_token, pay_token,
}
use game_server_client.Store.Buy.{is_add_item-true}

module _ (stores : Map (Map Product)) (items : Map Item) (store_id item_id quantity : ℕ)
    (user : User) (p : Product) (any coin : Item) (b purse : Bag)
    (sold : get_store_product stores store_id item_id ≡ some p)
    (known : find p.item_id items ≡ some any) (no_money : p.money_id ≡ 0)
    (by_token : p.token_id ≢ 0) (coin_known : find p.token_id items ≡ some coin)
    (selected : get_elem? user.inventory.inventories any.kind ≡ some b)
    (coins : get_elem? user.inventory.inventories coin.kind ≡ some purse)
    (apart : coin.kind ≢ any.kind) (enough : p.token_price ≤ total_of purse coin.item_id)
    (small : total_of purse coin.item_id < 2 ^ 32)
    (short : length (slots_of purse coin.item_id) < 2 ^ 32)
    (u : IsUsable b (set_quantity any quantity)) where
  -- With the tokens there, a purchase is what isAddItem and the payment make of it.
  buy_pays_token :
      is_add_item b (set_quantity any quantity) ≡ ok true
      → buy stores items store_id item_id quantity user
        ≡ pay_token user p (set_quantity coin p.token_price) (set_quantity any quantity)
  unfolding buy buy_product buy_with_token set_quantity of_bag
  buy_pays_token room =
      let no : (p.token_id == 0) ≡ false = ne→==_false _ 0 by_token in
      let held : get_item_quantity purse coin.item_id ≡ total_of purse coin.item_id =
        get_item_quantity_lem purse coin.item_id ∙ omega arith in
      let rich : ltb (total_of purse coin.item_id) p.token_price ≡ false = ground (arith, enough) in
      rw (sold, buy)
        (rw (known, buy)
          (rw (no_money, buy_product)
            (rw (no, buy_product)
              (rw (coin_known, buy_with_token)
                (rw (coins, of_bag) (rw (held, rich) (rw (selected, of_bag) (rw room refl))))))))

  -- A purchase of a product that is sold for a token, where the token is kept in another inventory
  -- than the item, in slots and a total that fit a DWORD, and the user has the token price; the
  -- item is usable, the total held of it is a multiple of the maximum, and its inventory is sound,
  -- has its held slots marked and has a free slot for each full one and one more. It succeeds:
  -- whatever the quantity is, the user pays the token price once, and gets the quantity.
  pub buy_with_token_lem :
      IsSound b
      → Marked b
      → total_of b any.item_id % any.max_quantity ≡ 0
      → quantity / any.max_quantity < b.usable_slots
      → (user' : User) × (es : List Effect) × (b' purse' : Bag) × (buy stores items store_id item_id
            quantity user
          ≡ done true user' es)
        × (get_elem? user'.inventory.inventories coin.kind ≡ some purse')
        × (total_of purse' coin.item_id + p.token_price ≡ total_of purse coin.item_id)
        × (get_elem? user'.inventory.inventories any.kind ≡ some b')
        × Filled b (set_quantity any quantity) quantity (quantity / any.max_quantity) b'
  unfolding pay_token set_quantity
  buy_with_token_lem v m tidy room =
      let it : Item = set_quantity any quantity in
      let token : Item = set_quantity coin p.token_price in
      let (purse', paid, taken, left, _) = remove_item_lem purse token small short enough in
      let (b', got, added, filled) = add_item_new b it v m u tidy room in
      let bags : List Bag = set user.inventory.inventories coin.kind purse' in
      let inv1 : Inventory = record user.inventory { inventories = bags } in
      let there : get_elem? bags any.kind ≡ some b =
        get_elem?-set_ne user.inventory.inventories coin.kind any.kind purse' apart ∙ selected in
      let kept : get_elem? bags coin.kind ≡ some purse' =
        get_elem?-set_self user.inventory.inventories coin.kind purse' purse coins in
      (
        record user { inventory = record inv1 { inventories = set bags any.kind b' } },
        save (get_query user.nickname paid ++ get_query user.nickname got)
            ∷ send (bought p.money_id 0 p.token_id paid it got)
            ∷ [],
        b',
        purse',
        buy_pays_token (
              is_add_item-true b it u
                (omega (arith, room_for quantity any.max_quantity b.usable_slots u.full_pos room))
                tidy)
            ∙ rw
                (
                  on_bag_ok (λ b0. remove_item b0 token) coin.kind user.inventory purse purse' paid
                      coins taken,
                  pay_token,
                )
                (rw (on_bag_ok (λ b0. add_item b0 it) any.kind inv1 b b' got there added) refl),
        get_elem?-set_ne bags any.kind coin.kind b' (λ e. apart (sym e)) ∙ kept,
        left,
        get_elem?-set_self bags any.kind b' b there,
        filled,
      )
