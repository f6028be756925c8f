-- ===== src/Store.antt =====
-- CStoreManager (게임서버/컨텐츠/클래스/StoreManager.h and StoreManager.cpp): the products of the
-- stores, and a purchase with money or with a token. The tables that setStoreList and setItemList
-- read, StoreProductMap and ItemMap, are arguments.
pub mod Buy
pub mod Token
mod Tests
use game_server_client.Base.{
  ℕ, List, [], ◌∷◌, ◌++◌, Bool, true, false, Option, none, some, ltb, ◌==◌, if◌then◌else◌, mul32,
  ◌>>=◌,
}
use game_server_client.Map.{Map, find}
use game_server_client.Item.{Item, set_quantity}
use game_server_client.Inventory.Bag.{
  SlotUpdate, ok, nullopt, undefined, is_add_item, get_item_quantity,
}
use game_server_client.Inventory.Change.{add_item, remove_item}
use game_server_client.Inventory.Whole.{get_money, sub_money, on_bag, of_bag}
use game_server_client.User.{
  User, Outcome, done, thrown, broken, send, save, disconnect, refused, bought, lack_money,
  lack_token, fall_inventory, get_query, update_user_money,
}

-- st_Product
pub record Product : Type 0 where
  pub item_id : ℕ
  pub money_id : ℕ
  pub money_price : ℕ
  pub token_id : ℕ
  pub token_price : ℕ

unfoldable pub get_store_product : Map (Map Product) → (store_id item_id : ℕ) → Option Product
get_store_product stores store_id item_id = do
  products ← find store_id stores
  find item_id products

unfoldable pub values_of : Map Product → List Product
values_of [] = []
values_of ((id, p) ∷ m) = p ∷ values_of m

unfoldable pub get_store_list : Map (Map Product) → ℕ → List Product
get_store_list stores store_id = elim (find store_id stores) [ none ↦ [] | some m ↦ values_of m ]

-- The memory, the database and the message of a purchase with money.
unfoldable pub pay_money : User → Product → Item → (price : ℕ) → Outcome
pay_money user p it price = elim (sub_money user.inventory p.money_id price) [
  | none ↦ thrown user
  | some (inv1, final) ↦ elim (on_bag (λ b. add_item b it) it.kind inv1) [
    | ok (inv2, us) ↦
        done true (record user { inventory = inv2 })
          (save (update_user_money user.nickname p.money_id final ∷ get_query user.nickname us)
            ∷ send (bought p.money_id final p.token_id [] it us)
            ∷ [])
    | nullopt ↦ thrown (record user { inventory = inv1 })
    | undefined ↦ broken
  ]
]

unfoldable pub buy_with_money : User → Product → Item → (buy_quantity : ℕ) → Outcome
buy_with_money user p it buy_quantity = elim (get_money user.inventory p.money_id) [
  | none ↦ thrown user
  | some user_money ↦
      if ltb user_money (mul32 p.money_price buy_quantity)
      then done false user (send (refused lack_money) ∷ [])
      else elim (of_bag (λ b. is_add_item b it) it.kind user.inventory) [
        | ok true ↦ pay_money user p it (mul32 p.money_price buy_quantity)
        | ok false ↦ done false user (send (refused fall_inventory) ∷ [])
        | nullopt ↦ broken
        | undefined ↦ broken
      ]
]

-- The memory, the database and the message of a purchase with a token.
unfoldable pub pay_token : User → Product → (token it : Item) → Outcome
pay_token user p token it = elim (on_bag (λ b. remove_item b token) token.kind user.inventory) [
  | ok (inv1, paid) ↦ elim (on_bag (λ b. add_item b it) it.kind inv1) [
    | ok (inv2, got) ↦
        done true (record user { inventory = inv2 })
          (save (get_query user.nickname paid ++ get_query user.nickname got)
            ∷ send (bought p.money_id 0 p.token_id paid it got)
            ∷ [])
    | nullopt ↦ thrown (record user { inventory = inv1 })
    | undefined ↦ broken
  ]
  | nullopt ↦ thrown user
  | undefined ↦ broken
]

unfoldable pub buy_with_token : Map Item → User → Product → Item → Outcome
buy_with_token items user p it = elim (find p.token_id items) [
  | none ↦ thrown user
  | some any ↦
      let token = set_quantity any p.token_price in
      elim (of_bag (λ b. ok (get_item_quantity b token.item_id)) token.kind user.inventory) [
        | ok token_quantity ↦
            if ltb token_quantity p.token_price
            then done false user (send (refused lack_token) ∷ [])
            else elim (of_bag (λ b. is_add_item b it) it.kind user.inventory) [
              | ok true ↦ pay_token user p token it
              | ok false ↦ done false user (send (refused fall_inventory) ∷ [])
              | nullopt ↦ broken
              | undefined ↦ broken
            ]
        | nullopt ↦ broken
        | undefined ↦ broken
      ]
]

unfoldable pub buy_product : Map Item → User → Product → Item → (buy_quantity : ℕ) → Outcome
buy_product items user p it buy_quantity =
    if p.money_id == 0
    then (if p.token_id == 0 then done false user [] else buy_with_token items user p it)
    else buy_with_money user p it buy_quantity

-- buy
unfoldable pub buy :
    Map (Map Product) → Map Item → (store_id item_id buy_quantity : ℕ) → User → Outcome
buy stores items store_id item_id buy_quantity user =
    elim (get_store_product stores store_id item_id) [
      | none ↦ done false user (disconnect ∷ [])
      | some p ↦ elim (find p.item_id items) [
        | none ↦ done false user (disconnect ∷ [])
        | some it ↦ buy_product items user p (set_quantity it buy_quantity) buy_quantity
      ]
    ]
