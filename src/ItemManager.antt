-- ===== src/ItemManager.antt =====
-- CItemManager (게임서버/컨텐츠/클래스/ItemManager.h and ItemManager.cpp): the use of an item by its
-- id. ItemMap, which setItemList reads, is an argument.
pub mod Boxes
mod Tests
use game_server_client.Base.{ℕ, [], ◌∷◌, true, false, Option, none, some, leb, ◌==◌, if◌then◌else◌}
use game_server_client.Map.{Map, find}
use game_server_client.Item.{Item, set_quantity}
use game_server_client.Inventory.Bag.{ok, nullopt, undefined, get_item_quantity}
use game_server_client.Inventory.Change.{remove_item}
use game_server_client.Inventory.Whole.{on_bag, of_bag}
use game_server_client.Stats.{add_stats}
use game_server_client.User.{
  User, Outcome, done, thrown, broken, send, save, disconnect, stats_box, get_query,
  update_user_stats,
}

-- getItem and getItemByRef
unfoldable pub get_item : Map Item → ℕ → Option Item
get_item items item_id = find item_id items

-- What execute_StrBox, execute_DexBox, execute_IntBox and execute_LukBox share: all of it but the
-- stats that they raise.
unfoldable pub open_box : Map Item → (stats_id item_id : ℕ) → User → Outcome
open_box items stats_id item_id user = elim (get_item items item_id) [
  | none ↦ thrown user
  | some any ↦
      let it = set_quantity any 1 in
      let (stats, sum) = add_stats user.stats stats_id 2 in
      elim (of_bag (λ b. ok (get_item_quantity b it.item_id)) it.kind user.inventory) [
        | ok quantity ↦
            if quantity == 0
            then done false user (disconnect ∷ [])
            else elim (on_bag (λ b. remove_item b it) it.kind user.inventory) [
              | ok (inventory, us) ↦
                  done true (record user { stats = stats; inventory = inventory })
                    (save
                        (update_user_stats user.nickname stats_id sum ∷ get_query user.nickname us)
                      ∷ send (stats_box stats_id sum it us)
                      ∷ [])
              | nullopt ↦ thrown (record user { stats = stats })
              | undefined ↦ broken
            ]
        | nullopt ↦ broken
        | undefined ↦ broken
      ]
]

unfoldable pub execute_str_box : Map Item → ℕ → User → Outcome
execute_str_box items item_id user = open_box items 1 item_id user

unfoldable pub execute_dex_box : Map Item → ℕ → User → Outcome
execute_dex_box items item_id user = open_box items 2 item_id user

unfoldable pub execute_int_box : Map Item → ℕ → User → Outcome
execute_int_box items item_id user = open_box items 3 item_id user

-- It raises INT, as execute_IntBox does.
unfoldable pub execute_luk_box : Map Item → ℕ → User → Outcome
execute_luk_box items item_id user = open_box items 3 item_id user

-- The boxes that only answer true: execute_AllBox, execute_StrBoxAndCash and the four of the cash
-- items.
unfoldable pub execute_nothing : User → Outcome
execute_nothing user = done true user []

-- Items up to 333 and from 667 to 999 reach the end of the function, which returns nothing.
unfoldable pub use_nomal_item : Map Item → ℕ → User → Outcome
use_nomal_item items id user =
    if leb id 333
    then broken
    else if leb id 666
    then (if id == 334
        then execute_str_box items id user
        else if id == 335
        then execute_dex_box items id user
        else if id == 336
        then execute_int_box items id user
        else if id == 337
        then execute_luk_box items id user
        else done false user (disconnect ∷ []))
    else if leb id 999
    then broken
    else done false user (disconnect ∷ [])

unfoldable pub use_package_item : ℕ → User → Outcome
use_package_item id user =
    if id == 10
    then execute_nothing user
    else if id == 11
    then execute_nothing user
    else done false user (disconnect ∷ [])

unfoldable pub use_cash_item : ℕ → User → Outcome
use_cash_item id user =
    if id == 20
    then execute_nothing user
    else if id == 21
    then execute_nothing user
    else if id == 22
    then execute_nothing user
    else if id == 23
    then execute_nothing user
    else done false user (disconnect ∷ [])

-- useItem
unfoldable pub use_item : Map Item → ℕ → User → Outcome
use_item items id user =
    if leb id 999
    then use_nomal_item items id user
    else if leb id 1999
    then use_package_item id user
    else if leb id 2999
    then use_cash_item id user
    else done false user (disconnect ∷ [])
