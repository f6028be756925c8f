-- ===== src/ItemManager/Boxes.antt =====
-- What the use of an item does to the user.
use game_server_client.Base.{
  ℕ, ◌+◌, ◌%◌, ◌^◌, ◌≤◌, ◌<◌, ◌≡◌, ◌≢◌, refl, List, [], ◌∷◌, true, false, some, arith, ◌==◌, ◌∙◌,
  get_elem?, get_elem?-set_self, set, length,
}
use game_server_client.Map.{Map, find, index, find-assign}
use game_server_client.Item.{Item, set_quantity}
use game_server_client.Inventory.Bag.{Bag, get_item_quantity}
use game_server_client.Inventory.Change.{remove_item}
use game_server_client.Inventory.Quantity.{total_of, slots_of, get_item_quantity_lem, ne→==_false}
use game_server_client.Inventory.Remove.{remove_item_lem}
use game_server_client.Inventory.Whole.{Inventory, of_bag, on_bag_ok}
use game_server_client.Stats.{add_stats}
use game_server_client.User.{
  User, done, Effect, send, save, disconnect, stats_box, get_query, update_user_stats,
}
use game_server_client.ItemManager.{
  get_item, open_box, use_item, use_nomal_item, use_package_item, use_cash_item, execute_nothing,
  execute_str_box, execute_dex_box, execute_int_box, execute_luk_box,
}

-- The use of an item that answers false leaves the user as it was and disconnects.
pub use_item_refused :
    (items : Map Item) (id : ℕ) (user user' : User) (es : List Effect)
    → use_item items id user ≡ done false user' es
    → (user' ≡ user) × (es ≡ disconnect ∷ [])
unfolding use_item use_nomal_item use_package_item use_cash_item open_box execute_nothing
    execute_str_box execute_dex_box execute_int_box execute_luk_box
use_item_refused items id user user' es h = ground arith

-- Every id from 1000 on is refused: the cases of usePackageItem and useCashItem are out of the
-- range that useItem gives them.
pub use_item_beyond :
    (items : Map Item) (id : ℕ) (user : User)
    → 1000 ≤ id
    → use_item items id user ≡ done false user (disconnect ∷ [])
unfolding use_item use_package_item use_cash_item
use_item_beyond items id user h = ground arith

-- The stats that the four boxes raise: 334 STR, 335 DEX, 336 and 337 INT.
pub use_item_box :
    (items : Map Item) (stats_id : ℕ) (user : User)
    → 1 ≤ stats_id
    → stats_id ≤ 3
    → (use_item items (333 + stats_id) user ≡ open_box items stats_id (333 + stats_id) user)
      × (use_item items 337 user ≡ open_box items 3 337 user)
unfolding use_item use_nomal_item execute_str_box execute_dex_box execute_int_box execute_luk_box
use_item_box items stats_id user lo hi = ground arith

-- A user who has a box opens it: the answer is true, the stats have 2 more modulo 2 ^ 32, one box
-- goes, and the other items of its inventory are left. It holds where the total held of the box
-- and the number of its slots fit a DWORD.
pub open_box_lem :
    (items : Map Item) (stats_id item_id : ℕ) (user : User) (any : Item) (b : Bag)
    → get_item items item_id ≡ some any
    → get_elem? user.inventory.inventories any.kind ≡ some b
    → 1 ≤ total_of b any.item_id
    → total_of b any.item_id < 2 ^ 32
    → length (slots_of b any.item_id) < 2 ^ 32
    → (user' : User) × (es : List Effect) × (b' : Bag) × (open_box items stats_id item_id user
        ≡ done true user' es)
      × (find stats_id user'.stats ≡ some ((index 0 stats_id user.stats + 2) % 2 ^ 32))
      × (get_elem? user'.inventory.inventories any.kind ≡ some b')
      × (total_of b' any.item_id + 1 ≡ total_of b any.item_id)
      × ((j : ℕ) → j ≢ any.item_id → slots_of b' j ≡ slots_of b j)
unfolding open_box add_stats set_quantity of_bag
open_box_lem items stats_id item_id user any b known there some_held small short =
    let it : Item = set_quantity any 1 in
    let (b', us, gone, left, others) = remove_item_lem b it small short some_held in
    let sum : ℕ = (index 0 stats_id user.stats + 2) % 2 ^ 32 in
    let inv' : Inventory = record user.inventory {
      inventories = set user.inventory.inventories any.kind b';
    } in
    let held : (get_item_quantity b any.item_id == 0) ≡ false =
      ne→==_false _ 0 (λ e. absurd (omega (arith, get_item_quantity_lem b any.item_id))) in
    (
      record user { stats = (add_stats user.stats stats_id 2).0; inventory = inv' },
      save (update_user_stats user.nickname stats_id sum ∷ get_query user.nickname us)
          ∷ send (stats_box stats_id sum it us)
          ∷ [],
      b',
      rw (known, open_box)
          (rw (there, of_bag)
            (rw held (
              rw (on_bag_ok (λ b0. remove_item b0 it) any.kind user.inventory b b' us there gone)
                refl))),
      find-assign stats_id stats_id sum user.stats ∙ ground arith,
      get_elem?-set_self user.inventory.inventories any.kind b' b there,
      left,
      others,
    )
