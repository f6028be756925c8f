-- ===== src/Inventory/Whole.antt =====
-- CInventory as a whole (게임서버/컨텐츠/클래스/Inventory.h and Inventory.cpp): a user's moneys, and
-- five inventories of which an item's type selects one.
use game_server_client.Base.{
  ℕ, List, [], ◌∷◌, ◌++◌, Option, none, some, get_elem?, ◌≡◌, refl, set, replicate, map, add32,
  sub32, ◌>>=◌,
}
use game_server_client.Map.{Map, find, assign, insert}
use game_server_client.Inventory.Bag.{Bag, Answer, ok, nullopt, undefined, new_bag, clear_bag}

pub record Inventory : Type 0 where
  pub moneys : Map ℕ
  pub inventories : List Bag

unfoldable pub new_inventory : Inventory
new_inventory = record { moneys = []; inventories = replicate 5 new_bag }

-- The loop of `clear` starts at 1: the inventory 0, which no item type uses, is left.
clear_from_one : List Bag → List Bag
clear_from_one [] = []
clear_from_one (b ∷ bs) = b ∷ map clear_bag bs

unfoldable pub clear_inventory : Inventory → Inventory
unfolding clear_from_one
clear_inventory inv = record { moneys = []; inventories = clear_from_one inv.inventories }

-- `none` is the exception of `moneys.at`.
unfoldable pub get_money : Inventory → ℕ → Option ℕ
get_money inv money = find money inv.moneys

unfoldable pub add_money : Inventory → (money quantity : ℕ) → Option (Inventory × ℕ)
add_money inv money quantity = do
  held ← find money inv.moneys
  some (record inv { moneys = assign money (add32 held quantity) inv.moneys }, add32 held quantity)

unfoldable pub sub_money : Inventory → (money quantity : ℕ) → Option (Inventory × ℕ)
sub_money inv money quantity = do
  held ← find money inv.moneys
  some (record inv { moneys = assign money (sub32 held quantity) inv.moneys }, sub32 held quantity)

-- `insert` leaves the money that is there.
unfoldable pub set_money : Inventory → (money quantity : ℕ) → Inventory
set_money inv money quantity = record inv { moneys = insert money quantity inv.moneys }

-- st_ItemInfo
pub record ItemInfo : Type 0 where
  pub item_id : ℕ
  pub seq : ℕ
  pub quantity : ℕ

item_infos : ℕ → Map ℕ → List ItemInfo
item_infos id [] = []
item_infos id ((seq, q) ∷ m) = record { item_id = id; seq = seq; quantity = q } ∷ item_infos id m

bag_items : Map (Map ℕ) → List ItemInfo
unfolding item_infos
bag_items [] = []
bag_items ((id, m) ∷ rest) = item_infos id m ++ bag_items rest

items_of : List Bag → List ItemInfo
unfolding bag_items
items_of [] = []
items_of (b ∷ bs) = bag_items b.slots ++ items_of bs

unfoldable pub get_item_list : Inventory → List ItemInfo
unfolding items_of
get_item_list inv = items_of inv.inventories

-- What a member function does to `inventories[item.type]`; a type out of range is undefined.
unfoldable pub on_bag :
    {A : Type 0} → (Bag → Answer (Bag × A)) → ℕ → Inventory → Answer (Inventory × A)
on_bag f kind inv = elim (get_elem? inv.inventories kind) [
  | none ↦ undefined
  | some b ↦ elim (f b) [
    | ok (b', a) ↦ ok (record inv { inventories = set inv.inventories kind b' }, a)
    | nullopt ↦ nullopt
    | undefined ↦ undefined
  ]
]

-- What one reads of it.
unfoldable pub of_bag : {A : Type 0} → (Bag → Answer A) → ℕ → Inventory → Answer A
of_bag f kind inv = elim (get_elem? inv.inventories kind) [ none ↦ undefined | some b ↦ f b ]

-- `on_bag` where the inventory is there and the member function comes to a value.
pub on_bag_ok :
    {A : Type 0} (f : Bag → Answer (Bag × A)) (kind : ℕ) (inv : Inventory) (b b' : Bag) (a : A)
    → get_elem? inv.inventories kind ≡ some b
    → f b ≡ ok (b', a)
    → on_bag f kind inv ≡ ok (record inv { inventories = set inv.inventories kind b' }, a)
unfolding on_bag
on_bag_ok f kind inv b b' a there e = rw (there, on_bag) (rw e refl)
