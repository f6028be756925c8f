-- ===== src/Lobby/Rows.antt =====
-- The row of a character as Query_Select_Character (게임서버/컨텐츠/전역함수/Query.cpp) joins it, and as
-- the callbacks of Lobby.cpp read it.
use game_server_client.Base.{
  ℕ, ◌%◌, ◌^◌, ◌≤◌, ◌<◌, ◌≡◌, refl, List, [], ◌∷◌, ◌++◌, Option, none, some, map, ◌>>=◌, arith,
  false, ◌≢◌, ap, take, length, take_all,
}
use game_server_client.Map.{Map}
use game_server_client.Item.{Item}
use game_server_client.Stats.{set_stats}
use game_server_client.Inventory.Whole.{Inventory, set_money, on_bag}
use game_server_client.ItemManager.{get_item}
use game_server_client.Texts.{combine_strings, split_string}
use game_server_client.Texts.Splits.{AreTokens, split_string-combine_strings}
use game_server_client.Tasks.{to_string, read_below}
use game_server_client.Tasks.Numbers.{read_below-to_string}
use game_server_client.Lobby.Character.{
  Player, Row, stats_of, load_stats, money_of, load_money, place_item, placed, item_of, load_items,
  load_friends, load_character,
}
use game_server_client.Lobby.Entries.{
  pair_text, triple_text, pair_text-IsEntry, triple_text-IsEntry, entries_split, pair_split,
  triple_split,
}

-- What the stats, the moneys and the items come to.
unfoldable pub put_stats : List (ℕ × ℕ) → Map ℕ → Map ℕ
put_stats [] stats = stats
put_stats ((id, quantity) ∷ xs) stats = put_stats xs (set_stats stats id quantity)

unfoldable pub put_money : List (ℕ × ℕ) → Inventory → Inventory
put_money [] inventory = inventory
put_money ((id, quantity) ∷ xs) inventory = put_money xs (set_money inventory id quantity)

unfoldable pub put_item : Map Item → ℕ × ℕ × ℕ → Inventory → Option Inventory
put_item items (id, quantity, seq) inventory = do
  it ← get_item items id
  placed (on_bag (place_item it quantity seq) it.kind inventory)

unfoldable pub put_items : Map Item → List (ℕ × ℕ × ℕ) → Inventory → Option Inventory
put_items items [] inventory = some inventory
put_items items (x ∷ xs) inventory = do
  inventory' ← put_item items x inventory
  put_items items xs inventory'

-- Ids of a byte and numbers below a limit; the numbers of items.
abbrev pub AreBelow : (limit : ℕ) → List (ℕ × ℕ) → Type 0
AreBelow limit [] = Unit {0}
AreBelow limit ((id, quantity) ∷ xs) = (id < 2 ^ 8) × (quantity < limit) × AreBelow limit xs

abbrev pub AreSlots : List (ℕ × ℕ × ℕ) → Type 0
AreSlots [] = Unit {0}
AreSlots ((id, quantity, seq) ∷ xs) =
    (id < 2 ^ 32) × (quantity < 2 ^ 31) × (seq < 2 ^ 31) × AreSlots xs

small : (limit n : ℕ) → n < limit → limit ≤ 2 ^ 64 → read_below limit (to_string n) ≡ some n
small limit n h k = read_below-to_string limit n h (omega arith)

load_stats-pairs :
    (xs : List (ℕ × ℕ)) (stats : Map ℕ)
    → AreBelow (2 ^ 32) xs
    → load_stats (map pair_text xs) stats ≡ some (put_stats xs stats)
unfolding load_stats stats_of put_stats
load_stats-pairs [] stats h = refl
load_stats-pairs ((id, q) ∷ xs) stats h =
    let cut : id % 2 ^ 8 ≡ id = omega (arith, h.0) in
    rw
      (
        pair_split id q,
        small (2 ^ 31) id (omega (arith, h.0)) (omega arith),
        small (2 ^ 32) q h.1 (omega arith),
        cut,
      )
      (load_stats-pairs xs (set_stats stats id q) h.2)

load_money-pairs :
    (xs : List (ℕ × ℕ)) (inventory : Inventory)
    → AreBelow (2 ^ 31) xs
    → load_money (map pair_text xs) inventory ≡ some (put_money xs inventory)
unfolding load_money money_of put_money
load_money-pairs [] inventory h = refl
load_money-pairs ((id, q) ∷ xs) inventory h =
    let cut : id % 2 ^ 8 ≡ id = omega (arith, h.0) in
    rw
      (
        pair_split id q,
        small (2 ^ 31) id (omega (arith, h.0)) (omega arith),
        small (2 ^ 31) q h.1 (omega arith),
        cut,
      )
      (load_money-pairs xs (set_money inventory id q) h.2)

bind-ext :
    {A B : Type 0} (m : Option A) (f g : A → Option B)
    → ((a : A) → f a ≡ g a)
    → (m >>= f) ≡ (m >>= g)
bind-ext none f g h = refl
bind-ext (some a) f g h = h a

item_of-triple :
    (items : Map Item) (id q seq : ℕ) (inventory : Inventory)
    → id < 2 ^ 32
    → q < 2 ^ 31
    → seq < 2 ^ 31
    → item_of items (split_string (triple_text (id, q, seq)) 58) inventory
      ≡ put_item items (id, q, seq) inventory
unfolding item_of put_item
item_of-triple items id q seq inventory h k l =
    rw
      (
        triple_split id q seq,
        small (2 ^ 32) id h (omega arith),
        small (2 ^ 31) q k (omega arith),
        small (2 ^ 31) seq l (omega arith),
      )
      refl

load_items-triples :
    (items : Map Item) (xs : List (ℕ × ℕ × ℕ)) (inventory : Inventory)
    → AreSlots xs
    → load_items items (map triple_text xs) inventory ≡ put_items items xs inventory
unfolding load_items put_items
load_items-triples items [] inventory h = refl
load_items-triples items ((id, q, seq) ∷ xs) inventory h =
    rw (item_of-triple items id q seq inventory h.0 h.1 h.2) (
      bind-ext (put_item items (id, q, seq) inventory) (load_items items (map triple_text xs))
        (put_items items xs) (λ inventory'. load_items-triples items xs inventory' h.3))

-- A character that is saved, and the texts of its row.
pub record Saved : Type 0 where
  pub nickname : List ℕ
  pub room_no : ℕ
  pub stats : List (ℕ × ℕ)
  pub moneys : List (ℕ × ℕ)
  pub items : List (ℕ × ℕ × ℕ)
  pub friends : List (List ℕ)
  pub add_friends : List (List ℕ)

-- GROUP_CONCAT: NULL where there is nothing to join, and cut to `group_concat_max_len`; and IFNULL
-- with an empty text.
unfoldable pub group_concat : (max_len : ℕ) → List (List ℕ) → Option (List ℕ)
group_concat max_len [] = none
group_concat max_len (text ∷ texts) = some (take max_len (combine_strings (text ∷ texts) 44))

unfoldable pub if_null : Option (List ℕ) → List ℕ
if_null none = []
if_null (some text) = text

unfoldable pub row_of : (max_len : ℕ) → Saved → Row
row_of max_len c = record {
  nickname = c.nickname;
  room_no = to_string c.room_no;
  stats_list = group_concat max_len (map pair_text c.stats);
  money_list = group_concat max_len (map pair_text c.moneys);
  item_list = if_null (group_concat max_len (map triple_text c.items));
  friend_list = if_null (group_concat max_len c.friends);
  add_friend_list = if_null (group_concat max_len c.add_friends);
}

-- The joined text fits.
abbrev pub IsShort : (max_len : ℕ) → List (List ℕ) → Type 0
IsShort max_len texts = length (combine_strings texts 44) ≤ max_len

if_null-group_concat :
    (max_len : ℕ) (texts : List (List ℕ))
    → IsShort max_len texts
    → if_null (group_concat max_len texts) ≡ combine_strings texts 44
unfolding if_null group_concat combine_strings
if_null-group_concat max_len [] h = refl
if_null-group_concat max_len (text ∷ texts) h =
    take_all max_len (combine_strings (text ∷ texts) 44) h

group_concat-pairs :
    (max_len : ℕ) (pairs : List (ℕ × ℕ))
    → pairs ≢ []
    → IsShort max_len (map pair_text pairs)
    → group_concat max_len (map pair_text pairs) ≡ some (combine_strings (map pair_text pairs) 44)
unfolding group_concat
group_concat-pairs max_len [] some_pair h = absurd (some_pair refl)
group_concat-pairs max_len (p ∷ pairs) some_pair h =
    ap some (take_all max_len (combine_strings (map pair_text (p ∷ pairs)) 44) h)

pub record IsSaved (max_len : ℕ) (c : Saved) : Type 0 where
  pub room : c.room_no < 2 ^ 32
  pub stats : AreBelow (2 ^ 32) c.stats
  pub some_stats : c.stats ≢ []
  pub short_stats : IsShort max_len (map pair_text c.stats)
  pub moneys : AreBelow (2 ^ 31) c.moneys
  pub some_money : c.moneys ≢ []
  pub short_moneys : IsShort max_len (map pair_text c.moneys)
  pub items : AreSlots c.items
  pub short_items : IsShort max_len (map triple_text c.items)
  pub friends : AreTokens 44 c.friends
  pub short_friends : IsShort max_len c.friends
  pub add_friends : AreTokens 44 c.add_friends
  pub short_add_friends : IsShort max_len c.add_friends

-- A character that has a stat and a money is loaded from its row as it was saved, where its stats
-- are below 2 ^ 32, its moneys and the numbers of its items below 2 ^ 31, the ids of its stats and
-- moneys below 2 ^ 8 and those of its items below 2 ^ 32, its items go into the inventory, the
-- nicknames of its friends have no comma and are not empty, and no joined text is longer than
-- `group_concat_max_len`: the room, the stats, the moneys and the items are put in, the friends and
-- requests are added.
pub load_character-row_of :
    (items : Map Item) (max_len : ℕ) (c : Saved) (u : Player) (inventory : Inventory)
    → IsSaved max_len c
    → put_items items c.items (put_money c.moneys u.inventory) ≡ some inventory
    → load_character items (row_of max_len c) u
      ≡ some (record u {
        nickname = c.nickname;
        room_no = c.room_no;
        stats = put_stats c.stats u.stats;
        inventory = inventory;
        friends = u.friends ++ map (λ n. record { nickname = n; is_online = false }) c.friends;
        add_friends = u.add_friends ++ c.add_friends;
      })
unfolding load_character row_of load_friends
load_character-row_of items max_len c u inventory i fits =
    rw
      (
        small (2 ^ 32) c.room_no i.room (omega arith),
        group_concat-pairs max_len c.stats i.some_stats i.short_stats,
        entries_split pair_text c.stats pair_text-IsEntry,
        load_stats-pairs c.stats u.stats i.stats,
        group_concat-pairs max_len c.moneys i.some_money i.short_moneys,
        entries_split pair_text c.moneys pair_text-IsEntry,
        load_money-pairs c.moneys u.inventory i.moneys,
        if_null-group_concat max_len (map triple_text c.items) i.short_items,
        entries_split triple_text c.items triple_text-IsEntry,
        load_items-triples items c.items (put_money c.moneys u.inventory) i.items,
        fits,
        if_null-group_concat max_len c.friends i.short_friends,
        split_string-combine_strings c.friends 44 i.friends,
        if_null-group_concat max_len c.add_friends i.short_add_friends,
        split_string-combine_strings c.add_friends 44 i.add_friends,
      )
      refl
