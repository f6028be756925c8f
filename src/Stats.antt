-- ===== src/Stats.antt =====
-- CStats (게임서버/컨텐츠/구조체/CharacterStats.h and CharacterStats.cpp).
pub mod Laws
use game_server_client.Base.{
  ℕ, List, [], ◌∷◌, Option, none, some, length, add32, ◌>>=◌, ◌==◌, if◌then◌else◌,
}
use game_server_client.Map.{Map, find, assign, index}

-- st_Stats, its name as ASCII bytes.
pub record StatsInfo : Type 0 where
  pub id : ℕ
  pub quantity : ℕ
  pub name : List ℕ

unfoldable pub set_stats : Map ℕ → (id quantity : ℕ) → Map ℕ
set_stats stats id quantity = assign id quantity stats

-- `stats[statsID] += addQuantity`, which makes an entry of 0 where there is none.
unfoldable pub add_stats : Map ℕ → (id quantity : ℕ) → Map ℕ × ℕ
add_stats stats id quantity =
    let sum = add32 (index 0 id stats) quantity in (assign id sum stats, sum)

-- The names that getStats gives: "str", "dex", "int", "luk".
unfoldable pub stats_name : ℕ → Option (List ℕ)
stats_name id =
    if id == 1
    then some (115 ∷ 116 ∷ 114 ∷ [])
    else if id == 2
    then some (100 ∷ 101 ∷ 120 ∷ [])
    else if id == 3
    then some (105 ∷ 110 ∷ 116 ∷ [])
    else if id == 4
    then some (108 ∷ 117 ∷ 107 ∷ [])
    else none

-- `none` is the exception of `stats.at`; an unknown id gives the DUMMY entry.
unfoldable pub get_stats : Map ℕ → ℕ → Option StatsInfo
get_stats stats id = elim (stats_name id) [
  | none ↦ some (record { id = 0; quantity = 0; name = [] })
  | some name ↦ do
    quantity ← find id stats
    some (record { id = id; quantity = quantity; name = name })
]

unfoldable pub list_from : Map ℕ → Map ℕ → Option (List StatsInfo)
list_from stats [] = some []
list_from stats ((id, q) ∷ rest) = do
  first ← get_stats stats id
  others ← list_from stats rest
  some (first ∷ others)

unfoldable pub get_stats_list : Map ℕ → Option (List StatsInfo)
get_stats_list stats = list_from stats stats

unfoldable pub size : Map ℕ → ℕ
size stats = length stats

unfoldable pub clear_stats : Map ℕ → Map ℕ
clear_stats stats = []
