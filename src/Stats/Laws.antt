-- ===== src/Stats/Laws.antt =====
-- What addStats and getStatsList of CStats answer.
use game_server_client.Base.{ℕ, ◌+◌, ◌^◌, ◌%◌, ◌≡◌, refl, some, if◌then◌else◌, ◌==◌}
use game_server_client.Map.{Map, find, index, find-assign}
use game_server_client.Stats.{add_stats}

-- addStats answers the new quantity, which is the old one, or 0 where there is none, and what is
-- added modulo 2 ^ 32; it is what the entry then has, and no other entry changes.
pub add_stats_lem :
    (stats : Map ℕ) (id quantity j : ℕ)
    → ((add_stats stats id quantity).1 ≡ (index 0 id stats + quantity) % 2 ^ 32)
      × (find j (add_stats stats id quantity).0
          ≡ (if j == id then some (add_stats stats id quantity).1 else find j stats))
unfolding add_stats
add_stats_lem stats id quantity j = (refl, find-assign id j _ stats)
