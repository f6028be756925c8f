-- ===== src/Lobby/Stay.antt =====
-- How a player comes into the lobby and leaves it, and OnUpdate
-- (게임서버/컨텐츠/클래스/필드/Lobby.cpp).
use game_server_client.Base.{ℕ, List, [], ◌∷◌, Option, none, some, ◌>>=◌}
use game_server_client.Map.{find, insert, erase}
use game_server_client.Redis.{Redis}
use game_server_client.Stats.{clear_stats}
use game_server_client.Inventory.Whole.{clear_inventory}
use game_server_client.Lobby.Character.{Player, clear}
use game_server_client.Lobby.{
  Lobby, Action, reply, move_field, checked, thrown, unfinished, remove_login_nickname,
  remove_login, check_waiting,
}

-- en_ROOM_NUMBER::Lobby
abbrev pub lobby_room : ℕ
lobby_room = 0

-- OnEnterRoom of a session that has just connected; `pooled` is what the pool of users gives.
unfoldable pub enter_new : Lobby → (session_id : ℕ) → (pooled : Player) → (now : ℕ) → Lobby
enter_new lobby session_id pooled now = record lobby {
  user_map =
      insert session_id
        (record (clear pooled) {
          session_id = session_id;
          last_time_tick = now;
          room_no = lobby_room;
        })
        lobby.user_map;
}

-- OnEnterRoom of a player who comes back from a field.
unfoldable pub enter_back :
    (r : Redis)
    → r.Store
    → Lobby
    → (session_id : ℕ) → Player
    → (now : ℕ) → r.Store × Lobby × List Action
enter_back r s lobby session_id u now = (
  remove_login_nickname r s u.nickname,
  record lobby {
    user_map =
        insert session_id
          (record u {
            last_time_tick = now;
            room_no = lobby_room;
            nickname = [];
            stats = clear_stats u.stats;
            inventory = clear_inventory u.inventory;
            friends = [];
            add_friends = [];
          })
          lobby.user_map;
  },
  reply session_id (move_field lobby_room) ∷ [],
)

-- OnLeaveRoom
unfoldable pub leave : Lobby → (session_id : ℕ) → Lobby
leave lobby session_id = record lobby { user_map = erase session_id lobby.user_map }

-- OnSessionRelease
unfoldable pub session_release :
    (r : Redis) → r.Store → Lobby → (session_id : ℕ) → Option (r.Store × Lobby)
session_release r s lobby session_id = do
  u ← find session_id lobby.user_map
  some (
    remove_login r s u.uid u.nickname,
    record lobby { user_map = erase session_id lobby.user_map },
  )

-- OnUpdate behind the callbacks of the queries; `none` is an exception, or too few rounds.
unfoldable pub update :
    (r : Redis)
    → (ip : List ℕ) → (port : ℕ) → (clock : ℕ → ℕ) → (meanwhile : ℕ → r.Store → r.Store)
    → (rounds : ℕ) → r.Store
    → Lobby
    → Option (r.Store × Lobby × List Action)
update r ip port clock meanwhile rounds s lobby =
    elim (check_waiting r ip port clock meanwhile 0 rounds lobby.user_map s
      lobby.duplication_user) [
        | checked s' waiting actions ↦
            some (s', record lobby { duplication_user = waiting }, actions)
        | thrown ↦ none
        | unfinished ↦ none
      ]
