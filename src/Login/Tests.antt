-- ===== src/Login/Tests.antt =====
-- An account with the uid 7, two lobby servers, and a lobby whose session 2 has not logged in.
use game_server_client.Base.{ℕ, ◌≡◌, refl, List, [], ◌∷◌, true, some, arith}
use game_server_client.Map.{find, assign}
use game_server_client.Redis.Shelves.{Shelf, look, no_keys, shelves}
use game_server_client.Inventory.Whole.{new_inventory}
use game_server_client.Tasks.{to_string, login_key, login_value}
use game_server_client.Tasks.Status.{LobbyServer, AllNamed, fields, shown}
use game_server_client.Lobby.{
  Lobby, request, select_character_list, characters_of_login, status, req_login,
}
use game_server_client.Lobby.Character.{Player}
use game_server_client.Login.{
  success, login, select_server, packet_login, token, packet_select_server,
}
use game_server_client.Login.Tokens.{packet_login_lem, select_server_admits}

-- At 1:6000 and 2:6001, named a and b.
abbrev servers : List LobbyServer
servers =
    record { ip = 49 ∷ []; port = 6000; server_name = 97 ∷ []; accept_total_count = 50 }
    ∷ record { ip = 50 ∷ []; port = 6001; server_name = 98 ∷ []; accept_total_count = 7 }
    ∷ []

servers-AllNamed : AllNamed servers
unfolding AllNamed
servers-AllNamed = (
  record {
    address = ((λ e. omega arith), tt);
    named = ((λ e. omega arith), tt);
    some_name = λ e. cc;
    word = omega arith;
  },
  (
    record {
      address = ((λ e. omega arith), tt);
      named = ((λ e. omega arith), tt);
      some_name = λ e. cc;
      word = omega arith;
    },
    tt,
  ),
)

abbrev secret : List ℕ
secret = 112 ∷ 119 ∷ []

packet_login_lem_example :
    packet_login 3 secret 0
      (some (record { id = 105 ∷ []; password = secret; uid = to_string 7 } ∷ []))
      (some (fields servers))
    ≡ some (login 3 success 7 (shown servers), true)
packet_login_lem_example =
    packet_login_lem 3 7 (105 ∷ []) secret [] servers (omega arith) servers-AllNamed

abbrev player : Player
player = record {
  session_id = 2;
  uid = 0;
  last_time_tick = 0;
  room_no = 0;
  nickname = [];
  stats = [];
  inventory = new_inventory;
  friends = [];
  add_friends = [];
  characters = [];
}

abbrev lobby : Lobby
lobby = record { user_map = (2, player) ∷ []; duplication_user = [] }

player_here : find 2 lobby.user_map ≡ some player
unfolding find
player_here = refl

select_server_admits_example :
    (s1 : Shelf) × (s2 : Shelf) × (packet_select_server shelves no_keys 9 7 0
      ≡ (s1, select_server 9 token 10))
    × (req_login shelves (97 ∷ []) 6000 (shelves.pass 9 s1) lobby 2 7 token 0 100
        ≡ some (
          s2,
          record lobby { user_map = assign 2 (record player { uid = 7 }) lobby.user_map },
          request (select_character_list 7) characters_of_login 2 ∷ [],
        ))
    × (look s2 (login_key (to_string 7)) ≡ some (login_value (status shelves (97 ∷ []) 6000 2)))
select_server_admits_example =
    select_server_admits shelves (97 ∷ []) 6000 no_keys lobby 2 7 player player_here refl refl 9 100
      9 (omega arith)
