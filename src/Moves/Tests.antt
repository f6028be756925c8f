-- ===== src/Moves/Tests.antt =====
-- A player with the uid 7 in the session 1 of a field, and the session 2 of the lobby of another channel.
use game_server_client.Base.{arith, ℕ, ◌≡◌, refl, List, [], ◌∷◌, some, none}
use game_server_client.Map.{find, assign, erase, insert, has}
use game_server_client.Redis.Shelves.{Shelf, look, no_keys, shelves}
use game_server_client.Inventory.Whole.{new_inventory}
use game_server_client.Protocol.{move_channel, move_field}
use game_server_client.Tasks.{to_string, login_key, login_value}
use game_server_client.Lobby.{
  Lobby, request, select_character_list, select_character_row, characters_of_channel,
  character_of_channel, status, req_login_other_channel,
}
use game_server_client.Lobby.Character.{Player}
use game_server_client.Moves.{
  Users, change_channel, log_out, suspend_recv, request_last, free_user, reply, update_room_no,
  reply_disconnect, token, packet_move_channel, on_session_release, channel_answered,
  log_out_answered, on_enter_room,
}
use game_server_client.Moves.Channels.{move_channel_arrives, move_channel_logged_out}

abbrev player : (session_id uid : ℕ) → (nickname : List ℕ) → Player
player session_id uid nickname = record {
  session_id = session_id;
  uid = uid;
  last_time_tick = 0;
  room_no = 3;
  nickname = nickname;
  stats = [];
  inventory = new_inventory;
  friends = [];
  add_friends = [];
  characters = [];
}

abbrev hero : Player
hero = player 1 7 (98 ∷ [])

abbrev field : Users
field = (1, hero) ∷ []

abbrev newcomer : Player
newcomer = player 2 0 []

abbrev lobby : Lobby
lobby = record { user_map = (2, newcomer) ∷ []; duplication_user = [] }

hero_here : find 1 field ≡ some hero
unfolding find
hero_here = refl

newcomer_here : find 2 lobby.user_map ≡ some newcomer
unfolding find
newcomer_here = refl

-- An empty field that the player enters.
enter_test : on_enter_room 5 (118 ∷ []) [] 1 (some hero) ≡ (
  (1, record hero { room_no = 5 }) ∷ [],
  update_room_no (98 ∷ []) 5 ∷ reply 1 (move_field 1 5 (118 ∷ [])) ∷ [],
)
unfolding on_enter_room insert has find assign
enter_test = refl

move_channel_arrives_example :
    (s1 : Shelf) × (s2 : Shelf) × (packet_move_channel field 1 (97 ∷ []) 6001 0
      ≡ some (suspend_recv 1 ∷ request_last (change_channel 7 (98 ∷ []) 1) ∷ []))
    × (channel_answered shelves no_keys 7 (98 ∷ []) 1
        ≡ (s1, reply_disconnect 1 (move_channel token) 30 ∷ []))
    × (on_session_release field 1
        ≡ some (erase 1 field, request_last (log_out 7 (98 ∷ [])) ∷ free_user hero ∷ []))
    × (req_login_other_channel shelves
          (97 ∷ [])
          6001
          (shelves.pass 5 (log_out_answered shelves (shelves.pass 20 s1) 7 (98 ∷ [])))
          lobby
          2
          7
          token
          (98 ∷ [])
          0
          100
        ≡ some (
          s2,
          record lobby { user_map = assign 2 (record newcomer { uid = 7 }) lobby.user_map },
          request (select_character_list 7) characters_of_channel 2
              ∷ request (select_character_row (98 ∷ [])) character_of_channel 2
              ∷ [],
        ))
    × (look s2 (login_key (to_string 7)) ≡ some (login_value (status shelves (97 ∷ []) 6001 2)))
move_channel_arrives_example =
    move_channel_arrives shelves no_keys field 1 hero hero_here (97 ∷ []) 6001 lobby 2 newcomer
      newcomer_here refl (97 ∷ []) 6001 100 20 5 (omega arith)

move_channel_logged_out_example :
    (s1 : Shelf) × (s2 : Shelf) × (packet_move_channel field 1 (97 ∷ []) 6001 0
      ≡ some (suspend_recv 1 ∷ request_last (change_channel 7 (98 ∷ []) 1) ∷ []))
    × (channel_answered shelves no_keys 7 (98 ∷ []) 1
        ≡ (s1, reply_disconnect 1 (move_channel token) 30 ∷ []))
    × (req_login_other_channel shelves
          (97 ∷ [])
          6001
          (shelves.pass 20 s1)
          lobby
          2
          7
          token
          (98 ∷ [])
          0
          100
        ≡ some (
          s2,
          record lobby { user_map = assign 2 (record newcomer { uid = 7 }) lobby.user_map },
          request (select_character_list 7) characters_of_channel 2
              ∷ request (select_character_row (98 ∷ [])) character_of_channel 2
              ∷ [],
        ))
    × (find 2 (assign 2 (record newcomer { uid = 7 }) lobby.user_map)
        ≡ some (record newcomer { uid = 7 }))
    × (on_session_release field 1
        ≡ some (erase 1 field, request_last (log_out 7 (98 ∷ [])) ∷ free_user hero ∷ []))
    × (look (log_out_answered shelves (shelves.pass 5 s2) 7 (98 ∷ [])) (login_key (to_string 7))
        ≡ none)
move_channel_logged_out_example =
    move_channel_logged_out shelves no_keys field 1 hero hero_here (97 ∷ []) 6001 lobby 2 newcomer
      newcomer_here refl (97 ∷ []) 6001 100 20 5 (omega arith)
