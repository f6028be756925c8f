-- ===== src/Lobby/Tests.antt =====
-- The lobby with a store that is a function of keys, and two sessions of the account 7.
use game_server_client.Base.{
  ap, ◌≤◌, zero, suc, ℕ, ◌+◌, ◌<◌, ◌^◌, ◌≡◌, refl, List, [], ◌∷◌, false, none, some, arith, map,
}
use game_server_client.Map.{Map, find, assign, insert, erase, has}
use game_server_client.Redis.Shelves.{Shelf, look, no_keys, put_entry, put_self, value_of, shelves}
use game_server_client.Item.{Item}
use game_server_client.ItemManager.{get_item}
use game_server_client.Inventory.Bag.{new_bag}
use game_server_client.Lobby.Character.{placed, place_item}
use game_server_client.Inventory.Whole.{set_money, on_bag, Inventory, new_inventory}
use game_server_client.Texts.{combine_strings, combine_rest}
use game_server_client.Lobby.Entries.{pair_text, triple_text}
use game_server_client.Tasks.{
  digits, to_string, login_key, login_value, task_key, execute_task, Deed,
}
use game_server_client.Tasks.Arrival.{IsStatus}
use game_server_client.Field.{same}
use game_server_client.Lobby.Character.{Player, load_character, clear}
use game_server_client.Lobby.{
  Lobby, reply, request, push_task, change_room, select_character, select_character_list,
  characters_of_login, status, req_login, check_waiting, selected_answered,
}
use game_server_client.Lobby.Stay.{
  session_release, update, enter_new, enter_back, leave, lobby_room,
}
use game_server_client.Lobby.Takeover.{waiting, second_login_takes_over}
use game_server_client.Lobby.Waiting.{Ended, check_waiting_ends}
use game_server_client.Lobby.Logins.{nickname_takes_login}
use game_server_client.Lobby.Keys.{AreKeyed}
use game_server_client.Moves.{on_enter_room, on_leave_room}
use game_server_client.Lobby.Steps.{came_new}
use game_server_client.Lobby.Passages.{Reach, here, next, inside, gone, came_back, users_keyed}
use game_server_client.Lobby.Rows.{
  Saved, IsSaved, row_of, put_stats, put_money, put_item, put_items, load_character-row_of,
}

-- A player of the lobby, at the address "a" and the port 6000.
abbrev player : (session_id uid : ℕ) → Player
player session_id uid = record {
  session_id = session_id;
  uid = uid;
  last_time_tick = 0;
  room_no = 0;
  nickname = [];
  stats = [];
  inventory = new_inventory;
  friends = [];
  add_friends = [];
  characters = [];
}

abbrev address : List ℕ
address = 97 ∷ []

abbrev secret : List ℕ
secret = 49 ∷ 50 ∷ []

-- The token of 7 for 10 seconds, and the status of the session 1.
abbrev tokens : Shelf
tokens = put_entry no_keys (to_string 7) (some (secret, some 10))

abbrev store : Shelf
store =
    put_entry tokens (login_key (to_string 7))
      (some (login_value (status shelves address 6000 1), none))

abbrev lobby : Lobby
lobby = record { user_map = (1, player 1 7) ∷ (2, player 2 0) ∷ []; duplication_user = [] }

status-IsStatus :
    (session_id : ℕ) → session_id < 2 ^ 64 → IsStatus (status shelves address 6000 session_id)
status-IsStatus session_id h = record {
  address = ((λ e. omega arith), tt);
  word = omega arith;
  long = h;
}

first_here : find 1 lobby.user_map ≡ some (player 1 7)
unfolding find
first_here = refl

second_here : find 2 lobby.user_map ≡ some (player 2 0)
unfolding find
second_here = refl

granted : look store (to_string 7) ≡ some secret
unfolding login_key login_value to_string same combine_strings digits
granted = refl

held : look store (login_key (to_string 7)) ≡ some (login_value (status shelves address 6000 1))
held = ap value_of (
    put_self tokens (login_key (to_string 7))
      (some (login_value (status shelves address 6000 1), none)))

-- Another server has the uid 7 in the first round only.
abbrev meanwhile : ℕ → Shelf → Shelf
meanwhile zero shelf =
    put_entry shelf (login_key (to_string 7))
      (some (login_value (status shelves address 6001 5), none))
meanwhile (suc i) shelf = shelf

calm :
    (i : ℕ)
    → 1 ≤ i
    → (shelf : Shelf) (key : List ℕ) → look shelf key ≡ none
    → look (meanwhile i shelf) key ≡ none
calm zero h shelf key free = absurd (omega arith)
calm (suc i) h shelf key free = free

check_waiting_ends_example :
    Ended 1
      (check_waiting shelves address 6000 (λ i. i) meanwhile 0 3 lobby.user_map store ((2, 9) ∷ []))
check_waiting_ends_example =
    check_waiting_ends shelves address 6000 (λ i. i) meanwhile lobby.user_map 1 calm 0 3 store
      ((2, 9) ∷ []) (omega arith)

second_login_takes_over_example :
    (s2 : Shelf) × (l2 : Lobby) × (s3 : Shelf) × (req_login shelves address 6000 store lobby 2 7
        secret 0 100
      ≡ some (
        store,
        waiting lobby 2 7 (player 2 0) 100,
        push_task (task_key (status shelves address 6000 1) 4) (to_string 1) ∷ [],
      ))
    × (execute_task 4 (to_string 1) ≡ some (Deed.disconnect 1 ∷ []))
    × (session_release shelves store (waiting lobby 2 7 (player 2 0) 100) 1 ≡ some (s2, l2))
    × (update shelves address 6000 (λ i. 200 + i) (λ i shelf. shelf) 2 s2 l2
        ≡ some (
          s3,
          record l2 { duplication_user = [] },
          request (select_character_list 7) characters_of_login 2 ∷ [],
        ))
    × (look s3 (login_key (to_string 7)) ≡ some (login_value (status shelves address 6000 2)))
second_login_takes_over_example =
    second_login_takes_over shelves address 6000 store lobby 1 2 7 secret (player 1 7) (player 2 0)
      (λ e. omega arith) first_here refl second_here refl refl granted held
      (status-IsStatus 1 (omega arith)) 100 (λ i. 200 + i) (λ i shelf. shelf) 0 (λ s1 free. free)
      (omega arith)

abbrev elixir : Item
elixir = record {
  category = 0;
  kind = 1;
  name = 101 ∷ [];
  item_id = 5;
  description = [];
  max_quantity = 100;
  quantity = 0;
  seq = 0;
}

abbrev saved : Saved
saved = record {
  nickname = 98 ∷ [];
  room_no = 1;
  stats = (1, 4) ∷ (2, 9) ∷ [];
  moneys = (1, 1000) ∷ [];
  items = (5, 30, 2) ∷ [];
  friends = (99 ∷ []) ∷ (100 ∷ []) ∷ [];
  add_friends = [];
}

saved-IsSaved : IsSaved 1024 saved
unfolding combine_strings combine_rest pair_text triple_text to_string digits
saved-IsSaved = record {
  room = omega arith;
  stats = omega arith;
  moneys = omega arith;
  items = omega arith;
  friends = (((λ e. omega arith), tt), (((λ e. omega arith), tt), (λ e. cc)));
  add_friends = tt;
  some_stats = λ e. cc;
  short_stats = omega arith;
  some_money = λ e. cc;
  short_moneys = omega arith;
  short_items = omega arith;
  short_friends = omega arith;
  short_add_friends = omega arith;
}

abbrev shop : Map Item
shop = (5, elixir) ∷ []

stocked : Inventory
stocked = elim (put_items shop saved.items (put_money saved.moneys new_inventory)) [
  | none ↦ new_inventory
  | some inventory ↦ inventory
]

stocked_fits : put_items shop saved.items (put_money saved.moneys new_inventory) ≡ some stocked
unfolding stocked put_items put_item put_money get_item find on_bag place_item placed new_inventory
    new_bag set_money
stocked_fits = refl

load_character-row_of_example :
    load_character shop (row_of 1024 saved) (player 3 8)
    ≡ some (record (player 3 8) {
      nickname = 98 ∷ [];
      room_no = 1;
      stats = put_stats saved.stats [];
      inventory = stocked;
      friends = map (λ n. record { nickname = n; is_online = false }) saved.friends;
      add_friends = [];
    })
load_character-row_of_example =
    load_character-row_of shop 1024 saved (player 3 8) stocked saved-IsSaved stocked_fits

-- A character of the name "9", in no room's way.
abbrev nine : Saved
nine = record saved { nickname = 57 ∷ []; items = []; friends = [] }

abbrev nine_player : Player
nine_player = record (player 2 0) {
  nickname = 57 ∷ [];
  room_no = 1;
  stats = put_stats saved.stats [];
  inventory = put_money saved.moneys new_inventory;
}

nine-IsSaved : IsSaved 1024 nine
unfolding combine_strings combine_rest pair_text triple_text to_string digits
nine-IsSaved = record {
  room = omega arith;
  stats = omega arith;
  moneys = omega arith;
  items = tt;
  friends = tt;
  add_friends = tt;
  some_stats = λ e. cc;
  short_stats = omega arith;
  some_money = λ e. cc;
  short_moneys = omega arith;
  short_items = omega arith;
  short_friends = omega arith;
  short_add_friends = omega arith;
}

nine_fits :
    put_items shop nine.items (put_money nine.moneys new_inventory)
    ≡ some (put_money saved.moneys new_inventory)
unfolding put_items
nine_fits = refl

nine_loaded : load_character shop (row_of 1024 nine) (player 2 0) ≡ some nine_player
nine_loaded =
    load_character-row_of shop 1024 nine (player 2 0) (put_money saved.moneys new_inventory)
      nine-IsSaved nine_fits

nine_text : nine_player.nickname ≡ to_string 9
unfolding to_string digits
nine_text = refl

nickname_takes_login_example :
    (s' : Shelf) × (l' : Lobby) × (selected_answered shelves address 6000 shop store lobby 2 0
        (some (row_of 1024 nine))
      ≡ some (s', l', reply 2 (select_character nine_player) ∷ change_room 2 1 nine_player ∷ []))
    × (look s' (login_key (to_string 9)) ≡ some (login_value (status shelves address 6000 2)))
nickname_takes_login_example =
    nickname_takes_login shelves address 6000 shop store lobby 2 (player 2 0) nine_player
      second_here (row_of 1024 nine) nine_loaded 9 nine_text

abbrev empty : Lobby
empty = record { user_map = []; duplication_user = [] }

abbrev newcomer : Player
newcomer = record (clear (player 1 7)) { session_id = 4; last_time_tick = 50; room_no = lobby_room }

-- A session comes, goes to the field 3 and comes back.
round_trip :
    Reach shelves address 6000 shop
      (record { lobby = empty; field = [] })
      (record {
        lobby = (enter_back shelves store empty 4 (record newcomer { room_no = 3 }) 60).1;
        field = [];
      })
unfolding enter_new leave find insert assign erase has on_enter_room on_leave_room
round_trip =
    next
      (next (next here (inside (came_new 4 (player 1 7) 50 refl)))
        (gone 3 [] 4 newcomer refl refl refl))
      (came_back store 4 (record newcomer { room_no = 3 }) 60 refl refl refl)

users_keyed_example :
    AreKeyed (enter_back shelves store empty 4 (record newcomer { room_no = 3 }) 60).1.user_map
    × AreKeyed []
users_keyed_example = users_keyed shelves address 6000 shop round_trip
