-- ===== src/Client/Tests.antt =====
-- A client that has no items yet and gets 25 potions, and messages one after the other.
use game_server_client.Base.{
  ℕ, zero, suc, ◌≡◌, ◌≤◌, ◌+◌, refl, List, [], ◌∷◌, arith, true, false, some, replicate, get_or,
}
use mathlib.Core.Bool.{false≢true}
use game_server_client.Map.{find, has, index}
use game_server_client.Item.{Item}
use game_server_client.Inventory.Bag.{Bag, new_bag, SlotUpdate, ok}
use game_server_client.Inventory.Change.{add_item}
use game_server_client.Inventory.Free.{free_in}
use game_server_client.Inventory.Sound.{IsSound}
use game_server_client.Inventory.Quantity.{Marked, sum_of}
use game_server_client.Inventory.Add.{IsUsable}
use game_server_client.Field.{same}
use game_server_client.Client.{Character, Client, Scene, no_item, change_item}
use game_server_client.Client.Messages.{
  Message, handle, move_channel_answered, accept_friend_answered, update, set_scene, disconnect,
  erase_first, login_other_channel_request, on_connect_server,
}
use game_server_client.Buffer.{SerialRingBuffer, create, get_free_size}
use game_server_client.Buffer.Bounds.{contents, create-IsValid}
use game_server_client.Packet.{number, int, dword, put_parts, get_parts}
use game_server_client.Packet.Parts.{AreSendable, received, total_size}
use game_server_client.Client.Requests.{
  Request, send_whisper, code, body, request_parts, lobby_reads, field_reads, request_arrives,
}
use game_server_client.Client.Mirror.{Mirrors, shown, changes, add_item_mirrored}

abbrev potions : Item
potions = record {
  category = 1;
  kind = 2;
  name = [];
  item_id = 334;
  description = [];
  max_quantity = 10;
  quantity = 25;
  seq = 0;
}

abbrev character : Character
character = record {
  uid = 7;
  room_no = 3;
  field_name = [];
  nickname = 98 ∷ [];
  stats = [];
  moneys = [];
  items = (2, replicate 129 no_item) ∷ [];
  friends = [];
  add_friends = [] ∷ (97 ∷ []) ∷ (99 ∷ []) ∷ [];
}

nothing_there : (count seq : ℕ) → get_or (replicate count no_item) seq no_item ≡ no_item
nothing_there zero seq = refl
nothing_there (suc count) zero = refl
nothing_there (suc count) (suc seq) = nothing_there count seq

empty-Mirrors : Mirrors (index [] 2 character.items) new_bag 334
unfolding index find new_bag
empty-Mirrors seq = rw (nothing_there 129 seq) refl

new_bag-IsSound : IsSound new_bag
unfolding new_bag free_in
new_bag-IsSound = record {
  size = refl;
  next_lo = omega arith;
  next_hi = omega arith;
  counted = refl;
  lowest = λ _. (refl, refl);
}

new_bag-Marked : Marked new_bag
unfolding new_bag has index find
new_bag-Marked id seq h = absurd (false≢true h)

new_bag-IsUsable : IsUsable new_bag potions
unfolding new_bag index find sum_of
new_bag-IsUsable = record {
  full_pos = omega arith;
  room_small = omega arith;
  total_small = omega arith;
}

add_item_mirrored_example :
    (b' : Bag) × (us : List SlotUpdate) × (c' : Character) × (add_item new_bag potions
      ≡ ok (b', us))
    × (change_item (shown potions) (changes us) character ≡ some c')
    × Mirrors (index [] 2 c'.items) b' 334
unfolding new_bag index find sum_of
add_item_mirrored_example =
    add_item_mirrored new_bag potions character new_bag-IsSound new_bag-Marked new_bag-IsUsable refl
      (omega arith) refl empty-Mirrors

abbrev client : Client
client = record {
  uid = 7;
  token = [];
  is_move_channel = false;
  character = character;
  character_list = [];
  channel_info = [];
  product_info = [];
  friend_info = [];
  available_nickname_status = false;
  create_character_status = false;
  add_friend_status = false;
  accept_add_friend_status = (false, []);
  whisper_status = false;
}

abbrev moving : Client
moving = record client { token = 49 ∷ []; is_move_channel = true }

-- Another channel: the connection is closed, opened again, and used with the token.
channel_test :
    update client (Message.move_channel (49 ∷ []) ∷ [])
    ≡ some (moving, disconnect ∷ set_scene Scene.moving_channel ∷ [])
unfolding update handle move_channel_answered
channel_test = refl

reconnect_test : on_connect_server moving ≡ (
  record moving { is_move_channel = false },
  login_other_channel_request 7 (49 ∷ []) (98 ∷ []) ∷ [],
)
unfolding on_connect_server
reconnect_test = refl

-- The friend who is accepted is taken off the requests, and not put among the friends.
accept_test :
    handle client (Message.accept_add_friend true (97 ∷ []))
    ≡ some (
      record client {
        accept_add_friend_status = (true, 97 ∷ []);
        character = record character { add_friends = [] ∷ (99 ∷ []) ∷ [] };
      },
      set_scene Scene.accept_add_friend ∷ [],
    )
unfolding handle accept_friend_answered erase_first same
accept_test = refl

abbrev fresh : SerialRingBuffer
fresh = create 1000

fresh_room : get_free_size fresh ≡ 994
fresh_room = (create-IsValid 1000 (omega arith)).2

abbrev hello : Request
hello = send_whisper (97 ∷ []) (104 ∷ 105 ∷ [])

hello-AreSendable : AreSendable (body hello)
unfolding body
hello-AreSendable = (
  ((λ e. omega arith), tt),
  omega arith,
  (((λ e. omega arith), ((λ e. omega arith), tt)), omega arith, tt),
)

hello_room : total_size (body hello) + 4 ≤ get_free_size fresh
unfolding body total_size
hello_room = omega (arith, fresh_room)

request_arrives_example :
    ((r' : SerialRingBuffer) × (get_parts (put_parts fresh (request_parts hello)) (lobby_reads 36)
        ≡ some (r', number int 36 ∷ received (body hello)))
      × (contents r' ≡ []))
    × ((r' : SerialRingBuffer) × (get_parts (put_parts fresh (request_parts hello)) (field_reads 36)
          ≡ some (r', number dword 36 ∷ received (body hello)))
        × (contents r' ≡ []))
unfolding code
request_arrives_example =
    request_arrives fresh (create-IsValid 1000 (omega arith)).0
      (create-IsValid 1000 (omega arith)).1 hello hello-AreSendable hello_room
