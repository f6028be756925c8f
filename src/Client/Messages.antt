-- ===== src/Client/Messages.antt =====
-- The messages that the client handles, each with what the handler reads, and the loop that hands
-- them out (클라이언트/컨텐츠/GameClient.cpp).
use game_server_client.Base.{
  ℕ, zero, suc, ◌+◌, List, [], ◌∷◌, ◌++◌, Bool, true, false, Option, none, some, if◌then◌else◌,
  ◌==◌, ◌>>=◌, ltb, length, set, get_or,
}
use game_server_client.Map.{Map, assign, insert, index}
use game_server_client.Protocol.{CharacterSeq, ServerStatus}
use game_server_client.Field.{Friend, same}
use game_server_client.Client.{
  Held, Amount, Offer, Character, Scene, Client, no_item, no_amount, resize, refill, clear,
  place_all, change_item,
}

-- What Packet_Select_Character reads; a stat and a money have their number first.
pub record Selected : Type 0 where
  pub nickname : List ℕ
  pub uid : ℕ
  pub room_no : ℕ
  pub stats : List (ℕ × Amount)
  pub moneys : List (ℕ × Amount)
  pub max_slot : ℕ
  pub items : List Held
  pub friends : List (List ℕ)
  pub add_friends : List (List ℕ)

pub data Message : Type 0 where
  login login_other_channel character_list : List CharacterSeq → Message
  select_character : Selected → Message
  available_nickname create_character : (status : Bool) → Message
  move_field : (status : Bool) → (room_no : ℕ) → (field_name : List ℕ) → Message
  move_channel : (token : List ℕ) → Message
  channel_list : List ServerStatus → Message
  store_product_list : List Offer → Message
  buy_refused : Message
  buy_store_item :
      (money_id money_quantity : ℕ)
      → (tokens : List (ℕ × ℕ)) → Held
      → (changes : List (ℕ × ℕ)) → Message
  show_me_the_money : (money_id quantity : ℕ) → Message
  use_item_failed : Message
  use_item_stats_box : (stats_id stats : ℕ) → Held → (changes : List (ℕ × ℕ)) → Message
  add_friend send_whisper : (status : Bool) → Message
  req_friend accept_friend : (nickname : List ℕ) → Message
  accept_add_friend : (status : Bool) → (nickname : List ℕ) → Message
  friend_list : List Friend → Message
  req_send_whisper : (send_nickname chatting : List ℕ) → Message

pub data Effect : Type 0 where
  set_scene : Scene → Effect
  ready_field disconnect reconnect : Effect
  login_request : (uid : ℕ) → (token : List ℕ) → Effect
  login_other_channel_request : (uid : ℕ) → (token nickname : List ℕ) → Effect
  print : (send_nickname chatting : List ℕ) → Effect

unfoldable pub insert_all : {V : Type 0} → List (ℕ × V) → Map V → Map V
insert_all [] m = m
insert_all ((k, v) ∷ rest) m = insert_all rest (insert k v m)

-- The five inventories are given their size.
unfoldable pub resize_items : (max_slot kind left : ℕ) → Map (List Held) → Map (List Held)
resize_items max_slot kind zero items = items
resize_items max_slot kind (suc left) items =
    resize_items max_slot (kind + 1) left
      (assign kind (resize no_item (max_slot + 1) (index [] kind items)) items)

-- Packet_Select_Character
unfoldable pub select : Selected → Character → Option Character
select s c = do
  items ← place_all s.items (resize_items s.max_slot 1 5 c.items)
  some (record c {
    nickname = s.nickname;
    uid = s.uid;
    room_no = s.room_no;
    stats = insert_all s.stats c.stats;
    moneys = insert_all s.moneys c.moneys;
    items = items;
    friends = refill [] c.friends s.friends;
    add_friends = refill [] c.add_friends s.add_friends;
  })

-- `character.moneys[id].quantity = quantity`, and the same of the stats.
unfoldable pub set_amount : (id quantity : ℕ) → Map Amount → Map Amount
set_amount id quantity m = assign id (record (index no_amount id m) { quantity = quantity }) m

-- `character.items[1][seq].quantity = quantity` for each change.
unfoldable pub set_tokens : List (ℕ × ℕ) → List Held → Option (List Held)
set_tokens [] slots = some slots
set_tokens ((seq, quantity) ∷ changes) slots =
    if ltb seq (length slots)
    then set_tokens changes
        (set slots seq (record (get_or slots seq no_item) { quantity = quantity }))
    else none

-- The first of a nickname; `none` is `erase` of the end.
unfoldable pub erase_first : List ℕ → List (List ℕ) → Option (List (List ℕ))
erase_first nickname [] = none
erase_first nickname (n ∷ ns) =
    if same n nickname then some ns else (do rest ← erase_first nickname ns; some (n ∷ rest))

unfoldable pub pay_tokens : List (ℕ × ℕ) → Character → Option Character
pay_tokens [] c = some c
pay_tokens (change ∷ changes) c = do
  slots ← set_tokens (change ∷ changes) (index [] 1 c.items)
  some (record c { items = assign 1 slots c.items })

-- Packet_Buy_Store_Item behind the status.
unfoldable pub buy :
    (money_id money_quantity : ℕ)
    → (tokens : List (ℕ × ℕ)) → Held
    → (changes : List (ℕ × ℕ)) → Character
    → Option Character
buy money_id money_quantity tokens item changes c = do
  paid ← pay_tokens tokens (record c { moneys = set_amount money_id money_quantity c.moneys })
  change_item item changes paid

-- Packet_Use_Item_Stats_Box
unfoldable pub use_stats_box :
    (stats_id stats : ℕ) → Held → (changes : List (ℕ × ℕ)) → Character → Option Character
use_stats_box stats_id stats item changes c = do
  c' ← change_item item changes c
  some (record c' { stats = set_amount stats_id stats c'.stats })

-- Packet_Login and Packet_CharacterList
unfoldable pub show_characters :
    Client → (characters : List CharacterSeq) → Option (Client × List Effect)
show_characters c characters = some (
  record c {
    character_list = refill (record { nickname = []; seq = 0 }) c.character_list characters;
  },
  set_scene Scene.login ∷ [],
)

-- Packet_Move_Field; the room 0 is the lobby.
unfoldable pub move_field_answered :
    Client → (status : Bool) → (room_no : ℕ) → (field_name : List ℕ) → Option (Client × List Effect)
move_field_answered c true room_no field_name =
    if room_no == 0
    then some (
      record c {
        character = record (clear c.character) { room_no = room_no; field_name = field_name };
      },
      set_scene Scene.login ∷ [],
    )
    else some (
      record c { character = record c.character { room_no = room_no; field_name = field_name } },
      set_scene Scene.field ∷ ready_field ∷ [],
    )
move_field_answered c false room_no field_name = some (c, [])

-- Packet_Move_Channel
unfoldable pub move_channel_answered : Client → (token : List ℕ) → Option (Client × List Effect)
move_channel_answered c token = some (
  record c { token = token; is_move_channel = true },
  disconnect ∷ set_scene Scene.moving_channel ∷ [],
)

-- Packet_Channel_List
unfoldable pub show_channels : Client → List ServerStatus → Option (Client × List Effect)
show_channels c servers = some (
  record c {
    channel_info =
        refill (record { server_name = []; ip = []; port = 0; status_type = 0 }) c.channel_info
          servers;
  },
  set_scene Scene.channels ∷ [],
)

-- Packet_Store_Product_List
unfoldable pub show_offers : Client → List Offer → Option (Client × List Effect)
show_offers c offers = some (
  record c {
    product_info =
        refill
          (record {
            kind = 0;
            id = 0;
            name = [];
            description = [];
            money_id = 0;
            money_price = 0;
            token_id = 0;
            token_price = 0;
          })
          c.product_info offers;
  },
  set_scene Scene.store ∷ [],
)

-- Packet_Accept_Add_Friend
unfoldable pub accept_friend_answered :
    Client → (status : Bool) → (nickname : List ℕ) → Option (Client × List Effect)
accept_friend_answered c false nickname = some (
  record c { accept_add_friend_status = (false, nickname) },
  set_scene Scene.accept_add_friend ∷ [],
)
accept_friend_answered c true nickname = do
  rest ← erase_first nickname c.character.add_friends
  some (
    record c {
      accept_add_friend_status = (true, nickname);
      character = record c.character { add_friends = rest };
    },
    set_scene Scene.accept_add_friend ∷ [],
  )

-- Packet_Friend_List
unfoldable pub show_friends : Client → List Friend → Option (Client × List Effect)
show_friends c list = some (
  record c {
    friend_info = refill (record { nickname = []; is_online = false }) c.friend_info list;
  },
  set_scene Scene.friends ∷ [],
)

-- The handlers, as `update` chooses among them; the answer of another channel goes to Packet_Login.
unfoldable pub handle : Client → Message → Option (Client × List Effect)
handle c (login characters) = show_characters c characters
handle c (login_other_channel characters) = show_characters c characters
handle c (character_list characters) = show_characters c characters
handle c (select_character s) = do
  character ← select s c.character
  some (record c { character = character }, [])
handle c (available_nickname status) =
    some (record c { available_nickname_status = status }, set_scene Scene.available_nickname ∷ [])
handle c (create_character status) =
    some (record c { create_character_status = status }, set_scene Scene.created ∷ [])
handle c (move_field status room_no field_name) = move_field_answered c status room_no field_name
handle c (move_channel token) = move_channel_answered c token
handle c (channel_list servers) = show_channels c servers
handle c (store_product_list offers) = show_offers c offers
handle c buy_refused = some (c, set_scene Scene.bought ∷ [])
handle c (buy_store_item money_id money_quantity tokens item changes) = do
  character ← buy money_id money_quantity tokens item changes c.character
  some (record c { character = character }, set_scene Scene.bought ∷ [])
handle c (show_me_the_money money_id quantity) = some (
  record c {
    character = record c.character { moneys = set_amount money_id quantity c.character.moneys };
  },
  set_scene Scene.show_me_the_money ∷ [],
)
handle c use_item_failed = some (c, set_scene Scene.used_item ∷ [])
handle c (use_item_stats_box stats_id stats item changes) = do
  character ← use_stats_box stats_id stats item changes c.character
  some (record c { character = character }, set_scene Scene.used_item ∷ [])
handle c (add_friend status) =
    some (record c { add_friend_status = status }, set_scene Scene.add_friend ∷ [])
handle c (send_whisper status) =
    some (record c { whisper_status = status }, set_scene Scene.whisper ∷ [])
handle c (req_friend nickname) = some (
  record c {
    character = record c.character { add_friends = c.character.add_friends ++ nickname ∷ [] };
  },
  [],
)
handle c (accept_friend nickname) = some (
  record c { character = record c.character { friends = c.character.friends ++ nickname ∷ [] } },
  [],
)
handle c (accept_add_friend status nickname) = accept_friend_answered c status nickname
handle c (friend_list list) = show_friends c list
handle c (req_send_whisper send_nickname chatting) = some (c, print send_nickname chatting ∷ [])

-- `update`, of what is in the queue.
unfoldable pub update : Client → List Message → Option (Client × List Effect)
update c [] = some (c, [])
update c (message ∷ messages) = do
  (c1, first) ← handle c message
  (c2, rest) ← update c1 messages
  some (c2, first ++ rest)

-- OnConnectServer, with Login and directLogin; OnDisconnectServer.
unfoldable pub on_connect_server : Client → Client × List Effect
on_connect_server c =
    if c.is_move_channel
    then (
      record c { is_move_channel = false },
      login_other_channel_request c.uid c.token c.character.nickname ∷ [],
    )
    else (c, login_request c.uid c.token ∷ [])

unfoldable pub on_disconnect_server : Client → List Effect
on_disconnect_server c = if c.is_move_channel then reconnect ∷ [] else []
