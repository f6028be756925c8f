-- ===== src/Moves.antt =====
-- How a player enters and leaves a field, and goes from field to field and from channel to channel
-- (게임서버/컨텐츠/클래스/필드/CBaseField.cpp; setField in 게임서버/컨텐츠/구조체/Character.cpp).
-- A handler has what GetData read and how many bytes of the packet are left; a message is what
-- PacketInit.cpp puts into it. What the database runs last is an action with its callback, and the
-- callbacks are functions. `none` is the exception of `at`.

pub mod Channels
mod Tests
use game_server_client.Base.{ℕ, List, [], ◌∷◌, Bool, Option, none, some, if◌then◌else◌, ◌==◌, ◌>>=◌}
use game_server_client.Map.{Map, find, assign, insert, erase}
use game_server_client.Redis.{Redis}
use game_server_client.Packet.{Part}
use game_server_client.Protocol.{
  move_field, move_channel, channel_list, show_me_the_money, store_list,
}
use game_server_client.Inventory.Whole.{add_money}
use game_server_client.Item.{Item}
use game_server_client.Store.{Product, get_store_list}
use game_server_client.Tasks.{to_string}
use game_server_client.Tasks.Status.{get_server_status}
use game_server_client.Lobby.{remove_login}
use game_server_client.Lobby.Character.{Player}

-- The callbacks of RequestLastQuery, with what each captures.
pub data Callback : Type 0 where
  change_field : (session_id room_no : ℕ) → Player → Callback
  change_channel : (uid : ℕ) → (nickname : List ℕ) → (session_id : ℕ) → Callback
  log_out : (uid : ℕ) → (nickname : List ℕ) → Callback

pub data Action : Type 0 where
  reply : (session_id : ℕ) → List Part → Action
  -- SendMSG_Disconnect
  reply_disconnect : (session_id : ℕ) → List Part → (seconds : ℕ) → Action
  disconnect suspend_recv : (session_id : ℕ) → Action
  update_room_no : (nickname : List ℕ) → (room_no : ℕ) → Action
  update_money : (nickname : List ℕ) → (money_id quantity : ℕ) → Action
  request_last : Callback → Action
  free_user : Player → Action

-- `UserMap`
abbrev pub Users : Type 0
Users = Map Player

module _ (room_no : ℕ) (field_name : List ℕ) where
  -- OnEnterRoom; `none` is a null pointer. The user is put in first, and then knows its field.
  unfoldable pub on_enter_room : Users → (session_id : ℕ) → Option Player → Users × List Action
  on_enter_room users session_id none = (users, [])
  on_enter_room users session_id (some u) = (
    insert session_id (record u { room_no = room_no }) users,
    update_room_no u.nickname room_no ∷ reply session_id (move_field 1 room_no field_name) ∷ [],
  )

  -- The callback of MoveRoom; `changed` is what ChangeRoom gives.
  unfoldable pub field_answered : (session_id : ℕ) → (changed : Bool) → List Action
  field_answered session_id changed =
      if changed then [] else reply session_id (move_field 0 room_no field_name) ∷ []

-- OnLeaveRoom
unfoldable pub on_leave_room : Users → (session_id : ℕ) → Option Users
on_leave_room users session_id = do u ← find session_id users; some (erase session_id users)

-- OnSessionRelease
unfoldable pub on_session_release : Users → (session_id : ℕ) → Option (Users × List Action)
on_session_release users session_id = do
  u ← find session_id users
  some (erase session_id users, request_last (log_out u.uid u.nickname) ∷ free_user u ∷ [])

-- Packet_Move_Field and MoveRoom.
unfoldable pub packet_move_field : Users → (session_id room_no left : ℕ) → Option (List Action)
packet_move_field users session_id room_no left =
    if left == 0
    then (do
      u ← find session_id users
      some (request_last (change_field session_id room_no u) ∷ []))
    else some (disconnect session_id ∷ [])

-- Packet_Move_Channel, which does not look at the address in the packet.
unfoldable pub packet_move_channel :
    Users → (session_id : ℕ) → (ip : List ℕ) → (port left : ℕ) → Option (List Action)
packet_move_channel users session_id ip port left =
    if left == 0
    then (do
      u ← find session_id users
      some (
          suspend_recv session_id ∷ request_last (change_channel u.uid u.nickname session_id) ∷ []))
    else some (disconnect session_id ∷ [])

-- Packet_Channel_List; `hash` is what HGETALL gives, and `none` an exception.
unfoldable pub packet_channel_list :
    (hash : Option (List (List ℕ × List ℕ))) → (session_id left : ℕ) → Option (List Action)
packet_channel_list hash session_id left =
    if left == 0
    then (do servers ← get_server_status hash; some (reply session_id (channel_list servers) ∷ []))
    else some (disconnect session_id ∷ [])

-- Packet_Store_List; of a product without an item the message is not defined.
unfoldable pub packet_store_list :
    Map (Map Product) → Map Item → (session_id store_id left : ℕ) → Option (List Action)
packet_store_list stores items session_id store_id left =
    if left == 0
    then elim (get_store_list stores store_id) [
      | [] ↦ some (disconnect session_id ∷ [])
      | p ∷ ps ↦ do message ← store_list items (p ∷ ps); some (reply session_id message ∷ [])
    ]
    else some (disconnect session_id ∷ [])

-- Packet_Show_Me_The_Money
unfoldable pub packet_show_me_the_money :
    Users → (session_id money_id left : ℕ) → Option (Users × List Action)
packet_show_me_the_money users session_id money_id left =
    if left == 0
    then (do
      u ← find session_id users
      (inventory, quantity) ← add_money u.inventory money_id 10000
      some (
        assign session_id (record u { inventory = inventory }) users,
        update_money u.nickname money_id quantity
            ∷ reply session_id (show_me_the_money money_id quantity)
            ∷ [],
      ))
    else some (users, disconnect session_id ∷ [])

-- 63 times the digit 1.
abbrev pub token : List ℕ
token =
    49 ∷ 49 ∷ 49 ∷ 49 ∷ 49 ∷ 49 ∷ 49 ∷ 49 ∷ 49 ∷ 49 ∷ 49 ∷ 49 ∷ 49 ∷ 49 ∷ 49 ∷ 49 ∷ 49 ∷ 49 ∷ 49
    ∷ 49 ∷ 49 ∷ 49 ∷ 49 ∷ 49 ∷ 49 ∷ 49 ∷ 49 ∷ 49 ∷ 49 ∷ 49 ∷ 49 ∷ 49 ∷ 49 ∷ 49 ∷ 49 ∷ 49 ∷ 49 ∷ 49
    ∷ 49 ∷ 49 ∷ 49 ∷ 49 ∷ 49 ∷ 49 ∷ 49 ∷ 49 ∷ 49 ∷ 49 ∷ 49 ∷ 49 ∷ 49 ∷ 49 ∷ 49 ∷ 49 ∷ 49 ∷ 49 ∷ 49
    ∷ 49 ∷ 49 ∷ 49 ∷ 49 ∷ 49 ∷ 49 ∷ []

module _ (r : Redis) where
  -- The callback of Packet_Move_Channel; Redis_SetToken does not look at whether SETEX has succeeded.
  unfoldable pub channel_answered :
      r.Store → (uid : ℕ) → (nickname : List ℕ) → (session_id : ℕ) → r.Store × List Action
  channel_answered s uid nickname session_id = (
    r.setex (remove_login r s uid nickname) (to_string uid) 30 token,
    reply_disconnect session_id (move_channel token) 30 ∷ [],
  )

  -- The callback of OnSessionRelease.
  unfoldable pub log_out_answered : r.Store → (uid : ℕ) → (nickname : List ℕ) → r.Store
  log_out_answered s uid nickname = remove_login r s uid nickname
