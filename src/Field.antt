-- ===== src/Field.antt =====
-- The fields of the game server (게임서버/컨텐츠/클래스/필드/CBaseField.cpp) as far as friends and
-- whispers go: the users of a field, their handlers, and the tasks of other servers.
-- A handler has what GetData read and how many bytes of the packet are left. The database and Redis
-- are outside: a query is an effect with the callback that its answer goes to, and the callbacks
-- are functions of that answer. `none` is the exception of `at`, or a callback for a user who has
-- left, which the code dereferences.
pub mod Friends
pub mod Friendship
mod Tests
use game_server_client.Base.{
  ℕ, List, [], ◌∷◌, ◌++◌, Bool, true, false, Option, none, some, if◌then◌else◌, ◌==◌, ◌&&◌, ◌>>=◌,
  not,
}
use game_server_client.Map.{Map, find, assign, insert, erase}

-- st_Friend and what of st_User the friends need.
pub record Friend : Type 0 where
  pub nickname : List ℕ
  pub is_online : Bool

pub record Member : Type 0 where
  pub nickname : List ℕ
  pub friends : List Friend
  pub add_friends : List (List ℕ)

-- `UserMap`, by session id.
abbrev pub Field : Type 0
Field = Map Member

-- The messages, by the functions of PacketInit.cpp that build them.
pub data Reply : Type 0 where
  req_friend accept_friend : (nickname : List ℕ) → Reply
  add_friend send_whisper : (status : Bool) → Reply
  accept_add_friend : (status : Bool) → (nickname : List ℕ) → Reply
  friend_list : List Friend → Reply

-- The callbacks of the queries.
pub data Callback : Type 0 where
  nickname_selected add_friend_inserted :
      (session_id : ℕ) → (send_nickname recv_nickname : List ℕ) → Callback
  friends_inserted : (session_id : ℕ) → (friend_nickname : List ℕ) → Callback

-- The queries of Query.cpp, and the transaction of three.
pub data Request : Type 0 where
  select_nickname : (nickname : List ℕ) → Request
  insert_add_friend : (recv_nickname send_nickname : List ℕ) → Request
  make_friends : (nickname friend_nickname : List ℕ) → Request

pub data Action : Type 0 where
  reply : (session_id : ℕ) → Reply → Action
  disconnect : (session_id : ℕ) → Action
  request : Request → Callback → Action
  set_add_friend set_accept_add_friend : (send_nickname recv_nickname : List ℕ) → Action

-- `==` of texts.
unfoldable pub same : List ℕ → List ℕ → Bool
same [] [] = true
same [] (b ∷ bs) = false
same (a ∷ text) [] = false
same (a ∷ text) (b ∷ bs) = (a == b) && same text bs

-- `std::find` in the requests, and `erase` of what `std::remove` gives.
unfoldable pub listed : List ℕ → List (List ℕ) → Bool
listed n [] = false
listed n (m ∷ ms) = if same m n then true else listed n ms

unfoldable pub without : List ℕ → List (List ℕ) → List (List ℕ)
without n [] = []
without n (m ∷ ms) = let rest = without n ms in if same m n then rest else m ∷ rest

-- `ADD_FRIEND` and `ACCEPT_ADD_FRIEND` of OnRecvToRoom: a user who is not here is passed over.
unfoldable pub on_add_friend :
    Field → (session_id : ℕ) → (send_nickname : List ℕ) → Field × List Action
on_add_friend f session_id send_nickname = elim (find session_id f) [
  | none ↦ (f, [])
  | some u ↦ (
    assign session_id (record u { add_friends = u.add_friends ++ send_nickname ∷ [] }) f,
    reply session_id (req_friend send_nickname) ∷ [],
  )
]

unfoldable pub on_accept_add_friend :
    Field → (session_id : ℕ) → (send_nickname : List ℕ) → Field × List Action
on_accept_add_friend f session_id send_nickname = elim (find session_id f) [
  | none ↦ (f, [])
  | some u ↦ (
    assign session_id
        (record u {
          friends = u.friends ++ record { nickname = send_nickname; is_online = false } ∷ [];
        })
        f,
    reply session_id (accept_friend send_nickname) ∷ [],
  )
]

-- `Packet_Add_Friend`.
unfoldable pub packet_add_friend :
    Field → (session_id : ℕ) → (recv_nickname : List ℕ) → (left : ℕ) → Option (Field × List Action)
packet_add_friend f session_id recv_nickname left =
    if left == 0
    then (do
      u ← find session_id f
      some (
        f,
        request (select_nickname recv_nickname)
              (nickname_selected session_id u.nickname recv_nickname)
            ∷ [],
      ))
    else some (f, disconnect session_id ∷ [])

-- Its first callback: the character is there or is not.
unfoldable pub nickname_answered :
    (session_id : ℕ) → (send_nickname recv_nickname : List ℕ) → (errorno rows : ℕ) → List Action
nickname_answered session_id send_nickname recv_nickname errorno rows =
    if errorno == 0
    then (if rows == 0
        then reply session_id (add_friend false) ∷ []
        else request (insert_add_friend recv_nickname send_nickname)
            (add_friend_inserted session_id send_nickname recv_nickname)
          ∷ [])
    else []

-- Its second callback.
unfoldable pub add_friend_answered :
    (session_id : ℕ) → (send_nickname recv_nickname : List ℕ) → (errorno : ℕ) → List Action
add_friend_answered session_id send_nickname recv_nickname errorno =
    if errorno == 0
    then set_add_friend send_nickname recv_nickname ∷ reply session_id (add_friend true) ∷ []
    else reply session_id (add_friend false) ∷ []

-- `Packet_Accept_Add_Friend`: after the disconnect of a nickname that is not listed it goes on.
unfoldable pub packet_accept_add_friend :
    Field
    → (session_id : ℕ) → (friend_nickname : List ℕ) → (left : ℕ) → Option (Field × List Action)
packet_accept_add_friend f session_id friend_nickname left =
    if left == 0
    then (do
      u ← find session_id f
      some (
        f,
        (if listed friend_nickname u.add_friends then [] else disconnect session_id ∷ [])
            ++ request (make_friends u.nickname friend_nickname)
                (friends_inserted session_id friend_nickname)
              ∷ [],
      ))
    else some (f, disconnect session_id ∷ [])

-- Its callback.
unfoldable pub friends_answered :
    Field
    → (session_id : ℕ) → (friend_nickname : List ℕ) → (errorno : ℕ) → Option (Field × List Action)
friends_answered f session_id friend_nickname errorno = do
  u ← find session_id f
  some (
      if errorno == 0
      then (
        assign session_id
            (record u {
              add_friends = without friend_nickname u.add_friends;
              friends = u.friends ++ record { nickname = friend_nickname; is_online = false } ∷ [];
            })
            f,
        set_accept_add_friend u.nickname friend_nickname
            ∷ reply session_id (accept_add_friend true friend_nickname)
            ∷ [],
      )
      else (f, reply session_id (accept_add_friend false []) ∷ []))

-- `Redis_GetLoginStatus` of the friends (LobbyServer.cpp); `exists` is whether Redis has the key of a
-- nickname.
unfoldable pub get_login_status : (exists : List ℕ → Bool) → List Friend → List Friend
get_login_status exists [] = []
get_login_status exists (friend ∷ friends) =
    record friend { is_online = exists friend.nickname } ∷ get_login_status exists friends

-- `Packet_Friend_List`.
unfoldable pub packet_friend_list :
    (exists : List ℕ → Bool) → Field → (session_id left : ℕ) → Option (Field × List Action)
packet_friend_list exists f session_id left =
    if left == 0
    then (do
      u ← find session_id f
      some (
        assign session_id (record u { friends = get_login_status exists u.friends }) f,
        reply session_id (friend_list (get_login_status exists u.friends)) ∷ [],
      ))
    else some (f, disconnect session_id ∷ [])
