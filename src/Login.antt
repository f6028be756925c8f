-- ===== src/Login.antt =====
-- The login server (로그인서버/컨텐츠/LoginServer.cpp, and PacketInit.cpp beside it).
-- A handler has what GetData read and how many bytes of the packet are left; what MySQL and Redis
-- answer is an argument, or the store that is passed through. `none` is an exception.
pub mod Tokens
mod Tests
use game_server_client.Base.{
  ℕ, List, [], ◌∷◌, Bool, true, false, Option, none, some, if◌then◌else◌, ◌==◌, ◌>>=◌,
}
use game_server_client.Redis.{Redis}
use game_server_client.Texts.{split_string}
use game_server_client.Tasks.{to_string, stoull}
use game_server_client.Tasks.Status.{server_status_of}
use game_server_client.Protocol.{ServerStatus}
use game_server_client.Field.{same}

-- A row of Query_Select_Account.
pub record Account : Type 0 where
  pub id : List ℕ
  pub password : List ℕ
  pub uid : List ℕ

-- en_STATUS_LOGIN
pub data Status : Type 0 where
  success no_exist_id no_exist_password : Status

pub data Action : Type 0 where
  disconnect : (session_id : ℕ) → Action
  login : (session_id : ℕ) → Status → (uid : ℕ) → List ServerStatus → Action
  -- SendMSG_Disconnect
  select_server : (session_id : ℕ) → (token : List ℕ) → (seconds : ℕ) → Action

-- The servers that Packet_Init_Login writes, of the fields and values in Redis.
unfoldable pub servers_of : List (List ℕ × List ℕ) → Option (List ServerStatus)
servers_of [] = some []
servers_of ((field, value) ∷ list) = do
  s ← server_status_of (split_string field 58) value
  rest ← servers_of list
  some (s ∷ rest)

-- Packet_Login behind the query, of which `rows` is `none` where it has failed; `hash` is what
-- HGETALL gives. The second answer is whether the connection goes back to the pool.
unfoldable pub check_password :
    (session_id : ℕ)
    → (password : List ℕ) → Account
    → (uid : ℕ) → (hash : Option (List (List ℕ × List ℕ))) → Option (Action × Bool)
check_password session_id password account uid hash =
    if same account.password password
    then elim hash [
      | none ↦ some (disconnect session_id, false)
      | some list ↦ do servers ← servers_of list; some (login session_id success uid servers, true)
    ]
    else some (login session_id no_exist_password 0 [], false)

unfoldable pub answer_login :
    (session_id : ℕ)
    → (password : List ℕ) → (rows : Option (List Account))
    → (hash : Option (List (List ℕ × List ℕ))) → Option (Action × Bool)
answer_login session_id password none hash = some (disconnect session_id, false)
answer_login session_id password (some []) hash = some (login session_id no_exist_id 0 [], false)
answer_login session_id password (some (account ∷ others)) hash = do
  uid ← stoull account.uid
  check_password session_id password account uid hash

-- Packet_Login; before the query no connection is taken, so that none is missing.
unfoldable pub packet_login :
    (session_id : ℕ)
    → (password : List ℕ) → (left : ℕ) → (rows : Option (List Account))
    → (hash : Option (List (List ℕ × List ℕ))) → Option (Action × Bool)
packet_login session_id password left rows hash =
    if left == 0
    then answer_login session_id password rows hash
    else some (disconnect session_id, true)

-- The token of everybody.
abbrev pub token : List ℕ
token =
    113 ∷ 119 ∷ 101 ∷ 114 ∷ 116 ∷ 121 ∷ 121 ∷ 117 ∷ 117 ∷ 105 ∷ 104 ∷ 100 ∷ 101 ∷ 114 ∷ 103 ∷ 102
    ∷ 100 ∷ 101 ∷ 114 ∷ 116 ∷ 121 ∷ 104 ∷ 103 ∷ 102 ∷ 100 ∷ 101 ∷ 53 ∷ 54 ∷ 107 ∷ 106 ∷ 104 ∷ 103
    ∷ 102 ∷ 101 ∷ 101 ∷ 117 ∷ 105 ∷ 106 ∷ 104 ∷ 103 ∷ 102 ∷ 100 ∷ 119 ∷ 101 ∷ 114 ∷ 116 ∷ 121 ∷ 121
    ∷ 104 ∷ 103 ∷ 102 ∷ 100 ∷ 115 ∷ 119 ∷ 101 ∷ 114 ∷ 116 ∷ 116 ∷ 102 ∷ 100 ∷ 114 ∷ 114 ∷ 114 ∷ []

-- Packet_SelectServer, from where SETEX has succeeded.
unfoldable pub packet_select_server :
    (r : Redis) → r.Store → (session_id uid left : ℕ) → r.Store × Action
packet_select_server r s session_id uid left =
    if left == 0
    then (r.setex s (to_string uid) 10 token, select_server session_id token 10)
    else (s, disconnect session_id)
