-- ===== src/Tasks.antt =====
-- The login status, the server status (in Status) and the tasks that the lobby servers leave for one
-- another in Redis (게임서버/컨텐츠/클래스/LobbyServer.cpp, 게임서버/컨텐츠/enum/RedisTask.h). Texts are lists of bytes. What a
-- function asks of Redis or gives it is its argument or its result: `get` is GET of a key,
-- and a task is the key and the value that RPUSH is called with. `none` is `false`, or the exception
-- of `stoi` and `stoull`; these are read here on texts that begin with no blank or sign.
pub mod Numbers
pub mod Arrival
pub mod Execute
pub mod Status
mod Tests
use game_server_client.Base.{
  ◌==◌, ◌++◌, ℕ, zero, suc, ◌+◌, ◌-◌, ◌*◌, ◌/◌, ◌%◌, ◌^◌, List, [], ◌∷◌, Bool, Option, none, some,
  if◌then◌else◌, ltb, leb, ◌&&◌, ◌>>=◌,
}
use game_server_client.Texts.{combine_strings, split_string}

-- `to_string` of an integer below 10 ^ 20: the digits before those that are there.
unfoldable pub digits : (fuel n : ℕ) → List ℕ → List ℕ
digits zero n after = after
digits (suc fuel) n after =
    let rest = digits fuel (n / 10) ((48 + n % 10) ∷ after) in
    if ltb n 10 then (48 + n) ∷ after else rest

unfoldable pub to_string : ℕ → List ℕ
to_string n = digits 20 n []

abbrev pub is_digit : ℕ → Bool
is_digit c = leb 48 c && leb c 57

-- The number that digits begin, behind `n`.
unfoldable pub read_digits : (n : ℕ) → List ℕ → ℕ
read_digits n [] = n
read_digits n (c ∷ cs) =
    let rest = read_digits (n * 10 + (c - 48)) cs in if is_digit c then rest else n

-- `stoull` and `stoi`: no digit, or a number out of range, is an exception.
unfoldable pub read_below : (limit : ℕ) → List ℕ → Option ℕ
read_below limit [] = none
read_below limit (c ∷ cs) =
    if is_digit c
    then (if ltb (read_digits 0 (c ∷ cs)) limit then some (read_digits 0 (c ∷ cs)) else none)
    else none

abbrev pub stoull : List ℕ → Option ℕ
stoull text = read_below (2 ^ 64) text

abbrev pub stoi : List ℕ → Option ℕ
stoi text = read_below (2 ^ 31) text

-- st_LoginStatus
pub record LoginStatus : Type 0 where
  pub ip : List ℕ
  pub port : ℕ
  pub session_id : ℕ

-- "Login"
abbrev pub login : List ℕ
login = 76 ∷ 111 ∷ 103 ∷ 105 ∷ 110 ∷ []

-- The key of a uid or a nickname, and the value that Redis_SetLoginStatus sets under it.
unfoldable pub login_key : List ℕ → List ℕ
login_key name = combine_strings (login ∷ name ∷ []) 58

unfoldable pub login_value : LoginStatus → List ℕ
login_value s = combine_strings (s.ip ∷ to_string s.port ∷ to_string s.session_id ∷ []) 58

-- What Redis_GetLoginStatus makes of a value.
unfoldable pub status_of : List (List ℕ) → Option LoginStatus
status_of (ip ∷ port ∷ session_id ∷ rest) = do
  p ← stoi port
  s ← stoull session_id
  some (record { ip = ip; port = p % 2 ^ 16; session_id = s })
status_of _ = none

unfoldable pub get_login_status :
    (get : List ℕ → Option (List ℕ)) → (name : List ℕ) → Option LoginStatus
get_login_status get name = do value ← get (login_key name); status_of (split_string value 58)

-- The key of the tasks of a kind at a server.
unfoldable pub task_key : LoginStatus → (kind : ℕ) → List ℕ
task_key s kind = combine_strings (s.ip ∷ to_string s.port ∷ to_string kind ∷ []) 58

-- Redis_Task_SetWhisper, Redis_Task_SetAddFriend and Redis_Task_SetAcceptAddFriend, up to RPUSH.
unfoldable pub set_whisper :
    (get : List ℕ → Option (List ℕ))
    → (send_nickname recv_nickname chatting : List ℕ) → Option (List ℕ × List ℕ)
set_whisper get send_nickname recv_nickname chatting = do
  s ← get_login_status get recv_nickname
  some (task_key s 1, combine_strings (to_string s.session_id ∷ send_nickname ∷ chatting ∷ []) 58)

unfoldable pub set_friend_task :
    (kind : ℕ)
    → (get : List ℕ → Option (List ℕ)) → (send_nickname recv_nickname : List ℕ)
    → Option (List ℕ × List ℕ)
set_friend_task kind get send_nickname recv_nickname = do
  s ← get_login_status get recv_nickname
  some (task_key s kind, combine_strings (to_string s.session_id ∷ send_nickname ∷ []) 58)

-- The constructors of st_RedisTask_Whisper, and of st_RedisTask_AddFriend and
-- st_RedisTask_AcceptAddFriend.
pub record Whisper : Type 0 where
  pub session_id : ℕ
  pub send_nickname : List ℕ
  pub chatting : List ℕ

unfoldable pub whisper_of : List (List ℕ) → Option Whisper
whisper_of (session_id ∷ send_nickname ∷ chatting ∷ rest) = do
  s ← stoull session_id
  some (record { session_id = s; send_nickname = send_nickname; chatting = chatting })
whisper_of _ = none

unfoldable pub whisper_task : List ℕ → Option Whisper
whisper_task task = whisper_of (split_string task 58)

unfoldable pub friend_of : List (List ℕ) → Option (ℕ × List ℕ)
friend_of (session_id ∷ send_nickname ∷ rest) = do s ← stoull session_id; some (s, send_nickname)
friend_of _ = none

unfoldable pub friend_task : List ℕ → Option (ℕ × List ℕ)
friend_task task = friend_of (split_string task 58)

-- Redis_Task_SetDuplicationLogin, up to RPUSH; `name` is the uid's text.
unfoldable pub set_duplication_login :
    (get : List ℕ → Option (List ℕ)) → (name : List ℕ) → Option (List ℕ × List ℕ)
set_duplication_login get name = do
  s ← get_login_status get name
  some (task_key s 4, to_string s.session_id)

-- What Redis_Task_Execute does with a task: it sends a whisper to a session, passes a friend's task
-- on to the session's room, or disconnects the session.
pub data Deed : Type 0 where
  whisper : Whisper → Deed
  add_friend accept_add_friend : (session_id : ℕ) → (send_nickname : List ℕ) → Deed
  disconnect : (session_id : ℕ) → Deed

unfoldable pub execute_task : (kind : ℕ) → List ℕ → Option (List Deed)
execute_task kind task =
    if kind == 1
    then (do w ← whisper_task task; some (whisper w ∷ []))
    else if kind == 2
    then (do (s, n) ← friend_task task; some (add_friend s n ∷ []))
    else if kind == 3
    then (do (s, n) ← friend_task task; some (accept_add_friend s n ∷ []))
    else if kind == 4
    then (do s ← stoull task; some (disconnect s ∷ []))
    else some []

-- Redis_Task_Execute on the tasks of one kind, as Redis_Task_GetAndDelete gives them.
unfoldable pub execute : (kind : ℕ) → List (List ℕ) → Option (List Deed)
execute kind [] = some []
execute kind (task ∷ tasks) = do
  deed ← execute_task kind task
  deeds ← execute kind tasks
  some (deed ++ deeds)
