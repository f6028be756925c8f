-- ===== src/Lobby.antt =====
-- The lobby of the game server (게임서버/컨텐츠/클래스/필드/Lobby.cpp): players who have connected, and
-- what they ask for until they enter a field with a character.
-- A handler has what GetData read and how many bytes of the packet are left. A query is an action
-- with the callback that its answer goes to, and the callbacks are functions of that answer; the
-- store of Redis is passed through. `none` is an exception, or a null row that is read.
pub mod Character
pub mod Requests
pub mod Stay
pub mod Logins
pub mod Takeover
pub mod Rows
mod Tests
pub mod Waiting
pub mod Entries
pub mod Keys
pub mod Steps
pub mod Passages
use game_server_client.Base.{
  ℕ, zero, suc, ◌+◌, ◌%◌, ◌^◌, List, [], ◌∷◌, ◌++◌, Bool, true, false, Option, none, some,
  if◌then◌else◌, ltb, length, ◌==◌, ◌>>=◌,
}
use game_server_client.Map.{Map, find, assign, insert, erase}
use game_server_client.Redis.{Redis}
use game_server_client.Item.{Item}
use game_server_client.Stats.{clear_stats}
use game_server_client.Inventory.Whole.{clear_inventory}
use game_server_client.Texts.{split_string}
use game_server_client.Tasks.{
  LoginStatus, to_string, stoi, login_key, login_value, status_of, set_duplication_login,
}
use game_server_client.Field.{same}
use game_server_client.Protocol.{CharacterSeq}
use game_server_client.Lobby.Character.{Player, Row, clear, load_character}

-- CLobby: `UserMap`, and `DuplicationUser` with session ids and the times up to which they wait.
pub record Lobby : Type 0 where
  pub user_map : Map Player
  pub duplication_user : List (ℕ × ℕ)

pub data Reply : Type 0 where
  login character_list : List CharacterSeq → Reply
  select_character : Player → Reply
  available_nickname create_character : (status : Bool) → Reply
  move_field : (room_no : ℕ) → Reply

-- The queries, and the transaction of four that makes a character.
pub data Request : Type 0 where
  select_character_list : (uid : ℕ) → Request
  select_character_row select_nickname : (nickname : List ℕ) → Request
  insert_character : (uid : ℕ) → (nickname : List ℕ) → (seq : ℕ) → Request

-- The callbacks, each for a session.
pub data Callback : Type 0 where
  characters_of_login characters_of_channel character_of_channel : Callback
  character_selected characters_listed nickname_selected character_inserted : Callback

pub data Action : Type 0 where
  reply : (session_id : ℕ) → Reply → Action
  disconnect : (session_id : ℕ) → Action
  request : Request → Callback → (session_id : ℕ) → Action
  -- RPUSH of a task for the server where the uid is.
  push_task : (key value : List ℕ) → Action
  change_room : (session_id room_no : ℕ) → Player → Action

-- The rows of Query_Select_CharacterList: a nickname and the text of a number.
unfoldable pub read_characters : List (List ℕ × List ℕ) → Option (List CharacterSeq)
read_characters [] = some []
read_characters ((nickname, seq) ∷ rows) = do
  n ← stoi seq
  rest ← read_characters rows
  some (record { nickname = nickname; seq = n % 2 ^ 8 } ∷ rest)

-- `find_if` among the characters.
unfoldable pub owns : List ℕ → List CharacterSeq → Bool
owns nickname [] = false
owns nickname (c ∷ cs) = if same c.nickname nickname then true else owns nickname cs

-- How the loop over `DuplicationUser` ends, after some rounds at most.
pub data Checked (S : Type 0) : Type 0 where
  checked : S → (waiting : List (ℕ × ℕ)) → List Action → Checked S
  thrown unfinished : Checked S

unfoldable pub keep : {S : Type 0} → ℕ × ℕ → Checked S → Checked S
keep waits (checked s waiting actions) = checked s (waits ∷ waiting) actions
keep waits thrown = thrown
keep waits unfinished = unfinished

unfoldable pub act : {S : Type 0} → Action → Checked S → Checked S
act action (checked s waiting actions) = checked s waiting (action ∷ actions)
act action thrown = thrown
act action unfinished = unfinished

-- A task for the server of the uid, where Redis has its status.
unfoldable pub duplication_task : Option (List ℕ × List ℕ) → List Action
duplication_task none = []
duplication_task (some (key, value)) = push_task key value ∷ []

module _ (r : Redis) where
  -- Redis_SetLoginStatus and Redis_RemoveLoginStatus (LobbyServer.cpp).
  unfoldable pub set_login_uid : LoginStatus → r.Store → (uid : ℕ) → r.Store × Bool
  set_login_uid status s uid = r.setnx s (login_key (to_string uid)) (login_value status)

  unfoldable pub set_login_nickname : LoginStatus → r.Store → (nickname : List ℕ) → r.Store
  set_login_nickname status s nickname = r.set s (login_key nickname) (login_value status)

  unfoldable pub remove_login_nickname : r.Store → (nickname : List ℕ) → r.Store
  remove_login_nickname s nickname = r.del s (login_key nickname)

  unfoldable pub remove_login : r.Store → (uid : ℕ) → (nickname : List ℕ) → r.Store
  remove_login s uid nickname = r.del (r.del s (login_key (to_string uid))) (login_key nickname)

module _ (r : Redis) (ip : List ℕ) (port : ℕ) where
  abbrev pub status : (session_id : ℕ) → LoginStatus
  status session_id = record { ip = ip; port = port; session_id = session_id }

  -- What REQ_LOGIN and REQ_LOGIN_OTHER_CHANNEL do, up to the queries.
  unfoldable pub log_in :
      r.Store
      → Lobby
      → (session_id uid : ℕ) → (token : List ℕ) → (left now : ℕ) → (queries : List Action)
      → Option (r.Store × Lobby × List Action)
  log_in s lobby session_id uid token left now queries =
      if left == 0
      then elim (r.get s (to_string uid)) [
        | none ↦ some (s, lobby, disconnect session_id ∷ [])
        | some held ↦
            if same held token
            then (do
              u ← find session_id lobby.user_map
              let users = assign session_id (record u { uid = uid }) lobby.user_map
              let (s', free) = set_login_uid r (status u.session_id) s uid
              some (
                  if free then (s', record lobby { user_map = users }, queries) else (
                    s',
                    record {
                      user_map = users;
                      duplication_user = lobby.duplication_user ++ (session_id, now + 50000) ∷ [];
                    },
                    duplication_task (set_duplication_login (r.get s') (to_string uid)),
                  )))
            else some (s, lobby, disconnect session_id ∷ [])
      ]
      else some (s, lobby, disconnect session_id ∷ [])

  unfoldable pub req_login :
      r.Store
      → Lobby
      → (session_id uid : ℕ) → (token : List ℕ) → (left now : ℕ)
      → Option (r.Store × Lobby × List Action)
  req_login s lobby session_id uid token left now =
      log_in s lobby session_id uid token left now
        (request (select_character_list uid) characters_of_login session_id ∷ [])

  unfoldable pub req_login_other_channel :
      r.Store
      → Lobby
      → (session_id uid : ℕ) → (token nickname : List ℕ) → (left now : ℕ)
      → Option (r.Store × Lobby × List Action)
  req_login_other_channel s lobby session_id uid token nickname left now =
      log_in s lobby session_id uid token left now (
        request (select_character_list uid) characters_of_channel session_id
        ∷ request (select_character_row nickname) character_of_channel session_id
        ∷ [])

  -- The callback that has the row of a character: a player has selected it, or has brought it from
  -- another channel. `row` is `none` where the query gives none.
  unfoldable pub character_answered :
      Map Item
      → r.Store
      → Lobby
      → (session_id : ℕ) → (answer : Player → List Action) → (errorno : ℕ) → (row : Option Row)
      → Option (r.Store × Lobby × List Action)
  character_answered items s lobby session_id answer errorno row =
      if errorno == 0
      then elim (find session_id lobby.user_map) [
        | none ↦ some (s, lobby, [])
        | some u ↦ do
          columns ← row
          u' ← load_character items columns u
          some (
            set_login_nickname r (status session_id) s u'.nickname,
            record lobby { user_map = assign session_id u' lobby.user_map },
            answer u' ++ change_room session_id u'.room_no u' ∷ [],
          )
      ]
      else some (s, lobby, disconnect session_id ∷ [])

  unfoldable pub selected_answered :
      Map Item
      → r.Store
      → Lobby
      → (session_id errorno : ℕ) → (row : Option Row) → Option (r.Store × Lobby × List Action)
  selected_answered items s lobby session_id errorno row =
      character_answered items s lobby session_id (λ u. reply session_id (select_character u) ∷ [])
        errorno row

  unfoldable pub channel_answered :
      Map Item
      → r.Store
      → Lobby
      → (session_id errorno : ℕ) → (row : Option Row) → Option (r.Store × Lobby × List Action)
  channel_answered items s lobby session_id errorno row =
      character_answered items s lobby session_id (λ u. []) errorno row

  -- The loop of OnUpdate; `clock` is what each of its rounds reads of the time, and `meanwhile` what
  -- others do to Redis in a round between GET and SETNX.
  unfoldable pub check_waiting :
      (clock : ℕ → ℕ)
      → (meanwhile : ℕ → r.Store → r.Store) → (round rounds : ℕ) → Map Player
      → r.Store
      → List (ℕ × ℕ)
      → Checked r.Store
  check_waiting clock meanwhile round zero users s waiting = unfinished
  check_waiting clock meanwhile round (suc rounds) users s [] = checked s [] []
  check_waiting clock meanwhile round (suc rounds) users s ((session_id, time_out) ∷ waiting) =
      elim (find session_id users) [
        | none ↦ check_waiting clock meanwhile (suc round) rounds users s waiting
        | some u ↦ elim (ltb time_out (clock round)) [
          | true ↦ check_waiting clock meanwhile (suc round) rounds users s waiting
          | false ↦ elim (r.get s (login_key (to_string u.uid))) [
            | some value ↦ elim (status_of (split_string value 58)) [
              | none ↦ thrown
              | some held ↦
                  keep (session_id, time_out)
                    (check_waiting clock meanwhile (suc round) rounds users s waiting)
            ]
            | none ↦ elim ((set_login_uid r (status u.session_id) (meanwhile round s) u.uid).1) [
              | true ↦ act (request (select_character_list u.uid) characters_of_login session_id) (
                  check_waiting clock meanwhile (suc round) rounds users
                    (set_login_uid r (status u.session_id) (meanwhile round s) u.uid).0 waiting)
              | false ↦
                  check_waiting clock meanwhile (suc round) rounds users
                    (set_login_uid r (status u.session_id) (meanwhile round s) u.uid).0
                    ((session_id, time_out) ∷ waiting)
            ]
          ]
        ]
      ]
