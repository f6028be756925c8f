-- ===== src/Lobby/Requests.antt =====
-- What a player in the lobby asks for about characters, and the callbacks of the queries
-- (OnRecv of 게임서버/컨텐츠/클래스/필드/Lobby.cpp).
use game_server_client.Base.{
  ℕ, ◌+◌, List, [], ◌∷◌, ◌++◌, Option, none, some, if◌then◌else◌, length, ◌==◌, ◌>>=◌,
}
use game_server_client.Map.{find, assign}
use game_server_client.Redis.{Redis}
use game_server_client.Texts.{split_string}
use game_server_client.Tasks.{to_string, login_key, status_of}
use game_server_client.Protocol.{CharacterSeq}
use game_server_client.Lobby.Character.{Player}
use game_server_client.Lobby.{
  Lobby, Action, reply, disconnect, request, login, character_list, available_nickname,
  create_character, select_character_list, select_character_row, select_nickname, insert_character,
  character_selected, characters_listed, nickname_selected, character_inserted, read_characters,
  owns,
}

-- The characters of the rows behind those of the player.
unfoldable pub add_characters :
    Lobby
    → (session_id : ℕ) → (before : List CharacterSeq) → Player
    → List (List ℕ × List ℕ)
    → (answer : List CharacterSeq → List Action) → Option (Lobby × List Action)
add_characters lobby session_id before u rows answer = do
  cs ← read_characters rows
  some (
    record lobby {
      user_map = assign session_id (record u { characters = before ++ cs }) lobby.user_map;
    },
    answer (before ++ cs),
  )

-- The callbacks of Query_Select_CharacterList, of a login, of a login from another channel, and of a
-- request for the list; the last one clears the characters before.
unfoldable pub characters_answered :
    Lobby
    → (session_id errorno : ℕ) → (rows : List (List ℕ × List ℕ))
    → (answer : List CharacterSeq → List Action) → Option (Lobby × List Action)
characters_answered lobby session_id errorno rows answer =
    if errorno == 0
    then elim (find session_id lobby.user_map) [
      | none ↦ some (lobby, [])
      | some u ↦ add_characters lobby session_id u.characters u rows answer
    ]
    else some (lobby, disconnect session_id ∷ [])

unfoldable pub login_answered :
    Lobby
    → (session_id errorno : ℕ) → (rows : List (List ℕ × List ℕ)) → Option (Lobby × List Action)
login_answered lobby session_id errorno rows =
    characters_answered lobby session_id errorno rows (λ cs. reply session_id (login cs) ∷ [])

unfoldable pub channel_characters_answered :
    Lobby
    → (session_id errorno : ℕ) → (rows : List (List ℕ × List ℕ)) → Option (Lobby × List Action)
channel_characters_answered lobby session_id errorno rows =
    characters_answered lobby session_id errorno rows (λ cs. [])

unfoldable pub list_answered :
    Lobby
    → (session_id errorno : ℕ) → (rows : List (List ℕ × List ℕ)) → Option (Lobby × List Action)
list_answered lobby session_id errorno rows =
    if errorno == 0
    then elim (find session_id lobby.user_map) [
      | none ↦ some (lobby, [])
      | some u ↦
          add_characters lobby session_id [] u rows
            (λ cs. reply session_id (character_list cs) ∷ [])
    ]
    else some (lobby, reply session_id (character_list []) ∷ [])

-- REQ_SELECT_CHARACTER
unfoldable pub req_select_character :
    Lobby → (session_id : ℕ) → (name : List ℕ) → (left : ℕ) → Option (List Action)
req_select_character lobby session_id name left =
    if left == 0
    then (do
      u ← find session_id lobby.user_map
      some (
          if owns name u.characters
          then request (select_character_row name) character_selected session_id ∷ []
          else disconnect session_id ∷ []))
    else some (disconnect session_id ∷ [])

-- REQ_CHARACTERLIST, which reads no more of the packet.
unfoldable pub req_character_list :
    (r : Redis) → r.Store → Lobby → (session_id : ℕ) → Option (List Action)
req_character_list r s lobby session_id = do
  u ← find session_id lobby.user_map
  elim (r.get s (login_key (to_string u.uid))) [
    | none ↦ some (disconnect session_id ∷ [])
    | some value ↦ do
      held ← status_of (split_string value 58)
      some (request (select_character_list u.uid) characters_listed session_id ∷ [])
  ]

-- REQ_AVAILABLE_NICKNAME and its callback; a failed query has no rows to count, which are read.
unfoldable pub req_available_nickname :
    (session_id : ℕ) → (nickname : List ℕ) → (left : ℕ) → List Action
req_available_nickname session_id nickname left =
    if left == 0
    then request (select_nickname nickname) nickname_selected session_id ∷ []
    else disconnect session_id ∷ []

unfoldable pub nickname_answered : (session_id : ℕ) → (rows : Option ℕ) → Option (List Action)
nickname_answered session_id rows = do
  count ← rows
  some (reply session_id (available_nickname (count == 0)) ∷ [])

-- REQ_CREATE_CHARACTER and its callback.
unfoldable pub req_create_character :
    Lobby → (session_id : ℕ) → (nickname : List ℕ) → (left : ℕ) → Option (List Action)
req_create_character lobby session_id nickname left =
    if left == 0
    then (do
      u ← find session_id lobby.user_map
      some (
          request (insert_character u.uid nickname (length u.characters + 1)) character_inserted
            session_id
          ∷ []))
    else some (disconnect session_id ∷ [])

unfoldable pub create_answered : (session_id errorno : ℕ) → List Action
create_answered session_id errorno = reply session_id (create_character (errorno == 0)) ∷ []
