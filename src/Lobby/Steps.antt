-- ===== src/Lobby/Steps.antt =====
-- What can happen in a lobby, and what holds ever after
-- (게임서버/컨텐츠/클래스/필드/Lobby.cpp).
use game_server_client.Base.{ℕ, ◌≡◌, refl, List, Option, none, some}
use game_server_client.Map.{Map}
use game_server_client.Redis.{Redis}
use game_server_client.Item.{Item}
use game_server_client.Protocol.{CharacterSeq}
use game_server_client.Lobby.Character.{Player, Row}
use game_server_client.Lobby.{Lobby, Action, log_in, character_answered}
use game_server_client.Lobby.Requests.{characters_answered, list_answered}
use game_server_client.Lobby.Stay.{enter_new, session_release, update}
use game_server_client.Lobby.Keys.{
  AreKeyed, Keeps, KeepsLobby, KeepsPair, AreKeyed-insert, log_in-Keeps, character_answered-Keeps,
  characters_answered-Keeps, list_answered-Keeps, session_release-Keeps, update-Keeps,
}

-- What happens in a lobby: a handler or a callback of a query that ends without an exception, a player
-- who connects or is released, or an update; the store may be changed by others at any time.
pub data Step (r : Redis) (ip : List ℕ) (port : ℕ) (items : Map Item) : Lobby → Lobby → Type 0 where
  handled :
      {l l' : Lobby}
      → (s s' : r.Store) (session_id uid : ℕ) (token : List ℕ) (left now : ℕ)
      → (queries actions : List Action)
      → log_in r ip port s l session_id uid token left now queries ≡ some (s', l', actions)
      → Step r ip port items l l'
  character :
      {l l' : Lobby}
      → (s s' : r.Store) (session_id errorno : ℕ) (answer : Player → List Action)
      → (row : Option Row) (actions : List Action)
      → character_answered r ip port items s l session_id answer errorno row
        ≡ some (s', l', actions)
      → Step r ip port items l l'
  characters :
      {l l' : Lobby}
      → (session_id errorno : ℕ) (rows : List (List ℕ × List ℕ))
      → (answer : List CharacterSeq → List Action) (actions : List Action)
      → characters_answered l session_id errorno rows answer ≡ some (l', actions)
      → Step r ip port items l l'
  listed :
      {l l' : Lobby}
      → (session_id errorno : ℕ) (rows : List (List ℕ × List ℕ)) (actions : List Action)
      → list_answered l session_id errorno rows ≡ some (l', actions)
      → Step r ip port items l l'
  came_new :
      {l l' : Lobby}
      → (session_id : ℕ) (pooled : Player) (now : ℕ) → l' ≡ enter_new l session_id pooled now
      → Step r ip port items l l'
  released :
      {l l' : Lobby}
      → (s s' : r.Store) (session_id : ℕ) → session_release r s l session_id ≡ some (s', l')
      → Step r ip port items l l'
  updated :
      {l l' : Lobby}
      → (s s' : r.Store) (clock : ℕ → ℕ) (meanwhile : ℕ → r.Store → r.Store) (rounds : ℕ)
      → (actions : List Action)
      → update r ip port clock meanwhile rounds s l ≡ some (s', l', actions)
      → Step r ip port items l l'

keeps :
    {S : Type 0} (o : Option (S × Lobby × List Action)) (s : S) (l : Lobby) (actions : List Action)
    → Keeps o
    → o ≡ some (s, l, actions)
    → AreKeyed l.user_map
keeps none s l actions k e = cc
keeps (some (s', l', actions')) s l actions k e = let same : l' ≡ l = cc in rw (← same) k

keeps_lobby :
    (o : Option (Lobby × List Action)) (l : Lobby) (actions : List Action)
    → KeepsLobby o
    → o ≡ some (l, actions)
    → AreKeyed l.user_map
keeps_lobby none l actions k e = cc
keeps_lobby (some (l', actions')) l actions k e = let same : l' ≡ l = cc in rw (← same) k

keeps_pair :
    {S : Type 0} (o : Option (S × Lobby)) (s : S) (l : Lobby)
    → KeepsPair o
    → o ≡ some (s, l)
    → AreKeyed l.user_map
keeps_pair none s l k e = cc
keeps_pair (some (s', l')) s l k e = let same : l' ≡ l = cc in rw (← same) k

module _ (r : Redis) (ip : List ℕ) (port : ℕ) (items : Map Item) where
  pub Step-AreKeyed :
      {l l' : Lobby} → Step r ip port items l l' → AreKeyed l.user_map → AreKeyed l'.user_map
  unfolding enter_new
  Step-AreKeyed {l} {l'} (handled s s' session_id uid token left now queries actions e) k =
      keeps (log_in r ip port s l session_id uid token left now queries) s' l' actions
        (log_in-Keeps r ip port s l k session_id uid token left now queries) e
  Step-AreKeyed {l} {l'} (character s s' session_id errorno answer row actions e) k =
      keeps (character_answered r ip port items s l session_id answer errorno row) s' l' actions
        (character_answered-Keeps r ip port s l k session_id items answer errorno row) e
  Step-AreKeyed {l} {l'} (characters session_id errorno rows answer actions e) k =
      keeps_lobby (characters_answered l session_id errorno rows answer) l' actions
        (characters_answered-Keeps l k session_id errorno rows answer) e
  Step-AreKeyed {l} {l'} (listed session_id errorno rows actions e) k =
      keeps_lobby (list_answered l session_id errorno rows) l' actions
        (list_answered-Keeps l k session_id errorno rows) e
  Step-AreKeyed {l} {l'} (came_new session_id pooled now e) k =
      rw e (AreKeyed-insert l.user_map session_id _ refl k)
  Step-AreKeyed {l} {l'} (released s s' session_id e) k =
      keeps_pair (session_release r s l session_id) s' l'
        (session_release-Keeps r ip port s l k session_id) e
  Step-AreKeyed {l} {l'} (updated s s' clock meanwhile rounds actions e) k =
      keeps (update r ip port clock meanwhile rounds s l) s' l' actions
        (update-Keeps r ip port s l k 0 clock meanwhile rounds) e
