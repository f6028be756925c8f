-- ===== src/Login/Tokens.antt =====
-- From the login server to the lobby (LoginServer.cpp, Lobby.cpp, LobbyServer.cpp).
use game_server_client.Base.{
  ℕ, ◌<◌, ◌^◌, ◌≡◌, ◌≢◌, refl, List, [], ◌∷◌, true, none, some, arith, ap, ◌∙◌, length,
  length-append,
}
use game_server_client.Map.{find, assign}
use game_server_client.Redis.{Redis}
use game_server_client.Texts.{combine_strings, combine_rest}
use game_server_client.Tasks.{to_string, login_key, login_value}
use game_server_client.Tasks.Numbers.{read_below-to_string}
use game_server_client.Tasks.Status.{
  LobbyServer, AllNamed, fields, shown, read_server_status, get_server_status,
  get_server_status-fields,
}
use game_server_client.Field.Friends.{same_refl}
use game_server_client.Lobby.{
  Lobby, request, select_character_list, characters_of_login, status, req_login,
}
use game_server_client.Lobby.Character.{Player}
use game_server_client.Lobby.Logins.{req_login_free}
use game_server_client.Login.{
  Account, success, login, select_server, servers_of, check_password, answer_login, packet_login,
  token, packet_select_server,
}

servers_of-read : (list : List (List ℕ × List ℕ)) → servers_of list ≡ read_server_status list
unfolding servers_of read_server_status
servers_of-read [] = refl
servers_of-read ((field, value) ∷ list) = rw (servers_of-read list) refl

-- A login with the right password, while Redis has what the lobby servers put there, is answered with
-- the uid of the account and the status of each of those servers, and gives its connection back.
pub packet_login_lem :
    (session_id uid : ℕ) (id password : List ℕ) (others : List Account) (servers : List LobbyServer)
    → uid < 2 ^ 64
    → AllNamed servers
    → packet_login session_id password 0
        (some (record { id = id; password = password; uid = to_string uid } ∷ others))
        (some (fields servers))
      ≡ some (login session_id success uid (shown servers), true)
unfolding packet_login answer_login check_password get_server_status
packet_login_lem session_id uid id password others servers small named =
    let listed : servers_of (fields servers) ≡ some (shown servers) =
      servers_of-read (fields servers) ∙ get_server_status-fields servers named in
    rw (read_below-to_string (2 ^ 64) uid small small, same_refl password, listed) refl

-- A key of a status is longer than its text, so that a token and a status never share a key.
pub login_key-apart : (name : List ℕ) → login_key name ≢ name
unfolding login_key combine_strings combine_rest
login_key-apart name e = omega (arith, ap length e, length-append name [])

module _ (r : Redis) (ip : List ℕ) (port : ℕ) (s : r.Store) (lobby : Lobby) (session_id uid : ℕ)
    (u : Player) (here : find session_id lobby.user_map ≡ some u) (own : u.session_id ≡ session_id)
    (free : r.get s (login_key (to_string uid)) ≡ none) where
  -- Whoever selects a server with a uid that is not logged in gets a token, and with this token,
  -- less than 10 seconds later, the lobby lets any session of its own in as that uid: the login
  -- status is that of the session, and the characters of the uid are asked for. No login comes
  -- before.
  pub select_server_admits :
      (asking now later : ℕ)
      → later < 10
      → (s1 : r.Store) × (s2 : r.Store) × (packet_select_server r s asking uid 0
          ≡ (s1, select_server asking token 10))
        × (req_login r ip port (r.pass later s1) lobby session_id uid token 0 now
            ≡ some (
              s2,
              record lobby { user_map = assign session_id (record u { uid = uid }) lobby.user_map },
              request (select_character_list uid) characters_of_login session_id ∷ [],
            ))
        × (r.get s2 (login_key (to_string uid)) ≡ some (login_value (status r ip port session_id)))
  unfolding packet_select_server
  select_server_admits asking now later soon =
      let key : List ℕ = to_string uid in
      let s1 : r.Store = r.setex s key 10 token in
      let left : r.get (r.pass later s1) key ≡ some token =
        r.get-pass_left s1 key 10 later (r.ttl-setex s key 10 token) soon
        ∙ r.get-setex_self s key 10 token in
      let still_free : r.get (r.pass later s1) (login_key key) ≡ none =
        r.get-pass_none s1 (login_key key) later
          (r.get-setex_other s key 10 token (login_key key) (login_key-apart key) ∙ free) in
      let (s2, entered, known) =
        req_login_free r ip port (r.pass later s1) lobby session_id uid u here own token left now
          still_free in
      (s1, s2, refl, entered, known)
