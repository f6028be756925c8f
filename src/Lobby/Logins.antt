-- ===== src/Lobby/Logins.antt =====
-- Who has the login status of a uid (게임서버/컨텐츠/클래스/필드/Lobby.cpp).
use game_server_client.Base.{ℕ, ◌+◌, ◌≡◌, refl, List, [], ◌∷◌, ◌++◌, none, some, ◌∙◌, ℕ_discrete}
use game_server_client.Map.{Map, find, assign}
use game_server_client.Redis.{Redis}
use game_server_client.Tasks.{
  LoginStatus, to_string, login_key, login_value, get_login_status, task_key, set_duplication_login,
}
use game_server_client.Tasks.Arrival.{IsStatus, get_login_status-login_value}
use game_server_client.Field.Friends.{same_refl}
use game_server_client.Item.{Item}
use game_server_client.Lobby.Character.{Player, Row, load_character}
use game_server_client.Lobby.{
  change_room, reply, select_character, set_login_nickname, character_answered, selected_answered,
  Lobby, request, push_task, select_character_list, characters_of_login, set_login_uid,
  remove_login, status, log_in, req_login, duplication_task,
}

text_discrete : Discrete (List ℕ)
text_discrete = hlevel (ℕ_discrete)

module _ (r : Redis) where
  -- DEL makes no key.
  del_none :
      (s : r.Store) (key other : List ℕ) → r.get s other ≡ none → r.get (r.del s key) other ≡ none
  del_none s key other h = elim (text_discrete other key) [
    | yes e ↦ rw e (r.get-del_self s key)
    | no apart ↦ r.get-del_other s key other apart ∙ h
  ]

  -- A released session's uid has no login status.
  pub remove_login-none :
      (s : r.Store) (uid : ℕ) (nickname : List ℕ)
      → r.get (remove_login r s uid nickname) (login_key (to_string uid)) ≡ none
  unfolding remove_login
  remove_login-none s uid nickname =
      del_none (r.del s (login_key (to_string uid))) (login_key nickname)
        (login_key (to_string uid)) (r.get-del_self s (login_key (to_string uid)))

module _ (r : Redis) (ip : List ℕ) (port : ℕ) (s : r.Store) (lobby : Lobby) (session_id uid : ℕ)
    (u : Player) (here : find session_id lobby.user_map ≡ some u) (own : u.session_id ≡ session_id)
    (token : List ℕ) (granted : r.get s (to_string uid) ≡ some token) where
  -- A login with the token of a uid that nobody has: the login status is that of the session, and the
  -- characters are asked for.
  pub req_login_free :
      (now : ℕ)
      → r.get s (login_key (to_string uid)) ≡ none
      → (s' : r.Store) × (req_login r ip port s lobby session_id uid token 0 now
          ≡ some (
            s',
            record lobby { user_map = assign session_id (record u { uid = uid }) lobby.user_map },
            request (select_character_list uid) characters_of_login session_id ∷ [],
          ))
        × (r.get s' (login_key (to_string uid)) ≡ some (login_value (status r ip port session_id)))
  unfolding req_login log_in set_login_uid
  req_login_free now free =
      let value : List ℕ = login_value (status r ip port session_id) in
      (
        r.set s (login_key (to_string uid)) value,
        rw
            (
              granted,
              same_refl token,
              here,
              own,
              r.setnx_free s (login_key (to_string uid)) value free,
            )
            refl,
        r.get-set_self s (login_key (to_string uid)) value,
      )

  -- One that another session has: the status stays, the session waits, and the server of the other
  -- one is told to disconnect it.
  pub req_login_held :
      (now : ℕ) (other : LoginStatus)
      → IsStatus other
      → r.get s (login_key (to_string uid)) ≡ some (login_value other)
      → req_login r ip port s lobby session_id uid token 0 now
        ≡ some (
          s,
          record {
            user_map = assign session_id (record u { uid = uid }) lobby.user_map;
            duplication_user = lobby.duplication_user ++ (session_id, now + 50000) ∷ [];
          },
          push_task (task_key other 4) (to_string other.session_id) ∷ [],
        )
  unfolding req_login log_in set_login_uid set_duplication_login duplication_task
  req_login_held now other i held =
      let value : List ℕ = login_value (status r ip port session_id) in
      let known : get_login_status (r.get s) (to_string uid) ≡ some other =
        get_login_status-login_value (r.get s) (to_string uid) other i held in
      rw
        (
          granted,
          same_refl token,
          here,
          own,
          r.setnx_held s (login_key (to_string uid)) value (login_value other) held,
          known,
        )
        refl

module _ (r : Redis) (ip : List ℕ) (port : ℕ) (items : Map Item) (s : r.Store) (lobby : Lobby)
    (session_id : ℕ) (u u' : Player) (here : find session_id lobby.user_map ≡ some u)
    (columns : Row) (loaded : load_character items columns u ≡ some u') where
  -- A character whose nickname is written as the uid of another player: who selects it gets the login
  -- status of that uid, whoever has it.
  pub nickname_takes_login :
      (uid : ℕ)
      → u'.nickname ≡ to_string uid
      → (s' : r.Store) × (l' : Lobby) × (selected_answered r ip port items s lobby session_id 0
            (some columns)
          ≡ some (
            s',
            l',
            reply session_id (select_character u') ∷ change_room session_id u'.room_no u' ∷ [],
          ))
        × (r.get s' (login_key (to_string uid)) ≡ some (login_value (status r ip port session_id)))
  unfolding selected_answered character_answered set_login_nickname
  nickname_takes_login uid named =
      let value : List ℕ = login_value (status r ip port session_id) in
      (
        r.set s (login_key u'.nickname) value,
        record lobby { user_map = assign session_id u' lobby.user_map },
        rw (here, loaded) refl,
        rw named (r.get-set_self s (login_key (to_string uid)) value),
      )
