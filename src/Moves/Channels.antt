-- ===== src/Moves/Channels.antt =====
-- From one channel to another (게임서버/컨텐츠/클래스/필드/CBaseField.cpp and Lobby.cpp).
use game_server_client.Base.{
  ℕ, ◌+◌, ◌-◌, ◌<◌, ◌≡◌, ◌≢◌, refl, List, [], ◌∷◌, none, some, arith, ◌∙◌,
}
use mathlib.Core.Path.{subst}
use game_server_client.Map.{find, assign, erase, find-assign}
use game_server_client.Redis.{Redis}
use game_server_client.Texts.{combine_strings, combine_rest}
use game_server_client.Protocol.{move_channel}
use game_server_client.Tasks.{to_string, login_key, login_value}
use game_server_client.Tasks.Numbers.{AreDigits, to_string-AreDigits}
use game_server_client.Field.Friends.{same_refl}
use game_server_client.Login.Tokens.{login_key-apart}
use game_server_client.Lobby.{
  Lobby, request, select_character_list, select_character_row, characters_of_channel,
  character_of_channel, remove_login, status, log_in, req_login_other_channel, set_login_uid,
}
use game_server_client.Lobby.Character.{Player}
use game_server_client.Lobby.Logins.{remove_login-none}
use game_server_client.Moves.{
  Users, change_channel, log_out, suspend_recv, request_last, free_user, reply_disconnect, token,
  packet_move_channel, on_session_release, channel_answered, log_out_answered,
}

-- A key of a status begins with a letter, a key of a token with a digit.
to_string-apart : (uid : ℕ) (name : List ℕ) → to_string uid ≢ login_key name
unfolding login_key combine_strings combine_rest
to_string-apart uid name e =
    let digits : AreDigits (login_key name) = subst AreDigits e (to_string-AreDigits uid) in cc

module _ (r : Redis) (s : r.Store) (users : Users) (old : ℕ) (u : Player)
    (u_here : find old users ≡ some u) (ip : List ℕ) (port : ℕ) (lobby : Lobby) (new : ℕ)
    (v : Player) (v_here : find new lobby.user_map ≡ some v) (own : v.session_id ≡ new) where
  abbrev moved : r.Store
  moved = (channel_answered r s u.uid u.nickname old).0

  abbrev entered : Lobby
  entered = record lobby { user_map = assign new (record v { uid = u.uid }) lobby.user_map }

  -- The token of the uid is there for some seconds, and nobody has the uid.
  record IsGranted (s1 : r.Store) (left : ℕ) : Type 0 where
    granted : r.get s1 (to_string u.uid) ≡ some token
    expires : r.ttl s1 (to_string u.uid) ≡ some left
    free : r.get s1 (login_key (to_string u.uid)) ≡ none

  moved-IsGranted : IsGranted moved 30
  unfolding channel_answered
  moved-IsGranted = record {
    granted = r.get-setex_self (remove_login r s u.uid u.nickname) (to_string u.uid) 30 token;
    expires = r.ttl-setex (remove_login r s u.uid u.nickname) (to_string u.uid) 30 token;
    free =
        r.get-setex_other (remove_login r s u.uid u.nickname) (to_string u.uid) 30 token
          (login_key (to_string u.uid)) (login_key-apart (to_string u.uid))
        ∙ remove_login-none r s u.uid u.nickname;
  }

  pass-IsGranted :
      (s1 : r.Store) (left seconds : ℕ)
      → seconds < left
      → IsGranted s1 left
      → IsGranted (r.pass seconds s1) (left - seconds)
  pass-IsGranted s1 left seconds h g = record {
    granted = r.get-pass_left s1 (to_string u.uid) left seconds g.expires h ∙ g.granted;
    expires = r.ttl-pass_left s1 (to_string u.uid) left seconds g.expires h;
    free = r.get-pass_none s1 (login_key (to_string u.uid)) seconds g.free;
  }

  -- The release leaves the token.
  log_out-IsGranted :
      (s1 : r.Store) (left : ℕ)
      → IsGranted s1 left
      → IsGranted (log_out_answered r s1 u.uid u.nickname) left
  unfolding log_out_answered remove_login
  log_out-IsGranted s1 left g =
      let s2 : r.Store = r.del s1 (login_key (to_string u.uid)) in
      let first : to_string u.uid ≢ login_key (to_string u.uid) =
        to_string-apart u.uid (to_string u.uid) in
      let second : to_string u.uid ≢ login_key u.nickname = to_string-apart u.uid u.nickname in
      record {
        granted =
            r.get-del_other s2 (login_key u.nickname) (to_string u.uid) second
            ∙ (r.get-del_other s1 (login_key (to_string u.uid)) (to_string u.uid) first
                ∙ g.granted);
        expires =
            r.ttl-del_other s2 (login_key u.nickname) (to_string u.uid) second
            ∙ (r.ttl-del_other s1 (login_key (to_string u.uid)) (to_string u.uid) first
                ∙ g.expires);
        free = remove_login-none r s1 u.uid u.nickname;
      }

  -- A login with the token while nobody has the uid.
  logs_in :
      (s1 : r.Store)
      → (left : ℕ) → IsGranted s1 left
      → (now : ℕ)
      → req_login_other_channel r ip port s1 lobby new u.uid token u.nickname 0 now
        ≡ some (
          r.set s1 (login_key (to_string u.uid)) (login_value (status r ip port new)),
          entered,
          request (select_character_list u.uid) characters_of_channel new
              ∷ request (select_character_row u.nickname) character_of_channel new
              ∷ [],
        )
  unfolding req_login_other_channel log_in set_login_uid
  logs_in s1 left g now =
      rw
        (
          g.granted,
          same_refl token,
          v_here,
          own,
          r.setnx_free s1 (login_key (to_string u.uid)) (login_value (status r ip port new)) g.free,
        )
        refl

  -- A player of a field asks for another channel, gets the token and is released, all that and the
  -- login with the token at the other channel less than 30 seconds after the token; the login then
  -- succeeds, asks for the character of the player, and gives the login status to the new session.
  pub move_channel_arrives :
      (address : List ℕ) (number now before after : ℕ)
      → before + after < 30
      → (s1 : r.Store) × (s2 : r.Store) × (packet_move_channel users old address number 0
          ≡ some (suspend_recv old ∷ request_last (change_channel u.uid u.nickname old) ∷ []))
        × (channel_answered r s u.uid u.nickname old
            ≡ (s1, reply_disconnect old (move_channel token) 30 ∷ []))
        × (on_session_release users old
            ≡ some (erase old users, request_last (log_out u.uid u.nickname) ∷ free_user u ∷ []))
        × (req_login_other_channel r ip port
              (r.pass after (log_out_answered r (r.pass before s1) u.uid u.nickname))
              lobby
              new
              u.uid
              token
              u.nickname
              0
              now
            ≡ some (
              s2,
              entered,
              request (select_character_list u.uid) characters_of_channel new
                  ∷ request (select_character_row u.nickname) character_of_channel new
                  ∷ [],
            ))
        × (r.get s2 (login_key (to_string u.uid)) ≡ some (login_value (status r ip port new)))
  unfolding packet_move_channel channel_answered on_session_release log_out_answered
  move_channel_arrives address number now before after soon =
      let s2 : r.Store = r.pass after (log_out_answered r (r.pass before moved) u.uid u.nickname) in
      let g : IsGranted s2 (30 - before - after) =
        pass-IsGranted (log_out_answered r (r.pass before moved) u.uid u.nickname) (30 - before)
          after (omega arith)
          (log_out-IsGranted (r.pass before moved) (30 - before)
            (pass-IsGranted moved 30 before (omega arith) moved-IsGranted)) in
      let value : List ℕ = login_value (status r ip port new) in
      (
        moved,
        r.set s2 (login_key (to_string u.uid)) value,
        rw u_here refl,
        refl,
        rw u_here refl,
        logs_in s2 (30 - before - after) g now,
        r.get-set_self s2 (login_key (to_string u.uid)) value,
      )

  -- Where the login at the other channel comes less than 30 seconds after the token, and before the
  -- release of the old session, it succeeds as well, and the release takes the login status of the
  -- new session away, which is in its lobby.
  pub move_channel_logged_out :
      (address : List ℕ) (number now before after : ℕ)
      → before < 30
      → (s1 : r.Store) × (s2 : r.Store) × (packet_move_channel users old address number 0
          ≡ some (suspend_recv old ∷ request_last (change_channel u.uid u.nickname old) ∷ []))
        × (channel_answered r s u.uid u.nickname old
            ≡ (s1, reply_disconnect old (move_channel token) 30 ∷ []))
        × (req_login_other_channel r ip port
              (r.pass before s1)
              lobby
              new
              u.uid
              token
              u.nickname
              0
              now
            ≡ some (
              s2,
              entered,
              request (select_character_list u.uid) characters_of_channel new
                  ∷ request (select_character_row u.nickname) character_of_channel new
                  ∷ [],
            ))
        × (find new entered.user_map ≡ some (record v { uid = u.uid }))
        × (on_session_release users old
            ≡ some (erase old users, request_last (log_out u.uid u.nickname) ∷ free_user u ∷ []))
        × (r.get
              (log_out_answered r (r.pass after s2) u.uid u.nickname)
              (login_key (to_string u.uid))
            ≡ none)
  unfolding packet_move_channel channel_answered on_session_release log_out_answered
  move_channel_logged_out address number now before after soon =
      let s2 : r.Store =
        r.set (r.pass before moved) (login_key (to_string u.uid))
          (login_value (status r ip port new)) in
      (
        moved,
        s2,
        rw u_here refl,
        refl,
        logs_in (r.pass before moved) (30 - before)
            (pass-IsGranted moved 30 before soon moved-IsGranted) now,
        find-assign new new (record v { uid = u.uid }) lobby.user_map ∙ ground arith,
        rw u_here refl,
        remove_login-none r (r.pass after s2) u.uid u.nickname,
      )
