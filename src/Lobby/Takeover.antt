-- ===== src/Lobby/Takeover.antt =====
-- Two sessions with the uid of one account (게임서버/컨텐츠/클래스/필드/Lobby.cpp).
use game_server_client.Base.{
  ℕ, suc, ◌+◌, ◌≤◌, ◌^◌, ◌≡◌, ◌≢◌, refl, List, [], ◌∷◌, true, false, none, some, ltb, arith, ◌∙◌,
}
use game_server_client.Map.{Map, find, assign, erase, find-assign, find-erase}
use game_server_client.Redis.{Redis}
use game_server_client.Tasks.{
  to_string, stoull, login_key, login_value, task_key, execute_task, Deed,
}
use game_server_client.Tasks.Arrival.{IsStatus}
use game_server_client.Tasks.Numbers.{read_below-to_string}
use game_server_client.Lobby.Character.{Player}
use game_server_client.Lobby.{
  Lobby, request, push_task, select_character_list, characters_of_login, checked, act,
  set_login_uid, remove_login, status, req_login, check_waiting,
}
use game_server_client.Lobby.Logins.{remove_login-none, req_login_held}
use game_server_client.Lobby.Stay.{session_release, update}

module _ (r : Redis) (ip : List ℕ) (port : ℕ) (clock : ℕ → ℕ) (meanwhile : ℕ → r.Store → r.Store)
    (rounds : ℕ) (s : r.Store) (users : Map Player) (session_id time_out : ℕ) (u : Player)
    (here : find session_id users ≡ some u) (own : u.session_id ≡ session_id)
    (in_time : clock 0 ≤ time_out) (free : r.get s (login_key (to_string u.uid)) ≡ none)
    (still : r.get (meanwhile 0 s) (login_key (to_string u.uid)) ≡ none) where
  value : List ℕ
  value = login_value (status r ip port session_id)

  registered :
      set_login_uid r (status r ip port u.session_id) (meanwhile 0 s) u.uid
      ≡ (r.set (meanwhile 0 s) (login_key (to_string u.uid)) value, true)
  unfolding set_login_uid value
  registered = rw own (
      r.setnx_free (meanwhile 0 s) (login_key (to_string u.uid))
        (login_value (status r ip port session_id)) still)

  -- A session that waits alone, in time, for a uid that nobody has any more.
  check_waiting_one :
      check_waiting r ip port clock meanwhile 0
        (suc (suc rounds))
        users
        s
        ((session_id, time_out) ∷ [])
      ≡ checked
          (r.set (meanwhile 0 s) (login_key (to_string u.uid)) value)
          []
          (request (select_character_list u.uid) characters_of_login session_id ∷ [])
  unfolding check_waiting act
  check_waiting_one =
      let early : ltb time_out (clock 0) ≡ false = ground arith in
      rw (here, check_waiting)
        (rw (early, check_waiting)
          (rw (free, check_waiting) (rw (registered, check_waiting) (rw registered refl))))

-- A lobby with a session that has just logged in under a uid that another one has, and waits alone.
abbrev pub waiting : Lobby → (session_id uid : ℕ) → Player → (now : ℕ) → Lobby
waiting lobby session_id uid b now = record {
  user_map = assign session_id (record b { uid = uid }) lobby.user_map;
  duplication_user = (session_id, now + 50000) ∷ [];
}

module _ (r : Redis) (ip : List ℕ) (port : ℕ) (s : r.Store) (lobby : Lobby) (first second uid : ℕ)
    (token : List ℕ) (a b : Player) (apart : first ≢ second)
    (a_here : find first lobby.user_map ≡ some a) (a_uid : a.uid ≡ uid)
    (b_here : find second lobby.user_map ≡ some b) (b_own : b.session_id ≡ second)
    (nobody : lobby.duplication_user ≡ []) (granted : r.get s (to_string uid) ≡ some token)
    (held : r.get s (login_key (to_string uid)) ≡ some (login_value (status r ip port first)))
    (i : IsStatus (status r ip port first)) where
  abbrev users : Map Player
  users = assign second (record b { uid = uid }) lobby.user_map

  logs_in :
      (now : ℕ)
      → req_login r ip port s lobby second uid token 0 now
        ≡ some (
          s,
          waiting lobby second uid b now,
          push_task (task_key (status r ip port first) 4) (to_string first) ∷ [],
        )
  logs_in now =
      req_login_held r ip port s lobby second uid b b_here b_own token granted now
        (status r ip port first) i held
      ∙ rw nobody refl

  told : execute_task 4 (to_string first) ≡ some (Deed.disconnect first ∷ [])
  unfolding execute_task
  told =
      let number : stoull (to_string first) ≡ some first =
        read_below-to_string (2 ^ 64) first i.long i.long in
      rw number refl

  released :
      (now : ℕ)
      → session_release r s (waiting lobby second uid b now) first
        ≡ some (
          remove_login r s uid a.nickname,
          record (waiting lobby second uid b now) { user_map = erase first users },
        )
  unfolding session_release
  released now =
      let found : find first (assign second (record b { uid = uid }) lobby.user_map) ≡ some a =
        find-assign second first (record b { uid = uid }) lobby.user_map ∙ ground arith in
      rw (found, a_uid) refl

  left_over : find second (erase first users) ≡ some (record b { uid = uid })
  left_over =
      find-erase first second users
      ∙ ground (arith, find-assign second second (record b { uid = uid }) lobby.user_map)

  -- A second session that logs in under the uid of a first one in the same lobby: it waits, the task
  -- that is pushed disconnects the first one, and once that one is released, an update in time, while no
  -- other server gives a free uid away, gives the second one the login status and asks for its
  -- characters.
  pub second_login_takes_over :
      (now : ℕ) (clock : ℕ → ℕ) (meanwhile : ℕ → r.Store → r.Store) (rounds : ℕ)
      → ((s1 : r.Store)
          → r.get s1 (login_key (to_string uid)) ≡ none
          → r.get (meanwhile 0 s1) (login_key (to_string uid)) ≡ none)
      → clock 0 ≤ now + 50000
      → (s2 : r.Store) × (l2 : Lobby) × (s3 : r.Store) × (req_login r ip port s lobby second uid
            token 0 now
          ≡ some (
            s,
            waiting lobby second uid b now,
            push_task (task_key (status r ip port first) 4) (to_string first) ∷ [],
          ))
        × (execute_task 4 (to_string first) ≡ some (Deed.disconnect first ∷ []))
        × (session_release r s (waiting lobby second uid b now) first ≡ some (s2, l2))
        × (update r ip port clock meanwhile (suc (suc rounds)) s2 l2
            ≡ some (
              s3,
              record l2 { duplication_user = [] },
              request (select_character_list uid) characters_of_login second ∷ [],
            ))
        × (r.get s3 (login_key (to_string uid)) ≡ some (login_value (status r ip port second)))
  unfolding update value
  second_login_takes_over now clock meanwhile rounds still in_time =
      let value : List ℕ = login_value (status r ip port second) in
      let s2 : r.Store = remove_login r s uid a.nickname in
      (
        s2,
        record (waiting lobby second uid b now) { user_map = erase first users },
        r.set (meanwhile 0 s2) (login_key (to_string uid)) value,
        logs_in now,
        told,
        released now,
        rw
            (
              check_waiting_one r ip port clock meanwhile rounds s2 (erase first users) second
                  (now + 50000) (record b { uid = uid }) left_over b_own in_time
                  (remove_login-none r s uid a.nickname)
                  (still s2 (remove_login-none r s uid a.nickname)),
              update,
            )
            refl,
        r.get-set_self (meanwhile 0 s2) (login_key (to_string uid)) value,
      )

  -- A session that waits for the uid of another one and leaves the lobby takes the login status of
  -- that one away, which is still there.
  pub waiting_leaves :
      (now : ℕ)
      → (s' : r.Store) × (l' : Lobby) × (session_release r s (waiting lobby second uid b now) second
          ≡ some (s', l'))
        × (find first l'.user_map ≡ some a)
        × (r.get s' (login_key (to_string uid)) ≡ none)
  unfolding session_release
  waiting_leaves now =
      let found : find second (assign second (record b { uid = uid }) lobby.user_map)
          ≡ some (record b { uid = uid }) =
        find-assign second second (record b { uid = uid }) lobby.user_map ∙ ground arith in
      (
        remove_login r s uid b.nickname,
        record (waiting lobby second uid b now) { user_map = erase second users },
        rw found refl,
        find-erase second first users
            ∙ ground (arith, find-assign second first (record b { uid = uid }) lobby.user_map),
        remove_login-none r s uid b.nickname,
      )
