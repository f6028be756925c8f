-- ===== src/Field/Friendship.antt =====
-- From a request to a friendship, through the tasks of Redis (CBaseField.cpp, LobbyServer.cpp).
use game_server_client.Base.{
  ◌==◌, ◌≢◌, ℕ, ◌≡◌, refl, List, [], ◌∷◌, ◌++◌, false, true, Option, none, some, if◌then◌else◌,
}
use game_server_client.Map.{find}
use game_server_client.Texts.Splits.{Lacks}
use game_server_client.Tasks.{
  LoginStatus, login_key, login_value, task_key, set_friend_task, execute_task, friend_task, Deed,
}
use game_server_client.Tasks.Arrival.{IsStatus, friend_task_arrives}
use game_server_client.Field.{
  Action, Member, Field, reply, req_friend, accept_friend, add_friend, accept_add_friend, request,
  select_nickname, nickname_selected, insert_add_friend, add_friend_inserted, set_add_friend,
  set_accept_add_friend, make_friends, friends_inserted, listed, without, packet_add_friend,
  nickname_answered, add_friend_answered, on_add_friend, packet_accept_add_friend, friends_answered,
  on_accept_add_friend,
}
use game_server_client.Field.Friends.{
  asked, accept-on_add_friend, answered, told, befriended, after, saved,
}

-- The key and the text that Redis_Task_SetAddFriend and Redis_Task_SetAcceptAddFriend push.
unfoldable pub task_of : (get : List ℕ → Option (List ℕ)) → Action → Option (List ℕ × List ℕ)
task_of get (set_add_friend send_nickname recv_nickname) =
    set_friend_task 2 get send_nickname recv_nickname
task_of get (set_accept_add_friend send_nickname recv_nickname) =
    set_friend_task 3 get send_nickname recv_nickname
task_of get _ = none

-- A user who is logged in, with a nickname that is not empty and has no colon.
pub record IsThere (get : List ℕ → Option (List ℕ)) (m : Member) (s : LoginStatus) : Type 0 where
  pub status : IsStatus s
  pub known : get (login_key m.nickname) ≡ some (login_value s)
  pub plain : Lacks 58 m.nickname
  pub some_name : m.nickname ≢ []

-- A task that is pushed for a user arrives at the session of that user.
task_arrives :
    (get : List ℕ → Option (List ℕ)) (sender receiver : Member) (at from : LoginStatus) (kind : ℕ)
    → IsThere get sender from
    → IsThere get receiver at
    → (key : List ℕ) × (task : List ℕ) × (set_friend_task kind get sender.nickname receiver.nickname
        ≡ some (key, task))
      × (key ≡ task_key at kind)
      × (friend_task task ≡ some (at.session_id, sender.nickname))
task_arrives get sender receiver at from kind s r =
    friend_task_arrives get receiver.nickname sender.nickname at r.status r.known s.plain kind
      s.some_name

-- A user of a field asks another one of it, by nickname, to be friends, and is accepted, while both
-- are logged in and the queries succeed: the request and its acceptance go through the tasks of
-- Redis to the session of the right user, each of the handlers and callbacks passes on what the
-- next one needs, and in the end each has the other as a friend at the end of the list, the request
-- is off the list, and all other users are as they were. The nicknames are not empty and have no
-- colon.
pub request_befriends :
    (get : List ℕ → Option (List ℕ)) (f : Field) (a b : Member) (s t : LoginStatus)
    → s.session_id ≢ t.session_id
    → find s.session_id f ≡ some a
    → find t.session_id f ≡ some b
    → IsThere get a s
    → IsThere get b t
    → let asks = s.session_id in
      let answers = t.session_id in
      let a' = record a {
        friends = a.friends ++ record { nickname = b.nickname; is_online = false } ∷ [];
      } in
      let b' = record b {
        friends = b.friends ++ record { nickname = a.nickname; is_online = false } ∷ [];
        add_friends = without a.nickname (b.add_friends ++ a.nickname ∷ []);
      } in
      let ask = set_add_friend a.nickname b.nickname in
      let accept = set_accept_add_friend b.nickname a.nickname in
      (f1 : Field) × (f2 : Field) × (f3 : Field) × (key1 : List ℕ) × (task1 : List ℕ) × (key2 : List
        ℕ)
      × (task2 : List ℕ) × (packet_add_friend f asks b.nickname 0
          ≡ some (
            f,
            request (select_nickname b.nickname) (nickname_selected asks a.nickname b.nickname)
                ∷ [],
          ))
      × (nickname_answered asks a.nickname b.nickname 0 1
          ≡ request
              (insert_add_friend b.nickname a.nickname)
              (add_friend_inserted asks a.nickname b.nickname)
            ∷ [])
      × (add_friend_answered asks a.nickname b.nickname 0 ≡ ask ∷ reply asks (add_friend true) ∷ [])
      × (task_of get ask ≡ some (key1, task1))
      × (key1 ≡ task_key t 2)
      × (execute_task 2 task1 ≡ some (Deed.add_friend answers a.nickname ∷ []))
      × (on_add_friend f answers a.nickname ≡ (f1, reply answers (req_friend a.nickname) ∷ []))
      × (packet_accept_add_friend f1 answers a.nickname 0
          ≡ some (
            f1,
            request (make_friends b.nickname a.nickname) (friends_inserted answers a.nickname) ∷ [],
          ))
      × (friends_answered f1 answers a.nickname 0
          ≡ some (f2, accept ∷ reply answers (accept_add_friend true a.nickname) ∷ []))
      × (task_of get accept ≡ some (key2, task2))
      × (key2 ≡ task_key s 3)
      × (execute_task 3 task2 ≡ some (Deed.accept_add_friend asks b.nickname ∷ []))
      × (on_accept_add_friend f2 asks b.nickname ≡ (f3, reply asks (accept_friend b.nickname) ∷ []))
      × ((j : ℕ)
          → find j f3 ≡ (if j == asks then some a' else if j == answers then some b' else find j f))
      × (listed a.nickname b'.add_friends ≡ false)
unfolding packet_add_friend nickname_answered add_friend_answered task_of execute_task
request_befriends get f a b s t apart here there sa sb =
    let asks : ℕ = s.session_id in
    let answers : ℕ = t.session_id in
    let (key1, task1, pushed, at, read) = task_arrives get a b t s 2 sa sb in
    let (key2, task2, pushed', at', read') = task_arrives get b a s t 3 sb sa in
    let (found, off) = befriended f asks answers a b apart here there in
    (
      (on_add_friend f answers a.nickname).0,
      saved f asks answers a b apart here there,
      after f asks answers a b apart here there,
      key1,
      task1,
      key2,
      task2,
      rw here refl,
      refl,
      refl,
      pushed,
      at,
      rw read refl,
      rw (asked f asks answers a b apart here there) refl,
      accept-on_add_friend f asks answers a b apart here there,
      answered f asks answers a b apart here there,
      pushed',
      at',
      rw read' refl,
      told f asks answers a b apart here there,
      found,
      off,
    )
