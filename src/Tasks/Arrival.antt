-- ===== src/Tasks/Arrival.antt =====
-- What one lobby server writes into Redis, another one reads (LobbyServer.cpp, RedisTask.h).
use game_server_client.Base.{
  append_assoc, ℕ, ◌^◌, ◌%◌, ◌<◌, ◌≡◌, ◌≢◌, refl, List, [], ◌∷◌, ◌++◌, Option, some, arith, ap,
}
use game_server_client.Texts.{combine_strings, combine_rest, split_string}
use game_server_client.Texts.Splits.{Lacks, split_string-combine_strings}
use game_server_client.Tasks.{
  to_string, stoi, stoull, LoginStatus, login_key, login_value, status_of, get_login_status,
  task_key, set_whisper, set_friend_task, whisper_of, whisper_task, friend_of, friend_task,
}
use game_server_client.Tasks.Numbers.{to_string_some, to_string-Lacks, read_below-to_string}

-- A status that a server can have: an address without colons, a WORD and a DWORD64.
pub record IsStatus (s : LoginStatus) : Type 0 where
  pub address : Lacks 58 s.ip
  pub word : s.port < 2 ^ 16
  pub long : s.session_id < 2 ^ 64

-- The status that Redis_SetLoginStatus writes under a name is the one that Redis_GetLoginStatus
-- reads under it.
pub get_login_status-login_value :
    (get : List ℕ → Option (List ℕ)) (name : List ℕ) (s : LoginStatus)
    → IsStatus s
    → get (login_key name) ≡ some (login_value s)
    → get_login_status get name ≡ some s
unfolding get_login_status login_value status_of
get_login_status-login_value get name s i held =
    let parts : List (List ℕ) = s.ip ∷ to_string s.port ∷ to_string s.session_id ∷ [] in
    let split : split_string (combine_strings parts 58) 58 ≡ parts =
      split_string-combine_strings parts 58 (
        i.address,
        (to_string-Lacks s.port, (to_string-Lacks s.session_id, to_string_some s.session_id)),
      ) in
    let port : stoi (to_string s.port) ≡ some s.port =
      read_below-to_string (2 ^ 31) s.port (omega (arith, i.word)) (omega (arith, i.word)) in
    let id : stoull (to_string s.session_id) ≡ some s.session_id =
      read_below-to_string (2 ^ 64) s.session_id i.long i.long in
    let cut : s.port % 2 ^ 16 ≡ s.port = omega (arith, i.word) in
    rw (held, split, port, id, cut) refl

module _ (get : List ℕ → Option (List ℕ)) (recv_nickname send_nickname : List ℕ) (s : LoginStatus)
    (i : IsStatus s) (online : get (login_key recv_nickname) ≡ some (login_value s))
    (named : Lacks 58 send_nickname) where
  status : get_login_status get recv_nickname ≡ some s
  status = get_login_status-login_value get recv_nickname s i online

  number : stoull (to_string s.session_id) ≡ some s.session_id
  number = read_below-to_string (2 ^ 64) s.session_id i.long i.long

  -- A whisper without colons, and not empty, to somebody who is online is pushed under the key of the
  -- server where that one is, and is read there as it was written, for that session.
  pub whisper_arrives :
      (chatting : List ℕ)
      → Lacks 58 chatting
      → chatting ≢ []
      → (key : List ℕ) × (task : List ℕ) × (set_whisper get send_nickname recv_nickname chatting
          ≡ some (key, task))
        × (key ≡ task_key s 1)
        × (whisper_task task
            ≡ some (record {
              session_id = s.session_id;
              send_nickname = send_nickname;
              chatting = chatting;
            }))
  unfolding set_whisper whisper_task whisper_of
  whisper_arrives chatting plain some_text =
      let parts : List (List ℕ) = to_string s.session_id ∷ send_nickname ∷ chatting ∷ [] in
      let split : split_string (combine_strings parts 58) 58 ≡ parts =
        split_string-combine_strings parts 58
          (to_string-Lacks s.session_id, (named, (plain, some_text))) in
      (task_key s 1, combine_strings parts 58, rw status refl, refl, rw (split, number) refl)

  -- The same of the two tasks of friends, whose nickname is not empty.
  pub friend_task_arrives :
      (kind : ℕ)
      → send_nickname ≢ []
      → (key : List ℕ) × (task : List ℕ) × (set_friend_task kind get send_nickname recv_nickname
          ≡ some (key, task))
        × (key ≡ task_key s kind)
        × (friend_task task ≡ some (s.session_id, send_nickname))
  unfolding set_friend_task friend_task friend_of
  friend_task_arrives kind some_name =
      let parts : List (List ℕ) = to_string s.session_id ∷ send_nickname ∷ [] in
      let split : split_string (combine_strings parts 58) 58 ≡ parts =
        split_string-combine_strings parts 58 (to_string-Lacks s.session_id, (named, some_name)) in
      (task_key s kind, combine_strings parts 58, rw status refl, refl, rw (split, number) refl)

  -- A whisper with a colon arrives cut at the colon.
  pub whisper_cut :
      (before behind : List ℕ)
      → Lacks 58 before
      → Lacks 58 behind
      → behind ≢ []
      → (key : List ℕ) × (task : List ℕ) × (set_whisper get send_nickname recv_nickname
            (before ++ 58 ∷ behind)
          ≡ some (key, task))
        × (whisper_task task
            ≡ some (record {
              session_id = s.session_id;
              send_nickname = send_nickname;
              chatting = before;
            }))
  unfolding set_whisper whisper_task whisper_of combine_strings combine_rest
  whisper_cut before behind plain plain' some_text =
      let parts : List (List ℕ) = to_string s.session_id ∷ send_nickname ∷ before ∷ behind ∷ [] in
      let whole : List (List ℕ) =
        to_string s.session_id ∷ send_nickname ∷ (before ++ 58 ∷ behind) ∷ [] in
      let glued : combine_strings whole 58 ≡ combine_strings parts 58 =
        ap (λ t. to_string s.session_id ++ 58 ∷ (send_nickname ++ 58 ∷ t))
          (append_assoc before (58 ∷ behind) []) in
      let split : split_string (combine_strings parts 58) 58 ≡ parts =
        split_string-combine_strings parts 58
          (to_string-Lacks s.session_id, (named, (plain, (plain', some_text)))) in
      (task_key s 1, combine_strings whole 58, rw status refl, rw (glued, split, number) refl)
