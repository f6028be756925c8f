-- ===== src/Field/Tests.antt =====
-- Two users of a field, anna in the session 5 and bert in the session 6, become friends.
use game_server_client.Base.{
  get_or, ℕ, ◌≡◌, ◌≢◌, refl, List, [], ◌∷◌, ◌++◌, true, false, Option, some, none, arith,
  if◌then◌else◌, ◌==◌, ap, ◌∙◌,
}
use game_server_client.Map.{find}
use game_server_client.Tasks.{LoginStatus, login_key, login_value, task_key, execute_task, Deed}
use game_server_client.Redis.Shelves.{
  Shelf, look, no_keys, put_entry, put_self, put_other, value_of,
}
use game_server_client.Field.{
  Member, Field, reply, req_friend, accept_friend, add_friend, accept_add_friend, request,
  select_nickname, nickname_selected, insert_add_friend, add_friend_inserted, set_add_friend,
  set_accept_add_friend, make_friends, friends_inserted, listed, without, packet_add_friend,
  nickname_answered, add_friend_answered, on_add_friend, packet_accept_add_friend, friends_answered,
  on_accept_add_friend,
}
use game_server_client.Field.Friendship.{IsThere, task_of, request_befriends}
use game_server_client.Texts.{combine_strings, combine_rest}

abbrev anna : Member
anna = record { nickname = 97 ∷ []; friends = []; add_friends = [] }

abbrev bert : Member
bert = record { nickname = 98 ∷ []; friends = []; add_friends = (99 ∷ []) ∷ [] }

abbrev field : Field
field = (5, anna) ∷ (6, bert) ∷ []

abbrev friendly_anna : Member
friendly_anna = record anna {
  friends = [] ++ record { nickname = 98 ∷ []; is_online = false } ∷ [];
}

abbrev friendly_bert : Member
friendly_bert = record bert {
  friends = [] ++ record { nickname = 97 ∷ []; is_online = false } ∷ [];
  add_friends = without (97 ∷ []) (((99 ∷ []) ∷ []) ++ (97 ∷ []) ∷ []);
}

abbrev at : (session_id : ℕ) → LoginStatus
at session_id = record { ip = 49 ∷ []; port = 6000; session_id = session_id }

abbrev anna_only : Shelf
anna_only = put_entry no_keys (login_key (97 ∷ [])) (some (login_value (at 5), none))

abbrev get_status : List ℕ → Option (List ℕ)
get_status key =
    look (put_entry anna_only (login_key (98 ∷ [])) (some (login_value (at 6), none))) key

keys_apart : login_key (97 ∷ []) ≢ login_key (98 ∷ [])
unfolding login_key combine_strings combine_rest
keys_apart e = omega (arith, ap (λ text. get_or text 6 0) e)

anna-IsThere : IsThere get_status anna (at 5)
anna-IsThere = record {
  status = record { address = ((λ e. omega arith), tt); word = omega arith; long = omega arith };
  known =
      ap value_of (
        put_other anna_only (login_key (98 ∷ [])) (some (login_value (at 6), none))
          (login_key (97 ∷ [])) keys_apart)
      ∙ ap value_of (put_self no_keys (login_key (97 ∷ [])) (some (login_value (at 5), none)));
  plain = ((λ e. omega arith), tt);
  some_name = λ e. cc;
}

bert-IsThere : IsThere get_status bert (at 6)
bert-IsThere = record {
  status = record { address = ((λ e. omega arith), tt); word = omega arith; long = omega arith };
  known = ap value_of (put_self anna_only (login_key (98 ∷ [])) (some (login_value (at 6), none)));
  plain = ((λ e. omega arith), tt);
  some_name = λ e. cc;
}

request_befriends_example :
    (f1 : Field) × (f2 : Field) × (f3 : Field) × (key1 : List ℕ) × (task1 : List ℕ) × (key2 : List
      ℕ)
    × (task2 : List ℕ) × (packet_add_friend field 5 (98 ∷ []) 0
        ≡ some (
          field,
          request (select_nickname (98 ∷ [])) (nickname_selected 5 (97 ∷ []) (98 ∷ [])) ∷ [],
        ))
    × (nickname_answered 5 (97 ∷ []) (98 ∷ []) 0 1
        ≡ request
            (insert_add_friend (98 ∷ []) (97 ∷ []))
            (add_friend_inserted 5 (97 ∷ []) (98 ∷ []))
          ∷ [])
    × (add_friend_answered 5 (97 ∷ []) (98 ∷ []) 0
        ≡ (set_add_friend (97 ∷ []) (98 ∷ [])) ∷ reply 5 (add_friend true) ∷ [])
    × (task_of get_status (set_add_friend (97 ∷ []) (98 ∷ [])) ≡ some (key1, task1))
    × (key1 ≡ task_key (at 6) 2)
    × (execute_task 2 task1 ≡ some (Deed.add_friend 6 (97 ∷ []) ∷ []))
    × (on_add_friend field 6 (97 ∷ []) ≡ (f1, reply 6 (req_friend (97 ∷ [])) ∷ []))
    × (packet_accept_add_friend f1 6 (97 ∷ []) 0
        ≡ some (f1, request (make_friends (98 ∷ []) (97 ∷ [])) (friends_inserted 6 (97 ∷ [])) ∷ []))
    × (friends_answered f1 6 (97 ∷ []) 0
        ≡ some (
          f2,
          set_accept_add_friend (98 ∷ []) (97 ∷ [])
              ∷ reply 6 (accept_add_friend true (97 ∷ []))
              ∷ [],
        ))
    × (task_of get_status (set_accept_add_friend (98 ∷ []) (97 ∷ [])) ≡ some (key2, task2))
    × (key2 ≡ task_key (at 5) 3)
    × (execute_task 3 task2 ≡ some (Deed.accept_add_friend 5 (98 ∷ []) ∷ []))
    × (on_accept_add_friend f2 5 (98 ∷ []) ≡ (f3, reply 5 (accept_friend (98 ∷ [])) ∷ []))
    × ((j : ℕ)
        → find j f3 ≡ (
            if j == 5
            then some friendly_anna
            else if j == 6
            then some friendly_bert
            else find j field))
    × (listed (97 ∷ []) (without (97 ∷ []) (((99 ∷ []) ∷ []) ++ (97 ∷ []) ∷ [])) ≡ false)
unfolding find
request_befriends_example =
    request_befriends get_status field anna bert (at 5) (at 6) (λ e. omega arith) refl refl
      anna-IsThere bert-IsThere
