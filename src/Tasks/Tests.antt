-- ===== src/Tasks/Tests.antt =====
-- A player of the id 7 at the server 10.0.0.2:50000, to whom a b whispers.
use game_server_client.Base.{ℕ, ◌≡◌, refl, List, [], ◌∷◌, Option, some, arith}
use game_server_client.Tasks.{
  digits, to_string, LoginStatus, login_value, task_key, set_whisper, whisper_task,
}
use game_server_client.Tasks.Arrival.{IsStatus, whisper_arrives}

-- 10.0.0.2
abbrev player : LoginStatus
player = record { ip = 49 ∷ 48 ∷ 46 ∷ 48 ∷ 46 ∷ 48 ∷ 46 ∷ 50 ∷ []; port = 50000; session_id = 7 }

player-IsStatus : IsStatus player
player-IsStatus = record {
  address = (
    (λ e. omega arith),
    (
      (λ e. omega arith),
      (
        (λ e. omega arith),
        (
          (λ e. omega arith),
          (
            (λ e. omega arith),
            ((λ e. omega arith), ((λ e. omega arith), ((λ e. omega arith), tt))),
          ),
        ),
      ),
    ),
  );
  word = omega arith;
  long = omega arith;
}

-- Redis has the status of the player under every key.
abbrev get : List ℕ → Option (List ℕ)
get key = some (login_value player)

number_test : to_string 50000 ≡ 53 ∷ 48 ∷ 48 ∷ 48 ∷ 48 ∷ []
unfolding to_string digits
number_test = refl

whisper_arrives_example :
    (key : List ℕ) × (task : List ℕ) × (set_whisper get (97 ∷ 98 ∷ []) (112 ∷ []) (104 ∷ 105 ∷ [])
      ≡ some (key, task))
    × (key ≡ task_key player 1)
    × (whisper_task task
        ≡ some (record { session_id = 7; send_nickname = 97 ∷ 98 ∷ []; chatting = 104 ∷ 105 ∷ [] }))
whisper_arrives_example =
    whisper_arrives get (112 ∷ []) (97 ∷ 98 ∷ []) player player-IsStatus refl
      ((λ e. omega arith), ((λ e. omega arith), tt)) (104 ∷ 105 ∷ [])
      ((λ e. omega arith), ((λ e. omega arith), tt)) (λ e. cc)
