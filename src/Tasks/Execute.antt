-- ===== src/Tasks/Execute.antt =====
-- The tasks that a server finds (Redis_Task_Execute of LobbyServer.cpp) are those that the others left.
use game_server_client.Base.{ℕ, ◌^◌, ◌<◌, ◌≡◌, ◌≢◌, refl, List, [], ◌∷◌, some}
use game_server_client.Texts.{combine_strings, split_string}
use game_server_client.Texts.Splits.{Lacks, split_string-combine_strings}
use game_server_client.Tasks.{
  to_string, stoull, Whisper, whisper_of, whisper_task, Deed, whisper, execute_task, execute,
}
use game_server_client.Tasks.Numbers.{to_string-Lacks, read_below-to_string}

-- A whisper that survives the text: no colons, and something is said.
pub record IsPlain (w : Whisper) : Type 0 where
  pub named : Lacks 58 w.send_nickname
  pub said : Lacks 58 w.chatting
  pub some_text : w.chatting ≢ []
  pub long : w.session_id < 2 ^ 64

abbrev pub ArePlain : List Whisper → Type 0
ArePlain [] = Unit {0}
ArePlain (w ∷ ws) = IsPlain w × ArePlain ws

-- The values that Redis_Task_SetWhisper pushes.
unfoldable pub whisper_values : List Whisper → List (List ℕ)
whisper_values [] = []
whisper_values (w ∷ ws) =
    combine_strings (to_string w.session_id ∷ w.send_nickname ∷ w.chatting ∷ []) 58
    ∷ whisper_values ws

unfoldable pub whispers : List Whisper → List Deed
whispers [] = []
whispers (w ∷ ws) = whisper w ∷ whispers ws

one_whisper :
    (w : Whisper)
    → IsPlain w
    → execute_task 1
        (combine_strings (to_string w.session_id ∷ w.send_nickname ∷ w.chatting ∷ []) 58)
      ≡ some (whisper w ∷ [])
unfolding execute_task whisper_task whisper_of
one_whisper w p =
    let parts : List (List ℕ) = to_string w.session_id ∷ w.send_nickname ∷ w.chatting ∷ [] in
    let split : split_string (combine_strings parts 58) 58 ≡ parts =
      split_string-combine_strings parts 58
        (to_string-Lacks w.session_id, (p.named, (p.said, p.some_text))) in
    let number : stoull (to_string w.session_id) ≡ some w.session_id =
      read_below-to_string (2 ^ 64) w.session_id p.long p.long in
    rw (split, number) refl

-- The whispers that were pushed under the key of a server are sent there, every one, in order and
-- as they were written, where they have no colons and are not empty.
pub execute-whisper_values :
    (ws : List Whisper) → ArePlain ws → execute 1 (whisper_values ws) ≡ some (whispers ws)
unfolding execute whisper_values whispers
execute-whisper_values [] p = refl
execute-whisper_values (w ∷ ws) p = rw (one_whisper w p.0, execute-whisper_values ws p.1) refl
