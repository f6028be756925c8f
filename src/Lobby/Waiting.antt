-- ===== src/Lobby/Waiting.antt =====
-- The loop over `DuplicationUser` comes to an end (OnUpdate of
-- 게임서버/컨텐츠/클래스/필드/Lobby.cpp).
use game_server_client.Base.{
  ◌-◌, Bool, dec_lt, ℕ, zero, suc, ◌+◌, ◌≤◌, ◌<◌, ◌≡◌, refl, List, [], ◌∷◌, true, none, ltb, arith,
  length, Bool-cases, Option-cases, inl, inr,
}
use game_server_client.Map.{Map, find}
use game_server_client.Redis.{Redis}
use game_server_client.Texts.{split_string}
use game_server_client.Tasks.{to_string, login_key, login_value, status_of}
use game_server_client.Lobby.Character.{Player}
use game_server_client.Lobby.{
  Action, request, select_character_list, characters_of_login, Checked, checked, thrown, unfinished,
  keep, act, set_login_uid, status, check_waiting,
}

-- The loop has ended: each of the sessions is kept, has its characters asked for, or is dropped.
abbrev pub Ended : {S : Type 0} → (sessions : ℕ) → Checked S → Type 0
Ended n (checked s waiting actions) = length waiting + length actions ≤ n
Ended n thrown = Unit {0}
Ended n unfinished = ⊥

Ended-suc : {S : Type 0} (n : ℕ) (c : Checked S) → Ended n c → Ended (suc n) c
Ended-suc n (checked s waiting actions) h = omega arith
Ended-suc n thrown h = tt
Ended-suc n unfinished h = h

Ended-keep :
    {S : Type 0} (n : ℕ) (waits : ℕ × ℕ) (c : Checked S) → Ended n c → Ended (suc n) (keep waits c)
unfolding keep
Ended-keep n waits (checked s waiting actions) h = omega arith
Ended-keep n waits thrown h = tt
Ended-keep n waits unfinished h = h

Ended-act :
    {S : Type 0} (n : ℕ) (action : Action) (c : Checked S)
    → Ended n c
    → Ended (suc n) (act action c)
unfolding act
Ended-act n action (checked s waiting actions) h = omega arith
Ended-act n action thrown h = tt
Ended-act n action unfinished h = h

module _ (r : Redis) (ip : List ℕ) (port : ℕ) (clock : ℕ → ℕ) (meanwhile : ℕ → r.Store → r.Store)
    (users : Map Player) where
  free_set :
      (s : r.Store) (u : Player)
      → r.get s (login_key (to_string u.uid)) ≡ none
      → (set_login_uid r (status r ip port u.session_id) s u.uid).1 ≡ true
  unfolding set_login_uid
  free_set s u h =
      rw
        (r.setnx_free s (login_key (to_string u.uid)) (login_value (status r ip port u.session_id))
          h)
        refl

  -- The loop ends, whatever the clock shows and the store holds, where from the round `calm` on no other
  -- server sets a status between GET and SETNX, and there are more rounds than those and the sessions
  -- that wait: at most so many sessions are kept or have their characters asked for. Before, a refused
  -- SETNX has the loop look at the same session again.
  pub check_waiting_ends :
      (calm : ℕ)
      → ((i : ℕ)
          → calm ≤ i
          → (s : r.Store) (key : List ℕ) → r.get s key ≡ none
          → r.get (meanwhile i s) key ≡ none)
      → (round rounds : ℕ) (s : r.Store) (waiting : List (ℕ × ℕ))
      → length waiting + (calm - round) < rounds
      → Ended
          (length waiting)
          (check_waiting r ip port clock meanwhile round rounds users s waiting)
  unfolding check_waiting
  check_waiting_ends calm still round zero s waiting h = absurd (omega arith)
  check_waiting_ends calm still round (suc rounds) s [] h = omega arith
  check_waiting_ends calm still round (suc rounds) s ((session_id, time_out) ∷ waiting) h =
      let dropped : Ended (suc (length waiting))
          (check_waiting r ip port clock meanwhile (suc round) rounds users s waiting) =
        Ended-suc (length waiting)
          (check_waiting r ip port clock meanwhile (suc round) rounds users s waiting)
          (check_waiting_ends calm still (suc round) rounds s waiting (omega arith)) in
      elim (Option-cases (find session_id users)) [
        | inl away ↦ rw (away, check_waiting) dropped
        | inr (u, here) ↦ elim (Bool-cases (ltb time_out (clock round))) [
          | inl late ↦ rw (here, check_waiting) (rw (late, check_waiting) dropped)
          | inr early ↦ elim (Option-cases (r.get s (login_key (to_string u.uid)))) [
            | inr (value, held) ↦ elim (Option-cases (status_of (split_string value 58))) [
              | inl broken ↦
                  rw (here, check_waiting)
                    (rw (early, check_waiting)
                      (rw (held, check_waiting) (rw (broken, check_waiting) tt)))
              | inr (other, read) ↦
                  rw (here, check_waiting)
                    (rw (early, check_waiting)
                      (rw (held, check_waiting)
                        (rw (read, check_waiting)
                          (Ended-keep (length waiting) (session_id, time_out)
                            (check_waiting r ip port clock meanwhile (suc round) rounds users s
                              waiting)
                            (check_waiting_ends calm still (suc round) rounds s waiting
                              (omega arith))))))
            ]
            | inl free ↦
                let s1 : r.Store = meanwhile round s in
                let tried : r.Store × Bool =
                  set_login_uid r (status r ip port u.session_id) s1 u.uid in
                elim (Bool-cases tried.1) [
                  | inl done ↦
                      rw (here, check_waiting)
                        (rw (early, check_waiting)
                          (rw (free, check_waiting)
                            (rw (done, check_waiting)
                              (Ended-act (length waiting)
                                (request (select_character_list u.uid) characters_of_login
                                  session_id)
                                (check_waiting r ip port clock meanwhile (suc round) rounds users
                                  tried.0 waiting)
                                (check_waiting_ends calm still (suc round) rounds tried.0 waiting
                                  (omega arith))))))
                  | inr refused ↦
                      let early_round : round < calm = elim (dec_lt round calm) [
                        | yes before ↦ before
                        | no later ↦
                            let set : tried.1 ≡ true =
                              free_set s1 u
                                (still round (omega arith) s (login_key (to_string u.uid)) free) in
                            cc
                      ] in
                      rw (here, check_waiting)
                        (rw (early, check_waiting)
                          (rw (free, check_waiting)
                            (rw (refused, check_waiting)
                              (check_waiting_ends calm still (suc round) rounds tried.0
                                ((session_id, time_out) ∷ waiting) (omega arith)))))
                ]
          ]
        ]
      ]
