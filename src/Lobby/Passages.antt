-- ===== src/Lobby/Passages.antt =====
-- What can happen to players in the lobby and in the fields, and what holds ever after
-- (게임서버/컨텐츠/클래스/필드/Lobby.cpp and CBaseField.cpp).
use mathlib.Core.Path.{subst}
use game_server_client.Inventory.Whole.{add_money}
use game_server_client.Moves
use game_server_client.Moves.{
  Users, on_enter_room, on_leave_room, on_session_release, packet_show_me_the_money, request_last,
  log_out, free_user,
}
use game_server_client.Base.{
  ◌∷◌, ◌==◌, Bool-cases, Option-cases, inl, inr, ℕ, ◌≡◌, List, [], Option, none, some,
}
use game_server_client.Map.{Map, find, erase}
use game_server_client.Redis.{Redis}
use game_server_client.Item.{Item}
use game_server_client.Lobby.Character.{Player}
use game_server_client.Lobby.{Lobby}
use game_server_client.Lobby.Stay.{enter_back, leave}
use game_server_client.Lobby.Keys.{AreKeyed, AreKeyed-insert, AreKeyed-assign, AreKeyed-erase}
use game_server_client.Lobby.Steps.{Step, Step-AreKeyed}

-- The lobby, and the users of the fields: a user is in one field at a time, so that they are one map.
pub record World : Type 0 where
  pub lobby : Lobby
  pub field : Users

-- A step of both: one in the lobby, a player who goes from the lobby to a field, back, or from field to
-- field (OnLeaveRoom of the one room and OnEnterRoom of the other), one who gets money in a field, or
-- one who is released there.
pub data Passage (r : Redis) (ip : List ℕ) (port : ℕ) (items : Map Item)
    : World → World → Type 0 where
  inside :
      {l l' : Lobby} {f : Users}
      → Step r ip port items l l'
      → Passage r ip port items (record { lobby = l; field = f }) (record { lobby = l'; field = f })
  gone :
      {l l' : Lobby} {f f' : Users}
      → (room_no : ℕ) (field_name : List ℕ) (session_id : ℕ) (u : Player)
      → find session_id l.user_map ≡ some u
      → l' ≡ leave l session_id
      → f' ≡ (on_enter_room room_no field_name f session_id (some u)).0
      → Passage r ip port items
          (record { lobby = l; field = f })
          (record { lobby = l'; field = f' })
  came_back :
      {l l' : Lobby} {f f' : Users}
      → (s : r.Store) (session_id : ℕ) (u : Player) (now : ℕ) → find session_id f ≡ some u
      → on_leave_room f session_id ≡ some f'
      → l' ≡ (enter_back r s l session_id u now).1
      → Passage r ip port items
          (record { lobby = l; field = f })
          (record { lobby = l'; field = f' })
  changed_field :
      {l : Lobby} {f f' f'' : Users}
      → (room_no : ℕ) (field_name : List ℕ) (session_id : ℕ) (u : Player)
      → find session_id f ≡ some u
      → on_leave_room f session_id ≡ some f'
      → f'' ≡ (on_enter_room room_no field_name f' session_id (some u)).0
      → Passage r ip port items
          (record { lobby = l; field = f })
          (record { lobby = l; field = f'' })
  paid :
      {l : Lobby} {f f' : Users}
      → (session_id money_id left : ℕ) (actions : List Moves.Action)
      → packet_show_me_the_money f session_id money_id left ≡ some (f', actions)
      → Passage r ip port items (record { lobby = l; field = f }) (record { lobby = l; field = f' })
  released_there :
      {l : Lobby} {f f' : Users}
      → (session_id : ℕ) (actions : List Moves.Action)
      → on_session_release f session_id ≡ some (f', actions)
      → Passage r ip port items (record { lobby = l; field = f }) (record { lobby = l; field = f' })

pub data Reach (r : Redis) (ip : List ℕ) (port : ℕ) (items : Map Item) (w : World)
    : World → Type 0 where
  here : Reach r ip port items w w
  next :
      {w' w'' : World}
      → Reach r ip port items w w'
      → Passage r ip port items w' w''
      → Reach r ip port items w w''

on_leave_room-AreKeyed :
    (f f' : Users) (session_id : ℕ)
    → on_leave_room f session_id ≡ some f'
    → AreKeyed f
    → AreKeyed f'
unfolding on_leave_room
on_leave_room-AreKeyed f f' session_id e m = elim (Option-cases (find session_id f)) [
  | inl away ↦ let no : none ≡ some f' = rw away at e in cc
  | inr (u, there) ↦
      let same : some (erase session_id f) ≡ some f' = rw there at e in
      let left : erase session_id f ≡ f' = cc in rw (← left) (AreKeyed-erase f session_id m)
]

on_session_release-AreKeyed :
    (f f' : Users) (session_id : ℕ) (actions : List Moves.Action)
    → on_session_release f session_id ≡ some (f', actions)
    → AreKeyed f
    → AreKeyed f'
unfolding on_session_release
on_session_release-AreKeyed f f' session_id actions e m = elim (Option-cases (find session_id f)) [
  | inl away ↦ let no : none ≡ some (f', actions) = rw away at e in cc
  | inr (u, there) ↦
      let same : some
            (erase session_id f, request_last (log_out u.uid u.nickname) ∷ free_user u ∷ [])
          ≡ some (f', actions) =
        rw there at e in
      let left : erase session_id f ≡ f' = cc in rw (← left) (AreKeyed-erase f session_id m)
]

-- Who is paid in a field is the one who stands there.
Paid : Users → Option (Users × List Moves.Action) → Type 0
Paid f none = Unit {0}
Paid f (some (f', actions)) = AreKeyed f'

show_me-Paid :
    (f : Users) (session_id money_id left : ℕ)
    → AreKeyed f
    → Paid f (packet_show_me_the_money f session_id money_id left)
unfolding packet_show_me_the_money Paid
show_me-Paid f session_id money_id left m = elim (Bool-cases (left == 0)) [
  | inr more ↦ rw more m
  | inl all ↦ elim (Option-cases (find session_id f)) [
    | inl away ↦ rw (all, away) tt
    | inr (u, there) ↦ elim (Option-cases (add_money u.inventory money_id 10000)) [
      | inl unknown ↦ rw (all, there, unknown) tt
      | inr (got, added) ↦
          rw (all, there, added)
            (AreKeyed-assign f session_id (record u { inventory = got.0 }) (m session_id u there) m)
    ]
  ]
]

show_me-AreKeyed :
    (f f' : Users) (session_id money_id left : ℕ) (actions : List Moves.Action)
    → packet_show_me_the_money f session_id money_id left ≡ some (f', actions)
    → AreKeyed f
    → AreKeyed f'
unfolding Paid
show_me-AreKeyed f f' session_id money_id left actions e m =
    let kept : Paid f (some (f', actions)) =
      subst (Paid f) e (show_me-Paid f session_id money_id left m) in
    kept

module _ (r : Redis) (ip : List ℕ) (port : ℕ) (items : Map Item) where
  Passage-AreKeyed :
      {w w' : World}
      → Passage r ip port items w w'
      → AreKeyed w.lobby.user_map × AreKeyed w.field
      → AreKeyed w'.lobby.user_map × AreKeyed w'.field
  unfolding on_enter_room enter_back leave
  Passage-AreKeyed (inside step) (k, m) = (Step-AreKeyed r ip port items step k, m)
  Passage-AreKeyed (gone {l} {l'} {f} {f'} room_no field_name session_id u h e e') (k, m) = (
    rw e (AreKeyed-erase l.user_map session_id k),
    rw e' (AreKeyed-insert f session_id (record u { room_no = room_no }) (k session_id u h) m),
  )
  Passage-AreKeyed (came_back {l} {l'} {f} {f'} s session_id u now h e e') (k, m) = (
    rw e' (AreKeyed-insert l.user_map session_id _ (m session_id u h) k),
    on_leave_room-AreKeyed f f' session_id e m,
  )
  Passage-AreKeyed (changed_field {l} {f} {f'} {f''} room_no field_name session_id u h e e')
        (k, m) =
      (
        k,
        rw e' (
            AreKeyed-insert f' session_id (record u { room_no = room_no }) (m session_id u h)
              (on_leave_room-AreKeyed f f' session_id e m)),
      )
  Passage-AreKeyed (paid {l} {f} {f'} session_id money_id left actions e) (k, m) =
      (k, show_me-AreKeyed f f' session_id money_id left actions e m)
  Passage-AreKeyed (released_there {l} {f} {f'} session_id actions e) (k, m) =
      (k, on_session_release-AreKeyed f f' session_id actions e m)

  -- Whatever has happened in the lobby and the fields since they were empty, a player stands under the
  -- own session id, in the lobby and in the fields.
  pub users_keyed :
      {w : World}
      → Reach r ip port items
          (record { lobby = record { user_map = []; duplication_user = [] }; field = [] })
          w
      → AreKeyed w.lobby.user_map × AreKeyed w.field
  unfolding find
  users_keyed here = ((λ session_id u h. cc), (λ session_id u h. cc))
  users_keyed (next before step) = Passage-AreKeyed step (users_keyed before)
