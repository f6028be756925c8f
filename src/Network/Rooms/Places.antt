-- ===== src/Network/Rooms/Places.antt =====
-- Where a session is: in the map of a room, or on its way into one (CRoom2.cpp).
use game_server_client.Base.{
  ℕ, ◌+◌, ◌≤◌, ◌≡◌, List, [], ◌∷◌, ◌++◌, none, some, if◌then◌else◌, ◌==◌, arith, refl, ap,
  Bool-cases, inl, inr,
}
use game_server_client.Network.Rooms.{
  Job, enter, room_message_session, room_delete, room_message, Room, contains, erase, insert,
  find_room, change,
}

-- How often a list has an id.
unfoldable pub count : ℕ → List ℕ → ℕ
count a [] = 0
count a (b ∷ bs) = (if b == a then 1 else 0) + count a bs

-- How many of the jobs let a session in.
unfoldable pub enters : ℕ → List Job → ℕ
enters a [] = 0
enters a (enter b p ∷ jobs) = (if b == a then 1 else 0) + enters a jobs
enters a (room_delete ∷ jobs) = enters a jobs
enters a (room_message p ∷ jobs) = enters a jobs
enters a (room_message_session b p ∷ jobs) = enters a jobs

unfoldable pub places_in : ℕ → Room → ℕ
places_in a r = count a r.session_map + enters a r.message_q + enters a r.working_q

-- In how many places of all rooms a session is.
unfoldable pub places : ℕ → List (ℕ × Room) → ℕ
places a [] = 0
places a ((k, r) ∷ rs) = places_in a r + places a rs

count-append : (a : ℕ) (xs ys : List ℕ) → count a (xs ++ ys) ≡ count a xs + count a ys
unfolding count
count-append a [] ys = omega arith
count-append a (x ∷ xs) ys = omega (arith, count-append a xs ys)

pub enters-append : (a : ℕ) (xs ys : List Job) → enters a (xs ++ ys) ≡ enters a xs + enters a ys
unfolding enters
enters-append a [] ys = omega arith
enters-append a (enter b p ∷ xs) ys = omega (arith, enters-append a xs ys)
enters-append a (room_delete ∷ xs) ys = enters-append a xs ys
enters-append a (room_message p ∷ xs) ys = enters-append a xs ys
enters-append a (room_message_session b p ∷ xs) ys = enters-append a xs ys

-- What is erased was there once more.
pub count-erase :
    (a b : ℕ) (xs : List ℕ)
    → count a (erase xs b) + (if contains xs b then (if b == a then 1 else 0) else 0) ≡ count a xs
unfolding count erase contains
count-erase a b [] = refl
count-erase a b (x ∷ xs) = ground (arith, count-erase a b xs)

-- What is inserted is there at most once more.
pub count-insert :
    (a b : ℕ) (xs : List ℕ) → count a (insert xs b) ≤ count a xs + (if b == a then 1 else 0)
unfolding insert count
count-insert a b xs = ground (arith, count-append a xs (b ∷ []))

-- A change of one room changes the places by what it changes there.
pub places-change :
    (a : ℕ) (f : Room → Room) (rs : List (ℕ × Room)) (k : ℕ) (r : Room)
    → find_room rs k ≡ some r
    → places a (change f rs k) + places_in a r ≡ places a rs + places_in a (f r)
unfolding places change find_room
places-change a f [] k r h = cc
places-change a f ((j, s) ∷ rs) k r h = elim (Bool-cases (j == k)) [
  | inl here ↦
      let found : some s ≡ some r = rw here at h in
      let e : s ≡ r = cc in
      rw here (omega (arith, ap (places_in a) e, ap (λ t. places_in a (f t)) e))
  | inr there ↦
      let found : find_room rs k ≡ some r = rw there at h in
      rw there (omega (arith, places-change a f rs k r found))
]

pub find-change :
    (f : Room → Room) (rs : List (ℕ × Room)) (k : ℕ) (r : Room)
    → find_room rs k ≡ some r
    → find_room (change f rs k) k ≡ some (f r)
unfolding change find_room
find-change f [] k r h = cc
find-change f ((j, s) ∷ rs) k r h = ground (arith, find-change f rs k r)

pub change-none :
    (f : Room → Room) (rs : List (ℕ × Room)) (k : ℕ) → find_room rs k ≡ none → change f rs k ≡ rs
unfolding change find_room
change-none f [] k h = refl
change-none f ((j, s) ∷ rs) k h = ground (arith, change-none f rs k)
