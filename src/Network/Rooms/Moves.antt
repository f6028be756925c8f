-- ===== src/Network/Rooms/Moves.antt =====
-- ChangeRoom (CRoom2.cpp): a session goes from one room into the queue of another.
use game_server_client.Base.{
  ℕ, ◌+◌, ◌≡◌, List, [], ◌∷◌, ◌++◌, Bool, true, false, Option, none, some, if◌then◌else◌, ◌==◌,
  arith, refl, ap, ◌∙◌, Bool-cases, Option-cases, inl, inr,
}
use game_server_client.Buffer.{SerialRingBuffer}
use game_server_client.Network.Rooms.{
  enter, Room, World, Contents, contains, erase, find_room, change, push, at_room, leave_for,
  change_room, called_of, recv_packet, recv_packets,
}
use game_server_client.Network.Rooms.Places.{
  count, enters, places_in, places, enters-append, count-erase, change-none, places-change,
}
use game_server_client.Network.Rooms.Updates.{working_of, working-change, Keeps}

is_there : Option Room → Bool
is_there none = false
is_there (some r) = true

-- A change of a room leaves the rooms that there are.
there-change :
    (f : Room → Room) (rs : List (ℕ × Room)) (j k : ℕ)
    → is_there (find_room (change f rs j) k) ≡ is_there (find_room rs k)
unfolding find_room change is_there
there-change f [] j k = refl
there-change f ((i, s) ∷ rs) j k = ground (arith, there-change f rs j k)

room_there : (o : Option Room) → is_there o ≡ true → (r : Room) × (o ≡ some r)
unfolding is_there
room_there none h = absurd (let bad : ⊥ = cc in bad)
room_there (some r) h = (r, refl)

-- Places after an enter job is pushed.
pushed-places :
    (a id param : ℕ) (rs : List (ℕ × Room)) (k : ℕ) (r : Room)
    → find_room rs k ≡ some r
    → places a (change (push (enter id param)) rs k) ≡ places a rs + (if id == a then 1 else 0)
unfolding push places_in enters
pushed-places a id param rs k r found = omega (
  arith,
  places-change a (push (enter id param)) rs k r found,
  enters-append a r.message_q (enter id param ∷ []),
)

erased-places :
    (a id : ℕ) (rs : List (ℕ × Room)) (k : ℕ) (r : Room)
    → find_room rs k ≡ some r
    → contains r.session_map id ≡ true
    → places a (change (λ r. record r { session_map = erase r.session_map id }) rs k)
        + (if id == a then 1 else 0)
      ≡ places a rs
unfolding places_in
erased-places a id rs k r found there =
    let f : Room → Room = λ r. record r { session_map = erase r.session_map id } in
    let taken : count a (erase r.session_map id) + (if id == a then 1 else 0)
        ≡ count a r.session_map =
      rw there at (count-erase a id r.session_map) in
    omega (arith, places-change a f rs k r found, taken)

same-places :
    (a : ℕ) (rs : List (ℕ × Room)) (k : ℕ)
    → places a (change (λ r. record r { called_change_room = true }) rs k) ≡ places a rs
unfolding places_in
same-places a rs k =
    let f : Room → Room = λ r. record r { called_change_room = true } in
    elim (Option-cases (find_room rs k)) [
      | inl missing ↦ ap (places a) (change-none f rs k missing)
      | inr (r, found) ↦ omega (arith, places-change a f rs k r found)
    ]

module _ {C : Type 0} (c : Contents C)
    (leaves : (k id : ℕ) (w : World C) → (c.on_leave_room k id w).room_map ≡ w.room_map) where
  places-leave_for :
      (a : ℕ) (w : World C) (from id to param : ℕ) (r target : Room)
      → find_room w.room_map from ≡ some r
      → contains r.session_map id ≡ true
      → find_room w.room_map to ≡ some target
      → places a (leave_for c w from id to param).room_map ≡ places a w.room_map
  unfolding leave_for at_room is_there
  places-leave_for a w from id to param r target found there ahead =
      let f : Room → Room = λ r. record r { session_map = erase r.session_map id } in
      let g : Room → Room = λ r. record r { called_change_room = true } in
      let m1 : List (ℕ × Room) = change f w.room_map from in
      let w2 : World C = c.on_leave_room from id (record w { room_map = m1 }) in
      let kept : w2.room_map ≡ m1 = leaves from id (record w { room_map = m1 }) in
      let m3 : List (ℕ × Room) = change g w2.room_map from in
      let still : is_there (find_room m3 to) ≡ true =
        there-change g w2.room_map from to
        ∙ ap (λ m. is_there (find_room m to)) kept
        ∙ there-change f w.room_map from to
        ∙ ap is_there ahead in
      let (t, found') = room_there (find_room m3 to) still in
      omega (
        arith,
        pushed-places a id param m3 to t found',
        same-places a w2.room_map from,
        ap (places a) kept,
        erased-places a id w.room_map from r found there,
      )

  working-leave_for :
      (w : World C) (from id to param k : ℕ)
      → working_of (leave_for c w from id to param).room_map k ≡ working_of w.room_map k
  unfolding leave_for at_room push
  working-leave_for w from id to param k =
      let f : Room → Room = λ r. record r { session_map = erase r.session_map id } in
      let g : Room → Room = λ r. record r { called_change_room = true } in
      let m1 : List (ℕ × Room) = change f w.room_map from in
      let w2 : World C = c.on_leave_room from id (record w { room_map = m1 }) in
      working-change (push (enter id param)) (change g w2.room_map from) to k (λ r. refl)
      ∙ working-change g w2.room_map from k (λ r. refl)
      ∙ ap (λ m. working_of m k) (leaves from id (record w { room_map = m1 }))
      ∙ working-change f w.room_map from k (λ r. refl)

  -- ChangeRoom of any session, to any room, with whatever answer, leaves every session in as many
  -- places as it was in, where OnLeaveRoom leaves the rooms alone.
  pub places-change_room :
      (a : ℕ) (w : World C) (from id to param : ℕ)
      → places a (change_room c w from id to param).0.room_map ≡ places a w.room_map
  unfolding change_room
  places-change_room a w from id to param = elim (Option-cases (find_room w.room_map to)) [
    | inl missing ↦ rw (missing, change_room) refl
    | inr (target, ahead) ↦ elim (Option-cases (find_room w.room_map from)) [
      | inl lost ↦ rw (ahead, lost, change_room) refl
      | inr (r, found) ↦ elim (Bool-cases (contains r.session_map id)) [
        | inl there ↦
            rw (ahead, found, there, change_room)
              (places-leave_for a w from id to param r target found there ahead)
        | inr gone ↦ rw (ahead, found, gone, change_room) refl
      ]
    ]
  ]

  working-change_room :
      (w : World C) (from id to param k : ℕ)
      → working_of (change_room c w from id to param).0.room_map k ≡ working_of w.room_map k
  unfolding change_room
  working-change_room w from id to param k = elim (Option-cases (find_room w.room_map to)) [
    | inl missing ↦ rw (missing, change_room) refl
    | inr (target, ahead) ↦ elim (Option-cases (find_room w.room_map from)) [
      | inl lost ↦ rw (ahead, lost, change_room) refl
      | inr (r, found) ↦ elim (Bool-cases (contains r.session_map id)) [
        | inl there ↦ rw (ahead, found, there, change_room) (working-leave_for w from id to param k)
        | inr gone ↦ rw (ahead, found, gone, change_room) refl
      ]
    ]
  ]

  -- So contents that call ChangeRoom may be met by RoomUpdate.
  pub change_room-Keeps :
      (a k : ℕ) (w : World C) (from id to param : ℕ)
      → Keeps a k w (change_room c w from id to param).0
  change_room-Keeps a k w from id to param = (
    omega (arith, places-change_room a w from id to param),
    working-change_room w from id to param k,
  )

module _ {C : Type 0} (c : Contents C) (k id : ℕ) where
  -- Once a session has called ChangeRoom, the packets that it still has are not handled.
  recv_none :
      (ps : List SerialRingBuffer) (w : World C)
      → called_of c w k ≡ true
      → recv_packets c w k id ps ≡ w
  unfolding recv_packets recv_packet
  recv_none [] w h = refl
  recv_none (p ∷ ps) w h = rw h (recv_none ps w h)

  -- Where the handling of a packet calls ChangeRoom, the room handles the packets up to it and drops
  -- those behind it.
  pub recv_packets-change_room :
      (ps : List SerialRingBuffer) (p : SerialRingBuffer) (qs : List SerialRingBuffer) (w : World C)
      → called_of c (recv_packets c w k id (ps ++ p ∷ [])) k ≡ true
      → recv_packets c w k id (ps ++ p ∷ qs) ≡ recv_packets c w k id (ps ++ p ∷ [])
  unfolding recv_packets
  recv_packets-change_room [] p qs w h = recv_none qs (recv_packet c w k id p) h
  recv_packets-change_room (q ∷ ps) p qs w h =
      recv_packets-change_room ps p qs (recv_packet c w k id q) h
