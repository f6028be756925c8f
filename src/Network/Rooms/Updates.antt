-- ===== src/Network/Rooms/Updates.antt =====
-- The jobs of a room (CRoom2.cpp) put no session into two places.
use game_server_client.Base.{
  Bool-cases, ℕ, ◌+◌, ◌≤◌, ◌≡◌, List, [], ◌∷◌, Option, none, some, if◌then◌else◌, ◌==◌, arith, refl,
  ap, ◌∙◌, Bool-cases, Option-cases, inl, inr,
}
use game_server_client.Buffer.{SerialRingBuffer}
use game_server_client.Network.Sessions.{get_room_no, invalid_room}
use game_server_client.Network.Rooms.{
  Job, enter, room_message_session, room_delete, room_message, Room, World, Contents, contains,
  insert, find_room, change, push, at_room, enter_session, handle_job, map_of, run_jobs,
  send_to_room_of, send_to_room_session,
}
use game_server_client.Network.Rooms.Places.{
  enters, places_in, places, enters-append, count-insert, places-change, find-change, change-none,
}

-- The jobs that the room of a number has still to do.
unfoldable pub working_of : List (ℕ × Room) → ℕ → Option (List Job)
working_of rs k = elim (find_room rs k) [ none ↦ none | some r ↦ some r.working_q ]

-- A session is in no more places, and the room has the same jobs to do.
abbrev pub Keeps : {C : Type 0} → ℕ → ℕ → World C → World C → Type 0
Keeps a k w w' =
    (places a w'.room_map ≤ places a w.room_map)
    × (working_of w'.room_map k ≡ working_of w.room_map k)

-- The contents of the room `k` do so, whatever they do besides.
pub record AreTame {C : Type 0} (c : Contents C) (a k : ℕ) : Type 0 where
  pub recv : (id : ℕ) (p : SerialRingBuffer) (w : World C) → Keeps a k w (c.on_recv k id p w)
  pub enters_room : (id param : ℕ) (w : World C) → Keeps a k w (c.on_enter_room k id param w)
  pub release : (id : ℕ) (w : World C) → Keeps a k w (c.on_session_release k id w)
  pub recv_to_room : (param : ℕ) (w : World C) → Keeps a k w (c.on_recv_to_room k param w)
  pub update : (w : World C) → Keeps a k w (c.on_update k w)

-- A change of a room that adds no places in it adds none at all.
pub change-le :
    (a : ℕ) (f : Room → Room) (d : ℕ) (rs : List (ℕ × Room)) (k : ℕ)
    → ((r : Room) → places_in a (f r) ≤ places_in a r + d)
    → places a (change f rs k) ≤ places a rs + d
change-le a f d rs k h = elim (Option-cases (find_room rs k)) [
  | inl missing ↦ rw (change-none f rs k missing) (omega arith)
  | inr (r, found) ↦ omega (arith, places-change a f rs k r found, h r)
]

-- A change of any room that leaves its jobs alone.
pub working-change :
    (f : Room → Room) (rs : List (ℕ × Room)) (j k : ℕ)
    → ((r : Room) → (f r).working_q ≡ r.working_q)
    → working_of (change f rs j) k ≡ working_of rs k
unfolding working_of change find_room
working-change f [] j k h = refl
working-change f ((i, r) ∷ rs) j k h = ground (arith, h r, working-change f rs j k h)

pub working_found :
    (rs : List (ℕ × Room)) (k : ℕ) (r : Room)
    → find_room rs k ≡ some r
    → working_of rs k ≡ some r.working_q
unfolding working_of
working_found rs k r e = rw (e, working_of) refl

pub working_none : (rs : List (ℕ × Room)) (k : ℕ) → find_room rs k ≡ none → working_of rs k ≡ none
unfolding working_of
working_none rs k e = rw (e, working_of) refl

absurd_of : {A : Type 0} {o : Option (List Job)} {js : List Job} → o ≡ none → o ≡ some js → A
absurd_of e f = absurd (let bad : ⊥ = cc in bad)

-- Taking the first job off.
pop-places :
    (a k : ℕ) (rs : List (ℕ × Room)) (job : Job) (jobs : List Job)
    → working_of rs k ≡ some (job ∷ jobs)
    → let rs' = change (λ r. record r { working_q = jobs }) rs k in
      (places a rs' + enters a (job ∷ []) ≡ places a rs) × (working_of rs' k ≡ some jobs)
unfolding places_in
pop-places a k rs job jobs h = elim (Option-cases (find_room rs k)) [
  | inl missing ↦ absurd_of (working_none rs k missing) h
  | inr (r, found) ↦
      let f : Room → Room = λ r. record r { working_q = jobs } in
      let q : r.working_q ≡ job ∷ jobs = cc (working_found rs k r found) in
      (
        omega (
          arith,
          places-change a f rs k r found,
          ap (enters a) q,
          enters-append a (job ∷ []) jobs,
        ),
        working_found (change f rs k) k (f r) (find-change f rs k r found),
      )
]

module _ {C : Type 0} (c : Contents C) (a k : ℕ) (tame : AreTame c a k) where
  push-Keeps :
      (w : World C) (j id param : ℕ)
      → Keeps a k w (at_room w j (push (room_message_session id param)))
  unfolding at_room push places_in enters
  push-Keeps w j id param =
      let job : Job = room_message_session id param in
      (
        omega (
          arith,
          change-le a (push job) 0 w.room_map j
              (λ r. omega (arith, enters-append a r.message_q (job ∷ []))),
        ),
        working-change (push job) w.room_map j k (λ r. refl),
      )

  send_of-Keeps : (w : World C) (id param j : ℕ) → Keeps a k w (send_to_room_of w id param j).0
  unfolding send_to_room_of
  send_of-Keeps w id param j = elim (Option-cases (find_room w.room_map j)) [
    | inl missing ↦ rw (missing, send_to_room_of) (omega arith, refl)
    | inr (r, found) ↦ rw (found, send_to_room_of) (push-Keeps w j id param)
  ]

  send-Keeps : (w : World C) (id param : ℕ) → Keeps a k w (send_to_room_session w id param).0
  unfolding send_to_room_session
  send-Keeps w id param =
      let no : ℕ = (get_room_no w.server id).1 in
      let w' : World C = record w { server = (get_room_no w.server id).0 } in
      elim (Bool-cases (no == invalid_room)) [
        | inl lost ↦ rw lost (omega arith, refl)
        | inr known ↦ rw known (send_of-Keeps w' id param no)
      ]

  -- A session that enters is in one place more.
  enter_session-le :
      (w : World C) (id param : ℕ)
      → (places a (enter_session c w k id param).room_map
          ≤ places a w.room_map + enters a (enter id param ∷ []))
        × (working_of (enter_session c w k id param).room_map k ≡ working_of w.room_map k)
  unfolding enter_session at_room enters places_in
  enter_session-le w id param =
      let f : Room → Room = λ r. record r { session_map = insert r.session_map id } in
      let d : ℕ = if id == a then 1 else 0 in
      let more : places a (change f w.room_map k) ≤ places a w.room_map + d =
        change-le a f d w.room_map k (λ r. omega (arith, count-insert a id r.session_map)) in
      let same : working_of (change f w.room_map k) k ≡ working_of w.room_map k =
        working-change f w.room_map k k (λ r. refl) in
      let (le, eq) = tame.enters_room id param _ in (omega (arith, le, more), eq ∙ same)

  handle-le :
      (w : World C) (ids : List ℕ) (job : Job)
      → (places a (handle_job c w k ids job).room_map ≤ places a w.room_map + enters a (job ∷ []))
        × (working_of (handle_job c w k ids job).room_map k ≡ working_of w.room_map k)
  unfolding handle_job enters
  handle-le w ids (enter id param) = enter_session-le w id param
  handle-le w ids room_delete = (omega arith, refl)
  handle-le w ids (room_message param) =
      let (le, eq) = tame.recv_to_room param w in (omega (arith, le), eq)
  handle-le w ids (room_message_session id param) = elim (Bool-cases (contains ids id)) [
    | inl here ↦ rw here (let (le, eq) = tame.recv_to_room param w in (omega (arith, le), eq))
    | inr gone ↦ rw gone (let (le, eq) = send-Keeps w id param in (omega (arith, le), eq))
  ]

  pub run_jobs-le :
      (jobs : List Job) (w : World C)
      → working_of w.room_map k ≡ some jobs
      → places a (run_jobs c w k jobs).room_map ≤ places a w.room_map
  unfolding run_jobs at_room
  run_jobs-le [] w h = omega arith
  run_jobs-le (job ∷ jobs) w h =
      let w1 : World C = at_room w k (λ r. record r { working_q = jobs }) in
      let (taken, left) = pop-places a k w.room_map job jobs h in
      let (le, same) = handle-le w1 (map_of c w1 k) job in
      omega
        (arith, run_jobs-le jobs (handle_job c w1 k (map_of c w1 k) job) (same ∙ left), le, taken)
