-- ===== src/Network/Sessions/Alloc.antt =====
-- A session's life from SessionAlloc to SessionFree (CWanServerRoom2.cpp), and lookups that disturb it.
use game_server_client.Base.{
  Bool-cases, inl, inr, ==_iff, ℕ, ◌+◌, ◌-◌, ◌^◌, ◌%◌, ◌<◌, ◌≡◌, ◌≢◌, refl, List, [], ◌∷◌, true,
  false, some, none, arith, ap, sym, ◌∙◌, length, add32, ◌==◌, if◌then◌else◌,
}
use game_server_client.Buffer.{clear}
use game_server_client.Network.Sessions.{
  Session, Server, unused, invalid_room, make_id, index_low, at, write, increment, session_alloc,
  session_unlock, session_find_and_lock, get_room_no,
}
use game_server_client.Network.Sessions.Locks.{
  at-write, write-at, unlock_counts, unlock_frees, session_find_and_lock_lem,
}

module _ (st : Server) (socket id i : ℕ) (rest : List ℕ) (top : st.session_index ≡ i ∷ rest)
    (inside : i < length st.sessions) (small : i < 2 ^ 32)
    (released : (at st i).io_count ≡ 2 ^ 16) where
  fresh : Session
  fresh = record (at st i) {
    socket = some socket;
    session_id = make_id id i;
    send_flag = 0;
    disconnect_flag = 0;
    send_buffer_count = 0;
    recv_q = clear (at st i).recv_q;
    send_q = [];
    room_no = invalid_room;
    suspend_recv = false;
    io_count = 1;
  }

  popped : Server
  popped = record st { session_index = rest }

  pub after_alloc : Server
  unfolding popped fresh
  after_alloc = write popped i fresh

  allocated : session_alloc st socket id ≡ some (after_alloc, i)
  unfolding session_alloc after_alloc popped fresh write make_id at clear
  allocated = let e : add32 (at st i).io_count 1 % 2 ^ 16 ≡ 1 = omega arith in rw (top, e) refl

  fresh_facts : (fresh.io_count ≡ 1) × (fresh.session_id ≡ make_id id i)
  unfolding fresh
  fresh_facts = (refl, refl)

  low : index_low (make_id id i) ≡ i
  unfolding make_id
  low = omega arith

  -- The session on the top of the stack, if it is released, is given out with one reference; when that
  -- is given back it is released again, without an id and its messages, and its index is on the
  -- top of the stack again.
  pub unlock-session_alloc :
      (session_alloc st socket id ≡ some (after_alloc, i))
      × ((at after_alloc i).io_count ≡ 1)
      × ((at after_alloc i).session_id ≡ make_id id i)
      × ((session_unlock after_alloc i).session_index ≡ st.session_index)
      × ((at (session_unlock after_alloc i) i).io_count ≡ 2 ^ 16)
      × ((at (session_unlock after_alloc i) i).session_id ≡ 0)
      × ((at (session_unlock after_alloc i) i).message_q ≡ [])
  unfolding after_alloc popped
  unlock-session_alloc =
      let gone : Session = record fresh {
        io_count = 2 ^ 16;
        session_id = 0;
        socket = none;
        message_q = [];
      } in
      let seen : at after_alloc i ≡ fresh = at-write popped i inside fresh in
      let (count, name) = fresh_facts in
      let freed : session_unlock after_alloc i
          ≡ record (write popped i gone) { session_index = index_low fresh.session_id ∷ rest } =
        unlock_frees popped i inside fresh count in
      let last : at (session_unlock after_alloc i) i ≡ gone =
        rw freed (unfold at in at-write popped i inside gone) in
      (
        allocated,
        ap (λ s. s.io_count) seen ∙ count,
        ap (λ s. s.session_id) seen ∙ name,
        ap (λ st. st.session_index) freed ∙ ap (λ k. k ∷ rest) (ap index_low name ∙ low) ∙ sym top,
        ap (λ s. s.io_count) last,
        ap (λ s. s.session_id) last,
        ap (λ s. s.message_q) last,
      )

-- The session after one of its references is given back.
at-unlock :
    (st : Server) (i : ℕ)
    → i < length st.sessions
    → (at st i).io_count < 2 ^ 32
    → 0 < (at st i).io_count
    → at (session_unlock st i) i ≡ (
        if (at st i).io_count == 1
        then record (at st i) { io_count = 2 ^ 16; session_id = 0; socket = none; message_q = [] }
        else record (at st i) { io_count = (at st i).io_count - 1 })
at-unlock st i inside small counted =
    let s : Session = at st i in
    let same : session_unlock st i ≡ session_unlock (write st i s) i =
      ap (λ x. session_unlock x i) (sym (write-at st i inside)) in
    elim (Bool-cases (s.io_count == 1)) [
      | inl one ↦
          let gone : Session = record s {
            io_count = 2 ^ 16;
            session_id = 0;
            socket = none;
            message_q = [];
          } in
          rw one (
            ap (λ x. at x i) (same ∙ unlock_frees st i inside s ((==_iff s.io_count 1).0 one))
            ∙ (unfold at in at-write st i inside gone))
      | inr more ↦ rw more (
          ap (λ x. at x i) (same ∙ unlock_counts st i inside s (ground arith) small)
          ∙ at-write st i inside (record s { io_count = s.io_count - 1 }))
    ]

module _ (st : Server) (session_id : ℕ) (inside : index_low session_id < length st.sessions)
    (counted : 0 < (at st (index_low session_id)).io_count)
    (small : (at st (index_low session_id)).io_count + 1 < 2 ^ 16) where
  -- GetRoomNo of the id of a live session answers its room, and leaves the server as it was.
  pub get_room_no_lem :
      session_id ≡ (at st (index_low session_id)).session_id
      → get_room_no st session_id ≡ (st, (at st (index_low session_id)).room_no)
  unfolding get_room_no
  get_room_no_lem same =
      let i : ℕ = index_low session_id in
      let one_more : Session = record (at st i) { io_count = (at st i).io_count + 1 } in
      let (locked, back) = session_find_and_lock_lem st session_id inside counted (omega arith) in
      let found : session_find_and_lock st session_id ≡ (write st i one_more, true) =
        locked ∙ ground arith in
      rw (found, back, at-write st i inside one_more) refl

  -- GetRoomNo of an id that the session at its index no longer has takes a reference from that
  -- session and gives it none: the last one frees the session.
  pub get_room_no_stale :
      session_id ≢ (at st (index_low session_id)).session_id
      → let s = at st (index_low session_id) in
        let s' = at (get_room_no st session_id).0 (index_low session_id) in
        ((get_room_no st session_id).1 ≡ invalid_room)
        × (s'.io_count ≡ (if s.io_count == 1 then 2 ^ 16 else s.io_count - 1))
        × (s'.session_id ≡ (if s.io_count == 1 then 0 else s.session_id))
  unfolding get_room_no
  get_room_no_stale other =
      let i : ℕ = index_low session_id in
      let s : Session = at st i in
      let (locked, back) = session_find_and_lock_lem st session_id inside counted (omega arith) in
      let refused : session_find_and_lock st session_id ≡ (st, false) = locked ∙ ground arith in
      let after : at (session_unlock st i) i ≡ (
          if s.io_count == 1
          then record s { io_count = 2 ^ 16; session_id = 0; socket = none; message_q = [] }
          else record s { io_count = s.io_count - 1 }) =
        at-unlock st i inside (omega arith) counted in
      rw (refused, after) (ground arith)

-- A lookup, by any id but 0, of a session that was never given out puts the index 0 on the stack
-- once more.
pub unused_lookup :
    (st : Server) (session_id : ℕ)
    → index_low session_id < length st.sessions
    → session_id ≢ 0
    → at st (index_low session_id) ≡ unused
    → ((session_find_and_lock st session_id).1 ≡ false)
      × ((session_find_and_lock st session_id).0.session_index ≡ 0 ∷ st.session_index)
unfolding session_find_and_lock increment
unused_lookup st session_id inside some_id fresh =
    let i : ℕ = index_low session_id in
    let one : Session = record unused { io_count = 1 } in
    let differs : (session_id == 0) ≡ false = ground arith in
    rw (fresh, at-write st i inside one, differs, unlock_frees st i inside one refl) (refl, refl)
