-- ===== src/Network/Sessions/Locks.antt =====
-- References to the sessions of CWanServerRoom2.cpp: who gets one, and what giving it back does.
use game_server_client.Base.{
  [], ◌∷◌, none, ap, ltb, ◌&&◌, ℕ, ◌+◌, ◌-◌, ◌^◌, ◌<◌, ◌≡◌, refl, true, false, arith, ◌∙◌, length,
  add32, sub32, ◌==◌, if◌then◌else◌, get_or-set_self, set-set, set-get_or,
}
use game_server_client.Network.Sessions.{
  make_id, unused, Session, Server, unused, make_id, id_high, index_low, at, write, increment,
  session_free, session_release, session_unlock, session_find_and_lock,
}

-- An id names the counter and the index that it was made of, below 2 ^ 32.
pub make_id_parts :
    (id index : ℕ)
    → id < 2 ^ 32
    → index < 2 ^ 32
    → (id_high (make_id id index) ≡ id) × (index_low (make_id id index) ≡ index)
unfolding make_id
make_id_parts id index h k = omega arith

module _ (st : Server) (i : ℕ) (inside : i < length st.sessions) where
  pub at-write : (s : Session) → at (write st i s) i ≡ s
  unfolding at write
  at-write s = get_or-set_self st.sessions i s unused inside

  pub write-write : (s t : Session) → write (write st i s) i t ≡ write st i t
  unfolding write
  write-write s t = ap (λ l. record st { sessions = l }) (set-set st.sessions i s t)

  pub write-at : write st i (at st i) ≡ st
  unfolding at write
  write-at = ap (λ l. record st { sessions = l }) (set-get_or st.sessions i unused inside)

  pub index-write : (s : Session) → (write st i s).session_index ≡ st.session_index
  unfolding write
  index-write s = refl

  -- Giving back a reference that is not the last one.
  pub unlock_counts :
      (s : Session)
      → 1 < s.io_count
      → s.io_count < 2 ^ 32
      → session_unlock (write st i s) i ≡ write st i (record s { io_count = s.io_count - 1 })
  unfolding session_unlock
  unlock_counts s h k =
      let e : sub32 s.io_count 1 ≡ s.io_count - 1 = omega arith in
      let last : (s.io_count - 1 == 0) ≡ false = ground arith in
      rw
        (
          at-write s,
          write-write s (record s { io_count = sub32 s.io_count 1 }),
          e,
          at-write (record s { io_count = s.io_count - 1 }),
          last,
        )
        refl

  -- Giving back the last one.
  pub unlock_frees :
      (s : Session)
      → s.io_count ≡ 1
      → session_unlock (write st i s) i
        ≡ record (write st i
            (record s { io_count = 2 ^ 16; session_id = 0; socket = none; message_q = [] })) {
              session_index = index_low s.session_id ∷ st.session_index;
            }
  unfolding session_unlock session_release session_free
  unlock_frees s h =
      let e : sub32 s.io_count 1 ≡ 0 = omega arith in
      let t : Session = record s { io_count = 0 } in
      let u : Session = record t { io_count = 2 ^ 16 } in
      rw (at-write s, write-write s (record s { io_count = sub32 s.io_count 1 }), e, at-write t)
        (rw
          (
            write-write t u,
            at-write u,
            write-write u (record u { session_id = 0; socket = none; message_q = [] }),
            index-write u,
          )
          refl)

-- A session with references, and not released.
abbrev pub IsLive : Session → Type 0
IsLive s = (0 < s.io_count) × (s.io_count + 1 < 2 ^ 16)

module _ (st : Server) (session_id : ℕ) (inside : index_low session_id < length st.sessions) where
  i : ℕ
  i = index_low session_id

  s : Session
  s = at st i

  one_more : Session
  one_more = record s { io_count = s.io_count + 1 }

  counted_in : s.io_count + 1 < 2 ^ 32 → increment st i ≡ write st i one_more
  unfolding increment one_more s
  counted_in h = let e : add32 s.io_count 1 ≡ s.io_count + 1 = omega arith in rw e refl

  -- Who takes a reference and gives it back leaves the server as it was.
  taken_back :
      0 < s.io_count → s.io_count + 1 < 2 ^ 32 → session_unlock (write st i one_more) i ≡ st
  unfolding one_more s i
  taken_back h k =
      let e : s.io_count + 1 - 1 ≡ s.io_count = omega arith in
      unlock_counts st i inside one_more (omega arith) (omega arith) ∙ rw e (write-at st i inside)

  -- SessionFindAndLock of a session with references, where IOCount is below 2 ^ 17, answers true
  -- exactly if the session is not released and has this id. Then it has one reference more, which
  -- SessionUnLock takes back; else the server is as it was.
  pub session_find_and_lock_lem :
      0 < (at st (index_low session_id)).io_count
      → (at st (index_low session_id)).io_count + 1 < 2 ^ 17
      → let s = at st (index_low session_id) in
        let st' = write st (index_low session_id) (record s { io_count = s.io_count + 1 }) in
        (session_find_and_lock st session_id ≡ (
          if ltb (s.io_count + 1) (2 ^ 16) && (session_id == s.session_id)
          then (st', true)
          else (st, false)))
        × (session_unlock st' (index_low session_id) ≡ st)
  unfolding session_find_and_lock i one_more s
  session_find_and_lock_lem h k =
      let back : session_unlock (write st i one_more) i ≡ st = taken_back h (omega arith) in
      (rw (counted_in (omega arith), at-write st i inside one_more, back) (ground arith), back)
