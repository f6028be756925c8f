-- ===== src/Network/Sessions/Refused.antt =====
-- The ids that SendMSG and Disconnect refuse, and the queue that is full (CWanServerRoom2.cpp).
use game_server_client.Base.{
  ap, sym, length-set, Bool-cases, ==_iff, ℕ, ◌+◌, ◌-◌, ◌^◌, ◌<◌, ◌≡◌, ◌≢◌, ◌⊎◌, inl, inr, refl,
  true, false, Bool, none, arith, ◌∙◌, length, ◌==◌, if◌then◌else◌,
}
use game_server_client.Buffer.{SerialRingBuffer}
use game_server_client.Network.Receive.{message_free}
use game_server_client.Network.Sessions.{
  Session, Server, index_low, at, write, session_unlock, session_find_and_lock, send_msg,
  disconnect, raise_disconnect,
}
use game_server_client.Network.Sessions.Locks.{
  at-write, write-write, unlock_counts, session_find_and_lock_lem,
}

module _ (st : Server) (session_id : ℕ) (inside : index_low session_id < length st.sessions)
    (counted : 0 < (at st (index_low session_id)).io_count)
    (small : (at st (index_low session_id)).io_count + 2 < 2 ^ 16) where
  i : ℕ
  i = index_low session_id

  s : Session
  s = at st i

  one_more : Session
  one_more = record s { io_count = s.io_count + 1 }

  locked :
      session_id ≡ s.session_id
      → (session_find_and_lock st session_id ≡ (write st i one_more, true))
        × (session_unlock (write st i one_more) i ≡ st)
  unfolding i s one_more
  locked same =
      let (found, back) = session_find_and_lock_lem st session_id inside counted (omega arith) in
      (found ∙ ground arith, back)

  -- Disconnect of an id raises the flag of the live session that has this id, and that alone; any other id is
  -- refused and nothing changes.
  pub disconnect_lem : disconnect st session_id ≡ (
      if session_id == (at st (index_low session_id)).session_id
      then (raise_disconnect st (index_low session_id), true)
      else (st, false))
  unfolding disconnect raise_disconnect i s one_more
  disconnect_lem = elim (Bool-cases (session_id == s.session_id)) [
    | inl same ↦
        let (found, back) = locked ((==_iff session_id s.session_id).0 same) in
        let raised : Session = record one_more { disconnect_flag = 1 } in
        let e : s.io_count + 1 - 1 ≡ s.io_count = omega arith in
        rw (same, found, at-write st i inside one_more, write-write st i inside one_more raised)
          (rw (unlock_counts st i inside raised (omega arith) (omega arith), e) refl)
    | inr other ↦
        let (found, back) = session_find_and_lock_lem st session_id inside counted (omega arith) in
        let refused : session_find_and_lock st session_id ≡ (st, false) = found ∙ ground arith in
        rw (other, refused) refl
  ]

  -- SendMSG to a live session under another id, or once it is disconnected, answers false, sends
  -- nothing and changes nothing.
  pub send_msg_refused :
      (key code rand : ℕ) (packet : SerialRingBuffer) (pending : Bool)
      → (session_id ≢ (at st (index_low session_id)).session_id)
        ⊎ ((at st (index_low session_id)).disconnect_flag ≡ 1)
      → send_msg key code rand st session_id packet pending ≡ (st, false, none)
  unfolding send_msg i s one_more
  send_msg_refused key code rand packet pending why =
      elim (Bool-cases (session_id == s.session_id)) [
        | inl same ↦
            let (found, back) = locked ((==_iff session_id s.session_id).0 same) in
            rw (found, at-write st i inside one_more, back) (ground arith)
        | inr other ↦
            let (found, back) =
              session_find_and_lock_lem st session_id inside counted (omega arith) in
            let refused : session_find_and_lock st session_id ≡ (st, false) =
              found ∙ ground arith in
            rw refused refl
      ]

length-write :
    (st : Server) (i : ℕ) (s : Session) → length (write st i s).sessions ≡ length st.sessions
unfolding write
length-write st i s = length-set st.sessions i s

-- SendMSG by the id of a live session whose queue is full, and that is not disconnected, answers
-- false, sends nothing, and disconnects the session.
pub send_msg_full :
    (st : Server) (session_id key code rand : ℕ) (packet : SerialRingBuffer) (pending : Bool)
    → index_low session_id < length st.sessions
    → 0 < (at st (index_low session_id)).io_count
    → (at st (index_low session_id)).io_count + 3 < 2 ^ 16
    → session_id ≡ (at st (index_low session_id)).session_id
    → (at st (index_low session_id)).disconnect_flag ≢ 1
    → message_free (at st (index_low session_id)).send_q < 8
    → send_msg key code rand st session_id packet pending
      ≡ (raise_disconnect st (index_low session_id), false, none)
unfolding send_msg raise_disconnect i s one_more
send_msg_full st session_id key code rand packet pending inside counted small same connected full =
    let j : ℕ = index_low session_id in
    let t : Session = at st j in
    let more : Session = record t { io_count = t.io_count + 1 } in
    let raised : Session = record more { disconnect_flag = 1 } in
    let seen : at (write st j more) j ≡ more = at-write st j inside more in
    let (found, back) = locked st session_id inside counted (omega arith) same in
    let word : (at (write st j more) j).io_count ≡ t.io_count + 1 = ap (λ x. x.io_count) seen in
    let name : session_id ≡ (at (write st j more) j).session_id =
      same ∙ sym (ap (λ x. x.session_id) seen) in
    let inner : disconnect (write st j more) session_id ≡ (write st j raised, true) =
      disconnect_lem (write st j more) session_id (omega (arith, length-write st j more))
        (omega arith) (omega arith)
      ∙ rw ((==_iff session_id (at (write st j more) j).session_id).1 name)
          (rw (seen, write-write st j inside more raised) refl) in
    let e : t.io_count + 1 - 1 ≡ t.io_count = omega arith in
    let left : session_unlock (write st j raised) j
        ≡ write st j (record t { disconnect_flag = 1 }) =
      unlock_counts st j inside raised (omega arith) (omega arith) ∙ rw e refl in
    let own : disconnect (write st j more) t.session_id ≡ (write st j raised, true) =
      ap (λ x. disconnect (write st j more) x) (sym same) ∙ inner in
    rw (found, seen, own, left) (ground arith)
