-- ===== src/Network/Sessions/Sends.antt =====
-- What SendMSG and SendMSG_PQCS do to a session, and a completed WSASend after them
-- (CWanServerRoom2.cpp).
use game_server_client.Base.{
  ℕ, ◌+◌, ◌-◌, ◌^◌, ◌≤◌, ◌<◌, ◌≡◌, ◌≢◌, refl, List, [], ◌∷◌, ◌++◌, true, false, Bool, some, none,
  arith, ap, sym, ◌∙◌, length, map, add32, ◌==◌, drop, length-append, drop_all,
}
use game_server_client.Buffer.{SerialRingBuffer}
use game_server_client.Network.Receive.{message_free, seal, wire}
use game_server_client.Network.Sessions.{
  Session, Server, index_low, at, write, increment, session_unlock, session_find_and_lock,
  send_post, send_msg, send_msg_pqcs, send_posted, send_completed,
}
use game_server_client.Network.Sessions.Locks.{
  at-write, write-write, unlock_counts, session_find_and_lock_lem,
}

module _ (st : Server) (session_id : ℕ) (inside : index_low session_id < length st.sessions)
    (counted : 0 < (at st (index_low session_id)).io_count)
    (small : (at st (index_low session_id)).io_count + 1 < 2 ^ 16)
    (same : session_id ≡ (at st (index_low session_id)).session_id) where
  i : ℕ
  i = index_low session_id

  s : Session
  s = at st i

  one_more : Session
  one_more = record s { io_count = s.io_count + 1 }

  locked :
      (session_find_and_lock st session_id ≡ (write st i one_more, true))
      × (session_unlock (write st i one_more) i ≡ st)
  unfolding i s one_more
  locked =
      let (found, back) = session_find_and_lock_lem st session_id inside counted (omega arith) in
      (found ∙ ground arith, back)

  module _ (key code rand : ℕ) (packet : SerialRingBuffer) where
    -- The session with the packet in its queue, and one reference more.
    queued : Session
    queued = record one_more { send_q = s.send_q ++ seal key code rand packet ∷ [] }

    -- Where SendMSG has queued the packet, the rest is SendPost and SessionUnLock.
    sends :
        (pending : Bool)
        → s.disconnect_flag ≢ 1
        → 8 ≤ message_free s.send_q
        → send_msg key code rand st session_id packet pending ≡ (
          session_unlock (send_post (write st i queued) i pending).0 i,
          true,
          (send_post (write st i queued) i pending).1,
        )
    unfolding send_msg i s one_more queued
    sends pending d f =
        let (found, back) = locked in
        rw (found, at-write st i inside one_more, write-write st i inside one_more queued)
          (ground arith)

    -- A session that is not sending, and where SendMSG queues the packet.
    module _ (connected : (at st (index_low session_id)).disconnect_flag ≢ 1)
        (free : 8 ≤ message_free (at st (index_low session_id)).send_q)
        (quiet : (at st (index_low session_id)).send_flag ≡ 0) where
      sending : Session
      sending = record queued {
        send_flag = 1;
        send_buffer_count = length s.send_q + 1;
        io_count = s.io_count + 2;
      }

      -- SendPost takes another reference, and gives the queue to the socket.
      posts :
          send_post (write st i queued) i true
          ≡ (write st i sending, some (map wire (s.send_q ++ seal key code rand packet ∷ [])))
      unfolding send_post increment sending queued one_more s i
      posts =
          let n : length (s.send_q ++ seal key code rand packet ∷ []) ≡ length s.send_q + 1 =
            length-append s.send_q (seal key code rand packet ∷ []) in
          let t : Session = record queued {
            send_flag = 1;
            send_buffer_count = length s.send_q + 1;
          } in
          let e : add32 (s.io_count + 1) 1 ≡ s.io_count + 2 = omega arith in
          let idle : (s.send_flag == 1) ≡ false = ground arith in
          let some_queued : (length s.send_q + 1 == 0) ≡ false = ground arith in
          rw (at-write st i inside queued, n, idle, some_queued, write-write st i inside queued t)
            (rw (at-write st i inside t, e, write-write st i inside t sending) refl)

      after_send : Session
      after_send = record sending { io_count = s.io_count + 1 }

      sent : send_msg key code rand st session_id packet true ≡ (
        write st i after_send,
        true,
        some (map wire (s.send_q ++ seal key code rand packet ∷ [])),
      )
      unfolding after_send sending i s
      sent =
          let e : s.io_count + 2 - 1 ≡ s.io_count + 1 = omega arith in
          rw
            (
              sends true connected free,
              posts,
              unlock_counts st i inside sending (omega arith) (omega arith),
              e,
            )
            refl

      -- SendMSG by the id of a live session that is not disconnected, is not sending, and has room in
      -- its queue gives the socket what is queued with the packet last; the completion of that
      -- leaves the session as it was, with nothing queued.
      pub send_completed-send_msg :
          (pending : Bool)
          → ((send_msg key code rand st session_id packet true).1 ≡ true)
            × ((send_msg key code rand st session_id packet true).2
                ≡ some (
                    map wire
                      ((at st (index_low session_id)).send_q ++ seal key code rand packet ∷ [])))
            × (send_completed
                  (send_msg key code rand st session_id packet true).0
                  (index_low session_id)
                  pending
                ≡ (
                  write st (index_low session_id) (record (at st (index_low session_id)) {
                    send_q = [];
                    send_buffer_count = 0;
                    send_flag = 0;
                  }),
                  none,
                ))
      unfolding send_completed after_send sending queued one_more s i
      send_completed-send_msg pending =
          let q : List SerialRingBuffer = s.send_q ++ seal key code rand packet ∷ [] in
          let gone : drop (length s.send_q + 1) q ≡ [] =
            drop_all (length s.send_q + 1) q
              (omega (arith, length-append s.send_q (seal key code rand packet ∷ []))) in
          let done : Session = record after_send {
            send_q = [];
            send_buffer_count = 0;
            send_flag = 0;
          } in
          let e : s.io_count + 1 - 1 ≡ s.io_count = omega arith in
          (
            ap (λ x. x.1) sent,
            ap (λ x. x.2) sent,
            rw
                (
                  sent,
                  at-write st i inside after_send,
                  gone,
                  write-write st i inside after_send done,
                  unlock_counts st i inside done (omega arith) (omega arith),
                  e,
                )
                refl,
          )

      pqcs_posts :
          send_msg_pqcs key code rand st session_id packet ≡ (write st i queued, true, true)
      unfolding send_msg_pqcs queued one_more s i
      pqcs_posts =
          let t : Session = record queued { send_flag = 0 } in
          let idle : t ≡ queued = ap (λ f. record queued { send_flag = f }) (sym quiet) in
          let n : length (s.send_q ++ seal key code rand packet ∷ []) ≡ length s.send_q + 1 =
            length-append s.send_q (seal key code rand packet ∷ []) in
          let (found, back) = locked in
          rw (found, at-write st i inside one_more, write-write st i inside one_more queued)
            (rw (at-write st i inside queued, n, write-write st i inside queued t, idle)
              (ground arith))

      -- SendMSG_PQCS to such a session answers as SendMSG does, and the SEND_POST that it posts does
      -- the rest: it ends with the same server, and gives the socket the same.
      pub send_posted-send_msg_pqcs :
          (pending : Bool)
          → let (st', answer, posted) = send_msg_pqcs key code rand st session_id packet in
            let (st'', answer', out) = send_msg key code rand st session_id packet pending in
            (answer ≡ answer')
            × (posted ≡ true)
            × (send_posted st' (index_low session_id) pending ≡ (st'', out))
      unfolding send_posted i s
      send_posted-send_msg_pqcs pending =
          rw (pqcs_posts, sends pending connected free) (refl, refl, refl)
