-- ===== src/Network/Stream.antt =====
-- NetworkMessageProc of CWanServerRoom2.cpp on the bytes that another end has sent.
use game_server_client.Base.{
  ◌*◌, dec_le, append-cancel, refl, zero, suc, some, append-nil, ℕ, ◌+◌, ◌≤◌, ◌<◌, ◌≡◌, List, [],
  ◌∷◌, ◌++◌, arith, ap, ap₂, ◌∙◌, sym, length, get_or, true, length-append, append_assoc,
}
use game_server_client.Buffer.{SerialRingBuffer, get_use_size, peek, move_front, dequeue}
use game_server_client.Buffer.Bounds.{IsValid, contents, length-contents}
use game_server_client.Buffer.Dequeue.{dequeue_exact, dequeue_refines, peek-move_front-dequeue}
use game_server_client.Network.Receive.{
  Inbox, again, stop, message_proc, message_free, message_round, take_packet, header_len,
  open_packet, seal, wire,
}
use game_server_client.Network.Wire.{
  IsBlank, IsUnsent, sent_header, sent_payload, length-sent, wire_lem, sent_code, sent_len,
  payload_fits, open_sent,
}

-- Where the header has been accepted, and its payload is all there, the payload is taken.
round_takes :
    (key code : ℕ) (blank : SerialRingBuffer) (s : Inbox) (header : List ℕ)
    → peek s.recv_q 5 ≡ header
    → 5 < get_use_size s.recv_q
    → get_or header 0 0 ≡ code
    → 0 < header_len header
    → header_len header ≤ 16378
    → 8 ≤ message_free s.message_q
    → header_len header + 5 ≤ get_use_size s.recv_q
    → message_round key code blank s ≡ take_packet key blank header s
unfolding message_round
round_takes key code blank s header e more c pos fits free there = rw e (ground arith)

-- Where the payload is dequeued and accepted, the packet goes to the queue.
payload_taken :
    (key : ℕ) (blank : SerialRingBuffer) (s : Inbox) (header payload : List ℕ)
    → (dequeue (move_front s.recv_q 5) (header_len header)).1 ≡ payload
    → length payload ≡ header_len header
    → (open_packet key blank header payload).1 ≡ true
    → take_packet key blank header s
      ≡ again (record s {
        recv_q = (dequeue (move_front s.recv_q 5) (header_len header)).0;
        message_q = s.message_q ++ (open_packet key blank header payload).0 ∷ [];
      })
unfolding take_packet
payload_taken key blank s header payload e n ok = rw (e, ok) (ground (arith, n))

-- A round that meets a sent packet at the front of what was received, with room in the message
-- queue, takes those bytes and no more, and queues a packet that holds the bytes that were sent.
pub round_accepts_sent :
    (key code rand : ℕ) (r blank : SerialRingBuffer) (s : Inbox) (rest : List ℕ)
    → IsUnsent r
    → code < 256
    → IsBlank blank
    → IsValid s.recv_q
    → 8 ≤ message_free s.message_q
    → contents s.recv_q ≡ wire (seal key code rand r) ++ rest
    → (q : SerialRingBuffer) × (p : SerialRingBuffer) × (message_round key code blank s
        ≡ again (record s { recv_q = q; message_q = s.message_q ++ p ∷ [] }))
      × IsValid q
      × (contents q ≡ rest)
      × (contents p ≡ contents r)
round_accepts_sent key code rand r blank s rest u small b v free e =
    let header : List ℕ = sent_header key code rand r u small in
    let payload : List ℕ = sent_payload key code rand r u small in
    let (hl, pl) = length-sent key code rand r u small in
    let len : header_len header ≡ get_use_size r = sent_len key code rand r u small in
    let (ok, held) = open_sent key code rand r u small blank b in
    let cut : contents s.recv_q ≡ header ++ (payload ++ rest) =
      e
      ∙ ap (λ w. w ++ rest) (wire_lem key code rand r u small)
      ∙ append_assoc header payload rest in
    let size : get_use_size s.recv_q ≡ 5 + get_use_size r + length rest = omega (
      arith,
      length-contents s.recv_q v,
      ap length cut,
      length-append header (payload ++ rest),
      length-append payload rest,
    ) in
    let front : dequeue s.recv_q 5 ≡ (move_front s.recv_q 5, peek s.recv_q 5) =
      peek-move_front-dequeue s.recv_q 5 v (omega arith) in
    let (v1, got1, left1) = dequeue_exact s.recv_q 5 header (payload ++ rest) v (sym hl) cut in
    let moved : (dequeue s.recv_q 5).0 ≡ move_front s.recv_q 5 = ap (λ x. x.0) front in
    let peeked : peek s.recv_q 5 ≡ header = sym (ap (λ x. x.1) front) ∙ got1 in
    let (v2, got2, left2) =
      dequeue_exact (move_front s.recv_q 5) (header_len header) payload rest (rw moved at v1)
        (len ∙ sym pl) (ap contents (sym moved) ∙ left1) in
    (
      (dequeue (move_front s.recv_q 5) (header_len header)).0,
      (open_packet key blank header payload).0,
      round_takes key code blank s header peeked (omega (arith, u.some_held))
            (sent_code key code rand r u small) (omega (arith, u.some_held))
            (omega (arith, payload_fits key code rand r u small)) free (omega arith)
          ∙ payload_taken key blank s header payload got2 (pl ∙ sym len) ok,
      v2,
      left2,
      held,
    )

-- A round that meets a part of a sent packet only leaves all as it is.
round_waits :
    (key code rand : ℕ) (r blank : SerialRingBuffer) (s : Inbox) (more : List ℕ)
    → IsUnsent r
    → code < 256
    → IsValid s.recv_q
    → 8 ≤ message_free s.message_q
    → contents s.recv_q ++ more ≡ wire (seal key code rand r)
    → 0 < length more
    → message_round key code blank s ≡ stop s
unfolding message_round
round_waits key code rand r blank s more u small v free e pos =
    elim (dec_le (get_use_size s.recv_q) 5) [
      | yes few ↦ ground arith
      | no some_more ↦
          let header : List ℕ = sent_header key code rand r u small in
          let payload : List ℕ = sent_payload key code rand r u small in
          let (hl, pl) = length-sent key code rand r u small in
          let len : header_len header ≡ get_use_size r = sent_len key code rand r u small in
          let front : dequeue s.recv_q 5 ≡ (move_front s.recv_q 5, peek s.recv_q 5) =
            peek-move_front-dequeue s.recv_q 5 v (omega arith) in
          let (v1, n1, c1) = dequeue_refines s.recv_q 5 v in
          let out : List ℕ = (dequeue s.recv_q 5).1 in
          let after : List ℕ = contents (dequeue s.recv_q 5).0 in
          let cut : out ++ (after ++ more) ≡ header ++ payload =
            sym (append_assoc out after more)
            ∙ ap (λ x. x ++ more) c1
            ∙ e
            ∙ wire_lem key code rand r u small in
          let (same, tail) = append-cancel out header (after ++ more) payload (omega arith) cut in
          let peeked : peek s.recv_q 5 ≡ header = sym (ap (λ x. x.1) front) ∙ same in
          let size : get_use_size s.recv_q + length more ≡ 5 + get_use_size r = omega (
            arith,
            length-contents s.recv_q v,
            ap length e,
            length-append (contents s.recv_q) more,
            ap length (wire_lem key code rand r u small),
            length-append header payload,
          ) in
          rw peeked (
            ground (
              arith,
              sent_code key code rand r u small,
              u.some_held,
              payload_fits key code rand r u small,
            ))
    ]

free_after :
    (q : List SerialRingBuffer) (p : SerialRingBuffer) (n : ℕ)
    → 8 * (suc n + 1) ≤ message_free q
    → 8 * (n + 1) ≤ message_free (q ++ p ∷ [])
unfolding message_free
free_after q p n h = omega (arith, length-append q (p ∷ []))

-- Packets with the random keys that they are sealed with.
abbrev pub Sent : Type 0
Sent = List (ℕ × SerialRingBuffer)

-- What SendMSG and SendPost give the socket of them, one after the other.
unfoldable pub stream : (key code : ℕ) → Sent → List ℕ
stream key code [] = []
stream key code ((rand, r) ∷ sent) = wire (seal key code rand r) ++ stream key code sent

abbrev pub AllUnsent : Sent → Type 0
AllUnsent [] = Unit
AllUnsent ((rand, r) ∷ sent) = IsUnsent r × AllUnsent sent

-- The payloads of packets, in order.
unfoldable pub payloads : List SerialRingBuffer → List (List ℕ)
payloads [] = []
payloads (r ∷ rs) = contents r ∷ payloads rs

unfoldable pub sent_payloads : Sent → List (List ℕ)
sent_payloads [] = []
sent_payloads ((rand, r) ∷ sent) = contents r ∷ sent_payloads sent

module _ (key code : ℕ) (alloc : ℕ → SerialRingBuffer) (fuel : ℕ) (s s' : Inbox) where
  pub proc_stops :
      message_round key code (alloc fuel) s ≡ stop s'
      → message_proc key code alloc (suc fuel) s ≡ some s'
  unfolding message_proc
  proc_stops e = rw (e, message_proc) refl

  pub proc_goes_on :
      message_round key code (alloc fuel) s ≡ again s'
      → message_proc key code alloc (suc fuel) s ≡ message_proc key code alloc fuel s'
  unfolding message_proc
  proc_goes_on e = rw (e, message_proc) refl

-- The loop on a valid queue that holds whole sent packets and then a part of one more, with room
-- for them and one more, queues one packet for each whole one, in order and with the bytes that were
-- sent, leaves the part for the next call, and does not disconnect. One round for each and one more
-- are enough.
pub message_proc_delivers :
    (key code : ℕ) (alloc : ℕ → SerialRingBuffer) (sent : Sent) (fuel rand : ℕ)
    (r : SerialRingBuffer) (part more : List ℕ) (s : Inbox)
    → ((i : ℕ) → IsBlank (alloc i))
    → AllUnsent sent
    → IsUnsent r
    → code < 256
    → part ++ more ≡ wire (seal key code rand r)
    → 0 < length more
    → IsValid s.recv_q
    → 8 * (length sent + 1) ≤ message_free s.message_q
    → contents s.recv_q ≡ stream key code sent ++ part
    → length sent < fuel
    → (q : SerialRingBuffer) × (ps : List SerialRingBuffer) × (message_proc key code alloc fuel s
        ≡ some (record s { recv_q = q; message_q = s.message_q ++ ps }))
      × IsValid q
      × (contents q ≡ part)
      × (payloads ps ≡ sent_payloads sent)
unfolding stream payloads sent_payloads
message_proc_delivers key code alloc sent zero rand r part more s blank us u small cut pos v free e
      h =
    absurd (omega arith)
message_proc_delivers key code alloc [] (suc fuel) rand r part more s blank us u small cut pos v
      free e h =
    (
      s.recv_q,
      [],
      proc_stops key code alloc fuel s s (
            round_waits key code rand r (alloc fuel) s more u small v (omega arith)
              (ap (λ x. x ++ more) e ∙ cut) pos)
          ∙ rw (append-nil s.message_q) refl,
      v,
      e,
      refl,
    )
message_proc_delivers key code alloc ((k, p) ∷ sent) (suc fuel) rand r part more s blank us u small
      cut pos v free e h =
    let (q, p', round, v', e', same) =
      round_accepts_sent key code k p (alloc fuel) s (stream key code sent ++ part) us.0 small
        (blank fuel) v (omega arith)
        (e ∙ append_assoc (wire (seal key code k p)) (stream key code sent) part) in
    let (q', ps, done, v'', e'', all) =
      message_proc_delivers key code alloc sent fuel rand r part more
        (record s { recv_q = q; message_q = s.message_q ++ p' ∷ [] }) blank us.1 u small cut pos v'
        (free_after s.message_q p' (length sent) free) e' (omega arith) in
    (
      q',
      p' ∷ ps,
      proc_goes_on key code alloc fuel s _ round
          ∙ (done ∙ rw (append_assoc s.message_q (p' ∷ []) ps) refl),
      v'',
      e'',
      ap₂ ◌∷◌ same all,
    )
