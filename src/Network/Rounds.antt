-- ===== src/Network/Rounds.antt =====
-- The loop of NetworkMessageProc (CWanServerRoom2.cpp) ends, whatever the bytes are.
use game_server_client.Base.{
  if◌then◌else◌, ltb, leb, ◌==◌, Bool-cases, get_or, Bool, true, false, ℕ, zero, suc, ◌+◌, ◌-◌, ◌≤◌,
  ◌<◌, ◌≡◌, inl, inr, List, [], ◌++◌, arith, ap, ◌∙◌, sym, refl, length, Option, some, none,
  length-append, append_assoc, ==_iff,
}
use game_server_client.Buffer.{SerialRingBuffer, get_use_size, peek, move_front, dequeue}
use game_server_client.Buffer.Bounds.{IsValid, contents, length-contents}
use game_server_client.Buffer.Dequeue.{dequeue_refines, peek-move_front-dequeue}
use game_server_client.Network.Receive.{
  Inbox, Round, again, stop, crash, message_free, message_round, message_proc, take_packet,
  header_len, open_packet,
}
use game_server_client.Network.Stream.{proc_goes_on, proc_stops}

-- What a round may do to a queue: it stays valid, bytes go from its front only, and some do if the
-- round goes on. A round does not crash.
abbrev Progress : Inbox → Round → Type 0
Progress s (again s') =
    IsValid s'.recv_q
    × ((taken : List ℕ) × (contents s.recv_q ≡ taken ++ contents s'.recv_q) × (5 < length taken))
Progress s (stop s') =
    IsValid s'.recv_q × ((taken : List ℕ) × (contents s.recv_q ≡ taken ++ contents s'.recv_q))
Progress s crash = ⊥

module _ (key : ℕ) (blank : SerialRingBuffer) (s : Inbox) (header : List ℕ) (v : IsValid s.recv_q)
    (pos : 0 < header_len header) (there : header_len header + 5 ≤ get_use_size s.recv_q) where
  got : SerialRingBuffer × List ℕ
  got = dequeue (move_front s.recv_q 5) (header_len header)

  got_facts :
      IsValid got.0
      × (length got.1 ≡ header_len header)
      × ((bytes : List ℕ) × (contents s.recv_q ≡ bytes ++ contents got.0) × (5 < length bytes))
  unfolding got
  got_facts =
      let front : dequeue s.recv_q 5 ≡ (move_front s.recv_q 5, peek s.recv_q 5) =
        peek-move_front-dequeue s.recv_q 5 v (omega arith) in
      let moved : (dequeue s.recv_q 5).0 ≡ move_front s.recv_q 5 = ap (λ x. x.0) front in
      let (v1, n1, c1) = dequeue_refines s.recv_q 5 v in
      let v1' : IsValid (move_front s.recv_q 5) = rw moved at v1 in
      let c1' : (dequeue s.recv_q 5).1 ++ contents (move_front s.recv_q 5) ≡ contents s.recv_q =
        ap (λ q. (dequeue s.recv_q 5).1 ++ contents q) (sym moved) ∙ c1 in
      let (v2, n2, c2) = dequeue_refines (move_front s.recv_q 5) (header_len header) v1' in
      let all : get_use_size s.recv_q ≡ 5 + get_use_size (move_front s.recv_q 5) = omega (
        arith,
        ap length c1',
        length-append (dequeue s.recv_q 5).1 (contents (move_front s.recv_q 5)),
        length-contents s.recv_q v,
        length-contents (move_front s.recv_q 5) v1',
      ) in
      (
        v2,
        omega arith,
        (
          (dequeue s.recv_q 5).1 ++ got.1,
          sym (
              append_assoc (dequeue s.recv_q 5).1 got.1 (contents got.0)
              ∙ ap (λ c. (dequeue s.recv_q 5).1 ++ c) c2
              ∙ c1'),
          omega (arith, length-append (dequeue s.recv_q 5).1 got.1),
        ),
      )

  take_packet-Progress : Progress s (take_packet key blank header s)
  unfolding take_packet got
  take_packet-Progress =
      let (v', n, (bytes, e, more)) = got_facts in
      rw ((==_iff (length got.1) (header_len header)).1 n)
        (elim (Bool-cases (open_packet key blank header got.1).1) [
          | inl good ↦ rw good (v', (bytes, e, more))
          | inr bad ↦ rw bad (v', (bytes, e))
        ])

Progress-if :
    (s : Inbox) (b : Bool) (x y : Round)
    → (b ≡ true → Progress s x)
    → (b ≡ false → Progress s y)
    → Progress s (if b then x else y)
Progress-if s true x y f g = f refl
Progress-if s false x y f g = g refl

round-Progress :
    (key code : ℕ) (blank : SerialRingBuffer) (s : Inbox)
    → IsValid s.recv_q
    → Progress s (message_round key code blank s)
unfolding message_round
round-Progress key code blank s v =
    let header : List ℕ = peek s.recv_q 5 in
    Progress-if s (leb (get_use_size s.recv_q) 5) _ _ (λ few. (v, ([], refl)))
      (λ more.
        Progress-if s (get_or header 0 0 == code) _ _
          (λ mine.
            Progress-if s (ltb 16378 (header_len header)) _ _ (λ large. (v, ([], refl)))
              (λ fits.
                Progress-if s (header_len header == 0) _ _ (λ void. (v, ([], refl)))
                  (λ some_payload.
                    Progress-if s (ltb (message_free s.message_q) 8) _ _ (λ full. (v, ([], refl)))
                      (λ free.
                        Progress-if s (leb (header_len header) (get_use_size s.recv_q - 5)) _ _
                          (λ there.
                            take_packet-Progress key blank s header v (ground arith) (ground arith))
                          (λ part. (v, ([], refl)))))))
          (λ foreign. (v, ([], refl))))

-- The result of the loop: there is one, and it keeps all but some of the oldest bytes.
abbrev pub Ended : Inbox → Option Inbox → Type 0
Ended s none = ⊥
Ended s (some s') =
    IsValid s'.recv_q × ((taken : List ℕ) × (contents s.recv_q ≡ taken ++ contents s'.recv_q))

Ended-after :
    (s s' : Inbox) (o : Option Inbox) (taken : List ℕ)
    → contents s.recv_q ≡ taken ++ contents s'.recv_q
    → Ended s' o
    → Ended s o
Ended-after s s' none taken e ended = ended
Ended-after s s' (some s'') taken e (v, (more, f)) = (
  v,
  (taken ++ more, e ∙ ap (◌++◌ taken) f ∙ sym (append_assoc taken more (contents s''.recv_q))),
)

module _ (key code : ℕ) (alloc : ℕ → SerialRingBuffer) where
  after_round :
      (fuel : ℕ) (s : Inbox) (round : Round)
      → ((s' : Inbox)
          → IsValid s'.recv_q
          → get_use_size s'.recv_q < fuel
          → Ended s' (message_proc key code alloc fuel s'))
      → message_round key code (alloc fuel) s ≡ round
      → Progress s round
      → IsValid s.recv_q
      → get_use_size s.recv_q < suc fuel
      → Ended s (message_proc key code alloc (suc fuel) s)
  after_round fuel s (again s') rest e (v', (taken, f, many)) v h =
      rw (proc_goes_on key code alloc fuel s s' e) (
        Ended-after s s' (message_proc key code alloc fuel s') taken f (
          rest s' v' (
            omega (
              arith,
              ap length f,
              length-append taken (contents s'.recv_q),
              length-contents s.recv_q v,
              length-contents s'.recv_q v',
            ))))
  after_round fuel s (stop s') rest e p v h = rw (proc_stops key code alloc fuel s s' e) p
  after_round fuel s crash rest e p v h = absurd p

  -- With more rounds than the bytes in a valid queue the loop ends without a crash, whatever the
  -- bytes are, and leaves a valid queue that has lost bytes from its front only.
  pub message_proc_ends :
      (fuel : ℕ) (s : Inbox)
      → IsValid s.recv_q
      → get_use_size s.recv_q < fuel
      → Ended s (message_proc key code alloc fuel s)
  message_proc_ends zero s v h = absurd (omega arith)
  message_proc_ends (suc fuel) s v h =
      after_round fuel s (message_round key code (alloc fuel) s) (message_proc_ends fuel) refl
        (round-Progress key code (alloc fuel) s v) v h
