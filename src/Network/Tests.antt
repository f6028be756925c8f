-- ===== src/Network/Tests.antt =====
-- The network of the game server on concrete packets.
use game_server_client.Base.{
  ℕ, zero, suc, ◌≤◌, ◌<◌, ◌≡◌, refl, List, [], ◌∷◌, ◌++◌, arith, length, set, take, drop, replicate,
  length-set, length-replicate, length-append, length-drop, length-take, take-append-drop, ap, sym,
  ◌∙◌, some, false, append-nil,
}
use game_server_client.Buffer.{SerialRingBuffer, create, enqueue, get_use_size}
use game_server_client.Buffer.Bounds.{IsValid, contents, create-IsValid, length-contents}
use game_server_client.Buffer.Cipher.{IsBytes, set-IsBytes}
use game_server_client.Buffer.Enqueue.{enqueue_all}
use game_server_client.Network.Receive.{Inbox, message_proc, message_free, seal, wire}
use game_server_client.Network.Wire.{IsBlank, IsUnsent, length-wire}
use game_server_client.Network.Rounds.{Ended, message_proc_ends}
use game_server_client.Network.Stream.{stream, payloads, sent_payloads, message_proc_delivers}

abbrev blank : SerialRingBuffer
blank = record {
  mem = replicate 16384 0;
  front = 5;
  rear = 5;
  buffer_total_size = 16378;
  header_flag = 0;
  encode_flag = 0;
}

blank-IsBlank : IsBlank blank
blank-IsBlank = record {
  valid = record {
    storage = length-replicate {A = ℕ} 16384 0;
    front_lo = omega arith;
    front_hi = omega arith;
    rear_lo = omega arith;
    rear_hi = omega arith;
  };
  total = refl;
  at = refl;
  end = refl;
  no_header = refl;
}

-- A packet of one byte.
abbrev note : SerialRingBuffer
note = record blank { mem = set blank.mem 5 200; rear = 6 }

zeros-IsBytes : (n : ℕ) → IsBytes (replicate n 0)
zeros-IsBytes zero i = omega arith
zeros-IsBytes (suc n) zero = omega arith
zeros-IsBytes (suc n) (suc i) = zeros-IsBytes n i

note-IsUnsent : IsUnsent note
unfolding get_use_size
note-IsUnsent = record {
  valid = record {
    storage = length-set blank.mem 5 200 ∙ blank-IsBlank.valid.storage;
    front_lo = omega arith;
    front_hi = omega arith;
    rear_lo = omega arith;
    rear_hi = omega arith;
  };
  bytes = set-IsBytes blank.mem 5 200 (zeros-IsBytes 16384) (omega arith);
  total = refl;
  at = refl;
  some_held = omega arith;
  no_header = refl;
  no_cipher = refl;
}

-- The note as it is sent under key 50, code 119 and a random key.
sent_note : ℕ → List ℕ
sent_note rand = wire (seal 50 119 rand note)

length-sent_note : (rand : ℕ) → length (sent_note rand) ≡ 6
unfolding sent_note get_use_size
length-sent_note rand = length-wire 50 119 rand note note-IsUnsent (omega arith)

-- The note, and three bytes of it once more.
note_and_part : List ℕ
note_and_part = sent_note 7 ++ take 3 (sent_note 9)

length-note_and_part : length note_and_part ≡ 9
unfolding note_and_part
length-note_and_part = omega (
  arith,
  length-append (sent_note 7) (take 3 (sent_note 9)),
  length-sent_note 7,
  length-sent_note 9,
  length-take 3 (sent_note 9),
)

-- A session that has received these bytes.
inbox : Inbox
unfolding note_and_part
inbox = record {
  recv_q = (enqueue (create 6400) note_and_part 9).0;
  message_q = [];
  disconnected = false;
}

inbox_facts : IsValid inbox.recv_q × (contents inbox.recv_q ≡ note_and_part)
unfolding inbox
inbox_facts =
    let (v, empty, free) = create-IsValid 6400 (omega arith) in
    let (v', held, left) =
      enqueue_all (create 6400) note_and_part 9 v (sym length-note_and_part) (omega arith) in
    (v', held ∙ ap (λ c. c ++ note_and_part) empty)

sent_note_split : take 3 (sent_note 9) ++ drop 3 (sent_note 9) ≡ wire (seal 50 119 9 note)
unfolding sent_note
sent_note_split = take-append-drop 3 (sent_note 9)

inbox_stream : contents inbox.recv_q ≡ stream 50 119 ((7, note) ∷ []) ++ take 3 (sent_note 9)
unfolding note_and_part stream sent_note
inbox_stream = inbox_facts.1 ∙ ap (λ w. w ++ take 3 (sent_note 9)) (sym (append-nil (sent_note 7)))

free_messages : 16 ≤ message_free inbox.message_q
unfolding message_free inbox
free_messages = omega arith

message_proc_delivers_example :
    (q : SerialRingBuffer) × (ps : List SerialRingBuffer) × (message_proc 50 119
        (λ i. blank)
        2
        inbox
      ≡ some (record inbox { recv_q = q; message_q = inbox.message_q ++ ps }))
    × IsValid q
    × (contents q ≡ take 3 (sent_note 9))
    × (payloads ps ≡ sent_payloads ((7, note) ∷ []))
message_proc_delivers_example =
    message_proc_delivers 50 119 (λ i. blank) ((7, note) ∷ []) 2 9 note (take 3 (sent_note 9))
      (drop 3 (sent_note 9)) inbox (λ i. blank-IsBlank) (note-IsUnsent, tt) note-IsUnsent
      (omega arith) sent_note_split (omega (arith, length-drop 3 (sent_note 9), length-sent_note 9))
      inbox_facts.0 free_messages inbox_stream (omega arith)

inbox_use : get_use_size inbox.recv_q < 10
inbox_use = omega (
  arith,
  length-contents inbox.recv_q inbox_facts.0,
  ap length inbox_facts.1,
  length-note_and_part,
)

message_proc_ends_example : Ended inbox (message_proc 50 119 (λ i. blank) 10 inbox)
message_proc_ends_example = message_proc_ends 50 119 (λ i. blank) 10 inbox inbox_facts.0 inbox_use
