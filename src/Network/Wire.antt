-- ===== src/Network/Wire.antt =====
-- One packet on its way from SendMSG to NetworkMessageProc (CWanServerRoom2.cpp).
use game_server_client.Base.{
  length-append, ℕ, ◌+◌, ◌≤◌, ◌<◌, ◌≡◌, refl, List, ◌++◌, arith, ap, ap₂, ◌∙◌, sym, length, get_or,
  true,
}
use game_server_client.Base.Memory.{
  read_at, write_at, length-read_at, length-write_at, read_at-add, read_at-write_at_apart,
  read_at-write_at_self,
}
use game_server_client.Buffer.{
  SerialRingBuffer, get_use_size, encode, encode_loop, decode, set_wan_header, network_header,
  move_rear, direct_enqueue_size, step_in_place,
}
use game_server_client.Buffer.Bounds.{IsValid, contents}
use game_server_client.Buffer.Cipher.{IsBytes, length-encode_loop, encode_loop_frame}
use game_server_client.Buffer.Seal.{sealed_packet_opens}
use game_server_client.Network.Receive.{open_packet, seal, wire, header_len}
use game_server_client.Network.Prefix.{decode-agree, get_or-read_at}

-- What `Alloc` gives: a cleared packet of the default size, with any bytes in its memory.
pub record IsBlank (r : SerialRingBuffer) : Type 0 where
  pub valid : IsValid r
  pub total : r.buffer_total_size ≡ 16378
  pub at : r.front ≡ 5
  pub end : r.rear ≡ 5
  pub no_header : r.header_flag ≡ 0

-- A packet that has been written but not sent: of the default size, not empty, of bytes, with
-- neither header nor cipher.
pub record IsUnsent (r : SerialRingBuffer) : Type 0 where
  pub valid : IsValid r
  pub bytes : IsBytes r.mem
  pub total : r.buffer_total_size ≡ 16378
  pub at : r.front ≡ 5
  pub some_held : 0 < get_use_size r
  pub no_header : r.header_flag ≡ 0
  pub no_cipher : r.encode_flag ≡ 0

-- A packet that has the header and the payload put in has those bytes, in this order, at the start
-- of its memory.
filled-begins :
    (mem header payload : List ℕ) (n : ℕ)
    → length header ≡ 5
    → length payload ≡ n
    → 5 + n ≤ length mem
    → read_at (write_at (write_at mem 0 header) 5 payload) 0 (n + 5) ≡ header ++ payload
filled-begins mem header payload n h p room =
    let headed : List ℕ = write_at mem 0 header in
    let swap : n + 5 ≡ 5 + n = omega arith in
    ap (read_at (write_at headed 5 payload) 0) swap
    ∙ read_at-add (write_at headed 5 payload) 0 5 n
    ∙ ap₂ ◌++◌
        (read_at-write_at_apart headed payload 5 0 5 (omega arith)
          ∙ read_at-write_at_self mem header 0 5 (sym h) (omega arith))
        (read_at-write_at_self headed payload 5 n (sym p)
          (omega (arith, length-write_at mem 0 header)))

-- What NetworkMessageProc puts together before it decodes.
filled : SerialRingBuffer → (header payload : List ℕ) → SerialRingBuffer
filled blank header payload = record blank {
  mem = write_at (write_at blank.mem 0 header) 5 payload;
  header_flag = 1;
  rear = length payload + 5;
}

open_filled :
    (key : ℕ) (blank : SerialRingBuffer) (header payload : List ℕ)
    → IsBlank blank
    → 0 < length payload
    → length payload ≤ 16378
    → open_packet key blank header payload ≡ decode key (filled blank header payload)
unfolding open_packet set_wan_header move_rear direct_enqueue_size step_in_place filled
open_filled key blank header payload b pos fits = ground (arith, b)

module _ (key code rand : ℕ) (r : SerialRingBuffer) (u : IsUnsent r) (small : code < 256) where
  size : ℕ
  size = get_use_size r

  header : List ℕ
  header = network_header code rand r

  headed : List ℕ
  headed = write_at r.mem 0 header

  sealed : SerialRingBuffer
  unfolding headed size
  sealed = record r {
    mem = encode_loop key (get_or headed 3 0) headed 0 (size + 1) 0 0;
    header_flag = 1;
    encode_flag = 1;
  }

  seal_lem : seal key code rand r ≡ sealed
  unfolding seal sealed headed header size set_wan_header encode get_use_size
  seal_lem = ground (arith, u)

  size_small : (size ≤ 16378) × (r.rear ≡ size + 5)
  unfolding size get_use_size
  size_small = ground (arith, u.valid, u.total, u.at)

  room : length headed ≡ 16384
  unfolding headed
  room = omega (arith, length-write_at r.mem 0 header, u.valid.storage, u.total)

  sealed_room : length sealed.mem ≡ 16384
  unfolding sealed
  sealed_room = length-encode_loop key (get_or headed 3 0) (size + 1) headed 0 0 0 ∙ room

  -- The two parts of what is sent.
  pub sent_header : List ℕ
  unfolding sealed
  sent_header = read_at sealed.mem 0 5

  pub sent_payload : List ℕ
  unfolding sealed size
  sent_payload = read_at sealed.mem 5 size

  pub length-sent : (length sent_header ≡ 5) × (length sent_payload ≡ get_use_size r)
  unfolding sent_header sent_payload size
  length-sent = (length-read_at sealed.mem 0 5, length-read_at sealed.mem 5 size)

  pub wire_lem : wire (seal key code rand r) ≡ sent_header ++ sent_payload
  unfolding wire sent_header sent_payload sealed size get_use_size
  wire_lem =
      let swap : size + 5 ≡ 5 + size = omega arith in
      ap wire seal_lem ∙ ap (read_at sealed.mem 0) swap ∙ read_at-add sealed.mem 0 5 size

  pub length-wire : length (wire (seal key code rand r)) ≡ get_use_size r + 5
  length-wire =
      let (h, p) = length-sent in
      omega (arith, ap length wire_lem, length-append sent_header sent_payload)

  -- The cells of the header before the checksum are sent as they are.
  header_cell : (i : ℕ) → i < 4 → get_or sent_header i 0 ≡ get_or header i 0
  unfolding sent_header sealed headed header network_header
  header_cell i h =
      let at : 0 + i ≡ i = omega arith in
      let wrote : read_at headed 0 5 ≡ header =
        read_at-write_at_self r.mem header 0 5 refl (omega (arith, u.valid.storage)) in
      get_or-read_at 5 sealed.mem 0 i (omega arith)
      ∙ ap (λ k. get_or sealed.mem k 0) at
      ∙ encode_loop_frame key (get_or headed 3 0) (size + 1) headed 0 0 0 i (omega arith)
      ∙ ap (λ k. get_or headed k 0) (sym at)
      ∙ sym (get_or-read_at 5 headed 0 i (omega arith))
      ∙ ap (λ m. get_or m i 0) wrote

  pub sent_code : get_or sent_header 0 0 ≡ code
  unfolding header network_header
  sent_code = header_cell 0 (omega arith)

  pub sent_len : header_len sent_header ≡ get_use_size r
  unfolding header network_header header_len size
  sent_len = omega (arith, header_cell 1 (omega arith), header_cell 2 (omega arith), size_small.0)

  pub payload_fits : get_use_size r ≤ 16378
  unfolding size
  payload_fits = size_small.0

  received_as :
      (blank : SerialRingBuffer)
      → IsBlank blank
      → ((decode key (filled blank sent_header sent_payload)).1
          ≡ (decode key (seal key code rand r)).1)
        × (contents (decode key (filled blank sent_header sent_payload)).0
            ≡ contents (decode key (seal key code rand r)).0)
  unfolding filled sealed sent_header sent_payload size
  received_as blank b =
      let swap : size + 5 ≡ 5 + size = omega arith in
      let begins : read_at (filled blank sent_header sent_payload).mem 0 (size + 5)
          ≡ read_at sealed.mem 0 (size + 5) =
        filled-begins blank.mem sent_header sent_payload size (length-read_at sealed.mem 0 5)
          (length-read_at sealed.mem 5 size) (omega (arith, b.valid.storage, b.total, size_small.0))
        ∙ sym (ap (read_at sealed.mem 0) swap ∙ read_at-add sealed.mem 0 5 size) in
      rw seal_lem (
        decode-agree key size (filled blank sent_header sent_payload) sealed b.at u.at
          (ap (λ k. k + 5) (length-read_at sealed.mem 5 size)) size_small.1
          (omega (
            arith,
            length-write_at (write_at blank.mem 0 sent_header) 5 sent_payload,
            length-write_at blank.mem 0 sent_header,
            b.valid.storage,
            b.total,
            size_small.0,
          ))
          (omega (arith, sealed_room, size_small.0)) begins)

  -- What NetworkMessageProc makes of the two parts is accepted and holds the bytes that were sent.
  pub open_sent :
      (blank : SerialRingBuffer)
      → IsBlank blank
      → let (packet, ok) = open_packet key blank sent_header sent_payload in
        (ok ≡ true) × (contents packet ≡ contents r)
  unfolding seal encode
  open_sent blank b =
      let (hl, pl) = length-sent in
      let got : SerialRingBuffer = filled blank sent_header sent_payload in
      let opened : open_packet key blank sent_header sent_payload ≡ decode key got =
        open_filled key blank sent_header sent_payload b (omega (arith, u.some_held))
          (omega (arith, payload_fits)) in
      let (accepted, held) =
        sealed_packet_opens key code rand r u.valid u.bytes small (omega (arith, payload_fits))
          u.no_header u.no_cipher in
      let (ok, same) = received_as blank b in rw opened (ok ∙ accepted, same ∙ held)
