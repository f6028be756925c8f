-- ===== src/Protocol/Agreement.antt =====
-- The client reads the lobby server's messages by the types and sizes that the server writes.
use mathlib.Core.Path.{subst}
use game_server_client.Base.{
  append-nil, false, ◌==◌, ◌≢◌, ◌<◌, ◌^◌, ℕ, take, ◌-◌, ◌+◌, ◌*◌, ◌≤◌, ◌≡◌, refl, List, [], ◌∷◌,
  ◌++◌, arith, length, ap, ◌∙◌, some, sym,
}
use game_server_client.Item.{Item}
use game_server_client.Inventory.Bag.{SlotUpdate}
use game_server_client.Buffer.{SerialRingBuffer, get_free_size}
use game_server_client.Buffer.Bounds.{IsValid, contents}
use game_server_client.Packet.{
  Part, number, text, number_of, text_of, put_parts, get, get_parts, width, dword, dword64,
  byte_value, int,
}
use game_server_client.Packet.Parts.{
  shapes, received, total_size, AreSendable, Encodes, get_parts-put_parts, get_parts_prefix,
  get_number, put_parts-Encodes,
}
use game_server_client.Protocol.{
  CharacterSeq, character_parts, login, slot_parts, item_parts, buy_store_item, use_item_stats_box,
  read_characters, read_login, read_slots, read_item, read_use_item_stats_box, get_slots,
  get_bought, get_buy_store_item, buy_refusal,
}

shapes-append : (ps qs : List Part) → shapes (ps ++ qs) ≡ shapes ps ++ shapes qs
shapes-append [] qs = refl
shapes-append (number k v ∷ ps) qs = ap (◌∷◌ (number_of k)) (shapes-append ps qs)
shapes-append (text cs size ∷ ps) qs = ap (◌∷◌ (text_of size)) (shapes-append ps qs)

shapes-slot_parts : (us : List SlotUpdate) → shapes (slot_parts us) ≡ read_slots (length us)
unfolding slot_parts read_slots
shapes-slot_parts [] = refl
shapes-slot_parts (u ∷ us) =
    ap (λ ss. number_of dword ∷ number_of dword ∷ ss) (shapes-slot_parts us)

received-append : (ps qs : List Part) → received (ps ++ qs) ≡ received ps ++ received qs
received-append [] qs = refl
received-append (number k v ∷ ps) qs = ap (◌∷◌ (number k v)) (received-append ps qs)
received-append (text cs size ∷ ps) qs =
    ap (◌∷◌ (text (take (size - 1) cs) size)) (received-append ps qs)

AreSendable-split : (ps qs : List Part) → AreSendable (ps ++ qs) → AreSendable ps × AreSendable qs
AreSendable-split [] qs s = (tt, s)
AreSendable-split (number k v ∷ ps) qs s =
    let (first, second) = AreSendable-split ps qs s.1 in ((s.0, first), second)
AreSendable-split (text cs size ∷ ps) qs s =
    let (first, second) = AreSendable-split ps qs s.2 in ((s.0, s.1, first), second)

-- A count and its slots are read, and what is behind them is left.
get_slots_lem :
    (us : List SlotUpdate) (qs : List Part) (r : SerialRingBuffer)
    → IsValid r
    → AreSendable (number dword64 (length us) ∷ slot_parts us)
    → Encodes (number dword64 (length us) ∷ slot_parts us ++ qs) (contents r)
    → (r' : SerialRingBuffer) × (get_slots r
        ≡ some (r', number dword64 (length us) ∷ received (slot_parts us)))
      × IsValid r'
      × Encodes qs (contents r')
unfolding get_slots
get_slots_lem us qs r v s e =
    let (i, count, rest) = get_number dword64 (length us) (slot_parts us ++ qs) r v s.0 e in
    let (r', all, i', done) = get_parts_prefix (slot_parts us) qs (get r dword64 0).0 i s.1 rest in
    (r', rw (count, ← shapes-slot_parts us, all) refl, i', done)

shapes-use_item_stats_box :
    (stats_id stats : ℕ) (it : Item) (us : List SlotUpdate)
    → shapes (use_item_stats_box stats_id stats it us) ≡ read_use_item_stats_box (length us)
unfolding use_item_stats_box read_use_item_stats_box read_item item_parts
shapes-use_item_stats_box stats_id stats it us = rw (shapes-slot_parts us) refl

shapes-character_parts :
    (cs : List CharacterSeq) → shapes (character_parts cs) ≡ read_characters (length cs)
unfolding character_parts read_characters
shapes-character_parts [] = refl
shapes-character_parts (c ∷ cs) =
    ap (λ ss. text_of 20 ∷ number_of byte_value ∷ ss) (shapes-character_parts cs)

shapes-login : (cs : List CharacterSeq) → shapes (login cs) ≡ read_login (length cs)
unfolding login read_login
shapes-login cs = rw (shapes-character_parts cs) refl

module _ (r : SerialRingBuffer) (v : IsValid r) (empty : contents r ≡ []) where
  -- The client reads the message of a purchase that has succeeded to its end as it was put in, texts
  -- cut to their size less one, and takes the counts of its loops from the message. It holds for an
  -- empty packet with room and a message of values that fit their types and texts without terminators.
  pub buy_store_item_arrives :
      (money quantity token : ℕ) (paid : List SlotUpdate) (it : Item) (got : List SlotUpdate)
      → let ps = buy_store_item 0 money quantity token paid it got in
        AreSendable ps
        → total_size ps ≤ get_free_size r
        → (r' : SerialRingBuffer) × (get_buy_store_item (put_parts r ps) ≡ some (r', received ps))
          × (contents r' ≡ [])
  unfolding buy_store_item get_buy_store_item get_bought item_parts Encodes
  buy_store_item_arrives money quantity token paid it got s h =
      let ps : List Part = buy_store_item 0 money quantity token paid it got in
      let head : List Part =
        number byte_value money ∷ number dword quantity ∷ number byte_value token ∷ [] in
      let spent : List Part = number dword64 (length paid) ∷ slot_parts paid in
      let item : List Part = item_parts it ++ number dword it.max_quantity ∷ [] in
      let last : List Part = number dword64 (length got) ∷ slot_parts got in
      let (v0, e0) = put_parts-Encodes ps r v empty s h in
      let (sh, s2) = AreSendable-split head (spent ++ (item ++ last)) s.1.1 in
      let (sp, s3) = AreSendable-split spent (item ++ last) s2 in
      let (si, sl) = AreSendable-split item last s3 in
      let (v1, type_id, e1) =
        get_number int 22 (number byte_value 0 ∷ head ++ (spent ++ (item ++ last))) (put_parts r ps)
          v0 s.0 e0 in
      let r1 : SerialRingBuffer = (get (put_parts r ps) int 0).0 in
      let (v2, status, e2) =
        get_number byte_value 0 (head ++ (spent ++ (item ++ last))) r1 v1 s.1.0 e1 in
      let (r3, a3, v3, e3) =
        get_parts_prefix head (spent ++ (item ++ last)) (get r1 byte_value 0).0 v2 sh e2 in
      let (r4, a4, v4, e4) = get_slots_lem paid (item ++ last) r3 v3 sp e3 in
      let (r5, a5, v5, e5) = get_parts_prefix item last r4 v4 si e4 in
      let (r6, a6, v6, e6) =
        get_slots_lem got [] r5 v5 sl
          (subst (λ ps. Encodes ps (contents r5)) (sym (append-nil last)) e5) in
      (
        r6,
        rw (type_id, status, a3, a4, a5, a6, received-append (slot_parts paid) (item ++ last)) refl,
        e6,
      )

  -- Of a purchase that is refused it reads the status alone, which is not SUCCESS, and all that there
  -- is.
  pub buy_refusal_arrives :
      (status : ℕ)
      → status ≢ 0
      → status < 2 ^ 8
      → total_size (buy_refusal status) ≤ get_free_size r
      → (r' : SerialRingBuffer) × (get_buy_store_item (put_parts r (buy_refusal status))
          ≡ some (r', buy_refusal status))
        × (contents r' ≡ [])
  unfolding buy_refusal get_buy_store_item Encodes width
  buy_refusal_arrives status refused small h =
      let ps : List Part = number int 22 ∷ number byte_value status ∷ [] in
      let (v0, e0) = put_parts-Encodes ps r v empty (omega arith, (omega (arith, small), tt)) h in
      let (v1, type_id, e1) =
        get_number int 22 (number byte_value status ∷ []) (put_parts r ps) v0 (omega arith) e0 in
      let r1 : SerialRingBuffer = (get (put_parts r ps) int 0).0 in
      let (v2, read, e2) = get_number byte_value status [] r1 v1 (omega (arith, small)) e1 in
      let no : (status == 0) ≡ false = ground arith in
      ((get r1 byte_value 0).0, rw (type_id, read, no) refl, e2)

  -- The client's Packet_Use_Item_Stats_Box, with the count of the message, reads the message of a
  -- used box to its end as it was put in, texts cut to their size less one, under the same
  -- conditions: an empty packet with room, values that fit their types, texts without terminators.
  pub use_item_stats_box_arrives :
      (stats_id stats : ℕ) (it : Item) (us : List SlotUpdate)
      → let ps = use_item_stats_box stats_id stats it us in
        AreSendable ps
        → total_size ps ≤ get_free_size r
        → (r' : SerialRingBuffer) × (get_parts
              (put_parts r ps)
              (read_use_item_stats_box (length us))
            ≡ some (r', received ps))
          × (contents r' ≡ [])
  use_item_stats_box_arrives stats_id stats it us s h =
      let ps : List Part = use_item_stats_box stats_id stats it us in
      let (r', e, done) = get_parts-put_parts ps r v empty s h in
      (
        r',
        ap (get_parts (put_parts r ps)) (sym (shapes-use_item_stats_box stats_id stats it us)) ∙ e,
        done,
      )

  -- The client's Packet_Login, with the count of the message, reads the answer to a login to its
  -- end as it was put in, nicknames cut to 19 bytes, under the same conditions: an empty packet
  -- with room, values that fit their types, texts without terminators.
  pub login_arrives :
      (cs : List CharacterSeq)
      → AreSendable (login cs)
      → total_size (login cs) ≤ get_free_size r
      → (r' : SerialRingBuffer) × (get_parts (put_parts r (login cs)) (read_login (length cs))
          ≡ some (r', received (login cs)))
        × (contents r' ≡ [])
  login_arrives cs s h =
      let (r', e, done) = get_parts-put_parts (login cs) r v empty s h in
      (r', ap (get_parts (put_parts r (login cs))) (sym (shapes-login cs)) ∙ e, done)

total_size-append : (ps qs : List Part) → total_size (ps ++ qs) ≡ total_size ps + total_size qs
unfolding total_size
total_size-append [] qs = omega arith
total_size-append (number k v ∷ ps) qs = omega (arith, total_size-append ps qs)
total_size-append (text cs size ∷ ps) qs = omega (arith, total_size-append ps qs)

total_size-slot_parts : (us : List SlotUpdate) → total_size (slot_parts us) ≡ 8 * length us
unfolding total_size slot_parts width
total_size-slot_parts [] = refl
total_size-slot_parts (u ∷ us) = omega (arith, total_size-slot_parts us)

-- The message of a purchase takes 612 bytes and 8 for each slot that changed.
pub total_size-buy_store_item :
    (status money quantity token : ℕ) (paid : List SlotUpdate) (it : Item) (got : List SlotUpdate)
    → total_size (buy_store_item status money quantity token paid it got)
      ≡ 612 + 8 * (length paid + length got)
unfolding buy_store_item total_size width item_parts
total_size-buy_store_item status money quantity token paid it got = omega (
  arith,
  total_size-append (slot_parts paid) (
      item_parts it ++ number dword it.max_quantity ∷ number dword64 (length got) ∷ slot_parts got),
  total_size-slot_parts paid,
  total_size-slot_parts got,
)
