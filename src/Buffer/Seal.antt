-- ===== src/Buffer/Seal.antt =====
-- A packet with its network header, from the sender's cipher to the receiver's check
-- (SendMSG and NetworkMessageProc of CWanServerRoom2.cpp, NetworkHeader of its header).
use game_server_client.Base.{
  ℕ, zero, suc, ◌-◌, ◌%◌, ◌/◌, ◌^◌, ◌≤◌, ◌<◌, ◌≡◌, refl, List, [], ◌∷◌, arith, ◌==◌, length, ap,
  ◌∙◌, sym, get_or, set, true, ==_iff, get_or-set_self, length-set,
}
use game_server_client.Base.Memory.{
  get_or-write_at_above, read_at-write_at_apart, write_at, length-write_at,
}
use game_server_client.Buffer.{
  SerialRingBuffer, header_size, get_use_size, encode, decode, check_sum, byte, network_header,
  set_wan_header, end_of,
}
use game_server_client.Buffer.Cipher.{IsBytes, set-IsBytes, byte-lt, decoded, payload_sum}
use game_server_client.Buffer.Bounds.{IsValid, contents}

check_sum-write_at :
    (left : ℕ) (mem bs : List ℕ) (pos acc : ℕ)
    → length bs ≤ pos
    → check_sum (write_at mem 0 bs) pos left acc ≡ check_sum mem pos left acc
unfolding check_sum
check_sum-write_at zero mem bs pos acc h = refl
check_sum-write_at (suc left) mem bs pos acc h =
    rw (get_or-write_at_above mem bs 0 pos (omega arith))
      (check_sum-write_at left mem bs (suc pos) _ (omega arith))

check_sum-lt :
    (left : ℕ) (mem : List ℕ) (pos acc : ℕ) → acc < 256 → check_sum mem pos left acc < 256
unfolding check_sum
check_sum-lt zero mem pos acc h = h
check_sum-lt (suc left) mem pos acc h = check_sum-lt left mem (suc pos) _ (byte-lt _)

contents-header :
    (r : SerialRingBuffer) (hdr : List ℕ) (flag coded : ℕ)
    → IsValid r
    → length hdr ≡ 5
    → contents (record r { mem = write_at r.mem 0 hdr; header_flag = flag; encode_flag = coded })
      ≡ contents r
unfolding contents
contents-header r hdr flag coded v h = ground (
  arith,
  read_at-write_at_apart r.mem hdr 0 r.front (r.rear - r.front),
  read_at-write_at_apart r.mem hdr 0 r.front (end_of r - r.front),
  read_at-write_at_apart r.mem hdr 0 header_size (r.rear - header_size),
)

write_header-IsBytes :
    (mem : List ℕ) (a b c d e : ℕ)
    → IsBytes mem
    → a < 256
    → b < 256
    → c < 256
    → d < 256
    → e < 256
    → IsBytes (write_at mem 0 (a ∷ b ∷ c ∷ d ∷ e ∷ []))
unfolding write_at
write_header-IsBytes mem a b c d e m ha hb hc hd he =
    set-IsBytes _ 4 e
      (set-IsBytes _ 3 d (set-IsBytes _ 2 c (set-IsBytes _ 1 b (set-IsBytes mem 0 a m ha) hb) hc)
        hd)
      he

header_check :
    (mem : List ℕ) (a b c d e : ℕ)
    → 5 ≤ length mem
    → get_or (write_at mem 0 (a ∷ b ∷ c ∷ d ∷ e ∷ [])) 4 0 ≡ e
unfolding write_at
header_check mem a b c d e h =
    let m : List ℕ = set (set (set (set mem 0 a) 1 b) 2 c) 3 d in
    get_or-set_self m 4 e 0 (
      omega (
        arith,
        length-set (set (set (set mem 0 a) 1 b) 2 c) 3 d,
        length-set (set (set mem 0 a) 1 b) 2 c,
        length-set (set mem 0 a) 1 b,
        length-set mem 0 a,
      ))

-- What the sender does with a fresh packet (header, then cipher) the receiver's `decode` accepts:
-- it answers true, and the bytes held are those that were put in. It holds for a packet of bytes
-- that is shorter than the length field can say and has neither header nor cipher yet.
pub sealed_packet_opens :
    (key code rand : ℕ) (r : SerialRingBuffer)
    → IsValid r
    → IsBytes r.mem
    → code < 256
    → get_use_size r < 2 ^ 16
    → r.header_flag ≡ 0
    → r.encode_flag ≡ 0
    → let (r', ok) = decode key (encode key (set_wan_header r (network_header code rand r))) in
      (ok ≡ true) × (contents r' ≡ contents r)
unfolding network_header
sealed_packet_opens key code rand r v b small short h f =
    rw set_header (rw (decoded key headed headed_valid headed_bytes f) (sum_ok, held))
  where
    len : ℕ
    len = get_use_size r % 2 ^ 16

    sum : ℕ
    sum = check_sum r.mem r.front len 0

    hdr : List ℕ
    hdr = network_header code rand r

    headed : SerialRingBuffer
    headed = record r { mem = write_at r.mem 0 hdr; header_flag = 1 }

    set_header : set_wan_header r hdr ≡ headed
    set_header = unfold set_wan_header in ground arith

    headed_valid : IsValid headed
    headed_valid = ground (arith, length-write_at r.mem 0 hdr)

    headed_bytes : IsBytes headed.mem
    headed_bytes =
        write_header-IsBytes r.mem code (byte len) (len / 2 ^ 8) (byte rand) sum b small
          (byte-lt len) (omega arith) (byte-lt rand)
          (check_sum-lt len r.mem r.front 0 (omega arith))

    same_use : get_use_size headed ≡ get_use_size r
    same_use = unfold get_use_size in refl

    whole : len ≡ get_use_size r
    whole = omega arith

    summed : payload_sum headed ≡ sum
    summed =
        unfold payload_sum in
        ap (λ n. check_sum headed.mem r.front n 0) (same_use ∙ sym whole)
        ∙ check_sum-write_at len r.mem hdr r.front 0 (omega arith)

    sum_ok : (payload_sum headed == get_or headed.mem 4 0) ≡ true
    sum_ok = (==_iff _ _).1 (
        summed
        ∙ sym (
            header_check r.mem code (byte len) (len / 2 ^ 8) (byte rand) sum
              (omega (arith, v.storage))))

    held : contents (record headed { encode_flag = 1 }) ≡ contents r
    held = contents-header r hdr 1 1 v refl
