-- ===== src/Gateway/Icmp.antt =====
-- Gateway::icmp_mtu (gateway-socket/gateway.cpp): the answer "fragmentation needed" to a frame that is
-- longer than the packet buffer.
pub mod Laws
use gateway_socket.Base.{
  ℕ, ◌+◌, ◌-◌, Option, none, some, List, [], ◌∷◌, ◌++◌, pos, leb_int, not, Bool, true, false,
  if◌then◌else◌, ◌==◌, htons, store16,
}
use gateway_socket.Packet
use gateway_socket.Packet.{Packet, get_length, read_byte_array, write_byte_array, set_length}
use gateway_socket.Ethernet
use gateway_socket.Ethernet.{ether_header_size, ethertype_ip}
use gateway_socket.Ip
use gateway_socket.Checksum.{IpHeader, store_ip, ip_size, ip_df, ipproto_icmp, one_compl}
use gateway_socket.Gateway.Tables.{in_use}

-- sizeof(struct icmp_too_big): the ICMP header, an IPv4 header and eight bytes behind it.
abbrev pub icmp_too_big_size : ℕ
icmp_too_big_size = 8 + ip_size + 8

abbrev pub response_len : ℕ
response_len = ether_header_size + icmp_too_big_size + ip_size

-- struct icmp_too_big in memory; ICMP_DEST_UNREACH is 3, ICMP_FRAG_NEEDED is 4.
abbrev pub too_big : ℕ → ℕ → List ℕ → List ℕ
too_big checksum mtu quoted =
    3 ∷ 4 ∷ (store16 checksum ++ (0 ∷ 0 ∷ (store16 (htons mtu) ++ quoted)))

unfoldable pub reply_ip : ℕ → ℕ → ℕ → IpHeader
reply_ip src dst sum = record {
  ip_hl = 5;
  ip_v = 4;
  ip_tos = 0;
  ip_len = htons (ip_size + icmp_too_big_size);
  ip_id = 0;
  ip_off = htons ip_df;
  ip_ttl = 64;
  ip_p = ipproto_icmp;
  ip_sum = sum;
  ip_src = src;
  ip_dst = dst;
}

infixl 5 ◌>>=◌
abbrev pub ◌>>=◌ {ℓ κ} : {A : Type ℓ} {B : Type κ} → Option A → (A → Option B) → Option B
none >>= f = none
some a >>= f = f a

-- The frame built in a new packet, whose memory is `block` as `malloc` left it.
unfoldable pub too_big_reply : List ℕ → ℕ → Packet → Option (List ℕ)
unfolding reply_ip
too_big_reply block mtu p = do
  s_packet ← Packet.make (some block) response_len
  quoted ← read_byte_array (pos ether_header_size) (pos (ether_header_size + ip_size + 8)) p
  r_destination ← Ethernet.get_destination 0 p
  r_source ← Ethernet.get_source 0 p
  r_ip_destination ← Ip.get_destination ether_header_size p
  r_ip_source ← Ip.get_source ether_header_size p
  let response = too_big (one_compl (too_big 0 mtu quoted)) mtu quoted
  let unsummed = reply_ip r_ip_destination r_ip_source 0
  let s_ip_hdr = record unsummed { ip_sum = one_compl (store_ip unsummed) }
  let s1 = Ethernet.set_source 0 r_destination (set_length (pos response_len) s_packet)
  let s2 = Ethernet.set_protocol 0 ethertype_ip (Ethernet.set_destination 0 r_source s1)
  let icmp_at = ether_header_size + ip_size
  let s3 = write_byte_array (pos ether_header_size) (pos icmp_at) (store_ip s_ip_hdr) s2
  let s4 = write_byte_array (pos icmp_at) (pos (icmp_at + icmp_too_big_size)) response s3
  some (in_use s4)

-- The frames written to the device; `none`: one was built from a value that was not read. The three
-- guards return without an answer.
unfoldable pub icmp_mtu : List ℕ → ℕ → Packet → Option (List (List ℕ))
unfolding too_big_reply
icmp_mtu block mtu p =
    if not (leb_int (pos (ether_header_size + ip_size + 8)) (get_length p))
    then some []
    else if not (Ethernet.get_protocol 0 p == ethertype_ip)
    then some []
    else if not (Ip.get_next_offset ether_header_size p - ether_header_size == 20)
    then some []
    else answer
  where
    answer : Option (List (List ℕ))
    answer = do frame ← too_big_reply block mtu p; some (frame ∷ [])
