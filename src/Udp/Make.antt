-- ===== src/Udp/Make.antt =====
-- UDP::makePacket (gateway-socket/udp.cpp): a UDP datagram in an IPv4 packet in an Ethernet frame,
-- written from the start of a packet.
pub mod Sum
pub mod Frame
pub mod Laws
pub mod Checks
pub mod Rfc
use gateway_socket.Base.{
  ℕ, zero, suc, ◌+◌, ◌-◌, ◌*◌, ◌/◌, ◌%◌, ◌^◌, not, ltb, ◌==◌, if◌then◌else◌, Option, none, some,
  List, [], ◌∷◌, ◌++◌, ℤ, pos, negsuc, to_u16, u16, u32, htons, ntohs, load16, store16, store32,
}
use gateway_socket.Packet.{
  Packet, get_capacity, read_byte_array, write_byte_array, read_byte, write_byte,
}
use gateway_socket.Ethernet
use gateway_socket.Ethernet.{ether_header_size, ethertype_ip}
use gateway_socket.Ip
use gateway_socket.Checksum.{IpHeader, store_ip, ip_size, ip_df, ipproto_udp, sum_words, fold_sum}
use gateway_socket.Udp
use gateway_socket.Udp.{udphdr_size}

abbrev pub total_header_len : ℕ
total_header_len = ether_header_size + ip_size + udphdr_size

-- struct pseudoheader, in memory.
pub pseudo_header : ℕ → ℕ → ℕ → List ℕ
pseudo_header src dst tot_len = store32 src ++ (store32 dst ++ (0 ∷ ipproto_udp ∷ store16 tot_len))

-- The two words that the loop over the datagram adds at `current`: the last byte alone is a high
-- half. A read out of range would leave `temp` as it was.
unfoldable pub word_at : ℕ → ℕ → ℕ → Packet → ℕ
word_at current len temp p =
    if (current + 1) == len
    then u16 (to_u16 (read_byte (pos current) p) * 256)
    else elim (read_byte_array (pos current) (pos (current + 2)) p) [
      | none ↦ ntohs temp
      | some bytes ↦ ntohs (load16 bytes)
    ]

-- `while(current < len)`, with the rounds bounded by the first argument.
unfoldable pub datagram_sum : ℕ → ℕ → ℕ → ℕ → ℕ → Packet → ℕ
datagram_sum zero current len sum temp p = sum
datagram_sum (suc fuel) current len sum temp p =
    let next = word_at current len temp p in
    let rest = datagram_sum fuel (current + 2) len (u32 (sum + next)) next p in
    if ltb current len then rest else sum

-- The header as it is while its checksum is computed.
pub unsummed_header : ℕ → ℕ → ℕ → IpHeader
unsummed_header ip_src ip_dst data_len = record {
  ip_hl = 5;
  ip_v = 4;
  ip_tos = 0;
  ip_len = htons (u16 (ip_size + udphdr_size + data_len));
  ip_id = 0;
  ip_off = htons ip_df;
  ip_ttl = 64;
  ip_p = ipproto_udp;
  ip_sum = 0;
  ip_src = ip_src;
  ip_dst = ip_dst;
}

pub summed_header : ℕ → ℕ → ℕ → IpHeader
unfolding unsummed_header
summed_header ip_src ip_dst data_len =
    let thdr = unsummed_header ip_src ip_dst data_len in
    record thdr { ip_sum = fold_sum (sum_words 0 (store_ip thdr)) }

pub write_ethernet : List ℕ → List ℕ → Packet → Packet
write_ethernet ether_src ether_dst p =
    Ethernet.set_protocol 0 ethertype_ip
      (Ethernet.set_destination 0 ether_dst (Ethernet.set_source 0 ether_src p))

-- From `udphdr->setSource` to the copy of the data; `offset` is that of the UDP header.
pub write_udp : ℕ → ℕ → ℕ → List ℕ → ℕ → Packet → Packet
write_udp offset p_src p_dst payload data_len p =
    write_byte_array (pos (next + 0)) (pos (next + data_len)) payload (
      write_byte (pos (offset + 7)) 0 (
        write_byte (pos (offset + 6)) 0 (
          write_byte_array (pos (offset + 4)) (pos (offset + 6)) (store32 udp_len)
            (Udp.set_destination offset p_dst (Udp.set_source offset p_src p)))))
  where
    next : ℕ
    next = Udp.get_next_offset offset

    udp_len : ℕ
    udp_len = htons (u16 (udphdr_size + data_len))

infixl 5 ◌>>=◌
abbrev pub ◌>>=◌ {ℓ} : {B : Type ℓ} → Option ℕ → (ℕ → Option B) → Option B
none >>= f = none
some a >>= f = f a

-- `none`: the length of the frame is no `int`, or the pseudo header is filled from an address that
-- was not read.
unfoldable pub make_packet :
    Packet
    → (ether_src ether_dst : List ℕ) (ip_src ip_dst p_src p_dst : ℕ) → List ℕ
    → ℕ
    → Option (Packet × ℤ)
make_packet p ether_src ether_dst ip_src ip_dst p_src p_dst payload data_len =
    if not (ltb len (2 ^ 31))
    then none
    else if ltb (get_capacity p) len
    then some (p, negsuc 0)
    else write
  where
    len : ℕ
    len = total_header_len + data_len

    ip_at : ℕ
    ip_at = Ethernet.get_next_offset 0

    udp_at : ℕ
    udp_at = ip_at + ip_size

    with_ip : Packet
    with_ip =
        write_byte_array (pos (ip_at + 0)) (pos (ip_at + ip_size))
          (store_ip (summed_header ip_src ip_dst data_len)) (write_ethernet ether_src ether_dst p)

    with_udp : Packet
    with_udp = write_udp udp_at p_src p_dst payload data_len with_ip

    data_at : ℕ
    data_at = Udp.get_next_offset udp_at

    write : Option (Packet × ℤ)
    write = do
      src ← Ip.get_source ip_at with_ip
      dst ← Ip.get_destination ip_at with_ip
      let pseudo = sum_words 0 (pseudo_header src dst (htons (u16 (udphdr_size + data_len))))
      let sum = datagram_sum len (data_at - udphdr_size) len pseudo 0 with_udp
      some (
        write_byte_array (pos (data_at - 2)) (pos data_at) (store16 (fold_sum sum)) with_udp,
        pos len,
      )
