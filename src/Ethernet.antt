-- ===== src/Ethernet.antt =====
-- class Ethernet (gateway-socket/ethernet.hh, ethernet.cpp): the fields of the Ethernet header that
-- stands at `offset` in a packet. A `struct ether_addr` is the list of its six bytes.
-- A getter whose local is not initialised and that reads out of range has no value: `none`.
pub mod Mac
pub mod Laws
use gateway_socket.Base.{ℕ, ◌+◌, Option, none, some, List, pos, htons, ntohs, load16, store16}
use gateway_socket.Packet.{Packet, read_byte_array, write_byte_array}

-- ETH_ALEN, sizeof(struct ether_header), ETHERTYPE_IP, ETHERTYPE_ARP.
abbrev pub eth_alen : ℕ
eth_alen = 6

abbrev pub ether_header_size : ℕ
ether_header_size = 14

abbrev pub ethertype_ip : ℕ
ethertype_ip = 0x0800

abbrev pub ethertype_arp : ℕ
ethertype_arp = 0x0806

unfoldable pub get_source : ℕ → Packet → Option (List ℕ)
get_source offset p =
    read_byte_array (pos (offset + eth_alen)) (pos (offset + (eth_alen + eth_alen))) p

unfoldable pub get_destination : ℕ → Packet → Option (List ℕ)
get_destination offset p = read_byte_array (pos offset) (pos (offset + eth_alen)) p

unfoldable pub set_source : ℕ → List ℕ → Packet → Packet
set_source offset addr p =
    write_byte_array (pos (offset + eth_alen)) (pos (offset + (eth_alen + eth_alen))) addr p

unfoldable pub set_destination : ℕ → List ℕ → Packet → Packet
set_destination offset addr p = write_byte_array (pos offset) (pos (offset + eth_alen)) addr p

-- `proto` starts as 0.
unfoldable pub get_protocol : ℕ → Packet → ℕ
get_protocol offset p =
    elim (read_byte_array (pos (offset + (eth_alen + eth_alen)))
      (pos (offset + (eth_alen + eth_alen + 2))) p) [
        | none ↦ ntohs 0
        | some bytes ↦ ntohs (load16 bytes)
      ]

unfoldable pub set_protocol : ℕ → ℕ → Packet → Packet
set_protocol offset protocol_host p =
    write_byte_array (pos (offset + (eth_alen + eth_alen)))
      (pos (offset + (eth_alen + eth_alen + 2))) (store16 (htons protocol_host)) p

unfoldable pub get_next_offset : ℕ → ℕ
get_next_offset offset = offset + ether_header_size
