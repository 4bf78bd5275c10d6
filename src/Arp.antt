-- ===== src/Arp.antt =====
-- class ARP (gateway-socket/arp.hh, arp.cpp): the ARP message at `offset` in a packet.
pub mod Laws
mod Tests
use gateway_socket.Base.{
  ℕ, ◌+◌, Option, none, some, List, ◌∷◌, ◌++◌, pos, htons, ntohs, load16, store16, load32, store32,
  get_or, drop,
}
use mathlib.Core.Option
use gateway_socket.Packet.{Packet, read_byte_array, write_byte_array}

-- struct arphdr.
pub record ArpHeader : Type 0 where
  pub ar_hrd : ℕ
  pub ar_pro : ℕ
  pub ar_hln : ℕ
  pub ar_pln : ℕ
  pub ar_op : ℕ

abbrev pub arphdr_size : ℕ
arphdr_size = 8

-- sizeof(struct ether_addr) and sizeof(struct in_addr).
abbrev pub ether_addr_size : ℕ
ether_addr_size = 6

abbrev pub in_addr_size : ℕ
in_addr_size = 4

-- The bytes of the structure in memory, and back.
abbrev store_header : ArpHeader → List ℕ
store_header h = store16 h.ar_hrd ++ store16 h.ar_pro ++ h.ar_hln ∷ h.ar_pln ∷ store16 h.ar_op

abbrev load_header : List ℕ → ArpHeader
load_header bs = record {
  ar_hrd = load16 bs;
  ar_pro = load16 (drop 2 bs);
  ar_hln = get_or bs 4 0;
  ar_pln = get_or bs 5 0;
  ar_op = load16 (drop 6 bs);
}

unfoldable pub set_header : ℕ → ArpHeader → Packet → Packet
set_header offset header p =
    write_byte_array (pos offset) (pos (offset + arphdr_size)) (store_header swapped) p
  where
    swapped : ArpHeader
    swapped = record header {
      ar_hrd = htons header.ar_hrd;
      ar_pro = htons header.ar_pro;
      ar_op = htons header.ar_op;
    }

abbrev to_host : ArpHeader → ArpHeader
to_host h = record h { ar_hrd = ntohs h.ar_hrd; ar_pro = ntohs h.ar_pro; ar_op = ntohs h.ar_op }

-- The header is zeroed before the read.
unfoldable pub get_header : ℕ → Packet → ArpHeader
get_header offset p = elim (read_byte_array (pos offset) (pos (offset + arphdr_size)) p) [
  | none ↦ to_host (record { ar_hrd = 0; ar_pro = 0; ar_hln = 0; ar_pln = 0; ar_op = 0 })
  | some bytes ↦ to_host (load_header bytes)
]

abbrev source_mac_at : ℕ
source_mac_at = arphdr_size

abbrev source_ip_at : ℕ
source_ip_at = arphdr_size + ether_addr_size

abbrev destination_mac_at : ℕ
destination_mac_at = arphdr_size + in_addr_size + ether_addr_size

abbrev destination_ip_at : ℕ
destination_ip_at = arphdr_size + in_addr_size + ether_addr_size + ether_addr_size

unfoldable pub get_source_mac : ℕ → Packet → Option (List ℕ)
get_source_mac offset p =
    let from = offset + source_mac_at in read_byte_array (pos from) (pos (from + ether_addr_size)) p

unfoldable pub get_destination_mac : ℕ → Packet → Option (List ℕ)
get_destination_mac offset p =
    let from = offset + destination_mac_at in
    read_byte_array (pos from) (pos (from + ether_addr_size)) p

unfoldable pub set_source_mac : ℕ → List ℕ → Packet → Packet
set_source_mac offset mac p =
    let from = offset + source_mac_at in
    write_byte_array (pos from) (pos (from + ether_addr_size)) mac p

unfoldable pub set_destination_mac : ℕ → List ℕ → Packet → Packet
set_destination_mac offset mac p =
    let from = offset + destination_mac_at in
    write_byte_array (pos from) (pos (from + ether_addr_size)) mac p

unfoldable pub get_source_ip : ℕ → Packet → Option ℕ
get_source_ip offset p =
    let from = offset + source_ip_at in
    Option.map load32 (read_byte_array (pos from) (pos (from + in_addr_size)) p)

unfoldable pub get_destination_ip : ℕ → Packet → Option ℕ
get_destination_ip offset p =
    let from = offset + destination_ip_at in
    Option.map load32 (read_byte_array (pos from) (pos (from + in_addr_size)) p)

unfoldable pub set_source_ip : ℕ → ℕ → Packet → Packet
set_source_ip offset ip p =
    let from = offset + source_ip_at in
    write_byte_array (pos from) (pos (from + in_addr_size)) (store32 ip) p

unfoldable pub set_destination_ip : ℕ → ℕ → Packet → Packet
set_destination_ip offset ip p =
    let from = offset + destination_ip_at in
    write_byte_array (pos from) (pos (from + in_addr_size)) (store32 ip) p
