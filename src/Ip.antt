-- ===== src/Ip.antt =====
-- class IP (gateway-socket/ip.hh, ip.cpp): the IPv4 header at `offset` in a packet.
use gateway_socket.Base.{ℕ, ◌+◌, ◌*◌, ◌%◌, ltb, if◌then◌else◌, Option, pos, to_u8, load32, store32}
use mathlib.Core.Option
use gateway_socket.Packet.{Packet, read_byte_array, write_byte_array, read_byte, write_byte}

unfoldable pub get_source : ℕ → Packet → Option ℕ
get_source offset p = Option.map load32 (read_byte_array (pos (offset + 12)) (pos (offset + 16)) p)

unfoldable pub get_destination : ℕ → Packet → Option ℕ
get_destination offset p =
    Option.map load32 (read_byte_array (pos (offset + 16)) (pos (offset + 20)) p)

unfoldable pub set_source : ℕ → ℕ → Packet → Packet
set_source offset addr p = write_byte_array (pos (offset + 12)) (pos (offset + 16)) (store32 addr) p

unfoldable pub set_destination : ℕ → ℕ → Packet → Packet
set_destination offset addr p =
    write_byte_array (pos (offset + 16)) (pos (offset + 20)) (store32 addr) p

unfoldable pub get_protocol : ℕ → Packet → ℕ
get_protocol offset p = to_u8 (read_byte (pos (offset + 9)) p)

unfoldable pub set_protocol : ℕ → ℕ → Packet → Packet
set_protocol offset proto p = write_byte (pos (offset + 9)) proto p

-- The position behind the header in the packet: `offset` is part of it. A header length below five
-- words counts as five.
unfoldable pub get_next_offset : ℕ → Packet → ℕ
get_next_offset offset p = offset + (if ltb hlen 5 then 5 else hlen) * 4
  where
    hlen : ℕ
    hlen = to_u8 (read_byte (pos (offset + 0)) p) % 16
