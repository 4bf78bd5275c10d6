-- ===== src/Udp.antt =====
-- class UDP (gateway-socket/udp.hh, udp.cpp): the UDP header at `offset` in a packet.
pub mod Make
use gateway_socket.Base.{ℕ, ◌+◌, Option, pos, ntohs, htons, load16, store16}
use mathlib.Core.Option
use gateway_socket.Packet.{Packet, read_byte_array, write_byte_array}

abbrev pub udphdr_size : ℕ
udphdr_size = 8

unfoldable pub get_source : ℕ → Packet → Option ℕ
get_source offset p =
    Option.map (λ bs. ntohs (load16 bs)) (read_byte_array (pos (offset + 0)) (pos (offset + 2)) p)

unfoldable pub get_destination : ℕ → Packet → Option ℕ
get_destination offset p =
    Option.map (λ bs. ntohs (load16 bs)) (read_byte_array (pos (offset + 2)) (pos (offset + 4)) p)

unfoldable pub set_source : ℕ → ℕ → Packet → Packet
set_source offset src p =
    write_byte_array (pos (offset + 0)) (pos (offset + 2)) (store16 (htons src)) p

unfoldable pub set_destination : ℕ → ℕ → Packet → Packet
set_destination offset dest p =
    write_byte_array (pos (offset + 2)) (pos (offset + 4)) (store16 (htons dest)) p

unfoldable pub get_next_offset : ℕ → ℕ
get_next_offset offset = offset + udphdr_size
