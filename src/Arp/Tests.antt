-- ===== src/Arp/Tests.antt =====
-- class ARP: the round trip of a request behind an Ethernet header.
use gateway_socket.Base.{ℕ, ◌≡◌, refl, some, [], ◌∷◌, pos, replicate, length-replicate, arith}
use gateway_socket.Packet.{Packet}
use gateway_socket.Packet.Laws.{Holds, write_at}
use gateway_socket.Arp.{
  get_header, get_source_mac, get_source_ip, get_destination_mac, get_destination_ip,
}
use gateway_socket.Arp.Laws.{Message, IsMessage, message_bytes, set_message, set_message-getters}

abbrev packet : Packet
packet = record { written_byte = pos 60; capacity = 60; in_memory = replicate 60 0 }

packet-Holds : Holds 60 packet
packet-Holds = record { in_use = refl; fits = omega arith; block = length-replicate {A = ℕ} 60 0 }

abbrev who_has : Message
who_has = record {
  header = record { ar_hrd = 1; ar_pro = 2048; ar_hln = 6; ar_pln = 4; ar_op = 1 };
  source_mac = 2 ∷ 0 ∷ 0 ∷ 0 ∷ 0 ∷ 1 ∷ [];
  source_ip = 83886090;
  destination_mac = 0 ∷ 0 ∷ 0 ∷ 0 ∷ 0 ∷ 0 ∷ [];
  destination_ip = 16777226;
}

who_has-IsMessage : IsMessage who_has
who_has-IsMessage = record {
  source_size = refl;
  destination_size = refl;
  source_word = omega arith;
  destination_word = omega arith;
  hrd = omega arith;
  pro = omega arith;
  op = omega arith;
}

set_message-getters_example :
    (set_message 14 who_has packet ≡ write_at 14 (message_bytes who_has) packet)
    × (get_header 14 (set_message 14 who_has packet) ≡ who_has.header)
    × (get_source_mac 14 (set_message 14 who_has packet) ≡ some who_has.source_mac)
    × (get_source_ip 14 (set_message 14 who_has packet) ≡ some who_has.source_ip)
    × (get_destination_mac 14 (set_message 14 who_has packet) ≡ some who_has.destination_mac)
    × (get_destination_ip 14 (set_message 14 who_has packet) ≡ some who_has.destination_ip)
set_message-getters_example =
    set_message-getters packet-Holds 14 who_has who_has-IsMessage (omega arith)
