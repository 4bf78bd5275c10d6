-- ===== src/Tests.antt =====
-- The properties of the packets, the headers, the checksums, the mailboxes and the handlers at concrete
-- inputs.
use gateway_socket.Base.{
  ℕ, ◌≡◌, refl, true, some, List, [], ◌∷◌, ◌++◌, pos, replicate, length-replicate, store32, arith,
  if◌then◌else◌,
}
use gateway_socket.Packet.{Packet, read_byte_array}
use gateway_socket.Packet.Laws.{Holds, write_at}
use gateway_socket.Ethernet.Mac.{read_mac, print_mac}
use gateway_socket.Ethernet.Mac.Laws.{read_mac-print_mac}
use gateway_socket.Checksum
use gateway_socket.Checksum.{one_compl}
use gateway_socket.Checksum.Laws.{Verifies}
use gateway_socket.Udp.Make.{make_packet}
use gateway_socket.Udp.Make.Frame.{
  Datagram, IsDatagram, ip_part, udp_part, udp_pseudo, udp_checksum,
}
use gateway_socket.Udp.Make.Rfc.{rfc_frame, make_packet-rfc_frame}
use gateway_socket.Udp.Make.Checks.{frame-Verifies, udp_checksum-zero}
use gateway_socket.Dhcp.{
  Response, write_response, get_opcode, get_transaction_id, get_client_mac, get_message_type,
}
use gateway_socket.Dhcp.Reply.{reply_start, reply_rest, write_response-reply}
use gateway_socket.Dhcp.Laws.{write_response-getters, write_response-relay}
use gateway_socket.Mailbox.{Mailbox, empty}
use gateway_socket.Mailbox.Laws.{
  IsCounted, Event, posts, handles, run, posted, serve_all, run-serve_all,
}
use gateway_socket.Gateway.Icmp.{icmp_mtu}
use gateway_socket.Gateway.Icmp.Laws.{
  is_quotable, reply_frame, ip_reply, icmp_part, icmp_mtu-reply_frame, reply_frame-Verifies,
}
use gateway_socket.Gateway.Samples.{user_address, user_mac, router_mac, out_frame, packet_of}

blank : Packet
blank = record { written_byte = pos 400; capacity = 400; in_memory = replicate 400 0 }

blank-Holds : Holds 400 blank
unfolding blank
blank-Holds = record { in_use = refl; fits = omega arith; block = length-replicate {A = ℕ} 400 0 }

abbrev word : List ℕ
word = 1 ∷ 2 ∷ 3 ∷ 4 ∷ []

read_mac-print_mac_example :
    read_mac (print_mac (0 ∷ 27 ∷ 160 ∷ 255 ∷ 5 ∷ 9 ∷ []) 18 ++ b'!' ∷ [])
    ≡ some (0 ∷ 27 ∷ 160 ∷ 255 ∷ 5 ∷ 9 ∷ [])
read_mac-print_mac_example =
    read_mac-print_mac (0 ∷ 27 ∷ 160 ∷ 255 ∷ 5 ∷ 9 ∷ []) (b'!' ∷ []) 18 refl (omega arith)
      (omega arith)

abbrev datagram : Datagram
datagram = record {
  ether_src = router_mac;
  ether_dst = user_mac;
  ip_src = 134744072;
  ip_dst = user_address;
  p_src = 67;
  p_dst = 68;
  payload = 1 ∷ 2 ∷ 3 ∷ [];
}

datagram-IsDatagram : IsDatagram datagram
datagram-IsDatagram = record {
  src_size = refl;
  dst_size = refl;
  src_ip = omega arith;
  dst_ip = omega arith;
  bytes = omega arith;
  short = omega arith;
}

make_packet-rfc_frame_example :
    make_packet blank router_mac user_mac 134744072 user_address 67 68 (1 ∷ 2 ∷ 3 ∷ 4 ∷ []) 3
    ≡ some (write_at 0 (rfc_frame datagram) blank, pos 45)
make_packet-rfc_frame_example =
    make_packet-rfc_frame blank-Holds datagram datagram-IsDatagram (omega arith) (4 ∷ [])

frame-Verifies_example :
    Verifies (ip_part datagram) × Verifies (udp_pseudo datagram ++ udp_part datagram)
frame-Verifies_example = frame-Verifies datagram datagram-IsDatagram

abbrev cancelling : Datagram
cancelling = record {
  ether_src = router_mac;
  ether_dst = user_mac;
  ip_src = 0;
  ip_dst = 0;
  p_src = 67;
  p_dst = 68;
  payload = 255 ∷ 83 ∷ [];
}

cancelling-IsDatagram : IsDatagram cancelling
cancelling-IsDatagram = record {
  src_size = refl;
  dst_size = refl;
  src_ip = omega arith;
  dst_ip = omega arith;
  bytes = omega arith;
  short = omega arith;
}

udp_checksum-zero_example : udp_checksum cancelling ≡ 0 ∷ 0 ∷ []
udp_checksum-zero_example =
    udp_checksum-zero cancelling cancelling-IsDatagram (unfold store32 in refl)

abbrev response : Response
response = record {
  discover = true;
  mtu = 1500;
  transaction_id = 67305985;
  client_in_addr = user_address;
  client_ether_addr = user_mac;
  server_identifier = 134744072;
  subnet_mask = 16777215;
  router = 16777226;
  dns_vector = 134744072 ∷ 16843009 ∷ [];
  lease_time = 7200;
}

write_response-reply_example :
    write_response blank 42 response
    ≡ (write_at 70 (reply_rest response) (write_at 42 (reply_start response) blank), 282)
write_response-reply_example =
    write_response-reply 400 blank 42 response blank-Holds refl (omega arith) (omega arith)

write_response-getters_example :
    let q = (write_response blank 42 response).0 in
    (get_opcode 42 q ≡ pos 2)
    × (get_transaction_id 42 q ≡ some 67305985)
    × (get_client_mac 42 q ≡ some user_mac)
    × (get_message_type 42 q ≡ pos 2)
write_response-getters_example =
    write_response-getters 400 blank 42 response blank-Holds refl (omega arith) (omega arith)
      (omega arith)

write_response-relay_example :
    read_byte_array (pos 66) (pos 70) (write_response blank 42 response).0
    ≡ read_byte_array (pos 66) (pos 70) blank
write_response-relay_example =
    write_response-relay 400 blank 42 response blank-Holds refl (omega arith) (omega arith)

abbrev push : ℕ → List ℕ → List ℕ
push x seen = x ∷ seen

abbrev schedule : List (Event push)
schedule = posts 1 ∷ posts 2 ∷ handles ∷ posts 3 ∷ []

run-serve_all_example :
    (m' : Mailbox ℕ) × (s' : List ℕ) × (run push schedule (empty, []) ≡ some (m', s'))
    × IsCounted m'
    × (serve_all push m'.queue s' ≡ serve_all push (posted push schedule) [])
run-serve_all_example = run-serve_all push schedule empty [] refl

abbrev long_packet : Packet
long_packet = packet_of (out_frame user_mac)

long_packet-Holds : Holds 48 long_packet
long_packet-Holds = record { in_use = refl; fits = omega arith; block = refl }

icmp_mtu-reply_frame_example :
    icmp_mtu (replicate 70 0) 1500 long_packet
    ≡ some (if is_quotable 48 long_packet then reply_frame (out_frame user_mac) 1500 ∷ [] else [])
icmp_mtu-reply_frame_example =
    icmp_mtu-reply_frame (replicate 70 0) 1500 long_packet-Holds (length-replicate {A = ℕ} 70 0)

reply_frame-Verifies_example :
    Verifies (Checksum.store_ip (ip_reply (out_frame user_mac)))
    × Verifies (icmp_part (out_frame user_mac) 1500)
reply_frame-Verifies_example = reply_frame-Verifies (out_frame user_mac) 1500 (omega arith) refl
