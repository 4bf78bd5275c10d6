-- ===== src/Gateway/Inside/Tests.antt =====
-- Gateway::serve, frames from inside: the properties at concrete frames.
use gateway_socket.Base.{
  ℕ, ◌+◌, ◌≤◌, ◌≡◌, ◌↔◌, refl, true, none, some, [], pos, replicate, length-replicate, find,
  bytes_eq, load32, load16, ntohs, htons, splice, arith,
}
use gateway_socket.Packet.{Packet, read_byte_array, write_byte_array, read_byte}
use gateway_socket.Ethernet
use gateway_socket.Ethernet.{ethertype_ip, ethertype_arp}
use gateway_socket.Ip
use gateway_socket.Udp
use gateway_socket.Dhcp
use gateway_socket.Requests.{UserInfo, DhcpRequest}
use gateway_socket.Gateway.Tables.{Tables}
use gateway_socket.Gateway.Samples.{
  user_address, user_mac, static_mac, user, tables, tables-IsBacked, out_frame, packet_of, buffer,
  buffer-IsBuffer, discovery_frame,
}
use gateway_socket.Gateway.Inside.{
  fault, forward, offer, forward_user, admit_inside, inside_arp, offer_if_own, own_request,
  inside_dhcp, inside_udp, inside_ip, inside_verdict, Round, on_inside,
}
use gateway_socket.Gateway.Inside.Admit.{admit_inside-fault_iff}
use gateway_socket.Gateway.Inside.Passes.{Passes}
use gateway_socket.Gateway.Inside.Offers.{IsOffered}
use gateway_socket.Gateway.Inside.Exactly.{inside_verdict-Passes_iff, inside_verdict-IsOffered_iff}
use gateway_socket.Gateway.Inside.Rounds.{IsFit, on_inside-IsFit}

-- A user's packet leaves with the hardware address of the static address.
user_forward :
    inside_verdict tables 48 (packet_of (out_frame user_mac))
    ≡ forward (packet_of (out_frame static_mac)) (some (user_address, user))
unfolding inside_verdict inside_arp inside_ip inside_udp admit_inside forward_user
    Ethernet.get_protocol Ethernet.get_source Ethernet.set_source Ethernet.get_next_offset
    Ip.get_protocol Ip.get_next_offset Ip.get_source Ip.get_destination read_byte_array
    write_byte_array read_byte find bytes_eq load32 load16 ntohs htons splice
user_forward = refl

-- The user again, whose address is not static any more.
orphans : Tables
orphans = record { static_ip_map = []; user_map = tables.user_map }

source_known : Ethernet.get_source 0 (packet_of (out_frame user_mac)) ≡ some user_mac
unfolding Ethernet.get_source read_byte_array
source_known = refl

admit_inside-fault_iff_example :
    (admit_inside orphans 134744072 user_address
        (Ethernet.set_source 0)
        (packet_of (out_frame user_mac))
      ≡ fault)
    ↔ ((find 134744072 orphans.static_ip_map ≡ none)
        × (find user_address orphans.static_ip_map ≡ none)
        × (info : UserInfo) × (find user_address orphans.user_map ≡ some info)
        × (info.user_mac ≡ user_mac))
admit_inside-fault_iff_example =
    admit_inside-fault_iff orphans 134744072 user_address (Ethernet.set_source 0)
      (packet_of (out_frame user_mac)) user_mac source_known

on_inside-IsFit_example :
    (r : Round) × (on_inside 1000 (replicate 70 0) tables buffer (out_frame user_mac) ≡ some r)
    × IsFit r
on_inside-IsFit_example =
    on_inside-IsFit 1000 (replicate 70 0) tables buffer (out_frame user_mac) buffer-IsBuffer
      (length-replicate {A = ℕ} 70 0) tables-IsBacked (λ e. omega arith)

abbrev discovery : Packet
discovery = record { written_byte = pos 285; capacity = 285; in_memory = discovery_frame }

abbrev request : DhcpRequest
request = record { mac = user_mac; trans_id = 67305985; mtu = 1500; is_discover = true }

discovery_offer : inside_verdict tables 285 discovery ≡ offer request
unfolding inside_verdict inside_arp inside_ip inside_udp inside_dhcp own_request offer_if_own
    Udp.get_source Udp.get_destination Udp.get_next_offset Dhcp.get_opcode Dhcp.get_message_type
    Dhcp.get_client_mac Dhcp.get_transaction_id Ethernet.get_protocol Ethernet.get_source
    Ethernet.get_next_offset Ip.get_protocol Ip.get_next_offset Ip.get_source Ip.get_destination
    read_byte_array read_byte bytes_eq load32 load16 ntohs htons
discovery_offer = refl

inside_verdict-Passes_iff_example :
    (inside_verdict tables 48 (packet_of (out_frame user_mac))
      ≡ forward (packet_of (out_frame static_mac)) (some (user_address, user)))
    ↔ Passes tables 48
        (packet_of (out_frame user_mac))
        (packet_of (out_frame static_mac))
        (some (user_address, user))
inside_verdict-Passes_iff_example =
    inside_verdict-Passes_iff tables 48 (packet_of (out_frame user_mac))
      (packet_of (out_frame static_mac)) (some (user_address, user))
      (record { in_use = refl; fits = omega arith; block = refl })

inside_verdict-IsOffered_iff_example : (inside_verdict tables 285 discovery ≡ offer request) ↔ (
    (Ethernet.get_protocol 0 discovery ≡ ethertype_ip)
    × (14 + Ip.get_next_offset 14 discovery ≤ 285)
    × IsOffered discovery request)
inside_verdict-IsOffered_iff_example =
    inside_verdict-IsOffered_iff tables 285 discovery request
      (record { in_use = refl; fits = omega arith; block = refl })
