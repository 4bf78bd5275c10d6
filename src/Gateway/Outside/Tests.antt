-- ===== src/Gateway/Outside/Tests.antt =====
-- Gateway::serve, frames from outside: the properties at concrete frames.
use gateway_socket.Base.{
  ℕ, ◌≡◌, refl, some, replicate, length-replicate, find, bytes_eq, load32, load16, ntohs, htons,
  splice, arith,
}
use gateway_socket.Packet.{read_byte_array, write_byte_array, read_byte}
use gateway_socket.Ethernet
use gateway_socket.Ip
use gateway_socket.Gateway.Samples.{
  user_mac, static_mac, tables, tables-IsBacked, in_frame, packet_of, buffer, buffer-IsBuffer,
}
use gateway_socket.Gateway.Loop.Samples.{in_frame-IsQuiet}
use gateway_socket.Gateway.Inside.{Round}
use gateway_socket.Gateway.Inside.Rounds.{IsFit}
use gateway_socket.Gateway.Outside.{
  deliver_ip, admit_ip, outside_dhcp, outside_ip, outside_verdict, on_outside,
}
use gateway_socket.Gateway.Outside.Passes.{Enters}
use gateway_socket.Gateway.Tables.{Tables}
use gateway_socket.Gateway.Outside.Alike.{AreAlike}
use gateway_socket.Gateway.Outside.Exactly.{outside_verdict-Enters_iff}
use gateway_socket.Gateway.Outside.Rounds.{on_outside-IsFit}

-- A packet to a static address enters with the hardware address of its user.
user_entry :
    outside_verdict tables 48 (packet_of (in_frame static_mac))
    ≡ some (tables, some (packet_of (in_frame user_mac)))
unfolding outside_verdict outside_ip admit_ip deliver_ip outside_dhcp Ethernet.get_protocol
    Ethernet.get_destination Ethernet.set_destination Ethernet.get_next_offset Ip.get_protocol
    Ip.get_next_offset Ip.get_source Ip.get_destination read_byte_array write_byte_array read_byte
    find bytes_eq load32 load16 ntohs htons splice
user_entry = refl

outside_verdict-Enters_iff_example :
    (outside_verdict tables 48 (packet_of (in_frame static_mac))
        ≡ some (tables, some (packet_of (in_frame user_mac)))
      → Enters tables 48 (packet_of (in_frame static_mac)) tables (packet_of (in_frame user_mac)))
    × (Enters tables 48 (packet_of (in_frame static_mac)) tables (packet_of (in_frame user_mac))
        → (t'' : Tables) × (outside_verdict tables 48 (packet_of (in_frame static_mac))
            ≡ some (t'', some (packet_of (in_frame user_mac))))
          × AreAlike tables t'')
outside_verdict-Enters_iff_example =
    outside_verdict-Enters_iff tables 48 (packet_of (in_frame static_mac)) tables
      (packet_of (in_frame user_mac)) (record { in_use = refl; fits = omega arith; block = refl })

on_outside-IsFit_example :
    (r : Round) × (on_outside (replicate 70 0) tables buffer (in_frame static_mac) ≡ some r)
    × IsFit r
on_outside-IsFit_example =
    on_outside-IsFit (replicate 70 0) tables buffer (in_frame static_mac) buffer-IsBuffer
      (length-replicate {A = ℕ} 70 0) tables-IsBacked (λ e. omega arith) in_frame-IsQuiet
