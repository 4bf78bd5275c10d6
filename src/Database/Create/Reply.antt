-- ===== src/Database/Create/Reply.antt =====
-- Database::create_dhcp: the frame that is sent to the client.
use gateway_socket.Base.{
  ℕ, ◌+◌, ◌*◌, ◌^◌, ◌≤◌, ◌<◌, ◌≡◌, refl, sym, ap, ◌∙◌, some, List, [], ◌∷◌, ◌++◌, pos, length,
  length-grown, ap₂, store16, store32, drop, take-drop, arith, splice, drop-splice,
  slice-splice_self, AllBytes,
}
use gateway_socket.Packet.{Packet, set_length}
use gateway_socket.Packet.Laws.{Holds, write_at}
use gateway_socket.Ethernet.Mac.{read_mac, read_loop, hex_to_byte}
use gateway_socket.Dhcp.{write_response}
use gateway_socket.Dhcp.Message.{message, length-message, write_response-message, AllBytes-message}
use gateway_socket.Udp.Make.Frame.{
  Datagram, IsDatagram, frame, ether_part, ip_part, udp_part, length-ether_part,
}
use gateway_socket.Udp.Make.Laws.{make_packet-written}
use gateway_socket.Requests.{DhcpRequest}
use gateway_socket.Gateway.Tables.{in_use}
use gateway_socket.Database.Create.{Config, Supply, gateway_mac_text, response_to, reply_packet}

abbrev pub gateway_mac : List ℕ
gateway_mac = 0x78 ∷ 0x19 ∷ 0xf7 ∷ 0x58 ∷ 0x30 ∷ 0x01 ∷ []

gateway_mac_lem : read_mac gateway_mac_text ≡ some gateway_mac
unfolding read_mac read_loop hex_to_byte
gateway_mac_lem = refl

-- The datagram from the gateway to the client: the message of the reply, from port 67 to port 68.
abbrev pub offer_datagram : List ℕ → Config → DhcpRequest → ℕ → Datagram
offer_datagram dhcp_block config request ip_addr = record {
  ether_src = gateway_mac;
  ether_dst = request.mac;
  ip_src = config.gateway_ip;
  ip_dst = ip_addr;
  p_src = 67;
  p_dst = 68;
  payload = message dhcp_block (response_to config request ip_addr);
}

-- Memory of the size that was asked for, a hardware address of six bytes, and what the code takes for
-- granted of the addresses.
pub record IsServable (supply : Supply) (config : Config) (request : DhcpRequest) (ip_addr : ℕ)
    : Type 0 where
  pub packet_size : length supply.packet_block ≡ 1514
  pub dhcp_size : length supply.dhcp_block ≡ 1514
  pub dhcp_bytes : AllBytes supply.dhcp_block
  pub mac_size : length request.mac ≡ 6
  pub mac_bytes : AllBytes request.mac
  pub few : length config.dns_list < 64
  pub gateway_word : config.gateway_ip < 2 ^ 32
  pub ip_word : ip_addr < 2 ^ 32

splice_start : (bs m : List ℕ) → length bs ≤ length m → splice 0 bs m ≡ bs ++ drop (length bs) m
splice_start bs m h =
    sym (take-drop (length bs) (splice 0 bs m))
    ∙ ap (λ xs. xs ++ drop (length bs) (splice 0 bs m))
        (slice-splice_self 0 (length bs) bs m refl (omega arith))
    ∙ ap (λ xs. bs ++ xs) (drop-splice 0 (length bs) bs m (omega arith))

module _ (supply : Supply) (config : Config) (request : DhcpRequest) (ip_addr : ℕ)
    (v : IsServable supply config request ip_addr) where
  abbrev pub datagram : Datagram
  datagram = offer_datagram supply.dhcp_block config request ip_addr

  size : length datagram.payload ≡ 274 + 4 * length config.dns_list
  size =
      length-message supply.dhcp_block (response_to config request ip_addr)
        (omega (arith, v.dhcp_size)) v.mac_size

  datagram-IsDatagram : IsDatagram datagram
  datagram-IsDatagram = record {
    src_size = refl;
    dst_size = v.mac_size;
    src_ip = v.gateway_word;
    dst_ip = v.ip_word;
    bytes =
        AllBytes-message supply.dhcp_block (response_to config request ip_addr) v.dhcp_bytes
          v.mac_bytes v.few;
    short = omega (arith, size, v.few);
  }

  packet : Packet
  packet = record { written_byte = pos 1514; capacity = 1514; in_memory = supply.packet_block }

  packet-Holds : Holds 1514 packet
  unfolding packet
  packet-Holds = record { in_use = refl; fits = omega arith; block = v.packet_size }

  dhcp : Packet
  dhcp = record { written_byte = pos 1472; capacity = 1514; in_memory = supply.dhcp_block }

  dhcp-Holds : Holds 1472 dhcp
  unfolding dhcp
  dhcp-Holds = record { in_use = refl; fits = omega arith; block = v.dhcp_size }

  extra : List ℕ
  extra = drop (length datagram.payload) supply.dhcp_block

  written :
      write_response dhcp 0 (response_to config request ip_addr)
      ≡ (record dhcp { in_memory = datagram.payload ++ extra }, length datagram.payload)
  unfolding dhcp extra
  written =
      write_response-message 1472 dhcp (response_to config request ip_addr) dhcp-Holds v.mac_size
        v.few (omega (arith, v.few))
      ∙ ap₂ (λ m k. (record dhcp { in_memory = m }, k))
          (splice_start datagram.payload supply.dhcp_block
            (omega (arith, size, v.few, v.dhcp_size)))
          (sym size)

  length-frame : length (frame datagram) ≡ 42 + length datagram.payload
  unfolding frame store16 store32
  length-frame = omega (
    arith,
    length-grown (ether_part datagram) (ip_part datagram ++ udp_part datagram)
        (length-ether_part packet-Holds datagram datagram-IsDatagram),
  )

  reply_packet_lem :
      reply_packet supply.packet_block supply.dhcp_block config request ip_addr
      ≡ some (set_length (pos (42 + length datagram.payload)) (write_at 0 (frame datagram) packet))
  unfolding reply_packet set_length packet dhcp extra
  reply_packet_lem =
      rw (gateway_mac_lem, reply_packet, written)
        (rw
          (make_packet-written packet-Holds datagram datagram-IsDatagram
            (omega (arith, size, v.few)) extra)
          refl)

  -- With memory of 1514 bytes for both packets, bytes in the memory of the message, a hardware address of
  -- six bytes in the request, fewer than 64 name servers and 32-bit addresses, the packet that is sent
  -- holds the frame of the datagram from the gateway to the client, from port 67 to port 68, with the
  -- message that the request is answered with, and nothing else.
  pub reply_packet-frame :
      (p : Packet) × (reply_packet supply.packet_block supply.dhcp_block config request ip_addr
        ≡ some p)
      × (in_use p ≡ frame datagram)
  unfolding set_length packet
  reply_packet-frame = (
    _,
    reply_packet_lem,
    slice-splice_self 0 (42 + length datagram.payload) (frame datagram) supply.packet_block
        length-frame (omega (arith, size, v.few, v.packet_size)),
  )
