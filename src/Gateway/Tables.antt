-- ===== src/Gateway/Tables.antt =====
-- The two maps of class Gateway (gateway-socket/gateway.hh), and what its packet loop sends.
use gateway_socket.Base.{ℕ, List, take, to_ℕ, splice}
use gateway_socket.Packet.{Packet, get_length}
use gateway_socket.Requests.{UserInfo, UpdateTime, DhcpRequest}

-- A pointer in `userMap` is the only one to its user, so the map holds the user.
pub record Tables : Type 0 where
  pub static_ip_map : List (ℕ × List ℕ)
  pub user_map : List (ℕ × UserInfo)

-- MY_MTU is ETH_DATA_LEN, MY_PACKET_LEN is ETH_FRAME_LEN.
abbrev pub my_mtu : ℕ
my_mtu = 1500

abbrev pub my_packet_len : ℕ
my_packet_len = 1514

pub data Effect : Type 0 where
  -- A frame written to `inDev` or `outDev`.
  send_inside : List ℕ → Effect
  send_outside : List ℕ → Effect
  -- A request queued in the database thread.
  create_dhcp : DhcpRequest → Effect
  update_time : UpdateTime → Effect

-- `writePacket(packet.inMemory, packet.getLength())`
abbrev pub in_use : Packet → List ℕ
in_use p = take (to_ℕ (get_length p)) p.in_memory

-- `readPacket(packet.inMemory, MY_PACKET_LEN)`: a longer frame is cut off at the end of the buffer.
abbrev pub received : List ℕ → Packet → Packet
received frame p = record p { in_memory = splice 0 frame p.in_memory }
