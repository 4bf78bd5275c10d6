-- ===== src/System/Tests/Requests.antt =====
-- DHCP requests through the running program, at a concrete database.
use gateway_socket.Base.{
  false, List, ℕ, ◌≡◌, refl, some, replicate, length, length-replicate, arith, ◌⊎◌, pos, bytes_eq,
  load32, load16, ntohs, htons, splice,
}
use gateway_socket.Gateway.Samples.{discovery_frame, request_frame}
use gateway_socket.Gateway.Loop.{Server, event_loop}
use gateway_socket.Gateway.Loop.Samples.{order, order-complete}
use gateway_socket.Gateway.Connected.{IsConnected}
use gateway_socket.Requests.{UserInfo}
use gateway_socket.System.Connects.{request-Connects}
use gateway_socket.Ethernet
use gateway_socket.Ethernet.Mac.{print_mac}
use gateway_socket.Ip
use gateway_socket.Udp
use gateway_socket.Dhcp
use gateway_socket.Udp.Make.Frame.{frame}
use gateway_socket.Packet.{read_byte_array, read_byte, set_length}
use gateway_socket.Mailbox.{empty}
use gateway_socket.Gateway.Tables.{received}
use gateway_socket.Gateway.Inside.{
  offer, inside_arp, own_request, inside_dhcp, inside_udp, inside_ip, inside_verdict,
}
use gateway_socket.Database.Create.{create_all}
use gateway_socket.Database.Create.Reply.{offer_datagram}
use gateway_socket.Database.Sql.{User}
use mathlib.Core.List.{Memᴰ}
use gateway_socket.Database.Sql.Grants.{IsRefused}
use gateway_socket.Database.Sql.Leases.{IsGranted, deadline_of}
use gateway_socket.Database.Sql.Delivered.{IsDelivered}
use gateway_socket.System.{take_inside}
use gateway_socket.System.Exchange.{frame-IsAnswered}
use gateway_socket.Gateway.Handlers.{Gateway}
use gateway_socket.Database.Create.{Text, done}
use gateway_socket.Database.Sql.{Db, statements}
use gateway_socket.Database.Loop.{Database, dhcp_event, handle_database}
use gateway_socket.Startup.Laws.{filled}
use gateway_socket.Startup.Samples.{database}
use gateway_socket.System.{answered, System, first_system, IsFrame}
use gateway_socket.System.Samples.{
  request, update_access_time-SetsAccess, update_access_time, inet_addr, config,
  config-IsConfigured, first, supply, supply-IsSupply, first-Invariant,
}

discovery_frame-IsFrame : IsFrame (replicate 70 0) discovery_frame
discovery_frame-IsFrame = record {
  memory = length-replicate {A = ℕ} 70 0;
  long = omega arith;
  bytes = omega arith;
}

discovery-offered :
    inside_verdict first.server.gateway.tables
      (length discovery_frame)
      (set_length (pos (length discovery_frame)) (received discovery_frame first.server.in_packet))
    ≡ offer request
unfolding first_system inside_verdict inside_arp inside_ip inside_udp inside_dhcp own_request
    Udp.get_source Udp.get_destination Udp.get_next_offset Dhcp.get_opcode Dhcp.get_message_type
    Dhcp.get_client_mac Dhcp.get_transaction_id Ethernet.get_protocol Ethernet.get_source
    Ethernet.get_next_offset Ip.get_protocol Ip.get_next_offset Ip.get_source Ip.get_destination
    read_byte_array read_byte bytes_eq load32 load16 ntohs htons set_length splice
discovery-offered = refl

frame-IsAnswered_example :
    (s1 : System) × (t : Database Db × Gateway) × (before : Db × Gateway) × (take_inside 1000
        (replicate 70 0)
        discovery_frame
        first
      ≡ some s1)
    × (handle_database statements update_access_time inet_addr config
          (λ n. supply)
          dhcp_event
          (s1.database, s1.server.gateway)
        ≡ done t)
    × (t.0.create_dhcp_request ≡ empty)
    × (create_all statements inet_addr config
          (λ n. supply)
          first.database.create_dhcp_request.queue
          (first.database.tables, first.server.gateway)
        ≡ done before)
    × ((((t.0.tables, t.1) ≡ before)
          × IsRefused (deadline_of supply.current_time) (print_mac request.mac 32) before.0)
        ⊎ ((client : User) × (ip : Text) × (client.mac ≡ print_mac request.mac 32)
            × Memᴰ client before.0.user
            × IsGranted (deadline_of supply.current_time) before.0 client ip
            × IsDelivered request
                (inet_addr ip)
                (frame (offer_datagram supply.dhcp_block config request (inet_addr ip)))
                before.1
                t.1))
unfolding first_system
frame-IsAnswered_example =
    frame-IsAnswered inet_addr database.static_ip config config-IsConfigured first first-Invariant
      1000 (replicate 70 0) discovery_frame request discovery_frame-IsFrame (omega arith)
      discovery-offered update_access_time (λ n. supply) (λ n. supply-IsSupply)

request_frame-IsFrame : IsFrame (replicate 70 0) request_frame
request_frame-IsFrame = record {
  memory = length-replicate {A = ℕ} 70 0;
  long = omega arith;
  bytes = omega arith;
}

request-offered :
    inside_verdict first.server.gateway.tables
      (length request_frame)
      (set_length (pos (length request_frame)) (received request_frame first.server.in_packet))
    ≡ offer (record request { is_discover = false })
unfolding first_system inside_verdict inside_arp inside_ip inside_udp inside_dhcp own_request
    Udp.get_source Udp.get_destination Udp.get_next_offset Dhcp.get_opcode Dhcp.get_message_type
    Dhcp.get_client_mac Dhcp.get_transaction_id Ethernet.get_protocol Ethernet.get_source
    Ethernet.get_next_offset Ip.get_protocol Ip.get_next_offset Ip.get_source Ip.get_destination
    read_byte_array read_byte bytes_eq load32 load16 ntohs htons set_length splice
request-offered = refl

request-Connects_example :
    (s1 : System) × (t : Database Db × Gateway) × (before : Db × Gateway) × (u : Server)
    × (take_inside 1000 (replicate 70 0) request_frame first ≡ some s1)
    × (handle_database statements update_access_time inet_addr config
          (λ n. supply)
          dhcp_event
          (s1.database, s1.server.gateway)
        ≡ done t)
    × (event_loop order (answered s1 t).server ≡ some u)
    × (create_all statements inet_addr config
          (λ n. supply)
          first.database.create_dhcp_request.queue
          (first.database.tables, first.server.gateway)
        ≡ done before)
    × ((((t.0.tables, t.1) ≡ before)
          × IsRefused (deadline_of supply.current_time) (print_mac request.mac 32) before.0)
        ⊎ ((client : User) × (ip : Text) × (user : UserInfo) × (static_mac : List ℕ) × (client.mac
              ≡ print_mac request.mac 32)
            × Memᴰ client before.0.user
            × IsGranted (deadline_of supply.current_time) before.0 client ip
            × (user.user_mac ≡ request.mac)
            × IsConnected u.gateway.tables (inet_addr ip) user static_mac))
unfolding first_system filled
request-Connects_example =
    request-Connects update_access_time inet_addr config database.static_ip
      update_access_time-SetsAccess config-IsConfigured first first-Invariant refl refl 1000
      (replicate 70 0) request_frame (record request { is_discover = false }) request_frame-IsFrame
      (omega arith) request-offered refl (λ n. supply) (λ n. supply-IsSupply) order order-complete
