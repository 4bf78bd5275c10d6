-- ===== src/System/Connects.antt =====
-- From a client's DHCP request to its connection: the frame of the request, the answer of the database's
-- thread, and the event loop in which the gateway's thread takes the client as a user.
use gateway_socket.Base.{
  ℕ, ◌≤◌, ◌≡◌, sym, subst, ap, ◌∙◌, ◌⊎◌, inl, inr, Option, false, some, List, [], pos, length,
}
use mathlib.Core.List.{Memᴰ}
use gateway_socket.Packet.{set_length}
use gateway_socket.Ethernet.Mac.{print_mac}
use gateway_socket.Requests.{UserInfo, DhcpRequest}
use gateway_socket.Gateway.Tables.{received}
use gateway_socket.Gateway.Inside.{offer, inside_verdict}
use gateway_socket.Gateway.Handlers.{Gateway}
use gateway_socket.Gateway.Connected.{IsConnected}
use gateway_socket.Gateway.Loop.{Server, Event, event_loop}
use gateway_socket.Gateway.Loop.Turns.{some_same}
use gateway_socket.Gateway.Loop.Served.{event_loop-IsServed}
use gateway_socket.Database.Create.{Text, Config, Supply, done, create_all}
use gateway_socket.Database.Sql.{StaticIp, User, Db, statements}
use gateway_socket.Database.Sql.Grants.{IsRefused}
use gateway_socket.Database.Sql.Leases.{IsGranted, deadline_of}
use gateway_socket.Database.Sql.Access.{SetsAccess}
use gateway_socket.Database.Loop.{Database, dhcp_event, handle_database}
use gateway_socket.System.{reading, System, take_inside, answered, IsFrame, IsSupply}
use gateway_socket.System.Invariant.{Invariant}
use gateway_socket.System.Answers.{IsConfigured}
use gateway_socket.System.Granting.{done_same}
use gateway_socket.System.Leasing.{handle_database-IsServing, dhcp_event-removals}
use gateway_socket.System.Rounds.{take_inside-Invariant}
use gateway_socket.System.Steps.{answered-Invariant}
use gateway_socket.System.Exchange.{later, frame-IsAnswered}
use gateway_socket.System.Joining.{delivered-IsJoining, take_inside-after, joining-IsConnected}

module _ (update_access_time : ℕ → Text → Db → Option ℕ × Db) (inet_addr : Text → ℕ)
    (config : Config) (statics : List StaticIp) (sets : SetsAccess update_access_time)
    (configured : IsConfigured inet_addr config) where
  -- The state behind a frame and the requests that the database's thread then handles.
  exchanged :
      (s s1 : System) (t : Database Db × Gateway)
      → Invariant inet_addr statics s
      → s.phase ≡ reading
      → s.server.gateway.user_del_request.queue ≡ []
      → (now : ℕ) (block bytes : List ℕ) (supply : ℕ → Supply) → IsFrame block bytes
      → ((i : ℕ) → IsSupply (supply i))
      → take_inside now block bytes s ≡ some s1
      → handle_database statements update_access_time inet_addr config supply dhcp_event
          (s1.database, s1.server.gateway)
        ≡ done t
      → Invariant inet_addr statics (answered s1 t)
        × (s1.phase ≡ reading)
        × (t.1.user_del_request.queue ≡ [])
  exchanged s s1 t v here_reading none_removed now block bytes supply fit supplies read handled =
      let (round, same) = take_inside-after now block bytes s s1 read in
      let (s1', read', v1') =
        take_inside-Invariant inet_addr statics s v here_reading block bytes fit now in
      let v1 = subst (Invariant inet_addr statics) (some_same s1' s1 (sym read' ∙ read)) v1' in
      let (t', handled', serving, posted, taken) =
        handle_database-IsServing inet_addr statics config configured update_access_time sets supply
          supplies dhcp_event s1.database s1.server.gateway v1.serving in
      let removals =
        dhcp_event-removals inet_addr statics config configured update_access_time sets supply
          supplies s1.database s1.server.gateway t v1.serving handled in
      (
        subst (λ u. Invariant inet_addr statics (answered s1 u))
            (done_same t' t (sym handled' ∙ handled))
            (answered-Invariant inet_addr statics s1 t' v1 serving posted),
        ap (λ u. u.phase) same ∙ here_reading,
        ap (λ m. m.queue) removals
            ∙ ap (λ u. u.server.gateway.user_del_request.queue) same
            ∙ none_removed,
      )

  -- In a state with the invariant, between two turns and with no removal of a user waiting, let the
  -- gateway's thread read a frame of bytes that is judged the DHCP request `r`, no discovery, let the
  -- database's thread handle its requests, and let the gateway's event loop look at every event, in any
  -- order. All three end. Either the request changes nothing, and then no client with its hardware
  -- address is registered or no address is left for it, or the registered client is granted an address
  -- and is connected behind the loop: a well-formed IP packet from this address and the client's hardware
  -- address to an address that is not static leaves for the outside, unless it is a DHCP request, under
  -- the hardware address of the static address; and one to this address and that hardware address, from
  -- an address that is neither unset nor static, enters with the client's hardware address, unless it is
  -- a DHCP reply.
  pub request-Connects :
      (s : System) (v : Invariant inet_addr statics s)
      → s.phase ≡ reading
      → s.server.gateway.user_del_request.queue ≡ []
      → (now : ℕ) (block bytes : List ℕ) (r : DhcpRequest) → IsFrame block bytes
      → length bytes ≤ 1514
      → inside_verdict s.server.gateway.tables
          (length bytes)
          (set_length (pos (length bytes)) (received bytes s.server.in_packet))
        ≡ offer r
      → r.is_discover ≡ false
      → (supply : ℕ → Supply) → ((i : ℕ) → IsSupply (supply i))
      → (order : List Event) → ((e : Event) → Memᴰ e order)
      → (s1 : System) × (t : Database Db × Gateway) × (before : Db × Gateway) × (u : Server)
        × (take_inside now block bytes s ≡ some s1)
        × (handle_database statements update_access_time inet_addr config supply dhcp_event
              (s1.database, s1.server.gateway)
            ≡ done t)
        × (event_loop order (answered s1 t).server ≡ some u)
        × (create_all statements inet_addr config supply s.database.create_dhcp_request.queue
              (s.database.tables, s.server.gateway)
            ≡ done before)
        × ((((t.0.tables, t.1) ≡ before)
              × IsRefused
                  (deadline_of (later s.database.create_dhcp_request.queue supply 0).current_time)
                  (print_mac r.mac 32)
                  before.0)
            ⊎ ((client : User) × (ip : Text) × (user : UserInfo) × (static_mac : List ℕ)
                × (client.mac ≡ print_mac r.mac 32)
                × Memᴰ client before.0.user
                × IsGranted
                    (deadline_of (later s.database.create_dhcp_request.queue supply 0).current_time)
                    before.0
                    client
                    ip
                × (user.user_mac ≡ r.mac)
                × IsConnected u.gateway.tables (inet_addr ip) user static_mac))
  request-Connects s v here_reading none_removed now block bytes r fit short offered asks supply
        supplies order complete =
      let (s1, t, before, read, handled, emptied, queued, outcome) =
        frame-IsAnswered inet_addr statics config configured s v now block bytes r fit short offered
          update_access_time supply supplies in
      let (v2, phase, stays) =
        exchanged s s1 t v here_reading none_removed now block bytes supply fit supplies read
          handled in
      let (u, looped, done') = event_loop-IsServed order (answered s1 t).server v2.sound in
      (
        s1,
        t,
        before,
        u,
        read,
        handled,
        looped,
        queued,
        elim outcome [
          | inl nothing ↦ inl nothing
          | inr (client, ip, mac, registered, granted, delivered) ↦
              let (user, own, joining) =
                delivered-IsJoining r (inet_addr ip) _ before.1 t.1 v2.sound.packets
                  v2.sound.users_added stays asks delivered in
              let (u', looped', static_mac, connected) =
                joining-IsConnected inet_addr statics (answered s1 t) order (inet_addr ip) user v2
                  phase complete joining in
              inr (
                client,
                ip,
                user,
                static_mac,
                mac,
                registered,
                granted,
                own,
                subst (λ w. IsConnected w.gateway.tables (inet_addr ip) user static_mac)
                    (some_same u' u (sym looped' ∙ looped)) connected,
              )
        ],
      )
