-- ===== src/Database/Sql/Delivered.antt =====
-- A DHCP request from the database thread to the client: the reply that Database::create_dhcp posts is
-- sent by Gateway::send_packet, and the client becomes a user by Gateway::add_user.
use gateway_socket.Base.{
  ℕ, ◌≡◌, refl, sym, ap, subst, ◌∙◌, ◌⊎◌, inl, inr, false, Bool-cases, Option, some, List, [], ◌∷◌,
  ◌++◌, find, arith,
}
use mathlib.Core.List.{Memᴰ}
use gateway_socket.Ethernet.Mac.{print_mac}
use gateway_socket.Packet.{Packet}
use gateway_socket.Requests.{UserInfo, DhcpRequest}
use gateway_socket.Mailbox.{post, empty}
use gateway_socket.Mailbox.Laws.{IsCounted, post-IsCounted}
use gateway_socket.Udp.Make.Frame.{frame}
use gateway_socket.Gateway.Tables.{in_use}
use gateway_socket.Gateway.Handlers.{
  Gateway, add_user_info, request_send_packet, send_packet, add_user,
}
use gateway_socket.Gateway.Handlers.Laws.{frames, latest, send_packet-frames}
use gateway_socket.Gateway.Handlers.Users.{keyed, add_user-latest}
use gateway_socket.Database.Create.{Text, Config, Supply, done, create_one, answer}
use gateway_socket.Database.Create.Reply.{IsServable, offer_datagram}
use gateway_socket.Database.Sql.{Db, User, statements}
use gateway_socket.Database.Sql.Leases.{IsLeased, IsGranted, deadline_of}
use gateway_socket.Database.Sql.Grants.{IsRefused, unknown, refused, leased, create_one-Outcome}

frames-post :
    (packets : List Packet) (p : Packet)
    → frames (packets ++ p ∷ []) ≡ frames packets ++ in_use p ∷ []
frames-post [] p = refl
frames-post (q ∷ rest) p = ap (λ fs. in_use q ∷ fs) (frames-post rest p)

-- The last request for an address wins.
latest-keyed :
    (infos : List UserInfo) (info : UserInfo) (old : Option UserInfo)
    → latest info.ip (keyed (infos ++ info ∷ [])) old ≡ some info
latest-keyed [] info old = ground arith
latest-keyed (first ∷ rest) info old = latest-keyed rest info _

-- What the gateway's thread does with the answer: the frame goes to the inside device behind those that
-- waited, and the client of a request is a user with its address.
abbrev pub IsDelivered : DhcpRequest → ℕ → List ℕ → Gateway → Gateway → Type 0
IsDelivered request ip_addr bytes g s =
    (g1 : Gateway) × (send_packet s ≡ some (g1, frames g.send_packet_request.queue ++ bytes ∷ []))
    × (request.is_discover ≡ false
        → (g2 : Gateway) × (info : UserInfo) × (add_user g1 ≡ some g2)
          × (find ip_addr g2.tables.user_map ≡ some info)
          × (info.user_mac ≡ request.mac))

send_packet-posted :
    (packet : Packet) (h : Gateway)
    → IsCounted h.send_packet_request
    → send_packet (request_send_packet packet h)
      ≡ some (
        record h { send_packet_request = empty },
        frames h.send_packet_request.queue ++ in_use packet ∷ [],
      )
unfolding request_send_packet post
send_packet-posted packet h c =
    send_packet-frames (request_send_packet packet h)
      (post-IsCounted packet h.send_packet_request c)
    ∙ ap (λ fs. some (record h { send_packet_request = empty }, fs))
        (frames-post h.send_packet_request.queue packet)

abbrev client_of : Config → DhcpRequest → ℕ → UserInfo
client_of config request ip_addr = record {
  ip = ip_addr;
  user_mac = request.mac;
  last_access = 0;
  timeout = config.timeout;
}

answer-IsDelivered :
    (config : Config) (request : DhcpRequest) (ip_addr : ℕ) (packet : Packet) (g : Gateway)
    → IsCounted g.send_packet_request
    → IsCounted g.user_add_request
    → IsDelivered request ip_addr (in_use packet) g (answer config request ip_addr packet g)
unfolding answer add_user_info post
answer-IsDelivered config request ip_addr packet g c d = elim (Bool-cases request.is_discover) [
  | inl e ↦ (
    record g { send_packet_request = empty },
    rw (answer, e) (send_packet-posted packet g c),
    λ no. ground (arith, no),
  )
  | inr e ↦
      let info = client_of config request ip_addr in
      let h = add_user_info info g in
      let (t, added, statics, users) =
        add_user-latest (record h { send_packet_request = empty })
          (post-IsCounted info g.user_add_request d) in
      (
        record h { send_packet_request = empty },
        rw (answer, e) (send_packet-posted packet h c),
        λ no. (_, info, added, users ip_addr ∙ latest-keyed g.user_add_request.queue info _, refl),
      )
]

module _ (inet_addr : Text → ℕ) (config : Config) (supply : Supply) (request : DhcpRequest)
    (db : Db) (g : Gateway) (l : IsLeased db)
    (v : (ip : Text) → IsServable supply config request (inet_addr ip)) where
  -- On tables with their keys, with what `reply_packet` needs, and if the eventfds count the gateway's
  -- packets and new users, a DHCP request either changes nothing, and then no such client is registered
  -- or no address is left for it, or the client, which is registered, is granted an address; the
  -- gateway's handler of packets then sends what waited and, behind it, the frame that offers this
  -- address; and if it was not a discover, its handler of new users then ends with the client's hardware
  -- address as the user of the address.
  pub create_one-IsDelivered :
      IsCounted g.send_packet_request
      → IsCounted g.user_add_request
      → (s : Db × Gateway) × (create_one statements inet_addr config supply request (db, g)
          ≡ done s)
        × (((s ≡ (db, g))
              × IsRefused (deadline_of supply.current_time) (print_mac request.mac 32) db)
            ⊎ ((client : User) × (ip : Text) × (client.mac ≡ print_mac request.mac 32)
                × Memᴰ client db.user
                × IsGranted (deadline_of supply.current_time) db client ip
                × IsDelivered request
                    (inet_addr ip)
                    (frame (offer_datagram supply.dhcp_block config request (inet_addr ip)))
                    g
                    s.1))
  create_one-IsDelivered c d =
      let (s, e, leases, statics, outcome) =
        create_one-Outcome inet_addr config supply request db g l v in
      (
        s,
        e,
        elim outcome [
          | unknown none_there same ↦ inl (same, inl none_there)
          | refused client m mac exhausted same ↦ inl (same, inr (client, m, mac, exhausted))
          | leased client ip packet m mac granted held bytes posted ↦ inr (
            client,
            ip,
            mac,
            m,
            granted,
            subst (IsDelivered request (inet_addr ip) _ g) (sym posted) (
                subst
                  (λ bs.
                    IsDelivered request (inet_addr ip) bs g
                      (answer config request (inet_addr ip) packet g))
                  bytes (answer-IsDelivered config request (inet_addr ip) packet g c d)),
          )
        ],
      )
