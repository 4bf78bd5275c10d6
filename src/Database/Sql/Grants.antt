-- ===== src/Database/Sql/Grants.antt =====
-- Database::create_dhcp on the tables: the whole answer to one request.
use gateway_socket.Base.{
  ℕ, ◌≡◌, ◌≤◌, ◌⊎◌, refl, inl, inr, arith, Bool-cases, some, List, [], ◌∷◌, length, bytes_eq,
  bytes_eq→eq, filter, map, subst,
}
use mathlib.Core.List.{Memᴰ}
use mathlib.Core.List.Memᴰ.{head}
use gateway_socket.Ethernet.Mac.{print_mac}
use gateway_socket.Requests.{DhcpRequest}
use gateway_socket.Gateway.Tables.{in_use}
use gateway_socket.Gateway.Handlers.{Gateway}
use gateway_socket.Packet.{Packet}
use gateway_socket.Udp.Make.Frame.{frame}
use gateway_socket.Database.Create.{Text, Config, Supply, done, create_one, grant, answer}
use gateway_socket.Database.Create.Reply.{IsServable, offer_datagram, reply_packet-frame}
use gateway_socket.Database.Sql.{User, StaticIp, Db, has_mac, holders, set_ip, statements}
use gateway_socket.Database.Sql.Laws.{
  rows_of, holders-set_ip, set_ip-own, set_ip-Mem, rows_of-set_ip, of_filter,
}
use gateway_socket.Database.Sql.Leases.{
  listed, IsLeased, IsGranted, IsExhausted, IsFreed, deadline_of, chosen,
}

-- No client with the hardware address is registered, or no address is left for it.
abbrev pub IsRefused : ℕ → Text → Db → Type 0
IsRefused deadline mac db =
    (rows_of mac db.user ≡ 0)
    ⊎ ((client : User) × Memᴰ client db.user × (client.mac ≡ mac) × IsExhausted deadline db client)

-- What one request does to the database and to the gateway's queues.
pub data Outcome (inet_addr : Text → ℕ) (config : Config) (supply : Supply) (request : DhcpRequest)
    (db : Db) (g : Gateway) (s : Db × Gateway) : Type 0 where
  -- The hardware address is not registered.
  unknown :
      rows_of (print_mac request.mac 32) db.user ≡ 0
      → s ≡ (db, g)
      → Outcome inet_addr config supply request db g s
  -- No address is left.
  refused :
      (client : User)
      → Memᴰ client db.user
      → client.mac ≡ print_mac request.mac 32
      → IsExhausted (deadline_of supply.current_time) db client
      → s ≡ (db, g)
      → Outcome inet_addr config supply request db g s
  -- Every row of the client now holds `ip`, and the reply that offers it is posted.
  leased :
      (client : User) (ip : Text) (packet : Packet)
      → Memᴰ client db.user
      → client.mac ≡ print_mac request.mac 32
      → IsGranted (deadline_of supply.current_time) db client ip
      → ((u : User) → Memᴰ u s.0.user → u.mac ≡ print_mac request.mac 32 → u.ip ≡ some ip)
      → in_use packet ≡ frame (offer_datagram supply.dhcp_block config request (inet_addr ip))
      → s.1 ≡ answer config request (inet_addr ip) packet g
      → Outcome inet_addr config supply request db g s

module _ (db : Db) (client : User) (ip mac : Text) (users us : List User) (l : IsLeased db)
    (f : IsFreed db client ip users) (h : filter (has_mac mac) db.user ≡ client ∷ us) where
  rows : (other : Text) → rows_of other users ≤ 1
  rows other = omega (arith, f.same_rows other, l.one_row other)

  set_ip-alone : (other : Text) → holders other (set_ip ip mac users) ≤ 1
  set_ip-alone other = elim f.free [
    | inl (e, own) ↦
        rw (e, set_ip-own ip mac db.user us client (l.one_row mac) h own) (l.alone other)
    | inr none_left ↦ elim (Bool-cases (bytes_eq ip other)) [
      | inl e ↦
          let same : ip ≡ other = bytes_eq→eq ip other e in
          let few : holders other users ≡ 0 = rw same at none_left in
          ground (arith, holders-set_ip ip mac other users, rows mac)
      | inr e ↦ ground (arith, holders-set_ip ip mac other users, f.fewer other, l.alone other)
    ]
  ]

  set_ip-known :
      (other : Text) → 1 ≤ holders other (set_ip ip mac users) → 1 ≤ listed other db.static_ip
  set_ip-known other many = elim (Bool-cases (bytes_eq ip other)) [
    | inl e ↦ subst (λ t. 1 ≤ listed t db.static_ip) (bytes_eq→eq ip other e) f.is_listed
    | inr e ↦ l.known other (ground (arith, holders-set_ip ip mac other users, f.fewer other))
  ]

  set_ip-IsLeased : IsLeased (record db { user = set_ip ip mac users })
  set_ip-IsLeased = record {
    one_row = λ other. omega (arith, rows_of-set_ip ip mac other users, rows other);
    alone = set_ip-alone;
    known = set_ip-known;
  }

module _ (inet_addr : Text → ℕ) (config : Config) (supply : Supply) (request : DhcpRequest)
    (db : Db) (g : Gateway) (l : IsLeased db)
    (v : (ip : Text) → IsServable supply config request (inet_addr ip)) where
  mac_text : Text
  mac_text = print_mac request.mac 32

  sent : Text → Packet
  sent ip = (reply_packet-frame supply config request (inet_addr ip) (v ip)).0

  served : Text → List User → Db × Gateway
  served ip users = (
    record db { user = set_ip ip mac_text users },
    answer config request (inet_addr ip) (sent ip) g,
  )

  grant-served :
      (ip : Text) (users : List User) (statics : List StaticIp)
      → filter (λ s. bytes_eq s.ip ip) db.static_ip ≡ statics
      → 1 ≤ length statics
      → grant statements inet_addr config supply request (some ip) (record db { user = users }, g)
        ≡ done (served ip users)
  unfolding grant served sent mac_text map
  grant-served ip users [] e le = ground arith
  grant-served ip users (s ∷ rest) e le =
      rw (e, grant, (reply_packet-frame supply config request (inet_addr ip) (v ip)).1) refl

  Answered : Type 0
  Answered =
      (s : Db × Gateway) × (create_one statements inet_addr config supply request (db, g) ≡ done s)
      × IsLeased s.0
      × (s.0.static_ip ≡ db.static_ip)
      × Outcome inet_addr config supply request db g s

  known_client :
      (client : User) (us : List User) → filter (has_mac mac_text) db.user ≡ client ∷ us → Answered
  unfolding Answered create_one served sent mac_text map
  known_client client us h =
      let (m, e) = of_filter (has_mac mac_text) client db.user (rw h (head refl)) in
      let same : client.mac ≡ mac_text = bytes_eq→eq client.mac mac_text e in
      elim (chosen inet_addr supply.current_time db l client m) [
        | inl (none_left, exhausted) ↦
            ((db, g), rw (h, none_left) refl, l, refl, refused client m same exhausted refl)
        | inr (ip, users, choice, granted, freed) ↦ (
          served ip users,
          rw (h, choice) (grant-served ip users _ refl freed.is_listed),
          set_ip-IsLeased db client ip mac_text users us l freed h,
          refl,
          leased client ip (sent ip) m same granted (set_ip-Mem ip mac_text users)
              (reply_packet-frame supply config request (inet_addr ip) (v ip)).2 refl,
        )
      ]

  unknown_client : filter (has_mac mac_text) db.user ≡ [] → Answered
  unfolding Answered create_one mac_text rows_of map
  unknown_client h = ((db, g), rw h refl, l, refl, unknown (rw h refl) refl)

  -- On tables where each hardware address has one row, each address one client and each client's address
  -- is listed, and with memory, a hardware address and 32-bit addresses as `reply_packet` needs them, one
  -- request is served without an exception or undefined behaviour, the tables stay so, and the listed
  -- addresses are untouched. Either the hardware address is not registered, or there is no address for
  -- it, and nothing changes; or every row of the client then holds the address that it may be given (its
  -- own, else an unused dynamic one, else the dynamic one that was left unused longest), and the frame
  -- that offers this address is posted, with the client's user before it if this was not a discover.
  pub create_one-Outcome :
      (s : Db × Gateway) × (create_one statements inet_addr config supply request (db, g) ≡ done s)
      × IsLeased s.0
      × (s.0.static_ip ≡ db.static_ip)
      × Outcome inet_addr config supply request db g s
  unfolding Answered
  create_one-Outcome = go (filter (has_mac mac_text) db.user) refl
    where
      go : (us : List User) → filter (has_mac mac_text) db.user ≡ us → Answered
      go [] h = unknown_client h
      go (client ∷ us) h = known_client client us h
