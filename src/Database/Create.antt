-- ===== src/Database/Create.antt =====
-- Database::create_dhcp (gateway-socket/database.cpp): the answer to the DHCP requests that the gateway
-- queues. The prepared statements are an interface, and so is `inet_addr`.
pub mod Reply
use gateway_socket.Base.{
  ℕ, suc, ◌+◌, ◌-◌, ◌*◌, ◌^◌, Option, none, some, List, [], ◌∷◌, ℤ, pos, to_ℕ, u64, htons, Bool,
  true, false, not, if◌then◌else◌,
}
use gateway_socket.Packet
use gateway_socket.Packet.{Packet, set_length, get_length}
use gateway_socket.Ethernet.Mac.{read_mac, print_mac}
use gateway_socket.Dhcp.{Response, write_response}
use gateway_socket.Udp.Make.{make_packet, total_header_len}
use gateway_socket.Requests.{UserInfo, DhcpRequest}
use gateway_socket.Mailbox.{Mailbox, post, handle}
use gateway_socket.Gateway.Tables.{my_packet_len}
use gateway_socket.Gateway.Handlers.{Gateway, add_user_info, request_send_packet}
use gateway_socket.Database.{push_back}

-- What the constructor is given for the replies.
pub record Config : Type 0 where
  pub gateway_ip : ℕ
  pub subnet_mask : ℕ
  pub dns_list : List ℕ
  pub timeout : ℕ

-- A text is the list of its character codes.
abbrev pub Text : Type 0
Text = List ℕ

-- The statements, over a state of the database: the first column of the rows, as `getString` gives it
-- (a NULL is the empty text). `none` is an SQL exception.
pub record Statements (Db : Type 0) : Type 0 where
  pub select_user_ip_from_mac : Text → Db → Option (List Text)
  pub select_unused_dynamic_ip : Db → Option (List Text)
  pub select_using_dynamic_ip : ℕ → Db → Option (List Text)
  pub select_mac_with_ip : Text → Db → Option (List Text)
  pub delete_dynamic : Text → Db → Option Db
  pub insert_dynamic : Text → Text → Db → Option Db

-- `exits`: an SQL exception, after which the process exits. `fault`: undefined behaviour.
pub data Result {ℓ} (A : Type ℓ) : Type ℓ where
  done : A → Result A
  exits fault : Result A

infixl 5 ◌>>=◌
abbrev pub ◌>>=◌ {ℓ κ} : {A : Type ℓ} {B : Type κ} → Result A → (A → Result B) → Result B
done a >>= f = f a
exits >>= f = exits
fault >>= f = fault

abbrev pub sql {ℓ} : {A : Type ℓ} → Option A → Result A
sql none = exits
sql (some a) = done a

abbrev pub defined {ℓ} : {A : Type ℓ} → Option A → Result A
defined none = fault
defined (some a) = done a

-- DHCP_TIMEOUT
abbrev pub dhcp_timeout : ℕ
dhcp_timeout = 7200

-- "78:19:f7:58:30:01"
abbrev pub gateway_mac_text : Text
gateway_mac_text =
    b'7' ∷ b'8' ∷ b':' ∷ b'1' ∷ b'9' ∷ b':' ∷ b'f' ∷ b'7' ∷ b':' ∷ b'5' ∷ b'8' ∷ b':' ∷ b'3' ∷ b'0'
    ∷ b':' ∷ b'0' ∷ b'1' ∷ []

abbrev pub response_to : Config → DhcpRequest → ℕ → Response
response_to config request ip_addr = record {
  discover = request.is_discover;
  mtu = htons request.mtu;
  transaction_id = request.trans_id;
  client_in_addr = ip_addr;
  client_ether_addr = request.mac;
  server_identifier = config.gateway_ip;
  subnet_mask = config.subnet_mask;
  router = config.gateway_ip;
  dns_vector = config.dns_list;
  lease_time = dhcp_timeout;
}

-- The packet to send, and the packet for the message; the memory of each as it was allocated. `none`:
-- `makePacket` has undefined behaviour, or so has `readMAC`.
unfoldable pub reply_packet : List ℕ → List ℕ → Config → DhcpRequest → ℕ → Option Packet
reply_packet packet_block dhcp_block config request ip_addr = elim (read_mac gateway_mac_text) [
  | none ↦ none
  | some gateway_mac ↦
      elim (make_packet packet gateway_mac request.mac config.gateway_ip ip_addr 67 68
        dhcp.in_memory (to_ℕ (get_length dhcp))) [
          | none ↦ none
          | some (q, udp_len) ↦ some (set_length udp_len q)
        ]
]
  where
    empty_packet : List ℕ → Packet
    empty_packet block = record {
      written_byte = pos 0;
      capacity = my_packet_len;
      in_memory = block;
    }

    packet : Packet
    packet = set_length (pos my_packet_len) (empty_packet packet_block)

    message : Packet × ℕ
    message =
        write_response
          (set_length (pos (my_packet_len - total_header_len)) (empty_packet dhcp_block)) 0
          (response_to config request ip_addr)

    dhcp : Packet
    dhcp = set_length (pos message.1) message.0

-- The clock and the memory that one request is served with.
pub record Supply : Type 0 where
  pub current_time : ℕ
  pub packet_block : List ℕ
  pub dhcp_block : List ℕ

-- `if(!request.isDiscover) addUserInfo(userInfo); sendPacketRequest(packet);`
unfoldable pub answer : Config → DhcpRequest → ℕ → Packet → Gateway → Gateway
answer config request ip_addr packet g =
    let info : UserInfo = record {
      ip = ip_addr;
      user_mac = request.mac;
      last_access = 0;
      timeout = config.timeout;
    } in
    request_send_packet packet (if not request.is_discover then add_user_info info g else g)

module _ {Db : Type 0} (sq : Statements Db) (inet_addr : Text → ℕ) where
  -- `current_time` is in milliseconds; the subtraction is of unsigned 64-bit numbers.
  unfoldable pub release_used : ℕ → Db → Result (Option Text × Db)
  release_used current_time db = do
    rows ← sql (sq.select_using_dynamic_ip (u64 (current_time + 2 ^ 64 - 1000 * dhcp_timeout)) db)
    elim rows [
      | [] ↦ done (none, db)
      | ip ∷ _ ↦ do db' ← sql (sq.delete_dynamic ip db); done (some ip, db')
    ]

  -- `ip_str` if it is not empty, else a dynamic address that no user has, else the one that was used the
  -- longest time ago; `none` is `!found`.
  unfoldable pub choose_ip : ℕ → Text → Db → Result (Option Text × Db)
  unfolding release_used
  choose_ip current_time [] db = do
    rows ← sql (sq.select_unused_dynamic_ip db)
    elim rows [ ip ∷ _ ↦ done (some ip, db) | [] ↦ release_used current_time db ]
  choose_ip current_time (c ∷ ip_str) db = done (some (c ∷ ip_str), db)

  -- From `if(found)` on.
  unfoldable pub grant :
      Config → Supply → DhcpRequest → Option Text → Db × Gateway → Result (Db × Gateway)
  unfolding answer
  grant config supply request none s = done s
  grant config supply request (some ip_str) (db, g) = do
    db' ← sql (sq.insert_dynamic ip_str (print_mac request.mac 32) db)
    macs ← sql (sq.select_mac_with_ip ip_str db')
    elim macs [
      | [] ↦ done (db', g)
      | _ ∷ _ ↦ do
        packet ←
            defined
              (reply_packet supply.packet_block supply.dhcp_block config request (inet_addr ip_str))
        done (db', answer config request (inet_addr ip_str) packet g)
    ]

  -- The body of the loop over the requests.
  unfoldable pub create_one : Config → Supply → DhcpRequest → Db × Gateway → Result (Db × Gateway)
  unfolding grant choose_ip
  create_one config supply request (db, g) = do
    rows ← sql (sq.select_user_ip_from_mac (print_mac request.mac 32) db)
    elim rows [
      | [] ↦ done (db, g)
      | ip_str ∷ _ ↦ do
        choice ← choose_ip supply.current_time ip_str db
        grant config supply request choice.0 (choice.1, g)
    ]

  -- The second loop; each request has its own supply.
  unfoldable pub create_all :
      Config → (ℕ → Supply) → List DhcpRequest → Db × Gateway → Result (Db × Gateway)
  create_all config supply [] s = done s
  create_all config supply (request ∷ rest) s = do
    s' ← create_one config (supply 0) request s
    create_all config (λ i. supply (suc i)) rest s'

  -- `fault` is also `front` of an empty queue.
  unfoldable pub create_dhcp :
      Config
      → (ℕ → Supply)
      → Mailbox DhcpRequest
      → Db × Gateway
      → Result (Mailbox DhcpRequest × (Db × Gateway))
  create_dhcp config supply m s = do
    taken ← defined (handle push_back m [])
    s' ← create_all config supply taken.1 s
    done (taken.0, s')

-- Database::createDHCP.
unfoldable pub request_create_dhcp : DhcpRequest → Mailbox DhcpRequest → Mailbox DhcpRequest
request_create_dhcp request m = post request m
