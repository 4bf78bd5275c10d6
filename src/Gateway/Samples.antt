-- ===== src/Gateway/Samples.antt =====
-- Tables and frames for the tests of the gateway's packet loops.
use gateway_socket.Base.{
  ℕ, refl, List, [], ◌∷◌, ◌++◌, pos, replicate, length-replicate, Bool-cases, inl, inr, find, ◌==◌,
  arith,
}
use gateway_socket.Packet.{Packet}
use gateway_socket.Requests.{UserInfo}
use gateway_socket.Gateway.Tables.{Tables}
use gateway_socket.Gateway.Buffer.{IsBuffer, IsBacked}

-- 10.0.0.5, as it is loaded on a little-endian machine.
abbrev pub user_address : ℕ
user_address = 83886090

abbrev pub user_mac : List ℕ
user_mac = 2 ∷ 0 ∷ 0 ∷ 0 ∷ 0 ∷ 1 ∷ []

abbrev pub static_mac : List ℕ
static_mac = 2 ∷ 0 ∷ 0 ∷ 0 ∷ 0 ∷ 2 ∷ []

abbrev pub router_mac : List ℕ
router_mac = 2 ∷ 0 ∷ 0 ∷ 0 ∷ 0 ∷ 9 ∷ []

abbrev pub user : UserInfo
user = record { ip = user_address; user_mac = user_mac; last_access = 100; timeout = 60 }

abbrev pub tables : Tables
tables = record {
  static_ip_map = (user_address, static_mac) ∷ [];
  user_map = (user_address, user) ∷ [];
}

pub tables-IsBacked : IsBacked tables
unfolding find
tables-IsBacked ip info e = elim (Bool-cases (user_address == ip)) [
  | inl same ↦ (static_mac, rw same refl)
  | inr other ↦ ground arith
]

-- A TCP packet between 10.0.0.5 and 8.8.8.8, without its last bytes.
abbrev pub ip_frame : List ℕ → List ℕ → List ℕ → List ℕ → List ℕ
ip_frame to from src dst =
    to
    ++ from
    ++ (8 ∷ 0 ∷ 0x45 ∷ 0 ∷ 0 ∷ 34 ∷ 0 ∷ 0 ∷ 0 ∷ 0 ∷ 64 ∷ 6 ∷ 0 ∷ 0 ∷ [])
    ++ src
    ++ dst
    ++ replicate 14 0

abbrev pub user_bytes : List ℕ
user_bytes = 10 ∷ 0 ∷ 0 ∷ 5 ∷ []

abbrev pub server_bytes : List ℕ
server_bytes = 8 ∷ 8 ∷ 8 ∷ 8 ∷ []

abbrev pub out_frame : List ℕ → List ℕ
out_frame from = ip_frame router_mac from user_bytes server_bytes

abbrev pub in_frame : List ℕ → List ℕ
in_frame to = ip_frame to router_mac server_bytes user_bytes

abbrev pub packet_of : List ℕ → Packet
packet_of frame = record { written_byte = pos 48; capacity = 48; in_memory = frame }

abbrev pub buffer : Packet
buffer = record { written_byte = pos 0; capacity = 1514; in_memory = replicate 1514 0 }

pub buffer-IsBuffer : IsBuffer buffer
buffer-IsBuffer = record { capacity = refl; block = length-replicate {A = ℕ} 1514 0 }

-- A DHCP message, of a type, of a client with the user's hardware address.
abbrev dhcp_frame : ℕ → List ℕ
dhcp_frame kind =
    (255 ∷ 255 ∷ 255 ∷ 255 ∷ 255 ∷ 255 ∷ [])
    ++ user_mac
    ++ (8 ∷ 0 ∷ 0x45 ∷ 0 ∷ 1 ∷ 15 ∷ 0 ∷ 0 ∷ 0 ∷ 0 ∷ 64 ∷ 17 ∷ 0 ∷ 0 ∷ [])
    ++ replicate 4 0
    ++ replicate 4 255
    ++ (0 ∷ 68 ∷ 0 ∷ 67 ∷ 0 ∷ 251 ∷ 0 ∷ 0 ∷ 1 ∷ 1 ∷ 6 ∷ 0 ∷ 1 ∷ 2 ∷ 3 ∷ 4 ∷ [])
    ++ replicate 20 0
    ++ user_mac
    ++ replicate 202 0
    ++ (99 ∷ 130 ∷ 83 ∷ 99 ∷ 53 ∷ 1 ∷ kind ∷ [])

abbrev pub discovery_frame : List ℕ
discovery_frame = dhcp_frame 1

abbrev pub request_frame : List ℕ
request_frame = dhcp_frame 3
