-- ===== src/Gateway/Inside.antt =====
-- Gateway::serve (gateway-socket/gateway.cpp), its first loop: a frame from the inside device.
pub mod Admit
pub mod Passes
pub mod Offers
pub mod Total
pub mod Rounds
pub mod Exactly
mod Tests
use gateway_socket.Base.{
  ℕ, ◌+◌, ◌-◌, Option, none, some, List, [], ◌∷◌, ◌++◌, pos, ℤ, eq_int, not, Bool, true, false,
  ◌&&◌, ◌||◌, if◌then◌else◌, ◌==◌, ltb, u64, length, find, assign, bytes_eq,
}
use mathlib.Core.List.{map}
use mathlib.Core.Option
use gateway_socket.Packet.{Packet, set_length}
use gateway_socket.Ethernet
use gateway_socket.Ethernet.{ether_header_size, ethertype_ip, ethertype_arp}
use gateway_socket.Arp
use gateway_socket.Arp.{ArpHeader}
use gateway_socket.Ip
use gateway_socket.Udp
use gateway_socket.Dhcp
use gateway_socket.Checksum.{ipproto_udp}
use gateway_socket.Requests.{UserInfo, UpdateTime, DhcpRequest}
use gateway_socket.Gateway.Tables.{
  Tables, Effect, send_inside, send_outside, create_dhcp, update_time, in_use, received, my_mtu,
  my_packet_len,
}
use gateway_socket.Gateway.Icmp.{icmp_mtu}

-- What becomes of a frame: `fault` is undefined behaviour (an address that was not read, or an
-- iterator at the end of its map); a `forward`ed frame may be that of a user, with its key.
pub data Verdict : Type 0 where
  fault drop : Verdict
  offer : DhcpRequest → Verdict
  forward : Packet → Option (ℕ × UserInfo) → Verdict

infixl 5 ◌>>=◌
abbrev pub ◌>>=◌ {ℓ} : {A : Type ℓ} → Option A → (A → Verdict) → Verdict
none >>= f = fault
some a >>= f = f a

-- ARPHRD_ETHER is 1, ARPOP_REQUEST 1, ARPOP_REPLY 2.
unfoldable pub is_plain_arp : ArpHeader → Bool
is_plain_arp h =
    (h.ar_hrd == 1)
    && (h.ar_pro == ethertype_ip)
    && (h.ar_op == 1 || h.ar_op == 2)
    && (h.ar_pln == Arp.in_addr_size)
    && (h.ar_hln == Arp.ether_addr_size)

-- A user's frame passes if it came from the user's own hardware address.
forward_user : Tables → ℕ → UserInfo → (List ℕ → Packet → Packet) → Packet → List ℕ → Verdict
forward_user t src_ip user rewrite p source_mac =
    if not (bytes_eq user.user_mac source_mac)
    then drop
    else (find src_ip t.static_ip_map >>= λ static_mac.
        forward (rewrite static_mac p) (some (src_ip, user)))

-- What both protocols do with the iterators: the destination must not be one of the static addresses,
-- a user must come with its own hardware address, and nobody else may use a static address. `rewrite`
-- puts the hardware address of the user's static address into the frame.
unfoldable pub admit_inside : Tables → ℕ → ℕ → (List ℕ → Packet → Packet) → Packet → Verdict
unfolding forward_user
admit_inside t dest_ip src_ip rewrite p = elim (find dest_ip t.static_ip_map) [
  | some _ ↦ drop
  | none ↦ elim (find src_ip t.user_map) [
    | some user ↦ do
      source_mac ← Ethernet.get_source 0 p
      forward_user t src_ip user rewrite p source_mac
    | none ↦ elim (find src_ip t.static_ip_map) [ some _ ↦ drop | none ↦ forward p none ]
  ]
]

-- ARP: both copies of the source address are changed.
pub rewrite_arp : List ℕ → Packet → Packet
rewrite_arp mac p =
    Ethernet.set_source 0 mac (Arp.set_source_mac (Ethernet.get_next_offset 0) mac p)

unfoldable pub inside_arp : Tables → Packet → Verdict
unfolding is_plain_arp
inside_arp t p = if not (is_plain_arp (Arp.get_header arp_at p)) then drop else do
  dest_ip ← Arp.get_destination_ip arp_at p
  src_ip ← Arp.get_source_ip arp_at p
  admit_inside t dest_ip src_ip rewrite_arp p
  where
    arp_at : ℕ
    arp_at = Ethernet.get_next_offset 0

-- A request is queued if its client address is the one that the frame came from.
offer_if_own : DhcpRequest → List ℕ → Verdict
offer_if_own request source_mac =
    if not (bytes_eq request.mac source_mac) then drop else offer request

-- The request of a message of either known type.
unfoldable pub own_request : ℕ → Packet → Bool → Verdict
unfolding offer_if_own
own_request dhcp_at p is_discover = do
  mac ← Dhcp.get_client_mac dhcp_at p
  trans_id ← Dhcp.get_transaction_id dhcp_at p
  source_mac ← Ethernet.get_source 0 p
  let request : DhcpRequest = record {
    mac = mac;
    trans_id = trans_id;
    mtu = my_mtu;
    is_discover = is_discover;
  }
  offer_if_own request source_mac

-- A datagram from port 68 to port 67; `dhcp_at` is behind its UDP header.
unfoldable pub inside_dhcp : ℕ → Packet → Verdict
inside_dhcp dhcp_at p =
    if not (eq_int (Dhcp.get_opcode dhcp_at p) 1)
    then drop
    else if eq_int message_type 1
    then own_request dhcp_at p true
    else if eq_int message_type 3
    then own_request dhcp_at p false
    else drop
  where
    message_type : ℤ
    message_type = Dhcp.get_message_type dhcp_at p

-- A DHCP request never goes outside; any other datagram is treated like the `rest`.
unfoldable pub inside_udp : ℕ → Packet → Verdict → Verdict
inside_udp udp_at p rest = do
  source ← Udp.get_source udp_at p
  destination ← Udp.get_destination udp_at p
  if source == 68 && destination == 67 then inside_dhcp (Udp.get_next_offset udp_at) p else rest

unfoldable pub inside_ip : Tables → ℕ → Packet → Verdict
inside_ip t read_len p = if ltb read_len (ip_at + udp_at) then drop else do
  dest_ip ← Ip.get_destination ip_at p
  src_ip ← Ip.get_source ip_at p
  let rest = admit_inside t dest_ip src_ip (Ethernet.set_source 0) p
  if Ip.get_protocol ip_at p == ipproto_udp then inside_udp udp_at p rest else rest
  where
    ip_at : ℕ
    ip_at = Ethernet.get_next_offset 0

    udp_at : ℕ
    udp_at = Ip.get_next_offset ip_at p

unfoldable pub inside_verdict : Tables → ℕ → Packet → Verdict
inside_verdict t read_len p =
    if Ethernet.get_protocol 0 p == ethertype_arp
    then inside_arp t p
    else if Ethernet.get_protocol 0 p == ethertype_ip
    then inside_ip t read_len p
    else forward p none

-- The state of the loop after a frame, and what it sent, in order.
pub record Round : Type 0 where
  pub tables : Tables
  pub buffer : Packet
  pub effects : List Effect

-- `if(user)`: the entry's time is renewed, and the database told, once its timeout has run out.
unfoldable pub touch : ℕ → Tables → ℕ × UserInfo → Tables × List Effect
touch now t (key, user) =
    if ltb (u64 (user.last_access + user.timeout)) now
    then (
      record t { user_map = assign key (record user { last_access = now }) t.user_map },
      update_time (record { mac = user.user_mac; ip = user.ip; utc = now }) ∷ [],
    )
    else (t, [])

unfoldable pub finish_inside : ℕ → Tables → Packet → Verdict → Option Round
finish_inside now t p fault = none
finish_inside now t p drop = some (record { tables = t; buffer = p; effects = [] })
finish_inside now t p (offer r) =
    some (record { tables = t; buffer = p; effects = create_dhcp r ∷ [] })
finish_inside now t p (forward q none) =
    some (record { tables = t; buffer = q; effects = send_outside (in_use q) ∷ [] })
finish_inside now t p (forward q (some user)) =
    let (t', told) = touch now t user in
    some (record { tables = t'; buffer = q; effects = told ++ send_outside (in_use q) ∷ [] })

-- One round of the loop that read `frame` into the buffer; `block` is the memory that icmp_mtu is
-- given. `none`: undefined behaviour.
unfoldable pub on_inside : ℕ → List ℕ → Tables → Packet → List ℕ → Option Round
on_inside now block t buffer frame =
    if ltb my_packet_len read_len
    then Option.map too_long (icmp_mtu block my_mtu cut)
    else if ltb read_len ether_header_size
    then some (record { tables = t; buffer = received frame buffer; effects = [] })
    else finish_inside now t whole (inside_verdict t read_len whole)
  where
    read_len : ℕ
    read_len = length frame

    cut : Packet
    cut = set_length (pos my_packet_len) (received frame buffer)

    whole : Packet
    whole = set_length (pos read_len) (received frame buffer)

    too_long : List (List ℕ) → Round
    too_long frames = record { tables = t; buffer = cut; effects = map send_inside frames }
